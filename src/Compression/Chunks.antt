-- ===== src/Compression/Chunks.antt =====
-- Chunks of sixteen, from the `tput` of a writer to the calls of `next` of its reader.
use fast_stdb.Common.{
  ℕ, ◌%◌, ◌≤◌, ◌≡◌, refl, sym, ap, ◌∙◌, arith, true, some, List, [], ◌∷◌, ◌++◌, length, All,
}
use fast_stdb.Compression.Stream.{Writer, Reader, emit, IsU64}
use fast_stdb.Compression.VByte
use fast_stdb.Compression.VByte.Pair.{Ready}
use fast_stdb.Compression.VByte.Chunk.{
  chunk_bytes, tput-Emits, length-chunk_bytes, Reads, Reads-chunk, IsEven-length,
}
use fast_stdb.Compression.DeltaDelta
use fast_stdb.Compression.DeltaDelta.{DeltaWriter, DeltaReader, last_or}
use fast_stdb.Compression.DeltaDelta.RoundTrip.{
  delta_bytes, length-delta_bytes, tput-delta_bytes, Reads-delta_bytes,
}
use fast_stdb.Compression.Fcm
use fast_stdb.Compression.Fcm.{FcmWriter, FcmReader, encode_all}
use fast_stdb.Compression.Fcm.Chunk.{fcm_bytes, length-fcm_bytes, tput-fcm_bytes}
use fast_stdb.Compression.Fcm.RoundTrip.{Yields, Between, Yields-fcm_bytes}

-- With 136 bytes of room, `tput` of sixteen 64-bit values succeeds and appends at most 136 bytes;
-- a reader at an even count, with no zeros pending, that finds these bytes next reads the
-- values in sixteen calls of `next`, ends behind the bytes and is again at an even count.
pub next_many-tput :
    (xs rest : List ℕ) (w : Writer) (r : Reader)
    → length xs ≡ 16
    → All IsU64 xs
    → 136 ≤ w.room
    → Ready r
    → (bytes : List ℕ) × (VByte.tput xs w ≡ (true, emit w bytes))
      × (length bytes ≤ 136)
      × Reads xs rest (record r { rest = bytes ++ rest })
next_many-tput xs rest w r sixteen small room ready =
    let short : length (chunk_bytes xs) ≤ 136 =
      omega (arith, length-chunk_bytes xs (omega arith)) in
    (
      chunk_bytes xs,
      tput-Emits xs (IsEven-length xs (omega arith)) w (omega arith),
      short,
      Reads-chunk xs rest (record r { rest = chunk_bytes xs ++ rest }) sixteen small ready refl,
    )

-- The reader of timestamps is where the writer is, between two chunks.
abbrev pub InStep : DeltaWriter → DeltaReader → Reader → Type 0
InStep wd rd r = (rd.prev ≡ wd.prev) × IsU64 wd.prev × (rd.counter % 16 ≡ 0) × Ready r

last_or-IsU64 : (prev : ℕ) (xs : List ℕ) → IsU64 prev → All IsU64 xs → IsU64 (last_or prev xs)
unfolding last_or
last_or-IsU64 prev [] h small = h
last_or-IsU64 prev (x ∷ xs) h small = last_or-IsU64 x xs small.0 small.1

-- With 146 bytes of room, `tput` of sixteen 64-bit timestamps, in any order, succeeds and appends
-- at most 146 bytes; a reader that is in step with the writer and finds these bytes next
-- reads the timestamps, and is in step with the writer again, behind the bytes.
pub next_many-tput_deltas :
    (xs rest : List ℕ) (wd : DeltaWriter) (w : Writer) (rd : DeltaReader) (r : Reader)
    → length xs ≡ 16
    → All IsU64 xs
    → 146 ≤ w.room
    → InStep wd rd r
    → (bytes : List ℕ) × (wd' : DeltaWriter) × (rd' : DeltaReader) × (r' : Reader)
      × (DeltaDelta.tput xs wd w ≡ (true, wd', emit w bytes))
      × (length bytes ≤ 146)
      × (DeltaDelta.next_many 16 rd (record r { rest = bytes ++ rest }) ≡ some (xs, rd', r'))
      × (r'.rest ≡ rest)
      × InStep wd' rd' r'
next_many-tput_deltas xs rest wd w rd r sixteen small room (same, hp, start, ready) =
    let bytes : List ℕ = delta_bytes wd.prev xs in
    let short : length bytes ≤ 146 = length-delta_bytes wd.prev xs sixteen in
    let (rd', r', reads, prev, whole, at, ready') =
      Reads-delta_bytes xs rest rd (record r { rest = bytes ++ rest }) sixteen small
        (omega (arith, same, hp)) start ready
        (ap (λ (p : ℕ). delta_bytes p xs ++ rest) (sym same)) in
    (
      bytes,
      record wd { prev = last_or wd.prev xs },
      rd',
      r',
      tput-delta_bytes xs wd w sixteen (omega arith),
      short,
      reads,
      at,
      (prev ∙ ap (λ (p : ℕ). last_or p xs) same, last_or-IsU64 wd.prev xs hp small, whole, ready'),
    )

-- With 136 bytes of room, `tput` of the bit patterns of sixteen doubles succeeds and appends at
-- most 136 bytes, where no value is left over from `put`; a reader between chunks with the
-- writer's predictor that finds these bytes next gives exactly these patterns in sixteen calls of
-- `next`, ends behind the bytes, and its predictor is the writer's again.
pub Yields-tput :
    (xs rest : List ℕ) (wf : FcmWriter) (w : Writer) (rf : FcmReader) (r : Reader)
    → length xs ≡ 16
    → All IsU64 xs
    → 136 ≤ w.room
    → w.cnt % 2 ≡ 0
    → wf.nelements % 2 ≡ 0
    → Between wf.predictor r.rest rf r
    → (bytes : List ℕ) × (wf' : FcmWriter) × (Fcm.tput xs wf w ≡ (true, wf', emit w bytes))
      × (length bytes ≤ 136)
      × (wf'.nelements % 2 ≡ 0)
      × Yields (Between wf'.predictor rest) xs rf (record r { rest = bytes ++ rest })
Yields-tput xs rest wf w rf r sixteen small room whole pairs (same, even, none_left, e, ready) =
    let bytes : List ℕ = fcm_bytes xs wf.predictor in
    let short : length bytes ≤ 136 = length-fcm_bytes xs wf.predictor sixteen in
    (
      bytes,
      record wf { predictor = (encode_all xs wf.predictor).1 },
      tput-fcm_bytes xs wf w (IsEven-length xs (omega arith)) small pairs whole (omega arith),
      short,
      pairs,
      Yields-fcm_bytes xs rest wf.predictor rf (record r { rest = bytes ++ rest }) sixteen small
          (same, even, none_left, refl, ready),
    )
