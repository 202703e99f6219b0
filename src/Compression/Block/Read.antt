-- ===== src/Compression/Block/Read.antt =====
-- `DataBlockReader::next` over the bytes of a block: the chunks, the tail, and the end.
use fast_stdb.Common.{
  ℕ, ◌+◌, ◌*◌, ◌%◌, ◌^◌, ◌<◌, ◌≤◌, ◌≡◌, ◌≢◌, refl, sym, ap, ◌∙◌, subst, arith, List, [], ◌∷◌, ◌++◌,
  length, length-append, append_assoc, All, false, ◌==◌, get_or, some, ne→==, bit_and,
}
use fast_stdb.Common.Bits.{bit_and-mask}
use fast_stdb.Compression.Stream.{Reader, IsU64}
use fast_stdb.Compression.DeltaDelta
use fast_stdb.Compression.DeltaDelta.{DeltaReader, last_or}
use fast_stdb.Compression.DeltaDelta.RoundTrip.{delta_bytes, Reads-delta_bytes}
use fast_stdb.Compression.Predictor.{Predictor}
use fast_stdb.Compression.Fcm
use fast_stdb.Compression.Fcm.{FcmReader, encode_all}
use fast_stdb.Compression.Fcm.Chunk.{fcm_bytes}
use fast_stdb.Compression.Fcm.RoundTrip.{Yields, Between, Yields-fcm_bytes}
use fast_stdb.Compression.Block.{
  BlockReader, ok, next, read_chunk, read_chunk_value, read_timestamps, get_main_size,
}
use fast_stdb.Compression.Block.Layout.{
  Sample, ts_of, values_of, IsSmall, sample_bytes, chunks_bytes, end_prev, end_predictor, next_prev,
  next_predictor, length-map,
}
use fast_stdb.Compression.Block.Invariant.{IsChunk}
use fast_stdb.Compression.Block.Flush.{All-map}
use fast_stdb.Compression.Block.History.{flat}

-- `next` gives the samples one after the other, and `P` holds of the reader behind them.
abbrev pub Gives : (BlockReader → Type 0) → List Sample → BlockReader → Type 0
Gives P [] b = P b
Gives P (s ∷ ss) b = (b' : BlockReader) × (next b ≡ some (ok, s.0, s.1, b')) × Gives P ss b'

pub Gives-append :
    (P : BlockReader → Type 0) (xs ys : List Sample) (b : BlockReader)
    → Gives (Gives P ys) xs b
    → Gives P (xs ++ ys) b
Gives-append P [] ys b h = h
Gives-append P (x ∷ xs) ys b (b', e, h) = (b', e, Gives-append P xs ys b' h)

pub Gives-map :
    (P Q : BlockReader → Type 0) (xs : List Sample) (b : BlockReader)
    → ((c : BlockReader) → P c → Q c)
    → Gives P xs b
    → Gives Q xs b
Gives-map P Q [] b f h = f b h
Gives-map P Q (x ∷ xs) b f (b', e, h) = (b', e, Gives-map P Q xs b' f h)

-- The reader between two chunks, at the sample `index`, with the bytes `rest` before it.
pub record At (block : List ℕ) (prev : ℕ) (p : Predictor) (rest : List ℕ) (index : ℕ)
    (b : BlockReader) : Type 0 where
  pub same_block : b.block ≡ block
  pub here : b.read_index ≡ index
  pub last_ts : b.ts_stream.prev ≡ prev
  pub small : IsU64 prev
  pub whole : b.ts_stream.counter % 16 ≡ 0
  pub values : Between p rest b.val_stream b.stream

get_or-at :
    (done more : List Sample) (s : Sample) → get_or (ts_of (done ++ s ∷ more)) (length done) 0 ≡ s.0
get_or-at [] more s = refl
get_or-at (d ∷ done) more s = get_or-at done more s

-- The index does not wrap.
abbrev step_index : BlockReader → BlockReader
step_index b = record b { read_index = (b.read_index + 1) % 2 ^ 32 }

next_inside :
    (b : BlockReader) (k : ℕ)
    → b.read_index < get_main_size b.block
    → b.read_index % 16 ≡ k
    → k ≢ 0
    → next b ≡ read_chunk_value k (step_index b)
unfolding next read_chunk
next_inside b k inside e ne =
    let at : bit_and b.read_index 0xF ≡ k = bit_and-mask 4 b.read_index ∙ e in
    let flag : (k == 0) ≡ false = ne→== k 0 ne in rw (at, flag) (ground arith)

next_start :
    (b b' : BlockReader)
    → b.read_index < get_main_size b.block
    → b.read_index % 16 ≡ 0
    → read_timestamps (step_index b) ≡ some b'
    → next b ≡ read_chunk_value 0 b'
unfolding next read_chunk
next_start b b' inside e h =
    let at : bit_and b.read_index 0xF ≡ 0 = bit_and-mask 4 b.read_index ∙ e in
    rw at (ground (arith, h))

read_chunk_value_lem :
    (k ts v : ℕ) (b : BlockReader) (f : FcmReader) (r : Reader)
    → Fcm.next b.val_stream b.stream ≡ some (v, f, r)
    → get_or b.read_buffer k 0 ≡ ts
    → read_chunk_value k b ≡ some (ok, ts, v, record b { val_stream = f; stream = r })
unfolding read_chunk_value
read_chunk_value_lem k ts v b f r e e' = ground (arith, e, e')

ts_small : (ss : List Sample) → All IsSmall ss → All IsU64 (ts_of ss)
ts_small [] h = tt
ts_small (s ∷ ss) h = (h.0.0, ts_small ss h.1)

last_small : (prev : ℕ) (ss : List Sample) → IsU64 prev → All IsSmall ss → IsU64 (next_prev prev ss)
unfolding last_or
last_small prev [] h small = h
last_small prev (s ∷ ss) h small = last_small (s.0) ss small.0.0 small.1

module _ (block : List ℕ) (n : ℕ) (main : get_main_size block ≡ 16 * n) (few : n < 2 ^ 16) where
  Gives-inside :
      (more done : List Sample) (prev : ℕ) (p : Predictor) (rest : List ℕ) (i : ℕ) (b : BlockReader)
      → i < n
      → b.block ≡ block
      → b.read_index ≡ 16 * i + length done
      → length done + length more ≡ 16
      → 1 ≤ length done
      → b.read_buffer ≡ ts_of (done ++ more)
      → b.ts_stream.prev ≡ prev
      → IsU64 prev
      → b.ts_stream.counter % 16 ≡ 0
      → Yields (Between p rest) (values_of more) b.val_stream b.stream
      → Gives (At block prev p rest (16 * (i + 1))) more b
  Gives-inside [] done prev p rest i b inside same here sixteen begun buffer ts small whole yields =
      record {
        same_block = same;
        here = omega arith;
        last_ts = ts;
        small = small;
        whole = whole;
        values = yields;
      }
  Gives-inside (s ∷ more) done prev p rest i b inside same here sixteen begun buffer ts small whole
        (f, r, e, yields) =
      let b' : BlockReader = record (step_index b) { val_stream = f; stream = r } in
      (
        b',
        next_inside b (length done) (omega (arith, main, ap get_main_size same)) (omega arith)
              (λ z. absurd (omega arith))
            ∙ read_chunk_value_lem (length done) (s.0) (s.1) (step_index b) f r e
                (ap (λ (l : List ℕ). get_or l (length done) 0) buffer ∙ get_or-at done more s),
        Gives-inside more (done ++ s ∷ []) prev p rest i b' inside same
            (omega (arith, length-append done (s ∷ [])))
            (omega (arith, length-append done (s ∷ [])))
            (omega (arith, length-append done (s ∷ [])))
            (buffer ∙ ap ts_of (sym (append_assoc done (s ∷ []) more))) ts small whole yields,
      )

  Gives-start :
      (s : Sample) (more : List Sample) (prev : ℕ) (p : Predictor) (rest : List ℕ) (i : ℕ)
      (b : BlockReader) (d : DeltaReader) (r : Reader)
      → i < n
      → b.block ≡ block
      → b.read_index ≡ 16 * i
      → length more ≡ 15
      → DeltaDelta.next_many 16 b.ts_stream b.stream ≡ some (ts_of (s ∷ more), d, r)
      → d.prev ≡ prev
      → IsU64 prev
      → d.counter % 16 ≡ 0
      → Yields (Between p rest) (values_of (s ∷ more)) b.val_stream r
      → Gives (At block prev p rest (16 * (i + 1))) (s ∷ more) b
  unfolding read_timestamps
  Gives-start s more prev p rest i b d r inside same here fifteen reads ts small whole
        (f, r', e, yields) =
      let b₁ : BlockReader = record (step_index b) {
        read_buffer = ts_of (s ∷ more);
        ts_stream = d;
        stream = r;
      } in
      let b' : BlockReader = record b₁ { val_stream = f; stream = r' } in
      (
        b',
        next_start b b₁ (omega (arith, main, ap get_main_size same)) (omega arith)
              (ground (arith, reads))
            ∙ read_chunk_value_lem 0 (s.0) (s.1) b₁ f r' e refl,
        Gives-inside more (s ∷ []) prev p rest i b' inside same (omega arith) (omega arith)
            (omega arith) refl ts small whole yields,
      )

  Gives-chunk :
      (c : List Sample) (prev : ℕ) (p : Predictor) (rest : List ℕ) (i : ℕ) (b : BlockReader)
      → i < n
      → IsChunk c
      → At block prev p (sample_bytes prev p c ++ rest) (16 * i) b
      → Gives (At block (next_prev prev c) (next_predictor p c) rest (16 * (i + 1))) c b
  unfolding sample_bytes last_or
  Gives-chunk [] prev p rest i b inside (sixteen, small) at = absurd (omega arith)
  Gives-chunk (s ∷ more) prev p rest i b inside (sixteen, small) at =
      let (same, even, none_left, e, ready) = at.values in
      let tss : List ℕ = ts_of (s ∷ more) in
      let vs : List ℕ = values_of (s ∷ more) in
      let (d, r, reads, prev', whole, at_values, ready') =
        Reads-delta_bytes tss (fcm_bytes vs p ++ rest) b.ts_stream b.stream
          (length-map (λ t. t.0) (s ∷ more) ∙ sixteen) (ts_small (s ∷ more) small)
          (subst IsU64 (sym at.last_ts) at.small) at.whole ready
          (e
            ∙ append_assoc (delta_bytes prev tss) (fcm_bytes vs p) rest
            ∙ ap (λ (q : ℕ). delta_bytes q tss ++ (fcm_bytes vs p ++ rest)) (sym at.last_ts)) in
      Gives-start s more (next_prev prev (s ∷ more)) (next_predictor p (s ∷ more)) rest i b d r
        inside at.same_block at.here (omega arith) reads
        (prev' ∙ ap (λ (q : ℕ). last_or q tss) at.last_ts)
        (last_small prev (s ∷ more) at.small small) whole
        (Yields-fcm_bytes vs rest p b.val_stream r (length-map (λ t. t.1) (s ∷ more) ∙ sixteen)
          (All-map (s ∷ more) small) (same, even, none_left, at_values, ready'))

  pub Gives-chunks :
      (cs : List (List Sample)) (prev : ℕ) (p : Predictor) (rest : List ℕ) (i : ℕ) (b : BlockReader)
      → i + length cs ≡ n
      → All IsChunk cs
      → At block prev p (chunks_bytes prev p cs ++ rest) (16 * i) b
      → Gives (At block (end_prev prev cs) (end_predictor p cs) rest (16 * n)) (flat cs) b
  unfolding chunks_bytes end_prev end_predictor flat
  Gives-chunks [] prev p rest i b all small at =
      subst (λ (m : ℕ). At block prev p rest (16 * m) b) {x = i} {y = n} (omega arith) at
  Gives-chunks (c ∷ cs) prev p rest i b all small at =
      Gives-append
        (At block (end_prev (next_prev prev c) cs) (end_predictor (next_predictor p c) cs) rest
          (16 * n))
        c (flat cs) b
        (Gives-map
          (At block (next_prev prev c) (next_predictor p c) (others ++ rest) (16 * (i + 1))) _ c b
          (λ b' at'.
            Gives-chunks cs (next_prev prev c) (next_predictor p c) rest (i + 1) b' (omega arith)
              small.1 at')
          (Gives-chunk c prev p (others ++ rest) i b (omega arith) small.0 (
            subst (λ (l : List ℕ). At block prev p l (16 * i) b)
              (append_assoc (sample_bytes prev p c) others rest) at)))
    where
      others : List ℕ
      others = chunks_bytes (next_prev prev c) (next_predictor p c) cs
