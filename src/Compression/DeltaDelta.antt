-- ===== src/Compression/DeltaDelta.antt =====
-- `DeltaDeltaStreamWriter<16, u64>` and `DeltaDeltaStreamReader<16, u64>` of
-- faststdb/storage/compression.h: differences of neighbours, less the least of a chunk. The
-- shared byte stream is an argument and a result of each operation.
pub mod RoundTrip
use fast_stdb.Common.{
  ℕ, zero, suc, ◌+◌, ◌-◌, ◌%◌, ◌^◌, Bool, true, false, Option, none, some, List, [], ◌∷◌, map, min,
  ◌==◌, if◌then◌else◌,
}
use fast_stdb.Compression.Stream.{Writer, Reader}
use fast_stdb.Compression.Base128.{put_base128, next_base128}
use fast_stdb.Compression.VByte

abbrev pub step : ℕ
step = 16

-- Subtraction and addition of u64 wrap.
abbrev pub sub64 : ℕ → ℕ → ℕ
sub64 a b = (a + 2 ^ 64 - b) % 2 ^ 64

abbrev pub add64 : ℕ → ℕ → ℕ
add64 a b = (a + b) % 2 ^ 64

pub record DeltaWriter : Type 0 where
  pub prev : ℕ
  pub put_calls : ℕ

unfoldable pub open_delta_writer : DeltaWriter
open_delta_writer = record { prev = 0; put_calls = 0 }

-- The first loop of `tput`: the differences, and the value that `prev_` is left with.
unfoldable pub deltas : ℕ → List ℕ → List ℕ
deltas prev [] = []
deltas prev (x ∷ xs) = sub64 x prev ∷ deltas x xs

unfoldable pub last_or : ℕ → List ℕ → ℕ
last_or prev [] = prev
last_or prev (x ∷ xs) = last_or x xs

-- The least difference. It starts from that of `iter[0]`, which the loop meets again.
unfoldable pub least : ℕ → List ℕ → ℕ
least acc [] = acc
least acc (d ∷ ds) = least (min d acc) ds

unfoldable pub chunk_min : List ℕ → ℕ
unfolding least
chunk_min [] = 0
chunk_min (d ∷ ds) = least d (d ∷ ds)

unfoldable pub after_min : List ℕ → DeltaWriter → Bool × Writer → Bool × DeltaWriter × Writer
after_min ds d (false, w) = (false, d, w)
after_min ds d (true, w) =
    let (done, w') = VByte.tput (map (λ x. sub64 x (chunk_min ds)) ds) w in (done, d, w')

unfoldable pub tput : List ℕ → DeltaWriter → Writer → Bool × DeltaWriter × Writer
unfolding after_min
tput xs d w =
    let ds = deltas d.prev xs in
    after_min ds (record d { prev = last_or d.prev xs }) (put_base128 (chunk_min ds) w)

unfoldable pub put_value : ℕ → DeltaWriter → Bool × Writer → Bool × DeltaWriter × Writer
put_value value d (false, w) = (false, d, w)
put_value value d (true, w) =
    let (done, w') = VByte.put (sub64 value d.prev) w in
    (done, record d { prev = value; put_calls = d.put_calls + 1 }, w')

-- `put`: the first call writes a least difference of zero.
unfoldable pub put : ℕ → DeltaWriter → Writer → Bool × DeltaWriter × Writer
unfolding put_value
put value d w =
    if d.put_calls == 0 then put_value value d (put_base128 0 w) else put_value value d (true, w)

pub record DeltaReader : Type 0 where
  pub prev : ℕ
  pub min_value : ℕ
  pub counter : ℕ

unfoldable pub open_delta_reader : DeltaReader
open_delta_reader = record { prev = 0; min_value = 0; counter = 0 }

-- `next` behind the read of the least difference.
unfoldable pub next_delta : DeltaReader → Reader → Option (ℕ × DeltaReader × Reader)
next_delta d r = elim (VByte.next r) [
  | none ↦ none
  | some (delta, r') ↦
      let value = add64 (add64 d.prev delta) d.min_value in
      some (value, record d { prev = value; counter = d.counter + 1 }, r')
]

unfoldable pub next : DeltaReader → Reader → Option (ℕ × DeltaReader × Reader)
next d r =
    if d.counter % step == 0
    then (elim (next_base128 r) [
      | none ↦ none
      | some (m, r') ↦ next_delta (record d { min_value = m }) r'
    ])
    else next_delta d r

-- The loop over `ts_stream_.next()` of the block readers.
unfoldable pub next_many : ℕ → DeltaReader → Reader → Option (List ℕ × DeltaReader × Reader)
next_many zero d r = some ([], d, r)
next_many (suc n) d r = elim (next d r) [
  | none ↦ none
  | some (x, d', r') ↦ elim (next_many n d' r') [
    | none ↦ none
    | some (xs, d'', r'') ↦ some (x ∷ xs, d'', r'')
  ]
]
