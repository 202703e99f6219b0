-- ===== src/Compression/Fcm.antt =====
-- `FcmStreamWriter` and `FcmStreamReader` of faststdb/storage/compression.h: each value is stored
-- as its difference to the prediction, less the zero bytes at one end. A value is the bit pattern
-- of a double, a 64-bit number.
pub mod Flag
pub mod Value
pub mod Chunk
pub mod RoundTrip
use fast_stdb.Common.{
  ℕ, zero, suc, ◌+◌, ◌-◌, ◌*◌, ◌/◌, ◌%◌, ◌^◌, bit_and, bit_or, bit_xor, Bool, true, false, Option,
  none, some, List, [], ◌∷◌, ltb, ◌==◌, ◌&&◌, not, if◌then◌else◌,
}
use fast_stdb.Compression.Stream.{Writer, Reader, put_raw, read_raw, ◌and_then◌}
use fast_stdb.Compression.VByte
use fast_stdb.Compression.VByte.{clz}
use fast_stdb.Compression.Predictor.{Predictor, new_predictor, predict_next, update, predictor_n}

-- `__builtin_ctzll` of a nonzero value of `k` bits: how many of its low bits are zero.
unfoldable pub ctz : ℕ → ℕ → ℕ
ctz zero v = 0
ctz (suc k) v = if v % 2 == 0 then suc (ctz k (v / 2)) else 0

-- The flag of a nonzero difference: how many bytes are stored, and at which end.
unfoldable pub flag_of : ℕ → ℕ
flag_of diff =
    let trailing_bytes = ctz 64 diff / 8 in
    let leading_bytes = clz 64 diff / 8 in
    let high = 8 - trailing_bytes in
    let low = 8 - leading_bytes in
    if ltb leading_bytes trailing_bytes
    then bit_or 8 (bit_and (if ltb 0 high then high - 1 else high) 7)
    else bit_and (if ltb 0 low then low - 1 else low) 7

-- `encode`: the difference and its flag, 0xF for a difference of zero.
unfoldable pub encode : ℕ → Predictor → (ℕ × ℕ) × Predictor
encode bits p =
    let diff = bit_xor bits (predict_next p) in
    ((diff, if diff == 0 then 0xF else flag_of diff), update p bits)

-- The cases of the switch of `encode_value`, which fall through to the case below.
put_one : ℕ → Writer → Bool × Writer
put_one diff w = put_raw 1 (bit_and diff 0xFF) w

put_two : ℕ → Writer → Bool × Writer
put_two diff w = put_one diff w and_then put_one (diff / 2 ^ 8)

put_three : ℕ → Writer → Bool × Writer
put_three diff w = put_one diff w and_then put_two (diff / 2 ^ 8)

put_four : ℕ → Writer → Bool × Writer
put_four diff w = put_raw 4 (bit_and diff 0xFFFFFFFF) w

put_five : ℕ → Writer → Bool × Writer
put_five diff w = put_one diff w and_then put_four (diff / 2 ^ 8)

put_six : ℕ → Writer → Bool × Writer
put_six diff w = put_one diff w and_then put_five (diff / 2 ^ 8)

put_seven : ℕ → Writer → Bool × Writer
put_seven diff w = put_one diff w and_then put_six (diff / 2 ^ 8)

unfoldable pub put_case : ℕ → ℕ → Writer → Bool × Writer
unfolding put_one put_two put_three put_four put_five put_six put_seven
put_case n =
    if n == 8
    then put_raw 8
    else if n == 7
    then put_seven
    else if n == 6
    then put_six
    else if n == 5
    then put_five
    else if n == 4
    then put_four
    else if n == 3
    then put_three
    else if n == 2
    then put_two
    else if n == 1
    then put_one
    else (λ diff w. (true, w))

unfoldable pub encode_value : ℕ → ℕ → Writer → Bool × Writer
encode_value diff flag w =
    let nbytes = bit_and flag 7 + 1 in
    let nshift = (64 - nbytes * 8) * (flag / 2 ^ 3) in put_case nbytes (diff / 2 ^ nshift) w

pub record FcmWriter : Type 0 where
  pub predictor : Predictor
  pub prev_diff : ℕ
  pub prev_flag : ℕ
  pub nelements : ℕ

unfoldable pub open_fcm_writer : FcmWriter
open_fcm_writer = record {
  predictor = new_predictor predictor_n;
  prev_diff = 0;
  prev_flag = 0;
  nelements = 0;
}

-- The first loop of `tput`.
unfoldable pub encode_all : List ℕ → Predictor → List (ℕ × ℕ) × Predictor
encode_all [] p = ([], p)
encode_all (x ∷ xs) p =
    let (e, p') = encode x p in let (es, p'') = encode_all xs p' in (e ∷ es, p'')

-- The second loop: the or of all differences.
unfoldable pub sum_diff : ℕ → List (ℕ × ℕ) → ℕ
sum_diff acc [] = acc
sum_diff acc ((diff, flag) ∷ es) = sum_diff (bit_or acc diff) es

-- In a pair the flag of a zero difference is 0: one byte is stored.
unfoldable pub pair_flag : ℕ → ℕ
pair_flag flag = if flag == 0xF then 0 else flag

-- The flags byte of a pair and the two values.
unfoldable pub put_pair : ℕ × ℕ → ℕ × ℕ → Writer → Bool × Writer
put_pair (diff, flag) (diff', flag') w =
    put_raw 1 (bit_or (flag * 2 ^ 4 % 256) flag') w and_then λ w'.
    encode_value diff flag w' and_then encode_value diff' flag'

-- The third loop of `tput`, over pairs; the source asserts that there are sixteen values.
unfoldable pub put_pairs : List (ℕ × ℕ) → Writer → Bool × Writer
put_pairs [] w = (true, w)
put_pairs (e ∷ []) w = (false, w)
put_pairs ((diff, flag) ∷ (diff', flag') ∷ es) w =
    put_pair (diff, pair_flag flag) (diff', pair_flag flag') w and_then put_pairs es

-- An odd number of values put one by one leaves one in `prev_diff_`.
unfoldable pub commit : FcmWriter → Writer → Bool × Writer
commit f w =
    if not (f.nelements % 2 == 0)
    then (put_raw 1 (f.prev_flag * 2 ^ 4 % 256) w and_then λ w'.
        encode_value f.prev_diff f.prev_flag w' and_then λ w''.
        encode_value 0 0 w'' and_then VByte.commit)
    else VByte.commit w

unfoldable pub tput : List ℕ → FcmWriter → Writer → Bool × FcmWriter × Writer
tput xs f w =
    let (es, p) = encode_all xs f.predictor in
    let f' = record f { predictor = p } in
    let (done, w') =
      ((if sum_diff 0 es == 0 then put_raw 1 0xFF w else put_pairs es w) and_then commit f') in
    (done, f', w')

-- `put`, one value at a time.
unfoldable pub put : ℕ → FcmWriter → Writer → Bool × FcmWriter × Writer
put x f w =
    let ((diff, flag), p) = encode x f.predictor in
    let flag' = pair_flag flag in
    let f' = record f { predictor = p } in
    let (done, w') = put_pair (f.prev_diff, f.prev_flag) (diff, flag') w in
    if f.nelements % 2 == 0
    then (true, record f' { prev_diff = diff; prev_flag = flag'; nelements = f.nelements + 1 }, w)
    else (if done then (true, record f' { nelements = f.nelements + 1 }, w') else (false, f', w'))

pub record FcmReader : Type 0 where
  pub predictor : Predictor
  pub flags : ℕ
  pub iter : ℕ
  pub nzeroes : ℕ

unfoldable pub open_fcm_reader : FcmReader
open_fcm_reader = record { predictor = new_predictor predictor_n; flags = 0; iter = 0; nzeroes = 0 }

-- The loop of `decode_value`.
unfoldable pub decode_bytes : ℕ → ℕ → ℕ → Reader → Option (ℕ × Reader)
decode_bytes zero i diff r = some (diff, r)
decode_bytes (suc n) i diff r = elim (read_raw 1 r) [
  | none ↦ none
  | some (delta, r') ↦ decode_bytes n (i + 1) (bit_or diff (delta * 2 ^ (i * 8) % 2 ^ 64)) r'
]

-- `decode_value` with its count of bytes.
decode_stored : ℕ → ℕ → Reader → Option (ℕ × Reader)
decode_stored nbytes flag r = elim (decode_bytes nbytes 0 0 r) [
  | none ↦ none
  | some (diff, r') ↦
      let shift_width = (64 - nbytes * 8) * (flag / 2 ^ 3) in
      some (diff * 2 ^ shift_width % 2 ^ 64, r')
]

unfoldable pub decode_value : ℕ → Reader → Option (ℕ × Reader)
unfolding decode_stored
decode_value flag r = decode_stored (bit_and flag 7 + 1) flag r

-- The end of `next`: the difference is applied to the prediction.
unfoldable pub finish : FcmReader → ℕ × Reader → ℕ × FcmReader × Reader
finish f (diff, r) =
    let bits = bit_xor (predict_next f.predictor) diff in
    (bits, record f { predictor = update f.predictor bits }, r)

-- `next` once it has its flag.
unfoldable pub next_flag : ℕ → FcmReader → Reader → Option (ℕ × FcmReader × Reader)
unfolding finish
next_flag flag f r =
    if f.nzeroes == 0
    then (elim (decode_value flag r) [ none ↦ none | some e ↦ some (finish f e) ])
    else some (finish (record f { nzeroes = f.nzeroes - 1 }) (0, r))

unfoldable pub next : FcmReader → Reader → Option (ℕ × FcmReader × Reader)
unfolding next_flag
next f r =
    let f' = record f { iter = (f.iter + 1) % 2 ^ 32 } in
    if f.iter % 2 == 0 && f.nzeroes == 0
    then (elim (read_raw 1 r) [
      | none ↦ none
      | some (flags, r') ↦
          next_flag (flags / 2 ^ 4)
            (record f' { flags = flags; nzeroes = if flags == 0xFF then 16 else 0 }) r'
    ])
    else next_flag (bit_and f.flags 0xF) f' r
