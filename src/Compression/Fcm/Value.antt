-- ===== src/Compression/Fcm/Value.antt =====
-- One difference: the bytes that `encode_value` writes, and what `decode_value` makes of them.
use fast_stdb.Common.{
  ℕ, zero, suc, ◌+◌, ◌-◌, ◌*◌, ◌/◌, ◌%◌, ◌^◌, ◌<◌, ◌≤◌, ◌≡◌, refl, ap, ◌∙◌, subst, arith, bit_and,
  bit_or, Bool, true, some, List, [], ◌∷◌, ◌++◌, length, two_pow-pos,
}
use fast_stdb.Common.Bits.{bit_and-mask}
use native.Mathlib.Nat.{mul-div_left, mul-le-mul_left}
use fast_stdb.Compression.Stream.{
  Writer, Reader, emit, le_bytes, read_raw, take_le, ◌and_then◌, IsU64,
}
use fast_stdb.Compression.Stream.Laws.{Emits, put_raw-Emits, and_then-Emits, length-le_bytes}
use fast_stdb.Compression.VByte.{read_bytes}
use fast_stdb.Compression.VByte.Pair.{read_bytes-le_bytes}
use fast_stdb.Compression.Fcm.{
  put_one, put_two, put_three, put_four, put_five, put_six, put_seven, put_case, encode_value,
  decode_bytes, decode_stored, decode_value,
}
use fast_stdb.Compression.Fcm.Flag.{Fits, stored, shift}

one-Emits : (v : ℕ) → Emits (put_one v) (le_bytes 1 v)
unfolding put_one le_bytes
one-Emits v w fits =
    put_raw-Emits 1 (bit_and v 0xFF) w fits
    ∙ ap (λ (n : ℕ). (true, emit w (n ∷ []))) (omega (arith, bit_and-mask 8 v))

four-Emits : (v : ℕ) → Emits (put_four v) (le_bytes 4 v)
unfolding put_four le_bytes
four-Emits v w fits =
    put_raw-Emits 4 (bit_and v 0xFFFFFFFF) w fits
    ∙ ap (λ b. (true, emit w b)) (rw (bit_and-mask 32 v) (ground arith))

-- A byte, then the bytes of what is left.
then-Emits :
    (f : ℕ → Writer → Bool × Writer) (n v : ℕ)
    → Emits (f (v / 2 ^ 8)) (le_bytes n (v / 256))
    → Emits (λ w. put_one v w and_then f (v / 2 ^ 8)) (le_bytes (suc n) v)
unfolding le_bytes
then-Emits f n v h =
    and_then-Emits (put_one v) (f (v / 2 ^ 8)) ((v % 256) ∷ []) (le_bytes n (v / 256)) (one-Emits v)
      h

two-Emits : (v : ℕ) → Emits (put_two v) (le_bytes 2 v)
unfolding put_two
two-Emits v = then-Emits put_one 1 v (one-Emits (v / 256))

three-Emits : (v : ℕ) → Emits (put_three v) (le_bytes 3 v)
unfolding put_three
three-Emits v = then-Emits put_two 2 v (two-Emits (v / 256))

five-Emits : (v : ℕ) → Emits (put_five v) (le_bytes 5 v)
unfolding put_five
five-Emits v = then-Emits put_four 4 v (four-Emits (v / 256))

six-Emits : (v : ℕ) → Emits (put_six v) (le_bytes 6 v)
unfolding put_six
six-Emits v = then-Emits put_five 5 v (five-Emits (v / 256))

seven-Emits : (v : ℕ) → Emits (put_seven v) (le_bytes 7 v)
unfolding put_seven
seven-Emits v = then-Emits put_six 6 v (six-Emits (v / 256))

-- Every case of the switch writes as many bytes as its number says, lowest first.
put_case-Emits : (k v : ℕ) → k < 8 → Emits (put_case (k + 1) v) (le_bytes (k + 1) v)
unfolding put_case
put_case-Emits zero v h = one-Emits v
put_case-Emits (suc zero) v h = two-Emits v
put_case-Emits (suc (suc zero)) v h = three-Emits v
put_case-Emits (suc (suc (suc zero))) v h = four-Emits v
put_case-Emits (suc (suc (suc (suc zero)))) v h = five-Emits v
put_case-Emits (suc (suc (suc (suc (suc zero))))) v h = six-Emits v
put_case-Emits (suc (suc (suc (suc (suc (suc zero)))))) v h = seven-Emits v
put_case-Emits (suc (suc (suc (suc (suc (suc (suc zero))))))) v h = put_raw-Emits 8 v
put_case-Emits (suc (suc (suc (suc (suc (suc (suc (suc k)))))))) v h = absurd (omega arith)

-- The stored bytes of a difference.
unfoldable pub value_bytes : ℕ → ℕ → List ℕ
value_bytes diff flag = le_bytes (stored flag) (diff / 2 ^ shift flag)

pub length-value_bytes : (diff flag : ℕ) → length (value_bytes diff flag) ≤ 8
unfolding value_bytes
length-value_bytes diff flag = omega (arith, length-le_bytes (stored flag) (diff / 2 ^ shift flag))

pub encode_value-Emits : (diff flag : ℕ) → Emits (encode_value diff flag) (value_bytes diff flag)
unfolding encode_value value_bytes
encode_value-Emits diff flag w fits =
    ap (λ (n : ℕ). put_case (n + 1) (diff / 2 ^ ((64 - (n + 1) * 8) * (flag / 8))) w)
      (bit_and-mask 3 flag)
    ∙ put_case-Emits (flag % 8) (diff / 2 ^ shift flag) (omega arith) w fits

read_byte :
    (b : ℕ) (bytes : List ℕ) (r : Reader)
    → r.rest ≡ b ∷ bytes
    → read_raw 1 r ≡ some (b, record r { rest = bytes })
unfolding read_raw take_le
read_byte b bytes r e = ground arith

-- `decode_bytes` reads one byte at a time what `read_bytes` reads.
decode_bytes-read_bytes :
    (n i v acc : ℕ) (r : Reader) (input bytes : List ℕ)
    → r.rest ≡ input
    → read_bytes n (i * 8) acc input ≡ some (v, bytes)
    → decode_bytes n i acc r ≡ some (v, record r { rest = bytes })
unfolding decode_bytes read_bytes
decode_bytes-read_bytes zero i v acc r input bytes e h = ground arith
decode_bytes-read_bytes (suc n) i v acc r [] bytes e h = cc
decode_bytes-read_bytes (suc n) i v acc r (b ∷ input) bytes e h =
    let acc' : ℕ = bit_or acc (b * 2 ^ (i * 8) % 2 ^ 64) in
    let up : i * 8 + 8 ≡ (i + 1) * 8 = omega arith in
    ground (
      arith,
      read_byte b input r e,
      decode_bytes-read_bytes n (i + 1) v acc' (record r { rest = input }) input bytes refl
          (subst (λ (j : ℕ). read_bytes n j acc' input ≡ some (v, bytes)) up h),
    )

decode_bytes-le_bytes :
    (n v : ℕ) (r : Reader) (rest : List ℕ)
    → v < 2 ^ (8 * n)
    → IsU64 v
    → r.rest ≡ le_bytes n v ++ rest
    → decode_bytes n 0 0 r ≡ some (v, record r { rest = rest })
decode_bytes-le_bytes n v r rest small h e =
    decode_bytes-read_bytes n 0 v 0 r (le_bytes n v ++ rest) rest e (
      read_bytes-le_bytes n 0 v 0 rest small (omega arith) (omega arith)
      ∙ ap (λ (t : ℕ). some (t, rest)) (omega arith))

div-shifted : (q s : ℕ) → q * 2 ^ s / 2 ^ s ≡ q
div-shifted q s = mul-div_left q (two_pow-pos s)

-- `decode_value` restores the difference, and stops behind its bytes.
pub decode_value_lem :
    (diff flag : ℕ) (r : Reader) (rest : List ℕ)
    → Fits diff flag
    → IsU64 diff
    → r.rest ≡ value_bytes diff flag ++ rest
    → decode_value flag r ≡ some (diff, record r { rest = rest })
unfolding decode_value value_bytes
decode_value_lem diff flag r rest (q, whole, small) h e =
    ap (λ (n : ℕ). decode_stored (n + 1) flag r) (bit_and-mask 3 flag)
    ∙ rw (decoded, decode_stored)
        (ap (λ (t : ℕ). some (t, record r { rest = rest })) (omega (arith, whole)))
  where
    at_q : diff / 2 ^ shift flag ≡ q
    at_q = ap (λ (t : ℕ). t / 2 ^ shift flag) whole ∙ div-shifted q (shift flag)

    q_small : IsU64 q
    q_small = omega (arith, whole, mul-le-mul_left q (two_pow-pos (shift flag)))

    decoded : decode_bytes (stored flag) 0 0 r ≡ some (q, record r { rest = rest })
    decoded =
        decode_bytes-le_bytes (stored flag) q r rest small q_small
          (e ∙ ap (λ (t : ℕ). le_bytes (stored flag) t ++ rest) at_q)
