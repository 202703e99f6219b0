-- ===== src/Compression/Fcm/Flag.antt =====
-- The flag of a difference tells how many of its bytes are stored: all the others are zero.
use fast_stdb.Common.{
  ℕ, zero, suc, ◌+◌, ◌-◌, ◌*◌, ◌/◌, ◌%◌, ◌^◌, ◌<◌, ◌≤◌, ◌≡◌, ap, ◌∙◌, arith, ltb, ◌==◌, Bool-cases,
  inl, inr, two_pow-suc, two_pow-add, two_pow_mono, ltb→lt, ==→eq, true, false, subst, sym, refl,
}
use fast_stdb.Common.Bits.{bit_and-mask, shifted-bit_or}
use native.Mathlib.Decide.{dec_lt}
use native.Mathlib.Nat.{lt_of_mul-lt-mul_right}
use fast_stdb.Compression.Stream.{IsU64}
use fast_stdb.Compression.VByte.{clz}
use fast_stdb.Compression.VByte.Length.{lt-clz, clz-lt}
use fast_stdb.Compression.Fcm.{ctz, flag_of}

-- The low zero bits can be shifted out.
ctz_lem : (k v : ℕ) → (q : ℕ) × (v ≡ q * 2 ^ ctz k v)
unfolding ctz
ctz_lem zero v = (v, omega arith)
ctz_lem (suc k) v = elim (Bool-cases (v % 2 == 0)) [
  | inl even ↦
      let (q, e) = ctz_lem k (v / 2) in
      (
        q,
        rw even
            (omega (arith, e, ap (λ (t : ℕ). q * t) (two_pow-suc (ctz k (v / 2))), ==→eq _ _ even)),
      )
  | inr odd ↦ (v, rw odd (omega arith))
]

ctz-lt : (v : ℕ) → 0 < v → IsU64 v → ctz 64 v < 64
ctz-lt v pos h = elim (dec_lt (ctz 64 v) 64) [
  | yes small ↦ small
  | no big ↦
      let (q, e) = ctz_lem 64 v in
      absurd (too_big q (ctz 64 v) e (two_pow_mono 64 (ctz 64 v) (omega arith)))
]
  where
    too_big : (q c : ℕ) → v ≡ q * 2 ^ c → 2 ^ 64 ≤ 2 ^ c → ⊥
    too_big zero c e big = absurd (omega arith)
    too_big (suc q) c e big = absurd (omega arith)

-- How many bytes a flag stores, and by how many bits they are shifted.
abbrev pub stored : ℕ → ℕ
stored flag = flag % 8 + 1

abbrev pub shift : ℕ → ℕ
shift flag = (64 - stored flag * 8) * (flag / 8)

-- The stored bytes of `diff`, shifted, are `diff`.
abbrev pub Fits : ℕ → ℕ → Type 0
Fits diff flag = (q : ℕ) × (diff ≡ q * 2 ^ shift flag) × (q < 2 ^ (8 * stored flag))

flag_of_high :
    (diff : ℕ)
    → 0 < diff
    → IsU64 diff
    → ltb (clz 64 diff / 8) (ctz 64 diff / 8) ≡ true
    → (flag_of diff ≡ 15 - ctz 64 diff / 8) × (1 ≤ ctz 64 diff / 8) × (ctz 64 diff / 8 ≤ 7)
unfolding flag_of
flag_of_high diff pos h high =
    let top : ctz 64 diff / 8 ≤ 7 = omega (arith, ctz-lt diff pos h) in
    let some_zero : 1 ≤ ctz 64 diff / 8 = omega (arith, ltb→lt _ _ high) in
    (
      rw high (
          ground (
            arith,
            bit_and-mask 3 (8 - ctz 64 diff / 8 - 1),
            shifted-bit_or 3 1 (7 - ctz 64 diff / 8),
          )),
      some_zero,
      top,
    )

flag_of_low :
    (diff : ℕ)
    → 0 < diff
    → IsU64 diff
    → ltb (clz 64 diff / 8) (ctz 64 diff / 8) ≡ false
    → (flag_of diff ≡ 7 - clz 64 diff / 8) × (clz 64 diff / 8 ≤ 7)
unfolding flag_of
flag_of_low diff pos h low =
    let top : clz 64 diff / 8 ≤ 7 = omega (arith, clz-lt 64 diff pos h) in
    (rw low (ground (arith, bit_and-mask 3 (8 - clz 64 diff / 8 - 1))), top)

-- The flag of a nonzero 64-bit difference is below 15, so two flags never make a shortcut byte.
pub flag_of-lt : (diff : ℕ) → 0 < diff → IsU64 diff → flag_of diff < 15
flag_of-lt diff pos h = elim (Bool-cases (ltb (clz 64 diff / 8) (ctz 64 diff / 8))) [
  | inl high ↦ omega (arith, flag_of_high diff pos h high)
  | inr low ↦ omega (arith, flag_of_low diff pos h low)
]

shift_high : (t : ℕ) → 1 ≤ t → t ≤ 7 → (stored (15 - t) ≡ 8 - t) × (shift (15 - t) ≡ 8 * t)
shift_high t lo hi =
    let r : (15 - t) % 8 ≡ 7 - t = omega arith in
    let d : (15 - t) / 8 ≡ 1 = omega arith in (omega arith, rw (r, d) (omega arith))

shift_low : (l : ℕ) → l ≤ 7 → (stored (7 - l) ≡ 8 - l) × (shift (7 - l) ≡ 0)
shift_low l hi = let d : (7 - l) / 8 ≡ 0 = omega arith in (omega arith, rw d (omega arith))

Fits-high :
    (diff c t : ℕ)
    → IsU64 diff
    → t ≡ c / 8
    → 1 ≤ t
    → t ≤ 7
    → (q : ℕ) → diff ≡ q * 2 ^ c
    → Fits diff (15 - t)
Fits-high diff c t h et lo hi q e = (q * 2 ^ (c - 8 * t), whole, below)
  where
    whole : diff ≡ q * 2 ^ (c - 8 * t) * 2 ^ shift (15 - t)
    whole =
        let c_split : c ≡ c - 8 * t + 8 * t = omega arith in
        let split : 2 ^ c ≡ 2 ^ (c - 8 * t) * 2 ^ (8 * t) =
          ap (λ (n : ℕ). 2 ^ n) c_split ∙ two_pow-add (c - 8 * t) (8 * t) in
        rw (shift_high t lo hi).1 (omega (arith, e, ap (λ (n : ℕ). q * n) split))

    whole8 : diff ≡ q * 2 ^ (c - 8 * t) * 2 ^ (8 * t)
    whole8 = rw (shift_high t lo hi).1 at whole

    below : q * 2 ^ (c - 8 * t) < 2 ^ (8 * stored (15 - t))
    below =
        let sum : 64 ≡ 8 * (8 - t) + 8 * t = omega arith in
        let parts : 2 ^ 64 ≡ 2 ^ (8 * (8 - t)) * 2 ^ (8 * t) =
          ap (λ (n : ℕ). 2 ^ n) sum ∙ two_pow-add (8 * (8 - t)) (8 * t) in
        rw (shift_high t lo hi).0
          (lt_of_mul-lt-mul_right (2 ^ (8 * t)) (omega (arith, whole8, parts)))

Fits-low : (diff c : ℕ) → diff < 2 ^ (64 - c) → c / 8 ≤ 7 → Fits diff (7 - c / 8)
Fits-low diff c small hi = (
  diff,
  rw (shift_low (c / 8) hi).1 (omega arith),
  rw (shift_low (c / 8) hi).0
      (omega (arith, two_pow_mono (64 - c) (8 * (8 - c / 8)) (omega arith))),
)

-- A nonzero 64-bit difference is the bytes that its flag selects, shifted back: no bit is lost.
pub flag_of-Fits : (diff : ℕ) → 0 < diff → IsU64 diff → Fits diff (flag_of diff)
flag_of-Fits diff pos h = elim (Bool-cases (ltb (clz 64 diff / 8) (ctz 64 diff / 8))) [
  | inl high ↦
      let (e, lo, hi) = flag_of_high diff pos h high in
      let (q, whole) = ctz_lem 64 diff in
      subst (Fits diff) (sym e)
        (Fits-high diff (ctz 64 diff) (ctz 64 diff / 8) h refl lo hi q whole)
  | inr low ↦
      let (e, hi) = flag_of_low diff pos h low in
      subst (Fits diff) (sym e) (Fits-low diff (clz 64 diff) (lt-clz 64 diff h) hi)
]
