-- ===== src/Common/Bits.antt =====
-- `&`, `|` and `^` at every width, from the digit recursion that the native operations stand for.
use Prim.Native.Nat.{
  ℕ, zero, suc, ◌+◌, ◌-◌, ◌*◌, ◌/◌, ◌%◌, ◌^◌, ◌<◌, ◌≤◌, min, max, digits, differ, bit_and, bit_or,
  bit_xor, bit_and-bitwise, bit_or-bitwise, bit_xor-bitwise,
}
use mathlib.Core.Path.{◌≡◌, refl, ap, sym, ◌∙◌}
use native.Mathlib.Omega.{arith}
use mathlib.Core.Bool.{Bool, true, ◌&&◌}
use fast_stdb.Common.Tests.{◌==◌, ==→eq}
use native.Mathlib.Decide.{dec_lt}
use native.Mathlib.Nat.{div-add-mod', mod-lt}
use fast_stdb.Common.Power.{two_pow-suc, two_pow-pos}

-- One digit more than the first number needs changes nothing, and so for any number of them.
module _ (z : ℕ → ℕ) (f : ℕ → ℕ → ℕ) where
  spare_digit : (n x b : ℕ) → x ≤ n → digits z f (suc n) x b ≡ digits z f n x b
  spare_digit zero zero b h = refl
  spare_digit zero (suc x) b h = absurd (omega arith)
  spare_digit (suc n) zero b h = refl
  spare_digit (suc n) (suc x) b h =
      ap (λ (t : ℕ). t * 2 + f (suc x % 2) (b % 2))
        (spare_digit n (suc x / 2) (b / 2) (omega arith))

  spare_digits : (k n m x b : ℕ) → n ≡ m + k → x ≤ m → digits z f n x b ≡ digits z f m x b
  spare_digits zero n m x b e h = ap (λ (t : ℕ). digits z f t x b) (omega arith)
  spare_digits (suc k) n m x b e h =
      ap (λ (t : ℕ). digits z f t x b) {x = n} {y = suc (m + k)} (omega arith)
      ∙ spare_digit (m + k) x b (omega arith)
      ∙ spare_digits k (m + k) m x b refl h

  digits_step :
      (a b : ℕ)
      → digits z f (suc a) (suc a) b
        ≡ digits z f (suc a / 2) (suc a / 2) (b / 2) * 2 + f (suc a % 2) (b % 2)
  digits_step a b =
      let half : ℕ = suc a / 2 in
      ap (λ (t : ℕ). t * 2 + f (suc a % 2) (b % 2))
        (spare_digits (a - half) a half half (b / 2) (omega arith) (omega arith))

pub bit_and_halves : (a b : ℕ) → bit_and a b ≡ bit_and (a / 2) (b / 2) * 2 + min (a % 2) (b % 2)
bit_and_halves zero b = omega (arith, bit_and-bitwise 0 b, bit_and-bitwise 0 (b / 2))
bit_and_halves (suc a) b = omega (
  arith,
  bit_and-bitwise (suc a) b,
  bit_and-bitwise (suc a / 2) (b / 2),
  digits_step (λ b. zero) min a b,
)

pub bit_or_halves : (a b : ℕ) → bit_or a b ≡ bit_or (a / 2) (b / 2) * 2 + max (a % 2) (b % 2)
bit_or_halves zero b = omega (arith, bit_or-bitwise 0 b, bit_or-bitwise 0 (b / 2))
bit_or_halves (suc a) b = omega (
  arith,
  bit_or-bitwise (suc a) b,
  bit_or-bitwise (suc a / 2) (b / 2),
  digits_step (λ b. b) max a b,
)

differ_bits : (x y : ℕ) → x < 2 → y < 2 → differ x y ≡ (x + y) % 2
differ_bits zero y hx hy = omega arith
differ_bits (suc zero) zero hx hy = refl
differ_bits (suc zero) (suc zero) hx hy = refl
differ_bits (suc zero) (suc (suc y)) hx hy = absurd (omega arith)
differ_bits (suc (suc x)) y hx hy = absurd (omega arith)

pub bit_xor_halves : (a b : ℕ) → bit_xor a b ≡ bit_xor (a / 2) (b / 2) * 2 + (a + b) % 2
bit_xor_halves zero b = omega (arith, bit_xor-bitwise 0 b, bit_xor-bitwise 0 (b / 2))
bit_xor_halves (suc a) b = omega (
  arith,
  bit_xor-bitwise (suc a) b,
  bit_xor-bitwise (suc a / 2) (b / 2),
  digits_step (λ b. b) differ a b,
  differ_bits (suc a % 2) (b % 2),
)

bit_or-zero_below : (n a : ℕ) → a ≤ n → bit_or a 0 ≡ a
bit_or-zero_below n zero h = refl
bit_or-zero_below zero (suc a) h = absurd (omega arith)
bit_or-zero_below (suc n) (suc a) h =
    omega (arith, bit_or_halves (suc a) 0, bit_or-zero_below n (suc a / 2) (omega arith))

bit_or-zero : (a : ℕ) → bit_or a 0 ≡ a
bit_or-zero a = bit_or-zero_below a a (omega arith)

zero-bit_or : (b : ℕ) → bit_or 0 b ≡ b
zero-bit_or b = bit_or-bitwise 0 b

bit_and-zero_below : (n a : ℕ) → a ≤ n → bit_and a 0 ≡ 0
bit_and-zero_below n zero h = refl
bit_and-zero_below zero (suc a) h = absurd (omega arith)
bit_and-zero_below (suc n) (suc a) h =
    omega (arith, bit_and_halves (suc a) 0, bit_and-zero_below n (suc a / 2) (omega arith))

bit_and-zero : (a : ℕ) → bit_and a 0 ≡ 0
bit_and-zero a = bit_and-zero_below a a (omega arith)

mul-two_pow-suc : (q k : ℕ) → q * 2 ^ suc k ≡ 2 * (q * 2 ^ k)
mul-two_pow-suc q k = omega (arith, ap (λ (t : ℕ). q * t) (two_pow-suc k))

-- `acc | (x << k)` is a sum where `acc` has no more than `k` bits.
pub bit_or-shifted : (k a q : ℕ) → a < 2 ^ k → bit_or a (q * 2 ^ k) ≡ a + q * 2 ^ k
bit_or-shifted zero a q h =
    let e : a ≡ 0 = omega arith in rw (e, zero-bit_or (q * 2 ^ 0)) (omega arith)
bit_or-shifted (suc k) a q h = ground (
  arith,
  bit_or_halves a (q * 2 ^ suc k),
  mul-two_pow-suc q k,
  two_pow-suc k,
  bit_or-shifted k (a / 2) q (omega (arith, two_pow-suc k)),
)

-- `(x << k) | low`, the same the other way round.
pub shifted-bit_or : (k q a : ℕ) → a < 2 ^ k → bit_or (q * 2 ^ k) a ≡ q * 2 ^ k + a
shifted-bit_or zero q a h =
    let e : a ≡ 0 = omega arith in rw (e, bit_or-zero (q * 2 ^ 0)) (omega arith)
shifted-bit_or (suc k) q a h = ground (
  arith,
  bit_or_halves (q * 2 ^ suc k) a,
  mul-two_pow-suc q k,
  two_pow-suc k,
  shifted-bit_or k q (a / 2) (omega (arith, two_pow-suc k)),
)

low_field-bit_and : (k q r : ℕ) → r < 2 ^ k → bit_and (q * 2 ^ k + r) (2 ^ k - 1) ≡ r
low_field-bit_and zero q r h = rw bit_and-zero (omega arith)
low_field-bit_and (suc k) q r h = ground (
  arith,
  bit_and_halves (q * 2 ^ suc k + r) (2 ^ suc k - 1),
  mul-two_pow-suc q k,
  two_pow-suc k,
  two_pow-pos k,
  low_field-bit_and k q (r / 2) (omega (arith, two_pow-suc k)),
)

-- A mask of `k` low bits is the remainder by `2 ^ k`.
pub bit_and-mask : (k a : ℕ) → bit_and a (2 ^ k - 1) ≡ a % 2 ^ k
bit_and-mask k a =
    ap (λ (t : ℕ). bit_and t (2 ^ k - 1)) (sym (div-add-mod' a (2 ^ k)))
    ∙ low_field-bit_and k (a / 2 ^ k) (a % 2 ^ k) (mod-lt a (two_pow-pos k))

half-bit_xor : (b p : ℕ) → bit_xor b p / 2 ≡ bit_xor (b / 2) (p / 2)
half-bit_xor b p = omega (arith, bit_xor_halves b p)

bit_xor-cancel_below : (n p b : ℕ) → p + b ≤ n → bit_xor p (bit_xor b p) ≡ b
bit_xor-cancel_below zero p b h =
    let e : p ≡ 0 = omega arith in let e' : b ≡ 0 = omega arith in rw (e, e') refl
bit_xor-cancel_below (suc n) p b h = elim (dec_lt 0 (p + b)) [
  | yes pos ↦ omega (
    arith,
    bit_xor_halves p (bit_xor b p),
    bit_xor_halves b p,
    ap (λ (t : ℕ). bit_xor (p / 2) t) (half-bit_xor b p),
    bit_xor-cancel_below n (p / 2) (b / 2) (omega arith),
  )
  | no none ↦ bit_xor-cancel_below n p b (omega arith)
]

-- What is xor-ed in twice is gone.
pub bit_xor-cancel : (p b : ℕ) → bit_xor p (bit_xor b p) ≡ b
bit_xor-cancel p b = bit_xor-cancel_below (p + b) p b (omega arith)

bit_xor_comm_below : (n a b : ℕ) → a + b ≤ n → bit_xor a b ≡ bit_xor b a
bit_xor_comm_below zero a b h =
    let e : a ≡ 0 = omega arith in let e' : b ≡ 0 = omega arith in rw (e, e') refl
bit_xor_comm_below (suc n) a b h = elim (dec_lt 0 (a + b)) [
  | yes pos ↦ omega (
    arith,
    bit_xor_halves a b,
    bit_xor_halves b a,
    bit_xor_comm_below n (a / 2) (b / 2) (omega arith),
  )
  | no none ↦ bit_xor_comm_below n a b (omega arith)
]

pub bit_xor_comm : (a b : ℕ) → bit_xor a b ≡ bit_xor b a
bit_xor_comm a b = bit_xor_comm_below (a + b) a b (omega arith)

pub bit_xor-lt : (k a b : ℕ) → a < 2 ^ k → b < 2 ^ k → bit_xor a b < 2 ^ k
bit_xor-lt zero a b ha hb =
    let e : a ≡ 0 = omega arith in let e' : b ≡ 0 = omega arith in rw (e, e') (omega arith)
bit_xor-lt (suc k) a b ha hb = omega (
  arith,
  bit_xor_halves a b,
  two_pow-suc k,
  bit_xor-lt k (a / 2) (b / 2) (omega (arith, two_pow-suc k)) (omega (arith, two_pow-suc k)),
)

-- A test that holds at every number below `n`, by evaluation.
holds_below : (ℕ → Bool) → ℕ → Bool
holds_below test zero = true
holds_below test (suc n) = holds_below test n && test n

holds_at : (test : ℕ → Bool) (n i : ℕ) → holds_below test n ≡ true → i < n → test i ≡ true
unfolding holds_below
holds_at test zero i h lt = elim lt [ ]
holds_at test (suc n) i h lt = ground (arith, holds_at test n i)

-- `b & 0x80` of a byte.
pub bit_and-0x80 : (b : ℕ) → b < 256 → bit_and b 0x80 ≡ b / 128 * 128
unfolding holds_below
bit_and-0x80 b h = ==→eq _ _ (holds_at (λ i. bit_and i 0x80 == i / 128 * 128) 256 b refl h)

bit_and-le_below : (n a b : ℕ) → a + b ≤ n → bit_and a b ≤ b
bit_and-le_below zero a b h =
    let e : a ≡ 0 = omega arith in rw (e, bit_and-bitwise 0 b) (omega arith)
bit_and-le_below (suc n) a b h = elim (dec_lt 0 (a + b)) [
  | yes pos ↦ omega (arith, bit_and_halves a b, bit_and-le_below n (a / 2) (b / 2) (omega arith))
  | no none ↦ bit_and-le_below n a b (omega arith)
]

-- A mask bounds what it lets through.
pub bit_and-le_right : (a b : ℕ) → bit_and a b ≤ b
bit_and-le_right a b = bit_and-le_below (a + b) a b (omega arith)

bit_or-le_below : (n a b : ℕ) → a + b ≤ n → (a ≤ bit_or a b) × (b ≤ bit_or a b)
bit_or-le_below zero a b h = let e : a ≡ 0 = omega arith in rw (e, zero-bit_or b) (omega arith)
bit_or-le_below (suc n) a b h = elim (dec_lt 0 (a + b)) [
  | yes pos ↦ omega (arith, bit_or_halves a b, bit_or-le_below n (a / 2) (b / 2) (omega arith))
  | no none ↦ bit_or-le_below n a b (omega arith)
]

-- Nothing is lost by an or.
pub bit_or-le : (a b : ℕ) → (a ≤ bit_or a b) × (b ≤ bit_or a b)
bit_or-le a b = bit_or-le_below (a + b) a b (omega arith)
