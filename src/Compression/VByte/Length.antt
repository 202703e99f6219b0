-- ===== src/Compression/VByte/Length.antt =====
-- The length that the control byte gives a value: enough bytes for it, and eight at most.
use fast_stdb.Common.{
  ℕ, zero, suc, ◌-◌, ◌*◌, ◌/◌, ◌^◌, ◌<◌, ◌≤◌, ◌≡◌, arith, ltb, Bool-cases, inl, inr, ◌==◌,
  two_pow_mono, ltb→lt, ltb→le,
}
use native.Mathlib.Decide.{dec_le}
use fast_stdb.Compression.Stream.{IsU64}
use fast_stdb.Compression.VByte.{clz, ctrl_of}

pub clz-le : (k v : ℕ) → clz k v ≤ k
unfolding clz
clz-le zero v = omega arith
clz-le (suc k) v = ground (arith, clz-le k v)

-- A value of `k` bits has no bit above its leading zeros.
pub lt-clz : (k v : ℕ) → v < 2 ^ k → v < 2 ^ (k - clz k v)
unfolding clz
lt-clz zero v h = h
lt-clz (suc k) v h = elim (Bool-cases (ltb v (2 ^ k))) [
  | inl small ↦
      let e : suc k - suc (clz k v) ≡ k - clz k v = omega arith in
      rw (small, e) (lt-clz k v (ltb→lt _ _ small))
  | inr big ↦ let e : suc k - 0 ≡ suc k = omega arith in rw (big, e) h
]

-- The bit below the leading zeros is set.
clz-le_value : (k v : ℕ) → 0 < v → v < 2 ^ k → 2 ^ (k - clz k v - 1) ≤ v
unfolding clz
clz-le_value zero v pos h = absurd (omega arith)
clz-le_value (suc k) v pos h = elim (Bool-cases (ltb v (2 ^ k))) [
  | inl small ↦
      let e : suc k - suc (clz k v) - 1 ≡ k - clz k v - 1 = omega arith in
      rw (small, e) (clz-le_value k v pos (ltb→lt _ _ small))
  | inr big ↦ let e : suc k - 0 - 1 ≡ k = omega arith in rw (big, e) (ltb→le _ _ big)
]

-- A nonzero value has a bit that is set.
pub clz-lt : (k v : ℕ) → 0 < v → v < 2 ^ k → clz k v < k
unfolding clz
clz-lt zero v pos h = absurd (omega arith)
clz-lt (suc k) v pos h = ground (arith, clz-lt k v)

pub ctrl_of-le : (v : ℕ) → ctrl_of v ≤ 8
unfolding ctrl_of
ctrl_of-le v = ground arith

-- A 64-bit value fits the bytes of the length that its control byte gives it.
pub lt-ctrl_of : (v : ℕ) → IsU64 v → v < 2 ^ (8 * ctrl_of v)
unfolding ctrl_of
lt-ctrl_of v h = elim (Bool-cases (v == 0)) [
  | inl zero_value ↦ rw zero_value (ground arith)
  | inr pos ↦ rw pos (
      omega (
        arith,
        lt-clz 64 v h,
        clz-le 64 v,
        two_pow_mono (64 - clz 64 v) (8 * (8 - clz 64 v / 8)) (omega (arith, clz-le 64 v)),
      ))
]

-- No length is wasted: if a 64-bit value fits `n` bytes, its length is at most `n`.
pub ctrl_of-tight : (v n : ℕ) → IsU64 v → v < 2 ^ (8 * n) → ctrl_of v ≤ n
unfolding ctrl_of
ctrl_of-tight v n h fits = elim (Bool-cases (v == 0)) [
  | inl zero_value ↦ rw zero_value (omega arith)
  | inr pos ↦ rw pos (elim (dec_le (8 - clz 64 v / 8) n) [
    | yes small ↦ small
    | no big ↦ absurd (
        omega (
          arith,
          clz-le_value 64 v (ground arith) h,
          two_pow_mono (8 * n) (64 - clz 64 v - 1) (omega arith),
        ))
  ])
]
