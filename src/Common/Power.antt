-- ===== src/Common/Power.antt =====
-- Powers of two, as the codecs use them.
use Prim.Native.Nat.{ℕ, zero, suc, ◌+◌, ◌*◌, ◌^◌, ◌≤◌}
use mathlib.Core.Path.{◌≡◌, ap}
use native.Mathlib.Nat.{pow-suc, one-le-pow, pow-le-pow_right}
use native.Mathlib.Omega.{arith}

pub two_pow-suc : (k : ℕ) → 2 ^ suc k ≡ 2 * 2 ^ k
two_pow-suc k = omega (arith, pow-suc 2 k)

pub two_pow-pos : (k : ℕ) → 1 ≤ 2 ^ k
two_pow-pos k = one-le-pow k 2 (omega arith)

pub two_pow_mono : (j k : ℕ) → j ≤ k → 2 ^ j ≤ 2 ^ k
two_pow_mono j k h = pow-le-pow_right (omega arith) h

pub two_pow-add : (j k : ℕ) → 2 ^ (j + k) ≡ 2 ^ j * 2 ^ k
two_pow-add zero k = let e : zero + k ≡ k = omega arith in rw e (omega arith)
two_pow-add (suc j) k =
    let e : suc j + k ≡ suc (j + k) = omega arith in
    rw e (
      omega
        (arith, two_pow-suc (j + k), ap (λ (t : ℕ). t * 2 ^ k) (two_pow-suc j), two_pow-add j k))
