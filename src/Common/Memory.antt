-- ===== src/Common/Memory.antt =====
-- A region of memory as a list: reads and writes of several elements at a position.
use Prim.Native.Nat.{ℕ, zero, suc, ◌+◌, ◌≤◌}
use mathlib.Core.Path.{◌≡◌, refl, ap, ◌∙◌}
use mathlib.Core.Logic.{◌⊎◌, inl, inr}
use mathlib.Core.List.{List, [], ◌∷◌, ◌++◌}
use native.Mathlib.Omega.{arith}
use fast_stdb.Common.Lists.{length, take, drop, set}

module _ {ℓ} {A : Type ℓ} where
  splice : List A → List A → List A
  splice [] l = l
  splice (s ∷ src) [] = []
  splice (s ∷ src) (x ∷ l) = s ∷ splice src l

  -- `memcpy` of `src` to a position; what is out of range is cut off.
  unfoldable pub overwrite : List A → ℕ → List A → List A
  unfolding splice
  overwrite l zero src = splice src l
  overwrite [] (suc off) src = []
  overwrite (x ∷ l) (suc off) src = x ∷ overwrite l off src

  -- The `n` elements at a position.
  unfoldable pub slice : ℕ → ℕ → List A → List A
  slice off n l = take n (drop off l)

  length-splice : (src l : List A) → length (splice src l) ≡ length l
  unfolding splice
  length-splice [] l = refl
  length-splice (s ∷ src) [] = refl
  length-splice (s ∷ src) (x ∷ l) = ap suc (length-splice src l)

  pub length-overwrite :
      (l : List A) (off : ℕ) (src : List A) → length (overwrite l off src) ≡ length l
  unfolding overwrite
  length-overwrite l zero src = length-splice src l
  length-overwrite [] (suc off) src = refl
  length-overwrite (x ∷ l) (suc off) src = ap suc (length-overwrite l off src)

  pub length-take : (n : ℕ) (l : List A) → n ≤ length l → length (take n l) ≡ n
  length-take zero l h = refl
  length-take (suc n) [] h = absurd (omega arith)
  length-take (suc n) (x ∷ l) h = ap suc (length-take n l (omega arith))

  pub length-drop : (n : ℕ) (l : List A) → n ≤ length l → n + length (drop n l) ≡ length l
  length-drop zero l h = omega arith
  length-drop (suc n) [] h = absurd (omega arith)
  length-drop (suc n) (x ∷ l) h = omega (arith, length-drop n l)

  pub length-slice : (off n : ℕ) (l : List A) → off + n ≤ length l → length (slice off n l) ≡ n
  unfolding slice
  length-slice off n l h = length-take n (drop off l) (omega (arith, length-drop off l))

  pub take-drop : (n : ℕ) (l : List A) → take n l ++ drop n l ≡ l
  take-drop zero l = refl
  take-drop (suc n) [] = refl
  take-drop (suc n) (x ∷ l) = ap (λ (t : List A). x ∷ t) (take-drop n l)

  pub take-append : (n : ℕ) (x y : List A) → n ≤ length x → take n (x ++ y) ≡ take n x
  take-append zero x y h = refl
  take-append (suc n) [] y h = absurd (omega arith)
  take-append (suc n) (a ∷ x) y h = ap (λ (t : List A). a ∷ t) (take-append n x y (omega arith))

  take-splice :
      (src l : List A) (k : ℕ) → k ≡ length src → k ≤ length l → take k (splice src l) ≡ src
  unfolding splice
  take-splice [] l zero e h = refl
  take-splice [] l (suc k) e h = absurd (omega arith)
  take-splice (s ∷ src) l zero e h = absurd (omega arith)
  take-splice (s ∷ src) [] (suc k) e h = absurd (omega arith)
  take-splice (s ∷ src) (x ∷ l) (suc k) e h =
      ap (λ (t : List A). s ∷ t) (take-splice src l k (omega arith) (omega arith))

  -- Up to the end of what is written, the old elements and then the new ones.
  pub take-overwrite :
      (l : List A) (off : ℕ) (src : List A) (k : ℕ)
      → k ≡ off + length src
      → k ≤ length l
      → take k (overwrite l off src) ≡ take off l ++ src
  unfolding overwrite
  take-overwrite l zero src k e h = take-splice src l k (omega arith) h
  take-overwrite l (suc off) src zero e h = absurd (omega arith)
  take-overwrite [] (suc off) src (suc k) e h = absurd (omega arith)
  take-overwrite (x ∷ l) (suc off) src (suc k) e h =
      ap (λ (t : List A). x ∷ t) (take-overwrite l off src k (omega arith) (omega arith))

  splice-append : (a b l : List A) → overwrite (splice a l) (length a) b ≡ splice (a ++ b) l
  unfolding overwrite splice
  splice-append [] b l = refl
  splice-append (x ∷ a) b [] = refl
  splice-append (x ∷ a) b (y ∷ l) = ap (λ (t : List A). x ∷ t) (splice-append a b l)

  -- Two writes, one behind the other, are one write.
  pub overwrite-overwrite :
      (l : List A) (off : ℕ) (a b : List A) (k : ℕ)
      → k ≡ off + length a
      → overwrite (overwrite l off a) k b ≡ overwrite l off (a ++ b)
  unfolding overwrite
  overwrite-overwrite l zero a b k e =
      ap (λ (t : ℕ). overwrite (splice a l) t b) (omega arith) ∙ splice-append a b l
  overwrite-overwrite l (suc off) a b zero e = absurd (omega arith)
  overwrite-overwrite [] (suc off) a b (suc k) e = refl
  overwrite-overwrite (x ∷ l) (suc off) a b (suc k) e =
      ap (λ (t : List A). x ∷ t) (overwrite-overwrite l off a b k (omega arith))

  splice-left : (src x y : List A) → length src ≤ length x → splice src (x ++ y) ≡ splice src x ++ y
  unfolding splice
  splice-left [] x y h = refl
  splice-left (s ∷ src) [] y h = absurd (omega arith)
  splice-left (s ∷ src) (a ∷ x) y h = ap (λ (t : List A). s ∷ t) (splice-left src x y (omega arith))

  pub overwrite-append_left :
      (x y : List A) (off : ℕ) (src : List A)
      → off + length src ≤ length x
      → overwrite (x ++ y) off src ≡ overwrite x off src ++ y
  unfolding overwrite
  overwrite-append_left x y zero src h = splice-left src x y (omega arith)
  overwrite-append_left [] y (suc off) src h = absurd (omega arith)
  overwrite-append_left (a ∷ x) y (suc off) src h =
      ap (λ (t : List A). a ∷ t) (overwrite-append_left x y off src (omega arith))

  pub overwrite-append_right :
      (x y : List A) (off : ℕ) (src : List A) (k : ℕ)
      → k ≡ length x + off
      → overwrite (x ++ y) k src ≡ x ++ overwrite y off src
  unfolding overwrite
  overwrite-append_right [] y off src k e =
      ap (λ (t : ℕ). overwrite y t src) {x = k} {y = off} (omega arith)
  overwrite-append_right (a ∷ x) y off src zero e = absurd (omega arith)
  overwrite-append_right (a ∷ x) y off src (suc k) e =
      ap (λ (t : List A). a ∷ t) (overwrite-append_right x y off src k (omega arith))

  pub set-overwrite : (l : List A) (i : ℕ) (v : A) → set l i v ≡ overwrite l i (v ∷ [])
  unfolding overwrite splice
  set-overwrite [] zero v = refl
  set-overwrite (x ∷ l) zero v = refl
  set-overwrite [] (suc i) v = refl
  set-overwrite (x ∷ l) (suc i) v = ap (λ (t : List A). x ∷ t) (set-overwrite l i v)

  take-zero : (l : List A) → take 0 l ≡ []
  take-zero l = refl

  splice_behind : (src l : List A) (k : ℕ) → length src ≤ k → drop k (splice src l) ≡ drop k l
  unfolding splice
  splice_behind [] l k h = refl
  splice_behind (s ∷ src) l zero h = absurd (omega arith)
  splice_behind (s ∷ src) [] (suc k) h = refl
  splice_behind (s ∷ src) (x ∷ l) (suc k) h = splice_behind src l k (omega arith)

  pub drop-overwrite :
      (l : List A) (off : ℕ) (src : List A) (k : ℕ)
      → off + length src ≤ k
      → drop k (overwrite l off src) ≡ drop k l
  unfolding overwrite
  drop-overwrite l zero src k h = splice_behind src l k (omega arith)
  drop-overwrite [] (suc off) src k h = refl
  drop-overwrite (x ∷ l) (suc off) src zero h = absurd (omega arith)
  drop-overwrite (x ∷ l) (suc off) src (suc k) h = drop-overwrite l off src k (omega arith)

  slice_before :
      (l : List A) (off : ℕ) (src : List A) (i n : ℕ)
      → i + n ≤ off
      → take n (drop i (overwrite l off src)) ≡ take n (drop i l)
  unfolding overwrite
  slice_before l zero src zero zero h = refl
  slice_before l zero src zero (suc n) h = absurd (omega arith)
  slice_before l zero src (suc i) n h = absurd (omega arith)
  slice_before [] (suc off) src i n h = refl
  slice_before (x ∷ l) (suc off) src zero zero h = refl
  slice_before (x ∷ l) (suc off) src zero (suc n) h =
      ap (λ (t : List A). x ∷ t) (slice_before l off src zero n (omega arith))
  slice_before (x ∷ l) (suc off) src (suc i) n h = slice_before l off src i n (omega arith)

  -- What is not written keeps its content.
  pub slice-overwrite_ne :
      (l : List A) (off : ℕ) (src : List A) (i n : ℕ)
      → (i + n ≤ off) ⊎ (off + length src ≤ i)
      → slice i n (overwrite l off src) ≡ slice i n l
  unfolding slice
  slice-overwrite_ne l off src i n (inl before) = slice_before l off src i n before
  slice-overwrite_ne l off src i n (inr behind) = ap (take n) (drop-overwrite l off src i behind)

  -- What is written is read.
  pub slice-overwrite_self :
      (l : List A) (off : ℕ) (src : List A) (n : ℕ)
      → n ≡ length src
      → off + n ≤ length l
      → slice off n (overwrite l off src) ≡ src
  unfolding slice overwrite
  slice-overwrite_self l zero src n e h = take-splice src l n e (omega arith)
  slice-overwrite_self [] (suc off) src n e h = absurd (omega arith)
  slice-overwrite_self (x ∷ l) (suc off) src n e h =
      slice-overwrite_self l off src n e (omega arith)

  pub slice-append_left :
      (x y : List A) (i n : ℕ) → i + n ≤ length x → slice i n (x ++ y) ≡ slice i n x
  unfolding slice
  slice-append_left x y zero n h = take-append n x y (omega arith)
  slice-append_left [] y (suc i) n h = absurd (omega arith)
  slice-append_left (a ∷ x) y (suc i) n h = slice-append_left x y i n (omega arith)

  pub slice-append_right :
      (x y : List A) (i n k : ℕ) → k ≡ length x + i → slice k n (x ++ y) ≡ slice i n y
  unfolding slice
  slice-append_right [] y i n k e = ap (λ (t : ℕ). take n (drop t y)) {x = k} {y = i} (omega arith)
  slice-append_right (a ∷ x) y i n zero e = absurd (omega arith)
  slice-append_right (a ∷ x) y i n (suc k) e = slice-append_right x y i n k (omega arith)

  pub take-take : (n m : ℕ) (l : List A) → n ≤ m → take n (take m l) ≡ take n l
  take-take zero m l h = refl
  take-take (suc n) zero l h = absurd (omega arith)
  take-take (suc n) (suc m) [] h = refl
  take-take (suc n) (suc m) (x ∷ l) h = ap (λ (t : List A). x ∷ t) (take-take n m l (omega arith))

  pub slice-take : (i n m : ℕ) (l : List A) → i + n ≤ m → slice i n (take m l) ≡ slice i n l
  unfolding slice
  slice-take zero n m l h = take-take n m l (omega arith)
  slice-take (suc i) n zero l h = absurd (omega arith)
  slice-take (suc i) n (suc m) [] h = refl
  slice-take (suc i) n (suc m) (x ∷ l) h = slice-take i n m l (omega arith)

  take-add : (n m : ℕ) (l : List A) → n ≤ length l → take n l ++ take m (drop n l) ≡ take (n + m) l
  take-add zero m l h = ap (λ (t : ℕ). take t l) {x = m} {y = 0 + m} (omega arith)
  take-add (suc n) m [] h = absurd (omega arith)
  take-add (suc n) m (x ∷ l) h =
      ap (λ (t : List A). x ∷ t) (take-add n m l (omega arith))
      ∙ ap (λ (t : ℕ). take t (x ∷ l)) {x = suc (n + m)} {y = suc n + m} (omega arith)

  -- Two reads, one behind the other, are one read.
  pub slice-slice :
      (i n m : ℕ) (l : List A) (k : ℕ)
      → k ≡ i + n
      → k ≤ length l
      → slice i n l ++ slice k m l ≡ slice i (n + m) l
  unfolding slice
  slice-slice zero n m l k e h =
      ap (λ (t : ℕ). take n l ++ take m (drop t l)) {x = k} {y = n} (omega arith)
      ∙ take-add n m l (omega arith)
  slice-slice (suc i) n m l zero e h = absurd (omega arith)
  slice-slice (suc i) n m [] (suc k) e h = absurd (omega arith)
  slice-slice (suc i) n m (x ∷ l) (suc k) e h = slice-slice i n m l k (omega arith) (omega arith)
