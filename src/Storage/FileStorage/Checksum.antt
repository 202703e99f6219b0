-- ===== src/Storage/FileStorage/Checksum.antt =====
-- The checksum of a block in components, which is that of its bytes.
use fast_stdb.Common.{
  ℕ, zero, suc, ◌+◌, ◌-◌, ◌*◌, ◌≤◌, ◌≡◌, refl, sym, ap, ◌∙◌, arith, List, [], ◌∷◌, ◌++◌, length,
  min, ltb, ◌==◌, ◌||◌, if◌then◌else◌, true, false, Bool-cases, inl, inr, ==→eq, le→ltb, ne→==,
  eq→==, append-nil, length-append, Bool,
}
use native.Mathlib.Decide.{dec_lt}
use fast_stdb.Common.Memory.{slice, slice-slice, slice-append_left, slice-append_right}
use fast_stdb.Storage.Iovec.{IovecBlock, component_size}
use fast_stdb.Storage.Iovec.Shape.{flat, Allocated, Holds}
use fast_stdb.Storage.FileStorage.{checksum_loop, checksum}

slice_none : (at : ℕ) (l : List ℕ) → slice at 0 l ≡ []
unfolding slice
slice_none at l = refl

-- A slice that goes on behind the first part.
slice-append :
    (x y : List ℕ) (offset size : ℕ)
    → offset ≤ length x
    → slice offset size (x ++ y)
      ≡ slice offset (min (length x - offset) size) x
        ++ slice 0 (size - min (length x - offset) size) y
slice-append x y offset size le = elim (dec_lt size (length x - offset)) [
  | yes inside ↦
      let e : min (length x - offset) size ≡ size = omega arith in
      slice-append_left x y offset size (omega arith)
      ∙ sym (append-nil (slice offset size x))
      ∙ sym (
          ap (λ n. slice offset n x ++ slice 0 (size - n) y) e
          ∙ ap (λ n. slice offset size x ++ slice 0 n y) {x = size - size} {y = 0} (omega arith)
          ∙ ap (λ (l : List ℕ). slice offset size x ++ l) (slice_none 0 y))
  | no across ↦
      let e : min (length x - offset) size ≡ length x - offset = omega arith in
      let n = length x - offset in
      let m = size - (length x - offset) in
      ap (λ k. slice offset k (x ++ y)) {x = size} {y = n + m} (omega arith)
      ∙ sym (
          slice-slice offset n m (x ++ y) (length x) (omega arith)
            (omega (arith, length-append x y)))
      ∙ ap (λ (l : List ℕ). l ++ slice (length x) m (x ++ y))
          (slice-append_left x y offset n (omega arith))
      ∙ ap (λ (l : List ℕ). slice offset n x ++ l)
          (slice-append_right x y 0 m (length x) (omega arith))
      ∙ sym (ap (λ k. slice offset k x ++ slice 0 (size - k) y) e)
]

module _ (impl : ℕ → List ℕ → ℕ) (impl-nil : (crc : ℕ) → impl crc [] ≡ crc)
    (impl-append : (crc : ℕ) (x y : List ℕ) → impl crc (x ++ y) ≡ impl (impl crc x) y) where
  none_left :
      (cs : List (List ℕ)) (offset size crc : ℕ)
      → size ≡ 0
      → checksum_loop impl cs offset size crc ≡ impl crc (slice offset size (flat cs))
  unfolding checksum_loop
  none_left [] offset size crc e =
      sym (impl-nil crc)
      ∙ sym (
          ap (λ n. impl crc (slice offset n (flat []))) e
          ∙ ap (impl crc) (slice_none offset (flat [])))
  none_left (c ∷ cs) offset size crc e =
      rw (eq→== size 0 e) (stop (ltb (length c) offset) (length c == 0) _)
      ∙ sym (impl-nil crc)
      ∙ sym (
          ap (λ n. impl crc (slice offset n (flat (c ∷ cs)))) e
          ∙ ap (impl crc) (slice_none offset (flat (c ∷ cs))))
    where
      stop : (p q : Bool) (x : ℕ) → (if p || q || true then crc else x) ≡ crc
      stop true q x = refl
      stop false true x = refl
      stop false false x = refl

  checksum_loop-slice :
      (k : ℕ) (cs : List (List ℕ)) (offset size crc : ℕ)
      → Allocated k cs
      → offset ≤ component_size
      → offset + size ≤ component_size * k
      → checksum_loop impl cs offset size crc ≡ impl crc (slice offset size (flat cs))
  unfolding checksum_loop flat
  checksum_loop-slice k [] offset size crc h le fits =
      none_left [] offset size crc (omega (arith, h))
  checksum_loop-slice zero (c ∷ cs) offset size crc h le fits =
      none_left (c ∷ cs) offset size crc (omega arith)
  checksum_loop-slice (suc k) (c ∷ cs) offset size crc h le fits = elim (Bool-cases (size == 0)) [
    | inl nothing ↦ none_left (c ∷ cs) offset size crc (==→eq size 0 nothing)
    | inr more ↦
        let sz = min (length c - offset) size in
        rw
          (
            le→ltb (length c) offset (omega (arith, h.0)),
            ne→== (length c) 0 (λ e. omega (arith, h.0, e)),
            more,
          )
          (checksum_loop-slice k cs 0 (size - sz) (impl crc (slice offset sz c)) h.1 (omega arith)
              (omega (arith, h.0))
            ∙ sym (impl-append crc (slice offset sz c) (slice 0 (size - sz) (flat cs)))
            ∙ ap (impl crc) (sym (slice-append c (flat cs) offset size (omega (arith, h.0)))))
  ]

  -- For an implementation that leaves the checksum for no bytes and can be carried on over more
  -- bytes, the checksum of so many bytes of a block in components, from an offset in the first of
  -- them and within those that are allocated, is that of its contiguous bytes.
  pub checksum-slice :
      (k : ℕ) (b : IovecBlock) (offset size : ℕ)
      → Holds k b
      → offset ≤ component_size
      → offset + size ≤ component_size * k
      → checksum impl b offset size ≡ impl 0 (slice offset size (flat b.components))
  unfolding checksum
  checksum-slice k b offset size h le fits =
      checksum_loop-slice k b.components offset size 0 h.allocated le fits
