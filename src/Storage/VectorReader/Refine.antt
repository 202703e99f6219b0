-- ===== src/Storage/VectorReader/Refine.antt =====
-- The bytes that the vectored reader gets are those of the block in order.
use fast_stdb.Common.{
  ℕ, zero, suc, ◌+◌, ◌*◌, ◌/◌, ◌%◌, ◌<◌, ◌≡◌, refl, sym, ap, ◌∙◌, arith, false, List, [], ◌∷◌, ◌++◌,
  length, take, get_elem?, get_or, leb,
}
use fast_stdb.Storage.Iovec.{IovecBlock, get, component_size}
use fast_stdb.Storage.Iovec.Shape.{Holds, Allocated, flat, view}
use fast_stdb.Storage.Iovec.Append.{is_single-Holds}
use fast_stdb.Storage.Iovec.Append.{Holds-le}

module _ {ℓ} {A : Type ℓ} where
  get_elem?-append_left :
      (x y : List A) (i : ℕ) → i < length x → get_elem? (x ++ y) i ≡ get_elem? x i
  get_elem?-append_left [] y i h = absurd (omega arith)
  get_elem?-append_left (a ∷ x) y zero h = refl
  get_elem?-append_left (a ∷ x) y (suc i) h = get_elem?-append_left x y i (omega arith)

  get_elem?-append_right :
      (x y : List A) (i k : ℕ) → k ≡ length x + i → get_elem? (x ++ y) k ≡ get_elem? y i
  get_elem?-append_right [] y i k e = ap (get_elem? y) {x = k} {y = i} (omega arith)
  get_elem?-append_right (a ∷ x) y i zero e = absurd (omega arith)
  get_elem?-append_right (a ∷ x) y i (suc k) e = get_elem?-append_right x y i k (omega arith)

  get_elem?-take : (n i : ℕ) (l : List A) → i < n → get_elem? (take n l) i ≡ get_elem? l i
  get_elem?-take zero i l h = absurd (omega arith)
  get_elem?-take (suc n) i [] h = refl
  get_elem?-take (suc n) zero (x ∷ l) h = refl
  get_elem?-take (suc n) (suc i) (x ∷ l) h = get_elem?-take n i l (omega arith)

get-flat :
    (k i off : ℕ) (cs : List (List ℕ)) (at : ℕ)
    → Allocated k cs
    → i < k
    → off < component_size
    → at ≡ component_size * i + off
    → get_elem? (get_or cs i []) off ≡ get_elem? (flat cs) at
unfolding flat
get-flat k i off [] at h lt inside e = absurd (omega arith)
get-flat zero i off (c ∷ cs) at h lt inside e = absurd (omega arith)
get-flat (suc k) zero off (c ∷ cs) at h lt inside e =
    sym (get_elem?-append_left c (flat cs) off (omega (arith, h.0)))
    ∙ ap (get_elem? (c ++ flat cs)) {x = off} {y = at} (omega arith)
get-flat (suc k) (suc i) off (c ∷ cs) at h lt inside e =
    get-flat k i off cs (component_size * i + off) h.1 (omega arith) inside refl
    ∙ sym (get_elem?-append_right c (flat cs) (component_size * i + off) at (omega (arith, h.0)))

-- A byte before the write position of a block in components is the byte of the contiguous view at
-- the same offset.
pub get-view :
    (k offset : ℕ) (b : IovecBlock)
    → Holds k b
    → offset < b.pos
    → get offset b ≡ get_elem? (view b) offset
unfolding get
get-view k offset b h lt =
    let inside : leb 4 (offset / component_size) ≡ false =
      ground (arith, Holds-le k b h, h.within, lt) in
    rw (is_single-Holds k b h, inside)
      (get-flat k (offset / component_size) (offset % component_size) b.components offset
          h.allocated (omega (arith, h.within, lt)) (omega arith) (omega arith)
        ∙ sym (get_elem?-take b.pos offset (flat b.components) lt))
