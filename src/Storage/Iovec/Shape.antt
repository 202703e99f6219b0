-- ===== src/Storage/Iovec/Shape.antt =====
-- A block in components: the first ones are allocated, and their bytes one after the other are
-- the content.
use fast_stdb.Common.{
  ℕ, zero, suc, ◌+◌, ◌*◌, ◌<◌, ◌≤◌, ◌≡◌, refl, sym, ap, ◌∙◌, arith, List, [], ◌∷◌, ◌++◌, length,
  get_or, set, take, length-append, length-replicate, append-nil, append_assoc,
}
use fast_stdb.Common.Memory.{
  overwrite, slice, overwrite-append_left, overwrite-append_right, slice-append_left,
  slice-append_right,
}
use fast_stdb.Storage.Iovec.{IovecBlock, component_size, blank, new_block}

unfoldable pub flat : List (List ℕ) → List ℕ
flat [] = []
flat (c ∷ cs) = c ++ flat cs

-- The first `k` of the lists have the size of a component, and the others are empty.
abbrev pub Allocated : ℕ → List (List ℕ) → Type 0
Allocated k [] = k ≡ 0
Allocated zero (c ∷ cs) = (c ≡ []) × Allocated zero cs
Allocated (suc k) (c ∷ cs) = (length c ≡ component_size) × Allocated k cs

pub length-flat :
    (k : ℕ) (cs : List (List ℕ)) → Allocated k cs → length (flat cs) ≡ component_size * k
unfolding flat
length-flat k [] h = omega (arith, h)
length-flat zero (c ∷ cs) h =
    omega (arith, length-append c (flat cs), ap length h.0, length-flat zero cs h.1)
length-flat (suc k) (c ∷ cs) h = omega (arith, length-append c (flat cs), length-flat k cs h.1)

pub length-blank : length blank ≡ component_size
unfolding blank
length-blank = length-replicate {A = ℕ} component_size 0

pub Allocated-get :
    (k i : ℕ) (cs : List (List ℕ))
    → Allocated k cs
    → i < k
    → length (get_or cs i []) ≡ component_size
Allocated-get k i [] h lt = absurd (omega arith)
Allocated-get zero i (c ∷ cs) h lt = absurd (omega arith)
Allocated-get (suc k) zero (c ∷ cs) h lt = h.0
Allocated-get (suc k) (suc i) (c ∷ cs) h lt = Allocated-get k i cs h.1 (omega arith)

pub Allocated-get_empty :
    (k i : ℕ) (cs : List (List ℕ)) → Allocated k cs → k ≤ i → get_or cs i [] ≡ []
Allocated-get_empty k i [] h le = refl
Allocated-get_empty zero zero (c ∷ cs) h le = h.0
Allocated-get_empty zero (suc i) (c ∷ cs) h le = Allocated-get_empty zero i cs h.1 (omega arith)
Allocated-get_empty (suc k) zero (c ∷ cs) h le = absurd (omega arith)
Allocated-get_empty (suc k) (suc i) (c ∷ cs) h le = Allocated-get_empty k i cs h.1 (omega arith)

-- A component that keeps its size may be replaced.
pub Allocated-set :
    (k i : ℕ) (cs : List (List ℕ)) (c : List ℕ)
    → Allocated k cs
    → length c ≡ component_size
    → i < k
    → Allocated k (set cs i c)
Allocated-set k i [] c h e lt = h
Allocated-set zero i (d ∷ cs) c h e lt = absurd (omega arith)
Allocated-set (suc k) zero (d ∷ cs) c h e lt = (e, h.1)
Allocated-set (suc k) (suc i) (d ∷ cs) c h e lt = (h.0, Allocated-set k i cs c h.1 e (omega arith))

-- The next component may be allocated, behind the bytes of the others.
pub Allocated-next :
    (k : ℕ) (cs : List (List ℕ)) (c : List ℕ)
    → Allocated k cs
    → k < length cs
    → length c ≡ component_size
    → Allocated (suc k) (set cs k c)
Allocated-next k [] c h lt e = absurd (omega arith)
Allocated-next zero (d ∷ cs) c h lt e = (e, h.1)
Allocated-next (suc k) (d ∷ cs) c h lt e = (h.0, Allocated-next k cs c h.1 (omega arith) e)

pub flat-Allocated : (cs : List (List ℕ)) → Allocated zero cs → flat cs ≡ []
unfolding flat
flat-Allocated [] h = refl
flat-Allocated (c ∷ cs) h = ap (λ (t : List ℕ). t ++ flat cs) h.0 ∙ flat-Allocated cs h.1

pub flat-next :
    (k : ℕ) (cs : List (List ℕ)) (c : List ℕ)
    → Allocated k cs
    → k < length cs
    → flat (set cs k c) ≡ flat cs ++ c
unfolding flat
flat-next k [] c h lt = absurd (omega arith)
flat-next zero (d ∷ cs) c h lt =
    ap (λ (t : List ℕ). c ++ t) (flat-Allocated cs h.1)
    ∙ append-nil c
    ∙ sym (
        ap (λ (t : List ℕ). t ++ c) (ap (λ (t : List ℕ). t ++ flat cs) h.0 ∙ flat-Allocated cs h.1))
flat-next (suc k) (d ∷ cs) c h lt =
    ap (λ (t : List ℕ). d ++ t) (flat-next k cs c h.1 (omega arith))
    ∙ sym (append_assoc d (flat cs) c)

-- A write into a component is a write into the bytes of all.
pub flat-overwrite :
    (k i off : ℕ) (cs : List (List ℕ)) (src : List ℕ) (at : ℕ)
    → Allocated k cs
    → i < k
    → off + length src ≤ component_size
    → at ≡ component_size * i + off
    → flat (set cs i (overwrite (get_or cs i []) off src)) ≡ overwrite (flat cs) at src
unfolding flat
flat-overwrite k i off [] src at h lt fits e = absurd (omega arith)
flat-overwrite zero i off (c ∷ cs) src at h lt fits e = absurd (omega arith)
flat-overwrite (suc k) zero off (c ∷ cs) src at h lt fits e =
    sym (overwrite-append_left c (flat cs) off src (omega arith))
    ∙ ap (λ (n : ℕ). overwrite (c ++ flat cs) n src) {x = off} {y = at} (omega arith)
flat-overwrite (suc k) (suc i) off (c ∷ cs) src at h lt fits e =
    ap (λ (t : List ℕ). c ++ t)
      (flat-overwrite k i off cs src (component_size * i + off) h.1 (omega arith) fits refl)
    ∙ sym (overwrite-append_right c (flat cs) (component_size * i + off) src at (omega arith))

-- And a read from a component is a read from the bytes of all.
pub slice-flat :
    (k i off n : ℕ) (cs : List (List ℕ)) (at : ℕ)
    → Allocated k cs
    → i < k
    → off + n ≤ component_size
    → at ≡ component_size * i + off
    → slice at n (flat cs) ≡ slice off n (get_or cs i [])
unfolding flat
slice-flat k i off n [] at h lt fits e = absurd (omega arith)
slice-flat zero i off n (c ∷ cs) at h lt fits e = absurd (omega arith)
slice-flat (suc k) zero off n (c ∷ cs) at h lt fits e =
    ap (λ (m : ℕ). slice m n (c ++ flat cs)) {x = at} {y = off} (omega arith)
    ∙ slice-append_left c (flat cs) off n (omega arith)
slice-flat (suc k) (suc i) off n (c ∷ cs) at h lt fits e =
    slice-append_right c (flat cs) (component_size * i + off) n at (omega arith)
    ∙ slice-flat k i off n cs (component_size * i + off) h.1 (omega arith) fits refl

-- A block in components whose write position lies within or right behind the allocated ones.
pub record Holds (k : ℕ) (b : IovecBlock) : Type 0 where
  pub four : length b.components ≡ 4
  pub allocated : Allocated k b.components
  pub within : b.pos ≤ component_size * k

-- The bytes before the write position.
abbrev pub view : IovecBlock → List ℕ
view b = take b.pos (flat b.components)

pub new_block-Holds : Holds 0 new_block
unfolding new_block
new_block-Holds = record {
  four = refl;
  allocated = (refl, (refl, (refl, (refl, refl))));
  within = omega arith;
}
