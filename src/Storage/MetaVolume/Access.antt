-- ===== src/Storage/MetaVolume/Access.antt =====
-- The fields of a metadata volume that are written and read.
use fast_stdb.Common.{
  ℕ, zero, suc, ◌<◌, ◌≤◌, ◌≡◌, ◌≢◌, refl, ap, arith, List, [], ◌∷◌, ◌++◌, length, set, get_elem?,
  some, none,
}
use fast_stdb.Storage.Status.{ok, out_of_range}
use fast_stdb.Storage.MetaVolume.{
  VolumeRef, MetaVolume, update_call, desc_of, write, get_nblocks, get_capacity, get_generation,
}

module _ {ℓ} {A : Type ℓ} where
  pub get_elem?-set_self :
      (l : List A) (i : ℕ) (a : A) → i < length l → get_elem? (set l i a) i ≡ some a
  get_elem?-set_self [] i a h = absurd (omega arith)
  get_elem?-set_self (x ∷ l) zero a h = refl
  get_elem?-set_self (x ∷ l) (suc i) a h = get_elem?-set_self l i a (omega arith)

  pub get_elem?-set_ne :
      (l : List A) (i j : ℕ) (a : A) → i ≢ j → get_elem? (set l i a) j ≡ get_elem? l j
  get_elem?-set_ne [] i j a h = refl
  get_elem?-set_ne (x ∷ l) zero zero a h = absurd (h refl)
  get_elem?-set_ne (x ∷ l) zero (suc j) a h = refl
  get_elem?-set_ne (x ∷ l) (suc i) zero a h = refl
  get_elem?-set_ne (x ∷ l) (suc i) (suc j) a h = get_elem?-set_ne l i j a (λ e. h (ap suc e))

  pub get_elem?-lt : (l : List A) (i : ℕ) → i < length l → (a : A) × (get_elem? l i ≡ some a)
  get_elem?-lt [] i h = absurd (omega arith)
  get_elem?-lt (x ∷ l) zero h = (x, refl)
  get_elem?-lt (x ∷ l) (suc i) h = get_elem?-lt l i (omega arith)

  pub get_elem?-ge : (l : List A) (i : ℕ) → length l ≤ i → get_elem? l i ≡ none
  get_elem?-ge [] i h = refl
  get_elem?-ge (x ∷ l) zero h = absurd (omega arith)
  get_elem?-ge (x ∷ l) (suc i) h = get_elem?-ge l i (omega arith)

  pub set-get_elem? : (l : List A) (i : ℕ) (a : A) → get_elem? l i ≡ some a → set l i a ≡ l
  set-get_elem? [] i a e = refl
  set-get_elem? (x ∷ l) zero a e = ap (λ (y : A). y ∷ l) {x = a} {y = x} cc
  set-get_elem? (x ∷ l) (suc i) a e = ap (λ (t : List A). x ∷ t) (set-get_elem? l i a e)

  pub set-set : (l : List A) (i : ℕ) (a b : A) → set (set l i a) i b ≡ set l i b
  set-set [] i a b = refl
  set-set (x ∷ l) zero a b = refl
  set-set (x ∷ l) (suc i) a b = ap (λ (t : List A). x ∷ t) (set-set l i a b)

-- The record of a volume after a write.
pub write-slots :
    (change : VolumeRef → VolumeRef) (id : ℕ) (m : MetaVolume)
    → id < length m.slots
    → (vol : VolumeRef) × (get_elem? m.slots id ≡ some vol)
      × (write change id m ≡ (
        ok,
        record {
          slots = set m.slots id (change vol);
          calls = m.calls ++ update_call (desc_of (change vol)) ∷ [];
        },
      ))
unfolding write
write-slots change id m lt =
    let (vol, e) = get_elem?-lt m.slots id lt in (vol, e, rw (e, write) refl)

pub write-out_of_range :
    (change : VolumeRef → VolumeRef) (id : ℕ) (m : MetaVolume)
    → length m.slots ≤ id
    → write change id m ≡ (out_of_range, m)
unfolding write
write-out_of_range change id m ge = rw (get_elem?-ge m.slots id ge, write) refl

pub get_nblocks-slot :
    (id : ℕ) (m : MetaVolume) (vol : VolumeRef)
    → get_elem? m.slots id ≡ some vol
    → get_nblocks id m ≡ (ok, vol.nblocks)
unfolding get_nblocks
get_nblocks-slot id m vol e = rw (e, get_nblocks) refl

pub get_capacity-slot :
    (id : ℕ) (m : MetaVolume) (vol : VolumeRef)
    → get_elem? m.slots id ≡ some vol
    → get_capacity id m ≡ (ok, vol.capacity)
unfolding get_capacity
get_capacity-slot id m vol e = rw (e, get_capacity) refl

pub get_generation-slot :
    (id : ℕ) (m : MetaVolume) (vol : VolumeRef)
    → get_elem? m.slots id ≡ some vol
    → get_generation id m ≡ (ok, vol.generation)
unfolding get_generation
get_generation-slot id m vol e = rw (e, get_generation) refl
