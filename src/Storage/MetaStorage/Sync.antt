-- ===== src/Storage/MetaStorage/Sync.antt =====
-- The registry keeps the records of the metadata volume, whenever its thread runs.
use fast_stdb.Common.{
  ℕ, zero, suc, ◌+◌, ◌≡◌, refl, sym, ap, ◌∙◌, arith, List, [], ◌∷◌, ◌++◌, length, set, get_elem?,
  Option, some, none, subst, ◌-◌, Bool-cases, inl, inr, ◌==◌, ltb,
}
use native.Mathlib.Decide.{dec_lt}
use fast_stdb.Storage.Status.{Status, ok, bad_arg}
use fast_stdb.Storage.Iovec.{block_size}
use fast_stdb.Storage.MetaVolume.{
  sizeof_ref, VolumeRef, MetaVolume, Call, add_call, update_call, write, new_ref, update,
  set_nblocks, set_capacity, set_generation, c_string, desc_of,
}
use fast_stdb.Storage.MetaVolume.Access.{write-slots, write-out_of_range}
use fast_stdb.Storage.MetaStorage.{
  MetaVolumeStore, add_volume, update_volume, apply_update, apply_updates, run, handle,
}
use fast_stdb.Storage.MetaStorage.Updates.{
  handle_all, some_eq, handle_all-append, settled-updates, updates-settled, apply_updates-append,
  apply_updates-more, Ahead-run, Ahead-handle_all, run-Ahead,
}

-- A path without a terminator in it.
abbrev pub IsPlain : List ℕ → Type 0
IsPlain path = c_string path ≡ path

-- The record of each volume carries its position, and a path that a C string holds.
abbrev pub Numbered : ℕ → List VolumeRef → Type 0
Numbered n [] = Unit
Numbered n (vol ∷ vols) = ((vol.id ≡ n) × IsPlain vol.path) × Numbered (suc n) vols

-- Once the pending calls are handled and the thread of the registry has run, the registry holds
-- the records of the volumes.
pub record Synced (m : MetaVolume) (s : MetaVolumeStore) : Type 0 where
  pub numbered : Numbered 0 m.slots
  pub settled : run (handle_all m.calls s) ≡ some (record { volume_descs = m.slots; queue = [] })

pub run-Synced :
    (m : MetaVolume) (s s' : MetaVolumeStore) → run s ≡ some s' → Synced m s → Synced m s'
run-Synced m s s' e h = record {
  numbered = h.numbered;
  settled =
      sym (
        Ahead-run (handle_all m.calls s) (handle_all m.calls s')
          (Ahead-handle_all m.calls s s' (run-Ahead s s' e)))
      ∙ h.settled;
}

Numbered-get :
    (n i : ℕ) (vols : List VolumeRef) (vol : VolumeRef)
    → Numbered n vols
    → get_elem? vols i ≡ some vol
    → (vol.id ≡ n + i) × IsPlain vol.path
Numbered-get n i [] vol h e = cc
Numbered-get n zero (v ∷ vols) vol h e = (
  omega (arith, h.0.0, ap VolumeRef.id {x = v} {y = vol} (some_eq e)),
  subst (λ (x : VolumeRef). IsPlain x.path) (some_eq e) h.0.1,
)
Numbered-get n (suc i) (v ∷ vols) vol h e =
    let (at, plain) = Numbered-get (suc n) i vols vol h.1 e in (omega arith, plain)

Numbered-set :
    (n i : ℕ) (vols : List VolumeRef) (vol : VolumeRef)
    → Numbered n vols
    → vol.id ≡ n + i
    → IsPlain vol.path
    → Numbered n (set vols i vol)
Numbered-set n i [] vol h e plain = h
Numbered-set n zero (v ∷ vols) vol h e plain = ((omega arith, plain), h.1)
Numbered-set n (suc i) (v ∷ vols) vol h e plain =
    (h.0, Numbered-set (suc n) i vols vol h.1 (omega arith) plain)

Numbered-append :
    (n : ℕ) (vols : List VolumeRef) (vol : VolumeRef)
    → Numbered n vols
    → vol.id ≡ n + length vols
    → IsPlain vol.path
    → Numbered n (vols ++ vol ∷ [])
Numbered-append n [] vol h e plain = ((omega arith, plain), tt)
Numbered-append n (v ∷ vols) vol h e plain =
    (h.0, Numbered-append (suc n) vols vol h.1 (omega arith) plain)

desc_of_lem : (vol : VolumeRef) → IsPlain vol.path → desc_of vol ≡ vol
unfolding desc_of
desc_of_lem vol plain = ap (λ (p : List ℕ). record vol { path = p }) plain

apply_update-at :
    (vol old : VolumeRef) (descs : List VolumeRef)
    → get_elem? descs vol.id ≡ some old
    → old.id ≡ vol.id
    → apply_update vol descs ≡ some (set descs vol.id vol)
unfolding apply_update
apply_update-at vol old descs at same =
    rw (at, apply_update) (ap (λ (i : ℕ). some (set descs vol.id (record vol { id = i }))) same)

updated-settled :
    (vol old : VolumeRef) (m : MetaVolume) (s : MetaVolumeStore)
    → get_elem? m.slots vol.id ≡ some old
    → old.id ≡ vol.id
    → Synced m s
    → run (handle_all (m.calls ++ update_call vol ∷ []) s)
      ≡ some (record { volume_descs = set m.slots vol.id vol; queue = [] })
unfolding handle update_volume apply_updates
updated-settled vol old m s at same h =
    let before = handle_all m.calls s in
    ap run (handle_all-append m.calls (update_call vol) s)
    ∙ updates-settled (handle (update_call vol) before) (set m.slots vol.id vol) (
        apply_updates-append before.queue (vol ∷ []) before.volume_descs m.slots
          (settled-updates before m.slots h.settled)
        ∙ rw (apply_update-at vol old m.slots at same, apply_updates) refl)

added-settled :
    (vol : VolumeRef) (m : MetaVolume) (s : MetaVolumeStore)
    → Synced m s
    → run (handle_all (m.calls ++ add_call vol ∷ []) s)
      ≡ some (record { volume_descs = m.slots ++ vol ∷ []; queue = [] })
unfolding handle add_volume
added-settled vol m s h =
    let before = handle_all m.calls s in
    ap run (handle_all-append m.calls (add_call vol) s)
    ∙ updates-settled (handle (add_call vol) before) (m.slots ++ vol ∷ []) (
        apply_updates-more before.queue before.volume_descs m.slots (vol ∷ [])
          (settled-updates before m.slots h.settled))

pub write-Synced :
    (change : VolumeRef → VolumeRef) (id : ℕ) (m : MetaVolume) (s : MetaVolumeStore)
    → ((vol : VolumeRef) → ((change vol).id ≡ vol.id) × ((change vol).path ≡ vol.path))
    → Synced m s
    → Synced (write change id m).1 s
write-Synced change id m s same h = elim (dec_lt id (length m.slots)) [
  | no ge ↦
      subst (λ (r : Status × MetaVolume). Synced (r.1) s)
        (sym (write-out_of_range change id m (omega arith))) h
  | yes lt ↦
      let (old, at, done) = write-slots change id m lt in
      let (numbered, plain) = Numbered-get 0 id m.slots old h.numbered at in
      let vol = change old in
      let place : vol.id ≡ id = (same old).0 ∙ omega (arith, numbered) in
      let plain' : IsPlain vol.path = subst IsPlain (sym (same old).1) plain in
      let sent : desc_of vol ≡ vol = desc_of_lem vol plain' in
      subst (λ (r : Status × MetaVolume). Synced (r.1) s) (sym done)
        (record {
          numbered = Numbered-set 0 id m.slots vol h.numbered (omega (arith, place)) plain';
          settled =
              ap (λ (d : VolumeRef). run (handle_all (m.calls ++ update_call d ∷ []) s)) sent
              ∙ updated-settled vol old m s (ap (get_elem? m.slots) place ∙ at)
                  (omega (arith, numbered, place)) h
              ∙ ap (λ (i : ℕ). some (record { volume_descs = set m.slots i vol; queue = [] }))
                  place;
        })
]

-- A new volume with the next id and a path that fits into its block.
add_volume-Synced :
    (capacity : ℕ) (path : List ℕ) (m : MetaVolume) (s : MetaVolumeStore)
    → IsPlain path
    → Synced m s
    → Synced
        (record {
          slots = m.slots ++ new_ref (length m.slots) capacity path ∷ [];
          calls = m.calls ++ add_call (new_ref (length m.slots) capacity path) ∷ [];
        })
        s
unfolding new_ref
add_volume-Synced capacity path m s plain h =
    let vol = new_ref (length m.slots) capacity path in
    record {
      numbered = Numbered-append 0 m.slots vol h.numbered (omega arith) plain;
      settled = added-settled vol m s h;
    }

pub add_volume_step-Synced :
    (capacity : ℕ) (path : List ℕ) (status : Status) (m m' : MetaVolume) (s : MetaVolumeStore)
    → IsPlain path
    → Synced m s
    → fast_stdb.Storage.MetaVolume.add_volume (length m.slots) capacity path m ≡ some (status, m')
    → Synced m' s
unfolding fast_stdb.Storage.MetaVolume.add_volume
add_volume_step-Synced capacity path status m m' s plain h e =
    elim (Bool-cases (ltb (block_size - sizeof_ref) (length path))) [
      | inl long ↦
          let refused : fast_stdb.Storage.MetaVolume.add_volume (length m.slots) capacity path m
              ≡ some (bad_arg, m) =
            rw long refl in
          came_to m (sym refused ∙ e) h
      | inr fits ↦ elim (Bool-cases (length path == block_size - sizeof_ref)) [
        | inl outside ↦
            let lost : fast_stdb.Storage.MetaVolume.add_volume (length m.slots) capacity path m
                ≡ none =
              rw (fits, outside) refl in
            absurd (nothing (sym lost ∙ e))
        | inr inside ↦
            let m'' : MetaVolume = record {
              slots = m.slots ++ new_ref (length m.slots) capacity path ∷ [];
              calls = m.calls ++ add_call (new_ref (length m.slots) capacity path) ∷ [];
            } in
            let added : fast_stdb.Storage.MetaVolume.add_volume (length m.slots) capacity path m
                ≡ some (ok, m'') =
              rw (fits, inside) refl in
            came_to m'' (sym added ∙ e) (add_volume-Synced capacity path m s plain h)
      ]
    ]
  where
    nothing : ◌≡◌ {A = Option (Status × MetaVolume)} none (some (status, m')) → ⊥
    nothing e' = cc

    came_to :
        {status' : Status} (x : MetaVolume)
        → ◌≡◌ {A = Option (Status × MetaVolume)} (some (status', x)) (some (status, m'))
        → Synced x s
        → Synced m' s
    came_to x e' hx = subst (λ y. Synced y s) (ap (λ r. r.1) (some_eq e')) hx

pub call-Synced :
    (m : MetaVolume) (s : MetaVolumeStore) (c : Call) (calls : List Call)
    → m.calls ≡ c ∷ calls
    → Synced m s
    → Synced (record m { calls = calls }) (handle c s)
unfolding handle_all
call-Synced m s c calls e h = record {
  numbered = h.numbered;
  settled = ap (λ (cs : List Call). run (handle_all cs s)) (sym e) ∙ h.settled;
}
