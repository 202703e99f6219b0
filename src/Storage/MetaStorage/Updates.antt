-- ===== src/Storage/MetaStorage/Updates.antt =====
-- The registry and its queue: updates one after the other, and beside additions.
use fast_stdb.Common.{
  ℕ, zero, suc, ◌≡◌, refl, sym, ap, ◌∙◌, List, [], ◌∷◌, ◌++◌, set, get_elem?, Option, some, none,
  subst, append_assoc, append-nil,
}
use fast_stdb.Storage.MetaVolume.{VolumeRef, Call, add_call, update_call}
use fast_stdb.Storage.MetaStorage.{
  MetaVolumeStore, add_volume, update_volume, apply_update, apply_updates, run, handle,
}

-- The records behind all pending calls, and the updates that wait.
unfoldable pub handle_all : List Call → MetaVolumeStore → MetaVolumeStore
handle_all [] s = s
handle_all (c ∷ calls) s = handle_all calls (handle c s)

pub some_eq : {A : Type 0} {x y : A} → some x ≡ some y → x ≡ y
some_eq {x = x} {y = y} e = cc

pub handle_all-append :
    (calls : List Call) (c : Call) (s : MetaVolumeStore)
    → handle_all (calls ++ c ∷ []) s ≡ handle c (handle_all calls s)
unfolding handle_all
handle_all-append [] c s = refl
handle_all-append (d ∷ calls) c s = handle_all-append calls c (handle d s)

-- What the thread computes.
settled_store : Option (List VolumeRef) → Option MetaVolumeStore
settled_store none = none
settled_store (some descs) = some (record { volume_descs = descs; queue = [] })

run_lem : (s : MetaVolumeStore) → run s ≡ settled_store (apply_updates s.queue s.volume_descs)
unfolding run settled_store
run_lem s = by_updates (apply_updates s.queue s.volume_descs)
  where
    by_updates :
        (r : Option (List VolumeRef))
        → ◌≡◌ {A = Option MetaVolumeStore}
            (elim r [
              | none ↦ none
              | some descs ↦ some (record { volume_descs = descs; queue = [] })
            ])
            (settled_store r)
    by_updates none = refl
    by_updates (some descs) = refl

settled_store-some :
    (r : Option (List VolumeRef)) (descs : List VolumeRef)
    → settled_store r ≡ settled_store (some descs)
    → r ≡ some descs
unfolding settled_store
settled_store-some none descs e = cc
settled_store-some (some l) descs e = ap some (ap MetaVolumeStore.volume_descs (some_eq e))

pub settled-updates :
    (s : MetaVolumeStore) (descs : List VolumeRef)
    → run s ≡ some (record { volume_descs = descs; queue = [] })
    → apply_updates s.queue s.volume_descs ≡ some descs
unfolding settled_store
settled-updates s descs e =
    settled_store-some (apply_updates s.queue s.volume_descs) descs (sym (run_lem s) ∙ e)

pub updates-settled :
    (s : MetaVolumeStore) (descs : List VolumeRef)
    → apply_updates s.queue s.volume_descs ≡ some descs
    → run s ≡ some (record { volume_descs = descs; queue = [] })
unfolding settled_store
updates-settled s descs e = run_lem s ∙ ap settled_store e

-- Updates one after the other.
pub apply_updates-append :
    (us vs : List VolumeRef) (descs descs' : List VolumeRef)
    → apply_updates us descs ≡ some descs'
    → apply_updates (us ++ vs) descs ≡ apply_updates vs descs'
unfolding apply_updates
apply_updates-append [] vs descs descs' e = ap (apply_updates vs) (some_eq e)
apply_updates-append (u ∷ us) vs descs descs' e =
    by_first (apply_update u descs) (λ l e'. apply_updates-append us vs l descs' e') e
  where
    by_first :
        (r : Option (List VolumeRef))
        → ((l : List VolumeRef)
            → apply_updates us l ≡ some descs'
            → apply_updates (us ++ vs) l ≡ apply_updates vs descs')
        → (elim r [ none ↦ none | some l ↦ apply_updates us l ]) ≡ some descs'
        → (elim r [ none ↦ none | some l ↦ apply_updates (us ++ vs) l ]) ≡ apply_updates vs descs'
    by_first none rest e' = cc
    by_first (some l) rest e' = rest l e'

set-append :
    (l : List VolumeRef) (i : ℕ) (a x : VolumeRef) (more : List VolumeRef)
    → get_elem? l i ≡ some a
    → set (l ++ more) i x ≡ set l i x ++ more
set-append [] i a x more e = cc
set-append (y ∷ l) zero a x more e = refl
set-append (y ∷ l) (suc i) a x more e = ap (λ t. y ∷ t) (set-append l i a x more e)

get-append :
    (l : List VolumeRef) (i : ℕ) (a : VolumeRef) (more : List VolumeRef)
    → get_elem? l i ≡ some a
    → get_elem? (l ++ more) i ≡ some a
get-append [] i a more e = cc
get-append (y ∷ l) zero a more e = e
get-append (y ∷ l) (suc i) a more e = get-append l i a more e

-- An update that finds its record finds it behind later additions as well.
apply_update-more :
    (u : VolumeRef) (descs descs' more : List VolumeRef)
    → apply_update u descs ≡ some descs'
    → apply_update u (descs ++ more) ≡ some (descs' ++ more)
unfolding apply_update
apply_update-more u descs descs' more e = by_item (get_elem? descs u.id) refl e
  where
    by_item :
        (r : Option VolumeRef)
        → get_elem? descs u.id ≡ r
        → (elim r [ none ↦ none | some item ↦ some (set descs u.id (record u { id = item.id })) ])
          ≡ some descs'
        → (elim (get_elem? (descs ++ more) u.id) [
          | none ↦ none
          | some item ↦ some (set (descs ++ more) u.id (record u { id = item.id }))
        ])
          ≡ some (descs' ++ more)
    by_item none at e' = cc
    by_item (some item) at e' = rw (get-append descs u.id item more at) (
        ap some (
          set-append descs u.id item (record u { id = item.id }) more at
          ∙ ap (λ l. l ++ more) (some_eq e')))

pub apply_updates-more :
    (us : List VolumeRef) (descs descs' more : List VolumeRef)
    → apply_updates us descs ≡ some descs'
    → apply_updates us (descs ++ more) ≡ some (descs' ++ more)
unfolding apply_updates
apply_updates-more [] descs descs' more e = ap (λ l. some (l ++ more)) (some_eq e)
apply_updates-more (u ∷ us) descs descs' more e =
    by_first (apply_update u descs) refl (λ l e'. apply_updates-more us l descs' more e') e
  where
    by_first :
        (r : Option (List VolumeRef))
        → apply_update u descs ≡ r
        → ((l : List VolumeRef)
            → apply_updates us l ≡ some descs'
            → apply_updates us (l ++ more) ≡ some (descs' ++ more))
        → (elim r [ none ↦ none | some l ↦ apply_updates us l ]) ≡ some descs'
        → (elim (apply_update u (descs ++ more)) [ none ↦ none | some l ↦ apply_updates us l ])
          ≡ some (descs' ++ more)
    by_first none at rest e' = cc
    by_first (some l) at rest e' = rw (apply_update-more u descs l more at) (rest l e')

-- The second registry is the first one after some of the updates that wait.
pub record Ahead (s s' : MetaVolumeStore) : Type 0 where
  pub done : List VolumeRef
  pub waiting : s.queue ≡ done ++ s'.queue
  pub applied : apply_updates done s.volume_descs ≡ some s'.volume_descs

pub Ahead-run : (s s' : MetaVolumeStore) → Ahead s s' → run s ≡ run s'
Ahead-run s s' h =
    run_lem s
    ∙ ap settled_store (
        ap (λ q. apply_updates q s.volume_descs) h.waiting
        ∙ apply_updates-append h.done s'.queue s.volume_descs s'.volume_descs h.applied)
    ∙ sym (run_lem s')

Ahead-handle : (c : Call) (s s' : MetaVolumeStore) → Ahead s s' → Ahead (handle c s) (handle c s')
unfolding handle add_volume update_volume
Ahead-handle (add_call vol) s s' h = record {
  done = h.done;
  waiting = h.waiting;
  applied = apply_updates-more h.done s.volume_descs s'.volume_descs (vol ∷ []) h.applied;
}
Ahead-handle (update_call vol) s s' h = record {
  done = h.done;
  waiting = ap (λ q. q ++ vol ∷ []) h.waiting ∙ append_assoc h.done s'.queue (vol ∷ []);
  applied = h.applied;
}

pub Ahead-handle_all :
    (calls : List Call) (s s' : MetaVolumeStore)
    → Ahead s s'
    → Ahead (handle_all calls s) (handle_all calls s')
unfolding handle_all
Ahead-handle_all [] s s' h = h
Ahead-handle_all (c ∷ calls) s s' h =
    Ahead-handle_all calls (handle c s) (handle c s') (Ahead-handle c s s' h)

-- A turn of the thread changes nothing of what the registry comes to.
pub run-Ahead : (s s' : MetaVolumeStore) → run s ≡ some s' → Ahead s s'
unfolding settled_store
run-Ahead s s' e = by_updates (apply_updates s.queue s.volume_descs) refl (sym (run_lem s) ∙ e)
  where
    by_updates :
        (r : Option (List VolumeRef))
        → apply_updates s.queue s.volume_descs ≡ r
        → settled_store r ≡ some s'
        → Ahead s s'
    by_updates none at e' = cc
    by_updates (some descs) at e' =
        subst (Ahead s) (some_eq e')
          (record { done = s.queue; waiting = sym (append-nil s.queue); applied = at })
