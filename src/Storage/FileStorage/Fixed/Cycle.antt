-- ===== src/Storage/FileStorage/Fixed/Cycle.antt =====
-- The cycle of the volumes: a full volume is followed by one that is empty or recycled.
use fast_stdb.Common.{
  ℕ, ◌+◌, ◌%◌, ◌^◌, ◌<◌, ◌≡◌, ◌≢◌, ◌⊎◌, inl, inr, refl, sym, ap, ◌∙◌, arith, subst, some, length,
  get_elem?, set, ◌==◌, Bool-cases, ==→eq, ==→ne, length-set,
}
use native.Mathlib.Nat.{mod-lt, add-mod_right}
use fast_stdb.Storage.Iovec.{IovecBlock}
use fast_stdb.Storage.MetaVolume.{VolumeRef}
use fast_stdb.Storage.MetaVolume.Access.{set-set, set-get_elem?, get_elem?-set_self}
use fast_stdb.Storage.Volume.{Volume, reset}
use fast_stdb.Storage.FileStorage.{
  FileStorage, extract_gen, extract_vol, handle_volume_transition, enter,
}
use fast_stdb.Storage.FileStorage.Live.{Live, Paired, Live-set}
use fast_stdb.Storage.FileStorage.Steps.{
  stored, entered, recycled, renewed, next_gen, enter-empty, enter-recycle,
}
use fast_stdb.Storage.FileStorage.Fixed.{adjust_current_volume}
use fast_stdb.Storage.FileStorage.Fixed.Aligned.{
  Sound, Sound-get, Sound-set, Holding, Dead, Gone, some_eq, some_volumes,
}

abbrev pub next_index : FileStorage → ℕ
next_index s = (s.current_volume + 1) % length s.volumes

-- The generations of the next volume are not used up.
abbrev pub Fresh : FileStorage → Type 0
Fresh s =
    (ref : VolumeRef)
    → get_elem? s.meta.slots (next_index s) ≡ some ref
    → ref.generation + length s.volumes < 2 ^ 32

-- A storage that has turned to a volume with room.
pub record Turned (s t : FileStorage) : Type 0 where
  pub turn : handle_volume_transition adjust_current_volume s ≡ some t
  pub sound : Sound t
  pub keeps : (a : ℕ) (b : IovecBlock) → Holding s a b → Holding t a b ⊎ Dead t a
  pub v : Volume
  pub ref : VolumeRef
  pub at : get_elem? t.volumes t.current_volume ≡ some v
  pub slot : get_elem? t.meta.slots t.current_volume ≡ some ref
  pub free : v.write_pos < v.file_size

unfoldable adjusted : FileStorage → FileStorage
adjusted s = record s { current_volume = next_index s }

adjust_lem : (s : FileStorage) → Sound s → adjust_current_volume s ≡ some (adjusted s)
unfolding adjust_current_volume adjusted
adjust_lem s h = rw (some_volumes s h) refl

transition_lem :
    (s t : FileStorage)
    → Sound s
    → enter (adjusted s) ≡ some t
    → handle_volume_transition adjust_current_volume s ≡ some t
unfolding handle_volume_transition
transition_lem s t h e = rw (adjust_lem s h, handle_volume_transition) e

module _ (s : FileStorage) (v : Volume) (ref : VolumeRef) (h : Sound s)
    (lt : next_index s < length s.volumes) (at : get_elem? s.volumes (next_index s) ≡ some v)
    (slot : get_elem? s.meta.slots (next_index s) ≡ some ref) (pair : Paired v ref)
    (own : ref.generation % length s.volumes ≡ next_index s) where
  Turned-empty : ref.nblocks ≡ 0 → Turned s (entered ref (adjusted s))
  unfolding adjusted entered
  Turned-empty e = record {
    turn = transition_lem s (entered ref (adjusted s)) h (enter-empty (adjusted s) ref slot e);
    sound =
        Sound-set s (entered ref (adjusted s)) (next_index s) v ref h lt
          (sym (set-get_elem? s.volumes (next_index s) v at))
          (sym (set-get_elem? s.meta.slots (next_index s) ref slot)) refl refl pair own;
    keeps = λ a b live. inl (record {
      volume = live.volume;
      ref = live.ref;
      at_volumes = live.at_volumes;
      at_slots = live.at_slots;
      same_gen = live.same_gen;
      before = live.before;
      content = live.content;
    });
    v = v;
    ref = ref;
    at = at;
    slot = slot;
    free = omega (arith, pair.room, pair.blocks);
  }

  -- The blocks of the volume are dropped, since its generation grows.
  dropped :
      (a : ℕ) (b : IovecBlock) (t : FileStorage) (v' : Volume) (ref' : VolumeRef)
      → t.volumes ≡ set s.volumes (next_index s) v'
      → t.meta.slots ≡ set s.meta.slots (next_index s) ref'
      → ref'.generation ≡ ref.generation + length s.volumes
      → Holding s a b
      → Holding t a b ⊎ Dead t a
  dropped a b t v' ref' evs ess gen live =
      let j = next_index s in
      let ix = extract_gen a % length s.volumes in
      let size : length t.volumes ≡ length s.volumes = ap length evs ∙ length-set s.volumes j v' in
      elim (Bool-cases (j == ix)) [
        | inr other ↦ inl (
            subst (λ k. Live (extract_gen a % k) (extract_gen a) (extract_vol a) t b) (sym size)
              (Live-set ix (extract_gen a) (extract_vol a) j s t b v' ref' evs ess live
                (==→ne j ix other)))
        | inl same ↦
            let e : j ≡ ix = ==→eq j ix same in
            let er : ref ≡ live.ref =
              some_eq (sym slot ∙ ap (get_elem? s.meta.slots) e ∙ live.at_slots) in
            inr (
              subst (λ k. Gone (extract_gen a % k) (extract_gen a) t) (sym size)
                (record {
                  ref = ref';
                  slot =
                      ap (λ ss. get_elem? ss ix) ess
                      ∙ ap (λ c. get_elem? (set s.meta.slots c ref') ix) e
                      ∙ get_elem?-set_self s.meta.slots ix ref' (omega (arith, lt, h.slots, e));
                  differs = λ same_gen.
                      omega (
                        arith,
                        gen,
                        same_gen,
                        live.same_gen,
                        ap VolumeRef.generation er,
                        h.nonempty,
                      );
                }))
      ]

  Turned-recycled :
      ref.nblocks ≢ 0
      → ref.generation + length s.volumes < 2 ^ 32
      → Turned s (recycled ref v (adjusted s))
  unfolding adjusted recycled stored renewed next_gen reset
  Turned-recycled ne fresh =
      let t = recycled ref v (adjusted s) in
      let j = next_index s in
      let gen : next_gen ref (adjusted s) ≡ ref.generation + length s.volumes = omega arith in
      let ref' : VolumeRef = renewed (next_gen ref (adjusted s)) ref in
      let slots : t.meta.slots ≡ set s.meta.slots j ref' =
        set-set s.meta.slots j (record ref { generation = next_gen ref (adjusted s) }) ref' in
      let lt' : j < length s.meta.slots = omega (arith, lt, h.slots) in
      let slot' : get_elem? t.meta.slots j ≡ some ref' =
        ap (λ ss. get_elem? ss j) slots ∙ get_elem?-set_self s.meta.slots j ref' lt' in
      record {
        turn = transition_lem s t h (enter-recycle (adjusted s) ref v slot at lt' ne);
        sound =
            Sound-set s t j (reset v) ref' h lt refl slots refl refl
              (record {
                mapped = record {
                  sized = pair.mapped.sized;
                  small = pair.mapped.small;
                  within = omega arith;
                };
                room = pair.room;
                blocks = refl;
                small = omega (arith, gen, fresh);
              })
              (ap (λ g. g % length s.volumes) gen
                ∙ add-mod_right ref.generation (length s.volumes)
                ∙ own);
        keeps = λ a b live. dropped a b t (reset v) ref' refl slots gen live;
        v = reset v;
        ref = ref';
        at = get_elem?-set_self s.volumes j (reset v) lt;
        slot = slot';
        free = pair.room;
      }

pub turned : (s : FileStorage) → Sound s → Fresh s → (t : FileStorage) × Turned s t
turned s h fresh =
    let lt = mod-lt (s.current_volume + 1) h.nonempty in
    let (v, ref, at, slot, pair, own) = Sound-get s (next_index s) h lt in
    elim (Bool-cases (ref.nblocks == 0)) [
      | inl empty ↦ (
        entered ref (adjusted s),
        Turned-empty s v ref h lt at slot pair own (==→eq ref.nblocks 0 empty),
      )
      | inr some_blocks ↦ (
        recycled ref v (adjusted s),
        Turned-recycled s v ref h lt at slot pair own (==→ne ref.nblocks 0 some_blocks)
            (fresh ref slot),
      )
    ]
