-- ===== src/Storage/FileStorage/Fixed/Append.antt =====
-- Appends to a storage of a fixed size: the block is found at the address that is returned, and the
-- other blocks stay, but for those of a volume that is recycled.
use fast_stdb.Common.{
  ℕ, ◌+◌, ◌%◌, ◌^◌, ◌<◌, ◌≡◌, inl, inr, refl, sym, ap, ◌∙◌, arith, subst, some, length, get_elem?,
  set, ◌==◌, Bool-cases, ==→eq, ==→ne, length-set,
}
use fast_stdb.Storage.Status.{ok}
use fast_stdb.Storage.Iovec.{IovecBlock}
use fast_stdb.Storage.MetaVolume.{VolumeRef}
use fast_stdb.Storage.MetaVolume.Access.{get_elem?-set_self, get_elem?-set_ne}
use fast_stdb.Storage.Volume.{Volume, read_iovec}
use fast_stdb.Storage.Volume.Append.{Keeps}
use fast_stdb.Storage.FileStorage.{FileStorage, make_logic, extract_gen, extract_vol}
use fast_stdb.Storage.FileStorage.Address.{make_logic-extract}
use fast_stdb.Storage.FileStorage.Live.{Live, Paired, Live-set, Live-set_self}
use fast_stdb.Storage.FileStorage.Steps.{committed, stored, counted}
use fast_stdb.Storage.FileStorage.Fixed.Aligned.{Sound, Sound-set, Holding, Dead, Gone, some_eq}

-- The state after a block has been written to the current volume.
unfoldable pub after : FileStorage → Volume → Volume → VolumeRef → FileStorage
after s v v' ref =
    committed v.write_pos ref (record s { volumes = set s.volumes s.current_volume v' })

module _ (s : FileStorage) (v v' : Volume) (ref : VolumeRef) (h : Sound s)
    (at : get_elem? s.volumes s.current_volume ≡ some v)
    (slot : get_elem? s.meta.slots s.current_volume ≡ some ref) (keeps : Keeps v v')
    (moved : v'.write_pos ≡ v.write_pos + 1) where
  new_ref : VolumeRef
  new_ref = counted ((v.write_pos + 1) % 2 ^ 32) ref

  pair : Paired v ref
  pair = (h.paired s.current_volume v ref at slot).0

  own : ref.generation % length s.volumes ≡ s.current_volume
  own = (h.paired s.current_volume v ref at slot).1

  counts : (v.write_pos + 1) % 2 ^ 32 ≡ v'.write_pos
  counts = omega (arith, keeps.0.within, keeps.0.small, moved)

  pub after-Sound : Sound (after s v v' ref)
  unfolding after committed stored counted new_ref
  after-Sound =
      Sound-set s (after s v v' ref) s.current_volume v' new_ref h h.current refl refl refl
        (h.generation ref slot)
        (record {
          mapped = keeps.0;
          room = omega (arith, keeps.1, pair.room);
          blocks = counts;
          small = pair.small;
        })
        own

  -- The blocks that were there stay.
  pub after-Holding : (a : ℕ) (b : IovecBlock) → Holding s a b → Holding (after s v v' ref) a b
  unfolding after committed stored counted new_ref
  after-Holding a b live =
      let ix = extract_gen a % length s.volumes in
      subst (λ k. Live (extract_gen a % k) (extract_gen a) (extract_vol a) (after s v v' ref) b)
        (sym (length-set s.volumes s.current_volume v'))
        (elim (Bool-cases (s.current_volume == ix)) [
          | inr other ↦
              Live-set ix (extract_gen a) (extract_vol a) s.current_volume s (after s v v' ref) b v'
                new_ref refl refl live (==→ne s.current_volume ix other)
          | inl same ↦
              let e : s.current_volume ≡ ix = ==→eq s.current_volume ix same in
              let ev : v ≡ live.volume =
                some_eq (sym at ∙ ap (get_elem? s.volumes) e ∙ live.at_volumes) in
              let er : ref ≡ live.ref =
                some_eq (sym slot ∙ ap (get_elem? s.meta.slots) e ∙ live.at_slots) in
              let lt : extract_vol a < v.write_pos =
                omega (arith, live.before, ap VolumeRef.nblocks er, pair.blocks) in
              Live-set_self ix (extract_gen a) (extract_vol a) s (after s v v' ref) b v' new_ref
                (ap (λ c. set s.volumes c v') e) (ap (λ c. set s.meta.slots c new_ref) e)
                (omega (arith, h.current, e)) (omega (arith, h.current, h.slots, e))
                (ap VolumeRef.generation er ∙ live.same_gen) (omega (arith, counts, moved, lt))
                (keeps.3 (extract_vol a) lt ∙ ap (read_iovec (extract_vol a)) ev ∙ live.content)
        ])

  -- And the new one is at its address.
  pub after-new :
      (b : IovecBlock)
      → read_iovec v.write_pos v' ≡ (ok, b)
      → Holding (after s v v' ref) (make_logic s.current_gen v.write_pos) b
  unfolding after committed stored counted new_ref
  after-new b content =
      let a = make_logic s.current_gen v.write_pos in
      let g : s.current_gen ≡ ref.generation = h.generation ref slot in
      let (gen, vol) =
        make_logic-extract s.current_gen v.write_pos (omega (arith, g, pair.small))
          (omega (arith, pair.mapped.small, pair.mapped.within)) in
      let place : s.current_volume ≡ extract_gen a % length s.volumes =
        sym own ∙ ap (λ x. x % length s.volumes) (sym g ∙ sym gen) in
      subst (λ k. Live (extract_gen a % k) (extract_gen a) (extract_vol a) (after s v v' ref) b)
        (sym (length-set s.volumes s.current_volume v'))
        (Live-set_self (extract_gen a % length s.volumes) (extract_gen a) (extract_vol a) s
          (after s v v' ref) b v' new_ref (ap (λ c. set s.volumes c v') place)
          (ap (λ c. set s.meta.slots c new_ref) place) (omega (arith, h.current, place))
          (omega (arith, h.current, h.slots, place)) (sym g ∙ sym gen)
          (omega (arith, counts, moved, vol)) (ap (λ x. read_iovec x v') vol ∙ content))

  -- A volume of another generation keeps it.
  pub after-Dead : (a : ℕ) → Dead s a → Dead (after s v v' ref) a
  unfolding after committed stored counted new_ref
  after-Dead a dead =
      let ix = extract_gen a % length s.volumes in
      subst (λ k. Gone (extract_gen a % k) (extract_gen a) (after s v v' ref))
        (sym (length-set s.volumes s.current_volume v'))
        (elim (Bool-cases (s.current_volume == ix)) [
          | inr other ↦ record {
            ref = dead.ref;
            slot =
                get_elem?-set_ne s.meta.slots s.current_volume ix new_ref
                  (==→ne s.current_volume ix other)
                ∙ dead.slot;
            differs = dead.differs;
          }
          | inl same ↦
              let e : s.current_volume ≡ ix = ==→eq s.current_volume ix same in
              let er : ref ≡ dead.ref =
                some_eq (sym slot ∙ ap (get_elem? s.meta.slots) e ∙ dead.slot) in
              record {
                ref = new_ref;
                slot =
                    ap (λ c. get_elem? (set s.meta.slots c new_ref) ix) e
                    ∙ get_elem?-set_self s.meta.slots ix new_ref
                        (omega (arith, h.current, h.slots, e));
                differs = λ same_gen. dead.differs (sym (ap VolumeRef.generation er) ∙ same_gen);
              }
        ])
