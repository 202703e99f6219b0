-- ===== src/Storage/FileStorage/Expandable/Keep.antt =====
-- A storage that grows keeps all its blocks.
use fast_stdb.Common.{
  ℕ, zero, suc, ◌+◌, ◌%◌, ◌^◌, ◌<◌, ◌≤◌, ◌≡◌, inl, inr, refl, sym, ap, ◌∙◌, subst, arith, true,
  some, List, [], ◌∷◌, ◌++◌, length, get_elem?, set, length-set, length-append, Bool-cases, ◌==◌,
  ==→eq, ==→ne,
}
use mathlib.Core.Bool.{true≢false}
use native.Mathlib.Nat.{mod-eq_of_lt}
use native.Mathlib.Decide.{dec_lt}
use fast_stdb.Storage.Iovec.{IovecBlock}
use fast_stdb.Storage.MetaVolume.{VolumeRef, new_ref}
use fast_stdb.Storage.MetaVolume.Access.{get_elem?-set_self, get_elem?-set_ne}
use fast_stdb.Storage.Volume.{Volume, block_at}
use fast_stdb.Storage.Volume.Blocks.{Mapped}
use fast_stdb.Storage.Volume.Append.{loaded, Keeps}
use fast_stdb.Storage.FileStorage.{FileStorage, extract_gen, extract_vol}
use fast_stdb.Storage.FileStorage.Live.{Live, Paired, is_live-Live, is_live-outside}
use fast_stdb.Storage.FileStorage.Steps.{committed, stored, counted, entered}
use fast_stdb.Storage.FileStorage.Fixed.Aligned.{Sound, Sound-get, Holding, some_eq}
use fast_stdb.Storage.FileStorage.Fixed.Append.{after, after-Sound}
use fast_stdb.Storage.FileStorage.Expandable.{exists}
use fast_stdb.Storage.FileStorage.Expandable.Grow.{
  get_elem?-append_left, get_elem?-append_last, get_elem?-append_cases, fresh_volume, grown,
  fresh_volume-Mapped,
}

-- The generation of each volume is its number, and the last volume is the current one.
pub record Growing (s : FileStorage) : Type 0 where
  pub sound : Sound s
  pub numbered :
      (i : ℕ) (ref : VolumeRef) → get_elem? s.meta.slots i ≡ some ref → ref.generation ≡ i
  pub last : s.current_volume + 1 ≡ length s.volumes

abbrev pub Finds : FileStorage → ℕ → IovecBlock → Type 0
Finds s a b = Live (extract_gen a) (extract_gen a) (extract_vol a) s b

get_elem?-bound {ℓ} :
    {A : Type ℓ} (l : List A) (i : ℕ) (a : A) → get_elem? l i ≡ some a → i < length l
get_elem?-bound [] i a e = cc
get_elem?-bound (x ∷ l) zero a e = omega arith
get_elem?-bound (x ∷ l) (suc i) a e = omega (arith, get_elem?-bound l i a e)

pub Holding-Finds :
    (s : FileStorage) (a : ℕ) (b : IovecBlock) → Growing s → Holding s a b → Finds s a b
Holding-Finds s a b h live =
    let same : extract_gen a % length s.volumes ≡ extract_gen a =
      sym (h.numbered (extract_gen a % length s.volumes) live.ref live.at_slots) ∙ live.same_gen in
    subst (λ ix. Live ix (extract_gen a) (extract_vol a) s b) same live

pub Finds-Holding : (s : FileStorage) (a : ℕ) (b : IovecBlock) → Finds s a b → Holding s a b
Finds-Holding s a b live =
    subst (λ ix. Live ix (extract_gen a) (extract_vol a) s b)
      (sym (mod-eq_of_lt (get_elem?-bound s.volumes (extract_gen a) live.volume live.at_volumes)))
      live

pub exists-Finds :
    (s : FileStorage) (a : ℕ) → Growing s → exists a s ≡ true → (b : IovecBlock) × Finds s a b
unfolding exists
exists-Finds s a h e = elim (dec_lt (extract_gen a) (length s.volumes)) [
  | yes lt ↦
      let (v, ref, at, slot, pair, own) = Sound-get s (extract_gen a) h.sound lt in
      (
        loaded (block_at (extract_vol a) v),
        is_live-Live (extract_gen a) (extract_gen a) (extract_vol a) s v ref at slot pair e,
      )
  | no ge ↦ absurd (
      true≢false (
        sym e
        ∙ is_live-outside (extract_gen a) (extract_gen a) (extract_vol a) s.meta
            (omega (arith, h.sound.slots))))
]

-- A write to the current volume.
pub after-Growing :
    (s : FileStorage) (v v' : Volume) (ref : VolumeRef)
    → Growing s
    → get_elem? s.volumes s.current_volume ≡ some v
    → get_elem? s.meta.slots s.current_volume ≡ some ref
    → Keeps v v'
    → v'.write_pos ≡ v.write_pos + 1
    → Growing (after s v v' ref)
unfolding after committed stored counted
after-Growing s v v' ref h at slot keeps moved =
    let c = s.current_volume in
    let ref' = counted ((v.write_pos + 1) % 2 ^ 32) ref in
    record {
      sound = after-Sound s v v' ref h.sound at slot keeps moved;
      last = h.last ∙ sym (length-set s.volumes c v');
      numbered = λ i r e. elim (Bool-cases (c == i)) [
        | inr other ↦
            h.numbered i r (sym (get_elem?-set_ne s.meta.slots c i ref' (==→ne c i other)) ∙ e)
        | inl same ↦
            let eq = ==→eq c i same in
            ap VolumeRef.generation {x = r} {y = ref'} (
              some_eq (
                sym e
                ∙ ap (get_elem? (set s.meta.slots c ref')) (sym eq)
                ∙ get_elem?-set_self s.meta.slots c ref' (get_elem?-bound s.meta.slots c ref slot)))
            ∙ h.numbered c ref slot
            ∙ eq
      ];
    }

-- The storage that has turned to a new volume.
unfoldable pub turned : List ℕ → Volume → FileStorage → FileStorage
turned path prev s = entered (new_ref (length s.volumes) prev.file_size path) (grown path prev s)

pub grown-slot :
    (path : List ℕ) (prev : Volume) (s : FileStorage)
    → length s.meta.slots ≡ length s.volumes
    → get_elem?
        (s.meta.slots ++ new_ref (length s.volumes) prev.file_size path ∷ [])
        (length s.volumes)
      ≡ some (new_ref (length s.volumes) prev.file_size path)
grown-slot path prev s e =
    ap (get_elem? (s.meta.slots ++ new_ref (length s.volumes) prev.file_size path ∷ [])) (sym e)
    ∙ get_elem?-append_last s.meta.slots (new_ref (length s.volumes) prev.file_size path)

turned-numbered :
    (path : List ℕ) (prev : Volume) (s : FileStorage)
    → Growing s
    → (i : ℕ) (ref : VolumeRef)
    → get_elem? (s.meta.slots ++ new_ref (length s.volumes) prev.file_size path ∷ []) i ≡ some ref
    → ref.generation ≡ i
unfolding new_ref
turned-numbered path prev s h i ref e =
    elim (get_elem?-append_cases s.meta.slots (new_ref (length s.volumes) prev.file_size path) i ref
      e) [
        | inl old ↦ h.numbered i ref old
        | inr (at_end, same) ↦ sym (ap VolumeRef.generation same) ∙ sym h.sound.slots ∙ sym at_end
      ]

turned-Paired :
    (path : List ℕ) (prev : Volume) (s : FileStorage)
    → Growing s
    → length s.volumes + 1 < 2 ^ 32
    → Mapped prev
    → 1 ≤ prev.file_size
    → (i : ℕ) (v : Volume) (ref : VolumeRef)
    → get_elem? (s.volumes ++ fresh_volume path prev ∷ []) i ≡ some v
    → get_elem? (s.meta.slots ++ new_ref (length s.volumes) prev.file_size path ∷ []) i ≡ some ref
    → Paired v ref
unfolding new_ref fresh_volume
turned-Paired path prev s h small mapped room i v ref at slot =
    elim (get_elem?-append_cases s.volumes (fresh_volume path prev) i v at) [
      | inl old ↦
          (elim (get_elem?-append_cases s.meta.slots
            (new_ref (length s.volumes) prev.file_size path) i ref slot) [
              | inl old' ↦ (h.sound.paired i v ref old old').0
              | inr (at_end, same) ↦
                  absurd (omega (arith, at_end, h.sound.slots, get_elem?-bound s.volumes i v old))
            ])
      | inr (at_end, same) ↦
          (elim (get_elem?-append_cases s.meta.slots
            (new_ref (length s.volumes) prev.file_size path) i ref slot) [
              | inl old' ↦
                  absurd
                    (omega (arith, at_end, h.sound.slots, get_elem?-bound s.meta.slots i ref old'))
              | inr (at_end', same') ↦
                  subst (λ x. Paired x ref) same
                    (subst (λ r. Paired (fresh_volume path prev) r) same'
                      (record {
                        mapped = fresh_volume-Mapped path prev mapped;
                        room = room;
                        blocks = refl;
                        small = omega arith;
                      }))
            ])
    ]

pub turned-Growing :
    (path : List ℕ) (prev : Volume) (s : FileStorage)
    → Growing s
    → length s.volumes + 1 < 2 ^ 32
    → Mapped prev
    → 1 ≤ prev.file_size
    → Growing (turned path prev s)
unfolding turned grown entered new_ref
turned-Growing path prev s h small mapped room =
    let longer = length-append s.volumes (fresh_volume path prev ∷ []) in
    let numbered = turned-numbered path prev s h in
    record {
      numbered = numbered;
      last = omega (arith, longer);
      sound = record {
        nonempty = omega (arith, longer);
        slots =
            length-append s.meta.slots (new_ref (length s.volumes) prev.file_size path ∷ [])
            ∙ ap (λ n. n + 1) h.sound.slots
            ∙ sym longer;
        paired = λ i v ref at slot. (
          turned-Paired path prev s h small mapped room i v ref at slot,
          ap (λ g. g % length (s.volumes ++ fresh_volume path prev ∷ [])) (numbered i ref slot)
              ∙ mod-eq_of_lt (get_elem?-bound (s.volumes ++ fresh_volume path prev ∷ []) i v at),
        );
        current = omega (arith, longer);
        generation = λ ref slot. sym (numbered (length s.volumes) ref slot);
      };
    }

pub turned-Finds :
    (path : List ℕ) (prev : Volume) (s : FileStorage) (a : ℕ) (b : IovecBlock)
    → Finds s a b
    → Finds (turned path prev s) a b
unfolding turned grown entered
turned-Finds path prev s a b live = record {
  volume = live.volume;
  ref = live.ref;
  at_volumes =
      get_elem?-append_left s.volumes (fresh_volume path prev) (extract_gen a) live.volume
        live.at_volumes;
  at_slots =
      get_elem?-append_left s.meta.slots (new_ref (length s.volumes) prev.file_size path)
        (extract_gen a) live.ref live.at_slots;
  same_gen = live.same_gen;
  before = live.before;
  content = live.content;
}
