-- ===== src/Storage/FileStorage/Fixed/Aligned.antt =====
-- A storage of a fixed size whose volumes agree with the metadata, and the blocks that it holds.
use fast_stdb.Common.{
  ℕ, ◌%◌, ◌<◌, ◌≤◌, ◌≡◌, ◌≢◌, ◌⊎◌, inl, inr, refl, sym, ap, ◌∙◌, arith, subst, Bool, true, false,
  none, some, length, get_elem?, set, ◌==◌, Bool-cases, ==→eq, ==→ne, ne→==, length-set,
}
use native.Mathlib.Nat.{mod-lt}
use fast_stdb.Storage.Status.{ok, unavailable}
use fast_stdb.Storage.Iovec.{IovecBlock}
use fast_stdb.Storage.MetaVolume.{VolumeRef}
use fast_stdb.Storage.MetaVolume.Access.{get_elem?-set_self, get_elem?-set_ne, get_elem?-lt}
use fast_stdb.Storage.Volume.{Volume, block_at}
use fast_stdb.Storage.Volume.Append.{loaded}
use fast_stdb.Storage.FileStorage.{FileStorage, extract_gen, extract_vol, is_live}
use fast_stdb.Storage.FileStorage.Live.{
  Live, Paired, is_live-slot, Live-is_live, Live-read_live, is_live-Live, is_live-unavailable,
}
use fast_stdb.Storage.FileStorage.Fixed.{exists, read_iovec_block}

pub record Sound (s : FileStorage) : Type 0 where
  pub nonempty : 1 ≤ length s.volumes
  pub slots : length s.meta.slots ≡ length s.volumes
  pub paired :
      (i : ℕ) (v : Volume) (ref : VolumeRef)
      → get_elem? s.volumes i ≡ some v
      → get_elem? s.meta.slots i ≡ some ref
      → Paired v ref × (ref.generation % length s.volumes ≡ i)
  pub current : s.current_volume < length s.volumes
  pub generation :
      (ref : VolumeRef)
      → get_elem? s.meta.slots s.current_volume ≡ some ref
      → s.current_gen ≡ ref.generation

pub some_eq {ℓ} : {A : Type ℓ} {x y : A} → some x ≡ some y → x ≡ y
some_eq {x = x} {y = y} e = cc

-- The volume of a number, with its record.
pub Sound-get :
    (s : FileStorage) (i : ℕ)
    → Sound s
    → i < length s.volumes
    → (v : Volume) × (ref : VolumeRef) × (get_elem? s.volumes i ≡ some v)
      × (get_elem? s.meta.slots i ≡ some ref)
      × Paired v ref
      × (ref.generation % length s.volumes ≡ i)
Sound-get s i h lt =
    let (v, at) = get_elem?-lt s.volumes i lt in
    let (ref, slot) = get_elem?-lt s.meta.slots i (omega (arith, h.slots)) in
    let (pair, own) = h.paired i v ref at slot in (v, ref, at, slot, pair, own)

-- A volume and its record that are replaced, in a storage that turns to that volume.
pub Sound-set :
    (s s' : FileStorage) (c : ℕ) (v' : Volume) (ref' : VolumeRef)
    → Sound s
    → c < length s.volumes
    → s'.volumes ≡ set s.volumes c v'
    → s'.meta.slots ≡ set s.meta.slots c ref'
    → s'.current_volume ≡ c
    → s'.current_gen ≡ ref'.generation
    → Paired v' ref'
    → ref'.generation % length s.volumes ≡ c
    → Sound s'
Sound-set s s' c v' ref' h lt evs ess ec eg pair own =
    let n : length s'.volumes ≡ length s.volumes = ap length evs ∙ length-set s.volumes c v' in
    let m : length s'.meta.slots ≡ length s.meta.slots =
      ap length ess ∙ length-set s.meta.slots c ref' in
    let slot' : get_elem? s'.meta.slots c ≡ some ref' =
      ap (λ ss. get_elem? ss c) ess
      ∙ get_elem?-set_self s.meta.slots c ref' (omega (arith, h.slots)) in
    let at' : get_elem? s'.volumes c ≡ some v' =
      ap (λ vs. get_elem? vs c) evs ∙ get_elem?-set_self s.volumes c v' lt in
    record {
      nonempty = omega (arith, n, h.nonempty);
      slots = omega (arith, n, m, h.slots);
      current = omega (arith, n, ec);
      generation = λ ref e.
          eg
          ∙ ap VolumeRef.generation {x = ref'} {y = ref}
              (some_eq (sym slot' ∙ ap (get_elem? s'.meta.slots) (sym ec) ∙ e));
      paired = λ i v ref at slot. elim (Bool-cases (c == i)) [
        | inl same ↦
            let e : c ≡ i = ==→eq c i same in
            let ev : v' ≡ v = some_eq (sym at' ∙ ap (get_elem? s'.volumes) e ∙ at) in
            let er : ref' ≡ ref = some_eq (sym slot' ∙ ap (get_elem? s'.meta.slots) e ∙ slot) in
            (
              subst (λ x. Paired x ref) ev (subst (λ x. Paired v' x) er pair),
              ap (λ k. ref.generation % k) n
                  ∙ ap (λ r. r.generation % length s.volumes) (sym er)
                  ∙ own
                  ∙ e,
            )
        | inr other ↦
            let ne = ==→ne c i other in
            let (pair', own') =
              h.paired i v ref
                (sym (ap (λ vs. get_elem? vs i) evs ∙ get_elem?-set_ne s.volumes c i v' ne) ∙ at)
                (sym (ap (λ ss. get_elem? ss i) ess ∙ get_elem?-set_ne s.meta.slots c i ref' ne)
                  ∙ slot) in
            (pair', ap (λ k. ref.generation % k) n ∙ own')
      ];
    }

-- The storage has a block at an address.
abbrev pub Holding : FileStorage → ℕ → IovecBlock → Type 0
Holding s a b = Live (extract_gen a % length s.volumes) (extract_gen a) (extract_vol a) s b

-- The volume of an address has another generation.
pub record Gone (ix gen : ℕ) (s : FileStorage) : Type 0 where
  pub ref : VolumeRef
  pub slot : get_elem? s.meta.slots ix ≡ some ref
  pub differs : ref.generation ≢ gen

abbrev pub Dead : FileStorage → ℕ → Type 0
Dead s a = Gone (extract_gen a % length s.volumes) (extract_gen a) s

pub some_volumes : (s : FileStorage) → Sound s → (length s.volumes == 0) ≡ false
some_volumes s h = ne→== (length s.volumes) 0 (λ e. omega (arith, h.nonempty, e))

pub Holding-exists :
    (s : FileStorage) (a : ℕ) (b : IovecBlock) → Sound s → Holding s a b → exists a s ≡ some true
unfolding exists
Holding-exists s a b h live = rw (some_volumes s h) (
    ap (λ (x : Bool). some x)
      (Live-is_live (extract_gen a % length s.volumes) (extract_gen a) (extract_vol a) s b live))

pub Holding-read :
    (s : FileStorage) (a : ℕ) (b : IovecBlock)
    → Sound s
    → Holding s a b
    → read_iovec_block a s ≡ some (ok, some b)
unfolding read_iovec_block
Holding-read s a b h live =
    rw (some_volumes s h)
      (Live-read_live (extract_gen a % length s.volumes) (extract_gen a) (extract_vol a) s b live)

pub Dead-exists : (s : FileStorage) (a : ℕ) → Sound s → Dead s a → exists a s ≡ some false
unfolding exists
Dead-exists s a h dead =
    rw
      (
        some_volumes s h,
        is_live-slot (extract_gen a % length s.volumes) (extract_gen a) (extract_vol a) s.meta
            dead.ref dead.slot,
        ne→== dead.ref.generation (extract_gen a) dead.differs,
      )
      refl

index_lt : (s : FileStorage) (a : ℕ) → Sound s → extract_gen a % length s.volumes < length s.volumes
index_lt s a h = mod-lt (extract_gen a) h.nonempty

pub exists-Holding :
    (s : FileStorage) (a : ℕ) → Sound s → exists a s ≡ some true → (b : IovecBlock) × Holding s a b
unfolding exists
exists-Holding s a h e =
    let ix = extract_gen a % length s.volumes in
    let (v, ref, at, slot, pair, own) = Sound-get s ix h (index_lt s a h) in
    (
      loaded (block_at (extract_vol a) v),
      is_live-Live ix (extract_gen a) (extract_vol a) s v ref at slot pair
          (some_eq (sym (rw (some_volumes s h, exists) refl) ∙ e)),
    )

-- In a storage of a fixed size whose volumes, of one to 2 ^ 20 blocks each, agree with the metadata,
-- their generations modulo the number of volumes being their numbers, an address that exists is read with success,
-- and one that does not is refused as unavailable.
pub exists-read_iovec_block :
    (s : FileStorage) (a : ℕ)
    → Sound s
    → ((exists a s ≡ some true) × (b : IovecBlock) × (read_iovec_block a s ≡ some (ok, some b)))
      ⊎ ((exists a s ≡ some false) × (read_iovec_block a s ≡ some (unavailable, none)))
unfolding exists read_iovec_block
exists-read_iovec_block s a h =
    let ix = extract_gen a % length s.volumes in
    let (v, ref, at, slot, pair, own) = Sound-get s ix h (index_lt s a h) in
    elim (Bool-cases (is_live ix (extract_gen a) (extract_vol a) s.meta)) [
      | inl yes_live ↦
          let live =
            is_live-Live ix (extract_gen a) (extract_vol a) s v ref at slot pair yes_live in
          inl (
            Holding-exists s a (loaded (block_at (extract_vol a) v)) h live,
            loaded (block_at (extract_vol a) v),
            Holding-read s a (loaded (block_at (extract_vol a) v)) h live,
          )
      | inr not_live ↦ inr (
        rw (some_volumes s h, not_live) refl,
        rw (some_volumes s h) (
            is_live-unavailable ix (extract_gen a) (extract_vol a) s
              (omega (arith, index_lt s a h, h.slots)) not_live),
      )
    ]
