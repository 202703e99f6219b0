-- ===== src/Storage/FileStorage/Live.antt =====
-- The blocks of a storage that an address finds: a volume with its record in the metadata, which has
-- the generation of the address and more blocks than its number.
use fast_stdb.Common.{
  ℕ, ◌<◌, ◌≤◌, ◌≡◌, ◌≢◌, refl, sym, ap, ◌∙◌, arith, Bool, true, false, none, some, length,
  get_elem?, set, ◌==◌, ltb, leb, ◌&&◌, ◌||◌, not, ==→eq, ltb→lt, eq→==, lt→ltb, lt→leb, le→leb,
  ltb→le, if◌then◌else◌, ◌^◌,
}
use mathlib.Core.Bool.{true≢false}
use fast_stdb.Storage.Status.{ok, unavailable}
use fast_stdb.Storage.Iovec.{IovecBlock}
use fast_stdb.Storage.MetaVolume.{VolumeRef, MetaVolume, get_generation}
use fast_stdb.Storage.MetaVolume.Access.{
  get_elem?-set_self, get_elem?-set_ne, get_elem?-lt, get_elem?-ge, get_generation-slot,
  get_nblocks-slot,
}
use fast_stdb.Storage.Volume.{Volume, read_iovec, block_at}
use fast_stdb.Storage.Volume.Blocks.{Mapped, length-block_at}
use fast_stdb.Storage.Volume.Append.{loaded, read_iovec-block_at}
use fast_stdb.Storage.FileStorage.{FileStorage, is_live, read_live, read_volume}

pub record Live (ix gen vol : ℕ) (s : FileStorage) (b : IovecBlock) : Type 0 where
  pub volume : Volume
  pub ref : VolumeRef
  pub at_volumes : get_elem? s.volumes ix ≡ some volume
  pub at_slots : get_elem? s.meta.slots ix ≡ some ref
  pub same_gen : ref.generation ≡ gen
  pub before : vol < ref.nblocks
  pub content : read_iovec vol volume ≡ (ok, b)

-- A volume and its record agree, and the volume has room for a block.
pub record Paired (v : Volume) (ref : VolumeRef) : Type 0 where
  pub mapped : Mapped v
  pub room : 1 ≤ v.file_size
  pub blocks : ref.nblocks ≡ v.write_pos
  pub small : ref.generation < 2 ^ 32

pub is_live-slot :
    (ix gen vol : ℕ) (meta : MetaVolume) (ref : VolumeRef)
    → get_elem? meta.slots ix ≡ some ref
    → is_live ix gen vol meta ≡ (ref.generation == gen) && ltb vol ref.nblocks
unfolding is_live
is_live-slot ix gen vol meta ref e =
    rw (get_generation-slot ix meta ref e, get_nblocks-slot ix meta ref e) refl

pub is_live-outside :
    (ix gen vol : ℕ) (meta : MetaVolume) → length meta.slots ≤ ix → is_live ix gen vol meta ≡ false
unfolding is_live get_generation
is_live-outside ix gen vol meta ge = rw (get_elem?-ge meta.slots ix ge, get_generation) refl

pub Live-is_live :
    (ix gen vol : ℕ) (s : FileStorage) (b : IovecBlock)
    → Live ix gen vol s b
    → is_live ix gen vol s.meta ≡ true
Live-is_live ix gen vol s b h =
    is_live-slot ix gen vol s.meta h.ref h.at_slots
    ∙ rw (eq→== h.ref.generation gen h.same_gen, lt→ltb vol h.ref.nblocks h.before) refl

read_volume_lem :
    (ix vol : ℕ) (s : FileStorage) (v : Volume) (b : IovecBlock)
    → get_elem? s.volumes ix ≡ some v
    → read_iovec vol v ≡ (ok, b)
    → read_volume ix vol s ≡ some (ok, some b)
unfolding read_volume
read_volume_lem ix vol s v b e content = rw (e, content, read_volume) refl

pub Live-read_live :
    (ix gen vol : ℕ) (s : FileStorage) (b : IovecBlock)
    → Live ix gen vol s b
    → read_live ix gen vol s ≡ some (ok, some b)
unfolding read_live
Live-read_live ix gen vol s b h =
    rw
      (
        get_generation-slot ix s.meta h.ref h.at_slots,
        get_nblocks-slot ix s.meta h.ref h.at_slots,
        eq→== h.ref.generation gen h.same_gen,
        lt→leb vol h.ref.nblocks h.before,
      )
      (read_volume_lem ix vol s h.volume b h.at_volumes h.content)

and_true : (a b : Bool) → a && b ≡ true → (a ≡ true) × (b ≡ true)
and_true true b h = (refl, h)
and_true false b h = absurd (true≢false (sym h))

-- An address that exists finds a block.
pub is_live-Live :
    (ix gen vol : ℕ) (s : FileStorage) (v : Volume) (ref : VolumeRef)
    → get_elem? s.volumes ix ≡ some v
    → get_elem? s.meta.slots ix ≡ some ref
    → Paired v ref
    → is_live ix gen vol s.meta ≡ true
    → Live ix gen vol s (loaded (block_at vol v))
is_live-Live ix gen vol s v ref at_volumes at_slots h e =
    let tests =
      and_true (ref.generation == gen) (ltb vol ref.nblocks)
        (sym (is_live-slot ix gen vol s.meta ref at_slots) ∙ e) in
    let before = ltb→lt vol ref.nblocks tests.1 in
    record {
      volume = v;
      ref = ref;
      at_volumes = at_volumes;
      at_slots = at_slots;
      same_gen = ==→eq ref.generation gen tests.0;
      before = before;
      content =
          read_iovec-block_at vol v (omega (arith, h.blocks))
            (length-block_at vol v h.mapped (omega (arith, h.blocks, h.mapped.within)));
    }

-- And one that does not exist is refused.
pub is_live-unavailable :
    (ix gen vol : ℕ) (s : FileStorage)
    → ix < length s.meta.slots
    → is_live ix gen vol s.meta ≡ false
    → read_live ix gen vol s ≡ some (unavailable, none)
unfolding read_live
is_live-unavailable ix gen vol s lt e =
    let (ref, at) = get_elem?-lt s.meta.slots ix lt in
    rw (get_generation-slot ix s.meta ref at, get_nblocks-slot ix s.meta ref at)
      (refused (ref.generation == gen) vol ref.nblocks
        (sym (is_live-slot ix gen vol s.meta ref at) ∙ e))
  where
    refused :
        (same : Bool) (vol nblocks : ℕ)
        → same && ltb vol nblocks ≡ false
        → (if not same || leb nblocks vol then some (unavailable, none) else read_volume ix vol s)
          ≡ some (unavailable, none)
    refused false vol nblocks h = refl
    refused true vol nblocks h = rw (le→leb nblocks vol (ltb→le vol nblocks h)) refl

-- A volume and its record that are replaced leave the blocks of the others, and those of their own
-- that the new ones still have.
pub Live-set :
    (ix gen vol c : ℕ) (s s' : FileStorage) (b : IovecBlock) (v' : Volume) (ref' : VolumeRef)
    → s'.volumes ≡ set s.volumes c v'
    → s'.meta.slots ≡ set s.meta.slots c ref'
    → Live ix gen vol s b
    → c ≢ ix
    → Live ix gen vol s' b
Live-set ix gen vol c s s' b v' ref' evs ess h ne = record {
  volume = h.volume;
  ref = h.ref;
  at_volumes =
      ap (λ vs. get_elem? vs ix) evs ∙ get_elem?-set_ne s.volumes c ix v' ne ∙ h.at_volumes;
  at_slots =
      ap (λ ss. get_elem? ss ix) ess ∙ get_elem?-set_ne s.meta.slots c ix ref' ne ∙ h.at_slots;
  same_gen = h.same_gen;
  before = h.before;
  content = h.content;
}

pub Live-set_self :
    (ix gen vol : ℕ) (s s' : FileStorage) (b : IovecBlock) (v' : Volume) (ref' : VolumeRef)
    → s'.volumes ≡ set s.volumes ix v'
    → s'.meta.slots ≡ set s.meta.slots ix ref'
    → ix < length s.volumes
    → ix < length s.meta.slots
    → ref'.generation ≡ gen
    → vol < ref'.nblocks
    → read_iovec vol v' ≡ (ok, b)
    → Live ix gen vol s' b
Live-set_self ix gen vol s s' b v' ref' evs ess lt lt' same before content = record {
  volume = v';
  ref = ref';
  at_volumes = ap (λ vs. get_elem? vs ix) evs ∙ get_elem?-set_self s.volumes ix v' lt;
  at_slots = ap (λ ss. get_elem? ss ix) ess ∙ get_elem?-set_self s.meta.slots ix ref' lt';
  same_gen = same;
  before = before;
  content = content;
}
