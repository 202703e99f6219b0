-- ===== src/Storage/FileStorage/Steps.antt =====
-- The steps of an append to a storage, each with the state it leads to.
use fast_stdb.Common.{
  ℕ, ◌+◌, ◌%◌, ◌^◌, ◌<◌, ◌≤◌, ◌≡◌, refl, ap, ◌∙◌, false, Option, some, [], ◌∷◌, ◌++◌, length,
  get_elem?, set, eq→==, ne→==, ◌≢◌,
}
use fast_stdb.Storage.Status.{Status, ok, overflow}
use fast_stdb.Storage.Iovec.{IovecBlock, set_addr}
use fast_stdb.Storage.Volume.{Volume, Answer, append_iovec, reset}
use fast_stdb.Storage.MetaVolume.{
  VolumeRef, MetaVolume, desc_of, update_call, write, set_nblocks, set_generation,
}
use fast_stdb.Storage.MetaVolume.Access.{
  get_elem?-set_self, set-get_elem?, get_generation-slot, get_nblocks-slot,
}
use fast_stdb.Storage.Volume.Append.{append_iovec-overflow}
use fast_stdb.Storage.FileStorage.{
  FileStorage, append_current, commit, make_logic, bump, recycle, reset_current, enter,
  append_block, append_next, handle_volume_transition, is_overflow,
}

-- The metadata after a write of a record.
unfoldable pub stored : ℕ → VolumeRef → MetaVolume → MetaVolume
stored id vol m = record {
  slots = set m.slots id vol;
  calls = m.calls ++ update_call (desc_of vol) ∷ [];
}

pub write-slot :
    (change : VolumeRef → VolumeRef) (id : ℕ) (m : MetaVolume) (vol : VolumeRef)
    → get_elem? m.slots id ≡ some vol
    → write change id m ≡ (ok, stored id (change vol) m)
unfolding write stored
write-slot change id m vol e = rw (e, write) refl

unfoldable pub counted : ℕ → VolumeRef → VolumeRef
counted n ref = record ref { nblocks = n }

unfoldable pub committed : ℕ → VolumeRef → FileStorage → FileStorage
committed block_addr ref s = record s {
  meta = stored s.current_volume (counted ((block_addr + 1) % 2 ^ 32) ref) s.meta;
  dirty = bump s.current_volume s.dirty;
}

pub commit_lem :
    (block_addr : ℕ) (b : IovecBlock) (s : FileStorage) (ref : VolumeRef)
    → get_elem? s.meta.slots s.current_volume ≡ some ref
    → commit block_addr b s
      ≡ some (
        (ok, make_logic s.current_gen block_addr),
        set_addr block_addr b,
        committed block_addr ref s,
      )
unfolding commit committed set_nblocks counted
commit_lem block_addr b s ref e =
    rw
      (write-slot (λ vol. record vol { nblocks = (block_addr + 1) % 2 ^ 32 }) s.current_volume
        s.meta ref e)
      refl

pub append_current_lem :
    (answer : Answer) (b : IovecBlock) (s : FileStorage) (v v' : Volume) (result : Status × ℕ)
    → get_elem? s.volumes s.current_volume ≡ some v
    → append_iovec answer b v ≡ (result, v')
    → append_current answer b s
      ≡ some (result, record s { volumes = set s.volumes s.current_volume v' })
unfolding append_current
append_current_lem answer b s v v' result at e = rw (at, e, append_current) refl

-- A volume with room takes the block, and the rest of the append cannot fail.
pub append_block-room :
    (adjust : FileStorage → Option FileStorage) (answer : Answer) (b : IovecBlock) (s : FileStorage)
    (v v' : Volume) (ref : VolumeRef) (status : Status) (addr : ℕ)
    → get_elem? s.volumes s.current_volume ≡ some v
    → get_elem? s.meta.slots s.current_volume ≡ some ref
    → append_iovec answer b v ≡ ((status, addr), v')
    → is_overflow status ≡ false
    → append_block adjust answer b s
      ≡ some (
        (ok, make_logic s.current_gen addr),
        set_addr addr b,
        committed addr ref (record s { volumes = set s.volumes s.current_volume v' }),
      )
unfolding append_block
append_block-room adjust answer b s v v' ref status addr at slot e room =
    rw (append_current_lem answer b s v v' (status, addr) at e, room, append_block)
      (commit_lem addr b (record s { volumes = set s.volumes s.current_volume v' }) ref slot)

append_next-room :
    (adjust : FileStorage → Option FileStorage) (answer : Answer) (b : IovecBlock)
    (s s' : FileStorage) (v v' : Volume) (ref : VolumeRef) (addr : ℕ)
    → handle_volume_transition adjust s ≡ some s'
    → get_elem? s'.volumes s'.current_volume ≡ some v
    → get_elem? s'.meta.slots s'.current_volume ≡ some ref
    → append_iovec answer b v ≡ ((ok, addr), v')
    → append_next adjust answer b s
      ≡ some (
        (ok, make_logic s'.current_gen addr),
        set_addr addr b,
        committed addr ref (record s' { volumes = set s'.volumes s'.current_volume v' }),
      )
unfolding append_next
append_next-room adjust answer b s s' v v' ref addr turn at slot e =
    rw (turn, append_current_lem answer b s' v v' (ok, addr) at e, append_next)
      (commit_lem addr b (record s' { volumes = set s'.volumes s'.current_volume v' }) ref slot)

-- A full volume is left as it is, and the one that the storage turns to takes the block.
pub append_block-full :
    (adjust : FileStorage → Option FileStorage) (answer : Answer) (b : IovecBlock)
    (s s' : FileStorage) (full v v' : Volume) (ref : VolumeRef) (addr : ℕ)
    → get_elem? s.volumes s.current_volume ≡ some full
    → full.file_size ≤ full.write_pos
    → handle_volume_transition adjust s ≡ some s'
    → get_elem? s'.volumes s'.current_volume ≡ some v
    → get_elem? s'.meta.slots s'.current_volume ≡ some ref
    → append_iovec answer b v ≡ ((ok, addr), v')
    → append_block adjust answer b s
      ≡ some (
        (ok, make_logic s'.current_gen addr),
        set_addr addr b,
        committed addr ref (record s' { volumes = set s'.volumes s'.current_volume v' }),
      )
unfolding append_block
append_block-full adjust answer b s s' full v v' ref addr here le turn at slot e =
    let same : record s { volumes = set s.volumes s.current_volume full } ≡ s =
      ap (λ vs. record s { volumes = vs }) (set-get_elem? s.volumes s.current_volume full here) in
    rw
      (
        append_current_lem answer b s full full (overflow, 0) here
            (append_iovec-overflow answer b full le),
        append_block,
      )
      (ap (append_next adjust answer b) same
        ∙ append_next-room adjust answer b s s' v v' ref addr turn at slot e)

-- The state of a volume that the storage turns to, when it is empty and when it is recycled.
unfoldable pub entered : VolumeRef → FileStorage → FileStorage
entered ref s = record s { current_gen = ref.generation }

unfoldable pub next_gen : VolumeRef → FileStorage → ℕ
next_gen ref s = (ref.generation + length s.volumes) % 2 ^ 32

unfoldable pub renewed : ℕ → VolumeRef → VolumeRef
renewed gen ref = record ref { generation = gen; nblocks = 0 }

unfoldable pub recycled : VolumeRef → Volume → FileStorage → FileStorage
recycled ref v s =
    let c = s.current_volume in
    record s {
      meta =
          stored c (renewed (next_gen ref s) ref)
            (stored c (record ref { generation = next_gen ref s }) s.meta);
      volumes = set s.volumes c (reset v);
      dirty = bump c s.dirty;
      current_gen = next_gen ref s;
    }

pub enter-empty :
    (s : FileStorage) (ref : VolumeRef)
    → get_elem? s.meta.slots s.current_volume ≡ some ref
    → ref.nblocks ≡ 0
    → enter s ≡ some (entered ref s)
unfolding enter entered
enter-empty s ref slot e =
    rw
      (
        get_generation-slot s.current_volume s.meta ref slot,
        get_nblocks-slot s.current_volume s.meta ref slot,
        eq→== ref.nblocks 0 e,
      )
      refl

recycle_lem :
    (gen : ℕ) (s : FileStorage) (v : Volume) (m m' : MetaVolume)
    → set_generation s.current_volume ((gen + length s.volumes) % 2 ^ 32) s.meta ≡ (ok, m)
    → set_nblocks s.current_volume 0 m ≡ (ok, m')
    → get_elem? s.volumes s.current_volume ≡ some v
    → recycle gen s
      ≡ some (record s {
        meta = m';
        volumes = set s.volumes s.current_volume (reset v);
        dirty = bump s.current_volume s.dirty;
        current_gen = (gen + length s.volumes) % 2 ^ 32;
      })
unfolding recycle reset_current
recycle_lem gen s v m m' e e' at = rw (e, e', at) refl

pub enter-recycle :
    (s : FileStorage) (ref : VolumeRef) (v : Volume)
    → get_elem? s.meta.slots s.current_volume ≡ some ref
    → get_elem? s.volumes s.current_volume ≡ some v
    → s.current_volume < length s.meta.slots
    → ref.nblocks ≢ 0
    → enter s ≡ some (recycled ref v s)
unfolding enter recycled next_gen renewed set_nblocks set_generation stored
enter-recycle s ref v slot at lt ne =
    let c = s.current_volume in
    let ref' : VolumeRef = record ref { generation = next_gen ref s } in
    rw
      (
        get_generation-slot c s.meta ref slot,
        get_nblocks-slot c s.meta ref slot,
        ne→== ref.nblocks 0 ne,
      )
      (recycle_lem ref.generation (record s { current_gen = ref.generation }) v
        (stored c ref' s.meta) (stored c (renewed (next_gen ref s) ref) (stored c ref' s.meta))
        (write-slot (λ vol. record vol { generation = next_gen ref s }) c s.meta ref slot)
        (write-slot (λ vol. record vol { nblocks = 0 }) c (stored c ref' s.meta) ref'
          (get_elem?-set_self s.meta.slots c ref' lt))
        at)
