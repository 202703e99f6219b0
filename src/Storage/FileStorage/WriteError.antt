-- ===== src/Storage/FileStorage/WriteError.antt =====
-- A write that fails while the current volume has room.
use fast_stdb.Common.{ℕ, ◌<◌, ◌≡◌, ◌≢◌, refl, Option, some, length, get_elem?, set, lt→leb, ne→==}
use fast_stdb.Storage.Status.{ok, file_write_error}
use fast_stdb.Storage.Iovec.{IovecBlock, block_size, set_addr}
use fast_stdb.Storage.Volume.{Volume, wrote, append_iovec, written, block_bytes}
use fast_stdb.Storage.MetaVolume.{VolumeRef, get_nblocks}
use fast_stdb.Storage.MetaVolume.Access.{get_elem?-set_self, get_nblocks-slot}
use fast_stdb.Storage.FileStorage.{FileStorage, append_block, make_logic}
use fast_stdb.Storage.FileStorage.Steps.{append_block-room, committed, stored, counted}

append_iovec-short :
    (n : ℕ) (b : IovecBlock) (v : Volume)
    → v.write_pos < v.file_size
    → n ≢ block_size
    → append_iovec (wrote n) b v ≡ ((file_write_error, 0), written n (block_bytes b) v)
unfolding append_iovec
append_iovec-short n b v lt ne = rw (lt→leb v.write_pos v.file_size lt, ne→== n block_size ne) refl

-- When the current volume, which has a record in the metadata, has room and the operating system does
-- not write the whole block, the append reports success with block 0 of the generation as the
-- address, and the metadata counts one block, whatever the volume held before.
pub append_block-short_write :
    (adjust : FileStorage → Option FileStorage) (n : ℕ) (b : IovecBlock) (s : FileStorage)
    (v : Volume) (ref : VolumeRef)
    → get_elem? s.volumes s.current_volume ≡ some v
    → get_elem? s.meta.slots s.current_volume ≡ some ref
    → s.current_volume < length s.meta.slots
    → v.write_pos < v.file_size
    → n ≢ block_size
    → (s' : FileStorage) × (append_block adjust (wrote n) b s
        ≡ some ((ok, make_logic s.current_gen 0), set_addr 0 b, s'))
      × (get_nblocks s.current_volume s'.meta ≡ (ok, 1))
unfolding committed stored counted
append_block-short_write adjust n b s v ref at slot inside lt ne =
    let v' = written n (block_bytes b) v in
    (
      committed 0 ref (record s { volumes = set s.volumes s.current_volume v' }),
      append_block-room adjust (wrote n) b s v v' ref file_write_error 0 at slot
          (append_iovec-short n b v lt ne) refl,
      get_nblocks-slot s.current_volume (stored s.current_volume (counted 1 ref) s.meta)
          (counted 1 ref) (get_elem?-set_self s.meta.slots s.current_volume (counted 1 ref) inside),
    )
