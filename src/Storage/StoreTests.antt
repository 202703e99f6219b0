-- ===== src/Storage/StoreTests.antt =====
-- The theorems on volumes, their metadata and the stores at concrete states.
use fast_stdb.Common.{ℕ, ◌+◌, ◌*◌, ◌^◌, ◌≡◌, refl, arith, List, [], ◌∷◌, length-replicate}
use fast_stdb.Storage.Status.{ok}
use fast_stdb.Storage.Iovec.{block_size, blank_block}
use fast_stdb.Storage.Tests.{five_bytes, five_bytes-Holds}
use fast_stdb.Storage.Volume.{
  Volume, wrote, append_iovec, append_block, read_iovec, block_at, block_bytes, create_new,
}
use fast_stdb.Storage.Volume.Blocks.{Mapped}
use fast_stdb.Storage.Volume.Append.{
  loaded, Keeps, length-blank_block, append_iovec-read_iovec, append_iovec-Keeps,
  append_block-wraps,
}
use fast_stdb.Storage.MetaVolume.{VolumeRef, MetaVolume, new_ref}
use fast_stdb.Storage.MetaStorage.{MetaVolumeStore}

-- A volume of two blocks, one of which is written.
abbrev pub volume : Volume
volume = record { memory = create_new 2; file_size = 2; write_pos = 1; path = [] }

pub volume-Mapped : Mapped volume
unfolding create_new
volume-Mapped = record {
  sized = length-replicate {A = ℕ} (2 * block_size) 0;
  small = omega arith;
  within = omega arith;
}

append_iovec-read_iovec_example :
    (v' : Volume) × (append_iovec (wrote block_size) five_bytes volume ≡ ((ok, 1), v'))
    × (v'.write_pos ≡ 2)
    × (read_iovec 1 v' ≡ (ok, loaded (block_bytes five_bytes)))
    × Keeps volume v'
append_iovec-read_iovec_example =
    append_iovec-read_iovec 1 five_bytes volume volume-Mapped five_bytes-Holds (omega arith)

append_iovec-Keeps_example : Keeps volume (append_iovec (wrote 100) five_bytes volume).1
append_iovec-Keeps_example =
    append_iovec-Keeps (wrote 100) 1 five_bytes volume volume-Mapped five_bytes-Holds

-- The state of a volume behind 4 GiB, of which only the first block matters.
abbrev large : Volume
large = record { memory = blank_block; file_size = 2 ^ 20 + 1; write_pos = 2 ^ 20; path = [] }

append_block-wraps_example :
    ((append_block blank_block large).0 ≡ (ok, 2 ^ 20))
    × (block_at 0 (append_block blank_block large).1 ≡ blank_block)
append_block-wraps_example =
    append_block-wraps blank_block large refl (omega arith) length-blank_block
      (omega (arith, length-blank_block))

abbrev refs : List VolumeRef
refs = new_ref 0 9 [] ∷ new_ref 1 9 [] ∷ []

abbrev two_refs : MetaVolume
two_refs = record { slots = refs; calls = [] }

-- The registry that the two records were read from.
abbrev registry : MetaVolumeStore
registry = record { volume_descs = refs; queue = [] }

abbrev with_blocks : VolumeRef
with_blocks = record (new_ref 1 9 []) { nblocks = 3 }
