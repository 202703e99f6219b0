-- ===== src/Storage/FileTests.antt =====
-- The theorems on the block stores at concrete states.
use fast_stdb.Common.{
  ℕ, zero, suc, ◌%◌, ◌^◌, ◌≡◌, ◌⊎◌, refl, ap, subst, arith, some, none, List, [], ◌∷◌, get_elem?,
  true, false,
}
use fast_stdb.Common.Crc.{crc_bit, crc_table, crc_loop, crc32c, crc32c-nil, crc32c-append}
use fast_stdb.Common.Memory.{slice}
use fast_stdb.Storage.Status.{ok, unavailable}
use fast_stdb.Storage.Iovec.{IovecBlock, set_addr}
use fast_stdb.Storage.Iovec.Shape.{flat}
use fast_stdb.Storage.Tests.{five_bytes, five_bytes-Holds}
use fast_stdb.Storage.StoreTests.{volume, volume-Mapped}
use fast_stdb.Storage.Volume.{Volume, wrote, create_new}
use fast_stdb.Storage.Volume.Blocks.{Mapped}
use fast_stdb.Storage.MetaVolume.{VolumeRef, get_nblocks, get_generation}
use fast_stdb.Storage.FileStorage.{
  FileStorage, append_block, make_logic, extract_gen, extract_vol, checksum,
}
use fast_stdb.Storage.FileStorage.Address.{make_logic-extract}
use fast_stdb.Storage.FileStorage.Live.{Paired}
use fast_stdb.Storage.FileStorage.Fixed.{adjust_current_volume, exists, read_iovec_block}
use fast_stdb.Storage.FileStorage.Fixed.Aligned.{Sound, some_eq, exists-read_iovec_block}
use fast_stdb.Storage.FileStorage.WriteError.{append_block-short_write}
use fast_stdb.Storage.FileStorage.Open.{Files}
use fast_stdb.Storage.FileStorage.Checksum.{checksum-slice}

make_logic-extract_example : (extract_gen (make_logic 3 5) ≡ 3) × (extract_vol (make_logic 3 5) ≡ 5)
make_logic-extract_example = make_logic-extract 3 5 (omega arith) (omega arith)

abbrev full_volume : Volume
full_volume = record volume { write_pos = 2 }

full_volume-Mapped : Mapped full_volume
full_volume-Mapped = record {
  sized = volume-Mapped.sized;
  small = volume-Mapped.small;
  within = omega arith;
}

abbrev full_ref : VolumeRef
full_ref = record { version = 101; id = 0; nblocks = 2; capacity = 2; generation = 0; path = [] }

abbrev next_ref : VolumeRef
next_ref = record { version = 101; id = 1; nblocks = 1; capacity = 2; generation = 1; path = [] }

-- Two volumes: the current one is full, and the next one holds a block, which the cycle drops.
abbrev two_volumes : FileStorage
two_volumes = record {
  meta = record { slots = full_ref ∷ next_ref ∷ []; calls = [] };
  volumes = full_volume ∷ volume ∷ [];
  dirty = 0 ∷ 0 ∷ [];
  current_volume = 0;
  current_gen = 0;
  total_size = 4;
  volume_names = [] ∷ [] ∷ [];
}

two_volumes-Paired :
    (i : ℕ) (v : Volume) (ref : VolumeRef)
    → get_elem? two_volumes.volumes i ≡ some v
    → get_elem? two_volumes.meta.slots i ≡ some ref
    → Paired v ref × (ref.generation % 2 ≡ i)
two_volumes-Paired zero v ref at slot =
    subst (λ x. Paired x ref × (ref.generation % 2 ≡ 0)) (some_eq at)
      (subst (λ r. Paired full_volume r × (r.generation % 2 ≡ 0)) (some_eq slot)
        (
          record {
            mapped = full_volume-Mapped;
            room = omega arith;
            blocks = refl;
            small = omega arith;
          },
          refl,
        ))
two_volumes-Paired (suc zero) v ref at slot =
    subst (λ x. Paired x ref × (ref.generation % 2 ≡ 1)) (some_eq at)
      (subst (λ r. Paired volume r × (r.generation % 2 ≡ 1)) (some_eq slot)
        (
          record { mapped = volume-Mapped; room = omega arith; blocks = refl; small = omega arith },
          refl,
        ))
two_volumes-Paired (suc (suc i)) v ref at slot = cc

two_volumes-Sound : Sound two_volumes
two_volumes-Sound = record {
  nonempty = omega arith;
  slots = refl;
  paired = two_volumes-Paired;
  current = omega arith;
  generation = λ ref slot. ap VolumeRef.generation {x = full_ref} {y = ref} (some_eq slot);
}

exists-read_iovec_block_example :
    ((exists (2 ^ 32) two_volumes ≡ some true)
      × (b : IovecBlock) × (read_iovec_block (2 ^ 32) two_volumes ≡ some (ok, some b)))
    ⊎ ((exists (2 ^ 32) two_volumes ≡ some false)
        × (read_iovec_block (2 ^ 32) two_volumes ≡ some (unavailable, none)))
exists-read_iovec_block_example = exists-read_iovec_block two_volumes (2 ^ 32) two_volumes-Sound

-- The second volume of the two is the current one.
abbrev second_current : FileStorage
second_current = record two_volumes { current_volume = 1; current_gen = 1 }

append_block-short_write_example :
    (s' : FileStorage) × (append_block adjust_current_volume (wrote 100) five_bytes second_current
      ≡ some ((ok, make_logic 1 0), set_addr 0 five_bytes, s'))
    × (get_nblocks 1 s'.meta ≡ (ok, 1))
append_block-short_write_example =
    append_block-short_write adjust_current_volume 100 five_bytes second_current volume next_ref
      refl refl (omega arith) (omega arith) (λ e. absurd (omega (arith, e)))

-- The published check value of CRC-32C, of the digits 1 to 9.
crc32c_digits : crc32c 0 (49 ∷ 50 ∷ 51 ∷ 52 ∷ 53 ∷ 54 ∷ 55 ∷ 56 ∷ 57 ∷ []) ≡ 0xE3069283
unfolding crc32c crc_loop crc_table crc_bit
crc32c_digits = refl

checksum-slice_example :
    checksum crc32c five_bytes 1000 24 ≡ crc32c 0 (slice 1000 24 (flat five_bytes.components))
checksum-slice_example =
    checksum-slice crc32c crc32c-nil crc32c-append 1 five_bytes 1000 24 five_bytes-Holds
      (omega arith) (omega arith)

-- The registry of two volumes, whose records are not in order, and whose first volume is full.
abbrev registry : List VolumeRef
registry = next_ref ∷ full_ref ∷ []

abbrev files : Files
files path = some (create_new 2)

abbrev opened_volume : ℕ → Volume
opened_volume nblocks = record {
  memory = create_new 2;
  file_size = 2;
  write_pos = nblocks;
  path = [];
}

-- A storage that grows, of one volume, which is full.
abbrev one_volume : FileStorage
one_volume = record {
  meta = record { slots = full_ref ∷ []; calls = [] };
  volumes = full_volume ∷ [];
  dirty = 0 ∷ [];
  current_volume = 0;
  current_gen = 0;
  total_size = 2;
  volume_names = [] ∷ [];
}
