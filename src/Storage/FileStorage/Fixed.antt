-- ===== src/Storage/FileStorage/Fixed.antt =====
-- `FixedSizeFileStorage` of faststdb/storage/block_store.cc: the volumes are filled in a cycle, and
-- the generation of a volume tells its number. Without volumes the source divides by zero.
pub mod Aligned
pub mod Append
pub mod Cycle
pub mod Contract
use fast_stdb.Common.{
  ℕ, zero, suc, ◌+◌, ◌%◌, ◌^◌, Bool, Option, none, some, List, length, ◌==◌, if◌then◌else◌,
}
use fast_stdb.Storage.Status.{Status}
use fast_stdb.Storage.Iovec.{IovecBlock}
use fast_stdb.Storage.Volume.{Answer}
use fast_stdb.Storage.FileStorage.{
  FileStorage, extract_gen, extract_vol, is_live, read_live, append_block,
}

unfoldable pub adjust_current_volume : FileStorage → Option FileStorage
adjust_current_volume s =
    if length s.volumes == 0
    then none
    else some (record s { current_volume = (s.current_volume + 1) % length s.volumes })

unfoldable pub exists : ℕ → FileStorage → Option Bool
exists addr s =
    let volix = extract_gen addr % length s.volumes in
    if length s.volumes == 0
    then none
    else some (is_live volix (extract_gen addr) (extract_vol addr) s.meta)

unfoldable pub read_iovec_block : ℕ → FileStorage → Option (Status × Option IovecBlock)
read_iovec_block addr s =
    let volix = extract_gen addr % length s.volumes in
    if length s.volumes == 0 then none else read_live volix (extract_gen addr) (extract_vol addr) s

unfoldable pub append :
    Answer → IovecBlock → FileStorage → Option ((Status × ℕ) × IovecBlock × FileStorage)
append = append_block adjust_current_volume
