-- ===== src/Storage/MetaStorage.antt =====
-- `MetaVolumeStore` of faststdb/storage/meta_storage.cc, the registry behind a metadata volume, with
-- the queue of faststdb/common/blocking_queue.h: a new record is added at once, and an update waits
-- in the queue for the thread. The file that the records are written to is not modelled.
pub mod Updates
pub mod Sync
pub mod Runs
use fast_stdb.Common.{Option, none, some, List, [], ◌∷◌, ◌++◌, get_elem?, set}
use fast_stdb.Storage.MetaVolume.{VolumeRef, Call, add_call, update_call}

pub record MetaVolumeStore : Type 0 where
  pub volume_descs : List VolumeRef
  pub queue : List VolumeRef

unfoldable pub get_volumes : MetaVolumeStore → List VolumeRef
get_volumes s = s.volume_descs

unfoldable pub add_volume : VolumeRef → MetaVolumeStore → MetaVolumeStore
add_volume vol s = record s { volume_descs = s.volume_descs ++ vol ∷ [] }

unfoldable pub update_volume : VolumeRef → MetaVolumeStore → MetaVolumeStore
update_volume vol s = record s { queue = s.queue ++ vol ∷ [] }

-- All fields but the id of the record at the position of the id; `none` is an access out of range.
unfoldable pub apply_update : VolumeRef → List VolumeRef → Option (List VolumeRef)
apply_update vol descs = elim (get_elem? descs vol.id) [
  | none ↦ none
  | some item ↦ some (set descs vol.id (record vol { id = item.id }))
]

unfoldable pub apply_updates : List VolumeRef → List VolumeRef → Option (List VolumeRef)
apply_updates [] descs = some descs
apply_updates (vol ∷ vols) descs = elim (apply_update vol descs) [
  | none ↦ none
  | some descs' ↦ apply_updates vols descs'
]

-- One turn of the loop of `Run`, which takes all updates out of the queue.
unfoldable pub run : MetaVolumeStore → Option MetaVolumeStore
run s = elim (apply_updates s.queue s.volume_descs) [
  | none ↦ none
  | some descs ↦ some (record { volume_descs = descs; queue = [] })
]

-- A call of a metadata volume.
unfoldable pub handle : Call → MetaVolumeStore → MetaVolumeStore
unfolding add_volume update_volume
handle (add_call vol) s = add_volume vol s
handle (update_call vol) s = update_volume vol s
