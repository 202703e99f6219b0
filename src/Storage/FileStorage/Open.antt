-- ===== src/Storage/FileStorage/Open.antt =====
-- The constructor of `FileStorage`: the volumes in the order of their ids, and the first of them that
-- has room as the current one. The files are an argument, from a path to the bytes.
pub mod Current
use fast_stdb.Common.{
  ℕ, zero, suc, ◌+◌, Bool, true, false, Option, none, some, List, [], ◌∷◌, ltb, ◌==◌, ◌&&◌, not,
  if◌then◌else◌, length, map, replicate,
}
use fast_stdb.Storage.Status.{Status, ok, is_ok}
use fast_stdb.Storage.Volume.{Volume, open_existing, create_new}
use fast_stdb.Storage.MetaVolume.{VolumeRef, MetaVolume, get_nblocks, get_generation, get_nvolumes}
use fast_stdb.Storage.FileStorage.{FileStorage, BlockStoreStats, volume_stats, no_stats}

abbrev pub Files : Type 0
Files = List ℕ → Option (List ℕ)

-- `std::sort` by id; the ids of a registry differ.
unfoldable pub insert_by_id : VolumeRef → List VolumeRef → List VolumeRef
insert_by_id vol [] = vol ∷ []
insert_by_id vol (w ∷ ws) = if ltb w.id vol.id then w ∷ insert_by_id vol ws else vol ∷ w ∷ ws

unfoldable pub sort_by_id : List VolumeRef → List VolumeRef
sort_by_id [] = []
sort_by_id (vol ∷ vols) = insert_by_id vol (sort_by_id vols)

unfoldable pub open_volume : Files → ℕ → MetaVolume → VolumeRef → Option Volume
open_volume files ix meta vol =
    let (status, nblocks) = get_nblocks ix meta in
    if is_ok status then open_existing files vol.path nblocks else none

unfoldable pub open_volumes : Files → ℕ → MetaVolume → List VolumeRef → Option (List Volume)
open_volumes files ix meta [] = some []
open_volumes files ix meta (vol ∷ vols) = elim (open_volume files ix meta vol) [
  | none ↦ none
  | some v ↦ (elim (open_volumes files (ix + 1) meta vols) [
    | none ↦ none
    | some vs ↦ some (v ∷ vs)
  ])
]

unfoldable pub sum_sizes : List Volume → ℕ
sum_sizes [] = 0
sum_sizes (v ∷ vs) = v.file_size + sum_sizes vs

-- The number and the generation of the first volume from `ix` on that has room, or those that were
-- set before. A volume without a record is LOG(FATAL).
unfoldable pub find_current : ℕ → MetaVolume → List Volume → ℕ × ℕ → Option (ℕ × ℕ)
find_current ix meta [] initial = some initial
find_current ix meta (v ∷ vs) initial =
    let (gen_status, curr_gen) = get_generation ix meta in
    let nblocks = (get_nblocks ix meta).1 in
    let rest = find_current (ix + 1) meta vs initial in
    if not (is_ok gen_status)
    then none
    else if ltb nblocks v.file_size
    then some (ix, curr_gen)
    else rest

unfoldable pub assemble :
    MetaVolume → List VolumeRef → List Volume → Option (ℕ × ℕ) → Option FileStorage
assemble meta sorted volumes none = none
assemble meta sorted volumes (some (current, gen)) = some (record {
  meta = meta;
  volumes = volumes;
  dirty = replicate (length volumes) 0;
  current_volume = current;
  current_gen = gen;
  total_size = sum_sizes volumes;
  volume_names = map VolumeRef.path sorted;
})

unfoldable pub open_storage : Files → List VolumeRef → Option FileStorage
open_storage files registry = elim (fast_stdb.Storage.MetaVolume.open_existing registry) [
  | none ↦ none
  | some meta ↦ (elim (open_volumes files 0 meta (sort_by_id registry)) [
    | none ↦ none
    | some volumes ↦
        assemble meta (sort_by_id registry) volumes (find_current 0 meta volumes (0, 0))
  ])
]

-- `create`: the files that are made.
unfoldable pub create : List (ℕ × List ℕ) → List (List ℕ × List ℕ)
create [] = []
create ((capacity, path) ∷ vols) = (path, create_new capacity) ∷ create vols

-- `get_volume_stats`, in a map from names: a name that comes again has the later entry.
unfoldable pub same_name : List ℕ → List ℕ → Bool
same_name [] [] = true
same_name [] (d ∷ ds) = false
same_name (c ∷ cs) [] = false
same_name (c ∷ cs) (d ∷ ds) = (c == d) && same_name cs ds

unfoldable pub put_stats :
    List ℕ → BlockStoreStats → List (List ℕ × BlockStoreStats) → List (List ℕ × BlockStoreStats)
put_stats name stats [] = (name, stats) ∷ []
put_stats name stats ((n, s) ∷ rest) =
    if same_name name n then (name, stats) ∷ rest else (n, s) ∷ put_stats name stats rest

unfoldable pub stats_loop :
    ℕ
    → ℕ
    → MetaVolume
    → List (List ℕ)
    → List (List ℕ × BlockStoreStats)
    → Option (List (List ℕ × BlockStoreStats))
stats_loop zero ix meta names result = some result
stats_loop (suc n) ix meta [] result = none
stats_loop (suc n) ix meta (name ∷ names) result =
    stats_loop n (ix + 1) meta names (put_stats name (volume_stats ix meta no_stats) result)

unfoldable pub get_volume_stats : FileStorage → Option (List (List ℕ × BlockStoreStats))
get_volume_stats s = stats_loop (get_nvolumes s.meta) 0 s.meta s.volume_names []
