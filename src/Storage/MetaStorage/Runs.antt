-- ===== src/Storage/MetaStorage/Runs.antt =====
-- A metadata volume and its registry, in any order of their steps.
use fast_stdb.Common.{ℕ, ◌≡◌, List, ◌∷◌, length, some}
use fast_stdb.Storage.Status.{Status}
use fast_stdb.Storage.MetaVolume.{
  MetaVolume, Call, update, set_nblocks, set_capacity, set_generation,
}
use fast_stdb.Storage.MetaStorage.{MetaVolumeStore, run, handle}
use fast_stdb.Storage.MetaStorage.Sync.{IsPlain}

-- The states that the operations of the volume, with the next id for `add_volume` and a path without
-- a terminator in it, the registry and its thread lead to, in any order: a call waits until the
-- registry handles it, and an update until the thread applies it.
pub data Reachable (start : MetaVolume) (registry : MetaVolumeStore)
    : MetaVolume → MetaVolumeStore → Type 0 where
  start_state : Reachable start registry start registry
  update_step :
      {m : MetaVolume} {s : MetaVolumeStore}
      → (id nblocks capacity gen : ℕ) → Reachable start registry m s
      → Reachable start registry (update id nblocks capacity gen m).1 s
  set_nblocks_step :
      {m : MetaVolume} {s : MetaVolumeStore}
      → (id n : ℕ) → Reachable start registry m s
      → Reachable start registry (set_nblocks id n m).1 s
  set_capacity_step :
      {m : MetaVolume} {s : MetaVolumeStore}
      → (id n : ℕ) → Reachable start registry m s
      → Reachable start registry (set_capacity id n m).1 s
  set_generation_step :
      {m : MetaVolume} {s : MetaVolumeStore}
      → (id n : ℕ) → Reachable start registry m s
      → Reachable start registry (set_generation id n m).1 s
  add_volume_step :
      {m m' : MetaVolume} {s : MetaVolumeStore}
      → (capacity : ℕ) (path : List ℕ) (status : Status) → IsPlain path
      → Reachable start registry m s
      → fast_stdb.Storage.MetaVolume.add_volume (length m.slots) capacity path m ≡ some (status, m')
      → Reachable start registry m' s
  call_step :
      {m : MetaVolume} {s : MetaVolumeStore}
      → (c : Call) (calls : List Call) → Reachable start registry m s
      → m.calls ≡ c ∷ calls
      → Reachable start registry (record m { calls = calls }) (handle c s)
  run_step :
      {m : MetaVolume} {s s' : MetaVolumeStore}
      → Reachable start registry m s
      → run s ≡ some s'
      → Reachable start registry m s'
