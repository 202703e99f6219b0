-- ===== src/Storage/FileStorage/Open/Current.antt =====
-- The current volume of a storage that is opened.
use fast_stdb.Common.{ℕ, zero, suc, ◌+◌, ◌<◌, ◌≤◌, ◌≡◌, ◌⊎◌, some, List, [], ◌∷◌, length, get_elem?}
use fast_stdb.Storage.Status.{ok}
use fast_stdb.Storage.Volume.{Volume}
use fast_stdb.Storage.MetaVolume.{MetaVolume, get_nblocks, get_generation}
use fast_stdb.Storage.FileStorage.{FileStorage}

-- A volume of the list, from `ix` on, without room.
abbrev pub IsFull : MetaVolume → ℕ → Volume → Type 0
IsFull meta ix v = v.file_size ≤ (get_nblocks ix meta).1

-- The first volumes of the list have no room.
abbrev pub FirstFull : ℕ → MetaVolume → ℕ → List Volume → Type 0
FirstFull zero meta ix vs = Unit
FirstFull (suc n) meta ix [] = Unit
FirstFull (suc n) meta ix (v ∷ vs) = IsFull meta ix v × FirstFull n meta (ix + 1) vs

-- The current volume is the first with room, in its generation, or all volumes are full.
abbrev pub Starts : FileStorage → Type 0
Starts s =
    ((v : Volume) × (get_elem? s.volumes s.current_volume ≡ some v)
      × (get_generation s.current_volume s.meta ≡ (ok, s.current_gen))
      × ((get_nblocks s.current_volume s.meta).1 < v.file_size)
      × FirstFull s.current_volume s.meta 0 s.volumes)
    ⊎ ((s.current_volume ≡ 0)
        × (s.current_gen ≡ 0)
        × FirstFull (length s.volumes) s.meta 0 s.volumes)
