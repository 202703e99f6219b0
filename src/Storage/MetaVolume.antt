-- ===== src/Storage/MetaVolume.antt =====
-- `MetaVolume` of faststdb/storage/volume.cc: a block for each volume, with its number of blocks, its
-- capacity and its generation. The calls of the registry behind it that are not carried out yet are a
-- list. `none` is LOG(FATAL), or a write outside the buffer.
pub mod Access
use fast_stdb.Common.{
  ℕ, zero, suc, ◌+◌, ◌-◌, Bool, true, false, Option, none, some, List, [], ◌∷◌, ◌++◌, ltb, leb,
  ◌==◌, ◌||◌, if◌then◌else◌, length, get_elem?, set, replicate,
}
use fast_stdb.Storage.Status.{Status, ok, out_of_range, bad_arg}
use fast_stdb.Storage.Iovec.{block_size}

-- `FASTSTDB_VERSION`.
abbrev pub faststdb_version : ℕ
faststdb_version = 101

-- The numbers of a `VolumeRef`, which its path follows.
abbrev pub sizeof_ref : ℕ
sizeof_ref = 20

pub record VolumeRef : Type 0 where
  pub version : ℕ
  pub id : ℕ
  pub nblocks : ℕ
  pub capacity : ℕ
  pub generation : ℕ
  pub path : List ℕ

pub data Call : Type 0 where
  add_call : VolumeRef → Call
  update_call : VolumeRef → Call

pub record MetaVolume : Type 0 where
  pub slots : List VolumeRef
  pub calls : List Call

unfoldable pub zero_ref : VolumeRef
zero_ref = record { version = 0; id = 0; nblocks = 0; capacity = 0; generation = 0; path = [] }

-- `volcpy`: a path and its terminator have to fit behind the numbers of the block.
unfoldable pub volcpy : ℕ → VolumeRef → List VolumeRef → Option (List VolumeRef)
volcpy at desc slots =
    if ltb at (length slots)
    then if ltb (sizeof_ref + length desc.path) block_size then some (set slots at desc) else none
    else none

unfoldable pub contains : ℕ → List ℕ → Bool
contains id [] = false
contains id (i ∷ is) = (id == i) || contains id is

-- The loop of the constructor.
unfoldable pub init : List VolumeRef → List ℕ → List VolumeRef → Option (List VolumeRef)
init [] init_list slots = some slots
init (vol ∷ volumes) init_list slots =
    if contains vol.id init_list then none else (elim (volcpy vol.id vol slots) [
      | none ↦ none
      | some slots' ↦ init volumes (vol.id ∷ init_list) slots'
    ])

unfoldable pub open_existing : List VolumeRef → Option MetaVolume
open_existing volumes = elim (init volumes [] (replicate (length volumes) zero_ref)) [
  | none ↦ none
  | some slots ↦ some (record { slots = slots; calls = [] })
]

unfoldable pub get_nvolumes : MetaVolume → ℕ
get_nvolumes m = length m.slots

unfoldable pub get_nblocks : ℕ → MetaVolume → Status × ℕ
get_nblocks id m = elim (get_elem? m.slots id) [
  | none ↦ (out_of_range, 0)
  | some vol ↦ (ok, vol.nblocks)
]

unfoldable pub get_capacity : ℕ → MetaVolume → Status × ℕ
get_capacity id m = elim (get_elem? m.slots id) [
  | none ↦ (out_of_range, 0)
  | some vol ↦ (ok, vol.capacity)
]

unfoldable pub get_generation : ℕ → MetaVolume → Status × ℕ
get_generation id m = elim (get_elem? m.slots id) [
  | none ↦ (out_of_range, 0)
  | some vol ↦ (ok, vol.generation)
]

unfoldable pub new_ref : ℕ → ℕ → List ℕ → VolumeRef
new_ref id capacity path = record {
  version = faststdb_version;
  id = id;
  nblocks = 0;
  capacity = capacity;
  generation = id;
  path = path;
}

-- The new block stands behind the others, whatever the id is; a path that leaves no room for the
-- terminator is written past the block.
unfoldable pub add_volume : ℕ → ℕ → List ℕ → MetaVolume → Option (Status × MetaVolume)
unfolding new_ref
add_volume id capacity path m =
    let vol = new_ref id capacity path in
    if ltb (block_size - sizeof_ref) (length path)
    then some (bad_arg, m)
    else if length path == block_size - sizeof_ref
    then none
    else some (ok, record { slots = m.slots ++ vol ∷ []; calls = m.calls ++ add_call vol ∷ [] })

-- The bytes of a C string, up to its terminator.
unfoldable pub c_string : List ℕ → List ℕ
c_string [] = []
c_string (c ∷ cs) = if c == 0 then [] else c ∷ c_string cs

-- The record that the registry gets: the path in the block is read as a C string.
unfoldable pub desc_of : VolumeRef → VolumeRef
desc_of vol = record vol { path = c_string vol.path }

-- A field is written, and the registry gets the whole record.
unfoldable pub write : (VolumeRef → VolumeRef) → ℕ → MetaVolume → Status × MetaVolume
write change id m = elim (get_elem? m.slots id) [
  | none ↦ (out_of_range, m)
  | some vol ↦ (
    ok,
    record {
      slots = set m.slots id (change vol);
      calls = m.calls ++ update_call (desc_of (change vol)) ∷ [];
    },
  )
]

unfoldable pub update : ℕ → ℕ → ℕ → ℕ → MetaVolume → Status × MetaVolume
update id nblocks capacity gen =
    write (λ vol. record vol { nblocks = nblocks; capacity = capacity; generation = gen }) id

unfoldable pub set_nblocks : ℕ → ℕ → MetaVolume → Status × MetaVolume
set_nblocks id nblocks = write (λ vol. record vol { nblocks = nblocks }) id

unfoldable pub set_capacity : ℕ → ℕ → MetaVolume → Status × MetaVolume
set_capacity id size = write (λ vol. record vol { capacity = size }) id

unfoldable pub set_generation : ℕ → ℕ → MetaVolume → Status × MetaVolume
set_generation id gen = write (λ vol. record vol { generation = gen }) id
