-- ===== src/Storage/FileStorage/Expandable.antt =====
-- `ExpandableFileStorage` of faststdb/storage/block_store.cc: behind the last volume a new one is
-- made, and the generation of a volume is its number. Whether the file of the new volume can be made
-- is an argument.
pub mod Grow
pub mod Keep
pub mod Promise
use fast_stdb.Common.{
  ℕ, zero, suc, ◌+◌, ◌-◌, ◌*◌, ◌/◌, ◌%◌, ◌^◌, Bool, true, false, Option, none, some, List, [], ◌∷◌,
  ◌++◌, ltb, leb, ◌==◌, ◌||◌, if◌then◌else◌, length, get_elem?,
}
use fast_stdb.Storage.Status.{Status}
use fast_stdb.Storage.Iovec.{IovecBlock}
use fast_stdb.Storage.Volume.{Volume, Answer, create_new, open_existing}
use fast_stdb.Storage.MetaVolume.{MetaVolume, add_volume}
use fast_stdb.Storage.FileStorage.{
  FileStorage, extract_gen, extract_vol, is_live, read_live, append_block,
}

-- `GetParentDir` of faststdb/common/file_utils.h: the path up to its last slash.
unfoldable pub has_slash : List ℕ → Bool
has_slash [] = false
has_slash (c ∷ cs) = c == 47 || has_slash cs

unfoldable pub get_parent_dir : List ℕ → List ℕ
get_parent_dir [] = []
get_parent_dir (c ∷ cs) =
    let rest = get_parent_dir cs in if has_slash (c ∷ cs) then c ∷ rest else []

-- `std::to_string` of a 32-bit number, which has ten digits at most.
unfoldable pub digits : ℕ → ℕ → List ℕ → List ℕ
digits zero n acc = acc
digits (suc fuel) n acc =
    let rest = digits fuel (n / 10) ((48 + n % 10) ∷ acc) in
    if ltb n 10 then (48 + n) ∷ acc else rest

unfoldable pub new_path : List ℕ → List ℕ → ℕ → List ℕ
new_path db_name path id =
    get_parent_dir path ++ (db_name ++ (95 ∷ digits 10 id (46 ∷ 118 ∷ 111 ∷ 108 ∷ [])))

unfoldable pub create_new_volume : Bool → List ℕ → ℕ → FileStorage → Option Volume
create_new_volume made db_name id s =
    elim (get_elem? s.volumes ((s.current_volume + (2 ^ 32 - 1)) % 2 ^ 32)) [
      | none ↦ none
      | some prev ↦
          if made
          then open_existing (λ path. some (create_new prev.file_size))
              (new_path db_name prev.path id) 0
          else none
    ]

unfoldable pub push : Volume → FileStorage → Option FileStorage
push vol s = elim (add_volume s.current_volume vol.file_size vol.path s.meta) [
  | none ↦ none
  | some (status, meta) ↦ some (record s {
    meta = meta;
    volumes = s.volumes ++ vol ∷ [];
    dirty = s.dirty ++ 0 ∷ [];
    total_size = s.total_size + vol.file_size;
    volume_names = s.volume_names ++ vol.path ∷ [];
  })
]

unfoldable pub push_new : Option Volume → FileStorage → Option FileStorage
push_new none s = none
push_new (some vol) s = push vol s

unfoldable pub adjust_current_volume : Bool → List ℕ → FileStorage → Option FileStorage
adjust_current_volume made db_name s =
    let next = (s.current_volume + 1) % 2 ^ 32 in
    let s' : FileStorage = record s { current_volume = next } in
    if leb (length s.volumes) next
    then push_new (create_new_volume made db_name next s') s'
    else some s'

unfoldable pub exists : ℕ → FileStorage → Bool
exists addr s = is_live (extract_gen addr) (extract_gen addr) (extract_vol addr) s.meta

unfoldable pub read_iovec_block : ℕ → FileStorage → Option (Status × Option IovecBlock)
read_iovec_block addr s = read_live (extract_gen addr) (extract_gen addr) (extract_vol addr) s

unfoldable pub append :
    Bool
    → List ℕ
    → Answer
    → IovecBlock
    → FileStorage
    → Option ((Status × ℕ) × IovecBlock × FileStorage)
append made db_name = append_block (adjust_current_volume made db_name)
