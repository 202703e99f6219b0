-- ===== src/Storage/Volume.antt =====
-- `Volume` of faststdb/storage/volume.cc: a file of blocks of 4096 bytes, mapped into memory, that is
-- written from its start. The file is the list of its bytes, which the mapping and the descriptor
-- share; what the operating system answers to a write is an argument.
pub mod Blocks
pub mod Append
use fast_stdb.Common.{
  ℕ, ◌+◌, ◌*◌, ◌/◌, ◌%◌, ◌^◌, Bool, Option, none, some, List, [], ◌∷◌, ◌++◌, leb, ◌==◌,
  if◌then◌else◌, length, replicate, take, set,
}
use fast_stdb.Common.Memory.{overwrite, slice}
use fast_stdb.Storage.Status.{Status, ok, overflow, file_seek_error, file_write_error, bad_arg}
use fast_stdb.Storage.Iovec.{
  IovecBlock, allocated_block, block_size, component_size, component, get_size, blank,
}

pub record Volume : Type 0 where
  pub memory : List ℕ
  pub file_size : ℕ
  pub write_pos : ℕ
  pub path : List ℕ

-- The bytes of a new file of so many blocks.
unfoldable pub create_new : ℕ → List ℕ
create_new capacity = replicate (capacity * block_size) 0

-- A file that cannot be mapped ends the program: `none`.
unfoldable pub open_existing : (List ℕ → Option (List ℕ)) → List ℕ → ℕ → Option Volume
open_existing files path pos = elim (files path) [
  | none ↦ none
  | some bytes ↦ some (record {
    memory = bytes;
    file_size = length bytes / block_size % 2 ^ 32;
    write_pos = pos % 2 ^ 32;
    path = path;
  })
]

unfoldable pub reset : Volume → Volume
reset v = record v { write_pos = 0 }

-- The offset is a product of 32-bit numbers.
unfoldable pub block_offset : ℕ → ℕ
block_offset ix = ix * block_size % 2 ^ 32

unfoldable pub append_block : List ℕ → Volume → (Status × ℕ) × Volume
append_block source v = if leb v.file_size v.write_pos then ((overflow, 0), v) else (
  (ok, v.write_pos),
  record v {
    memory = overwrite v.memory (block_offset v.write_pos) (take block_size source);
    write_pos = (v.write_pos + 1) % 2 ^ 32;
  },
)

-- The answers of `lseek` and of `writev`, which has written the first `n` bytes.
pub data Answer : Type 0 where
  seek_failed : Answer
  wrote : ℕ → Answer

-- The vector of `writev`: a component, or padding where there is none.
unfoldable pub padded : List ℕ → List ℕ
padded c = if length c == 0 then blank else take component_size c

unfoldable pub block_bytes : IovecBlock → List ℕ
unfolding padded
block_bytes b =
    padded (component b 0)
    ++ (padded (component b 1) ++ (padded (component b 2) ++ padded (component b 3)))

unfoldable pub written : ℕ → List ℕ → Volume → Volume
written n bytes v = record v {
  memory = overwrite v.memory (block_offset v.write_pos) (take n bytes);
}

unfoldable pub append_iovec : Answer → IovecBlock → Volume → (Status × ℕ) × Volume
append_iovec seek_failed b v =
    if leb v.file_size v.write_pos then ((overflow, 0), v) else ((file_seek_error, 0), v)
append_iovec (wrote n) b v =
    let v' = written n (block_bytes b) v in
    if leb v.file_size v.write_pos
    then ((overflow, 0), v)
    else if n == block_size
    then ((ok, v.write_pos), record v' { write_pos = (v.write_pos + 1) % 2 ^ 32 })
    else ((file_write_error, 0), v')

unfoldable pub block_at : ℕ → Volume → List ℕ
block_at ix v = slice (block_offset ix) block_size v.memory

unfoldable pub read_block : ℕ → List ℕ → Volume → Status × List ℕ
read_block ix dest v =
    if leb v.write_pos ix then (overflow, dest) else (ok, overwrite dest 0 (block_at ix v))

unfoldable pub read_iovec : ℕ → Volume → Status × IovecBlock
read_iovec ix v =
    let b = allocated_block in
    let (status, bytes) = read_block ix (component b 0) v in
    if get_size b 0 == block_size
    then (status, record b { components = set b.components 0 bytes })
    else (bad_arg, b)

unfoldable pub read_block_zero_copy : ℕ → Volume → Status × Option (List ℕ)
read_block_zero_copy ix v =
    if leb v.write_pos ix then (overflow, none) else (ok, some (block_at ix v))
