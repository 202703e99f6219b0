-- ===== src/Storage/Iovec.antt =====
-- `IOVecBlock` of faststdb/storage/volume.cc: a block of 4096 bytes in four components, which are
-- allocated one by one, or in a single component that holds them all. `none` is LOG(FATAL), or an
-- access out of range, on which the source has no defined behaviour.
pub mod Shape
pub mod Append
pub mod Put
pub mod Read
use fast_stdb.Common.{
  ℕ, zero, suc, ◌+◌, ◌-◌, ◌*◌, ◌/◌, ◌%◌, ◌^◌, Bool, true, false, Option, none, some, List, [], ◌∷◌,
  ◌++◌, ltb, leb, ◌==◌, ◌||◌, if◌then◌else◌, length, get_elem?, get_or, set, replicate, take, drop,
  min,
}
use fast_stdb.Common.Memory.{overwrite, slice}
use fast_stdb.Compression.Stream.{le_bytes}

abbrev pub block_size : ℕ
block_size = 4096

abbrev pub ncomponents : ℕ
ncomponents = 4

abbrev pub component_size : ℕ
component_size = 1024

-- `EMPTY_ADDR`.
abbrev pub empty_addr : ℕ
empty_addr = 2 ^ 64 - 1

pub record IovecBlock : Type 0 where
  pub components : List (List ℕ)
  pub pos : ℕ
  pub addr : ℕ

-- The two constructors.
unfoldable pub new_block : IovecBlock
new_block = record { components = [] ∷ [] ∷ [] ∷ [] ∷ []; pos = 0; addr = empty_addr }

unfoldable pub blank_block : List ℕ
blank_block = replicate block_size 0

unfoldable pub allocated_block : IovecBlock
allocated_block = record {
  components = blank_block ∷ [] ∷ [] ∷ [] ∷ [];
  pos = block_size;
  addr = empty_addr;
}

unfoldable pub set_addr : ℕ → IovecBlock → IovecBlock
set_addr addr b = record b { addr = addr }

abbrev pub component : IovecBlock → ℕ → List ℕ
component b i = get_or b.components i []

unfoldable pub get_size : IovecBlock → ℕ → ℕ
get_size b i = length (component b i)

-- All bytes are in the first component.
unfoldable pub is_single : IovecBlock → Bool
is_single b = length (component b 0) == block_size

-- `resize(COMPONENT_SIZE)` of an empty component.
unfoldable pub blank : List ℕ
blank = replicate component_size 0

-- `add`: the index of the first empty component, which is allocated; `none` stands for -1.
unfoldable pub add_from : ℕ → List (List ℕ) → Option (ℕ × List (List ℕ))
add_from i [] = none
add_from i ([] ∷ cs) = some (i, blank ∷ cs)
add_from i ((x ∷ c) ∷ cs) = elim (add_from (i + 1) cs) [
  | none ↦ none
  | some (j, cs') ↦ some (j, (x ∷ c) ∷ cs')
]

unfoldable pub add : IovecBlock → Option (ℕ × IovecBlock)
add b = elim (add_from 0 b.components) [
  | none ↦ none
  | some (i, cs) ↦ some (i, record b { components = cs })
]

unfoldable pub space_left : IovecBlock → ℕ
space_left b = block_size - b.pos

-- The difference of an int and a u32 wraps.
unfoldable pub bytes_to_read : ℕ → IovecBlock → ℕ
bytes_to_read offset b = (b.pos + 2 ^ 32 - offset) % 2 ^ 32

-- `if (data_[c].empty()) data_[c].resize(COMPONENT_SIZE)`.
unfoldable pub allocate_component : ℕ → IovecBlock → IovecBlock
allocate_component c b =
    if length (component b c) == 0 then record b { components = set b.components c blank } else b

-- A byte at the write position.
unfoldable pub store : ℕ → IovecBlock → IovecBlock
unfolding allocate_component
store val b =
    let c = b.pos / component_size in
    let b' = allocate_component c b in
    record b' {
      components = set b'.components c (set (component b' c) (b.pos % component_size) val);
      pos = b.pos + 1;
    }

unfoldable pub put : ℕ → IovecBlock → Option IovecBlock
unfolding store
put val b = if leb ncomponents (b.pos / component_size) then none else some (store val b)

unfoldable pub safe_put : ℕ → IovecBlock → Bool × IovecBlock
unfolding store
safe_put val b =
    if leb ncomponents (b.pos / component_size) then (false, b) else (true, store val b)

-- `put` of a plain value, byte by byte.
unfoldable pub put_all : List ℕ → IovecBlock → Option IovecBlock
put_all [] b = some b
put_all (v ∷ vs) b = elim (put v b) [ none ↦ none | some b' ↦ put_all vs b' ]

-- `allocate`: the component and the position of the reserved bytes, or a null pointer.
unfoldable pub allocate : ℕ → IovecBlock → Option (ℕ × ℕ) × IovecBlock
unfolding allocate_component
allocate size b =
    let c = b.pos / component_size in
    let i = b.pos % component_size in
    let b' = allocate_component c b in
    if leb ncomponents c
    then (none, b)
    else if ltb (length (component b' c) - i) size
    then (none, b')
    else (some (c, i), record b' { pos = b.pos + size })

unfoldable pub get : ℕ → IovecBlock → Option ℕ
get offset b =
    let c = if is_single b then 0 else offset / component_size in
    let i = if is_single b then offset else offset % component_size in
    if leb ncomponents c then none else get_elem? (component b c) i

-- `get_raw` of a value of `n` bytes.
unfoldable pub get_raw : ℕ → ℕ → IovecBlock → Option (List ℕ)
get_raw zero offset b = some []
get_raw (suc n) offset b = elim (get offset b) [
  | none ↦ none
  | some v ↦ elim (get_raw n (offset + 1) b) [ none ↦ none | some vs ↦ some (v ∷ vs) ]
]

unfoldable pub set_write_pos : ℕ → IovecBlock → Option IovecBlock
set_write_pos pos b =
    if leb ncomponents (pos / component_size) then none else some (record b { pos = pos })

-- `memcpy` out of a component and into one: `none` where it leaves the component.
unfoldable pub copy_out : List ℕ → ℕ → ℕ → Option (List ℕ)
copy_out c offset size = if leb (offset + size) (length c) then some (slice offset size c) else none

unfoldable pub copy_in : ℕ → ℕ → List ℕ → IovecBlock → Option IovecBlock
copy_in c offset source b =
    if leb (offset + length source) (length (component b c))
    then some
        (record b { components = set b.components c (overwrite (component b c) offset source) })
    else none

-- `resize(COMPONENT_SIZE)` and a copy of so many bytes.
abbrev pub copied : List ℕ → List ℕ
copied c = take component_size c

-- `copy_from` a block in components: it stops at the first one that is empty.
unfoldable pub copy_components : List (List ℕ) → List (List ℕ) → List (List ℕ)
copy_components (c ∷ cs) ((x ∷ d) ∷ ds) = copied (x ∷ d) ∷ copy_components cs ds
copy_components cs ds = cs

unfoldable pub copy_from : IovecBlock → IovecBlock → IovecBlock
copy_from other b =
    let bytes = component other 0 in
    if is_single other
    then record b {
      components =
          slice 0 component_size bytes
          ∷ slice 1024 component_size bytes
          ∷ slice 2048 component_size bytes
          ∷ slice 3072 component_size bytes
          ∷ [];
    }
    else record b { components = copy_components b.components other.components }

-- `read_chunk`: the bytes that reach `dest`, and the result, the size or 0. An offset whose
-- component is not one of the four is an access out of range.
unfoldable pub read_second : List ℕ → ℕ → ℕ → IovecBlock → Option (List ℕ × ℕ)
read_second first ixend size b =
    if leb ncomponents ixend
    then none
    else if length (component b ixend) == 0
    then some (first, 0)
    else (elim (copy_out (component b ixend) 0 (size - length first)) [
      | none ↦ none
      | some rest ↦ some (first ++ rest, size)
    ])

unfoldable pub read_two : ℕ → ℕ → IovecBlock → Option (List ℕ × ℕ)
unfolding read_second
read_two offset size b =
    let ixbegin = offset / component_size in
    let offbegin = offset % component_size in
    let ixend = (offset + size) / component_size in
    if length (component b ixbegin) == 0
    then some ([], 0)
    else (elim (copy_out (component b ixbegin) offbegin (component_size - offbegin)) [
      | none ↦ none
      | some first ↦ read_second first ixend size b
    ])

unfoldable pub read_one : ℕ → ℕ → IovecBlock → Option (List ℕ × ℕ)
read_one offset size b =
    let ixbegin = offset / component_size in
    if length (component b ixbegin) == 0
    then some ([], 0)
    else (elim (copy_out (component b ixbegin) (offset % component_size) size) [
      | none ↦ none
      | some bytes ↦ some (bytes, size)
    ])

unfoldable pub read_single : ℕ → ℕ → IovecBlock → Option (List ℕ × ℕ)
read_single offset size b = elim (copy_out (component b 0) offset size) [
  | none ↦ none
  | some bytes ↦ some (bytes, size)
]

unfoldable pub read_chunk : ℕ → ℕ → IovecBlock → Option (List ℕ × ℕ)
unfolding read_one read_two read_single
read_chunk offset size b =
    if is_single b
    then read_single offset size b
    else if leb ncomponents (offset / component_size)
    then none
    else if offset / component_size == (offset + size) / component_size
    then read_one offset size b
    else read_two offset size b

-- An empty component is added, and must be the one that is meant.
unfoldable pub add_expected : ℕ → IovecBlock → Option IovecBlock
add_expected c b =
    if length (component b c) == 0
    then (elim (add b) [ none ↦ none | some (i, b') ↦ if i == c then some b' else none ])
    else some b

unfoldable pub append_one : List ℕ → IovecBlock → Option IovecBlock
append_one source b =
    let c = b.pos / component_size in
    elim (add_expected c b) [ none ↦ none | some b' ↦ copy_in c (b.pos % component_size) source b' ]

unfoldable pub append_two : List ℕ → IovecBlock → Option IovecBlock
unfolding append_one
append_two source b =
    let ixend = (b.pos + length source) / component_size in
    let l1 = component_size - b.pos % component_size in
    elim (append_one (take l1 source) b) [
      | none ↦ none
      | some b' ↦ elim (add_expected ixend b') [
        | none ↦ none
        | some b'' ↦ copy_in ixend 0 (drop l1 source) b''
      ]
    ]

-- The end of `append_chunk`: the write position moves.
unfoldable pub advance : ℕ → Option IovecBlock → Option (ℕ × IovecBlock)
advance size none = none
advance size (some b) = some (b.pos + size, record b { pos = b.pos + size })

-- `append_chunk`, for the end of the chunk as 32 bits hold it. In components it is an int, and a
-- negative one leads to an access out of range.
unfoldable pub append_to : ℕ → List ℕ → IovecBlock → Option (ℕ × IovecBlock)
unfolding advance append_one append_two
append_to end source b =
    let size = length source in
    let ixbegin = b.pos / component_size in
    let ixend = end / component_size in
    if is_single b
    then (if ltb block_size end then some (0, b) else advance size (copy_in 0 b.pos source b))
    else if leb ncomponents ixbegin
    then some (0, b)
    else if leb (2 ^ 31) end
    then none
    else if leb ncomponents ixend
    then some (0, b)
    else if ixbegin == ixend
    then advance size (append_one source b)
    else advance size (append_two source b)

-- `append_chunk`: the new write position, or 0 where the chunk is refused.
unfoldable pub append_chunk : List ℕ → IovecBlock → Option (ℕ × IovecBlock)
append_chunk source b = append_to ((b.pos + length source) % 2 ^ 32) source b

-- The components behind the one of the write position are freed.
unfoldable pub freed : List (List ℕ) → List (List ℕ)
freed [] = []
freed (c ∷ cs) = [] ∷ freed cs

unfoldable pub free_behind : ℕ → List (List ℕ) → List (List ℕ)
unfolding freed
free_behind n [] = []
free_behind zero (c ∷ cs) = c ∷ freed cs
free_behind (suc n) (c ∷ cs) = c ∷ free_behind n cs

unfoldable pub set_write_pos_and_shrink : ℕ → IovecBlock → Option IovecBlock
unfolding free_behind set_write_pos
set_write_pos_and_shrink top b = elim (set_write_pos top b) [
  | none ↦ none
  | some b' ↦
      if is_single b'
      then some b'
      else some (record b' { components = free_behind (b'.pos / component_size) b'.components })
]
