-- ===== src/Storage/FileStorage.antt =====
-- `FileStorage` of faststdb/storage/block_store.cc and its two kinds: volumes that are filled one
-- after the other, in a cycle or with a new volume behind the last one. `none` is LOG(FATAL), or an
-- access out of range. What a kind does in `adjust_current_volume` is an argument of the others.
pub mod Live
pub mod Steps
pub mod Address
pub mod Checksum
pub mod WriteError
pub mod Open
pub mod Fixed
pub mod Expandable
use fast_stdb.Common.{
  ℕ, zero, suc, ◌+◌, ◌-◌, ◌*◌, ◌/◌, ◌%◌, ◌^◌, Bool, true, false, Option, none, some, List, [], ◌∷◌,
  ◌++◌, ltb, leb, ◌==◌, ◌&&◌, ◌||◌, not, if◌then◌else◌, length, get_elem?, get_or, set, min, map,
  bit_and, bit_or,
}
use fast_stdb.Common.Memory.{slice}
use fast_stdb.Storage.Status.{Status, ok, overflow, bad_arg, unavailable, is_ok}
use fast_stdb.Storage.Iovec.{IovecBlock, block_size, set_addr}
use fast_stdb.Storage.Volume.{Volume, Answer, append_iovec, read_iovec, reset}
use fast_stdb.Storage.MetaVolume.{
  MetaVolume, get_nblocks, get_generation, get_capacity, get_nvolumes, set_nblocks, set_generation,
}

pub record FileStorage : Type 0 where
  pub meta : MetaVolume
  pub volumes : List Volume
  pub dirty : List ℕ
  pub current_volume : ℕ
  pub current_gen : ℕ
  pub total_size : ℕ
  pub volume_names : List (List ℕ)

unfoldable pub extract_gen : ℕ → ℕ
extract_gen addr = addr / 2 ^ 32 % 2 ^ 32

unfoldable pub extract_vol : ℕ → ℕ
extract_vol addr = bit_and addr 0xFFFFFFFF

unfoldable pub make_logic : ℕ → ℕ → ℕ
make_logic gen addr = bit_or (gen * 2 ^ 32) addr

unfoldable pub bump : ℕ → List ℕ → List ℕ
bump i dirty = set dirty i (get_or dirty i 0 + 1)

-- The part of the transition for a volume that is not empty.
unfoldable pub reset_current :
    ℕ → Status × MetaVolume → Option Volume → FileStorage → Option FileStorage
reset_current gen (status, meta) none s = none
reset_current gen (status, meta) (some v) s =
    if not (is_ok status)
    then none
    else some (record s {
      meta = meta;
      volumes = set s.volumes s.current_volume (reset v);
      dirty = bump s.current_volume s.dirty;
      current_gen = gen;
    })

unfoldable pub recycle : ℕ → FileStorage → Option FileStorage
recycle gen s =
    let c = s.current_volume in
    let gen' = (gen + length s.volumes) % 2 ^ 32 in
    let (status, meta) = set_generation c gen' s.meta in
    if not (is_ok status)
    then none
    else reset_current gen' (set_nblocks c 0 meta) (get_elem? s.volumes c) s

unfoldable pub enter : FileStorage → Option FileStorage
enter s =
    let (gen_status, gen) = get_generation s.current_volume s.meta in
    let (status, nblocks) = get_nblocks s.current_volume s.meta in
    if not (is_ok gen_status)
    then none
    else if not (is_ok status)
    then none
    else if nblocks == 0
    then some (record s { current_gen = gen })
    else recycle gen (record s { current_gen = gen })

unfoldable pub handle_volume_transition :
    (FileStorage → Option FileStorage) → FileStorage → Option FileStorage
handle_volume_transition adjust s = elim (adjust s) [ none ↦ none | some s' ↦ enter s' ]

-- `append_block` of the current volume.
unfoldable pub append_current :
    Answer → IovecBlock → FileStorage → Option ((Status × ℕ) × FileStorage)
append_current answer data_block s = elim (get_elem? s.volumes s.current_volume) [
  | none ↦ none
  | some v ↦
      let (result, v') = append_iovec answer data_block v in
      some (result, record s { volumes = set s.volumes s.current_volume v' })
]

-- What follows the write: the address goes into the block, and the number of blocks is counted up.
unfoldable pub commit :
    ℕ → IovecBlock → FileStorage → Option ((Status × ℕ) × IovecBlock × FileStorage)
commit block_addr data_block s =
    let (status, meta) = set_nblocks s.current_volume ((block_addr + 1) % 2 ^ 32) s.meta in
    if not (is_ok status)
    then none
    else some (
      (status, make_logic s.current_gen block_addr),
      set_addr block_addr data_block,
      record s { meta = meta; dirty = bump s.current_volume s.dirty },
    )

abbrev pub is_overflow : Status → Bool
is_overflow overflow = true
is_overflow _ = false

unfoldable pub append_next :
    (FileStorage → Option FileStorage)
    → Answer
    → IovecBlock
    → FileStorage
    → Option ((Status × ℕ) × IovecBlock × FileStorage)
append_next adjust answer data_block s = elim (handle_volume_transition adjust s) [
  | none ↦ none
  | some s' ↦ (elim (append_current answer data_block s') [
    | none ↦ none
    | some ((status, block_addr), s'') ↦
        if not (is_ok status)
        then some ((status, 0), data_block, s'')
        else commit block_addr data_block s''
  ])
]

unfoldable pub append_block :
    (FileStorage → Option FileStorage)
    → Answer
    → IovecBlock
    → FileStorage
    → Option ((Status × ℕ) × IovecBlock × FileStorage)
append_block adjust answer data_block s = elim (append_current answer data_block s) [
  | none ↦ none
  | some ((status, block_addr), s') ↦
      if is_overflow status
      then append_next adjust answer data_block s'
      else commit block_addr data_block s'
]

pub record BlockStoreStats : Type 0 where
  pub block_size : ℕ
  pub capacity : ℕ
  pub nblocks : ℕ

unfoldable pub add_if : Status × ℕ → ℕ → ℕ
add_if (status, res) n = if is_ok status then n + res else n

unfoldable pub volume_stats : ℕ → MetaVolume → BlockStoreStats → BlockStoreStats
volume_stats ix meta stats = record {
  block_size = stats.block_size;
  capacity = add_if (get_capacity ix meta) stats.capacity;
  nblocks = add_if (get_nblocks ix meta) stats.nblocks;
}

-- The loop of `get_stats` over `n` volumes from `ix`.
unfoldable pub sum_stats : ℕ → ℕ → MetaVolume → BlockStoreStats → BlockStoreStats
sum_stats zero ix meta stats = stats
sum_stats (suc n) ix meta stats = sum_stats n (ix + 1) meta (volume_stats ix meta stats)

unfoldable pub no_stats : BlockStoreStats
no_stats = record { block_size = 4096; capacity = 0; nblocks = 0 }

unfoldable pub get_stats : FileStorage → BlockStoreStats
get_stats s = sum_stats (get_nvolumes s.meta) 0 s.meta no_stats

unfoldable pub get_top_address : FileStorage → Option ℕ
get_top_address s = elim (get_elem? s.volumes s.current_volume) [
  | none ↦ none
  | some v ↦ some (make_logic s.current_gen v.file_size)
]

-- `checksum` of a block, for an implementation that takes the checksum so far and more bytes.
unfoldable pub checksum_loop : (ℕ → List ℕ → ℕ) → List (List ℕ) → ℕ → ℕ → ℕ → ℕ
checksum_loop impl [] offset size crc32 = crc32
checksum_loop impl (c ∷ cs) offset size crc32 =
    let sz = min (length c - offset) size in
    let rest = checksum_loop impl cs 0 (size - sz) (impl crc32 (slice offset sz c)) in
    if ltb (length c) offset || length c == 0 || size == 0 then crc32 else rest

unfoldable pub checksum : (ℕ → List ℕ → ℕ) → IovecBlock → ℕ → ℕ → ℕ
checksum impl b offset size = checksum_loop impl b.components offset size 0

-- What both kinds of storage look up, for a volume of the number `ix`.
unfoldable pub is_live : ℕ → ℕ → ℕ → MetaVolume → Bool
is_live ix gen vol meta =
    let (gen_status, actual_gen) = get_generation ix meta in
    let (status, nblocks) = get_nblocks ix meta in
    is_ok gen_status && (is_ok status && (actual_gen == gen && ltb vol nblocks))

unfoldable pub read_volume : ℕ → ℕ → FileStorage → Option (Status × Option IovecBlock)
read_volume ix vol s = elim (get_elem? s.volumes ix) [
  | none ↦ none
  | some v ↦
      let (status, b) = read_iovec vol v in
      some (if is_ok status then (status, some b) else (status, none))
]

unfoldable pub read_live : ℕ → ℕ → ℕ → FileStorage → Option (Status × Option IovecBlock)
read_live ix gen vol s =
    let (gen_status, actual_gen) = get_generation ix s.meta in
    let (status, nblocks) = get_nblocks ix s.meta in
    if not (is_ok gen_status)
    then some (bad_arg, none)
    else if not (is_ok status)
    then some (bad_arg, none)
    else if not (actual_gen == gen) || leb nblocks vol
    then some (unavailable, none)
    else read_volume ix vol s
