-- ===== src/Storage/BlockCache.antt =====
-- `BlockCache` of faststdb/storage/block_store.cc: one cell for each value of a hash. The random
-- numbers and the use counts of the shared pointers are arguments. `none` is an exception of `at`.
-- The number of bits is at least 1, since a shift of 64 bits by 64 is undefined, and at most 30, since
-- `1 << Nbits` is an int.
pub mod Cells
pub mod Insert
use fast_stdb.Common.{
  ℕ, ◌+◌, ◌-◌, ◌*◌, ◌/◌, ◌%◌, ◌^◌, Option, none, some, List, ltb, leb, ◌==◌, if◌then◌else◌, length,
  get_elem?, set, replicate, bit_and, bit_xor,
}
use fast_stdb.Storage.Iovec.{IovecBlock}

pub record BlockCache : Type 0 where
  pub block_cache : List (Option IovecBlock)
  pub bits : ℕ

unfoldable pub hash32 : ℕ → ℕ → ℕ → ℕ
hash32 value bits seed = ((2 ^ 32 - 1) * value + seed) % 2 ^ 64 / 2 ^ (64 - bits)

unfoldable pub hash : ℕ → ℕ → ℕ
hash value bits =
    bit_xor (hash32 (bit_and value 0xFFFFFFFF) bits 277) (hash32 (value / 2 ^ 32 % 2 ^ 32) bits 337)

-- The constructor; `none` stands for an int that overflows.
unfoldable pub new_cache : ℕ → Option BlockCache
new_cache bits =
    if leb 31 bits
    then none
    else some (record { block_cache = replicate (2 ^ bits) none; bits = bits })

unfoldable pub probe_cell : ℕ → Option (Option IovecBlock) → Option ℕ
probe_cell addr none = none
probe_cell addr (some none) = some 0
probe_cell addr (some (some b)) = some (if b.addr == addr then 2 else 1)

unfoldable pub probe : ℕ → BlockCache → Option ℕ
probe addr c = probe_cell addr (get_elem? c.block_cache (hash addr c.bits))

unfoldable pub reset_cell : ℕ → BlockCache → BlockCache
reset_cell h c = record c { block_cache = set c.block_cache h none }

-- The eviction, for two blocks with so many users.
unfoldable pub evict_of :
    ℕ → ℕ → ℕ → ℕ → Option IovecBlock → Option IovecBlock → BlockCache → BlockCache
evict_of h1 h2 uses1 uses2 none p2 c = c
evict_of h1 h2 uses1 uses2 (some b1) none c = c
evict_of h1 h2 uses1 uses2 (some b1) (some b2) c =
    if ltb uses2 uses1
    then reset_cell h2 c
    else if ltb uses1 uses2
    then reset_cell h1 c
    else if ltb b1.addr b2.addr
    then reset_cell h1 c
    else reset_cell h2 c

unfoldable pub evict : ℕ → ℕ → ℕ → ℕ → BlockCache → Option BlockCache
evict h1 h2 uses1 uses2 c = elim (get_elem? c.block_cache h1) [
  | none ↦ none
  | some p1 ↦ (elim (get_elem? c.block_cache h2) [
    | none ↦ none
    | some p2 ↦ some (evict_of h1 h2 uses1 uses2 p1 p2 c)
  ])
]

unfoldable pub store_block : IovecBlock → BlockCache → Option BlockCache
store_block b c =
    let h = hash b.addr c.bits in
    if ltb h (length c.block_cache)
    then some (record c { block_cache = set c.block_cache h (some b) })
    else none

unfoldable pub insert_evicted : Option BlockCache → IovecBlock → Option BlockCache
insert_evicted none b = none
insert_evicted (some c) b = store_block b c

unfoldable pub insert_at : Option ℕ → ℕ → ℕ → ℕ → ℕ → IovecBlock → BlockCache → Option BlockCache
insert_at none h1 h2 uses1 uses2 b c = none
insert_at (some pr) h1 h2 uses1 uses2 b c =
    if pr == 2
    then some c
    else if pr == 0
    then insert_evicted (evict h1 h2 uses1 uses2 c) b
    else store_block b c

unfoldable pub insert : ℕ → ℕ → ℕ → ℕ → IovecBlock → BlockCache → Option BlockCache
insert h1 h2 uses1 uses2 b c = insert_at (probe b.addr c) h1 h2 uses1 uses2 b c

-- An exception of `at`, a null pointer that is followed, or the pointer that is returned.
pub data Lookup : Type 0 where
  out_of_range null_pointer : Lookup
  result : Option IovecBlock → Lookup

unfoldable pub loockup_cell : ℕ → Option (Option IovecBlock) → Lookup
loockup_cell addr none = out_of_range
loockup_cell addr (some none) = null_pointer
loockup_cell addr (some (some b)) = result (if b.addr == addr then some b else none)

unfoldable pub loockup : ℕ → BlockCache → Lookup
loockup addr c = loockup_cell addr (get_elem? c.block_cache (hash addr c.bits))
