-- ===== src/Storage/MemTests.antt =====
-- The theorems on the store in memory and the block cache at concrete states.
use fast_stdb.Common.{
  ℕ, ◌+◌, ◌*◌, ◌^◌, ◌<◌, ◌≤◌, ◌≡◌, refl, arith, some, none, [], ◌≢◌, ◌⊎◌, get_elem?, set, replicate,
  length-replicate, true, false,
}
use fast_stdb.Storage.Status.{ok}
use fast_stdb.Storage.Iovec.{IovecBlock, block_size, set_addr}
use fast_stdb.Storage.Tests.{five_bytes, five_bytes-Holds}
use fast_stdb.Storage.Volume.{block_bytes, create_new}
use fast_stdb.Storage.Volume.Append.{loaded}
use fast_stdb.Storage.MemStore.{MemStore, append_block, exists, memstore_base}
use fast_stdb.Storage.MemStore.Blocks.{Reads, append_block-read_iovec_block}
use fast_stdb.Storage.MemStore.Wrap.{read_iovec_block-wraps}
use fast_stdb.Storage.BlockCache.{
  BlockCache, hash, hash32, insert, probe, loockup, null_pointer, result,
}
use fast_stdb.Storage.BlockCache.Cells.{loockup-probe}
use fast_stdb.Storage.BlockCache.Insert.{Spared, Least, insert-loockup, insert-evicts}

-- A store of two blocks with a callback for reads.
abbrev two_blocks : MemStore
two_blocks = record {
  buffer = create_new 2;
  append_callback = none;
  read_callback = some [];
  write_pos = 2;
  removed_pos = 0;
}

two_blocks-Sized : fast_stdb.Storage.MemStore.Blocks.Sized two_blocks
unfolding create_new
two_blocks-Sized = record {
  sized = length-replicate {A = ℕ} (2 * block_size) 0;
  small = omega arith;
  removed = omega arith;
}

append_block-read_iovec_block_example :
    (addr : ℕ) × (s' : MemStore) × (append_block five_bytes two_blocks
      ≡ ((ok, addr), set_addr addr five_bytes, s'))
    × fast_stdb.Storage.MemStore.Blocks.Sized s'
    × (exists addr s' ≡ true)
    × Reads addr s' (loaded (block_bytes five_bytes))
    × ((ix : ℕ)
        → 0 ≤ ix
        → ix < 2
        → (old : IovecBlock) × Reads (ix + memstore_base) two_blocks old
          × Reads (ix + memstore_base) s' old)
append_block-read_iovec_block_example =
    append_block-read_iovec_block 1 five_bytes two_blocks two_blocks-Sized five_bytes-Holds
      (omega arith)

read_iovec_block-wraps_example :
    (exists (1 + 2 ^ 20 + memstore_base) two_blocks ≡ false)
    × (b : IovecBlock) × Reads (1 + memstore_base) two_blocks b
    × Reads (1 + 2 ^ 20 + memstore_base) two_blocks b
read_iovec_block-wraps_example =
    read_iovec_block-wraps 1 two_blocks two_blocks-Sized refl (omega arith)

-- A cache of sixteen cells, two of which hold blocks.
abbrev sixteen : BlockCache
sixteen = record {
  block_cache = set (set (replicate 16 none) 3 (some five_bytes)) 9 (some (set_addr 7 five_bytes));
  bits = 4;
}

sixteen-Sized : fast_stdb.Storage.BlockCache.Cells.Sized sixteen
sixteen-Sized = record { cells = refl; some_bits = omega arith; small = omega arith }

abbrev new_addr : IovecBlock
new_addr = set_addr 11 five_bytes

insert-loockup_example :
    (c' : BlockCache) × (b' : IovecBlock) × (insert 3 9 1 2 new_addr sixteen ≡ some c')
    × (fast_stdb.Storage.BlockCache.Cells.Sized c'
        × (c'.bits ≡ 4)
        × Spared 3 9 1 2 (hash 11 4) sixteen c')
    × (b'.addr ≡ 11)
    × (loockup 11 c' ≡ result (some b'))
unfolding set_addr
insert-loockup_example =
    insert-loockup 3 9 1 2 new_addr sixteen sixteen-Sized (omega arith) (omega arith)

insert-evicts_example :
    (c' : BlockCache) × (v : ℕ) × (insert 3 9 1 2 new_addr sixteen ≡ some c')
    × Least 3 9 1 2 five_bytes (set_addr 7 five_bytes) v
    × (get_elem? c'.block_cache v ≡ some none)
    × (get_elem? c'.block_cache (hash 11 4) ≡ some (some new_addr))
    × ((j : ℕ)
        → v ≢ j
        → hash 11 4 ≢ j
        → get_elem? c'.block_cache j ≡ get_elem? sixteen.block_cache j)
unfolding set_addr hash hash32
insert-evicts_example =
    insert-evicts 3 9 1 2 new_addr five_bytes (set_addr 7 five_bytes) sixteen sixteen-Sized refl
      refl refl

loockup-probe_example :
    ((probe 5 sixteen ≡ some 0) × (loockup 5 sixteen ≡ null_pointer))
    ⊎ (((probe 5 sixteen ≡ some 1) × (loockup 5 sixteen ≡ result none))
        ⊎ ((b : IovecBlock) × (probe 5 sixteen ≡ some 2)
            × (loockup 5 sixteen ≡ result (some b))
            × (b.addr ≡ 5)))
loockup-probe_example = loockup-probe 5 sixteen sixteen-Sized
