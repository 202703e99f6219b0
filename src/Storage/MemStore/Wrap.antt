-- ===== src/Storage/MemStore/Wrap.antt =====
-- Addresses behind the first 4 GiB of a store in memory.
use fast_stdb.Common.{ℕ, ◌+◌, ◌*◌, ◌%◌, ◌^◌, ◌<◌, ◌≡◌, refl, arith, false, length, le→ltb, le→leb}
use fast_stdb.Common.Memory.{slice, length-slice}
use fast_stdb.Storage.Iovec.{IovecBlock, block_size}
use fast_stdb.Storage.Volume.Append.{loaded}
use fast_stdb.Storage.MemStore.{MemStore, index, read_iovec_block, exists, call, memstore_base}
use fast_stdb.Storage.MemStore.Blocks.{Sized, Reads, index_lem, filled_lem, read-block_of}

-- In a store whose buffer holds as many blocks as are counted, less than 2 ^ 20, none of which is
-- removed, the address that lies 2 ^ 20 behind that of a block does not exist, and yet it is read as
-- that block.
pub read_iovec_block-wraps :
    (ix : ℕ) (s : MemStore)
    → Sized s
    → s.removed_pos ≡ 0
    → ix < s.write_pos
    → (exists (ix + 2 ^ 20 + memstore_base) s ≡ false)
      × (b : IovecBlock) × Reads (ix + memstore_base) s b
      × Reads (ix + 2 ^ 20 + memstore_base) s b
unfolding read_iovec_block exists
read_iovec_block-wraps ix s h all lt =
    let place : index (ix + 2 ^ 20 + memstore_base) ≡ ix + 2 ^ 20 =
      index_lem (ix + 2 ^ 20) (omega (arith, h.small)) in
    let offset : block_size * (ix + 2 ^ 20) % 2 ^ 32 ≡ block_size * ix = omega (arith, h.small) in
    (
      rw
          (
            place,
            le→leb s.removed_pos (ix + 2 ^ 20) (omega arith),
            le→ltb (ix + 2 ^ 20) s.write_pos (omega (arith, h.small)),
          )
          refl,
      loaded (slice (block_size * ix) block_size s.buffer),
      read-block_of ix s h (omega arith) lt,
      (
        record s { read_callback = call (ix + 2 ^ 20) s.read_callback },
        rw
            (
              place,
              offset,
              le→ltb (length s.buffer) ((block_size * ix + block_size) % 2 ^ 32)
                  (omega (arith, h.sized, h.small)),
              le→ltb (ix + 2 ^ 20) s.removed_pos (omega arith),
              le→ltb (length s.buffer) (block_size * ix + block_size)
                  (omega (arith, h.sized, h.small)),
              filled_lem (slice (block_size * ix) block_size s.buffer)
                  (length-slice (block_size * ix) block_size s.buffer (omega (arith, h.sized))),
            )
            refl,
      ),
    )
