-- ===== src/Storage/MemStore.antt =====
-- `MemStore` of faststdb/storage/block_store.cc: blocks in memory, one after the other, with addresses
-- from 619 on. The callbacks are the lists of the addresses they get, where they are set. `none` is a
-- read behind the buffer.
pub mod Blocks
pub mod Wrap
use fast_stdb.Common.{
  ℕ, ◌+◌, ◌-◌, ◌*◌, ◌%◌, ◌^◌, Bool, Option, none, some, List, [], ◌∷◌, ◌++◌, ltb, leb, ◌&&◌,
  if◌then◌else◌, length, replicate, take, set,
}
use fast_stdb.Common.Memory.{overwrite, slice}
use fast_stdb.Storage.Status.{Status, ok, bad_arg, unavailable}
use fast_stdb.Storage.Iovec.{IovecBlock, allocated_block, block_size, component, set_addr}
use fast_stdb.Storage.Volume.{block_bytes}

abbrev pub memstore_base : ℕ
memstore_base = 619

pub record MemStore : Type 0 where
  pub buffer : List ℕ
  pub append_callback : Option (List ℕ)
  pub read_callback : Option (List ℕ)
  pub write_pos : ℕ
  pub removed_pos : ℕ

unfoldable pub new_store : Option (List ℕ) → Option (List ℕ) → MemStore
new_store append_cb read_cb = record {
  buffer = [];
  append_callback = append_cb;
  read_callback = read_cb;
  write_pos = 0;
  removed_pos = 0;
}

unfoldable pub call : ℕ → Option (List ℕ) → Option (List ℕ)
call addr none = none
call addr (some addrs) = some (addrs ++ addr ∷ [])

unfoldable pub resize : ℕ → List ℕ → List ℕ
resize n l = take n (l ++ replicate (n - length l) 0)

unfoldable pub remove : ℕ → MemStore → ℕ × MemStore
remove n s =
    let removed = n % 2 ^ 32 in
    (
      (n + memstore_base) % 2 ^ 64,
      if ltb (length s.buffer) removed
          then record s {
            buffer = resize (removed * block_size % 2 ^ 32) s.buffer;
            write_pos = removed;
            removed_pos = removed;
          }
          else record s { removed_pos = removed },
    )

-- The block of an address: a difference of 64-bit numbers.
unfoldable pub index : ℕ → ℕ
index addr = (addr + (2 ^ 64 - memstore_base)) % 2 ^ 64

unfoldable pub filled : List ℕ → IovecBlock
filled bytes = record allocated_block {
  components = set allocated_block.components 0 (overwrite (component allocated_block 0) 0 bytes);
}

-- The offset, and the end that the size of the buffer is compared with, are 32-bit numbers.
unfoldable pub read_iovec_block : ℕ → MemStore → Option ((Status × Option IovecBlock) × MemStore)
read_iovec_block addr s =
    let ix = index addr in
    let offset = block_size * ix % 2 ^ 32 in
    if ltb (length s.buffer) ((offset + block_size) % 2 ^ 32)
    then some ((bad_arg, none), s)
    else if ltb ix s.removed_pos
    then some ((unavailable, none), s)
    else if ltb (length s.buffer) (offset + block_size)
    then none
    else some (
      (ok, some (filled (slice offset block_size s.buffer))),
      record s { read_callback = call ix s.read_callback },
    )

-- The address is a 32-bit number too.
unfoldable pub append_block : IovecBlock → MemStore → (Status × ℕ) × IovecBlock × MemStore
append_block b s =
    let addr = (s.write_pos + memstore_base) % 2 ^ 32 in
    (
      (ok, addr),
      set_addr addr b,
      record s {
        buffer = s.buffer ++ block_bytes b;
        append_callback = call (s.write_pos + memstore_base) s.append_callback;
        write_pos = (s.write_pos + 1) % 2 ^ 32;
      },
    )

unfoldable pub exists : ℕ → MemStore → Bool
exists addr s = leb s.removed_pos (index addr) && ltb (index addr) s.write_pos

unfoldable pub reset_write_pos : ℕ → MemStore → ℕ × MemStore
reset_write_pos pos s = (s.write_pos, record s { write_pos = pos })

unfoldable pub get_top_address : MemStore → ℕ
get_top_address s = memstore_base + s.write_pos
