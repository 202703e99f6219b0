-- ===== src/Storage/MemStore/Blocks.antt =====
-- Blocks in memory that are written and read back.
use fast_stdb.Common.{
  ℕ, ◌+◌, ◌*◌, ◌%◌, ◌^◌, ◌<◌, ◌≤◌, ◌≡◌, refl, ap, ◌∙◌, arith, true, some, List, ◌++◌, length,
  length-append, le→ltb, lt→ltb, le→leb, subst,
}
use fast_stdb.Common.Memory.{slice, length-slice, slice-append_left, slice-append_right}
use fast_stdb.Storage.Status.{ok}
use fast_stdb.Storage.Iovec.{IovecBlock, block_size, allocated_block, set_addr}
use fast_stdb.Storage.Iovec.Shape.{Holds}
use fast_stdb.Storage.Volume.{block_bytes}
use fast_stdb.Storage.Volume.Blocks.{take-all, length-block_bytes}
use fast_stdb.Storage.Volume.Append.{loaded, loaded_lem}
use fast_stdb.Storage.MemStore.{
  MemStore, index, filled, read_iovec_block, append_block, exists, call, memstore_base,
}

-- The buffer holds the blocks that have been written, less than 4 GiB.
pub record Sized (s : MemStore) : Type 0 where
  pub sized : length s.buffer ≡ s.write_pos * block_size
  pub small : s.write_pos < 2 ^ 20
  pub removed : s.removed_pos ≤ s.write_pos

slice-all : (l : List ℕ) → length l ≡ block_size → slice 0 block_size l ≡ l
unfolding slice
slice-all l e = take-all block_size l (omega arith)

pub index_lem : (ix : ℕ) → ix < 2 ^ 32 → index (ix + memstore_base) ≡ ix
unfolding index
index_lem ix h = omega arith

pub filled_lem : (bytes : List ℕ) → length bytes ≡ block_size → filled bytes ≡ loaded bytes
unfolding filled allocated_block loaded
filled_lem bytes e = loaded_lem bytes e

pub read-block_of :
    (ix : ℕ) (s : MemStore)
    → Sized s
    → s.removed_pos ≤ ix
    → ix < s.write_pos
    → (s' : MemStore) × (read_iovec_block (ix + memstore_base) s
        ≡ some ((ok, some (loaded (slice (block_size * ix) block_size s.buffer))), s'))
unfolding read_iovec_block
read-block_of ix s h le lt =
    let place : index (ix + memstore_base) ≡ ix = index_lem ix (omega (arith, h.small)) in
    let offset : block_size * ix % 2 ^ 32 ≡ block_size * ix = omega (arith, h.small) in
    (
      record s { read_callback = call ix s.read_callback },
      rw
          (
            place,
            offset,
            le→ltb (length s.buffer) ((block_size * ix + block_size) % 2 ^ 32)
                (omega (arith, h.sized, h.small)),
            le→ltb ix s.removed_pos le,
            le→ltb (length s.buffer) (block_size * ix + block_size)
                (omega (arith, h.sized, h.small)),
            filled_lem (slice (block_size * ix) block_size s.buffer)
                (length-slice (block_size * ix) block_size s.buffer (omega (arith, h.sized))),
          )
          refl,
    )

-- What the read of an address gives, without the state.
abbrev pub Reads : ℕ → MemStore → IovecBlock → Type 0
Reads addr s b = (s' : MemStore) × (read_iovec_block addr s ≡ some ((ok, some b), s'))

appended : IovecBlock → MemStore → MemStore
appended b s = record s {
  buffer = s.buffer ++ block_bytes b;
  append_callback = call (s.write_pos + memstore_base) s.append_callback;
  write_pos = (s.write_pos + 1) % 2 ^ 32;
}

appended-Sized :
    (k : ℕ) (b : IovecBlock) (s : MemStore)
    → Sized s
    → Holds k b
    → s.write_pos + 1 < 2 ^ 20
    → Sized (appended b s)
unfolding appended
appended-Sized k b s h holds room = record {
  sized =
      length-append s.buffer (block_bytes b)
      ∙ omega (arith, length-block_bytes k b holds, h.sized, room);
  small = omega arith;
  removed = omega (arith, h.removed);
}

exists_lem :
    (ix : ℕ) (s : MemStore)
    → ix < 2 ^ 32
    → s.removed_pos ≤ ix
    → ix < s.write_pos
    → exists (ix + memstore_base) s ≡ true
unfolding exists
exists_lem ix s small le lt =
    rw (index_lem ix small, le→leb s.removed_pos ix le, lt→ltb ix s.write_pos lt) refl

read_appended :
    (k : ℕ) (b : IovecBlock) (s : MemStore)
    → Sized s
    → Holds k b
    → s.write_pos + 1 < 2 ^ 20
    → Reads (s.write_pos + memstore_base) (appended b s) (loaded (block_bytes b))
unfolding appended
read_appended k b s h holds room =
    subst (λ bytes. Reads (s.write_pos + memstore_base) (appended b s) (loaded bytes))
      (slice-append_right s.buffer (block_bytes b) 0 block_size (block_size * s.write_pos)
          (omega (arith, h.sized))
        ∙ slice-all (block_bytes b) (length-block_bytes k b holds))
      (read-block_of s.write_pos (appended b s) (appended-Sized k b s h holds room) h.removed
        (omega arith))

read_before :
    (k ix : ℕ) (b : IovecBlock) (s : MemStore)
    → Sized s
    → Holds k b
    → s.write_pos + 1 < 2 ^ 20
    → s.removed_pos ≤ ix
    → ix < s.write_pos
    → Reads
        (ix + memstore_base)
        (appended b s)
        (loaded (slice (block_size * ix) block_size s.buffer))
unfolding appended
read_before k ix b s h holds room le lt =
    subst (λ bytes. Reads (ix + memstore_base) (appended b s) (loaded bytes))
      (slice-append_left s.buffer (block_bytes b) (block_size * ix) block_size
        (omega (arith, h.sized)))
      (read-block_of ix (appended b s) (appended-Sized k b s h holds room) le (omega arith))

-- An append of a block in components to a store whose buffer holds as many blocks as are counted,
-- less than 2 ^ 20 - 1, succeeds: this stays so, the address that is returned exists and is read as the bytes of the block, and
-- every address that was not removed is read as before.
pub append_block-read_iovec_block :
    (k : ℕ) (b : IovecBlock) (s : MemStore)
    → Sized s
    → Holds k b
    → s.write_pos + 1 < 2 ^ 20
    → (addr : ℕ) × (s' : MemStore) × (append_block b s ≡ ((ok, addr), set_addr addr b, s'))
      × Sized s'
      × (exists addr s' ≡ true)
      × Reads addr s' (loaded (block_bytes b))
      × ((ix : ℕ)
          → s.removed_pos ≤ ix
          → ix < s.write_pos
          → (old : IovecBlock) × Reads (ix + memstore_base) s old
            × Reads (ix + memstore_base) s' old)
unfolding append_block appended
append_block-read_iovec_block k b s h holds room =
    let addr : (s.write_pos + memstore_base) % 2 ^ 32 ≡ s.write_pos + memstore_base = omega arith in
    (
      s.write_pos + memstore_base,
      appended b s,
      ap (λ a. ((ok, a), set_addr a b, appended b s)) addr,
      appended-Sized k b s h holds room,
      exists_lem s.write_pos (appended b s) (omega arith) h.removed (omega arith),
      read_appended k b s h holds room,
      λ ix le lt. (
        loaded (slice (block_size * ix) block_size s.buffer),
        read-block_of ix s h le lt,
        read_before k ix b s h holds room le lt,
      ),
    )
