-- ===== src/Storage/Volume/Append.antt =====
-- Blocks of a volume that are written and read back.
use fast_stdb.Common.{
  ℕ, ◌+◌, ◌*◌, ◌%◌, ◌^◌, ◌<◌, ◌≤◌, ◌≡◌, inl, inr, refl, sym, ap, ◌∙◌, arith, List, [], ◌∷◌, length,
  take, length-replicate, leb, ◌==◌, true, false, le→leb, lt→leb, Bool-cases,
}
use fast_stdb.Common.Memory.{overwrite, slice, length-overwrite, slice-overwrite_self}
use fast_stdb.Storage.Status.{ok, overflow}
use fast_stdb.Storage.Iovec.{
  IovecBlock, block_size, empty_addr, allocated_block, blank_block, get_size,
}
use fast_stdb.Storage.Iovec.Shape.{Holds}
use fast_stdb.Storage.Volume.{
  Volume, block_offset, block_at, block_bytes, Answer, seek_failed, wrote, append_block,
  append_iovec, read_block, read_iovec, written,
}
use native.Mathlib.Decide.{dec_lt}
use fast_stdb.Storage.Volume.Blocks.{
  Mapped, take-all, length-take_le, overwrite-all, length-block_bytes, block_at-overwrite_ne,
  block_at-overwrite_self, length-block_at,
}

-- What `read_block` makes of so many bytes.
unfoldable pub loaded : List ℕ → IovecBlock
loaded bytes = record {
  components = bytes ∷ [] ∷ [] ∷ [] ∷ [];
  pos = block_size;
  addr = empty_addr;
}

pub length-blank_block : length blank_block ≡ block_size
unfolding blank_block
length-blank_block = length-replicate {A = ℕ} block_size 0

pub loaded_lem :
    (bytes : List ℕ)
    → length bytes ≡ block_size
    → loaded (overwrite blank_block 0 bytes) ≡ loaded bytes
loaded_lem bytes e =
    ap loaded (overwrite-all blank_block bytes (omega (arith, e, length-blank_block)))

pub read_iovec-block_at :
    (ix : ℕ) (v : Volume)
    → ix < v.write_pos
    → length (block_at ix v) ≡ block_size
    → read_iovec ix v ≡ (ok, loaded (block_at ix v))
unfolding read_iovec read_block allocated_block loaded get_size block_at
read_iovec-block_at ix v lt full =
    let whole : (length blank_block == block_size) ≡ true = ground (arith, length-blank_block) in
    let within : leb v.write_pos ix ≡ false = ground arith in
    rw (whole, within) (ap (λ (b : IovecBlock). (ok, b)) (loaded_lem (block_at ix v) full))

-- A block at or behind the write position is refused, and nothing is read.
pub read_iovec-overflow : (ix : ℕ) (v : Volume) → v.write_pos ≤ ix → (read_iovec ix v).0 ≡ overflow
unfolding read_iovec read_block allocated_block get_size
read_iovec-overflow ix v le =
    let whole : (length blank_block == block_size) ≡ true = ground (arith, length-blank_block) in
    let behind : leb v.write_pos ix ≡ true = ground arith in rw (whole, behind) refl

pub append_iovec-overflow :
    (answer : Answer) (b : IovecBlock) (v : Volume)
    → v.file_size ≤ v.write_pos
    → append_iovec answer b v ≡ ((overflow, 0), v)
unfolding append_iovec
append_iovec-overflow seek_failed b v full = rw (le→leb v.file_size v.write_pos full) refl
append_iovec-overflow (wrote n) b v full = rw (le→leb v.file_size v.write_pos full) refl

appended : ℕ → IovecBlock → Volume → Volume
appended n b v = record (written n (block_bytes b) v) { write_pos = (v.write_pos + 1) % 2 ^ 32 }

append_iovec-ok :
    (b : IovecBlock) (v : Volume)
    → v.write_pos < v.file_size
    → append_iovec (wrote block_size) b v ≡ ((ok, v.write_pos), appended block_size b v)
unfolding append_iovec appended
append_iovec-ok b v lt = rw (lt→leb v.write_pos v.file_size lt) refl

-- A volume after a write: it is mapped, and the blocks that were there are read as before.
abbrev pub Keeps : Volume → Volume → Type 0
Keeps v v' =
    Mapped v'
    × (v'.file_size ≡ v.file_size)
    × (v.write_pos ≤ v'.write_pos)
    × ((ix : ℕ) → ix < v.write_pos → read_iovec ix v' ≡ read_iovec ix v)

written-Keeps :
    (n m : ℕ) (k : ℕ) (b : IovecBlock) (v : Volume)
    → Mapped v
    → Holds k b
    → v.write_pos < v.file_size
    → v.write_pos ≤ m
    → m ≤ v.file_size
    → Keeps v (record (written n (block_bytes b) v) { write_pos = m })
unfolding written
written-Keeps n m k b v h holds lt le le' =
    let src = take n (block_bytes b) in
    let fits : length src ≤ block_size =
      omega (arith, length-take_le n (block_bytes b), length-block_bytes k b holds) in
    (
      record {
        sized = length-overwrite v.memory (block_offset v.write_pos) src ∙ h.sized;
        small = h.small;
        within = le';
      },
      refl,
      le,
      λ ix before.
          let same =
            block_at-overwrite_ne v v.write_pos ix m src
              (overwrite v.memory (block_offset v.write_pos) src) (omega (arith, h.small))
              (omega (arith, h.small)) (λ e. omega (arith, e, before)) fits refl in
          let full = length-block_at ix v h (omega arith) in
          read_iovec-block_at ix (record (written n (block_bytes b) v) { write_pos = m })
            (omega arith) (ap length same ∙ full)
          ∙ ap (λ (l : List ℕ). (ok, loaded l)) same
          ∙ sym (read_iovec-block_at ix v before full),
    )

-- Whatever the operating system answers, an append of a block in components to a volume that is
-- mapped whole and has at most 2 ^ 20 blocks keeps the volume mapped and never moves its write
-- position back, and every block before the write position is read as it was.
pub append_iovec-Keeps :
    (answer : Answer) (k : ℕ) (b : IovecBlock) (v : Volume)
    → Mapped v
    → Holds k b
    → Keeps v (append_iovec answer b v).1
unfolding append_iovec written
append_iovec-Keeps seek_failed k b v h holds = elim (dec_lt v.write_pos v.file_size) [
  | yes lt ↦ rw (lt→leb v.write_pos v.file_size lt) (h, refl, omega arith, λ ix before. refl)
  | no full ↦
      rw (le→leb v.file_size v.write_pos (omega arith)) (h, refl, omega arith, λ ix before. refl)
]
append_iovec-Keeps (wrote n) k b v h holds = elim (dec_lt v.write_pos v.file_size) [
  | no full ↦
      rw (le→leb v.file_size v.write_pos (omega arith)) (h, refl, omega arith, λ ix before. refl)
  | yes lt ↦ (elim (Bool-cases (n == block_size)) [
    | inl all ↦
        rw (lt→leb v.write_pos v.file_size lt, all)
          (written-Keeps n ((v.write_pos + 1) % 2 ^ 32) k b v h holds lt (omega (arith, h.small))
            (omega (arith, h.small)))
    | inr part ↦
        rw (lt→leb v.write_pos v.file_size lt, part)
          (written-Keeps n v.write_pos k b v h holds lt (omega arith) h.within)
  ])
]

block_at-appended :
    (k : ℕ) (b : IovecBlock) (v : Volume)
    → Mapped v
    → Holds k b
    → v.write_pos < v.file_size
    → block_at v.write_pos (appended block_size b v) ≡ block_bytes b
unfolding appended written
block_at-appended k b v h holds lt =
    let all = take-all block_size (block_bytes b) (omega (arith, length-block_bytes k b holds)) in
    block_at-overwrite_self v ((v.write_pos + 1) % 2 ^ 32) (block_bytes b)
      (overwrite v.memory (block_offset v.write_pos) (take block_size (block_bytes b))) h lt
      (length-block_bytes k b holds) (ap (overwrite v.memory (block_offset v.write_pos)) all)

-- An append of a block in components to a volume with a free block, mapped whole and of at most
-- 2 ^ 20 blocks, that the operating system carries out, returns the write position, which it moves by
-- one; the block is then read back with the bytes of its components and padding, and the blocks
-- before it are read as they were.
pub append_iovec-read_iovec :
    (k : ℕ) (b : IovecBlock) (v : Volume)
    → Mapped v
    → Holds k b
    → v.write_pos < v.file_size
    → (v' : Volume) × (append_iovec (wrote block_size) b v ≡ ((ok, v.write_pos), v'))
      × (v'.write_pos ≡ v.write_pos + 1)
      × (read_iovec v.write_pos v' ≡ (ok, loaded (block_bytes b)))
      × Keeps v v'
unfolding appended
append_iovec-read_iovec k b v h holds lt =
    let same = block_at-appended k b v h holds lt in
    let keeps =
      written-Keeps block_size ((v.write_pos + 1) % 2 ^ 32) k b v h holds lt
        (omega (arith, h.small)) (omega (arith, h.small)) in
    (
      appended block_size b v,
      append_iovec-ok b v lt,
      omega (arith, h.small),
      read_iovec-block_at v.write_pos (appended block_size b v) (omega (arith, h.small))
            (ap length same ∙ length-block_bytes k b holds)
          ∙ ap (λ (l : List ℕ). (ok, loaded l)) same,
      keeps,
    )

-- On a volume of more than 2 ^ 20 blocks whose write position is 2 ^ 20, the offset of the next block
-- is that of the first: an append of 4096 bytes reports success, and block 0 holds the new bytes, if
-- the mapping has at least one block.
pub append_block-wraps :
    (source : List ℕ) (v : Volume)
    → v.write_pos ≡ 2 ^ 20
    → v.write_pos < v.file_size
    → length source ≡ block_size
    → block_size ≤ length v.memory
    → ((append_block source v).0 ≡ (ok, 2 ^ 20)) × (block_at 0 (append_block source v).1 ≡ source)
unfolding append_block block_at block_offset
append_block-wraps source v e lt full fits =
    let at : v.write_pos * block_size % 2 ^ 32 ≡ 0 = omega arith in
    rw (lt→leb v.write_pos v.file_size lt) (
      ap (λ (n : ℕ). (ok, n)) e,
      ap (λ (o : ℕ). slice 0 block_size (overwrite v.memory o (take block_size source))) at
          ∙ ap (λ (l : List ℕ). slice 0 block_size (overwrite v.memory 0 l))
              (take-all block_size source (omega arith))
          ∙ slice-overwrite_self v.memory 0 source block_size (omega arith) (omega arith),
    )
