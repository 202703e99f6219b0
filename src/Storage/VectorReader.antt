-- ===== src/Storage/VectorReader.antt =====
-- `IOVecVByteStreamReader` of faststdb/storage/compression.h: the variable byte reader over a block in
-- components, for values of eight bytes. `none` is LOG(FATAL), or an access out of range.
pub mod Refine
pub mod Next
use fast_stdb.Common.{
  ℕ, zero, suc, ◌+◌, ◌-◌, ◌*◌, ◌/◌, ◌%◌, ◌^◌, bit_and, bit_or, Bool, Option, none, some, ltb, ◌==◌,
  ◌&&◌, not, if◌then◌else◌,
}
use fast_stdb.Compression.VByte.{chunk_size}
use fast_stdb.Storage.Iovec.{IovecBlock, get, bytes_to_read}

pub record VectorReader : Type 0 where
  pub block : IovecBlock
  pub pos : ℕ
  pub cnt : ℕ
  pub ctrl : ℕ
  pub scut : ℕ

unfoldable pub open_reader : IovecBlock → VectorReader
open_reader block = record { block = block; pos = 0; cnt = 0; ctrl = 0; scut = 0 }

unfoldable pub space_left : VectorReader → ℕ
space_left r = bytes_to_read r.pos r.block

-- `block_->get(pos_)`, and the position moves on.
unfoldable pub get_byte : VectorReader → Option (ℕ × VectorReader)
get_byte r = elim (get r.pos r.block) [
  | none ↦ none
  | some byte ↦ some (byte, record r { pos = (r.pos + 1) % 2 ^ 32 })
]

-- `read_raw` of one byte.
unfoldable pub read_byte : VectorReader → Option (ℕ × VectorReader)
read_byte r = if ltb ((r.block.pos + 2 ^ 32 - r.pos) % 2 ^ 32) 1 then none else get_byte r

-- The loop of `next` that gathers `n` bytes, the first one at bit `i`.
unfoldable pub read_bytes : ℕ → ℕ → ℕ → VectorReader → Option (ℕ × VectorReader)
read_bytes zero i acc r = some (acc, r)
read_bytes (suc n) i acc r = elim (get_byte r) [
  | none ↦ none
  | some (byte, r') ↦ read_bytes n (i + 8) (bit_or acc (byte * 2 ^ i % 2 ^ 64)) r'
]

unfoldable pub read_value : ℕ → VectorReader → Option (ℕ × VectorReader)
read_value bytelen r = if ltb (space_left r) bytelen then none else read_bytes bytelen 0 0 r

-- The control byte has been read: its low half is the length of the first value.
unfoldable pub read_first : ℕ → VectorReader → Option (ℕ × VectorReader)
read_first ctrl r =
    let r' : VectorReader = record r { ctrl = ctrl } in
    if ctrl / 2 ^ 4 == 0xF
    then some (0, record r' { scut = chunk_size - 1 })
    else read_value (bit_and ctrl 0xF) r'

unfoldable pub first_of_pair : Option (ℕ × VectorReader) → Option (ℕ × VectorReader)
first_of_pair none = none
first_of_pair (some (ctrl, r)) = read_first ctrl r

unfoldable pub next : VectorReader → Option (ℕ × VectorReader)
next r =
    let r' : VectorReader = record r { cnt = (r.cnt + 1) % 2 ^ 32 } in
    if r.ctrl == 0xFF && not (r.scut == 0)
    then some (0, record r' { scut = r.scut - 1 })
    else if r.cnt % 2 == 0
    then first_of_pair (read_byte r')
    else read_value (r'.ctrl / 2 ^ 4) r'
