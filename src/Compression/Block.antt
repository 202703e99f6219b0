-- ===== src/Compression/Block.antt =====
-- `DataBlockWriter` and `DataBlockReader` of faststdb/storage/compression.cc: a block is a header
-- of fourteen bytes, chunks of sixteen compressed samples, and a tail of plain samples. A value is
-- the bit pattern of a double. Assertions are taken to be compiled out.
pub mod Layout
pub mod Invariant
pub mod Put
pub mod Flush
pub mod Tail
pub mod Commit
pub mod History
pub mod Open
pub mod Read
pub mod RoundTrip
pub mod Puts
pub mod Count
use fast_stdb.Common.{
  ℕ, zero, suc, ◌+◌, ◌-◌, ◌*◌, ◌/◌, ◌%◌, ◌^◌, bit_and, Bool, true, false, Option, none, some, List,
  [], ◌∷◌, ltb, ◌==◌, ◌&&◌, not, if◌then◌else◌, length, get_or, set, replicate, take, drop,
}
use fast_stdb.Compression.Stream.{
  Writer, Reader, open_writer, open_reader, put_raw, allocate, store16, load16, space_left, size,
  empty, read_raw, take_le, ◌and_then◌,
}
use fast_stdb.Compression.DeltaDelta
use fast_stdb.Compression.DeltaDelta.{
  DeltaWriter, DeltaReader, open_delta_writer, open_delta_reader,
}
use fast_stdb.Compression.Fcm
use fast_stdb.Compression.Fcm.{FcmWriter, FcmReader, open_fcm_writer, open_fcm_reader}

-- The codes of `common::Status` that the blocks answer with.
pub data Status : Type 0 where
  ok overflow no_data : Status

abbrev pub chunk_size : ℕ
chunk_size = 16

abbrev pub header_size : ℕ
header_size = 14

abbrev pub faststdb_version : ℕ
faststdb_version = 101

-- `nchunks` and `ntail` are the pointers `nchunks_` and `ntail_`, as positions in the block.
pub record BlockWriter : Type 0 where
  pub stream : Writer
  pub ts_stream : DeltaWriter
  pub val_stream : FcmWriter
  pub write_index : ℕ
  pub ts_writebuf : List ℕ
  pub val_writebuf : List ℕ
  pub nchunks : ℕ
  pub ntail : ℕ

-- What the buffer holds where the two counts come to stand.
pub record Stale : Type 0 where
  pub stale_nchunks : List ℕ
  pub stale_ntail : List ℕ

-- The constructor, over a buffer that is not cleared; `none` is LOG(FATAL) on a buffer that cannot
-- hold the header.
unfoldable pub open_block : Stale → ℕ → ℕ → Option BlockWriter
open_block stale id bytes =
    let (success, w) = put_raw 2 faststdb_version (open_writer bytes) in
    elim (allocate stale.stale_nchunks w) [
      | none ↦ none
      | some (nchunks, w') ↦ elim (allocate stale.stale_ntail w') [
        | none ↦ none
        | some (ntail, w'') ↦
            let (success', w₃) = put_raw 8 id w'' in
            if success' && success
            then some (record {
              stream = store16 nchunks 0 (store16 ntail 0 w₃);
              ts_stream = open_delta_writer;
              val_stream = open_fcm_writer;
              write_index = 0;
              ts_writebuf = replicate chunk_size 0;
              val_writebuf = replicate chunk_size 0;
              nchunks = nchunks;
              ntail = ntail;
            })
            else none
      ]
    ]

-- `MARGIN`, the worst case for a chunk.
abbrev pub margin : ℕ
margin = 10 * 16 + 9 * 16

unfoldable pub room_for_chunk : BlockWriter → Bool
room_for_chunk b = not (ltb (space_left b.stream) margin)

-- `*p += 1` for a pointer to a u16.
abbrev pub increment16 : ℕ → Writer → Writer
increment16 at w = store16 at ((load16 at w.written + 1) % 2 ^ 16) w

-- `put` with a full write buffer.
unfoldable pub flush_values : BlockWriter → Bool × FcmWriter × Writer → Status × BlockWriter
flush_values b (true, val, w) =
    (ok, record b { val_stream = val; stream = increment16 b.nchunks w })
flush_values b (false, val, w) = (overflow, record b { val_stream = val; stream = w })

unfoldable pub flush_chunk : BlockWriter → Bool × DeltaWriter × Writer → Status × BlockWriter
unfolding flush_values
flush_chunk b (true, ts, w) =
    flush_values (record b { ts_stream = ts }) (Fcm.tput b.val_writebuf b.val_stream w)
flush_chunk b (false, ts, w) = (overflow, record b { ts_stream = ts; stream = w })

-- `put` where there is room for a chunk.
unfoldable pub put_buffered : ℕ → ℕ → BlockWriter → Status × BlockWriter
unfolding flush_chunk
put_buffered ts value b =
    let b' = record b {
      ts_writebuf = set b.ts_writebuf (bit_and b.write_index 0xF) ts;
      val_writebuf = set b.val_writebuf (bit_and b.write_index 0xF) value;
      write_index = b.write_index + 1;
    } in
    if bit_and b'.write_index 0xF == 0
    then flush_chunk b' (DeltaDelta.tput b'.ts_writebuf b'.ts_stream b'.stream)
    else (ok, b')

-- `put` to the end of the stream, without compression.
unfoldable pub put_plain : ℕ → ℕ → BlockWriter → Status × BlockWriter
put_plain ts value b =
    let (done, w) = (put_raw 8 ts b.stream and_then put_raw 8 value) in
    if done
    then (ok, record b { stream = increment16 b.ntail w })
    else (overflow, record b { stream = w })

unfoldable pub put : ℕ → ℕ → BlockWriter → Status × BlockWriter
unfolding put_buffered put_plain
put ts value b = if room_for_chunk b then put_buffered ts value b else put_plain ts value b

-- The loop of `commit` over the write buffer, which stops at the first sample that does not fit.
unfoldable pub commit_tail : ℕ → ℕ → BlockWriter → BlockWriter
commit_tail zero ix b = b
commit_tail (suc n) ix b =
    let (success, w) = put_raw 8 (get_or b.ts_writebuf ix 0) b.stream in
    let (success', w') = put_raw 8 (get_or b.val_writebuf ix 0) w in
    let b' = record b { stream = increment16 b.ntail w'; write_index = b.write_index - 1 } in
    let more = commit_tail n (ix + 1) b' in
    if success' && success then more else record b { stream = w' }

-- `commit`: the size of the block and the block; `none` is LOG(FATAL).
unfoldable pub commit : BlockWriter → Option (ℕ × BlockWriter)
unfolding commit_tail
commit b =
    let nchunks = b.write_index / chunk_size in
    let buftail = b.write_index % chunk_size in
    let b' = commit_tail buftail 0 b in
    let w = store16 b.nchunks (nchunks % 2 ^ 16) b'.stream in
    let done = some (size w, record b' { stream = w }) in
    if not (buftail == 0) && not (load16 b.ntail b.stream.written == 0) then none else done

-- `read_tail_elements` copies the write buffer; `get_write_index` counts the samples.
unfoldable pub read_tail_elements : BlockWriter → List ℕ × List ℕ
read_tail_elements b =
    let tailsize = bit_and b.write_index 0xF in
    (take tailsize b.ts_writebuf, take tailsize b.val_writebuf)

unfoldable pub get_write_index : BlockWriter → ℕ
get_write_index b =
    if not (empty b.stream) then load16 b.ntail b.stream.written + b.write_index else 0

-- The header's fields, read from the bytes of a block.
unfoldable pub get_main_size : List ℕ → ℕ
get_main_size block = load16 2 block * chunk_size

unfoldable pub get_total_size : List ℕ → ℕ
get_total_size block = load16 4 block + load16 2 block * chunk_size

pub record BlockReader : Type 0 where
  pub block : List ℕ
  pub stream : Reader
  pub ts_stream : DeltaReader
  pub val_stream : FcmReader
  pub read_buffer : List ℕ
  pub read_index : ℕ

unfoldable pub open_block_reader : List ℕ → BlockReader
open_block_reader block = record {
  block = block;
  stream = open_reader (drop header_size block);
  ts_stream = open_delta_reader;
  val_stream = open_fcm_reader;
  read_buffer = replicate chunk_size 0;
  read_index = 0;
}

-- The value of a chunk's sample, behind its timestamp.
unfoldable pub read_chunk_value : ℕ → BlockReader → Option (Status × ℕ × ℕ × BlockReader)
read_chunk_value chunk_index b = elim (Fcm.next b.val_stream b.stream) [
  | none ↦ none
  | some (value, val, r) ↦
      some
        (ok, get_or b.read_buffer chunk_index 0, value, record b { val_stream = val; stream = r })
]

-- At the start of a chunk all its timestamps are read.
unfoldable pub read_timestamps : BlockReader → Option BlockReader
read_timestamps b = elim (DeltaDelta.next_many chunk_size b.ts_stream b.stream) [
  | none ↦ none
  | some (tss, d, r) ↦ some (record b { read_buffer = tss; ts_stream = d; stream = r })
]

unfoldable pub read_chunk : ℕ → BlockReader → Option (Status × ℕ × ℕ × BlockReader)
unfolding read_chunk_value read_timestamps
read_chunk chunk_index b =
    if chunk_index == 0
    then (elim (read_timestamps b) [ none ↦ none | some b' ↦ read_chunk_value chunk_index b' ])
    else read_chunk_value chunk_index b

-- A sample of the tail.
unfoldable pub read_plain : BlockReader → Option (Status × ℕ × ℕ × BlockReader)
read_plain b = elim (read_raw 8 b.stream) [
  | none ↦ none
  | some (ts, r) ↦ elim (read_raw 8 r) [
    | none ↦ none
    | some (value, r') ↦ some (ok, ts, value, record b { stream = r' })
  ]
]

-- `next`: a status, a timestamp and a value; `none` is LOG(FATAL) in a stream.
unfoldable pub next : BlockReader → Option (Status × ℕ × ℕ × BlockReader)
unfolding read_chunk read_plain
next b =
    let b' = record b { read_index = (b.read_index + 1) % 2 ^ 32 } in
    if ltb b.read_index (get_main_size b.block)
    then read_chunk (bit_and b.read_index 0xF) b'
    else (if ltb b.read_index (get_total_size b.block)
        then read_plain b'
        else some (no_data, 0, 0, b))

unfoldable pub nelements : BlockReader → ℕ
nelements b = get_total_size b.block

-- `get_block_id` and `get_block_version`.
unfoldable pub get_id : BlockReader → Option ℕ
get_id b = elim (take_le 8 (drop 6 b.block)) [ none ↦ none | some (id, rest) ↦ some id ]

unfoldable pub version : BlockReader → ℕ
version b = load16 0 b.block
