-- ===== src/Compression/Block/Invariant.antt =====
-- What a block holds: the state of a `DataBlockWriter` for the samples that were put into it.
use fast_stdb.Common.{ℕ, ◌+◌, ◌*◌, ◌%◌, ◌<◌, ◌≤◌, ◌≡◌, List, [], ◌++◌, length, All, ◌⊎◌}
use fast_stdb.Compression.Predictor.{Predictor, new_predictor, predictor_n}
use fast_stdb.Compression.Block.{BlockWriter}
use fast_stdb.Compression.Block.Layout.{
  Sample, ts_of, values_of, IsSmall, header, chunks_bytes, plain_bytes, end_prev, end_predictor,
}

abbrev pub first_predictor : Predictor
first_predictor = new_predictor predictor_n

-- Sixteen samples of 64-bit numbers.
abbrev pub IsChunk : List Sample → Type 0
IsChunk c = (length c ≡ 16) × All IsSmall c

-- The first elements of a write buffer of sixteen.
abbrev pub Buffers : List ℕ → List ℕ → Type 0
Buffers writebuf xs = (spare : List ℕ) × (writebuf ≡ xs ++ spare) × (length writebuf ≡ 16)

-- The chunks `cs` are compressed, `buf` waits in the write buffers, `tail` is plain, and `junk` is
-- what a failed `put` left behind the tail.
pub record Holds (size id : ℕ) (cs : List (List Sample)) (buf tail : List Sample) (junk : List ℕ)
    (b : BlockWriter) : Type 0 where
  pub nchunks_at : b.nchunks ≡ 2
  pub ntail_at : b.ntail ≡ 4
  pub bytes :
      b.stream.written
      ≡ header
          (length cs)
          (length tail)
          id
          (chunks_bytes 0 first_predictor cs ++ (plain_bytes tail ++ junk))
  pub bounded : length b.stream.written + b.stream.room ≡ size
  pub stream_even : b.stream.cnt % 2 ≡ 0
  pub last_ts : b.ts_stream.prev ≡ end_prev 0 cs
  pub predicts : b.val_stream.predictor ≡ end_predictor first_predictor cs
  pub values_even : b.val_stream.nelements % 2 ≡ 0
  pub index : b.write_index ≡ 16 * length cs + length buf
  pub short : length buf ≤ 15
  pub ts_buffer : Buffers b.ts_writebuf (ts_of buf)
  pub val_buffer : Buffers b.val_writebuf (values_of buf)
  pub chunks_whole : All IsChunk cs
  pub buf_small : All IsSmall buf
  pub tail_small : All IsSmall tail

-- A writer compresses while there is room for a chunk, and has no buffered samples afterwards.
pub data Phase (room : ℕ) : List Sample → List Sample → List ℕ → Type 0 where
  compressing : (buf : List Sample) → 304 ≤ room → Phase room buf [] []
  closing :
      (tail : List Sample) (junk : List ℕ)
      → room < 304
      → (junk ≡ []) ⊎ (room < 8)
      → Phase room [] tail junk
