-- ===== src/Compression/Block/Flush.antt =====
-- `put` of a chunk's last sample: the write buffers are compressed into the stream.
use fast_stdb.Common.{
  ℕ, ◌+◌, ◌%◌, ◌^◌, ◌<◌, ◌≤◌, ◌≡◌, refl, sym, ap, ◌∙◌, arith, List, [], ◌∷◌, ◌++◌, length,
  length-append, append_assoc, append-nil, All, All-append, set, true, bit_and, length-set, eq→==,
}
use fast_stdb.Common.Bits.{bit_and-mask}
use fast_stdb.Compression.Stream.{Writer, emit, IsU64}
use fast_stdb.Compression.Stream.Laws.{room-emit, cnt-emit, written-emit}
use fast_stdb.Compression.DeltaDelta
use fast_stdb.Compression.DeltaDelta.{last_or}
use fast_stdb.Compression.DeltaDelta.RoundTrip.{delta_bytes, tput-delta_bytes}
use fast_stdb.Compression.Fcm
use fast_stdb.Compression.Fcm.{encode_all}
use fast_stdb.Compression.Fcm.Chunk.{fcm_bytes, tput-fcm_bytes}
use fast_stdb.Compression.VByte.Chunk.{IsEven-length}
use fast_stdb.Compression.Block.{BlockWriter, ok, put, flush_chunk, flush_values, increment16}
use fast_stdb.Compression.Block.Layout.{
  Sample, ts_of, values_of, IsSmall, header, chunks_bytes, chunks_bytes-snoc, plain_bytes, end_prev,
  end_prev-snoc, end_predictor, end_predictor-snoc, sample_bytes, length-sample_bytes, length-map,
  header-append, length-header,
}
use fast_stdb.Compression.Block.Invariant.{Holds, IsChunk, first_predictor}
use fast_stdb.Compression.Predictor.{Predictor}
use fast_stdb.Compression.Block.Layout.{increment16-keeps, increment16-nchunks, length-chunks_bytes}
use fast_stdb.Compression.Block.Put.{Buffers-full, buffered, Buffers-more, put_buffered_lem}

pub All-map : (ss : List Sample) → All IsSmall ss → All IsU64 (values_of ss)
All-map [] h = tt
All-map (s ∷ ss) h = (h.0.1, All-map ss h.1)

-- The sixteenth sample: both codecs write their chunk, and the count of chunks goes up.
module _ (size id : ℕ) (cs : List (List Sample)) (buf : List Sample) (b : BlockWriter)
    (h : Holds size id cs buf [] [] b) (s : Sample) (full : length buf ≡ 15) where
  abbrev last_chunk : List Sample
  last_chunk = buf ++ s ∷ []

  abbrev delta_part : List ℕ
  delta_part = delta_bytes b.ts_stream.prev (ts_of last_chunk)

  abbrev value_part : List ℕ
  value_part = fcm_bytes (values_of last_chunk) b.val_stream.predictor

  abbrev pub flushed : BlockWriter
  flushed = record (buffered s buf b) {
    ts_stream = record b.ts_stream { prev = last_or b.ts_stream.prev (ts_of last_chunk) };
    val_stream = record b.val_stream {
      predictor = (encode_all (values_of last_chunk) b.val_stream.predictor).1;
    };
    stream = increment16 b.nchunks (emit (emit b.stream delta_part) value_part);
  }

  sixteen : length last_chunk ≡ 16
  sixteen = omega (arith, length-append buf (s ∷ []))

  part_lengths : length delta_part + length value_part ≤ 282
  unfolding sample_bytes
  part_lengths = omega (
    arith,
    length-sample_bytes b.ts_stream.prev b.val_stream.predictor last_chunk sixteen,
    length-append delta_part value_part,
  )

  delta_tput :
      304 ≤ b.stream.room
      → DeltaDelta.tput (set b.ts_writebuf (length buf) (s.0)) b.ts_stream b.stream ≡ (
        true,
        record b.ts_stream { prev = last_or b.ts_stream.prev (ts_of last_chunk) },
        emit b.stream delta_part,
      )
  delta_tput room =
      ap (λ (l : List ℕ). DeltaDelta.tput l b.ts_stream b.stream)
        (Buffers-full _ (ts_of last_chunk) (length-map (λ t. t.0) last_chunk ∙ sixteen)
          (Buffers-more size id cs buf b h s).0)
      ∙ tput-delta_bytes (ts_of last_chunk) b.ts_stream b.stream
          (length-map (λ t. t.0) last_chunk ∙ sixteen) (omega (arith, part_lengths))

  value_tput :
      304 ≤ b.stream.room
      → All IsSmall last_chunk
      → Fcm.tput (set b.val_writebuf (length buf) (s.1)) b.val_stream (emit b.stream delta_part) ≡ (
        true,
        record b.val_stream {
          predictor = (encode_all (values_of last_chunk) b.val_stream.predictor).1;
        },
        emit (emit b.stream delta_part) value_part,
      )
  value_tput room small =
      ap (λ (l : List ℕ). Fcm.tput l b.val_stream (emit b.stream delta_part))
        (Buffers-full _ (values_of last_chunk) (length-map (λ t. t.1) last_chunk ∙ sixteen)
          (Buffers-more size id cs buf b h s).1)
      ∙ tput-fcm_bytes (values_of last_chunk) b.val_stream (emit b.stream delta_part)
          (IsEven-length (values_of last_chunk)
            (omega (arith, length-map (λ t. t.1) last_chunk, sixteen)))
          (All-map last_chunk small) h.values_even
          (ap (λ (n : ℕ). n % 2) (cnt-emit b.stream delta_part) ∙ h.stream_even)
          (omega (arith, part_lengths, room-emit b.stream delta_part))

  pub put-flushed : 304 ≤ b.stream.room → All IsSmall last_chunk → put (s.0) (s.1) b ≡ (ok, flushed)
  unfolding flush_chunk flush_values
  put-flushed room small =
      put_buffered_lem size id cs buf b h s room
      ∙ rw
          (eq→== (bit_and (b.write_index + 1) 0xF) 0
            (bit_and-mask 4 (b.write_index + 1) ∙ omega (arith, h.index)))
          (rw (delta_tput room, value_tput room small) refl)

  -- The bytes before the count of chunks goes up.
  written_parts :
      (emit (emit b.stream delta_part) value_part).written
      ≡ header
          (length cs)
          0
          id
          (chunks_bytes 0 first_predictor (cs ++ last_chunk ∷ []) ++ (plain_bytes [] ++ []))
  unfolding plain_bytes sample_bytes
  written_parts =
      written-emit (emit b.stream delta_part) value_part
      ∙ ap (λ (l : List ℕ). l ++ value_part) (written-emit b.stream delta_part)
      ∙ ap (λ (l : List ℕ). (l ++ delta_part) ++ value_part) h.bytes
      ∙ append_assoc (header (length cs) 0 id (chunks ++ [])) delta_part value_part
      ∙ header-append (length cs) 0 id (chunks ++ []) (delta_part ++ value_part)
      ∙ ap (λ (l : List ℕ). header (length cs) 0 id l)
          (ap (λ (l : List ℕ). l ++ (delta_part ++ value_part)) (append-nil chunks)
            ∙ ap (λ (l : List ℕ). chunks ++ l) same_parts
            ∙ sym (chunks_bytes-snoc last_chunk 0 first_predictor cs)
            ∙ sym (append-nil (chunks_bytes 0 first_predictor (cs ++ last_chunk ∷ []))))
    where
      chunks : List ℕ
      chunks = chunks_bytes 0 first_predictor cs

      same_parts :
          delta_part ++ value_part
          ≡ sample_bytes (end_prev 0 cs) (end_predictor first_predictor cs) last_chunk
      same_parts =
          ap (λ (p : ℕ). delta_bytes p (ts_of last_chunk) ++ value_part) h.last_ts
          ∙ ap
              (λ (p : Predictor).
                delta_bytes (end_prev 0 cs) (ts_of last_chunk)
                ++ fcm_bytes (values_of last_chunk) p)
              h.predicts

  -- A count of chunks of two bytes is enough for a block below 64 kB.
  count_small : size < 2 ^ 16 → 304 ≤ b.stream.room → length cs + 1 < 2 ^ 16
  count_small small room = omega (
    arith,
    h.bounded,
    ap length h.bytes,
    length-header (length cs) 0 id (chunks_bytes 0 first_predictor cs ++ (plain_bytes [] ++ [])),
    length-append (chunks_bytes 0 first_predictor cs) (plain_bytes [] ++ []),
    length-chunks_bytes 0 first_predictor cs,
  )

  stream_flushed :
      size < 2 ^ 16
      → 304 ≤ b.stream.room
      → flushed.stream ≡ record (emit (emit b.stream delta_part) value_part) {
        written =
            header
              (length cs + 1)
              0
              id
              (chunks_bytes 0 first_predictor (cs ++ last_chunk ∷ []) ++ (plain_bytes [] ++ []));
      }
  stream_flushed small room =
      ap (λ (n : ℕ). increment16 n (emit (emit b.stream delta_part) value_part)) h.nchunks_at
      ∙ increment16-nchunks (length cs) 0 id
          (chunks_bytes 0 first_predictor (cs ++ last_chunk ∷ []) ++ (plain_bytes [] ++ []))
          (emit (emit b.stream delta_part) value_part) (count_small small room) written_parts

  flushed_bounded : 304 ≤ b.stream.room → length flushed.stream.written + flushed.stream.room ≡ size
  flushed_bounded room = omega (
    arith,
    increment16-keeps b.nchunks (emit (emit b.stream delta_part) value_part),
    ap length (written-emit (emit b.stream delta_part) value_part),
    ap (λ (l : List ℕ). length (l ++ value_part)) (written-emit b.stream delta_part),
    length-append (b.stream.written ++ delta_part) value_part,
    length-append b.stream.written delta_part,
    room-emit (emit b.stream delta_part) value_part,
    room-emit b.stream delta_part,
    part_lengths,
    h.bounded,
  )

  pub flushed-Holds :
      size < 2 ^ 16
      → 304 ≤ b.stream.room
      → All IsSmall last_chunk
      → Holds size id (cs ++ last_chunk ∷ []) [] [] [] flushed
  flushed-Holds bound room small = record {
    nchunks_at = h.nchunks_at;
    ntail_at = h.ntail_at;
    bytes =
        ap (λ (w : Writer). w.written) (stream_flushed bound room)
        ∙ ap
            (λ (n : ℕ).
              header n 0 id
                (chunks_bytes 0 first_predictor (cs ++ last_chunk ∷ []) ++ (plain_bytes [] ++ [])))
            {x = length cs + 1} {y = length (cs ++ last_chunk ∷ [])}
            (omega (arith, length-append cs (last_chunk ∷ [])));
    bounded = flushed_bounded room;
    stream_even =
        ap (λ (n : ℕ). n % 2)
          ((increment16-keeps b.nchunks (emit (emit b.stream delta_part) value_part)).2
            ∙ cnt-emit (emit b.stream delta_part) value_part
            ∙ cnt-emit b.stream delta_part)
        ∙ h.stream_even;
    last_ts =
        ap (λ (p : ℕ). last_or p (ts_of last_chunk)) h.last_ts
        ∙ sym (end_prev-snoc last_chunk 0 cs);
    predicts =
        ap (λ (p : Predictor). (encode_all (values_of last_chunk) p).1) h.predicts
        ∙ sym (end_predictor-snoc last_chunk first_predictor cs);
    values_even = h.values_even;
    index = omega (arith, h.index, length-append cs (last_chunk ∷ []));
    short = omega arith;
    ts_buffer = (_, refl, length-set b.ts_writebuf (length buf) (s.0) ∙ h.ts_buffer.2);
    val_buffer = (_, refl, length-set b.val_writebuf (length buf) (s.1) ∙ h.val_buffer.2);
    chunks_whole = All-append IsChunk cs (last_chunk ∷ []) h.chunks_whole ((sixteen, small), tt);
    buf_small = tt;
    tail_small = tt;
  }
