-- ===== src/Compression/Block/Tail.antt =====
-- `put` without room for a chunk: the sample goes behind the others uncompressed, or overflows.
use fast_stdb.Common.{
  ℕ, ◌+◌, ◌%◌, ◌^◌, ◌<◌, ◌≤◌, ◌≡◌, sym, ap, ◌∙◌, arith, List, [], ◌∷◌, ◌++◌, length, length-append,
  append_assoc, append-nil, All, All-append, false,
}
use fast_stdb.Compression.Stream.{Writer, emit, le_bytes, put_raw, space_left}
use fast_stdb.Compression.Stream.Laws.{
  room-emit, cnt-emit, written-emit, length-le_bytes, put_raw-Emits,
}
use fast_stdb.Compression.Block.{
  BlockWriter, ok, overflow, put, put_plain, room_for_chunk, increment16,
}
use fast_stdb.Compression.Block.Layout.{
  Sample, IsSmall, header, chunks_bytes, plain_bytes, plain_bytes-snoc, header-append,
  length-header,
}
use fast_stdb.Compression.Block.Invariant.{Holds, first_predictor}
use fast_stdb.Compression.Block.Layout.{increment16-keeps, increment16-ntail, length-plain_bytes}

-- Only the stream changes once the chunks are done.
Holds-stream :
    (size id : ℕ) (cs : List (List Sample)) (tail tail' : List Sample) (junk junk' : List ℕ)
    (b : BlockWriter) (w : Writer)
    → Holds size id cs [] tail junk b
    → w.written
      ≡ header
          (length cs)
          (length tail')
          id
          (chunks_bytes 0 first_predictor cs ++ (plain_bytes tail' ++ junk'))
    → length w.written + w.room ≡ size
    → w.cnt % 2 ≡ 0
    → All IsSmall tail'
    → Holds size id cs [] tail' junk' (record b { stream = w })
Holds-stream size id cs tail tail' junk junk' b w h bytes bounded even small = record {
  nchunks_at = h.nchunks_at;
  ntail_at = h.ntail_at;
  bytes = bytes;
  bounded = bounded;
  stream_even = even;
  last_ts = h.last_ts;
  predicts = h.predicts;
  values_even = h.values_even;
  index = h.index;
  short = h.short;
  ts_buffer = h.ts_buffer;
  val_buffer = h.val_buffer;
  chunks_whole = h.chunks_whole;
  buf_small = h.buf_small;
  tail_small = small;
}

put_raw-short : (n v : ℕ) (w : Writer) → w.room < n → put_raw n v w ≡ (false, w)
unfolding put_raw
put_raw-short n v w h = ground arith

module _ (size id : ℕ) (cs : List (List Sample)) (tail : List Sample) (b : BlockWriter)
    (h : Holds size id cs [] tail [] b) (s : Sample) where
  abbrev both : Writer
  both = emit (emit b.stream (le_bytes 8 (s.0))) (le_bytes 8 (s.1))

  abbrev pub appended : BlockWriter
  appended = record b { stream = increment16 b.ntail both }

  -- What is left after a timestamp without its value.
  abbrev pub half_written : BlockWriter
  half_written = record b { stream = emit b.stream (le_bytes 8 (s.0)) }

  pub put-appended : b.stream.room < 304 → 16 ≤ b.stream.room → put (s.0) (s.1) b ≡ (ok, appended)
  unfolding put put_plain room_for_chunk space_left
  put-appended full room = ground (
    arith,
    put_raw-Emits 8 (s.0) b.stream,
    put_raw-Emits 8 (s.1) (emit b.stream (le_bytes 8 (s.0))),
    length-le_bytes 8 (s.0),
    length-le_bytes 8 (s.1),
    room-emit b.stream (le_bytes 8 (s.0)),
  )

  pub put-half_written :
      b.stream.room < 16 → 8 ≤ b.stream.room → put (s.0) (s.1) b ≡ (overflow, half_written)
  unfolding put put_plain room_for_chunk space_left
  put-half_written full room = ground (
    arith,
    put_raw-Emits 8 (s.0) b.stream,
    put_raw-short 8 (s.1) (emit b.stream (le_bytes 8 (s.0))),
    length-le_bytes 8 (s.0),
    room-emit b.stream (le_bytes 8 (s.0)),
  )

  tail_bytes :
      both.written
      ≡ header
          (length cs)
          (length tail)
          id
          (chunks_bytes 0 first_predictor cs ++ (plain_bytes (tail ++ s ∷ []) ++ []))
  tail_bytes =
      written-emit (emit b.stream first_half) second_half
      ∙ ap (λ (l : List ℕ). l ++ second_half) (written-emit b.stream first_half)
      ∙ ap (λ (l : List ℕ). (l ++ first_half) ++ second_half) h.bytes
      ∙ append_assoc (header (length cs) (length tail) id (chunks ++ (plain_bytes tail ++ [])))
          first_half second_half
      ∙ header-append (length cs) (length tail) id (chunks ++ (plain_bytes tail ++ []))
          (first_half ++ second_half)
      ∙ ap (λ (l : List ℕ). header (length cs) (length tail) id l)
          (append_assoc chunks (plain_bytes tail ++ []) (first_half ++ second_half)
            ∙ ap (λ (l : List ℕ). chunks ++ l)
                (ap (λ (l : List ℕ). l ++ (first_half ++ second_half))
                    (append-nil (plain_bytes tail))
                  ∙ sym (plain_bytes-snoc s tail)
                  ∙ sym (append-nil (plain_bytes (tail ++ s ∷ [])))))
    where
      chunks : List ℕ
      chunks = chunks_bytes 0 first_predictor cs

      first_half : List ℕ
      first_half = le_bytes 8 (s.0)

      second_half : List ℕ
      second_half = le_bytes 8 (s.1)

  both_bounded : 16 ≤ b.stream.room → length both.written + both.room ≡ size
  both_bounded room = omega (
    arith,
    ap length (written-emit (emit b.stream (le_bytes 8 (s.0))) (le_bytes 8 (s.1))),
    ap (λ (l : List ℕ). length (l ++ le_bytes 8 (s.1))) (written-emit b.stream (le_bytes 8 (s.0))),
    length-append (b.stream.written ++ le_bytes 8 (s.0)) (le_bytes 8 (s.1)),
    length-append b.stream.written (le_bytes 8 (s.0)),
    room-emit (emit b.stream (le_bytes 8 (s.0))) (le_bytes 8 (s.1)),
    room-emit b.stream (le_bytes 8 (s.0)),
    length-le_bytes 8 (s.0),
    length-le_bytes 8 (s.1),
    h.bounded,
  )

  tail_small : size < 2 ^ 16 → 16 ≤ b.stream.room → length tail + 1 < 2 ^ 16
  tail_small bound room = omega (
    arith,
    h.bounded,
    ap length h.bytes,
    length-header (length cs) (length tail) id
        (chunks_bytes 0 first_predictor cs ++ (plain_bytes tail ++ [])),
    length-append (chunks_bytes 0 first_predictor cs) (plain_bytes tail ++ []),
    length-append (plain_bytes tail) [],
    length-plain_bytes tail,
  )

  stream_appended :
      size < 2 ^ 16
      → 16 ≤ b.stream.room
      → appended.stream ≡ record both {
        written =
            header
              (length cs)
              (length tail + 1)
              id
              (chunks_bytes 0 first_predictor cs ++ (plain_bytes (tail ++ s ∷ []) ++ []));
      }
  stream_appended bound room =
      ap (λ (n : ℕ). increment16 n both) h.ntail_at
      ∙ increment16-ntail (length cs) (length tail) id
          (chunks_bytes 0 first_predictor cs ++ (plain_bytes (tail ++ s ∷ []) ++ [])) both
          (tail_small bound room) tail_bytes

  pub appended_room : appended.stream.room ≤ b.stream.room
  appended_room = omega (
    arith,
    increment16-keeps b.ntail both,
    room-emit (emit b.stream (le_bytes 8 (s.0))) (le_bytes 8 (s.1)),
    room-emit b.stream (le_bytes 8 (s.0)),
  )

  pub appended-Holds :
      size < 2 ^ 16
      → 16 ≤ b.stream.room
      → IsSmall s
      → Holds size id cs [] (tail ++ s ∷ []) [] appended
  appended-Holds bound room small =
      Holds-stream size id cs tail (tail ++ s ∷ []) [] [] b appended.stream h
        (ap (λ (w : Writer). w.written) (stream_appended bound room)
          ∙ ap
              (λ (n : ℕ).
                header (length cs) n id
                  (chunks_bytes 0 first_predictor cs ++ (plain_bytes (tail ++ s ∷ []) ++ [])))
              {x = length tail + 1} {y = length (tail ++ s ∷ [])}
              (omega (arith, length-append tail (s ∷ []))))
        (omega (arith, increment16-keeps b.ntail both, both_bounded room))
        (ap (λ (n : ℕ). n % 2)
            ((increment16-keeps b.ntail both).2
              ∙ cnt-emit (emit b.stream (le_bytes 8 (s.0))) (le_bytes 8 (s.1))
              ∙ cnt-emit b.stream (le_bytes 8 (s.0)))
          ∙ h.stream_even)
        (All-append IsSmall tail (s ∷ []) h.tail_small (small, tt))

  pub half_written-Holds :
      8 ≤ b.stream.room → Holds size id cs [] tail (le_bytes 8 (s.0)) half_written
  half_written-Holds room =
      Holds-stream size id cs tail tail [] (le_bytes 8 (s.0)) b half_written.stream h
        (written-emit b.stream (le_bytes 8 (s.0))
          ∙ ap (λ (l : List ℕ). l ++ le_bytes 8 (s.0)) h.bytes
          ∙ header-append (length cs) (length tail) id
              (chunks_bytes 0 first_predictor cs ++ (plain_bytes tail ++ [])) (le_bytes 8 (s.0))
          ∙ ap (λ (l : List ℕ). header (length cs) (length tail) id l)
              (append_assoc (chunks_bytes 0 first_predictor cs) (plain_bytes tail ++ [])
                  (le_bytes 8 (s.0))
                ∙ ap (λ (l : List ℕ). chunks_bytes 0 first_predictor cs ++ (l ++ le_bytes 8 (s.0)))
                    (append-nil (plain_bytes tail))))
        (omega (
          arith,
          h.bounded,
          ap length (written-emit b.stream (le_bytes 8 (s.0))),
          length-append b.stream.written (le_bytes 8 (s.0)),
          room-emit b.stream (le_bytes 8 (s.0)),
          length-le_bytes 8 (s.0),
        ))
        (ap (λ (n : ℕ). n % 2) (cnt-emit b.stream (le_bytes 8 (s.0))) ∙ h.stream_even) h.tail_small

-- With less than eight bytes of room nothing is written.
pub put-full :
    (b : BlockWriter) (s : Sample) → b.stream.room < 8 → put (s.0) (s.1) b ≡ (overflow, b)
unfolding put put_plain room_for_chunk space_left
put-full b s full = ground (arith, put_raw-short 8 (s.0) b.stream)
