-- ===== src/Compression/Block/Put.antt =====
-- `put` on a block: what each of its branches makes of the samples that are held.
use fast_stdb.Common.{
  ℕ, ◌+◌, ◌%◌, ◌<◌, ◌≤◌, ◌≡◌, refl, sym, ap, ◌∙◌, subst, arith, List, [], ◌∷◌, ◌++◌, length,
  length-append, append_assoc, append-nil, All-append, set, map, bit_and, ◌==◌, if◌then◌else◌,
  length-set, ne→==,
}
use fast_stdb.Common.Bits.{bit_and-mask}
use fast_stdb.Compression.Stream.{space_left}
use fast_stdb.Compression.DeltaDelta
use fast_stdb.Compression.DeltaDelta.{last_or}
use fast_stdb.Compression.Block.{BlockWriter, ok, put, put_buffered, flush_chunk, room_for_chunk}
use fast_stdb.Compression.Block.Layout.{Sample, ts_of, values_of, IsSmall, length-map}
use fast_stdb.Compression.Block.Invariant.{Holds, Buffers}

pub set-append : (xs ys : List ℕ) (y v : ℕ) → set (xs ++ y ∷ ys) (length xs) v ≡ xs ++ v ∷ ys
set-append [] ys y v = refl
set-append (x ∷ xs) ys y v = ap (λ (l : List ℕ). x ∷ l) (set-append xs ys y v)

pub map-snoc :
    (f : Sample → ℕ) (ss : List Sample) (s : Sample) → map f (ss ++ s ∷ []) ≡ map f ss ++ f s ∷ []
map-snoc f [] s = refl
map-snoc f (t ∷ ss) s = ap (λ (l : List ℕ). f t ∷ l) (map-snoc f ss s)

-- A write behind the buffered elements extends them.
Buffers-set :
    (writebuf xs : List ℕ) (v : ℕ)
    → length xs ≤ 15
    → Buffers writebuf xs
    → Buffers (set writebuf (length xs) v) (xs ++ v ∷ [])
Buffers-set writebuf xs v short ([], e, sixteen) =
    absurd (omega (arith, sym sixteen ∙ ap length e, length-append xs []))
Buffers-set writebuf xs v short (y ∷ ys, e, sixteen) = (
  ys,
  ap (λ (l : List ℕ). set l (length xs) v) e
      ∙ set-append xs ys y v
      ∙ sym (append_assoc xs (v ∷ []) ys),
  length-set writebuf (length xs) v ∙ sixteen,
)

-- Sixteen buffered elements are the whole buffer.
pub Buffers-full : (writebuf xs : List ℕ) → length xs ≡ 16 → Buffers writebuf xs → writebuf ≡ xs
Buffers-full writebuf xs full ([], e, sixteen) = e ∙ append-nil xs
Buffers-full writebuf xs full (y ∷ ys, e, sixteen) =
    absurd (omega (arith, sym sixteen ∙ ap length e, length-append xs (y ∷ ys)))

-- The sample goes to the write buffer.
abbrev pub buffered : Sample → List Sample → BlockWriter → BlockWriter
buffered s buf b = record b {
  ts_writebuf = set b.ts_writebuf (length buf) (s.0);
  val_writebuf = set b.val_writebuf (length buf) (s.1);
  write_index = b.write_index + 1;
}

module _ (size id : ℕ) (cs : List (List Sample)) (buf : List Sample) (b : BlockWriter)
    (h : Holds size id cs buf [] [] b) (s : Sample) where
  at_end : bit_and b.write_index 0xF ≡ length buf
  at_end = bit_and-mask 4 b.write_index ∙ omega (arith, h.index, h.short)

  pub put_buffered_lem :
      304 ≤ b.stream.room
      → put (s.0) (s.1) b ≡ (
          if bit_and (b.write_index + 1) 0xF == 0
          then flush_chunk
              (buffered s buf b)
              (DeltaDelta.tput (set b.ts_writebuf (length buf) (s.0)) b.ts_stream b.stream)
          else (ok, buffered s buf b))
  unfolding put put_buffered room_for_chunk space_left
  put_buffered_lem room = ground (arith, at_end)

  pub Buffers-more :
      Buffers (set b.ts_writebuf (length buf) (s.0)) (ts_of (buf ++ s ∷ []))
      × Buffers (set b.val_writebuf (length buf) (s.1)) (values_of (buf ++ s ∷ []))
  Buffers-more =
      (more (λ t. t.0) b.ts_writebuf h.ts_buffer, more (λ t. t.1) b.val_writebuf h.val_buffer)
    where
      more :
          (f : Sample → ℕ) (writebuf : List ℕ)
          → Buffers writebuf (map f buf)
          → Buffers (set writebuf (length buf) (f s)) (map f (buf ++ s ∷ []))
      more f writebuf e =
          subst (λ (l : List ℕ). Buffers (set writebuf (length buf) (f s)) l)
            (sym (map-snoc f buf s))
            (subst (λ (n : ℕ). Buffers (set writebuf n (f s)) (map f buf ++ f s ∷ []))
              (length-map f buf)
              (Buffers-set writebuf (map f buf) (f s) (omega (arith, length-map f buf, h.short)) e))

  -- Fewer than sixteen samples wait in the buffers.
  pub buffered-Holds :
      304 ≤ b.stream.room
      → IsSmall s
      → length buf < 15
      → (put (s.0) (s.1) b ≡ (ok, buffered s buf b))
        × Holds size id cs (buf ++ s ∷ []) [] [] (buffered s buf b)
  buffered-Holds room small few = (
    put_buffered_lem room
        ∙ rw
            (ne→== (bit_and (b.write_index + 1) 0xF) 0
              (λ e. absurd (omega (arith, e, inside, h.index))))
            refl,
    record {
      nchunks_at = h.nchunks_at;
      ntail_at = h.ntail_at;
      bytes = h.bytes;
      bounded = h.bounded;
      stream_even = h.stream_even;
      last_ts = h.last_ts;
      predicts = h.predicts;
      values_even = h.values_even;
      index = omega (arith, h.index, length-append buf (s ∷ []));
      short = omega (arith, length-append buf (s ∷ []));
      ts_buffer = Buffers-more.0;
      val_buffer = Buffers-more.1;
      chunks_whole = h.chunks_whole;
      buf_small = All-append IsSmall buf (s ∷ []) h.buf_small (small, tt);
      tail_small = tt;
    },
  )
    where
      inside : bit_and (b.write_index + 1) 0xF ≡ (b.write_index + 1) % 16
      inside = bit_and-mask 4 (b.write_index + 1)
