-- ===== src/Compression/Block/Commit.antt =====
-- `commit` of a block: the samples that wait in the write buffers go to the tail.
use fast_stdb.Common.{
  ℕ, suc, ◌+◌, ◌*◌, ◌-◌, ◌/◌, ◌%◌, ◌^◌, ◌<◌, ◌≤◌, ◌≡◌, refl, sym, ap, ◌∙◌, subst, arith, List, [],
  ◌∷◌, ◌++◌, length, length-append, append_assoc, append-nil, All, map, true, get_or, some, ◌⊎◌,
  inl, inr, eq→==,
}
use fast_stdb.Compression.Stream.{Writer, emit, le_bytes, put_raw, size, store16, load16}
use fast_stdb.Compression.Stream.Laws.{room-emit, length-le_bytes, put_raw-Emits}
use fast_stdb.Compression.Block.{BlockWriter, commit, commit_tail, increment16, chunk_size}
use fast_stdb.Compression.Block.Layout.{
  Sample, ts_of, values_of, IsSmall, header, chunks_bytes, plain_bytes, load16-ntail,
  store16-nchunks, length-header, length-chunks_bytes,
}
use fast_stdb.Compression.Block.Invariant.{
  Holds, Buffers, first_predictor, Phase, compressing, closing,
}
use fast_stdb.Compression.Block.Tail.{appended-Holds}

pub get_or-middle :
    (f : Sample → ℕ) (done more : List Sample) (s : Sample) (spare : List ℕ)
    → get_or (map f (done ++ s ∷ more) ++ spare) (length done) 0 ≡ f s
get_or-middle f [] more s spare = refl
get_or-middle f (d ∷ done) more s spare = get_or-middle f done more s spare

get_or-Buffers :
    (f : Sample → ℕ) (done more : List Sample) (s : Sample) (writebuf : List ℕ)
    → Buffers writebuf (map f (done ++ s ∷ more))
    → get_or writebuf (length done) 0 ≡ f s
get_or-Buffers f done more s writebuf (spare, e, sixteen) =
    ap (λ (l : List ℕ). get_or l (length done) 0) e ∙ get_or-middle f done more s spare

-- One round of the loop.
abbrev tail_step : BlockWriter → Sample → BlockWriter
tail_step b s = record b {
  stream = increment16 b.ntail (emit (emit b.stream (le_bytes 8 (s.0))) (le_bytes 8 (s.1)));
  write_index = b.write_index - 1;
}

commit_tail-suc :
    (n ix : ℕ) (b : BlockWriter) (s : Sample)
    → get_or b.ts_writebuf ix 0 ≡ s.0
    → get_or b.val_writebuf ix 0 ≡ s.1
    → 16 ≤ b.stream.room
    → commit_tail (suc n) ix b ≡ commit_tail n (ix + 1) (tail_step b s)
unfolding commit_tail
commit_tail-suc n ix b s ts val room =
    let w : Writer = emit b.stream (le_bytes 8 (s.0)) in
    let first : put_raw 8 (s.0) b.stream ≡ (true, w) =
      put_raw-Emits 8 (s.0) b.stream (omega (arith, length-le_bytes 8 (s.0))) in
    let second : put_raw 8 (s.1) w ≡ (true, emit w (le_bytes 8 (s.1))) = put_raw-Emits 8 (s.1) w (
      omega (
        arith,
        length-le_bytes 8 (s.0),
        length-le_bytes 8 (s.1),
        room-emit b.stream (le_bytes 8 (s.0)),
      )) in
    rw (ts, val, first, second) refl

-- The block without its buffered samples.
abbrev pub unbuffered : List (List Sample) → BlockWriter → BlockWriter
unbuffered cs b = record b { write_index = 16 * length cs }

room-appended : (b : BlockWriter) (s : Sample) → (tail_step b s).stream.room ≡ b.stream.room - 16
unfolding store16
room-appended b s = omega (
  arith,
  room-emit b.stream (le_bytes 8 (s.0)),
  room-emit (emit b.stream (le_bytes 8 (s.0))) (le_bytes 8 (s.1)),
  length-le_bytes 8 (s.0),
  length-le_bytes 8 (s.1),
)

committed : ℕ → ℕ → BlockWriter → BlockWriter
committed n k b = record (commit_tail k 0 b) {
  stream = store16 b.nchunks (n % 2 ^ 16) (commit_tail k 0 b).stream;
}

-- `commit` fails only with both a plain tail and samples in the buffers.
commit_lem :
    (n k : ℕ) (b : BlockWriter)
    → b.write_index ≡ 16 * n + k
    → k ≤ 15
    → (k ≡ 0) ⊎ (load16 b.ntail b.stream.written ≡ 0)
    → commit b ≡ some (length (committed n k b).stream.written, committed n k b)
unfolding commit committed size
commit_lem n k b index short guard =
    let e : b.write_index / chunk_size ≡ n = omega arith in
    let e' : b.write_index % chunk_size ≡ k = omega arith in
    rw (e, e')
      (elim guard [
        | inl none_left ↦ rw (eq→== k 0 none_left) refl
        | inr no_tail ↦ rw (eq→== (load16 b.ntail b.stream.written) 0 no_tail) (ground arith)
      ])

-- What `commit` leaves in memory: the chunks and the tail `tail`.
abbrev pub Commits : ℕ → ℕ → List (List Sample) → List Sample → BlockWriter → Type 0
Commits size id cs tail b =
    (b' : BlockWriter) × (junk : List ℕ) × (commit b ≡ some (length b'.stream.written, b'))
    × (length b'.stream.written ≤ size)
    × (b'.stream.written
        ≡ header (length cs) (length tail) id
            (chunks_bytes 0 first_predictor cs ++ (plain_bytes tail ++ junk)))

module _ (size id : ℕ) (cs : List (List Sample)) (bound : size < 2 ^ 16) where
  pub commit_tail-Holds :
      (more done : List Sample) (b : BlockWriter)
      → Holds size id cs [] done [] (unbuffered cs b)
      → Buffers b.ts_writebuf (ts_of (done ++ more))
      → Buffers b.val_writebuf (values_of (done ++ more))
      → All IsSmall more
      → 16 * length more ≤ b.stream.room
      → Holds size id cs []
          (done ++ more)
          []
          (unbuffered cs (commit_tail (length more) (length done) b))
  unfolding commit_tail
  commit_tail-Holds [] done b h ts val small room =
      subst (λ (l : List Sample). Holds size id cs [] l [] (unbuffered cs b))
        (sym (append-nil done)) h
  commit_tail-Holds (s ∷ more) done b h ts val small room =
      subst (λ (b' : BlockWriter). Holds size id cs [] (done ++ s ∷ more) [] (unbuffered cs b'))
        (sym round)
        (subst
          (λ (l : List Sample).
            Holds size id cs [] l []
              (unbuffered cs (commit_tail (length more) (length (done ++ s ∷ [])) (tail_step b s))))
          regroup
          (commit_tail-Holds more (done ++ s ∷ []) (tail_step b s)
            (appended-Holds size id cs done (unbuffered cs b) h s bound (omega arith) small.0)
            (subst (λ (l : List Sample). Buffers b.ts_writebuf (ts_of l)) (sym regroup) ts)
            (subst (λ (l : List Sample). Buffers b.val_writebuf (values_of l)) (sym regroup) val)
            small.1 (omega (arith, room-appended b s))))
    where
      regroup : (done ++ s ∷ []) ++ more ≡ done ++ s ∷ more
      regroup = append_assoc done (s ∷ []) more

      round :
          commit_tail (suc (length more)) (length done) b
          ≡ commit_tail (length more) (length (done ++ s ∷ [])) (tail_step b s)
      round =
          commit_tail-suc (length more) (length done) b s
            (get_or-Buffers (λ t. t.0) done more s b.ts_writebuf ts)
            (get_or-Buffers (λ t. t.1) done more s b.val_writebuf val) (omega arith)
          ∙ ap (λ (i : ℕ). commit_tail (length more) i (tail_step b s)) {x = length done + 1}
              {y = length (done ++ s ∷ [])} (omega (arith, length-append done (s ∷ [])))

  commit_Holds :
      (k : ℕ) (tail : List Sample) (junk : List ℕ) (b : BlockWriter)
      → b.nchunks ≡ 2
      → b.write_index ≡ 16 * length cs + k
      → k ≤ 15
      → (k ≡ 0) ⊎ (load16 b.ntail b.stream.written ≡ 0)
      → Holds size id cs [] tail junk (unbuffered cs (commit_tail k 0 b))
      → Commits size id cs tail b
  unfolding committed
  commit_Holds k tail junk b at index short guard h = (
    committed (length cs) k b,
    junk,
    commit_lem (length cs) k b index short guard,
    omega (arith, h.bounded, ap length h.bytes, ap length same),
    same,
  )
    where
      body : List ℕ
      body = chunks_bytes 0 first_predictor cs ++ (plain_bytes tail ++ junk)

      count : length cs % 2 ^ 16 ≡ length cs
      count = omega (
        arith,
        h.bounded,
        ap length h.bytes,
        length-header (length cs) (length tail) id body,
        length-append (chunks_bytes 0 first_predictor cs) (plain_bytes tail ++ junk),
        length-chunks_bytes 0 first_predictor cs,
      )

      same : (committed (length cs) k b).stream.written ≡ header (length cs) (length tail) id body
      same =
          ap (λ (m : ℕ). (store16 m (length cs % 2 ^ 16) (commit_tail k 0 b).stream).written) at
          ∙ ap (λ (n : ℕ). (store16 2 n (commit_tail k 0 b).stream).written) count
          ∙ ap (λ (w : Writer). w.written)
              (store16-nchunks (length cs) (length cs) (length tail) id body
                (commit_tail k 0 b).stream h.bytes)

  commit_empty :
      (tail : List Sample) (junk : List ℕ) (b : BlockWriter)
      → Holds size id cs [] tail junk b
      → Commits size id cs tail b
  unfolding commit_tail
  commit_empty tail junk b h =
      commit_Holds 0 tail junk b h.nchunks_at h.index (omega arith) (inl refl) (record {
        nchunks_at = h.nchunks_at;
        ntail_at = h.ntail_at;
        bytes = h.bytes;
        bounded = h.bounded;
        stream_even = h.stream_even;
        last_ts = h.last_ts;
        predicts = h.predicts;
        values_even = h.values_even;
        index = omega arith;
        short = h.short;
        ts_buffer = h.ts_buffer;
        val_buffer = h.val_buffer;
        chunks_whole = h.chunks_whole;
        buf_small = h.buf_small;
        tail_small = h.tail_small;
      })

  commit_buffered :
      (buf : List Sample) (b : BlockWriter)
      → Holds size id cs buf [] [] b
      → 304 ≤ b.stream.room
      → Commits size id cs buf b
  commit_buffered buf b h room =
      commit_Holds (length buf) buf [] b h.nchunks_at h.index h.short (inr no_tail) (
        commit_tail-Holds buf [] b
          (record {
            nchunks_at = h.nchunks_at;
            ntail_at = h.ntail_at;
            bytes = h.bytes;
            bounded = h.bounded;
            stream_even = h.stream_even;
            last_ts = h.last_ts;
            predicts = h.predicts;
            values_even = h.values_even;
            index = omega arith;
            short = omega arith;
            ts_buffer = (b.ts_writebuf, refl, h.ts_buffer.2);
            val_buffer = (b.val_writebuf, refl, h.val_buffer.2);
            chunks_whole = h.chunks_whole;
            buf_small = tt;
            tail_small = tt;
          })
          h.ts_buffer h.val_buffer h.buf_small (omega (arith, h.short)))
    where
      no_tail : load16 b.ntail b.stream.written ≡ 0
      no_tail =
          ap (λ (m : ℕ). load16 m b.stream.written) h.ntail_at
          ∙ ap (λ (l : List ℕ). load16 4 l) h.bytes
          ∙ load16-ntail (length cs) 0 id
              (chunks_bytes 0 first_predictor cs ++ (plain_bytes [] ++ [])) (omega arith)

  -- A block can always be committed, within its size, and no buffered sample is left out.
  pub commit-Holds :
      (buf tail : List Sample) (junk : List ℕ) (b : BlockWriter)
      → Holds size id cs buf tail junk b
      → Phase b.stream.room buf tail junk
      → Commits size id cs (buf ++ tail) b
  commit-Holds buf tail junk b h (compressing _ room) =
      subst (λ (l : List Sample). Commits size id cs l b) (sym (append-nil buf))
        (commit_buffered buf b h room)
  commit-Holds buf tail junk b h (closing _ _ full clean) = commit_empty tail junk b h
