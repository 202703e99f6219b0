-- ===== src/Compression/Block/RoundTrip.antt =====
-- A block from its writer to its reader: what was put in comes out.
use fast_stdb.Common.{
  ℕ, ◌+◌, ◌*◌, ◌^◌, ◌<◌, ◌≤◌, ◌≡◌, refl, sym, ap, ◌∙◌, subst, arith, List, [], ◌∷◌, ◌++◌, length,
  length-append, append_assoc, All, drop, some,
}
use fast_stdb.Compression.Stream.{Reader, IsU64, open_reader, read_raw, le_bytes, load16}
use fast_stdb.Compression.Stream.Laws.{take_le-le_bytes}
use fast_stdb.Compression.DeltaDelta.{open_delta_reader}
use fast_stdb.Compression.Fcm.{open_fcm_reader}
use fast_stdb.Common.{All-append}
use fast_stdb.Compression.Block.{
  BlockWriter, BlockReader, ok, no_data, next, read_plain, get_main_size, get_total_size, commit,
  open_block_reader, nelements, chunk_size, header_size,
}
use fast_stdb.Compression.Block.Layout.{
  Sample, IsSmall, header, chunks_bytes, plain_bytes, end_prev, end_predictor, load16-nchunks,
  load16-ntail, length-header, length-chunks_bytes, length-plain_bytes,
}
use fast_stdb.Compression.Block.Invariant.{IsChunk, first_predictor}
use fast_stdb.Compression.Block.Commit.{commit-Holds}
use fast_stdb.Compression.Block.History.{HoldsAll, flat}
use fast_stdb.Compression.Block.Read.{Gives, Gives-append, Gives-map, At, Gives-chunks}

-- There is no sample left, and there will be none.
abbrev pub AtEnd : BlockReader → Type 0
AtEnd b = next b ≡ some (no_data, 0, 0, b)

read_raw-le_bytes :
    (v : ℕ) (r : Reader) (rest : List ℕ)
    → IsU64 v
    → r.rest ≡ le_bytes 8 v ++ rest
    → read_raw 8 r ≡ some (v, record r { rest = rest })
unfolding read_raw
read_raw-le_bytes v r rest h e = ground (arith, e, take_le-le_bytes 8 v rest h)

next_end :
    (b : BlockReader)
    → get_main_size b.block ≤ b.read_index
    → get_total_size b.block ≡ b.read_index
    → AtEnd b
unfolding next
next_end b behind same = ground arith

next_tail :
    (s : Sample) (rest : List ℕ) (b : BlockReader)
    → get_main_size b.block ≤ b.read_index
    → b.read_index < get_total_size b.block
    → b.read_index + 1 < 2 ^ 32
    → IsSmall s
    → b.stream.rest ≡ le_bytes 8 (s.0) ++ (le_bytes 8 (s.1) ++ rest)
    → next b
      ≡ some (
        ok,
        s.0,
        s.1,
        record b { read_index = b.read_index + 1; stream = record b.stream { rest = rest } },
      )
unfolding next read_plain
next_tail s rest b behind before bound small e = ground (
  arith,
  read_raw-le_bytes (s.0) b.stream (le_bytes 8 (s.1) ++ rest) small.0 e,
  read_raw-le_bytes (s.1) (record b.stream { rest = le_bytes 8 (s.1) ++ rest }) rest small.1 refl,
)

Gives-tail :
    (tail : List Sample) (junk : List ℕ) (b : BlockReader)
    → get_main_size b.block ≤ b.read_index
    → get_total_size b.block ≡ b.read_index + length tail
    → get_total_size b.block < 2 ^ 32
    → All IsSmall tail
    → b.stream.rest ≡ plain_bytes tail ++ junk
    → Gives AtEnd tail b
unfolding plain_bytes
Gives-tail [] junk b behind total bound small e = next_end b behind (omega arith)
Gives-tail (s ∷ tail) junk b behind total bound small e =
    let rest : List ℕ = plain_bytes tail ++ junk in
    let b' : BlockReader = record b {
      read_index = b.read_index + 1;
      stream = record b.stream { rest = rest };
    } in
    (
      b',
      next_tail s rest b behind (omega arith) (omega arith) small.0 (
          e
          ∙ append_assoc (le_bytes 8 (s.0)) (le_bytes 8 (s.1) ++ plain_bytes tail) junk
          ∙ ap (λ (l : List ℕ). le_bytes 8 (s.0) ++ l)
              (append_assoc (le_bytes 8 (s.1)) (plain_bytes tail) junk)),
      Gives-tail tail junk b' (omega arith) (omega arith) bound small.1 refl,
    )

-- The header is fourteen bytes.
drop-header : (c t id : ℕ) (rest : List ℕ) → drop header_size (header c t id rest) ≡ rest
unfolding header le_bytes
drop-header c t id rest = refl

pub length-flat : (cs : List (List Sample)) → All IsChunk cs → length (flat cs) ≡ 16 * length cs
unfolding flat
length-flat [] h = refl
length-flat (c ∷ cs) h = omega (arith, length-append c (flat cs), h.0.0, length-flat cs h.1)

module _ (id : ℕ) (cs : List (List Sample)) (tail : List Sample) (junk block : List ℕ)
    (e : block
      ≡ header
          (length cs)
          (length tail)
          id
          (chunks_bytes 0 first_predictor cs ++ (plain_bytes tail ++ junk)))
    (bound : length block < 2 ^ 16) where
  few : (length cs < 2 ^ 16) × (length tail < 2 ^ 16)
  few = omega (
    arith,
    ap length e,
    length-header (length cs) (length tail) id
        (chunks_bytes 0 first_predictor cs ++ (plain_bytes tail ++ junk)),
    length-append (chunks_bytes 0 first_predictor cs) (plain_bytes tail ++ junk),
    length-append (plain_bytes tail) junk,
    length-plain_bytes tail,
    length-chunks_bytes 0 first_predictor cs,
  )

  main : get_main_size block ≡ 16 * length cs
  unfolding get_main_size
  main =
      ap (λ (l : List ℕ). load16 2 l * chunk_size) e
      ∙ omega (
        arith,
        load16-nchunks (length cs) (length tail) id
            (chunks_bytes 0 first_predictor cs ++ (plain_bytes tail ++ junk)) few.0,
      )

  total : get_total_size block ≡ 16 * length cs + length tail
  unfolding get_total_size
  total =
      ap (λ (l : List ℕ). load16 4 l + load16 2 l * chunk_size) e
      ∙ omega (
        arith,
        load16-nchunks (length cs) (length tail) id
            (chunks_bytes 0 first_predictor cs ++ (plain_bytes tail ++ junk)) few.0,
        load16-ntail (length cs) (length tail) id
            (chunks_bytes 0 first_predictor cs ++ (plain_bytes tail ++ junk)) few.1,
      )

  pub nelements-block :
      All IsChunk cs → nelements (open_block_reader block) ≡ length (flat cs ++ tail)
  unfolding nelements open_block_reader
  nelements-block chunks = omega (arith, total, length-append (flat cs) tail, length-flat cs chunks)

  pub Gives-block :
      All IsChunk cs → All IsSmall tail → Gives AtEnd (flat cs ++ tail) (open_block_reader block)
  unfolding open_block_reader open_reader open_delta_reader open_fcm_reader
  Gives-block chunks small = Gives-append AtEnd (flat cs) tail (open_block_reader block) (
      Gives-map
        (At block (end_prev 0 cs) (end_predictor first_predictor cs) (plain_bytes tail ++ junk)
          (16 * length cs))
        (Gives AtEnd tail) (flat cs) (open_block_reader block)
        (λ b at.
          Gives-tail tail junk b (omega (arith, at.here, main, ap get_main_size at.same_block))
            (omega (arith, at.here, total, ap get_total_size at.same_block))
            (omega (arith, total, ap get_total_size at.same_block, few)) small at.values.3)
        (Gives-chunks block (length cs) main few.0 cs 0 first_predictor (plain_bytes tail ++ junk) 0
          (open_block_reader block) (omega arith) chunks
          (record {
            same_block = refl;
            here = refl;
            last_ts = refl;
            small = omega arith;
            whole = refl;
            values = (
              refl,
              refl,
              refl,
              ap (λ (l : List ℕ). drop header_size l) e
                  ∙ drop-header (length cs) (length tail) id
                      (chunks_bytes 0 first_predictor cs ++ (plain_bytes tail ++ junk)),
              (refl, refl),
            );
          })))

-- A block below 64 kB that holds `ss` can be committed, whatever waits in its buffers: `commit`
-- answers with a size within the block's, and a reader of the committed bytes counts the samples
-- of `ss`, gives them in order, bit for bit, and then answers that there is no data.
pub commit-Gives :
    (size id : ℕ) (ss : List Sample) (b : BlockWriter)
    → size < 2 ^ 16
    → HoldsAll size id ss b
    → (b' : BlockWriter) × (commit b ≡ some (length b'.stream.written, b'))
      × (length b'.stream.written ≤ size)
      × (nelements (open_block_reader b'.stream.written) ≡ length ss)
      × Gives AtEnd ss (open_block_reader b'.stream.written)
commit-Gives size id ss b bound h =
    let (b', junk, done, fits, bytes) =
      commit-Holds size id h.cs bound h.buf h.tail h.junk b h.parts h.phase in
    let block : List ℕ = b'.stream.written in
    let tail : List Sample = h.buf ++ h.tail in
    (
      b',
      done,
      fits,
      nelements-block id h.cs tail junk block bytes (omega arith) h.parts.chunks_whole
          ∙ ap (λ (l : List Sample). length l) (sym h.whole),
      subst (λ (l : List Sample). Gives AtEnd l (open_block_reader block)) (sym h.whole)
          (Gives-block id h.cs tail junk block bytes (omega arith) h.parts.chunks_whole
            (All-append IsSmall h.buf h.tail h.parts.buf_small h.parts.tail_small)),
    )
