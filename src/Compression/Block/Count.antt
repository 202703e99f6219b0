-- ===== src/Compression/Block/Count.antt =====
-- What a block tells about itself: the count of its samples, and the identity in its header.
use fast_stdb.Common.{
  ℕ, ◌+◌, ◌^◌, ◌<◌, ◌≤◌, ◌≡◌, refl, ap, ◌∙◌, arith, List, ◌++◌, length, length-append, drop, some,
  false, ◌==◌, ne→==,
}
use fast_stdb.Compression.Stream.{IsU64, load16, empty, take_le}
use fast_stdb.Compression.Stream.Laws.{take_le-le_bytes}
use fast_stdb.Compression.Block.{
  BlockWriter, commit, get_write_index, get_id, version, open_block_reader, faststdb_version,
}
use fast_stdb.Compression.Block.Layout.{
  Sample, header, chunks_bytes, plain_bytes, load16-ntail, length-header, length-plain_bytes,
}
use fast_stdb.Compression.Block.Invariant.{Holds, first_predictor}
use fast_stdb.Compression.Block.Commit.{commit-Holds}
use fast_stdb.Compression.Block.History.{HoldsAll, flat}
use fast_stdb.Compression.Block.RoundTrip.{length-flat}
use fast_stdb.Compression.Block.Puts.{Puts, Puts-HoldsAll}

ntail-Holds :
    (size id : ℕ) (cs : List (List Sample)) (buf tail : List Sample) (junk : List ℕ)
    (b : BlockWriter)
    → size < 2 ^ 16
    → Holds size id cs buf tail junk b
    → load16 b.ntail b.stream.written ≡ length tail
ntail-Holds size id cs buf tail junk b bound h =
    ap (λ (m : ℕ). load16 m b.stream.written) h.ntail_at
    ∙ ap (λ (l : List ℕ). load16 4 l) h.bytes
    ∙ load16-ntail (length cs) (length tail) id (chunks ++ (plain_bytes tail ++ junk)) (
        omega (
          arith,
          h.bounded,
          ap length h.bytes,
          length-header (length cs) (length tail) id (chunks ++ (plain_bytes tail ++ junk)),
          length-append chunks (plain_bytes tail ++ junk),
          length-append (plain_bytes tail) junk,
          length-plain_bytes tail,
        ))
  where
    chunks : List ℕ
    chunks = chunks_bytes 0 first_predictor cs

header_id :
    (c t id : ℕ) (rest : List ℕ)
    → IsU64 id
    → take_le 8 (drop 6 (header c t id rest)) ≡ some (id, rest)
unfolding header
header_id c t id rest small = take_le-le_bytes 8 id rest small

header_version : (c t id : ℕ) (rest : List ℕ) → load16 0 (header c t id rest) ≡ faststdb_version
unfolding header load16
header_version c t id rest = refl

module _ (size id : ℕ) (room : 14 ≤ size) (bound : size < 2 ^ 16) where
  count-HoldsAll :
      (ss : List Sample) (b : BlockWriter) → HoldsAll size id ss b → get_write_index b ≡ length ss
  unfolding get_write_index empty
  count-HoldsAll ss b h =
      let nonempty : (length b.stream.written + b.stream.room == 0) ≡ false =
        ne→== (length b.stream.written + b.stream.room) 0
          (λ e. absurd (omega (arith, h.parts.bounded))) in
      rw nonempty (
        omega (
          arith,
          ntail-Holds size id h.cs h.buf h.tail h.junk b bound h.parts,
          h.parts.index,
          ap length h.whole,
          length-append (flat h.cs) (h.buf ++ h.tail),
          length-append h.buf h.tail,
          length-flat h.cs h.parts.chunks_whole,
        ))

  -- In a block of fourteen bytes to below 64 kB that calls of `put` led to, `get_write_index` is the
  -- number of samples that the block took, compressed, buffered and plain ones together.
  pub get_write_index-Puts :
      (ss : List Sample) (b : BlockWriter) → Puts size id ss b → get_write_index b ≡ length ss
  get_write_index-Puts ss b history =
      count-HoldsAll ss b (Puts-HoldsAll size id room bound ss b history)

  -- A reader of such a block, once it is committed, finds the 64-bit identity that the block was
  -- made with, and the version of the format.
  pub get_id-Puts :
      (ss : List Sample) (b : BlockWriter)
      → Puts size id ss b
      → IsU64 id
      → (b' : BlockWriter) × (commit b ≡ some (length b'.stream.written, b'))
        × (get_id (open_block_reader b'.stream.written) ≡ some id)
        × (version (open_block_reader b'.stream.written) ≡ faststdb_version)
  unfolding get_id version open_block_reader
  get_id-Puts ss b history small =
      let h : HoldsAll size id ss b = Puts-HoldsAll size id room bound ss b history in
      let (b', junk, done, fits, bytes) =
        commit-Holds size id h.cs bound h.buf h.tail h.junk b h.parts h.phase in
      let rest : List ℕ =
        chunks_bytes 0 first_predictor h.cs ++ (plain_bytes (h.buf ++ h.tail) ++ junk) in
      let found : take_le 8 (drop 6 b'.stream.written) ≡ some (id, rest) =
        ap (λ (l : List ℕ). take_le 8 (drop 6 l)) bytes
        ∙ header_id (length h.cs) (length (h.buf ++ h.tail)) id rest small in
      (
        b',
        done,
        ground (arith, found),
        ap (λ (l : List ℕ). load16 0 l) bytes
            ∙ header_version (length h.cs) (length (h.buf ++ h.tail)) id rest,
      )
