-- ===== src/Compression/Block/Puts.antt =====
-- The blocks that a constructor and calls of `put` lead to, as a relation.
use fast_stdb.Common.{
  ℕ, ◌<◌, ◌≤◌, ◌≡◌, ◌≢◌, sym, ap, ◌∙◌, subst, ◌^◌, List, [], ◌∷◌, ◌++◌, length, some, inl, inr, ◌⊎◌,
}
use fast_stdb.Compression.Block.{
  BlockWriter, Stale, ok, overflow, open_block, put, commit, nelements, open_block_reader,
}
use fast_stdb.Compression.Block.Layout.{Sample, IsSmall}
use fast_stdb.Compression.Block.History.{HoldsAll, put-HoldsAll, Outcome}
use fast_stdb.Compression.Block.Open.{IsStale, open_block-HoldsAll}
use fast_stdb.Compression.Block.Read.{Gives}
use fast_stdb.Compression.Block.RoundTrip.{AtEnd, commit-Gives}

-- The samples that `put` took, and the block; `put` may be called again after an overflow.
pub data Puts (size id : ℕ) : List Sample → BlockWriter → Type 0 where
  fresh :
      (stale : Stale) (b : BlockWriter)
      → IsStale stale
      → open_block stale id size ≡ some b
      → Puts size id [] b
  stored :
      (ss : List Sample) (s : Sample) (b b' : BlockWriter)
      → Puts size id ss b
      → IsSmall s
      → put (s.0) (s.1) b ≡ (ok, b')
      → Puts size id (ss ++ s ∷ []) b'
  refused :
      (ss : List Sample) (s : Sample) (b b' : BlockWriter)
      → Puts size id ss b
      → IsSmall s
      → put (s.0) (s.1) b ≡ (overflow, b')
      → Puts size id ss b'

ok-overflow : ok ≢ overflow
ok-overflow e = cc

module _ (size id : ℕ) (room : 14 ≤ size) (bound : size < 2 ^ 16) where
  opened-HoldsAll :
      (stale : Stale) (b : BlockWriter)
      → IsStale stale
      → open_block stale id size ≡ some b
      → HoldsAll size id [] b
  opened-HoldsAll stale b two e =
      let (b₀, e₀, h) = open_block-HoldsAll stale id size two room in
      let same : b₀ ≡ b = cc in subst (HoldsAll size id []) same h

  stored-HoldsAll :
      (ss : List Sample) (s : Sample) (b b' : BlockWriter)
      → Outcome size id ss b s
      → put (s.0) (s.1) b ≡ (ok, b')
      → HoldsAll size id (ss ++ s ∷ []) b'
  stored-HoldsAll ss s b b' (b₁, inl (e₁, h)) e =
      subst (HoldsAll size id (ss ++ s ∷ [])) (ap (λ o. o.1) (sym e₁ ∙ e)) h
  stored-HoldsAll ss s b b' (b₁, inr (e₁, h, full)) e =
      absurd (ok-overflow (ap (λ o. o.0) (sym e ∙ e₁)))

  refused-HoldsAll :
      (ss : List Sample) (s : Sample) (b b' : BlockWriter)
      → Outcome size id ss b s
      → put (s.0) (s.1) b ≡ (overflow, b')
      → HoldsAll size id ss b'
  refused-HoldsAll ss s b b' (b₁, inl (e₁, h)) e = absurd (ok-overflow (ap (λ o. o.0) (sym e₁ ∙ e)))
  refused-HoldsAll ss s b b' (b₁, inr (e₁, h, full)) e =
      subst (HoldsAll size id ss) (ap (λ o. o.1) (sym e₁ ∙ e)) h

  pub Puts-HoldsAll :
      (ss : List Sample) (b : BlockWriter) → Puts size id ss b → HoldsAll size id ss b
  Puts-HoldsAll ss b (fresh stale _ two e) = opened-HoldsAll stale b two e
  Puts-HoldsAll ss b (stored ss' s b' _ history small e) =
      stored-HoldsAll ss' s b' b
        (put-HoldsAll size id bound ss' b' s small (Puts-HoldsAll ss' b' history)) e
  Puts-HoldsAll ss b (refused _ s b' _ history small e) =
      refused-HoldsAll ss s b' b
        (put-HoldsAll size id bound ss b' s small (Puts-HoldsAll ss b' history)) e

  -- Whatever calls of `put` led from a fresh block of fourteen bytes to below 64 kB to the block `b`
  -- that took the samples `ss`, overflows included, `commit` succeeds within the block's size, and
  -- a reader of the committed bytes counts the samples of `ss`, gives them in order, bit for bit,
  -- and then answers that there is no data.
  pub commit-Puts :
      (ss : List Sample) (b : BlockWriter)
      → Puts size id ss b
      → (b' : BlockWriter) × (commit b ≡ some (length b'.stream.written, b'))
        × (length b'.stream.written ≤ size)
        × (nelements (open_block_reader b'.stream.written) ≡ length ss)
        × Gives AtEnd ss (open_block_reader b'.stream.written)
  commit-Puts ss b history = commit-Gives size id ss b bound (Puts-HoldsAll ss b history)

  -- In a block that calls of `put` led to, `put` of a sample of 64-bit numbers answers ok, and the
  -- block took the sample too, or overflow, and it took no more; it overflows only with less than
  -- sixteen bytes of room, so the compression of a full write buffer never fails.
  pub put-Puts :
      (ss : List Sample) (b : BlockWriter) (s : Sample)
      → Puts size id ss b
      → IsSmall s
      → (b' : BlockWriter) × (((put (s.0) (s.1) b ≡ (ok, b')) × Puts size id (ss ++ s ∷ []) b')
          ⊎ ((put (s.0) (s.1) b ≡ (overflow, b')) × Puts size id ss b' × (b.stream.room < 16)))
  put-Puts ss b s history small =
      by_outcome (put-HoldsAll size id bound ss b s small (Puts-HoldsAll ss b history))
    where
      by_outcome :
          Outcome size id ss b s
          → (b' : BlockWriter) × (((put (s.0) (s.1) b ≡ (ok, b')) × Puts size id (ss ++ s ∷ []) b')
              ⊎ ((put (s.0) (s.1) b ≡ (overflow, b')) × Puts size id ss b' × (b.stream.room < 16)))
      by_outcome (b', inl (e, h)) = (b', inl (e, stored ss s b b' history small e))
      by_outcome (b', inr (e, h, full)) = (b', inr (e, refused ss s b b' history small e, full))
