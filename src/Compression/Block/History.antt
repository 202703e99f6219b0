-- ===== src/Compression/Block/History.antt =====
-- The blocks that calls of `put` lead to, and what they hold.
use fast_stdb.Common.{
  ℕ, ◌^◌, ◌<◌, ◌≤◌, ◌≡◌, refl, sym, ap, ◌∙◌, subst, arith, List, [], ◌∷◌, ◌++◌, length,
  append_assoc, append-nil, All, All-append, ◌⊎◌, inl, inr,
}
use native.Mathlib.Decide.{dec_le, dec_lt}
use fast_stdb.Compression.Stream.{le_bytes}
use fast_stdb.Compression.Stream.Laws.{room-emit, length-le_bytes}
use fast_stdb.Compression.Block.{BlockWriter, ok, overflow, put}
use fast_stdb.Compression.Block.Layout.{Sample, IsSmall}
use fast_stdb.Compression.Block.Invariant.{Holds, Phase, compressing, closing}
use fast_stdb.Compression.Block.Put.{buffered, buffered-Holds}
use fast_stdb.Compression.Block.Flush.{flushed, put-flushed, flushed-Holds}
use fast_stdb.Compression.Block.Tail.{
  appended, appended-Holds, put-appended, half_written, half_written-Holds, put-half_written,
  put-full, appended_room,
}

-- The samples of the chunks, in order.
unfoldable pub flat : List (List Sample) → List Sample
flat [] = []
flat (c ∷ cs) = c ++ flat cs

pub flat-snoc : (cs : List (List Sample)) (c : List Sample) → flat (cs ++ c ∷ []) ≡ flat cs ++ c
unfolding flat
flat-snoc [] c = append-nil c
flat-snoc (d ∷ cs) c =
    ap (λ (l : List Sample). d ++ l) (flat-snoc cs c) ∙ sym (append_assoc d (flat cs) c)

-- The block holds the samples `ss`, in this order.
pub record HoldsAll (size id : ℕ) (ss : List Sample) (b : BlockWriter) : Type 0 where
  pub cs : List (List Sample)
  pub buf : List Sample
  pub tail : List Sample
  pub junk : List ℕ
  pub parts : Holds size id cs buf tail junk b
  pub phase : Phase b.stream.room buf tail junk
  pub whole : ss ≡ flat cs ++ (buf ++ tail)

-- Without samples in the buffers both phases are possible, as the room says.
pub Phase-empty : (room : ℕ) → Phase room [] [] []
Phase-empty room = elim (dec_le 304 room) [
  | yes enough ↦ compressing [] enough
  | no short ↦ closing [] [] (omega arith) (inl refl)
]

-- A `put` stores the sample behind the others, or it overflows and keeps what the block holds;
-- it overflows only without room for a chunk and with less than sixteen bytes of room.
abbrev pub Outcome : ℕ → ℕ → List Sample → BlockWriter → Sample → Type 0
Outcome size id ss b s =
    (b' : BlockWriter) × (((put (s.0) (s.1) b ≡ (ok, b')) × HoldsAll size id (ss ++ s ∷ []) b')
      ⊎ ((put (s.0) (s.1) b ≡ (overflow, b')) × HoldsAll size id ss b' × (b.stream.room < 16)))

module _ (size id : ℕ) (bound : size < 2 ^ 16) (ss : List Sample) (b : BlockWriter) (s : Sample)
    (small : IsSmall s) where
  put_compressing :
      (cs : List (List Sample)) (buf : List Sample)
      → Holds size id cs buf [] [] b
      → ss ≡ flat cs ++ (buf ++ [])
      → 304 ≤ b.stream.room
      → Outcome size id ss b s
  put_compressing cs buf h whole room = elim (dec_lt (length buf) 15) [
    | yes few ↦
        let (e, h') = buffered-Holds size id cs buf b h s room small few in
        (
          buffered s buf b,
          inl (
            e,
            record {
              cs = cs;
              buf = buf ++ s ∷ [];
              tail = [];
              junk = [];
              parts = h';
              phase = compressing (buf ++ s ∷ []) room;
              whole =
                  longer
                  ∙ ap (λ (l : List Sample). flat cs ++ l) (sym (append-nil (buf ++ s ∷ [])));
            },
          ),
        )
    | no many ↦
        let full : length buf ≡ 15 = omega (arith, h.short) in
        let small' : All IsSmall (buf ++ s ∷ []) =
          All-append IsSmall buf (s ∷ []) h.buf_small (small, tt) in
        (
          flushed size id cs buf b h s full,
          inl (
            put-flushed size id cs buf b h s full room small',
            record {
              cs = cs ++ (buf ++ s ∷ []) ∷ [];
              buf = [];
              tail = [];
              junk = [];
              parts = flushed-Holds size id cs buf b h s full bound room small';
              phase = Phase-empty (flushed size id cs buf b h s full).stream.room;
              whole =
                  longer
                  ∙ sym (flat-snoc cs (buf ++ s ∷ []))
                  ∙ sym (append-nil (flat (cs ++ (buf ++ s ∷ []) ∷ [])));
            },
          ),
        )
  ]
    where
      longer : ss ++ s ∷ [] ≡ flat cs ++ (buf ++ s ∷ [])
      longer =
          ap (λ (l : List Sample). l ++ s ∷ [])
            (whole ∙ ap (λ (l : List Sample). flat cs ++ l) (append-nil buf))
          ∙ append_assoc (flat cs) buf (s ∷ [])

  put_closing :
      (cs : List (List Sample)) (tail : List Sample) (junk : List ℕ)
      → Holds size id cs [] tail junk b
      → ss ≡ flat cs ++ tail
      → b.stream.room < 304
      → (junk ≡ []) ⊎ (b.stream.room < 8)
      → Outcome size id ss b s
  put_closing cs tail junk h whole full (inr none_left) = (
    b,
    inr (
      put-full b s none_left,
      record {
        cs = cs;
        buf = [];
        tail = tail;
        junk = junk;
        parts = h;
        phase = closing tail junk full (inr none_left);
        whole = whole;
      },
      omega arith,
    ),
  )
  put_closing cs tail junk h whole full (inl clean) = elim (dec_le 16 b.stream.room) [
    | yes room ↦ (
      appended size id cs tail b h' s,
      inl (
        put-appended size id cs tail b h' s full room,
        record {
          cs = cs;
          buf = [];
          tail = tail ++ s ∷ [];
          junk = [];
          parts = appended-Holds size id cs tail b h' s bound room small;
          phase =
              closing (tail ++ s ∷ []) [] (omega (arith, appended_room size id cs tail b h' s))
                (inl refl);
          whole =
              ap (λ (l : List Sample). l ++ s ∷ []) whole ∙ append_assoc (flat cs) tail (s ∷ []);
        },
      ),
    )
    | no short ↦ elim (dec_le 8 b.stream.room) [
      | yes half ↦ (
        half_written size id cs tail b h' s,
        inr (
          put-half_written size id cs tail b h' s (omega arith) half,
          record {
            cs = cs;
            buf = [];
            tail = tail;
            junk = le_bytes 8 (s.0);
            parts = half_written-Holds size id cs tail b h' s half;
            phase =
                closing tail (le_bytes 8 (s.0))
                  (omega (arith, room-emit b.stream (le_bytes 8 (s.0)), length-le_bytes 8 (s.0)))
                  (inr (
                    omega (arith, room-emit b.stream (le_bytes 8 (s.0)), length-le_bytes 8 (s.0))));
            whole = whole;
          },
          omega arith,
        ),
      )
      | no none_left ↦ (
        b,
        inr (
          put-full b s (omega arith),
          record {
            cs = cs;
            buf = [];
            tail = tail;
            junk = junk;
            parts = h;
            phase = closing tail junk full (inl clean);
            whole = whole;
          },
          omega arith,
        ),
      )
    ]
  ]
    where
      h' : Holds size id cs [] tail [] b
      h' = subst (λ (j : List ℕ). Holds size id cs [] tail j b) clean h

  -- `put` of a sample of 64-bit numbers into a block below 64 kB that holds `ss` either stores it
  -- behind them, or overflows and still holds `ss`; it overflows only with less than sixteen bytes
  -- of room. The compression of a chunk never fails.
  pub put-HoldsAll : HoldsAll size id ss b → Outcome size id ss b s
  put-HoldsAll h = by_phase h.cs h.buf h.tail h.junk h.parts h.phase h.whole
    where
      by_phase :
          (cs : List (List Sample)) (buf tail : List Sample) (junk : List ℕ)
          → Holds size id cs buf tail junk b
          → Phase b.stream.room buf tail junk
          → ss ≡ flat cs ++ (buf ++ tail)
          → Outcome size id ss b s
      by_phase cs buf tail junk p (compressing _ room) whole = put_compressing cs buf p whole room
      by_phase cs buf tail junk p (closing _ _ full clean) whole =
          put_closing cs tail junk p whole full clean
