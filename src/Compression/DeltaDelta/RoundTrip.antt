-- ===== src/Compression/DeltaDelta/RoundTrip.antt =====
-- A chunk of timestamps: the bytes that `tput` writes, and the timestamps that `next` reads.
use fast_stdb.Common.{
  ℕ, suc, ◌+◌, ◌%◌, ◌≤◌, ◌≡◌, ◌≢◌, refl, ap, ◌∙◌, arith, true, some, List, [], ◌∷◌, ◌++◌, map,
  length, length-append, append_assoc, All, Option-cases, inl, inr, subst, ne→==, min,
}
use fast_stdb.Compression.Stream.{Writer, Reader, emit, IsU64}
use fast_stdb.Compression.Stream.Laws.{emit-emit, room-emit}
use fast_stdb.Compression.Base128.RoundTrip.{
  base128_bytes, length-base128_bytes, put_base128-Emits, next_base128_lem,
}
use fast_stdb.Compression.VByte
use fast_stdb.Compression.VByte.{chunk_size}
use fast_stdb.Compression.VByte.Pair.{Ready}
use fast_stdb.Compression.VByte.Chunk
use fast_stdb.Compression.VByte.Chunk.{
  chunk_bytes, tput-Emits, length-chunk_bytes, Reads-chunk, IsEven-length,
}
use fast_stdb.Compression.DeltaDelta.{
  sub64, add64, DeltaWriter, DeltaReader, deltas, last_or, least, chunk_min, tput, next_delta, next,
  next_many, after_min,
}

unfoldable pub relative : ℕ → List ℕ → List ℕ
relative m ds = map (λ x. sub64 x m) ds

-- The least difference, then the chunk of what is left of each difference.
unfoldable pub delta_bytes : ℕ → List ℕ → List ℕ
delta_bytes prev xs =
    let ds = deltas prev xs in
    base128_bytes (chunk_min ds) ++ chunk_bytes (relative (chunk_min ds) ds)

length-deltas : (prev : ℕ) (xs : List ℕ) → length (deltas prev xs) ≡ length xs
unfolding deltas
length-deltas prev [] = refl
length-deltas prev (x ∷ xs) = ap suc (length-deltas x xs)

length-relative : (m : ℕ) (ds : List ℕ) → length (relative m ds) ≡ length ds
unfolding relative
length-relative m [] = refl
length-relative m (d ∷ ds) = ap suc (length-relative m ds)

relative-IsU64 : (m : ℕ) (ds : List ℕ) → All IsU64 (relative m ds)
unfolding relative
relative-IsU64 m [] = tt
relative-IsU64 m (d ∷ ds) = (omega arith, relative-IsU64 m ds)

deltas-IsU64 : (prev : ℕ) (xs : List ℕ) → All IsU64 (deltas prev xs)
unfolding deltas
deltas-IsU64 prev [] = tt
deltas-IsU64 prev (x ∷ xs) = (omega arith, deltas-IsU64 x xs)

least-IsU64 : (acc : ℕ) (ds : List ℕ) → IsU64 acc → IsU64 (least acc ds)
unfolding least
least-IsU64 acc [] h = h
least-IsU64 acc (d ∷ ds) h = least-IsU64 (min d acc) ds (omega arith)

chunk_min-IsU64 : (ds : List ℕ) → All IsU64 ds → IsU64 (chunk_min ds)
unfolding chunk_min
chunk_min-IsU64 [] h = omega arith
chunk_min-IsU64 (d ∷ ds) h = least-IsU64 d (d ∷ ds) h.0

length-rel : (prev : ℕ) (xs : List ℕ) (m : ℕ) → length (relative m (deltas prev xs)) ≡ length xs
length-rel prev xs m = length-relative m (deltas prev xs) ∙ length-deltas prev xs

-- A chunk of sixteen timestamps takes at most 10 + 136 bytes.
pub length-delta_bytes :
    (prev : ℕ) (xs : List ℕ) → length xs ≡ chunk_size → length (delta_bytes prev xs) ≤ 146
unfolding delta_bytes
length-delta_bytes prev xs sixteen =
    let m : ℕ = chunk_min (deltas prev xs) in
    let rel : List ℕ = relative m (deltas prev xs) in
    omega (
      arith,
      length-append (base128_bytes m) (chunk_bytes rel),
      length-base128_bytes m,
      length-rel prev xs m,
      length-chunk_bytes rel (omega (arith, length-rel prev xs m)),
    )

pub tput-delta_bytes :
    (xs : List ℕ) (d : DeltaWriter) (w : Writer)
    → length xs ≡ chunk_size
    → length (delta_bytes d.prev xs) ≤ w.room
    → tput xs d w ≡ (true, record d { prev = last_or d.prev xs }, emit w (delta_bytes d.prev xs))
unfolding tput delta_bytes relative
tput-delta_bytes xs d w sixteen fits =
    rw (put_base128-Emits m (chunk_min-IsU64 ds (deltas-IsU64 d.prev xs)) w room_m)
      (rw (VByte-tput, after_min) refl)
  where
    ds : List ℕ
    ds = deltas d.prev xs

    m : ℕ
    m = chunk_min ds

    room_m : length (base128_bytes m) ≤ w.room
    room_m = omega (arith, length-append (base128_bytes m) (chunk_bytes (relative m ds)))

    room_rel : length (chunk_bytes (relative m ds)) ≤ (emit w (base128_bytes m)).room
    room_rel = omega (
      arith,
      length-append (base128_bytes m) (chunk_bytes (relative m ds)),
      room-emit w (base128_bytes m),
    )

    VByte-tput :
        VByte.tput (relative m ds) (emit w (base128_bytes m))
        ≡ (true, emit w (base128_bytes m ++ chunk_bytes (relative m ds)))
    VByte-tput =
        tput-Emits (relative m ds)
          (IsEven-length (relative m ds) (omega (arith, length-rel d.prev xs m)))
          (emit w (base128_bytes m)) room_rel
        ∙ ap (λ v. (true, v)) (emit-emit w (base128_bytes m) (chunk_bytes (relative m ds)))

-- The calls of the byte stream's `next`, one at a time.
next_many_inv :
    (n x : ℕ) (xs : List ℕ) (r r' : Reader)
    → Chunk.next_many (suc n) r ≡ some (x ∷ xs, r')
    → (mid : Reader) × (VByte.next r ≡ some (x, mid)) × (Chunk.next_many n mid ≡ some (xs, r'))
unfolding Chunk.next_many
next_many_inv n x xs r r' h = elim (Option-cases (VByte.next r)) [
  | inl e ↦ absurd (ground (arith, e))
  | inr ((y, mid), e) ↦ elim (Option-cases (Chunk.next_many n mid)) [
    | inl e' ↦ absurd (ground (arith, e, e'))
    | inr ((ys, r''), e') ↦ (mid, ground (arith, e, e'), ground (arith, e, e'))
  ]
]

-- Whatever was subtracted is added again.
delta_value :
    (x prev m : ℕ)
    → IsU64 x
    → IsU64 prev
    → IsU64 m
    → add64 (add64 prev (sub64 (sub64 x prev) m)) m ≡ x
delta_value x prev m hx hp hm = omega arith

next_delta_lem :
    (x m : ℕ) (d : DeltaReader) (r r' : Reader)
    → IsU64 x
    → IsU64 d.prev
    → IsU64 m
    → d.min_value ≡ m
    → VByte.next r ≡ some (sub64 (sub64 x d.prev) m, r')
    → next_delta d r ≡ some (x, record d { prev = x; counter = d.counter + 1 }, r')
unfolding next_delta
next_delta_lem x m d r r' hx hp hm same e = ground (arith, delta_value x d.prev m)

-- `next_many` from a call of `next` and the calls behind it.
next_many-cons :
    (n x : ℕ) (xs : List ℕ) (d d' d'' : DeltaReader) (r r' r'' : Reader)
    → next d r ≡ some (x, d', r')
    → next_many n d' r' ≡ some (xs, d'', r'')
    → next_many (suc n) d r ≡ some (x ∷ xs, d'', r'')
unfolding next_many
next_many-cons n x xs d d' d'' r r' r'' e h = ground arith

-- The reader of timestamps behind a chunk of which `xs` was still to be read.
abbrev Reads : List ℕ → DeltaReader → Reader → Reader → Type 0
Reads xs d r r' =
    (d' : DeltaReader) × (next_many (length xs) d r ≡ some (xs, d', r'))
    × (d'.prev ≡ last_or d.prev xs)
    × (d'.counter % 16 ≡ 0)

Reads-cons :
    (x : ℕ) (xs : List ℕ) (d d' : DeltaReader) (r mid r' : Reader)
    → next d r ≡ some (x, d', mid)
    → d'.prev ≡ x
    → Reads xs d' mid r'
    → Reads (x ∷ xs) d r r'
unfolding last_or
Reads-cons x xs d d' r mid r' e here (d'', many, prev, even) = (
  d'',
  next_many-cons (length xs) x xs d d' d'' r mid r' e many,
  prev ∙ ap (λ (p : ℕ). last_or p xs) here,
  even,
)

-- Within a chunk no least difference is read.
next_inside : (d : DeltaReader) (r : Reader) → d.counter % 16 ≢ 0 → next d r ≡ next_delta d r
unfolding next
next_inside d r inside = rw (ne→== _ _ inside) refl

Reads-inside :
    (xs : List ℕ) (m : ℕ) (d : DeltaReader) (r r' : Reader)
    → All IsU64 xs
    → IsU64 d.prev
    → IsU64 m
    → d.min_value ≡ m
    → length xs ≤ 15
    → (d.counter + length xs) % 16 ≡ 0
    → Chunk.next_many (length xs) r ≡ some (relative m (deltas d.prev xs), r')
    → Reads xs d r r'
unfolding relative deltas last_or next_many Chunk.next_many
Reads-inside [] m d r r' small hp hm same short whole h = (d, ground arith, refl, omega arith)
Reads-inside (x ∷ xs) m d r r' small hp hm same short whole h =
    let (mid, first, others) = next_many_inv (length xs) _ _ r r' h in
    let d' : DeltaReader = record d { prev = x; counter = d.counter + 1 } in
    Reads-cons x xs d d' r mid r'
      (next_inside d r (omega arith) ∙ next_delta_lem x m d r mid small.0 hp hm same first) refl
      (Reads-inside xs m d' mid r' small.1 small.0 hm same (omega arith) (omega arith) others)

next_start :
    (m : ℕ) (d : DeltaReader) (r : Reader) (rest : List ℕ)
    → IsU64 m
    → d.counter % 16 ≡ 0
    → r.rest ≡ base128_bytes m ++ rest
    → next d r ≡ next_delta (record d { min_value = m }) (record r { rest = rest })
unfolding next
next_start m d r rest hm start e = ground (arith, next_base128_lem m r rest hm e)

Reads-start :
    (x m : ℕ) (xs behind : List ℕ) (d : DeltaReader) (r r' : Reader)
    → All IsU64 (x ∷ xs)
    → IsU64 d.prev
    → IsU64 m
    → length xs ≡ 15
    → d.counter % 16 ≡ 0
    → r.rest ≡ base128_bytes m ++ behind
    → Chunk.next_many (suc (length xs)) (record r { rest = behind })
      ≡ some (sub64 (sub64 x d.prev) m ∷ relative m (deltas x xs), r')
    → Reads (x ∷ xs) d r r'
Reads-start x m xs behind d r r' small hp hm fifteen start e h =
    let (mid, first, others) = next_many_inv (length xs) _ _ (record r { rest = behind }) r' h in
    let d₀ : DeltaReader = record d { min_value = m } in
    let d' : DeltaReader = record d₀ { prev = x; counter = d.counter + 1 } in
    Reads-cons x xs d d' r mid r'
      (next_start m d r behind hm start e
        ∙ next_delta_lem x m d₀ (record r { rest = behind }) mid small.0 hp hm refl first)
      refl (Reads-inside xs m d' mid r' small.1 small.0 hm refl (omega arith) (omega arith) others)

-- Sixteen timestamps are read back from the bytes of their chunk, whatever follows.
pub Reads-delta_bytes :
    (xs rest : List ℕ) (d : DeltaReader) (r : Reader)
    → length xs ≡ chunk_size
    → All IsU64 xs
    → IsU64 d.prev
    → d.counter % 16 ≡ 0
    → Ready r
    → r.rest ≡ delta_bytes d.prev xs ++ rest
    → (d' : DeltaReader) × (r' : Reader) × (next_many chunk_size d r ≡ some (xs, d', r'))
      × (d'.prev ≡ last_or d.prev xs)
      × (d'.counter % 16 ≡ 0)
      × (r'.rest ≡ rest)
      × Ready r'
unfolding delta_bytes relative deltas
Reads-delta_bytes [] rest d r sixteen small hp start ready e = absurd (omega arith)
Reads-delta_bytes (x ∷ xs) rest d r sixteen small hp start ready e =
    let (r', many, at, ready') =
      Chunk.Reads-chunk rel rest (record r { rest = behind })
        (length-rel d.prev (x ∷ xs) m ∙ sixteen) (relative-IsU64 m ds) ready refl in
    let (d', reads, prev, even) =
      Reads-start x m xs behind d r r' small hp (chunk_min-IsU64 ds (deltas-IsU64 d.prev (x ∷ xs)))
        (omega arith) start (e ∙ append_assoc (base128_bytes m) (chunk_bytes rel) rest)
        (subst (λ (n : ℕ). Chunk.next_many n (record r { rest = behind }) ≡ some (rel, r'))
          (length-rel d.prev (x ∷ xs) m) many) in
    (
      d',
      r',
      subst (λ (n : ℕ). next_many n d r ≡ some (x ∷ xs, d', r')) sixteen reads,
      prev,
      even,
      at,
      ready',
    )
  where
    ds : List ℕ
    ds = deltas d.prev (x ∷ xs)

    m : ℕ
    m = chunk_min ds

    rel : List ℕ
    rel = relative m ds

    behind : List ℕ
    behind = chunk_bytes rel ++ rest
