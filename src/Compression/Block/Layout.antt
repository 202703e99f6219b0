-- ===== src/Compression/Block/Layout.antt =====
-- The bytes of a block: header, chunks, tail.
use fast_stdb.Common.{
  ℕ, suc, ◌+◌, ◌*◌, ◌/◌, ◌%◌, ◌^◌, ◌<◌, ◌≤◌, ◌≡◌, refl, sym, ap, ◌∙◌, arith, List, [], ◌∷◌, ◌++◌,
  map, length, length-append, length-set, append_assoc, append-nil, set,
}
use fast_stdb.Compression.Stream.{Writer, le_bytes, store16, load16, IsU64}
use fast_stdb.Compression.Stream.Laws.{length-le_bytes}
use fast_stdb.Compression.DeltaDelta.{last_or, deltas, chunk_min}
use fast_stdb.Compression.Block.{increment16}
use fast_stdb.Compression.Base128.RoundTrip.{base128_bytes, groups, length-groups}
use fast_stdb.Compression.VByte.Chunk.{chunk_bytes}
use fast_stdb.Compression.DeltaDelta.RoundTrip.{delta_bytes, length-delta_bytes, relative}
use fast_stdb.Compression.Predictor.{Predictor}
use fast_stdb.Compression.Fcm.{encode_all}
use fast_stdb.Compression.Fcm.Chunk.{fcm_bytes, length-fcm_bytes}

-- A timestamp and a value.
abbrev pub Sample : Type 0
Sample = ℕ × ℕ

abbrev pub ts_of : List Sample → List ℕ
ts_of = map (λ s. s.0)

abbrev pub values_of : List Sample → List ℕ
values_of = map (λ s. s.1)

abbrev pub IsSmall : Sample → Type 0
IsSmall s = IsU64 (s.0) × IsU64 (s.1)

unfoldable pub header : ℕ → ℕ → ℕ → List ℕ → List ℕ
header nchunks ntail id rest =
    101
    ∷ 0
    ∷ nchunks % 256
    ∷ nchunks / 256 % 256
    ∷ ntail % 256
    ∷ ntail / 256 % 256
    ∷ (le_bytes 8 id ++ rest)

pub store16-nchunks :
    (n c t id : ℕ) (rest : List ℕ) (w : Writer)
    → w.written ≡ header c t id rest
    → store16 2 n w ≡ record w { written = header n t id rest }
unfolding header store16
store16-nchunks n c t id rest w e =
    ap (λ (l : List ℕ). record w { written = set (set l 2 (n % 256)) 3 (n / 256 % 256) }) e

pub store16-ntail :
    (n c t id : ℕ) (rest : List ℕ) (w : Writer)
    → w.written ≡ header c t id rest
    → store16 4 n w ≡ record w { written = header c n id rest }
unfolding header store16
store16-ntail n c t id rest w e =
    ap (λ (l : List ℕ). record w { written = set (set l 4 (n % 256)) 5 (n / 256 % 256) }) e

pub load16-nchunks : (c t id : ℕ) (rest : List ℕ) → c < 2 ^ 16 → load16 2 (header c t id rest) ≡ c
unfolding header load16
load16-nchunks c t id rest h = omega arith

pub load16-ntail : (c t id : ℕ) (rest : List ℕ) → t < 2 ^ 16 → load16 4 (header c t id rest) ≡ t
unfolding header load16
load16-ntail c t id rest h = omega arith

pub length-header : (c t id : ℕ) (rest : List ℕ) → length (header c t id rest) ≡ 14 + length rest
unfolding header
length-header c t id rest = omega (arith, length-append (le_bytes 8 id) rest, length-le_bytes 8 id)

pub header-append :
    (c t id : ℕ) (rest more : List ℕ) → header c t id rest ++ more ≡ header c t id (rest ++ more)
unfolding header
header-append c t id rest more =
    ap (λ (l : List ℕ). 101 ∷ 0 ∷ c % 256 ∷ c / 256 % 256 ∷ t % 256 ∷ t / 256 % 256 ∷ l)
      (append_assoc (le_bytes 8 id) rest more)

-- Counting leaves the length, the room and the count of the stream alone.
pub increment16-keeps :
    (at : ℕ) (w : Writer)
    → (length (increment16 at w).written ≡ length w.written)
      × ((increment16 at w).room ≡ w.room)
      × ((increment16 at w).cnt ≡ w.cnt)
unfolding store16
increment16-keeps at w =
    (length-set (set w.written at _) (at + 1) _ ∙ length-set w.written at _, refl, refl)

-- The two counters of the header go up by one.
pub increment16-nchunks :
    (c t id : ℕ) (rest : List ℕ) (w : Writer)
    → c + 1 < 2 ^ 16
    → w.written ≡ header c t id rest
    → increment16 2 w ≡ record w { written = header (c + 1) t id rest }
increment16-nchunks c t id rest w small e =
    ap (λ (l : List ℕ). store16 2 ((load16 2 l + 1) % 2 ^ 16) w) e
    ∙ ap (λ (n : ℕ). store16 2 n w) (omega (arith, load16-nchunks c t id rest (omega arith)))
    ∙ store16-nchunks (c + 1) c t id rest w e

pub increment16-ntail :
    (c t id : ℕ) (rest : List ℕ) (w : Writer)
    → t + 1 < 2 ^ 16
    → w.written ≡ header c t id rest
    → increment16 4 w ≡ record w { written = header c (t + 1) id rest }
increment16-ntail c t id rest w small e =
    ap (λ (l : List ℕ). store16 4 ((load16 4 l + 1) % 2 ^ 16) w) e
    ∙ ap (λ (n : ℕ). store16 4 n w) (omega (arith, load16-ntail c t id rest (omega arith)))
    ∙ store16-ntail (t + 1) c t id rest w e

-- The bytes of one chunk, given the timestamp and the predictor that the one before left.
unfoldable pub sample_bytes : ℕ → Predictor → List Sample → List ℕ
sample_bytes prev p c = delta_bytes prev (ts_of c) ++ fcm_bytes (values_of c) p

abbrev pub next_prev : ℕ → List Sample → ℕ
next_prev prev c = last_or prev (ts_of c)

abbrev pub next_predictor : Predictor → List Sample → Predictor
next_predictor p c = (encode_all (values_of c) p).1

unfoldable pub chunks_bytes : ℕ → Predictor → List (List Sample) → List ℕ
chunks_bytes prev p [] = []
chunks_bytes prev p (c ∷ cs) =
    sample_bytes prev p c ++ chunks_bytes (next_prev prev c) (next_predictor p c) cs

unfoldable pub end_prev : ℕ → List (List Sample) → ℕ
end_prev prev [] = prev
end_prev prev (c ∷ cs) = end_prev (next_prev prev c) cs

unfoldable pub end_predictor : Predictor → List (List Sample) → Predictor
end_predictor p [] = p
end_predictor p (c ∷ cs) = end_predictor (next_predictor p c) cs

module _ (c : List Sample) where
  pub chunks_bytes-snoc :
      (prev : ℕ) (p : Predictor) (cs : List (List Sample))
      → chunks_bytes prev p (cs ++ c ∷ [])
        ≡ chunks_bytes prev p cs ++ sample_bytes (end_prev prev cs) (end_predictor p cs) c
  unfolding chunks_bytes end_prev end_predictor
  chunks_bytes-snoc prev p [] = append-nil (sample_bytes prev p c)
  chunks_bytes-snoc prev p (d ∷ cs) =
      ap (λ (l : List ℕ). sample_bytes prev p d ++ l)
        (chunks_bytes-snoc (next_prev prev d) (next_predictor p d) cs)
      ∙ sym (append_assoc (sample_bytes prev p d) _ _)

  pub end_prev-snoc :
      (prev : ℕ) (cs : List (List Sample))
      → end_prev prev (cs ++ c ∷ []) ≡ next_prev (end_prev prev cs) c
  unfolding end_prev
  end_prev-snoc prev [] = refl
  end_prev-snoc prev (d ∷ cs) = end_prev-snoc (next_prev prev d) cs

  pub end_predictor-snoc :
      (p : Predictor) (cs : List (List Sample))
      → end_predictor p (cs ++ c ∷ []) ≡ next_predictor (end_predictor p cs) c
  unfolding end_predictor
  end_predictor-snoc p [] = refl
  end_predictor-snoc p (d ∷ cs) = end_predictor-snoc (next_predictor p d) cs

-- The tail: sixteen bytes to a sample.
unfoldable pub plain_bytes : List Sample → List ℕ
plain_bytes [] = []
plain_bytes (s ∷ ss) = le_bytes 8 (s.0) ++ (le_bytes 8 (s.1) ++ plain_bytes ss)

pub plain_bytes-snoc :
    (s : Sample) (ss : List Sample)
    → plain_bytes (ss ++ s ∷ []) ≡ plain_bytes ss ++ (le_bytes 8 (s.0) ++ le_bytes 8 (s.1))
unfolding plain_bytes
plain_bytes-snoc s [] = ap (λ (l : List ℕ). le_bytes 8 (s.0) ++ l) (append-nil (le_bytes 8 (s.1)))
plain_bytes-snoc s (t ∷ ss) =
    ap (λ (l : List ℕ). le_bytes 8 (t.0) ++ (le_bytes 8 (t.1) ++ l)) (plain_bytes-snoc s ss)
    ∙ ap (λ (l : List ℕ). le_bytes 8 (t.0) ++ l)
        (sym (append_assoc (le_bytes 8 (t.1)) (plain_bytes ss) _))
    ∙ sym (append_assoc (le_bytes 8 (t.0)) (le_bytes 8 (t.1) ++ plain_bytes ss) _)

pub length-map {ℓ κ} :
    {A : Type ℓ} {B : Type κ} (f : A → B) (xs : List A) → length (map f xs) ≡ length xs
length-map f [] = refl
length-map f (x ∷ xs) = ap suc (length-map f xs)

-- A chunk fits the margin with room to spare.
pub length-sample_bytes :
    (prev : ℕ) (p : Predictor) (c : List Sample)
    → length c ≡ 16
    → length (sample_bytes prev p c) ≤ 282
unfolding sample_bytes
length-sample_bytes prev p c sixteen = omega (
  arith,
  length-append (delta_bytes prev (ts_of c)) (fcm_bytes (values_of c) p),
  length-delta_bytes prev (ts_of c) (length-map (λ s. s.0) c ∙ sixteen),
  length-fcm_bytes (values_of c) p (length-map (λ s. s.1) c ∙ sixteen),
)

-- A chunk takes a byte at least.
pub length-chunks_bytes :
    (prev : ℕ) (p : Predictor) (cs : List (List Sample))
    → length cs ≤ length (chunks_bytes prev p cs)
unfolding chunks_bytes sample_bytes delta_bytes base128_bytes
length-chunks_bytes prev p [] = omega arith
length-chunks_bytes prev p (c ∷ cs) =
    let ds : List ℕ = deltas prev (ts_of c) in
    let least_part : List ℕ = groups 9 (chunk_min ds) in
    let rest_part : List ℕ = chunk_bytes (relative (chunk_min ds) ds) in
    let values_part : List ℕ = fcm_bytes (values_of c) p in
    let others : List ℕ = chunks_bytes (next_prev prev c) (next_predictor p c) cs in
    omega (
      arith,
      length-append ((least_part ++ rest_part) ++ values_part) others,
      length-append (least_part ++ rest_part) values_part,
      length-append least_part rest_part,
      length-groups 9 (chunk_min ds),
      length-chunks_bytes (next_prev prev c) (next_predictor p c) cs,
    )

-- A plain sample takes sixteen.
pub length-plain_bytes : (ss : List Sample) → length (plain_bytes ss) ≡ 16 * length ss
unfolding plain_bytes
length-plain_bytes [] = refl
length-plain_bytes (s ∷ ss) = omega (
  arith,
  length-append (le_bytes 8 (s.0)) (le_bytes 8 (s.1) ++ plain_bytes ss),
  length-append (le_bytes 8 (s.1)) (plain_bytes ss),
  length-le_bytes 8 (s.0),
  length-le_bytes 8 (s.1),
  length-plain_bytes ss,
)
