-- ===== src/Compression/VByte/Chunk.antt =====
-- A whole chunk: `tput` of a list of values, and the calls of `next` that read it.
use fast_stdb.Common.{
  ℕ, zero, suc, ◌+◌, ◌*◌, ◌%◌, ◌≤◌, ◌≡◌, refl, sym, ap, ◌∙◌, arith, true, Option, none, some, List,
  [], ◌∷◌, ◌++◌, length, if◌then◌else◌, length-append, append_assoc, All, Bool-cases, inl, inr,
  replicate, subst,
}
use fast_stdb.Compression.Stream.{Reader, IsU64, space_left}
use fast_stdb.Compression.Stream.Laws.{Emits, emit-nil, and_then-Emits}
use fast_stdb.Compression.VByte.{
  encode, encode_pairs, tput, shortcut, all_zero, read_first, next, chunk_size,
}
use fast_stdb.Compression.VByte.Length.{ctrl_of-le}
use fast_stdb.Compression.VByte.Pair.{
  pair_bytes, length-pair_bytes, encode-Emits, Ready, bump, next_even, next-next, after_pair,
  after_pair-Ready,
}

-- The values come in pairs.
abbrev pub IsEven : List ℕ → Type 0
IsEven [] = Unit {0}
IsEven (x ∷ []) = ⊥
IsEven (x ∷ y ∷ xs) = IsEven xs

unfoldable pub pairs_bytes : List ℕ → List ℕ
pairs_bytes [] = []
pairs_bytes (x ∷ []) = []
pairs_bytes (x ∷ y ∷ xs) = pair_bytes x y ++ pairs_bytes xs

unfoldable pub chunk_bytes : List ℕ → List ℕ
chunk_bytes xs = if all_zero xs then 0xFF ∷ [] else pairs_bytes xs

encode_pairs-Emits : (xs : List ℕ) → IsEven xs → Emits (encode_pairs xs) (pairs_bytes xs)
unfolding encode_pairs pairs_bytes
encode_pairs-Emits [] even w fits = ap (λ v. (true, v)) (sym (emit-nil w))
encode_pairs-Emits (x ∷ []) even w fits = absurd even
encode_pairs-Emits (x ∷ y ∷ xs) even w fits =
    and_then-Emits (encode x y) (encode_pairs xs) (pair_bytes x y) (pairs_bytes xs)
      (encode-Emits x y) (encode_pairs-Emits xs even) w fits

-- `tput` writes the bytes of the chunk when they fit.
pub tput-Emits : (xs : List ℕ) → IsEven xs → Emits (tput xs) (chunk_bytes xs)
unfolding tput chunk_bytes shortcut space_left
tput-Emits xs even w = elim (Bool-cases (all_zero xs)) [
  | inl zeros ↦ rw (zeros, chunk_bytes) (λ fits. ground arith)
  | inr mixed ↦ rw (mixed, chunk_bytes) (λ fits. rw (encode_pairs-Emits xs even w fits) refl)
]

-- A pair takes seventeen bytes at most, so a chunk of sixteen values takes 136.
pub length-pairs_bytes : (xs : List ℕ) → 2 * length (pairs_bytes xs) ≤ 17 * length xs
unfolding pairs_bytes
length-pairs_bytes [] = omega arith
length-pairs_bytes (x ∷ []) = omega arith
length-pairs_bytes (x ∷ y ∷ xs) = omega (
  arith,
  length-append (pair_bytes x y) (pairs_bytes xs),
  length-pair_bytes x y,
  ctrl_of-le x,
  ctrl_of-le y,
  length-pairs_bytes xs,
)

pub length-chunk_bytes :
    (xs : List ℕ) → 2 ≤ length xs → 2 * length (chunk_bytes xs) ≤ 17 * length xs
unfolding chunk_bytes
length-chunk_bytes xs h = ground (arith, length-pairs_bytes xs)

-- `n` calls of `next`, which the readers of the timestamps make one after the other.
unfoldable pub next_many : ℕ → Reader → Option (List ℕ × Reader)
next_many zero r = some ([], r)
next_many (suc n) r = elim (next r) [
  | none ↦ none
  | some (x, r') ↦ elim (next_many n r') [ none ↦ none | some (xs, r'') ↦ some (x ∷ xs, r'') ]
]

next_many-suc :
    (n x : ℕ) (xs : List ℕ) (r r' r'' : Reader)
    → next r ≡ some (x, r')
    → next_many n r' ≡ some (xs, r'')
    → next_many (suc n) r ≡ some (x ∷ xs, r'')
unfolding next_many
next_many-suc n x xs r r' r'' e h = ground arith

-- The calls give `xs`, and the reader ends ready for the next chunk, behind the bytes.
abbrev pub Reads : List ℕ → List ℕ → Reader → Type 0
Reads xs rest r =
    (r' : Reader) × (next_many (length xs) r ≡ some (xs, r')) × (r'.rest ≡ rest) × Ready r'

Reads-cons :
    (x : ℕ) (xs rest : List ℕ) (r r' : Reader)
    → next r ≡ some (x, r')
    → Reads xs rest r'
    → Reads (x ∷ xs) rest r
Reads-cons x xs rest r r' e (r'', many, at, ready) =
    (r'', next_many-suc (length xs) x xs r r' r'' e many, at, ready)

Reads-pairs :
    (xs rest : List ℕ) (r : Reader)
    → IsEven xs
    → All IsU64 xs
    → Ready r
    → r.rest ≡ pairs_bytes xs ++ rest
    → Reads xs rest r
unfolding next_many pairs_bytes after_pair
Reads-pairs [] rest r even small ready e = (r, refl, e, ready)
Reads-pairs (x ∷ []) rest r even small ready e = absurd even
Reads-pairs (x ∷ y ∷ xs) rest r even small ready e =
    let behind : List ℕ = pairs_bytes xs ++ rest in
    let (mid, first, second) =
      next-next x y r behind small.0 small.1.0 ready
        (e ∙ append_assoc (pair_bytes x y) (pairs_bytes xs) rest) in
    Reads-cons x (y ∷ xs) rest r mid first (
      Reads-cons y xs rest mid (after_pair x y r behind) second (
        Reads-pairs xs rest (after_pair x y r behind) even small.1.1
          (after_pair-Ready x y r behind ready) refl))

-- The zeros that are left from a shortcut take no bytes.
next-zero :
    (n : ℕ) (r : Reader)
    → r.ctrl ≡ 0xFF
    → r.scut ≡ suc n
    → next r ≡ some (0, record r { cnt = bump r.cnt; scut = n })
unfolding next
next-zero n r hc hs = ground arith

Reads-zeros :
    (n : ℕ) (rest : List ℕ) (r : Reader)
    → r.ctrl ≡ 0xFF
    → r.scut ≡ n
    → (r.cnt + n) % 2 ≡ 0
    → r.rest ≡ rest
    → Reads (replicate n 0) rest r
unfolding next_many
Reads-zeros zero rest r hc hs even e = (r, refl, e, (omega arith, hs))
Reads-zeros (suc n) rest r hc hs even e =
    Reads-cons 0 (replicate n 0) rest r (record r { cnt = bump r.cnt; scut = n })
      (next-zero n r hc hs)
      (Reads-zeros n rest (record r { cnt = bump r.cnt; scut = n }) hc refl (omega arith) e)

next-shortcut :
    (rest : List ℕ) (r : Reader)
    → Ready r
    → r.rest ≡ 0xFF ∷ rest
    → next r ≡ some (0, record r { rest = rest; cnt = bump r.cnt; ctrl = 0xFF; scut = 15 })
unfolding read_first
next-shortcut rest r ready e = next_even 0xFF rest r ready e

all_zero-replicate : (xs : List ℕ) → all_zero xs ≡ true → xs ≡ replicate (length xs) 0
unfolding all_zero
all_zero-replicate [] h = refl
all_zero-replicate (x ∷ xs) h = ground (arith, all_zero-replicate xs)

pub IsEven-length : (xs : List ℕ) → length xs % 2 ≡ 0 → IsEven xs
IsEven-length [] h = tt
IsEven-length (x ∷ []) h = absurd (omega arith)
IsEven-length (x ∷ y ∷ xs) h = IsEven-length xs (omega arith)

Reads-shortcut :
    (rest : List ℕ) (r : Reader) → Ready r → r.rest ≡ 0xFF ∷ rest → Reads (replicate 16 0) rest r
Reads-shortcut rest r ready e =
    let r' : Reader = record r { rest = rest; cnt = bump r.cnt; ctrl = 0xFF; scut = 15 } in
    Reads-cons 0 (replicate 15 0) rest r r' (next-shortcut rest r ready e)
      (Reads-zeros 15 rest r' refl refl (omega arith) refl)

-- Sixteen 64-bit values are read back from the bytes of their chunk, whatever follows.
pub Reads-chunk :
    (xs rest : List ℕ) (r : Reader)
    → length xs ≡ chunk_size
    → All IsU64 xs
    → Ready r
    → r.rest ≡ chunk_bytes xs ++ rest
    → Reads xs rest r
unfolding chunk_bytes
Reads-chunk xs rest r sixteen small ready e = elim (Bool-cases (all_zero xs)) [
  | inl zeros ↦
      let same : xs ≡ replicate 16 0 =
        all_zero-replicate xs zeros ∙ ap (λ (n : ℕ). replicate n 0) sixteen in
      subst (λ ys. Reads ys rest r) (sym same) (Reads-shortcut rest r ready (e ∙ rw zeros refl))
  | inr mixed ↦
      Reads-pairs xs rest r (IsEven-length xs (omega arith)) small ready (e ∙ rw mixed refl)
]
