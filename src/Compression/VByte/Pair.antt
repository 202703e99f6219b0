-- ===== src/Compression/VByte/Pair.antt =====
-- One pair of values: what `encode` writes, and what two calls of `next` make of it.
use fast_stdb.Common.{
  ℕ, zero, suc, ◌+◌, ◌*◌, ◌/◌, ◌%◌, ◌^◌, ◌<◌, ◌≡◌, refl, sym, ap, ◌∙◌, arith, bit_and, bit_or, true,
  false, some, List, [], ◌∷◌, ◌++◌, length, ltb, if◌then◌else◌, length-append, append_assoc,
  two_pow-add, eq→==, ◌≢◌,
}
use fast_stdb.Common.Bits.{bit_and-mask, bit_or-shifted}
use fast_stdb.Compression.Stream.{
  Writer, Reader, emit, le_bytes, read_raw, take_le, IsU64, space_left,
}
use fast_stdb.Compression.Stream.Laws.{Emits, emit-emit, emit-nil, length-le_bytes}
use fast_stdb.Compression.VByte.{
  ctrl_of, put_bytes, encode, read_bytes, read_value, read_first, next,
}
use fast_stdb.Compression.VByte.Length.{ctrl_of-le, lt-ctrl_of}
use native.Mathlib.Nat.{div-add-mod'}

put_bytes-emit : (n v : ℕ) (w : Writer) → put_bytes n v w ≡ emit w (le_bytes n v)
unfolding put_bytes le_bytes
put_bytes-emit zero v w = sym (emit-nil w)
put_bytes-emit (suc n) v w =
    put_bytes-emit n (v / 256) (emit w ((v % 256) ∷ []))
    ∙ emit-emit w ((v % 256) ∷ []) (le_bytes n (v / 256))

-- The control byte, the bytes of the first value, the bytes of the second.
unfoldable pub pair_bytes : ℕ → ℕ → List ℕ
pair_bytes a b = (ctrl_of a + ctrl_of b * 16) ∷ (le_bytes (ctrl_of a) a ++ le_bytes (ctrl_of b) b)

pub length-pair_bytes : (a b : ℕ) → length (pair_bytes a b) ≡ 1 + ctrl_of a + ctrl_of b
unfolding pair_bytes
length-pair_bytes a b = omega (
  arith,
  length-append (le_bytes (ctrl_of a) a) (le_bytes (ctrl_of b) b),
  length-le_bytes (ctrl_of a) a,
  length-le_bytes (ctrl_of b) b,
)

ctrlword_lem : (a b : ℕ) → bit_or (ctrl_of a) (ctrl_of b * 2 ^ 4) % 256 ≡ ctrl_of a + ctrl_of b * 16
ctrlword_lem a b = omega (
  arith,
  bit_or-shifted 4 (ctrl_of a) (ctrl_of b) (omega (arith, ctrl_of-le a)),
  ctrl_of-le a,
  ctrl_of-le b,
)

pair_written :
    (a b : ℕ) (w : Writer)
    → put_bytes (ctrl_of b) b (put_bytes (ctrl_of a) a (emit w ((ctrl_of a + ctrl_of b * 16) ∷ [])))
      ≡ emit w (pair_bytes a b)
unfolding pair_bytes
pair_written a b w =
    let head : List ℕ = (ctrl_of a + ctrl_of b * 16) ∷ [] in
    put_bytes-emit (ctrl_of b) b _
    ∙ ap (λ v. emit v (le_bytes (ctrl_of b) b))
        (put_bytes-emit (ctrl_of a) a (emit w head) ∙ emit-emit w head (le_bytes (ctrl_of a) a))
    ∙ emit-emit w (head ++ le_bytes (ctrl_of a) a) (le_bytes (ctrl_of b) b)

-- `encode` writes the pair exactly when it fits.
pub encode_lem :
    (a b : ℕ) (w : Writer)
    → encode a b w ≡ (
        if ltb w.room (length (pair_bytes a b))
        then (false, w)
        else (true, emit w (pair_bytes a b)))
unfolding encode space_left
encode_lem a b w = rw (length-pair_bytes a b, ctrlword_lem a b) (rw pair_written refl)

pub encode-Emits : (a b : ℕ) → Emits (encode a b) (pair_bytes a b)
encode-Emits a b w fits = rw encode_lem (ground arith)

pub read_bytes-le_bytes :
    (n i v acc : ℕ) (rest : List ℕ)
    → v < 2 ^ (8 * n)
    → acc < 2 ^ i
    → acc + v * 2 ^ i < 2 ^ 64
    → read_bytes n i acc (le_bytes n v ++ rest) ≡ some (acc + v * 2 ^ i, rest)
unfolding read_bytes le_bytes
read_bytes-le_bytes zero i v acc rest h small fits =
    let e : v ≡ 0 = omega arith in rw e (ap (λ (t : ℕ). some (t, rest)) (omega arith))
read_bytes-le_bytes (suc n) i v acc rest h small fits =
    rw (whole, bit_or-shifted i acc (v % 256) small)
      (read_bytes-le_bytes n (i + 8) (v / 256) (acc + v % 256 * 2 ^ i) rest (omega (arith, widen))
          (low (v % 256) (omega arith)) (omega (arith, split))
        ∙ ap (λ (t : ℕ). some (t, rest)) (omega (arith, split)))
  where
    widen : 2 ^ (8 * suc n) ≡ 256 * 2 ^ (8 * n)
    widen = let e : 8 * suc n ≡ 8 + 8 * n = omega arith in rw e (two_pow-add 8 (8 * n))

    split : v * 2 ^ i ≡ v % 256 * 2 ^ i + v / 256 * 2 ^ (i + 8)
    split = omega (
      arith,
      ap (λ (t : ℕ). t * 2 ^ i) (div-add-mod' v 256),
      ap (λ (t : ℕ). v / 256 * t) (two_pow-add i 8),
    )

    whole : v % 256 * 2 ^ i % 2 ^ 64 ≡ v % 256 * 2 ^ i
    whole = omega (arith, split)

    low : (g : ℕ) → g < 256 → acc + g * 2 ^ i < 2 ^ (i + 8)
    low g hg = rw (two_pow-add i 8) (grind arith)

read_value_lem :
    (v : ℕ) (r : Reader) (rest : List ℕ)
    → IsU64 v
    → r.rest ≡ le_bytes (ctrl_of v) v ++ rest
    → read_value (ctrl_of v) r ≡ some (v, record r { rest = rest })
unfolding read_value
read_value_lem v r rest h e =
    ground (
      arith,
      read_bytes-le_bytes (ctrl_of v) 0 v 0 rest (lt-ctrl_of v h) (omega arith) (omega arith),
    )

-- The reader between two pairs, with no zeros left from a shortcut.
abbrev pub Ready : Reader → Type 0
Ready r = (r.cnt % 2 ≡ 0) × (r.scut ≡ 0)

abbrev pub bump : ℕ → ℕ
bump cnt = (cnt + 1) % 2 ^ 32

-- `next` at an even count reads a control byte, at an odd count it has one.
pub next_even :
    (c : ℕ) (bytes : List ℕ) (r : Reader)
    → Ready r
    → r.rest ≡ c ∷ bytes
    → next r ≡ read_first c (record r { rest = bytes; cnt = bump r.cnt })
unfolding next read_raw take_le
next_even c bytes r ready e = rw (eq→== _ _ ready.0, eq→== _ _ ready.1) (ground arith)

next_odd :
    (r : Reader)
    → r.cnt % 2 ≡ 1
    → r.scut ≡ 0
    → next r ≡ read_value (r.ctrl / 16) (record r { cnt = bump r.cnt })
unfolding next
next_odd r odd none_left = ground arith

control : ℕ → ℕ → ℕ
control a b = ctrl_of a + ctrl_of b * 16

control_fields :
    (a b : ℕ)
    → (bit_and (control a b) 0xF ≡ ctrl_of a)
      × (control a b / 16 ≡ ctrl_of b)
      × (control a b / 2 ^ 4 ≢ 0xF)
unfolding control
control_fields a b = (
  bit_and-mask 4 (ctrl_of a + ctrl_of b * 16) ∙ omega (arith, ctrl_of-le a, ctrl_of-le b),
  omega (arith, ctrl_of-le a, ctrl_of-le b),
  omega (arith, ctrl_of-le a, ctrl_of-le b),
)

read_first_lem :
    (a b : ℕ) (r : Reader) (rest : List ℕ)
    → IsU64 a
    → r.rest ≡ le_bytes (ctrl_of a) a ++ rest
    → read_first (control a b) r ≡ some (a, record r { rest = rest; ctrl = control a b })
unfolding read_first
read_first_lem a b r rest h e =
    ground (arith, control_fields a b, read_value_lem a (record r { ctrl = control a b }) rest h e)

-- The reader after both values of a pair.
unfoldable pub after_pair : ℕ → ℕ → Reader → List ℕ → Reader
unfolding control
after_pair a b r rest = record r { rest = rest; cnt = bump (bump r.cnt); ctrl = control a b }

pub after_pair-Ready :
    (a b : ℕ) (r : Reader) (rest : List ℕ) → Ready r → Ready (after_pair a b r rest)
unfolding after_pair
after_pair-Ready a b r rest ready = omega arith

-- Two calls of `next` give the two values of the pair, and stop behind its bytes.
pub next-next :
    (a b : ℕ) (r : Reader) (rest : List ℕ)
    → IsU64 a
    → IsU64 b
    → Ready r
    → r.rest ≡ pair_bytes a b ++ rest
    → (mid : Reader) × (next r ≡ some (a, mid)) × (next mid ≡ some (b, after_pair a b r rest))
unfolding pair_bytes after_pair
next-next a b r rest ha hb ready e = (mid, first, second)
  where
    tail : List ℕ
    tail = le_bytes (ctrl_of b) b ++ rest

    mid : Reader
    mid = record r { rest = tail; cnt = bump r.cnt; ctrl = control a b }

    first : next r ≡ some (a, mid)
    first =
        next_even (control a b) (le_bytes (ctrl_of a) a ++ tail) r ready (
          e
          ∙ ap (λ (t : List ℕ). control a b ∷ t)
              (append_assoc (le_bytes (ctrl_of a) a) (le_bytes (ctrl_of b) b) rest))
        ∙ read_first_lem a b (record r { rest = le_bytes (ctrl_of a) a ++ tail; cnt = bump r.cnt })
            tail ha refl

    second :
        next mid ≡ some (b, record r { rest = rest; cnt = bump (bump r.cnt); ctrl = control a b })
    second =
        next_odd mid (omega arith) ready.1
        ∙ ap (λ (n : ℕ). read_value n (record mid { cnt = bump mid.cnt })) (control_fields a b).1
        ∙ read_value_lem b (record mid { cnt = bump mid.cnt }) rest hb refl
