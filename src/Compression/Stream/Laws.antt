-- ===== src/Compression/Stream/Laws.antt =====
-- What the raw stream operations do, as equations on the bytes written and left.
use fast_stdb.Common.{
  ℕ, zero, suc, ◌+◌, ◌-◌, ◌*◌, ◌/◌, ◌^◌, ◌<◌, ◌≤◌, ◌≡◌, refl, ap, ◌∙◌, arith, Bool, true, some,
  List, [], ◌++◌, length, length-append, append_assoc, append-nil, two_pow-add, All,
}
use fast_stdb.Compression.Stream.{Writer, emit, le_bytes, put_raw, take_le, ◌and_then◌, IsByte}

pub emit-nil : (w : Writer) → emit w [] ≡ w
unfolding emit
emit-nil w = ground (arith, append-nil w.written)

pub emit-emit : (w : Writer) (a b : List ℕ) → emit (emit w a) b ≡ emit w (a ++ b)
unfolding emit
emit-emit w a b = ground (arith, append_assoc w.written a b, length-append a b)

pub room-emit : (w : Writer) (a : List ℕ) → (emit w a).room ≡ w.room - length a
unfolding emit
room-emit w a = refl

pub cnt-emit : (w : Writer) (a : List ℕ) → (emit w a).cnt ≡ w.cnt
unfolding emit
cnt-emit w a = refl

pub written-emit : (w : Writer) (a : List ℕ) → (emit w a).written ≡ w.written ++ a
unfolding emit
written-emit w a = refl

pub length-le_bytes : (n v : ℕ) → length (le_bytes n v) ≡ n
unfolding le_bytes
length-le_bytes zero v = refl
length-le_bytes (suc n) v = ap suc (length-le_bytes n (v / 256))

pub le_bytes-IsByte : (n v : ℕ) → All IsByte (le_bytes n v)
unfolding le_bytes
le_bytes-IsByte zero v = tt
le_bytes-IsByte (suc n) v = (omega arith, le_bytes-IsByte n (v / 256))

-- A value that fits `n` bytes is read back from them, whatever follows.
pub take_le-le_bytes :
    (n v : ℕ) (rest : List ℕ) → v < 2 ^ (8 * n) → take_le n (le_bytes n v ++ rest) ≡ some (v, rest)
unfolding take_le le_bytes
take_le-le_bytes zero v rest h = ground arith
take_le-le_bytes (suc n) v rest h =
    rw (take_le-le_bytes n (v / 256) rest (omega (arith, widen)))
      (ap (λ (t : ℕ). some (t, rest)) (omega arith))
  where
    widen : 2 ^ (8 * suc n) ≡ 256 * 2 ^ (8 * n)
    widen = let e : 8 * suc n ≡ 8 + 8 * n = omega arith in rw e (two_pow-add 8 (8 * n))

-- A step of a writer appends `bytes` whenever they fit.
abbrev pub Emits : (Writer → Bool × Writer) → List ℕ → Type 0
Emits f bytes = (w : Writer) → length bytes ≤ w.room → f w ≡ (true, emit w bytes)

pub put_raw-Emits : (n v : ℕ) → Emits (put_raw n v) (le_bytes n v)
unfolding put_raw
put_raw-Emits n v w h = ground (arith, length-le_bytes n v)

pub and_then-Emits :
    (f g : Writer → Bool × Writer) (a b : List ℕ)
    → Emits f a
    → Emits g b
    → Emits (λ w. f w and_then g) (a ++ b)
and_then-Emits f g a b hf hg w h = rw (hf w (omega (arith, length-append a b))) (
    hg (emit w a) (omega (arith, length-append a b, room-emit w a))
    ∙ ap (λ v. (true, v)) (emit-emit w a b))
