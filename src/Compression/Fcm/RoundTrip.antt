-- ===== src/Compression/Fcm/RoundTrip.antt =====
-- A chunk of values read back: `next` after `tput`.
use fast_stdb.Common.{
  ℕ, suc, ◌+◌, ◌*◌, ◌/◌, ◌%◌, ◌^◌, ◌<◌, ◌≤◌, ◌≡◌, refl, sym, ap, ◌∙◌, arith, bit_and, bit_or,
  bit_xor, some, List, [], ◌∷◌, ◌++◌, length, ◌==◌, if◌then◌else◌, append_assoc, All, Bool-cases,
  inl, inr, ==→eq, ne→==,
}
use fast_stdb.Common.Bits.{bit_xor-cancel, bit_and-mask, bit_or-le}
use fast_stdb.Compression.Stream.{Reader, read_raw, take_le, IsU64}
use fast_stdb.Compression.VByte.Pair.{Ready}
use fast_stdb.Compression.VByte.Chunk.{IsEven, IsEven-length}
use fast_stdb.Compression.Predictor.{Predictor, predict_next, update}
use fast_stdb.Compression.Fcm.{
  encode, encode_all, sum_diff, pair_flag, FcmReader, finish, next_flag, next,
}
use fast_stdb.Compression.Fcm.Value.{value_bytes, decode_value_lem}
use fast_stdb.Compression.Fcm.Chunk.{encode-IsStorable, pair_bytes, pairs_bytes, fcm_bytes}

-- `next` gives the values one after the other, and `P` holds of the readers behind them.
abbrev pub Yields : (FcmReader → Reader → Type 0) → List ℕ → FcmReader → Reader → Type 0
Yields P [] f r = P f r
Yields P (x ∷ xs) f r =
    (f' : FcmReader) × (r' : Reader) × (next f r ≡ some (x, f', r')) × Yields P xs f' r'

-- The readers between two chunks: the predictor `p`, no zeros pending, and the bytes `rest` left.
abbrev pub Between : Predictor → List ℕ → FcmReader → Reader → Type 0
Between p rest f r =
    (f.predictor ≡ p) × (f.iter % 2 ≡ 0) × (f.nzeroes ≡ 0) × (r.rest ≡ rest) × Ready r

-- The difference to the prediction gives the value back.
finish-encode :
    (x : ℕ) (p : Predictor) (f : FcmReader) (r : Reader)
    → f.predictor ≡ p
    → finish f ((encode x p).0.0, r) ≡ (x, record f { predictor = update p x }, r)
unfolding finish encode
finish-encode x p f r same = ground (arith, bit_xor-cancel (predict_next p) x)

next-flags :
    (flags : ℕ) (bytes : List ℕ) (f : FcmReader) (r : Reader)
    → f.iter % 2 ≡ 0
    → f.nzeroes ≡ 0
    → r.rest ≡ flags ∷ bytes
    → next f r
      ≡ next_flag
          (flags / 2 ^ 4)
          (record f {
            iter = (f.iter + 1) % 2 ^ 32;
            flags = flags;
            nzeroes = if flags == 0xFF then 16 else 0;
          })
          (record r { rest = bytes })
unfolding next read_raw take_le
next-flags flags bytes f r even none_left e = ground arith

next-second :
    (f : FcmReader) (r : Reader)
    → f.iter % 2 ≡ 1
    → next f r ≡ next_flag (bit_and f.flags 0xF) (record f { iter = (f.iter + 1) % 2 ^ 32 }) r
unfolding next
next-second f r odd = ground arith

-- One stored value.
next_flag-value :
    (x : ℕ) (p : Predictor) (f : FcmReader) (r : Reader) (rest : List ℕ)
    → IsU64 x
    → f.predictor ≡ p
    → f.nzeroes ≡ 0
    → r.rest ≡ value_bytes ((encode x p).0.0) (pair_flag ((encode x p).0.1)) ++ rest
    → next_flag (pair_flag ((encode x p).0.1)) f r
      ≡ some (x, record f { predictor = update p x }, record r { rest = rest })
unfolding next_flag
next_flag-value x p f r rest h same none_left e =
    let (small, fits, flag) = encode-IsStorable x p h in
    ground (
      arith,
      decode_value_lem ((encode x p).0.0) (pair_flag ((encode x p).0.1)) r rest fits small e,
      finish-encode x p f (record r { rest = rest }) same,
    )

-- One value of a run of predicted ones.
next_flag-zero :
    (x n flag : ℕ) (p : Predictor) (f : FcmReader) (r : Reader)
    → (encode x p).0.0 ≡ 0
    → f.predictor ≡ p
    → f.nzeroes ≡ suc n
    → next_flag flag f r ≡ some (x, record f { predictor = update p x; nzeroes = n }, r)
unfolding next_flag
next_flag-zero x n flag p f r predicted same pending =
    let step : finish (record f { nzeroes = n }) (0, r)
        ≡ (x, record f { predictor = update p x; nzeroes = n }, r) =
      ap (λ (d : ℕ). finish (record f { nzeroes = n }) (d, r)) (sym predicted)
      ∙ finish-encode x p (record f { nzeroes = n }) r same in
    ground (arith, step)

next-pending :
    (n : ℕ) (f : FcmReader) (r : Reader)
    → f.nzeroes ≡ suc n
    → next f r ≡ next_flag (bit_and f.flags 0xF) (record f { iter = (f.iter + 1) % 2 ^ 32 }) r
unfolding next
next-pending n f r pending = ground arith

-- Every value of the list is what the predictor says.
abbrev Predicted : Predictor → List ℕ → Type 0
Predicted p [] = Unit {0}
Predicted p (x ∷ xs) = ((encode x p).0.0 ≡ 0) × Predicted (update p x) xs

sum_diff-le : (acc : ℕ) (es : List (ℕ × ℕ)) → acc ≤ sum_diff acc es
unfolding sum_diff
sum_diff-le acc [] = omega arith
sum_diff-le acc ((d, f) ∷ es) = omega (arith, bit_or-le acc d, sum_diff-le (bit_or acc d) es)

sum_diff-Predicted :
    (acc : ℕ) (p : Predictor) (xs : List ℕ)
    → sum_diff acc ((encode_all xs p).0) ≡ 0
    → Predicted p xs
unfolding sum_diff encode_all encode
sum_diff-Predicted acc p [] h = tt
sum_diff-Predicted acc p (x ∷ xs) h =
    let d : ℕ = bit_xor x (predict_next p) in
    (
      omega
          (arith, h, bit_or-le acc d, sum_diff-le (bit_or acc d) ((encode_all xs (update p x)).0)),
      sum_diff-Predicted (bit_or acc d) (update p x) xs h,
    )

last_predictor : List ℕ → Predictor → Predictor
last_predictor xs p = (encode_all xs p).1

Yields-zeros :
    (xs rest : List ℕ) (p : Predictor) (f : FcmReader) (r : Reader)
    → Predicted p xs
    → f.predictor ≡ p
    → f.nzeroes ≡ length xs
    → (f.iter + length xs) % 2 ≡ 0
    → r.rest ≡ rest
    → Ready r
    → Yields (Between (last_predictor xs p) rest) xs f r
unfolding last_predictor encode_all encode
Yields-zeros [] rest p f r predicted same left even e ready = (same, omega arith, left, e, ready)
Yields-zeros (x ∷ xs) rest p f r predicted same left even e ready =
    let f' : FcmReader = record f {
      iter = (f.iter + 1) % 2 ^ 32;
      predictor = update p x;
      nzeroes = length xs;
    } in
    (
      f',
      r,
      next-pending (length xs) f r left
          ∙ next_flag-zero x (length xs) (bit_and f.flags 0xF) p
              (record f { iter = (f.iter + 1) % 2 ^ 32 }) r predicted.0 same left,
      Yields-zeros xs rest (update p x) f' r predicted.1 refl refl (omega arith) e ready,
    )

-- The shortcut byte stands for sixteen predicted values.
Yields-shortcut :
    (xs rest : List ℕ) (p : Predictor) (f : FcmReader) (r : Reader)
    → length xs ≡ 16
    → Predicted p xs
    → Between p (0xFF ∷ rest) f r
    → Yields (Between (last_predictor xs p) rest) xs f r
unfolding last_predictor encode_all encode
Yields-shortcut [] rest p f r sixteen predicted b = absurd (omega arith)
Yields-shortcut (x ∷ xs) rest p f r sixteen predicted (same, even, none_left, e, ready) =
    let r' : Reader = record r { rest = rest } in
    let f₁ : FcmReader = record f { iter = (f.iter + 1) % 2 ^ 32; flags = 0xFF; nzeroes = 16 } in
    let f' : FcmReader = record f₁ { predictor = update p x; nzeroes = 15 } in
    (
      f',
      r',
      next-flags 0xFF rest f r even none_left e
          ∙ next_flag-zero x 15 (0xFF / 2 ^ 4) p f₁ r' predicted.0 same refl,
      Yields-zeros xs rest (update p x) f' r' predicted.1 refl (omega arith) (omega arith) refl
          ready,
    )

abbrev pending : ℕ → ℕ
pending flags = if flags == 0xFF then 16 else 0

flags_fields :
    (a b : ℕ)
    → a < 15
    → b < 15
    → ((a * 16 + b) / 2 ^ 4 ≡ a) × (bit_and (a * 16 + b) 0xF ≡ b) × (pending (a * 16 + b) ≡ 0)
flags_fields a b ha hb = (
  omega arith,
  bit_and-mask 4 (a * 16 + b) ∙ omega arith,
  rw (ne→== (a * 16 + b) 0xFF (λ e. absurd (omega arith))) refl,
)

-- Two calls of `next` give the two values of a pair, and stop behind its bytes.
next-pair :
    (x y : ℕ) (rest : List ℕ) (p : Predictor) (f : FcmReader) (r : Reader)
    → IsU64 x
    → IsU64 y
    → Between p (pair_bytes ((encode x p).0) ((encode y (update p x)).0) ++ rest) f r
    → (f₁ : FcmReader) × (r₁ : Reader) × (f₂ : FcmReader) × (next f r ≡ some (x, f₁, r₁))
      × (next f₁ r₁ ≡ some (y, f₂, record r { rest = rest }))
      × Between (update (update p x) y) rest f₂ (record r { rest = rest })
unfolding pair_bytes
next-pair x y rest p f r hx hy (same, even, none_left, e, ready) =
    (f₁, r₁, f₂, first, second, (refl, omega arith, refl, refl, ready))
  where
    a : ℕ
    a = pair_flag ((encode x p).0.1)

    b : ℕ
    b = pair_flag ((encode y (update p x)).0.1)

    fields :
        ((a * 16 + b) / 2 ^ 4 ≡ a) × (bit_and (a * 16 + b) 0xF ≡ b) × (pending (a * 16 + b) ≡ 0)
    fields =
        flags_fields a b ((encode-IsStorable x p hx).2) ((encode-IsStorable y (update p x) hy).2)

    ys : List ℕ
    ys = value_bytes ((encode y (update p x)).0.0) b

    xs : List ℕ
    xs = value_bytes ((encode x p).0.0) a

    r₀ : Reader
    r₀ = record r { rest = xs ++ (ys ++ rest) }

    r₁ : Reader
    r₁ = record r { rest = ys ++ rest }

    f₀ : ℕ → FcmReader
    f₀ z = record f { iter = (f.iter + 1) % 2 ^ 32; flags = a * 16 + b; nzeroes = z }

    f₁ : FcmReader
    f₁ = record (f₀ 0) { predictor = update p x }

    f₂ : FcmReader
    f₂ = record f₁ { iter = (f₁.iter + 1) % 2 ^ 32; predictor = update (update p x) y }

    first : next f r ≡ some (x, f₁, r₁)
    first =
        next-flags (a * 16 + b) (xs ++ (ys ++ rest)) f r even none_left
          (e ∙ ap (λ (t : List ℕ). (a * 16 + b) ∷ t) (append_assoc xs ys rest))
        ∙ ap (λ (n : ℕ). next_flag n (f₀ (pending (a * 16 + b))) r₀) fields.0
        ∙ ap (λ (z : ℕ). next_flag a (f₀ z) r₀) fields.2
        ∙ next_flag-value x p (f₀ 0) r₀ (ys ++ rest) hx same refl refl

    second : next f₁ r₁ ≡ some (y, f₂, record r { rest = rest })
    second =
        next-second f₁ r₁ (omega arith)
        ∙ ap (λ (n : ℕ). next_flag n (record f₁ { iter = (f₁.iter + 1) % 2 ^ 32 }) r₁) fields.1
        ∙ next_flag-value y (update p x) (record f₁ { iter = (f₁.iter + 1) % 2 ^ 32 }) r₁ rest hy
            refl refl refl

Yields-pairs :
    (xs rest : List ℕ) (p : Predictor) (f : FcmReader) (r : Reader)
    → IsEven xs
    → All IsU64 xs
    → Between p (pairs_bytes ((encode_all xs p).0) ++ rest) f r
    → Yields (Between (last_predictor xs p) rest) xs f r
unfolding last_predictor encode_all pairs_bytes encode
Yields-pairs [] rest p f r whole small b = b
Yields-pairs (x ∷ []) rest p f r whole small b = absurd whole
Yields-pairs (x ∷ y ∷ xs) rest p f r whole small (same, even, none_left, e, ready) =
    let others : List ℕ = pairs_bytes ((encode_all xs (update (update p x) y)).0) in
    let (f₁, r₁, f₂, first, second, between) =
      next-pair x y (others ++ rest) p f r small.0 small.1.0 (
        same,
        even,
        none_left,
        e ∙ append_assoc (pair_bytes ((encode x p).0) ((encode y (update p x)).0)) others rest,
        ready,
      ) in
    (
      f₁,
      r₁,
      first,
      (
        f₂,
        record r { rest = others ++ rest },
        second,
        Yields-pairs xs rest (update (update p x) y) f₂ (record r { rest = others ++ rest }) whole
            small.1.1 between,
      ),
    )

-- Sixteen values are read back from the bytes of their chunk, whatever follows, and the reader's
-- predictor ends as the writer's does.
pub Yields-fcm_bytes :
    (xs rest : List ℕ) (p : Predictor) (f : FcmReader) (r : Reader)
    → length xs ≡ 16
    → All IsU64 xs
    → Between p (fcm_bytes xs p ++ rest) f r
    → Yields (Between ((encode_all xs p).1) rest) xs f r
unfolding fcm_bytes last_predictor
Yields-fcm_bytes xs rest p f r sixteen small (same, even, none_left, e, ready) =
    elim (Bool-cases (sum_diff 0 ((encode_all xs p).0) == 0)) [
      | inl zeros ↦
          Yields-shortcut xs rest p f r sixteen (sum_diff-Predicted 0 p xs (==→eq _ _ zeros))
            (same, even, none_left, e ∙ rw zeros refl, ready)
      | inr mixed ↦
          Yields-pairs xs rest p f r (IsEven-length xs (omega arith)) small
            (same, even, none_left, e ∙ rw mixed refl, ready)
    ]
