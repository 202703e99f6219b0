-- ===== src/Compression/Fcm/Chunk.antt =====
-- A chunk of values: the bytes that `tput` writes.
use fast_stdb.Common.{
  ℕ, zero, suc, ◌+◌, ◌*◌, ◌%◌, ◌^◌, ◌<◌, ◌≤◌, ◌≡◌, refl, sym, ap, ◌∙◌, subst, arith, bit_or,
  bit_xor, true, false, List, [], ◌∷◌, ◌++◌, length, ◌==◌, if◌then◌else◌, length-append, All,
  Bool-cases, inl, inr, ne→==,
}
use fast_stdb.Common.Bits.{bit_xor-lt, shifted-bit_or}
use fast_stdb.Compression.Stream.{Writer, emit, le_bytes, put_raw, IsU64}
use fast_stdb.Compression.Stream.Laws.{
  Emits, put_raw-Emits, and_then-Emits, emit-nil, cnt-emit, length-le_bytes,
}
use fast_stdb.Compression.VByte
use fast_stdb.Compression.VByte.Chunk.{IsEven}
use fast_stdb.Compression.Predictor.{Predictor, predict_next, update}
use fast_stdb.Compression.Predictor.Invariant.{predict_next-IsU64}
use fast_stdb.Compression.Fcm.{
  encode, encode_all, sum_diff, pair_flag, put_pair, put_pairs, encode_value, commit, tput,
  FcmWriter, flag_of,
}
use fast_stdb.Compression.Fcm.Flag.{Fits, flag_of-lt, flag_of-Fits}
use fast_stdb.Compression.Fcm.Value.{value_bytes, length-value_bytes, encode_value-Emits}

-- A difference that can be stored under its flag, which leaves room for the shortcut byte.
abbrev pub IsStorable : ℕ × ℕ → Type 0
IsStorable e = IsU64 (e.0) × Fits (e.0) (pair_flag (e.1)) × (pair_flag (e.1) < 15)

diff-IsStorable : (d : ℕ) → IsU64 d → IsStorable (d, if d == 0 then 0xF else flag_of d)
unfolding pair_flag
diff-IsStorable zero h = (h, (0, omega arith, omega arith), omega arith)
diff-IsStorable (suc n) h =
    let ne : (suc n == 0) ≡ false = ne→== (suc n) 0 (λ e. absurd (omega arith)) in
    let kept : pair_flag (flag_of (suc n)) ≡ flag_of (suc n) =
      ground (arith, flag_of-lt (suc n) (omega arith) h) in
    rw ne (
      h,
      subst (Fits (suc n)) (sym kept) (flag_of-Fits (suc n) (omega arith) h),
      omega (arith, kept, flag_of-lt (suc n) (omega arith) h),
    )

pub encode-IsStorable : (bits : ℕ) (p : Predictor) → IsU64 bits → IsStorable ((encode bits p).0)
unfolding encode
encode-IsStorable bits p h =
    diff-IsStorable (bit_xor bits (predict_next p))
      (bit_xor-lt 64 bits (predict_next p) h (predict_next-IsU64 p))

-- The flags byte and the stored bytes of a pair.
unfoldable pub pair_bytes : ℕ × ℕ → ℕ × ℕ → List ℕ
pair_bytes (d, f) (d', f') =
    (pair_flag f * 16 + pair_flag f')
    ∷ (value_bytes d (pair_flag f) ++ value_bytes d' (pair_flag f'))

unfoldable pub pairs_bytes : List (ℕ × ℕ) → List ℕ
pairs_bytes [] = []
pairs_bytes (e ∷ []) = []
pairs_bytes (e ∷ e' ∷ es) = pair_bytes e e' ++ pairs_bytes es

abbrev pub Pairs : List (ℕ × ℕ) → Type 0
Pairs [] = Unit {0}
Pairs (e ∷ []) = ⊥
Pairs (e ∷ e' ∷ es) = IsStorable e × IsStorable e' × Pairs es

flags_byte :
    (f f' : ℕ)
    → f < 15
    → f' < 15
    → Emits (put_raw 1 (bit_or (f * 2 ^ 4 % 256) f')) ((f * 16 + f') ∷ [])
unfolding le_bytes
flags_byte f f' h h' w fits =
    let whole : f * 2 ^ 4 % 256 ≡ f * 2 ^ 4 = omega arith in
    put_raw-Emits 1 (bit_or (f * 2 ^ 4 % 256) f') w (omega (arith, length-le_bytes 1 0))
    ∙ ap (λ (n : ℕ). (true, emit w ((n % 256) ∷ [])))
        (ap (λ (n : ℕ). bit_or n f') whole ∙ shifted-bit_or 4 f f' (omega arith))
    ∙ ap (λ (n : ℕ). (true, emit w (n ∷ []))) (omega arith)

put_pair-Emits :
    (e e' : ℕ × ℕ)
    → IsStorable e
    → IsStorable e'
    → Emits (put_pair (e.0, pair_flag (e.1)) (e'.0, pair_flag (e'.1))) (pair_bytes e e')
unfolding put_pair pair_bytes
put_pair-Emits (d, f) (d', f') s s' =
    and_then-Emits _ _ ((pair_flag f * 16 + pair_flag f') ∷ []) _
      (flags_byte (pair_flag f) (pair_flag f') s.2 s'.2)
      (and_then-Emits (encode_value d (pair_flag f)) (encode_value d' (pair_flag f')) _ _
        (encode_value-Emits d (pair_flag f)) (encode_value-Emits d' (pair_flag f')))

put_pairs-Emits : (es : List (ℕ × ℕ)) → Pairs es → Emits (put_pairs es) (pairs_bytes es)
unfolding put_pairs pairs_bytes
put_pairs-Emits [] s w fits = ap (λ v. (true, v)) (sym (emit-nil w))
put_pairs-Emits (e ∷ []) s w fits = absurd s
put_pairs-Emits (e ∷ e' ∷ es) s w fits =
    and_then-Emits _ (put_pairs es) (pair_bytes e e') (pairs_bytes es) (put_pair-Emits e e' s.0 s.1)
      (put_pairs-Emits es s.2) w fits

encode_all-Pairs :
    (xs : List ℕ) (p : Predictor) → IsEven xs → All IsU64 xs → Pairs ((encode_all xs p).0)
unfolding encode_all encode
encode_all-Pairs [] p even small = tt
encode_all-Pairs (x ∷ []) p even small = absurd even
encode_all-Pairs (x ∷ y ∷ xs) p even small = (
  encode-IsStorable x p small.0,
  encode-IsStorable y (update p x) small.1.0,
  encode_all-Pairs xs (update (update p x) y) even small.1.1,
)

-- The bytes of a chunk: one byte for sixteen values that were all predicted.
unfoldable pub fcm_bytes : List ℕ → Predictor → List ℕ
fcm_bytes xs p =
    let es = (encode_all xs p).0 in if sum_diff 0 es == 0 then 0xFF ∷ [] else pairs_bytes es

VByte-commit_even : (w : Writer) → w.cnt % 2 ≡ 0 → VByte.commit w ≡ (true, w)
unfolding VByte.commit
VByte-commit_even w h = ground arith

-- `tput` writes the bytes of the chunk when they fit.
pub tput-fcm_bytes :
    (xs : List ℕ) (f : FcmWriter) (w : Writer)
    → IsEven xs
    → All IsU64 xs
    → f.nelements % 2 ≡ 0
    → w.cnt % 2 ≡ 0
    → length (fcm_bytes xs f.predictor) ≤ w.room
    → tput xs f w ≡ (
      true,
      record f { predictor = (encode_all xs f.predictor).1 },
      emit w (fcm_bytes xs f.predictor),
    )
unfolding tput fcm_bytes commit le_bytes
tput-fcm_bytes xs f w even small pairs whole fits =
    ground (arith, written, VByte-commit_even (emit w (fcm_bytes xs f.predictor)) even_cnt)
  where
    es : List (ℕ × ℕ)
    es = (encode_all xs f.predictor).0

    even_cnt : (emit w (fcm_bytes xs f.predictor)).cnt % 2 ≡ 0
    even_cnt = omega (arith, cnt-emit w (fcm_bytes xs f.predictor), whole)

    written :
        (if sum_diff 0 es == 0 then put_raw 1 0xFF w else put_pairs es w)
        ≡ (true, emit w (fcm_bytes xs f.predictor))
    written = elim (Bool-cases (sum_diff 0 es == 0)) [
      | inl zeros ↦ rw zeros (put_raw-Emits 1 0xFF w (rw zeros at fits))
      | inr mixed ↦
          rw mixed
            (put_pairs-Emits es (encode_all-Pairs xs f.predictor even small) w (rw mixed at fits))
    ]

length-pairs_bytes : (es : List (ℕ × ℕ)) → 2 * length (pairs_bytes es) ≤ 17 * length es
unfolding pairs_bytes pair_bytes
length-pairs_bytes [] = omega arith
length-pairs_bytes (e ∷ []) = omega arith
length-pairs_bytes ((d, f) ∷ (d', f') ∷ es) = omega (
  arith,
  length-append (pair_bytes (d, f) (d', f')) (pairs_bytes es),
  length-append (value_bytes d (pair_flag f)) (value_bytes d' (pair_flag f')),
  length-value_bytes d (pair_flag f),
  length-value_bytes d' (pair_flag f'),
  length-pairs_bytes es,
)

length-encode_all : (xs : List ℕ) (p : Predictor) → length ((encode_all xs p).0) ≡ length xs
unfolding encode_all encode
length-encode_all [] p = refl
length-encode_all (x ∷ xs) p = ap suc (length-encode_all xs (update p x))

pub length-fcm_bytes :
    (xs : List ℕ) (p : Predictor) → length xs ≡ 16 → length (fcm_bytes xs p) ≤ 136
unfolding fcm_bytes
length-fcm_bytes xs p sixteen =
    ground (arith, length-pairs_bytes ((encode_all xs p).0), length-encode_all xs p)
