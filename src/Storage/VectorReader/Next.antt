-- ===== src/Storage/VectorReader/Next.antt =====
-- The vectored reader against the contiguous one.
use fast_stdb.Common.{
  ℕ, zero, suc, ◌+◌, ◌-◌, ◌*◌, ◌/◌, ◌%◌, ◌^◌, ◌<◌, ◌≤◌, ◌≡◌, ◌⊎◌, inl, inr, refl, ap, ◌∙◌, subst,
  arith, bit_and, bit_or, Option, none, some, List, [], ◌∷◌, length, drop, get_elem?, ◌==◌, ◌&&◌,
  not, Bool-cases, lt→ltb, le→ltb,
}
use native.Mathlib.Decide.{dec_lt}
use fast_stdb.Common.Memory.{length-drop, length-take}
use fast_stdb.Compression.Stream.{Reader, read_raw, take_le}
use fast_stdb.Storage.Iovec.{IovecBlock, bytes_to_read}
use fast_stdb.Storage.Iovec.Shape.{Holds, view, flat, length-flat}
use fast_stdb.Storage.Iovec.Append.{Holds-le}
use fast_stdb.Storage.MetaVolume.Access.{get_elem?-lt}
use fast_stdb.Storage.VectorReader.{
  VectorReader, space_left, get_byte, read_byte, read_bytes, read_value, read_first, first_of_pair,
  next,
}
use fast_stdb.Storage.VectorReader.Refine.{get-view}

-- The contiguous reader of the bytes that are left.
unfoldable pub flat_reader : VectorReader → Reader
flat_reader r = record {
  rest = drop r.pos (view r.block);
  cnt = r.cnt;
  ctrl = r.ctrl;
  scut = r.scut;
}

unfoldable pub moved : ℕ → VectorReader → VectorReader
moved n r = record r { pos = r.pos + n }

drop-get {ℓ} :
    {A : Type ℓ} (l : List A) (i : ℕ) (x : A)
    → get_elem? l i ≡ some x
    → drop i l ≡ x ∷ drop (suc i) l
drop-get [] i x e = cc
drop-get (y ∷ l) zero x e = ap (λ a. a ∷ l) {x = y} {y = x} cc
drop-get (y ∷ l) (suc i) x e = drop-get l i x e

length-view : (k : ℕ) (b : IovecBlock) → Holds k b → length (view b) ≡ b.pos
length-view k b h =
    length-take b.pos (flat b.components)
      (omega (arith, length-flat k b.components h.allocated, h.within))

get_byte_lem :
    (k : ℕ) (r : VectorReader)
    → Holds k r.block
    → r.pos < r.block.pos
    → (byte : ℕ) × (get_byte r ≡ some (byte, moved 1 r))
      × (drop r.pos (view r.block) ≡ byte ∷ drop (r.pos + 1) (view r.block))
unfolding get_byte moved
get_byte_lem k r h lt =
    let (byte, e) = get_elem?-lt (view r.block) r.pos (omega (arith, length-view k r.block h)) in
    let next_pos : (r.pos + 1) % 2 ^ 32 ≡ r.pos + 1 =
      omega (arith, h.within, Holds-le k r.block h) in
    (
      byte,
      rw (get-view k r.pos r.block h lt ∙ e, get_byte)
          (ap (λ (n : ℕ). some (byte, record r { pos = n })) next_pos),
      drop-get (view r.block) r.pos byte e
          ∙ ap (λ (n : ℕ). byte ∷ drop n (view r.block)) {x = suc r.pos} {y = r.pos + 1}
              (omega arith),
    )

read_bytes_lem :
    (n i acc k : ℕ) (r : VectorReader)
    → Holds k r.block
    → r.pos + n ≤ r.block.pos
    → (v : ℕ) × (read_bytes n i acc r ≡ some (v, moved n r))
      × (fast_stdb.Compression.VByte.read_bytes n i acc (drop r.pos (view r.block))
          ≡ some (v, drop (r.pos + n) (view r.block)))
unfolding read_bytes moved fast_stdb.Compression.VByte.read_bytes
read_bytes_lem zero i acc k r h le = (
  acc,
  ap (λ (n : ℕ). some (acc, record r { pos = n })) {x = r.pos} {y = r.pos + 0} (omega arith),
  ap (λ (n : ℕ). some (acc, drop n (view r.block))) {x = r.pos} {y = r.pos + 0} (omega arith),
)
read_bytes_lem (suc n) i acc k r h le =
    let (byte, e, e') = get_byte_lem k r h (omega arith) in
    let acc' = bit_or acc (byte * 2 ^ i % 2 ^ 64) in
    let (v, rest, rest') = read_bytes_lem n (i + 8) acc' k (moved 1 r) h (omega arith) in
    (
      v,
      rw (e, read_bytes) rest
          ∙ ap (λ (m : ℕ). some (v, record r { pos = m })) {x = r.pos + 1 + n} {y = r.pos + suc n}
              (omega arith),
      ap (fast_stdb.Compression.VByte.read_bytes (suc n) i acc) e'
          ∙ rest'
          ∙ ap (λ (m : ℕ). some (v, drop m (view r.block))) {x = r.pos + 1 + n} {y = r.pos + suc n}
              (omega arith),
    )

read_bytes-short :
    (n i acc : ℕ) (l : List ℕ)
    → length l < n
    → fast_stdb.Compression.VByte.read_bytes n i acc l ≡ none
unfolding fast_stdb.Compression.VByte.read_bytes
read_bytes-short zero i acc l h = absurd (omega arith)
read_bytes-short (suc n) i acc [] h = refl
read_bytes-short (suc n) i acc (b ∷ l) h =
    read_bytes-short n (i + 8) (bit_or acc (b * 2 ^ i % 2 ^ 64)) l (omega arith)

-- Both readers fail, or both give a value, and what is left is the same.
abbrev pub Follows : IovecBlock → Option (ℕ × VectorReader) → Option (ℕ × Reader) → Type 0
Follows b o f =
    ((o ≡ none) × (f ≡ none))
    ⊎ ((v : ℕ) × (r' : VectorReader) × (o ≡ some (v, r'))
        × (f ≡ some (v, flat_reader r'))
        × (r'.block ≡ b)
        × (r'.pos ≤ b.pos))

read_value_lem :
    (n : ℕ) (r : VectorReader) (o : Option (ℕ × VectorReader))
    → (r.block.pos + 2 ^ 32 - r.pos) % 2 ^ 32 ≡ r.block.pos - r.pos
    → n ≤ r.block.pos - r.pos
    → read_bytes n 0 0 r ≡ o
    → read_value n r ≡ o
unfolding read_value space_left bytes_to_read
read_value_lem n r o left le e = rw (left, le→ltb (r.block.pos - r.pos) n le) e

flat_value_lem :
    (n : ℕ) (r : Reader) (v : ℕ) (bytes : List ℕ)
    → fast_stdb.Compression.VByte.read_bytes n 0 0 r.rest ≡ some (v, bytes)
    → fast_stdb.Compression.VByte.read_value n r ≡ some (v, record r { rest = bytes })
unfolding fast_stdb.Compression.VByte.read_value
flat_value_lem n r v bytes e = rw (e, fast_stdb.Compression.VByte.read_value) refl

read_value-Follows :
    (n k : ℕ) (r : VectorReader)
    → Holds k r.block
    → r.pos ≤ r.block.pos
    → Follows r.block (read_value n r) (fast_stdb.Compression.VByte.read_value n (flat_reader r))
unfolding read_value space_left bytes_to_read flat_reader moved
    fast_stdb.Compression.VByte.read_value
read_value-Follows n k r h le =
    let left : (r.block.pos + 2 ^ 32 - r.pos) % 2 ^ 32 ≡ r.block.pos - r.pos =
      omega (arith, h.within, Holds-le k r.block h, le) in
    elim (dec_lt (r.block.pos - r.pos) n) [
      | yes short ↦ inl (
        rw (left, lt→ltb (r.block.pos - r.pos) n short) refl,
        rw
            (
              read_bytes-short n 0 0 (drop r.pos (view r.block)) (
                  omega (
                    arith,
                    length-drop r.pos (view r.block) (omega (arith, length-view k r.block h)),
                    length-view k r.block h,
                  )),
              fast_stdb.Compression.VByte.read_value,
            )
            refl,
      )
      | no fits ↦
          let (v, e, e') = read_bytes_lem n 0 0 k r h (omega arith) in
          inr (
            v,
            moved n r,
            read_value_lem n r (some (v, moved n r)) left (omega arith) e,
            flat_value_lem n (flat_reader r) v (drop (r.pos + n) (view r.block)) e',
            refl,
            omega arith,
          )
    ]

read_first-Follows :
    (ctrl k : ℕ) (r : VectorReader)
    → Holds k r.block
    → r.pos ≤ r.block.pos
    → Follows r.block
        (read_first ctrl r)
        (fast_stdb.Compression.VByte.read_first ctrl (flat_reader r))
unfolding read_first fast_stdb.Compression.VByte.read_first flat_reader
read_first-Follows ctrl k r h le = elim (Bool-cases (ctrl / 2 ^ 4 == 0xF)) [
  | inl zeros ↦ rw zeros (inr (0, record r { ctrl = ctrl; scut = 15 }, refl, refl, refl, le))
  | inr value ↦ rw value (read_value-Follows (bit_and ctrl 0xF) k (record r { ctrl = ctrl }) h le)
]

-- The control byte of a pair.
read_byte-Follows :
    (k : ℕ) (r : VectorReader)
    → Holds k r.block
    → r.pos ≤ r.block.pos
    → Follows r.block (first_of_pair (read_byte r)) (elim (read_raw 1 (flat_reader r)) [
      | none ↦ none
      | some (ctrl, r') ↦ fast_stdb.Compression.VByte.read_first ctrl r'
    ])
unfolding first_of_pair read_byte read_raw take_le flat_reader moved
read_byte-Follows k r h le =
    let left : (r.block.pos + 2 ^ 32 - r.pos) % 2 ^ 32 ≡ r.block.pos - r.pos =
      omega (arith, h.within, Holds-le k r.block h, le) in
    elim (dec_lt r.pos r.block.pos) [
      | yes lt ↦
          let (byte, e, e') = get_byte_lem k r h lt in
          rw (left, le→ltb (r.block.pos - r.pos) 1 (omega arith), e, e')
            (subst
              (λ v.
                Follows r.block (read_first v (moved 1 r)) (
                  fast_stdb.Compression.VByte.read_first (byte + 256 * 0)
                    (flat_reader (moved 1 r))))
              {x = byte + 256 * 0} {y = byte} (omega arith)
              (read_first-Follows (byte + 256 * 0) k (moved 1 r) h (omega arith)))
      | no over ↦
          let nothing = drop-all (view r.block) r.pos (omega (arith, length-view k r.block h)) in
          rw (left, lt→ltb (r.block.pos - r.pos) 1 (omega arith), nothing) (inl (refl, refl))
    ]
  where
    drop-all : (l : List ℕ) (n : ℕ) → length l ≤ n → drop n l ≡ []
    drop-all [] zero h = refl
    drop-all [] (suc n) h = refl
    drop-all (x ∷ l) zero h = absurd (omega arith)
    drop-all (x ∷ l) (suc n) h = drop-all l n (omega arith)

-- On a block in components, `next` of the vectored reader that has not passed the write position
-- fails where that of the contiguous reader of the remaining bytes fails, and otherwise gives the
-- same value, and what is left is the same.
pub next-Follows :
    (k : ℕ) (r : VectorReader)
    → Holds k r.block
    → r.pos ≤ r.block.pos
    → Follows r.block (next r) (fast_stdb.Compression.VByte.next (flat_reader r))
unfolding next fast_stdb.Compression.VByte.next flat_reader
next-Follows k r h le =
    let cnt' = (r.cnt + 1) % 2 ^ 32 in
    elim (Bool-cases (r.ctrl == 0xFF && not (r.scut == 0))) [
      | inl zeros ↦
          rw zeros (inr (0, record r { cnt = cnt'; scut = r.scut - 1 }, refl, refl, refl, le))
      | inr value ↦ (elim (Bool-cases (r.cnt % 2 == 0)) [
        | inl even ↦ rw (value, even) (read_byte-Follows k (record r { cnt = cnt' }) h le)
        | inr odd ↦
            rw (value, odd) (read_value-Follows (r.ctrl / 2 ^ 4) k (record r { cnt = cnt' }) h le)
      ])
    ]
