-- ===== src/Compression/Base128/RoundTrip.antt =====
-- `put` against the groups of seven bits of the value, and `get` after `put`.
use fast_stdb.Common.{
  ℕ, zero, suc, ◌+◌, ◌*◌, ◌/◌, ◌%◌, ◌^◌, ◌<◌, ◌≤◌, ◌≡◌, refl, ap, ◌∙◌, arith, bit_and, bit_or, none,
  some, List, [], ◌∷◌, ◌++◌, length, ltb, leb, if◌then◌else◌, two_pow-add, All, inl, inr,
}
use fast_stdb.Common.Bits.{bit_and-mask, bit_or-shifted, bit_and-0x80}
use fast_stdb.Compression.Stream.{Reader, IsU64, IsByte}
use fast_stdb.Compression.Stream.Laws.{Emits}
use fast_stdb.Compression.Base128.{put, get_loop, get, put_base128, next_base128}
use native.Mathlib.Decide.{dec_le}
use mathlib.Core.Logic.{◌⊎◌}
use native.Mathlib.Nat.{div-add-mod'}

-- The groups of seven bits of a value below 128 ^ (k + 1), with the marks of a continuation.
unfoldable pub groups : ℕ → ℕ → List ℕ
groups zero v = v ∷ []
groups (suc k) v =
    let more = (v % 128 + 128) ∷ groups k (v / 128) in if ltb v 128 then v ∷ [] else more

-- Ten groups cover 64 bits.
unfoldable pub base128_bytes : ℕ → List ℕ
base128_bytes v = groups 9 v

low_group : (v : ℕ) → bit_and v 0x7F ≡ v % 128
low_group v = bit_and-mask 7 v

marked_group : (v : ℕ) → bit_or (bit_and v 0x7F) 0x80 ≡ v % 128 + 128
marked_group v = rw (low_group v) (bit_or-shifted 7 (v % 128) 1 (omega arith))

-- `put` writes the groups exactly when they fit.
put-groups :
    (k room v : ℕ)
    → v < 128 ^ suc k
    → put room v ≡ (if leb (length (groups k v)) room then some (groups k v) else none)
unfolding put groups
put-groups zero zero v h = refl
put-groups zero (suc room) v h = ground (arith, low_group v)
put-groups (suc k) zero v h = ground arith
put-groups (suc k) (suc room) v h =
    ground (arith, low_group v, marked_group v, put-groups k room (v / 128) (omega arith))

pub length-groups : (k v : ℕ) → (1 ≤ length (groups k v)) × (length (groups k v) ≤ k + 1)
unfolding groups
length-groups zero v = omega arith
length-groups (suc k) v = ground (arith, length-groups k (v / 128))

pub groups-IsByte : (k v : ℕ) → v < 128 ^ suc k → All IsByte (groups k v)
unfolding groups
groups-IsByte zero v h = omega arith
groups-IsByte (suc k) v h = ground (arith, groups-IsByte k (v / 128) (omega arith))

pub length-base128_bytes : (v : ℕ) → length (base128_bytes v) ≤ 10
unfolding base128_bytes
length-base128_bytes v = (length-groups 9 v).1

-- `put_base128` of any 64-bit value succeeds where its bytes fit, at most ten of them.
pub put_base128-Emits : (v : ℕ) → IsU64 v → Emits (put_base128 v) (base128_bytes v)
unfolding put_base128 base128_bytes
put_base128-Emits v h w fits = ground (arith, put-groups 9 w.room v (omega arith))

split_value : (v cnt : ℕ) → v * 2 ^ cnt ≡ v % 128 * 2 ^ cnt + v / 128 * 2 ^ (cnt + 7)
split_value v cnt = omega (
  arith,
  ap (λ (t : ℕ). t * 2 ^ cnt) (div-add-mod' v 128),
  ap (λ (t : ℕ). v / 128 * t) (two_pow-add cnt 7),
)

-- One round of `get_loop`: the group goes above the bits read so far.
add_group :
    (g byte acc cnt : ℕ)
    → bit_and byte 0x7F ≡ g
    → acc < 2 ^ cnt
    → acc + g * 2 ^ cnt < 2 ^ 64
    → bit_or acc (bit_and byte 0x7F * 2 ^ cnt % 2 ^ 64) ≡ acc + g * 2 ^ cnt
add_group g byte acc cnt e small fits =
    let whole : g * 2 ^ cnt % 2 ^ 64 ≡ g * 2 ^ cnt = omega arith in
    rw (e, whole) (bit_or-shifted cnt acc g small)

group_small : (g acc cnt : ℕ) → g < 128 → acc < 2 ^ cnt → acc + g * 2 ^ cnt < 2 ^ (cnt + 7)
group_small g acc cnt h small = rw (two_pow-add cnt 7) (grind arith)

-- The last byte has no top bit, the others do.
get_loop-last :
    (v acc cnt : ℕ) (rest : List ℕ)
    → v < 128
    → acc < 2 ^ cnt
    → acc + v * 2 ^ cnt < 2 ^ 64
    → get_loop (v ∷ rest) acc cnt ≡ some (acc + v * 2 ^ cnt, rest)
unfolding get_loop
get_loop-last v acc cnt rest h small fits =
    let e : bit_and v 0x7F ≡ v = bit_and-mask 7 v ∙ omega arith in
    let top : bit_and v 0x80 ≡ 0 = omega (arith, bit_and-0x80 v (omega arith)) in
    rw (add_group v v acc cnt e small fits, top) refl

get_loop-more :
    (g acc cnt : ℕ) (rest : List ℕ)
    → g < 128
    → acc < 2 ^ cnt
    → acc + g * 2 ^ cnt < 2 ^ 64
    → get_loop ((g + 128) ∷ rest) acc cnt ≡ get_loop rest (acc + g * 2 ^ cnt) (cnt + 7)
unfolding get_loop
get_loop-more g acc cnt rest h small fits =
    let e : bit_and (g + 128) 0x7F ≡ g = bit_and-mask 7 (g + 128) ∙ omega arith in
    let top : bit_and (g + 128) 0x80 ≡ 128 = omega (arith, bit_and-0x80 (g + 128) (omega arith)) in
    rw (add_group g (g + 128) acc cnt e small fits, top) refl

get_loop-groups :
    (k v acc cnt : ℕ) (rest : List ℕ)
    → v < 128 ^ suc k
    → acc < 2 ^ cnt
    → acc + v * 2 ^ cnt < 2 ^ 64
    → get_loop (groups k v ++ rest) acc cnt ≡ some (acc + v * 2 ^ cnt, rest)
unfolding groups
get_loop-groups zero v acc cnt rest h small fits =
    get_loop-last v acc cnt rest (omega arith) small fits
get_loop-groups (suc k) v acc cnt rest h small fits = ground (
  arith,
  get_loop-last v acc cnt rest,
  get_loop-more (v % 128) acc cnt (groups k (v / 128) ++ rest),
  split_value v cnt,
  get_loop-groups k (v / 128) (acc + v % 128 * 2 ^ cnt) (cnt + 7) rest,
  group_small (v % 128) acc cnt,
)

-- `get` reads back any 64-bit value from its bytes, and leaves whatever follows.
pub get-base128_bytes :
    (v : ℕ) (rest : List ℕ) → IsU64 v → get (base128_bytes v ++ rest) ≡ some (v, rest)
unfolding get base128_bytes
get-base128_bytes v rest h =
    get_loop-groups 9 v 0 0 rest (omega arith) (omega arith) (omega arith)
    ∙ ap (λ (t : ℕ). some (t, rest)) (omega arith)

put-base128_bytes :
    (v room : ℕ)
    → IsU64 v
    → put room v ≡ (if leb (length (base128_bytes v)) room then some (base128_bytes v) else none)
unfolding base128_bytes
put-base128_bytes v room h = put-groups 9 room v (omega arith)

-- `put` of a 64-bit value fails only with fewer than ten bytes of room; otherwise it writes at
-- most ten bytes, all within the room, and `get` reads the value back from them, whatever bytes
-- follow, and stops there.
pub get-put :
    (v room : ℕ) (rest : List ℕ)
    → IsU64 v
    → ((put room v ≡ none) × (room < 10))
      ⊎ ((bytes : List ℕ) × (put room v ≡ some bytes)
          × (get (bytes ++ rest) ≡ some (v, rest))
          × (length bytes ≤ 10)
          × (length bytes ≤ room))
get-put v room rest h = elim (dec_le (length (base128_bytes v)) room) [
  | yes fits ↦ inr (
    base128_bytes v,
    rw (put-base128_bytes v room h) (ground arith),
    get-base128_bytes v rest h,
    length-base128_bytes v,
    fits,
  )
  | no short ↦
      inl (rw (put-base128_bytes v room h) (ground arith), omega (arith, length-base128_bytes v))
]

-- `next_base128` reads what `put_base128` wrote.
pub next_base128_lem :
    (v : ℕ) (r : Reader) (rest : List ℕ)
    → IsU64 v
    → r.rest ≡ base128_bytes v ++ rest
    → next_base128 r ≡ some (v, record r { rest = rest })
unfolding next_base128
next_base128_lem v r rest h e = ground (arith, get-base128_bytes v rest h)
