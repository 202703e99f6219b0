-- ===== src/Compression/Stream.antt =====
-- The byte streams under the codecs of faststdb/storage/compression.h: the memory region that
-- `VByteStreamWriter` fills and the one that `VByteStreamReader` consumes. The bytes between
-- `begin_` and `pos_` are a list, `end_ - pos_` is a number, and a byte is a number below 256.
-- What lies behind `pos_` is not represented: no reader looks at it, and `allocate`, which lets it
-- in, takes it as an argument.
pub mod Laws
use fast_stdb.Common.{
  ℕ, zero, suc, ◌+◌, ◌-◌, ◌*◌, ◌/◌, ◌%◌, ◌^◌, ◌<◌, ◌≡◌, Bool, true, false, Option, none, some, List,
  [], ◌∷◌, ◌++◌, length, set, get_or, ltb, ◌==◌, if◌then◌else◌, ◌&&◌,
}
use mathlib.Core.Option

abbrev pub IsByte : ℕ → Type 0
IsByte b = b < 256

abbrev pub IsU64 : ℕ → Type 0
IsU64 v = v < 2 ^ 64

-- `cnt` and `prev` are the tail elements `cnt_` and `prev_`.
pub record Writer : Type 0 where
  pub written : List ℕ
  pub room : ℕ
  pub cnt : ℕ
  pub prev : ℕ

-- The constructor, over a region of `size` bytes.
unfoldable pub open_writer : ℕ → Writer
open_writer size = record { written = []; room = size; cnt = 0; prev = 0 }

-- `*pos_++ = b`, for each of the bytes.
unfoldable pub emit : Writer → List ℕ → Writer
emit w bytes = record w { written = w.written ++ bytes; room = w.room - length bytes }

-- The `n` bytes of a value in memory, lowest first.
unfoldable pub le_bytes : ℕ → ℕ → List ℕ
le_bytes zero v = []
le_bytes (suc n) v = (v % 256) ∷ le_bytes n (v / 256)

-- `put_raw` of a value of `n` bytes: false, and nothing written, where it does not fit.
unfoldable pub put_raw : ℕ → ℕ → Writer → Bool × Writer
put_raw n v w = if ltb w.room n then (false, w) else (true, emit w (le_bytes n v))

-- `allocate<T>`: the position of the reserved bytes, or a null pointer. The bytes keep what the
-- memory holds there, which is the argument; its length is `sizeof(T)`.
unfoldable pub allocate : List ℕ → Writer → Option (ℕ × Writer)
allocate memory w =
    if ltb w.room (length memory) then none else some (length w.written, emit w memory)

-- `*p = v` and `*p` for a pointer to a u16 at the position `at`.
unfoldable pub store16 : ℕ → ℕ → Writer → Writer
store16 at v w = record w { written = set (set w.written at (v % 256)) (at + 1) (v / 256 % 256) }

unfoldable pub load16 : ℕ → List ℕ → ℕ
load16 at bytes = get_or bytes at 0 + 256 * get_or bytes (at + 1) 0

unfoldable pub size : Writer → ℕ
size w = length w.written

-- A region of no bytes.
unfoldable pub empty : Writer → Bool
empty w = length w.written + w.room == 0

unfoldable pub space_left : Writer → ℕ
space_left w = w.room

-- The second of two calls is made if the first one answered true.
infixr 5 ◌and_then◌
abbrev pub ◌and_then◌ : Bool × Writer → (Writer → Bool × Writer) → Bool × Writer
(true, w) and_then f = f w
(false, w) and_then f = (false, w)

-- `cnt`, `ctrl` and `scut` are `cnt_`, `ctrl_` and `scut_elements_`.
pub record Reader : Type 0 where
  pub rest : List ℕ
  pub cnt : ℕ
  pub ctrl : ℕ
  pub scut : ℕ

unfoldable pub open_reader : List ℕ → Reader
open_reader bytes = record { rest = bytes; cnt = 0; ctrl = 0; scut = 0 }

-- The value of the first `n` bytes in memory, lowest first, and the bytes behind them.
unfoldable pub take_le : ℕ → List ℕ → Option (ℕ × List ℕ)
take_le zero bytes = some (0, bytes)
take_le (suc n) [] = none
take_le (suc n) (b ∷ bytes) =
    Option.map (λ (p : ℕ × List ℕ). (b + 256 * p.0, p.1)) (take_le n bytes)

-- `read_raw` of a value of `n` bytes; `none` is the process that ends by LOG(FATAL).
unfoldable pub read_raw : ℕ → Reader → Option (ℕ × Reader)
read_raw n r = elim (take_le n r.rest) [
  | none ↦ none
  | some (v, bytes) ↦ some (v, record r { rest = bytes })
]
