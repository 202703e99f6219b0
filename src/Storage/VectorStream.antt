-- ===== src/Storage/VectorStream.antt =====
-- `IOVecVByteStreamWriter` of faststdb/storage/compression.h: the variable byte writer over a block in
-- components, for values of eight bytes. `none` is LOG(FATAL).
pub mod Refine
pub mod Write
use fast_stdb.Common.{
  ℕ, zero, suc, ◌+◌, ◌-◌, ◌*◌, ◌/◌, ◌%◌, ◌^◌, bit_or, Bool, true, false, Option, none, some, List,
  [], ◌∷◌, ltb, ◌==◌, not, if◌then◌else◌,
}
use fast_stdb.Compression.Stream.{le_bytes}
use fast_stdb.Compression.VByte.{ctrl_of, all_zero}
use fast_stdb.Storage.Iovec.{IovecBlock, put_all, set_write_pos}

pub record VectorWriter : Type 0 where
  pub block : IovecBlock
  pub cnt : ℕ
  pub prev : ℕ

unfoldable pub open_writer : IovecBlock → VectorWriter
open_writer block = record { block = block; cnt = 0; prev = 0 }

unfoldable pub space_left : VectorWriter → ℕ
space_left w = fast_stdb.Storage.Iovec.space_left w.block

-- `block_->put(b)`, for each of the bytes.
unfoldable pub put_block : List ℕ → VectorWriter → Option VectorWriter
put_block bytes w = elim (put_all bytes w.block) [
  | none ↦ none
  | some b ↦ some (record w { block = b })
]

-- The loop `block_->put(static_cast<u8>(v)); v >>= 8`, with `n` rounds.
unfoldable pub put_loop : ℕ → ℕ → VectorWriter → Option VectorWriter
put_loop zero v w = some w
put_loop (suc n) v w = elim (put_block ((v % 256) ∷ []) w) [
  | none ↦ none
  | some w' ↦ put_loop n (v / 2 ^ 8) w'
]

-- The control byte and the two loops.
unfoldable pub put_pair : ℕ → ℕ → ℕ → ℕ → ℕ → VectorWriter → Option VectorWriter
put_pair ctrlword fstctrl fst sndctrl snd w = elim (put_block (ctrlword ∷ []) w) [
  | none ↦ none
  | some w' ↦ (elim (put_loop fstctrl fst w') [ none ↦ none | some w'' ↦ put_loop sndctrl snd w'' ])
]

unfoldable pub answer_true : Option VectorWriter → Option (Bool × VectorWriter)
answer_true none = none
answer_true (some w) = some (true, w)

unfoldable pub encode : ℕ → ℕ → VectorWriter → Option (Bool × VectorWriter)
encode fst snd w =
    let fstctrl = ctrl_of fst in
    let sndctrl = ctrl_of snd in
    let ctrlword = bit_or fstctrl (sndctrl * 2 ^ 4) % 256 in
    if ltb (space_left w) (1 + fstctrl + sndctrl)
    then some (false, w)
    else answer_true (put_pair ctrlword fstctrl fst sndctrl snd w)

unfoldable pub shortcut : VectorWriter → Option (Bool × VectorWriter)
shortcut w = if space_left w == 0 then some (false, w) else answer_true (put_block (0xFF ∷ []) w)

unfoldable pub then_encode :
    (VectorWriter → Option (Bool × VectorWriter))
    → Option (Bool × VectorWriter)
    → Option (Bool × VectorWriter)
then_encode f none = none
then_encode f (some (true, w)) = f w
then_encode f (some (false, w)) = some (false, w)

-- The loop of `tput` over pairs. An odd count fails the assertion of the source; here it fails.
unfoldable pub encode_pairs : List ℕ → VectorWriter → Option (Bool × VectorWriter)
encode_pairs [] w = some (true, w)
encode_pairs (x ∷ []) w = some (false, w)
encode_pairs (x ∷ y ∷ xs) w = then_encode (encode_pairs xs) (encode x y w)

-- On a failure the old position is restored.
unfoldable pub restore_pos : ℕ → Option (Bool × VectorWriter) → Option (Bool × VectorWriter)
restore_pos oldpos none = none
restore_pos oldpos (some (true, w)) = some (true, w)
restore_pos oldpos (some (false, w)) = elim (set_write_pos oldpos w.block) [
  | none ↦ none
  | some b ↦ some (false, record w { block = b })
]

unfoldable pub tput : List ℕ → VectorWriter → Option (Bool × VectorWriter)
tput xs w = if all_zero xs then shortcut w else restore_pos w.block.pos (encode_pairs xs w)

unfoldable pub put : ℕ → VectorWriter → Option (Bool × VectorWriter)
put value w =
    let w' : VectorWriter = record w { cnt = (w.cnt + 1) % 2 ^ 32 } in
    if not (w'.cnt % 2 == 0)
    then some (true, record w' { prev = value })
    else encode w'.prev value w'

unfoldable pub put_raw : ℕ → ℕ → VectorWriter → Option (Bool × VectorWriter)
put_raw n v w =
    if ltb (space_left w) n then some (false, w) else answer_true (put_block (le_bytes n v) w)

-- The loop of `commit`: it consumes `prev_`.
unfoldable pub commit_loop : ℕ → VectorWriter → Option VectorWriter
commit_loop zero w = some w
commit_loop (suc n) w = elim (put_block ((w.prev % 256) ∷ []) w) [
  | none ↦ none
  | some w' ↦ commit_loop n (record w' { prev = w'.prev / 2 ^ 8 })
]

unfoldable pub commit : VectorWriter → Option (Bool × VectorWriter)
commit w =
    let ctrl = ctrl_of w.prev in
    if w.cnt % 2 == 1
    then (if ltb (space_left w) (1 + ctrl)
        then some (false, w)
        else answer_true (elim (put_block ((ctrl % 256) ∷ []) w) [
          | none ↦ none
          | some w' ↦ commit_loop ctrl w'
        ]))
    else some (true, w)
