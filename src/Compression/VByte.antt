-- ===== src/Compression/VByte.antt =====
-- `VByteStreamWriter` and `VByteStreamReader` of faststdb/storage/compression.h, for values of
-- eight bytes: values in pairs behind a control byte that holds their two lengths.
pub mod Length
pub mod Pair
pub mod Chunk
use fast_stdb.Common.{
  ℕ, zero, suc, ◌+◌, ◌-◌, ◌*◌, ◌/◌, ◌%◌, ◌^◌, bit_and, bit_or, Bool, true, false, Option, none,
  some, List, [], ◌∷◌, ltb, ◌==◌, ◌&&◌, not, if◌then◌else◌,
}
use fast_stdb.Compression.Stream.{Writer, Reader, emit, space_left, read_raw, ◌and_then◌}

-- `__builtin_clzll` of a value of `k` bits: how many of its top bits are zero.
unfoldable pub clz : ℕ → ℕ → ℕ
clz zero v = 0
clz (suc k) v = if ltb v (2 ^ k) then suc (clz k v) else 0

-- `sizeof(TVal) - len / 8`, where a zero value has the length of all its bits.
unfoldable pub ctrl_of : ℕ → ℕ
ctrl_of v = if v == 0 then 8 - 64 / 8 else 8 - clz 64 v / 8

-- The loop `*pos_++ = static_cast<u8>(v); v >>= 8`, with `n` rounds.
unfoldable pub put_bytes : ℕ → ℕ → Writer → Writer
put_bytes zero v w = w
put_bytes (suc n) v w = put_bytes n (v / 2 ^ 8) (emit w ((v % 256) ∷ []))

unfoldable pub encode : ℕ → ℕ → Writer → Bool × Writer
encode fst snd w =
    let fstctrl = ctrl_of fst in
    let sndctrl = ctrl_of snd in
    let ctrlword = bit_or fstctrl (sndctrl * 2 ^ 4) % 256 in
    if ltb (space_left w) (1 + fstctrl + sndctrl)
    then (false, w)
    else (true, put_bytes sndctrl snd (put_bytes fstctrl fst (emit w (ctrlword ∷ []))))

unfoldable pub shortcut : Writer → Bool × Writer
shortcut w = if space_left w == 0 then (false, w) else (true, emit w (0xFF ∷ []))

unfoldable pub all_zero : List ℕ → Bool
all_zero [] = true
all_zero (x ∷ xs) = x == 0 && all_zero xs

-- The loop of `tput` over pairs. An odd count fails the assertion of the source; here it fails.
unfoldable pub encode_pairs : List ℕ → Writer → Bool × Writer
encode_pairs [] w = (true, w)
encode_pairs (x ∷ []) w = (false, w)
encode_pairs (x ∷ y ∷ xs) w = encode x y w and_then encode_pairs xs

-- On a failure the old position is restored.
abbrev pub restore : Writer → Bool × Writer → Bool × Writer
restore w (true, w') = (true, w')
restore w (false, w') = (false, w)

unfoldable pub tput : List ℕ → Writer → Bool × Writer
tput xs w = if all_zero xs then shortcut w else restore w (encode_pairs xs w)

unfoldable pub put : ℕ → Writer → Bool × Writer
put value w =
    let w' = record w { cnt = (w.cnt + 1) % 2 ^ 32 } in
    if not (w'.cnt % 2 == 0) then (true, record w' { prev = value }) else encode w'.prev value w'

-- The loop of `commit`: it consumes `prev_`.
unfoldable pub commit_bytes : ℕ → Writer → Writer
commit_bytes zero w = w
commit_bytes (suc n) w =
    commit_bytes n (record (emit w ((w.prev % 256) ∷ [])) { prev = w.prev / 2 ^ 8 })

unfoldable pub commit : Writer → Bool × Writer
commit w =
    let ctrl = ctrl_of w.prev in
    if w.cnt % 2 == 1
    then (if ltb (space_left w) (1 + ctrl)
        then (false, w)
        else (true, commit_bytes ctrl (emit w ((ctrl % 256) ∷ []))))
    else (true, w)

-- The loop of `next` that gathers `n` bytes, the first one at bit `i`.
unfoldable pub read_bytes : ℕ → ℕ → ℕ → List ℕ → Option (ℕ × List ℕ)
read_bytes zero i acc bytes = some (acc, bytes)
read_bytes (suc n) i acc [] = none
read_bytes (suc n) i acc (byte ∷ bytes) =
    read_bytes n (i + 8) (bit_or acc (byte * 2 ^ i % 2 ^ 64)) bytes

-- A value of `bytelen` bytes; `none` is LOG(FATAL).
unfoldable pub read_value : ℕ → Reader → Option (ℕ × Reader)
read_value bytelen r = elim (read_bytes bytelen 0 0 r.rest) [
  | none ↦ none
  | some (value, bytes) ↦ some (value, record r { rest = bytes })
]

abbrev pub chunk_size : ℕ
chunk_size = 16

-- The control byte has been read: its low half is the length of the first value.
unfoldable pub read_first : ℕ → Reader → Option (ℕ × Reader)
read_first ctrl r =
    let r' = record r { ctrl = ctrl } in
    if ctrl / 2 ^ 4 == 0xF
    then some (0, record r' { scut = chunk_size - 1 })
    else read_value (bit_and ctrl 0xF) r'

unfoldable pub next : Reader → Option (ℕ × Reader)
next r =
    let r' = record r { cnt = (r.cnt + 1) % 2 ^ 32 } in
    if r.ctrl == 0xFF && not (r.scut == 0)
    then some (0, record r' { scut = r.scut - 1 })
    else (if r.cnt % 2 == 0
        then (elim (read_raw 1 r') [ none ↦ none | some (ctrl, r'') ↦ read_first ctrl r'' ])
        else read_value (r'.ctrl / 2 ^ 4) r')
