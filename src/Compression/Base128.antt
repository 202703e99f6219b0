-- ===== src/Compression/Base128.antt =====
-- `Base128Int<u64>` of faststdb/storage/compression.h: seven bits to a byte, lowest group first,
-- with the top bit set on every byte but the last.
pub mod RoundTrip
use fast_stdb.Common.{
  ℕ, zero, suc, ◌+◌, ◌*◌, ◌/◌, ◌%◌, ◌^◌, bit_and, bit_or, Bool, true, false, Option, none, some,
  List, [], ◌∷◌, ◌==◌, if◌then◌else◌,
}
use fast_stdb.Compression.Stream.{Writer, emit, Reader}
use mathlib.Core.Option

-- `put` into a region with `room` bytes left: the bytes written, or `none` where the code returns
-- `begin`, having met the end of the region.
unfoldable pub put : ℕ → ℕ → Option (List ℕ)
put zero value = none
put (suc room) value =
    let group = bit_and value 0x7F in
    let value' = value / 2 ^ 7 in
    let more = Option.map (λ bytes. bit_or group 0x80 ∷ bytes) (put room value') in
    if value' == 0 then some (group ∷ []) else more

-- `get`: the value and the bytes behind it, or `none` where the code returns `begin`. The shift
-- count stays below 64 on what `put` writes; past that the shift is undefined in the source.
unfoldable pub get_loop : List ℕ → ℕ → ℕ → Option (ℕ × List ℕ)
get_loop [] acc cnt = none
get_loop (byte ∷ rest) acc cnt =
    let acc' = bit_or acc (bit_and byte 0x7F * 2 ^ cnt % 2 ^ 64) in
    let more = get_loop rest acc' (cnt + 7) in
    if bit_and byte 0x80 == 0 then some (acc', rest) else more

unfoldable pub get : List ℕ → Option (ℕ × List ℕ)
unfolding get_loop
get bytes = get_loop bytes 0 0

-- `put_base128` of the stream writers.
unfoldable pub put_base128 : ℕ → Writer → Bool × Writer
put_base128 value w = elim (put w.room value) [
  | none ↦ (false, w)
  | some bytes ↦ (true, emit w bytes)
]

-- `next_base128` of the stream readers; `none` is LOG(FATAL).
unfoldable pub next_base128 : Reader → Option (ℕ × Reader)
next_base128 r = elim (get r.rest) [
  | none ↦ none
  | some (value, bytes) ↦ some (value, record r { rest = bytes })
]
