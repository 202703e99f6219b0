-- ===== src/Common/Crc.antt =====
-- CRC-32C byte by byte: the first table and the last loop of `crc32c_sw` in
-- faststdb/common/crc32c.cc, which is a copy of a library. Its other loop and its assembler code take
-- eight bytes and more at a time; they are not modelled.
use Prim.Native.Nat.{ℕ, ◌/◌, ◌%◌, ◌^◌, ◌-◌, bit_xor}
use mathlib.Core.Path.{◌≡◌, refl, ap, sym, ◌∙◌}
use mathlib.Core.List.{List, [], ◌∷◌, ◌++◌}
use fast_stdb.Common.Tests.{◌==◌, if◌then◌else◌}
use fast_stdb.Common.Bits.{bit_xor-cancel, bit_xor_comm}

-- `POLY`.
abbrev poly : ℕ
poly = 0x82F63B78

-- The step that `crc32c_init_sw` makes for each of eight bits.
unfoldable pub crc_bit : ℕ → ℕ
crc_bit crc = if crc % 2 == 1 then bit_xor (crc / 2) poly else crc / 2

-- The entry of the first table.
unfoldable pub crc_table : ℕ → ℕ
crc_table n = crc_bit (crc_bit (crc_bit (crc_bit (crc_bit (crc_bit (crc_bit (crc_bit n)))))))

unfoldable pub crc_loop : List ℕ → ℕ → ℕ
crc_loop [] crc = crc
crc_loop (b ∷ bytes) crc = crc_loop bytes (bit_xor (crc_table (bit_xor crc b % 256)) (crc / 256))

unfoldable pub crc32c : ℕ → List ℕ → ℕ
crc32c crc bytes = bit_xor (crc_loop bytes (bit_xor crc (2 ^ 32 - 1))) (2 ^ 32 - 1)

-- No bytes leave the checksum.
pub crc32c-nil : (crc : ℕ) → crc32c crc [] ≡ crc
unfolding crc32c crc_loop
crc32c-nil crc =
    bit_xor_comm (bit_xor crc (2 ^ 32 - 1)) (2 ^ 32 - 1) ∙ bit_xor-cancel (2 ^ 32 - 1) crc

crc_loop-append : (x y : List ℕ) (crc : ℕ) → crc_loop (x ++ y) crc ≡ crc_loop y (crc_loop x crc)
unfolding crc_loop
crc_loop-append [] y crc = refl
crc_loop-append (b ∷ x) y crc =
    crc_loop-append x y (bit_xor (crc_table (bit_xor crc b % 256)) (crc / 256))

-- The checksum of some bytes can be carried on over more bytes.
pub crc32c-append : (crc : ℕ) (x y : List ℕ) → crc32c crc (x ++ y) ≡ crc32c (crc32c crc x) y
unfolding crc32c crc_loop
crc32c-append crc x y =
    let start = bit_xor crc (2 ^ 32 - 1) in
    ap (λ t. bit_xor t (2 ^ 32 - 1))
      (crc_loop-append x y start ∙ ap (crc_loop y) (sym (crc32c-nil (crc_loop x start))))
