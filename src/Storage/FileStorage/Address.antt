-- ===== src/Storage/FileStorage/Address.antt =====
-- Logic addresses: the generation and the number of a block.
use fast_stdb.Common.{ℕ, ◌+◌, ◌*◌, ◌^◌, ◌<◌, ◌≡◌, ◌∙◌, arith}
use fast_stdb.Common.Bits.{shifted-bit_or, bit_and-mask}
use fast_stdb.Storage.FileStorage.{make_logic, extract_gen, extract_vol}

make_logic_lem : (gen addr : ℕ) → addr < 2 ^ 32 → make_logic gen addr ≡ gen * 2 ^ 32 + addr
unfolding make_logic
make_logic_lem gen addr h = shifted-bit_or 32 gen addr h

-- The generation and the block number of 32 bits are read back from a logic address.
pub make_logic-extract :
    (gen addr : ℕ)
    → gen < 2 ^ 32
    → addr < 2 ^ 32
    → (extract_gen (make_logic gen addr) ≡ gen) × (extract_vol (make_logic gen addr) ≡ addr)
unfolding extract_gen extract_vol
make_logic-extract gen addr g h = (
  omega (arith, make_logic_lem gen addr h, g, h),
  bit_and-mask 32 (make_logic gen addr) ∙ omega (arith, make_logic_lem gen addr h, h),
)
