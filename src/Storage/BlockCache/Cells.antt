-- ===== src/Storage/BlockCache/Cells.antt =====
-- The cells of the block cache.
use fast_stdb.Common.{
  ℕ, ◌+◌, ◌-◌, ◌*◌, ◌/◌, ◌%◌, ◌^◌, ◌<◌, ◌≤◌, ◌≡◌, inl, inr, refl, ap, ◌∙◌, subst, arith, Option,
  none, some, length, get_elem?, replicate, length-replicate, ◌⊎◌, Bool-cases, ◌==◌, bit_and,
  two_pow-add, two_pow-pos, ==→eq, eq→==,
}
use native.Mathlib.Nat.{div-lt_iff_lt-mul}
use fast_stdb.Common.Bits.{bit_xor-lt}
use fast_stdb.Storage.Iovec.{IovecBlock}
use fast_stdb.Storage.MetaVolume.Access.{get_elem?-lt}
use fast_stdb.Storage.BlockCache.{
  BlockCache, hash32, hash, new_cache, probe, null_pointer, result, loockup, loockup_cell,
  probe_cell,
}

hash32-lt : (value bits seed : ℕ) → bits ≤ 64 → hash32 value bits seed < 2 ^ bits
unfolding hash32
hash32-lt value bits seed h = (div-lt_iff_lt-mul (two_pow-pos (64 - bits))).1 (
    subst (λ n. ((2 ^ 32 - 1) * value + seed) % 2 ^ 64 < n)
      (ap (λ k. 2 ^ k) {x = 64} {y = bits + (64 - bits)} (omega arith)
        ∙ two_pow-add bits (64 - bits))
      (omega arith))

-- A hash is the number of a cell.
pub hash-lt : (value bits : ℕ) → bits ≤ 64 → hash value bits < 2 ^ bits
unfolding hash
hash-lt value bits h =
    bit_xor-lt bits (hash32 (bit_and value 0xFFFFFFFF) bits 277)
      (hash32 (value / 2 ^ 32 % 2 ^ 32) bits 337) (hash32-lt (bit_and value 0xFFFFFFFF) bits 277 h)
      (hash32-lt (value / 2 ^ 32 % 2 ^ 32) bits 337 h)

pub record Sized (c : BlockCache) : Type 0 where
  pub cells : length c.block_cache ≡ 2 ^ c.bits
  pub some_bits : 1 ≤ c.bits
  pub small : c.bits ≤ 30

pub new_cache-Sized :
    (bits : ℕ)
    → 1 ≤ bits
    → bits ≤ 30
    → (c : BlockCache) × (new_cache bits ≡ some c) × (c.bits ≡ bits) × Sized c
unfolding new_cache
new_cache-Sized bits le small = (
  record { block_cache = replicate (2 ^ bits) none; bits = bits },
  ground arith,
  refl,
  record {
    cells = length-replicate {A = Option IovecBlock} (2 ^ bits) none;
    some_bits = le;
    small = small;
  },
)

pub hash-cell :
    (addr : ℕ) (c : BlockCache)
    → Sized c
    → (p : Option IovecBlock) × (get_elem? c.block_cache (hash addr c.bits) ≡ some p)
hash-cell addr c h =
    get_elem?-lt c.block_cache (hash addr c.bits)
      (omega (arith, hash-lt addr c.bits (omega (arith, h.small)), h.cells))

pub loockup_lem :
    (addr : ℕ) (c : BlockCache) (b : IovecBlock)
    → get_elem? c.block_cache (hash addr c.bits) ≡ some (some b)
    → b.addr ≡ addr
    → loockup addr c ≡ result (some b)
unfolding loockup loockup_cell
loockup_lem addr c b at e = rw (at, eq→== b.addr addr e) refl

-- In a cache with one cell for each hash of 1 to 30 bits, a look up follows a null pointer where the
-- probe finds the cell of the address empty, gives nothing where it finds another address in it, and
-- gives the block where it finds the address.
pub loockup-probe :
    (addr : ℕ) (c : BlockCache)
    → Sized c
    → ((probe addr c ≡ some 0) × (loockup addr c ≡ null_pointer))
      ⊎ (((probe addr c ≡ some 1) × (loockup addr c ≡ result none))
          ⊎ ((b : IovecBlock) × (probe addr c ≡ some 2)
              × (loockup addr c ≡ result (some b))
              × (b.addr ≡ addr)))
unfolding probe probe_cell loockup loockup_cell
loockup-probe addr c h = let (p, at) = hash-cell addr c h in rw at (by_cell p)
  where
    by_cell :
        (p : Option IovecBlock)
        → ((probe_cell addr (some p) ≡ some 0) × (loockup_cell addr (some p) ≡ null_pointer))
          ⊎ (((probe_cell addr (some p) ≡ some 1) × (loockup_cell addr (some p) ≡ result none))
              ⊎ ((b : IovecBlock) × (probe_cell addr (some p) ≡ some 2)
                  × (loockup_cell addr (some p) ≡ result (some b))
                  × (b.addr ≡ addr)))
    by_cell none = inl (refl, refl)
    by_cell (some b) = elim (Bool-cases (b.addr == addr)) [
      | inl same ↦ inr (inr (b, rw same refl, rw same refl, ==→eq b.addr addr same))
      | inr other ↦ inr (inl (rw other refl, rw other refl))
    ]
