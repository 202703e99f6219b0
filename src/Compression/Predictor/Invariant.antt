-- ===== src/Compression/Predictor/Invariant.antt =====
-- A predictor never looks outside its table, and its prediction is a 64-bit number.
use fast_stdb.Common.{
  ℕ, ◌-◌, ◌/◌, ◌%◌, ◌^◌, ◌<◌, ◌≡◌, arith, ◌∙◌, length, length-set, length-replicate,
}
use fast_stdb.Common.Bits.{bit_and-le_right}
use fast_stdb.Compression.Stream.{IsU64}
use fast_stdb.Compression.DeltaDelta.{sub64}
use fast_stdb.Common.{◌*◌, bit_xor}
use fast_stdb.Compression.Predictor.{Predictor, new_predictor, predict_next, update, predictor_n}

pub record IsValid (p : Predictor) : Type 0 where
  pub sized : length p.table ≡ predictor_n
  pub masked : p.mask ≡ predictor_n - 1
  pub in_range : p.last_hash < length p.table
  pub last_small : IsU64 p.last_value

pub new_predictor-IsValid : IsValid (new_predictor predictor_n)
unfolding new_predictor
new_predictor-IsValid = record {
  sized = length-replicate {A = ℕ} predictor_n 0;
  masked = omega arith;
  in_range = omega (arith, length-replicate {A = ℕ} predictor_n 0);
  last_small = omega arith;
}

-- `update` of a valid predictor by a 64-bit value leaves a valid one: the table keeps its size, the
-- hash is again a position of the table, and the last value is a 64-bit number.
pub update-IsValid :
    (p : Predictor) (value : ℕ) → IsU64 value → IsValid p → IsValid (update p value)
unfolding update
update-IsValid p value small v = record {
  sized = length-set p.table p.last_hash _ ∙ v.sized;
  masked = v.masked;
  in_range = omega (
    arith,
    length-set p.table p.last_hash (sub64 value p.last_value),
    v.sized,
    v.masked,
    bit_and-le_right (bit_xor (p.last_hash * 2 ^ 5 % 2 ^ 64) (sub64 value p.last_value / 2 ^ 50))
        p.mask,
  );
  last_small = small;
}

pub predict_next-IsU64 : (p : Predictor) → IsU64 (predict_next p)
unfolding predict_next
predict_next-IsU64 p = omega arith
