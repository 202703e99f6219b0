-- ===== src/Compression/Predictor.antt =====
-- `DfcmPredictor` of faststdb/storage/compression.cc, the predictor of the value codec. A value is
-- the bit pattern of a double, a 64-bit number.
pub mod Invariant
use fast_stdb.Common.{
  ℕ, ◌+◌, ◌-◌, ◌*◌, ◌/◌, ◌%◌, ◌^◌, bit_and, bit_xor, List, get_or, set, replicate,
}
use fast_stdb.Compression.DeltaDelta.{sub64, add64}

abbrev pub predictor_n : ℕ
predictor_n = 2 ^ 7

pub record Predictor : Type 0 where
  pub table : List ℕ
  pub last_hash : ℕ
  pub last_value : ℕ
  pub mask : ℕ

-- The constructor. `table` is an array of `predictor_n` zeros, whatever the size that is asked.
unfoldable pub new_predictor : ℕ → Predictor
new_predictor table_size = record {
  table = replicate predictor_n 0;
  last_hash = 0;
  last_value = 0;
  mask = table_size - 1;
}

-- `table.at` throws where the hash is out of range; it is in range in every valid predictor.
unfoldable pub predict_next : Predictor → ℕ
predict_next p = add64 (get_or p.table p.last_hash 0) p.last_value

unfoldable pub update : Predictor → ℕ → Predictor
update p value =
    let delta = sub64 value p.last_value in
    record p {
      table = set p.table p.last_hash delta;
      last_hash = bit_and (bit_xor (p.last_hash * 2 ^ 5 % 2 ^ 64) (delta / 2 ^ 50)) p.mask;
      last_value = value;
    }
