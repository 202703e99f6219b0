-- ===== src/Compression/Block/Open.antt =====
-- The constructor of `DataBlockWriter`: a fresh block holds no sample.
use fast_stdb.Common.{
  ℕ, ◌-◌, ◌≤◌, ◌≡◌, refl, ap, ◌∙◌, arith, List, [], ◌∷◌, some, length, replicate,
}
use fast_stdb.Compression.Stream.{open_writer, put_raw, allocate, emit, store16, le_bytes}
use fast_stdb.Compression.DeltaDelta.{open_delta_writer}
use fast_stdb.Compression.Fcm.{open_fcm_writer}
use fast_stdb.Compression.Block.{BlockWriter, Stale, open_block, chunk_size}
use fast_stdb.Compression.Block.Layout.{
  header, chunks_bytes, plain_bytes, end_prev, end_predictor, length-header,
}
use fast_stdb.Compression.Block.Invariant.{Holds}
use fast_stdb.Compression.Block.History.{HoldsAll, Phase-empty, flat}

abbrev pub opened : ℕ → ℕ → BlockWriter
opened id size = record {
  stream = record { written = header 0 0 id []; room = size - 14; cnt = 0; prev = 0 };
  ts_stream = open_delta_writer;
  val_stream = open_fcm_writer;
  write_index = 0;
  ts_writebuf = replicate chunk_size 0;
  val_writebuf = replicate chunk_size 0;
  nchunks = 2;
  ntail = 4;
}

-- Each of the two counts takes two bytes.
pub record IsStale (stale : Stale) : Type 0 where
  pub nchunks_bytes : length stale.stale_nchunks ≡ 2
  pub ntail_bytes : length stale.stale_ntail ≡ 2

two_bytes : (l : List ℕ) → length l ≡ 2 → (a : ℕ) × (b : ℕ) × (l ≡ a ∷ b ∷ [])
two_bytes [] e = absurd (omega (arith, e))
two_bytes (a ∷ []) e = absurd (omega (arith, e))
two_bytes (a ∷ b ∷ []) e = (a, b, refl)
two_bytes (a ∷ b ∷ c ∷ l) e = absurd (omega (arith, e))

open_bytes :
    (a b c d id size : ℕ)
    → 14 ≤ size
    → open_block (record { stale_nchunks = a ∷ b ∷ []; stale_ntail = c ∷ d ∷ [] }) id size
      ≡ some (opened id size)
unfolding open_block allocate put_raw emit open_writer store16 le_bytes header
open_bytes a b c d id size room = ground arith

pub open_block_lem :
    (stale : Stale) (id size : ℕ)
    → IsStale stale
    → 14 ≤ size
    → open_block stale id size ≡ some (opened id size)
open_block_lem stale id size two room =
    let (a, b, e) = two_bytes stale.stale_nchunks two.nchunks_bytes in
    let (c, d, e') = two_bytes stale.stale_ntail two.ntail_bytes in
    ap
      (λ (l : List ℕ).
        open_block (record { stale_nchunks = l; stale_ntail = stale.stale_ntail }) id size)
      e
    ∙ ap
        (λ (l : List ℕ).
          open_block (record { stale_nchunks = a ∷ b ∷ []; stale_ntail = l }) id size)
        e'
    ∙ open_bytes a b c d id size room

pub opened-Holds : (id size : ℕ) → 14 ≤ size → Holds size id [] [] [] [] (opened id size)
unfolding open_delta_writer open_fcm_writer chunks_bytes plain_bytes end_prev end_predictor
opened-Holds id size room = record {
  nchunks_at = refl;
  ntail_at = refl;
  bytes = refl;
  bounded = omega (arith, length-header 0 0 id []);
  stream_even = refl;
  last_ts = refl;
  predicts = refl;
  values_even = refl;
  index = refl;
  short = omega arith;
  ts_buffer = (replicate chunk_size 0, refl, refl);
  val_buffer = (replicate chunk_size 0, refl, refl);
  chunks_whole = tt;
  buf_small = tt;
  tail_small = tt;
}

-- With room for the header, which takes fourteen bytes, the constructor does not fail, and whatever
-- the buffer held before, the block holds no sample.
pub open_block-HoldsAll :
    (stale : Stale) (id size : ℕ)
    → IsStale stale
    → 14 ≤ size
    → (b : BlockWriter) × (open_block stale id size ≡ some b) × HoldsAll size id [] b
unfolding flat
open_block-HoldsAll stale id size two room = (
  opened id size,
  open_block_lem stale id size two room,
  record {
    cs = [];
    buf = [];
    tail = [];
    junk = [];
    parts = opened-Holds id size room;
    phase = Phase-empty (size - 14);
    whole = refl;
  },
)
