-- ===== src/Compression/Tests.antt =====
-- The theorems on the codecs at concrete streams.
use fast_stdb.Common.{
  ℕ, ◌<◌, ◌≤◌, ◌≡◌, refl, arith, ◌*◌, ◌^◌, ◌%◌, List, [], ◌∷◌, ◌++◌, length, All, true, some, none,
  ◌⊎◌, replicate,
}
use fast_stdb.Compression.Stream.{Writer, Reader, emit, IsU64}
use fast_stdb.Compression.Base128
use fast_stdb.Compression.Base128.RoundTrip.{get-put}
use fast_stdb.Compression.VByte
use fast_stdb.Compression.VByte.{ctrl_of}
use fast_stdb.Compression.VByte.Length.{lt-ctrl_of, ctrl_of-tight}
use fast_stdb.Compression.VByte.Chunk.{Reads}
use fast_stdb.Compression.DeltaDelta
use fast_stdb.Compression.DeltaDelta.{DeltaWriter, DeltaReader}
use fast_stdb.Compression.Predictor.{Predictor, update}
use fast_stdb.Compression.Predictor.Invariant.{IsValid, update-IsValid}
use fast_stdb.Compression.Fcm
use fast_stdb.Compression.Fcm.{FcmWriter, FcmReader, flag_of}
use fast_stdb.Compression.Fcm.Flag.{Fits, flag_of-lt, flag_of-Fits}
use fast_stdb.Compression.Fcm.RoundTrip.{Yields, Between}
use fast_stdb.Compression.Chunks.{InStep, next_many-tput, next_many-tput_deltas, Yields-tput}
use fast_stdb.Compression.Block.{
  BlockWriter, Stale, ok, overflow, put, commit, open_block, nelements, open_block_reader,
}
use fast_stdb.Compression.Block.{get_write_index, get_id, version}
use fast_stdb.Compression.Block.Count.{get_write_index-Puts, get_id-Puts}
use fast_stdb.Compression.Block.Layout.{Sample, IsSmall}
use fast_stdb.Compression.Block.Put.{buffered, buffered-Holds}
use fast_stdb.Compression.Block.History.{HoldsAll}
use fast_stdb.Compression.Block.Open.{
  IsStale, opened, open_block_lem, opened-Holds, open_block-HoldsAll,
}
use fast_stdb.Compression.Block.Read.{Gives}
use fast_stdb.Compression.Block.RoundTrip.{AtEnd}
use fast_stdb.Compression.Block.Puts.{Puts, fresh, stored, commit-Puts, put-Puts}

abbrev samples : List ℕ
samples =
    7 ∷ 3 ∷ 0 ∷ 0 ∷ 1000000 ∷ 5 ∷ 6 ∷ 255 ∷ 256 ∷ 65535 ∷ 65536 ∷ 1 ∷ 2 ∷ 0 ∷ 9 ∷ 4294967296 ∷ []

abbrev writer : Writer
writer = record { written = 1 ∷ []; room = 200; cnt = 0; prev = 0 }

abbrev reader : Reader
reader = record { rest = []; cnt = 0; ctrl = 0; scut = 0 }

abbrev delta_writer : DeltaWriter
delta_writer = record { prev = 5; put_calls = 0 }

abbrev delta_reader : DeltaReader
delta_reader = record { prev = 5; min_value = 9; counter = 32 }

abbrev predictor : Predictor
predictor = record { table = replicate 128 0; last_hash = 3; last_value = 8; mask = 127 }

abbrev fcm_writer : FcmWriter
fcm_writer = record { predictor = predictor; prev_diff = 0; prev_flag = 0; nelements = 0 }

abbrev fcm_reader : FcmReader
fcm_reader = record { predictor = predictor; flags = 0; iter = 16; nzeroes = 0 }

samples-IsU64 : All IsU64 samples
samples-IsU64 = omega arith

predictor-IsValid : IsValid predictor
predictor-IsValid = record {
  sized = refl;
  masked = refl;
  in_range = omega arith;
  last_small = omega arith;
}

next_many-tput_example :
    (bytes : List ℕ) × (VByte.tput samples writer ≡ (true, emit writer bytes))
    × (length bytes ≤ 136)
    × Reads samples (42 ∷ []) (record reader { rest = bytes ++ 42 ∷ [] })
next_many-tput_example =
    next_many-tput samples (42 ∷ []) writer reader refl samples-IsU64 (omega arith) (omega arith)

next_many-tput_deltas_example :
    (bytes : List ℕ) × (wd' : DeltaWriter) × (rd' : DeltaReader) × (r' : Reader) × (DeltaDelta.tput
        samples delta_writer writer
      ≡ (true, wd', emit writer bytes))
    × (length bytes ≤ 146)
    × (DeltaDelta.next_many 16 delta_reader (record reader { rest = bytes ++ 42 ∷ [] })
        ≡ some (samples, rd', r'))
    × (r'.rest ≡ 42 ∷ [])
    × InStep wd' rd' r'
next_many-tput_deltas_example =
    next_many-tput_deltas samples (42 ∷ []) delta_writer writer delta_reader reader refl
      samples-IsU64 (omega arith) (refl, omega arith, refl, (refl, refl))

Yields-tput_example :
    (bytes : List ℕ) × (wf' : FcmWriter) × (Fcm.tput samples fcm_writer writer
      ≡ (true, wf', emit writer bytes))
    × (length bytes ≤ 136)
    × (wf'.nelements % 2 ≡ 0)
    × Yields
        (Between wf'.predictor (42 ∷ []))
        samples
        fcm_reader
        (record reader { rest = bytes ++ 42 ∷ [] })
Yields-tput_example =
    Yields-tput samples (42 ∷ []) fcm_writer writer fcm_reader reader refl samples-IsU64
      (omega arith) refl refl (refl, refl, refl, refl, (refl, refl))

get-put_example :
    ((Base128.put 3 1000000 ≡ none) × (3 < 10))
    ⊎ ((bytes : List ℕ) × (Base128.put 3 1000000 ≡ some bytes)
        × (Base128.get (bytes ++ 42 ∷ []) ≡ some (1000000, 42 ∷ []))
        × (length bytes ≤ 10)
        × (length bytes ≤ 3))
get-put_example = get-put 1000000 3 (42 ∷ []) (omega arith)

lt-ctrl_of_example : 1000000 < 2 ^ (8 * ctrl_of 1000000)
lt-ctrl_of_example = lt-ctrl_of 1000000 (omega arith)

ctrl_of-tight_example : ctrl_of 1000000 ≤ 3
ctrl_of-tight_example = ctrl_of-tight 1000000 3 (omega arith) (omega arith)

flag_of-lt_example : flag_of 4607182418800017408 < 15
flag_of-lt_example = flag_of-lt 4607182418800017408 (omega arith) (omega arith)

flag_of-Fits_example : Fits 4607182418800017408 (flag_of 4607182418800017408)
flag_of-Fits_example = flag_of-Fits 4607182418800017408 (omega arith) (omega arith)

update-IsValid_example : IsValid (update predictor 4607182418800017408)
update-IsValid_example =
    update-IsValid predictor 4607182418800017408 (omega arith) predictor-IsValid

abbrev sample : Sample
sample = (1000, 4607182418800017408)

-- A block of 4096 bytes, and the same with a sample in its write buffers.
abbrev block : BlockWriter
block = opened 7 4096

abbrev block_with_sample : BlockWriter
block_with_sample = buffered sample [] block

-- A buffer that held another block.
abbrev used : Stale
used = record { stale_nchunks = 3 ∷ 1 ∷ []; stale_ntail = 9 ∷ 0 ∷ [] }

used-IsStale : IsStale used
used-IsStale = record { nchunks_bytes = refl; ntail_bytes = refl }

block-Puts : Puts 4096 7 [] block
block-Puts = fresh used block used-IsStale (open_block_lem used 7 4096 used-IsStale (omega arith))

sample-IsSmall : IsSmall sample
sample-IsSmall = omega arith

block_with_sample-Puts : Puts 4096 7 (sample ∷ []) block_with_sample
block_with_sample-Puts =
    stored [] sample block block_with_sample block-Puts sample-IsSmall
      (buffered-Holds 4096 7 [] [] block (opened-Holds 7 4096 (omega arith)) sample (omega arith)
        sample-IsSmall (omega arith)).0

commit-Puts_example :
    (b' : BlockWriter) × (commit block_with_sample ≡ some (length b'.stream.written, b'))
    × (length b'.stream.written ≤ 4096)
    × (nelements (open_block_reader b'.stream.written) ≡ 1)
    × Gives AtEnd (sample ∷ []) (open_block_reader b'.stream.written)
commit-Puts_example =
    commit-Puts 4096 7 (omega arith) (omega arith) (sample ∷ []) block_with_sample
      block_with_sample-Puts

put-Puts_example :
    (b' : BlockWriter) × (((put 1000 4607182418800017408 block_with_sample ≡ (ok, b'))
        × Puts 4096 7 (sample ∷ sample ∷ []) b')
      ⊎ ((put 1000 4607182418800017408 block_with_sample ≡ (overflow, b'))
          × Puts 4096 7 (sample ∷ []) b'
          × (block_with_sample.stream.room < 16)))
put-Puts_example =
    put-Puts 4096 7 (omega arith) (omega arith) (sample ∷ []) block_with_sample sample
      block_with_sample-Puts sample-IsSmall

open_block-HoldsAll_example :
    (b : BlockWriter) × (open_block used 7 4096 ≡ some b) × HoldsAll 4096 7 [] b
open_block-HoldsAll_example = open_block-HoldsAll used 7 4096 used-IsStale (omega arith)

get_write_index-Puts_example : get_write_index block_with_sample ≡ 1
get_write_index-Puts_example =
    get_write_index-Puts 4096 7 (omega arith) (omega arith) (sample ∷ []) block_with_sample
      block_with_sample-Puts

get_id-Puts_example :
    (b' : BlockWriter) × (commit block_with_sample ≡ some (length b'.stream.written, b'))
    × (get_id (open_block_reader b'.stream.written) ≡ some 7)
    × (version (open_block_reader b'.stream.written) ≡ 101)
get_id-Puts_example =
    get_id-Puts 4096 7 (omega arith) (omega arith) (sample ∷ []) block_with_sample
      block_with_sample-Puts (omega arith)
