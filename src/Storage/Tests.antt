-- ===== src/Storage/Tests.antt =====
-- The theorems on blocks, volumes and stores at concrete states.
use fast_stdb.Common.{
  ℕ, ◌+◌, ◌<◌, ◌≤◌, ◌≡◌, ◌⊎◌, refl, arith, some, none, [], ◌∷◌, ◌++◌, true, false,
}
use fast_stdb.Common.Memory.{slice}
use fast_stdb.Storage.Iovec.{
  IovecBlock, block_size, blank, put, safe_put, append_chunk, read_chunk, space_left,
}
use fast_stdb.Storage.VectorStream.{VectorWriter}
use fast_stdb.Storage.VectorStream.Refine.{flat_of}
use fast_stdb.Storage.VectorStream.Write.{Agrees, tput-Agrees}
use fast_stdb.Storage.VectorReader.{VectorReader}
use fast_stdb.Storage.VectorReader.Next.{Follows, flat_reader, next-Follows}
use fast_stdb.Storage.Iovec.Shape.{Holds, view, length-blank}
use fast_stdb.Storage.Iovec.Append.{append_chunk-view, append_chunk-space_left}
use fast_stdb.Storage.Iovec.Put.{put-safe_put}
use fast_stdb.Storage.Iovec.Read.{read_chunk-view, read_chunk-boundary}

-- One component, of which five bytes are in use.
abbrev pub five_bytes : IovecBlock
five_bytes = record { components = blank ∷ [] ∷ [] ∷ [] ∷ []; pos = 5; addr = 0 }

pub five_bytes-Holds : Holds 1 five_bytes
five_bytes-Holds = record {
  four = refl;
  allocated = (length-blank, (refl, (refl, (refl, refl))));
  within = omega arith;
}

put-safe_put_example :
    ((5 < block_size)
      × (b' : IovecBlock) × (put 7 five_bytes ≡ some b')
      × (safe_put 7 five_bytes ≡ (true, b'))
      × (view b' ≡ view five_bytes ++ 7 ∷ [])
      × (k' : ℕ) × Holds k' b')
    ⊎ ((5 ≡ block_size) × (put 7 five_bytes ≡ none) × (safe_put 7 five_bytes ≡ (false, five_bytes)))
put-safe_put_example = put-safe_put 1 five_bytes 7 five_bytes-Holds

append_chunk-view_example :
    (k' : ℕ) × (b' : IovecBlock) × (append_chunk (1 ∷ 2 ∷ []) five_bytes ≡ some (5 + 2, b'))
    × Holds k' b'
    × (view b' ≡ view five_bytes ++ 1 ∷ 2 ∷ [])
    × (b'.pos ≡ 5 + 2)
append_chunk-view_example =
    append_chunk-view 1 five_bytes (1 ∷ 2 ∷ []) five_bytes-Holds (omega arith) (omega arith)

-- A block with room for two bytes.
abbrev two_left : IovecBlock
two_left = record { components = blank ∷ blank ∷ blank ∷ blank ∷ []; pos = 4094; addr = 0 }

two_left-Holds : Holds 4 two_left
two_left-Holds = record {
  four = refl;
  allocated = (length-blank, (length-blank, (length-blank, (length-blank, refl))));
  within = omega arith;
}

append_chunk-space_left_example :
    ((2 < space_left two_left)
      × (b' : IovecBlock) × (append_chunk (1 ∷ 2 ∷ []) two_left ≡ some (4096, b'))
      × (space_left two_left ≡ space_left b' + 2)
      × (view b' ≡ view two_left ++ 1 ∷ 2 ∷ []))
    ⊎ ((space_left two_left ≤ 2) × (append_chunk (1 ∷ 2 ∷ []) two_left ≡ some (0, two_left)))
append_chunk-space_left_example =
    append_chunk-space_left 4 two_left (1 ∷ 2 ∷ []) two_left-Holds (omega arith)

read_chunk-view_example : read_chunk 1020 8 two_left ≡ some (slice 1020 8 (view two_left), 8)
read_chunk-view_example =
    read_chunk-view 4 two_left two_left-Holds 1020 8 (omega arith) (omega arith) (omega arith)

-- One component, which is full.
abbrev one_full : IovecBlock
one_full = record five_bytes { pos = 1024 }

one_full-Holds : Holds 1 one_full
one_full-Holds = record {
  four = refl;
  allocated = (length-blank, (refl, (refl, (refl, refl))));
  within = omega arith;
}

read_chunk-boundary_example : read_chunk 1020 4 one_full ≡ some (slice 1020 4 (view one_full), 0)
read_chunk-boundary_example =
    read_chunk-boundary 1 one_full one_full-Holds 1020 4 (omega arith) (omega arith) (omega arith)
      (omega arith) (omega arith)

-- A writer on the block with room for two bytes, which the values do not fit.
abbrev narrow : VectorWriter
narrow = record { block = two_left; cnt = 0; prev = 0 }

tput-Agrees_example :
    Agrees
      (fast_stdb.Storage.VectorStream.tput (300 ∷ 5 ∷ []) narrow)
      (fast_stdb.Compression.VByte.tput (300 ∷ 5 ∷ []) (flat_of narrow))
tput-Agrees_example = tput-Agrees (300 ∷ 5 ∷ []) narrow 4 two_left-Holds (omega arith)

-- A reader at the start of the full component, whose bytes are zeros.
abbrev at_start : VectorReader
at_start = record { block = one_full; pos = 0; cnt = 0; ctrl = 0; scut = 0 }

next-Follows_example :
    Follows one_full
      (fast_stdb.Storage.VectorReader.next at_start)
      (fast_stdb.Compression.VByte.next (flat_reader at_start))
next-Follows_example = next-Follows 1 at_start one_full-Holds (omega arith)
