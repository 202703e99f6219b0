-- ===== src/Storage/VectorStream/Refine.antt =====
-- The vectored writer writes what the contiguous one writes.
use fast_stdb.Common.{
  ℕ, zero, suc, ◌+◌, ◌-◌, ◌/◌, ◌%◌, ◌^◌, ◌≤◌, ◌≡◌, refl, sym, ap, ◌∙◌, arith, Bool, Option, some,
  List, [], ◌∷◌, ◌++◌, length, take,
}
use fast_stdb.Compression.Stream.{Writer, emit}
use fast_stdb.Compression.VByte.{put_bytes}
use fast_stdb.Storage.Iovec.{IovecBlock, block_size}
use fast_stdb.Common.Memory.{take-take, take-append, length-take}
use fast_stdb.Storage.Volume.Blocks.{take-all}
use fast_stdb.Storage.Iovec.Shape.{Holds, view, flat, length-flat}
use fast_stdb.Storage.Iovec.Put.{put_all-view}
use fast_stdb.Storage.VectorStream.{VectorWriter, put_block, put_loop}

-- The contiguous writer of the same bytes, with the room that is left.
unfoldable pub flat_of : VectorWriter → Writer
flat_of w = record {
  written = view w.block;
  room = block_size - w.block.pos;
  cnt = w.cnt;
  prev = w.prev;
}

-- A writer behind another one: it has the same bytes up to the position of that one.
pub record Ahead (w w' : VectorWriter) : Type 0 where
  pub later : w.block.pos ≤ w'.block.pos
  pub prefix : take w.block.pos (view w'.block) ≡ view w.block
  pub same_cnt : w'.cnt ≡ w.cnt
  pub same_prev : w'.prev ≡ w.prev

pub Ahead-refl : (w : VectorWriter) → Ahead w w
Ahead-refl w = record {
  later = omega arith;
  prefix = take-take w.block.pos w.block.pos (flat w.block.components) (omega arith);
  same_cnt = refl;
  same_prev = refl;
}

pub Ahead-trans : (w w1 w2 : VectorWriter) → Ahead w w1 → Ahead w1 w2 → Ahead w w2
Ahead-trans w w1 w2 h h' = record {
  later = omega (arith, h.later, h'.later);
  prefix =
      sym (take-take w.block.pos w1.block.pos (view w2.block) h.later)
      ∙ ap (take w.block.pos) h'.prefix
      ∙ h.prefix;
  same_cnt = h'.same_cnt ∙ h.same_cnt;
  same_prev = h'.same_prev ∙ h.same_prev;
}

length-view : (k : ℕ) (b : IovecBlock) → Holds k b → length (view b) ≡ b.pos
length-view k b h =
    length-take b.pos (flat b.components)
      (omega (arith, length-flat k b.components h.allocated, h.within))

-- A result of the vectored writer with its contiguous counterpart.
pub record Matches (w : VectorWriter) (r : Option (Bool × VectorWriter)) (f : Bool × Writer)
    : Type 0 where
  pub writer : VectorWriter
  pub k : ℕ
  pub result : r ≡ some (f.0, writer)
  pub holds : Holds k writer.block
  pub same : flat_of writer ≡ f.1
  pub ahead : Ahead w writer

-- Bytes that fit are written.
pub put_block-emit :
    (bytes : List ℕ) (w : VectorWriter) (k : ℕ)
    → Holds k w.block
    → w.block.pos + length bytes ≤ block_size
    → (w' : VectorWriter) × (k' : ℕ) × (put_block bytes w ≡ some w')
      × Holds k' w'.block
      × (flat_of w' ≡ emit (flat_of w) bytes)
      × (w'.block.pos ≡ w.block.pos + length bytes)
      × Ahead w w'
unfolding put_block flat_of emit
put_block-emit bytes w k h fits =
    let (b', e, bytes', pos', k', holds) = put_all-view bytes k w.block h fits in
    (
      record w { block = b' },
      k',
      rw (e, put_block) refl,
      holds,
      flat_lem b' bytes' pos',
      pos',
      record {
        later = omega (arith, pos');
        prefix =
            ap (take w.block.pos) bytes'
            ∙ take-append w.block.pos (view w.block) bytes (omega (arith, length-view k w.block h))
            ∙ take-all w.block.pos (view w.block) (omega (arith, length-view k w.block h));
        same_cnt = refl;
        same_prev = refl;
      },
    )
  where
    flat_lem :
        (b' : IovecBlock)
        → view b' ≡ view w.block ++ bytes
        → b'.pos ≡ w.block.pos + length bytes
        → flat_of (record w { block = b' }) ≡ emit (flat_of w) bytes
    flat_lem b' e e' =
        ap
          (λ (l : List ℕ). record {
            written = l;
            room = block_size - b'.pos;
            cnt = w.cnt;
            prev = w.prev;
          })
          e
        ∙ ap
            (λ (n : ℕ). record {
              written = view w.block ++ bytes;
              room = n;
              cnt = w.cnt;
              prev = w.prev;
            })
            {x = block_size - b'.pos} {y = block_size - w.block.pos - length bytes} (omega arith)

-- The bytes of a value, one after the other.
pub put_loop-put_bytes :
    (n v : ℕ) (w : VectorWriter) (k : ℕ)
    → Holds k w.block
    → w.block.pos + n ≤ block_size
    → (w' : VectorWriter) × (k' : ℕ) × (put_loop n v w ≡ some w')
      × Holds k' w'.block
      × (flat_of w' ≡ put_bytes n v (flat_of w))
      × (w'.block.pos ≡ w.block.pos + n)
      × Ahead w w'
unfolding put_loop put_bytes
put_loop-put_bytes zero v w k h fits = (w, k, refl, h, refl, omega arith, Ahead-refl w)
put_loop-put_bytes (suc n) v w k h fits =
    let (w1, k1, e1, h1, same1, pos1, ahead1) =
      put_block-emit ((v % 256) ∷ []) w k h (omega arith) in
    let (w2, k2, e2, h2, same2, pos2, ahead2) =
      put_loop-put_bytes n (v / 2 ^ 8) w1 k1 h1 (omega (arith, pos1)) in
    (
      w2,
      k2,
      loop_lem w1 w2 e1 e2,
      h2,
      same2 ∙ ap (put_bytes n (v / 2 ^ 8)) same1,
      omega (arith, pos1, pos2),
      Ahead-trans w w1 w2 ahead1 ahead2,
    )
  where
    loop_lem :
        (w1 w2 : VectorWriter)
        → put_block ((v % 256) ∷ []) w ≡ some w1
        → put_loop n (v / 2 ^ 8) w1 ≡ some w2
        → put_loop (suc n) v w ≡ some w2
    loop_lem w1 w2 e1 e2 = rw (e1, put_loop) e2
