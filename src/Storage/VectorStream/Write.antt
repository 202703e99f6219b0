-- ===== src/Storage/VectorStream/Write.antt =====
-- The operations of the vectored writer against those of the contiguous one.
use fast_stdb.Common.{
  ℕ, ◌+◌, ◌-◌, ◌*◌, ◌%◌, ◌/◌, ◌^◌, ◌<◌, ◌≤◌, ◌≡◌, refl, sym, ap, ◌∙◌, arith, bit_or, Bool, true,
  false, Option, some, List, [], ◌∷◌, ltb, leb, ◌==◌, Bool-cases, inl, inr, ltb→le, ==→ne,
}
use fast_stdb.Common.Memory.{take-take}
use fast_stdb.Compression.Stream.{Writer, emit, ◌and_then◌}
use fast_stdb.Compression.VByte.{put_bytes, ctrl_of, all_zero, restore}
use fast_stdb.Storage.Iovec.{IovecBlock, block_size, set_write_pos}
use fast_stdb.Storage.Iovec.Shape.{Holds, view, flat}
use fast_stdb.Storage.VectorStream.{
  VectorWriter, put_block, put_loop, put_pair, answer_true, encode, shortcut, then_encode,
  encode_pairs, restore_pos, tput, space_left,
}
use fast_stdb.Storage.VectorStream.Refine.{
  flat_of, Ahead-refl, Ahead-trans, Matches, put_block-emit, put_loop-put_bytes,
}

put_pair_lem :
    (ctrlword n fst m snd : ℕ) (w w1 w2 w3 : VectorWriter)
    → put_block (ctrlword ∷ []) w ≡ some w1
    → put_loop n fst w1 ≡ some w2
    → put_loop m snd w2 ≡ some w3
    → put_pair ctrlword n fst m snd w ≡ some w3
unfolding put_pair
put_pair_lem ctrlword n fst m snd w w1 w2 w3 e1 e2 e3 = rw (e1, e2, put_pair) e3

pub encode-Matches :
    (fst snd : ℕ) (w : VectorWriter) (k : ℕ)
    → Holds k w.block
    → Matches w (encode fst snd w) (fast_stdb.Compression.VByte.encode fst snd (flat_of w))
unfolding encode space_left answer_true flat_of fast_stdb.Compression.VByte.encode
    fast_stdb.Compression.Stream.space_left fast_stdb.Storage.Iovec.space_left
encode-Matches fst snd w k h =
    let n = ctrl_of fst in
    let m = ctrl_of snd in
    let c = bit_or n (m * 2 ^ 4) % 256 in
    elim (Bool-cases (ltb (block_size - w.block.pos) (1 + n + m))) [
      | inl short ↦ rw short (record {
        writer = w;
        k = k;
        result = refl;
        holds = h;
        same = refl;
        ahead = Ahead-refl w;
      })
      | inr fits ↦
          let room : w.block.pos + (1 + n + m) ≤ block_size =
            omega (arith, ltb→le (block_size - w.block.pos) (1 + n + m) fits) in
          let (w1, k1, e1, h1, same1, pos1, ahead1) =
            put_block-emit (c ∷ []) w k h (omega (arith, room)) in
          let (w2, k2, e2, h2, same2, pos2, ahead2) =
            put_loop-put_bytes n fst w1 k1 h1 (omega (arith, pos1, room)) in
          let (w3, k3, e3, h3, same3, pos3, ahead3) =
            put_loop-put_bytes m snd w2 k2 h2 (omega (arith, pos1, pos2, room)) in
          rw fits (record {
            writer = w3;
            k = k3;
            result = ap answer_true (put_pair_lem c n fst m snd w w1 w2 w3 e1 e2 e3);
            holds = h3;
            same = same3 ∙ ap (put_bytes m snd) (same2 ∙ ap (put_bytes n fst) same1);
            ahead = Ahead-trans w w1 w3 ahead1 (Ahead-trans w1 w2 w3 ahead2 ahead3);
          })
    ]

shortcut-Matches :
    (w : VectorWriter) (k : ℕ)
    → Holds k w.block
    → Matches w (shortcut w) (fast_stdb.Compression.VByte.shortcut (flat_of w))
unfolding shortcut space_left answer_true flat_of fast_stdb.Compression.VByte.shortcut
    fast_stdb.Compression.Stream.space_left fast_stdb.Storage.Iovec.space_left
shortcut-Matches w k h = elim (Bool-cases (block_size - w.block.pos == 0)) [
  | inl full ↦
      rw full
        (record { writer = w; k = k; result = refl; holds = h; same = refl; ahead = Ahead-refl w })
  | inr room ↦
      let (w1, k1, e1, h1, same1, pos1, ahead1) =
        put_block-emit (0xFF ∷ []) w k h (omega (arith, ==→ne (block_size - w.block.pos) 0 room)) in
      rw room (record {
        writer = w1;
        k = k1;
        result = ap answer_true e1;
        holds = h1;
        same = same1;
        ahead = ahead1;
      })
]

then-Matches :
    (w : VectorWriter) (r : Option (Bool × VectorWriter)) (f : Bool × Writer)
    (g : VectorWriter → Option (Bool × VectorWriter)) (g' : Writer → Bool × Writer)
    → Matches w r f
    → ((w1 : VectorWriter) (k1 : ℕ) → Holds k1 w1.block → Matches w1 (g w1) (g' (flat_of w1)))
    → Matches w (then_encode g r) (f and_then g')
unfolding then_encode
then-Matches w r (true, fw) g g' m next =
    let m' = next m.writer m.k m.holds in
    record {
      writer = m'.writer;
      k = m'.k;
      result =
          ap (then_encode g) m.result
          ∙ m'.result
          ∙ ap (λ (x : Writer). some ((g' x).0, m'.writer)) m.same;
      holds = m'.holds;
      same = m'.same ∙ ap (λ (x : Writer). (g' x).1) m.same;
      ahead = Ahead-trans w m.writer m'.writer m.ahead m'.ahead;
    }
then-Matches w r (false, fw) g g' m next = record {
  writer = m.writer;
  k = m.k;
  result = ap (then_encode g) m.result;
  holds = m.holds;
  same = m.same;
  ahead = m.ahead;
}

encode_pairs-Matches :
    (xs : List ℕ) (w : VectorWriter) (k : ℕ)
    → Holds k w.block
    → Matches w (encode_pairs xs w) (fast_stdb.Compression.VByte.encode_pairs xs (flat_of w))
unfolding encode_pairs fast_stdb.Compression.VByte.encode_pairs
encode_pairs-Matches [] w k h = record {
  writer = w;
  k = k;
  result = refl;
  holds = h;
  same = refl;
  ahead = Ahead-refl w;
}
encode_pairs-Matches (x ∷ []) w k h = record {
  writer = w;
  k = k;
  result = refl;
  holds = h;
  same = refl;
  ahead = Ahead-refl w;
}
encode_pairs-Matches (x ∷ y ∷ xs) w k h =
    then-Matches w (encode x y w) (fast_stdb.Compression.VByte.encode x y (flat_of w))
      (encode_pairs xs) (fast_stdb.Compression.VByte.encode_pairs xs) (encode-Matches x y w k h)
      (λ w1 k1 h1. encode_pairs-Matches xs w1 k1 h1)

-- A result of `tput`: the contiguous writer has the same one.
pub record Agrees (r : Option (Bool × VectorWriter)) (f : Bool × Writer) : Type 0 where
  pub writer : VectorWriter
  pub k : ℕ
  pub result : r ≡ some (f.0, writer)
  pub holds : Holds k writer.block
  pub same : flat_of writer ≡ f.1

restore_lem :
    (oldpos : ℕ) (w : VectorWriter)
    → oldpos < block_size
    → restore_pos oldpos (some (false, w))
      ≡ some (false, record w { block = record w.block { pos = oldpos } })
unfolding restore_pos set_write_pos
restore_lem oldpos w lt =
    let inside : leb 4 (oldpos / 1024) ≡ false = ground (arith, lt) in rw (inside, restore_pos) refl

restore-Agrees :
    (w : VectorWriter) (r : Option (Bool × VectorWriter)) (f : Bool × Writer)
    → w.block.pos < block_size
    → Matches w r f
    → Agrees (restore_pos w.block.pos r) (restore (flat_of w) f)
unfolding restore_pos flat_of
restore-Agrees w r (true, fw) lt m = record {
  writer = m.writer;
  k = m.k;
  result = ap (restore_pos w.block.pos) m.result;
  holds = m.holds;
  same = m.same;
}
restore-Agrees w r (false, fw) lt m =
    let b : IovecBlock = record m.writer.block { pos = w.block.pos } in
    record {
      writer = record m.writer { block = b };
      k = m.k;
      result = ap (restore_pos w.block.pos) m.result ∙ restore_lem w.block.pos m.writer lt;
      holds = record {
        four = m.holds.four;
        allocated = m.holds.allocated;
        within = omega (arith, m.holds.within, m.ahead.later);
      };
      same =
          ap
            (λ (l : List ℕ). record {
              written = l;
              room = block_size - w.block.pos;
              cnt = m.writer.cnt;
              prev = m.writer.prev;
            })
            (sym (
                take-take w.block.pos m.writer.block.pos (flat m.writer.block.components)
                  m.ahead.later)
              ∙ m.ahead.prefix)
          ∙ ap
              (λ (n : ℕ). record {
                written = view w.block;
                room = block_size - w.block.pos;
                cnt = n;
                prev = m.writer.prev;
              })
              m.ahead.same_cnt
          ∙ ap
              (λ (n : ℕ). record {
                written = view w.block;
                room = block_size - w.block.pos;
                cnt = w.cnt;
                prev = n;
              })
              m.ahead.same_prev;
    }

-- On a block in components that is not full, `tput` of the vectored writer answers as that of the
-- contiguous writer of the same bytes and room, leaves a block in components, and its bytes, room and
-- tail elements are then those of the contiguous writer, whether the values fit or not.
pub tput-Agrees :
    (xs : List ℕ) (w : VectorWriter) (k : ℕ)
    → Holds k w.block
    → w.block.pos < block_size
    → Agrees (tput xs w) (fast_stdb.Compression.VByte.tput xs (flat_of w))
unfolding tput fast_stdb.Compression.VByte.tput
tput-Agrees xs w k h lt = elim (Bool-cases (all_zero xs)) [
  | inl zeros ↦
      let m = shortcut-Matches w k h in
      rw zeros
        (record { writer = m.writer; k = m.k; result = m.result; holds = m.holds; same = m.same })
  | inr values ↦ rw values (
      restore-Agrees w (encode_pairs xs w) (fast_stdb.Compression.VByte.encode_pairs xs (flat_of w))
        lt (encode_pairs-Matches xs w k h))
]
