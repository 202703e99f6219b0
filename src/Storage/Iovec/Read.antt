-- ===== src/Storage/Iovec/Read.antt =====
-- Reading a block in components reads its bytes.
use fast_stdb.Common.{
  ℕ, ◌+◌, ◌-◌, ◌*◌, ◌/◌, ◌%◌, ◌<◌, ◌≤◌, ◌≡◌, ◌≢◌, refl, sym, ap, ◌∙◌, arith, false, some, List,
  ◌++◌, length, leb, ◌==◌, eq→==, ne→==, Bool-cases, inl, inr, ==→eq, ==→ne,
}
use native.Mathlib.Decide.{dec_le}
use fast_stdb.Common.Memory.{slice, slice-take, slice-slice, length-slice, length-take}
use fast_stdb.Storage.Iovec.{
  IovecBlock, component, component_size, ncomponents, copy_out, read_chunk, read_one, read_two,
  read_second,
}
use fast_stdb.Storage.Iovec.Shape.{
  flat, Holds, view, Allocated-get, Allocated-get_empty, slice-flat, length-flat,
}
use fast_stdb.Storage.Iovec.Append.{is_single-Holds}
use fast_stdb.Storage.Iovec.Append.{Holds-le}

copy_out-slice :
    (c : List ℕ) (off n : ℕ) → off + n ≤ length c → copy_out c off n ≡ some (slice off n c)
unfolding copy_out
copy_out-slice c off n h = ground arith

crosses :
    (offset size : ℕ)
    → offset / component_size ≢ (offset + size) / component_size
    → component_size ≤ offset % component_size + size
crosses offset size apart = elim (dec_le component_size (offset % component_size + size)) [
  | yes le ↦ le
  | no lt ↦ absurd (apart (omega arith))
]

module _ (k : ℕ) (b : IovecBlock) (h : Holds k b) where
  size_of : (i : ℕ) → i < k → length (component b i) ≡ component_size
  size_of i lt = Allocated-get k i b.components h.allocated lt

  -- A read within an allocated component.
  component-view :
      (i off n at : ℕ)
      → i < k
      → off + n ≤ component_size
      → at ≡ component_size * i + off
      → at + n ≤ b.pos
      → copy_out (component b i) off n ≡ some (slice at n (view b))
  component-view i off n at lt fits e behind =
      copy_out-slice (component b i) off n (omega (arith, size_of i lt))
      ∙ ap (λ (l : List ℕ). some l)
          (sym (
            slice-take at n b.pos (flat b.components) behind
            ∙ slice-flat k i off n b.components at h.allocated lt fits e))

  occupied : (i : ℕ) → i < k → (length (component b i) == 0) ≡ false
  occupied i lt = ne→== (length (component b i)) 0 (λ z. absurd (omega (arith, size_of i lt)))

  read_one-view :
      (offset size : ℕ)
      → offset / component_size < k
      → offset % component_size + size ≤ component_size
      → offset + size ≤ b.pos
      → read_one offset size b ≡ some (slice offset size (view b), size)
  unfolding read_one
  read_one-view offset size lt fits behind =
      rw
        (
          occupied (offset / component_size) lt,
          component-view (offset / component_size) (offset % component_size) size offset lt fits
              (omega arith) behind,
          read_one,
        )
        refl

  first_part :
      (offset size : ℕ)
      → offset / component_size < k
      → component_size ≤ offset % component_size + size
      → offset + size ≤ b.pos
      → copy_out
          (component b (offset / component_size))
          (offset % component_size)
          (component_size - offset % component_size)
        ≡ some (slice offset (component_size - offset % component_size) (view b))
  first_part offset size lt long behind =
      component-view (offset / component_size) (offset % component_size)
        (component_size - offset % component_size) offset lt (omega arith) (omega arith)
        (omega arith)

  length-view : length (view b) ≡ b.pos
  length-view =
      length-take b.pos (flat b.components)
        (omega (arith, length-flat k b.components h.allocated, h.within))

  read_two_lem :
      (offset size : ℕ) (first : List ℕ)
      → offset / component_size < k
      → copy_out
          (component b (offset / component_size))
          (offset % component_size)
          (component_size - offset % component_size)
        ≡ some first
      → read_two offset size b ≡ read_second first ((offset + size) / component_size) size b
  unfolding read_two
  read_two_lem offset size first lt e =
      rw (occupied (offset / component_size) lt) (rw (e, read_two) refl)

  read_two-view :
      (offset size : ℕ)
      → (offset + size) / component_size < k
      → k ≤ 4
      → component_size ≤ offset % component_size + size
      → size ≤ component_size
      → offset + size ≤ b.pos
      → read_two offset size b ≡ some (slice offset size (view b), size)
  unfolding read_second
  read_two-view offset size lt four long short behind =
      let l1 : ℕ = component_size - offset % component_size in
      let first : List ℕ = slice offset l1 (view b) in
      let ixend : ℕ = (offset + size) / component_size in
      let len : length first ≡ l1 = length-slice offset l1 (view b) (omega (arith, length-view)) in
      let inside : leb ncomponents ixend ≡ false = ground arith in
      let rest : copy_out (component b ixend) 0 (size - length first)
          ≡ some (slice (offset + l1) (size - length first) (view b)) =
        component-view ixend 0 (size - length first) (offset + l1) lt (omega arith) (omega arith)
          (omega arith) in
      read_two_lem offset size first (omega arith)
        (first_part offset size (omega arith) long behind)
      ∙ rw (inside, occupied ixend lt) (rw (rest, read_second) refl)
      ∙ ap (λ (l : List ℕ). some (l, size))
          (ap (λ (n : ℕ). first ++ slice (offset + l1) (size - n) (view b)) len
            ∙ slice-slice offset l1 (size - l1) (view b) (offset + l1) refl
                (omega (arith, length-view))
            ∙ ap (λ (n : ℕ). slice offset n (view b)) {x = l1 + (size - l1)} {y = size}
                (omega arith))

  outside :
      (offset size : ℕ)
      → (offset + size) / component_size < 4
      → leb ncomponents (offset / component_size) ≡ false
  outside offset size lt = ground arith

  -- A chunk of at most 1024 bytes before the write position that ends in an allocated component is
  -- read whole, from one component or from two.
  pub read_chunk-view :
      (offset size : ℕ)
      → size ≤ component_size
      → offset + size ≤ b.pos
      → (offset + size) / component_size < k
      → read_chunk offset size b ≡ some (slice offset size (view b), size)
  unfolding read_chunk
  read_chunk-view offset size short behind lt =
      let four : k ≤ 4 = Holds-le k b h in
      elim (Bool-cases (offset / component_size == (offset + size) / component_size)) [
        | inl one ↦
            let same : offset / component_size ≡ (offset + size) / component_size = ==→eq _ _ one in
            rw (is_single-Holds k b h, outside offset size (omega arith), one)
              (read_one-view offset size (omega arith) (omega arith) behind)
        | inr two ↦
            let apart : offset / component_size ≢ (offset + size) / component_size =
              ==→ne _ _ two in
            rw (is_single-Holds k b h, outside offset size (omega arith), two)
              (read_two-view offset size lt four (crosses offset size apart) short behind)
      ]

  -- A chunk of one to 1024 bytes that ends exactly where the allocated components end, which is the
  -- write position and short of the end of the block, is copied whole, and yet the result is 0, which stands for a failure.
  pub read_chunk-boundary :
      (offset size : ℕ)
      → 0 < size
      → size ≤ component_size
      → offset + size ≡ component_size * k
      → b.pos ≡ component_size * k
      → k < 4
      → read_chunk offset size b ≡ some (slice offset size (view b), 0)
  unfolding read_chunk read_second
  read_chunk-boundary offset size some_bytes short at_end at_pos four =
      let ixend : ℕ = (offset + size) / component_size in
      let l1 : ℕ = component_size - offset % component_size in
      let two : (offset / component_size == ixend) ≡ false =
        ne→== _ _ (λ e. absurd (omega arith)) in
      let nothing : length (component b ixend) ≡ 0 =
        ap length (Allocated-get_empty k ixend b.components h.allocated (omega arith)) in
      let inside : leb ncomponents ixend ≡ false = ground arith in
      rw (is_single-Holds k b h, outside offset size (omega arith), two)
        (read_two_lem offset size (slice offset l1 (view b)) (omega arith)
            (first_part offset size (omega arith) (omega arith) (omega arith))
          ∙ rw (inside, eq→== (length (component b ixend)) 0 nothing)
              (ap (λ (n : ℕ). some (slice offset n (view b), 0)) {x = l1} {y = size} (omega arith)))
