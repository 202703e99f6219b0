-- ===== src/Storage/Iovec/Append.antt =====
-- Writing to a block in components appends to its bytes.
use fast_stdb.Common.{
  ℕ, zero, suc, ◌+◌, ◌-◌, ◌*◌, ◌/◌, ◌%◌, ◌^◌, ◌<◌, ◌≤◌, ◌≡◌, refl, sym, ap, ◌∙◌, arith, true, false,
  Option, none, some, List, [], ◌∷◌, ◌++◌, length, get_or, set, take, drop, leb, ◌==◌, length-set,
  append_assoc, Bool-cases, inl, inr, ◌⊎◌, subst, eq→==, ne→==, ==→eq, ==→ne, ◌≢◌,
}
use native.Mathlib.Decide.{dec_le, dec_lt}
use fast_stdb.Common.Memory.{
  overwrite, take-overwrite, length-overwrite, take-append, length-take, length-drop, take-drop,
}
use fast_stdb.Storage.Iovec.{
  IovecBlock, component, component_size, block_size, ncomponents, blank, is_single, add, add_from,
  add_expected, copy_in, append_one, append_two, append_to, append_chunk, advance, space_left,
}
use fast_stdb.Storage.Iovec.Shape.{
  flat, Allocated, length-flat, length-blank, Allocated-get, Allocated-get_empty, Allocated-set,
  Allocated-next, flat-next, flat-overwrite, Holds, view,
}

-- The components behind an operation, and the bytes before `pos`.
abbrev pub Extends : ℕ → ℕ → List (List ℕ) → List ℕ → Type 0
Extends k pos cs bytes =
    (length cs ≡ 4) × Allocated k cs × (pos ≤ component_size * k) × (take pos (flat cs) ≡ bytes)

-- With the next component allocated where it is needed.
pub next_component :
    (k c pos : ℕ) (cs : List (List ℕ)) (bytes : List ℕ)
    → Extends k pos cs bytes
    → c ≡ pos / component_size
    → c < 4
    → (k ≤ c)
    → Extends (suc k) pos (set cs c blank) bytes × (c ≡ k)
next_component k c pos cs bytes (four, h, within, e) at lt new =
    let same : c ≡ k = omega arith in
    (
      (
        length-set cs c blank ∙ four,
        subst (λ (i : ℕ). Allocated (suc k) (set cs i blank)) (sym same)
            (Allocated-next k cs blank h (omega arith) length-blank),
        omega arith,
        ap (λ (i : ℕ). take pos (flat (set cs i blank))) same
            ∙ ap (λ (l : List ℕ). take pos l) (flat-next k cs blank h (omega arith))
            ∙ take-append pos (flat cs) blank (omega (arith, length-flat k cs h))
            ∙ e,
      ),
      same,
    )

-- A write within a component at `pos` extends the bytes.
pub write_component :
    (k c pos : ℕ) (cs : List (List ℕ)) (bytes src : List ℕ)
    → Extends k pos cs bytes
    → c ≡ pos / component_size
    → c < k
    → pos % component_size + length src ≤ component_size
    → Extends k
        (pos + length src)
        (set cs c (overwrite (get_or cs c []) (pos % component_size) src))
        (bytes ++ src)
write_component k c pos cs bytes src (four, h, within, e) at lt fits = (
  length-set cs c _ ∙ four,
  Allocated-set k c cs (overwrite (get_or cs c []) (pos % component_size) src) h
      (length-overwrite (get_or cs c []) (pos % component_size) src ∙ Allocated-get k c cs h lt) lt,
  omega arith,
  ap (λ (l : List ℕ). take (pos + length src) l)
        (flat-overwrite k c (pos % component_size) cs src pos h lt fits (omega arith))
      ∙ take-overwrite (flat cs) pos src (pos + length src) refl (omega (arith, length-flat k cs h))
      ∙ ap (λ (l : List ℕ). l ++ src) e,
)

add_from-Allocated :
    (k i : ℕ) (cs : List (List ℕ))
    → Allocated k cs
    → k < length cs
    → add_from i cs ≡ some (i + k, set cs k blank)
unfolding add_from
add_from-Allocated k i [] h lt = absurd (omega arith)
add_from-Allocated zero i ([] ∷ cs) h lt =
    ap (λ (j : ℕ). some (j, blank ∷ cs)) {x = i} {y = i + 0} (omega arith)
add_from-Allocated zero i ((x ∷ c) ∷ cs) h lt = absurd (omega (arith, ap length h.0))
add_from-Allocated (suc k) i ([] ∷ cs) h lt = absurd (omega (arith, h.0))
add_from-Allocated (suc k) i ((x ∷ c) ∷ cs) h lt =
    rw (add_from-Allocated k (i + 1) cs h.1 (omega arith)) (
      ap (λ (j : ℕ). some (j, (x ∷ c) ∷ set cs k blank)) {x = i + 1 + k} {y = i + suc k}
        (omega arith))

-- `add` allocates the component that `append_chunk` expects.
add_expected-Extends :
    (k c pos : ℕ) (b : IovecBlock) (bytes : List ℕ)
    → Extends k pos b.components bytes
    → c ≡ pos / component_size
    → c < 4
    → (k' : ℕ) × (cs : List (List ℕ)) × (add_expected c b ≡ some (record b { components = cs }))
      × (c < k')
      × Extends k' pos cs bytes
unfolding add_expected add
add_expected-Extends k c pos b bytes (four, h, within, e) at lt = elim (dec_lt c k) [
  | yes old ↦
      let size : length (component b c) ≡ component_size = Allocated-get k c b.components h old in
      (
        k,
        b.components,
        rw (ne→== (length (component b c)) 0 (λ z. absurd (omega arith))) refl,
        old,
        (four, h, within, e),
      )
  | no new ↦
      let (extends, same) =
        next_component k c pos b.components bytes (four, h, within, e) at lt (omega arith) in
      let nothing : length (component b c) ≡ 0 =
        ap length (Allocated-get_empty k c b.components h (omega arith)) in
      let found : add_from 0 b.components ≡ some (c, set b.components c blank) =
        add_from-Allocated k 0 b.components h (omega arith)
        ∙ ap (λ (j : ℕ). some (j, set b.components k blank)) {x = 0 + k} {y = c} (omega arith)
        ∙ ap (λ (j : ℕ). some (c, set b.components j blank)) (sym same) in
      (
        suc k,
        set b.components c blank,
        rw (eq→== (length (component b c)) 0 nothing, found) (rw (eq→== c c refl) refl),
        omega arith,
        extends,
      )
]

-- The component of `pos` is found or added, and the bytes are copied in.
copy_at : ℕ → ℕ → List ℕ → IovecBlock → Option IovecBlock
copy_at c off src b = elim (add_expected c b) [ none ↦ none | some b' ↦ copy_in c off src b' ]

copy_at_lem :
    (c off : ℕ) (src : List ℕ) (b b' : IovecBlock)
    → add_expected c b ≡ some b'
    → leb (off + length src) (length (component b' c)) ≡ true
    → copy_at c off src b
      ≡ some (record b' { components = set b'.components c (overwrite (component b' c) off src) })
unfolding copy_at copy_in
copy_at_lem c off src b b' e fits = rw (e, copy_at) (rw fits refl)

copy_at-Extends :
    (k c off pos : ℕ) (b : IovecBlock) (bytes src : List ℕ)
    → Extends k pos b.components bytes
    → c ≡ pos / component_size
    → off ≡ pos % component_size
    → c < 4
    → off + length src ≤ component_size
    → (k' : ℕ) × (cs : List (List ℕ)) × (copy_at c off src b ≡ some (record b { components = cs }))
      × (c < k')
      × Extends k' (pos + length src) cs (bytes ++ src)
unfolding copy_at copy_in
copy_at-Extends k c off pos b bytes src h at same lt fits =
    let (k', cs, e, old, extends) = add_expected-Extends k c pos b bytes h at lt in
    let fits' : pos % component_size + length src ≤ component_size = omega arith in
    let size : length (get_or cs c []) ≡ component_size = Allocated-get k' c cs extends.1 old in
    let copied : leb (off + length src) (length (get_or cs c [])) ≡ true = ground arith in
    (
      k',
      set cs c (overwrite (get_or cs c []) (pos % component_size) src),
      copy_at_lem c off src b (record b { components = cs }) e copied
          ∙ (ap
              (λ (o : ℕ).
                some (record b { components = set cs c (overwrite (get_or cs c []) o src) }))
              same),
      old,
      write_component k' c pos cs bytes src extends at old fits',
    )

append_one-Extends :
    (k : ℕ) (b : IovecBlock) (bytes src : List ℕ)
    → Extends k b.pos b.components bytes
    → b.pos < block_size
    → b.pos % component_size + length src ≤ component_size
    → (k' : ℕ) × (cs : List (List ℕ)) × (append_one src b ≡ some (record b { components = cs }))
      × Extends k' (b.pos + length src) cs (bytes ++ src)
unfolding append_one copy_at
append_one-Extends k b bytes src h lt fits =
    let (k', cs, e, old, extends) =
      copy_at-Extends k (b.pos / component_size) (b.pos % component_size) b.pos b bytes src h refl
        refl (omega arith) fits in
    (k', cs, e, extends)

append_two_lem :
    (b b' : IovecBlock) (src : List ℕ) (r : Option IovecBlock)
    → append_one (take (component_size - b.pos % component_size) src) b ≡ some b'
    → copy_at
        ((b.pos + length src) / component_size)
        0
        (drop (component_size - b.pos % component_size) src)
        b'
      ≡ r
    → append_two src b ≡ r
unfolding append_two copy_at
append_two_lem b b' src r e e' = rw (e, append_two) e'

append_two-Extends :
    (k : ℕ) (b : IovecBlock) (bytes src : List ℕ)
    → Extends k b.pos b.components bytes
    → b.pos + length src < block_size
    → length src ≤ component_size
    → component_size ≤ b.pos % component_size + length src
    → (k' : ℕ) × (cs : List (List ℕ)) × (append_two src b ≡ some (record b { components = cs }))
      × Extends k' (b.pos + length src) cs (bytes ++ src)
unfolding append_two copy_at
append_two-Extends k b bytes src h lt short long =
    let l1 : ℕ = component_size - b.pos % component_size in
    let len1 : length (take l1 src) ≡ l1 = length-take l1 src (omega arith) in
    let len2 : l1 + length (drop l1 src) ≡ length src = length-drop l1 src (omega arith) in
    let (k', cs, e, extends) =
      append_one-Extends k b bytes (take l1 src) h (omega arith) (omega arith) in
    let ixend : ℕ = (b.pos + length src) / component_size in
    let (k'', cs', e', old, extends') =
      copy_at-Extends k' ixend 0 (b.pos + length (take l1 src)) (record b { components = cs })
        (bytes ++ take l1 src) (drop l1 src) extends (omega arith) (omega arith) (omega arith)
        (omega arith) in
    let total : b.pos + length (take l1 src) + length (drop l1 src) ≡ b.pos + length src =
      omega arith in
    (
      k'',
      cs',
      append_two_lem b (record b { components = cs }) src _ e e',
      subst (λ (l : List ℕ). Extends k'' (b.pos + length src) cs' l)
          (append_assoc bytes (take l1 src) (drop l1 src)
            ∙ ap (λ (l : List ℕ). bytes ++ l) (take-drop l1 src))
          (subst (λ (n : ℕ). Extends k'' n cs' ((bytes ++ take l1 src) ++ drop l1 src)) total
            extends'),
    )

pub is_single-Holds : (k : ℕ) (b : IovecBlock) → Holds k b → is_single b ≡ false
unfolding is_single
is_single-Holds k b h = elim (dec_lt 0 k) [
  | yes some_first ↦
      let size : length (component b 0) ≡ component_size =
        Allocated-get k 0 b.components h.allocated some_first in
      ne→== (length (component b 0)) block_size (λ e. absurd (omega arith))
  | no nothing ↦
      let size : length (component b 0) ≡ 0 =
        ap length (Allocated-get_empty k 0 b.components h.allocated (omega arith)) in
      ne→== (length (component b 0)) block_size (λ e. absurd (omega arith))
]

append_chunk_lem :
    (source : List ℕ) (b : IovecBlock)
    → b.pos + length source < 2 ^ 31
    → append_chunk source b ≡ append_to (b.pos + length source) source b
unfolding append_chunk
append_chunk_lem source b small =
    ap (λ (end : ℕ). append_to end source b) {x = (b.pos + length source) % 2 ^ 32}
      {y = b.pos + length source} (omega arith)

-- A chunk of at most 1024 bytes that ends before the end of the block is appended to its bytes, in
-- one component or in two; the result is the new write position.
pub append_chunk-view :
    (k : ℕ) (b : IovecBlock) (source : List ℕ)
    → Holds k b
    → length source ≤ component_size
    → b.pos + length source < block_size
    → (k' : ℕ) × (b' : IovecBlock) × (append_chunk source b ≡ some (b.pos + length source, b'))
      × Holds k' b'
      × (view b' ≡ view b ++ source)
      × (b'.pos ≡ b.pos + length source)
unfolding append_to advance
append_chunk-view k b source h short lt =
    elim (Bool-cases (b.pos / component_size == (b.pos + length source) / component_size)) [
      | inl one ↦
          let same : b.pos / component_size ≡ (b.pos + length source) / component_size =
            ==→eq _ _ one in
          let (k', cs, e, extends) =
            append_one-Extends k b (view b) source start (omega arith) (omega arith) in
          finish k' cs extends
            (rw (is_single-Holds k b h, inside, positive, inside', one) (rw e refl))
      | inr two ↦
          let apart : b.pos / component_size ≢ (b.pos + length source) / component_size =
            ==→ne _ _ two in
          let (k', cs, e, extends) =
            append_two-Extends k b (view b) source start lt short (two_components apart) in
          finish k' cs extends
            (rw (is_single-Holds k b h, inside, positive, inside', two) (rw e refl))
    ]
  where
    start : Extends k b.pos b.components (view b)
    start = (h.four, h.allocated, h.within, refl)

    inside : leb ncomponents (b.pos / component_size) ≡ false
    inside = ground arith

    inside' : leb ncomponents ((b.pos + length source) / component_size) ≡ false
    inside' = ground arith

    positive : leb (2 ^ 31) (b.pos + length source) ≡ false
    positive = ground arith

    two_components :
        b.pos / component_size ≢ (b.pos + length source) / component_size
        → component_size ≤ b.pos % component_size + length source
    two_components apart = elim (dec_le component_size (b.pos % component_size + length source)) [
      | yes le ↦ le
      | no lt ↦ absurd (apart (omega arith))
    ]

    finish :
        (k' : ℕ) (cs : List (List ℕ))
        → Extends k' (b.pos + length source) cs (view b ++ source)
        → append_to (b.pos + length source) source b
          ≡ some (b.pos + length source, record b { components = cs; pos = b.pos + length source })
        → (k'' : ℕ) × (b' : IovecBlock) × (append_chunk source b ≡ some (b.pos + length source, b'))
          × Holds k'' b'
          × (view b' ≡ view b ++ source)
          × (b'.pos ≡ b.pos + length source)
    finish k' cs (four, allocated, within, bytes) e = (
      k',
      record b { components = cs; pos = b.pos + length source },
      append_chunk_lem source b (omega arith) ∙ e,
      record { four = four; allocated = allocated; within = within },
      bytes,
      refl,
    )

append_chunk-full :
    (k : ℕ) (b : IovecBlock) (source : List ℕ)
    → Holds k b
    → block_size ≤ b.pos + length source
    → b.pos + length source < 2 ^ 31
    → append_chunk source b ≡ some (0, b)
unfolding append_to
append_chunk-full k b source h full small =
    let behind : leb ncomponents ((b.pos + length source) / component_size) ≡ true = ground arith in
    let positive : leb (2 ^ 31) (b.pos + length source) ≡ false = ground arith in
    append_chunk_lem source b small ∙ rw (is_single-Holds k b h, behind, positive) (ground arith)

Allocated-le : (k : ℕ) (cs : List (List ℕ)) → Allocated k cs → k ≤ length cs
Allocated-le k [] h = omega arith
Allocated-le zero (c ∷ cs) h = omega arith
Allocated-le (suc k) (c ∷ cs) h = omega (arith, Allocated-le k cs h.1)

pub Holds-le : (k : ℕ) (b : IovecBlock) → Holds k b → k ≤ 4
Holds-le k b h = omega (arith, Allocated-le k b.components h.allocated, h.four)

-- A chunk of at most 1024 bytes is appended to a block in components where it is shorter than
-- the space that is left, and else refused without a change: also where it would fit exactly.
pub append_chunk-space_left :
    (k : ℕ) (b : IovecBlock) (source : List ℕ)
    → Holds k b
    → length source ≤ component_size
    → ((length source < space_left b)
        × (b' : IovecBlock) × (append_chunk source b ≡ some (b.pos + length source, b'))
        × (space_left b ≡ space_left b' + length source)
        × (view b' ≡ view b ++ source))
      ⊎ ((space_left b ≤ length source) × (append_chunk source b ≡ some (0, b)))
unfolding space_left
append_chunk-space_left k b source h short = elim (dec_lt (b.pos + length source) block_size) [
  | yes fits ↦
      let (k', b', e, held, bytes, at) = append_chunk-view k b source h short fits in
      inl (omega arith, b', e, omega arith, bytes)
  | no full ↦
      inr (omega arith, append_chunk-full k b source h (omega arith) (omega (arith, within)))
]
  where
    within : b.pos ≤ block_size
    within = omega (arith, h.within, Holds-le k b h)
