-- ===== src/Storage/Iovec/Put.antt =====
-- A byte at a time: `put`, `safe_put`.
use fast_stdb.Common.{
  ℕ, suc, append-nil, append_assoc, ◌⊎◌, inl, inr, ◌+◌, ◌/◌, ◌%◌, ◌<◌, ◌≤◌, ◌≡◌, refl, sym, ap, ◌∙◌,
  arith, true, false, none, some, List, [], ◌∷◌, ◌++◌, length, get_or, set, leb, subst, eq→==,
  ne→==,
}
use native.Mathlib.Decide.{dec_lt}
use fast_stdb.Common.Memory.{overwrite, set-overwrite}
use fast_stdb.Storage.Iovec.{
  IovecBlock, component, component_size, block_size, ncomponents, blank, put, safe_put, store,
  allocate_component, put_all,
}
use fast_stdb.Storage.Iovec.Shape.{Holds, view, Allocated-get, Allocated-get_empty}
use fast_stdb.Storage.Iovec.Append.{Extends, Holds-le, next_component, write_component}

allocate-Extends :
    (k c : ℕ) (b : IovecBlock) (bytes : List ℕ)
    → Extends k b.pos b.components bytes
    → c ≡ b.pos / component_size
    → c < 4
    → (k' : ℕ) × (cs : List (List ℕ)) × (allocate_component c b ≡ record b { components = cs })
      × (c < k')
      × Extends k' b.pos cs bytes
unfolding allocate_component
allocate-Extends k c b bytes h at lt = elim (dec_lt c k) [
  | yes old ↦
      let size : length (component b c) ≡ component_size = Allocated-get k c b.components h.1 old in
      (
        k,
        b.components,
        rw (ne→== (length (component b c)) 0 (λ z. absurd (omega arith))) refl,
        old,
        h,
      )
  | no new ↦
      let (extends, same) = next_component k c b.pos b.components bytes h at lt (omega arith) in
      let nothing : length (component b c) ≡ 0 =
        ap length (Allocated-get_empty k c b.components h.1 (omega arith)) in
      (
        suc k,
        set b.components c blank,
        rw (eq→== (length (component b c)) 0 nothing) refl,
        omega arith,
        extends,
      )
]

-- `put`, `safe_put` and the rest of their callers write the byte behind the others.
pub store-view :
    (k : ℕ) (b : IovecBlock) (val : ℕ)
    → Holds k b
    → b.pos < block_size
    → (k' : ℕ) × Holds k' (store val b) × (view (store val b) ≡ view b ++ val ∷ [])
unfolding store
store-view k b val h lt =
    let c : ℕ = b.pos / component_size in
    let off : ℕ = b.pos % component_size in
    let (k', cs, e, old, extends) =
      allocate-Extends k c b (view b) (h.four, h.allocated, h.within, refl) refl (omega arith) in
    let (four, allocated, within, bytes) =
      write_component k' c b.pos cs (view b) (val ∷ []) extends refl old (omega arith) in
    let written : IovecBlock = record b {
      components = set cs c (overwrite (get_or cs c []) off (val ∷ []));
      pos = b.pos + 1;
    } in
    let same : store val b ≡ written =
      ap
        (λ (b' : IovecBlock). record b' {
          components = set b'.components c (set (component b' c) off val);
          pos = b.pos + 1;
        })
        e
      ∙ ap (λ (d : List ℕ). record b { components = set cs c d; pos = b.pos + 1 })
          (set-overwrite (get_or cs c []) off val) in
    (
      k',
      subst (Holds k') (sym same) (record { four = four; allocated = allocated; within = within }),
      ap view same ∙ bytes,
    )

pos-store : (val : ℕ) (b : IovecBlock) → (store val b).pos ≡ b.pos + 1
unfolding store
pos-store val b = refl

-- While the block is not full, `put` and `safe_put` write the byte behind the others. On a full one
-- `safe_put` answers false and changes nothing; `put`, which does not look, accesses a component
-- behind the four, on which the source has no defined behaviour.
pub put-safe_put :
    (k : ℕ) (b : IovecBlock) (val : ℕ)
    → Holds k b
    → ((b.pos < block_size)
        × (b' : IovecBlock) × (put val b ≡ some b')
        × (safe_put val b ≡ (true, b'))
        × (view b' ≡ view b ++ val ∷ [])
        × (k' : ℕ) × Holds k' b')
      ⊎ ((b.pos ≡ block_size) × (put val b ≡ none) × (safe_put val b ≡ (false, b)))
unfolding put safe_put
put-safe_put k b val h = elim (dec_lt b.pos block_size) [
  | yes lt ↦
      let (k', holds, bytes) = store-view k b val h lt in
      let inside : leb ncomponents (b.pos / component_size) ≡ false = ground arith in
      inl (lt, store val b, rw inside refl, rw inside refl, bytes, k', holds)
  | no full ↦
      let most : b.pos ≤ 4096 = omega (arith, h.within, Holds-le k b h) in
      let behind : leb ncomponents (b.pos / component_size) ≡ true = ground arith in
      inr (omega arith, rw behind refl, rw behind refl)
]

put_all-cons :
    (v : ℕ) (vs : List ℕ) (b b' : IovecBlock)
    → put v b ≡ some (store v b)
    → put_all vs (store v b) ≡ some b'
    → put_all (v ∷ vs) b ≡ some b'
unfolding put_all
put_all-cons v vs b b' one e = rw (one, put_all) e

-- A plain value that fits is written byte by byte.
pub put_all-view :
    (vs : List ℕ) (k : ℕ) (b : IovecBlock)
    → Holds k b
    → b.pos + length vs ≤ block_size
    → (b' : IovecBlock) × (put_all vs b ≡ some b')
      × (view b' ≡ view b ++ vs)
      × (b'.pos ≡ b.pos + length vs)
      × (k' : ℕ) × Holds k' b'
unfolding put_all put
put_all-view [] k b h fits = (b, refl, sym (append-nil (view b)), omega arith, k, h)
put_all-view (v ∷ vs) k b h fits =
    let (k', holds, bytes) = store-view k b v h (omega arith) in
    let inside : leb ncomponents (b.pos / component_size) ≡ false = ground arith in
    let moved : (store v b).pos ≡ b.pos + 1 = pos-store v b in
    let (b', e, bytes', pos', k'', holds') = put_all-view vs k' (store v b) holds (omega arith) in
    (
      b',
      put_all-cons v vs b b' (rw inside refl) e,
      bytes' ∙ ap (λ (l : List ℕ). l ++ vs) bytes ∙ append_assoc (view b) (v ∷ []) vs,
      omega arith,
      k'',
      holds',
    )
