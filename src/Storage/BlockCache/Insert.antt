-- ===== src/Storage/BlockCache/Insert.antt =====
-- What an insertion into the block cache keeps and what it evicts.
use fast_stdb.Common.{
  ℕ, zero, suc, List, [], ◌∷◌, subst, sym, ==→ne, ◌^◌, ◌<◌, ◌≤◌, ◌≡◌, ◌≢◌, ◌⊎◌, inl, inr, refl, ap,
  ◌∙◌, arith, Option, none, some, length, get_elem?, set, length-set, Bool-cases, ltb, ◌==◌, ==→eq,
  lt→ltb, ltb→lt, ltb→le,
}
use fast_stdb.Storage.Iovec.{IovecBlock}
use fast_stdb.Storage.MetaVolume.Access.{get_elem?-lt, get_elem?-set_self, get_elem?-set_ne}
use fast_stdb.Storage.BlockCache.{
  BlockCache, hash, probe, probe_cell, insert, insert_at, insert_evicted, evict, evict_of,
  reset_cell, store_block, result, loockup,
}
use fast_stdb.Storage.BlockCache.Cells.{Sized, hash-lt, hash-cell, loockup_lem}

-- The one of two blocks that has fewer users, or the lower address with as many.
abbrev pub Least : ℕ → ℕ → ℕ → ℕ → IovecBlock → IovecBlock → ℕ → Type 0
Least h1 h2 uses1 uses2 b1 b2 v =
    ((v ≡ h1) × ((uses1 < uses2) ⊎ ((uses1 ≡ uses2) × (b1.addr < b2.addr))))
    ⊎ ((v ≡ h2) × ((uses2 < uses1) ⊎ ((uses1 ≡ uses2) × (b2.addr ≤ b1.addr))))

-- One of the two cells that were drawn, whose block has no more users than the other one.
abbrev pub Victim : ℕ → ℕ → ℕ → ℕ → ℕ → Type 0
Victim h1 h2 uses1 uses2 v = ((v ≡ h1) × (uses1 ≤ uses2)) ⊎ ((v ≡ h2) × (uses2 ≤ uses1))

module _ (h1 h2 uses1 uses2 : ℕ) where
  -- Every cell but one's own is as it was, or the victim's, and empty.
  abbrev pub Spared : ℕ → BlockCache → BlockCache → Type 0
  Spared own c c' =
      (j : ℕ)
      → own ≢ j
      → (get_elem? c'.block_cache j ≡ get_elem? c.block_cache j)
        ⊎ (Victim h1 h2 uses1 uses2 j × (get_elem? c'.block_cache j ≡ some none))

  evict_of-Least :
      (b1 b2 : IovecBlock) (c : BlockCache)
      → (v : ℕ) × Least h1 h2 uses1 uses2 b1 b2 v
        × (evict_of h1 h2 uses1 uses2 (some b1) (some b2) c ≡ reset_cell v c)
  unfolding evict_of
  evict_of-Least b1 b2 c = elim (Bool-cases (ltb uses2 uses1)) [
    | inl more ↦ (h2, inr (refl, inl (ltb→lt uses2 uses1 more)), rw more refl)
    | inr le ↦ elim (Bool-cases (ltb uses1 uses2)) [
      | inl less ↦ (h1, inl (refl, inl (ltb→lt uses1 uses2 less)), rw (le, less) refl)
      | inr ge ↦
          let same : uses1 ≡ uses2 = omega (arith, ltb→le uses2 uses1 le, ltb→le uses1 uses2 ge) in
          (elim (Bool-cases (ltb b1.addr b2.addr)) [
            | inl lower ↦
                (h1, inl (refl, inr (same, ltb→lt b1.addr b2.addr lower)), rw (le, ge, lower) refl)
            | inr higher ↦ (
              h2,
              inr (refl, inr (same, ltb→le b1.addr b2.addr higher)),
              rw (le, ge, higher) refl,
            )
          ])
    ]
  ]

  Least-Victim :
      (b1 b2 : IovecBlock) (v : ℕ) → Least h1 h2 uses1 uses2 b1 b2 v → Victim h1 h2 uses1 uses2 v
  Least-Victim b1 b2 v (inl (e, inl lt)) = inl (e, omega arith)
  Least-Victim b1 b2 v (inl (e, inr (same, lt))) = inl (e, omega arith)
  Least-Victim b1 b2 v (inr (e, inl lt)) = inr (e, omega arith)
  Least-Victim b1 b2 v (inr (e, inr (same, le))) = inr (e, omega arith)

  Victim-lt : (v n : ℕ) → h1 < n → h2 < n → Victim h1 h2 uses1 uses2 v → v < n
  Victim-lt v n lt1 lt2 (inl (e, _)) = omega arith
  Victim-lt v n lt1 lt2 (inr (e, _)) = omega arith

  -- A cache that keeps its shape and all cells but the victim's.
  abbrev Keeps : ℕ → BlockCache → BlockCache → Type 0
  Keeps own c c' = Sized c' × (c'.bits ≡ c.bits) × Spared own c c'

  reset_cell-Keeps :
      (own v : ℕ) (c : BlockCache)
      → Sized c
      → v < 2 ^ c.bits
      → Victim h1 h2 uses1 uses2 v
      → Keeps own c (reset_cell v c)
  unfolding reset_cell
  reset_cell-Keeps own v c h lt victim = (
    record {
      cells = length-set c.block_cache v none ∙ h.cells;
      some_bits = h.some_bits;
      small = h.small;
    },
    refl,
    λ j apart. elim (Bool-cases (v == j)) [
      | inl same ↦
          let e : v ≡ j = ==→eq v j same in
          inr (
            subst (Victim h1 h2 uses1 uses2) e victim,
            ap (get_elem? (set c.block_cache v none)) (sym e)
                ∙ get_elem?-set_self c.block_cache v none (omega (arith, h.cells)),
          )
      | inr other ↦ inl (get_elem?-set_ne c.block_cache v j none (==→ne v j other))
    ],
  )

  same-Keeps : (own : ℕ) (c : BlockCache) → Sized c → Keeps own c c
  same-Keeps own c h = (h, refl, λ j apart. inl refl)

  evict_of-Keeps :
      (own : ℕ) (p1 p2 : Option IovecBlock) (c : BlockCache)
      → Sized c
      → h1 < 2 ^ c.bits
      → h2 < 2 ^ c.bits
      → Keeps own c (evict_of h1 h2 uses1 uses2 p1 p2 c)
  unfolding evict_of
  evict_of-Keeps own none p2 c h lt1 lt2 = same-Keeps own c h
  evict_of-Keeps own (some b1) none c h lt1 lt2 = same-Keeps own c h
  evict_of-Keeps own (some b1) (some b2) c h lt1 lt2 =
      let (v, least, e) = evict_of-Least b1 b2 c in
      let victim = Least-Victim b1 b2 v least in
      subst (Keeps own c) (sym e)
        (reset_cell-Keeps own v c h (Victim-lt v (2 ^ c.bits) lt1 lt2 victim) victim)

  -- The cache in which a block of the address is found, and what became of the other cells.
  unfoldable Found : ℕ → BlockCache → Option BlockCache → Type 0
  Found addr c r =
      (c' : BlockCache) × (b' : IovecBlock) × (r ≡ some c')
      × Keeps (hash addr c.bits) c c'
      × (b'.addr ≡ addr)
      × (loockup addr c' ≡ result (some b'))

  store_block-Found :
      (b : IovecBlock) (c0 c : BlockCache)
      → Keeps (hash b.addr c0.bits) c0 c
      → Found b.addr c0 (store_block b c)
  unfolding Found store_block
  store_block-Found b c0 c (h, same, spared) =
      let own = hash b.addr c.bits in
      let own_eq : own ≡ hash b.addr c0.bits = ap (hash b.addr) same in
      let lt : own < length c.block_cache =
        omega (arith, hash-lt b.addr c.bits (omega (arith, h.small)), h.cells) in
      let c' : BlockCache = record c { block_cache = set c.block_cache own (some b) } in
      (
        c',
        b,
        rw (lt→ltb own (length c.block_cache) lt) refl,
        (
          record {
            cells = length-set c.block_cache own (some b) ∙ h.cells;
            some_bits = h.some_bits;
            small = h.small;
          },
          same,
          λ j apart.
              let kept : get_elem? c'.block_cache j ≡ get_elem? c.block_cache j =
                get_elem?-set_ne c.block_cache own j (some b) (λ e. apart (sym own_eq ∙ e)) in
              (elim (spared j apart) [
                | inl e ↦ inl (kept ∙ e)
                | inr (victim, e) ↦ inr (victim, kept ∙ e)
              ]),
        ),
        refl,
        loockup_lem b.addr c' b (get_elem?-set_self c.block_cache own (some b) lt) refl,
      )

  -- In a cache with one cell for each hash of 1 to 30 bits, and with random numbers below the number
  -- of cells, an insertion succeeds, and a look up of the address of the block then gives a block of
  -- that address. Every cell but that of the address is as it was, or it is one of the two that were
  -- drawn, its block had no more users than the other one, and it is empty.
  pub insert-loockup :
      (b : IovecBlock) (c : BlockCache)
      → Sized c
      → h1 < 2 ^ c.bits
      → h2 < 2 ^ c.bits
      → (c' : BlockCache) × (b' : IovecBlock) × (insert h1 h2 uses1 uses2 b c ≡ some c')
        × (Sized c' × (c'.bits ≡ c.bits) × Spared (hash b.addr c.bits) c c')
        × (b'.addr ≡ b.addr)
        × (loockup b.addr c' ≡ result (some b'))
  unfolding Found insert insert_at insert_evicted probe probe_cell evict
  insert-loockup b c h lt1 lt2 =
      let (p, at) = hash-cell b.addr c h in
      let (p1, at1) = get_elem?-lt c.block_cache h1 (omega (arith, h.cells)) in
      let (p2, at2) = get_elem?-lt c.block_cache h2 (omega (arith, h.cells)) in
      rw at (by_cell p at p1 p2 at1 at2)
    where
      by_cell :
          (p : Option IovecBlock)
          → get_elem? c.block_cache (hash b.addr c.bits) ≡ some p
          → (p1 p2 : Option IovecBlock) → get_elem? c.block_cache h1 ≡ some p1
          → get_elem? c.block_cache h2 ≡ some p2
          → Found b.addr c (insert_at (probe_cell b.addr (some p)) h1 h2 uses1 uses2 b c)
      by_cell none at p1 p2 at1 at2 =
          rw (at1, at2, evict)
            (store_block-Found b c (evict_of h1 h2 uses1 uses2 p1 p2 c)
              (evict_of-Keeps (hash b.addr c.bits) p1 p2 c h lt1 lt2))
      by_cell (some b2) at p1 p2 at1 at2 = elim (Bool-cases (b2.addr == b.addr)) [
        | inl same ↦ rw same (
          c,
          b2,
          refl,
          same-Keeps (hash b.addr c.bits) c h,
          ==→eq b2.addr b.addr same,
          loockup_lem b.addr c b2 at (==→eq b2.addr b.addr same),
        )
        | inr other ↦ rw other (store_block-Found b c c (same-Keeps (hash b.addr c.bits) c h))
      ]

  -- Where the cell of the address is empty and the two cells that are drawn hold blocks, an
  -- insertion empties the cell of the block with fewer users, or with the lower address where both
  -- have as many, puts the block into its own cell, and leaves all others.
  pub insert-evicts :
      (b b1 b2 : IovecBlock) (c : BlockCache)
      → Sized c
      → get_elem? c.block_cache (hash b.addr c.bits) ≡ some none
      → get_elem? c.block_cache h1 ≡ some (some b1)
      → get_elem? c.block_cache h2 ≡ some (some b2)
      → (c' : BlockCache) × (v : ℕ) × (insert h1 h2 uses1 uses2 b c ≡ some c')
        × Least h1 h2 uses1 uses2 b1 b2 v
        × (get_elem? c'.block_cache v ≡ some none)
        × (get_elem? c'.block_cache (hash b.addr c.bits) ≡ some (some b))
        × ((j : ℕ)
            → v ≢ j
            → hash b.addr c.bits ≢ j
            → get_elem? c'.block_cache j ≡ get_elem? c.block_cache j)
  unfolding insert insert_at insert_evicted probe probe_cell evict store_block reset_cell
  insert-evicts b b1 b2 c h at at1 at2 =
      let own = hash b.addr c.bits in
      let (v, least, e) = evict_of-Least b1 b2 c in
      let held = held_by v least in
      let lt : own < length c.block_cache =
        omega (arith, hash-lt b.addr c.bits (omega (arith, h.small)), h.cells) in
      let apart : own ≢ v =
        λ same. not_both (sym at ∙ ap (get_elem? c.block_cache) same ∙ held.1) in
      (
        record c { block_cache = set (set c.block_cache v none) own (some b) },
        v,
        rw (at, at1, at2, evict, e) (stored v lt),
        least,
        get_elem?-set_ne (set c.block_cache v none) own v (some b) apart
            ∙ get_elem?-set_self c.block_cache v none (get-lt c.block_cache v (some held.0) held.1),
        get_elem?-set_self (set c.block_cache v none) own (some b)
            (omega (arith, length-set c.block_cache v none)),
        λ j ne ne'.
            get_elem?-set_ne (set c.block_cache v none) own j (some b) ne'
            ∙ get_elem?-set_ne c.block_cache v j none ne,
      )
    where
      held_by :
          (v : ℕ)
          → Least h1 h2 uses1 uses2 b1 b2 v
          → (d : IovecBlock) × (get_elem? c.block_cache v ≡ some (some d))
      held_by v (inl (e, _)) = (b1, ap (get_elem? c.block_cache) e ∙ at1)
      held_by v (inr (e, _)) = (b2, ap (get_elem? c.block_cache) e ∙ at2)

      not_both : {d : IovecBlock} → some none ≡ some (some d) → ⊥
      not_both e = cc

      stored :
          (v : ℕ)
          → hash b.addr c.bits < length c.block_cache
          → store_block b (reset_cell v c)
            ≡ some (record c {
              block_cache = set (set c.block_cache v none) (hash b.addr c.bits) (some b);
            })
      stored v lt =
          rw
            (lt→ltb (hash b.addr c.bits) (length (set c.block_cache v none))
              (omega (arith, length-set c.block_cache v none)))
            refl

      get-lt :
          (l : List (Option IovecBlock)) (i : ℕ) (p : Option IovecBlock)
          → get_elem? l i ≡ some p
          → i < length l
      get-lt [] i p e = cc
      get-lt (x ∷ l) zero p e = omega arith
      get-lt (x ∷ l) (suc i) p e = omega (arith, get-lt l i p e)
