-- ===== src/Storage/Volume/Blocks.antt =====
-- The blocks of a volume as regions of its file, and the bytes of a block in components.
use fast_stdb.Common.{
  ℕ, zero, suc, ◌+◌, ◌*◌, ◌^◌, ◌<◌, ◌≤◌, ◌≡◌, ◌≢◌, ◌⊎◌, inl, inr, refl, sym, ap, ◌∙◌, arith, List,
  [], ◌∷◌, ◌++◌, length, take, map, get_or, length-append, append-nil, append_assoc, ◌==◌, false,
}
use fast_stdb.Common.Memory.{
  overwrite, slice, slice-overwrite_ne, slice-overwrite_self, length-overwrite, take-overwrite,
  length-slice, take-append,
}
use native.Mathlib.Decide.{dec_lt}
use fast_stdb.Storage.Iovec.{IovecBlock, component_size, block_size}
use fast_stdb.Storage.Iovec.Shape.{
  flat, Allocated, Holds, view, flat-Allocated, length-flat, length-blank,
}
use fast_stdb.Storage.Volume.{Volume, block_offset, block_at, padded, block_bytes}

pub take-all {ℓ} : {A : Type ℓ} (n : ℕ) (l : List A) → length l ≤ n → take n l ≡ l
take-all zero [] h = refl
take-all zero (x ∷ l) h = absurd (omega arith)
take-all (suc n) [] h = refl
take-all (suc n) (x ∷ l) h = ap (λ t. x ∷ t) (take-all n l (omega arith))

pub length-take_le {ℓ} : {A : Type ℓ} (n : ℕ) (l : List A) → length (take n l) ≤ length l
length-take_le zero l = omega arith
length-take_le (suc n) [] = omega arith
length-take_le (suc n) (x ∷ l) = omega (arith, length-take_le n l)

pub overwrite-all {ℓ} :
    {A : Type ℓ} (l src : List A) → length src ≡ length l → overwrite l 0 src ≡ src
overwrite-all l src e =
    sym (take-all (length l) (overwrite l 0 src) (omega (arith, length-overwrite l 0 src)))
    ∙ take-overwrite l 0 src (length l) (omega arith) (omega arith)

padded-length : (c : List ℕ) → length c ≡ component_size → padded c ≡ c
unfolding padded
padded-length [] h = absurd (omega arith)
padded-length (x ∷ c) h =
    let some_bytes : (suc (length c) == 0) ≡ false = ground arith in
    rw some_bytes (take-all component_size (x ∷ c) (omega arith))

length-pads :
    (k : ℕ) (cs : List (List ℕ))
    → Allocated k cs
    → length (flat (map padded cs)) ≡ component_size * length cs
unfolding flat padded
length-pads k [] h = refl
length-pads zero (c ∷ cs) h =
    length-append (padded c) (flat (map padded cs))
    ∙ omega (arith, ap length (ap padded h.0), length-blank, length-pads zero cs h.1)
length-pads (suc k) (c ∷ cs) h =
    length-append (padded c) (flat (map padded cs))
    ∙ omega (arith, ap length (padded-length c h.0), h.0, length-pads k cs h.1)

-- Behind the bytes of the allocated components stands padding only.
pads-flat :
    (k : ℕ) (cs : List (List ℕ))
    → Allocated k cs
    → (rest : List ℕ) × (flat (map padded cs) ≡ flat cs ++ rest)
unfolding flat
pads-flat k [] h = ([], refl)
pads-flat zero (c ∷ cs) h = (
  flat (map padded (c ∷ cs)),
  ap (λ (t : List ℕ). t ++ flat (map padded (c ∷ cs))) (sym (flat-Allocated (c ∷ cs) h)),
)
pads-flat (suc k) (c ∷ cs) h =
    let (rest, e) = pads-flat k cs h.1 in
    (
      rest,
      ap (λ (t : List ℕ). t ++ flat (map padded cs)) (padded-length c h.0)
          ∙ ap (λ (t : List ℕ). c ++ t) e
          ∙ sym (append_assoc c (flat cs) rest),
    )

four_pads :
    (cs : List (List ℕ))
    → length cs ≡ 4
    → padded (get_or cs 0 [])
        ++ (padded (get_or cs 1 []) ++ (padded (get_or cs 2 []) ++ padded (get_or cs 3 [])))
      ≡ flat (map padded cs)
unfolding flat
four_pads (a ∷ b ∷ c ∷ d ∷ []) h =
    ap (λ (t : List ℕ). padded a ++ (padded b ++ (padded c ++ t))) (sym (append-nil (padded d)))
four_pads [] h = absurd (omega arith)
four_pads (a ∷ []) h = absurd (omega arith)
four_pads (a ∷ b ∷ []) h = absurd (omega arith)
four_pads (a ∷ b ∷ c ∷ []) h = absurd (omega arith)
four_pads (a ∷ b ∷ c ∷ d ∷ e ∷ cs) h = absurd (omega arith)

block_bytes_lem :
    (k : ℕ) (b : IovecBlock) → Holds k b → block_bytes b ≡ flat (map padded b.components)
unfolding block_bytes
block_bytes_lem k b h = four_pads b.components h.four

pub length-block_bytes : (k : ℕ) (b : IovecBlock) → Holds k b → length (block_bytes b) ≡ block_size
length-block_bytes k b h =
    omega (arith, ap length (block_bytes_lem k b h), length-pads k b.components h.allocated, h.four)

-- The bytes that a block holds are the first ones that are written for it.
pub take-block_bytes : (k : ℕ) (b : IovecBlock) → Holds k b → take b.pos (block_bytes b) ≡ view b
take-block_bytes k b h =
    let (rest, e) = pads-flat k b.components h.allocated in
    ap (take b.pos) (block_bytes_lem k b h ∙ e)
    ∙ take-append b.pos (flat b.components) rest
        (omega (arith, length-flat k b.components h.allocated, h.within))

-- A volume whose file is mapped whole, up to 4 GiB, where the offset of a block does not wrap.
pub record Mapped (v : Volume) : Type 0 where
  pub sized : length v.memory ≡ v.file_size * block_size
  pub small : v.file_size ≤ 2 ^ 20
  pub within : v.write_pos ≤ v.file_size

pub block_offset_lem : (ix : ℕ) → ix < 2 ^ 20 → block_offset ix ≡ ix * block_size
unfolding block_offset
block_offset_lem ix h = omega arith

-- A write of a block, or of a part of one, leaves the other blocks.
pub block_at-overwrite_ne :
    (v : Volume) (at ix n : ℕ) (src memory : List ℕ)
    → at < 2 ^ 20
    → ix < 2 ^ 20
    → at ≢ ix
    → length src ≤ block_size
    → memory ≡ overwrite v.memory (block_offset at) src
    → block_at ix (record v { memory = memory; write_pos = n }) ≡ block_at ix v
unfolding block_at
block_at-overwrite_ne v at ix n src memory small small' ne fits e =
    ap (slice (block_offset ix) block_size) e
    ∙ slice-overwrite_ne v.memory (block_offset at) src (block_offset ix) block_size
        (apart at ix (length src) small small' ne fits)
  where
    apart :
        (at ix n : ℕ)
        → at < 2 ^ 20
        → ix < 2 ^ 20
        → at ≢ ix
        → n ≤ block_size
        → (block_offset ix + block_size ≤ block_offset at) ⊎ (block_offset at + n ≤ block_offset ix)
    apart at ix n small small' ne fits = elim (dec_lt ix at) [
      | yes lt ↦ inl (omega (arith, block_offset_lem at small, block_offset_lem ix small'))
      | no le ↦ inr (omega (arith, block_offset_lem at small, block_offset_lem ix small'))
    ]

pub block_at-overwrite_self :
    (v : Volume) (n : ℕ) (src memory : List ℕ)
    → Mapped v
    → v.write_pos < v.file_size
    → length src ≡ block_size
    → memory ≡ overwrite v.memory (block_offset v.write_pos) src
    → block_at v.write_pos (record v { memory = memory; write_pos = n }) ≡ src
unfolding block_at
block_at-overwrite_self v n src memory h lt full e =
    ap (slice (block_offset v.write_pos) block_size) e
    ∙ slice-overwrite_self v.memory (block_offset v.write_pos) src block_size (omega arith)
        (omega (arith, block_offset_lem v.write_pos (omega (arith, h.small)), h.sized, h.small))

pub length-block_at :
    (ix : ℕ) (v : Volume) → Mapped v → ix < v.file_size → length (block_at ix v) ≡ block_size
unfolding block_at
length-block_at ix v h lt =
    length-slice (block_offset ix) block_size v.memory
      (omega (arith, block_offset_lem ix (omega (arith, h.small)), h.sized, h.small))
