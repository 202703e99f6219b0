-- ===== src/Storage/FileStorage/Expandable/Grow.antt =====
-- A new volume behind the last one.
use fast_stdb.Common.{
  ℕ, zero, suc, ◌+◌, ◌-◌, ◌*◌, ◌/◌, ◌%◌, ◌^◌, ◌<◌, ◌≡◌, refl, ap, arith, true, some, List, [], ◌∷◌,
  ◌++◌, length, get_elem?, length-replicate, le→ltb, ne→==, le→leb, ◌⊎◌, inl, inr,
}
use fast_stdb.Storage.Status.{ok}
use fast_stdb.Storage.Iovec.{block_size}
use fast_stdb.Storage.Volume.{Volume, create_new, open_existing}
use fast_stdb.Storage.Volume.Blocks.{Mapped}
use fast_stdb.Storage.MetaVolume.{MetaVolume, add_volume, new_ref, add_call, sizeof_ref}
use fast_stdb.Storage.FileStorage.{FileStorage}
use fast_stdb.Storage.FileStorage.Expandable.{
  new_path, create_new_volume, push, push_new, adjust_current_volume,
}

module _ {ℓ} {A : Type ℓ} where
  pub get_elem?-append_left :
      (l : List A) (x : A) (i : ℕ) (a : A)
      → get_elem? l i ≡ some a
      → get_elem? (l ++ x ∷ []) i ≡ some a
  get_elem?-append_left [] x i a e = cc
  get_elem?-append_left (y ∷ l) x zero a e = e
  get_elem?-append_left (y ∷ l) x (suc i) a e = get_elem?-append_left l x i a e

  pub get_elem?-append_last : (l : List A) (x : A) → get_elem? (l ++ x ∷ []) (length l) ≡ some x
  get_elem?-append_last [] x = refl
  get_elem?-append_last (y ∷ l) x = get_elem?-append_last l x

  -- An element of the longer list is one of the list, or the last one.
  pub get_elem?-append_cases :
      (l : List A) (x : A) (i : ℕ) (a : A)
      → get_elem? (l ++ x ∷ []) i ≡ some a
      → (get_elem? l i ≡ some a) ⊎ ((i ≡ length l) × (x ≡ a))
  get_elem?-append_cases [] x zero a e = inr (refl, cc)
  get_elem?-append_cases [] x (suc i) a e = cc
  get_elem?-append_cases (y ∷ l) x zero a e = inl e
  get_elem?-append_cases (y ∷ l) x (suc i) a e = elim (get_elem?-append_cases l x i a e) [
    | inl there ↦ inl there
    | inr (last, same) ↦ inr (ap suc last, same)
  ]

-- A new volume of the size of another one.
unfoldable pub fresh_volume : List ℕ → Volume → Volume
fresh_volume path prev = record {
  memory = create_new prev.file_size;
  file_size = prev.file_size;
  write_pos = 0;
  path = path;
}

unfoldable pub grown : List ℕ → Volume → FileStorage → FileStorage
grown path prev s =
    let n = length s.volumes in
    let vol = fresh_volume path prev in
    record s {
      meta = record {
        slots = s.meta.slots ++ new_ref n prev.file_size path ∷ [];
        calls = s.meta.calls ++ add_call (new_ref n prev.file_size path) ∷ [];
      };
      volumes = s.volumes ++ vol ∷ [];
      dirty = s.dirty ++ 0 ∷ [];
      current_volume = n;
      total_size = s.total_size + prev.file_size;
      volume_names = s.volume_names ++ path ∷ [];
    }

pub fresh_volume-Mapped :
    (path : List ℕ) (prev : Volume) → Mapped prev → Mapped (fresh_volume path prev)
unfolding fresh_volume create_new
fresh_volume-Mapped path prev h = record {
  sized = length-replicate {A = ℕ} (prev.file_size * block_size) 0;
  small = h.small;
  within = omega arith;
}

open_fresh :
    (path : List ℕ) (prev : Volume)
    → Mapped prev
    → open_existing (λ p. some (create_new prev.file_size)) path 0 ≡ some (fresh_volume path prev)
unfolding open_existing fresh_volume create_new
open_fresh path prev h =
    ap
      (λ (n : ℕ).
        some (record {
          memory = create_new prev.file_size;
          file_size = n;
          write_pos = 0;
          path = path;
        }))
      (size_lem prev.file_size (omega (arith, h.small)))
  where
    size_lem : (n : ℕ) → n < 2 ^ 32 → length (create_new n) / block_size % 2 ^ 32 ≡ n
    size_lem n h = omega (arith, length-replicate {A = ℕ} (n * block_size) 0)

add_volume-short :
    (id capacity : ℕ) (path : List ℕ) (m : MetaVolume)
    → length path < block_size - sizeof_ref
    → add_volume id capacity path m
      ≡ some (
        ok,
        record {
          slots = m.slots ++ new_ref id capacity path ∷ [];
          calls = m.calls ++ add_call (new_ref id capacity path) ∷ [];
        },
      )
unfolding add_volume
add_volume-short id capacity path m lt =
    rw
      (
        le→ltb (block_size - sizeof_ref) (length path) (omega arith),
        ne→== (length path) (block_size - sizeof_ref) (λ e. omega (arith, lt, e)),
      )
      refl

module _ (db_name : List ℕ) (s : FileStorage) (prev : Volume)
    (last : s.current_volume + 1 ≡ length s.volumes) (small : length s.volumes < 2 ^ 32)
    (at : get_elem? s.volumes s.current_volume ≡ some prev) (h : Mapped prev)
    (fits : length (new_path db_name prev.path (length s.volumes)) < block_size - sizeof_ref) where
  next_state : FileStorage
  next_state = record s { current_volume = length s.volumes }

  path : List ℕ
  path = new_path db_name prev.path (length s.volumes)

  create_lem :
      create_new_volume true db_name (length s.volumes) next_state ≡ some (fresh_volume path prev)
  unfolding create_new_volume next_state path
  create_lem =
      let before : (length s.volumes + (2 ^ 32 - 1)) % 2 ^ 32 ≡ s.current_volume =
        omega (arith, last, small) in
      rw (before, at, create_new_volume) (open_fresh path prev h)

  push_lem : push (fresh_volume path prev) next_state ≡ some (grown path prev s)
  unfolding push grown fresh_volume next_state path
  push_lem = rw (add_volume-short (length s.volumes) prev.file_size path s.meta fits, push) refl

  pub adjust-grown :
      adjust_current_volume true db_name s
      ≡ some (grown (new_path db_name prev.path (length s.volumes)) prev s)
  unfolding adjust_current_volume push_new next_state path
  adjust-grown =
      let next : (s.current_volume + 1) % 2 ^ 32 ≡ length s.volumes = omega (arith, last, small) in
      rw (next, le→leb (length s.volumes) (length s.volumes) (omega arith), create_lem) push_lem
