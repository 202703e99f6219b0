-- ===== src/Storage/FileStorage/Fixed/Contract.antt =====
-- What an append to a storage of a fixed size promises.
use fast_stdb.Common.{ℕ, ◌≡◌, ◌⊎◌, true, false, some, List}
use fast_stdb.Storage.Status.{ok}
use fast_stdb.Storage.Volume.{Volume}
use fast_stdb.Storage.Volume.Append.{loaded}
use fast_stdb.Storage.FileStorage.{FileStorage}
use fast_stdb.Storage.FileStorage.Fixed.{exists, read_iovec_block}
use fast_stdb.Storage.FileStorage.Fixed.Aligned.{Sound}

-- A block that was there is read as before, or its address does not exist any more.
abbrev pub Kept : FileStorage → FileStorage → ℕ → Type 0
Kept s s' a =
    ((exists a s' ≡ some true) × (read_iovec_block a s' ≡ read_iovec_block a s))
    ⊎ (exists a s' ≡ some false)

-- What an append to `s` of a block with these bytes leads to.
pub record Appended (s : FileStorage) (bytes : List ℕ) (addr : ℕ) (s' : FileStorage) : Type 0 where
  pub sound : Sound s'
  pub found : exists addr s' ≡ some true
  pub content : read_iovec_block addr s' ≡ some (ok, some (loaded bytes))
  pub others : (a : ℕ) → exists a s ≡ some true → Kept s s' a
