-- ===== src/Storage/FileStorage/Expandable/Promise.antt =====
-- What an append to a storage that grows promises.
use fast_stdb.Common.{ℕ, ◌≡◌, true, some, List}
use fast_stdb.Storage.Status.{ok}
use fast_stdb.Storage.Volume.{Volume}
use fast_stdb.Storage.Volume.Append.{loaded}
use fast_stdb.Storage.FileStorage.{FileStorage}
use fast_stdb.Storage.FileStorage.Expandable.{exists, read_iovec_block}
use fast_stdb.Storage.FileStorage.Expandable.Keep.{Growing}

-- What an append to `s` of a block with these bytes leads to.
pub record Extended (s : FileStorage) (bytes : List ℕ) (addr : ℕ) (s' : FileStorage) : Type 0 where
  pub growing : Growing s'
  pub found : exists addr s' ≡ true
  pub content : read_iovec_block addr s' ≡ some (ok, some (loaded bytes))
  pub others :
      (a : ℕ)
      → exists a s ≡ true
      → (exists a s' ≡ true) × (read_iovec_block a s' ≡ read_iovec_block a s)
