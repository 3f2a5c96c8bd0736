-- ===== src/Server/Quota.antt =====
-- The quota cache (common/src/server/quota.rs). What a path leads to is a finite tree: symbolic
-- links are followed, as `is_dir` and `is_file` do.
pub mod Usage
use wftpd_linux.Base.{ℕ, ◌+◌, ◌%◌, ◌^◌, Option, none, some, [], Text}
use wftpd_linux.Base.Dict.{Dict, insert, remove}

mutual
  -- A directory that can be read or not, a file whose length can be read or not, and anything else.
  pub data Node : Type 0 where
    folder : Entries → Node
    closed : Node
    file : ℕ → Node
    unknown : Node
    neither : Node

  -- The entries of a directory; an entry that cannot be read is passed over.
  pub data Entries : Type 0 where
    nil : Entries
    unreadable : Entries → Entries
    entry : Node → Entries → Entries

abbrev pub add_u64 : ℕ → ℕ → ℕ
add_u64 a b = (a + b) % 2 ^ 64

unfoldable mutual
  pub dir_size : Node → ℕ
  dir_size (folder entries) = sum_entries 0 entries
  dir_size closed = 0
  dir_size (file len) = len
  dir_size unknown = 0
  dir_size neither = 0

  -- The loop over the entries, with the size so far.
  pub sum_entries : ℕ → Entries → ℕ
  sum_entries size nil = size
  sum_entries size (unreadable rest) = sum_entries size rest
  sum_entries size (entry (folder entries) rest) =
      sum_entries (add_u64 size (dir_size (folder entries))) rest
  sum_entries size (entry closed rest) = sum_entries (add_u64 size (dir_size closed)) rest
  sum_entries size (entry (file len) rest) = sum_entries (add_u64 size len) rest
  sum_entries size (entry unknown rest) = sum_entries size rest
  sum_entries size (entry neither rest) = sum_entries size rest

pub record QuotaCache : Type 0 where
  pub cache : Dict ℕ

unfoldable pub new : QuotaCache
new = record { cache = [] }

-- `unwrap_or(0)` of the task that walks the tree; `none` is one that panicked.
abbrev pub measured : Option Node → ℕ
measured none = 0
measured (some node) = dir_size node

unfoldable pub calculate_usage_async : QuotaCache → Text → Option Node → ℕ × QuotaCache
calculate_usage_async c home_dir node =
    let usage = measured node in (usage, record { cache = insert home_dir usage c.cache })

unfoldable pub invalidate : QuotaCache → Text → QuotaCache
invalidate c home_dir = record { cache = remove home_dir c.cache }
