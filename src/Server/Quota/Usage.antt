-- ===== src/Server/Quota/Usage.antt =====
-- The usage is the sum of the lengths of all files below a path.
use wftpd_linux.Base.{
  ℕ, ◌+◌, ◌^◌, ◌<◌, ◌≡◌, refl, ap, ◌∙◌, none, some, List, [], ◌∷◌, ◌++◌, Text, arith,
}
use wftpd_linux.Base.Dict.{insert, lookup, lookup-insert_self, lookup-remove_self}
use wftpd_linux.Server.Quota.{
  Node, Entries, folder, closed, file, unknown, neither, nil, unreadable, entry, add_u64, dir_size,
  sum_entries, QuotaCache, calculate_usage_async, invalidate,
}

-- The lengths of the files of a tree, in the order of the walk.
unfoldable mutual
  pub lengths : Node → List ℕ
  lengths (folder entries) = lengths_in entries
  lengths closed = []
  lengths (file len) = len ∷ []
  lengths unknown = []
  lengths neither = []

  pub lengths_in : Entries → List ℕ
  lengths_in nil = []
  lengths_in (unreadable rest) = lengths_in rest
  lengths_in (entry node rest) = lengths node ++ lengths_in rest

abbrev pub total : List ℕ → ℕ
total [] = 0
total (n ∷ ns) = n + total ns

total-append : (ms ns : List ℕ) → total (ms ++ ns) ≡ total ms + total ns
total-append [] ns = omega arith
total-append (m ∷ ms) ns = omega (arith, total-append ms ns)

add-small : (a b : ℕ) → a + b < 2 ^ 64 → add_u64 a b ≡ a + b
add-small a b h = omega arith

mutual
  unfolding dir_size lengths

  dir_size-total :
      (node : Node) → total (lengths node) < 2 ^ 64 → dir_size node ≡ total (lengths node)
  dir_size-total (folder entries) h = sum_entries-total 0 entries (omega arith) ∙ omega arith
  dir_size-total closed h = refl
  dir_size-total (file len) h = omega arith
  dir_size-total unknown h = refl
  dir_size-total neither h = refl

  sum_entries-total :
      (size : ℕ) (entries : Entries)
      → size + total (lengths_in entries) < 2 ^ 64
      → sum_entries size entries ≡ size + total (lengths_in entries)
  sum_entries-total size nil h = omega arith
  sum_entries-total size (unreadable rest) h = sum_entries-total size rest h
  sum_entries-total size (entry (folder entries) rest) h =
      let sum = total-append (lengths_in entries) (lengths_in rest) in
      let inside = dir_size-total (folder entries) (omega arith) in
      let step : add_u64 size (dir_size (folder entries)) ≡ size + total (lengths_in entries) =
        ap (add_u64 size) inside ∙ add-small size (total (lengths_in entries)) (omega arith) in
      sum_entries-total (add_u64 size (dir_size (folder entries))) rest (omega arith) ∙ omega arith
  sum_entries-total size (entry closed rest) h =
      let step : add_u64 size (dir_size closed) ≡ size = omega arith in
      sum_entries-total (add_u64 size (dir_size closed)) rest (omega arith) ∙ omega arith
  sum_entries-total size (entry (file len) rest) h =
      let step = add-small size len (omega arith) in
      sum_entries-total (add_u64 size len) rest (omega arith) ∙ omega arith
  sum_entries-total size (entry unknown rest) h = sum_entries-total size rest h
  sum_entries-total size (entry neither rest) h = sum_entries-total size rest h

-- Whatever the cache holds, the usage that is computed is the sum of the lengths of all files below
-- the path that can be read, if it fits into 64 bits; it is kept under the path, and forgotten when
-- the path is invalidated.
pub calculate_usage_async-total :
    (c : QuotaCache) (home_dir : Text) (node : Node)
    → total (lengths node) < 2 ^ 64
    → ((calculate_usage_async c home_dir (some node)).0 ≡ total (lengths node))
      × (lookup home_dir (calculate_usage_async c home_dir (some node)).1.cache
          ≡ some (total (lengths node)))
      × (lookup home_dir
            (invalidate (calculate_usage_async c home_dir (some node)).1 home_dir).cache
          ≡ none)
unfolding calculate_usage_async invalidate
calculate_usage_async-total c home_dir node fits =
    let size = dir_size-total node fits in
    (
      size,
      lookup-insert_self home_dir (dir_size node) c.cache ∙ ap some size,
      lookup-remove_self home_dir (insert home_dir (dir_size node) c.cache),
    )
