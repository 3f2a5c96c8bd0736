-- ===== src/Ftp/Confinement.antt =====
-- What the storage operations may ask of the file system.
use wftpd_linux.Ftp.Policy.{
  Allowed, Request, perform, done, metadata_call, cwd_call, del_call, mkd_call, rmd_call, list_call,
  get_call, put_call, rename_call,
}
use wftpd_linux.Base.{
  ℕ, ◌*◌, ◌++◌, ◌≡◌, refl, Bool, true, false, Option, none, some, List, [], ◌∷◌, Text, ltb, leb,
  ◌==◌, length, ◌+◌, ◌%◌, ◌^◌,
}
use wftpd_linux.Outcome.{ok, err}
use wftpd_linux.Paths.{PathBuf, parent}
use wftpd_linux.Paths.Within.{Within, walk-Within, home-Within, parent-Within}
use wftpd_linux.Os.{
  IoResult, DirEntry, Metadata, Always, log, calculate_usage, invalidate, symlink_metadata,
  metadata, read_dir, entry_metadata, open_file, seek, file_metadata, create_dir_all, write_all,
  flush, remove_file, create_dir, rename, remove_dir_all,
}
use wftpd_linux.Sftp.Render.{render}
use wftpd_linux.Ftp.Monad.{
  StorageResult, permanent_file_not_available, permanent_directory_not_available,
  insufficient_storage_space,
}
use wftpd_linux.Ftp.Rules.{
  Any, Sat, Sat-bind, Sat-pure, Sat-fail, Sat-request, Sat-io, Sat-some_or, Sat-require, Sat-if,
  requests_of,
}
use wftpd_linux.Ftp.Storage.{
  WftpdUser, audit, audit_entry, saturating_mul, resolve, resolve_from, check_quota, check_usage,
  current_root, invalidate_root, metadata_of, list, read_entries, io_audited, seek_to, get, copy,
  create_parent, put, del, mkd, rename_path, rmd, cwd, upload_options, read_only, len_or_zero,
}

-- A path that is resolved lies below the root, whatever the client wrote.
pub resolve_from-Within :
    (root path : PathBuf) {p : PathBuf} → resolve_from root path ≡ some p → Within root p
unfolding resolve_from
resolve_from-Within root path e = walk-Within root root _ (home-Within root) e

module _ (root : PathBuf) (u : WftpdUser) where
  abbrev Good : {A : Type 0} → (A → Type 0) → StorageResult A → Type 0
  Good F m = Sat (Allowed root u.permissions) F m

  resolve-Good : (path : PathBuf) → Good (Within root) (resolve (some root) path)
  unfolding resolve
  resolve-Good path = Sat-some_or _ _ (λ p e. resolve_from-Within root path e)

  audit-Good :
      (op : Text) (p : PathBuf) (size : ℕ) (success : Bool) (message : Text)
      → Good (λ _. Unit {0}) (audit u op p size success message)
  unfolding audit
  audit-Good op p size success message =
      Sat-request (log (audit_entry u op p size success message)) tt

  done-Good :
      {A : Type 0} (m : StorageResult A) → Good (λ _. Unit {0}) m → Good (λ _. Unit {0}) (done m)
  done-Good m h = Sat-bind h (λ _ _. Sat-pure tt)

  invalidate-Good : Good (λ _. Unit {0}) (invalidate_root (some root))
  unfolding invalidate_root current_root
  invalidate-Good =
      Sat-bind
        (Sat-some_or {F = λ _. Unit {0}} permanent_file_not_available (some root) (λ _ _. tt))
        (λ p _. Sat-request (invalidate (render p)) tt)

  del-Good : (path : PathBuf) → Good (λ _. Unit {0}) (del (some root) u path)
  unfolding del
  del-Good path = Sat-bind (Sat-require u.permissions.can_delete) (λ _ may.
      Sat-bind (resolve-Good path) (λ p below.
        Sat-bind (Sat-request (remove_file p) (may, below)) (λ r _.
          Sat-bind (Sat-io r) (λ _ _. Sat-bind invalidate-Good (λ _ _. audit-Good _ p 0 true _)))))

  mkd-Good : (path : PathBuf) → Good (λ _. Unit {0}) (mkd (some root) u path)
  unfolding mkd
  mkd-Good path = Sat-bind (Sat-require u.permissions.can_mkdir) (λ _ may.
      Sat-bind (resolve-Good path) (λ p below.
        Sat-bind (Sat-request (create_dir p) (may, below))
          (λ r _. Sat-bind (Sat-io r) (λ _ _. audit-Good _ p 0 true _))))

  rmd-Good : (path : PathBuf) → Good (λ _. Unit {0}) (rmd (some root) u path)
  unfolding rmd
  rmd-Good path = Sat-bind (Sat-require u.permissions.can_rmdir) (λ _ may.
      Sat-bind (resolve-Good path) (λ p below.
        Sat-bind (Sat-request (remove_dir_all p) (may, below))
          (λ r _. Sat-bind (Sat-io r) (λ _ _. audit-Good _ p 0 true _))))

  rename-Good : (from to : PathBuf) → Good (λ _. Unit {0}) (rename_path (some root) u from to)
  unfolding rename_path
  rename-Good from to = Sat-bind (Sat-require u.permissions.can_rename) (λ _ may.
      Sat-bind (resolve-Good from) (λ p below. Sat-bind (resolve-Good to) (λ q below_too.
        Sat-bind (Sat-request (rename p q) (may, below, below_too))
          (λ r _. Sat-bind (Sat-io r) (λ _ _. audit-Good _ p 0 true _)))))

  cwd-Good : (path : PathBuf) → Good (λ _. Unit {0}) (cwd (some root) path)
  unfolding cwd
  cwd-Good path = Sat-bind (resolve-Good path) (λ p below.
      Sat-bind (Sat-request (metadata p) below) (λ (r : IoResult Metadata) _.
        Sat-bind (Sat-io r) (λ (md : Metadata) _.
          Sat-if md.is_dir (Sat-pure tt) (Sat-fail permanent_directory_not_available))))

  metadata-Good : (path : PathBuf) → Good (λ _. Unit {0}) (metadata_of (some root) path)
  unfolding metadata_of
  metadata-Good path =
      Sat-bind (resolve-Good path)
        (λ p below. Sat-bind (Sat-request (symlink_metadata p) below) (λ r _. Sat-io r))

  entries-Good :
      (reads : List (IoResult DirEntry))
      → u.permissions.can_list ≡ true
      → Good (λ _. Unit {0}) (read_entries reads)
  unfolding read_entries
  entries-Good [] may = Sat-pure []
  entries-Good (read ∷ reads) may = Sat-bind (Sat-io read) (λ entry _.
      Sat-bind (Sat-request (entry_metadata entry) may) (λ got _.
        Sat-bind (Sat-io got) (λ md _.
          Sat-bind (entries-Good reads may) (λ rest _. Sat-pure ((entry.path, md) ∷ rest)))))

  list-Good :
      (reads : List (IoResult DirEntry)) (path : PathBuf)
      → Good (λ _. Unit {0}) (list (some root) u reads path)
  unfolding list
  list-Good reads path = Sat-bind (Sat-require u.permissions.can_list) (λ _ may.
      Sat-bind (resolve-Good path) (λ p below.
        Sat-bind (Sat-request (read_dir p) (may, below))
          (λ opened _. Sat-bind (Sat-io opened) (λ rd _. entries-Good reads may))))

  audited-Good :
      {A : Type 0} (op : Text) (p : PathBuf) (message : Text) (r : IoResult A)
      → Good (λ _. Unit {0}) (io_audited u op p message r)
  unfolding io_audited
  audited-Good op p message (ok a) = Sat-pure a
  audited-Good op p message (err e) =
      Sat-bind (audit-Good op p 0 false (message ++ e.message)) (λ _ _. Sat-io (err e))

  seek-Good : (fd start_pos : ℕ) → Good (λ _. Unit {0}) (seek_to fd start_pos)
  unfolding seek_to
  seek-Good fd start_pos =
      Sat-if (ltb 0 start_pos) (Sat-bind (Sat-request (seek fd start_pos) tt) (λ r _. Sat-io r))
        (Sat-pure tt)

  get-Good :
      (path : PathBuf) (start_pos : ℕ) → Good (λ _. Unit {0}) (get (some root) u path start_pos)
  unfolding get
  get-Good path start_pos = Sat-bind (Sat-require u.permissions.can_read) (λ _ may.
      Sat-bind (resolve-Good path) (λ p below.
        Sat-bind (Sat-request (open_file p read_only) (below, (λ _. may), (λ e. absurd cc), refl))
          (λ opened _. Sat-bind (audited-Good _ p _ opened) (λ fd _.
            Sat-bind (seek-Good fd start_pos) (λ _ _.
              Sat-bind (Sat-request (file_metadata fd) tt) (λ md _.
                Sat-bind (audit-Good _ p (len_or_zero md) true _) (λ _ _. Sat-pure fd)))))))

  copy-Good :
      (fd written : ℕ) (input : List (IoResult (List ℕ)))
      → u.permissions.can_write ≡ true
      → Good (λ _. Unit {0}) (copy fd written input)
  unfolding copy
  copy-Good fd written [] may = Sat-pure written
  copy-Good fd written (ok [] ∷ input) may = Sat-pure written
  copy-Good fd written (ok (b ∷ bs) ∷ input) may =
      Sat-bind (Sat-request (write_all fd (b ∷ bs)) may) (λ r _.
        Sat-bind (Sat-io r) (λ _ _. copy-Good fd ((written + length (b ∷ bs)) % 2 ^ 64) input may))
  copy-Good fd written (err e ∷ input) may = Sat-io (err e)

  parent-Good :
      (p : PathBuf) (d : Option PathBuf)
      → u.permissions.can_write ≡ true
      → Within root p
      → parent p ≡ d
      → Good (λ _. Unit {0}) (create_parent d)
  unfolding create_parent
  parent-Good p none may below e = Sat-pure tt
  parent-Good p (some d) may below e =
      Sat-bind (Sat-request (create_dir_all d) (may, parent-Within root p d below e))
        (λ r _. Sat-io r)

  quota-Good : (p : PathBuf) (quota_mb : ℕ) → Good (λ _. Unit {0}) (check_quota p quota_mb)
  unfolding check_quota check_usage
  quota-Good p quota_mb = Sat-if (quota_mb == 0) (Sat-pure tt) (
      Sat-bind (Sat-request (calculate_usage (render p)) tt) (λ usage _.
        Sat-if (leb (saturating_mul quota_mb (1024 * 1024)) usage)
          (Sat-fail insufficient_storage_space) (Sat-pure tt)))

  put-Good :
      (input : List (IoResult (List ℕ))) (path : PathBuf) (start_pos : ℕ)
      → Good (λ _. Unit {0}) (put (some root) u input path start_pos)
  unfolding put
  put-Good input path start_pos = Sat-bind (Sat-require u.permissions.can_write) (λ _ may.
      Sat-bind (resolve-Good path) (λ p below. Sat-bind (quota-Good p u.quota_mb) (λ _ _.
        Sat-bind (parent-Good p (parent p) may below refl) (λ _ _.
          Sat-bind
            (Sat-request (open_file p (upload_options start_pos))
              (below, (λ e. absurd cc), (λ _. may), refl))
            (λ opened _. Sat-bind (audited-Good _ p _ opened) (λ fd _.
              Sat-bind (seek-Good fd start_pos) (λ _ _.
                Sat-bind (copy-Good fd 0 input may) (λ written _.
                  Sat-bind (Sat-request (flush fd) may) (λ flushed _.
                    Sat-bind (Sat-io flushed) (λ _ _. Sat-bind invalidate-Good (λ _ _.
                      Sat-bind (audit-Good _ p written true _) (λ _ _. Sat-pure written))))))))))))

  perform-Good : (r : Request) → Good (λ _. Unit {0}) (perform (some root) u r)
  unfolding perform
  perform-Good (metadata_call path) = done-Good _ (metadata-Good path)
  perform-Good (cwd_call path) = cwd-Good path
  perform-Good (del_call path) = del-Good path
  perform-Good (mkd_call path) = mkd-Good path
  perform-Good (rmd_call path) = rmd-Good path
  perform-Good (list_call reads path) = done-Good _ (list-Good reads path)
  perform-Good (get_call path start_pos) = done-Good _ (get-Good path start_pos)
  perform-Good (put_call input path start_pos) = done-Good _ (put-Good input path start_pos)
  perform-Good (rename_call from to) = rename-Good from to

-- Whatever the FTP client asks, and whatever the world answers: the paths that a session names to
-- the file system are the session root followed by names, but for the parent of the root, which an
-- upload to the root itself makes, and the entries of a listed directory, which are those that the
-- world gave. To look at one path, for its metadata or for the working directory, needs no
-- permission; each other request on a path, and each entry that is looked at, needs the permission
-- of the user for it, and so does writing.
pub perform-Allowed :
    (root : PathBuf) (u : WftpdUser) (r : Request)
    → Always Any (Allowed root u.permissions) (λ _. Unit {0}) (perform (some root) u r)
perform-Allowed root u r = requests_of (perform-Good root u r)
