-- ===== src/Ftp/Policy.antt =====
-- Which requests to the world a storage operation may cause.
use wftpd_linux.Base.{ℕ, ◌≡◌, ◌⊎◌, true, false, some, List}
use wftpd_linux.Users.{Permissions}
use wftpd_linux.Paths.{PathBuf, parent}
use wftpd_linux.Paths.Within.{Within}
use wftpd_linux.Os.{
  Effect, IoResult, DirEntry, log, calculate_usage, invalidate, throttle, get_user,
  symlink_metadata, metadata, read_dir, next_entry, entry_metadata, statvfs, open_file, seek,
  read_file, set_len, file_metadata, close_file, create_dir_all, write_all, flush, remove_file,
  create_dir, rename, remove_dir_all, canonicalize, exists, read_link, set_permissions, symlink,
}
use wftpd_linux.Ftp.Monad.{StorageResult, ◌>>=◌, pure}
use wftpd_linux.Ftp.Storage.{
  Root, WftpdUser, metadata_of, list, get, put, del, mkd, rename_path, rmd, cwd,
}

-- The requests that a user with these permissions may cause in a session with this root. Files are
-- named by paths below the root only; an upload to the root itself makes the parent of the root.
-- Looking at a path needs no permission. The entries of a directory are those that the world gave.
abbrev pub Allowed : PathBuf → Permissions → Effect → Type 0
Allowed root perms (get_user _) = Unit {0}
Allowed root perms (calculate_usage _) = Unit {0}
Allowed root perms (invalidate _) = Unit {0}
Allowed root perms (log _) = Unit {0}
Allowed root perms (throttle _) = Unit {0}
Allowed root perms (metadata p) = Within root p
Allowed root perms (symlink_metadata p) = Within root p
Allowed root perms (canonicalize _) = ⊥
Allowed root perms (read_dir p) = (perms.can_list ≡ true) × Within root p
Allowed root perms (exists _) = ⊥
Allowed root perms (remove_file p) = (perms.can_delete ≡ true) × Within root p
Allowed root perms (create_dir p) = (perms.can_mkdir ≡ true) × Within root p
Allowed root perms (create_dir_all d) =
    (perms.can_write ≡ true) × (Within root d ⊎ (parent root ≡ some d))
Allowed root perms (remove_dir_all p) = (perms.can_rmdir ≡ true) × Within root p
Allowed root perms (read_link _) = ⊥
Allowed root perms (open_file p options) =
    Within root p
    × (options.read ≡ true → perms.can_read ≡ true)
    × (options.write ≡ true → perms.can_write ≡ true)
    × (options.append ≡ false)
Allowed root perms (set_permissions _ _) = ⊥
Allowed root perms (rename p q) = (perms.can_rename ≡ true) × Within root p × Within root q
Allowed root perms (symlink _ _) = ⊥
Allowed root perms (seek _ _) = Unit {0}
Allowed root perms (read_file _ _) = ⊥
Allowed root perms (set_len _ _) = ⊥
Allowed root perms (write_all _ _) = perms.can_write ≡ true
Allowed root perms (flush _) = perms.can_write ≡ true
Allowed root perms (file_metadata _) = Unit {0}
Allowed root perms (close_file _) = Unit {0}
Allowed root perms (next_entry _) = Unit {0}
Allowed root perms (entry_metadata _) = perms.can_list ≡ true
Allowed root perms (statvfs _) = ⊥

-- A call of the FTP library.
pub data Request : Type 0 where
  metadata_call cwd_call del_call mkd_call rmd_call : PathBuf → Request
  list_call : List (IoResult DirEntry) → PathBuf → Request
  get_call : PathBuf → ℕ → Request
  put_call : List (IoResult (List ℕ)) → PathBuf → ℕ → Request
  rename_call : PathBuf → PathBuf → Request

abbrev pub done : {A : Type 0} → StorageResult A → StorageResult (Unit {0})
done m = m >>= λ _. pure tt

unfoldable pub perform : Root → WftpdUser → Request → StorageResult (Unit {0})
perform root u (metadata_call path) = done (metadata_of root path)
perform root u (cwd_call path) = cwd root path
perform root u (del_call path) = del root u path
perform root u (mkd_call path) = mkd root u path
perform root u (rmd_call path) = rmd root u path
perform root u (list_call reads path) = done (list root u reads path)
perform root u (get_call path start_pos) = done (get root u path start_pos)
perform root u (put_call input path start_pos) = done (put root u input path start_pos)
perform root u (rename_call from to) = rename_path root u from to
