-- ===== src/Ftp/Storage.antt =====
-- `WftpdFilesystem`: the operations that the FTP library calls (ftp/src/storage.rs). Paths of the
-- client are given by their components. The data of an upload are the results of the reads of its
-- stream, up to the first that is empty or fails.
use wftpd_linux.Base.{
  ℕ, ◌+◌, ◌*◌, ◌%◌, ◌^◌, ◌-◌, min, Bool, true, false, Option, none, some, List, [], ◌∷◌, ◌++◌, Text,
  text, ltb, leb, ◌==◌, length, if◌then◌else◌,
}
use wftpd_linux.Outcome.{ok, err}
use wftpd_linux.Users.{Permissions, full}
use wftpd_linux.Paths.{PathBuf, root_dir, strip_or_self, walk, parent}
use wftpd_linux.Os.{
  FileLogInfo, IoResult, Metadata, OpenOptions, DirEntry, log, calculate_usage, invalidate,
  symlink_metadata, metadata, read_dir, entry_metadata, open_file, seek, file_metadata,
  create_dir_all, write_all, flush, remove_file, create_dir, rename, remove_dir_all, canonicalize,
}
use wftpd_linux.Ftp.Monad.{
  StorageResult, permanent_file_not_available, permanent_directory_not_available,
  file_name_not_allowed, insufficient_storage_space, ◌>>=◌, ◌>>◌, pure, fail, request, io, some_or,
  require,
}
use wftpd_linux.Sftp.Render.{render}

pub record WftpdUser : Type 0 where
  pub username : Text
  pub home : PathBuf
  pub permissions : Permissions
  pub quota_mb : ℕ
  pub anonymous : Bool

abbrev pub or_zero : Option ℕ → ℕ
or_zero none = 0
or_zero (some n) = n

unfoldable pub new_user : Text → PathBuf → Permissions → WftpdUser
new_user username home permissions = record {
  username = username;
  home = home;
  permissions = permissions;
  quota_mb = or_zero permissions.quota_mb;
  anonymous = false;
}

unfoldable pub anonymous_user : PathBuf → WftpdUser
anonymous_user home = record {
  username = text "anonymous";
  home = home;
  permissions = full;
  quota_mb = 0;
  anonymous = true;
}

-- The session root, none before `enter`.
abbrev pub Root : Type 0
Root = Option PathBuf

abbrev pub audit_entry : WftpdUser → Text → PathBuf → ℕ → Bool → Text → FileLogInfo
audit_entry u op path size success message = record {
  username = u.username;
  client_ip = text "-";
  operation = op;
  file_path = render path;
  file_size = size;
  protocol = text "FTP";
  success = success;
  message = message;
}

unfoldable pub audit : WftpdUser → Text → PathBuf → ℕ → Bool → Text → StorageResult (Unit {0})
audit u op path size success message = request (log (audit_entry u op path size success message))

unfoldable pub resolve_from : PathBuf → PathBuf → Option PathBuf
resolve_from root path = walk root root (strip_or_self (root_dir ∷ []) path)

unfoldable pub resolve : Root → PathBuf → StorageResult PathBuf
resolve none path = fail permanent_file_not_available
resolve (some root) path = some_or file_name_not_allowed (resolve_from root path)

abbrev pub saturating_mul : ℕ → ℕ → ℕ
saturating_mul a b = min (a * b) (2 ^ 64 - 1)

unfoldable pub check_usage : ℕ → ℕ → StorageResult (Unit {0})
check_usage usage quota_mb =
    if leb (saturating_mul quota_mb (1024 * 1024)) usage
    then fail insufficient_storage_space
    else pure tt

unfoldable pub check_quota : PathBuf → ℕ → StorageResult (Unit {0})
check_quota home quota_mb =
    if quota_mb == 0
    then pure tt
    else (request (calculate_usage (render home)) >>= λ usage. check_usage usage quota_mb)

unfoldable pub current_root : Root → StorageResult PathBuf
current_root root = some_or permanent_file_not_available root

-- `self.quota_cache.invalidate(&self.current_root()?.to_string_lossy())`
unfoldable pub invalidate_root : Root → StorageResult (Unit {0})
invalidate_root root = do p ← current_root root; request (invalidate (render p))

-- `enter`: the root of the session after it; an error leaves the root as it was.
unfoldable pub enter : WftpdUser → StorageResult Root
enter u = do
  made ← request (create_dir_all u.home)
  io made
  canon ← request (canonicalize u.home)
  p ← io canon
  pure (some p)

unfoldable pub metadata_of : Root → PathBuf → StorageResult Metadata
metadata_of root path = do p ← resolve root path; md ← request (symlink_metadata p); io md

-- The loop over the directory, of what its reads give up to the end.
unfoldable pub read_entries : List (IoResult DirEntry) → StorageResult (List (PathBuf × Metadata))
read_entries [] = pure []
read_entries (read ∷ reads) = do
  entry ← io read
  got ← request (entry_metadata entry)
  md ← io got
  rest ← read_entries reads
  pure ((entry.path, md) ∷ rest)

unfoldable pub list :
    Root
    → WftpdUser
    → List (IoResult DirEntry)
    → PathBuf
    → StorageResult (List (PathBuf × Metadata))
list root u reads path = do
  require u.permissions.can_list
  p ← resolve root path
  opened ← request (read_dir p)
  rd ← io opened
  read_entries reads

-- An audit entry for an error, which is then returned.
unfoldable pub io_audited :
    {A : Type 0} → WftpdUser → Text → PathBuf → Text → IoResult A → StorageResult A
io_audited u op p message (ok a) = pure a
io_audited u op p message (err e) = do audit u op p 0 false (message ++ e.message); io (err e)

unfoldable pub seek_to : ℕ → ℕ → StorageResult (Unit {0})
seek_to fd start_pos = if ltb 0 start_pos then request (seek fd start_pos) >>= io else pure tt

abbrev pub len_or_zero : IoResult Metadata → ℕ
len_or_zero (ok md) = md.len
len_or_zero (err e) = 0

abbrev pub read_only : OpenOptions
read_only = record { read = true; write = false; append = false; create = false; truncate = false }

-- `get`: the descriptor that the library reads from.
unfoldable pub get : Root → WftpdUser → PathBuf → ℕ → StorageResult ℕ
get root u path start_pos = do
  require u.permissions.can_read
  p ← resolve root path
  opened ← request (open_file p read_only)
  fd ← io_audited u (text "DOWNLOAD") p (text "下载失败: ") opened
  seek_to fd start_pos
  md ← request (file_metadata fd)
  audit u (text "DOWNLOAD") p (len_or_zero md) true (text "文件下载成功")
  pure fd

abbrev pub upload_options : ℕ → OpenOptions
upload_options start_pos = record {
  read = false;
  write = true;
  append = false;
  create = true;
  truncate = start_pos == 0;
}

-- The loop of the upload: the bytes written, of `written` so far. An empty read ends it.
unfoldable pub copy : ℕ → ℕ → List (IoResult (List ℕ)) → StorageResult ℕ
copy fd written [] = pure written
copy fd written (ok [] ∷ reads) = pure written
copy fd written (ok (b ∷ bs) ∷ reads) = do
  put ← request (write_all fd (b ∷ bs))
  io put
  copy fd ((written + length (b ∷ bs)) % 2 ^ 64) reads
copy fd written (err e ∷ reads) = io (err e)

unfoldable pub create_parent : Option PathBuf → StorageResult (Unit {0})
create_parent none = pure tt
create_parent (some p) = request (create_dir_all p) >>= io

unfoldable pub put : Root → WftpdUser → List (IoResult (List ℕ)) → PathBuf → ℕ → StorageResult ℕ
put root u input path start_pos = do
  require u.permissions.can_write
  p ← resolve root path
  check_quota p u.quota_mb
  create_parent (parent p)
  opened ← request (open_file p (upload_options start_pos))
  fd ← io_audited u (text "UPLOAD") p (text "上传失败: ") opened
  seek_to fd start_pos
  written ← copy fd 0 input
  flushed ← request (flush fd)
  io flushed
  invalidate_root root
  audit u (text "UPLOAD") p written true (text "文件上传成功")
  pure written

unfoldable pub del : Root → WftpdUser → PathBuf → StorageResult (Unit {0})
del root u path = do
  require u.permissions.can_delete
  p ← resolve root path
  removed ← request (remove_file p)
  io removed
  invalidate_root root
  audit u (text "DELETE") p 0 true (text "文件删除成功")

unfoldable pub mkd : Root → WftpdUser → PathBuf → StorageResult (Unit {0})
mkd root u path = do
  require u.permissions.can_mkdir
  p ← resolve root path
  made ← request (create_dir p)
  io made
  audit u (text "MKDIR") p 0 true (text "目录创建成功")

unfoldable pub rename_path : Root → WftpdUser → PathBuf → PathBuf → StorageResult (Unit {0})
rename_path root u from to = do
  require u.permissions.can_rename
  old ← resolve root from
  new ← resolve root to
  renamed ← request (rename old new)
  io renamed
  audit u (text "RENAME") old 0 true (text "重命名为 " ++ render new)

unfoldable pub rmd : Root → WftpdUser → PathBuf → StorageResult (Unit {0})
rmd root u path = do
  require u.permissions.can_rmdir
  p ← resolve root path
  removed ← request (remove_dir_all p)
  io removed
  audit u (text "RMDIR") p 0 true (text "目录删除成功")

unfoldable pub cwd : Root → PathBuf → StorageResult (Unit {0})
cwd root path = do
  p ← resolve root path
  got ← request (metadata p)
  md ← io got
  if md.is_dir then pure tt else fail permanent_directory_not_available
