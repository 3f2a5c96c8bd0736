-- ===== src/Os.antt =====
-- What a handler asks of the world: the file system and the objects that it shares with other
-- tasks (the user library, the quota cache, the audit log, the rate limiter). A handler is a tree
-- of such requests, so that a theorem about it holds whatever the world answers, and whatever
-- other tasks do between two requests. Files are named by descriptors.
pub mod Rules
pub mod Run
use wftpd_linux.Base.{ℕ, Bool, Option, List, Text}
use wftpd_linux.Outcome.{Result, ok, err}
use wftpd_linux.Paths.{PathBuf}
use wftpd_linux.Users.{User}

-- The kinds of `std::io::ErrorKind` that the code tells apart.
pub data IoErrorKind : Type 0 where
  not_found permission_denied already_exists other : IoErrorKind

-- An error with its text, `e.to_string()`.
pub record IoError : Type 0 where
  pub kind : IoErrorKind
  pub message : Text

abbrev pub IoResult : Type 0 → Type 0
IoResult A = Result IoError A

-- An `i64` time: `before n` is n + 1 seconds before the epoch.
pub data Time : Type 0 where
  after before : ℕ → Time

pub record Metadata : Type 0 where
  pub len : ℕ
  pub mode : ℕ
  pub uid : ℕ
  pub gid : ℕ
  pub atime : Time
  pub mtime : Time
  pub is_dir : Bool
  pub is_file : Bool
  pub is_symlink : Bool

pub record OpenOptions : Type 0 where
  pub read : Bool
  pub write : Bool
  pub append : Bool
  pub create : Bool
  pub truncate : Bool

pub record DirEntry : Type 0 where
  pub file_name : Text
  pub path : PathBuf

-- `FileLogInfo` (common/src/server/file_logger.rs)
pub record FileLogInfo : Type 0 where
  pub username : Text
  pub client_ip : Text
  pub operation : Text
  pub file_path : Text
  pub file_size : ℕ
  pub protocol : Text
  pub success : Bool
  pub message : Text

-- `statvfs` of the library nix: the fields that the code reads.
pub record StatVfs : Type 0 where
  pub block_size : ℕ
  pub fragment_size : ℕ
  pub blocks : ℕ
  pub blocks_free : ℕ
  pub blocks_available : ℕ
  pub files : ℕ
  pub files_free : ℕ
  pub files_available : ℕ
  pub name_max : ℕ

pub data Effect : Type 0 where
  get_user calculate_usage invalidate : Text → Effect
  log : FileLogInfo → Effect
  throttle : ℕ → Effect
  metadata symlink_metadata canonicalize read_dir exists remove_file create_dir create_dir_all :
      PathBuf → Effect
  remove_dir_all read_link : PathBuf → Effect
  open_file : PathBuf → OpenOptions → Effect
  set_permissions : PathBuf → ℕ → Effect
  rename : PathBuf → PathBuf → Effect
  symlink : Text → PathBuf → Effect
  seek read_file set_len : ℕ → ℕ → Effect
  write_all : ℕ → List ℕ → Effect
  flush file_metadata close_file next_entry : ℕ → Effect
  entry_metadata : DirEntry → Effect
  statvfs : PathBuf → Effect

-- `log` is `try_lock` and `FileLogger::log`: the handler does not see whether the lock was free.
abbrev pub Reply : Effect → Type 0
Reply (get_user _) = Option User
Reply (calculate_usage _) = ℕ
Reply (invalidate _) = Unit {0}
Reply (log _) = Unit {0}
Reply (throttle _) = Unit {0}
Reply (metadata _) = IoResult Metadata
Reply (symlink_metadata _) = IoResult Metadata
Reply (canonicalize _) = IoResult PathBuf
Reply (read_dir _) = IoResult ℕ
Reply (exists _) = Bool
Reply (remove_file _) = IoResult (Unit {0})
Reply (create_dir _) = IoResult (Unit {0})
Reply (create_dir_all _) = IoResult (Unit {0})
Reply (remove_dir_all _) = IoResult (Unit {0})
Reply (read_link _) = IoResult Text
Reply (open_file _ _) = IoResult ℕ
Reply (set_permissions _ _) = IoResult (Unit {0})
Reply (rename _ _) = IoResult (Unit {0})
Reply (symlink _ _) = IoResult (Unit {0})
Reply (seek _ _) = IoResult (Unit {0})
Reply (read_file _ _) = IoResult (List ℕ)
Reply (set_len _ _) = IoResult (Unit {0})
Reply (write_all _ _) = IoResult (Unit {0})
Reply (flush _) = IoResult (Unit {0})
Reply (file_metadata _) = IoResult Metadata
Reply (close_file _) = Unit {0}
Reply (next_entry _) = IoResult (Option DirEntry)
Reply (entry_metadata _) = IoResult Metadata
Reply (statvfs _) = IoResult StatVfs

pub data Prog (A : Type 0) : Type 0 where
  ret : A → Prog A
  call : (e : Effect) → (Reply e → Prog A) → Prog A

abbrev pub bind : {A B : Type 0} → Prog A → (A → Prog B) → Prog B
bind (ret a) f = f a
bind (call e k) f = call e (λ r. bind (k r) f)

-- What holds of a program: every request that it makes satisfies `P`, and every result `Q`, if the
-- replies are among those that `Admits` describes.
module _ (Admits : (e : Effect) → Reply e → Type 0) (P : Effect → Type 0) where
  abbrev pub Always : {A : Type 0} → (A → Type 0) → Prog A → Type 0
  Always Q (ret a) = Q a
  Always Q (call e k) = P e × ((r : Reply e) → Admits e r → Always Q (k r))
