-- ===== src/Sftp/Session.antt =====
-- The state of an SFTP session, its monad, and the internal tools of `SftpFileHandler`
-- (sftp/src/ops/mod.rs).
use wftpd_linux.Base.{
  ℕ, zero, suc, ◌+◌, ◌-◌, ◌*◌, ◌^◌, ◌%◌, ◌/◌, min, Bool, true, Option, none, some, [], ◌∷◌, Text,
  text, leb, ltb, if◌then◌else◌, ◌==◌, length,
}
use wftpd_linux.Base.Dict.{Dict, insert, contains_key}
use wftpd_linux.Outcome.{Result, ok, err}
use wftpd_linux.Users.{User, Permissions, no_permissions}
use wftpd_linux.Paths.{PathBuf}
use wftpd_linux.Sftp.Resolve.{resolve}
use wftpd_linux.Os.{
  Effect, Reply, Prog, ret, call, bind, IoErrorKind, not_found, already_exists, other, IoResult,
  Metadata, Time, after, before, get_user, calculate_usage, log, throttle, metadata,
  symlink_metadata,
}

pub data StatusCode : Type 0 where
  eof no_such_file permission_denied failure bad_message op_unsupported : StatusCode

pub record FileHandle : Type 0 where
  pub file : ℕ
  pub writable : Bool

pub data OpenEntry : Type 0 where
  file : FileHandle → OpenEntry
  dir : ℕ → OpenEntry

-- `speed_limiter` keeps the limit in KiB/s.
pub record Session : Type 0 where
  pub username : Text
  pub home_dir : Text
  pub client_ip : Text
  pub handles : Dict OpenEntry
  pub next_handle : ℕ
  pub speed_limiter : Option ℕ

abbrev pub max_read_len : ℕ
max_read_len = 256 * 1024

abbrev pub u64_mod : ℕ
u64_mod = 2 ^ 64

abbrev pub saturating_add : ℕ → ℕ → ℕ
saturating_add a b = min (a + b) (2 ^ 64 - 1)

abbrev pub saturating_mul : ℕ → ℕ → ℕ
saturating_mul a b = min (a * b) (2 ^ 64 - 1)

abbrev pub M : Type 0 → Type 0
M A = Session → Prog (Result StatusCode A × Session)

abbrev pub next :
    {A B : Type 0}
    → (A → M B)
    → Result StatusCode A × Session
    → Prog (Result StatusCode B × Session)
next f (ok a, s) = f a s
next f (err c, s) = ret (err c, s)

infixl 5 ◌>>=◌
unfoldable pub ◌>>=◌ : {A B : Type 0} → M A → (A → M B) → M B
◌>>=◌ m f s = bind (m s) (next f)

infixl 5 ◌>>◌
abbrev pub ◌>>◌ : {B : Type 0} → M (Unit {0}) → M B → M B
m >> k = m >>= λ _. k

unfoldable pub pure : {A : Type 0} → A → M A
pure a s = ret (ok a, s)

unfoldable pub fail : {A : Type 0} → StatusCode → M A
fail c s = ret (err c, s)

unfoldable pub request : (e : Effect) → M (Reply e)
request e s = call e (λ r. ret (ok r, s))

unfoldable pub get : M Session
get s = ret (ok s, s)

unfoldable pub put : Session → M (Unit {0})
put s' s = ret (ok tt, s')

abbrev pub io_status : IoErrorKind → StatusCode
io_status not_found = no_such_file
io_status IoErrorKind.permission_denied = permission_denied
io_status already_exists = failure
io_status other = failure

-- `.map_err(|e| Self::io_status(&e))?`
unfoldable pub io : {A : Type 0} → IoResult A → M A
io (ok a) = pure a
io (err e) = fail (io_status e.kind)

-- `.map_err(|_| c)?` and `ok_or(c)?`
unfoldable pub io_or : {A : Type 0} → StatusCode → IoResult A → M A
io_or c (ok a) = pure a
io_or c (err e) = fail c

unfoldable pub some_or : {A : Type 0} → StatusCode → Option A → M A
some_or c (some a) = pure a
some_or c none = fail c

-- `SftpFileHandler::new`
unfoldable pub new : Text → Text → Text → Prog Session
new username home_dir client_ip = call (get_user username) (λ user. ret (record {
  username = username;
  home_dir = home_dir;
  client_ip = client_ip;
  handles = [];
  next_handle = 1;
  speed_limiter = elim user [
    | none ↦ none
    | some u ↦ elim u.permissions.speed_limit_kbps [
      | none ↦ none
      | some kbps ↦ if ltb 0 kbps then some kbps else none
    ]
  ];
}))

abbrev pub permissions_of : Option User → Permissions
permissions_of none = no_permissions
permissions_of (some u) = u.permissions

unfoldable pub permissions : M Permissions
permissions = do s ← get; user ← request (get_user s.username); pure (permissions_of user)

unfoldable pub resolve_path : Text → M PathBuf
resolve_path path = do s ← get; some_or no_such_file (resolve s.home_dir path)

unfoldable pub audit : Text → Text → ℕ → Bool → Text → M (Unit {0})
audit operation file_path file_size success message = do
  s ← get
  request (
      log (record {
        username = s.username;
        client_ip = s.client_ip;
        operation = operation;
        file_path = file_path;
        file_size = file_size;
        protocol = text "SFTP";
        success = success;
        message = message;
      }))

abbrev pub hex_digit : ℕ → ℕ
hex_digit d = if ltb d 10 then b'0' + d else 87 + d

-- `{:x}`: the digits in front of those that are there already.
unfoldable pub hex_digits : ℕ → ℕ → Text → Text
hex_digits zero n digits = digits
hex_digits (suc fuel) n digits =
    let rest = hex_digits fuel (n / 16) (hex_digit (n % 16) ∷ digits) in
    if ltb n 16 then hex_digit n ∷ digits else rest

-- `format!("h{id:x}")`
unfoldable pub handle_name : ℕ → Text
unfolding hex_digits
handle_name id = b'h' ∷ hex_digits (suc id) id []

-- The loop takes a new number while the name is in use; `none` stands for a loop that goes on.
unfoldable pub fresh_handle : ℕ → ℕ → Dict OpenEntry → Option (Text × ℕ)
fresh_handle zero id handles = none
fresh_handle (suc fuel) id handles =
    let rest = fresh_handle fuel ((id + 1) % u64_mod) handles in
    if contains_key (handle_name id) handles
    then rest
    else some (handle_name id, (id + 1) % u64_mod)

-- There is a free name among one more than there are handles.
unfoldable pub next_handle_id : M Text
next_handle_id = do
  s ← get
  (name, following) ←
      some_or failure (fresh_handle (suc (length s.handles)) s.next_handle s.handles)
  put (record s { next_handle = following })
  pure name

unfoldable pub insert_handle : Text → OpenEntry → M (Unit {0})
insert_handle name entry = do s ← get; put (record s { handles = insert name entry s.handles })

-- `.filter(|&limit| limit > 0)`
abbrev pub positive : Option ℕ → Option ℕ
positive none = none
positive (some n) = if ltb 0 n then some n else none

abbrev pub within_quota : ℕ → ℕ → ℕ → Bool
within_quota limit usage additional =
    leb (saturating_add usage additional) (saturating_mul limit (1024 * 1024))

unfoldable pub check_quota : Option ℕ → ℕ → M Bool
check_quota none additional = pure true
check_quota (some limit) additional = do
  s ← get
  usage ← request (calculate_usage s.home_dir)
  pure (within_quota limit usage additional)

unfoldable pub quota_of : ℕ → M Bool
quota_of additional = do perms ← permissions; check_quota (positive perms.quota_mb) additional

unfoldable pub quota_ok : ℕ → M Bool
quota_ok additional = if additional == 0 then pure true else quota_of additional

unfoldable pub throttle_by : Option ℕ → ℕ → M (Unit {0})
throttle_by none bytes = pure tt
throttle_by (some kbps) bytes = request (throttle bytes)

unfoldable pub throttle_bytes : ℕ → M (Unit {0})
throttle_bytes bytes = do s ← get; throttle_by s.speed_limiter bytes

-- `FileAttributes`, whose user and group names are never set.
pub record FileAttributes : Type 0 where
  pub size : Option ℕ
  pub uid : Option ℕ
  pub gid : Option ℕ
  pub permissions : Option ℕ
  pub atime : Option ℕ
  pub mtime : Option ℕ

-- `clamp(0, u32::MAX)` of an `i64`.
abbrev clamp_u32 : Time → ℕ
clamp_u32 (after n) = min n (2 ^ 32 - 1)
clamp_u32 (before n) = 0

abbrev pub attrs_from : Metadata → FileAttributes
attrs_from md = record {
  size = some md.len;
  uid = some md.uid;
  gid = some md.gid;
  permissions = some md.mode;
  atime = some (clamp_u32 md.atime);
  mtime = some (clamp_u32 md.mtime);
}

unfoldable pub stat_attrs : PathBuf → M FileAttributes
stat_attrs path = do md ← io_or no_such_file (← request (metadata path)); pure (attrs_from md)

unfoldable pub symlink_attrs : PathBuf → M FileAttributes
symlink_attrs path = do
  md ← io_or no_such_file (← request (symlink_metadata path))
  pure (attrs_from md)
