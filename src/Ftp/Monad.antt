-- ===== src/Ftp/Monad.antt =====
-- Storage operations: programs that ask the world, and end with a value or an error kind
-- (`StorageResult` of ftp/src/storage.rs).
use wftpd_linux.Base.{Bool, true, false, Option, none, some}
use wftpd_linux.Outcome.{Result, ok, err}
use wftpd_linux.Os.{
  Effect, Reply, Prog, ret, call, bind, IoResult, IoErrorKind, not_found, already_exists, other,
}

pub data ErrorKind : Type 0 where
  permanent_file_not_available permanent_directory_not_available : ErrorKind
  permission_denied file_name_not_allowed insufficient_storage_space local_error : ErrorKind

abbrev pub StorageResult : Type 0 → Type 0
StorageResult A = Prog (Result ErrorKind A)

abbrev pub next : {A B : Type 0} → (A → StorageResult B) → Result ErrorKind A → StorageResult B
next f (ok a) = f a
next f (err e) = ret (err e)

infixl 5 ◌>>=◌
unfoldable pub ◌>>=◌ : {A B : Type 0} → StorageResult A → (A → StorageResult B) → StorageResult B
m >>= f = bind m (next f)

infixl 5 ◌>>◌
abbrev pub ◌>>◌ : {B : Type 0} → StorageResult (Unit {0}) → StorageResult B → StorageResult B
m >> k = m >>= λ _. k

unfoldable pub pure : {A : Type 0} → A → StorageResult A
pure a = ret (ok a)

unfoldable pub fail : {A : Type 0} → ErrorKind → StorageResult A
fail e = ret (err e)

unfoldable pub request : (e : Effect) → StorageResult (Reply e)
request e = call e (λ r. ret (ok r))

-- `io_err`
abbrev pub io_err : IoErrorKind → ErrorKind
io_err not_found = permanent_file_not_available
io_err already_exists = permanent_file_not_available
io_err IoErrorKind.permission_denied = permission_denied
io_err other = local_error

-- `.map_err(|e| io_err(&e))?`
unfoldable pub io : {A : Type 0} → IoResult A → StorageResult A
io (ok a) = pure a
io (err e) = fail (io_err e.kind)

-- `ok_or(e)?`
unfoldable pub some_or : {A : Type 0} → ErrorKind → Option A → StorageResult A
some_or e (some a) = pure a
some_or e none = fail e

unfoldable pub require : Bool → StorageResult (Unit {0})
require true = pure tt
require false = fail permission_denied
