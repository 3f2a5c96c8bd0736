-- ===== src/Sftp/Handler.antt =====
-- The protocol: a request, and what the session's handler does with it
-- (`impl Handler for SftpFileHandler`, sftp/src/ops/protocol.rs, without `extended`).
use wftpd_linux.Base.{ℕ, List, Text}
use wftpd_linux.Sftp.Session.{M, ◌>>=◌, ◌>>◌, pure, FileAttributes}
use wftpd_linux.Sftp.Files.{OpenFlags, open_request, close, read, write, init}
use wftpd_linux.Sftp.Stats.{NamedFile, lstat, fstat, stat, setstat, opendir, readdir}
use wftpd_linux.Sftp.Entries.{remove, mkdir, rmdir, realpath, rename_entry, readlink, symlink_entry}

pub data Request : Type 0 where
  init_session : Request
  opens : Text → OpenFlags → Request
  closes : Text → Request
  reads : Text → ℕ → ℕ → Request
  writes : Text → ℕ → List ℕ → Request
  lstats fstats stats : Text → Request
  setstats : Text → FileAttributes → Request
  opens_dir reads_dir : Text → Request
  removes makes_dir removes_dir resolves : Text → Request
  renames : Text → Text → Request
  reads_link : Text → Request
  symlinks : Text → Text → Request

-- What a request that succeeds is answered with.
pub data Response : Type 0 where
  version : ℕ → List Text → Response
  status : Response
  handle : Text → Response
  bytes : List ℕ → Response
  attributes : FileAttributes → Response
  names : List NamedFile → Response

abbrev done : M (Unit {0}) → M Response
done m = m >> pure status

abbrev reply : {A : Type 0} → (A → Response) → M A → M Response
reply f m = m >>= λ a. pure (f a)

abbrev one : NamedFile → Response
one f = names (List.◌∷◌ f List.[])

unfoldable pub answer : Request → M Response
answer init_session = pure (version init.0 init.1)
answer (opens filename flags) = reply handle (open_request filename flags)
answer (closes h) = done (close h)
answer (reads h offset len) = reply bytes (read h offset len)
answer (writes h offset content) = done (write h offset content)
answer (lstats path) = reply attributes (lstat path)
answer (fstats h) = reply attributes (fstat h)
answer (stats path) = reply attributes (stat path)
answer (setstats path attrs) = done (setstat path attrs)
answer (opens_dir path) = reply handle (opendir path)
answer (reads_dir h) = reply names (readdir h)
answer (removes path) = done (remove path)
answer (makes_dir path) = done (mkdir path)
answer (removes_dir path) = done (rmdir path)
answer (resolves path) = reply one (realpath path)
answer (renames old to) = done (rename_entry old to)
answer (reads_link path) = reply one (readlink path)
answer (symlinks linkpath targetpath) = done (symlink_entry linkpath targetpath)
