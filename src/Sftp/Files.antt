-- ===== src/Sftp/Files.antt =====
-- INIT, OPEN, CLOSE, READ and WRITE (sftp/src/ops/protocol.rs).
use wftpd_linux.Base.{
  ℕ, min, Bool, false, ◌||◌, Option, none, some, List, [], ◌∷◌, Text, text, if◌then◌else◌, length,
}
use wftpd_linux.Base.Dict.{lookup, remove}
use wftpd_linux.Os.{
  OpenOptions, open_file, seek, read_file, write_all, flush, close_file, invalidate,
}
use wftpd_linux.Users.{Permissions}
use wftpd_linux.Sftp.Session.{
  eof, no_such_file, permission_denied, failure, OpenEntry, file, dir, FileHandle, max_read_len, M,
  ◌>>=◌, ◌>>◌, pure, fail, request, get, put, io, permissions, resolve_path, audit, next_handle_id,
  insert_handle, quota_ok, throttle_bytes,
}

-- The flags of an OPEN request that the handler looks at.
pub record OpenFlags : Type 0 where
  pub read : Bool
  pub write : Bool
  pub append : Bool
  pub create : Bool
  pub truncate : Bool

-- The version and the extensions that INIT announces.
abbrev pub init : ℕ × List Text
init = (
  3,
  text "md5sum@openssh.com"
      ∷ text "sha256sum@openssh.com"
      ∷ text "space-available@openssh.com"
      ∷ [],
)

abbrev pub wants_write : OpenFlags → Bool
wants_write f = f.write || f.append || f.truncate || f.create

abbrev pub may_write : OpenFlags → Permissions → Bool
may_write f p = if f.append then p.can_append || p.can_write else p.can_write

abbrev pub open_options : OpenFlags → OpenOptions
open_options f = record {
  read = f.read;
  write = f.write || f.append || f.create;
  append = f.append;
  create = f.create;
  truncate = f.truncate;
}

abbrev pub refuse_open : Text → M (Unit {0})
refuse_open filename = do audit (text "OPEN") filename 0 false (text "权限拒绝"); fail permission_denied

-- The checks in front of the path.
abbrev pub authorise_write : Text → OpenFlags → Permissions → M (Unit {0})
authorise_write filename f perms =
    if may_write f perms
    then (do room ← quota_ok 0; if room then pure tt else fail failure)
    else refuse_open filename

unfoldable pub check_open : Text → OpenFlags → Permissions → M (Unit {0})
check_open filename f perms =
    if wants_write f
    then authorise_write filename f perms
    else if perms.can_read
    then pure tt
    else refuse_open filename

abbrev pub authorise_open : Text → OpenFlags → M (Unit {0})
authorise_open filename f = do perms ← permissions; check_open filename f perms

unfoldable pub open_request : Text → OpenFlags → M Text
open_request filename f = do
  authorise_open filename f
  path ← resolve_path filename
  fd ← io (← request (open_file path (open_options f)))
  handle ← next_handle_id
  insert_handle handle (file (record { file = fd; writable = wants_write f }))
  pure handle

abbrev pub close_entry : Option OpenEntry → M (Unit {0})
close_entry none = fail no_such_file
close_entry (some (dir rd)) = pure tt
close_entry (some (file f)) = do
  request (close_file f.file)
  s ← get
  if f.writable then request (invalidate s.home_dir) else pure tt

unfoldable pub close : Text → M (Unit {0})
close handle = do
  s ← get
  put (record s { handles = remove handle s.handles })
  close_entry (lookup handle s.handles)

-- `let Some(OpenEntry::File(f)) = … else { return Err(NoSuchFile) }`
abbrev pub file_of : Option OpenEntry → M FileHandle
file_of (some (file f)) = pure f
file_of (some (dir rd)) = fail no_such_file
file_of none = fail no_such_file

abbrev pub file_handle : Text → M FileHandle
file_handle handle = do s ← get; file_of (lookup handle s.handles)

abbrev pub deliver : List ℕ → M (List ℕ)
deliver [] = fail eof
deliver (b ∷ bytes) = do throttle_bytes (length (b ∷ bytes)); pure (b ∷ bytes)

unfoldable pub read : Text → ℕ → ℕ → M (List ℕ)
read handle offset len = do
  f ← file_handle handle
  io (← request (seek f.file offset))
  bytes ← io (← request (read_file f.file (min len max_read_len)))
  deliver bytes

abbrev pub refuse_write : ℕ → M (Unit {0})
refuse_write len = do audit (text "WRITE") [] len false (text "配额超限"); fail failure

abbrev pub write_bytes : Text → ℕ → List ℕ → M (Unit {0})
write_bytes handle offset bytes = do
  f ← file_handle handle
  io (← request (seek f.file offset))
  io (← request (write_all f.file bytes))
  io (← request (flush f.file))
  throttle_bytes (length bytes)

unfoldable pub write : Text → ℕ → List ℕ → M (Unit {0})
write handle offset bytes = do
  room ← quota_ok (length bytes)
  if room then write_bytes handle offset bytes else refuse_write (length bytes)
