-- ===== src/Sftp/Stats.antt =====
-- LSTAT, FSTAT, SETSTAT, STAT, OPENDIR and READDIR (sftp/src/ops/protocol.rs).
use Prim.Native.Nat.{bit_and}
use wftpd_linux.Base.{
  ℕ, zero, suc, Bool, true, Option, none, some, List, [], ◌∷◌, ◌++◌, Text, text, if◌then◌else◌,
}
use wftpd_linux.Base.Dict.{lookup}
use wftpd_linux.Outcome.{ok, err}
use wftpd_linux.Paths.{PathBuf}
use wftpd_linux.Os.{
  IoResult, Metadata, OpenOptions, file_metadata, set_permissions, set_len, open_file, close_file,
  read_dir, next_entry, entry_metadata,
}
use wftpd_linux.Sftp.Session.{
  eof, no_such_file, permission_denied, OpenEntry, file, dir, M, ◌>>=◌, ◌>>◌, pure, fail, request,
  get, io, permissions, resolve_path, audit, next_handle_id, insert_handle, FileAttributes,
  attrs_from, stat_attrs, symlink_attrs,
}
use wftpd_linux.Sftp.Files.{file_handle}
use wftpd_linux.Sftp.Render.{render}

-- `if !allowed { return Err(PermissionDenied) }`
abbrev pub allow : Bool → M (Unit {0})
allow allowed = if allowed then pure tt else fail permission_denied

unfoldable pub lstat : Text → M FileAttributes
lstat path = do
  perms ← permissions
  allow perms.can_list
  resolved ← resolve_path path
  symlink_attrs resolved

unfoldable pub fstat : Text → M FileAttributes
fstat handle = do
  f ← file_handle handle
  md ← io (← request (file_metadata f.file))
  pure (attrs_from md)

unfoldable pub stat : Text → M FileAttributes
stat path = do
  perms ← permissions
  allow perms.can_list
  resolved ← resolve_path path
  stat_attrs resolved

abbrev pub set_mode : PathBuf → Option ℕ → M (Unit {0})
set_mode resolved none = pure tt
set_mode resolved (some mode) = do io (← request (set_permissions resolved (bit_and mode 0o7777)))

abbrev pub writing : OpenOptions
writing = record {
  read = Bool.false;
  write = true;
  append = Bool.false;
  create = Bool.false;
  truncate = Bool.false;
}

abbrev pub set_size : PathBuf → Option ℕ → M (Unit {0})
set_size resolved none = pure tt
set_size resolved (some size) = do
  fd ← io (← request (open_file resolved writing))
  done ← request (set_len fd size)
  request (close_file fd)
  io done

-- A requested `mtime` is dropped.
unfoldable pub setstat : Text → FileAttributes → M (Unit {0})
setstat path attrs = do
  perms ← permissions
  allow perms.can_write
  resolved ← resolve_path path
  set_mode resolved attrs.permissions
  set_size resolved attrs.size
  audit (text "SETSTAT") (render resolved) 0 true (text "设置属性成功")

unfoldable pub opendir : Text → M Text
opendir path = do
  perms ← permissions
  allow perms.can_list
  resolved ← resolve_path path
  rd ← io (← request (read_dir resolved))
  handle ← next_handle_id
  insert_handle handle (dir rd)
  pure handle

-- A name of a reply; no attributes stand for `FileAttributes::dummy()`.
pub record NamedFile : Type 0 where
  pub filename : Text
  pub attrs : Option FileAttributes

abbrev pub dir_of : Option OpenEntry → M ℕ
dir_of (some (dir rd)) = pure rd
dir_of (some (file f)) = fail no_such_file
dir_of none = fail no_such_file

abbrev pub attrs_or_dummy : IoResult Metadata → Option FileAttributes
attrs_or_dummy (ok md) = some (attrs_from md)
attrs_or_dummy (err e) = none

-- The loop has `room` entries to go before the batch is full.
unfoldable pub read_batch : ℕ → ℕ → List NamedFile → M (List NamedFile)
read_batch zero rd files = pure files
read_batch (suc room) rd files = do
  found ← io (← request (next_entry rd))
  elim found [
    | none ↦ pure files
    | some entry ↦ (do
      md ← request (entry_metadata entry)
      read_batch room rd
          (files ++ record { filename = entry.file_name; attrs = attrs_or_dummy md } ∷ []))
  ]

abbrev pub batch : ℕ
batch = 100

abbrev pub nonempty : List NamedFile → M (List NamedFile)
nonempty [] = fail eof
nonempty (f ∷ files) = pure (f ∷ files)

unfoldable pub readdir : Text → M (List NamedFile)
readdir handle = do
  s ← get
  rd ← dir_of (lookup handle s.handles)
  files ← read_batch batch rd []
  nonempty files
