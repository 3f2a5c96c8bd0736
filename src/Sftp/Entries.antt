-- ===== src/Sftp/Entries.antt =====
-- REMOVE, MKDIR, RMDIR, REALPATH, RENAME, READLINK and SYMLINK (sftp/src/ops/protocol.rs).
use wftpd_linux.Base.{
  ℕ, Bool, true, false, Option, none, some, [], ◌∷◌, ◌++◌, Text, text, if◌then◌else◌, starts_with,
}
use wftpd_linux.Outcome.{ok, err}
use wftpd_linux.Paths.{PathBuf, components, join, strip_prefix, strip_or_self, parent, walk}
use wftpd_linux.Os.{
  IoResult, Metadata, metadata, remove_file, create_dir, remove_dir_all, canonicalize, exists,
  rename, read_link, symlink, invalidate,
}
use wftpd_linux.Sftp.Session.{
  permission_denied, failure, M, ◌>>=◌, ◌>>◌, pure, fail, request, get, io, some_or, permissions,
  resolve_path, audit,
}
use wftpd_linux.Sftp.Render.{render, render_relative}
use wftpd_linux.Sftp.Stats.{NamedFile, allow}

-- A refusal that is written to the audit log.
abbrev pub allow_audited : Text → Text → Bool → M (Unit {0})
allow_audited operation file_path allowed =
    if allowed
    then pure tt
    else (do audit operation file_path 0 false (text "权限拒绝"); fail permission_denied)

abbrev pub size_or_zero : IoResult Metadata → ℕ
size_or_zero (ok md) = md.len
size_or_zero (err e) = 0

unfoldable pub remove : Text → M (Unit {0})
remove filename = do
  perms ← permissions
  allow_audited (text "DELETE") filename perms.can_delete
  resolved ← resolve_path filename
  md ← request (metadata resolved)
  io (← request (remove_file resolved))
  s ← get
  request (invalidate s.home_dir)
  audit (text "DELETE") (render resolved) (size_or_zero md) true (text "文件删除成功")

unfoldable pub mkdir : Text → M (Unit {0})
mkdir path = do
  perms ← permissions
  allow_audited (text "MKDIR") path perms.can_mkdir
  resolved ← resolve_path path
  io (← request (create_dir resolved))
  audit (text "MKDIR") (render resolved) 0 true (text "目录创建成功")

unfoldable pub rmdir : Text → M (Unit {0})
rmdir path = do
  perms ← permissions
  allow_audited (text "RMDIR") path perms.can_rmdir
  resolved ← resolve_path path
  io (← request (remove_dir_all resolved))
  audit (text "RMDIR") (render resolved) 0 true (text "目录删除成功")

abbrev pub or_home : PathBuf → IoResult PathBuf → PathBuf
or_home home (ok canon) = canon
or_home home (err e) = home

-- The client's view of a path: the home directory is its root.
abbrev pub virtual_path : Option PathBuf → Text
virtual_path none = text "/"
virtual_path (some []) = text "/"
virtual_path (some (c ∷ rel)) = b'/' ∷ render_relative (c ∷ rel)

unfoldable pub realpath : Text → M NamedFile
realpath path = do
  resolved ← resolve_path path
  s ← get
  canon ← request (canonicalize (components s.home_dir))
  pure (record {
    filename = virtual_path (strip_prefix (or_home (components s.home_dir) canon) resolved);
    attrs = none;
  })

abbrev pub arrow : Text → Text → Text
arrow old to = old ++ (text " -> " ++ to)

abbrev pub absent : PathBuf → M (Unit {0})
absent path = do taken ← request (exists path); if taken then fail failure else pure tt

unfoldable pub rename_entry : Text → Text → M (Unit {0})
rename_entry oldpath newpath = do
  perms ← permissions
  allow_audited (text "RENAME") (arrow oldpath newpath) perms.can_rename
  from ← resolve_path oldpath
  to ← resolve_path newpath
  absent to
  io (← request (rename from to))
  audit (text "RENAME") (arrow (render from) (render to)) 0 true (text "文件重命名成功")

unfoldable pub readlink : Text → M NamedFile
readlink path = do
  resolved ← resolve_path path
  target ← io (← request (read_link resolved))
  pure (record { filename = target; attrs = none })

abbrev pub link_dir : PathBuf → Option PathBuf → PathBuf
link_dir home none = home
link_dir home (some dir) = dir

-- The check of a relative link target, from the directory of the link.
unfoldable pub relative_target : PathBuf → PathBuf → Text → Option PathBuf
relative_target home link target =
    walk home home (strip_or_self home (join (link_dir home (parent link)) (components target)))

abbrev pub check_target : PathBuf → Text → M PathBuf
check_target link target = if starts_with b'/' target then resolve_path target else (do
  s ← get
  some_or permission_denied (relative_target (components s.home_dir) link target))

-- Clients send the target first: `linkpath` is the link's target and `targetpath` its place.
unfoldable pub symlink_entry : Text → Text → M (Unit {0})
symlink_entry linkpath targetpath = do
  perms ← permissions
  allow perms.can_write
  link ← resolve_path targetpath
  checked ← check_target link linkpath
  absent link
  io (← request (symlink linkpath link))
  audit (text "SYMLINK") (arrow (render link) linkpath) 0 true (text "符号链接创建成功")
