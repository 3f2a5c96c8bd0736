-- ===== src/Sftp/Resolve.antt =====
-- `SftpFileHandler::resolve` (sftp/src/ops/mod.rs): the lexical anchoring of a client's path in the
-- user's home directory.
use wftpd_linux.Base.{
  ◌≡◌, ◌&&◌, not, Option, none, some, Text, trim, trim_start_matches, is_empty, starts_with,
  if◌then◌else◌,
}
use wftpd_linux.Paths.{PathBuf, components, join, strip_prefix, strip_or_self, walk}
use wftpd_linux.Paths.Within.{Within, walk-Within, home-Within}

-- The prefix test on an absolute path: what lies behind the home directory in a path that names it.
unfoldable pub claimed : PathBuf → Text → Option PathBuf
claimed home stripped =
    if starts_with b'/' stripped && not (is_empty (trim_start_matches b'/' stripped))
    then strip_prefix home (components stripped)
    else none

-- The path that the loop normalises. An absolute one is taken as one inside the home directory.
unfoldable pub base_path : PathBuf → Text → PathBuf
base_path home stripped =
    join home (
      components (if starts_with b'/' stripped then trim_start_matches b'/' stripped else stripped))

-- `none` is `Err(StatusCode::NoSuchFile)`, the only error.
unfoldable pub resolve : Text → Text → Option PathBuf
unfolding claimed base_path
resolve home_dir path =
    let home = components home_dir in
    let stripped = trim path in
    elim (claimed home stripped) [
      | some within ↦ some (join home within)
      | none ↦ walk home home (strip_or_self home (base_path home stripped))
    ]

-- A request that does not begin with the real home directory is resolved, if at all, to a path
-- that is the home directory followed by names.
pub resolve-Within :
    (home_dir path : Text) {p : PathBuf}
    → claimed (components home_dir) (trim path) ≡ none
    → resolve home_dir path ≡ some p
    → Within (components home_dir) p
unfolding resolve
resolve-Within home_dir path apart e =
    walk-Within (components home_dir) (components home_dir) _ (home-Within (components home_dir))
      (rw (apart, resolve) at e)

-- A request that names the home directory and goes up from there is let through as it stands.
pub resolve-claimed :
    (home_dir path : Text) (within : PathBuf)
    → claimed (components home_dir) (trim path) ≡ some within
    → resolve home_dir path ≡ some (join (components home_dir) within)
unfolding resolve
resolve-claimed home_dir path within e = rw (e, resolve)
