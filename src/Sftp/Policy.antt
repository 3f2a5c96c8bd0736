-- ===== src/Sftp/Policy.antt =====
-- The access policy that the handlers enforce, request by request, for a user library and a disk
-- usage that stay the same while a request is handled.
use wftpd_linux.Base.{
  ℕ, ◌≡◌, ◌≤◌, ◌<◌, refl, ap, ◌⊎◌, Bool, true, false, Option, none, some, Text, length, trim,
}
use wftpd_linux.Paths.{PathBuf, components}
use wftpd_linux.Paths.Within.{Within}
use wftpd_linux.Users.{User, Permissions}
use wftpd_linux.Os.{
  Effect, Reply, OpenOptions, get_user, calculate_usage, log, metadata, symlink_metadata,
  canonicalize, read_dir, exists, remove_file, create_dir, create_dir_all, remove_dir_all,
  read_link, open_file, set_permissions, rename, symlink, read_file, write_all, IoResult, statvfs,
}
use wftpd_linux.Sftp.Resolve.{resolve, claimed, resolve-Within}
use wftpd_linux.Sftp.Session.{
  Session, M, ◌>>=◌, io, permissions_of, permissions, resolve_path, audit, no_such_file,
  max_read_len, positive, within_quota,
}
use wftpd_linux.Sftp.Stats.{allow}
use wftpd_linux.Sftp.Logic.{
  Sat, Sat-bind, Sat-pure, Sat-fail, Sat-request, Sat-get, Sat-some_or, Sat-io,
}

-- What stays the same while a request is handled: the session's home directory, what the user
-- library says of the user, and what the quota cache computes.
pub record Setting : Type 0 where
  pub home_dir : Text
  pub user : Option User
  pub usage : ℕ

module _ (w : Setting) where
  -- The user library answers `user`, and the quota cache `usage`. All else may answer anything.
  abbrev pub Admits : (e : Effect) → Reply e → Type 0
  Admits (get_user _) r = r ≡ w.user
  Admits (calculate_usage _) r = r ≡ w.usage
  Admits _ r = Unit {0}

  abbrev pub home : PathBuf
  home = components w.home_dir

  abbrev pub granted : Permissions
  granted = permissions_of w.user

  -- Writing needs `can_write`; appending may do with `can_append`; reading alone needs `can_read`.
  abbrev pub MayOpen : OpenOptions → Type 0
  MayOpen o =
      (granted.can_write ≡ true)
      ⊎ ((o.append ≡ true) × (granted.can_append ≡ true))
      ⊎ ((o.write ≡ false) × (o.append ≡ false) × (granted.can_read ≡ true))

  -- Bytes may be written if the user has no quota, or they fit into it.
  abbrev pub Fits : ℕ → Type 0
  Fits bytes =
      (limit : ℕ)
      → positive granted.quota_mb ≡ some limit
      → 0 < bytes
      → within_quota limit w.usage bytes ≡ true

  -- What a handler may ask of the world.
  abbrev pub Allowed : Effect → Type 0
  Allowed (metadata p) = Within home p × ((granted.can_list ≡ true) ⊎ (granted.can_delete ≡ true))
  Allowed (symlink_metadata p) = Within home p × (granted.can_list ≡ true)
  Allowed (canonicalize p) = p ≡ home
  Allowed (read_dir p) = Within home p × (granted.can_list ≡ true)
  Allowed (exists p) = Within home p × ((granted.can_rename ≡ true) ⊎ (granted.can_write ≡ true))
  Allowed (remove_file p) = Within home p × (granted.can_delete ≡ true)
  Allowed (create_dir p) = Within home p × (granted.can_mkdir ≡ true)
  Allowed (create_dir_all p) = ⊥
  Allowed (remove_dir_all p) = Within home p × (granted.can_rmdir ≡ true)
  Allowed (read_link p) = Within home p
  Allowed (open_file p o) = Within home p × MayOpen o
  Allowed (set_permissions p mode) = Within home p × (granted.can_write ≡ true)
  Allowed (rename p q) = Within home p × Within home q × (granted.can_rename ≡ true)
  Allowed (symlink target p) = Within home p × (granted.can_write ≡ true)
  Allowed (read_file fd len) = len ≤ max_read_len
  Allowed (write_all fd bytes) = Fits (length bytes)
  Allowed (statvfs _) = ⊥
  Allowed _ = Unit {0}

  -- The session belongs to the user whose home directory it is.
  abbrev pub IsHome : Session → Type 0
  IsHome s = s.home_dir ≡ w.home_dir

  abbrev pub Holds : {A : Type 0} → (A → Type 0) → M A → Type 0
  Holds = Sat Admits Allowed IsHome

  -- A path of a request that does not begin with the real home directory.
  abbrev pub Apart : Text → Type 0
  Apart path = claimed home (trim path) ≡ none

  permissions-Holds : Holds (λ perms. perms ≡ granted) permissions
  unfolding permissions
  permissions-Holds = Sat-bind Sat-get λ s at_home.
      Sat-bind (Sat-request (get_user s.username) tt) λ found e. Sat-pure _ (ap permissions_of e)

  pub resolve_path-Holds : (path : Text) → Apart path → Holds (Within home) (resolve_path path)
  unfolding resolve_path
  resolve_path-Holds path apart = Sat-bind Sat-get λ s at_home.
      Sat-some_or no_such_file (resolve s.home_dir path)
        λ p e. resolve-Within w.home_dir path apart (rw at_home at e)

  pub allow-Holds : (allowed : Bool) → Holds (λ _. allowed ≡ true) (allow allowed)
  allow-Holds true = Sat-pure _ refl
  allow-Holds false = Sat-fail _

  pub audit-Holds :
      (operation path : Text) (size : ℕ) (success : Bool) (message : Text)
      → Holds (λ _. Unit {0}) (audit operation path size success message)
  unfolding audit
  audit-Holds operation path size success message =
      Sat-bind Sat-get λ s at_home. Sat-request (log _) tt

module _ (w : Setting) {B : Type 0} {G : B → Type 0} where
  pub with_permissions :
      (f : Permissions → M B) → Holds w G (f (granted w)) → Holds w G (permissions >>= f)
  with_permissions f h = Sat-bind (permissions-Holds w) λ perms same. rw same h

  pub with_resolved :
      {f : PathBuf → M B} (path : Text)
      → Apart w path
      → ((p : PathBuf) → Within (home w) p → Holds w G (f p))
      → Holds w G (resolve_path path >>= f)
  with_resolved path apart h = Sat-bind (resolve_path-Holds w path apart) h

  -- A call whose failure ends the handler.
  pub with_io :
      {A : Type 0} {f : A → M B} (r : IoResult A)
      → ((a : A) → Holds w G (f a))
      → Holds w G (io r >>= f)
  with_io r h = Sat-bind (Sat-io r) λ a _. h a
