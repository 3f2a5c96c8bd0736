-- ===== src/Sftp/EntryPolicy.antt =====
-- The handlers of `Entries` keep to the policy.
use wftpd_linux.Base.{◌≡◌, refl, ap, ◌⊎◌, inl, inr, Bool, true, false, Text, starts_with}
use wftpd_linux.Paths.{PathBuf, components}
use wftpd_linux.Paths.Within.{Within, walk-Within, home-Within}
use wftpd_linux.Os.{
  metadata, remove_file, create_dir, remove_dir_all, canonicalize, exists, rename, read_link,
  symlink, invalidate,
}
use wftpd_linux.Sftp.Session.{M, permission_denied}
use wftpd_linux.Sftp.Entries.{
  remove, mkdir, rmdir, realpath, rename_entry, readlink, symlink_entry, allow_audited, absent,
  check_target, relative_target,
}
use wftpd_linux.Sftp.Logic.{Sat-bind, Sat-pure, Sat-fail, Sat-request, Sat-get, Sat-some_or, Sat-if}
use wftpd_linux.Sftp.Policy.{
  Setting, Holds, Apart, home, granted, audit-Holds, allow-Holds, with_permissions, with_resolved,
  with_io, resolve_path-Holds,
}

module _ (w : Setting) where
  abbrev Keeps : {A : Type 0} → M A → Type 0
  Keeps = Holds w (λ _. Unit {0})

  allow_audited-Holds :
      (operation path : Text) (allowed : Bool)
      → Holds w (λ _. allowed ≡ true) (allow_audited operation path allowed)
  allow_audited-Holds operation path true = Sat-pure _ refl
  allow_audited-Holds operation path false = Sat-bind (audit-Holds w _ _ _ _ _) λ _ _. Sat-fail _

  pub remove-Keeps : (path : Text) → Apart w path → Keeps (remove path)
  unfolding remove
  remove-Keeps path apart = with_permissions w _ (
      Sat-bind (allow_audited-Holds _ _ _) λ _ allowed. with_resolved w path apart λ p below.
        Sat-bind (Sat-request (metadata p) (below, inr allowed)) λ md _.
          Sat-bind (Sat-request (remove_file p) (below, allowed)) λ removed _.
            with_io w removed λ _.
              Sat-bind Sat-get λ s at_home.
                Sat-bind (Sat-request (invalidate _) tt) λ _ _. audit-Holds w _ _ _ _ _)

  pub mkdir-Keeps : (path : Text) → Apart w path → Keeps (mkdir path)
  unfolding mkdir
  mkdir-Keeps path apart = with_permissions w _ (
      Sat-bind (allow_audited-Holds _ _ _) λ _ allowed. with_resolved w path apart λ p below.
        Sat-bind (Sat-request (create_dir p) (below, allowed))
          λ created _. with_io w created λ _. audit-Holds w _ _ _ _ _)

  pub rmdir-Keeps : (path : Text) → Apart w path → Keeps (rmdir path)
  unfolding rmdir
  rmdir-Keeps path apart = with_permissions w _ (
      Sat-bind (allow_audited-Holds _ _ _) λ _ allowed. with_resolved w path apart λ p below.
        Sat-bind (Sat-request (remove_dir_all p) (below, allowed))
          λ removed _. with_io w removed λ _. audit-Holds w _ _ _ _ _)

  pub realpath-Keeps : (path : Text) → Apart w path → Keeps (realpath path)
  unfolding realpath
  realpath-Keeps path apart = with_resolved w path apart λ p below. Sat-bind Sat-get λ s at_home.
      Sat-bind (Sat-request (canonicalize (components s.home_dir)) (ap components at_home))
        λ canon _. Sat-pure _ tt

  absent-Keeps :
      (p : PathBuf)
      → Within (home w) p
      → ((granted w).can_rename ≡ true) ⊎ ((granted w).can_write ≡ true)
      → Keeps (absent p)
  absent-Keeps p below allowed =
      Sat-bind (Sat-request (exists p) (below, allowed))
        λ taken _. Sat-if taken (λ _. Sat-fail _) (λ _. Sat-pure _ tt)

  pub rename_entry-Keeps :
      (oldpath newpath : Text)
      → Apart w oldpath
      → Apart w newpath
      → Keeps (rename_entry oldpath newpath)
  unfolding rename_entry
  rename_entry-Keeps oldpath newpath old_apart new_apart = with_permissions w _ (
      Sat-bind (allow_audited-Holds _ _ _) λ _ allowed.
        with_resolved w oldpath old_apart λ p p_below.
          with_resolved w newpath new_apart λ q q_below.
            Sat-bind (absent-Keeps q q_below (inl allowed)) λ _ _.
              Sat-bind (Sat-request (rename p q) (p_below, q_below, allowed))
                λ moved _. with_io w moved λ _. audit-Holds w _ _ _ _ _)

  pub readlink-Keeps : (path : Text) → Apart w path → Keeps (readlink path)
  unfolding readlink
  readlink-Keeps path apart = with_resolved w path apart λ p below.
      Sat-bind (Sat-request (read_link p) below) λ target _. with_io w target λ _. Sat-pure _ tt

  -- The target that is checked lies below the home directory, as the check reads it.
  check_target-Holds :
      (link : PathBuf) (target : Text)
      → Apart w target
      → Holds w (Within (home w)) (check_target link target)
  unfolding relative_target
  check_target-Holds link target apart =
      Sat-if (starts_with b'/' target) (λ _. resolve_path-Holds w target apart)
        λ _. Sat-bind Sat-get λ s at_home.
          Sat-some_or permission_denied (relative_target (components s.home_dir) link target) λ p e.
            walk-Within (home w) (home w) _ (home-Within (home w))
              (rw (ap components at_home, relative_target) at e)

  pub symlink_entry-Keeps :
      (linkpath targetpath : Text)
      → Apart w linkpath
      → Apart w targetpath
      → Keeps (symlink_entry linkpath targetpath)
  unfolding symlink_entry
  symlink_entry-Keeps linkpath targetpath target_apart link_apart = with_permissions w _ (
      Sat-bind (allow-Holds w _) λ _ allowed. with_resolved w targetpath link_apart λ link below.
        Sat-bind (check_target-Holds link linkpath target_apart) λ _ _.
          Sat-bind (absent-Keeps link below (inr allowed)) λ _ _.
            Sat-bind (Sat-request (symlink linkpath link) (below, allowed))
              λ made _. with_io w made λ _. audit-Holds w _ _ _ _ _)
