-- ===== src/Sftp/StatPolicy.antt =====
-- The handlers of `Stats` keep to the policy.
use wftpd_linux.Base.{ℕ, zero, suc, inl, ◌≡◌, true, Option, none, some, List, [], ◌∷◌, Text}
use wftpd_linux.Base.Dict.{lookup}
use wftpd_linux.Paths.{PathBuf}
use wftpd_linux.Paths.Within.{Within}
use wftpd_linux.Os.{
  metadata, symlink_metadata, read_dir, open_file, set_permissions, set_len, file_metadata,
  close_file, next_entry, entry_metadata,
}
use wftpd_linux.Sftp.Session.{M, OpenEntry, file, dir, stat_attrs, symlink_attrs, FileAttributes}
use wftpd_linux.Sftp.Stats.{
  lstat, fstat, stat, setstat, opendir, readdir, read_batch, set_mode, set_size, dir_of, NamedFile,
  nonempty, writing,
}
use wftpd_linux.Sftp.Logic.{
  Sat-bind, Sat-pure, Sat-fail, Sat-request, Sat-get, Sat-io_or, Sat-io_any,
}
use wftpd_linux.Sftp.Policy.{
  Setting, Holds, Apart, home, granted, audit-Holds, allow-Holds, with_permissions, with_resolved,
  with_io,
}
use wftpd_linux.Sftp.FilePolicy.{next_handle_id-Keeps, insert_handle-Keeps, file_handle-Keeps}

module _ (w : Setting) where
  abbrev Keeps : {A : Type 0} → M A → Type 0
  Keeps = Holds w (λ _. Unit {0})

  pub lstat-Keeps : (path : Text) → Apart w path → Keeps (lstat path)
  unfolding lstat symlink_attrs
  lstat-Keeps path apart = with_permissions w _ (
      Sat-bind (allow-Holds w _) λ _ allowed. with_resolved w path apart λ p below.
        Sat-bind (Sat-request (symlink_metadata p) (below, allowed))
          λ found _. Sat-bind (Sat-io_or _ found) λ _ _. Sat-pure _ tt)

  pub stat-Keeps : (path : Text) → Apart w path → Keeps (stat path)
  unfolding stat stat_attrs
  stat-Keeps path apart = with_permissions w _ (
      Sat-bind (allow-Holds w _) λ _ allowed. with_resolved w path apart λ p below.
        Sat-bind (Sat-request (metadata p) (below, inl allowed))
          λ found _. Sat-bind (Sat-io_or _ found) λ _ _. Sat-pure _ tt)

  pub fstat-Keeps : (handle : Text) → Keeps (fstat handle)
  unfolding fstat
  fstat-Keeps handle = Sat-bind (file_handle-Keeps w handle) λ f _.
      Sat-bind (Sat-request (file_metadata f.file) tt) λ found _. with_io w found λ _. Sat-pure _ tt

  set_mode-Keeps :
      (p : PathBuf) (mode : Option ℕ)
      → Within (home w) p
      → (granted w).can_write ≡ true
      → Keeps (set_mode p mode)
  set_mode-Keeps p none below allowed = Sat-pure _ tt
  set_mode-Keeps p (some mode) below allowed =
      Sat-bind (Sat-request (set_permissions p _) (below, allowed)) λ done _. Sat-io_any done

  set_size-Keeps :
      (p : PathBuf) (size : Option ℕ)
      → Within (home w) p
      → (granted w).can_write ≡ true
      → Keeps (set_size p size)
  set_size-Keeps p none below allowed = Sat-pure _ tt
  set_size-Keeps p (some size) below allowed =
      Sat-bind (Sat-request (open_file p writing) (below, inl allowed)) λ opened _.
        with_io w opened λ fd.
          Sat-bind (Sat-request (set_len fd size) tt)
            λ done _. Sat-bind (Sat-request (close_file fd) tt) λ _ _. Sat-io_any done

  pub setstat-Keeps :
      (path : Text) (attrs : FileAttributes) → Apart w path → Keeps (setstat path attrs)
  unfolding setstat
  setstat-Keeps path attrs apart = with_permissions w _ (
      Sat-bind (allow-Holds w _) λ _ allowed. with_resolved w path apart λ p below.
        Sat-bind (set_mode-Keeps p attrs.permissions below allowed) λ _ _.
          Sat-bind (set_size-Keeps p attrs.size below allowed) λ _ _. audit-Holds w _ _ _ _ _)

  pub opendir-Keeps : (path : Text) → Apart w path → Keeps (opendir path)
  unfolding opendir
  opendir-Keeps path apart = with_permissions w _ (
      Sat-bind (allow-Holds w _) λ _ allowed. with_resolved w path apart λ p below.
        Sat-bind (Sat-request (read_dir p) (below, allowed)) λ opened _. with_io w opened λ rd.
          Sat-bind (next_handle_id-Keeps w)
            λ handle _. Sat-bind (insert_handle-Keeps w handle _) λ _ _. Sat-pure _ tt)

  dir_of-Keeps : (entry : Option OpenEntry) → Keeps (dir_of entry)
  dir_of-Keeps none = Sat-fail _
  dir_of-Keeps (some (file f)) = Sat-fail _
  dir_of-Keeps (some (dir rd)) = Sat-pure _ tt

  read_batch-Keeps : (room rd : ℕ) (files : List NamedFile) → Keeps (read_batch room rd files)
  unfolding read_batch
  read_batch-Keeps zero rd files = Sat-pure _ tt
  read_batch-Keeps (suc room) rd files = Sat-bind (Sat-request (next_entry rd) tt) λ found _.
      with_io w found (elim [
        | none ↦ Sat-pure _ tt
        | some entry ↦
            Sat-bind (Sat-request (entry_metadata entry) tt) λ md _. read_batch-Keeps room rd _
      ])

  nonempty-Keeps : (files : List NamedFile) → Keeps (nonempty files)
  nonempty-Keeps [] = Sat-fail _
  nonempty-Keeps (f ∷ files) = Sat-pure _ tt

  pub readdir-Keeps : (handle : Text) → Keeps (readdir handle)
  unfolding readdir
  readdir-Keeps handle = Sat-bind Sat-get λ s _.
      Sat-bind (dir_of-Keeps (lookup handle s.handles))
        λ rd _. Sat-bind (read_batch-Keeps _ rd []) λ files _. nonempty-Keeps files
