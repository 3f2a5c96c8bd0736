-- ===== src/Users/Manager/Saving.antt =====
-- `UserManager::save` of common/src/users.rs, and the file that it leaves for `UserManager::load`.
use wftpd_linux.Base.{
  ◌≡◌, ◌≢◌, refl, ◌∙◌, ◌⊎◌, inl, inr, Bool, true, false, Option, some, Text, text, trim, is_empty,
}
use wftpd_linux.Outcome.{Result, ok, err}
use wftpd_linux.Paths.Names.{parent_text, with_extension}
use wftpd_linux.Disk.{Fs, IsDisk, Io, ◌>>=◌, ◌>>◌, context, pure, create_parent, swap_in}
use wftpd_linux.Disk.Saving.{Stored, save_lem}
use wftpd_linux.Users.Manager.{UserManager}
use wftpd_linux.Users.Manager.Loading.{UsersFile, missing, unreadable, content, load}

-- What `load` finds, by the answers of `exists` and `read_to_string`.
abbrev pub users_file : Bool → Result Text Text → UsersFile
users_file false r = missing
users_file true (ok s) = content s
users_file true (err e) = unreadable

module _ (F : Fs) (to_string_pretty : UserManager → Result Text Text) where
  unfoldable pub save : UserManager → Text → Io F.World Text (Unit {0})
  save m path = do
    create_parent F (text "Failed to create users directory") (parent_text path)
    printed ← context (text "Failed to serialize users") (pure (to_string_pretty m))
    swap_in F false (text "Failed to write temp users file")
        (text "Failed to rename temp users file") (with_extension path (text "tmp")) path printed

  -- A file is missing, unreadable or read.
  abbrev pub load_path : (Text → Option UserManager) → Text → F.World → Option UserManager
  load_path parse path w = load parse (users_file (F.exists w path) (F.read_to_string w path))

  module _ (disk : IsDisk F) where
    save-Stored :
        (m : UserManager) (path : Text) (w : F.World)
        → path ≢ with_extension path (text "tmp")
        → Stored F (to_string_pretty m) path w (save m path w)
    unfolding save
    save-Stored m path w apart =
        save_lem F disk false (text "Failed to serialize users")
          (text "Failed to write temp users file") (text "Failed to rename temp users file")
          (with_extension path (text "tmp")) path apart (text "Failed to create users directory")
          (parent_text path) (to_string_pretty m) w

    loaded :
        (parse : Text → Option UserManager) (m : UserManager) (path s : Text) (v : F.World)
        → F.read_to_string v path ≡ ok s
        → (parse s ≡ some m) × (is_empty (trim s) ≡ false)
        → load_path parse path v ≡ some m
    unfolding load
    loaded parse m path s v holds (parsed, nonblank) =
        let there = disk.read_exists v path s holds in rw (there, holds, nonblank, parsed) refl

    reads_same :
        (parse : Text → Option UserManager) (path old : Text) (w v : F.World)
        → F.read_to_string w path ≡ ok old
        → F.read_to_string v path ≡ ok old
        → load_path parse path v ≡ load_path parse path w
    reads_same parse path old w v before after =
        let there = disk.read_exists w path old before in
        let still = disk.read_exists v path old after in rw (there, still, before, after) refl

    -- Where JSON reads what it printed, which is not blank: the library that was saved
    -- without an error is the one that is loaded next, whether there was a file before or
    -- not; or the save reports an error and the file reads as before it, and if it could be
    -- read, the next load gives what a load before it gave.
    pub load-save_users :
        (parse : Text → Option UserManager) (m : UserManager) (path : Text) (w : F.World)
        → path ≢ with_extension path (text "tmp")
        → ((s : Text)
            → to_string_pretty m ≡ ok s
            → (parse s ≡ some m) × (is_empty (trim s) ≡ false))
        → (((save m path w).0 ≡ ok tt) × (load_path parse path (save m path w).1 ≡ some m))
          ⊎ ((e : Text) × ((save m path w).0 ≡ err e)
              × (F.read_to_string (save m path w).1 path ≡ F.read_to_string w path)
              × ((old : Text)
                  → F.read_to_string w path ≡ ok old
                  → load_path parse path (save m path w).1 ≡ load_path parse path w))
    load-save_users parse m path w apart lossless = elim (save-Stored m path w apart) [
      | inl (s, printed, succeeded, holds) ↦
          inl (succeeded, loaded parse m path s (save m path w).1 holds (lossless s printed))
      | inr (e, failed, same) ↦ inr (
        e,
        failed,
        same,
        λ old was. reads_same parse path old w (save m path w).1 was (same ∙ was),
      )
    ]
