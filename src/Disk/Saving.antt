-- ===== src/Disk/Saving.antt =====
-- What the two `save` functions (common/src/config.rs and common/src/users.rs) have in common: a
-- printed value replaces a file whose directory is made first.
use wftpd_linux.Base.{◌≡◌, ◌≢◌, refl, ◌∙◌, ◌⊎◌, inl, inr, Bool, Option, Text}
use wftpd_linux.Outcome.{Result, ok, err}
use wftpd_linux.Disk.{
  Fs, IsDisk, ◌>>=◌, and_then, context, pure, rename_error, create_parent, create_parent-keeps,
  swap_in, swap_in-Replaced,
}

module _ (F : Fs) where
  open F use {World, read_to_string}

  -- The file holds what was printed, or an error is reported and the file is as it was.
  abbrev pub Stored : Result Text Text → Text → World → Result Text (Unit {0}) × World → Type 0
  Stored printed path w out =
      ((s : Text) × (printed ≡ ok s) × (out.0 ≡ ok tt) × (read_to_string out.1 path ≡ ok s))
      ⊎ ((e : Text) × (out.0 ≡ err e) × (read_to_string out.1 path ≡ read_to_string w path))

  module _ (disk : IsDisk F) (removes : Bool)
      (print_message write_message rename_message temp path : Text) (apart : path ≢ temp) where
    after_print :
        (w v : World) (printed : Result Text Text)
        → read_to_string v path ≡ read_to_string w path
        → Stored printed path w (
            and_then
              (swap_in F removes write_message rename_message temp path)
              (rename_error (λ _. print_message) printed, v))
    after_print w v (err e) kept = inr (_, refl, kept)
    after_print w v (ok s) kept =
        elim (swap_in-Replaced F disk removes write_message rename_message temp path s v apart) [
          | inl (done, holds) ↦ inl (s, refl, done, holds)
          | inr (e, failed, same) ↦ inr (e, failed, same ∙ kept)
        ]

    after_parent :
        (w : World) (printed : Result Text Text) (out : Result Text (Unit {0}) × World)
        → read_to_string out.1 path ≡ read_to_string w path
        → Stored printed path w (
            and_then
              (λ _ v.
                and_then
                  (swap_in F removes write_message rename_message temp path)
                  (rename_error (λ _. print_message) printed, v))
              out)
    after_parent w printed (err e, v) kept = inr (e, refl, kept)
    after_parent w printed (ok tt, v) kept = after_print w v printed kept

    -- The directory is made, the value is printed, and the file is replaced.
    pub save_lem :
        (parent_message : Text) (parent : Option Text) (printed : Result Text Text) (w : World)
        → Stored printed path w (
            (create_parent F parent_message parent >>= λ _.
            context print_message (pure printed)
            >>= swap_in F removes write_message rename_message temp path)
              w)
    unfolding ◌>>=◌
    save_lem parent_message parent printed w =
        after_parent w printed (create_parent F parent_message parent w)
          (create_parent-keeps F disk parent_message parent w path)
