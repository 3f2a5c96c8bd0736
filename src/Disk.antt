-- ===== src/Disk.antt =====
-- The file system as the parts of the daemon see it that keep files: an interface, what the code
-- relies on of it, and the replacement of a file by way of a temporary one (`save` of
-- common/src/config.rs and of common/src/users.rs). Errors are their texts.
pub mod Saving
pub mod Frame
pub mod Tests
use wftpd_linux.Base.{
  if◌then◌else◌, true, false, Bool-cases, ℕ, ◌≡◌, ◌≢◌, refl, sym, ap, ◌∙◌, ◌⊎◌, inl, inr, Bool,
  Option, none, some, List, Text, text,
}
use wftpd_linux.Outcome.{Result, ok, err, Result-cases}
use wftpd_linux.Paths.{PathBuf}
use wftpd_linux.Paths.Names.{parent_text, with_extension}

pub record Fs : Type 1 where
  pub World : Type 0
  pub exists : World → Text → Bool
  pub is_dir : World → Text → Bool
  pub read_to_string : World → Text → Result Text Text
  pub canonicalize : World → Text → Result Text PathBuf
  pub write : World → Text → Text → Result Text (Unit {0}) × World
  pub append : World → Text → Text → Result Text (Unit {0}) × World
  pub rename : World → Text → Text → Result Text (Unit {0}) × World
  pub remove_file : World → Text → Result Text (Unit {0}) × World
  pub create_dir_all : World → Text → Result Text (Unit {0}) × World
  pub set_permissions : World → Text → ℕ → Result Text (Unit {0}) × World

-- What reading a file gives after the other operations, for paths in their normal form: a file that
-- was written holds what was written, a renamed one stands in its new place, no operation changes
-- the other files, a failed `rename` changes none, and what can be read exists.
pub record IsDisk (F : Fs) : Type 0 where
  pub written :
      (w : F.World) (p s : Text)
      → (F.write w p s).0 ≡ ok tt
      → F.read_to_string (F.write w p s).1 p ≡ ok s
  pub write_others :
      (w : F.World) (p s q : Text)
      → q ≢ p
      → F.read_to_string (F.write w p s).1 q ≡ F.read_to_string w q
  pub renamed :
      (w : F.World) (p q : Text)
      → (F.rename w p q).0 ≡ ok tt
      → F.read_to_string (F.rename w p q).1 q ≡ F.read_to_string w p
  pub not_renamed :
      (w : F.World) (p q r e : Text)
      → (F.rename w p q).0 ≡ err e
      → F.read_to_string (F.rename w p q).1 r ≡ F.read_to_string w r
  pub rename_others :
      (w : F.World) (p q r : Text)
      → r ≢ p
      → r ≢ q
      → F.read_to_string (F.rename w p q).1 r ≡ F.read_to_string w r
  pub remove_others :
      (w : F.World) (p q : Text)
      → q ≢ p
      → F.read_to_string (F.remove_file w p).1 q ≡ F.read_to_string w q
  pub read_exists : (w : F.World) (p s : Text) → F.read_to_string w p ≡ ok s → F.exists w p ≡ true
  pub create_others :
      (w : F.World) (p q : Text)
      → F.read_to_string (F.create_dir_all w p).1 q ≡ F.read_to_string w q

-- A computation on the world that may fail.
abbrev pub Io : Type 0 → Type 0 → Type 0 → Type 0
Io W E A = W → Result E A × W

abbrev pub and_then : {W E A B : Type 0} → (A → Io W E B) → Result E A × W → Result E B × W
and_then f (ok a, w) = f a w
and_then f (err e, w) = (err e, w)

infixl 5 ◌>>=◌
unfoldable pub ◌>>=◌ : {W E A B : Type 0} → Io W E A → (A → Io W E B) → Io W E B
(m >>= f) w = and_then f (m w)

infixl 5 ◌>>◌
abbrev pub ◌>>◌ : {W E B : Type 0} → Io W E (Unit {0}) → Io W E B → Io W E B
m >> k = m >>= λ _. k

abbrev pub pure : {W E A : Type 0} → Result E A → Io W E A
pure r w = (r, w)

abbrev pub rename_error : {A E E' : Type 0} → (E → E') → Result E A → Result E' A
rename_error f (ok a) = ok a
rename_error f (err e) = err (f e)

-- `map_err(f)`, and `context(message)`.
abbrev pub map_err : {W E E' A : Type 0} → (E → E') → Io W E A → Io W E' A
map_err f m w = let r = m w in (rename_error f r.0, r.1)

abbrev pub context : {W A : Type 0} → Text → Io W Text A → Io W Text A
context message m = map_err (λ _. message) m

module _ (F : Fs) where
  abbrev pub create_parent : Text → Option Text → Io F.World Text (Unit {0})
  create_parent message none = pure (ok tt)
  create_parent message (some parent) = context message λ w. F.create_dir_all w parent

  -- What an error of the last step does with the temporary file.
  abbrev pub clean_up :
      Bool → Text → Text → Result Text (Unit {0}) × F.World → Result Text (Unit {0}) × F.World
  clean_up removes message temp (ok u, w) = (ok tt, w)
  clean_up removes message temp (err e, w) =
      (err message, if removes then (F.remove_file w temp).1 else w)

  -- The end of both `save` functions: the temporary file is written, and renamed.
  unfoldable pub swap_in : Bool → Text → Text → Text → Text → Text → Io F.World Text (Unit {0})
  swap_in removes write_message rename_message temp path content = do
    context write_message λ w. F.write w temp content
    λ w. clean_up removes rename_message temp (F.rename w temp path)

  -- A file is replaced as a whole, or it is left as it was and the error is reported.
  abbrev pub Replaced : Text → Text → F.World → Result Text (Unit {0}) × F.World → Type 0
  Replaced path content w out =
      ((out.0 ≡ ok tt) × (F.read_to_string out.1 path ≡ ok content))
      ⊎ ((e : Text) × (out.0 ≡ err e) × (F.read_to_string out.1 path ≡ F.read_to_string w path))

  module _ (disk : IsDisk F) where
    pub create_parent-keeps :
        (message : Text) (parent : Option Text) (w : F.World) (q : Text)
        → F.read_to_string (create_parent message parent w).1 q ≡ F.read_to_string w q
    create_parent-keeps message none w q = refl
    create_parent-keeps message (some d) w q = disk.create_others w d q

    clean_up-Replaced :
        (removes : Bool) (message temp path content : Text) (w : F.World)
        (out : Result Text (Unit {0}) × F.World)
        → path ≢ temp
        → (out.0 ≡ ok tt → F.read_to_string out.1 path ≡ ok content)
        → ((e : Text) → out.0 ≡ err e → F.read_to_string out.1 path ≡ F.read_to_string w path)
        → Replaced path content w (clean_up removes message temp out)
    clean_up-Replaced removes message temp path content w (ok tt, v) apart done kept =
        inl (refl, done refl)
    clean_up-Replaced true message temp path content w (err e, v) apart done kept =
        inr (message, refl, disk.remove_others v temp path apart ∙ kept e refl)
    clean_up-Replaced false message temp path content w (err e, v) apart done kept =
        inr (message, refl, kept e refl)

    after_write :
        (removes : Bool) (write_message rename_message temp path content : Text) (w : F.World)
        (out : Result Text (Unit {0}) × F.World)
        → path ≢ temp
        → (out.0 ≡ ok tt → F.read_to_string out.1 temp ≡ ok content)
        → F.read_to_string out.1 path ≡ F.read_to_string w path
        → Replaced path content w (
            and_then
              (λ _ v. clean_up removes rename_message temp (F.rename v temp path))
              (rename_error (λ _. write_message) out.0, out.1))
    after_write removes write_message rename_message temp path content w (ok tt, v) apart there
          kept =
        clean_up-Replaced removes rename_message temp path content w (F.rename v temp path) apart
          (λ done. disk.renamed v temp path done ∙ there refl)
          (λ e failed. disk.not_renamed v temp path path e failed ∙ kept)
    after_write removes write_message rename_message temp path content w (err e, v) apart there
          kept =
        inr (write_message, refl, kept)

    pub swap_in-Replaced :
        (removes : Bool) (write_message rename_message temp path content : Text) (w : F.World)
        → path ≢ temp
        → Replaced path content w (swap_in removes write_message rename_message temp path content w)
    unfolding swap_in ◌>>=◌
    swap_in-Replaced removes write_message rename_message temp path content w apart =
        after_write removes write_message rename_message temp path content w
          (F.write w temp content) apart (disk.written w temp content)
          (disk.write_others w temp content path apart)
