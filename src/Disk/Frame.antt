-- ===== src/Disk/Frame.antt =====
-- Which files a computation leaves as they are.
use wftpd_linux.Base.{◌≡◌, ◌≢◌, refl, ◌∙◌, Bool, true, false, Text}
use wftpd_linux.Outcome.{Result, ok, err}
use wftpd_linux.Disk.{Fs, IsDisk, Io, ◌>>=◌, and_then, clean_up, swap_in}

module _ (F : Fs) (q : Text) where
  -- The file is read as before.
  abbrev pub Leaves : {E A : Type 0} → Io F.World E A → Type 0
  Leaves m = (w : F.World) → F.read_to_string (m w).1 q ≡ F.read_to_string w q

  and_then-Leaves :
      {E A B : Type 0} (f : A → Io F.World E B) (out : Result E A × F.World)
      → ((a : A) → Leaves (f a))
      → F.read_to_string (and_then f out).1 q ≡ F.read_to_string out.1 q
  and_then-Leaves f (ok a, w) after = after a w
  and_then-Leaves f (err e, w) after = refl

  pub bind-Leaves :
      {E A B : Type 0} (m : Io F.World E A) (f : A → Io F.World E B)
      → Leaves m
      → ((a : A) → Leaves (f a))
      → Leaves (m >>= f)
  unfolding ◌>>=◌
  bind-Leaves m f before after w = and_then-Leaves f (m w) after ∙ before w

  module _ (disk : IsDisk F) where
    clean_up-Leaves :
        (removes : Bool) (message temp : Text) (out : Result Text (Unit {0}) × F.World)
        → q ≢ temp
        → F.read_to_string (clean_up F removes message temp out).1 q ≡ F.read_to_string out.1 q
    clean_up-Leaves removes message temp (ok u, w) apart = refl
    clean_up-Leaves true message temp (err e, w) apart = disk.remove_others w temp q apart
    clean_up-Leaves false message temp (err e, w) apart = refl

    pub swap_in-Leaves :
        (removes : Bool) (write_message rename_message temp path content : Text)
        → q ≢ temp
        → q ≢ path
        → Leaves (swap_in F removes write_message rename_message temp path content)
    unfolding swap_in
    swap_in-Leaves removes write_message rename_message temp path content from to =
        bind-Leaves _ _ (λ w. disk.write_others w temp content q from)
          λ u w.
            clean_up-Leaves removes rename_message temp (F.rename w temp path) from
            ∙ disk.rename_others w temp path q from to
