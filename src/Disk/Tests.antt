-- ===== src/Disk/Tests.antt =====
-- A file system that keeps its files in memory, and what is relied on of it.
use wftpd_linux.Base.{
  Option-cases, ◌≡◌, ◌≢◌, refl, sym, ap, true, false, Option, none, some, ◌++◌, Text, text, text_eq,
  text_eq_iff, Bool-cases, inl, inr,
}
use wftpd_linux.Base.Dict.{
  Dict, lookup, insert, remove, contains_key, lookup-insert, lookup-insert_self, lookup-remove,
}
use wftpd_linux.Outcome.{Result, ok, err}
use wftpd_linux.Paths.{components}
use wftpd_linux.Disk.{Fs, IsDisk}

abbrev found : Option Text → Result Text Text
found none = err (text "No such file or directory")
found (some s) = ok s

abbrev moved : Text → Text → Dict Text → Option Text → Result Text (Unit {0}) × Dict Text
moved p q w none = (err (text "No such file or directory"), w)
moved p q w (some s) = (ok tt, insert q s (remove p w))

abbrev pub memory : Fs
memory = record {
  World = Dict Text;
  exists = λ w p. contains_key p w;
  is_dir = λ w p. contains_key p w;
  read_to_string = λ w p. found (lookup p w);
  canonicalize = λ w p. ok (components p);
  write = λ w p s. (ok tt, insert p s w);
  append = λ w p s. (ok tt, insert p (elim (lookup p w) [ none ↦ s | some t ↦ t ++ s ]) w);
  rename = λ w p q. moved p q w (lookup p w);
  remove_file = λ w p. (ok tt, remove p w);
  create_dir_all = λ w p. (ok tt, w);
  set_permissions = λ w p mode. (ok tt, w);
}

pub text_ne : (p q : Text) → text_eq p q ≡ false → p ≢ q
text_ne p q h e = absurd (cc ((text_eq_iff p q).1 e, h))

apart : (p q : Text) → q ≢ p → text_eq p q ≡ false
apart p q h = elim (Bool-cases (text_eq p q)) [
  | inl same ↦ absurd (h (sym ((text_eq_iff p q).0 same)))
  | inr other ↦ other
]

moved-ok :
    (p q : Text) (w : Dict Text) (o : Option Text)
    → (moved p q w o).0 ≡ ok tt
    → found (lookup q (moved p q w o).1) ≡ found o
moved-ok p q w none e = absurd cc
moved-ok p q w (some s) e = ap found (lookup-insert_self q s (remove p w))

moved-err :
    (p q e : Text) (w : Dict Text) (o : Option Text)
    → (moved p q w o).0 ≡ err e
    → (moved p q w o).1 ≡ w
moved-err p q e w none h = refl
moved-err p q e w (some s) h = absurd cc

moved-others :
    (p q r : Text) (w : Dict Text) (o : Option Text)
    → r ≢ p
    → r ≢ q
    → lookup r (moved p q w o).1 ≡ lookup r w
moved-others p q r w none from to = refl
moved-others p q r w (some s) from to =
    rw (lookup-insert, apart q r to, lookup-remove, apart p r from) refl

found-exists : (p s : Text) (w : Dict Text) → found (lookup p w) ≡ ok s → contains_key p w ≡ true
unfolding contains_key
found-exists p s w h = elim (Option-cases (lookup p w)) [
  | inl absent ↦ absurd (cc (ap found absent, h))
  | inr (t, there) ↦ rw (contains_key, there) refl
]

pub memory-IsDisk : IsDisk memory
memory-IsDisk = record {
  written = λ w p s e. ap found (lookup-insert_self p s w);
  write_others = λ w p s q h. ap found (rw (lookup-insert, apart p q h) refl);
  renamed = λ w p q e. moved-ok p q w (lookup p w) e;
  not_renamed = λ w p q r e h. ap (λ v. found (lookup r v)) (moved-err p q e w (lookup p w) h);
  rename_others = λ w p q r h k. ap found (moved-others p q r w (lookup p w) h k);
  remove_others = λ w p q h. ap found (rw (lookup-remove, apart p q h) refl);
  read_exists = λ w p s h. found-exists p s w h;
  create_others = λ w p q. refl;
}
