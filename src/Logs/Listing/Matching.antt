-- ===== src/Logs/Listing/Matching.antt =====
-- Which entries of a directory are log files, described apart from the tests of `list_log_files`,
-- and that the tests decide it.
use wftpd_linux.Base.{
  ℕ, ◌≡◌, ◌≢◌, refl, sym, ap, ◌∙◌, subst, ◌⊎◌, inl, inr, Bool, true, false, ◌&&◌, Option, none,
  some, Text, text, text_eq_iff, List, [], ◌∷◌, ◌++◌, map, Option-cases, Bool-cases, ◌==◌, ◌+◌, leb,
  ==_iff, arith,
}
use wftpd_linux.Paths.Names.{split_last, visible, stem_or, ext_of, file_stem, extension}
use wftpd_linux.Paths.Names.Splitting.{split_last-joined, split_last-append}
use wftpd_linux.Logs.Entries.{LogFileEntry}
use wftpd_linux.Logs.Listing.{
  Item, ascii_lower, eq_ignore_ascii_case, starts_with_text, is_log, name_matches, is_log_file,
  entry_of_item, name_of, filter,
}

-- The letters of `log`, each in either case.
abbrev pub IsLogExtension : Text → Type 0
IsLogExtension ext =
    (a : ℕ) × (b : ℕ) × (c : ℕ) × (ext ≡ a ∷ b ∷ c ∷ [])
    × ((a ≡ b'l') ⊎ (a ≡ b'L'))
    × ((b ≡ b'o') ⊎ (b ≡ b'O'))
    × ((c ≡ b'g') ⊎ (c ≡ b'G'))

-- The name is the stem, which is not empty, a dot and the extension, and begins with the prefix.
abbrev pub IsLogName : Text → Text → Text → Type 0
IsLogName prefix stem name =
    (ext : Text) × (rest : Text) × (name ≡ stem ++ b'.' ∷ ext)
    × (stem ≢ [])
    × IsLogExtension ext
    × (name ≡ prefix ++ rest)

-- The item of the directory is a file with such a name, and the entry has its stem and its path.
abbrev pub IsLogFile : Text → Item → LogFileEntry → Type 0
IsLogFile prefix i e =
    (i.is_file ≡ true)
    × ((name : Text) × (i.file_name ≡ some name) × IsLogName prefix e.name name)
    × (e.path ≡ i.path)

-- The entries of the log files among the items, each once and in their order.
pub data Picks (prefix : Text) : List Item → List LogFileEntry → Type 0 where
  done : Picks prefix [] []
  pick :
      {i : Item} {e : LogFileEntry} {items : List Item} {es : List LogFileEntry}
      → IsLogFile prefix i e
      → Picks prefix items es
      → Picks prefix (i ∷ items) (e ∷ es)
  skip :
      {i : Item} {items : List Item} {es : List LogFileEntry}
      → ((e : LogFileEntry) → ¬ IsLogFile prefix i e)
      → Picks prefix items es
      → Picks prefix (i ∷ items) es

starts_with_text-append :
    (p s : Text) → starts_with_text p s ≡ true → (rest : Text) × (s ≡ p ++ rest)
starts_with_text-append [] s h = (s, refl)
starts_with_text-append (c ∷ p) [] h = absurd cc
starts_with_text-append (c ∷ p) (d ∷ s) h = elim (Bool-cases (c == d)) [
  | inl same ↦
      let (rest, e) = starts_with_text-append p s (rw same at h) in
      let first : c ≡ d = (==_iff c d).0 same in
      (rest, ap (◌∷◌ d) e ∙ ap (λ x. x ∷ (p ++ rest)) (sym first))
  | inr other ↦ let clash : false ≡ true = rw other at h in absurd cc
]

append-starts_with_text : (p rest : Text) → starts_with_text p (p ++ rest) ≡ true
append-starts_with_text [] rest = refl
append-starts_with_text (c ∷ p) rest = rw ((==_iff c c).1 refl, append-starts_with_text p rest) refl

lower-letter :
    (c small large : ℕ) → ascii_lower c ≡ small → large + 32 ≡ small → (c ≡ small) ⊎ (c ≡ large)
lower-letter c small large h e = elim (Bool-cases (leb b'A' c && leb c b'Z')) [
  | inl upper ↦ let raised : c + 32 ≡ small = rw upper at h in inr (omega arith)
  | inr other ↦ let same : c ≡ small = rw other at h in inl same
]

spelled : (ext : Text) → map ascii_lower ext ≡ b'l' ∷ b'o' ∷ b'g' ∷ [] → IsLogExtension ext
spelled [] h = absurd cc
spelled (a ∷ []) h = absurd cc
spelled (a ∷ b ∷ []) h = absurd cc
spelled (a ∷ b ∷ c ∷ []) h =
    let ha : ascii_lower a ≡ b'l' = cc in
    let hb : ascii_lower b ≡ b'o' = cc in
    let hc : ascii_lower c ≡ b'g' = cc in
    (
      a,
      b,
      c,
      refl,
      lower-letter a b'l' b'L' ha refl,
      lower-letter b b'o' b'O' hb refl,
      lower-letter c b'g' b'G' hc refl,
    )
spelled (a ∷ b ∷ c ∷ d ∷ ext) h = absurd cc

either_case :
    (c small large : ℕ)
    → ascii_lower small ≡ small
    → ascii_lower large ≡ small
    → (c ≡ small) ⊎ (c ≡ large)
    → ascii_lower c ≡ small
either_case c small large h k (inl e) = ap ascii_lower e ∙ h
either_case c small large h k (inr e) = ap ascii_lower e ∙ k

no_dot :
    (c small large : ℕ)
    → (small == b'.') ≡ false
    → (large == b'.') ≡ false
    → (c ≡ small) ⊎ (c ≡ large)
    → (c == b'.') ≡ false
no_dot c small large h k (inl e) = ap (λ x. x == b'.') e ∙ h
no_dot c small large h k (inr e) = ap (λ x. x == b'.') e ∙ k

-- Such an extension passes the test, and has no dot.
extension_lem :
    (ext : Text)
    → IsLogExtension ext
    → (eq_ignore_ascii_case ext (text "log") ≡ true) × (split_last b'.' ext ≡ none)
unfolding split_last
extension_lem ext (a, b, c, e, ha, hb, hc) =
    let la = either_case a b'l' b'L' refl refl ha in
    let lb = either_case b b'o' b'O' refl refl hb in
    let lc = either_case c b'g' b'G' refl refl hc in
    let da = no_dot a b'l' b'L' refl refl ha in
    let db = no_dot b b'o' b'O' refl refl hb in
    let dc = no_dot c b'g' b'G' refl refl hc in
    subst (λ t. (eq_ignore_ascii_case t (text "log") ≡ true) × (split_last b'.' t ≡ none)) (sym e)
      (
        (text_eq_iff (ascii_lower a ∷ ascii_lower b ∷ ascii_lower c ∷ []) (text "log")).1
            (rw (la, lb, lc) refl),
        rw (dc, db, da) refl,
      )

-- A name whose extension passes the test, of what is found when it is split.
split-IsLog :
    (name : Text) (o : Option (Text × Text))
    → ((a b : Text) → o ≡ some (a, b) → name ≡ a ++ b'.' ∷ b)
    → is_log (ext_of (visible o)) ≡ true
    → (ext : Text) × (name ≡ stem_or name (visible o) ++ b'.' ∷ ext)
      × (stem_or name (visible o) ≢ [])
      × IsLogExtension ext
split-IsLog name none whole h = absurd cc
split-IsLog name (some ([], ext)) whole h = absurd cc
split-IsLog name (some (c ∷ stem, ext)) whole h = (
  ext,
  whole (c ∷ stem) ext refl,
  (λ e. absurd cc),
  spelled ext ((text_eq_iff (map ascii_lower ext) (text "log")).0 h),
)

visible-stem : (stem ext : Text) → stem ≢ [] → visible (some (stem, ext)) ≡ some (stem, ext)
visible-stem [] ext h = absurd (h refl)
visible-stem (c ∷ stem) ext h = refl

and_both : (a b : Bool) → (a && b) ≡ true → (a ≡ true) × (b ≡ true)
and_both true b h = (refl, h)
and_both false b h = absurd cc

name_matches-IsLogName :
    (prefix name : Text)
    → name_matches prefix (some name) ≡ true
    → IsLogName prefix (file_stem name) name
name_matches-IsLogName prefix name h =
    let (begins, logs) = and_both (starts_with_text prefix name) (is_log (extension name)) h in
    let (rest, front) = starts_with_text-append prefix name begins in
    let (ext, whole, nonempty, letters) =
      split-IsLog name (split_last b'.' name) (split_last-joined b'.' name) logs in
    (ext, rest, whole, nonempty, letters, front)

IsLogName-matches :
    (prefix stem name : Text) → IsLogName prefix stem name → name_matches prefix (some name) ≡ true
IsLogName-matches prefix stem name (ext, rest, whole, nonempty, letters, front) =
    let (logs, plain) = extension_lem ext letters in
    let split : split_last b'.' name ≡ some (stem, ext) =
      ap (split_last b'.') whole ∙ split_last-append b'.' stem ext plain in
    let begins : starts_with_text prefix name ≡ true =
      ap (starts_with_text prefix) front ∙ append-starts_with_text prefix rest in
    let ends : is_log (extension name) ≡ true =
      ap (λ o. is_log (ext_of (visible o))) split
      ∙ ap (λ o. is_log (ext_of o)) (visible-stem stem ext nonempty)
      ∙ logs in
    rw (begins, ends) refl

is_log_file-IsLogFile :
    (prefix : Text) (i : Item) → is_log_file prefix i ≡ true → IsLogFile prefix i (entry_of_item i)
is_log_file-IsLogFile prefix i h =
    let (file, matches) = and_both i.is_file (name_matches prefix i.file_name) h in
    elim (Option-cases i.file_name) [
      | inl unnamed ↦ absurd (let clash : false ≡ true = rw unnamed at matches in cc)
      | inr (name, named) ↦
          let log_name = name_matches-IsLogName prefix name (rw named at matches) in
          (
            file,
            (name, named, subst (λ o. IsLogName prefix (name_of o) name) (sym named) log_name),
            refl,
          )
    ]

IsLogFile-matches :
    (prefix : Text) (i : Item) (e : LogFileEntry)
    → IsLogFile prefix i e
    → is_log_file prefix i ≡ true
IsLogFile-matches prefix i e (file, (name, named, log_name), path) =
    let matches : name_matches prefix i.file_name ≡ true =
      ap (name_matches prefix) named ∙ IsLogName-matches prefix e.name name log_name in
    rw (file, matches) refl

-- The items that pass the test are those.
pub filter-Picks :
    (prefix : Text) (items : List Item)
    → Picks prefix items (map entry_of_item (filter (is_log_file prefix) items))
filter-Picks prefix [] = done
filter-Picks prefix (i ∷ items) =
    let rest = filter-Picks prefix items in
    elim (Bool-cases (is_log_file prefix i)) [
      | inl passes ↦ rw passes (pick (is_log_file-IsLogFile prefix i passes) rest)
      | inr fails ↦
          rw fails (skip (λ e log. absurd (cc (IsLogFile-matches prefix i e log, fails))) rest)
    ]
