-- ===== src/Logs/Listing/Sorting.antt =====
-- The listed files are all log files of the directory, the greatest name first.
use wftpd_linux.Base.{
  ◌≡◌, refl, ◌⊎◌, inl, inr, true, false, some, none, Text, List, [], ◌∷◌, map, Bool-cases, arith,
}
use mathlib.Core.List.{Mem, Perm, Pairwise, Pairwise-singleton, forall_mem-cons}
use mathlib.Core.List.Perm
use wftpd_linux.Logs.Entries.{LogFileEntry}
use wftpd_linux.Logs.Listing.Matching.{Picks, filter-Picks}
use wftpd_linux.Logs.Listing.{
  Item, is_log_file, entry_of_item, text_lt, insert, sort_newest, filter, list_log_files,
}

-- A name between two others is above the lower one or below the upper one.
text_lt-cases : (s u t : Text) → text_lt s t ≡ true → (text_lt s u ≡ true) ⊎ (text_lt u t ≡ true)
text_lt-cases [] [] (d ∷ t) h = inr refl
text_lt-cases [] (e ∷ u) (d ∷ t) h = inl refl
text_lt-cases [] u [] h = absurd cc
text_lt-cases (c ∷ s) u [] h = absurd cc
text_lt-cases (c ∷ s) [] (d ∷ t) h = inr refl
text_lt-cases (c ∷ s) (e ∷ u) (d ∷ t) h = ground (arith, text_lt-cases s u t)

text_lt-asym : (s t : Text) → text_lt s t ≡ true → text_lt t s ≡ false
text_lt-asym [] [] h = refl
text_lt-asym [] (d ∷ t) h = refl
text_lt-asym (c ∷ s) [] h = absurd cc
text_lt-asym (c ∷ s) (d ∷ t) h = ground (arith, text_lt-asym s t)

-- The later entry has no greater name.
abbrev pub NotAfter : LogFileEntry → LogFileEntry → Type 0
NotAfter e f = text_lt e.name f.name ≡ false

NotAfter-trans : (e f g : LogFileEntry) → NotAfter e f → NotAfter f g → NotAfter e g
NotAfter-trans e f g h k = elim (Bool-cases (text_lt e.name g.name)) [
  | inl less ↦ elim (text_lt-cases e.name f.name g.name less) [
    | inl below ↦ absurd (cc (below, h))
    | inr above ↦ absurd (cc (above, k))
  ]
  | inr not_less ↦ not_less
]

insert-perm : (e : LogFileEntry) (fs : List LogFileEntry) → Perm (insert e fs) (e ∷ fs)
unfolding insert
insert-perm e [] = Perm.rfl
insert-perm e (f ∷ fs) = elim (Bool-cases (text_lt e.name f.name)) [
  | inl less ↦ rw (insert, less) (Perm.trans (Perm.cons f (insert-perm e fs)) (Perm.swap e f fs))
  | inr not_less ↦ rw (insert, not_less) Perm.rfl
]

abbrev AllNotAfter : LogFileEntry → List LogFileEntry → Type 0
AllNotAfter e fs = (f : LogFileEntry) → Mem f fs → NotAfter e f

NotAfter-IsProp : (e f : LogFileEntry) → IsProp (NotAfter e f)
NotAfter-IsProp e f = hlevel

cons-NotAfter :
    (e f : LogFileEntry) (fs : List LogFileEntry)
    → NotAfter e f
    → AllNotAfter e fs
    → AllNotAfter e (f ∷ fs)
cons-NotAfter e f fs h hs = (forall_mem-cons (NotAfter-IsProp e)).1 (h, hs)

insert-IsSorted :
    (e : LogFileEntry) (fs : List LogFileEntry)
    → Pairwise NotAfter fs
    → Pairwise NotAfter (insert e fs)
unfolding insert
insert-IsSorted e [] h = Pairwise-singleton _ e
insert-IsSorted e (f ∷ fs) (Pairwise.cons below sorted) =
    elim (Bool-cases (text_lt e.name f.name)) [
      | inl less ↦
          rw (insert, less)
            (Pairwise.cons
              (λ g m.
                cons-NotAfter f e fs (text_lt-asym e.name f.name less) below g
                  ((Perm.mem_iff (insert-perm e fs)).0 m))
              (insert-IsSorted e fs sorted))
      | inr not_less ↦
          rw (insert, not_less)
            (Pairwise.cons
              (cons-NotAfter e f fs not_less λ g m. NotAfter-trans e f g not_less (below g m))
              (Pairwise.cons below sorted))
    ]

sort_newest_lem :
    (es : List LogFileEntry) → Pairwise NotAfter (sort_newest es) × Perm (sort_newest es) es
unfolding sort_newest
sort_newest_lem [] = (Pairwise.nil, Perm.rfl)
sort_newest_lem (e ∷ es) =
    let (sorted, same) = sort_newest_lem es in
    (
      insert-IsSorted e (sort_newest es) sorted,
      Perm.trans (insert-perm e (sort_newest es)) (Perm.cons e same),
    )

-- The files that are listed are exactly the items of the directory that are files, and whose names
-- begin with the prefix and are a stem that is not empty, a dot, and the extension `log` in letters
-- of any case, each once, as its stem and its path; none has a greater name than one before it. A
-- directory that cannot be read has none.
pub list_log_files_lem :
    (items : List Item) (prefix : Text)
    → ((es : List LogFileEntry) × Picks prefix items es
        × Perm (list_log_files (some items) prefix) es)
      × Pairwise NotAfter (list_log_files (some items) prefix)
      × (list_log_files none prefix ≡ [])
unfolding list_log_files
list_log_files_lem items prefix =
    let es = map entry_of_item (filter (is_log_file prefix) items) in
    let (sorted, same) = sort_newest_lem es in ((es, filter-Picks prefix items, same), sorted, refl)
