-- ===== src/Paths/Names/Splitting.antt =====
-- What is found where a text is split at the last of a character.
use wftpd_linux.Base.{
  ℕ, ◌≡◌, refl, ap, ◌∙◌, inl, inr, Option, none, some, Text, [], ◌∷◌, ◌++◌, Bool-cases, ◌==◌,
  ==_iff,
}
use wftpd_linux.Paths.Names.{or_here, split_last}

-- The text that was split.
abbrev joined : ℕ → Option (Text × Text) → Text
joined c none = []
joined c (some (a, b)) = a ++ c ∷ b

or_here-joined :
    (c d : ℕ) (s a b : Text) (o : Option (Text × Text))
    → ((x y : Text) → o ≡ some (x, y) → s ≡ x ++ c ∷ y)
    → or_here c d s o ≡ some (a, b)
    → d ∷ s ≡ a ++ c ∷ b
or_here-joined c d s a b none inner h = elim (Bool-cases (d == c)) [
  | inl same ↦
      let here : some ([], s) ≡ some (a, b) = rw same at h in
      ap (λ x. x ∷ s) ((==_iff d c).0 same) ∙ ap (joined c) here
  | inr other ↦
      let clash : ◌≡◌ {A = Option (Text × Text)} none (some (a, b)) = rw other at h in absurd cc
]
or_here-joined c d s a b (some (x, y)) inner h = ap (◌∷◌ d) (inner x y refl) ∙ ap (joined c) h

-- A split is at the character.
pub split_last-joined : (c : ℕ) (s a b : Text) → split_last c s ≡ some (a, b) → s ≡ a ++ c ∷ b
unfolding split_last
split_last-joined c [] a b h = absurd cc
split_last-joined c (d ∷ s) a b h =
    or_here-joined c d s a b (split_last c s) (λ x y e. split_last-joined c s x y e) h

-- It is at the last one.
pub split_last-append :
    (c : ℕ) (a b : Text) → split_last c b ≡ none → split_last c (a ++ c ∷ b) ≡ some (a, b)
unfolding split_last
split_last-append c [] b last = rw (last, (==_iff c c).1 refl) refl
split_last-append c (d ∷ a) b last = rw (split_last-append c a b last) refl
