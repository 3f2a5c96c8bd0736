-- ===== src/Base/Lists.antt =====
-- Lists measured by native numbers, under the library's names, and predicates on lists.
use Prim.Native.Nat.{ℕ, zero, suc, ◌+◌, ◌-◌, min}
use mathlib.Core.Path.{◌≡◌, refl, sym, ap, ◌∙◌}
use mathlib.Core.Logic.{inl, inr}
use Prim.Native.Nat.{◌≤◌}
use mathlib.Core.Bool.{Bool, true, false, ◌&&◌, ◌||◌}
use mathlib.Core.List.{
  List, [], ◌∷◌, ◌++◌, append_assoc, append-nil, reverse, reverse-cons, reverse-append,
}
use native.Mathlib.Omega.{arith}
use wftpd_linux.Base.Tests.{le-cases}

module _ {ℓ} {A : Type ℓ} where
  abbrev pub length : List A → ℕ
  length [] = 0
  length (x ∷ xs) = suc (length xs)

  abbrev pub take : ℕ → List A → List A
  take zero xs = []
  take (suc n) [] = []
  take (suc n) (x ∷ xs) = x ∷ take n xs

  abbrev pub drop : ℕ → List A → List A
  drop zero xs = xs
  drop (suc n) [] = []
  drop (suc n) (x ∷ xs) = drop n xs

  -- `iter().any` and `iter().all`.
  abbrev pub any : (A → Bool) → List A → Bool
  any p [] = false
  any p (x ∷ xs) = p x || any p xs

  abbrev pub all : (A → Bool) → List A → Bool
  all p [] = true
  all p (x ∷ xs) = p x && all p xs

  abbrev pub All {κ} : (A → Type κ) → List A → Type κ
  All P [] = Unit
  All P (x ∷ xs) = P x × All P xs

module _ {ℓ} {A : Type ℓ} where
  pub length-append : (xs ys : List A) → length (xs ++ ys) ≡ length xs + length ys
  length-append [] ys = omega arith
  length-append (x ∷ xs) ys = omega (arith, length-append xs ys)

  pub length-drop : (n : ℕ) (xs : List A) → length (drop n xs) ≡ length xs - n
  length-drop zero xs = omega arith
  length-drop (suc n) [] = omega arith
  length-drop (suc n) (x ∷ xs) = omega (arith, length-drop n xs)

  pub length-take : (n : ℕ) (xs : List A) → length (take n xs) ≡ min n (length xs)
  length-take zero xs = omega arith
  length-take (suc n) [] = omega arith
  length-take (suc n) (x ∷ xs) = omega (arith, length-take n xs)

  pub All-append {κ} : (P : A → Type κ) (xs ys : List A) → All P xs → All P ys → All P (xs ++ ys)
  All-append P [] ys hx hy = hy
  All-append P (x ∷ xs) ys hx hy = (hx.0, All-append P xs ys hx.1 hy)

module _ {ℓ} {A : Type ℓ} where
  -- The last n elements.
  unfoldable pub last_n : ℕ → List A → List A
  last_n n xs = drop (length xs - n) xs

  pub take-drop : (n : ℕ) (xs : List A) → take n xs ++ drop n xs ≡ xs
  take-drop zero xs = refl
  take-drop (suc n) [] = refl
  take-drop (suc n) (x ∷ xs) = ap (λ ys. x ∷ ys) (take-drop n xs)

  drop-append :
      (n : ℕ) (xs ys : List A) → length xs ≤ n → drop n (xs ++ ys) ≡ drop (n - length xs) ys
  drop-append n [] ys h = ap (λ k. drop k ys) (omega arith)
  drop-append zero (x ∷ xs) ys h = absurd (omega arith)
  drop-append (suc n) (x ∷ xs) ys h =
      drop-append n xs ys (omega arith) ∙ ap (λ k. drop k ys) (omega arith)

  pub drop-prefix : (n : ℕ) (xs ys : List A) → n ≡ length xs → drop n (xs ++ ys) ≡ ys
  drop-prefix n xs ys h =
      let none_left : n - length xs ≡ 0 = omega arith in
      drop-append n xs ys (omega arith) ∙ ap (λ k. drop k ys) none_left

  drop-nil : (n : ℕ) → ◌≡◌ {A = List A} (drop n []) []
  drop-nil zero = refl
  drop-nil (suc n) = refl

  pub take-nil : (n : ℕ) → ◌≡◌ {A = List A} (take n []) []
  take-nil zero = refl
  take-nil (suc n) = refl

  pub drop-short : (n : ℕ) (xs : List A) → length xs ≤ n → drop n xs ≡ []
  drop-short n [] h = drop-nil n
  drop-short zero (x ∷ xs) h = absurd (omega arith)
  drop-short (suc n) (x ∷ xs) h = drop-short n xs (omega arith)

  pub drop-drop : (m n : ℕ) (xs : List A) → drop n (drop m xs) ≡ drop (m + n) xs
  drop-drop zero n xs = ap (λ k. drop k xs) (omega arith)
  drop-drop (suc m) n (x ∷ xs) =
      let next : suc (m + n) ≡ suc m + n = omega arith in
      drop-drop m n xs ∙ ap (λ k. drop k (x ∷ xs)) next
  drop-drop (suc m) n [] = drop-nil n ∙ sym (drop-nil (suc m + n))

  -- A longer prefix is a shorter one and what follows.
  pub take-more : (m n : ℕ) (xs : List A) → take m xs ++ take n (drop m xs) ≡ take (m + n) xs
  take-more zero n xs = ap (λ k. take k xs) (omega arith)
  take-more (suc m) n (x ∷ xs) =
      let next : suc (m + n) ≡ suc m + n = omega arith in
      ap (λ zs. x ∷ zs) (take-more m n xs) ∙ ap (λ k. take k (x ∷ xs)) next
  take-more (suc m) n [] = take-nil n ∙ sym (take-nil (suc m + n))

  -- What stands before is not seen.
  last_n-append : (n : ℕ) (xs ys : List A) → n ≤ length ys → last_n n (xs ++ ys) ≡ last_n n ys
  unfolding last_n
  last_n-append n xs ys h =
      let long = length-append xs ys in
      drop-append (length (xs ++ ys) - n) xs ys (omega arith) ∙ ap (λ k. drop k ys) (omega arith)

  pub last_n-short : (n : ℕ) (xs : List A) → length xs ≤ n → last_n n xs ≡ xs
  unfolding last_n
  last_n-short n xs h =
      let none_over : length xs - n ≡ 0 = omega arith in ap (λ k. drop k xs) none_over

  pub length-last_n : (n : ℕ) (xs : List A) → length (last_n n xs) ≡ min n (length xs)
  unfolding last_n
  length-last_n n xs = length-drop (length xs - n) xs ∙ omega arith

  whole : (n : ℕ) (xs : List A) → take (length xs - n) xs ++ last_n n xs ≡ xs
  unfolding last_n
  whole n xs = take-drop (length xs - n) xs

  -- A longer end keeps a shorter one.
  pub last_n-last_n :
      (k n : ℕ) (xs ys : List A)
      → k ≤ n + length ys
      → last_n k (last_n n xs ++ ys) ≡ last_n k (xs ++ ys)
  last_n-last_n k n xs ys h = elim (le-cases n (length xs)) [
    | inl long ↦
        (let measure = length-last_n n xs in
          let total = length-append (last_n n xs) ys in
          sym (last_n-append k (take (length xs - n) xs) (last_n n xs ++ ys) (omega arith))
          ∙ ap (last_n k) (
              sym (append_assoc (take (length xs - n) xs) (last_n n xs) ys)
              ∙ ap (λ zs. zs ++ ys) (whole n xs)))
    | inr short ↦ ap (λ zs. last_n k (zs ++ ys)) (last_n-short n xs (omega arith))
  ]

module _ {ℓ} {A : Type ℓ} where
  -- The last of the last.
  pub last_n-min : (k n : ℕ) (xs : List A) → last_n k (last_n n xs) ≡ last_n (min k n) xs
  last_n-min k n xs =
      let measure = length-last_n n xs in
      elim (le-cases k n) [
        | inl smaller ↦
            let least : k ≡ min k n = omega arith in
            ap (last_n k) (sym (append-nil (last_n n xs)))
            ∙ last_n-last_n k n xs [] (omega arith)
            ∙ ap (last_n k) (append-nil xs)
            ∙ ap (λ m. last_n m xs) least
        | inr larger ↦
            let least : n ≡ min k n = omega arith in
            last_n-short k (last_n n xs) (omega arith) ∙ ap (λ m. last_n m xs) least
      ]

module _ {ℓ} {A : Type ℓ} where
  length-reverse : (xs : List A) → length (reverse xs) ≡ length xs
  length-reverse [] = refl
  length-reverse (x ∷ xs) =
      ap length (reverse-cons x xs)
      ∙ length-append (reverse xs) (x ∷ [])
      ∙ omega (arith, length-reverse xs)

  pub take-append : (n : ℕ) (xs ys : List A) → n ≡ length xs → take n (xs ++ ys) ≡ xs
  take-append zero [] ys h = refl
  take-append zero (x ∷ xs) ys h = absurd (omega arith)
  take-append (suc n) [] ys h = absurd (omega arith)
  take-append (suc n) (x ∷ xs) ys h = ap (λ zs. x ∷ zs) (take-append n xs ys (omega arith))

  take-short : (n : ℕ) (xs : List A) → length xs ≤ n → take n xs ≡ xs
  take-short zero [] h = refl
  take-short zero (x ∷ xs) h = absurd (omega arith)
  take-short (suc n) [] h = refl
  take-short (suc n) (x ∷ xs) h = ap (λ zs. x ∷ zs) (take-short n xs (omega arith))

  -- The first of the reverse are the last, reversed.
  pub take-reverse : (n : ℕ) (xs : List A) → take n (reverse xs) ≡ reverse (last_n n xs)
  take-reverse n xs =
      let turned = length-reverse (last_n n xs) in
      let measure = length-last_n n xs in
      elim (le-cases n (length xs)) [
        | inl long ↦
            ap (λ zs. take n (reverse zs)) (sym (whole n xs))
            ∙ ap (take n) (reverse-append (take (length xs - n) xs) (last_n n xs))
            ∙ take-append n (reverse (last_n n xs)) _ (omega arith)
        | inr short ↦
            take-short n (reverse xs) (omega (arith, length-reverse xs))
            ∙ ap reverse (sym (last_n-short n xs (omega arith)))
      ]
