-- ===== src/Logs/Ring.antt =====
-- The bounded `VecDeque` that both logs keep: a push on a full queue first drops the front.
use wftpd_linux.Base.{
  ℕ, ◌<◌, ◌⊎◌, inl, inr, ◌-◌, ◌≤◌, ◌≡◌, refl, sym, ap, ◌∙◌, true, false, leb, if◌then◌else◌, List,
  [], ◌∷◌, ◌++◌, length, drop, last_n, last_n-last_n, last_n-short, length-last_n, length-append,
  append_assoc, append-nil, arith,
}

unfoldable pub push_bounded : {A : Type 0} → ℕ → A → List A → List A
push_bounded max x xs = (if leb max (length xs) then drop 1 xs else xs) ++ x ∷ []

-- A run of pushes.
unfoldable pub push_all : {A : Type 0} → ℕ → List A → List A → List A
push_all max [] queue = queue
push_all max (x ∷ xs) queue = push_all max xs (push_bounded max x queue)

drop-snoc :
    {A : Type 0} (x : A) (xs : List A) → 0 < length xs → drop 1 xs ++ x ∷ [] ≡ drop 1 (xs ++ x ∷ [])
drop-snoc x (y ∷ xs) h = refl
drop-snoc x [] h = absurd (omega arith)

at-cases : (max n : ℕ) → ((max ≤ n) × (leb max n ≡ true)) ⊎ ((n < max) × (leb max n ≡ false))
at-cases max n = ground arith

-- A push on a queue that is not over its bound keeps the last elements.
push-last :
    {A : Type 0} (max : ℕ) (x : A) (xs : List A)
    → 0 < max
    → length xs ≤ max
    → push_bounded max x xs ≡ last_n max (xs ++ x ∷ [])
unfolding push_bounded last_n
push-last max x xs room bound =
    let long = length-append xs (x ∷ []) in
    elim (at-cases max (length xs)) [
      | inl (full, tested) ↦
          let one : 1 ≡ length (xs ++ x ∷ []) - max = omega arith in
          rw tested (drop-snoc x xs (omega arith) ∙ ap (λ k. drop k (xs ++ x ∷ [])) one)
      | inr (free, tested) ↦ rw tested (sym (last_n-short max (xs ++ x ∷ []) (omega arith)))
    ]

-- A queue holds the last elements that were pushed, as many as its bound allows.
pub push_all-last :
    {A : Type 0} (max : ℕ) (xs before : List A)
    → 0 < max
    → push_all max xs (last_n max before) ≡ last_n max (before ++ xs)
unfolding push_all
push_all-last max [] before room = ap (last_n max) (sym (append-nil before))
push_all-last max (x ∷ xs) before room =
    let measure = length-last_n max before in
    ap (push_all max xs) (
      push-last max x (last_n max before) room (omega arith)
      ∙ last_n-last_n max max before (x ∷ []) (omega arith))
    ∙ push_all-last max xs (before ++ x ∷ []) room
    ∙ ap (last_n max) (append_assoc before (x ∷ []) xs)

pub push_all_lem :
    {A : Type 0} (max : ℕ) (xs : List A) → 0 < max → push_all max xs [] ≡ last_n max xs
push_all_lem max xs room =
    ap (push_all max xs) (sym (last_n-short max [] (omega arith))) ∙ push_all-last max xs [] room
