-- ===== src/Outcome.antt =====
-- `Result`, with the `?` operator as bind.
use wftpd_linux.Base.{Bool, true, false, ◌≡◌, refl, ◌⊎◌, inl, inr}

pub data Result (E A : Type 0) : Type 0 where
  ok : A → Result E A
  err : E → Result E A

module _ {E A B : Type 0} where
  infixl 5 ◌>>=◌
  abbrev pub ◌>>=◌ : Result E A → (A → Result E B) → Result E B
  ok a >>= f = f a
  err e >>= f = err e

module _ {E B : Type 0} where
  infixl 5 ◌>>◌
  abbrev pub ◌>>◌ : Result E (Unit {0}) → Result E B → Result E B
  m >> k = m >>= λ _. k

-- An early `return Err(e)` if the test fails.
abbrev pub require : {E : Type 0} → Bool → E → Result E (Unit {0})
require true e = ok tt
require false e = err e

pub Result-cases :
    {E A : Type 0} (r : Result E A) → ((a : A) × (r ≡ ok a)) ⊎ ((e : E) × (r ≡ err e))
Result-cases (ok a) = inl (a, refl)
Result-cases (err e) = inr (e, refl)

-- A chain that succeeds has passed its first test.
pub after_require :
    {E A : Type 0} (b : Bool) (e : E) (k : Result E A) (a : A)
    → require b e >> k ≡ ok a
    → (b ≡ true) × (k ≡ ok a)
after_require true e k a h = (refl, h)
after_require false e k a h = absurd cc

pub after_test :
    {E A : Type 0} (r : Result E (Unit {0})) (k : Result E A) (a : A)
    → r >> k ≡ ok a
    → (r ≡ ok tt) × (k ≡ ok a)
after_test (ok tt) k a h = (refl, h)
after_test (err e) k a h = absurd cc
