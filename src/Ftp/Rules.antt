-- ===== src/Ftp/Rules.antt =====
-- Rules for what holds of the requests of a storage operation.
use wftpd_linux.Base.{◌≡◌, refl, Bool, true, false, Option, none, some, if◌then◌else◌}
use wftpd_linux.Outcome.{Result, ok, err}
use wftpd_linux.Os.{Effect, Reply, Prog, ret, call, Always, IoResult}
use wftpd_linux.Os.Rules.{Always-bind}
use wftpd_linux.Ftp.Monad.{
  StorageResult, ErrorKind, ◌>>=◌, next, pure, fail, request, io, some_or, require,
}

-- Every reply may come.
abbrev pub Any : (e : Effect) → Reply e → Type 0
Any e r = Unit {0}

abbrev OnOk : {A : Type 0} → (A → Type 0) → Result ErrorKind A → Type 0
OnOk F (ok a) = F a
OnOk F (err e) = Unit {0}

-- An operation whose requests all satisfy `P`, and whose value satisfies `F`, if it returns one.
pub record Sat (P : Effect → Type 0) {A : Type 0} (F : A → Type 0) (m : StorageResult A)
    : Type 0 where
  pub sat : Always Any P (OnOk F) m

module _ {P : Effect → Type 0} where
  pub Sat-bind :
      {A B : Type 0} {F : A → Type 0} {G : B → Type 0} {m : StorageResult A}
      {f : A → StorageResult B}
      → Sat P F m
      → ((a : A) → F a → Sat P G (f a))
      → Sat P G (m >>= f)
  unfolding ◌>>=◌
  Sat-bind {A} {B} {F} {G} {m} {f} h k = record {
    sat = Always-bind Any P (OnOk F) (OnOk G) m (next f) h.sat continue;
  }
    where
      continue : (t : Result ErrorKind A) → OnOk F t → Always Any P (OnOk G) (next f t)
      continue (ok a) q = (k a q).sat
      continue (err c) q = tt

  pub Sat-pure : {A : Type 0} (a : A) → Sat P (λ _. Unit {0}) (pure a)
  unfolding pure
  Sat-pure a = record { sat = tt }

  pub Sat-fail : {A : Type 0} {F : A → Type 0} (c : ErrorKind) → Sat P F (fail c)
  unfolding fail
  Sat-fail c = record { sat = tt }

  pub Sat-request : (e : Effect) → P e → Sat P (λ _. Unit {0}) (request e)
  unfolding request
  Sat-request e h = record { sat = (h, λ r adm. tt) }

  pub Sat-io : {A : Type 0} (r : IoResult A) → Sat P (λ _. Unit {0}) (io r)
  unfolding io pure fail
  Sat-io (ok a) = record { sat = tt }
  Sat-io (err e) = record { sat = tt }

  pub Sat-some_or :
      {A : Type 0} {F : A → Type 0} (c : ErrorKind) (o : Option A)
      → ((a : A) → o ≡ some a → F a)
      → Sat P F (some_or c o)
  unfolding some_or pure fail
  Sat-some_or c (some a) h = record { sat = h a refl }
  Sat-some_or c none h = record { sat = tt }

  pub Sat-require : (b : Bool) → Sat P (λ _. b ≡ true) (require b)
  unfolding require pure fail
  Sat-require true = record { sat = refl }
  Sat-require false = record { sat = tt }

  pub Sat-if :
      {A : Type 0} {F : A → Type 0} (b : Bool) {m n : StorageResult A}
      → Sat P F m
      → Sat P F n
      → Sat P F (if b then m else n)
  Sat-if true h k = h
  Sat-if false h k = k

-- The requests alone.
forget :
    (P : Effect → Type 0) {A : Type 0} (F : A → Type 0) (m : Prog (Result ErrorKind A))
    → Always Any P (OnOk F) m
    → Always Any P (λ _. Unit {0}) m
forget P F (ret a) h = tt
forget P F (call e k) h = (h.0, λ r adm. forget P F (k r) (h.1 r adm))

pub requests_of :
    {P : Effect → Type 0} {A : Type 0} {F : A → Type 0} {m : StorageResult A}
    → Sat P F m
    → Always Any P (λ _. Unit {0}) m
requests_of {P} {A} {F} {m} h = forget P F m h.sat
