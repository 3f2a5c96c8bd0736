-- ===== src/Sftp/Logic.antt =====
-- Rules for what holds of a handler: of its requests, its results and the session that it leaves.
use wftpd_linux.Base.{◌≡◌, refl, Bool, true, false, Option, none, some, if◌then◌else◌}
use wftpd_linux.Outcome.{Result, ok, err}
use wftpd_linux.Os.{Effect, Reply, Always, IoResult}
use wftpd_linux.Os.Rules.{Always-bind}
use wftpd_linux.Sftp.Session.{
  Session, StatusCode, M, ◌>>=◌, pure, fail, request, get, put, next, io, io_or, some_or,
}

-- `Ok` is the invariant of the session, which an error keeps too.
module _ (Admits : (e : Effect) → Reply e → Type 0) (P : Effect → Type 0)
    (Ok : Session → Type 0) where
  abbrev pub Post : {A : Type 0} → (A → Session → Type 0) → Result StatusCode A × Session → Type 0
  Post Q (ok a, s) = Q a s
  Post Q (err c, s) = Ok s

  abbrev pub Triple : {A : Type 0} → (Session → Type 0) → (A → Session → Type 0) → M A → Type 0
  Triple Pre Q m = (s : Session) → Pre s → Always Admits P (Post Q) (m s)

  -- A handler that keeps the invariant and returns a value of which `F` holds.
  pub record Sat {A : Type 0} (F : A → Type 0) (m : M A) : Type 0 where
    pub sat : Triple Ok (λ a s. F a × Ok s) m

  pub Triple-bind :
      {A B : Type 0} (Pre : Session → Type 0) (R : A → Session → Type 0) (Q : B → Session → Type 0)
      (m : M A) (f : A → M B)
      → Triple Pre R m
      → ((a : A) → Triple (R a) Q (f a))
      → Triple Pre Q (m >>= f)
  unfolding ◌>>=◌
  Triple-bind {A} {B} Pre R Q m f h k s pre =
      Always-bind Admits P (Post R) (Post Q) (m s) (next f) (h s pre) continue
    where
      continue :
          (t : Result StatusCode A × Session) → Post R t → Always Admits P (Post Q) (next f t)
      continue (ok a, s') q = k a s' q
      continue (err c, s') q = q

module _ {Admits : (e : Effect) → Reply e → Type 0} {P : Effect → Type 0}
    {Ok : Session → Type 0} where
  pub Sat-bind :
      {A B : Type 0} {F : A → Type 0} {G : B → Type 0} {m : M A} {f : A → M B}
      → Sat Admits P Ok F m
      → ((a : A) → F a → Sat Admits P Ok G (f a))
      → Sat Admits P Ok G (m >>= f)
  Sat-bind {A} {B} {F} {G} {m} {f} h k = record {
    sat =
        Triple-bind Admits P Ok Ok (λ a s. F a × Ok s) (λ b s. G b × Ok s) m f h.sat
          (λ a s q. (k a q.0).sat s q.1);
  }

  pub Sat-pure : {A : Type 0} {F : A → Type 0} (a : A) → F a → Sat Admits P Ok F (pure a)
  unfolding pure
  Sat-pure a h = record { sat = λ s v. (h, v) }

  pub Sat-fail : {A : Type 0} {F : A → Type 0} (c : StatusCode) → Sat Admits P Ok F (fail c)
  unfolding fail
  Sat-fail c = record { sat = λ s v. v }

  pub Sat-request : (e : Effect) → P e → Sat Admits P Ok (Admits e) (request e)
  unfolding request
  Sat-request e h = record { sat = λ s v. (h, λ r adm. (adm, v)) }

  pub Sat-request_any : (e : Effect) → P e → Sat Admits P Ok (λ _. Unit {0}) (request e)
  unfolding request
  Sat-request_any e h = record { sat = λ s v. (h, λ r adm. (tt, v)) }

  pub Sat-get : Sat Admits P Ok Ok get
  unfolding get
  Sat-get = record { sat = λ s v. (v, v) }

  pub Sat-put : (s : Session) → Ok s → Sat Admits P Ok (λ _. Unit {0}) (put s)
  unfolding put
  Sat-put s h = record { sat = λ s' v. (tt, h) }

  pub Sat-io : {A : Type 0} (r : IoResult A) → Sat Admits P Ok (λ a. r ≡ ok a) (io r)
  unfolding io pure fail
  Sat-io (ok a) = record { sat = λ s v. (refl, v) }
  Sat-io (err e) = record { sat = λ s v. v }

  pub Sat-io_any : {A : Type 0} (r : IoResult A) → Sat Admits P Ok (λ _. Unit {0}) (io r)
  unfolding io pure fail
  Sat-io_any (ok a) = record { sat = λ s v. (tt, v) }
  Sat-io_any (err e) = record { sat = λ s v. v }

  pub Sat-io_or :
      {A : Type 0} (c : StatusCode) (r : IoResult A) → Sat Admits P Ok (λ a. r ≡ ok a) (io_or c r)
  unfolding io_or pure fail
  Sat-io_or c (ok a) = record { sat = λ s v. (refl, v) }
  Sat-io_or c (err e) = record { sat = λ s v. v }

  pub Sat-some_or :
      {A : Type 0} {F : A → Type 0} (c : StatusCode) (r : Option A)
      → ((a : A) → r ≡ some a → F a)
      → Sat Admits P Ok F (some_or c r)
  unfolding some_or pure fail
  Sat-some_or c (some a) h = record { sat = λ s v. (h a refl, v) }
  Sat-some_or c none h = record { sat = λ s v. v }

  pub Sat-if :
      {A : Type 0} {F : A → Type 0} (b : Bool) {m n : M A}
      → (b ≡ true → Sat Admits P Ok F m)
      → (b ≡ false → Sat Admits P Ok F n)
      → Sat Admits P Ok F (if b then m else n)
  Sat-if true h k = h refl
  Sat-if false h k = k refl
