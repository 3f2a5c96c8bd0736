-- ===== src/Os/Rules.antt =====
-- The rules of `Always`.
use wftpd_linux.Os.{Effect, Reply, Prog, ret, call, bind, Always}

module _ (Admits : (e : Effect) → Reply e → Type 0) (P : Effect → Type 0) {A B : Type 0} where
  pub Always-bind :
      (R : A → Type 0) (Q : B → Type 0) (m : Prog A) (f : A → Prog B)
      → Always Admits P R m
      → ((a : A) → R a → Always Admits P Q (f a))
      → Always Admits P Q (bind m f)
  Always-bind R Q (ret a) f h k = k a h
  Always-bind R Q (call e m) f h k = (h.0, λ r adm. Always-bind R Q (m r) f (h.1 r adm) k)
