-- ===== src/Os/Run.antt =====
-- Running a program against a world, and that what `Always` says holds in every run.
use wftpd_linux.Base.{List, [], ◌∷◌, All}
use wftpd_linux.Os.{Effect, Reply, Prog, ret, call, Always}

-- A world answers each request and moves on. A run gives the requests that were made, in their
-- order, and the result.
module _ {W : Type 0} (world : W → (e : Effect) → Reply e × W) where
  unfoldable pub run : {A : Type 0} → Prog A → W → List Effect × A
  run (ret a) x = ([], a)
  run (call e k) x = let rest = run (k (world x e).0) (world x e).1 in (e ∷ rest.0, rest.1)

  pub Always-run :
      (Admits : (e : Effect) → Reply e → Type 0) (P : Effect → Type 0) {A : Type 0} (Q : A → Type 0)
      (m : Prog A)
      → ((x : W) (e : Effect) → Admits e (world x e).0)
      → Always Admits P Q m
      → (x : W) → All P (run m x).0 × Q (run m x).1
  unfolding run
  Always-run Admits P Q (ret a) fair h x = (tt, h)
  Always-run Admits P Q (call e k) fair h x =
      let rest = Always-run Admits P Q (k (world x e).0) fair (h.1 _ (fair x e)) (world x e).1 in
      ((h.0, rest.0), rest.1)
