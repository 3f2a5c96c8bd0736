-- ===== src/Paths/Within.antt =====
-- The loop of the path resolvers stays below the root it starts from.
use wftpd_linux.Base.{
  ◌≡◌, refl, sym, ap, ◌∙◌, true, false, none, some, List, [], ◌∷◌, ◌++◌, map, append-nil,
  append_assoc, ◌⊎◌, Text, text_eq_sound, text_eq_refl, Bool-cases, inl, inr, map-append,
}
use wftpd_linux.Paths.{
  Component, root_dir, cur_dir, parent_dir, normal, PathBuf, component_eq, path_eq, push, pop, walk,
  parent,
}

-- The path is the root followed by names only: no `..`, no second root.
abbrev pub Within : PathBuf → PathBuf → Type 0
Within root p = (names : List Text) × (p ≡ root ++ map normal names)

pub home-Within : (root : PathBuf) → Within root root
home-Within root = ([], sym (append-nil root))

pub component_eq_sound : (c d : Component) → component_eq c d ≡ true → c ≡ d
component_eq_sound root_dir root_dir h = refl
component_eq_sound cur_dir cur_dir h = refl
component_eq_sound parent_dir parent_dir h = refl
component_eq_sound (normal s) (normal t) h = ap normal (text_eq_sound s t h)
component_eq_sound root_dir cur_dir h = cc
component_eq_sound root_dir parent_dir h = cc
component_eq_sound root_dir (normal t) h = cc
component_eq_sound cur_dir root_dir h = cc
component_eq_sound cur_dir parent_dir h = cc
component_eq_sound cur_dir (normal t) h = cc
component_eq_sound parent_dir root_dir h = cc
component_eq_sound parent_dir cur_dir h = cc
component_eq_sound parent_dir (normal t) h = cc
component_eq_sound (normal s) root_dir h = cc
component_eq_sound (normal s) cur_dir h = cc
component_eq_sound (normal s) parent_dir h = cc

pub component_eq_refl : (c : Component) → component_eq c c ≡ true
component_eq_refl root_dir = refl
component_eq_refl cur_dir = refl
component_eq_refl parent_dir = refl
component_eq_refl (normal s) = text_eq_refl s

pub path_eq_refl : (p : PathBuf) → path_eq p p ≡ true
path_eq_refl [] = refl
path_eq_refl (c ∷ p) = rw (component_eq_refl c, path_eq_refl p)

abbrev drop_last : List Text → List Text
drop_last [] = []
drop_last (w ∷ []) = []
drop_last (w ∷ v ∷ ws) = w ∷ drop_last (v ∷ ws)

pop-names :
    (w : Text) (ws : List Text) → pop (map normal (w ∷ ws)) ≡ map normal (drop_last (w ∷ ws))
unfolding pop
pop-names w [] = refl
pop-names w (v ∷ ws) = ap (◌∷◌ (normal w)) (pop-names v ws)

pop-append-names :
    (p : PathBuf) (w : Text) (ws : List Text)
    → pop (p ++ map normal (w ∷ ws)) ≡ p ++ map normal (drop_last (w ∷ ws))
unfolding pop
pop-append-names [] w ws = pop-names w ws
pop-append-names (c ∷ []) w ws = ap (◌∷◌ c) (pop-names w ws)
pop-append-names (c ∷ d ∷ p) w ws = ap (◌∷◌ c) (pop-append-names (d ∷ p) w ws)

-- `pop` leaves a path that is not the root itself below the root.
pop-Within : (root p : PathBuf) → path_eq p root ≡ false → Within root p → Within root (pop p)
pop-Within root p differs ([], e) =
    absurd (let eq : path_eq p root ≡ true = rw (e, append-nil) (path_eq_refl root) in cc)
pop-Within root p differs (w ∷ ws, e) = (drop_last (w ∷ ws), ap pop e ∙ pop-append-names root w ws)

push-Within : (root p : PathBuf) (w : Text) → Within root p → Within root (push p w)
push-Within root p w (ws, e) = (ws ++ w ∷ [], rw (e, map-append, append_assoc))

pub walk-Within :
    (root p : PathBuf) (cs : PathBuf) {q : PathBuf}
    → Within root p
    → walk root p cs ≡ some q
    → Within root q
unfolding walk
walk-Within root p [] below e = (below.0, cc (below.1))
walk-Within root p (normal w ∷ cs) below e =
    walk-Within root (push p w) cs (push-Within root p w below) e
walk-Within root p (cur_dir ∷ cs) below e = walk-Within root p cs below e
walk-Within root p (parent_dir ∷ cs) {q} below e = elim (Bool-cases (path_eq p root)) [
  | inl same ↦ absurd (let stuck : none ≡ some q = rw same at e in cc)
  | inr differs ↦ walk-Within root (pop p) cs (pop-Within root p differs below) (rw differs at e)
]
walk-Within root p (root_dir ∷ cs) below e = absurd (cc)

parent-names :
    (root : PathBuf) (w : Text) (ws : List Text)
    → parent (root ++ map normal (w ∷ ws)) ≡ some (pop (root ++ map normal (w ∷ ws)))
parent-names [] w ws = refl
parent-names (root_dir ∷ []) w ws = refl
parent-names (root_dir ∷ c ∷ r) w ws = refl
parent-names (cur_dir ∷ r) w ws = refl
parent-names (parent_dir ∷ r) w ws = refl
parent-names (normal s ∷ r) w ws = refl

-- The parent of a path below the root is below it, but for that of the root itself.
pub parent-Within :
    (root p d : PathBuf)
    → Within root p
    → parent p ≡ some d
    → Within root d ⊎ (parent root ≡ some d)
parent-Within root p d ([], at) e = inr (ap parent (sym (at ∙ append-nil root)) ∙ e)
parent-Within root p d (w ∷ ws, at) e =
    let up : some (pop (root ++ map normal (w ∷ ws))) ≡ some d =
      sym (parent-names root w ws) ∙ ap parent (sym at) ∙ e in
    let popped = pop-append-names root w ws in inl (drop_last (w ∷ ws), cc)
