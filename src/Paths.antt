-- ===== src/Paths.antt =====
-- `std::path` on Unix, as far as the servers use it: components, `join`, `strip_prefix`, `push`,
-- `pop`, and the loop that both servers run to keep a client's path below a root
-- (sftp/src/ops/mod.rs, sftp/src/ops/protocol.rs, ftp/src/storage.rs). A `PathBuf` is modelled by
-- its components, by which the library compares, joins and strips paths.
pub mod Within
pub mod Names
pub mod Installation
use wftpd_linux.Base.{
  ℕ, ◌-◌, ◌≡◌, Bool, true, false, ◌&&◌, Option, none, some, List, [], ◌∷◌, ◌++◌, Text, text,
  text_eq, is_empty, starts_with, if◌then◌else◌, ◌==◌,
}

pub data Component : Type 0 where
  root_dir cur_dir parent_dir : Component
  normal : Text → Component

abbrev pub PathBuf : Type 0
PathBuf = List Component

abbrev pub component_eq : Component → Component → Bool
component_eq root_dir root_dir = true
component_eq cur_dir cur_dir = true
component_eq parent_dir parent_dir = true
component_eq (normal s) (normal t) = text_eq s t
component_eq _ _ = false

abbrev pub path_eq : PathBuf → PathBuf → Bool
path_eq [] [] = true
path_eq (c ∷ p) (d ∷ q) = component_eq c d && path_eq p q
path_eq _ _ = false

abbrev cons_head : ℕ → List Text → List Text
cons_head c [] = (c ∷ []) ∷ []
cons_head c (w ∷ ws) = (c ∷ w) ∷ ws

-- `str::split` at a character.
abbrev pub split : ℕ → Text → List Text
split sep [] = [] ∷ []
split sep (c ∷ s) = let rest = split sep s in if c == sep then [] ∷ rest else cons_head c rest

-- A segment behind the first one: empty ones and `.` are skipped.
abbrev pub segment : Text → PathBuf → PathBuf
segment w p =
    if is_empty w
    then p
    else if text_eq w (text ".")
    then p
    else if text_eq w (text "..")
    then parent_dir ∷ p
    else normal w ∷ p

abbrev pub body : List Text → PathBuf
body [] = []
body (w ∷ ws) = segment w (body ws)

-- A relative path keeps a leading `.`.
abbrev pub relative : List Text → PathBuf
relative [] = []
relative (w ∷ ws) = if text_eq w (text ".") then cur_dir ∷ body ws else body (w ∷ ws)

-- `Path::components`
abbrev pub components : Text → PathBuf
components t =
    if starts_with b'/' t then root_dir ∷ body (split b'/' t) else relative (split b'/' t)

abbrev pub is_absolute : PathBuf → Bool
is_absolute (root_dir ∷ p) = true
is_absolute _ = false

abbrev pub skip_cur_dir : PathBuf → PathBuf
skip_cur_dir (cur_dir ∷ q) = q
skip_cur_dir q = q

-- `Path::join`: an absolute argument replaces the path, and `.` is no component behind another one.
unfoldable pub join : PathBuf → PathBuf → PathBuf
join [] q = q
join (c ∷ p) q = if is_absolute q then q else (c ∷ p) ++ skip_cur_dir q

-- `Path::strip_prefix`
unfoldable pub strip_prefix : PathBuf → PathBuf → Option PathBuf
strip_prefix [] q = some q
strip_prefix (c ∷ p) [] = none
strip_prefix (c ∷ p) (d ∷ q) =
    let rest = strip_prefix p q in if component_eq c d then rest else none

-- `.strip_prefix(base).unwrap_or(path)`
unfoldable pub strip_or_self : PathBuf → PathBuf → PathBuf
unfolding strip_prefix
strip_or_self base p = elim (strip_prefix base p) [ some rest ↦ rest | none ↦ p ]

-- `PathBuf::push` of one name.
abbrev pub push : PathBuf → Text → PathBuf
push p w = p ++ normal w ∷ []

-- `PathBuf::pop`: the root stays.
unfoldable pub pop : PathBuf → PathBuf
pop [] = []
pop (root_dir ∷ []) = root_dir ∷ []
pop (c ∷ []) = []
pop (c ∷ d ∷ p) = c ∷ pop (d ∷ p)

-- `Path::parent`
abbrev pub parent : PathBuf → Option PathBuf
parent [] = none
parent (root_dir ∷ []) = none
parent (c ∷ p) = some (pop (c ∷ p))

-- The loop over the components: `normalized` starts at the root, and `..` may not leave it. The
-- code's two error branches return the same error, here `none`.
unfoldable pub walk : PathBuf → PathBuf → PathBuf → Option PathBuf
walk root normalized [] = some normalized
walk root normalized (normal w ∷ cs) = walk root (push normalized w) cs
walk root normalized (cur_dir ∷ cs) = walk root normalized cs
walk root normalized (parent_dir ∷ cs) =
    let rest = walk root (pop normalized) cs in if path_eq normalized root then none else rest
walk root normalized (root_dir ∷ cs) = none
