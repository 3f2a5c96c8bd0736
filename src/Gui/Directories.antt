-- ===== src/Gui/Directories.antt =====
-- The home directories that the front end suggests (wftpg/src/ui/suggested_dirs.rs). What the
-- system says of paths, users and groups are parameters.
use Prim.Native.Nat.{bit_and}
use wftpd_linux.Base.{
  ℕ, ◌≡◌, ◌≢◌, refl, Bool, true, false, not, ◌&&◌, ◌||◌, Bool-cases, inl, inr, Option, none, some,
  List, [], ◌∷◌, ◌++◌, Text, text, any, is_empty, if◌then◌else◌, ◌==◌, arith,
}

pub record Metadata : Type 0 where
  pub is_dir : Bool
  pub mode : ℕ
  pub uid : ℕ
  pub gid : ℕ

pub record Surroundings : Type 0 where
  pub exists : Text → Bool
  pub parent : Text → Option Text
  pub metadata : Text → Option Metadata
  pub getuid : ℕ
  pub getgroups : Option (List ℕ)
  pub home : Option Text

abbrev has : ℕ → ℕ → Bool
has mode bits = not (bit_and mode bits == 0)

abbrev in_group : ℕ → List ℕ → Bool
in_group gid groups = any (λ g. g == gid) groups

abbrev by_group : Metadata → Bool → Option (List ℕ) → Bool
by_group m world none = world
by_group m world (some groups) =
    if in_group m.gid groups then has m.mode 0o040 && has m.mode 0o010 else world

abbrev by_class : Surroundings → Metadata → Bool
by_class w m =
    let world = has m.mode 0o004 && has m.mode 0o001 in
    if world
    then true
    else if m.uid == w.getuid
    then has m.mode 0o400 && has m.mode 0o100
    else by_group m world w.getgroups

abbrev of_metadata : Surroundings → Option Metadata → Bool
of_metadata w none = false
of_metadata w (some m) = if not m.is_dir then false else by_class w m

abbrev of_parent : Surroundings → Option Text → Bool
of_parent w none = false
of_parent w (some p) = w.exists p && of_metadata w (w.metadata p)

-- A parent is only looked at if it exists, so that the call does not nest any further.
unfoldable pub check_dir_permission : Surroundings → Text → Bool
check_dir_permission w path =
    if not (w.exists path) then of_parent w (w.parent path) else of_metadata w (w.metadata path)

-- A path, its description, and the label of its permissions.
abbrev Suggestion : Type 0
Suggestion = Text × Text × Text

abbrev suggestion : Text → Text → Suggestion
suggestion path desc = (path, desc, text "读写")

abbrev ends_in_slash : Text → Bool
ends_in_slash [] = false
ends_in_slash (c ∷ []) = c == 47
ends_in_slash (c ∷ d ∷ s) = ends_in_slash (d ∷ s)

-- `Path::join` of a relative path.
abbrev join_text : Text → Text → Text
join_text dir name =
    if is_empty dir || ends_in_slash dir then dir ++ name else dir ++ text "/" ++ name

-- A directory in the home directory, if it is there.
abbrev offered : Surroundings → Text → Text → List Suggestion
offered w path desc =
    if w.exists path && check_dir_permission w path then suggestion path desc ∷ [] else []

abbrev of_share : Surroundings → Text → Text → List Suggestion
of_share w home share =
    if w.exists share && check_dir_permission w share
    then suggestion share (text "默认共享目录") ∷ []
    else if check_dir_permission w home
    then suggestion share (text "默认共享目录(待创建)") ∷ []
    else []

abbrev of_home : Surroundings → Option Text → List Suggestion
of_home w none = []
of_home w (some home) =
    (if check_dir_permission w home then suggestion home (text "用户主目录") ∷ [] else [])
    ++ offered w (join_text home (text "Desktop")) (text "桌面")
    ++ offered w (join_text home (text "Documents")) (text "文档")
    ++ offered w (join_text home (text "Downloads")) (text "下载")
    ++ of_share w home (join_text home (text "Desktop/文件共享"))

abbrev or_temporary : List Suggestion → List Suggestion
or_temporary [] = suggestion (text "/tmp") (text "临时目录") ∷ []
or_temporary (d ∷ dirs) = d ∷ dirs

unfoldable pub get_suggested_directories : Surroundings → List Suggestion
get_suggested_directories w = or_temporary (of_home w w.home)

-- How the system decides: the class of the user alone counts, and reading and entering want both
-- bits of it.
abbrev allowed : Surroundings → Metadata → List ℕ → Bool
allowed w m groups =
    if m.uid == w.getuid
    then has m.mode 0o400 && has m.mode 0o100
    else if in_group m.gid groups
    then has m.mode 0o040 && has m.mode 0o010
    else has m.mode 0o004 && has m.mode 0o001

-- For a directory that exists and groups that are known, the check is wider than the decision of
-- the system by the directories that all others may read and enter.
check_dir_permission_lem :
    (w : Surroundings) (path : Text) (m : Metadata) (groups : List ℕ)
    → w.exists path ≡ true
    → w.metadata path ≡ some m
    → m.is_dir ≡ true
    → w.getgroups ≡ some groups
    → check_dir_permission w path ≡ ((has m.mode 0o004 && has m.mode 0o001) || allowed w m groups)
unfolding check_dir_permission
check_dir_permission_lem w path m groups there found dir known =
    elim (Bool-cases (has m.mode 0o004 && has m.mode 0o001)) [
      | inl open_to_all ↦ rw (there, found, dir, known, open_to_all) refl
      | inr closed ↦ rw (there, found, dir, known, closed) (ground arith)
    ]

or_temporary-some : (dirs : List Suggestion) → or_temporary dirs ≢ []
or_temporary-some [] e = absurd cc
or_temporary-some (d ∷ dirs) e = absurd cc

-- There always is a suggestion.
suggested-some : (w : Surroundings) → get_suggested_directories w ≢ []
unfolding get_suggested_directories
suggested-some w = or_temporary-some (of_home w w.home)
