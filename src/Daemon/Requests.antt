-- ===== src/Daemon/Requests.antt =====
-- The requests of the control service that read and replace the configuration and the users, and
-- prepare directories (wftpd/src/control.rs). The state is what the requests share; the file
-- system, toml, serde_json and the paths of the two files are parameters.
pub mod Replacing
pub mod Sequence
pub mod Logging
mod Tests
use wftpd_linux.Base.{
  join, ℕ, Bool, true, false, not, Option, none, some, List, [], ◌∷◌, ◌++◌, map, Text, text,
  is_empty, if◌then◌else◌,
}
use wftpd_linux.Base.Dict.{Dict}
use wftpd_linux.Outcome.{Result, ok, err}
use wftpd_linux.Disk.{Fs, Io, ◌>>=◌, ◌>>◌, pure, map_err}
use wftpd_linux.Paths.Names.{with_extension}
use wftpd_linux.Users.{User}
use wftpd_linux.Users.Manager.{UserManager}
use wftpd_linux.Users.Manager.Saving.{users_file}
use wftpd_linux.Users.Manager.Loading.{UsersFile, missing, unreadable, content, load}
use wftpd_linux.Config.{Config, Toml, save, validate}

pub data Status : Type 0 where
  internal invalid_argument : Text → Status

-- `OpReply`
pub record OpReply : Type 0 where
  pub success : Bool
  pub message : Text

abbrev pub op_ok : Text → OpReply
op_ok message = record { success = true; message = message }

abbrev pub op_err : Text → OpReply
op_err message = record { success = false; message = message }

-- What the requests share besides the services: the configuration and the user library in memory.
pub record Shared : Type 0 where
  pub config : Config
  pub user_manager : UserManager

-- Where the two files stand, and what else the code is given.
pub record Setup : Type 1 where
  pub fs : Fs
  pub toml : Toml
  pub parse_users : Text → Option UserManager
  pub config_path : Text
  pub users_path : Text

-- `map_err(internal)`
abbrev pub or_internal : {W A : Type 0} → Io W Text A → Io W Status A
or_internal m = map_err internal m

abbrev pub lifted : {A : Type 0} → (Text → Status) → Result Text A → Result Status A
lifted f (ok a) = ok a
lifted f (err e) = err (f e)

module _ (S : Setup) where
  abbrev pub World : Type 0
  World = S.fs.World

  abbrev pub read_text : Text → Io World Status Text
  read_text path = or_internal λ w. (S.fs.read_to_string w path, w)

  abbrev pub get_config : Io World Status Text
  get_config = read_text S.config_path

  abbrev pub get_users : Io World Status Text
  get_users = read_text S.users_path

  abbrev pub get_initial_state : Io World Status (Text × Text)
  unfolding ◌>>=◌
  get_initial_state = do
    config ← read_text S.config_path
    users ← read_text S.users_path
    pure (ok (config, users))

  -- The blocking part of `save_config`.
  unfoldable pub store_config : Text → Io World Status (Config × Text)
  store_config sent = do
    new_config ← pure (lifted (λ e. invalid_argument (text "配置解析失败: " ++ e)) (S.toml.from_str sent))
    λ w. (
      lifted (λ e. invalid_argument (text "配置校验失败: " ++ e))
          (validate (S.fs.exists w) (S.fs.is_dir w) new_config),
      w,
    )
    or_internal (save S.fs S.toml new_config S.config_path)
    stored ← read_text S.config_path
    pure (ok (new_config, stored))

  -- The answer, the shared state and the world.
  abbrev pub with_config :
      Shared → Result Status (Config × Text) × World → Result Status Text × Shared × World
  with_config s (ok (new_config, stored), w) = (ok stored, record s { config = new_config }, w)
  with_config s (err e, w) = (err e, s, w)

  unfoldable pub replace_config : Text → Shared → World → Result Status Text × Shared × World
  replace_config sent s w = with_config s (store_config sent w)

  -- A panic of the blocking task.
  abbrev pub joined : Option UserManager → Result Status UserManager
  joined none = err (internal (text "blocking task failed"))
  joined (some m) = ok m

  -- `UserManager::load` of a path.
  abbrev pub load_users : Text → Io World Status UserManager
  load_users path w = (
    joined (load S.parse_users (users_file (S.fs.exists w path) (S.fs.read_to_string w path))),
    w,
  )

  abbrev pub temp_users_path : Text
  temp_users_path = with_extension S.users_path (text "json.tmp")

  unfoldable pub store_users : Text → Io World Status UserManager
  store_users sent = do
    or_internal λ w. S.fs.write w temp_users_path sent
    validated ← load_users temp_users_path
    or_internal λ w. S.fs.rename w temp_users_path S.users_path
    pure (ok validated)

  abbrev pub with_users :
      Shared → Text → Result Status UserManager × World → Result Status Text × Shared × World
  with_users s sent (ok validated, w) = (ok sent, record s { user_manager = validated }, w)
  with_users s sent (err e, w) = (err e, s, w)

  unfoldable pub save_users : Text → Shared → World → Result Status Text × Shared × World
  save_users sent s w = with_users s sent (store_users sent w)

  abbrev pub home_dirs : Dict User → List Text
  home_dirs [] = []
  home_dirs ((name, u) ∷ users) = u.home_dir ∷ home_dirs users

  abbrev pub note_failure : Text → Result Text (Unit {0}) × World → List Text × World
  note_failure dir (ok u, w) = ([], w)
  note_failure dir (err e, w) = ((dir ++ text ": " ++ e) ∷ [], w)

  abbrev pub ensure_dir : Text → World → List Text × World
  ensure_dir dir w =
      if not (S.fs.exists w dir) then note_failure dir (S.fs.create_dir_all w dir) else ([], w)

  unfoldable pub ensure_all : List Text → World → List Text × World
  ensure_all [] w = ([], w)
  ensure_all (dir ∷ dirs) w =
      let here = ensure_dir dir w in let rest = ensure_all dirs here.1 in (here.0 ++ rest.0, rest.1)

  abbrev pub directories_reply : List Text → OpReply
  directories_reply [] = op_ok (text "用户目录已就绪")
  directories_reply (e ∷ es) = op_err (text "部分目录创建失败: " ++ join (text "; ") (e ∷ es))

  unfoldable pub ensure_user_directories : Shared → World → OpReply × World
  ensure_user_directories s w =
      let done = ensure_all (home_dirs s.user_manager.users) w in (directories_reply done.0, done.1)

  abbrev pub replied : Text → Text → Result Text (Unit {0}) → OpReply
  replied good bad (ok u) = op_ok good
  replied good bad (err e) = op_err (bad ++ e)

  unfoldable pub create_user_directory : Text → World → OpReply × World
  create_user_directory path w =
      let made = S.fs.create_dir_all w path in
      (replied (text "目录已创建") (text "创建目录失败: ") made.0, made.1)

  abbrev pub permitted : Text → Result Text (Unit {0}) × World → OpReply × World
  permitted path (err e, w) = (op_err (text "创建目录失败: " ++ e), w)
  permitted path (ok u, w) =
      let set = S.fs.set_permissions w path 0o755 in
      (replied (text "目录权限已设置 (0755)") (text "设置权限失败: ") set.0, set.1)

  unfoldable pub setup_directory_permissions : Text → World → OpReply × World
  setup_directory_permissions path w = permitted path (S.fs.create_dir_all w path)
