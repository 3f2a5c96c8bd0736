-- ===== src/Daemon/Requests/Sequence.antt =====
-- Runs of requests that replace the settings or the users, and what the files hold after them.
use wftpd_linux.Base.{◌≡◌, ◌≢◌, refl, sym, ap, ◌∙◌, inl, inr, true, some, List, [], ◌∷◌, Text, text}
use wftpd_linux.Outcome.{Result, ok, err}
use wftpd_linux.Paths.Names.{with_extension}
use wftpd_linux.Disk.{IsDisk, create_parent-keeps}
use wftpd_linux.Disk.Frame.{Leaves, bind-Leaves, swap_in-Leaves}
use wftpd_linux.Config.{Config, save}
use wftpd_linux.Users.Manager.{UserManager}
use wftpd_linux.Users.Manager.Loading.{content, load as load_library}
use wftpd_linux.Daemon.Requests.{
  Status, Shared, Setup, World, store_config, with_config, replace_config, temp_users_path,
  store_users, with_users, save_users,
}
use wftpd_linux.Daemon.Requests.Replacing.{
  ConfigKept, replace_config-ConfigKept, UsersKept, save_users-UsersKept,
}

-- The requests that replace a file.
pub data Request : Type 0 where
  settings users : Text → Request

module _ (S : Setup) where
  open S use {fs, toml, config_path, users_path, parse_users}

  unfoldable pub perform : Request → Shared × World S → Shared × World S
  perform (settings sent) (s, w) = let out = replace_config S sent s w in (out.1, out.2)
  perform (users sent) (s, w) = let out = save_users S sent s w in (out.1, out.2)

  unfoldable pub perform_all : List Request → Shared × World S → Shared × World S
  perform_all [] sw = sw
  perform_all (r ∷ rs) sw = perform_all rs (perform r sw)

  -- Of a text that toml reads, the settings are read again from what it prints of them.
  abbrev pub Stable : Type 0
  Stable =
      (s printed : Text) (c : Config)
      → toml.from_str s ≡ ok c
      → toml.to_string_pretty c ≡ ok printed
      → toml.from_str printed ≡ ok c

  abbrev pub ConfigHeld : Shared → World S → Type 0
  ConfigHeld s w =
      (t : Text) × (fs.read_to_string w config_path ≡ ok t) × (toml.from_str t ≡ ok s.config)

  abbrev pub UsersHeld : Shared → World S → Type 0
  UsersHeld s w =
      (t : Text) × (fs.read_to_string w users_path ≡ ok t)
      × (load_library parse_users (content t) ≡ some s.user_manager)

  -- The two files hold the settings and the users that are in memory.
  abbrev pub Held : Shared × World S → Type 0
  Held (s, w) = ConfigHeld s w × UsersHeld s w

  -- The two files and their temporary ones are four.
  pub record Distinct : Type 0 where
    pub config_temp : config_path ≢ with_extension config_path (text "tmp")
    pub users_temp : users_path ≢ temp_users_path S
    pub config_users : config_path ≢ users_path
    pub users_config_temp : users_path ≢ with_extension config_path (text "tmp")
    pub config_users_temp : config_path ≢ temp_users_path S

  module _ (disk : IsDisk fs) (names : Distinct) where
    swapped : users_path ≢ config_path
    swapped e = names.config_users (sym e)

    save-Leaves : (c : Config) → Leaves fs users_path (save fs toml c config_path)
    unfolding save
    save-Leaves c =
        bind-Leaves fs users_path _ _ (λ w. create_parent-keeps fs disk _ _ w users_path)
          λ u.
            bind-Leaves fs users_path _ _ (λ w. refl)
              λ printed.
                swap_in-Leaves fs users_path disk true _ _ _ config_path printed
                  names.users_config_temp swapped

    store_config-Leaves : (sent : Text) → Leaves fs users_path (store_config S sent)
    unfolding store_config
    store_config-Leaves sent =
        bind-Leaves fs users_path _ _ (λ w. refl)
          λ c.
            bind-Leaves fs users_path _ _ (λ w. refl)
              λ u.
                bind-Leaves fs users_path _ _ (λ w. save-Leaves c w)
                  λ u'. bind-Leaves fs users_path _ _ (λ w. refl) λ stored w. refl

    store_users-Leaves : (sent : Text) → Leaves fs config_path (store_users S sent)
    unfolding store_users
    store_users-Leaves sent =
        bind-Leaves fs config_path _ _
          (λ w. disk.write_others w (temp_users_path S) sent config_path names.config_users_temp)
          λ u.
            bind-Leaves fs config_path _ _ (λ w. refl)
              λ m.
                bind-Leaves fs config_path _ _
                  (λ w.
                    disk.rename_others w (temp_users_path S) users_path config_path
                      names.config_users_temp names.config_users)
                  λ u' w. refl

    config_world :
        (s : Shared) (out : Result Status (Config × Text) × World S)
        → (with_config S s out).2 ≡ out.1
    config_world s (ok c, w) = refl
    config_world s (err e, w) = refl

    users_world :
        (s : Shared) (sent : Text) (out : Result Status UserManager × World S)
        → (with_users S s sent out).2 ≡ out.1
    users_world s sent (ok m, w) = refl
    users_world s sent (err e, w) = refl

    replace_config-Leaves :
        (sent : Text) (s : Shared) (w : World S)
        → fs.read_to_string (replace_config S sent s w).2 users_path
          ≡ fs.read_to_string w users_path
    unfolding replace_config
    replace_config-Leaves sent s w =
        ap (λ v. fs.read_to_string v users_path) (config_world s (store_config S sent w))
        ∙ store_config-Leaves sent w

    save_users-Leaves :
        (sent : Text) (s : Shared) (w : World S)
        → fs.read_to_string (save_users S sent s w).2 config_path ≡ fs.read_to_string w config_path
    unfolding save_users
    save_users-Leaves sent s w =
        ap (λ v. fs.read_to_string v config_path) (users_world s sent (store_users S sent w))
        ∙ store_users-Leaves sent w

    settings-Held :
        (sent : Text) (s : Shared) (w : World S) (out : Result Status Text × Shared × World S)
        → Stable
        → Held (s, w)
        → fs.read_to_string out.2 users_path ≡ fs.read_to_string w users_path
        → ConfigKept S disk sent s w out
        → Held (out.1, out.2)
    settings-Held sent s w out stable (held, (t, there, loaded)) kept
          (inl (c, printed, parsed, valid, prints, done, memory, stored)) =
        (
          (
            printed,
            stored,
            stable sent printed c parsed prints ∙ ap (λ h. ok h.config) (sym memory),
          ),
          (t, kept ∙ there, loaded ∙ ap (λ (h : Shared). some h.user_manager) (sym memory)),
        )
    settings-Held sent s w out stable ((t, there, parsed), (u, users_there, loaded)) kept
          (inr (e, failed, memory, same)) =
        (
          (t, same ∙ there, parsed ∙ ap (λ (h : Shared). ok h.config) (sym memory)),
          (u, kept ∙ users_there, loaded ∙ ap (λ (h : Shared). some h.user_manager) (sym memory)),
        )

    users-Held :
        (sent : Text) (s : Shared) (w : World S) (out : Result Status Text × Shared × World S)
        → Held (s, w)
        → fs.read_to_string out.2 config_path ≡ fs.read_to_string w config_path
        → UsersKept S disk sent s w out
        → Held (out.1, out.2)
    users-Held sent s w out ((t, there, parsed), held) kept (inl (m, loads, done, memory, stored)) =
        (
          (t, kept ∙ there, parsed ∙ ap (λ (h : Shared). ok h.config) (sym memory)),
          (sent, stored, loads ∙ ap (λ (h : Shared). some h.user_manager) (sym memory)),
        )
    users-Held sent s w out ((t, there, parsed), (u, users_there, loaded)) kept
          (inr (e, failed, memory, same)) =
        (
          (t, kept ∙ there, parsed ∙ ap (λ (h : Shared). ok h.config) (sym memory)),
          (u, same ∙ users_there, loaded ∙ ap (λ (h : Shared). some h.user_manager) (sym memory)),
        )

    perform-Held : (r : Request) (sw : Shared × World S) → Stable → Held sw → Held (perform r sw)
    unfolding perform
    perform-Held (settings sent) (s, w) stable held =
        settings-Held sent s w (replace_config S sent s w) stable held
          (replace_config-Leaves sent s w)
          (replace_config-ConfigKept S disk sent s w names.config_temp)
    perform-Held (users sent) (s, w) stable held =
        users-Held sent s w (save_users S sent s w) held (save_users-Leaves sent s w)
          (save_users-UsersKept S disk sent s w names.users_temp)

    pub perform_all-Held :
        (rs : List Request) (sw : Shared × World S) → Stable → Held sw → Held (perform_all rs sw)
    unfolding perform_all
    perform_all-Held [] sw stable held = held
    perform_all-Held (r ∷ rs) sw stable held =
        perform_all-Held rs (perform r sw) stable (perform-Held r sw stable held)
