-- ===== src/Daemon/Requests/Replacing.antt =====
-- A configuration or a user library that is sent is kept on disk and in memory alike, or nowhere.
use wftpd_linux.Base.{
  ◌≡◌, ◌≢◌, refl, sym, ◌∙◌, subst, ◌⊎◌, inl, inr, Option, none, some, Text, text, ◌++◌,
}
use wftpd_linux.Outcome.{Result, ok, err}
use wftpd_linux.Paths.Names.{with_extension}
use wftpd_linux.Disk.{IsDisk, ◌>>=◌, and_then, rename_error}
use wftpd_linux.Config.{Config, save, validate}
use wftpd_linux.Disk.Saving.{Stored}
use wftpd_linux.Config.Keeping.{save-Stored}
use wftpd_linux.Users.Manager.{UserManager}
use wftpd_linux.Users.Manager.Saving.{users_file}
use wftpd_linux.Users.Manager.Loading.{content, load}
use wftpd_linux.Daemon.Requests.{
  Status, internal, invalid_argument, Shared, Setup, World, lifted, store_config, with_config,
  replace_config, joined, temp_users_path, store_users, with_users, save_users,
}

module _ (S : Setup) (disk : IsDisk S.fs) where
  open S use {fs, toml, config_path, users_path, parse_users}

  -- The configuration that was sent is valid, and it is the one in memory and the one on disk,
  -- which is also the answer; or an error is answered, and neither has changed.
  abbrev pub ConfigKept : Text → Shared → World S → Result Status Text × Shared × World S → Type 0
  ConfigKept sent s w out =
      ((c : Config) × (printed : Text) × (toml.from_str sent ≡ ok c)
        × (validate (fs.exists w) (fs.is_dir w) c ≡ ok tt)
        × (toml.to_string_pretty c ≡ ok printed)
        × (out.0 ≡ ok printed)
        × (out.1 ≡ record s { config = c })
        × (fs.read_to_string out.2 config_path ≡ ok printed))
      ⊎ ((e : Status) × (out.0 ≡ err e)
          × (out.1 ≡ s)
          × (fs.read_to_string out.2 config_path ≡ fs.read_to_string w config_path))

  abbrev read_back : Config → World S → Result Status (Config × Text) × World S
  read_back c v =
      and_then (λ stored v'. (ok (c, stored), v'))
        (rename_error internal (fs.read_to_string v config_path), v)

  after_save :
      (sent : Text) (s : Shared) (w : World S) (c : Config) (out : Result Text (Unit {0}) × World S)
      → toml.from_str sent ≡ ok c
      → validate (fs.exists w) (fs.is_dir w) c ≡ ok tt
      → Stored fs (toml.to_string_pretty c) config_path w out
      → ConfigKept sent s w
          (with_config S s (and_then (λ _ v. read_back c v) (rename_error internal out.0, out.1)))
  after_save sent s w c (ok u, v) parsed valid (inl (printed, e, done, holds)) =
      subst
        (λ r. ConfigKept sent s w (
          with_config S s
            (and_then (λ stored v'. (ok (c, stored), v')) (rename_error internal r, v))))
        (sym holds) (inl (c, printed, parsed, valid, e, refl, refl, holds))
  after_save sent s w c (ok u, v) parsed valid (inr (e, failed, same)) = absurd cc
  after_save sent s w c (err e, v) parsed valid (inl (printed, e', done, holds)) = absurd cc
  after_save sent s w c (err e, v) parsed valid (inr (e', failed, same)) =
      inr (internal e, refl, refl, same ∙ refl)

  -- The steps behind the parser and behind the validation.
  abbrev save_it : Config → World S → Result Status (Config × Text) × World S
  save_it c w =
      let out = save fs toml c config_path w in
      and_then (λ _ v. read_back c v) (rename_error internal out.0, out.1)

  abbrev refused : Text → Text → Status
  refused why e = invalid_argument (why ++ e)

  after_validate :
      (sent : Text) (s : Shared) (w : World S) (c : Config) (r : Result Text (Unit {0}))
      → config_path ≢ with_extension config_path (text "tmp")
      → toml.from_str sent ≡ ok c
      → validate (fs.exists w) (fs.is_dir w) c ≡ r
      → ConfigKept sent s w (
          with_config S s (and_then (λ _ v. save_it c v) (lifted (refused (text "配置校验失败: ")) r, w)))
  after_validate sent s w c (err e) apart parsed checked = inr (_, refl, refl, refl)
  after_validate sent s w c (ok u) apart parsed checked =
      after_save sent s w c (save fs toml c config_path w) parsed checked
        (save-Stored fs toml disk c config_path w apart)

  after_parse :
      (sent : Text) (s : Shared) (w : World S) (r : Result Text Config)
      → config_path ≢ with_extension config_path (text "tmp")
      → toml.from_str sent ≡ r
      → ConfigKept sent s w (
          with_config S s (
            and_then
              (λ c v.
                and_then
                  (λ _ v'. save_it c v')
                  (lifted (refused (text "配置校验失败: ")) (validate (fs.exists v) (fs.is_dir v) c), v))
              (lifted (refused (text "配置解析失败: ")) r, w)))
  after_parse sent s w (err e) apart parsed = inr (_, refl, refl, refl)
  after_parse sent s w (ok c) apart parsed =
      after_validate sent s w c (validate (fs.exists w) (fs.is_dir w) c) apart parsed refl

  -- A configuration that is sent is valid, stored on disk, taken over in memory and answered as it
  -- is stored; or the answer is an error, and the configuration in memory and on disk is the one it
  -- was.
  pub replace_config-ConfigKept :
      (sent : Text) (s : Shared) (w : World S)
      → config_path ≢ with_extension config_path (text "tmp")
      → ConfigKept sent s w (replace_config S sent s w)
  unfolding replace_config store_config ◌>>=◌
  replace_config-ConfigKept sent s w apart = after_parse sent s w (toml.from_str sent) apart refl

  -- The text that was sent is the users file, and what loading it gives is the library in memory;
  -- or an error is answered, and neither has changed.
  abbrev pub UsersKept : Text → Shared → World S → Result Status Text × Shared × World S → Type 0
  UsersKept sent s w out =
      ((m : UserManager) × (load parse_users (content sent) ≡ some m)
        × (out.0 ≡ ok sent)
        × (out.1 ≡ record s { user_manager = m })
        × (fs.read_to_string out.2 users_path ≡ ok sent))
      ⊎ ((e : Status) × (out.0 ≡ err e)
          × (out.1 ≡ s)
          × (fs.read_to_string out.2 users_path ≡ fs.read_to_string w users_path))

  after_rename :
      (sent : Text) (s : Shared) (w : World S) (m : UserManager)
      (out : Result Text (Unit {0}) × World S)
      → load parse_users (content sent) ≡ some m
      → (out.0 ≡ ok tt → fs.read_to_string out.1 users_path ≡ ok sent)
      → ((e : Text)
          → out.0 ≡ err e
          → fs.read_to_string out.1 users_path ≡ fs.read_to_string w users_path)
      → UsersKept sent s w
          (with_users S s sent (and_then (λ _ v. (ok m, v)) (rename_error internal out.0, out.1)))
  after_rename sent s w m (ok u, v) loaded moved kept = inl (m, loaded, refl, refl, moved refl)
  after_rename sent s w m (err e, v) loaded moved kept = inr (internal e, refl, refl, kept e refl)

  abbrev rename_it : UserManager → World S → Result Status UserManager × World S
  rename_it m v =
      let out = fs.rename v (temp_users_path S) users_path in
      and_then (λ _ v'. (ok m, v')) (rename_error internal out.0, out.1)

  after_load :
      (sent : Text) (s : Shared) (w v : World S) (r : Option UserManager)
      → load parse_users (content sent) ≡ r
      → fs.read_to_string v (temp_users_path S) ≡ ok sent
      → fs.read_to_string v users_path ≡ fs.read_to_string w users_path
      → UsersKept sent s w (with_users S s sent (and_then rename_it (joined S r, v)))
  after_load sent s w v none loaded there kept = inr (_, refl, refl, kept)
  after_load sent s w v (some m) loaded there kept =
      after_rename sent s w m (fs.rename v (temp_users_path S) users_path) loaded
        (λ done. disk.renamed v (temp_users_path S) users_path done ∙ there)
        (λ e failed. disk.not_renamed v (temp_users_path S) users_path users_path e failed ∙ kept)

  abbrev load_it : World S → Result Status UserManager × World S
  load_it v = (
    joined S (
        load parse_users
          (users_file (fs.exists v (temp_users_path S)) (fs.read_to_string v (temp_users_path S)))),
    v,
  )

  -- The temporary file is there and holds what was sent.
  file_sent :
      (v : World S) (sent : Text)
      → fs.read_to_string v (temp_users_path S) ≡ ok sent
      → users_file (fs.exists v (temp_users_path S)) (fs.read_to_string v (temp_users_path S))
        ≡ content sent
  file_sent v sent there = cc (disk.read_exists v (temp_users_path S) sent there, there)

  after_write :
      (sent : Text) (s : Shared) (w : World S) (out : Result Text (Unit {0}) × World S)
      → (out.0 ≡ ok tt → fs.read_to_string out.1 (temp_users_path S) ≡ ok sent)
      → fs.read_to_string out.1 users_path ≡ fs.read_to_string w users_path
      → UsersKept sent s w (
          with_users S s sent
            (and_then (λ _ v. and_then rename_it (load_it v)) (rename_error internal out.0, out.1)))
  after_write sent s w (err e, v) there kept = inr (internal e, refl, refl, kept)
  after_write sent s w (ok u, v) there kept =
      subst
        (λ f.
          UsersKept sent s w
            (with_users S s sent (and_then rename_it (joined S (load parse_users f), v))))
        (sym (file_sent v sent (there refl)))
        (after_load sent s w v (load parse_users (content sent)) refl (there refl) kept)

  -- Users that are sent are the users file, word for word, and what loading them gives is the
  -- library in memory; or the answer is an error, and both are as they were.
  pub save_users-UsersKept :
      (sent : Text) (s : Shared) (w : World S)
      → users_path ≢ temp_users_path S
      → UsersKept sent s w (save_users S sent s w)
  unfolding save_users store_users ◌>>=◌
  save_users-UsersKept sent s w apart =
      after_write sent s w (fs.write w (temp_users_path S) sent)
        (disk.written w (temp_users_path S) sent)
        (disk.write_others w (temp_users_path S) sent users_path apart)
