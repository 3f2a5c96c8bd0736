-- ===== src/Sftp/HostKey.antt =====
-- The host key of the SFTP server (`load_or_generate_host_key` of sftp/src/server.rs). The file
-- system, the mode of a file and the library ssh_key are parameters.
pub mod Restart
mod Tests
use wftpd_linux.Base.{
  subst, ==_iff, ℕ, ◌≡◌, ◌≢◌, refl, ◌∙◌, true, Bool-cases, inl, inr, Option, none, some, Text, text,
  ◌==◌, if◌then◌else◌,
}
use Prim.Native.Nat.{bit_and}
use wftpd_linux.Outcome.{Result, ok, err}
use wftpd_linux.Paths.Names.{parent_text, with_extension}
use wftpd_linux.Disk.{Fs, IsDisk, Io, ◌>>=◌, ◌>>◌, and_then, pure}

-- What the code takes from the library: private keys, and their texts.
pub record SshKey : Type 1 where
  pub PrivateKey : Type 0
  pub from_openssh : Text → Result Text PrivateKey
  pub to_openssh : PrivateKey → Result Text Text
  pub public_key : PrivateKey → Result Text Text

abbrev pub pub_path : Text → Text
pub_path path = with_extension path (text "pub")

module _ (F : Fs) (mode_of : F.World → Text → Result Text ℕ) (keys : SshKey) where
  open F use {World, exists, read_to_string, write, create_dir_all, set_permissions}
  open keys use {PrivateKey, from_openssh, to_openssh, public_key}

  -- The mode is set to 0600, unless it is.
  abbrev pub restrict : Text → ℕ → Io World Text (Unit {0})
  restrict path mode w =
      if bit_and mode 0o777 == 0o600 then (ok tt, w) else set_permissions w path 0o600

  unfoldable pub load_host_key : Text → Io World Text PrivateKey
  load_host_key path = do
    key_data ← λ w. (read_to_string w path, w)
    key ← pure (from_openssh key_data)
    mode ← λ w. (mode_of w path, w)
    restrict path mode
    pure (ok key)

  abbrev pub make_parent : Option Text → Io World Text (Unit {0})
  make_parent none = pure (ok tt)
  make_parent (some parent) = λ w. create_dir_all w parent

  -- What is written for a new key.
  abbrev pub store_host_key : Text → PrivateKey → Io World Text PrivateKey
  store_host_key path key = do
    openssh ← pure (to_openssh key)
    λ w. write w path openssh
    λ w. set_permissions w path 0o600
    pub_openssh ← pure (public_key key)
    λ w. write w (pub_path path) pub_openssh
    λ w. set_permissions w (pub_path path) 0o644
    pure (ok key)

  -- `random` is the key that the library makes.
  unfoldable pub generate_host_key : Text → Result Text PrivateKey → Io World Text PrivateKey
  generate_host_key path random = do
    make_parent (parent_text path)
    key ← pure random
    store_host_key path key

  unfoldable pub load_or_generate_host_key :
      Text → Result Text PrivateKey → Io World Text PrivateKey
  load_or_generate_host_key path random w =
      if exists w path then load_host_key path w else generate_host_key path random w
