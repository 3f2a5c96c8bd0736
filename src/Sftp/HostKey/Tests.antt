-- ===== src/Sftp/HostKey/Tests.antt =====
-- The host key on a file system in memory, where keys are their own text.
use wftpd_linux.Base.{
  ℕ, ◌+◌, ◌≡◌, ◌≢◌, refl, sym, ap, [], Text, text, text_eq, text_eq_iff, text_eq_refl, Bool-cases,
  inl, inr, if◌then◌else◌,
}
use wftpd_linux.Disk.{Fs, IsDisk}
use Prim.Native.Nat.{bit_and}
use wftpd_linux.Base.Dict.{Dict}
use wftpd_linux.Outcome.{Result, ok}
use wftpd_linux.Paths.Names.{with_extension, split_last}
use wftpd_linux.Disk.Tests.{text_ne, memory, memory-IsDisk}
use wftpd_linux.Sftp.HostKey.{SshKey, pub_path, load_or_generate_host_key}
use wftpd_linux.Sftp.HostKey.Restart.{HasModes, host_key_kept}

abbrev as_text : SshKey
as_text = record {
  PrivateKey = Text;
  from_openssh = λ s. ok s;
  to_openssh = λ key. ok key;
  public_key = λ key. ok (text "ssh-ed25519");
}

-- Files in memory, with their modes.
abbrev Disk : Type 0
Disk = Dict Text × (Text → ℕ)

-- A mode with the type bits of a regular file.
abbrev with_mode : Text → ℕ → (Text → ℕ) → Text → ℕ
with_mode p m modes q = if text_eq p q then 0o100000 + m else modes q

abbrev moded : Fs
moded = record {
  World = Disk;
  exists = λ w p. memory.exists w.0 p;
  is_dir = λ w p. memory.is_dir w.0 p;
  read_to_string = λ w p. memory.read_to_string w.0 p;
  canonicalize = λ w p. memory.canonicalize w.0 p;
  write = λ w p s. let out = memory.write w.0 p s in (out.0, (out.1, w.1));
  append = λ w p s. let out = memory.append w.0 p s in (out.0, (out.1, w.1));
  rename = λ w p q. let out = memory.rename w.0 p q in (out.0, (out.1, w.1));
  remove_file = λ w p. let out = memory.remove_file w.0 p in (out.0, (out.1, w.1));
  create_dir_all = λ w p. (ok tt, w);
  set_permissions = λ w p m. (ok tt, (w.0, with_mode p m w.1));
}

moded-IsDisk : IsDisk moded
moded-IsDisk = record {
  written = λ w p s e. memory-IsDisk.written w.0 p s e;
  write_others = λ w p s q h. memory-IsDisk.write_others w.0 p s q h;
  renamed = λ w p q e. memory-IsDisk.renamed w.0 p q e;
  not_renamed = λ w p q r e h. memory-IsDisk.not_renamed w.0 p q r e h;
  rename_others = λ w p q r h k. memory-IsDisk.rename_others w.0 p q r h k;
  remove_others = λ w p q h. memory-IsDisk.remove_others w.0 p q h;
  read_exists = λ w p s h. memory-IsDisk.read_exists w.0 p s h;
  create_others = λ w p q. refl;
}

abbrev mode_of : Disk → Text → Result Text ℕ
mode_of w p = ok (w.1 p)

other_mode : (p q : Text) (m : ℕ) (modes : Text → ℕ) → q ≢ p → with_mode p m modes q ≡ modes q
other_mode p q m modes apart = elim (Bool-cases (text_eq p q)) [
  | inl same ↦ absurd (apart (sym ((text_eq_iff p q).0 same)))
  | inr other ↦ rw other refl
]

moded-HasModes : HasModes moded mode_of as_text
moded-HasModes = record {
  read_kept = λ w p q m e. refl;
  mode_set = λ w p e. (0o100600, rw (text_eq_refl p) refl, refl);
  set_others = λ w p q m h. ap ok (other_mode p q m w.1 h);
  write_others_mode = λ w p s q e. refl;
}

abbrev key_path : Text
key_path = text "/state/ssh/host_key"

key_apart : key_path ≢ pub_path key_path
unfolding with_extension split_last
key_apart = text_ne key_path (pub_path key_path) refl

abbrev first_start : Result Text Text × Disk
first_start =
    load_or_generate_host_key moded mode_of as_text key_path (ok (text "key")) ([], λ p. 0o100644)

host_key_kept_example :
    ((mode : ℕ) × (mode_of first_start.1 key_path ≡ ok mode) × (bit_and mode 0o777 ≡ 0o600))
    × (load_or_generate_host_key moded mode_of as_text key_path (ok (text "other")) first_start.1
        ≡ (ok (text "key"), first_start.1))
unfolding load_or_generate_host_key wftpd_linux.Base.Dict.contains_key wftpd_linux.Base.Dict.lookup
    wftpd_linux.Sftp.HostKey.generate_host_key wftpd_linux.Disk.◌>>=◌ split_last
host_key_kept_example =
    host_key_kept moded mode_of as_text moded-IsDisk moded-HasModes key_path key_apart
      (ok (text "key")) (ok (text "other")) (text "key") ([], λ p. 0o100644) (λ k s e. cc) refl
