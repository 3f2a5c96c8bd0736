-- ===== src/Sftp/Auth/KeyPath.antt =====
-- The file of a user's public key stays in the key directory.
use wftpd_linux.Base.{
  ℕ, ◌≡◌, ◌≢◌, refl, sym, subst, ap, ◌∙◌, Bool, true, false, ◌||◌, ◌&&◌, [], ◌∷◌, ◌++◌, Text, text,
  ◌==◌, all, arith,
}
use wftpd_linux.Users.{is_safe_username, is_name_char}
use wftpd_linux.Paths.{PathBuf, normal, components, join, split}
use wftpd_linux.Sftp.Auth.{SftpHandler, user_pubkey_path}

-- The characters of a key file's name.
abbrev is_file_char : ℕ → Bool
is_file_char c = is_name_char c || c == b'.'

no_slash : (c : ℕ) → is_file_char c ≡ true → (c == b'/') ≡ false
no_slash c h = ground arith

both : (a b : Bool) → (a && b) ≡ true → (a ≡ true) × (b ≡ true)
both a b h = ground arith

-- A text without slashes is one segment.
split_name : (s : Text) → all is_file_char s ≡ true → split b'/' s ≡ s ∷ []
split_name [] h = refl
split_name (c ∷ s) h =
    let (head_ok, tail_ok) = both (is_file_char c) (all is_file_char s) h in
    rw (no_slash c head_ok, split_name s tail_ok) refl

extended : (s : Text) → all is_name_char s ≡ true → all is_file_char (s ++ text ".pub") ≡ true
extended [] h = refl
extended (c ∷ s) h =
    let (head_ok, tail_ok) = both (is_name_char c) (all is_name_char s) h in
    rw (head_ok, extended s tail_ok) refl

first_not_dot : (c : ℕ) → is_name_char c ≡ true → ((c == b'.') ≡ false) × ((c == b'/') ≡ false)
first_not_dot c h = (ground arith, ground arith)

safe_chars :
    (user : Text)
    → is_safe_username user ≡ true
    → (c : ℕ) × (s : Text) × (user ≡ c ∷ s) × (all is_name_char (c ∷ s) ≡ true)
unfolding is_safe_username
safe_chars [] h = absurd cc
safe_chars (c ∷ s) h = (c, s, refl, ground arith)

-- One name.
single :
    (c : ℕ) (s : Text)
    → all is_name_char (c ∷ s) ≡ true
    → components ((c ∷ s) ++ text ".pub") ≡ normal ((c ∷ s) ++ text ".pub") ∷ []
single c s h =
    let (head_ok, tail_ok) = both (is_name_char c) (all is_name_char s) h in
    let (no_dot, not_root) = first_not_dot c head_ok in
    rw (not_root, split_name (s ++ text ".pub") (extended s tail_ok), no_dot) refl

join_single :
    (dir : PathBuf) (name : Text) → dir ≢ [] → join dir (normal name ∷ []) ≡ dir ++ normal name ∷ []
unfolding join
join_single [] name h = absurd (h refl)
join_single (d ∷ dir) name h = refl

-- The key of a safe user name is read from a file directly in the key directory.
safe_key_path :
    (h : SftpHandler) (user : Text)
    → is_safe_username user ≡ true
    → h.keys_dir ≢ []
    → user_pubkey_path h user ≡ h.keys_dir ++ normal (user ++ text ".pub") ∷ []
safe_key_path h user safe some_dir =
    let (c, s, named, chars) = safe_chars user safe in
    let one : components (user ++ text ".pub") ≡ normal (user ++ text ".pub") ∷ [] =
      subst (λ u. components (u ++ text ".pub") ≡ normal (u ++ text ".pub") ∷ []) (sym named)
        (single c s chars) in
    ap (join h.keys_dir) one ∙ join_single h.keys_dir (user ++ text ".pub") some_dir
