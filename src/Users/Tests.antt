-- ===== src/Users/Tests.antt =====
-- The user library at a concrete account, with passwords that are their own hash.
use wftpd_linux.Base.{
  ◌≢◌, is_empty, ◌≡◌, refl, ◌⊎◌, Bool, true, false, Option, none, some, [], ◌∷◌, Text, text,
  text_eq, text_eq_refl, trim, subst,
}
use wftpd_linux.Base.Dict.{lookup, insert, contains_key}
use wftpd_linux.Outcome.{Result, ok, err}
use wftpd_linux.Users.{User, full, no_permissions, fmt}
use wftpd_linux.Paths.Names.{with_extension, split_last}
use wftpd_linux.Disk.Tests.{text_ne, memory, memory-IsDisk}
use wftpd_linux.Users.Manager.Saving.{save, load_path, load-save_users}
use wftpd_linux.Users.Manager.{
  UserManager, empty_manager, get_user, new_user, add_user, remove_user, set_user_enabled,
  authenticate,
}
use wftpd_linux.Users.Manager.Accounts.{IsKeyed, Keeps, add, apply-Keeps}
use wftpd_linux.Users.Manager.Logins.{authenticate_verdict, account_life}

abbrev yes : Text → Bool
yes path = true

abbrev plain : Text → Result Text Text
plain secret = ok secret

plain-matches : (secret hash : Text) → plain secret ≡ ok hash → text_eq secret hash ≡ true
plain-matches secret hash e =
    let same : secret ≡ hash = cc in subst (λ h. text_eq secret h ≡ true) same (text_eq_refl secret)

abbrev alice : User
alice = new_user 7 (text "alice") (text "/home/alice") full false (text "secret")

abbrev with_alice : UserManager
with_alice = record { users = (text "alice", alice) ∷ [] }

empty-IsKeyed : IsKeyed empty_manager
unfolding lookup
empty-IsKeyed name u e = absurd cc

account_life_example :
    ((authenticate text_eq with_alice 9 (text "alice") (text "secret")).1 ≡ true)
    × ((m2 : UserManager)
        → (set_user_enabled with_alice (text "alice") false ≡ ok m2)
          ⊎ (remove_user with_alice (text "alice") ≡ ok m2)
        → (guess : Text) → authenticate text_eq m2 9 (text "alice") guess ≡ (m2, false, none))
unfolding add_user lookup insert contains_key trim
account_life_example =
    account_life yes yes plain text_eq plain-matches empty_manager with_alice 7 9 (text "alice")
      (text "secret") (text "/home/alice") full false refl

apply-Keeps_example : Keeps empty_manager (text "alice") with_alice
unfolding add_user lookup insert contains_key trim
apply-Keeps_example =
    apply-Keeps yes yes plain (add 7 (text "alice") (text "secret") (text "/home/alice") full false)
      empty_manager with_alice empty-IsKeyed refl

authenticate_verdict_example :
    let r = authenticate text_eq with_alice 9 (text "alice") (text "guess") in
    ((r.1 ≡ true)
      × ((u : User) × (get_user with_alice (text "alice") ≡ some u)
          × (u.enabled ≡ true)
          × (text_eq (text "guess") u.password_hash ≡ true)
          × (get_user r.0 (text "alice") ≡ some (record u { last_login = some 9 }))
          × (r.2 ≡ some r.0)))
    ⊎ ((r ≡ (with_alice, false, none))
        × ((u : User)
            → get_user with_alice (text "alice") ≡ some u
            → u.enabled ≡ true
            → text_eq (text "guess") u.password_hash ≡ false))
authenticate_verdict_example =
    authenticate_verdict text_eq with_alice 9 (text "alice") (text "guess")

abbrev unreadable_json : Text → Option UserManager
unreadable_json s = none

abbrev users_path : Text
users_path = text "/etc/wftpd/users.json"

temp_is_apart : users_path ≢ with_extension users_path (text "tmp")
unfolding with_extension split_last
temp_is_apart = text_ne users_path (with_extension users_path (text "tmp")) refl

-- A format with one text, that of the library of one user.
abbrev print_alice : UserManager → Result Text Text
print_alice m = ok (text "alice")

abbrev parse_alice : Text → Option UserManager
parse_alice s = some with_alice

one_text :
    (s : Text)
    → print_alice with_alice ≡ ok s
    → (parse_alice s ≡ some with_alice) × (is_empty (trim s) ≡ false)
unfolding trim
one_text s e =
    let same : text "alice" ≡ s = cc in
    subst (λ t. (parse_alice t ≡ some with_alice) × (is_empty (trim t) ≡ false)) same (refl, refl)

load-save_users_example :
    let out = save memory print_alice with_alice users_path [] in
    ((out.0 ≡ ok tt)
      × (load_path memory print_alice parse_alice users_path out.1 ≡ some with_alice))
    ⊎ ((e : Text) × (out.0 ≡ err e)
        × (memory.read_to_string out.1 users_path ≡ memory.read_to_string [] users_path)
        × ((old : Text)
            → memory.read_to_string [] users_path ≡ ok old
            → load_path memory print_alice parse_alice users_path out.1
              ≡ load_path memory print_alice parse_alice users_path []))
load-save_users_example =
    load-save_users memory print_alice memory-IsDisk parse_alice with_alice users_path []
      temp_is_apart one_text

all_named : fmt full ≡ text "读, 写, 删, 列表, 建目录, 删目录, 重命名, 追加"
unfolding fmt
all_named = refl

none_named : fmt no_permissions ≡ []
unfolding fmt
none_named = refl
