-- ===== src/Users/Manager/Logins.antt =====
-- Who can log in, over the life of an account.
use wftpd_linux.Base.{
  ℕ, ◌≡◌, refl, sym, subst, ◌∙◌, Bool, true, false, none, some, Text, text, Option-cases,
  Bool-cases, inl, inr, ◌⊎◌,
}
use wftpd_linux.Base.Dict.{insert, remove, contains_key, lookup-insert_self, lookup-remove_self}
use wftpd_linux.Outcome.{Result, ok, err}
use wftpd_linux.Users.{User, Permissions}
use wftpd_linux.Users.Manager.{
  UserManager, get_user, remove_user, set_user_enabled, add_user, new_user, authenticate,
}
use wftpd_linux.Users.Manager.Accounts.{added}

-- The verdict is positive exactly for a stored, enabled user whose hash the password matches.
-- Then its last login is recorded, and the library with it is handed to the save; otherwise
-- nothing changes and nothing is.
pub authenticate_verdict :
    (verify_password : Text → Text → Bool) (m : UserManager) (now : ℕ) (username secret : Text)
    → let r = authenticate verify_password m now username secret in
      ((r.1 ≡ true)
        × ((u : User) × (get_user m username ≡ some u)
            × (u.enabled ≡ true)
            × (verify_password secret u.password_hash ≡ true)
            × (get_user r.0 username ≡ some (record u { last_login = some now }))
            × (r.2 ≡ some r.0)))
      ⊎ ((r ≡ (m, false, none))
          × ((u : User)
              → get_user m username ≡ some u
              → u.enabled ≡ true
              → verify_password secret u.password_hash ≡ false))
unfolding authenticate
authenticate_verdict verify_password m now username secret =
    elim (Option-cases (get_user m username)) [
      | inl unknown ↦ inr (rw (authenticate, unknown) refl, λ u found on. absurd cc)
      | inr (u, found) ↦ elim (Bool-cases u.enabled) [
        | inl on ↦ elim (Bool-cases (verify_password secret u.password_hash)) [
          | inl good ↦ inl (
            rw (authenticate, found, on, good) refl,
            (
              u,
              found,
              on,
              good,
              rw (authenticate, found, on, good, lookup-insert_self) refl,
              rw (authenticate, found, on, good) refl,
            ),
          )
          | inr bad ↦ inr (
            rw (authenticate, found, on, bad) refl,
            λ v at_v _. let same : u ≡ v = cc in rw (← same) bad,
          )
        ]
        | inr off ↦ inr (
          rw (authenticate, found, off) refl,
          λ v at_v on.
              let same : u ≡ v = cc in
              absurd (let clash : true ≡ false = sym (rw same on) ∙ off in cc),
        )
      ]
    ]

logs_in :
    (verify_password : Text → Text → Bool) (m : UserManager) (now : ℕ) (username secret : Text)
    (u : User)
    → get_user m username ≡ some u
    → u.enabled ≡ true
    → verify_password secret u.password_hash ≡ true
    → (authenticate verify_password m now username secret).1 ≡ true
unfolding authenticate
logs_in verify_password m now username secret u found on good =
    rw (authenticate, found, on, good) refl

unknown_refused :
    (verify_password : Text → Text → Bool) (m : UserManager) (now : ℕ) (username secret : Text)
    → get_user m username ≡ none
    → authenticate verify_password m now username secret ≡ (m, false, none)
unfolding authenticate
unknown_refused verify_password m now username secret unknown = rw (authenticate, unknown) refl

disabled_refused :
    (verify_password : Text → Text → Bool) (m : UserManager) (now : ℕ) (username secret : Text)
    (u : User)
    → get_user m username ≡ some u
    → u.enabled ≡ false
    → authenticate verify_password m now username secret ≡ (m, false, none)
unfolding authenticate
disabled_refused verify_password m now username secret u found off =
    rw (authenticate, found, off) refl

-- The entry of a user that was disabled.
disabled_entry :
    (m m2 : UserManager) (username : Text) (u : User)
    → get_user m username ≡ some u
    → set_user_enabled m username false ≡ ok m2
    → get_user m2 username ≡ some (record u { enabled = false })
unfolding set_user_enabled
disabled_entry m m2 username u found e =
    let m1 : UserManager = record m {
      users = insert username (record u { enabled = false }) m.users;
    } in
    let done : ◌≡◌ {A = Result Text UserManager} (ok m1) (ok m2) =
      rw (set_user_enabled, found) at e in
    let same : m1 ≡ m2 = cc in
    subst (λ n. get_user n username ≡ some (record u { enabled = false })) same
      (lookup-insert_self username _ m.users)

removed_entry :
    (m m2 : UserManager) (username : Text)
    → remove_user m username ≡ ok m2
    → get_user m2 username ≡ none
unfolding remove_user
removed_entry m m2 username e = elim (Bool-cases (contains_key username m.users)) [
  | inl known ↦
      let m1 : UserManager = record m { users = remove username m.users } in
      let done : ◌≡◌ {A = Result Text UserManager} (ok m1) (ok m2) = rw known at e in
      let same : m1 ≡ m2 = cc in
      subst (λ n. get_user n username ≡ none) same (lookup-remove_self username m.users)
  | inr unknown ↦
      let failed : ◌≡◌ {A = Result Text UserManager} (err (text "用户不存在")) (ok m2) =
        rw unknown at e in
      absurd cc
]

-- The life of an account, where a password matches its own hash: after the user was added, the
-- password logs it in; after it was disabled or removed, no password does.
pub account_life :
    (exists is_dir : Text → Bool) (hash_password : Text → Result Text Text)
    (verify_password : Text → Text → Bool)
    → ((secret hash : Text) → hash_password secret ≡ ok hash → verify_password secret hash ≡ true)
    → (m m1 : UserManager) (now later : ℕ) (username secret home_dir : Text)
      (permissions : Permissions) (is_admin : Bool)
    → add_user exists is_dir hash_password m now username secret home_dir permissions is_admin
      ≡ ok m1
    → ((authenticate verify_password m1 later username secret).1 ≡ true)
      × ((m2 : UserManager)
          → (set_user_enabled m1 username false ≡ ok m2) ⊎ (remove_user m1 username ≡ ok m2)
          → (guess : Text)
          → authenticate verify_password m2 later username guess ≡ (m2, false, none))
account_life exists is_dir hash_password verify_password matches m m1 now later username secret
      home_dir permissions is_admin e =
    let (fresh, (hash, hashed, same)) =
      added exists is_dir hash_password m m1 now username secret home_dir permissions is_admin e in
    let u = new_user now username home_dir permissions is_admin hash in
    let stored : get_user m1 username ≡ some u =
      subst (λ n. get_user n username ≡ some u) same (lookup-insert_self username u m.users) in
    (
      logs_in verify_password m1 later username secret u stored refl (matches secret hash hashed),
      λ m2 stopped guess. elim stopped [
        | inl disabled ↦
            disabled_refused verify_password m2 later username guess _
              (disabled_entry m1 m2 username u stored disabled) refl
        | inr removed ↦
            unknown_refused verify_password m2 later username guess
              (removed_entry m1 m2 username removed)
      ],
    )
