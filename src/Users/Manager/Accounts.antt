-- ===== src/Users/Manager/Accounts.antt =====
-- What the operations on the user library promise.
use wftpd_linux.Base.{
  ℕ, ◌≡◌, refl, sym, subst, ap, ◌∙◌, Bool, false, not, Option, none, some, Text, text, is_empty,
  text_eq, text_eq_iff, arith, Bool-cases, inl, inr,
}
use wftpd_linux.Base.Dict.{insert, remove, contains_key, lookup-insert, lookup-remove}
use wftpd_linux.Outcome.{
  Result, ok, err, require, ◌>>=◌, ◌>>◌, Result-cases, after_require, after_test,
}
use wftpd_linux.Users.{User, Permissions}
use wftpd_linux.Users.Manager.{
  UserManager, get_user, change, remove_user, update_permissions, set_user_enabled, update_home_dir,
  add_user, update_password, new_user, store_user, check_home,
}

-- Each user is stored under its own name.
abbrev pub IsKeyed : UserManager → Type 0
IsKeyed m = (name : Text) (u : User) → get_user m name ≡ some u → u.username ≡ name

-- What an operation on one user does to the library: its entries stay keyed, and the entries of the
-- others stay.
abbrev pub Keeps : UserManager → Text → UserManager → Type 0
Keeps m name m' =
    IsKeyed m'
    × ((other : Text) → text_eq name other ≡ false → get_user m' other ≡ get_user m other)

insert-Keeps :
    (m : UserManager) (name : Text) (u : User)
    → IsKeyed m
    → u.username ≡ name
    → Keeps m name (record m { users = insert name u m.users })
insert-Keeps m name u keyed named = (
  λ k v found. ground (arith, keyed k v, text_eq_iff name k, lookup-insert name k u m.users),
  λ other apart. rw (lookup-insert, apart) refl,
)

remove-Keeps :
    (m : UserManager) (name : Text)
    → IsKeyed m
    → Keeps m name (record m { users = remove name m.users })
remove-Keeps m name keyed = (
  λ k v found. ground (arith, keyed k v, text_eq_iff name k, lookup-remove name k m.users),
  λ other apart. rw (lookup-remove, apart) refl,
)

change-Keeps :
    (f : User → Result Text User) (m m' : UserManager) (name : Text) (o : Option User)
    → ((u u' : User) → f u ≡ ok u' → u'.username ≡ u.username)
    → IsKeyed m
    → get_user m name ≡ o
    → change f m name o ≡ ok m'
    → Keeps m name m'
change-Keeps f m m' name none kept keyed found e = absurd cc
change-Keeps f m m' name (some u) kept keyed found e = elim (Result-cases (f u)) [
  | inl (u', at_f) ↦
      let m1 : UserManager = record m { users = insert name u' m.users } in
      let stored : ◌≡◌ {A = Result Text UserManager} (ok m1) (ok m') = rw at_f at e in
      let same : m1 ≡ m' = cc in
      subst (Keeps m name) same (insert-Keeps m name u' keyed (kept u u' at_f ∙ keyed name u found))
  | inr (bad, at_f) ↦
      let failed : ◌≡◌ {A = Result Text UserManager} (err bad) (ok m') = rw at_f at e in absurd cc
]

-- An operation of the administration.
pub data Change : Type 0 where
  add : ℕ → Text → Text → Text → Permissions → Bool → Change
  drop_user : Text → Change
  password home : Text → Text → Change
  permit : Text → Permissions → Change
  enable : Text → Bool → Change

abbrev pub target : Change → Text
target (add now username secret home_dir permissions is_admin) = username
target (drop_user username) = username
target (password username new_password) = username
target (home username home_dir) = username
target (permit username permissions) = username
target (enable username enabled) = username

module _ (exists is_dir : Text → Bool) (hash_password : Text → Result Text Text) where
  abbrev pub apply : UserManager → Change → Result Text UserManager
  apply m (add now username secret home_dir permissions is_admin) =
      add_user exists is_dir hash_password m now username secret home_dir permissions is_admin
  apply m (drop_user username) = remove_user m username
  apply m (password username new_password) = update_password hash_password m username new_password
  apply m (home username home_dir) = update_home_dir exists is_dir m username home_dir
  apply m (permit username permissions) = update_permissions m username permissions
  apply m (enable username enabled) = set_user_enabled m username enabled

  -- An added user passed every test.
  pub added :
      (m m' : UserManager) (now : ℕ) (username secret home_dir : Text) (permissions : Permissions)
      (is_admin : Bool)
      → add_user exists is_dir hash_password m now username secret home_dir permissions is_admin
        ≡ ok m'
      → (contains_key username m.users ≡ false)
        × ((hash : Text) × (hash_password secret ≡ ok hash)
            × (record m {
              users =
                  insert username
                    (new_user now username home_dir permissions is_admin hash)
                    m.users;
            }
                ≡ m'))
  unfolding add_user
  added m m' now username secret home_dir permissions is_admin e =
      let stored =
        store_user exists is_dir hash_password m now username secret home_dir permissions
          is_admin in
      let homed = check_home exists is_dir home_dir >> stored in
      let fresh = require (not (contains_key username m.users)) (text "用户已存在") >> homed in
      let e = (after_require (not (is_empty username)) (text "用户名不能为空") fresh m' e).1 in
      let (unknown, e) =
        after_require (not (contains_key username m.users)) (text "用户已存在") homed m' e in
      let e = (after_test (check_home exists is_dir home_dir) stored m' e).1 in
      (
        ground arith,
        elim (Result-cases (hash_password secret)) [
          | inl (hash, hashed) ↦
              let m1 : UserManager = record m {
                users =
                    insert username (new_user now username home_dir permissions is_admin hash)
                      m.users;
              } in
              let done : ◌≡◌ {A = Result Text UserManager} (ok m1) (ok m') = rw hashed at e in
              (hash, hashed, cc)
          | inr (bad, hashed) ↦
              let failed : ◌≡◌ {A = Result Text UserManager} (err bad) (ok m') = rw hashed at e in
              absurd cc
        ],
      )

  same_name : (u u' : User) → ◌≡◌ {A = Result Text User} (ok u) (ok u') → u'.username ≡ u.username
  same_name u u' e = let same : u ≡ u' = cc in ap (λ v. v.username) (sym same)

  named_password :
      (new_password : Text) (u u' : User)
      → (hash_password new_password >>= λ hash. ok (record u { password_hash = hash })) ≡ ok u'
      → u'.username ≡ u.username
  named_password new_password u u' e = elim (Result-cases (hash_password new_password)) [
    | inl (hash, hashed) ↦ same_name (record u { password_hash = hash }) u' (rw hashed at e)
    | inr (bad, hashed) ↦
        let failed : ◌≡◌ {A = Result Text User} (err bad) (ok u') = rw hashed at e in absurd cc
  ]

  -- An operation of the administration that succeeds leaves each user under its own name, and all
  -- users but its target as they were.
  pub apply-Keeps :
      (c : Change) (m m' : UserManager) → IsKeyed m → apply m c ≡ ok m' → Keeps m (target c) m'
  unfolding remove_user update_permissions set_user_enabled update_home_dir update_password
  apply-Keeps (add now username secret home_dir permissions is_admin) m m' keyed e =
      let (fresh, (hash, hashed, same)) =
        added m m' now username secret home_dir permissions is_admin e in
      subst (Keeps m username) same (insert-Keeps m username _ keyed refl)
  apply-Keeps (drop_user username) m m' keyed e =
      elim (Bool-cases (contains_key username m.users)) [
        | inl known ↦
            let m1 : UserManager = record m { users = remove username m.users } in
            let done : ◌≡◌ {A = Result Text UserManager} (ok m1) (ok m') = rw known at e in
            let same : m1 ≡ m' = cc in subst (Keeps m username) same (remove-Keeps m username keyed)
        | inr unknown ↦
            let failed : ◌≡◌ {A = Result Text UserManager} (err (text "用户不存在")) (ok m') =
              rw unknown at e in
            absurd cc
      ]
  apply-Keeps (password username new_password) m m' keyed e =
      change-Keeps _ m m' username _ (λ u u' h. named_password new_password u u' h) keyed refl e
  apply-Keeps (home username home_dir) m m' keyed e =
      let homed = (after_test (check_home exists is_dir home_dir) _ m' e).1 in
      change-Keeps _ m m' username _ (λ u u' h. same_name (record u { home_dir = home_dir }) u' h)
        keyed refl homed
  apply-Keeps (permit username permissions) m m' keyed e =
      change-Keeps _ m m' username _
        (λ u u' h. same_name (record u { permissions = permissions }) u' h) keyed refl e
  apply-Keeps (enable username enabled) m m' keyed e =
      change-Keeps _ m m' username _ (λ u u' h. same_name (record u { enabled = enabled }) u' h)
        keyed refl e
