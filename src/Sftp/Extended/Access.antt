-- ===== src/Sftp/Extended/Access.antt =====
-- What the extended requests ask of the world.
use wftpd_linux.Base.{
  All, ℕ, zero, suc, ◌≤◌, ◌≡◌, refl, sym, ap, ◌∙◌, Bool, true, false, Option, none, some, List, [],
  ◌∷◌, Text, text, text_eq, trim, length, ◌-◌, ◌==◌, if◌then◌else◌, arith,
}
use wftpd_linux.Outcome.{Result, ok, err}
use wftpd_linux.Paths.{PathBuf, components}
use wftpd_linux.Paths.Within.{Within}
use wftpd_linux.Os.{
  Effect, Reply, Prog, IoResult, Always, open_file, seek, read_file, close_file, statvfs,
}
use wftpd_linux.Os.Run.{run, Always-run}
use wftpd_linux.Os.Rules.{Always-bind}
use wftpd_linux.Sftp.Resolve.{resolve, claimed, resolve-Within}
use wftpd_linux.Sftp.Session.{
  Session, StatusCode, M, resolve_path, no_such_file, bad_message, op_unsupported,
}
use wftpd_linux.Sftp.Logic.{
  Post, Sat, Sat-bind, Sat-pure, Sat-fail, Sat-request_any, Sat-get, Sat-some_or, Sat-io_any,
  Sat-io_or, Sat-if,
}
use wftpd_linux.Sftp.Extended.{
  Hash, Digest, md5, sha256, want, reading, buf_len, path_field, and_then, parse_digest_request,
  after_read, digest_loop, digest_file, digest_of, digest_at, lift, payload_of, extended_digest,
  extended_space_available, extended,
}

module _ (home_dir : Text) where
  abbrev home : PathBuf
  home = components home_dir

  -- A file below the home directory may be opened for reading, and its file system looked at.
  -- Nothing is asked of the user library.
  abbrev pub Looks : Effect → Type 0
  Looks (open_file p o) = Within home p × (o ≡ reading)
  Looks (statvfs p) = Within home p
  Looks (seek fd n) = Unit {0}
  Looks (read_file fd n) = n ≤ buf_len
  Looks (close_file fd) = Unit {0}
  Looks _ = ⊥

  abbrev pub Any : (e : Effect) → Reply e → Type 0
  Any e r = Unit {0}

  abbrev Quiet : {A : Type 0} → Prog A → Type 0
  Quiet m = Always Any Looks (λ _. Unit {0}) m

  want-le_buf : (remaining : ℕ) → want remaining ≤ buf_len
  want-le_buf remaining = ground arith

  if-Quiet : {A : Type 0} (b : Bool) (m n : Prog A) → Quiet m → Quiet n → Quiet (if b then m else n)
  if-Quiet true m n h k = h
  if-Quiet false m n h k = k

  module _ (H : Hash) where
    open H use {Hasher}

    after_read-Quiet :
        (rest : ℕ → Hasher → Prog (Option (IoResult Hasher))) (remaining : ℕ) (h : Hasher)
        (r : IoResult (List ℕ))
        → ((left : ℕ) (h' : Hasher) → Quiet (rest left h'))
        → Quiet (after_read H rest remaining h r)
    unfolding after_read
    after_read-Quiet rest remaining h (err e) more = tt
    after_read-Quiet rest remaining h (ok []) more = tt
    after_read-Quiet rest remaining h (ok (b ∷ bytes)) more =
        if-Quiet (remaining == 0) _ _ (more 0 _)
          (if-Quiet ((remaining - length (b ∷ bytes)) == 0) _ _ tt (more _ _))

    digest_loop-Quiet :
        (fuel fd remaining : ℕ) (h : Hasher) → Quiet (digest_loop H fuel fd remaining h)
    unfolding digest_loop
    digest_loop-Quiet zero fd remaining h = tt
    digest_loop-Quiet (suc fuel) fd remaining h =
        (want-le_buf remaining, λ r _. after_read-Quiet _ remaining h r (digest_loop-Quiet fuel fd))

    digest_at-Quiet :
        (fuel fd len : ℕ) (kind : Digest) (r : IoResult (Unit {0}))
        → Quiet (digest_at H fuel fd len kind r)
    digest_at-Quiet fuel fd len kind (err e) = (tt, λ _ _. tt)
    digest_at-Quiet fuel fd len kind (ok tt) =
        Always-bind Any Looks (λ _. Unit {0}) (λ _. Unit {0}) _ _ (digest_loop-Quiet fuel fd len _)
          (λ _ _. (tt, λ _ _. tt))

    digest_of-Quiet :
        (fuel offset len : ℕ) (kind : Digest) (r : IoResult ℕ)
        → Quiet (digest_of H fuel offset len kind r)
    digest_of-Quiet fuel offset len kind (err e) = tt
    digest_of-Quiet fuel offset len kind (ok fd) = (tt, λ r _. digest_at-Quiet fuel fd len kind r)

    digest_file-Quiet :
        (fuel : ℕ) (p : PathBuf) (offset len : ℕ) (kind : Digest)
        → Within home p
        → Quiet (digest_file H fuel p offset len kind)
    unfolding digest_file
    digest_file-Quiet fuel p offset len kind inside =
        ((inside, refl), λ r _. digest_of-Quiet fuel offset len kind r)

  -- A handler that only looks, and leaves the session as it was.
  abbrev pub Looking : (s : Session) {A : Type 0} → (A → Type 0) → M A → Type 0
  Looking s F m = Sat Any Looks (λ s'. s' ≡ s) F m

  lift-Looking :
      (s : Session) {A : Type 0} (m : Prog A) → Quiet m → Looking s (λ _. Unit {0}) (lift m)
  lift-Looking s m quiet = record {
    sat = λ s' same. Always-bind Any Looks (λ _. Unit {0}) _ m _ quiet (λ a _. (tt, same));
  }

  resolve_path-Looking :
      (s : Session) (path : Text)
      → s.home_dir ≡ home_dir
      → claimed home (trim path) ≡ none
      → Looking s (Within home) (resolve_path path)
  unfolding resolve_path
  resolve_path-Looking s path at_home apart = Sat-bind Sat-get λ s' same.
      Sat-some_or no_such_file (resolve s'.home_dir path) λ p e.
        resolve-Within home_dir path apart
          (ap (λ d. resolve d path) (sym (ap (λ t. t.home_dir) same ∙ at_home)) ∙ e)

  payload_of-Looking :
      (s : Session) (r : Option (IoResult (List ℕ))) → Looking s (λ _. Unit {0}) (payload_of r)
  payload_of-Looking s none = Sat-pure none tt
  payload_of-Looking s (some (err e)) = Sat-io_any (err e)
  payload_of-Looking s (some (ok payload)) = Sat-pure (some payload) tt

  -- The paths of a request do not begin with the home directory.
  abbrev pub Apart : List ℕ → Type 0
  Apart body =
      (path : Text) (pos : ℕ) → path_field body ≡ some (path, pos) → claimed home (trim path) ≡ none

  some_before :
      {A B : Type 0} (o : Option A) (f : A → Option B) (b : B)
      → and_then o f ≡ some b
      → (a : A) × (o ≡ some a) × (f a ≡ some b)
  some_before none f b e = absurd cc
  some_before (some a) f b e = (a, refl, e)

  -- The path of a digest request is the path in front.
  digest_path :
      (body : List ℕ) (q : Text × ℕ × ℕ)
      → parse_digest_request body ≡ some q
      → (pos : ℕ) × (path_field body ≡ some (q.0, pos))
  unfolding parse_digest_request
  digest_path body q e =
      let ((path, pos), found, same) = some_before (path_field body) _ q e in
      let path_same : path ≡ q.0 = cc same in (pos, found ∙ ap (λ p. some (p, pos)) path_same)

  extended_space_available-Looking :
      (s : Session) (body : List ℕ)
      → s.home_dir ≡ home_dir
      → Apart body
      → Looking s (λ _. Unit {0}) (extended_space_available body)
  unfolding extended_space_available
  extended_space_available-Looking s body at_home apart =
      Sat-bind {F = λ q. path_field body ≡ some q}
        (Sat-some_or bad_message (path_field body) λ q e. e)
        λ q found. Sat-bind (resolve_path-Looking s q.0 at_home (apart q.0 q.1 found)) λ p inside.
          Sat-bind (Sat-request_any (statvfs p) inside)
            λ r _. Sat-bind (Sat-io_or _ r) λ stats _. Sat-pure _ tt

  module _ (H : Hash) where
    extended_digest-Looking :
        (s : Session) (fuel : ℕ) (body : List ℕ) (kind : Digest)
        → s.home_dir ≡ home_dir
        → Apart body
        → Looking s (λ _. Unit {0}) (extended_digest H fuel body kind)
    unfolding extended_digest
    extended_digest-Looking s fuel body kind at_home apart =
        Sat-bind {F = λ q. parse_digest_request body ≡ some q}
          (Sat-some_or bad_message (parse_digest_request body) λ q e. e)
          λ q found.
            let (pos, in_front) = digest_path body q found in
            Sat-bind (resolve_path-Looking s q.0 at_home (apart q.0 pos in_front)) λ p inside.
              Sat-bind (lift-Looking s _ (digest_file-Quiet H fuel p _ _ kind inside))
                λ r _. payload_of-Looking s r

    extended-Looking :
        (s : Session) (fuel : ℕ) (name : Text) (body : List ℕ)
        → s.home_dir ≡ home_dir
        → Apart body
        → Looking s (λ _. Unit {0}) (extended H fuel name body)
    unfolding extended
    extended-Looking s fuel name body at_home apart =
        let digest = λ (kind : Digest). extended_digest-Looking s fuel body kind at_home apart in
        Sat-if (text_eq name (text "md5sum@openssh.com")) (λ _. digest md5)
          λ _.
            Sat-if (text_eq name (text "sha256sum@openssh.com")) (λ _. digest sha256)
              λ _.
                Sat-if (text_eq name (text "space-available@openssh.com"))
                  (λ _.
                    Sat-bind (extended_space_available-Looking s body at_home apart)
                      λ payload _. Sat-pure (some payload) tt)
                  (λ _. Sat-fail op_unsupported)

    kept :
        (s : Session) {A : Type 0} (r : Result StatusCode A × Session)
        → Post Any Looks (λ s'. s' ≡ s) (λ a s'. Unit {0} × (s' ≡ s)) r
        → r.1 ≡ s
    kept s (ok a, s') q = q.1
    kept s (err c, s') q = q

    after-Looking :
        {W : Type 0} (world : W → (e : Effect) → Reply e × W) (x : W) (s : Session) {A : Type 0}
        (m : M A)
        → Looking s (λ _. Unit {0}) m
        → All Looks (run world (m s) x).0 × ((run world (m s) x).1.1 ≡ s)
    after-Looking world x s m h =
        let (asked, left) = Always-run world Any Looks _ (m s) (λ _ _. tt) (h.sat s refl) x in
        (asked, kept s _ left)

    -- An extended request whose path does not begin with the home directory leaves the session as
    -- it was, and asks the world at most to open files below the home directory for reading, to
    -- read them in pieces of at most 8192 bytes, and to look at their file system, in any world:
    -- the permissions of the user are not asked for.
    pub extended-Looks :
        {W : Type 0} (world : W → (e : Effect) → Reply e × W) (x : W) (s : Session) (fuel : ℕ)
        (name : Text) (body : List ℕ)
        → s.home_dir ≡ home_dir
        → Apart body
        → All Looks (run world (extended H fuel name body s) x).0
          × ((run world (extended H fuel name body s) x).1.1 ≡ s)
    extended-Looks world x s fuel name body at_home apart =
        after-Looking world x s _ (extended-Looking s fuel name body at_home apart)
