-- ===== src/Sftp/Refusal.antt =====
-- What becomes of a request that the user lacks the permission for.
use wftpd_linux.Base.{◌≡◌, refl, Bool, true, false, ◌&&◌, ◌||◌, not, Text, All, arith}
use wftpd_linux.Outcome.{err}
use wftpd_linux.Users.{Permissions}
use wftpd_linux.Os.{Effect, Reply, Always, get_user, log}
use wftpd_linux.Os.Run.{run, Always-run}
use wftpd_linux.Sftp.Session.{
  Session, permission_denied, permissions, get, request, pure, fail, audit, ◌>>=◌,
}
use wftpd_linux.Sftp.Files.{OpenFlags, open_request, check_open, refuse_open, wants_write}
use wftpd_linux.Sftp.Stats.{lstat, stat, setstat, opendir}
use wftpd_linux.Sftp.Entries.{remove, mkdir, rmdir, rename_entry, symlink_entry}
use wftpd_linux.Sftp.Policy.{Setting, Admits, granted}
use wftpd_linux.Sftp.Handler.{
  Request, init_session, opens, closes, reads, writes, lstats, fstats, stats, setstats, opens_dir,
  reads_dir, removes, makes_dir, removes_dir, resolves, renames, reads_link, symlinks, answer,
}

-- The permission that each request takes. A request on an open handle takes none, nor do REALPATH
-- and READLINK.
abbrev pub permitted : Request → Permissions → Bool
permitted init_session p = true
permitted (opens path f) p =
    (wants_write f && p.can_write)
    || (f.append && p.can_append)
    || (not (wants_write f) && p.can_read)
permitted (closes h) p = true
permitted (reads h offset len) p = true
permitted (writes h offset content) p = true
permitted (lstats path) p = p.can_list
permitted (fstats h) p = true
permitted (stats path) p = p.can_list
permitted (setstats path attrs) p = p.can_write
permitted (opens_dir path) p = p.can_list
permitted (reads_dir h) p = true
permitted (removes path) p = p.can_delete
permitted (makes_dir path) p = p.can_mkdir
permitted (removes_dir path) p = p.can_rmdir
permitted (resolves path) p = true
permitted (renames old to) p = p.can_rename
permitted (reads_link path) p = true
permitted (symlinks linkpath targetpath) p = p.can_write

-- The user library and the audit log only.
abbrev pub Quiet : Effect → Type 0
Quiet (get_user _) = Unit {0}
Quiet (log _) = Unit {0}
Quiet _ = ⊥

check_open-refused :
    (path : Text) (f : OpenFlags) (p : Permissions)
    → permitted (opens path f) p ≡ false
    → check_open path f p ≡ refuse_open path
unfolding check_open
check_open-refused path f p no_right = ground arith

module _ (w : Setting) where
  answer-Quiet :
      (r : Request) (s : Session)
      → permitted r (granted w) ≡ false
      → Always (Admits w) Quiet (λ t. t ≡ (err permission_denied, s)) (answer r s)
  unfolding answer permissions get request pure fail audit ◌>>=◌ open_request lstat stat setstat
      opendir remove mkdir rmdir rename_entry symlink_entry
  answer-Quiet init_session s no_right = absurd (cc)
  answer-Quiet (opens path f) s no_right =
      (tt, λ u e. rw (e, check_open-refused path f (granted w) no_right) (tt, λ _ _. refl))
  answer-Quiet (closes h) s no_right = absurd (cc)
  answer-Quiet (reads h offset len) s no_right = absurd (cc)
  answer-Quiet (writes h offset content) s no_right = absurd (cc)
  answer-Quiet (lstats path) s no_right = (tt, λ u e. rw (e, no_right))
  answer-Quiet (fstats h) s no_right = absurd (cc)
  answer-Quiet (stats path) s no_right = (tt, λ u e. rw (e, no_right))
  answer-Quiet (setstats path attrs) s no_right = (tt, λ u e. rw (e, no_right))
  answer-Quiet (opens_dir path) s no_right = (tt, λ u e. rw (e, no_right))
  answer-Quiet (reads_dir h) s no_right = absurd (cc)
  answer-Quiet (removes path) s no_right = (tt, λ u e. rw (e, no_right) (tt, λ _ _. refl))
  answer-Quiet (makes_dir path) s no_right = (tt, λ u e. rw (e, no_right) (tt, λ _ _. refl))
  answer-Quiet (removes_dir path) s no_right = (tt, λ u e. rw (e, no_right) (tt, λ _ _. refl))
  answer-Quiet (resolves path) s no_right = absurd (cc)
  answer-Quiet (renames old to) s no_right = (tt, λ u e. rw (e, no_right) (tt, λ _ _. refl))
  answer-Quiet (reads_link path) s no_right = absurd (cc)
  answer-Quiet (symlinks linkpath targetpath) s no_right = (tt, λ u e. rw (e, no_right))

-- A request that the user lacks the permission for is answered with "permission denied", whatever
-- the world replies. The session stays as it was, and of the world the handler asks nothing but
-- the user's entry, and gives it an audit record at most.
pub answer-refused :
    (w : Setting) {W : Type 0} (world : W → (e : Effect) → Reply e × W) (x : W) (r : Request)
    (s : Session)
    → ((y : W) (e : Effect) → Admits w e (world y e).0)
    → permitted r (granted w) ≡ false
    → All Quiet (run world (answer r s) x).0
      × ((run world (answer r s) x).1 ≡ (err permission_denied, s))
answer-refused w world x r s fair no_right =
    Always-run world (Admits w) Quiet _ (answer r s) fair (answer-Quiet w r s no_right) x
