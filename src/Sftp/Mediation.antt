-- ===== src/Sftp/Mediation.antt =====
-- Every request of a client is answered within the policy.
use wftpd_linux.Sftp.Session.{Session}
use wftpd_linux.Sftp.Policy.{Setting, Apart}
use wftpd_linux.Sftp.Handler.{
  Request, init_session, opens, closes, reads, writes, lstats, fstats, stats, setstats, opens_dir,
  reads_dir, removes, makes_dir, removes_dir, resolves, renames, reads_link, symlinks,
}

module _ (w : Setting) where
  -- No path of the request begins with the real home directory.
  abbrev pub IsApart : Request → Type 0
  IsApart init_session = Unit {0}
  IsApart (opens path flags) = Apart w path
  IsApart (closes h) = Unit {0}
  IsApart (reads h offset len) = Unit {0}
  IsApart (writes h offset content) = Unit {0}
  IsApart (lstats path) = Apart w path
  IsApart (fstats h) = Unit {0}
  IsApart (stats path) = Apart w path
  IsApart (setstats path attrs) = Apart w path
  IsApart (opens_dir path) = Apart w path
  IsApart (reads_dir h) = Unit {0}
  IsApart (removes path) = Apart w path
  IsApart (makes_dir path) = Apart w path
  IsApart (removes_dir path) = Apart w path
  IsApart (resolves path) = Apart w path
  IsApart (renames old to) = Apart w old × Apart w to
  IsApart (reads_link path) = Apart w path
  IsApart (symlinks linkpath targetpath) = Apart w linkpath × Apart w targetpath
