-- ===== src/Sftp/Escape.antt =====
-- The prefix test of `resolve` lets a path out of the home directory.
use wftpd_linux.Paths.Within.{Within}
