-- ===== src/Sftp/Tests.antt =====
-- Runs of the SFTP handler at concrete sessions, and the theorems at concrete requests.
use wftpd_linux.Base.{◌≡◌, refl, true, false, none, some, [], ◌∷◌, text, All, trim}
use wftpd_linux.Outcome.{ok, err}
use wftpd_linux.Users.{User, Permissions, no_permissions}
use wftpd_linux.Os.{
  Effect, Reply, Metadata, after, get_user, calculate_usage, invalidate, log, throttle, metadata,
  symlink_metadata, canonicalize, read_dir, exists, remove_file, create_dir, create_dir_all,
  remove_dir_all, read_link, open_file, set_permissions, rename, symlink, seek, read_file, set_len,
  write_all, flush, file_metadata, close_file, next_entry, entry_metadata, statvfs,
}
use wftpd_linux.Os.Run.{run}
use wftpd_linux.Paths.{components, join, walk, pop, strip_prefix, strip_or_self}
use wftpd_linux.Paths.Within.{Within}
use wftpd_linux.Sftp.Resolve.{resolve, claimed}
use wftpd_linux.Sftp.Refusal.{Quiet, answer-refused}
use wftpd_linux.Sftp.Files.{OpenFlags}
use wftpd_linux.Sftp.Session.{Session, permission_denied}
use wftpd_linux.Sftp.Handler.{removes, answer}
use wftpd_linux.Sftp.Policy.{Setting, Admits}

abbrev pub alice_with : Permissions → User
alice_with p = record {
  username = text "alice";
  password_hash = [];
  home_dir = text "/home/alice";
  permissions = p;
  created_at = 0;
  last_login = none;
  enabled = true;
  is_admin = false;
}

abbrev pub setting_with : Permissions → Setting
setting_with p = record { home_dir = text "/home/alice"; user = some (alice_with p); usage = 1000 }

abbrev pub file_status : Metadata
file_status = record {
  len = 42;
  mode = 0o644;
  uid = 1000;
  gid = 1000;
  atime = after 0;
  mtime = after 0;
  is_dir = false;
  is_file = true;
  is_symlink = false;
}

-- A world in which everything succeeds and nothing is in the way.
abbrev pub reply_of : Setting → (e : Effect) → Reply e
reply_of w (get_user _) = w.user
reply_of w (calculate_usage _) = w.usage
reply_of w (invalidate _) = tt
reply_of w (log _) = tt
reply_of w (throttle _) = tt
reply_of w (metadata _) = ok file_status
reply_of w (symlink_metadata _) = ok file_status
reply_of w (canonicalize p) = ok p
reply_of w (read_dir _) = ok 5
reply_of w (exists _) = false
reply_of w (remove_file _) = ok tt
reply_of w (create_dir _) = ok tt
reply_of w (create_dir_all _) = ok tt
reply_of w (remove_dir_all _) = ok tt
reply_of w (read_link _) = ok []
reply_of w (open_file _ _) = ok 7
reply_of w (set_permissions _ _) = ok tt
reply_of w (rename _ _) = ok tt
reply_of w (symlink _ _) = ok tt
reply_of w (seek _ _) = ok tt
reply_of w (read_file _ _) = ok (1 ∷ 2 ∷ [])
reply_of w (set_len _ _) = ok tt
reply_of w (write_all _ _) = ok tt
reply_of w (flush _) = ok tt
reply_of w (file_metadata _) = ok file_status
reply_of w (close_file _) = tt
reply_of w (next_entry _) = ok none
reply_of w (entry_metadata _) = ok file_status
reply_of w (statvfs _) = ok (record {
  block_size = 4096;
  fragment_size = 4096;
  blocks = 1000;
  blocks_free = 400;
  blocks_available = 300;
  files = 64;
  files_free = 32;
  files_available = 16;
  name_max = 255;
})

abbrev world : Setting → Unit {0} → (e : Effect) → Reply e × Unit {0}
world w x e = (reply_of w e, tt)

reply_of-Admits : (w : Setting) (x : Unit {0}) (e : Effect) → Admits w e (world w x e).0
reply_of-Admits w x (get_user _) = refl
reply_of-Admits w x (calculate_usage _) = refl
reply_of-Admits w x (invalidate _) = tt
reply_of-Admits w x _ = tt

abbrev pub session : Session
session = record {
  username = text "alice";
  home_dir = text "/home/alice";
  client_ip = text "10.0.0.1";
  handles = [];
  next_handle = 1;
  speed_limiter = none;
}

escape :
    resolve (text "/home/alice") (text "/home/alice/../bob")
    ≡ some (components (text "/home/alice/../bob"))
unfolding resolve trim claimed wftpd_linux.Paths.join wftpd_linux.Paths.strip_prefix
escape = refl

answer-refused_example :
    All Quiet (run (world (setting_with no_permissions)) (answer (removes (text "a")) session) tt).0
    × ((run (world (setting_with no_permissions)) (answer (removes (text "a")) session) tt).1
        ≡ (err permission_denied, session))
answer-refused_example =
    answer-refused (setting_with no_permissions) (world (setting_with no_permissions)) tt
      (removes (text "a")) session (reply_of-Admits (setting_with no_permissions)) refl

abbrev to_read : OpenFlags
to_read = record { read = true; write = false; append = false; create = false; truncate = false }
