-- ===== src/Listener.antt =====
-- The listening tasks of the two servers (sftp/src/server.rs and ftp/src/server.rs): the running
-- flag, the channel that asks a task to end and the one that tells that it ended. A start makes a
-- task, which ends when it is asked to, or when its listener fails. Between two steps, other tasks
-- may take any number of theirs.
pub mod Life
pub mod Idle
mod Tests
use wftpd_linux.Base.{
  ℕ, ◌+◌, ◌≡◌, Bool, true, false, not, ◌&&◌, Option, none, some, List, [], ◌∷◌, Text, any,
  if◌then◌else◌, ◌==◌,
}
use wftpd_linux.Outcome.{Result, ok, err}
use wftpd_linux.Config.{Config}

-- `shutdown_tx` is known by the task at its other end. `tasks` are those that still listen, and
-- `asked` those whose sender has sent or was dropped: both end the wait of the task.
pub record Listener : Type 0 where
  pub running : Bool
  pub shutdown_tx : Option ℕ
  pub closed_rx : Option ℕ
  pub tasks : List ℕ
  pub asked : List ℕ
  pub next : ℕ

unfoldable pub new : Listener
new = record {
  running = false;
  shutdown_tx = none;
  closed_rx = none;
  tasks = [];
  asked = [];
  next = 0;
}

-- A sender is used or dropped.
abbrev pub release : Option ℕ → List ℕ → List ℕ
release none asked = asked
release (some n) asked = n ∷ asked

-- The end of both `start` functions: new channels, the flag and the task.
unfoldable pub begin : Listener → Listener
begin s = record {
  running = true;
  shutdown_tx = some s.next;
  closed_rx = some s.next;
  tasks = s.next ∷ s.tasks;
  asked = release s.shutdown_tx s.asked;
  next = s.next + 1;
}

-- `SftpServer::start`, which fails before it changes anything: the lock of the configuration, the
-- host key or the address.
unfoldable pub sftp_start : Result Text (Unit {0}) → Listener → Listener × Result Text (Unit {0})
sftp_start (ok u) s = (begin s, ok tt)
sftp_start (err e) s = (s, err e)

-- A build that fails leaves the channels behind, with nobody at their other end.
unfoldable pub orphan_channels : Listener → Listener
orphan_channels s = record s {
  shutdown_tx = none;
  closed_rx = none;
  asked = release s.shutdown_tx s.asked;
}

abbrev pub built : Result Text (Unit {0}) → Listener → Listener × Result Text (Unit {0})
built (ok u) s = (begin s, ok tt)
built (err e) s = (orphan_channels s, err e)

-- `FtpServer::start`
unfoldable pub ftp_start : Result Text (Unit {0}) → Listener → Listener × Result Text (Unit {0})
ftp_start build s = if s.running then (s, ok tt) else built build s

-- The two halves of both `stop` functions, whose order differs: the task is asked to end, and the
-- flag is reset. In between, `stop` waits some seconds for the task.
unfoldable pub ask : Listener → Listener
ask s = record s { shutdown_tx = none; closed_rx = none; asked = release s.shutdown_tx s.asked }

unfoldable pub settle : Listener → Listener
settle s = record s { running = false }

unfoldable pub sftp_stop : Listener → Listener
unfolding ask settle
sftp_stop s = ask (settle s)

unfoldable pub ftp_stop : Listener → Listener
unfolding ask settle
ftp_stop s = settle (ask s)

abbrev pub is_running : Listener → Bool
is_running s = s.running

abbrev pub without : ℕ → List ℕ → List ℕ
without n [] = []
without n (m ∷ ms) = let rest = without n ms in if m == n then rest else m ∷ rest

-- What a task does when its listener is gone.
unfoldable pub end_task : ℕ → Listener → Listener
end_task n s = record s { tasks = without n s.tasks; running = false }

abbrev pub has : ℕ → List ℕ → Bool
has n ms = any (λ m. m == n) ms

-- One step of a server, its callers and its tasks.
infix 40 ◌⟶◌
pub data ◌⟶◌ : Listener → Listener → Type 0 where
  starts_sftp : {s : Listener} (r : Result Text (Unit {0})) → s ⟶ (sftp_start r s).0
  starts_ftp : {s : Listener} (r : Result Text (Unit {0})) → s ⟶ (ftp_start r s).0
  asks : {s : Listener} → s ⟶ ask s
  settles : {s : Listener} → s ⟶ settle s
  ends : {s : Listener} (n : ℕ) → has n s.tasks ≡ true → s ⟶ end_task n s

-- The states that a server comes to.
pub data Reached : Listener → Type 0 where
  fresh : Reached new
  after : {s t : Listener} → Reached s → s ⟶ t → Reached t

-- How FTPS is offered (`build_server_builder` of ftp/src/server.rs): not at all, or with the
-- channels required or not.
pub data Ftps : Type 0 where
  plaintext : Ftps
  offered : Bool → Ftps

abbrev pub ftps_of_files : Bool → Bool → Ftps
ftps_of_files there require_ssl = if there then offered require_ssl else plaintext

abbrev pub ftps_of_paths : (Text → Bool) → Bool → Option Text → Option Text → Ftps
ftps_of_paths exists require_ssl (some cert) (some key) =
    ftps_of_files (exists cert && exists key) require_ssl
ftps_of_paths exists require_ssl none key = plaintext
ftps_of_paths exists require_ssl (some cert) none = plaintext

unfoldable pub ftps : (Text → Bool) → Config → Ftps
ftps exists c = ftps_of_paths exists c.security.require_ssl c.security.cert_path c.security.key_path
