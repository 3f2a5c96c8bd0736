-- ===== src/Lib.antt =====
-- A model of wftpd, an FTP and SFTP server for Linux, and theorems about it.
--
-- The daemon (wftpd) holds the configuration, the user library, the logs and the two servers, and
-- takes requests of a front end. The SFTP server (sftp) authenticates SSH connections and runs one
-- file handler for each session; the FTP server (ftp) gives the library libunftp a storage backend.
-- Both check permissions and quotas of the user library (common), confine clients to a home
-- directory, and write an audit log.
--
-- Files and the code they are about:
--   Base, Outcome: shared lists, texts, maps and results; not code of the repository.
--   Paths: std::path as far as it is used, and the loop of both path resolvers
--     (sftp/src/ops/mod.rs, ftp/src/storage.rs).
--   Users, Users/Manager: common/src/users.rs. Hashing, JSON and the file tests are parameters.
--   Os: the requests of a handler to the file system and to shared objects. A handler is a tree of
--     requests, each continued by every reply, so a theorem holds for all replies, and for what
--     other tasks do between two requests.
--   Sftp/Resolve, Session, Files, Stats, Entries, Handler: sftp/src/ops/mod.rs and protocol.rs,
--     one function for each handler under its name there. Sftp/Policy and its neighbours hold the
--     policy and the proofs.
--   Sftp/Auth: sftp/src/handler.rs.
--   Ftp/Storage: ftp/src/storage.rs. Ftp/Auth: ftp/src/auth.rs.
--   Sftp/Extended: sftp/src/ops/extended.rs. The hash functions are a parameter.
--   Server: common/src/server/login_tracker.rs, speed_limiter.rs and quota.rs.
--   Logs: LogBuffer of common/src/tracing_logger.rs, common/src/server/file_logger.rs, and
--     wftpd/src/logs.rs (Tail, Listing, Parsing). The library serde_json is a parameter.
--   Filter: the address filter of common/src/config.rs.
--   Disk: the file system that keeps the configuration and the users, as an interface with laws, and
--     the replacement of a file by way of a temporary one.
--   Config: the rest of common/src/config.rs. The library toml is a parameter.
--   Paths/Installation: common/src/paths.rs, of the environment as a parameter.
--   Proto: proto/src/convert.rs.
--   Listener: the starts and stops of sftp/src/server.rs and ftp/src/server.rs. Sftp/HostKey: the
--     host key of the SFTP server. The library ssh_key is a parameter.
--   Daemon: wftpd/src/state.rs and wftpd/src/control.rs: the services in Daemon, the configuration,
--     users and directories in Daemon/Requests, the logs in Daemon/Requests/Logging. Daemon/Startup:
--     the making of that state, and run of wftpd/src/main.rs.
--   Logs/Levels, Logs/Events: the filters and events of common/src/tracing_logger.rs, of tracing_subscriber as a parameter.
--   Gui: the front end: saves of the settings (push_security_config of wftpg/src/ui/security_tab.rs
--     and the buttons of server_tab.rs), in Gui/Forms the forms, in Gui/Entries the lists of
--     addresses, in Gui/Denied the way of a denied address to the FTP login, in Gui/Accounts the
--     users (user_dialog.rs, user_tab.rs), in Gui/Logging log_tab.rs, in
--     Gui/Directories suggested_dirs.rs.
--     The requests are those of Daemon/Requests, over a link that may fail or lose the answer.
--
-- Numbers are natural numbers; counters of a fixed width wrap around or saturate where the code
-- does. Texts are lists of Unicode scalar values, and a path is its list of components where the
-- code compares or joins paths. Fuel is in the search for a free handle, one more than there are
-- handles, in the digits of a number, and in the loop of a digest, one more than there are bytes to
-- read; each is enough, by the lemmas of Sftp/Numbering and Sftp/Extended/Reading. Times are
-- arguments.
--
-- Not modelled: sockets and signals, the options of the SSH and FTP libraries, the
-- formats and files of the log layers, and of the front end its widgets, messages and log views.
pub mod Base
pub mod Outcome
pub mod Paths
pub mod Users
pub mod Os
pub mod Sftp
pub mod Ftp
pub mod Server
pub mod Logs
pub mod Filter
pub mod Proto
pub mod Disk
pub mod Config
pub mod Listener
pub mod Daemon
pub mod Gui
