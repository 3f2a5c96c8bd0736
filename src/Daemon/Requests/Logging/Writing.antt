-- ===== src/Daemon/Requests/Logging/Writing.antt =====
-- The change of the log settings, and the lines of the audit log.
use wftpd_linux.Base.{
  ◌≡◌, ◌≢◌, refl, sym, ap, ◌∙◌, ◌⊎◌, inl, inr, ◌++◌, append_assoc, Text, text, none,
}
use wftpd_linux.Outcome.{Result, ok, err}
use wftpd_linux.Paths.Names.{with_extension}
use wftpd_linux.Disk.{Fs, IsDisk}
use wftpd_linux.Config.{Config, Toml, save}
use wftpd_linux.Disk.Saving.{Stored}
use wftpd_linux.Config.Keeping.{save-Stored}
use wftpd_linux.Daemon.Requests.{internal}
use wftpd_linux.Daemon.Requests.Logging.{
  SaveLogConfigRequest, updated, Saved, after_saving, save_log_config, AuditEntry, audit_line,
}

module _ (F : Fs) (toml : Toml) (set_log_level : Text → Result Text (Unit {0}))
    (disk : IsDisk F) where
  -- The settings are on disk, or an error is answered, the file is as it was and no level was set.
  abbrev pub SettingsKept : Text → SaveLogConfigRequest → Config → F.World → Saved F.World → Type 0
  SettingsKept path req old w out =
      ((s : Text) × (toml.to_string_pretty (updated req old) ≡ ok s)
        × (F.read_to_string out.world path ≡ ok s))
      ⊎ ((e : Text) × (out.answer ≡ err (internal e))
          × (out.level ≡ none)
          × (F.read_to_string out.world path ≡ F.read_to_string w path))

  after_saving-Kept :
      (path : Text) (req : SaveLogConfigRequest) (old : Config) (w : F.World)
      (out : Result Text (Unit {0}) × F.World)
      → Stored F (toml.to_string_pretty (updated req old)) path w out
      → ((after_saving F toml set_log_level req old out).config ≡ updated req old)
        × SettingsKept path req old w (after_saving F toml set_log_level req old out)
  after_saving-Kept path req old w (ok u, v) (inl (s, printed, done, holds)) =
      (refl, inl (s, printed, holds))
  after_saving-Kept path req old w (ok u, v) (inr (e, failed, same)) = absurd cc
  after_saving-Kept path req old w (err e, v) (inl (s, printed, done, holds)) = absurd cc
  after_saving-Kept path req old w (err e, v) (inr (e', failed, same)) =
      (refl, inr (e, refl, refl, same))

  -- The new settings are in memory in any case. They are on disk as well; or an error is answered,
  -- the file holds what it held before, and no level was set.
  pub save_log_config-Kept :
      (path : Text) (req : SaveLogConfigRequest) (old : Config) (w : F.World)
      → path ≢ with_extension path (text "tmp")
      → ((save_log_config F toml set_log_level path req old w).config ≡ updated req old)
        × SettingsKept path req old w (save_log_config F toml set_log_level path req old w)
  unfolding save_log_config
  save_log_config-Kept path req old w apart =
      after_saving-Kept path req old w (save F toml (updated req old) path w)
        (save-Stored F toml disk (updated req old) path w apart)

-- What stands in front of the details.
abbrev fields : Text → AuditEntry → Text → Text
fields timestamp e rest =
    timestamp
    ++ (text " | "
        ++ (e.user
            ++ (text " | " ++ (e.action ++ (text " | " ++ (e.target ++ (text " | " ++ rest)))))))

fields-append :
    (timestamp : Text) (e : AuditEntry) (rest more : Text)
    → fields timestamp e rest ++ more ≡ fields timestamp e (rest ++ more)
fields-append timestamp e rest more = simp (
  append_assoc timestamp _ more,
  append_assoc e.user _ more,
  append_assoc e.action _ more,
  append_assoc e.target _ more,
)

-- A line without its line break.
abbrev pub audit_text : Text → AuditEntry → Text
audit_text timestamp e = fields timestamp e e.details

-- An entry whose details go on with a line break and the text of another line writes what two
-- entries write: who sends an entry can add lines under any name and time.
audit_line_forged :
    (timestamp other_time : Text) (e other : AuditEntry)
    → audit_line timestamp
        (record e { details = e.details ++ (text "\n" ++ audit_text other_time other) })
      ≡ audit_line timestamp e ++ audit_line other_time other
unfolding audit_line
audit_line_forged timestamp other_time e other =
    let other_line = audit_text other_time other in
    let shape : (e.details ++ (text "\n" ++ other_line)) ++ text "\n"
        ≡ (e.details ++ text "\n") ++ (other_line ++ text "\n") =
      append_assoc e.details (text "\n" ++ other_line) (text "\n")
      ∙ sym (append_assoc e.details (text "\n") (other_line ++ text "\n")) in
    ap (fields timestamp e) shape
    ∙ sym (fields-append timestamp e (e.details ++ text "\n") (other_line ++ text "\n"))
    ∙ ap (λ s. fields timestamp e (e.details ++ text "\n") ++ s)
        (fields-append other_time other other.details (text "\n"))
