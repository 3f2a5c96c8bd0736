-- ===== src/Logs/LevelTests.antt =====
-- The levels of the log at a concrete setting.
use wftpd_linux.Base.{
  arith, ◌≡◌, refl, Bool, true, false, ◌&&◌, none, some, List, [], ◌∷◌, Text, text, if◌then◌else◌,
}
use wftpd_linux.Logs.LogBuffer.{new, recent}
use wftpd_linux.Logs.Events.{on_event}
use wftpd_linux.Logs.Levels.{
  Level, info, debug, LevelFilter, off, up_to, passes, TargetFilters, begins_with, init_tracing,
  set_log_level, reaches, IsOwn, set_log_level_lem, level_to_filter,
}

-- Directives with the latest first, each for the targets that begin with its prefix.
abbrev decide : LevelFilter → List (Text × LevelFilter) → Text → Level → Bool
decide default [] target m = passes default m
decide default ((prefix, l) ∷ directives) target m =
    if begins_with prefix target then passes l m else decide default directives target m

begins_self : (s : Text) → begins_with s s ≡ true
begins_self [] = refl
begins_self (c ∷ s) = ground (arith, begins_self s)

abbrev latest_first : TargetFilters
latest_first = record {
  Targets = LevelFilter × List (Text × LevelFilter);
  new = (off, []);
  with_default = λ t l. (l, t.1);
  with_target = λ t p l. (t.0, (p, l) ∷ t.1);
  enabled = λ t target m. decide t.0 t.1 target m;
  new_default = λ l target m. refl;
  others = λ t p target l m e. rw e refl;
  longest = λ t target l m. rw (begins_self target) refl;
}

abbrev as_is : Text → Text
as_is s = s

abbrev own_target : Text
own_target = text "wftpd::control"

own_target-IsOwn : IsOwn latest_first as_is own_target
own_target-IsOwn = record {
  not_russh = refl;
  not_russh_keys = refl;
  not_tonic = refl;
  not_h2 = refl;
  not_tokio = refl;
  not_runtime = refl;
}

set_log_level_lem_example :
    let t =
      set_log_level latest_first as_is
        (text "debug")
        (init_tracing latest_first as_is (text "info")) in
    (reaches latest_first as_is t t.program own_target debug ≡ true && false)
    × (reaches latest_first as_is t t.console own_target debug
        ≡ reaches latest_first as_is t t.program own_target debug)
    × (reaches latest_first as_is t t.memory own_target debug
        ≡ reaches latest_first as_is t t.program own_target debug)
    × (reaches latest_first as_is t t.audit (text "file_ops") info ≡ true)
    × (reaches latest_first as_is t t.program (text "file_ops") debug ≡ false)
unfolding level_to_filter
set_log_level_lem_example =
    set_log_level_lem latest_first as_is (text "info") (text "debug") own_target debug
      own_target-IsOwn refl

-- The audit log is off at the level warn.
audit_off :
    reaches latest_first as_is
      (init_tracing latest_first as_is (text "warn"))
      (init_tracing latest_first as_is (text "warn")).audit
      (text "file_ops")
      info
    ≡ false
unfolding init_tracing wftpd_linux.Logs.Levels.parse_log_level level_to_filter
audit_off = refl

abbrev login_event : List (Text × Text)
login_event =
    (text "username", text "alice") ∷ (text "message", text "login") ∷ (text "port", text "22") ∷ []

collected :
    recent (on_event (new 5) (text "t") (text "INFO") own_target login_event) 1
    ≡ (record {
      timestamp = text "t";
      level = text "INFO";
      source = own_target;
      message = text "login";
      client_ip = none;
      username = some (text "alice");
      action = none;
    })
      ∷ []
unfolding on_event recent wftpd_linux.Logs.LogBuffer.push wftpd_linux.Logs.Ring.push_bounded new
    wftpd_linux.Logs.Events.record_field
collected = refl
