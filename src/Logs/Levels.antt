-- ===== src/Logs/Levels.antt =====
-- The levels of the program log (common/src/tracing_logger.rs): the filters that `init_tracing`
-- gives its layers, and their change by `set_log_level`. The library tracing_subscriber is a
-- parameter: a layer gets an event that the layer's own filter and the global one let through.

use wftpd_linux.Base.{
  ℕ, ◌≡◌, refl, ◌∙◌, Bool, true, false, ◌&&◌, [], ◌∷◌, Text, text, text_eq, leb, ◌==◌,
  if◌then◌else◌,
}

pub data Level : Type 0 where
  error warn info debug trace : Level

abbrev verbosity : Level → ℕ
verbosity error = 1
verbosity warn = 2
verbosity info = 3
verbosity debug = 4
verbosity trace = 5

pub data LevelFilter : Type 0 where
  off : LevelFilter
  up_to : Level → LevelFilter

abbrev pub passes : LevelFilter → Level → Bool
passes off m = false
passes (up_to l) m = leb (verbosity m) (verbosity l)

-- `level_to_filter`, of the level in lower case.
unfoldable pub level_to_filter : Text → LevelFilter
level_to_filter level =
    if text_eq level (text "trace")
    then up_to trace
    else if text_eq level (text "debug")
    then up_to debug
    else if text_eq level (text "warn")
    then up_to warn
    else if text_eq level (text "warning")
    then up_to warn
    else if text_eq level (text "error")
    then up_to error
    else if text_eq level (text "off")
    then off
    else up_to info

abbrev pub begins_with : Text → Text → Bool
begins_with [] s = true
begins_with (c ∷ p) [] = false
begins_with (c ∷ p) (d ∷ s) = c == d && begins_with p s

-- `Targets` of tracing_subscriber, and what its documentation says of it: the default is for
-- targets that no prefix matches, and the longest prefix decides.
pub record TargetFilters : Type 1 where
  pub Targets : Type 0
  pub new : Targets
  pub with_default : Targets → LevelFilter → Targets
  pub with_target : Targets → Text → LevelFilter → Targets
  pub enabled : Targets → Text → Level → Bool
  pub new_default :
      (l : LevelFilter) (target : Text) (m : Level)
      → enabled (with_default new l) target m ≡ passes l m
  pub others :
      (t : Targets) (prefix target : Text) (l : LevelFilter) (m : Level)
      → begins_with prefix target ≡ false
      → enabled (with_target t prefix l) target m ≡ enabled t target m
  pub longest :
      (t : Targets) (target : Text) (l : LevelFilter) (m : Level)
      → enabled (with_target t target l) target m ≡ passes l m

and_true : (b : Bool) → (b && true) ≡ b
and_true true = refl
and_true false = refl

and_false : (b : Bool) → (b && false) ≡ false
and_false true = refl
and_false false = refl

both : {a b c d : Bool} → a ≡ c → b ≡ d → (a && b) ≡ (c && d)
both p q = cc

module _ (lib : TargetFilters) (to_lowercase : Text → Text) where
  open lib use {Targets, with_default, with_target, enabled}

  unfoldable pub parse_log_level : Text → Targets
  parse_log_level level =
      let t = with_default lib.new (level_to_filter (to_lowercase level)) in
      let t1 = with_target t (text "russh") (up_to info) in
      let t2 = with_target t1 (text "russh-keys") (up_to warn) in
      let t3 = with_target t2 (text "tonic") (up_to info) in
      let t4 = with_target t3 (text "h2") (up_to warn) in
      let t5 = with_target t4 (text "tokio") (up_to warn) in
      with_target t5 (text "runtime") (up_to warn)

  -- The filters of the layers, and the one that can be reloaded.
  pub record Tracing : Type 0 where
    pub reload_filter : Targets
    pub console : Targets
    pub program : Targets
    pub audit : Targets
    pub memory : Targets

  unfoldable pub init_tracing : Text → Tracing
  init_tracing log_level =
      let filter = parse_log_level log_level in
      record {
        reload_filter = filter;
        console = with_target filter (text "file_ops") off;
        program = with_target filter (text "file_ops") off;
        audit = with_target lib.new (text "file_ops") (up_to info);
        memory = with_target filter (text "file_ops") off;
      }

  unfoldable pub set_log_level : Text → Tracing → Tracing
  set_log_level level t = record t { reload_filter = parse_log_level level }

  abbrev pub reaches : Tracing → Targets → Text → Level → Bool
  reaches t layer target m = enabled t.reload_filter target m && enabled layer target m

  -- A target of the program itself, which no directive is about.
  pub record IsOwn (target : Text) : Type 0 where
    pub not_russh : begins_with (text "russh") target ≡ false
    pub not_russh_keys : begins_with (text "russh-keys") target ≡ false
    pub not_tonic : begins_with (text "tonic") target ≡ false
    pub not_h2 : begins_with (text "h2") target ≡ false
    pub not_tokio : begins_with (text "tokio") target ≡ false
    pub not_runtime : begins_with (text "runtime") target ≡ false

  own_level :
      (level target : Text) (m : Level)
      → IsOwn target
      → enabled (parse_log_level level) target m ≡ passes (level_to_filter (to_lowercase level)) m
  unfolding parse_log_level
  own_level level target m own =
      lib.others _ (text "runtime") target _ m own.not_runtime
      ∙ lib.others _ (text "tokio") target _ m own.not_tokio
      ∙ lib.others _ (text "h2") target _ m own.not_h2
      ∙ lib.others _ (text "tonic") target _ m own.not_tonic
      ∙ lib.others _ (text "russh-keys") target _ m own.not_russh_keys
      ∙ lib.others _ (text "russh") target _ m own.not_russh
      ∙ lib.new_default _ target m

  abbrev level_of : Text → LevelFilter
  level_of level = level_to_filter (to_lowercase level)

  file_ops-IsOwn : IsOwn (text "file_ops")
  file_ops-IsOwn = record {
    not_russh = refl;
    not_russh_keys = refl;
    not_tonic = refl;
    not_h2 = refl;
    not_tokio = refl;
    not_runtime = refl;
  }

  -- After the level was changed, an event of the program itself reaches the console, the program
  -- log and the buffer exactly when the level of the start and the new one both let it through; a
  -- file operation at the level info reaches the audit log exactly when the new level lets it
  -- through, and none reaches the program log.
  pub set_log_level_lem :
      (old level target : Text) (m : Level)
      → IsOwn target
      → begins_with (text "file_ops") target ≡ false
      → let t = set_log_level level (init_tracing old) in
        (reaches t t.program target m ≡ passes (level_of level) m && passes (level_of old) m)
        × (reaches t t.console target m ≡ reaches t t.program target m)
        × (reaches t t.memory target m ≡ reaches t t.program target m)
        × (reaches t t.audit (text "file_ops") info ≡ passes (level_of level) info)
        × (reaches t t.program (text "file_ops") m ≡ false)
  unfolding set_log_level init_tracing
  set_log_level_lem old level target m own apart = (
    rw
        (
          own_level level target m own,
          lib.others _ (text "file_ops") target off m apart,
          own_level old target m own,
        )
        refl,
    refl,
    refl,
    both (own_level level (text "file_ops") info file_ops-IsOwn)
          (lib.longest lib.new (text "file_ops") (up_to info) info)
        ∙ and_true (passes (level_of level) info),
    both (own_level level (text "file_ops") m file_ops-IsOwn)
          (lib.longest (parse_log_level old) (text "file_ops") off m)
        ∙ and_false (passes (level_of level) m),
  )
