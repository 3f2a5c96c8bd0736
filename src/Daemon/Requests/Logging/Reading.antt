-- ===== src/Daemon/Requests/Logging/Reading.antt =====
-- A log file is only read inside the log directory, and a follower of the log sees what it should.
use wftpd_linux.Base.{
  ℕ, ◌<◌, ◌^◌, ◌≡◌, refl, sym, ap, ◌∙◌, ◌⊎◌, inl, inr, Bool, true, false, none, some, Option-cases,
  List, [], ◌∷◌, ◌++◌, map, map-append, Text, text, text_eq, Bool-cases, last_n, min, if◌then◌else◌,
  arith,
}
use wftpd_linux.Outcome.{Result, ok, err}
use wftpd_linux.Os.{Time}
use wftpd_linux.Paths.{PathBuf, strip_prefix}
use wftpd_linux.Config.{LoggingConfig}
use wftpd_linux.Logs.LogBuffer.{
  LogEntryJson, new, pushes, recent, recent-pushes, subscribe, received_by, received_by-pushes,
}
use wftpd_linux.Logs.FileLogger.{FileLogger}
use wftpd_linux.Logs.Tail.{tail_lines-last}
use wftpd_linux.Logs.Parsing.{
  filter_map, parse_program_line, parse_file_op_line, read_program_log, read_file_op_log,
}
use wftpd_linux.Proto.{LogEntry, FileOpLogEntry, entry_to_proto, file_op_to_proto}
use wftpd_linux.Daemon.Requests.{Status, invalid_argument}
use wftpd_linux.Daemon.Requests.Logging.{
  LogFiles, outside, compare_paths, if_inside, starts_with_path, ensure_path_in_dir,
  get_log_file_content, get_file_op_log_content, Received, entry, relay, replay, listening,
  watch_logs,
}

module _ (L : LogFiles) where
  open L use {json, canonicalize, lines}

  -- The canonical path lies in the canonical directory.
  abbrev pub Inside : Text → Text → Type 0
  Inside path dir =
      (p : PathBuf) × (d : PathBuf) × (rest : PathBuf) × (canonicalize path ≡ ok p)
      × (canonicalize dir ≡ ok d)
      × (strip_prefix d p ≡ some rest)

  -- The file is inside and its content is answered, or it is not and the request is refused.
  abbrev pub OnlyInside : {A : Type 0} → Text → Text → A → Result Status A → Type 0
  OnlyInside path dir a r =
      (Inside path dir × (r ≡ ok a))
      ⊎ ((¬ Inside path dir) × ((e : Text) × (r ≡ err (invalid_argument e))))

  below :
      (d p : PathBuf)
      → starts_with_path d p ≡ true
      → (rest : PathBuf) × (strip_prefix d p ≡ some rest)
  below d p h = elim (Option-cases (strip_prefix d p)) [
    | inl apart ↦ absurd (cc (ap (λ o. elim o [ none ↦ false | some rest ↦ true ]) apart, h))
    | inr found ↦ found
  ]

  apart : (p d rest : PathBuf) → starts_with_path d p ≡ false → ¬ (strip_prefix d p ≡ some rest)
  apart p d rest h found =
      absurd (cc (ap (λ o. elim o [ none ↦ false | some rest ↦ true ]) found, h))

  compared :
      {A : Type 0} (path dir : Text) (a : A) (p d : Result Text PathBuf)
      → canonicalize path ≡ p
      → canonicalize dir ≡ d
      → OnlyInside path dir a (if_inside (compare_paths path p d) a)
  compared path dir a (err e) d hp hd =
      inr ((λ (p, d', rest, at_p, at_d, found). absurd cc), (e, refl))
  compared path dir a (ok p) (err e) hp hd =
      inr ((λ (p', d, rest, at_p, at_d, found). absurd cc), (e, refl))
  compared path dir a (ok p) (ok d) hp hd = elim (Bool-cases (starts_with_path d p)) [
    | inl inside ↦
        let (rest, found) = below d p inside in
        inl (
          (p, d, rest, hp, hd, found),
          ap (λ b. if_inside (if b then ok tt else err (outside path)) a) inside,
        )
    | inr other ↦ inr (
      λ (p', d', rest, at_p, at_d, found).
          apart p d rest other (let same_p : p' ≡ p = cc in let same_d : d' ≡ d = cc in cc),
      (outside path, ap (λ b. if_inside (if b then ok tt else err (outside path)) a) other),
    )
  ]

  checked :
      {A : Type 0} (path dir : Text) (a : A)
      → OnlyInside path dir a (if_inside (ensure_path_in_dir L path dir) a)
  unfolding ensure_path_in_dir
  checked path dir a = compared path dir a (canonicalize path) (canonicalize dir) refl refl

  -- The entries of the last lines of a program log, and of a file operation log.
  abbrev pub program_entries : ℕ → List Text → List LogEntry
  program_entries count file =
      map entry_to_proto (filter_map json (parse_program_line json) (last_n count file))

  abbrev pub file_op_entries : ℕ → List Text → List FileOpLogEntry
  file_op_entries count file =
      map file_op_to_proto (filter_map json (parse_file_op_line json) (last_n count file))

  -- A request for the content of a log file that can be opened is answered with the entries of
  -- its last lines, as many as were asked for, a number of 32 bits, if its canonical path lies
  -- in the canonical log directory, and refused otherwise; of the file operation log, any path
  -- but current.
  pub get_log_content-OnlyInside :
      (rfc3339 : Time → Text) (l : FileLogger) (cfg : LoggingConfig) (path : Text) (count : ℕ)
      (file : List Text)
      → count < 2 ^ 32
      → lines path ≡ some file
      → text_eq path (text "current") ≡ false
      → OnlyInside path cfg.log_dir
          (program_entries count file)
          (get_log_file_content L cfg path count)
        × OnlyInside path cfg.log_dir
            (file_op_entries count file)
            (get_file_op_log_content L rfc3339 l cfg path count)
  unfolding get_log_file_content get_file_op_log_content read_program_log read_file_op_log
  get_log_content-OnlyInside rfc3339 l cfg path count file small opened named =
      let tail = (tail_lines-last file count (omega arith)).0 in
      (
        rw (opened, tail) (checked path cfg.log_dir (program_entries count file)),
        rw (named, opened, tail) (checked path cfg.log_dir (file_op_entries count file)),
      )

replay-all :
    (history : List LogEntryJson) (live : List LogEntry)
    → replay (listening (λ e. true) history) live ≡ map entry_to_proto history ++ live
unfolding replay
replay-all [] live = refl
replay-all (e ∷ history) live = ap (λ es. entry_to_proto e ∷ es) (replay-all history live)

abbrev pub received : List LogEntryJson → List (Received × Bool)
received es = listening (λ r. true) (map entry es)

relay-all : (later : List LogEntryJson) → relay (received later) ≡ map entry_to_proto later
unfolding relay
relay-all [] = refl
relay-all (e ∷ later) = ap (λ es. entry_to_proto e ∷ es) (relay-all later)

-- Of a buffer with room for an entry, a follower of the log that keeps listening and is never too
-- slow sees the last entries that were in it when the history was read, as many as it asked for
-- and as the buffer holds, and then, in order, the entries that are pushed after the subscription
-- was made; those that are pushed between the two are not sent to it. Where the configuration
-- does not allow it, it sees nothing.
pub watch_logs-pushes :
    (cfg : LoggingConfig) (capacity tail_count : ℕ) (before between later : List LogEntryJson)
    → 0 < capacity
    → let read_at = pushes (new capacity) before in
      let subscribed_at = pushes read_at between in
      watch_logs cfg read_at tail_count
        (λ e. true)
        (received (received_by (subscribe subscribed_at) (pushes subscribed_at later)))
      ≡ (if cfg.enable_gui_logging
          then map entry_to_proto (last_n (min tail_count capacity) before ++ later)
          else [])
unfolding watch_logs
watch_logs-pushes cfg capacity tail_count before between later room =
    let read_at = pushes (new capacity) before in
    let heard = received_by-pushes (pushes read_at between) later in
    ap (λ es. if cfg.enable_gui_logging then es else [])
      (ap (λ es. replay (listening (λ e. true) (recent read_at tail_count)) (relay (received es)))
          heard
        ∙ replay-all (recent read_at tail_count) (relay (received later))
        ∙ ap (λ es. map entry_to_proto (recent read_at tail_count) ++ es) (relay-all later)
        ∙ ap (λ es. map entry_to_proto es ++ map entry_to_proto later)
            (recent-pushes capacity tail_count before room).0
        ∙ sym (map-append entry_to_proto (last_n (min tail_count capacity) before) later))
