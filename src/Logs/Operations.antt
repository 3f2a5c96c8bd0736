-- ===== src/Logs/Operations.antt =====
-- The shorthands of the file operation log, one for each kind of operation
-- (common/src/server/file_logger.rs).
use wftpd_linux.Base.{
  length, drop, zero, suc, ◌-◌, ℕ, ◌≡◌, refl, sym, ap, ◌∙◌, Bool, true, false, Text, text, List, [],
  ◌∷◌, ◌++◌, map, last_n, min,
}
use mathlib.Core.List.{reverse, reverse-cons, map-append}
use wftpd_linux.Os.{FileLogInfo, Time}
use wftpd_linux.Logs.FileLogger.{
  FileLogger, FileLogEntry, entry_of, with_log_sender, log, log_all, entries_of, get_recent_logs,
  get_recent_logs-log_all,
}

abbrev pub succeeded : Text → Text → Text → Text → ℕ → Text → Text → FileLogInfo
succeeded operation username client_ip file_path file_size protocol message = record {
  username = username;
  client_ip = client_ip;
  operation = operation;
  file_path = file_path;
  file_size = file_size;
  protocol = protocol;
  success = true;
  message = message;
}

module _ (rfc3339 : Time → Text) where
  unfoldable pub log_upload : FileLogger → Time → Text → Text → Text → ℕ → Text → FileLogger
  log_upload l now username client_ip file_path file_size protocol =
      log rfc3339 l now
        (succeeded (text "UPLOAD") username client_ip file_path file_size protocol (text "文件上传成功"))

  unfoldable pub log_update : FileLogger → Time → Text → Text → Text → ℕ → Text → FileLogger
  log_update l now username client_ip file_path file_size protocol =
      log rfc3339 l now
        (succeeded (text "UPDATE") username client_ip file_path file_size protocol (text "文件更新成功"))

  unfoldable pub log_download : FileLogger → Time → Text → Text → Text → ℕ → Text → FileLogger
  log_download l now username client_ip file_path file_size protocol =
      log rfc3339 l now (
        succeeded (text "DOWNLOAD") username client_ip file_path file_size protocol (text "文件下载成功"))

  unfoldable pub log_delete : FileLogger → Time → Text → Text → Text → Text → FileLogger
  log_delete l now username client_ip file_path protocol =
      log rfc3339 l now
        (succeeded (text "DELETE") username client_ip file_path 0 protocol (text "文件删除成功"))

  unfoldable pub log_rename : FileLogger → Time → Text → Text → Text → Text → Text → FileLogger
  log_rename l now username client_ip old_path new_path protocol = log rfc3339 l now (
      succeeded (text "RENAME") username client_ip (old_path ++ text " -> " ++ new_path) 0 protocol
        (text "文件重命名成功"))

  unfoldable pub log_mkdir : FileLogger → Time → Text → Text → Text → Text → FileLogger
  log_mkdir l now username client_ip dir_path protocol =
      log rfc3339 l now
        (succeeded (text "MKDIR") username client_ip dir_path 0 protocol (text "目录创建成功"))

  unfoldable pub log_rmdir : FileLogger → Time → Text → Text → Text → Text → FileLogger
  log_rmdir l now username client_ip dir_path protocol =
      log rfc3339 l now
        (succeeded (text "RMDIR") username client_ip dir_path 0 protocol (text "目录删除成功"))

  unfoldable pub log_failed :
      FileLogger → Time → Text → Text → Text → Text → Text → Text → FileLogger
  log_failed l now username client_ip operation file_path protocol error =
      log rfc3339 l now (record {
        username = username;
        client_ip = client_ip;
        operation = operation;
        file_path = file_path;
        file_size = 0;
        protocol = protocol;
        success = false;
        message = error;
      })

-- A call of one of the shorthands.
pub data Operation : Type 0 where
  upload update download : Text → ℕ → Operation
  delete mkdir rmdir : Text → Operation
  rename : Text → Text → Operation
  failed : Text → Text → Text → Operation

-- Who asks, and over which protocol.
pub record Caller : Type 0 where
  pub username : Text
  pub client_ip : Text
  pub protocol : Text

module _ (rfc3339 : Time → Text) where
  unfoldable pub perform : FileLogger → Time → Caller → Operation → FileLogger
  unfolding log log_upload log_update log_download log_delete log_rename log_mkdir log_rmdir
      log_failed
  perform l now c (upload path size) =
      log_upload rfc3339 l now c.username c.client_ip path size c.protocol
  perform l now c (update path size) =
      log_update rfc3339 l now c.username c.client_ip path size c.protocol
  perform l now c (download path size) =
      log_download rfc3339 l now c.username c.client_ip path size c.protocol
  perform l now c (delete path) = log_delete rfc3339 l now c.username c.client_ip path c.protocol
  perform l now c (mkdir path) = log_mkdir rfc3339 l now c.username c.client_ip path c.protocol
  perform l now c (rmdir path) = log_rmdir rfc3339 l now c.username c.client_ip path c.protocol
  perform l now c (rename old to) =
      log_rename rfc3339 l now c.username c.client_ip old to c.protocol
  perform l now c (failed operation path error) =
      log_failed rfc3339 l now c.username c.client_ip operation path c.protocol error

  abbrev pub perform_all : FileLogger → List (Time × Caller × Operation) → FileLogger
  perform_all l [] = l
  perform_all l ((now, c, o) ∷ calls) = perform_all (perform l now c o) calls

-- The word under which an operation stands in the log, and whether it is shown as a success.
abbrev pub tag : Operation → Text × Bool
tag (upload path size) = (text "UPLOAD", true)
tag (update path size) = (text "UPDATE", true)
tag (download path size) = (text "DOWNLOAD", true)
tag (delete path) = (text "DELETE", true)
tag (mkdir path) = (text "MKDIR", true)
tag (rmdir path) = (text "RMDIR", true)
tag (rename old to) = (text "RENAME", true)
tag (failed operation path error) = (operation, false)

-- Who did what over which protocol, and whether it is shown as a success.
pub record Summary : Type 0 where
  pub username : Text
  pub client_ip : Text
  pub protocol : Text
  pub operation : Text
  pub success : Bool

abbrev pub summary_of : FileLogEntry → Summary
summary_of e = record {
  username = e.username;
  client_ip = e.client_ip;
  protocol = e.protocol;
  operation = e.operation;
  success = e.success;
}

abbrev pub summary_of_call : Time × Caller × Operation → Summary
summary_of_call (now, c, o) = record {
  username = c.username;
  client_ip = c.client_ip;
  protocol = c.protocol;
  operation = (tag o).0;
  success = (tag o).1;
}

map-drop : {A B : Type 0} (f : A → B) (n : ℕ) (xs : List A) → map f (drop n xs) ≡ drop n (map f xs)
map-drop f zero xs = refl
map-drop f (suc n) [] = refl
map-drop f (suc n) (x ∷ xs) = map-drop f n xs

length-map : {A B : Type 0} (f : A → B) (xs : List A) → length (map f xs) ≡ length xs
length-map f [] = refl
length-map f (x ∷ xs) = ap suc (length-map f xs)

map-last_n :
    {A B : Type 0} (f : A → B) (n : ℕ) (xs : List A) → map f (last_n n xs) ≡ last_n n (map f xs)
unfolding last_n
map-last_n f n xs =
    map-drop f (length xs - n) xs ∙ ap (λ k. drop (k - n) (map f xs)) (sym (length-map f xs))

-- The entry that a call logs, with its time.
logged :
    (rfc3339 : Time → Text) (now : Time) (c : Caller) (o : Operation)
    → (info : FileLogInfo) × ((l : FileLogger) → perform rfc3339 l now c o ≡ log rfc3339 l now info)
      × (summary_of (entry_of now info) ≡ summary_of_call (now, c, o))
unfolding perform log
logged rfc3339 now c (upload path size) = (_, λ l. refl, refl)
logged rfc3339 now c (update path size) = (_, λ l. refl, refl)
logged rfc3339 now c (download path size) = (_, λ l. refl, refl)
logged rfc3339 now c (delete path) = (_, λ l. refl, refl)
logged rfc3339 now c (mkdir path) = (_, λ l. refl, refl)
logged rfc3339 now c (rmdir path) = (_, λ l. refl, refl)
logged rfc3339 now c (rename old to) = (_, λ l. refl, refl)
logged rfc3339 now c (failed operation path error) = (_, λ l. refl, refl)

map-reverse : {A B : Type 0} (f : A → B) (xs : List A) → map f (reverse xs) ≡ reverse (map f xs)
map-reverse f [] = refl
map-reverse f (x ∷ xs) =
    ap (map f) (reverse-cons x xs)
    ∙ map-append f (reverse xs) (x ∷ [])
    ∙ ap (λ ys. ys ++ f x ∷ []) (map-reverse f xs)
    ∙ sym (reverse-cons (f x) (map f xs))

-- A run of calls is a run of logged operations.
perform_all-log_all :
    (rfc3339 : Time → Text) (calls : List (Time × Caller × Operation))
    → (infos : List (Time × FileLogInfo)) × ((l : FileLogger)
        → perform_all rfc3339 l calls ≡ log_all rfc3339 l infos)
      × (map summary_of (entries_of rfc3339 infos) ≡ map summary_of_call calls)
unfolding log_all
perform_all-log_all rfc3339 [] = ([], λ l. refl, refl)
perform_all-log_all rfc3339 ((now, c, o) ∷ calls) =
    let (info, same, shown) = logged rfc3339 now c o in
    let (infos, rest, all_shown) = perform_all-log_all rfc3339 calls in
    (
      (now, info) ∷ infos,
      λ l. ap (λ l'. perform_all rfc3339 l' calls) (same l) ∙ rest (log rfc3339 l now info),
      cc (shown, all_shown),
    )

-- After any run of calls, the recent entries show who did what over which protocol, the newest
-- first, as many as were asked for and at most 2000; the failed operations, and only they, are
-- shown as failed.
get_recent_logs-perform_all :
    (rfc3339 : Time → Text) (calls : List (Time × Caller × Operation)) (count : ℕ)
    → map summary_of (get_recent_logs (perform_all rfc3339 (with_log_sender []) calls) count)
      ≡ reverse (last_n (min count 2000) (map summary_of_call calls))
get_recent_logs-perform_all rfc3339 calls count =
    let (infos, same, shown) = perform_all-log_all rfc3339 calls in
    ap (λ l. map summary_of (get_recent_logs l count)) (same (with_log_sender []))
    ∙ ap (map summary_of) (get_recent_logs-log_all rfc3339 infos count).0
    ∙ map-reverse summary_of (last_n (min count 2000) (entries_of rfc3339 infos))
    ∙ ap reverse (
        map-last_n summary_of (min count 2000) (entries_of rfc3339 infos)
        ∙ ap (last_n (min count 2000)) shown)
