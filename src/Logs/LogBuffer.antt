-- ===== src/Logs/LogBuffer.antt =====
-- The ring buffer of program log entries (common/src/tracing_logger.rs). The broadcasts are kept in
-- the order they were sent.
use wftpd_linux.Base.{
  ℕ, ◌-◌, ◌<◌, ◌≡◌, refl, sym, ap, ◌∙◌, Option, Text, List, [], ◌∷◌, ◌++◌, length, drop, last_n,
  last_n-min, min, append_assoc, append-nil,
}
use wftpd_linux.Logs.Ring.{push_bounded, push_all, push_all_lem}

pub record LogEntryJson : Type 0 where
  pub timestamp : Text
  pub level : Text
  pub source : Text
  pub message : Text
  pub client_ip : Option Text
  pub username : Option Text
  pub action : Option Text

pub record LogBuffer : Type 0 where
  pub entries : List LogEntryJson
  pub capacity : ℕ
  pub sent : List LogEntryJson

unfoldable pub new : ℕ → LogBuffer
new capacity = record { entries = []; capacity = capacity; sent = [] }

unfoldable pub push : LogBuffer → LogEntryJson → LogBuffer
push b entry = record b {
  entries = push_bounded b.capacity entry b.entries;
  sent = b.sent ++ entry ∷ [];
}

unfoldable pub recent : LogBuffer → ℕ → List LogEntryJson
recent b count = drop (length b.entries - count) b.entries

-- A run of pushes.
unfoldable pub pushes : LogBuffer → List LogEntryJson → LogBuffer
pushes b [] = b
pushes b (entry ∷ entries) = pushes (push b entry) entries

-- `subscribe`: a receiver gets what is sent after it was made. It is the number of entries sent
-- before; `received_by` is what it can receive once the buffer is in a later state.
unfoldable pub subscribe : LogBuffer → ℕ
subscribe b = length b.sent

unfoldable pub received_by : ℕ → LogBuffer → List LogEntryJson
received_by receiver later = drop receiver later.sent

drop-append : (xs ys : List LogEntryJson) → drop (length xs) (xs ++ ys) ≡ ys
drop-append [] ys = refl
drop-append (x ∷ xs) ys = drop-append xs ys

pushes_entries :
    (entries : List LogEntryJson) (b : LogBuffer)
    → (pushes b entries).entries ≡ push_all b.capacity entries b.entries
unfolding pushes push push_all
pushes_entries [] b = refl
pushes_entries (entry ∷ entries) b = pushes_entries entries _

pushes_sent :
    (entries : List LogEntryJson) (b : LogBuffer) → (pushes b entries).sent ≡ b.sent ++ entries
unfolding pushes push
pushes_sent [] b = sym (append-nil b.sent)
pushes_sent (entry ∷ entries) b = pushes_sent entries _ ∙ append_assoc b.sent (entry ∷ []) entries

-- A receiver gets the entries that are pushed after it was made.
pub received_by-pushes :
    (b : LogBuffer) (entries : List LogEntryJson)
    → received_by (subscribe b) (pushes b entries) ≡ entries
unfolding subscribe received_by
received_by-pushes b entries =
    ap (drop (length b.sent)) (pushes_sent entries b) ∙ drop-append b.sent entries

recent_lem : (b : LogBuffer) (count : ℕ) → recent b count ≡ last_n count b.entries
unfolding recent last_n
recent_lem b count = refl

-- A buffer with room for at least one entry gives the last entries that were pushed, in the order
-- of the pushes, as many as were asked for and as it has room for; and each entry was broadcast
-- once, in order.
pub recent-pushes :
    (capacity count : ℕ) (entries : List LogEntryJson)
    → 0 < capacity
    → (recent (pushes (new capacity) entries) count ≡ last_n (min count capacity) entries)
      × ((pushes (new capacity) entries).sent ≡ entries)
unfolding new
recent-pushes capacity count entries room =
    let held : (pushes (new capacity) entries).entries ≡ last_n capacity entries =
      pushes_entries entries (new capacity) ∙ push_all_lem capacity entries room in
    (
      recent_lem (pushes (new capacity) entries) count
          ∙ ap (last_n count) held
          ∙ last_n-min count capacity entries,
      pushes_sent entries (new capacity),
    )
