-- ===== src/Sftp/Handles.antt =====
-- The table of open handles.
use wftpd_linux.Base.{ℕ, ◌+◌, ◌≡◌, none, Text, Bool-cases, inl, inr, text_eq}
use wftpd_linux.Base.Dict.{Dict, lookup, insert, remove, lookup-remove}
use wftpd_linux.Outcome.{Result, ok, err}
use wftpd_linux.Os.{Effect, Reply}
use wftpd_linux.Sftp.Session.{
  Session, StatusCode, M, OpenEntry, ◌>>=◌, ◌>>◌, pure, next_handle_id, insert_handle, next,
}
use wftpd_linux.Sftp.Logic.{Triple, Sat}
use wftpd_linux.Sftp.Numbering.{IsNumbered}

-- What a request that opens something does to the table: the new handle was in use by nobody, its
-- entry is stored, the others are as before, and the numbering goes on.
abbrev pub Opened : Session → Result StatusCode Text × Session → Type 0
Opened s (err c, s') = s' ≡ s
Opened s (ok h, s') =
    (entry : OpenEntry) × (lookup h s.handles ≡ none)
    × (s' ≡ record s { handles = insert h entry s.handles; next_handle = s.next_handle + 1 })
    × IsNumbered s'.handles s'.next_handle

-- Closing a handle keeps the numbering.
pub remove-IsNumbered :
    (handles : Dict OpenEntry) (next : ℕ) (h : Text)
    → IsNumbered handles next
    → IsNumbered (remove h handles) next
remove-IsNumbered handles next h numbered k e found = elim (Bool-cases (text_eq h k)) [
  | inl same ↦ absurd (let gone = rw (lookup-remove, same) at found in cc)
  | inr other ↦ numbered k e (rw (lookup-remove, other) at found)
]

-- The last steps of OPEN and OPENDIR.
abbrev store : OpenEntry → M Text
store entry = next_handle_id >>= λ h. (insert_handle h entry >> pure h)

module _ (Admits : (e : Effect) → Reply e → Type 0) (s : Session) where
  abbrev Unchanged : Session → Type 0
  Unchanged s' = s' ≡ s

  abbrev Reads : {A : Type 0} → M A → Type 0
  Reads = Sat Admits (λ _. Unit {0}) Unchanged (λ _. Unit {0})

  abbrev Opens : M Text → Type 0
  Opens m = Triple Admits (λ _. Unit {0}) Unchanged Unchanged (λ h s'. Opened s (ok h, s')) m
