-- ===== src/Listener/Life.antt =====
-- No listening task is out of reach of `stop`, and what a slow stop does to the next start.
use wftpd_linux.Base.{
  ◌<◌, ℕ, ◌≡◌, refl, ◌⊎◌, inl, inr, Bool, true, false, Option, none, some, List, [], ◌∷◌, All, Text,
  if◌then◌else◌, ◌==◌, Bool-cases, subst, arith,
}
use wftpd_linux.Outcome.{Result, ok, err}
use wftpd_linux.Listener.{
  Listener, new, release, begin, sftp_start, orphan_channels, ftp_start, built, ask, settle,
  is_running, without, end_task, has, ◌⟶◌, starts_sftp, starts_ftp, asks, settles, ends, Reached,
  fresh, after, ftp_stop, sftp_stop,
}

-- A task has been asked to end, or `stop` holds its sender.
abbrev pub Held : List ℕ → Option ℕ → ℕ → Type 0
Held asked sender n = (has n asked ≡ true) ⊎ (sender ≡ some n)

abbrev pub InReach : Listener → Type 0
InReach s = All (Held s.asked s.shutdown_tx) s.tasks

has-cons : (n m : ℕ) (ms : List ℕ) → has n ms ≡ true → has n (m ∷ ms) ≡ true
has-cons n m ms h = ground arith

has-head : (n : ℕ) (ms : List ℕ) → has n (n ∷ ms) ≡ true
has-head n ms = ground arith

-- A task whose sender is used or dropped has been asked.
release-asked :
    (asked : List ℕ) (sender : Option ℕ) (n : ℕ)
    → Held asked sender n
    → has n (release sender asked) ≡ true
release-asked asked none n (inl h) = h
release-asked asked none n (inr e) = absurd cc
release-asked asked (some m) n (inl h) = has-cons n m asked h
release-asked asked (some m) n (inr e) =
    subst (λ k. has k (m ∷ asked) ≡ true) (cc e) (has-head m asked)

All-map : {P Q : ℕ → Type 0} (f : (n : ℕ) → P n → Q n) (ns : List ℕ) → All P ns → All Q ns
All-map f [] h = tt
All-map f (n ∷ ns) h = (f n h.0, All-map f ns h.1)

released :
    (asked : List ℕ) (sender next : Option ℕ) (ns : List ℕ)
    → All (Held asked sender) ns
    → All (Held (release sender asked) next) ns
released asked sender next ns h = All-map (λ n held. inl (release-asked asked sender n held)) ns h

without-All : (P : ℕ → Type 0) (m : ℕ) (ns : List ℕ) → All P ns → All P (without m ns)
without-All P m [] h = tt
without-All P m (n ∷ ns) h =
    let rest = without-All P m ns h.1 in
    elim (Bool-cases (n == m)) [ inl e ↦ rw e rest | inr e ↦ rw e (h.0, rest) ]

begin-InReach : (s : Listener) → InReach s → InReach (begin s)
unfolding begin
begin-InReach s h = (inr refl, released s.asked s.shutdown_tx (some s.next) s.tasks h)

built-InReach : (r : Result Text (Unit {0})) (s : Listener) → InReach s → InReach (built r s).0
unfolding orphan_channels
built-InReach (ok u) s h = begin-InReach s h
built-InReach (err e) s h = released s.asked s.shutdown_tx none s.tasks h

guarded-InReach :
    (b : Bool) (r : Result Text (Unit {0})) (s : Listener)
    → InReach s
    → InReach (if b then (s, ok tt) else built r s).0
guarded-InReach true r s h = h
guarded-InReach false r s h = built-InReach r s h

step-InReach : {s t : Listener} → s ⟶ t → InReach s → InReach t
unfolding sftp_start ftp_start orphan_channels ask settle end_task
step-InReach {s} (starts_sftp (ok u)) h = begin-InReach s h
step-InReach (starts_sftp (err e)) h = h
step-InReach {s} (starts_ftp r) h = guarded-InReach s.running r s h
step-InReach {s} asks h = released s.asked s.shutdown_tx none s.tasks h
step-InReach settles h = h
step-InReach {s} (ends n there) h = without-All (Held s.asked s.shutdown_tx) n s.tasks h

Reached-InReach : {s : Listener} → Reached s → InReach s
unfolding new
Reached-InReach fresh = tt
Reached-InReach (after r step) = step-InReach step (Reached-InReach r)

-- In every state that starts, stops and ends of tasks lead to, each task that listens has been
-- asked to end or is the one whose sender `stop` holds, and once `stop` has asked, every task has
-- been asked.
pub stop-asks_every :
    {s : Listener} → Reached s → InReach s × All (λ n. has n (ask s).asked ≡ true) s.tasks
unfolding ask
stop-asks_every {s} r =
    (Reached-InReach r, All-map (release-asked s.asked s.shutdown_tx) s.tasks (Reached-InReach r))

-- Every task was made before the next one.
abbrev Earlier : Listener → Type 0
Earlier s = All (λ n. n < s.next) s.tasks

begin-Earlier : (s : Listener) → Earlier s → Earlier (begin s)
unfolding begin
begin-Earlier s h = (omega arith, All-map (λ n lt. omega (arith, lt)) s.tasks h)

built-Earlier : (r : Result Text (Unit {0})) (s : Listener) → Earlier s → Earlier (built r s).0
unfolding orphan_channels
built-Earlier (ok u) s h = begin-Earlier s h
built-Earlier (err e) s h = h

guarded-Earlier :
    (b : Bool) (r : Result Text (Unit {0})) (s : Listener)
    → Earlier s
    → Earlier (if b then (s, ok tt) else built r s).0
guarded-Earlier true r s h = h
guarded-Earlier false r s h = built-Earlier r s h

step-Earlier : {s t : Listener} → s ⟶ t → Earlier s → Earlier t
unfolding sftp_start ftp_start ask settle end_task
step-Earlier {s} (starts_sftp (ok u)) h = begin-Earlier s h
step-Earlier (starts_sftp (err e)) h = h
step-Earlier {s} (starts_ftp r) h = guarded-Earlier s.running r s h
step-Earlier asks h = h
step-Earlier settles h = h
step-Earlier {s} (ends n there) h = without-All (λ m. m < s.next) n s.tasks h

Reached-Earlier : {s : Listener} → Reached s → Earlier s
unfolding new
Reached-Earlier fresh = tt
Reached-Earlier (after r step) = step-Earlier step (Reached-Earlier r)

not_next :
    (next n : ℕ) (ns : List ℕ) → All (λ m. m < next) ns → has n ns ≡ true → (next == n) ≡ false
not_next next n [] h there = absurd cc
not_next next n (m ∷ ns) h there = ground (arith, h.0, not_next next n ns h.1)

without-head : (n m : ℕ) (ms : List ℕ) → (n == m) ≡ false → has n (without m (n ∷ ms)) ≡ true
without-head n m ms other = rw other (has-head n (without m ms))

-- A stop that gives up before the task `n` has ended, followed by a start, on either server: the
-- start succeeds, and when `n` ends after that, the server reports that it is not running, while
-- its new task still listens.
pub slow_stop-misreports :
    {s : Listener} (n : ℕ)
    → Reached s
    → has n s.tasks ≡ true
    → let ftp = ftp_start (ok tt) (ftp_stop s) in
      let sftp = sftp_start (ok tt) (sftp_stop s) in
      (ftp.1 ≡ ok tt)
      × (sftp.1 ≡ ok tt)
      × (ftp.0 ≡ sftp.0)
      × (is_running ftp.0 ≡ true)
      × (is_running (end_task n ftp.0) ≡ false)
      × (has s.next (end_task n ftp.0).tasks ≡ true)
      × Reached (end_task n ftp.0)
unfolding ftp_start ftp_stop sftp_start sftp_stop ask settle begin end_task
slow_stop-misreports {s} n r there = (
  refl,
  refl,
  refl,
  refl,
  refl,
  without-head s.next n s.tasks (not_next s.next n s.tasks (Reached-Earlier r) there),
  after (after (after (after r asks) settles) (starts_ftp (ok tt)))
      (ends n (has-cons n s.next s.tasks there)),
)
