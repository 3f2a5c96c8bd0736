-- ===== src/Listener/Idle.antt =====
-- After a stop, nothing listens once the tasks have ended.
use wftpd_linux.Base.{
  ℕ, ◌≡◌, refl, ap, ◌∙◌, inl, inr, Bool, true, false, List, [], ◌∷◌, All, ◌==◌, if◌then◌else◌,
  Bool-cases, arith,
}
use wftpd_linux.Outcome.{ok}
use wftpd_linux.Listener.{
  Listener, begin, built, ask, settle, ftp_start, ftp_stop, sftp_start, sftp_stop, is_running,
  without, end_task, has, Reached,
}
use wftpd_linux.Listener.Life.{stop-asks_every}

-- Tasks end, in this order.
abbrev pub end_all : List ℕ → Listener → Listener
end_all [] s = s
end_all (n ∷ ns) s = end_all ns (end_task n s)

abbrev without_all : List ℕ → List ℕ → List ℕ
without_all [] ms = ms
without_all (n ∷ ns) ms = without_all ns (without n ms)

tasks-end_all : (ns : List ℕ) (s : Listener) → (end_all ns s).tasks ≡ without_all ns s.tasks
unfolding end_task
tasks-end_all [] s = refl
tasks-end_all (n ∷ ns) s = tasks-end_all ns (end_task n s)

running-end_all : (ns : List ℕ) (s : Listener) → s.running ≡ false → (end_all ns s).running ≡ false
unfolding end_task
running-end_all [] s h = h
running-end_all (n ∷ ns) s h = running-end_all ns (end_task n s) refl

next-end_all : (ns : List ℕ) (s : Listener) → (end_all ns s).next ≡ s.next
unfolding end_task
next-end_all [] s = refl
next-end_all (n ∷ ns) s = next-end_all ns (end_task n s)

has_other : (m n : ℕ) (ns : List ℕ) → (m == n) ≡ false → has m (n ∷ ns) ≡ true → has m ns ≡ true
has_other m n ns other h = ground arith

-- Where one task has ended, the others are to end.
left_over :
    (n : ℕ) (ns ms : List ℕ)
    → All (λ m. has m (n ∷ ns) ≡ true) ms
    → All (λ m. has m ns ≡ true) (without n ms)
left_over n ns [] h = tt
left_over n ns (m ∷ ms) h =
    let rest = left_over n ns ms h.1 in
    elim (Bool-cases (m == n)) [
      | inl same ↦ rw same rest
      | inr other ↦ rw other (has_other m n ns other h.0, rest)
    ]

none_left : (ns ms : List ℕ) → All (λ m. has m ns ≡ true) ms → without_all ns ms ≡ []
none_left [] [] h = refl
none_left [] (m ∷ ms) h = absurd cc
none_left (n ∷ ns) ms h = none_left ns (without n ms) (left_over n ns ms h)

-- A start of a server that does not run, and of which no task listens.
abbrev pub Idle : ℕ → Listener → Type 0
Idle next t = (t.tasks ≡ []) × (is_running t ≡ false) × (t.next ≡ next)

alone : (next : ℕ) (t : Listener) → Idle next t → (begin t).tasks ≡ next ∷ []
unfolding begin
alone next t (nobody, stopped, same) = cc

branch :
    (b : Bool) (t : Listener) → b ≡ false → (if b then (t, ok tt) else built (ok tt) t).0 ≡ begin t
branch true t h = absurd cc
branch false t h = refl

starts_anew : (next : ℕ) (t : Listener) → Idle next t → (ftp_start (ok tt) t).0.tasks ≡ next ∷ []
unfolding ftp_start
starts_anew next t idle =
    ap (λ (u : Listener). u.tasks) (branch t.running t idle.1) ∙ alone next t idle

ended-Idle :
    (ns : List ℕ) (s : Listener)
    → s.running ≡ false
    → All (λ n. has n ns ≡ true) s.tasks
    → Idle s.next (end_all ns s)
ended-Idle ns s stopped covered = (
  tasks-end_all ns s ∙ none_left ns s.tasks covered,
  running-end_all ns s stopped,
  next-end_all ns s,
)

-- Both servers: a stop has asked each task that listens; and once each of them has ended, in
-- whatever order and whatever else has ended, none listens, the server reports that it is not
-- running, and the task of the next start is the only one.
pub stop_ends :
    {s : Listener} (ns : List ℕ)
    → Reached s
    → All (λ n. has n ns ≡ true) s.tasks
    → All (λ n. has n (ask s).asked ≡ true) s.tasks
      × Idle s.next (end_all ns (ftp_stop s))
      × Idle s.next (end_all ns (sftp_stop s))
      × ((ftp_start (ok tt) (end_all ns (ftp_stop s))).0.tasks ≡ s.next ∷ [])
      × ((sftp_start (ok tt) (end_all ns (sftp_stop s))).0.tasks ≡ s.next ∷ [])
unfolding ftp_stop sftp_stop ask settle sftp_start
stop_ends {s} ns r covered =
    let ftp = ended-Idle ns (ftp_stop s) refl covered in
    let sftp = ended-Idle ns (sftp_stop s) refl covered in
    (
      (stop-asks_every r).1,
      ftp,
      sftp,
      starts_anew s.next (end_all ns (ftp_stop s)) ftp,
      alone s.next (end_all ns (sftp_stop s)) sftp,
    )
