-- ===== src/Server/LoginTracker/Laws.antt =====
-- What the tracker promises: when an address is banned, for how long, and that addresses do not
-- disturb each other.
use wftpd_linux.Base.{
  All, ℕ, ap, ◌∙◌, ◌+◌, ◌^◌, ◌≤◌, ◌<◌, ◌≡◌, refl, inl, inr, true, false, Option, none, some,
  Option-cases, Text, text_eq, arith, List, [], ◌∷◌, length,
}
use wftpd_linux.Base.Dict.{lookup, lookup-insert, lookup-remove, lookup-insert_self}
use wftpd_linux.Server.LoginTracker.{
  LoginAttempt, LoginTracker, check_and_record_failure, is_banned, clear_attempts,
  get_remaining_attempts, first_failure, lifted, fail_times, verdicts,
}

abbrev pub entry : LoginTracker → Text → Option LoginAttempt
entry t ip = lookup ip t.attempts

-- One more failure below the threshold.
count_once :
    (t : LoginTracker) (ip : Text) (now : ℕ) (a : LoginAttempt)
    → entry t ip ≡ some a
    → a.banned_until ≡ none
    → a.count + 1 < t.max_attempts
    → t.max_attempts < 2 ^ 32
    → (entry (check_and_record_failure t now ip).0 ip ≡ some (record a { count = a.count + 1 }))
      × ((check_and_record_failure t now ip).1 ≡ true)
unfolding check_and_record_failure
count_once t ip now a known free below fits = rw (known, lookup-insert_self) (ground arith)

-- Failures below the threshold are counted, whenever they come.
pub fail_times_count :
    (times : List ℕ) (t : LoginTracker) (ip : Text) (a : LoginAttempt)
    → entry t ip ≡ some a
    → a.banned_until ≡ none
    → a.count + length times < t.max_attempts
    → t.max_attempts < 2 ^ 32
    → entry (fail_times t ip times) ip ≡ some (record a { count = a.count + length times })
unfolding fail_times check_and_record_failure
fail_times_count [] t ip a known free below fits = ground arith
fail_times_count (now ∷ times) t ip a known free below fits =
    fail_times_count times _ ip (record a { count = a.count + 1 })
      (count_once t ip now a known free (omega arith) fits).0 free (omega arith) fits
    ∙ ap some (ground arith)

-- Failures below the threshold are accepted.
verdicts-accepted :
    (times : List ℕ) (t : LoginTracker) (ip : Text) (a : LoginAttempt)
    → entry t ip ≡ some a
    → a.banned_until ≡ none
    → a.count + length times < t.max_attempts
    → t.max_attempts < 2 ^ 32
    → All (λ b. b ≡ true) (verdicts t ip times)
unfolding verdicts check_and_record_failure
verdicts-accepted [] t ip a known free below fits = tt
verdicts-accepted (now ∷ times) t ip a known free below fits =
    let (counted, accepted) = count_once t ip now a known free (omega arith) fits in
    (
      accepted,
      verdicts-accepted times _ ip (record a { count = a.count + 1 }) counted free (omega arith)
          fits,
    )

-- The failure that reaches the threshold.
reach_threshold :
    (t : LoginTracker) (ip : Text) (now : ℕ) (a : LoginAttempt)
    → entry t ip ≡ some a
    → a.banned_until ≡ none
    → a.count + 1 ≡ t.max_attempts
    → t.max_attempts < 2 ^ 32
    → (entry (check_and_record_failure t now ip).0 ip
        ≡ some (record a { count = a.count + 1; banned_until = some (now + t.ban_duration) }))
      × ((check_and_record_failure t now ip).1 ≡ false)
unfolding check_and_record_failure
reach_threshold t ip now a known free reached fits = rw (known, lookup-insert_self) (ground arith)

first_time :
    (t : LoginTracker) (ip : Text) (now : ℕ)
    → entry t ip ≡ none
    → (entry (check_and_record_failure t now ip).0 ip ≡ some (first_failure now))
      × ((check_and_record_failure t now ip).1 ≡ true)
unfolding check_and_record_failure
first_time t ip now unknown = rw (unknown, lookup-insert_self) (refl, refl)

fail_times_max :
    (times : List ℕ) (t : LoginTracker) (ip : Text)
    → ((fail_times t ip times).max_attempts ≡ t.max_attempts)
      × ((fail_times t ip times).ban_duration ≡ t.ban_duration)
unfolding fail_times check_and_record_failure
fail_times_max [] t ip = (refl, refl)
fail_times_max (now ∷ times) t ip = fail_times_max times _ ip

-- The tracker after the failures at `first` and `times`.
abbrev pub before_last : LoginTracker → Text → ℕ → List ℕ → LoginTracker
before_last t ip first times = fail_times (check_and_record_failure t first ip).0 ip times

entry-before_last :
    (t : LoginTracker) (ip : Text) (first : ℕ) (times : List ℕ)
    → entry t ip ≡ none
    → length times + 2 ≡ t.max_attempts
    → t.max_attempts < 2 ^ 32
    → entry (before_last t ip first times) ip
      ≡ some (record { count = 1 + length times; first_attempt = first; banned_until = none })
unfolding check_and_record_failure
entry-before_last t ip first times unknown enough fits =
    fail_times_count times _ ip (first_failure first) (first_time t ip first unknown).0 refl
      (omega arith) fits

in_ban :
    (t : LoginTracker) (ip : Text) (a : LoginAttempt) (until later : ℕ)
    → entry t ip ≡ some a
    → a.banned_until ≡ some until
    → later < until
    → (is_banned t later ip ≡ (t, true))
      × ((check_and_record_failure t later ip).1 ≡ false)
      × (entry (check_and_record_failure t later ip).0 ip ≡ entry t ip)
unfolding is_banned check_and_record_failure
in_ban t ip a until later known held early =
    rw (known, lookup-insert_self) (ground arith, ground arith, ground arith)

after_ban :
    (t : LoginTracker) (ip : Text) (a : LoginAttempt) (until later : ℕ)
    → entry t ip ≡ some a
    → a.banned_until ≡ some until
    → until ≤ later
    → ((is_banned t later ip).1 ≡ false)
      × (get_remaining_attempts (is_banned t later ip).0 ip ≡ t.max_attempts)
unfolding is_banned get_remaining_attempts
after_ban t ip a until later known held late =
    rw known (ground arith, ground (arith, lookup-insert_self ip (lifted a) t.attempts))

-- The thresholds do not change.
max_before_last :
    (t : LoginTracker) (ip : Text) (first : ℕ) (times : List ℕ)
    → ((before_last t ip first times).max_attempts ≡ t.max_attempts)
      × ((before_last t ip first times).ban_duration ≡ t.ban_duration)
unfolding check_and_record_failure
max_before_last t ip first times = fail_times_max times _ ip

-- The lockout, with a threshold of at least two: the failures of an unknown address before the one
-- that reaches the threshold are all accepted. That one is refused, and bans the address for the
-- ban duration from then on. Until the ban ends each query says so, each further failure is
-- refused, and neither changes the entry; when it has ended, the query says so, and all attempts
-- are free again.
pub lockout :
    (t : LoginTracker) (ip : Text) (first : ℕ) (times : List ℕ) (now : ℕ)
    → entry t ip ≡ none
    → length times + 2 ≡ t.max_attempts
    → t.max_attempts < 2 ^ 32
    → let r = check_and_record_failure (before_last t ip first times) now ip in
      All (λ b. b ≡ true) (verdicts t ip (first ∷ times))
      × (r.1 ≡ false)
      × ((later : ℕ)
          → later < now + t.ban_duration
          → (is_banned r.0 later ip ≡ (r.0, true))
            × ((check_and_record_failure r.0 later ip).1 ≡ false)
            × (entry (check_and_record_failure r.0 later ip).0 ip ≡ entry r.0 ip))
      × ((later : ℕ)
          → now + t.ban_duration ≤ later
          → ((is_banned r.0 later ip).1 ≡ false)
            × (get_remaining_attempts (is_banned r.0 later ip).0 ip ≡ t.max_attempts))
unfolding check_and_record_failure fail_times verdicts
lockout t ip first times now unknown enough fits =
    let s = before_last t ip first times in
    let last : LoginAttempt = record {
      count = 1 + length times;
      first_attempt = first;
      banned_until = none;
    } in
    let (same, ban) = max_before_last t ip first times in
    let (banned, refused) =
      reach_threshold s ip now last (entry-before_last t ip first times unknown enough fits) refl
        (omega arith) (omega arith) in
    let r = (check_and_record_failure s now ip).0 in
    let (known, welcome) = first_time t ip first unknown in
    (
      (welcome, verdicts-accepted times _ ip (first_failure first) known refl (omega arith) fits),
      refused,
      λ later early. in_ban r ip _ (now + s.ban_duration) later banned refl (omega arith),
      λ later late.
          let (over, free) =
            after_ban r ip _ (now + s.ban_duration) later banned refl (omega arith) in
          (over, free ∙ (fail_times_max (now ∷ []) s ip).0 ∙ same),
    )

-- The operations on one address leave the entries of the others as they are.
others_kept :
    (t : LoginTracker) (ip other : Text) (now : ℕ)
    → text_eq ip other ≡ false
    → (entry (check_and_record_failure t now ip).0 other ≡ entry t other)
      × (entry (is_banned t now ip).0 other ≡ entry t other)
      × (entry (clear_attempts t ip) other ≡ entry t other)
unfolding check_and_record_failure is_banned clear_attempts
others_kept t ip other now apart = (
  rw (lookup-insert, apart) refl,
  elim (Option-cases (entry t ip)) [
    | inl absent ↦ rw absent refl
    | inr (a, known) ↦
        rw known (ground (arith, apart, lookup-insert ip other (lifted a) t.attempts))
  ],
  rw (lookup-remove, apart) refl,
)
