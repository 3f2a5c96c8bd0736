-- ===== src/Server/LoginTracker.antt =====
-- Login attempts by address (common/src/server/login_tracker.rs). Each operation runs under the
-- lock, and takes the time of its `Instant::now()` as an argument, in seconds.
pub mod Laws
use wftpd_linux.Base.{
  ℕ, ◌+◌, ◌-◌, ◌%◌, ◌^◌, Bool, true, false, Option, none, some, Text, ltb, leb, if◌then◌else◌, List,
  [],
}
use wftpd_linux.Base.Dict.{Dict, lookup, insert, remove, retain}

pub record LoginAttempt : Type 0 where
  pub count : ℕ
  pub first_attempt : ℕ
  pub banned_until : Option ℕ

pub record LoginTracker : Type 0 where
  pub attempts : Dict LoginAttempt
  pub max_attempts : ℕ
  pub ban_duration : ℕ

unfoldable pub new : ℕ → ℕ → LoginTracker
new max_attempts ban_duration_secs = record {
  attempts = [];
  max_attempts = max_attempts;
  ban_duration = ban_duration_secs;
}

-- A ban that is over: `banned_until = None; count = 0`.
abbrev pub lifted : LoginAttempt → LoginAttempt
lifted a = record a { banned_until = none; count = 0 }

-- `attempt.count += 1` and the test against the threshold; `false` means refused. The count is a
-- `u32`.
abbrev pub count_failure : LoginTracker → ℕ → LoginAttempt → LoginAttempt × Bool
count_failure t now a =
    let n = (a.count + 1) % 2 ^ 32 in
    if leb t.max_attempts n
    then (record a { count = n; banned_until = some (now + t.ban_duration) }, false)
    else (record a { count = n }, true)

abbrev pub fail_again : LoginTracker → ℕ → LoginAttempt → Option ℕ → LoginAttempt × Bool
fail_again t now a none = count_failure t now a
fail_again t now a (some until) =
    if ltb now until then (a, false) else count_failure t now (lifted a)

abbrev pub first_failure : ℕ → LoginAttempt
first_failure now = record { count = 1; first_attempt = now; banned_until = none }

abbrev pub record_failure : LoginTracker → ℕ → Option LoginAttempt → LoginAttempt × Bool
record_failure t now none = (first_failure now, true)
record_failure t now (some a) = fail_again t now a a.banned_until

unfoldable pub check_and_record_failure : LoginTracker → ℕ → Text → LoginTracker × Bool
check_and_record_failure t now ip =
    let r = record_failure t now (lookup ip t.attempts) in
    (record t { attempts = insert ip r.0 t.attempts }, r.1)

abbrev pub ban_state : LoginTracker → ℕ → Text → LoginAttempt → Option ℕ → LoginTracker × Bool
ban_state t now ip a none = (t, false)
ban_state t now ip a (some until) =
    if ltb now until
    then (t, true)
    else (record t { attempts = insert ip (lifted a) t.attempts }, false)

abbrev pub banned : LoginTracker → ℕ → Text → Option LoginAttempt → LoginTracker × Bool
banned t now ip none = (t, false)
banned t now ip (some a) = ban_state t now ip a a.banned_until

unfoldable pub is_banned : LoginTracker → ℕ → Text → LoginTracker × Bool
is_banned t now ip = banned t now ip (lookup ip t.attempts)

unfoldable pub clear_attempts : LoginTracker → Text → LoginTracker
clear_attempts t ip = record t { attempts = remove ip t.attempts }

-- `saturating_sub` is the subtraction of natural numbers.
abbrev pub remaining : LoginTracker → Option LoginAttempt → ℕ
remaining t none = t.max_attempts
remaining t (some a) = elim a.banned_until [ some until ↦ 0 | none ↦ t.max_attempts - a.count ]

unfoldable pub get_remaining_attempts : LoginTracker → Text → ℕ
get_remaining_attempts t ip = remaining t (lookup ip t.attempts)

-- `duration_since` saturates at 0.
abbrev pub is_current : ℕ → LoginAttempt → Bool
is_current now a = elim a.banned_until [
  | some until ↦ ltb now until
  | none ↦ ltb (now - a.first_attempt) 3600
]

unfoldable pub cleanup_expired : LoginTracker → ℕ → LoginTracker
cleanup_expired t now = record t { attempts = retain (is_current now) t.attempts }

-- A run of failures of one address, each at its time.
unfoldable pub fail_times : LoginTracker → Text → List ℕ → LoginTracker
fail_times t ip [] = t
fail_times t ip (List.◌∷◌ now times) = fail_times (check_and_record_failure t now ip).0 ip times

-- The verdicts of such a run.
unfoldable pub verdicts : LoginTracker → Text → List ℕ → List Bool
verdicts t ip [] = []
verdicts t ip (List.◌∷◌ now times) =
    List.◌∷◌ (check_and_record_failure t now ip).1
      (verdicts (check_and_record_failure t now ip).0 ip times)
