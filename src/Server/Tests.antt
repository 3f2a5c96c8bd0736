-- ===== src/Server/Tests.antt =====
-- The login tracker and the speed limiter at concrete values.
use wftpd_linux.Base.{
  some, none, All, ◌≡◌, refl, true, false, [], ◌∷◌, text, ◌≤◌, ◌+◌, ◌-◌, ◌*◌, ◌<◌, ℕ, arith, List,
  Bool,
}
use wftpd_linux.Server.Quota.{
  Node, folder, file, closed, neither, nil, unreadable, entry as item, calculate_usage_async,
  invalidate, new as empty_cache,
}
use wftpd_linux.Server.Quota.Usage.{lengths, calculate_usage_async-total}
use wftpd_linux.Base.Dict.{lookup}
use wftpd_linux.Server.LoginTracker.{
  LoginTracker, verdicts, check_and_record_failure, is_banned, get_remaining_attempts,
}
use wftpd_linux.Server.LoginTracker.Laws.{lockout, entry, before_last}
use wftpd_linux.Server.SpeedLimiter.{SpeedLimiter, throttle}
use wftpd_linux.Server.SpeedLimiter.Rate.{served_bound, throttle_all, InTurn, empty_at}

abbrev tree : Node
tree = folder (
    item (file 100)
      (unreadable (item (folder (item (file 50) (item neither nil))) (item closed nil))))

calculate_usage_async-total_example :
    ((calculate_usage_async empty_cache (text "/home/alice") (some tree)).0 ≡ 150)
    × (lookup
          (text "/home/alice")
          (calculate_usage_async empty_cache (text "/home/alice") (some tree)).1.cache
        ≡ some 150)
    × (lookup
          (text "/home/alice")
          (invalidate
            (calculate_usage_async empty_cache (text "/home/alice") (some tree)).1
            (text "/home/alice")).cache
        ≡ none)
unfolding lengths
calculate_usage_async-total_example =
    calculate_usage_async-total empty_cache (text "/home/alice") tree (omega arith)

abbrev tracker : LoginTracker
tracker = record { attempts = []; max_attempts = 3; ban_duration = 300 }

abbrev third : LoginTracker × Bool
third =
    check_and_record_failure (before_last tracker (text "10.0.0.9") 5 (6 ∷ [])) 7 (text "10.0.0.9")

lockout_example :
    All (λ b. b ≡ true) (verdicts tracker (text "10.0.0.9") (5 ∷ 6 ∷ []))
    × (third.1 ≡ false)
    × ((later : ℕ)
        → later < 7 + 300
        → (is_banned third.0 later (text "10.0.0.9") ≡ (third.0, true))
          × ((check_and_record_failure third.0 later (text "10.0.0.9")).1 ≡ false)
          × (entry (check_and_record_failure third.0 later (text "10.0.0.9")).0 (text "10.0.0.9")
              ≡ entry third.0 (text "10.0.0.9")))
    × ((later : ℕ)
        → 7 + 300 ≤ later
        → ((is_banned third.0 later (text "10.0.0.9")).1 ≡ false)
          × (get_remaining_attempts (is_banned third.0 later (text "10.0.0.9")).0 (text "10.0.0.9")
              ≡ 3))
unfolding lookup
lockout_example = lockout tracker (text "10.0.0.9") 5 (6 ∷ []) 7 refl refl (omega arith)

-- One KiB each second.
abbrev limiter : SpeedLimiter
limiter = empty_at 1024 0

abbrev calls : List (ℕ × ℕ)
calls = (0, 1024) ∷ (1000000000, 1024) ∷ []

calls-InTurn : InTurn limiter 0 calls 1000000000
unfolding throttle wftpd_linux.Server.SpeedLimiter.begin wftpd_linux.Server.SpeedLimiter.replenished
    wftpd_linux.Server.SpeedLimiter.sleep_nanos
calls-InTurn = (omega arith, omega arith, (omega arith, omega arith, omega arith))

served_bound_example :
    1000000000 * ((throttle_all limiter calls).1 + (throttle_all limiter calls).0.tokens)
    ≤ 1000000000 * 0 + (1000000000 - 0) * 1024 + (1000000000 - 0) * 1024 + 2 * 1024
served_bound_example =
    served_bound calls limiter 0 1000000000 (omega arith) (omega arith) calls-InTurn
