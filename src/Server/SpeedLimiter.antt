-- ===== src/Server/SpeedLimiter.antt =====
-- The speed limiter (common/src/server/speed_limiter.rs). Times are in nanoseconds. `throttle` is
-- one call that no other call of the same limiter overlaps: `begin` is its part before the sleep,
-- `sleep_nanos` the sleep, and the last update its part after it.
pub mod Rate
use wftpd_linux.Base.{
  ℕ, ◌+◌, ◌-◌, ◌*◌, ◌/◌, ◌%◌, ◌^◌, min, Bool, true, false, ◌||◌, ltb, ◌==◌, if◌then◌else◌,
}

pub record SpeedLimiter : Type 0 where
  pub last_check : ℕ
  pub tokens : ℕ
  pub max_bytes_per_second : ℕ

unfoldable pub new : ℕ → ℕ → SpeedLimiter
new now max_kbps = record {
  last_check = now;
  tokens = 0;
  max_bytes_per_second = max_kbps * 1024 % 2 ^ 64;
}

unfoldable pub with_unlimited : ℕ → SpeedLimiter
with_unlimited now = record { last_check = now; tokens = 0; max_bytes_per_second = 0 }

-- `u64::try_from(n).unwrap_or(u64::MAX)`; also what `saturating_add` gives for a sum.
abbrev pub to_u64 : ℕ → ℕ
to_u64 n = min n (2 ^ 64 - 1)

-- The tokens that the time since the last check brings.
unfoldable pub replenished : SpeedLimiter → ℕ → ℕ
replenished l now = to_u64 ((now - l.last_check) * l.max_bytes_per_second / 1000000000)

-- The part before the sleep.
unfoldable pub begin : SpeedLimiter → ℕ → SpeedLimiter
begin l now = record l { last_check = now; tokens = to_u64 (l.tokens + replenished l now) }

unfoldable pub sleep_nanos : SpeedLimiter → ℕ → ℕ
sleep_nanos l bytes =
    if ltb l.tokens bytes
    then to_u64 ((bytes - l.tokens) * 1000000000 / l.max_bytes_per_second)
    else 0

-- The limiter after the call, and the nanoseconds slept.
unfoldable pub throttle : SpeedLimiter → ℕ → ℕ → SpeedLimiter × ℕ
throttle l now bytes =
    if l.max_bytes_per_second == 0 || bytes == 0
    then (l, 0)
    else let b = begin l now in (record b { tokens = b.tokens - bytes }, sleep_nanos b bytes)

unfoldable pub set_limit : SpeedLimiter → ℕ → SpeedLimiter
set_limit l max_kbps = record l { max_bytes_per_second = max_kbps * 1024 % 2 ^ 64 }

unfoldable pub get_limit : SpeedLimiter → ℕ
get_limit l = l.max_bytes_per_second / 1024

-- `Clone::clone`: the limit alone is copied.
unfoldable pub clone : SpeedLimiter → ℕ → SpeedLimiter
clone l now = record { last_check = now; tokens = 0; max_bytes_per_second = l.max_bytes_per_second }
