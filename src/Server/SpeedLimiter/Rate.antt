-- ===== src/Server/SpeedLimiter/Rate.antt =====
-- How much a limiter lets through over a run of calls.
use native.Mathlib.Nat.{
  div-mul-le_self, lt-div-mul-add, div-le_self, mul-le-mul_right, mul-div_cancel, sub_self,
}
use wftpd_linux.Base.{
  ℕ, ◌+◌, ◌-◌, ◌*◌, ◌/◌, ◌^◌, ◌≤◌, ◌<◌, ◌≡◌, refl, ap, ◌∙◌, List, [], ◌∷◌, length, arith,
}
use wftpd_linux.Server.SpeedLimiter.{SpeedLimiter, begin, sleep_nanos, throttle, replenished}

-- The tokens of a check are paid for by the time since the last one.
begin_paid :
    (l : SpeedLimiter) (now : ℕ)
    → 1000000000 * (begin l now).tokens
      ≤ 1000000000 * l.tokens + (now - l.last_check) * l.max_bytes_per_second
unfolding begin replenished
begin_paid l now =
    let paid = div-mul-le_self ((now - l.last_check) * l.max_bytes_per_second) 1000000000 in
    ground arith

-- A deficit is paid for by the sleep, up to what the limit allows in one nanosecond.
sleep_paid :
    (l : SpeedLimiter) (bytes : ℕ)
    → 0 < l.max_bytes_per_second
    → bytes ≤ 2 ^ 32
    → 1000000000 * (bytes - l.tokens)
      ≤ sleep_nanos l bytes * l.max_bytes_per_second + l.max_bytes_per_second
unfolding sleep_nanos
sleep_paid l bytes limited small =
    let r = l.max_bytes_per_second in
    let owed = (bytes - l.tokens) * 1000000000 in
    let paid : owed < owed / r * r + r = lt-div-mul-add limited in
    let small_quotient : owed / r ≤ owed = div-le_self owed r in ground arith

-- A call that is not let off.
checked_paid :
    (l : SpeedLimiter) (now bytes : ℕ)
    → 0 < l.max_bytes_per_second
    → bytes ≤ 2 ^ 32
    → 1000000000 * (bytes + ((begin l now).tokens - bytes))
      ≤ 1000000000 * l.tokens
        + (now - l.last_check) * l.max_bytes_per_second
        + sleep_nanos (begin l now) bytes * l.max_bytes_per_second
        + l.max_bytes_per_second
unfolding begin
checked_paid l now bytes limited small =
    let b = begin l now in
    let start = begin_paid l now in let rest = sleep_paid b bytes limited small in omega arith

-- One call: what it lets through and the tokens it leaves are paid for by the tokens before it, the
-- time since the last check, and the sleep.
call_paid :
    (l : SpeedLimiter) (now bytes : ℕ)
    → 0 < l.max_bytes_per_second
    → bytes ≤ 2 ^ 32
    → l.last_check ≤ now
    → let t = throttle l now bytes in
      (1000000000 * (bytes + t.0.tokens)
        ≤ 1000000000 * l.tokens
          + (t.0.last_check - l.last_check) * l.max_bytes_per_second
          + t.1 * l.max_bytes_per_second
          + l.max_bytes_per_second)
      × (l.last_check ≤ t.0.last_check)
      × (t.0.last_check ≤ now)
      × (t.0.max_bytes_per_second ≡ l.max_bytes_per_second)
unfolding throttle begin
call_paid l now bytes limited small ordered =
    let paid = checked_paid l now bytes limited small in
    (ground arith, ground arith, ground arith, ground arith)

-- The limiter, the bytes let through and the nanoseconds slept after a run of calls, each at its
-- time and for its bytes.
unfoldable pub throttle_all : SpeedLimiter → List (ℕ × ℕ) → SpeedLimiter × ℕ × ℕ
throttle_all l [] = (l, 0, 0)
throttle_all l ((now, bytes) ∷ calls) =
    let t = throttle l now bytes in
    let (l', served, slept) = throttle_all t.0 calls in (l', bytes + served, t.1 + slept)

-- Calls of one task: each is for at most 2^32 bytes, and starts when the sleep of the one before is
-- over. `fin` is after the last.
abbrev pub InTurn : SpeedLimiter → ℕ → List (ℕ × ℕ) → ℕ → Type 0
InTurn l free [] fin = free ≤ fin
InTurn l free ((now, bytes) ∷ calls) fin =
    (free ≤ now)
    × (bytes ≤ 2 ^ 32)
    × InTurn (throttle l now bytes).0 (now + (throttle l now bytes).1) calls fin

ends_after :
    (calls : List (ℕ × ℕ)) (l : SpeedLimiter) (free fin : ℕ) → InTurn l free calls fin → free ≤ fin
ends_after [] l free fin h = h
ends_after ((now, bytes) ∷ calls) l free fin (late, small, rest) =
    let after = ends_after calls _ (now + (throttle l now bytes).1) fin rest in omega arith

-- Time that is split is not longer than the whole.
split_time : (a b c d r : ℕ) → a + b ≤ c + d → a * r + b * r ≤ c * r + d * r
split_time a b c d r h =
    let scaled : (a + b) * r ≤ (c + d) * r = mul-le-mul_right r h in omega arith

-- With a limit that is not 0: what a run of calls of one task lets through, each call of at most
-- 2^32 bytes and none before the last check, is with the tokens that it leaves at most what the
-- limit allows in the time from that check to the end of the run, and once more what it allows in
-- the time from the start of the run to its end, with the tokens at the start and one
-- nanosecond's worth for each call.
pub served_bound :
    (calls : List (ℕ × ℕ)) (l : SpeedLimiter) (free fin : ℕ)
    → 0 < l.max_bytes_per_second
    → l.last_check ≤ free
    → InTurn l free calls fin
    → 1000000000 * ((throttle_all l calls).1 + (throttle_all l calls).0.tokens)
      ≤ 1000000000 * l.tokens
        + (fin - l.last_check) * l.max_bytes_per_second
        + (fin - free) * l.max_bytes_per_second
        + length calls * l.max_bytes_per_second
unfolding throttle_all
served_bound [] l free fin limited ordered h = omega arith
served_bound ((now, bytes) ∷ calls) l free fin limited ordered (late, small, rest) =
    let t = throttle l now bytes in
    let r = l.max_bytes_per_second in
    let (paid, up, checked, same) = call_paid l now bytes limited small (omega arith) in
    let after = ends_after calls t.0 (now + t.1) fin rest in
    let others = served_bound calls t.0 (now + t.1) fin (omega arith) (omega arith) rest in
    let spread =
      split_time (t.0.last_check - l.last_check) (fin - t.0.last_check) (fin - l.last_check) 0 r
        (omega arith) in
    let slept = split_time t.1 (fin - (now + t.1)) (fin - free) 0 r (omega arith) in
    let restated =
      ap
        (λ m.
          1000000000 * t.0.tokens
          + (fin - t.0.last_check) * m
          + (fin - (now + t.1)) * m
          + length calls * m)
        same in
    omega arith

-- A limiter without tokens, just checked.
abbrev pub empty_at : ℕ → ℕ → SpeedLimiter
empty_at max now = record { last_check = now; tokens = 0; max_bytes_per_second = max }

begin_again : (max now : ℕ) → begin (empty_at max now) now ≡ empty_at max now
unfolding begin replenished
begin_again max now =
    let none_yet : (now - now) * max ≡ 0 = rw (sub_self) (omega arith) in rw none_yet refl

sleep_exact :
    (max now bytes nanos : ℕ)
    → 0 < max
    → 0 < bytes
    → bytes * 1000000000 ≡ nanos * max
    → nanos < 2 ^ 64
    → sleep_nanos (empty_at max now) bytes ≡ nanos
unfolding sleep_nanos
sleep_exact max now bytes nanos limited some_bytes exact short =
    let whole : (nanos * max) / max ≡ nanos = mul-div_cancel nanos limited in
    let owed : ((bytes - 0) * 1000000000) / max ≡ nanos = ap (λ n. n / max) (omega arith) ∙ whole in
    ground arith

first_sleeps :
    (max now bytes nanos : ℕ)
    → 0 < max
    → 0 < bytes
    → bytes * 1000000000 ≡ nanos * max
    → nanos < 2 ^ 64
    → throttle (empty_at max now) now bytes ≡ (empty_at max now, nanos)
unfolding throttle
first_sleeps max now bytes nanos limited some_bytes exact short =
    let slept = sleep_exact max now bytes nanos limited some_bytes exact short in
    rw (begin_again, slept) (ground arith)

second_free :
    (max now bytes nanos : ℕ)
    → bytes * 1000000000 ≡ nanos * max
    → bytes < 2 ^ 64
    → (throttle (empty_at max now) (now + nanos) bytes).1 ≡ 0
unfolding throttle begin replenished sleep_nanos
second_free max now bytes nanos exact small =
    let since : (now + nanos) - now ≡ nanos = omega arith in rw (since, ← exact) (ground arith)

-- The sleep is credited again: when a call has slept for its bytes, a second call for as many bytes
-- right after the sleep does not sleep.
sleep_credited :
    (max now bytes nanos : ℕ)
    → 0 < max
    → 0 < bytes
    → bytes * 1000000000 ≡ nanos * max
    → bytes < 2 ^ 64
    → nanos < 2 ^ 64
    → let first = throttle (empty_at max now) now bytes in
      (first.1 ≡ nanos) × ((throttle first.0 (now + nanos) bytes).1 ≡ 0)
sleep_credited max now bytes nanos limited some_bytes exact small short =
    rw (first_sleeps max now bytes nanos limited some_bytes exact short)
      (refl, second_free max now bytes nanos exact small)
