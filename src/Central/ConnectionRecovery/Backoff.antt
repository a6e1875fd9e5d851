-- ===== src/Central/ConnectionRecovery/Backoff.antt =====
-- The delays between the attempts of a recovery.
use aiohomematic.Prelude.{
  ℕ, zero, suc, ◌+◌, ◌-◌, ◌*◌, eqb, ◌≡◌, ◌≤◌, refl, arith, ltb, if◌then◌else◌,
}
use aiohomematic.Central.ConnectionRecovery.State.{
  InterfaceRecoveryState, next_retry_delay, record_failure, record_success, reset, pow2,
  base_retry_delay, max_retry_delay,
}

one-le-pow2 : (n : ℕ) → 1 ≤ pow2 n
one-le-pow2 zero = omega arith
one-le-pow2 (suc n) = omega (arith, one-le-pow2 n)

-- The delay behind so many consecutive failures.
abbrev delay : ℕ → ℕ
delay zero = base_retry_delay
delay (suc n) =
    if ltb (base_retry_delay * pow2 n) max_retry_delay
    then base_retry_delay * pow2 n
    else max_retry_delay

next_retry_delay-delay :
    (s : InterfaceRecoveryState) → next_retry_delay s ≡ delay s.consecutive_failures
unfolding next_retry_delay
next_retry_delay-delay s = by_count s.consecutive_failures
  where
    by_count : (n : ℕ) → (if eqb n 0 then base_retry_delay else delay (suc (n - 1))) ≡ delay n
    by_count zero = refl
    by_count (suc n) = ground arith

delay-bounds :
    (n : ℕ)
    → (base_retry_delay ≤ delay n)
      × (delay n ≤ max_retry_delay)
      × (delay n ≤ delay (n + 1))
      × (delay (n + 1) ≤ 2 * delay n)
delay-bounds zero = (omega arith, omega arith, ground arith, ground arith)
delay-bounds (suc n) = (ground (arith, one-le-pow2 n), ground arith, ground (arith), ground arith)

-- The delay before a retry is at least 5 and at most 60 seconds, whatever has failed before; a further
-- failure never shortens it and at most doubles it; and behind a success, or a reset, it is 5 seconds.
pub next_retry_delay-bounds :
    (now : ℕ) (s : InterfaceRecoveryState)
    → (base_retry_delay ≤ next_retry_delay s)
      × (next_retry_delay s ≤ max_retry_delay)
      × (next_retry_delay s ≤ next_retry_delay (record_failure now s))
      × (next_retry_delay (record_failure now s) ≤ 2 * next_retry_delay s)
      × (next_retry_delay (record_success now s) ≡ base_retry_delay)
      × (next_retry_delay (reset s) ≡ base_retry_delay)
unfolding next_retry_delay record_failure record_success reset
next_retry_delay-bounds now s =
    let d = delay-bounds s.consecutive_failures in
    let e = next_retry_delay-delay s in
    let f = next_retry_delay-delay (record_failure now s) in
    (
      omega (arith, d.0, e),
      omega (arith, d.1, e),
      omega (arith, d.2, e, f),
      omega (arith, d.3, e, f),
      refl,
      refl,
    )
