-- ===== src/Store/Command/Freshness.antt =====
-- aiohomematic/support/__init__.py: how old a change may be.
use aiohomematic.Prelude.{ℕ, ◌+◌, Bool, ◌*◌, ◌-◌, ◌%◌, ◌≤◌, ◌<◌, ◌≡◌, ltb, arith}
use aiohomematic.Store.Command.{changed_within_seconds}

-- For a change on the same day, that is less than 24 hours before, and not of the initial time, the
-- answer is whether fewer than `max_age` seconds and a begun one have passed.
pub changed_within_day :
    (last_change max_age now : ℕ)
    → 0 < last_change
    → last_change ≤ now
    → now < last_change + 86_400_000_000
    → changed_within_seconds last_change max_age now ≡ ltb now (last_change + max_age * 1_000_000)
unfolding changed_within_seconds
changed_within_day last_change max_age now p h d = ground arith

-- Have fewer than `max_age` seconds passed since the sending, whole days not counted?
abbrev pub is_recent : ℕ → ℕ → ℕ → Bool
is_recent sent max_age later = ltb ((later - sent) % 86_400_000_000) (max_age * 1_000_000)

-- The seconds of an age count without its whole days. The change is not of the initial time.
pub changed_within_lem :
    (last_change max_age now : ℕ)
    → 0 < last_change
    → last_change ≤ now
    → changed_within_seconds last_change max_age now ≡ is_recent last_change max_age now
unfolding changed_within_seconds
changed_within_lem last_change max_age now p h = ground arith

-- The answer is the same a day later: an age counts without its days.
pub changed_within_wraps :
    (last_change max_age now : ℕ)
    → last_change ≤ now
    → changed_within_seconds last_change max_age (now + 86_400_000_000)
      ≡ changed_within_seconds last_change max_age now
unfolding changed_within_seconds
changed_within_wraps last_change max_age now h = ground arith
