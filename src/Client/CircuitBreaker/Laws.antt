-- ===== src/Client/CircuitBreaker/Laws.antt =====
-- When the circuit opens, how long it stays open, and when it closes.
use aiohomematic.Prelude.{
  ℕ, zero, suc, ◌+◌, ◌≤◌, ◌<◌, ◌≡◌, refl, ◌≢◌, String, Bool, true, some, List, [], ◌∷◌, arith, ltb,
  leb, if◌then◌else◌, is_some, map, Bool-cases, inl, inr, ◌⊎◌,
}
use aiohomematic.Prelude.Lists.{length, All, replicate}
use aiohomematic.Client.CircuitBreaker.{
  CircuitState, closed, opened, half_open, CircuitBreaker, CircuitBreakerConfig, init, is_available,
  Call, polls, fails, rejects, succeeds, resets, step, run,
}

-- What holds of a breaker between two calls.
pub record IsSane (b : CircuitBreaker) : Type 0 where
  pub can_trip : 0 < b.failure_threshold
  pub can_close : 0 < b.success_threshold
  pub closed_below : b.state ≡ closed → b.failure_count < b.failure_threshold
  pub testing_below : b.state ≡ half_open → b.success_count < b.success_threshold
  pub idle_count : b.state ≢ half_open → b.success_count ≡ 0
  pub opened_stamped : b.state ≡ opened → is_some b.last_failure_time ≡ true

step-IsSane : (c : Call) (b : CircuitBreaker) → IsSane b → IsSane (step c b).0
unfolding step
step-IsSane (polls now) b h = ground arith
step-IsSane (fails now) b h = ground arith
step-IsSane rejects b h = ground arith
step-IsSane succeeds b h = ground arith
step-IsSane resets b h = ground arith

run-IsSane_from : (cs : List Call) (b : CircuitBreaker) → IsSane b → IsSane (run cs b).0
unfolding run
run-IsSane_from [] b h = h
run-IsSane_from (c ∷ cs) b h = run-IsSane_from cs (step c b).0 (step-IsSane c b h)

-- With positive thresholds, after any history of calls on a new breaker: while closed the failure
-- count is below its threshold, while testing the success count is below its own, outside the test
-- state no successes are counted, and an open breaker has the time of a failure.
pub run-IsSane :
    (config : CircuitBreakerConfig) (iid : String) (bus recorder connection : Bool) (cs : List Call)
    → 0 < config.failure_threshold
    → 0 < config.success_threshold
    → IsSane (run cs (init config iid bus recorder connection)).0
unfolding init
run-IsSane config iid bus recorder connection cs f s = run-IsSane_from cs _ (ground arith)

-- The state that a number of consecutive failures leaves a closed breaker in.
abbrev pub tripped_state : ℕ → ℕ → CircuitState
tripped_state threshold n = if ltb n threshold then closed else opened

fails_once :
    (b : CircuitBreaker) (t n : ℕ)
    → b.state ≡ tripped_state b.failure_threshold n
    → b.failure_count ≡ n
    → ((step (fails t) b).0.state ≡ tripped_state b.failure_threshold (suc n))
      × ((step (fails t) b).0.failure_count ≡ suc n)
      × ((step (fails t) b).0.failure_threshold ≡ b.failure_threshold)
unfolding step
fails_once b t n s c = ground arith

fails_from :
    (ts : List ℕ) (b : CircuitBreaker) (n k : ℕ)
    → b.failure_threshold ≡ k
    → b.state ≡ tripped_state k n
    → b.failure_count ≡ n
    → (run (map fails ts) b).0.state ≡ tripped_state k (length ts + n)
unfolding run
fails_from [] b n k e s c = ground arith
fails_from (t ∷ ts) b n k e s c =
    let (state, count, same) = fails_once b t n (ground arith) c in
    let ih = fails_from ts (step (fails t) b).0 (suc n) k (ground arith) (ground arith) count in
    ground (arith, ih)

-- Consecutive failures leave a new breaker closed while there are fewer than the threshold, and
-- open from the threshold on, at whatever times they come.
pub run-fails :
    (config : CircuitBreakerConfig) (iid : String) (bus recorder connection : Bool) (ts : List ℕ)
    → 0 < config.failure_threshold
    → (run (map fails ts) (init config iid bus recorder connection)).0.state
      ≡ (if ltb (length ts) config.failure_threshold then closed else opened)
unfolding init
run-fails config iid bus recorder connection ts h =
    let from =
      fails_from ts (init config iid bus recorder connection) 0 config.failure_threshold refl
        (ground arith) refl in
    ground (arith, from)

-- A poll before the due time, or a rejection.
abbrev pub IsEarly : ℕ → Call → Type 0
IsEarly due (polls now) = now < due
IsEarly due rejects = Unit
IsEarly due _ = ⊥

-- A breaker that is open and last failed at `t` is left as it is by any polls before
-- `t + recovery_timeout` and any rejections. A poll after them is answered yes exactly from that
-- time on, and then puts the breaker to the test.
pub opened_waits :
    (cs : List Call) (b : CircuitBreaker) (t now : ℕ)
    → b.state ≡ opened
    → b.last_failure_time ≡ some t
    → All (IsEarly (t + b.recovery_timeout)) cs
    → ((run cs b).0 ≡ b)
      × ((is_available now b).0 ≡ leb (t + b.recovery_timeout) now)
      × (t + b.recovery_timeout ≤ now → (is_available now b).1.state ≡ half_open)
unfolding run step
opened_waits [] b t now s l early = (refl, ground arith, ground arith)
opened_waits (polls p ∷ cs) b t now s l early =
    let same : (step (polls p) b).0 ≡ b = ground arith in
    let ih = opened_waits cs b t now s l early.1 in (rw same ih.0, ih.1, ih.2)
opened_waits (rejects ∷ cs) b t now s l early = opened_waits cs b t now s l early.1
opened_waits (fails p ∷ cs) b t now s l early = absurd early.0
opened_waits (succeeds ∷ cs) b t now s l early = absurd early.0
opened_waits (resets ∷ cs) b t now s l early = absurd early.0

-- the state of a breaker under test after some more successes
abbrev pub tested_state : ℕ → ℕ → CircuitState
tested_state threshold n = if ltb n threshold then half_open else closed

succeeds_once :
    (b : CircuitBreaker) (n k : ℕ)
    → b.success_threshold ≡ k
    → b.state ≡ half_open
    → b.success_count ≡ n
    → ((step succeeds b).0.state ≡ tested_state k (suc n))
      × ((step succeeds b).0.success_threshold ≡ k)
      × (((step succeeds b).0.success_count ≡ suc n) ⊎ (k ≤ suc n))
unfolding step
succeeds_once b n k e s c = ground arith

succeeds_closed :
    (m : ℕ) (b : CircuitBreaker)
    → b.state ≡ closed
    → (run (replicate m succeeds) b).0.state ≡ closed
unfolding run step
succeeds_closed zero b s = s
succeeds_closed (suc m) b s = succeeds_closed m (step succeeds b).0 (ground arith)

succeeds_from :
    (m : ℕ) (b : CircuitBreaker) (n k : ℕ)
    → b.success_threshold ≡ k
    → b.state ≡ half_open
    → b.success_count ≡ n
    → n < k
    → (run (replicate m succeeds) b).0.state ≡ tested_state k (m + n)
unfolding run
succeeds_from zero b n k e s c h = ground arith
succeeds_from (suc m) b n k e s c h =
    let (state, same, count) = succeeds_once b n k e s c in
    elim (Bool-cases (ltb (suc n) k)) [
      | inl more ↦
          let ih =
            succeeds_from m (step succeeds b).0 (suc n) k same (ground arith) (ground arith)
              (ground arith) in
          ground (arith, ih)
      | inr done ↦
          let closed' = succeeds_closed m (step succeeds b).0 (ground arith) in
          ground (arith, closed')
    ]

-- A breaker that a poll has put to the test stays in test for fewer successes than the success
-- threshold, and is closed from the threshold on; one failure, whenever it comes in the test,
-- opens it again.
pub half_open-run :
    (m t : ℕ) (b : CircuitBreaker)
    → b.state ≡ half_open
    → b.success_count ≡ 0
    → 0 < b.success_threshold
    → ((run (replicate m succeeds) b).0.state
        ≡ (if ltb m b.success_threshold then half_open else closed))
      × (m < b.success_threshold
          → (step (fails t) (run (replicate m succeeds) b).0).0.state ≡ opened)
half_open-run m t b s c h =
    let from = succeeds_from m b 0 b.success_threshold refl s c h in
    (ground (arith, from), λ less. fails_half_open t _ (ground (arith, from)))
  where
    fails_half_open :
        (t : ℕ) (b : CircuitBreaker) → b.state ≡ half_open → (step (fails t) b).0.state ≡ opened
    fails_half_open t b e = unfold step in (ground arith)
