-- ===== src/Client/CommandRetry/Attempts.antt =====
-- aiohomematic/client/command_retry.py: `execute_with_retry`.
--
-- A `Turn` is what the world does in one attempt: what other tasks do with the handler at the two
-- awaits, how the operation ends, and whether the recovery of the connection is announced in time.
-- The delays, floating point numbers with a random part, are left out, so is logging. A negative
-- `command_retry_max_attempts` counts as 0.
use aiohomematic.Prelude.{
  ℕ, zero, suc, ◌+◌, Bool, ◌||◌, not, List, ltb, leb, eqb, if◌then◌else◌, Result, ok, err,
}
use aiohomematic.Prelude.Dict.{Hashable, nat_eq}
use aiohomematic.Exceptions.{Exc, raised, kind, command_superseded, no_connection, other}
use aiohomematic.Client.CommandRetry.{
  CommandRetryHandler, Other, is_retryable, register_retry, release, meanwhile,
}

pub record Turn (K V : Type 0) : Type 0 where
  pub during_operation : List (Other K)
  pub outcome : Result Exc V
  pub during_wait : List (Other K)
  pub recovers : Bool

-- An attempt returns or raises to the caller, or is to be repeated after an exception.
pub data Verdict (V : Type 0) : Type 0 where
  done : Result Exc V → Verdict V
  again : Exc → Verdict V

abbrev pub superseded : Exc
superseded = raised command_superseded

unfoldable pub succeed : {K : Type 0} → ℕ → CommandRetryHandler K → CommandRetryHandler K
succeed attempt c =
    if ltb 1 attempt
    then record c {
      metrics = record c.metrics { successful_retries = c.metrics.successful_retries + 1 };
    }
    else c

module _ {K V : Type 0} ⦃h : Hashable K⦄ where
  unfoldable pub wait_for_recovery :
      ℕ → Exc → Turn K V → CommandRetryHandler K → Verdict V × CommandRetryHandler K
  wait_for_recovery e exc t c =
      let c' = meanwhile t.during_wait (record c {
        metrics = record c.metrics { recovery_waits = c.metrics.recovery_waits + 1 };
      }) in
      if c'.is_set e
      then (done (err superseded), c')
      else (if t.recovers then (again exc, c') else (
        done (err exc),
        record c' {
          metrics = record c'.metrics {
            recovery_wait_timeouts = c'.metrics.recovery_wait_timeouts + 1;
          };
        },
      ))

  unfoldable pub interruptible_sleep :
      ℕ → Exc → Turn K V → CommandRetryHandler K → Verdict V × CommandRetryHandler K
  interruptible_sleep e exc t c =
      let c' = meanwhile t.during_wait c in
      if c'.is_set e then (done (err superseded), c') else (again exc, c')

  unfoldable pub wait :
      ℕ → Exc → Turn K V → CommandRetryHandler K → Verdict V × CommandRetryHandler K
  unfolding wait_for_recovery interruptible_sleep
  wait e exc t c = elim (kind exc) [
    | no_connection ↦ wait_for_recovery e exc t c
    | _ ↦ interruptible_sleep e exc t c
  ]

  -- the handler of the exceptions of the operation, in the given one of so many attempts
  unfoldable pub handle :
      ℕ → ℕ → ℕ → Exc → Turn K V → CommandRetryHandler K → Verdict V × CommandRetryHandler K
  unfolding wait is_retryable
  handle max attempt e exc t c =
      if not (is_retryable exc)
      then (done (err exc), c)
      else (if leb max attempt
          then (
            done (err exc),
            record c {
              metrics = record c.metrics { exhausted_retries = c.metrics.exhausted_retries + 1 };
            },
          )
          else wait e exc t (record c {
            metrics = record c.metrics { total_retries = c.metrics.total_retries + 1 };
          }))

  -- the body of the loop
  unfoldable pub try_once :
      ℕ → ℕ → ℕ → Turn K V → CommandRetryHandler K → Verdict V × CommandRetryHandler K
  unfolding handle succeed
  try_once max attempt e t c = if c.is_set e then (done (err superseded), c) else elim t.outcome [
    | ok v ↦ (done (ok v), succeed attempt (meanwhile t.during_operation c))
    | err exc ↦ handle max attempt e exc t (meanwhile t.during_operation c)
  ]

  -- The loop, with so many attempts left, from the given attempt on; `last` is `last_exception`.
  unfoldable pub try_all :
      (ℕ → Turn K V)
      → ℕ
      → ℕ
      → ℕ
      → ℕ
      → Exc
      → CommandRetryHandler K
      → Result Exc V × CommandRetryHandler K
  try_all turns max zero attempt e last c = (err last, c)
  try_all turns max (suc n) attempt e last c =
      let (verdict, c') = try_once max attempt e (turns attempt) c in
      elim verdict [ done r ↦ (r, c') | again exc ↦ try_all turns max n (attempt + 1) e exc c' ]

  -- `execute_with_retry`; the exception before the first attempt is that of the assertion.
  unfoldable pub execute_with_retry :
      Bool → K → (ℕ → Turn K V) → CommandRetryHandler K → Result Exc V × CommandRetryHandler K
  execute_with_retry retry dpk turns c =
      if not retry || eqb c.max_attempts 0
      then ((turns 1).outcome, meanwhile (turns 1).during_operation c)
      else (let (e, c') = register_retry dpk c in
          let (r, c'') = try_all turns c.max_attempts c.max_attempts 1 e (raised other) c' in
          (r, release dpk e c''))
