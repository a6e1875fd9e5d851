-- ===== src/Client/CommandRetry/Retries.antt =====
-- aiohomematic/client/command_retry.py: how the attempts of `execute_with_retry` end.
use aiohomematic.Prelude.{
  ℕ, zero, suc, ◌+◌, ◌<◌, ◌≤◌, ◌≡◌, inl, inr, true, false, eqb, arith, Bool-cases, Result, ok, err,
}
use aiohomematic.Prelude.Lists.{All}
use aiohomematic.Prelude.Dict.{Hashable, nat_eq}
use aiohomematic.Exceptions.{Exc, raised, kind, no_connection, other}
use aiohomematic.Client.CommandRetry.{CommandRetryHandler, meanwhile, register_retry, is_retryable}
use aiohomematic.Client.CommandRetry.Attempts.{
  Turn, done, again, try_once, try_all, handle, wait, execute_with_retry,
}
use aiohomematic.Client.CommandRetry.Laws.{
  IsSound, register-registers, Holds, IsElsewhere, meanwhile-Holds, metered-Holds,
}

-- The other tasks work on other data points only.
abbrev pub IsQuiet : {K V : Type 0} ⦃h : Hashable K⦄ → K → Turn K V → Type 0
IsQuiet dpk t = All (IsElsewhere dpk) t.during_operation × All (IsElsewhere dpk) t.during_wait

-- The operation fails with an exception that is worth a retry; if it is a lost connection, the
-- recovery is announced in time.
pub record Fails {K V : Type 0} (exc : Exc) (t : Turn K V) : Type 0 where
  pub fails : t.outcome ≡ err exc
  pub retryable : is_retryable exc ≡ true
  pub recovers : kind exc ≡ no_connection → t.recovers ≡ true

module _ {K V : Type 0} ⦃h : Hashable K⦄ where
  -- The loop goes on with this handler after a failure.
  abbrev pub after_wait : Exc → Turn K V → CommandRetryHandler K → CommandRetryHandler K
  after_wait exc t c = elim (kind exc) [
    | no_connection ↦
        meanwhile t.during_wait (record c {
          metrics = record c.metrics { recovery_waits = c.metrics.recovery_waits + 1 };
        })
    | _ ↦ meanwhile t.during_wait c
  ]

  wait-again :
      (e : ℕ) (exc : Exc) (t : Turn K V) (c : CommandRetryHandler K)
      → (kind exc ≡ no_connection → t.recovers ≡ true)
      → (after_wait exc t c).is_set e ≡ false
      → wait e exc t c ≡ (again exc, after_wait exc t c)
  unfolding wait
  wait-again e exc t c r o = ground (arith, r, o)

  pub after_wait-Holds :
      (dpk : K) (e : ℕ) (exc : Exc) (t : Turn K V) (c : CommandRetryHandler K)
      → IsQuiet dpk t
      → Holds dpk e c
      → Holds dpk e (after_wait exc t c)
  after_wait-Holds dpk e exc t c quiet i =
      let plain = meanwhile-Holds dpk e t.during_wait c quiet.1 i in
      elim (kind exc)
        as (λ k. Holds dpk e (elim k [
          | no_connection ↦ meanwhile t.during_wait (record c {
            metrics = record c.metrics { recovery_waits = c.metrics.recovery_waits + 1 };
          })
          | _ ↦ meanwhile t.during_wait c
        ])) [
          | no_connection ↦
              meanwhile-Holds dpk e t.during_wait _ quiet.1 (metered-Holds dpk e _ c i)
          | _ ↦ plain
        ]

  -- The handler after an attempt that fails and is to be repeated.
  abbrev pub after_failure : Exc → Turn K V → CommandRetryHandler K → CommandRetryHandler K
  after_failure exc t c =
      let c' = meanwhile t.during_operation c in
      after_wait exc t
        (record c' { metrics = record c'.metrics { total_retries = c'.metrics.total_retries + 1 } })

  pub after_failure-Holds :
      (dpk : K) (e : ℕ) (exc : Exc) (t : Turn K V) (c : CommandRetryHandler K)
      → IsQuiet dpk t
      → Holds dpk e c
      → Holds dpk e (after_failure exc t c)
  after_failure-Holds dpk e exc t c quiet i =
      after_wait-Holds dpk e exc t _ quiet
        (metered-Holds dpk e _ _ (meanwhile-Holds dpk e t.during_operation c quiet.0 i))

  pub try_once-again :
      (dpk : K) (max attempt e : ℕ) (exc : Exc) (t : Turn K V) (c : CommandRetryHandler K)
      → attempt < max
      → IsQuiet dpk t
      → Fails exc t
      → Holds dpk e c
      → try_once max attempt e t c ≡ (again exc, after_failure exc t c)
  unfolding try_once handle
  try_once-again dpk max attempt e exc t c less quiet f i =
      let goes =
        wait-again e exc t
          (record (meanwhile t.during_operation c) {
            metrics = record (meanwhile t.during_operation c).metrics {
              total_retries = (meanwhile t.during_operation c).metrics.total_retries + 1;
            };
          })
          f.recovers (after_failure-Holds dpk e exc t c quiet i).open_ in
      ground (arith, less, f.fails, f.retryable, i.open_, goes)

  try_once-exhausted :
      (max e : ℕ) (exc : Exc) (t : Turn K V) (c : CommandRetryHandler K)
      → c.is_set e ≡ false
      → Fails exc t
      → (try_once max max e t c).0 ≡ done (err exc)
  unfolding try_once handle
  try_once-exhausted max e exc t c o f = ground (arith, o, f.fails, f.retryable)

  try_once-done :
      (max attempt e : ℕ) (v : V) (t : Turn K V) (c : CommandRetryHandler K)
      → c.is_set e ≡ false
      → t.outcome ≡ ok v
      → (try_once max attempt e t c).0 ≡ done (ok v)
  unfolding try_once
  try_once-done max attempt e v t c o r = ground (arith, o, r)

  pub try_all-again :
      (turns : ℕ → Turn K V) (max n attempt e : ℕ) (last exc : Exc) (c c' : CommandRetryHandler K)
      → try_once max attempt e (turns attempt) c ≡ (again exc, c')
      → try_all turns max (suc n) attempt e last c ≡ try_all turns max n (attempt + 1) e exc c'
  unfolding try_all
  try_all-again turns max n attempt e last exc c c' s = ground (arith, s)

  pub try_all-done :
      (turns : ℕ → Turn K V) (max n attempt e : ℕ) (last : Exc) (r : Result Exc V)
      (c : CommandRetryHandler K)
      → (try_once max attempt e (turns attempt) c).0 ≡ done r
      → (try_all turns max (suc n) attempt e last c).0 ≡ r
  unfolding try_all
  try_all-done turns max n attempt e last r c s = ground (arith, s)

  -- From attempt to attempt, up to the first that succeeds.
  try_all-succeeds :
      (dpk : K) (turns : ℕ → Turn K V) (exc : ℕ → Exc) (max good : ℕ) (v : V) (n attempt e : ℕ)
      (last : Exc) (c : CommandRetryHandler K)
      → attempt + n ≡ max + 1
      → 0 < attempt
      → attempt ≤ good
      → good ≤ max
      → ((i : ℕ) → 0 < i → i < good → Fails (exc i) (turns i) × IsQuiet dpk (turns i))
      → (turns good).outcome ≡ ok v
      → Holds dpk e c
      → (try_all turns max n attempt e last c).0 ≡ ok v
  try_all-succeeds dpk turns exc max good v zero attempt e last c sum pos_ low high f r i =
      absurd (omega arith)
  try_all-succeeds dpk turns exc max good v (suc n) attempt e last c sum pos_ low high f r i =
      elim (Bool-cases (eqb attempt good)) [
        | inl here ↦
            let at : attempt ≡ good = ground (arith, here) in
            try_all-done turns max n attempt e last (ok v) c
              (try_once-done max attempt e v (turns attempt) c i.open_ (rw at r))
        | inr later ↦
            let less : attempt < good = ground (arith, later, low) in
            let (fails, quiet) = f attempt pos_ less in
            rw
              (try_all-again turns max n attempt e last (exc attempt) c _ (
                try_once-again dpk max attempt e (exc attempt) (turns attempt) c (omega arith) quiet
                  fails i))
              (try_all-succeeds dpk turns exc max good v n (attempt + 1) e (exc attempt) _
                (omega arith) (omega arith) (omega arith) high f r
                (after_failure-Holds dpk e (exc attempt) (turns attempt) c quiet i))
      ]

  -- From attempt to attempt, to the last.
  try_all-exhausts :
      (dpk : K) (turns : ℕ → Turn K V) (exc : ℕ → Exc) (max n attempt e : ℕ) (last : Exc)
      (c : CommandRetryHandler K)
      → attempt + n ≡ max + 1
      → 0 < attempt
      → attempt ≤ max
      → ((i : ℕ) → 0 < i → i ≤ max → Fails (exc i) (turns i) × IsQuiet dpk (turns i))
      → Holds dpk e c
      → (try_all turns max n attempt e last c).0 ≡ err (exc max)
  try_all-exhausts dpk turns exc max zero attempt e last c sum pos_ low f i = absurd (omega arith)
  try_all-exhausts dpk turns exc max (suc n) attempt e last c sum pos_ low f i =
      elim (Bool-cases (eqb attempt max)) [
        | inl here ↦
            let at : attempt ≡ max = ground (arith, here) in
            try_all-done turns max n attempt e last (err (exc max)) c (
              rw at (
                try_once-exhausted max e (exc max) (turns max) c i.open_
                  (f max (omega arith) (omega arith)).0))
        | inr later ↦
            let less : attempt < max = ground (arith, later, low) in
            let (fails, quiet) = f attempt pos_ low in
            rw
              (try_all-again turns max n attempt e last (exc attempt) c _ (
                try_once-again dpk max attempt e (exc attempt) (turns attempt) c less quiet fails
                  i))
              (try_all-exhausts dpk turns exc max n (attempt + 1) e (exc attempt) _ (omega arith)
                (omega arith) (omega arith) f
                (after_failure-Holds dpk e (exc attempt) (turns attempt) c quiet i))
      ]

  pub execute-try_all :
      (dpk : K) (turns : ℕ → Turn K V) (c : CommandRetryHandler K)
      → 0 < c.max_attempts
      → (execute_with_retry true dpk turns c).0
        ≡ (try_all turns c.max_attempts c.max_attempts 1 c.next_event
            (raised other)
            (register_retry dpk c).1).0
  unfolding execute_with_retry register_retry
  execute-try_all dpk turns c p = ground (arith, p)

  -- A command that is to be retried, on a sound handler: if the attempts before the given one fail
  -- with exceptions worth a retry (after a lost connection the recovery is announced in time), that
  -- attempt succeeds, is not beyond the configured maximum, and other tasks work on other data points
  -- only, then the caller gets the value of that attempt.
  pub execute-succeeds :
      (dpk : K) (turns : ℕ → Turn K V) (exc : ℕ → Exc) (good : ℕ) (v : V)
      (c : CommandRetryHandler K)
      → IsSound c
      → 0 < good
      → good ≤ c.max_attempts
      → ((i : ℕ) → 0 < i → i < good → Fails (exc i) (turns i) × IsQuiet dpk (turns i))
      → (turns good).outcome ≡ ok v
      → (execute_with_retry true dpk turns c).0 ≡ ok v
  execute-succeeds dpk turns exc good v c s pos_ high f r =
      rw (execute-try_all dpk turns c (omega arith)) (
        try_all-succeeds dpk turns exc c.max_attempts good v c.max_attempts 1 c.next_event
          (raised other) (register_retry dpk c).1 (omega arith) (omega arith) (omega arith) high f r
          (register-registers dpk c s))

  -- A command that is to be retried, on a sound handler that allows at least one attempt: if all
  -- attempts up to the configured maximum fail with exceptions worth a retry (after a lost connection
  -- the recovery is announced in time) and other tasks work on other data points only, then the
  -- caller gets the exception of the last of them.
  pub execute-exhausts :
      (dpk : K) (turns : ℕ → Turn K V) (exc : ℕ → Exc) (c : CommandRetryHandler K)
      → IsSound c
      → 0 < c.max_attempts
      → ((i : ℕ) → 0 < i → i ≤ c.max_attempts → Fails (exc i) (turns i) × IsQuiet dpk (turns i))
      → (execute_with_retry true dpk turns c).0 ≡ err (exc c.max_attempts)
  execute-exhausts dpk turns exc c s pos_ f = rw (execute-try_all dpk turns c pos_) (
      try_all-exhausts dpk turns exc c.max_attempts c.max_attempts 1 c.next_event (raised other)
        (register_retry dpk c).1 (omega arith) (omega arith) (omega arith) f
        (register-registers dpk c s))
