-- ===== src/Client/CommandRetry/Superseding.antt =====
-- aiohomematic/client/command_retry.py: a newer command for the same data point.
use aiohomematic.Prelude.{
  ℕ, zero, suc, ◌+◌, ◌<◌, ◌≤◌, ◌≡◌, ◌≢◌, refl, inl, inr, true, false, some, List, [], ◌∷◌, ◌++◌,
  eqb, arith, Bool-cases, Result, err,
}
use aiohomematic.Prelude.Lists.{All}
use aiohomematic.Prelude.Dict.{Hashable, lookup, nat_eq, lookup-insert}
use aiohomematic.Exceptions.{Exc, raised, kind, no_connection, other}
use aiohomematic.Client.CommandRetry.{
  CommandRetryHandler, Other, registers, do_other, meanwhile, supersede, register_retry, release,
  is_retryable,
}
use aiohomematic.Client.CommandRetry.Attempts.{
  superseded, Turn, done, try_once, try_all, handle, wait, execute_with_retry,
}
use aiohomematic.Client.CommandRetry.Laws.{
  Holds, IsElsewhere, IsSound, meanwhile-Holds, metered-Holds, register-active, register-new,
  register-registers,
}
use aiohomematic.Client.CommandRetry.Retries.{
  Fails, IsQuiet, after_wait, after_failure, after_failure-Holds, try_once-again, try_all-again,
}

module _ {K : Type 0} ⦃h : Hashable K⦄ where
  -- The event of a retry is set, and the data point is registered with another one that is not.
  pub record Replaced (dpk : K) (e : ℕ) (c : CommandRetryHandler K) : Type 0 where
    pub is_over : c.is_set e ≡ true
    pub newer : ℕ
    pub registered : lookup dpk c.active_retries ≡ some newer
    pub differs : newer ≢ e
    pub open_ : c.is_set newer ≡ false

  register-over :
      (dpk : K) (e : ℕ) (c : CommandRetryHandler K)
      → lookup dpk c.active_retries ≡ some e
      → e < c.next_event
      → (register_retry dpk c).1.is_set e ≡ true
  unfolding register_retry supersede
  register-over dpk e c at old = ground (arith, at, old)

  register-Replaced :
      (dpk : K) (e : ℕ) (c : CommandRetryHandler K)
      → Holds dpk e c
      → Replaced dpk e (register_retry dpk c).1
  register-Replaced dpk e c i = record {
    is_over = register-over dpk e c i.registered i.given;
    newer = c.next_event;
    registered =
        rw (register-active dpk c) (
          ground (arith, lookup-insert dpk dpk c.next_event c.active_retries, h.equal_iff dpk dpk));
    differs = ground (arith, i.given);
    open_ = register-new dpk c;
  }

  meanwhile-Replaced :
      (dpk : K) (e : ℕ) (os : List (Other K)) (c : CommandRetryHandler K)
      → All (IsElsewhere dpk) os
      → Holds dpk e c
      → Replaced dpk e (meanwhile (os ++ registers dpk ∷ []) c)
  unfolding meanwhile do_other
  meanwhile-Replaced dpk e [] c away i = register-Replaced dpk e c i
  meanwhile-Replaced dpk e (o ∷ os) c away i =
      meanwhile-Replaced dpk e os (do_other o c) away.1
        (meanwhile-Holds dpk e (o ∷ []) c (away.0, tt) i)

  -- The end of the superseded call leaves the newer registration.
  release-Replaced :
      (dpk : K) (e : ℕ) (c : CommandRetryHandler K) → Replaced dpk e c → release dpk e c ≡ c
  unfolding release
  release-Replaced dpk e c i = ground (arith, i.registered, i.differs)

module _ {K V : Type 0} ⦃h : Hashable K⦄ where
  -- Other tasks work on other data points, until in the wait one registers a newer command.
  pub record IsOvertaken (dpk : K) (t : Turn K V) : Type 0 where
    pub before : All (IsElsewhere dpk) t.during_operation
    pub meantime : List (Other K)
    pub elsewhere : All (IsElsewhere dpk) meantime
    pub overtakes : t.during_wait ≡ meantime ++ registers dpk ∷ []

  wait-superseded :
      (e : ℕ) (exc : Exc) (t : Turn K V) (c : CommandRetryHandler K)
      → (after_wait exc t c).is_set e ≡ true
      → wait e exc t c ≡ (done (err superseded), after_wait exc t c)
  unfolding wait
  wait-superseded e exc t c o = ground (arith, o)

  after_wait-Replaced :
      (dpk : K) (e : ℕ) (exc : Exc) (t : Turn K V) (c : CommandRetryHandler K)
      → IsOvertaken dpk t
      → Holds dpk e c
      → Replaced dpk e (after_wait exc t c)
  after_wait-Replaced dpk e exc t c o i =
      let go : (c' : CommandRetryHandler K)
          → Holds dpk e c'
          → Replaced dpk e (meanwhile t.during_wait c') =
        λ c' i'. rw o.overtakes (meanwhile-Replaced dpk e o.meantime c' o.elsewhere i') in
      elim (kind exc)
        as (λ k. Replaced dpk e (elim k [
          | no_connection ↦ meanwhile t.during_wait (record c {
            metrics = record c.metrics { recovery_waits = c.metrics.recovery_waits + 1 };
          })
          | _ ↦ meanwhile t.during_wait c
        ])) [ no_connection ↦ go _ (metered-Holds dpk e _ c i) | _ ↦ go c i ]

  after_failure-Replaced :
      (dpk : K) (e : ℕ) (exc : Exc) (t : Turn K V) (c : CommandRetryHandler K)
      → IsOvertaken dpk t
      → Holds dpk e c
      → Replaced dpk e (after_failure exc t c)
  after_failure-Replaced dpk e exc t c o i =
      after_wait-Replaced dpk e exc t _ o
        (metered-Holds dpk e _ _ (meanwhile-Holds dpk e t.during_operation c o.before i))

  try_once-superseded :
      (dpk : K) (max attempt e : ℕ) (exc : Exc) (t : Turn K V) (c : CommandRetryHandler K)
      → attempt < max
      → IsOvertaken dpk t
      → t.outcome ≡ err exc
      → is_retryable exc ≡ true
      → Holds dpk e c
      → try_once max attempt e t c ≡ (done (err superseded), after_failure exc t c)
  unfolding try_once handle
  try_once-superseded dpk max attempt e exc t c less o f r i =
      let ends =
        wait-superseded e exc t
          (record (meanwhile t.during_operation c) {
            metrics = record (meanwhile t.during_operation c).metrics {
              total_retries = (meanwhile t.during_operation c).metrics.total_retries + 1;
            };
          })
          (after_failure-Replaced dpk e exc t c o i).is_over in
      ground (arith, less, f, r, i.open_, ends)

  try_all-ends :
      (turns : ℕ → Turn K V) (max n attempt e : ℕ) (last : Exc) (r : Result Exc V)
      (c c' : CommandRetryHandler K)
      → try_once max attempt e (turns attempt) c ≡ (done r, c')
      → try_all turns max (suc n) attempt e last c ≡ (r, c')
  unfolding try_all
  try_all-ends turns max n attempt e last r c c' s = ground (arith, s)

  -- From attempt to attempt, up to the one that is overtaken.
  try_all-superseded :
      (dpk : K) (turns : ℕ → Turn K V) (exc : ℕ → Exc) (max over n attempt e : ℕ) (last : Exc)
      (c : CommandRetryHandler K)
      → attempt + n ≡ max + 1
      → 0 < attempt
      → attempt ≤ over
      → over < max
      → ((i : ℕ) → 0 < i → i < over → Fails (exc i) (turns i) × IsQuiet dpk (turns i))
      → (turns over).outcome ≡ err (exc over)
      → is_retryable (exc over) ≡ true
      → IsOvertaken dpk (turns over)
      → Holds dpk e c
      → (c' : CommandRetryHandler K) × (try_all turns max n attempt e last c ≡ (err superseded, c'))
        × Replaced dpk e c'
  try_all-superseded dpk turns exc max over zero attempt e last c sum pos_ low high f r t o i =
      absurd (omega arith)
  try_all-superseded dpk turns exc max over (suc n) attempt e last c sum pos_ low high f r t o i =
      elim (Bool-cases (eqb attempt over)) [
        | inl here ↦
            let at : attempt ≡ over = ground (arith, here) in
            (
              after_failure (exc over) (turns over) c,
              try_all-ends turns max n attempt e last (err superseded) c _ (
                  rw at
                    (try_once-superseded dpk max over e (exc over) (turns over) c high o r t i)),
              after_failure-Replaced dpk e (exc over) (turns over) c o i,
            )
        | inr later ↦
            let less : attempt < over = ground (arith, later, low) in
            let (fails, quiet) = f attempt pos_ less in
            rw
              (try_all-again turns max n attempt e last (exc attempt) c _ (
                try_once-again dpk max attempt e (exc attempt) (turns attempt) c (omega arith) quiet
                  fails i))
              (try_all-superseded dpk turns exc max over n (attempt + 1) e (exc attempt) _
                (omega arith) (omega arith) (omega arith) high f r t o
                (after_failure-Holds dpk e (exc attempt) (turns attempt) c quiet i))
      ]

  execute-release :
      (dpk : K) (turns : ℕ → Turn K V) (r : Result Exc V) (c c' : CommandRetryHandler K)
      → 0 < c.max_attempts
      → try_all turns c.max_attempts c.max_attempts 1 c.next_event
          (raised other)
          (register_retry dpk c).1
        ≡ (r, c')
      → execute_with_retry true dpk turns c ≡ (r, release dpk c.next_event c')
  unfolding execute_with_retry register_retry
  execute-release dpk turns r c c' p t = ground (arith, p, t)

  -- A command that is to be retried, on a sound handler: let the attempts before the given one fail
  -- with exceptions worth a retry (after a lost connection the recovery is announced in time) while
  -- other tasks work on other data points only, and let the given attempt, not the last, fail so too.
  -- If in its wait a newer command for the same data point is registered, the caller gets the
  -- `CommandSupersededError`, and the newer command stays registered and is not cancelled.
  pub execute-superseded :
      (dpk : K) (turns : ℕ → Turn K V) (exc : ℕ → Exc) (over : ℕ) (c : CommandRetryHandler K)
      → IsSound c
      → 0 < over
      → over < c.max_attempts
      → ((i : ℕ) → 0 < i → i < over → Fails (exc i) (turns i) × IsQuiet dpk (turns i))
      → (turns over).outcome ≡ err (exc over)
      → is_retryable (exc over) ≡ true
      → IsOvertaken dpk (turns over)
      → ((execute_with_retry true dpk turns c).0 ≡ err superseded)
        × ((newer : ℕ) × (lookup dpk (execute_with_retry true dpk turns c).1.active_retries
              ≡ some newer)
            × ((execute_with_retry true dpk turns c).1.is_set newer ≡ false))
  execute-superseded dpk turns exc over c s pos_ high f r t o =
      let (c', ends, i) =
        try_all-superseded dpk turns exc c.max_attempts over c.max_attempts 1 c.next_event
          (raised other) (register_retry dpk c).1 (omega arith) (omega arith) (omega arith) high f r
          t o (register-registers dpk c s) in
      rw (execute-release dpk turns (err superseded) c c' (omega arith) ends)
        (rw (release-Replaced dpk c.next_event c' i) (refl, (i.newer, i.registered, i.open_)))
