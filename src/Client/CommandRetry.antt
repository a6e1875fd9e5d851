-- ===== src/Client/CommandRetry.antt =====
-- aiohomematic/client/command_retry.py: the class CommandRetryHandler, without its retry loop.
--
-- Keys of data points are a type K with an equality test. An `asyncio.Event` is a number, and the
-- handler knows which are set. Logging is left out.
pub mod Attempts
pub mod Laws
pub mod Retries
pub mod Superseding
pub mod Cancelling
mod Tests
use aiohomematic.Prelude.{
  ℕ, zero, suc, ◌+◌, Bool, true, false, ◌&&◌, ◌||◌, not, Option, none, some, List, [], ◌∷◌, ltb,
  leb, eqb, if◌then◌else◌, Result, ok, err, map,
}
use aiohomematic.Prelude.Lists.{length}
use aiohomematic.Prelude.Dict.{Dict, Hashable, contains, lookup, insert, remove, nat_eq}
use aiohomematic.Exceptions.{
  Kind, Exc, raised, raised_from, kind, is_homematic, auth_failure, circuit_breaker_open,
  command_superseded, unsupported, validation, timeout_error, no_connection, internal_backend,
  xml_rpc_fault, other,
}

-- `faultCode` of a class that has it
abbrev pub fault_code : Kind → Option (Bool × ℕ)
fault_code (xml_rpc_fault negative n) = some (negative, n)
fault_code _ = none

-- the loop of `_get_fault_code`, from a cause on
find_fault_code : Exc → Option (Bool × ℕ)
find_fault_code (raised k) = fault_code k
find_fault_code (raised_from k cause) =
    let rest = find_fault_code cause in elim (fault_code k) [ some c ↦ some c | none ↦ rest ]

unfoldable pub get_fault_code : Exc → Option (Bool × ℕ)
unfolding find_fault_code
get_fault_code (raised k) = none
get_fault_code (raised_from k cause) = find_fault_code cause

-- `_NON_RETRYABLE_EXCEPTIONS`
abbrev pub is_non_retryable : Kind → Bool
is_non_retryable auth_failure = true
is_non_retryable circuit_breaker_open = true
is_non_retryable command_superseded = true
is_non_retryable unsupported = true
is_non_retryable validation = true
is_non_retryable _ = false

abbrev pub is_transient : Kind → Bool
is_transient timeout_error = true
is_transient no_connection = true
is_transient internal_backend = true
is_transient _ = false

-- `_RETRYABLE_FAULT_CODES`
abbrev pub is_retryable_code : Option (Bool × ℕ) → Bool
is_retryable_code (some (true, n)) = contains n (1 ∷ 8 ∷ 9 ∷ 10 ∷ [])
is_retryable_code _ = false

unfoldable pub is_retryable : Exc → Bool
unfolding get_fault_code contains
is_retryable exc =
    if is_non_retryable (kind exc)
    then false
    else (if is_transient (kind exc)
        then true
        else is_homematic (kind exc) && is_retryable_code (get_fault_code exc))

pub record CommandRetryMetrics : Type 0 where
  pub total_retries : ℕ
  pub successful_retries : ℕ
  pub exhausted_retries : ℕ
  pub recovery_waits : ℕ
  pub recovery_wait_timeouts : ℕ
  pub cancelled_retries : ℕ

pub record CommandRetryHandler (K : Type 0) : Type 0 where
  pub max_attempts : ℕ
  pub metrics : CommandRetryMetrics
  pub active_retries : Dict K ℕ
  pub is_set : ℕ → Bool
  pub next_event : ℕ

-- What other tasks do with the handler: register a retry, cancel one, or end one that they had
-- registered with the event.
pub data Other (K : Type 0) : Type 0 where
  registers cancels : K → Other K
  releases : K → ℕ → Other K

abbrev pub set_event : ℕ → (ℕ → Bool) → ℕ → Bool
set_event e is_set i = if eqb i e then true else is_set i

abbrev pub new_event : ℕ → (ℕ → Bool) → ℕ → Bool
new_event e is_set i = if eqb i e then false else is_set i

abbrev pub count_cancelled : CommandRetryMetrics → CommandRetryMetrics
count_cancelled m = record m { cancelled_retries = m.cancelled_retries + 1 }

module _ {K : Type 0} ⦃h : Hashable K⦄ where
  unfoldable pub active_retry_count : CommandRetryHandler K → ℕ
  active_retry_count c = length c.active_retries

  -- the first statement of `_register_retry`
  pub supersede : K → CommandRetryHandler K → CommandRetryHandler K
  supersede dpk c = elim (lookup dpk c.active_retries) [
    | some e ↦ record c { is_set = set_event e c.is_set; metrics = count_cancelled c.metrics }
    | none ↦ c
  ]

  -- `_register_retry`: the new event, and the handler.
  unfoldable pub register_retry : K → CommandRetryHandler K → ℕ × CommandRetryHandler K
  unfolding supersede
  register_retry dpk c =
      let c' = supersede dpk c in
      (
        c.next_event,
        record c' {
          active_retries = insert dpk c.next_event c'.active_retries;
          is_set = new_event c.next_event c'.is_set;
          next_event = c.next_event + 1;
        },
      )

  -- `_cancel_retry_for_dpk`
  unfoldable pub cancel_retry_for_dpk : K → CommandRetryHandler K → ℕ × CommandRetryHandler K
  cancel_retry_for_dpk dpk c = elim (lookup dpk c.active_retries) [
    | some e ↦ (
      1,
      record c {
        active_retries = remove dpk c.active_retries;
        is_set = set_event e c.is_set;
        metrics = count_cancelled c.metrics;
      },
    )
    | none ↦ (0, c)
  ]

  -- Cancelling one key after the other.
  unfoldable pub cancel_each : List K → CommandRetryHandler K → CommandRetryHandler K
  cancel_each [] c = c
  cancel_each (dpk ∷ dpks) c = cancel_each dpks (cancel_retry_for_dpk dpk c).1

  unfoldable pub cancel_retries_for_interface : CommandRetryHandler K → ℕ × CommandRetryHandler K
  cancel_retries_for_interface c =
      (length c.active_retries, cancel_each (map (λ x. x.0) c.active_retries) c)

  -- The registered keys with the property.
  unfoldable pub keys_where : (K → Bool) → Dict K ℕ → List K
  keys_where p [] = []
  keys_where p ((k, e) ∷ d) = if p k then k ∷ keys_where p d else keys_where p d

  -- `cancel_retries_for_device`, with the test on the channel address of a key.
  unfoldable pub cancel_retries_for_device :
      (K → Bool) → CommandRetryHandler K → ℕ × CommandRetryHandler K
  cancel_retries_for_device is_of_device c =
      let to_cancel = keys_where is_of_device c.active_retries in
      (length to_cancel, cancel_each to_cancel c)

  -- the finally of `execute_with_retry`
  unfoldable pub release : K → ℕ → CommandRetryHandler K → CommandRetryHandler K
  release dpk e c = elim (lookup dpk c.active_retries) [
    | some e' ↦ if eqb e' e then record c { active_retries = remove dpk c.active_retries } else c
    | none ↦ c
  ]

  unfoldable pub do_other : Other K → CommandRetryHandler K → CommandRetryHandler K
  unfolding register_retry cancel_retry_for_dpk release
  do_other (registers dpk) c = (register_retry dpk c).1
  do_other (cancels dpk) c = (cancel_retry_for_dpk dpk c).1
  do_other (releases dpk e) c = release dpk e c

  unfoldable pub meanwhile : List (Other K) → CommandRetryHandler K → CommandRetryHandler K
  meanwhile [] c = c
  meanwhile (o ∷ os) c = meanwhile os (do_other o c)
