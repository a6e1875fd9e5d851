-- ===== src/Client/CommandRetry/Tests.antt =====
-- A command that fails twice, first by a lost connection, then by an exhausted duty cycle, and then
-- succeeds.
use aiohomematic.Prelude.{
  if◌then◌else◌, [], ◌∷◌, ℕ, ◌<◌, ◌≡◌, refl, true, false, some, arith, Bool-cases, inl, inr, ok,
  err, eqb,
}
use aiohomematic.Prelude.Dict.{Unique, contains, lookup, nat_eq}
use aiohomematic.Exceptions.{
  Exc, raised, raised_from, no_connection, client_exception, xml_rpc_fault,
}
use aiohomematic.Client.CommandRetry.{CommandRetryHandler, registers, is_retryable, get_fault_code}
use aiohomematic.Client.CommandRetry.Attempts.{superseded, Turn, execute_with_retry}
use aiohomematic.Client.CommandRetry.Laws.{IsSound}
use aiohomematic.Client.CommandRetry.Retries.{Fails, IsQuiet, execute-succeeds, execute-exhausts}
use aiohomematic.Client.CommandRetry.Superseding.{IsOvertaken, execute-superseded}

abbrev handler : CommandRetryHandler ℕ
handler = record {
  max_attempts = 3;
  metrics = record {
    total_retries = 0;
    successful_retries = 0;
    exhausted_retries = 0;
    recovery_waits = 0;
    recovery_wait_timeouts = 0;
    cancelled_retries = 0;
  };
  active_retries = [];
  is_set = λ e. false;
  next_event = 0;
}

abbrev lost : Exc
lost = raised no_connection

abbrev duty_cycle : Exc
duty_cycle = raised_from client_exception (raised (xml_rpc_fault true 8))

abbrev error_of : ℕ → Exc
error_of i = if eqb i 1 then lost else duty_cycle

abbrev failing : ℕ → Turn ℕ ℕ
failing i = record {
  during_operation = registers 9 ∷ [];
  outcome = err (error_of i);
  during_wait = [];
  recovers = true;
}

abbrev turns : ℕ → Turn ℕ ℕ
turns i = if eqb i 3 then record (failing i) { outcome = ok 42 } else failing i

handler-IsSound : IsSound handler
unfolding lookup
handler-IsSound = record { all_given = λ j e at. absurd (ground arith); no_twice = tt }

failing-Fails : (i : ℕ) → Fails (error_of i) (failing i)
unfolding is_retryable get_fault_code contains
failing-Fails i = elim (Bool-cases (eqb i 1)) [
  | inl e ↦ rw e (record { fails = refl; retryable = refl; recovers = λ e. refl })
  | inr e ↦ rw e (record { fails = refl; retryable = refl; recovers = λ e. refl })
]

failing-IsQuiet : (i : ℕ) → IsQuiet 2 (failing i)
failing-IsQuiet i = ((refl, tt), tt)

early : (i : ℕ) → 0 < i → i < 3 → Fails (error_of i) (turns i) × IsQuiet 2 (turns i)
early i p l =
    let not_yet : eqb i 3 ≡ false = ground (arith, l) in
    rw not_yet (failing-Fails i, failing-IsQuiet i)

execute-succeeds_example : (execute_with_retry true 2 turns handler).0 ≡ ok 42
execute-succeeds_example =
    execute-succeeds 2 turns error_of 3 42 handler handler-IsSound (omega arith) (omega arith) early
      refl

execute-exhausts_example : (execute_with_retry true 2 failing handler).0 ≡ err (error_of 3)
execute-exhausts_example =
    execute-exhausts 2 failing error_of handler handler-IsSound (omega arith)
      (λ i p l. (failing-Fails i, failing-IsQuiet i))

-- A newer command for the same data point comes in the wait after the first attempt.
abbrev overtaken : ℕ → Turn ℕ ℕ
overtaken i = record (failing i) { during_wait = registers 5 ∷ registers 2 ∷ [] }

overtaken-IsOvertaken : IsOvertaken 2 (overtaken 1)
overtaken-IsOvertaken = record {
  before = (refl, tt);
  meantime = registers 5 ∷ [];
  elsewhere = (refl, tt);
  overtakes = refl;
}

execute-superseded_example :
    ((execute_with_retry true 2 overtaken handler).0 ≡ err superseded)
    × ((newer : ℕ) × (lookup 2 (execute_with_retry true 2 overtaken handler).1.active_retries
          ≡ some newer)
        × ((execute_with_retry true 2 overtaken handler).1.is_set newer ≡ false))
execute-superseded_example =
    execute-superseded 2 overtaken error_of 1 handler handler-IsSound (omega arith) (omega arith)
      (λ i p l. absurd (omega arith)) refl (failing-Fails 1).retryable overtaken-IsOvertaken

abbrev busy : CommandRetryHandler ℕ
busy = record handler { active_retries = (1, 0) ∷ (2, 1) ∷ (3, 2) ∷ []; next_event = 3 }

busy-Unique : Unique busy.active_retries
unfolding lookup
busy-Unique = (refl, (refl, (refl, tt)))
