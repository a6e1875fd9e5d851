-- ===== src/Client/StateMachine/Laws.antt =====
-- What the client's state machine keeps over a history of attempts.
use aiohomematic.Prelude.{
  ◌≡◌, refl, ◌≢◌, ◌⊎◌, String, Bool, true, List, [], ◌∷◌, ◌++◌, arith, sym, ◌∙◌, inl, inr,
}
use aiohomematic.Prelude.Dict.{contains}
use aiohomematic.Const.{
  ClientState, ClientState-eq, created, initialized, connected, disconnected, stopping, stopped,
  FailureReason,
}
use aiohomematic.Client.StateMachine.{
  ClientStateMachine, ClientStateChangedEvent, init, Attempt, attempt, run, valid_transitions,
}

-- The states in which no failure is remembered.
abbrev pub IsCleared : ClientState → Type 0
IsCleared created = Unit
IsCleared initialized = Unit
IsCleared connected = Unit
IsCleared _ = ⊥

pub record HasFreshFailure (m : ClientStateMachine) : Type 0 where
  pub no_reason : IsCleared m.state → m.failure_reason ≡ FailureReason.none
  pub no_message : IsCleared m.state → m.failure_message ≡ ""

attempt-HasFreshFailure :
    (a : Attempt) (m : ClientStateMachine) → HasFreshFailure m → HasFreshFailure (attempt a m).0
unfolding attempt
attempt-HasFreshFailure a m h = ground arith

attempt_stopped : (a : Attempt) (m : ClientStateMachine) → m.state ≡ stopped → attempt a m ≡ (m, [])
unfolding attempt
attempt_stopped a m e = ground arith

attempt_enters_stopped :
    (a : Attempt) (m : ClientStateMachine)
    → (attempt a m).0.state ≡ stopped
    → (m.state ≡ stopping) ⊎ (m.state ≡ stopped)
unfolding attempt
attempt_enters_stopped a m e = ground arith

attempt_enters_stopping :
    (a : Attempt) (m : ClientStateMachine)
    → (attempt a m).0.state ≡ stopping
    → (m.state ≡ stopping) ⊎ (m.state ≡ connected) ⊎ (m.state ≡ disconnected)
unfolding attempt
attempt_enters_stopping a m e = ground arith

run-HasFreshFailure_from :
    (as' : List Attempt) (m : ClientStateMachine)
    → HasFreshFailure m
    → HasFreshFailure (run as' m).0
unfolding run
run-HasFreshFailure_from [] m h = h
run-HasFreshFailure_from (a ∷ as') m h =
    run-HasFreshFailure_from as' (attempt a m).0 (attempt-HasFreshFailure a m h)

-- After any history of unforced transitions of a new machine, whether they are admitted or refused,
-- the states CREATED, INITIALIZED and CONNECTED remember neither a failure reason nor a message.
pub run-HasFreshFailure :
    (iid : String) (bus : Bool) (as' : List Attempt) → HasFreshFailure (run as' (init iid bus)).0
unfolding init
run-HasFreshFailure iid bus as' =
    run-HasFreshFailure_from as' _ (record { no_reason = λ _. refl; no_message = λ _. refl })

-- STOPPED is final: every history of unforced transitions leaves a stopped machine as it is and
-- publishes nothing.
pub run_stopped :
    (as' : List Attempt) (m : ClientStateMachine) → m.state ≡ stopped → run as' m ≡ (m, [])
unfolding run
run_stopped [] m e = refl
run_stopped (a ∷ as') m e = ground (arith, attempt_stopped a m e, run_stopped as' m e)

-- A history tries to enter the state at some point.
abbrev pub Tries : ClientState → List Attempt → Type 0
Tries s [] = ⊥
Tries s (a ∷ as') = (a.target ≡ s) ⊎ Tries s as'

attempt_into :
    (a : Attempt) (m : ClientStateMachine)
    → ((attempt a m).0.state ≡ m.state) ⊎ ((attempt a m).0.state ≡ a.target)
unfolding attempt
attempt_into a m = ground arith

run_enters :
    (s : ClientState) (as' : List Attempt) (m : ClientStateMachine)
    → m.state ≢ s
    → (run as' m).0.state ≡ s
    → Tries s as'
unfolding run
run_enters s [] m n e = absurd (n e)
run_enters s (a ∷ as') m n e = elim (attempt_into a m) [
  | inl same ↦ inr (run_enters s as' (attempt a m).0 (λ q. n (sym same ∙ q)) e)
  | inr moved ↦ ground (arith, run_enters s as' (attempt a m).0)
]

run_stops_by_stopping :
    (as' : List Attempt) (m : ClientStateMachine)
    → m.state ≢ stopped
    → m.state ≢ stopping
    → (run as' m).0.state ≡ stopped
    → Tries stopping as'
unfolding run
run_stops_by_stopping [] m n k e = absurd (n e)
run_stops_by_stopping (a ∷ as') m n k e =
    ground (
      arith,
      attempt_into a m,
      attempt_enters_stopped a m,
      run_stops_by_stopping as' (attempt a m).0,
    )

-- Every history of unforced transitions that leads from CREATED to STOPPED tries to enter STOPPING:
-- no client is stopped but by a graceful shutdown.
pub run-init-stopped :
    (iid : String) (bus : Bool) (as' : List Attempt)
    → (run as' (init iid bus)).0.state ≡ stopped
    → Tries stopping as'
unfolding init
run-init-stopped iid bus as' e = run_stops_by_stopping as' _ (λ q. cc) (λ q. cc) e

-- The events lead from the one state to the other without a gap, along the table of transitions.
abbrev pub Follows : ClientState → List ClientStateChangedEvent → ClientState → Type 0
Follows s [] t = s ≡ t
Follows s (e ∷ es) t =
    (e.old_state ≡ s)
    × (contains e.new_state (valid_transitions s) ≡ true)
    × Follows e.new_state es t

Follows-append :
    (es fs : List ClientStateChangedEvent) (s t u : ClientState)
    → Follows s es t
    → Follows t fs u
    → Follows s (es ++ fs) u
Follows-append [] fs s t u p q = rw p q
Follows-append (e ∷ es) fs s t u p q = (p.0, p.1, Follows-append es fs e.new_state t u p.2 q)

attempt-Follows :
    (a : Attempt) (m : ClientStateMachine)
    → m.has_event_bus ≡ true
    → Follows m.state (attempt a m).1 (attempt a m).0.state × ((attempt a m).0.has_event_bus ≡ true)
unfolding attempt contains
attempt-Follows a m e = ground arith

-- With an event bus, the events of any history of unforced transitions lead from the state before it
-- to the state after it: each begins where the one before it ended, and follows the table. A refused
-- transition publishes nothing.
pub run-Follows :
    (as' : List Attempt) (m : ClientStateMachine)
    → m.has_event_bus ≡ true
    → Follows m.state (run as' m).1 (run as' m).0.state
unfolding run
run-Follows [] m e = refl
run-Follows (a ∷ as') m e =
    let (first, bus) = attempt-Follows a m e in
    Follows-append (attempt a m).1 (run as' (attempt a m).0).1 m.state (attempt a m).0.state _ first
      (run-Follows as' (attempt a m).0 bus)
