-- ===== src/Central/StateMachine/Laws.antt =====
-- What the central's state machine remembers of failures.
use aiohomematic.Prelude.{ℕ, ◌≡◌, refl, ◌≢◌, Bool, true, false, none, List, [], ◌∷◌, arith, String}
use aiohomematic.Prelude.Lists.{All}
use aiohomematic.Const.{CentralState, running, failed, stopped, FailureReason}
use aiohomematic.Central.StateMachine.{
  CentralStateMachine, Request, init, attempt, run, can_transition_to,
}

-- What the states RUNNING and FAILED say of the failure information.
pub record HasTrackedFailure (m : CentralStateMachine) : Type 0 where
  pub running_reason : m.state ≡ running → m.failure_reason ≡ FailureReason.none
  pub running_message : m.state ≡ running → m.failure_message ≡ ""
  pub running_interface : m.state ≡ running → m.failure_interface_id ≡ none
  pub running_interfaces : m.state ≡ running → m.degraded_interfaces ≡ []
  pub failed_interfaces : m.state ≡ failed → m.degraded_interfaces ≡ []

attempt-HasTrackedFailure :
    (a : CentralState × Request) (m : CentralStateMachine)
    → HasTrackedFailure m
    → HasTrackedFailure (attempt a m).0
unfolding attempt
attempt-HasTrackedFailure (target, r) m h = ground arith

run-HasTrackedFailure_from :
    (as' : List (CentralState × Request)) (m : CentralStateMachine)
    → HasTrackedFailure m
    → HasTrackedFailure (run as' m).0
unfolding run
run-HasTrackedFailure_from [] m h = h
run-HasTrackedFailure_from (a ∷ as') m h =
    run-HasTrackedFailure_from as' (attempt a m).0 (attempt-HasTrackedFailure a m h)

-- After any history of transitions of a new machine, forced ones and refused ones included: RUNNING
-- remembers no failure and no degraded interface, and FAILED no degraded interface.
pub run-HasTrackedFailure :
    (name : String) (bus : Bool) (now : ℕ) (as' : List (CentralState × Request))
    → HasTrackedFailure (run as' (init name bus now)).0
unfolding init
run-HasTrackedFailure name bus now as' = run-HasTrackedFailure_from as' _ (ground arith)

attempt_stopped :
    (a : CentralState × Request) (m : CentralStateMachine)
    → m.state ≡ stopped
    → a.1.force ≡ false
    → attempt a m ≡ (m, [])
unfolding attempt
attempt_stopped (target, r) m e f = ground arith

stopped_stays :
    (as' : List (CentralState × Request)) (m : CentralStateMachine)
    → All (λ a. a.1.force ≡ false) as'
    → m.state ≡ stopped
    → run as' m ≡ (m, [])
unfolding run
stopped_stays [] m u e = refl
stopped_stays (a ∷ as') m u e = ground (arith, attempt_stopped a m e u.0, stopped_stays as' m u.1 e)

-- STOPPED is final: no history of unforced transitions changes a stopped machine or publishes
-- anything; and an unforced transition to STOPPED is admitted from every other state.
pub run-stopped :
    (as' : List (CentralState × Request)) (m : CentralStateMachine)
    → All (λ a. a.1.force ≡ false) as'
    → (m.state ≡ stopped → run as' m ≡ (m, []))
      × (m.state ≢ stopped → can_transition_to stopped m ≡ true)
unfolding can_transition_to
run-stopped as' m u = (λ e. stopped_stays as' m u e, λ n. ground arith)
