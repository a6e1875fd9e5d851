-- ===== src/Central/StateMachine/Tests.antt =====
-- Runs of the central's state machine, and its theorems at concrete inputs.
use aiohomematic.Prelude.{
  ◌++◌, if◌then◌else◌, ltb, ◌∷◌, ℕ, ◌≡◌, refl, true, false, none, some, List, [], ◌∷◌,
}
use aiohomematic.Prelude.Lists.{length}
use aiohomematic.Const.{
  CentralState, starting, initializing, running, degraded, recovering, failed, stopped,
  FailureReason,
}
use aiohomematic.Central.StateMachine.{
  Entry, CentralStateMachine, Request, init, run, attempt, keep_last,
}
use aiohomematic.Central.StateMachine.History.{log, Linked, run-history}

abbrev request : ℕ → Request
request now = record {
  reason = "test";
  force = false;
  failure_reason = FailureReason.network;
  failure_interface_id = some "HmIP-RF";
  degraded_interfaces = ("HmIP-RF", FailureReason.timeout) ∷ [];
  now = now;
}

abbrev history : List (CentralState × Request)
history =
    (initializing, request 1)
    ∷ (degraded, request 2)
    ∷ (failed, request 3)
    ∷ (running, request 4)
    ∷ (recovering, request 5)
    ∷ (running, request 6)
    ∷ []

refuses_one :
    ((run history (init "ccu" true 0)).0.state ≡ running)
    × (length (run history (init "ccu" true 0)).0.state_history ≡ 5)
    × (length (run history (init "ccu" true 0)).1 ≡ 10)
unfolding run attempt init keep_last
refuses_one = (refl, refl, refl)

abbrev halted : CentralStateMachine
halted = record {
  central_name = "ccu";
  has_event_bus = true;
  state = stopped;
  failure_reason = FailureReason.none;
  failure_message = "";
  failure_interface_id = none;
  degraded_interfaces = [];
  last_state_change = 0;
  state_history = [];
}

run-history_example :
    let m = init "ccu" true 0 in
    let kept = (run history m).0.state_history in
    ((older : List Entry) × (log history m ≡ older ++ kept))
    × (length kept ≡ (if ltb 100 (length (log history m)) then 100 else length (log history m)))
    × Linked starting (log history m) (run history m).0.state
run-history_example = run-history "ccu" true 0 history
