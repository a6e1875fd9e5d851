-- ===== src/Central/CentralUnit/Tests.antt =====
-- Runs of the central's verdict, and its theorems at concrete inputs.
use aiohomematic.Prelude.{◌<◌, ◌≡◌, refl, Bool, true, false, none, List, [], ◌∷◌, ok}
use aiohomematic.Prelude.Dict.{string_eq}
use aiohomematic.Const.{
  ClientState, connected, failed, disconnected, CentralState, running, initializing, FailureReason,
}
use aiohomematic.Client.StateMachine.{ClientStateMachine}
use aiohomematic.Central.StateMachine.{CentralStateMachine, transition_to}
use aiohomematic.Central.CentralUnit.{Context, evaluate_central_state, any_connected, all_connected}
use aiohomematic.Central.CentralUnit.Laws.{
  connected_clients, verdict, Ends, evaluate-start, evaluate-running,
}

abbrev client : ClientState → ClientStateMachine
client s = record {
  interface_id = "HmIP-RF";
  has_event_bus = true;
  state = s;
  failure_reason = FailureReason.none;
  failure_message = "";
}

abbrev machine : CentralState → CentralStateMachine
machine s = record {
  central_name = "ccu";
  has_event_bus = true;
  state = s;
  failure_reason = FailureReason.none;
  failure_message = "";
  failure_interface_id = none;
  degraded_interfaces = [];
  last_state_change = 0;
  state_history = [];
}

abbrev context : Bool → Context
context from_start = record {
  trigger = "test";
  from_start = from_start;
  in_recovery = false;
  last_failure_reason = FailureReason.auth;
  last_failure_interface_id = none;
  now = 1;
}

abbrev some_lost : List ClientStateMachine
some_lost = client connected ∷ record (client failed) { interface_id = "BidCos-RF" } ∷ []

evaluate-start_example :
    Ends
      (verdict some_lost)
      (evaluate_central_state (context true) some_lost (machine initializing))
evaluate-start_example = evaluate-start (context true) some_lost (machine initializing) refl refl

abbrev all_lost : List ClientStateMachine
all_lost = client disconnected ∷ []

evaluate-running_example :
    (0 < connected_clients all_lost
      → Ends (verdict all_lost) (evaluate_central_state (context false) all_lost (machine running)))
    × (connected_clients all_lost ≡ 0
        → evaluate_central_state (context false) all_lost (machine running)
          ≡ ok (machine running, []))
evaluate-running_example =
    evaluate-running (context false) all_lost (machine running) refl refl refl

-- one interface, and it is lost: the central stays RUNNING
blind : evaluate_central_state (context false) all_lost (machine running) ≡ ok (machine running, [])
unfolding evaluate_central_state transition_to any_connected all_connected
blind = refl
