-- ===== src/Client/StateMachine/Tests.antt =====
-- Runs of the client's state machine, and its theorems at concrete inputs.
use aiohomematic.Prelude.{◌≡◌, refl, true, List, [], ◌∷◌}
use aiohomematic.Const.{
  created, initializing, connected, reconnecting, stopping, stopped, failed, FailureReason,
}
use aiohomematic.Client.StateMachine.{ClientStateMachine, init, Attempt, attempt, run}
use aiohomematic.Client.StateMachine.Paths.{to}

abbrev history : List Attempt
history =
    to initializing
    ∷ to failed
    ∷ to reconnecting
    ∷ to stopping
    ∷ to connected
    ∷ to stopping
    ∷ to stopped
    ∷ []

stops : (run history (init "BidCos-RF" true)).0.state ≡ stopped
unfolding run attempt init
stops = refl

abbrev machine : ClientStateMachine
machine = record {
  interface_id = "BidCos-RF";
  has_event_bus = true;
  state = created;
  failure_reason = FailureReason.none;
  failure_message = "";
}
