-- ===== src/Client/StateMachine.antt =====
-- aiohomematic/client/state_machine.py: the class ClientStateMachine.
--
-- `transition_to` returns the machine and the published events, or the error that it raises. The
-- timestamps of events and the log lines are left out.
pub mod Laws
pub mod Paths
mod Tests
use aiohomematic.Prelude.{
  String, Bool, true, false, ◌&&◌, ◌||◌, not, Option, none, some, List, [], ◌∷◌, ◌++◌,
  if◌then◌else◌, Result, ok, err,
}
use aiohomematic.Prelude.Dict.{contains, ◌==◌, string_eq}
use aiohomematic.Const.{
  ClientState, ClientState-eq, created, initializing, initialized, connecting, connected,
  disconnected, reconnecting, stopping, stopped, failed, FailureReason,
}

-- `_VALID_TRANSITIONS`
abbrev pub valid_transitions : ClientState → List ClientState
valid_transitions created = initializing ∷ []
valid_transitions initializing = initialized ∷ failed ∷ []
valid_transitions initialized = connecting ∷ disconnected ∷ []
valid_transitions connecting = connected ∷ failed ∷ []
valid_transitions connected = disconnected ∷ reconnecting ∷ stopping ∷ []
valid_transitions disconnected = connecting ∷ disconnected ∷ reconnecting ∷ stopping ∷ []
valid_transitions reconnecting = connected ∷ disconnected ∷ failed ∷ connecting ∷ []
valid_transitions stopping = stopped ∷ []
valid_transitions stopped = []
valid_transitions failed = initializing ∷ connecting ∷ reconnecting ∷ disconnected ∷ []

-- `InvalidStateTransitionError`
pub record InvalidStateTransitionError : Type 0 where
  pub current : ClientState
  pub target : ClientState
  pub interface_id : String

-- `ClientStateChangedEvent`
pub record ClientStateChangedEvent : Type 0 where
  pub interface_id : String
  pub old_state : ClientState
  pub new_state : ClientState
  pub trigger : Option String

pub record ClientStateMachine : Type 0 where
  pub interface_id : String
  pub has_event_bus : Bool
  pub state : ClientState
  pub failure_reason : FailureReason
  pub failure_message : String

-- `__init__`
unfoldable pub init : String → Bool → ClientStateMachine
init interface_id bus = record {
  interface_id = interface_id;
  has_event_bus = bus;
  state = created;
  failure_reason = FailureReason.none;
  failure_message = "";
}

unfoldable pub can_transition_to : ClientState → ClientStateMachine → Bool
unfolding contains
can_transition_to target m = contains target (valid_transitions m.state)

unfoldable pub can_reconnect : ClientStateMachine → Bool
unfolding contains
can_reconnect m = contains reconnecting (valid_transitions m.state)

unfoldable pub is_available : ClientStateMachine → Bool
unfolding contains
is_available m = contains m.state (connected ∷ reconnecting ∷ [])

unfoldable pub is_connected : ClientStateMachine → Bool
is_connected m = m.state == connected

unfoldable pub is_failed : ClientStateMachine → Bool
is_failed m = m.state == failed

unfoldable pub is_stopped : ClientStateMachine → Bool
is_stopped m = m.state == stopped

unfoldable pub reset : ClientStateMachine → ClientStateMachine
reset m = record m { state = created; failure_reason = FailureReason.none; failure_message = "" }

-- `reason or None`
abbrev pub or_none : String → Option String
or_none reason = if reason == "" then none else some reason

-- The failure information that `transition_to` keeps, sets or clears.
track_failure : ClientState → String → FailureReason → ClientStateMachine → ClientStateMachine
track_failure failed reason failure_reason m = record m {
  failure_reason = failure_reason;
  failure_message = reason;
}
track_failure connected reason failure_reason m = record m {
  failure_reason = FailureReason.none;
  failure_message = "";
}
track_failure initialized reason failure_reason m = record m {
  failure_reason = FailureReason.none;
  failure_message = "";
}
track_failure _ reason failure_reason m = m

-- `_emit_state_change_event`
emit_state_change_event :
    ClientState → ClientState → Option String → ClientStateMachine → List ClientStateChangedEvent
emit_state_change_event old new trigger m =
    if m.has_event_bus
    then record {
      interface_id = m.interface_id;
      old_state = old;
      new_state = new;
      trigger = trigger;
    }
      ∷ []
    else []

unfoldable pub transition_to :
    ClientState
    → String
    → Bool
    → FailureReason
    → ClientStateMachine
    → Result InvalidStateTransitionError (ClientStateMachine × List ClientStateChangedEvent)
unfolding can_transition_to track_failure emit_state_change_event
transition_to target reason force failure_reason m =
    if not force && not (can_transition_to target m)
    then err (record { current = m.state; target = target; interface_id = m.interface_id })
    else ok (
      track_failure target reason failure_reason (record m { state = target }),
      emit_state_change_event m.state target (or_none reason) m,
    )

-- An attempt of a client: a target with its reason, unforced.
pub record Attempt : Type 0 where
  pub target : ClientState
  pub reason : String
  pub failure_reason : FailureReason

-- A history of attempts. One that raises leaves the machine as it is.
unfoldable pub attempt :
    Attempt → ClientStateMachine → ClientStateMachine × List ClientStateChangedEvent
unfolding transition_to
attempt a m = elim (transition_to a.target a.reason false a.failure_reason m) [
  | ok r ↦ r
  | err e ↦ (m, [])
]

unfoldable pub run :
    List Attempt → ClientStateMachine → ClientStateMachine × List ClientStateChangedEvent
run [] m = (m, [])
run (a ∷ as') m = let (m', out) = attempt a m in let (m'', rest) = run as' m' in (m'', out ++ rest)
