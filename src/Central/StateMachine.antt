-- ===== src/Central/StateMachine.antt =====
-- aiohomematic/central/state_machine.py: the class CentralStateMachine.
--
-- `transition_to` returns the machine and the published events, or the error that it raises. The
-- time is an argument; `degraded_interfaces=None` is the empty list. Logging is left out.
pub mod Laws
pub mod History
mod Tests
use aiohomematic.Prelude.{
  ℕ, ◌+◌, ◌-◌, String, Bool, true, false, ◌&&◌, not, Option, none, some, List, [], ◌∷◌, ◌++◌, ltb,
  if◌then◌else◌, Result, ok, err,
}
use aiohomematic.Prelude.Lists.{length, drop}
use aiohomematic.Prelude.Dict.{contains, ◌==◌, string_eq}
use aiohomematic.Const.{
  CentralState, CentralState-eq, starting, initializing, running, degraded, recovering, failed,
  stopped, FailureReason,
}

-- `VALID_CENTRAL_TRANSITIONS`
abbrev pub valid_transitions : CentralState → List CentralState
valid_transitions starting = initializing ∷ stopped ∷ []
valid_transitions initializing = running ∷ degraded ∷ failed ∷ stopped ∷ []
valid_transitions running = degraded ∷ recovering ∷ stopped ∷ []
valid_transitions degraded = running ∷ recovering ∷ failed ∷ stopped ∷ []
valid_transitions recovering = running ∷ degraded ∷ failed ∷ stopped ∷ []
valid_transitions failed = recovering ∷ stopped ∷ []
valid_transitions stopped = []

-- `InvalidCentralStateTransitionError`
pub record InvalidCentralStateTransitionError : Type 0 where
  pub current : CentralState
  pub target : CentralState
  pub central_name : String

abbrev pub Interfaces : Type 0
Interfaces = List (String × FailureReason)

-- An entry of the history: time, old state, new state, reason.
pub record Entry : Type 0 where
  pub at : ℕ
  pub old : CentralState
  pub new : CentralState
  pub reason : String

-- `SystemStatusChangedEvent` and `CentralStateChangedEvent`
pub data Event : Type 0 where
  system_status :
      ℕ → CentralState → Option FailureReason → Option String → Option Interfaces → Event
  central_state : ℕ → String → CentralState → CentralState → Option String → Event

pub record CentralStateMachine : Type 0 where
  pub central_name : String
  pub has_event_bus : Bool
  pub state : CentralState
  pub failure_reason : FailureReason
  pub failure_message : String
  pub failure_interface_id : Option String
  pub degraded_interfaces : Interfaces
  pub last_state_change : ℕ
  pub state_history : List Entry

-- `__init__`
unfoldable pub init : String → Bool → ℕ → CentralStateMachine
init name bus now = record {
  central_name = name;
  has_event_bus = bus;
  state = starting;
  failure_reason = FailureReason.none;
  failure_message = "";
  failure_interface_id = none;
  degraded_interfaces = [];
  last_state_change = now;
  state_history = [];
}

unfoldable pub is_operational : CentralStateMachine → Bool
unfolding contains
is_operational m = contains m.state (running ∷ degraded ∷ [])

unfoldable pub can_transition_to : CentralState → CentralStateMachine → Bool
unfolding contains
can_transition_to target m = contains target (valid_transitions m.state)

unfoldable pub set_event_bus : CentralStateMachine → CentralStateMachine
set_event_bus m = record m { has_event_bus = true }

-- The keyword arguments of `transition_to` but the target, and the time.
pub record Request : Type 0 where
  pub reason : String
  pub force : Bool
  pub failure_reason : FailureReason
  pub failure_interface_id : Option String
  pub degraded_interfaces : Interfaces
  pub now : ℕ

-- The failure information that `transition_to` keeps, sets or clears.
track_failure : CentralState → Request → CentralStateMachine → CentralStateMachine
track_failure failed r m = record m {
  failure_reason = r.failure_reason;
  failure_message = r.reason;
  failure_interface_id = r.failure_interface_id;
  degraded_interfaces = [];
}
track_failure degraded r m = record m { degraded_interfaces = r.degraded_interfaces }
track_failure running r m = record m {
  failure_reason = FailureReason.none;
  failure_message = "";
  failure_interface_id = none;
  degraded_interfaces = [];
}
track_failure _ r m = m

-- The last 100 entries, `history[-100:]` where there are more.
unfoldable pub keep_last : List Entry → List Entry
keep_last es = if ltb 100 (length es) then drop (length es - 100) es else es

record_history : Entry → CentralStateMachine → CentralStateMachine
unfolding keep_last
record_history e m = record m { state_history = keep_last (m.state_history ++ e ∷ []) }

-- `x if new_state == s else None`
abbrev only_in {ℓ} : {A : Type ℓ} → Bool → A → Option A
only_in true a = some a
only_in false a = none

-- `reason or None`
abbrev or_none : String → Option String
or_none reason = if reason == "" then none else some reason

-- `_publish_state_change_event`, of the machine after the change
publish_state_change_event : CentralState → CentralState → String → CentralStateMachine → List Event
publish_state_change_event old new reason m =
    if m.has_event_bus
    then system_status m.last_state_change new (only_in (new == failed) m.failure_reason)
        (if new == failed then m.failure_interface_id else none)
        (only_in (new == degraded) m.degraded_interfaces)
      ∷ central_state m.last_state_change m.central_name old new (or_none reason)
      ∷ []
    else []

-- the machine after an admitted transition
enter : CentralState → Request → CentralStateMachine → CentralStateMachine
unfolding track_failure record_history
enter target r m =
    record_history (record { at = r.now; old = m.state; new = target; reason = r.reason })
      (track_failure target r (record m { state = target; last_state_change = r.now }))

unfoldable pub transition_to :
    CentralState
    → Request
    → CentralStateMachine
    → Result InvalidCentralStateTransitionError (CentralStateMachine × List Event)
unfolding can_transition_to enter publish_state_change_event
transition_to target r m =
    if not r.force && not (can_transition_to target m)
    then err (record { current = m.state; target = target; central_name = m.central_name })
    else ok
        (enter target r m, publish_state_change_event m.state target r.reason (enter target r m))

-- An attempt, and a history of them. One that raises leaves the machine as it is.
unfoldable pub attempt :
    CentralState × Request → CentralStateMachine → CentralStateMachine × List Event
unfolding transition_to
attempt (target, r) m = elim (transition_to target r m) [ ok a ↦ a | err e ↦ (m, []) ]

unfoldable pub run :
    List (CentralState × Request) → CentralStateMachine → CentralStateMachine × List Event
run [] m = (m, [])
run (a ∷ as') m = let (m', out) = attempt a m in let (m'', rest) = run as' m' in (m'', out ++ rest)
