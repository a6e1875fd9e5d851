-- ===== src/Central/ConnectionRecovery.antt =====
-- aiohomematic/central/coordinators/connection_recovery.py: the class ConnectionRecoveryCoordinator,
-- its state and the changes of it that its procedures share. The stages of a recovery, the retries,
-- the checks that the stages make and the event handlers are in the files below.
--
-- A method is an action: it returns the coordinator and the effects in their order, published
-- events, created tasks and sleeps. What the outside answers, and the clock, are arguments. While a
-- recovery awaits, other tasks of the event loop run: what they do to the coordinator is left out,
-- but for `stop` while a retry waits. The semaphore that two recoveries may hold at a time, the
-- subscriptions and logging are left out.
pub mod State
pub mod Stages
pub mod Retries
pub mod Backoff
pub mod Parts
pub mod Kept
pub mod Termination
pub mod Progress
pub mod Frames
pub mod Success
pub mod Failing
pub mod Exhaustion
pub mod Persistence
pub mod Handlers
pub mod Rounds
pub mod Heartbeat
pub mod Startup
pub mod Active
pub mod Stuck
pub mod Checks
mod Tests
use Prim.Native.String.{◌++◌ as append}
use aiohomematic.Prelude.{
  ℕ, ◌+◌, String, Bool, true, false, not, Option, none, some, List, [], ◌∷◌, ◌++◌, map,
  if◌then◌else◌,
}
use aiohomematic.Prelude.Dict.{Dict, lookup, insert, contains, erase, has_key, ◌==◌, string_eq}
use aiohomematic.Const.{CentralState, FailureReason}
use aiohomematic.Central.StateMachine.{
  CentralStateMachine, Event, Request, attempt, can_transition_to,
}
use aiohomematic.Central.ConnectionRecovery.State.{
  RecoveryStage, RecoveryStage-eq, InterfaceRecoveryState, new_state, transition_to_stage,
}

pub data Task : Type 0 where
  heartbeat_timer : Task
  recovery : String → Task
  heartbeat_recovery : List String → Task
  recovery_refresh : String → Task
  record_connection_lost_incident : String → Task
  record_connection_restored_incident : String → ℕ → List RecoveryStage → Bool → Task

pub data Effect : Type 0 where
  central : Event → Effect
  recovery_stage_changed : String → RecoveryStage → RecoveryStage → ℕ → Effect
  recovery_attempted : String → ℕ → RecoveryStage → Bool → Effect
  recovery_completed : String → ℕ → List RecoveryStage → Effect
  recovery_failed : String → ℕ → RecoveryStage → Effect
  connection_state : String → Bool → Effect
  heartbeat_timer_fired : List String → Effect
  clear_json_rpc_session : String → Effect
  create_task : Task → Effect
  sleep : ℕ → Effect

pub record ConnectionRecoveryCoordinator : Type 0 where
  pub state_machine : Option CentralStateMachine
  pub has_incident_recorder : Bool
  pub recovery_states : Dict String InterfaceRecoveryState
  pub active_recoveries : List String
  pub in_failed_state : Bool
  pub shutdown : Bool
  -- `_heartbeat_task` is there and not done
  pub heartbeat_running : Bool

-- `__init__`
unfoldable pub init : Option CentralStateMachine → Bool → ConnectionRecoveryCoordinator
init m recorder = record {
  state_machine = m;
  has_incident_recorder = recorder;
  recovery_states = [];
  active_recoveries = [];
  in_failed_state = false;
  shutdown = false;
  heartbeat_running = false;
}

abbrev pub Out : Type 0
Out = ConnectionRecoveryCoordinator × List Effect

abbrev pub Action : Type 0
Action = ConnectionRecoveryCoordinator → Out

-- What an action does behind earlier effects.
abbrev pub follow : Out → Action → Out
follow r g = ((g r.0).0, r.1 ++ (g r.0).1)

infixl 5 ◌>>◌
abbrev pub ◌>>◌ : Action → Action → Action
(f >> g) c = follow (f c) g

abbrev pub skip : Action
skip c = (c, [])

abbrev pub modify : (ConnectionRecoveryCoordinator → ConnectionRecoveryCoordinator) → Action
modify f c = (f c, [])

abbrev pub emit : Effect → Action
emit e c = (c, e ∷ [])

-- `if state := self._recovery_states.get(iid)`
abbrev pub with_state : String → (InterfaceRecoveryState → Action) → Action
with_state iid act c = elim (lookup iid c.recovery_states) [ none ↦ skip c | some s ↦ act s c ]

-- The state objects are shared: a method of one changes what the dictionary holds.
abbrev pub put :
    String → InterfaceRecoveryState → ConnectionRecoveryCoordinator → ConnectionRecoveryCoordinator
put iid s c = record c { recovery_states = insert iid s c.recovery_states }

unfoldable pub in_recovery : ConnectionRecoveryCoordinator → Bool
in_recovery c = elim c.active_recoveries [ [] ↦ false | _ ∷ _ ↦ true ]

unfoldable pub get_recovery_state :
    String → ConnectionRecoveryCoordinator → Option InterfaceRecoveryState
unfolding lookup
get_recovery_state iid c = lookup iid c.recovery_states

unfoldable pub set_state_machine : CentralStateMachine → Action
set_state_machine m = modify (λ c. record c { state_machine = some m })

unfoldable pub stop : Action
stop = modify (λ c. record c { shutdown = true; heartbeat_running = false })

-- The transitions of the central that the coordinator asks for: refused ones are not tried.
unfoldable pub transition_if : CentralState → Request → Action
unfolding can_transition_to attempt
transition_if target r c = elim c.state_machine [
  | none ↦ skip c
  | some m ↦
      if can_transition_to target m
      then (let a = attempt (target, r) m in
          (record c { state_machine = some a.0 }, map central a.1))
      else skip c
]

abbrev pub request : String → ℕ → Request
request reason now = record {
  reason = reason;
  force = false;
  failure_reason = FailureReason.none;
  failure_interface_id = none;
  degraded_interfaces = [];
  now = now;
}

-- The reason names the number of interfaces that still fail, in a text that is left out.
unfoldable pub transition_to_degraded : ℕ → Action
unfolding transition_if
transition_to_degraded now = transition_if CentralState.degraded (request "Partial recovery" now)

unfoldable pub transition_to_failed : String → ℕ → Action
unfolding transition_if
transition_to_failed iid now =
    transition_if CentralState.failed
      (record (request (append "Max retries reached for " iid) now) {
        failure_reason = FailureReason.unknown;
        failure_interface_id = some iid;
      })

unfoldable pub transition_to_recovering : ℕ → Action
unfolding transition_if
transition_to_recovering now =
    transition_if CentralState.recovering (request "Connection recovery in progress" now)

unfoldable pub transition_to_running : ℕ → Action
unfolding transition_if
transition_to_running now =
    transition_if CentralState.running (request "All interfaces recovered successfully" now)

unfoldable pub start_heartbeat_timer : Action
start_heartbeat_timer c =
    if c.heartbeat_running
    then skip c
    else (record c { heartbeat_running = true }, create_task heartbeat_timer ∷ [])

unfoldable pub stop_heartbeat_timer : Action
stop_heartbeat_timer = modify (λ c. record c { heartbeat_running = false })

unfoldable pub handle_max_retries_reached : String → ℕ → Action
unfolding transition_to_failed start_heartbeat_timer lookup
handle_max_retries_reached iid now =
    modify (λ c. record c { in_failed_state = true })
    >> transition_to_failed iid now
    >> with_state iid (λ s. emit (recovery_failed iid s.attempt_count s.current_stage))
    >> start_heartbeat_timer

unfoldable pub transition_after_recovery : ℕ → Action
unfolding transition_to_running stop_heartbeat_timer in_recovery
transition_after_recovery now c = elim c.state_machine [
  | none ↦ skip c
  | some _ ↦
      if in_recovery c
      then skip c
      else (transition_to_running now
            >> modify (λ c. record c { in_failed_state = false })
            >> stop_heartbeat_timer)
          c
]

unfoldable pub transition_stage : String → RecoveryStage → Action
unfolding transition_to_stage lookup insert
transition_stage iid new = with_state iid (λ s.
    if s.current_stage == new
    then skip
    else modify (put iid (transition_to_stage new s))
      >> emit (recovery_stage_changed iid s.current_stage new (s.attempt_count + 1)))
