-- ===== src/Central/ConnectionRecovery/Parts.antt =====
-- Reading and writing the parts of the coordinator.
use aiohomematic.Prelude.{
  List, Bool, Option, ◌≡◌, refl, sym, ap, ◌∙◌, String, true, some, arith, is_some, option_elim,
  if◌then◌else◌,
}
use aiohomematic.Prelude.Dict.{Dict, lookup, lookup-insert, string_eq, ◌==◌, has_key}
use aiohomematic.Const.{CentralState}
use aiohomematic.Central.StateMachine.{Request, CentralStateMachine}
use aiohomematic.Central.ConnectionRecovery.State.{InterfaceRecoveryState, RecoveryStage-eq}
use aiohomematic.Central.ConnectionRecovery.{
  ConnectionRecoveryCoordinator, Out, Effect, emit, with_state, put, transition_if,
}
use aiohomematic.Central.ConnectionRecovery.Retries.{or_new, state_of, update}

-- The fields, as functions.
abbrev pub active_of : ConnectionRecoveryCoordinator → List String
active_of c = c.active_recoveries

abbrev pub heartbeat_of : ConnectionRecoveryCoordinator → Bool
heartbeat_of c = c.heartbeat_running

abbrev pub flag_of : ConnectionRecoveryCoordinator → Bool
flag_of c = c.in_failed_state

abbrev pub states_of : ConnectionRecoveryCoordinator → Dict String InterfaceRecoveryState
states_of c = c.recovery_states

abbrev pub shutdown_of : ConnectionRecoveryCoordinator → Bool
shutdown_of c = c.shutdown

abbrev pub machine_of : ConnectionRecoveryCoordinator → Option CentralStateMachine
machine_of c = c.state_machine

pub eq_refl : (k : String) → (k == k) ≡ true
eq_refl k = ground (arith, string_eq.equal_iff k k)

pub lookup-put :
    (iid : String) (s : InterfaceRecoveryState) (c : ConnectionRecoveryCoordinator)
    → lookup iid (put iid s c).recovery_states ≡ some s
lookup-put iid s c =
    lookup-insert iid iid s c.recovery_states
    ∙ ap (λ b. if b then some s else lookup iid c.recovery_states) (eq_refl iid)

pub state_of-put :
    (iid : String) (s : InterfaceRecoveryState) (c : ConnectionRecoveryCoordinator)
    → state_of iid (put iid s c) ≡ s
state_of-put iid s c = ap (or_new iid) (lookup-put iid s c)

-- The interface has a state.
abbrev pub Present : String → ConnectionRecoveryCoordinator → Type 0
Present iid c = has_key iid c.recovery_states ≡ true

pub put-Present :
    (iid : String) (s : InterfaceRecoveryState) (c : ConnectionRecoveryCoordinator)
    → Present iid (put iid s c)
put-Present iid s c = ap is_some (lookup-put iid s c)

pub put-Present_other :
    (iid j : String) (s : InterfaceRecoveryState) (c : ConnectionRecoveryCoordinator)
    → Present j c
    → Present j (put iid s c)
put-Present_other iid j s c p = ground (arith, p, lookup-insert iid j s c.recovery_states)

pub state_of-update :
    (iid : String) (f : InterfaceRecoveryState → InterfaceRecoveryState)
    → (c : ConnectionRecoveryCoordinator) → Present iid c
    → state_of iid (update iid f c).0 ≡ f (state_of iid c)
state_of-update iid f c p =
    option_elim (λ (r : Out). state_of iid r.0 ≡ f (state_of iid c)) (lookup iid c.recovery_states)
      (λ e. absurd (ground (arith, p, e)))
      (λ s e. state_of-put iid (f s) c ∙ ap f (sym (ap (or_new iid) e)))

pub update-Present :
    (iid : String) (f : InterfaceRecoveryState → InterfaceRecoveryState)
    → (c : ConnectionRecoveryCoordinator) → Present iid c
    → Present iid (update iid f c).0
update-Present iid f c p =
    option_elim (λ (r : Out). Present iid r.0) (lookup iid c.recovery_states) (λ _. p)
      (λ s _. put-Present iid (f s) c)

pub with_state-emit :
    (iid : String) (g : InterfaceRecoveryState → Effect) (c : ConnectionRecoveryCoordinator)
    → (with_state iid (λ s. emit (g s)) c).0 ≡ c
with_state-emit iid g c =
    option_elim (λ (r : Out). r.0 ≡ c) (lookup iid c.recovery_states) (λ _. refl) (λ s _. refl)

pub transition_if-states :
    (target : CentralState) (q : Request) (c : ConnectionRecoveryCoordinator)
    → (transition_if target q c).0.recovery_states ≡ c.recovery_states
unfolding transition_if
transition_if-states target q c = ground arith

-- The coordinator with other recovery states.
abbrev pub with_states :
    Dict String InterfaceRecoveryState
    → ConnectionRecoveryCoordinator
    → ConnectionRecoveryCoordinator
with_states d c = record c { recovery_states = d }

pub update-frame :
    (iid : String) (f : InterfaceRecoveryState → InterfaceRecoveryState)
    → (c : ConnectionRecoveryCoordinator)
    → (update iid f c).0 ≡ with_states (update iid f c).0.recovery_states c
update-frame iid f c =
    option_elim (λ (r : Out). r.0 ≡ with_states r.0.recovery_states c)
      (lookup iid c.recovery_states) (λ _. refl) (λ s _. refl)
