-- ===== src/Central/ConnectionRecovery/Frames.antt =====
-- What the parts of a recovery leave alone of the coordinator, and what they make of its machine.
use aiohomematic.Prelude.{
  ℕ, ◌≡◌, refl, sym, ap, ◌∙◌, String, Bool, true, false, Option, none, some, List, [], ◌∷◌, ◌++◌,
  arith, if_elim, Option-cases, inl, inr,
}
use aiohomematic.Prelude.Dict.{
  string_eq, contains, erase, Distinct, contains-erase_self, Distinct-append_one,
}
use aiohomematic.Const.{CentralState, CentralState-eq, running, degraded, recovering, failed}
use aiohomematic.Central.StateMachine.{CentralStateMachine, Request, attempt, can_transition_to}
use aiohomematic.Central.ConnectionRecovery.State.{InterfaceRecoveryState}
use aiohomematic.Central.ConnectionRecovery.State as State
use aiohomematic.Central.ConnectionRecovery.{
  ConnectionRecoveryCoordinator, transition_if, transition_to_recovering, request,
}
use aiohomematic.Central.ConnectionRecovery.Retries.{update, add_active, begin}
use aiohomematic.Central.ConnectionRecovery.Parts.{
  with_states, update-frame, active_of, heartbeat_of, flag_of, shutdown_of, machine_of,
}

-- The machine is there and its state admits a recovery.
abbrev pub is_recoverable : CentralState → Bool
is_recoverable s = contains s (running ∷ degraded ∷ recovering ∷ failed ∷ [])

-- The state of the machine, if there is one.
abbrev pub central_state : ConnectionRecoveryCoordinator → Option CentralState
central_state c = elim c.state_machine [ none ↦ none | some m ↦ some m.state ]

abbrev pub Recoverable : ConnectionRecoveryCoordinator → Type 0
Recoverable c =
    (m : CentralStateMachine) × (c.state_machine ≡ some m) × (is_recoverable m.state ≡ true)

-- The coordinator with another machine.
abbrev pub with_machine :
    Option CentralStateMachine → ConnectionRecoveryCoordinator → ConnectionRecoveryCoordinator
with_machine m c = record c { state_machine = m }

pub transition_if-frame :
    (target : CentralState) (q : Request) (c : ConnectionRecoveryCoordinator)
    → (transition_if target q c).0 ≡ with_machine (transition_if target q c).0.state_machine c
unfolding transition_if
transition_if-frame target q c = ground arith

pub transition_to_recovering-frame :
    (now : ℕ) (c : ConnectionRecoveryCoordinator)
    → (transition_to_recovering now c).0
      ≡ with_machine (transition_to_recovering now c).0.state_machine c
unfolding transition_to_recovering
transition_to_recovering-frame now c =
    transition_if-frame CentralState.recovering (request "Connection recovery in progress" now) c

-- From RECOVERING the transitions that a recovery asks for are admitted.
pub transition_if-from_recovering :
    (target : CentralState) (q : Request) (c : ConnectionRecoveryCoordinator)
    → central_state c ≡ some recovering
    → contains target (running ∷ degraded ∷ failed ∷ []) ≡ true
    → central_state (transition_if target q c).0 ≡ some target
unfolding transition_if can_transition_to attempt contains
transition_if-from_recovering target q c e t = ground arith

pub transition_to_recovering-state :
    (now : ℕ) (c : ConnectionRecoveryCoordinator)
    → Recoverable c
    → central_state (transition_to_recovering now c).0 ≡ some recovering
unfolding transition_to_recovering transition_if can_transition_to attempt contains
transition_to_recovering-state now c r = ground (arith, r.1, r.2)

-- The set of active recoveries without one that was added.
pub erase-append :
    (k : String) (xs : List String)
    → contains k xs ≡ false
    → (erase k (xs ++ k ∷ []) ≡ xs) × (erase k xs ≡ xs)
unfolding contains erase
erase-append k [] n = (ground (arith, string_eq.equal_iff k k), refl)
erase-append k (x ∷ xs) n =
    let more = erase-append k xs (ground (arith, n)) in
    (ground (arith, n, more.0), ground (arith, n, more.1))

pub erase-add_active :
    (iid : String) (c : ConnectionRecoveryCoordinator)
    → erase iid (add_active iid c).0.active_recoveries ≡ erase iid c.active_recoveries
erase-add_active iid c =
    if_elim (λ xs. erase iid xs ≡ erase iid c.active_recoveries) (contains iid c.active_recoveries)
      (λ _. refl) (λ n. let e = erase-append iid c.active_recoveries n in e.0 ∙ sym e.1)

pub erase_twice : (k : String) (xs : List String) → Distinct xs → erase k (erase k xs) ≡ erase k xs
erase_twice k xs d = (erase-append k (erase k xs) (contains-erase_self k xs d)).1

pub add_active-Distinct :
    (iid : String) (c : ConnectionRecoveryCoordinator)
    → Distinct c.active_recoveries
    → Distinct (add_active iid c).0.active_recoveries
add_active-Distinct iid c u =
    if_elim Distinct (contains iid c.active_recoveries) (λ _. u)
      (λ n. Distinct-append_one iid c.active_recoveries n u)

pub central-Recoverable :
    (s : CentralState) (c : ConnectionRecoveryCoordinator)
    → central_state c ≡ some s
    → is_recoverable s ≡ true
    → Recoverable c
unfolding contains
central-Recoverable s c e r = elim (Option-cases c.state_machine) [
  | inl n ↦ absurd (ground (arith, n, e))
  | inr m ↦ (m.0, m.1, ground (arith, m.1, e, r))
]

-- Behind the begin of a recovery.
pub record Begun (iid : String) (c b : ConnectionRecoveryCoordinator) : Type 0 where
  pub active : b.active_recoveries ≡ (add_active iid c).0.active_recoveries
  pub in_failed_state : b.in_failed_state ≡ c.in_failed_state
  pub shutdown : b.shutdown ≡ c.shutdown
  pub heartbeat_running : b.heartbeat_running ≡ c.heartbeat_running
  pub recovering : Recoverable c → central_state b ≡ some CentralState.recovering

pub begin-Begun :
    (iid : String) (now : ℕ) (c : ConnectionRecoveryCoordinator) → Begun iid c (begin iid now c).0
unfolding begin
begin-Begun iid now c =
    let c1 : ConnectionRecoveryCoordinator = (add_active iid c).0 in
    let c2 : ConnectionRecoveryCoordinator = (update iid (State.start_recovery now) c1).0 in
    let c3 : ConnectionRecoveryCoordinator = (transition_to_recovering now c2).0 in
    let f : c2 ≡ with_states c2.recovery_states c1 =
      update-frame iid (State.start_recovery now) c1 in
    let g : c3 ≡ with_machine c3.state_machine c2 = transition_to_recovering-frame now c2 in
    record {
      active = ap active_of g ∙ ap active_of f;
      in_failed_state = ap flag_of g ∙ ap flag_of f;
      shutdown = ap shutdown_of g ∙ ap shutdown_of f;
      heartbeat_running = ap heartbeat_of g ∙ ap heartbeat_of f;
      recovering = λ r. transition_to_recovering-state now c2 (r.0, ap machine_of f ∙ r.1, r.2);
    }
