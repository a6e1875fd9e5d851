-- ===== src/Central/CentralUnit/Laws.antt =====
-- The verdict on the system, and the map of degraded interfaces.
use aiohomematic.Prelude.{
  ℕ, ◌+◌, ◌<◌, ◌≤◌, ltb, eqb, ◌≡◌, inl, inr, Bool, Bool-cases, true, false, not, ◌&&◌, ◌||◌, List,
  [], ◌∷◌, arith, String, if◌then◌else◌, ok, err, Result,
}
use aiohomematic.Prelude.Lists.{All, length}
use aiohomematic.Prelude.Dict.{◌==◌, string_eq, has_key, lookup, lookup-insert, insert}
use aiohomematic.Const.{
  ClientState, ClientState-eq, connected, CentralState, running, degraded, initializing,
  FailureReason, is_failure,
}
use aiohomematic.Const as Const
use aiohomematic.Client.StateMachine.{ClientStateMachine}
use aiohomematic.Central.StateMachine.{
  CentralStateMachine, InvalidCentralStateTransitionError, Event, transition_to, Interfaces,
}
use aiohomematic.Central.CentralUnit.{
  Context, evaluate_central_state, all_connected, any_connected, all_clients, any_client,
  is_connected, build_from, add_degraded, build_degraded_interfaces_map, or_unknown,
}

-- How many of the clients are connected.
abbrev pub one_connected : ClientState → ℕ
one_connected connected = 1
one_connected _ = 0

abbrev pub connected_clients : List ClientStateMachine → ℕ
connected_clients [] = 0
connected_clients (c ∷ cs) = one_connected c.state + connected_clients cs

-- The verdict by the number of clients and of connected ones.
abbrev pub verdict : List ClientStateMachine → CentralState
verdict cs =
    if eqb (connected_clients cs) 0
    then Const.CentralState.failed
    else (if eqb (connected_clients cs) (length cs) then running else degraded)

connected_clients-le : (cs : List ClientStateMachine) → connected_clients cs ≤ length cs
connected_clients-le [] = omega arith
connected_clients-le (c ∷ cs) = ground (arith, connected_clients-le cs)

all_clients_lem :
    (cs : List ClientStateMachine)
    → all_clients is_connected cs ≡ eqb (connected_clients cs) (length cs)
unfolding all_clients
all_clients_lem [] = ground arith
all_clients_lem (c ∷ cs) = ground (arith, all_clients_lem cs, connected_clients-le cs)

all_connected_lem :
    (cs : List ClientStateMachine)
    → all_connected cs ≡ (ltb 0 (length cs) && eqb (connected_clients cs) (length cs))
unfolding all_connected
all_connected_lem [] = ground arith
all_connected_lem (c ∷ cs) = ground (arith, all_clients_lem (c ∷ cs))

any_connected_lem : (cs : List ClientStateMachine) → any_connected cs ≡ ltb 0 (connected_clients cs)
unfolding any_connected any_client
any_connected_lem [] = ground arith
any_connected_lem (c ∷ cs) = ground (arith, any_connected_lem cs)

-- The call returns, in that state.
abbrev pub Ends :
    CentralState
    → Result InvalidCentralStateTransitionError (CentralStateMachine × List Event)
    → Type 0
Ends s (ok r) = r.0.state ≡ s
Ends s (err e) = ⊥

-- Called from `start`, with the machine in INITIALIZING, the evaluation never raises and ends in the
-- verdict: RUNNING if there are clients and as many are connected, DEGRADED if some are, FAILED if none
-- is (or there is no client).
pub evaluate-start :
    (x : Context) (cs : List ClientStateMachine) (m : CentralStateMachine)
    → x.from_start ≡ true
    → m.state ≡ initializing
    → Ends (verdict cs) (evaluate_central_state x cs m)
unfolding evaluate_central_state transition_to
evaluate-start x cs m s e =
    ground (arith, all_connected_lem cs, any_connected_lem cs, connected_clients-le cs)

-- Called for a client's event while no recovery runs, with the machine in RUNNING: the evaluation
-- never raises; it ends in RUNNING if all clients are connected and in DEGRADED if some are. If no
-- client is connected it does nothing at all: the machine stays RUNNING.
pub evaluate-running :
    (x : Context) (cs : List ClientStateMachine) (m : CentralStateMachine)
    → x.from_start ≡ false
    → x.in_recovery ≡ false
    → m.state ≡ running
    → (0 < connected_clients cs → Ends (verdict cs) (evaluate_central_state x cs m))
      × (connected_clients cs ≡ 0 → evaluate_central_state x cs m ≡ ok (m, []))
unfolding evaluate_central_state transition_to
evaluate-running x cs m s r e = (
  λ a. ground (arith, all_connected_lem cs, any_connected_lem cs, connected_clients-le cs),
  λ n. ground (arith, all_connected_lem cs, any_connected_lem cs, connected_clients-le cs),
)

-- Any call of the evaluation returns: the guards exclude the error of a refused transition.
abbrev pub Returns :
    Result InvalidCentralStateTransitionError (CentralStateMachine × List Event) → Type 0
Returns (ok r) = Unit
Returns (err e) = ⊥

evaluate-Returns :
    (x : Context) (cs : List ClientStateMachine) (m : CentralStateMachine)
    → Returns (evaluate_central_state x cs m)
unfolding evaluate_central_state transition_to
evaluate-Returns x cs m = ground arith

-- A client of the interface is not connected.
abbrev pub is_lost : String → ClientStateMachine → Bool
is_lost i c = not (is_connected c) && c.interface_id == i

insert-All :
    (i : String) (r : FailureReason) (m : Interfaces)
    → is_failure r ≡ true
    → All (λ e. is_failure e.1 ≡ true) m
    → All (λ e. is_failure e.1 ≡ true) (insert i r m)
unfolding insert
insert-All i r [] f a = (f, tt)
insert-All i r ((j, s) ∷ m) f a = elim (Bool-cases (j == i)) [
  | inl here ↦ rw here (f, a.1)
  | inr there ↦ rw there (a.0, insert-All i r m f a.1)
]

or_unknown-is_failure : (r : FailureReason) → is_failure (or_unknown r) ≡ true
or_unknown-is_failure r = ground arith

has_key-add :
    (i : String) (c : ClientStateMachine) (m : Interfaces)
    → has_key i (add_degraded c m) ≡ (has_key i m || is_lost i c)
unfolding add_degraded
has_key-add i c m = ground (arith, lookup-insert c.interface_id i (or_unknown c.failure_reason) m)

add_degraded-All :
    (c : ClientStateMachine) (m : Interfaces)
    → All (λ e. is_failure e.1 ≡ true) m
    → All (λ e. is_failure e.1 ≡ true) (add_degraded c m)
unfolding add_degraded
add_degraded-All c m a = elim (Bool-cases (is_connected c)) [
  | inl up ↦ rw (up, add_degraded) a
  | inr down ↦
      rw (down, add_degraded)
        (insert-All c.interface_id (or_unknown c.failure_reason) m
          (or_unknown-is_failure c.failure_reason) a)
]

build_from_lem :
    (i : String) (cs : List ClientStateMachine) (m : Interfaces)
    → All (λ e. is_failure e.1 ≡ true) m
    → (has_key i (build_from cs m) ≡ (has_key i m || any_client (is_lost i) cs))
      × All (λ e. is_failure e.1 ≡ true) (build_from cs m)
unfolding build_from any_client
build_from_lem i [] m a = (ground arith, a)
build_from_lem i (c ∷ cs) m a =
    let (keys, failures) = build_from_lem i cs (add_degraded c m) (add_degraded-All c m a) in
    (ground (arith, keys, has_key-add i c m), failures)

-- The map of degraded interfaces has a key for exactly the interfaces that have a client that is not
-- connected, and every reason in it is a failure, never NONE.
pub build_degraded_lem :
    (i : String) (cs : List ClientStateMachine)
    → (has_key i (build_degraded_interfaces_map cs) ≡ any_client (is_lost i) cs)
      × All (λ e. is_failure e.1 ≡ true) (build_degraded_interfaces_map cs)
unfolding build_degraded_interfaces_map lookup
build_degraded_lem i cs = build_from_lem i cs [] tt
