-- ===== src/Central/CentralUnit.antt =====
-- aiohomematic/central/central_unit.py: how the class CentralUnit judges the state of the system by
-- the states of its clients.
--
-- The clients are given by their state machines, in the order of the coordinator. A trigger is the
-- text that the code puts into the reasons.
pub mod Laws
mod Tests
use Prim.Native.String.{◌++◌ as ◌+ˢ◌}
use aiohomematic.Prelude.{
  ℕ, String, Bool, true, false, ◌&&◌, ◌||◌, not, Option, none, some, List, [], ◌∷◌, map,
  if◌then◌else◌, Result, ok, err,
}
use aiohomematic.Prelude.Lists.{select}
use aiohomematic.Prelude.Dict.{contains, ◌==◌, insert, string_eq}
use aiohomematic.Const.{
  ClientState, ClientState-eq, connected, CentralState, CentralState-eq, running, degraded,
  FailureReason, is_failure,
}
use aiohomematic.Const as Const
use aiohomematic.Client.StateMachine.{ClientStateMachine, is_failed}
use aiohomematic.Central.StateMachine.{
  CentralStateMachine, InvalidCentralStateTransitionError, Interfaces, Event, Request,
  can_transition_to, transition_to,
}

abbrev pub is_connected : ClientStateMachine → Bool
is_connected c = c.state == connected

-- `all` and `any` over the clients
unfoldable pub all_clients : (ClientStateMachine → Bool) → List ClientStateMachine → Bool
all_clients p [] = true
all_clients p (c ∷ cs) = p c && all_clients p cs

unfoldable pub any_client : (ClientStateMachine → Bool) → List ClientStateMachine → Bool
any_client p [] = false
any_client p (c ∷ cs) = p c || any_client p cs

-- `bool(clients) and all(...)`
unfoldable pub all_connected : List ClientStateMachine → Bool
unfolding all_clients
all_connected [] = false
all_connected (c ∷ cs) = all_clients is_connected (c ∷ cs)

unfoldable pub any_connected : List ClientStateMachine → Bool
unfolding any_client
any_connected cs = any_client is_connected cs

-- `reason if reason != NONE else UNKNOWN`
abbrev pub or_unknown : FailureReason → FailureReason
or_unknown FailureReason.none = FailureReason.unknown
or_unknown r = r

unfoldable pub add_degraded : ClientStateMachine → Interfaces → Interfaces
add_degraded c m =
    if is_connected c then m else insert c.interface_id (or_unknown c.failure_reason) m

-- The dictionary comprehension of `_build_degraded_interfaces_map`, from the clients seen so far.
unfoldable pub build_from : List ClientStateMachine → Interfaces → Interfaces
unfolding add_degraded insert
build_from [] m = m
build_from (c ∷ cs) m = build_from cs (add_degraded c m)

unfoldable pub build_degraded_interfaces_map : List ClientStateMachine → Interfaces
unfolding build_from
build_degraded_interfaces_map cs = build_from cs []

unfoldable pub determine_failure_info : List ClientStateMachine → FailureReason × Option String
unfolding is_failed
determine_failure_info [] = (FailureReason.network, none)
determine_failure_info (c ∷ cs) =
    if is_failed c && is_failure c.failure_reason
    then (c.failure_reason, some c.interface_id)
    else determine_failure_info cs

-- `', '.join(keys)`
join : List String → String
join [] = ""
join (s ∷ []) = s
join (s ∷ t ∷ ss) = s +ˢ (", " +ˢ join (t ∷ ss))

-- What `_evaluate_central_state` reads beside the clients: the trigger, whether it is called from
-- `start`, whether a recovery runs, the coordinator's last failure, and the time.
pub record Context : Type 0 where
  pub trigger : String
  pub from_start : Bool
  pub in_recovery : Bool
  pub last_failure_reason : FailureReason
  pub last_failure_interface_id : Option String
  pub now : ℕ

abbrev plain : Context → String → Request
plain x reason = record {
  reason = reason;
  force = false;
  failure_reason = FailureReason.none;
  failure_interface_id = none;
  degraded_interfaces = [];
  now = x.now;
}

to_running : Context → Request
to_running x = plain x ("all clients connected (" +ˢ (x.trigger +ˢ ")"))

to_degraded : Context → List ClientStateMachine → Request
unfolding join
to_degraded x cs =
    let interfaces = build_degraded_interfaces_map cs in
    record (plain x ("clients not connected: " +ˢ join (map (λ e. e.0) interfaces))) {
      degraded_interfaces = interfaces;
    }

failure_info : Context → List ClientStateMachine → FailureReason × Option String
failure_info x cs =
    if x.from_start
    then (x.last_failure_reason, x.last_failure_interface_id)
    else determine_failure_info cs

to_failed : Context → List ClientStateMachine → Request
unfolding failure_info
to_failed x cs = record (plain x ("no clients connected (" +ˢ (x.trigger +ˢ ")"))) {
  failure_reason = (failure_info x cs).0;
  failure_interface_id = (failure_info x cs).1;
}

-- The three guards of `_evaluate_central_state`.
abbrev pub may_run : Context → List ClientStateMachine → CentralStateMachine → Bool
may_run x cs m =
    all_connected cs && ((x.from_start || not x.in_recovery) && can_transition_to running m)

abbrev pub may_degrade : Context → List ClientStateMachine → CentralStateMachine → Bool
may_degrade x cs m =
    any_connected cs
    && (not (all_connected cs)
        && ((x.from_start || m.state == running) && can_transition_to degraded m))

abbrev pub may_fail : Context → List ClientStateMachine → CentralStateMachine → Bool
may_fail x cs m =
    not (any_connected cs)
    && ((x.from_start || (m.state == running || m.state == degraded))
        && can_transition_to Const.CentralState.failed m)

unfoldable pub evaluate_central_state :
    Context
    → List ClientStateMachine
    → CentralStateMachine
    → Result InvalidCentralStateTransitionError (CentralStateMachine × List Event)
unfolding to_running to_degraded to_failed
evaluate_central_state x cs m =
    if may_run x cs m
    then transition_to running (to_running x) m
    else (if may_degrade x cs m
        then transition_to degraded (to_degraded x cs) m
        else (if may_fail x cs m
            then transition_to Const.CentralState.failed (to_failed x cs) m
            else ok (m, [])))
