-- ===== src/Central/ConnectionState.antt =====
-- aiohomematic/central/connection_state.py: the class CentralConnectionState.
--
-- A method returns its result, the new state, and the events that it publishes: the interface and
-- whether it is connected. The two classes of issuers are the two constructors of `Issuer`.
pub mod Laws
pub mod Clearing
mod Tests
use aiohomematic.Prelude.{
  ℕ, ◌+◌, String, Bool, true, false, ◌&&◌, not, List, [], ◌∷◌, ◌++◌, map, ltb, if◌then◌else◌,
}
use aiohomematic.Prelude.Lists.{length}
use aiohomematic.Prelude.Dict.{contains, erase, string_eq}

pub data Issuer : Type 0 where
  json_rpc rpc_proxy : Issuer

pub record CentralConnectionState : Type 0 where
  pub json_issues : List String
  pub rpc_proxy_issues : List String
  pub has_event_bus : Bool

unfoldable pub init : Bool → CentralConnectionState
init bus = record { json_issues = []; rpc_proxy_issues = []; has_event_bus = bus }

unfoldable pub is_any_issue : CentralConnectionState → Bool
is_any_issue s = if ltb 0 (length s.json_issues) then true else ltb 0 (length s.rpc_proxy_issues)

unfoldable pub issue_count : CentralConnectionState → ℕ
issue_count s = length s.json_issues + length s.rpc_proxy_issues

unfoldable pub is_issue : Issuer → String → CentralConnectionState → Bool
is_issue json_rpc iid s = contains iid s.json_issues
is_issue rpc_proxy iid s = contains iid s.rpc_proxy_issues

unfoldable pub is_rpc_proxy_issue : String → CentralConnectionState → Bool
is_rpc_proxy_issue iid s = contains iid s.rpc_proxy_issues

abbrev pub Events : Type 0
Events = List (String × Bool)

-- `_publish_state_change`
unfoldable pub publish_state_change : String → Bool → CentralConnectionState → Events
publish_state_change iid connected s = if s.has_event_bus then (iid, connected) ∷ [] else []

unfoldable pub add_issue :
    Issuer → String → CentralConnectionState → Bool × CentralConnectionState × Events
unfolding publish_state_change
add_issue json_rpc iid s =
    if not (contains iid s.json_issues)
    then (
      true,
      record s { json_issues = s.json_issues ++ iid ∷ [] },
      publish_state_change iid false s,
    )
    else (false, s, [])
add_issue rpc_proxy iid s =
    if not (contains iid s.rpc_proxy_issues)
    then (
      true,
      record s { rpc_proxy_issues = s.rpc_proxy_issues ++ iid ∷ [] },
      publish_state_change iid false s,
    )
    else (false, s, [])

unfoldable pub remove_issue :
    Issuer → String → CentralConnectionState → Bool × CentralConnectionState × Events
unfolding publish_state_change
remove_issue json_rpc iid s =
    if contains iid s.json_issues
    then (true, record s { json_issues = erase iid s.json_issues }, publish_state_change iid true s)
    else (false, s, [])
remove_issue rpc_proxy iid s =
    if contains iid s.rpc_proxy_issues
    then (
      true,
      record s { rpc_proxy_issues = erase iid s.rpc_proxy_issues },
      publish_state_change iid true s,
    )
    else (false, s, [])

-- the loop of `clear_all_issues` over the copied identifiers
unfoldable pub publish_all : List String → CentralConnectionState → Events
unfolding publish_state_change
publish_all [] s = []
publish_all (iid ∷ iids) s = publish_state_change iid true s ++ publish_all iids s

unfoldable pub clear_all_issues : CentralConnectionState → ℕ × CentralConnectionState × Events
unfolding issue_count publish_all
clear_all_issues s =
    if ltb 0 (issue_count s)
    then (
      issue_count s,
      record s { json_issues = []; rpc_proxy_issues = [] },
      publish_all (s.json_issues ++ s.rpc_proxy_issues) s,
    )
    else (0, s, [])

-- `handle_exception_log`: whether the failure is logged at the caller's level (else at debug
-- level), the new state and the events.
unfoldable pub handle_exception_log :
    Issuer → String → Bool → CentralConnectionState → Bool × CentralConnectionState × Events
unfolding is_issue add_issue
handle_exception_log issuer iid multiple_logs s =
    if is_issue issuer iid s && not multiple_logs
    then (false, s, [])
    else (let (_, s', events) = add_issue issuer iid s in (true, s', events))

-- The calls that change the state, and a history of them.
pub data Call : Type 0 where
  adds removes : Issuer → String → Call
  clears : Call
  handles : Issuer → String → Bool → Call

unfoldable pub step : Call → CentralConnectionState → CentralConnectionState × Events
unfolding add_issue remove_issue clear_all_issues handle_exception_log
step (adds issuer iid) s = let (_, s', events) = add_issue issuer iid s in (s', events)
step (removes issuer iid) s = let (_, s', events) = remove_issue issuer iid s in (s', events)
step clears s = let (_, s', events) = clear_all_issues s in (s', events)
step (handles issuer iid multiple_logs) s =
    let (_, s', events) = handle_exception_log issuer iid multiple_logs s in (s', events)

unfoldable pub run : List Call → CentralConnectionState → CentralConnectionState
run [] s = s
run (c ∷ cs) s = run cs (step c s).0
