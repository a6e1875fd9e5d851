-- ===== src/Central/ConnectionState/Clearing.antt =====
-- aiohomematic/central/connection_state.py: clearing all issues.
use aiohomematic.Prelude.{◌+◌, ◌≡◌, refl, String, true, List, [], ◌∷◌, ◌++◌, map, arith}
use aiohomematic.Prelude.Lists.{length}
use aiohomematic.Prelude.Dict.{string_eq}
use aiohomematic.Central.ConnectionState.{
  CentralConnectionState, clear_all_issues, publish_all, publish_state_change, Events, issue_count,
}

-- one event that reports the interface as connected, for each interface
abbrev pub all_connected : List String → Events
all_connected = map (λ iid. (iid, true))

append_of_empty : (xs ys : List String) → length xs + length ys ≡ 0 → all_connected (xs ++ ys) ≡ []
append_of_empty [] [] e = refl
append_of_empty [] (y ∷ ys) e = absurd (omega arith)
append_of_empty (x ∷ xs) ys e = absurd (omega arith)

events-publish_all :
    (s : CentralConnectionState) (iids : List String)
    → s.has_event_bus ≡ true
    → publish_all iids s ≡ all_connected iids
unfolding publish_all publish_state_change
events-publish_all s [] e = refl
events-publish_all s (iid ∷ iids) e = ground (arith, events-publish_all s iids e)

-- Clearing returns the number of issues and leaves none; with an event bus it reports each of them
-- as connected, those of JSON-RPC first.
pub clear_all_issues_lem :
    (s : CentralConnectionState)
    → ((clear_all_issues s).0 ≡ issue_count s)
      × (issue_count (clear_all_issues s).1 ≡ 0)
      × (s.has_event_bus ≡ true
          → (clear_all_issues s).2 ≡ all_connected (s.json_issues ++ s.rpc_proxy_issues))
unfolding clear_all_issues issue_count
clear_all_issues_lem s = (
  ground arith,
  ground arith,
  λ e. ground (
    arith,
    events-publish_all s (s.json_issues ++ s.rpc_proxy_issues) e,
    append_of_empty s.json_issues s.rpc_proxy_issues,
  ),
)
