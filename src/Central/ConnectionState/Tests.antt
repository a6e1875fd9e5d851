-- ===== src/Central/ConnectionState/Tests.antt =====
-- Runs of the connection state, and its theorems at concrete inputs.
use aiohomematic.Prelude.{◌≡◌, refl, true, false, List, [], ◌∷◌}
use aiohomematic.Prelude.Dict.{contains, erase}
use aiohomematic.Central.ConnectionState.{
  json_rpc, rpc_proxy, CentralConnectionState, init, is_issue, Call, adds, removes, handles, run,
  step,
}
use aiohomematic.Central.ConnectionState.Laws.{run_spec, run-spec}

abbrev history : List Call
history =
    adds rpc_proxy "a"
    ∷ handles json_rpc "a" false
    ∷ removes rpc_proxy "a"
    ∷ adds rpc_proxy "b"
    ∷ []

keeps_transports_apart : is_issue json_rpc "a" (run history (init true)) ≡ true
unfolding run step init is_issue contains erase
keeps_transports_apart = refl

run-spec_example :
    is_issue json_rpc "a" (run history (init true)) ≡ run_spec history (λ i a. false) json_rpc "a"
run-spec_example = run-spec true history json_rpc "a"

abbrev two_issues : CentralConnectionState
two_issues = record { json_issues = "a" ∷ []; rpc_proxy_issues = "b" ∷ []; has_event_bus = true }
