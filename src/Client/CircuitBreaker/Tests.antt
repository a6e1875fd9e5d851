-- ===== src/Client/CircuitBreaker/Tests.antt =====
-- Runs of the circuit breaker, and its theorems at concrete inputs.
use aiohomematic.Prelude.{◌≡◌, refl, true, none, some, List, [], ◌∷◌, arith}
use aiohomematic.Central.ConnectionState as Connection
use aiohomematic.Central.ConnectionState.{is_issue}
use aiohomematic.Prelude.Dict.{contains}
use aiohomematic.Client.CircuitBreaker.{
  CircuitBreakerConfig, CircuitBreaker, closed, opened, half_open, init, Call, polls, fails,
  rejects, succeeds, step, run,
}
use aiohomematic.Client.CircuitBreaker.Laws.{IsSane, run-IsSane}
use aiohomematic.Client.CircuitBreaker.Issues.{report, IsSynced, run-IsSynced}

-- the default configuration
abbrev config : CircuitBreakerConfig
config = record { failure_threshold = 5; recovery_timeout = 30_000_000; success_threshold = 2 }

abbrev two_failures : CircuitBreakerConfig
two_failures = record config { failure_threshold = 2 }

abbrev fresh : CircuitBreaker
fresh = record {
  config = two_failures;
  interface_id = "BidCos-RF";
  has_event_bus = true;
  has_recorder = true;
  has_connection_state = true;
  state = closed;
  failure_count = 0;
  success_count = 0;
  total_requests = 0;
  last_failure_time = none;
}

abbrev history : List Call
history =
    fails 1
    ∷ fails 2
    ∷ polls 5
    ∷ rejects
    ∷ polls 30_000_002
    ∷ succeeds
    ∷ fails 30_000_003
    ∷ polls 60_000_003
    ∷ succeeds
    ∷ succeeds
    ∷ []

recovers : ((run history fresh).0.state ≡ closed) × ((run history fresh).0.total_requests ≡ 6)
unfolding run step
recovers = (refl, refl)

run-IsSane_example : IsSane (run history (init config "BidCos-RF" true true true)).0
run-IsSane_example =
    run-IsSane config "BidCos-RF" true true true history (omega arith) (omega arith)

abbrev tripped_breaker : CircuitBreaker
tripped_breaker = record fresh {
  state = opened;
  failure_count = 2;
  total_requests = 2;
  last_failure_time = some 2;
}

abbrev probing : CircuitBreaker
probing = record tripped_breaker { state = half_open }

abbrev no_issues : Connection.CentralConnectionState
no_issues = record { json_issues = []; rpc_proxy_issues = []; has_event_bus = true }

fresh-IsSynced : IsSynced Connection.rpc_proxy fresh no_issues
unfolding is_issue contains
fresh-IsSynced = record {
  connected = refl;
  distinct = record { json_distinct = tt; rpc_distinct = tt };
  agrees = refl;
}

run-IsSynced_example :
    let s = report Connection.rpc_proxy "BidCos-RF" (run history fresh).1 no_issues in
    IsSynced Connection.rpc_proxy (run history fresh).0 s
    × (is_issue Connection.json_rpc "BidCos-RF" s
        ≡ is_issue Connection.json_rpc "BidCos-RF" no_issues)
run-IsSynced_example =
    run-IsSynced Connection.rpc_proxy history fresh no_issues Connection.json_rpc "BidCos-RF"
      (ground arith) fresh-IsSynced

abbrev one_issue : Connection.CentralConnectionState
one_issue = record no_issues { rpc_proxy_issues = "BidCos-RF" ∷ [] }

tripped-IsSynced : IsSynced Connection.rpc_proxy tripped_breaker one_issue
unfolding is_issue contains
tripped-IsSynced = record {
  connected = refl;
  distinct = record { json_distinct = tt; rpc_distinct = (refl, tt) };
  agrees = refl;
}
