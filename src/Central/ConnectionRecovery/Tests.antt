-- ===== src/Central/ConnectionRecovery/Tests.antt =====
-- Runs and instances of the connection recovery.
use aiohomematic.Prelude.{
  ℕ, zero, suc, ◌-◌, ◌≡◌, ◌≤◌, refl, String, Bool, true, false, Option, none, some, List, [], ◌∷◌,
  arith, if◌then◌else◌, eqb,
}
use aiohomematic.Prelude.Dict.{string_eq, contains, lookup}
use aiohomematic.Const.{CentralState, FailureReason, running}
use aiohomematic.Central.StateMachine.{CentralStateMachine}
use aiohomematic.Central.ConnectionRecovery.State.{
  RecoveryStage, cooldown, tcp_checking, rpc_checking, warming_up, stability_check, reconnecting,
  data_loading, InterfaceRecoveryState, new_state, can_retry, max_recovery_attempts,
}
use aiohomematic.Central.ConnectionRecovery.{
  ◌>>◌, create_task, recovery, ConnectionRecoveryCoordinator, Out, Effect, recovery_completed,
  sleep,
}
use aiohomematic.Central.ConnectionRecovery.Stages.{
  Answers, passed, refused, execute_recovery_stages,
}
use aiohomematic.Central.ConnectionRecovery.Retries.{
  Attempt, over, Exit, returned, raised, exit, state_of, call, start_recovery,
}
use aiohomematic.Central.ConnectionRecovery.Handlers.{
  CentralStateChangedEvent, on_central_state_changed, is_startup_failure, on_connection_lost,
  on_circuit_breaker_tripped, recover_all_interfaces, heartbeat_round, failed_interfaces,
}
use aiohomematic.Central.ConnectionRecovery.Checks.{Connection, wait_for_port}
use aiohomematic.Central.ConnectionRecovery.Checks.Waiting.{Waited, wait_for_port-Returns}
use aiohomematic.Central.ConnectionRecovery.Termination.{attempts, start_recovery-Returns}
use aiohomematic.Central.ConnectionRecovery.Progress.{plan, Follows, execute-plan}
use aiohomematic.Central.ConnectionRecovery.Frames.{central_state}
use aiohomematic.Central.ConnectionRecovery.Success.{Recovered}
use aiohomematic.Central.ConnectionRecovery.Persistence.{FailsFirst, start_recovery-persists}
use aiohomematic.Central.ConnectionRecovery.Failing.{Exhausted}
use aiohomematic.Central.ConnectionRecovery.Exhaustion.{start_recovery-Exhausted}
use aiohomematic.Central.ConnectionRecovery.Rounds.{
  successes, RoundEnds, recover_all_interfaces-verdict,
}
use aiohomematic.Central.ConnectionRecovery.Heartbeat.{
  needs_retry, event_of, heartbeat_round-retries, recovered-has_one_attempt,
}
use aiohomematic.Central.ConnectionRecovery.Startup.{Retries, startup_failure-heartbeat}
use aiohomematic.Central.ConnectionRecovery.Stuck.{start_recovery-raised}

-- A central that runs, and one that is in FAILED.
abbrev machine : CentralState → CentralStateMachine
machine s = record {
  central_name = "ccu";
  has_event_bus = true;
  state = s;
  failure_reason = FailureReason.none;
  failure_message = "";
  failure_interface_id = none;
  degraded_interfaces = [];
  last_state_change = 0;
  state_history = [];
}

abbrev used_up : String → InterfaceRecoveryState
used_up iid = record {
  interface_id = iid;
  attempt_count = 7;
  last_attempt = none;
  last_success = none;
  consecutive_failures = 8;
  current_stage = tcp_checking;
  stages_completed = [];
  recovery_start_time = none;
}

abbrev fresh : ConnectionRecoveryCoordinator
fresh = record {
  state_machine = some (machine running);
  has_incident_recorder = true;
  recovery_states = [];
  active_recoveries = [];
  in_failed_state = false;
  shutdown = false;
  heartbeat_running = false;
}

-- The heartbeat has left two interfaces one attempt each.
abbrev broken : ConnectionRecoveryCoordinator
broken = record {
  state_machine = some (machine CentralState.failed);
  has_incident_recorder = true;
  recovery_states = ("rf", used_up "rf") ∷ ("ip", used_up "ip") ∷ [];
  active_recoveries = [];
  in_failed_state = true;
  shutdown = false;
  heartbeat_running = true;
}

abbrev all_pass : Answers
all_pass = record {
  client_exists = true;
  cooldown = passed;
  tcp_check = passed;
  rpc_check = passed;
  warm_up = passed;
  stability_check = passed;
  reconnect = passed;
  data_load = passed;
}

abbrev no_rpc : Answers
no_rpc = record all_pass { rpc_check = refused }

abbrev tries : Answers → Attempt
tries a = record { now = 1; has_client = true; stages = a; wait = over }

-- The first attempt fails in the RPC check, the second passes.
abbrev twice : ℕ → Attempt
twice zero = tries no_rpc
twice (suc n) = tries all_pass

-- What is told of the second attempt begins with the stage that failed in the first.
abbrev completed : List Effect → List (ℕ × List RecoveryStage)
completed [] = []
completed (recovery_completed iid n stages ∷ es) = (n, stages) ∷ completed es
completed (_ ∷ es) = completed es

abbrev effects : Option (Out × Exit) → List Effect
effects none = []
effects (some q) = q.0.1

second_attempt_tells :
    completed (effects (start_recovery max_recovery_attempts twice "rf" fresh))
    ≡ (
      2,
      rpc_checking ∷ cooldown ∷ tcp_checking ∷ rpc_checking ∷ warming_up ∷ stability_check
          ∷ reconnecting ∷ data_loading ∷ [],
    )
      ∷ []
unfolding start_recovery
second_attempt_tells = refl

-- The sleeps of a recovery that fails throughout.
abbrev sleeps : List Effect → List ℕ
sleeps [] = []
sleeps (sleep n ∷ es) = n ∷ sleeps es
sleeps (_ ∷ es) = sleeps es

sleeps_between :
    sleeps (effects (start_recovery max_recovery_attempts (λ _. tries no_rpc) "rf" fresh))
    ≡ 5 ∷ 10 ∷ 20 ∷ 40 ∷ 60 ∷ 60 ∷ 60 ∷ []
unfolding start_recovery
sleeps_between = refl

start_recovery-Returns_example :
    (q : Out × Exit) × (start_recovery max_recovery_attempts twice "rf" fresh ≡ some q)
    × (start_recovery 20 twice "rf" fresh ≡ some q)
start_recovery-Returns_example = start_recovery-Returns 20 twice "rf" fresh (omega arith)

execute-plan_example :
    Follows "rf" (plan no_rpc) (state_of "rf" broken) (execute_recovery_stages "rf" no_rpc broken)
unfolding lookup
execute-plan_example = execute-plan "rf" no_rpc broken refl

-- The one attempt of `twice` that fails.
twice-FailsFirst : FailsFirst 1 twice
twice-FailsFirst zero l = (refl, refl)
twice-FailsFirst (suc i) l = absurd (omega (arith, l))

twice-has_client : (i : ℕ) → (twice i).has_client ≡ true
twice-has_client zero = refl
twice-has_client (suc i) = refl

start_recovery-persists_example :
    (r : Out) × (start_recovery 8 twice "rf" fresh ≡ some (r, returned)) × Recovered "rf" fresh r.0
unfolding contains lookup new_state
start_recovery-persists_example =
    start_recovery-persists 1 8 twice "rf" fresh (omega arith) (omega arith) refl tt
      (machine running, refl, refl) twice-has_client twice-FailsFirst refl

start_recovery-Exhausted_example :
    (r : Out) × (start_recovery max_recovery_attempts (λ _. tries no_rpc) "rf" fresh
      ≡ some (r, returned))
    × Exhausted "rf" fresh r.0
unfolding can_retry contains lookup new_state
start_recovery-Exhausted_example =
    start_recovery-Exhausted (λ _. tries no_rpc) "rf" fresh refl refl tt
      (machine running, refl, refl) (λ k. (refl, refl, refl))

-- Of two interfaces one recovers.
abbrev one_of_two : String → Answers
one_of_two iid = if contains iid ("rf" ∷ []) then all_pass else no_rpc

recover_all_interfaces-verdict_example :
    RoundEnds
      ("rf" ∷ "ip" ∷ [])
      broken
      (successes one_of_two ("rf" ∷ "ip" ∷ []))
      (recover_all_interfaces 1 one_of_two ("rf" ∷ "ip" ∷ []) broken).0
unfolding lookup contains
recover_all_interfaces-verdict_example =
    recover_all_interfaces-verdict 1 one_of_two ("rf" ∷ "ip" ∷ []) broken refl (refl, (refl, tt))
      (machine CentralState.failed, refl, refl)

one_recovers : successes one_of_two ("rf" ∷ "ip" ∷ []) ≡ 1
unfolding contains
one_recovers = refl

heartbeat_round-retries_example :
    let iids = failed_interfaces (λ _. false) broken.recovery_states in
    (contains "rf" iids ≡ needs_retry (λ _. false) "rf" (used_up "rf"))
    × ((heartbeat_round (λ _. false) broken).1 ≡ event_of iids)
    × (attempts "rf" (heartbeat_round (λ _. false) broken).0
        ≡ (if needs_retry (λ _. false) "rf" (used_up "rf") then max_recovery_attempts - 1 else 7))
unfolding lookup
heartbeat_round-retries_example =
    heartbeat_round-retries (λ _. false) "rf" (used_up "rf") broken refl refl (refl, (refl, tt))
      refl

recovered-has_one_attempt_example :
    let d = (recover_all_interfaces 1 (λ _. all_pass) ("rf" ∷ "ip" ∷ []) broken).0 in
    (central_state d ≡ some running)
    × (d.in_failed_state ≡ false)
    × ((call (tries no_rpc) "rf" d).1 ≡ exit returned)
    × Exhausted "rf" d (call (tries no_rpc) "rf" d).0.0
unfolding lookup contains
recovered-has_one_attempt_example =
    recovered-has_one_attempt 1 (λ _. all_pass) ("rf" ∷ "ip" ∷ []) (tries no_rpc) "rf" broken refl
      (refl, (refl, tt)) (machine CentralState.failed, refl, refl) refl refl refl refl

abbrev clientless : ℕ → Attempt
clientless k = record (tries all_pass) { has_client = false }

start_recovery-raised_example :
    (r : Out) × (start_recovery 8 clientless "rf" fresh ≡ some (r, raised))
    × (contains "rf" r.0.active_recoveries ≡ true)
    × (on_connection_lost "rf" r.0 ≡ (r.0, []))
    × (on_circuit_breaker_tripped "rf" r.0 ≡ (r.0, []))
unfolding can_retry lookup new_state
start_recovery-raised_example = start_recovery-raised 7 clientless "rf" fresh refl refl refl

-- A lost connection and a tripped breaker of one outage, before the first task runs.
two_recoveries :
    (on_connection_lost "rf" >> on_circuit_breaker_tripped "rf")
      (record fresh { has_incident_recorder = false })
    ≡ (
      record fresh { has_incident_recorder = false },
      create_task (recovery "rf") ∷ create_task (recovery "rf") ∷ [],
    )
unfolding on_connection_lost on_circuit_breaker_tripped
two_recoveries = refl

abbrev no_clients : CentralStateChangedEvent
no_clients = record {
  old_state = CentralState.initializing;
  new_state = CentralState.failed;
  trigger = some "no clients connected (start() completed)";
}

startup_failure-heartbeat_example :
    Retries (λ _. false) "ip" (on_central_state_changed ("rf" ∷ "ip" ∷ []) no_clients fresh).0
unfolding is_startup_failure contains
startup_failure-heartbeat_example =
    startup_failure-heartbeat ("rf" ∷ "ip" ∷ []) no_clients (λ _. false) "ip" fresh refl refl refl
      refl refl

-- The third attempt connects.
abbrev late : ℕ → Connection
late k = record { connected = eqb k 2; duration = 300 }

wait_for_port-Returns_example :
    (r : Bool × ℕ) × (wait_for_port 31 late 60000 0 ≡ some r) × (r.1 ≤ 30) × Waited late r
wait_for_port-Returns_example = wait_for_port-Returns 30 late 60000 (omega arith)

third_connects : wait_for_port 31 late 60000 0 ≡ some (true, 3)
unfolding wait_for_port
third_connects = refl
