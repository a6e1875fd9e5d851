-- ===== src/Central/ConnectionRecovery/Handlers.antt =====
-- connection_recovery.py: the handlers of events, the heartbeat and the recovery of many interfaces.
--
-- The recoveries that `_recover_all_interfaces` gathers run one behind the other here; each changes
-- the recovery state of its own interface only. What the task scheduler does with a created task is
-- not part of the coordinator.
use text.Mathlib.Text.{starts_with}
use aiohomematic.Prelude.{
  ℕ, suc, ◌-◌, String, Bool, true, false, not, ◌&&◌, ◌||◌, Option, none, some, List, [], ◌∷◌, ◌++◌,
  if◌then◌else◌, ltb, eqb,
}
use aiohomematic.Prelude.Lists.{length}
use aiohomematic.Prelude.Dict.{Dict, lookup, insert, contains, erase, has_key, ◌==◌, string_eq}
use aiohomematic.Const.{CentralState, CentralState-eq, initializing, failed}
use aiohomematic.Client.CircuitBreaker.{CircuitState, state_beq, half_open, closed}
use aiohomematic.Central.ConnectionRecovery.State.{
  InterfaceRecoveryState, new_state, can_retry, max_recovery_attempts,
}
use aiohomematic.Central.ConnectionRecovery.{
  ConnectionRecoveryCoordinator, Out, Action, heartbeat_timer_fired, create_task, recovery,
  heartbeat_recovery, recovery_refresh, record_connection_lost_incident, follow, ◌>>◌, skip, modify,
  emit, put, start_heartbeat_timer, transition_to_recovering, transition_to_running,
  transition_to_degraded,
}
use aiohomematic.Central.ConnectionRecovery.Stages.{
  Answers, Ended, success, execute_recovery_stages,
}
use aiohomematic.Central.ConnectionRecovery.Retries.{add_active, discard, update}

-- `CentralStateChangedEvent`, what is read of it
pub record CentralStateChangedEvent : Type 0 where
  pub old_state : CentralState
  pub new_state : CentralState
  pub trigger : Option String

-- A recovery state for each configured interface without one.
unfoldable pub ensure_states :
    List String → ConnectionRecoveryCoordinator → ConnectionRecoveryCoordinator
unfolding lookup insert new_state
ensure_states [] c = c
ensure_states (iid ∷ iids) c =
    ensure_states iids (if has_key iid c.recovery_states then c else put iid (new_state iid) c)

-- "no clients connected" at the begin of the trigger
unfoldable pub is_startup_failure : CentralStateChangedEvent → Bool
is_startup_failure e =
    e.old_state == initializing
    && elim e.trigger [ none ↦ false | some t ↦ starts_with t "no clients connected" ]

unfoldable pub on_central_state_changed : List String → CentralStateChangedEvent → Action
unfolding start_heartbeat_timer ensure_states is_startup_failure
on_central_state_changed configured e c =
    if c.shutdown
    then skip c
    else if not (e.new_state == failed)
    then skip c
    else if is_startup_failure e
    then (modify (λ c. record c { in_failed_state = true })
          >> start_heartbeat_timer
          >> modify (ensure_states configured))
        c
    else skip c

unfoldable pub on_circuit_breaker_state_changed : String → CircuitState → CircuitState → Action
on_circuit_breaker_state_changed iid old new c =
    if c.shutdown
    then skip c
    else if state_beq old half_open && state_beq new closed
    then emit (create_task (recovery_refresh iid)) c
    else skip c

unfoldable pub on_circuit_breaker_tripped : String → Action
unfolding contains
on_circuit_breaker_tripped iid c =
    if c.shutdown
    then skip c
    else if contains iid c.active_recoveries
    then skip c
    else emit (create_task (recovery iid)) c

unfoldable pub record_connection_lost : String → Action
record_connection_lost iid c =
    if c.has_incident_recorder
    then emit (create_task (record_connection_lost_incident iid)) c
    else skip c

unfoldable pub on_connection_lost : String → Action
unfolding contains record_connection_lost
on_connection_lost iid c =
    if c.shutdown
    then skip c
    else if contains iid c.active_recoveries
    then skip c
    else (record_connection_lost iid >> emit (create_task (recovery iid))) c

unfoldable pub on_heartbeat_timer_fired : List String → Action
on_heartbeat_timer_fired iids c =
    if c.shutdown || not c.in_failed_state
    then skip c
    else emit (create_task (heartbeat_recovery iids)) c

-- The interfaces that the heartbeat retries: no attempts left, or no available client. `available`
-- is what the look-up of the client and its `available` answer, false where the look-up raises.
abbrev pub failed_interfaces : (String → Bool) → Dict String InterfaceRecoveryState → List String
failed_interfaces available [] = []
failed_interfaces available ((iid, s) ∷ d) =
    if not (can_retry s) || not (available iid)
    then iid ∷ failed_interfaces available d
    else failed_interfaces available d

-- One attempt more for each of them.
unfoldable pub allow_retry :
    List String → ConnectionRecoveryCoordinator → ConnectionRecoveryCoordinator
unfolding lookup insert
allow_retry [] c = c
allow_retry (iid ∷ iids) c =
    allow_retry iids (update iid (λ s. record s { attempt_count = max_recovery_attempts - 1 }) c).0

-- The event, if there is an interface to retry.
unfoldable pub fire : List String → Action
unfolding allow_retry
fire [] c = skip c
fire (iid ∷ iids) c = (allow_retry (iid ∷ iids) c, heartbeat_timer_fired (iid ∷ iids) ∷ [])

-- One round of `_heartbeat_loop`, from the end of its sleep; the task ends where its conditions fail.
unfoldable pub heartbeat_round : (String → Bool) → Action
unfolding can_retry fire
heartbeat_round available c =
    if not c.in_failed_state || c.shutdown
    then (record c { heartbeat_running = false }, [])
    else fire (failed_interfaces available c.recovery_states) c

abbrev pub add_all : List String → Action
add_all [] = skip
add_all (iid ∷ iids) = add_active iid >> add_all iids

abbrev pub discard_all : List String → Action
discard_all [] = skip
discard_all (iid ∷ iids) = discard iid >> discard_all iids

-- One more where a recovery ends in success.
abbrev pub count : Ended → ℕ → ℕ
count success n = suc n
count _ n = n

-- The recoveries, and how many of them succeed.
unfoldable pub gather : (String → Answers) → List String → ConnectionRecoveryCoordinator → Out × ℕ
unfolding execute_recovery_stages
gather answers [] c = (skip c, 0)
gather answers (iid ∷ iids) c =
    let q = execute_recovery_stages iid (answers iid) c in
    let rest = gather answers iids q.0.0 in ((rest.0.0, q.0.1 ++ rest.0.1), count q.1 rest.1)

-- What the number of successes means for the central.
unfoldable pub settle : ℕ → ℕ → ℕ → Action
unfolding transition_to_running transition_to_degraded
settle now total successes =
    if eqb successes total
    then modify (λ c. record c { in_failed_state = false }) >> transition_to_running now
    else if ltb 0 successes
    then transition_to_degraded now
    else skip

unfoldable pub recover_all_interfaces : ℕ → (String → Answers) → List String → Action
unfolding contains erase transition_to_recovering gather settle
recover_all_interfaces now answers iids c =
    if c.shutdown
    then skip c
    else (let r = (add_all iids >> transition_to_recovering now) c in
        let g = gather answers iids r.0 in
        follow (follow (g.0.0, r.1 ++ g.0.1) (discard_all iids)) (settle now (length iids) g.1))
