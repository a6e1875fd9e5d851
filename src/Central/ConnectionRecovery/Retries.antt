-- ===== src/Central/ConnectionRecovery/Retries.antt =====
-- connection_recovery.py: `_start_recovery`, with its retries.
--
-- A call is cut where it would call itself again behind a sleep. The calls are made on fuel, each with
-- the answers of the outside to it.
use aiohomematic.Prelude.{
  ℕ, zero, suc, Bool, true, false, String, Option, none, some, [], ◌∷◌, ◌++◌, if◌then◌else◌,
}
use aiohomematic.Prelude.Dict.{lookup, insert, erase, contains, string_eq}
use aiohomematic.Central.ConnectionRecovery.State.{
  InterfaceRecoveryState, new_state, can_retry, next_retry_delay, record_failure, record_success,
  reset,
}
use aiohomematic.Central.ConnectionRecovery.State as State
use aiohomematic.Central.ConnectionRecovery.{
  ConnectionRecoveryCoordinator, Out, Action, recovery_attempted, recovery_completed,
  connection_state, clear_json_rpc_session, create_task, sleep, record_connection_restored_incident,
  stop, follow, ◌>>◌, skip, modify, emit, with_state, put, transition_to_recovering,
  handle_max_retries_reached, transition_after_recovery,
}
use aiohomematic.Central.ConnectionRecovery.Stages.{
  Answers, Ended, success, failure, execute_recovery_stages,
}

-- How the sleep before a retry ends: `stop` may be called while it lasts.
pub data Wait : Type 0 where
  over stopped cancelled : Wait

-- What the outside answers to one call: the time, whether `get_client` returns, the stages, the sleep.
pub record Attempt : Type 0 where
  pub now : ℕ
  pub has_client : Bool
  pub stages : Answers
  pub wait : Wait

-- How a call ends: it returns or raises; or it sleeps and tries again.
pub data Exit : Type 0 where
  returned raised cancelled : Exit

pub data Next : Type 0 where
  exit : Exit → Next
  again : Next

-- A change of the state object, which the dictionary shares.
abbrev pub update : String → (InterfaceRecoveryState → InterfaceRecoveryState) → Action
update iid f = with_state iid (λ s. modify (put iid (f s)))

abbrev pub discard : String → Action
discard iid = modify (λ c. record c { active_recoveries = erase iid c.active_recoveries })

-- `add` of a set
abbrev pub add_active : String → Action
add_active iid = modify (λ c. record c {
  active_recoveries =
      if contains iid c.active_recoveries
      then c.active_recoveries
      else c.active_recoveries ++ iid ∷ [];
})

-- The state of the interface, a new one where there is none.
abbrev pub or_new : String → Option InterfaceRecoveryState → InterfaceRecoveryState
or_new iid none = new_state iid
or_new iid (some s) = s

abbrev pub state_of : String → ConnectionRecoveryCoordinator → InterfaceRecoveryState
state_of iid c = or_new iid (lookup iid c.recovery_states)

unfoldable pub record_connection_restored : String → Action
unfolding lookup
record_connection_restored iid c =
    if c.has_incident_recorder
    then with_state iid
        (λ s. emit (
          create_task (
            record_connection_restored_incident iid s.attempt_count s.stages_completed
              c.in_failed_state)))
        c
    else skip c

unfoldable pub emit_recovery_attempt : String → Bool → Action
unfolding lookup
emit_recovery_attempt iid won =
    with_state iid (λ s. emit (recovery_attempted iid s.attempt_count s.current_stage won))

unfoldable pub emit_recovery_completed : String → Action
unfolding lookup
emit_recovery_completed iid =
    with_state iid (λ s. emit (recovery_completed iid s.attempt_count s.stages_completed))

-- Behind a recovery that succeeds.
unfoldable pub succeed : String → ℕ → Action
unfolding lookup insert erase record_success reset record_connection_restored
    emit_recovery_completed transition_after_recovery
succeed iid now =
    update iid (record_success now)
    >> record_connection_restored iid
    >> emit_recovery_completed iid
    >> update iid reset
    >> emit (connection_state iid true)
    >> discard iid
    >> transition_after_recovery now

-- Up to the look-up of the client.
unfoldable pub begin : String → ℕ → Action
unfolding lookup insert contains State.start_recovery transition_to_recovering
begin iid now =
    add_active iid
    >> update iid (State.start_recovery now)
    >> transition_to_recovering now
    >> emit (connection_state iid false)

-- Behind a recovery that fails: the count, and the end of the retries or the sleep.
unfoldable pub fail : String → ℕ → ConnectionRecoveryCoordinator → Out × Next
unfolding lookup insert record_failure emit_recovery_attempt handle_max_retries_reached new_state
    can_retry next_retry_delay
fail iid now c =
    let r = (update iid (record_failure now) >> emit_recovery_attempt iid false) c in
    if can_retry (state_of iid r.0)
    then (follow r (emit (sleep (next_retry_delay (state_of iid r.0)))), again)
    else (follow r (handle_max_retries_reached iid now), exit returned)

-- Behind the stages.
unfoldable pub conclude : Attempt → String → Out → Ended → Out × Next
unfolding succeed fail
conclude a iid r success = (follow r (succeed iid a.now), exit returned)
conclude a iid r failure = let f = fail iid a.now r.0 in ((f.0.0, r.1 ++ f.0.1), f.1)
conclude a iid r Ended.cancelled = (r, exit Exit.cancelled)

-- The body of the `try`.
unfoldable pub attempt_stages : Attempt → String → ConnectionRecoveryCoordinator → Out × Next
unfolding execute_recovery_stages conclude
attempt_stages a iid c = let q = execute_recovery_stages iid a.stages c in conclude a iid q.0 q.1

-- Its `finally`, where the call ends.
unfoldable pub finally : String → Out × Next → Out × Next
unfolding erase
finally iid (r, exit e) = (follow r (discard iid), exit e)
finally iid (r, again) = (r, again)

-- One call, up to the sleep before a retry. The look-up of the client stands before the `try`.
unfoldable pub call : Attempt → String → ConnectionRecoveryCoordinator → Out × Next
unfolding new_state lookup insert can_retry begin attempt_stages finally handle_max_retries_reached
call a iid c =
    if c.shutdown
    then (skip c, exit returned)
    else (let s = state_of iid c in
        if can_retry s
        then (let r = begin iid a.now (put iid s c) in
            if a.has_client
            then (let q = finally iid (attempt_stages a iid r.0) in
                ((q.0.0, r.1 ++ clear_json_rpc_session iid ∷ q.0.1), q.1))
            else (r, exit raised))
        else (handle_max_retries_reached iid a.now (put iid s c), exit returned))

-- What happens while the call sleeps.
unfoldable pub wake : Wait → Action
unfolding stop
wake stopped = stop
wake _ = skip

-- Behind the sleep the call calls itself again, and its `finally` follows.
unfoldable pub continue :
    String
    → Wait
    → (ConnectionRecoveryCoordinator → Option (Out × Exit))
    → Out × Next
    → Option (Out × Exit)
unfolding wake erase
continue iid wait next (r, exit e) = some (r, e)
continue iid Wait.cancelled next (r, again) = some (follow r (discard iid), Exit.cancelled)
continue iid wait next (r, again) =
    let r' = follow r (wake wait) in
    if r'.0.shutdown then some (follow r' (discard iid), returned) else elim (next r'.0) [
      | none ↦ none
      | some q ↦ some (follow (q.0.0, r'.1 ++ q.0.1) (discard iid), q.1)
    ]

unfoldable pub start_recovery :
    ℕ → (ℕ → Attempt) → String → ConnectionRecoveryCoordinator → Option (Out × Exit)
unfolding call continue
start_recovery zero w iid c = none
start_recovery (suc n) w iid c =
    continue iid (w 0).wait (start_recovery n (λ k. w (suc k)) iid) (call (w 0) iid c)
