-- ===== src/Central/ConnectionRecovery/Stages.antt =====
-- connection_recovery.py: `_execute_recovery_stages`, on what the outside answers to each stage.
use aiohomematic.Prelude.{Bool, String, ◌++◌, if◌then◌else◌}
use aiohomematic.Prelude.Dict.{has_key, lookup, string_eq}
use aiohomematic.Central.ConnectionRecovery.State.{RecoveryStage}
use aiohomematic.Central.ConnectionRecovery.{
  ConnectionRecoveryCoordinator, Out, skip, transition_stage,
}

-- How the await of a stage ends.
pub data Answer : Type 0 where
  passed refused raised cancelled : Answer

-- What the outside answers to the stages of one recovery. A wait passes or is cancelled.
pub record Answers : Type 0 where
  pub client_exists : Bool
  pub cooldown : Answer
  pub tcp_check : Answer
  pub rpc_check : Answer
  pub warm_up : Answer
  pub stability_check : Answer
  pub reconnect : Answer
  pub data_load : Answer

pub data Ended : Type 0 where
  success failure cancelled : Ended

abbrev pub Staged : Type 0
Staged = ConnectionRecoveryCoordinator → Out × Ended

-- Enter a stage, await it, and go on if it passes. An exception counts as a failure.
unfoldable pub stage : String → RecoveryStage → Answer → Staged → Staged
unfolding transition_stage
stage iid new answer rest c =
    let r = transition_stage iid new c in
    elim answer [
      | passed ↦ (((rest r.0).0.0, r.1 ++ (rest r.0).0.1), (rest r.0).1)
      | cancelled ↦ (r, Ended.cancelled)
      | _ ↦ (r, failure)
    ]

unfoldable pub finish : String → Staged
unfolding transition_stage
finish iid c = (transition_stage iid RecoveryStage.recovered c, success)

unfoldable pub reconnect_stages : String → Answers → Staged
unfolding stage finish
reconnect_stages iid a =
    stage iid RecoveryStage.reconnecting a.reconnect
      (stage iid RecoveryStage.data_loading a.data_load (finish iid))

unfoldable pub validation_stages : String → Answers → Staged
unfolding stage reconnect_stages
validation_stages iid a = stage iid RecoveryStage.rpc_checking a.rpc_check (
    stage iid RecoveryStage.warming_up a.warm_up
      (stage iid RecoveryStage.stability_check a.stability_check (reconnect_stages iid a)))

-- The stages behind the TCP check.
unfoldable pub check_stages : String → Answers → Staged
unfolding validation_stages reconnect_stages
check_stages iid a = if a.client_exists then validation_stages iid a else reconnect_stages iid a

unfoldable pub execute_recovery_stages : String → Answers → Staged
unfolding stage check_stages lookup
execute_recovery_stages iid a c =
    if has_key iid c.recovery_states
    then stage iid RecoveryStage.cooldown a.cooldown
        (stage iid RecoveryStage.tcp_checking a.tcp_check (check_stages iid a)) c
    else (skip c, failure)
