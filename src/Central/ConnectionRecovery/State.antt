-- ===== src/Central/ConnectionRecovery/State.antt =====
-- aiohomematic/central/coordinators/connection_recovery.py: InterfaceRecoveryState, what is kept of
-- the recovery of one interface, and the constants of the retries. RecoveryStage is of
-- aiohomematic/const.py.
--
-- The clock is an argument. When a stage was entered, and the durations computed from it and from the
-- start of the recovery, are left out: they go into the published events only.
use aiohomematic.Prelude.{
  ℕ, zero, suc, ◌+◌, ◌-◌, ◌*◌, ◌≡◌, ◌↔◌, Bool, true, Option, none, some, List, [], ◌∷◌, ◌++◌,
  String, arith, ltb, eqb, if◌then◌else◌,
}
use aiohomematic.Prelude.Dict.{Hashable, contains}

pub data RecoveryStage : Type 0 where
  idle detecting cooldown tcp_checking rpc_checking warming_up : RecoveryStage
  stability_check reconnecting data_loading recovered failed heartbeat : RecoveryStage

-- The position in the enumeration, by which members are compared.
abbrev pub stage_index : RecoveryStage → ℕ
stage_index idle = 0
stage_index detecting = 1
stage_index cooldown = 2
stage_index tcp_checking = 3
stage_index rpc_checking = 4
stage_index warming_up = 5
stage_index stability_check = 6
stage_index reconnecting = 7
stage_index data_loading = 8
stage_index recovered = 9
stage_index failed = 10
stage_index heartbeat = 11

pub stage_index_iff : (s t : RecoveryStage) → (eqb (stage_index s) (stage_index t) ≡ true) ↔ (s ≡ t)
stage_index_iff s t = ground arith

instance abbrev pub RecoveryStage-eq : Hashable RecoveryStage
RecoveryStage-eq = record {
  equal = λ s t. eqb (stage_index s) (stage_index t);
  equal_iff = stage_index_iff;
}

abbrev pub max_recovery_attempts : ℕ
max_recovery_attempts = 8

-- seconds
abbrev pub base_retry_delay : ℕ
base_retry_delay = 5

abbrev pub max_retry_delay : ℕ
max_retry_delay = 60

pub record InterfaceRecoveryState : Type 0 where
  pub interface_id : String
  pub attempt_count : ℕ
  pub last_attempt : Option ℕ
  pub last_success : Option ℕ
  pub consecutive_failures : ℕ
  pub current_stage : RecoveryStage
  pub stages_completed : List RecoveryStage
  pub recovery_start_time : Option ℕ

-- the defaults of the fields
unfoldable pub new_state : String → InterfaceRecoveryState
new_state iid = record {
  interface_id = iid;
  attempt_count = 0;
  last_attempt = none;
  last_success = none;
  consecutive_failures = 0;
  current_stage = idle;
  stages_completed = [];
  recovery_start_time = none;
}

unfoldable pub can_retry : InterfaceRecoveryState → Bool
can_retry s = ltb s.attempt_count max_recovery_attempts

-- `2 ** n`
abbrev pub pow2 : ℕ → ℕ
pow2 zero = 1
pow2 (suc n) = 2 * pow2 n

-- The delay behind `n` consecutive failures.
unfoldable pub next_retry_delay : InterfaceRecoveryState → ℕ
next_retry_delay s =
    if eqb s.consecutive_failures 0
    then base_retry_delay
    else (let delay = base_retry_delay * pow2 (s.consecutive_failures - 1) in
        if ltb delay max_retry_delay then delay else max_retry_delay)

unfoldable pub record_failure : ℕ → InterfaceRecoveryState → InterfaceRecoveryState
record_failure now s = record s {
  consecutive_failures = s.consecutive_failures + 1;
  last_attempt = some now;
  attempt_count = s.attempt_count + 1;
}

unfoldable pub record_success : ℕ → InterfaceRecoveryState → InterfaceRecoveryState
record_success now s = record s {
  consecutive_failures = 0;
  last_success = some now;
  last_attempt = some now;
  attempt_count = s.attempt_count + 1;
}

unfoldable pub reset : InterfaceRecoveryState → InterfaceRecoveryState
reset s = record s {
  attempt_count = 0;
  consecutive_failures = 0;
  current_stage = idle;
  stages_completed = [];
  recovery_start_time = none;
}

unfoldable pub start_recovery : ℕ → InterfaceRecoveryState → InterfaceRecoveryState
start_recovery now s = record s { recovery_start_time = some now; stages_completed = [] }

unfoldable pub transition_to_stage : RecoveryStage → InterfaceRecoveryState → InterfaceRecoveryState
unfolding contains
transition_to_stage new s = record s {
  stages_completed =
      if contains s.current_stage (idle ∷ recovered ∷ failed ∷ [])
      then s.stages_completed
      else s.stages_completed ++ s.current_stage ∷ [];
  current_stage = new;
}
