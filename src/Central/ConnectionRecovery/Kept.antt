-- ===== src/Central/ConnectionRecovery/Kept.antt =====
-- What the parts of a recovery leave alone.
use aiohomematic.Prelude.{
  ◌≡◌, refl, sym, ap, ◌∙◌, String, some, arith, is_some, if_elim, Bool-cases, inl, inr, subst,
  option_elim, if◌then◌else◌,
}
use aiohomematic.Prelude.Dict.{lookup, lookup-insert, string_eq, ◌==◌, has_key}
use aiohomematic.Central.ConnectionRecovery.State.{
  InterfaceRecoveryState, RecoveryStage, RecoveryStage-eq, cooldown, tcp_checking, rpc_checking,
  warming_up, stability_check, reconnecting, data_loading, recovered, transition_to_stage,
}
use aiohomematic.Central.ConnectionRecovery.{
  ConnectionRecoveryCoordinator, Out, Action, put, transition_stage,
}
use aiohomematic.Central.ConnectionRecovery.Stages.{
  Answer, passed, refused, raised, cancelled, Answers, Ended, Staged, stage, finish, check_stages,
  execute_recovery_stages, validation_stages, reconnect_stages,
}
use aiohomematic.Central.ConnectionRecovery.Retries.{or_new, state_of}
use aiohomematic.Central.ConnectionRecovery.Parts.{state_of-put, lookup-put}

-- The counts of an interface are those of before.
abbrev pub SameCounts : String → (c c' : ConnectionRecoveryCoordinator) → Type 0
SameCounts j c c' =
    (has_key j c'.recovery_states ≡ has_key j c.recovery_states)
    × ((state_of j c').attempt_count ≡ (state_of j c).attempt_count)

-- Between two moments of the stages of an interface's recovery: only the stage of that interface and
-- the list of its stages differ.
pub record Kept (iid : String) (c c' : ConnectionRecoveryCoordinator) : Type 0 where
  pub state_machine : c'.state_machine ≡ c.state_machine
  pub active_recoveries : c'.active_recoveries ≡ c.active_recoveries
  pub in_failed_state : c'.in_failed_state ≡ c.in_failed_state
  pub shutdown : c'.shutdown ≡ c.shutdown
  pub heartbeat_running : c'.heartbeat_running ≡ c.heartbeat_running
  pub present : has_key iid c'.recovery_states ≡ has_key iid c.recovery_states
  pub attempt_count : (state_of iid c').attempt_count ≡ (state_of iid c).attempt_count
  pub consecutive_failures :
      (state_of iid c').consecutive_failures ≡ (state_of iid c).consecutive_failures
  pub every : (j : String) → SameCounts j c c'

pub Kept-refl : (iid : String) (c : ConnectionRecoveryCoordinator) → Kept iid c c
Kept-refl iid c = record {
  state_machine = refl;
  active_recoveries = refl;
  in_failed_state = refl;
  shutdown = refl;
  heartbeat_running = refl;
  present = refl;
  attempt_count = refl;
  consecutive_failures = refl;
  every = λ j. (refl, refl);
}

pub Kept-trans :
    (iid : String) (c d e : ConnectionRecoveryCoordinator)
    → Kept iid c d
    → Kept iid d e
    → Kept iid c e
Kept-trans iid c d e p q = record {
  state_machine = q.state_machine ∙ p.state_machine;
  active_recoveries = q.active_recoveries ∙ p.active_recoveries;
  in_failed_state = q.in_failed_state ∙ p.in_failed_state;
  shutdown = q.shutdown ∙ p.shutdown;
  heartbeat_running = q.heartbeat_running ∙ p.heartbeat_running;
  present = q.present ∙ p.present;
  attempt_count = q.attempt_count ∙ p.attempt_count;
  consecutive_failures = q.consecutive_failures ∙ p.consecutive_failures;
  every = λ j. ((q.every j).0 ∙ (p.every j).0, (q.every j).1 ∙ (p.every j).1);
}

put-SameCounts :
    (iid j : String) (t : InterfaceRecoveryState) (c : ConnectionRecoveryCoordinator)
    → SameCounts iid c (put iid t c)
    → SameCounts j c (put iid t c)
put-SameCounts iid j t c same = elim (Bool-cases (iid == j)) [
  | inl h ↦ subst (λ k. SameCounts k c (put iid t c)) ((string_eq.equal_iff iid j).0 h) same
  | inr h ↦
      let e : lookup j (put iid t c).recovery_states ≡ lookup j c.recovery_states =
        lookup-insert iid j t c.recovery_states
        ∙ ap (λ b. if b then some t else lookup j c.recovery_states) h in
      (ap is_some e, ap (λ o. (or_new j o).attempt_count) e)
]

-- Writing back the state with the same counts.
put-Kept :
    (iid : String) (t : InterfaceRecoveryState) (c : ConnectionRecoveryCoordinator)
    → (s : InterfaceRecoveryState) → lookup iid c.recovery_states ≡ some s
    → t.attempt_count ≡ s.attempt_count
    → t.consecutive_failures ≡ s.consecutive_failures
    → Kept iid c (put iid t c)
put-Kept iid t c s e a f =
    let count : (state_of iid (put iid t c)).attempt_count ≡ (state_of iid c).attempt_count =
      ap (λ (u : InterfaceRecoveryState). u.attempt_count) (state_of-put iid t c)
      ∙ a
      ∙ sym (ap (λ o. (or_new iid o).attempt_count) e) in
    let there : has_key iid (put iid t c).recovery_states ≡ has_key iid c.recovery_states =
      ap is_some (lookup-put iid t c) ∙ sym (ap is_some e) in
    record {
      state_machine = refl;
      active_recoveries = refl;
      in_failed_state = refl;
      shutdown = refl;
      heartbeat_running = refl;
      present = there;
      attempt_count = count;
      consecutive_failures =
          ap (λ (u : InterfaceRecoveryState). u.consecutive_failures) (state_of-put iid t c)
          ∙ f
          ∙ sym (ap (λ o. (or_new iid o).consecutive_failures) e);
      every = λ j. put-SameCounts iid j t c (there, count);
    }

pub transition_stage-Kept :
    (iid : String) (new : RecoveryStage) (c : ConnectionRecoveryCoordinator)
    → Kept iid c (transition_stage iid new c).0
unfolding transition_stage transition_to_stage
transition_stage-Kept iid new c =
    option_elim (λ (r : Out). Kept iid c r.0) (lookup iid c.recovery_states) (λ _. Kept-refl iid c)
      (λ s e.
        if_elim (λ (f : Action). Kept iid c (f c).0) (s.current_stage == new) (λ _. Kept-refl iid c)
          (λ _. put-Kept iid (transition_to_stage new s) c s e (ground arith) (ground arith)))

-- A continuation of the stages keeps it too.
abbrev Keeps : String → Staged → Type 0
Keeps iid f = (c : ConnectionRecoveryCoordinator) → Kept iid c (f c).0.0

stage-Keeps :
    (iid : String) (new : RecoveryStage) (answer : Answer) (rest : Staged)
    → Keeps iid rest
    → Keeps iid (stage iid new answer rest)
unfolding stage
stage-Keeps iid new passed rest k c =
    Kept-trans iid c _ _ (transition_stage-Kept iid new c) (k (transition_stage iid new c).0)
stage-Keeps iid new refused rest k c = transition_stage-Kept iid new c
stage-Keeps iid new raised rest k c = transition_stage-Kept iid new c
stage-Keeps iid new cancelled rest k c = transition_stage-Kept iid new c

finish-Keeps : (iid : String) → Keeps iid (finish iid)
unfolding finish
finish-Keeps iid c = transition_stage-Kept iid recovered c

reconnect_stages-Keeps : (iid : String) (a : Answers) → Keeps iid (reconnect_stages iid a)
unfolding reconnect_stages
reconnect_stages-Keeps iid a =
    let load : Staged = stage iid data_loading a.data_load (finish iid) in
    stage-Keeps iid reconnecting a.reconnect load
      (stage-Keeps iid data_loading a.data_load (finish iid) (finish-Keeps iid))

validation_stages-Keeps : (iid : String) (a : Answers) → Keeps iid (validation_stages iid a)
unfolding validation_stages
validation_stages-Keeps iid a =
    let stable : Staged = stage iid stability_check a.stability_check (reconnect_stages iid a) in
    let warm : Staged = stage iid warming_up a.warm_up stable in
    stage-Keeps iid rpc_checking a.rpc_check warm (
      stage-Keeps iid warming_up a.warm_up stable (
        stage-Keeps iid stability_check a.stability_check (reconnect_stages iid a)
          (reconnect_stages-Keeps iid a)))

check_stages-Keeps : (iid : String) (a : Answers) → Keeps iid (check_stages iid a)
unfolding check_stages
check_stages-Keeps iid a =
    if_elim (Keeps iid) a.client_exists (λ _. validation_stages-Keeps iid a)
      (λ _. reconnect_stages-Keeps iid a)

pub execute-Keeps : (iid : String) (a : Answers) → Keeps iid (execute_recovery_stages iid a)
unfolding execute_recovery_stages
execute-Keeps iid a c =
    if_elim (λ (r : Out × Ended). Kept iid c r.0.0) (has_key iid c.recovery_states)
      (λ _.
        stage-Keeps iid cooldown a.cooldown
          (stage iid tcp_checking a.tcp_check (check_stages iid a))
          (stage-Keeps iid tcp_checking a.tcp_check (check_stages iid a) (check_stages-Keeps iid a))
          c)
      (λ _. Kept-refl iid c)
