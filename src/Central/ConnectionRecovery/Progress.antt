-- ===== src/Central/ConnectionRecovery/Progress.antt =====
-- The stages that a recovery goes through, and the events that it publishes of them.
use mathlib.Core.List.{append-nil}
use aiohomematic.Prelude.{
  ◌+◌, ◌≡◌, refl, sym, ap, subst, ◌∙◌, String, Bool, true, false, some, List, [], ◌∷◌, ◌++◌, arith,
  option_elim, if◌then◌else◌,
}
use aiohomematic.Prelude.Dict.{lookup, contains, string_eq, ◌==◌}
use aiohomematic.Central.ConnectionRecovery.State.{
  InterfaceRecoveryState, RecoveryStage, RecoveryStage-eq, transition_to_stage, idle, cooldown,
  tcp_checking, rpc_checking, warming_up, stability_check, reconnecting, data_loading, recovered,
}
use aiohomematic.Central.ConnectionRecovery.{
  ConnectionRecoveryCoordinator, Out, Effect, recovery_stage_changed, transition_stage, skip,
  modify, put, emit, ◌>>◌,
}
use aiohomematic.Central.ConnectionRecovery.Stages.{
  Answer, passed, refused, raised, Answers, Ended, success, failure, Staged, stage, finish,
  reconnect_stages, validation_stages, check_stages, execute_recovery_stages,
}
use aiohomematic.Central.ConnectionRecovery.Retries.{state_of, or_new}
use aiohomematic.Central.ConnectionRecovery.Parts.{Present, state_of-put}
use aiohomematic.Central.ConnectionRecovery.Kept.{transition_stage-Kept}

-- The stages of a recovery in their order, with their answers: without a client the checks by RPC are
-- left out.
abbrev pub rest_of_plan : Bool → Answers → List (RecoveryStage × Answer)
rest_of_plan true a =
    (rpc_checking, a.rpc_check)
    ∷ (warming_up, a.warm_up)
    ∷ (stability_check, a.stability_check)
    ∷ (reconnecting, a.reconnect)
    ∷ (data_loading, a.data_load)
    ∷ []
rest_of_plan false a = (reconnecting, a.reconnect) ∷ (data_loading, a.data_load) ∷ []

abbrev pub plan : Answers → List (RecoveryStage × Answer)
plan a = (cooldown, a.cooldown) ∷ (tcp_checking, a.tcp_check) ∷ rest_of_plan a.client_exists a

-- The stages entered: up to the first that does not pass, and RECOVERED where all pass.
abbrev pub entered : List (RecoveryStage × Answer) → List RecoveryStage
entered [] = recovered ∷ []
entered ((s, passed) ∷ rest) = s ∷ entered rest
entered ((s, _) ∷ rest) = s ∷ []

-- How they end.
abbrev pub ending : List (RecoveryStage × Answer) → Ended
ending [] = success
ending ((s, passed) ∷ rest) = ending rest
ending ((s, Answer.cancelled) ∷ rest) = Ended.cancelled
ending ((s, _) ∷ rest) = failure

-- What leaving a stage adds to the completed ones.
abbrev pub left : RecoveryStage → List RecoveryStage
left idle = []
left recovered = []
left RecoveryStage.failed = []
left s = s ∷ []

abbrev pub moved : RecoveryStage → InterfaceRecoveryState → InterfaceRecoveryState
moved new s = record s {
  current_stage = new;
  stages_completed = s.stages_completed ++ left s.current_stage;
}

-- The state behind a stage that is entered; entering the current one changes nothing.
abbrev pub enter : RecoveryStage → InterfaceRecoveryState → InterfaceRecoveryState
enter new s = if s.current_stage == new then s else moved new s

transition_to_stage_lem :
    (new : RecoveryStage) (s : InterfaceRecoveryState) → transition_to_stage new s ≡ moved new s
unfolding transition_to_stage contains
transition_to_stage_lem new s = ground (arith, append-nil s.stages_completed)

-- The state behind entered stages, and the events: each names the stage left and the one entered.
abbrev pub walk : List RecoveryStage → InterfaceRecoveryState → InterfaceRecoveryState
walk [] s = s
walk (new ∷ stages) s = walk stages (enter new s)

abbrev pub stage_event : String → RecoveryStage → InterfaceRecoveryState → List Effect
stage_event iid new s =
    if s.current_stage == new
    then []
    else recovery_stage_changed iid s.current_stage new (s.attempt_count + 1) ∷ []

abbrev pub stage_events : String → List RecoveryStage → InterfaceRecoveryState → List Effect
stage_events iid [] s = []
stage_events iid (new ∷ stages) s = stage_event iid new s ++ stage_events iid stages (enter new s)

-- Both branches of a stage, where the interface has this state.
transition_stage-branch :
    (iid : String) (c : ConnectionRecoveryCoordinator) (s t : InterfaceRecoveryState) (e : Effect)
    → (b : Bool) → lookup iid c.recovery_states ≡ some s
    → (state_of iid ((if b then skip else modify (put iid t) >> emit e) c).0 ≡ (if b then s else t))
      × (((if b then skip else modify (put iid t) >> emit e) c).1 ≡ (if b then [] else e ∷ []))
transition_stage-branch iid c s t e true at = (ap (or_new iid) at, refl)
transition_stage-branch iid c s t e false at = (state_of-put iid t c, refl)

-- What a stage does to the state, with the event of it.
transition_stage-enter :
    (iid : String) (new : RecoveryStage) (c : ConnectionRecoveryCoordinator)
    → Present iid c
    → (state_of iid (transition_stage iid new c).0 ≡ enter new (state_of iid c))
      × ((transition_stage iid new c).1 ≡ stage_event iid new (state_of iid c))
unfolding transition_stage
transition_stage-enter iid new c p =
    option_elim
      (λ (r : Out).
        (state_of iid r.0 ≡ enter new (state_of iid c))
        × (r.1 ≡ stage_event iid new (state_of iid c)))
      (lookup iid c.recovery_states) (λ e. absurd (ground (arith, p, e)))
      (λ s e.
        subst
          (λ t.
            (state_of iid
                ((if s.current_stage == new
                    then skip
                    else modify (put iid (transition_to_stage new s))
                      >> emit
                          (recovery_stage_changed iid s.current_stage new (s.attempt_count + 1)))
                  c).0
              ≡ enter new t)
            × (((if s.current_stage == new
                    then skip
                    else modify (put iid (transition_to_stage new s))
                      >> emit
                          (recovery_stage_changed iid s.current_stage new (s.attempt_count + 1)))
                  c).1
                ≡ stage_event iid new t))
          (sym (ap (or_new iid) e))
          (let b =
              transition_stage-branch iid c s (transition_to_stage new s)
                (recovery_stage_changed iid s.current_stage new (s.attempt_count + 1))
                (s.current_stage == new) e in
            (
              b.0
                  ∙ ap (λ t. if s.current_stage == new then s else t)
                      (transition_to_stage_lem new s),
              b.1,
            )))

run_stages : String → List (RecoveryStage × Answer) → Staged
unfolding finish stage
run_stages iid [] = finish iid
run_stages iid ((s, x) ∷ rest) = stage iid s x (run_stages iid rest)

rest-run_stages :
    (iid : String) (a : Answers) (b : Bool)
    → (if b then validation_stages iid a else reconnect_stages iid a)
      ≡ run_stages iid (rest_of_plan b a)
unfolding validation_stages reconnect_stages run_stages
rest-run_stages iid a true = refl
rest-run_stages iid a false = refl

execute-run_stages :
    (iid : String) (a : Answers) (c : ConnectionRecoveryCoordinator)
    → Present iid c
    → execute_recovery_stages iid a c ≡ run_stages iid (plan a) c
unfolding execute_recovery_stages check_stages run_stages
execute-run_stages iid a c p =
    let run : Out × Ended =
      stage iid cooldown a.cooldown (stage iid tcp_checking a.tcp_check (check_stages iid a)) c in
    ap (λ b. if b then run else (skip c, failure)) p
    ∙ ap (λ rest. stage iid cooldown a.cooldown (stage iid tcp_checking a.tcp_check rest) c)
        (rest-run_stages iid a a.client_exists)

-- What is said of a run of stages.
abbrev pub Follows :
    String → List (RecoveryStage × Answer) → InterfaceRecoveryState → Out × Ended → Type 0
Follows iid stages s r =
    (state_of iid r.0.0 ≡ walk (entered stages) s)
    × (r.0.1 ≡ stage_events iid (entered stages) s)
    × (r.1 ≡ ending stages)

-- A stage that is the last.
stops :
    (iid : String) (new : RecoveryStage) (c : ConnectionRecoveryCoordinator) (ended : Ended)
    → Present iid c
    → (state_of iid (transition_stage iid new c).0 ≡ enter new (state_of iid c))
      × ((transition_stage iid new c).1 ≡ stage_event iid new (state_of iid c) ++ [])
      × (ended ≡ ended)
stops iid new c ended p =
    let e = transition_stage-enter iid new c p in (e.0, e.1 ∙ sym (append-nil _), refl)

run_stages-Follows :
    (iid : String) (stages : List (RecoveryStage × Answer)) (c : ConnectionRecoveryCoordinator)
    → Present iid c
    → Follows iid stages (state_of iid c) (run_stages iid stages c)
unfolding run_stages finish stage
run_stages-Follows iid [] c p = stops iid recovered c success p
run_stages-Follows iid ((s, passed) ∷ rest) c p =
    let e = transition_stage-enter iid s c p in
    let c' : ConnectionRecoveryCoordinator = (transition_stage iid s c).0 in
    let more = run_stages-Follows iid rest c' ((transition_stage-Kept iid s c).present ∙ p) in
    (
      more.0 ∙ ap (walk (entered rest)) e.0,
      ap (λ es. es ++ (run_stages iid rest c').0.1) e.1
          ∙ ap (λ es. stage_event iid s (state_of iid c) ++ es)
              (more.1 ∙ ap (stage_events iid (entered rest)) e.0),
      more.2,
    )
run_stages-Follows iid ((s, refused) ∷ rest) c p = stops iid s c failure p
run_stages-Follows iid ((s, raised) ∷ rest) c p = stops iid s c failure p
run_stages-Follows iid ((s, Answer.cancelled) ∷ rest) c p = stops iid s c Ended.cancelled p

-- A recovery of an interface with a recovery state enters COOLDOWN, TCP_CHECKING, with a client then
-- RPC_CHECKING, WARMING_UP and STABILITY_CHECK, and RECONNECTING and DATA_LOADING, up to the first that
-- does not pass, and RECOVERED if and only if all pass. Each stage entered becomes the current one, and
-- the one that it leaves is added to the completed ones, unless that is IDLE, RECOVERED or FAILED; an
-- event is published for each stage entered that is not the current one already. The recovery is a
-- success exactly when all pass, cancelled when the first that does not pass is cancelled, and
-- otherwise a failure.
pub execute-plan :
    (iid : String) (a : Answers) (c : ConnectionRecoveryCoordinator)
    → Present iid c
    → Follows iid (plan a) (state_of iid c) (execute_recovery_stages iid a c)
execute-plan iid a c p =
    subst (Follows iid (plan a) (state_of iid c)) (sym (execute-run_stages iid a c p))
      (run_stages-Follows iid (plan a) c p)
