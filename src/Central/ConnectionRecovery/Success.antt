-- ===== src/Central/ConnectionRecovery/Success.antt =====
-- A recovery that succeeds.
use aiohomematic.Prelude.{
  ℕ, suc, ◌≡◌, refl, sym, ap, subst, ◌∙◌, String, true, false, Option, none, some, List, [], ◌∷◌,
  arith, if_elim,
}
use aiohomematic.Prelude.Dict.{lookup, string_eq, contains, erase, Distinct}
use aiohomematic.Const.{running, recovering}
use aiohomematic.Central.StateMachine.{can_transition_to, attempt}
use aiohomematic.Central.ConnectionRecovery.State.{
  InterfaceRecoveryState, idle, can_retry, record_success, reset,
}
use aiohomematic.Central.ConnectionRecovery.{
  ConnectionRecoveryCoordinator, Out, in_recovery, transition_after_recovery, transition_to_running,
  transition_if, stop_heartbeat_timer, put, recovery_completed, create_task,
  record_connection_restored_incident,
}
use aiohomematic.Central.ConnectionRecovery.Stages.{Ended, success, execute_recovery_stages}
use aiohomematic.Central.ConnectionRecovery.Retries.{
  Attempt, Wait, over, stopped, Exit, Next, exit, returned, state_of, or_new, discard, update,
  begin, succeed, conclude, attempt_stages, finally, call, start_recovery, continue,
  emit_recovery_completed, record_connection_restored,
}
use aiohomematic.Central.ConnectionRecovery.Parts.{
  with_states, update-frame, Present, state_of-update, update-Present, with_state-emit, put-Present,
  active_of, heartbeat_of, flag_of,
}
use aiohomematic.Central.ConnectionRecovery.Kept.{execute-Keeps}
use aiohomematic.Central.ConnectionRecovery.Termination.{begin-attempts}
use aiohomematic.Central.ConnectionRecovery.Progress.{plan, ending, execute-plan}
use aiohomematic.Central.ConnectionRecovery.Frames.{
  central_state, Recoverable, begin-Begun, erase-add_active, erase_twice,
}

pub record_connection_restored-same :
    (iid : String) (c : ConnectionRecoveryCoordinator) → (record_connection_restored iid c).0 ≡ c
unfolding record_connection_restored
record_connection_restored-same iid c =
    if_elim (λ (r : Out). r.0 ≡ c) c.has_incident_recorder
      (λ _.
        with_state-emit iid
          (λ s. create_task (
            record_connection_restored_incident iid s.attempt_count s.stages_completed
              c.in_failed_state))
          c)
      (λ _. refl)

pub emit_recovery_completed-same :
    (iid : String) (c : ConnectionRecoveryCoordinator) → (emit_recovery_completed iid c).0 ≡ c
unfolding emit_recovery_completed
emit_recovery_completed-same iid c =
    with_state-emit iid (λ s. recovery_completed iid s.attempt_count s.stages_completed) c

-- Behind a recovery of an interface: with no other recovery active the central runs and the heartbeat
-- is off; with another one active the central is still recovering.
pub record Recovered (iid : String) (c d : ConnectionRecoveryCoordinator) : Type 0 where
  pub attempts : (state_of iid d).attempt_count ≡ 0
  pub failures : (state_of iid d).consecutive_failures ≡ 0
  pub stage : (state_of iid d).current_stage ≡ idle
  pub stages : (state_of iid d).stages_completed ≡ []
  pub active : d.active_recoveries ≡ erase iid c.active_recoveries
  pub alone :
      erase iid c.active_recoveries ≡ []
      → (central_state d ≡ some running)
        × (d.in_failed_state ≡ false)
        × (d.heartbeat_running ≡ false)
  pub others :
      (i : String) (is : List String)
      → erase iid c.active_recoveries ≡ i ∷ is
      → (central_state d ≡ some recovering)
        × (d.in_failed_state ≡ c.in_failed_state)
        × (d.heartbeat_running ≡ c.heartbeat_running)

pub after-same :
    (now : ℕ) (d : ConnectionRecoveryCoordinator)
    → ((transition_after_recovery now d).0.recovery_states ≡ d.recovery_states)
      × ((transition_after_recovery now d).0.active_recoveries ≡ d.active_recoveries)
unfolding transition_after_recovery transition_to_running transition_if stop_heartbeat_timer
after-same now d = ground arith

after-alone :
    (now : ℕ) (d : ConnectionRecoveryCoordinator)
    → central_state d ≡ some recovering
    → d.active_recoveries ≡ []
    → (central_state (transition_after_recovery now d).0 ≡ some running)
      × ((transition_after_recovery now d).0.in_failed_state ≡ false)
      × ((transition_after_recovery now d).0.heartbeat_running ≡ false)
unfolding transition_after_recovery transition_to_running transition_if can_transition_to attempt
    stop_heartbeat_timer in_recovery contains
after-alone now d m a = ground (arith, m, a)

after-others :
    (now : ℕ) (d : ConnectionRecoveryCoordinator) (i : String) (is : List String)
    → central_state d ≡ some recovering
    → d.active_recoveries ≡ i ∷ is
    → (transition_after_recovery now d).0 ≡ d
unfolding transition_after_recovery in_recovery
after-others now d i is m a = ground (arith, m, a)

-- The end of a recovery, in the coordinator without it.
after-Recovered :
    (iid : String) (now : ℕ) (c d : ConnectionRecoveryCoordinator)
    → central_state d ≡ some recovering
    → d.active_recoveries ≡ erase iid c.active_recoveries
    → d.in_failed_state ≡ c.in_failed_state
    → d.heartbeat_running ≡ c.heartbeat_running
    → (s : InterfaceRecoveryState) → state_of iid d ≡ reset s
    → Recovered iid c (transition_after_recovery now d).0
unfolding reset
after-Recovered iid now c d m a f h s e =
    let e' : state_of iid (transition_after_recovery now d).0 ≡ reset s =
      ap (λ x. or_new iid (lookup iid x)) (after-same now d).0 ∙ e in
    record {
      attempts = ap (λ (x : InterfaceRecoveryState). x.attempt_count) e';
      failures = ap (λ (x : InterfaceRecoveryState). x.consecutive_failures) e';
      stage = ap (λ (x : InterfaceRecoveryState). x.current_stage) e';
      stages = ap (λ (x : InterfaceRecoveryState). x.stages_completed) e';
      active = (after-same now d).1 ∙ a;
      alone = λ z. after-alone now d m (a ∙ z);
      others = λ i is z.
          let same = after-others now d i is m (a ∙ z) in
          (ap central_state same ∙ m, ap flag_of same ∙ f, ap heartbeat_of same ∙ h);
    }

-- What the end of a recovery makes of the coordinator behind the stages.
succeed-Recovered :
    (iid : String) (now : ℕ) (c d : ConnectionRecoveryCoordinator)
    → Present iid d
    → central_state d ≡ some recovering
    → erase iid d.active_recoveries ≡ erase iid c.active_recoveries
    → d.in_failed_state ≡ c.in_failed_state
    → d.heartbeat_running ≡ c.heartbeat_running
    → Recovered iid c (succeed iid now d).0
unfolding succeed
succeed-Recovered iid now c d p m a f h =
    let u : ConnectionRecoveryCoordinator = (update iid (record_success now) d).0 in
    let v : ConnectionRecoveryCoordinator = (update iid reset u).0 in
    let du : u ≡ with_states u.recovery_states d = update-frame iid (record_success now) d in
    let uv : v ≡ with_states v.recovery_states u = update-frame iid reset u in
    let end : ConnectionRecoveryCoordinator → ConnectionRecoveryCoordinator = λ x.
      record (update iid reset x).0 {
        active_recoveries = erase iid (update iid reset x).0.active_recoveries;
      } in
    let same : (emit_recovery_completed iid (record_connection_restored iid u).0).0 ≡ u =
      emit_recovery_completed-same iid _ ∙ record_connection_restored-same iid u in
    subst (λ x. Recovered iid c (transition_after_recovery now (end x)).0) (sym same)
      (after-Recovered iid now c (end u) (ap central_state uv ∙ ap central_state du ∙ m)
        (ap (λ x. erase iid (active_of x)) uv ∙ ap (λ x. erase iid (active_of x)) du ∙ a)
        (ap flag_of uv ∙ ap flag_of du ∙ f) (ap heartbeat_of uv ∙ ap heartbeat_of du ∙ h)
        (state_of iid u)
        (state_of-update iid reset u (update-Present iid (record_success now) d p)))

-- Discarding the interface once more.
discard-Recovered :
    (iid : String) (c d : ConnectionRecoveryCoordinator)
    → Distinct c.active_recoveries
    → Recovered iid c d
    → Recovered iid c (discard iid d).0
discard-Recovered iid c d u r = record {
  attempts = r.attempts;
  failures = r.failures;
  stage = r.stage;
  stages = r.stages;
  active = ap (erase iid) r.active ∙ erase_twice iid c.active_recoveries u;
  alone = r.alone;
  others = r.others;
}

call-Recovered :
    (a : Attempt) (iid : String) (c : ConnectionRecoveryCoordinator)
    → c.shutdown ≡ false
    → can_retry (state_of iid c) ≡ true
    → Distinct c.active_recoveries
    → Recoverable c
    → a.has_client ≡ true
    → ending (plan a.stages) ≡ success
    → ((call a iid c).1 ≡ exit returned) × Recovered iid c (call a iid c).0.0
unfolding call attempt_stages conclude finally
call-Recovered a iid c l y u m g s =
    let P : Out × Next → Type 0 = λ q. (q.1 ≡ exit returned) × Recovered iid c q.0.0 in
    let c1 : ConnectionRecoveryCoordinator = put iid (state_of iid c) c in
    let b : ConnectionRecoveryCoordinator = (begin iid a.now c1).0 in
    let begun = begin-Begun iid a.now c1 in
    let p = (begin-attempts iid a.now c1 (put-Present iid (state_of iid c) c)).1 in
    let q : Out × Ended = execute_recovery_stages iid a.stages b in
    let k = execute-Keeps iid a.stages b in
    let done : Recovered iid c (succeed iid a.now q.0.0).0 =
      succeed-Recovered iid a.now c q.0.0 (k.present ∙ p)
        (ap (λ x. elim x [ none ↦ none | some m ↦ some m.state ]) k.state_machine
          ∙ begun.recovering m)
        (ap (erase iid) (k.active_recoveries ∙ begun.active) ∙ erase-add_active iid c1)
        (k.in_failed_state ∙ begun.in_failed_state)
        (k.heartbeat_running ∙ begun.heartbeat_running) in
    let body : P (finally iid (conclude a iid q.0 q.1)) =
      subst (λ e. P (finally iid (conclude a iid q.0 e)))
        (sym ((execute-plan iid a.stages b p).2 ∙ s)) (refl, discard-Recovered iid c _ u done) in
    if_elim P c.shutdown (λ h. absurd (ground (arith, l, h)))
      (λ _.
        if_elim P (can_retry (state_of iid c))
          (λ _. if_elim P a.has_client (λ _. body) (λ h. absurd (ground (arith, g, h))))
          (λ h. absurd (ground (arith, y, h))))

-- A call that ends is all that is done.
pub continue-exit :
    (iid : String) (wait : Wait) (f : ConnectionRecoveryCoordinator → Option (Out × Exit))
    → (q : Out × Next) (e : Exit) → q.1 ≡ exit e
    → continue iid wait f q ≡ some (q.0, e)
unfolding continue
continue-exit iid over f q e h = ap (λ x. continue iid over f (q.0, x)) h
continue-exit iid stopped f q e h = ap (λ x. continue iid stopped f (q.0, x)) h
continue-exit iid Wait.cancelled f q e h = ap (λ x. continue iid Wait.cancelled f (q.0, x)) h

-- A recovery that starts while the coordinator is not shut down and attempts are left, finds its client
-- and passes all its stages, returns on its first call. Its counts are cleared and it is no longer
-- active; the central runs, is not in the failed state and has no heartbeat if no other recovery is
-- active, and keeps recovering otherwise. The active set holds no interface twice, and the central is
-- in one of the states from which it recovers.
pub start_recovery-Recovered :
    (n : ℕ) (w : ℕ → Attempt) (iid : String) (c : ConnectionRecoveryCoordinator)
    → c.shutdown ≡ false
    → can_retry (state_of iid c) ≡ true
    → Distinct c.active_recoveries
    → Recoverable c
    → (w 0).has_client ≡ true
    → ending (plan (w 0).stages) ≡ success
    → (r : Out) × (start_recovery (suc n) w iid c ≡ some (r, returned)) × Recovered iid c r.0
unfolding start_recovery
start_recovery-Recovered n w iid c l y u m g s =
    let e = call-Recovered (w 0) iid c l y u m g s in
    (
      (call (w 0) iid c).0,
      continue-exit iid (w 0).wait (start_recovery n (λ k. w (suc k)) iid) (call (w 0) iid c)
          returned e.0,
      e.1,
    )
