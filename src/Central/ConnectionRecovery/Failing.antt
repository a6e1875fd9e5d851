-- ===== src/Central/ConnectionRecovery/Failing.antt =====
-- A call of a recovery that fails: the counted attempt, and the end of the retries.
use Prim.Native.String.{◌++◌ as append}
use aiohomematic.Prelude.{
  ◌≤◌, ℕ, suc, ◌≡◌, refl, sym, ap, subst, ◌∙◌, ◌⊎◌, inl, inr, String, true, false, none, some,
  arith, if_elim,
}
use aiohomematic.Prelude.Dict.{lookup, string_eq, erase}
use aiohomematic.Const.{CentralState, FailureReason, recovering}
use aiohomematic.Const as Const
use aiohomematic.Central.StateMachine.{Request}
use aiohomematic.Central.ConnectionRecovery.State.{
  max_recovery_attempts, InterfaceRecoveryState, can_retry, record_failure,
}
use aiohomematic.Central.ConnectionRecovery.{
  ConnectionRecoveryCoordinator, Out, ◌>>◌, put, transition_if, request, recovery_failed,
  handle_max_retries_reached, transition_to_failed, start_heartbeat_timer,
}
use aiohomematic.Central.ConnectionRecovery.Stages.{Ended, failure, execute_recovery_stages}
use aiohomematic.Central.ConnectionRecovery.Retries.{
  Attempt, Next, exit, again, returned, state_of, or_new, update, discard, begin, add_active, fail,
  conclude, attempt_stages, finally, call, emit_recovery_attempt,
}
use aiohomematic.Central.ConnectionRecovery.Parts.{
  with_states, Present, with_state-emit, put-Present, state_of-put, active_of, flag_of, states_of,
  shutdown_of, heartbeat_of,
}
use aiohomematic.Central.ConnectionRecovery.Kept.{execute-Keeps}
use aiohomematic.Central.ConnectionRecovery.Termination.{
  attempts, begin-attempts, failed-state, failed-frame,
}
use aiohomematic.Central.ConnectionRecovery.Progress.{plan, ending, execute-plan}
use aiohomematic.Central.ConnectionRecovery.Frames.{
  central_state, Recoverable, begin-Begun, erase-add_active, transition_if-frame,
  transition_if-from_recovering, with_machine,
}

-- Where the retries end.
pub record Failed (c d : ConnectionRecoveryCoordinator) : Type 0 where
  pub states : d.recovery_states ≡ c.recovery_states
  pub active : d.active_recoveries ≡ c.active_recoveries
  pub in_failed_state : d.in_failed_state ≡ true
  pub heartbeat : d.heartbeat_running ≡ true
  pub central : central_state d ≡ some Const.CentralState.failed

pub start_heartbeat_timer-on :
    (c : ConnectionRecoveryCoordinator)
    → (start_heartbeat_timer c).0 ≡ record c { heartbeat_running = true }
unfolding start_heartbeat_timer
start_heartbeat_timer-on c =
    if_elim (λ (r : Out). r.0 ≡ record c { heartbeat_running = true }) c.heartbeat_running
      (λ h. ap (λ b. record c { heartbeat_running = b }) h) (λ _. refl)

pub handle_max_retries_reached-Failed :
    (iid : String) (now : ℕ) (c : ConnectionRecoveryCoordinator)
    → central_state c ≡ some recovering
    → Failed c (handle_max_retries_reached iid now c).0
unfolding handle_max_retries_reached transition_to_failed
handle_max_retries_reached-Failed iid now c m =
    let c1 : ConnectionRecoveryCoordinator = record c { in_failed_state = true } in
    let q : Request = record (request (append "Max retries reached for " iid) now) {
      failure_reason = FailureReason.unknown;
      failure_interface_id = some iid;
    } in
    let c2 : ConnectionRecoveryCoordinator = (transition_if Const.CentralState.failed q c1).0 in
    let f : c2 ≡ with_machine c2.state_machine c1 =
      transition_if-frame Const.CentralState.failed q c1 in
    let s = transition_if-from_recovering Const.CentralState.failed q c1 m refl in
    subst (λ x. Failed c (start_heartbeat_timer x).0)
      (sym (with_state-emit iid (λ s. recovery_failed iid s.attempt_count s.current_stage) c2))
      (subst (Failed c) (sym (start_heartbeat_timer-on c2)) (record {
        states = ap states_of f;
        active = ap active_of f;
        in_failed_state = ap flag_of f;
        heartbeat = refl;
        central = s;
      }))

-- A call that counts a failure and goes on.
pub record Goes (iid : String) (c d : ConnectionRecoveryCoordinator) : Type 0 where
  pub count : attempts iid d ≡ suc (attempts iid c)
  pub more : can_retry (state_of iid d) ≡ true
  pub active : d.active_recoveries ≡ c.active_recoveries
  pub shutdown : d.shutdown ≡ c.shutdown
  pub flag : d.in_failed_state ≡ c.in_failed_state
  pub heartbeat : d.heartbeat_running ≡ c.heartbeat_running
  pub central : central_state d ≡ some recovering

-- A recovery that has given up.
pub record Exhausted (iid : String) (c d : ConnectionRecoveryCoordinator) : Type 0 where
  pub count : can_retry (state_of iid d) ≡ false
  pub active : d.active_recoveries ≡ erase iid c.active_recoveries
  pub in_failed_state : d.in_failed_state ≡ true
  pub heartbeat : d.heartbeat_running ≡ true
  pub central : central_state d ≡ some Const.CentralState.failed

-- The end of the attempts is that of the retries, in the coordinator `d` behind it.
abbrev Ends : String → (c d : ConnectionRecoveryCoordinator) → Out × Next → Type 0
Ends iid c d q =
    (q.1 ≡ exit returned) × Exhausted iid c d × (max_recovery_attempts ≤ suc (attempts iid c))

-- What becomes of a call that fails.
abbrev pub CallFails : String → ConnectionRecoveryCoordinator → Out × Next → Type 0
CallFails iid c q = ((q.1 ≡ again) × Goes iid (add_active iid c).0 q.0.0) ⊎ Ends iid c q.0.0 q

fail-outcome :
    (iid : String) (now : ℕ) (c : ConnectionRecoveryCoordinator)
    → Present iid c
    → central_state c ≡ some recovering
    → (((fail iid now c).1 ≡ again) × Goes iid c (fail iid now c).0.0)
      ⊎ Ends iid c (discard iid (fail iid now c).0.0).0 (fail iid now c)
unfolding fail record_failure can_retry
fail-outcome iid now c p m =
    let P : Out × Next → Type 0 =
      λ q. ((q.1 ≡ again) × Goes iid c q.0.0) ⊎ Ends iid c (discard iid q.0.0).0 q in
    let r : Out = (update iid (record_failure now) >> emit_recovery_attempt iid false) c in
    let f : r.0 ≡ with_states r.0.recovery_states c = failed-frame iid now c in
    let m' : central_state r.0 ≡ some recovering = ap central_state f ∙ m in
    let n : attempts iid r.0 ≡ suc (attempts iid c) =
      ap (λ (s : InterfaceRecoveryState). s.attempt_count) (failed-state iid now c p)
      ∙ omega arith in
    if_elim P (can_retry (state_of iid r.0))
      (λ h. inl (
        refl,
        record {
          count = n;
          more = h;
          active = ap active_of f;
          shutdown = ap shutdown_of f;
          flag = ap flag_of f;
          heartbeat = ap heartbeat_of f;
          central = m';
        },
      ))
      (λ h.
        let e = handle_max_retries_reached-Failed iid now r.0 m' in
        inr (
          refl,
          record {
            count = ap (λ x. can_retry (or_new iid (lookup iid x))) e.states ∙ h;
            active = ap (erase iid) (e.active ∙ ap active_of f);
            in_failed_state = e.in_failed_state;
            heartbeat = e.heartbeat;
            central = e.central;
          },
          ground (arith, h, n),
        ))

-- A coordinator between the begin of a call and its end.
record Like (iid : String) (c d : ConnectionRecoveryCoordinator) : Type 0 where
  count : attempts iid d ≡ attempts iid c
  active : d.active_recoveries ≡ (add_active iid c).0.active_recoveries
  shutdown : d.shutdown ≡ c.shutdown
  flag : d.in_failed_state ≡ c.in_failed_state
  heartbeat : d.heartbeat_running ≡ c.heartbeat_running

-- The `finally` behind it.
finally-outcome :
    (iid : String) (c d : ConnectionRecoveryCoordinator) (q : Out × Next)
    → Like iid c d
    → ((q.1 ≡ again) × Goes iid d q.0.0) ⊎ Ends iid d (discard iid q.0.0).0 q
    → CallFails iid c (finally iid q)
unfolding finally
finally-outcome iid c d (r, again) k (inl g) = inl (
  refl,
  record {
    count = g.1.count ∙ ap suc k.count;
    more = g.1.more;
    active = g.1.active ∙ k.active;
    shutdown = g.1.shutdown ∙ k.shutdown;
    flag = g.1.flag ∙ k.flag;
    heartbeat = g.1.heartbeat ∙ k.heartbeat;
    central = g.1.central;
  },
)
finally-outcome iid c d (r, again) k (inr x) = absurd (ground (arith, x.0))
finally-outcome iid c d (r, exit e) k (inl g) = absurd (ground (arith, g.0))
finally-outcome iid c d (r, exit e) k (inr x) = inr (
  x.0,
  record {
    count = x.1.count;
    active = x.1.active ∙ ap (erase iid) k.active ∙ erase-add_active iid c;
    in_failed_state = x.1.in_failed_state;
    heartbeat = x.1.heartbeat;
    central = x.1.central;
  },
  omega (arith, x.2, k.count),
)

-- The same in a call, behind its stages.
failed-outcome :
    (a : Attempt) (iid : String) (c : ConnectionRecoveryCoordinator) (r : Out)
    → Present iid r.0
    → central_state r.0 ≡ some recovering
    → Like iid c r.0
    → CallFails iid c (finally iid (conclude a iid r failure))
unfolding conclude finally
failed-outcome a iid c r p m k =
    finally-outcome iid c r.0 (conclude a iid r failure) k (fail-outcome iid a.now r.0 p m)

-- A call that may try, finds its client and fails in its stages.
pub call-outcome :
    (a : Attempt) (iid : String) (c : ConnectionRecoveryCoordinator)
    → c.shutdown ≡ false
    → can_retry (state_of iid c) ≡ true
    → Recoverable c
    → a.has_client ≡ true
    → ending (plan a.stages) ≡ failure
    → CallFails iid c (call a iid c)
unfolding call attempt_stages conclude
call-outcome a iid c l y m g s =
    let P : Out × Next → Type 0 = CallFails iid c in
    let c1 : ConnectionRecoveryCoordinator = put iid (state_of iid c) c in
    let b : ConnectionRecoveryCoordinator = (begin iid a.now c1).0 in
    let begun = begin-Begun iid a.now c1 in
    let ba = begin-attempts iid a.now c1 (put-Present iid (state_of iid c) c) in
    let q : Out × Ended = execute_recovery_stages iid a.stages b in
    let k = execute-Keeps iid a.stages b in
    let body : P (finally iid (conclude a iid q.0 q.1)) =
      subst (λ e. P (finally iid (conclude a iid q.0 e)))
        (sym ((execute-plan iid a.stages b ba.1).2 ∙ s))
        (failed-outcome a iid c q.0 (k.present ∙ ba.1)
          (ap (λ x. elim x [ none ↦ none | some m ↦ some m.state ]) k.state_machine
            ∙ begun.recovering m)
          (record {
            count =
                k.attempt_count
                ∙ ba.0
                ∙ ap (λ (s : InterfaceRecoveryState). s.attempt_count)
                    (state_of-put iid (state_of iid c) c);
            active = k.active_recoveries ∙ begun.active;
            shutdown = k.shutdown ∙ begun.shutdown;
            flag = k.in_failed_state ∙ begun.in_failed_state;
            heartbeat = k.heartbeat_running ∙ begun.heartbeat_running;
          })) in
    if_elim P c.shutdown (λ h. absurd (ground (arith, l, h)))
      (λ _.
        if_elim P (can_retry (state_of iid c))
          (λ _. if_elim P a.has_client (λ _. body) (λ h. absurd (ground (arith, g, h))))
          (λ h. absurd (ground (arith, y, h))))
