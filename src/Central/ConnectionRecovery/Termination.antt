-- ===== src/Central/ConnectionRecovery/Termination.antt =====
-- The retries of a recovery end.
use aiohomematic.Prelude.{
  ℕ, zero, suc, ◌+◌, ◌≡◌, ◌≤◌, ◌<◌, refl, sym, ap, subst, ◌∙◌, String, Bool, true, false, Option,
  none, some, arith, if_elim, is_some, ltb→lt, if◌then◌else◌,
}
use aiohomematic.Prelude.Dict.{lookup, string_eq}
use aiohomematic.Const.{CentralState}
use aiohomematic.Central.ConnectionRecovery.State.{
  InterfaceRecoveryState, can_retry, record_failure, max_recovery_attempts,
}
use aiohomematic.Central.ConnectionRecovery.State as State
use aiohomematic.Central.ConnectionRecovery.{
  ConnectionRecoveryCoordinator, Out, recovery_attempted, put, transition_to_recovering, request,
  ◌>>◌,
}
use aiohomematic.Central.ConnectionRecovery.Stages.{
  Ended, success, failure, execute_recovery_stages,
}
use aiohomematic.Central.ConnectionRecovery.Retries.{
  Attempt, Wait, over, stopped, Exit, Next, exit, again, state_of, or_new, update, add_active,
  begin, fail, conclude, attempt_stages, finally, call, continue, start_recovery,
  emit_recovery_attempt,
}
use aiohomematic.Central.ConnectionRecovery.Parts.{
  Present, state_of-update, update-Present, with_state-emit, put-Present, state_of-put,
  transition_if-states, update-frame,
}
use aiohomematic.Central.ConnectionRecovery.Kept.{execute-Keeps}

-- The attempts of the interface that are counted.
abbrev pub attempts : String → ConnectionRecoveryCoordinator → ℕ
attempts iid c = (state_of iid c).attempt_count

-- What holds of a call that goes on, where `n` attempts were counted before it.
abbrev GoesOn : ℕ → String → Out × Next → Type 0
GoesOn n iid q = q.1 ≡ again → (attempts iid q.0.0 ≡ suc n) × (suc n < max_recovery_attempts)

pub failed-frame :
    (iid : String) (now : ℕ) (c : ConnectionRecoveryCoordinator)
    → let d = ((update iid (record_failure now) >> emit_recovery_attempt iid false) c).0 in
      d ≡ record c { recovery_states = d.recovery_states }
unfolding emit_recovery_attempt
failed-frame iid now c =
    subst
      (λ (d : ConnectionRecoveryCoordinator). d ≡ record c { recovery_states = d.recovery_states })
      (sym (
        with_state-emit iid (λ s. recovery_attempted iid s.attempt_count s.current_stage false)
          (update iid (record_failure now) c).0))
      (update-frame iid (record_failure now) c)

pub failed-state :
    (iid : String) (now : ℕ) (c : ConnectionRecoveryCoordinator)
    → Present iid c
    → state_of iid ((update iid (record_failure now) >> emit_recovery_attempt iid false) c).0
      ≡ record_failure now (state_of iid c)
unfolding emit_recovery_attempt
failed-state iid now c p =
    ap (state_of iid) (
      with_state-emit iid (λ s. recovery_attempted iid s.attempt_count s.current_stage false)
        (update iid (record_failure now) c).0)
    ∙ state_of-update iid (record_failure now) c p

fail-GoesOn :
    (iid : String) (now : ℕ) (c : ConnectionRecoveryCoordinator)
    → Present iid c
    → GoesOn (attempts iid c) iid (fail iid now c)
unfolding fail can_retry record_failure
fail-GoesOn iid now c p =
    let r : Out = (update iid (record_failure now) >> emit_recovery_attempt iid false) c in
    if_elim (GoesOn (attempts iid c) iid) (can_retry (state_of iid r.0))
      (λ h e.
        let count : attempts iid r.0 ≡ suc (attempts iid c) =
          ap (λ (s : InterfaceRecoveryState). s.attempt_count) (failed-state iid now c p)
          ∙ omega arith in
        (count, subst (λ n. n < max_recovery_attempts) count (ltb→lt _ _ h)))
      (λ _ e. absurd (ground (arith, e)))

pub begin-attempts :
    (iid : String) (now : ℕ) (c : ConnectionRecoveryCoordinator)
    → Present iid c
    → (attempts iid (begin iid now c).0 ≡ attempts iid c) × Present iid (begin iid now c).0
unfolding begin transition_to_recovering State.start_recovery
begin-attempts iid now c p =
    let c1 : ConnectionRecoveryCoordinator = (add_active iid c).0 in
    let c2 : ConnectionRecoveryCoordinator = (update iid (State.start_recovery now) c1).0 in
    let same : (begin iid now c).0.recovery_states ≡ c2.recovery_states =
      transition_if-states CentralState.recovering (request "Connection recovery in progress" now)
        c2 in
    (
      ap (λ d. (or_new iid (lookup iid d)).attempt_count) same
          ∙ ap (λ (s : InterfaceRecoveryState). s.attempt_count)
              (state_of-update iid (State.start_recovery now) c1 p),
      ap (λ d. is_some (lookup iid d)) same ∙ update-Present iid (State.start_recovery now) c1 p,
    )

conclude-GoesOn :
    (a : Attempt) (iid : String) (r : Out) (e : Ended)
    → Present iid r.0
    → GoesOn (attempts iid r.0) iid (conclude a iid r e)
unfolding conclude
conclude-GoesOn a iid r success p e = absurd (ground (arith, e))
conclude-GoesOn a iid r failure p e = fail-GoesOn iid a.now r.0 p e
conclude-GoesOn a iid r Ended.cancelled p e = absurd (ground (arith, e))

finally-GoesOn :
    (n : ℕ) (iid : String) (q : Out × Next) → GoesOn n iid q → GoesOn n iid (finally iid q)
unfolding finally
finally-GoesOn n iid (r, exit x) g e = absurd (ground (arith, e))
finally-GoesOn n iid (r, again) g e = g e

-- A call that goes on has counted one attempt, and is not the last that is allowed.
pub call-GoesOn :
    (a : Attempt) (iid : String) (c : ConnectionRecoveryCoordinator)
    → GoesOn (attempts iid c) iid (call a iid c)
unfolding call attempt_stages
call-GoesOn a iid c =
    let c1 : ConnectionRecoveryCoordinator = put iid (state_of iid c) c in
    let r : Out = begin iid a.now c1 in
    let b = begin-attempts iid a.now c1 (put-Present iid (state_of iid c) c) in
    let q = execute_recovery_stages iid a.stages r.0 in
    let k = execute-Keeps iid a.stages r.0 in
    let same : attempts iid q.0.0 ≡ attempts iid c =
      k.attempt_count
      ∙ b.0
      ∙ ap (λ (s : InterfaceRecoveryState). s.attempt_count)
          (state_of-put iid (state_of iid c) c) in
    let body : GoesOn (attempts iid c) iid (finally iid (attempt_stages a iid r.0)) =
      finally-GoesOn (attempts iid c) iid _ (
        subst (λ n. GoesOn n iid (attempt_stages a iid r.0)) same
          (conclude-GoesOn a iid q.0 q.1 (k.present ∙ b.1))) in
    if_elim (GoesOn (attempts iid c) iid) c.shutdown (λ _ e. absurd (ground (arith, e)))
      (λ _.
        if_elim (GoesOn (attempts iid c) iid) (can_retry (state_of iid c))
          (λ _.
            if_elim (GoesOn (attempts iid c) iid) a.has_client (λ _. body)
              (λ _ e. absurd (ground (arith, e))))
          (λ _ e. absurd (ground (arith, e))))

-- Both return, and the same.
abbrev Agree {ℓ} : {A : Type ℓ} → Option A → Option A → Type ℓ
Agree {A = A} x y = (q : A) × (x ≡ some q) × (y ≡ some q)

if-Agree {ℓ} :
    {A : Type ℓ} (b : Bool) (z : A) (h : A → A) (x y : Option A)
    → Agree x y
    → Agree
        (if b then some z else elim x [ none ↦ none | some q ↦ some (h q) ])
        (if b then some z else elim y [ none ↦ none | some q ↦ some (h q) ])
if-Agree true z h x y a = (z, refl, refl)
if-Agree false z h x y a =
    let mapped : _ → _ = λ o. elim o [ none ↦ none | some q ↦ some (h q) ] in
    (h a.0, ap mapped a.1, ap mapped a.2)

continue-Agree :
    (n : ℕ) (iid : String) (wait : Wait)
    → (f g : ConnectionRecoveryCoordinator → Option (Out × Exit)) (q : Out × Next) → GoesOn n iid q
    → ((d : ConnectionRecoveryCoordinator)
        → attempts iid d ≡ suc n
        → suc n < max_recovery_attempts
        → Agree (f d) (g d))
    → Agree (continue iid wait f q) (continue iid wait g q)
unfolding continue
continue-Agree n iid wait f g (r, exit e) go same = (_, refl, refl)
continue-Agree n iid Wait.cancelled f g (r, again) go same = (_, refl, refl)
continue-Agree n iid stopped f g (r, again) go same = (_, refl, refl)
continue-Agree n iid over f g (r, again) go same =
    if-Agree r.0.shutdown _ _ (f r.0) (g r.0) (same r.0 (go refl).0 (go refl).1)

enough-Agree :
    (n m : ℕ) (w : ℕ → Attempt) (iid : String) (c : ConnectionRecoveryCoordinator)
    → max_recovery_attempts ≤ n + attempts iid c
    → max_recovery_attempts ≤ m + attempts iid c
    → 1 ≤ n
    → 1 ≤ m
    → Agree (start_recovery n w iid c) (start_recovery m w iid c)
unfolding start_recovery
enough-Agree zero m w iid c en em n1 m1 = absurd (omega (arith, n1))
enough-Agree (suc n) zero w iid c en em n1 m1 = absurd (omega (arith, m1))
enough-Agree (suc n) (suc m) w iid c en em n1 m1 =
    continue-Agree (attempts iid c) iid (w 0).wait _ _ (call (w 0) iid c) (call-GoesOn (w 0) iid c)
      (λ d e l.
        enough-Agree n m (λ k. w (suc k)) iid d (omega (arith, e, en)) (omega (arith, e, em))
          (omega (arith, e, l, en)) (omega (arith, e, l, em)))

-- A recovery ends: whatever the outside answers, and however many attempts were counted before, it
-- makes at most eight calls, and what it ends with does not depend on the fuel beyond these.
pub start_recovery-Returns :
    (n : ℕ) (w : ℕ → Attempt) (iid : String) (c : ConnectionRecoveryCoordinator)
    → max_recovery_attempts ≤ n
    → (q : Out × Exit) × (start_recovery max_recovery_attempts w iid c ≡ some q)
      × (start_recovery n w iid c ≡ some q)
start_recovery-Returns n w iid c l =
    enough-Agree max_recovery_attempts n w iid c (omega arith) (omega (arith, l)) (omega arith)
      (omega (arith, l))
