-- ===== src/Central/ConnectionRecovery/Stuck.antt =====
-- How an interface stays in the set of active recoveries.
use aiohomematic.Prelude.{
  ℕ, suc, ◌≡◌, refl, ap, ◌∙◌, String, true, false, some, [], ◌∷◌, arith, if_elim,
}
use aiohomematic.Prelude.Dict.{string_eq, contains, contains-append}
use aiohomematic.Central.ConnectionRecovery.State.{can_retry}
use aiohomematic.Central.ConnectionRecovery.{ConnectionRecoveryCoordinator, Out, put}
use aiohomematic.Central.ConnectionRecovery.Retries.{
  Attempt, Next, exit, raised, state_of, begin, add_active, call, start_recovery,
}
use aiohomematic.Central.ConnectionRecovery.Handlers.{
  on_connection_lost, on_circuit_breaker_tripped,
}
use aiohomematic.Central.ConnectionRecovery.Parts.{eq_refl}
use aiohomematic.Central.ConnectionRecovery.Frames.{begin-Begun}
use aiohomematic.Central.ConnectionRecovery.Success.{continue-exit}

call-raised :
    (a : Attempt) (iid : String) (c : ConnectionRecoveryCoordinator)
    → c.shutdown ≡ false
    → can_retry (state_of iid c) ≡ true
    → a.has_client ≡ false
    → call a iid c ≡ (begin iid a.now (put iid (state_of iid c) c), exit raised)
unfolding call
call-raised a iid c l y g =
    let P : Out × Next → Type 0 =
      λ q. q ≡ (begin iid a.now (put iid (state_of iid c) c), exit raised) in
    if_elim P c.shutdown (λ h. absurd (ground (arith, l, h)))
      (λ _.
        if_elim P (can_retry (state_of iid c))
          (λ _. if_elim P a.has_client (λ h. absurd (ground (arith, g, h))) (λ _. refl))
          (λ h. absurd (ground (arith, y, h))))

contains-add_active :
    (iid : String) (c : ConnectionRecoveryCoordinator)
    → contains iid (add_active iid c).0.active_recoveries ≡ true
unfolding contains
contains-add_active iid c =
    if_elim (λ xs. contains iid xs ≡ true) (contains iid c.active_recoveries) (λ h. h)
      (λ _. ground (arith, contains-append iid c.active_recoveries (iid ∷ []), eq_refl iid))

-- An active interface's events are skipped.
skips :
    (iid : String) (c : ConnectionRecoveryCoordinator)
    → contains iid c.active_recoveries ≡ true
    → (on_connection_lost iid c ≡ (c, [])) × (on_circuit_breaker_tripped iid c ≡ (c, []))
unfolding on_connection_lost on_circuit_breaker_tripped
skips iid c h = (
  if_elim (λ (r : Out). r ≡ (c, [])) c.shutdown (λ _. refl)
      (λ _.
        if_elim (λ (r : Out). r ≡ (c, [])) (contains iid c.active_recoveries) (λ _. refl)
          (λ n. absurd (ground (arith, h, n)))),
  if_elim (λ (r : Out). r ≡ (c, [])) c.shutdown (λ _. refl)
      (λ _.
        if_elim (λ (r : Out). r ≡ (c, [])) (contains iid c.active_recoveries) (λ _. refl)
          (λ n. absurd (ground (arith, h, n)))),
)

-- If the look-up of the client raises on the first call, with attempts left and no shutdown, the
-- exception ends the recovery and leaves the interface in the set of active recoveries. In the state
-- that it leaves, a lost connection and a tripped circuit breaker of the interface are skipped: they
-- change nothing and start no recovery.
pub start_recovery-raised :
    (n : ℕ) (w : ℕ → Attempt) (iid : String) (c : ConnectionRecoveryCoordinator)
    → c.shutdown ≡ false
    → can_retry (state_of iid c) ≡ true
    → (w 0).has_client ≡ false
    → (r : Out) × (start_recovery (suc n) w iid c ≡ some (r, raised))
      × (contains iid r.0.active_recoveries ≡ true)
      × (on_connection_lost iid r.0 ≡ (r.0, []))
      × (on_circuit_breaker_tripped iid r.0 ≡ (r.0, []))
unfolding start_recovery
start_recovery-raised n w iid c l y g =
    let b : Out = begin iid (w 0).now (put iid (state_of iid c) c) in
    let q = call-raised (w 0) iid c l y g in
    let in' : contains iid b.0.active_recoveries ≡ true =
      ap (contains iid) (begin-Begun iid (w 0).now (put iid (state_of iid c) c)).active
      ∙ contains-add_active iid c in
    (
      b,
      continue-exit iid (w 0).wait (start_recovery n (λ k. w (suc k)) iid) (call (w 0) iid c) raised
            (ap (λ (x : Out × Next). x.1) q)
          ∙ ap (λ (x : Out × Next). some (x.0, raised)) q,
      in',
      (skips iid b.0 in').0,
      (skips iid b.0 in').1,
    )
