-- ===== src/Central/ConnectionRecovery/Persistence.antt =====
-- A recovery that succeeds behind failures.
use aiohomematic.Prelude.{
  ◌+◌, ◌<◌, lt→ltb, ℕ, zero, suc, ◌+◌, ◌≡◌, refl, sym, ap, subst, ◌∙◌, inl, inr, String, true,
  false, some, arith,
}
use aiohomematic.Prelude.Dict.{string_eq, erase, Distinct}
use aiohomematic.Const.{recovering}
use aiohomematic.Central.ConnectionRecovery.State.{can_retry, max_recovery_attempts}
use aiohomematic.Central.ConnectionRecovery.{ConnectionRecoveryCoordinator, Out}
use aiohomematic.Central.ConnectionRecovery.Stages.{failure}
use aiohomematic.Central.ConnectionRecovery.Retries.{
  discard, add_active, Attempt, over, returned, call, start_recovery,
}
use aiohomematic.Central.ConnectionRecovery.Termination.{attempts}
use aiohomematic.Central.ConnectionRecovery.Progress.{plan, ending}
use aiohomematic.Central.ConnectionRecovery.Frames.{
  Recoverable, erase-add_active, erase_twice, add_active-Distinct, central-Recoverable,
}
use aiohomematic.Central.ConnectionRecovery.Success.{Recovered, start_recovery-Recovered}
use aiohomematic.Central.ConnectionRecovery.Exhaustion.{continue-again}
use aiohomematic.Central.ConnectionRecovery.Stages.{success}
use aiohomematic.Central.ConnectionRecovery.Failing.{Goes, call-outcome}

-- The recovery of an interface seen from before a call that failed.
Recovered-before :
    (iid : String) (c d r : ConnectionRecoveryCoordinator)
    → Distinct c.active_recoveries
    → Goes iid (add_active iid c).0 d
    → Recovered iid d r
    → Recovered iid c (discard iid r).0
Recovered-before iid c d r u g h =
    let same : erase iid d.active_recoveries ≡ erase iid c.active_recoveries =
      ap (erase iid) g.active ∙ erase-add_active iid c in
    record {
      attempts = h.attempts;
      failures = h.failures;
      stage = h.stage;
      stages = h.stages;
      active = ap (erase iid) (h.active ∙ same) ∙ erase_twice iid c.active_recoveries u;
      alone = λ z. h.alone (same ∙ z);
      others = λ i is z. let o = h.others i is (same ∙ z) in (o.0, o.1 ∙ g.flag, o.2 ∙ g.heartbeat);
    }

-- A failed attempt that is not the last sleeps undisturbed.
abbrev pub FailsFirst : ℕ → (ℕ → Attempt) → Type 0
FailsFirst k w = (i : ℕ) → i < k → (ending (plan (w i).stages) ≡ failure) × ((w i).wait ≡ over)

-- If fewer attempts are counted and fail than are allowed, and the next passes all its stages, then the
-- recovery returns with the interface recovered: its counts are cleared and it is no longer active; the
-- central runs, is not in the failed state and has no heartbeat if no other recovery is active, and keeps
-- recovering otherwise. Every attempt finds its client and the failing ones sleep undisturbed; the
-- coordinator is not shut down, the active set holds no interface twice, and the central is in one of
-- the states from which it recovers.
pub start_recovery-persists :
    (k n : ℕ) (w : ℕ → Attempt) (iid : String) (c : ConnectionRecoveryCoordinator)
    → k < n
    → attempts iid c + k < max_recovery_attempts
    → c.shutdown ≡ false
    → Distinct c.active_recoveries
    → Recoverable c
    → ((i : ℕ) → (w i).has_client ≡ true)
    → FailsFirst k w
    → ending (plan (w k).stages) ≡ success
    → (r : Out) × (start_recovery n w iid c ≡ some (r, returned)) × Recovered iid c r.0
unfolding start_recovery can_retry
start_recovery-persists k zero w iid c kn e l u m g f s = absurd (omega (arith, kn))
start_recovery-persists zero (suc n) w iid c kn e l u m g f s =
    start_recovery-Recovered n w iid c l (lt→ltb _ _ (omega (arith, e))) u m (g 0) s
start_recovery-persists (suc k) (suc n) w iid c kn e l u m g f s =
    elim (call-outcome (w 0) iid c l (lt→ltb _ _ (omega (arith, e))) m (g 0)
      (f 0 (omega arith)).0) [
        | inl h ↦
            let d : ConnectionRecoveryCoordinator = (call (w 0) iid c).0.0 in
            let rest =
              start_recovery-persists k n (λ i. w (suc i)) iid d (omega (arith, kn))
                (omega (arith, e, h.1.count)) (h.1.shutdown ∙ l)
                (subst Distinct (sym h.1.active) (add_active-Distinct iid c u))
                (central-Recoverable recovering d h.1.central refl) (λ i. g (suc i))
                (λ i b. f (suc i) (omega (arith, b))) s in
            (
              _,
              continue-again iid (w 0).wait (start_recovery n (λ i. w (suc i)) iid)
                  (call (w 0) iid c) (rest.0, returned) (f 0 (omega arith)).1 h.0 (h.1.shutdown ∙ l)
                  rest.1,
              Recovered-before iid c d rest.0.0 u h.1 rest.2,
            )
        | inr x ↦ absurd (omega (arith, x.2, e))
      ]
