-- ===== src/Central/ConnectionRecovery/Exhaustion.antt =====
-- A recovery whose attempts all fail.
use aiohomematic.Prelude.{
  ℕ, zero, suc, ◌+◌, ◌≡◌, ◌≤◌, refl, sym, ap, subst, ◌∙◌, inl, inr, String, true, false, Option,
  none, some, [], arith, if◌then◌else◌, ◌++◌,
}
use aiohomematic.Prelude.Dict.{string_eq, erase, Distinct}
use aiohomematic.Const.{recovering}
use aiohomematic.Central.ConnectionRecovery.State.{can_retry, max_recovery_attempts}
use aiohomematic.Central.ConnectionRecovery.{ConnectionRecoveryCoordinator, Out}
use aiohomematic.Central.ConnectionRecovery.Stages.{failure}
use aiohomematic.Central.ConnectionRecovery.Retries.{
  Attempt, Wait, over, stopped, wake, Exit, Next, exit, again, returned, state_of, call,
  start_recovery, continue,
}
use aiohomematic.Central.ConnectionRecovery.Termination.{attempts}
use aiohomematic.Central.ConnectionRecovery.Progress.{plan, ending}
use aiohomematic.Central.ConnectionRecovery.Frames.{
  Recoverable, erase-add_active, erase_twice, add_active-Distinct, central-Recoverable,
}
use aiohomematic.Central.ConnectionRecovery.Success.{continue-exit}
use aiohomematic.Central.ConnectionRecovery.Failing.{Exhausted, call-outcome}

-- A call that goes on, undisturbed.
pub continue-again :
    (iid : String) (wait : Wait) (f : ConnectionRecoveryCoordinator → Option (Out × Exit))
    → (q : Out × Next) (x : Out × Exit) → wait ≡ over
    → q.1 ≡ again
    → q.0.0.shutdown ≡ false
    → f q.0.0 ≡ some x
    → continue iid wait f q
      ≡ some (
        (
          record x.0.0 { active_recoveries = erase iid x.0.0.active_recoveries },
          ((q.0.1 ++ []) ++ x.0.1) ++ [],
        ),
        x.1,
      )
unfolding continue wake
continue-again iid over f (r, again) x o a l e =
    ap
      (λ b.
        if b
        then some (
          (record r.0 { active_recoveries = erase iid r.0.active_recoveries }, (r.1 ++ []) ++ []),
          returned,
        )
        else elim (f r.0) [
          | none ↦ none
          | some y ↦ some (
            (
              record y.0.0 { active_recoveries = erase iid y.0.0.active_recoveries },
              ((r.1 ++ []) ++ y.0.1) ++ [],
            ),
            y.1,
          )
        ])
      l
    ∙ ap
        (λ z. elim z [
          | none ↦ none
          | some y ↦ some (
            (
              record y.0.0 { active_recoveries = erase iid y.0.0.active_recoveries },
              ((r.1 ++ []) ++ y.0.1) ++ [],
            ),
            y.1,
          )
        ])
        e
continue-again iid stopped f q x o a l e = absurd (ground (arith, o))
continue-again iid Wait.cancelled f q x o a l e = absurd (ground (arith, o))
continue-again iid over f (r, exit y) x o a l e = absurd (ground (arith, a))

-- Any number of calls that suffices.
exhausts :
    (n : ℕ) (w : ℕ → Attempt) (iid : String) (c : ConnectionRecoveryCoordinator)
    → max_recovery_attempts ≤ n + attempts iid c
    → c.shutdown ≡ false
    → can_retry (state_of iid c) ≡ true
    → Distinct c.active_recoveries
    → Recoverable c
    → ((k : ℕ)
        → ((w k).has_client ≡ true) × (ending (plan (w k).stages) ≡ failure) × ((w k).wait ≡ over))
    → (r : Out) × (start_recovery n w iid c ≡ some (r, returned)) × Exhausted iid c r.0
unfolding start_recovery can_retry
exhausts zero w iid c en l y u m f = absurd (ground (arith, en, y))
exhausts (suc n) w iid c en l y u m f = elim (call-outcome (w 0) iid c l y m (f 0).0 (f 0).1) [
  | inl g ↦
      let d : ConnectionRecoveryCoordinator = (call (w 0) iid c).0.0 in
      let rest =
        exhausts n (λ k. w (suc k)) iid d (omega (arith, en, g.1.count)) (g.1.shutdown ∙ l) g.1.more
          (subst Distinct (sym g.1.active) (add_active-Distinct iid c u))
          (central-Recoverable recovering d g.1.central refl) (λ k. f (suc k)) in
      (
        _,
        continue-again iid (w 0).wait (start_recovery n (λ k. w (suc k)) iid) (call (w 0) iid c)
            (rest.0, returned) (f 0).2 g.0 (g.1.shutdown ∙ l) rest.1,
        record {
          count = rest.2.count;
          active =
              ap (erase iid) (rest.2.active ∙ ap (erase iid) g.1.active ∙ erase-add_active iid c)
              ∙ erase_twice iid c.active_recoveries u;
          in_failed_state = rest.2.in_failed_state;
          heartbeat = rest.2.heartbeat;
          central = rest.2.central;
        },
      )
  | inr x ↦ (
    (call (w 0) iid c).0,
    continue-exit iid (w 0).wait (start_recovery n (λ k. w (suc k)) iid) (call (w 0) iid c) returned
        x.0,
    x.1,
  )
]

-- If attempts are left, and every attempt finds its client, fails in its stages and sleeps undisturbed,
-- then the recovery returns when the attempts are used up: the coordinator is in the failed state with
-- the heartbeat running, the central is FAILED, and the interface is no longer active. The coordinator
-- is not shut down, the active set holds no interface twice, and the central is in one of the states
-- from which it recovers.
pub start_recovery-Exhausted :
    (w : ℕ → Attempt) (iid : String) (c : ConnectionRecoveryCoordinator)
    → c.shutdown ≡ false
    → can_retry (state_of iid c) ≡ true
    → Distinct c.active_recoveries
    → Recoverable c
    → ((k : ℕ)
        → ((w k).has_client ≡ true) × (ending (plan (w k).stages) ≡ failure) × ((w k).wait ≡ over))
    → (r : Out) × (start_recovery max_recovery_attempts w iid c ≡ some (r, returned))
      × Exhausted iid c r.0
start_recovery-Exhausted w iid c l y u m f =
    exhausts max_recovery_attempts w iid c (omega arith) l y u m f
