-- ===== src/Central/ConnectionRecovery/Heartbeat.antt =====
-- The rounds of the heartbeat, and what the recovery that each asks for leaves.
use aiohomematic.Prelude.{
  ℕ, ◌-◌, ◌≡◌, refl, ap, ◌∙◌, inl, inr, String, Bool, true, false, not, ◌||◌, some, List, [], ◌∷◌,
  arith, option_elim, if◌then◌else◌, Bool-cases,
}
use aiohomematic.Prelude.Lists.{length, All}
use aiohomematic.Prelude.Dict.{
  Dict, lookup, lookup-insert, contains, has_key, ◌==◌, string_eq, Unique,
}
use aiohomematic.Const.{CentralState, recovering}
use aiohomematic.Const as Const
use aiohomematic.Central.ConnectionRecovery.State.{
  InterfaceRecoveryState, can_retry, max_recovery_attempts,
}
use aiohomematic.Central.ConnectionRecovery.{
  ConnectionRecoveryCoordinator, Out, Effect, heartbeat_timer_fired,
}
use aiohomematic.Central.ConnectionRecovery.Stages.{Answers, failure}
use aiohomematic.Central.ConnectionRecovery.Retries.{or_new, update, Attempt, call, exit, returned}
use aiohomematic.Central.ConnectionRecovery.Handlers.{
  failed_interfaces, allow_retry, fire, heartbeat_round, recover_all_interfaces,
}
use aiohomematic.Central.ConnectionRecovery.Parts.{Present}
use aiohomematic.Central.ConnectionRecovery.Termination.{attempts}
use aiohomematic.Central.ConnectionRecovery.Progress.{plan, ending}
use aiohomematic.Central.ConnectionRecovery.Failing.{Exhausted, call-outcome}
use aiohomematic.Central.ConnectionRecovery.Frames.{central_state, Recoverable, central-Recoverable}
use aiohomematic.Central.ConnectionRecovery.Rounds.{successes, recover_all_interfaces-verdict}

-- The interface is one that the heartbeat retries.
abbrev pub needs_retry : (String → Bool) → String → InterfaceRecoveryState → Bool
needs_retry available iid s = not (can_retry s) || not (available iid)

absent-failed_interfaces :
    (available : String → Bool) (iid : String) (d : Dict String InterfaceRecoveryState)
    → has_key iid d ≡ false
    → contains iid (failed_interfaces available d) ≡ false
unfolding lookup contains
absent-failed_interfaces available iid [] e = refl
absent-failed_interfaces available iid ((j, t) ∷ d) e =
    ground (arith, e, absent-failed_interfaces available iid d)

contains-failed_interfaces :
    (available : String → Bool) (iid : String) (s : InterfaceRecoveryState)
    → (d : Dict String InterfaceRecoveryState) → Unique d
    → lookup iid d ≡ some s
    → contains iid (failed_interfaces available d) ≡ needs_retry available iid s
unfolding lookup contains
contains-failed_interfaces available iid s [] u e = absurd (ground (arith, e))
contains-failed_interfaces available iid s ((j, t) ∷ d) u e = elim (Bool-cases (j == iid)) [
  | inl h ↦
      ground (arith, e, h, u.0, string_eq.equal_iff j iid, absent-failed_interfaces available iid d)
  | inr h ↦ ground (arith, e, h, contains-failed_interfaces available iid s d u.1)
]

update-attempts :
    (iid j : String) (c : ConnectionRecoveryCoordinator)
    → Present iid c
    → (let d = (update j (λ s. record s { attempt_count = max_recovery_attempts - 1 }) c).0 in
        (attempts iid d ≡ (if j == iid then max_recovery_attempts - 1 else attempts iid c))
        × Present iid d)
update-attempts iid j c p =
    option_elim
      (λ (r : Out).
        (attempts iid r.0 ≡ (if j == iid then max_recovery_attempts - 1 else attempts iid c))
        × Present iid r.0)
      (lookup j c.recovery_states) (λ e. (ground (arith, e, p, string_eq.equal_iff j iid), p))
      (λ s e.
        let t : InterfaceRecoveryState = record s { attempt_count = max_recovery_attempts - 1 } in
        (
          ground (arith, lookup-insert j iid t c.recovery_states),
          ground (arith, p, lookup-insert j iid t c.recovery_states),
        ))

allow_retry-attempts :
    (iid : String) (iids : List String) (c : ConnectionRecoveryCoordinator)
    → Present iid c
    → attempts iid (allow_retry iids c)
      ≡ (if contains iid iids then max_recovery_attempts - 1 else attempts iid c)
unfolding allow_retry contains
allow_retry-attempts iid [] c p = refl
allow_retry-attempts iid (j ∷ iids) c p =
    let f : InterfaceRecoveryState → InterfaceRecoveryState =
      λ s. record s { attempt_count = max_recovery_attempts - 1 } in
    let one = update-attempts iid j c p in
    allow_retry-attempts iid iids (update j f c).0 one.1 ∙ ground (arith, one.0)

abbrev pub event_of : List String → List Effect
event_of [] = []
event_of (iid ∷ iids) = heartbeat_timer_fired (iid ∷ iids) ∷ []

fire-event_of :
    (iids : List String) (c : ConnectionRecoveryCoordinator)
    → fire iids c ≡ (allow_retry iids c, event_of iids)
unfolding fire allow_retry
fire-event_of [] c = refl
fire-event_of (iid ∷ iids) c = refl

pub heartbeat_round-fires :
    (available : String → Bool) (c : ConnectionRecoveryCoordinator)
    → c.in_failed_state ≡ true
    → c.shutdown ≡ false
    → (let iids = failed_interfaces available c.recovery_states in
        heartbeat_round available c ≡ (allow_retry iids c, event_of iids))
unfolding heartbeat_round
heartbeat_round-fires available c f l =
    let iids = failed_interfaces available c.recovery_states in
    let idle : Out = (record c { heartbeat_running = false }, []) in
    ap (λ b. if not b || c.shutdown then idle else fire iids c) f
    ∙ ap (λ b. if b then idle else fire iids c) l
    ∙ fire-event_of iids c

-- A round of the heartbeat in the failed state, of a coordinator that is not shut down and an interface
-- with a recovery state: the event names it exactly if its attempts are used up or it has no available
-- client; then it has one attempt left, and else its count is as before. No event is published exactly
-- if it would name no interface.
pub heartbeat_round-retries :
    (available : String → Bool) (iid : String) (s : InterfaceRecoveryState)
    → (c : ConnectionRecoveryCoordinator) → c.in_failed_state ≡ true
    → c.shutdown ≡ false
    → Unique c.recovery_states
    → lookup iid c.recovery_states ≡ some s
    → (let iids = failed_interfaces available c.recovery_states in
        (contains iid iids ≡ needs_retry available iid s)
        × ((heartbeat_round available c).1 ≡ event_of iids)
        × (attempts iid (heartbeat_round available c).0
            ≡ (if needs_retry available iid s then max_recovery_attempts - 1 else s.attempt_count)))
heartbeat_round-retries available iid s c f l u e =
    let iids = failed_interfaces available c.recovery_states in
    let named = contains-failed_interfaces available iid s c.recovery_states u e in
    let run = heartbeat_round-fires available c f l in
    (
      named,
      ap (λ (r : Out). r.1) run,
      ap (λ (r : Out). attempts iid r.0) run
          ∙ allow_retry-attempts iid iids c (ground (arith, e))
          ∙ ap (λ b. if b then max_recovery_attempts - 1 else attempts iid c) named
          ∙ ap (λ n. if needs_retry available iid s then max_recovery_attempts - 1 else n)
              (ap (λ o. (or_new iid o).attempt_count) e),
    )

-- When the heartbeat has left an interface one attempt, and then all interfaces recover at the
-- heartbeat's request, the central is RUNNING and the failed state is left; but the interface still has
-- one attempt only: the first recovery of it that fails, with a client and undisturbed, puts the
-- coordinator into the failed state and the central into FAILED, without a retry.
pub recovered-has_one_attempt :
    (now : ℕ) (answers : String → Answers) (iids : List String) (a : Attempt) (iid : String)
    → (c : ConnectionRecoveryCoordinator) → c.shutdown ≡ false
    → All (λ i. Present i c) iids
    → Recoverable c
    → successes answers iids ≡ length iids
    → attempts iid c ≡ max_recovery_attempts - 1
    → a.has_client ≡ true
    → ending (plan a.stages) ≡ failure
    → (let d = (recover_all_interfaces now answers iids c).0 in
        (central_state d ≡ some Const.CentralState.running)
        × (d.in_failed_state ≡ false)
        × ((call a iid d).1 ≡ exit returned)
        × Exhausted iid d (call a iid d).0.0)
unfolding can_retry contains
recovered-has_one_attempt now answers iids a iid c l p m all one g s =
    let d : ConnectionRecoveryCoordinator = (recover_all_interfaces now answers iids c).0 in
    let r = recover_all_interfaces-verdict now answers iids c l p m in
    let run : central_state d ≡ some Const.CentralState.running = ground (arith, r.0, all) in
    let n : attempts iid d ≡ max_recovery_attempts - 1 = r.2 iid ∙ one in
    elim (call-outcome a iid d (r.3 ∙ l) (ground (arith, n)) (central-Recoverable _ d run refl) g
      s) [
        | inl again' ↦ absurd (ground (arith, again'.1.count, again'.1.more, n))
        | inr over ↦ (run, ground (arith, r.1, all), over.0, over.1)
      ]
