-- ===== src/Central/ConnectionRecovery/Startup.antt =====
-- The central that finds no client at its start, and the heartbeat that follows.
use aiohomematic.Prelude.{
  ◌≡◌, refl, sym, ap, subst, ◌∙◌, inl, inr, String, Bool, true, false, not, List, [], ◌∷◌, arith,
  if_elim, Bool-cases, if◌then◌else◌,
}
use aiohomematic.Prelude.Dict.{Dict, lookup, contains, has_key, ◌==◌, string_eq}
use aiohomematic.Const.{failed, CentralState-eq}
use aiohomematic.Central.ConnectionRecovery.State.{InterfaceRecoveryState, new_state}
use aiohomematic.Central.ConnectionRecovery.{ConnectionRecoveryCoordinator, Out, put}
use aiohomematic.Central.ConnectionRecovery.Handlers.{
  CentralStateChangedEvent, is_startup_failure, ensure_states, on_central_state_changed,
  failed_interfaces, heartbeat_round,
}
use aiohomematic.Central.ConnectionRecovery.Parts.{
  Present, put-Present, put-Present_other, with_states, flag_of, shutdown_of, heartbeat_of,
}
use aiohomematic.Central.ConnectionRecovery.Failing.{start_heartbeat_timer-on}
use aiohomematic.Central.ConnectionRecovery.Heartbeat.{event_of, heartbeat_round-fires}

-- An interface that has a recovery state and no available client is retried.
unavailable-failed_interfaces :
    (available : String → Bool) (iid : String) (d : Dict String InterfaceRecoveryState)
    → available iid ≡ false
    → has_key iid d ≡ true
    → contains iid (failed_interfaces available d) ≡ true
unfolding lookup contains
unavailable-failed_interfaces available iid [] a p = absurd (ground (arith, p))
unavailable-failed_interfaces available iid ((j, t) ∷ d) a p =
    ground (arith, a, p, string_eq.equal_iff j iid, unavailable-failed_interfaces available iid d a)

-- Only recovery states are added.
ensure_states-frame :
    (iids : List String) (c : ConnectionRecoveryCoordinator)
    → ensure_states iids c ≡ with_states (ensure_states iids c).recovery_states c
unfolding ensure_states
ensure_states-frame [] c = refl
ensure_states-frame (iid ∷ iids) c =
    let c1 : ConnectionRecoveryCoordinator =
      if has_key iid c.recovery_states then c else put iid (new_state iid) c in
    let e : c1 ≡ with_states c1.recovery_states c =
      if_elim (λ (x : ConnectionRecoveryCoordinator). x ≡ with_states x.recovery_states c)
        (has_key iid c.recovery_states) (λ _. refl) (λ _. refl) in
    ensure_states-frame iids c1 ∙ ap (with_states (ensure_states iids c1).recovery_states) e

ensure_states-keeps :
    (iids : List String) (j : String) (c : ConnectionRecoveryCoordinator)
    → Present j c
    → Present j (ensure_states iids c)
unfolding ensure_states
ensure_states-keeps [] j c p = p
ensure_states-keeps (iid ∷ iids) j c p = ensure_states-keeps iids j _ (
    if_elim (Present j) (has_key iid c.recovery_states) (λ _. p)
      (λ _. put-Present_other iid j (new_state iid) c p))

ensure_states-Present :
    (iids : List String) (j : String) (c : ConnectionRecoveryCoordinator)
    → contains j iids ≡ true
    → Present j (ensure_states iids c)
unfolding ensure_states contains
ensure_states-Present [] j c h = absurd (ground (arith, h))
ensure_states-Present (iid ∷ iids) j c h = elim (Bool-cases (iid == j)) [
  | inl e ↦ ensure_states-keeps iids j _ (
      subst
        (λ k. Present k (if has_key iid c.recovery_states then c else put iid (new_state iid) c))
        ((string_eq.equal_iff iid j).0 e)
        (if_elim (Present iid) (has_key iid c.recovery_states) (λ k. k)
          (λ _. put-Present iid (new_state iid) c)))
  | inr n ↦ ensure_states-Present iids j _ (ground (arith, h, n))
]

-- The coordinator that a failed start leaves.
abbrev entered : List String → ConnectionRecoveryCoordinator → ConnectionRecoveryCoordinator
entered configured c =
    ensure_states configured (record c { in_failed_state = true; heartbeat_running = true })

-- What the next round of the heartbeat does for an interface.
abbrev pub Retries : (String → Bool) → String → ConnectionRecoveryCoordinator → Type 0
Retries available iid d =
    (d.in_failed_state ≡ true)
    × (d.heartbeat_running ≡ true)
    × (contains iid (failed_interfaces available d.recovery_states) ≡ true)
    × ((heartbeat_round available d).1 ≡ event_of (failed_interfaces available d.recovery_states))

entered-Retries :
    (configured : List String) (available : String → Bool) (iid : String)
    → (c : ConnectionRecoveryCoordinator) → c.shutdown ≡ false
    → contains iid configured ≡ true
    → available iid ≡ false
    → Retries available iid (entered configured c)
entered-Retries configured available iid c l i a =
    let c0 : ConnectionRecoveryCoordinator = record c {
      in_failed_state = true;
      heartbeat_running = true;
    } in
    let d : ConnectionRecoveryCoordinator = entered configured c in
    let f : d ≡ with_states d.recovery_states c0 = ensure_states-frame configured c0 in
    (
      ap flag_of f,
      ap heartbeat_of f,
      unavailable-failed_interfaces available iid d.recovery_states a
          (ensure_states-Present configured iid c0 i),
      ap (λ (r : Out). r.1)
          (heartbeat_round-fires available d (ap flag_of f) (ap shutdown_of f ∙ l)),
    )

-- When the central becomes FAILED at its start because no client is connected, the coordinator, not shut
-- down, enters the failed state with the heartbeat running; and the next round of the heartbeat asks to
-- recover every configured interface that still has no available client.
pub startup_failure-heartbeat :
    (configured : List String) (e : CentralStateChangedEvent) (available : String → Bool)
    → (iid : String) (c : ConnectionRecoveryCoordinator) → c.shutdown ≡ false
    → e.new_state ≡ failed
    → is_startup_failure e ≡ true
    → contains iid configured ≡ true
    → available iid ≡ false
    → Retries available iid (on_central_state_changed configured e c).0
unfolding on_central_state_changed
startup_failure-heartbeat configured e available iid c l n s i a =
    let P : Out → Type 0 = λ r. r.0 ≡ entered configured c in
    let e1 : (on_central_state_changed configured e c).0 ≡ entered configured c =
      if_elim P c.shutdown (λ h. absurd (ground (arith, l, h)))
        (λ _.
          if_elim P (not (e.new_state == failed)) (λ h. absurd (ground (arith, n, h)))
            (λ _.
              if_elim P (is_startup_failure e)
                (λ _.
                  ap (ensure_states configured)
                    (start_heartbeat_timer-on (record c { in_failed_state = true })))
                (λ h. absurd (ground (arith, s, h))))) in
    subst (Retries available iid) (sym e1) (entered-Retries configured available iid c l i a)
