-- ===== src/Central/ConnectionRecovery/Rounds.antt =====
-- A round of recoveries of many interfaces.
use aiohomematic.Prelude.{
  ℕ, suc, ◌≡◌, refl, sym, ap, subst, ◌∙◌, String, Bool, true, false, none, some, List, [], ◌∷◌,
  arith, if_elim, if◌then◌else◌, ltb, eqb,
}
use aiohomematic.Prelude.Lists.{length, All}
use aiohomematic.Prelude.Dict.{lookup, contains, has_key, string_eq}
use aiohomematic.Const.{CentralState, recovering}
use aiohomematic.Const as Const
use aiohomematic.Central.ConnectionRecovery.State.{RecoveryStage}
use aiohomematic.Central.ConnectionRecovery.{
  ConnectionRecoveryCoordinator, Out, transition_to_recovering, transition_to_running,
  transition_to_degraded, ◌>>◌, skip, modify, request,
}
use aiohomematic.Central.ConnectionRecovery.Stages.{
  Answer, passed, refused, raised, Answers, execute_recovery_stages,
}
use aiohomematic.Central.ConnectionRecovery.Retries.{or_new, add_active, discard}
use aiohomematic.Central.ConnectionRecovery.Handlers.{
  add_all, discard_all, count, gather, settle, recover_all_interfaces,
}
use aiohomematic.Central.ConnectionRecovery.Parts.{
  Present, flag_of, states_of, shutdown_of, machine_of,
}
use aiohomematic.Central.ConnectionRecovery.Kept.{SameCounts, execute-Keeps}
use aiohomematic.Central.ConnectionRecovery.Termination.{attempts}
use aiohomematic.Central.ConnectionRecovery.Progress.{plan, ending, execute-plan}
use aiohomematic.Central.ConnectionRecovery.Frames.{
  central_state, Recoverable, transition_if-frame, transition_if-from_recovering,
  transition_to_recovering-state, transition_to_recovering-frame,
}

-- Does a recovery pass all its stages?
abbrev pub passes : List (RecoveryStage × Answer) → Bool
passes [] = true
passes ((s, passed) ∷ rest) = passes rest
passes (_ ∷ rest) = false

-- How many of the recoveries pass all their stages.
abbrev pub successes : (String → Answers) → List String → ℕ
successes answers [] = 0
successes answers (iid ∷ iids) =
    let n = successes answers iids in if passes (plan (answers iid)) then suc n else n

count-ending :
    (stages : List (RecoveryStage × Answer)) (n : ℕ)
    → count (ending stages) n ≡ (if passes stages then suc n else n)
count-ending [] n = refl
count-ending ((s, passed) ∷ rest) n = count-ending rest n
count-ending ((s, refused) ∷ rest) n = refl
count-ending ((s, raised) ∷ rest) n = refl
count-ending ((s, Answer.cancelled) ∷ rest) n = refl

-- Only recovery states, and the set of active recoveries, differ, and no count does.
record Gathered (c d : ConnectionRecoveryCoordinator) : Type 0 where
  machine : d.state_machine ≡ c.state_machine
  in_failed_state : d.in_failed_state ≡ c.in_failed_state
  shutdown : d.shutdown ≡ c.shutdown
  every : (j : String) → SameCounts j c d

gather-Gathered :
    (answers : String → Answers) (iids : List String) (c : ConnectionRecoveryCoordinator)
    → All (λ i. Present i c) iids
    → ((gather answers iids c).1 ≡ successes answers iids) × Gathered c (gather answers iids c).0.0
unfolding gather
gather-Gathered answers [] c p = (
  refl,
  record { machine = refl; in_failed_state = refl; shutdown = refl; every = λ j. (refl, refl) },
)
gather-Gathered answers (iid ∷ iids) c p =
    let q = execute_recovery_stages iid (answers iid) c in
    let k = execute-Keeps iid (answers iid) c in
    let rest = gather-Gathered answers iids q.0.0 (present-all iids c q.0.0 k.every p.1) in
    (
      ap (count q.1) rest.0
          ∙ ap (λ e. count e (successes answers iids)) (execute-plan iid (answers iid) c p.0).2
          ∙ count-ending (plan (answers iid)) (successes answers iids),
      record {
        machine = rest.1.machine ∙ k.state_machine;
        in_failed_state = rest.1.in_failed_state ∙ k.in_failed_state;
        shutdown = rest.1.shutdown ∙ k.shutdown;
        every = λ j. ((rest.1.every j).0 ∙ (k.every j).0, (rest.1.every j).1 ∙ (k.every j).1);
      },
    )
  where
    present-all :
        (is : List String) (c d : ConnectionRecoveryCoordinator)
        → ((j : String) → SameCounts j c d)
        → All (λ i. Present i c) is
        → All (λ i. Present i d) is
    present-all [] c d same u = tt
    present-all (i ∷ is) c d same u = ((same i).0 ∙ u.0, present-all is c d same u.1)

add_all-frame :
    (iids : List String) (c : ConnectionRecoveryCoordinator)
    → (add_all iids c).0 ≡ record c { active_recoveries = (add_all iids c).0.active_recoveries }
add_all-frame [] c = refl
add_all-frame (iid ∷ iids) c = add_all-frame iids (add_active iid c).0

discard_all-frame :
    (iids : List String) (c : ConnectionRecoveryCoordinator)
    → (discard_all iids c).0
      ≡ record c { active_recoveries = (discard_all iids c).0.active_recoveries }
discard_all-frame [] c = refl
discard_all-frame (iid ∷ iids) c = discard_all-frame iids (discard iid c).0

-- The state that the central is left in by so many successes of so many recoveries.
abbrev pub verdict : ℕ → ℕ → CentralState
verdict total k =
    if eqb k total
    then Const.CentralState.running
    else if ltb 0 k
    then Const.CentralState.degraded
    else recovering

-- What is said of a settled recovery.
abbrev Settled :
    ConnectionRecoveryCoordinator → Bool → Bool → ConnectionRecoveryCoordinator → Type 0
Settled c all any d =
    (central_state d
      ≡ some (
          if all
          then Const.CentralState.running
          else if any
          then Const.CentralState.degraded
          else recovering))
    × (d.in_failed_state ≡ (if all then false else c.in_failed_state))
    × (d.recovery_states ≡ c.recovery_states)
    × (d.shutdown ≡ c.shutdown)

settle-branch :
    (now : ℕ) (c : ConnectionRecoveryCoordinator)
    → central_state c ≡ some recovering
    → (all any : Bool)
    → Settled c all any
        ((if all
            then modify (λ c. record c { in_failed_state = false }) >> transition_to_running now
            else if any
            then transition_to_degraded now
            else skip)
          c).0
unfolding transition_to_running transition_to_degraded contains
settle-branch now c m true any =
    let q = request "All interfaces recovered successfully" now in
    let c1 : ConnectionRecoveryCoordinator = record c { in_failed_state = false } in
    let f = transition_if-frame Const.CentralState.running q c1 in
    (
      transition_if-from_recovering Const.CentralState.running q c1 m refl,
      ap flag_of f,
      ap states_of f,
      ap shutdown_of f,
    )
settle-branch now c m false true =
    let q = request "Partial recovery" now in
    let f = transition_if-frame Const.CentralState.degraded q c in
    (
      transition_if-from_recovering Const.CentralState.degraded q c m refl,
      ap flag_of f,
      ap states_of f,
      ap shutdown_of f,
    )
settle-branch now c m false false = (m, refl, refl, refl)

-- How a round ends in which `k` of the interfaces recover.
abbrev pub RoundEnds :
    List String → ConnectionRecoveryCoordinator → ℕ → ConnectionRecoveryCoordinator → Type 0
RoundEnds iids c k d =
    (central_state d ≡ some (verdict (length iids) k))
    × (d.in_failed_state ≡ (if eqb k (length iids) then false else c.in_failed_state))
    × ((j : String) → attempts j d ≡ attempts j c)
    × (d.shutdown ≡ c.shutdown)

-- A round of recoveries of interfaces that have a recovery state, of a coordinator that is not shut
-- down, with the central in one of the states from which it recovers: the central ends RUNNING if all
-- pass all their stages, DEGRADED if some do, and RECOVERING if none does; the failed state is left
-- only in the first case; and no interface's count of attempts changes, of a success as of a failure,
-- and the coordinator is not shut down.
pub recover_all_interfaces-verdict :
    (now : ℕ) (answers : String → Answers) (iids : List String) (c : ConnectionRecoveryCoordinator)
    → c.shutdown ≡ false
    → All (λ i. Present i c) iids
    → Recoverable c
    → RoundEnds iids c (successes answers iids) (recover_all_interfaces now answers iids c).0
unfolding recover_all_interfaces settle
recover_all_interfaces-verdict now answers iids c l p m =
    let c1 : ConnectionRecoveryCoordinator = (add_all iids c).0 in
    let c2 : ConnectionRecoveryCoordinator = (transition_to_recovering now c1).0 in
    let f1 = add_all-frame iids c in
    let f2 = transition_to_recovering-frame now c1 in
    let states : c2.recovery_states ≡ c.recovery_states = ap states_of f2 ∙ ap states_of f1 in
    let g =
      gather-Gathered answers iids c2
        (subst (λ d. All (λ i. has_key i d ≡ true) iids) (sym states) p) in
    let e : ConnectionRecoveryCoordinator = (gather answers iids c2).0.0 in
    let e' : ConnectionRecoveryCoordinator = (discard_all iids e).0 in
    let f3 = discard_all-frame iids e in
    let k = (gather answers iids c2).1 in
    let m' : central_state e' ≡ some recovering =
      ap central_state f3
      ∙ ap (λ x. elim x [ none ↦ none | some m ↦ some m.state ]) g.1.machine
      ∙ transition_to_recovering-state now c1 (m.0, ap machine_of f1 ∙ m.1, m.2) in
    let s = settle-branch now e' m' (eqb k (length iids)) (ltb 0 k) in
    let flag : e'.in_failed_state ≡ c.in_failed_state =
      ap flag_of f3 ∙ g.1.in_failed_state ∙ ap flag_of f2 ∙ ap flag_of f1 in
    let kept : (j : String) → attempts j (settle now (length iids) k e').0 ≡ attempts j c = λ j.
      ap (λ x. (or_new j (lookup j x)).attempt_count) s.2
      ∙ ap (attempts j) f3
      ∙ (g.1.every j).1
      ∙ ap (λ x. (or_new j (lookup j x)).attempt_count) states in
    let down : (settle now (length iids) k e').0.shutdown ≡ c.shutdown =
      s.3 ∙ ap shutdown_of f3 ∙ g.1.shutdown ∙ ap shutdown_of f2 ∙ ap shutdown_of f1 in
    let body : RoundEnds iids c k (settle now (length iids) k e').0 =
      (s.0, s.1 ∙ ap (λ b. if eqb k (length iids) then false else b) flag, kept, down) in
    if_elim (λ (r : Out). RoundEnds iids c (successes answers iids) r.0) c.shutdown
      (λ h. absurd (ground (arith, l, h)))
      (λ _. subst (λ n. RoundEnds iids c n (settle now (length iids) k e').0) g.0 body)
