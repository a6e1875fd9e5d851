-- ===== src/Central/StateMachine/History.antt =====
-- The bounded history against the full record of admitted transitions.
use aiohomematic.Prelude.{
  ℕ, zero, suc, ◌+◌, ◌-◌, ◌≡◌, refl, ap, ◌∙◌, sym, ◌≡⟨◌⟩◌, ◌∎, String, Bool, Bool-cases, inl, inr,
  ltb, ◌||◌, List, [], ◌∷◌, ◌++◌, arith, if◌then◌else◌,
}
use mathlib.Core.List.{append_assoc, append-nil}
use aiohomematic.Prelude.Lists.{
  length, take, drop, length-append, length-drop, drop-append, drop-drop,
}
use aiohomematic.Const.{CentralState, starting}
use aiohomematic.Central.StateMachine.{
  CentralStateMachine, Request, Entry, init, keep_last, attempt, run, can_transition_to,
}

-- Every transition that is admitted, in order and without a bound.
abbrev pub entry : CentralState × Request → CentralStateMachine → List Entry
entry (target, r) m =
    if r.force || can_transition_to target m
    then record { at = r.now; old = m.state; new = target; reason = r.reason } ∷ []
    else []

abbrev pub log : List (CentralState × Request) → CentralStateMachine → List Entry
log [] m = []
log (a ∷ as') m = entry a m ++ log as' (attempt a m).0

-- Each entry begins in the state where the one before it ended.
abbrev pub Linked : CentralState → List Entry → CentralState → Type 0
Linked s [] t = s ≡ t
Linked s (e ∷ es) t = (e.old ≡ s) × Linked e.new es t

keep_last-drop : (es : List Entry) → keep_last es ≡ drop (length es - 100) es
unfolding keep_last
keep_last-drop es = elim (Bool-cases (ltb 100 (length es))) [
  | inl long ↦ rw (long, keep_last)
  | inr short ↦
      let none_dropped : length es - 100 ≡ 0 = ground arith in rw (short, keep_last, none_dropped)
]

keep_last-append : (xs ys : List Entry) → keep_last (keep_last xs ++ ys) ≡ keep_last (xs ++ ys)
keep_last-append xs ys =
    let k = length xs - 100 in
    keep_last (keep_last xs ++ ys)
    ≡⟨ (λ i. keep_last (keep_last-drop xs i ++ ys)) ⟩ keep_last (drop k xs ++ ys)
    ≡⟨ ap keep_last (drop-append k xs ys (omega arith)) ⟩ keep_last (drop k (xs ++ ys))
    ≡⟨ keep_last-drop _ ⟩ drop (length (drop k (xs ++ ys)) - 100) (drop k (xs ++ ys))
    ≡⟨ drop-drop _ k (xs ++ ys) ⟩ drop (k + (length (drop k (xs ++ ys)) - 100)) (xs ++ ys)
    ≡⟨ ap (λ n. drop n (xs ++ ys)) (omega (arith, length-drop k (xs ++ ys), length-append xs ys)) ⟩
      drop (length (xs ++ ys) - 100) (xs ++ ys)
    ≡⟨ sym (keep_last-drop _) ⟩ keep_last (xs ++ ys) ∎

attempt-history :
    (a : CentralState × Request) (m : CentralStateMachine)
    → m.state_history ≡ keep_last m.state_history
    → (attempt a m).0.state_history ≡ keep_last (m.state_history ++ entry a m)
unfolding attempt
attempt-history (target, r) m h = ground (arith, append-nil m.state_history)

keep_last_idem : (es : List Entry) → keep_last (keep_last es) ≡ keep_last es
keep_last_idem es =
    ap keep_last (sym (append-nil _)) ∙ keep_last-append es [] ∙ ap keep_last (append-nil es)

run-history_from :
    (as' : List (CentralState × Request)) (m : CentralStateMachine) (es : List Entry)
    → m.state_history ≡ keep_last es
    → (run as' m).0.state_history ≡ keep_last (es ++ log as' m)
unfolding run
run-history_from [] m es h = h ∙ ap keep_last (sym (append-nil es))
run-history_from (a ∷ as') m es h =
    let kept : m.state_history ≡ keep_last m.state_history =
      h ∙ sym (keep_last_idem es) ∙ ap keep_last (sym h) in
    let next : (attempt a m).0.state_history ≡ keep_last (es ++ entry a m) =
      attempt-history a m kept
      ∙ ap (λ hs. keep_last (hs ++ entry a m)) h
      ∙ keep_last-append es (entry a m) in
    run-history_from as' (attempt a m).0 (es ++ entry a m) next
    ∙ ap keep_last (append_assoc es (entry a m) (log as' (attempt a m).0))

Linked-append :
    (es fs : List Entry) (s t u : CentralState)
    → Linked s es t
    → Linked t fs u
    → Linked s (es ++ fs) u
Linked-append [] fs s t u p q = rw p q
Linked-append (e ∷ es) fs s t u p q = (p.0, Linked-append es fs e.new t u p.1 q)

entry-Linked :
    (a : CentralState × Request) (m : CentralStateMachine)
    → Linked m.state (entry a m) (attempt a m).0.state
unfolding attempt
entry-Linked (target, r) m = ground arith

log-Linked :
    (as' : List (CentralState × Request)) (m : CentralStateMachine)
    → Linked m.state (log as' m) (run as' m).0.state
unfolding run
log-Linked [] m = refl
log-Linked (a ∷ as') m =
    Linked-append (entry a m) (log as' (attempt a m).0) m.state (attempt a m).0.state _
      (entry-Linked a m) (log-Linked as' (attempt a m).0)

take-drop : (n : ℕ) (es : List Entry) → es ≡ take n es ++ drop n es
take-drop zero [] = refl
take-drop (suc n) [] = refl
take-drop zero (e ∷ es) = refl
take-drop (suc n) (e ∷ es) = ap (e ∷◌) (take-drop n es)

-- After any history of transitions of a new machine, the full record of the admitted transitions
-- ends with the kept history, which has 100 entries, or as many as the record where that has fewer;
-- and the full record is a gapless chain from STARTING to the present state.
pub run-history :
    (name : String) (bus : Bool) (now : ℕ) (as' : List (CentralState × Request))
    → let m = init name bus now in
      let kept = (run as' m).0.state_history in
      ((older : List Entry) × (log as' m ≡ older ++ kept))
      × (length kept ≡ (if ltb 100 (length (log as' m)) then 100 else length (log as' m)))
      × Linked starting (log as' m) (run as' m).0.state
unfolding init keep_last
run-history name bus now as' =
    let es = log as' (init name bus now) in
    let kept = run-history_from as' (init name bus now) [] refl ∙ keep_last-drop es in
    (
      (
        take (length es - 100) es,
        take-drop (length es - 100) es ∙ ap (take (length es - 100) es ++◌) (sym kept),
      ),
      ground (arith, ap length kept, length-drop (length es - 100) es),
      log-Linked as' (init name bus now),
    )
