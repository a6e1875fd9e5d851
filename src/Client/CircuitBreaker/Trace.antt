-- ===== src/Client/CircuitBreaker/Trace.antt =====
-- What an observer of the published state changes knows.
use aiohomematic.Prelude.{◌≡◌, refl, ◌≢◌, true, List, [], ◌∷◌, ◌++◌, arith}
use aiohomematic.Prelude.Lists.{All}
use aiohomematic.Client.CircuitBreaker.{
  CircuitState, closed, opened, half_open, CircuitBreaker, Effect, state_changed, tripped,
  failure_counter, rejection_counter, transition_counter, tripped_incident, recovered_incident,
  issue_added, issue_removed, Call, polls, fails, rejects, succeeds, resets, step, run,
}

-- The diagram in the module's docstring.
infix 40 ◌⟶◌
pub data ◌⟶◌ : CircuitState → CircuitState → Type 0 where
  trip : closed ⟶ opened
  probe : opened ⟶ half_open
  close : half_open ⟶ closed
  relapse : half_open ⟶ opened

-- The published state changes lead from the one state to the other: each begins where the one
-- before it ended, and is an arrow of the diagram.
abbrev pub Leads : CircuitState → List Effect → CircuitState → Type 0
Leads s [] t = s ≡ t
Leads s (state_changed old new _ _ _ ∷ es) t = (old ≡ s) × (s ⟶ new) × Leads new es t
Leads s (failure_counter ∷ es) t = Leads s es t
Leads s (rejection_counter ∷ es) t = Leads s es t
Leads s (transition_counter ∷ es) t = Leads s es t
Leads s (tripped _ _ ∷ es) t = Leads s es t
Leads s (tripped_incident _ _ _ ∷ es) t = Leads s es t
Leads s (recovered_incident _ ∷ es) t = Leads s es t
Leads s (issue_added ∷ es) t = Leads s es t
Leads s (issue_removed ∷ es) t = Leads s es t

Leads-append :
    (es fs : List Effect) (s t u : CircuitState)
    → Leads s es t
    → Leads t fs u
    → Leads s (es ++ fs) u
Leads-append [] fs s t u p q = rw p q
Leads-append (state_changed old new _ _ _ ∷ es) fs s t u p q =
    (p.0, p.1, Leads-append es fs new t u p.2 q)
Leads-append (_ ∷ es) fs s t u p q = Leads-append es fs s t u p q

step-Leads :
    (c : Call) (b : CircuitBreaker)
    → b.has_event_bus ≡ true
    → c ≢ resets
    → Leads b.state (step c b).1 (step c b).0.state
unfolding step
step-Leads (polls now) b e n = grind (arith, trip, probe, close, relapse)
step-Leads (fails now) b e n = grind (arith, trip, probe, close, relapse)
step-Leads rejects b e n = ground arith
step-Leads succeeds b e n = grind (arith, trip, probe, close, relapse)
step-Leads resets b e n = absurd (n refl)

step-has_event_bus :
    (c : Call) (b : CircuitBreaker) → b.has_event_bus ≡ true → (step c b).0.has_event_bus ≡ true
unfolding step
step-has_event_bus (polls now) b e = ground arith
step-has_event_bus _ b e = ground arith

-- While nobody resets the breaker and there is an event bus, the published state changes of any
-- history lead, along arrows of the documented diagram and without a gap, from the state before it
-- to the state after it.
pub run-Leads :
    (cs : List Call) (b : CircuitBreaker)
    → b.has_event_bus ≡ true
    → All (λ c. c ≢ resets) cs
    → Leads b.state (run cs b).1 (run cs b).0.state
unfolding run
run-Leads [] b e n = refl
run-Leads (c ∷ cs) b e n =
    Leads-append (step c b).1 (run cs (step c b).0).1 b.state (step c b).0.state _
      (step-Leads c b e n.0) (run-Leads cs (step c b).0 (step-has_event_bus c b e) n.1)

-- A reset closes the breaker without an event: the observer is left with the old state.
pub reset-Leads :
    (b : CircuitBreaker)
    → b.state ≢ closed
    → ¬ Leads b.state (step resets b).1 (step resets b).0.state
unfolding step
reset-Leads b n l = n l
