-- ===== src/Client/RequestCoalescer/Laws.antt =====
-- aiohomematic/client/request_coalescer.py: callers of one coalescer in any order, while nobody
-- clears it.
use aiohomematic.Prelude.{
  ℕ, ◌<◌, ◌≡◌, ap, ◌↔◌, ◌⊎◌, refl, subst, if_elim, Option, inl, inr, String, Bool, none, some, List,
  [], ◌∷◌, arith, Option-cases,
}
use aiohomematic.Prelude.Dict.{contains, lookup, lookup-insert, lookup-remove, string_eq, nat_eq}
use aiohomematic.Client.RequestCoalescer.{
  PendingRequest, Future, Outcome, waiting, cancelled, result, exception, returned, raised,
  was_cancelled, returns, raises, raises_cancelled, Ending, RequestCoalescer, cancel, give_up,
  gives_up, await_existing, joins, System, Event, calls, ends, begin, finish, start, step, run,
}
use aiohomematic.Client.RequestCoalescer.Steps.{
  InSync, start-InSync, joined, step-joined, joined-InSync, led, step-led, led-InSync, ended,
  step-ended, step-idle, ended-InSync, step-InSync_gives_up, resolution, ending, finish_lem,
}

module _ {V E : Type 0} where
  step-InSync : (e : Event V E) (s : System V E) → InSync s → InSync (step e s)
  step-InSync (calls key) s i = elim (Option-cases (lookup key s.coalescer.pending)) [
    | inl absent ↦ rw (step-led key s absent) (led-InSync key s absent i)
    | inr found ↦
        let (p, present) = found in
        rw (step-joined key p s present) (joined-InSync key p s present i)
  ]
  step-InSync (ends f o) s i = elim (Option-cases (lookup f s.running)) [
    | inl absent ↦ rw (step-idle f o s absent) i
    | inr found ↦
        let (key, present) = found in
        rw (step-ended key f o s present i) (ended-InSync key f o s present i)
  ]
  step-InSync (gives_up f) s i = step-InSync_gives_up f s i

  pub run-InSync_from : (es : List (Event V E)) (s : System V E) → InSync s → InSync (run es s)
  unfolding run
  run-InSync_from [] s i = i
  run-InSync_from (e ∷ es) s i = run-InSync_from es (step e s) (step-InSync e s i)

  -- A future that is done stays so; one that waits may be cancelled, and nothing else.
  abbrev Kept : Future V E → Future V E → Type 0
  Kept waiting v = (v ≡ waiting) ⊎ (v ≡ cancelled)
  Kept u v = v ≡ u

  Kept-cancel :
      (u : Future V E) (f g : ℕ) (futures : ℕ → Future V E)
      → Kept u (futures f)
      → Kept u (cancel g futures f)
  Kept-cancel waiting f g futures h = ground (arith, h)
  Kept-cancel cancelled f g futures h = ground (arith, h)
  Kept-cancel (result v) f g futures h = ground (arith, h)
  Kept-cancel (exception e) f g futures h = ground (arith, h)

  Kept-refl : (u : Future V E) → Kept u u
  Kept-refl waiting = inl refl
  Kept-refl cancelled = refl
  Kept-refl (result v) = refl
  Kept-refl (exception e) = refl

  -- The future `f` was given out and its execution has ended with the value `v`.
  record IsSettled (f : ℕ) (v : Future V E) (s : System V E) : Type 0 where
    given : f < s.coalescer.next_future
    gone : lookup f s.running ≡ none
    holds : Kept v (s.coalescer.futures f)

  IsSettled-joined :
      (f : ℕ) (v : Future V E) (key : String) (p : PendingRequest) (s : System V E)
      → IsSettled f v s
      → IsSettled f v (joined key p s)
  IsSettled-joined f v key p s h = record { given = h.given; gone = h.gone; holds = h.holds }

  IsSettled-led :
      (f : ℕ) (v : Future V E) (key : String) (s : System V E)
      → IsSettled f v s
      → IsSettled f v (led key s)
  IsSettled-led f v key s h = record {
    given = ground (arith, h.given);
    gone = ground (arith, lookup-insert s.coalescer.next_future f key s.running, h.given, h.gone);
    holds = subst (Kept v) (ground (arith, h.given)) h.holds;
  }

  -- Ending another execution.
  IsSettled-ended :
      (f : ℕ) (v : Future V E) (key : String) (g : ℕ) (o : Outcome V E) (s : System V E)
      → lookup g s.running ≡ some key
      → InSync s
      → IsSettled f v s
      → IsSettled f v (ended key g o s)
  IsSettled-ended f v key g o s r i h = record {
    given = h.given;
    gone = ground (arith, lookup-remove g f s.running i.running_unique, h.gone);
    holds = subst (Kept v) (ground (arith, h.gone, r)) h.holds;
  }

  step-IsSettled :
      (f : ℕ) (v : Future V E) (e : Event V E) (s : System V E)
      → InSync s
      → IsSettled f v s
      → IsSettled f v (step e s)
  step-IsSettled f v (calls key) s i h = elim (Option-cases (lookup key s.coalescer.pending)) [
    | inl absent ↦ rw (step-led key s absent) (IsSettled-led f v key s h)
    | inr found ↦
        let (p, present) = found in
        rw (step-joined key p s present) (IsSettled-joined f v key p s h)
  ]
  step-IsSettled f v (ends g o) s i h = elim (Option-cases (lookup g s.running)) [
    | inl absent ↦ rw (step-idle g o s absent) h
    | inr found ↦
        let (key, present) = found in
        rw (step-ended key g o s present i) (IsSettled-ended f v key g o s present i h)
  ]
  step-IsSettled f v (gives_up g) s i h =
      unfold step give_up in
      (if_elim (IsSettled f v) (contains g s.joined)
        (λ _. record {
          given = h.given;
          gone = h.gone;
          holds = Kept-cancel v f g s.coalescer.futures h.holds;
        })
        (λ _. h))

  run-IsSettled :
      (f : ℕ) (v : Future V E) (es : List (Event V E)) (s : System V E)
      → InSync s
      → IsSettled f v s
      → IsSettled f v (run es s)
  unfolding run
  run-IsSettled f v [] s i h = h
  run-IsSettled f v (e ∷ es) s i h =
      run-IsSettled f v es (step e s) (step-InSync e s i) (step-IsSettled f v e s i h)

  -- The end of an execution settles its future.
  ended-IsSettled :
      (f : ℕ) (key : String) (o : Outcome V E) (s : System V E)
      → lookup f s.running ≡ some key
      → InSync s
      → IsSettled f (resolution (s.coalescer.futures f) o) (step (ends f o) s)
  ended-IsSettled f key o s h i = rw (step-ended key f o s h i) (record {
    given = (i.running_waits f key h).1;
    gone = ground (arith, lookup-remove f f s.running i.running_unique);
    holds =
        subst (Kept (resolution (s.coalescer.futures f) o)) (ground arith)
          (Kept-refl (resolution (s.coalescer.futures f) o));
  })

  finish-ending :
      (f : ℕ) (key : String) (o : Outcome V E) (s : System V E)
      → lookup f s.running ≡ some key
      → InSync s
      → (finish key f o s.coalescer).0 ≡ ending (s.coalescer.futures f) o
  finish-ending f key o s h i = elim (Option-cases (lookup key s.coalescer.pending)) [
    | inl absent ↦ absurd (ground (arith, absent, i.in_step key f, h))
    | inr found ↦
        let (p, present) = found in ap (λ r. r.0) (finish_lem key f o p s.coalescer present)
  ]

  begin-joins :
      (key : String) (f : ℕ) (s : System V E)
      → InSync s
      → ((begin key s.coalescer).0 ≡ joins f) ↔ (lookup f s.running ≡ some key)
  unfolding begin
  begin-joins key f s i = ground (arith, i.in_step key f)

  -- After any calls, ends of executions and cancelled callers from a new coalescer: the key of an
  -- execution, and no other key, is pending with the future of the execution, so that no key has
  -- two executions. That future is not resolved: it waits, or it is cancelled and another caller
  -- has awaited it.
  pub run-InSync : (bus : Bool) (es : List (Event V E)) → InSync (run es (start bus))
  run-InSync bus es = run-InSync_from es (start bus) (start-InSync bus)

  -- After any calls, ends of executions and cancelled callers from a new coalescer, a further call
  -- with a key awaits a future exactly if an execution for that future and key is under way.
  pub run-joins :
      (bus : Bool) (es : List (Event V E)) (key : String) (f : ℕ)
      → ((begin key (run es (start bus)).coalescer).0 ≡ joins f)
        ↔ (lookup f (run es (start bus)).running ≡ some key)
  run-joins bus es key f = begin-joins key f (run es (start bus)) (run-InSync bus es)

  -- What a caller gets that awaits a future, from what the future was when its execution ended.
  abbrev pub Gets : Future V E → Outcome V E → Option (Ending V E) → Type 0
  Gets waiting (returned v) x = x ≡ some (returns v)
  Gets waiting (raised e) x = x ≡ some (raises e)
  Gets waiting was_cancelled x = (x ≡ none) ⊎ (x ≡ some raises_cancelled)
  Gets _ o x = x ≡ some raises_cancelled

  Gets-Kept :
      (u : Future V E) (f : ℕ) (o : Outcome V E) (c : RequestCoalescer V E)
      → (u ≡ waiting) ⊎ (u ≡ cancelled)
      → Kept (resolution u o) (c.futures f)
      → Gets u o (await_existing f c)
  unfolding await_existing
  Gets-Kept waiting f (returned v) c w k = ground (arith, k)
  Gets-Kept waiting f (raised e) c w k = ground (arith, k)
  Gets-Kept waiting f was_cancelled c w k = ground (arith, k)
  Gets-Kept cancelled f (returned v) c w k = ground (arith, k)
  Gets-Kept cancelled f (raised e) c w k = ground (arith, k)
  Gets-Kept cancelled f was_cancelled c w k = ground (arith, k)
  Gets-Kept (result v) f o c w k = absurd (ground (arith, w))
  Gets-Kept (exception e) f o c w k = absurd (ground (arith, w))

  -- After any calls, ends of executions and cancelled callers from a new coalescer, let an
  -- execution end that is under way. If its future waits, its result or exception is passed to the
  -- caller that leads and, whatever follows, to every caller that awaits the future; a cancelled
  -- execution cancels the caller that leads, and the others get nothing, ever, but a cancellation
  -- of one of themselves. If a caller that was cancelled has cancelled the future, the caller that
  -- leads gets an `InvalidStateError` in place of the result or exception, and the others a
  -- cancellation.
  pub run-resolves :
      (bus : Bool) (es es' : List (Event V E)) (key : String) (f : ℕ) (o : Outcome V E)
      → lookup f (run es (start bus)).running ≡ some key
      → let s = run es (start bus) in
        ((finish key f o s.coalescer).0 ≡ ending (s.coalescer.futures f) o)
        × Gets (s.coalescer.futures f) o (await_existing f (run es' (step (ends f o) s)).coalescer)
  run-resolves bus es es' key f o h =
      let i = run-InSync bus es in
      let s = run es (start bus) in
      (
        finish-ending f key o s h i,
        Gets-Kept (s.coalescer.futures f) f o (run es' (step (ends f o) s)).coalescer
            (ground (arith, i.running_waits f key h))
            (run-IsSettled f (resolution (s.coalescer.futures f) o) es' (step (ends f o) s)
              (step-InSync (ends f o) s i) (ended-IsSettled f key o s h i)).holds,
      )
