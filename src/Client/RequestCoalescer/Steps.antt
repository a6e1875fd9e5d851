-- ===== src/Client/RequestCoalescer/Steps.antt =====
-- aiohomematic/client/request_coalescer.py: the states that single steps of the coalescer lead to,
-- and the invariant of the executions under way.
use aiohomematic.Prelude.{
  ℕ, ◌+◌, ◌<◌, ◌≡◌, fun_ext, ◌↔◌, ◌⊎◌, inl, inr, refl, true, if_elim, String, Bool, none, some,
  List, [], ◌∷◌, arith, Option-cases,
}
use aiohomematic.Prelude.Dict.{
  lookup, insert, remove, contains, string_eq, nat_eq, lookup-insert, lookup-remove, Unique,
  Unique-insert, Unique-remove,
}
use aiohomematic.Client.RequestCoalescer.{
  Effect, when, failure_counter, result, exception, returns, raises, raises_cancelled, Ending,
  write, future_of, RequestCoalescer, PendingRequest, Future, waiting, cancelled,
  raises_invalid_state, give_up, gives_up, Outcome, returned, raised, was_cancelled, System, calls,
  ends, finish, start, step, init,
}

-- The executions under way and the pending requests are the same: the key of an execution, and no
-- other key, is pending with the future of the execution, which was given out; it waits, or it was
-- cancelled and another caller has awaited it.
pub record InSync {V E : Type 0} (s : System V E) : Type 0 where
  pub in_step :
      (key : String) (f : ℕ)
      → (future_of key s.coalescer ≡ some f) ↔ (lookup f s.running ≡ some key)
  pub running_waits :
      (f : ℕ) (key : String)
      → lookup f s.running ≡ some key
      → ((s.coalescer.futures f ≡ waiting)
          ⊎ ((s.coalescer.futures f ≡ cancelled) × (contains f s.joined ≡ true)))
        × (f < s.coalescer.next_future)
  pub pending_unique : Unique s.coalescer.pending
  pub running_unique : Unique s.running

module _ {V E : Type 0} where
  pub start-InSync : (bus : Bool) → InSync (start {V = V} {E = E} bus)
  unfolding init lookup
  start-InSync bus = record {
    in_step = λ key f. ground arith;
    running_waits = λ f key h. absurd (ground arith);
    pending_unique = tt;
    running_unique = tt;
  }

  -- The state after a call that finds its key pending.
  abbrev pub joined : String → PendingRequest → System V E → System V E
  joined key p s = record s {
    coalescer = record s.coalescer {
      total_requests = s.coalescer.total_requests + 1;
      pending = insert key (record p { waiter_count = p.waiter_count + 1 }) s.coalescer.pending;
    };
    joined = p.future ∷ s.joined;
  }

  pub step-joined :
      (key : String) (p : PendingRequest) (s : System V E)
      → lookup key s.coalescer.pending ≡ some p
      → step (calls key) s ≡ joined key p s
  unfolding step
  step-joined key p s h = ground (arith, h)

  pub joined-InSync :
      (key : String) (p : PendingRequest) (s : System V E)
      → lookup key s.coalescer.pending ≡ some p
      → InSync s
      → InSync (joined key p s)
  unfolding contains
  joined-InSync key p s h i = record {
    in_step = λ k f. ground (
      arith,
      lookup-insert key k (record p { waiter_count = p.waiter_count + 1 }) s.coalescer.pending,
      h,
      i.in_step k f,
      string_eq.equal_iff key k,
    );
    running_waits = λ f k h'. ground (arith, i.running_waits f k h');
    pending_unique = Unique-insert _ _ _ i.pending_unique;
    running_unique = i.running_unique;
  }

  -- The state after a call that leads.
  abbrev pub led : String → System V E → System V E
  led key s = record s {
    coalescer = record s.coalescer {
      total_requests = s.coalescer.total_requests + 1;
      executed_requests = s.coalescer.executed_requests + 1;
      pending =
          insert key (record { future = s.coalescer.next_future; waiter_count = 1 })
            s.coalescer.pending;
      futures = write s.coalescer.next_future waiting s.coalescer.futures;
      next_future = s.coalescer.next_future + 1;
    };
    running = insert s.coalescer.next_future key s.running;
  }

  pub step-led :
      (key : String) (s : System V E)
      → lookup key s.coalescer.pending ≡ none
      → step (calls key) s ≡ led key s
  unfolding step
  step-led key s h = ground (arith, h)

  pub led-InSync :
      (key : String) (s : System V E)
      → lookup key s.coalescer.pending ≡ none
      → InSync s
      → InSync (led key s)
  led-InSync key s h i = record {
    in_step = λ k f. ground (
      arith,
      lookup-insert key k (record { future = s.coalescer.next_future; waiter_count = 1 })
          s.coalescer.pending,
      lookup-insert s.coalescer.next_future f key s.running,
      h,
      i.in_step k f,
      i.running_waits f k,
      string_eq.equal_iff key k,
    );
    running_waits = λ f k h'.
        ground
          (arith, lookup-insert s.coalescer.next_future f key s.running, i.running_waits f k, h');
    pending_unique = Unique-insert _ _ _ i.pending_unique;
    running_unique = Unique-insert _ _ _ i.running_unique;
  }

  -- The future after the end of its execution: unless it waits, it is left alone.
  abbrev pub resolution : Future V E → Outcome V E → Future V E
  resolution waiting (returned v) = result v
  resolution waiting (raised e) = exception e
  resolution u _ = u

  abbrev pub ending : Future V E → Outcome V E → Ending V E
  ending waiting (returned v) = returns v
  ending waiting (raised e) = raises e
  ending _ was_cancelled = raises_cancelled
  ending _ _ = raises_invalid_state

  -- The state after the end of the execution of the future `f`.
  abbrev pub ended : String → ℕ → Outcome V E → System V E → System V E
  ended key f o s = record s {
    coalescer = record s.coalescer {
      pending = remove key s.coalescer.pending;
      futures = write f (resolution (s.coalescer.futures f) o) s.coalescer.futures;
    };
    running = remove f s.running;
  }

  pub ended-InSync :
      (key : String) (f : ℕ) (o : Outcome V E) (s : System V E)
      → lookup f s.running ≡ some key
      → InSync s
      → InSync (ended key f o s)
  ended-InSync key f o s h i = record {
    in_step = λ k g. ground (
      arith,
      lookup-remove key k s.coalescer.pending i.pending_unique,
      lookup-remove f g s.running i.running_unique,
      h,
      i.in_step k g,
      i.in_step key f,
      string_eq.equal_iff key k,
    );
    running_waits = λ g k h'.
        ground (arith, lookup-remove f g s.running i.running_unique, i.running_waits g k, h');
    pending_unique = Unique-remove _ _ i.pending_unique;
    running_unique = Unique-remove _ _ i.running_unique;
  }

  write_same :
      (f : ℕ) (u : Future V E) (futures : ℕ → Future V E)
      → futures f ≡ u
      → write f u futures ≡ futures
  write_same f u futures h = fun_ext (λ g. ground (arith, h))

  -- The effects of the end of an execution.
  abbrev pub notices : Bool → Future V E → Outcome V E → List Effect
  notices bus waiting (returned v) = []
  notices bus _ was_cancelled = []
  notices bus _ _ = when bus (failure_counter ∷ [])

  finish-at :
      (key : String) (f : ℕ) (o : Outcome V E) (p : PendingRequest) (c : RequestCoalescer V E)
      → (u : Future V E) → lookup key c.pending ≡ some p
      → c.futures f ≡ u
      → finish key f o c ≡ (
        ending u o,
        record c { pending = remove key c.pending; futures = write f (resolution u o) c.futures },
        notices c.has_event_bus u o,
      )
  unfolding finish
  finish-at key f (returned v) p c waiting h w = ground (arith, h, w)
  finish-at key f (raised e) p c waiting h w = ground (arith, h, w)
  finish-at key f was_cancelled p c waiting h w =
      rw (write_same f waiting c.futures w) (ground (arith, h))
  finish-at key f (returned v) p c cancelled h w =
      rw (write_same f cancelled c.futures w) (ground (arith, h, w))
  finish-at key f (raised e) p c cancelled h w =
      rw (write_same f cancelled c.futures w) (ground (arith, h, w))
  finish-at key f was_cancelled p c cancelled h w =
      rw (write_same f cancelled c.futures w) (ground (arith, h))
  finish-at key f (returned v) p c (result x) h w =
      rw (write_same f (result x) c.futures w) (ground (arith, h, w))
  finish-at key f (raised e) p c (result x) h w =
      rw (write_same f (result x) c.futures w) (ground (arith, h, w))
  finish-at key f was_cancelled p c (result x) h w =
      rw (write_same f (result x) c.futures w) (ground (arith, h))
  finish-at key f (returned v) p c (exception x) h w =
      rw (write_same f (exception x) c.futures w) (ground (arith, h, w))
  finish-at key f (raised e) p c (exception x) h w =
      rw (write_same f (exception x) c.futures w) (ground (arith, h, w))
  finish-at key f was_cancelled p c (exception x) h w =
      rw (write_same f (exception x) c.futures w) (ground (arith, h))

  pub finish_lem :
      (key : String) (f : ℕ) (o : Outcome V E) (p : PendingRequest) (c : RequestCoalescer V E)
      → lookup key c.pending ≡ some p
      → finish key f o c ≡ (
        ending (c.futures f) o,
        record c {
          pending = remove key c.pending;
          futures = write f (resolution (c.futures f) o) c.futures;
        },
        notices c.has_event_bus (c.futures f) o,
      )
  finish_lem key f o p c h = finish-at key f o p c (c.futures f) h refl

  pub step-ended :
      (key : String) (f : ℕ) (o : Outcome V E) (s : System V E)
      → lookup f s.running ≡ some key
      → InSync s
      → step (ends f o) s ≡ ended key f o s
  unfolding step
  step-ended key f o s h i = elim (Option-cases (lookup key s.coalescer.pending)) [
    | inl absent ↦ absurd (ground (arith, absent, i.in_step key f, h))
    | inr found ↦
        let (p, present) = found in ground (arith, h, finish_lem key f o p s.coalescer present)
  ]

  pub step-idle :
      (f : ℕ) (o : Outcome V E) (s : System V E) → lookup f s.running ≡ none → step (ends f o) s ≡ s
  unfolding step
  step-idle f o s h = ground (arith, h)

  -- The cancellation of a caller that awaits the future `f`.
  pub step-InSync_gives_up : (f : ℕ) (s : System V E) → InSync s → InSync (step (gives_up f) s)
  unfolding step give_up
  step-InSync_gives_up f s i =
      if_elim InSync (contains f s.joined)
        (λ c. record {
          in_step = i.in_step;
          running_waits = λ g k h. ground (arith, c, i.running_waits g k h);
          pending_unique = i.pending_unique;
          running_unique = i.running_unique;
        })
        (λ _. i)
