-- ===== src/Client/RequestCoalescer/Clearing.antt =====
-- aiohomematic/client/request_coalescer.py: what `clear` does to the executions under way.
use aiohomematic.Prelude.{
  ℕ, ◌<◌, ◌≡◌, refl, subst, ap, ◌⊎◌, inl, inr, String, Bool, Option, none, some, List, [], ◌∷◌, eqb,
  arith, Option-cases, Bool-cases,
}
use aiohomematic.Prelude.Dict.{
  Dict, lookup, insert, remove, lookup-remove, Unique, string_eq, nat_eq,
}
use aiohomematic.Client.RequestCoalescer.{
  PendingRequest, RequestCoalescer, Future, waiting, cancelled, Outcome, returned, raised,
  was_cancelled, failure_counter, when, raises_key_error, raises_invalid_state, System, Event,
  begin, finish, clear, cancel_all, start, run,
}
use aiohomematic.Client.RequestCoalescer.Steps.{InSync}
use aiohomematic.Client.RequestCoalescer.Laws.{run-InSync}

module _ {V E : Type 0} where
  cancel_all_keeps :
      (f : ℕ) (d : Dict String PendingRequest) (futures : ℕ → Future V E)
      → futures f ≡ cancelled
      → cancel_all d futures f ≡ cancelled
  unfolding cancel_all
  cancel_all_keeps f [] futures h = h
  cancel_all_keeps f ((key, p) ∷ d) futures h = cancel_all_keeps f d _ (ground (arith, h))

  cancel_all_lem :
      (key : String) (p : PendingRequest) (d : Dict String PendingRequest)
      (futures : ℕ → Future V E)
      → lookup key d ≡ some p
      → (futures p.future ≡ waiting) ⊎ (futures p.future ≡ cancelled)
      → cancel_all d futures p.future ≡ cancelled
  unfolding cancel_all lookup
  cancel_all_lem key p [] futures h w = absurd (ground arith)
  cancel_all_lem key p ((k, q) ∷ d) futures h w = elim (Bool-cases (eqb p.future q.future)) [
    | inl same ↦ cancel_all_keeps p.future d _ (ground (arith, same, w))
    | inr other ↦
        cancel_all_lem key p d _ (ground (arith, h, other, ap (λ (o : Option PendingRequest). o) h))
          (ground (arith, other, w))
  ]

  -- Clearing cancels the future of an execution under way, and takes its key.
  clear_lem :
      (key : String) (f : ℕ) (s : System V E)
      → lookup f s.running ≡ some key
      → InSync s
      → (clear s.coalescer).futures f ≡ cancelled
  unfolding clear
  clear_lem key f s h i = elim (Option-cases (lookup key s.coalescer.pending)) [
    | inl absent ↦ absurd (ground (arith, absent, i.in_step key f, h))
    | inr found ↦
        let (p, present) = found in
        let same : p.future ≡ f = ground (arith, present, i.in_step key f, h) in
        subst (λ g. cancel_all s.coalescer.pending s.coalescer.futures g ≡ cancelled) same
          (cancel_all_lem key p s.coalescer.pending s.coalescer.futures present
            (ground (arith, same, i.running_waits f key h)))
  ]

  finish-cancelled :
      (key : String) (f : ℕ) (o : Outcome V E) (c : RequestCoalescer V E)
      → lookup key c.pending ≡ none
      → c.futures f ≡ cancelled
      → (finish key f o c).0 ≡ raises_key_error
  unfolding finish
  finish-cancelled key f (returned v) c h w = ground (arith, h, w)
  finish-cancelled key f (raised e) c h w = ground (arith, h, w)
  finish-cancelled key f was_cancelled c h w = ground (arith, h, w)

  -- After any calls, ends of executions and cancelled callers from a new coalescer, clearing it cancels the future of
  -- an execution under way; and when the execution then ends, in whatever way, the caller that leads
  -- gets a `KeyError` in place of the outcome.
  pub clear-finish :
      (bus : Bool) (es : List (Event V E)) (key : String) (f : ℕ) (o : Outcome V E)
      → lookup f (run es (start bus)).running ≡ some key
      → ((clear (run es (start bus)).coalescer).futures f ≡ cancelled)
        × ((finish key f o (clear (run es (start bus)).coalescer)).0 ≡ raises_key_error)
  unfolding clear lookup
  clear-finish bus es key f o h =
      let gone = clear_lem key f (run es (start bus)) h (run-InSync bus es) in
      (gone, finish-cancelled key f o (clear (run es (start bus)).coalescer) refl gone)

  finish-late :
      (key : String) (f : ℕ) (v : V) (p : PendingRequest) (c : RequestCoalescer V E)
      → lookup key c.pending ≡ some p
      → c.futures f ≡ cancelled
      → finish key f (returned v) c ≡ (
        raises_invalid_state,
        record c { pending = remove key c.pending },
        when c.has_event_bus (failure_counter ∷ []),
      )
  unfolding finish
  finish-late key f v p c h w = ground (arith, h, w)

  -- The coalescer after it was cleared and then called with the key.
  abbrev pub reopened : String → RequestCoalescer V E → RequestCoalescer V E
  reopened key c = (begin key (clear c)).1

  reopened_lem :
      (key : String) (f : ℕ) (c : RequestCoalescer V E)
      → f < c.next_future
      → (clear c).futures f ≡ cancelled
      → (lookup key (reopened key c).pending
          ≡ some (record { future = c.next_future; waiter_count = 1 }))
        × ((reopened key c).futures f ≡ cancelled)
        × ((reopened key c).futures c.next_future ≡ waiting)
        × Unique (reopened key c).pending
  unfolding begin clear lookup insert
  reopened_lem key f c old gone = (
    ground (arith, string_eq.equal_iff key key),
    ground (arith, old, gone),
    ground arith,
    (refl, tt),
  )

  -- After any calls, ends of executions and cancelled callers from a new coalescer, let it be cleared while an
  -- execution is under way, and called with the same key again. When the first execution returns,
  -- its caller gets an `InvalidStateError`, and the key is no longer pending although the second
  -- execution, which a further call should join, is still under way.
  pub clear-begin-finish :
      (bus : Bool) (es : List (Event V E)) (key : String) (f : ℕ) (v : V)
      → lookup f (run es (start bus)).running ≡ some key
      → let c = (run es (start bus)).coalescer in
        ((finish key f (returned v) (reopened key c)).0 ≡ raises_invalid_state)
        × (lookup key (finish key f (returned v) (reopened key c)).1.pending ≡ none)
        × ((finish key f (returned v) (reopened key c)).1.futures c.next_future ≡ waiting)
  clear-begin-finish bus es key f v h =
      let s = run es (start bus) in
      let i = run-InSync bus es in
      let (here, gone, waits, unique) =
        reopened_lem key f s.coalescer (i.running_waits f key h).1 (clear_lem key f s h i) in
      let late = finish-late key f v _ (reopened key s.coalescer) here gone in
      rw late (
        refl,
        ground (
          arith,
          lookup-remove key key (reopened key s.coalescer).pending unique,
          string_eq.equal_iff key key,
        ),
        waits,
      )
