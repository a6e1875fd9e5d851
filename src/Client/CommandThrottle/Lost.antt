-- ===== src/Client/CommandThrottle/Lost.antt =====
-- aiohomematic/client/command_throttle.py: a command that neither the queue nor the worker holds any
-- more, in a throttle that is stopped.
use aiohomematic.Prelude.{
  ℕ, ◌+◌, ◌≡◌, ◌≢◌, refl, ap, ◌∙◌, String, Bool, true, List, [], ◌∷◌, arith, ltb, eqb, if_elim,
}
use aiohomematic.Client.CommandThrottle.{
  Admission, CommandPriority, critical, high, low, PrioritizedCommand, HeapQueue, Future, waiting,
  Worker, at_top, at_event, in_delay, at_end, CommandThrottle, stop, enqueue, acquire, detect_burst,
  purge, purge_commands, round, work_from, step, run, Event, acquires, gives_up, works, stops,
}

-- No caller but the one of the future gives up.
abbrev pub IsAwaited : ℕ → List (ℕ × Event) → Type 0
IsAwaited f [] = Unit
IsAwaited f ((now, gives_up g) ∷ es) = (g ≢ f) × IsAwaited f es
IsAwaited f ((now, e) ∷ es) = IsAwaited f es

module _ (hq : HeapQueue) where
  -- A stopped throttle with an empty queue, and a caller that waits.
  pub record IsLost (f : ℕ) (s : CommandThrottle) : Type 0 where
    pub off : s.stopped ≡ true
    pub empty : s.queue ≡ []
    pub waits : s.futures f ≡ waiting

  purge_empty :
      (addresses : List String) (q : List PrioritizedCommand) (futures : ℕ → Future)
      → q ≡ []
      → purge addresses q futures ≡ ([], futures, 0)
  unfolding purge
  purge_empty addresses q futures e = rw e refl

  purge_commands-IsLost :
      (f : ℕ) (addresses : List String) (s : CommandThrottle)
      → IsLost f s
      → IsLost f (purge_commands hq addresses s)
  unfolding purge_commands
  purge_commands-IsLost f addresses s i =
      let e = purge_empty addresses s.queue s.futures i.empty in
      if_elim (IsLost f) (ltb 0 (purge addresses s.queue s.futures).2)
        (λ h. absurd (ground (arith, h, e)))
        (λ h. record { off = i.off; empty = i.empty; waits = ap (λ r. r.1 f) e ∙ i.waits })

  critical-IsLost :
      (f : ℕ) (addresses : List String) (s : CommandThrottle)
      → IsLost f s
      → (let s' = record s { critical_count = s.critical_count + 1 } in
          IsLost f (elim addresses [ [] ↦ s' | a ∷ as' ↦ purge_commands hq (a ∷ as') s' ]))
  critical-IsLost f [] s i = record { off = i.off; empty = i.empty; waits = i.waits }
  critical-IsLost f (a ∷ as') s i =
      purge_commands-IsLost f (a ∷ as') _ (record { off = i.off; empty = i.empty; waits = i.waits })

  enqueue-IsLost :
      (f : ℕ) (p : CommandPriority) (d : String) (now : ℕ) (s : CommandThrottle)
      → IsLost f s
      → IsLost f (enqueue hq p d now s).1
  unfolding enqueue
  enqueue-IsLost f p d now s i =
      if_elim (λ (r : Admission × CommandThrottle). IsLost f r.1) s.stopped (λ h. i)
        (λ h. absurd (ground (arith, h, i.off)))

  detect_burst-IsLost :
      (f now : ℕ) (s : CommandThrottle) → IsLost f s → IsLost f (detect_burst now s).1
  unfolding detect_burst
  detect_burst-IsLost f now s i =
      if_elim (λ (r : Bool × CommandThrottle). IsLost f r.1) (eqb s.burst_threshold 0) (λ h. i)
        (λ h. record { off = i.off; empty = i.empty; waits = i.waits })

  acquire-IsLost :
      (f : ℕ) (p : CommandPriority) (d : String) (addresses : List String) (now : ℕ)
      (s : CommandThrottle)
      → IsLost f s
      → IsLost f (acquire hq p d addresses now s).1
  unfolding acquire
  acquire-IsLost f critical d addresses now s i =
      if_elim (λ (r : Admission × CommandThrottle). IsLost f r.1) (eqb s.interval 0) (λ h. i)
        (λ h. critical-IsLost f addresses s i)
  acquire-IsLost f high d addresses now s i =
      let i' = detect_burst-IsLost f now s i in
      if_elim (λ (r : Admission × CommandThrottle). IsLost f r.1) (eqb s.interval 0) (λ h. i)
        (λ h.
          if_elim (λ (r : Admission × CommandThrottle). IsLost f r.1) (detect_burst now s).0
            (λ h'.
              enqueue-IsLost f low d now _
                (record { off = i'.off; empty = i'.empty; waits = i'.waits }))
            (λ h'. enqueue-IsLost f high d now _ i'))
  acquire-IsLost f low d addresses now s i =
      if_elim (λ (r : Admission × CommandThrottle). IsLost f r.1) (eqb s.interval 0) (λ h. i)
        (λ h. enqueue-IsLost f low d now s i)

  work_from-IsLost :
      (f now : ℕ) (w : Worker) (s : CommandThrottle) → IsLost f s → IsLost f (work_from hq w now s)
  unfolding work_from round
  work_from-IsLost f now at_top s i =
      if_elim (IsLost f) s.stopped (λ h. record { off = i.off; empty = i.empty; waits = i.waits })
        (λ h. absurd (ground (arith, h, i.off)))
  work_from-IsLost f now at_event s i =
      if_elim (IsLost f) s.stopped (λ h. record { off = i.off; empty = i.empty; waits = i.waits })
        (λ h. absurd (ground (arith, h, i.off)))
  work_from-IsLost f now (in_delay c until) s i =
      if_elim (IsLost f) s.stopped (λ h. record { off = i.off; empty = i.empty; waits = i.waits })
        (λ h. absurd (ground (arith, h, i.off)))
  work_from-IsLost f now at_end s i = i

  stop-IsLost : (f : ℕ) (s : CommandThrottle) → IsLost f s → IsLost f (stop hq s)
  unfolding stop
  stop-IsLost f s i = if_elim (IsLost f) s.stopped (λ h. i) (λ h. absurd (ground (arith, h, i.off)))

  pub run-IsLost :
      (f : ℕ) (es : List (ℕ × Event)) (s : CommandThrottle)
      → IsAwaited f es
      → IsLost f s
      → IsLost f (run hq es s)
  unfolding run step
  run-IsLost f [] s a i = i
  run-IsLost f ((now, acquires p d addresses) ∷ es) s a i =
      run-IsLost f es _ a (acquire-IsLost f p d addresses now s i)
  run-IsLost f ((now, gives_up g) ∷ es) s a i =
      run-IsLost f es _ a.1
        (record { off = i.off; empty = i.empty; waits = ground (arith, i.waits, a.0) })
  run-IsLost f ((now, works) ∷ es) s a i = run-IsLost f es _ a (work_from-IsLost f now s.worker s i)
  run-IsLost f ((now, stops) ∷ es) s a i = run-IsLost f es _ a (stop-IsLost f s i)
