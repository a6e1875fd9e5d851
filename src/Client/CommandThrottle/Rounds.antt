-- ===== src/Client/CommandThrottle/Rounds.antt =====
-- aiohomematic/client/command_throttle.py: no command is lost while the worker runs.
use aiohomematic.Prelude.{
  ℕ, zero, suc, ◌+◌, ◌-◌, ◌≤◌, ◌<◌, ◌≡◌, refl, String, false, List, [], ◌∷◌, arith, ltb, if_elim,
  option_elim, if◌then◌else◌,
}
use aiohomematic.Prelude.Lists.{count, length}
use aiohomematic.Prelude.Dict.{string_eq}
use aiohomematic.Client.CommandThrottle.{
  PrioritizedCommand, HeapQueue, Future, waiting, rejected, Worker, at_top, at_event, in_delay,
  at_end, CommandThrottle, init, settle, stop, reject_all, grant, take, round, work_from, step, run,
  acquires, gives_up, works, stops, Event,
}
use aiohomematic.Client.CommandThrottle.Accounts.{
  is_of, IsAccounted, init-IsAccounted, acquire-IsAccounted,
}

module _ (hq : HeapQueue) where
  reject_all_held :
      (f n : ℕ) (q : List PrioritizedCommand) (futures : ℕ → Future)
      → count (is_of f) (reject_all hq n q futures).0 ≤ count (is_of f) q
  unfolding reject_all
  reject_all_held f zero q futures = omega arith
  reject_all_held f (suc n) q futures =
      option_elim
        (λ (r : List PrioritizedCommand × (ℕ → Future)). count (is_of f) r.0 ≤ count (is_of f) q)
        (hq.heappop q) (λ h. omega arith)
        (λ a h. omega (
          arith,
          hq.count-heappop (is_of f) a.0 q a.1 h,
          reject_all_held f n a.1 (settle a.0.future rejected futures),
        ))

  reject_all-IsHeap :
      (n : ℕ) (q : List PrioritizedCommand) (futures : ℕ → Future)
      → hq.IsHeap q
      → hq.IsHeap (reject_all hq n q futures).0
  unfolding reject_all
  reject_all-IsHeap zero q futures i = i
  reject_all-IsHeap (suc n) q futures i =
      option_elim (λ (r : List PrioritizedCommand × (ℕ → Future)). hq.IsHeap r.0) (hq.heappop q)
        (λ h. i) (λ a h. reject_all-IsHeap n a.1 _ (hq.heappop-IsHeap a.0 q a.1 i h))

  stop-IsAccounted : (s : CommandThrottle) → IsAccounted hq s → IsAccounted hq (stop hq s)
  unfolding stop
  stop-IsAccounted s i =
      if_elim (IsAccounted hq) s.stopped (λ h. i)
        (λ h. record {
          heap = reject_all-IsHeap (length s.queue) s.queue s.futures i.heap;
          once = λ f l e o. absurd (ground (arith, o));
          fresh = λ f l.
              omega (arith, reject_all_held f (length s.queue) s.queue s.futures, i.fresh f l);
        })

  -- The worker lets go of the command in its hand, or of none.
  grant-IsAccounted :
      (c : PrioritizedCommand) (now : ℕ) (s : CommandThrottle)
      → hq.IsHeap s.queue
      → ((f : ℕ)
          → f < s.next_future
          → s.futures f ≡ waiting
          → s.stopped ≡ false
          → count (is_of f) s.queue + (if is_of f c then 1 else 0) ≡ 1)
      → ((f : ℕ) → s.next_future ≤ f → count (is_of f) s.queue + (if is_of f c then 1 else 0) ≡ 0)
      → IsAccounted hq (grant hq c now s)
  unfolding grant
  grant-IsAccounted c now s heap once fresh = record {
    heap = heap;
    once = λ f l e o. ground (arith, once f l, e, o);
    fresh = λ f l. ground (arith, fresh f l);
  }

  take-IsAccounted :
      (c : PrioritizedCommand) (now : ℕ) (s : CommandThrottle)
      → hq.IsHeap s.queue
      → ((f : ℕ)
          → f < s.next_future
          → s.futures f ≡ waiting
          → s.stopped ≡ false
          → count (is_of f) s.queue + (if is_of f c then 1 else 0) ≡ 1)
      → ((f : ℕ) → s.next_future ≤ f → count (is_of f) s.queue + (if is_of f c then 1 else 0) ≡ 0)
      → IsAccounted hq (take hq c now s)
  unfolding take
  take-IsAccounted c now s heap once fresh =
      if_elim (IsAccounted hq) (ltb (now - s.last_command_time) s.interval)
        (λ h. record { heap = heap; once = once; fresh = fresh })
        (λ h. grant-IsAccounted c now s heap once fresh)

  round-IsAccounted :
      (now : ℕ) (s : CommandThrottle)
      → s.worker ≡ at_top
      → IsAccounted hq s
      → IsAccounted hq (round hq now s)
  unfolding round
  round-IsAccounted now s w i =
      if_elim (IsAccounted hq) s.stopped
        (λ h. record {
          heap = i.heap;
          once = λ f l e o. absurd (ground (arith, h, o));
          fresh = λ f l. ground (arith, i.fresh f l);
        })
        (λ h.
          option_elim (IsAccounted hq) (hq.heappop s.queue)
            (λ p.
              if_elim (IsAccounted hq) s.command_available
                (λ a. record { heap = i.heap; once = i.once; fresh = i.fresh })
                (λ a. record {
                  heap = i.heap;
                  once = λ f l e o. ground (arith, i.once f l e o, w);
                  fresh = λ f l. ground (arith, i.fresh f l, w);
                }))
            (λ a p.
              take-IsAccounted a.0 now (record s { queue = a.1 })
                (hq.heappop-IsHeap a.0 s.queue a.1 i.heap p)
                (λ f l e o.
                  ground (arith, i.once f l e o, w, hq.count-heappop (is_of f) a.0 s.queue a.1 p))
                (λ f l.
                  ground (arith, i.fresh f l, w, hq.count-heappop (is_of f) a.0 s.queue a.1 p))))

  work_from-IsAccounted :
      (w : Worker) (now : ℕ) (s : CommandThrottle)
      → s.worker ≡ w
      → IsAccounted hq s
      → IsAccounted hq (work_from hq w now s)
  unfolding work_from
  work_from-IsAccounted at_top now s e i = round-IsAccounted now s e i
  work_from-IsAccounted at_event now s e i =
      if_elim (IsAccounted hq) s.stopped
        (λ h. record {
          heap = i.heap;
          once = λ f l w o. absurd (ground (arith, h, o));
          fresh = λ f l. ground (arith, i.fresh f l);
        })
        (λ h.
          if_elim (IsAccounted hq) s.command_available
            (λ a. record {
              heap = i.heap;
              once = λ f l w o. ground (arith, i.once f l w o, e);
              fresh = λ f l. ground (arith, i.fresh f l, e);
            })
            (λ a. i))
  work_from-IsAccounted (in_delay c until) now s e i =
      if_elim (IsAccounted hq) s.stopped
        (λ h. record {
          heap = i.heap;
          once = λ f l w o. absurd (ground (arith, h, o));
          fresh = λ f l. ground (arith, i.fresh f l);
        })
        (λ h.
          if_elim (IsAccounted hq) (ltb now until) (λ a. i)
            (λ a.
              grant-IsAccounted c now s i.heap (λ f l w o. ground (arith, i.once f l w o, e))
                (λ f l. ground (arith, i.fresh f l, e))))
  work_from-IsAccounted at_end now s e i = i

  step-IsAccounted :
      (now : ℕ) (e : Event) (s : CommandThrottle)
      → IsAccounted hq s
      → IsAccounted hq (step hq now e s)
  unfolding step
  step-IsAccounted now (acquires p d addresses) s i = acquire-IsAccounted hq p d addresses now s i
  step-IsAccounted now (gives_up g) s i = record {
    heap = i.heap;
    once = λ f l e o. ground (arith, i.once f l, e, o);
    fresh = i.fresh;
  }
  step-IsAccounted now works s i = work_from-IsAccounted s.worker now s refl i
  step-IsAccounted now stops s i = stop-IsAccounted s i

  run-IsAccounted_from :
      (es : List (ℕ × Event)) (s : CommandThrottle)
      → IsAccounted hq s
      → IsAccounted hq (run hq es s)
  unfolding run
  run-IsAccounted_from [] s i = i
  run-IsAccounted_from ((now, e) ∷ es) s i =
      run-IsAccounted_from es (step hq now e s) (step-IsAccounted now e s i)

  -- After any history of a new throttle, of calls, callers that give up, steps of the worker and
  -- `stop`: until it is stopped, the command of each caller that waits is held exactly once, in the
  -- queue or in the hand of the worker; a command that no caller was given does not exist; and the
  -- queue is a heap.
  pub run-IsAccounted :
      (interface_id : String) (interval burst_threshold burst_window : ℕ) (es : List (ℕ × Event))
      → IsAccounted hq (run hq es (init interface_id interval burst_threshold burst_window))
  run-IsAccounted i n b w es = run-IsAccounted_from es (init i n b w) (init-IsAccounted hq i n b w)
