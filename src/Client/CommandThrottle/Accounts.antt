-- ===== src/Client/CommandThrottle/Accounts.antt =====
-- aiohomematic/client/command_throttle.py: the account of the waiting callers' commands, and that
-- `acquire` keeps it.
use aiohomematic.Prelude.{
  ℕ, ◌+◌, ◌≤◌, ◌<◌, ◌≡◌, refl, inl, inr, String, Bool, false, List, [], ◌∷◌, arith, eqb, ltb,
  Bool-cases, if_elim, if◌then◌else◌,
}
use aiohomematic.Prelude.Lists.{count}
use aiohomematic.Prelude.Dict.{contains, string_eq}
use aiohomematic.Client.CommandThrottle.{
  Admission, CommandPriority, critical, high, low, PrioritizedCommand, HeapQueue, Future, waiting,
  superseded, Worker, in_delay, CommandThrottle, init, settle, purge, detect_burst, purge_commands,
  enqueue, acquire,
}

-- Is it the command of the future?
abbrev pub is_of : ℕ → PrioritizedCommand → Bool
is_of f c = eqb c.future f

-- The command in the worker's hand, as a count.
abbrev pub in_hand : ℕ → Worker → ℕ
in_hand f (in_delay c until) = if is_of f c then 1 else 0
in_hand f _ = 0

abbrev pub held : ℕ → CommandThrottle → ℕ
held f s = count (is_of f) s.queue + in_hand f s.worker

module _ (hq : HeapQueue) where
  -- While the throttle runs, the command of each waiting caller is held exactly once, in the queue or
  -- by the worker; numbers that were not given out have no command; and the queue is a heap.
  pub record IsAccounted (s : CommandThrottle) : Type 0 where
    pub heap : hq.IsHeap s.queue
    pub once :
        (f : ℕ) → f < s.next_future → s.futures f ≡ waiting → s.stopped ≡ false → held f s ≡ 1
    pub fresh : (f : ℕ) → s.next_future ≤ f → held f s ≡ 0

  pub init-IsAccounted : (i : String) (n b w : ℕ) → IsAccounted (init i n b w)
  unfolding init
  init-IsAccounted i n b w = record {
    heap = hq.nil-IsHeap;
    once = λ f l e o. absurd (omega arith);
    fresh = λ f l. ground arith;
  }

  enqueue-IsAccounted :
      (p : CommandPriority) (d : String) (now : ℕ) (s : CommandThrottle)
      → IsAccounted s
      → IsAccounted (enqueue hq p d now s).1
  unfolding enqueue
  enqueue-IsAccounted p d now s i =
      if_elim (λ (r : Admission × CommandThrottle). IsAccounted r.1) s.stopped (λ h. i)
        (λ h. record {
          heap = hq.heappush-IsHeap _ _ i.heap;
          once = λ f l e o. ground (
            arith,
            hq.count-heappush (is_of f)
                (record {
                  priority = p;
                  timestamp = now;
                  future = s.next_future;
                  device_address = d;
                })
                s.queue,
            i.once f,
            i.fresh f,
            l,
            e,
            o,
          );
          fresh = λ f l. ground (
            arith,
            hq.count-heappush (is_of f)
                (record {
                  priority = p;
                  timestamp = now;
                  future = s.next_future;
                  device_address = d;
                })
                s.queue,
            i.fresh f,
            l,
          );
        })

  detect_burst-IsAccounted :
      (now : ℕ) (s : CommandThrottle) → IsAccounted s → IsAccounted (detect_burst now s).1
  unfolding detect_burst
  detect_burst-IsAccounted now s i =
      if_elim (λ (r : Bool × CommandThrottle). IsAccounted r.1) (eqb s.burst_threshold 0) (λ h. i)
        (λ h. record { heap = i.heap; once = i.once; fresh = i.fresh })

  -- Purging leaves the commands of the callers that still wait, and adds none.
  purge_once :
      (f : ℕ) (addresses : List String) (q : List PrioritizedCommand) (futures : ℕ → Future)
      → (purge addresses q futures).1 f ≡ waiting
      → (futures f ≡ waiting) × (count (is_of f) (purge addresses q futures).0 ≡ count (is_of f) q)
  unfolding purge
  purge_once f addresses [] futures w = (w, refl)
  purge_once f addresses (c ∷ q) futures w =
      elim (Bool-cases (contains c.device_address addresses)) [
        | inl h ↦
            ground (arith, h, w, purge_once f addresses q (settle c.future superseded futures))
        | inr h ↦ ground (arith, h, w, purge_once f addresses q futures)
      ]

  count-purge-le :
      (f : ℕ) (addresses : List String) (q : List PrioritizedCommand) (futures : ℕ → Future)
      → count (is_of f) (purge addresses q futures).0 ≤ count (is_of f) q
  unfolding purge
  count-purge-le f addresses [] futures = omega arith
  count-purge-le f addresses (c ∷ q) futures = ground (
    arith,
    count-purge-le f addresses q futures,
    count-purge-le f addresses q (settle c.future superseded futures),
  )

  purge_commands-IsAccounted :
      (addresses : List String) (s : CommandThrottle)
      → IsAccounted s
      → IsAccounted (purge_commands hq addresses s)
  unfolding purge_commands
  purge_commands-IsAccounted addresses s i =
      if_elim IsAccounted (ltb 0 (purge addresses s.queue s.futures).2)
        (λ h. record {
          heap = hq.heapify-IsHeap _;
          once = λ f l e o. ground (
            arith,
            hq.count-heapify (is_of f) (purge addresses s.queue s.futures).0,
            purge_once f addresses s.queue s.futures e,
            i.once f,
            l,
            o,
          );
          fresh = λ f l. ground (
            arith,
            hq.count-heapify (is_of f) (purge addresses s.queue s.futures).0,
            count-purge-le f addresses s.queue s.futures,
            i.fresh f l,
          );
        })
        (λ h. record {
          heap = i.heap;
          once = λ f l e o. i.once f l (purge_once f addresses s.queue s.futures e).0 o;
          fresh = i.fresh;
        })

  critical-IsAccounted :
      (addresses : List String) (s : CommandThrottle)
      → IsAccounted s
      → (let s' = record s { critical_count = s.critical_count + 1 } in
          IsAccounted (elim addresses [ [] ↦ s' | a ∷ as' ↦ purge_commands hq (a ∷ as') s' ]))
  critical-IsAccounted [] s i = record { heap = i.heap; once = i.once; fresh = i.fresh }
  critical-IsAccounted (a ∷ as') s i =
      purge_commands-IsAccounted (a ∷ as') _
        (record { heap = i.heap; once = i.once; fresh = i.fresh })

  pub acquire-IsAccounted :
      (p : CommandPriority) (d : String) (addresses : List String) (now : ℕ) (s : CommandThrottle)
      → IsAccounted s
      → IsAccounted (acquire hq p d addresses now s).1
  unfolding acquire
  acquire-IsAccounted critical d addresses now s i =
      if_elim (λ (r : Admission × CommandThrottle). IsAccounted r.1) (eqb s.interval 0) (λ h. i)
        (λ h. critical-IsAccounted addresses s i)
  acquire-IsAccounted high d addresses now s i =
      let i' = detect_burst-IsAccounted now s i in
      if_elim (λ (r : Admission × CommandThrottle). IsAccounted r.1) (eqb s.interval 0) (λ h. i)
        (λ h.
          if_elim (λ (r : Admission × CommandThrottle). IsAccounted r.1) (detect_burst now s).0
            (λ h'.
              enqueue-IsAccounted low d now _
                (record { heap = i'.heap; once = i'.once; fresh = i'.fresh }))
            (λ h'. enqueue-IsAccounted high d now _ i'))
  acquire-IsAccounted low d addresses now s i =
      if_elim (λ (r : Admission × CommandThrottle). IsAccounted r.1) (eqb s.interval 0) (λ h. i)
        (λ h. enqueue-IsAccounted low d now s i)
