-- ===== src/Client/CommandThrottle/Stopping.antt =====
-- aiohomematic/client/command_throttle.py: `stop`, and the command that it forgets.
use aiohomematic.Prelude.{
  ℕ, zero, suc, ◌<◌, ◌≡◌, ◌≢◌, refl, ◌∙◌, inl, inr, true, false, some, List, [], ◌∷◌, arith, ltb,
  Bool-cases, option_elim,
}
use aiohomematic.Prelude.Lists.{count, length}
use aiohomematic.Client.CommandThrottle.{
  PrioritizedCommand, HeapQueue, Future, waiting, rejected, in_delay, CommandThrottle, settle,
  reject_all, stop, run, Event,
}
use aiohomematic.Client.CommandThrottle.Lost.{IsAwaited, run-IsLost}
use aiohomematic.Client.CommandThrottle.Accounts.{is_of, in_hand, IsAccounted}

-- A future that is settled stays so.
settle_stays :
    (f g : ℕ) (v : Future) (futures : ℕ → Future)
    → futures g ≡ rejected
    → settle f v futures g ≡ rejected
settle_stays f g v futures r = ground (arith, r)

count-true : (q : List PrioritizedCommand) → count (λ c. true) q ≡ length q
count-true [] = refl
count-true (c ∷ q) = omega (arith, count-true q)

module _ (hq : HeapQueue) where
  length-pop :
      (c : PrioritizedCommand) (q r : List PrioritizedCommand)
      → hq.heappop q ≡ some (c, r)
      → length q ≡ suc (length r)
  length-pop c q r h =
      omega (arith, hq.count-heappop (λ d. true) c q r h, count-true q, count-true r)

  -- The loop of `stop` empties the queue.
  reject_all-empties :
      (n : ℕ) (q : List PrioritizedCommand) (futures : ℕ → Future)
      → length q ≡ n
      → (reject_all hq n q futures).0 ≡ []
  unfolding reject_all
  reject_all-empties zero [] futures l = refl
  reject_all-empties zero (c ∷ q) futures l = absurd (omega (arith, l))
  reject_all-empties (suc n) [] futures l = absurd (omega (arith, l))
  reject_all-empties (suc n) (c ∷ q) futures l =
      option_elim (λ (r : List PrioritizedCommand × (ℕ → Future)). r.0 ≡ []) (hq.heappop (c ∷ q))
        (λ h. absurd (hq.heappop-ne-none c q h))
        (λ a h. reject_all-empties n a.1 _ (omega (arith, l, length-pop a.0 (c ∷ q) a.1 h)))

  reject_all_stays :
      (f n : ℕ) (q : List PrioritizedCommand) (futures : ℕ → Future)
      → futures f ≡ rejected
      → (reject_all hq n q futures).1 f ≡ rejected
  unfolding reject_all
  reject_all_stays f zero q futures r = r
  reject_all_stays f (suc n) q futures r =
      option_elim (λ (x : List PrioritizedCommand × (ℕ → Future)). x.1 f ≡ rejected) (hq.heappop q)
        (λ h. r) (λ a h. reject_all_stays f n a.1 _ (settle_stays a.0.future f rejected futures r))

  reject_all-rejects :
      (f n : ℕ) (q : List PrioritizedCommand) (futures : ℕ → Future)
      → length q ≡ n
      → futures f ≡ waiting
      → count (is_of f) q ≢ 0
      → (reject_all hq n q futures).1 f ≡ rejected
  unfolding reject_all
  reject_all-rejects f n [] futures l w k = absurd (k refl)
  reject_all-rejects f zero (c ∷ q) futures l w k = absurd (omega (arith, l))
  reject_all-rejects f (suc n) (c ∷ q) futures l w k =
      option_elim (λ (r : List PrioritizedCommand × (ℕ → Future)). r.1 f ≡ rejected)
        (hq.heappop (c ∷ q)) (λ h. absurd (hq.heappop-ne-none c q h))
        (λ a h. elim (Bool-cases (is_of f a.0)) [
          | inl e ↦ reject_all_stays f n a.1 _ (ground (arith, e, w))
          | inr e ↦
              reject_all-rejects f n a.1 (settle a.0.future rejected futures)
                (omega (arith, l, length-pop a.0 (c ∷ q) a.1 h)) (ground (arith, e, w))
                (λ z. k (ground (arith, z, e, hq.count-heappop (is_of f) a.0 (c ∷ q) a.1 h)))
        ])

  stop_running :
      (s : CommandThrottle)
      → s.stopped ≡ false
      → stop hq s ≡ record s {
        stopped = true;
        command_available = true;
        queue = (reject_all hq (length s.queue) s.queue s.futures).0;
        futures = (reject_all hq (length s.queue) s.queue s.futures).1;
      }
  unfolding stop
  stop_running s on = ground (arith, on)

  -- Stopping a throttle that runs and keeps its account empties the queue, and each caller that
  -- waits, but the one of the command in the hand of the worker, gets the cancellation.
  pub stop-rejects :
      (f : ℕ) (s : CommandThrottle)
      → IsAccounted hq s
      → s.stopped ≡ false
      → f < s.next_future
      → s.futures f ≡ waiting
      → in_hand f s.worker ≡ 0
      → ((stop hq s).queue ≡ []) × ((stop hq s).futures f ≡ rejected)
  stop-rejects f s i on old w free = rw (stop_running s on) (
    reject_all-empties (length s.queue) s.queue s.futures refl,
    reject_all-rejects f (length s.queue) s.queue s.futures refl w
        (λ z. omega (arith, i.once f old w on, free, z)),
  )

  reject_all-keeps :
      (f n : ℕ) (q : List PrioritizedCommand) (futures : ℕ → Future)
      → count (is_of f) q ≡ 0
      → (reject_all hq n q futures).1 f ≡ futures f
  unfolding reject_all
  reject_all-keeps f zero q futures k = refl
  reject_all-keeps f (suc n) q futures k =
      option_elim (λ (r : List PrioritizedCommand × (ℕ → Future)). r.1 f ≡ futures f) (hq.heappop q)
        (λ h. refl)
        (λ a h.
          let split = hq.count-heappop (is_of f) a.0 q a.1 h in
          reject_all-keeps f n a.1 (settle a.0.future rejected futures) (ground (arith, k, split))
          ∙ ground (arith, k, split))

  -- A command in the hand of the worker is of a caller.
  given_out :
      (f : ℕ) (s : CommandThrottle) → IsAccounted hq s → in_hand f s.worker ≡ 1 → f < s.next_future
  given_out f s i own = elim (Bool-cases (ltb f s.next_future)) [
    | inl h ↦ ground (arith, h)
    | inr h ↦ absurd (omega (arith, i.fresh f (ground (arith, h)), own))
  ]

  -- Stopping a throttle that keeps its account, while the worker delays a command, forgets that
  -- command: its caller waits after any later history, unless it gives up itself.
  pub stop-forgets :
      (c : PrioritizedCommand) (until : ℕ) (s : CommandThrottle) (es : List (ℕ × Event))
      → IsAccounted hq s
      → s.stopped ≡ false
      → s.worker ≡ in_delay c until
      → s.futures c.future ≡ waiting
      → IsAwaited c.future es
      → (run hq es (stop hq s)).futures c.future ≡ waiting
  stop-forgets c until s es i on at w a =
      let own : in_hand c.future s.worker ≡ 1 = rw at (ground arith) in
      let old : c.future < s.next_future = given_out c.future s i own in
      let alone : count (is_of c.future) s.queue ≡ 0 =
        omega (arith, i.once c.future old w on, own) in
      (run-IsLost hq c.future es (stop hq s) a (
        rw (stop_running s on) (record {
          off = refl;
          empty = reject_all-empties (length s.queue) s.queue s.futures refl;
          waits = reject_all-keeps c.future (length s.queue) s.queue s.futures alone ∙ w;
        }))).waits
