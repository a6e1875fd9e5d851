-- ===== src/Client/CommandThrottle/Order.antt =====
-- aiohomematic/client/command_throttle.py: which command is next, and what purging takes out.
use aiohomematic.Prelude.{
  ℕ, ◌+◌, ◌-◌, ◌≤◌, ◌≡◌, ◌≢◌, ◌&&◌, refl, sym, subst, ap, ◌∙◌, ◌⊎◌, inl, inr, String, Bool, false,
  not, some, List, [], ◌∷◌, arith, ltb, eqb, Bool-cases, Option-cases, if_elim,
}
use aiohomematic.Prelude.Lists.{All, count}
use aiohomematic.Prelude.Dict.{contains, string_eq}
use aiohomematic.Client.CommandThrottle.{
  rank, PrioritizedCommand, before, HeapQueue, Future, waiting, superseded, at_top, in_delay,
  CommandThrottle, settle, purge, purge_commands, take, work,
}
use aiohomematic.Client.CommandThrottle.Accounts.{is_of, IsAccounted}

-- The command goes before the others of the queue: none has a higher priority, and of those of its
-- priority none was enqueued earlier.
abbrev pub IsFirst : PrioritizedCommand → List PrioritizedCommand → Type 0
IsFirst c = All (λ d.
    (rank c.priority ≤ rank d.priority)
    × (rank d.priority ≡ rank c.priority → c.timestamp ≤ d.timestamp))

IsFirst-of :
    (c : PrioritizedCommand) (q : List PrioritizedCommand)
    → All (λ d. before d c ≡ false) q
    → IsFirst c q
IsFirst-of c [] a = tt
IsFirst-of c (d ∷ q) a = ((ground (arith, a.0), λ e. ground (arith, a.0, e)), IsFirst-of c q a.1)

module _ (hq : HeapQueue) where
  -- The worker took the command out of the queue: it is in its hand for the delay, or it is decided.
  pub record Takes (c : PrioritizedCommand) (s s' : CommandThrottle) : Type 0 where
    pub rest : hq.heappop s.queue ≡ some (c, s'.queue)
    pub first : IsFirst c s'.queue
    pub holds : ((until : ℕ) × (s'.worker ≡ in_delay c until)) ⊎ (s'.futures c.future ≢ waiting)

  take-queue :
      (c : PrioritizedCommand) (now : ℕ) (s : CommandThrottle) → (take hq c now s).queue ≡ s.queue
  unfolding take
  take-queue c now s = ground arith

  take-holds :
      (c : PrioritizedCommand) (now : ℕ) (s : CommandThrottle)
      → ((until : ℕ) × ((take hq c now s).worker ≡ in_delay c until))
        ⊎ ((take hq c now s).futures c.future ≢ waiting)
  unfolding take
  take-holds c now s =
      if_elim
        (λ (r : CommandThrottle).
          ((until : ℕ) × (r.worker ≡ in_delay c until)) ⊎ (r.futures c.future ≢ waiting))
        (ltb (now - s.last_command_time) s.interval) (λ h. inl (_, refl))
        (λ h. inr (λ w. ground (arith, w)))

  work-take :
      (now : ℕ) (c : PrioritizedCommand) (r : List PrioritizedCommand) (s : CommandThrottle)
      → s.worker ≡ at_top
      → s.stopped ≡ false
      → hq.heappop s.queue ≡ some (c, r)
      → work hq now s ≡ take hq c now (record s { queue = r })
  unfolding work
  work-take now c r s top on at = ground (arith, top, on, at)

  -- A worker at the test of its loop, in a throttle that is not stopped and keeps its account, takes
  -- a command out of a queue that is not empty: none that stays has a higher priority, and of those
  -- of its priority none was enqueued earlier. It holds the command for the delay, or has decided it.
  pub work-Takes :
      (now : ℕ) (d : PrioritizedCommand) (q : List PrioritizedCommand) (s : CommandThrottle)
      → IsAccounted hq s
      → s.worker ≡ at_top
      → s.stopped ≡ false
      → s.queue ≡ d ∷ q
      → (c : PrioritizedCommand) × Takes c s (work hq now s)
  unfolding work
  work-Takes now d q s i top on full = elim (Option-cases (hq.heappop s.queue)) [
    | inl empty ↦ absurd (hq.heappop-ne-none d q (ap hq.heappop (sym full) ∙ empty))
    | inr found ↦
        let ((c, r), at) = found in
        let taken = work-take now c r s top on at in
        rw taken (
          c,
          record {
            rest = at ∙ ap (λ l. some (c, l)) (sym (take-queue c now (record s { queue = r })));
            first =
                subst (IsFirst c) (sym (take-queue c now (record s { queue = r })))
                  (IsFirst-of c r (hq.heappop_min c s.queue r i.heap at));
            holds = take-holds c now (record s { queue = r });
          },
        )
  ]

-- Is the command of one of the addresses?
abbrev pub hits : List String → PrioritizedCommand → Bool
hits addresses c = contains c.device_address addresses

settle_keeps :
    (f g : ℕ) (v : Future) (futures : ℕ → Future)
    → settle f v futures g ≢ waiting
    → futures g ≢ waiting
    → settle f v futures g ≡ futures g
settle_keeps f g v futures n m = ground (arith, n, m)

-- What the loop leaves of the queue, and how many it takes out.
purge_split :
    (addresses : List String) (p : PrioritizedCommand → Bool) (q : List PrioritizedCommand)
    (futures : ℕ → Future)
    → (count (hits addresses) (purge addresses q futures).0 ≡ 0)
      × (count (λ c. not (hits addresses c) && p c) (purge addresses q futures).0
          ≡ count (λ c. not (hits addresses c) && p c) q)
      × ((purge addresses q futures).2 ≡ count (hits addresses) q)
unfolding purge
purge_split addresses p [] futures = (refl, refl, refl)
purge_split addresses p (c ∷ q) futures = elim (Bool-cases (hits addresses c)) [
  | inl h ↦ ground (arith, h, purge_split addresses p q (settle c.future superseded futures))
  | inr h ↦ ground (arith, h, purge_split addresses p q futures)
]

-- A future that is settled stays so.
purge_stays :
    (addresses : List String) (f : ℕ) (q : List PrioritizedCommand) (futures : ℕ → Future)
    → futures f ≡ superseded
    → (purge addresses q futures).1 f ≡ superseded
unfolding purge
purge_stays addresses f [] futures h = h
purge_stays addresses f (c ∷ q) futures h = ground (
  arith,
  h,
  purge_stays addresses f q futures h,
  purge_stays addresses f q (settle c.future superseded futures),
)

purge_supersedes :
    (addresses : List String) (f : ℕ) (q : List PrioritizedCommand) (futures : ℕ → Future)
    → futures f ≡ waiting
    → count (λ c. hits addresses c && is_of f c) q ≢ 0
    → (purge addresses q futures).1 f ≡ superseded
unfolding purge
purge_supersedes addresses f [] futures w n = absurd (n refl)
purge_supersedes addresses f (c ∷ q) futures w n = elim (Bool-cases (hits addresses c)) [
  | inl h ↦ elim (Bool-cases (eqb f c.future)) [
    | inl e ↦ ground (
      arith,
      h,
      purge_stays addresses f q (settle c.future superseded futures) (ground (arith, e, w)),
    )
    | inr e ↦ ground (
      arith,
      h,
      purge_supersedes addresses f q (settle c.future superseded futures) (ground (arith, e, w))
          (λ z. n (ground (arith, e, h, z))),
    )
  ]
  | inr h ↦
      ground (arith, h, purge_supersedes addresses f q futures w (λ z. n (ground (arith, h, z))))
]

module _ (hq : HeapQueue) where
  -- Purging takes exactly the commands of the given addresses out of the queue, leaves the others
  -- there as often as they were, and counts what it took; a caller that waits for such a command is
  -- superseded.
  pub purge_commands_lem :
      (addresses : List String) (p : PrioritizedCommand → Bool) (f : ℕ) (s : CommandThrottle)
      → s.futures f ≡ waiting
      → count (λ c. hits addresses c && is_of f c) s.queue ≢ 0
      → (count (hits addresses) (purge_commands hq addresses s).queue ≡ 0)
        × (count (λ c. not (hits addresses c) && p c) (purge_commands hq addresses s).queue
            ≡ count (λ c. not (hits addresses c) && p c) s.queue)
        × ((purge_commands hq addresses s).purged_count
            ≡ s.purged_count + count (hits addresses) s.queue)
        × ((purge_commands hq addresses s).futures f ≡ superseded)
  unfolding purge_commands
  purge_commands_lem addresses p f s w n =
      let (gone, kept, counted) = purge_split addresses p s.queue s.futures in
      let over = purge_supersedes addresses f s.queue s.futures w n in
      if_elim
        (λ (r : CommandThrottle).
          (count (hits addresses) r.queue ≡ 0)
          × (count (λ c. not (hits addresses c) && p c) r.queue
              ≡ count (λ c. not (hits addresses c) && p c) s.queue)
          × (r.purged_count ≡ s.purged_count + count (hits addresses) s.queue)
          × (r.futures f ≡ superseded))
        (ltb 0 (purge addresses s.queue s.futures).2)
        (λ h. (
          hq.count-heapify (hits addresses) _ ∙ gone,
          hq.count-heapify (λ c. not (hits addresses c) && p c) _ ∙ kept,
          ap (λ k. s.purged_count + k) counted,
          over,
        ))
        (λ h. (ground (arith, h, counted), refl, ground (arith, h, counted), over))
