-- ===== src/Client/CommandThrottle/Paces.antt =====
-- aiohomematic/client/command_throttle.py: a permission waits for the interval since the last one.
use aiohomematic.Prelude.{
  ℕ, ◌+◌, ◌-◌, ◌≤◌, ◌≡◌, refl, ◌∙◌, subst, inl, inr, ◌⊎◌, arith, ltb, if_elim, option_elim,
}
use aiohomematic.Prelude.Dict.{string_eq}
use aiohomematic.Client.CommandThrottle.{
  PrioritizedCommand, HeapQueue, granted, Worker, at_top, at_event, in_delay, at_end,
  CommandThrottle, grant, take, round, work_from, step, acquires, gives_up, works, stops, Event,
}
use aiohomematic.Client.CommandThrottle.Leaves.{Leaves, Leaves-refl, acquire-Leaves, stop-Leaves}

-- The end of a delay is an interval away from the last permission.
abbrev pub Waits : ℕ → Worker → Type 0
Waits t (in_delay c until) = t ≤ until
Waits t _ = Unit

-- At the time `t` the last permission is in the past, and a delay is long enough.
pub record IsPaced (n t : ℕ) (s : CommandThrottle) : Type 0 where
  pub interval_is : s.interval ≡ n
  pub past : s.last_command_time ≤ t
  pub waits : Waits (s.last_command_time + n) s.worker

-- A step gives no permission to any caller and leaves the time of the last one, or it gives one an
-- interval after it.
pub record Paces (n now : ℕ) (s s' : CommandThrottle) : Type 0 where
  pub keeps :
      (f : ℕ)
      → s'.futures f ≡ granted
      → (s.futures f ≡ granted) ⊎ ((s.last_command_time + n ≤ now) × (s'.last_command_time ≡ now))
  pub later : s.last_command_time ≤ s'.last_command_time
  pub paced : IsPaced n now s'

Leaves-Paces :
    (n t now : ℕ) (s s' : CommandThrottle)
    → t ≤ now
    → IsPaced n t s
    → Leaves s s'
    → Paces n now s s'
Leaves-Paces n t now s s' l i k = record {
  keeps = λ f g. inl (k.no_grant f g);
  later = omega (arith, k.same_time);
  paced = record {
    interval_is = ground (arith, k.same_interval, i.interval_is);
    past = omega (arith, k.same_time, i.past);
    waits = rw (k.same_worker, k.same_time) i.waits;
  };
}

module _ (hq : HeapQueue) where
  -- The worker changes where it stands, and gives no permission.
  moves-Paces :
      (n t now : ℕ) (w : Worker) (s s' : CommandThrottle)
      → t ≤ now
      → IsPaced n t s
      → Waits (s.last_command_time + n) w
      → s'.futures ≡ s.futures
      → s'.last_command_time ≡ s.last_command_time
      → s'.interval ≡ s.interval
      → s'.worker ≡ w
      → Paces n now s s'
  moves-Paces n t now w s s' l i k same_futures same_time same_interval at = record {
    keeps = λ f g. inl (rw same_futures at g);
    later = omega (arith, same_time);
    paced = record {
      interval_is = same_interval ∙ i.interval_is;
      past = omega (arith, same_time, i.past);
      waits = rw (at, same_time) k;
    };
  }

  grant-Paces :
      (n t now : ℕ) (c : PrioritizedCommand) (s : CommandThrottle)
      → t ≤ now
      → IsPaced n t s
      → s.last_command_time + n ≤ now
      → Paces n now s (grant hq c now s)
  unfolding grant
  grant-Paces n t now c s l i far = record {
    keeps = λ f g. inr (far, refl);
    later = omega arith;
    paced = record { interval_is = i.interval_is; past = omega arith; waits = tt };
  }

  take-Paces :
      (n t now : ℕ) (c : PrioritizedCommand) (s : CommandThrottle)
      → t ≤ now
      → IsPaced n t s
      → Paces n now s (take hq c now s)
  unfolding take
  take-Paces n t now c s l i =
      if_elim (Paces n now s) (ltb (now - s.last_command_time) s.interval)
        (λ h.
          moves-Paces n t now _ s _ l i (ground (arith, h, l, i.interval_is, i.past)) refl refl refl
            refl)
        (λ h. grant-Paces n t now c s l i (ground (arith, h, l, i.interval_is, i.past)))

  round-Paces :
      (n t now : ℕ) (s : CommandThrottle) → t ≤ now → IsPaced n t s → Paces n now s (round hq now s)
  unfolding round
  round-Paces n t now s l i =
      if_elim (Paces n now s) s.stopped
        (λ h. moves-Paces n t now at_end s _ l i tt refl refl refl refl)
        (λ h.
          option_elim (Paces n now s) (hq.heappop s.queue)
            (λ p.
              if_elim (Paces n now s) s.command_available
                (λ a. moves-Paces n t now s.worker s _ l i i.waits refl refl refl refl)
                (λ a. moves-Paces n t now at_event s _ l i tt refl refl refl refl))
            (λ a p.
              let k =
                take-Paces n t now a.0 (record s { queue = a.1 }) l
                  (record { interval_is = i.interval_is; past = i.past; waits = i.waits }) in
              record { keeps = k.keeps; later = k.later; paced = k.paced }))

  work_from-Paces :
      (n t now : ℕ) (w : Worker) (s : CommandThrottle)
      → s.worker ≡ w
      → t ≤ now
      → IsPaced n t s
      → Paces n now s (work_from hq w now s)
  unfolding work_from
  work_from-Paces n t now at_top s e l i = round-Paces n t now s l i
  work_from-Paces n t now at_event s e l i =
      if_elim (Paces n now s) s.stopped
        (λ h. moves-Paces n t now at_end s _ l i tt refl refl refl refl)
        (λ h.
          if_elim (Paces n now s) s.command_available
            (λ a. moves-Paces n t now at_top s _ l i tt refl refl refl refl)
            (λ a. Leaves-Paces n t now s s l i (Leaves-refl s)))
  work_from-Paces n t now (in_delay c until) s e l i =
      if_elim (Paces n now s) s.stopped
        (λ h. moves-Paces n t now at_end s _ l i tt refl refl refl refl)
        (λ h.
          if_elim (Paces n now s) (ltb now until)
            (λ a. Leaves-Paces n t now s s l i (Leaves-refl s))
            (λ a.
              let w : Waits (s.last_command_time + n) (in_delay c until) =
                subst (Waits (s.last_command_time + n)) e i.waits in
              grant-Paces n t now c s l i (ground (arith, a, w))))
  work_from-Paces n t now at_end s e l i = Leaves-Paces n t now s s l i (Leaves-refl s)

  pub step-Paces :
      (n t now : ℕ) (e : Event) (s : CommandThrottle)
      → t ≤ now
      → IsPaced n t s
      → Paces n now s (step hq now e s)
  unfolding step
  step-Paces n t now (acquires p d addresses) s l i =
      Leaves-Paces n t now s _ l i (acquire-Leaves hq p d addresses now s)
  step-Paces n t now (gives_up g) s l i = Leaves-Paces n t now s _ l i (record {
    no_grant = λ f h. ground (arith, h);
    same_time = refl;
    same_worker = refl;
    same_interval = refl;
  })
  step-Paces n t now works s l i = work_from-Paces n t now s.worker s refl l i
  step-Paces n t now stops s l i = Leaves-Paces n t now s _ l i (stop-Leaves hq s)
