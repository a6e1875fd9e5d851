-- ===== src/Client/CommandThrottle/Spacing.antt =====
-- aiohomematic/client/command_throttle.py: the distance between two permissions.
use aiohomematic.Prelude.{
  ℕ, ◌+◌, ◌≤◌, ◌≡◌, ◌≢◌, refl, inl, inr, String, List, [], ◌∷◌, arith, ltb, if_elim,
}
use aiohomematic.Prelude.Dict.{string_eq}
use aiohomematic.Client.CommandThrottle.{
  HeapQueue, granted, CommandThrottle, init, step, run, Event,
}
use aiohomematic.Client.CommandThrottle.Paces.{Waits, IsPaced, step-Paces}

-- Each time is at least the one before it, from the given one on.
abbrev pub Ascends : ℕ → List (ℕ × Event) → Type 0
Ascends t [] = Unit
Ascends t ((now, e) ∷ es) = (t ≤ now) × Ascends now es

-- The time of the last event.
abbrev pub last_time : ℕ → List (ℕ × Event) → ℕ
last_time t [] = t
last_time t ((now, e) ∷ es) = last_time now es

module _ (hq : HeapQueue) where
  run-IsPaced :
      (n t : ℕ) (es : List (ℕ × Event)) (s : CommandThrottle)
      → Ascends t es
      → IsPaced n t s
      → IsPaced n (last_time t es) (run hq es s)
        × (s.last_command_time ≤ (run hq es s).last_command_time)
  unfolding run
  run-IsPaced n t [] s l i = (i, omega arith)
  run-IsPaced n t ((now, e) ∷ es) s l i =
      let k = step-Paces hq n t now e s l.0 i in
      let (paced, grows) = run-IsPaced n now es (step hq now e s) l.1 k.paced in
      (paced, omega (arith, grows, k.later))

  init-IsPaced : (i : String) (n b w : ℕ) → IsPaced n 0 (init i n b w)
  unfolding init
  init-IsPaced i n b w = record {
    interval_is = refl;
    past = omega arith;
    waits = if_elim (Waits (0 + n)) (ltb 0 n) (λ h. tt) (λ h. tt);
  }

  spaced_from :
      (n t u : ℕ) (es : List (ℕ × Event)) (d e : Event) (f g : ℕ) (s : CommandThrottle)
      → IsPaced n t s
      → Ascends t es
      → last_time t es ≤ u
      → s.futures f ≢ granted
      → (step hq t d s).futures f ≡ granted
      → (run hq es (step hq t d s)).futures g ≢ granted
      → (step hq u e (run hq es (step hq t d s))).futures g ≡ granted
      → t + n ≤ u
  spaced_from n t u es d e f g s i up l new_f got_f new_g got_g =
      let k = step-Paces hq n t t d s (omega arith) i in
      let (paced, grows) = run-IsPaced n t es (step hq t d s) up k.paced in
      let k' = step-Paces hq n (last_time t es) u e (run hq es (step hq t d s)) l paced in
      elim (k.keeps f got_f) [
        | inl old ↦ absurd (new_f old)
        | inr first ↦ elim (k'.keeps g got_g) [
          | inl old ↦ absurd (new_g old)
          | inr second ↦ omega (arith, first.1, second.0, grows)
        ]
      ]

  -- A new throttle after a history.
  abbrev pub after : String → ℕ → ℕ → ℕ → List (ℕ × Event) → CommandThrottle
  after interface_id interval burst_threshold burst_window es =
      run hq es (init interface_id interval burst_threshold burst_window)

  -- Two permissions are at least the interval apart: after any history of a new throttle let a step
  -- at the time `t` give a permission, let any history follow, and let a step at the time `u` give
  -- another, while the clock never runs backwards. Then `u` is at least the interval later than `t`.
  pub run_spaced :
      (i : String) (n b w : ℕ) (es es' : List (ℕ × Event)) (t u f g : ℕ) (d e : Event)
      → Ascends 0 es
      → last_time 0 es ≤ t
      → Ascends t es'
      → last_time t es' ≤ u
      → (after i n b w es).futures f ≢ granted
      → (step hq t d (after i n b w es)).futures f ≡ granted
      → (run hq es' (step hq t d (after i n b w es))).futures g ≢ granted
      → (step hq u e (run hq es' (step hq t d (after i n b w es)))).futures g ≡ granted
      → t + n ≤ u
  run_spaced i n b w es es' t u f g d e up l up' l' new_f got_f new_g got_g =
      let (paced, _) = run-IsPaced n 0 es (init i n b w) up (init-IsPaced i n b w) in
      spaced_from n t u es' d e f g (after i n b w es)
        (record {
          interval_is = paced.interval_is;
          past = omega (arith, paced.past, l);
          waits = paced.waits;
        })
        up' l' new_f got_f new_g got_g
