-- ===== src/Model/Optimistic/Bursts.antt =====
-- aiohomematic/model/optimistic.py: bursts of sends, their confirmations and their rollback.
use aiohomematic.Prelude.{
  ℕ, zero, suc, ◌+◌, ◌-◌, ◌≤◌, ◌≡◌, refl, ap, ◌∙◌, Bool, true, false, ◌&&◌, ◌||◌, not, Option, none,
  some, List, [], ◌∷◌, eqb, ltb, is_some, if◌then◌else◌, if_elim, option_elim, arith,
}
use aiohomematic.Prelude.Lists.{replicate}
use aiohomematic.Model.Optimistic.{
  OptimisticValueTracker, Confirmable, Call, applies, confirms, rolls_back, init, is_active, apply,
  cancel_timer, clear, confirm_one, rollback, schedule_rollback, apply_optimistic_value, confirm,
  rollback_optimistic_value, step, run,
}

-- Are the values of the data point confirmed by events?
abbrev pub is_confirmable : Confirmable → Bool
is_confirmable s = not s.is_action && (s.has_events && s.rpc_callback)

module _ {ℓ} {V : Type ℓ} where
  -- A send is pending exactly while there is an optimistic value, its time and its timer.
  record IsSettled (t : OptimisticValueTracker V) : Type ℓ where
    counts : is_active t ≡ ltb 0 t.pending_sends
    times : is_some t.sent_at ≡ is_active t
    timed : is_some t.timeout_handle ≡ is_active t
    restores : (not (is_active t) && is_some t.previous_value) ≡ false

  confirm-IsSettled : (t : OptimisticValueTracker V) → IsSettled t → IsSettled (confirm t)
  unfolding confirm confirm_one clear cancel_timer
  confirm-IsSettled t i =
      if_elim IsSettled (is_active t)
        (λ a.
          if_elim IsSettled (eqb (t.pending_sends - 1) 0)
            (λ z. record {
              counts = ground (arith, z);
              times = refl;
              timed = refl;
              restores = refl;
            })
            (λ z. record {
              counts = a ∙ ground (arith, z);
              times = i.times;
              timed = i.timed;
              restores = i.restores;
            }))
        (λ _. i)

  rollback-IsSettled :
      (t : OptimisticValueTracker V) → IsSettled t → IsSettled (rollback_optimistic_value t).0
  unfolding rollback_optimistic_value
  rollback-IsSettled t i =
      if_elim (λ (r : OptimisticValueTracker V × Option (Option V)). IsSettled r.0)
        (not (is_active t)) (λ _. i)
        (λ _.
          option_elim (λ (r : OptimisticValueTracker V × (Option V × Option V)). IsSettled r.0)
            t.value (λ _. i)
            (λ v _. record { counts = refl; times = refl; timed = refl; restores = refl }))

  step-IsSettled :
      (s : Confirmable) (c : Call V) (t : OptimisticValueTracker V)
      → IsSettled t
      → IsSettled (step s c t)
  unfolding step apply_optimistic_value schedule_rollback apply
  step-IsSettled s (applies v current timeout now) t i =
      if_elim IsSettled (s.is_action || not s.has_events) (λ _. i)
        (λ _.
          if_elim IsSettled (not s.rpc_callback) (λ _. i)
            (λ _. record { counts = ground arith; times = refl; timed = refl; restores = refl }))
  step-IsSettled s confirms t i = confirm-IsSettled t i
  step-IsSettled s rolls_back t i = rollback-IsSettled t i

  run-IsSettled_from :
      (s : Confirmable) (cs : List (Call V)) (t : OptimisticValueTracker V)
      → IsSettled t
      → IsSettled (run s cs t)
  unfolding run
  run-IsSettled_from s [] t i = i
  run-IsSettled_from s (c ∷ cs) t i = run-IsSettled_from s cs (step s c t) (step-IsSettled s c t i)

  new-IsSettled : IsSettled init
  new-IsSettled = record { counts = refl; times = refl; timed = refl; restores = refl }

  -- After any calls of a new tracker, a send is pending exactly while there is an optimistic value,
  -- exactly then there is the time of the last send, and exactly then a timer for the rollback
  -- runs; without an optimistic value there is no value to restore.
  pub run-IsSettled :
      (s : Confirmable) (cs : List (Call V))
      → let t = run s cs init in
        (is_active t ≡ ltb 0 t.pending_sends)
        × ((is_some t.sent_at ≡ is_active t)
            × ((is_some t.timeout_handle ≡ is_active t)
                × ((not (is_active t) && is_some t.previous_value) ≡ false)))
  run-IsSettled s cs =
      let i = run-IsSettled_from s cs init new-IsSettled in
      (i.counts, (i.times, (i.timed, i.restores)))

  confirm-pending :
      (t : OptimisticValueTracker V) → IsSettled t → (confirm t).pending_sends ≡ t.pending_sends - 1
  unfolding confirm confirm_one clear cancel_timer
  confirm-pending t i =
      if_elim (λ (r : OptimisticValueTracker V). r.pending_sends ≡ t.pending_sends - 1)
        (is_active t)
        (λ _.
          if_elim (λ (r : OptimisticValueTracker V). r.pending_sends ≡ t.pending_sends - 1)
            (eqb (t.pending_sends - 1) 0) (λ _. refl) (λ _. refl))
        (λ a. ground (arith, a, i.counts))

  confirms-active :
      (s : Confirmable) (k : ℕ) (t : OptimisticValueTracker V)
      → IsSettled t
      → is_active (run s (replicate k confirms) t) ≡ ltb k t.pending_sends
  unfolding run step
  confirms-active s zero t i = i.counts
  confirms-active s (suc k) t i =
      confirms-active s k (confirm t) (confirm-IsSettled t i) ∙ ground (arith, confirm-pending t i)

  -- After any calls of a new tracker, the value stays optimistic through so many confirmations as
  -- are fewer than the pending sends, and no longer.
  pub confirms-settle :
      (s : Confirmable) (cs : List (Call V)) (k : ℕ)
      → let t = run s cs init in is_active (run s (replicate k confirms) t) ≡ ltb k t.pending_sends
  confirms-settle s cs k =
      confirms-active s k (run s cs init) (run-IsSettled_from s cs init new-IsSettled)

  -- Of the sends and confirmations of a burst with `n` pending sends, one stays pending throughout.
  abbrev pub IsOpen : ℕ → List (Call V) → Type 0
  IsOpen n [] = Unit {0}
  IsOpen n (applies v current timeout now ∷ cs) = IsOpen (n + 1) cs
  IsOpen n (confirms ∷ cs) = (2 ≤ n) × IsOpen (n - 1) cs
  IsOpen n (rolls_back ∷ cs) = ⊥

  -- A burst with `n` pending sends that began at this value.
  record InBurst (n : ℕ) (began : Option V) (t : OptimisticValueTracker V) : Type ℓ where
    active : is_active t ≡ true
    pending : t.pending_sends ≡ n
    target : t.previous_value ≡ began

  -- The sends that are pending after a burst.
  abbrev pub balance : ℕ → List (Call V) → ℕ
  balance n [] = n
  balance n (applies v current timeout now ∷ cs) = balance (n + 1) cs
  balance n (confirms ∷ cs) = balance (n - 1) cs
  balance n (rolls_back ∷ cs) = balance 0 cs

  apply-InBurst :
      (s : Confirmable) (n : ℕ) (v : V) (current : Option V) (timeout now : ℕ)
      (t : OptimisticValueTracker V) {began : Option V}
      → is_confirmable s ≡ true
      → t.pending_sends ≡ n
      → (if eqb n 0 then current else t.previous_value) ≡ began
      → InBurst (n + 1) began (apply_optimistic_value s v current timeout now t)
  unfolding apply_optimistic_value schedule_rollback apply
  apply-InBurst s n v current timeout now t {began} h p e =
      if_elim (InBurst (n + 1) began) (s.is_action || not s.has_events)
        (λ g. absurd (ground (arith, g, h)))
        (λ g.
          if_elim (InBurst (n + 1) began) (not s.rpc_callback) (λ r. absurd (ground (arith, r, h)))
            (λ r. record {
              active = refl;
              pending = ap (λ m. m + 1) p;
              target = ap (λ m. if eqb m 0 then current else t.previous_value) p ∙ e;
            }))

  confirm-InBurst :
      (n : ℕ) (began : Option V) (t : OptimisticValueTracker V)
      → 2 ≤ n
      → InBurst n began t
      → InBurst (n - 1) began (confirm t)
  unfolding confirm confirm_one
  confirm-InBurst n began t l b =
      if_elim (InBurst (n - 1) began) (is_active t)
        (λ _.
          if_elim (InBurst (n - 1) began) (eqb (t.pending_sends - 1) 0)
            (λ z. absurd (ground (arith, z, b.pending, l)))
            (λ _. record {
              active = b.active;
              pending = ap (λ m. m - 1) b.pending;
              target = b.target;
            }))
        (λ a. absurd (ground (arith, a, b.active)))

  open_run :
      (s : Confirmable) (n : ℕ) (began : Option V) (cs : List (Call V))
      (t : OptimisticValueTracker V)
      → is_confirmable s ≡ true
      → 1 ≤ n
      → IsOpen n cs
      → InBurst n began t
      → InBurst (balance n cs) began (run s cs t)
  unfolding run step
  open_run s n began [] t h p o b = b
  open_run s n began (applies v current timeout now ∷ cs) t h p o b =
      open_run s (n + 1) began cs (apply_optimistic_value s v current timeout now t) h
        (omega (arith, p)) o
        (apply-InBurst s n v current timeout now t h b.pending (ground (arith, p, b.target)))
  open_run s n began (confirms ∷ cs) t h p o b =
      open_run s (n - 1) began cs (confirm t) h (omega (arith, o.0)) o.1
        (confirm-InBurst n began t o.0 b)
  open_run s n began (rolls_back ∷ cs) t h p o b = absurd o

  rollback-InBurst :
      (n : ℕ) (began : Option V) (t : OptimisticValueTracker V)
      → InBurst n began t
      → let (t', r) = rollback_optimistic_value t in (r ≡ some began) × (t' ≡ init)
  unfolding rollback_optimistic_value rollback cancel_timer
  rollback-InBurst n began t b =
      let inactive : t.value ≡ none → ⊥ = λ e. ground (arith, ap is_some e, b.active) in
      if_elim
        (λ (r : OptimisticValueTracker V × Option (Option V)). (r.1 ≡ some began) × (r.0 ≡ init))
        (not (is_active t)) (λ a. absurd (ground (arith, a, b.active)))
        (λ _.
          option_elim
            (λ (r : OptimisticValueTracker V × (Option V × Option V)).
              (some r.1.1 ≡ some began) × (r.0 ≡ init))
            t.value (λ e. absurd (inactive e)) (λ v _. (ap some b.target, refl)))

  -- For a data point whose values are confirmed by events: a burst begins with a send while no value
  -- is optimistic, after any calls of a new tracker; of its sends and confirmations one is pending
  -- throughout. A rollback then restores the value that was held at the first send of the burst,
  -- whatever was confirmed since, and leaves the tracker as new.
  pub rollback-restores :
      (s : Confirmable) (before : List (Call V)) (v : V) (current : Option V) (timeout now : ℕ)
      (burst : List (Call V))
      → is_confirmable s ≡ true
      → is_active (run s before init) ≡ false
      → IsOpen 1 burst
      → let t = run s burst (apply_optimistic_value s v current timeout now (run s before init)) in
        let (t', restored) = rollback_optimistic_value t in
        (t.pending_sends ≡ balance 1 burst) × ((restored ≡ some current) × (t' ≡ init))
  rollback-restores s before v current timeout now burst h a o =
      let t = run s before init in
      let settled = run-IsSettled_from s before init new-IsSettled in
      let none_pending : t.pending_sends ≡ 0 = ground (arith, settled.counts, a) in
      let b =
        open_run s 1 current burst (apply_optimistic_value s v current timeout now t) h
          (omega arith) o (apply-InBurst s 0 v current timeout now t h none_pending refl) in
      let r = rollback-InBurst (balance 1 burst) current _ b in (b.pending, r)
