-- ===== src/Client/CommandThrottle/Leaves.antt =====
-- aiohomematic/client/command_throttle.py: a call gives no permission and leaves the worker alone.
use aiohomematic.Prelude.{
  ℕ, zero, suc, ◌+◌, ◌≡◌, refl, ◌∙◌, String, Bool, List, [], ◌∷◌, arith, eqb, ltb, if_elim,
  option_elim,
}
use aiohomematic.Prelude.Lists.{length}
use aiohomematic.Prelude.Dict.{string_eq}
use aiohomematic.Client.CommandThrottle.{
  Admission, CommandPriority, critical, high, low, PrioritizedCommand, HeapQueue, Future,
  superseded, granted, rejected, CommandThrottle, settle, purge, detect_burst, purge_commands,
  enqueue, acquire, stop, reject_all,
}

-- What a call leaves as it is.
pub record Leaves (s s' : CommandThrottle) : Type 0 where
  pub no_grant : (f : ℕ) → s'.futures f ≡ granted → s.futures f ≡ granted
  pub same_time : s'.last_command_time ≡ s.last_command_time
  pub same_worker : s'.worker ≡ s.worker
  pub same_interval : s'.interval ≡ s.interval

pub Leaves-refl : (s : CommandThrottle) → Leaves s s
Leaves-refl s = record {
  no_grant = λ f g. g;
  same_time = refl;
  same_worker = refl;
  same_interval = refl;
}

Leaves-trans : (s t u : CommandThrottle) → Leaves s t → Leaves t u → Leaves s u
Leaves-trans s t u a b = record {
  no_grant = λ f g. a.no_grant f (b.no_grant f g);
  same_time = b.same_time ∙ a.same_time;
  same_worker = b.same_worker ∙ a.same_worker;
  same_interval = b.same_interval ∙ a.same_interval;
}

detect_burst-Leaves : (now : ℕ) (s : CommandThrottle) → Leaves s (detect_burst now s).1
unfolding detect_burst
detect_burst-Leaves now s =
    if_elim (λ (r : Bool × CommandThrottle). Leaves s r.1) (eqb s.burst_threshold 0)
      (λ h. Leaves-refl s)
      (λ h. record {
        no_grant = λ f g. g;
        same_time = refl;
        same_worker = refl;
        same_interval = refl;
      })

purge-no_grant :
    (addresses : List String) (q : List PrioritizedCommand) (futures : ℕ → Future) (f : ℕ)
    → (purge addresses q futures).1 f ≡ granted
    → futures f ≡ granted
unfolding purge
purge-no_grant addresses [] futures f g = g
purge-no_grant addresses (c ∷ q) futures f g = ground (
  arith,
  g,
  purge-no_grant addresses q (settle c.future superseded futures) f,
  purge-no_grant addresses q futures f,
)

module _ (hq : HeapQueue) where
  enqueue-Leaves :
      (p : CommandPriority) (d : String) (now : ℕ) (s : CommandThrottle)
      → Leaves s (enqueue hq p d now s).1
  unfolding enqueue
  enqueue-Leaves p d now s =
      if_elim (λ (r : Admission × CommandThrottle). Leaves s r.1) s.stopped (λ h. Leaves-refl s)
        (λ h. record {
          no_grant = λ f g. ground (arith, g);
          same_time = refl;
          same_worker = refl;
          same_interval = refl;
        })

  reject_all-no_grant :
      (n : ℕ) (q : List PrioritizedCommand) (futures : ℕ → Future) (f : ℕ)
      → (reject_all hq n q futures).1 f ≡ granted
      → futures f ≡ granted
  unfolding reject_all
  reject_all-no_grant zero q futures f g = g
  reject_all-no_grant (suc n) q futures f g =
      option_elim
        (λ (r : List PrioritizedCommand × (ℕ → Future)). r.1 f ≡ granted → futures f ≡ granted)
        (hq.heappop q) (λ h g'. g')
        (λ a h g'.
          ground (arith, g', reject_all-no_grant n a.1 (settle a.0.future rejected futures) f g'))
        g

  purge_commands-Leaves :
      (addresses : List String) (s : CommandThrottle) → Leaves s (purge_commands hq addresses s)
  unfolding purge_commands
  purge_commands-Leaves addresses s =
      if_elim (Leaves s) (ltb 0 (purge addresses s.queue s.futures).2)
        (λ h. record {
          no_grant = purge-no_grant addresses s.queue s.futures;
          same_time = refl;
          same_worker = refl;
          same_interval = refl;
        })
        (λ h. record {
          no_grant = purge-no_grant addresses s.queue s.futures;
          same_time = refl;
          same_worker = refl;
          same_interval = refl;
        })

  critical-Leaves :
      (addresses : List String) (s : CommandThrottle)
      → (let s' = record s { critical_count = s.critical_count + 1 } in
          Leaves s (elim addresses [ [] ↦ s' | a ∷ as' ↦ purge_commands hq (a ∷ as') s' ]))
  critical-Leaves [] s = record {
    no_grant = λ f g. g;
    same_time = refl;
    same_worker = refl;
    same_interval = refl;
  }
  critical-Leaves (a ∷ as') s =
      let k =
        purge_commands-Leaves (a ∷ as') (record s { critical_count = s.critical_count + 1 }) in
      record {
        no_grant = k.no_grant;
        same_time = k.same_time;
        same_worker = k.same_worker;
        same_interval = k.same_interval;
      }

  pub acquire-Leaves :
      (p : CommandPriority) (d : String) (addresses : List String) (now : ℕ) (s : CommandThrottle)
      → Leaves s (acquire hq p d addresses now s).1
  unfolding acquire
  acquire-Leaves critical d addresses now s =
      if_elim (λ (r : Admission × CommandThrottle). Leaves s r.1) (eqb s.interval 0)
        (λ h. Leaves-refl s) (λ h. critical-Leaves addresses s)
  acquire-Leaves high d addresses now s =
      let s' = (detect_burst now s).1 in
      if_elim (λ (r : Admission × CommandThrottle). Leaves s r.1) (eqb s.interval 0)
        (λ h. Leaves-refl s)
        (λ h.
          if_elim (λ (r : Admission × CommandThrottle). Leaves s r.1) (detect_burst now s).0
            (λ h'.
              Leaves-trans s (record s' { burst_count = s'.burst_count + 1 }) _
                (let k = detect_burst-Leaves now s in
                  record {
                    no_grant = k.no_grant;
                    same_time = k.same_time;
                    same_worker = k.same_worker;
                    same_interval = k.same_interval;
                  })
                (enqueue-Leaves low d now (record s' { burst_count = s'.burst_count + 1 })))
            (λ h'. Leaves-trans s s' _ (detect_burst-Leaves now s) (enqueue-Leaves high d now s')))
  acquire-Leaves low d addresses now s =
      if_elim (λ (r : Admission × CommandThrottle). Leaves s r.1) (eqb s.interval 0)
        (λ h. Leaves-refl s) (λ h. enqueue-Leaves low d now s)

  pub stop-Leaves : (s : CommandThrottle) → Leaves s (stop hq s)
  unfolding stop
  stop-Leaves s =
      if_elim (Leaves s) s.stopped (λ h. Leaves-refl s)
        (λ h. record {
          no_grant = reject_all-no_grant (length s.queue) s.queue s.futures;
          same_time = refl;
          same_worker = refl;
          same_interval = refl;
        })
