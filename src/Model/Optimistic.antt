-- ===== src/Model/Optimistic.antt =====
-- aiohomematic/model/optimistic.py: OptimisticValueTracker, and how a data point drives it:
-- apply_optimistic_value and rollback_optimistic_value of aiohomematic/model/data_point.py, the
-- confirmation in `event` of aiohomematic/model/generic/data_point.py.
--
-- An optimistic value is never `None`. A timer is the time at which it is due; the value that the
-- data point holds when it sends is an argument. Logging and publishing are left out.
pub mod Bursts
mod Tests
use aiohomematic.Prelude.{
  ℕ, zero, suc, ◌+◌, ◌-◌, Bool, true, false, ◌&&◌, ◌||◌, not, Option, none, some, List, [], ◌∷◌,
  eqb, is_some, if◌then◌else◌,
}

pub record OptimisticValueTracker {ℓ} (V : Type ℓ) : Type ℓ where
  pub pending_sends : ℕ
  pub previous_value : Option V
  pub sent_at : Option ℕ
  pub timeout_handle : Option ℕ
  pub value : Option V

-- What a data point must be for its values to be confirmed.
pub record Confirmable : Type 0 where
  pub is_action : Bool
  pub has_events : Bool
  pub rpc_callback : Bool

-- The calls that change the tracker, with the value that is sent and the value held before.
pub data Call {ℓ} (V : Type ℓ) : Type ℓ where
  applies : V → Option V → ℕ → ℕ → Call V
  confirms : Call V
  rolls_back : Call V

module _ {ℓ} {V : Type ℓ} where
  abbrev pub init : OptimisticValueTracker V
  init = record {
    pending_sends = 0;
    previous_value = none;
    sent_at = none;
    timeout_handle = none;
    value = none;
  }

  abbrev pub is_active : OptimisticValueTracker V → Bool
  is_active t = is_some t.value

  unfoldable pub age : ℕ → OptimisticValueTracker V → Option ℕ
  age now t = elim t.sent_at [ none ↦ none | some sent ↦ some (now - sent) ]

  unfoldable pub apply : V → Option V → ℕ → OptimisticValueTracker V → OptimisticValueTracker V
  apply v current now t = record t {
    previous_value = if eqb t.pending_sends 0 then current else t.previous_value;
    pending_sends = t.pending_sends + 1;
    value = some v;
    sent_at = some now;
  }

  unfoldable pub cancel_timer : OptimisticValueTracker V → OptimisticValueTracker V
  cancel_timer t = record t { timeout_handle = none }

  unfoldable pub clear : OptimisticValueTracker V → OptimisticValueTracker V
  unfolding cancel_timer
  clear t = cancel_timer (record t { value = none; previous_value = none; sent_at = none })

  unfoldable pub confirm_one : OptimisticValueTracker V → OptimisticValueTracker V × Bool
  confirm_one t = (record t { pending_sends = t.pending_sends - 1 }, eqb (t.pending_sends - 1) 0)

  abbrev drop_value : OptimisticValueTracker V → OptimisticValueTracker V
  drop_value t =
      record (cancel_timer (record t { value = none; sent_at = none; pending_sends = 0 })) {
        previous_value = none;
      }

  -- The value that is given up and the value that is restored.
  unfoldable pub rollback :
      OptimisticValueTracker V → OptimisticValueTracker V × (Option V × Option V)
  unfolding cancel_timer
  rollback t = elim t.value [
    | none ↦ (t, (none, none))
    | some v ↦ (drop_value t, (some v, t.previous_value))
  ]

  unfoldable pub schedule_rollback : ℕ → ℕ → OptimisticValueTracker V → OptimisticValueTracker V
  unfolding cancel_timer
  schedule_rollback timeout now t = record (cancel_timer t) {
    timeout_handle = some (now + timeout);
  }

  unfoldable pub apply_optimistic_value :
      Confirmable → V → Option V → ℕ → ℕ → OptimisticValueTracker V → OptimisticValueTracker V
  unfolding apply schedule_rollback
  apply_optimistic_value s v current timeout now t =
      if s.is_action || not s.has_events
      then t
      else (if not s.rpc_callback then t else schedule_rollback timeout now (apply v current now t))

  -- `event`: the part that confirms
  unfoldable pub confirm : OptimisticValueTracker V → OptimisticValueTracker V
  unfolding confirm_one clear
  confirm t =
      if is_active t then (let (t', last) = confirm_one t in if last then clear t' else t') else t

  -- The value that the data point restores; `none` where there is nothing to roll back.
  unfoldable pub rollback_optimistic_value :
      OptimisticValueTracker V → OptimisticValueTracker V × Option (Option V)
  unfolding rollback
  rollback_optimistic_value t =
      if not (is_active t) then (t, none) else (let (t', r) = rollback t in (t', some r.1))

  unfoldable pub step : Confirmable → Call V → OptimisticValueTracker V → OptimisticValueTracker V
  unfolding apply_optimistic_value confirm rollback_optimistic_value
  step s (applies v current timeout now) t = apply_optimistic_value s v current timeout now t
  step s confirms t = confirm t
  step s rolls_back t = (rollback_optimistic_value t).0

  unfoldable pub run :
      Confirmable → List (Call V) → OptimisticValueTracker V → OptimisticValueTracker V
  unfolding step
  run s [] t = t
  run s (c ∷ cs) t = run s cs (step s c t)
