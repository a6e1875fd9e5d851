-- ===== src/Model/Optimistic/Tests.antt =====
-- Sends and confirmations of one data point.
use aiohomematic.Prelude.{
  ℕ, ◌≡◌, refl, true, false, not, ◌&&◌, some, List, [], ◌∷◌, ltb, is_some, arith,
}
use aiohomematic.Model.Optimistic.{
  Confirmable, Call, applies, confirms, rolls_back, init, is_active, apply_optimistic_value,
  rollback_optimistic_value, step, run,
}
use aiohomematic.Model.Optimistic.Bursts.{run-IsSettled, rollback-restores, balance}

abbrev dimmer : Confirmable
dimmer = record { is_action = false; has_events = true; rpc_callback = true }

-- A send that is rolled back.
abbrev lost : List (Call ℕ)
lost = applies 3 (some 0) 30 100 ∷ rolls_back ∷ []

-- A second send, and the confirmation of the first.
abbrev burst : List (Call ℕ)
burst = applies 7 (some 5) 30 201 ∷ confirms ∷ []

run-IsSettled_example :
    let t = run dimmer burst init in
    (is_active t ≡ ltb 0 t.pending_sends)
    × ((is_some t.sent_at ≡ is_active t)
        × ((is_some t.timeout_handle ≡ is_active t)
            × ((not (is_active t) && is_some t.previous_value) ≡ false)))
run-IsSettled_example = run-IsSettled dimmer burst

rollback-restores_example :
    let t =
      run dimmer burst (apply_optimistic_value dimmer 5 (some 1) 30 200 (run dimmer lost init)) in
    let (t', restored) = rollback_optimistic_value t in
    (t.pending_sends ≡ balance 1 burst) × ((restored ≡ some (some 1)) × (t' ≡ init))
unfolding run step
rollback-restores_example =
    rollback-restores dimmer lost 5 (some 1) 30 200 burst refl refl (omega arith, tt)
