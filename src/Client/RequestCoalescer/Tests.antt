-- ===== src/Client/RequestCoalescer/Tests.antt =====
-- Runs of the request coalescer: two callers of the key "a" and one of the key "b".
use aiohomematic.Prelude.{ℕ, ◌≡◌, refl, String, true, none, some, List, [], ◌∷◌}
use aiohomematic.Prelude.Dict.{lookup, insert, remove, string_eq, nat_eq}
use aiohomematic.Client.RequestCoalescer.{
  waiting, returned, returns, raises_cancelled, raises_invalid_state, Event, calls, ends, gives_up,
  finish, await_existing, init, start, step, run,
}
use aiohomematic.Client.RequestCoalescer.Steps.{InSync, ending}
use aiohomematic.Client.RequestCoalescer.Laws.{Gets, run-InSync, run-resolves}
use aiohomematic.Client.RequestCoalescer.Clearing.{reopened, clear-begin-finish}

abbrev history : List (Event ℕ String)
history = calls "a" ∷ calls "b" ∷ calls "a" ∷ ends 1 (returned 7) ∷ []

busy : lookup 0 (run history (start true)).running ≡ some "a"
unfolding lookup run step init insert remove
busy = refl

run-InSync_example : InSync (run history (start true))
run-InSync_example = run-InSync true history

run-resolves_example :
    let s = run history (start true) in
    ((finish "a" 0 (returned 5) s.coalescer).0 ≡ ending (s.coalescer.futures 0) (returned 5))
    × Gets
        (s.coalescer.futures 0)
        (returned 5)
        (await_existing 0 (run (calls "a" ∷ []) (step (ends 0 (returned 5)) s)).coalescer)
run-resolves_example = run-resolves true history (calls "a" ∷ []) "a" 0 (returned 5) busy

clear-begin-finish_example :
    let c = (run history (start true)).coalescer in
    ((finish "a" 0 (returned 5) (reopened "a" c)).0 ≡ raises_invalid_state)
    × (lookup "a" (finish "a" 0 (returned 5) (reopened "a" c)).1.pending ≡ none)
    × ((finish "a" 0 (returned 5) (reopened "a" c)).1.futures c.next_future ≡ waiting)
clear-begin-finish_example = clear-begin-finish true history "a" 0 5 busy

counts : (run history (start true)).coalescer.total_requests ≡ 3
unfolding run step init lookup insert remove
counts = refl

passed_on :
    let s = run history (start true) in
    ((finish "a" 0 (returned 5) s.coalescer).0 ≡ returns 5)
    × (await_existing 0 (step (ends 0 (returned 5)) s).coalescer ≡ some (returns 5))
unfolding run step init lookup insert remove finish await_existing
passed_on = (refl, refl)

-- The second caller of the key "a" is cancelled.
one_gives_up :
    let s = step (gives_up 0) (run history (start true)) in
    ((finish "a" 0 (returned 5) s.coalescer).0 ≡ raises_invalid_state)
    × (await_existing 0 s.coalescer ≡ some raises_cancelled)
unfolding run step init lookup insert remove finish await_existing
one_gives_up = (refl, refl)
