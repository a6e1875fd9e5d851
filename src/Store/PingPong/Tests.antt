-- ===== src/Store/PingPong/Tests.antt =====
-- Pings and pongs at concrete times.
use aiohomematic.Prelude.{ℕ, ◌≤◌, ◌≡◌, ◌||◌, true, false, none, List, [], ◌∷◌, ◌++◌, leb}
use aiohomematic.Prelude.Lists.{length}
use aiohomematic.Prelude.Dict.{Distinct, string_eq}
use aiohomematic.Prelude.Keys.{keys}
use aiohomematic.Store.Types.{size}
use aiohomematic.Store.PingPong.{
  is_pending, is_unknown, init, Call, pings, pongs, retries, clears, run,
}
use aiohomematic.Store.PingPong.Alarms.{hear_all}
use aiohomematic.Store.PingPong.Informed.{run-Informs}
use aiohomematic.Store.PingPong.Limits.{run-limits}

-- Two pings without an answer, a pong that nobody asked for, its retry, and a late answer.
abbrev lossy : List (ℕ × Call)
lossy =
    (1_000, pings none "a")
    ∷ (2_000, pings none "b")
    ∷ (3_000, pongs "c")
    ∷ (4_000, retries "c")
    ∷ (5_000, pongs "a")
    ∷ []

run-Informs_example :
    let (p, out) = run lossy (init "if" 1 60_000 true true) in
    (hear_all is_pending 1 out false ≡ p.pending.logged)
    × ((hear_all is_unknown 1 out false ≡ p.unknown.logged)
        × (((leb (size p.pending) 1 || hear_all is_pending 1 out false) ≡ true)
            × ((leb (size p.unknown) 1 || hear_all is_unknown 1 out false) ≡ true)))
run-Informs_example = run-Informs "if" 1 60_000 true true lossy tt

run-limits_example :
    let p = (run (lossy ++ (6_000, clears) ∷ []) (init "if" 1 60_000 true true)).0 in
    ((size p.pending ≤ 100) × (size p.unknown ≤ 100))
    × (((keys p.pending.seen_at ≡ p.pending.tokens) × Distinct p.pending.tokens)
        × (((keys p.unknown.seen_at ≡ p.unknown.tokens) × Distinct p.unknown.tokens)
            × ((length p.journal.events ≤ 100) × (length p.journal.rtt_samples ≤ 50))))
run-limits_example = run-limits "if" 1 60_000 true true (lossy ++ (6_000, clears) ∷ [])
