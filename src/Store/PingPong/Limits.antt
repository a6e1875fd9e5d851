-- ===== src/Store/PingPong/Limits.antt =====
-- aiohomematic/store/dynamic/ping_pong.py: every call keeps the tracker within its limits.
use aiohomematic.Prelude.{
  ℕ, ◌≤◌, ◌≡◌, refl, String, Bool, not, List, [], ◌∷◌, arith, eqb, if_elim, if◌then◌else◌,
}
use aiohomematic.Prelude.Lists.{length}
use aiohomematic.Prelude.Dict.{Distinct, string_eq}
use aiohomematic.Store.Types.{
  PongTracker, no_pongs, PingPongJournal, PingPongEventType, size, add, forget, tracks,
  clear_journal, record_ping_sent, record_pong_expired, record_pong_received, record_pong_unknown,
}
use aiohomematic.Store.Types as Types
use aiohomematic.Store.PingPong.{
  PingPongTracker, init, clear, cleanup_pending, cleanup_unknown, check_pending, reconcile,
  handle_received_pong, handle_send_ping, retry_reconcile_pong, has_connection_issue, Call, pings,
  pongs, retries, clears, step, run,
}
use aiohomematic.Store.PingPong.Alarms.{forget-Shrinks}
use aiohomematic.Prelude.Keys.{keys}
use aiohomematic.Store.PingPong.Bounds.{forget-IsPaired}
use aiohomematic.Store.PingPong.Kept.{
  Fits, IsBounded, cleanup_pending-IsBounded, cleanup_unknown-IsBounded,
}
use aiohomematic.Store.PingPong.Checks.{
  Leaves, check_pending-IsBounded, check_unknown-IsBounded, match_pong-IsBounded,
  note_unknown-IsBounded, note_ping-IsBounded,
}

forget-Fits : (k : String) (t : PongTracker) → Fits t → Fits (forget k t)
forget-Fits k t f = record {
  paired = forget-IsPaired k t f.paired;
  size_le = omega (arith, (forget-Shrinks k t).smaller, f.size_le);
}

reconcile-IsBounded :
    (token : String) (now : ℕ) (p : PingPongTracker)
    → IsBounded p
    → IsBounded (reconcile token now p).0
unfolding reconcile
reconcile-IsBounded token now p i =
    let u = if tracks token p.unknown then forget token p.unknown else p.unknown in
    let q = record p { pending = forget token p.pending; unknown = u } in
    let checked =
      check_pending-IsBounded now q (forget-IsPaired token p.pending i.fits_pending.paired)
        (if_elim Fits (tracks token p.unknown) (λ _. forget-Fits token p.unknown i.fits_unknown)
          (λ _. i.fits_unknown))
        i.small in
    let r = (check_pending now q).0 in
    if_elim Leaves (not (eqb (size r.unknown) (size p.unknown)))
      (λ _. check_unknown-IsBounded now r checked) (λ _. checked)

retry-IsBounded :
    (token : String) (now : ℕ) (p : PingPongTracker)
    → IsBounded p
    → IsBounded (retry_reconcile_pong token now p).0
unfolding retry_reconcile_pong
retry-IsBounded token now p i =
    let a = cleanup_pending-IsBounded now p i.fits_pending.paired i.fits_unknown i.small in
    let b =
      cleanup_unknown-IsBounded now (cleanup_pending now p) a.fits_pending a.fits_unknown.paired
        a.small in
    let q = cleanup_unknown now (cleanup_pending now p) in
    let done =
      if_elim Leaves (tracks token q.pending) {x = reconcile token now q} {y = (q, [])}
        (λ _. reconcile-IsBounded token now q b) (λ _. b) in
    record {
      fits_pending = done.fits_pending;
      fits_unknown = done.fits_unknown;
      small = done.small;
    }

step-IsBounded :
    (now : ℕ) (c : Call) (p : PingPongTracker) → IsBounded p → IsBounded (step now c p).0
unfolding step handle_send_ping handle_received_pong clear Types.clear clear_journal
step-IsBounded now (pings state token) p i =
    if_elim Leaves (has_connection_issue state p) (λ _. i) (λ _. note_ping-IsBounded token now p i)
step-IsBounded now (pongs token) p i =
    if_elim Leaves (tracks token p.pending) (λ _. match_pong-IsBounded token now p i)
      (λ _. note_unknown-IsBounded token now p i)
step-IsBounded now (retries token) p i = retry-IsBounded token now p i
step-IsBounded now clears p i = record {
  fits_pending = record { paired = record { same = refl; distinct = tt }; size_le = omega arith };
  fits_unknown = record { paired = record { same = refl; distinct = tt }; size_le = omega arith };
  small = record { room = i.small.room; events_le = omega arith; samples_le = omega arith };
}

run-IsBounded : (cs : List (ℕ × Call)) (p : PingPongTracker) → IsBounded p → IsBounded (run cs p).0
unfolding run
run-IsBounded [] p i = i
run-IsBounded ((now, c) ∷ cs) p i = run-IsBounded cs (step now c p).0 (step-IsBounded now c p i)

-- After any calls of a new tracker, whatever the clock shows, at most 100 tokens are pending and at
-- most 100 are unknown, each kind has exactly one time for each token and no other, no token is
-- there twice, and the journal has at most 100 events and 50 round-trip times.
pub run-limits :
    (interface_id : String) (allowed ttl : ℕ) (has_recorder has_looper : Bool)
    (cs : List (ℕ × Call))
    → let p = (run cs (init interface_id allowed ttl has_recorder has_looper)).0 in
      ((size p.pending ≤ 100) × (size p.unknown ≤ 100))
      × (((keys p.pending.seen_at ≡ p.pending.tokens) × Distinct p.pending.tokens)
          × (((keys p.unknown.seen_at ≡ p.unknown.tokens) × Distinct p.unknown.tokens)
              × ((length p.journal.events ≤ 100) × (length p.journal.rtt_samples ≤ 50))))
unfolding init
run-limits interface_id allowed ttl has_recorder has_looper cs =
    let none_yet : Fits no_pongs = record {
      paired = record { same = refl; distinct = tt };
      size_le = omega arith;
    } in
    let i = run-IsBounded cs (init interface_id allowed ttl has_recorder has_looper) (record {
      fits_pending = none_yet;
      fits_unknown = none_yet;
      small = record { room = refl; events_le = omega arith; samples_le = omega arith };
    }) in
    let f = i.fits_pending in
    let g = i.fits_unknown in
    (
      (f.size_le, g.size_le),
      (
        (f.paired.same, f.paired.distinct),
        ((g.paired.same, g.paired.distinct), (i.small.events_le, i.small.samples_le)),
      ),
    )
