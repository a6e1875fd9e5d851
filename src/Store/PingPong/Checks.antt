-- ===== src/Store/PingPong/Checks.antt =====
-- aiohomematic/store/dynamic/ping_pong.py: pings, pongs and their checks keep the limits.
use aiohomematic.Prelude.{ℕ, ◌%◌, String, Bool, true, false, ◌||◌, none, List, ltb, eqb, if_elim}
use aiohomematic.Prelude.Dict.{contains, string_eq}
use aiohomematic.Store.Types.{
  PingPongEventType, size, add, forget, record_ping_sent, record_pong_received, record_pong_unknown,
}
use aiohomematic.Store.Types.Journal.{IsSmall, add_event-IsSmall, record_pong_received-IsSmall}
use aiohomematic.Store.PingPong.{
  PingPongTracker, Effect, cleanup_pending, cleanup_unknown, judge_pending, judge_unknown,
  check_pending, check_unknown, schedule_retry, match_pong, note_unknown, note_ping, round_trip,
}
use aiohomematic.Store.PingPong.Bounds.{IsPaired, add-IsPaired, forget-IsPaired}
use aiohomematic.Store.PingPong.Kept.{
  Fits, IsBounded, cleanup_pending-IsBounded, cleanup_unknown-IsBounded,
}

-- A call leaves a tracker within its limits.
abbrev pub Leaves : PingPongTracker × List Effect → Type 0
Leaves r = IsBounded r.0

judge_pending-IsBounded : (p : PingPongTracker) → IsBounded p → IsBounded (judge_pending p).0
unfolding judge_pending
judge_pending-IsBounded p i =
    let f = i.fits_pending in
    let marked : (b : Bool) → IsBounded (record p { pending = record p.pending { logged = b } }) =
      λ b. record {
        fits_pending = record {
          paired = record { same = f.paired.same; distinct = f.paired.distinct };
          size_le = f.size_le;
        };
        fits_unknown = i.fits_unknown;
        small = i.small;
      } in
    if_elim Leaves (ltb p.allowed_delta (size p.pending)) (λ _. marked true)
      (λ _. if_elim Leaves p.pending.logged (λ _. marked false) (λ _. i))

judge_unknown-IsBounded : (p : PingPongTracker) → IsBounded p → IsBounded (judge_unknown p).0
unfolding judge_unknown
judge_unknown-IsBounded p i =
    let f = i.fits_unknown in
    let marked : (b : Bool) → IsBounded (record p { unknown = record p.unknown { logged = b } }) =
      λ b. record {
        fits_pending = i.fits_pending;
        fits_unknown = record {
          paired = record { same = f.paired.same; distinct = f.paired.distinct };
          size_le = f.size_le;
        };
        small = i.small;
      } in
    if_elim Leaves (ltb p.allowed_delta (size p.unknown)) (λ _. marked true)
      (λ _. if_elim Leaves p.unknown.logged (λ _. marked false) (λ _. i))

pub check_pending-IsBounded :
    (now : ℕ) (p : PingPongTracker)
    → IsPaired p.pending
    → Fits p.unknown
    → IsSmall p.journal
    → IsBounded (check_pending now p).0
unfolding check_pending
check_pending-IsBounded now p i u s =
    judge_pending-IsBounded (cleanup_pending now p) (cleanup_pending-IsBounded now p i u s)

pub check_unknown-IsBounded :
    (now : ℕ) (p : PingPongTracker) → IsBounded p → IsBounded (check_unknown now p).0
unfolding check_unknown
check_unknown-IsBounded now p i =
    judge_unknown-IsBounded (cleanup_unknown now p)
      (cleanup_unknown-IsBounded now p i.fits_pending i.fits_unknown.paired i.small)

-- Only the tokens that wait for a retry differ.
schedule_retry-IsBounded :
    (token : String) (p : PingPongTracker) → IsBounded p → IsBounded (schedule_retry token p).0
unfolding schedule_retry
schedule_retry-IsBounded token p i =
    if_elim Leaves (contains token p.retry_at) (λ _. i)
      (λ _.
        if_elim Leaves p.has_looper
          (λ _. record {
            fits_pending = i.fits_pending;
            fits_unknown = i.fits_unknown;
            small = i.small;
          })
          (λ _. i))

pub match_pong-IsBounded :
    (token : String) (now : ℕ) (p : PingPongTracker)
    → IsBounded p
    → IsBounded (match_pong token now p).0
unfolding match_pong
match_pong-IsBounded token now p i =
    let forgotten = record p {
      journal = record_pong_received token (round_trip token now p) now p.journal;
      pending = forget token p.pending;
    } in
    let cleaned =
      cleanup_pending-IsBounded now forgotten
        (forget-IsPaired token p.pending i.fits_pending.paired) i.fits_unknown
        (record_pong_received-IsSmall token (round_trip token now p) now p.journal i.small) in
    check_pending-IsBounded now (cleanup_pending now forgotten) cleaned.fits_pending.paired
      cleaned.fits_unknown cleaned.small

pub note_unknown-IsBounded :
    (token : String) (now : ℕ) (p : PingPongTracker)
    → IsBounded p
    → IsBounded (note_unknown token now p).0
unfolding note_unknown record_pong_unknown
note_unknown-IsBounded token now p i =
    let added = record p {
      journal = record_pong_unknown token now p.journal;
      unknown = add token now p.unknown;
    } in
    let cleaned =
      cleanup_unknown-IsBounded now added i.fits_pending
        (add-IsPaired token now p.unknown i.fits_unknown.paired)
        (add_event-IsSmall PingPongEventType.pong_unknown token none now p.journal i.small) in
    schedule_retry-IsBounded token (check_unknown now (cleanup_unknown now added)).0
      (check_unknown-IsBounded now (cleanup_unknown now added) cleaned)

pub note_ping-IsBounded :
    (token : String) (now : ℕ) (p : PingPongTracker)
    → IsBounded p
    → IsBounded (note_ping token now p).0
unfolding note_ping record_ping_sent
note_ping-IsBounded token now p i =
    let added = record p {
      journal = record_ping_sent token now p.journal;
      pending = add token now p.pending;
    } in
    let q = cleanup_pending now added in
    let cleaned =
      cleanup_pending-IsBounded now added (add-IsPaired token now p.pending i.fits_pending.paired)
        i.fits_unknown
        (add_event-IsSmall PingPongEventType.ping_sent token none now p.journal i.small) in
    if_elim Leaves (ltb q.allowed_delta (size q.pending) || eqb (size q.pending % 2) 0)
      (λ _.
        check_pending-IsBounded now q cleaned.fits_pending.paired cleaned.fits_unknown
          cleaned.small)
      (λ _. cleaned)
