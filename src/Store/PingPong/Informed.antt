-- ===== src/Store/PingPong/Informed.antt =====
-- aiohomematic/store/dynamic/ping_pong.py: the calls and the histories, as an observer follows them.
use aiohomematic.Prelude.{
  ℕ, ◌%◌, ◌≡◌, refl, sym, String, Bool, true, false, ◌||◌, not, List, [], ◌∷◌, arith, ltb, leb, eqb,
  if_elim, if◌then◌else◌,
}
use aiohomematic.Prelude.Dict.{string_eq}
use aiohomematic.Store.Types.{
  size, add, forget, tracks, record_pong_received, record_pong_unknown, record_ping_sent,
}
use aiohomematic.Store.PingPong.{
  PingPongTracker, is_pending, is_unknown, init, cleanup_pending, cleanup_unknown, check_pending,
  check_unknown, match_pong, note_unknown, note_ping, reconcile, handle_received_pong,
  handle_send_ping, retry_reconcile_pong, has_connection_issue, Call, pings, pongs, retries, clears,
  step, run, latencies, round_trip,
}
use aiohomematic.Store.PingPong.Alarms.{
  hear_all, Shrinks, IsMarked, Informs, forget-Shrinks, cleanup-Shrinks, Informs-trans,
  Informs-from, check_pending-Informs, check_unknown-Informs, fewer_marked, latencies-Informs,
  schedule_retry-Informs,
}

match_pong-Informs :
    (allowed : ℕ) (token : String) (now : ℕ) (p : PingPongTracker)
    → IsMarked allowed p
    → Informs allowed p (match_pong token now p)
unfolding match_pong cleanup_pending forget
match_pong-Informs allowed token now p i =
    let q = cleanup_pending now (record p {
      journal = record_pong_received token (round_trip token now p) now p.journal;
      pending = forget token p.pending;
    }) in
    let checked =
      Informs-from allowed p q (check_pending now q)
        (cleanup-Shrinks now p.ttl (forget token p.pending)).same_mark refl
        (check_pending-Informs allowed now q i.allows i.marked_unknown) in
    Informs-trans allowed p p (check_pending now q).0 (latencies token now p)
      (check_pending now q).1 (latencies-Informs allowed token now p i) checked

note_unknown-Informs :
    (allowed : ℕ) (token : String) (now : ℕ) (p : PingPongTracker)
    → IsMarked allowed p
    → Informs allowed p (note_unknown token now p)
unfolding note_unknown cleanup_unknown add
note_unknown-Informs allowed token now p i =
    let q = cleanup_unknown now (record p {
      journal = record_pong_unknown token now p.journal;
      unknown = add token now p.unknown;
    }) in
    let checked =
      Informs-from allowed p q (check_unknown now q) refl
        (cleanup-Shrinks now p.ttl (add token now p.unknown)).same_mark
        (check_unknown-Informs allowed now q i.allows i.marked_pending) in
    let scheduled = schedule_retry-Informs allowed token (check_unknown now q).0 checked.marks in
    Informs-trans allowed p (check_unknown now q).0 _ (check_unknown now q).1 _ checked scheduled

note_ping-Informs :
    (allowed : ℕ) (token : String) (now : ℕ) (p : PingPongTracker)
    → IsMarked allowed p
    → Informs allowed p (note_ping token now p)
unfolding note_ping cleanup_pending add
note_ping-Informs allowed token now p i =
    let q = cleanup_pending now (record p {
      journal = record_ping_sent token now p.journal;
      pending = add token now p.pending;
    }) in
    let same = (cleanup-Shrinks now p.ttl (add token now p.pending)).same_mark in
    if_elim (Informs allowed p) (ltb q.allowed_delta (size q.pending) || eqb (size q.pending % 2) 0)
      (λ g.
        Informs-from allowed p q (check_pending now q) same refl
          (check_pending-Informs allowed now q i.allows i.marked_unknown))
      (λ g. record {
        marks = record {
          allows = i.allows;
          marked_pending = λ m. absurd (ground (arith, g, m, i.allows));
          marked_unknown = i.marked_unknown;
        };
        on_pending = sym same;
        on_unknown = refl;
      })

reconcile-Informs :
    (allowed : ℕ) (token : String) (now : ℕ) (p : PingPongTracker)
    → IsMarked allowed p
    → Informs allowed p (reconcile token now p)
unfolding reconcile forget
reconcile-Informs allowed token now p i =
    let u = if tracks token p.unknown then forget token p.unknown else p.unknown in
    let fewer : Shrinks p.unknown u =
      if_elim (Shrinks p.unknown) (tracks token p.unknown) (λ g. forget-Shrinks token p.unknown)
        (λ g. record { smaller = omega arith; same_mark = refl }) in
    let q = record p { pending = forget token p.pending; unknown = u } in
    let checked = Informs-from allowed p q (check_pending now q) refl fewer.same_mark (
      check_pending-Informs allowed now q i.allows
        (fewer_marked allowed p.unknown u fewer i.marked_unknown)) in
    let r = (check_pending now q).0 in
    if_elim (Informs allowed p) (not (eqb (size r.unknown) (size p.unknown)))
      (λ g.
        Informs-trans allowed p r (check_unknown now r).0 (check_pending now q).1
          (check_unknown now r).1 checked
          (check_unknown-Informs allowed now r checked.marks.allows checked.marks.marked_pending))
      (λ g. checked)

retry-Informs :
    (allowed : ℕ) (token : String) (now : ℕ) (p : PingPongTracker)
    → IsMarked allowed p
    → Informs allowed p (retry_reconcile_pong token now p)
unfolding retry_reconcile_pong cleanup_pending cleanup_unknown
retry-Informs allowed token now p i =
    let q = cleanup_unknown now (cleanup_pending now p) in
    let a = cleanup-Shrinks now p.ttl p.pending in
    let b = cleanup-Shrinks now p.ttl p.unknown in
    let marks : IsMarked allowed q = record {
      allows = i.allows;
      marked_pending = fewer_marked allowed p.pending q.pending a i.marked_pending;
      marked_unknown = fewer_marked allowed p.unknown q.unknown b i.marked_unknown;
    } in
    let done =
      Informs-from allowed p q (if tracks token q.pending then reconcile token now q else (q, []))
        a.same_mark b.same_mark
        (if_elim (Informs allowed q) (tracks token q.pending)
          (λ g. reconcile-Informs allowed token now q marks)
          (λ g. record { marks = marks; on_pending = refl; on_unknown = refl })) in
    record {
      marks = record {
        allows = done.marks.allows;
        marked_pending = done.marks.marked_pending;
        marked_unknown = done.marks.marked_unknown;
      };
      on_pending = done.on_pending;
      on_unknown = done.on_unknown;
    }

-- No call clears the tracker.
abbrev pub IsUncleared : List (ℕ × Call) → Type 0
IsUncleared [] = Unit
IsUncleared ((now, clears) ∷ cs) = ⊥
IsUncleared ((now, c) ∷ cs) = IsUncleared cs

run-Informs_from :
    (allowed : ℕ) (cs : List (ℕ × Call)) (p : PingPongTracker)
    → IsUncleared cs
    → IsMarked allowed p
    → Informs allowed p (run cs p)
unfolding run step handle_send_ping handle_received_pong
run-Informs_from allowed [] p u i = record { marks = i; on_pending = refl; on_unknown = refl }
run-Informs_from allowed ((now, pings state token) ∷ cs) p u i =
    let here : Informs allowed p (handle_send_ping state token now p) =
      if_elim (Informs allowed p) (has_connection_issue state p)
        (λ g. record { marks = i; on_pending = refl; on_unknown = refl })
        (λ g. note_ping-Informs allowed token now p i) in
    Informs-trans allowed p _ _ _ _ here (run-Informs_from allowed cs _ u here.marks)
run-Informs_from allowed ((now, pongs token) ∷ cs) p u i =
    let here : Informs allowed p (handle_received_pong token now p) =
      if_elim (Informs allowed p) (tracks token p.pending)
        (λ g. match_pong-Informs allowed token now p i)
        (λ g. note_unknown-Informs allowed token now p i) in
    Informs-trans allowed p _ _ _ _ here (run-Informs_from allowed cs _ u here.marks)
run-Informs_from allowed ((now, retries token) ∷ cs) p u i =
    let here = retry-Informs allowed token now p i in
    Informs-trans allowed p _ _ _ _ here (run-Informs_from allowed cs _ u here.marks)
run-Informs_from allowed ((now, clears) ∷ cs) p u i = absurd u

-- An observer that follows the mismatch events of a new tracker, with its calls in any order but none
-- of `clear`, takes a kind for alarmed (its last count is beyond the allowed) exactly when the
-- tracker has marked that kind; and it does whenever the tokens of the kind are more than allowed.
pub run-Informs :
    (interface_id : String) (allowed ttl : ℕ) (has_recorder has_looper : Bool)
    (cs : List (ℕ × Call))
    → IsUncleared cs
    → let (p, out) = run cs (init interface_id allowed ttl has_recorder has_looper) in
      (hear_all is_pending allowed out false ≡ p.pending.logged)
      × ((hear_all is_unknown allowed out false ≡ p.unknown.logged)
          × (((leb (size p.pending) allowed || hear_all is_pending allowed out false) ≡ true)
              × ((leb (size p.unknown) allowed || hear_all is_unknown allowed out false) ≡ true)))
unfolding init
run-Informs interface_id allowed ttl has_recorder has_looper cs u =
    let new = init interface_id allowed ttl has_recorder has_looper in
    let i = run-Informs_from allowed cs new u (record {
      allows = refl;
      marked_pending = λ h. absurd (ground (arith, h));
      marked_unknown = λ h. absurd (ground (arith, h));
    }) in
    (
      i.on_pending,
      (
        i.on_unknown,
        (
          ground (arith, i.on_pending, i.marks.marked_pending),
          ground (arith, i.on_unknown, i.marks.marked_unknown),
        ),
      ),
    )
