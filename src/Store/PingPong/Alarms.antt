-- ===== src/Store/PingPong/Alarms.antt =====
-- aiohomematic/store/dynamic/ping_pong.py: what an observer of the mismatch events knows.
use aiohomematic.Prelude.{
  ℕ, ◌≤◌, ◌≡◌, refl, sym, ap, ◌∙◌, String, Bool, true, false, List, [], ◌∷◌, ◌++◌, arith, ltb,
  if_elim, if◌then◌else◌,
}
use aiohomematic.Prelude.Lists.{length}
use aiohomematic.Prelude.Dict.{erase, string_eq}
use aiohomematic.Store.Types.{PongTracker, size, forget}
use aiohomematic.Store.PingPong.{
  PingPongTracker, PingPongMismatchType, is_pending, is_unknown, Effect, mismatch, forget_all,
  cleanup_tracker, cleanup_pending, cleanup_unknown, judge_pending, judge_unknown, check_pending,
  check_unknown, schedule_retry, latencies, expired_tokens, oldest_tokens, max_size,
}

abbrev pub same_kind : PingPongMismatchType → PingPongMismatchType → Bool
same_kind is_pending is_pending = true
same_kind is_unknown is_unknown = true
same_kind _ _ = false

-- Whether the observer is alarmed after an event: by its last count, if that is beyond the allowed.
abbrev pub hear : PingPongMismatchType → ℕ → Effect → Bool → Bool
hear kind allowed (mismatch k acceptable count) alarmed =
    if same_kind k kind then ltb allowed count else alarmed
hear kind allowed _ alarmed = alarmed

abbrev pub hear_all : PingPongMismatchType → ℕ → List Effect → Bool → Bool
hear_all kind allowed [] alarmed = alarmed
hear_all kind allowed (e ∷ es) alarmed = hear_all kind allowed es (hear kind allowed e alarmed)

hear_all-append :
    (kind : PingPongMismatchType) (allowed : ℕ) (es fs : List Effect) (alarmed : Bool)
    → hear_all kind allowed (es ++ fs) alarmed
      ≡ hear_all kind allowed fs (hear_all kind allowed es alarmed)
hear_all-append kind allowed [] fs alarmed = refl
hear_all-append kind allowed (e ∷ es) fs alarmed = hear_all-append kind allowed es fs _

-- The tokens are not more, and the mark of the warning is the same.
pub record Shrinks (t t' : PongTracker) : Type 0 where
  pub smaller : size t' ≤ size t
  pub same_mark : t'.logged ≡ t.logged

length-erase-le : (k : String) (ks : List String) → length (erase k ks) ≤ length ks
unfolding erase
length-erase-le k [] = omega arith
length-erase-le k (x ∷ xs) = ground (arith, length-erase-le k xs)

pub forget-Shrinks : (k : String) (t : PongTracker) → Shrinks t (forget k t)
unfolding forget
forget-Shrinks k t = record { smaller = length-erase-le k t.tokens; same_mark = refl }

forget_all-Shrinks : (ks : List String) (t : PongTracker) → Shrinks t (forget_all ks t)
unfolding forget_all
forget_all-Shrinks [] t = record { smaller = omega arith; same_mark = refl }
forget_all-Shrinks (k ∷ ks) t =
    let a = forget-Shrinks k t in
    let b = forget_all-Shrinks ks (forget k t) in
    record { smaller = omega (arith, a.smaller, b.smaller); same_mark = b.same_mark ∙ a.same_mark }

pub cleanup-Shrinks : (now ttl : ℕ) (t : PongTracker) → Shrinks t (cleanup_tracker now ttl t)
unfolding cleanup_tracker
cleanup-Shrinks now ttl t =
    let t' = forget_all (expired_tokens now ttl t) t in
    let a = forget_all-Shrinks (expired_tokens now ttl t) t in
    if_elim (Shrinks t) (ltb max_size (size t'))
      (λ h.
        let b = forget_all-Shrinks (oldest_tokens t') t' in
        record {
          smaller = omega (arith, a.smaller, b.smaller);
          same_mark = b.same_mark ∙ a.same_mark;
        })
      (λ h. a)

-- A count beyond the allowed one is marked.
pub record IsMarked (allowed : ℕ) (p : PingPongTracker) : Type 0 where
  pub allows : p.allowed_delta ≡ allowed
  pub marked_pending : ltb allowed (size p.pending) ≡ true → p.pending.logged ≡ true
  pub marked_unknown : ltb allowed (size p.unknown) ≡ true → p.unknown.logged ≡ true

-- An observer that was right about the marks is right about them afterwards.
pub record Informs (allowed : ℕ) (p : PingPongTracker) (r : PingPongTracker × List Effect)
    : Type 0 where
  pub marks : IsMarked allowed r.0
  pub on_pending : hear_all is_pending allowed r.1 p.pending.logged ≡ r.0.pending.logged
  pub on_unknown : hear_all is_unknown allowed r.1 p.unknown.logged ≡ r.0.unknown.logged

pub Informs-trans :
    (allowed : ℕ) (p q r : PingPongTracker) (out out' : List Effect)
    → Informs allowed p (q, out)
    → Informs allowed q (r, out')
    → Informs allowed p (r, out ++ out')
Informs-trans allowed p q r out out' a b = record {
  marks = b.marks;
  on_pending =
      hear_all-append is_pending allowed out out' _
      ∙ (ap (hear_all is_pending allowed out') a.on_pending ∙ b.on_pending);
  on_unknown =
      hear_all-append is_unknown allowed out out' _
      ∙ (ap (hear_all is_unknown allowed out') a.on_unknown ∙ b.on_unknown);
}

judge_pending-Informs :
    (allowed : ℕ) (p : PingPongTracker)
    → p.allowed_delta ≡ allowed
    → (ltb allowed (size p.unknown) ≡ true → p.unknown.logged ≡ true)
    → Informs allowed p (judge_pending p)
unfolding judge_pending
judge_pending-Informs allowed p a u = record {
  marks = record {
    allows = ground (arith, a);
    marked_pending = λ h. ground (arith, a, h);
    marked_unknown = λ h. ground (arith, a, h, u);
  };
  on_pending = ground (arith, a);
  on_unknown = ground (arith, a);
}

judge_unknown-Informs :
    (allowed : ℕ) (p : PingPongTracker)
    → p.allowed_delta ≡ allowed
    → (ltb allowed (size p.pending) ≡ true → p.pending.logged ≡ true)
    → Informs allowed p (judge_unknown p)
unfolding judge_unknown
judge_unknown-Informs allowed p a u = record {
  marks = record {
    allows = ground (arith, a);
    marked_pending = λ h. ground (arith, a, h, u);
    marked_unknown = λ h. ground (arith, a, h);
  };
  on_pending = ground (arith, a);
  on_unknown = ground (arith, a);
}

-- The same for a tracker before it, with the same marks.
pub Informs-from :
    (allowed : ℕ) (p q : PingPongTracker) (r : PingPongTracker × List Effect)
    → q.pending.logged ≡ p.pending.logged
    → q.unknown.logged ≡ p.unknown.logged
    → Informs allowed q r
    → Informs allowed p r
Informs-from allowed p q r a b i = record {
  marks = i.marks;
  on_pending = ap (hear_all is_pending allowed r.1) (sym a) ∙ i.on_pending;
  on_unknown = ap (hear_all is_unknown allowed r.1) (sym b) ∙ i.on_unknown;
}

pub check_pending-Informs :
    (allowed now : ℕ) (p : PingPongTracker)
    → p.allowed_delta ≡ allowed
    → (ltb allowed (size p.unknown) ≡ true → p.unknown.logged ≡ true)
    → Informs allowed p (check_pending now p)
unfolding check_pending cleanup_pending
check_pending-Informs allowed now p a u =
    Informs-from allowed p (cleanup_pending now p) (check_pending now p)
      (cleanup-Shrinks now p.ttl p.pending).same_mark refl
      (judge_pending-Informs allowed (cleanup_pending now p) a u)

pub check_unknown-Informs :
    (allowed now : ℕ) (p : PingPongTracker)
    → p.allowed_delta ≡ allowed
    → (ltb allowed (size p.pending) ≡ true → p.pending.logged ≡ true)
    → Informs allowed p (check_unknown now p)
unfolding check_unknown cleanup_unknown
check_unknown-Informs allowed now p a u =
    Informs-from allowed p (cleanup_unknown now p) (check_unknown now p) refl
      (cleanup-Shrinks now p.ttl p.unknown).same_mark
      (judge_unknown-Informs allowed (cleanup_unknown now p) a u)

-- Fewer tokens are marked as before.
pub fewer_marked :
    (allowed : ℕ) (t t' : PongTracker)
    → Shrinks t t'
    → (ltb allowed (size t) ≡ true → t.logged ≡ true)
    → ltb allowed (size t') ≡ true
    → t'.logged ≡ true
fewer_marked allowed t t' s m h = s.same_mark ∙ m (ground (arith, s.smaller, h))

pub latencies-Informs :
    (allowed : ℕ) (token : String) (now : ℕ) (p : PingPongTracker)
    → IsMarked allowed p
    → Informs allowed p (p, latencies token now p)
latencies-Informs allowed token now p i = record {
  marks = i;
  on_pending = ground arith;
  on_unknown = ground arith;
}

pub schedule_retry-Informs :
    (allowed : ℕ) (token : String) (p : PingPongTracker)
    → IsMarked allowed p
    → Informs allowed p (schedule_retry token p)
unfolding schedule_retry
schedule_retry-Informs allowed token p i = record {
  marks = record {
    allows = ground (arith, i.allows);
    marked_pending = λ m. ground (arith, m, i.marked_pending);
    marked_unknown = λ m. ground (arith, m, i.marked_unknown);
  };
  on_pending = ground arith;
  on_unknown = ground arith;
}
