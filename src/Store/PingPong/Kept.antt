-- ===== src/Store/PingPong/Kept.antt =====
-- aiohomematic/store/dynamic/ping_pong.py: a tracker never keeps more than it may.
use aiohomematic.Prelude.{
  ℕ, ◌-◌, ◌≤◌, ◌≡◌, sym, ap, ◌∙◌, subst, String, true, none, List, [], ◌∷◌, arith, ltb, if_elim,
}
use aiohomematic.Prelude.Lists.{length}
use aiohomematic.Prelude.Dict.{contains, Distinct, string_eq}
use aiohomematic.Store.Types.{
  PongTracker, PingPongJournal, PingPongEventType, size, record_pong_expired,
}
use aiohomematic.Store.Types.Journal.{IsSmall, add_event-IsSmall}
use aiohomematic.Store.PingPong.{
  PingPongTracker, forget_all, cleanup_tracker, cleanup_pending, cleanup_unknown, record_expired,
  expired_tokens, oldest_tokens, max_size,
}
use aiohomematic.Prelude.Keys.{
  keys, sort_by, length-keys, length-sort_by, keys-sort_by, Distinct-sort_by, length-first_keys,
  Distinct-first_keys, Within-first_keys,
}
use aiohomematic.Store.PingPong.Bounds.{IsPaired, forget_all-IsPaired, size-forget_all}

-- The tokens are the keys of the times, and at most 100.
pub record Fits (t : PongTracker) : Type 0 where
  pub paired : IsPaired t
  pub size_le : size t ≤ 100

evict-Fits :
    (t : PongTracker) → IsPaired t → ltb 100 (size t) ≡ true → Fits (forget_all (oldest_tokens t) t)
evict-Fits t i h =
    let n = size t - 100 in
    let d = sort_by (λ e. e.1) t.seen_at in
    let same : (k : String) → contains k (keys d) ≡ contains k t.tokens =
      λ k. keys-sort_by (λ e. e.1) k t.seen_at ∙ ap (contains k) i.same in
    let distinct = Distinct-sort_by (λ e. e.1) t.seen_at (subst Distinct (sym i.same) i.distinct) in
    let long : length d ≡ size t =
      length-sort_by (λ e. e.1) t.seen_at ∙ (sym (length-keys t.seen_at) ∙ ap length i.same) in
    let gone =
      size-forget_all (oldest_tokens t) t (Distinct-first_keys n d distinct)
        (Within-first_keys n d t.tokens (λ k c. sym (same k) ∙ c)) in
    record {
      paired = forget_all-IsPaired (oldest_tokens t) t i;
      size_le = ground (arith, gone, length-first_keys n d (omega (arith, long)), h);
    }

cleanup-Fits : (now ttl : ℕ) (t : PongTracker) → IsPaired t → Fits (cleanup_tracker now ttl t)
unfolding cleanup_tracker
cleanup-Fits now ttl t i =
    let t' = forget_all (expired_tokens now ttl t) t in
    let i' = forget_all-IsPaired (expired_tokens now ttl t) t i in
    if_elim Fits (ltb max_size (size t')) (λ h. evict-Fits t' i' h)
      (λ h. record { paired = i'; size_le = ground (arith, h) })

-- Both kinds and the journal are within their limits.
pub record IsBounded (p : PingPongTracker) : Type 0 where
  pub fits_pending : Fits p.pending
  pub fits_unknown : Fits p.unknown
  pub small : IsSmall p.journal

record_expired-IsSmall :
    (ks : List String) (now : ℕ) (j : PingPongJournal)
    → IsSmall j
    → IsSmall (record_expired ks now j)
unfolding record_expired record_pong_expired
record_expired-IsSmall [] now j i = i
record_expired-IsSmall (k ∷ ks) now j i =
    record_expired-IsSmall ks now (record_pong_expired k now j)
      (add_event-IsSmall PingPongEventType.pong_expired k none now j i)

pub cleanup_pending-IsBounded :
    (now : ℕ) (p : PingPongTracker)
    → IsPaired p.pending
    → Fits p.unknown
    → IsSmall p.journal
    → IsBounded (cleanup_pending now p)
unfolding cleanup_pending
cleanup_pending-IsBounded now p i u s = record {
  fits_pending = cleanup-Fits now p.ttl p.pending i;
  fits_unknown = u;
  small = record_expired-IsSmall (expired_tokens now p.ttl p.pending) now p.journal s;
}

pub cleanup_unknown-IsBounded :
    (now : ℕ) (p : PingPongTracker)
    → Fits p.pending
    → IsPaired p.unknown
    → IsSmall p.journal
    → IsBounded (cleanup_unknown now p)
unfolding cleanup_unknown
cleanup_unknown-IsBounded now p f i s = record {
  fits_pending = f;
  fits_unknown = cleanup-Fits now p.ttl p.unknown i;
  small = s;
}
