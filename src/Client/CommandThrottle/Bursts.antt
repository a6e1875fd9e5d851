-- ===== src/Client/CommandThrottle/Bursts.antt =====
-- aiohomematic/client/command_throttle.py: the sliding window of `_detect_burst` against a count of
-- all calls.
use aiohomematic.Prelude.{
  ℕ, ◌+◌, ◌-◌, ◌≤◌, ◌≡◌, refl, ap, ◌∙◌, ◌≢◌, inl, inr, not, List, [], ◌∷◌, ◌++◌, arith, ltb,
  Bool-cases, if_elim,
}
use aiohomematic.Prelude.Lists.{length, count}
use mathlib.Core.List.{append_assoc}
use aiohomematic.Client.CommandThrottle.{CommandThrottle, detect_burst, evict}

-- Each time is at least the one before it.
abbrev pub IsAscending : ℕ → List ℕ → Type 0
IsAscending t [] = Unit
IsAscending t (u ∷ us) = (t ≤ u) × IsAscending u us

-- The calls of `_detect_burst` at the times.
unfoldable pub detect_all : List ℕ → CommandThrottle → CommandThrottle
unfolding detect_burst
detect_all [] s = s
detect_all (t ∷ ts) s = detect_all ts (detect_burst t s).1

-- How many times are not before the cutoff.
abbrev pub recent : ℕ → List ℕ → ℕ
recent cutoff = count (λ t. not (ltb t cutoff))

recent-evict : (c d : ℕ) (ts : List ℕ) → c ≤ d → recent d (evict c ts) ≡ recent d ts
unfolding evict
recent-evict c d [] l = refl
recent-evict c d (t ∷ ts) l = ground (arith, l, recent-evict c d ts l)

recent-append : (c : ℕ) (ts us : List ℕ) → recent c (ts ++ us) ≡ recent c ts + recent c us
recent-append c [] us = omega arith
recent-append c (t ∷ ts) us = omega (arith, recent-append c ts us)

-- Of ascending times all that remain are recent.
length-recent : (c t : ℕ) (ts : List ℕ) → c ≤ t → IsAscending t ts → recent c ts ≡ length ts
length-recent c t [] l a = refl
length-recent c t (u ∷ us) l a =
    ground (arith, l, a.0, length-recent c u us (omega (arith, l, a.0)) a.1)

length-evict : (c t : ℕ) (ts : List ℕ) → IsAscending t ts → length (evict c ts) ≡ recent c ts
unfolding evict
length-evict c t [] a = refl
length-evict c t (u ∷ us) a = elim (Bool-cases (ltb u c)) [
  | inl old ↦ ground (arith, old, length-evict c u us a.1)
  | inr new ↦ ground (arith, new, length-recent c u us (ground (arith, new)) a.1)
]

IsAscending-weaken : (t u : ℕ) (ts : List ℕ) → t ≤ u → IsAscending u ts → IsAscending t ts
IsAscending-weaken t u [] l a = tt
IsAscending-weaken t u (v ∷ vs) l a = (omega (arith, l, a.0), a.1)

IsAscending-evict : (c t : ℕ) (ts : List ℕ) → IsAscending t ts → IsAscending t (evict c ts)
unfolding evict
IsAscending-evict c t [] a = tt
IsAscending-evict c t (u ∷ us) a =
    if_elim (IsAscending t) (ltb u c)
      (λ h. IsAscending-evict c t us (IsAscending-weaken t u us a.0 a.1)) (λ h. a)

-- All times are at most the given one.
abbrev IsPast : ℕ → List ℕ → Type 0
IsPast now [] = Unit
IsPast now (t ∷ ts) = (t ≤ now) × IsPast now ts

IsPast-weaken : (t u : ℕ) (ts : List ℕ) → t ≤ u → IsPast t ts → IsPast u ts
IsPast-weaken t u [] l a = tt
IsPast-weaken t u (v ∷ vs) l a = (omega (arith, l, a.0), IsPast-weaken t u vs l a.1)

IsPast-evict : (c now : ℕ) (ts : List ℕ) → IsPast now ts → IsPast now (evict c ts)
unfolding evict
IsPast-evict c now [] a = tt
IsPast-evict c now (u ∷ us) a =
    if_elim (IsPast now) (ltb u c) (λ h. IsPast-evict c now us a.1) (λ h. a)

IsPast-append : (now : ℕ) (ts : List ℕ) → IsPast now ts → IsPast now (ts ++ now ∷ [])
IsPast-append now [] p = (omega arith, tt)
IsPast-append now (t ∷ ts) p = (p.0, IsPast-append now ts p.1)

IsAscending-append :
    (t now : ℕ) (ts : List ℕ)
    → t ≤ now
    → IsAscending t ts
    → IsPast now ts
    → IsAscending t (ts ++ now ∷ [])
IsAscending-append t now [] l a p = (l, tt)
IsAscending-append t now (u ∷ us) l a p = (a.0, IsAscending-append u now us p.0 a.1 p.1)

-- At the time `t`, the kept timestamps count the recent calls as `calls` does.
record Tracks (calls : List ℕ) (t : ℕ) (s : CommandThrottle) : Type 0 where
  ascending : IsAscending 0 s.burst_timestamps
  past : IsPast t s.burst_timestamps
  counts : (c : ℕ) → t - s.burst_window ≤ c → recent c s.burst_timestamps ≡ recent c calls

-- The timestamps before the loop drops the old ones.
abbrev added : ℕ → CommandThrottle → List ℕ
added now s = s.burst_timestamps ++ now ∷ []

detect_on :
    (now : ℕ) (s : CommandThrottle)
    → s.burst_threshold ≢ 0
    → detect_burst now s ≡ (
      ltb s.burst_threshold (length (evict (now - s.burst_window) (added now s))),
      record s { burst_timestamps = evict (now - s.burst_window) (added now s) },
    )
unfolding detect_burst
detect_on now s on = ground (arith, on)

detect_burst-Tracks :
    (calls : List ℕ) (t now : ℕ) (s : CommandThrottle)
    → s.burst_threshold ≢ 0
    → t ≤ now
    → Tracks calls t s
    → Tracks (calls ++ now ∷ []) now (detect_burst now s).1
detect_burst-Tracks calls t now s on l i = rw (detect_on now s on) (record {
  ascending = IsAscending-evict _ 0 (added now s) (
      IsAscending-append 0 now s.burst_timestamps (omega arith) i.ascending
        (IsPast-weaken t now s.burst_timestamps l i.past));
  past =
      IsPast-evict _ now (added now s)
        (IsPast-append now s.burst_timestamps (IsPast-weaken t now s.burst_timestamps l i.past));
  counts = λ c m. omega (
    arith,
    recent-evict (now - s.burst_window) c (added now s) m,
    recent-append c s.burst_timestamps (now ∷ []),
    recent-append c calls (now ∷ []),
    i.counts c (omega (arith, m, l)),
  );
})

-- The answer counts the recent ones of all calls.
detect_burst-counts :
    (calls : List ℕ) (t now : ℕ) (s : CommandThrottle)
    → s.burst_threshold ≢ 0
    → t ≤ now
    → Tracks calls t s
    → (detect_burst now s).0
      ≡ ltb s.burst_threshold (recent (now - s.burst_window) (calls ++ now ∷ []))
detect_burst-counts calls t now s on l i =
    let counted : length (evict (now - s.burst_window) (added now s))
        ≡ recent (now - s.burst_window) (calls ++ now ∷ []) =
      omega (
        arith,
        length-evict (now - s.burst_window) 0 (added now s) (
            IsAscending-append 0 now s.burst_timestamps (omega arith) i.ascending
              (IsPast-weaken t now s.burst_timestamps l i.past)),
        recent-append (now - s.burst_window) s.burst_timestamps (now ∷ []),
        recent-append (now - s.burst_window) calls (now ∷ []),
        i.counts (now - s.burst_window) (omega (arith, l)),
      ) in
    ap (λ r. r.0) (detect_on now s on) ∙ ap (ltb s.burst_threshold) counted

detect_all-counts :
    (calls ts : List ℕ) (t now : ℕ) (s : CommandThrottle)
    → s.burst_threshold ≢ 0
    → IsAscending t (ts ++ now ∷ [])
    → Tracks calls t s
    → (detect_burst now (detect_all ts s)).0
      ≡ ltb s.burst_threshold (recent (now - s.burst_window) (calls ++ (ts ++ now ∷ [])))
unfolding detect_all
detect_all-counts calls [] t now s on a i = detect_burst-counts calls t now s on a.0 i
detect_all-counts calls (u ∷ us) t now s on a i =
    let kept : ((detect_burst u s).1.burst_threshold ≡ s.burst_threshold)
        × ((detect_burst u s).1.burst_window ≡ s.burst_window) =
      (
        ap (λ r. r.1.burst_threshold) (detect_on u s on),
        ap (λ r. r.1.burst_window) (detect_on u s on),
      ) in
    let rest =
      detect_all-counts (calls ++ u ∷ []) us u now (detect_burst u s).1 (rw kept.0 on) a.1
        (detect_burst-Tracks calls t u s on a.0 i) in
    let s' = (detect_burst u s).1 in
    let split = (calls ++ u ∷ []) ++ (us ++ now ∷ []) in
    rest
    ∙ (ap (λ n. ltb n (recent (now - s'.burst_window) split)) kept.0
        ∙ (ap (λ w. ltb s.burst_threshold (recent (now - w) split)) kept.1
            ∙ ap (λ l. ltb s.burst_threshold (recent (now - s.burst_window) l))
                (append_assoc calls (u ∷ []) (us ++ now ∷ []))))

-- A burst is answered exactly if more than the threshold of all the calls so far, this one included,
-- lie within the window, although old timestamps are dropped on the way: for a threshold that is not
-- 0, a throttle with no timestamps, and calls at times that do not descend.
pub detect_burst_lem :
    (ts : List ℕ) (now : ℕ) (s : CommandThrottle)
    → s.burst_threshold ≢ 0
    → s.burst_timestamps ≡ []
    → IsAscending 0 (ts ++ now ∷ [])
    → (detect_burst now (detect_all ts s)).0
      ≡ ltb s.burst_threshold (recent (now - s.burst_window) (ts ++ now ∷ []))
detect_burst_lem ts now s on new a =
    detect_all-counts [] ts 0 now s on a
      (record { ascending = rw new tt; past = rw new tt; counts = λ c m. ap (recent c) new })
