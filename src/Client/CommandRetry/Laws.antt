-- ===== src/Client/CommandRetry/Laws.antt =====
-- aiohomematic/client/command_retry.py: how a retried command ends, while the other tasks work on
-- other data points.
use aiohomematic.Prelude.{
  ℕ, ◌+◌, ◌<◌, ◌≡◌, refl, ◌⊎◌, inl, inr, false, some, List, [], ◌∷◌, arith, Option-cases,
}
use aiohomematic.Prelude.Lists.{All}
use aiohomematic.Prelude.Dict.{
  Hashable, ◌==◌, lookup, insert, remove, nat_eq, Unique, Unique-insert, Unique-remove,
  lookup-insert, lookup-remove,
}
use aiohomematic.Client.CommandRetry.{
  CommandRetryHandler, CommandRetryMetrics, Other, registers, cancels, releases, do_other,
  meanwhile, supersede, register_retry, release, cancel_retry_for_dpk,
}

module _ {K : Type 0} ⦃h : Hashable K⦄ where
  -- The retry of the data point with the event is registered and not cancelled.
  pub record Holds (dpk : K) (e : ℕ) (c : CommandRetryHandler K) : Type 0 where
    pub registered : lookup dpk c.active_retries ≡ some e
    pub open_ : c.is_set e ≡ false
    pub given : e < c.next_event
    pub only : (j : K) → lookup j c.active_retries ≡ some e → j ≡ dpk
    pub unique : Unique c.active_retries

  -- What another task does for another data point.
  abbrev pub IsElsewhere : K → Other K → Type 0
  IsElsewhere dpk (registers j) = (j == dpk) ≡ false
  IsElsewhere dpk (cancels j) = (j == dpk) ≡ false
  IsElsewhere dpk (releases j e) = (j == dpk) ≡ false

  pub register-active :
      (j : K) (c : CommandRetryHandler K)
      → (register_retry j c).1.active_retries ≡ insert j c.next_event c.active_retries
  unfolding register_retry supersede
  register-active j c = ground arith

  pub register-next :
      (j : K) (c : CommandRetryHandler K) → (register_retry j c).1.next_event ≡ c.next_event + 1
  unfolding register_retry
  register-next j c = refl

  pub register-new :
      (j : K) (c : CommandRetryHandler K) → (register_retry j c).1.is_set c.next_event ≡ false
  unfolding register_retry
  register-new j c = ground arith

  -- An event stays open unless it is the one of the data point.
  register-open :
      (j : K) (e : ℕ) (c : CommandRetryHandler K)
      → c.is_set e ≡ false
      → ¬ (lookup j c.active_retries ≡ some e)
      → (register_retry j c).1.is_set e ≡ false
  unfolding register_retry supersede
  register-open j e c o n = ground (arith, o, n)

  cancel-open :
      (j : K) (e : ℕ) (c : CommandRetryHandler K)
      → c.is_set e ≡ false
      → ¬ (lookup j c.active_retries ≡ some e)
      → (cancel_retry_for_dpk j c).1.is_set e ≡ false
  unfolding cancel_retry_for_dpk
  cancel-open j e c o n = ground (arith, o, n)

  not_mine :
      (dpk : K) (e : ℕ) (j : K) (c : CommandRetryHandler K)
      → (j == dpk) ≡ false
      → Holds dpk e c
      → ¬ (lookup j c.active_retries ≡ some e)
  not_mine dpk e j c away i at = ground (arith, away, h.equal_iff j dpk, i.only j at)

  register-Holds :
      (dpk : K) (e : ℕ) (j : K) (c : CommandRetryHandler K)
      → (j == dpk) ≡ false
      → Holds dpk e c
      → Holds dpk e (register_retry j c).1
  register-Holds dpk e j c away i = record {
    registered =
        rw (register-active j c)
          (ground (arith, away, i.registered, lookup-insert j dpk c.next_event c.active_retries));
    open_ = register-open j e c i.open_ (not_mine dpk e j c away i);
    given = rw (register-next j c) (ground (arith, i.given));
    only = λ k at. ground (
      arith,
      register-active j c,
      at,
      i.only k,
      i.given,
      lookup-insert j k c.next_event c.active_retries,
    );
    unique = rw (register-active j c) (Unique-insert j c.next_event c.active_retries i.unique);
  }

  -- Removing the entry of another data point.
  removed-Holds :
      (dpk : K) (e : ℕ) (j : K) (c c' : CommandRetryHandler K)
      → (j == dpk) ≡ false
      → Holds dpk e c
      → c'.active_retries ≡ remove j c.active_retries
      → c'.next_event ≡ c.next_event
      → c'.is_set e ≡ false
      → Holds dpk e c'
  removed-Holds dpk e j c c' away i a n o = record {
    registered =
        rw a (ground (arith, away, i.registered, lookup-remove j dpk c.active_retries i.unique));
    open_ = o;
    given = rw n i.given;
    only = λ k at. ground (arith, a, at, i.only k, lookup-remove j k c.active_retries i.unique);
    unique = rw a (Unique-remove j c.active_retries i.unique);
  }

  cancel-Holds :
      (dpk : K) (e : ℕ) (j : K) (c : CommandRetryHandler K)
      → (j == dpk) ≡ false
      → Holds dpk e c
      → Holds dpk e (cancel_retry_for_dpk j c).1
  unfolding cancel_retry_for_dpk
  cancel-Holds dpk e j c away i = elim (Option-cases (lookup j c.active_retries)) [
    | inl at ↦ rw (at, cancel_retry_for_dpk) i
    | inr found ↦
        let (e', at) = found in
        removed-Holds dpk e j c (cancel_retry_for_dpk j c).1 away i (ground (arith, at))
          (ground (arith, at)) (cancel-open j e c i.open_ (not_mine dpk e j c away i))
  ]

  release_cases :
      (j : K) (e' : ℕ) (c : CommandRetryHandler K)
      → (release j e' c ≡ c)
        ⊎ (release j e' c ≡ record c { active_retries = remove j c.active_retries })
  unfolding release
  release_cases j e' c = ground arith

  release-Holds :
      (dpk : K) (e : ℕ) (j : K) (e' : ℕ) (c : CommandRetryHandler K)
      → (j == dpk) ≡ false
      → Holds dpk e c
      → Holds dpk e (release j e' c)
  release-Holds dpk e j e' c away i = elim (release_cases j e' c) [
    | inl same ↦ rw same i
    | inr less ↦ rw less (removed-Holds dpk e j c _ away i refl refl i.open_)
  ]

  do_other-Holds :
      (dpk : K) (e : ℕ) (o : Other K) (c : CommandRetryHandler K)
      → IsElsewhere dpk o
      → Holds dpk e c
      → Holds dpk e (do_other o c)
  unfolding do_other
  do_other-Holds dpk e (registers j) c away i = register-Holds dpk e j c away i
  do_other-Holds dpk e (cancels j) c away i = cancel-Holds dpk e j c away i
  do_other-Holds dpk e (releases j e') c away i = release-Holds dpk e j e' c away i

  pub meanwhile-Holds :
      (dpk : K) (e : ℕ) (os : List (Other K)) (c : CommandRetryHandler K)
      → All (IsElsewhere dpk) os
      → Holds dpk e c
      → Holds dpk e (meanwhile os c)
  unfolding meanwhile
  meanwhile-Holds dpk e [] c away i = i
  meanwhile-Holds dpk e (o ∷ os) c away i =
      meanwhile-Holds dpk e os (do_other o c) away.1 (do_other-Holds dpk e o c away.0 i)

  pub metered-Holds :
      (dpk : K) (e : ℕ) (m : CommandRetryMetrics) (c : CommandRetryHandler K)
      → Holds dpk e c
      → Holds dpk e (record c { metrics = m })
  metered-Holds dpk e m c i = record {
    registered = i.registered;
    open_ = i.open_;
    given = i.given;
    only = i.only;
    unique = i.unique;
  }

  -- The registered events were given out, and no key is there twice.
  pub record IsSound (c : CommandRetryHandler K) : Type 0 where
    pub all_given : (j : K) (e : ℕ) → lookup j c.active_retries ≡ some e → e < c.next_event
    pub no_twice : Unique c.active_retries

  pub register-registers :
      (dpk : K) (c : CommandRetryHandler K)
      → IsSound c
      → Holds dpk c.next_event (register_retry dpk c).1
  register-registers dpk c i = record {
    registered =
        rw (register-active dpk c) (
          ground (arith, lookup-insert dpk dpk c.next_event c.active_retries, h.equal_iff dpk dpk));
    open_ = register-new dpk c;
    given = rw (register-next dpk c) (ground arith);
    only = λ j at. ground (
      arith,
      register-active dpk c,
      at,
      i.all_given j c.next_event,
      lookup-insert dpk j c.next_event c.active_retries,
      h.equal_iff dpk j,
    );
    unique =
        rw (register-active dpk c) (Unique-insert dpk c.next_event c.active_retries i.no_twice);
  }
