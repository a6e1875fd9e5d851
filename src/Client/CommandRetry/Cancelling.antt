-- ===== src/Client/CommandRetry/Cancelling.antt =====
-- aiohomematic/client/command_retry.py: cancelling the retries of a device or of the interface.
use aiohomematic.Prelude.{
  ℕ, ◌+◌, ◌≡◌, refl, ap, inl, inr, Bool, true, ◌&&◌, none, some, List, [], ◌∷◌, map, arith,
  Option-cases, Bool-cases, if◌then◌else◌,
}
use aiohomematic.Prelude.Lists.{length}
use aiohomematic.Prelude.Dict.{
  Dict, Hashable, ◌==◌, contains, lookup, remove, has_key, lookup-remove, nat_eq, Unique,
  Unique-remove,
}
use aiohomematic.Client.CommandRetry.{
  CommandRetryHandler, cancel_retry_for_dpk, cancel_each, cancel_retries_for_interface,
  cancel_retries_for_device, keys_where,
}

module _ {K : Type 0} ⦃h : Hashable K⦄ where
  cancel-lookup :
      (k j : K) (c : CommandRetryHandler K)
      → Unique c.active_retries
      → lookup j (cancel_retry_for_dpk k c).1.active_retries
        ≡ (if k == j then none else lookup j c.active_retries)
  unfolding cancel_retry_for_dpk
  cancel-lookup k j c u = ground (arith, lookup-remove k j c.active_retries u, h.equal_iff k j)

  cancel-Unique :
      (k : K) (c : CommandRetryHandler K)
      → Unique c.active_retries
      → Unique (cancel_retry_for_dpk k c).1.active_retries
  unfolding cancel_retry_for_dpk
  cancel-Unique k c u = elim (Option-cases (lookup k c.active_retries)) [
    | inl at ↦ rw (at, cancel_retry_for_dpk) u
    | inr found ↦
        let (e, at) = found in rw (at, cancel_retry_for_dpk) (Unique-remove k c.active_retries u)
  ]

  cancel_each-lookup :
      (ks : List K) (j : K) (c : CommandRetryHandler K)
      → Unique c.active_retries
      → lookup j (cancel_each ks c).active_retries
        ≡ (if contains j ks then none else lookup j c.active_retries)
  unfolding cancel_each contains
  cancel_each-lookup [] j c u = refl
  cancel_each-lookup (k ∷ ks) j c u = ground (
    arith,
    cancel_each-lookup ks j (cancel_retry_for_dpk k c).1 (cancel-Unique k c u),
    cancel-lookup k j c u,
  )

  contains-keys_where :
      (p : K → Bool) (j : K) (d : Dict K ℕ) → contains j (keys_where p d) ≡ (p j && has_key j d)
  unfolding contains keys_where lookup
  contains-keys_where p j [] = ground arith
  contains-keys_where p j ((k, e) ∷ d) = elim (Bool-cases (k == j)) [
    | inl same ↦
        let at : p k ≡ p j = ap p ((h.equal_iff k j).0 same) in
        ground (arith, contains-keys_where p j d, same, at)
    | inr other ↦ ground (arith, contains-keys_where p j d, other)
  ]

  -- Cancelling the retries of a device: afterwards no key of the device is registered and the keys of
  -- the other devices are registered as before, if no key was registered twice.
  pub cancel_device-lookup :
      (is_of_device : K → Bool) (j : K) (c : CommandRetryHandler K)
      → Unique c.active_retries
      → lookup j (cancel_retries_for_device is_of_device c).1.active_retries
        ≡ (if is_of_device j then none else lookup j c.active_retries)
  unfolding cancel_retries_for_device
  cancel_device-lookup is_of_device j c u = ground (
    arith,
    cancel_each-lookup (keys_where is_of_device c.active_retries) j c u,
    contains-keys_where is_of_device j c.active_retries,
  )

  cancel_first :
      (k : K) (e : ℕ) (d : Dict K ℕ) (c : CommandRetryHandler K)
      → c.active_retries ≡ (k, e) ∷ d
      → ((cancel_retry_for_dpk k c).1.active_retries ≡ d)
        × ((cancel_retry_for_dpk k c).1.metrics.cancelled_retries ≡ c.metrics.cancelled_retries + 1)
  unfolding cancel_retry_for_dpk lookup remove
  cancel_first k e d c a =
      let same : (k == k) ≡ true = (h.equal_iff k k).1 refl in
      let at : lookup k c.active_retries ≡ some e = rw a (rw same refl) in
      let rest : remove k c.active_retries ≡ d = rw a (rw same refl) in
      (ground (arith, at, rest), ground (arith, at))

  cancel_each-all :
      (d : Dict K ℕ) (c : CommandRetryHandler K)
      → c.active_retries ≡ d
      → ((cancel_each (map (λ x. x.0) d) c).active_retries ≡ [])
        × ((cancel_each (map (λ x. x.0) d) c).metrics.cancelled_retries
            ≡ c.metrics.cancelled_retries + length d)
  unfolding cancel_each
  cancel_each-all [] c a = (a, ground arith)
  cancel_each-all ((k, e) ∷ d) c a =
      let step = cancel_first k e d c a in
      let (none_left, count) = cancel_each-all d (cancel_retry_for_dpk k c).1 step.0 in
      (none_left, ground (arith, count, step.1))

  -- Cancelling the retries of the interface answers how many there are, leaves none, and counts each
  -- of them as cancelled.
  pub cancel_interface_lem :
      (c : CommandRetryHandler K)
      → ((cancel_retries_for_interface c).0 ≡ length c.active_retries)
        × ((cancel_retries_for_interface c).1.active_retries ≡ [])
        × ((cancel_retries_for_interface c).1.metrics.cancelled_retries
            ≡ c.metrics.cancelled_retries + length c.active_retries)
  unfolding cancel_retries_for_interface
  cancel_interface_lem c =
      let (none_left, count) = cancel_each-all c.active_retries c refl in (refl, none_left, count)
