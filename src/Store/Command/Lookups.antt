-- ===== src/Store/Command/Lookups.antt =====
-- aiohomematic/store/dynamic/command.py: what a lookup finds.
use aiohomematic.Prelude.{
  ℕ, ◌+◌, ◌<◌, ◌≤◌, ◌≡◌, refl, sym, ap, ◌∙◌, subst, String, Bool, true, false, Option, none, some,
  List, [], ◌∷◌, if_elim, arith, if◌then◌else◌, Bool-cases, inl, inr, ltb, leb,
}
use aiohomematic.Prelude.Lists.{select}
use aiohomematic.Prelude.Dict.{
  Dict, Hashable, ◌==◌, contains, has_key, insert, lookup, lookup-insert, lookup-remove, remove,
  Distinct, Unique,
}
use aiohomematic.Prelude.Keys.{keys, remove_all, length-remove_all, Within}
use aiohomematic.DataPointKey.{DataPointKey, key_eq, values}
use aiohomematic.Store.Command.{
  CachedCommand, CommandTracker, size, changed_within_seconds, cleanup_expired, expired_keys,
  is_expired, make_room, enforce_size_limit, store_timeout, key_of, add_set_value,
  get_last_value_send,
}
use aiohomematic.Store.Command.Freshness.{is_recent, changed_within_lem}
use aiohomematic.Store.Command.Kept.{Distinct-remove}

module _ {ℓ κ} {K : Type ℓ} {V : Type κ} ⦃h : Hashable K⦄ where
  contains-keys : (k : K) (d : Dict K V) → contains k (keys d) ≡ has_key k d
  unfolding contains lookup
  contains-keys k [] = refl
  contains-keys k ((j, v) ∷ d) = ground (arith, contains-keys k d)

  Distinct-Unique : (d : Dict K V) → Distinct (keys d) → Unique d
  Distinct-Unique [] u = tt
  Distinct-Unique ((k, v) ∷ d) u = (sym (contains-keys k d) ∙ u.0, Distinct-Unique d u.1)

  lookup-remove_all :
      (ks : List K) (j : K) (d : Dict K V)
      → Distinct (keys d)
      → lookup j (remove_all ks d) ≡ (if contains j ks then none else lookup j d)
  unfolding remove_all contains
  lookup-remove_all [] j d u = refl
  lookup-remove_all (k ∷ ks) j d u = ground (
    arith,
    lookup-remove_all ks j (remove k d) (Distinct-remove k d u),
    lookup-remove k j d (Distinct-Unique d u),
  )

  -- Is the key there, with an entry that passes the test?
  abbrev passes : (K × V → Bool) → K → Option V → Bool
  passes p k none = false
  passes p k (some v) = p (k, v)

  contains-select_absent :
      (p : K × V → Bool) (k : K) (d : Dict K V)
      → contains k (keys d) ≡ false
      → contains k (keys (select p d)) ≡ false
  unfolding contains
  contains-select_absent p k [] n = refl
  contains-select_absent p k (e ∷ d) n = ground (arith, contains-select_absent p k d, n)

  contains-select :
      (p : K × V → Bool) (k : K) (d : Dict K V)
      → Distinct (keys d)
      → contains k (keys (select p d)) ≡ passes p k (lookup k d)
  unfolding contains lookup
  contains-select p k [] u = refl
  contains-select p k ((j, v) ∷ d) u = elim (Bool-cases (j == k)) [
    | inl here ↦ rw here (
        let same : j ≡ k = (h.equal_iff j k).0 here in
        ground (
          arith,
          here,
          ap (λ i. p (i, v)) same,
          contains-select_absent p k d (subst (λ i. contains i (keys d) ≡ false) same u.0),
        ))
    | inr other ↦ rw other (ground (arith, other, contains-select p k d u.1))
  ]

  Distinct-select :
      (p : K × V → Bool) (d : Dict K V) → Distinct (keys d) → Distinct (keys (select p d))
  Distinct-select p [] u = tt
  Distinct-select p (e ∷ d) u =
      if_elim (λ l. Distinct (keys l)) (p e)
        (λ _. (contains-select_absent p e.0 d u.0, Distinct-select p d u.1))
        (λ _. Distinct-select p d u.1)

  Within-select :
      (p : K × V → Bool) (d : Dict K V) (xs : List K)
      → ((k : K) → contains k (keys d) ≡ true → contains k xs ≡ true)
      → Within (keys (select p d)) xs
  unfolding contains
  Within-select p [] xs c = tt
  Within-select p (e ∷ d) xs c =
      let rest = Within-select p d xs (λ k i. c k (ground (arith, i))) in
      if_elim (λ (l : Dict K V). Within (keys l) xs) (p e)
        (λ _. (c e.0 (ground (arith, h.equal_iff e.0 e.0)), rest)) (λ _. rest)

module _ {ℓ} {V : Type ℓ} ⦃eq : Hashable V⦄ where
  -- The command, where it is not too old.
  abbrev pub fresh : ℕ → ℕ → Option (CachedCommand V) → Option (CachedCommand V)
  fresh max_age now none = none
  fresh max_age now (some c) = if changed_within_seconds c.sent_at max_age now then some c else none

  fresh_lem :
      (max_age now : ℕ) (dpk : DataPointKey) (o : Option (CachedCommand V))
      → (if passes (is_expired max_age now) dpk o then none else o) ≡ fresh max_age now o
  fresh_lem max_age now dpk none = refl
  fresh_lem max_age now dpk (some c) = ground arith

  -- Cleaning up a tracker without a key twice drops exactly the commands that are too old, returns
  -- how many these are, and adds them to the count of evictions.
  pub cleanup_expired_lem :
      (max_age now : ℕ) (dpk : DataPointKey) (t : CommandTracker V)
      → Distinct (keys t.last_send_command)
      → let (t', n) = cleanup_expired max_age now t in
        (lookup dpk t'.last_send_command ≡ fresh max_age now (lookup dpk t.last_send_command))
        × ((size t' + n ≡ size t) × (t'.evictions ≡ t.evictions + n))
  unfolding cleanup_expired
  cleanup_expired_lem max_age now dpk t u =
      let d = t.last_send_command in
      let p = is_expired max_age now in
      (
        lookup-remove_all (expired_keys max_age now d) dpk d u
            ∙ (ap (λ b. if b then none else lookup dpk d) (contains-select p dpk d u)
                ∙ fresh_lem max_age now dpk (lookup dpk d)),
        (
          length-remove_all (expired_keys max_age now d) d (Distinct-select p d u)
              (Within-select p d (keys d) (λ k c. c)),
          refl,
        ),
      )

  cleaned :
      (now : ℕ) (t : CommandTracker V)
      → (if ltb 100 (size t) then (cleanup_expired store_timeout now t).0 else t).interface_id
        ≡ t.interface_id
  unfolding cleanup_expired
  cleaned now t =
      if_elim (λ (r : CommandTracker V). r.interface_id ≡ t.interface_id) (ltb 100 (size t))
        (λ _. refl) (λ _. refl)

  pub make_room-interface :
      (now : ℕ) (t : CommandTracker V) → (make_room now t).interface_id ≡ t.interface_id
  unfolding make_room enforce_size_limit cleanup_expired
  make_room-interface now t =
      let t' = if ltb 100 (size t) then (cleanup_expired store_timeout now t).0 else t in
      if_elim (λ (r : CommandTracker V). r.interface_id ≡ t.interface_id) (leb 500 (size t'))
        (λ _. cleaned now t) (λ _. cleaned now t)

  pub get_stored :
      (dpk : DataPointKey) (max_age later : ℕ) (c : CachedCommand V) (t : CommandTracker V)
      → lookup dpk t.last_send_command ≡ some c
      → (get_last_value_send dpk max_age later t).1
        ≡ (if changed_within_seconds c.sent_at max_age later then some c.value else none)
  unfolding get_last_value_send
  get_stored dpk max_age later c t p = rw (get_last_value_send, p) (ground arith)

  -- What was sent for a parameter that is not combined is found by a look-up that is not earlier
  -- exactly if fewer than `max_age` seconds have passed, of which whole days are not counted: within
  -- a day it is found until `max_age` seconds have passed, and then no longer, whatever had to make
  -- room for it. The time of the sending is not the initial time.
  pub set-get :
      (is_convertible : String → Bool) (convert : String → V → Dict String V)
      (channel_address parameter : String) (v : V) (now max_age later : ℕ) (t : CommandTracker V)
      → is_convertible parameter ≡ false
      → 0 < now
      → now ≤ later
      → let sent = add_set_value is_convertible convert channel_address parameter v now t in
        let dpk = key_of t.interface_id channel_address values parameter in
        (get_last_value_send dpk max_age later sent).1
        ≡ (if is_recent now max_age later then some v else none)
  unfolding add_set_value
  set-get is_convertible convert channel_address parameter v now max_age later t h p q =
      let c : CachedCommand V = record { value = v; sent_at = now } in
      let at : String → DataPointKey = λ i. key_of i channel_address values parameter in
      let t' = make_room now t in
      let dpk = at t.interface_id in
      let stored : CommandTracker V = record t' {
        last_send_command = insert (at t'.interface_id) c t'.last_send_command;
      } in
      let there : lookup dpk stored.last_send_command ≡ some c =
        ap (λ i. lookup dpk (insert (at i) c t'.last_send_command)) (make_room-interface now t)
        ∙ (lookup-insert dpk dpk c t'.last_send_command
            ∙ ap (λ b. if b then some c else lookup dpk t'.last_send_command)
                ((key_eq.equal_iff dpk dpk).1 refl)) in
      rw h (
        get_stored dpk max_age later c stored there
        ∙ ap (λ b. if b then some v else none) (changed_within_lem now max_age later p q))
