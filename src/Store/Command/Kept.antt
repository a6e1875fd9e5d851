-- ===== src/Store/Command/Kept.antt =====
-- aiohomematic/store/dynamic/command.py: how many commands a tracker keeps.
use aiohomematic.Prelude.{
  ℕ, ◌+◌, ◌≤◌, ◌≡◌, sym, ◌∙◌, subst, String, true, List, [], ◌∷◌, ltb, leb, if◌then◌else◌, if_elim,
  arith,
}
use aiohomematic.Prelude.Lists.{length}
use aiohomematic.Prelude.Dict.{
  Dict, Hashable, contains, insert, remove, Distinct, Distinct-append_one, Distinct-erase,
}
use aiohomematic.Prelude.Keys.{
  keys, keys-insert, keys-remove, remove_all, first_keys, length-first_keys, Distinct-first_keys,
  Within-first_keys, Distinct-sort_by, keys-sort_by, length-sort_by, length-remove_all,
}
use aiohomematic.DataPointKey.{DataPointKey, key_eq, ParamsetKey}
use aiohomematic.Store.Command.{
  CachedCommand, CommandTracker, size, cleanup_expired, expired_keys, remove_count, oldest_first,
  enforce_size_limit, make_room, store_timeout, key_of, write_all, add_put_paramset,
}

module _ {ℓ κ} {K : Type ℓ} {V : Type κ} ⦃h : Hashable K⦄ where
  pub Distinct-insert :
      (k : K) (v : V) (d : Dict K V) → Distinct (keys d) → Distinct (keys (insert k v d))
  Distinct-insert k v d u =
      subst Distinct (sym (keys-insert k v d))
        (if_elim Distinct (contains k (keys d)) (λ _. u) (λ n. Distinct-append_one k (keys d) n u))

  pub Distinct-remove : (k : K) (d : Dict K V) → Distinct (keys d) → Distinct (keys (remove k d))
  Distinct-remove k d u = subst Distinct (sym (keys-remove k d)) (Distinct-erase k (keys d) u)

  pub Distinct-remove_all :
      (ks : List K) (d : Dict K V) → Distinct (keys d) → Distinct (keys (remove_all ks d))
  unfolding remove_all
  Distinct-remove_all [] d u = u
  Distinct-remove_all (k ∷ ks) d u = Distinct-remove_all ks (remove k d) (Distinct-remove k d u)

  pub length-insert-le : (k : K) (v : V) (d : Dict K V) → length (insert k v d) ≤ length d + 1
  unfolding insert
  length-insert-le k v [] = omega arith
  length-insert-le k v ((j, w) ∷ d) = ground (arith, length-insert-le k v d)

  pub length-remove-le : (k : K) (d : Dict K V) → length (remove k d) ≤ length d
  unfolding remove
  length-remove-le k [] = omega arith
  length-remove-le k ((j, w) ∷ d) = ground (arith, length-remove-le k d)

  pub length-remove_all-le : (ks : List K) (d : Dict K V) → length (remove_all ks d) ≤ length d
  unfolding remove_all
  length-remove_all-le [] d = omega arith
  length-remove_all-le (k ∷ ks) d =
      omega (arith, length-remove_all-le ks (remove k d), length-remove-le k d)

module _ {ℓ} {V : Type ℓ} ⦃eq : Hashable V⦄ where
  -- No key twice, and at most so many commands.
  pub record Holds (n : ℕ) (t : CommandTracker V) : Type ℓ where
    pub distinct : Distinct (keys t.last_send_command)
    pub size_le : size t ≤ n

  -- The eviction leaves what it does not count.
  evict-Holds :
      (t : CommandTracker V)
      → Distinct (keys t.last_send_command)
      → leb 500 (size t) ≡ true
      → length (
            remove_all
              (first_keys (remove_count (size t)) (oldest_first t.last_send_command))
              t.last_send_command)
          + remove_count (size t)
        ≡ size t
  evict-Holds t u h =
      let d = t.last_send_command in
      let time : DataPointKey × CachedCommand V → ℕ = λ e. e.1.sent_at in
      let n = remove_count (size t) in
      let gone =
        length-remove_all (first_keys n (oldest_first d)) d
          (Distinct-first_keys n (oldest_first d) (Distinct-sort_by time d u))
          (Within-first_keys n (oldest_first d) (keys d)
            (λ k c. sym (keys-sort_by time k d) ∙ c)) in
      omega (
        arith,
        gone,
        length-first_keys n (oldest_first d) (ground (arith, length-sort_by time d, h)),
      )

  enforce-Holds : (t : CommandTracker V) → Holds 599 t → Holds 499 (enforce_size_limit t)
  unfolding enforce_size_limit
  enforce-Holds t i =
      if_elim (Holds 499) (leb 500 (size t))
        (λ h. record {
          distinct = Distinct-remove_all _ t.last_send_command i.distinct;
          size_le = ground (arith, evict-Holds t i.distinct h, i.size_le, h);
        })
        (λ h. record { distinct = i.distinct; size_le = ground (arith, h) })

  pub make_room-Holds : (now : ℕ) (t : CommandTracker V) → Holds 599 t → Holds 499 (make_room now t)
  unfolding make_room cleanup_expired
  make_room-Holds now t i =
      enforce-Holds (if ltb 100 (size t) then (cleanup_expired store_timeout now t).0 else t) (
        if_elim (Holds 599) (ltb 100 (size t))
          (λ _. record {
            distinct = Distinct-remove_all _ t.last_send_command i.distinct;
            size_le = omega (
              arith,
              i.size_le,
              length-remove_all-le (expired_keys store_timeout now t.last_send_command)
                  t.last_send_command,
            );
          })
          (λ _. i))

  write_all-Holds :
      (interface_id channel_address : String) (paramset_key : ParamsetKey) (now : ℕ)
      (vs : Dict String V) (d : Dict DataPointKey (CachedCommand V))
      → Distinct (keys d)
      → Distinct (keys (write_all interface_id channel_address paramset_key now vs d))
        × (length (write_all interface_id channel_address paramset_key now vs d)
            ≤ length d + length vs)
  unfolding write_all
  write_all-Holds interface_id channel_address paramset_key now [] d u = (u, omega arith)
  write_all-Holds interface_id channel_address paramset_key now ((parameter, v) ∷ vs) d u =
      let k = key_of interface_id channel_address paramset_key parameter in
      let c : CachedCommand V = record { value = v; sent_at = now } in
      let rest =
        write_all-Holds interface_id channel_address paramset_key now vs (insert k c d)
          (Distinct-insert k c d u) in
      (rest.0, omega (arith, rest.1, length-insert-le k c d))

  pub add_put_paramset-Holds :
      (n : ℕ) (channel_address : String) (paramset_key : ParamsetKey) (vs : Dict String V) (now : ℕ)
      (t : CommandTracker V)
      → length vs ≤ n
      → Holds 599 t
      → Holds (499 + n) (add_put_paramset channel_address paramset_key vs now t)
  unfolding add_put_paramset
  add_put_paramset-Holds n channel_address paramset_key vs now t l i =
      let room = make_room-Holds now t i in
      let t' = make_room now t in
      let w =
        write_all-Holds t'.interface_id channel_address paramset_key now vs t'.last_send_command
          room.distinct in
      record { distinct = w.0; size_le = omega (arith, w.1, room.size_le, l) }
