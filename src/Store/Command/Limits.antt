-- ===== src/Store/Command/Limits.antt =====
-- aiohomematic/store/dynamic/command.py: every call keeps the number of commands within the limit.
use aiohomematic.Prelude.{
  ℕ, ◌+◌, ◌≤◌, String, Bool, not, ◌||◌, Option, none, List, [], ◌∷◌, if_elim, option_elim, arith,
  eqb,
}
use aiohomematic.Prelude.Lists.{length}
use aiohomematic.Prelude.Dict.{Dict, Hashable, lookup, Distinct}
use aiohomematic.Prelude.Keys.{keys}
use aiohomematic.DataPointKey.{DataPointKey, key_eq, values}
use aiohomematic.Store.Command.{
  CachedCommand, CommandTracker, Call, puts, sets, gets, forgets, cleans, clears, init, size, clear,
  changed_within_seconds, cleanup_expired, expired_keys, make_room, key_of, add_put_paramset,
  add_combined_parameter, add_set_value, is_same, remove_last_value_send, get_last_value_send, run,
}
use aiohomematic.Store.Command.Kept.{
  Holds, Distinct-insert, Distinct-remove, Distinct-remove_all, length-insert-le, length-remove-le,
  length-remove_all-le, make_room-Holds, add_put_paramset-Holds,
}

module _ {ℓ} {V : Type ℓ} ⦃eq : Hashable V⦄ where
  Holds-le : (m n : ℕ) (t : CommandTracker V) → m ≤ n → Holds m t → Holds n t
  Holds-le m n t h i = record { distinct = i.distinct; size_le = omega (arith, h, i.size_le) }

  remove-Holds :
      (n : ℕ) (dpk : DataPointKey) (v : Option V) (max_age now : ℕ) (t : CommandTracker V)
      → Holds n t
      → Holds n (remove_last_value_send dpk v max_age now t)
  unfolding remove_last_value_send
  remove-Holds n dpk v max_age now t i =
      option_elim (Holds n) (lookup dpk t.last_send_command) (λ _. i)
        (λ cached _.
          if_elim (Holds n)
            (not (changed_within_seconds cached.sent_at max_age now) || is_same v cached.value)
            (λ _. record {
              distinct = Distinct-remove dpk t.last_send_command i.distinct;
              size_le = omega (arith, i.size_le, length-remove-le dpk t.last_send_command);
            })
            (λ _. i))

  -- Reading leaves the tracker within a limit.
  abbrev Leaves : ℕ → CommandTracker V × Option V → Type ℓ
  Leaves n r = Holds n r.0

  get-Holds :
      (n : ℕ) (dpk : DataPointKey) (max_age now : ℕ) (t : CommandTracker V)
      → Holds n t
      → Leaves n (get_last_value_send dpk max_age now t)
  unfolding get_last_value_send
  get-Holds n dpk max_age now t i =
      option_elim (Leaves n) (lookup dpk t.last_send_command) (λ _. i)
        (λ cached _.
          if_elim (Leaves n) (changed_within_seconds cached.sent_at max_age now) (λ _. i)
            (λ _. remove-Holds n dpk none max_age now t i))

  cleanup-Holds :
      (n max_age now : ℕ) (t : CommandTracker V)
      → Holds n t
      → Holds n (cleanup_expired max_age now t).0
  unfolding cleanup_expired
  cleanup-Holds n max_age now t i =
      let expired = expired_keys max_age now t.last_send_command in
      record {
        distinct = Distinct-remove_all expired t.last_send_command i.distinct;
        size_le = omega (arith, i.size_le, length-remove_all-le expired t.last_send_command);
      }

  -- Every paramset that is put has at most `n` values.
  abbrev pub IsSmall : ℕ → List (ℕ × Call V) → Type 0
  IsSmall n [] = Unit {0}
  IsSmall n ((now, puts channel_address paramset_key vs) ∷ cs) = (length vs ≤ n) × IsSmall n cs
  IsSmall n ((now, c) ∷ cs) = IsSmall n cs

  module _ (is_convertible : String → Bool) (convert : String → V → Dict String V) (n : ℕ)
      (positive : 1 ≤ n) (moderate : n ≤ 100)
      (few : (parameter : String) (v : V) → length (convert parameter v) ≤ n) where
    combined-Holds :
        (parameter channel_address : String) (v : V) (now : ℕ) (t : CommandTracker V)
        → Holds (499 + n) t
        → Holds
            (499 + n)
            (add_combined_parameter is_convertible convert parameter channel_address v now t)
    unfolding add_combined_parameter
    combined-Holds parameter channel_address v now t i =
        let vs = convert parameter v in
        if_elim (Holds (499 + n)) (eqb (length vs) 0) (λ _. i)
          (λ _.
            add_put_paramset-Holds n channel_address values vs now t (few parameter v)
              (Holds-le (499 + n) 599 t (omega (arith, moderate)) i))

    set-Holds :
        (channel_address parameter : String) (v : V) (now : ℕ) (t : CommandTracker V)
        → Holds (499 + n) t
        → Holds (499 + n) (add_set_value is_convertible convert channel_address parameter v now t)
    unfolding add_set_value
    set-Holds channel_address parameter v now t i =
        let room = make_room-Holds now t (Holds-le (499 + n) 599 t (omega (arith, moderate)) i) in
        let t' = make_room now t in
        let k = key_of t'.interface_id channel_address values parameter in
        let c : CachedCommand V = record { value = v; sent_at = now } in
        if_elim (Holds (499 + n)) (is_convertible parameter)
          (λ _. combined-Holds parameter channel_address v now t i)
          (λ _. record {
            distinct = Distinct-insert k c t'.last_send_command room.distinct;
            size_le =
                omega (arith, room.size_le, length-insert-le k c t'.last_send_command, positive);
          })

    run-Holds :
        (cs : List (ℕ × Call V)) (t : CommandTracker V)
        → IsSmall n cs
        → Holds (499 + n) t
        → Holds (499 + n) (run is_convertible convert cs t)
    unfolding run clear
    run-Holds [] t s i = i
    run-Holds ((now, puts channel_address paramset_key vs) ∷ cs) t s i =
        run-Holds cs (add_put_paramset channel_address paramset_key vs now t) s.1 (
          add_put_paramset-Holds n channel_address paramset_key vs now t s.0
            (Holds-le (499 + n) 599 t (omega (arith, moderate)) i))
    run-Holds ((now, sets channel_address parameter v) ∷ cs) t s i =
        run-Holds cs (add_set_value is_convertible convert channel_address parameter v now t) s
          (set-Holds channel_address parameter v now t i)
    run-Holds ((now, gets dpk max_age) ∷ cs) t s i =
        run-Holds cs (get_last_value_send dpk max_age now t).0 s
          (get-Holds (499 + n) dpk max_age now t i)
    run-Holds ((now, forgets dpk v max_age) ∷ cs) t s i =
        run-Holds cs (remove_last_value_send dpk v max_age now t) s
          (remove-Holds (499 + n) dpk v max_age now t i)
    run-Holds ((now, cleans max_age) ∷ cs) t s i =
        run-Holds cs (cleanup_expired max_age now t).0 s (cleanup-Holds (499 + n) max_age now t i)
    run-Holds ((now, clears) ∷ cs) t s i =
        run-Holds cs (clear t) s (record { distinct = tt; size_le = omega arith })

    -- If no paramset that is put or that a combined parameter stands for has more than `n` values,
    -- with `n` from 1 to 100, then a new tracker keeps at most 499 + `n` commands after any calls,
    -- whatever the clock shows, and no key twice.
    pub run-size :
        (interface_id : String) (cs : List (ℕ × Call V))
        → IsSmall n cs
        → let t = run is_convertible convert cs (init interface_id) in
          (size t ≤ 499 + n) × Distinct (keys t.last_send_command)
    unfolding init
    run-size interface_id cs s =
        let i =
          run-Holds cs (init interface_id) s (record { distinct = tt; size_le = omega arith }) in
        (i.size_le, i.distinct)
