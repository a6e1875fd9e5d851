-- ===== src/Store/Command/Combined.antt =====
-- aiohomematic/store/dynamic/command.py with aiohomematic/converter.py: a combined parameter that is
-- sent is remembered as its parts.
use aiohomematic.Prelude.{
  ℕ, ◌<◌, ◌≤◌, ◌≡◌, ap, ◌∙◌, String, false, Option, none, some, [], ◌∷◌, if◌then◌else◌, arith, eqb,
}
use aiohomematic.Prelude.Lists.{length}
use aiohomematic.Prelude.Dict.{Dict, Hashable, ◌==◌, insert, lookup, lookup-insert, string_eq}
use aiohomematic.DataPointKey.{DataPointKey, key_eq, values}
use aiohomematic.Support.Integers.{Text, ℤ}
use aiohomematic.Converter.{
  Value, percent, is_convertable, get_combined_value, convert_combined_parameter_to_paramset,
}
use aiohomematic.Converter.RoundTrip.{convert-get_combined_value, received}
use aiohomematic.Store.Command.{
  CachedCommand, CommandTracker, changed_within_seconds, make_room, key_of, write_all,
  add_put_paramset, add_combined_parameter, add_set_value, get_last_value_send,
}
use aiohomematic.Store.Command.Freshness.{is_recent, changed_within_lem}
use aiohomematic.Store.Command.Lookups.{get_stored, make_room-interface}

-- The values of commands are of a type that has the text of a combined parameter and the values of
-- its parts.
module _ {ℓ} {V : Type ℓ} ⦃eq : Hashable V⦄ (literal_eval : Text → Option ℤ) (text_of : V → Text)
    (wrap : Value → V) where
  abbrev wrap_all : Dict String Value → Dict String V
  wrap_all [] = []
  wrap_all (e ∷ d) = (e.0, wrap e.1) ∷ wrap_all d

  abbrev pub convert : String → V → Dict String V
  convert parameter v =
      wrap_all (convert_combined_parameter_to_paramset literal_eval parameter (text_of v))

  -- The sending of a combined parameter with two values, in any tracker.
  add_two :
      (channel_address p q : String) (v : V) (x y : Value) (now : ℕ) (t : CommandTracker V)
      → convert "COMBINED_PARAMETER" v ≡ (p, wrap x) ∷ (q, wrap y) ∷ []
      → add_set_value is_convertable convert channel_address "COMBINED_PARAMETER" v now t
        ≡ add_put_paramset channel_address values ((p, wrap x) ∷ (q, wrap y) ∷ []) now t
  unfolding add_set_value is_convertable add_combined_parameter
  add_two channel_address p q v x y now t h =
      ap (λ vs. if eqb (length vs) 0 then t else add_put_paramset channel_address values vs now t) h

  -- Two commands that were written to different keys are both there.
  lookup_two :
      (j k : DataPointKey) (c e : CachedCommand V) (d : Dict DataPointKey (CachedCommand V))
      → (j == k) ≡ false
      → (lookup j (insert k e (insert j c d)) ≡ some c)
        × (lookup k (insert k e (insert j c d)) ≡ some e)
  lookup_two j k c e d n = (
    ground (
      arith,
      n,
      lookup-insert k j e (insert j c d),
      lookup-insert j j c d,
      key_eq.equal_iff j j,
      key_eq.equal_iff j k,
      key_eq.equal_iff k j,
    ),
    ground (arith, lookup-insert k k e (insert j c d), key_eq.equal_iff k k),
  )

  two_keys :
      (i channel_address : String)
      → (key_of i channel_address values "LEVEL_2" == key_of i channel_address values "LEVEL")
        ≡ false
  two_keys i channel_address = ground arith

  received_two :
      (tilt level : ℤ) (v : V)
      → some (text_of v) ≡ get_combined_value (some tilt) (some level)
      → convert "COMBINED_PARAMETER" v
        ≡ ("LEVEL_2", wrap (percent tilt)) ∷ ("LEVEL", wrap (percent level)) ∷ []
  received_two tilt level v h =
      ap (λ o. wrap_all (received literal_eval o)) h
      ∙ ap wrap_all (convert-get_combined_value literal_eval (some tilt) (some level))

  -- A value that was sent, where it is recent.
  abbrev pub while_recent : ℕ → ℕ → ℕ → Value → Option V
  while_recent now max_age later x = if is_recent now max_age later then some (wrap x) else none

  recent_as :
      (now max_age later : ℕ) (x : Value)
      → 0 < now
      → now ≤ later
      → (if changed_within_seconds now max_age later then some (wrap x) else none)
        ≡ while_recent now max_age later x
  recent_as now max_age later x p q =
      ap (λ b. if b then some (wrap x) else none) (changed_within_lem now max_age later p q)

  -- After the combined parameter that a blind of HomematicIP sends for two positions, a look-up that
  -- is not earlier answers the tilt for LEVEL_2 and the position for LEVEL exactly if fewer than
  -- `max_age` seconds have passed since, of which whole days are not counted, whatever had to make
  -- room for them; and else it answers nothing. The time of the sending is not the initial time.
  pub combined-get :
      (channel_address : String) (tilt level : ℤ) (v : V) (now max_age later : ℕ)
      (t : CommandTracker V)
      → some (text_of v) ≡ get_combined_value (some tilt) (some level)
      → 0 < now
      → now ≤ later
      → let sent =
          add_set_value is_convertable convert channel_address "COMBINED_PARAMETER" v now t in
        let key = key_of t.interface_id channel_address values in
        ((get_last_value_send (key "LEVEL_2") max_age later sent).1
          ≡ while_recent now max_age later (percent tilt))
        × ((get_last_value_send (key "LEVEL") max_age later sent).1
            ≡ while_recent now max_age later (percent level))
  unfolding add_put_paramset write_all
  combined-get channel_address tilt level v now max_age later t h p q =
      let t' = make_room now t in
      let at : String → String → DataPointKey = λ i p. key_of i channel_address values p in
      let c : CachedCommand V = record { value = wrap (percent tilt); sent_at = now } in
      let e : CachedCommand V = record { value = wrap (percent level); sent_at = now } in
      let written : String → Dict DataPointKey (CachedCommand V) =
        λ i. insert (at i "LEVEL") e (insert (at i "LEVEL_2") c t'.last_send_command) in
      let stored : CommandTracker V = record t' { last_send_command = written t'.interface_id } in
      let same = make_room-interface now t in
      let i = t.interface_id in
      let both =
        lookup_two (at i "LEVEL_2") (at i "LEVEL") c e t'.last_send_command
          (two_keys i channel_address) in
      let sent =
        add_two channel_address "LEVEL_2" "LEVEL" v (percent tilt) (percent level) now t
          (received_two tilt level v h) in
      (
        ap (λ s. (get_last_value_send (at i "LEVEL_2") max_age later s).1) sent
            ∙ get_stored (at i "LEVEL_2") max_age later c stored
                (ap (λ k. lookup (at i "LEVEL_2") (written k)) same ∙ both.0)
            ∙ recent_as now max_age later (percent tilt) p q,
        ap (λ s. (get_last_value_send (at i "LEVEL") max_age later s).1) sent
            ∙ get_stored (at i "LEVEL") max_age later e stored
                (ap (λ k. lookup (at i "LEVEL") (written k)) same ∙ both.1)
            ∙ recent_as now max_age later (percent level) p q,
      )
