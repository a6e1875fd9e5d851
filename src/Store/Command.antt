-- ===== src/Store/Command.antt =====
-- aiohomematic/store/dynamic/command.py: the class CommandTracker; aiohomematic/support/__init__.py:
-- changed_within_seconds.
--
-- A time is a count of microseconds since INIT_DATETIME, and what Python computes for a clock that
-- was set back is written out. A value is of any type with an equality test; `None` to compare with
-- is `none`. The parameters that are combined ones and what they stand for are the arguments
-- `is_convertible` and `convert`; for texts the module Converter has both. The log is left out, its mark is not.
pub mod Freshness
pub mod Kept
pub mod Limits
pub mod Lookups
pub mod Combined
mod Tests
use aiohomematic.Prelude.{
  ℕ, suc, ◌+◌, ◌-◌, ◌*◌, ◌/◌, ◌%◌, String, Bool, true, false, ◌&&◌, ◌||◌, not, Option, none, some,
  List, [], ◌∷◌, ◌++◌, ltb, leb, eqb, if◌then◌else◌,
}
use aiohomematic.Prelude.Lists.{length, select}
use aiohomematic.Prelude.Dict.{Dict, Hashable, ◌==◌, insert, lookup, remove}
use aiohomematic.Prelude.Keys.{keys, sort_by, remove_all, first_keys}
use aiohomematic.DataPointKey.{DataPointKey, key_eq, ParamsetKey, values}

-- `(now - last_change).seconds`: the seconds of the difference without its days
unfoldable pub seconds_between : ℕ → ℕ → ℕ
seconds_between last_change now =
    if leb last_change now
    then ((now - last_change) / 1_000_000) % 86_400
    else 86_399 - ((last_change - now - 1) / 1_000_000) % 86_400

unfoldable pub changed_within_seconds : ℕ → ℕ → ℕ → Bool
unfolding seconds_between
changed_within_seconds last_change max_age now =
    if eqb last_change 0 then false else ltb (seconds_between last_change now) max_age

-- LAST_COMMAND_SEND_STORE_TIMEOUT
abbrev pub store_timeout : ℕ
store_timeout = 60

pub record CachedCommand {ℓ} (V : Type ℓ) : Type ℓ where
  pub value : V
  pub sent_at : ℕ

pub record CommandTracker {ℓ} (V : Type ℓ) : Type ℓ where
  pub interface_id : String
  pub last_send_command : Dict DataPointKey (CachedCommand V)
  pub evictions : ℕ
  pub warning_logged : Bool

-- The oldest fifth, at least one.
abbrev pub remove_count : ℕ → ℕ
remove_count current_size = if ltb 1 (current_size / 5) then current_size / 5 else 1

-- Is the warning logged, after the size was looked at?
abbrev pub warned : ℕ → Bool
warned current_size = leb 400 current_size

abbrev pub key_of : String → String → ParamsetKey → String → DataPointKey
key_of interface_id channel_address paramset_key parameter = record {
  interface_id = interface_id;
  channel_address = channel_address;
  paramset_key = paramset_key;
  parameter = parameter;
}

-- The calls of a tracker, each at its time.
pub data Call {ℓ} (V : Type ℓ) : Type ℓ where
  puts : String → ParamsetKey → Dict String V → Call V
  sets : String → String → V → Call V
  gets : DataPointKey → ℕ → Call V
  forgets : DataPointKey → Option V → ℕ → Call V
  cleans : ℕ → Call V
  clears : Call V

module _ {ℓ} {V : Type ℓ} ⦃eq : Hashable V⦄ where
  unfoldable pub init : String → CommandTracker V
  init interface_id = record {
    interface_id = interface_id;
    last_send_command = [];
    evictions = 0;
    warning_logged = false;
  }

  abbrev pub size : CommandTracker V → ℕ
  size t = length t.last_send_command

  unfoldable pub clear : CommandTracker V → CommandTracker V
  clear t = record t { last_send_command = [] }

  abbrev pub is_expired : ℕ → ℕ → DataPointKey × CachedCommand V → Bool
  is_expired max_age now e = not (changed_within_seconds e.1.sent_at max_age now)

  abbrev pub expired_keys : ℕ → ℕ → Dict DataPointKey (CachedCommand V) → List DataPointKey
  expired_keys max_age now d = keys (select (is_expired max_age now) d)

  unfoldable pub cleanup_expired : ℕ → ℕ → CommandTracker V → CommandTracker V × ℕ
  cleanup_expired max_age now t =
      let expired = expired_keys max_age now t.last_send_command in
      (
        record t {
          last_send_command = remove_all expired t.last_send_command;
          evictions = t.evictions + length expired;
        },
        length expired,
      )

  abbrev pub oldest_first :
      Dict DataPointKey (CachedCommand V) → Dict DataPointKey (CachedCommand V)
  oldest_first d = sort_by (λ e. e.1.sent_at) d

  unfoldable pub enforce_size_limit : CommandTracker V → CommandTracker V
  enforce_size_limit t =
      let current_size = size t in
      let n = remove_count current_size in
      if leb 500 current_size
      then (record t {
        last_send_command =
            remove_all (first_keys n (oldest_first t.last_send_command)) t.last_send_command;
        evictions = t.evictions + n;
        warning_logged = warned current_size;
      })
      else (record t { warning_logged = warned current_size })

  -- What both ways of adding do first.
  unfoldable pub make_room : ℕ → CommandTracker V → CommandTracker V
  unfolding cleanup_expired enforce_size_limit
  make_room now t =
      enforce_size_limit (if ltb 100 (size t) then (cleanup_expired store_timeout now t).0 else t)

  -- The loop over the values of a paramset.
  unfoldable pub write_all :
      String
      → String
      → ParamsetKey
      → ℕ
      → Dict String V
      → Dict DataPointKey (CachedCommand V)
      → Dict DataPointKey (CachedCommand V)
  write_all interface_id channel_address paramset_key now [] d = d
  write_all interface_id channel_address paramset_key now ((parameter, v) ∷ vs) d =
      write_all interface_id channel_address paramset_key now vs (
        insert (key_of interface_id channel_address paramset_key parameter)
          (record { value = v; sent_at = now }) d)

  unfoldable pub add_put_paramset :
      String → ParamsetKey → Dict String V → ℕ → CommandTracker V → CommandTracker V
  unfolding make_room write_all
  add_put_paramset channel_address paramset_key vs now t =
      let t' = make_room now t in
      record t' {
        last_send_command =
            write_all t'.interface_id channel_address paramset_key now vs t'.last_send_command;
      }

  module _ (is_convertible : String → Bool) (convert : String → V → Dict String V) where
    unfoldable pub add_combined_parameter :
        String → String → V → ℕ → CommandTracker V → CommandTracker V
    unfolding add_put_paramset
    add_combined_parameter parameter channel_address combined now t =
        let vs = convert parameter combined in
        if eqb (length vs) 0 then t else add_put_paramset channel_address values vs now t

    unfoldable pub add_set_value : String → String → V → ℕ → CommandTracker V → CommandTracker V
    unfolding add_combined_parameter make_room
    add_set_value channel_address parameter v now t =
        if is_convertible parameter
        then add_combined_parameter parameter channel_address v now t
        else (let t' = make_room now t in
            record t' {
              last_send_command =
                  insert (key_of t'.interface_id channel_address values parameter)
                    (record { value = v; sent_at = now }) t'.last_send_command;
            })

  -- `value is not None and cached.value == value`
  abbrev pub is_same : Option V → V → Bool
  is_same none v = false
  is_same (some u) v = v == u

  unfoldable pub remove_last_value_send :
      DataPointKey → Option V → ℕ → ℕ → CommandTracker V → CommandTracker V
  remove_last_value_send dpk v max_age now t = elim (lookup dpk t.last_send_command) [
    | none ↦ t
    | some cached ↦
        if not (changed_within_seconds cached.sent_at max_age now) || is_same v cached.value
        then (record t { last_send_command = remove dpk t.last_send_command })
        else t
  ]

  unfoldable pub get_last_value_send :
      DataPointKey → ℕ → ℕ → CommandTracker V → CommandTracker V × Option V
  unfolding remove_last_value_send
  get_last_value_send dpk max_age now t = elim (lookup dpk t.last_send_command) [
    | none ↦ (t, none)
    | some cached ↦
        if changed_within_seconds cached.sent_at max_age now
        then (t, some cached.value)
        else (remove_last_value_send dpk none max_age now t, none)
  ]

  module _ (is_convertible : String → Bool) (convert : String → V → Dict String V) where
    unfoldable pub step : ℕ → Call V → CommandTracker V → CommandTracker V
    step now (puts channel_address paramset_key vs) t =
        add_put_paramset channel_address paramset_key vs now t
    step now (sets channel_address parameter v) t =
        add_set_value is_convertible convert channel_address parameter v now t
    step now (gets dpk max_age) t = (get_last_value_send dpk max_age now t).0
    step now (forgets dpk v max_age) t = remove_last_value_send dpk v max_age now t
    step now (cleans max_age) t = (cleanup_expired max_age now t).0
    step now clears t = clear t

    unfoldable pub run : List (ℕ × Call V) → CommandTracker V → CommandTracker V
    unfolding step
    run [] t = t
    run ((now, c) ∷ cs) t = run cs (step now c t)
