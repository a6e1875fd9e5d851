-- ===== src/Store/Command/Tests.antt =====
-- Commands at concrete times.
use aiohomematic.Prelude.{
  Option, ℕ, ◌+◌, ◌≤◌, ◌≡◌, refl, String, Bool, false, some, none, List, [], ◌∷◌, if◌then◌else◌,
  arith,
}
use aiohomematic.Prelude.Dict.{Dict, Distinct, nat_eq, string_eq}
use aiohomematic.Prelude.Keys.{keys}
use aiohomematic.DataPointKey.{key_eq, values, master}
use aiohomematic.Store.Command.{
  CommandTracker, Call, puts, sets, gets, get_last_value_send, add_set_value, key_of, init, size,
  run,
}
use aiohomematic.Store.Command.Limits.{run-size}
use aiohomematic.Support.Integers.{Text, ℤ, pos, str, decimal, emit}
use aiohomematic.Converter.{Value, percent, get_combined_value, is_convertable}
use aiohomematic.Store.Command.Combined.{combined-get, convert, while_recent}
use aiohomematic.Store.Command.Lookups.{set-get}
use aiohomematic.Store.Command.Freshness.{is_recent}

-- No parameter is a combined one.
abbrev plain : String → Bool
plain p = false

abbrev nothing : String → ℕ → Dict String ℕ
nothing p v = []

abbrev busy : List (ℕ × Call ℕ)
busy =
    (1_000_000, sets "VCU1:1" "LEVEL" 5)
    ∷ (2_000_000, puts "VCU1:0" master (("A", 1) ∷ ("B", 2) ∷ []))
    ∷ (63_000_000, gets (key_of "if" "VCU1:1" values "LEVEL") 60)
    ∷ []

abbrev kept : CommandTracker ℕ
kept = run plain nothing busy (init "if")

run-size_example : (size kept ≤ 499 + 2) × Distinct (keys kept.last_send_command)
run-size_example =
    run-size plain nothing 2 (omega arith) (omega arith) (λ p v. omega arith) "if" busy
      (omega arith, tt)

set-get_example :
    (get_last_value_send
      (key_of "if" "VCU1:1" values "LEVEL")
      60
      30_000_000
      (add_set_value plain nothing "VCU1:1" "LEVEL" 7 5_000_000 (init "if"))).1
    ≡ (if is_recent 5_000_000 60 30_000_000 then some 7 else none)
unfolding init
set-get_example =
    set-get plain nothing "VCU1:1" "LEVEL" 7 5_000_000 60 30_000_000 (init "if") refl (omega arith)
      (omega arith)

-- The value 0 is the text `L2=30,L=100`, and a level is remembered as its number.
abbrev blind_text : ℕ → Text
blind_text v = 76 ∷ 50 ∷ 61 ∷ 51 ∷ 48 ∷ 44 ∷ 76 ∷ 61 ∷ 49 ∷ 48 ∷ 48 ∷ []

abbrev level_of : Value → ℕ
level_of (percent (pos n)) = n
level_of _ = 0

abbrev no_literal : Text → Option ℤ
no_literal s = none

combined-get_example :
    let sent =
      add_set_value is_convertable
        (convert no_literal blind_text level_of)
        "VCU1:4"
        "COMBINED_PARAMETER"
        0
        5_000_000
        kept in
    let key = key_of kept.interface_id "VCU1:4" values in
    ((get_last_value_send (key "LEVEL_2") 60 30_000_000 sent).1
      ≡ while_recent no_literal blind_text level_of 5_000_000 60 30_000_000 (percent (pos 30)))
    × ((get_last_value_send (key "LEVEL") 60 30_000_000 sent).1
        ≡ while_recent no_literal blind_text level_of 5_000_000 60 30_000_000 (percent (pos 100)))
unfolding get_combined_value str decimal emit
combined-get_example =
    combined-get no_literal blind_text level_of "VCU1:4" (pos 30) (pos 100) 0 5_000_000 60
      30_000_000 kept refl (omega arith) (omega arith)
