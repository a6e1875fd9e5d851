-- ===== src/Converter.antt =====
-- aiohomematic/converter.py: what a combined parameter stands for; and the text that a blind of
-- HomematicIP sends as one, _get_combined_value of its class in
-- aiohomematic/model/custom/cover.py, from the positions.
--
-- A text is a list of code points. The quotients int(value) / 100 and literal / 100 / 2 stay
-- written as such. Python's ast.literal_eval is an argument; `none` is its ValueError or
-- SyntaxError. The caches of the results and the converters of single values are left out.
pub mod Few
pub mod RoundTrip
mod Tests
use aiohomematic.Prelude.{
  ℕ, String, Bool, true, false, Option, none, some, List, [], ◌∷◌, ◌++◌, if◌then◌else◌, eqb,
}
use aiohomematic.Prelude.Dict.{Dict, ◌==◌, insert, string_eq}
use aiohomematic.Support.Texts.{split, occurs, same_text}
use aiohomematic.Support.Integers.{Text, ℤ, str, int}

pub data Value : Type 0 where
  plain : Text → Value
  percent half_percent : ℤ → Value

-- A comma, an equals sign, and the names `L` and `L2`
abbrev pub comma : ℕ
comma = 44

abbrev pub equals : ℕ
equals = 61

abbrev pub name_l : Text
name_l = 76 ∷ []

abbrev pub name_l2 : Text
name_l2 = 76 ∷ 50 ∷ []

-- _COMBINED_PARAMETER_NAMES
unfoldable pub combined_parameter_name : Text → Option String
combined_parameter_name s =
    if same_text s name_l
    then some "LEVEL"
    else (if same_text s name_l2 then some "LEVEL_2" else none)

-- CONVERTABLE_PARAMETERS
unfoldable pub is_convertable : String → Bool
is_convertable parameter =
    if parameter == "COMBINED_PARAMETER" then true else parameter == "LEVEL_COMBINED"

-- `_convert_cpv_to_hmip_level`
unfoldable pub convert_cpv_to_hmip_level : Text → Option Value
convert_cpv_to_hmip_level s = elim (int s) [ none ↦ none | some n ↦ some (percent n) ]

-- The unpacking into two names
abbrev pub pair_of : List Text → Option (Text × Text)
pair_of (a ∷ b ∷ []) = some (a, b)
pair_of _ = none

-- One part; each of the two names has the converter of HomematicIP's levels.
unfoldable pub write_part : Text × Text → Dict String Value → Option (Dict String Value)
unfolding combined_parameter_name convert_cpv_to_hmip_level
write_part (cp_param, s) paramset = elim (combined_parameter_name cp_param) [
  | none ↦ some paramset
  | some parameter ↦ elim (convert_cpv_to_hmip_level s) [
    | none ↦ none
    | some v ↦ some (insert parameter v paramset)
  ]
]

-- The loop over the parts.
unfoldable pub write_parts : List Text → Dict String Value → Option (Dict String Value)
unfolding write_part
write_parts [] paramset = some paramset
write_parts (p ∷ ps) paramset = elim (pair_of (split equals p)) [
  | none ↦ none
  | some part ↦ elim (write_part part paramset) [
    | none ↦ none
    | some paramset' ↦ write_parts ps paramset'
  ]
]

-- `_convert_combined_parameter_to_paramset`
unfoldable pub convert_parts : Text → Option (Dict String Value)
unfolding write_parts
convert_parts s = write_parts (split comma s) []

-- `value.startswith("0x")`
abbrev pub is_hex : Text → Bool
is_hex (a ∷ b ∷ s) = if eqb a 48 then eqb b 120 else false
is_hex _ = false

-- An error is answered with no values.
abbrev pub or_nothing : Option (Dict String Value) → Dict String Value
or_nothing none = []
or_nothing (some d) = d

module _ (literal_eval : Text → Option ℤ) where
  -- `_convert_cpv_to_hm_level`
  unfoldable pub convert_cpv_to_hm_level : Text → Option Value
  convert_cpv_to_hm_level s =
      if is_hex s
      then (elim (literal_eval s) [ none ↦ none | some n ↦ some (half_percent n) ])
      else some (plain s)

  -- The two levels; the first that fails decides.
  unfoldable pub write_levels : Text × Text → Option (Dict String Value)
  unfolding convert_cpv_to_hm_level
  write_levels (l1, l2) = elim (convert_cpv_to_hm_level l1) [
    | none ↦ none
    | some v ↦ elim (convert_cpv_to_hm_level l2) [
      | none ↦ none
      | some w ↦ some (("LEVEL", v) ∷ ("LEVEL_SLATS", w) ∷ [])
    ]
  ]

  -- `_convert_level_combined_to_paramset`
  unfoldable pub convert_level_combined : Text → Option (Dict String Value)
  unfolding write_levels
  convert_level_combined s =
      if occurs comma s
      then (elim (pair_of (split comma s)) [ none ↦ none | some ls ↦ write_levels ls ])
      else some []

  unfoldable pub convert_combined_parameter_to_paramset : String → Text → Dict String Value
  unfolding convert_parts convert_level_combined
  convert_combined_parameter_to_paramset parameter s =
      if parameter == "COMBINED_PARAMETER"
      then or_nothing (convert_parts s)
      else (if parameter == "LEVEL_COMBINED" then or_nothing (convert_level_combined s) else [])

-- `_get_combined_value` of the blind, from the two positions
unfoldable pub get_combined_value : Option ℤ → Option ℤ → Option Text
get_combined_value none none = none
get_combined_value (some tilt) none = some (name_l2 ++ equals ∷ str tilt)
get_combined_value none (some level) = some (name_l ++ equals ∷ str level)
get_combined_value (some tilt) (some level) =
    some ((name_l2 ++ equals ∷ str tilt) ++ comma ∷ (name_l ++ equals ∷ str level))
