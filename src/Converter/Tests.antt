-- ===== src/Converter/Tests.antt =====
-- Combined parameters at concrete texts.
use aiohomematic.Prelude.{◌≡◌, refl, Option, none, some, [], ◌∷◌}
use aiohomematic.Prelude.Dict.{string_eq}
use aiohomematic.Support.Integers.{Text, ℤ, pos}
use aiohomematic.Converter.{
  half_percent, get_combined_value, convert_combined_parameter_to_paramset,
}
use aiohomematic.Support.Texts.{occurs, split}
use aiohomematic.Converter.RoundTrip.{convert-get_combined_value, received, positions}

-- The literals `0x0a`, and no others.
abbrev ten : Text → Option ℤ
ten (a ∷ b ∷ c ∷ d ∷ []) = some (pos 10)
ten _ = none

convert-get_combined_value_example :
    received ten (get_combined_value (some (pos 30)) (some (pos 100)))
    ≡ positions (some (pos 30)) (some (pos 100))
convert-get_combined_value_example = convert-get_combined_value ten (some (pos 30)) (some (pos 100))

-- The text `0x0a,0x0a`.
abbrev levels : Text
levels = 48 ∷ 120 ∷ 48 ∷ 97 ∷ 44 ∷ 48 ∷ 120 ∷ 48 ∷ 97 ∷ []

two_levels :
    convert_combined_parameter_to_paramset ten "LEVEL_COMBINED" levels
    ≡ ("LEVEL", half_percent (pos 10)) ∷ ("LEVEL_SLATS", half_percent (pos 10)) ∷ []
unfolding convert_combined_parameter_to_paramset occurs split
two_levels = refl
