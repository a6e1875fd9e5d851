-- ===== src/Converter/RoundTrip.antt =====
-- aiohomematic/converter.py: what a blind sends is understood.
use aiohomematic.Prelude.{
  ◌≡◌, refl, ap, ◌∙◌, String, Option, none, some, List, [], ◌∷◌, ◌++◌, false,
}
use aiohomematic.Prelude.Dict.{Dict, insert, string_eq}
use aiohomematic.Support.Texts.{split, occurs, split-plain, split-append, str_plain}
use aiohomematic.Support.Integers.{Text, ℤ, str, int-str}
use aiohomematic.Converter.{
  Value, percent, comma, equals, name_l, name_l2, combined_parameter_name,
  convert_cpv_to_hmip_level, pair_of, write_part, write_parts, convert_parts,
  convert_combined_parameter_to_paramset, or_nothing, get_combined_value,
}

-- The parts that a blind sends.
abbrev part_l : ℤ → Text
part_l n = name_l ++ equals ∷ str n

abbrev part_l2 : ℤ → Text
part_l2 n = name_l2 ++ equals ∷ str n

split-part_l : (n : ℤ) → split equals (part_l n) ≡ name_l ∷ str n ∷ []
unfolding occurs
split-part_l n =
    split-append equals name_l (str n) refl
    ∙ ap (λ ps. name_l ∷ ps) (split-plain equals (str n) (str_plain equals n refl refl))

split-part_l2 : (n : ℤ) → split equals (part_l2 n) ≡ name_l2 ∷ str n ∷ []
unfolding occurs
split-part_l2 n =
    split-append equals name_l2 (str n) refl
    ∙ ap (λ ps. name_l2 ∷ ps) (split-plain equals (str n) (str_plain equals n refl refl))

plain-part_l : (n : ℤ) → occurs comma (part_l n) ≡ false
unfolding occurs
plain-part_l n = str_plain comma n refl refl

plain-part_l2 : (n : ℤ) → occurs comma (part_l2 n) ≡ false
unfolding occurs
plain-part_l2 n = str_plain comma n refl refl

-- The loop over the parts takes a part that is understood.
write_one :
    (p : Text) (part : Text × Text) (ps : List Text) (d d' : Dict String Value)
    → pair_of (split equals p) ≡ some part
    → write_part part d ≡ some d'
    → write_parts (p ∷ ps) d ≡ write_parts ps d'
unfolding write_parts
write_one p part ps d d' e f = rw (write_parts, e, f) refl

write_part-l :
    (n : ℤ) (d : Dict String Value)
    → write_part (name_l, str n) d ≡ some (insert "LEVEL" (percent n) d)
unfolding write_part combined_parameter_name convert_cpv_to_hmip_level
write_part-l n d = rw (write_part, convert_cpv_to_hmip_level, int-str n) refl

write_part-l2 :
    (n : ℤ) (d : Dict String Value)
    → write_part (name_l2, str n) d ≡ some (insert "LEVEL_2" (percent n) d)
unfolding write_part combined_parameter_name convert_cpv_to_hmip_level
write_part-l2 n d = rw (write_part, convert_cpv_to_hmip_level, int-str n) refl

write-l :
    (n : ℤ) (ps : List Text) (d : Dict String Value)
    → write_parts (part_l n ∷ ps) d ≡ write_parts ps (insert "LEVEL" (percent n) d)
write-l n ps d =
    write_one (part_l n) (name_l, str n) ps d (insert "LEVEL" (percent n) d)
      (ap pair_of (split-part_l n)) (write_part-l n d)

write-l2 :
    (n : ℤ) (ps : List Text) (d : Dict String Value)
    → write_parts (part_l2 n ∷ ps) d ≡ write_parts ps (insert "LEVEL_2" (percent n) d)
write-l2 n ps d =
    write_one (part_l2 n) (name_l2, str n) ps d (insert "LEVEL_2" (percent n) d)
      (ap pair_of (split-part_l2 n)) (write_part-l2 n d)

-- The values that the positions of a blind stand for.
abbrev pub positions : Option ℤ → Option ℤ → Dict String Value
positions none none = []
positions (some tilt) none = ("LEVEL_2", percent tilt) ∷ []
positions none (some level) = ("LEVEL", percent level) ∷ []
positions (some tilt) (some level) = ("LEVEL_2", percent tilt) ∷ ("LEVEL", percent level) ∷ []

module _ (literal_eval : Text → Option ℤ) where
  -- What is read of a text that is sent, if any is.
  abbrev pub received : Option Text → Dict String Value
  received none = []
  received (some s) = convert_combined_parameter_to_paramset literal_eval "COMBINED_PARAMETER" s

  -- The combined parameter that a blind of HomematicIP sends for any two positions, or one, or none
  -- of them, is converted to exactly these positions, in percent.
  pub convert-get_combined_value :
      (tilt level : Option ℤ) → received (get_combined_value tilt level) ≡ positions tilt level
  unfolding get_combined_value convert_combined_parameter_to_paramset convert_parts insert
      write_parts
  convert-get_combined_value none none = refl
  convert-get_combined_value (some tilt) none =
      ap (λ ps. or_nothing (write_parts ps []))
        (split-plain comma (part_l2 tilt) (plain-part_l2 tilt))
      ∙ ap or_nothing (write-l2 tilt [] [])
  convert-get_combined_value none (some level) =
      ap (λ ps. or_nothing (write_parts ps []))
        (split-plain comma (part_l level) (plain-part_l level))
      ∙ ap or_nothing (write-l level [] [])
  convert-get_combined_value (some tilt) (some level) =
      ap (λ ps. or_nothing (write_parts ps []))
        (split-append comma (part_l2 tilt) (part_l level) (plain-part_l2 tilt)
          ∙ ap (λ ps. part_l2 tilt ∷ ps) (split-plain comma (part_l level) (plain-part_l level)))
      ∙ ap or_nothing
          (write-l2 tilt (part_l level ∷ []) [] ∙ write-l level [] (("LEVEL_2", percent tilt) ∷ []))
