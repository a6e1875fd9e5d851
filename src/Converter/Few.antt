-- ===== src/Converter/Few.antt =====
-- aiohomematic/converter.py: how many values a combined parameter stands for.
use aiohomematic.Prelude.{
  ℕ, ◌+◌, ◌≤◌, ◌≡◌, refl, sym, ap, subst, String, Bool, Option, none, some, List, [], ◌∷◌, if_elim,
  option_elim, is_some, if◌then◌else◌, arith, ◌⊎◌, inl, inr,
}
use aiohomematic.Prelude.Lists.{length}
use aiohomematic.Prelude.Dict.{Dict, ◌==◌, insert, lookup, lookup-insert, has_key, string_eq}
use aiohomematic.Support.Texts.{split, occurs}
use aiohomematic.Support.Integers.{Text, ℤ}
use aiohomematic.Converter.{
  Value, comma, equals, combined_parameter_name, convert_cpv_to_hmip_level, pair_of, write_part,
  write_parts, convert_parts, convert_cpv_to_hm_level, write_levels, convert_level_combined,
  or_nothing, convert_combined_parameter_to_paramset,
}

length-insert :
    (k : String) (v : Value) (d : Dict String Value)
    → length (insert k v d) ≡ (if has_key k d then length d else length d + 1)
unfolding insert lookup
length-insert k v [] = refl
length-insert k v ((j, w) ∷ d) = ground (arith, length-insert k v d)

abbrev one_if : Bool → ℕ
one_if b = if b then 1 else 0

-- The two levels are the only keys.
abbrev IsLevels : Dict String Value → Type 0
IsLevels d = length d ≡ one_if (has_key "LEVEL" d) + one_if (has_key "LEVEL_2" d)

abbrev AllLevels : Option (Dict String Value) → Type 0
AllLevels none = Unit {0}
AllLevels (some d) = IsLevels d

insert-level : (v : Value) (d : Dict String Value) → IsLevels d → IsLevels (insert "LEVEL" v d)
insert-level v d i = ground (
  arith,
  i,
  length-insert "LEVEL" v d,
  ap is_some (lookup-insert "LEVEL" "LEVEL" v d),
  ap is_some (lookup-insert "LEVEL" "LEVEL_2" v d),
)

insert-level_2 : (v : Value) (d : Dict String Value) → IsLevels d → IsLevels (insert "LEVEL_2" v d)
insert-level_2 v d i = ground (
  arith,
  i,
  length-insert "LEVEL_2" v d,
  ap is_some (lookup-insert "LEVEL_2" "LEVEL" v d),
  ap is_some (lookup-insert "LEVEL_2" "LEVEL_2" v d),
)

name_cases :
    (s : Text) (parameter : String)
    → combined_parameter_name s ≡ some parameter
    → (parameter ≡ "LEVEL") ⊎ (parameter ≡ "LEVEL_2")
unfolding combined_parameter_name
name_cases s parameter h = ground (arith, h)

write_part-AllLevels :
    (part : Text × Text) (d : Dict String Value) → IsLevels d → AllLevels (write_part part d)
unfolding write_part
write_part-AllLevels (cp_param, s) d i =
    option_elim AllLevels (combined_parameter_name cp_param) (λ _. i)
      (λ parameter e.
        option_elim AllLevels (convert_cpv_to_hmip_level s) (λ _. tt)
          (λ v _. elim (name_cases cp_param parameter e) [
            | inl h ↦ subst (λ q. IsLevels (insert q v d)) (sym h) (insert-level v d i)
            | inr h ↦ subst (λ q. IsLevels (insert q v d)) (sym h) (insert-level_2 v d i)
          ]))

write_parts-AllLevels :
    (ps : List Text) (d : Dict String Value) → IsLevels d → AllLevels (write_parts ps d)
unfolding write_parts
write_parts-AllLevels [] d i = i
write_parts-AllLevels (p ∷ ps) d i =
    option_elim AllLevels (pair_of (split equals p)) (λ _. tt)
      (λ part _.
        option_elim AllLevels (write_part part d) (λ _. tt)
          (λ d' e. write_parts-AllLevels ps d' (subst AllLevels e (write_part-AllLevels part d i))))

-- At most two values.
abbrev FewOf : Option (Dict String Value) → Type 0
FewOf none = Unit {0}
FewOf (some d) = length d ≤ 2

levels-FewOf : (o : Option (Dict String Value)) → AllLevels o → FewOf o
levels-FewOf none a = tt
levels-FewOf (some d) a = ground (arith, a)

length-or_nothing : (o : Option (Dict String Value)) → FewOf o → length (or_nothing o) ≤ 2
length-or_nothing none f = omega arith
length-or_nothing (some d) f = f

module _ (literal_eval : Text → Option ℤ) where
  write_levels-FewOf : (ls : Text × Text) → FewOf (write_levels literal_eval ls)
  unfolding write_levels
  write_levels-FewOf (l1, l2) =
      option_elim FewOf (convert_cpv_to_hm_level literal_eval l1) (λ _. tt)
        (λ v _.
          option_elim FewOf (convert_cpv_to_hm_level literal_eval l2) (λ _. tt)
            (λ w _. omega arith))

  convert_level_combined-FewOf : (s : Text) → FewOf (convert_level_combined literal_eval s)
  unfolding convert_level_combined
  convert_level_combined-FewOf s =
      if_elim FewOf (occurs comma s)
        (λ _. option_elim FewOf (pair_of (split comma s)) (λ _. tt) (λ ls _. write_levels-FewOf ls))
        (λ _. omega arith)

  -- A combined parameter stands for at most two values, whatever its text.
  pub convert_few :
      (parameter : String) (s : Text)
      → length (convert_combined_parameter_to_paramset literal_eval parameter s) ≤ 2
  unfolding convert_combined_parameter_to_paramset convert_parts lookup
  convert_few parameter s =
      if_elim (λ (d : Dict String Value). length d ≤ 2) (parameter == "COMBINED_PARAMETER")
        (λ _.
          length-or_nothing (convert_parts s)
            (levels-FewOf (convert_parts s) (write_parts-AllLevels (split comma s) [] refl)))
        (λ _.
          if_elim (λ (d : Dict String Value). length d ≤ 2) (parameter == "LEVEL_COMBINED")
            (λ _.
              length-or_nothing (convert_level_combined literal_eval s)
                (convert_level_combined-FewOf s))
            (λ _. omega arith))
