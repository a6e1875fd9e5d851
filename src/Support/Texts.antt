-- ===== src/Support/Texts.antt =====
-- Python's texts as lists of code points: `sep in s` and `s.split(sep)` for a separator of one
-- character, and the comparison with a literal.
use aiohomematic.Prelude.{
  ℕ, suc, ◌≤◌, ◌≡◌, refl, ap, Bool, true, false, List, [], ◌∷◌, ◌++◌, eqb, if◌then◌else◌, ltb, ◌||◌,
  Bool-cases, inl, inr, arith,
}
use aiohomematic.Prelude.Lists.{All, length, count}
use aiohomematic.Support.Integers.{Text, ℤ, pos, negsuc, str, decimal, decimal-IsDigit, IsDigit}

abbrev pub glue : ℕ → List Text → List Text
glue x [] = (x ∷ []) ∷ []
glue x (p ∷ ps) = (x ∷ p) ∷ ps

-- `s.split(sep)`
unfoldable pub split : ℕ → Text → List Text
split sep [] = [] ∷ []
split sep (x ∷ s) = let rest = split sep s in if eqb x sep then [] ∷ rest else glue x rest

-- `sep in s`
unfoldable pub occurs : ℕ → Text → Bool
occurs sep [] = false
occurs sep (x ∷ s) = let rest = occurs sep s in if eqb x sep then true else rest

abbrev pub same_text : Text → Text → Bool
same_text [] [] = true
same_text (x ∷ s) (y ∷ t) = let rest = same_text s t in if eqb x y then rest else false
same_text _ _ = false

pub split-plain : (sep : ℕ) (s : Text) → occurs sep s ≡ false → split sep s ≡ s ∷ []
unfolding split occurs
split-plain sep [] h = refl
split-plain sep (x ∷ s) h = elim (Bool-cases (eqb x sep)) [
  | inl e ↦ absurd (ground (arith, e, h))
  | inr e ↦ rw e (ap (glue x) (split-plain sep s (ground (arith, e, h))))
]

pub split-append :
    (sep : ℕ) (s t : Text) → occurs sep s ≡ false → split sep (s ++ sep ∷ t) ≡ s ∷ split sep t
unfolding split occurs
split-append sep [] t h = ground arith
split-append sep (x ∷ s) t h = elim (Bool-cases (eqb x sep)) [
  | inl e ↦ absurd (ground (arith, e, h))
  | inr e ↦ rw e (ap (glue x) (split-append sep s t (ground (arith, e, h))))
]

pub occurs-append_sep : (sep : ℕ) (s t : Text) → occurs sep (s ++ sep ∷ t) ≡ true
unfolding occurs
occurs-append_sep sep [] t = ground arith
occurs-append_sep sep (x ∷ s) t = ground (arith, occurs-append_sep sep s t)

-- A text that two texts make has the separator only if one of them has it.
pub occurs-append :
    (sep : ℕ) (s t : Text)
    → occurs sep s ≡ false
    → occurs sep t ≡ false
    → occurs sep (s ++ t) ≡ false
unfolding occurs
occurs-append sep [] t g h = h
occurs-append sep (x ∷ s) t g h = ground (arith, occurs-append sep s t, g, h)

length-glue : (x : ℕ) (ps : List Text) → 1 ≤ length ps → length (glue x ps) ≡ length ps
length-glue x [] h = absurd (omega (arith, h))
length-glue x (p ∷ ps) h = refl

-- One part more than there are separators.
pub length-split : (sep : ℕ) (s : Text) → length (split sep s) ≡ suc (count (λ x. eqb x sep) s)
unfolding split
length-split sep [] = refl
length-split sep (x ∷ s) = elim (Bool-cases (eqb x sep)) [
  | inl e ↦ rw e (omega (arith, length-split sep s))
  | inr e ↦ rw e (
      omega (
        arith,
        length-glue x (split sep s) (omega (arith, length-split sep s)),
        length-split sep s,
      ))
]

pub occurs-count : (sep : ℕ) (s : Text) → 1 ≤ count (λ x. eqb x sep) s → occurs sep s ≡ true
unfolding occurs
occurs-count sep [] h = absurd (omega (arith, h))
occurs-count sep (x ∷ s) h = ground (arith, h, occurs-count sep s)

digits_plain :
    (sep : ℕ) (s : Text) → (ltb sep 48 || ltb 57 sep) ≡ true → All IsDigit s → occurs sep s ≡ false
unfolding occurs
digits_plain sep [] h a = refl
digits_plain sep (c ∷ s) h a = ground (arith, h, a.0, digits_plain sep s h a.1)

-- A number has no separator that is neither a digit nor the minus sign.
pub str_plain :
    (sep : ℕ) (n : ℤ)
    → (ltb sep 48 || ltb 57 sep) ≡ true
    → eqb 45 sep ≡ false
    → occurs sep (str n) ≡ false
unfolding str occurs
str_plain sep (pos n) h m = digits_plain sep (decimal n) h (decimal-IsDigit n)
str_plain sep (negsuc n) h m =
    ground (arith, m, digits_plain sep (decimal (suc n)) h (decimal-IsDigit (suc n)))
