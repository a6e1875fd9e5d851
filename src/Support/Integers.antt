-- ===== src/Support/Integers.antt =====
-- Python's `int` and its texts, as far as the addresses need them: `str(n)` of an integer, and
-- `int(text)` of an optional sign and ASCII digits. A text is a list of code points. The other
-- spellings that `int` takes (white space around, underscores, other digits) are left out: here
-- they are refused.
use aiohomematic.Prelude.{
  ℕ, zero, suc, ◌+◌, ◌-◌, ◌*◌, ◌/◌, ◌%◌, ◌≤◌, ◌≡◌, ap, ◌∙◌, true, ◌||◌, Option, none, some, List,
  [], ◌∷◌, ltb, eqb, if◌then◌else◌, if_elim, Bool-cases, inl, inr, arith,
}
use aiohomematic.Prelude.Lists.{All, length}

abbrev pub Text : Type 0
Text = List ℕ

pub data ℤ : Type 0 where
  pos negsuc : ℕ → ℤ

-- The digits of `n` before a text, on as many rounds as `n` needs at most.
unfoldable pub emit : ℕ → ℕ → Text → Text
emit zero n out = out
emit (suc fuel) n out =
    let rest = emit fuel (n / 10) ((48 + n % 10) ∷ out) in if eqb n 0 then out else rest

unfoldable pub decimal : ℕ → Text
unfolding emit
decimal n = if eqb n 0 then 48 ∷ [] else emit n n []

-- `str(n)`; 45 is the minus sign
unfoldable pub str : ℤ → Text
unfolding decimal
str (pos n) = decimal n
str (negsuc n) = 45 ∷ decimal (suc n)

-- The number that digits spell behind `n`.
unfoldable pub scan : ℕ → Text → Option ℕ
scan n [] = some n
scan n (c ∷ s) = if ltb c 48 || ltb 57 c then none else scan (n * 10 + (c - 48)) s

abbrev pub plus : Option ℕ → Option ℤ
plus none = none
plus (some n) = some (pos n)

abbrev pub minus : Option ℕ → Option ℤ
minus none = none
minus (some zero) = some (pos 0)
minus (some (suc n)) = some (negsuc n)

unfoldable pub natural : Text → Option ℕ
unfolding scan
natural [] = none
natural (c ∷ s) = scan 0 (c ∷ s)

-- `int(text)`; `none` is the ValueError
unfoldable pub int : Text → Option ℤ
unfolding natural
int [] = none
int (c ∷ s) =
    if eqb c 45
    then minus (natural s)
    else (if eqb c 43 then plus (natural s) else plus (natural (c ∷ s)))

abbrev pub IsDigit : ℕ → Type 0
IsDigit c = (48 ≤ c) × (c ≤ 57)

is_zero : (n : ℕ) → eqb n 0 ≡ true → 0 ≡ n
is_zero n h = ground arith

scan-emit : (fuel n : ℕ) (out : Text) → n ≤ fuel → scan 0 (emit fuel n out) ≡ scan n out
unfolding scan emit
scan-emit zero n out h = ap (λ m. scan m out) (omega (arith, h))
scan-emit (suc fuel) n out h = elim (Bool-cases (eqb n 0)) [
  | inl z ↦ rw z (ap (λ m. scan m out) (is_zero n z))
  | inr s ↦
      rw s
        (scan-emit fuel (n / 10) ((48 + n % 10) ∷ out) (ground (arith, s, h)) ∙ ground (arith, s))
]

emit-IsDigit : (fuel n : ℕ) (out : Text) → All IsDigit out → All IsDigit (emit fuel n out)
unfolding emit
emit-IsDigit zero n out a = a
emit-IsDigit (suc fuel) n out a =
    if_elim (All IsDigit) (eqb n 0) (λ _. a)
      (λ _. emit-IsDigit fuel (n / 10) ((48 + n % 10) ∷ out) ((omega arith, omega arith), a))

pub decimal-IsDigit : (n : ℕ) → All IsDigit (decimal n)
unfolding decimal
decimal-IsDigit n =
    if_elim (All IsDigit) (eqb n 0) (λ _. ((omega arith, omega arith), tt))
      (λ _. emit-IsDigit n n [] tt)

scan-decimal : (n : ℕ) → scan 0 (decimal n) ≡ some n
unfolding decimal scan
scan-decimal n = elim (Bool-cases (eqb n 0)) [
  | inl z ↦ rw z (ap some (is_zero n z))
  | inr s ↦ rw s (scan-emit n n [] (omega arith))
]

length-emit : (fuel n : ℕ) (out : Text) → length out ≤ length (emit fuel n out)
unfolding emit
length-emit zero n out = omega arith
length-emit (suc fuel) n out = ground (arith, length-emit fuel (n / 10) ((48 + n % 10) ∷ out))

decimal-positive : (n : ℕ) → 1 ≤ length (decimal n)
unfolding decimal emit
decimal-positive zero = omega arith
decimal-positive (suc n) = ground (arith, length-emit n (suc n / 10) ((48 + suc n % 10) ∷ []))

-- A text of digits is read as the number that they spell.
int-digits :
    (s : Text) (n : ℕ) → 1 ≤ length s → All IsDigit s → scan 0 s ≡ some n → int s ≡ some (pos n)
unfolding int natural
int-digits [] n l a h = absurd (omega (arith, l))
int-digits (c ∷ s) n l a h = ground (arith, a.0, ap plus h)

natural-digits : (s : Text) (n : ℕ) → 1 ≤ length s → scan 0 s ≡ some n → natural s ≡ some n
unfolding natural
natural-digits [] n l h = absurd (omega (arith, l))
natural-digits (c ∷ s) n l h = h

-- `int(str(n))` is `n`.
pub int-str : (n : ℤ) → int (str n) ≡ some n
unfolding str int
int-str (pos n) = int-digits (decimal n) n (decimal-positive n) (decimal-IsDigit n) (scan-decimal n)
int-str (negsuc n) =
    ap minus
      (natural-digits (decimal (suc n)) (suc n) (decimal-positive (suc n)) (scan-decimal (suc n)))
