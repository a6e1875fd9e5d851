-- ===== src/Prelude/Dict.antt =====
-- Python's `dict` and `set` of hashable keys: association lists in insertion order, over an
-- equality test of the keys. A second write of a key keeps its place.
use Prim.Native.Nat.{ℕ}
use Prim.Native.String.{String}
use mathlib.Core.Path.{◌≡◌, refl}
use mathlib.Core.Logic.{◌↔◌, inl, inr}
use mathlib.Core.Bool.{Bool, true, false, ◌||◌}
use mathlib.Core.Option.{Option, none, some}
use mathlib.Core.List.{List, [], ◌∷◌, ◌++◌}
use native.Mathlib.Omega.{arith}
use text.Mathlib.Text.{◌==◌ as str_eq}
use text.Mathlib.TextEquality.{eq_iff}
use aiohomematic.Prelude.Tests.{eqb, eqb_iff, if◌then◌else◌, is_some, Bool-cases}

-- A type of keys, with the test that a dictionary compares them by.
pub record Hashable {ℓ} (K : Type ℓ) : Type ℓ where
  pub equal : K → K → Bool
  pub equal_iff : (j k : K) → (equal j k ≡ true) ↔ (j ≡ k)

instance abbrev pub string_eq : Hashable String
string_eq = record { equal = str_eq; equal_iff = eq_iff }

infix 50 ◌==◌
abbrev pub ◌==◌ {ℓ} : {K : Type ℓ} ⦃h : Hashable K⦄ → K → K → Bool
◌==◌ ⦃h⦄ j k = h.equal j k

module _ {ℓ} {K : Type ℓ} ⦃h : Hashable K⦄ where
  -- `k in xs`
  unfoldable pub contains : K → List K → Bool
  contains k [] = false
  contains k (x ∷ xs) = x == k || contains k xs

  pub contains-append :
      (k : K) (xs ys : List K) → contains k (xs ++ ys) ≡ (contains k xs || contains k ys)
  unfolding contains
  contains-append k [] ys = refl
  contains-append k (x ∷ xs) ys = ground (arith, contains-append k xs ys)

  -- `xs.remove(k)` of a list, `discard` of a set: the first entry that is equal, if any.
  unfoldable pub erase : K → List K → List K
  erase k [] = []
  erase k (x ∷ xs) = if x == k then xs else x ∷ erase k xs

  -- No key twice.
  abbrev pub Distinct : List K → Type 0
  Distinct [] = Unit {0}
  Distinct (x ∷ xs) = (contains x xs ≡ false) × Distinct xs

  pub contains-erase_ne :
      (k j : K) (xs : List K) → (j == k) ≡ false → contains k (erase j xs) ≡ contains k xs
  unfolding contains erase
  contains-erase_ne k j [] n = refl
  contains-erase_ne k j (x ∷ xs) n =
      ground (arith, contains-erase_ne k j xs n, h.equal_iff x j, h.equal_iff x k, h.equal_iff j k)

  pub contains-erase_self : (k : K) (xs : List K) → Distinct xs → contains k (erase k xs) ≡ false
  unfolding contains erase
  contains-erase_self k [] d = refl
  contains-erase_self k (x ∷ xs) d = ground (arith, contains-erase_self k xs d.1, h.equal_iff x k)

  pub Distinct-append_one :
      (k : K) (xs : List K) → contains k xs ≡ false → Distinct xs → Distinct (xs ++ k ∷ [])
  unfolding contains
  Distinct-append_one k [] n d = (refl, tt)
  Distinct-append_one k (x ∷ xs) n d = (
    ground (arith, contains-append x xs (k ∷ []), h.equal_iff x k, h.equal_iff k x),
    Distinct-append_one k xs (ground arith) d.1,
  )

  pub contains-erase-le :
      (k j : K) (xs : List K) → contains k xs ≡ false → contains k (erase j xs) ≡ false
  unfolding contains erase
  contains-erase-le k j [] n = refl
  contains-erase-le k j (x ∷ xs) n = ground (arith, contains-erase-le k j xs)

  pub Distinct-erase : (k : K) (xs : List K) → Distinct xs → Distinct (erase k xs)
  unfolding erase
  Distinct-erase k [] d = tt
  Distinct-erase k (x ∷ xs) d = elim (Bool-cases (x == k)) [
    | inl hit ↦ rw hit d.1
    | inr miss ↦ rw miss (contains-erase-le x k xs d.0, Distinct-erase k xs d.1)
  ]

instance abbrev pub nat_eq : Hashable ℕ
nat_eq = record { equal_iff = eqb_iff; equal = eqb }

-- A `dict`, in the order of the first writes of its keys.
abbrev pub Dict {ℓ κ} : Type ℓ → Type κ → Type (ℓ ⊔ κ)
Dict K V = List (K × V)

module _ {ℓ κ} {K : Type ℓ} {V : Type κ} ⦃h : Hashable K⦄ where
  -- `d.get(k)`
  unfoldable pub lookup : K → Dict K V → Option V
  lookup _ [] = none
  lookup key ((k, val) ∷ d) = if k == key then some val else lookup key d

  -- `d[k] = v`
  unfoldable pub insert : K → V → Dict K V → Dict K V
  insert key val [] = (key, val) ∷ []
  insert key val ((k, old) ∷ d) = if k == key then (k, val) ∷ d else (k, old) ∷ insert key val d

  -- `d.pop(k, None)`, and `del d[k]` where the key is present
  unfoldable pub remove : K → Dict K V → Dict K V
  remove k [] = []
  remove k ((j, w) ∷ d) = if j == k then d else (j, w) ∷ remove k d

  -- `k in d`
  abbrev pub has_key : K → Dict K V → Bool
  has_key k d = is_some (lookup k d)

  pub lookup-insert :
      (k j : K) (v : V) (d : Dict K V)
      → lookup j (insert k v d) ≡ (if k == j then some v else lookup j d)
  unfolding insert lookup
  lookup-insert k j v [] = refl
  lookup-insert k j v ((i, _) ∷ rest) =
      ground (arith, lookup-insert k j v rest, h.equal_iff i j, h.equal_iff i k, h.equal_iff k j)

  -- No key is there twice, as in every `dict`.
  abbrev pub Unique : Dict K V → Type 0
  Unique [] = Unit {0}
  Unique ((k, v) ∷ d) = (has_key k d ≡ false) × Unique d

  pub Unique-insert : (k : K) (v : V) (d : Dict K V) → Unique d → Unique (insert k v d)
  unfolding lookup insert
  Unique-insert k v [] u = (refl, tt)
  Unique-insert k v ((j, w) ∷ d) u = elim (Bool-cases (j == k)) [
    | inl here ↦ rw here u
    | inr there ↦ rw there (
      ground (arith, lookup-insert k j v d, h.equal_iff k j, h.equal_iff j k, u.0),
      Unique-insert k v d u.1,
    )
  ]

  pub lookup-remove :
      (k j : K) (d : Dict K V)
      → Unique d
      → lookup j (remove k d) ≡ (if k == j then none else lookup j d)
  unfolding lookup remove
  lookup-remove k j [] u = ground arith
  lookup-remove k j ((i, w) ∷ d) u =
      ground
        (arith, u.0, h.equal_iff k j, h.equal_iff i k, h.equal_iff i j, lookup-remove k j d u.1)

  pub Unique-remove : (k : K) (d : Dict K V) → Unique d → Unique (remove k d)
  unfolding remove
  Unique-remove k [] u = tt
  Unique-remove k ((j, w) ∷ d) u = elim (Bool-cases (j == k)) [
    | inl here ↦ rw here u.1
    | inr there ↦ rw there (ground (arith, lookup-remove k j d u.1, u.0), Unique-remove k d u.1)
  ]
