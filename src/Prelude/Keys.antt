-- ===== src/Prelude/Keys.antt =====
-- The keys of Python's `dict`, their removal in a loop, and `sorted` with a numeric key.
use Prim.Native.Nat.{ℕ, zero, suc, ◌+◌, ◌≤◌}
use mathlib.Core.Path.{◌≡◌, refl, sym, ap, ◌∙◌, subst}
use mathlib.Core.Bool.{true, false, ◌||◌}
use mathlib.Core.List.{List, [], ◌∷◌, ◌++◌, map}
use native.Mathlib.Omega.{arith}
use aiohomematic.Prelude.Tests.{if◌then◌else◌, leb, if_elim}
use aiohomematic.Prelude.Lists.{length, take}
use aiohomematic.Prelude.Dict.{
  Dict, Hashable, ◌==◌, contains, contains-erase_ne, erase, insert, remove, Distinct,
}

-- The length of a list without a key that is in it.
pub length-erase {ℓ} :
    {K : Type ℓ} ⦃h : Hashable K⦄ (k : K) (ks : List K)
    → contains k ks ≡ true
    → length (erase k ks) + 1 ≡ length ks
unfolding erase contains
length-erase k [] c = absurd (ground (arith, c))
length-erase k (x ∷ xs) c = ground (arith, length-erase k xs, c)

-- Every key of the first list is in the second.
abbrev pub Within {ℓ} : {K : Type ℓ} ⦃h : Hashable K⦄ → List K → List K → Type 0
Within [] xs = Unit {0}
Within (k ∷ ks) xs = (contains k xs ≡ true) × Within ks xs

pub Within-erase {ℓ} :
    {K : Type ℓ} ⦃h : Hashable K⦄ (k : K) (ks xs : List K)
    → contains k ks ≡ false
    → Within ks xs
    → Within ks (erase k xs)
unfolding contains
Within-erase k [] xs n w = tt
Within-erase ⦃h⦄ k (j ∷ ks) xs n w = (
  contains-erase_ne j k xs (ground (arith, n, h.equal_iff k j, h.equal_iff j k)) ∙ w.0,
  Within-erase k ks xs (ground (arith, n)) w.1,
)

-- Python's stable `sorted`, by a time.
module _ {ℓ} {A : Type ℓ} (time : A → ℕ) where
  unfoldable pub insert_by : A → List A → List A
  insert_by e [] = e ∷ []
  insert_by e (d ∷ ds) = if leb (time e) (time d) then e ∷ d ∷ ds else d ∷ insert_by e ds

  unfoldable pub sort_by : List A → List A
  unfolding insert_by
  sort_by [] = []
  sort_by (e ∷ es) = insert_by e (sort_by es)

  length-insert_by : (e : A) (d : List A) → length (insert_by e d) ≡ suc (length d)
  unfolding insert_by
  length-insert_by e [] = refl
  length-insert_by e (x ∷ d) = ground (arith, length-insert_by e d)

  pub length-sort_by : (d : List A) → length (sort_by d) ≡ length d
  unfolding sort_by
  length-sort_by [] = refl
  length-sort_by (e ∷ d) = omega (arith, length-insert_by e (sort_by d), length-sort_by d)

  -- The time of every entry is at least this one.
  abbrev pub NoneBefore : ℕ → List A → Type 0
  NoneBefore t [] = Unit {0}
  NoneBefore t (x ∷ xs) = (t ≤ time x) × NoneBefore t xs

  abbrev pub Ascending : List A → Type 0
  Ascending [] = Unit {0}
  Ascending (x ∷ xs) = NoneBefore (time x) xs × Ascending xs

  NoneBefore-le : (s t : ℕ) (xs : List A) → s ≤ t → NoneBefore t xs → NoneBefore s xs
  NoneBefore-le s t [] h n = tt
  NoneBefore-le s t (x ∷ xs) h n = (omega (arith, h, n.0), NoneBefore-le s t xs h n.1)

  NoneBefore-insert_by :
      (t : ℕ) (e : A) (xs : List A) → t ≤ time e → NoneBefore t xs → NoneBefore t (insert_by e xs)
  unfolding insert_by
  NoneBefore-insert_by t e [] h n = (h, tt)
  NoneBefore-insert_by t e (x ∷ xs) h n =
      if_elim (NoneBefore t) (leb (time e) (time x)) (λ _. (h, n))
        (λ _. (n.0, NoneBefore-insert_by t e xs h n.1))

  insert_by-Ascending : (e : A) (xs : List A) → Ascending xs → Ascending (insert_by e xs)
  unfolding insert_by
  insert_by-Ascending e [] a = (tt, tt)
  insert_by-Ascending e (x ∷ xs) a =
      if_elim Ascending (leb (time e) (time x))
        (λ le.
          ((ground (arith, le), NoneBefore-le (time e) (time x) xs (ground (arith, le)) a.0), a))
        (λ gt. (
          NoneBefore-insert_by (time x) e xs (ground (arith, gt)) a.0,
          insert_by-Ascending e xs a.1,
        ))

  pub sort_by-Ascending : (xs : List A) → Ascending (sort_by xs)
  unfolding sort_by
  sort_by-Ascending [] = tt
  sort_by-Ascending (e ∷ es) = insert_by-Ascending e (sort_by es) (sort_by-Ascending es)

module _ {ℓ κ} {K : Type ℓ} {V : Type κ} ⦃h : Hashable K⦄ where
  abbrev pub keys : Dict K V → List K
  keys [] = []
  keys (e ∷ d) = e.0 ∷ keys d

  pub length-keys : (d : Dict K V) → length (keys d) ≡ length d
  length-keys [] = refl
  length-keys (e ∷ d) = ap suc (length-keys d)

  pub keys-insert :
      (k : K) (v : V) (d : Dict K V)
      → keys (insert k v d) ≡ (if contains k (keys d) then keys d else keys d ++ k ∷ [])
  unfolding insert contains
  keys-insert k v [] = refl
  keys-insert k v ((j, w) ∷ d) = ground (arith, keys-insert k v d)

  pub keys-remove : (k : K) (d : Dict K V) → keys (remove k d) ≡ erase k (keys d)
  unfolding remove erase
  keys-remove k [] = refl
  keys-remove k ((j, w) ∷ d) = ground (arith, keys-remove k d)

  -- `for k in ks: del d[k]`
  unfoldable pub remove_all : List K → Dict K V → Dict K V
  remove_all [] d = d
  remove_all (k ∷ ks) d = remove_all ks (remove k d)

  abbrev pub first_keys : ℕ → Dict K V → List K
  first_keys n d = map (λ e. e.0) (take n d)

  pub length-first_keys : (n : ℕ) (d : Dict K V) → n ≤ length d → length (first_keys n d) ≡ n
  length-first_keys zero d h = refl
  length-first_keys (suc n) [] h = absurd (omega arith)
  length-first_keys (suc n) (e ∷ d) h = ap suc (length-first_keys n d (omega arith))

  contains-first_keys :
      (k : K) (n : ℕ) (d : Dict K V)
      → contains k (keys d) ≡ false
      → contains k (first_keys n d) ≡ false
  unfolding contains
  contains-first_keys k zero d c = refl
  contains-first_keys k (suc n) [] c = refl
  contains-first_keys k (suc n) (e ∷ d) c = ground (arith, contains-first_keys k n d, c)

  pub Distinct-first_keys : (n : ℕ) (d : Dict K V) → Distinct (keys d) → Distinct (first_keys n d)
  Distinct-first_keys zero d u = tt
  Distinct-first_keys (suc n) [] u = tt
  Distinct-first_keys (suc n) (e ∷ d) u =
      (contains-first_keys e.0 n d u.0, Distinct-first_keys n d u.1)

  pub Within-first_keys :
      (n : ℕ) (d : Dict K V) (xs : List K)
      → ((k : K) → contains k (keys d) ≡ true → contains k xs ≡ true)
      → Within (first_keys n d) xs
  unfolding contains
  Within-first_keys zero d xs c = tt
  Within-first_keys (suc n) [] xs c = tt
  Within-first_keys (suc n) (e ∷ d) xs c = (
    c e.0 (ground (arith, h.equal_iff e.0 e.0)),
    Within-first_keys n d xs (λ k i. c k (ground (arith, i))),
  )

  keys-insert_by :
      (time : K × V → ℕ) (k : K) (e : K × V) (d : Dict K V)
      → contains k (keys (insert_by time e d)) ≡ (e.0 == k || contains k (keys d))
  unfolding insert_by contains
  keys-insert_by time k e [] = refl
  keys-insert_by time k e (x ∷ d) = ground (arith, keys-insert_by time k e d)

  Distinct-insert_by :
      (time : K × V → ℕ) (e : K × V) (d : Dict K V)
      → contains e.0 (keys d) ≡ false
      → Distinct (keys d)
      → Distinct (keys (insert_by time e d))
  unfolding insert_by contains
  Distinct-insert_by time e [] n u = (n, u)
  Distinct-insert_by time e (x ∷ d) n u =
      if_elim (λ l. Distinct (keys l)) (leb (time e) (time x)) (λ _. (n, u))
        (λ _. (
          ground (
            arith,
            n,
            u.0,
            keys-insert_by time x.0 e d,
            h.equal_iff x.0 e.0,
            h.equal_iff e.0 x.0,
          ),
          Distinct-insert_by time e d (ground (arith, n)) u.1,
        ))

  pub keys-sort_by :
      (time : K × V → ℕ) (k : K) (d : Dict K V)
      → contains k (keys (sort_by time d)) ≡ contains k (keys d)
  unfolding sort_by contains
  keys-sort_by time k [] = refl
  keys-sort_by time k (e ∷ d) =
      keys-insert_by time k e (sort_by time d) ∙ ap (λ b. e.0 == k || b) (keys-sort_by time k d)

  pub Distinct-sort_by :
      (time : K × V → ℕ) (d : Dict K V) → Distinct (keys d) → Distinct (keys (sort_by time d))
  unfolding sort_by
  Distinct-sort_by time [] u = tt
  Distinct-sort_by time (e ∷ d) u =
      Distinct-insert_by time e (sort_by time d) (keys-sort_by time e.0 d ∙ u.0)
        (Distinct-sort_by time d u.1)

  pub length-remove_all :
      (ks : List K) (d : Dict K V)
      → Distinct ks
      → Within ks (keys d)
      → length (remove_all ks d) + length ks ≡ length d
  unfolding remove_all
  length-remove_all [] d u w = omega arith
  length-remove_all (k ∷ ks) d u w =
      let rest =
        length-remove_all ks (remove k d) u.1
          (subst (Within ks) (sym (keys-remove k d)) (Within-erase k ks (keys d) u.0 w.1)) in
      omega (
        arith,
        rest,
        length-keys (remove k d),
        length-keys d,
        ap length (keys-remove k d),
        length-erase k (keys d) w.0,
      )
