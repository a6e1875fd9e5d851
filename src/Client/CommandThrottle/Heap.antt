-- ===== src/Client/CommandThrottle/Heap.antt =====
-- A queue that does what the documentation of heapq says: a list kept in order.
use aiohomematic.Prelude.{
  ◌+◌, ◌≡◌, refl, subst, ◌≢◌, Bool, true, false, Option, none, some, List, [], ◌∷◌, arith, if_elim,
  if◌then◌else◌,
}
use aiohomematic.Prelude.Lists.{count, All}
use aiohomematic.Client.CommandThrottle.{PrioritizedCommand, before, HeapQueue}

unfoldable pub push : PrioritizedCommand → List PrioritizedCommand → List PrioritizedCommand
push c [] = c ∷ []
push c (d ∷ q) = if before c d then c ∷ d ∷ q else d ∷ push c q

unfoldable pub pop : List PrioritizedCommand → Option (PrioritizedCommand × List PrioritizedCommand)
pop [] = none
pop (c ∷ q) = some (c, q)

unfoldable pub sort : List PrioritizedCommand → List PrioritizedCommand
unfolding push
sort [] = []
sort (c ∷ q) = push c (sort q)

abbrev pub IsOrdered : List PrioritizedCommand → Type 0
IsOrdered [] = Unit
IsOrdered (c ∷ q) = All (λ d. before d c ≡ false) q × IsOrdered q

All-push :
    (c d : PrioritizedCommand) (q : List PrioritizedCommand)
    → before c d ≡ false
    → All (λ x. before x d ≡ false) q
    → All (λ x. before x d ≡ false) (push c q)
unfolding push
All-push c d [] h a = (h, tt)
All-push c d (e ∷ q) h a =
    if_elim (All (λ x. before x d ≡ false)) (before c e) (λ _. (h, a))
      (λ _. (a.0, All-push c d q h a.1))

before_trans :
    (c d x : PrioritizedCommand) → before c d ≡ true → before x d ≡ false → before x c ≡ false
before_trans c d x l h = ground (arith, l, h)

before_asymm : (c d : PrioritizedCommand) → before c d ≡ true → before d c ≡ false
before_asymm c d l = ground (arith, l)

All-before :
    (c d : PrioritizedCommand) (q : List PrioritizedCommand)
    → before c d ≡ true
    → All (λ x. before x d ≡ false) q
    → All (λ x. before x c ≡ false) q
All-before c d [] l a = tt
All-before c d (x ∷ q) l a = (before_trans c d x l a.0, All-before c d q l a.1)

pub push-IsOrdered :
    (c : PrioritizedCommand) (q : List PrioritizedCommand) → IsOrdered q → IsOrdered (push c q)
unfolding push
push-IsOrdered c [] o = (tt, tt)
push-IsOrdered c (d ∷ q) o =
    if_elim IsOrdered (before c d) (λ l. ((before_asymm c d l, All-before c d q l o.0), o))
      (λ l. (All-push c d q l o.0, push-IsOrdered c q o.1))

pub count-push :
    (p : PrioritizedCommand → Bool) (c : PrioritizedCommand) (q : List PrioritizedCommand)
    → count p (push c q) ≡ (if p c then 1 else 0) + count p q
unfolding push
count-push p c [] = refl
count-push p c (d ∷ q) =
    if_elim (λ r. count p r ≡ (if p c then 1 else 0) + count p (d ∷ q)) (before c d) (λ l. refl)
      (λ l. omega (arith, count-push p c q))

pub sort-IsOrdered : (q : List PrioritizedCommand) → IsOrdered (sort q)
unfolding sort
sort-IsOrdered [] = tt
sort-IsOrdered (c ∷ q) = push-IsOrdered c (sort q) (sort-IsOrdered q)

pub count-sort :
    (p : PrioritizedCommand → Bool) (q : List PrioritizedCommand) → count p (sort q) ≡ count p q
unfolding sort
count-sort p [] = refl
count-sort p (c ∷ q) = omega (arith, count-push p c (sort q), count-sort p q)

pub pop-IsOrdered :
    (c : PrioritizedCommand) (q r : List PrioritizedCommand)
    → IsOrdered q
    → pop q ≡ some (c, r)
    → IsOrdered r
unfolding pop
pop-IsOrdered c [] r o h = absurd (ground (arith, h))
pop-IsOrdered c (d ∷ q) r o h = let same : q ≡ r = ground (arith, h) in subst IsOrdered same o.1

pub count-pop :
    (p : PrioritizedCommand → Bool) (c : PrioritizedCommand) (q r : List PrioritizedCommand)
    → pop q ≡ some (c, r)
    → count p q ≡ (if p c then 1 else 0) + count p r
unfolding pop
count-pop p c [] r h = absurd (ground (arith, h))
count-pop p c (d ∷ q) r h = ground (arith, h)

pub pop_min :
    (c : PrioritizedCommand) (q r : List PrioritizedCommand)
    → IsOrdered q
    → pop q ≡ some (c, r)
    → All (λ d. before d c ≡ false) r
unfolding pop
pop_min c [] r o h = absurd (ground (arith, h))
pop_min c (d ∷ q) r o h =
    let same : d ≡ c = ground (arith, h) in
    let rest : q ≡ r = ground (arith, h) in
    subst (λ x. All (λ y. before y x ≡ false) r) same
      (subst (All (λ y. before y d ≡ false)) rest o.0)

pub pop-ne-none : (c : PrioritizedCommand) (q : List PrioritizedCommand) → pop (c ∷ q) ≢ none
unfolding pop
pop-ne-none c q h = ground (arith, h)

pub pop-nil : pop [] ≡ none
unfolding pop
pop-nil = refl

abbrev pub ordered : HeapQueue
ordered = record {
  IsHeap = IsOrdered;
  heappush = push;
  heappop = pop;
  heapify = sort;
  nil-IsHeap = tt;
  heappush-IsHeap = push-IsOrdered;
  heappop-IsHeap = pop-IsOrdered;
  heapify-IsHeap = sort-IsOrdered;
  count-heappush = count-push;
  count-heappop = count-pop;
  count-heapify = count-sort;
  heappop_min = pop_min;
  heappop-ne-none = pop-ne-none;
  heappop-nil = pop-nil;
}
