-- ===== src/Client/CommandThrottle/Queue.antt =====
-- aiohomematic/client/command_throttle.py: the commands and the queue of Python's heapq.
use aiohomematic.Prelude.{
  ℕ, ◌+◌, ◌≡◌, ◌≢◌, String, Bool, false, ◌&&◌, ◌||◌, Option, none, some, List, [], ◌∷◌, ltb, eqb,
  if◌then◌else◌,
}
use aiohomematic.Prelude.Lists.{count, All}
use aiohomematic.Prelude.Dict.{string_eq}

pub data CommandPriority : Type 0 where
  critical high low : CommandPriority

-- The value of the enumeration.
abbrev pub rank : CommandPriority → ℕ
rank critical = 0
rank high = 1
rank low = 2

pub record PrioritizedCommand : Type 0 where
  pub priority : CommandPriority
  pub timestamp : ℕ
  pub future : ℕ
  pub device_address : String

-- `a < b`: the priorities are compared, then the timestamps.
abbrev pub before : PrioritizedCommand → PrioritizedCommand → Bool
before a b =
    ltb (rank a.priority) (rank b.priority)
    || (eqb (rank a.priority) (rank b.priority) && ltb a.timestamp b.timestamp)

-- heapq on lists of commands, and what its documentation says: pushing and popping keep a heap,
-- `heapify` makes one, no entry is lost or added, and popping takes an entry that no other is before.
-- Nothing is said of entries of which neither is before the other.
pub record HeapQueue : Type 1 where
  pub IsHeap : List PrioritizedCommand → Type 0
  pub heappush : PrioritizedCommand → List PrioritizedCommand → List PrioritizedCommand
  pub heappop : List PrioritizedCommand → Option (PrioritizedCommand × List PrioritizedCommand)
  pub heapify : List PrioritizedCommand → List PrioritizedCommand
  pub nil-IsHeap : IsHeap []
  pub heappush-IsHeap :
      (c : PrioritizedCommand) (q : List PrioritizedCommand) → IsHeap q → IsHeap (heappush c q)
  pub heappop-IsHeap :
      (c : PrioritizedCommand) (q r : List PrioritizedCommand)
      → IsHeap q
      → heappop q ≡ some (c, r)
      → IsHeap r
  pub heapify-IsHeap : (q : List PrioritizedCommand) → IsHeap (heapify q)
  pub count-heappush :
      (p : PrioritizedCommand → Bool) (c : PrioritizedCommand) (q : List PrioritizedCommand)
      → count p (heappush c q) ≡ (if p c then 1 else 0) + count p q
  pub count-heappop :
      (p : PrioritizedCommand → Bool) (c : PrioritizedCommand) (q r : List PrioritizedCommand)
      → heappop q ≡ some (c, r)
      → count p q ≡ (if p c then 1 else 0) + count p r
  pub count-heapify :
      (p : PrioritizedCommand → Bool) (q : List PrioritizedCommand)
      → count p (heapify q) ≡ count p q
  pub heappop_min :
      (c : PrioritizedCommand) (q r : List PrioritizedCommand)
      → IsHeap q
      → heappop q ≡ some (c, r)
      → All (λ d. before d c ≡ false) r
  pub heappop-ne-none :
      (c : PrioritizedCommand) (q : List PrioritizedCommand) → heappop (c ∷ q) ≢ none
  pub heappop-nil : heappop [] ≡ none
