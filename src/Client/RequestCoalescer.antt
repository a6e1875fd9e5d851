-- ===== src/Client/RequestCoalescer.antt =====
-- aiohomematic/client/request_coalescer.py: the class RequestCoalescer.
--
-- `execute` is cut at its two awaits: `begin` is the part before them, `await_existing` what a caller
-- that joins gets from the future that it awaits, and `finish` what the caller that leads does when its
-- executor has ended. Nothing awaits between, so each part is one step of the event loop. A caller that
-- is cancelled while it awaits the shared future cancels that future (`give_up`), as asyncio does with
-- the future that a task awaits. The lock is held across no await. The futures of asyncio are a store
-- from numbers. `created_at`, names and logging are left out. A result is of type V and an exception of
-- type E.
pub mod Steps
pub mod Laws
pub mod Clearing
mod Tests
use aiohomematic.Prelude.{
  ℕ, ◌+◌, String, Bool, true, false, Option, none, some, List, [], ◌∷◌, ◌++◌, if◌then◌else◌, eqb,
}
use aiohomematic.Prelude.Lists.{length}
use aiohomematic.Prelude.Dict.{Dict, lookup, insert, remove, contains, string_eq, nat_eq}

-- How the awaiting of an executor ends; a `CancelledError` is no `Exception`.
pub data Outcome (V E : Type 0) : Type 0 where
  returned : V → Outcome V E
  raised : E → Outcome V E
  was_cancelled : Outcome V E

-- An `asyncio.Future`.
pub data Future (V E : Type 0) : Type 0 where
  waiting : Future V E
  result : V → Future V E
  exception : E → Future V E
  cancelled : Future V E

-- `_PendingRequest`
pub record PendingRequest : Type 0 where
  pub future : ℕ
  pub waiter_count : ℕ

pub record RequestCoalescer (V E : Type 0) : Type 0 where
  pub has_event_bus : Bool
  pub pending : Dict String PendingRequest
  pub total_requests : ℕ
  pub executed_requests : ℕ
  pub futures : ℕ → Future V E
  pub next_future : ℕ

pub data Effect : Type 0 where
  coalesced_counter failure_counter : Effect
  request_coalesced : String → ℕ → Effect

-- A caller awaits the future of another caller, or leads and executes the request itself.
pub data Admission : Type 0 where
  joins leads : ℕ → Admission

-- What `execute` does to the caller that leads.
pub data Ending (V E : Type 0) : Type 0 where
  returns : V → Ending V E
  raises : E → Ending V E
  raises_cancelled raises_invalid_state raises_key_error : Ending V E

abbrev pub when : Bool → List Effect → List Effect
when true es = es
when false es = []

module _ {V E : Type 0} where
  unfoldable pub init : Bool → RequestCoalescer V E
  init bus = record {
    has_event_bus = bus;
    pending = [];
    total_requests = 0;
    executed_requests = 0;
    futures = λ f. waiting;
    next_future = 0;
  }

  unfoldable pub pending_count : RequestCoalescer V E → ℕ
  pending_count s = length s.pending

  abbrev pub write : ℕ → Future V E → (ℕ → Future V E) → ℕ → Future V E
  write f v futures g = if eqb g f then v else futures g

  -- The future that a call with the key would await.
  abbrev pub future_of : String → RequestCoalescer V E → Option ℕ
  future_of key s = elim (lookup key s.pending) [ some p ↦ some p.future | none ↦ none ]

  -- `execute` up to the await
  unfoldable pub begin :
      String → RequestCoalescer V E → Admission × RequestCoalescer V E × List Effect
  begin key s = elim (lookup key s.pending) [
    | some p ↦ (
      joins p.future,
      record s {
        total_requests = s.total_requests + 1;
        pending = insert key (record p { waiter_count = p.waiter_count + 1 }) s.pending;
      },
      when s.has_event_bus (coalesced_counter ∷ request_coalesced key (p.waiter_count + 1) ∷ []),
    )
    | none ↦ (
      leads s.next_future,
      record s {
        total_requests = s.total_requests + 1;
        executed_requests = s.executed_requests + 1;
        pending = insert key (record { future = s.next_future; waiter_count = 1 }) s.pending;
        futures = write s.next_future waiting s.futures;
        next_future = s.next_future + 1;
      },
      [],
    )
  ]

  -- `set_result` and `set_exception` raise an `InvalidStateError`, unless the future is waiting.
  pub settle : ℕ → Future V E → RequestCoalescer V E → Option (RequestCoalescer V E)
  settle f v s = elim (s.futures f) [
    | waiting ↦ some (record s { futures = write f v s.futures })
    | _ ↦ none
  ]

  -- The try statement of `execute` without its finally. An `InvalidStateError` of `set_result` is
  -- an `Exception` too; setting it raises again.
  pub conclude :
      ℕ → Outcome V E → RequestCoalescer V E → Ending V E × RequestCoalescer V E × List Effect
  unfolding settle
  conclude f (returned v) s = elim (settle f (result v) s) [
    | some s' ↦ (returns v, s', [])
    | none ↦ (raises_invalid_state, s, when s.has_event_bus (failure_counter ∷ []))
  ]
  conclude f (raised e) s = elim (settle f (exception e) s) [
    | some s' ↦ (raises e, s', when s.has_event_bus (failure_counter ∷ []))
    | none ↦ (raises_invalid_state, s, when s.has_event_bus (failure_counter ∷ []))
  ]
  conclude f was_cancelled s = (raises_cancelled, s, [])

  -- the finally: `del self._pending[key]`
  pub tidy : String → Ending V E → RequestCoalescer V E → Ending V E × RequestCoalescer V E
  tidy key ending s = elim (lookup key s.pending) [
    | some p ↦ (ending, record s { pending = remove key s.pending })
    | none ↦ (raises_key_error, s)
  ]

  -- `return await existing_future`: what the caller gets, none while it waits
  unfoldable pub await_existing : ℕ → RequestCoalescer V E → Option (Ending V E)
  await_existing f s = elim (s.futures f) [
    | waiting ↦ none
    | result v ↦ some (returns v)
    | exception e ↦ some (raises e)
    | cancelled ↦ some raises_cancelled
  ]

  -- `cancel` of a future, which does nothing to one that is done
  abbrev pub cancel : ℕ → (ℕ → Future V E) → ℕ → Future V E
  cancel f futures = elim (futures f) [ waiting ↦ write f cancelled futures | _ ↦ futures ]

  -- A caller is cancelled in `await existing_future`.
  unfoldable pub give_up : ℕ → RequestCoalescer V E → RequestCoalescer V E
  give_up f s = record s { futures = cancel f s.futures }

  -- `execute` after the executor, for the caller that leads with the future `f`
  unfoldable pub finish :
      String
      → ℕ
      → Outcome V E
      → RequestCoalescer V E
      → Ending V E × RequestCoalescer V E × List Effect
  unfolding conclude tidy
  finish key f outcome s =
      let (ending, s', out) = conclude f outcome s in
      let (ending', s'') = tidy key ending s' in (ending', s'', out)

  -- the loop of `clear`
  unfoldable pub cancel_all : Dict String PendingRequest → (ℕ → Future V E) → ℕ → Future V E
  cancel_all [] futures = futures
  cancel_all ((key, p) ∷ rest) futures = cancel_all rest (cancel p.future futures)

  unfoldable pub clear : RequestCoalescer V E → RequestCoalescer V E
  unfolding cancel_all
  clear s = record s { futures = cancel_all s.pending s.futures; pending = [] }

-- The coalescer with the executions that are under way: the future that each is to resolve, and its
-- key; and the futures that other callers have awaited.
pub record System (V E : Type 0) : Type 0 where
  pub coalescer : RequestCoalescer V E
  pub running : Dict ℕ String
  pub joined : List ℕ

-- What the event loop runs next: a call with a key, the end of an execution, or the cancellation of a
-- caller that awaits the future of another.
pub data Event (V E : Type 0) : Type 0 where
  calls : String → Event V E
  ends : ℕ → Outcome V E → Event V E
  gives_up : ℕ → Event V E

pub enlist : String → Admission → Dict ℕ String → Dict ℕ String
enlist key (joins f) running = running
enlist key (leads f) running = insert f key running

pub enroll : Admission → List ℕ → List ℕ
enroll (joins f) joined = f ∷ joined
enroll (leads f) joined = joined

module _ {V E : Type 0} where
  abbrev pub start : Bool → System V E
  start bus = record { coalescer = init bus; running = []; joined = [] }

  -- The end of an execution that is not under way does not happen, nor does the cancellation of a
  -- caller that never awaited the future.
  unfoldable pub step : Event V E → System V E → System V E
  unfolding begin finish enlist enroll give_up contains
  step (calls key) s =
      let (admission, c, _) = begin key s.coalescer in
      record {
        coalescer = c;
        running = enlist key admission s.running;
        joined = enroll admission s.joined;
      }
  step (ends f outcome) s = elim (lookup f s.running) [
    | some key ↦
        let (_, c, _) = finish key f outcome s.coalescer in
        record { coalescer = c; running = remove f s.running; joined = s.joined }
    | none ↦ s
  ]
  step (gives_up f) s =
      if contains f s.joined then record s { coalescer = give_up f s.coalescer } else s

  unfoldable pub run : List (Event V E) → System V E → System V E
  run [] s = s
  run (e ∷ es) s = run es (step e s)
