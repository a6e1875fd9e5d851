-- ===== src/Client/CommandThrottle.antt =====
-- aiohomematic/client/command_throttle.py: the class CommandThrottle.
--
-- Times are readings of the monotonic clock. The futures that callers await are a store from
-- numbers. Each method is cut at its awaits: `acquire` at the future, the worker at the event and at
-- the delay; the lock is never held across an await, so taking it never waits. Logging is left out.
-- heapq is a parameter: its functions with what its documentation promises.
pub mod Queue
pub mod State
pub mod Heap
pub mod Accounts
pub mod Rounds
pub mod Leaves
pub mod Paces
pub mod Spacing
pub mod Order
pub mod Lost
pub mod Stopping
pub mod Bursts
mod Tests
use aiohomematic.Prelude.{
  ℕ, zero, suc, ◌+◌, ◌-◌, ◌≡◌, ◌≢◌, String, Bool, true, false, ◌&&◌, ◌||◌, not, Option, none, some,
  List, [], ◌∷◌, ◌++◌, ltb, eqb, if◌then◌else◌,
}
use aiohomematic.Prelude.Lists.{length, count, All}
use aiohomematic.Prelude.Dict.{contains, string_eq}
pub use Queue.{CommandPriority, rank, PrioritizedCommand, before, HeapQueue, critical, high, low}
pub use State.{
  Future, Worker, CommandThrottle, settle, waiting, granted, superseded, rejected, abandoned,
  at_top, at_event, in_delay, at_end,
}
unfoldable pub use State.{init, is_enabled, queue_size, evict, detect_burst, purge}

-- What `acquire` does to its caller.
pub data Admission : Type 0 where
  goes raises_cancelled : Admission
  awaits : ℕ → Admission

-- What happens at a time: a call of `acquire`, a caller that gives up, a step of the worker, or the
-- call of `stop`.
pub data Event : Type 0 where
  acquires : CommandPriority → String → List String → Event
  gives_up : ℕ → Event
  works stops : Event

module _ (hq : HeapQueue) where
  unfoldable pub purge_commands : List String → CommandThrottle → CommandThrottle
  unfolding purge
  purge_commands addresses s =
      let (remaining, futures, n) = purge addresses s.queue s.futures in
      if ltb 0 n
      then record s {
        queue = hq.heapify remaining;
        futures = futures;
        purged_count = s.purged_count + n;
      }
      else record s { futures = futures }

  -- `acquire` from the test of `_stopped` on
  unfoldable pub enqueue :
      CommandPriority → String → ℕ → CommandThrottle → Admission × CommandThrottle
  enqueue priority device_address now s = if s.stopped then (raises_cancelled, s) else (
    awaits s.next_future,
    record s {
      queue =
          hq.heappush
            (record {
              priority = priority;
              timestamp = now;
              future = s.next_future;
              device_address = device_address;
            })
            s.queue;
      command_available = true;
      futures = λ g. if eqb g s.next_future then waiting else s.futures g;
      next_future = s.next_future + 1;
    },
  )

  unfoldable pub acquire :
      CommandPriority → String → List String → ℕ → CommandThrottle → Admission × CommandThrottle
  unfolding enqueue detect_burst purge_commands
  acquire priority device_address purge_addresses now s =
      if eqb s.interval 0 then (goes, s) else elim priority [
        | critical ↦ (
          goes,
          (let s' = record s { critical_count = s.critical_count + 1 } in
              elim purge_addresses [ [] ↦ s' | a ∷ as' ↦ purge_commands (a ∷ as') s' ]),
        )
        | high ↦
            let (is_burst, s') = detect_burst now s in
            if is_burst
            then enqueue low device_address now (record s' { burst_count = s'.burst_count + 1 })
            else enqueue high device_address now s'
        | low ↦ enqueue low device_address now s
      ]

  -- The loop of `stop`, with as many rounds as there are commands.
  unfoldable pub reject_all :
      ℕ → List PrioritizedCommand → (ℕ → Future) → List PrioritizedCommand × (ℕ → Future)
  reject_all zero q futures = (q, futures)
  reject_all (suc n) q futures = elim (hq.heappop q) [
    | some (c, r) ↦ reject_all n r (settle c.future rejected futures)
    | none ↦ (q, futures)
  ]

  unfoldable pub stop : CommandThrottle → CommandThrottle
  unfolding reject_all
  stop s =
      if s.stopped
      then s
      else (let (q, futures) = reject_all (length s.queue) s.queue s.futures in
          record s { stopped = true; command_available = true; queue = q; futures = futures })

  -- The end of a round of the worker: the permission.
  unfoldable pub grant : PrioritizedCommand → ℕ → CommandThrottle → CommandThrottle
  grant c now s = record s {
    last_command_time = now;
    futures = settle c.future granted s.futures;
    worker = at_top;
  }

  -- A command that was taken from the queue: granted, or delayed.
  unfoldable pub take : PrioritizedCommand → ℕ → CommandThrottle → CommandThrottle
  unfolding grant
  take c now s =
      if ltb (now - s.last_command_time) s.interval
      then record s {
        throttled_count = s.throttled_count + 1;
        worker = in_delay c (now + (s.interval - (now - s.last_command_time)));
      }
      else grant c now s

  -- A round from the test of the loop.
  unfoldable pub round : ℕ → CommandThrottle → CommandThrottle
  unfolding take
  round now s = if s.stopped then record s { worker = at_end } else elim (hq.heappop s.queue) [
    | some (c, r) ↦ take c now (record s { queue = r })
    | none ↦
        if s.command_available
        then record s { command_available = false }
        else record s { worker = at_event }
  ]

  -- The worker goes on, up to its next await or the next test of its loop. `stop` cancels its task,
  -- so that the await at which it stands raises and the loop is left.
  unfoldable pub work_from : Worker → ℕ → CommandThrottle → CommandThrottle
  unfolding round
  work_from at_top now s = round now s
  work_from at_event now s =
      if s.stopped
      then record s { worker = at_end }
      else (if s.command_available
          then record s { command_available = false; worker = at_top }
          else s)
  work_from (in_delay c until) now s =
      if s.stopped
      then record s { worker = at_end }
      else (if ltb now until then s else grant c now s)
  work_from at_end now s = s

  unfoldable pub work : ℕ → CommandThrottle → CommandThrottle
  unfolding work_from
  work now s = work_from s.worker now s

  unfoldable pub step : ℕ → Event → CommandThrottle → CommandThrottle
  unfolding acquire stop work
  step now (acquires priority device_address purge_addresses) s =
      (acquire priority device_address purge_addresses now s).1
  step now (gives_up f) s = record s { futures = settle f abandoned s.futures }
  step now works s = work now s
  step now stops s = stop s

  unfoldable pub run : List (ℕ × Event) → CommandThrottle → CommandThrottle
  run [] s = s
  run ((now, e) ∷ es) s = run es (step now e s)
