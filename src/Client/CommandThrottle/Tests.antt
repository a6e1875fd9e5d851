-- ===== src/Client/CommandThrottle/Tests.antt =====
-- Runs of a throttle with the interval 10, that counts more than 2 calls within 5 as a burst.
use aiohomematic.Prelude.{ℕ, ◌+◌, ◌-◌, ◌≤◌, ◌≡◌, ◌≢◌, refl, false, ◌&&◌, List, [], ◌∷◌, arith, ltb}
use aiohomematic.Prelude.Lists.{count}
use aiohomematic.Prelude.Dict.{contains, string_eq}
use aiohomematic.Client.CommandThrottle.{
  high, low, PrioritizedCommand, Future, waiting, granted, at_top, in_delay, CommandThrottle, init,
  acquire, enqueue, detect_burst, evict, stop, work, step, run, Event, acquires, works,
}
use aiohomematic.Client.CommandThrottle.Heap.{ordered, push, pop}
use aiohomematic.Client.CommandThrottle.Accounts.{is_of, IsAccounted}
use aiohomematic.Client.CommandThrottle.Rounds.{run-IsAccounted}
use aiohomematic.Client.CommandThrottle.Spacing.{after, run_spaced}
use aiohomematic.Client.CommandThrottle.Order.{Takes, work-Takes, hits}
use aiohomematic.Client.CommandThrottle.Stopping.{stop-forgets}
use aiohomematic.Client.CommandThrottle.Bursts.{detect_all, recent, detect_burst_lem}

-- Two commands are enqueued and the worker delays the more urgent one.
abbrev busy : List (ℕ × Event)
busy = (1, acquires low "A:1" []) ∷ (2, acquires high "B:1" []) ∷ (3, works) ∷ []

abbrev throttle : List (ℕ × Event) → CommandThrottle
throttle es = run ordered es (init "HmIP-RF" 10 2 5)

throttle-IsAccounted : (es : List (ℕ × Event)) → IsAccounted ordered (throttle es)
throttle-IsAccounted es = run-IsAccounted ordered "HmIP-RF" 10 2 5 es

run-IsAccounted_example : IsAccounted ordered (throttle busy)
run-IsAccounted_example = run-IsAccounted ordered "HmIP-RF" 10 2 5 busy

busy_delays :
    (throttle busy).worker
    ≡ in_delay (record { priority = high; timestamp = 2; future = 1; device_address = "B:1" }) 10
unfolding run step init push pop acquire enqueue detect_burst evict work
busy_delays = refl

abbrev sent : List (ℕ × Event)
sent = (12, acquires high "A:1" []) ∷ (12, acquires high "B:1" []) ∷ []

abbrev delayed : List (ℕ × Event)
delayed = (14, works) ∷ []

abbrev granted_once : CommandThrottle
granted_once = step ordered 13 works (after ordered "HmIP-RF" 10 2 5 sent)

first_granted :
    ((after ordered "HmIP-RF" 10 2 5 sent).futures 0 ≡ waiting)
    × (granted_once.futures 0 ≡ granted)
    × ((run ordered delayed granted_once).futures 1 ≡ waiting)
    × ((step ordered 23 works (run ordered delayed granted_once)).futures 1 ≡ granted)
unfolding run step init push pop acquire enqueue detect_burst evict work
first_granted = (refl, refl, refl, refl)

not_granted : (x : Future) → x ≡ waiting → x ≢ granted
not_granted x w g = ground (arith, w, g)

run_spaced_example : 13 + 10 ≤ 23
run_spaced_example =
    run_spaced ordered "HmIP-RF" 10 2 5 sent delayed 13 23 0 1 works works (omega arith)
      (omega arith) (omega arith) (omega arith) (not_granted _ first_granted.0) first_granted.1
      (not_granted _ first_granted.2) first_granted.3

-- The worker is at its test, with two commands in the queue.
sent_ready :
    ((throttle sent).worker ≡ at_top)
    × ((throttle sent).stopped ≡ false)
    × ((throttle sent).queue
        ≡ record { priority = high; timestamp = 12; future = 0; device_address = "A:1" }
          ∷ record { priority = high; timestamp = 12; future = 1; device_address = "B:1" }
          ∷ [])
unfolding run step init push pop acquire enqueue detect_burst evict work
sent_ready = (refl, refl, refl)

work-Takes_example :
    (c : PrioritizedCommand) × Takes ordered c (throttle sent) (work ordered 13 (throttle sent))
work-Takes_example =
    work-Takes ordered 13 _ _ (throttle sent) (throttle-IsAccounted sent) sent_ready.0 sent_ready.1
      sent_ready.2

sent_hit :
    ((throttle sent).futures 1 ≡ waiting)
    × (count (λ c. hits ("B:1" ∷ []) c && is_of 1 c) (throttle sent).queue ≡ 1)
unfolding run step init push pop acquire enqueue detect_burst evict work contains
sent_hit = (refl, refl)

detect_burst_lem_example :
    (detect_burst 9 (detect_all (1 ∷ 5 ∷ 6 ∷ []) (init "HmIP-RF" 10 2 5))).0
    ≡ ltb 2 (recent (9 - 5) (1 ∷ 5 ∷ 6 ∷ 9 ∷ []))
unfolding init
detect_burst_lem_example =
    detect_burst_lem (1 ∷ 5 ∷ 6 ∷ []) 9 (init "HmIP-RF" 10 2 5) (λ z. omega (arith, z)) refl
      (omega arith)

busy_state :
    ((throttle busy).stopped ≡ false)
    × ((throttle busy).next_future ≡ 2)
    × ((throttle busy).futures 0 ≡ waiting)
    × ((throttle busy).futures 1 ≡ waiting)
unfolding run step init push pop acquire enqueue detect_burst evict work
busy_state = (refl, refl, refl, refl)

stop-forgets_example :
    (run ordered ((20, works) ∷ (30, works) ∷ []) (stop ordered (throttle busy))).futures 1
    ≡ waiting
stop-forgets_example =
    stop-forgets ordered
      (record { priority = high; timestamp = 2; future = 1; device_address = "B:1" }) 10
      (throttle busy) ((20, works) ∷ (30, works) ∷ []) (throttle-IsAccounted busy) busy_state.0
      busy_delays busy_state.3 tt
