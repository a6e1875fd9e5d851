-- ===== src/Store/Types/Journal.antt =====
-- aiohomematic/store/types.py: how long the journal of pings and pongs becomes.
use aiohomematic.Prelude.{ℕ, ◌≤◌, ◌<◌, ◌≡◌, String, Option, some, List, [], ◌∷◌, arith}
use aiohomematic.Prelude.Lists.{length, length-append}
use aiohomematic.Store.Types.{
  PingPongJournal, PingPongJournalEvent, PingPongEventType, pop_old, pop_excess, add_event,
  add_sample, record_pong_received,
}

-- At most 100 events and 50 samples.
pub record IsSmall (j : PingPongJournal) : Type 0 where
  pub room : j.max_entries ≡ 100
  pub events_le : length j.events ≤ 100
  pub samples_le : length j.rtt_samples ≤ 50

pop_excess-lt : (n : ℕ) (es : List PingPongJournalEvent) → 0 < n → length (pop_excess n es) < n
unfolding pop_excess
pop_excess-lt n [] h = h
pop_excess-lt n (e ∷ es) h = ground (arith, pop_excess-lt n es h)

add_sample-le : (x : ℕ) (ss : List ℕ) → length ss ≤ 50 → length (add_sample x ss) ≤ 50
unfolding add_sample
add_sample-le x [] h = omega arith
add_sample-le x (s ∷ ss) h = ground (arith, length-append ss (x ∷ []), h)

pub add_event-IsSmall :
    (kind : PingPongEventType) (token : String) (rtt_ms : Option ℕ) (now : ℕ) (j : PingPongJournal)
    → IsSmall j
    → IsSmall (add_event kind token rtt_ms now j)
unfolding add_event
add_event-IsSmall kind token rtt_ms now j i =
    let old = pop_old now j.max_age j.events in
    record {
      room = i.room;
      events_le = omega (
        arith,
        i.room,
        pop_excess-lt j.max_entries old (omega (arith, i.room)),
        length-append (pop_excess j.max_entries old)
            (record { timestamp = now; event_type = kind; token = token; rtt_ms = rtt_ms } ∷ []),
      );
      samples_le = i.samples_le;
    }

pub record_pong_received-IsSmall :
    (token : String) (rtt_ms now : ℕ) (j : PingPongJournal)
    → IsSmall j
    → IsSmall (record_pong_received token rtt_ms now j)
unfolding record_pong_received add_event
record_pong_received-IsSmall token rtt_ms now j i =
    let k = add_event-IsSmall PingPongEventType.pong_received token (some rtt_ms) now j i in
    record {
      room = i.room;
      events_le = k.events_le;
      samples_le = add_sample-le rtt_ms j.rtt_samples i.samples_le;
    }
