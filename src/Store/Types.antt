-- ===== src/Store/Types.antt =====
-- aiohomematic/store/types.py: PongTracker and PingPongJournal.
--
-- Times are readings of the monotonic clock in milliseconds, so that a round-trip time is a
-- difference. The display forms of an event, its ISO time and its shortened token, are left out, and
-- so are the averages of the statistics. A journal has room for at least one event.
pub mod Journal
use aiohomematic.Prelude.{
  ℕ, ◌+◌, ◌-◌, ◌*◌, String, Bool, true, false, ◌&&◌, not, Option, none, some, List, [], ◌∷◌, ◌++◌,
  ltb, leb, if◌then◌else◌,
}
use aiohomematic.Prelude.Lists.{length, count}
use aiohomematic.Prelude.Dict.{Dict, contains, erase, insert, remove, string_eq}

pub record PongTracker : Type 0 where
  pub tokens : List String
  pub seen_at : Dict String ℕ
  pub logged : Bool

abbrev pub no_pongs : PongTracker
no_pongs = record { tokens = []; seen_at = []; logged = false }

-- `__len__`
abbrev pub size : PongTracker → ℕ
size t = length t.tokens

unfoldable pub add : String → ℕ → PongTracker → PongTracker
add token timestamp t = record t {
  tokens = if contains token t.tokens then t.tokens else t.tokens ++ token ∷ [];
  seen_at = insert token timestamp t.seen_at;
}

unfoldable pub clear : PongTracker → PongTracker
clear t = record { tokens = []; seen_at = []; logged = false }

unfoldable pub tracks : String → PongTracker → Bool
tracks token t = contains token t.tokens

-- `remove`
unfoldable pub forget : String → PongTracker → PongTracker
forget token t = record t { tokens = erase token t.tokens; seen_at = remove token t.seen_at }

pub data PingPongEventType : Type 0 where
  ping_sent pong_received pong_unknown pong_expired : PingPongEventType

pub record PingPongJournalEvent : Type 0 where
  pub timestamp : ℕ
  pub event_type : PingPongEventType
  pub token : String
  pub rtt_ms : Option ℕ

pub record PingPongJournal : Type 0 where
  pub max_entries : ℕ
  pub max_age : ℕ
  pub events : List PingPongJournalEvent
  pub rtt_samples : List ℕ

-- The default journal: 100 entries, 30 minutes.
abbrev pub new_journal : PingPongJournal
new_journal = record { max_entries = 100; max_age = 1_800_000; events = []; rtt_samples = [] }

unfoldable pub clear_journal : PingPongJournal → PingPongJournal
clear_journal j = record j { events = []; rtt_samples = [] }

-- The loop that pops the events that are too old.
unfoldable pub pop_old : ℕ → ℕ → List PingPongJournalEvent → List PingPongJournalEvent
pop_old now max_age [] = []
pop_old now max_age (e ∷ es) =
    let rest = pop_old now max_age es in if ltb max_age (now - e.timestamp) then rest else e ∷ es

-- The loop that pops the first events while there are too many.
unfoldable pub pop_excess : ℕ → List PingPongJournalEvent → List PingPongJournalEvent
pop_excess max_entries [] = []
pop_excess max_entries (e ∷ es) =
    let rest = pop_excess max_entries es in
    if leb max_entries (length (e ∷ es)) then rest else e ∷ es

-- `_add_event`
unfoldable pub add_event :
    PingPongEventType → String → Option ℕ → ℕ → PingPongJournal → PingPongJournal
unfolding pop_old pop_excess
add_event event_type token rtt_ms now j = record j {
  events =
      pop_excess j.max_entries (pop_old now j.max_age j.events)
      ++ record { timestamp = now; event_type = event_type; token = token; rtt_ms = rtt_ms } ∷ [];
}

unfoldable pub record_ping_sent : String → ℕ → PingPongJournal → PingPongJournal
unfolding add_event
record_ping_sent token now j = add_event ping_sent token none now j

unfoldable pub record_pong_expired : String → ℕ → PingPongJournal → PingPongJournal
unfolding add_event
record_pong_expired token now j = add_event pong_expired token none now j

unfoldable pub record_pong_unknown : String → ℕ → PingPongJournal → PingPongJournal
unfolding add_event
record_pong_unknown token now j = add_event pong_unknown token none now j

-- `samples.append(x)`, then `samples.pop(0)` if there are more than 50.
unfoldable pub add_sample : ℕ → List ℕ → List ℕ
add_sample rtt [] = rtt ∷ []
add_sample rtt (s ∷ ss) =
    if ltb 50 (length (s ∷ ss) + 1) then ss ++ rtt ∷ [] else s ∷ (ss ++ rtt ∷ [])

unfoldable pub record_pong_received : String → ℕ → ℕ → PingPongJournal → PingPongJournal
unfolding add_event add_sample
record_pong_received token rtt_ms now j =
    let j' = add_event pong_received token (some rtt_ms) now j in
    record j' { rtt_samples = add_sample rtt_ms j'.rtt_samples }

abbrev pub same_type : PingPongEventType → PingPongEventType → Bool
same_type ping_sent ping_sent = true
same_type pong_received pong_received = true
same_type pong_unknown pong_unknown = true
same_type pong_expired pong_expired = true
same_type _ _ = false

unfoldable pub count_events_by_type : PingPongEventType → ℕ → ℕ → PingPongJournal → ℕ
count_events_by_type event_type minutes now j =
    count (λ e. same_type e.event_type event_type && leb (now - minutes * 60_000) e.timestamp)
      j.events
