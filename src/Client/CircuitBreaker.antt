-- ===== src/Client/CircuitBreaker.antt =====
-- aiohomematic/client/circuit_breaker.py: the class CircuitBreaker.
--
-- A method takes the breaker and returns the new breaker with the effects in the order in which
-- the code makes them. `datetime.now()` is an argument; times and the timeout are counted in
-- microseconds, the resolution of `datetime`. OPEN is `opened`, since `open` is reserved.
-- The optional collaborators are three Booleans: whether there is an event bus, an incident
-- recorder, and a connection state together with an issuer.
pub mod Laws
pub mod Trace
pub mod Issues
mod Tests
use aiohomematic.Prelude.{
  ℕ, suc, ◌+◌, ◌-◌, String, Bool, true, false, ◌&&◌, Option, none, some, List, [], ◌∷◌, ◌++◌, leb,
  if◌then◌else◌,
}

pub data CircuitState : Type 0 where
  closed opened half_open : CircuitState

abbrev pub state_beq : CircuitState → CircuitState → Bool
state_beq closed closed = true
state_beq opened opened = true
state_beq half_open half_open = true
state_beq _ _ = false

pub record CircuitBreakerConfig : Type 0 where
  pub failure_threshold : ℕ
  pub recovery_timeout : ℕ
  pub success_threshold : ℕ

-- What a method does to the world: metric counters, events, scheduled incident records, and the
-- calls of the connection state.
pub data Effect : Type 0 where
  failure_counter rejection_counter transition_counter : Effect
  state_changed : CircuitState → CircuitState → ℕ → ℕ → Option ℕ → Effect
  tripped : ℕ → ℕ → Effect
  tripped_incident : CircuitState → ℕ → ℕ → Effect
  recovered_incident : ℕ → Effect
  issue_added issue_removed : Effect

pub record CircuitBreaker : Type 0 where
  pub config : CircuitBreakerConfig
  pub open config use *
  pub interface_id : String
  pub has_event_bus : Bool
  pub has_recorder : Bool
  pub has_connection_state : Bool
  pub state : CircuitState
  pub failure_count : ℕ
  pub success_count : ℕ
  pub total_requests : ℕ
  pub last_failure_time : Option ℕ

-- `__init__`
unfoldable pub init : CircuitBreakerConfig → String → Bool → Bool → Bool → CircuitBreaker
init config interface_id bus recorder connection = record {
  config = config;
  interface_id = interface_id;
  has_event_bus = bus;
  has_recorder = recorder;
  has_connection_state = connection;
  state = closed;
  failure_count = 0;
  success_count = 0;
  total_requests = 0;
  last_failure_time = none;
}

-- A call that the code makes only if the collaborator is there.
abbrev pub when : Bool → Effect → List Effect
when true e = e ∷ []
when false e = []

-- The effects of `_transition_to` between the assignment of the state and the reset of counters.
announce : CircuitState → CircuitState → CircuitBreaker → List Effect
announce old new b =
    when b.has_event_bus transition_counter
    ++ (when b.has_event_bus
          (state_changed old new b.failure_count b.success_count b.last_failure_time)
        ++ (when (b.has_event_bus && state_beq new opened)
              (tripped b.failure_count b.recovery_timeout)
            ++ (when (b.has_recorder && state_beq new opened)
                  (tripped_incident old b.failure_count b.total_requests)
                ++ when (b.has_recorder && (state_beq old half_open && state_beq new closed))
                    (recovered_incident b.success_count))))

-- The last part of `_transition_to`: counters, and the notice to the connection state.
settle : CircuitState → CircuitBreaker → CircuitBreaker × List Effect
settle closed b =
    (record b { failure_count = 0; success_count = 0 }, when b.has_connection_state issue_removed)
settle opened b = (record b { success_count = 0 }, when b.has_connection_state issue_added)
settle half_open b = (record b { success_count = 0 }, [])

pub transition_to : CircuitState → CircuitBreaker → CircuitBreaker × List Effect
unfolding announce settle
transition_to new b =
    if state_beq b.state new
    then (b, [])
    else (let (b', notices) = settle new (record b { state = new }) in
        (b', announce b.state new (record b { state = new }) ++ notices))

-- `elapsed >= recovery_timeout`, with `elapsed = now - last_failure_time`; the time may stand still
-- or run backwards.
has_recovered : ℕ → CircuitBreaker → Bool
has_recovered now b = elim b.last_failure_time [
  | none ↦ false
  | some t ↦ leb (t + b.recovery_timeout) now
]

-- `is_available`: the answer, the breaker afterwards, and the effects.
unfoldable pub is_available : ℕ → CircuitBreaker → Bool × CircuitBreaker × List Effect
unfolding transition_to has_recovered
is_available now b = elim b.state [
  | closed ↦ (true, b, [])
  | opened ↦
      if has_recovered now b
      then (let (b', out) = transition_to half_open b in (true, b', out))
      else (false, b, [])
  | half_open ↦ (true, b, [])
]

count_failure : ℕ → CircuitBreaker → CircuitBreaker
count_failure now b = record b {
  failure_count = b.failure_count + 1;
  total_requests = b.total_requests + 1;
  last_failure_time = some now;
}

-- the two branches of `record_failure` on the state
after_failure : CircuitBreaker → CircuitBreaker × List Effect
unfolding transition_to
after_failure b = elim b.state [
  | closed ↦ if leb b.failure_threshold b.failure_count then transition_to opened b else (b, [])
  | opened ↦ (b, [])
  | half_open ↦ transition_to opened b
]

unfoldable pub record_failure : ℕ → CircuitBreaker → CircuitBreaker × List Effect
unfolding count_failure after_failure
record_failure now b =
    let (b', out) = after_failure (count_failure now b) in
    (b', out ++ when b'.has_event_bus failure_counter)

unfoldable pub record_rejection : CircuitBreaker → CircuitBreaker × List Effect
record_rejection b = (b, when b.has_event_bus rejection_counter)

count_success : CircuitBreaker → CircuitBreaker
count_success b = record b { success_count = b.success_count + 1 }

-- the branches of `record_success` on the state
after_success : CircuitBreaker → CircuitBreaker × List Effect
unfolding transition_to count_success
after_success b = elim b.state [
  | closed ↦ (record b { failure_count = 0 }, [])
  | opened ↦ (b, [])
  | half_open ↦
      if leb b.success_threshold (b.success_count + 1)
      then transition_to closed (count_success b)
      else (count_success b, [])
]

unfoldable pub record_success : CircuitBreaker → CircuitBreaker × List Effect
unfolding after_success
record_success b = after_success (record b { total_requests = b.total_requests + 1 })

unfoldable pub reset : CircuitBreaker → CircuitBreaker × List Effect
reset b = (
  record b {
    state = closed;
    failure_count = 0;
    success_count = 0;
    total_requests = 0;
    last_failure_time = none;
  },
  [],
)

-- The calls that a client makes, and a history of them.
pub data Call : Type 0 where
  polls : ℕ → Call
  fails : ℕ → Call
  rejects succeeds resets : Call

unfoldable pub step : Call → CircuitBreaker → CircuitBreaker × List Effect
unfolding is_available record_failure record_rejection record_success reset
step (polls now) b = let (_, b', out) = is_available now b in (b', out)
step (fails now) b = record_failure now b
step rejects b = record_rejection b
step succeeds b = record_success b
step resets b = reset b

unfoldable pub run : List Call → CircuitBreaker → CircuitBreaker × List Effect
run [] b = (b, [])
run (c ∷ cs) b = let (b', out) = step c b in let (b'', rest) = run cs b' in (b'', out ++ rest)
