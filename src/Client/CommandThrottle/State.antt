-- ===== src/Client/CommandThrottle/State.antt =====
-- aiohomematic/client/command_throttle.py: the state of the throttle, and what its methods do to parts
-- of it.
use aiohomematic.Prelude.{
  ℕ, ◌+◌, ◌-◌, String, Bool, false, List, [], ◌∷◌, ◌++◌, ltb, eqb, if◌then◌else◌,
}
use aiohomematic.Prelude.Lists.{length}
use aiohomematic.Prelude.Dict.{contains, string_eq}
use aiohomematic.Client.CommandThrottle.Queue.{PrioritizedCommand}

-- The future of a caller: the caller waits, may send, is superseded, gets the cancellation of a
-- stopped throttle, or has given up itself.
pub data Future : Type 0 where
  waiting granted superseded rejected abandoned : Future

-- Where the worker is: at the test of its loop, at the event, in the delay before it grants a
-- command, which ends at the given time, or at its end.
pub data Worker : Type 0 where
  at_top at_event : Worker
  in_delay : PrioritizedCommand → ℕ → Worker
  at_end : Worker

pub record CommandThrottle : Type 0 where
  pub interface_id : String
  pub interval : ℕ
  pub last_command_time : ℕ
  pub queue : List PrioritizedCommand
  pub command_available : Bool
  pub stopped : Bool
  pub burst_threshold : ℕ
  pub burst_window : ℕ
  pub burst_timestamps : List ℕ
  pub throttled_count : ℕ
  pub critical_count : ℕ
  pub burst_count : ℕ
  pub purged_count : ℕ
  pub worker : Worker
  pub futures : ℕ → Future
  pub next_future : ℕ

-- `__init__`; with the interval 0 there is no worker.
unfoldable pub init : String → ℕ → ℕ → ℕ → CommandThrottle
init interface_id interval burst_threshold burst_window = record {
  interface_id = interface_id;
  interval = interval;
  last_command_time = 0;
  queue = [];
  command_available = false;
  stopped = false;
  burst_threshold = burst_threshold;
  burst_window = burst_window;
  burst_timestamps = [];
  throttled_count = 0;
  critical_count = 0;
  burst_count = 0;
  purged_count = 0;
  worker = if ltb 0 interval then at_top else at_end;
  futures = λ f. waiting;
  next_future = 0;
}

unfoldable pub is_enabled : CommandThrottle → Bool
is_enabled s = ltb 0 s.interval

unfoldable pub queue_size : CommandThrottle → ℕ
queue_size s = length s.queue

-- `if not future.done(): ...`
abbrev pub settle : ℕ → Future → (ℕ → Future) → ℕ → Future
settle f v futures g =
    if eqb g f then (elim (futures f) [ waiting ↦ v | other ↦ other ]) else futures g

-- The loop that drops the timestamps before the cutoff.
unfoldable pub evict : ℕ → List ℕ → List ℕ
evict cutoff [] = []
evict cutoff (t ∷ ts) = let rest = evict cutoff ts in if ltb t cutoff then rest else t ∷ ts

-- `_detect_burst`
unfoldable pub detect_burst : ℕ → CommandThrottle → Bool × CommandThrottle
unfolding evict
detect_burst now s =
    if eqb s.burst_threshold 0
    then (false, s)
    else (let timestamps = evict (now - s.burst_window) (s.burst_timestamps ++ now ∷ []) in
        (ltb s.burst_threshold (length timestamps), record s { burst_timestamps = timestamps }))

-- The loop of `_purge_commands`: what remains, the futures, and how many are purged.
unfoldable pub purge :
    List String
    → List PrioritizedCommand
    → (ℕ → Future)
    → List PrioritizedCommand × (ℕ → Future) × ℕ
purge addresses [] futures = ([], futures, 0)
purge addresses (c ∷ q) futures =
    if contains c.device_address addresses
    then (let (r, futures', n) = purge addresses q (settle c.future superseded futures) in
        (r, futures', n + 1))
    else (let (r, futures', n) = purge addresses q futures in (c ∷ r, futures', n))
