-- ===== src/Store/PingPong.antt =====
-- aiohomematic/store/dynamic/ping_pong.py: the class PingPongTracker.
--
-- A method takes the reading of the monotonic clock, in milliseconds, and returns the tracker and what
-- it causes elsewhere. A retry that it schedules is a later call of `retry_reconcile_pong`. A set of
-- tokens is walked in the order of insertion. Logging is left out.
pub mod Bounds
pub mod Kept
pub mod Checks
pub mod Limits
pub mod Alarms
pub mod Informed
mod Tests
use aiohomematic.Prelude.{
  ℕ, zero, suc, ◌+◌, ◌-◌, ◌%◌, String, Bool, true, false, ◌&&◌, ◌||◌, not, Option, none, some, List,
  [], ◌∷◌, ◌++◌, map, ltb, leb, eqb, if◌then◌else◌,
}
use aiohomematic.Prelude.Lists.{length, take, select}
use aiohomematic.Prelude.Dict.{Dict, contains, erase, lookup, string_eq}
use aiohomematic.Prelude.Keys.{sort_by, first_keys}
use aiohomematic.Central.ConnectionState.{CentralConnectionState, is_rpc_proxy_issue}
use aiohomematic.Store.Types.{
  PongTracker, no_pongs, size, add, tracks, forget, PingPongJournal, new_journal, clear_journal,
  record_ping_sent, record_pong_expired, record_pong_received, record_pong_unknown,
}
use aiohomematic.Store.Types as Types

pub data PingPongMismatchType : Type 0 where
  is_pending is_unknown : PingPongMismatchType

-- A latency metric, a mismatch event with its severity (is the count acceptable?) and count, an
-- incident with its count, and the start of a retry task.
pub data Effect : Type 0 where
  latency : ℕ → Effect
  mismatch : PingPongMismatchType → Bool → ℕ → Effect
  incident : PingPongMismatchType → ℕ → Effect
  starts_retry : String → Effect

pub record PingPongTracker : Type 0 where
  pub interface_id : String
  pub allowed_delta : ℕ
  pub ttl : ℕ
  pub has_recorder : Bool
  pub has_looper : Bool
  pub pending : PongTracker
  pub unknown : PongTracker
  pub retry_at : List String
  pub journal : PingPongJournal

-- `__init__`; a time to live of 0 is refused by an assertion there.
unfoldable pub init : String → ℕ → ℕ → Bool → Bool → PingPongTracker
init interface_id allowed_delta ttl has_recorder has_looper = record {
  interface_id = interface_id;
  allowed_delta = allowed_delta;
  ttl = ttl;
  has_recorder = has_recorder;
  has_looper = has_looper;
  pending = no_pongs;
  unknown = no_pongs;
  retry_at = [];
  journal = new_journal;
}

-- The sum of both sets.
unfoldable pub total_size : PingPongTracker → ℕ
total_size p = size p.pending + size p.unknown

unfoldable pub has_connection_issue : Option CentralConnectionState → PingPongTracker → Bool
has_connection_issue none p = false
has_connection_issue (some s) p = is_rpc_proxy_issue p.interface_id s

unfoldable pub clear : PingPongTracker → PingPongTracker
clear p = record p {
  pending = Types.clear p.pending;
  unknown = Types.clear p.unknown;
  journal = clear_journal p.journal;
}

unfoldable pub forget_all : List String → PongTracker → PongTracker
forget_all [] t = t
forget_all (token ∷ tokens) t = forget_all tokens (forget token t)

-- Is the token older than the time to live?
abbrev pub is_expired : ℕ → ℕ → PongTracker → String → Bool
is_expired now ttl t token = elim (lookup token t.seen_at) [
  | some seen_at ↦ ltb ttl (now - seen_at)
  | none ↦ false
]

abbrev pub expired_tokens : ℕ → ℕ → PongTracker → List String
expired_tokens now ttl t = select (is_expired now ttl t) t.tokens

abbrev pub max_size : ℕ
max_size = 100

-- The oldest entries beyond `PING_PONG_CACHE_MAX_SIZE`.
abbrev pub oldest_tokens : PongTracker → List String
oldest_tokens t = first_keys (size t - max_size) (sort_by (λ e. e.1) t.seen_at)

-- `_cleanup_tracker`, of the tracker alone
unfoldable pub cleanup_tracker : ℕ → ℕ → PongTracker → PongTracker
unfolding forget_all
cleanup_tracker now ttl t =
    let t' = forget_all (expired_tokens now ttl t) t in
    if ltb max_size (size t') then forget_all (oldest_tokens t') t' else t'

unfoldable pub record_expired : List String → ℕ → PingPongJournal → PingPongJournal
record_expired [] now j = j
record_expired (token ∷ tokens) now j = record_expired tokens now (record_pong_expired token now j)

-- `_cleanup_tracker` of the pending tokens, with the journal
unfoldable pub cleanup_pending : ℕ → PingPongTracker → PingPongTracker
unfolding cleanup_tracker record_expired
cleanup_pending now p = record p {
  pending = cleanup_tracker now p.ttl p.pending;
  journal = record_expired (expired_tokens now p.ttl p.pending) now p.journal;
}

unfoldable pub cleanup_unknown : ℕ → PingPongTracker → PingPongTracker
unfolding cleanup_tracker
cleanup_unknown now p = record p { unknown = cleanup_tracker now p.ttl p.unknown }

abbrev pub when : Bool → List Effect → List Effect
when true es = es
when false es = []

abbrev pub publish : PingPongMismatchType → ℕ → PingPongTracker → Effect
publish kind count p = mismatch kind (leb count p.allowed_delta) count

-- The branch for pending tokens of `_check_and_publish_pong_event`, after the cleanup
unfoldable pub judge_pending : PingPongTracker → PingPongTracker × List Effect
judge_pending p =
    let count = size p.pending in
    if ltb p.allowed_delta count
    then (
      record p { pending = record p.pending { logged = true } },
      publish is_pending count p
          ∷ when (not p.pending.logged && (p.has_recorder && p.has_looper))
              (incident is_pending count ∷ []),
    )
    else (if p.pending.logged
        then (
          record p { pending = record p.pending { logged = false } },
          publish is_pending 0 p ∷ [],
        )
        else (p, when (ltb 0 count && eqb (count % 2) 0) (publish is_pending count p ∷ [])))

unfoldable pub judge_unknown : PingPongTracker → PingPongTracker × List Effect
judge_unknown p =
    let count = size p.unknown in
    if ltb p.allowed_delta count
    then (
      record p { unknown = record p.unknown { logged = true } },
      publish is_unknown count p
          ∷ when (not p.unknown.logged && (p.has_recorder && p.has_looper))
              (incident is_unknown count ∷ []),
    )
    else (if p.unknown.logged
        then (
          record p { unknown = record p.unknown { logged = false } },
          publish is_unknown 0 p ∷ [],
        )
        else (p, []))

-- `_check_and_publish_pong_event`
unfoldable pub check_pending : ℕ → PingPongTracker → PingPongTracker × List Effect
check_pending now p = judge_pending (cleanup_pending now p)

unfoldable pub check_unknown : ℕ → PingPongTracker → PingPongTracker × List Effect
check_unknown now p = judge_unknown (cleanup_unknown now p)

-- `_schedule_unknown_pong_retry`; without a looper the token is added and discarded again.
unfoldable pub schedule_retry : String → PingPongTracker → PingPongTracker × List Effect
schedule_retry token p =
    if contains token p.retry_at
    then (p, [])
    else (if p.has_looper
        then (record p { retry_at = p.retry_at ++ token ∷ [] }, starts_retry token ∷ [])
        else (p, []))

-- `rtt_ms or 0.0`
abbrev pub round_trip : String → ℕ → PingPongTracker → ℕ
round_trip token now p = elim (lookup token p.pending.seen_at) [ some t ↦ now - t | none ↦ 0 ]

abbrev pub latencies : String → ℕ → PingPongTracker → List Effect
latencies token now p = elim (lookup token p.pending.seen_at) [
  | some t ↦ latency (now - t) ∷ []
  | none ↦ []
]

-- The branches of `handle_received_pong`
unfoldable pub match_pong : String → ℕ → PingPongTracker → PingPongTracker × List Effect
match_pong token now p =
    let p' = cleanup_pending now (record p {
      journal = record_pong_received token (round_trip token now p) now p.journal;
      pending = forget token p.pending;
    }) in
    let (p'', out) = check_pending now p' in (p'', latencies token now p ++ out)

unfoldable pub note_unknown : String → ℕ → PingPongTracker → PingPongTracker × List Effect
note_unknown token now p =
    let p' = cleanup_unknown now (record p {
      journal = record_pong_unknown token now p.journal;
      unknown = add token now p.unknown;
    }) in
    let (p'', out) = check_unknown now p' in
    let (p''', out') = schedule_retry token p'' in (p''', out ++ out')

unfoldable pub handle_received_pong : String → ℕ → PingPongTracker → PingPongTracker × List Effect
handle_received_pong token now p =
    if tracks token p.pending then match_pong token now p else note_unknown token now p

-- `handle_send_ping` where the connection has no issue
unfoldable pub note_ping : String → ℕ → PingPongTracker → PingPongTracker × List Effect
note_ping token now p =
    let p' = cleanup_pending now (record p {
      journal = record_ping_sent token now p.journal;
      pending = add token now p.pending;
    }) in
    let count = size p'.pending in
    if ltb p'.allowed_delta count || eqb (count % 2) 0 then check_pending now p' else (p', [])

unfoldable pub handle_send_ping :
    Option CentralConnectionState → String → ℕ → PingPongTracker → PingPongTracker × List Effect
handle_send_ping state token now p =
    if has_connection_issue state p then (p, []) else note_ping token now p

-- The body of `_retry_reconcile_pong` where the token is pending
unfoldable pub reconcile : String → ℕ → PingPongTracker → PingPongTracker × List Effect
reconcile token now p =
    let unknown_before = size p.unknown in
    let (p', out) = check_pending now (record p {
      pending = forget token p.pending;
      unknown = if tracks token p.unknown then forget token p.unknown else p.unknown;
    }) in
    if not (eqb (size p'.unknown) unknown_before)
    then (let (p'', out') = check_unknown now p' in (p'', out ++ out'))
    else (p', out)

unfoldable pub retry_reconcile_pong : String → ℕ → PingPongTracker → PingPongTracker × List Effect
retry_reconcile_pong token now p =
    let p' = cleanup_unknown now (cleanup_pending now p) in
    let (p'', out) = if tracks token p'.pending then reconcile token now p' else (p', []) in
    (record p'' { retry_at = erase token p''.retry_at }, out)

-- The calls that change the tracker, with the reading of the clock.
pub data Call : Type 0 where
  pings : Option CentralConnectionState → String → Call
  pongs retries : String → Call
  clears : Call

unfoldable pub step : ℕ → Call → PingPongTracker → PingPongTracker × List Effect
unfolding handle_send_ping handle_received_pong retry_reconcile_pong clear
step now (pings state token) p = handle_send_ping state token now p
step now (pongs token) p = handle_received_pong token now p
step now (retries token) p = retry_reconcile_pong token now p
step now clears p = (clear p, [])

unfoldable pub run : List (ℕ × Call) → PingPongTracker → PingPongTracker × List Effect
run [] p = (p, [])
run ((now, c) ∷ cs) p =
    let (p', out) = step now c p in let (p'', rest) = run cs p' in (p'', out ++ rest)
