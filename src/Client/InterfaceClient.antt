-- ===== src/Client/InterfaceClient.antt =====
-- aiohomematic/client/interface_client.py: the connection lifecycle of the class InterfaceClient.
--
-- A method is an action on the client that may raise; what it changed before it raised stays
-- changed. The answers of the backend and of the clock are arguments. Times are microseconds since
-- 1970, so `INIT_DATETIME` is 0. The availability that was last forced on all devices of the
-- interface stands for the devices. What else runs while a method awaits is left out.
pub mod Lifecycle
pub mod Reconnect
pub mod Check
pub mod Shutdown
mod Tests
use aiohomematic.Prelude.{
  ℕ, ◌+◌, ◌≡◌, String, Bool, true, false, ◌&&◌, ◌||◌, not, Option, none, some, List, [], ◌∷◌, ltb,
  eqb, if◌then◌else◌, Result, ok, err, map,
}
use aiohomematic.Prelude.Dict.{◌==◌, nat_eq}
use aiohomematic.Const.{
  ClientState, ClientState-eq, created, initializing, initialized, connecting, connected,
  disconnected, reconnecting, stopping, stopped, failed, FailureReason,
}
use aiohomematic.Exceptions.{Exc, kind, is_homematic, exception_to_failure_reason}
use aiohomematic.Client.CircuitBreaker.{CircuitBreaker, CircuitState}
use aiohomematic.Client.CircuitBreaker as Breaker
use aiohomematic.Client.StateMachine.{
  ClientStateMachine, InvalidStateTransitionError, can_reconnect, is_available,
}
use aiohomematic.Client.StateMachine as Machine

pub data ProxyInitState : Type 0 where
  init_failed init_success de_init_failed de_init_success de_init_skipped : ProxyInitState

pub data ForcedDeviceAvailability : Type 0 where
  force_false force_true not_set : ForcedDeviceAvailability

pub record InterfaceClient : Type 0 where
  pub machine : ClientStateMachine
  pub circuit_breakers : List CircuitBreaker
  pub rpc_callback : Bool
  pub push_updates : Bool
  pub ping_pong : Bool
  pub modified_at : ℕ
  pub modified_at_monotonic : ℕ
  pub connection_error_count : ℕ
  pub reconnect_attempts : ℕ
  pub connectivity_error_threshold : ℕ
  pub callback_warn_interval : ℕ
  pub forced_availability : ForcedDeviceAvailability

abbrev pub state_of : InterfaceClient → ClientState
state_of c = c.machine.state

-- The setter of `modified_at`, at a reading of the monotonic clock.
abbrev pub set_modified_at : ℕ → ℕ → InterfaceClient → InterfaceClient
set_modified_at value monotonic c = record c {
  modified_at = value;
  modified_at_monotonic = if value == 0 then 0 else monotonic;
}

-- What a method raises: the error of a refused transition, or an exception that comes out of the
-- backend or the device coordinator.
pub data Failure : Type 0 where
  refused : InvalidStateTransitionError → Failure
  foreign : Exc → Failure

-- An action that returns or raises, and the client afterwards.
abbrev pub Method : Type 0 → Type 0
Method A = InterfaceClient → Result Failure A × InterfaceClient

abbrev pub proceed :
    {A B : Type 0}
    → Result Failure A × InterfaceClient
    → (A → Method B)
    → Result Failure B × InterfaceClient
proceed (ok a, c) f = f a c
proceed (err e, c) f = (err e, c)

infixl 5 ◌>>=◌ ◌>>◌
abbrev pub ◌>>=◌ : {A B : Type 0} → Method A → (A → Method B) → Method B
◌>>=◌ act next c = proceed (act c) next

abbrev pub ◌>>◌ : {A : Type 0} → Method (Unit {0}) → Method A → Method A
act >> next = act >>= (λ _. next)

abbrev pub return : {A : Type 0} → A → Method A
return a c = (ok a, c)

abbrev pub raise : {A : Type 0} → Exc → Method A
raise exc c = (err (foreign exc), c)

abbrev pub modify : (InterfaceClient → InterfaceClient) → Method (Unit {0})
modify f c = (ok tt, f c)

-- `self._state_machine.transition_to(...)`; the published events are left out here.
unfoldable pub transition_to : ClientState → String → FailureReason → Method (Unit {0})
unfolding Machine.transition_to
transition_to target reason failure_reason c =
    elim (Machine.transition_to target reason false failure_reason c.machine) [
      | ok r ↦ (ok tt, record c { machine = r.0 })
      | err e ↦ (err (refused e), c)
    ]

-- a transition with no reason given
abbrev pub go_to : ClientState → String → Method (Unit {0})
go_to target reason = transition_to target reason FailureReason.none

-- `_mark_all_devices_forced_availability`
abbrev is_force_false : ForcedDeviceAvailability → Bool
is_force_false force_false = true
is_force_false _ = false

abbrev differs : Bool → Bool → Bool
differs true b = not b
differs false b = b

pub mark_all_devices_forced_availability :
    ForcedDeviceAvailability → InterfaceClient → InterfaceClient
unfolding is_available
mark_all_devices_forced_availability forced c =
    let available = not (is_force_false forced) in
    if not available || differs (is_available c.machine) available
    then record c { forced_availability = forced }
    else c

-- the `except` of `init_client`: an error of the second transition is recorded and raised again
fail_init :
    Result Failure (Unit {0}) × InterfaceClient → Result Failure (Unit {0}) × InterfaceClient
fail_init (ok a, c) = (ok a, c)
fail_init (err e, c) =
    (do transition_to failed "invalid state transition" FailureReason.unknown; λ c'. (err e, c')) c

unfoldable pub init_client : Method (Unit {0})
unfolding fail_init
init_client = do go_to initializing ""; λ c. fail_init (go_to initialized "" c)

-- What the world does during `deinit_proxy`: the backend raises, or not. Only a
-- `BaseHomematicException` is caught.
unfoldable pub deinit_proxy : Option Exc → Method ProxyInitState
deinit_proxy failure c =
    if not c.rpc_callback
    then (do go_to disconnected "no callback support"; return de_init_success) c
    else (if c.modified_at == 0 then return de_init_skipped c else elim failure [
      | some exc ↦ if is_homematic (kind exc) then return de_init_failed c else raise exc c
      | none ↦
          (do
            go_to disconnected "proxy de-initialized"
            modify (set_modified_at 0 0)
            return de_init_success)
            c
    ])

-- What the world does during `init_proxy`: for an interface with no callback, whether `list_devices`
-- returns descriptions or `None`, or what it raises, and what `add_new_devices` raises; else what the
-- backend's `init` raises, the time of a callback that came during it, and the time after it (times
-- with the readings of the monotonic clock).
pub record World : Type 0 where
  pub list_devices : Result Exc Bool
  pub add_new_devices : Option Exc
  pub failure : Option Exc
  pub callback_at : Option (ℕ × ℕ)
  pub now : ℕ
  pub monotonic : ℕ

-- the part of `init_proxy` for an interface with no callback
pub init_without_callback : World → Method ProxyInitState
unfolding mark_all_devices_forced_availability
init_without_callback w = elim w.list_devices [
  | err exc ↦ raise exc
  | ok descriptions ↦
      if descriptions
      then elim w.add_new_devices [
        | some exc ↦ raise exc
        | none ↦ do go_to connected "proxy initialized (no callback)"; return init_success
      ]
      else (do
        transition_to failed "device listing failed" FailureReason.network
        modify (mark_all_devices_forced_availability force_false)
        return init_failed)
]

-- the end of `init_proxy` after a successful `init`
pub init_succeeded : World → Method ProxyInitState
unfolding mark_all_devices_forced_availability
init_succeeded w = do
  go_to connected "proxy initialized"
  modify (mark_all_devices_forced_availability not_set)
  modify (set_modified_at w.now w.monotonic)
  return init_success

-- the end of `init_proxy` after a failed `init` with no callback in the meantime
pub init_broken : Exc → Method ProxyInitState
unfolding mark_all_devices_forced_availability exception_to_failure_reason
init_broken exc = do
  modify (set_modified_at 0 0)
  transition_to failed "proxy init failed" (exception_to_failure_reason exc)
  modify (mark_all_devices_forced_availability force_false)
  return init_failed

-- The callback during `init` sets `modified_at`.
pub receive_callback : Option (ℕ × ℕ) → InterfaceClient → InterfaceClient
receive_callback none c = c
receive_callback (some (t, monotonic)) c = set_modified_at t monotonic c

-- Only a `BaseHomematicException` of `init` is caught.
pub init_with_callback : World → Method ProxyInitState
unfolding init_succeeded init_broken receive_callback
init_with_callback w c =
    let c' = receive_callback w.callback_at c in
    elim w.failure [
      | none ↦ init_succeeded w c'
      | some exc ↦
          if not (is_homematic (kind exc))
          then raise exc c'
          else (if ltb c.modified_at c'.modified_at
              then init_succeeded w c'
              else init_broken exc c')
    ]

unfoldable pub init_proxy : World → Method ProxyInitState
unfolding init_without_callback init_with_callback
init_proxy w = do
  go_to connecting ""
  λ c. if not c.rpc_callback then init_without_callback w c else init_with_callback w c

unfoldable pub reinit_proxy : Option Exc → World → Method ProxyInitState
unfolding deinit_proxy init_proxy
reinit_proxy failure w = do _ ← deinit_proxy failure; init_proxy w
