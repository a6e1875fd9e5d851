-- ===== src/Client/InterfaceClient/Tests.antt =====
-- Runs of the client's lifecycle, and its theorems at concrete inputs.
use aiohomematic.Prelude.{◌≡◌, refl, true, none, some, [], ok, err}
use aiohomematic.Const.{ClientState, initialized, connecting, disconnected, FailureReason}
use aiohomematic.Exceptions.{raised, no_connection, other}
use aiohomematic.Client.StateMachine.{ClientStateMachine, can_reconnect}
use aiohomematic.Client.InterfaceClient.{
  InterfaceClient, foreign, state_of, not_set, World, init_failed, init_proxy, transition_to,
  reinit_proxy,
}
use aiohomematic.Client.InterfaceClient.Lifecycle.{escapes, Connects, init_proxy-Connects}
use aiohomematic.Client.InterfaceClient.Reconnect.{
  reconnect, after_reinit, reinit_escapes, Reconnects, reconnect-Reconnects,
}
use aiohomematic.Client.InterfaceClient.Shutdown.{shut_down, Refused, failed_init-shut_down}

abbrev machine : ClientState → ClientStateMachine
machine s = record {
  interface_id = "HmIP-RF";
  has_event_bus = true;
  state = s;
  failure_reason = FailureReason.none;
  failure_message = "";
}

abbrev client : ClientState → InterfaceClient
client s = record {
  machine = machine s;
  circuit_breakers = [];
  rpc_callback = true;
  push_updates = true;
  ping_pong = true;
  modified_at = 5;
  modified_at_monotonic = 5;
  connection_error_count = 0;
  reconnect_attempts = 1;
  connectivity_error_threshold = 1;
  callback_warn_interval = 180;
  forced_availability = not_set;
}

-- the backend is unreachable, or answers
abbrev offline : World
offline = record {
  list_devices = ok true;
  add_new_devices = none;
  failure = some (raised no_connection);
  callback_at = none;
  now = 9;
  monotonic = 9;
}

abbrev online : World
online = record offline { failure = none }

init_proxy_fails : (init_proxy offline (client initialized)).0 ≡ ok init_failed
unfolding init_proxy transition_to
init_proxy_fails = refl

init_proxy-Connects_example :
    Connects 1 (escapes true offline) (init_proxy offline (client initialized))
init_proxy-Connects_example = init_proxy-Connects offline (client initialized) tt

reconnect-Reconnects_example :
    Reconnects
      (client disconnected)
      (reinit_escapes none online (client disconnected))
      (reconnect none online (client disconnected))
reconnect-Reconnects_example = reconnect-Reconnects none online (client disconnected)

reconnects : (reconnect none online (client disconnected)).0 ≡ ok true
unfolding reconnect transition_to reinit_proxy after_reinit can_reconnect
reconnects = refl

failed_init-shut_down_example : Refused (shut_down none (init_proxy offline (client initialized)).1)
failed_init-shut_down_example =
    failed_init-shut_down none offline (client initialized) tt refl init_proxy_fails

-- an error that the code does not know
abbrev broken : World
broken = record online { failure = some (raised other) }

gets_through :
    ((init_proxy broken (client initialized)).0 ≡ err (foreign (raised other)))
    × (state_of (init_proxy broken (client initialized)).1 ≡ connecting)
unfolding init_proxy transition_to
gets_through = (refl, refl)
