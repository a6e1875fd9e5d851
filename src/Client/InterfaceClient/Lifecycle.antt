-- ===== src/Client/InterfaceClient/Lifecycle.antt =====
-- Setting up the connection.
use aiohomematic.Prelude.{
  ℕ, ◌≡◌, refl, ◌≢◌, String, Option, none, some, arith, ltb, if◌then◌else◌, Result, ok, err, Bool,
  true, false, not,
}
use aiohomematic.Const.{
  ClientState, ClientState-eq, initialized, connecting, connected, disconnected, reconnecting,
  failed, FailureReason,
}
use aiohomematic.Exceptions.{Exc, kind, is_homematic, exception_to_failure_reason}
use aiohomematic.Client.InterfaceClient.{
  InterfaceClient, Failure, foreign, raise, state_of, transition_to, go_to, set_modified_at,
  init_succeeded, init_broken, init_without_callback, init_with_callback, receive_callback, World,
  ProxyInitState, init_success, init_failed, init_proxy,
}

-- Where a connection can be set up from.
abbrev pub CanConnect : ClientState → Type 0
CanConnect initialized = Unit
CanConnect disconnected = Unit
CanConnect reconnecting = Unit
CanConnect failed = Unit
CanConnect _ = ⊥

-- The exception that `init_proxy` lets through, if any: what the listing or the adding of devices
-- raises, without a callback, and with one what the backend's `init` raises, unless that is a
-- `BaseHomematicException`.
abbrev pub foreign_of : Option Exc → Option Exc
foreign_of none = none
foreign_of (some exc) = if is_homematic (kind exc) then none else some exc

abbrev pub listing_escapes : Result Exc Bool → Option Exc → Option Exc
listing_escapes (err exc) adding = some exc
listing_escapes (ok true) adding = adding
listing_escapes (ok false) adding = none

abbrev pub escapes : Bool → World → Option Exc
escapes true w = foreign_of w.failure
escapes false w = listing_escapes w.list_devices w.add_new_devices

-- How `init_proxy` ends, with the number of reconnect attempts unchanged: where an exception gets
-- through, it raises that and leaves the client CONNECTING; else it succeeds in CONNECTED with no
-- failure remembered, or fails in FAILED with a reason.
abbrev pub Connects : ℕ → Option Exc → Result Failure ProxyInitState × InterfaceClient → Type 0
Connects n (some exc) (r, c) =
    (r ≡ err (foreign exc)) × (state_of c ≡ connecting) × (c.reconnect_attempts ≡ n)
Connects n none (ok init_success, c) =
    (state_of c ≡ connected)
    × (c.machine.failure_reason ≡ FailureReason.none)
    × (c.reconnect_attempts ≡ n)
Connects n none (ok init_failed, c) =
    (state_of c ≡ failed)
    × (c.machine.failure_reason ≢ FailureReason.none)
    × (c.reconnect_attempts ≡ n)
Connects n none _ = ⊥

-- The transitions of the lifecycle, where they are admitted.
abbrev pub moved : ClientState → InterfaceClient → InterfaceClient
moved s c = record c { machine = record (c.machine) { state = s } }

pub go_connecting :
    (c : InterfaceClient)
    → CanConnect (state_of c)
    → go_to connecting "" c ≡ (ok tt, moved connecting c)
unfolding transition_to
go_connecting c h = ground arith

abbrev pub settled : ClientState → FailureReason → String → InterfaceClient → InterfaceClient
settled s reason message c = record c {
  machine = record (c.machine) { state = s; failure_reason = reason; failure_message = message };
}

pub go_connected :
    (reason : String) (c : InterfaceClient)
    → state_of c ≡ connecting
    → go_to connected reason c ≡ (ok tt, settled connected FailureReason.none "" c)
unfolding transition_to
go_connected reason c h = ground arith

pub go_failed :
    (reason : String) (f : FailureReason) (c : InterfaceClient)
    → state_of c ≡ connecting
    → transition_to failed reason f c ≡ (ok tt, settled failed f reason c)
unfolding transition_to
go_failed reason f c h = ground arith

failure_reason-ne-none : (exc : Exc) → exception_to_failure_reason exc ≢ FailureReason.none
unfolding exception_to_failure_reason
failure_reason-ne-none exc = ground arith

init_succeeded-Connects :
    (w : World) (c : InterfaceClient)
    → state_of c ≡ connecting
    → Connects c.reconnect_attempts none (init_succeeded w c)
unfolding init_succeeded
init_succeeded-Connects w c h = ground (arith, go_connected "proxy initialized" c h)

init_broken-Connects :
    (exc : Exc) (c : InterfaceClient)
    → state_of c ≡ connecting
    → Connects c.reconnect_attempts none (init_broken exc c)
unfolding init_broken
init_broken-Connects exc c h = ground (
  arith,
  go_failed "proxy init failed" (exception_to_failure_reason exc) (set_modified_at 0 0 c) h,
  failure_reason-ne-none exc,
)

init_without_callback-Connects :
    (w : World) (c : InterfaceClient)
    → state_of c ≡ connecting
    → Connects c.reconnect_attempts (escapes false w) (init_without_callback w c)
unfolding init_without_callback
init_without_callback-Connects w c h = ground (
  arith,
  go_connected "proxy initialized (no callback)" c h,
  go_failed "device listing failed" FailureReason.network c h,
)

init_with_callback-Connects :
    (w : World) (c : InterfaceClient)
    → state_of c ≡ connecting
    → Connects c.reconnect_attempts (escapes true w) (init_with_callback w c)
unfolding init_with_callback receive_callback
init_with_callback-Connects w c h = called w.callback_at w.failure
  where
    called :
        (at : Option (ℕ × ℕ)) (failure : Option Exc)
        → Connects c.reconnect_attempts (foreign_of failure) (
            let c' = receive_callback at c in
            elim failure [
              | none ↦ init_succeeded w c'
              | some exc ↦
                  if not (is_homematic (kind exc))
                  then raise exc c'
                  else (if ltb c.modified_at c'.modified_at
                      then init_succeeded w c'
                      else init_broken exc c')
            ])
    called none none = init_succeeded-Connects w c h
    called (some (t, m)) none = init_succeeded-Connects w (set_modified_at t m c) h
    called none (some exc) =
        ground (arith, h, init_succeeded-Connects w c h, init_broken-Connects exc c h)
    called (some (t, m)) (some exc) = ground (
      arith,
      h,
      init_succeeded-Connects w (set_modified_at t m c) h,
      init_broken-Connects exc (set_modified_at t m c) h,
    )

-- From INITIALIZED, DISCONNECTED, RECONNECTING or FAILED, and whatever the backend does,
-- `init_proxy` raises no error of the state machine. An exception of the listing or of the adding of
-- devices, without a callback, and an exception of the backend's `init` that is no
-- `BaseHomematicException`, with one, is raised and leaves the client CONNECTING. Otherwise
-- `init_proxy` succeeds and leaves the client CONNECTED with no failure remembered, or fails and
-- leaves it FAILED with a failure reason.
pub init_proxy-Connects :
    (w : World) (c : InterfaceClient)
    → CanConnect (state_of c)
    → Connects c.reconnect_attempts (escapes c.rpc_callback w) (init_proxy w c)
unfolding init_proxy
init_proxy-Connects w c h = rw (go_connecting c h) (
    ground (
      arith,
      init_with_callback-Connects w (moved connecting c) refl,
      init_without_callback-Connects w (moved connecting c) refl,
    ))
