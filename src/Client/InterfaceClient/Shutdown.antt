-- ===== src/Client/InterfaceClient/Shutdown.antt =====
-- aiohomematic/client/interface_client.py: `InterfaceClient.stop`, and what keeps a client from
-- being stopped.
use aiohomematic.Client.InterfaceClient.Lifecycle.{
  CanConnect, moved, go_connecting, go_connected, go_failed,
}
use aiohomematic.Prelude.{
  ℕ, ltb, not, if◌then◌else◌, ◌≡◌, refl, true, Option, none, some, arith, Result, ok, err,
}
use aiohomematic.Const.{ClientState, connecting, connected, disconnected, stopping, stopped, failed}
use aiohomematic.Exceptions.{Exc, kind, is_homematic, exception_to_failure_reason}
use aiohomematic.Client.InterfaceClient.{
  InterfaceClient, Failure, refused, foreign, raise, state_of, World, ProxyInitState, init_failed,
  transition_to, deinit_proxy, init_proxy, init_success, de_init_failed, de_init_success,
  de_init_skipped, set_modified_at, init_broken, init_succeeded, init_with_callback,
  receive_callback, mark_all_devices_forced_availability, Method, go_to, ◌>>=◌, ◌>>◌,
}

unfoldable pub stop : Method (Unit {0})
stop = do go_to stopping "stop() called"; go_to stopped "services stopped"

-- What `ClientCoordinator.stop_clients` does with each client: de-initialize it, then stop it.
unfoldable pub shut_down : Option Exc → Method (Unit {0})
unfolding deinit_proxy stop
shut_down failure = do _ ← deinit_proxy failure; stop

-- Where a client can be stopped from.
abbrev pub CanStop : ClientState → Type 0
CanStop connected = Unit
CanStop disconnected = Unit
CanStop _ = ⊥

abbrev pub Stops : InterfaceClient → Result Failure (Unit {0}) × InterfaceClient → Type 0
Stops c (ok u, c') = CanStop (state_of c) × (state_of c' ≡ stopped)
Stops c (err (foreign exc), c') = ⊥
Stops c (err (refused e), c') =
    (¬ CanStop (state_of c)) × (c' ≡ c) × (e.current ≡ state_of c) × (e.target ≡ stopping)

-- `stop` succeeds exactly from CONNECTED and DISCONNECTED, and then leaves the client STOPPED. From
-- any other state it raises the refused transition to STOPPING and changes nothing.
pub stop-Stops : (c : InterfaceClient) → Stops c (stop c)
unfolding stop transition_to
stop-Stops c = ground arith

-- A failed initialization of an interface with a callback forgets when the client was last heard of.
abbrev Forgets : Result Failure ProxyInitState × InterfaceClient → Type 0
Forgets (ok init_failed, c) = (state_of c ≡ failed) × (c.modified_at ≡ 0) × (c.rpc_callback ≡ true)
Forgets _ = Unit

init_broken-Forgets :
    (exc : Exc) (c : InterfaceClient)
    → state_of c ≡ connecting
    → c.rpc_callback ≡ true
    → Forgets (init_broken exc c)
unfolding init_broken mark_all_devices_forced_availability
init_broken-Forgets exc c h cb = ground (
  arith,
  go_failed "proxy init failed" (exception_to_failure_reason exc) (set_modified_at 0 0 c) h,
)

init_succeeded-Forgets :
    (w : World) (c : InterfaceClient) → state_of c ≡ connecting → Forgets (init_succeeded w c)
unfolding init_succeeded
init_succeeded-Forgets w c h = ground (arith, go_connected "proxy initialized" c h)

init_with_callback-Forgets :
    (w : World) (c : InterfaceClient)
    → state_of c ≡ connecting
    → c.rpc_callback ≡ true
    → Forgets (init_with_callback w c)
unfolding init_with_callback receive_callback
init_with_callback-Forgets w c h cb = called w.callback_at w.failure
  where
    called :
        (at : Option (ℕ × ℕ)) (failure : Option Exc)
        → Forgets (
            let c' = receive_callback at c in
            elim failure [
              | none ↦ init_succeeded w c'
              | some exc ↦
                  if not (is_homematic (kind exc))
                  then raise exc c'
                  else (if ltb c.modified_at c'.modified_at
                      then init_succeeded w c'
                      else init_broken exc c')
            ])
    called none none = init_succeeded-Forgets w c h
    called (some (t, m)) none = init_succeeded-Forgets w (set_modified_at t m c) h
    called none (some exc) =
        ground (arith, init_succeeded-Forgets w c h, init_broken-Forgets exc c h cb)
    called (some (t, m)) (some exc) = ground (
      arith,
      init_succeeded-Forgets w (set_modified_at t m c) h,
      init_broken-Forgets exc (set_modified_at t m c) h cb,
    )

init_proxy-Forgets :
    (w : World) (c : InterfaceClient)
    → CanConnect (state_of c)
    → c.rpc_callback ≡ true
    → Forgets (init_proxy w c)
unfolding init_proxy
init_proxy-Forgets w c h cb =
    rw (go_connecting c h)
      (ground (arith, init_with_callback-Forgets w (moved connecting c) refl cb))

shut_down_forgotten :
    (failure : Option Exc) (c : InterfaceClient)
    → state_of c ≡ failed
    → c.modified_at ≡ 0
    → c.rpc_callback ≡ true
    → shut_down failure c ≡ (
      err (
          refused (record {
            current = failed;
            target = stopping;
            interface_id = c.machine.interface_id;
          })),
      c,
    )
unfolding shut_down deinit_proxy stop transition_to
shut_down_forgotten failure c s m cb = ground arith

-- The transition from FAILED to STOPPING was refused.
abbrev pub Refused : Result Failure (Unit {0}) × InterfaceClient → Type 0
Refused (ok u, c) = ⊥
Refused (err (foreign exc), c) = ⊥
Refused (err (refused e), c) = (e.current ≡ failed) × (e.target ≡ stopping) × (state_of c ≡ failed)

-- A client with a callback whose initialization has failed cannot be shut down: de-initializing is
-- skipped, whatever the backend would do, and `stop` raises the refused transition from FAILED to
-- STOPPING, so the client stays FAILED.
pub failed_init-shut_down :
    (failure : Option Exc) (w : World) (c : InterfaceClient)
    → CanConnect (state_of c)
    → c.rpc_callback ≡ true
    → (init_proxy w c).0 ≡ ok init_failed
    → Refused (shut_down failure (init_proxy w c).1)
failed_init-shut_down failure w c h cb e = blocked (init_proxy w c) e (init_proxy-Forgets w c h cb)
  where
    blocked :
        (r : Result Failure ProxyInitState × InterfaceClient)
        → r.0 ≡ ok init_failed
        → Forgets r
        → Refused (shut_down failure r.1)
    blocked (ok init_failed, c') e f =
        rw (shut_down_forgotten failure c' f.0 f.1 f.2) (refl, refl, f.0)
    blocked (ok init_success, c') e f = cc
    blocked (ok de_init_failed, c') e f = cc
    blocked (ok de_init_success, c') e f = cc
    blocked (ok de_init_skipped, c') e f = cc
    blocked (err x, c') e f = cc
