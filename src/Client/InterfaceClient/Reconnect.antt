-- ===== src/Client/InterfaceClient/Reconnect.antt =====
-- aiohomematic/client/interface_client.py: `InterfaceClient.reconnect`.
use aiohomematic.Prelude.{
  ℕ, ◌+◌, ◌≡◌, refl, ◌⊎◌, inl, inr, Bool, true, false, not, ◌&&◌, subst, sym, Option, none, some,
  List, [], ◌∷◌, arith, Result, ok, err, Bool-cases, map, if◌then◌else◌,
}
use aiohomematic.Prelude.Lists.{All}
use aiohomematic.Prelude.Dict.{◌==◌, nat_eq}
use aiohomematic.Const.{
  ClientState-eq, initialized, connecting, connected, disconnected, reconnecting, failed,
}
use aiohomematic.Exceptions.{Exc}
use aiohomematic.Client.CircuitBreaker.{CircuitBreaker, closed, reset}
use aiohomematic.Client.StateMachine.{can_reconnect}
use aiohomematic.Client.InterfaceClient.{
  InterfaceClient, Failure, refused, foreign, state_of, proceed, transition_to, go_to, World,
  ProxyInitState, init_success, init_failed, deinit_proxy, init_proxy, reinit_proxy, de_init_failed,
  de_init_success, de_init_skipped, Method, return, modify, ◌>>=◌, ◌>>◌,
}
use aiohomematic.Client.InterfaceClient.Lifecycle.{
  foreign_of, escapes, CanConnect, Connects, moved, init_proxy-Connects,
}

abbrev pub is_init_success : ProxyInitState → Bool
is_init_success init_success = true
is_init_success _ = false

-- `reset_circuit_breakers` of the backend
abbrev pub reset_circuit_breakers : List CircuitBreaker → List CircuitBreaker
reset_circuit_breakers = map (λ b. (reset b).0)

-- the end of `reconnect` once the proxy is initialized again, or not
unfoldable pub after_reinit : Bool → Method Bool
after_reinit true = do
  modify (λ c. record c {
    circuit_breakers = reset_circuit_breakers c.circuit_breakers;
    reconnect_attempts = 0;
    connection_error_count = 0;
  })
  return true
after_reinit false = do
  modify (λ c. record c { reconnect_attempts = c.reconnect_attempts + 1 })
  return false

pub leave_initialized : Method (Unit {0})
leave_initialized c =
    if state_of c == initialized
    then go_to disconnected "recovery from initialized state" c
    else return tt c

-- `reconnect` from its second test on
pub try_reconnect : Option Exc → World → Method Bool
try_reconnect failure w c =
    if can_reconnect c.machine
    then (do go_to reconnecting ""; r ← reinit_proxy failure w; after_reinit (is_init_success r)) c
    else return false c

unfoldable pub reconnect : Option Exc → World → Method Bool
unfolding leave_initialized try_reconnect
reconnect failure w = do leave_initialized; try_reconnect failure w

-- The exception that `deinit_proxy` lets through, if any.
abbrev pub deinit_escapes : Option Exc → InterfaceClient → Option Exc
deinit_escapes failure c =
    if c.rpc_callback && not (c.modified_at == 0) then foreign_of failure else none

-- The first of two.
abbrev pub or_else : Option Exc → Option Exc → Option Exc
or_else none e = e
or_else (some exc) e = some exc

-- The exception that the two calls let through, if any.
abbrev pub reinit_escapes : Option Exc → World → InterfaceClient → Option Exc
reinit_escapes failure w c = or_else (deinit_escapes failure c) (escapes c.rpc_callback w)

-- `deinit_proxy` leaves a client from which a connection can be set up, or lets an exception through.
abbrev pub Disconnects :
    InterfaceClient → Option Exc → Result Failure ProxyInitState × InterfaceClient → Type 0
Disconnects c none (ok r, c') =
    CanConnect (state_of c')
    × (c'.reconnect_attempts ≡ c.reconnect_attempts)
    × (c'.rpc_callback ≡ c.rpc_callback)
Disconnects c none (err e, c') = ⊥
Disconnects c (some exc) r = r ≡ (err (foreign exc), c)

deinit_proxy-Disconnects :
    (failure : Option Exc) (c : InterfaceClient)
    → state_of c ≡ reconnecting
    → Disconnects c (deinit_escapes failure c) (deinit_proxy failure c)
unfolding deinit_proxy transition_to
deinit_proxy-Disconnects failure c h = ground arith

-- How the two calls end: as `init_proxy` does, or with the exception that one lets through.
abbrev pub Reinits : ℕ → Option Exc → Result Failure ProxyInitState × InterfaceClient → Type 0
Reinits n none r = Connects n none r
Reinits n (some exc) (r, c) =
    (r ≡ err (foreign exc))
    × ((state_of c ≡ reconnecting) ⊎ (state_of c ≡ connecting))
    × (c.reconnect_attempts ≡ n)

Connects-Reinits :
    (n : ℕ) (e : Option Exc) (r : Result Failure ProxyInitState × InterfaceClient)
    → Connects n e r
    → Reinits n e r
Connects-Reinits n none r h = h
Connects-Reinits n (some exc) (r, c) h = (h.0, inr h.1, h.2)

reinit_proxy-Reinits :
    (failure : Option Exc) (w : World) (c : InterfaceClient)
    → state_of c ≡ reconnecting
    → Reinits c.reconnect_attempts (reinit_escapes failure w c) (reinit_proxy failure w c)
unfolding reinit_proxy
reinit_proxy-Reinits failure w c h =
    continue (deinit_escapes failure c) (deinit_proxy failure c)
      (deinit_proxy-Disconnects failure c h)
  where
    continue :
        (d : Option Exc) (r : Result Failure ProxyInitState × InterfaceClient)
        → Disconnects c d r
        → Reinits c.reconnect_attempts
            (or_else d (escapes c.rpc_callback w))
            (proceed r (λ _. init_proxy w))
    continue none (ok r, c') (h', same, cb) =
        Connects-Reinits c.reconnect_attempts (escapes c.rpc_callback w) (init_proxy w c') (
          subst (λ n. Connects n (escapes c.rpc_callback w) (init_proxy w c')) same
            (subst (λ b. Connects c'.reconnect_attempts (escapes b w) (init_proxy w c')) cb
              (init_proxy-Connects w c' h')))
    continue none (err e, c') h' = absurd h'
    continue (some exc) r h' =
        subst
          (λ q.
            Reinits c.reconnect_attempts (some exc)
              (proceed q (λ (_ : ProxyInitState). init_proxy w)))
          (sym h') (refl, inl h, refl)

-- All breakers of the client are closed (`all_circuit_breakers_closed`).
abbrev pub AreClosed : List CircuitBreaker → Type 0
AreClosed = All (λ b. b.state ≡ closed)

reset_circuit_breakers-AreClosed :
    (bs : List CircuitBreaker) → AreClosed (reset_circuit_breakers bs)
unfolding reset
reset_circuit_breakers-AreClosed [] = tt
reset_circuit_breakers-AreClosed (b ∷ bs) = (refl, reset_circuit_breakers-AreClosed bs)

-- How `reconnect` ends for a client, with the exception that its calls let through.
abbrev pub Reconnects :
    InterfaceClient → Option Exc → Result Failure Bool × InterfaceClient → Type 0
Reconnects c e (ok true, c') =
    (e ≡ none)
    × (state_of c' ≡ connected)
    × AreClosed c'.circuit_breakers
    × (c'.reconnect_attempts ≡ 0)
    × (c'.connection_error_count ≡ 0)
Reconnects c e (ok false, c') =
    ((e ≡ none) × (state_of c' ≡ failed) × (c'.reconnect_attempts ≡ c.reconnect_attempts + 1))
    ⊎ (c' ≡ c)
Reconnects c e (err (foreign exc), c') =
    (e ≡ some exc)
    × ((state_of c' ≡ reconnecting) ⊎ (state_of c' ≡ connecting))
    × (c'.reconnect_attempts ≡ c.reconnect_attempts)
Reconnects c e (err (refused _), c') = ⊥

after_reinit-Reconnects :
    (c : InterfaceClient) (e : Option Exc) (r : Result Failure ProxyInitState × InterfaceClient)
    → Reinits c.reconnect_attempts e r
    → Reconnects c e (proceed r (λ p. after_reinit (is_init_success p)))
unfolding after_reinit
after_reinit-Reconnects c none (ok init_success, c') h =
    (refl, h.0, reset_circuit_breakers-AreClosed c'.circuit_breakers, refl, refl)
after_reinit-Reconnects c none (ok init_failed, c') h = inl (refl, h.0, rw h.2)
after_reinit-Reconnects c none (ok de_init_failed, c') h = absurd h
after_reinit-Reconnects c none (ok de_init_success, c') h = absurd h
after_reinit-Reconnects c none (ok de_init_skipped, c') h = absurd h
after_reinit-Reconnects c none (err e, c') h = absurd h
after_reinit-Reconnects c (some exc) (r, c') h =
    subst
      (λ q.
        Reconnects c (some exc)
          (proceed (q, c') (λ (p : ProxyInitState). after_reinit (is_init_success p))))
      (sym h.0) (refl, h.1, h.2)

go_reconnecting :
    (c : InterfaceClient)
    → can_reconnect c.machine ≡ true
    → go_to reconnecting "" c ≡ (ok tt, moved reconnecting c)
unfolding transition_to can_reconnect
go_reconnecting c h = ground arith

try_reconnect-Reconnects :
    (failure : Option Exc) (w : World) (c : InterfaceClient)
    → Reconnects c (reinit_escapes failure w c) (try_reconnect failure w c)
unfolding try_reconnect
try_reconnect-Reconnects failure w c = elim (Bool-cases (can_reconnect c.machine)) [
  | inl can ↦
      rw (can, go_reconnecting c can)
        (after_reinit-Reconnects c (reinit_escapes failure w c) _
          (reinit_proxy-Reinits failure w (moved reconnecting c) refl))
  | inr cannot ↦ rw cannot (inr refl)
]

go_disconnected_initialized :
    (c : InterfaceClient)
    → state_of c ≡ initialized
    → go_to disconnected "recovery from initialized state" c ≡ (ok tt, moved disconnected c)
unfolding transition_to
go_disconnected_initialized c h = ground arith

-- Whatever the state of the client and whatever the backend does, `reconnect` raises no error of the
-- state machine. If it answers yes, the client is CONNECTED, all its circuit breakers are closed and
-- its counters of attempts and errors are 0. If it answers no, either the client is FAILED and one
-- more attempt is counted, or nothing at all has changed. If it raises, the exception is the first
-- that its calls let through (of the backend's `deinit`, which is called for an interface with a
-- callback that was heard of, of the listing or adding of devices for one without, and of the
-- backend's `init` for one with, those of `deinit` and `init` being no `BaseHomematicException`), and
-- the client is left RECONNECTING or CONNECTING with no attempt counted. If they let one through, it
-- raises that or changes nothing.
pub reconnect-Reconnects :
    (failure : Option Exc) (w : World) (c : InterfaceClient)
    → Reconnects c (reinit_escapes failure w c) (reconnect failure w c)
unfolding reconnect leave_initialized
reconnect-Reconnects failure w c = elim (Bool-cases (state_of c == initialized)) [
  | inl at_start ↦
      rw (at_start, go_disconnected_initialized c ((ClientState-eq.equal_iff _ _).0 at_start))
        (from_disconnected (moved disconnected c) refl refl refl)
  | inr later ↦ rw later (try_reconnect-Reconnects failure w c)
]
  where
    from_disconnected :
        (c' : InterfaceClient)
        → state_of c' ≡ disconnected
        → c'.reconnect_attempts ≡ c.reconnect_attempts
        → reinit_escapes failure w c' ≡ reinit_escapes failure w c
        → Reconnects c (reinit_escapes failure w c) (try_reconnect failure w c')
    from_disconnected c' h same e =
        let can : can_reconnect c'.machine ≡ true = unfold can_reconnect in (ground arith) in
        unfold try_reconnect in
        (rw (can, go_reconnecting c' can)
          (after_reinit-Reconnects c (reinit_escapes failure w c) _ (
            subst
              (λ n.
                Reinits n (reinit_escapes failure w c)
                  (reinit_proxy failure w (moved reconnecting c')))
              same
              (subst
                (λ x.
                  Reinits c'.reconnect_attempts x (reinit_proxy failure w (moved reconnecting c')))
                e (reinit_proxy-Reinits failure w (moved reconnecting c') refl)))))
