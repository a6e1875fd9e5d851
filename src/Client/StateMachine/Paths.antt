-- ===== src/Client/StateMachine/Paths.antt =====
-- Which states can still be reached.
use aiohomematic.Prelude.{◌≡◌, ◌≢◌, List, [], ◌∷◌, arith}
use aiohomematic.Const.{
  ClientState, created, initializing, initialized, connecting, connected, disconnected,
  reconnecting, stopping, stopped, failed, FailureReason,
}
use aiohomematic.Client.StateMachine.{ClientStateMachine, Attempt, attempt, run}

abbrev pub to : ClientState → Attempt
to s = record { target = s; reason = ""; failure_reason = FailureReason.unknown }

-- A history that connects a machine, and one that stops it.
abbrev pub connecting_route : ClientState → List Attempt
connecting_route created = to initializing ∷ to initialized ∷ to connecting ∷ to connected ∷ []
connecting_route initializing = to initialized ∷ to connecting ∷ to connected ∷ []
connecting_route connecting = to connected ∷ []
connecting_route reconnecting = to connected ∷ []
connecting_route connected = []
connecting_route _ = to connecting ∷ to connected ∷ []

abbrev pub stopping_route : ClientState → List Attempt
stopping_route stopped = []
stopping_route stopping = to stopped ∷ []
stopping_route connected = to stopping ∷ to stopped ∷ []
stopping_route disconnected = to stopping ∷ to stopped ∷ []
stopping_route created =
    to initializing ∷ to failed ∷ to disconnected ∷ to stopping ∷ to stopped ∷ []
stopping_route initializing = to failed ∷ to disconnected ∷ to stopping ∷ to stopped ∷ []
stopping_route connecting = to connected ∷ to stopping ∷ to stopped ∷ []
stopping_route _ = to disconnected ∷ to stopping ∷ to stopped ∷ []

-- No state is a trap: from every state but STOPPING and STOPPED unforced transitions lead to
-- CONNECTED, and from every state they lead to STOPPED.
pub no_trap :
    (m : ClientStateMachine)
    → (m.state ≢ stopping
        → m.state ≢ stopped
        → (run (connecting_route m.state) m).0.state ≡ connected)
      × ((run (stopping_route m.state) m).0.state ≡ stopped)
unfolding run attempt
no_trap m = (λ a b. ground arith, ground arith)
