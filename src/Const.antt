-- ===== src/Const.antt =====
-- aiohomematic/const.py: the enumerations that several components share.
use Prim.Native.Nat.{ℕ}
use mathlib.Core.Path.{◌≡◌}
use mathlib.Core.Logic.{◌↔◌}
use mathlib.Core.Bool.{Bool, true, false}
use native.Mathlib.Omega.{arith}
use aiohomematic.Prelude.Tests.{eqb}
use aiohomematic.Prelude.Dict.{Hashable}

pub data ClientState : Type 0 where
  created initializing initialized connecting connected : ClientState
  disconnected reconnecting stopping stopped failed : ClientState

-- The position in the enumeration, by which members are compared.
abbrev pub client_index : ClientState → ℕ
client_index created = 0
client_index initializing = 1
client_index initialized = 2
client_index connecting = 3
client_index connected = 4
client_index disconnected = 5
client_index reconnecting = 6
client_index stopping = 7
client_index stopped = 8
client_index failed = 9

pub client_index_iff :
    (s t : ClientState) → (eqb (client_index s) (client_index t) ≡ true) ↔ (s ≡ t)
client_index_iff s t = ground arith

instance abbrev pub ClientState-eq : Hashable ClientState
ClientState-eq = record {
  equal = λ s t. eqb (client_index s) (client_index t);
  equal_iff = client_index_iff;
}

pub data CentralState : Type 0 where
  starting initializing running degraded recovering failed stopped : CentralState

abbrev pub central_index : CentralState → ℕ
central_index starting = 0
central_index initializing = 1
central_index running = 2
central_index degraded = 3
central_index recovering = 4
central_index failed = 5
central_index stopped = 6

pub central_index_iff :
    (s t : CentralState) → (eqb (central_index s) (central_index t) ≡ true) ↔ (s ≡ t)
central_index_iff s t = ground arith

instance abbrev pub CentralState-eq : Hashable CentralState
CentralState-eq = record {
  equal = λ s t. eqb (central_index s) (central_index t);
  equal_iff = central_index_iff;
}

pub data FailureReason : Type 0 where
  none auth network internal timeout circuit_breaker unknown : FailureReason

abbrev pub is_failure : FailureReason → Bool
is_failure none = false
is_failure _ = true
