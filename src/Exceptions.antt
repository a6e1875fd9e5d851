-- ===== src/Exceptions.antt =====
-- aiohomematic/exceptions.py and aiohomematic/client/_rpc_errors.py: the classes of exceptions, and
-- the failure reason that one stands for.
use Prim.Native.Nat.{ℕ}
use mathlib.Core.Bool.{Bool, true, false}
use aiohomematic.Const.{FailureReason}

-- The classes under `BaseHomematicException` and the foreign ones that the code tells apart. A
-- fault of XML-RPC carries its code: whether it is negative, and the absolute value.
pub data Kind : Type 0 where
  client_exception unsupported validation no_connection circuit_breaker_open no_clients : Kind
  auth_failure aio_homematic aio_homematic_config internal_backend command_superseded : Kind
  description_not_found : Kind
  timeout_error : Kind
  xml_rpc_fault : Bool → ℕ → Kind
  other : Kind

-- An exception with the chain of its `__cause__`s.
pub data Exc : Type 0 where
  raised : Kind → Exc
  raised_from : Kind → Exc → Exc

abbrev pub kind : Exc → Kind
kind (raised k) = k
kind (raised_from k cause) = k

-- `isinstance(exc, BaseHomematicException)`
abbrev pub is_homematic : Kind → Bool
is_homematic timeout_error = false
is_homematic (xml_rpc_fault negative code) = false
is_homematic other = false
is_homematic _ = true

unfoldable pub exception_to_failure_reason : Exc → FailureReason
exception_to_failure_reason exc = elim (kind exc) [
  | auth_failure ↦ FailureReason.auth
  | no_connection ↦ FailureReason.network
  | internal_backend ↦ FailureReason.internal
  | circuit_breaker_open ↦ FailureReason.circuit_breaker
  | timeout_error ↦ FailureReason.timeout
  | _ ↦ FailureReason.unknown
]
