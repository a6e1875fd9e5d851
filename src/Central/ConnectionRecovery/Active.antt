-- ===== src/Central/ConnectionRecovery/Active.antt =====
-- The set of active recoveries: how an interface leaves it.
use Prim.Native.String.{◌++◌ as append}
use aiohomematic.Prelude.{String, Option, none, some}
use aiohomematic.Prelude.Dict.{string_eq}
use aiohomematic.Const as Const
use aiohomematic.Central.ConnectionRecovery.{ConnectionRecoveryCoordinator, Out}
use aiohomematic.Central.ConnectionRecovery.Retries.{Exit}

-- What holds of the coordinator that a recovery ends with.
abbrev Holds : (ConnectionRecoveryCoordinator → Type 0) → Option (Out × Exit) → Type 0
Holds P none = Unit
Holds P (some q) = P q.0.0
