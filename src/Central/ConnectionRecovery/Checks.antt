-- ===== src/Central/ConnectionRecovery/Checks.antt =====
-- connection_recovery.py: what the stages check, `_stage_tcp_check`, `_check_rpc_available`,
-- `_stage_reconnect` and `_stage_data_load`. The sets of interfaces are of aiohomematic/const.py.
--
-- The network and the clients are arguments: what a look-up returns, none where it raises, and what
-- each attempt to connect answers. Times are milliseconds. The reset of a proxy's transport and the
-- refresh of the hub's data, which change nothing of the coordinator, are left out.
pub mod Waiting
use aiohomematic.Prelude.{
  ℕ, zero, suc, ◌+◌, ◌-◌, ◌*◌, ◌≡◌, ◌≤◌, ◌<◌, String, Bool, true, false, not, ◌&&◌, ◌||◌, Option,
  none, some, List, [], ◌∷◌, if◌then◌else◌, ltb, arith, is_some,
}
use aiohomematic.Prelude.Dict.{Hashable, contains, ◌==◌, string_eq}
use aiohomematic.Central.ConnectionRecovery.Stages.{Answer, passed, refused, raised}

pub data Interface : Type 0 where
  bidcos_rf bidcos_wired ccu_jack cuxd hmip_rf virtual_devices : Interface

-- `INTERFACES_REQUIRING_JSON_RPC_CLIENT - INTERFACES_REQUIRING_XML_RPC`
abbrev pub is_json_rpc_only : Interface → Bool
is_json_rpc_only ccu_jack = true
is_json_rpc_only cuxd = true
is_json_rpc_only _ = false

abbrev pub get_json_rpc_default_port : Bool → ℕ
get_json_rpc_default_port tls = if tls then 443 else 80

pub record InterfaceConfig : Type 0 where
  pub interface_id : String
  pub interface : Interface
  pub port : Option ℕ

-- The port that the configuration of the interface gives: the first entry with its name.
unfoldable pub configured_port : Bool → String → List InterfaceConfig → Option ℕ
configured_port tls iid [] = none
configured_port tls iid (x ∷ xs) =
    if x.interface_id == iid
    then (if is_json_rpc_only x.interface then some (get_json_rpc_default_port tls) else x.port)
    else configured_port tls iid xs

-- `x if x is not None else y`
abbrev pub or_else {ℓ} : {A : Type ℓ} → Option A → Option A → Option A
or_else none y = y
or_else (some a) y = some a

-- The port of the TCP check: of the client, of the configuration, or of the client's interface.
unfoldable pub select_port :
    Option ℕ → Option Interface → Bool → String → List InterfaceConfig → Option ℕ
unfolding configured_port
select_port client_port client_interface tls iid configs = or_else client_port (
    or_else (configured_port tls iid configs) (elim client_interface [
      | none ↦ none
      | some i ↦ if is_json_rpc_only i then some (get_json_rpc_default_port tls) else none
    ]))

-- One attempt to connect: whether it succeeds and how long it takes; a failure is followed by a sleep.
pub record Connection : Type 0 where
  pub connected : Bool
  pub duration : ℕ

abbrev pub tcp_interval : ℕ
tcp_interval = 2000

-- The loop of the TCP check on fuel, from the time that has elapsed; with the attempts made.
unfoldable pub wait_for_port : ℕ → (ℕ → Connection) → ℕ → ℕ → Option (Bool × ℕ)
wait_for_port zero w timeout elapsed = none
wait_for_port (suc n) w timeout elapsed =
    if ltb elapsed timeout
    then (if (w 0).connected
        then some (true, 1)
        else elim (wait_for_port n (λ k. w (suc k)) timeout
            (elapsed + (w 0).duration + tcp_interval)) [
              | none ↦ none
              | some r ↦ some (r.0, suc r.1)
            ])
    else some (false, 0)

-- The result of a check as the answer of its stage.
abbrev pub answer : Bool → Answer
answer true = passed
answer false = refused

-- `_stage_tcp_check`, with the attempts on fuel.
unfoldable pub stage_tcp_check : ℕ → (ℕ → Connection) → ℕ → Option ℕ → Option Bool
unfolding wait_for_port
stage_tcp_check fuel w timeout none = some false
stage_tcp_check fuel w timeout (some port) = elim (wait_for_port fuel w timeout 0) [
  | none ↦ none
  | some r ↦ some r.0
]

-- The XML-RPC proxy of a client: whether it has `system`, and the number of methods that it lists, none
-- where the call raises.
pub record Proxy : Type 0 where
  pub has_system : Bool
  pub list_methods : Option ℕ

-- A client that is looked up, with what its calls answer: `check_connection_availability`, none where
-- it raises; its proxy; whether `reconnect` returns and the client is available then; and whether
-- loading the data returns.
pub record Client : Type 0 where
  pub interface : Interface
  pub check_connection_availability : Option Bool
  pub proxy : Option Proxy
  pub reconnect : Bool
  pub available : Bool
  pub load_and_refresh : Bool

unfoldable pub check_rpc_available : Option Client → Bool
check_rpc_available none = false
check_rpc_available (some c) =
    if is_json_rpc_only c.interface
    then elim c.check_connection_availability [ none ↦ false | some b ↦ b ]
    else elim c.proxy [
      | none ↦ false
      | some p ↦ p.has_system && elim p.list_methods [ none ↦ false | some n ↦ ltb 0 n ]
    ]

-- Making a client that is not there: what `_create_client` answers, none where it raises, and the
-- client that the next look-up finds.
pub record Creation : Type 0 where
  pub create_client : Option Bool
  pub found : Option Client

unfoldable pub is_configured : String → List InterfaceConfig → Bool
is_configured iid [] = false
is_configured iid (x ∷ xs) = if x.interface_id == iid then true else is_configured iid xs

unfoldable pub stage_reconnect : Option Client → String → List InterfaceConfig → Creation → Bool
unfolding is_configured
stage_reconnect (some c) iid configs m = c.reconnect && c.available
stage_reconnect none iid configs m = is_configured iid configs && elim m.create_client [
  | some true ↦ elim m.found [ none ↦ false | some c ↦ c.available ]
  | _ ↦ false
]

unfoldable pub stage_data_load : Option Client → Bool
stage_data_load none = false
stage_data_load (some c) = c.load_and_refresh
