-- ===== src/Client/InterfaceClient/Check.antt =====
-- aiohomematic/client/interface_client.py: `InterfaceClient.is_connected`.
use aiohomematic.Prelude.{
  ℕ, suc, zero, ◌+◌, ◌≡◌, refl, ◌&&◌, ◌||◌, not, Bool, false, Option, some, none, arith, ltb,
  if◌then◌else◌, Result, ok, err,
}
use aiohomematic.Prelude.Dict.{◌==◌}
use aiohomematic.Const.{ClientState-eq, connected, disconnected}
use aiohomematic.Exceptions.{Exc, kind, is_homematic}
use aiohomematic.Client.InterfaceClient.{
  raise, InterfaceClient, state_of, transition_to, Method, return, modify, go_to, set_modified_at,
  mark_all_devices_forced_availability, force_false, ◌>>◌,
}

-- The end of `is_connected` when the check has failed too often.
pub lose_connection : Method Bool
unfolding mark_all_devices_forced_availability
lose_connection = do
  modify (mark_all_devices_forced_availability force_false)
  λ c.
      if state_of c == connected
      then (do go_to disconnected "connection check failed"; return false) c
      else return false c

-- `check_connection_availability` and the count of errors in `is_connected`: the backend answered at
-- the given time, or did not.
pub count_check : Option (ℕ × ℕ) → InterfaceClient → InterfaceClient
count_check (some (t, monotonic)) c = record (set_modified_at t monotonic c) {
  connection_error_count = 0;
}
count_check none c = record (set_modified_at 0 0 c) {
  connection_error_count = c.connection_error_count + 1;
}

-- the answer of `is_connected` while the errors are few, at the reading `now` of the monotonic clock
is_lively : ℕ → InterfaceClient → Bool
is_lively now c =
    not c.push_updates
    || (not c.ping_pong
        || (ltb 0 c.modified_at_monotonic
            && ltb now (c.modified_at_monotonic + c.callback_warn_interval)))

-- `is_connected` behind the check
pub judge_check : Option (ℕ × ℕ) → ℕ → Method Bool
unfolding lose_connection count_check is_lively
judge_check answer now c =
    let c' = count_check answer c in
    if ltb c'.connectivity_error_threshold c'.connection_error_count
    then lose_connection c'
    else return (is_lively now c') c'

-- The backend answers, or not, or raises; a `BaseHomematicException` counts as no answer.
unfoldable pub is_connected : Result Exc (Option (ℕ × ℕ)) → ℕ → Method Bool
unfolding judge_check
is_connected (ok answer) now c = judge_check answer now c
is_connected (err exc) now c =
    if is_homematic (kind exc) then judge_check none now c else raise exc c

-- Consecutive failing checks of a connected client.
abbrev pub check : ℕ → ℕ → InterfaceClient → InterfaceClient
check zero now c = c
check (suc n) now c = check n now (is_connected (ok none) now c).1

check_once :
    (now n : ℕ) (c : InterfaceClient)
    → c.connection_error_count ≡ n
    → state_of c ≡ (if ltb c.connectivity_error_threshold n then disconnected else connected)
    → (state_of (is_connected (ok none) now c).1
        ≡ (if ltb c.connectivity_error_threshold (suc n) then disconnected else connected))
      × ((is_connected (ok none) now c).1.connection_error_count ≡ suc n)
      × ((is_connected (ok none) now c).1.connectivity_error_threshold
          ≡ c.connectivity_error_threshold)
unfolding is_connected judge_check lose_connection count_check transition_to
check_once now n c e s = ground arith

check_from :
    (m now n k : ℕ) (c : InterfaceClient)
    → c.connectivity_error_threshold ≡ k
    → c.connection_error_count ≡ n
    → state_of c ≡ (if ltb k n then disconnected else connected)
    → state_of (check m now c) ≡ (if ltb k (m + n) then disconnected else connected)
check_from zero now n k c t e s = ground arith
check_from (suc m) now n k c t e s =
    let (state, count, same) = check_once now n c e (ground arith) in
    let ih =
      check_from m now (suc n) k (is_connected (ok none) now c).1 (ground arith) count
        (ground arith) in
    ground (arith, ih)

-- A connected client without counted errors stays CONNECTED for as many failing checks as the
-- threshold allows, and is DISCONNECTED by the first one beyond it.
pub check-disconnects :
    (m now : ℕ) (c : InterfaceClient)
    → state_of c ≡ connected
    → c.connection_error_count ≡ 0
    → state_of (check m now c)
      ≡ (if ltb c.connectivity_error_threshold m then disconnected else connected)
check-disconnects m now c s e =
    let from = check_from m now 0 c.connectivity_error_threshold c refl e (ground arith) in
    ground (arith, from)
