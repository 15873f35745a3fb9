-- ===== src/Ports.antt =====
-- The ports of local agents: auspex-core/src/local_agent_ports.rs. The file of the state is what was
-- read of it (nothing, when it cannot be read or parsed) and what is written to it.
use auspex.Prelude.{
  ℕ, zero, suc, ◌+◌, ◌-◌, String, Bool, not, ◌&&◌, Option, none, some, List, [], ◌∷◌, ◌++◌, ltb,
  leb, ◌==◌, if◌then◌else◌, find, retain, Result, ok, err, ok_or, and_then, map_err,
}
pub mod Choice
pub mod Allocation

abbrev pub local_agent_port_start : ℕ
local_agent_port_start = 7900

abbrev pub local_agent_port_end : ℕ
local_agent_port_end = 7999

pub record LocalAgentPortReservation : Type 0 where
  pub port : ℕ
  pub instance_id : Option String
  pub label : Option String

pub record LocalAgentPortState : Type 0 where
  pub last_allocated : Option ℕ
  pub reservations : List LocalAgentPortReservation

-- `LocalAgentPortState::default`
abbrev pub no_ports : LocalAgentPortState
no_ports = record { last_allocated = none; reservations = [] }

pub data PortError : Type 0 where
  addr_not_available : PortError
  not_written : String → PortError

-- The `n` numbers from `a` on
abbrev pub range_from : ℕ → ℕ → List ℕ
range_from a zero = []
range_from a (suc n) = a ∷ range_from (a + 1) n

unfoldable pub start_after : Option ℕ → ℕ
start_after none = local_agent_port_start
start_after (some port) =
    if leb local_agent_port_start port && ltb port local_agent_port_end
    then port + 1
    else local_agent_port_start

-- `(start..=END).chain(START..start)`
unfoldable pub monotonic_port_candidates : Option ℕ → List ℕ
unfolding start_after
monotonic_port_candidates last_allocated =
    let start = start_after last_allocated in
    range_from start (local_agent_port_end + 1 - start)
    ++ range_from local_agent_port_start (start - local_agent_port_start)

-- `is_available` is what the operating system answers to a bind of a port.
unfoldable pub choose_next_port : (ℕ → Bool) → LocalAgentPortState → Result PortError ℕ
unfolding monotonic_port_candidates
choose_next_port is_available state =
    ok_or (find is_available (monotonic_port_candidates state.last_allocated)) addr_not_available

abbrev pub has_port : ℕ → LocalAgentPortReservation → Bool
has_port port reservation = reservation.port == port

abbrev pub state_or_default : Option LocalAgentPortState → LocalAgentPortState
state_or_default none = no_ports
state_or_default (some state) = state

unfoldable pub reserve : ℕ → Option String → LocalAgentPortState → LocalAgentPortState
reserve port label state = record {
  last_allocated = some port;
  reservations =
      retain (λ r. not (has_port port r)) state.reservations
      ++ record { port = port; instance_id = none; label = label } ∷ [];
}

-- The port, and the state that is in the file; `write` is what the file system answers.
unfoldable pub allocate_local_agent_port :
    (ℕ → Bool)
    → (LocalAgentPortState → Result String (Unit {0}))
    → Option String
    → Option LocalAgentPortState
    → Result PortError (ℕ × LocalAgentPortState)
unfolding choose_next_port reserve
allocate_local_agent_port is_available write label file =
    let state = state_or_default file in
    and_then (choose_next_port is_available state) λ port.
      let reserved = reserve port label state in
      and_then (map_err not_written (write reserved)) λ _. ok (port, reserved)

unfoldable pub put_instance_id :
    ℕ → String → List LocalAgentPortReservation → List LocalAgentPortReservation
put_instance_id port id [] = record { port = port; instance_id = some id; label = none } ∷ []
put_instance_id port id (r ∷ rs) =
    let rest = put_instance_id port id rs in
    if has_port port r then (record r { instance_id = some id }) ∷ rs else r ∷ rest

unfoldable pub record_local_agent_port_instance :
    (LocalAgentPortState → Result String (Unit {0}))
    → ℕ
    → String
    → Option LocalAgentPortState
    → Result PortError LocalAgentPortState
unfolding put_instance_id
record_local_agent_port_instance write port id file =
    let state = state_or_default file in
    let recorded = record state { reservations = put_instance_id port id state.reservations } in
    and_then (map_err not_written (write recorded)) λ _. ok recorded
