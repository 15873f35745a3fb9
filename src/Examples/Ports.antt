-- ===== src/Examples/Ports.antt =====
-- The allocation of ports at concrete inputs.
use auspex.Prelude.{
  ℕ, ◌≤◌, ◌≡◌, ◌⊎◌, refl, String, Bool, not, Option, none, some, [], ◌∷◌, ◌==◌, Result, ok, err,
}
use auspex.Ports.{
  LocalAgentPortState, addr_not_available, allocate_local_agent_port, not_written, reserve,
  state_or_default,
}
use auspex.Ports.Choice.{IsChosen}
use auspex.Ports.Allocation.{IsReserved, allocate_local_agent_port_cases}

-- Port 7903 is taken, and 7902 was the last.
abbrev is_available : ℕ → Bool
is_available port = not (port == 7903)

abbrev write_ok : LocalAgentPortState → Result String (Unit {0})
write_ok state = ok tt

abbrev ports_file : Option LocalAgentPortState
ports_file = some (record {
  last_allocated = some 7902;
  reservations = record { port = 7902; instance_id = some "a"; label = some "first" } ∷ [];
})

abbrev two_ports : LocalAgentPortState
two_ports = record {
  last_allocated = some 7904;
  reservations =
      record { port = 7902; instance_id = some "a"; label = some "first" }
      ∷ record { port = 7904; instance_id = none; label = some "second" }
      ∷ [];
}

skips_taken :
    allocate_local_agent_port is_available write_ok (some "second") ports_file
    ≡ ok (7904, two_ports)
unfolding allocate_local_agent_port
skips_taken = refl

allocate_local_agent_port_cases_example :
    let result = allocate_local_agent_port is_available write_ok (some "second") ports_file in
    let old = state_or_default ports_file in
    ((p : ℕ) × (new : LocalAgentPortState) × (result ≡ ok (p, new))
      × IsChosen is_available old.last_allocated p
      × IsReserved p (some "second") old new)
    ⊎ ((result ≡ err addr_not_available)
        × ((q : ℕ) → 7900 ≤ q → q ≤ 7999 → is_available q ≡ Bool.false))
    ⊎ ((p : ℕ) × (e : String) × (result ≡ err (not_written e))
        × (write_ok (reserve p (some "second") old) ≡ err e))
allocate_local_agent_port_cases_example =
    allocate_local_agent_port_cases is_available write_ok (some "second") ports_file
