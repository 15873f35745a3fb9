-- ===== src/Ports/Allocation.antt =====
-- What an allocation leaves in the file.
use auspex.Prelude.{
  ℕ, ◌≤◌, ◌≡◌, ◌⊎◌, inl, inr, refl, String, Bool, false, not, Option, none, some, List, [], ◌∷◌,
  ◌++◌, ◌==◌, if◌then◌else◌, find, retain, Result, ok, err, arith, Bool-cases, Result-cases,
}
use auspex.Ports.{
  LocalAgentPortReservation, LocalAgentPortState, addr_not_available, allocate_local_agent_port,
  has_port, not_written, put_instance_id, reserve, state_or_default,
}
use auspex.Ports.Choice.{IsChosen, choose_next_port_cases}

abbrev pub reservation_of : ℕ → LocalAgentPortState → Option LocalAgentPortReservation
reservation_of port state = find (has_port port) state.reservations

find-reserve :
    (port : ℕ) (r : LocalAgentPortReservation) (rs : List LocalAgentPortReservation) (q : ℕ)
    → r.port ≡ port
    → find (has_port q) (retain (λ x. not (has_port port x)) rs ++ r ∷ [])
      ≡ (if port == q then some r else find (has_port q) rs)
find-reserve port r [] q h = ground arith
find-reserve port r (x ∷ rs) q h = ground (arith, find-reserve port r rs q h)

pub reservation_of-reserve :
    (port : ℕ) (label : Option String) (state : LocalAgentPortState) (q : ℕ)
    → reservation_of q (reserve port label state) ≡ (
        if port == q
        then some (record { port = port; instance_id = none; label = label })
        else reservation_of q state)
unfolding reserve
reservation_of-reserve port label state q =
    find-reserve port (record { port = port; instance_id = none; label = label }) state.reservations
      q refl

-- What the file says after an allocation of `p` for `label`: `p` is reserved for `label` and for no
-- instance yet, and every other port is reserved as it was.
pub record IsReserved (p : ℕ) (label : Option String) (old new : LocalAgentPortState) : Type 0 where
  pub last : new.last_allocated ≡ some p
  pub reserved :
      (q : ℕ)
      → reservation_of q new ≡ (
          if p == q
          then some (record { port = p; instance_id = none; label = label })
          else reservation_of q old)

reserve-IsReserved :
    (p : ℕ) (label : Option String) (old : LocalAgentPortState)
    → IsReserved p label old (reserve p label old)
unfolding reserve
reserve-IsReserved p label old = record {
  last = refl;
  reserved = reservation_of-reserve p label old;
}

-- Every allocation ends in one of three ways, whatever the operating system and the file system
-- answer. A port is allocated that is available, from 7900 to 7999, and is not that of the last
-- allocation when another is available; the file then says that this port is reserved for the label,
-- and reserves every other port as before (an unreadable file counts as one without reservations).
-- Or no port of the range is available. Or the file cannot be written.
pub allocate_local_agent_port_cases :
    (is_available : ℕ → Bool) (write : LocalAgentPortState → Result String (Unit {0}))
    (label : Option String) (file : Option LocalAgentPortState)
    → let result = allocate_local_agent_port is_available write label file in
      let old = state_or_default file in
      ((p : ℕ) × (new : LocalAgentPortState) × (result ≡ ok (p, new))
        × IsChosen is_available old.last_allocated p
        × IsReserved p label old new)
      ⊎ ((result ≡ err addr_not_available)
          × ((q : ℕ) → 7900 ≤ q → q ≤ 7999 → is_available q ≡ false))
      ⊎ ((p : ℕ) × (e : String) × (result ≡ err (not_written e))
          × (write (reserve p label old) ≡ err e))
unfolding allocate_local_agent_port
allocate_local_agent_port_cases is_available write label file =
    let old = state_or_default file in
    elim (choose_next_port_cases is_available old) [
      | inr (e, taken) ↦ inr (inl (rw e refl, taken))
      | inl (p, e, chosen) ↦ elim (Result-cases (write (reserve p label old))) [
        | inl (u, written) ↦
            inl
              (p, reserve p label old, rw (e, written) refl, chosen, reserve-IsReserved p label old)
        | inr (x, failed) ↦ inr (inr (p, x, rw (e, failed) refl, failed))
      ]
    ]

find-put_instance_id :
    (port : ℕ) (id : String) (rs : List LocalAgentPortReservation) (q : ℕ)
    → (port == q) ≡ false
    → find (has_port q) (put_instance_id port id rs) ≡ find (has_port q) rs
unfolding put_instance_id
find-put_instance_id port id [] q h = ground arith
find-put_instance_id port id (r ∷ rs) q h = ground (arith, find-put_instance_id port id rs q h)

find-put_instance_id-same :
    (port : ℕ) (id : String) (rs : List LocalAgentPortReservation)
    → find (has_port port) (put_instance_id port id rs) ≡ elim (find (has_port port) rs) [
      | some r ↦ some (record r { instance_id = some id })
      | none ↦ some (record { port = port; instance_id = some id; label = none })
    ]
unfolding put_instance_id
find-put_instance_id-same port id [] = ground arith
find-put_instance_id-same port id (r ∷ rs) = elim (Bool-cases (has_port port r)) [
  | inl same ↦ rw (same, same) refl
  | inr other ↦ rw (other, other) (find-put_instance_id-same port id rs)
]
