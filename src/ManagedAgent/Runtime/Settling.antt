-- ===== src/ManagedAgent/Runtime/Settling.antt =====
-- What an acknowledgement, a receipt and an answer do to a command that is settled, and to one that
-- is not.
use auspex.Prelude.{
  ◌≡◌, refl, ◌⊎◌, inl, inr, ap, true, false, some, ok, ◌>>=◌, arith, Option-cases, Bool-cases,
  Result-cases, ◌∙◌,
}
use auspex.Prelude.Maps.{
  get, insert, get-insert, insert-IsSortedFrom, IsSortedFrom, insert-get_self,
}
use auspex.ManagedAgent.Contract.{ControlCommandReceipt, ManagedAgentCommandAck, validate_ack}
use auspex.ManagedAgent.Runtime.{PendingManagedCommand, SupervisorRuntime, is_unsettled}
use auspex.ManagedAgent.Runtime.Delivery.{
  apply_receipt, apply_command_ack, is_other_command, ack_state, receipt_state,
}
use auspex.ManagedAgent.Runtime.Coherence.{IsCoherent}

module _ {V : Type 0} where
  unsettling :
      (ack : ManagedAgentCommandAck) (s : SupervisorRuntime V)
      → ((apply_command_ack ack s).1 ≡ s)
        ⊎ ((p : PendingManagedCommand V) × (validate_ack ack ≡ ok tt)
            × (get ack.command_id s.commands ≡ some p)
            × (is_other_command p ack ≡ false)
            × (is_unsettled p.state ≡ true))
  unfolding apply_command_ack
  unsettling ack s = elim (Result-cases (validate_ack ack)) [
    | inr (x, invalid) ↦ inl (rw (apply_command_ack, ◌>>=◌, invalid) refl)
    | inl (_, valid) ↦ elim (Option-cases (get ack.command_id s.commands)) [
      | inl missing ↦ inl (rw (apply_command_ack, ◌>>=◌, valid, missing) refl)
      | inr (p, found) ↦ elim (Bool-cases (is_other_command p ack)) [
        | inl other ↦ inl (rw (apply_command_ack, ◌>>=◌, valid, found, other) refl)
        | inr same ↦ elim (Bool-cases (is_unsettled p.state)) [
          | inr settled ↦ inl (rw (apply_command_ack, ◌>>=◌, valid, found, same, settled) refl)
          | inl waits ↦ inr (p, valid, found, same, waits)
        ]
      ]
    ]
  ]

  -- What an acknowledgement writes.
  abbrev acknowledged : ManagedAgentCommandAck → PendingManagedCommand V → PendingManagedCommand V
  acknowledged ack p = record p { state = ack_state ack.status ack.rejection p.state }

  settling :
      (p : PendingManagedCommand V) (ack : ManagedAgentCommandAck) (s : SupervisorRuntime V)
      → validate_ack ack ≡ ok tt
      → get ack.command_id s.commands ≡ some p
      → is_other_command p ack ≡ false
      → is_unsettled p.state ≡ true
      → apply_command_ack ack s ≡ (
        ok ack.command_id,
        record s { commands = insert ack.command_id (acknowledged ack p) s.commands },
      )
  unfolding apply_command_ack
  settling p ack s valid found same waits =
      rw (apply_command_ack, ◌>>=◌, valid, found, same, waits) refl

  acknowledged-acknowledged :
      (ack : ManagedAgentCommandAck) (p : PendingManagedCommand V)
      → acknowledged ack (acknowledged ack p) ≡ acknowledged ack p
  acknowledged-acknowledged ack p = ground arith

  settling_again :
      (p : PendingManagedCommand V) (ack : ManagedAgentCommandAck) (s : SupervisorRuntime V)
      → IsSortedFrom 0 s.commands
      → validate_ack ack ≡ ok tt
      → get ack.command_id s.commands ≡ some (acknowledged ack p)
      → is_other_command p ack ≡ false
      → apply_command_ack ack s ≡ (ok ack.command_id, s)
  unfolding apply_command_ack
  settling_again p ack s sorted valid found same =
      elim (Bool-cases (is_unsettled (acknowledged ack p).state)) [
        | inr settled ↦ rw (apply_command_ack, ◌>>=◌, valid, found, same, settled) refl
        | inl waits ↦
            settling (acknowledged ack p) ack s valid found same waits
            ∙ rw
                (
                  acknowledged-acknowledged ack p,
                  insert-get_self 0 ack.command_id (acknowledged ack p) s.commands sorted found,
                )
                refl
      ]

  -- The acknowledgement that is delivered twice does what it does once: the second time, it returns
  -- the same and changes nothing. This holds of a coherent supervisor.
  pub apply_command_ack-twice :
      (ack : ManagedAgentCommandAck) (s : SupervisorRuntime V)
      → IsCoherent s
      → apply_command_ack ack (apply_command_ack ack s).1 ≡ apply_command_ack ack s
  apply_command_ack-twice ack s v = elim (unsettling ack s) [
    | inl idle ↦ ap (apply_command_ack ack) idle
    | inr (p, valid, found, same, waits) ↦ rw (settling p ack s valid found same waits) (
        settling_again p ack _
          (insert-IsSortedFrom 0 ack.command_id _ s.commands (omega arith) v.commands_sorted) valid
          (ground (arith, get-insert ack.command_id ack.command_id (acknowledged ack p) s.commands))
          same)
  ]

  -- Of a command that is settled: an acknowledgement of it changes nothing in the supervisor, be
  -- it valid or not. A receipt for it has no such guard: one of the right version puts its own
  -- state in the place of the settled one.
  pub settled_lem :
      (p : PendingManagedCommand V) (ack : ManagedAgentCommandAck) (r : ControlCommandReceipt)
      (s : SupervisorRuntime V)
      → get ack.command_id s.commands ≡ some p
      → is_unsettled p.state ≡ false
      → r.command_id ≡ ack.command_id
      → r.schema_version ≡ 1
      → ((apply_command_ack ack s).1 ≡ s)
        × (get r.command_id (apply_receipt r s).1.commands
            ≡ some (record p { state = receipt_state r r.receipt_status }))
  unfolding apply_receipt
  settled_lem p ack r s found settled same first =
      let there : get r.command_id s.commands ≡ some p = rw same found in
      (
        elim (unsettling ack s) [
          | inl idle ↦ idle
          | inr (q, valid, found', other, waits) ↦ ground (arith)
        ],
        rw (apply_receipt, there)
            (ground (
              arith,
              get-insert r.command_id r.command_id
                  (record p { state = receipt_state r r.receipt_status }) s.commands,
            )),
      )
