-- ===== src/ManagedAgent/Runtime/Delivery.antt =====
-- What becomes of a command that was sent: `apply_receipt_json`, `apply_command_ack_json`,
-- `replay_due_commands`.
use auspex.Prelude.{
  ℕ, ◌+◌, ◌-◌, ◌^◌, String, Bool, not, ◌&&◌, ◌||◌, Option, none, some, List, ok, err, ◌>>=◌, lift,
  map_err, option_str_eq, leb, ltb, ◌==◌, if◌then◌else◌,
}
use auspex.Prelude.Maps.{get, insert, filter_map_mut}
use auspex.ManagedAgent.Command.{ManagedCommandId, TargetedCommand, method}
use auspex.ManagedAgent.Contract.{
  ControlCommandReceipt, ControlCommandReceiptStatus, ManagedAgentCommandAck,
  ManagedAgentCommandAckRejection, ManagedAgentCommandAckStatus, SupervisorRejection,
  unsupported_schema, identity_mismatch, validate_ack,
}
use auspex.ManagedAgent.Serde.{Serde}
use auspex.ManagedAgent.Runtime.{
  Instant, ManagedCommandDeliveryState, is_unsettled, PendingManagedCommand, unknown_command,
  contract, invalid_json, SupervisorRuntime, Method,
}

-- The code of a receipt's rejection, or "rejected".
abbrev receipt_code : Option SupervisorRejection → String
receipt_code none = "rejected"
receipt_code (some rejection) = rejection.code

abbrev pub receipt_state :
    ControlCommandReceipt → ControlCommandReceiptStatus → ManagedCommandDeliveryState
receipt_state r ControlCommandReceiptStatus.accepted = ManagedCommandDeliveryState.accepted
receipt_state r ControlCommandReceiptStatus.duplicate = ManagedCommandDeliveryState.duplicate
receipt_state r ControlCommandReceiptStatus.rejected =
    ManagedCommandDeliveryState.rejected (receipt_code r.rejection)

module _ {V : Type 0} where
  -- `apply_receipt_json`, on a receipt that was read.
  unfoldable pub apply_receipt : ControlCommandReceipt → Method V ManagedCommandId
  apply_receipt r s =
      if not (r.schema_version == 1)
      then (err (contract (unsupported_schema r.schema_version)), s)
      else elim (get r.command_id s.commands) [
        | none ↦ (err unknown_command, s)
        | some pending ↦ (
          ok r.command_id,
          record s {
            commands =
                insert r.command_id (record pending { state = receipt_state r r.receipt_status })
                  s.commands;
          },
        )
      ]

  -- The acknowledgement speaks of another run, worker, task or method than the command.
  abbrev pub is_other_command : PendingManagedCommand V → ManagedAgentCommandAck → Bool
  is_other_command pending ack =
      not (pending.run_id == ack.managed_run_id)
      || not (pending.worker_id == ack.worker_id)
      || not (option_str_eq pending.task_id ack.task_id)
      || not (option_str_eq (method pending.command) (some ack.method))

-- A rejection is there where this is called, since the acknowledgement was validated.
abbrev pub ack_state :
    ManagedAgentCommandAckStatus
    → Option ManagedAgentCommandAckRejection
    → ManagedCommandDeliveryState
    → ManagedCommandDeliveryState
ack_state ManagedAgentCommandAckStatus.accepted rejection before =
    ManagedCommandDeliveryState.accepted
ack_state ManagedAgentCommandAckStatus.rejected (some rejection) before =
    if rejection.retryable
    then ManagedCommandDeliveryState.retry_pending rejection.code
    else ManagedCommandDeliveryState.rejected rejection.code
ack_state ManagedAgentCommandAckStatus.rejected none before = before

abbrev pub u32_max : ℕ
u32_max = 2 ^ 32 - 1

module _ {V : Type 0} where
  -- `apply_command_ack_json`, on an acknowledgement that was read.
  unfoldable pub apply_command_ack : ManagedAgentCommandAck → Method V ManagedCommandId
  apply_command_ack ack s =
      (lift (map_err contract (validate_ack ack)) >>= λ _ s'.
      elim (get ack.command_id s'.commands) [
        | none ↦ (err unknown_command, s')
        | some pending ↦
            if is_other_command pending ack
            then (err (contract identity_mismatch), s')
            else if not (is_unsettled pending.state)
            then (ok ack.command_id, s')
            else (
              ok ack.command_id,
              record s' {
                commands =
                    insert ack.command_id
                      (record pending { state = ack_state ack.status ack.rejection pending.state })
                      s'.commands;
              },
            )
      ])
        s

  -- One command of `replay_due_commands`: it is sent again if it is unsettled and the timeout has
  -- passed. `saturating_add` on the attempts stops at `u32::MAX`.
  unfoldable pub replay_command :
      Instant → ℕ → PendingManagedCommand V → Option (TargetedCommand V) × PendingManagedCommand V
  replay_command now receipt_timeout pending =
      if is_unsettled pending.state && leb receipt_timeout (now - pending.last_sent_at)
      then (
        some pending.command,
        record pending {
          last_sent_at = now;
          attempts = if ltb pending.attempts u32_max then pending.attempts + 1 else u32_max;
          state = ManagedCommandDeliveryState.pending;
        },
      )
      else (none, pending)

  unfoldable pub replay_due_commands :
      Instant → ℕ → SupervisorRuntime V → List (TargetedCommand V) × SupervisorRuntime V
  replay_due_commands now receipt_timeout s =
      let (due, commands) = filter_map_mut (replay_command now receipt_timeout) s.commands in
      (due, record s { commands = commands })

module _ (serde : Serde) where
  open serde use {Value, parse_receipt, parse_ack}

  unfoldable pub apply_receipt_json : String → Method Value ManagedCommandId
  unfolding apply_receipt
  apply_receipt_json json = lift (map_err invalid_json (parse_receipt json)) >>= apply_receipt

  unfoldable pub apply_command_ack_json : String → Method Value ManagedCommandId
  unfolding apply_command_ack
  apply_command_ack_json json = lift (map_err invalid_json (parse_ack json)) >>= apply_command_ack
