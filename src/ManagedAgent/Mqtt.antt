-- ===== src/ManagedAgent/Mqtt.antt =====
-- The managed-agent traffic on the MQTT bearer: `command_envelope`, `cancellation_envelope` and
-- `decode_event` of auspex-core/src/managed_agent_mqtt.rs. The crates styrene_a2a and serde_json
-- are a parameter; the client of the broker is not modelled.
pub mod Traffic
use auspex.Prelude.{
  ℕ, ◌+◌, ◌-◌, ◌*◌, ◌^◌, ◌%◌, String, Bool, not, Option, none, some, Result, ok, err, Action, ◌>>=◌,
  ◌>>◌, lift, pure, map_err, ok_or, fail_if, and_then, str_eq, ltb, min, if◌then◌else◌,
}
use auspex.ManagedAgent.Domain.{ManagedRunId}
use auspex.ManagedAgent.Outcome.{
  MessageId, ManagedRunA2aOutcome, ManagedRunA2aOutcomePayload, ManagedAgentA2aEvent,
  ManagedRunA2aRequest, ManagedRunA2aCancel,
}

abbrev pub managed_run_request_schema : String
managed_run_request_schema = "io.styrene.auspex.managed-run-request.v1"

abbrev pub managed_run_cancel_schema : String
managed_run_cancel_schema = "io.styrene.auspex.managed-run-cancel.v1"

abbrev pub managed_run_outcome_schema : String
managed_run_outcome_schema = "io.styrene.auspex.managed-run-outcome.v1"

abbrev pub u64_max : ℕ
u64_max = 2 ^ 64 - 1

-- The crates that the bearer is written with: envelopes of styrene_a2a with what is read of them,
-- their constructor for a command of this bridge to its target, payloads of serde_json, and the text
-- of a run's id.
pub record A2aCrates : Type 1 where
  pub Envelope : Type 0
  pub Bytes : Type 0
  pub RootOperationId : Type 0
  pub target_agent_id : Envelope → String
  pub payload_schema : Envelope → String
  pub task_id : Envelope → Option String
  pub a2a_payload : Envelope → Bytes
  pub message_id : Envelope → MessageId
  pub new_root : String → Result String RootOperationId
  pub new_command : RootOperationId → String → ℕ → ℕ → String → Bytes → Envelope
  pub set_parent_task_id : String → Envelope → Envelope
  pub set_expires_at_ms : ℕ → Envelope → Envelope
  pub write_request : ManagedRunA2aRequest → Result String Bytes
  pub write_cancel : ManagedRunA2aCancel → Result String Bytes
  pub read_outcome : Bytes → Result String ManagedRunA2aOutcomePayload
  pub run_id_text : ManagedRunId → String

-- The errors of the broker's client are left out, since it is not called here.
pub data ManagedAgentMqttError : Type 0 where
  json extension unsupported_schema : String → ManagedAgentMqttError
  wrong_target missing_task_id run_identity_mismatch sequence_exhausted : ManagedAgentMqttError

-- The part of `ManagedAgentMqttBridge` that these methods use.
pub record ManagedAgentMqttBridge : Type 0 where
  pub local_agent_id : String
  pub next_sequence : ℕ

abbrev Bridged : Type 0 → Type 0
Bridged = Action ManagedAgentMqttBridge ManagedAgentMqttError

-- `self.next_sequence = self.next_sequence.checked_add(1).ok_or(SequenceExhausted)?`
unfoldable pub advance : Bridged (Unit {0})
advance b =
    if ltb b.next_sequence u64_max
    then (ok tt, record b { next_sequence = b.next_sequence + 1 })
    else (err sequence_exhausted, b)

-- `now_ms.saturating_add(ttl.as_millis() as u64)`, where the cast keeps the low 64 bits.
unfoldable pub expiry : ℕ → ℕ → ℕ
expiry now_ms ttl_ms = min (now_ms + ttl_ms % 2 ^ 64) u64_max

-- The `match` on the outcome at the end of `decode_event`.
unfoldable pub event_of :
    ManagedRunId → String → MessageId → ManagedRunA2aOutcome → ManagedAgentA2aEvent
event_of run_id task_id message_id ManagedRunA2aOutcome.accepted =
    ManagedAgentA2aEvent.accepted run_id task_id message_id
event_of run_id task_id message_id ManagedRunA2aOutcome.duplicate =
    ManagedAgentA2aEvent.duplicate run_id task_id message_id
event_of run_id task_id message_id (ManagedRunA2aOutcome.completed result) =
    ManagedAgentA2aEvent.completed run_id task_id message_id result
event_of run_id task_id message_id (ManagedRunA2aOutcome.failed code safe_message) =
    ManagedAgentA2aEvent.failed run_id task_id message_id code safe_message
event_of run_id task_id message_id (ManagedRunA2aOutcome.cancellation_accepted reason) =
    ManagedAgentA2aEvent.cancellation_accepted run_id task_id message_id reason
event_of run_id task_id message_id (ManagedRunA2aOutcome.termination_confirmed reason) =
    ManagedAgentA2aEvent.termination_confirmed run_id task_id message_id reason

module _ (crates : A2aCrates) where
  open crates use {Envelope}

  unfoldable pub command_envelope : ManagedRunA2aRequest → ℕ → ℕ → Bridged Envelope
  unfolding advance expiry
  command_envelope command now_ms ttl_ms b =
      (do
        payload ← lift (map_err json (crates.write_request command))
        root ← lift (map_err extension (crates.new_root command.parent_session_id))
        advance
        pure (
            crates.set_expires_at_ms (expiry now_ms ttl_ms) (
              crates.set_parent_task_id command.parent_turn_id (
                crates.new_command root (crates.run_id_text command.managed_run_id) b.next_sequence
                  now_ms managed_run_request_schema payload))))
        b

  unfoldable pub cancellation_envelope : ManagedRunA2aCancel → String → ℕ → ℕ → Bridged Envelope
  unfolding advance expiry
  cancellation_envelope cancellation root_operation_id now_ms ttl_ms b =
      (do
        payload ← lift (map_err json (crates.write_cancel cancellation))
        root ← lift (map_err extension (crates.new_root root_operation_id))
        advance
        pure (
            crates.set_expires_at_ms (expiry now_ms ttl_ms) (
              crates.new_command root (crates.run_id_text cancellation.managed_run_id)
                b.next_sequence now_ms managed_run_cancel_schema payload)))
        b

  unfoldable pub decode_event :
      ManagedAgentMqttBridge → Envelope → Result ManagedAgentMqttError ManagedAgentA2aEvent
  unfolding event_of
  decode_event b e =
      fail_if (not (str_eq (crates.target_agent_id e) b.local_agent_id)) wrong_target (
        fail_if (not (str_eq (crates.payload_schema e) managed_run_outcome_schema))
          (unsupported_schema (crates.payload_schema e))
          (and_then (ok_or (crates.task_id e) missing_task_id) λ task_id.
            and_then (map_err json (crates.read_outcome (crates.a2a_payload e))) λ payload.
              fail_if (not (str_eq (crates.run_id_text payload.managed_run_id) task_id))
                run_identity_mismatch
                (ok
                  (event_of payload.managed_run_id task_id (crates.message_id e) payload.outcome))))
