-- ===== src/ManagedAgent/Serde.antt =====
-- What the supervisor uses of `serde_json`, as a parameter: the type of JSON values, and the
-- decoders and encoders, each with its error as text.
use auspex.Prelude.{String, Bool, Option, Result}
use auspex.ManagedAgent.Domain.{ManagedRunId}
use auspex.ManagedAgent.Contract.{
  ManagedAgentCommandAck, ControlCommandReceipt, SupervisorRejection, DelegateDispatchRequest,
  DelegateTaskRequest, DelegateCancelRequest, DelegateDispatchResponse, DelegateObservationResponse,
  DelegateResultResponse, DelegateCancelResponse,
}

pub record Serde : Type 1 where
  pub Value : Type 0
  -- `serde_json::from_str`
  pub parse : String → Result String Value
  pub parse_receipt : String → Result String ControlCommandReceipt
  pub parse_ack : String → Result String ManagedAgentCommandAck
  -- `Value::get`, `Value::as_str`, `Value::is_null`
  pub member : Value → String → Option Value
  pub as_str : Value → Option String
  pub is_null : Value → Bool
  -- `serde_json::from_value`
  pub read_run_id : Value → Result String ManagedRunId
  pub read_rejection : Value → Result String SupervisorRejection
  pub read_dispatch : Value → Result String DelegateDispatchResponse
  pub read_observation : Value → Result String DelegateObservationResponse
  pub read_cancel : Value → Result String DelegateCancelResponse
  pub read_result : Value → Result String DelegateResultResponse
  -- `serde_json::to_value`
  pub write_dispatch : DelegateDispatchRequest → Result String Value
  pub write_task : DelegateTaskRequest → Result String Value
  pub write_cancel : DelegateCancelRequest → Result String Value
