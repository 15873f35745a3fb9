-- ===== src/ManagedAgent/Contract.antt =====
-- The messages of the supervisor contract, auspex-core/src/managed_agent_supervisor.rs, and the
-- checks on them.
pub mod Laws
pub mod Acks
use auspex.Prelude.{
  ℕ, String, len, Bool, true, false, not, ◌&&◌, ◌||◌, Option, none, some, List, Result, ok, err,
  and_then, fail_if, str_eq, is_empty, ltb, ◌==◌, if◌then◌else◌,
}
use auspex.ManagedAgent.Domain.{
  ManagedRunId, WorkerId, OmegonTaskId, ManagedRunRequest, WorkerProfile, OmegonDelegateObservation,
}
use auspex.ManagedAgent.Command.{ManagedCommandId}

abbrev pub supervisor_schema_version : ℕ
supervisor_schema_version = 1

abbrev pub method_delegate_dispatch : String
method_delegate_dispatch = "delegate_dispatch"

abbrev pub method_delegate_get : String
method_delegate_get = "delegate_get"

abbrev pub method_delegate_result : String
method_delegate_result = "delegate_result"

abbrev pub method_delegate_cancel : String
method_delegate_cancel = "delegate_cancel"

pub data ManagedAgentCommandAckStatus : Type 0 where
  accepted rejected : ManagedAgentCommandAckStatus

pub record ManagedAgentCommandAckRejection : Type 0 where
  pub code : String
  pub safe_message : String
  pub retryable : Bool

pub record ManagedAgentCommandAck : Type 0 where
  pub schema_version : ℕ
  pub command_id : ManagedCommandId
  pub method : String
  pub managed_run_id : ManagedRunId
  pub worker_id : WorkerId
  pub task_id : Option OmegonTaskId
  pub status : ManagedAgentCommandAckStatus
  pub rejection : Option ManagedAgentCommandAckRejection
  pub accepted_at_unix_ms : ℕ

pub data ControlCommandReceiptStatus : Type 0 where
  accepted duplicate rejected : ControlCommandReceiptStatus

pub record SupervisorRejection : Type 0 where
  pub code : String
  pub safe_message : String

pub record ControlCommandReceipt : Type 0 where
  pub schema_version : ℕ
  pub command_id : ManagedCommandId
  pub receipt_status : ControlCommandReceiptStatus
  pub received_at_unix_ms : ℕ
  pub rejection : Option SupervisorRejection

pub record DelegateDispatchRequest : Type 0 where
  pub schema_version : ℕ
  pub managed_run_id : ManagedRunId
  pub worker_id : WorkerId
  pub request : ManagedRunRequest

pub record DelegateTaskRequest : Type 0 where
  pub schema_version : ℕ
  pub managed_run_id : ManagedRunId
  pub worker_id : WorkerId
  pub task_id : OmegonTaskId

pub record DelegateCancelRequest : Type 0 where
  pub schema_version : ℕ
  pub managed_run_id : ManagedRunId
  pub worker_id : WorkerId
  pub task_id : OmegonTaskId
  pub reason : Option String

pub record OmegonEffectivePolicy : Type 0 where
  pub worker_profile : WorkerProfile
  pub max_turns : ℕ
  pub wall_timeout_seconds : ℕ
  pub idle_timeout_seconds : ℕ
  pub enabled_tools : List String
  pub model : Option String
  pub thinking_level : Option String

pub record DelegateDispatchResponse : Type 0 where
  pub schema_version : ℕ
  pub managed_run_id : ManagedRunId
  pub worker_id : WorkerId
  pub accepted : Bool
  pub task_id : Option OmegonTaskId
  pub effective_policy : Option OmegonEffectivePolicy
  pub rejection : Option SupervisorRejection

pub record DelegateObservationResponse : Type 0 where
  pub schema_version : ℕ
  pub managed_run_id : ManagedRunId
  pub worker_id : WorkerId
  pub observation : OmegonDelegateObservation

pub record DelegateResultResponse : Type 0 where
  pub schema_version : ℕ
  pub managed_run_id : ManagedRunId
  pub worker_id : WorkerId
  pub task_id : OmegonTaskId
  pub result : String

pub record DelegateCancelResponse : Type 0 where
  pub schema_version : ℕ
  pub managed_run_id : ManagedRunId
  pub worker_id : WorkerId
  pub task_id : OmegonTaskId
  pub acknowledged : Bool
  pub termination_confirmed : Bool
  pub reason : Option String

pub data SupervisorContractError : Type 0 where
  unsupported_schema : ℕ → SupervisorContractError
  identity_mismatch missing_task_id invalid_acknowledgement : SupervisorContractError
  oversized_safe_message contradictory_dispatch_response : SupervisorContractError
  oversized_reason oversized_result : SupervisorContractError
  serialization : String → SupervisorContractError

abbrev pub Checked : Type 0 → Type 0
Checked = Result SupervisorContractError

-- The first `matches!` of `ManagedAgentCommandAck::validate`.
is_delegate_method : String → Bool
is_delegate_method m =
    str_eq m method_delegate_dispatch
    || str_eq m method_delegate_get
    || str_eq m method_delegate_result
    || str_eq m method_delegate_cancel

-- The codes that must not be retried, and those that must.
is_final_code : String → Bool
is_final_code code =
    str_eq code "unsupported_schema"
    || str_eq code "invalid_envelope"
    || str_eq code "unauthorized"
    || str_eq code "unknown_method"
    || str_eq code "command_id_conflict"

is_transient_code : String → Bool
is_transient_code code = str_eq code "overloaded" || str_eq code "temporarily_unavailable"

-- The `match` of `ManagedAgentCommandAck::validate` on the status and the rejection.
validate_status :
    ManagedAgentCommandAckStatus → Option ManagedAgentCommandAckRejection → Checked (Unit {0})
unfolding is_final_code is_transient_code
validate_status ManagedAgentCommandAckStatus.accepted none = ok tt
validate_status ManagedAgentCommandAckStatus.rejected (some rejection) =
    if ltb 1024 (len rejection.safe_message)
    then err oversized_safe_message
    else if is_empty rejection.code
        || (is_final_code rejection.code && rejection.retryable)
        || (is_transient_code rejection.code && not rejection.retryable)
    then err invalid_acknowledgement
    else ok tt
validate_status _ _ = err invalid_acknowledgement

-- `ManagedAgentCommandAck::validate`
unfoldable pub validate_ack : ManagedAgentCommandAck → Checked (Unit {0})
unfolding is_delegate_method validate_status
validate_ack ack =
    if not (ack.schema_version == supervisor_schema_version)
    then err (unsupported_schema ack.schema_version)
    else if not (is_delegate_method ack.method)
    then err invalid_acknowledgement
    else validate_status ack.status ack.rejection

-- `DelegateDispatchRequest::new`
unfoldable pub new_dispatch_request :
    ManagedRunId → WorkerId → ManagedRunRequest → DelegateDispatchRequest
new_dispatch_request run_id worker_id request = record {
  schema_version = supervisor_schema_version;
  managed_run_id = run_id;
  worker_id = worker_id;
  request = request;
}

-- `DelegateTaskRequest::new`
unfoldable pub new_task_request : ManagedRunId → WorkerId → OmegonTaskId → DelegateTaskRequest
new_task_request run_id worker_id task_id = record {
  schema_version = supervisor_schema_version;
  managed_run_id = run_id;
  worker_id = worker_id;
  task_id = task_id;
}

abbrev is_oversized_reason : Option String → Bool
is_oversized_reason none = false
is_oversized_reason (some reason) = ltb 1024 (len reason)

-- `DelegateCancelRequest::new`
unfoldable pub new_cancel_request :
    ManagedRunId → WorkerId → OmegonTaskId → Option String → Checked DelegateCancelRequest
new_cancel_request run_id worker_id task_id reason =
    if is_oversized_reason reason
    then err oversized_reason
    else ok (record {
      schema_version = supervisor_schema_version;
      managed_run_id = run_id;
      worker_id = worker_id;
      task_id = task_id;
      reason = reason;
    })

unfoldable pub validate_envelope :
    ℕ → ManagedRunId → WorkerId → ManagedRunId → WorkerId → Checked (Unit {0})
validate_envelope schema_version run worker expected_run expected_worker =
    if not (schema_version == supervisor_schema_version)
    then err (unsupported_schema schema_version)
    else if not (run == expected_run) || not (worker == expected_worker)
    then err identity_mismatch
    else ok tt

-- The `match` of `DelegateDispatchResponse::validate_for`.
accepted_task : Bool → Option OmegonTaskId → Option SupervisorRejection → Checked OmegonTaskId
accepted_task true (some task_id) none = ok task_id
accepted_task true none rejection = err missing_task_id
accepted_task false none (some rejection) = err contradictory_dispatch_response
accepted_task _ _ _ = err contradictory_dispatch_response

-- `DelegateDispatchResponse::validate_for`
unfoldable pub validate_dispatch :
    DelegateDispatchResponse → ManagedRunId → WorkerId → Checked OmegonTaskId
unfolding accepted_task validate_envelope
validate_dispatch r expected_run expected_worker =
    and_then
      (validate_envelope r.schema_version r.managed_run_id r.worker_id expected_run expected_worker)
      λ _. accepted_task r.accepted r.task_id r.rejection

-- `DelegateObservationResponse::validate_for`
unfoldable pub validate_observation :
    DelegateObservationResponse → ManagedRunId → WorkerId → OmegonTaskId → Checked (Unit {0})
unfolding validate_envelope
validate_observation r expected_run expected_worker expected_task =
    and_then
      (validate_envelope r.schema_version r.managed_run_id r.worker_id expected_run expected_worker)
      λ _. if not (str_eq r.observation.task_id expected_task) then err identity_mismatch else ok tt

-- `DelegateResultResponse::validate_for`
unfoldable pub validate_result :
    DelegateResultResponse → ManagedRunId → WorkerId → OmegonTaskId → ℕ → Checked (Unit {0})
unfolding validate_envelope
validate_result r expected_run expected_worker expected_task max_result_bytes =
    and_then
      (validate_envelope r.schema_version r.managed_run_id r.worker_id expected_run expected_worker)
      λ _.
        if not (str_eq r.task_id expected_task)
        then err identity_mismatch
        else if ltb max_result_bytes (len r.result)
        then err oversized_result
        else ok tt

-- `DelegateCancelResponse::validate_for`
unfoldable pub validate_cancel :
    DelegateCancelResponse → ManagedRunId → WorkerId → OmegonTaskId → Checked (Unit {0})
unfolding validate_envelope
validate_cancel r expected_run expected_worker expected_task =
    and_then
      (validate_envelope r.schema_version r.managed_run_id r.worker_id expected_run expected_worker)
      λ _.
        if not (str_eq r.task_id expected_task) || (r.termination_confirmed && not r.acknowledged)
        then err identity_mismatch
        else ok tt
