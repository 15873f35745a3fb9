-- ===== src/ManagedAgent/Domain.antt =====
-- The data types of auspex-core/src/managed_agents.rs and the constructors that validate them.
-- A `Uuid` is read as its number; `Uuid::new_v4()` is an argument of what calls it.
use auspex.Prelude.{
  ℕ, String, Bool, true, false, Option, none, some, List, [], Result, ok, err, trim, is_empty, ◌==◌,
  if◌then◌else◌,
}

abbrev pub ManagedRunId : Type 0
ManagedRunId = ℕ

abbrev pub WorkerId : Type 0
WorkerId = ℕ

abbrev pub OmegonTaskId : Type 0
OmegonTaskId = String

pub data ManagedAgentValidationError : Type 0 where
  empty_omegon_task_id empty_directive zero_supervisor_deadline : ManagedAgentValidationError
  empty_parent_session_id empty_parent_turn_id : ManagedAgentValidationError

pub data ManagedRunTransitionError : Type 0 where
  invalid_state terminal_run dispatch_not_accepted : ManagedRunTransitionError
  task_identity_mismatch result_required : ManagedRunTransitionError

-- `OmegonTaskId::parse`
unfoldable pub parse_omegon_task_id : String → Result ManagedAgentValidationError OmegonTaskId
parse_omegon_task_id value =
    let trimmed = trim value in if is_empty trimmed then err empty_omegon_task_id else ok trimmed

pub data WorkerProfile : Type 0 where
  scout patch verify : WorkerProfile

pub record ManagedRunRequest : Type 0 where
  pub directive : String
  pub worker_profile : WorkerProfile
  pub scope : List String
  pub model : Option String
  pub thinking_level : Option String
  pub supervisor_deadline_seconds : ℕ

-- `ManagedRunRequest::new`
unfoldable pub new_request :
    String → WorkerProfile → List String → ℕ → Result ManagedAgentValidationError ManagedRunRequest
new_request directive worker_profile scope deadline =
    let trimmed = trim directive in
    if is_empty trimmed
    then err empty_directive
    else if deadline == 0
    then err zero_supervisor_deadline
    else ok (record {
      directive = trimmed;
      worker_profile = worker_profile;
      scope = scope;
      model = none;
      thinking_level = none;
      supervisor_deadline_seconds = deadline;
    })

pub data OmegonFailureKind : Type 0 where
  missing_local_model missing_credential provider_startup workspace_startup : OmegonFailureKind
  unknown : OmegonFailureKind

-- `OmegonFailureKind::code`
unfoldable pub failure_code : OmegonFailureKind → String
failure_code missing_local_model = "missing_local_model"
failure_code missing_credential = "missing_credential"
failure_code provider_startup = "provider_startup"
failure_code workspace_startup = "workspace_startup"
failure_code unknown = "unknown"

pub data OmegonDelegateStatus : Type 0 where
  running : OmegonDelegateStatus
  completed : Bool → OmegonDelegateStatus
  failed : OmegonFailureKind → String → OmegonDelegateStatus
  cancelled : Option String → Bool → OmegonDelegateStatus

pub record ToolActivityObservation : Type 0 where
  pub tool : String
  pub args_summary : Option String

pub record ChecklistItemObservation : Type 0 where
  pub label : String
  pub done : Bool

pub record RouteObservation : Type 0 where
  pub model : Option String
  pub provider : Option String
  pub fallback_used : Bool

pub record OmegonDelegateObservation : Type 0 where
  pub task_id : OmegonTaskId
  pub label : Option String
  pub agent_name : Option String
  pub task_description : String
  pub status : OmegonDelegateStatus
  pub result : Option String
  pub result_viewed : Bool
  pub started_at_unix_ms : ℕ
  pub completed_at_unix_ms : Option ℕ
  pub last_tool : Option ToolActivityObservation
  pub last_turn : Option ℕ
  pub checklist : List ChecklistItemObservation
  pub route : Option RouteObservation

pub record ManagedRunResult : Type 0 where
  pub summary : String
  pub changed_files : List String
  pub validation : List String
  pub commits : List String
  pub artifacts : List String
  pub questions : List String

unfoldable pub normalize_raw_result : String → ManagedRunResult
normalize_raw_result result = record {
  summary = result;
  changed_files = [];
  validation = [];
  commits = [];
  artifacts = [];
  questions = [];
}

pub record ManagedRunFailure : Type 0 where
  pub code : String
  pub safe_message : String

-- `ManagedRunFailure::reported`
unfoldable pub reported : String → Option ManagedRunResult → ManagedRunFailure
reported code none = record {
  code = code;
  safe_message = "Delegate reported unsuccessful completion";
}
reported code (some r) = record { code = code; safe_message = r.summary }

pub data ManagedRunState : Type 0 where
  dispatching dispatch_timed_out running : ManagedRunState
  cancelling : Option String → ManagedRunState
  completed : ManagedRunResult → ManagedRunState
  failed : ManagedRunFailure → ManagedRunState
  cancelled : Option String → Bool → ManagedRunState
  disconnected : Option OmegonDelegateObservation → ManagedRunState

-- `ManagedRunState::is_terminal`
abbrev pub is_terminal : ManagedRunState → Bool
is_terminal ManagedRunState.dispatch_timed_out = true
is_terminal (ManagedRunState.completed _) = true
is_terminal (ManagedRunState.failed _) = true
is_terminal (ManagedRunState.cancelled _ confirmed) = confirmed
is_terminal _ = false

-- `SupervisorEvent`
pub data SupervisorEvent : Type 0 where
  dispatch_requested : ManagedRunId → WorkerId → SupervisorEvent
  dispatch_accepted : ManagedRunId → OmegonTaskId → SupervisorEvent
  dispatch_rejected : ManagedRunId → String → SupervisorEvent
  cancellation_requested : ManagedRunId → Option String → SupervisorEvent
  worker_disconnected : ManagedRunId → SupervisorEvent
  worker_reconnected : ManagedRunId → SupervisorEvent
  result_fetched : ManagedRunId → OmegonTaskId → SupervisorEvent
