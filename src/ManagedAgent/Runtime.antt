-- ===== src/ManagedAgent/Runtime.antt =====
-- The state of `ManagedAgentSupervisorRuntime`, auspex-core/src/managed_agent_runtime.rs, and the
-- access to one of its entries. The methods are in the modules below.
pub mod Prepare
pub mod Delivery
pub mod Answer
pub mod Sweep
pub mod Entries
pub mod Coherence
pub mod Keeps
pub mod Steps
pub mod Preparation
pub mod Settling
pub mod Replay
pub mod Polling
pub mod Expiry
pub mod Connection
pub mod Cancellation
use auspex.Prelude.{
  ℕ, String, Bool, true, false, Option, none, some, List, [], ◌∷◌, ◌++◌, Result, ok, err, Action,
  map_err, lift,
}
use auspex.Prelude.Maps.{Map, get, insert}
use auspex.ManagedAgent.Domain.{
  ManagedRunId, WorkerId, OmegonTaskId, SupervisorEvent, ManagedAgentValidationError,
  ManagedRunTransitionError, ManagedRunState,
}
use auspex.ManagedAgent.Run.{ManagedAgentRun, Transition}
use auspex.ManagedAgent.Command.{CommandTarget, TargetedCommand, ManagedCommandId}
use auspex.ManagedAgent.Contract.{SupervisorContractError}

-- An `Instant`, and a `Duration`, in nanoseconds.
abbrev pub Instant : Type 0
Instant = ℕ

pub data ManagedCommandKind : Type 0 where
  dispatch poll cancel : ManagedCommandKind

abbrev pub kind_eq : ManagedCommandKind → ManagedCommandKind → Bool
kind_eq dispatch dispatch = true
kind_eq poll poll = true
kind_eq cancel cancel = true
kind_eq _ _ = false

pub data ManagedCommandDeliveryState : Type 0 where
  pending accepted duplicate : ManagedCommandDeliveryState
  retry_pending rejected : String → ManagedCommandDeliveryState
  proven_by_result : ManagedCommandDeliveryState

abbrev pub is_pending : ManagedCommandDeliveryState → Bool
is_pending ManagedCommandDeliveryState.pending = true
is_pending _ = false

-- `Pending | RetryPending { .. }`: no answer has settled the delivery.
abbrev pub is_unsettled : ManagedCommandDeliveryState → Bool
is_unsettled ManagedCommandDeliveryState.pending = true
is_unsettled (ManagedCommandDeliveryState.retry_pending code) = true
is_unsettled _ = false

pub record PendingManagedCommand (V : Type 0) : Type 0 where
  pub command : TargetedCommand V
  pub kind : ManagedCommandKind
  pub run_id : ManagedRunId
  pub worker_id : WorkerId
  pub task_id : Option OmegonTaskId
  pub state : ManagedCommandDeliveryState
  pub attempts : ℕ
  pub last_sent_at : Instant

pub data ManagedAgentTransportBinding : Type 0 where
  omegon_control : String → CommandTarget → ManagedAgentTransportBinding
  styrene_a2a : String → ManagedAgentTransportBinding

pub record RuntimeEntry : Type 0 where
  pub run : ManagedAgentRun
  pub transport : ManagedAgentTransportBinding
  pub dispatched_at_unix_ms : ℕ
  pub dispatched_at : Instant
  pub deadline_at : Instant
  pub events : List SupervisorEvent

pub data SupervisorRuntimeError : Type 0 where
  unknown_run unknown_command missing_command_id duplicate_run : SupervisorRuntimeError
  command_already_pending wrong_transport deadline_exceeded : SupervisorRuntimeError
  unexpected_response_type invalid_json : String → SupervisorRuntimeError
  response_rejected : String → String → SupervisorRuntimeError
  contract : SupervisorContractError → SupervisorRuntimeError
  domain : ManagedRunTransitionError → SupervisorRuntimeError
  validation : ManagedAgentValidationError → SupervisorRuntimeError

pub record SupervisorRuntime (V : Type 0) : Type 0 where
  pub runs : Map RuntimeEntry
  pub commands : Map (PendingManagedCommand V)
  pub command_runs : Map ManagedRunId
  pub max_result_bytes : ℕ

-- `ManagedAgentSupervisorRuntime::new`
unfoldable pub new_runtime : (V : Type 0) → ℕ → SupervisorRuntime V
new_runtime V max_result_bytes = record {
  runs = [];
  commands = [];
  command_runs = [];
  max_result_bytes = max_result_bytes;
}

abbrev pub Method : Type 0 → Type 0 → Type 0
Method V = Action (SupervisorRuntime V) SupervisorRuntimeError

-- What is done through `runs.get_mut(&run_id).ok_or(UnknownRun)?`.
abbrev pub OnEntry : Type 0 → Type 0
OnEntry = Action RuntimeEntry SupervisorRuntimeError

unfoldable pub with_entry : {V A : Type 0} → ManagedRunId → OnEntry A → Method V A
with_entry run_id body s = elim (get run_id s.runs) [
  | none ↦ (err unknown_run, s)
  | some entry ↦
      let (result, written) = body entry in
      (result, record s { runs = insert run_id written s.runs })
]

-- `entry.run.method()?`
abbrev pub on_run : Transition → OnEntry (Unit {0})
on_run method entry =
    let (result, run') = method entry.run in (map_err domain result, record entry { run = run' })

-- `entry.events.push(event)`
abbrev pub push_event : SupervisorEvent → OnEntry (Unit {0})
push_event event entry = (ok tt, record entry { events = entry.events ++ event ∷ [] })

-- The target of a command to the run's worker, which an A2A run does not have.
abbrev pub control_target :
    ManagedAgentTransportBinding → Result SupervisorRuntimeError CommandTarget
control_target (omegon_control instance_id target) = ok target
control_target (styrene_a2a target_agent_id) = err wrong_transport
