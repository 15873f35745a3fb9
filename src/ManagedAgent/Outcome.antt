-- ===== src/ManagedAgent/Outcome.antt =====
-- The managed-run messages of the MQTT bearer, auspex-core/src/managed_agent_mqtt.rs.
use auspex.Prelude.{ℕ, String, Option, List}
use auspex.ManagedAgent.Domain.{ManagedRunId, WorkerId, ManagedRunRequest}

-- `[u8; 16]`
abbrev pub MessageId : Type 0
MessageId = List ℕ

pub data ManagedRunA2aOutcome : Type 0 where
  accepted duplicate : ManagedRunA2aOutcome
  completed : String → ManagedRunA2aOutcome
  failed : String → String → ManagedRunA2aOutcome
  cancellation_accepted termination_confirmed : Option String → ManagedRunA2aOutcome

pub record ManagedRunA2aOutcomePayload : Type 0 where
  pub managed_run_id : ManagedRunId
  pub outcome : ManagedRunA2aOutcome

-- Each constructor has the run, the task and the message before what is its own.
pub data ManagedAgentA2aEvent : Type 0 where
  accepted duplicate : ManagedRunId → String → MessageId → ManagedAgentA2aEvent
  completed : ManagedRunId → String → MessageId → String → ManagedAgentA2aEvent
  failed : ManagedRunId → String → MessageId → String → String → ManagedAgentA2aEvent
  cancellation_accepted termination_confirmed :
      ManagedRunId → String → MessageId → Option String → ManagedAgentA2aEvent

-- `ManagedAgentA2aEvent::managed_run_id`
unfoldable pub event_run_id : ManagedAgentA2aEvent → ManagedRunId
event_run_id (ManagedAgentA2aEvent.accepted run_id task_id message_id) = run_id
event_run_id (ManagedAgentA2aEvent.duplicate run_id task_id message_id) = run_id
event_run_id (ManagedAgentA2aEvent.completed run_id task_id message_id result) = run_id
event_run_id (ManagedAgentA2aEvent.failed run_id task_id message_id code safe_message) = run_id
event_run_id (ManagedAgentA2aEvent.cancellation_accepted run_id task_id message_id reason) = run_id
event_run_id (ManagedAgentA2aEvent.termination_confirmed run_id task_id message_id reason) = run_id

pub record ManagedRunA2aRequest : Type 0 where
  pub managed_run_id : ManagedRunId
  pub worker_id : WorkerId
  pub parent_session_id : String
  pub parent_turn_id : String
  pub request : ManagedRunRequest

pub record ManagedRunA2aCancel : Type 0 where
  pub managed_run_id : ManagedRunId
  pub worker_id : WorkerId
  pub reason : Option String
