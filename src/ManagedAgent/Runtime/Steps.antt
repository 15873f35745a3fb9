-- ===== src/ManagedAgent/Runtime/Steps.antt =====
-- The calls that the methods of the supervisor answer, as values, and sequences of them.
use auspex.Prelude.{ℕ, String, Option, List, [], ◌∷◌, arith}
use auspex.Prelude.Maps.{get}
use auspex.ManagedAgent.Domain.{ManagedRunId, WorkerId, ManagedRunRequest}
use auspex.ManagedAgent.Command.{ManagedCommandId, CommandTarget}
use auspex.ManagedAgent.Serde.{Serde}
use auspex.ManagedAgent.Outcome.{ManagedAgentA2aEvent}
use auspex.ManagedAgent.Runtime.{
  Instant, SupervisorRuntime, ManagedAgentTransportBinding, new_runtime,
}
use auspex.ManagedAgent.Runtime.Prepare.{
  Clock, prepare_run, dispatch_run, poll_command, cancel_command, request_a2a_cancellation,
}
use auspex.ManagedAgent.Runtime.Delivery.{
  replay_due_commands, apply_receipt_json, apply_command_ack_json,
}
use auspex.ManagedAgent.Runtime.Answer.{apply_response_json, apply_a2a_event}
use auspex.ManagedAgent.Runtime.Sweep.{
  expire_dispatches_at, expire_dispatches_for, mark_worker_disconnected, mark_worker_reconnected,
  remove_run,
}
use auspex.ManagedAgent.Runtime.Coherence.{IsCoherent}
use auspex.ManagedAgent.Runtime.Keeps.{prepare_run-Keeps, replay_due_commands-IsCoherent}
use auspex.ManagedAgent.Runtime.Keeps.Sweeps
use auspex.ManagedAgent.Runtime.Keeps.Answers
use auspex.ManagedAgent.Runtime.Keeps.Calls

-- One constructor for each public method that writes, with its arguments, what the clock read and
-- the ids that were fresh.
pub data SupervisorCall : Type 0 where
  prepares :
      ManagedRunId
      → Clock
      → WorkerId
      → String
      → String
      → ManagedRunRequest
      → ManagedAgentTransportBinding
      → ℕ
      → SupervisorCall
  dispatches :
      ManagedRunId
      → ManagedCommandId
      → Clock
      → Instant
      → WorkerId
      → String
      → String
      → ManagedRunRequest
      → CommandTarget
      → ℕ
      → SupervisorCall
  polls : ManagedCommandId → Instant → ManagedRunId → SupervisorCall
  cancels : ManagedCommandId → Instant → ManagedRunId → Option String → SupervisorCall
  cancels_a2a : ManagedRunId → Option String → SupervisorCall
  receives acknowledges answers : String → SupervisorCall
  replays : Instant → ℕ → SupervisorCall
  notes : ManagedAgentA2aEvent → SupervisorCall
  loses regains : WorkerId → SupervisorCall
  expires : Instant → ℕ → SupervisorCall
  expires_for : Instant → ℕ → List ManagedRunId → SupervisorCall
  removes : ManagedRunId → SupervisorCall

module _ (serde : Serde) where
  open serde use {Value}

  -- The supervisor after one call, whatever the call returns.
  unfoldable pub step : SupervisorCall → SupervisorRuntime Value → SupervisorRuntime Value
  unfolding prepare_run dispatch_run poll_command cancel_command request_a2a_cancellation
      apply_receipt_json apply_command_ack_json apply_response_json replay_due_commands
      apply_a2a_event mark_worker_disconnected mark_worker_reconnected expire_dispatches_at
      expire_dispatches_for remove_run
  step (prepares fresh clock worker session turn request transport at) s =
      (prepare_run fresh clock worker session turn request transport at s).1
  step (dispatches fresh command clock sent worker session turn request target at) s =
      (dispatch_run serde fresh command clock sent worker session turn request target at s).1
  step (polls fresh sent run_id) s = (poll_command serde fresh sent run_id s).1
  step (cancels fresh sent run_id reason) s = (cancel_command serde fresh sent run_id reason s).1
  step (cancels_a2a run_id reason) s = (request_a2a_cancellation run_id reason s).1
  step (receives json) s = (apply_receipt_json serde json s).1
  step (acknowledges json) s = (apply_command_ack_json serde json s).1
  step (answers json) s = (apply_response_json serde json s).1
  step (replays now timeout) s = (replay_due_commands now timeout s).1
  step (notes event) s = (apply_a2a_event event s).1
  step (loses worker) s = mark_worker_disconnected worker s
  step (regains worker) s = mark_worker_reconnected worker s
  step (expires now timeout) s = (expire_dispatches_at now timeout s).1
  step (expires_for now timeout run_ids) s = (expire_dispatches_for now timeout run_ids s).1
  step (removes run_id) s = (remove_run run_id s).1

  unfoldable pub steps : List SupervisorCall → SupervisorRuntime Value → SupervisorRuntime Value
  unfolding step
  steps [] s = s
  steps (c ∷ cs) s = steps cs (step c s)

  step-IsCoherent :
      (c : SupervisorCall) (s : SupervisorRuntime Value) → IsCoherent s → IsCoherent (step c s)
  unfolding step
  step-IsCoherent (prepares fresh clock worker session turn request transport at) s v =
      prepare_run-Keeps fresh clock worker session turn request transport at s v
  step-IsCoherent (dispatches fresh command clock sent worker session turn request target at) s v =
      Calls.dispatch_run-Keeps serde fresh command clock sent worker session turn request target at
        s v
  step-IsCoherent (polls fresh sent run_id) s v =
      Calls.poll_command-Keeps serde fresh sent run_id s v
  step-IsCoherent (cancels fresh sent run_id reason) s v =
      Calls.cancel_command-Keeps serde fresh sent run_id reason s v
  step-IsCoherent (cancels_a2a run_id reason) s v =
      Answers.request_a2a_cancellation-Keeps run_id reason s v
  step-IsCoherent (receives json) s v = Answers.apply_receipt_json-Keeps serde json s v
  step-IsCoherent (acknowledges json) s v = Answers.apply_command_ack_json-Keeps serde json s v
  step-IsCoherent (answers json) s v = Answers.apply_response_json-Keeps serde json s v
  step-IsCoherent (replays now timeout) s v = replay_due_commands-IsCoherent now timeout s v
  step-IsCoherent (notes event) s v = Answers.apply_a2a_event-Keeps event s v
  step-IsCoherent (loses worker) s v = Sweeps.mark_worker_disconnected-IsCoherent worker s v
  step-IsCoherent (regains worker) s v = Sweeps.mark_worker_reconnected-IsCoherent worker s v
  step-IsCoherent (expires now timeout) s v = Sweeps.expire_dispatches_at-IsCoherent now timeout s v
  step-IsCoherent (expires_for now timeout run_ids) s v =
      Sweeps.expire_dispatches_for-IsCoherent now timeout run_ids s v
  step-IsCoherent (removes run_id) s v = Sweeps.remove_run-IsCoherent run_id s v

  steps-IsCoherent :
      (cs : List SupervisorCall) (s : SupervisorRuntime Value)
      → IsCoherent s
      → IsCoherent (steps cs s)
  unfolding steps
  steps-IsCoherent [] s v = v
  steps-IsCoherent (c ∷ cs) s v = steps-IsCoherent cs (step c s) (step-IsCoherent c s v)

  -- Whatever calls a new supervisor has answered, those that failed among them, its maps are
  -- sorted, each run is under its own id and consistent, and each command that it has sent leads
  -- to the id of its run.
  pub new_runtime-steps-IsCoherent :
      (max_result_bytes : ℕ) (cs : List SupervisorCall)
      → IsCoherent (steps cs (new_runtime Value max_result_bytes))
  unfolding new_runtime get
  new_runtime-steps-IsCoherent max_result_bytes cs =
      steps-IsCoherent cs (new_runtime Value max_result_bytes) (record {
        runs_sorted = tt;
        commands_sorted = tt;
        command_runs_sorted = tt;
        entries = λ k entry. ground arith;
        routes = λ c p. ground arith;
      })
