-- ===== src/Examples/Runs.antt =====
-- The theorems on one run and on the messages of the contract, at concrete inputs.
use auspex.Prelude.{some, false, true, len, ◌≤◌, ◌⊎◌, ◌≡◌, ◌↔◌, refl, trim, none, [], ◌∷◌, ok, err}
use auspex.ManagedAgent.Domain.{
  OmegonDelegateObservation, is_terminal, ManagedRunState, invalid_state,
}
use auspex.ManagedAgent.Run.{new_run}
use auspex.ManagedAgent.Run.Events.{
  accepts_dispatch, observes, completes, reconnects, disconnects, call, calls,
}
use auspex.ManagedAgent.Run.Invariant.{IsConsistent, new_run-calls-IsConsistent}
use auspex.ManagedAgent.Run.Lifecycle.{
  CallOutcome, IsUnfinished, call-reopens_iff, reconnect_loses_dispatch, call_moves,
}
use auspex.ManagedAgent.Contract.{
  DelegateCancelResponse, DelegateObservationResponse, DelegateResultResponse, validate_ack,
  validate_cancel, validate_observation, validate_result,
}
use auspex.ManagedAgent.Contract.Laws.{validate_task_iff}
use auspex.ManagedAgent.Contract.Acks.{IsDelegateMethod, IsSoundStatus, validate_ack_iff}
use auspex.Examples.Fixtures.{
  request, waiting_run, cancelled_run, seen_running, ack_of_70, waiting_run-IsConsistent,
}

new_run-calls-IsConsistent_example :
    IsConsistent (
      calls
        (accepts_dispatch "task" ∷ disconnects ∷ reconnects ∷ completes "done" ∷ [])
        waiting_run)
unfolding new_run trim
new_run-calls-IsConsistent_example =
    new_run-calls-IsConsistent 7 40 "session" "turn" request
      (accepts_dispatch "task" ∷ disconnects ∷ reconnects ∷ completes "done" ∷ []) refl

call_moves_example : CallOutcome (accepts_dispatch "task") waiting_run
call_moves_example = call_moves (accepts_dispatch "task") waiting_run waiting_run-IsConsistent

-- The run that was cancelled is seen running.
call-reopens_iff_example :
    (is_terminal (call (observes seen_running) cancelled_run).1.state ≡ false) ↔ (
      (seen : OmegonDelegateObservation) × (observes seen_running ≡ observes seen)
      × (cancelled_run.omegon_task_id ≡ some seen.task_id)
      × IsUnfinished seen.status)
call-reopens_iff_example = call-reopens_iff (observes seen_running) cancelled_run refl

reconnect_loses_dispatch_example :
    let back = calls (disconnects ∷ reconnects ∷ []) waiting_run in
    (back.state ≡ ManagedRunState.running)
    × (back.omegon_task_id ≡ none)
    × (call (accepts_dispatch "task") back ≡ (err invalid_state, back))
reconnect_loses_dispatch_example =
    reconnect_loses_dispatch waiting_run "task" waiting_run-IsConsistent refl

validate_ack_iff_example : (validate_ack ack_of_70 ≡ ok tt) ↔ (
    (ack_of_70.schema_version ≡ 1)
    × IsDelegateMethod ack_of_70.method
    × IsSoundStatus ack_of_70.status ack_of_70.rejection)
validate_ack_iff_example = validate_ack_iff ack_of_70

abbrev seen_of_7 : DelegateObservationResponse
seen_of_7 = record {
  schema_version = 1;
  managed_run_id = 7;
  worker_id = 40;
  observation = seen_running;
}

abbrev result_of_7 : DelegateResultResponse
result_of_7 = record {
  schema_version = 1;
  managed_run_id = 7;
  worker_id = 40;
  task_id = "task";
  result = "done";
}

abbrev cancel_of_7 : DelegateCancelResponse
cancel_of_7 = record {
  schema_version = 1;
  managed_run_id = 7;
  worker_id = 40;
  task_id = "task";
  acknowledged = true;
  termination_confirmed = true;
  reason = none;
}

validate_task_iff_example :
    ((validate_observation seen_of_7 7 40 "task" ≡ ok tt) ↔ (
      (seen_of_7.schema_version ≡ 1)
      × (seen_of_7.managed_run_id ≡ 7)
      × (seen_of_7.worker_id ≡ 40)
      × (seen_of_7.observation.task_id ≡ "task")))
    × ((validate_result result_of_7 7 40 "task" 100 ≡ ok tt) ↔ (
        (result_of_7.schema_version ≡ 1)
        × (result_of_7.managed_run_id ≡ 7)
        × (result_of_7.worker_id ≡ 40)
        × (result_of_7.task_id ≡ "task")
        × (len result_of_7.result ≤ 100)))
    × ((validate_cancel cancel_of_7 7 40 "task" ≡ ok tt) ↔ (
        (cancel_of_7.schema_version ≡ 1)
        × (cancel_of_7.managed_run_id ≡ 7)
        × (cancel_of_7.worker_id ≡ 40)
        × (cancel_of_7.task_id ≡ "task")
        × ((cancel_of_7.termination_confirmed ≡ false) ⊎ (cancel_of_7.acknowledged ≡ true))))
validate_task_iff_example = validate_task_iff seen_of_7 result_of_7 cancel_of_7 7 40 "task" 100
