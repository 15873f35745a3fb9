-- ===== src/ManagedAgent/Run/Events.antt =====
-- The life of a run: a call of one of its methods, and any sequence of calls.
use auspex.Prelude.{String, Bool, Option, List, [], ◌∷◌}
use auspex.ManagedAgent.Domain.{OmegonTaskId, OmegonDelegateObservation}
use auspex.ManagedAgent.Run.{
  ManagedAgentRun, Transition, accept_dispatch, request_cancellation, apply_observation,
  mark_dispatch_timed_out, apply_cancellation_response, complete_from_result, fail_run,
  mark_cancellation_accepted, confirm_termination, mark_reconnected, mark_disconnected,
}

-- A call of a method of the run, with its arguments.
pub data RunCall : Type 0 where
  accepts_dispatch : OmegonTaskId → RunCall
  requests_cancellation : Option String → RunCall
  observes : OmegonDelegateObservation → RunCall
  times_out : RunCall
  gets_cancellation_response : Bool → Bool → Option String → RunCall
  completes : String → RunCall
  fails : String → String → RunCall
  gets_cancellation_accepted : Option String → RunCall
  confirms_termination : Option String → RunCall
  reconnects : RunCall
  disconnects : RunCall

unfoldable pub call : RunCall → Transition
unfolding accept_dispatch request_cancellation apply_observation mark_dispatch_timed_out
    apply_cancellation_response complete_from_result fail_run mark_cancellation_accepted
    confirm_termination mark_reconnected mark_disconnected
call (accepts_dispatch task_id) = accept_dispatch task_id
call (requests_cancellation reason) = request_cancellation reason
call (observes observation) = apply_observation observation
call times_out = mark_dispatch_timed_out
call (gets_cancellation_response acknowledged confirmed reason) =
    apply_cancellation_response acknowledged confirmed reason
call (completes result) = complete_from_result result
call (fails code safe_message) = fail_run code safe_message
call (gets_cancellation_accepted reason) = mark_cancellation_accepted reason
call (confirms_termination reason) = confirm_termination reason
call reconnects = mark_reconnected
call disconnects = mark_disconnected

unfoldable pub calls : List RunCall → ManagedAgentRun → ManagedAgentRun
calls [] run = run
calls (c ∷ cs) run = calls cs (call c run).1
