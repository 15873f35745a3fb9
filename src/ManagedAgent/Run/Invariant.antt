-- ===== src/ManagedAgent/Run/Invariant.antt =====
-- What every call of a method of a run leaves true.
use auspex.Prelude.{
  String, ◌≡◌, inl, inr, none, some, List, [], ◌∷◌, ok, err, arith, eq_iff, Option-cases,
}
use auspex.ManagedAgent.Domain.{
  ManagedRunId, WorkerId, ManagedRunRequest, OmegonTaskId, ManagedRunTransitionError,
  ManagedRunState, OmegonDelegateObservation,
}
use auspex.ManagedAgent.Run.{ManagedAgentRun, new_run}
use auspex.ManagedAgent.Run.Events.{
  RunCall, accepts_dispatch, requests_cancellation, observes, times_out, call, calls,
}

-- A method that returns an error has not changed the run.
pub call_error_unchanged :
    (c : RunCall) (run : ManagedAgentRun) {e : ManagedRunTransitionError}
    → (call c run).0 ≡ err e
    → (call c run).1 ≡ run
unfolding call
call_error_unchanged times_out run h = ground arith
call_error_unchanged _ run h = ground arith

-- What holds of a run between two calls: before a dispatch is accepted there is no task, and an
-- observation that is kept is one of the run's task.
pub record IsConsistent (run : ManagedAgentRun) : Type 0 where
  pub dispatching : run.state ≡ ManagedRunState.dispatching → run.omegon_task_id ≡ none
  pub timed_out : run.state ≡ ManagedRunState.dispatch_timed_out → run.omegon_task_id ≡ none
  pub observed :
      (o : OmegonDelegateObservation)
      → run.latest_observation ≡ some o
      → run.omegon_task_id ≡ some o.task_id
  pub disconnected :
      (o : OmegonDelegateObservation)
      → run.state ≡ ManagedRunState.disconnected (some o)
      → run.omegon_task_id ≡ some o.task_id

observes_undispatched :
    (seen : OmegonDelegateObservation) (run : ManagedAgentRun)
    → run.omegon_task_id ≡ none
    → (call (observes seen) run).1 ≡ run
unfolding call
observes_undispatched seen run e = ground arith

observes_dispatched :
    (seen : OmegonDelegateObservation) (run : ManagedAgentRun) (task_id : OmegonTaskId)
    → run.omegon_task_id ≡ some task_id
    → IsConsistent run
    → IsConsistent (call (observes seen) run).1
unfolding call
observes_dispatched seen run task_id e v = record {
  dispatching = ground (arith, eq_iff task_id seen.task_id);
  timed_out = ground (arith, eq_iff task_id seen.task_id);
  observed = λ o. ground (arith, v.observed o, eq_iff task_id seen.task_id);
  disconnected = λ o. ground (arith, v.disconnected o, eq_iff task_id seen.task_id);
}

pub call-IsConsistent :
    (c : RunCall) (run : ManagedAgentRun) → IsConsistent run → IsConsistent (call c run).1
unfolding call
call-IsConsistent (accepts_dispatch task_id) run v = ground arith
call-IsConsistent (requests_cancellation reason) run v = record {
  dispatching = ground arith;
  timed_out = ground arith;
  observed = λ o e. ground (arith, v.observed o);
  disconnected = λ o e. ground (arith, v.disconnected o);
}
call-IsConsistent (observes seen) run v = elim (Option-cases run.omegon_task_id) [
  | inl undispatched ↦ rw (observes_undispatched seen run undispatched) v
  | inr (task_id, e) ↦ observes_dispatched seen run task_id e v
]
call-IsConsistent _ run v = record {
  dispatching = ground arith;
  timed_out = ground arith;
  observed = λ o e. ground (arith, v.observed o);
  disconnected = λ o e. ground (arith, v.disconnected o, v.observed o);
}

-- A call changes neither what the run is nor what was asked of it.
pub record KeepsIdentity (run after : ManagedAgentRun) : Type 0 where
  pub run_id : after.run_id ≡ run.run_id
  pub worker_id : after.worker_id ≡ run.worker_id
  pub parent_session_id : after.parent_session_id ≡ run.parent_session_id
  pub parent_turn_id : after.parent_turn_id ≡ run.parent_turn_id
  pub request : after.request ≡ run.request

pub call-KeepsIdentity : (c : RunCall) (run : ManagedAgentRun) → KeepsIdentity run (call c run).1
unfolding call
call-KeepsIdentity times_out run = ground arith
call-KeepsIdentity _ run = ground arith

call-task_id :
    (c : RunCall) (run : ManagedAgentRun) {task_id : OmegonTaskId}
    → IsConsistent run
    → run.omegon_task_id ≡ some task_id
    → (call c run).1.omegon_task_id ≡ some task_id
unfolding call
call-task_id times_out run v e = ground arith
call-task_id _ run v e = ground arith

-- In a consistent run whose task id is set, a sequence of calls leaves the run consistent, and
-- leaves its identity, its request and its task id as they were.
pub calls_lem :
    (cs : List RunCall) (run : ManagedAgentRun) {task_id : OmegonTaskId}
    → IsConsistent run
    → run.omegon_task_id ≡ some task_id
    → IsConsistent (calls cs run)
      × KeepsIdentity run (calls cs run)
      × ((calls cs run).omegon_task_id ≡ some task_id)
unfolding calls
calls_lem [] run v e = (v, ground arith, e)
calls_lem (c ∷ cs) run v e =
    let (kept, same, still) =
      calls_lem cs (call c run).1 (call-IsConsistent c run v) (call-task_id c run v e) in
    let first = call-KeepsIdentity c run in (kept, ground arith, still)

calls-IsConsistent :
    (cs : List RunCall) (run : ManagedAgentRun) → IsConsistent run → IsConsistent (calls cs run)
unfolding calls
calls-IsConsistent [] run v = v
calls-IsConsistent (c ∷ cs) run v = calls-IsConsistent cs (call c run).1 (call-IsConsistent c run v)

pub new_run-IsConsistent :
    (fresh : ManagedRunId) (worker_id : WorkerId) (session turn : String)
    (request : ManagedRunRequest) {run : ManagedAgentRun}
    → new_run fresh worker_id session turn request ≡ ok run
    → IsConsistent run
unfolding new_run
new_run-IsConsistent fresh worker_id session turn request {run} h = record {
  dispatching = ground arith;
  timed_out = ground arith;
  observed = λ o. ground arith;
  disconnected = λ o. ground arith;
}

-- A run that `ManagedAgentRun::new` returns is consistent after any sequence of calls, those that
-- fail among them.
pub new_run-calls-IsConsistent :
    (fresh : ManagedRunId) (worker_id : WorkerId) (session turn : String)
    (request : ManagedRunRequest) (cs : List RunCall) {run : ManagedAgentRun}
    → new_run fresh worker_id session turn request ≡ ok run
    → IsConsistent (calls cs run)
new_run-calls-IsConsistent fresh worker_id session turn request cs {run} h =
    calls-IsConsistent cs run (new_run-IsConsistent fresh worker_id session turn request h)
