-- ===== src/ManagedAgent/Contract/Laws.antt =====
-- Which messages of the supervisor contract are accepted.
use auspex.Prelude.{ℕ, len, ◌≤◌, ◌≡◌, ◌↔◌, ◌⊎◌, true, false, none, some, ok, arith, eq_iff}
use auspex.ManagedAgent.Domain.{ManagedRunId, WorkerId, OmegonTaskId}
use auspex.ManagedAgent.Contract.{
  DelegateDispatchResponse, DelegateObservationResponse, DelegateResultResponse,
  DelegateCancelResponse, validate_dispatch, validate_observation, validate_result, validate_cancel,
}

-- A dispatch response names a task exactly when it has the contract's version, answers this run of
-- this worker, is accepted with that task, and carries no rejection.
pub validate_dispatch_iff :
    (r : DelegateDispatchResponse) (run : ManagedRunId) (worker : WorkerId) (task : OmegonTaskId)
    → (validate_dispatch r run worker ≡ ok task) ↔ (
        (r.schema_version ≡ 1)
        × (r.managed_run_id ≡ run)
        × (r.worker_id ≡ worker)
        × (r.accepted ≡ true)
        × (r.task_id ≡ some task)
        × (r.rejection ≡ none))
unfolding validate_dispatch
validate_dispatch_iff r run worker task = (λ h. ground arith, λ h. ground arith)

-- The three answers about a task are taken exactly when they have the contract's version and name
-- this run, this worker and this task; a result also has to fit its limit in bytes, and a
-- cancellation that confirms termination has to be acknowledged.
pub validate_task_iff :
    (o : DelegateObservationResponse) (r : DelegateResultResponse) (c : DelegateCancelResponse)
    (run : ManagedRunId) (worker : WorkerId) (task : OmegonTaskId) (limit : ℕ)
    → ((validate_observation o run worker task ≡ ok tt) ↔ (
        (o.schema_version ≡ 1)
        × (o.managed_run_id ≡ run)
        × (o.worker_id ≡ worker)
        × (o.observation.task_id ≡ task)))
      × ((validate_result r run worker task limit ≡ ok tt) ↔ (
          (r.schema_version ≡ 1)
          × (r.managed_run_id ≡ run)
          × (r.worker_id ≡ worker)
          × (r.task_id ≡ task)
          × (len r.result ≤ limit)))
      × ((validate_cancel c run worker task ≡ ok tt) ↔ (
          (c.schema_version ≡ 1)
          × (c.managed_run_id ≡ run)
          × (c.worker_id ≡ worker)
          × (c.task_id ≡ task)
          × ((c.termination_confirmed ≡ false) ⊎ (c.acknowledged ≡ true))))
unfolding validate_observation validate_result validate_cancel
validate_task_iff o r c run worker task limit = (
  (
    λ h. ground (arith, eq_iff o.observation.task_id task),
    λ h. ground (arith, eq_iff o.observation.task_id task),
  ),
  (λ h. ground (arith, eq_iff r.task_id task), λ h. ground (arith, eq_iff r.task_id task)),
  (λ h. ground (arith, eq_iff c.task_id task), λ h. ground (arith, eq_iff c.task_id task)),
)
