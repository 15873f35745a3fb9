-- ===== src/ManagedAgent/Coordinator.antt =====
-- The mutations that a parent asks for over the private bridge:
-- auspex-core/src/managed_agent_mutation_coordinator.rs, and the methods of `AppController` that it
-- calls (auspex-core/src/controller.rs). The text of an error is not modelled: each is a constructor
-- with the error that it formats.
pub mod Idempotence
use auspex.Prelude.{
  ℕ, String, Bool, true, false, ◌&&◌, Option, none, some, List, [], ◌∷◌, ◌++◌, Result, ok, err,
  Action, ◌>>=◌, lift, pure, map_err, ok_or, str_eq, if◌then◌else◌,
}
use mathlib.Core.Option
use auspex.Prelude.Maps.{get}
use auspex.ManagedAgent.Domain.{
  ManagedRunId, WorkerId, WorkerProfile, ManagedRunRequest, ManagedAgentValidationError,
  new_request,
}
use auspex.ManagedAgent.Outcome.{ManagedRunA2aRequest, ManagedRunA2aCancel}
use auspex.ManagedAgent.Runtime.{
  RuntimeEntry, SupervisorRuntime, SupervisorRuntimeError, Method, styrene_a2a,
}
use auspex.ManagedAgent.Runtime.Prepare.{Clock, prepare_run, request_a2a_cancellation}
use auspex.ManagedAgent.Projection.{ManagedAgentProjectionError, project_run_for_parent}

pub data ManagedAgentTransportAction : Type 0 where
  styrene_a2a_dispatch : ManagedRunA2aRequest → ManagedAgentTransportAction
  styrene_a2a_cancel : ManagedRunA2aCancel → String → ManagedAgentTransportAction

pub data MutationError : Type 0 where
  invalid_dispatch : ManagedAgentValidationError → MutationError
  preparation_rejected cancellation_rejected : SupervisorRuntimeError → MutationError
  projection_rejected : ManagedAgentProjectionError → MutationError
  unknown_managed_run : MutationError

pub data ManagedAgentMutation : Type 0 where
  dispatches : String → WorkerProfile → List String → ℕ → ManagedAgentMutation
  cancels : ManagedRunId → Option String → ManagedAgentMutation

-- `ManagedAgentDispatchCommand`, without the channel for the answer.
pub record ManagedAgentDispatchCommand : Type 0 where
  pub operation_id : String
  pub parent_session_id : String
  pub operation : ManagedAgentMutation

-- What a command may read besides the state: the ids and the times that are fresh at its turn.
pub record Turn : Type 0 where
  pub fresh_run : ManagedRunId
  pub fresh_worker : WorkerId
  pub clock : Clock
  pub now_unix_ms : ℕ

abbrev pub Controlled : Type 0 → Type 0 → Type 0
Controlled V = Action (SupervisorRuntime V) MutationError

-- The supervisor, the actions that wait for the bearer, and the operations that are done, under the
-- session and the id of each.
pub record Coordination (V : Type 0) : Type 0 where
  pub supervisor : SupervisorRuntime V
  pub actions : List ManagedAgentTransportAction
  pub completed_operations : List ((String × String) × ManagedRunId)

abbrev pub completed_operation :
    String → String → List ((String × String) × ManagedRunId) → Option ManagedRunId
completed_operation session operation [] = none
completed_operation session operation (((a, b), run_id) ∷ rest) =
    if str_eq a session && str_eq b operation
    then some run_id
    else completed_operation session operation rest

module _ {V : Type 0} where
  -- A method of the supervisor, with its error inside that of the controller.
  abbrev rejecting :
      {A : Type 0} → (SupervisorRuntimeError → MutationError) → Method V A → Controlled V A
  rejecting wrap m s = let (result, s') = m s in (map_err wrap result, s')

  -- `prepare_mqtt_managed_agent`
  unfoldable pub prepare_mqtt_managed_agent :
      Turn → String → String → ManagedRunRequest → String → Controlled V ManagedRunId
  unfolding prepare_run
  prepare_mqtt_managed_agent turn session parent_turn request target_agent_id =
      rejecting preparation_rejected (
        prepare_run turn.fresh_run turn.clock turn.fresh_worker session parent_turn request
          (styrene_a2a target_agent_id) turn.now_unix_ms)

  -- `prepare_styrene_a2a_dispatch`
  unfoldable pub prepare_styrene_a2a_dispatch :
      Turn
      → String
      → String
      → ManagedRunRequest
      → String
      → Controlled V (ManagedRunId × ManagedAgentTransportAction)
  unfolding prepare_mqtt_managed_agent
  prepare_styrene_a2a_dispatch turn session parent_turn request target_agent_id = do
    run_id ← prepare_mqtt_managed_agent turn session parent_turn request target_agent_id
    pure (
      run_id,
      styrene_a2a_dispatch (record {
        managed_run_id = run_id;
        worker_id = turn.fresh_worker;
        parent_session_id = session;
        parent_turn_id = parent_turn;
        request = request;
      }),
    )

  -- `prepare_styrene_a2a_cancel`
  unfoldable pub prepare_styrene_a2a_cancel :
      ManagedRunId → Option String → Controlled V ManagedAgentTransportAction
  unfolding request_a2a_cancellation
  prepare_styrene_a2a_cancel run_id reason s =
      (do
        entry ← lift (ok_or (get run_id s.runs) unknown_managed_run)
        cancellation ← rejecting cancellation_rejected (request_a2a_cancellation run_id reason)
        pure (styrene_a2a_cancel cancellation entry.run.parent_session_id))
        s

  -- The `match` of `apply` on the operation.
  unfoldable pub mutate :
      Turn → ManagedAgentDispatchCommand → Controlled V (ManagedRunId × ManagedAgentTransportAction)
  unfolding prepare_styrene_a2a_dispatch prepare_styrene_a2a_cancel
  mutate turn command s = elim command.operation [
    | dispatches directive worker_profile scope deadline ↦
        (do
          request ←
              lift (map_err invalid_dispatch (new_request directive worker_profile scope deadline))
          prepare_styrene_a2a_dispatch turn command.parent_session_id command.operation_id request
              "auspex-managed-worker")
          s
    | cancels run_id reason ↦
        (do
          _ ← lift (
              map_err projection_rejected
                (project_run_for_parent run_id command.parent_session_id s))
          action ← prepare_styrene_a2a_cancel run_id reason
          pure (run_id, action))
          s
  ]

  -- `ManagedAgentMutationCoordinator::apply`
  unfoldable pub apply :
      Turn
      → ManagedAgentDispatchCommand
      → Action (Coordination V) MutationError (ManagedRunId × Bool)
  unfolding mutate
  apply turn command c =
      elim (completed_operation command.parent_session_id command.operation_id
        c.completed_operations) [
          | some run_id ↦ (ok (run_id, true), c)
          | none ↦
              let (result, supervisor) = mutate turn command c.supervisor in
              elim result [
                | err error ↦ (err error, record c { supervisor = supervisor })
                | ok (run_id, action) ↦ (
                  ok (run_id, false),
                  record {
                    supervisor = supervisor;
                    actions = c.actions ++ action ∷ [];
                    completed_operations =
                        ((command.parent_session_id, command.operation_id), run_id)
                        ∷ c.completed_operations;
                  },
                )
              ]
        ]

  -- `process_pending`: the commands that wait in the channel, in their order, and the answer to
  -- each.
  unfoldable pub process_pending :
      List (Turn × ManagedAgentDispatchCommand)
      → Coordination V
      → List (Result MutationError (ManagedRunId × Bool)) × Coordination V
  unfolding apply
  process_pending [] c = ([], c)
  process_pending ((turn, command) ∷ rest) c =
      let (answer, c') = apply turn command c in
      let (answers, last) = process_pending rest c' in (answer ∷ answers, last)
