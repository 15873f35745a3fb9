-- ===== src/ManagedAgent/Projection.antt =====
-- What a parent session may read of its runs: `project_run_for_parent` and
-- `project_runs_for_parent` of auspex-core/src/managed_agent_runtime.rs, and the sources of status
-- of auspex-core/src/managed_agent_feature.rs.
pub mod Scope
use auspex.Prelude.{
  ℕ, String, Bool, not, Option, none, some, List, [], ◌∷◌, Result, ok, err, find, map_err, str_eq,
  ◌==◌, if◌then◌else◌,
}
use mathlib.Core.Option
use auspex.Prelude.Maps.{Map, get}
use auspex.ManagedAgent.Domain.{ManagedRunId, WorkerId, OmegonTaskId, ManagedRunState}
use auspex.ManagedAgent.Command.{ManagedCommandId, method}
use auspex.ManagedAgent.Runtime.{
  ManagedCommandKind, ManagedCommandDeliveryState, PendingManagedCommand, RuntimeEntry,
  SupervisorRuntime,
}

-- The projections of a command's kind and delivery state have the constructors of those types, and
-- are read as those types.
pub record ManagedCommandDeliveryProjection : Type 0 where
  pub command_id : ManagedCommandId
  pub method : String
  pub command_kind : ManagedCommandKind
  pub attempts : ℕ
  pub state : ManagedCommandDeliveryState

pub record ManagedAgentRunProjection : Type 0 where
  pub schema_version : ℕ
  pub run_id : ManagedRunId
  pub worker_id : WorkerId
  pub parent_session_id : String
  pub parent_turn_id : String
  pub task_id : Option OmegonTaskId
  pub state : ManagedRunState
  pub commands : List ManagedCommandDeliveryProjection

pub data ManagedAgentProjectionError : Type 0 where
  unknown_run parent_session_mismatch : ManagedAgentProjectionError

module _ {V : Type 0} where
  abbrev project_command :
      ManagedCommandId → PendingManagedCommand V → ManagedCommandDeliveryProjection
  project_command command_id c = record {
    command_id = command_id;
    method = Option.get_or (method c.command) "";
    command_kind = c.kind;
    attempts = c.attempts;
    state = c.state;
  }

  -- The commands of one run, in the order of their ids.
  unfoldable pub project_commands :
      ManagedRunId → Map (PendingManagedCommand V) → List ManagedCommandDeliveryProjection
  project_commands run_id [] = []
  project_commands run_id ((command_id, c) ∷ m) =
      let rest = project_commands run_id m in
      if c.run_id == run_id then project_command command_id c ∷ rest else rest

  unfoldable pub project_run_for_parent :
      ManagedRunId
      → String
      → SupervisorRuntime V
      → Result ManagedAgentProjectionError ManagedAgentRunProjection
  unfolding project_commands
  project_run_for_parent run_id parent_session_id s = elim (get run_id s.runs) [
    | none ↦ err unknown_run
    | some entry ↦
        if not (str_eq entry.run.parent_session_id parent_session_id)
        then err parent_session_mismatch
        else ok (record {
          schema_version = 1;
          run_id = run_id;
          worker_id = entry.run.worker_id;
          parent_session_id = entry.run.parent_session_id;
          parent_turn_id = entry.run.parent_turn_id;
          task_id = entry.run.omegon_task_id;
          state = entry.run.state;
          commands = project_commands run_id s.commands;
        })
  ]

  -- `keys().filter_map(|run_id| self.project_run_for_parent(run_id, parent).ok())`, on the entries
  -- that are left to visit.
  project_keys : String → SupervisorRuntime V → Map RuntimeEntry → List ManagedAgentRunProjection
  project_keys parent_session_id s [] = []
  project_keys parent_session_id s ((run_id, entry) ∷ m) =
      let rest = project_keys parent_session_id s m in
      elim (project_run_for_parent run_id parent_session_id s) [ ok p ↦ p ∷ rest | err e ↦ rest ]

  unfoldable pub project_runs_for_parent :
      String → SupervisorRuntime V → List ManagedAgentRunProjection
  unfolding project_keys
  project_runs_for_parent parent_session_id s = project_keys parent_session_id s s.runs

  -- `status` of `ManagedAgentProjectionSource` for the runtime. The error is the one that the
  -- message quotes.
  unfoldable pub runtime_status :
      String
      → Option ManagedRunId
      → SupervisorRuntime V
      → Result ManagedAgentProjectionError (List ManagedAgentRunProjection)
  unfolding project_run_for_parent project_runs_for_parent
  runtime_status parent_session_id (some run_id) s =
      elim (project_run_for_parent run_id parent_session_id s) [
        | ok p ↦ ok (p ∷ [])
        | err e ↦ err e
      ]
  runtime_status parent_session_id none s = ok (project_runs_for_parent parent_session_id s)

-- `ManagedAgentProjectionSnapshot`: what each parent was last shown.
pub record ManagedAgentProjectionSnapshot : Type 0 where
  pub runs_by_parent : List (String × List ManagedAgentRunProjection)

abbrev shown :
    String → List (String × List ManagedAgentRunProjection) → List ManagedAgentRunProjection
shown parent [] = []
shown parent ((p, runs) ∷ m) = if str_eq p parent then runs else shown parent m

put_runs :
    String
    → List ManagedAgentRunProjection
    → List (String × List ManagedAgentRunProjection)
    → List (String × List ManagedAgentRunProjection)
put_runs parent runs [] = (parent, runs) ∷ []
put_runs parent runs ((p, old) ∷ m) =
    if str_eq p parent then (parent, runs) ∷ m else (p, old) ∷ put_runs parent runs m

unfoldable pub replace_parent :
    String
    → List ManagedAgentRunProjection
    → ManagedAgentProjectionSnapshot
    → ManagedAgentProjectionSnapshot
unfolding put_runs
replace_parent parent runs s = record { runs_by_parent = put_runs parent runs s.runs_by_parent }

-- `status` for a snapshot: `none` stands for the one error message.
unfoldable pub snapshot_status :
    String
    → Option ManagedRunId
    → ManagedAgentProjectionSnapshot
    → Option (List ManagedAgentRunProjection)
snapshot_status parent (some run_id) s =
    elim (find (λ p. p.run_id == run_id) (shown parent s.runs_by_parent)) [
      | none ↦ none
      | some p ↦ some (p ∷ [])
    ]
snapshot_status parent none s = some (shown parent s.runs_by_parent)
