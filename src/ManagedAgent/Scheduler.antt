-- ===== src/ManagedAgent/Scheduler.antt =====
-- The runs on Omegon's control plane: `dispatch_managed_agent`, `cancel_managed_agent`,
-- `tick_managed_agents` and `dispatch_to_instance` of `AppController`,
-- auspex-core/src/controller.rs. Of the sessions with the instances, what matters here is which are
-- connected and what is sent to them. The text of an error is not modelled: each is a constructor
-- with what it names.
pub mod Scope
use auspex.Prelude.{
  ℕ, String, Bool, true, false, not, ◌||◌, Option, none, some, List, [], ◌∷◌, ◌++◌, map, Result, ok,
  err, Action, ◌*◌, ◌>>=◌, ◌>>◌, lift, pure, raise, map_err, ok_or, retain, if◌then◌else◌,
}
use mathlib.Core.Option
use auspex.Prelude.Maps.{Map, get, insert, contains}
use auspex.ManagedAgent.Domain.{
  ManagedRunId, WorkerId, ManagedRunRequest, ManagedRunState, dispatch_not_accepted,
}
use auspex.ManagedAgent.Run.{is_cancelling}
use auspex.ManagedAgent.Command.{
  ManagedCommandId, CommandTarget, TargetedCommand, managed_command_id,
}
use auspex.ManagedAgent.Serde.{Serde}
use auspex.ManagedAgent.Runtime.{
  Instant, RuntimeEntry, SupervisorRuntime, SupervisorRuntimeError, domain, Method,
}
use auspex.ManagedAgent.Runtime.Prepare.{Clock, second, dispatch_run, poll_command, cancel_command}
use auspex.ManagedAgent.Runtime.Delivery.{replay_due_commands}
use auspex.ManagedAgent.Runtime.Sweep.{
  expire_dispatches_for, expired_runs_at, active_run_ids, is_omegon_control_run, remove_run,
}

pub data SchedulerError : Type 0 where
  no_session : String → SchedulerError
  dispatch_rejected cancellation_rejected : SupervisorRuntimeError → SchedulerError
  run_has_no_instance acceptance_timed_out : ManagedRunId → SchedulerError
  command_has_no_instance : ManagedCommandId → SchedulerError
  run_failed : ManagedRunId → SupervisorRuntimeError → SchedulerError

-- The part of `AppController` that these methods write, and the commands handed to the sessions.
pub record Scheduler (V : Type 0) : Type 0 where
  pub supervisor : SupervisorRuntime V
  pub managed_agent_instances : Map String
  pub sent : List (String × TargetedCommand V)

-- `ManagedRunState::Disconnected { .. } | ManagedRunState::Cancelling { .. }`
abbrev pub is_waiting : ManagedRunState → Bool
is_waiting (ManagedRunState.disconnected _) = true
is_waiting state = is_cancelling state

-- What a tick reads besides the state: the clock at each of its readings, the ids that are fresh,
-- and the order in which the hash set gives its elements.
pub record TickInputs : Type 0 where
  pub expiry_now : Instant
  pub deadline_now : Instant
  pub replay_now : Instant
  pub sent_at : ManagedRunId → Instant
  pub fresh : ManagedRunId → ManagedCommandId
  pub set_order : List ManagedRunId → List ManagedRunId

-- What a `Result` adds to the list of errors.
abbrev pub errors_of : {A : Type 0} → Result SchedulerError A → List SchedulerError
errors_of (ok a) = []
errors_of (err error) = error ∷ []

module _ {V : Type 0} where
  -- A method of the supervisor, as one of the controller's.
  abbrev pub on_supervisor :
      {A : Type 0}
      → (SupervisorRuntimeError → SchedulerError)
      → Method V A
      → Action (Scheduler V) SchedulerError A
  on_supervisor wrap m c =
      let (result, supervisor) = m c.supervisor in
      (map_err wrap result, record c { supervisor = supervisor })

  -- `dispatch_to_instance`
  unfoldable pub dispatch_to_instance :
      (String → Bool) → String → TargetedCommand V → Action (Scheduler V) SchedulerError (Unit {0})
  dispatch_to_instance is_connected instance_id command c =
      if is_connected instance_id
      then (ok tt, record c { sent = c.sent ++ (instance_id, command) ∷ [] })
      else (err (no_session instance_id), c)

  -- One command that is sent again goes to its run's instance.
  unfoldable pub resend_command :
      (String → Bool) → TargetedCommand V → Scheduler V → List SchedulerError × Scheduler V
  unfolding dispatch_to_instance
  resend_command is_connected command c = elim (managed_command_id command) [
    | none ↦ ([], c)
    | some command_id ↦ elim (get command_id c.supervisor.command_runs) [
      | none ↦ ([], c)
      | some run_id ↦ elim (get run_id c.managed_agent_instances) [
        | none ↦ (command_has_no_instance command_id ∷ [], c)
        | some instance_id ↦
            let (result, c') = dispatch_to_instance is_connected instance_id command c in
            (errors_of result, c')
      ]
    ]
  ]

  -- The last loop of `tick_managed_agents`.
  unfoldable pub resend :
      (String → Bool) → List (TargetedCommand V) → Scheduler V → List SchedulerError × Scheduler V
  unfolding resend_command
  resend is_connected [] c = ([], c)
  resend is_connected (command ∷ rest) c =
      let (errors, c') = resend_command is_connected command c in
      let (more, last) = resend is_connected rest c' in (errors ++ more, last)

module _ (serde : Serde) (is_connected : String → Bool) where
  open serde use {Value}

  unfoldable pub dispatch_managed_agent :
      ManagedRunId
      → ManagedCommandId
      → Clock
      → Instant
      → String
      → WorkerId
      → String
      → String
      → ManagedRunRequest
      → CommandTarget
      → ℕ
      → Action (Scheduler Value) SchedulerError ManagedRunId
  unfolding dispatch_to_instance dispatch_run remove_run
  dispatch_managed_agent fresh fresh_command clock sent_at instance_id worker_id session turn
        request target at c =
      if not (is_connected instance_id)
      then (err (no_session instance_id), c)
      else (do
        (run_id, command) ← on_supervisor dispatch_rejected (
            dispatch_run serde fresh fresh_command clock sent_at worker_id session turn request
              target at)
        λ c'.
            let (result, c'') = dispatch_to_instance is_connected instance_id command c' in
            elim result [
              | err error ↦
                  (err error, record c'' { supervisor = (remove_run run_id c''.supervisor).1 })
              | ok _ ↦ (
                ok run_id,
                record c'' {
                  managed_agent_instances = insert run_id instance_id c''.managed_agent_instances;
                },
              )
            ])
          c

  unfoldable pub cancel_managed_agent :
      ManagedCommandId
      → Instant
      → ManagedRunId
      → Option String
      → Action (Scheduler Value) SchedulerError (Unit {0})
  unfolding dispatch_to_instance cancel_command
  cancel_managed_agent fresh sent_at run_id reason c =
      (do
        instance_id ←
            lift (ok_or (get run_id c.managed_agent_instances) (run_has_no_instance run_id))
        command ←
            on_supervisor cancellation_rejected (cancel_command serde fresh sent_at run_id reason)
        dispatch_to_instance is_connected instance_id command)
        c

  -- What a tick makes of the supervisor's answer about one run: the command goes to the instance, and
  -- a dispatch that was not accepted is no error.
  abbrev deliver :
      ManagedRunId
      → String
      → Result SupervisorRuntimeError (TargetedCommand Value)
      → Scheduler Value
      → List SchedulerError × Scheduler Value
  deliver run_id instance_id (ok command) c =
      let (result, c') = dispatch_to_instance is_connected instance_id command c in
      (errors_of result, c')
  deliver run_id instance_id (err (domain dispatch_not_accepted)) c = ([], c)
  deliver run_id instance_id (err error) c = (run_failed run_id error ∷ [], c)

  -- The body of the loop of `tick_managed_agents` over the active runs. A run that passes the first
  -- test is there.
  unfoldable pub schedule_run :
      TickInputs
      → List ManagedRunId
      → ManagedRunId
      → Scheduler Value
      → List SchedulerError × Scheduler Value
  unfolding dispatch_to_instance cancel_command poll_command is_omegon_control_run
  schedule_run inputs expired run_id c =
      if not (is_omegon_control_run run_id c.supervisor)
      then ([], c)
      else elim (get run_id c.supervisor.runs) [
        | none ↦ ([], c)
        | some entry ↦
            if is_waiting entry.run.state
            then ([], c)
            else elim (get run_id c.managed_agent_instances) [
              | none ↦ (run_has_no_instance run_id ∷ [], c)
              | some instance_id ↦
                  let (result, supervisor) =
                    (if contains run_id expired
                        then cancel_command serde (inputs.fresh run_id) (inputs.sent_at run_id)
                            run_id (some "supervisor deadline exceeded")
                        else poll_command serde (inputs.fresh run_id) (inputs.sent_at run_id)
                            run_id)
                      c.supervisor in
                  deliver run_id instance_id result (record c { supervisor = supervisor })
            ]
      ]

  unfoldable pub schedule_runs :
      TickInputs
      → List ManagedRunId
      → List ManagedRunId
      → Scheduler Value
      → List SchedulerError × Scheduler Value
  unfolding schedule_run
  schedule_runs inputs expired [] c = ([], c)
  schedule_runs inputs expired (run_id ∷ run_ids) c =
      let (errors, c') = schedule_run inputs expired run_id c in
      let (more, last) = schedule_runs inputs expired run_ids c' in (errors ++ more, last)

  unfoldable pub tick_managed_agents :
      TickInputs → Scheduler Value → List SchedulerError × Scheduler Value
  unfolding schedule_runs resend
  tick_managed_agents inputs c =
      let control_run_ids = inputs.set_order (
        retain (λ run_id. is_omegon_control_run run_id c.supervisor)
          (active_run_ids c.supervisor)) in
      let (timeouts, expiring) =
        expire_dispatches_for inputs.expiry_now (15 * second) control_run_ids c.supervisor in
      let expired = expired_runs_at inputs.deadline_now expiring in
      let (errors, scheduled) =
        schedule_runs inputs expired (active_run_ids expiring)
          (record c { supervisor = expiring }) in
      let (replayed, replaying) =
        replay_due_commands inputs.replay_now (3 * second) scheduled.supervisor in
      let (more, last) =
        resend is_connected replayed (record scheduled { supervisor = replaying }) in
      (map acceptance_timed_out timeouts ++ errors ++ more, last)
