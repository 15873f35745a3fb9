-- ===== src/ManagedAgent/Runtime/Prepare.antt =====
-- Starting, polling and cancelling a run: `register_command`, `prepare_run`, `dispatch`,
-- `poll_command`, `cancel_command`, `request_a2a_cancellation`. A fresh id and each reading of the
-- clock is an argument.
use auspex.Prelude.{
  ℕ, ◌+◌, ◌*◌, String, Bool, false, ◌&&◌, Option, none, some, [], ◌∷◌, Result, ok, err, ◌>>=◌, ◌>>◌,
  pure, raise, lift, ok_or, map_err, any, leb, ◌==◌, if◌then◌else◌,
}
use auspex.Prelude.Maps.{get, insert}
use auspex.ManagedAgent.Domain.{
  ManagedRunId, WorkerId, ManagedRunRequest, dispatch_requested, cancellation_requested,
  dispatch_not_accepted,
}
use auspex.ManagedAgent.Run.{new_run, request_cancellation}
use auspex.ManagedAgent.Command.{
  CommandTarget, TargetedCommand, ManagedCommandId, managed_command_id, control_command,
}
use auspex.ManagedAgent.Contract.{
  serialization, new_dispatch_request, new_task_request, new_cancel_request,
  method_delegate_dispatch, method_delegate_get, method_delegate_cancel,
}
use auspex.ManagedAgent.Outcome.{ManagedRunA2aCancel}
use auspex.ManagedAgent.Serde.{Serde}
use auspex.ManagedAgent.Runtime.{
  Instant, ManagedCommandKind, dispatch, poll, cancel, kind_eq, ManagedCommandDeliveryState,
  is_pending, ManagedAgentTransportBinding, omegon_control, styrene_a2a, SupervisorRuntimeError,
  unknown_run, missing_command_id, duplicate_run, command_already_pending, wrong_transport,
  contract, domain, validation, SupervisorRuntime, Method, OnEntry, with_entry, on_run, push_event,
  control_target,
}

-- The monotonic clock: its reading, and the last instant that it can represent.
pub record Clock : Type 0 where
  pub now : Instant
  pub last : Instant

abbrev pub second : ℕ
second = 1000000000

-- `now.checked_add(Duration::from_secs(seconds)).unwrap_or(now)`
unfoldable pub deadline_after : Clock → ℕ → Instant
deadline_after clock seconds =
    let deadline = clock.now + seconds * second in
    if leb deadline clock.last then deadline else clock.now

module _ {V : Type 0} where
  unfoldable pub register_command :
      Instant → ManagedRunId → ManagedCommandKind → TargetedCommand V → Method V (TargetedCommand V)
  register_command now run_id kind command s =
      (do
        command_id ← lift (ok_or (managed_command_id command) missing_command_id)
        entry ← lift (ok_or (get run_id s.runs) unknown_run)
        λ s'. (
          ok command,
          record s' {
            command_runs = insert command_id run_id s'.command_runs;
            commands =
                insert command_id
                  (record {
                    command = command;
                    kind = kind;
                    run_id = run_id;
                    worker_id = entry.run.worker_id;
                    task_id = entry.run.omegon_task_id;
                    state = ManagedCommandDeliveryState.pending;
                    attempts = 1;
                    last_sent_at = now;
                  })
                  s'.commands;
          },
        ))
        s

  unfoldable pub prepare_run :
      ManagedRunId
      → Clock
      → WorkerId
      → String
      → String
      → ManagedRunRequest
      → ManagedAgentTransportBinding
      → ℕ
      → Method V ManagedRunId
  unfolding deadline_after
  prepare_run fresh clock worker_id session turn request transport now_unix_ms s =
      (do
        run ← lift (map_err validation (new_run fresh worker_id session turn request))
        elim (get run.run_id s.runs) [
          | some entry ↦ raise duplicate_run
          | none ↦ λ s'. (
            ok run.run_id,
            record s' {
              runs =
                  insert run.run_id
                    (record {
                      run = run;
                      transport = transport;
                      dispatched_at_unix_ms = now_unix_ms;
                      dispatched_at = clock.now;
                      deadline_at = deadline_after clock run.request.supervisor_deadline_seconds;
                      events = dispatch_requested run.run_id worker_id ∷ [];
                    })
                    s'.runs;
            },
          )
        ])
        s

-- `== Some(&run_id)`
abbrev pub is_run : ManagedRunId → Option ManagedRunId → Bool
is_run run_id none = false
is_run run_id (some found) = found == run_id

module _ (serde : Serde) where
  open serde use {Value, write_dispatch, write_task, write_cancel}

  -- `encode_command`
  abbrev pub encode :
      ManagedCommandId
      → CommandTarget
      → String
      → Result String Value
      → Result SupervisorRuntimeError (TargetedCommand Value)
  encode fresh target name (ok payload) = ok (control_command fresh target name payload)
  encode fresh target name (err error) = err (contract (serialization error))

  -- `dispatch`
  unfoldable pub dispatch_run :
      ManagedRunId
      → ManagedCommandId
      → Clock
      → Instant
      → WorkerId
      → String
      → String
      → ManagedRunRequest
      → CommandTarget
      → ℕ
      → Method Value (ManagedRunId × TargetedCommand Value)
  unfolding prepare_run register_command
  dispatch_run fresh fresh_command clock sent_at worker_id session turn request target now_unix_ms =
      do
        run_id ←
            prepare_run fresh clock worker_id session turn request (omegon_control "" target)
              now_unix_ms
        command ← lift (
            encode fresh_command target method_delegate_dispatch
              (write_dispatch (new_dispatch_request run_id worker_id request)))
        sent ← register_command sent_at run_id dispatch command
        pure (run_id, sent)

  -- The test of `poll_command` for a poll of this run that is still pending.
  unfoldable pub has_pending_poll : ManagedRunId → SupervisorRuntime Value → Bool
  has_pending_poll run_id s =
      any
        (λ entry.
          is_run run_id (get entry.0 s.command_runs)
          && kind_eq entry.1.kind poll
          && is_pending entry.1.state)
        s.commands

  unfoldable pub poll_command :
      ManagedCommandId → Instant → ManagedRunId → Method Value (TargetedCommand Value)
  unfolding has_pending_poll register_command
  poll_command fresh sent_at run_id s =
      if has_pending_poll run_id s
      then (err command_already_pending, s)
      else (do
        entry ← lift (ok_or (get run_id s.runs) unknown_run)
        task_id ← lift (ok_or entry.run.omegon_task_id (domain dispatch_not_accepted))
        target ← lift (control_target entry.transport)
        command ← lift (
            encode fresh target method_delegate_get
              (write_task (new_task_request run_id entry.run.worker_id task_id)))
        register_command sent_at run_id poll command)
          s

  -- The part of `cancel_command` that works on the entry of the run.
  abbrev pub cancel_entry :
      ManagedCommandId → ManagedRunId → Option String → OnEntry (TargetedCommand Value)
  cancel_entry fresh run_id reason entry =
      (do
        task_id ← lift (ok_or entry.run.omegon_task_id (domain dispatch_not_accepted))
        on_run (request_cancellation reason)
        push_event (cancellation_requested run_id reason)
        target ← lift (control_target entry.transport)
        request ←
            lift (map_err contract (new_cancel_request run_id entry.run.worker_id task_id reason))
        lift (encode fresh target method_delegate_cancel (write_cancel request)))
        entry

  unfoldable pub cancel_command :
      ManagedCommandId
      → Instant
      → ManagedRunId
      → Option String
      → Method Value (TargetedCommand Value)
  unfolding register_command with_entry
  cancel_command fresh sent_at run_id reason = do
    command ← with_entry run_id (cancel_entry fresh run_id reason)
    register_command sent_at run_id cancel command

-- The part of `request_a2a_cancellation` that works on the entry of the run.
abbrev pub a2a_cancel_entry : ManagedRunId → Option String → OnEntry ManagedRunA2aCancel
a2a_cancel_entry run_id reason entry = elim entry.transport [
  | omegon_control instance_id target ↦ (err wrong_transport, entry)
  | styrene_a2a target_agent_id ↦
      (do
        on_run (request_cancellation reason)
        push_event (cancellation_requested run_id reason)
        pure (record { managed_run_id = run_id; worker_id = entry.run.worker_id; reason = reason }))
        entry
]

unfoldable pub request_a2a_cancellation :
    {V : Type 0} → ManagedRunId → Option String → Method V ManagedRunA2aCancel
unfolding with_entry
request_a2a_cancellation run_id reason = with_entry run_id (a2a_cancel_entry run_id reason)
