-- ===== src/ManagedAgent/Runtime/Keeps/Calls.antt =====
-- Starting, polling and cancelling a run keeps the supervisor coherent.
use auspex.Prelude.{
  ℕ, String, inl, inr, Option, Result, ◌>>=◌, lift, pure, Option-cases, Bool-cases, Result-cases,
}
use auspex.Prelude.Maps.{get}
use auspex.ManagedAgent.Domain.{ManagedRunId, WorkerId, ManagedRunRequest, OmegonTaskId}
use auspex.ManagedAgent.Command.{ManagedCommandId, TargetedCommand, CommandTarget}
use auspex.ManagedAgent.Contract.{new_task_request, new_dispatch_request, method_delegate_dispatch}
use auspex.ManagedAgent.Serde.{Serde}
use auspex.ManagedAgent.Runtime.{
  Instant, SupervisorRuntimeError, control_target, omegon_control, ManagedCommandKind, with_entry,
}
use auspex.ManagedAgent.Runtime.Prepare.{
  Clock, encode, register_command, prepare_run, dispatch_run, poll_command, cancel_command,
  has_pending_poll, cancel_entry,
}
use auspex.ManagedAgent.Runtime.Entries.{cancel_entry-Moves}
use auspex.ManagedAgent.Runtime.Coherence.{with_entry-IsCoherent}
use auspex.ManagedAgent.Runtime.Keeps.{Keeps, bind-Keeps, register_command-Keeps, prepare_run-Keeps}

module _ (serde : Serde) where
  open serde use {Value}

  abbrev poll_payload : ManagedRunId → WorkerId → OmegonTaskId → Result String Value
  poll_payload run_id worker_id task_id =
      serde.write_task (new_task_request run_id worker_id task_id)

  abbrev dispatch_payload :
      ManagedCommandId
      → CommandTarget
      → ManagedRunId
      → WorkerId
      → ManagedRunRequest
      → Result SupervisorRuntimeError (TargetedCommand Value)
  dispatch_payload fresh_command target run_id worker_id request =
      encode serde fresh_command target method_delegate_dispatch
        (serde.write_dispatch (new_dispatch_request run_id worker_id request))

  pub cancel_command-Keeps :
      (fresh : ManagedCommandId) (sent_at : Instant) (run_id : ManagedRunId)
      (reason : Option String)
      → Keeps (cancel_command serde fresh sent_at run_id reason)
  unfolding cancel_command
  cancel_command-Keeps fresh sent_at run_id reason =
      bind-Keeps (with_entry run_id (cancel_entry serde fresh run_id reason))
        (register_command sent_at run_id ManagedCommandKind.cancel)
        (λ s v.
          with_entry-IsCoherent run_id (cancel_entry serde fresh run_id reason) s
            (cancel_entry-Moves serde fresh run_id reason) v)
        (λ command. register_command-Keeps sent_at run_id ManagedCommandKind.cancel command)

  pub poll_command-Keeps :
      (fresh : ManagedCommandId) (sent_at : Instant) (run_id : ManagedRunId)
      → Keeps (poll_command serde fresh sent_at run_id)
  unfolding poll_command
  poll_command-Keeps fresh sent_at run_id s v =
      elim (Bool-cases (has_pending_poll serde run_id s)) [
        | inl waits ↦ rw (poll_command, waits) v
        | inr free ↦ elim (Option-cases (get run_id s.runs)) [
          | inl missing ↦ rw (poll_command, ◌>>=◌, free, missing) v
          | inr (entry, found) ↦ elim (Option-cases entry.run.omegon_task_id) [
            | inl undispatched ↦ rw (poll_command, ◌>>=◌, free, found, undispatched) v
            | inr (task_id, dispatched) ↦ elim (Result-cases (control_target entry.transport)) [
              | inr (x, other) ↦ rw (poll_command, ◌>>=◌, free, found, dispatched, other) v
              | inl (target, bound) ↦
                  elim (Result-cases (poll_payload run_id entry.run.worker_id task_id)) [
                    | inr (x, unwritten) ↦
                        rw (poll_command, ◌>>=◌, free, found, dispatched, bound, unwritten) v
                    | inl (payload, written) ↦
                        rw (poll_command, ◌>>=◌, free, found, dispatched, bound, written)
                          (register_command-Keeps sent_at run_id ManagedCommandKind.poll _ s v)
                  ]
            ]
          ]
        ]
      ]

  pub dispatch_run-Keeps :
      (fresh : ManagedRunId) (fresh_command : ManagedCommandId) (clock : Clock) (sent_at : Instant)
      (worker_id : WorkerId) (session turn : String) (request : ManagedRunRequest)
      (target : CommandTarget) (at : ℕ)
      → Keeps (
          dispatch_run serde fresh fresh_command clock sent_at worker_id session turn request target
            at)
  unfolding dispatch_run
  dispatch_run-Keeps fresh fresh_command clock sent_at worker_id session turn request target at =
      bind-Keeps
        (prepare_run fresh clock worker_id session turn request (omegon_control "" target) at)
        (λ run_id.
          lift (dispatch_payload fresh_command target run_id worker_id request) >>= λ command.
          register_command sent_at run_id ManagedCommandKind.dispatch command >>= λ sent.
          pure (run_id, sent))
        (prepare_run-Keeps fresh clock worker_id session turn request (omegon_control "" target) at)
        (λ run_id.
          bind-Keeps (lift (dispatch_payload fresh_command target run_id worker_id request))
            (λ command.
              register_command sent_at run_id ManagedCommandKind.dispatch command >>= λ sent.
              pure (run_id, sent))
            (λ s v. v)
            (λ command.
              bind-Keeps (register_command sent_at run_id ManagedCommandKind.dispatch command)
                (λ sent. pure (run_id, sent))
                (register_command-Keeps sent_at run_id ManagedCommandKind.dispatch command)
                (λ _ s v. v)))
