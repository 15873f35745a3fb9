-- ===== src/ManagedAgent/Runtime/Cancellation.antt =====
-- What a request for cancellation leaves behind, on each of the two transports.
use auspex.Prelude.{◌≡◌, refl, ap, String, true, Option, some, [], ◌∷◌, ◌++◌, ok, err, ◌>>=◌, arith}
use auspex.Prelude.Maps.{get, insert}
use auspex.ManagedAgent.Domain.{ManagedRunId, OmegonTaskId, ManagedRunState, cancellation_requested}
use auspex.ManagedAgent.Command.{ManagedCommandId}
use auspex.ManagedAgent.Run.{is_cancellable, request_cancellation}
use auspex.ManagedAgent.Serde.{Serde}
use auspex.ManagedAgent.Runtime.{
  Instant, RuntimeEntry, SupervisorRuntime, styrene_a2a, wrong_transport, with_entry,
}
use auspex.ManagedAgent.Runtime.Prepare.{
  cancel_entry, cancel_command, a2a_cancel_entry, request_a2a_cancellation,
}

-- The entry of a run once its cancellation was asked for.
abbrev pub cancelling_entry : ManagedRunId → Option String → RuntimeEntry → RuntimeEntry
cancelling_entry run_id reason entry = record entry {
  run = record entry.run { state = ManagedRunState.cancelling reason };
  events = entry.events ++ cancellation_requested run_id reason ∷ [];
}

cancel_entry-styrene_a2a :
    (serde : Serde) (fresh : ManagedCommandId) (run_id : ManagedRunId) (reason : Option String)
    (agent : String) (task_id : OmegonTaskId) (entry : RuntimeEntry)
    → entry.run.omegon_task_id ≡ some task_id
    → is_cancellable entry.run.state ≡ true
    → entry.transport ≡ styrene_a2a agent
    → cancel_entry serde fresh run_id reason entry
      ≡ (err wrong_transport, cancelling_entry run_id reason entry)
unfolding request_cancellation
cancel_entry-styrene_a2a serde fresh run_id reason agent task_id entry dispatched may bound =
    ground arith

module _ {V : Type 0} where
  request_a2a_cancellation_lem :
      (run_id : ManagedRunId) (reason : Option String) (agent : String) (entry : RuntimeEntry)
      (s : SupervisorRuntime V)
      → get run_id s.runs ≡ some entry
      → is_cancellable entry.run.state ≡ true
      → entry.transport ≡ styrene_a2a agent
      → request_a2a_cancellation run_id reason s ≡ (
        ok (record { managed_run_id = run_id; worker_id = entry.run.worker_id; reason = reason }),
        record s { runs = insert run_id (cancelling_entry run_id reason entry) s.runs },
      )
  unfolding request_a2a_cancellation with_entry request_cancellation
  request_a2a_cancellation_lem run_id reason agent entry s found may bound =
      let done : a2a_cancel_entry run_id reason entry ≡ (
        ok (record { managed_run_id = run_id; worker_id = entry.run.worker_id; reason = reason }),
        cancelling_entry run_id reason entry,
      ) =
        ground arith in
      rw (request_a2a_cancellation, with_entry, found, done) refl

module _ (serde : Serde) where
  open serde use {Value}

  cancel_command-styrene_a2a :
      (fresh : ManagedCommandId) (sent_at : Instant) (run_id : ManagedRunId)
      (reason : Option String) (agent : String) (task_id : OmegonTaskId) (entry : RuntimeEntry)
      (s : SupervisorRuntime Value)
      → get run_id s.runs ≡ some entry
      → entry.run.omegon_task_id ≡ some task_id
      → is_cancellable entry.run.state ≡ true
      → entry.transport ≡ styrene_a2a agent
      → cancel_command serde fresh sent_at run_id reason s ≡ (
        err wrong_transport,
        record s { runs = insert run_id (cancelling_entry run_id reason entry) s.runs },
      )
  unfolding cancel_command with_entry
  cancel_command-styrene_a2a fresh sent_at run_id reason agent task_id entry s found dispatched may
        bound =
      let body =
        cancel_entry-styrene_a2a serde fresh run_id reason agent task_id entry dispatched may
          bound in
      let written : with_entry run_id (cancel_entry serde fresh run_id reason) s ≡ (
        err wrong_transport,
        record s { runs = insert run_id (cancelling_entry run_id reason entry) s.runs },
      ) =
        rw (with_entry, found, body) refl in
      rw (cancel_command, ◌>>=◌, written) (ap (λ r. (err wrong_transport, r.1)) written)

  -- A run on A2A whose task is known and that is running or disconnected is cancelled by
  -- `request_a2a_cancellation`, which returns the message to send. `cancel_command` returns
  -- `WrongTransport` for it, and yet leaves the supervisor just as that does: the run is
  -- cancelling, and the request is noted with it.
  pub cancel_command-request_a2a_cancellation :
      (fresh : ManagedCommandId) (sent_at : Instant) (run_id : ManagedRunId)
      (reason : Option String) (agent : String) (task_id : OmegonTaskId) (entry : RuntimeEntry)
      (s : SupervisorRuntime Value)
      → get run_id s.runs ≡ some entry
      → entry.run.omegon_task_id ≡ some task_id
      → is_cancellable entry.run.state ≡ true
      → entry.transport ≡ styrene_a2a agent
      → let cancelling = record s {
        runs = insert run_id (cancelling_entry run_id reason entry) s.runs;
      } in
        (request_a2a_cancellation run_id reason s ≡ (
          ok (record { managed_run_id = run_id; worker_id = entry.run.worker_id; reason = reason }),
          cancelling,
        ))
        × (cancel_command serde fresh sent_at run_id reason s ≡ (err wrong_transport, cancelling))
  cancel_command-request_a2a_cancellation fresh sent_at run_id reason agent task_id entry s found
        dispatched may bound =
      (
        request_a2a_cancellation_lem run_id reason agent entry s found may bound,
        cancel_command-styrene_a2a fresh sent_at run_id reason agent task_id entry s found
            dispatched may bound,
      )
