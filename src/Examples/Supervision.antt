-- ===== src/Examples/Supervision.antt =====
-- The theorems on the supervisor and on what parents read of it, at concrete inputs.
use auspex.ManagedAgent.Command.{TargetedCommand}
use auspex.Prelude.{
  ◌≡◌, ◌⊎◌, String, refl, trim, true, none, some, List, [], ◌∷◌, ok, err, arith, to_option,
}
use mathlib.Core.Option
use auspex.Prelude.Maps.{get, insert, contains, is_some_and}
use auspex.ManagedAgent.Run.{new_run}
use auspex.ManagedAgent.Runtime.{
  RuntimeEntry, SupervisorRuntimeError, ManagedCommandDeliveryState, new_runtime, styrene_a2a,
  wrong_transport, command_already_pending,
}
use auspex.ManagedAgent.Runtime.Prepare.{
  prepare_run, poll_command, cancel_command, request_a2a_cancellation,
}
use auspex.ManagedAgent.Runtime.Delivery.{apply_command_ack, apply_receipt, replay_due_commands}
use auspex.ManagedAgent.Runtime.Sweep.{
  mark_worker_disconnected, mark_worker_reconnected, expire_dispatches_at, expired_runs_at,
}
use auspex.ManagedAgent.Runtime.Coherence.{
  IsCoherent, insert_run-IsCoherent, insert_route-IsCoherent,
}
use auspex.ManagedAgent.Runtime.Entries.{IsEntryOf}
use auspex.ManagedAgent.Runtime.Steps.{
  SupervisorCall, dispatches, polls, loses, regains, replays, steps, new_runtime-steps-IsCoherent,
}
use auspex.ManagedAgent.Runtime.Preparation.{
  PrepareOutcome, prepare_run_cases, expired_runs_at-prepare_run,
}
use auspex.ManagedAgent.Runtime.Settling.{apply_command_ack-twice, settled_lem}
use auspex.ManagedAgent.Runtime.Replay.{replay_due_commands_lem}
use auspex.ManagedAgent.Runtime.Polling.{poll_command-twice}
use auspex.ManagedAgent.Runtime.Connection.{
  resumed, mark_worker_reconnected-mark_worker_disconnected,
}
use auspex.ManagedAgent.Runtime.Cancellation.{
  cancelling_entry, cancel_command-request_a2a_cancellation,
}
use auspex.ManagedAgent.Runtime.Expiry.{is_timed_out, timed_out_entry, expire_dispatches_at_iff}
use auspex.ManagedAgent.Projection.{
  project_runs_for_parent, runtime_status, replace_parent, snapshot_status,
}
use auspex.ManagedAgent.Projection.Scope.{snapshot_status-refresh}
use auspex.Examples.Fixtures.{
  request, waiting_run, running_run, target, entry_of, a2a_entry_of, texts, poll_of_7,
  supervisor_of, polling, ack_of_70, receipt_of_70, clock, waiting_run-IsConsistent,
  running_run-IsConsistent,
}

-- A supervisor that has taken on a run, lost its worker and sent its commands again.
abbrev scripted_calls : List SupervisorCall
scripted_calls =
    dispatches 7 70 clock 1000 40 "session" "turn" request target 5
    ∷ polls 71 1100 7
    ∷ loses 40
    ∷ regains 40
    ∷ replays 9000 1000
    ∷ []

new_runtime-steps-IsCoherent_example :
    IsCoherent (steps texts scripted_calls (new_runtime String 1024))
new_runtime-steps-IsCoherent_example = new_runtime-steps-IsCoherent texts 1024 scripted_calls

supervisor_of-IsCoherent :
    (entry : RuntimeEntry) → IsEntryOf 7 entry → IsCoherent (supervisor_of entry)
unfolding insert new_runtime steps
supervisor_of-IsCoherent entry own =
    insert_run-IsCoherent 7 entry (new_runtime String 1024) own
      (new_runtime-steps-IsCoherent texts 1024 [])

waiting-IsCoherent : IsCoherent (supervisor_of (entry_of waiting_run))
waiting-IsCoherent =
    supervisor_of-IsCoherent (entry_of waiting_run)
      (record { run_id = refl; consistent = waiting_run-IsConsistent })

running-IsCoherent : IsCoherent (supervisor_of (entry_of running_run))
running-IsCoherent =
    supervisor_of-IsCoherent (entry_of running_run)
      (record { run_id = refl; consistent = running_run-IsConsistent })

polling-IsCoherent : IsCoherent (polling ManagedCommandDeliveryState.pending)
unfolding insert
polling-IsCoherent =
    insert_route-IsCoherent 70 poll_of_7 (supervisor_of (entry_of running_run)) running-IsCoherent

prepare_run_cases_example :
    PrepareOutcome {V = String} 8 clock 40 "session" "turn" request
      (styrene_a2a "worker")
      5
      (supervisor_of (entry_of waiting_run))
prepare_run_cases_example =
    prepare_run_cases 8 clock 40 "session" "turn" request (styrene_a2a "worker") 5
      (supervisor_of (entry_of waiting_run))

expired_runs_at-prepare_run_example :
    contains 8 (
      expired_runs_at 601000001000
        (prepare_run 8 clock 40 "session" "turn" request
          (styrene_a2a "worker")
          5
          (supervisor_of (entry_of waiting_run))).1)
    ≡ true
unfolding new_run trim get
expired_runs_at-prepare_run_example =
    expired_runs_at-prepare_run 8 clock 40 "session" "turn" request (styrene_a2a "worker") 5
      601000001000 (record waiting_run { run_id = 8 }) (supervisor_of (entry_of waiting_run))
      waiting-IsCoherent refl refl

apply_command_ack-twice_example :
    let s = polling ManagedCommandDeliveryState.pending in
    apply_command_ack ack_of_70 (apply_command_ack ack_of_70 s).1 ≡ apply_command_ack ack_of_70 s
apply_command_ack-twice_example =
    apply_command_ack-twice ack_of_70 (polling ManagedCommandDeliveryState.pending)
      polling-IsCoherent

settled_lem_example :
    let s = polling ManagedCommandDeliveryState.proven_by_result in
    ((apply_command_ack ack_of_70 s).1 ≡ s)
    × (get 70 (apply_receipt receipt_of_70 s).1.commands
        ≡ some (record poll_of_7 { state = ManagedCommandDeliveryState.accepted }))
unfolding get
settled_lem_example =
    settled_lem (record poll_of_7 { state = ManagedCommandDeliveryState.proven_by_result })
      ack_of_70 receipt_of_70 (polling ManagedCommandDeliveryState.proven_by_result) refl refl refl
      refl

replay_due_commands_lem_example :
    let s = polling (ManagedCommandDeliveryState.retry_pending "overloaded") in
    ((replay_due_commands 5000 3000 s).0 ≡ poll_of_7.command ∷ [])
    × ((replay_due_commands 5000 3000 (replay_due_commands 5000 3000 s).1).0 ≡ [])
replay_due_commands_lem_example =
    replay_due_commands_lem 5000 3000
      (polling (ManagedCommandDeliveryState.retry_pending "overloaded")) (omega arith)

poll_command-twice_example :
    let s = supervisor_of (entry_of running_run) in
    let (answer, s') = poll_command texts 70 200 7 s in
    ((e : SupervisorRuntimeError) × (answer ≡ err e) × (s' ≡ s))
    ⊎ ((command : TargetedCommand String) × (answer ≡ ok command)
        × (poll_command texts 71 300 7 s' ≡ (err command_already_pending, s')))
poll_command-twice_example =
    poll_command-twice texts 70 71 200 300 7 (supervisor_of (entry_of running_run))

expire_dispatches_at_iff_example :
    let s = supervisor_of (entry_of waiting_run) in
    let (expired, s') = expire_dispatches_at 5000 3000 s in
    (contains 7 expired ≡ is_some_and (is_timed_out 5000 3000) (get 7 s.runs))
    × (get 7 s'.runs ≡ Option.map (timed_out_entry 5000 3000) (get 7 s.runs))
expire_dispatches_at_iff_example =
    expire_dispatches_at_iff 5000 3000 7 (supervisor_of (entry_of waiting_run)) waiting-IsCoherent

mark_worker_reconnected-mark_worker_disconnected_example :
    let s = supervisor_of (entry_of running_run) in
    get 7 (mark_worker_reconnected 40 (mark_worker_disconnected 40 s)).runs
    ≡ Option.map (resumed 40) (get 7 s.runs)
mark_worker_reconnected-mark_worker_disconnected_example =
    mark_worker_reconnected-mark_worker_disconnected 40 7 (supervisor_of (entry_of running_run))

cancel_command-request_a2a_cancellation_example :
    let s = supervisor_of (a2a_entry_of running_run) in
    let cancelling = record s {
      runs = insert 7 (cancelling_entry 7 none (a2a_entry_of running_run)) s.runs;
    } in
    (request_a2a_cancellation 7 none s
      ≡ (ok (record { managed_run_id = 7; worker_id = 40; reason = none }), cancelling))
    × (cancel_command texts 70 200 7 none s ≡ (err wrong_transport, cancelling))
unfolding get
cancel_command-request_a2a_cancellation_example =
    cancel_command-request_a2a_cancellation texts 70 200 7 none "worker" "task"
      (a2a_entry_of running_run) (supervisor_of (a2a_entry_of running_run)) refl refl refl refl

snapshot_status-refresh_example :
    let s = supervisor_of (entry_of running_run) in
    snapshot_status "session" (some 7) (
      replace_parent "session"
        (project_runs_for_parent "session" s)
        (record { runs_by_parent = [] }))
    ≡ to_option (runtime_status "session" (some 7) s)
snapshot_status-refresh_example =
    snapshot_status-refresh "session" (some 7) (record { runs_by_parent = [] })
      (supervisor_of (entry_of running_run))
