-- ===== src/ManagedAgent/Runtime/Sweep.antt =====
-- What the supervisor does to all its runs at once, and what it reads of them: connections lost and
-- regained, dispatches that time out, deadlines, and the lists of runs.
use auspex.Prelude.{
  ℕ, ◌-◌, Bool, true, false, not, ◌&&◌, Option, none, some, List, [], ◌∷◌, ok, err, leb, ◌==◌,
  if◌then◌else◌,
}
use mathlib.Core.Option
use auspex.Prelude.Maps.{get, insert, remove, map_values, filter_map_mut, select_keys}
use auspex.ManagedAgent.Domain.{
  ManagedRunId, WorkerId, SupervisorEvent, worker_disconnected, worker_reconnected, is_terminal,
}
use auspex.ManagedAgent.Run.{
  ManagedAgentRun, Transition, mark_disconnected, mark_reconnected, mark_dispatch_timed_out,
  is_dispatching, is_running,
}
use auspex.ManagedAgent.Runtime.{
  Instant, RuntimeEntry, SupervisorRuntime, omegon_control, styrene_a2a, push_event,
}

-- `if entry.run.method().is_ok() { entry.events.push(event) }`
unfoldable pub note_if_ok : Transition → SupervisorEvent → RuntimeEntry → RuntimeEntry
note_if_ok method event entry =
    let (result, run') = method entry.run in
    let after : RuntimeEntry = record entry { run = run' } in
    elim result [ ok done ↦ (push_event event after).1 | err e ↦ after ]

abbrev pub is_active_of : WorkerId → RuntimeEntry → Bool
is_active_of worker_id entry =
    (entry.run.worker_id == worker_id) && not (is_terminal entry.run.state)

unfoldable pub disconnect_entry : WorkerId → RuntimeEntry → RuntimeEntry
unfolding note_if_ok mark_disconnected
disconnect_entry worker_id entry =
    if is_active_of worker_id entry
    then note_if_ok mark_disconnected (worker_disconnected entry.run.run_id) entry
    else entry

unfoldable pub reconnect_entry : WorkerId → RuntimeEntry → RuntimeEntry
unfolding note_if_ok mark_reconnected
reconnect_entry worker_id entry =
    if is_active_of worker_id entry
    then note_if_ok mark_reconnected (worker_reconnected entry.run.run_id) entry
    else entry

-- The body of the loops that expire dispatches.
unfoldable pub expire_entry : Instant → ℕ → RuntimeEntry → Option ManagedRunId × RuntimeEntry
unfolding mark_dispatch_timed_out
expire_entry now timeout entry =
    if is_dispatching entry.run.state && leb timeout (now - entry.dispatched_at)
    then (let (result, run') = mark_dispatch_timed_out entry.run in
        (
          elim result [ ok done ↦ some entry.run.run_id | err e ↦ none ],
          record entry { run = run' },
        ))
    else (none, entry)

abbrev pub is_overdue : Instant → RuntimeEntry → Bool
is_overdue now entry = not (is_terminal entry.run.state) && leb entry.deadline_at now

module _ {V : Type 0} where
  unfoldable pub mark_worker_disconnected : WorkerId → SupervisorRuntime V → SupervisorRuntime V
  mark_worker_disconnected worker_id s = record s {
    runs = map_values (disconnect_entry worker_id) s.runs;
  }

  unfoldable pub mark_worker_reconnected : WorkerId → SupervisorRuntime V → SupervisorRuntime V
  mark_worker_reconnected worker_id s = record s {
    runs = map_values (reconnect_entry worker_id) s.runs;
  }

  unfoldable pub expire_dispatches_at :
      Instant → ℕ → SupervisorRuntime V → List ManagedRunId × SupervisorRuntime V
  expire_dispatches_at now timeout s =
      let (expired, runs) = filter_map_mut (expire_entry now timeout) s.runs in
      (expired, record s { runs = runs })

  -- `expire_dispatches_for`: the ids in the order in which the set gives them.
  unfoldable pub expire_dispatches_for :
      Instant
      → ℕ
      → List ManagedRunId
      → SupervisorRuntime V
      → List ManagedRunId × SupervisorRuntime V
  unfolding expire_entry
  expire_dispatches_for now timeout [] s = ([], s)
  expire_dispatches_for now timeout (run_id ∷ run_ids) s = elim (get run_id s.runs) [
    | none ↦ expire_dispatches_for now timeout run_ids s
    | some entry ↦
        let (hit, written) = expire_entry now timeout entry in
        let (rest, s') =
          expire_dispatches_for now timeout run_ids
            (record s { runs = insert run_id written s.runs }) in
        (elim hit [ none ↦ rest | some _ ↦ run_id ∷ rest ], s')
  ]

  unfoldable pub expired_runs_at : Instant → SupervisorRuntime V → List ManagedRunId
  expired_runs_at now s = select_keys (is_overdue now) s.runs

  unfoldable pub pollable_run_ids : SupervisorRuntime V → List ManagedRunId
  pollable_run_ids s = select_keys (λ entry. is_running entry.run.state) s.runs

  unfoldable pub active_run_ids : SupervisorRuntime V → List ManagedRunId
  active_run_ids s = select_keys (λ entry. not (is_terminal entry.run.state)) s.runs

  -- `remove_run`
  unfoldable pub remove_run :
      ManagedRunId → SupervisorRuntime V → Option ManagedAgentRun × SupervisorRuntime V
  remove_run run_id s = (
    Option.map (λ (entry : RuntimeEntry). entry.run) (get run_id s.runs),
    record s { runs = remove run_id s.runs },
  )

  -- `is_omegon_control_run`
  unfoldable pub is_omegon_control_run : ManagedRunId → SupervisorRuntime V → Bool
  is_omegon_control_run run_id s = elim (get run_id s.runs) [
    | none ↦ false
    | some entry ↦ elim entry.transport [ omegon_control i t ↦ true | styrene_a2a t ↦ false ]
  ]
