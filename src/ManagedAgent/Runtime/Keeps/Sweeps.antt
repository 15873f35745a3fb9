-- ===== src/ManagedAgent/Runtime/Keeps/Sweeps.antt =====
-- What the supervisor does to all its runs keeps it coherent.
use auspex.Prelude.{ℕ, inl, inr, List, [], ◌∷◌, Option-cases}
use auspex.Prelude.Maps.{get, filter_map_mut-map_values}
use auspex.ManagedAgent.Domain.{ManagedRunId, WorkerId}
use auspex.ManagedAgent.Runtime.{Instant, SupervisorRuntime}
use auspex.ManagedAgent.Runtime.Sweep.{
  expire_entry, expire_dispatches_at, expire_dispatches_for, mark_worker_disconnected,
  mark_worker_reconnected, disconnect_entry, reconnect_entry, remove_run,
}
use auspex.ManagedAgent.Runtime.Entries.{
  Moves-IsEntryOf, disconnect_entry-Moves, reconnect_entry-Moves, expire_entry-Moves,
}
use auspex.ManagedAgent.Runtime.Coherence.{
  IsCoherent, insert_run-IsCoherent, remove_run_entries-IsCoherent, map_runs-IsCoherent,
}

module _ {V : Type 0} where
  pub mark_worker_disconnected-IsCoherent :
      (worker : WorkerId) (s : SupervisorRuntime V)
      → IsCoherent s
      → IsCoherent (mark_worker_disconnected worker s)
  unfolding mark_worker_disconnected
  mark_worker_disconnected-IsCoherent worker s v =
      map_runs-IsCoherent (disconnect_entry worker) s (disconnect_entry-Moves worker) v

  pub mark_worker_reconnected-IsCoherent :
      (worker : WorkerId) (s : SupervisorRuntime V)
      → IsCoherent s
      → IsCoherent (mark_worker_reconnected worker s)
  unfolding mark_worker_reconnected
  mark_worker_reconnected-IsCoherent worker s v =
      map_runs-IsCoherent (reconnect_entry worker) s (reconnect_entry-Moves worker) v

  pub expire_dispatches_at-IsCoherent :
      (now : Instant) (timeout : ℕ) (s : SupervisorRuntime V)
      → IsCoherent s
      → IsCoherent (expire_dispatches_at now timeout s).1
  unfolding expire_dispatches_at
  expire_dispatches_at-IsCoherent now timeout s v =
      rw (filter_map_mut-map_values (expire_entry now timeout) s.runs)
        (map_runs-IsCoherent _ s (expire_entry-Moves now timeout) v)

  pub expire_dispatches_for-IsCoherent :
      (now : Instant) (timeout : ℕ) (run_ids : List ManagedRunId) (s : SupervisorRuntime V)
      → IsCoherent s
      → IsCoherent (expire_dispatches_for now timeout run_ids s).1
  unfolding expire_dispatches_for
  expire_dispatches_for-IsCoherent now timeout [] s v = v
  expire_dispatches_for-IsCoherent now timeout (run_id ∷ run_ids) s v =
      elim (Option-cases (get run_id s.runs)) [
        | inl missing ↦
            rw (expire_dispatches_for, missing)
              (expire_dispatches_for-IsCoherent now timeout run_ids s v)
        | inr (entry, found) ↦
            rw (expire_dispatches_for, found)
              (expire_dispatches_for-IsCoherent now timeout run_ids _ (
                insert_run-IsCoherent run_id _ s
                  (Moves-IsEntryOf run_id entry _ (expire_entry-Moves now timeout entry)
                    (v.entries run_id entry found))
                  v))
      ]

  pub remove_run-IsCoherent :
      (run_id : ManagedRunId) (s : SupervisorRuntime V)
      → IsCoherent s
      → IsCoherent (remove_run run_id s).1
  unfolding remove_run
  remove_run-IsCoherent run_id s v = remove_run_entries-IsCoherent run_id s v
