-- ===== src/ManagedAgent/Runtime/Connection.antt =====
-- What a worker's lost connection does to the runs, and what its return does.
use auspex.Prelude.{
  ◌≡◌, refl, ap, inl, inr, true, Option, none, some, List, [], ◌∷◌, ◌++◌, arith, ◌∙◌, if◌then◌else◌,
  Bool-cases,
}
use auspex.Prelude.Maps.{get, map_values, get-map_values}
use mathlib.Core.Option
use auspex.ManagedAgent.Domain.{
  ManagedRunId, WorkerId, ManagedRunState, worker_disconnected, worker_reconnected,
}
use auspex.ManagedAgent.Runtime.{RuntimeEntry, SupervisorRuntime}
use auspex.ManagedAgent.Runtime.Sweep.{
  is_active_of, disconnect_entry, reconnect_entry, mark_worker_disconnected,
  mark_worker_reconnected,
}

append_twice : {A : Type 0} (xs : List A) (a b : A) → (xs ++ a ∷ []) ++ b ∷ [] ≡ xs ++ a ∷ b ∷ []
append_twice [] a b = refl
append_twice (x ∷ xs) a b = ap (◌∷◌ x) (append_twice xs a b)

-- The entry after its worker was away, if the run was live.
abbrev pub resumed : WorkerId → RuntimeEntry → RuntimeEntry
resumed worker entry =
    if is_active_of worker entry
    then record entry {
      run = record entry.run { state = ManagedRunState.running };
      events =
          entry.events
          ++ worker_disconnected entry.run.run_id ∷ worker_reconnected entry.run.run_id ∷ [];
    }
    else entry

disconnect_entry_lem :
    (worker : WorkerId) (entry : RuntimeEntry)
    → is_active_of worker entry ≡ true
    → disconnect_entry worker entry ≡ record entry {
      run = record entry.run { state = ManagedRunState.disconnected entry.run.latest_observation };
      events = entry.events ++ worker_disconnected entry.run.run_id ∷ [];
    }
unfolding disconnect_entry
disconnect_entry_lem worker entry active = ground arith

reconnect_entry-disconnect_entry :
    (worker : WorkerId) (entry : RuntimeEntry)
    → reconnect_entry worker (disconnect_entry worker entry) ≡ resumed worker entry
unfolding disconnect_entry reconnect_entry
reconnect_entry-disconnect_entry worker entry = elim (Bool-cases (is_active_of worker entry)) [
  | inr other ↦ ground arith
  | inl active ↦ ground (
    arith,
    disconnect_entry_lem worker entry active,
    append_twice entry.events (worker_disconnected entry.run.run_id)
        (worker_reconnected entry.run.run_id),
  )
]

map-map :
    {A : Type 0} (f g h : A → A) (o : Option A)
    → ((a : A) → f (g a) ≡ h a)
    → Option.map f (Option.map g o) ≡ Option.map h o
map-map f g h none e = refl
map-map f g h (some a) e = ap some (e a)

module _ {V : Type 0} where
  -- After a worker was lost and has come back, each of its live runs counts as running, whatever
  -- state it was in, and the loss and the return are noted with it. The runs that had ended and
  -- those of other workers are as they were.
  pub mark_worker_reconnected-mark_worker_disconnected :
      (worker : WorkerId) (run_id : ManagedRunId) (s : SupervisorRuntime V)
      → get run_id (mark_worker_reconnected worker (mark_worker_disconnected worker s)).runs
        ≡ Option.map (resumed worker) (get run_id s.runs)
  unfolding mark_worker_reconnected mark_worker_disconnected
  mark_worker_reconnected-mark_worker_disconnected worker run_id s =
      get-map_values (reconnect_entry worker) run_id (map_values (disconnect_entry worker) s.runs)
      ∙ ap (Option.map (reconnect_entry worker))
          (get-map_values (disconnect_entry worker) run_id s.runs)
      ∙ map-map (reconnect_entry worker) (disconnect_entry worker) (resumed worker)
          (get run_id s.runs) (reconnect_entry-disconnect_entry worker)
