-- ===== src/ManagedAgent/Projection/Scope.antt =====
-- A parent session reads its own runs, all of them and no other.
use auspex.Prelude.{
  String, ◌≡◌, inl, inr, refl, Bool, true, false, Option, none, some, List, [], ◌∷◌, ok, err, arith,
  eq_iff, str_eq, find, ◌==◌, if◌then◌else◌, Option-cases, Result-cases, to_option, any, ◌&&◌, ◌||◌,
}
use auspex.Prelude.Maps.{Map, get, is_some_and}
use auspex.ManagedAgent.Domain.{ManagedRunId}
use auspex.ManagedAgent.Runtime.{RuntimeEntry, SupervisorRuntime}
use auspex.ManagedAgent.Projection.{
  ManagedAgentRunProjection, unknown_run, project_run_for_parent, project_runs_for_parent,
  project_keys, runtime_status, ManagedAgentProjectionSnapshot, replace_parent, snapshot_status,
  put_runs, shown,
}

-- A run is listed.
abbrev pub lists : ManagedRunId → List ManagedAgentRunProjection → Bool
lists run_id = any (λ p. p.run_id == run_id)

abbrev pub is_run_of : String → RuntimeEntry → Bool
is_run_of parent entry = str_eq entry.run.parent_session_id parent

abbrev has_key : ManagedRunId → Map RuntimeEntry → Bool
has_key k [] = false
has_key k ((j, entry) ∷ m) = j == k || has_key k m

has_key-get :
    (k : ManagedRunId) (m : Map RuntimeEntry) → has_key k m ≡ is_some_and (λ _. true) (get k m)
unfolding get
has_key-get k [] = refl
has_key-get k ((j, entry) ∷ m) = ground (arith, has_key-get k m)

module _ {V : Type 0} where
  abbrev shows : ManagedRunId → String → SupervisorRuntime V → Bool
  shows k parent s = elim (project_run_for_parent k parent s) [ ok p ↦ true | err e ↦ false ]

  shows_lem :
      (k : ManagedRunId) (parent : String) (s : SupervisorRuntime V)
      → shows k parent s ≡ is_some_and (is_run_of parent) (get k s.runs)
  unfolding project_run_for_parent
  shows_lem k parent s = ground arith

  project_run_id :
      (k : ManagedRunId) (parent : String) (s : SupervisorRuntime V) (p : ManagedAgentRunProjection)
      → project_run_for_parent k parent s ≡ ok p
      → p.run_id ≡ k
  unfolding project_run_for_parent
  project_run_id k parent s p h = ground arith

  project_keys_lem :
      (k : ManagedRunId) (parent : String) (s : SupervisorRuntime V) (m : Map RuntimeEntry)
      → lists k (project_keys parent s m) ≡ (has_key k m && shows k parent s)
  unfolding project_keys
  project_keys_lem k parent s [] = refl
  project_keys_lem k parent s ((j, entry) ∷ m) =
      elim (Result-cases (project_run_for_parent j parent s)) [
        | inl (p, e) ↦ ground (arith, project_run_id j parent s p, project_keys_lem k parent s m)
        | inr (x, e) ↦ ground (arith, project_keys_lem k parent s m)
      ]

  -- The list for a parent holds a run exactly if that run is there and has this parent.
  pub project_runs_complete :
      (k : ManagedRunId) (parent : String) (s : SupervisorRuntime V)
      → lists k (project_runs_for_parent parent s) ≡ is_some_and (is_run_of parent) (get k s.runs)
  unfolding project_runs_for_parent
  project_runs_complete k parent s =
      ground (arith, project_keys_lem k parent s s.runs, has_key-get k s.runs, shows_lem k parent s)

  -- A projection is of the run that was asked for, which is there with this parent, and shows the
  -- state and the task of that run.
  pub project_run_sound :
      (run_id : ManagedRunId) (parent : String) (s : SupervisorRuntime V)
      (p : ManagedAgentRunProjection)
      → project_run_for_parent run_id parent s ≡ ok p
      → (entry : RuntimeEntry) × (get run_id s.runs ≡ some entry)
        × (entry.run.parent_session_id ≡ parent)
        × (p.run_id ≡ run_id)
        × (p.parent_session_id ≡ parent)
        × (p.state ≡ entry.run.state)
        × (p.task_id ≡ entry.run.omegon_task_id)
  unfolding project_run_for_parent
  project_run_sound run_id parent s p h = elim (Option-cases (get run_id s.runs)) [
    | inl missing ↦ absurd (ground arith)
    | inr (entry, e) ↦ (
      entry,
      e,
      ground (arith, eq_iff entry.run.parent_session_id parent),
      ground (arith, eq_iff entry.run.parent_session_id parent),
      ground (arith, eq_iff entry.run.parent_session_id parent),
      ground (arith, eq_iff entry.run.parent_session_id parent),
      ground (arith, eq_iff entry.run.parent_session_id parent),
    )
  ]

shown-put_runs :
    (parent : String) (runs : List ManagedAgentRunProjection)
    (m : List (String × List ManagedAgentRunProjection))
    → shown parent (put_runs parent runs m) ≡ runs
unfolding put_runs
shown-put_runs parent runs [] = ground (arith, eq_iff parent parent)
shown-put_runs parent runs ((p, old) ∷ m) =
    ground (arith, eq_iff p parent, eq_iff parent parent, shown-put_runs parent runs m)

module _ {V : Type 0} where
  find-project_keys :
      (k : ManagedRunId) (parent : String) (s : SupervisorRuntime V) (m : Map RuntimeEntry)
      → find (λ p. p.run_id == k) (project_keys parent s m)
        ≡ (if has_key k m then to_option (project_run_for_parent k parent s) else none)
  unfolding project_keys
  find-project_keys k parent s [] = refl
  find-project_keys k parent s ((j, entry) ∷ m) =
      elim (Result-cases (project_run_for_parent j parent s)) [
        | inl (p, e) ↦ ground (arith, project_run_id j parent s p, find-project_keys k parent s m)
        | inr (x, e) ↦ ground (arith, find-project_keys k parent s m)
      ]

  project_missing :
      (k : ManagedRunId) (parent : String) (s : SupervisorRuntime V)
      → has_key k s.runs ≡ false
      → project_run_for_parent k parent s ≡ err unknown_run
  unfolding project_run_for_parent
  project_missing k parent s h = ground (arith, has_key-get k s.runs)

  -- Once the snapshot of a parent is refreshed from the runtime, it answers every question of that
  -- parent, for one run or for all, as the runtime does.
  pub snapshot_status-refresh :
      (parent : String) (run : Option ManagedRunId) (snapshot : ManagedAgentProjectionSnapshot)
      (s : SupervisorRuntime V)
      → snapshot_status parent run
          (replace_parent parent (project_runs_for_parent parent s) snapshot)
        ≡ to_option (runtime_status parent run s)
  unfolding snapshot_status replace_parent runtime_status
  snapshot_status-refresh parent none snapshot s =
      rw (shown-put_runs parent (project_runs_for_parent parent s) snapshot.runs_by_parent)
  snapshot_status-refresh parent (some k) snapshot s =
      rw
        (
          shown-put_runs parent (project_runs_for_parent parent s) snapshot.runs_by_parent,
          snapshot_status,
        )
        (unfold project_runs_for_parent in
          ground (arith, find-project_keys k parent s s.runs, project_missing k parent s))
