-- ===== src/ManagedAgent/Runtime/Coherence.antt =====
-- What holds of a supervisor between two calls, and that every method keeps it.
use auspex.Prelude.{ℕ, ◌≡◌, refl, inl, inr, some, arith, ◌==◌, Option-cases, Bool-cases}
use auspex.Prelude.Maps.{
  Map, get, insert, remove, map_values, get-insert, get-remove, get-map_values_from, IsSortedFrom,
  insert-IsSortedFrom, remove-IsSortedFrom, map_values-IsSortedFrom,
}
use auspex.ManagedAgent.Domain.{ManagedRunId}
use auspex.ManagedAgent.Runtime.{
  PendingManagedCommand, RuntimeEntry, SupervisorRuntime, OnEntry, with_entry,
}
use auspex.ManagedAgent.Runtime.Entries.{IsEntryOf, Moves, Moves-IsEntryOf}

transfer-IsEntryOf :
    (k j : ManagedRunId) (a b : RuntimeEntry)
    → k ≡ j
    → some a ≡ some b
    → IsEntryOf k a
    → IsEntryOf j b
transfer-IsEntryOf k j a b h e own =
    let same : b ≡ a = cc in
    record { run_id = cc (own.run_id); consistent = rw same own.consistent }

module _ {V : Type 0} where
  -- The maps are sorted, each run is under its own id and consistent, and each command that waits
  -- for an answer leads to its run.
  pub record IsCoherent (s : SupervisorRuntime V) : Type 0 where
    pub runs_sorted : IsSortedFrom 0 s.runs
    pub commands_sorted : IsSortedFrom 0 s.commands
    pub command_runs_sorted : IsSortedFrom 0 s.command_runs
    pub entries :
        (k : ManagedRunId) (entry : RuntimeEntry) → get k s.runs ≡ some entry → IsEntryOf k entry
    pub routes :
        (c : ℕ) (p : PendingManagedCommand V)
        → get c s.commands ≡ some p
        → get c s.command_runs ≡ some p.run_id

  -- New runs in the place of the old ones.
  pub with_runs-IsCoherent :
      (runs' : Map RuntimeEntry) (s : SupervisorRuntime V)
      → IsSortedFrom 0 runs'
      → ((k : ManagedRunId) (entry : RuntimeEntry) → get k runs' ≡ some entry → IsEntryOf k entry)
      → IsCoherent s
      → IsCoherent (record s { runs = runs' })
  with_runs-IsCoherent runs' s sorted own v = record {
    runs_sorted = sorted;
    commands_sorted = v.commands_sorted;
    command_runs_sorted = v.command_runs_sorted;
    entries = own;
    routes = v.routes;
  }

  pub insert_run-IsCoherent :
      (k : ManagedRunId) (written : RuntimeEntry) (s : SupervisorRuntime V)
      → IsEntryOf k written
      → IsCoherent s
      → IsCoherent (record s { runs = insert k written s.runs })
  insert_run-IsCoherent k written s own v =
      with_runs-IsCoherent _ s (insert-IsSortedFrom 0 k written s.runs (omega arith) v.runs_sorted)
        (λ j entry e. elim (Bool-cases (k == j)) [
          | inl here ↦
              transfer-IsEntryOf k j written entry (ground arith)
                (ground (arith, get-insert k j written s.runs)) own
          | inr other ↦ v.entries j entry (ground (arith, get-insert k j written s.runs))
        ])
        v

  pub remove_run_entries-IsCoherent :
      (k : ManagedRunId) (s : SupervisorRuntime V)
      → IsCoherent s
      → IsCoherent (record s { runs = remove k s.runs })
  remove_run_entries-IsCoherent k s v =
      with_runs-IsCoherent _ s (remove-IsSortedFrom 0 k s.runs v.runs_sorted)
        (λ j entry e. v.entries j entry (ground (arith, get-remove k j s.runs))) v

  pub map_runs-IsCoherent :
      (f : RuntimeEntry → RuntimeEntry) (s : SupervisorRuntime V)
      → ((entry : RuntimeEntry) → Moves entry (f entry))
      → IsCoherent s
      → IsCoherent (record s { runs = map_values f s.runs })
  map_runs-IsCoherent f s moves v =
      with_runs-IsCoherent _ s (map_values-IsSortedFrom f 0 s.runs v.runs_sorted)
        (λ j entry e.
          let (old, found, image) = get-map_values_from f j s.runs e in
          transfer-IsEntryOf j j (f old) entry refl image
            (Moves-IsEntryOf j old (f old) (moves old) (v.entries j old found)))
        v

  -- What is done to one entry.
  pub with_entry-IsCoherent :
      {A : Type 0} (k : ManagedRunId) (body : OnEntry A) (s : SupervisorRuntime V)
      → ((entry : RuntimeEntry) → Moves entry (body entry).1)
      → IsCoherent s
      → IsCoherent (with_entry k body s).1
  unfolding with_entry
  with_entry-IsCoherent k body s moves v = elim (Option-cases (get k s.runs)) [
    | inl missing ↦ rw (with_entry, missing) v
    | inr (entry, found) ↦
        rw (with_entry, found)
          (insert_run-IsCoherent k (body entry).1 s
            (Moves-IsEntryOf k entry (body entry).1 (moves entry) (v.entries k entry found)) v)
  ]

  -- New commands in the place of the old ones, each for the run of the one whose place it takes.
  pub with_commands-IsCoherent :
      (commands' : Map (PendingManagedCommand V)) (s : SupervisorRuntime V)
      → IsSortedFrom 0 commands'
      → ((c : ℕ) (p : PendingManagedCommand V)
          → get c commands' ≡ some p
          → (old : PendingManagedCommand V) × (get c s.commands ≡ some old)
            × (p.run_id ≡ old.run_id))
      → IsCoherent s
      → IsCoherent (record s { commands = commands' })
  with_commands-IsCoherent commands' s sorted stems v = record {
    runs_sorted = v.runs_sorted;
    commands_sorted = sorted;
    command_runs_sorted = v.command_runs_sorted;
    entries = v.entries;
    routes = λ c p e. let (old, found, same) = stems c p e in rw same (v.routes c old found);
  }

  pub insert_command-IsCoherent :
      (c : ℕ) (old written : PendingManagedCommand V) (s : SupervisorRuntime V)
      → get c s.commands ≡ some old
      → written.run_id ≡ old.run_id
      → IsCoherent s
      → IsCoherent (record s { commands = insert c written s.commands })
  insert_command-IsCoherent c old written s found same v =
      with_commands-IsCoherent _ s
        (insert-IsSortedFrom 0 c written s.commands (omega arith) v.commands_sorted)
        (λ d p e. elim (Bool-cases (c == d)) [
          | inl here ↦ (
            old,
            ground (arith, get-insert c d written s.commands),
            ground (arith, get-insert c d written s.commands),
          )
          | inr other ↦ (p, ground (arith, get-insert c d written s.commands), refl)
        ])
        v

  -- A new command, with the route to its run.
  pub insert_route-IsCoherent :
      (c : ℕ) (written : PendingManagedCommand V) (s : SupervisorRuntime V)
      → IsCoherent s
      → IsCoherent (record s {
        commands = insert c written s.commands;
        command_runs = insert c written.run_id s.command_runs;
      })
  insert_route-IsCoherent c written s v = record {
    runs_sorted = v.runs_sorted;
    commands_sorted = insert-IsSortedFrom 0 c written s.commands (omega arith) v.commands_sorted;
    command_runs_sorted =
        insert-IsSortedFrom 0 c written.run_id s.command_runs (omega arith) v.command_runs_sorted;
    entries = v.entries;
    routes = λ d p e. elim (Bool-cases (c == d)) [
      | inl here ↦
          ground
            (arith, get-insert c d written s.commands, get-insert c d written.run_id s.command_runs)
      | inr other ↦ ground (
        arith,
        v.routes d p,
        get-insert c d written s.commands,
        get-insert c d written.run_id s.command_runs,
      )
    ];
  }
