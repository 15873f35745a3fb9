-- ===== src/ManagedAgent/Runtime/Preparation.antt =====
-- Which runs the supervisor takes on, and when their deadline falls.
use auspex.Prelude.{
  ℕ, ◌+◌, ◌*◌, ◌≡◌, ◌⊎◌, refl, String, none, some, [], ◌∷◌, ok, err, ◌>>=◌, arith, leb, ◌∙◌, ◌==◌,
  if◌then◌else◌, Option-cases, Result-cases, inl, inr,
}
use auspex.Prelude.Maps.{
  get, insert, get-insert, contains, contains-select_keys, insert-IsSortedFrom,
}
use auspex.ManagedAgent.Domain.{
  ManagedRunId, WorkerId, ManagedRunRequest, ManagedRunState, ManagedAgentValidationError,
  dispatch_requested,
}
use auspex.ManagedAgent.Run.{ManagedAgentRun, new_run}
use auspex.ManagedAgent.Runtime.{
  Instant, RuntimeEntry, SupervisorRuntime, ManagedAgentTransportBinding, duplicate_run, validation,
}
use auspex.ManagedAgent.Runtime.Prepare.{Clock, prepare_run, deadline_after, second}
use auspex.ManagedAgent.Runtime.Sweep.{expired_runs_at, is_overdue}
use auspex.ManagedAgent.Runtime.Coherence.{IsCoherent}

-- The entry of a run that was just prepared.
abbrev pub prepared :
    ManagedAgentRun → Clock → WorkerId → ManagedAgentTransportBinding → ℕ → RuntimeEntry
prepared run clock worker_id transport at = record {
  run = run;
  transport = transport;
  dispatched_at_unix_ms = at;
  dispatched_at = clock.now;
  deadline_at = deadline_after clock run.request.supervisor_deadline_seconds;
  events = dispatch_requested run.run_id worker_id ∷ [];
}

new_run_start :
    (fresh : ManagedRunId) (worker_id : WorkerId) (session turn : String)
    (request : ManagedRunRequest) {run : ManagedAgentRun}
    → new_run fresh worker_id session turn request ≡ ok run
    → (run.state ≡ ManagedRunState.dispatching)
      × (run.omegon_task_id ≡ none)
      × (run.request ≡ request)
unfolding new_run
new_run_start fresh worker_id session turn request made = ground arith

module _ {V : Type 0} where
  -- The three outcomes of `prepare_run`: what it returns, and what the supervisor is then.
  abbrev pub PrepareOutcome :
      ManagedRunId
      → Clock
      → WorkerId
      → String
      → String
      → ManagedRunRequest
      → ManagedAgentTransportBinding
      → ℕ
      → SupervisorRuntime V
      → Type 0
  PrepareOutcome fresh clock worker_id session turn request transport at s =
      let after = prepare_run fresh clock worker_id session turn request transport at s in
      ((e : ManagedAgentValidationError) × (new_run fresh worker_id session turn request ≡ err e)
        × (after ≡ (err (validation e), s)))
      ⊎ ((run : ManagedAgentRun) × (entry : RuntimeEntry) × (new_run fresh worker_id session turn
              request
            ≡ ok run)
          × (get run.run_id s.runs ≡ some entry)
          × (after ≡ (err duplicate_run, s)))
      ⊎ ((run : ManagedAgentRun) × (new_run fresh worker_id session turn request ≡ ok run)
          × (get run.run_id s.runs ≡ none)
          × (after.0 ≡ ok run.run_id)
          × (run.state ≡ ManagedRunState.dispatching)
          × (run.omegon_task_id ≡ none)
          × ((j : ManagedRunId)
              → get j after.1.runs ≡ (
                  if run.run_id == j
                  then some (prepared run clock worker_id transport at)
                  else get j s.runs))
          × (after.1.commands ≡ s.commands)
          × (after.1.command_runs ≡ s.command_runs))

  -- A request is refused as invalid, or as a duplicate of a run that is there; neither changes the
  -- supervisor. Any other is taken on: its run waits for the dispatch to be accepted, has no task,
  -- and is under its id; no other run has changed, and neither have the commands.
  pub prepare_run_cases :
      (fresh : ManagedRunId) (clock : Clock) (worker_id : WorkerId) (session turn : String)
      (request : ManagedRunRequest) (transport : ManagedAgentTransportBinding) (at : ℕ)
      (s : SupervisorRuntime V)
      → PrepareOutcome fresh clock worker_id session turn request transport at s
  unfolding prepare_run
  prepare_run_cases fresh clock worker_id session turn request transport at s =
      elim (Result-cases (new_run fresh worker_id session turn request)) [
        | inr (e, refused) ↦ inl (e, refused, rw (prepare_run, ◌>>=◌, refused) refl)
        | inl (run, made) ↦ elim (Option-cases (get run.run_id s.runs)) [
          | inr (entry, taken) ↦
              inr (inl (run, entry, made, taken, rw (prepare_run, ◌>>=◌, made, taken) refl))
          | inl free ↦ inr (
              inr (
                run,
                made,
                free,
                rw (prepare_run, ◌>>=◌, made, free) refl,
                (new_run_start fresh worker_id session turn request made).0,
                (new_run_start fresh worker_id session turn request made).1,
                λ j.
                    rw (prepare_run, ◌>>=◌, made, free)
                      (get-insert run.run_id j (prepared run clock worker_id transport at) s.runs),
                rw (prepare_run, ◌>>=◌, made, free) refl,
                rw (prepare_run, ◌>>=◌, made, free) refl,
              ))
        ]
      ]

  -- In a coherent supervisor, for a request that is valid and whose run id is free: the deadline
  -- is the time of the dispatch and the seconds that the request gives, so the run that was taken
  -- on is overdue from then on and not before. If the clock cannot represent that instant, the
  -- deadline is the time of the dispatch instead: a run that gave itself too many seconds is
  -- overdue at once.
  pub expired_runs_at-prepare_run :
      (fresh : ManagedRunId) (clock : Clock) (worker_id : WorkerId) (session turn : String)
      (request : ManagedRunRequest) (transport : ManagedAgentTransportBinding) (at : ℕ)
      (now : Instant) (run : ManagedAgentRun) (s : SupervisorRuntime V)
      → IsCoherent s
      → new_run fresh worker_id session turn request ≡ ok run
      → get run.run_id s.runs ≡ none
      → let deadline = clock.now + request.supervisor_deadline_seconds * second in
        let s' = (prepare_run fresh clock worker_id session turn request transport at s).1 in
        contains run.run_id (expired_runs_at now s')
        ≡ (if leb deadline clock.last then leb deadline now else leb clock.now now)
  unfolding prepare_run expired_runs_at deadline_after
  expired_runs_at-prepare_run fresh clock worker_id session turn request transport at now run s v
        made free =
      let start = new_run_start fresh worker_id session turn request made in
      let entry = prepared run clock worker_id transport at in
      rw (prepare_run, ◌>>=◌, made, free)
        (contains-select_keys 0 run.run_id (is_overdue now) (insert run.run_id entry s.runs)
            (insert-IsSortedFrom 0 run.run_id entry s.runs (omega arith) v.runs_sorted)
          ∙ ground (arith, start.0, start.2, get-insert run.run_id run.run_id entry s.runs))
