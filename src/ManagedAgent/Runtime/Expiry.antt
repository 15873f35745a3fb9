-- ===== src/ManagedAgent/Runtime/Expiry.antt =====
-- Which dispatches time out, and which runs the lists name.
use auspex.Prelude.{
  ℕ, ◌-◌, ◌≡◌, refl, ap, ◌∙◌, Bool, false, not, ◌&&◌, Option, none, some, [], ◌∷◌, arith, leb,
  ==_self, if◌then◌else◌, Option-cases, suc, inl, inr,
}
use mathlib.Core.Option
use auspex.Prelude.Maps.{
  Map, get, get-tail, filter_map_mut, filter_map_mut-map_values, get-map_values, select_keys,
  contains, is_some_and, contains-select_keys, IsSortedFrom,
}
use auspex.ManagedAgent.Domain.{ManagedRunId, ManagedRunState, is_terminal}
use auspex.ManagedAgent.Run.{is_dispatching, is_running}
use auspex.ManagedAgent.Runtime.{Instant, RuntimeEntry, SupervisorRuntime}
use auspex.ManagedAgent.Runtime.Sweep.{
  expire_entry, expire_dispatches_at, pollable_run_ids, active_run_ids, expired_runs_at, is_overdue,
}
use auspex.ManagedAgent.Runtime.Entries.{IsEntryOf}
use auspex.ManagedAgent.Runtime.Coherence.{IsCoherent}

-- The dispatch was sent at least the timeout ago and has had no answer.
abbrev pub is_timed_out : Instant → ℕ → RuntimeEntry → Bool
is_timed_out now timeout entry =
    is_dispatching entry.run.state && leb timeout (now - entry.dispatched_at)

abbrev pub timed_out_entry : Instant → ℕ → RuntimeEntry → RuntimeEntry
timed_out_entry now timeout entry =
    if is_timed_out now timeout entry
    then record entry { run = record entry.run { state = ManagedRunState.dispatch_timed_out } }
    else entry

expire_entry_lem :
    (now : Instant) (timeout : ℕ) (entry : RuntimeEntry)
    → expire_entry now timeout entry ≡ (
      if is_timed_out now timeout entry then some entry.run.run_id else none,
      timed_out_entry now timeout entry,
    )
unfolding expire_entry
expire_entry_lem now timeout entry = ground arith

-- Each entry is under the id of its run.
abbrev IsKeyed : Map RuntimeEntry → Type 0
IsKeyed [] = Unit
IsKeyed ((k, entry) ∷ m) = (entry.run.run_id ≡ k) × IsKeyed m

expired_ids :
    (now : Instant) (timeout : ℕ) (m : Map RuntimeEntry)
    → IsKeyed m
    → (filter_map_mut (expire_entry now timeout) m).0 ≡ select_keys (is_timed_out now timeout) m
unfolding filter_map_mut select_keys
expired_ids now timeout [] keyed = refl
expired_ids now timeout ((k, entry) ∷ m) keyed =
    ground (arith, keyed, expire_entry_lem now timeout entry, expired_ids now timeout m keyed.1)

entries-IsKeyed :
    (n : ℕ) (m : Map RuntimeEntry)
    → IsSortedFrom n m
    → ((k : ManagedRunId) (entry : RuntimeEntry) → get k m ≡ some entry → IsEntryOf k entry)
    → IsKeyed m
unfolding get
entries-IsKeyed n [] sorted own = tt
entries-IsKeyed n ((k, entry) ∷ m) sorted own = (
  (own k entry (ground (arith, ==_self k))).run_id,
  entries-IsKeyed (suc k) m sorted.1 (λ j e found. own j e (get-tail j k entry m sorted.1 found)),
)

map_cong :
    {A B : Type 0} (f g : A → B) (o : Option A)
    → ((a : A) → f a ≡ g a)
    → Option.map f o ≡ Option.map g o
map_cong f g none e = refl
map_cong f g (some a) e = ap some (e a)

module _ {V : Type 0} where
  -- In a coherent supervisor, the dispatches that `expire_dispatches_at` returns are those that have
  -- waited for the timeout, and it marks exactly their runs as timed out: each other run is as it was.
  pub expire_dispatches_at_iff :
      (now : Instant) (timeout : ℕ) (run_id : ManagedRunId) (s : SupervisorRuntime V)
      → IsCoherent s
      → let (expired, s') = expire_dispatches_at now timeout s in
        (contains run_id expired ≡ is_some_and (is_timed_out now timeout) (get run_id s.runs))
        × (get run_id s'.runs ≡ Option.map (timed_out_entry now timeout) (get run_id s.runs))
  unfolding expire_dispatches_at
  expire_dispatches_at_iff now timeout run_id s v = (
    ap (contains run_id)
          (expired_ids now timeout s.runs (entries-IsKeyed 0 s.runs v.runs_sorted v.entries))
        ∙ contains-select_keys 0 run_id (is_timed_out now timeout) s.runs v.runs_sorted,
    ap (get run_id) (filter_map_mut-map_values (expire_entry now timeout) s.runs)
        ∙ get-map_values _ run_id s.runs
        ∙ map_cong _ (timed_out_entry now timeout) (get run_id s.runs)
            (λ entry. ap (λ r. r.1) (expire_entry_lem now timeout entry)),
  )

  -- In a coherent supervisor, the pollable runs are those that are running, the active ones those
  -- that have not ended, and the expired ones those that have not ended and whose deadline has
  -- come. So what is pollable or expired is active.
  pub run_ids_iff :
      (now : Instant) (run_id : ManagedRunId) (s : SupervisorRuntime V)
      → IsCoherent s
      → let pollable = contains run_id (pollable_run_ids s) in
        let active = contains run_id (active_run_ids s) in
        let expired = contains run_id (expired_runs_at now s) in
        (pollable ≡ is_some_and (λ entry. is_running entry.run.state) (get run_id s.runs))
        × (active ≡ is_some_and (λ entry. not (is_terminal entry.run.state)) (get run_id s.runs))
        × (expired
            ≡ (active && is_some_and (λ entry. leb entry.deadline_at now) (get run_id s.runs)))
        × ((pollable && not active) ≡ false)
        × ((expired && not active) ≡ false)
  unfolding pollable_run_ids active_run_ids expired_runs_at
  run_ids_iff now run_id s v =
      let pollable =
        contains-select_keys 0 run_id (λ entry. is_running entry.run.state) s.runs v.runs_sorted in
      let active =
        contains-select_keys 0 run_id (λ entry. not (is_terminal entry.run.state)) s.runs
          v.runs_sorted in
      let expired = contains-select_keys 0 run_id (is_overdue now) s.runs v.runs_sorted in
      elim (Option-cases (get run_id s.runs)) [
        | inl missing ↦ ground (arith, pollable, active, expired)
        | inr (entry, found) ↦ ground (arith, pollable, active, expired)
      ]
