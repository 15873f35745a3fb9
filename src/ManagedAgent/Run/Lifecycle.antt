-- ===== src/ManagedAgent/Run/Lifecycle.antt =====
-- How a run ends, what can reopen it, and what a lost connection does to a dispatch.
use auspex.Prelude.{
  String, ◌≡◌, ◌≢◌, ◌↔◌, refl, ◌⊎◌, inl, inr, Bool, true, false, Option, none, some, [], ◌∷◌, ok,
  err, arith, str_eq, eq_iff, Bool-cases, Option-cases, sym, ap, ◌∙◌, subst,
}
use auspex.ManagedAgent.Domain.{
  OmegonTaskId, ManagedRunState, OmegonDelegateObservation, OmegonDelegateStatus,
  ManagedRunTransitionError, is_terminal, invalid_state, terminal_run, dispatch_not_accepted,
  task_identity_mismatch, result_required, normalize_raw_result,
}
use auspex.ManagedAgent.Run.{
  ManagedAgentRun, observed_state, is_completed, is_dispatching, is_cancellable, is_cancelling,
}
use auspex.ManagedAgent.Run.Events.{
  RunCall, accepts_dispatch, requests_cancellation, observes, times_out, gets_cancellation_response,
  completes, fails, gets_cancellation_accepted, confirms_termination, reconnects, disconnects, call,
  calls,
}
use auspex.ManagedAgent.Run.Invariant.{IsConsistent}

abbrev is_disconnected : ManagedRunState → Bool
is_disconnected (ManagedRunState.disconnected _) = true
is_disconnected _ = false

-- Under way at its worker, as far as the supervisor knows.
abbrev is_live : ManagedRunState → Bool
is_live ManagedRunState.running = true
is_live (ManagedRunState.disconnected _) = true
is_live (ManagedRunState.cancelling _) = true
is_live _ = false

abbrev is_failed : ManagedRunState → Bool
is_failed (ManagedRunState.failed _) = true
is_failed _ = false

-- The dispatch has had an answer.
abbrev is_dispatched : ManagedRunState → Bool
is_dispatched ManagedRunState.dispatching = false
is_dispatched ManagedRunState.dispatch_timed_out = false
is_dispatched _ = true

-- The states that a worker's report of a status puts a run into.
abbrev Reports : OmegonDelegateStatus → ManagedRunState → Type 0
Reports OmegonDelegateStatus.running t = t ≡ ManagedRunState.running
Reports (OmegonDelegateStatus.completed true) t = is_completed t ≡ true
Reports (OmegonDelegateStatus.completed false) t = is_failed t ≡ true
Reports (OmegonDelegateStatus.failed _ _) t = is_failed t ≡ true
Reports (OmegonDelegateStatus.cancelled reason confirmed) t =
    t ≡ ManagedRunState.cancelled reason confirmed

-- The moves between states that a call may make when it succeeds: each call has its own.
pub data Moves : RunCall → ManagedRunState → ManagedRunState → Type 0 where
  accept :
      {task_id : OmegonTaskId} {s t : ManagedRunState}
      → is_dispatching s ≡ true
      → t ≡ ManagedRunState.running
      → Moves (accepts_dispatch task_id) s t
  expire :
      {s t : ManagedRunState}
      → is_dispatching s ≡ true
      → t ≡ ManagedRunState.dispatch_timed_out
      → Moves times_out s t
  ask :
      {reason : Option String} {s t : ManagedRunState}
      → is_cancellable s ≡ true
      → t ≡ ManagedRunState.cancelling reason
      → Moves (requests_cancellation reason) s t
  ask_accepted :
      {reason : Option String} {s t : ManagedRunState}
      → is_live s ≡ true
      → is_cancelling t ≡ true
      → Moves (gets_cancellation_accepted reason) s t
  confirm :
      {acknowledged : Bool} {reason : Option String} {s t : ManagedRunState}
      → is_cancelling s ≡ true
      → t ≡ ManagedRunState.cancelled reason true
      → Moves (gets_cancellation_response acknowledged true reason) s t
  wait :
      {reason : Option String} {s t : ManagedRunState}
      → is_cancelling s ≡ true
      → t ≡ s
      → Moves (gets_cancellation_response true false reason) s t
  complete :
      {result : String} {s t : ManagedRunState}
      → is_terminal s ≡ false
      → is_completed t ≡ true
      → Moves (completes result) s t
  complete_again :
      {result : String} {s t : ManagedRunState}
      → is_completed s ≡ true
      → is_completed t ≡ true
      → Moves (completes result) s t
  fail :
      {code safe_message : String} {s t : ManagedRunState}
      → is_terminal s ≡ false
      → t ≡ ManagedRunState.failed (record { code = code; safe_message = safe_message })
      → Moves (fails code safe_message) s t
  terminate :
      {reason : Option String} {s t : ManagedRunState}
      → is_terminal s ≡ false
      → t ≡ ManagedRunState.cancelled reason true
      → Moves (confirms_termination reason) s t
  lose :
      {s t : ManagedRunState}
      → is_terminal s ≡ false
      → is_disconnected t ≡ true
      → Moves disconnects s t
  resume :
      {s t : ManagedRunState}
      → is_disconnected s ≡ true
      → t ≡ ManagedRunState.running
      → Moves reconnects s t
  stay_connected :
      {s t : ManagedRunState}
      → is_terminal s ≡ false
      → is_disconnected s ≡ false
      → t ≡ s
      → Moves reconnects s t
  follow :
      {seen : OmegonDelegateObservation} {s t : ManagedRunState}
      → is_dispatched s ≡ true
      → Reports seen.status t
      → Moves (observes seen) s t

-- A report that leaves a run unfinished.
abbrev pub IsUnfinished : OmegonDelegateStatus → Type 0
IsUnfinished OmegonDelegateStatus.running = Unit
IsUnfinished (OmegonDelegateStatus.completed _) = ⊥
IsUnfinished (OmegonDelegateStatus.failed _ _) = ⊥
IsUnfinished (OmegonDelegateStatus.cancelled reason confirmed) = confirmed ≡ false

-- A terminal run stays as it is under every call but an observation, which no guard holds back,
-- and the result of a completed run, which replaces the one that was there.
pub terminal_absorbs :
    (c : RunCall) (run : ManagedAgentRun)
    → is_terminal run.state ≡ true
    → ((call c run).1 ≡ run)
      ⊎ ((o : OmegonDelegateObservation) × (c ≡ observes o))
      ⊎ ((result : String) × (c ≡ completes result)
          × (is_completed run.state ≡ true)
          × (is_completed (call c run).1.state ≡ true))
unfolding call
terminal_absorbs (observes o) run h = inr (inl (o, refl))
terminal_absorbs (completes result) run h = elim (Bool-cases (is_completed run.state)) [
  | inl again ↦ inr (inr (result, refl, again, ground arith))
  | inr other ↦ inl (ground arith)
]
terminal_absorbs _ run h = inl (ground arith)

-- What a report makes of a run, when it can be read: a state that it reports.
read_report :
    (status : OmegonDelegateStatus) (result : Option String)
    → ((e : ManagedRunTransitionError) × (observed_state status result ≡ err e))
      ⊎ ((t : ManagedRunState) × (observed_state status result ≡ ok t) × Reports status t)
unfolding observed_state
read_report OmegonDelegateStatus.running result = inr (ManagedRunState.running, refl, refl)
read_report (OmegonDelegateStatus.completed true) none = inl (result_required, refl)
read_report (OmegonDelegateStatus.completed true) (some result) =
    inr (ManagedRunState.completed (normalize_raw_result result), refl, refl)
read_report (OmegonDelegateStatus.completed false) result = inr (_, refl, refl)
read_report (OmegonDelegateStatus.failed kind message) result = inr (_, refl, refl)
read_report (OmegonDelegateStatus.cancelled reason confirmed) result = inr (_, refl, refl)

Reports-IsUnfinished :
    (status : OmegonDelegateStatus) (t : ManagedRunState)
    → Reports status t
    → (is_terminal t ≡ false) ↔ IsUnfinished status
Reports-IsUnfinished OmegonDelegateStatus.running t r = ground arith
Reports-IsUnfinished (OmegonDelegateStatus.completed true) t r = ground arith
Reports-IsUnfinished (OmegonDelegateStatus.completed false) t r = ground arith
Reports-IsUnfinished (OmegonDelegateStatus.failed kind message) t r = ground arith
Reports-IsUnfinished (OmegonDelegateStatus.cancelled reason confirmed) t r = ground arith

-- How an observation ends, on any run
observed_cases :
    (seen : OmegonDelegateObservation) (run : ManagedAgentRun)
    → ((e : ManagedRunTransitionError) × (call (observes seen) run ≡ (err e, run)))
      ⊎ (((call (observes seen) run).0 ≡ ok tt)
          × (run.omegon_task_id ≡ some seen.task_id)
          × Reports seen.status (call (observes seen) run).1.state)
unfolding call
observed_cases seen run = elim (Option-cases run.omegon_task_id) [
  | inl missing ↦ inl (dispatch_not_accepted, ground arith)
  | inr (task_id, e) ↦ elim (Bool-cases (str_eq task_id seen.task_id)) [
    | inr other ↦ inl (task_identity_mismatch, ground arith)
    | inl same ↦
        let named : task_id ≡ seen.task_id = (eq_iff task_id seen.task_id).0 same in
        elim (read_report seen.status seen.result) [
          | inl (x, unread) ↦ inl (x, ground (arith, e, same, unread))
          | inr (t, read, reports) ↦ inr (
            ground (arith, e, same, read),
            e ∙ ap some named,
            subst (Reports seen.status) (ground (arith, e, same, read)) reports,
          )
        ]
  ]
]

observation_reopens :
    (status : OmegonDelegateStatus) (seen : OmegonDelegateObservation) (run : ManagedAgentRun)
    → seen.status ≡ status
    → run.omegon_task_id ≡ some seen.task_id
    → IsUnfinished status
    → is_terminal (call (observes seen) run).1.state ≡ false
unfolding call
observation_reopens OmegonDelegateStatus.running seen run r e u =
    ground (arith, eq_iff seen.task_id seen.task_id)
observation_reopens (OmegonDelegateStatus.completed succeeded) seen run r e u = absurd u
observation_reopens (OmegonDelegateStatus.failed kind message) seen run r e u = absurd u
observation_reopens (OmegonDelegateStatus.cancelled reason confirmed) seen run r e u =
    ground (arith, eq_iff seen.task_id seen.task_id)

true_or_false : {A : Type 0} → true ≡ false → A
true_or_false h = absurd (cc h)

reopened :
    (seen : OmegonDelegateObservation) (run : ManagedAgentRun)
    → is_terminal run.state ≡ true
    → is_terminal (call (observes seen) run).1.state ≡ false
    → (run.omegon_task_id ≡ some seen.task_id) × IsUnfinished seen.status
reopened seen run h open_again = elim (observed_cases seen run) [
  | inl (x, failed) ↦
      true_or_false ((sym h ∙ (sym (ap (λ r. is_terminal r.1.state) failed) ∙ open_again)))
  | inr (done, own, reports) ↦ (
    own,
    (Reports-IsUnfinished seen.status (call (observes seen) run).1.state reports).0 open_again,
  )
]

-- Of all calls, only an observation can make a terminal run not terminal: one of the run's own task
-- that says it is running, or that it was cancelled without a confirmed termination. And each such
-- observation does.
pub call-reopens_iff :
    (c : RunCall) (run : ManagedAgentRun)
    → is_terminal run.state ≡ true
    → (is_terminal (call c run).1.state ≡ false) ↔ (
        (seen : OmegonDelegateObservation) × (c ≡ observes seen)
        × (run.omegon_task_id ≡ some seen.task_id)
        × IsUnfinished seen.status)
call-reopens_iff c run h = (
  λ open_again. elim (terminal_absorbs c run h) [
    | inl same ↦ true_or_false ((sym h ∙ (sym (ap (λ r. is_terminal r.state) same) ∙ open_again)))
    | inr (inl (seen, e)) ↦
        let (own, unfinished) =
          reopened seen run h (ap (λ d. is_terminal (call d run).1.state) (sym e) ∙ open_again) in
        (seen, e, own, unfinished)
    | inr (inr (result, e, was, is)) ↦ absurd (ground arith)
  ],
  λ (seen, e, own, unfinished). rw e (observation_reopens seen.status seen run refl own unfinished),
)

-- A run whose worker is lost and comes back before the dispatch is accepted counts as running with
-- no task, and the acceptance that arrives then is refused.
pub reconnect_loses_dispatch :
    (run : ManagedAgentRun) (task_id : OmegonTaskId)
    → IsConsistent run
    → run.state ≡ ManagedRunState.dispatching
    → let back = calls (disconnects ∷ reconnects ∷ []) run in
      (back.state ≡ ManagedRunState.running)
      × (back.omegon_task_id ≡ none)
      × (call (accepts_dispatch task_id) back ≡ (err invalid_state, back))
unfolding call calls
reconnect_loses_dispatch run task_id v e = ground arith

undispatched :
    (run : ManagedAgentRun)
    → IsConsistent run
    → run.omegon_task_id ≢ none
    → is_dispatched run.state ≡ true
undispatched run v h = ground arith

-- How a call ends, on a run: it fails and leaves the run as it is, or it moves its state.
abbrev pub CallOutcome : RunCall → ManagedAgentRun → Type 0
CallOutcome c run =
    ((e : ManagedRunTransitionError) × (call c run ≡ (err e, run)))
    ⊎ (((call c run).0 ≡ ok tt) × Moves c run.state (call c run).1.state)

observed_moves :
    (seen : OmegonDelegateObservation) (run : ManagedAgentRun)
    → IsConsistent run
    → CallOutcome (observes seen) run
observed_moves seen run v = elim (observed_cases seen run) [
  | inl failed ↦ inl failed
  | inr (done, own, reports) ↦ inr (done, follow (undispatched run v (ground arith)) reports)
]

-- Every call on a consistent run either returns an error and leaves the run as it is, or succeeds and
-- moves its state along one of the moves of that call.
pub call_moves : (c : RunCall) (run : ManagedAgentRun) → IsConsistent run → CallOutcome c run
unfolding call
call_moves (accepts_dispatch task_id) run v = elim (Bool-cases (is_dispatching run.state)) [
  | inl at_start ↦ inr (ground arith, accept at_start (ground arith))
  | inr later ↦ inl (invalid_state, ground arith)
]
call_moves (requests_cancellation reason) run v = elim (Bool-cases (is_cancellable run.state)) [
  | inl may ↦ inr (ground arith, ask may (ground arith))
  | inr may_not ↦ inl (invalid_state, ground arith)
]
call_moves (observes seen) run v = observed_moves seen run v
call_moves times_out run v = elim (Bool-cases (is_dispatching run.state)) [
  | inl at_start ↦ inr (ground arith, expire at_start (ground arith))
  | inr later ↦ inl (invalid_state, ground arith)
]
call_moves (gets_cancellation_response acknowledged true reason) run v =
    elim (Bool-cases (is_cancelling run.state)) [
      | inl may ↦ inr (ground arith, confirm may (ground arith))
      | inr may_not ↦ inl (invalid_state, ground arith)
    ]
call_moves (gets_cancellation_response true false reason) run v =
    elim (Bool-cases (is_cancelling run.state)) [
      | inl may ↦ inr (ground arith, wait may (ground arith))
      | inr may_not ↦ inl (invalid_state, ground arith)
    ]
call_moves (gets_cancellation_response false false reason) run v = inl (invalid_state, ground arith)
call_moves (completes result) run v = elim (Bool-cases (is_terminal run.state)) [
  | inl ended ↦ elim (Bool-cases (is_completed run.state)) [
    | inl again ↦ inr (ground arith, complete_again again (ground arith))
    | inr other ↦ inl (terminal_run, ground arith)
  ]
  | inr live ↦ inr (ground arith, complete live (ground arith))
]
call_moves (fails code safe_message) run v = elim (Bool-cases (is_terminal run.state)) [
  | inl ended ↦ inl (terminal_run, ground arith)
  | inr live ↦ inr (ground arith, fail live (ground arith))
]
call_moves (gets_cancellation_accepted reason) run v = elim (Bool-cases (is_live run.state)) [
  | inl may ↦ inr (ground arith, ask_accepted may (ground arith))
  | inr may_not ↦ elim (Bool-cases (is_terminal run.state)) [
    | inl ended ↦ inl (terminal_run, ground arith)
    | inr early ↦ inl (invalid_state, ground arith)
  ]
]
call_moves (confirms_termination reason) run v = elim (Bool-cases (is_terminal run.state)) [
  | inl ended ↦ inl (terminal_run, ground arith)
  | inr live ↦ inr (ground arith, terminate live (ground arith))
]
call_moves reconnects run v = elim (Bool-cases (is_disconnected run.state)) [
  | inl lost ↦ inr (ground arith, resume lost (ground arith))
  | inr other ↦ elim (Bool-cases (is_terminal run.state)) [
    | inl ended ↦ inl (terminal_run, ground arith)
    | inr live ↦ inr (ground arith, stay_connected live other (ground arith))
  ]
]
call_moves disconnects run v = elim (Bool-cases (is_terminal run.state)) [
  | inl ended ↦ inl (terminal_run, ground arith)
  | inr live ↦ inr (ground arith, lose live (ground arith))
]
