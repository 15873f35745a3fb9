-- ===== src/ManagedAgent/Run.antt =====
-- `ManagedAgentRun` of auspex-core/src/managed_agents.rs: one run, and the methods that move it
-- through its states. A method on `&mut self` is an `Action` on the run.
pub mod Events
pub mod Invariant
pub mod Lifecycle
use auspex.Prelude.{
  ℕ, String, ◌≡◌, Bool, true, false, not, ◌&&◌, Option, none, some, Result, ok, err, Action, ◌>>=◌,
  pure, raise, lift, ok_or, fail_if, str_eq, trim, is_empty, if◌then◌else◌,
}
use mathlib.Core.Option
use auspex.ManagedAgent.Domain.{
  ManagedRunId, WorkerId, OmegonTaskId, ManagedRunRequest, ManagedAgentValidationError,
  empty_parent_session_id, empty_parent_turn_id, ManagedRunTransitionError, invalid_state,
  terminal_run, dispatch_not_accepted, task_identity_mismatch, result_required, ManagedRunState,
  OmegonDelegateObservation, OmegonDelegateStatus, ManagedRunFailure, is_terminal, failure_code,
  normalize_raw_result, reported,
}

pub record ManagedAgentRun : Type 0 where
  pub run_id : ManagedRunId
  pub worker_id : WorkerId
  pub parent_session_id : String
  pub parent_turn_id : String
  pub request : ManagedRunRequest
  pub omegon_task_id : Option OmegonTaskId
  pub state : ManagedRunState
  pub latest_observation : Option OmegonDelegateObservation

-- `ManagedAgentRun::new`, with the fresh run id as its first argument.
unfoldable pub new_run :
    ManagedRunId
    → WorkerId
    → String
    → String
    → ManagedRunRequest
    → Result ManagedAgentValidationError ManagedAgentRun
new_run fresh worker_id parent_session_id parent_turn_id request =
    if is_empty (trim parent_session_id)
    then err empty_parent_session_id
    else if is_empty (trim parent_turn_id)
    then err empty_parent_turn_id
    else ok (record {
      run_id = fresh;
      worker_id = worker_id;
      parent_session_id = parent_session_id;
      parent_turn_id = parent_turn_id;
      request = request;
      omegon_task_id = none;
      state = ManagedRunState.dispatching;
      latest_observation = none;
    })

abbrev pub Transition : Type 0
Transition = Action ManagedAgentRun ManagedRunTransitionError (Unit {0})

-- `self.state = state; Ok(())`
abbrev pub set_state : ManagedRunState → Transition
set_state state run = (ok tt, record run { state = state })

-- The tests by `matches!` on a state.
abbrev pub is_dispatching : ManagedRunState → Bool
is_dispatching ManagedRunState.dispatching = true
is_dispatching _ = false

abbrev pub is_running : ManagedRunState → Bool
is_running ManagedRunState.running = true
is_running _ = false

abbrev pub is_cancellable : ManagedRunState → Bool
is_cancellable ManagedRunState.running = true
is_cancellable (ManagedRunState.disconnected _) = true
is_cancellable _ = false

abbrev pub is_cancelling : ManagedRunState → Bool
is_cancelling (ManagedRunState.cancelling _) = true
is_cancelling _ = false

abbrev pub is_completed : ManagedRunState → Bool
is_completed (ManagedRunState.completed _) = true
is_completed _ = false

unfoldable pub accept_dispatch : OmegonTaskId → Transition
accept_dispatch task_id run =
    if not (is_dispatching run.state)
    then raise invalid_state run
    else (ok tt, record run { omegon_task_id = some task_id; state = ManagedRunState.running })

unfoldable pub request_cancellation : Option String → Transition
request_cancellation reason run =
    if not (is_cancellable run.state)
    then raise invalid_state run
    else set_state (ManagedRunState.cancelling reason) run

-- The `match` of `apply_observation` on the status, which fails on a success with no result.
observed_state :
    OmegonDelegateStatus → Option String → Result ManagedRunTransitionError ManagedRunState
unfolding normalize_raw_result reported failure_code
observed_state OmegonDelegateStatus.running result = ok ManagedRunState.running
observed_state (OmegonDelegateStatus.completed true) none = err result_required
observed_state (OmegonDelegateStatus.completed true) (some result) =
    ok (ManagedRunState.completed (normalize_raw_result result))
observed_state (OmegonDelegateStatus.completed false) result = ok (
    ManagedRunState.failed
      (reported "delegate_completed_unsuccessfully" (Option.map normalize_raw_result result)))
observed_state (OmegonDelegateStatus.failed failure_kind safe_message) result = ok (
    ManagedRunState.failed
      (record { code = failure_code failure_kind; safe_message = safe_message }))
observed_state (OmegonDelegateStatus.cancelled reason termination_confirmed) result =
    ok (ManagedRunState.cancelled reason termination_confirmed)

-- `self.state = state; self.latest_observation = Some(observation); Ok(())`
abbrev record_observation : OmegonDelegateObservation → ManagedRunState → Transition
record_observation observation state run =
    (ok tt, record run { state = state; latest_observation = some observation })

unfoldable pub apply_observation : OmegonDelegateObservation → Transition
unfolding observed_state
apply_observation observation run =
    (lift (ok_or run.omegon_task_id dispatch_not_accepted) >>= λ expected.
    if not (str_eq expected observation.task_id)
    then raise task_identity_mismatch
    else (lift (observed_state observation.status observation.result)
        >>= record_observation observation))
      run

unfoldable pub mark_dispatch_timed_out : Transition
mark_dispatch_timed_out run =
    if not (is_dispatching run.state)
    then raise invalid_state run
    else set_state ManagedRunState.dispatch_timed_out run

unfoldable pub apply_cancellation_response : Bool → Bool → Option String → Transition
apply_cancellation_response acknowledged termination_confirmed reason run =
    if not (is_cancelling run.state)
    then raise invalid_state run
    else if termination_confirmed
    then set_state (ManagedRunState.cancelled reason true) run
    else if not acknowledged
    then raise invalid_state run
    else pure tt run

unfoldable pub complete_from_result : String → Transition
unfolding normalize_raw_result
complete_from_result result run =
    if is_terminal run.state && not (is_completed run.state)
    then raise terminal_run run
    else set_state (ManagedRunState.completed (normalize_raw_result result)) run

-- `fail`
unfoldable pub fail_run : String → String → Transition
fail_run code safe_message run =
    if is_terminal run.state
    then raise terminal_run run
    else set_state (ManagedRunState.failed (record { code = code; safe_message = safe_message }))
        run

-- The `match` of `mark_cancellation_accepted` on the state.
cancellation_accepted : Option String → ManagedRunState → Transition
cancellation_accepted reason ManagedRunState.running = set_state (ManagedRunState.cancelling reason)
cancellation_accepted reason (ManagedRunState.disconnected _) =
    set_state (ManagedRunState.cancelling reason)
cancellation_accepted none (ManagedRunState.cancelling current) = pure tt
cancellation_accepted (some reason) (ManagedRunState.cancelling current) =
    set_state (ManagedRunState.cancelling (some reason))
cancellation_accepted reason state =
    if is_terminal state then raise terminal_run else raise invalid_state

unfoldable pub mark_cancellation_accepted : Option String → Transition
unfolding cancellation_accepted
mark_cancellation_accepted reason run = cancellation_accepted reason run.state run

unfoldable pub confirm_termination : Option String → Transition
confirm_termination reason run =
    if is_terminal run.state
    then raise terminal_run run
    else set_state (ManagedRunState.cancelled reason true) run

-- The `match` of `mark_reconnected` on the state.
reconnected : ManagedRunState → Transition
reconnected (ManagedRunState.disconnected _) = set_state ManagedRunState.running
reconnected state = if is_terminal state then raise terminal_run else pure tt

unfoldable pub mark_reconnected : Transition
unfolding reconnected
mark_reconnected run = reconnected run.state run

unfoldable pub mark_disconnected : Transition
mark_disconnected run =
    if is_terminal run.state
    then raise terminal_run run
    else set_state (ManagedRunState.disconnected run.latest_observation) run
