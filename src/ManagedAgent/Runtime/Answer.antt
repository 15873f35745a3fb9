-- ===== src/ManagedAgent/Runtime/Answer.antt =====
-- What a worker answers: `apply_response_json`, and `apply_a2a_event` for the MQTT bearer.
use auspex.Prelude.{
  ℕ, String, Bool, ◌&&◌, Option, none, some, Result, ok, err, ◌>>=◌, ◌>>◌, lift, pure, raise,
  map_err, ok_or, str_eq, ◌==◌, if◌then◌else◌,
}
use mathlib.Core.Option
use auspex.Prelude.Maps.{get, insert, update_first}
use auspex.ManagedAgent.Domain.{
  ManagedRunId, OmegonTaskId, dispatch_accepted, dispatch_rejected, dispatch_not_accepted,
  parse_omegon_task_id,
}
use auspex.ManagedAgent.Run.{
  accept_dispatch, apply_observation, apply_cancellation_response, complete_from_result, fail_run,
  mark_cancellation_accepted, confirm_termination, is_dispatching,
}
use auspex.ManagedAgent.Contract.{
  SupervisorRejection, DelegateDispatchResponse, DelegateObservationResponse,
  DelegateCancelResponse, DelegateResultResponse, validate_dispatch, validate_observation,
  validate_cancel, validate_result,
}
use auspex.ManagedAgent.Outcome.{ManagedAgentA2aEvent, event_run_id}
use auspex.ManagedAgent.Serde.{Serde}
use auspex.ManagedAgent.Runtime.{
  ManagedCommandKind, dispatch, poll, cancel, kind_eq, ManagedCommandDeliveryState, is_unsettled,
  PendingManagedCommand, RuntimeEntry, SupervisorRuntimeError, unexpected_response_type,
  invalid_json, response_rejected, contract, domain, validation, SupervisorRuntime, Method, OnEntry,
  with_entry, on_run, push_event,
}

-- `entry.run.omegon_task_id().ok_or(DispatchNotAccepted)?`
abbrev pub expected_task : RuntimeEntry → Result SupervisorRuntimeError OmegonTaskId
expected_task entry = ok_or entry.run.omegon_task_id (domain dispatch_not_accepted)

-- The four answers, once they are read.
unfoldable pub answer_dispatch : ManagedRunId → DelegateDispatchResponse → OnEntry (Unit {0})
answer_dispatch run_id r entry =
    (do
      task_id ← lift (map_err contract (validate_dispatch r run_id entry.run.worker_id))
      on_run (accept_dispatch task_id)
      push_event (dispatch_accepted run_id task_id))
      entry

unfoldable pub answer_observation : ManagedRunId → DelegateObservationResponse → OnEntry (Unit {0})
answer_observation run_id r entry =
    (do
      expected ← lift (expected_task entry)
      lift (map_err contract (validate_observation r run_id entry.run.worker_id expected))
      on_run (apply_observation r.observation))
      entry

unfoldable pub answer_cancel : ManagedRunId → DelegateCancelResponse → OnEntry (Unit {0})
answer_cancel run_id r entry =
    (do
      expected ← lift (expected_task entry)
      lift (map_err contract (validate_cancel r run_id entry.run.worker_id expected))
      on_run (apply_cancellation_response r.acknowledged r.termination_confirmed r.reason))
      entry

unfoldable pub answer_result : ManagedRunId → ℕ → DelegateResultResponse → OnEntry (Unit {0})
answer_result run_id max_result_bytes r entry =
    (do
      expected ← lift (expected_task entry)
      lift (
          map_err contract (validate_result r run_id entry.run.worker_id expected max_result_bytes))
      on_run (complete_from_result r.result))
      entry

-- The kind of command that a type of response answers.
unfoldable pub response_kind : String → Result SupervisorRuntimeError ManagedCommandKind
response_kind t =
    if str_eq t "delegate_dispatch_result"
    then ok dispatch
    else if str_eq t "delegate_get_result"
    then ok poll
    else if str_eq t "delegate_result_result"
    then ok poll
    else if str_eq t "delegate_cancel_result"
    then ok cancel
    else err (unexpected_response_type t)

module _ {V : Type 0} where
  abbrev pub proves : ManagedRunId → ManagedCommandKind → PendingManagedCommand V → Bool
  proves run_id kind pending =
      (pending.run_id == run_id) && kind_eq pending.kind kind && is_unsettled pending.state

  abbrev pub set_proven : PendingManagedCommand V → PendingManagedCommand V
  set_proven pending = record pending { state = ManagedCommandDeliveryState.proven_by_result }

  -- The answer proves that the first unsettled command of its kind had arrived.
  unfoldable pub mark_proven :
      ManagedRunId → ManagedCommandKind → SupervisorRuntime V → SupervisorRuntime V
  mark_proven run_id kind s = record s {
    commands = update_first (proves run_id kind) set_proven s.commands;
  }

  -- A rejection is noted with the run, if there is one, and is the error.
  unfoldable pub reject_response : ManagedRunId → SupervisorRejection → Method V ManagedRunId
  reject_response run_id rejection s = elim (get run_id s.runs) [
    | none ↦ (err (response_rejected rejection.code rejection.safe_message), s)
    | some entry ↦ (
      err (response_rejected rejection.code rejection.safe_message),
      record s {
        runs =
            insert run_id ((push_event (dispatch_rejected run_id rejection.safe_message)) entry).1
              s.runs;
      },
    )
  ]

module _ (serde : Serde) where
  open serde use {
    Value, parse, member, as_str, is_null, read_run_id, read_rejection, read_dispatch,
    read_observation, read_cancel, read_result,
  }

  -- The `match` of `apply_response_json` on the type. Its last case is one that `response_kind` has
  -- refused (`unreachable!` in the source).
  unfoldable pub answer_entry : String → ManagedRunId → ℕ → Value → OnEntry (Unit {0})
  unfolding answer_dispatch answer_observation answer_cancel answer_result
  answer_entry t run_id max_result_bytes value =
      if str_eq t "delegate_dispatch_result"
      then (lift (map_err invalid_json (read_dispatch value)) >>= answer_dispatch run_id)
      else if str_eq t "delegate_get_result"
      then (lift (map_err invalid_json (read_observation value)) >>= answer_observation run_id)
      else if str_eq t "delegate_cancel_result"
      then (lift (map_err invalid_json (read_cancel value)) >>= answer_cancel run_id)
      else if str_eq t "delegate_result_result"
      then (lift (map_err invalid_json (read_result value))
          >>= answer_result run_id max_result_bytes)
      else raise (unexpected_response_type t)

  -- `value.get("rejection").filter(|value| !value.is_null())`
  abbrev pub live_rejection : Value → Option Value
  live_rejection value = elim (member value "rejection") [
    | none ↦ none
    | some r ↦ if is_null r then none else some r
  ]

  -- `value.get("type").and_then(Value::as_str).unwrap_or_default()`
  abbrev pub response_type : Value → String
  response_type value = elim (member value "type") [
    | none ↦ ""
    | some t ↦ Option.get_or (as_str t) ""
  ]

  abbrev pub response_run : Value → Result SupervisorRuntimeError ManagedRunId
  response_run value = elim (member value "managed_run_id") [
    | none ↦ err (invalid_json "missing managed_run_id")
    | some id ↦ map_err invalid_json (read_run_id id)
  ]

  -- What `apply_response_json` does with an answer that rejects nothing.
  unfoldable pub accept_response : String → ManagedRunId → Value → Method Value ManagedRunId
  unfolding response_kind with_entry answer_entry mark_proven
  accept_response t run_id value s =
      (do
        kind ← lift (response_kind t)
        with_entry run_id (answer_entry t run_id s.max_result_bytes value)
        λ s'. (ok run_id, mark_proven run_id kind s'))
        s

  unfoldable pub apply_response_json : String → Method Value ManagedRunId
  unfolding reject_response accept_response
  apply_response_json raw = do
    value ← lift (map_err invalid_json (parse raw))
    run_id ← lift (response_run value)
    elim (live_rejection value) [
      | some r ↦ lift (map_err invalid_json (read_rejection r)) >>= reject_response run_id
      | none ↦ accept_response (response_type value) run_id value
    ]

-- A dispatch is accepted once; its duplicates change nothing.
abbrev pub accept_task : String → OnEntry (Unit {0})
accept_task task_id entry =
    if is_dispatching entry.run.state
    then (do
      task ← lift (map_err validation (parse_omegon_task_id task_id))
      on_run (accept_dispatch task))
        entry
    else (ok tt, entry)

-- The `match` of `apply_a2a_event` on the event.
unfoldable pub answer_event : ManagedAgentA2aEvent → OnEntry (Unit {0})
answer_event (ManagedAgentA2aEvent.accepted run_id task_id message_id) = accept_task task_id
answer_event (ManagedAgentA2aEvent.duplicate run_id task_id message_id) = accept_task task_id
answer_event (ManagedAgentA2aEvent.completed run_id task_id message_id result) =
    on_run (complete_from_result result)
answer_event (ManagedAgentA2aEvent.failed run_id task_id message_id code safe_message) =
    on_run (fail_run code safe_message)
answer_event (ManagedAgentA2aEvent.cancellation_accepted run_id task_id message_id reason) =
    on_run (mark_cancellation_accepted reason)
answer_event (ManagedAgentA2aEvent.termination_confirmed run_id task_id message_id reason) =
    on_run (confirm_termination reason)

unfoldable pub apply_a2a_event : {V : Type 0} → ManagedAgentA2aEvent → Method V ManagedRunId
unfolding with_entry answer_event
apply_a2a_event event = do
  with_entry (event_run_id event) (answer_event event)
  pure (event_run_id event)
