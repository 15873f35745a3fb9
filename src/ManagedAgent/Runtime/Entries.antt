-- ===== src/ManagedAgent/Runtime/Entries.antt =====
-- What is done to one entry of the runtime keeps the entry that of its run, and the run consistent:
-- one rule for each way to build such an action, then the actions of the methods.
use auspex.Prelude.{
  ℕ, String, ◌≡◌, refl, ◌⊎◌, inl, inr, Option-cases, Bool-cases, Result-cases, Bool, true, false,
  Option, Result, ok, err, ◌>>=◌, lift, map_err, arith, if◌then◌else◌, str_eq, leb, ◌-◌,
}
use auspex.ManagedAgent.Domain.{ManagedRunId, WorkerId, parse_omegon_task_id}
use auspex.ManagedAgent.Run.{is_dispatching}
use auspex.ManagedAgent.Run.Events.{
  RunCall, accepts_dispatch, requests_cancellation, observes, times_out, gets_cancellation_response,
  completes, fails, gets_cancellation_accepted, confirms_termination, reconnects, disconnects, call,
}
use auspex.ManagedAgent.Run.Invariant.{IsConsistent, call-IsConsistent, call-KeepsIdentity}
use auspex.ManagedAgent.Contract.{
  validate_dispatch, validate_observation, validate_cancel, validate_result,
  DelegateDispatchResponse, DelegateObservationResponse, DelegateCancelResponse,
  DelegateResultResponse,
}
use auspex.ManagedAgent.Command.{ManagedCommandId}
use auspex.ManagedAgent.Serde.{Serde}
use auspex.ManagedAgent.Outcome.{ManagedAgentA2aEvent}
use auspex.ManagedAgent.Runtime.{
  RuntimeEntry, ManagedAgentTransportBinding, OnEntry, omegon_control, styrene_a2a, invalid_json,
}
use auspex.ManagedAgent.Runtime.Prepare.{cancel_entry, a2a_cancel_entry}
use auspex.ManagedAgent.Runtime.Answer.{
  answer_dispatch, answer_observation, answer_cancel, answer_result, answer_entry, answer_event,
  accept_task,
}
use auspex.ManagedAgent.Runtime.Sweep.{
  disconnect_entry, reconnect_entry, expire_entry, is_active_of,
}

-- The entry is that of the run with this id, and its run is consistent.
pub record IsEntryOf (k : ManagedRunId) (entry : RuntimeEntry) : Type 0 where
  pub run_id : entry.run.run_id ≡ k
  pub consistent : IsConsistent entry.run

-- The run after an action is the run before it, or that run after one call of a method.
abbrev pub Moves : RuntimeEntry → RuntimeEntry → Type 0
Moves entry after = (after.run ≡ entry.run) ⊎ ((c : RunCall) × (after.run ≡ (call c entry.run).1))

pub Moves-IsEntryOf :
    (k : ManagedRunId) (entry after : RuntimeEntry)
    → Moves entry after
    → IsEntryOf k entry
    → IsEntryOf k after
Moves-IsEntryOf k entry after (inl e) v = record {
  run_id = cc (v.run_id);
  consistent = rw e v.consistent;
}
Moves-IsEntryOf k entry after (inr (c, e)) v = record {
  run_id = cc (v.run_id, (call-KeepsIdentity c entry.run).run_id);
  consistent = rw e (call-IsConsistent c entry.run v.consistent);
}

pub cancel_entry-Moves :
    (serde : Serde) (fresh : ManagedCommandId) (run_id : ManagedRunId) (reason : Option String)
    (entry : RuntimeEntry)
    → Moves entry (cancel_entry serde fresh run_id reason entry).1
unfolding call
cancel_entry-Moves serde fresh run_id reason entry = elim (Option-cases entry.run.omegon_task_id) [
  | inl undispatched ↦ inl (ground arith)
  | inr (task_id, e) ↦ inr (requests_cancellation reason, ground arith)
]

pub a2a_cancel_entry-Moves :
    (run_id : ManagedRunId) (reason : Option String) (entry : RuntimeEntry)
    → Moves entry (a2a_cancel_entry run_id reason entry).1
unfolding call
a2a_cancel_entry-Moves run_id reason entry = a2a_cases entry.transport refl
  where
    a2a_cases :
        (t : ManagedAgentTransportBinding)
        → entry.transport ≡ t
        → Moves entry (a2a_cancel_entry run_id reason entry).1
    a2a_cases (omegon_control instance_id target) e = inl (ground arith)
    a2a_cases (styrene_a2a target) e = inr (requests_cancellation reason, ground arith)

answer_dispatch-Moves :
    (run_id : ManagedRunId) (r : DelegateDispatchResponse) (entry : RuntimeEntry)
    → Moves entry (answer_dispatch run_id r entry).1
unfolding answer_dispatch call
answer_dispatch-Moves run_id r entry =
    elim (Result-cases (validate_dispatch r run_id entry.run.worker_id)) [
      | inl (task_id, e) ↦ inr (accepts_dispatch task_id, ground arith)
      | inr (x, e) ↦ inl (ground arith)
    ]

answer_observation-Moves :
    (run_id : ManagedRunId) (r : DelegateObservationResponse) (entry : RuntimeEntry)
    → Moves entry (answer_observation run_id r entry).1
unfolding answer_observation call
answer_observation-Moves run_id r entry = elim (Option-cases entry.run.omegon_task_id) [
  | inl undispatched ↦ inl (ground arith)
  | inr (task_id, e) ↦
      elim (Result-cases (validate_observation r run_id entry.run.worker_id task_id)) [
        | inl sound ↦ inr (observes r.observation, ground arith)
        | inr unsound ↦ inl (ground arith)
      ]
]

answer_cancel-Moves :
    (run_id : ManagedRunId) (r : DelegateCancelResponse) (entry : RuntimeEntry)
    → Moves entry (answer_cancel run_id r entry).1
unfolding answer_cancel call
answer_cancel-Moves run_id r entry = elim (Option-cases entry.run.omegon_task_id) [
  | inl undispatched ↦ inl (ground arith)
  | inr (task_id, e) ↦ elim (Result-cases (validate_cancel r run_id entry.run.worker_id task_id)) [
    | inl sound ↦
        inr
          (gets_cancellation_response r.acknowledged r.termination_confirmed r.reason, ground arith)
    | inr unsound ↦ inl (ground arith)
  ]
]

answer_result-Moves :
    (run_id : ManagedRunId) (limit : ℕ) (r : DelegateResultResponse) (entry : RuntimeEntry)
    → Moves entry (answer_result run_id limit r entry).1
unfolding answer_result call
answer_result-Moves run_id limit r entry = elim (Option-cases entry.run.omegon_task_id) [
  | inl undispatched ↦ inl (ground arith)
  | inr (task_id, e) ↦
      elim (Result-cases (validate_result r run_id entry.run.worker_id task_id limit)) [
        | inl sound ↦ inr (completes r.result, ground arith)
        | inr unsound ↦ inl (ground arith)
      ]
]

-- An answer that cannot be read leaves the entry as it was.
read-Moves :
    {A : Type 0} (entry : RuntimeEntry) (r : Result String A) (f : A → OnEntry (Unit {0}))
    → ((a : A) → Moves entry (f a entry).1)
    → Moves entry ((lift (map_err invalid_json r) >>= f) entry).1
read-Moves entry (ok a) f h = h a
read-Moves entry (err e) f h = inl refl

if-Moves :
    (entry : RuntimeEntry) (b : Bool) (m n : OnEntry (Unit {0}))
    → Moves entry (m entry).1
    → Moves entry (n entry).1
    → Moves entry ((if b then m else n) entry).1
if-Moves entry true m n hm hn = hm
if-Moves entry false m n hm hn = hn

pub answer_entry-Moves :
    (serde : Serde) (t : String) (run_id : ManagedRunId) (limit : ℕ) (value : serde.Value)
    (entry : RuntimeEntry)
    → Moves entry (answer_entry serde t run_id limit value entry).1
unfolding answer_entry
answer_entry-Moves serde t run_id limit value entry =
    if-Moves entry (str_eq t "delegate_dispatch_result") _ _
      (read-Moves entry (serde.read_dispatch value) (answer_dispatch run_id)
        λ r. answer_dispatch-Moves run_id r entry)
      (if-Moves entry (str_eq t "delegate_get_result") _ _
        (read-Moves entry (serde.read_observation value) (answer_observation run_id)
          λ r. answer_observation-Moves run_id r entry)
        (if-Moves entry (str_eq t "delegate_cancel_result") _ _
          (read-Moves entry (serde.read_cancel value) (answer_cancel run_id)
            λ r. answer_cancel-Moves run_id r entry)
          (if-Moves entry (str_eq t "delegate_result_result") _ _
            (read-Moves entry (serde.read_result value) (answer_result run_id limit)
              λ r. answer_result-Moves run_id limit r entry)
            (inl refl))))

accept_task-Moves :
    (task_id : String) (entry : RuntimeEntry) → Moves entry (accept_task task_id entry).1
unfolding call
accept_task-Moves text entry = elim (Result-cases (parse_omegon_task_id text)) [
  | inl (task_id, e) ↦ elim (Bool-cases (is_dispatching entry.run.state)) [
    | inl waits ↦ inr (accepts_dispatch task_id, ground arith)
    | inr answered ↦ inl (ground arith)
  ]
  | inr (x, e) ↦ inl (ground arith)
]

pub answer_event-Moves :
    (event : ManagedAgentA2aEvent) (entry : RuntimeEntry) → Moves entry (answer_event event entry).1
unfolding answer_event call
answer_event-Moves (ManagedAgentA2aEvent.accepted run_id task_id message_id) entry =
    accept_task-Moves task_id entry
answer_event-Moves (ManagedAgentA2aEvent.duplicate run_id task_id message_id) entry =
    accept_task-Moves task_id entry
answer_event-Moves (ManagedAgentA2aEvent.completed run_id task_id message_id result) entry =
    inr (completes result, refl)
answer_event-Moves (ManagedAgentA2aEvent.failed run_id task_id message_id code text) entry =
    inr (fails code text, refl)
answer_event-Moves (ManagedAgentA2aEvent.cancellation_accepted run_id task_id message_id reason)
      entry =
    inr (gets_cancellation_accepted reason, refl)
answer_event-Moves (ManagedAgentA2aEvent.termination_confirmed run_id task_id message_id reason)
      entry =
    inr (confirms_termination reason, refl)

pub disconnect_entry-Moves :
    (worker : WorkerId) (entry : RuntimeEntry) → Moves entry (disconnect_entry worker entry)
unfolding disconnect_entry call
disconnect_entry-Moves worker entry = elim (Bool-cases (is_active_of worker entry)) [
  | inl active ↦ inr (disconnects, ground arith)
  | inr other ↦ inl (ground arith)
]

pub reconnect_entry-Moves :
    (worker : WorkerId) (entry : RuntimeEntry) → Moves entry (reconnect_entry worker entry)
unfolding reconnect_entry call
reconnect_entry-Moves worker entry = elim (Bool-cases (is_active_of worker entry)) [
  | inl active ↦ inr (reconnects, ground arith)
  | inr other ↦ inl (ground arith)
]

pub expire_entry-Moves :
    (now timeout : ℕ) (entry : RuntimeEntry) → Moves entry (expire_entry now timeout entry).1
unfolding expire_entry call
expire_entry-Moves now timeout entry = elim (Bool-cases (is_dispatching entry.run.state)) [
  | inl waits ↦ elim (Bool-cases (leb timeout (now - entry.dispatched_at))) [
    | inl due ↦ inr (times_out, ground arith)
    | inr early ↦ inl (ground arith)
  ]
  | inr answered ↦ inl (ground arith)
]
