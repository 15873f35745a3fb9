-- ===== src/ManagedAgent/Runtime/Keeps/Answers.antt =====
-- What a worker answers keeps the supervisor coherent.
use auspex.Prelude.{
  String, refl, inl, inr, Option, ok, ◌>>=◌, pure, arith, Option-cases, Result-cases,
}
use auspex.Prelude.Maps.{get, get-update_first, update_first-IsSortedFrom}
use auspex.ManagedAgent.Domain.{ManagedRunId}
use auspex.ManagedAgent.Contract.{SupervisorRejection}
use auspex.ManagedAgent.Serde.{Serde}
use auspex.ManagedAgent.Outcome.{ManagedAgentA2aEvent, event_run_id}
use auspex.ManagedAgent.Runtime.{ManagedCommandKind, SupervisorRuntime, with_entry}
use auspex.ManagedAgent.Runtime.Prepare.{request_a2a_cancellation, a2a_cancel_entry}
use auspex.ManagedAgent.Runtime.Delivery.{apply_receipt_json, apply_command_ack_json}
use auspex.ManagedAgent.Runtime.Answer.{
  answer_entry, answer_event, mark_proven, proves, set_proven, reject_response, accept_response,
  apply_response_json, apply_a2a_event, response_kind, live_rejection, response_run, response_type,
}
use auspex.ManagedAgent.Runtime.Entries.{
  a2a_cancel_entry-Moves, answer_entry-Moves, answer_event-Moves,
}
use auspex.ManagedAgent.Runtime.Coherence.{
  IsCoherent, insert_run-IsCoherent, with_entry-IsCoherent, with_commands-IsCoherent,
}
use auspex.ManagedAgent.Runtime.Keeps.{
  Keeps, bind-Keeps, apply_receipt-Keeps, apply_command_ack-Keeps,
}

module _ {V : Type 0} where
  mark_proven-IsCoherent :
      (run_id : ManagedRunId) (kind : ManagedCommandKind) (s : SupervisorRuntime V)
      → IsCoherent s
      → IsCoherent (mark_proven run_id kind s)
  unfolding mark_proven
  mark_proven-IsCoherent run_id kind s v =
      with_commands-IsCoherent _ s
        (update_first-IsSortedFrom (proves run_id kind) set_proven 0 s.commands v.commands_sorted)
        (λ c p e. elim (get-update_first (proves run_id kind) set_proven c s.commands) [
          | inl same ↦ (p, cc, refl)
          | inr (old, found, hit, image) ↦ (old, found, ground (arith, image))
        ])
        v

  reject_response-Keeps :
      (run_id : ManagedRunId) (rejection : SupervisorRejection)
      → Keeps {V = V} (reject_response run_id rejection)
  unfolding reject_response
  reject_response-Keeps run_id rejection s v = elim (Option-cases (get run_id s.runs)) [
    | inl missing ↦ rw (reject_response, missing) v
    | inr (entry, found) ↦
        rw (reject_response, found)
          (insert_run-IsCoherent run_id _ s
            (record {
              run_id = (v.entries run_id entry found).run_id;
              consistent = (v.entries run_id entry found).consistent;
            })
            v)
  ]

  pub request_a2a_cancellation-Keeps :
      (run_id : ManagedRunId) (reason : Option String)
      → Keeps {V = V} (request_a2a_cancellation run_id reason)
  unfolding request_a2a_cancellation
  request_a2a_cancellation-Keeps run_id reason s v =
      with_entry-IsCoherent run_id (a2a_cancel_entry run_id reason) s
        (a2a_cancel_entry-Moves run_id reason) v

  pub apply_a2a_event-Keeps : (event : ManagedAgentA2aEvent) → Keeps {V = V} (apply_a2a_event event)
  unfolding apply_a2a_event
  apply_a2a_event-Keeps event =
      bind-Keeps (with_entry (event_run_id event) (answer_event event))
        (λ _. pure (event_run_id event))
        (λ s v.
          with_entry-IsCoherent (event_run_id event) (answer_event event) s
            (answer_event-Moves event) v)
        (λ _ s v. v)

module _ (serde : Serde) where
  open serde use {Value}

  pub accept_response-Keeps :
      (t : String) (run_id : ManagedRunId) (value : Value)
      → Keeps (accept_response serde t run_id value)
  unfolding accept_response
  accept_response-Keeps t run_id value s v = elim (Result-cases (response_kind t)) [
    | inr (x, unknown) ↦ rw (accept_response, ◌>>=◌, unknown) v
    | inl (kind, known) ↦
        rw (accept_response, ◌>>=◌, known)
          (bind-Keeps (with_entry run_id (answer_entry serde t run_id s.max_result_bytes value))
            (λ _ s'. (ok run_id, mark_proven run_id kind s'))
            (λ s v. with_entry-IsCoherent run_id _ s (answer_entry-Moves serde t run_id _ value) v)
            (λ _. mark_proven-IsCoherent run_id kind) s v)
  ]

  pub apply_response_json-Keeps : (raw : String) → Keeps (apply_response_json serde raw)
  unfolding apply_response_json
  apply_response_json-Keeps raw s v = elim (Result-cases (serde.parse raw)) [
    | inr (x, unread) ↦ rw (apply_response_json, ◌>>=◌, unread) v
    | inl (value, read) ↦ elim (Result-cases (response_run serde value)) [
      | inr (x, unnamed) ↦ rw (apply_response_json, ◌>>=◌, read, unnamed) v
      | inl (run_id, named) ↦ elim (Option-cases (live_rejection serde value)) [
        | inl sound ↦
            rw (apply_response_json, ◌>>=◌, read, named, sound)
              (accept_response-Keeps (response_type serde value) run_id value s v)
        | inr (r, refused) ↦ elim (Result-cases (serde.read_rejection r)) [
          | inr (x, unclear) ↦ rw (apply_response_json, ◌>>=◌, read, named, refused, unclear) v
          | inl (rejection, clear) ↦
              rw (apply_response_json, ◌>>=◌, read, named, refused, clear)
                (reject_response-Keeps run_id rejection s v)
        ]
      ]
    ]
  ]

  pub apply_receipt_json-Keeps : (json : String) → Keeps (apply_receipt_json serde json)
  unfolding apply_receipt_json
  apply_receipt_json-Keeps json s v = elim (Result-cases (serde.parse_receipt json)) [
    | inr (x, unread) ↦ rw (apply_receipt_json, ◌>>=◌, unread) v
    | inl (r, read) ↦ rw (apply_receipt_json, ◌>>=◌, read) (apply_receipt-Keeps r s v)
  ]

  pub apply_command_ack_json-Keeps : (json : String) → Keeps (apply_command_ack_json serde json)
  unfolding apply_command_ack_json
  apply_command_ack_json-Keeps json s v = elim (Result-cases (serde.parse_ack json)) [
    | inr (x, unread) ↦ rw (apply_command_ack_json, ◌>>=◌, unread) v
    | inl (ack, read) ↦ rw (apply_command_ack_json, ◌>>=◌, read) (apply_command_ack-Keeps ack s v)
  ]
