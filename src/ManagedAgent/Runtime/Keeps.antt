-- ===== src/ManagedAgent/Runtime/Keeps.antt =====
-- Every method of the supervisor keeps it coherent.
pub mod Sweeps
pub mod Answers
pub mod Calls
use auspex.Prelude.{
  ℕ, String, ◌≡◌, refl, sym, ◌⊎◌, inl, inr, ap, Bool, true, false, not, ◌&&◌, Option, none, some,
  List, [], ◌∷◌, Result, ok, err, Action, ◌>>=◌, ◌>>◌, lift, map_err, ok_or, pure, raise, arith,
  ◌==◌, leb, ltb, ==_iff, Option-cases, Bool-cases, Result-cases, if◌then◌else◌, ◌-◌, ◌+◌,
}
use auspex.Prelude.Maps.{
  Map, get, insert, remove, map_values, update_first, filter_map_mut, get-map_values_from,
  get-update_first, filter_map_mut-map_values, IsSortedFrom, insert-IsSortedFrom,
  map_values-IsSortedFrom, update_first-IsSortedFrom,
}
use auspex.ManagedAgent.Domain.{ManagedRunId, WorkerId, ManagedRunRequest, OmegonTaskId}
use auspex.ManagedAgent.Run.{new_run}
use auspex.ManagedAgent.Run.Invariant.{new_run-IsConsistent}
use auspex.ManagedAgent.Command.{
  ManagedCommandId, TargetedCommand, managed_command_id, CommandTarget,
}
use auspex.ManagedAgent.Contract.{
  validate_ack, new_task_request, new_dispatch_request, method_delegate_dispatch,
  ControlCommandReceipt, ManagedAgentCommandAck, SupervisorRejection,
}
use auspex.ManagedAgent.Serde.{Serde}
use auspex.ManagedAgent.Outcome.{ManagedAgentA2aEvent, event_run_id}
use auspex.ManagedAgent.Runtime.{
  Instant, SupervisorRuntimeError, control_target, omegon_control, ManagedCommandKind,
  PendingManagedCommand, RuntimeEntry, SupervisorRuntime, Method, ManagedAgentTransportBinding,
  is_unsettled, with_entry, push_event, contract, invalid_json,
}
use auspex.ManagedAgent.Runtime.Prepare.{
  Clock, encode, register_command, prepare_run, dispatch_run, poll_command, cancel_command,
  request_a2a_cancellation, has_pending_poll, cancel_entry, a2a_cancel_entry,
}
use auspex.ManagedAgent.Runtime.Delivery.{
  apply_receipt, apply_command_ack, is_other_command, replay_command, replay_due_commands,
  apply_receipt_json, apply_command_ack_json,
}
use auspex.ManagedAgent.Runtime.Answer.{
  answer_entry, answer_event, mark_proven, proves, set_proven, reject_response, accept_response,
  apply_response_json, apply_a2a_event, response_kind, live_rejection, response_run, response_type,
}
use auspex.ManagedAgent.Runtime.Sweep.{
  expire_entry, expire_dispatches_at, expire_dispatches_for, mark_worker_disconnected,
  mark_worker_reconnected, disconnect_entry, reconnect_entry, remove_run,
}
use auspex.ManagedAgent.Runtime.Entries.{
  IsEntryOf, Moves-IsEntryOf, cancel_entry-Moves, a2a_cancel_entry-Moves, answer_entry-Moves,
  answer_event-Moves, disconnect_entry-Moves, reconnect_entry-Moves, expire_entry-Moves,
}
use auspex.ManagedAgent.Runtime.Coherence.{
  IsCoherent, insert_route-IsCoherent, with_runs-IsCoherent, insert_run-IsCoherent,
  remove_run_entries-IsCoherent, map_runs-IsCoherent, with_entry-IsCoherent,
  with_commands-IsCoherent, insert_command-IsCoherent,
}

module _ {V : Type 0} where
  -- The method leaves a coherent supervisor coherent, also when it returns an error.
  abbrev pub Keeps : {A : Type 0} → Method V A → Type 0
  Keeps m = (s : SupervisorRuntime V) → IsCoherent s → IsCoherent (m s).1

  pub bind-Keeps :
      {A B : Type 0} (m : Method V A) (f : A → Method V B)
      → Keeps m
      → ((a : A) → Keeps (f a))
      → Keeps (m >>= f)
  bind-Keeps m f km kf s v = after (m s).0 refl
    where
      after : (r : Result _ _) → (m s).0 ≡ r → IsCoherent ((m >>= f) s).1
      after (ok a) e = rw (◌>>=◌, e) (kf a (m s).1 (km s v))
      after (err x) e = rw (◌>>=◌, e) (km s v)

  pub register_command-Keeps :
      (now : Instant) (run_id : ManagedRunId) (kind : ManagedCommandKind)
      (command : TargetedCommand V)
      → Keeps (register_command now run_id kind command)
  unfolding register_command
  register_command-Keeps now run_id kind command s v =
      elim (Option-cases (managed_command_id command)) [
        | inl unnamed ↦ rw (register_command, unnamed) v
        | inr (c, named) ↦ elim (Option-cases (get run_id s.runs)) [
          | inl missing ↦ rw (register_command, named, missing) v
          | inr (entry, found) ↦
              rw (register_command, named, found) (insert_route-IsCoherent c _ s v)
        ]
      ]

  pub prepare_run-Keeps :
      (fresh : ManagedRunId) (clock : Clock) (worker_id : WorkerId) (session turn : String)
      (request : ManagedRunRequest) (transport : ManagedAgentTransportBinding) (at : ℕ)
      → Keeps (prepare_run fresh clock worker_id session turn request transport at)
  unfolding prepare_run
  prepare_run-Keeps fresh clock worker_id session turn request transport at s v =
      elim (Result-cases (new_run fresh worker_id session turn request)) [
        | inr (x, refused) ↦ rw (prepare_run, refused) v
        | inl (run, made) ↦ elim (Option-cases (get run.run_id s.runs)) [
          | inr (old, taken) ↦ rw (prepare_run, ◌>>=◌, made, taken) v
          | inl free ↦
              rw (prepare_run, ◌>>=◌, made, free)
                (insert_run-IsCoherent run.run_id _ s
                  (record {
                    run_id = refl;
                    consistent = new_run-IsConsistent fresh worker_id session turn request made;
                  })
                  v)
        ]
      ]

  pub apply_receipt-Keeps : (r : ControlCommandReceipt) → Keeps (apply_receipt r)
  unfolding apply_receipt
  apply_receipt-Keeps r s v = elim (Bool-cases (r.schema_version == 1)) [
    | inr other ↦ rw (apply_receipt, other) v
    | inl first ↦ elim (Option-cases (get r.command_id s.commands)) [
      | inl missing ↦ rw (apply_receipt, first, missing) v
      | inr (p, found) ↦
          rw (apply_receipt, first, found)
            (insert_command-IsCoherent r.command_id p _ s found refl v)
    ]
  ]

  pub apply_command_ack-Keeps : (ack : ManagedAgentCommandAck) → Keeps (apply_command_ack ack)
  unfolding apply_command_ack
  apply_command_ack-Keeps ack s v = elim (Result-cases (validate_ack ack)) [
    | inr (x, invalid) ↦ rw (apply_command_ack, ◌>>=◌, invalid) v
    | inl (_, valid) ↦ elim (Option-cases (get ack.command_id s.commands)) [
      | inl missing ↦ rw (apply_command_ack, ◌>>=◌, valid, missing) v
      | inr (p, found) ↦ elim (Bool-cases (is_other_command p ack)) [
        | inl other ↦ rw (apply_command_ack, ◌>>=◌, valid, found, other) v
        | inr same ↦ elim (Bool-cases (is_unsettled p.state)) [
          | inr settled ↦ rw (apply_command_ack, ◌>>=◌, valid, found, same, settled) v
          | inl waits ↦
              rw (apply_command_ack, ◌>>=◌, valid, found, same, waits)
                (insert_command-IsCoherent ack.command_id p _ s found refl v)
        ]
      ]
    ]
  ]

  replay_command-run_id :
      (now : Instant) (timeout : ℕ) (p : PendingManagedCommand V)
      → (replay_command now timeout p).1.run_id ≡ p.run_id
  unfolding replay_command
  replay_command-run_id now timeout p = ground arith

  pub replay_due_commands-IsCoherent :
      (now : Instant) (timeout : ℕ) (s : SupervisorRuntime V)
      → IsCoherent s
      → IsCoherent (replay_due_commands now timeout s).1
  unfolding replay_due_commands
  replay_due_commands-IsCoherent now timeout s v =
      rw (filter_map_mut-map_values (replay_command now timeout) s.commands) (
        with_commands-IsCoherent _ s (map_values-IsSortedFrom _ 0 s.commands v.commands_sorted)
          (λ c p e.
            let (old, found, image) = get-map_values_from _ c s.commands e in
            (old, found, ground (arith, image, replay_command-run_id now timeout old)))
          v)
