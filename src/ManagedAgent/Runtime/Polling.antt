-- ===== src/ManagedAgent/Runtime/Polling.antt =====
-- One poll of a run at a time.
use auspex.Prelude.{
  ℕ, ◌≡◌, ◌⊎◌, refl, ap, Bool, true, false, some, [], ◌∷◌, Result, ok, err, ◌>>=◌, arith, any,
  ==_self, Option-cases, Bool-cases, Result-cases, inl, inr,
}
use auspex.Prelude.Maps.{Map, get, insert, get-insert}
use auspex.ManagedAgent.Domain.{ManagedRunId, OmegonTaskId, dispatch_not_accepted}
use auspex.ManagedAgent.Command.{
  CommandTarget, ManagedCommandId, TargetedCommand, managed_command_id, control_command,
}
use auspex.ManagedAgent.Contract.{new_task_request, serialization, method_delegate_get}
use auspex.ManagedAgent.Serde.{Serde}
use auspex.ManagedAgent.Runtime.{
  Instant, SupervisorRuntime, command_already_pending, unknown_run, domain, contract,
  control_target, SupervisorRuntimeError, RuntimeEntry, poll,
}
use auspex.ManagedAgent.Runtime.Prepare.{register_command, poll_command, has_pending_poll}

any-insert {ℓ} :
    {V : Type ℓ} (p : ℕ × V → Bool) (k : ℕ) (v : V) (m : Map V)
    → p (k, v) ≡ true
    → any p (insert k v m) ≡ true
unfolding insert
any-insert p k v [] h = ground arith
any-insert p k v ((j, w) ∷ m) h = ground (arith, any-insert p k v m h)

module _ (serde : Serde) where
  open serde use {Value}

  registers_poll :
      (command_id : ManagedCommandId) (sent_at : Instant) (run_id : ManagedRunId)
      (command : TargetedCommand Value) (entry : RuntimeEntry) (s : SupervisorRuntime Value)
      → managed_command_id command ≡ some command_id
      → get run_id s.runs ≡ some entry
      → has_pending_poll serde run_id (register_command sent_at run_id poll command s).1 ≡ true
  unfolding has_pending_poll register_command
  registers_poll command_id sent_at run_id command entry s named found =
      rw (has_pending_poll, register_command, ◌>>=◌, named, found)
        (any-insert _ command_id _ s.commands (
          rw
            (
              get-insert command_id command_id run_id s.command_runs,
              ==_self command_id,
              ==_self run_id,
            )
            refl))

  registers :
      (command_id : ManagedCommandId) (sent_at : Instant) (run_id : ManagedRunId)
      (command : TargetedCommand Value) (entry : RuntimeEntry) (s : SupervisorRuntime Value)
      → managed_command_id command ≡ some command_id
      → get run_id s.runs ≡ some entry
      → register_command sent_at run_id poll command s
        ≡ (ok command, (register_command sent_at run_id poll command s).1)
  unfolding register_command
  registers command_id sent_at run_id command entry s named found =
      rw (register_command, ◌>>=◌, named, found) refl

  -- A poll that nothing stops registers its command.
  polls :
      (fresh : ManagedCommandId) (sent_at : Instant) (run_id : ManagedRunId) (entry : RuntimeEntry)
      (task_id : OmegonTaskId) (target : CommandTarget) (payload : Value)
      (s : SupervisorRuntime Value)
      (r : Result SupervisorRuntimeError (TargetedCommand Value) × SupervisorRuntime Value)
      → has_pending_poll serde run_id s ≡ false
      → get run_id s.runs ≡ some entry
      → entry.run.omegon_task_id ≡ some task_id
      → control_target entry.transport ≡ ok target
      → serde.write_task (new_task_request run_id entry.run.worker_id task_id) ≡ ok payload
      → register_command sent_at run_id poll
          (control_command fresh target method_delegate_get payload)
          s
        ≡ r
      → poll_command serde fresh sent_at run_id s ≡ r
  unfolding poll_command
  polls fresh sent_at run_id entry task_id target payload s r free found dispatched bound written
        h =
      rw (poll_command, ◌>>=◌, free, found, dispatched, bound, written) h

  -- A poll either returns an error and changes nothing, or returns a command and registers it.
  pub polls_or_not :
      (fresh : ManagedCommandId) (sent_at : Instant) (run_id : ManagedRunId)
      (s : SupervisorRuntime Value)
      → ((e : SupervisorRuntimeError) × (poll_command serde fresh sent_at run_id s ≡ (err e, s)))
        ⊎ ((command : TargetedCommand Value) × (poll_command serde fresh sent_at run_id s
              ≡ (ok command, (register_command sent_at run_id poll command s).1))
            × (has_pending_poll serde run_id (poll_command serde fresh sent_at run_id s).1 ≡ true))
  unfolding poll_command managed_command_id control_command
  polls_or_not fresh sent_at run_id s = elim (Bool-cases (has_pending_poll serde run_id s)) [
    | inl waits ↦ inl (command_already_pending, rw (poll_command, waits) refl)
    | inr free ↦ elim (Option-cases (get run_id s.runs)) [
      | inl missing ↦ inl (unknown_run, rw (poll_command, ◌>>=◌, free, missing) refl)
      | inr (entry, found) ↦ elim (Option-cases entry.run.omegon_task_id) [
        | inl undispatched ↦
            inl (
              domain dispatch_not_accepted,
              rw (poll_command, ◌>>=◌, free, found, undispatched) refl,
            )
        | inr (task_id, dispatched) ↦ elim (Result-cases (control_target entry.transport)) [
          | inr (x, other) ↦ inl (x, rw (poll_command, ◌>>=◌, free, found, dispatched, other) refl)
          | inl (target, bound) ↦
              elim (Result-cases
                (serde.write_task (new_task_request run_id entry.run.worker_id task_id))) [
                  | inr (x, unwritten) ↦ inl (
                    contract (serialization x),
                    rw (poll_command, ◌>>=◌, free, found, dispatched, bound, unwritten) refl,
                  )
                  | inl (payload, written) ↦
                      let command = control_command fresh target method_delegate_get payload in
                      inr (
                        command,
                        polls fresh sent_at run_id entry task_id target payload s
                            (ok command, (register_command sent_at run_id poll command s).1) free
                            found dispatched bound written
                            (registers fresh sent_at run_id command entry s refl found),
                        rw (poll_command, ◌>>=◌, free, found, dispatched, bound, written)
                            (registers_poll fresh sent_at run_id command entry s refl found),
                      )
                ]
        ]
      ]
    ]
  ]

  -- While a poll of a run is pending there is no other. A poll either returns an error and changes
  -- nothing, or it returns a command, and then the next poll of the run is refused and changes
  -- nothing.
  pub poll_command-twice :
      (fresh fresh' : ManagedCommandId) (sent_at sent_at' : Instant) (run_id : ManagedRunId)
      (s : SupervisorRuntime Value)
      → let (answer, s') = poll_command serde fresh sent_at run_id s in
        ((e : SupervisorRuntimeError) × (answer ≡ err e) × (s' ≡ s))
        ⊎ ((command : TargetedCommand Value) × (answer ≡ ok command)
            × (poll_command serde fresh' sent_at' run_id s' ≡ (err command_already_pending, s')))
  unfolding poll_command
  poll_command-twice fresh fresh' sent_at sent_at' run_id s =
      elim (polls_or_not fresh sent_at run_id s) [
        | inl (e, refused) ↦ inl (e, ap (λ r. r.0) refused, ap (λ r. r.1) refused)
        | inr (command, done, waits) ↦
            inr (command, ap (λ r. r.0) done, rw (poll_command, waits) refl)
      ]
