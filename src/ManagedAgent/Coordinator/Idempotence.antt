-- ===== src/ManagedAgent/Coordinator/Idempotence.antt =====
-- An operation that a parent repeats is done once, and puts one action in the queue.
use auspex.Prelude.{
  ℕ, ◌+◌, ◌≡◌, ◌≢◌, refl, ap, ◌⊎◌, String, Bool, true, false, ◌&&◌, Option, none, some, List, [],
  ◌∷◌, ◌++◌, Result, ok, err, ◌>>=◌, arith, str_eq, eq_iff, eq_refl, length, length-append,
  Option-cases, Bool-cases, Result-cases, inl, inr,
}
use auspex.Prelude.Maps.{get}
use auspex.ManagedAgent.Domain.{ManagedRunId}
use auspex.ManagedAgent.Runtime.{RuntimeEntry}
use auspex.ManagedAgent.Projection.{project_run_for_parent, parent_session_mismatch}
use auspex.ManagedAgent.Coordinator.{
  ManagedAgentTransportAction, MutationError, projection_rejected, ManagedAgentDispatchCommand,
  cancels, Turn, Coordination, completed_operation, mutate, apply, process_pending,
}

pushed-completed :
    (a a' b b' : String) (fresh run_id : ManagedRunId) (m : List ((String × String) × ManagedRunId))
    → completed_operation a b m ≡ none
    → completed_operation a' b' m ≡ some run_id
    → completed_operation a' b' (((a, b), fresh) ∷ m) ≡ some run_id
pushed-completed a a' b b' fresh run_id m first e = elim (Bool-cases (str_eq a a' && str_eq b b')) [
  | inr other ↦ ground arith
  | inl same ↦
      let sessions : a ≡ a' = ground (arith, eq_iff a a') in
      let operations : b ≡ b' = ground (arith, eq_iff b b') in
      let both : completed_operation a b m ≡ completed_operation a' b' m = cc in
      ground (arith, both)
]

-- How many of the answers report a run and no duplicate.
abbrev pub new_answers : List (Result MutationError (ManagedRunId × Bool)) → ℕ
new_answers [] = 0
new_answers (ok (run_id, true) ∷ rest) = new_answers rest
new_answers (ok (run_id, false) ∷ rest) = 1 + new_answers rest
new_answers (err error ∷ rest) = new_answers rest

-- No operation of a session is noted twice.
abbrev pub IsNotedOnce : List ((String × String) × ManagedRunId) → Type 0
IsNotedOnce [] = Unit {0}
IsNotedOnce (((session, operation), run_id) ∷ rest) =
    (completed_operation session operation rest ≡ none) × IsNotedOnce rest

module _ {V : Type 0} where
  -- What `apply` does, in each of its three outcomes.
  apply_cases :
      (turn : Turn) (command : ManagedAgentDispatchCommand) (c : Coordination V)
      → ((run_id : ManagedRunId) × (completed_operation command.parent_session_id
              command.operation_id c.completed_operations
            ≡ some run_id)
          × (apply turn command c ≡ (ok (run_id, true), c)))
        ⊎ ((error : MutationError) × (apply turn command c
              ≡ (err error, record c { supervisor = (mutate turn command c.supervisor).1 })))
        ⊎ ((run_id : ManagedRunId) × (action : ManagedAgentTransportAction) × (completed_operation
                command.parent_session_id command.operation_id c.completed_operations
              ≡ none)
            × (apply turn command c ≡ (
              ok (run_id, false),
              record {
                supervisor = (mutate turn command c.supervisor).1;
                actions = c.actions ++ action ∷ [];
                completed_operations =
                    ((command.parent_session_id, command.operation_id), run_id)
                    ∷ c.completed_operations;
              },
            )))
  unfolding apply
  apply_cases turn command c =
      elim (Option-cases (
        completed_operation command.parent_session_id command.operation_id
          c.completed_operations)) [
            | inr (run_id, again) ↦ inl (run_id, again, rw (apply, again) refl)
            | inl first ↦ elim (Result-cases (mutate turn command c.supervisor).0) [
              | inr (error, failed) ↦ inr (inl (error, rw (apply, first, failed) refl))
              | inl ((run_id, action), done) ↦
                  inr (inr (run_id, action, first, rw (apply, first, done) refl))
            ]
          ]

  apply-completed :
      (turn : Turn) (command : ManagedAgentDispatchCommand) (session operation : String)
      (run_id : ManagedRunId) (c : Coordination V)
      → completed_operation session operation c.completed_operations ≡ some run_id
      → completed_operation session operation (apply turn command c).1.completed_operations
        ≡ some run_id
  apply-completed turn command session operation run_id c e = elim (apply_cases turn command c) [
    | inl (found, again, same) ↦ rw same e
    | inr (inl (error, failed)) ↦ rw failed e
    | inr (inr (fresh, action, first, done)) ↦ rw done (
        pushed-completed command.parent_session_id session command.operation_id operation fresh
          run_id c.completed_operations first e)
  ]

  process_pending-completed :
      (commands : List (Turn × ManagedAgentDispatchCommand)) (session operation : String)
      (run_id : ManagedRunId) (c : Coordination V)
      → completed_operation session operation c.completed_operations ≡ some run_id
      → completed_operation session operation (process_pending commands c).1.completed_operations
        ≡ some run_id
  unfolding process_pending
  process_pending-completed [] session operation run_id c e = e
  process_pending-completed ((turn, command) ∷ rest) session operation run_id c e =
      process_pending-completed rest session operation run_id (apply turn command c).1
        (apply-completed turn command session operation run_id c e)

  apply_ok-completed :
      (turn : Turn) (command : ManagedAgentDispatchCommand) (run_id : ManagedRunId)
      (duplicate : Bool) (c : Coordination V)
      → (apply turn command c).0 ≡ ok (run_id, duplicate)
      → completed_operation command.parent_session_id command.operation_id
          (apply turn command c).1.completed_operations
        ≡ some run_id
  apply_ok-completed turn command run_id duplicate c e = elim (apply_cases turn command c) [
    | inl (found, again, same) ↦ rw same (ground (arith, ap (λ r. r.0) same))
    | inr (inl (error, failed)) ↦ ground (arith, ap (λ r. r.0) failed)
    | inr (inr (fresh, action, first, done)) ↦ rw done (
        ground (
          arith,
          ap (λ r. r.0) done,
          eq_refl command.parent_session_id,
          eq_refl command.operation_id,
        ))
  ]

  -- An operation that was answered with a run is not done again. Whatever commands come in between,
  -- the same session's command with the same id is answered with that run, as a duplicate, and
  -- changes nothing: neither the supervisor, nor the actions, nor the operations that are done.
  pub apply-again :
      (turn turn' : Turn) (command : ManagedAgentDispatchCommand)
      (between : List (Turn × ManagedAgentDispatchCommand)) (run_id : ManagedRunId)
      (duplicate : Bool) (c : Coordination V)
      → (apply turn command c).0 ≡ ok (run_id, duplicate)
      → let later = (process_pending between (apply turn command c).1).1 in
        apply turn' command later ≡ (ok (run_id, true), later)
  unfolding apply
  apply-again turn turn' command between run_id duplicate c e =
      let known =
        process_pending-completed between command.parent_session_id command.operation_id run_id
          (apply turn command c).1 (apply_ok-completed turn command run_id duplicate c e) in
      rw (apply, known) refl

  apply-IsNotedOnce :
      (turn : Turn) (command : ManagedAgentDispatchCommand) (c : Coordination V)
      → IsNotedOnce c.completed_operations
      → IsNotedOnce (apply turn command c).1.completed_operations
  apply-IsNotedOnce turn command c once = elim (apply_cases turn command c) [
    | inl (found, again, same) ↦ rw same once
    | inr (inl (error, failed)) ↦ rw failed once
    | inr (inr (fresh, action, first, done)) ↦ rw done (first, once)
  ]

  process_pending_notes_once :
      (commands : List (Turn × ManagedAgentDispatchCommand)) (c : Coordination V)
      → IsNotedOnce c.completed_operations
      → IsNotedOnce (process_pending commands c).1.completed_operations
  unfolding process_pending
  process_pending_notes_once [] c once = once
  process_pending_notes_once ((turn, command) ∷ rest) c once =
      process_pending_notes_once rest (apply turn command c).1
        (apply-IsNotedOnce turn command c once)

  process_pending_counts :
      (commands : List (Turn × ManagedAgentDispatchCommand)) (c : Coordination V)
      → let (answers, c') = process_pending commands c in
        (length c'.actions ≡ length c.actions + new_answers answers)
        × (length c'.completed_operations ≡ length c.completed_operations + new_answers answers)
        × (length answers ≡ length commands)
  unfolding process_pending
  process_pending_counts [] c = (omega arith, omega arith, refl)
  process_pending_counts ((turn, command) ∷ rest) c =
      let (acted, noted, answered) = process_pending_counts rest (apply turn command c).1 in
      elim (apply_cases turn command c) [
        | inl (found, again, same) ↦
            ground (arith, acted, noted, answered, ap (λ r. r.0) same, ap (λ r. r.1) same)
        | inr (inl (error, failed)) ↦
            ground (arith, acted, noted, answered, ap (λ r. r.0) failed, ap (λ r. r.1) failed)
        | inr (inr (fresh, action, first, done)) ↦ ground (
          arith,
          acted,
          noted,
          answered,
          ap (λ r. r.0) done,
          ap (λ r. r.1) done,
          length-append c.actions (action ∷ []),
        )
      ]

  -- However many commands come, repeated ones among them, no operation of a session is noted twice,
  -- if none was before. The actions that are put in the queue are as many as the operations that are
  -- noted, and as many as the answers that report a run and no duplicate. Every command is answered.
  pub process_pending-IsNotedOnce :
      (commands : List (Turn × ManagedAgentDispatchCommand)) (c : Coordination V)
      → IsNotedOnce c.completed_operations
      → let (answers, c') = process_pending commands c in
        IsNotedOnce c'.completed_operations
        × (length c'.actions ≡ length c.actions + new_answers answers)
        × (length c'.completed_operations ≡ length c.completed_operations + new_answers answers)
        × (length answers ≡ length commands)
  process_pending-IsNotedOnce commands c once =
      let (acted, noted, answered) = process_pending_counts commands c in
      (process_pending_notes_once commands c once, acted, noted, answered)

  -- A session cannot cancel another session's run: its command, if it is not the repetition of
  -- one that was done, is refused, and nothing changes.
  pub apply-cancels_other_session :
      (turn : Turn) (command : ManagedAgentDispatchCommand) (run_id : ManagedRunId)
      (reason : Option String) (entry : RuntimeEntry) (c : Coordination V)
      → command.operation ≡ cancels run_id reason
      → get run_id c.supervisor.runs ≡ some entry
      → entry.run.parent_session_id ≢ command.parent_session_id
      → completed_operation command.parent_session_id command.operation_id c.completed_operations
        ≡ none
      → apply turn command c ≡ (err (projection_rejected parent_session_mismatch), c)
  unfolding apply mutate project_run_for_parent
  apply-cancels_other_session turn command run_id reason entry c asked found foreign first =
      let other : str_eq entry.run.parent_session_id command.parent_session_id ≡ false =
        ground (arith, eq_iff entry.run.parent_session_id command.parent_session_id) in
      let refused : mutate turn command c.supervisor
          ≡ (err (projection_rejected parent_session_mismatch), c.supervisor) =
        rw (mutate, asked, ◌>>=◌, project_run_for_parent, found, other) refl in
      rw (apply, first, refused)
        (ap
          (λ r. (err (projection_rejected parent_session_mismatch), record c { supervisor = r.1 }))
          refused)
