-- ===== src/ManagedAgent/Runtime/Replay.antt =====
-- Which commands are sent again, and how often.
use auspex.Prelude.{
  ℕ, ◌+◌, ◌-◌, ◌≤◌, ◌<◌, ◌≡◌, refl, Bool, ◌&&◌, List, [], ◌∷◌, arith, leb, if◌then◌else◌,
  Bool-cases, inl, inr, ◌∙◌, min,
}
use auspex.Prelude.Maps.{Map, filter_map_mut}
use auspex.ManagedAgent.Command.{TargetedCommand}
use auspex.ManagedAgent.Runtime.{Instant, PendingManagedCommand, is_unsettled, SupervisorRuntime}
use auspex.ManagedAgent.Runtime.Delivery.{replay_command, replay_due_commands, u32_max}

module _ {V : Type 0} where
  -- No answer has settled the command, and it was sent at least the timeout ago.
  abbrev pub is_due : Instant → ℕ → PendingManagedCommand V → Bool
  is_due now timeout p = is_unsettled p.state && leb timeout (now - p.last_sent_at)

  -- The commands of the entries that are due, in the order of their ids.
  abbrev pub due_commands : Instant → ℕ → Map (PendingManagedCommand V) → List (TargetedCommand V)
  due_commands now timeout [] = []
  due_commands now timeout ((c, p) ∷ m) =
      let rest = due_commands now timeout m in
      if is_due now timeout p then p.command ∷ rest else rest

  filter_map_mut-due :
      (now : Instant) (timeout : ℕ) (m : Map (PendingManagedCommand V))
      → (filter_map_mut (replay_command now timeout) m).0 ≡ due_commands now timeout m
  unfolding filter_map_mut replay_command
  filter_map_mut-due now timeout [] = refl
  filter_map_mut-due now timeout ((c, p) ∷ m) = ground (arith, filter_map_mut-due now timeout m)

  sent_again :
      (now : Instant) (timeout : ℕ) (m : Map (PendingManagedCommand V))
      → 0 < timeout
      → due_commands now timeout (filter_map_mut (replay_command now timeout) m).1 ≡ []
  unfolding filter_map_mut replay_command
  sent_again now timeout [] h = refl
  sent_again now timeout ((c, p) ∷ m) h = elim (Bool-cases (is_due now timeout p)) [
    | inl due ↦ ground (arith, sent_again now timeout m h)
    | inr early ↦ ground (arith, sent_again now timeout m h)
  ]

  -- With a timeout above zero, a replay sends the unsettled commands whose timeout has passed, in
  -- the order of their ids, and no other; a second replay at the same instant sends nothing.
  pub replay_due_commands_lem :
      (now : Instant) (timeout : ℕ) (s : SupervisorRuntime V)
      → 0 < timeout
      → ((replay_due_commands now timeout s).0 ≡ due_commands now timeout s.commands)
        × ((replay_due_commands now timeout (replay_due_commands now timeout s).1).0 ≡ [])
  unfolding replay_due_commands
  replay_due_commands_lem now timeout s h = (
    filter_map_mut-due now timeout s.commands,
    filter_map_mut-due now timeout _ ∙ sent_again now timeout s.commands h,
  )

  -- Attempts that fit a `u32` go on to fit one. They count up by one when the command is sent again,
  -- up to `u32::MAX`, and by none when it is not.
  pub replay_command_attempts :
      (now : Instant) (timeout : ℕ) (p : PendingManagedCommand V)
      → p.attempts ≤ u32_max
      → let after = (replay_command now timeout p).1 in
        (after.attempts ≤ u32_max)
        × (after.attempts
            ≡ (if is_due now timeout p then min (p.attempts + 1) u32_max else p.attempts))
  unfolding replay_command
  replay_command_attempts now timeout p h = ground arith
