-- ===== src/ManagedAgent/Scheduler/Scope.antt =====
-- What a tick leaves alone: the runs that are not on Omegon's control plane.
use auspex.Prelude.{
  ℕ, ◌*◌, ◌≡◌, refl, sym, subst, ◌∙◌, String, Bool, false, Option, some, List, [], ◌∷◌, Result,
  ◌>>=◌, arith, ◌==◌, retain, Option-cases, Bool-cases, Result-cases, inl, inr,
}
use auspex.Prelude.Maps.{get, contains, get-insert}
use auspex.ManagedAgent.Domain.{ManagedRunId}
use auspex.ManagedAgent.Command.{ManagedCommandId, TargetedCommand, managed_command_id}
use auspex.ManagedAgent.Serde.{Serde}
use auspex.ManagedAgent.Runtime.{
  Instant, ManagedCommandKind, SupervisorRuntime, SupervisorRuntimeError, with_entry, OnEntry,
}
use auspex.ManagedAgent.Runtime.Prepare.{
  cancel_entry, register_command, poll_command, cancel_command, second,
}
use auspex.ManagedAgent.Runtime.Polling.{polls_or_not}
use auspex.ManagedAgent.Runtime.Delivery.{replay_due_commands}
use auspex.ManagedAgent.Runtime.Sweep.{
  expire_entry, expire_dispatches_for, active_run_ids, is_omegon_control_run, expired_runs_at,
}
use auspex.ManagedAgent.Scheduler.{
  Scheduler, TickInputs, dispatch_to_instance, resend_command, resend, schedule_run, schedule_runs,
  tick_managed_agents, is_waiting, deliver,
}

contains-retain :
    (p : ℕ → Bool) (j : ℕ) (xs : List ℕ) → p j ≡ false → contains j (retain p xs) ≡ false
contains-retain p j [] h = refl
contains-retain p j (x ∷ xs) h = elim (Bool-cases (x == j)) [
  | inl same ↦
      let here : x ≡ j = ground arith in
      let out : p x ≡ false = cc in ground (arith, out, contains-retain p j xs h)
  | inr other ↦ ground (arith, contains-retain p j xs h)
]

module _ {V : Type 0} where
  -- The run is as it was, and no command leads to it that did not before.
  pub record Same (j : ManagedRunId) (s s' : SupervisorRuntime V) : Type 0 where
    pub entry : get j s'.runs ≡ get j s.runs
    pub commands :
        (x : ManagedCommandId) → get x s'.command_runs ≡ some j → get x s.command_runs ≡ some j

  Same-refl : (j : ManagedRunId) (s : SupervisorRuntime V) → Same j s s
  Same-refl j s = record { entry = refl; commands = λ x h. h }

  Same-trans :
      (j : ManagedRunId) (a b c : SupervisorRuntime V) → Same j a b → Same j b c → Same j a c
  Same-trans j a b c f g = record {
    entry = g.entry ∙ f.entry;
    commands = λ x h. f.commands x (g.commands x h);
  }

  with_entry-Same :
      {A : Type 0} (k j : ManagedRunId) (body : OnEntry A) (s : SupervisorRuntime V)
      → (k == j) ≡ false
      → Same j s (with_entry k body s).1
  unfolding with_entry
  with_entry-Same k j body s other = elim (Option-cases (get k s.runs)) [
    | inl missing ↦ rw (with_entry, missing) (Same-refl j s)
    | inr (entry, found) ↦
        rw (with_entry, found)
          (record {
            entry = ground (arith, get-insert k j (body entry).1 s.runs);
            commands = λ x h. h;
          })
  ]

  register_command-Same :
      (now : Instant) (k j : ManagedRunId) (kind : ManagedCommandKind) (command : TargetedCommand V)
      (s : SupervisorRuntime V)
      → (k == j) ≡ false
      → Same j s (register_command now k kind command s).1
  unfolding register_command
  register_command-Same now k j kind command s other =
      elim (Option-cases (managed_command_id command)) [
        | inl unnamed ↦ rw (register_command, ◌>>=◌, unnamed) (Same-refl j s)
        | inr (c, named) ↦ elim (Option-cases (get k s.runs)) [
          | inl missing ↦ rw (register_command, ◌>>=◌, named, missing) (Same-refl j s)
          | inr (entry, found) ↦
              rw (register_command, ◌>>=◌, named, found)
                (record {
                  entry = refl;
                  commands = λ x h. ground (arith, get-insert c x k s.command_runs);
                })
        ]
      ]

  -- A timeout of the dispatches in a list that has only runs on the control plane.
  expire_dispatches_for-Same :
      (now : Instant) (timeout : ℕ) (ids : List ManagedRunId) (j : ManagedRunId)
      (s : SupervisorRuntime V)
      → contains j ids ≡ false
      → Same j s (expire_dispatches_for now timeout ids s).1
  unfolding expire_dispatches_for
  expire_dispatches_for-Same now timeout [] j s h = Same-refl j s
  expire_dispatches_for-Same now timeout (k ∷ ids) j s h = elim (Option-cases (get k s.runs)) [
    | inl missing ↦
        rw (expire_dispatches_for, missing)
          (expire_dispatches_for-Same now timeout ids j s (ground arith))
    | inr (entry, found) ↦
        rw (expire_dispatches_for, found)
          (Same-trans j s _ _
            (record {
              entry = ground (arith, get-insert k j (expire_entry now timeout entry).1 s.runs);
              commands = λ x h. h;
            })
            (expire_dispatches_for-Same now timeout ids j _ (ground arith)))
  ]

  replay_due_commands-Same :
      (now : Instant) (after : ℕ) (j : ManagedRunId) (s : SupervisorRuntime V)
      → Same j s (replay_due_commands now after s).1
  unfolding replay_due_commands
  replay_due_commands-Same now after j s = record { entry = refl; commands = λ x h. h }

  resend_command-supervisor :
      (is_connected : String → Bool) (command : TargetedCommand V) (c : Scheduler V)
      → (resend_command is_connected command c).1.supervisor ≡ c.supervisor
  unfolding resend_command dispatch_to_instance
  resend_command-supervisor is_connected command c = grind arith

  resend-supervisor :
      (is_connected : String → Bool) (commands : List (TargetedCommand V)) (c : Scheduler V)
      → (resend is_connected commands c).1.supervisor ≡ c.supervisor
  unfolding resend
  resend-supervisor is_connected [] c = refl
  resend-supervisor is_connected (command ∷ rest) c =
      resend-supervisor is_connected rest (resend_command is_connected command c).1
      ∙ resend_command-supervisor is_connected command c

  -- The run is on the MQTT bearer, or there is no such run.
  abbrev IsElsewhere : ManagedRunId → SupervisorRuntime V → Type 0
  IsElsewhere j s = is_omegon_control_run j s ≡ false

  Same-IsElsewhere :
      (j : ManagedRunId) (s s' : SupervisorRuntime V)
      → Same j s s'
      → IsElsewhere j s
      → IsElsewhere j s'
  unfolding is_omegon_control_run
  Same-IsElsewhere j s s' same h = rw (is_omegon_control_run, same.entry) h

module _ (serde : Serde) where
  open serde use {Value}

  cancel_command-Same :
      (fresh : ManagedCommandId) (at : Instant) (k j : ManagedRunId) (reason : Option String)
      (s : SupervisorRuntime Value)
      → (k == j) ≡ false
      → Same j s (cancel_command serde fresh at k reason s).1
  unfolding cancel_command
  cancel_command-Same fresh at k j reason s other =
      let written = with_entry k (cancel_entry serde fresh k reason) s in
      let first = with_entry-Same k j (cancel_entry serde fresh k reason) s other in
      elim (Result-cases written.0) [
        | inl (command, sent) ↦
            rw (cancel_command, ◌>>=◌, sent)
              (Same-trans j s _ _ first
                (register_command-Same at k j ManagedCommandKind.cancel command written.1 other))
        | inr (error, failed) ↦ rw (cancel_command, ◌>>=◌, failed) first
      ]

  poll_command-Same :
      (fresh : ManagedCommandId) (at : Instant) (k j : ManagedRunId) (s : SupervisorRuntime Value)
      → (k == j) ≡ false
      → Same j s (poll_command serde fresh at k s).1
  poll_command-Same fresh at k j s other = elim (polls_or_not serde fresh at k s) [
    | inl (e, refused) ↦ rw refused (Same-refl j s)
    | inr (command, done, waits) ↦
        rw done (register_command-Same at k j ManagedCommandKind.poll command s other)
  ]

  module _ (is_connected : String → Bool) where
    deliver-supervisor :
        (k : ManagedRunId) (instance_id : String)
        (r : Result SupervisorRuntimeError (TargetedCommand Value)) (c : Scheduler Value)
        → (deliver serde is_connected k instance_id r c).1.supervisor ≡ c.supervisor
    unfolding dispatch_to_instance
    deliver-supervisor k instance_id r c = grind arith

    -- The answer about another run, and what the instance is sent, leave the run alone.
    deliver-Same :
        (k j : ManagedRunId) (instance_id : String)
        (r : Result SupervisorRuntimeError (TargetedCommand Value)) (s : SupervisorRuntime Value)
        (c : Scheduler Value)
        → Same j s c.supervisor
        → Same j s (deliver serde is_connected k instance_id r c).1.supervisor
    deliver-Same k j instance_id r s c h =
        subst (Same j s) (sym (deliver-supervisor k instance_id r c)) h

    schedule_run-Same :
        (inputs : TickInputs) (expired : List ManagedRunId) (k j : ManagedRunId)
        (c : Scheduler Value)
        → IsElsewhere j c.supervisor
        → Same j c.supervisor (schedule_run serde is_connected inputs expired k c).1.supervisor
    unfolding schedule_run
    schedule_run-Same inputs expired k j c h =
        let s = c.supervisor in
        elim (Bool-cases (is_omegon_control_run k s)) [
          | inr elsewhere ↦ rw (schedule_run, elsewhere) (Same-refl j s)
          | inl control ↦
              let other : (k == j) ≡ false = ground (arith) in
              elim (Option-cases (get k s.runs)) [
                | inl missing ↦ rw (schedule_run, control, missing) (Same-refl j s)
                | inr (entry, found) ↦ elim (Bool-cases (is_waiting entry.run.state)) [
                  | inl waits ↦ rw (schedule_run, control, found, waits) (Same-refl j s)
                  | inr free ↦ elim (Option-cases (get k c.managed_agent_instances)) [
                    | inl unplaced ↦
                        rw (schedule_run, control, found, free, unplaced) (Same-refl j s)
                    | inr (instance_id, placed) ↦ elim (Bool-cases (contains k expired)) [
                      | inl due ↦
                          rw (schedule_run, control, found, free, placed, due)
                            (deliver-Same k j instance_id _ s _ (
                              cancel_command-Same (inputs.fresh k) (inputs.sent_at k) k j _ s
                                other))
                      | inr early ↦
                          rw (schedule_run, control, found, free, placed, early)
                            (deliver-Same k j instance_id _ s _
                              (poll_command-Same (inputs.fresh k) (inputs.sent_at k) k j s other))
                    ]
                  ]
                ]
              ]
        ]

    schedule_runs-Same :
        (inputs : TickInputs) (expired ids : List ManagedRunId) (j : ManagedRunId)
        (c : Scheduler Value)
        → IsElsewhere j c.supervisor
        → Same j c.supervisor (schedule_runs serde is_connected inputs expired ids c).1.supervisor
    unfolding schedule_runs
    schedule_runs-Same inputs expired [] j c h = Same-refl j c.supervisor
    schedule_runs-Same inputs expired (k ∷ ids) j c h =
        let c' = (schedule_run serde is_connected inputs expired k c).1 in
        let first = schedule_run-Same inputs expired k j c h in
        Same-trans j c.supervisor c'.supervisor _ first (
          schedule_runs-Same inputs expired ids j c'
            (Same-IsElsewhere j c.supervisor c'.supervisor first h))

    -- A tick leaves every run that is not on Omegon's control plane alone. The run and all that is
    -- kept of it are as they were, so no dispatch of it times out; and no command leads to it that
    -- did not before, so it is neither polled nor cancelled, also when its deadline has come. This
    -- supposes that the hash set gives back the ids that were put into it, in whatever order.
    pub tick_managed_agents-Same :
        (inputs : TickInputs) (j : ManagedRunId) (c : Scheduler Value)
        → ((ids : List ManagedRunId) → contains j (inputs.set_order ids) ≡ contains j ids)
        → is_omegon_control_run j c.supervisor ≡ false
        → Same j c.supervisor (tick_managed_agents serde is_connected inputs c).1.supervisor
    unfolding tick_managed_agents
    tick_managed_agents-Same inputs j c order h =
        let is_control = λ (run_id : ManagedRunId). is_omegon_control_run run_id c.supervisor in
        let ids = inputs.set_order (retain is_control (active_run_ids c.supervisor)) in
        let expiring = (expire_dispatches_for inputs.expiry_now (15 * second) ids c.supervisor).1 in
        let expires : Same j c.supervisor expiring =
          expire_dispatches_for-Same inputs.expiry_now (15 * second) ids j c.supervisor (
            order (retain is_control (active_run_ids c.supervisor))
            ∙ contains-retain is_control j (active_run_ids c.supervisor) h) in
        let scheduled =
          (schedule_runs serde is_connected inputs (expired_runs_at inputs.deadline_now expiring)
            (active_run_ids expiring) (record c { supervisor = expiring })).1 in
        let replay = replay_due_commands inputs.replay_now (3 * second) scheduled.supervisor in
        subst (Same j c.supervisor)
          (sym
            (resend-supervisor is_connected replay.0 (record scheduled { supervisor = replay.1 })))
          (Same-trans j c.supervisor scheduled.supervisor replay.1
            (Same-trans j c.supervisor expiring scheduled.supervisor expires (
              schedule_runs-Same inputs (expired_runs_at inputs.deadline_now expiring)
                (active_run_ids expiring) j (record c { supervisor = expiring })
                (Same-IsElsewhere j c.supervisor expiring expires h)))
            (replay_due_commands-Same inputs.replay_now (3 * second) j scheduled.supervisor))
