-- ===== src/Examples/Bearers.antt =====
-- The theorems on the coordinator, the scheduler and the MQTT bearer, at concrete inputs.
use auspex.Prelude.{
  List, length, ℕ, ◌+◌, ◌≡◌, String, refl, trim, true, false, none, some, [], ◌∷◌, ok,
}
use auspex.Prelude.Maps.{get}
use auspex.ManagedAgent.Domain.{scout, new_request}
use auspex.ManagedAgent.Run.{new_run}
use auspex.ManagedAgent.Outcome.{
  ManagedRunA2aRequest, ManagedRunA2aCancel, ManagedRunA2aOutcome, ManagedRunA2aOutcomePayload,
  ManagedAgentA2aEvent, event_run_id,
}
use auspex.ManagedAgent.Runtime.{new_runtime}
use auspex.ManagedAgent.Runtime.Sweep.{is_omegon_control_run}
use auspex.ManagedAgent.Coordinator.{
  ManagedAgentDispatchCommand, Turn, Coordination, dispatches, cancels, mutate, apply,
  process_pending,
}
use auspex.ManagedAgent.Coordinator.Idempotence.{
  IsNotedOnce, apply-again, new_answers, process_pending-IsNotedOnce,
}
use auspex.ManagedAgent.Scheduler.{Scheduler, TickInputs, tick_managed_agents}
use auspex.ManagedAgent.Scheduler.Scope.{Same, tick_managed_agents-Same}
use auspex.ManagedAgent.Mqtt.{
  A2aCrates, ManagedAgentMqttBridge, managed_run_outcome_schema, event_of, decode_event,
}
use auspex.ManagedAgent.Mqtt.Traffic.{decode_event_sound}
use auspex.Examples.Fixtures.{request, running_run, a2a_entry_of, texts, supervisor_of, clock}

abbrev turn_of : ℕ → Turn
turn_of fresh = record { fresh_run = fresh; fresh_worker = 40; clock = clock; now_unix_ms = 5 }

abbrev dispatch_command : ManagedAgentDispatchCommand
dispatch_command = record {
  operation_id = "dispatch-1";
  parent_session_id = "session";
  operation = dispatches "survey the parser" scout ("src" ∷ []) 600;
}

abbrev foreign_cancel : ManagedAgentDispatchCommand
foreign_cancel = record {
  operation_id = "cancel-1";
  parent_session_id = "other";
  operation = cancels 7 none;
}

abbrev new_coordination : Coordination String
new_coordination = record {
  supervisor = new_runtime String 1024;
  actions = [];
  completed_operations = [];
}

apply-again_example :
    let later =
      (process_pending
        ((turn_of 8, foreign_cancel) ∷ [])
        (apply (turn_of 7) dispatch_command new_coordination).1).1 in
    apply (turn_of 9) dispatch_command later ≡ (ok (7, true), later)
unfolding apply mutate new_request new_run trim new_runtime get
apply-again_example =
    apply-again (turn_of 7) (turn_of 9) dispatch_command ((turn_of 8, foreign_cancel) ∷ []) 7 false
      new_coordination refl

abbrev repeated : List (Turn × ManagedAgentDispatchCommand)
repeated =
    (turn_of 7, dispatch_command) ∷ (turn_of 8, foreign_cancel) ∷ (turn_of 9, dispatch_command) ∷ []

process_pending-IsNotedOnce_example :
    let (answers, c) = process_pending repeated new_coordination in
    IsNotedOnce c.completed_operations
    × (length c.actions ≡ 0 + new_answers answers)
    × (length c.completed_operations ≡ 0 + new_answers answers)
    × (length answers ≡ 3)
process_pending-IsNotedOnce_example = process_pending-IsNotedOnce repeated new_coordination tt

abbrev inputs : TickInputs
inputs = record {
  expiry_now = 50000000000;
  deadline_now = 50000000000;
  replay_now = 50000000000;
  sent_at = λ run_id. 50000000000;
  fresh = λ run_id. run_id + 100;
  set_order = λ ids. ids;
}

abbrev scheduler : Scheduler String
scheduler = record {
  supervisor = supervisor_of (a2a_entry_of running_run);
  managed_agent_instances = [];
  sent = [];
}

tick_managed_agents-Same_example :
    Same 7 scheduler.supervisor
      (tick_managed_agents texts (λ instance_id. true) inputs scheduler).1.supervisor
unfolding is_omegon_control_run get
tick_managed_agents-Same_example =
    tick_managed_agents-Same texts (λ instance_id. true) inputs 7 scheduler (λ ids. refl) refl

-- Envelopes are here the texts of their tasks, all for the agent "local".
abbrev crates : A2aCrates
crates = record {
  Envelope = String;
  Bytes = String;
  RootOperationId = String;
  target_agent_id = λ e. "local";
  payload_schema = λ e. managed_run_outcome_schema;
  task_id = λ e. some e;
  a2a_payload = λ e. e;
  message_id = λ e. 1 ∷ [];
  new_root = λ root. ok root;
  new_command = λ root task_id sequence now_ms schema payload. task_id;
  set_parent_task_id = λ task_id e. e;
  set_expires_at_ms = λ expires e. e;
  write_request = λ command. ok "request";
  write_cancel = λ cancellation. ok "cancel";
  read_outcome =
      λ payload. ok (record { managed_run_id = 7; outcome = ManagedRunA2aOutcome.accepted });
  run_id_text = λ run_id. "run";
}

abbrev bridge : ManagedAgentMqttBridge
bridge = record { local_agent_id = "local"; next_sequence = 1 }

decode_event_sound_example :
    let event = ManagedAgentA2aEvent.accepted 7 "run" (1 ∷ []) in
    ("local" ≡ bridge.local_agent_id)
    × (managed_run_outcome_schema ≡ managed_run_outcome_schema)
    × (some "run" ≡ some (crates.run_id_text (event_run_id event)))
    × ((payload : ManagedRunA2aOutcomePayload) × (crates.read_outcome "run" ≡ ok payload)
        × (event_run_id event ≡ payload.managed_run_id))
unfolding decode_event event_of
decode_event_sound_example =
    decode_event_sound crates bridge "run" (ManagedAgentA2aEvent.accepted 7 "run" (1 ∷ [])) refl

abbrev command : ManagedRunA2aRequest
command = record {
  managed_run_id = 7;
  worker_id = 40;
  parent_session_id = "session";
  parent_turn_id = "turn";
  request = request;
}

abbrev cancellation : ManagedRunA2aCancel
cancellation = record { managed_run_id = 7; worker_id = 40; reason = none }
