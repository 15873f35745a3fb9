-- ===== src/Examples/Fixtures.antt =====
-- A worker with two runs, their supervisor, and a decoder of messages.
use auspex.Prelude.{String, true, false, none, some, [], ◌∷◌, ok, err, refl, arith}
use auspex.ManagedAgent.Domain.{
  ManagedRunRequest, scout, ManagedRunState, OmegonDelegateObservation, OmegonDelegateStatus,
  dispatch_requested,
}
use auspex.ManagedAgent.Run.{ManagedAgentRun}
use auspex.ManagedAgent.Run.Invariant.{IsConsistent}
use auspex.ManagedAgent.Command.{CommandTarget, control_method}
use auspex.ManagedAgent.Serde.{Serde}
use auspex.ManagedAgent.Contract.{
  ManagedAgentCommandAck, ManagedAgentCommandAckStatus, ControlCommandReceipt,
  ControlCommandReceiptStatus,
}
use auspex.ManagedAgent.Runtime.{
  PendingManagedCommand, ManagedCommandKind, ManagedCommandDeliveryState, RuntimeEntry,
  SupervisorRuntime, omegon_control, styrene_a2a,
}
use auspex.ManagedAgent.Runtime.Prepare.{Clock}

abbrev pub request : ManagedRunRequest
request = record {
  directive = "survey the parser";
  worker_profile = scout;
  scope = "src" ∷ [];
  model = none;
  thinking_level = none;
  supervisor_deadline_seconds = 600;
}

-- A run that waits for its dispatch to be accepted.
abbrev pub waiting_run : ManagedAgentRun
waiting_run = record {
  run_id = 7;
  worker_id = 40;
  parent_session_id = "session";
  parent_turn_id = "turn";
  request = request;
  omegon_task_id = none;
  state = ManagedRunState.dispatching;
  latest_observation = none;
}

abbrev pub running_run : ManagedAgentRun
running_run = record waiting_run { omegon_task_id = some "task"; state = ManagedRunState.running }

-- A run that was cancelled, as its worker confirmed.
abbrev pub cancelled_run : ManagedAgentRun
cancelled_run = record waiting_run {
  omegon_task_id = some "task";
  state = ManagedRunState.cancelled (some "no longer needed") true;
}

abbrev pub seen_running : OmegonDelegateObservation
seen_running = record {
  task_id = "task";
  label = none;
  agent_name = none;
  task_description = "survey";
  status = OmegonDelegateStatus.running;
  result = none;
  result_viewed = false;
  started_at_unix_ms = 1000;
  completed_at_unix_ms = none;
  last_tool = none;
  last_turn = some 2;
  checklist = [];
  route = none;
}

abbrev pub target : CommandTarget
target = record { session_key = "session"; dispatcher_instance_id = none }

abbrev pub entry_of : ManagedAgentRun → RuntimeEntry
entry_of run = record {
  run = run;
  transport = omegon_control "" target;
  dispatched_at_unix_ms = 5;
  dispatched_at = 100;
  deadline_at = 900;
  events = dispatch_requested 7 40 ∷ [];
}

abbrev pub a2a_entry_of : ManagedAgentRun → RuntimeEntry
a2a_entry_of run = record (entry_of run) { transport = styrene_a2a "worker" }

-- JSON values are texts here, and each decoder that is not used fails.
abbrev pub texts : Serde
texts = record {
  Value = String;
  parse = λ raw. ok raw;
  parse_receipt = λ json. err json;
  parse_ack = λ json. err json;
  member = λ value key. none;
  as_str = λ value. some value;
  is_null = λ value. false;
  read_run_id = λ value. err value;
  read_rejection = λ value. err value;
  read_dispatch = λ value. err value;
  read_observation = λ value. err value;
  read_cancel = λ value. err value;
  read_result = λ value. err value;
  write_dispatch = λ r. ok "dispatch";
  write_task = λ r. ok "task";
  write_cancel = λ r. ok "cancel";
}

abbrev pub poll_of_7 : PendingManagedCommand String
poll_of_7 = record {
  command = record { target = target; command = control_method 70 "delegate_get" "task" };
  kind = ManagedCommandKind.poll;
  run_id = 7;
  worker_id = 40;
  task_id = some "task";
  state = ManagedCommandDeliveryState.pending;
  attempts = 1;
  last_sent_at = 200;
}

abbrev pub supervisor_of : RuntimeEntry → SupervisorRuntime String
supervisor_of entry = record {
  runs = (7, entry) ∷ [];
  commands = [];
  command_runs = [];
  max_result_bytes = 1024;
}

-- The supervisor of one run, with one command that waits for its answer.
abbrev pub polling : ManagedCommandDeliveryState → SupervisorRuntime String
polling state = record (supervisor_of (entry_of running_run)) {
  commands = (70, record poll_of_7 { state = state }) ∷ [];
  command_runs = (70, 7) ∷ [];
}

abbrev pub ack_of_70 : ManagedAgentCommandAck
ack_of_70 = record {
  schema_version = 1;
  command_id = 70;
  method = "delegate_get";
  managed_run_id = 7;
  worker_id = 40;
  task_id = some "task";
  status = ManagedAgentCommandAckStatus.rejected;
  rejection = some (record { code = "overloaded"; safe_message = "later"; retryable = true });
  accepted_at_unix_ms = 9;
}

abbrev pub receipt_of_70 : ControlCommandReceipt
receipt_of_70 = record {
  schema_version = 1;
  command_id = 70;
  receipt_status = ControlCommandReceiptStatus.accepted;
  received_at_unix_ms = 9;
  rejection = none;
}

abbrev pub clock : Clock
clock = record { now = 1000; last = 2000000000000 }

pub waiting_run-IsConsistent : IsConsistent waiting_run
waiting_run-IsConsistent = record {
  dispatching = λ e. refl;
  timed_out = λ e. refl;
  observed = λ o e. ground arith;
  disconnected = λ o e. ground arith;
}

pub running_run-IsConsistent : IsConsistent running_run
running_run-IsConsistent = record {
  dispatching = λ e. ground arith;
  timed_out = λ e. ground arith;
  observed = λ o e. ground arith;
  disconnected = λ o e. ground arith;
}
