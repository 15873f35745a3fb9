-- ===== src/ManagedAgent/Command.antt =====
-- The targeted commands of auspex-core/src/runtime_types.rs. A payload is a `serde_json::Value`,
-- whose type `V` is a parameter.
use auspex.Prelude.{ℕ, String, Option, none, some}

pub record CommandTarget : Type 0 where
  pub session_key : String
  pub dispatcher_instance_id : Option String

pub record CanonicalSlashCommand : Type 0 where
  pub name : String
  pub args : String
  pub raw_input : String

abbrev pub ManagedCommandId : Type 0
ManagedCommandId = ℕ

pub data OperatorCommand (V : Type 0) : Type 0 where
  prompt_submit : String → OperatorCommand V
  turn_cancel : OperatorCommand V
  canonical_slash : CanonicalSlashCommand → OperatorCommand V
  dispatcher_switch : String → String → Option String → OperatorCommand V
  control_method : ManagedCommandId → String → V → OperatorCommand V

pub record TargetedCommand (V : Type 0) : Type 0 where
  pub target : CommandTarget
  pub command : OperatorCommand V

module _ {V : Type 0} where
  -- `TargetedCommand::control_method`, with the fresh command id as its first argument.
  unfoldable pub control_command : ManagedCommandId → CommandTarget → String → V → TargetedCommand V
  control_command fresh target name payload = record {
    target = target;
    command = control_method fresh name payload;
  }

  command_id_of : OperatorCommand V → Option ManagedCommandId
  command_id_of (control_method command_id name payload) = some command_id
  command_id_of _ = none

  unfoldable pub managed_command_id : TargetedCommand V → Option ManagedCommandId
  unfolding command_id_of
  managed_command_id c = command_id_of c.command

  method_of : OperatorCommand V → Option String
  method_of (control_method command_id name payload) = some name
  method_of _ = none

  -- `TargetedCommand::method`
  unfoldable pub method : TargetedCommand V → Option String
  unfolding method_of
  method c = method_of c.command
