-- ===== src/Instances/Record.antt =====
-- The record of an instance: auspex-core/src/runtime_types.rs. `V` is the type of
-- `serde_json::Value`, which an operational profile carries.
use auspex.Prelude.{
  ℕ, String, Bool, ◌||◌, Option, str_eq, map_chars, to_ascii_lowercase, ◌==◌, if◌then◌else◌,
}
use Prim.Native.Char.{Char, code}
use auspex.Worker.{
  BackendKind, OwnerKind, PolicyOverrides, ResourceRequirements, TaskBinding, WorkerLifecycleState,
  WorkerRole, WorkerSecurityBinding, WorkspaceBinding, primary_driver, supervised_child,
  detached_service,
}
use auspex.Instances.Capability.{InstanceCapabilitySnapshot}
use auspex.Instances.Compatibility.{CompatibilityAssessment, ObservedControlPlane}
use auspex.Instances.Profile.{OperationalProfile}

pub record WorkerIdentity : Type 0 where
  pub instance_id : String
  pub role : WorkerRole
  pub profile : String
  pub raw_role : Option String
  pub raw_profile : Option String
  pub raw_runtime_profile : Option String
  pub status : WorkerLifecycleState
  pub created_at : String
  pub updated_at : String

pub record WorkerOwnership : Type 0 where
  pub owner_kind : OwnerKind
  pub owner_id : String
  pub parent_instance_id : Option String

pub record BackendConfig : Type 0 where
  pub kind : BackendKind
  pub image : Option String
  pub namespace : Option String
  pub resources : Option ResourceRequirements

pub record DesiredWorkerState : Type 0 where
  pub backend : BackendConfig
  pub workspace : WorkspaceBinding
  pub task : Option TaskBinding
  pub policy : PolicyOverrides
  pub security : WorkerSecurityBinding

pub record ObservedPlacement : Type 0 where
  pub placement_id : String
  pub host : String
  pub pid : Option ℕ
  pub namespace : Option String
  pub pod_name : Option String
  pub container_name : Option String

pub data InstanceFreshness : Type 0 where
  fresh stale lost abandoned reaped : InstanceFreshness

pub record ObservedHealth : Type 0 where
  pub ready : Bool
  pub degraded_reason : Option String
  pub last_heartbeat_at : Option String
  pub last_seen_at : Option String
  pub freshness : Option InstanceFreshness

-- An exit code is an `i32`; it is only carried, and given by its 32 bits.
pub record ObservedExit : Type 0 where
  pub exited : Bool
  pub exit_code : Option ℕ
  pub exit_reason : Option String
  pub exited_at : Option String

pub record ObservedWorkerState (V : Type 0) : Type 0 where
  pub placement : ObservedPlacement
  pub control_plane : ObservedControlPlane
  pub health : ObservedHealth
  pub exit : ObservedExit
  pub compatibility : Option CompatibilityAssessment
  pub operational_profile : Option (OperationalProfile V)
  pub capabilities : Option InstanceCapabilitySnapshot

pub record InstanceRecord (V : Type 0) : Type 0 where
  pub schema_version : ℕ
  pub identity : WorkerIdentity
  pub ownership : WorkerOwnership
  pub desired : DesiredWorkerState
  pub observed : ObservedWorkerState V

abbrev dash_for_underscore : Char → Char
dash_for_underscore c = if code c == 95 then Char.char 45 tt else c

canonical_role : String → String
canonical_role role = map_chars to_ascii_lowercase (map_chars dash_for_underscore role)

role_of : String → WorkerRole
role_of role =
    if str_eq role "primary-driver" || str_eq role "primary" || str_eq role "driver"
    then primary_driver
    else if str_eq role "supervised-child"
        || str_eq role "delegate"
        || str_eq role "worker"
        || str_eq role "embedded-backend"
    then supervised_child
    else if str_eq role "detached-service"
        || str_eq role "remote-agent"
        || str_eq role "service"
        || str_eq role "host"
        || str_eq role "control-plane"
    then detached_service
    else primary_driver

-- `WorkerRole::from_descriptor_role`
unfoldable pub from_descriptor_role : String → WorkerRole
unfolding canonical_role role_of map_chars to_ascii_lowercase
from_descriptor_role role = role_of (canonical_role role)

-- `WorkerRole::label`
unfoldable pub role_label : WorkerRole → String
role_label primary_driver = "primary-driver"
role_label supervised_child = "supervised-child"
role_label detached_service = "detached-service"
