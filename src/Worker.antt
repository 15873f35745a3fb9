-- ===== src/Worker.antt =====
-- Workers: what a launch asks for and what is known of one that runs. The enums and records of
-- auspex-core/src/runtime_types.rs.
--
-- An `f64` (a cost in dollars) is only carried by the program, never computed with: it is given by
-- its 64 bits.
use auspex.Prelude.{ℕ, String, Bool, true, false, Option, List}
use auspex.Secrets.Grant.{SecretGrantPrincipal}

pub data WorkerRole : Type 0 where
  primary_driver supervised_child detached_service : WorkerRole

pub data OwnerKind : Type 0 where
  auspex_session daemon_owned external : OwnerKind

pub data WorkerLifecycleState : Type 0 where
  requested allocating starting ready busy degraded lost abandoned stopping exited reaped :
      WorkerLifecycleState

pub data BackendKind : Type 0 where
  local_process local_detached oci_container kubernetes : BackendKind

pub data ThinkingLevel : Type 0 where
  minimal low medium high : ThinkingLevel

pub data ToolPolicy : Type 0 where
  full restricted bounded : ToolPolicy

pub data MemoryMode : Type 0 where
  full minimal project_only reference_based : MemoryMode

pub data SecretMode : Type 0 where
  reference mounted inherited_env : SecretMode

-- `==` on the enums that the program compares.
abbrev pub role_eq : WorkerRole → WorkerRole → Bool
role_eq primary_driver primary_driver = true
role_eq supervised_child supervised_child = true
role_eq detached_service detached_service = true
role_eq _ _ = false

abbrev pub owner_kind_eq : OwnerKind → OwnerKind → Bool
owner_kind_eq auspex_session auspex_session = true
owner_kind_eq daemon_owned daemon_owned = true
owner_kind_eq external external = true
owner_kind_eq _ _ = false

abbrev pub Usd : Type 0
Usd = ℕ

pub record WorkspaceBinding : Type 0 where
  pub cwd : String
  pub workspace_id : String
  pub branch : Option String

pub record TaskBinding : Type 0 where
  pub task_id : String
  pub purpose : String
  pub spec_binding : Option String

pub record ResourceRequirements : Type 0 where
  pub cpu : Option String
  pub memory : Option String

pub record PolicyOverrides : Type 0 where
  pub provider : Option String
  pub model : Option String
  pub thinking_level : Option ThinkingLevel
  pub context_class : Option String
  pub tool_policy : Option ToolPolicy
  pub memory_mode : Option MemoryMode
  pub max_runtime_seconds : Option ℕ
  pub max_cost_usd : Option Usd

pub record WorkerSecurityBinding : Type 0 where
  pub principal : Option SecretGrantPrincipal
  pub secret_refs : List String
  pub grant_ids : List String
  pub seed_plan_ids : List String

pub record InstantiateOverrides : Type 0 where
  pub provider : Option String
  pub model : Option String
  pub thinking_level : Option ThinkingLevel
  pub max_runtime_seconds : Option ℕ
  pub max_cost_usd : Option Usd
  pub image : Option String
  pub namespace : Option String
  pub resources : Option ResourceRequirements
  pub tool_policy : Option ToolPolicy
  pub memory_mode : Option MemoryMode

pub record PropagatedTaskContext : Type 0 where
  pub task_id : String
  pub prompt : String
  pub design_refs : List String
  pub spec_refs : List String
  pub memory_refs : List String

pub record PropagatedAuth : Type 0 where
  pub provider_refs : List String
  pub secret_mode : SecretMode

pub record ResolvedPolicy : Type 0 where
  pub base_profile : String
  pub resolved_model : Option String
  pub thinking_level : ThinkingLevel
  pub tool_policy : ToolPolicy
  pub memory_mode : MemoryMode
  pub max_runtime_seconds : Option ℕ
  pub max_cost_usd : Option Usd

pub record WorkerPropagation : Type 0 where
  pub workspace : WorkspaceBinding
  pub task_context : Option PropagatedTaskContext
  pub auth : PropagatedAuth
  pub policy : ResolvedPolicy

pub record InstantiateRequest : Type 0 where
  pub schema_version : ℕ
  pub role : WorkerRole
  pub profile : String
  pub backend : BackendKind
  pub workspace : WorkspaceBinding
  pub parent_instance_id : Option String
  pub task : Option TaskBinding
  pub overrides : InstantiateOverrides
  pub security : WorkerSecurityBinding
  pub propagation : Option WorkerPropagation
