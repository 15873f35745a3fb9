-- ===== src/Instances/Profile.antt =====
-- Operational profiles, as an instance declares them: auspex-core/src/operational_profile.rs.
-- `V` is the type of `serde_json::Value`.
use auspex.Prelude.{
  ℕ, String, Bool, true, false, Option, none, some, List, [], str_eq, is_empty, ◌%◌, ◌^◌,
  if◌then◌else◌,
}
use mathlib.Core.Option

pub data OperationalScope : Type 0 where
  project fleet host cluster : OperationalScope

pub data UnknownHostActionPolicy : Type 0 where
  deny unsupported : UnknownHostActionPolicy

pub data CapabilityDiscoveryPolicy : Type 0 where
  read_only : CapabilityDiscoveryPolicy

pub data CrossProjectStatePolicy : Type 0 where
  explicit_grant_only forbidden allowed : CrossProjectStatePolicy

pub record OperationalCapabilities : Type 0 where
  pub instance_registry : Bool
  pub dispatch : Bool
  pub supervision : Bool
  pub host_actions : Bool
  pub package_reconciliation : Bool
  pub audit : Bool
  pub fleet_projection : Bool
  pub evidence_read_model : Bool
  pub project_rules : Bool
  pub nex_substrate : Bool
  pub tdd_savepoint : Bool

pub record OperationalPolicy : Type 0 where
  pub host_action_mutation_requires_approval : Bool
  pub unknown_host_actions : UnknownHostActionPolicy
  pub capability_discovery : CapabilityDiscoveryPolicy
  pub dispatch_requires_compatible_instance : Bool
  pub cross_project_state : CrossProjectStatePolicy

-- `meta` is a `BTreeMap`, here its entries.
pub record OperationalProfile (V : Type 0) : Type 0 where
  pub name : String
  pub version : String
  pub scope : OperationalScope
  pub recommended_profile : String
  pub required_profile : String
  pub capability_contract_version : ℕ
  pub capabilities : OperationalCapabilities
  pub policy : OperationalPolicy
  pub meta : List (String × V)

-- `OperationalPolicy::default_orchestrator`
abbrev pub default_orchestrator : OperationalPolicy
default_orchestrator = record {
  host_action_mutation_requires_approval = true;
  unknown_host_actions = deny;
  capability_discovery = read_only;
  dispatch_requires_compatible_instance = true;
  cross_project_state = explicit_grant_only;
}

-- `OperationalCapabilities::default`
abbrev pub default_capabilities : OperationalCapabilities
default_capabilities = record {
  instance_registry = false;
  dispatch = false;
  supervision = false;
  host_actions = false;
  package_reconciliation = false;
  audit = false;
  fleet_projection = false;
  evidence_read_model = false;
  project_rules = false;
  nex_substrate = false;
  tdd_savepoint = false;
}

-- `OperationalCapabilities::orchestrator`
abbrev pub orchestrator : OperationalCapabilities
orchestrator = record {
  instance_registry = true;
  dispatch = true;
  supervision = true;
  host_actions = true;
  package_reconciliation = true;
  audit = true;
  fleet_projection = true;
  evidence_read_model = true;
  project_rules = true;
  nex_substrate = true;
  tdd_savepoint = true;
}

unfoldable pub scope_from_str : String → Option OperationalScope
scope_from_str value =
    if str_eq value "project"
    then some project
    else if str_eq value "fleet"
    then some fleet
    else if str_eq value "host"
    then some host
    else if str_eq value "cluster"
    then some cluster
    else none

unfoldable pub unknown_host_actions_from_str : String → Option UnknownHostActionPolicy
unknown_host_actions_from_str value =
    if str_eq value "deny"
    then some deny
    else if str_eq value "unsupported"
    then some unsupported
    else none

unfoldable pub capability_discovery_from_str : String → Option CapabilityDiscoveryPolicy
capability_discovery_from_str value = if str_eq value "read_only" then some read_only else none

unfoldable pub cross_project_state_from_str : String → Option CrossProjectStatePolicy
cross_project_state_from_str value =
    if str_eq value "explicit_grant_only"
    then some explicit_grant_only
    else if str_eq value "forbidden"
    then some forbidden
    else if str_eq value "allowed"
    then some allowed
    else none

-- What is read of a `serde_json::Value`: a member, a member by a JSON pointer, and the value as a
-- text, a number or a truth value.
pub record Json : Type 1 where
  pub Value : Type 0
  pub member : Value → String → Option Value
  pub pointer : Value → String → Option Value
  pub as_str : Value → Option String
  pub as_u64 : Value → Option ℕ
  pub as_bool : Value → Option Bool

abbrev and_then {ℓ κ} : {A : Type ℓ} {B : Type κ} → Option A → (A → Option B) → Option B
and_then none f = none
and_then (some a) f = f a

abbrev get_or {ℓ} : {A : Type ℓ} → Option A → A → A
get_or none b = b
get_or (some a) b = a

-- `Option::or_else`
abbrev or_else {ℓ} : {A : Type ℓ} → Option A → Option A → Option A
or_else none b = b
or_else (some a) b = some a

abbrev filter_empty : Option String → Option String
filter_empty none = none
filter_empty (some s) = if is_empty s then none else some s

module _ (json : Json) where
  open json use {Value, member, pointer, as_str, as_u64, as_bool}

  unfoldable pub string_field : Value → String → Option String
  string_field value field = filter_empty (and_then (member value field) as_str)

  unfoldable pub bool_field : Value → String → Bool
  bool_field value field = get_or (and_then (member value field) as_bool) false

  unfoldable pub capabilities_from_metadata : Option Value → OperationalCapabilities
  unfolding bool_field
  capabilities_from_metadata none = default_capabilities
  capabilities_from_metadata (some value) = record {
    instance_registry = bool_field value "instance_registry";
    dispatch = bool_field value "dispatch";
    supervision = bool_field value "supervision";
    host_actions = bool_field value "host_actions";
    package_reconciliation = bool_field value "package_reconciliation";
    audit = bool_field value "audit";
    fleet_projection = bool_field value "fleet_projection";
    evidence_read_model = bool_field value "evidence_read_model";
    project_rules = bool_field value "project_rules";
    nex_substrate = bool_field value "nex_substrate";
    tdd_savepoint = bool_field value "tdd_savepoint";
  }

  unfoldable pub policy_from_metadata : Option Value → OperationalPolicy
  unfolding bool_field unknown_host_actions_from_str capability_discovery_from_str
      cross_project_state_from_str
  policy_from_metadata none = default_orchestrator
  policy_from_metadata (some value) = record {
    host_action_mutation_requires_approval =
        bool_field value "host_action_mutation_requires_approval";
    unknown_host_actions =
        get_or
          (and_then (and_then (member value "unknown_host_actions") as_str)
            unknown_host_actions_from_str)
          deny;
    capability_discovery =
        get_or
          (and_then (and_then (member value "capability_discovery") as_str)
            capability_discovery_from_str)
          read_only;
    dispatch_requires_compatible_instance =
        bool_field value "dispatch_requires_compatible_instance";
    cross_project_state =
        get_or
          (and_then (and_then (member value "cross_project_state") as_str)
            cross_project_state_from_str)
          explicit_grant_only;
  }

  abbrev metadata_root : Value → Value
  metadata_root metadata =
      get_or (or_else (pointer metadata "/_meta/auspex") (pointer metadata "/meta/auspex")) metadata

  -- The profile of the member `info` with a name.
  profile_of : Value → Value → String → OperationalProfile Value
  unfolding string_field capabilities_from_metadata policy_from_metadata scope_from_str
  profile_of root info name =
      let recommended = get_or (string_field info "recommended_profile") name in
      record {
        name = name;
        version = get_or (string_field info "version") "";
        scope = get_or (and_then (string_field info "scope") scope_from_str) fleet;
        recommended_profile = recommended;
        required_profile = get_or (string_field info "required_profile") recommended;
        capability_contract_version =
            get_or (and_then (member info "capability_contract_version") as_u64) 1 % 2 ^ 32;
        capabilities = capabilities_from_metadata (member root "capabilities");
        policy = policy_from_metadata (member root "policy");
        meta = [];
      }

  unfoldable pub from_initialize_metadata : Value → Option (OperationalProfile Value)
  unfolding string_field profile_of
  from_initialize_metadata metadata =
      let root = metadata_root metadata in
      and_then (or_else (member root "runtime_info") (member root "extension_info"))
        λ info. Option.map (profile_of root info) (string_field info "name")
