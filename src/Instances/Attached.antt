-- ===== src/Instances/Attached.antt =====
-- Which instances a session is attached to, and the records that they leave in the registry:
-- auspex-core/src/state_engine.rs. Of a session's data (auspex-core/src/fixtures.rs) the records
-- here have the fields that are read.
use auspex.Prelude.{
  String, Bool, not, ◌&&◌, Option, none, some, List, [], ◌∷◌, ◌++◌, find, str_eq, is_empty,
  if◌then◌else◌, trim_start_matches,
}
use mathlib.Core.Option
use auspex.Worker.{WorkerRole, auspex_session, detached_service, owner_kind_eq, primary_driver}
use auspex.Instances.Record.{InstanceRecord, from_descriptor_role, role_label}
use auspex.Instances.Registry.{InstanceRegistryStore, find_record}

pub record InstanceIdentityData : Type 0 where
  pub instance_id : String
  pub role : String
  pub profile : String

pub record InstanceDescriptorData : Type 0 where
  pub identity : InstanceIdentityData
  -- `control_plane`'s `base_url` and `policy`'s `model`, where these are there
  pub control_plane_base_url : Option (Option String)
  pub policy_model : Option (Option String)

pub record DispatcherBindingData : Type 0 where
  pub dispatcher_instance_id : String
  pub expected_role : String
  pub expected_profile : String
  pub expected_model : Option String
  pub observed_base_url : Option String

pub record SessionData : Type 0 where
  pub instance_descriptor : Option InstanceDescriptorData
  pub dispatcher_binding : Option DispatcherBindingData

pub record AttachedInstanceRecord (V : Type 0) : Type 0 where
  pub instance_id : String
  pub route_id : String
  pub role : String
  pub profile : String
  pub session_key : String
  pub base_url : Option String
  pub model : Option String
  pub dispatcher_instance_id : Option String
  pub registry_record : Option (InstanceRecord V)

abbrev pub host_control_plane_route_id : String
host_control_plane_route_id = "host-control-plane"

abbrev pub session_dispatcher_route_id : String
session_dispatcher_route_id = "session-dispatcher"

abbrev or_else {ℓ} : {A : Type ℓ} → Option A → Option A → Option A
or_else none b = b
or_else (some a) b = some a

abbrev or_default : String → String → String
or_default s default = if is_empty s then default else s

abbrev unwrap_or : Option String → String → String
unwrap_or none default = default
unwrap_or (some s) default = s

abbrev flatten : Option (Option String) → Option String
flatten none = none
flatten (some o) = o

-- The owner id of a session.
unfoldable pub owner_of : String → String
unfolding trim_start_matches
owner_of session_key = trim_start_matches session_key "remote:"

abbrev binding_id : Option DispatcherBindingData → String
binding_id none = ""
binding_id (some binding) = binding.dispatcher_instance_id

module _ {V : Type 0} where
  abbrev pub is_owned_by : String → InstanceRecord V → Bool
  is_owned_by session_key r =
      owner_kind_eq r.ownership.owner_kind auspex_session
      && str_eq r.ownership.owner_id (owner_of session_key)

  abbrev base_url_of : Option (InstanceRecord V) → Option String
  base_url_of = Option.map (λ r. r.observed.control_plane.base_url)

  abbrev model_of : Option (InstanceRecord V) → Option String
  model_of none = none
  model_of (some r) = r.desired.policy.model

  abbrev profile_of : Option (InstanceRecord V) → String
  profile_of none = ""
  profile_of (some r) = r.identity.profile

  -- The host of the session's snapshot
  host_instance :
      InstanceRegistryStore V → String → InstanceDescriptorData → AttachedInstanceRecord V
  unfolding find_record
  host_instance store session_key instance_data =
      let id = or_default instance_data.identity.instance_id host_control_plane_route_id in
      let registry_record = find_record id store in
      record {
        instance_id = id;
        route_id = host_control_plane_route_id;
        role = or_default instance_data.identity.role "host";
        profile = or_default instance_data.identity.profile (profile_of registry_record);
        session_key = session_key;
        base_url =
            or_else (flatten instance_data.control_plane_base_url) (base_url_of registry_record);
        model = or_else (flatten instance_data.policy_model) (model_of registry_record);
        dispatcher_instance_id = none;
        registry_record = registry_record;
      }

  -- A host that only the registry remembers
  remembered_instance : String → InstanceRecord V → AttachedInstanceRecord V
  unfolding role_label
  remembered_instance session_key r = record {
    instance_id = r.identity.instance_id;
    route_id = host_control_plane_route_id;
    role = role_label r.identity.role;
    profile = r.identity.profile;
    session_key = session_key;
    base_url = some r.observed.control_plane.base_url;
    model = r.desired.policy.model;
    dispatcher_instance_id = none;
    registry_record = some r;
  }

  is_remembered_host : String → Option DispatcherBindingData → InstanceRecord V → Bool
  unfolding owner_of
  is_remembered_host session_key binding r =
      is_owned_by session_key r && not (str_eq r.identity.instance_id (binding_id binding))

  host_instances : InstanceRegistryStore V → String → SessionData → List (AttachedInstanceRecord V)
  unfolding host_instance remembered_instance is_remembered_host
  host_instances store session_key session = elim session.instance_descriptor [
    | some instance_data ↦ host_instance store session_key instance_data ∷ []
    | none ↦
        elim (find (is_remembered_host session_key session.dispatcher_binding) store.instances) [
          | some r ↦ remembered_instance session_key r ∷ []
          | none ↦ []
        ]
  ]

  dispatcher_instance :
      InstanceRegistryStore V → String → DispatcherBindingData → AttachedInstanceRecord V
  unfolding find_record role_label
  dispatcher_instance store session_key binding =
      let id = or_default binding.dispatcher_instance_id session_dispatcher_route_id in
      let registry_record = find_record id store in
      record {
        instance_id = id;
        route_id = session_dispatcher_route_id;
        role =
            or_default binding.expected_role (
              unwrap_or (Option.map (λ r. role_label r.identity.role) registry_record)
                "dispatcher");
        profile = or_default binding.expected_profile (profile_of registry_record);
        session_key = session_key;
        base_url = or_else binding.observed_base_url (base_url_of registry_record);
        model = or_else binding.expected_model (model_of registry_record);
        dispatcher_instance_id = some binding.dispatcher_instance_id;
        registry_record = registry_record;
      }

  dispatcher_instances :
      InstanceRegistryStore V → String → SessionData → List (AttachedInstanceRecord V)
  unfolding dispatcher_instance
  dispatcher_instances store session_key session = elim session.dispatcher_binding [
    | some binding ↦ dispatcher_instance store session_key binding ∷ []
    | none ↦ []
  ]

  unfoldable pub reconcile_attached_instances :
      InstanceRegistryStore V → String → SessionData → List (AttachedInstanceRecord V)
  unfolding host_instances dispatcher_instances
  reconcile_attached_instances store session_key session =
      host_instances store session_key session ++ dispatcher_instances store session_key session

  unfoldable pub infer_worker_role : AttachedInstanceRecord V → WorkerRole
  unfolding from_descriptor_role
  infer_worker_role attached = elim attached.registry_record [
    | some r ↦ r.identity.role
    | none ↦ elim attached.dispatcher_instance_id [
      | some id ↦ primary_driver
      | none ↦
          if is_empty attached.role then detached_service else from_descriptor_role attached.role
    ]
  ]
