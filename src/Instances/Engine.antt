-- ===== src/Instances/Engine.antt =====
-- `AttachedInstanceStateEngine` of auspex-core/src/state_engine.rs.
pub mod Routes
pub mod Lifecycle
pub mod Steps
pub mod History
pub mod Ownership
use auspex.Prelude.{
  ℕ, ◌-◌, String, Bool, true, false, not, ◌&&◌, ◌||◌, Option, none, some, List, [], ◌∷◌, ◌++◌, map,
  any, find, retain, str_eq, is_empty, starts_with, leb, if◌then◌else◌, concat, parse_u64,
}
use auspex.ManagedAgent.Command.{CommandTarget}
use auspex.Worker.{
  WorkerLifecycleState, WorkerRole, auspex_session, detached_service, owner_kind_eq, role_eq,
}
use auspex.Instances.Record.{InstanceRecord, InstanceFreshness}
use auspex.Instances.Registry.{InstanceRegistryStore, has_id, new_registry, put_record}
use auspex.Instances.Attached.{
  AttachedInstanceRecord, SessionData, host_control_plane_route_id, is_owned_by, owner_of,
  reconcile_attached_instances, session_dispatcher_route_id,
}
use auspex.Instances.Synthesis.{
  is_attached, merge_attached_instances_into_registry, synthesize_instance_record,
}

pub record CommandRouteProjection : Type 0 where
  pub route_id : String
  pub label : String
  pub detail : String
  pub target : CommandTarget

pub record AttachedInstanceStateEngine (V : Type 0) : Type 0 where
  pub session_key : String
  pub attached_instances : List (AttachedInstanceRecord V)
  pub selected_command_route_id : Option String
  pub registry_store : InstanceRegistryStore V

abbrev pub local_shell_route_id : String
local_shell_route_id = "local-shell"

abbrev pub stale_after_seconds : ℕ
stale_after_seconds = 300

abbrev pub abandon_after_seconds : ℕ
abandon_after_seconds = 1800

abbrev first_of : Option String → Option String → String → String
first_of (some a) b c = a
first_of none (some b) c = b
first_of none none c = c

abbrev pub is_route : String → CommandRouteProjection → Bool
is_route route_id route = str_eq route.route_id route_id

abbrev pub first_route_id : List CommandRouteProjection → String
first_route_id [] = local_shell_route_id
first_route_id (route ∷ routes) = route.route_id

abbrev own_target : String → CommandTarget
own_target session_key = record { session_key = session_key; dispatcher_instance_id = none }

abbrev pub default_route : List CommandRouteProjection → String
default_route routes =
    if any (is_route session_dispatcher_route_id) routes
    then session_dispatcher_route_id
    else first_route_id routes

-- The route of a session without instances
unfoldable pub local_route : String → CommandRouteProjection
local_route session_key = record {
  route_id = local_shell_route_id;
  label = if starts_with session_key "remote:" then "Detached host session" else "Local shell";
  detail = "No attached host instance reported";
  target = own_target session_key;
}

unfoldable pub routes_or_local : String → List CommandRouteProjection → List CommandRouteProjection
unfolding local_route
routes_or_local session_key [] = local_route session_key ∷ []
routes_or_local session_key (route ∷ routes) = route ∷ routes

abbrev pub contains_id : List String → String → Bool
contains_id ids instance_id = any (λ id. str_eq id instance_id) ids

abbrev pub ready_to_lost : WorkerLifecycleState → WorkerLifecycleState
ready_to_lost WorkerLifecycleState.ready = WorkerLifecycleState.lost
ready_to_lost status = status

abbrev pub last_seen : Option String → Option ℕ
last_seen none = none
last_seen (some text) = parse_u64 text

module _ {V : Type 0} where
  unfoldable pub project_command_route : AttachedInstanceRecord V → CommandRouteProjection
  project_command_route attached = record {
    route_id = attached.route_id;
    label =
        if is_empty attached.role
        then attached.instance_id
        else concat (attached.role ∷ " · " ∷ attached.instance_id ∷ []);
    detail = first_of attached.model attached.base_url attached.profile;
    target = record {
      session_key = attached.session_key;
      dispatcher_instance_id = attached.dispatcher_instance_id;
    };
  }

  unfoldable pub available_command_routes :
      AttachedInstanceStateEngine V → List CommandRouteProjection
  unfolding routes_or_local project_command_route
  available_command_routes e =
      routes_or_local e.session_key (map project_command_route e.attached_instances)

  unfoldable pub selected_route : AttachedInstanceStateEngine V → String
  unfolding available_command_routes
  selected_route e =
      let routes = available_command_routes e in
      elim e.selected_command_route_id [
        | some selected ↦ if any (is_route selected) routes then selected else default_route routes
        | none ↦ default_route routes
      ]

  unfoldable pub current_command_target : AttachedInstanceStateEngine V → CommandTarget
  unfolding selected_route available_command_routes
  current_command_target e =
      elim (find (is_route (selected_route e)) (available_command_routes e)) [
        | some route ↦ route.target
        | none ↦ own_target e.session_key
      ]

  unfoldable pub from_registry_and_session :
      InstanceRegistryStore V → String → SessionData → AttachedInstanceStateEngine V
  unfolding reconcile_attached_instances merge_attached_instances_into_registry
  from_registry_and_session store session_key session =
      let attached = reconcile_attached_instances store session_key session in
      record {
        session_key = session_key;
        attached_instances = attached;
        selected_command_route_id = none;
        registry_store = merge_attached_instances_into_registry store attached;
      }

  unfoldable pub from_session_snapshot : String → SessionData → AttachedInstanceStateEngine V
  unfolding from_registry_and_session
  from_session_snapshot = from_registry_and_session new_registry

  unfoldable pub reconcile_session_snapshot :
      String → SessionData → AttachedInstanceStateEngine V → AttachedInstanceStateEngine V
  unfolding reconcile_attached_instances merge_attached_instances_into_registry selected_route
  reconcile_session_snapshot session_key session e =
      let attached = reconcile_attached_instances e.registry_store session_key session in
      record {
        session_key = session_key;
        attached_instances = attached;
        selected_command_route_id = some (selected_route e);
        registry_store = merge_attached_instances_into_registry e.registry_store attached;
      }

  unfoldable pub replace_registry_store :
      InstanceRegistryStore V
      → SessionData
      → AttachedInstanceStateEngine V
      → AttachedInstanceStateEngine V
  unfolding reconcile_attached_instances merge_attached_instances_into_registry selected_route
  replace_registry_store store session e =
      let attached = reconcile_attached_instances store e.session_key session in
      record e {
        attached_instances = attached;
        selected_command_route_id = some (selected_route e);
        registry_store = merge_attached_instances_into_registry store attached;
      }

  unfoldable pub select_command_route :
      String → AttachedInstanceStateEngine V → AttachedInstanceStateEngine V
  select_command_route route_id e = record e { selected_command_route_id = some route_id }

  -- The first instance with the id of the new one is replaced, and without such an instance the new
  -- one is pushed.
  unfoldable pub put_instance :
      AttachedInstanceRecord V → List (AttachedInstanceRecord V) → List (AttachedInstanceRecord V)
  put_instance a [] = a ∷ []
  put_instance a (x ∷ xs) = if is_attached a.instance_id x then a ∷ xs else x ∷ put_instance a xs

  abbrev with_records :
      (List (InstanceRecord V) → List (InstanceRecord V))
      → InstanceRegistryStore V
      → InstanceRegistryStore V
  with_records f store = record store { instances = f store.instances }

  unfoldable pub attach_instance :
      AttachedInstanceRecord V → AttachedInstanceStateEngine V → AttachedInstanceStateEngine V
  unfolding synthesize_instance_record put_record put_instance
  attach_instance attached e =
      let next = synthesize_instance_record attached in
      record e {
        registry_store = with_records (put_record next) e.registry_store;
        attached_instances =
            put_instance (record attached { registry_record = some next }) e.attached_instances;
      }

  unfoldable pub detach_instance :
      String → AttachedInstanceStateEngine V → AttachedInstanceStateEngine V
  unfolding owner_of
  detach_instance instance_id e = record e {
    attached_instances = retain (λ a. not (is_attached instance_id a)) e.attached_instances;
    registry_store =
        with_records (retain (λ r. not (has_id instance_id r && is_owned_by e.session_key r)))
          e.registry_store;
  }

  abbrev pub is_detached_service : InstanceRecord V → Bool
  is_detached_service r = role_eq r.identity.role detached_service

  -- The body of the loop of `purge_stale_instances`
  unfoldable pub lose_record : String → List String → InstanceRecord V → InstanceRecord V
  unfolding owner_of
  lose_record session_key active r =
      if is_owned_by session_key r
        && not (contains_id active r.identity.instance_id)
        && is_detached_service r
      then record r {
        identity = record r.identity { status = WorkerLifecycleState.lost };
        observed = record r.observed {
          health = record r.observed.health {
            ready = false;
            freshness = some InstanceFreshness.stale;
          };
        };
      }
      else r

  abbrev pub is_kept : String → List String → InstanceRecord V → Bool
  is_kept session_key active r =
      not (owner_kind_eq r.ownership.owner_kind auspex_session)
      || not (str_eq r.ownership.owner_id (owner_of session_key))
      || contains_id active r.identity.instance_id
      || is_detached_service r

  unfoldable pub purge_stale_instances :
      List String → AttachedInstanceStateEngine V → AttachedInstanceStateEngine V
  unfolding lose_record owner_of
  purge_stale_instances active e = record e {
    attached_instances = retain (λ a. contains_id active a.instance_id) e.attached_instances;
    registry_store =
        with_records
          (λ records.
            retain (is_kept e.session_key active) (map (lose_record e.session_key active) records))
          e.registry_store;
  }

  -- A record that was last seen `age` seconds ago
  unfoldable pub age_record : ℕ → InstanceRecord V → InstanceRecord V
  age_record age r =
      if leb abandon_after_seconds age
      then record r {
        identity = record r.identity { status = WorkerLifecycleState.abandoned };
        observed = record r.observed {
          health = record r.observed.health {
            ready = false;
            freshness = some InstanceFreshness.abandoned;
          };
        };
      }
      else if leb stale_after_seconds age
      then record r {
        identity = record r.identity { status = ready_to_lost r.identity.status };
        observed = record r.observed {
          health = record r.observed.health {
            ready = false;
            freshness = some InstanceFreshness.stale;
          };
        };
      }
      else record r {
        observed = record r.observed {
          health = record r.observed.health { freshness = some InstanceFreshness.fresh };
        };
      }

  -- The body of the loop of `evaluate_lifecycle_policy`
  unfoldable pub police_record : ℕ → InstanceRecord V → InstanceRecord V
  unfolding age_record parse_u64
  police_record now r = elim (last_seen r.observed.health.last_seen_at) [
    | some seen ↦ age_record (now - seen) r
    | none ↦ r
  ]

  unfoldable pub evaluate_lifecycle_policy :
      ℕ → AttachedInstanceStateEngine V → AttachedInstanceStateEngine V
  unfolding police_record
  evaluate_lifecycle_policy now e = record e {
    registry_store = with_records (map (police_record now)) e.registry_store;
  }
