-- ===== src/Examples/Instances.antt =====
-- The theorems on instances, at concrete inputs.
use auspex.Prelude.{
  none, ℕ, ◌-◌, ◌≡◌, refl, String, true, false, none, some, List, [], ◌∷◌, arith, any, find, str_eq,
  if◌then◌else◌,
}
use mathlib.Core.Option
use auspex.Worker.{external}
use auspex.Instances.Record.{InstanceRecord}
use auspex.Instances.Registry.{
  InstanceRegistryStore, find_record, rehydrate_record, remove, stale_rehydrated, upsert,
}
use auspex.Instances.Registry.View.{
  Distinct, contents, drop_contents, is_found, put_contents, registry_refines_map,
}
use auspex.Instances.Registry.Rehydration.{IsRehydrated, stale_rehydrated_lem}
use auspex.Instances.Attached.{
  AttachedInstanceRecord, SessionData, is_owned_by, session_dispatcher_route_id,
}
use auspex.Instances.Synthesis.{is_attached, synthesize_instance_record}
use auspex.Instances.Engine.{
  AttachedInstanceStateEngine, CommandRouteProjection, attach_instance, available_command_routes,
  contains_id, current_command_target, detach_instance, evaluate_lifecycle_policy,
  from_registry_and_session, is_detached_service, is_route, last_seen, purge_stale_instances,
  selected_route,
}
use auspex.Instances.Engine.History.{
  attach, detach, engine-steps-IsWellFormed, evaluate, purge, reconcile, select, steps,
}
use auspex.Instances.Engine.Steps.{IsWellFormed}
use auspex.Instances.Engine.Lifecycle.{IsPoliced, evaluate_lifecycle_policy_lem}
use auspex.Instances.Engine.Routes.{NoneSelected, current_command_target_lem}
use auspex.Instances.Engine.Ownership.{
  IsLost, detach_instance-attach_instance, purge_stale_instances_lem,
}

abbrev session : SessionData
session = record {
  instance_descriptor = none;
  dispatcher_binding = some record {
    dispatcher_instance_id = "omg_dispatcher";
    expected_role = "";
    expected_profile = "primary";
    expected_model = none;
    observed_base_url = some "http://127.0.0.1:7842";
  };
}

abbrev helper : AttachedInstanceRecord String
helper = record {
  instance_id = "omg_helper";
  route_id = "helper";
  role = "service";
  profile = "helper";
  session_key = "remote:s1";
  base_url = none;
  model = none;
  dispatcher_instance_id = none;
  registry_record = none;
}

-- An external instance with the id of the helper, last seen at second 1000.
abbrev foreign : InstanceRecord String
foreign =
    let r = synthesize_instance_record helper in
    record r {
      ownership = record r.ownership { owner_kind = external; owner_id = "operator" };
      observed = record r.observed {
        health = record r.observed.health { last_seen_at = some "1000" };
      };
    }

abbrev registry : InstanceRegistryStore String
registry = record { schema_version = 1; instances = foreign ∷ [] }

abbrev engine : AttachedInstanceStateEngine String
engine = record {
  session_key = "remote:s1";
  attached_instances = helper ∷ [];
  selected_command_route_id = some "helper";
  registry_store = registry;
}

engine-steps-IsWellFormed_example : IsWellFormed (
    steps
      (attach helper
        ∷ select "helper"
        ∷ evaluate 4000
        ∷ purge ("omg_helper" ∷ [])
        ∷ detach "omg_helper"
        ∷ reconcile "remote:s2" session
        ∷ [])
      (from_registry_and_session registry "remote:s1" session))
engine-steps-IsWellFormed_example =
    engine-steps-IsWellFormed registry "remote:s1" session (refl, tt)
      (attach helper
        ∷ select "helper"
        ∷ evaluate 4000
        ∷ purge ("omg_helper" ∷ [])
        ∷ detach "omg_helper"
        ∷ reconcile "remote:s2" session
        ∷ [])

registry_refines_map_example :
    (contents (upsert foreign registry) "omg_helper"
      ≡ put_contents foreign (contents registry) "omg_helper")
    × (contents (remove "omg_helper" registry).1 "omg_helper"
        ≡ drop_contents "omg_helper" (contents registry) "omg_helper")
    × ((remove "omg_helper" registry).0 ≡ is_found (contents registry "omg_helper"))
    × (contents (stale_rehydrated registry) "omg_helper"
        ≡ Option.map rehydrate_record (contents registry "omg_helper"))
    × Distinct (upsert foreign registry).instances
    × Distinct (remove "omg_helper" registry).1.instances
    × Distinct (stale_rehydrated registry).instances
registry_refines_map_example =
    registry_refines_map registry foreign "omg_helper" "omg_helper" (refl, tt)

stale_rehydrated_lem_example :
    let after = stale_rehydrated registry in
    (stale_rehydrated after ≡ after)
    × ((j : String) → find_record j registry ≡ none → find_record j after ≡ none)
    × ((j : String) (old : InstanceRecord String)
        → find_record j registry ≡ some old
        → (r : InstanceRecord String) × (find_record j after ≡ some r) × IsRehydrated old r)
stale_rehydrated_lem_example = stale_rehydrated_lem registry

current_command_target_lem_example :
    let routes = available_command_routes engine in
    ((route : CommandRouteProjection) × (find (is_route (selected_route engine)) routes
        ≡ some route)
      × (route.route_id ≡ selected_route engine)
      × (current_command_target engine ≡ route.target))
    × ((wanted : String)
        → engine.selected_command_route_id ≡ some wanted
        → any (is_route wanted) routes ≡ true
        → selected_route engine ≡ wanted)
    × (NoneSelected engine
        → any (is_route session_dispatcher_route_id) routes ≡ true
        → selected_route engine ≡ session_dispatcher_route_id)
    × ((first : CommandRouteProjection) (others : List CommandRouteProjection)
        → NoneSelected engine
        → any (is_route session_dispatcher_route_id) routes ≡ false
        → routes ≡ first ∷ others
        → selected_route engine ≡ first.route_id)
current_command_target_lem_example = current_command_target_lem engine

evaluate_lifecycle_policy_lem_example :
    let after = evaluate_lifecycle_policy 1400 engine in
    (evaluate_lifecycle_policy 4000 after ≡ evaluate_lifecycle_policy 4000 engine)
    × ((j : String) (old : InstanceRecord String) (seen : ℕ)
        → find_record j engine.registry_store ≡ some old
        → last_seen old.observed.health.last_seen_at ≡ some seen
        → (r : InstanceRecord String) × (find_record j after.registry_store ≡ some r)
          × IsPoliced (1400 - seen) old r)
    × ((j : String) (old : InstanceRecord String)
        → find_record j engine.registry_store ≡ some old
        → last_seen old.observed.health.last_seen_at ≡ none
        → find_record j after.registry_store ≡ some old)
    × (after ≡ record engine { registry_store = after.registry_store })
evaluate_lifecycle_policy_lem_example = evaluate_lifecycle_policy_lem 1400 4000 engine (omega arith)

detach_instance-attach_instance_example :
    let e' = detach_instance "omg_helper" (attach_instance helper engine) in
    (find_record "omg_helper" e'.registry_store ≡ (
      if str_eq "omg_helper" "omg_helper"
      then none
      else find_record "omg_helper" engine.registry_store))
    × (find (is_attached "omg_helper") e'.attached_instances ≡ (
        if str_eq "omg_helper" "omg_helper"
        then none
        else find (is_attached "omg_helper") engine.attached_instances))
detach_instance-attach_instance_example =
    detach_instance-attach_instance helper engine "omg_helper" refl (refl, tt)

abbrev live : List String
live = "omg_dispatcher" ∷ []

purge_stale_instances_lem_example :
    let e' = purge_stale_instances live engine in
    (find (is_attached "omg_helper") e'.attached_instances ≡ (
      if contains_id live "omg_helper"
      then find (is_attached "omg_helper") engine.attached_instances
      else none))
    × ((old : InstanceRecord String)
        → find_record "omg_helper" engine.registry_store ≡ some old
        → (is_owned_by engine.session_key old ≡ false
            → find_record "omg_helper" e'.registry_store ≡ some old)
          × (contains_id live "omg_helper" ≡ true
              → find_record "omg_helper" e'.registry_store ≡ some old)
          × (is_owned_by engine.session_key old ≡ true
              → contains_id live "omg_helper" ≡ false
              → is_detached_service old ≡ true
              → (r : InstanceRecord String) × (find_record "omg_helper" e'.registry_store ≡ some r)
                × IsLost r)
          × (is_owned_by engine.session_key old ≡ true
              → contains_id live "omg_helper" ≡ false
              → is_detached_service old ≡ false
              → find_record "omg_helper" e'.registry_store ≡ none))
purge_stale_instances_lem_example = purge_stale_instances_lem live engine "omg_helper" (refl, tt)
