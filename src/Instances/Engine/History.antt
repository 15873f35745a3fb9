-- ===== src/Instances/Engine/History.antt =====
-- The histories of an engine: every sequence of its operations.
use auspex.Prelude.{
  ℕ, ◌≡◌, inl, inr, refl, ap, ◌∙◌, String, true, false, not, ◌&&◌, some, List, [], ◌∷◌, map, arith,
  any, retain, str_eq, eq_iff, Bool-cases,
}
use auspex.Instances.Record.{InstanceRecord}
use auspex.Instances.Registry.{InstanceRegistryStore, has_id, put_record}
use auspex.Instances.Registry.View.{
  Distinct, Distinct-map, Distinct-put_record, Distinct-retain, KeepsIds,
}
use auspex.Instances.Attached.{
  AttachedInstanceRecord, SessionData, is_owned_by, reconcile_attached_instances,
}
use auspex.Instances.Synthesis.{is_attached, synthesize_instance_record}
use auspex.Instances.Engine.{
  AttachedInstanceStateEngine, attach_instance, contains_id, detach_instance,
  evaluate_lifecycle_policy, from_registry_and_session, is_kept, lose_record, police_record,
  purge_stale_instances, reconcile_session_snapshot, replace_registry_store, select_command_route,
  age_record,
}
use auspex.Instances.Engine.Steps.{
  AllKnown-Keeps, AllKnown-put_instance, AllKnown-retain, IsWellFormed, map_known, merge-Distinct,
  merge_known, put_itself, put_known,
}

module _ {V : Type 0} where
  from_registry_and_session-IsWellFormed :
      (store : InstanceRegistryStore V) (key : String) (session : SessionData)
      → Distinct store.instances
      → IsWellFormed (from_registry_and_session store key session)
  unfolding from_registry_and_session
  from_registry_and_session-IsWellFormed store key session d =
      let attached = reconcile_attached_instances store key session in
      record { distinct = merge-Distinct attached store d; known = merge_known attached store }

  attach_instance-IsWellFormed :
      (a : AttachedInstanceRecord V) (e : AttachedInstanceStateEngine V)
      → IsWellFormed e
      → IsWellFormed (attach_instance a e)
  unfolding attach_instance
  attach_instance-IsWellFormed a e w =
      let next = synthesize_instance_record a in
      let rs = e.registry_store.instances in
      record {
        distinct = Distinct-put_record next rs w.distinct;
        known =
            AllKnown-put_instance (record a { registry_record = some next }) e.attached_instances
              (put_record next rs) (put_itself a rs)
              (AllKnown-Keeps e.attached_instances rs (put_record next rs) (put_known next rs)
                w.known);
      }

  detached_others :
      (id key j : String) (rs : List (InstanceRecord V))
      → str_eq j id ≡ false
      → any (has_id j) rs ≡ true
      → any (has_id j) (retain (λ r. not (has_id id r && is_owned_by key r)) rs) ≡ true
  detached_others id key j [] other h = cc
  detached_others id key j (x ∷ rs) other h =
      elim (Bool-cases (not (has_id id x && is_owned_by key x))) [
        | inl kept ↦ elim (Bool-cases (has_id j x)) [
          | inl here ↦ rw (kept, here) refl
          | inr miss ↦ rw (kept, miss) (detached_others id key j rs other (ground arith))
        ]
        | inr dropped ↦ rw dropped (
            detached_others id key j rs other (
              ground (
                arith,
                eq_iff x.identity.instance_id j,
                eq_iff x.identity.instance_id id,
                eq_iff j id,
              )))
      ]

  detach_instance-IsWellFormed :
      (id : String) (e : AttachedInstanceStateEngine V)
      → IsWellFormed e
      → IsWellFormed (detach_instance id e)
  unfolding detach_instance
  detach_instance-IsWellFormed id e w =
      let rs = e.registry_store.instances in
      let p = λ (r : InstanceRecord V). not (has_id id r && is_owned_by e.session_key r) in
      record {
        distinct = Distinct-retain p rs w.distinct;
        known =
            AllKnown-retain (λ a. not (is_attached id a)) e.attached_instances rs (retain p rs)
              (λ a kept h. detached_others id e.session_key a.instance_id rs (ground arith) h)
              w.known;
      }

  lose_id : (key : String) (active : List String) → KeepsIds (lose_record {V = V} key active)
  unfolding lose_record
  lose_id key active r = ground arith

  kept_active :
      (key : String) (active : List String) (r : InstanceRecord V)
      → contains_id active r.identity.instance_id ≡ true
      → is_kept key active r ≡ true
  kept_active key active r h = ground arith

  purged_active :
      (key j : String) (active : List String) (rs : List (InstanceRecord V))
      → contains_id active j ≡ true
      → any (has_id j) rs ≡ true
      → any (has_id j) (retain (is_kept key active) rs) ≡ true
  purged_active key j active [] live h = cc
  purged_active key j active (x ∷ rs) live h = elim (Bool-cases (has_id j x)) [
    | inl here ↦
        let same : x.identity.instance_id ≡ j = (eq_iff x.identity.instance_id j).0 here in
        let kept = kept_active key active x (ap (contains_id active) same ∙ live) in
        rw (kept, here) refl
    | inr miss ↦ elim (Bool-cases (is_kept key active x)) [
      | inl kept ↦ rw (kept, miss) (purged_active key j active rs live (ground arith))
      | inr dropped ↦ rw dropped (purged_active key j active rs live (ground arith))
    ]
  ]

  purge_stale_instances-IsWellFormed :
      (active : List String) (e : AttachedInstanceStateEngine V)
      → IsWellFormed e
      → IsWellFormed (purge_stale_instances active e)
  unfolding purge_stale_instances
  purge_stale_instances-IsWellFormed active e w =
      let rs = e.registry_store.instances in
      let key = e.session_key in
      let lose = lose_record {V = V} key active in
      record {
        distinct =
            Distinct-retain (is_kept key active) (map lose rs)
              (Distinct-map lose (lose_id key active) rs w.distinct);
        known =
            AllKnown-retain (λ a. contains_id active a.instance_id) e.attached_instances rs
              (retain (is_kept key active) (map lose rs))
              (λ a live h.
                purged_active key a.instance_id active (map lose rs) live
                  (map_known lose (lose_id key active) rs a.instance_id h))
              w.known;
      }

  police_id : (now : ℕ) → KeepsIds (police_record {V = V} now)
  unfolding police_record age_record
  police_id now r = ground arith

  evaluate_lifecycle_policy-IsWellFormed :
      (now : ℕ) (e : AttachedInstanceStateEngine V)
      → IsWellFormed e
      → IsWellFormed (evaluate_lifecycle_policy now e)
  unfolding evaluate_lifecycle_policy
  evaluate_lifecycle_policy-IsWellFormed now e w =
      let rs = e.registry_store.instances in
      record {
        distinct = Distinct-map (police_record now) (police_id now) rs w.distinct;
        known =
            AllKnown-Keeps e.attached_instances rs _
              (map_known (police_record now) (police_id now) rs) w.known;
      }

  reconcile_session_snapshot-IsWellFormed :
      (key : String) (session : SessionData) (e : AttachedInstanceStateEngine V)
      → IsWellFormed e
      → IsWellFormed (reconcile_session_snapshot key session e)
  unfolding reconcile_session_snapshot
  reconcile_session_snapshot-IsWellFormed key session e w =
      let attached = reconcile_attached_instances e.registry_store key session in
      record {
        distinct = merge-Distinct attached e.registry_store w.distinct;
        known = merge_known attached e.registry_store;
      }

  replace_registry_store-IsWellFormed :
      (store : InstanceRegistryStore V) (session : SessionData) (e : AttachedInstanceStateEngine V)
      → Distinct store.instances
      → IsWellFormed (replace_registry_store store session e)
  unfolding replace_registry_store
  replace_registry_store-IsWellFormed store session e d =
      let attached = reconcile_attached_instances store e.session_key session in
      record { distinct = merge-Distinct attached store d; known = merge_known attached store }

-- One operation on an engine. A registry that replaces another has distinct ids.
pub data EngineStep (V : Type 0) : Type 0 where
  attach : AttachedInstanceRecord V → EngineStep V
  detach : String → EngineStep V
  purge : List String → EngineStep V
  evaluate : ℕ → EngineStep V
  select : String → EngineStep V
  reconcile : String → SessionData → EngineStep V
  replace :
      (store : InstanceRegistryStore V) → Distinct store.instances → SessionData → EngineStep V

module _ {V : Type 0} where
  unfoldable pub step : EngineStep V → AttachedInstanceStateEngine V → AttachedInstanceStateEngine V
  step (attach a) e = attach_instance a e
  step (detach id) e = detach_instance id e
  step (purge active) e = purge_stale_instances active e
  step (evaluate now) e = evaluate_lifecycle_policy now e
  step (select route_id) e = select_command_route route_id e
  step (reconcile key session) e = reconcile_session_snapshot key session e
  step (replace store d session) e = replace_registry_store store session e

  unfoldable pub steps :
      List (EngineStep V) → AttachedInstanceStateEngine V → AttachedInstanceStateEngine V
  steps [] e = e
  steps (s ∷ rest) e = steps rest (step s e)

  step-IsWellFormed :
      (s : EngineStep V) (e : AttachedInstanceStateEngine V)
      → IsWellFormed e
      → IsWellFormed (step s e)
  unfolding step select_command_route
  step-IsWellFormed (attach a) e w = attach_instance-IsWellFormed a e w
  step-IsWellFormed (detach id) e w = detach_instance-IsWellFormed id e w
  step-IsWellFormed (purge active) e w = purge_stale_instances-IsWellFormed active e w
  step-IsWellFormed (evaluate now) e w = evaluate_lifecycle_policy-IsWellFormed now e w
  step-IsWellFormed (select route_id) e w = record { distinct = w.distinct; known = w.known }
  step-IsWellFormed (reconcile key session) e w =
      reconcile_session_snapshot-IsWellFormed key session e w
  step-IsWellFormed (replace store d session) e w =
      replace_registry_store-IsWellFormed store session e d

  steps-IsWellFormed :
      (ss : List (EngineStep V)) (e : AttachedInstanceStateEngine V)
      → IsWellFormed e
      → IsWellFormed (steps ss e)
  unfolding steps
  steps-IsWellFormed [] e w = w
  steps-IsWellFormed (s ∷ rest) e w = steps-IsWellFormed rest (step s e) (step-IsWellFormed s e w)

  -- From a registry with distinct ids and any session, whatever operations follow, no two records
  -- of the registry have one id, and every attached instance has its record there.
  pub engine-steps-IsWellFormed :
      (store : InstanceRegistryStore V) (key : String) (session : SessionData)
      → Distinct store.instances
      → (ss : List (EngineStep V))
      → IsWellFormed (steps ss (from_registry_and_session store key session))
  engine-steps-IsWellFormed store key session d ss =
      steps-IsWellFormed ss _ (from_registry_and_session-IsWellFormed store key session d)
