-- ===== src/Instances/Engine/Ownership.antt =====
-- Whose records leave the registry with an instance, and which stay.
use auspex.Prelude.{
  ◌≡◌, inl, inr, refl, ap, ◌∙◌, subst, String, true, false, not, ◌&&◌, Option, none, some, List, [],
  ◌∷◌, map, arith, find, retain, str_eq, eq_iff, eq_refl, if◌then◌else◌, Bool-cases, Option-cases,
}
use auspex.Worker.{WorkerLifecycleState}
use auspex.Instances.Record.{InstanceRecord, InstanceFreshness}
use auspex.Instances.Registry.{InstanceRegistryStore, find_record, has_id, put_record}
use auspex.Instances.Registry.View.{
  Distinct, Distinct-map, Distinct-put_record, KeepsIds, find-map, find-put_record, find-retain,
  find_id,
}
use auspex.Instances.Attached.{AttachedInstanceRecord, is_owned_by, owner_of}
use auspex.Instances.Synthesis.{is_attached, synthesize_instance_record}
use auspex.Instances.Engine.{
  AttachedInstanceStateEngine, attach_instance, contains_id, detach_instance, is_detached_service,
  is_kept, lose_record, purge_stale_instances, put_instance,
}

module _ {V : Type 0} where
  find-put_instance :
      (j : String) (a : AttachedInstanceRecord V) (xs : List (AttachedInstanceRecord V))
      → str_eq a.instance_id j ≡ false
      → find (is_attached j) (put_instance a xs) ≡ find (is_attached j) xs
  unfolding put_instance
  find-put_instance j a [] h = ground arith
  find-put_instance j a (x ∷ xs) h = ground (
    arith,
    find-put_instance j a xs h,
    eq_iff x.instance_id j,
    eq_iff x.instance_id a.instance_id,
    eq_iff a.instance_id j,
  )

  find-detached :
      (j id : String) (xs : List (AttachedInstanceRecord V))
      → find (is_attached j) (retain (λ a. not (is_attached id a)) xs)
        ≡ (if str_eq id j then none else find (is_attached j) xs)
  find-detached j id [] = ground arith
  find-detached j id (x ∷ xs) =
      ground
        (arith, find-detached j id xs, eq_iff x.instance_id j, eq_iff x.instance_id id, eq_iff id j)

  synthesized_owned :
      (a : AttachedInstanceRecord V) (key : String)
      → a.session_key ≡ key
      → is_owned_by key (synthesize_instance_record a) ≡ true
  unfolding synthesize_instance_record
  synthesized_owned a key same =
      subst (λ k. str_eq (owner_of a.session_key) (owner_of k) ≡ true) same
        (eq_refl (owner_of a.session_key))

  synthesized_id :
      (a : AttachedInstanceRecord V) (j : String)
      → has_id j (synthesize_instance_record a) ≡ str_eq a.instance_id j
  unfolding synthesize_instance_record
  synthesized_id a j = refl

  kept_others :
      (j id key : String) (rs : List (InstanceRecord V))
      → str_eq id j ≡ false
      → (elim (find (has_id j) rs) [
        | some r ↦ if not (has_id id r && is_owned_by key r) then some r else none
        | none ↦ none
      ])
        ≡ find (has_id j) rs
  kept_others j id key rs other = elim (Option-cases (find (has_id j) rs)) [
    | inl missing ↦ rw missing refl
    | inr (r, f) ↦
        let named = find_id j rs r f in
        let off : has_id id r ≡ false =
          ground (arith, eq_iff r.identity.instance_id id, eq_iff id j) in
        rw (f, off) refl
  ]

  find-detached_record :
      (j : String) (a : AttachedInstanceRecord V) (key : String) (rs : List (InstanceRecord V))
      → a.session_key ≡ key
      → Distinct rs
      → find (has_id j) (
          retain
            (λ r. not (has_id a.instance_id r && is_owned_by key r))
            (put_record (synthesize_instance_record a) rs))
        ≡ (if str_eq a.instance_id j then none else find (has_id j) rs)
  find-detached_record j a key rs same d =
      let next = synthesize_instance_record a in
      find-retain j (λ r. not (has_id a.instance_id r && is_owned_by key r)) (put_record next rs)
        (Distinct-put_record next rs d)
      ∙ rw (find-put_record j next rs, synthesized_id a j)
          (elim (Bool-cases (str_eq a.instance_id j)) [
            | inl here ↦
                rw
                  (
                    here,
                    synthesized_id a a.instance_id,
                    eq_refl a.instance_id,
                    synthesized_owned a key same,
                  )
                  refl
            | inr other ↦ rw (other) (kept_others j a.instance_id key rs other)
          ])

  -- An instance that is attached to the engine's session and detached again is gone, with its
  -- record, whoever owned the record before; every other instance and every other record is as it
  -- was.
  pub detach_instance-attach_instance :
      (a : AttachedInstanceRecord V) (e : AttachedInstanceStateEngine V) (j : String)
      → a.session_key ≡ e.session_key
      → Distinct e.registry_store.instances
      → let e' = detach_instance a.instance_id (attach_instance a e) in
        (find_record j e'.registry_store
          ≡ (if str_eq a.instance_id j then none else find_record j e.registry_store))
        × (find (is_attached j) e'.attached_instances
            ≡ (if str_eq a.instance_id j then none else find (is_attached j) e.attached_instances))
  unfolding detach_instance attach_instance find_record
  detach_instance-attach_instance a e j same d = (
    find-detached_record j a e.session_key e.registry_store.instances same d,
    find-detached j a.instance_id _ ∙ (elim (Bool-cases (str_eq a.instance_id j)) [
      | inl here ↦ rw here refl
      | inr other ↦ rw other (
          find-put_instance j (record a { registry_record = some (synthesize_instance_record a) })
            e.attached_instances other)
    ]),
  )

  lose_id : (key : String) (active : List String) → KeepsIds (lose_record {V = V} key active)
  unfolding lose_record
  lose_id key active r = ground arith

  -- A record after a purge, by what was there.
  purged : String → List String → InstanceRecord V → Option (InstanceRecord V)
  unfolding lose_record
  purged key active old =
      let r = lose_record key active old in if is_kept key active r then some r else none

  find-purged :
      (active : List String) (e : AttachedInstanceStateEngine V) (j : String)
      (old : InstanceRecord V)
      → Distinct e.registry_store.instances
      → find_record j e.registry_store ≡ some old
      → find_record j (purge_stale_instances active e).registry_store
        ≡ purged e.session_key active old
  unfolding purge_stale_instances find_record purged
  find-purged active e j old d f =
      let rs = e.registry_store.instances in
      let lose = lose_record {V = V} e.session_key active in
      find-retain j (is_kept e.session_key active) (map lose rs)
        (Distinct-map lose (lose_id e.session_key active) rs d)
      ∙ rw (find-map lose (lose_id e.session_key active) j rs, f) refl

  -- A record that is lost.
  abbrev pub IsLost : InstanceRecord V → Type 0
  IsLost r =
      (r.identity.status ≡ WorkerLifecycleState.lost)
      × (r.observed.health.ready ≡ false)
      × (r.observed.health.freshness ≡ some InstanceFreshness.stale)

  purged_foreign :
      (key : String) (active : List String) (old : InstanceRecord V)
      → is_owned_by key old ≡ false
      → purged key active old ≡ some old
  unfolding purged lose_record
  purged_foreign key active old h = ground arith

  purged_active :
      (key : String) (active : List String) (old : InstanceRecord V)
      → contains_id active old.identity.instance_id ≡ true
      → purged key active old ≡ some old
  unfolding purged lose_record
  purged_active key active old h = ground arith

  purged_service :
      (key : String) (active : List String) (old : InstanceRecord V)
      → is_owned_by key old ≡ true
      → contains_id active old.identity.instance_id ≡ false
      → is_detached_service old ≡ true
      → purged key active old ≡ some (lose_record key active old)
  unfolding purged lose_record
  purged_service key active old o c s = ground arith

  service_IsLost :
      (key : String) (active : List String) (old : InstanceRecord V)
      → is_owned_by key old ≡ true
      → contains_id active old.identity.instance_id ≡ false
      → is_detached_service old ≡ true
      → IsLost (lose_record key active old)
  unfolding lose_record
  service_IsLost key active old o c s = (ground arith, ground arith, ground arith)

  purged_other :
      (key : String) (active : List String) (old : InstanceRecord V)
      → is_owned_by key old ≡ true
      → contains_id active old.identity.instance_id ≡ false
      → is_detached_service old ≡ false
      → purged key active old ≡ none
  unfolding purged lose_record
  purged_other key active old o c s = ground arith

  find-active :
      (j : String) (active : List String) (xs : List (AttachedInstanceRecord V))
      → find (is_attached j) (retain (λ a. contains_id active a.instance_id) xs)
        ≡ (if contains_id active j then find (is_attached j) xs else none)
  find-active j active [] = ground arith
  find-active j active (x ∷ xs) = elim (Bool-cases (is_attached j x)) [
    | inl here ↦
        let same : contains_id active x.instance_id ≡ contains_id active j =
          ap (contains_id active) ((eq_iff x.instance_id j).0 here) in
        ground (arith, find-active j active xs, same)
    | inr miss ↦ ground (arith, find-active j active xs)
  ]

  record_id :
      (j : String) (store : InstanceRegistryStore V) (old : InstanceRecord V)
      → find_record j store ≡ some old
      → old.identity.instance_id ≡ j
  unfolding find_record
  record_id j store old f = find_id j store.instances old f

  -- A purge keeps exactly the active instances attached. In the registry, records of other owners
  -- and of active instances are as they were; of the session's inactive instances the detached
  -- services stay, as lost, not ready and stale, and the others are gone.
  pub purge_stale_instances_lem :
      (active : List String) (e : AttachedInstanceStateEngine V) (j : String)
      → Distinct e.registry_store.instances
      → let e' = purge_stale_instances active e in
        (find (is_attached j) e'.attached_instances
          ≡ (if contains_id active j then find (is_attached j) e.attached_instances else none))
        × ((old : InstanceRecord V)
            → find_record j e.registry_store ≡ some old
            → (is_owned_by e.session_key old ≡ false → find_record j e'.registry_store ≡ some old)
              × (contains_id active j ≡ true → find_record j e'.registry_store ≡ some old)
              × (is_owned_by e.session_key old ≡ true
                  → contains_id active j ≡ false
                  → is_detached_service old ≡ true
                  → (r : InstanceRecord V) × (find_record j e'.registry_store ≡ some r) × IsLost r)
              × (is_owned_by e.session_key old ≡ true
                  → contains_id active j ≡ false
                  → is_detached_service old ≡ false
                  → find_record j e'.registry_store ≡ none))
  unfolding purge_stale_instances
  purge_stale_instances_lem active e j d = (
    find-active j active e.attached_instances,
    λ old f.
        let key = e.session_key in
        let after = find-purged active e j old d f in
        let live = ap (contains_id active) (record_id j e.registry_store old f) in
        (
          λ h. after ∙ purged_foreign key active old h,
          λ h. after ∙ purged_active key active old (live ∙ h),
          λ o c s. (
            lose_record key active old,
            after ∙ purged_service key active old o (live ∙ c) s,
            service_IsLost key active old o (live ∙ c) s,
          ),
          λ o c s. after ∙ purged_other key active old o (live ∙ c) s,
        ),
  )
