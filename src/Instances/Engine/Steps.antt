-- ===== src/Instances/Engine/Steps.antt =====
-- What every operation of the engine keeps.
use auspex.Prelude.{
  ◌≡◌, inl, inr, refl, ◌∙◌, String, Bool, true, List, [], ◌∷◌, map, arith, any, retain, eq_refl,
  Bool-cases,
}
use auspex.Instances.Record.{InstanceRecord}
use auspex.Instances.Registry.{InstanceRegistryStore, has_id, put_record}
use auspex.Instances.Registry.View.{
  Distinct, Distinct-map, Distinct-put_record, KeepsIds, any-map, any-put_record,
}
use auspex.Instances.Attached.{AttachedInstanceRecord}
use auspex.Instances.Synthesis.{
  is_attached, merge_attached_instances_into_registry, put_attached, refresh_record,
  synthesize_instance_record,
}
use auspex.Instances.Engine.{AttachedInstanceStateEngine, put_instance}

module _ {V : Type 0} where
  -- Every attached instance has a record.
  abbrev pub AllKnown : List (AttachedInstanceRecord V) → List (InstanceRecord V) → Type 0
  AllKnown [] rs = Unit
  AllKnown (a ∷ attached) rs = (any (has_id a.instance_id) rs ≡ true) × AllKnown attached rs

  pub record IsWellFormed (e : AttachedInstanceStateEngine V) : Type 0 where
    pub distinct : Distinct e.registry_store.instances
    pub known : AllKnown e.attached_instances e.registry_store.instances

  -- What is known in one list of records is known in another.
  abbrev pub Keeps : List (InstanceRecord V) → List (InstanceRecord V) → Type 0
  Keeps rs rs' = (j : String) → any (has_id j) rs ≡ true → any (has_id j) rs' ≡ true

  pub AllKnown-Keeps :
      (attached : List (AttachedInstanceRecord V)) (rs rs' : List (InstanceRecord V))
      → Keeps rs rs'
      → AllKnown attached rs
      → AllKnown attached rs'
  AllKnown-Keeps [] rs rs' k a = tt
  AllKnown-Keeps (x ∷ xs) rs rs' k a = (k x.instance_id a.0, AllKnown-Keeps xs rs rs' k a.1)

  pub AllKnown-put_instance :
      (a : AttachedInstanceRecord V) (attached : List (AttachedInstanceRecord V))
      (rs : List (InstanceRecord V))
      → any (has_id a.instance_id) rs ≡ true
      → AllKnown attached rs
      → AllKnown (put_instance a attached) rs
  unfolding put_instance
  AllKnown-put_instance a [] rs h k = (h, tt)
  AllKnown-put_instance a (x ∷ xs) rs h k = elim (Bool-cases (is_attached a.instance_id x)) [
    | inl hit ↦ rw hit (h, k.1)
    | inr miss ↦ rw miss (k.0, AllKnown-put_instance a xs rs h k.1)
  ]

  -- What `retain` leaves is known, where the test implies that.
  pub AllKnown-retain :
      (p : AttachedInstanceRecord V → Bool) (attached : List (AttachedInstanceRecord V))
      (rs rs' : List (InstanceRecord V))
      → ((a : AttachedInstanceRecord V)
          → p a ≡ true
          → any (has_id a.instance_id) rs ≡ true
          → any (has_id a.instance_id) rs' ≡ true)
      → AllKnown attached rs
      → AllKnown (retain p attached) rs'
  AllKnown-retain p [] rs rs' k a = tt
  AllKnown-retain p (x ∷ xs) rs rs' k a = elim (Bool-cases (p x)) [
    | inl kept ↦ rw kept (k x kept a.0, AllKnown-retain p xs rs rs' k a.1)
    | inr dropped ↦ rw dropped (AllKnown-retain p xs rs rs' k a.1)
  ]

  pub synthesize_id :
      (a : AttachedInstanceRecord V)
      → (synthesize_instance_record a).identity.instance_id ≡ a.instance_id
  unfolding synthesize_instance_record
  synthesize_id a = refl

  pub put_known : (r : InstanceRecord V) (rs : List (InstanceRecord V)) → Keeps rs (put_record r rs)
  put_known r rs j h = ground (arith, any-put_record j r rs)

  pub put_itself :
      (a : AttachedInstanceRecord V) (rs : List (InstanceRecord V))
      → any (has_id a.instance_id) (put_record (synthesize_instance_record a) rs) ≡ true
  put_itself a rs =
      any-put_record a.instance_id (synthesize_instance_record a) rs
      ∙ rw (synthesize_id a, eq_refl a.instance_id) refl

  put_attached-Keeps :
      (attached : List (AttachedInstanceRecord V)) (rs : List (InstanceRecord V))
      → Keeps rs (put_attached attached rs)
  unfolding put_attached
  put_attached-Keeps [] rs j h = h
  put_attached-Keeps (a ∷ attached) rs j h =
      put_attached-Keeps attached _ j (put_known (synthesize_instance_record a) rs j h)

  AllKnown-put_attached :
      (attached : List (AttachedInstanceRecord V)) (rs : List (InstanceRecord V))
      → AllKnown attached (put_attached attached rs)
  unfolding put_attached
  AllKnown-put_attached [] rs = tt
  AllKnown-put_attached (a ∷ attached) rs = (
    put_attached-Keeps attached _ a.instance_id (put_itself a rs),
    AllKnown-put_attached attached _,
  )

  Distinct-put_attached :
      (attached : List (AttachedInstanceRecord V)) (rs : List (InstanceRecord V))
      → Distinct rs
      → Distinct (put_attached attached rs)
  unfolding put_attached
  Distinct-put_attached [] rs d = d
  Distinct-put_attached (a ∷ attached) rs d =
      Distinct-put_attached attached _ (Distinct-put_record (synthesize_instance_record a) rs d)

  refresh_id :
      (attached : List (AttachedInstanceRecord V)) → KeepsIds (refresh_record {V = V} attached)
  unfolding refresh_record
  refresh_id attached r = ground arith

  pub map_known :
      (f : InstanceRecord V → InstanceRecord V) (k : KeepsIds f) (rs : List (InstanceRecord V))
      → Keeps rs (map f rs)
  map_known f k rs j h = any-map f k j rs ∙ h

  abbrev pub merged :
      List (AttachedInstanceRecord V) → InstanceRegistryStore V → List (InstanceRecord V)
  merged attached store = (merge_attached_instances_into_registry store attached).instances

  pub merge-Distinct :
      (attached : List (AttachedInstanceRecord V)) (store : InstanceRegistryStore V)
      → Distinct store.instances
      → Distinct (merged attached store)
  unfolding merge_attached_instances_into_registry
  merge-Distinct attached store d =
      Distinct-map (refresh_record attached) (refresh_id attached) _
        (Distinct-put_attached attached store.instances d)

  pub merge_known :
      (attached : List (AttachedInstanceRecord V)) (store : InstanceRegistryStore V)
      → AllKnown attached (merged attached store)
  unfolding merge_attached_instances_into_registry
  merge_known attached store =
      AllKnown-Keeps attached _ _
        (map_known (refresh_record attached) (refresh_id attached)
          (put_attached attached store.instances))
        (AllKnown-put_attached attached store.instances)
