-- ===== src/Instances/Registry/Rehydration.antt =====
-- What a process that starts takes from the registry that was saved.
use auspex.Prelude.{
  ◌≡◌, ◌↔◌, inl, inr, refl, ◌∙◌, String, Bool, true, false, ◌||◌, Option, none, some, List, [], ◌∷◌,
  map, arith, Bool-cases,
}
use auspex.Worker.{external, local_process}
use auspex.Instances.Record.{InstanceRecord, InstanceFreshness, stale}
use auspex.Instances.Registry.{
  InstanceRegistryStore, find_record, is_external_local, is_live, rehydrate_record,
  stale_rehydrated,
}
use auspex.Instances.Registry.View.{KeepsRest, find-map, rehydrate_id}

abbrev is_fresh : Option InstanceFreshness → Bool
is_fresh (some InstanceFreshness.fresh) = true
is_fresh _ = false

module _ {V : Type 0} where
  -- The record says of an instance that it is there to be used: ready, fresh, or at work.
  abbrev claims_live : InstanceRecord V → Bool
  claims_live r =
      r.observed.health.ready || is_fresh r.observed.health.freshness || is_live r.identity.status

  -- An instance on this machine that another owner runs.
  abbrev IsOutside : InstanceRecord V → Type 0
  IsOutside r = (r.ownership.owner_kind ≡ external) × (r.desired.backend.kind ≡ local_process)

  -- What becomes of a record at the start of a process.
  pub record IsRehydrated (old r : InstanceRecord V) : Type 0 where
    pub rest : KeepsRest old r
    pub outside : IsOutside old → r.observed.health.freshness ≡ some stale
    pub live : (claims_live r ≡ true) ↔ ((claims_live old ≡ true) × ¬ (IsOutside old))
    pub evidence : claims_live r ≡ true → r ≡ old

  is_external_local_iff : (r : InstanceRecord V) → (is_external_local r ≡ true) ↔ IsOutside r
  is_external_local_iff r = ground arith

  rehydrate_twice :
      (r : InstanceRecord V) → rehydrate_record (rehydrate_record r) ≡ rehydrate_record r
  unfolding rehydrate_record
  rehydrate_twice r = ground arith

  map_twice :
      (rs : List (InstanceRecord V))
      → map rehydrate_record (map rehydrate_record rs) ≡ map rehydrate_record rs
  map_twice [] = refl
  map_twice (x ∷ rs) = rw (rehydrate_twice x, map_twice rs) refl

  rehydrate_record-IsRehydrated : (old : InstanceRecord V) → IsRehydrated old (rehydrate_record old)
  unfolding rehydrate_record
  rehydrate_record-IsRehydrated old = elim (Bool-cases (is_external_local old)) [
    | inl out ↦ record {
      rest = ground arith;
      outside = λ o. ground arith;
      live = (λ h. ground arith, λ h. absurd (h.1 ((is_external_local_iff old).0 out)));
      evidence = λ h. ground arith;
    }
    | inr inside ↦ record {
      rest = ground arith;
      outside = λ o. absurd (ground (arith, (is_external_local_iff old).1 o));
      live = (
        λ h. (ground arith, λ o. ground (arith, (is_external_local_iff old).1 o)),
        λ h. ground (arith, h.0),
      );
      evidence = λ h. ground arith;
    }
  ]

  -- Rehydration is settled after one pass, and makes no record. Of a record that is there it keeps
  -- everything but the status, the readiness and the freshness. A record of an external instance on
  -- this machine is stale. After it a record counts as ready, fresh or at work exactly if it did
  -- before and is not of such an instance, and then it is as it was.
  pub stale_rehydrated_lem :
      (store : InstanceRegistryStore V)
      → let after = stale_rehydrated store in
        (stale_rehydrated after ≡ after)
        × ((j : String) → find_record j store ≡ none → find_record j after ≡ none)
        × ((j : String) (old : InstanceRecord V)
            → find_record j store ≡ some old
            → (r : InstanceRecord V) × (find_record j after ≡ some r) × IsRehydrated old r)
  unfolding stale_rehydrated find_record
  stale_rehydrated_lem store = (
    rw (map_twice store.instances) refl,
    λ j missing. find-map rehydrate_record rehydrate_id j store.instances ∙ rw missing refl,
    λ j old f. (
      rehydrate_record old,
      find-map rehydrate_record rehydrate_id j store.instances ∙ rw f refl,
      rehydrate_record-IsRehydrated old,
    ),
  )
