-- ===== src/Instances/Registry/View.antt =====
-- The registry as a finite map from ids to records.
use auspex.Prelude.{
  ◌≤◌, ◌≡◌, inl, inr, refl, ◌∙◌, String, Bool, true, false, not, ◌||◌, Option, none, some, List, [],
  ◌∷◌, map, arith, any, find, retain, length, str_eq, eq_iff, if◌then◌else◌, Bool-cases, ltb,
}
use mathlib.Core.Option
use auspex.Instances.Record.{InstanceRecord}
use auspex.Instances.Registry.{
  InstanceRegistryStore, find_record, has_id, put_record, rehydrate_record, remove,
  stale_rehydrated, upsert,
}

-- What the registry promises: a map from ids to records.
abbrev pub Contents : Type 0 → Type 0
Contents V = String → Option (InstanceRecord V)

module _ {V : Type 0} where
  -- No two records have one id.
  abbrev pub Distinct : List (InstanceRecord V) → Type 0
  Distinct [] = Unit
  Distinct (r ∷ rs) = (any (has_id r.identity.instance_id) rs ≡ false) × Distinct rs

  -- The new record differs from the old one at most in its status, in whether it is ready, and in
  -- its freshness.
  abbrev pub KeepsRest : InstanceRecord V → InstanceRecord V → Type 0
  KeepsRest old r = r ≡ record old {
    identity = record old.identity { status = r.identity.status };
    observed = record old.observed {
      health = record old.observed.health {
        ready = r.observed.health.ready;
        freshness = r.observed.health.freshness;
      };
    };
  }

  -- A function that keeps ids.
  abbrev pub KeepsIds : (InstanceRecord V → InstanceRecord V) → Type 0
  KeepsIds f = (r : InstanceRecord V) → (f r).identity.instance_id ≡ r.identity.instance_id

  pub find-put_record :
      (j : String) (r : InstanceRecord V) (rs : List (InstanceRecord V))
      → find (has_id j) (put_record r rs)
        ≡ (if str_eq r.identity.instance_id j then some r else find (has_id j) rs)
  unfolding put_record
  find-put_record j r [] = refl
  find-put_record j r (x ∷ rs) = ground (
    arith,
    find-put_record j r rs,
    eq_iff x.identity.instance_id j,
    eq_iff x.identity.instance_id r.identity.instance_id,
    eq_iff r.identity.instance_id j,
  )

  pub any-put_record :
      (j : String) (r : InstanceRecord V) (rs : List (InstanceRecord V))
      → any (has_id j) (put_record r rs) ≡ (str_eq r.identity.instance_id j || any (has_id j) rs)
  unfolding put_record
  any-put_record j r [] = refl
  any-put_record j r (x ∷ rs) = ground (
    arith,
    any-put_record j r rs,
    eq_iff x.identity.instance_id j,
    eq_iff x.identity.instance_id r.identity.instance_id,
    eq_iff r.identity.instance_id j,
  )

  pub Distinct-put_record :
      (r : InstanceRecord V) (rs : List (InstanceRecord V))
      → Distinct rs
      → Distinct (put_record r rs)
  unfolding put_record
  Distinct-put_record r [] d = (refl, tt)
  Distinct-put_record r (x ∷ rs) d = elim (Bool-cases (has_id r.identity.instance_id x)) [
    | inl hit ↦ rw hit (ground (arith, eq_iff x.identity.instance_id r.identity.instance_id), d.1)
    | inr miss ↦ rw miss (
      ground (
        arith,
        any-put_record x.identity.instance_id r rs,
        eq_iff x.identity.instance_id r.identity.instance_id,
        eq_iff r.identity.instance_id x.identity.instance_id,
      ),
      Distinct-put_record r rs d.1,
    )
  ]

  pub any-retain :
      (j : String) (p : InstanceRecord V → Bool) (rs : List (InstanceRecord V))
      → any (has_id j) rs ≡ false
      → any (has_id j) (retain p rs) ≡ false
  any-retain j p [] h = refl
  any-retain j p (x ∷ rs) h = ground (arith, any-retain j p rs)

  pub Distinct-retain :
      (p : InstanceRecord V → Bool) (rs : List (InstanceRecord V))
      → Distinct rs
      → Distinct (retain p rs)
  Distinct-retain p [] d = tt
  Distinct-retain p (x ∷ rs) d = elim (Bool-cases (p x)) [
    | inl kept ↦ rw kept (any-retain x.identity.instance_id p rs d.0, Distinct-retain p rs d.1)
    | inr dropped ↦ rw dropped (Distinct-retain p rs d.1)
  ]

  pub any-map :
      (f : InstanceRecord V → InstanceRecord V)
      → KeepsIds f
      → (j : String) (rs : List (InstanceRecord V)) → any (has_id j) (map f rs) ≡ any (has_id j) rs
  any-map f k j [] = refl
  any-map f k j (x ∷ rs) = rw (k x, any-map f k j rs) refl

  pub Distinct-map :
      (f : InstanceRecord V → InstanceRecord V)
      → KeepsIds f
      → (rs : List (InstanceRecord V)) → Distinct rs
      → Distinct (map f rs)
  Distinct-map f k [] d = tt
  Distinct-map f k (x ∷ rs) d =
      (rw (k x, any-map f k x.identity.instance_id rs) d.0, Distinct-map f k rs d.1)

  pub find-map :
      (f : InstanceRecord V → InstanceRecord V)
      → KeepsIds f
      → (j : String) (rs : List (InstanceRecord V))
      → find (has_id j) (map f rs) ≡ Option.map f (find (has_id j) rs)
  find-map f k j [] = refl
  find-map f k j (x ∷ rs) = elim (Bool-cases (has_id j x)) [
    | inl hit ↦ ground (arith, k x)
    | inr miss ↦ ground (arith, k x, find-map f k j rs)
  ]

  find_absent :
      (j : String) (rs : List (InstanceRecord V))
      → any (has_id j) rs ≡ false
      → find (has_id j) rs ≡ none
  find_absent j [] h = refl
  find_absent j (x ∷ rs) h = ground (arith, find_absent j rs)

  -- Where ids are distinct, a record is found after `retain` if it was found before, and is kept.
  pub find-retain :
      (j : String) (p : InstanceRecord V → Bool) (rs : List (InstanceRecord V))
      → Distinct rs
      → find (has_id j) (retain p rs)
        ≡ (elim (find (has_id j) rs) [ some r ↦ if p r then some r else none | none ↦ none ])
  find-retain j p [] d = refl
  find-retain j p (x ∷ rs) d =
      ground (arith, find-retain j p rs d.1, find_absent j rs, eq_iff x.identity.instance_id j)

  length-retain-le :
      (p : InstanceRecord V → Bool) (rs : List (InstanceRecord V))
      → length (retain p rs) ≤ length rs
  length-retain-le p [] = omega arith
  length-retain-le p (x ∷ rs) = ground (arith, length-retain-le p rs)

  removed_lem :
      (k : String) (rs : List (InstanceRecord V))
      → ltb (length (retain (λ r. not (has_id k r)) rs)) (length rs) ≡ any (has_id k) rs
  removed_lem k [] = refl
  removed_lem k (x ∷ rs) =
      ground (arith, removed_lem k rs, length-retain-le (λ r. not (has_id k r)) rs)

  abbrev pub is_found : Option (InstanceRecord V) → Bool
  is_found none = false
  is_found (some r) = true

  any-find :
      (j : String) (rs : List (InstanceRecord V))
      → any (has_id j) rs ≡ is_found (find (has_id j) rs)
  any-find j [] = refl
  any-find j (x ∷ rs) = ground (arith, any-find j rs)

  pub find_id :
      (j : String) (rs : List (InstanceRecord V)) (r : InstanceRecord V)
      → find (has_id j) rs ≡ some r
      → r.identity.instance_id ≡ j
  find_id j [] r f = absurd (cc)
  find_id j (x ∷ rs) r f = ground (arith, eq_iff x.identity.instance_id j, find_id j rs r)

  pub rehydrate_id : KeepsIds (rehydrate_record {V = V})
  unfolding rehydrate_record
  rehydrate_id r = ground arith

  find-removed :
      (j k : String) (rs : List (InstanceRecord V))
      → Distinct rs
      → find (has_id j) (retain (λ r. not (has_id k r)) rs)
        ≡ (if str_eq k j then none else find (has_id j) rs)
  find-removed j k [] d = ground arith
  find-removed j k (x ∷ rs) d = ground (
    arith,
    find-removed j k rs d.1,
    find_absent j rs,
    eq_iff x.identity.instance_id j,
    eq_iff x.identity.instance_id k,
    eq_iff k j,
  )

  abbrev pub contents : InstanceRegistryStore V → Contents V
  contents store j = find_record j store

  abbrev pub put_contents : InstanceRecord V → Contents V → Contents V
  put_contents r c j = if str_eq r.identity.instance_id j then some r else c j

  abbrev pub drop_contents : String → Contents V → Contents V
  drop_contents k c j = if str_eq k j then none else c j

  -- The list of a registry whose ids are distinct implements a map from ids to records: an upsert
  -- writes at one id, a removal clears one id and tells whether there was a record, and
  -- rehydration changes each record by itself; and the ids stay distinct.
  pub registry_refines_map :
      (store : InstanceRegistryStore V) (r : InstanceRecord V) (k j : String)
      → Distinct store.instances
      → (contents (upsert r store) j ≡ put_contents r (contents store) j)
        × (contents (remove k store).1 j ≡ drop_contents k (contents store) j)
        × ((remove k store).0 ≡ is_found (contents store k))
        × (contents (stale_rehydrated store) j ≡ Option.map rehydrate_record (contents store j))
        × Distinct (upsert r store).instances
        × Distinct (remove k store).1.instances
        × Distinct (stale_rehydrated store).instances
  unfolding upsert remove find_record stale_rehydrated
  registry_refines_map store r k j d = (
    find-put_record j r store.instances,
    find-removed j k store.instances d,
    removed_lem k store.instances ∙ any-find k store.instances,
    find-map rehydrate_record rehydrate_id j store.instances,
    Distinct-put_record r store.instances d,
    Distinct-retain (λ x. not (has_id k x)) store.instances d,
    Distinct-map rehydrate_record rehydrate_id store.instances d,
  )
