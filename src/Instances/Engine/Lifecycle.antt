-- ===== src/Instances/Engine/Lifecycle.antt =====
-- The policy on ages, and the removal of stale instances.
use auspex.Prelude.{
  ℕ, ◌-◌, ◌≤◌, ◌<◌, ◌≡◌, ◌≢◌, inl, inr, refl, sym, ap, ◌∙◌, String, false, none, some, List, [],
  ◌∷◌, map, arith, Option-cases,
}
use auspex.Worker.{WorkerLifecycleState}
use auspex.Instances.Record.{InstanceRecord, InstanceFreshness}
use auspex.Instances.Registry.{find_record}
use auspex.Instances.Registry.View.{KeepsIds, KeepsRest, find-map}
use auspex.Instances.Engine.{
  AttachedInstanceStateEngine, age_record, evaluate_lifecycle_policy, last_seen, police_record,
  ready_to_lost,
}

ready_or_same : (s : WorkerLifecycleState) → s ≢ WorkerLifecycleState.ready → ready_to_lost s ≡ s
ready_or_same WorkerLifecycleState.ready h = absurd (h refl)
ready_or_same _ h = refl

module _ {V : Type 0} where
  -- An older age wins.
  age_again :
      (a b : ℕ) (r : InstanceRecord V) → a ≤ b → age_record b (age_record a r) ≡ age_record b r
  unfolding age_record
  age_again a b r h = ground arith

  age_keeps_seen :
      (a : ℕ) (r : InstanceRecord V)
      → (age_record a r).observed.health.last_seen_at ≡ r.observed.health.last_seen_at
  unfolding age_record
  age_keeps_seen a r = ground arith

  police_seen :
      (now seen : ℕ) (r : InstanceRecord V)
      → last_seen r.observed.health.last_seen_at ≡ some seen
      → police_record now r ≡ age_record (now - seen) r
  unfolding police_record
  police_seen now seen r at = rw (police_record, at) refl

  police_unseen :
      (now : ℕ) (r : InstanceRecord V)
      → last_seen r.observed.health.last_seen_at ≡ none
      → police_record now r ≡ r
  unfolding police_record
  police_unseen now r at = rw (police_record, at) refl

  -- The policy at a later time forgets that it was applied before.
  police_again :
      (now later : ℕ) (r : InstanceRecord V)
      → now ≤ later
      → police_record later (police_record now r) ≡ police_record later r
  police_again now later r h = elim (Option-cases (last_seen r.observed.health.last_seen_at)) [
    | inl unseen ↦ ap (police_record later) (police_unseen now r unseen)
    | inr (seen, at) ↦
        ap (police_record later) (police_seen now seen r at)
        ∙ police_seen later seen (age_record (now - seen) r)
            (ap last_seen (age_keeps_seen (now - seen) r) ∙ at)
        ∙ age_again (now - seen) (later - seen) r (omega arith)
        ∙ sym (police_seen later seen r at)
  ]

  map_again :
      (now later : ℕ) (rs : List (InstanceRecord V))
      → now ≤ later
      → map (police_record later) (map (police_record now) rs) ≡ map (police_record later) rs
  map_again now later [] h = refl
  map_again now later (r ∷ rs) h = rw (police_again now later r h, map_again now later rs h) refl

  police_id : (now : ℕ) → KeepsIds (police_record {V = V} now)
  unfolding police_record age_record
  police_id now r = ground arith

  -- What the policy makes of a record that was last seen `age` seconds ago.
  abbrev pub IsPoliced : ℕ → InstanceRecord V → InstanceRecord V → Type 0
  IsPoliced age old r =
      KeepsRest old r
      × (1800 ≤ age
          → (r.observed.health.freshness ≡ some InstanceFreshness.abandoned)
            × (r.observed.health.ready ≡ false)
            × (r.identity.status ≡ WorkerLifecycleState.abandoned))
      × (300 ≤ age
          → age < 1800
          → (r.observed.health.freshness ≡ some InstanceFreshness.stale)
            × (r.observed.health.ready ≡ false)
            × (old.identity.status ≡ WorkerLifecycleState.ready
                → r.identity.status ≡ WorkerLifecycleState.lost)
            × (old.identity.status ≢ WorkerLifecycleState.ready
                → r.identity.status ≡ old.identity.status))
      × (age < 300
          → (r.observed.health.freshness ≡ some InstanceFreshness.fresh)
            × (r.observed.health.ready ≡ old.observed.health.ready)
            × (r.identity.status ≡ old.identity.status))

  age_record-KeepsRest : (age : ℕ) (old : InstanceRecord V) → KeepsRest old (age_record age old)
  unfolding age_record
  age_record-KeepsRest age old = ground arith

  age_record-IsPoliced : (age : ℕ) (old : InstanceRecord V) → IsPoliced age old (age_record age old)
  unfolding age_record
  age_record-IsPoliced age old = (
    age_record-KeepsRest age old,
    λ h. ground arith,
    λ h k. (
      ground arith,
      ground arith,
      λ e. ground arith,
      λ e. ground (arith, ready_or_same old.identity.status e),
    ),
    λ h. ground arith,
  )

  find-unpoliced :
      (now : ℕ) (e : AttachedInstanceStateEngine V) (j : String) (old : InstanceRecord V)
      → find_record j e.registry_store ≡ some old
      → last_seen old.observed.health.last_seen_at ≡ none
      → find_record j (evaluate_lifecycle_policy now e).registry_store ≡ some old
  unfolding evaluate_lifecycle_policy find_record
  find-unpoliced now e j old f at =
      find-map (police_record now) (police_id now) j e.registry_store.instances
      ∙ rw (f, police_unseen now old at) refl

  find-policed :
      (now seen : ℕ) (e : AttachedInstanceStateEngine V) (j : String) (old : InstanceRecord V)
      → find_record j e.registry_store ≡ some old
      → last_seen old.observed.health.last_seen_at ≡ some seen
      → find_record j (evaluate_lifecycle_policy now e).registry_store
        ≡ some (age_record (now - seen) old)
  unfolding evaluate_lifecycle_policy find_record
  find-policed now seen e j old f at =
      find-map (police_record now) (police_id now) j e.registry_store.instances
      ∙ rw (f, police_seen now seen old at) refl

  -- The policy depends only on the latest time: an evaluation at an earlier time makes no
  -- difference to what a later one leaves. Of a record with a readable time of the last sighting it
  -- changes at most the status, the readiness and the freshness. From 1800 seconds on the record is
  -- abandoned and not ready. From 300 seconds on until then it is stale and not ready, and its status
  -- is lost if it was ready, and otherwise as it was. Before that it is fresh, with its readiness and
  -- its status as they were. A record without such a time stays as it was. And nothing but the
  -- registry is changed.
  pub evaluate_lifecycle_policy_lem :
      (now later : ℕ) (e : AttachedInstanceStateEngine V)
      → now ≤ later
      → let after = evaluate_lifecycle_policy now e in
        (evaluate_lifecycle_policy later after ≡ evaluate_lifecycle_policy later e)
        × ((j : String) (old : InstanceRecord V) (seen : ℕ)
            → find_record j e.registry_store ≡ some old
            → last_seen old.observed.health.last_seen_at ≡ some seen
            → (r : InstanceRecord V) × (find_record j after.registry_store ≡ some r)
              × IsPoliced (now - seen) old r)
        × ((j : String) (old : InstanceRecord V)
            → find_record j e.registry_store ≡ some old
            → last_seen old.observed.health.last_seen_at ≡ none
            → find_record j after.registry_store ≡ some old)
        × (after ≡ record e { registry_store = after.registry_store })
  unfolding evaluate_lifecycle_policy
  evaluate_lifecycle_policy_lem now later e h = (
    rw (map_again now later e.registry_store.instances h) refl,
    λ j old seen f at. (
      age_record (now - seen) old,
      find-policed now seen e j old f at,
      age_record-IsPoliced (now - seen) old,
    ),
    λ j old f at. find-unpoliced now e j old f at,
    refl,
  )
