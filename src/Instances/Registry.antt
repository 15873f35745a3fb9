-- ===== src/Instances/Registry.antt =====
-- The registry of instances: auspex-core/src/instance_registry.rs. What is read from and written to
-- the file is I/O.
pub mod View
pub mod Rehydration
use auspex.Prelude.{
  ℕ, suc, ◌+◌, ◌≡◌, ◌↔◌, ◌⊎◌, inl, inr, refl, sym, ap, ◌∙◌, String, Bool, true, false, not, ◌&&◌,
  ◌||◌, ◌<◌, Option, none, some, List, [], ◌∷◌, ◌++◌, map, arith, any, find, retain, length, str_eq,
  eq_iff, eq_refl, if◌then◌else◌, Bool-cases, Option-cases, ltb,
}
use auspex.Worker.{
  BackendKind, OwnerKind, WorkerLifecycleState, auspex_session, external, local_process, degraded,
  owner_kind_eq,
}
use auspex.Instances.Record.{
  InstanceRecord, InstanceFreshness, ObservedHealth, ObservedWorkerState, WorkerIdentity, stale,
}

pub record InstanceRegistryStore (V : Type 0) : Type 0 where
  pub schema_version : ℕ
  pub instances : List (InstanceRecord V)

abbrev is_local_process : BackendKind → Bool
is_local_process local_process = true
is_local_process _ = false

-- Ready and busy: what is degraded when it is read back.
abbrev pub is_live : WorkerLifecycleState → Bool
is_live WorkerLifecycleState.ready = true
is_live WorkerLifecycleState.busy = true
is_live _ = false

module _ {V : Type 0} where
  -- `InstanceRegistryStore::default`
  abbrev pub new_registry : InstanceRegistryStore V
  new_registry = record { schema_version = 1; instances = [] }

  abbrev pub has_id : String → InstanceRecord V → Bool
  has_id instance_id r = str_eq r.identity.instance_id instance_id

  -- The first record with the id of the new one is replaced, and without such a record the new one
  -- is pushed.
  unfoldable pub put_record : InstanceRecord V → List (InstanceRecord V) → List (InstanceRecord V)
  put_record r [] = r ∷ []
  put_record r (x ∷ xs) = if has_id r.identity.instance_id x then r ∷ xs else x ∷ put_record r xs

  unfoldable pub upsert : InstanceRecord V → InstanceRegistryStore V → InstanceRegistryStore V
  unfolding put_record
  upsert r store = record store { instances = put_record r store.instances }

  unfoldable pub remove : String → InstanceRegistryStore V → Bool × InstanceRegistryStore V
  remove instance_id store =
      let kept = retain (λ r. not (has_id instance_id r)) store.instances in
      (ltb (length kept) (length store.instances), record store { instances = kept })

  unfoldable pub find_record : String → InstanceRegistryStore V → Option (InstanceRecord V)
  find_record instance_id store = find (has_id instance_id) store.instances

  abbrev pub is_external_local : InstanceRecord V → Bool
  is_external_local r =
      owner_kind_eq r.ownership.owner_kind external && is_local_process r.desired.backend.kind

  -- The body of the loop of `stale_rehydrated`
  unfoldable pub rehydrate_record : InstanceRecord V → InstanceRecord V
  rehydrate_record r =
      if is_external_local r
      then record r {
        identity =
            if is_live r.identity.status
            then record r.identity { status = degraded }
            else r.identity;
        observed = record r.observed {
          health = record r.observed.health { ready = false; freshness = some stale };
        };
      }
      else r

  unfoldable pub stale_rehydrated : InstanceRegistryStore V → InstanceRegistryStore V
  unfolding rehydrate_record
  stale_rehydrated store = record store { instances = map rehydrate_record store.instances }
