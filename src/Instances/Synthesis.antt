-- ===== src/Instances/Synthesis.antt =====
-- The record that an attached instance leaves in the registry: auspex-core/src/state_engine.rs.
use auspex.Prelude.{
  String, Bool, true, false, Option, none, some, List, [], ◌∷◌, map, any, str_eq, if◌then◌else◌,
}
use auspex.Worker.{WorkerLifecycleState, auspex_session, local_process}
use auspex.Instances.Record.{InstanceRecord, fresh}
use auspex.Instances.Registry.{InstanceRegistryStore, put_record}
use auspex.Instances.Attached.{AttachedInstanceRecord, infer_worker_role, owner_of}

abbrev or_else {ℓ} : {A : Type ℓ} → Option A → Option A → Option A
or_else none b = b
or_else (some a) b = some a

abbrev base_url_or : Option String → String → String
base_url_or none old = old
base_url_or (some base_url) old = base_url

module _ {V : Type 0} where
  -- The record of an instance that the registry does not know.
  unknown_record : AttachedInstanceRecord V → InstanceRecord V
  unfolding infer_worker_role owner_of
  unknown_record attached = record {
    schema_version = 1;
    identity = record {
      instance_id = attached.instance_id;
      role = infer_worker_role attached;
      profile = attached.profile;
      raw_role = none;
      raw_profile = none;
      raw_runtime_profile = none;
      status = WorkerLifecycleState.ready;
      created_at = "";
      updated_at = "";
    };
    ownership = record {
      owner_kind = auspex_session;
      owner_id = owner_of attached.session_key;
      parent_instance_id = none;
    };
    desired = record {
      backend = record { kind = local_process; image = none; namespace = none; resources = none };
      workspace = record { cwd = ""; workspace_id = ""; branch = none };
      task = none;
      policy = record {
        provider = none;
        model = none;
        thinking_level = none;
        context_class = none;
        tool_policy = none;
        memory_mode = none;
        max_runtime_seconds = none;
        max_cost_usd = none;
      };
      security = record { principal = none; secret_refs = []; grant_ids = []; seed_plan_ids = [] };
    };
    observed = record {
      placement = record {
        placement_id = "";
        host = "";
        pid = none;
        namespace = none;
        pod_name = none;
        container_name = none;
      };
      control_plane = record {
        schema_version = 0;
        omegon_version = "";
        base_url = "";
        startup_url = "";
        health_url = "";
        ready_url = "";
        ws_url = "";
        acp_url = none;
        auth_mode = "";
        token_ref = none;
        transport_security = none;
        mtls = none;
        tls_secret = none;
        tls_profile = none;
        tls_ca_epoch = none;
        tls_leaf_epoch = none;
        tls_leaf_validity = none;
        ca_fingerprint_sha256 = none;
        server_fingerprint_sha256 = none;
        last_ready_at = none;
      };
      health = record {
        ready = true;
        degraded_reason = none;
        last_heartbeat_at = none;
        last_seen_at = none;
        freshness = some fresh;
      };
      exit = record { exited = false; exit_code = none; exit_reason = none; exited_at = none };
      compatibility = none;
      operational_profile = none;
      capabilities = none;
    };
  }

  known_or_new : AttachedInstanceRecord V → InstanceRecord V
  unfolding unknown_record
  known_or_new attached = elim attached.registry_record [
    | some r ↦ r
    | none ↦ unknown_record attached
  ]

  unfoldable pub synthesize_instance_record : AttachedInstanceRecord V → InstanceRecord V
  unfolding known_or_new infer_worker_role owner_of
  synthesize_instance_record attached =
      let r = known_or_new attached in
      record r {
        identity = record r.identity {
          instance_id = attached.instance_id;
          role = infer_worker_role attached;
          profile = attached.profile;
          status = WorkerLifecycleState.ready;
        };
        ownership = record r.ownership {
          owner_kind = auspex_session;
          owner_id = owner_of attached.session_key;
        };
        desired = record r.desired { policy = record r.desired.policy { model = attached.model } };
        observed = record r.observed {
          health = record r.observed.health {
            ready = true;
            freshness = some fresh;
            last_seen_at =
                or_else r.observed.health.last_seen_at r.observed.health.last_heartbeat_at;
          };
          control_plane = record r.observed.control_plane {
            base_url = base_url_or attached.base_url r.observed.control_plane.base_url;
          };
        };
      }

  abbrev pub is_attached : String → AttachedInstanceRecord V → Bool
  is_attached instance_id attached = str_eq attached.instance_id instance_id

  -- The first loop of `merge_attached_instances_into_registry`
  unfoldable pub put_attached :
      List (AttachedInstanceRecord V) → List (InstanceRecord V) → List (InstanceRecord V)
  unfolding put_record synthesize_instance_record
  put_attached [] records = records
  put_attached (attached ∷ rest) records =
      put_attached rest (put_record (synthesize_instance_record attached) records)

  -- The body of its second loop
  unfoldable pub refresh_record :
      List (AttachedInstanceRecord V) → InstanceRecord V → InstanceRecord V
  refresh_record attached r =
      if any (is_attached r.identity.instance_id) attached
      then record r {
        observed = record r.observed {
          health = record r.observed.health {
            freshness = some fresh;
            last_seen_at =
                or_else r.observed.health.last_seen_at r.observed.health.last_heartbeat_at;
          };
        };
      }
      else r

  unfoldable pub merge_attached_instances_into_registry :
      InstanceRegistryStore V → List (AttachedInstanceRecord V) → InstanceRegistryStore V
  unfolding put_attached refresh_record
  merge_attached_instances_into_registry store attached = record store {
    instances = map (refresh_record attached) (put_attached attached store.instances);
  }
