-- ===== src/Examples/Secrets.antt =====
-- The theorems on secret grants and launches, at concrete inputs.
use auspex.Prelude.{
  ◌≡◌, refl, String, true, false, none, some, List, [], ◌∷◌, ok, err, trim, concat, to_decimal,
}
use auspex.Secrets.Grant.{
  SecretGrant, SecretGrantError, SecretGrantPrincipal, SecretGrantStatus, SecretGrantStore,
  SecretRedeemRequest, find_grant, find_lease, new_store, open_bao_lease, spiffe,
}
use auspex.Secrets.Broker.{Turn, renew_lease, revoke_lease, new_lease}
use auspex.Secrets.Outcomes.{RedeemOutcome, redeem_grant_cases}
use auspex.Secrets.Soundness.{IsSound}
use auspex.Secrets.History.{
  BrokerCall, calls, create, new_store-calls-IsSound, redeem, renew, revoke,
}
use auspex.Secrets.Revocation.{IsRevoked, revoke_lease_final}
use auspex.Secrets.Preparation.{
  PreparedWorkerSecurity, bind_security, default_options, file_broker, grant_id_of,
  prepare_worker_security, principal_of,
}
use auspex.Secrets.Launch.{IsNamed, prepare_worker_security_ok, status_in}
use auspex.Worker.{InstantiateRequest, supervised_child, local_detached}

abbrev agent : SecretGrantPrincipal
agent = record { kind = spiffe; id = "spiffe://agents/primary"; display_name = none }

abbrev grant : SecretGrant
grant = record {
  schema_version = 1;
  grant_id = "grant_01";
  principal = agent;
  secret_refs = "provider" ∷ "release" ∷ [];
  allowed_delivery_modes = open_bao_lease ∷ [];
  constraints = record {
    agent_instance_id = none;
    role = none;
    backend = none;
    placement_id = some "pod-1";
    image_digest = none;
    package_digest = none;
  };
  lease_policy = record {
    ttl_seconds = 60;
    renewable = true;
    max_ttl_seconds = none;
    max_renewals = some 1;
  };
  approval = record {
    requested_by = none;
    approved_by = none;
    audit_correlation_id = none;
    reason = none;
  };
  status = SecretGrantStatus.active;
}

abbrev redemption : SecretRedeemRequest
redemption = record {
  grant_id = "grant_01";
  principal = agent;
  requested_delivery_mode = open_bao_lease;
  observed = record {
    agent_instance_id = none;
    placement_id = some "pod-1";
    package_digest = none;
    image_digest = none;
  };
}

abbrev turn : Turn
turn = record { poisoned = false; now = 1800; path = "/grants.json"; write = λ store. ok tt }

abbrev granted_store : SecretGrantStore
granted_store = record new_store { grants = grant ∷ [] }

abbrev leased_store : SecretGrantStore
leased_store = record granted_store { leases = new_lease turn grant granted_store ∷ [] }

-- The second redemption and the second renewal are refused.
abbrev history : List BrokerCall
history =
    create turn grant
    ∷ redeem turn redemption
    ∷ redeem turn redemption
    ∷ renew turn "lease_grant_01_1"
    ∷ renew turn "lease_grant_01_1"
    ∷ revoke turn "lease_grant_01_1"
    ∷ []

new_store-calls-IsSound_example : IsSound (calls history new_store)
new_store-calls-IsSound_example = new_store-calls-IsSound history

redeem_grant_cases_example : RedeemOutcome String turn redemption granted_store
redeem_grant_cases_example = redeem_grant_cases {V = String} turn redemption granted_store

revoke_lease_final_example :
    let s' = calls history (revoke_lease turn "lease_grant_01_1" leased_store).1 in
    IsRevoked "lease_grant_01_1" s'
    × ((e : SecretGrantError) × (renew_lease turn "lease_grant_01_1" s' ≡ (err e, s')))
unfolding find_lease new_lease concat to_decimal
revoke_lease_final_example =
    revoke_lease_final turn "lease_grant_01_1" leased_store (new_lease turn grant granted_store)
      refl refl history turn

abbrev launch : InstantiateRequest
launch = record {
  schema_version = 1;
  role = supervised_child;
  profile = "cheap-subtask";
  backend = local_detached;
  workspace = record { cwd = "/repo"; workspace_id = "repo:demo"; branch = none };
  parent_instance_id = none;
  task = none;
  overrides = record {
    provider = none;
    model = none;
    thinking_level = none;
    max_runtime_seconds = none;
    max_cost_usd = none;
    image = none;
    namespace = none;
    resources = none;
    tool_policy = none;
    memory_mode = none;
  };
  security = record {
    principal = none;
    secret_refs = "provider" ∷ [];
    grant_ids = [];
    seed_plan_ids = [];
  };
  propagation = none;
}

default_grant_id_example :
    grant_id_of launch default_options ≡ "grant_supervisedchild_cheap_subtask_repo_demo"
unfolding grant_id_of concat
default_grant_id_example = refl

launch_IsNamed : IsNamed launch default_options
unfolding grant_id_of principal_of trim concat
launch_IsNamed = record { grant_id = refl; principal_id = refl }

prepare_worker_security_ok_example :
    (p : PreparedWorkerSecurity String) × (s' : SecretGrantStore) × (prepare_worker_security
        (file_broker turn turn)
        launch
        default_options
        new_store
      ≡ (ok p, s'))
    × (p.lease.secret_refs ≡ launch.security.secret_refs)
    × (p.lease.principal ≡ principal_of launch default_options)
    × (p.lease.grant_id ≡ grant_id_of launch default_options)
    × (p.seed_plan.delivery_mode ≡ default_options.delivery_mode)
    × (p.request
        ≡ bind_security launch
            (principal_of launch default_options)
            (grant_id_of launch default_options)
            p.seed_plan.plan_id)
    × (status_in (find_grant (grant_id_of launch default_options) s')
        ≡ some SecretGrantStatus.redeemed)
unfolding find_grant
prepare_worker_security_ok_example =
    prepare_worker_security_ok launch default_options turn turn new_store (λ e. cc) launch_IsNamed
      refl refl refl (λ store. refl) (λ store. refl)
