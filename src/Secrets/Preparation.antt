-- ===== src/Secrets/Preparation.antt =====
-- Worker launches with secrets: auspex-core/src/secret_orchestration.rs.
use auspex.Prelude.{
  String, Bool, true, false, Option, none, some, List, [], ◌∷◌, ◌++◌, if◌then◌else◌, Action, ◌>>=◌,
  pure, raise, concat, is_empty, is_ascii_alphanumeric, to_ascii_lowercase, map_chars,
  trim_matches_char,
}
use Prim.Native.Char.{Char}
use auspex.Secrets.Grant.{
  SecretDeliveryMode, SecretGrant, SecretGrantError, SecretGrantPrincipal, SecretGrantStatus,
  SecretGrantStore, SecretLease, SecretLeasePolicy, SecretRedeemRequest, SecretRedeemResponse,
  SecretSeedPlan, default_lease_policy, invalid_request, kubernetes_external_secret,
  local_store_import, new_grant, pull_after_enroll, styrene_identity,
}
use auspex.Secrets.Broker.{Turn, create_grant, redeem_grant, renew_lease, revoke_lease}
use auspex.Worker.{
  BackendKind, InstantiateRequest, WorkerRole, primary_driver, supervised_child, detached_service,
  local_process, local_detached, oci_container, kubernetes,
}

-- The trait `SecretGrantBroker`, on a broker with the state `S`.
pub record SecretGrantBroker (S V : Type 0) : Type 0 where
  pub create : SecretGrant → Action S SecretGrantError SecretGrant
  pub redeem : SecretRedeemRequest → Action S SecretGrantError (SecretRedeemResponse V)
  pub renew : String → Action S SecretGrantError SecretLease
  pub revoke : String → Action S SecretGrantError SecretLease

-- The broker with a file, whose call of `create` meets one turn and whose later calls the next.
abbrev pub file_broker : {V : Type 0} → Turn → Turn → SecretGrantBroker SecretGrantStore V
file_broker turn next = record {
  create = create_grant turn;
  redeem = redeem_grant next;
  renew = renew_lease next;
  revoke = revoke_lease next;
}

pub record PreparedWorkerSecurity (V : Type 0) : Type 0 where
  pub request : InstantiateRequest
  pub grant : SecretGrant
  pub seed_plan : SecretSeedPlan V
  pub lease : SecretLease

pub record PrepareWorkerSecurityOptions : Type 0 where
  pub delivery_mode : SecretDeliveryMode
  pub lease_policy : SecretLeasePolicy
  pub grant_id : Option String
  pub principal : Option SecretGrantPrincipal
  pub package_digest : Option String
  pub image_digest : Option String
  pub placement_id : Option String
  pub audit_correlation_id : Option String
  pub requested_by : Option String
  pub approved_by : Option String
  pub reason : Option String

-- `PrepareWorkerSecurityOptions::default`
abbrev pub default_options : PrepareWorkerSecurityOptions
default_options = record {
  delivery_mode = pull_after_enroll;
  lease_policy = default_lease_policy;
  grant_id = none;
  principal = none;
  package_digest = none;
  image_digest = none;
  placement_id = none;
  audit_correlation_id = none;
  requested_by = none;
  approved_by = none;
  reason = none;
}

abbrev underscore : Char → Char
underscore c = Char.char 95 tt

principal_char : Char → Char
principal_char c = if is_ascii_alphanumeric c then to_ascii_lowercase c else underscore c

unfoldable pub sanitize_principal_component : String → String
unfolding principal_char is_ascii_alphanumeric to_ascii_lowercase map_chars trim_matches_char
sanitize_principal_component value =
    let trimmed = trim_matches_char 95 (map_chars principal_char value) in
    if is_empty trimmed then "unknown" else trimmed

-- `{:?}` of a role and of a backend, in lower case
role_name : WorkerRole → String
role_name primary_driver = "primarydriver"
role_name supervised_child = "supervisedchild"
role_name detached_service = "detachedservice"

backend_name : BackendKind → String
backend_name local_process = "localprocess"
backend_name local_detached = "localdetached"
backend_name oci_container = "ocicontainer"
backend_name kubernetes = "kubernetes"

unfoldable pub default_principal_for_request : InstantiateRequest → SecretGrantPrincipal
unfolding role_name sanitize_principal_component
default_principal_for_request request = record {
  kind = styrene_identity;
  id = concat (
      "styrene://auspex/"
      ∷ role_name request.role
      ∷ "/"
      ∷ sanitize_principal_component request.workspace.workspace_id
      ∷ []);
  display_name = none;
}

unfoldable pub default_grant_id : InstantiateRequest → String
unfolding role_name sanitize_principal_component
default_grant_id request = concat (
    "grant_"
    ∷ role_name request.role
    ∷ "_"
    ∷ sanitize_principal_component request.profile
    ∷ "_"
    ∷ sanitize_principal_component request.workspace.workspace_id
    ∷ [])

unfoldable pub default_delivery_mode_for_backend : BackendKind → SecretDeliveryMode
default_delivery_mode_for_backend kubernetes = kubernetes_external_secret
default_delivery_mode_for_backend oci_container = local_store_import
default_delivery_mode_for_backend local_process = pull_after_enroll
default_delivery_mode_for_backend local_detached = pull_after_enroll

abbrev or_else {ℓ} : {A : Type ℓ} → Option A → A → A
or_else (some a) b = a
or_else none b = b

unfoldable pub principal_of :
    InstantiateRequest → PrepareWorkerSecurityOptions → SecretGrantPrincipal
unfolding default_principal_for_request
principal_of request options =
    or_else options.principal
      (or_else request.security.principal (default_principal_for_request request))

unfoldable pub grant_id_of : InstantiateRequest → PrepareWorkerSecurityOptions → String
unfolding default_grant_id
grant_id_of request options = or_else options.grant_id (default_grant_id request)

-- The grant that a launch asks for.
unfoldable pub launch_grant : InstantiateRequest → PrepareWorkerSecurityOptions → SecretGrant
unfolding principal_of grant_id_of new_grant role_name backend_name
launch_grant request options =
    record (new_grant (grant_id_of request options) (principal_of request options)) {
      secret_refs = request.security.secret_refs;
      allowed_delivery_modes = options.delivery_mode ∷ [];
      constraints = record {
        agent_instance_id = none;
        role = some (role_name request.role);
        backend = some (backend_name request.backend);
        placement_id = options.placement_id;
        image_digest = options.image_digest;
        package_digest = options.package_digest;
      };
      lease_policy = options.lease_policy;
      approval = record {
        requested_by = options.requested_by;
        approved_by = options.approved_by;
        audit_correlation_id = options.audit_correlation_id;
        reason = options.reason;
      };
      status = SecretGrantStatus.active;
    }

unfoldable pub launch_redemption :
    InstantiateRequest → PrepareWorkerSecurityOptions → SecretGrant → SecretRedeemRequest
unfolding principal_of
launch_redemption request options grant = record {
  grant_id = grant.grant_id;
  principal = principal_of request options;
  requested_delivery_mode = options.delivery_mode;
  observed = record {
    agent_instance_id = none;
    placement_id = options.placement_id;
    package_digest = options.package_digest;
    image_digest = options.image_digest;
  };
}

abbrev pub bind_security :
    InstantiateRequest → SecretGrantPrincipal → String → String → InstantiateRequest
bind_security request principal grant_id plan_id = record request {
  security = record request.security {
    principal = some principal;
    grant_ids = request.security.grant_ids ++ grant_id ∷ [];
    seed_plan_ids = request.security.seed_plan_ids ++ plan_id ∷ [];
  };
}

abbrev pub is_nil : List String → Bool
is_nil [] = true
is_nil (x ∷ xs) = false

module _ {S V : Type 0} where
  unfoldable pub prepare_worker_security :
      SecretGrantBroker S V
      → InstantiateRequest
      → PrepareWorkerSecurityOptions
      → Action S SecretGrantError (PreparedWorkerSecurity V)
  unfolding launch_grant launch_redemption principal_of
  prepare_worker_security broker request options =
      if is_nil request.security.secret_refs
      then raise (invalid_request "worker request has no secret refs to grant")
      else do
        grant ← broker.create (launch_grant request options)
        response ← broker.redeem (launch_redemption request options grant)
        pure (record {
          request =
              bind_security request (principal_of request options) grant.grant_id
                response.seed_plan.plan_id;
          grant = grant;
          seed_plan = response.seed_plan;
          lease = response.lease;
        })
