-- ===== src/Secrets/Grant.antt =====
-- What may be granted, to whom, and how: the types of auspex-core/src/secret_grants.rs.
use auspex.Prelude.{
  ℕ, String, Bool, true, false, ◌&&◌, Option, none, List, [], any, find, str_eq, option_str_eq,
}

pub data SecretPrincipalKind : Type 0 where
  spiffe styrene_identity kubernetes_service_account ssh_host oidc_subject opaque :
      SecretPrincipalKind

pub record SecretGrantPrincipal : Type 0 where
  pub kind : SecretPrincipalKind
  pub id : String
  pub display_name : Option String

pub data SecretDeliveryMode : Type 0 where
  open_bao_lease vault_compatible_lease kubernetes_external_secret kubernetes_secret_mount :
      SecretDeliveryMode
  secrets_store_csi_mount local_store_import sealed_bootstrap_bundle pull_after_enroll :
      SecretDeliveryMode

pub data SecretGrantStatus : Type 0 where
  pending active redeemed expired revoked denied : SecretGrantStatus

pub data SecretLeaseStatus : Type 0 where
  active renewing expired revoked : SecretLeaseStatus

pub record SecretGrantConstraints : Type 0 where
  pub agent_instance_id : Option String
  pub role : Option String
  pub backend : Option String
  pub placement_id : Option String
  pub image_digest : Option String
  pub package_digest : Option String

pub record SecretLeasePolicy : Type 0 where
  pub ttl_seconds : ℕ
  pub renewable : Bool
  pub max_ttl_seconds : Option ℕ
  pub max_renewals : Option ℕ

pub record SecretGrantApproval : Type 0 where
  pub requested_by : Option String
  pub approved_by : Option String
  pub audit_correlation_id : Option String
  pub reason : Option String

pub record SecretGrant : Type 0 where
  pub schema_version : ℕ
  pub grant_id : String
  pub principal : SecretGrantPrincipal
  pub secret_refs : List String
  pub allowed_delivery_modes : List SecretDeliveryMode
  pub constraints : SecretGrantConstraints
  pub lease_policy : SecretLeasePolicy
  pub approval : SecretGrantApproval
  pub status : SecretGrantStatus

pub record SealedBootstrapBundleDescriptor : Type 0 where
  pub bundle_id : String
  pub agent_instance_id : String
  pub enrollment_endpoint : String
  pub ca_bundle_ref : String
  pub expected_server_identity : String
  pub package_digest : Option String
  pub image_digest : Option String
  pub one_time_token_ref : String
  pub sealed_payload_ref : Option String
  pub expires_at : String
  pub replay_guard : String

-- A backend's manifest is a `serde_json::Value`, whose type `V` is a parameter.
pub record SecretSeedPlan (V : Type 0) : Type 0 where
  pub plan_id : String
  pub grant_id : String
  pub delivery_mode : SecretDeliveryMode
  pub secret_refs : List String
  pub bootstrap_bundle : Option SealedBootstrapBundleDescriptor
  pub backend_manifest : Option V

pub record SecretLease : Type 0 where
  pub lease_id : String
  pub grant_id : String
  pub principal : SecretGrantPrincipal
  pub secret_refs : List String
  pub status : SecretLeaseStatus
  pub issued_at : String
  pub expires_at : String
  pub renewable : Bool
  pub renewal_count : ℕ
  pub backend_lease_ref : Option String
  pub rotation_generation : Option ℕ

pub record SecretRedeemObservation : Type 0 where
  pub agent_instance_id : Option String
  pub placement_id : Option String
  pub package_digest : Option String
  pub image_digest : Option String

pub record SecretRedeemRequest : Type 0 where
  pub grant_id : String
  pub principal : SecretGrantPrincipal
  pub requested_delivery_mode : SecretDeliveryMode
  pub observed : SecretRedeemObservation

pub record SecretRedeemResponse (V : Type 0) : Type 0 where
  pub lease : SecretLease
  pub seed_plan : SecretSeedPlan V

pub data SecretGrantError : Type 0 where
  not_found denied invalid_request backend : String → SecretGrantError

pub record SecretGrantStore : Type 0 where
  pub schema_version : ℕ
  pub grants : List SecretGrant
  pub leases : List SecretLease

-- `==` on the types of this file, as it is derived.
abbrev pub principal_kind_eq : SecretPrincipalKind → SecretPrincipalKind → Bool
principal_kind_eq spiffe spiffe = true
principal_kind_eq styrene_identity styrene_identity = true
principal_kind_eq kubernetes_service_account kubernetes_service_account = true
principal_kind_eq ssh_host ssh_host = true
principal_kind_eq oidc_subject oidc_subject = true
principal_kind_eq opaque opaque = true
principal_kind_eq _ _ = false

unfoldable pub principal_eq : SecretGrantPrincipal → SecretGrantPrincipal → Bool
principal_eq p q =
    principal_kind_eq p.kind q.kind
    && str_eq p.id q.id
    && option_str_eq p.display_name q.display_name

abbrev pub delivery_mode_eq : SecretDeliveryMode → SecretDeliveryMode → Bool
delivery_mode_eq open_bao_lease open_bao_lease = true
delivery_mode_eq vault_compatible_lease vault_compatible_lease = true
delivery_mode_eq kubernetes_external_secret kubernetes_external_secret = true
delivery_mode_eq kubernetes_secret_mount kubernetes_secret_mount = true
delivery_mode_eq secrets_store_csi_mount secrets_store_csi_mount = true
delivery_mode_eq local_store_import local_store_import = true
delivery_mode_eq sealed_bootstrap_bundle sealed_bootstrap_bundle = true
delivery_mode_eq pull_after_enroll pull_after_enroll = true
delivery_mode_eq _ _ = false

abbrev pub is_grant_active : SecretGrantStatus → Bool
is_grant_active SecretGrantStatus.active = true
is_grant_active _ = false

abbrev pub is_grant_redeemed : SecretGrantStatus → Bool
is_grant_redeemed redeemed = true
is_grant_redeemed _ = false

abbrev pub is_lease_active : SecretLeaseStatus → Bool
is_lease_active SecretLeaseStatus.active = true
is_lease_active _ = false

abbrev pub secret_grant_schema_version : ℕ
secret_grant_schema_version = 1

abbrev pub secret_grant_store_schema_version : ℕ
secret_grant_store_schema_version = 1

-- `SecretLeasePolicy::default`
abbrev pub default_lease_policy : SecretLeasePolicy
default_lease_policy = record {
  ttl_seconds = 900;
  renewable = false;
  max_ttl_seconds = none;
  max_renewals = none;
}

-- `SecretGrant::new`
unfoldable pub new_grant : String → SecretGrantPrincipal → SecretGrant
new_grant grant_id principal = record {
  schema_version = secret_grant_schema_version;
  grant_id = grant_id;
  principal = principal;
  secret_refs = [];
  allowed_delivery_modes = [];
  constraints = record {
    agent_instance_id = none;
    role = none;
    backend = none;
    placement_id = none;
    image_digest = none;
    package_digest = none;
  };
  lease_policy = default_lease_policy;
  approval = record {
    requested_by = none;
    approved_by = none;
    audit_correlation_id = none;
    reason = none;
  };
  status = pending;
}

unfoldable pub allows_delivery_mode : SecretGrant → SecretDeliveryMode → Bool
allows_delivery_mode grant mode =
    is_grant_active grant.status && any (delivery_mode_eq mode) grant.allowed_delivery_modes

-- `SecretGrantStore::default`
abbrev pub new_store : SecretGrantStore
new_store = record { schema_version = secret_grant_store_schema_version; grants = []; leases = [] }

unfoldable pub find_grant : String → SecretGrantStore → Option SecretGrant
find_grant grant_id store = find (λ grant. str_eq grant.grant_id grant_id) store.grants

unfoldable pub find_lease : String → SecretGrantStore → Option SecretLease
find_lease lease_id store = find (λ lease. str_eq lease.lease_id lease_id) store.leases
