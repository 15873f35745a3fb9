-- ===== src/Secrets/Broker.antt =====
-- `FileSecretGrantBroker` of auspex-core/src/secret_grants.rs.
use auspex.Prelude.{
  ℕ, ◌+◌, min, String, Bool, false, ◌||◌, not, Option, none, some, [], ◌∷◌, ◌++◌, Result, ok, err,
  Action, ◌>>=◌, ◌>>◌, lift, pure, map_err, ok_or, fail_if, and_then, modify_first, count, str_eq,
  trim, is_empty, ◌==◌, leb, if◌then◌else◌, concat, to_decimal,
}
use auspex.Secrets.Grant.{
  SecretGrant, SecretGrantConstraints, SecretGrantError, SecretGrantStatus, SecretGrantStore,
  SecretDeliveryMode, SecretLease, SecretLeasePolicy, SecretLeaseStatus, SecretRedeemRequest,
  SecretRedeemResponse, SecretSeedPlan, allows_delivery_mode, backend, denied, find_grant,
  find_lease, SecretRedeemObservation, invalid_request, is_grant_active, is_lease_active, not_found,
  principal_eq, secret_grant_schema_version, kubernetes_external_secret, kubernetes_secret_mount,
  local_store_import, open_bao_lease, pull_after_enroll, sealed_bootstrap_bundle,
  secrets_store_csi_mount, vault_compatible_lease,
}

-- What a call meets: whether the lock is poisoned, the time, the broker's path as it is displayed,
-- and what the file system answers to a write of the store, with the error as the code words it.
pub record Turn : Type 0 where
  pub poisoned : Bool
  pub now : ℕ
  pub path : String
  pub write : SecretGrantStore → Result String (Unit {0})

abbrev pub Brokered : Type 0 → Type 0
Brokered = Action SecretGrantStore SecretGrantError

abbrev u32_max : ℕ
u32_max = 4294967295

abbrev u64_max : ℕ
u64_max = 18446744073709551615

unfoldable pub lock_store : Turn → Brokered (Unit {0})
lock_store turn = lift (fail_if turn.poisoned (backend "secret grant store lock poisoned") (ok tt))

unfoldable pub persist_locked : Turn → Brokered (Unit {0})
persist_locked turn store = (map_err backend (turn.write store), store)

module _ {A : Type 0} where
  -- A read of the store behind the lock.
  abbrev read_store : (SecretGrantStore → A) → Brokered A
  read_store f store = (ok (f store), store)

  abbrev read_or_fail : (SecretGrantStore → Result SecretGrantError A) → Brokered A
  read_or_fail f store = (f store, store)

-- A write of the store behind the lock.
abbrev write_store : (SecretGrantStore → SecretGrantStore) → Brokered (Unit {0})
write_store f store = (ok tt, f store)

-- The checks of `create_grant` that come before the lock.
unfoldable pub validate_new_grant : SecretGrant → Result SecretGrantError (Unit {0})
validate_new_grant grant =
    if not (grant.schema_version == secret_grant_schema_version)
    then err (
        invalid_request (
          concat
            ("unsupported secret grant schema version " ∷ to_decimal grant.schema_version ∷ [])))
    else if is_empty (trim grant.grant_id)
    then err (invalid_request "secret grant id must not be empty")
    else if is_empty (trim grant.principal.id)
    then err (invalid_request "secret grant principal id must not be empty")
    else ok tt

abbrev pub add_grant : SecretGrant → SecretGrantStore → SecretGrantStore
add_grant grant store = record store { grants = store.grants ++ grant ∷ [] }

unfoldable pub create_grant : Turn → SecretGrant → Brokered SecretGrant
unfolding lock_store persist_locked validate_new_grant find_grant
create_grant turn grant = do
  lift (validate_new_grant grant)
  lock_store turn
  read_or_fail (λ store. elim (find_grant grant.grant_id store) [
    | some old ↦
        err (invalid_request (concat ("secret grant " ∷ grant.grant_id ∷ " already exists" ∷ [])))
    | none ↦ ok tt
  ])
  write_store (add_grant grant)
  persist_locked turn
  pure grant

-- `check_constraint`
unfoldable pub check_constraint :
    String → Option String → Option String → Result SecretGrantError (Unit {0})
check_constraint label (some expected) (some observed) =
    if str_eq expected observed
    then ok tt
    else err (
        denied (
          concat
            (label ∷ " constraint mismatch: expected " ∷ expected ∷ ", observed " ∷ observed ∷ [])))
check_constraint label (some expected) none =
    err (denied (concat (label ∷ " constraint missing: expected " ∷ expected ∷ [])))
check_constraint label none _ = ok tt

-- `{:?}` of a delivery mode
delivery_mode_debug : SecretDeliveryMode → String
delivery_mode_debug open_bao_lease = "OpenBaoLease"
delivery_mode_debug vault_compatible_lease = "VaultCompatibleLease"
delivery_mode_debug kubernetes_external_secret = "KubernetesExternalSecret"
delivery_mode_debug kubernetes_secret_mount = "KubernetesSecretMount"
delivery_mode_debug secrets_store_csi_mount = "SecretsStoreCsiMount"
delivery_mode_debug local_store_import = "LocalStoreImport"
delivery_mode_debug sealed_bootstrap_bundle = "SealedBootstrapBundle"
delivery_mode_debug pull_after_enroll = "PullAfterEnroll"

unfoldable pub check_constraints :
    SecretGrantConstraints → SecretRedeemObservation → Result SecretGrantError (Unit {0})
unfolding check_constraint
check_constraints constraints observed =
    and_then
      (check_constraint "agent instance" constraints.agent_instance_id observed.agent_instance_id)
      λ _.
        and_then (check_constraint "placement" constraints.placement_id observed.placement_id) λ _.
          and_then
            (check_constraint "package digest" constraints.package_digest observed.package_digest)
            λ _. check_constraint "image digest" constraints.image_digest observed.image_digest

unfoldable pub validate_redeem_request :
    SecretGrant → SecretRedeemRequest → Result SecretGrantError (Unit {0})
unfolding check_constraints allows_delivery_mode principal_eq delivery_mode_debug
validate_redeem_request grant request =
    if not (is_grant_active grant.status)
    then err (denied (concat ("secret grant " ∷ grant.grant_id ∷ " is not active" ∷ [])))
    else if not (principal_eq grant.principal request.principal)
    then err (
        denied (
          concat
            ("principal " ∷ request.principal.id ∷ " cannot redeem grant " ∷ grant.grant_id ∷ [])))
    else if not (allows_delivery_mode grant request.requested_delivery_mode)
    then err (
        denied (
          concat (
            "delivery mode "
            ∷ delivery_mode_debug request.requested_delivery_mode
            ∷ " is not allowed for grant "
            ∷ grant.grant_id
            ∷ [])))
    else check_constraints grant.constraints request.observed

abbrev pub is_lease_of : String → SecretLease → Bool
is_lease_of grant_id lease = str_eq lease.grant_id grant_id

unfoldable pub next_lease_id : SecretGrantStore → String → String
next_lease_id store grant_id =
    concat
      ("lease_" ∷ grant_id ∷ "_" ∷ to_decimal (count (is_lease_of grant_id) store.leases + 1) ∷ [])

unfoldable pub epoch_timestamp : ℕ → String
epoch_timestamp seconds = concat ("unix:" ∷ to_decimal seconds ∷ [])

-- `u64::saturating_add`
unfoldable pub expires_at : Turn → SecretGrant → String
unfolding epoch_timestamp
expires_at turn grant = epoch_timestamp (min u64_max (turn.now + grant.lease_policy.ttl_seconds))

unfoldable pub new_lease : Turn → SecretGrant → SecretGrantStore → SecretLease
unfolding next_lease_id expires_at epoch_timestamp
new_lease turn grant store = record {
  lease_id = next_lease_id store grant.grant_id;
  grant_id = grant.grant_id;
  principal = grant.principal;
  secret_refs = grant.secret_refs;
  status = SecretLeaseStatus.active;
  issued_at = epoch_timestamp turn.now;
  expires_at = expires_at turn grant;
  renewable = grant.lease_policy.renewable;
  renewal_count = 0;
  backend_lease_ref = some (concat ("file://" ∷ turn.path ∷ []));
  rotation_generation = none;
}

abbrev pub is_grant : String → SecretGrant → Bool
is_grant grant_id grant = str_eq grant.grant_id grant_id

abbrev pub is_lease : String → SecretLease → Bool
is_lease lease_id lease = str_eq lease.lease_id lease_id

-- The grant at the index that was found becomes redeemed, and its lease is pushed.
unfoldable pub issue : String → SecretLease → SecretGrantStore → SecretGrantStore
issue grant_id lease store = record store {
  grants =
      modify_first (is_grant grant_id)
        (λ grant. record grant { status = SecretGrantStatus.redeemed }) store.grants;
  leases = store.leases ++ lease ∷ [];
}

module _ {V : Type 0} where
  unfoldable pub new_seed_plan : SecretGrant → SecretLease → SecretDeliveryMode → SecretSeedPlan V
  new_seed_plan grant lease mode = record {
    plan_id = concat ("seed_plan_" ∷ lease.lease_id ∷ []);
    grant_id = grant.grant_id;
    delivery_mode = mode;
    secret_refs = grant.secret_refs;
    bootstrap_bundle = none;
    backend_manifest = none;
  }

  unfoldable pub redeem_grant : Turn → SecretRedeemRequest → Brokered (SecretRedeemResponse V)
  unfolding lock_store persist_locked find_grant validate_redeem_request new_lease new_seed_plan
      issue
  redeem_grant turn request = do
    lock_store turn
    grant ←
        read_or_fail λ store. ok_or (find_grant request.grant_id store) (not_found request.grant_id)
    lift (validate_redeem_request grant request)
    lease ← read_store (new_lease turn grant)
    write_store (issue request.grant_id lease)
    persist_locked turn
    pure (record {
      lease = lease;
      seed_plan = new_seed_plan grant lease request.requested_delivery_mode;
    })

abbrev pub reached_max : Option ℕ → ℕ → Bool
reached_max none renewals = false
reached_max (some max_renewals) renewals = leb max_renewals renewals

-- The refusals of `renew_lease`
unfoldable pub validate_renewal :
    String → SecretLease → SecretLeasePolicy → Result SecretGrantError (Unit {0})
validate_renewal lease_id lease policy =
    if not (is_lease_active lease.status)
    then err (denied (concat ("lease " ∷ lease_id ∷ " is not active" ∷ [])))
    else if not lease.renewable || not policy.renewable
    then err (denied (concat ("lease " ∷ lease_id ∷ " is not renewable" ∷ [])))
    else if reached_max policy.max_renewals lease.renewal_count
    then err (denied (concat ("lease " ∷ lease_id ∷ " reached max renewals" ∷ [])))
    else ok tt

unfoldable pub renewed_lease : Turn → SecretGrant → SecretLease → SecretLease
unfolding expires_at
renewed_lease turn grant lease = record lease {
  renewal_count = min u32_max (lease.renewal_count + 1);
  expires_at = expires_at turn grant;
  status = SecretLeaseStatus.active;
}

abbrev pub put_lease : String → SecretLease → SecretGrantStore → SecretGrantStore
put_lease lease_id lease store = record store {
  leases = modify_first (is_lease lease_id) (λ _. lease) store.leases;
}

unfoldable pub renew_lease : Turn → String → Brokered SecretLease
unfolding lock_store persist_locked find_lease find_grant validate_renewal renewed_lease
renew_lease turn lease_id = do
  lock_store turn
  lease ← read_or_fail λ store. ok_or (find_lease lease_id store) (not_found lease_id)
  grant ← read_or_fail λ store. ok_or (find_grant lease.grant_id store) (not_found lease.grant_id)
  lift (validate_renewal lease_id lease grant.lease_policy)
  let renewed = renewed_lease turn grant lease
  write_store (put_lease lease_id renewed)
  persist_locked turn
  pure renewed

abbrev pub revoked_lease : SecretLease → SecretLease
revoked_lease lease = record lease { status = SecretLeaseStatus.revoked }

unfoldable pub revoke_lease : Turn → String → Brokered SecretLease
unfolding lock_store persist_locked find_lease
revoke_lease turn lease_id = do
  lock_store turn
  lease ← read_or_fail λ store. ok_or (find_lease lease_id store) (not_found lease_id)
  write_store (put_lease lease_id (revoked_lease lease))
  persist_locked turn
  pure (revoked_lease lease)
