-- ===== src/Secrets/Outcomes.antt =====
-- What each call of the broker leaves in the store, by cases.
use auspex.Prelude.{
  ◌≡◌, refl, String, Bool, true, false, not, ◌&&◌, ◌↔◌, ◌⊎◌, inl, inr, Option, none, some, Result,
  ok, err, ◌>>=◌, arith, any, option_str_eq, eq_iff, Bool-cases, Option-cases, Result-cases,
  if◌then◌else◌,
}
use auspex.Secrets.Grant.{
  SecretGrant, SecretGrantError, SecretGrantPrincipal, SecretGrantStatus, SecretGrantStore,
  SecretGrantConstraints, SecretRedeemObservation, SecretLease, SecretRedeemRequest,
  SecretRedeemResponse, allows_delivery_mode, backend, not_found, delivery_mode_eq, find_grant,
  find_lease, principal_eq, principal_kind_eq, SecretPrincipalKind, is_grant_active,
}
use auspex.Secrets.Broker.{
  Turn, create_grant, redeem_grant, renew_lease, revoke_lease, add_grant, issue, new_lease,
  new_seed_plan, put_lease, renewed_lease, revoked_lease, validate_redeem_request, check_constraint,
  check_constraints, lock_store, persist_locked, validate_new_grant, validate_renewal,
}

-- A constraint binds only if it is there, and then to exactly what is observed.
abbrev pub Meets : Option String → Option String → Type 0
Meets none observed = Unit {0}
Meets (some expected) observed = observed ≡ some expected

-- A grant may be redeemed by a request.
pub record CanRedeem (grant : SecretGrant) (request : SecretRedeemRequest) : Type 0 where
  pub is_active : grant.status ≡ SecretGrantStatus.active
  pub principal : grant.principal ≡ request.principal
  pub delivers :
      any (delivery_mode_eq request.requested_delivery_mode) grant.allowed_delivery_modes ≡ true
  pub instance_id : Meets grant.constraints.agent_instance_id request.observed.agent_instance_id
  pub placement : Meets grant.constraints.placement_id request.observed.placement_id
  pub package_digest : Meets grant.constraints.package_digest request.observed.package_digest
  pub image_digest : Meets grant.constraints.image_digest request.observed.image_digest

principal_kind_eq_iff : (a b : SecretPrincipalKind) → (principal_kind_eq a b ≡ true) ↔ (a ≡ b)
principal_kind_eq_iff a b = ground arith

option_str_eq_iff : (a b : Option String) → (option_str_eq a b ≡ true) ↔ (a ≡ b)
option_str_eq_iff none none = (λ h. refl, λ h. refl)
option_str_eq_iff none (some b) = (λ h. cc, λ h. cc)
option_str_eq_iff (some a) none = (λ h. cc, λ h. cc)
option_str_eq_iff (some a) (some b) = ground (arith, eq_iff a b)

principal_eq_iff : (p q : SecretGrantPrincipal) → (principal_eq p q ≡ true) ↔ (p ≡ q)
unfolding principal_eq
principal_eq_iff p q = ground (
  arith,
  principal_kind_eq_iff p.kind q.kind,
  eq_iff p.id q.id,
  option_str_eq_iff p.display_name q.display_name,
)

check_constraint_iff :
    (label : String) (expected observed : Option String)
    → (check_constraint label expected observed ≡ ok tt) ↔ Meets expected observed
unfolding check_constraint
check_constraint_iff label none observed = (λ h. tt, λ h. refl)
check_constraint_iff label (some e) none = (λ h. cc, λ h. cc)
check_constraint_iff label (some e) (some o) = ground (arith, eq_iff e o)

is_grant_active_iff :
    (s : SecretGrantStatus) → (is_grant_active s ≡ true) ↔ (s ≡ SecretGrantStatus.active)
is_grant_active_iff s = ground arith

check_constraints_iff :
    (c : SecretGrantConstraints) (o : SecretRedeemObservation)
    → (check_constraints c o ≡ ok tt) ↔ (
        Meets c.agent_instance_id o.agent_instance_id
        × Meets c.placement_id o.placement_id
        × Meets c.package_digest o.package_digest
        × Meets c.image_digest o.image_digest)
unfolding check_constraints
check_constraints_iff c o =
    let one = check_constraint_iff "agent instance" c.agent_instance_id o.agent_instance_id in
    let two = check_constraint_iff "placement" c.placement_id o.placement_id in
    let three = check_constraint_iff "package digest" c.package_digest o.package_digest in
    let four = check_constraint_iff "image digest" c.image_digest o.image_digest in
    (
      λ h. (
        one.0 (ground arith),
        two.0 (ground arith),
        three.0 (ground arith),
        four.0 (ground arith),
      ),
      λ h. rw (one.1 h.0, two.1 h.1, three.1 h.2) (four.1 h.3),
    )

guards_iff :
    (a b c : Bool) (e e' e'' : SecretGrantError) (rest : Result SecretGrantError (Unit {0}))
    → ((if not a then err e else if not b then err e' else if not c then err e'' else rest) ≡ ok tt)
      ↔ ((a ≡ true) × (b ≡ true) × (c ≡ true) × (rest ≡ ok tt))
guards_iff a b c e e' e'' rest =
    (λ h. (ground arith, ground arith, ground arith, ground arith), λ h. ground arith)

pub validate_redeem_request_iff :
    (grant : SecretGrant) (request : SecretRedeemRequest)
    → (validate_redeem_request grant request ≡ ok tt) ↔ CanRedeem grant request
unfolding validate_redeem_request allows_delivery_mode
validate_redeem_request_iff grant request =
    let who = principal_eq_iff grant.principal request.principal in
    let live = is_grant_active_iff grant.status in
    let bounds = check_constraints_iff grant.constraints request.observed in
    let guards =
      guards_iff (is_grant_active grant.status) (principal_eq grant.principal request.principal)
        (is_grant_active grant.status
          && any (delivery_mode_eq request.requested_delivery_mode) grant.allowed_delivery_modes)
        _ _ _ (check_constraints grant.constraints request.observed) in
    (
      λ h.
          let (active, same, delivered, rest) = guards.0 h in
          let (one, two, three, four) = bounds.0 rest in
          record {
            is_active = live.0 active;
            principal = who.0 same;
            delivers = ground arith;
            instance_id = one;
            placement = two;
            package_digest = three;
            image_digest = four;
          },
      λ h. guards.1 (
        live.1 h.is_active,
        who.1 h.principal,
        rw (live.1 h.is_active) h.delivers,
        bounds.1 (h.instance_id, h.placement, h.package_digest, h.image_digest),
      ),
    )

module _ (turn : Turn) where
  -- A grant is added, or nothing changes.
  pub create_grant-store :
      (grant : SecretGrant) (s : SecretGrantStore)
      → ((create_grant turn grant s).1 ≡ s)
        ⊎ ((find_grant grant.grant_id s ≡ none)
            × ((create_grant turn grant s).1 ≡ add_grant grant s))
  unfolding create_grant lock_store persist_locked
  create_grant-store grant s = elim (Result-cases (validate_new_grant grant)) [
    | inr (e, bad) ↦ inl (rw (bad, ◌>>=◌) refl)
    | inl (u, good) ↦ elim (Bool-cases turn.poisoned) [
      | inl poisoned ↦ inl (rw (good, poisoned, ◌>>=◌) refl)
      | inr sound ↦ elim (Option-cases (find_grant grant.grant_id s)) [
        | inr (old, found) ↦ inl (rw (good, sound, found, ◌>>=◌) refl)
        | inl missing ↦ inr (
          missing,
          elim (Result-cases (turn.write (add_grant grant s))) [
            | inl (w, written) ↦ rw (good, sound, missing, ◌>>=◌, written) refl
            | inr (w, failed) ↦ rw (good, sound, missing, ◌>>=◌, failed) refl
          ],
        )
      ]
    ]
  ]

-- What a call answers when it has written its store: its result, or the file system's error.
abbrev pub written : {A : Type 0} → Turn → SecretGrantStore → A → Result SecretGrantError A
written turn store a = elim (turn.write store) [ ok u ↦ ok a | err e ↦ err (backend e) ]

abbrev pub redeemed_store :
    Turn → SecretRedeemRequest → SecretGrantStore → SecretGrant → SecretGrantStore
redeemed_store turn request s grant = issue request.grant_id (new_lease turn grant s) s

-- The answer to a redemption.
abbrev pub response :
    {V : Type 0}
    → Turn
    → SecretRedeemRequest
    → SecretGrantStore
    → SecretGrant
    → SecretRedeemResponse V
response turn request s grant =
    let lease = new_lease turn grant s in
    record { lease = lease; seed_plan = new_seed_plan grant lease request.requested_delivery_mode }

-- What a redemption answers and leaves: an error and the store as it was, or the lease.
abbrev pub RedeemOutcome : Type 0 → Turn → SecretRedeemRequest → SecretGrantStore → Type 0
RedeemOutcome V turn request s =
    ((e : SecretGrantError) × (redeem_grant {V = V} turn request s ≡ (err e, s))
      × ((turn.poisoned ≡ true)
          ⊎ ((grant : SecretGrant)
              → find_grant request.grant_id s ≡ some grant
              → ¬ CanRedeem grant request)))
    ⊎ ((grant : SecretGrant) × (turn.poisoned ≡ false)
        × (find_grant request.grant_id s ≡ some grant)
        × CanRedeem grant request
        × (redeem_grant {V = V} turn request s ≡ (
          written turn (redeemed_store turn request s grant) (response turn request s grant),
          redeemed_store turn request s grant,
        )))

module _ {V : Type 0} (turn : Turn) (request : SecretRedeemRequest) (s : SecretGrantStore) where
  pub redeem_allowed :
      (grant : SecretGrant)
      → turn.poisoned ≡ false
      → find_grant request.grant_id s ≡ some grant
      → validate_redeem_request grant request ≡ ok tt
      → redeem_grant {V = V} turn request s ≡ (
        written turn (redeemed_store turn request s grant) (response turn request s grant),
        redeemed_store turn request s grant,
      )
  unfolding redeem_grant lock_store persist_locked
  redeem_allowed grant sound found good =
      elim (Result-cases (turn.write (redeemed_store turn request s grant))) [
        | inl (u, done) ↦ rw (sound, found, good, ◌>>=◌, done) refl
        | inr (e, failed) ↦ rw (sound, found, good, ◌>>=◌, failed) refl
      ]

  -- A grant is redeemed exactly when the lock is sound, the grant is there, and its status, its
  -- principal, its delivery modes and its constraints allow the request. Then it becomes redeemed
  -- and one new lease of it is stored, whether or not the store can be written to the file; an
  -- error of the file is the answer. In every other case the answer is an error, and nothing has
  -- changed.
  pub redeem_grant_cases : RedeemOutcome V turn request s
  unfolding redeem_grant lock_store
  redeem_grant_cases = elim (Bool-cases turn.poisoned) [
    | inl poisoned ↦
        inl (backend "secret grant store lock poisoned", rw (poisoned, ◌>>=◌) refl, inl poisoned)
    | inr sound ↦ elim (Option-cases (find_grant request.grant_id s)) [
      | inl missing ↦ inl (
        not_found request.grant_id,
        rw (sound, missing, ◌>>=◌) refl,
        inr λ grant found. absurd (cc),
      )
      | inr (grant, found) ↦ elim (Result-cases (validate_redeem_request grant request)) [
        | inr (e, bad) ↦ inl (
          e,
          rw (sound, found, bad, ◌>>=◌) refl,
          inr λ other found' can. absurd (refused grant other e found bad found' can),
        )
        | inl (u, good) ↦ inr (
          grant,
          sound,
          found,
          (validate_redeem_request_iff grant request).0 good,
          redeem_allowed grant sound found good,
        )
      ]
    ]
  ]
    where
      refused :
          (grant other : SecretGrant) (e : SecretGrantError)
          → find_grant request.grant_id s ≡ some grant
          → validate_redeem_request grant request ≡ err e
          → find_grant request.grant_id s ≡ some other
          → CanRedeem other request
          → ⊥
      refused grant other e found bad found' can =
          cc ((validate_redeem_request_iff other request).1 can)

module _ (turn : Turn) (lease_id : String) (s : SecretGrantStore) where
  -- A lease that is active is renewed within its grant's policy, or nothing changes.
  pub renew_lease-store :
      ((renew_lease turn lease_id s).1 ≡ s)
      ⊎ ((lease : SecretLease) × (grant : SecretGrant) × (find_lease lease_id s ≡ some lease)
          × (find_grant lease.grant_id s ≡ some grant)
          × (validate_renewal lease_id lease grant.lease_policy ≡ ok tt)
          × ((renew_lease turn lease_id s).1
              ≡ put_lease lease_id (renewed_lease turn grant lease) s))
  unfolding renew_lease lock_store persist_locked
  renew_lease-store = elim (Bool-cases turn.poisoned) [
    | inl poisoned ↦ inl (rw (poisoned, ◌>>=◌) refl)
    | inr sound ↦ elim (Option-cases (find_lease lease_id s)) [
      | inl missing ↦ inl (rw (sound, missing, ◌>>=◌) refl)
      | inr (lease, found) ↦ elim (Option-cases (find_grant lease.grant_id s)) [
        | inl orphan ↦ inl (rw (sound, found, ◌>>=◌, orphan) refl)
        | inr (grant, granted) ↦
            elim (Result-cases (validate_renewal lease_id lease grant.lease_policy)) [
              | inr (e, bad) ↦ inl (rw (sound, found, ◌>>=◌, granted, bad) refl)
              | inl (u, good) ↦ inr (
                lease,
                grant,
                found,
                granted,
                good,
                elim (Result-cases
                    (turn.write (put_lease lease_id (renewed_lease turn grant lease) s))) [
                      | inl (w, done) ↦ rw (sound, found, ◌>>=◌, granted, good, done) refl
                      | inr (w, failed) ↦ rw (sound, found, ◌>>=◌, granted, good, failed) refl
                    ],
              )
            ]
      ]
    ]
  ]

  -- A lease that is there is revoked, or nothing changes.
  pub revoke_lease-store :
      ((revoke_lease turn lease_id s).1 ≡ s)
      ⊎ ((lease : SecretLease) × (find_lease lease_id s ≡ some lease)
          × ((revoke_lease turn lease_id s).1 ≡ put_lease lease_id (revoked_lease lease) s))
  unfolding revoke_lease lock_store persist_locked
  revoke_lease-store = elim (Bool-cases turn.poisoned) [
    | inl poisoned ↦ inl (rw (poisoned, ◌>>=◌) refl)
    | inr sound ↦ elim (Option-cases (find_lease lease_id s)) [
      | inl missing ↦ inl (rw (sound, missing, ◌>>=◌) refl)
      | inr (lease, found) ↦ inr (
        lease,
        found,
        elim (Result-cases (turn.write (put_lease lease_id (revoked_lease lease) s))) [
          | inl (w, done) ↦ rw (sound, found, ◌>>=◌, done) refl
          | inr (w, failed) ↦ rw (sound, found, ◌>>=◌, failed) refl
        ],
      )
    ]
  ]
