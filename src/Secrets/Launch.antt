-- ===== src/Secrets/Launch.antt =====
-- A launch with the broker that keeps a file gets its lease, once for each grant id.
use auspex.Prelude.{
  ◌≡◌, ◌≢◌, refl, ap, ◌∙◌, String, true, false, Option, none, some, List, [], ◌∷◌, arith, eq_refl,
  ok, err, ◌>>=◌, concat, is_empty, trim, any,
}
use mathlib.Core.Option
use auspex.Secrets.Grant.{
  SecretDeliveryMode, SecretRedeemResponse, SecretGrant, SecretGrantStatus, SecretGrantStore,
  SecretGrantError, find_grant, invalid_request, delivery_mode_eq, new_grant,
}
use auspex.Secrets.Broker.{
  Turn, create_grant, add_grant, validate_new_grant, lock_store, persist_locked, new_lease,
  new_seed_plan, issue,
}
use auspex.Secrets.Outcomes.{
  CanRedeem, Meets, redeemed_store, written, validate_redeem_request_iff, redeem_allowed,
}
use auspex.Secrets.Soundness.{find-add, find-redeemed}
use auspex.Secrets.Preparation.{
  PrepareWorkerSecurityOptions, PreparedWorkerSecurity, SecretGrantBroker, is_nil, bind_security,
  file_broker, grant_id_of, launch_grant, launch_redemption, prepare_worker_security, principal_of,
}
use auspex.Worker.{InstantiateRequest}

Meets-refl : (o : Option String) → Meets o o
Meets-refl none = tt
Meets-refl (some e) = refl

mode_self : (m : SecretDeliveryMode) → any (delivery_mode_eq m) (m ∷ []) ≡ true
mode_self m = ground arith

module _ (request : InstantiateRequest) (options : PrepareWorkerSecurityOptions) where
  abbrev granted : SecretGrant
  granted = launch_grant request options

  -- What a launch asks for, it may redeem.
  launch-CanRedeem : CanRedeem granted (launch_redemption request options granted)
  unfolding launch_grant launch_redemption
  launch-CanRedeem = record {
    is_active = refl;
    principal = refl;
    delivers = mode_self options.delivery_mode;
    instance_id = tt;
    placement = Meets-refl options.placement_id;
    package_digest = Meets-refl options.package_digest;
    image_digest = Meets-refl options.image_digest;
  }

  -- The grant and the principal of a launch have ids.
  pub record IsNamed : Type 0 where
    pub grant_id : is_empty (trim (grant_id_of request options)) ≡ false
    pub principal_id : is_empty (trim (principal_of request options).id) ≡ false

  launch_valid : IsNamed → validate_new_grant granted ≡ ok tt
  unfolding validate_new_grant launch_grant new_grant
  launch_valid named = rw (named.grant_id, named.principal_id) refl

  launch_grant_id : granted.grant_id ≡ grant_id_of request options
  unfolding launch_grant new_grant
  launch_grant_id = refl

  create_new :
      (turn : Turn) (s : SecretGrantStore)
      → IsNamed
      → turn.poisoned ≡ false
      → find_grant granted.grant_id s ≡ none
      → turn.write (add_grant granted s) ≡ ok tt
      → create_grant turn granted s ≡ (ok granted, add_grant granted s)
  unfolding create_grant lock_store persist_locked
  create_new turn s named sound new done = rw (launch_valid named, sound, ◌>>=◌, new, done) refl

  create_old :
      (turn : Turn) (s : SecretGrantStore) (old : SecretGrant)
      → IsNamed
      → turn.poisoned ≡ false
      → find_grant granted.grant_id s ≡ some old
      → create_grant turn granted s ≡ (
        err (
            invalid_request (concat ("secret grant " ∷ granted.grant_id ∷ " already exists" ∷ []))),
        s,
      )
  unfolding create_grant lock_store
  create_old turn s old named sound found = rw (launch_valid named, sound, ◌>>=◌, found) refl

  find_added :
      (s : SecretGrantStore)
      → find_grant granted.grant_id s ≡ none
      → find_grant granted.grant_id (add_grant granted s) ≡ some granted
  unfolding find_grant
  find_added s new =
      ground (arith, find-add granted.grant_id s.grants granted, eq_refl granted.grant_id)

is_nil-cons : (xs : List String) → xs ≢ [] → is_nil xs ≡ false
is_nil-cons [] h = absurd (h refl)
is_nil-cons (x ∷ xs) h = refl

abbrev after : {A S : Type 0} → A × S → S
after p = p.1

-- A launch with any broker.
module _ {S V : Type 0} (b : SecretGrantBroker S V) (request : InstantiateRequest)
    (options : PrepareWorkerSecurityOptions) (s : S) where
  prepare_both :
      (grant : SecretGrant) (response : SecretRedeemResponse V) (s' s'' : S)
      → is_nil request.security.secret_refs ≡ false
      → b.create (launch_grant request options) s ≡ (ok grant, s')
      → b.redeem (launch_redemption request options grant) s' ≡ (ok response, s'')
      → prepare_worker_security b request options s ≡ (
        ok record {
          request =
              bind_security request
                (principal_of request options)
                grant.grant_id
                response.seed_plan.plan_id;
          grant = grant;
          seed_plan = response.seed_plan;
          lease = response.lease;
        },
        s'',
      )
  unfolding prepare_worker_security
  prepare_both grant response s' s'' asks created redeemed =
      rw (asks, ◌>>=◌, created, ap after created, redeemed, ap after created, ap after redeemed)
        refl

  prepare_refused :
      (e : SecretGrantError) (s' : S)
      → is_nil request.security.secret_refs ≡ false
      → b.create (launch_grant request options) s ≡ (err e, s')
      → prepare_worker_security b request options s ≡ (err e, s')
  unfolding prepare_worker_security
  prepare_refused e s' asks failed = rw (asks, ◌>>=◌, failed, ap after failed) refl

abbrev pub status_in : Option SecretGrant → Option SecretGrantStatus
status_in = Option.map (λ grant. grant.status)

found_redeemed :
    (turn : Turn) (request : InstantiateRequest) (options : PrepareWorkerSecurityOptions)
    (s : SecretGrantStore)
    → find_grant (granted request options).grant_id s ≡ some (granted request options)
    → status_in (
        find_grant (granted request options).grant_id (
          redeemed_store turn
            (launch_redemption request options (granted request options))
            s
            (granted request options)))
      ≡ some SecretGrantStatus.redeemed
unfolding find_grant issue launch_redemption
found_redeemed turn request options s found =
    let id = (granted request options).grant_id in
    rw (find-redeemed id id s.grants, found, eq_refl id) refl

module _ {V : Type 0} (request : InstantiateRequest) (options : PrepareWorkerSecurityOptions)
    (turn next : Turn) (s : SecretGrantStore) where
  -- A launch that asks for secrets, whose grant and principal have ids, gets its lease from a
  -- broker that has no grant under that id and can write its file: the lease is of exactly the
  -- secrets asked for, for the principal of the launch, under a grant that is redeemed from now on;
  -- and the request that comes back differs only in its principal and in one more id of a grant
  -- and of a seed plan, which are the ids of this grant and of this plan.
  pub prepare_worker_security_ok :
      request.security.secret_refs ≢ []
      → IsNamed request options
      → turn.poisoned ≡ false
      → next.poisoned ≡ false
      → find_grant (grant_id_of request options) s ≡ none
      → ((store : SecretGrantStore) → turn.write store ≡ ok tt)
      → ((store : SecretGrantStore) → next.write store ≡ ok tt)
      → (p : PreparedWorkerSecurity V) × (s' : SecretGrantStore) × (prepare_worker_security
            (file_broker turn next)
            request
            options
            s
          ≡ (ok p, s'))
        × (p.lease.secret_refs ≡ request.security.secret_refs)
        × (p.lease.principal ≡ principal_of request options)
        × (p.lease.grant_id ≡ grant_id_of request options)
        × (p.seed_plan.delivery_mode ≡ options.delivery_mode)
        × (p.request
            ≡ bind_security request
                (principal_of request options)
                (grant_id_of request options)
                p.seed_plan.plan_id)
        × (status_in (find_grant (grant_id_of request options) s')
            ≡ some SecretGrantStatus.redeemed)
  unfolding launch_grant new_grant launch_redemption new_lease new_seed_plan
  prepare_worker_security_ok asks named sound sound' new write write' =
      let grant = granted request options in
      let redemption = launch_redemption request options grant in
      let s' = add_grant grant s in
      let s'' = redeemed_store next redemption s' grant in
      let lease = new_lease next grant s' in
      let plan = new_seed_plan {V = V} grant lease options.delivery_mode in
      let created = create_new request options turn s named sound new (write s') in
      let answered =
        redeem_allowed {V = V} next redemption s' grant sound' (find_added request options s new)
          ((validate_redeem_request_iff grant redemption).1 (launch-CanRedeem request options)) in
      (
        record {
          request =
              bind_security request (principal_of request options) grant.grant_id plan.plan_id;
          grant = grant;
          seed_plan = plan;
          lease = lease;
        },
        s'',
        prepare_both (file_broker turn next) request options s grant
            record { lease = lease; seed_plan = plan } s' s''
            (is_nil-cons request.security.secret_refs asks) created
            (answered ∙ rw (written, write' s'') refl),
        refl,
        refl,
        refl,
        refl,
        refl,
        found_redeemed next request options s' (find_added request options s new),
      )

  -- A launch under the id of a grant that the broker has is refused, and changes nothing.
  pub prepare_worker_security_again :
      (old : SecretGrant)
      → request.security.secret_refs ≢ []
      → IsNamed request options
      → turn.poisoned ≡ false
      → find_grant (grant_id_of request options) s ≡ some old
      → prepare_worker_security {V = V} (file_broker turn next) request options s ≡ (
        err (
            invalid_request
              (concat ("secret grant " ∷ grant_id_of request options ∷ " already exists" ∷ []))),
        s,
      )
  unfolding launch_grant new_grant
  prepare_worker_security_again old asks named sound found =
      prepare_refused (file_broker turn next) request options s _ s
        (is_nil-cons request.security.secret_refs asks)
        (create_old request options turn s old named sound found)
