-- ===== src/Secrets/Revocation.antt =====
-- A lease that is revoked stays revoked.
use auspex.Prelude.{
  ◌≡◌, refl, sym, ap, ◌∙◌, subst, String, false, inl, inr, Option, none, some, List, [], ◌∷◌, ◌++◌,
  arith, find, modify_first, str_eq, eq_iff, eq_refl, Bool-cases, Option-cases, if◌then◌else◌, ok,
  err, ◌>>=◌, Result-cases,
}
use auspex.Secrets.Grant.{
  SecretGrant, SecretGrantError, SecretGrantStore, SecretLease, SecretLeaseStatus, find_grant,
  find_lease, backend, not_found,
}
use auspex.Secrets.Broker.{
  Turn, renew_lease, revoke_lease, issue, new_lease, put_lease, renewed_lease, revoked_lease,
  is_lease, validate_renewal, lock_store, persist_locked,
}
use auspex.Secrets.Outcomes.{
  create_grant-store, redeem_grant_cases, renew_lease-store, revoke_lease-store,
}
use auspex.Secrets.History.{BrokerCall, create, redeem, renew, revoke, call, calls}

abbrev IsRevokedLease : Option SecretLease → Type 0
IsRevokedLease none = ⊥
IsRevokedLease (some lease) = lease.status ≡ SecretLeaseStatus.revoked

-- The lease that is found under an id is there, and revoked.
abbrev pub IsRevoked : String → SecretGrantStore → Type 0
IsRevoked k s = IsRevokedLease (find (is_lease k) s.leases)

find-add_lease :
    (k : String) (ls : List SecretLease) (l : SecretLease)
    → IsRevokedLease (find (is_lease k) ls)
    → IsRevokedLease (find (is_lease k) (ls ++ l ∷ []))
find-add_lease k [] l r = absurd r
find-add_lease k (x ∷ ls) l r = elim (Bool-cases (is_lease k x)) [
  | inl hit ↦ ground (arith)
  | inr miss ↦ rw miss (find-add_lease k ls l (ground arith))
]

find_lease_id :
    (k : String) (ls : List SecretLease) (l : SecretLease)
    → find (is_lease k) ls ≡ some l
    → l.lease_id ≡ k
find_lease_id k [] l f = absurd (cc)
find_lease_id k (x ∷ ls) l f = ground (arith, eq_iff x.lease_id k, find_lease_id k ls l)

find-put_lease :
    (j k : String) (ls : List SecretLease) (l l' : SecretLease)
    → find (is_lease k) ls ≡ some l
    → l'.lease_id ≡ k
    → find (is_lease j) (modify_first (is_lease k) (λ _. l') ls)
      ≡ (if str_eq k j then some l' else find (is_lease j) ls)
find-put_lease j k [] l l' f e = cc
find-put_lease j k (x ∷ ls) l l' f e = ground (
  arith,
  eq_iff x.lease_id j,
  eq_iff x.lease_id k,
  eq_iff k j,
  eq_iff l'.lease_id j,
  find-put_lease j k ls l l',
)

renewed_lease_id :
    (turn : Turn) (grant : SecretGrant) (lease : SecretLease)
    → (renewed_lease turn grant lease).lease_id ≡ lease.lease_id
unfolding renewed_lease
renewed_lease_id turn grant lease = refl

active_of_valid :
    (k : String) (lease : SecretLease) (grant : SecretGrant)
    → validate_renewal k lease grant.lease_policy ≡ ok tt
    → lease.status ≡ SecretLeaseStatus.revoked
    → ⊥
unfolding validate_renewal
active_of_valid k lease grant good r = ground arith

abbrev after : {A : Type 0} → A × SecretGrantStore → SecretGrantStore
after p = p.1

call-IsRevoked :
    (k : String) (c : BrokerCall) (s : SecretGrantStore) → IsRevoked k s → IsRevoked k (call c s)
unfolding call find_lease issue
call-IsRevoked k (create turn grant) s r = elim (create_grant-store turn grant s) [
  | inl same ↦ subst (IsRevoked k) (sym same) r
  | inr (missing, added) ↦ subst (IsRevoked k) (sym added) r
]
call-IsRevoked k (redeem turn request) s r =
    elim (redeem_grant_cases {V = Unit {0}} turn request s) [
      | inl (e, same, why) ↦ subst (IsRevoked k) (ap after (sym same)) r
      | inr (grant, locked, found, can, done) ↦
          subst (IsRevoked k) (ap after (sym done))
            (find-add_lease k s.leases (new_lease turn grant s) r)
    ]
call-IsRevoked k (renew turn id) s r = elim (renew_lease-store turn id s) [
  | inl same ↦ subst (IsRevoked k) (sym same) r
  | inr (lease, grant, found, granted, good, done) ↦ subst (IsRevoked k) (sym done) (
      rw
        (find-put_lease k id s.leases lease (renewed_lease turn grant lease) found
          (renewed_lease_id turn grant lease ∙ find_lease_id id s.leases lease found))
        (elim (Bool-cases (str_eq id k)) [
          | inl same ↦
              absurd (active_of_valid id lease grant good (ground (arith, (eq_iff id k).0 same)))
          | inr other ↦ rw other r
        ]))
]
call-IsRevoked k (revoke turn id) s r = elim (revoke_lease-store turn id s) [
  | inl same ↦ subst (IsRevoked k) (sym same) r
  | inr (lease, found, done) ↦ subst (IsRevoked k) (sym done) (
      rw
        (find-put_lease k id s.leases lease (revoked_lease lease) found
          (find_lease_id id s.leases lease found))
        (elim (Bool-cases (str_eq id k)) [ inl same ↦ rw same refl | inr other ↦ rw other r ]))
]

calls-IsRevoked :
    (k : String) (cs : List BrokerCall) (s : SecretGrantStore)
    → IsRevoked k s
    → IsRevoked k (calls cs s)
unfolding calls
calls-IsRevoked k [] s r = r
calls-IsRevoked k (c ∷ cs) s r = calls-IsRevoked k cs (call c s) (call-IsRevoked k c s r)

revoke_lease-IsRevoked :
    (turn : Turn) (k : String) (s : SecretGrantStore) (lease : SecretLease)
    → turn.poisoned ≡ false
    → find_lease k s ≡ some lease
    → IsRevoked k (revoke_lease turn k s).1
unfolding revoke_lease find_lease lock_store persist_locked
revoke_lease-IsRevoked turn k s lease sound found =
    let put : IsRevoked k (put_lease k (revoked_lease lease) s) =
      rw
        (
          find-put_lease k k s.leases lease (revoked_lease lease) found
              (find_lease_id k s.leases lease found),
          eq_refl k,
        )
        refl in
    elim (Result-cases (turn.write (put_lease k (revoked_lease lease) s))) [
      | inl (w, done) ↦ rw (sound, found, ◌>>=◌, done) put
      | inr (w, failed) ↦ rw (sound, found, ◌>>=◌, failed) put
    ]

no_renewal :
    (turn : Turn) (k : String) (s : SecretGrantStore)
    → IsRevoked k s
    → (e : SecretGrantError) × (renew_lease turn k s ≡ (err e, s))
unfolding renew_lease find_lease lock_store
no_renewal turn k s r = elim (Bool-cases turn.poisoned) [
  | inl poisoned ↦ (backend "secret grant store lock poisoned", rw (poisoned, ◌>>=◌) refl)
  | inr sound ↦ elim (Option-cases (find (is_lease k) s.leases)) [
    | inl missing ↦ (not_found k, rw (sound, missing, ◌>>=◌) refl)
    | inr (lease, found) ↦ elim (Option-cases (find_grant lease.grant_id s)) [
      | inl orphan ↦ (not_found lease.grant_id, rw (sound, found, ◌>>=◌, orphan) refl)
      | inr (grant, granted) ↦ elim (Result-cases (validate_renewal k lease grant.lease_policy)) [
        | inr (e, bad) ↦ (e, rw (sound, found, ◌>>=◌, granted, bad) refl)
        | inl (u, good) ↦ absurd (active_of_valid k lease grant good (ground arith))
      ]
    ]
  ]
]

-- Once a lease has been revoked, whatever the broker is asked to do, the lease under that id stays
-- revoked, and every attempt to renew it is refused and changes nothing.
pub revoke_lease_final :
    (turn : Turn) (k : String) (s : SecretGrantStore) (lease : SecretLease)
    → turn.poisoned ≡ false
    → find_lease k s ≡ some lease
    → (cs : List BrokerCall) (later : Turn)
    → let s' = calls cs (revoke_lease turn k s).1 in
      IsRevoked k s' × ((e : SecretGrantError) × (renew_lease later k s' ≡ (err e, s')))
revoke_lease_final turn k s lease sound found cs later =
    let r =
      calls-IsRevoked k cs (revoke_lease turn k s).1
        (revoke_lease-IsRevoked turn k s lease sound found) in
    (r, no_renewal later k _ r)
