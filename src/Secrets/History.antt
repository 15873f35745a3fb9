-- ===== src/Secrets/History.antt =====
-- The histories of a broker: every sequence of calls of it, on any grants and requests.
use auspex.Prelude.{
  ℕ, ◌+◌, ◌≡◌, refl, sym, ap, subst, String, false, inl, inr, Option, none, some, List, [], ◌∷◌,
  ◌++◌, arith, find, count, modify_first, str_eq, eq_iff, Bool-cases, if◌then◌else◌, concat,
  to_decimal, min, ok,
}
use auspex.Secrets.Grant.{
  SecretGrant, SecretGrantStore, SecretLease, SecretRedeemRequest, new_store, find_grant,
  find_lease,
}
use auspex.Secrets.Broker.{
  Turn, create_grant, redeem_grant, renew_lease, revoke_lease, add_grant, issue, new_lease,
  put_lease, renewed_lease, revoked_lease, is_grant, is_lease, is_lease_of, next_lease_id,
  reached_max, validate_renewal,
}
use auspex.Secrets.Outcomes.{
  CanRedeem, create_grant-store, redeem_grant_cases, renew_lease-store, revoke_lease-store,
  redeemed_store,
}
use auspex.Secrets.Soundness.{
  Within, IsLeaseOf, Covers, AllCovered, IsSound, redeemed_grant, find-add, find-redeemed,
  count-add, count-put, Distinct-add, Distinct-redeemed,
}

-- A change of the grants that leaves each grant's terms.
abbrev SameTerms : Option SecretGrant → Option SecretGrant → Type 0
SameTerms none g = Unit {0}
SameTerms (some g) none = ⊥
SameTerms (some g) (some g') =
    (g'.principal ≡ g.principal)
    × (g'.secret_refs ≡ g.secret_refs)
    × (g'.lease_policy ≡ g.lease_policy)

Covers-SameTerms :
    (a b : Option SecretGrant) (l : SecretLease) → SameTerms a b → Covers a l → Covers b l
Covers-SameTerms none b l t c = absurd c
Covers-SameTerms (some g) none l t c = absurd t
Covers-SameTerms (some g) (some g') l t c = record {
  principal = ground arith;
  secret_refs = ground arith;
  renewals = rw (t.2) (c.renewals);
  renewable = rw (t.2) (c.renewable);
  lease_id = c.lease_id;
}

AllCovered-SameTerms :
    (gs gs' : List SecretGrant)
    → ((id : String) → SameTerms (find (is_grant id) gs) (find (is_grant id) gs'))
    → (ls : List SecretLease) → AllCovered gs ls
    → AllCovered gs' ls
AllCovered-SameTerms gs gs' t [] c = tt
AllCovered-SameTerms gs gs' t (l ∷ ls) c =
    (Covers-SameTerms _ _ l (t l.grant_id) c.0, AllCovered-SameTerms gs gs' t ls c.1)

AllCovered-add :
    (gs : List SecretGrant) (ls : List SecretLease) (l : SecretLease)
    → AllCovered gs ls
    → Covers (find (is_grant l.grant_id) gs) l
    → AllCovered gs (ls ++ l ∷ [])
AllCovered-add gs [] l c h = (h, tt)
AllCovered-add gs (x ∷ ls) l c h = (c.0, AllCovered-add gs ls l c.1 h)

AllCovered-put :
    (gs : List SecretGrant) (k : String) (ls : List SecretLease) (l' : SecretLease)
    → AllCovered gs ls
    → Covers (find (is_grant l'.grant_id) gs) l'
    → AllCovered gs (modify_first (is_lease k) (λ _. l') ls)
AllCovered-put gs k [] l' c h = tt
AllCovered-put gs k (x ∷ ls) l' c h = elim (Bool-cases (is_lease k x)) [
  | inl hit ↦ rw hit (h, c.1)
  | inr miss ↦ rw miss (c.0, AllCovered-put gs k ls l' c.1 h)
]

AllCovered-find :
    (gs : List SecretGrant) (k : String) (ls : List SecretLease) (l : SecretLease)
    → AllCovered gs ls
    → find (is_lease k) ls ≡ some l
    → Covers (find (is_grant l.grant_id) gs) l
AllCovered-find gs k [] l c f = absurd (cc)
AllCovered-find gs k (x ∷ ls) l c f = elim (Bool-cases (is_lease k x)) [
  | inl hit ↦ subst (λ y. Covers (find (is_grant y.grant_id) gs) y) (ground arith) c.0
  | inr miss ↦ AllCovered-find gs k ls l c.1 (ground arith)
]

kept : (o other : Option SecretGrant) → SameTerms o (elim o [ some x ↦ some x | none ↦ other ])
kept none other = tt
kept (some g) other = (refl, refl, refl)

add_grant-IsSound :
    (grant : SecretGrant) (s : SecretGrantStore)
    → find_grant grant.grant_id s ≡ none
    → IsSound s
    → IsSound (add_grant grant s)
unfolding find_grant
add_grant-IsSound grant s missing sound = record {
  grant_ids = Distinct-add s.grants grant sound.grant_ids missing;
  leases = AllCovered-SameTerms s.grants (s.grants ++ grant ∷ []) same s.leases sound.leases;
  once = λ id. ground (arith, sound.once id, find-add id s.grants grant);
}
  where
    same :
        (id : String)
        → SameTerms (find (is_grant id) s.grants) (find (is_grant id) (s.grants ++ grant ∷ []))
    same id = rw (find-add id s.grants grant) (kept (find (is_grant id) s.grants) _)

kept_redeemed :
    (j k : String) (o : Option SecretGrant)
    → SameTerms o
        (elim o [ some x ↦ some (if str_eq k j then redeemed_grant x else x) | none ↦ none ])
kept_redeemed j k none = tt
kept_redeemed j k (some g) = ground arith

find_id :
    (k : String) (gs : List SecretGrant) (g : SecretGrant)
    → find (is_grant k) gs ≡ some g
    → g.grant_id ≡ k
find_id k [] g f = absurd (cc)
find_id k (x ∷ gs) g f = ground (arith, eq_iff x.grant_id k, find_id k gs g)

first_lease_id :
    (s : SecretGrantStore) (id : String)
    → count (is_lease_of id) s.leases ≡ 0
    → next_lease_id s id ≡ concat ("lease_" ∷ id ∷ "_" ∷ "1" ∷ [])
unfolding next_lease_id to_decimal
first_lease_id s id e = rw e refl

Within-none : (m : Option ℕ) → Within m 0
Within-none none = tt
Within-none (some n) = omega arith

issue-IsSound :
    (turn : Turn) (request : SecretRedeemRequest) (grant : SecretGrant) (s : SecretGrantStore)
    → find_grant request.grant_id s ≡ some grant
    → CanRedeem grant request
    → IsSound s
    → IsSound (redeemed_store turn request s grant)
unfolding find_grant issue new_lease
issue-IsSound turn request grant s found can sound =
    let k = request.grant_id in
    let named = find_id k s.grants grant found in
    let l = new_lease turn grant s in
    let gs' = modify_first (is_grant k) redeemed_grant s.grants in
    let unspent : count (is_lease_of grant.grant_id) s.leases ≡ 0 =
      ground (arith, sound.once k, can.is_active) in
    let spent_now : find (is_grant grant.grant_id) gs' ≡ some (redeemed_grant grant) =
      rw (find-redeemed grant.grant_id k s.grants) (ground (arith, eq_iff k grant.grant_id)) in
    record {
      grant_ids = Distinct-redeemed k s.grants sound.grant_ids;
      leases =
          AllCovered-add gs' s.leases l
            (AllCovered-SameTerms s.grants gs'
              (λ id. rw (find-redeemed id k s.grants) (kept_redeemed id k _)) s.leases sound.leases)
            (rw spent_now record {
              principal = refl;
              secret_refs = refl;
              renewals = Within-none grant.lease_policy.max_renewals;
              renewable = inl refl;
              lease_id = first_lease_id s grant.grant_id unspent;
            });
      once = λ id. ground (
        arith,
        sound.once id,
        find-redeemed id k s.grants,
        count-add id s.leases l,
        eq_iff grant.grant_id id,
        eq_iff k id,
        can.is_active,
      );
    }

put_lease-IsSound :
    (k : String) (l l' : SecretLease) (s : SecretGrantStore)
    → find_lease k s ≡ some l
    → l'.grant_id ≡ l.grant_id
    → ((g : SecretGrant)
        → IsLeaseOf g l
        → find (is_grant l.grant_id) s.grants ≡ some g
        → IsLeaseOf g l')
    → IsSound s
    → IsSound (put_lease k l' s)
unfolding find_lease
put_lease-IsSound k l l' s found same keep sound = record {
  grant_ids = sound.grant_ids;
  leases = AllCovered-put s.grants k s.leases l' sound.leases (
      subst (λ y. Covers (find (is_grant y) s.grants) l') (sym same)
        (carry (find (is_grant l.grant_id) s.grants) keep
          (AllCovered-find s.grants k s.leases l sound.leases found)));
  once = λ id. ground (arith, sound.once id, count-put id k s.leases l l');
}
  where
    carry :
        (o : Option SecretGrant)
        → ((g : SecretGrant) → IsLeaseOf g l → o ≡ some g → IsLeaseOf g l')
        → Covers o l
        → Covers o l'
    carry none t c = absurd c
    carry (some g) t c = t g c refl

renewed-IsLeaseOf :
    (turn : Turn) (k : String) (grant g : SecretGrant) (lease : SecretLease)
    → grant ≡ g
    → validate_renewal k lease grant.lease_policy ≡ ok tt
    → IsLeaseOf g lease
    → IsLeaseOf g (renewed_lease turn grant lease)
unfolding validate_renewal renewed_lease
renewed-IsLeaseOf turn k grant g lease same good of = record {
  principal = of.principal;
  secret_refs = of.secret_refs;
  renewals = more g.lease_policy.max_renewals lease.renewal_count (rw (← same) (ground arith));
  renewable = inr (rw (← same) (ground arith));
  lease_id = of.lease_id;
}
  where
    more : (m : Option ℕ) (n : ℕ) → reached_max m n ≡ false → Within m (min 4294967295 (n + 1))
    more none n h = tt
    more (some most) n h = ground arith

renewed_grant_id :
    (turn : Turn) (grant : SecretGrant) (lease : SecretLease)
    → (renewed_lease turn grant lease).grant_id ≡ lease.grant_id
unfolding renewed_lease
renewed_grant_id turn grant lease = refl

one_value : {o : Option SecretGrant} {a b : SecretGrant} → o ≡ some a → o ≡ some b → a ≡ b
one_value p q = cc

-- One call of the broker.
pub data BrokerCall : Type 0 where
  create : Turn → SecretGrant → BrokerCall
  redeem : Turn → SecretRedeemRequest → BrokerCall
  renew revoke : Turn → String → BrokerCall

-- The store after a call, whether it succeeds or fails.
unfoldable pub call : BrokerCall → SecretGrantStore → SecretGrantStore
call (create turn grant) s = (create_grant turn grant s).1
call (redeem turn request) s = (redeem_grant {V = Unit {0}} turn request s).1
call (renew turn lease_id) s = (renew_lease turn lease_id s).1
call (revoke turn lease_id) s = (revoke_lease turn lease_id s).1

unfoldable pub calls : List BrokerCall → SecretGrantStore → SecretGrantStore
calls [] s = s
calls (c ∷ cs) s = calls cs (call c s)

abbrev after : {A : Type 0} → A × SecretGrantStore → SecretGrantStore
after p = p.1

call-IsSound : (c : BrokerCall) (s : SecretGrantStore) → IsSound s → IsSound (call c s)
unfolding call find_grant
call-IsSound (create turn grant) s sound = elim (create_grant-store turn grant s) [
  | inl same ↦ rw same sound
  | inr (missing, added) ↦ rw added (add_grant-IsSound grant s missing sound)
]
call-IsSound (redeem turn request) s sound =
    elim (redeem_grant_cases {V = Unit {0}} turn request s) [
      | inl (e, same, why) ↦ subst IsSound (ap after (sym same)) sound
      | inr (grant, locked, found, can, done) ↦
          subst IsSound (ap after (sym done)) (issue-IsSound turn request grant s found can sound)
    ]
call-IsSound (renew turn lease_id) s sound = elim (renew_lease-store turn lease_id s) [
  | inl same ↦ rw same sound
  | inr (lease, grant, found, granted, good, done) ↦ rw done (
      put_lease-IsSound lease_id lease (renewed_lease turn grant lease) s found
        (renewed_grant_id turn grant lease)
        (λ g of at. renewed-IsLeaseOf turn lease_id grant g lease (one_value granted at) good of)
        sound)
]
call-IsSound (revoke turn lease_id) s sound = elim (revoke_lease-store turn lease_id s) [
  | inl same ↦ rw same sound
  | inr (lease, found, done) ↦ rw done (
      put_lease-IsSound lease_id lease (revoked_lease lease) s found refl
        (λ g of at. record {
          principal = of.principal;
          secret_refs = of.secret_refs;
          renewals = of.renewals;
          renewable = of.renewable;
          lease_id = of.lease_id;
        })
        sound)
]

calls-IsSound : (cs : List BrokerCall) (s : SecretGrantStore) → IsSound s → IsSound (calls cs s)
unfolding calls
calls-IsSound [] s sound = sound
calls-IsSound (c ∷ cs) s sound = calls-IsSound cs (call c s) (call-IsSound c s sound)

-- Whatever is asked of a new broker, also where calls fail or the file cannot be written: no two
-- grants have one id; every lease stands behind one of the grants, for its principal and its
-- secrets, renewed at most as often as its policy allows and only if the policy allows renewals;
-- and a grant has at most one lease, none unless it is redeemed.
pub new_store-calls-IsSound : (cs : List BrokerCall) → IsSound (calls cs new_store)
new_store-calls-IsSound cs =
    calls-IsSound cs new_store record { grant_ids = tt; leases = tt; once = λ id. omega arith }
