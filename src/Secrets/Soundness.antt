-- ===== src/Secrets/Soundness.antt =====
-- A grant is spent once: what every call of the broker keeps of its store.
use auspex.Prelude.{
  ℕ, ◌+◌, ◌≤◌, ◌≡◌, refl, String, true, false, ◌⊎◌, inl, inr, Option, none, some, List, [], ◌∷◌,
  ◌++◌, arith, any, find, count, modify_first, str_eq, eq_iff, Bool-cases, if◌then◌else◌, concat,
}
use auspex.Secrets.Grant.{
  SecretGrant, SecretGrantStatus, SecretGrantStore, SecretLease, is_grant_redeemed,
}
use auspex.Secrets.Broker.{is_grant, is_lease, is_lease_of}

-- No two grants have one id.
abbrev pub Distinct : List SecretGrant → Type 0
Distinct [] = Unit
Distinct (g ∷ gs) = (any (is_grant g.grant_id) gs ≡ false) × Distinct gs

abbrev pub Within : Option ℕ → ℕ → Type 0
Within none n = Unit {0}
Within (some most) n = n ≤ most

-- A lease gives what its grant gives, to whom it gives it, and is renewed only as the grant allows.
pub record IsLeaseOf (grant : SecretGrant) (lease : SecretLease) : Type 0 where
  pub principal : lease.principal ≡ grant.principal
  pub secret_refs : lease.secret_refs ≡ grant.secret_refs
  pub renewals : Within grant.lease_policy.max_renewals lease.renewal_count
  pub renewable : (lease.renewal_count ≡ 0) ⊎ (grant.lease_policy.renewable ≡ true)
  pub lease_id : lease.lease_id ≡ concat ("lease_" ∷ lease.grant_id ∷ "_" ∷ "1" ∷ [])

abbrev pub Covers : Option SecretGrant → SecretLease → Type 0
Covers none lease = ⊥
Covers (some grant) lease = IsLeaseOf grant lease

abbrev pub AllCovered : List SecretGrant → List SecretLease → Type 0
AllCovered grants [] = Unit
AllCovered grants (lease ∷ leases) =
    Covers (find (is_grant lease.grant_id) grants) lease × AllCovered grants leases

abbrev pub spent_of : Option SecretGrant → ℕ
spent_of none = 0
spent_of (some grant) = if is_grant_redeemed grant.status then 1 else 0

-- How often a grant has been redeemed: once if its status says so.
abbrev pub spent : String → List SecretGrant → ℕ
spent grant_id grants = spent_of (find (is_grant grant_id) grants)

pub record IsSound (s : SecretGrantStore) : Type 0 where
  pub grant_ids : Distinct s.grants
  pub leases : AllCovered s.grants s.leases
  pub once : (grant_id : String) → count (is_lease_of grant_id) s.leases ≤ spent grant_id s.grants

abbrev pub redeemed_grant : SecretGrant → SecretGrant
redeemed_grant grant = record grant { status = SecretGrantStatus.redeemed }

pub find-add :
    (j : String) (gs : List SecretGrant) (g : SecretGrant)
    → find (is_grant j) (gs ++ g ∷ []) ≡ (elim (find (is_grant j) gs) [
      | some x ↦ some x
      | none ↦ if str_eq g.grant_id j then some g else none
    ])
find-add j [] g = refl
find-add j (x ∷ gs) g = ground (arith, find-add j gs g)

pub find-redeemed :
    (j k : String) (gs : List SecretGrant)
    → find (is_grant j) (modify_first (is_grant k) redeemed_grant gs)
      ≡ (elim (find (is_grant j) gs) [
        | some x ↦ some (if str_eq k j then redeemed_grant x else x)
        | none ↦ none
      ])
find-redeemed j k [] = refl
find-redeemed j k (x ∷ gs) =
    ground (arith, find-redeemed j k gs, eq_iff x.grant_id j, eq_iff x.grant_id k, eq_iff k j)

pub count-add :
    (id : String) (ls : List SecretLease) (l : SecretLease)
    → count (is_lease_of id) (ls ++ l ∷ [])
      ≡ count (is_lease_of id) ls + (if str_eq l.grant_id id then 1 else 0)
count-add id [] l = ground arith
count-add id (x ∷ ls) l = ground (arith, count-add id ls l)

pub count-put :
    (id k : String) (ls : List SecretLease) (l l' : SecretLease)
    → find (is_lease k) ls ≡ some l
    → l'.grant_id ≡ l.grant_id
    → count (is_lease_of id) (modify_first (is_lease k) (λ _. l') ls) ≡ count (is_lease_of id) ls
count-put id k [] l l' f e = cc
count-put id k (x ∷ ls) l l' f e = ground (arith, count-put id k ls l l')

any-add :
    (id : String) (gs : List SecretGrant) (g : SecretGrant)
    → any (is_grant id) gs ≡ false
    → str_eq g.grant_id id ≡ false
    → any (is_grant id) (gs ++ g ∷ []) ≡ false
any-add id [] g a e = ground arith
any-add id (x ∷ gs) g a e = ground (arith, any-add id gs g)

any-redeemed :
    (id k : String) (gs : List SecretGrant)
    → any (is_grant id) (modify_first (is_grant k) redeemed_grant gs) ≡ any (is_grant id) gs
any-redeemed id k [] = refl
any-redeemed id k (x ∷ gs) = ground (arith, any-redeemed id k gs)

pub Distinct-add :
    (gs : List SecretGrant) (g : SecretGrant)
    → Distinct gs
    → find (is_grant g.grant_id) gs ≡ none
    → Distinct (gs ++ g ∷ [])
Distinct-add [] g d f = (refl, tt)
Distinct-add (x ∷ gs) g d f = (
  any-add x.grant_id gs g d.0
      (ground (arith, eq_iff g.grant_id x.grant_id, eq_iff x.grant_id g.grant_id)),
  Distinct-add gs g d.1 (ground arith),
)

pub Distinct-redeemed :
    (k : String) (gs : List SecretGrant)
    → Distinct gs
    → Distinct (modify_first (is_grant k) redeemed_grant gs)
Distinct-redeemed k [] d = tt
Distinct-redeemed k (x ∷ gs) d = elim (Bool-cases (is_grant k x)) [
  | inl hit ↦ rw hit d
  | inr miss ↦ rw miss (rw (any-redeemed x.grant_id k gs) d.0, Distinct-redeemed k gs d.1)
]
