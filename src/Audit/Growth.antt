-- ===== src/Audit/Growth.antt =====
-- What one entry adds to the timeline.
use auspex.Prelude.{
  ℕ, ◌+◌, ◌≡◌, inl, inr, refl, sym, ap, ◌∙◌, String, Bool, true, false, ◌||◌, List, [], ◌∷◌, ◌++◌,
  map, any, length, str_eq, eq_iff, eq_refl, arith, Bool-cases, length-append,
}
use auspex.Audit.Entry.{AuditEntry}
use auspex.Audit.Store.{AuditTimelineStore, append_entry, count_appended, is_seen, rebuild_seen_ids}

abbrev pub has_block : String → AuditEntry → Bool
has_block id entry = str_eq id entry.block_id

-- No two entries have one id.
abbrev pub Distinct : List AuditEntry → Type 0
Distinct [] = Unit
Distinct (e ∷ es) = (any (has_block e.block_id) es ≡ false) × Distinct es

-- The set of seen ids is the set of the entries' ids, and these are distinct.
pub record IsConsistent (store : AuditTimelineStore) : Type 0 where
  pub seen : (id : String) → is_seen id store.seen_ids ≡ any (has_block id) store.entries
  pub distinct : Distinct store.entries

-- The store has grown by `n` entries, at its end.
pub record Grown (n : ℕ) (old new : AuditTimelineStore) : Type 0 where
  pub added : List AuditEntry
  pub entries : new.entries ≡ old.entries ++ added
  pub counted : length added ≡ n
  pub schema : new.schema_version ≡ old.schema_version
  pub keeps : (id : String) → is_seen id old.seen_ids ≡ true → is_seen id new.seen_ids ≡ true
  pub consistent : IsConsistent old → IsConsistent new

any-append :
    (p : AuditEntry → Bool) (xs ys : List AuditEntry) → any p (xs ++ ys) ≡ (any p xs || any p ys)
any-append p [] ys = refl
any-append p (x ∷ xs) ys = ground (arith, any-append p xs ys)

append_assoc : (xs ys zs : List AuditEntry) → (xs ++ ys) ++ zs ≡ xs ++ (ys ++ zs)
append_assoc [] ys zs = refl
append_assoc (x ∷ xs) ys zs = ap (λ l. x ∷ l) (append_assoc xs ys zs)

append_nil : (xs : List AuditEntry) → xs ≡ xs ++ []
append_nil [] = refl
append_nil (x ∷ xs) = ap (λ l. x ∷ l) (append_nil xs)

Distinct-append :
    (e : AuditEntry) (xs : List AuditEntry)
    → Distinct xs
    → any (has_block e.block_id) xs ≡ false
    → Distinct (xs ++ e ∷ [])
Distinct-append e [] d h = (refl, tt)
Distinct-append e (x ∷ xs) d h = (
  ground (
    arith,
    d.0,
    h,
    any-append (has_block x.block_id) xs (e ∷ []),
    eq_iff x.block_id e.block_id,
    eq_iff e.block_id x.block_id,
  ),
  Distinct-append e xs d.1 (ground arith),
)

pub Grown-refl : (store : AuditTimelineStore) → Grown 0 store store
Grown-refl store = record {
  added = [];
  entries = append_nil store.entries;
  counted = refl;
  schema = refl;
  keeps = λ id h. h;
  consistent = λ c. c;
}

pub Grown-trans :
    {n m : ℕ} (a b c : AuditTimelineStore) → Grown n a b → Grown m b c → Grown (n + m) a c
Grown-trans a b c f g = record {
  added = f.added ++ g.added;
  entries = g.entries ∙ (ap (λ l. l ++ g.added) f.entries ∙ append_assoc a.entries f.added g.added);
  counted = omega (arith, length-append f.added g.added, f.counted, g.counted);
  schema = g.schema ∙ f.schema;
  keeps = λ id h. g.keeps id (f.keeps id h);
  consistent = λ h. g.consistent (f.consistent h);
}

-- One entry
appended : AuditEntry → AuditTimelineStore → AuditTimelineStore
appended e store = record store {
  entries = store.entries ++ e ∷ [];
  seen_ids = e.block_id ∷ store.seen_ids;
}

appended-Grown :
    (e : AuditEntry) (store : AuditTimelineStore)
    → is_seen e.block_id store.seen_ids ≡ false
    → Grown 1 store (appended e store)
unfolding appended
appended-Grown e store new = record {
  added = e ∷ [];
  entries = refl;
  counted = refl;
  schema = refl;
  keeps = λ id h. ground arith;
  consistent = λ c. record {
    seen = λ id. ground (arith, c.seen id, any-append (has_block id) store.entries (e ∷ []));
    distinct = Distinct-append e store.entries c.distinct (sym (c.seen e.block_id) ∙ new);
  };
}

pub append_entry-Grown :
    (e : AuditEntry) (store : AuditTimelineStore)
    → Grown (count_appended (append_entry e store).0 0) store (append_entry e store).1
      × (is_seen e.block_id (append_entry e store).1.seen_ids ≡ true)
unfolding append_entry appended
append_entry-Grown e store = elim (Bool-cases (is_seen e.block_id store.seen_ids)) [
  | inl seen ↦ rw seen (Grown-refl store, seen)
  | inr new ↦ rw new (appended-Grown e store new, ground (arith, eq_refl e.block_id))
]

-- A timeline that is read from a file has its set of seen ids made again.
rebuild_seen_ids-seen :
    (id : String) (es : List AuditEntry)
    → is_seen id (map (λ e. e.block_id) es) ≡ any (has_block id) es
rebuild_seen_ids-seen id [] = refl
rebuild_seen_ids-seen id (e ∷ es) = ground (arith, rebuild_seen_ids-seen id es)

rebuild_seen_ids-IsConsistent :
    (store : AuditTimelineStore) → Distinct store.entries → IsConsistent (rebuild_seen_ids store)
unfolding rebuild_seen_ids
rebuild_seen_ids-IsConsistent store d = record {
  seen = λ id. rebuild_seen_ids-seen id store.entries;
  distinct = d;
}
