-- ===== src/Prelude/Maps.antt =====
-- `BTreeMap` with keys that are numbers: entries in the order of their keys, as iteration gives
-- them.
use auspex.Prelude.{
  ℕ, suc, ◌≤◌, ◌<◌, ◌≡◌, refl, Bool, true, false, Option, none, some, List, [], ◌∷◌, ◌⊎◌, inl, inr,
  ◌||◌, arith, ltb, ◌==◌, if◌then◌else◌, Bool-cases,
}
use mathlib.Core.Option

abbrev pub contains : ℕ → List ℕ → Bool
contains k [] = false
contains k (j ∷ js) = j == k || contains k js

-- `is_some_and`
abbrev pub is_some_and {ℓ} : {A : Type ℓ} → (A → Bool) → Option A → Bool
is_some_and p none = false
is_some_and p (some a) = p a

abbrev pub Map {ℓ} : Type ℓ → Type ℓ
Map V = List (ℕ × V)

module _ {ℓ} {V : Type ℓ} where
  unfoldable pub get : ℕ → Map V → Option V
  get k [] = none
  get k ((j, v) ∷ m) = if j == k then some v else get k m

  unfoldable pub insert : ℕ → V → Map V → Map V
  insert k v [] = (k, v) ∷ []
  insert k v ((j, w) ∷ m) =
      if ltb k j then (k, v) ∷ (j, w) ∷ m else if j == k then (k, v) ∷ m else (j, w) ∷ insert k v m

  unfoldable pub remove : ℕ → Map V → Map V
  remove k [] = []
  remove k ((j, v) ∷ m) = let rest = remove k m in if j == k then rest else (j, v) ∷ rest

  -- `values_mut`, when the body of the loop replaces each value by `f` of it.
  unfoldable pub map_values : (V → V) → Map V → Map V
  map_values f [] = []
  map_values f ((j, v) ∷ m) = (j, f v) ∷ map_values f m

  -- A write puts its value at its key, and leaves the other keys alone.
  pub get-insert :
      (k j : ℕ) (v : V) (m : Map V) → get j (insert k v m) ≡ (if k == j then some v else get j m)
  unfolding get insert
  get-insert k j v [] = refl
  get-insert k j v ((i, w) ∷ m) = ground (arith, get-insert k j v m)

  pub get-remove : (k j : ℕ) (m : Map V) → get j (remove k m) ≡ (if k == j then none else get j m)
  unfolding get remove
  get-remove k j [] = ground arith
  get-remove k j ((i, w) ∷ m) = ground (arith, get-remove k j m)

  pub get-map_values :
      (f : V → V) (k : ℕ) (m : Map V) → get k (map_values f m) ≡ Option.map f (get k m)
  unfolding get map_values
  get-map_values f k [] = refl
  get-map_values f k ((i, w) ∷ m) = ground (arith, get-map_values f k m)

  -- What is found after `map_values` is the image of what was there.
  pub get-map_values_from :
      (f : V → V) (k : ℕ) (m : Map V) {w : V}
      → get k (map_values f m) ≡ some w
      → (v : V) × (get k m ≡ some v) × (some (f v) ≡ some w)
  unfolding get map_values
  get-map_values_from f k [] e = cc
  get-map_values_from f k ((i, v) ∷ m) e = elim (Bool-cases (i == k)) [
    | inl here ↦ (v, ground arith, ground arith)
    | inr other ↦
        let (u, found, image) = get-map_values_from f k m (ground arith) in (u, ground arith, image)
  ]

  -- The keys rise, from `n` on.
  abbrev pub IsSortedFrom : ℕ → Map V → Type 0
  IsSortedFrom n [] = Unit
  IsSortedFrom n ((k, v) ∷ m) = (n ≤ k) × IsSortedFrom (suc k) m

  pub insert-IsSortedFrom :
      (n k : ℕ) (v : V) (m : Map V) → n ≤ k → IsSortedFrom n m → IsSortedFrom n (insert k v m)
  unfolding insert
  insert-IsSortedFrom n k v [] h s = (h, tt)
  insert-IsSortedFrom n k v ((j, w) ∷ m) h s = ground (arith, insert-IsSortedFrom (suc j) k v m)

  pub map_values-IsSortedFrom :
      (f : V → V) (n : ℕ) (m : Map V) → IsSortedFrom n m → IsSortedFrom n (map_values f m)
  unfolding map_values
  map_values-IsSortedFrom f n [] s = tt
  map_values-IsSortedFrom f n ((j, w) ∷ m) s = (s.0, map_values-IsSortedFrom f (suc j) m s.1)

  IsSortedFrom-mono : (a b : ℕ) (m : Map V) → a ≤ b → IsSortedFrom b m → IsSortedFrom a m
  IsSortedFrom-mono a b [] h s = tt
  IsSortedFrom-mono a b ((j, w) ∷ m) h s = (omega arith, s.1)

  pub remove-IsSortedFrom : (n k : ℕ) (m : Map V) → IsSortedFrom n m → IsSortedFrom n (remove k m)
  unfolding remove
  remove-IsSortedFrom n k [] s = tt
  remove-IsSortedFrom n k ((j, w) ∷ m) s =
      ground (arith, remove-IsSortedFrom (suc j) k m s.1, IsSortedFrom-mono n (suc j) (remove k m))

  get_below : (n k : ℕ) (m : Map V) → IsSortedFrom n m → k < n → get k m ≡ none
  unfolding get
  get_below n k [] s h = refl
  get_below n k ((j, w) ∷ m) s h = ground (arith, get_below (suc j) k m s.1)

  -- What is found behind the first entry is found in the whole map.
  pub get-tail :
      (j k : ℕ) (w : V) (m : Map V) {v : V}
      → IsSortedFrom (suc k) m
      → get j m ≡ some v
      → get j ((k, w) ∷ m) ≡ some v
  unfolding get
  get-tail j k w m s e = ground (arith, get_below (suc k) j m s)

  -- `iter().filter_map(|(key, value)| test(value).then_some(*key))`
  unfoldable pub select_keys : (V → Bool) → Map V → List ℕ
  select_keys p [] = []
  select_keys p ((j, v) ∷ m) = let rest = select_keys p m in if p v then j ∷ rest else rest

  select_keys_below :
      (n k : ℕ) (p : V → Bool) (m : Map V)
      → IsSortedFrom n m
      → k < n
      → contains k (select_keys p m) ≡ false
  unfolding select_keys
  select_keys_below n k p [] s h = refl
  select_keys_below n k p ((j, w) ∷ m) s h = ground (arith, select_keys_below (suc j) k p m s.1)

  -- A key is selected exactly when its value passes the test.
  pub contains-select_keys :
      (n k : ℕ) (p : V → Bool) (m : Map V)
      → IsSortedFrom n m
      → contains k (select_keys p m) ≡ is_some_and p (get k m)
  unfolding select_keys get
  contains-select_keys n k p [] s = refl
  contains-select_keys n k p ((j, w) ∷ m) s =
      ground (arith, contains-select_keys (suc j) k p m s.1, select_keys_below (suc j) k p m s.1)

  -- `values_mut().find(p)`, and `f` on what it finds.
  unfoldable pub update_first : (V → Bool) → (V → V) → Map V → Map V
  update_first p f [] = []
  update_first p f ((j, v) ∷ m) = if p v then (j, f v) ∷ m else (j, v) ∷ update_first p f m

  -- At most the values that pass the test have changed, by `f`.
  pub get-update_first :
      (p : V → Bool) (f : V → V) (k : ℕ) (m : Map V)
      → (get k (update_first p f m) ≡ get k m)
        ⊎ ((v : V) × (get k m ≡ some v) × (p v ≡ true) × (get k (update_first p f m) ≡ some (f v)))
  unfolding get update_first
  get-update_first p f k [] = inl refl
  get-update_first p f k ((j, w) ∷ m) = elim (Bool-cases (p w)) [
    | inl hit ↦ elim (Bool-cases (j == k)) [
      | inl here ↦ inr (w, ground arith, hit, ground arith)
      | inr other ↦ inl (ground arith)
    ]
    | inr miss ↦ elim (Bool-cases (j == k)) [
      | inl here ↦ inl (ground arith)
      | inr other ↦ rw (miss, other) (get-update_first p f k m)
    ]
  ]

  pub update_first-IsSortedFrom :
      (p : V → Bool) (f : V → V) (n : ℕ) (m : Map V)
      → IsSortedFrom n m
      → IsSortedFrom n (update_first p f m)
  unfolding update_first
  update_first-IsSortedFrom p f n [] s = tt
  update_first-IsSortedFrom p f n ((j, w) ∷ m) s =
      ground (arith, update_first-IsSortedFrom p f (suc j) m s.1)

  -- Writing back the value that a key has changes nothing.
  pub insert-get_self :
      (n k : ℕ) (v : V) (m : Map V) → IsSortedFrom n m → get k m ≡ some v → insert k v m ≡ m
  unfolding get insert
  insert-get_self n k v [] s e = cc
  insert-get_self n k v ((j, w) ∷ m) s e =
      ground (arith, insert-get_self (suc j) k v m s.1, get_below (suc j) k m s.1)

-- `values_mut().filter_map(f)`: the values that `f` leaves, and what it returns on the way.
module _ {ℓ} {V B : Type ℓ} where
  unfoldable pub filter_map_mut : (V → Option B × V) → Map V → List B × Map V
  filter_map_mut f [] = ([], [])
  filter_map_mut f ((k, v) ∷ m) =
      let (found, w) = f v in
      let (rest, m') = filter_map_mut f m in
      (elim found [ none ↦ rest | some b ↦ b ∷ rest ], (k, w) ∷ m')

  pub filter_map_mut-map_values :
      (f : V → Option B × V) (m : Map V) → (filter_map_mut f m).1 ≡ map_values (λ v. (f v).1) m
  unfolding filter_map_mut map_values
  filter_map_mut-map_values f [] = refl
  filter_map_mut-map_values f ((k, v) ∷ m) = rw (filter_map_mut-map_values f m)
