-- ===== src/Instances/Inventory/Store/Traffic.antt =====
-- What the loss of an instance leaves in the inventory.
use auspex.Prelude.{
  ◌≡◌, ◌≢◌, inl, inr, refl, ◌∙◌, String, true, false, none, some, [], ◌∷◌, arith, str_eq, eq_iff,
  if◌then◌else◌, Bool-cases, Option-cases,
}
use auspex.Instances.Inventory.Store.{
  Key, Resources, RuntimeInventoryResource, RuntimeInventoryResourceState, RuntimeInventoryResponse,
  get_resource, insert_resource, key_eq, key_lt, mark_instance_stale, remove_instance, ready, stale,
  stale_state,
}

-- Keys are compared by their parts.
key_trans : (i j k : Key) → key_eq i j ≡ true → key_eq k j ≡ true → key_eq i k ≡ true
unfolding key_eq
key_trans i j k p q = ground (arith, eq_iff i.0 j.0, eq_iff k.0 j.0, eq_iff i.0 k.0)

key_same : (i j k : Key) → key_eq i k ≡ true → key_eq i j ≡ key_eq k j
unfolding key_eq
key_same i j k p = ground (arith, eq_iff i.0 j.0, eq_iff k.0 j.0, eq_iff i.0 k.0)

same_instance : (i j : Key) → key_eq i j ≡ true → i.0 ≡ j.0
unfolding key_eq
same_instance i j h = ground (arith, eq_iff i.0 j.0)

module _ {V : Type 0} where
  pub get-insert_resource :
      (k j : Key) (v : RuntimeInventoryResource V) (m : Resources V)
      → get_resource j (insert_resource k v m) ≡ (if key_eq k j then some v else get_resource j m)
  unfolding get_resource insert_resource
  get-insert_resource k j v [] = refl
  get-insert_resource k j v ((i, w) ∷ m) = elim (Bool-cases (key_lt k i)) [
    | inl before ↦ rw before refl
    | inr after ↦ elim (Bool-cases (key_eq i k)) [
      | inl same ↦ rw (after, same, key_same i j k same) (ground arith)
      | inr other ↦ elim (Bool-cases (key_eq i j)) [
        | inl here ↦
            rw (after, other, here)
              (elim (Bool-cases (key_eq k j)) [
                | inl both ↦ absurd (cc (key_trans i j k here both))
                | inr no_match ↦ rw no_match refl
              ])
        | inr miss ↦ rw (after, other, miss) (get-insert_resource k j v m)
      ]
    ]
  ]

  get-mark_instance_stale :
      (id : String) (j : Key) (m : Resources V)
      → get_resource j (mark_instance_stale id m) ≡ (elim (get_resource j m) [
        | none ↦ none
        | some v ↦ some (if str_eq j.0 id then record v { state = stale_state v.state } else v)
      ])
  unfolding get_resource mark_instance_stale
  get-mark_instance_stale id j [] = refl
  get-mark_instance_stale id j ((i, w) ∷ m) = elim (Bool-cases (key_eq i j)) [
    | inl here ↦ rw (here, same_instance i j here) refl
    | inr other ↦ rw (other) (get-mark_instance_stale id j m)
  ]

module _ {V : Type 0} where
  -- Nothing is taken for current.
  abbrev pub IsNotReady : RuntimeInventoryResourceState V → Type 0
  IsNotReady state = (response : RuntimeInventoryResponse V) → state ≢ ready response

  stale_state-IsNotReady :
      (state : RuntimeInventoryResourceState V) → IsNotReady (stale_state state)
  stale_state-IsNotReady RuntimeInventoryResourceState.loading response h = cc
  stale_state-IsNotReady (ready r) response h = cc
  stale_state-IsNotReady (stale r) response h = cc
  stale_state-IsNotReady (RuntimeInventoryResourceState.error x) response h = cc

  stale_twice :
      (state : RuntimeInventoryResourceState V)
      → stale_state (stale_state state) ≡ stale_state state
  stale_twice state = ground arith

  mark_twice :
      (id : String) (m : Resources V)
      → mark_instance_stale id (mark_instance_stale id m) ≡ mark_instance_stale id m
  unfolding mark_instance_stale
  mark_twice id [] = refl
  mark_twice id ((j, v) ∷ m) = elim (Bool-cases (str_eq j.0 id)) [
    | inl here ↦ rw (here, stale_twice v.state, mark_twice id m) refl
    | inr other ↦ rw (other, mark_twice id m) refl
  ]

  get-remove_instance :
      (id : String) (j : Key) (m : Resources V)
      → get_resource j (remove_instance id m) ≡ (if str_eq j.0 id then none else get_resource j m)
  unfolding get_resource remove_instance
  get-remove_instance id j [] = ground arith
  get-remove_instance id j ((i, w) ∷ m) = elim (Bool-cases (key_eq i j)) [
    | inl here ↦ elim (Bool-cases (str_eq i.0 id)) [
      | inl gone ↦ rw (gone) (
          get-remove_instance id j m
          ∙ rw (same_instance i j here) (rw (← same_instance i j here, gone) refl))
      | inr kept ↦ rw (kept, here, ← same_instance i j here, kept) refl
    ]
    | inr other ↦ elim (Bool-cases (str_eq i.0 id)) [
      | inl gone ↦ rw (gone, other) (get-remove_instance id j m)
      | inr kept ↦ rw (kept, other) (get-remove_instance id j m)
    ]
  ]

  -- After the loss of an instance no resource of it is ready, and each is there with the time at
  -- which it was observed; a second notice of the loss changes nothing; and its removal takes its
  -- resources out. The resources of other instances stay as they were.
  pub mark_instance_stale_lem :
      (id : String) (m : Resources V) (j : Key)
      → ((v : RuntimeInventoryResource V)
          → get_resource j m ≡ some v
          → str_eq j.0 id ≡ true
          → (w : RuntimeInventoryResource V) × (get_resource j (mark_instance_stale id m) ≡ some w)
            × IsNotReady w.state
            × (w.observed_at_unix_ms ≡ v.observed_at_unix_ms))
        × (str_eq j.0 id ≡ false → get_resource j (mark_instance_stale id m) ≡ get_resource j m)
        × (mark_instance_stale id (mark_instance_stale id m) ≡ mark_instance_stale id m)
        × (get_resource j (remove_instance id m)
            ≡ (if str_eq j.0 id then none else get_resource j m))
  mark_instance_stale_lem id m j = (
    λ v at here. (
      record v { state = stale_state v.state },
      get-mark_instance_stale id j m ∙ rw (at, here) refl,
      stale_state-IsNotReady v.state,
      refl,
    ),
    λ other. get-mark_instance_stale id j m ∙ (elim (Option-cases (get_resource j m)) [
      | inl missing ↦ rw missing refl
      | inr (v, at) ↦ rw (at, other) refl
    ]),
    mark_twice id m,
    get-remove_instance id j m,
  )
