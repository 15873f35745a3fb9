-- ===== src/Ports/Choice.antt =====
-- Which port is chosen.
use auspex.Prelude.{
  ℕ, zero, suc, ◌+◌, ◌-◌, ◌≤◌, ◌<◌, ◌≡◌, ◌≢◌, ◌⊎◌, inl, inr, refl, ap, ◌∙◌, Bool, true, false,
  Option, none, some, List, [], ◌∷◌, ◌++◌, ltb, ◌==◌, find, ok, err, arith, Bool-cases, ok_or,
}
use auspex.Ports.{
  LocalAgentPortState, addr_not_available, choose_next_port, monotonic_port_candidates, range_from,
  start_after,
}

-- No port from `a` up to `b` (excluded) is available.
abbrev pub NoneFree : (ℕ → Bool) → ℕ → ℕ → Type 0
NoneFree f a b = (q : ℕ) → a ≤ q → q < b → f q ≡ false

-- What `find` does on the numbers from `a` up to `b`.
pub record FirstFree (f : ℕ → Bool) (a b p : ℕ) : Type 0 where
  pub from : a ≤ p
  pub below : p < b
  pub free : f p ≡ true
  pub before : NoneFree f a p

find-range_from :
    (f : ℕ → Bool) (a n : ℕ)
    → ((find f (range_from a n) ≡ none) × NoneFree f a (a + n))
      ⊎ ((p : ℕ) × (find f (range_from a n) ≡ some p) × FirstFree f a (a + n) p)
find-range_from f a zero = inl (refl, λ q h k. absurd (omega arith))
find-range_from f a (suc n) = elim (Bool-cases (f a)) [
  | inl free ↦ inr (
    a,
    rw free refl,
    record {
      from = omega arith;
      below = omega arith;
      free = free;
      before = λ q h k. absurd (omega arith);
    },
  )
  | inr taken ↦ elim (find-range_from f (a + 1) n) [
    | inl (e, rest) ↦ inl (
      rw taken e,
      λ q h k. elim (Bool-cases (a == q)) [
        | inl same ↦ ground arith
        | inr other ↦ rest q (ground arith) (omega arith)
      ],
    )
    | inr (p, e, first) ↦ inr (
      p,
      rw taken e,
      record {
        from = omega (arith, first.from);
        below = omega (arith, first.below);
        free = first.free;
        before = λ q h k. elim (Bool-cases (a == q)) [
          | inl same ↦ ground arith
          | inr other ↦ first.before q (ground arith) (omega arith)
        ];
      },
    )
  ]
]

find-append-none :
    (f : ℕ → Bool) (xs ys : List ℕ) → find f xs ≡ none → find f (xs ++ ys) ≡ find f ys
find-append-none f [] ys h = refl
find-append-none f (x ∷ xs) ys h = ground (arith, find-append-none f xs ys)

find-append-some :
    (f : ℕ → Bool) (xs ys : List ℕ) (p : ℕ) → find f xs ≡ some p → find f (xs ++ ys) ≡ some p
find-append-some f [] ys p h = ground arith
find-append-some f (x ∷ xs) ys p h = ground (arith, find-append-some f xs ys p)

start_after-bounds : (last : Option ℕ) → (7900 ≤ start_after last) × (start_after last ≤ 7999)
unfolding start_after
start_after-bounds none = (omega arith, omega arith)
start_after-bounds (some p) = (ground arith, ground arith)

-- The search starts behind the last port, or anew behind the last of all.
start_after-last :
    (p : ℕ)
    → 7900 ≤ p
    → p ≤ 7999
    → (start_after (some p) ≡ p + 1) ⊎ ((p ≡ 7999) × (start_after (some p) ≡ 7900))
unfolding start_after
start_after-last p h k = elim (Bool-cases (p == 7999)) [
  | inl end ↦ inr (ground arith, ground arith)
  | inr before ↦ inl (ground arith)
]

-- A port that may be chosen after `last`.
pub record IsChosen (f : ℕ → Bool) (last : Option ℕ) (p : ℕ) : Type 0 where
  pub from : 7900 ≤ p
  pub to : p ≤ 7999
  pub free : f p ≡ true
  pub rotates : last ≡ some p → (q : ℕ) → 7900 ≤ q → q ≤ 7999 → q ≢ p → f q ≡ false

different : (p q : ℕ) → q ≢ p → (q < p) ⊎ (p < q)
different p q h = elim (Bool-cases (ltb q p)) [
  | inl below ↦ inl (ground arith)
  | inr above ↦ elim (Bool-cases (q == p)) [
    | inl same ↦ absurd (h (ground arith))
    | inr other ↦ inr (ground arith)
  ]
]

-- Behind the start of the search
IsChosen-behind :
    (f : ℕ → Bool) (last : Option ℕ) (p : ℕ)
    → FirstFree f (start_after last) (start_after last + (8000 - start_after last)) p
    → IsChosen f last p
IsChosen-behind f last p first =
    let bounds = start_after-bounds last in
    let from : 7900 ≤ p = omega (arith, bounds.0, first.from) in
    let to : p ≤ 7999 = omega (arith, bounds.0, bounds.1, first.below) in
    record {
      from = from;
      to = to;
      free = first.free;
      rotates = λ e q h k other. elim (start_after-last p from to) [
        | inl next ↦ absurd (omega (arith, first.from, ap start_after e ∙ next))
        | inr (end, anew) ↦ elim (different p q other) [
          | inl below ↦ first.before q (omega (arith, ap start_after e ∙ anew, h)) below
          | inr above ↦ absurd (omega arith)
        ]
      ];
    }

-- Before the start of the search, when nothing behind it is free
IsChosen-before :
    (f : ℕ → Bool) (last : Option ℕ) (p : ℕ)
    → NoneFree f (start_after last) (start_after last + (8000 - start_after last))
    → FirstFree f 7900 (7900 + (start_after last - 7900)) p
    → IsChosen f last p
IsChosen-before f last p taken first =
    let bounds = start_after-bounds last in
    let to : p ≤ 7999 = omega (arith, bounds.0, bounds.1, first.below) in
    record {
      from = first.from;
      to = to;
      free = first.free;
      rotates = λ e q h k other. elim (start_after-last p first.from to) [
        | inl next ↦ elim (different p q other) [
          | inl below ↦ first.before q h below
          | inr above ↦
              taken q (omega (arith, ap start_after e ∙ next)) (omega (arith, bounds.0, bounds.1))
        ]
        | inr (end, anew) ↦ absurd (omega (arith, ap start_after e ∙ anew, first.from, first.below))
      ];
    }

-- For every answer of the operating system, the choice of a port ends in one of two ways. It is a
-- port from 7900 to 7999 that is available, and it is the port of the last allocation only when no
-- other port of that range is available; or no port of the range is available, and the choice is the
-- error for that.
pub choose_next_port_cases :
    (is_available : ℕ → Bool) (state : LocalAgentPortState)
    → ((p : ℕ) × (choose_next_port is_available state ≡ ok p)
        × IsChosen is_available state.last_allocated p)
      ⊎ ((choose_next_port is_available state ≡ err addr_not_available)
          × ((q : ℕ) → 7900 ≤ q → q ≤ 7999 → is_available q ≡ false))
unfolding choose_next_port monotonic_port_candidates
choose_next_port_cases f state =
    let last = state.last_allocated in
    let s = start_after last in
    let bounds = start_after-bounds last in
    let behind = range_from s (8000 - s) in
    let before = range_from 7900 (s - 7900) in
    elim (find-range_from f s (8000 - s)) [
      | inr (p, e, first) ↦ inl (
        p,
        ap (λ o. ok_or o addr_not_available) (find-append-some f behind before p e),
        IsChosen-behind f last p first,
      )
      | inl (e, taken) ↦ elim (find-range_from f 7900 (s - 7900)) [
        | inr (p, e', first) ↦ inl (
          p,
          ap (λ o. ok_or o addr_not_available) (find-append-none f behind before e ∙ e'),
          IsChosen-before f last p taken first,
        )
        | inl (e', rest) ↦ inr (
          ap (λ o. ok_or o addr_not_available) (find-append-none f behind before e ∙ e'),
          λ q h k. elim (Bool-cases (ltb q s)) [
            | inl below ↦ rest q h (ground (arith, bounds.0))
            | inr above ↦ taken q (ground arith) (omega (arith, bounds.1))
          ],
        )
      ]
    ]
