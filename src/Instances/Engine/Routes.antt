-- ===== src/Instances/Engine/Routes.antt =====
-- The command route of a session is always one of its routes.
use auspex.Prelude.{
  ◌≡◌, inl, inr, refl, sym, ap, ◌∙◌, subst, String, true, false, some, List, [], ◌∷◌, map, arith,
  any, find, eq_iff, eq_refl, Bool-cases, Option-cases,
}
use auspex.Instances.Attached.{session_dispatcher_route_id}
use auspex.Instances.Engine.{
  AttachedInstanceStateEngine, CommandRouteProjection, available_command_routes,
  current_command_target, default_route, first_route_id, is_route, routes_or_local, selected_route,
  project_command_route,
}

found :
    (id : String) (routes : List CommandRouteProjection)
    → any (is_route id) routes ≡ true
    → (route : CommandRouteProjection) × (find (is_route id) routes ≡ some route)
      × (route.route_id ≡ id)
found id [] h = absurd (cc)
found id (x ∷ xs) h = elim (Bool-cases (is_route id x)) [
  | inl hit ↦ (x, ground arith, (eq_iff x.route_id id).0 hit)
  | inr miss ↦ let (route, at, named) = found id xs (ground arith) in (route, ground arith, named)
]

default_dispatcher :
    (routes : List CommandRouteProjection)
    → any (is_route session_dispatcher_route_id) routes ≡ true
    → default_route routes ≡ session_dispatcher_route_id
default_dispatcher routes h = rw h refl

default_first :
    (routes : List CommandRouteProjection)
    → any (is_route session_dispatcher_route_id) routes ≡ false
    → default_route routes ≡ first_route_id routes
default_first routes h = rw h refl

default_is_route :
    (x : CommandRouteProjection) (xs : List CommandRouteProjection)
    → any (is_route (default_route (x ∷ xs))) (x ∷ xs) ≡ true
default_is_route x xs =
    let is_one = λ (d : String). any (is_route d) (x ∷ xs) ≡ true in
    elim (Bool-cases (any (is_route session_dispatcher_route_id) (x ∷ xs))) [
      | inl dispatcher ↦ subst is_one (sym (default_dispatcher (x ∷ xs) dispatcher)) dispatcher
      | inr other ↦
          subst is_one (sym (default_first (x ∷ xs) other)) (ground (arith, eq_refl x.route_id))
    ]

some_route :
    (key : String) (routes : List CommandRouteProjection)
    → any (is_route (default_route (routes_or_local key routes))) (routes_or_local key routes)
      ≡ true
unfolding routes_or_local
some_route key [] = refl
some_route key (x ∷ xs) = default_is_route x xs

module _ {V : Type 0} where
  selected_available :
      (e : AttachedInstanceStateEngine V)
      → any (is_route (selected_route e)) (available_command_routes e) ≡ true
  unfolding selected_route available_command_routes
  selected_available e =
      let routes = available_command_routes e in
      elim (Option-cases e.selected_command_route_id) [
        | inl unset ↦
            rw unset (some_route e.session_key (map project_command_route e.attached_instances))
        | inr (selected, set) ↦ elim (Bool-cases (any (is_route selected) routes)) [
          | inl there ↦ rw (set, there) there
          | inr gone ↦
              rw (set, gone)
                (some_route e.session_key (map project_command_route e.attached_instances))
        ]
      ]

  target_of :
      (e : AttachedInstanceStateEngine V) (route : CommandRouteProjection)
      → find (is_route (selected_route e)) (available_command_routes e) ≡ some route
      → current_command_target e ≡ route.target
  unfolding current_command_target
  target_of e route at = rw (current_command_target, at) refl

  -- No route is selected that the session has.
  abbrev pub NoneSelected : AttachedInstanceStateEngine V → Type 0
  NoneSelected e =
      (wanted : String)
      → e.selected_command_route_id ≡ some wanted
      → any (is_route wanted) (available_command_routes e) ≡ false

  unselected :
      (e : AttachedInstanceStateEngine V)
      → NoneSelected e
      → selected_route e ≡ default_route (available_command_routes e)
  unfolding selected_route
  unselected e h = elim (Option-cases e.selected_command_route_id) [
    | inl unset ↦ rw (selected_route, unset) refl
    | inr (wanted, set) ↦ rw (selected_route, set, h wanted set) refl
  ]

  -- Commands go to the target of a route that the session has: the one that was selected, as long
  -- as the session has it. If none was selected, or the session no longer has it, they go to the
  -- dispatcher's route if there is one, and otherwise to the first route.
  pub current_command_target_lem :
      (e : AttachedInstanceStateEngine V)
      → let routes = available_command_routes e in
        ((route : CommandRouteProjection) × (find (is_route (selected_route e)) routes ≡ some route)
          × (route.route_id ≡ selected_route e)
          × (current_command_target e ≡ route.target))
        × ((wanted : String)
            → e.selected_command_route_id ≡ some wanted
            → any (is_route wanted) routes ≡ true
            → selected_route e ≡ wanted)
        × (NoneSelected e
            → any (is_route session_dispatcher_route_id) routes ≡ true
            → selected_route e ≡ session_dispatcher_route_id)
        × ((first : CommandRouteProjection) (others : List CommandRouteProjection)
            → NoneSelected e
            → any (is_route session_dispatcher_route_id) routes ≡ false
            → routes ≡ first ∷ others
            → selected_route e ≡ first.route_id)
  unfolding selected_route
  current_command_target_lem e =
      let routes = available_command_routes e in
      let (route, at, named) = found (selected_route e) routes (selected_available e) in
      (
        (route, at, named, target_of e route at),
        λ wanted set there. rw (set, there) refl,
        λ none_of dispatcher. unselected e none_of ∙ default_dispatcher routes dispatcher,
        λ first others none_of other begins.
            unselected e none_of ∙ (default_first routes other ∙ ap first_route_id begins),
      )
