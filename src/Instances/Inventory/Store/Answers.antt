-- ===== src/Instances/Inventory/Store/Answers.antt =====
-- What an event of an instance leaves in the inventory, said of its JSON.
use auspex.Prelude.{
  [], ◌∷◌, concat, ℕ, ◌≡◌, ◌⊎◌, ◌↔◌, inl, inr, refl, sym, ap, ◌∙◌, subst, String, Bool, true, false,
  Option, none, some, arith, eq_iff, eq_refl, Result, ok, err, if◌then◌else◌, Bool-cases,
  Option-cases, Result-cases,
}
use auspex.Instances.Inventory.{
  RuntimeInventoryRequest, request_for_method, request_method, request_for_method-request_method,
}
use auspex.Instances.Inventory.Store.{
  InventoryJson, Key, Resources, RuntimeInventoryResource, RuntimeInventoryResourceState,
  accepted_member, answer_state, answered_request, apply_control_result_json, apply_response,
  decode_response, error, event_response, get_resource, is_control_result, key_eq, put_resource,
  ready, text_member,
}
use auspex.Instances.Inventory.Store.Traffic.{get-insert_resource}

some_or_none {ℓ} : {A : Type ℓ} {B : Type 0} {a : A} → some a ≡ none → B
some_or_none h = absurd (cc h)

true_or_false : {B : Type 0} → true ≡ false → B
true_or_false h = absurd (cc h)

some_same : {a b : String} → some a ≡ some b → a ≡ b
some_same h = cc h

module _ (json : InventoryJson) where
  open json use {Value, parse, member, as_str, as_bool, read_built}

  -- The member of the JSON is this text, or no text.
  abbrev HasText : Value → String → String → Type 0
  HasText value key text = (v : Value) × (member value key ≡ some v) × (as_str v ≡ some text)

  abbrev TextIs : Value → String → Option String → Type 0
  TextIs value key (some text) = HasText value key text
  TextIs value key none = (text : String) → ¬ (HasText value key text)

  -- The event is a control result that answers the request.
  abbrev pub Answers : Value → RuntimeInventoryRequest → Type 0
  Answers value request =
      HasText value "type" "control_result" × HasText value "name" (request_method request)

  -- The event says that the request was accepted.
  abbrev IsAccepted : Value → Type 0
  IsAccepted value = (v : Value) × (member value "accepted" ≡ some v) × (as_bool v ≡ some true)

  -- The state that an event puts the resource of its request into.
  pub data Heard (value : Value) (request : RuntimeInventoryRequest)
      : RuntimeInventoryResourceState Value → Type 0 where
    taken :
        (output : Option String)
        → IsAccepted value
        → TextIs value "output" output
        → Heard value request (
            ready (record {
              method = request_method request;
              accepted = true;
              output = output;
              details = [];
            }))
    refused :
        (output : String)
        → ¬ (IsAccepted value)
        → TextIs value "output" (some output)
        → Heard value request (error output)
    refused_silently :
        ¬ (IsAccepted value)
        → TextIs value "output" none
        → Heard value request (error "Omegon rejected the inventory request")

  text_missing :
      (value : Value) (key : String) → member value key ≡ none → text_member json value key ≡ none
  text_missing value key missing = rw (text_member, missing) refl

  text_at :
      (value : Value) (key : String) (v : Value)
      → member value key ≡ some v
      → text_member json value key ≡ as_str v
  text_at value key v at = rw (text_member, at) refl

  text_member_iff :
      (value : Value) (key text : String)
      → (text_member json value key ≡ some text) ↔ HasText value key text
  text_member_iff value key text = (
    λ h. elim (Option-cases (member value key)) [
      | inl missing ↦ absurd (some_or_none (sym h ∙ text_missing value key missing))
      | inr (v, at) ↦ (v, at, sym (text_at value key v at) ∙ h)
    ],
    λ (v, at, read). text_at value key v at ∙ read,
  )

  text_member-TextIs :
      (value : Value) (key : String) → TextIs value key (text_member json value key)
  text_member-TextIs value key = elim (Option-cases (text_member json value key)) [
    | inl nothing ↦
        subst (TextIs value key) (sym nothing)
          (λ text t. some_or_none (sym ((text_member_iff value key text).1 t) ∙ nothing))
    | inr (text, e) ↦ subst (TextIs value key) (sym e) ((text_member_iff value key text).0 e)
  ]

  accepted_at :
      (value v : Value)
      → member value "accepted" ≡ some v
      → accepted_member json value ≡ (elim (as_bool v) [ none ↦ false | some b ↦ b ])
  accepted_at value v at = rw (accepted_member, at) refl

  accepted_member_iff : (value : Value) → (accepted_member json value ≡ true) ↔ IsAccepted value
  accepted_member_iff value = (
    λ h. elim (Option-cases (member value "accepted")) [
      | inl missing ↦ absurd (ground arith)
      | inr (v, at) ↦ elim (Option-cases (as_bool v)) [
        | inl other ↦ absurd (ground (arith, accepted_at value v at))
        | inr (b, read) ↦ (v, at, ground (arith, accepted_at value v at))
      ]
    ],
    λ (v, at, read). accepted_at value v at ∙ rw read refl,
  )

  type_iff :
      (value : Value)
      → (is_control_result json value ≡ true) ↔ HasText value "type" "control_result"
  type_iff value = (
    λ h. elim (Option-cases (text_member json value "type")) [
      | inl nothing ↦ absurd (ground arith)
      | inr (kind, e) ↦
          (text_member_iff value "type" "control_result").0
            (ground (arith, eq_iff kind "control_result"))
    ],
    λ h.
        ground
          (arith, (text_member_iff value "type" "control_result").1 h, eq_refl "control_result"),
  )

  answered_cases :
      (value : Value)
      → ((request : RuntimeInventoryRequest) × (answered_request json value
            ≡ some (request_method request, request))
          × Answers value request)
        ⊎ ((answered_request json value ≡ none)
            × ((request : RuntimeInventoryRequest) → ¬ (Answers value request)))
  answered_cases value = elim (Bool-cases (is_control_result json value)) [
    | inr other ↦ inr (
      rw (answered_request, other) refl,
      λ request answer. ground (arith, (type_iff value).1 answer.0),
    )
    | inl kind ↦ elim (Option-cases (text_member json value "name")) [
      | inl nameless ↦ inr (
        rw (answered_request, kind, nameless) refl,
        λ request answer.
            some_or_none
              (sym ((text_member_iff value "name" (request_method request)).1 answer.1) ∙ nameless),
      )
      | inr (name, named) ↦ elim (Option-cases (request_for_method name)) [
        | inl unknown ↦ inr (
          rw (answered_request, kind, named, unknown) refl,
          λ request answer. some_or_none (
              sym (
                (request_for_method-request_method request name).1 (
                  some_same (
                    sym named
                    ∙ (text_member_iff value "name" (request_method request)).1 answer.1)))
              ∙ unknown),
        )
        | inr (request, known) ↦
            let same = (request_for_method-request_method request name).0 known in
            inl (
              request,
              rw (answered_request, kind, named, known) (ap (λ n. some (n, request)) same),
              (
                (type_iff value).0 kind,
                (text_member_iff value "name" (request_method request)).0 (named ∙ ap some same),
              ),
            )
      ]
    ]
  ]

  answer_state-Heard :
      (value : Value) (request : RuntimeInventoryRequest)
      → Heard value request (answer_state (event_response json value (request_method request)))
  answer_state-Heard value request =
      let output = text_member json value "output" in
      let of_output = text_member-TextIs value "output" in
      elim (Bool-cases (accepted_member json value)) [
        | inl yes_it_was ↦
            rw (answer_state, yes_it_was)
              (taken output ((accepted_member_iff value).0 yes_it_was) of_output)
        | inr not_taken ↦
            let refusal : ¬ (IsAccepted value) =
              λ a. true_or_false (sym ((accepted_member_iff value).1 a) ∙ not_taken) in
            elim (Option-cases output) [
              | inl silent ↦
                  rw (answer_state, not_taken, silent)
                    (refused_silently refusal (subst (TextIs value "output") silent of_output))
              | inr (text, said) ↦
                  rw (answer_state, not_taken, said)
                    (refused text refusal (subst (TextIs value "output") said of_output))
            ]
      ]

module _ (json : InventoryJson) (instance_id event_json : String) (observed : ℕ)
    (m : Resources (InventoryJson.Value json)) where
  open json use {Value, parse, read_built}

  abbrev applied : Result String Bool × Resources Value
  applied = apply_control_result_json json instance_id event_json observed m

  abbrev heard : Value → RuntimeInventoryRequest → RuntimeInventoryResource Value
  heard value request = record {
    instance_id = instance_id;
    request = request;
    state = answer_state (event_response json value (request_method request));
    observed_at_unix_ms = some observed;
  }

  decoded :
      (value : Value) (request : RuntimeInventoryRequest)
      → decode_response json request (
          json.response_value
            (request_method request)
            (event_response json value (request_method request)).accepted
            (event_response json value (request_method request)).output)
        ≡ ok (event_response json value (request_method request))
  unfolding decode_response
  decoded value request =
      let response = event_response json value (request_method request) in
      rw
        (
          decode_response,
          read_built (request_method request) response.accepted response.output,
          eq_refl (request_method request),
        )
        refl

  -- An event that answers a request is taken, and writes one resource, which is that of the request:
  -- ready with the event's output if the event says that it was accepted, and an error if not, with
  -- the event's output for its message, or a fixed one where there is none; its time is that of the
  -- call. Every other resource stays as it was. An event that answers no request is passed over, and
  -- a text that is no JSON is refused: both change nothing.
  pub apply_control_result_json_cases :
      ((value : Value) × (request : RuntimeInventoryRequest) × (parse event_json ≡ ok value)
        × Answers json value request
        × (applied.0 ≡ ok true)
        × (state : RuntimeInventoryResourceState Value) × Heard json value request state
        × ((j : Key)
            → get_resource j applied.1 ≡ (
                if key_eq (instance_id, request) j
                then some (record {
                  instance_id = instance_id;
                  request = request;
                  state = state;
                  observed_at_unix_ms = some observed;
                })
                else get_resource j m)))
      ⊎ ((value : Value) × (parse event_json ≡ ok value)
          × ((request : RuntimeInventoryRequest) → ¬ (Answers json value request))
          × (applied ≡ (ok false, m)))
      ⊎ ((e : String) × (x : String) × (parse event_json ≡ err e) × (applied ≡ (err x, m)))
  unfolding apply_control_result_json apply_response put_resource
  apply_control_result_json_cases = elim (Result-cases (parse event_json)) [
    | inl (value, p) ↦ elim (answered_cases json value) [
      | inl (request, h, answer) ↦ inl (
        value,
        request,
        p,
        answer,
        rw (apply_control_result_json, p, h, apply_response, decoded value request) refl,
        answer_state (event_response json value (request_method request)),
        answer_state-Heard json value request,
        λ j.
            rw (apply_control_result_json, p, h, apply_response, decoded value request)
              (get-insert_resource (instance_id, request) j (heard value request) m),
      )
      | inr (h, no_answer) ↦
          inr (inl (value, p, no_answer, rw (apply_control_result_json, p, h) refl))
    ]
    | inr (e, p) ↦ inr (
        inr (
          e,
          concat ("invalid control result JSON: " ∷ e ∷ []),
          p,
          rw (apply_control_result_json, p) refl,
        ))
  ]
