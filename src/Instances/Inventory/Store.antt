-- ===== src/Instances/Inventory/Store.antt =====
-- `RuntimeInventoryStore` of auspex-core/src/runtime_inventory.rs. Its map is a list of entries in
-- the order of their keys: the id of the instance, then the request.
pub mod Traffic
pub mod Answers
use Prim.Native.String.{compare}
use Prim.Native.Nat.{Ordering}
use auspex.Prelude.{
  ◌≡◌, ℕ, String, Bool, true, false, not, ◌&&◌, ◌||◌, Option, none, some, List, [], ◌∷◌, map,
  str_eq, ltb, ◌==◌, Result, ok, err, if◌then◌else◌, concat, retain,
}
use auspex.Instances.Inventory.{RuntimeInventoryRequest, rank, request_for_method, request_method}

-- `details` holds the other members of the answer.
pub record RuntimeInventoryResponse (V : Type 0) : Type 0 where
  pub method : String
  pub accepted : Bool
  pub output : Option String
  pub details : List (String × V)

pub data RuntimeInventoryResourceState (V : Type 0) : Type 0 where
  loading : RuntimeInventoryResourceState V
  ready stale : RuntimeInventoryResponse V → RuntimeInventoryResourceState V
  error : String → RuntimeInventoryResourceState V

pub record RuntimeInventoryResource (V : Type 0) : Type 0 where
  pub instance_id : String
  pub request : RuntimeInventoryRequest
  pub state : RuntimeInventoryResourceState V
  pub observed_at_unix_ms : Option ℕ

abbrev pub Key : Type 0
Key = String × RuntimeInventoryRequest

abbrev pub Resources : Type 0 → Type 0
Resources V = List (Key × RuntimeInventoryResource V)

-- What is used of `serde_json`: a text is parsed, members are read, and an answer is built from
-- three members, as `json!` does, and read back with its members.
pub record InventoryJson : Type 1 where
  pub Value : Type 0
  pub parse : String → Result String Value
  pub member : Value → String → Option Value
  pub as_str : Value → Option String
  pub as_bool : Value → Option Bool
  pub response_value : String → Bool → Option String → Value
  pub read_response : Value → Result String (RuntimeInventoryResponse Value)
  pub read_built :
      (method : String) (accepted : Bool) (output : Option String)
      → read_response (response_value method accepted output)
        ≡ ok (record { method = method; accepted = accepted; output = output; details = [] })

unfoldable pub key_eq : Key → Key → Bool
key_eq (s, r) (t, q) = str_eq s t && rank r == rank q

unfoldable pub key_lt : Key → Key → Bool
key_lt (s, r) (t, q) = elim (compare s t) [
  | Ordering.lt ↦ true
  | Ordering.eq ↦ ltb (rank r) (rank q)
  | Ordering.gt ↦ false
]

module _ {V : Type 0} where
  unfoldable pub get_resource : Key → Resources V → Option (RuntimeInventoryResource V)
  get_resource k [] = none
  get_resource k ((j, v) ∷ m) = if key_eq j k then some v else get_resource k m

  unfoldable pub insert_resource : Key → RuntimeInventoryResource V → Resources V → Resources V
  insert_resource k v [] = (k, v) ∷ []
  insert_resource k v ((j, w) ∷ m) =
      if key_lt k j
      then (k, v) ∷ (j, w) ∷ m
      else if key_eq j k
      then (k, v) ∷ m
      else (j, w) ∷ insert_resource k v m

  -- A write of a resource under its own key.
  unfoldable pub put_resource :
      String
      → RuntimeInventoryRequest
      → RuntimeInventoryResourceState V
      → Option ℕ
      → Resources V
      → Resources V
  unfolding insert_resource
  put_resource instance_id request state observed =
      insert_resource (instance_id, request)
        record {
          instance_id = instance_id;
          request = request;
          state = state;
          observed_at_unix_ms = observed;
        }

  unfoldable pub mark_loading : String → RuntimeInventoryRequest → Resources V → Resources V
  unfolding put_resource
  mark_loading instance_id request = put_resource instance_id request loading none

  unfoldable pub mark_error :
      String → RuntimeInventoryRequest → String → ℕ → Resources V → Resources V
  unfolding put_resource
  mark_error instance_id request message observed =
      put_resource instance_id request (error message) (some observed)

  abbrev pub stale_state : RuntimeInventoryResourceState V → RuntimeInventoryResourceState V
  stale_state loading = loading
  stale_state (ready response) = stale response
  stale_state (stale response) = stale response
  stale_state (error message) = error message

  unfoldable pub mark_instance_stale : String → Resources V → Resources V
  mark_instance_stale instance_id [] = []
  mark_instance_stale instance_id ((j, v) ∷ m) =
      (j, if str_eq j.0 instance_id then record v { state = stale_state v.state } else v)
      ∷ mark_instance_stale instance_id m

  unfoldable pub resources_for : String → Resources V → List (RuntimeInventoryResource V)
  resources_for instance_id [] = []
  resources_for instance_id ((j, v) ∷ m) =
      let rest = resources_for instance_id m in if str_eq j.0 instance_id then v ∷ rest else rest

  unfoldable pub remove_instance : String → Resources V → Resources V
  remove_instance instance_id = retain (λ e. not (str_eq e.0.0 instance_id))

  abbrev pub answer_state : RuntimeInventoryResponse V → RuntimeInventoryResourceState V
  answer_state response =
      if response.accepted
      then ready response
      else error (elim response.output [
        | some output ↦ output
        | none ↦ "Omegon rejected the inventory request"
      ])

module _ (json : InventoryJson) where
  open json use {Value, parse, member, as_str, as_bool, response_value, read_response}

  -- `RuntimeInventoryResponse::decode`
  unfoldable pub decode_response :
      RuntimeInventoryRequest → Value → Result String (RuntimeInventoryResponse Value)
  decode_response expected value = elim (read_response value) [
    | err e ↦ err (concat ("invalid Omegon inventory response: " ∷ e ∷ []))
    | ok response ↦
        if not (str_eq response.method (request_method expected))
        then err (
            concat (
              "mismatched Omegon inventory response: expected "
              ∷ request_method expected
              ∷ ", received "
              ∷ response.method
              ∷ []))
        else ok response
  ]

  unfoldable pub apply_response :
      String
      → RuntimeInventoryRequest
      → Value
      → ℕ
      → Resources Value
      → Result String (Unit {0}) × Resources Value
  unfolding decode_response put_resource
  apply_response instance_id request value observed m = elim (decode_response request value) [
    | err e ↦ (err e, m)
    | ok response ↦
        (ok tt, put_resource instance_id request (answer_state response) (some observed) m)
  ]

  abbrev pub text_member : Value → String → Option String
  text_member value name = elim (member value name) [ none ↦ none | some v ↦ as_str v ]

  abbrev pub accepted_member : Value → Bool
  accepted_member value = elim (member value "accepted") [
    | none ↦ false
    | some v ↦ elim (as_bool v) [ none ↦ false | some b ↦ b ]
  ]

  abbrev pub is_control_result : Value → Bool
  is_control_result value = elim (text_member value "type") [
    | none ↦ false
    | some kind ↦ str_eq kind "control_result"
  ]

  -- The request that an event answers, if it is a control result of the inventory.
  abbrev pub answered_request : Value → Option (String × RuntimeInventoryRequest)
  answered_request value =
      if not (is_control_result value) then none else elim (text_member value "name") [
        | none ↦ none
        | some name ↦ elim (request_for_method name) [
          | none ↦ none
          | some request ↦ some (name, request)
        ]
      ]

  abbrev pub event_response : Value → String → RuntimeInventoryResponse Value
  event_response value name = record {
    method = name;
    accepted = accepted_member value;
    output = text_member value "output";
    details = [];
  }

  unfoldable pub apply_control_result_json :
      String → String → ℕ → Resources Value → Result String Bool × Resources Value
  unfolding apply_response
  apply_control_result_json instance_id event_json observed m = elim (parse event_json) [
    | err e ↦ (err (concat ("invalid control result JSON: " ∷ e ∷ [])), m)
    | ok value ↦ elim (answered_request value) [
      | none ↦ (ok false, m)
      | some (name, request) ↦
          let (answer, m') =
            apply_response instance_id request
              (response_value name (accepted_member value) (text_member value "output")) observed
              m in
          (elim answer [ ok u ↦ ok true | err e ↦ err e ], m')
    ]
  ]
