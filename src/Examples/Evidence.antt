-- ===== src/Examples/Evidence.antt =====
-- The theorems on compatibility and on the inventory, at concrete inputs.
use auspex.Prelude.{
  ℕ, ◌≡◌, ◌⊎◌, refl, String, Bool, true, false, none, some, [], ◌∷◌, Option, ok, err, if◌then◌else◌,
  str_eq, ltb,
}
use auspex.Instances.Compatibility.{ObservedControlPlane, Semver}
use auspex.Instances.Inventory.{RuntimeInventoryRequest, skills_view}
use auspex.Instances.Inventory.Store.{
  InventoryJson, Key, Resources, RuntimeInventoryResource, RuntimeInventoryResourceState,
  apply_control_result_json, get_resource, key_eq, mark_instance_stale, ready, remove_instance,
}
use auspex.Instances.Inventory.Store.Answers.{Answers, Heard, apply_control_result_json_cases}
use auspex.Instances.Inventory.Store.Traffic.{IsNotReady, mark_instance_stale_lem}

-- Two versions, the minimum and one before it.
abbrev versions : Semver
versions = record {
  Version = ℕ;
  parse = λ text.
      if str_eq text "0.29.0-dev" then some 29 else if str_eq text "0.28.0" then some 28 else none;
  less = ltb;
  minimum = 29;
  minimum_is_valid = refl;
}

abbrev observed : ObservedControlPlane
observed = record {
  schema_version = 2;
  omegon_version = "v0.28.0";
  base_url = "http://127.0.0.1:7842";
  startup_url = "";
  health_url = "";
  ready_url = "";
  ws_url = "";
  acp_url = none;
  auth_mode = "ephemeral-bearer";
  token_ref = none;
  transport_security = none;
  mtls = none;
  tls_secret = none;
  tls_profile = none;
  tls_ca_epoch = none;
  tls_leaf_epoch = none;
  tls_leaf_validity = none;
  ca_fingerprint_sha256 = none;
  server_fingerprint_sha256 = none;
  last_ready_at = none;
}

-- A JSON value is an answer, and a text is the answer of the skills.
abbrev answers : InventoryJson
answers = record {
  Value = String × Bool × Option String;
  parse = λ text. ok ("skills-view", true, some text);
  member = λ v name.
      if str_eq name "type"
      then some ("control_result", v.1, v.2)
      else if str_eq name "output"
      then elim v.2 [ none ↦ none | some out ↦ some (out, v.1, v.2) ]
      else some v;
  as_str = λ v. some v.0;
  as_bool = λ v. some v.1;
  response_value = λ method accepted output. (method, accepted, output);
  read_response = λ v. ok (record { method = v.0; accepted = v.1; output = v.2; details = [] });
  read_built = λ method accepted output. refl;
}

abbrev no_resources : Resources (String × Bool × Option String)
no_resources = []

apply_control_result_json_cases_example :
    let applied = apply_control_result_json answers "omg" "{}" 7 no_resources in
    ((value : answers.Value) × (request : RuntimeInventoryRequest) × (answers.parse "{}" ≡ ok value)
      × Answers answers value request
      × (applied.0 ≡ ok true)
      × (state : RuntimeInventoryResourceState answers.Value) × Heard answers value request state
      × ((j : Key)
          → get_resource j applied.1 ≡ (
              if key_eq ("omg", request) j
              then some (record {
                instance_id = "omg";
                request = request;
                state = state;
                observed_at_unix_ms = some 7;
              })
              else get_resource j no_resources)))
    ⊎ ((value : answers.Value) × (answers.parse "{}" ≡ ok value)
        × ((request : RuntimeInventoryRequest) → ¬ (Answers answers value request))
        × (applied ≡ (ok false, no_resources)))
    ⊎ ((e : String) × (x : String) × (answers.parse "{}" ≡ err e)
        × (applied ≡ (err x, no_resources)))
apply_control_result_json_cases_example =
    apply_control_result_json_cases answers "omg" "{}" 7 no_resources

abbrev skills : Resources String
skills =
    (
      ("omg", skills_view),
      record {
        instance_id = "omg";
        request = skills_view;
        state =
            ready (record { method = "skills-view"; accepted = true; output = none; details = [] });
        observed_at_unix_ms = some 7;
      },
    )
    ∷ []

abbrev skills_key : Key
skills_key = ("omg", skills_view)

mark_instance_stale_lem_example :
    ((v : RuntimeInventoryResource String)
      → get_resource skills_key skills ≡ some v
      → str_eq "omg" "omg" ≡ true
      → (w : RuntimeInventoryResource String) × (get_resource skills_key
            (mark_instance_stale "omg" skills)
          ≡ some w)
        × IsNotReady w.state
        × (w.observed_at_unix_ms ≡ v.observed_at_unix_ms))
    × (str_eq "omg" "omg" ≡ false
        → get_resource skills_key (mark_instance_stale "omg" skills)
          ≡ get_resource skills_key skills)
    × (mark_instance_stale "omg" (mark_instance_stale "omg" skills)
        ≡ mark_instance_stale "omg" skills)
    × (get_resource skills_key (remove_instance "omg" skills)
        ≡ (if str_eq "omg" "omg" then none else get_resource skills_key skills))
mark_instance_stale_lem_example = mark_instance_stale_lem "omg" skills skills_key
