-- ===== src/Instances/Inventory.antt =====
-- What Auspex has asked an instance about itself, and what it has heard:
-- auspex-core/src/runtime_inventory.rs. `V` is the type of `serde_json::Value`.
pub mod Store
use auspex.Prelude.{
  ℕ, ◌≡◌, ◌≢◌, ◌↔◌, ◌⊎◌, inl, inr, refl, sym, ap, ◌∙◌, String, Bool, true, false, not, ◌&&◌, ◌||◌,
  Option, none, some, List, [], ◌∷◌, map, arith, any, find, retain, str_eq, eq_iff, eq_refl, Result,
  ok, err, if◌then◌else◌, concat, Bool-cases, Option-cases, Result-cases,
}

pub data RuntimeInventoryRequest : Type 0 where
  runtime_inventory_status profile_view workspace_status_view workspace_list_view skills_view :
      RuntimeInventoryRequest
  extension_view armory_browse catalog_view plugin_view permissions_view : RuntimeInventoryRequest

-- `RuntimeInventoryRequest::ALL`
abbrev pub all_requests : List RuntimeInventoryRequest
all_requests =
    runtime_inventory_status ∷ profile_view ∷ workspace_status_view ∷ workspace_list_view
    ∷ skills_view ∷ extension_view ∷ armory_browse ∷ catalog_view ∷ plugin_view ∷ permissions_view
    ∷ []

unfoldable pub request_method : RuntimeInventoryRequest → String
request_method runtime_inventory_status = "runtime-inventory-status"
request_method profile_view = "profile-view"
request_method workspace_status_view = "workspace-status-view"
request_method workspace_list_view = "workspace-list-view"
request_method skills_view = "skills-view"
request_method extension_view = "extension-view"
request_method armory_browse = "armory-browse"
request_method catalog_view = "catalog-view"
request_method plugin_view = "plugin-view"
request_method permissions_view = "permissions-view"

unfoldable pub request_for_method : String → Option RuntimeInventoryRequest
unfolding request_method
request_for_method name = find (λ request. str_eq (request_method request) name) all_requests

-- The order of the source, as derived.
abbrev pub rank : RuntimeInventoryRequest → ℕ
rank runtime_inventory_status = 0
rank profile_view = 1
rank workspace_status_view = 2
rank workspace_list_view = 3
rank skills_view = 4
rank extension_view = 5
rank armory_browse = 6
rank catalog_view = 7
rank plugin_view = 8
rank permissions_view = 9

request_for_each :
    (request : RuntimeInventoryRequest) → request_for_method (request_method request) ≡ some request
unfolding request_for_method request_method
request_for_each runtime_inventory_status = refl
request_for_each profile_view = refl
request_for_each workspace_status_view = refl
request_for_each workspace_list_view = refl
request_for_each skills_view = refl
request_for_each extension_view = refl
request_for_each armory_browse = refl
request_for_each catalog_view = refl
request_for_each plugin_view = refl
request_for_each permissions_view = refl

found_method :
    (name : String) (requests : List RuntimeInventoryRequest) (request : RuntimeInventoryRequest)
    → find (λ r. str_eq (request_method r) name) requests ≡ some request
    → request_method request ≡ name
found_method name [] request f = absurd (cc)
found_method name (x ∷ xs) request f = elim (Bool-cases (str_eq (request_method x) name)) [
  | inl hit ↦ ground (arith, eq_iff (request_method x) name)
  | inr miss ↦ found_method name xs request (ground arith)
]

-- Every request is read back from its method, and a method that is read as a request is that
-- request's method.
pub request_for_method-request_method :
    (request : RuntimeInventoryRequest) (name : String)
    → (request_for_method name ≡ some request) ↔ (name ≡ request_method request)
unfolding request_for_method
request_for_method-request_method request name = (
  λ h. sym (found_method name all_requests request h),
  λ e. ap request_for_method e ∙ request_for_each request,
)
