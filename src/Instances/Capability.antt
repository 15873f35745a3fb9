-- ===== src/Instances/Capability.antt =====
-- What an instance is known to be able to do: auspex-core/src/capability_registry.rs.
use auspex.Prelude.{
  ◌≡◌, String, Bool, true, false, ◌&&◌, ◌||◌, Option, none, List, [], ◌∷◌, ◌++◌, arith, any, str_eq,
}

pub data CapabilityKind : Type 0 where
  binary extension host_action tool runtime service package_kind : CapabilityKind

pub record CapabilityKey : Type 0 where
  pub kind : CapabilityKind
  pub name : String

pub data CapabilityStatus : Type 0 where
  present missing installable unsupported unknown : CapabilityStatus

pub data CapabilitySource : Type 0 where
  instance_descriptor nex_resolver host_action_policy operator_declared : CapabilitySource
  acp_initialize_metadata armory_artifact : String → CapabilitySource

pub record CapabilityEvidence : Type 0 where
  pub key : CapabilityKey
  pub status : CapabilityStatus
  pub source : CapabilitySource
  pub detail : Option String
  pub observed_at : Option String

pub record InstanceCapabilitySnapshot : Type 0 where
  pub instance_id : String
  pub evidence : List CapabilityEvidence

abbrev pub kind_eq : CapabilityKind → CapabilityKind → Bool
kind_eq binary binary = true
kind_eq extension extension = true
kind_eq host_action host_action = true
kind_eq tool tool = true
kind_eq runtime runtime = true
kind_eq service service = true
kind_eq package_kind package_kind = true
kind_eq _ _ = false

abbrev pub key_eq : CapabilityKey → CapabilityKey → Bool
key_eq a b = kind_eq a.kind b.kind && str_eq a.name b.name

abbrev pub is_present : CapabilityStatus → Bool
is_present present = true
is_present _ = false

-- `CapabilityKey::tool`
abbrev pub tool_key : String → CapabilityKey
tool_key name = record { kind = tool; name = name }

-- `CapabilityEvidence::present`
abbrev pub present_evidence : CapabilityKey → CapabilitySource → CapabilityEvidence
present_evidence key source = record {
  key = key;
  status = present;
  source = source;
  detail = none;
  observed_at = none;
}

-- `InstanceCapabilitySnapshot::new`
abbrev pub new_snapshot : String → InstanceCapabilitySnapshot
new_snapshot instance_id = record { instance_id = instance_id; evidence = [] }

unfoldable pub add_evidence :
    CapabilityEvidence → InstanceCapabilitySnapshot → InstanceCapabilitySnapshot
add_evidence evidence snapshot = record snapshot { evidence = snapshot.evidence ++ evidence ∷ [] }

unfoldable pub has_present : InstanceCapabilitySnapshot → CapabilityKey → Bool
has_present snapshot key = any (λ e. key_eq e.key key && is_present e.status) snapshot.evidence

-- The loop of `from_instance_descriptor_capabilities`
add_tools : List String → InstanceCapabilitySnapshot → InstanceCapabilitySnapshot
unfolding add_evidence
add_tools [] snapshot = snapshot
add_tools (c ∷ cs) snapshot =
    add_tools cs (add_evidence (present_evidence (tool_key c) instance_descriptor) snapshot)

unfoldable pub from_instance_descriptor_capabilities :
    String → List String → InstanceCapabilitySnapshot
unfolding add_tools
from_instance_descriptor_capabilities instance_id capabilities =
    add_tools capabilities (new_snapshot instance_id)

any-snoc :
    (p : CapabilityEvidence → Bool) (xs : List CapabilityEvidence) (x : CapabilityEvidence)
    → any p (xs ++ x ∷ []) ≡ (any p xs || p x)
any-snoc p [] x = ground arith
any-snoc p (y ∷ xs) x = ground (arith, any-snoc p xs x)

abbrev pub is_tool : CapabilityKind → Bool
is_tool tool = true
is_tool _ = false

has_present-add_tools :
    (cs : List String) (s : InstanceCapabilitySnapshot) (key : CapabilityKey)
    → has_present (add_tools cs s) key
      ≡ (has_present s key || is_tool key.kind && any (λ c. str_eq c key.name) cs)
unfolding add_tools has_present add_evidence
has_present-add_tools [] s key = ground arith
has_present-add_tools (c ∷ cs) s key = ground (
  arith,
  has_present-add_tools cs (add_evidence (present_evidence (tool_key c) instance_descriptor) s) key,
  any-snoc (λ e. key_eq e.key key && is_present e.status) s.evidence
      (present_evidence (tool_key c) instance_descriptor),
)

-- What a descriptor lists is present, as a tool, and nothing else is.
pub has_present-from_instance_descriptor_capabilities :
    (id : String) (cs : List String) (key : CapabilityKey)
    → has_present (from_instance_descriptor_capabilities id cs) key
      ≡ (is_tool key.kind && any (λ c. str_eq c key.name) cs)
unfolding from_instance_descriptor_capabilities has_present
has_present-from_instance_descriptor_capabilities id cs key =
    ground (arith, has_present-add_tools cs (new_snapshot id) key)
