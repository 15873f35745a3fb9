-- ===== src/HostAction.antt =====
-- Which host actions may enter the path of approval and audit:
-- auspex-core/src/host_action_policy.rs.
use auspex.Prelude.{
  String, ◌≡◌, refl, ◌↔◌, ◌⊎◌, Bool, true, false, ◌||◌, str_eq, eq_iff, starts_with, inl, inr,
  arith, if◌then◌else◌,
}

pub data HostActionPolicyClass : Type 0 where
  read_only_discovery mutating_requires_approval unsupported deny : HostActionPolicyClass

pub record HostActionPolicyDecision : Type 0 where
  pub action_type : String
  pub class : HostActionPolicyClass
  pub requires_approval : Bool
  pub audit_required : Bool
  pub reason : String

-- `HostActionPolicyDecision::new`
abbrev pub new_decision :
    String → HostActionPolicyClass → Bool → Bool → String → HostActionPolicyDecision
new_decision action_type class requires_approval audit_required reason = record {
  action_type = action_type;
  class = class;
  requires_approval = requires_approval;
  audit_required = audit_required;
  reason = reason;
}

unfoldable pub classify_host_action : String → HostActionPolicyDecision
classify_host_action t =
    if str_eq t "nex_capability"
      || str_eq t "nex.capability.check"
      || str_eq t "nex.capability.resolve"
    then new_decision t read_only_discovery false false
        "Nex capability resolution is read-only discovery evidence"
    else if str_eq t "package.install@1"
    then new_decision t mutating_requires_approval true true
        "package.install@1 mutates host package state and requires approval"
    else if str_eq t "terminal.create@1"
    then new_decision t mutating_requires_approval true true
        "terminal.create@1 can execute host commands and requires approval"
    else if starts_with t "package." || starts_with t "terminal."
    then new_decision t unsupported true true
        "known HostAction domain is not supported by this Auspex policy version"
    else new_decision t deny false true "unknown HostAction types are denied by default"

abbrev pub IsDiscovery : String → Type 0
IsDiscovery t =
    (t ≡ "nex_capability") ⊎ (t ≡ "nex.capability.check") ⊎ (t ≡ "nex.capability.resolve")

-- The decision is about the action that was asked for. What escapes the audit is exactly the
-- three names of capability discovery, and these are read-only. What is let through to mutate the
-- host is exactly the two known actions. And an action needs approval exactly when it may mutate or
-- is not supported.
pub classify_host_action_iff :
    (t : String)
    → let d = classify_host_action t in
      (d.action_type ≡ t)
      × ((d.audit_required ≡ false) ↔ IsDiscovery t)
      × ((d.class ≡ read_only_discovery) ↔ IsDiscovery t)
      × ((d.class ≡ mutating_requires_approval)
          ↔ ((t ≡ "package.install@1") ⊎ (t ≡ "terminal.create@1")))
      × ((d.requires_approval ≡ true)
          ↔ ((d.class ≡ mutating_requires_approval) ⊎ (d.class ≡ unsupported)))
unfolding classify_host_action
classify_host_action_iff t =
    let one = eq_iff t "nex_capability" in
    let two = eq_iff t "nex.capability.check" in
    let three = eq_iff t "nex.capability.resolve" in
    let install = eq_iff t "package.install@1" in
    let create = eq_iff t "terminal.create@1" in
    (
      ground arith,
      (λ h. ground (arith, one, two, three), λ h. ground (arith, one, two, three)),
      (λ h. ground (arith, one, two, three), λ h. ground (arith, one, two, three)),
      (λ h. ground (arith, install, create), λ h. elim h [ inl e ↦ rw e refl | inr e ↦ rw e refl ]),
      (λ h. ground arith, λ h. ground arith),
    )
