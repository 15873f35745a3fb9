-- ===== src/Examples/HostActions.antt =====
-- The theorem on host actions, at a concrete input.
use auspex.Prelude.{String, ◌≡◌, ◌↔◌, ◌⊎◌, false, true}
use auspex.HostAction.{
  classify_host_action, IsDiscovery, classify_host_action_iff, read_only_discovery,
  mutating_requires_approval, unsupported,
}

abbrev install : String
install = "package.install@1"

classify_host_action_iff_example :
    let d = classify_host_action install in
    (d.action_type ≡ install)
    × ((d.audit_required ≡ false) ↔ IsDiscovery install)
    × ((d.class ≡ read_only_discovery) ↔ IsDiscovery install)
    × ((d.class ≡ mutating_requires_approval)
        ↔ ((install ≡ "package.install@1") ⊎ (install ≡ "terminal.create@1")))
    × ((d.requires_approval ≡ true)
        ↔ ((d.class ≡ mutating_requires_approval) ⊎ (d.class ≡ unsupported)))
classify_host_action_iff_example = classify_host_action_iff install
