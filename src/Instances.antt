-- ===== src/Instances.antt =====
-- The instances that Auspex knows: their records, their registry, and the engine that attaches them
-- to sessions.
pub mod Capability
pub mod Profile
pub mod Compatibility
pub mod Record
pub mod Registry
pub mod Attached
pub mod Synthesis
pub mod Engine
pub mod Inventory
