-- ===== src/Secrets.antt =====
-- Secret grants: auspex-core/src/secret_grants.rs and auspex-core/src/secret_orchestration.rs.
pub mod Grant
pub mod Broker
pub mod Outcomes
pub mod Soundness
pub mod History
pub mod Revocation
pub mod Preparation
pub mod Launch
