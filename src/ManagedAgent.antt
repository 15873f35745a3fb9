-- ===== src/ManagedAgent.antt =====
-- Managed-agent supervision: auspex-core/src/managed_agent*.rs and what the controller adds.
pub mod Domain
pub mod Run
pub mod Command
pub mod Contract
pub mod Outcome
pub mod Serde
pub mod Runtime
pub mod Projection
pub mod Coordinator
pub mod Mqtt
pub mod Scheduler
