-- ===== src/Examples.antt =====
-- The theorems at concrete runs, supervisors and messages.
pub mod Fixtures
pub mod Runs
pub mod Supervision
pub mod Bearers
pub mod HostActions
pub mod Secrets
pub mod Instances
pub mod Evidence
pub mod Audit
pub mod Ports
pub mod Operator
