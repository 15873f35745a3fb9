-- ===== src/Operator.antt =====
-- The operator's API: auspex-operator/src/main.rs.
pub mod ApiAuth
pub mod ApiRequest
