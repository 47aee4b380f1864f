-- ===== src/Policy.antt =====
-- The policy layer: policy/ and security/egress.ts.
pub mod Allowlist
pub mod Egress
pub mod Origination
pub mod Audit
pub mod Consumer
pub mod Engine
pub mod Tests
