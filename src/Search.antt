-- ===== src/Search.antt =====
-- The search verb's router of providers.
pub mod Router
pub mod Tests
