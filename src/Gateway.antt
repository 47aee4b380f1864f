-- ===== src/Gateway.antt =====
-- Browser sessions and their manager: gateway/.
pub mod Session
pub mod Ledger
pub mod Manager
pub mod Tests
