-- ===== src/Artifacts.antt =====
-- The private store of downloaded documents: artifacts/store.ts, and the budget
-- of their retrievals: artifacts/index.ts.
pub mod Capacity
pub mod Permit
pub mod Store
pub mod Window
pub mod Lineage
mod Tests
