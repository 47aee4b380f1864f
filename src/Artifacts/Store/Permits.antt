-- ===== src/Artifacts/Store/Permits.antt =====
-- The response permit through the steps of artifacts/store.ts.
pub mod Discards
pub mod Leases
pub mod Admission
pub mod Close
pub mod Captures
pub mod Runs
use browse_gateway.Base.{◌≡◌, Bool, true, false, ◌||◌, arith, if◌then◌else◌}
use browse_gateway.Artifacts.Permit.{Permit}
use browse_gateway.Artifacts.Permit.Phases.{IsShut}
use browse_gateway.Artifacts.Store.{Store, shut}

-- The permit is as `Q` says while the store is live, and taken from everybody once it is shut.
abbrev pub IsKept : (Permit → Type 0) → Store → Type 0
IsKept Q s = (shut s ≡ false → Q s.permit) × (shut s ≡ true → IsShut s.permit)
