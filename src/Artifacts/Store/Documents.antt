-- ===== src/Artifacts/Store/Documents.antt =====
-- What the records of artifacts/store.ts are of.
pub mod Discards
pub mod Leases
pub mod Captures
pub mod Runs
use browse_gateway.Base.{ℕ, ◌+◌, ◌≡◌, ◌⊎◌, Option, none, some, List, [], ◌∷◌}
use browse_gateway.Artifacts.Store.{Store, StoredRecord}
use browse_gateway.Artifacts.Store.Capture.{Pending}

-- The record lives for the time that its capture asked for, or for that of the store.
abbrev pub LivesFor : ℕ → Option ℕ → StoredRecord → Type 0
LivesFor ttl_ms asked r =
    ((asked ≡ none) × (r.expires_at ≡ r.created_at + ttl_ms))
    ⊎ ((t : ℕ) × (asked ≡ some t) × (r.expires_at ≡ r.created_at + t))

-- The record is of a capture that satisfies the claim.
pub record IsOf (P : Pending → Type 0) (ttl_ms : ℕ) (r : StoredRecord) : Type 0 where
  pub capture : Pending
  pub satisfies : P capture
  pub id : r.id ≡ capture.id
  pub consumer : r.consumer_id ≡ capture.consumer_id
  pub bytes : r.bytes ≡ capture.bytes
  pub digest : r.sha256 ≡ capture.sha256
  pub lives : LivesFor ttl_ms capture.ttl_ms r

abbrev pub AllAre : (StoredRecord → Type 0) → List StoredRecord → Type 0
AllAre R [] = Unit
AllAre R (r ∷ rs) = R r × AllAre R rs

-- The store has the lifetime, and every record is of such a capture.
abbrev pub HasOnly : (Pending → Type 0) → ℕ → Store → Type 0
HasOnly P ttl_ms s = (s.ttl_ms ≡ ttl_ms) × AllAre (IsOf P ttl_ms) s.records
