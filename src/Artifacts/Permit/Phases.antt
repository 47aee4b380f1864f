-- ===== src/Artifacts/Permit/Phases.antt =====
-- Who has the response permit of artifacts/store.ts, and what each of its operations does to that.
use browse_gateway.Base.{ℕ, ◌<◌, ◌≤◌, ◌≡◌, ◌⊎◌, true, false, Option, none, some, List, [], ◌∷◌}
use browse_gateway.Base.Ids.{mem}
use browse_gateway.Artifacts.Permit.{Lease, Permit, lease_of}

-- Every lease that is not done is the one whose hook is set, and its artifact is the response's.
pub record TracksLeases (next : ℕ) (done : List ℕ) (leases : List Lease)
    (settle response : Option ℕ) : Type 0 where
  pub fresh : (t : ℕ) → next ≤ t → mem t done ≡ false
  pub hooked : (t : ℕ) → settle ≡ some t → t < next
  pub owned :
      (t id : ℕ)
      → lease_of t leases ≡ some id
      → (mem t done ≡ true) ⊎ ((settle ≡ some t) × (response ≡ some id))

abbrev pub IsTracked : Permit → Type 0
IsTracked p = TracksLeases p.next p.done p.leases p.settle p.response_id

-- No response is under way.
pub record HasNoResponse (holder response settle : Option ℕ) : Type 0 where
  pub nobody : holder ≡ none
  pub nothing : response ≡ none
  pub unhooked : settle ≡ none

abbrev pub IsVacant : Permit → Type 0
IsVacant p = HasNoResponse p.holder p.response_id p.settle

-- A store that takes no more work: no permit, and nobody waits.
pub record IsShut (p : Permit) : Type 0 where
  pub tracked : IsTracked p
  pub vacant : IsVacant p
  pub busy : p.busy ≡ false
  pub waiters : p.waiters ≡ []

-- Nobody has the permit, and nobody waits.
pub record IsFree (p : Permit) : Type 0 where
  pub vacant : IsVacant p
  pub busy : p.busy ≡ false
  pub granted : p.granted ≡ []
  pub waiters : p.waiters ≡ []

-- One waiter was given the permit and has not gone on.
pub record IsHanded (p : Permit) : Type 0 where
  pub vacant : IsVacant p
  pub busy : p.busy ≡ true
  pub waiter : ℕ
  pub granted : p.granted ≡ waiter ∷ []

-- One lease holds the permit: it is not done, and its hook is set.
pub record IsHeld (p : Permit) : Type 0 where
  pub busy : p.busy ≡ true
  pub lease : ℕ
  pub artifact : ℕ
  pub holder : p.holder ≡ some lease
  pub settle : p.settle ≡ some lease
  pub response : p.response_id ≡ some artifact
  pub open_ : mem lease p.done ≡ false
  pub granted : p.granted ≡ []

pub record IsLive (p : Permit) : Type 0 where
  pub tracked : IsTracked p
  pub phase : IsFree p ⊎ IsHanded p ⊎ IsHeld p

-- A caller is about to hold the permit.
pub record IsCarried (p : Permit) : Type 0 where
  pub tracked : IsTracked p
  pub vacant : IsVacant p
  pub busy : p.busy ≡ true
  pub granted : p.granted ≡ []

-- The lease is done and has not yielded the permit.
pub record IsEnding (t : ℕ) (p : Permit) : Type 0 where
  pub tracked : IsTracked p
  pub busy : p.busy ≡ true
  pub holder : p.holder ≡ some t
  pub settle : p.settle ≡ none
  pub granted : p.granted ≡ []
