-- ===== src/Artifacts/Store/Permits/Admission.antt =====
-- The response permit through the admission of leases in artifacts/store.ts.
use browse_gateway.Base.{
  ℕ, ◌≡◌, inl, inr, refl, sym, subst, Bool, true, false, ◌&&◌, not, Option, none, some, if_cases,
  Bool-cases, is_some,
}
use browse_gateway.Base.Ids.{mem}
use browse_gateway.Artifacts.Permit.{Permit, release_response, take, wake}
use browse_gateway.Artifacts.Permit.Phases.{IsShut, IsLive, IsCarried}
use browse_gateway.Artifacts.Permit.Moves.{
  release_response-IsLive, take-IsCarried, wait_for-IsLive, wake-IsCarried,
}
use browse_gateway.Artifacts.Store.{Store, StoredRecord, shut, record_of, identity_proven}
use browse_gateway.Artifacts.Store.Discard.{Disk, reap_expired}
use browse_gateway.Artifacts.Store.Responses.{
  leasable, is_theirs, Reading, LeaseStep, with_permit, release_if_busy, open_record, admit_lease,
  acquire, resume,
}
use browse_gateway.Artifacts.Store.Outcomes.{identity_proven-same}
use browse_gateway.Artifacts.Store.Permits.{IsKept}
use browse_gateway.Artifacts.Store.Permits.Discards.{
  IsStable, identity_proven-IsKept, reap_expired-IsKept,
}
use browse_gateway.Artifacts.Store.Permits.Leases.{
  IsLive-IsStable, IsCarried-IsStable, open_response-IsKept, release_response-IsShut,
}

open_record-IsKept :
    (s : Store) (d : Disk) (id : ℕ) (o : Option StoredRecord) (reading : Reading)
    → is_some o ≡ true
    → shut s ≡ false
    → IsCarried s.permit
    → IsKept IsLive (open_record s d id o reading).store
open_record-IsKept s d id none reading e live c = absurd (cc e)
open_record-IsKept s d id (some r) reading e live c = open_response-IsKept s d id r reading live c

release_if_busy-IsKept : (s : Store) → IsKept IsCarried s → IsKept IsLive (release_if_busy s)
release_if_busy-IsKept s k = elim (Bool-cases (shut s)) [
  | inl closing ↦
      if_cases (IsKept IsLive) s.permit.busy _ _ (λ busy. absurd (cc (busy, (k.1 closing).busy)))
        (λ idle. (λ live. absurd (cc (live, closing)), λ _. k.1 closing))
  | inr live ↦
      if_cases (IsKept IsLive) s.permit.busy _ _
        (λ busy. (
          λ _.
              subst (λ b. IsLive (release_response b s.permit)) (sym live)
                (release_response-IsLive s.permit (k.0 live)),
          λ closing. absurd (cc (live, closing)),
        ))
        (λ idle. absurd (cc (idle, (k.0 live).busy)))
]

admit_lease-IsKept :
    (s : Store) (d : Disk) (id : ℕ) (holds : Bool) (reading : Reading)
    → is_some (record_of id s.records) ≡ true
    → shut s ≡ false
    → IsCarried s.permit
    → IsKept IsLive (admit_lease s d id holds reading).store
unfolding admit_lease
admit_lease-IsKept s d id holds reading e live c =
    if_cases {A = LeaseStep} (λ x. IsKept IsLive x.store) (identity_proven s holds).1 _ _
      (λ proven.
        subst (λ s'. IsKept IsLive (open_record s' d id (record_of id s.records) reading).store)
          (sym (identity_proven-same s holds proven))
          (open_record-IsKept s d id (record_of id s.records) reading e live c))
      (λ lost. release_if_busy-IsKept (identity_proven s holds).0 (
        identity_proven-IsKept IsCarried-IsStable s holds
          (λ on. c, λ closing. absurd (cc (live, closing)))))

theirs-is_some :
    (c : ℕ) (o : Option StoredRecord) (closing : Bool)
    → (not closing && is_theirs c o) ≡ true
    → (closing ≡ false) × (is_some o ≡ true)
theirs-is_some c none true e = absurd (cc e)
theirs-is_some c none false e = absurd (cc e)
theirs-is_some c (some r) true e = absurd (cc e)
theirs-is_some c (some r) false e = (refl, refl)

leasable-IsKept :
    {Q : Permit → Type 0} (stable : IsStable Q) (s : Store) (d : Disk) (now id c : ℕ)
    → IsKept Q s
    → IsKept Q (leasable s d now id c).0
unfolding leasable
leasable-IsKept stable s d now id c k = reap_expired-IsKept stable s d now k

may-lease :
    (s : Store) (d : Disk) (now id c : ℕ)
    → (leasable s d now id c).1 ≡ true
    → (shut (leasable s d now id c).0 ≡ false)
      × (is_some (record_of id (leasable s d now id c).0.records) ≡ true)
unfolding leasable
may-lease s d now id c e =
    let s' = reap_expired s d now in theirs-is_some c (record_of id s'.records) (shut s') e

pub acquire-IsKept :
    (s : Store) (d : Disk) (now w id c : ℕ) (holds : Bool) (reading : Reading)
    → IsKept IsLive s
    → IsKept IsLive (acquire s d now w id c holds reading).store
unfolding acquire
acquire-IsKept s d now w id c holds reading k =
    if_cases P (not (leasable s d now id c).1) _ _ (λ refused. k')
      λ may.
        let (live, there) = may-lease s d now id c (negated (leasable s d now id c).1 may) in
        if_cases P (leasable s d now id c).0.permit.busy _ _
          (λ busy. (
            λ _. wait_for-IsLive w (leasable s d now id c).0.permit (k'.0 live) busy,
            λ closing. absurd (cc (live, closing)),
          ))
          (λ free.
            admit_lease-IsKept
              (with_permit (leasable s d now id c).0 (take (leasable s d now id c).0.permit)) d id
              holds reading there live
              (take-IsCarried (leasable s d now id c).0.permit (k'.0 live) free))
  where
    P : LeaseStep → Type 0
    P x = IsKept IsLive x.store

    k' : IsKept IsLive (leasable s d now id c).0
    k' = leasable-IsKept IsLive-IsStable s d now id c k

    negated : (b : Bool) → not b ≡ false → b ≡ true
    negated true e = refl
    negated false e = absurd (cc e)

wake-IsShut : (w : ℕ) (p : Permit) → IsShut p → IsShut (wake w p)
unfolding wake
wake-IsShut w p k = record {
  tracked = k.tracked;
  vacant = k.vacant;
  busy = k.busy;
  waiters = k.waiters;
}

passed_on-IsKept :
    (s : Store)
    → IsKept IsCarried s
    → IsKept IsLive (with_permit s (release_response (shut s) s.permit))
passed_on-IsKept s k = (
  λ live.
      subst (λ b. IsLive (release_response b s.permit)) (sym live)
        (release_response-IsLive s.permit (k.0 live)),
  λ closing.
      subst (λ b. IsShut (release_response b s.permit)) (sym closing)
        (release_response-IsShut s.permit (k.1 closing)),
)

pub resume-IsKept :
    (s : Store) (d : Disk) (now w id c : ℕ) (holds : Bool) (reading : Reading)
    → mem w s.permit.granted ≡ true
    → IsKept IsLive s
    → IsKept IsLive (resume s d now w id c holds reading).store
unfolding resume
resume-IsKept s d now w id c holds reading e k =
    if_cases {A = LeaseStep} (λ x. IsKept IsLive x.store) (leasable woken d now id c).1 _ _
      (λ may.
        let (live, there) = may-lease woken d now id c may in
        admit_lease-IsKept (leasable woken d now id c).0 d id holds reading there live (k'.0 live))
      (λ refused. passed_on-IsKept (leasable woken d now id c).0 k')
  where
    woken : Store
    woken = with_permit s (wake w s.permit)

    k' : IsKept IsCarried (leasable woken d now id c).0
    k' = leasable-IsKept IsCarried-IsStable woken d now id c (
      λ live. wake-IsCarried w s.permit (k.0 live) e,
      λ closing. wake-IsShut w s.permit (k.1 closing),
    )
