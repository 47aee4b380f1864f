-- ===== src/Artifacts/Store/Permits/Discards.antt =====
-- The response permit through the deletions of artifacts/store.ts.
use browse_gateway.Base.{
  ℕ, ◌≡◌, inl, inr, sym, subst, Bool, true, false, ◌||◌, not, Option, none, some, List, [], ◌∷◌,
  leb, if◌then◌else◌, if_cases, Bool-cases,
}
use browse_gateway.Artifacts.Permit.{Permit, settle_holder}
use browse_gateway.Artifacts.Permit.Phases.{IsTracked, IsShut}
use browse_gateway.Artifacts.Permit.Moves.{settle_holder-vacant, settle_responses-IsShut}
use browse_gateway.Artifacts.Store.{
  Store, StoredRecord, shut, clear_timer, mark_unhealthy, identity_proven, strict_delete,
}
use browse_gateway.Artifacts.Store.Discard.{
  Disk, Deleted, Deletion, unlink, let_go, delete_physical, release_discarded, released,
  discard_owned, DiscardResult, discard_artifact_detailed, is_being_consumed, reap, reap_expired,
}
use browse_gateway.Artifacts.Store.Permits.{IsKept}

-- A claim on the permit that the settling of the response of a deleted artifact keeps.
pub record IsStable (Q : Permit → Type 0) : Type 1 where
  pub settles : (id : ℕ) (p : Permit) → Q p → Q (settle_holder false id p)
  pub tracks : (p : Permit) → Q p → IsTracked p

or_true-ne-false : (b : Bool) → (b || true) ≡ false → ⊥
or_true-ne-false true h = cc
or_true-ne-false false h = cc

module _ {Q : Permit → Type 0} (stable : IsStable Q) where
  pub IsKept-IsTracked : (s : Store) → IsKept Q s → IsTracked s.permit
  IsKept-IsTracked s k = elim (Bool-cases (shut s)) [
    | inl closing ↦ (k.1 closing).tracked
    | inr live ↦ stable.tracks s.permit (k.0 live)
  ]

  pub mark_unhealthy-IsKept : (s : Store) → IsTracked s.permit → IsKept Q (mark_unhealthy s)
  unfolding mark_unhealthy
  mark_unhealthy-IsKept s k = (
    λ live. absurd (or_true-ne-false s.close_requested live),
    λ closing. settle_responses-IsShut true s.permit k,
  )

  pub identity_proven-IsKept :
      (s : Store) (holds : Bool) → IsKept Q s → IsKept Q (identity_proven s holds).0
  unfolding identity_proven
  identity_proven-IsKept s holds k =
      if_cases {A = Store × Bool} (λ a. IsKept Q a.0) s.identity_lost _ _ (λ lost. k)
        (λ own.
          if_cases {A = Store × Bool} (λ a. IsKept Q a.0) (not s.enabled || holds) _ _ (λ fine. k)
            (λ foreign.
              mark_unhealthy-IsKept (record s { identity_lost = true }) (IsKept-IsTracked s k)))

  let_go-IsKept : (s : Store) (id : ℕ) → IsKept Q s → IsKept Q (let_go s id)
  unfolding let_go clear_timer
  let_go-IsKept s id k = (
    λ live.
        subst (λ b. Q (settle_holder b id s.permit)) (sym live)
          (stable.settles id s.permit (k.0 live)),
    λ closing.
        subst IsShut (sym (settle_holder-vacant id s.permit (shut s) (k.1 closing).vacant.nothing))
          (k.1 closing),
  )

  unlink-IsKept :
      (s : Store) (id : ℕ) (deletes : Bool) → IsKept Q s → IsKept Q (unlink s id deletes).store
  unfolding unlink
  unlink-IsKept s id deletes k =
      if_cases {A = Deletion} (λ x. IsKept Q x.store) (strict_delete s true deletes) _ _ (λ gone. k)
        (λ left. mark_unhealthy-IsKept s (IsKept-IsTracked s k))

  pub delete_physical-IsKept :
      (s : Store) (d : Disk) (id : ℕ) → IsKept Q s → IsKept Q (delete_physical s d id).store
  unfolding delete_physical
  delete_physical-IsKept s d id k =
      let k' = identity_proven-IsKept (let_go s id) (d.holds id) (let_go-IsKept s id k) in
      if_cases {A = Deletion} (λ x. IsKept Q x.store) (identity_proven (let_go s id) (d.holds id)).1
        _ _
        (λ proven.
          unlink-IsKept (identity_proven (let_go s id) (d.holds id)).0 id (d.deletes id) k')
        (λ lost. k')

  pub release_discarded-IsKept :
      (s : Store) (id : ℕ) (f : Deleted) (close_owned : Bool)
      → IsKept Q s
      → IsKept Q (release_discarded s id f close_owned)
  unfolding release_discarded
  release_discarded-IsKept s id f close_owned k = k

  pub discard_owned-IsKept :
      (s : Store) (d : Disk) (id : ℕ) → IsKept Q s → IsKept Q (discard_owned s d id).0
  unfolding discard_owned
  discard_owned-IsKept s d id k =
      by_facts (delete_physical s d id).facts (delete_physical s d id).store
        (delete_physical-IsKept s d id k)
    where
      by_facts : (f : Option Deleted) (s' : Store) → IsKept Q s' → IsKept Q (released f s' id).0
      by_facts none s' k' = k'
      by_facts (some f) s' k' = release_discarded-IsKept s' id f false k'

  pub discard_artifact_detailed-IsKept :
      (s : Store) (d : Disk) (id : ℕ) → IsKept Q s → IsKept Q (discard_artifact_detailed s d id).0
  unfolding discard_artifact_detailed
  discard_artifact_detailed-IsKept s d id k =
      if_cases P (not s.enabled) _ _ (λ off. k)
        λ on.
          if_cases P (s.close_requested || s.disposed) _ _ (λ closing. k)
            λ open_.
              if_cases P s.unhealthy _ _ (λ poisoned. k)
                λ well.
                  if_cases P (is_being_consumed id s.records) _ _ (λ consumed. k)
                    λ free. discard_owned-IsKept s d id k
    where
      P : Store × DiscardResult → Type 0
      P a = IsKept Q a.0

  reap-IsKept :
      (s : Store) (d : Disk) (now : ℕ) (rs : List StoredRecord)
      → IsKept Q s
      → IsKept Q (reap s d now rs)
  unfolding reap
  reap-IsKept s d now [] k = k
  reap-IsKept s d now (r ∷ rs) k =
      reap-IsKept (if leb r.expires_at now then (discard_artifact_detailed s d r.id).0 else s) d now
        rs
        (if_cases (IsKept Q) (leb r.expires_at now) _ _
          (λ expired. discard_artifact_detailed-IsKept s d r.id k) (λ young. k))

  pub reap_expired-IsKept :
      (s : Store) (d : Disk) (now : ℕ) → IsKept Q s → IsKept Q (reap_expired s d now)
  unfolding reap_expired
  reap_expired-IsKept s d now k = reap-IsKept s d now s.records k
