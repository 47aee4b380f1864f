-- ===== src/Artifacts/Capacity/Entries.antt =====
-- The map of consumers of the reservation ledger: artifacts/store.ts.
use browse_gateway.Base.{
  ℕ, ◌≡◌, refl, Bool, none, some, List, [], ◌∷◌, arith, ◌==◌, if◌then◌else◌, is_some, find?,
}
use browse_gateway.Base.Totals.{replace}
use browse_gateway.Artifacts.Capacity.{
  Usage, is_usage_of, set_usage, charge, drop_usage, refund, discharged, is_spent,
}

abbrev pub has_usage : ℕ → List Usage → Bool
has_usage c us = is_some (find? (is_usage_of c) us)

pub find-set_usage :
    (d : ℕ) (u : Usage) (us : List Usage)
    → find? (is_usage_of d) (set_usage u us)
      ≡ (if u.consumer_id == d then some u else find? (is_usage_of d) us)
unfolding set_usage
find-set_usage d u [] = refl
find-set_usage d u (v ∷ us) = ground (arith, find-set_usage d u us)

module _ (c : ℕ) (g : Usage → Usage) (keeps : (v : Usage) → (g v).consumer_id ≡ v.consumer_id) where
  pub find-charge :
      (d : ℕ) (us : List Usage) (u : Usage)
      → find? (is_usage_of c) us ≡ some u
      → find? (is_usage_of d) (charge c g us)
        ≡ (if c == d then some (g u) else find? (is_usage_of d) us)
  unfolding charge replace
  find-charge d [] u h = ground arith
  find-charge d (v ∷ us) u h = ground (arith, keeps v, find-charge d us u)

pub find-drop_usage :
    (c d : ℕ) (us : List Usage)
    → find? (is_usage_of d) (drop_usage c us) ≡ (if c == d then none else find? (is_usage_of d) us)
unfolding drop_usage
find-drop_usage c d [] = ground arith
find-drop_usage c d (v ∷ us) = ground (arith, find-drop_usage c d us)

discharged-consumer_id : (b : ℕ) (v : Usage) → (discharged b v).consumer_id ≡ v.consumer_id
discharged-consumer_id b v = refl

pub find-refund :
    (c b d : ℕ) (us : List Usage) (u : Usage)
    → find? (is_usage_of c) us ≡ some u
    → find? (is_usage_of d) (refund c b us) ≡ (
        if c == d
        then if is_spent (discharged b u) then none else some (discharged b u)
        else find? (is_usage_of d) us)
unfolding refund
find-refund c b d us u h = ground (
  arith,
  find-charge c (discharged b) (discharged-consumer_id b) c us u h,
  find-charge c (discharged b) (discharged-consumer_id b) d us u h,
  find-drop_usage c d (charge c (discharged b) us),
)
