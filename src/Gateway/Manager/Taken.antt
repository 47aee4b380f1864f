-- ===== src/Gateway/Manager/Taken.antt =====
-- A record of the ledger that takes a session which came up late (gateway/session-manager.ts).
use browse_gateway.Base.{
  ℕ, ◌≡◌, ◌⊎◌, ◌≢◌, inl, inr, Bool, true, false, some, List, arith, ◌∙◌, ap, sym, subst,
}
use browse_gateway.Base.Ids.{put, mem-put}
use browse_gateway.Gateway.Ledger.{Ledger}
use browse_gateway.Gateway.Ledger.Owned.{Same}
use browse_gateway.Gateway.Ledger.Parked.{IsParked}
use browse_gateway.Gateway.Manager.Orphans.{IsUnique, IsDeferred, IsDeferred-of, IsTended-of}
use browse_gateway.Gateway.Manager.Sound.{IsSound}

clash : {b : Bool} → b ≡ true → b ≡ false → ⊥
clash h k = cc

some_inj : (a b : ℕ) → some a ≡ some b → a ≡ b
some_inj a b e = ground arith

-- A session that no record has may come alive.
pub IsDeferred-put :
    (l : Ledger) (new : ℕ) (alive : List ℕ)
    → ((q : ℕ) → (l.heap q).session ≢ some new)
    → IsDeferred l alive
    → IsDeferred l (put alive new)
IsDeferred-put l new alive fresh d q sid h up =
    let (sw, dead) = d q sid h up in
    let other : sid ≢ new = λ e. fresh q (h.1 ∙ ap some e) in
    (sw, ground (arith, mem-put sid new alive))

-- A record that takes a new session, on a ledger where no record has it.
module _ (l l' : Ledger) (r new : ℕ) (same : (q : ℕ) → q ≢ r → Same l l' q)
    (taken : (l'.heap r).session ≡ some new) (fresh : (q : ℕ) → (l.heap q).session ≢ some new)
    (plain : (l'.heap r).settle_after_sweep ≡ false) where
  other_or_self : (q : ℕ) → (q ≡ r) ⊎ (q ≢ r)
  other_or_self q = grind arith

  take-IsUnique : IsUnique l → IsUnique l'
  take-IsUnique u q p sid hq hp = elim (other_or_self q) [
    | inl eq ↦ elim (other_or_self p) [
      | inl ep ↦ eq ∙ sym ep
      | inr np ↦
          let old = sym (ap (λ v. v.session) (same p np).1) ∙ hp in
          let own = sym (ap (λ a. (l'.heap a).session) eq) ∙ hq in
          absurd (fresh p (old ∙ sym own ∙ taken))
    ]
    | inr nq ↦
        let old = sym (ap (λ v. v.session) (same q nq).1) ∙ hq in
        elim (other_or_self p) [
          | inl ep ↦
              let own = sym (ap (λ a. (l'.heap a).session) ep) ∙ hp in
              absurd (fresh q (old ∙ sym own ∙ taken))
          | inr np ↦ u q p sid old (sym (ap (λ v. v.session) (same p np).1) ∙ hp)
        ]
  ]

  pub take-IsSound :
      (alive : List ℕ) (waits waits' : ℕ → Type 0)
      → ((k : ℕ) → waits k → waits' k)
      → waits' new
      → IsParked l'
      → IsSound l alive waits
      → IsSound l' (put alive new) waits'
  take-IsSound alive waits waits' keep owed parked s = record {
    unique = take-IsUnique s.unique;
    deferred =
        IsDeferred-of l l' r same (put alive new) (λ k h up. absurd (clash up plain))
          (IsDeferred-put l new alive fresh s.deferred);
    tended =
        IsTended-of l l' r same waits waits'
          (λ k h. inl (subst waits' (some_inj new k (sym taken ∙ h.1)) owed))
          (λ q k far h waiting. keep k waiting) s.tended;
    parked = parked;
  }
