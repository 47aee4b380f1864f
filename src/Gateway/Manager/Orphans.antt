-- ===== src/Gateway/Manager/Orphans.antt =====
-- The invariant of the ledger in its environment. `alive` are the live sessions; `waits` says which
-- sessions some teardown or reconfirm still owes an end.
use browse_gateway.Base.{
  ℕ, ◌≡◌, ◌⊎◌, ◌≢◌, inl, inr, true, false, some, List, arith, ◌==◌, Bool-cases, ==_iff, ◌∙◌, ap,
  sym, subst,
}
use browse_gateway.Base.Ids.{mem}
use browse_gateway.Gateway.Ledger.{Ledger}
use browse_gateway.Gateway.Ledger.Heap.{Holds}
use browse_gateway.Gateway.Ledger.Owned.{Same}
use browse_gateway.Gateway.Ledger.Loses.{Loses}

-- No two records have one session.
abbrev pub IsUnique : Ledger → Type 0
IsUnique l = (q p sid : ℕ) → (l.heap q).session ≡ some sid → (l.heap p).session ≡ some sid → q ≡ p

-- A counted record with a session whose settlement is deferred is being swept, and the session's
-- core is dead.
abbrev pub IsDeferred : Ledger → List ℕ → Type 0
IsDeferred l alive =
    (q sid : ℕ)
    → Holds l q sid
    → (l.heap q).settle_after_sweep ≡ true
    → ((l.heap q).sweeping ≡ true) × (mem sid alive ≡ false)

-- A counted record with a session is owed an end, or its settlement is deferred.
abbrev pub IsTended : Ledger → (ℕ → Type 0) → Type 0
IsTended l waits = (q sid : ℕ) → Holds l q sid → waits sid ⊎ ((l.heap q).settle_after_sweep ≡ true)

module _ (l l' : Ledger) (r : ℕ) (same : (q : ℕ) → q ≢ r → Same l l' q) where
  apart : (q : ℕ) → (q == r) ≡ false → q ≢ r
  apart q h e = ground arith

  -- The three properties, from what they are at the record itself.
  pub IsUnique-of : Loses l l' r → IsUnique l → IsUnique l'
  IsUnique-of lost u q p sid hq hp = u q p sid (was q hq) (was p hp)
    where
      was : (a : ℕ) → (l'.heap a).session ≡ some sid → (l.heap a).session ≡ some sid
      was a h = elim (Bool-cases (a == r)) [
        | inl here ↦
            let e : a ≡ r = (==_iff a r).0 here in
            ground (arith, ap (λ b. (l'.heap b).session) e, ap (λ b. (l.heap b).session) e)
        | inr there ↦ sym (ap (λ v. v.session) (same a (apart a there)).1) ∙ h
      ]

  pub IsDeferred-of :
      (alive : List ℕ)
      → ((sid : ℕ)
          → Holds l' r sid
          → (l'.heap r).settle_after_sweep ≡ true
          → ((l'.heap r).sweeping ≡ true) × (mem sid alive ≡ false))
      → IsDeferred l alive
      → IsDeferred l' alive
  IsDeferred-of alive own d q sid h = elim (Bool-cases (q == r)) [
    | inl here ↦
        let e : q ≡ r = (==_iff q r).0 here in
        subst
          (λ a.
            Holds l' a sid
            → (l'.heap a).settle_after_sweep ≡ true
            → ((l'.heap a).sweeping ≡ true) × (mem sid alive ≡ false))
          (sym e) (own sid) h
    | inr there ↦
        let (m, s) = same q (apart q there) in
        λ k.
          let (sw, dead) =
            d q sid (sym m ∙ h.0, sym (ap (λ v. v.session) s) ∙ h.1)
              (sym (ap (λ v. v.settle_after_sweep) s) ∙ k) in
          (ap (λ v. v.sweeping) s ∙ sw, dead)
  ]

  pub IsTended-of :
      (waits waits' : ℕ → Type 0)
      → ((sid : ℕ) → Holds l' r sid → waits' sid ⊎ ((l'.heap r).settle_after_sweep ≡ true))
      → ((q sid : ℕ) → q ≢ r → (l.heap q).session ≡ some sid → waits sid → waits' sid)
      → IsTended l waits
      → IsTended l' waits'
  IsTended-of waits waits' own keep t q sid h = elim (Bool-cases (q == r)) [
    | inl here ↦
        let e : q ≡ r = (==_iff q r).0 here in
        subst (λ a. Holds l' a sid → waits' sid ⊎ ((l'.heap a).settle_after_sweep ≡ true)) (sym e)
          (own sid) h
    | inr there ↦
        let (m, s) = same q (apart q there) in
        let old = sym (ap (λ v. v.session) s) ∙ h.1 in
        elim (t q sid (sym m ∙ h.0, old)) [
          | inl waiting ↦ inl (keep q sid (apart q there) old waiting)
          | inr put_off ↦ inr (ap (λ v. v.settle_after_sweep) s ∙ put_off)
        ]
  ]
