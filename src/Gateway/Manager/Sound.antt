-- ===== src/Gateway/Manager/Sound.antt =====
-- The invariant of the ledger at each of its operations (gateway/session-manager.ts).
use browse_gateway.Base.{
  ℕ, ◌≡◌, ◌≢◌, inl, inr, false, none, some, List, arith, Option-cases, ◌∙◌, ap, sym, subst,
}
use browse_gateway.Base.Ids.{mem}
use browse_gateway.Gateway.Ledger.{
  OrphanRecord, Ledger, write, sweep_orphan, enqueue_orphan, settle_reaped_orphan, SweepResult,
  sweep_settled, sweep_rejected, late_reject,
}
use browse_gateway.Gateway.Ledger.Heap.{Holds}
use browse_gateway.Gateway.Ledger.Parked.{
  IsParked, sweep_orphan-IsParked, settle_reaped_orphan-IsParked, sweep_settled-IsParked,
  sweep_rejected-IsParked, late_reject-IsParked, enqueue_orphan-IsParked,
}
use browse_gateway.Gateway.Ledger.Owned.{
  Same, sweep_orphan-Same, settle_reaped_orphan-Same, sweep_settled-Same, sweep_rejected-Same,
  late_reject-Same, enqueue_orphan-Same, settle_reaped_orphan-at, sweep_orphan_owned,
  sweep_orphan_free, sweep_settled-at, sweep_rejected-at,
}
use browse_gateway.Gateway.Ledger.Loses.{
  settle_reaped_orphan-Loses, sweep_settled-Loses, sweep_rejected-Loses, late_reject-Loses,
}
use browse_gateway.Gateway.Manager.Orphans.{
  IsUnique, IsDeferred, IsTended, IsUnique-of, IsDeferred-of, IsTended-of,
}

pub record IsSound (l : Ledger) (alive : List ℕ) (waits : ℕ → Type 0) : Type 0 where
  pub unique : IsUnique l
  pub deferred : IsDeferred l alive
  pub tended : IsTended l waits
  pub parked : IsParked l

none-some : (l : Ledger) (r sid : ℕ) → (l.heap r).session ≡ none → (l.heap r).session ≡ some sid → ⊥
none-some l r sid a b = cc

enqueued_free :
    (l : Ledger) (r : ℕ) (v : OrphanRecord)
    → v.session ≡ none
    → ((enqueue_orphan l r v).heap r).session ≡ none
unfolding enqueue_orphan write
enqueued_free l r v e = ground arith

module _ (l : Ledger) (r : ℕ) (alive : List ℕ) (waits : ℕ → Type 0)
    (s : IsSound l alive waits) where
  -- A record with no session afterwards has nothing to prove.
  free-IsSound :
      (l' : Ledger)
      → ((q : ℕ) → q ≢ r → Same l l' q)
      → (l'.heap r).session ≡ none
      → IsParked l'
      → IsSound l' alive waits
  free-IsSound l' same free parked = record {
    unique = IsUnique-of l l' r same (inr free) s.unique;
    deferred =
        IsDeferred-of l l' r same alive (λ sid h. absurd (none-some l' r sid free h.1)) s.deferred;
    tended =
        IsTended-of l l' r same waits waits (λ sid h. absurd (none-some l' r sid free h.1))
          (λ q sid far h waiting. waiting) s.tended;
    parked = parked;
  }

  pub sweep_orphan-IsSound : IsSound (sweep_orphan l r) alive waits
  sweep_orphan-IsSound = elim (Option-cases (l.heap r).session) [
    | inl free ↦
        free-IsSound (sweep_orphan l r) (λ q far. sweep_orphan-Same l r q far)
          (sweep_orphan_free l r free) (sweep_orphan-IsParked l r s.parked)
    | inr (sid, owned) ↦
        subst (λ k. IsSound k alive waits) (sym (sweep_orphan_owned l r sid owned)) s
  ]

  pub settle_reaped_orphan-IsSound :
      (sid : ℕ) (waits' : ℕ → Type 0)
      → (l.heap r).session ≡ some sid
      → mem sid alive ≡ false
      → ((k : ℕ) → k ≢ sid → waits k → waits' k)
      → IsSound (settle_reaped_orphan l r) alive waits'
  settle_reaped_orphan-IsSound sid waits' owned dead keep = record {
    unique = IsUnique-of l l' r same (settle_reaped_orphan-Loses l r) s.unique;
    deferred =
        IsDeferred-of l l' r same alive
          (λ k h d. ((settle_reaped_orphan-at l r k h).1, dead_at k h)) s.deferred;
    tended =
        IsTended-of l l' r same waits waits' (λ k h. inr (settle_reaped_orphan-at l r k h).0)
          (λ q k far h waiting.
            keep k (λ e. far (s.unique q r k h (owned ∙ ap some (sym e)))) waiting)
          s.tended;
    parked = settle_reaped_orphan-IsParked l r s.parked;
  }
    where
      l' : Ledger
      l' = settle_reaped_orphan l r

      same : (q : ℕ) → q ≢ r → Same l l' q
      same q far = settle_reaped_orphan-Same l r q far

      dead_at : (k : ℕ) → Holds (settle_reaped_orphan l r) r k → mem k alive ≡ false
      dead_at k h = elim (settle_reaped_orphan-Loses l r) [
        | inl kept ↦ let e : sid ≡ k = ground arith in rw (← e) dead
        | inr gone ↦ absurd (none-some l' r k gone h.1)
      ]

  pub sweep_settled-IsSound :
      (result : SweepResult) (stamps : List ℕ)
      → IsSound (sweep_settled l r result stamps) alive waits
  sweep_settled-IsSound result stamps = record {
    unique = IsUnique-of l l' r same (sweep_settled-Loses l r result stamps) s.unique;
    deferred =
        IsDeferred-of l l' r same alive
          (λ k h d. let (m, o, p, n) = sweep_settled-at l r k result stamps h in cc) s.deferred;
    tended =
        IsTended-of l l' r same waits waits
          (λ k h.
            let (m, o, p, n) = sweep_settled-at l r k result stamps h in
            elim (s.tended r k (m, o)) [ inl waiting ↦ inl waiting | inr d ↦ cc ])
          (λ q k far h waiting. waiting) s.tended;
    parked = sweep_settled-IsParked l r result stamps s.parked;
  }
    where
      l' : Ledger
      l' = sweep_settled l r result stamps

      same : (q : ℕ) → q ≢ r → Same l l' q
      same q far = sweep_settled-Same l r q far result stamps

  pub sweep_rejected-IsSound : IsSound (sweep_rejected l r) alive waits
  sweep_rejected-IsSound = record {
    unique = IsUnique-of l l' r same (sweep_rejected-Loses l r) s.unique;
    deferred =
        IsDeferred-of l l' r same alive
          (λ k h d. let (m, o, p, n) = sweep_rejected-at l r k h in cc) s.deferred;
    tended =
        IsTended-of l l' r same waits waits
          (λ k h.
            let (m, o, p, n) = sweep_rejected-at l r k h in
            elim m [
              | inl counted ↦ elim (s.tended r k (counted, o)) [
                | inl waiting ↦ inl waiting
                | inr d ↦ cc
              ]
              | inr watched ↦ absurd (none-some l r k (s.parked r watched) o)
            ])
          (λ q k far h waiting. waiting) s.tended;
    parked = sweep_rejected-IsParked l r s.parked;
  }
    where
      l' : Ledger
      l' = sweep_rejected l r

      same : (q : ℕ) → q ≢ r → Same l l' q
      same q far = sweep_rejected-Same l r q far

  pub late_reject-IsSound : (l.heap r).session ≡ none → IsSound (late_reject l r) alive waits
  late_reject-IsSound free =
      free-IsSound (late_reject l r) (λ q far. late_reject-Same l r q far) gone
        (late_reject-IsParked l r s.parked)
    where
      gone : ((late_reject l r).heap r).session ≡ none
      gone = elim (late_reject-Loses l r) [ inl kept ↦ kept ∙ free | inr lost ↦ lost ]

  pub enqueue_orphan-IsSound :
      (v : OrphanRecord) → v.session ≡ none → IsSound (enqueue_orphan l r v) alive waits
  enqueue_orphan-IsSound v free =
      free-IsSound (enqueue_orphan l r v) (λ q far. enqueue_orphan-Same l r q far v)
        (enqueued_free l r v free) (enqueue_orphan-IsParked l r v s.parked free)
