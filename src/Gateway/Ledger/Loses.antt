-- ===== src/Gateway/Ledger/Loses.antt =====
-- The session of the record that an operation of the ledger works on (gateway/session-manager.ts).
use browse_gateway.Base.{
  ℕ, ◌≡◌, refl, ◌⊎◌, inl, inr, false, none, List, arith, is_some, if_cases, ◌∙◌, ap,
}
use browse_gateway.Base.Ids.{mem}
use browse_gateway.Gateway.Ledger.{
  OrphanRecord, Ledger, write, set_record, add_orphan, sweep_orphan, settle_reaped_orphan,
  confirmed, unconfirmed, unsupported, SweepResult, stamps_after, decide_sweep, sweep_settled,
  sweep_rejected, late_reject,
}
use browse_gateway.Gateway.Ledger.Heap.{swept, settling, resumed}
use browse_gateway.Gateway.Ledger.Owned.{write_at}

-- No operation gives a record a session, but for a late resolve.
abbrev pub Loses : Ledger → Ledger → ℕ → Type 0
Loses l l' r = ((l'.heap r).session ≡ (l.heap r).session) ⊎ ((l'.heap r).session ≡ none)

pub sweep_orphan-Loses : (l : Ledger) (r : ℕ) → Loses l (sweep_orphan l r) r
unfolding sweep_orphan write
sweep_orphan-Loses l r = ground arith

pub settle_reaped_orphan-Loses : (l : Ledger) (r : ℕ) → Loses l (settle_reaped_orphan l r) r
unfolding settle_reaped_orphan write
settle_reaped_orphan-Loses l r = ground arith

decide_sweep-Loses :
    (l : Ledger) (r : ℕ) (result : SweepResult) → Loses l (decide_sweep l r result) r
unfolding decide_sweep write
decide_sweep-Loses l r confirmed = ground arith
decide_sweep-Loses l r unconfirmed = ground arith
decide_sweep-Loses l r unsupported = ground arith

Loses-write :
    (l k : Ledger) (r : ℕ) (v : OrphanRecord)
    → v.session ≡ (l.heap r).session
    → Loses (set_record l r v) k r
    → Loses l k r
Loses-write l k r v e (inl same) = inl (same ∙ ap (λ a. a.session) (write_at l r v) ∙ e)
Loses-write l k r v e (inr gone) = inr gone

pub sweep_settled-Loses :
    (l : Ledger) (r : ℕ) (result : SweepResult) (stamps : List ℕ)
    → Loses l (sweep_settled l r result stamps) r
unfolding sweep_settled
sweep_settled-Loses l r result stamps =
    let v = swept (l.heap r) (stamps_after result stamps) in
    let w = settling (l.heap r) (stamps_after result stamps) in
    if_cases (λ k. Loses l k r) (l.heap r).settle_after_sweep _ _
      (λ deferred.
        Loses-write l (settle_reaped_orphan (set_record l r w) r) r w refl
          (settle_reaped_orphan-Loses (set_record l r w) r))
      (λ plain.
        if_cases (λ k. Loses l k r) (is_some (l.heap r).session) _ _
          (λ owned. inl (ap (λ a. a.session) (write_at l r v)))
          (λ free.
            Loses-write l (decide_sweep (set_record l r v) r result) r v refl
              (decide_sweep-Loses (set_record l r v) r result)))

pub sweep_rejected-Loses : (l : Ledger) (r : ℕ) → Loses l (sweep_rejected l r) r
unfolding sweep_rejected
sweep_rejected-Loses l r =
    let v : OrphanRecord = record (l.heap r) { sweeping = false } in
    let w = resumed (l.heap r) in
    if_cases (λ k. Loses l k r) (l.heap r).settle_after_sweep _ _
      (λ deferred.
        Loses-write l (settle_reaped_orphan (set_record l r w) r) r w refl
          (settle_reaped_orphan-Loses (set_record l r w) r))
      (λ plain.
        if_cases (λ k. Loses l k r) (mem r l.watch) _ _
          (λ watched. inl (unfold add_orphan in (ap (λ a. a.session) (write_at l r v))))
          (λ off. inl (ap (λ a. a.session) (write_at l r v))))

pub late_reject-Loses : (l : Ledger) (r : ℕ) → Loses l (late_reject l r) r
unfolding late_reject write
late_reject-Loses l r = ground arith
