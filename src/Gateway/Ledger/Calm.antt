-- ===== src/Gateway/Ledger/Calm.antt =====
-- The deferral flag of an orphan record, `settleAfterSweep`, under each operation of the ledger
-- (gateway/session-manager.ts).
use browse_gateway.Base.{
  ℕ, ◌≡◌, refl, ◌⊎◌, inl, inr, Bool, true, false, List, arith, ◌==◌, is_some, Bool-cases, ==_iff,
  if_cases, ◌∙◌, ap,
}
use browse_gateway.Base.Ids.{mem}
use browse_gateway.Gateway.Ledger.{
  OrphanRecord, Ledger, write, set_record, add_orphan, finalize_orphan, sweep_orphan,
  enqueue_orphan, settle_reaped_orphan, confirmed, unconfirmed, unsupported, SweepResult,
  stamps_after, decide_sweep, sweep_settled, sweep_rejected, late_resolve, late_reject,
}
use browse_gateway.Gateway.Ledger.Heap.{swept, settling, resumed}

abbrev pub Calm : OrphanRecord → Type 0
Calm v = v.settle_after_sweep ≡ true → (v.sweeping ≡ true) × (is_some v.session ≡ true)

abbrev pub IsCalm : Ledger → Type 0
IsCalm l = (q : ℕ) → Calm (l.heap q)

write_at : (l : Ledger) (r : ℕ) (v : OrphanRecord) → (set_record l r v).heap r ≡ v
unfolding set_record write
write_at l r v = ground arith

module _ (l : Ledger) (r : ℕ) (c : IsCalm l) where
  pub sweep_orphan-IsCalm : IsCalm (sweep_orphan l r)
  unfolding sweep_orphan write
  sweep_orphan-IsCalm q h = elim (Bool-cases (q == r)) [
    | inl same ↦ let e : q ≡ r = (==_iff q r).0 same in ground (arith, c q, c r)
    | inr apart ↦ ground (arith, c q)
  ]

  pub set_record-IsCalm : (v : OrphanRecord) → Calm v → IsCalm (set_record l r v)
  unfolding set_record write
  set_record-IsCalm v own q h = elim (Bool-cases (q == r)) [
    | inl same ↦ ground (arith, own)
    | inr apart ↦ ground (arith, c q)
  ]

  pub finalize_orphan-IsCalm : IsCalm (finalize_orphan l r)
  unfolding finalize_orphan write
  finalize_orphan-IsCalm q h = elim (Bool-cases (q == r)) [
    | inl same ↦ let e : q ≡ r = (==_iff q r).0 same in ground (arith, c q, c r)
    | inr apart ↦ ground (arith, c q)
  ]

  pub late_reject-IsCalm : IsCalm (late_reject l r)
  unfolding late_reject write
  late_reject-IsCalm q h = elim (Bool-cases (q == r)) [
    | inl same ↦ let e : q ≡ r = (==_iff q r).0 same in ground (arith, c q, c r)
    | inr apart ↦ ground (arith, c q)
  ]

  pub late_resolve-IsCalm : (sid : ℕ) → IsCalm (late_resolve l r sid)
  unfolding late_resolve write
  late_resolve-IsCalm sid q h = elim (Bool-cases (q == r)) [
    | inl same ↦ let e : q ≡ r = (==_iff q r).0 same in ground (arith, c q, c r)
    | inr apart ↦ ground (arith, c q)
  ]

  pub settle_reaped_orphan-IsCalm :
      (((l.heap r).settle_after_sweep ≡ false) × ((l.heap r).sweeping ≡ false))
        ⊎ (is_some (l.heap r).session ≡ true)
      → IsCalm (settle_reaped_orphan l r)
  unfolding settle_reaped_orphan write
  settle_reaped_orphan-IsCalm own q h = elim (Bool-cases (q == r)) [
    | inl same ↦
        let e : q ≡ r = (==_iff q r).0 same in
        elim own [ inl plain ↦ ground (arith, c q, c r) | inr owned ↦ ground (arith, c q, c r) ]
    | inr apart ↦ ground (arith, c q)
  ]

  decide_sweep-IsCalm : (result : SweepResult) → IsCalm (decide_sweep l r result)
  unfolding decide_sweep
  decide_sweep-IsCalm confirmed =
      if_cases IsCalm (l.heap r).settled _ _ (λ done. finalize_orphan-IsCalm)
        (λ pending. if_cases IsCalm (mem r l.orphans) _ _ (λ counted. c) (λ off. c))
  decide_sweep-IsCalm unsupported = c
  decide_sweep-IsCalm unconfirmed = c

clash : {b : Bool} → b ≡ true → b ≡ false → ⊥
clash h k = cc

-- A record whose flag is down stays calm through the settlement.
settle_plain :
    (l : Ledger) (r : ℕ) (v : OrphanRecord)
    → IsCalm l
    → v.settle_after_sweep ≡ false
    → v.sweeping ≡ false
    → IsCalm (settle_reaped_orphan (set_record l r v) r)
settle_plain l r v c down idle =
    settle_reaped_orphan-IsCalm (set_record l r v) r
      (set_record-IsCalm l r c v (λ up. absurd (clash up down)))
      (inl (
        ap (λ a. a.settle_after_sweep) (write_at l r v) ∙ down,
        ap (λ a. a.sweeping) (write_at l r v) ∙ idle,
      ))

pub sweep_settled-IsCalm :
    (l : Ledger) (r : ℕ) (result : SweepResult) (stamps : List ℕ)
    → IsCalm l
    → IsCalm (sweep_settled l r result stamps)
unfolding sweep_settled
sweep_settled-IsCalm l r result stamps c =
    let v = swept (l.heap r) (stamps_after result stamps) in
    if_cases IsCalm (l.heap r).settle_after_sweep _ _
      (λ deferred. settle_plain l r (settling (l.heap r) (stamps_after result stamps)) c refl refl)
      (λ plain.
        let kept : IsCalm (set_record l r v) =
          set_record-IsCalm l r c v (λ up. absurd (clash up plain)) in
        if_cases IsCalm (is_some (l.heap r).session) _ _ (λ owned. kept)
          (λ free. decide_sweep-IsCalm (set_record l r v) r kept result))

pub sweep_rejected-IsCalm : (l : Ledger) (r : ℕ) → IsCalm l → IsCalm (sweep_rejected l r)
unfolding sweep_rejected
sweep_rejected-IsCalm l r c =
    let v : OrphanRecord = record (l.heap r) { sweeping = false } in
    if_cases IsCalm (l.heap r).settle_after_sweep _ _
      (λ deferred. settle_plain l r (resumed (l.heap r)) c refl refl)
      (λ plain.
        let kept : IsCalm (set_record l r v) =
          set_record-IsCalm l r c v (λ up. absurd (clash up plain)) in
        if_cases IsCalm (mem r l.watch) _ _ (λ watched. kept) (λ off. kept))

pub enqueue_orphan-IsCalm :
    (l : Ledger) (r : ℕ) (v : OrphanRecord)
    → IsCalm l
    → v.settle_after_sweep ≡ false
    → IsCalm (enqueue_orphan l r v)
unfolding enqueue_orphan
enqueue_orphan-IsCalm l r v c down =
    sweep_orphan-IsCalm (add_orphan (set_record l r v) r) r
      (set_record-IsCalm l r c v (λ up. absurd (clash up down)))
