-- ===== src/Gateway/Ledger/Owned.antt =====
-- What an operation of the ledger on one record leaves of the others, and what it does to a record
-- that a session owns (gateway/session-manager.ts).
use browse_gateway.Base.{
  ℕ, ◌≡◌, refl, ◌⊎◌, ◌≢◌, inl, inr, true, false, Option, none, some, List, arith, is_some, if_cases,
  ◌∙◌, ap, sym,
}
use browse_gateway.Base.Ids.{mem, put, remove, mem-put, mem-remove}
use browse_gateway.Gateway.Ledger.{
  OrphanRecord, Ledger, write, set_record, add_orphan, finalize_orphan, sweep_orphan,
  enqueue_orphan, settle_reaped_orphan, confirmed, unconfirmed, unsupported, SweepResult,
  stamps_after, decide_sweep, sweep_settled, sweep_rejected, late_resolve, late_reject,
}
use browse_gateway.Gateway.Ledger.Heap.{Holds, swept, settling, resumed}

-- The record is as it was, and counted as it was.
abbrev pub Same : Ledger → Ledger → ℕ → Type 0
Same l l' q = (mem q l'.orphans ≡ mem q l.orphans) × (l'.heap q ≡ l.heap q)

module _ (l : Ledger) (r q : ℕ) (apart : q ≢ r) where
  pub sweep_orphan-Same : Same l (sweep_orphan l r) q
  unfolding sweep_orphan write
  sweep_orphan-Same = ground (arith, mem-remove q r l.orphans)

  pub finalize_orphan-Same : Same l (finalize_orphan l r) q
  unfolding finalize_orphan write
  finalize_orphan-Same = ground (arith, mem-remove q r l.orphans)

  pub settle_reaped_orphan-Same : Same l (settle_reaped_orphan l r) q
  unfolding settle_reaped_orphan write
  settle_reaped_orphan-Same =
      ground
        (arith, mem-put q r l.orphans, mem-remove q r l.orphans, mem-remove q r (put l.orphans r))

  pub decide_sweep-Same : (result : SweepResult) → Same l (decide_sweep l r result) q
  unfolding decide_sweep write
  decide_sweep-Same confirmed = ground (arith, mem-remove q r l.orphans)
  decide_sweep-Same unsupported = ground (arith, mem-remove q r l.orphans)
  decide_sweep-Same unconfirmed = ground (arith, mem-put q r l.orphans)

  pub set_record-Same : (v : OrphanRecord) → Same l (set_record l r v) q
  unfolding set_record write
  set_record-Same v = ground arith

  pub late_resolve-Same : (new : ℕ) → Same l (late_resolve l r new) q
  unfolding late_resolve write
  late_resolve-Same new = ground (arith, mem-put q r l.orphans)

  pub late_reject-Same : Same l (late_reject l r) q
  unfolding late_reject write
  late_reject-Same =
      ground
        (arith, mem-put q r l.orphans, mem-remove q r l.orphans, mem-remove q r (put l.orphans r))

  pub enqueue_orphan-Same : (v : OrphanRecord) → Same l (enqueue_orphan l r v) q
  unfolding enqueue_orphan write
  enqueue_orphan-Same v = ground (arith, mem-put q r l.orphans, mem-remove q r (put l.orphans r))

Same-trans : (l l' l'' : Ledger) (q : ℕ) → Same l l' q → Same l' l'' q → Same l l'' q
Same-trans l l' l'' q a b = (b.0 ∙ a.0, b.1 ∙ a.1)

module _ (l : Ledger) (r q : ℕ) (apart : q ≢ r) (v : OrphanRecord) where
  settle-write-Same : Same l (settle_reaped_orphan (set_record l r v) r) q
  settle-write-Same =
      Same-trans l (set_record l r v) (settle_reaped_orphan (set_record l r v) r) q
        (set_record-Same l r q apart v) (settle_reaped_orphan-Same (set_record l r v) r q apart)

  decide-write-Same : (result : SweepResult) → Same l (decide_sweep (set_record l r v) r result) q
  decide-write-Same result =
      Same-trans l (set_record l r v) (decide_sweep (set_record l r v) r result) q
        (set_record-Same l r q apart v) (decide_sweep-Same (set_record l r v) r q apart result)

module _ (l : Ledger) (r q : ℕ) (apart : q ≢ r) where
  pub sweep_settled-Same :
      (result : SweepResult) (stamps : List ℕ) → Same l (sweep_settled l r result stamps) q
  unfolding sweep_settled
  sweep_settled-Same result stamps =
      let v = swept (l.heap r) (stamps_after result stamps) in
      if_cases (λ k. Same l k q) (l.heap r).settle_after_sweep _ _
        (λ deferred.
          settle-write-Same l r q apart (settling (l.heap r) (stamps_after result stamps)))
        (λ plain.
          if_cases (λ k. Same l k q) (is_some (l.heap r).session) _ _
            (λ owned. set_record-Same l r q apart v)
            (λ free. decide-write-Same l r q apart v result))

  pub sweep_rejected-Same : Same l (sweep_rejected l r) q
  unfolding sweep_rejected set_record write
  sweep_rejected-Same =
      let v : OrphanRecord = record (l.heap r) { sweeping = false } in
      if_cases (λ k. Same l k q) (l.heap r).settle_after_sweep _ _
        (λ deferred. settle-write-Same l r q apart (resumed (l.heap r)))
        (λ plain.
          if_cases (λ k. Same l k q) (mem r l.watch) _ _
            (λ watched. ground (arith, mem-put q r l.orphans))
            (λ off. set_record-Same l r q apart v))

-- A settlement that finds no sweep in flight leaves the record with no session, or off the ledger.
settle_idle :
    (l : Ledger) (r sid : ℕ)
    → (l.heap r).sweeping ≡ false
    → ¬ (Holds (settle_reaped_orphan l r) r sid)
unfolding settle_reaped_orphan write
settle_idle l r sid idle h =
    ground
      (arith, mem-put r r l.orphans, mem-remove r r l.orphans, mem-remove r r (put l.orphans r))

-- After a settlement a record that still holds a session waits for the sweep in flight.
pub settle_reaped_orphan-at :
    (l : Ledger) (r sid : ℕ)
    → Holds (settle_reaped_orphan l r) r sid
    → (((settle_reaped_orphan l r).heap r).settle_after_sweep ≡ true)
      × (((settle_reaped_orphan l r).heap r).sweeping ≡ true)
unfolding settle_reaped_orphan write
settle_reaped_orphan-at l r sid h =
    ground
      (arith, mem-put r r l.orphans, mem-remove r r l.orphans, mem-remove r r (put l.orphans r))

pub sweep_orphan_owned :
    (l : Ledger) (r sid : ℕ) → (l.heap r).session ≡ some sid → sweep_orphan l r ≡ l
unfolding sweep_orphan
sweep_orphan_owned l r sid h = ground arith

pub sweep_orphan_free :
    (l : Ledger) (r : ℕ) → (l.heap r).session ≡ none → ((sweep_orphan l r).heap r).session ≡ none
unfolding sweep_orphan write
sweep_orphan_free l r h = ground arith

decide_free :
    (l : Ledger) (r : ℕ) (result : SweepResult)
    → (l.heap r).session ≡ none
    → ((decide_sweep l r result).heap r).session ≡ none
unfolding decide_sweep write
decide_free l r confirmed h = ground arith
decide_free l r unconfirmed h = ground arith
decide_free l r unsupported h = ground arith

pub write_at : (l : Ledger) (r : ℕ) (v : OrphanRecord) → (set_record l r v).heap r ≡ v
unfolding set_record write
write_at l r v = ground arith

pub written_free :
    (l : Ledger) (r : ℕ) (v : OrphanRecord)
    → v.session ≡ (l.heap r).session
    → is_some (l.heap r).session ≡ false
    → ((set_record l r v).heap r).session ≡ none
unfolding set_record write
written_free l r v e free = ground arith

none-some : (sid : ℕ) → ¬ (◌≡◌ {A = Option ℕ} none (some sid))
none-some sid h = cc

-- A record that holds a session after a verdict held it before, and was not to be settled.
pub sweep_settled-at :
    (l : Ledger) (r sid : ℕ) (result : SweepResult) (stamps : List ℕ)
    → Holds (sweep_settled l r result stamps) r sid
    → (mem r l.orphans ≡ true)
      × ((l.heap r).session ≡ some sid)
      × ((l.heap r).settle_after_sweep ≡ false)
      × (((sweep_settled l r result stamps).heap r).settle_after_sweep ≡ false)
unfolding sweep_settled
sweep_settled-at l r sid result stamps =
    let v = swept (l.heap r) (stamps_after result stamps) in
    let w = settling (l.heap r) (stamps_after result stamps) in
    let P : Ledger → Type 0 = λ k.
      Holds k r sid
      → (mem r l.orphans ≡ true)
        × ((l.heap r).session ≡ some sid)
        × ((l.heap r).settle_after_sweep ≡ false)
        × ((k.heap r).settle_after_sweep ≡ false) in
    if_cases P (l.heap r).settle_after_sweep _ _
      (λ deferred h.
        absurd (settle_idle (set_record l r w) r sid (ap (λ a. a.sweeping) (write_at l r w)) h))
      (λ plain.
        if_cases P (is_some (l.heap r).session) _ _
          (λ owned h. (
            unfold set_record in h.0,
            sym (ap (λ a. a.session) (write_at l r v)) ∙ h.1,
            plain,
            ap (λ a. a.settle_after_sweep) (write_at l r v) ∙ plain,
          ))
          (λ free h. absurd (
            none-some sid (
              sym (decide_free (set_record l r v) r result (written_free l r v refl free)) ∙ h.1))))

-- So after a rejected scan, but the record may have been on either list.
pub sweep_rejected-at :
    (l : Ledger) (r sid : ℕ)
    → Holds (sweep_rejected l r) r sid
    → ((mem r l.orphans ≡ true) ⊎ (mem r l.watch ≡ true))
      × ((l.heap r).session ≡ some sid)
      × ((l.heap r).settle_after_sweep ≡ false)
      × (((sweep_rejected l r).heap r).settle_after_sweep ≡ false)
unfolding sweep_rejected
sweep_rejected-at l r sid =
    let v : OrphanRecord = record (l.heap r) { sweeping = false } in
    let P : Ledger → Type 0 = λ k.
      Holds k r sid
      → ((mem r l.orphans ≡ true) ⊎ (mem r l.watch ≡ true))
        × ((l.heap r).session ≡ some sid)
        × ((l.heap r).settle_after_sweep ≡ false)
        × ((k.heap r).settle_after_sweep ≡ false) in
    if_cases P (l.heap r).settle_after_sweep _ _
      (λ deferred h. absurd (
        settle_idle (set_record l r (resumed (l.heap r))) r sid
          (ap (λ a. a.sweeping) (write_at l r (resumed (l.heap r)))) h))
      (λ plain.
        if_cases P (mem r l.watch) _ _
          (λ watched h. (
            inr watched,
            sym (ap (λ a. a.session) (write_at l r v)) ∙ (unfold add_orphan in h.1),
            plain,
            kept_plain plain,
          ))
          (λ off h. (
            inl (unfold set_record in h.0),
            sym (ap (λ a. a.session) (write_at l r v)) ∙ h.1,
            plain,
            ap (λ a. a.settle_after_sweep) (write_at l r v) ∙ plain,
          )))
  where
    kept_plain :
        (l.heap r).settle_after_sweep ≡ false
        → ((add_orphan
              (record (set_record l r (record (l.heap r) { sweeping = false })) {
                watch = remove l.watch r;
              })
              r).heap
            r).settle_after_sweep
          ≡ false
    kept_plain plain =
        unfold add_orphan in
        (ap (λ a. a.settle_after_sweep) (write_at l r (record (l.heap r) { sweeping = false }))
          ∙ plain)
