-- ===== src/Gateway/Ledger/Heap.antt =====
-- The orphans that hold a session, under each operation of the ledger (gateway/session-manager.ts).
use browse_gateway.Base.{
  ℕ, ◌≡◌, refl, ◌≢◌, inl, inr, true, false, some, List, arith, ◌==◌, is_some, Bool-cases, ==_iff,
  if_cases, ap,
}
use browse_gateway.Base.Ids.{mem, put, remove, mem-put, mem-remove}
use browse_gateway.Gateway.Ledger.{
  OrphanRecord, Ledger, write, set_record, add_orphan, finalize_orphan, sweep_orphan,
  enqueue_orphan, settle_reaped_orphan, confirmed, unconfirmed, unsupported, SweepResult,
  stamps_after, decide_sweep, sweep_settled, sweep_rejected, late_resolve, late_reject,
}

-- A record whose sweep is over, and one whose deferred settlement is resumed.
abbrev pub swept : OrphanRecord → List ℕ → OrphanRecord
swept v stamps = record v { sweeping = false; stamps = stamps }

abbrev pub settling : OrphanRecord → List ℕ → OrphanRecord
settling v stamps = record v { sweeping = false; stamps = stamps; settle_after_sweep = false }

abbrev pub resumed : OrphanRecord → OrphanRecord
resumed v = record v { sweeping = false; settle_after_sweep = false }

-- The record is an orphan that holds the session.
abbrev pub Holds : Ledger → ℕ → ℕ → Type 0
Holds l q sid = (mem q l.orphans ≡ true) × ((l.heap q).session ≡ some sid)

-- Some counted orphan holds the session.
abbrev pub Held : Ledger → ℕ → Type 0
Held l sid = (q : ℕ) × Holds l q sid

write-same : (heap : ℕ → OrphanRecord) (r : ℕ) (v : OrphanRecord) → write heap r v r ≡ v
unfolding write
write-same heap r v = ground arith

write-other :
    (heap : ℕ → OrphanRecord) (r : ℕ) (v : OrphanRecord) (q : ℕ) → q ≢ r → write heap r v q ≡ heap q
unfolding write
write-other heap r v q h = ground arith

pub sweep_orphan-Holds : (l : Ledger) (r q sid : ℕ) → Holds l q sid → Holds (sweep_orphan l r) q sid
unfolding sweep_orphan write
sweep_orphan-Holds l r q sid h = elim (Bool-cases (q == r)) [
  | inl same ↦ let e : q ≡ r = (==_iff q r).0 same in ground (arith, mem-remove q r l.orphans)
  | inr apart ↦ ground (arith, mem-remove q r l.orphans)
]

pub finalize_orphan-Holds :
    (l : Ledger) (r q sid : ℕ) → q ≢ r → Holds l q sid → Holds (finalize_orphan l r) q sid
unfolding finalize_orphan write
finalize_orphan-Holds l r q sid d h = ground (arith, mem-remove q r l.orphans)

pub settle_reaped_orphan-Holds :
    (l : Ledger) (r q sid : ℕ) → q ≢ r → Holds l q sid → Holds (settle_reaped_orphan l r) q sid
unfolding settle_reaped_orphan write
settle_reaped_orphan-Holds l r q sid d h =
    ground
      (arith, mem-put q r l.orphans, mem-remove q r l.orphans, mem-remove q r (put l.orphans r))

pub decide_sweep-Holds :
    (l : Ledger) (r q sid : ℕ) (result : SweepResult)
    → q ≢ r
    → Holds l q sid
    → Holds (decide_sweep l r result) q sid
unfolding decide_sweep write
decide_sweep-Holds l r q sid confirmed d h = ground (arith, mem-remove q r l.orphans)
decide_sweep-Holds l r q sid unsupported d h = ground (arith, mem-remove q r l.orphans)
decide_sweep-Holds l r q sid unconfirmed d h = ground (arith, mem-put q r l.orphans)

pub set_record-Holds :
    (l : Ledger) (r q sid : ℕ) (v : OrphanRecord)
    → v.session ≡ (l.heap r).session
    → Holds l q sid
    → Holds (set_record l r v) q sid
unfolding set_record write
set_record-Holds l r q sid v s h = elim (Bool-cases (q == r)) [
  | inl same ↦ let e : q ≡ r = (==_iff q r).0 same in ground arith
  | inr apart ↦ ground arith
]

add_orphan-Holds : (l : Ledger) (r q sid : ℕ) → Holds l q sid → Holds (add_orphan l r) q sid
unfolding add_orphan
add_orphan-Holds l r q sid h = ground (arith, mem-put q r l.orphans)

pub sweep_rejected-Holds :
    (l : Ledger) (r q sid : ℕ)
    → ((l.heap r).settle_after_sweep ≡ true → q ≢ r)
    → Holds l q sid
    → Holds (sweep_rejected l r) q sid
unfolding sweep_rejected
sweep_rejected-Holds l r q sid d h =
    if_cases (λ k. Holds k q sid) (l.heap r).settle_after_sweep _ _
      (λ deferred.
        settle_reaped_orphan-Holds (set_record l r (resumed (l.heap r))) r q sid (d deferred)
          (set_record-Holds l r q sid (resumed (l.heap r)) refl h))
      (λ plain.
        let kept = set_record-Holds l r q sid (record (l.heap r) { sweeping = false }) refl h in
        if_cases (λ k. Holds k q sid) (mem r l.watch) _ _
          (λ watched.
            add_orphan-Holds
              (record (set_record l r (record (l.heap r) { sweeping = false })) {
                watch = remove l.watch r;
              })
              r q sid kept)
          (λ apart. kept))

pub sweep_settled-Holds :
    (l : Ledger) (r q sid : ℕ) (result : SweepResult) (stamps : List ℕ)
    → ((l.heap r).settle_after_sweep ≡ true → q ≢ r)
    → Holds l q sid
    → Holds (sweep_settled l r result stamps) q sid
unfolding sweep_settled
sweep_settled-Holds l r q sid result stamps d h =
    if_cases (λ k. Holds k q sid) (l.heap r).settle_after_sweep _ _
      (λ deferred.
        settle_reaped_orphan-Holds
          (set_record l r (settling (l.heap r) (stamps_after result stamps))) r q sid (d deferred)
          (set_record-Holds l r q sid (settling (l.heap r) (stamps_after result stamps)) refl h))
      (λ plain.
        let kept =
          set_record-Holds l r q sid (swept (l.heap r) (stamps_after result stamps)) refl h in
        if_cases (λ k. Holds k q sid) (is_some (l.heap r).session) _ _ (λ owned. kept)
          (λ free.
            decide_sweep-Holds (set_record l r (swept (l.heap r) (stamps_after result stamps))) r q
              sid result (λ e. unowned e free) kept))
  where
    unowned : q ≡ r → is_some (l.heap r).session ≡ false → ⊥
    unowned e free =
        let f : (l.heap q).session ≡ (l.heap r).session = ap (λ a. (l.heap a).session) e in
        ground (arith, h.1)

pub late_resolve-Holds :
    (l : Ledger) (r q sid new : ℕ) → q ≢ r → Holds l q sid → Holds (late_resolve l r new) q sid
unfolding late_resolve write
late_resolve-Holds l r q sid new d h = ground (arith, mem-put q r l.orphans)

pub late_resolve-Holds_self : (l : Ledger) (r new : ℕ) → Holds (late_resolve l r new) r new
unfolding late_resolve write
late_resolve-Holds_self l r new = ground (arith, mem-put r r l.orphans)

pub late_reject-Holds : (l : Ledger) (r q sid : ℕ) → Holds l q sid → Holds (late_reject l r) q sid
unfolding late_reject write
late_reject-Holds l r q sid h = elim (Bool-cases (q == r)) [
  | inl same ↦
      let e : q ≡ r = (==_iff q r).0 same in
      ground
        (arith, mem-put q r l.orphans, mem-remove q r l.orphans, mem-remove q r (put l.orphans r))
  | inr apart ↦
      ground
        (arith, mem-put q r l.orphans, mem-remove q r l.orphans, mem-remove q r (put l.orphans r))
]

pub enqueue_orphan-Holds :
    (l : Ledger) (r q sid : ℕ) (v : OrphanRecord)
    → q ≢ r
    → Holds l q sid
    → Holds (enqueue_orphan l r v) q sid
unfolding enqueue_orphan write
enqueue_orphan-Holds l r q sid v d h =
    ground (arith, mem-put q r l.orphans, mem-remove q r (put l.orphans r))
