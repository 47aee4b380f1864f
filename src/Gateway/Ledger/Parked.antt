-- ===== src/Gateway/Ledger/Parked.antt =====
-- The records on the watch list, under each operation of the ledger (gateway/session-manager.ts).
use browse_gateway.Base.{
  ℕ, ◌≡◌, refl, ◌⊎◌, inl, inr, true, false, none, List, arith, ◌==◌, is_some, Bool-cases, ==_iff,
  if_cases, ◌∙◌, ap, sym, or-eq-true,
}
use browse_gateway.Base.Ids.{mem, remove, mem-put, mem-remove}
use browse_gateway.Gateway.Ledger.{
  OrphanRecord, Ledger, write, set_record, add_orphan, forget, finalize_orphan, sweep_orphan,
  enqueue_orphan, settle_reaped_orphan, enforce_watch_cap, watch_launch, confirmed, unconfirmed,
  unsupported, SweepResult, stamps_after, decide_sweep, sweep_settled, sweep_rejected, late_resolve,
  late_reject,
}
use browse_gateway.Gateway.Ledger.Heap.{swept, settling, resumed}
use browse_gateway.Gateway.Ledger.Watch.{enforce_watch_cap_sub}
use browse_gateway.Gateway.Ledger.Owned.{written_free}

write-cases :
    (heap : ℕ → OrphanRecord) (r : ℕ) (v : OrphanRecord) (q : ℕ)
    → ((q ≡ r) × (write heap r v q ≡ v)) ⊎ (write heap r v q ≡ heap q)
unfolding write
write-cases heap r v q = elim (Bool-cases (q == r)) [
  | inl same ↦ inl ((==_iff q r).0 same, rw same)
  | inr apart ↦ inr (rw apart)
]

abbrev pub IsParked : Ledger → Type 0
IsParked l = (q : ℕ) → mem q l.watch ≡ true → (l.heap q).session ≡ none

module _ (l : Ledger) (r : ℕ) (p : IsParked l) where
  pub sweep_orphan-IsParked : IsParked (sweep_orphan l r)
  unfolding sweep_orphan write
  sweep_orphan-IsParked q h = elim (Bool-cases (q == r)) [
    | inl same ↦
        let e : q ≡ r = (==_iff q r).0 same in ground (arith, mem-remove q r l.watch, p q, p r)
    | inr apart ↦ ground (arith, mem-remove q r l.watch, p q)
  ]

  pub finalize_orphan-IsParked : IsParked (finalize_orphan l r)
  unfolding finalize_orphan write
  finalize_orphan-IsParked q h = ground (arith, mem-remove q r l.watch, p q)

  pub settle_reaped_orphan-IsParked : IsParked (settle_reaped_orphan l r)
  unfolding settle_reaped_orphan write
  settle_reaped_orphan-IsParked q h = elim (Bool-cases (q == r)) [
    | inl same ↦
        let e : q ≡ r = (==_iff q r).0 same in ground (arith, mem-remove q r l.watch, p q, p r)
    | inr apart ↦ ground (arith, mem-remove q r l.watch, p q)
  ]

  pub set_record-IsParked :
      (v : OrphanRecord) → v.session ≡ (l.heap r).session → IsParked (set_record l r v)
  unfolding set_record
  set_record-IsParked v e q h = elim (write-cases l.heap r v q) [
    | inl (same, w) ↦ rw w (e ∙ ap (λ a. (l.heap a).session) (sym same) ∙ p q h)
    | inr w ↦ rw w (p q h)
  ]

  set_free-IsParked :
      (v : OrphanRecord) → v.session ≡ none → IsParked (add_orphan (set_record l r v) r)
  unfolding set_record add_orphan
  set_free-IsParked v e q h = elim (write-cases l.heap r v q) [
    | inl (same, w) ↦ rw w e
    | inr w ↦ rw w (p q h)
  ]

  pub late_resolve-IsParked : (sid : ℕ) → IsParked (late_resolve l r sid)
  unfolding late_resolve write
  late_resolve-IsParked sid q h = ground (arith, mem-remove q r l.watch, p q)

  pub late_reject-IsParked : IsParked (late_reject l r)
  unfolding late_reject write
  late_reject-IsParked q h = elim (Bool-cases (q == r)) [
    | inl same ↦
        let e : q ≡ r = (==_iff q r).0 same in ground (arith, mem-remove q r l.watch, p q, p r)
    | inr apart ↦ ground (arith, mem-remove q r l.watch, p q)
  ]

  pub watch_launch-IsParked : (l.heap r).session ≡ none → IsParked (watch_launch l r)
  unfolding watch_launch
  watch_launch-IsParked free q h = elim (or-eq-true _ _ (sym (mem-put q r _) ∙ h)) [
    | inl old ↦ p q (enforce_watch_cap_sub l 1 q old)
    | inr new ↦ ap (λ a. (l.heap a).session) ((==_iff q r).0 new) ∙ free
  ]

  pub enforce_watch_cap-IsParked : (reserve : ℕ) → IsParked (enforce_watch_cap l reserve)
  unfolding enforce_watch_cap
  enforce_watch_cap-IsParked reserve q h = p q (enforce_watch_cap_sub l reserve q h)

pub enqueue_orphan-IsParked :
    (l : Ledger) (r : ℕ) (v : OrphanRecord)
    → IsParked l
    → v.session ≡ none
    → IsParked (enqueue_orphan l r v)
unfolding enqueue_orphan
enqueue_orphan-IsParked l r v p e =
    sweep_orphan-IsParked (add_orphan (set_record l r v) r) r (set_free-IsParked l r p v e)

-- Neither list of the ledger matters to what a smaller watch list parks.
IsParked-of :
    (l l' : Ledger)
    → IsParked l
    → ((q : ℕ) → mem q l'.watch ≡ true → mem q l.watch ≡ true)
    → ((q : ℕ) → l'.heap q ≡ l.heap q)
    → IsParked l'
IsParked-of l l' p sub same q h = ap (λ a. a.session) (same q) ∙ p q (sub q h)

decide_sweep-IsParked :
    (l : Ledger) (r : ℕ) (result : SweepResult)
    → IsParked l
    → (l.heap r).session ≡ none
    → IsParked (decide_sweep l r result)
unfolding decide_sweep
decide_sweep-IsParked l r confirmed p free =
    if_cases IsParked (l.heap r).settled _ _ (λ done. finalize_orphan-IsParked l r p)
      (λ pending.
        if_cases IsParked (mem r l.orphans) _ _
          (λ counted. watch_launch-IsParked (record l { orphans = remove l.orphans r }) r p free)
          (λ off. p))
decide_sweep-IsParked l r unsupported p free =
    IsParked-of l (forget l r) p (λ q h. unfold forget in (ground (arith, mem-remove q r l.watch)))
      (λ q. unfold forget in refl)
decide_sweep-IsParked l r unconfirmed p free =
    IsParked-of l (add_orphan (record l { watch = remove l.watch r }) r) p
      (λ q h. unfold add_orphan in (ground (arith, mem-remove q r l.watch)))
      (λ q. unfold add_orphan in refl)

pub sweep_settled-IsParked :
    (l : Ledger) (r : ℕ) (result : SweepResult) (stamps : List ℕ)
    → IsParked l
    → IsParked (sweep_settled l r result stamps)
unfolding sweep_settled
sweep_settled-IsParked l r result stamps p =
    let v = swept (l.heap r) (stamps_after result stamps) in
    let w = settling (l.heap r) (stamps_after result stamps) in
    if_cases IsParked (l.heap r).settle_after_sweep _ _
      (λ deferred.
        settle_reaped_orphan-IsParked (set_record l r w) r (set_record-IsParked l r p w refl))
      (λ plain.
        if_cases IsParked (is_some (l.heap r).session) _ _
          (λ owned. set_record-IsParked l r p v refl)
          (λ free.
            decide_sweep-IsParked (set_record l r v) r result (set_record-IsParked l r p v refl)
              (written_free l r v refl free)))

pub sweep_rejected-IsParked : (l : Ledger) (r : ℕ) → IsParked l → IsParked (sweep_rejected l r)
unfolding sweep_rejected
sweep_rejected-IsParked l r p =
    let v : OrphanRecord = record (l.heap r) { sweeping = false } in
    let kept = set_record-IsParked l r p v refl in
    if_cases IsParked (l.heap r).settle_after_sweep _ _
      (λ deferred.
        settle_reaped_orphan-IsParked (set_record l r (resumed (l.heap r))) r
          (set_record-IsParked l r p (resumed (l.heap r)) refl))
      (λ plain.
        if_cases IsParked (mem r l.watch) _ _
          (λ watched.
            IsParked-of (set_record l r v)
              (add_orphan (record (set_record l r v) { watch = remove l.watch r }) r) kept
              (λ q h. unfold add_orphan set_record in (ground (arith, mem-remove q r l.watch)))
              (λ q. unfold add_orphan in refl))
          (λ off. kept))
