-- ===== src/Artifacts/Store/Permits/Close.antt =====
-- The response permit through the close of artifacts/store.ts.
use browse_gateway.Base.{
  ℕ, ◌≡◌, refl, sym, subst, Bool, true, ◌&&◌, ◌||◌, not, Option, none, some, List, [], ◌∷◌, arith,
  ◌==◌, if_cases, is_some,
}
use browse_gateway.Artifacts.Permit.Phases.{IsLive}
use browse_gateway.Artifacts.Permit.Moves.{settle_responses-IsShut}
use browse_gateway.Artifacts.Store.{
  Store, StoredRecord, mark_unhealthy, identity_proven, strict_delete,
}
use browse_gateway.Artifacts.Store.Discard.{Disk, Deleted, delete_physical, release_discarded}
use browse_gateway.Artifacts.Store.Close.{
  CloseDisk, Swept, Sweep, add_facts, sweep_records, release_swept, finish_sweep, tear_down,
  finish_close, requested, close,
}
use browse_gateway.Artifacts.Store.Permits.{IsKept}
use browse_gateway.Artifacts.Store.Permits.Discards.{
  IsKept-IsTracked, mark_unhealthy-IsKept, identity_proven-IsKept, delete_physical-IsKept,
  release_discarded-IsKept,
}
use browse_gateway.Artifacts.Store.Permits.Leases.{IsLive-IsStable}

abbrev pub Kept : Store → Type 0
Kept s = IsKept IsLive s

pub poisoned-Kept : (s : Store) → Kept s → Kept (mark_unhealthy s)
poisoned-Kept s k = mark_unhealthy-IsKept IsLive-IsStable s (IsKept-IsTracked IsLive-IsStable s k)

pub proven-Kept : (s : Store) (holds : Bool) → Kept s → Kept (identity_proven s holds).0
proven-Kept s holds k = identity_proven-IsKept IsLive-IsStable s holds k

sweep_records-Kept :
    (w : Sweep) (d : Disk) (rs : List StoredRecord)
    → Kept w.store
    → Kept (sweep_records w d rs).store
unfolding sweep_records
sweep_records-Kept w d [] k = k
sweep_records-Kept w d (r ∷ rs) k =
    let x = delete_physical w.store d r.id in
    sweep_records-Kept (add_facts r.id x.facts (record w { store = x.store })) d rs (
      subst Kept (sym (same_store r.id x.facts (record w { store = x.store })))
        (delete_physical-IsKept IsLive-IsStable w.store d r.id k))
  where
    same_store : (id : ℕ) (o : Option Deleted) (v : Sweep) → (add_facts id o v).store ≡ v.store
    same_store id none v = refl
    same_store id (some f) v = refl

release_swept-Kept : (s : Store) (ws : List Swept) → Kept s → Kept (release_swept s ws)
unfolding release_swept
release_swept-Kept s [] k = k
release_swept-Kept s (w ∷ ws) k =
    release_swept-Kept (release_discarded s w.id w.facts true) ws
      (release_discarded-IsKept IsLive-IsStable s w.id w.facts true k)

finish_sweep-Kept : (w : Sweep) (d : CloseDisk) → Kept w.store → Kept (finish_sweep w d)
unfolding finish_sweep
finish_sweep-Kept w d k =
    if_cases Kept (d.lists && w.records_clean && strict_delete w.store d.finds_names d.deletes_rest)
      _ _
      (λ gone.
        if_cases Kept (d.fsyncs_data && d.tears_down) _ _
          (λ down. release_swept-Kept w.store w.swept k) (λ stuck. poisoned-Kept w.store k))
      (λ left. poisoned-Kept w.store k)

tear_down-Kept : (s : Store) (d : CloseDisk) → Kept s → Kept (tear_down s d)
unfolding tear_down
tear_down-Kept s d k =
    let s1 = record s { teardown_started = true } in
    let k2 = proven-Kept s1 d.holds k in
    let s2 = (identity_proven s1 d.holds).0 in
    if_cases Kept (identity_proven s1 d.holds).1 _ _
      (λ proven. finish_sweep-Kept _ d (
        sweep_records-Kept (record { store = s2; swept = []; records_clean = true }) d.disk
          s2.records k2))
      (λ lost. k2)

pub finish_close-Kept : (s : Store) (d : CloseDisk) → Kept s → Kept (finish_close s d)
unfolding finish_close
finish_close-Kept s d k =
    if_cases Kept
      (not s.close_requested || not (s.active_captures == 0) || s.disposed || s.teardown_started) _
      _ (λ held. k) (λ go. tear_down-Kept s d k)

requested-Kept : (s : Store) → Kept s → Kept (requested s)
requested-Kept s k = (
  λ live. absurd (cc live),
  λ closing. settle_responses-IsShut s.unhealthy s.permit (IsKept-IsTracked IsLive-IsStable s k),
)

pub close-Kept : (s : Store) (d : CloseDisk) → s.enabled ≡ true → Kept s → Kept (close s d)
unfolding close
close-Kept s d on k =
    if_cases Kept (s.close_requested || is_some s.result) _ _ (λ again. k)
      λ first.
        if_cases Kept (not s.enabled) _ _ (λ off. absurd (ground (arith, on)))
          λ enabled.
            if_cases Kept (s.active_captures == 0) _ _
              (λ quiet. finish_close-Kept (requested s) d (requested-Kept s k))
              (λ busy. requested-Kept s k)
