-- ===== src/Artifacts/Store/Books/Close.antt =====
-- The close of artifacts/store.ts leaves a store that is broken so.
use browse_gateway.Base.{
  ◌≡◌, true, ◌&&◌, ◌||◌, not, List, [], ◌∷◌, ◌==◌, if_cases, Option, none, some, arith,
}
use browse_gateway.Artifacts.Store.{Store, StoredRecord, identity_proven, strict_delete}
use browse_gateway.Artifacts.Store.Discard.{Disk, Deleted, delete_physical, release_discarded}
use browse_gateway.Artifacts.Store.Close.{
  CloseDisk, Swept, Sweep, add_facts, sweep_records, release_swept, finish_sweep, tear_down,
  finish_close, requested,
}
use browse_gateway.Artifacts.Store.Books.{is_broken}
use browse_gateway.Artifacts.Store.Books.Discards.{
  mark_unhealthy-breaks, identity_proven-KeepsBooks, delete_physical-Unlinked,
}

abbrev IsBroken : Store → Type 0
IsBroken s = is_broken s ≡ true

sweep_records-IsBroken :
    (w : Sweep) (d : Disk) (rs : List StoredRecord)
    → IsBroken w.store
    → IsBroken (sweep_records w d rs).store
unfolding sweep_records
sweep_records-IsBroken w d [] k = k
sweep_records-IsBroken w d (r ∷ rs) k =
    sweep_records-IsBroken
      (add_facts r.id (delete_physical w.store d r.id).facts
        (record w { store = (delete_physical w.store d r.id).store }))
      d rs (swept (delete_physical w.store d r.id).facts)
  where
    swept :
        (f : Option Deleted)
        → IsBroken
            (add_facts r.id f (record w { store = (delete_physical w.store d r.id).store })).store
    swept none = (delete_physical-Unlinked w.store d r.id).keeps.breaks k
    swept (some f) = (delete_physical-Unlinked w.store d r.id).keeps.breaks k

release_swept-IsBroken : (s : Store) (ws : List Swept) → IsBroken s → IsBroken (release_swept s ws)
unfolding release_swept release_discarded
release_swept-IsBroken s [] k = k
release_swept-IsBroken s (w ∷ ws) k =
    release_swept-IsBroken (release_discarded s w.id w.facts true) ws k

finish_sweep-IsBroken : (w : Sweep) (d : CloseDisk) → IsBroken w.store → IsBroken (finish_sweep w d)
unfolding finish_sweep
finish_sweep-IsBroken w d k =
    if_cases IsBroken
      (d.lists && w.records_clean && strict_delete w.store d.finds_names d.deletes_rest) _ _
      (λ clean.
        if_cases IsBroken (d.fsyncs_data && d.tears_down) _ _
          (λ down. release_swept-IsBroken w.store w.swept k) (λ up. mark_unhealthy-breaks w.store))
      (λ dirty. mark_unhealthy-breaks w.store)

tear_down-IsBroken : (s : Store) (d : CloseDisk) → IsBroken s → IsBroken (tear_down s d)
unfolding tear_down
tear_down-IsBroken s d k =
    let s1 = record s { teardown_started = true } in
    let k' = (identity_proven-KeepsBooks s1 d.holds).breaks k in
    if_cases IsBroken (identity_proven s1 d.holds).1 _ _
      (λ proven. finish_sweep-IsBroken _ d (sweep_records-IsBroken _ d.disk _ k')) (λ lost. k')

pub finish_close-breaks :
    (s : Store) (d : CloseDisk) → is_broken s ≡ true → is_broken (finish_close s d) ≡ true
unfolding finish_close
finish_close-breaks s d k =
    if_cases IsBroken
      (not s.close_requested || not (s.active_captures == 0) || s.disposed || s.teardown_started) _
      _ (λ idle. k) (λ due. tear_down-IsBroken s d k)

-- A close that is requested breaks the store.
pub requested-breaks : (s : Store) (d : CloseDisk) → is_broken (finish_close (requested s) d) ≡ true
requested-breaks s d = finish_close-breaks (requested s) d (ground arith)
