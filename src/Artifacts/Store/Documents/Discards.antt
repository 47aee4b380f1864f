-- ===== src/Artifacts/Store/Documents/Discards.antt =====
-- The records of the artifact store through the deletions and the close of artifacts/store.ts.
use browse_gateway.Base.{
  ℕ, Bool, true, false, ◌&&◌, ◌||◌, not, Option, none, some, List, [], ◌∷◌, leb, ◌==◌,
  if◌then◌else◌, if_cases, keep, is_some,
}
use browse_gateway.Artifacts.Store.{
  Store, StoredRecord, clear_timer, mark_unhealthy, identity_proven, strict_delete,
}
use browse_gateway.Artifacts.Store.Capture.{Pending}
use browse_gateway.Artifacts.Store.Discard.{
  Disk, Deleted, Deletion, unlink, let_go, delete_physical, release_discarded, released,
  discard_owned, DiscardResult, discard_artifact_detailed, is_being_consumed, reap, reap_expired,
}
use browse_gateway.Artifacts.Store.Close.{
  CloseDisk, Swept, Sweep, add_facts, sweep_records, release_swept, finish_sweep, tear_down,
  finish_close, requested, close,
}
use browse_gateway.Artifacts.Store.Documents.{IsOf, AllAre, HasOnly}

keep-AllAre :
    (R : StoredRecord → Type 0) (p : StoredRecord → Bool) (rs : List StoredRecord)
    → AllAre R rs
    → AllAre R (keep p rs)
keep-AllAre R p [] a = a
keep-AllAre R p (r ∷ rs) a =
    if_cases (AllAre R) (p r) _ _ (λ stays. (a.0, keep-AllAre R p rs a.1))
      (λ goes. keep-AllAre R p rs a.1)

module _ (P : Pending → Type 0) (ttl_ms : ℕ) where
  abbrev pub Only : Store → Type 0
  Only s = HasOnly P ttl_ms s

  pub mark_unhealthy-Only : (s : Store) → Only s → Only (mark_unhealthy s)
  unfolding mark_unhealthy
  mark_unhealthy-Only s k = k

  pub identity_proven-Only : (s : Store) (holds : Bool) → Only s → Only (identity_proven s holds).0
  unfolding identity_proven
  identity_proven-Only s holds k =
      if_cases {A = Store × Bool} (λ a. Only a.0) s.identity_lost _ _ (λ lost. k)
        λ own.
          if_cases {A = Store × Bool} (λ a. Only a.0) (not s.enabled || holds) _ _ (λ fine. k)
            (λ foreign. mark_unhealthy-Only (record s { identity_lost = true }) k)

  delete_physical-Only :
      (s : Store) (d : Disk) (id : ℕ) → Only s → Only (delete_physical s d id).store
  unfolding delete_physical let_go clear_timer unlink
  delete_physical-Only s d id k =
      let s1 = (identity_proven (let_go s id) (d.holds id)).0 in
      let k1 = identity_proven-Only (let_go s id) (d.holds id) k in
      if_cases {A = Deletion} (λ x. Only x.store) (identity_proven (let_go s id) (d.holds id)).1 _ _
        (λ proven.
          if_cases {A = Deletion} (λ x. Only x.store) (strict_delete s1 true (d.deletes id)) _ _
            (λ gone. k1) (λ left. mark_unhealthy-Only s1 k1))
        (λ lost. k1)

  release_discarded-Only :
      (s : Store) (id : ℕ) (f : Deleted) (close_owned : Bool)
      → Only s
      → Only (release_discarded s id f close_owned)
  unfolding release_discarded
  release_discarded-Only s id f close_owned k = (
    k.0,
    if_cases (AllAre (IsOf P ttl_ms)) f.existed _ _
        (λ there. keep-AllAre (IsOf P ttl_ms) (λ r. not (r.id == id)) s.records k.1)
        (λ absent. k.1),
  )

  pub discard_owned-Only : (s : Store) (d : Disk) (id : ℕ) → Only s → Only (discard_owned s d id).0
  unfolding discard_owned
  discard_owned-Only s d id k =
      by_facts (delete_physical s d id).facts (delete_physical s d id).store
        (delete_physical-Only s d id k)
    where
      by_facts : (f : Option Deleted) (t : Store) → Only t → Only (released f t id).0
      by_facts none t k' = k'
      by_facts (some f) t k' = release_discarded-Only t id f false k'

  pub discard_artifact_detailed-Only :
      (s : Store) (d : Disk) (id : ℕ) → Only s → Only (discard_artifact_detailed s d id).0
  unfolding discard_artifact_detailed
  discard_artifact_detailed-Only s d id k =
      if_cases Q (not s.enabled) _ _ (λ off. k)
        λ on.
          if_cases Q (s.close_requested || s.disposed) _ _ (λ closing. k)
            λ open_.
              if_cases Q s.unhealthy _ _ (λ poisoned. k)
                λ well.
                  if_cases Q (is_being_consumed id s.records) _ _ (λ consumed. k)
                    λ free. discard_owned-Only s d id k
    where
      Q : Store × DiscardResult → Type 0
      Q a = Only a.0

  reap-Only :
      (s : Store) (d : Disk) (now : ℕ) (rs : List StoredRecord) → Only s → Only (reap s d now rs)
  unfolding reap
  reap-Only s d now [] k = k
  reap-Only s d now (r ∷ rs) k =
      reap-Only (if leb r.expires_at now then (discard_artifact_detailed s d r.id).0 else s) d now
        rs
        (if_cases Only (leb r.expires_at now) _ _
          (λ expired. discard_artifact_detailed-Only s d r.id k) (λ young. k))

  pub reap_expired-Only : (s : Store) (d : Disk) (now : ℕ) → Only s → Only (reap_expired s d now)
  unfolding reap_expired
  reap_expired-Only s d now k = reap-Only s d now s.records k

  sweep_records-Only :
      (w : Sweep) (d : Disk) (rs : List StoredRecord)
      → Only w.store
      → Only (sweep_records w d rs).store
  unfolding sweep_records
  sweep_records-Only w d [] k = k
  sweep_records-Only w d (r ∷ rs) k =
      sweep_records-Only
        (add_facts r.id (delete_physical w.store d r.id).facts
          (record w { store = (delete_physical w.store d r.id).store }))
        d rs (swept (delete_physical w.store d r.id).facts)
    where
      swept :
          (f : Option Deleted)
          → Only
              (add_facts r.id f (record w { store = (delete_physical w.store d r.id).store })).store
      swept none = delete_physical-Only w.store d r.id k
      swept (some f) = delete_physical-Only w.store d r.id k

  release_swept-Only : (s : Store) (ws : List Swept) → Only s → Only (release_swept s ws)
  unfolding release_swept
  release_swept-Only s [] k = k
  release_swept-Only s (w ∷ ws) k =
      release_swept-Only (release_discarded s w.id w.facts true) ws
        (release_discarded-Only s w.id w.facts true k)

  finish_sweep-Only : (w : Sweep) (d : CloseDisk) → Only w.store → Only (finish_sweep w d)
  unfolding finish_sweep
  finish_sweep-Only w d k =
      if_cases Only
        (d.lists && w.records_clean && strict_delete w.store d.finds_names d.deletes_rest) _ _
        (λ clean.
          if_cases Only (d.fsyncs_data && d.tears_down) _ _
            (λ down. release_swept-Only w.store w.swept k) (λ up. mark_unhealthy-Only w.store k))
        (λ dirty. mark_unhealthy-Only w.store k)

  pub finish_close-Only : (s : Store) (d : CloseDisk) → Only s → Only (finish_close s d)
  unfolding finish_close tear_down
  finish_close-Only s d k =
      let s1 = record s { teardown_started = true } in
      let k1 = identity_proven-Only s1 d.holds k in
      if_cases Only
        (not s.close_requested || not (s.active_captures == 0) || s.disposed || s.teardown_started)
        _ _ (λ idle. k)
        (λ due.
          if_cases Only (identity_proven s1 d.holds).1 _ _
            (λ proven. finish_sweep-Only _ d (sweep_records-Only _ d.disk _ k1)) (λ lost. k1))

  pub close-Only : (s : Store) (d : CloseDisk) → Only s → Only (close s d)
  unfolding close
  close-Only s d k =
      if_cases Only (s.close_requested || is_some s.result) _ _ (λ again. k)
        λ first.
          if_cases Only (not s.enabled) _ _ (λ off. k)
            λ on.
              if_cases Only (s.active_captures == 0) _ _
                (λ idle. finish_close-Only (requested s) d k) (λ busy. k)
