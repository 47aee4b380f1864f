-- ===== src/Artifacts/Store/Documents/Leases.antt =====
-- The records of the artifact store through the leases of artifacts/store.ts.
use browse_gateway.Base.{
  ℕ, Bool, ◌||◌, not, Option, none, some, List, [], ◌∷◌, ◌++◌, ◌==◌, if_cases, keep, find?, is_some,
}
use browse_gateway.Base.Ids.{mem}
use browse_gateway.Base.Totals.{replace}
use browse_gateway.Artifacts.Permit.{hold, wake, with_done, lease_of, detach_response_settle}
use browse_gateway.Artifacts.Store.{
  Store, StoredRecord, shut, is_record, record_of, clear_timer, identity_proven,
}
use browse_gateway.Artifacts.Store.Capture.{Pending}
use browse_gateway.Artifacts.Store.Discard.{Disk, discard_owned}
use browse_gateway.Artifacts.Store.Responses.{
  Reading, unreadable, too_late, in_time, LeaseStep, with_permit, leasable, discard_or_poison,
  end_response, consumed, open_response, open_record, admit_lease, acquire, resume, complete_lease,
  on_lease, complete, expire_lease, time_out, claim_timeout, is_timer_of,
}
use browse_gateway.Artifacts.Store.Documents.{IsOf, AllAre, HasOnly}
use browse_gateway.Artifacts.Store.Documents.Discards.{
  mark_unhealthy-Only, identity_proven-Only, discard_owned-Only, reap_expired-Only,
}

module _ (P : Pending → Type 0) (ttl_ms : ℕ) where
  abbrev Kept : Store → Type 0
  Kept s = HasOnly P ttl_ms s

  consumed-IsOf : (r : StoredRecord) → IsOf P ttl_ms r → IsOf P ttl_ms (consumed r)
  consumed-IsOf r o = record {
    capture = o.capture;
    satisfies = o.satisfies;
    id = o.id;
    consumer = o.consumer;
    bytes = o.bytes;
    digest = o.digest;
    lives = o.lives;
  }

  consumed-AllAre :
      (id : ℕ) (rs : List StoredRecord)
      → AllAre (IsOf P ttl_ms) rs
      → AllAre (IsOf P ttl_ms) (replace (is_record id) consumed rs)
  unfolding replace
  consumed-AllAre id [] a = a
  consumed-AllAre id (r ∷ rs) a =
      if_cases (AllAre (IsOf P ttl_ms)) (is_record id r) _ _ (λ its. (consumed-IsOf r a.0, a.1))
        (λ other. (a.0, consumed-AllAre id rs a.1))

  abbrev OnlyStep : LeaseStep → Type 0
  OnlyStep x = Kept x.store

  discard_or_poison-Only :
      (s : Store) (d : Disk) (id : ℕ) → Kept s → Kept (discard_or_poison s d id)
  unfolding discard_or_poison
  discard_or_poison-Only s d id k =
      if_cases Kept (discard_owned s d id).1 _ _ (λ clean. discard_owned-Only P ttl_ms s d id k)
        (λ dirty.
          mark_unhealthy-Only P ttl_ms (discard_owned s d id).0
            (discard_owned-Only P ttl_ms s d id k))

  end_response-Only : (s : Store) (d : Disk) (t id : ℕ) → Kept s → Kept (end_response s d t id)
  unfolding end_response clear_timer
  end_response-Only s d t id k =
      let s1 = clear_timer (with_permit s (with_done t s.permit)) id in
      discard_or_poison-Only (with_permit s1 (detach_response_settle id s1.permit)) d id k

  open_response-Only :
      (s : Store) (d : Disk) (id : ℕ) (r : StoredRecord) (reading : Reading)
      → Kept s
      → OnlyStep (open_response s d id r reading)
  unfolding open_response
  open_response-Only s d id r reading k =
      elim reading as (λ z. OnlyStep (open_response s d id r z)) [
        | unreadable ↦ end_response-Only s' d s.permit.next id k'
        | too_late ↦ end_response-Only s' d s.permit.next id k'
        | in_time ↦ k'
      ]
    where
      s' : Store
      s' = record s {
        permit = hold id s.permit;
        records = replace (is_record id) consumed s.records;
        timers =
            keep (λ l. not (l.id == id)) s.timers ++ record { token = s.permit.next; id = id } ∷ [];
      }

      k' : Kept s'
      k' = (k.0, consumed-AllAre id s.records k.1)

  admit_lease-Only :
      (s : Store) (d : Disk) (id : ℕ) (holds : Bool) (reading : Reading)
      → Kept s
      → OnlyStep (admit_lease s d id holds reading)
  unfolding admit_lease
  admit_lease-Only s d id holds reading k =
      let s' = (identity_proven s holds).0 in
      let k' = identity_proven-Only P ttl_ms s holds k in
      if_cases OnlyStep (identity_proven s holds).1 _ _
        (λ proven. opened (record_of id s.records) s' k')
        (λ lost. if_cases Kept s'.permit.busy _ _ (λ busy. k') (λ free. k'))
    where
      opened :
          (o : Option StoredRecord) (s' : Store)
          → Kept s'
          → OnlyStep (open_record s' d id o reading)
      opened none s' k' = k'
      opened (some r) s' k' = open_response-Only s' d id r reading k'

  leasable-Only : (s : Store) (d : Disk) (now id c : ℕ) → Kept s → Kept (leasable s d now id c).0
  unfolding leasable
  leasable-Only s d now id c k = reap_expired-Only P ttl_ms s d now k

  pub acquire-Only :
      (s : Store) (d : Disk) (now v id c : ℕ) (holds : Bool) (reading : Reading)
      → Kept s
      → OnlyStep (acquire s d now v id c holds reading)
  unfolding acquire
  acquire-Only s d now v id c holds reading k =
      let s' = (leasable s d now id c).0 in
      let k' = leasable-Only s d now id c k in
      if_cases OnlyStep (not (leasable s d now id c).1) _ _ (λ refused. k')
        λ may.
          if_cases OnlyStep s'.permit.busy _ _ (λ busy. k')
            (λ free. admit_lease-Only _ d id holds reading k')

  pub resume-Only :
      (s : Store) (d : Disk) (now v id c : ℕ) (holds : Bool) (reading : Reading)
      → Kept s
      → OnlyStep (resume s d now v id c holds reading)
  unfolding resume
  resume-Only s d now v id c holds reading k =
      let k' = leasable-Only (with_permit s (wake v s.permit)) d now id c k in
      if_cases OnlyStep (leasable (with_permit s (wake v s.permit)) d now id c).1 _ _
        (λ may. admit_lease-Only _ d id holds reading k') (λ refused. k')

  on_lease-Only :
      (o : Option ℕ) (s : Store) (f : ℕ → Store)
      → Kept s
      → ((id : ℕ) → Kept (f id))
      → Kept (on_lease o s f)
  on_lease-Only none s f k g = k
  on_lease-Only (some id) s f k g = g id

  complete_lease-Only : (s : Store) (d : Disk) (t id : ℕ) → Kept s → Kept (complete_lease s d t id)
  unfolding complete_lease clear_timer
  complete_lease-Only s d t id k =
      if_cases Kept (mem t s.permit.done) _ _ (λ done. k)
        λ live. if_cases Kept (shut s) _ _ (λ closing. k) (λ open_. end_response-Only s d t id k)

  pub complete-Only : (s : Store) (d : Disk) (t : ℕ) → Kept s → Kept (complete s d t)
  unfolding complete
  complete-Only s d t k =
      on_lease-Only (lease_of t s.permit.leases) s _ k (λ id. complete_lease-Only s d t id k)

  expire_lease-Only : (s : Store) (d : Disk) (t id : ℕ) → Kept s → Kept (expire_lease s d t id)
  unfolding expire_lease clear_timer
  expire_lease-Only s d t id k =
      if_cases Kept (mem t s.permit.done || shut s) _ _ (λ over. k)
        (λ live. end_response-Only (clear_timer s id) d t id k)

  pub time_out-Only : (s : Store) (d : Disk) (t : ℕ) → Kept s → Kept (time_out s d t)
  unfolding time_out
  time_out-Only s d t k =
      if_cases Kept (is_some (find? (is_timer_of t) s.timers)) _ _
        (λ set.
          on_lease-Only (lease_of t s.permit.leases) s _ k (λ id. expire_lease-Only s d t id k))
        (λ cleared. k)

  pub claim_timeout-Only : (s : Store) (t : ℕ) → Kept s → Kept (claim_timeout s t)
  unfolding claim_timeout clear_timer
  claim_timeout-Only s t k =
      if_cases Kept (mem t s.claimed) _ _ (λ again. k)
        (λ first. on_lease-Only (lease_of t s.permit.leases) s _ k (λ id. k))
