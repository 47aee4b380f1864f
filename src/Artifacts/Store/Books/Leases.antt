-- ===== src/Artifacts/Store/Books/Leases.antt =====
-- The books of the artifact store through the leases of artifacts/store.ts.
use browse_gateway.Base.{
  ℕ, ◌≡◌, inl, inr, refl, Bool, false, ◌||◌, not, Option, none, some, List, [], ◌∷◌, ◌++◌, arith,
  ◌==◌, if_cases, keep, find?, is_some,
}
use browse_gateway.Base.Ids.{mem}
use browse_gateway.Base.Totals.{replace}
use browse_gateway.Artifacts.Capacity.{Reservation, reservation_of}
use browse_gateway.Artifacts.Permit.{hold, wake, with_done, lease_of, detach_response_settle}
use browse_gateway.Artifacts.Store.{
  Store, StoredRecord, shut, is_record, record_of, clear_timer, identity_proven,
}
use browse_gateway.Artifacts.Store.Capture.{Pending}
use browse_gateway.Artifacts.Store.Discard.{Disk, discard_owned}
use browse_gateway.Artifacts.Store.Responses.{
  Reading, unreadable, too_late, in_time, LeaseStep, with_permit, leasable, discard_or_poison,
  end_response, consumed, open_response, open_record, admit_lease, acquire, resume, complete_lease,
  on_lease, complete, expire_lease, time_out, claim_timeout, is_timer_of,
}
use browse_gateway.Artifacts.Store.Books.{IsAt, AreBooked, change-BooksOf}
use browse_gateway.Artifacts.Store.Books.Discards.{
  kept-AreBooked, mark_unhealthy-breaks, identity_proven-KeepsBooks, discard_owned-AreBooked,
  reap_expired-AreBooked,
}

consumed-other :
    (id j : ℕ) (rs : List StoredRecord)
    → (id == j) ≡ false
    → record_of j (replace (is_record id) consumed rs) ≡ record_of j rs
unfolding replace
consumed-other id j [] e = refl
consumed-other id j (r ∷ rs) e = ground (arith, consumed-other id j rs)

consumed-none :
    (id : ℕ) (rs : List StoredRecord)
    → record_of id rs ≡ none
    → record_of id (replace (is_record id) consumed rs) ≡ none
unfolding replace
consumed-none id [] h = refl
consumed-none id (r ∷ rs) h = ground (arith, consumed-none id rs)

consumed-some :
    (id : ℕ) (rs : List StoredRecord) (r : StoredRecord)
    → record_of id rs ≡ some r
    → record_of id (replace (is_record id) consumed rs) ≡ some (consumed r)
unfolding replace
consumed-some id [] r h = ground arith
consumed-some id (x ∷ rs) r h = ground (arith, consumed-some id rs r)

-- The artifact that a lease consumes keeps its place in the books.
module _ (s : Store) (id : ℕ) (w : ℕ → Option Pending) where
  still_there :
      (kept : Option Reservation) (inflight : Bool) (waiting : Option Pending)
      → IsAt id (record_of id s.records) kept inflight waiting
      → IsAt id (record_of id (replace (is_record id) consumed s.records)) kept inflight waiting
  still_there kept inflight waiting (inl a) = inl (record {
    no_record = consumed-none id s.records a.no_record;
    no_reservation = a.no_reservation;
    not_inflight = a.not_inflight;
    not_waiting = a.not_waiting;
  })
  still_there kept inflight waiting (inr (inl a)) = inr (
      inl (record {
        document = consumed a.document;
        reservation = a.reservation;
        is_record = consumed-some id s.records a.document a.is_record;
        is_reservation = a.is_reservation;
        committed = a.committed;
        bytes = a.bytes;
        consumer = a.consumer;
        not_inflight = a.not_inflight;
        not_waiting = a.not_waiting;
      }))
  still_there kept inflight waiting (inr (inr a)) = inr (
      inr (record {
        capture = a.capture;
        reservation = a.reservation;
        no_record = consumed-none id s.records a.no_record;
        is_reservation = a.is_reservation;
        staging = a.staging;
        handle = a.handle;
        bytes = a.bytes;
        consumer = a.consumer;
        its_id = a.its_id;
        is_inflight = a.is_inflight;
        is_waiting = a.is_waiting;
      }))

  consumed-AreBooked :
      AreBooked s w → AreBooked (record s { records = replace (is_record id) consumed s.records }) w
  consumed-AreBooked (inl broken) = inl broken
  consumed-AreBooked (inr b) = inr (
      change-BooksOf id b b.is_map
        (λ j e. record {
          documents = consumed-other id j s.records e;
          capacity = refl;
          flights = refl;
          waits = refl;
        })
        (still_there (reservation_of id s.capacity.reservations) (mem id s.inflight) (w id)
          (b.at_id id)))

abbrev BookedStep : (ℕ → Option Pending) → LeaseStep → Type 0
BookedStep w x = AreBooked x.store w

discard_or_poison-AreBooked :
    (s : Store) (d : Disk) (id : ℕ) (w : ℕ → Option Pending)
    → AreBooked s w
    → AreBooked (discard_or_poison s d id) w
unfolding discard_or_poison
discard_or_poison-AreBooked s d id w k =
    if_cases (λ t. AreBooked t w) (discard_owned s d id).1 _ _
      (λ clean. discard_owned-AreBooked s d id w k)
      (λ dirty. inl (mark_unhealthy-breaks (discard_owned s d id).0))

end_response-AreBooked :
    (s : Store) (d : Disk) (t id : ℕ) (w : ℕ → Option Pending)
    → AreBooked s w
    → AreBooked (end_response s d t id) w
unfolding end_response clear_timer
end_response-AreBooked s d t id w k =
    let s1 = clear_timer (with_permit s (with_done t s.permit)) id in
    discard_or_poison-AreBooked (with_permit s1 (detach_response_settle id s1.permit)) d id w k

open_response-AreBooked :
    (s : Store) (d : Disk) (id : ℕ) (r : StoredRecord) (reading : Reading) (w : ℕ → Option Pending)
    → AreBooked s w
    → BookedStep w (open_response s d id r reading)
unfolding open_response
open_response-AreBooked s d id r reading w k =
    elim reading as (λ z. BookedStep w (open_response s d id r z)) [
      | unreadable ↦ end_response-AreBooked s' d s.permit.next id w k'
      | too_late ↦ end_response-AreBooked s' d s.permit.next id w k'
      | in_time ↦ k'
    ]
  where
    s' : Store
    s' = record s {
      permit = hold id s.permit;
      records = replace (is_record id) consumed s.records;
      timers =
          keep (λ l. not (l.id == id)) s.timers ++ record { token = s.permit.next; id = id } ∷ [];
    }

    k' : AreBooked s' w
    k' = consumed-AreBooked s id w k

admit_lease-AreBooked :
    (s : Store) (d : Disk) (id : ℕ) (holds : Bool) (reading : Reading) (w : ℕ → Option Pending)
    → AreBooked s w
    → BookedStep w (admit_lease s d id holds reading)
unfolding admit_lease
admit_lease-AreBooked s d id holds reading w k =
    let s' = (identity_proven s holds).0 in
    let k' = kept-AreBooked w (identity_proven-KeepsBooks s holds) k in
    if_cases (BookedStep w) (identity_proven s holds).1 _ _
      (λ proven. opened (record_of id s.records) s' k')
      (λ lost. if_cases (λ t. AreBooked t w) s'.permit.busy _ _ (λ busy. k') (λ free. k'))
  where
    opened :
        (o : Option StoredRecord) (s' : Store)
        → AreBooked s' w
        → BookedStep w (open_record s' d id o reading)
    opened none s' k' = k'
    opened (some r) s' k' = open_response-AreBooked s' d id r reading w k'

leasable-AreBooked :
    (s : Store) (d : Disk) (now id c : ℕ) (w : ℕ → Option Pending)
    → AreBooked s w
    → AreBooked (leasable s d now id c).0 w
unfolding leasable
leasable-AreBooked s d now id c w k = reap_expired-AreBooked s d now w k

pub acquire-AreBooked :
    (s : Store) (d : Disk) (now v id c : ℕ) (holds : Bool) (reading : Reading)
    (w : ℕ → Option Pending)
    → AreBooked s w
    → BookedStep w (acquire s d now v id c holds reading)
unfolding acquire
acquire-AreBooked s d now v id c holds reading w k =
    let s' = (leasable s d now id c).0 in
    let k' = leasable-AreBooked s d now id c w k in
    if_cases (BookedStep w) (not (leasable s d now id c).1) _ _ (λ refused. k')
      λ may.
        if_cases (BookedStep w) s'.permit.busy _ _ (λ busy. k')
          (λ free. admit_lease-AreBooked _ d id holds reading w k')

pub resume-AreBooked :
    (s : Store) (d : Disk) (now v id c : ℕ) (holds : Bool) (reading : Reading)
    (w : ℕ → Option Pending)
    → AreBooked s w
    → BookedStep w (resume s d now v id c holds reading)
unfolding resume
resume-AreBooked s d now v id c holds reading w k =
    let k' = leasable-AreBooked (with_permit s (wake v s.permit)) d now id c w k in
    if_cases (BookedStep w) (leasable (with_permit s (wake v s.permit)) d now id c).1 _ _
      (λ may. admit_lease-AreBooked _ d id holds reading w k') (λ refused. k')

on_lease-AreBooked :
    (o : Option ℕ) (s : Store) (f : ℕ → Store) (w : ℕ → Option Pending)
    → AreBooked s w
    → ((id : ℕ) → AreBooked (f id) w)
    → AreBooked (on_lease o s f) w
on_lease-AreBooked none s f w k g = k
on_lease-AreBooked (some id) s f w k g = g id

complete_lease-AreBooked :
    (s : Store) (d : Disk) (t id : ℕ) (w : ℕ → Option Pending)
    → AreBooked s w
    → AreBooked (complete_lease s d t id) w
unfolding complete_lease clear_timer
complete_lease-AreBooked s d t id w k =
    if_cases (λ u. AreBooked u w) (mem t s.permit.done) _ _ (λ done. k)
      λ live.
        if_cases (λ u. AreBooked u w) (shut s) _ _ (λ closing. k)
          (λ open_. end_response-AreBooked s d t id w k)

pub complete-AreBooked :
    (s : Store) (d : Disk) (t : ℕ) (w : ℕ → Option Pending)
    → AreBooked s w
    → AreBooked (complete s d t) w
unfolding complete
complete-AreBooked s d t w k =
    on_lease-AreBooked (lease_of t s.permit.leases) s _ w k
      (λ id. complete_lease-AreBooked s d t id w k)

expire_lease-AreBooked :
    (s : Store) (d : Disk) (t id : ℕ) (w : ℕ → Option Pending)
    → AreBooked s w
    → AreBooked (expire_lease s d t id) w
unfolding expire_lease clear_timer
expire_lease-AreBooked s d t id w k =
    if_cases (λ u. AreBooked u w) (mem t s.permit.done || shut s) _ _ (λ over. k)
      (λ live. end_response-AreBooked (clear_timer s id) d t id w k)

pub time_out-AreBooked :
    (s : Store) (d : Disk) (t : ℕ) (w : ℕ → Option Pending)
    → AreBooked s w
    → AreBooked (time_out s d t) w
unfolding time_out
time_out-AreBooked s d t w k =
    if_cases (λ u. AreBooked u w) (is_some (find? (is_timer_of t) s.timers)) _ _
      (λ set.
        on_lease-AreBooked (lease_of t s.permit.leases) s _ w k
          (λ id. expire_lease-AreBooked s d t id w k))
      (λ cleared. k)

pub claim_timeout-AreBooked :
    (s : Store) (t : ℕ) (w : ℕ → Option Pending) → AreBooked s w → AreBooked (claim_timeout s t) w
unfolding claim_timeout clear_timer
claim_timeout-AreBooked s t w k =
    if_cases (λ u. AreBooked u w) (mem t s.claimed) _ _ (λ again. k)
      (λ first. on_lease-AreBooked (lease_of t s.permit.leases) s _ w k (λ id. k))
