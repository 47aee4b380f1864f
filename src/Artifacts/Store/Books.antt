-- ===== src/Artifacts/Store/Books.antt =====
-- The records, the reservations and the captures of artifacts/store.ts, identifier by identifier.
pub mod Discards
pub mod Close
pub mod Leases
pub mod Open
pub mod Captures
pub mod Runs
use browse_gateway.Base.{
  ℕ, ◌≡◌, ◌⊎◌, inl, inr, refl, sym, subst, Bool, true, false, ◌||◌, Option, none, some, List, arith,
  ◌==◌, ==_iff, if◌then◌else◌, Bool-cases,
}
use browse_gateway.Base.Ids.{mem}
use browse_gateway.Artifacts.Capacity.{Reservation, reservation_of}
use browse_gateway.Artifacts.Capacity.Found.{IsMap}
use browse_gateway.Artifacts.Store.{Store, StoredRecord, shut, record_of}
use browse_gateway.Artifacts.Store.Capture.{Pending}

-- Nothing is known of the identifier.
pub record IsAbsent (doc : Option StoredRecord) (kept : Option Reservation) (inflight : Bool)
    (waiting : Option Pending) : Type 0 where
  pub no_record : doc ≡ none
  pub no_reservation : kept ≡ none
  pub not_inflight : inflight ≡ false
  pub not_waiting : waiting ≡ none

-- The artifact has a record, and the reservation of just its bytes for its consumer.
pub record IsRecorded (doc : Option StoredRecord) (kept : Option Reservation) (inflight : Bool)
    (waiting : Option Pending) : Type 0 where
  pub document : StoredRecord
  pub reservation : Reservation
  pub is_record : doc ≡ some document
  pub is_reservation : kept ≡ some reservation
  pub committed : reservation.staging ≡ false
  pub bytes : reservation.bytes ≡ document.bytes
  pub consumer : reservation.consumer_id ≡ document.consumer_id
  pub not_inflight : inflight ≡ false
  pub not_waiting : waiting ≡ none

-- A capture of the artifact waits, with the reservation that it made.
pub record IsStaged (id : ℕ) (doc : Option StoredRecord) (kept : Option Reservation)
    (inflight : Bool) (waiting : Option Pending) : Type 0 where
  pub capture : Pending
  pub reservation : Reservation
  pub no_record : doc ≡ none
  pub is_reservation : kept ≡ some reservation
  pub staging : reservation.staging ≡ true
  pub handle : capture.reservation ≡ record { token = reservation.token; id = id }
  pub bytes : reservation.bytes ≡ capture.bytes
  pub consumer : reservation.consumer_id ≡ capture.consumer_id
  pub its_id : capture.id ≡ id
  pub is_inflight : inflight ≡ true
  pub is_waiting : waiting ≡ some capture

abbrev pub IsAt : ℕ → Option StoredRecord → Option Reservation → Bool → Option Pending → Type 0
IsAt id doc kept inflight waiting =
    IsAbsent doc kept inflight waiting
    ⊎ IsRecorded doc kept inflight waiting
    ⊎ IsStaged id doc kept inflight waiting

pub record BooksOf (records : List StoredRecord) (reservations : List Reservation)
    (inflight : List ℕ) (waiting : ℕ → Option Pending) : Type 0 where
  pub is_map : IsMap reservations
  pub at_id :
      (id : ℕ)
      → IsAt id
          (record_of id records)
          (reservation_of id reservations)
          (mem id inflight)
          (waiting id)

abbrev pub Books : Store → (ℕ → Option Pending) → Type 0
Books s waiting = BooksOf s.records s.capacity.reservations s.inflight waiting

-- The store is closing or poisoned, or has lost the identity of its trees.
abbrev pub is_broken : Store → Bool
is_broken s = shut s || s.identity_lost

-- Either the store is broken, or its books are right.
abbrev pub AreBooked : Store → (ℕ → Option Pending) → Type 0
AreBooked s waiting = (is_broken s ≡ true) ⊎ Books s waiting

-- The parts of the books at an identifier.
pub record SameAt (j : ℕ) (records records' : List StoredRecord)
    (reservations reservations' : List Reservation) (inflight inflight' : List ℕ)
    (waiting waiting' : ℕ → Option Pending) : Type 0 where
  pub documents : record_of j records' ≡ record_of j records
  pub capacity : reservation_of j reservations' ≡ reservation_of j reservations
  pub flights : mem j inflight' ≡ mem j inflight
  pub waits : waiting' j ≡ waiting j

-- A change at one identifier.
module _ {records records' : List StoredRecord} {reservations reservations' : List Reservation}
    {inflight inflight' : List ℕ} {waiting waiting' : ℕ → Option Pending} where
  moved-IsAt :
      (j : ℕ)
      → SameAt j records records' reservations reservations' inflight inflight' waiting waiting'
      → IsAt j (record_of j records) (reservation_of j reservations) (mem j inflight) (waiting j)
      → IsAt j
          (record_of j records')
          (reservation_of j reservations')
          (mem j inflight')
          (waiting' j)
  moved-IsAt j e a =
      subst
        (λ w. IsAt j (record_of j records') (reservation_of j reservations') (mem j inflight') w)
        (sym e.waits)
        (subst (λ b. IsAt j (record_of j records') (reservation_of j reservations') b (waiting j))
          (sym e.flights)
          (subst (λ v. IsAt j (record_of j records') v (mem j inflight) (waiting j))
            (sym e.capacity)
            (subst (λ r. IsAt j r (reservation_of j reservations) (mem j inflight) (waiting j))
              (sym e.documents) a)))

  pub change_elsewhere :
      (id : ℕ)
      → ((j : ℕ)
          → (id == j) ≡ false
          → IsAt j
              (record_of j records)
              (reservation_of j reservations)
              (mem j inflight)
              (waiting j))
      → IsMap reservations'
      → ((j : ℕ)
          → (id == j) ≡ false
          → SameAt j records records' reservations reservations' inflight inflight' waiting
              waiting')
      → IsAt id
          (record_of id records')
          (reservation_of id reservations')
          (mem id inflight')
          (waiting' id)
      → BooksOf records' reservations' inflight' waiting'
  change_elsewhere id b m others here = record {
    is_map = m;
    at_id = λ j. elim (Bool-cases (id == j)) [
      | inl same ↦
          subst
            (λ k.
              IsAt k (record_of k records') (reservation_of k reservations') (mem k inflight')
                (waiting' k))
            ((==_iff id j).0 same) here
      | inr other ↦ moved-IsAt j (others j other) (b j other)
    ];
  }

  pub change-BooksOf :
      (id : ℕ)
      → BooksOf records reservations inflight waiting
      → IsMap reservations'
      → ((j : ℕ)
          → (id == j) ≡ false
          → SameAt j records records' reservations reservations' inflight inflight' waiting
              waiting')
      → IsAt id
          (record_of id records')
          (reservation_of id reservations')
          (mem id inflight')
          (waiting' id)
      → BooksOf records' reservations' inflight' waiting'
  change-BooksOf id b m others here = change_elsewhere id (λ j e. b.at_id j) m others here
