-- ===== src/Artifacts/Store/Books/Open.antt =====
-- The books of the artifact store while a capture of artifacts/store.ts runs.
use browse_gateway.Base.{
  ℕ, ◌-◌, ◌≡◌, ◌⊎◌, inl, inr, refl, sym, subst, ◌∙◌, Bool, true, false, ◌&&◌, Option, none, some,
  List, [], ◌∷◌, ◌++◌, arith, leb, ◌==◌, if◌then◌else◌, if_cases,
}
use browse_gateway.Base.Ids.{mem, remove, mem-remove}
use browse_gateway.Artifacts.Capacity
use browse_gateway.Artifacts.Capacity.{
  max_artifact_bytes, Reservation, Handle, reservation_of, staged, with_bytes,
}
use browse_gateway.Artifacts.Capacity.Found.{
  IsMap, ChangesAt, shrink-ChangesAt, finish_copy-ChangesAt,
}
use browse_gateway.Artifacts.Store.{Store, StoredRecord, record_of, mark_unhealthy, strict_delete}
use browse_gateway.Artifacts.Store.Close.{CloseDisk}
use browse_gateway.Artifacts.Store.Capture.{
  ArtifactFailure, artifact_cleanup_failed, write_failed, Pending, published, waits, CaptureStep,
  leave, fail, caught,
}
use browse_gateway.Artifacts.Store.Runs.{waiting_of}
use browse_gateway.Artifacts.Store.Books.{IsAt, is_broken, AreBooked, change_elsewhere}
use browse_gateway.Artifacts.Store.Books.Discards.{KeepsBooks, mark_unhealthy-breaks}
use browse_gateway.Artifacts.Store.Books.Close.{finish_close-breaks}

-- The books while a capture of the identifier is under way: it has its reservation, and no record yet.
pub record OpenBooks (records : List StoredRecord) (reservations : List Reservation)
    (inflight : List ℕ) (w : ℕ → Option Pending) (id : ℕ) (h : Handle) (b c : ℕ) : Type 0 where
  pub reservation : Reservation
  pub is_map : IsMap reservations
  pub others :
      (j : ℕ)
      → (id == j) ≡ false
      → IsAt j (record_of j records) (reservation_of j reservations) (mem j inflight) (w j)
  pub no_record : record_of id records ≡ none
  pub is_reservation : reservation_of id reservations ≡ some reservation
  pub staging : reservation.staging ≡ true
  pub handle : h ≡ record { token = reservation.token; id = id }
  pub bytes : reservation.bytes ≡ b
  pub consumer : reservation.consumer_id ≡ c
  pub is_inflight : mem id inflight ≡ true

abbrev pub IsOpen : Store → (ℕ → Option Pending) → ℕ → Handle → ℕ → ℕ → Type 0
IsOpen s w id h b c =
    (is_broken s ≡ true) ⊎ OpenBooks s.records s.capacity.reservations s.inflight w id h b c

-- The books after a part of a capture, with the capture that then waits, if one does.
abbrev pub BookedAfter : (ℕ → Option Pending) → ℕ → CaptureStep → Type 0
BookedAfter w id x =
    (w' : ℕ → Option Pending)
    → w' id ≡ waiting_of x.answer
    → ((j : ℕ) → (id == j) ≡ false → w' j ≡ w j)
    → AreBooked x.store w'

pub kept-IsOpen :
    {s t : Store} (w : ℕ → Option Pending) (id : ℕ) (h : Handle) (b c : ℕ)
    → KeepsBooks s t
    → IsOpen s w id h b c
    → IsOpen t w id h b c
kept-IsOpen w id h b c k (inl broken) = inl (k.breaks broken)
kept-IsOpen {s = s} {t = t} w id h b c k (inr o) = inr (
    subst (λ r. OpenBooks r t.capacity.reservations t.inflight w id h b c) (sym k.records)
      (subst (λ r. OpenBooks s.records r t.inflight w id h b c) (sym k.reservations)
        (subst (λ r. OpenBooks s.records s.capacity.reservations r w id h b c) (sym k.inflight) o)))

snoc-other :
    (j : ℕ) (rs : List StoredRecord) (r : StoredRecord)
    → (r.id == j) ≡ false
    → record_of j (rs ++ r ∷ []) ≡ record_of j rs
snoc-other j [] r e = ground arith
snoc-other j (x ∷ rs) r e = ground (arith, snoc-other j rs r e)

snoc-there :
    (id : ℕ) (rs : List StoredRecord) (r : StoredRecord)
    → r.id ≡ id
    → record_of id rs ≡ none
    → record_of id (rs ++ r ∷ []) ≡ some r
snoc-there id [] r its h = ground arith
snoc-there id (x ∷ rs) r its h = ground (arith, snoc-there id rs r its)

-- What `leave` makes of the books, in a store that is closing or not.
left : Store → ℕ → Handle → Bool → Store
left s id h keeps = record s {
  capacity = Capacity.finish_copy s.capacity h keeps;
  inflight = remove s.inflight id;
}

leave-AreBooked :
    (s : Store) (id : ℕ) (h : Handle) (keeps : Bool) (d : CloseDisk) (w : ℕ → Option Pending)
    → AreBooked (left s id h keeps) w
    → AreBooked (leave s id h keeps d) w
unfolding leave left
leave-AreBooked s id h keeps d w k =
    if_cases (λ t. AreBooked t w) (s.close_requested && s.active_captures - 1 == 0) _ _
      (λ last. inl (finish_close-breaks _ d (ground (arith, last)))) (λ others. k)

-- The end of a capture that has its books open.
module _ (s : Store) (w w' : ℕ → Option Pending) (id : ℕ) (h : Handle) (b c : ℕ)
    (o : OpenBooks s.records s.capacity.reservations s.inflight w id h b c) (gone : w' id ≡ none)
    (same : (j : ℕ) → (id == j) ≡ false → w' j ≡ w j) where
  ends :
      (keeps : Bool)
      → ChangesAt id s.capacity.reservations
          (Capacity.finish_copy s.capacity h keeps).reservations
          (if keeps then some (staged o.reservation) else none)
  ends keeps =
      subst
        (λ g.
          ChangesAt id s.capacity.reservations
            (Capacity.finish_copy s.capacity g keeps).reservations
            (if keeps then some (staged o.reservation) else none))
        (sym o.handle)
        (finish_copy-ChangesAt s.capacity id o.reservation keeps o.is_reservation o.is_map)

  landed : mem id (remove s.inflight id) ≡ false
  landed = ground (arith, mem-remove id id s.inflight)

  others_fly : (j : ℕ) → (id == j) ≡ false → mem j (remove s.inflight id) ≡ mem j s.inflight
  others_fly j e = ground (arith, mem-remove j id s.inflight, e)

  given_up : AreBooked (left s id h false) w'
  given_up =
      let e = ends false in
      unfold left in
      inr (
        change_elsewhere id o.others e.is_map
          (λ j d. record {
            documents = refl;
            capacity = e.others j d;
            flights = others_fly j d;
            waits = same j d;
          })
          (inl (record {
            no_record = o.no_record;
            no_reservation = e.there;
            not_inflight = landed;
            not_waiting = gone;
          })))

  module _ (r : StoredRecord) (its : r.id ≡ id) (its_bytes : r.bytes ≡ b)
      (its_consumer : r.consumer_id ≡ c) where
    abbrev committed : Store
    committed = record s { records = s.records ++ r ∷ [] }

    published_books : AreBooked (left committed id h true) w'
    published_books =
        let e = ends true in
        unfold left in
        inr (
          change_elsewhere id o.others e.is_map
            (λ j d. record {
              documents = snoc-other j s.records r (ground (arith, its, d));
              capacity = e.others j d;
              flights = others_fly j d;
              waits = same j d;
            })
            (inr (
              inl (record {
                document = r;
                reservation = staged o.reservation;
                is_record = snoc-there id s.records r its o.no_record;
                is_reservation = e.there;
                committed = refl;
                bytes = o.bytes ∙ sym its_bytes;
                consumer = o.consumer ∙ sym its_consumer;
                not_inflight = landed;
                not_waiting = gone;
              }))))

pub fail-BookedAfter :
    (s : Store) (w : ℕ → Option Pending) (id : ℕ) (h : Handle) (b c : ℕ) (d : CloseDisk)
    (f : ArtifactFailure)
    → IsOpen s w id h b c
    → BookedAfter w id (fail s id h false d f)
unfolding fail
fail-BookedAfter s w id h b c d f (inl broken) w' gone same =
    leave-AreBooked s id h false d w' (unfold left in inl broken)
fail-BookedAfter s w id h b c d f (inr o) w' gone same =
    leave-AreBooked s id h false d w' (given_up s w w' id h b c o gone same)

-- A document is retained only in a store that is broken.
pub retain-BookedAfter :
    (s : Store) (w : ℕ → Option Pending) (id : ℕ) (h : Handle) (d : CloseDisk) (f : ArtifactFailure)
    → is_broken s ≡ true
    → BookedAfter w id (fail s id h true d f)
unfolding fail
retain-BookedAfter s w id h d f broken w' gone same =
    leave-AreBooked s id h true d w' (unfold left in inl broken)

pub caught-BookedAfter :
    (s : Store) (w : ℕ → Option Pending) (id : ℕ) (h : Handle) (b c : ℕ) (touches cleans_up : Bool)
    (d : CloseDisk)
    → IsOpen s w id h b c
    → BookedAfter w id (caught s id h touches cleans_up d)
unfolding caught
caught-BookedAfter s w id h b c touches cleans_up d k =
    if_cases (BookedAfter w id) (strict_delete s touches cleans_up) _ _
      (λ clean. fail-BookedAfter s w id h b c d write_failed k)
      (λ dirty.
        retain-BookedAfter (mark_unhealthy s) w id h d artifact_cleanup_failed
          (mark_unhealthy-breaks s))

-- The capture waits.
pub wait-BookedAfter :
    (s : Store) (w : ℕ → Option Pending) (p : Pending)
    → IsOpen s w p.id p.reservation p.bytes p.consumer_id
    → BookedAfter w p.id (record { store = s; answer = waits p })
wait-BookedAfter s w p (inl broken) w' there same = inl broken
wait-BookedAfter s w p (inr o) w' there same = inr (
    change_elsewhere p.id o.others o.is_map
      (λ j d. record { documents = refl; capacity = refl; flights = refl; waits = same j d })
      (inr (
        inr (record {
          capture = p;
          reservation = o.reservation;
          no_record = o.no_record;
          is_reservation = o.is_reservation;
          staging = o.staging;
          handle = o.handle;
          bytes = o.bytes;
          consumer = o.consumer;
          its_id = refl;
          is_inflight = o.is_inflight;
          is_waiting = there;
        }))))

pub publish-BookedAfter :
    (s : Store) (w : ℕ → Option Pending) (id : ℕ) (h : Handle) (r : StoredRecord) (d : CloseDisk)
    → r.id ≡ id
    → IsOpen s w id h r.bytes r.consumer_id
    → BookedAfter w id (record {
      store = leave (record s { records = s.records ++ r ∷ [] }) id h true d;
      answer = published r;
    })
publish-BookedAfter s w id h r d its (inl broken) w' gone same =
    leave-AreBooked (record s { records = s.records ++ r ∷ [] }) id h true d w'
      (unfold left in inl broken)
publish-BookedAfter s w id h r d its (inr o) w' gone same =
    leave-AreBooked (record s { records = s.records ++ r ∷ [] }) id h true d w'
      (published_books s w w' id h r.bytes r.consumer_id o gone same r its refl refl)

-- The exact size is known.
pub shrink-IsOpen :
    (s : Store) (w : ℕ → Option Pending) (id : ℕ) (h : Handle) (size c : ℕ)
    → leb size max_artifact_bytes ≡ true
    → IsOpen s w id h max_artifact_bytes c
    → IsOpen (record s { capacity = Capacity.shrink_reservation s.capacity h size }) w id h size c
shrink-IsOpen s w id h size c fits (inl broken) = inl broken
shrink-IsOpen s w id h size c fits (inr o) =
    let e =
      subst
        (λ g.
          ChangesAt id s.capacity.reservations
            (Capacity.shrink_reservation s.capacity g size).reservations
            (some (shrunk (leb o.reservation.bytes size))))
        (sym o.handle)
        (shrink-ChangesAt s.capacity id o.reservation o.is_reservation o.is_map size) in
    inr (record {
      reservation = shrunk (leb o.reservation.bytes size);
      is_map = e.is_map;
      others = λ j d.
          subst (λ v. IsAt j (record_of j s.records) v (mem j s.inflight) (w j))
            (sym (e.others j d)) (o.others j d);
      no_record = o.no_record;
      is_reservation = e.there;
      staging = ground (arith, o.staging);
      handle = o.handle ∙ same_handle (leb o.reservation.bytes size);
      bytes = ground (arith, o.bytes, fits);
      consumer = ground (arith, o.consumer);
      is_inflight = o.is_inflight;
    })
  where
    shrunk : Bool → Reservation
    shrunk t = if t then o.reservation else with_bytes size o.reservation

    handle_for : ℕ → Handle
    handle_for t = record { token = t; id = id }

    same_handle : (t : Bool) → handle_for o.reservation.token ≡ handle_for (shrunk t).token
    same_handle true = refl
    same_handle false = refl
