-- ===== src/Artifacts/Store/Books/Discards.antt =====
-- The books of the artifact store through the deletions of artifacts/store.ts.
use browse_gateway.Base.{
  ℕ, ◌≡◌, ◌⊎◌, inl, inr, refl, sym, subst, ◌∙◌, Bool, true, false, ◌||◌, not, Option, none, some,
  List, [], ◌∷◌, leb, ◌==◌, if◌then◌else◌, if_cases, keep, arith,
}
use browse_gateway.Base.Ids.{mem}
use browse_gateway.Artifacts.Capacity
use browse_gateway.Artifacts.Capacity.{reservation_of}
use browse_gateway.Artifacts.Capacity.Found.{
  ChangesAt, release_discarded-staged-ChangesAt, release_discarded-gone-ChangesAt,
  release_discarded-absent,
}
use browse_gateway.Artifacts.Store.{
  Store, StoredRecord, record_of, has_record, clear_timer, mark_unhealthy, identity_proven,
  strict_delete,
}
use browse_gateway.Artifacts.Store.Capture.{Pending}
use browse_gateway.Artifacts.Store.Discard.{
  Disk, Deleted, Deletion, deleted_facts, unlink, let_go, delete_physical, release_discarded,
  released, discard_owned, DiscardResult, discard_artifact_detailed, is_being_consumed, reap,
  reap_expired,
}
use browse_gateway.Artifacts.Store.Books.{
  IsAbsent, IsRecorded, IsStaged, IsAt, BooksOf, Books, is_broken, AreBooked, change-BooksOf,
}

-- A change of the store that leaves what the books are about as it is.
pub record KeepsBooks (s t : Store) : Type 0 where
  pub records : t.records ≡ s.records
  pub reservations : t.capacity.reservations ≡ s.capacity.reservations
  pub inflight : t.inflight ≡ s.inflight
  pub breaks : is_broken s ≡ true → is_broken t ≡ true

pub unchanged-KeepsBooks : (s : Store) → KeepsBooks s s
unchanged-KeepsBooks s = record {
  records = refl;
  reservations = refl;
  inflight = refl;
  breaks = λ b. b;
}

pub chain-KeepsBooks : {s t u : Store} → KeepsBooks s t → KeepsBooks t u → KeepsBooks s u
chain-KeepsBooks k l = record {
  records = l.records ∙ k.records;
  reservations = l.reservations ∙ k.reservations;
  inflight = l.inflight ∙ k.inflight;
  breaks = λ b. l.breaks (k.breaks b);
}

pub kept-AreBooked :
    {s t : Store} (w : ℕ → Option Pending) → KeepsBooks s t → AreBooked s w → AreBooked t w
kept-AreBooked w k (inl b) = inl (k.breaks b)
kept-AreBooked {s = s} {t = t} w k (inr b) = inr (
    subst (λ r. BooksOf r t.capacity.reservations t.inflight w) (sym k.records)
      (subst (λ r. BooksOf s.records r t.inflight w) (sym k.reservations)
        (subst (λ r. BooksOf s.records s.capacity.reservations r w) (sym k.inflight) b)))

broken_unhealthy : (s : Store) → is_broken (mark_unhealthy s) ≡ true
unfolding mark_unhealthy
broken_unhealthy s = ground arith

pub mark_unhealthy-breaks : (s : Store) → is_broken (mark_unhealthy s) ≡ true
mark_unhealthy-breaks s = broken_unhealthy s

pub mark_unhealthy-KeepsBooks : (s : Store) → KeepsBooks s (mark_unhealthy s)
unfolding mark_unhealthy
mark_unhealthy-KeepsBooks s = record {
  records = refl;
  reservations = refl;
  inflight = refl;
  breaks = λ b. broken_unhealthy s;
}

pub identity_proven-KeepsBooks :
    (s : Store) (holds : Bool) → KeepsBooks s (identity_proven s holds).0
unfolding identity_proven
identity_proven-KeepsBooks s holds =
    if_cases {A = Store × Bool} (λ a. KeepsBooks s a.0) s.identity_lost _ _
      (λ lost. unchanged-KeepsBooks s)
      λ own.
        if_cases {A = Store × Bool} (λ a. KeepsBooks s a.0) (not s.enabled || holds) _ _
          (λ fine. unchanged-KeepsBooks s) (λ foreign. lost)
  where
    lost : KeepsBooks s (mark_unhealthy (record s { identity_lost = true }))
    lost =
        let k = mark_unhealthy-KeepsBooks (record s { identity_lost = true }) in
        record {
          records = k.records;
          reservations = k.reservations;
          inflight = k.inflight;
          breaks = λ b. broken_unhealthy (record s { identity_lost = true });
        }

-- A failed proof of identity breaks the store.
pub identity_proven-breaks :
    (s : Store) (holds : Bool)
    → (identity_proven s holds).1 ≡ false
    → is_broken (identity_proven s holds).0 ≡ true
unfolding identity_proven
identity_proven-breaks s holds =
    if_cases {A = Store × Bool} P s.identity_lost _ _ (λ lost e. ground (arith, lost))
      λ own.
        if_cases {A = Store × Bool} P (not s.enabled || holds) _ _ (λ fine e. absurd (cc e))
          (λ foreign e. broken_unhealthy (record s { identity_lost = true }))
  where
    P : Store × Bool → Type 0
    P a = a.1 ≡ false → is_broken a.0 ≡ true

let_go-KeepsBooks : (s : Store) (id : ℕ) → KeepsBooks s (let_go s id)
unfolding let_go clear_timer
let_go-KeepsBooks s id = record {
  records = refl;
  reservations = refl;
  inflight = refl;
  breaks = λ b. b;
}

-- After a deletion of files: what the books are about is as before, and the facts are those of the store.
pub record Unlinked (s : Store) (id : ℕ) (x : Deletion) : Type 0 where
  pub keeps : KeepsBooks s x.store
  pub facts : (x.facts ≡ none) ⊎ (x.facts ≡ some (deleted_facts x.store id))

unlink-Unlinked : (s : Store) (id : ℕ) (deletes : Bool) → Unlinked s id (unlink s id deletes)
unfolding unlink
unlink-Unlinked s id deletes =
    if_cases {A = Deletion} (Unlinked s id) (strict_delete s true deletes) _ _
      (λ gone. record { keeps = unchanged-KeepsBooks s; facts = inr refl })
      (λ left. record { keeps = mark_unhealthy-KeepsBooks s; facts = inl refl })

pub delete_physical-Unlinked :
    (s : Store) (d : Disk) (id : ℕ) → Unlinked s id (delete_physical s d id)
unfolding delete_physical
delete_physical-Unlinked s d id =
    let k =
      chain-KeepsBooks (let_go-KeepsBooks s id)
        (identity_proven-KeepsBooks (let_go s id) (d.holds id)) in
    if_cases {A = Deletion} (Unlinked s id) (identity_proven (let_go s id) (d.holds id)).1 _ _
      (λ proven.
        let u = unlink-Unlinked (identity_proven (let_go s id) (d.holds id)).0 id (d.deletes id) in
        record { keeps = chain-KeepsBooks k u.keeps; facts = u.facts })
      (λ lost. record { keeps = k; facts = inl refl })

kept-other :
    (id j : ℕ) (rs : List StoredRecord)
    → (id == j) ≡ false
    → record_of j (keep (λ r. not (r.id == id)) rs) ≡ record_of j rs
kept-other id j [] e = refl
kept-other id j (r ∷ rs) e = ground (arith, kept-other id j rs, e)

kept_self :
    (id : ℕ) (rs : List StoredRecord) → record_of id (keep (λ r. not (r.id == id)) rs) ≡ none
kept_self id [] = refl
kept_self id (r ∷ rs) = ground (arith, kept_self id rs)

-- The logical half of a deletion keeps the books: a record goes with its reservation, a capture that
-- waits keeps its own.
module _ (s : Store) (id : ℕ) (w : ℕ → Option Pending) (b : Books s w) where
  abbrev left : List StoredRecord
  left = if has_record id s.records then keep (λ r. not (r.id == id)) s.records else s.records

  left_there : has_record id s.records ≡ false → record_of id left ≡ record_of id s.records
  left_there h = ground (arith, h)

  left_gone : has_record id s.records ≡ true → record_of id left ≡ none
  left_gone h = ground (arith, h, kept_self id s.records)

  left_other : (j : ℕ) → (id == j) ≡ false → record_of j left ≡ record_of j s.records
  left_other j e = ground (arith, kept-other id j s.records e)

  abbrev reservations' : List Capacity.Reservation
  reservations' = (Capacity.release_discarded s.capacity id).reservations

  changed-Books :
      {o : Option Capacity.Reservation}
      → ChangesAt id s.capacity.reservations reservations' o
      → IsAt id (record_of id left) (reservation_of id reservations') (mem id s.inflight) (w id)
      → BooksOf left reservations' s.inflight w
  changed-Books c here =
      change-BooksOf id b c.is_map
        (λ j e. record {
          documents = left_other j e;
          capacity = c.others j e;
          flights = refl;
          waits = refl;
        })
        here

  absent-Books :
      IsAbsent
        (record_of id s.records)
        (reservation_of id s.capacity.reservations)
        (mem id s.inflight)
        (w id)
      → BooksOf left reservations' s.inflight w
  absent-Books a =
      subst (λ l. BooksOf left l.reservations s.inflight w)
        (sym (release_discarded-absent s.capacity id a.no_reservation))
        (change-BooksOf id b b.is_map
          (λ j e. record {
            documents = left_other j e;
            capacity = refl;
            flights = refl;
            waits = refl;
          })
          (inl (record {
            no_record = left_there (ground (arith, a.no_record)) ∙ a.no_record;
            no_reservation = a.no_reservation;
            not_inflight = a.not_inflight;
            not_waiting = a.not_waiting;
          })))

  recorded-Books :
      IsRecorded
        (record_of id s.records)
        (reservation_of id s.capacity.reservations)
        (mem id s.inflight)
        (w id)
      → BooksOf left reservations' s.inflight w
  recorded-Books a =
      let c =
        release_discarded-gone-ChangesAt s.capacity id a.reservation a.is_reservation b.is_map
          a.committed in
      changed-Books c (
        inl (record {
          no_record = left_gone (ground (arith, a.is_record));
          no_reservation = c.there;
          not_inflight = a.not_inflight;
          not_waiting = a.not_waiting;
        }))

  staged-Books :
      IsStaged id
        (record_of id s.records)
        (reservation_of id s.capacity.reservations)
        (mem id s.inflight)
        (w id)
      → BooksOf left reservations' s.inflight w
  staged-Books a =
      let c =
        release_discarded-staged-ChangesAt s.capacity id a.reservation a.is_reservation b.is_map
          a.staging in
      changed-Books c (
        inr (
          inr (record {
            capture = a.capture;
            reservation = a.reservation;
            no_record = left_there (ground (arith, a.no_record)) ∙ a.no_record;
            is_reservation = c.there;
            staging = a.staging;
            handle = a.handle;
            bytes = a.bytes;
            consumer = a.consumer;
            its_id = a.its_id;
            is_inflight = a.is_inflight;
            is_waiting = a.is_waiting;
          })))

  deleted-Books : BooksOf left reservations' s.inflight w
  deleted-Books = elim (b.at_id id) [
    | inl a ↦ absent-Books a
    | inr r ↦ elim r [ inl a ↦ recorded-Books a | inr a ↦ staged-Books a ]
  ]

release_discarded-AreBooked :
    (s : Store) (id : ℕ) (close_owned : Bool) (w : ℕ → Option Pending)
    → AreBooked s w
    → AreBooked (release_discarded s id (deleted_facts s id) close_owned) w
unfolding release_discarded
release_discarded-AreBooked s id close_owned w (inl broken) = inl broken
release_discarded-AreBooked s id close_owned w (inr b) = inr (deleted-Books s id w b)

pub discard_owned-AreBooked :
    (s : Store) (d : Disk) (id : ℕ) (w : ℕ → Option Pending)
    → AreBooked s w
    → AreBooked (discard_owned s d id).0 w
unfolding discard_owned
discard_owned-AreBooked s d id w b =
    let u = delete_physical-Unlinked s d id in
    by_facts (delete_physical s d id).facts (delete_physical s d id).store u.facts
      (kept-AreBooked w u.keeps b)
  where
    by_facts :
        (f : Option Deleted) (t : Store)
        → ((f ≡ none) ⊎ (f ≡ some (deleted_facts t id)))
        → AreBooked t w
        → AreBooked (released f t id).0 w
    by_facts f t (inl e) k = subst (λ f'. AreBooked (released f' t id).0 w) (sym e) k
    by_facts f t (inr e) k =
        subst (λ f'. AreBooked (released f' t id).0 w) (sym e)
          (release_discarded-AreBooked t id false w k)

pub discard_artifact_detailed-AreBooked :
    (s : Store) (d : Disk) (id : ℕ) (w : ℕ → Option Pending)
    → AreBooked s w
    → AreBooked (discard_artifact_detailed s d id).0 w
unfolding discard_artifact_detailed
discard_artifact_detailed-AreBooked s d id w k =
    if_cases P (not s.enabled) _ _ (λ off. k)
      λ on.
        if_cases P (s.close_requested || s.disposed) _ _ (λ closing. k)
          λ open_.
            if_cases P s.unhealthy _ _ (λ poisoned. k)
              λ well.
                if_cases P (is_being_consumed id s.records) _ _ (λ consumed. k)
                  λ free. discard_owned-AreBooked s d id w k
  where
    P : Store × DiscardResult → Type 0
    P a = AreBooked a.0 w

reap-AreBooked :
    (s : Store) (d : Disk) (now : ℕ) (rs : List StoredRecord) (w : ℕ → Option Pending)
    → AreBooked s w
    → AreBooked (reap s d now rs) w
unfolding reap
reap-AreBooked s d now [] w k = k
reap-AreBooked s d now (r ∷ rs) w k =
    reap-AreBooked (if leb r.expires_at now then (discard_artifact_detailed s d r.id).0 else s) d
      now rs w
      (if_cases (λ t. AreBooked t w) (leb r.expires_at now) _ _
        (λ expired. discard_artifact_detailed-AreBooked s d r.id w k) (λ young. k))

pub reap_expired-AreBooked :
    (s : Store) (d : Disk) (now : ℕ) (w : ℕ → Option Pending)
    → AreBooked s w
    → AreBooked (reap_expired s d now) w
unfolding reap_expired
reap_expired-AreBooked s d now w k = reap-AreBooked s d now s.records w k
