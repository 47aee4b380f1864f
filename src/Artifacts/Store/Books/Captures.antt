-- ===== src/Artifacts/Store/Books/Captures.antt =====
-- The books of the artifact store through the parts of a capture of artifacts/store.ts.
use browse_gateway.Base.{
  ℕ, ◌+◌, ◌≡◌, inl, inr, refl, sym, subst, ◌∙◌, Bool, true, false, ◌||◌, not, Option, none, some,
  arith, ltb, leb, ◌==◌, if_cases,
}
use browse_gateway.Base.Ids.{mem, put, mem-put}
use browse_gateway.Artifacts.Capacity
use browse_gateway.Artifacts.Capacity.{Handle, max_artifact_bytes, reservation_of}
use browse_gateway.Artifacts.Capacity.Claims.{new_claim}
use browse_gateway.Artifacts.Capacity.Found.{reserve-ChangesAt}
use browse_gateway.Artifacts.Store.{
  Store, StoredRecord, shut, record_of, has_record, mark_unhealthy, identity_proven, strict_delete,
}
use browse_gateway.Artifacts.Store.Discard.{Disk, reap_expired}
use browse_gateway.Artifacts.Store.Close.{CloseDisk}
use browse_gateway.Artifacts.Store.Capture.{
  runtime_invalidated, size_limit, not_pdf, integrity_failed, lifecycle_race,
  artifact_cleanup_failed, Source, Pending, CaptureStep, stage_copy, read_source, entered,
  pending_of, capture, after_part_fsync, record_for, commit, after_link,
}
use browse_gateway.Artifacts.Store.Runs.{waiting_of, set_at, either}
use browse_gateway.Artifacts.Store.Books.{
  IsAbsent, IsAt, Books, is_broken, AreBooked, change_elsewhere,
}
use browse_gateway.Artifacts.Store.Books.Discards.{
  mark_unhealthy-breaks, identity_proven-KeepsBooks, identity_proven-breaks, reap_expired-AreBooked,
}
use browse_gateway.Artifacts.Store.Books.Open.{
  IsOpen, BookedAfter, kept-IsOpen, fail-BookedAfter, retain-BookedAfter, caught-BookedAfter,
  wait-BookedAfter, publish-BookedAfter, shrink-IsOpen,
}

not_proven :
    (s : Store) (holds : Bool)
    → not (identity_proven s holds).1 ≡ true
    → is_broken (identity_proven s holds).0 ≡ true
not_proven s holds lost = identity_proven-breaks s holds (ground (arith, lost))

stage_copy-BookedAfter :
    (s : Store) (w : ℕ → Option Pending) (id c : ℕ) (ttl_ms : Option ℕ) (h : Handle) (f : Source)
    (d : CloseDisk)
    → leb f.size max_artifact_bytes ≡ true
    → IsOpen s w id h max_artifact_bytes c
    → BookedAfter w id (stage_copy s id c ttl_ms h f d)
unfolding stage_copy
stage_copy-BookedAfter s w id c ttl_ms h f d fits k =
    let s1 = record s { capacity = Capacity.shrink_reservation s.capacity h f.size } in
    let k1 = shrink-IsOpen s w id h f.size c fits k in
    let s2 = (identity_proven s1 f.holds).0 in
    let k2 = kept-IsOpen w id h f.size c (identity_proven-KeepsBooks s1 f.holds) k1 in
    if_cases (BookedAfter w id) (not f.reads) _ _
      (λ short. caught-BookedAfter s1 w id h f.size c false f.cleans_up d k1)
      λ read.
        if_cases (BookedAfter w id) (not (f.end_size == f.size) || not f.has_magic) _ _
          (λ changed. fail-BookedAfter s1 w id h f.size c d integrity_failed k1)
          λ whole.
            if_cases (BookedAfter w id) (not (identity_proven s1 f.holds).1) _ _
              (λ lost. fail-BookedAfter s2 w id h f.size c d runtime_invalidated k2)
              λ proven.
                if_cases (BookedAfter w id) (not f.stages) _ _
                  (λ broken. caught-BookedAfter s2 w id h f.size c true f.cleans_up d k2)
                  (λ staged. wait-BookedAfter s2 w (pending_of id c ttl_ms h f) k2)

read_source-BookedAfter :
    (s : Store) (w : ℕ → Option Pending) (id c : ℕ) (ttl_ms : Option ℕ) (h : Handle) (f : Source)
    (d : CloseDisk)
    → IsOpen s w id h max_artifact_bytes c
    → BookedAfter w id (read_source s id c ttl_ms h f d)
unfolding read_source
read_source-BookedAfter s w id c ttl_ms h f d k =
    if_cases (BookedAfter w id) (not f.opens) _ _
      (λ absent. caught-BookedAfter s w id h max_artifact_bytes c false f.cleans_up d k)
      λ open_.
        if_cases (BookedAfter w id) (not f.is_file || ltb max_artifact_bytes f.size) _ _
          (λ large. fail-BookedAfter s w id h max_artifact_bytes c d size_limit k)
          λ fits.
            if_cases (BookedAfter w id) (ltb f.size 5) _ _
              (λ small. fail-BookedAfter s w id h max_artifact_bytes c d not_pdf k)
              (λ sized. stage_copy-BookedAfter s w id c ttl_ms h f d (small_enough fits) k)
  where
    small_enough :
        (not f.is_file || ltb max_artifact_bytes f.size) ≡ false
        → leb f.size max_artifact_bytes ≡ true
    small_enough e = ground (arith, e)

-- The parts of a capture that waited.
module _ (s : Store) (w : ℕ → Option Pending) (p : Pending)
    (k : IsOpen s w p.id p.reservation p.bytes p.consumer_id) where
  proven-IsOpen :
      (holds : Bool) → IsOpen (identity_proven s holds).0 w p.id p.reservation p.bytes p.consumer_id
  proven-IsOpen holds =
      kept-IsOpen w p.id p.reservation p.bytes p.consumer_id (identity_proven-KeepsBooks s holds) k

  pub after_part_fsync-BookedAfter :
      (holds links cleans_up : Bool) (d : CloseDisk)
      → BookedAfter w p.id (after_part_fsync s p holds links cleans_up d)
  unfolding after_part_fsync
  after_part_fsync-BookedAfter holds links cleans_up d =
      let s1 = (identity_proven s holds).0 in
      if_cases (BookedAfter w p.id) (mem p.id s.discarded_inflight) _ _
        (λ discarded.
          fail-BookedAfter s w p.id p.reservation p.bytes p.consumer_id d lifecycle_race k)
        λ wanted.
          if_cases (BookedAfter w p.id) (shut s) _ _
            (λ closing.
              fail-BookedAfter s w p.id p.reservation p.bytes p.consumer_id d runtime_invalidated k)
            λ live.
              if_cases (BookedAfter w p.id) (not (identity_proven s holds).1) _ _
                (λ lost.
                  retain-BookedAfter s1 w p.id p.reservation d runtime_invalidated
                    (not_proven s holds lost))
                λ proven.
                  if_cases (BookedAfter w p.id) (not links) _ _
                    (λ broken.
                      caught-BookedAfter s1 w p.id p.reservation p.bytes p.consumer_id true
                        cleans_up d (proven-IsOpen holds))
                    (λ linked. wait-BookedAfter s1 w p (proven-IsOpen holds))

  commit-BookedAfter :
      (holds : Bool) (proves : Option ℕ) (cleans_up : Bool) (now : ℕ) (d : CloseDisk)
      → BookedAfter w p.id (commit (identity_proven s holds).0 p proves cleans_up now d)
  unfolding commit record_for
  commit-BookedAfter holds (some inode) cleans_up now d =
      publish-BookedAfter (identity_proven s holds).0 w p.id p.reservation
        (record_for (identity_proven s holds).0 p inode now) d refl (proven-IsOpen holds)
  commit-BookedAfter holds none cleans_up now d =
      caught-BookedAfter (identity_proven s holds).0 w p.id p.reservation p.bytes p.consumer_id true
        cleans_up d (proven-IsOpen holds)

  pub after_link-BookedAfter :
      (holds : Bool) (proves : Option ℕ) (cleans_up : Bool) (now : ℕ) (d : CloseDisk)
      → BookedAfter w p.id (after_link s p holds proves cleans_up now d)
  unfolding after_link
  after_link-BookedAfter holds proves cleans_up now d =
      let s1 = (identity_proven s holds).0 in
      let P = BookedAfter w p.id in
      if_cases P (mem p.id s.discarded_inflight) _ _
        (λ discarded.
          fail-BookedAfter s w p.id p.reservation p.bytes p.consumer_id d lifecycle_race k)
        λ wanted.
          if_cases P (not (identity_proven s holds).1) _ _
            (λ lost.
              retain-BookedAfter s1 w p.id p.reservation d runtime_invalidated
                (not_proven s holds lost))
            λ proven.
              if_cases P (shut s1) _ _
                (λ closing.
                  if_cases P (strict_delete s1 true cleans_up) _ _
                    (λ clean.
                      fail-BookedAfter s1 w p.id p.reservation p.bytes p.consumer_id d
                        runtime_invalidated (proven-IsOpen holds))
                    (λ dirty.
                      retain-BookedAfter (mark_unhealthy s1) w p.id p.reservation d
                        artifact_cleanup_failed (mark_unhealthy-breaks s1)))
                (λ live. commit-BookedAfter holds proves cleans_up now d)

-- A capture that is called: when it is refused, what waits is as before.
abbrev pub BookedCall : (ℕ → Option Pending) → ℕ → CaptureStep → Type 0
BookedCall w id x =
    (w' : ℕ → Option Pending)
    → w' id ≡ either (waiting_of x.answer) (w id)
    → ((j : ℕ) → (id == j) ≡ false → w' j ≡ w j)
    → AreBooked x.store w'

-- Only an identifier of which nothing is known is free.
free-IsAbsent :
    (s : Store) (w : ℕ → Option Pending) (id : ℕ)
    → (has_record id s.records || mem id s.inflight) ≡ false
    → Books s w
    → IsAbsent
        (record_of id s.records)
        (reservation_of id s.capacity.reservations)
        (mem id s.inflight)
        (w id)
free-IsAbsent s w id free b = elim (b.at_id id) [
  | inl a ↦ a
  | inr r ↦ elim r [
    | inl a ↦ absurd (recorded a.document a.is_record)
    | inr a ↦ absurd (flying a.is_inflight)
  ]
]
  where
    recorded : (r : StoredRecord) → record_of id s.records ≡ some r → ⊥
    recorded r e = ground (arith, free, e)

    flying : mem id s.inflight ≡ true → ⊥
    flying e = ground (arith, free, e)

entered-IsOpen :
    (s : Store) (w : ℕ → Option Pending) (id c : ℕ)
    → (has_record id s.records || mem id s.inflight) ≡ false
    → (Capacity.reserve s.limits s.capacity id c).1 ≡ true
    → AreBooked s w
    → IsOpen
        (entered s id (Capacity.reserve s.limits s.capacity id c).0)
        w
        id
        (record { token = s.capacity.next; id = id })
        max_artifact_bytes
        c
entered-IsOpen s w id c free made (inl broken) = inl broken
entered-IsOpen s w id c free made (inr b) =
    let a = free-IsAbsent s w id free b in
    let e = reserve-ChangesAt s.limits s.capacity id c b.is_map made in
    inr (record {
      reservation = new_claim s.capacity.next id c;
      is_map = e.is_map;
      others = λ j d.
          subst (λ v. IsAt j (record_of j s.records) v (mem j (put s.inflight id)) (w j))
            (sym (e.others j d))
            (subst
              (λ v.
                IsAt j (record_of j s.records) (reservation_of j s.capacity.reservations) v (w j))
              (sym (others_fly j d)) (b.at_id j));
      no_record = a.no_record;
      is_reservation = e.there;
      staging = refl;
      handle = refl;
      bytes = refl;
      consumer = refl;
      is_inflight = flies;
    })
  where
    others_fly : (j : ℕ) → (id == j) ≡ false → mem j (put s.inflight id) ≡ mem j s.inflight
    others_fly j d = ground (arith, mem-put j id s.inflight, d)

    flies : mem id (put s.inflight id) ≡ true
    flies = ground (arith, mem-put id id s.inflight)

-- What waits is as before, identifier by identifier.
same_books :
    (s : Store) (w w' : ℕ → Option Pending) (id : ℕ)
    → w' id ≡ w id
    → ((j : ℕ) → (id == j) ≡ false → w' j ≡ w j)
    → AreBooked s w
    → AreBooked s w'
same_books s w w' id there same (inl broken) = inl broken
same_books s w w' id there same (inr b) = inr (
    change_elsewhere id (λ j d. b.at_id j) b.is_map
      (λ j d. record { documents = refl; capacity = refl; flights = refl; waits = same j d })
      (subst
        (IsAt id (record_of id s.records) (reservation_of id s.capacity.reservations)
          (mem id s.inflight))
        (sym there) (b.at_id id)))

either-none : (a b : Option Pending) → b ≡ none → either a b ≡ a
either-none none b e = e
either-none (some p) b e = refl

-- A store whose books are right in whatever way the captures wait is broken.
stray : ℕ → Pending
stray j = record {
  id = j + 1;
  consumer_id = 0;
  ttl_ms = none;
  reservation = record { token = 0; id = 0 };
  bytes = 0;
  sha256 = 0;
}

astray : ℕ → Option Pending → ℕ → Option Pending
astray id o = set_at id o (λ j. some (stray j))

astray-broken :
    (s : Store) (id : ℕ) (o : Option Pending) → AreBooked s (astray id o) → is_broken s ≡ true
unfolding astray stray
astray-broken s id o (inl broken) = broken
astray-broken s id o (inr b) = elim (b.at_id (id + 1)) [
  | inl a ↦ absurd (nowhere a.not_waiting)
  | inr r ↦ elim r [
    | inl a ↦ absurd (nowhere a.not_waiting)
    | inr a ↦ absurd (elsewhere a.capture a.is_waiting a.its_id)
  ]
]
  where
    nowhere : set_at id o (λ j. some (stray j)) (id + 1) ≡ none → ⊥
    nowhere e = ground (arith, e)

    elsewhere :
        (p : Pending) → set_at id o (λ j. some (stray j)) (id + 1) ≡ some p → p.id ≡ id + 1 → ⊥
    elsewhere p e its = ground (arith, e, its)

-- A capture that is admitted finds nothing that waits.
admitted-BookedCall :
    (s t : Store) (w : ℕ → Option Pending) (id c : ℕ) (h : Handle) (x : CaptureStep)
    → (has_record id s.records || mem id s.inflight) ≡ false
    → AreBooked s w
    → (is_broken s ≡ true → is_broken t ≡ true)
    → (AreBooked s w → IsOpen t w id h max_artifact_bytes c)
    → ((v : ℕ → Option Pending) → IsOpen t v id h max_artifact_bytes c → BookedAfter v id x)
    → BookedCall w id x
unfolding astray
admitted-BookedCall s t w id c h x free (inl broken) breaks opens after w' there same =
    let v = astray id (waiting_of x.answer) in
    inl (
      astray-broken x.store id (waiting_of x.answer)
        (after v (inl (breaks broken)) v (ground arith) (λ j d. refl)))
admitted-BookedCall s t w id c h x free (inr b) breaks opens after w' there same =
    after w (opens (inr b)) w'
      (there ∙ either-none (waiting_of x.answer) (w id) (free-IsAbsent s w id free b).not_waiting)
      same

pub capture-BookedCall :
    (s : Store) (d : Disk) (now id c : ℕ) (ttl_ms : Option ℕ) (f : Source) (dc : CloseDisk)
    (w : ℕ → Option Pending)
    → AreBooked s w
    → BookedCall w id (capture s d now id c ttl_ms f dc)
unfolding capture
capture-BookedCall s d now id c ttl_ms f dc w k =
    let s1 = reap_expired s d now in
    let k1 = reap_expired-AreBooked s d now w k in
    let r = Capacity.reserve s1.limits s1.capacity id c in
    if_cases (BookedCall w id) (shut s1 || not s1.enabled) _ _
      (λ closing w' there same. same_books s1 w w' id there same k1)
      λ open_.
        if_cases (BookedCall w id) (has_record id s1.records || mem id s1.inflight) _ _
          (λ taken w' there same. same_books s1 w w' id there same k1)
          λ free.
            if_cases (BookedCall w id) r.1 _ _
              (λ made.
                admitted-BookedCall s1 (entered s1 id r.0) w id c
                  (record { token = s1.capacity.next; id = id })
                  (read_source (entered s1 id r.0) id c ttl_ms
                    (record { token = s1.capacity.next; id = id }) f dc)
                  free k1 (λ b. b) (entered-IsOpen s1 w id c free made)
                  (λ v.
                    read_source-BookedAfter (entered s1 id r.0) v id c ttl_ms
                      (record { token = s1.capacity.next; id = id }) f dc))
              (λ full w' there same. same_books s1 w w' id there same k1)
