-- ===== src/Artifacts/Store/Books/Runs.antt =====
-- The books of the artifact store in the runs of artifacts/store.ts.
use browse_gateway.Base.{
  ℕ, ◌≡◌, ◌⊎◌, inl, inr, refl, sym, subst, true, false, ◌||◌, not, Option, none, some, List, [],
  ◌∷◌, arith, ◌==◌, if_cases, is_some,
}
use browse_gateway.Base.Ids.{mem}
use browse_gateway.Base.Totals.{total}
use browse_gateway.Artifacts.Capacity.{Limits, no_reservations}
use browse_gateway.Artifacts.Store.{Store, new_store}
use browse_gateway.Artifacts.Store.Close.{CloseDisk, close}
use browse_gateway.Artifacts.Store.Capture.{
  Pending, CaptureStep, capture, after_part_fsync, after_link,
}
use browse_gateway.Artifacts.Store.Runs.{
  World, new_world, waiting_of, set_at, either, captured, called, resumed, Event, captures,
  part_fsynced, part_linked, acquires, resumes, completes, times_out, claims, discards, cleans,
  closes, step, run,
}
use browse_gateway.Artifacts.Store.Books.{Books, is_broken, AreBooked}
use browse_gateway.Artifacts.Store.Books.Discards.{
  discard_artifact_detailed-AreBooked, reap_expired-AreBooked,
}
use browse_gateway.Artifacts.Store.Books.Close.{requested-breaks}
use browse_gateway.Artifacts.Store.Books.Leases.{
  acquire-AreBooked, resume-AreBooked, complete-AreBooked, time_out-AreBooked,
  claim_timeout-AreBooked,
}
use browse_gateway.Artifacts.Store.Books.Open.{IsOpen, BookedAfter}
use browse_gateway.Artifacts.Store.Books.Captures.{
  BookedCall, capture-BookedCall, after_part_fsync-BookedAfter, after_link-BookedAfter,
}

abbrev IsBooked : World → Type 0
IsBooked w = AreBooked w.store w.pending

close-AreBooked :
    (s : Store) (d : CloseDisk) (w : ℕ → Option Pending) → AreBooked s w → AreBooked (close s d) w
unfolding close
close-AreBooked s d w k =
    if_cases P (s.close_requested || is_some s.result) _ _ (λ again. k)
      λ first.
        if_cases P (not s.enabled) _ _ (λ off. k)
          λ on.
            if_cases P (s.active_captures == 0) _ _ (λ idle. inl (requested-breaks s d))
              (λ busy. inl (ground arith))
  where
    P : Store → Type 0
    P t = AreBooked t w

-- A capture that waits has its books open.
waiting-IsOpen :
    (s : Store) (w : ℕ → Option Pending) (id : ℕ) (p : Pending)
    → w id ≡ some p
    → AreBooked s w
    → IsOpen s w p.id p.reservation p.bytes p.consumer_id
waiting-IsOpen s w id p e (inl broken) = inl broken
waiting-IsOpen s w id p e (inr b) = elim (b.at_id id) [
  | inl a ↦ absurd (cc (a.not_waiting, e))
  | inr r ↦ elim r [
    | inl a ↦ absurd (cc (a.not_waiting, e))
    | inr a ↦
        subst (λ q. IsOpen s w q.id q.reservation q.bytes q.consumer_id)
          (same a.capture a.is_waiting)
          (subst (λ i. IsOpen s w i a.capture.reservation a.capture.bytes a.capture.consumer_id)
            (sym a.its_id)
            (inr (record {
              reservation = a.reservation;
              is_map = b.is_map;
              others = λ j d. b.at_id j;
              no_record = a.no_record;
              is_reservation = a.is_reservation;
              staging = a.staging;
              handle = a.handle;
              bytes = a.bytes;
              consumer = a.consumer;
              is_inflight = a.is_inflight;
            })))
  ]
]
  where
    same : (q : Pending) → w id ≡ some q → q ≡ p
    same q e' = cc (e, e')

set_at-there : (id : ℕ) (o : Option Pending) (f : ℕ → Option Pending) → set_at id o f id ≡ o
set_at-there id o f = ground arith

set_at-other :
    (id : ℕ) (o : Option Pending) (f : ℕ → Option Pending) (j : ℕ)
    → (id == j) ≡ false
    → set_at id o f j ≡ f j
set_at-other id o f j e = ground (arith, e)

captured-IsBooked :
    (w : World) (id : ℕ) (x : CaptureStep) → BookedAfter w.pending id x → IsBooked (captured id w x)
captured-IsBooked w id x after =
    after (set_at id (waiting_of x.answer) w.pending)
      (set_at-there id (waiting_of x.answer) w.pending)
      (set_at-other id (waiting_of x.answer) w.pending)

called-IsBooked :
    (w : World) (id : ℕ) (x : CaptureStep) → BookedCall w.pending id x → IsBooked (called id w x)
called-IsBooked w id x after =
    let o = either (waiting_of x.answer) (w.pending id) in
    after (set_at id o w.pending) (set_at-there id o w.pending) (set_at-other id o w.pending)

resumed-IsBooked :
    (o : Option Pending) (w : World) (f : Pending → World)
    → IsBooked w
    → ((p : Pending) → o ≡ some p → IsBooked (f p))
    → IsBooked (resumed o w f)
resumed-IsBooked none w f k g = k
resumed-IsBooked (some p) w f k g = g p refl

step-IsBooked : (w : World) (e : Event) → IsBooked w → IsBooked (step w e)
unfolding step
step-IsBooked w (captures d now id c ttl_ms f dc) k =
    called-IsBooked w id (capture w.store d now id c ttl_ms f dc)
      (capture-BookedCall w.store d now id c ttl_ms f dc w.pending k)
step-IsBooked w (part_fsynced id holds links cleans_up d) k =
    resumed-IsBooked (w.pending id) w _ k λ p e.
      captured-IsBooked w p.id (after_part_fsync w.store p holds links cleans_up d) (
        after_part_fsync-BookedAfter w.store w.pending p (waiting-IsOpen w.store w.pending id p e k)
          holds links cleans_up d)
step-IsBooked w (part_linked id holds proves cleans_up now d) k =
    resumed-IsBooked (w.pending id) w _ k λ p e.
      captured-IsBooked w p.id (after_link w.store p holds proves cleans_up now d) (
        after_link-BookedAfter w.store w.pending p (waiting-IsOpen w.store w.pending id p e k) holds
          proves cleans_up now d)
step-IsBooked w (acquires d now v id c holds reading) k =
    acquire-AreBooked w.store d now v id c holds reading w.pending k
step-IsBooked w (resumes d now v id c holds reading) k =
    if_cases IsBooked (mem v w.store.permit.granted) _ _
      (λ given. resume-AreBooked w.store d now v id c holds reading w.pending k) (λ other. k)
step-IsBooked w (completes d t) k = complete-AreBooked w.store d t w.pending k
step-IsBooked w (times_out d t) k = time_out-AreBooked w.store d t w.pending k
step-IsBooked w (claims t) k = claim_timeout-AreBooked w.store t w.pending k
step-IsBooked w (discards d id) k = discard_artifact_detailed-AreBooked w.store d id w.pending k
step-IsBooked w (cleans d now) k = reap_expired-AreBooked w.store d now w.pending k
step-IsBooked w (closes d) k =
    if_cases IsBooked w.store.enabled _ _ (λ on. close-AreBooked w.store d w.pending k) (λ off. k)

run-IsBooked : (w : World) (es : List Event) → IsBooked w → IsBooked (run w es)
unfolding run
run-IsBooked w [] k = k
run-IsBooked w (e ∷ es) k = run-IsBooked (step w e) es (step-IsBooked w e k)

new_world-IsBooked : (m : Limits) (ttl_ms : ℕ) → IsBooked (new_world m ttl_ms)
unfolding new_world new_store no_reservations mem total
new_world-IsBooked m ttl_ms = inr (record {
  is_map = λ id. omega arith;
  at_id = λ id.
      inl (record {
        no_record = refl;
        no_reservation = refl;
        not_inflight = refl;
        not_waiting = refl;
      });
})

-- Whatever happens to a new store, its records, its reservations and its captures agree, until it is
-- closing or poisoned or has lost the identity of its trees. No two reservations have one identifier,
-- and of each identifier one of three holds: there is neither a record, nor a reservation, nor a
-- capture under way; or there is a record and a reservation that is not staging, of just the bytes of
-- the document and for its consumer, and no capture; or there is no record and one capture that waits,
-- whose handle is that of a reservation that is staging, of just the bytes of the copy and for its
-- consumer.
pub run-Books :
    (m : Limits) (ttl_ms : ℕ) (es : List Event)
    → (is_broken (run (new_world m ttl_ms) es).store ≡ true)
      ⊎ Books (run (new_world m ttl_ms) es).store (run (new_world m ttl_ms) es).pending
run-Books m ttl_ms es = run-IsBooked (new_world m ttl_ms) es (new_world-IsBooked m ttl_ms)
