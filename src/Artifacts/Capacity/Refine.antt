-- ===== src/Artifacts/Capacity/Refine.antt =====
-- The reservation ledger of artifacts/store.ts against the ledger with no counters.
use browse_gateway.Base.{
  ℕ, ◌≡◌, refl, ap, Bool, true, false, Option, none, some, List, [], ◌∷◌, ◌∙◌, arith, if◌then◌else◌,
}
use browse_gateway.Artifacts.Capacity.{
  Limits, Reservation, Capacity, Handle, no_reservations, reservation_of, admits, admit, reserve,
  held, if_held, shrink_by, shrink_reservation, unstage, release_stage, release_held,
  release_reservation, finish_copy, release_discarded,
}
use browse_gateway.Artifacts.Capacity.Claims.{
  Claims, fits, claim, shrink_claim, stage_out, end_claim, finish_claim, discard_claim, Request,
  reserves, shrinks, finishes, discards, allow, allow_all,
}
use browse_gateway.Artifacts.Capacity.Billed.{IsBilled}
use browse_gateway.Artifacts.Capacity.Exact.{
  IsExact, no_reservations-IsExact, reserve-IsExact, shrink_reservation-IsExact,
  finish_copy-IsExact, release_discarded-IsExact,
}

unfoldable pub perform : Limits → Capacity → Request → Capacity × Bool
perform m l (reserves id c) = reserve m l id c
perform m l (shrinks h b) = (shrink_reservation l h b, true)
perform m l (finishes h keeps) = (finish_copy l h keeps, true)
perform m l (discards id) = (release_discarded l id, true)

unfoldable pub perform_all : Limits → Capacity → List Request → Capacity × List Bool
perform_all m l [] = (l, [])
perform_all m l (q ∷ qs) =
    let after = perform m l q in let rest = perform_all m after.0 qs in (rest.0, after.1 ∷ rest.1)

-- The ledger without its counters.
abbrev pub claims_of : Capacity → Claims
claims_of l = record { claims = l.reservations; next = l.next }

fits_lem : (m : Limits) (l : Capacity) (c : ℕ) → IsExact l → admits m l c ≡ fits m l.reservations c
fits_lem m l c e = go (e.billed c)
  where
    go : IsBilled l.consumers l.reservations c → admits m l c ≡ fits m l.reservations c
    go b = ground (arith, e.counted, e.weighed, b.counts, b.weighs)

reserve_refines :
    (m : Limits) (l : Capacity) (id c : ℕ)
    → IsExact l
    → (claims_of (reserve m l id c).0 ≡ (claim m (claims_of l) id c).0)
      × ((reserve m l id c).1 ≡ (claim m (claims_of l) id c).1)
unfolding reserve claim admit
reserve_refines m l id c e = ground (arith, fits_lem m l c e, e.permitted)

-- A change of the ledger at an object is that of its claims.
if_held_refines :
    (o : Option Reservation) (l : Capacity) (f : Reservation → Capacity) (s : Claims)
    (g : Reservation → Claims)
    → claims_of l ≡ s
    → ((r : Reservation) → claims_of (f r) ≡ g r)
    → claims_of (if_held o l f) ≡ if_held o s g
if_held_refines none l f s g p q = p
if_held_refines (some r) l f s g p q = q r

shrink_refines :
    (l : Capacity) (h : Handle) (b : ℕ)
    → claims_of (shrink_reservation l h b) ≡ shrink_claim (claims_of l) h b
unfolding shrink_reservation shrink_claim shrink_by
shrink_refines l h b =
    if_held_refines (held h l.reservations) l (λ r. shrink_by l b r) (claims_of l) _ refl
      λ r. ground arith

release_stage_refines :
    (l : Capacity) (h : Handle) → claims_of (release_stage l h) ≡ stage_out (claims_of l) h
unfolding release_stage stage_out unstage
release_stage_refines l h =
    if_held_refines (held h l.reservations) l (λ r. unstage l r) (claims_of l) _ refl
      λ r. ground arith

release_reservation_refines :
    (l : Capacity) (h : Handle) → claims_of (release_reservation l h) ≡ end_claim (claims_of l) h
unfolding release_reservation end_claim release_held
release_reservation_refines l h =
    if_held_refines (held h l.reservations) l (λ r. release_held l r) (claims_of l) _ refl λ r. refl

finish_refines :
    (l : Capacity) (h : Handle) (keeps : Bool)
    → claims_of (finish_copy l h keeps) ≡ finish_claim (claims_of l) h keeps
unfolding finish_copy finish_claim
finish_refines l h true = release_stage_refines l h
finish_refines l h false =
    release_reservation_refines (release_stage l h) h
    ∙ ap (λ s. end_claim s h) (release_stage_refines l h)

discard_refines :
    (l : Capacity) (id : ℕ) → claims_of (release_discarded l id) ≡ discard_claim (claims_of l) id
unfolding release_discarded discard_claim
discard_refines l id =
    if_held_refines (reservation_of id l.reservations) l _ (claims_of l) _ refl λ r.
      by_staging r.staging _ _ (release_reservation_refines l (record { token = r.token; id = id }))
  where
    by_staging :
        (b : Bool) (l' : Capacity) (s : Claims)
        → claims_of l' ≡ s
        → claims_of (if b then l else l') ≡ (if b then claims_of l else s)
    by_staging true l' s e = refl
    by_staging false l' s e = e

perform_refines :
    (m : Limits) (l : Capacity) (q : Request)
    → IsExact l
    → (claims_of (perform m l q).0 ≡ (allow m (claims_of l) q).0)
      × ((perform m l q).1 ≡ (allow m (claims_of l) q).1)
      × IsExact (perform m l q).0
unfolding perform allow
perform_refines m l (reserves id c) e =
    let (s, b) = reserve_refines m l id c e in (s, b, reserve-IsExact m l id c e)
perform_refines m l (shrinks h b) e =
    (shrink_refines l h b, refl, shrink_reservation-IsExact l h b e)
perform_refines m l (finishes h keeps) e =
    (finish_refines l h keeps, refl, finish_copy-IsExact l h keeps e)
perform_refines m l (discards id) e = (discard_refines l id, refl, release_discarded-IsExact l id e)

perform_all_refines :
    (m : Limits) (l : Capacity) (qs : List Request)
    → IsExact l
    → (claims_of (perform_all m l qs).0 ≡ (allow_all m (claims_of l) qs).0)
      × ((perform_all m l qs).1 ≡ (allow_all m (claims_of l) qs).1)
      × IsExact (perform_all m l qs).0
unfolding perform_all allow_all
perform_all_refines m l [] e = (refl, refl, e)
perform_all_refines m l (q ∷ qs) e =
    let (s, b, x) = perform_refines m l q e in
    let (ss, bs, xs) = perform_all_refines m (perform m l q).0 qs x in
    (ss ∙ ap (λ t. (allow_all m t qs).0) s, cons b (bs ∙ ap (λ t. (allow_all m t qs).1) s), xs)
  where
    cons : {a b : Bool} {xs ys : List Bool} → a ≡ b → xs ≡ ys → (a ∷ xs) ≡ (b ∷ ys)
    cons e es = cc

-- After any requests on a new ledger, its reservations and its answers are those of a ledger that has
-- no counters and sums its reservations anew at each request; and its counters are exact: the count,
-- the bytes and the stage permits are those of the reservations that are left, every consumer is
-- billed for just its own, and a consumer has an entry exactly while it has a reservation.
pub perform_all_refines_claims :
    (m : Limits) (qs : List Request)
    → (claims_of (perform_all m no_reservations qs).0
        ≡ (allow_all m (record { claims = []; next = 0 }) qs).0)
      × ((perform_all m no_reservations qs).1
          ≡ (allow_all m (record { claims = []; next = 0 }) qs).1)
      × IsExact (perform_all m no_reservations qs).0
unfolding no_reservations
perform_all_refines_claims m qs = perform_all_refines m no_reservations qs no_reservations-IsExact
