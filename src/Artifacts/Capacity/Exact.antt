-- ===== src/Artifacts/Capacity/Exact.antt =====
-- The counters of the reservation ledger of artifacts/store.ts against its reservations.
use browse_gateway.Base.{
  ℕ, ◌≡◌, refl, sym, subst, Bool, false, ◌||◌, some, List, [], ◌∷◌, arith, leb, if◌then◌else◌,
  if_cases, is_some, find?,
}
use browse_gateway.Base.Totals.{
  replace, total, find-replace, total-append, total-replace, total-erase,
}
use browse_gateway.Artifacts.Capacity.{
  Limits, Reservation, Capacity, Handle, no_reservations, max_stage_copies, is_id, reservation_of,
  admits, admit, reserve, held, with_bytes, staged, shrink_by, shrink_reservation, unstage,
  release_stage, release_held, release_reservation, finish_copy, release_discarded,
}
use browse_gateway.Artifacts.Capacity.Claims.{one, bytes_of, in_stage, owned_by, new_claim}
use browse_gateway.Artifacts.Capacity.Held.{held-id, held-found, option_cases, if_held_cases}
use browse_gateway.Artifacts.Capacity.Billed.{
  IsBilled, admit-IsBilled, shrink-IsBilled, refund-IsBilled,
}

pub record IsExact (l : Capacity) : Type 0 where
  pub counted : l.ledger_count ≡ total one l.reservations
  pub weighed : l.ledger_bytes ≡ total bytes_of l.reservations
  pub permitted : l.stage_permits ≡ total in_stage l.reservations
  pub billed : (c : ℕ) → IsBilled l.consumers l.reservations c

pub no_reservations-IsExact : IsExact no_reservations
unfolding no_reservations total
no_reservations-IsExact = record {
  counted = refl;
  weighed = refl;
  permitted = refl;
  billed = λ c. record { counts = refl; weighs = refl; shows = refl };
}

pub admit-IsExact : (l : Capacity) (id c : ℕ) → IsExact l → IsExact (admit l id c)
unfolding admit total
admit-IsExact l id c e =
    let made = new_claim l.next id c ∷ [] in
    record {
      counted = omega (arith, e.counted, total-append one l.reservations made);
      weighed = omega (arith, e.weighed, total-append bytes_of l.reservations made);
      permitted = ground (arith, e.permitted, total-append in_stage l.reservations made);
      billed = λ d. admit-IsBilled l.consumers l.reservations l.next id c d (e.billed d);
    }

module _ (l : Capacity) (r : Reservation) (found : find? (is_id r.id) l.reservations ≡ some r)
    (e : IsExact l) where
  shrink_by-IsExact : (n : ℕ) → IsExact (shrink_by l n r)
  unfolding shrink_by
  shrink_by-IsExact n =
      if_cases IsExact (leb r.bytes n) _ _ (λ enough. e)
        (λ more. record {
          counted = omega (
            arith,
            e.counted,
            total-replace one (is_id r.id) (with_bytes n) l.reservations r found,
          );
          weighed = ground (
            arith,
            e.weighed,
            total-replace bytes_of (is_id r.id) (with_bytes n) l.reservations r found,
          );
          permitted = ground (
            arith,
            e.permitted,
            total-replace in_stage (is_id r.id) (with_bytes n) l.reservations r found,
          );
          billed = λ d.
              shrink-IsBilled l.consumers l.reservations r found n d (ground arith)
                (e.billed r.consumer_id) (e.billed d);
        })

  unstage-IsExact : IsExact (unstage l r)
  unfolding unstage
  unstage-IsExact =
      if_cases IsExact r.staging _ _
        (λ on. record {
          counted =
              omega
                (arith, e.counted, total-replace one (is_id r.id) staged l.reservations r found);
          weighed =
              omega (
                arith,
                e.weighed,
                total-replace bytes_of (is_id r.id) staged l.reservations r found,
              );
          permitted = ground (
            arith,
            e.permitted,
            total-replace in_stage (is_id r.id) staged l.reservations r found,
          );
          billed = λ d. unstaged-IsBilled d (e.billed d);
        })
        (λ off. e)
    where
      unstaged-IsBilled :
          (d : ℕ)
          → IsBilled l.consumers l.reservations d
          → IsBilled l.consumers (replace (is_id r.id) staged l.reservations) d
      unstaged-IsBilled d b =
          let c = total-replace (owned_by d one) (is_id r.id) staged l.reservations r found in
          record {
            counts = omega (arith, b.counts, c);
            weighs = omega (
              arith,
              b.weighs,
              total-replace (owned_by d bytes_of) (is_id r.id) staged l.reservations r found,
            );
            shows = ground (arith, b.shows, c);
          }

  release_held-IsExact : r.staging ≡ false → IsExact (release_held l r)
  unfolding release_held
  release_held-IsExact off = record {
    counted = omega (arith, e.counted, total-erase one (is_id r.id) l.reservations r found);
    weighed = omega (arith, e.weighed, total-erase bytes_of (is_id r.id) l.reservations r found);
    permitted =
        ground (arith, e.permitted, total-erase in_stage (is_id r.id) l.reservations r found);
    billed = λ d.
        refund-IsBilled l.consumers l.reservations r found d (e.billed r.consumer_id) (e.billed d);
  }

pub shrink_reservation-IsExact :
    (l : Capacity) (h : Handle) (n : ℕ) → IsExact l → IsExact (shrink_reservation l h n)
unfolding shrink_reservation
shrink_reservation-IsExact l h n e =
    if_held_cases IsExact h l.reservations l (λ r. shrink_by l n r) e
      λ r k found. shrink_by-IsExact l r found e n

release_stage-IsExact : (l : Capacity) (h : Handle) → IsExact l → IsExact (release_stage l h)
unfolding release_stage
release_stage-IsExact l h e =
    if_held_cases IsExact h l.reservations l (λ r. unstage l r) e
      λ r k found. unstage-IsExact l r found e

-- The map holds no object of the handle that is still staged.
abbrev IsUnstaged : Handle → List Reservation → Type 0
IsUnstaged h rs = (r : Reservation) → held h rs ≡ some r → r.staging ≡ false

release_stage-IsUnstaged :
    (l : Capacity) (h : Handle) → IsUnstaged h (release_stage l h).reservations
unfolding release_stage unstage
release_stage-IsUnstaged l h =
    option_cases (λ l'. IsUnstaged h l'.reservations) (held h l.reservations) l (λ r. unstage l r)
      (λ stale r k. cc)
      (λ r k.
        if_cases {A = Capacity} (λ l'. IsUnstaged h l'.reservations) r.staging _ _
          (λ on r' k'. unstaged r r' (held-id h l.reservations r k) k')
          (λ off r' k'. kept r r' k off k'))
  where
    kept :
        (r r' : Reservation)
        → held h l.reservations ≡ some r
        → r.staging ≡ false
        → held h l.reservations ≡ some r'
        → r'.staging ≡ false
    kept r r' k off k' = cc

    unstaged :
        (r r' : Reservation)
        → r.id ≡ h.id
        → held h (replace (is_id r.id) staged l.reservations) ≡ some r'
        → r'.staging ≡ false
    unstaged r r' e k =
        let there = held-found h (replace (is_id r.id) staged l.reservations) r' k in
        let moved =
          find-replace (is_id r.id) staged (λ x. refl) l.reservations r'
            (subst (λ i. find? (is_id i) (replace (is_id r.id) staged l.reservations) ≡ some r')
              (sym e) there) in
        ground (arith, moved.2)

release_reservation-IsExact :
    (l : Capacity) (h : Handle)
    → IsUnstaged h l.reservations
    → IsExact l
    → IsExact (release_reservation l h)
unfolding release_reservation
release_reservation-IsExact l h off e =
    if_held_cases IsExact h l.reservations l (λ r. release_held l r) e
      λ r k found. release_held-IsExact l r found e (off r k)

pub finish_copy-IsExact :
    (l : Capacity) (h : Handle) (keeps : Bool) → IsExact l → IsExact (finish_copy l h keeps)
unfolding finish_copy
finish_copy-IsExact l h keeps e =
    if_cases IsExact keeps _ _ (λ kept. release_stage-IsExact l h e)
      (λ gone.
        release_reservation-IsExact (release_stage l h) h (release_stage-IsUnstaged l h)
          (release_stage-IsExact l h e))

pub release_discarded-IsExact :
    (l : Capacity) (id : ℕ) → IsExact l → IsExact (release_discarded l id)
unfolding release_discarded
release_discarded-IsExact l id e =
    option_cases IsExact (reservation_of id l.reservations) l
      (λ r. if r.staging then l else release_reservation l (record { token = r.token; id = id }))
      (λ absent. e)
      (λ r k.
        if_cases IsExact r.staging _ _ (λ on. e)
          (λ off.
            release_reservation-IsExact l (record { token = r.token; id = id })
              (λ r' k'.
                same r r' k off
                  (held-found (record { token = r.token; id = id }) l.reservations r' k'))
              e))
  where
    same :
        (r r' : Reservation)
        → find? (is_id id) l.reservations ≡ some r
        → r.staging ≡ false
        → find? (is_id id) l.reservations ≡ some r'
        → r'.staging ≡ false
    same r r' k off k' = cc

pub reserve-IsExact :
    (m : Limits) (l : Capacity) (id c : ℕ) → IsExact l → IsExact (reserve m l id c).0
unfolding reserve
reserve-IsExact m l id c e =
    if_cases {A = Capacity × Bool} (λ a. IsExact a.0)
      (is_some (reservation_of id l.reservations) || leb max_stage_copies l.stage_permits) _ _
      (λ taken. e)
      (λ free.
        if_cases {A = Capacity × Bool} (λ a. IsExact a.0) (admits m l c) _ _
          (λ room. admit-IsExact l id c e) (λ full. e))
