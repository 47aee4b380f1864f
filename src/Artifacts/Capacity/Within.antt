-- ===== src/Artifacts/Capacity/Within.antt =====
-- The limits of the reservation ledger of artifacts/store.ts.
use browse_gateway.Base.{
  ℕ, ◌≤◌, ◌≡◌, refl, sym, subst, Bool, true, some, List, [], ◌∷◌, ◌++◌, arith, ltb, leb, if_cases,
  find?,
}
use browse_gateway.Base.Totals.{replace, erase, total, total-append, total-replace, total-erase}
use browse_gateway.Artifacts.Capacity.{
  Limits, Reservation, Capacity, Handle, no_reservations, max_stage_copies, is_id, reservation_of,
  with_bytes, staged, usage_of,
}
use browse_gateway.Artifacts.Capacity.Claims.{
  one, bytes_of, in_stage, owned_by, Claims, fits, new_claim, claim, shrink_claim, stage_out,
  end_claim, finish_claim, discard_claim, Request, reserves, shrinks, finishes, discards, allow,
  allow_all,
}
use browse_gateway.Artifacts.Capacity.Held.{option_cases, if_held_cases}
use browse_gateway.Artifacts.Capacity.Billed.{IsBilled}
use browse_gateway.Artifacts.Capacity.Exact.{IsExact}
use browse_gateway.Artifacts.Capacity.Refine.{perform_all, perform_all_refines_claims}

-- What a consumer has is within its share.
pub record IsWithinShare (m : Limits) (rs : List Reservation) (c : ℕ) : Type 0 where
  pub counts : total (owned_by c one) rs ≤ m.per_consumer_count
  pub weighs : total (owned_by c bytes_of) rs ≤ m.per_consumer_bytes

pub record IsWithin (m : Limits) (rs : List Reservation) : Type 0 where
  pub counts : total one rs ≤ m.max_count
  pub weighs : total bytes_of rs ≤ m.max_bytes
  pub stages : total in_stage rs ≤ max_stage_copies
  pub shares : (c : ℕ) → IsWithinShare m rs c

module _ (m : Limits) (rs : List Reservation) (w : IsWithin m rs) where
  claim-IsWithinShare :
      (t id c d : ℕ)
      → fits m rs c ≡ true
      → IsWithinShare m rs d
      → IsWithinShare m (rs ++ new_claim t id c ∷ []) d
  unfolding total
  claim-IsWithinShare t id c d room v =
      let made = new_claim t id c ∷ [] in
      record {
        counts = ground (arith, v.counts, total-append (owned_by d one) rs made);
        weighs = ground (arith, v.weighs, total-append (owned_by d bytes_of) rs made);
      }

  claim-IsWithin :
      (t id c : ℕ)
      → ltb (total in_stage rs) max_stage_copies ≡ true
      → fits m rs c ≡ true
      → IsWithin m (rs ++ new_claim t id c ∷ [])
  unfolding total
  claim-IsWithin t id c permit room =
      let made = new_claim t id c ∷ [] in
      record {
        counts = ground (arith, total-append one rs made);
        weighs = ground (arith, total-append bytes_of rs made);
        stages = ground (arith, total-append in_stage rs made);
        shares = λ d. claim-IsWithinShare t id c d room (w.shares d);
      }

  module _ (r : Reservation) (found : find? (is_id r.id) rs ≡ some r) where
    -- A change that gives a reservation no more bytes.
    replace-IsWithin :
        (g : Reservation → Reservation)
        → ((x : Reservation) → (g x).consumer_id ≡ x.consumer_id)
        → (g r).bytes ≤ r.bytes
        → in_stage (g r) ≤ in_stage r
        → IsWithin m (replace (is_id r.id) g rs)
    replace-IsWithin g same less calm = record {
      counts = omega (arith, w.counts, total-replace one (is_id r.id) g rs r found);
      weighs = omega (arith, w.weighs, total-replace bytes_of (is_id r.id) g rs r found);
      stages = omega (arith, w.stages, total-replace in_stage (is_id r.id) g rs r found);
      shares = λ d. share d (w.shares d);
    }
      where
        share : (d : ℕ) → IsWithinShare m rs d → IsWithinShare m (replace (is_id r.id) g rs) d
        share d v = record {
          counts =
              ground
                (arith, v.counts, same r, total-replace (owned_by d one) (is_id r.id) g rs r found);
          weighs = ground (
            arith,
            v.weighs,
            same r,
            total-replace (owned_by d bytes_of) (is_id r.id) g rs r found,
          );
        }

    erase-IsWithin : IsWithin m (erase (is_id r.id) rs)
    erase-IsWithin = record {
      counts = omega (arith, w.counts, total-erase one (is_id r.id) rs r found);
      weighs = omega (arith, w.weighs, total-erase bytes_of (is_id r.id) rs r found);
      stages = omega (arith, w.stages, total-erase in_stage (is_id r.id) rs r found);
      shares = λ d. share d (w.shares d);
    }
      where
        share : (d : ℕ) → IsWithinShare m rs d → IsWithinShare m (erase (is_id r.id) rs) d
        share d v = record {
          counts = omega (arith, v.counts, total-erase (owned_by d one) (is_id r.id) rs r found);
          weighs =
              omega (arith, v.weighs, total-erase (owned_by d bytes_of) (is_id r.id) rs r found);
        }

module _ (m : Limits) where
  abbrev Within : Claims → Type 0
  Within s = IsWithin m s.claims

  stage_out-IsWithin : (s : Claims) (h : Handle) → Within s → Within (stage_out s h)
  unfolding stage_out
  stage_out-IsWithin s h w = if_held_cases Within h s.claims s _ w λ r k found.
      if_cases (λ rs. IsWithin m rs) r.staging _ _
        (λ on.
          replace-IsWithin m s.claims w r found staged (λ x. refl) (omega arith) (ground arith))
        (λ off. w)

  end_claim-IsWithin : (s : Claims) (h : Handle) → Within s → Within (end_claim s h)
  unfolding end_claim
  end_claim-IsWithin s h w =
      if_held_cases Within h s.claims s _ w λ r k found. erase-IsWithin m s.claims w r found

  allow-IsWithin : (s : Claims) (q : Request) → Within s → Within (allow m s q).0
  unfolding allow
  allow-IsWithin s (reserves id c) w =
      unfold claim in
      (if_cases {A = Claims × Bool} (λ a. Within a.0) _ _ _
        (λ e. claim-IsWithin m s.claims w s.next id c (ground arith) (ground arith)) (λ e. w))
  allow-IsWithin s (shrinks h b) w =
      unfold shrink_claim in
      (if_held_cases Within h s.claims s _ w λ r k found.
        if_cases (λ rs. IsWithin m rs) (leb r.bytes b) _ _ (λ enough. w)
          (λ more.
            replace-IsWithin m s.claims w r found (with_bytes b) (λ x. refl) (ground arith)
              (omega arith)))
  allow-IsWithin s (finishes h keeps) w =
      unfold finish_claim in
      (if_cases Within keeps _ _ (λ kept. stage_out-IsWithin s h w)
        (λ gone. end_claim-IsWithin (stage_out s h) h (stage_out-IsWithin s h w)))
  allow-IsWithin s (discards id) w =
      unfold discard_claim in
      (option_cases Within (reservation_of id s.claims) s _ (λ absent. w)
        λ r k.
          if_cases Within r.staging _ _ (λ on. w)
            (λ off. end_claim-IsWithin s (record { token = r.token; id = id }) w))

  allow_all-IsWithin : (s : Claims) (qs : List Request) → Within s → Within (allow_all m s qs).0
  unfolding allow_all
  allow_all-IsWithin s [] w = w
  allow_all-IsWithin s (q ∷ qs) w = allow_all-IsWithin (allow m s q).0 qs (allow-IsWithin s q w)

nothing-IsWithin : (m : Limits) → IsWithin m []
unfolding total
nothing-IsWithin m = record {
  counts = omega arith;
  weighs = omega arith;
  stages = omega arith;
  shares = λ c. record { counts = omega arith; weighs = omega arith };
}

-- The counters of a ledger, and what each consumer is billed for, are within the limits.
pub record RespectsLimits (m : Limits) (l : Capacity) : Type 0 where
  pub counts : l.ledger_count ≤ m.max_count
  pub weighs : l.ledger_bytes ≤ m.max_bytes
  pub stages : l.stage_permits ≤ max_stage_copies
  pub shares :
      (c : ℕ)
      → ((usage_of c l.consumers).count ≤ m.per_consumer_count)
        × ((usage_of c l.consumers).bytes ≤ m.per_consumer_bytes)

-- After any requests on a new ledger, the count and the bytes are within the limits, no more than two
-- stage permits are out, and no consumer is billed for more than its share of count and bytes.
pub reservations_bounded :
    (m : Limits) (qs : List Request) → RespectsLimits m (perform_all m no_reservations qs).0
reservations_bounded m qs =
    let (s, b, e) = perform_all_refines_claims m qs in
    counters (perform_all m no_reservations qs).0 e (
      subst (Within m) (sym s)
        (allow_all-IsWithin m (record { claims = []; next = 0 }) qs (nothing-IsWithin m)))
  where
    counters : (l : Capacity) → IsExact l → IsWithin m l.reservations → RespectsLimits m l
    counters l e w = record {
      counts = omega (arith, e.counted, w.counts);
      weighs = omega (arith, e.weighed, w.weighs);
      stages = omega (arith, e.permitted, w.stages);
      shares = λ c. share c (e.billed c) (w.shares c);
    }
      where
        share :
            (c : ℕ)
            → IsBilled l.consumers l.reservations c
            → IsWithinShare m l.reservations c
            → ((usage_of c l.consumers).count ≤ m.per_consumer_count)
              × ((usage_of c l.consumers).bytes ≤ m.per_consumer_bytes)
        share c b v = omega (arith, b.counts, b.weighs, v.counts, v.weighs)
