-- ===== src/Artifacts/Capacity/Found.antt =====
-- The reservation at each identifier, after each operation of the ledger of artifacts/store.ts.
use browse_gateway.Base.{
  ℕ, ◌-◌, ◌≤◌, ◌≡◌, refl, sym, subst, ap, ◌∙◌, Bool, true, false, ◌||◌, Option, none, some, List,
  [], ◌∷◌, ◌++◌, arith, leb, ◌==◌, if◌then◌else◌, if_cases, is_some,
}
use browse_gateway.Base.Totals.{replace, erase, total, total-append, total-replace}
use browse_gateway.Artifacts.Capacity.{
  Limits, Reservation, Capacity, Handle, max_stage_copies, is_id, reservation_of, held, if_held,
  admits, charge, less_bytes, with_bytes, staged, admit, reserve, shrink_by, shrink_reservation,
  unstage, release_stage, release_held, release_reservation, finish_copy, release_discarded,
}
use browse_gateway.Artifacts.Capacity.Claims.{new_claim}

abbrev pub one_at : ℕ → Reservation → ℕ
one_at id r = if r.id == id then 1 else 0

-- No two reservations of the map have one identifier.
abbrev pub IsMap : List Reservation → Type 0
IsMap rs = (id : ℕ) → total (one_at id) rs ≤ 1

abbrev first_of : Option Reservation → Option Reservation → Option Reservation
first_of none b = b
first_of (some a) b = some a

pub find-snoc :
    (j : ℕ) (rs : List Reservation) (r : Reservation)
    → reservation_of j (rs ++ r ∷ [])
      ≡ first_of (reservation_of j rs) (if r.id == j then some r else none)
find-snoc j [] r = refl
find-snoc j (x ∷ rs) r = ground (arith, find-snoc j rs r)

total-none : (j : ℕ) (rs : List Reservation) → total (one_at j) rs ≡ 0 → reservation_of j rs ≡ none
unfolding total
total-none j [] h = refl
total-none j (x ∷ rs) h = ground (arith, total-none j rs)

none-total : (j : ℕ) (rs : List Reservation) → reservation_of j rs ≡ none → total (one_at j) rs ≡ 0
unfolding total
none-total j [] h = refl
none-total j (x ∷ rs) h = ground (arith, none-total j rs)

pub erase-other :
    (i j : ℕ) (rs : List Reservation)
    → (i == j) ≡ false
    → reservation_of j (erase (is_id i) rs) ≡ reservation_of j rs
unfolding erase
erase-other i j [] e = refl
erase-other i j (x ∷ rs) e = ground (arith, erase-other i j rs)

pub erase_self :
    (i : ℕ) (rs : List Reservation)
    → total (one_at i) rs ≤ 1
    → reservation_of i (erase (is_id i) rs) ≡ none
unfolding erase total
erase_self i [] u = refl
erase_self i (x ∷ rs) u = ground (arith, total-none i rs, erase_self i rs)

module _ (g : Reservation → Reservation) (same : (x : Reservation) → (g x).id ≡ x.id) where
  pub replace-other :
      (i j : ℕ) (rs : List Reservation)
      → (i == j) ≡ false
      → reservation_of j (replace (is_id i) g rs) ≡ reservation_of j rs
  unfolding replace
  replace-other i j [] e = refl
  replace-other i j (x ∷ rs) e = ground (arith, same x, replace-other i j rs)

  pub replace_self :
      (i : ℕ) (rs : List Reservation) (v : Reservation)
      → reservation_of i rs ≡ some v
      → reservation_of i (replace (is_id i) g rs) ≡ some (g v)
  unfolding replace
  replace_self i [] v h = ground arith
  replace_self i (x ∷ rs) v h = ground (arith, same x, replace_self i rs v)

  pub replace-IsMap :
      (i : ℕ) (rs : List Reservation) (v : Reservation)
      → reservation_of i rs ≡ some v
      → IsMap rs
      → IsMap (replace (is_id i) g rs)
  replace-IsMap i rs v h u id =
      ground (arith, u id, same v, total-replace (one_at id) (is_id i) g rs v h)

erase-le :
    (i id : ℕ) (rs : List Reservation)
    → total (one_at id) (erase (is_id i) rs) ≤ total (one_at id) rs
unfolding erase total
erase-le i id [] = omega arith
erase-le i id (x ∷ rs) = ground (arith, erase-le i id rs)

pub erase-IsMap : (i : ℕ) (rs : List Reservation) → IsMap rs → IsMap (erase (is_id i) rs)
erase-IsMap i rs u id = omega (arith, u id, erase-le i id rs)

found-id :
    (i : ℕ) (rs : List Reservation) (v : Reservation) → reservation_of i rs ≡ some v → v.id ≡ i
found-id i [] v h = ground arith
found-id i (x ∷ rs) v h = ground (arith, found-id i rs v)

same_total :
    (i id : ℕ) (rs : List Reservation) → i ≡ id → total (one_at i) rs ≡ total (one_at id) rs
same_total i id rs e = rw e refl

-- The reservations after an operation at an identifier: the map is one, the others are as before, and
-- at the identifier is what is said.
pub record ChangesAt (i : ℕ) (rs rs' : List Reservation) (o : Option Reservation) : Type 0 where
  pub is_map : IsMap rs'
  pub there : reservation_of i rs' ≡ o
  pub others : (j : ℕ) → (i == j) ≡ false → reservation_of j rs' ≡ reservation_of j rs

pub reserve-ChangesAt :
    (m : Limits) (l : Capacity) (i c : ℕ)
    → IsMap l.reservations
    → (reserve m l i c).1 ≡ true
    → ChangesAt i l.reservations (reserve m l i c).0.reservations (some (new_claim l.next i c))
unfolding reserve admit
reserve-ChangesAt m l i c u =
    if_cases {A = Capacity × Bool} P
      (is_some (reservation_of i l.reservations) || leb max_stage_copies l.stage_permits) _ _
      (λ taken e. absurd (cc e))
      λ free.
        if_cases {A = Capacity × Bool} P (admits m l c) _ _
          (λ room e. record {
            is_map = snoc-IsMap (ground (arith, free));
            there = ground (arith, find-snoc i l.reservations (new_claim l.next i c), free);
            others = λ j d. ground (arith, find-snoc j l.reservations (new_claim l.next i c), d);
          })
          (λ full e. absurd (cc e))
  where
    P : Capacity × Bool → Type 0
    P a = a.1 ≡ true → ChangesAt i l.reservations a.0.reservations (some (new_claim l.next i c))

    snoc-IsMap :
        is_some (reservation_of i l.reservations) ≡ false
        → IsMap (l.reservations ++ new_claim l.next i c ∷ [])
    snoc-IsMap free id =
        unfold total in
        ground (
          arith,
          u id,
          free,
          none-total i l.reservations,
          total-append (one_at id) l.reservations (new_claim l.next i c ∷ []),
          same_total i id l.reservations,
        )

module _ (l : Capacity) (i : ℕ) (v : Reservation) (found : reservation_of i l.reservations ≡ some v)
    (u : IsMap l.reservations) where
  abbrev handle : Handle
  handle = record { token = v.token; id = i }

  held_self : held handle l.reservations ≡ some v
  held_self = ground (arith, found)

  same-ChangesAt : ChangesAt i l.reservations l.reservations (some v)
  same-ChangesAt = record { is_map = u; there = found; others = λ j e. refl }

  replaced-ChangesAt :
      (g : Reservation → Reservation)
      → ((x : Reservation) → (g x).id ≡ x.id)
      → ChangesAt i l.reservations (replace (is_id v.id) g l.reservations) (some (g v))
  replaced-ChangesAt g same =
      subst (λ k. ChangesAt i l.reservations (replace (is_id k) g l.reservations) (some (g v)))
        (sym (found-id i l.reservations v found))
        (record {
          is_map = replace-IsMap g same i l.reservations v found u;
          there = replace_self g same i l.reservations v found;
          others = λ j e. replace-other g same i j l.reservations e;
        })

  pub shrink-ChangesAt :
      (b : ℕ)
      → ChangesAt i l.reservations
          (shrink_reservation l handle b).reservations
          (some (if leb v.bytes b then v else with_bytes b v))
  unfolding shrink_reservation shrink_by
  shrink-ChangesAt b =
      subst
        (λ o.
          ChangesAt i l.reservations (if_held o l (λ r. shrink_by l b r)).reservations
            (some (if leb v.bytes b then v else with_bytes b v)))
        (sym held_self) (both (leb v.bytes b))
    where
      both :
          (t : Bool)
          → ChangesAt i l.reservations
              (if t then l else record l {
                reservations = replace (is_id v.id) (with_bytes b) l.reservations;
                ledger_bytes = l.ledger_bytes - (v.bytes - b);
                consumers = charge v.consumer_id (less_bytes (v.bytes - b)) l.consumers;
              }).reservations
              (some (if t then v else with_bytes b v))
      both true = same-ChangesAt
      both false = replaced-ChangesAt (with_bytes b) (λ x. refl)

  release_stage-ChangesAt :
      ChangesAt i l.reservations (release_stage l handle).reservations (some (staged v))
  unfolding release_stage unstage
  release_stage-ChangesAt =
      subst
        (λ o.
          ChangesAt i l.reservations (if_held o l (λ r. unstage l r)).reservations
            (some (staged v)))
        (sym held_self)
        (if_cases {A = Capacity}
          (λ l'. ChangesAt i l.reservations l'.reservations (some (staged v))) v.staging _ _
          (λ on. replaced-ChangesAt staged (λ x. refl))
          (λ off.
            subst (λ w. ChangesAt i l.reservations l.reservations (some w)) (settled off)
              same-ChangesAt))
    where
      settled : v.staging ≡ false → v ≡ staged v
      settled off = ground (arith, off)

  pub release_reservation-ChangesAt :
      ChangesAt i l.reservations (release_reservation l handle).reservations none
  unfolding release_reservation release_held
  release_reservation-ChangesAt =
      subst
        (λ o. ChangesAt i l.reservations (if_held o l (λ r. release_held l r)).reservations none)
        (sym held_self)
        (subst (λ k. ChangesAt i l.reservations (erase (is_id k) l.reservations) none)
          (sym (found-id i l.reservations v found))
          (record {
            is_map = erase-IsMap i l.reservations u;
            there = erase_self i l.reservations (u i);
            others = λ j e. erase-other i j l.reservations e;
          }))

  pub release_discarded-staged-ChangesAt :
      v.staging ≡ true → ChangesAt i l.reservations (release_discarded l i).reservations (some v)
  unfolding release_discarded
  release_discarded-staged-ChangesAt on =
      subst
        (λ o.
          ChangesAt i l.reservations
            (if_held o l λ r.
              if r.staging
              then l
              else release_reservation l (record { token = r.token; id = i })).reservations
            (some v))
        (sym found)
        (if_cases {A = Capacity} (λ l'. ChangesAt i l.reservations l'.reservations (some v))
          v.staging _ _ (λ _. same-ChangesAt) (λ off. absurd (cc (on, off))))

  pub release_discarded-gone-ChangesAt :
      v.staging ≡ false → ChangesAt i l.reservations (release_discarded l i).reservations none
  unfolding release_discarded
  release_discarded-gone-ChangesAt off =
      subst
        (λ o.
          ChangesAt i l.reservations
            (if_held o l λ r.
              if r.staging
              then l
              else release_reservation l (record { token = r.token; id = i })).reservations
            none)
        (sym found)
        (if_cases {A = Capacity} (λ l'. ChangesAt i l.reservations l'.reservations none) v.staging _
          _ (λ on. absurd (cc (on, off))) (λ _. release_reservation-ChangesAt))

pub release_discarded-absent :
    (l : Capacity) (i : ℕ) → reservation_of i l.reservations ≡ none → release_discarded l i ≡ l
unfolding release_discarded
release_discarded-absent l i e =
    ap
      (λ o.
        if_held o l
          λ r. if r.staging then l else release_reservation l (record { token = r.token; id = i }))
      e

-- The end of a capture.
pub finish_copy-ChangesAt :
    (l : Capacity) (i : ℕ) (v : Reservation) (keeps : Bool)
    → reservation_of i l.reservations ≡ some v
    → IsMap l.reservations
    → ChangesAt i l.reservations
        (finish_copy l (record { token = v.token; id = i }) keeps).reservations
        (if keeps then some (staged v) else none)
unfolding finish_copy
finish_copy-ChangesAt l i v true found u = release_stage-ChangesAt l i v found u
finish_copy-ChangesAt l i v false found u =
    let a = release_stage-ChangesAt l i v found u in
    let b =
      release_reservation-ChangesAt (release_stage l (record { token = v.token; id = i })) i
        (staged v) a.there a.is_map in
    record { is_map = b.is_map; there = b.there; others = λ j e. b.others j e ∙ a.others j e }
