-- ===== src/Artifacts/Capacity/Billed.antt =====
-- The map of consumers of artifacts/store.ts against the reservations.
use browse_gateway.Base.{
  ℕ, ◌-◌, ◌<◌, ◌≡◌, refl, some, List, [], ◌∷◌, ◌++◌, arith, ltb, find?, Option-cases, inl, inr,
}
use browse_gateway.Base.Totals.{replace, erase, total, total-append, total-replace, total-erase}
use browse_gateway.Artifacts.Capacity.{
  Reservation, Usage, max_artifact_bytes, is_id, is_usage_of, usage_of, set_usage, charge, charged,
  less_bytes, refund, with_bytes,
}
use browse_gateway.Artifacts.Capacity.Entries.{has_usage, find-set_usage, find-charge, find-refund}
use browse_gateway.Artifacts.Capacity.Claims.{one, bytes_of, owned_by, new_claim}

-- What the map of consumers has for the consumer is what its reservations come to.
pub record IsBilled (us : List Usage) (rs : List Reservation) (c : ℕ) : Type 0 where
  pub counts : (usage_of c us).count ≡ total (owned_by c one) rs
  pub weighs : (usage_of c us).bytes ≡ total (owned_by c bytes_of) rs
  pub shows : has_usage c us ≡ ltb 0 (total (owned_by c one) rs)

usage_of-consumer_id : (us : List Usage) (c : ℕ) → (usage_of c us).consumer_id ≡ c
usage_of-consumer_id [] c = refl
usage_of-consumer_id (u ∷ us) c = ground (arith, usage_of-consumer_id us c)

pub admit-IsBilled :
    (us : List Usage) (rs : List Reservation) (t id c d : ℕ)
    → IsBilled us rs d
    → IsBilled
        (set_usage (charged max_artifact_bytes (usage_of c us)) us)
        (rs ++ new_claim t id c ∷ [])
        d
unfolding total
admit-IsBilled us rs t id c d b =
    let u = charged max_artifact_bytes (usage_of c us) in
    let made = new_claim t id c ∷ [] in
    record {
      counts = ground (
        arith,
        find-set_usage d u us,
        usage_of-consumer_id us c,
        total-append (owned_by d one) rs made,
      );
      weighs = ground (
        arith,
        find-set_usage d u us,
        usage_of-consumer_id us c,
        total-append (owned_by d bytes_of) rs made,
      );
      shows = ground (
        arith,
        find-set_usage d u us,
        usage_of-consumer_id us c,
        total-append (owned_by d one) rs made,
      );
    }

weightless :
    (c : ℕ) (rs : List Reservation)
    → total (owned_by c one) rs ≡ 0
    → total (owned_by c bytes_of) rs ≡ 0
unfolding total
weightless c [] h = refl
weightless c (r ∷ rs) h = ground (arith, weightless c rs)

module _ (us : List Usage) (rs : List Reservation) (r : Reservation)
    (found : find? (is_id r.id) rs ≡ some r) where
  -- The consumer of a reservation has an entry.
  entry_of :
      IsBilled us rs r.consumer_id → (u : Usage) × (find? (is_usage_of r.consumer_id) us ≡ some u)
  entry_of b = elim (Option-cases (find? (is_usage_of r.consumer_id) us)) [
    | inl none_there ↦
        absurd (
          ground (arith, b.shows, total-erase (owned_by r.consumer_id one) (is_id r.id) rs r found))
    | inr there ↦ there
  ]

  pub shrink-IsBilled :
      (n d : ℕ)
      → n < r.bytes
      → IsBilled us rs r.consumer_id
      → IsBilled us rs d
      → IsBilled
          (charge r.consumer_id (less_bytes (r.bytes - n)) us)
          (replace (is_id r.id) (with_bytes n) rs)
          d
  shrink-IsBilled n d lt own b =
      let (u, there) = entry_of own in
      let moved = find-charge r.consumer_id (less_bytes (r.bytes - n)) (λ v. refl) d us u there in
      record {
        counts =
            ground
              (arith, moved, total-replace (owned_by d one) (is_id r.id) (with_bytes n) rs r found);
        weighs = ground (
          arith,
          moved,
          total-replace (owned_by d bytes_of) (is_id r.id) (with_bytes n) rs r found,
        );
        shows =
            ground
              (arith, moved, total-replace (owned_by d one) (is_id r.id) (with_bytes n) rs r found);
      }

  pub refund-IsBilled :
      (d : ℕ)
      → IsBilled us rs r.consumer_id
      → IsBilled us rs d
      → IsBilled (refund r.consumer_id r.bytes us) (erase (is_id r.id) rs) d
  refund-IsBilled d own b =
      let (u, there) = entry_of own in
      let moved = find-refund r.consumer_id r.bytes d us u there in
      record {
        counts = ground (arith, moved, total-erase (owned_by d one) (is_id r.id) rs r found);
        weighs = ground (arith, moved, total-erase (owned_by d bytes_of) (is_id r.id) rs r found);
        shows = ground (
          arith,
          moved,
          total-erase (owned_by d one) (is_id r.id) rs r found,
          total-erase (owned_by d bytes_of) (is_id r.id) rs r found,
          weightless d (erase (is_id r.id) rs),
        );
      }
