-- ===== src/Artifacts/Capacity/Claims.antt =====
-- The reservation ledger of artifacts/store.ts with no counters: what it admits is decided from the
-- reservations themselves.
use browse_gateway.Base.{
  ℕ, ◌+◌, Bool, true, false, ◌&&◌, not, List, [], ◌∷◌, ◌++◌, ltb, leb, ◌==◌, if◌then◌else◌, is_some,
}
use browse_gateway.Base.Totals.{replace, erase, total}
use browse_gateway.Artifacts.Capacity.{
  Limits, Reservation, Handle, max_artifact_bytes, max_stage_copies, is_id, reservation_of, held,
  if_held, with_bytes, staged,
}

abbrev pub one : Reservation → ℕ
one r = 1

abbrev pub bytes_of : Reservation → ℕ
bytes_of r = r.bytes

abbrev pub in_stage : Reservation → ℕ
in_stage r = if r.staging then 1 else 0

abbrev pub owned_by : ℕ → (Reservation → ℕ) → Reservation → ℕ
owned_by c f r = if r.consumer_id == c then f r else 0

pub record Claims : Type 0 where
  pub claims : List Reservation
  pub next : ℕ

abbrev pub fits : Limits → List Reservation → ℕ → Bool
fits m rs c =
    leb (total one rs + 1) m.max_count
    && leb (total (owned_by c one) rs + 1) m.per_consumer_count
    && leb (total bytes_of rs + max_artifact_bytes) m.max_bytes
    && leb (total (owned_by c bytes_of) rs + max_artifact_bytes) m.per_consumer_bytes

abbrev pub new_claim : ℕ → ℕ → ℕ → Reservation
new_claim t id c = record {
  token = t;
  id = id;
  consumer_id = c;
  bytes = max_artifact_bytes;
  staging = true;
}

unfoldable pub claim : Limits → Claims → ℕ → ℕ → Claims × Bool
unfolding total
claim m s id c =
    if not (is_some (reservation_of id s.claims))
      && ltb (total in_stage s.claims) max_stage_copies
      && fits m s.claims c
    then (record { claims = s.claims ++ new_claim s.next id c ∷ []; next = s.next + 1 }, true)
    else (s, false)

-- A change of the claim that the handle stands for; a stale handle stands for none.
abbrev pub on_claim : Claims → Handle → (Reservation → List Reservation) → Claims
on_claim s h f = if_held (held h s.claims) s λ r. record s { claims = f r }

unfoldable pub shrink_claim : Claims → Handle → ℕ → Claims
unfolding replace
shrink_claim s h b =
    on_claim s h
      λ r. if leb r.bytes b then s.claims else replace (is_id r.id) (with_bytes b) s.claims

unfoldable pub stage_out : Claims → Handle → Claims
unfolding replace
stage_out s h =
    on_claim s h λ r. if r.staging then replace (is_id r.id) staged s.claims else s.claims

unfoldable pub end_claim : Claims → Handle → Claims
unfolding erase
end_claim s h = on_claim s h λ r. erase (is_id r.id) s.claims

unfoldable pub finish_claim : Claims → Handle → Bool → Claims
finish_claim s h keeps = let s' = stage_out s h in if keeps then s' else end_claim s' h

unfoldable pub discard_claim : Claims → ℕ → Claims
discard_claim s id =
    if_held (reservation_of id s.claims) s
      λ r. if r.staging then s else end_claim s (record { token = r.token; id = id })

-- What the store asks of its ledger.
pub data Request : Type 0 where
  reserves : ℕ → ℕ → Request
  shrinks : Handle → ℕ → Request
  finishes : Handle → Bool → Request
  discards : ℕ → Request

-- The claims after a request, and whether it was granted.
unfoldable pub allow : Limits → Claims → Request → Claims × Bool
allow m s (reserves id c) = claim m s id c
allow m s (shrinks h b) = (shrink_claim s h b, true)
allow m s (finishes h keeps) = (finish_claim s h keeps, true)
allow m s (discards id) = (discard_claim s id, true)

unfoldable pub allow_all : Limits → Claims → List Request → Claims × List Bool
allow_all m s [] = (s, [])
allow_all m s (q ∷ qs) =
    let after = allow m s q in let rest = allow_all m after.0 qs in (rest.0, after.1 ∷ rest.1)
