-- ===== src/Artifacts/Capacity/Held.antt =====
-- The reservation objects that the map of artifacts/store.ts holds.
use browse_gateway.Base.{◌≡◌, refl, Option, none, some, List, [], ◌∷◌, arith, find?}
use browse_gateway.Artifacts.Capacity.{Reservation, Handle, is_id, held, if_held}

pub held-id :
    (h : Handle) (rs : List Reservation) (r : Reservation) → held h rs ≡ some r → r.id ≡ h.id
held-id h [] r k = ground arith
held-id h (s ∷ rs) r k = ground (arith, held-id h rs r)

pub held-found :
    (h : Handle) (rs : List Reservation) (r : Reservation)
    → held h rs ≡ some r
    → find? (is_id h.id) rs ≡ some r
held-found h [] r k = ground arith
held-found h (s ∷ rs) r k = ground (arith, held-found h rs r)

-- The object that a handle stands for is the map's.
pub held-is_id :
    (h : Handle) (rs : List Reservation) (r : Reservation)
    → held h rs ≡ some r
    → find? (is_id r.id) rs ≡ some r
held-is_id h [] r k = ground arith
held-is_id h (s ∷ rs) r k = ground (arith, held-id h (s ∷ rs) r, held-is_id h rs r)

pub option_cases {ℓ κ} :
    {S : Type ℓ} (P : S → Type κ) (o : Option Reservation) (l : S) (f : Reservation → S)
    → (o ≡ none → P l)
    → ((r : Reservation) → o ≡ some r → P (f r))
    → P (if_held o l f)
option_cases P none l f p q = p refl
option_cases P (some r) l f p q = q r refl

-- What holds of a state, and of it changed at each object that the map holds, holds after a method.
pub if_held_cases {ℓ κ} :
    {S : Type ℓ} (P : S → Type κ) (h : Handle) (rs : List Reservation) (l : S) (f : Reservation → S)
    → P l
    → ((r : Reservation) → held h rs ≡ some r → find? (is_id r.id) rs ≡ some r → P (f r))
    → P (if_held (held h rs) l f)
if_held_cases P h rs l f p q =
    option_cases P (held h rs) l f (λ stale. p) λ r k. q r k (held-is_id h rs r k)
