-- ===== src/Artifacts/Capacity.antt =====
-- The account of count and bytes that the artifact store keeps: the reservation ledger of
-- artifacts/store.ts. Identifiers, consumers and reservation objects are numbers. A reservation is in
-- the map until it is released.
pub mod Entries
pub mod Claims
pub mod Held
pub mod Billed
pub mod Exact
pub mod Refine
pub mod Within
pub mod Found
use browse_gateway.Base.{
  ℕ, ◌+◌, ◌-◌, ◌*◌, ◌≡◌, Bool, true, false, ◌&&◌, ◌||◌, not, Option, none, some, List, [], ◌∷◌,
  ◌++◌, ltb, leb, ◌==◌, if◌then◌else◌, is_some, find?, any, keep,
}
use browse_gateway.Base.Totals.{replace, erase, total}

abbrev pub max_artifact_bytes : ℕ
max_artifact_bytes = 8 * 1024 * 1024

abbrev pub max_stage_copies : ℕ
max_stage_copies = 2

pub record Limits : Type 0 where
  pub max_bytes : ℕ
  pub max_count : ℕ
  pub per_consumer_bytes : ℕ
  pub per_consumer_count : ℕ

-- `token` is the identity of the object.
pub record Reservation : Type 0 where
  pub token : ℕ
  pub id : ℕ
  pub consumer_id : ℕ
  pub bytes : ℕ
  pub staging : Bool

-- An entry of the map of consumers.
pub record Usage : Type 0 where
  pub consumer_id : ℕ
  pub count : ℕ
  pub bytes : ℕ

-- `next` is the identity of the next object.
pub record Capacity : Type 0 where
  pub reservations : List Reservation
  pub consumers : List Usage
  pub ledger_count : ℕ
  pub ledger_bytes : ℕ
  pub stage_permits : ℕ
  pub next : ℕ

unfoldable pub no_reservations : Capacity
no_reservations = record {
  reservations = [];
  consumers = [];
  ledger_count = 0;
  ledger_bytes = 0;
  stage_permits = 0;
  next = 0;
}

abbrev pub is_id : ℕ → Reservation → Bool
is_id id r = r.id == id

-- `map.get(id)`.
abbrev pub reservation_of : ℕ → List Reservation → Option Reservation
reservation_of id rs = find? (is_id id) rs

abbrev pub is_usage_of : ℕ → Usage → Bool
is_usage_of c u = u.consumer_id == c

-- `map.get(c)`, and the entry of a consumer that has none.
abbrev pub usage_of : ℕ → List Usage → Usage
usage_of c us = elim (find? (is_usage_of c) us) [
  | none ↦ record { consumer_id = c; count = 0; bytes = 0 }
  | some u ↦ u
]

-- `map.set(c, entry)`.
unfoldable pub set_usage : Usage → List Usage → List Usage
set_usage u [] = u ∷ []
set_usage u (v ∷ us) = if v.consumer_id == u.consumer_id then u ∷ us else v ∷ set_usage u us

-- An entry that is there is changed in place.
unfoldable pub charge : ℕ → (Usage → Usage) → List Usage → List Usage
unfolding replace
charge c g us = replace (is_usage_of c) g us

-- `map.delete(c)`.
unfoldable pub drop_usage : ℕ → List Usage → List Usage
drop_usage c us = keep (λ u. not (u.consumer_id == c)) us

abbrev pub admits : Limits → Capacity → ℕ → Bool
admits m l c =
    not (
      ltb m.max_count (l.ledger_count + 1)
      || ltb m.per_consumer_count ((usage_of c l.consumers).count + 1))
    && not (
        ltb m.max_bytes (l.ledger_bytes + max_artifact_bytes)
        || ltb m.per_consumer_bytes ((usage_of c l.consumers).bytes + max_artifact_bytes))

abbrev pub charged : ℕ → Usage → Usage
charged b u = record u { count = u.count + 1; bytes = u.bytes + b }

unfoldable pub admit : Capacity → ℕ → ℕ → Capacity
admit l id c = record {
  reservations =
      l.reservations
      ++ record {
        token = l.next;
        id = id;
        consumer_id = c;
        bytes = max_artifact_bytes;
        staging = true;
      }
        ∷ [];
  consumers = set_usage (charged max_artifact_bytes (usage_of c l.consumers)) l.consumers;
  ledger_count = l.ledger_count + 1;
  ledger_bytes = l.ledger_bytes + max_artifact_bytes;
  stage_permits = l.stage_permits + 1;
  next = l.next + 1;
}

-- A reservation is made exactly if the second part is `true`; it is the object `l.next`.
unfoldable pub reserve : Limits → Capacity → ℕ → ℕ → Capacity × Bool
reserve m l id c =
    if is_some (reservation_of id l.reservations) || leb max_stage_copies l.stage_permits
    then (l, false)
    else if admits m l c
    then (admit l id c, true)
    else (l, false)

-- A reference to a reservation object.
pub record Handle : Type 0 where
  pub token : ℕ
  pub id : ℕ

abbrev is_object : ℕ → Option Reservation → Option Reservation
is_object t none = none
is_object t (some r) = if r.token == t then some r else none

-- The object, while the map holds it at its identifier.
abbrev pub held : Handle → List Reservation → Option Reservation
held h rs = is_object h.token (reservation_of h.id rs)

-- A method does something only to an object that the map holds.
abbrev pub if_held {ℓ} : {S : Type ℓ} → Option Reservation → S → (Reservation → S) → S
if_held none l f = l
if_held (some r) l f = f r

abbrev pub with_bytes : ℕ → Reservation → Reservation
with_bytes b r = record r { bytes = b }

abbrev less_bytes : ℕ → Usage → Usage
less_bytes b u = record u { bytes = u.bytes - b }

unfoldable pub shrink_by : Capacity → ℕ → Reservation → Capacity
shrink_by l b r = if leb r.bytes b then l else record l {
  reservations = replace (is_id r.id) (with_bytes b) l.reservations;
  ledger_bytes = l.ledger_bytes - (r.bytes - b);
  consumers = charge r.consumer_id (less_bytes (r.bytes - b)) l.consumers;
}

unfoldable pub shrink_reservation : Capacity → Handle → ℕ → Capacity
shrink_reservation l h b = if_held (held h l.reservations) l λ r. shrink_by l b r

abbrev pub staged : Reservation → Reservation
staged r = record r { staging = false }

unfoldable pub unstage : Capacity → Reservation → Capacity
unstage l r =
    if r.staging
    then record l {
      reservations = replace (is_id r.id) staged l.reservations;
      stage_permits = l.stage_permits - 1;
    }
    else l

-- The source acts on the object of the handle. That object is in the map as long as it is staging,
-- since a deletion leaves the reservation of a capture under way; so it is looked up there.
unfoldable pub release_stage : Capacity → Handle → Capacity
release_stage l h = if_held (held h l.reservations) l λ r. unstage l r

abbrev discharged : ℕ → Usage → Usage
discharged b u = record u { count = u.count - 1; bytes = u.bytes - b }

abbrev is_spent : Usage → Bool
is_spent u = u.count == 0 && u.bytes == 0

-- The entry is discharged, and goes if nothing is left on it.
unfoldable pub refund : ℕ → ℕ → List Usage → List Usage
refund c b us =
    let us' = charge c (discharged b) us in
    if is_spent (usage_of c us') then drop_usage c us' else us'

unfoldable pub release_held : Capacity → Reservation → Capacity
release_held l r = record l {
  reservations = erase (is_id r.id) l.reservations;
  ledger_count = l.ledger_count - 1;
  ledger_bytes = l.ledger_bytes - r.bytes;
  consumers = refund r.consumer_id r.bytes l.consumers;
}

unfoldable pub release_reservation : Capacity → Handle → Capacity
release_reservation l h = if_held (held h l.reservations) l λ r. release_held l r

-- The end of a capture: its stage permit goes back; its reservation stays for a published or retained
-- document.
unfoldable pub finish_copy : Capacity → Handle → Bool → Capacity
finish_copy l h keeps = let l' = release_stage l h in if keeps then l' else release_reservation l' h

-- A discard releases the reservation at the identifier, but not one that a copy body still holds.
unfoldable pub release_discarded : Capacity → ℕ → Capacity
release_discarded l id =
    if_held (reservation_of id l.reservations) l
      λ r. if r.staging then l else release_reservation l (record { token = r.token; id = id })

-- The bytes of the reservations that are staged, of `accounting()`.
abbrev pub staged_bytes : Reservation → ℕ
staged_bytes r = if r.staging then r.bytes else 0

unfoldable pub staging_bytes : Capacity → ℕ
unfolding total
staging_bytes l = total staged_bytes l.reservations
