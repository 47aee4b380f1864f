-- ===== src/Artifacts/Permit.antt =====
-- The one response permit of artifacts/store.ts and the queue of callers that wait for it. Waiters and
-- lease objects are numbers. A promise that is resolved is on a list until its caller goes on.
pub mod Phases
pub mod Moves
use browse_gateway.Base.{
  ℕ, suc, ◌+◌, ◌≡◌, Bool, true, false, ◌||◌, Option, none, some, List, [], ◌∷◌, ◌++◌, ◌==◌,
  if◌then◌else◌,
}

pub record Lease : Type 0 where
  pub token : ℕ
  pub id : ℕ

-- `settle` is the lease whose settle hook is set. `done` lists the leases whose flag `done` is set, and
-- `leases` every lease that was ever admitted.
pub record Permit : Type 0 where
  pub busy : Bool
  pub holder : Option ℕ
  pub response_id : Option ℕ
  pub response_bytes : ℕ
  pub settle : Option ℕ
  pub waiters : List ℕ
  pub granted : List ℕ
  pub refused : List ℕ
  pub done : List ℕ
  pub leases : List Lease
  pub next : ℕ

unfoldable pub free_permit : Permit
free_permit = record {
  busy = false;
  holder = none;
  response_id = none;
  response_bytes = 0;
  settle = none;
  waiters = [];
  granted = [];
  refused = [];
  done = [];
  leases = [];
  next = 0;
}

abbrev pub is_it : Option ℕ → ℕ → Bool
is_it none t = false
is_it (some u) t = u == t

-- The loop of the release: `shut` says that the store is closing or poisoned.
unfoldable pub hand_over : Bool → List ℕ → Permit → Permit
hand_over shut [] p = record p { waiters = []; busy = false }
hand_over true (w ∷ ws) p = hand_over true ws (record p { refused = p.refused ++ w ∷ [] })
hand_over false (w ∷ ws) p = record p { waiters = ws; granted = p.granted ++ w ∷ [] }

unfoldable pub release_response : Bool → Permit → Permit
release_response shut p = hand_over shut p.waiters (record p { response_bytes = 0 })

unfoldable pub yield_permit : Bool → ℕ → Permit → Permit
yield_permit shut t p =
    if is_it p.holder t
    then release_response shut (record p { holder = none; response_id = none; settle = none })
    else p

abbrev pub with_done : ℕ → Permit → Permit
with_done t p = record p { done = t ∷ p.done }

-- The settle hook of a lease, taken off and called.
unfoldable pub run_settle : Bool → Option ℕ → Permit → Permit
run_settle shut none p = p
run_settle shut (some t) p = yield_permit shut t (with_done t p)

abbrev pub unhooked : Permit → Permit
unhooked p = record p { settle = none }

unfoldable pub settle_responses : Bool → Permit → Permit
settle_responses shut p =
    let q = run_settle shut p.settle (unhooked p) in
    record q {
      holder = none;
      response_id = none;
      response_bytes = 0;
      refused = q.refused ++ q.waiters;
      waiters = [];
      busy = false;
    }

-- The response that may be holding the artifact is settled before it is deleted.
unfoldable pub settle_holder : Bool → ℕ → Permit → Permit
settle_holder shut id p =
    if is_it p.response_id id then run_settle shut p.settle (unhooked p) else p

unfoldable pub detach_response_settle : ℕ → Permit → Permit
detach_response_settle id p = if is_it p.response_id id then unhooked p else p

unfoldable pub wait_for : ℕ → Permit → Permit
wait_for w p = record p { waiters = p.waiters ++ w ∷ [] }

unfoldable pub take : Permit → Permit
take p = record p { busy = true }

-- A lease that is admitted holds the permit: it is the object `p.next`.
unfoldable pub hold : ℕ → Permit → Permit
hold id p = record p {
  holder = some p.next;
  response_id = some id;
  settle = some p.next;
  leases = record { token = p.next; id = id } ∷ p.leases;
  next = suc p.next;
}

abbrev pub with_bytes : ℕ → Permit → Permit
with_bytes n p = record p { response_bytes = n }

unfoldable pub drop_first : ℕ → List ℕ → List ℕ
drop_first w [] = []
drop_first w (v ∷ vs) = if v == w then vs else v ∷ drop_first w vs

-- The caller that the promise was resolved for goes on.
unfoldable pub wake : ℕ → Permit → Permit
unfolding drop_first
wake w p = record p { granted = drop_first w p.granted }

unfoldable pub lease_of : ℕ → List Lease → Option ℕ
lease_of t [] = none
lease_of t (l ∷ ls) = if l.token == t then some l.id else lease_of t ls
