-- ===== src/Artifacts/Store/Permits/Leases.antt =====
-- The response permit through the leases of artifacts/store.ts.
use browse_gateway.Base.{
  ℕ, ◌≡◌, ◌⊎◌, inl, inr, refl, sym, subst, Bool, true, false, ◌||◌, Option, none, some, arith,
  if_cases, find?, is_some,
}
use browse_gateway.Base.Ids.{mem}
use browse_gateway.Artifacts.Permit.{
  Permit, is_it, hand_over, release_response, yield_permit, with_done, with_bytes,
  detach_response_settle, hold, lease_of,
}
use browse_gateway.Artifacts.Permit.Phases.{
  IsTracked, IsShut, IsFree, IsHanded, IsHeld, IsLive, IsCarried, IsEnding,
}
use browse_gateway.Artifacts.Permit.Moves.{
  yield_permit-IsLive, settle_holder-vacant, settle_holder-IsEnding, settle_holder-IsLive,
  detach-IsEnding, hold-IsLive,
}
use browse_gateway.Artifacts.Store.{Store, StoredRecord, shut, clear_timer}
use browse_gateway.Artifacts.Store.Discard.{Disk, discard_owned}
use browse_gateway.Artifacts.Store.Responses.{
  Reading, unreadable, too_late, in_time, with_permit, yielded, discard_or_poison, end_response,
  open_response, complete_lease, on_lease, complete, expire_lease, is_timer_of, time_out,
  claim_timeout,
}
use browse_gateway.Artifacts.Store.Permits.{IsKept}
use browse_gateway.Artifacts.Store.Permits.Discards.{
  IsStable, IsKept-IsTracked, mark_unhealthy-IsKept, discard_owned-IsKept,
}

pub IsLive-IsStable : IsStable IsLive
IsLive-IsStable = record { settles = settle_holder-IsLive; tracks = λ p l. l.tracked }

pub IsCarried-IsStable : IsStable IsCarried
IsCarried-IsStable = record {
  settles = λ id p c. subst IsCarried (sym (settle_holder-vacant id p false c.vacant.nothing)) c;
  tracks = λ p c. c.tracked;
}

IsEnding-IsStable : (t : ℕ) → IsStable (IsEnding t)
IsEnding-IsStable t = record {
  settles = λ id p e. settle_holder-IsEnding id p t e;
  tracks = λ p e. e.tracked;
}

-- Nobody holds the permit of a store that is shut.
yield_permit-IsShut :
    (closing : Bool) (t : ℕ) (p : Permit) → IsShut p → IsShut (yield_permit closing t p)
unfolding yield_permit
yield_permit-IsShut closing t p k =
    if_cases IsShut (is_it p.holder t) _ _ (λ own. absurd (ground (arith, k.vacant.nobody)))
      (λ other. k)

pub release_response-IsShut : (p : Permit) → IsShut p → IsShut (release_response true p)
unfolding release_response hand_over
release_response-IsShut p k =
    subst (λ ws. IsShut (hand_over true ws (record p { response_bytes = 0 }))) (sym k.waiters)
      (record { tracked = k.tracked; vacant = k.vacant; busy = refl; waiters = refl })

yielded-IsKept : (s : Store) (t : ℕ) → IsKept (IsEnding t) s → IsKept IsLive (yielded (shut s) t s)
yielded-IsKept s t k = (
  λ live.
      subst (λ b. IsLive (yield_permit b t s.permit)) (sym live)
        (yield_permit-IsLive t s.permit (k.0 live)),
  λ closing. yield_permit-IsShut (shut s) t s.permit (k.1 closing),
)

pub discard_or_poison-IsKept :
    {Q : Permit → Type 0} (stable : IsStable Q) (s : Store) (d : Disk) (id : ℕ)
    → IsKept Q s
    → IsKept Q (discard_or_poison s d id)
unfolding discard_or_poison
discard_or_poison-IsKept {Q} stable s d id k =
    let k' = discard_owned-IsKept stable s d id k in
    if_cases (IsKept Q) (discard_owned s d id).1 _ _ (λ clean. k')
      (λ dirty.
        mark_unhealthy-IsKept stable (discard_owned s d id).0
          (IsKept-IsTracked stable (discard_owned s d id).0 k'))

-- A lease that is not done ends with the permit passed on.
pub end_response-IsKept :
    (s : Store) (d : Disk) (t id : ℕ)
    → shut s ≡ false
    → IsLive s.permit
    → lease_of t s.permit.leases ≡ some id
    → mem t s.permit.done ≡ false
    → IsKept IsLive (end_response s d t id)
unfolding end_response clear_timer
end_response-IsKept s d t id live l e open_ =
    let s1 = clear_timer (with_permit s (with_done t s.permit)) id in
    let s2 = with_permit s1 (detach_response_settle id s1.permit) in
    let k2 : IsKept (IsEnding t) s2 =
      (λ on. detach-IsEnding t id s.permit l e open_, λ closing. absurd (cc (live, closing))) in
    yielded-IsKept (discard_or_poison s2 d id) t
      (discard_or_poison-IsKept (IsEnding-IsStable t) s2 d id k2)

with_bytes-IsLive : (n : ℕ) (p : Permit) → IsLive p → IsLive (with_bytes n p)
with_bytes-IsLive n p l = record { tracked = l.tracked; phase = same l.phase }
  where
    same :
        IsFree p ⊎ IsHanded p ⊎ IsHeld p
        → IsFree (with_bytes n p) ⊎ IsHanded (with_bytes n p) ⊎ IsHeld (with_bytes n p)
    same (inl f) =
        inl (record { vacant = f.vacant; busy = f.busy; granted = f.granted; waiters = f.waiters })
    same (inr (inl f)) =
        inr (
          inl (record { vacant = f.vacant; busy = f.busy; waiter = f.waiter; granted = f.granted }))
    same (inr (inr h)) = inr (
        inr (record {
          busy = h.busy;
          lease = h.lease;
          artifact = h.artifact;
          holder = h.holder;
          settle = h.settle;
          response = h.response;
          open_ = h.open_;
          granted = h.granted;
        }))

held-lease_of : (id : ℕ) (p : Permit) → lease_of p.next (hold id p).leases ≡ some id
unfolding hold lease_of
held-lease_of id p = ground arith

held-done : (id : ℕ) (p : Permit) → IsTracked p → mem p.next (hold id p).done ≡ false
unfolding hold
held-done id p k = k.fresh p.next (omega arith)

pub open_response-IsKept :
    (s : Store) (d : Disk) (id : ℕ) (r : StoredRecord) (reading : Reading)
    → shut s ≡ false
    → IsCarried s.permit
    → IsKept IsLive (open_response s d id r reading).store
unfolding open_response
open_response-IsKept s d id r unreadable live c =
    end_response-IsKept _ d s.permit.next id live (hold-IsLive id s.permit c)
      (held-lease_of id s.permit) (held-done id s.permit c.tracked)
open_response-IsKept s d id r too_late live c =
    end_response-IsKept _ d s.permit.next id live (hold-IsLive id s.permit c)
      (held-lease_of id s.permit) (held-done id s.permit c.tracked)
open_response-IsKept s d id r in_time live c = (
  λ on. with_bytes-IsLive r.bytes (hold id s.permit) (hold-IsLive id s.permit c),
  λ closing. absurd (cc (live, closing)),
)

complete_lease-IsKept :
    (s : Store) (d : Disk) (t id : ℕ)
    → lease_of t s.permit.leases ≡ some id
    → IsKept IsLive s
    → IsKept IsLive (complete_lease s d t id)
unfolding complete_lease clear_timer
complete_lease-IsKept s d t id e k =
    if_cases (IsKept IsLive) (mem t s.permit.done) _ _ (λ done. k)
      λ open_.
        if_cases (IsKept IsLive) (shut s) _ _ (λ closing. absurd (settled (k.1 closing) open_))
          (λ live. end_response-IsKept s d t id live (k.0 live) e open_)
  where
    -- The leases of a store that is shut are done.
    settled : IsShut s.permit → mem t s.permit.done ≡ false → ⊥
    settled h open_ = elim (h.tracked.owned t id e) [
      | inl done ↦ cc (done, open_)
      | inr (hooked, here) ↦ cc (hooked, h.vacant.unhooked)
    ]

on_lease-IsKept :
    (o : Option ℕ) (s : Store) (f : ℕ → Store)
    → IsKept IsLive s
    → ((id : ℕ) → o ≡ some id → IsKept IsLive (f id))
    → IsKept IsLive (on_lease o s f)
on_lease-IsKept none s f k g = k
on_lease-IsKept (some id) s f k g = g id refl

pub complete-IsKept :
    (s : Store) (d : Disk) (t : ℕ) → IsKept IsLive s → IsKept IsLive (complete s d t)
unfolding complete
complete-IsKept s d t k =
    on_lease-IsKept (lease_of t s.permit.leases) s (λ id. complete_lease s d t id) k
      λ id e. complete_lease-IsKept s d t id e k

expire_lease-IsKept :
    (s : Store) (d : Disk) (t id : ℕ)
    → lease_of t s.permit.leases ≡ some id
    → IsKept IsLive s
    → IsKept IsLive (expire_lease s d t id)
unfolding expire_lease clear_timer
expire_lease-IsKept s d t id e k =
    if_cases (IsKept IsLive) (mem t s.permit.done || shut s) _ _ (λ late. k)
      λ on.
        let (open_, live) = neither (mem t s.permit.done) (shut s) on in
        end_response-IsKept (clear_timer s id) d t id live (k.0 live) e open_
  where
    neither : (a b : Bool) → (a || b) ≡ false → (a ≡ false) × (b ≡ false)
    neither true b h = absurd (cc h)
    neither false b h = (refl, h)

pub time_out-IsKept :
    (s : Store) (d : Disk) (t : ℕ) → IsKept IsLive s → IsKept IsLive (time_out s d t)
unfolding time_out
time_out-IsKept s d t k =
    if_cases (IsKept IsLive) (is_some (find? (is_timer_of t) s.timers)) _ _
      (λ set.
        on_lease-IsKept (lease_of t s.permit.leases) s (λ id. expire_lease s d t id) k
          λ id e. expire_lease-IsKept s d t id e k)
      (λ unset. k)

pub claim_timeout-IsKept : (s : Store) (t : ℕ) → IsKept IsLive s → IsKept IsLive (claim_timeout s t)
unfolding claim_timeout clear_timer
claim_timeout-IsKept s t k =
    if_cases (IsKept IsLive) (mem t s.claimed) _ _ (λ again. k)
      λ first. on_lease-IsKept (lease_of t s.permit.leases) s _ k (λ id e. k)
