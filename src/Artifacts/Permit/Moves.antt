-- ===== src/Artifacts/Permit/Moves.antt =====
-- What each operation on the response permit of artifacts/store.ts does to who has it.
use browse_gateway.Base.{
  ℕ, ◌≡◌, ◌⊎◌, inl, inr, refl, sym, subst, Bool, true, false, Option, none, some, List, [], ◌∷◌,
  ◌++◌, arith, if_cases,
}
use browse_gateway.Base.Ids.{mem}
use browse_gateway.Artifacts.Permit.{
  Lease, Permit, free_permit, is_it, hand_over, release_response, yield_permit, with_done,
  run_settle, unhooked, settle_responses, settle_holder, detach_response_settle, wait_for, take,
  hold, drop_first, wake, lease_of,
}
use browse_gateway.Artifacts.Permit.Phases.{
  TracksLeases, IsTracked, IsVacant, IsShut, IsFree, IsHanded, IsHeld, IsLive, IsCarried, IsEnding,
}

pub free-IsLive : IsLive free_permit
unfolding free_permit mem lease_of
free-IsLive = record {
  tracked = record { fresh = λ t le. refl; hooked = λ t e. cc; owned = λ t id e. cc };
  phase = inl (record {
    vacant = record { nobody = refl; nothing = refl; unhooked = refl };
    busy = refl;
    granted = refl;
    waiters = refl;
  });
}

-- The loop changes only who waits and who was answered.
pub record SameLeases (q p : Permit) : Type 0 where
  pub holder : q.holder ≡ p.holder
  pub response : q.response_id ≡ p.response_id
  pub settle : q.settle ≡ p.settle
  pub bytes : q.response_bytes ≡ p.response_bytes
  pub done : q.done ≡ p.done
  pub leases : q.leases ≡ p.leases
  pub next : q.next ≡ p.next

hand_over-SameLeases :
    (closing : Bool) (ws : List ℕ) (p : Permit) → SameLeases (hand_over closing ws p) p
unfolding hand_over
hand_over-SameLeases closing [] p = ground arith
hand_over-SameLeases true (w ∷ ws) p =
    let h = hand_over-SameLeases true ws (record p { refused = p.refused ++ w ∷ [] }) in
    record {
      holder = h.holder;
      response = h.response;
      settle = h.settle;
      bytes = h.bytes;
      done = h.done;
      leases = h.leases;
      next = h.next;
    }
hand_over-SameLeases false (w ∷ ws) p = ground arith

same-IsTracked : (q p : Permit) → SameLeases q p → IsTracked p → IsTracked q
same-IsTracked q p h k = record {
  fresh = λ t le. ground (arith, h.next, h.done, k.fresh t);
  hooked = λ t e. ground (arith, h.next, h.settle, k.hooked t);
  owned = λ t id e. ground (arith, h.leases, h.done, h.settle, h.response, k.owned t id);
}

-- The permit goes to the first waiter, or nobody has it.
hand_over-IsLive :
    (ws : List ℕ) (p : Permit)
    → IsTracked p
    → IsVacant p
    → p.busy ≡ true
    → p.granted ≡ []
    → IsLive (hand_over false ws p)
unfolding hand_over
hand_over-IsLive [] p k v b g = record {
  tracked = k;
  phase = inl (record { vacant = v; busy = refl; granted = g; waiters = refl });
}
hand_over-IsLive (w ∷ ws) p k v b g = record {
  tracked = k;
  phase = inr (inl (record { vacant = v; busy = b; waiter = w; granted = rw g }));
}

pub release_response-IsLive : (p : Permit) → IsCarried p → IsLive (release_response false p)
unfolding release_response
release_response-IsLive p c =
    hand_over-IsLive p.waiters (record p { response_bytes = 0 }) c.tracked c.vacant c.busy c.granted

-- With no hook set every lease is done, so that nothing more is asked of the response.
unhooked-IsTracked :
    {next : ℕ} {done : List ℕ} {leases : List Lease} {response response' : Option ℕ}
    → TracksLeases next done leases none response
    → TracksLeases next done leases none response'
unhooked-IsTracked k = record {
  fresh = k.fresh;
  hooked = k.hooked;
  owned = λ t id e. ground (arith, k.owned t id e);
}

pub yield_permit-IsLive : (t : ℕ) (p : Permit) → IsEnding t p → IsLive (yield_permit false t p)
unfolding yield_permit
yield_permit-IsLive t p e =
    if_cases IsLive (is_it p.holder t) _ _ (λ own. released)
      (λ other. absurd (ground (arith, e.holder)))
  where
    released :
        IsLive
          (release_response false (record p { holder = none; response_id = none; settle = none }))
    released =
        release_response-IsLive (record p { holder = none; response_id = none; settle = none })
          (record {
            tracked = unhooked-IsTracked (
                subst (λ x. TracksLeases p.next p.done p.leases x p.response_id) e.settle
                  e.tracked);
            vacant = record { nobody = refl; nothing = refl; unhooked = refl };
            busy = e.busy;
            granted = e.granted;
          })

-- The lease that holds the permit is marked as done, and its hook is taken off.
pub end-IsEnding :
    (p : Permit) (t : ℕ)
    → IsTracked p
    → p.settle ≡ some t
    → TracksLeases p.next (t ∷ p.done) p.leases none p.response_id
unfolding mem
end-IsEnding p t k e = record {
  fresh = λ u le. ground (arith, k.fresh u le, k.hooked t e);
  hooked = λ u h. cc;
  owned = λ u id h. ground (arith, k.owned u id h);
}

yield_permit-settle :
    (closing : Bool) (t : ℕ) (p : Permit)
    → p.settle ≡ none
    → (yield_permit closing t p).settle ≡ none
unfolding yield_permit release_response
yield_permit-settle closing t p e =
    if_cases {A = Permit} (λ q. q.settle ≡ none) (is_it p.holder t) _ _
      (λ own.
        (hand_over-SameLeases closing p.waiters (record p {
          holder = none;
          response_id = none;
          settle = none;
          response_bytes = 0;
        })).settle)
      (λ other. e)

-- The yield touches no lease.
yield_permit-leases :
    (closing : Bool) (t : ℕ) (p : Permit)
    → ((yield_permit closing t p).done ≡ p.done)
      × ((yield_permit closing t p).leases ≡ p.leases)
      × ((yield_permit closing t p).next ≡ p.next)
unfolding yield_permit release_response
yield_permit-leases closing t p =
    if_cases {A = Permit} (λ q. (q.done ≡ p.done) × (q.leases ≡ p.leases) × (q.next ≡ p.next))
      (is_it p.holder t) _ _
      (λ own. same (
        hand_over-SameLeases closing p.waiters
          (record p { holder = none; response_id = none; settle = none; response_bytes = 0 })))
      (λ other. (refl, refl, refl))
  where
    same :
        {q : Permit}
        → SameLeases q
            (record p { holder = none; response_id = none; settle = none; response_bytes = 0 })
        → (q.done ≡ p.done) × (q.leases ≡ p.leases) × (q.next ≡ p.next)
    same h = (h.done, h.leases, h.next)

all_done :
    {next : ℕ} {done : List ℕ} {leases : List Lease} {response : Option ℕ} (q : Permit)
    → TracksLeases next done leases none response
    → q.done ≡ done
    → q.leases ≡ leases
    → q.next ≡ next
    → TracksLeases q.next q.done q.leases none none
all_done q k d l n = record {
  fresh = λ t le. ground (arith, d, n, k.fresh t);
  hooked = λ t e. cc;
  owned = λ t id e. ground (arith, d, l, k.owned t id);
}

-- After the hook has run every lease is done.
run_settle-done :
    (closing : Bool) (o : Option ℕ) (p : Permit)
    → p.settle ≡ o
    → IsTracked p
    → let q = run_settle closing o (unhooked p) in
      TracksLeases q.next q.done q.leases none none × (q.settle ≡ none)
unfolding run_settle
run_settle-done closing none p e k = (
  unhooked-IsTracked (subst (λ x. TracksLeases p.next p.done p.leases x p.response_id) e k),
  refl,
)
run_settle-done closing (some t) p e k =
    let q = with_done t (unhooked p) in
    let (d, l, n) = yield_permit-leases closing t q in
    (
      all_done (yield_permit closing t q) (end-IsEnding p t k e) d l n,
      yield_permit-settle closing t q refl,
    )

-- The store that shuts takes the permit and refuses every waiter.
pub settle_responses-IsShut :
    (closing : Bool) (p : Permit) → IsTracked p → IsShut (settle_responses closing p)
unfolding settle_responses
settle_responses-IsShut closing p k =
    let (d, e) = run_settle-done closing p.settle p refl k in
    record {
      tracked =
          subst
            (λ x.
              let q = run_settle closing p.settle (unhooked p) in
              TracksLeases q.next q.done q.leases x none)
            (sym e) d;
      vacant = record { nobody = refl; nothing = refl; unhooked = e };
      busy = refl;
      waiters = refl;
    }

-- The deletion of an artifact whose response is under way ends the response first.
module _ (id : ℕ) (p : Permit) where
  pub settle_holder-vacant :
      (closing : Bool) → p.response_id ≡ none → settle_holder closing id p ≡ p
  unfolding settle_holder
  settle_holder-vacant closing e = ground (arith, e)

  pub settle_holder-IsEnding : (t : ℕ) → IsEnding t p → IsEnding t (settle_holder false id p)
  unfolding settle_holder run_settle
  settle_holder-IsEnding t e =
      if_cases (IsEnding t) (is_it p.response_id id) _ _
        (λ own.
          subst (λ x. IsEnding t (run_settle false x (unhooked p))) (sym e.settle)
            (record {
              tracked =
                  subst (λ x. TracksLeases p.next p.done p.leases x p.response_id) e.settle
                    e.tracked;
              busy = e.busy;
              holder = e.holder;
              settle = refl;
              granted = e.granted;
            }))
        (λ other. e)

-- A lease that holds the permit, marked as done and with its hook off.
pub ending :
    (p : Permit) → IsTracked p → (h : IsHeld p) → IsEnding h.lease (with_done h.lease (unhooked p))
ending p k h = record {
  tracked = end-IsEnding p h.lease k h.settle;
  busy = h.busy;
  holder = h.holder;
  settle = refl;
  granted = h.granted;
}

pub settle_holder-IsLive : (id : ℕ) (p : Permit) → IsLive p → IsLive (settle_holder false id p)
unfolding settle_holder run_settle
settle_holder-IsLive id p l =
    if_cases IsLive (is_it p.response_id id) _ _ (λ own. settled l.phase own) (λ other. l)
  where
    settled :
        IsFree p ⊎ IsHanded p ⊎ IsHeld p
        → is_it p.response_id id ≡ true
        → IsLive (run_settle false p.settle (unhooked p))
    settled (inl f) own = absurd (ground (arith, f.vacant.nothing))
    settled (inr (inl f)) own = absurd (ground (arith, f.vacant.nothing))
    settled (inr (inr h)) own =
        subst (λ x. IsLive (run_settle false x (unhooked p))) (sym h.settle)
          (yield_permit-IsLive h.lease (with_done h.lease (unhooked p)) (ending p l.tracked h))

-- A lease that ends by itself takes its own hook off first.
pub detach-IsEnding :
    (t id : ℕ) (p : Permit)
    → IsLive p
    → lease_of t p.leases ≡ some id
    → mem t p.done ≡ false
    → IsEnding t (detach_response_settle id (with_done t p))
unfolding detach_response_settle
detach-IsEnding t id p l e live = elim (l.tracked.owned t id e) [
  | inl done ↦ absurd (cc (done, live))
  | inr (hooked, here) ↦
      if_cases (IsEnding t) (is_it p.response_id id) _ _ (λ own. held l.phase hooked)
        (λ other. absurd (ground (arith, here)))
]
  where
    held :
        IsFree p ⊎ IsHanded p ⊎ IsHeld p → p.settle ≡ some t → IsEnding t (unhooked (with_done t p))
    held (inl f) s = absurd (cc (f.vacant.unhooked, s))
    held (inr (inl f)) s = absurd (cc (f.vacant.unhooked, s))
    held (inr (inr h)) s = record {
      tracked = end-IsEnding p t l.tracked s;
      busy = h.busy;
      holder = cc (h.holder, h.settle, s);
      settle = refl;
      granted = h.granted;
    }

pub hold-IsLive : (id : ℕ) (p : Permit) → IsCarried p → IsLive (hold id p)
unfolding hold lease_of
hold-IsLive id p c = record {
  tracked = record {
    fresh = λ t le. c.tracked.fresh t (omega arith);
    hooked = λ t e. ground (arith, e);
    owned = λ t i e. ground (arith, e, c.tracked.owned t i, c.vacant.unhooked);
  };
  phase = inr (
      inr (record {
        busy = c.busy;
        lease = p.next;
        artifact = id;
        holder = refl;
        settle = refl;
        response = refl;
        open_ = c.tracked.fresh p.next (omega arith);
        granted = c.granted;
      }));
}

pub take-IsCarried : (p : Permit) → IsLive p → p.busy ≡ false → IsCarried (take p)
unfolding take
take-IsCarried p l e = taken l.phase
  where
    taken : IsFree p ⊎ IsHanded p ⊎ IsHeld p → IsCarried (record p { busy = true })
    taken (inl f) = record {
      tracked = l.tracked;
      vacant = f.vacant;
      busy = refl;
      granted = f.granted;
    }
    taken (inr (inl f)) = absurd (cc (f.busy, e))
    taken (inr (inr h)) = absurd (cc (h.busy, e))

pub wait_for-IsLive : (w : ℕ) (p : Permit) → IsLive p → p.busy ≡ true → IsLive (wait_for w p)
unfolding wait_for
wait_for-IsLive w p l e = record { tracked = l.tracked; phase = waiting l.phase }
  where
    waiting :
        IsFree p ⊎ IsHanded p ⊎ IsHeld p
        → let q = record p { waiters = p.waiters ++ w ∷ [] } in IsFree q ⊎ IsHanded q ⊎ IsHeld q
    waiting (inl f) = absurd (cc (f.busy, e))
    waiting (inr (inl f)) =
        inr (
          inl (record { vacant = f.vacant; busy = f.busy; waiter = f.waiter; granted = f.granted }))
    waiting (inr (inr h)) = inr (
        inr (record {
          busy = h.busy;
          lease = h.lease;
          artifact = h.artifact;
          holder = h.holder;
          settle = h.settle;
          response = h.response;
          open_ = h.open_;
          granted = h.granted;
        }))

alone : (w : ℕ) (xs : List ℕ) → xs ≡ [] → mem w xs ≡ true → ⊥
unfolding mem
alone w xs e h = ground (arith, e, h)

the_one : (w v : ℕ) (xs : List ℕ) → xs ≡ v ∷ [] → mem w xs ≡ true → drop_first w xs ≡ []
unfolding mem drop_first
the_one w v xs e h = ground (arith, e, h)

pub wake-IsCarried : (w : ℕ) (p : Permit) → IsLive p → mem w p.granted ≡ true → IsCarried (wake w p)
unfolding wake
wake-IsCarried w p l e = woken l.phase
  where
    woken :
        IsFree p ⊎ IsHanded p ⊎ IsHeld p → IsCarried (record p { granted = drop_first w p.granted })
    woken (inl f) = absurd (alone w p.granted f.granted e)
    woken (inr (inl f)) = record {
      tracked = l.tracked;
      vacant = f.vacant;
      busy = f.busy;
      granted = the_one w f.waiter p.granted f.granted e;
    }
    woken (inr (inr h)) = absurd (alone w p.granted h.granted e)
