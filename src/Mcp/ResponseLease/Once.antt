-- ===== src/Mcp/ResponseLease/Once.antt =====
-- The account of the leases that the tracker of mcp/http-response-lease.ts is given.
use browse_gateway.Base.{
  ℕ, suc, ◌+◌, ◌≡◌, refl, ◌⊎◌, inl, inr, Bool, true, false, ◌&&◌, ◌||◌, not, Option, none, some,
  List, [], ◌∷◌, ◌++◌, arith, ltb, ◌==◌, if◌then◌else◌, if_cases, is_some, ◌∙◌, sym,
}
use browse_gateway.Mcp.ResponseLease.{
  ResponseOutcome, sent, transport_failed, timed_out, is_sent, TrackerState, idle, active, terminal,
  Effect, destroys, lost, releases, completes, refuses, Tracker, new_tracker, fence, completion,
  close_outcome, terminalize, arm_listeners, by_state, activate, refuse, accept, register, on_event,
  on_close, on_timer, on_completed, Event, finishes, errors, activates, timer_fires,
  completion_ends, destroyed_elsewhere, closes, requests, registers, react, react_all,
}

-- How often the effects end the lease.
unfoldable pub ended : ℕ → List Effect → ℕ
ended k [] = 0
ended k (completes j o ∷ es) = if j == k then suc (ended k es) else ended k es
ended k (refuses j ∷ es) = if j == k then suc (ended k es) else ended k es
ended k (destroys ∷ es) = ended k es
ended k (lost ∷ es) = ended k es
ended k (releases ∷ es) = ended k es

abbrev pub held : ℕ → Option ℕ → ℕ
held k none = 0
held k (some j) = if j == k then 1 else 0

-- How often the events register the lease.
unfoldable pub registered : ℕ → List Event → ℕ
registered k [] = 0
registered k (registers j deadline_ms now ∷ es) =
    if j == k then suc (registered k es) else registered k es
registered k (_ ∷ es) = registered k es

ended-append : (k : ℕ) (xs ys : List Effect) → ended k (xs ++ ys) ≡ ended k xs + ended k ys
unfolding ended
ended-append k [] ys = omega arith
ended-append k (completes j o ∷ xs) ys = ground (arith, ended-append k xs ys)
ended-append k (refuses j ∷ xs) ys = ground (arith, ended-append k xs ys)
ended-append k (destroys ∷ xs) ys = ended-append k xs ys
ended-append k (lost ∷ xs) ys = ended-append k xs ys
ended-append k (releases ∷ xs) ys = ended-append k xs ys

ended-fence : (k : ℕ) (b : Bool) (es : List Effect) → ended k (fence b ++ es) ≡ ended k es
unfolding ended
ended-fence k true es = refl
ended-fence k false es = refl

ended-completion :
    (k : ℕ) (lease : Option ℕ) (o : ResponseOutcome) → ended k (completion lease o) ≡ held k lease
unfolding ended
ended-completion k none o = refl
ended-completion k (some j) o = refl

-- What the tracker holds fits its state.
abbrev pub IsCoherent : Tracker → Type 0
IsCoherent t =
    ((t.state ≡ idle) × (t.lease ≡ none) × (t.timer ≡ none) × (t.outcome ≡ none))
    ⊎ ((t.state ≡ active)
        × (is_some t.lease ≡ true)
        × (is_some t.timer ≡ true)
        × (t.outcome ≡ none))
    ⊎ ((t.state ≡ terminal) × (t.lease ≡ none) × (t.timer ≡ none) × (is_some t.outcome ≡ true))

-- What the tracker has ended and what it holds.
abbrev account : ℕ → Tracker → ℕ
account k t = ended k t.effects + held k t.lease

-- An event adds to the account what it registers, and keeps the tracker coherent.
abbrev Kept : Tracker → Tracker → ℕ → ℕ → Type 0
Kept t t' k n = (account k t' ≡ account k t + n) × IsCoherent t'

terminalize-Kept :
    (t : Tracker) (o : ResponseOutcome) (k : ℕ) → IsCoherent t → Kept t (terminalize t o) k 0
unfolding terminalize
terminalize-Kept t o k c =
    if_cases (λ t'. (account k t' ≡ account k t + 0) × IsCoherent t') (is_some t.outcome) _ _
      (λ latched. (omega arith, c))
      (λ first. (
        omega (
          arith,
          ended-append k t.effects
              (fence (not (is_sent o) && not t.destroyed) ++ releases ∷ completion t.lease o),
          ended-fence k (not (is_sent o) && not t.destroyed) (releases ∷ completion t.lease o),
          released (completion t.lease o),
          ended-completion k t.lease o,
        ),
        inr (inr (refl, refl, refl, refl)),
      ))
  where
    released : (es : List Effect) → ended k (releases ∷ es) ≡ ended k es
    released es = unfold ended in refl

keeps : (t : Tracker) (k : ℕ) → IsCoherent t → Kept t t k 0
keeps t k c = (omega arith, c)

on_event-Kept :
    (t : Tracker) (o : ResponseOutcome) (k : ℕ) → IsCoherent t → Kept t (on_event t o) k 0
unfolding on_event
on_event-Kept t o k c =
    if_cases (λ t'. Kept t t' k 0) (t.armed || ltb 0 t.leaked) _ _ (λ on. terminalize-Kept t o k c)
      (λ off. keeps t k c)

idle-free : (t : Tracker) → IsCoherent t → t.state ≡ idle → (t.lease ≡ none) × (t.outcome ≡ none)
idle-free t c i = elim c [
  | inl (s, l, m, o) ↦ (l, o)
  | inr (inl (s, l, m, o)) ↦ absurd (cc (sym s ∙ i))
  | inr (inr (s, l, m, o)) ↦ absurd (cc (sym s ∙ i))
]

pub state_cases {ℓ} :
    (P : Tracker → Type ℓ) (s : TrackerState) (a b c : Tracker)
    → (s ≡ idle → P a)
    → (s ≡ active → P b)
    → (s ≡ terminal → P c)
    → P (by_state s a b c)
state_cases P idle a b c f g h = f refl
state_cases P active a b c f g h = g refl
state_cases P terminal a b c f g h = h refl

refuse-Kept :
    (t : Tracker) (j k : ℕ) → IsCoherent t → Kept t (refuse t j) k (if j == k then 1 else 0)
unfolding refuse ended
refuse-Kept t j k c = (ground (arith, ended-append k t.effects (refuses j ∷ [])), c)

accept-Kept :
    (t : Tracker) (j deadline_ms now k : ℕ)
    → t.lease ≡ none
    → t.outcome ≡ none
    → Kept t (accept t j deadline_ms now) k (if j == k then 1 else 0)
unfolding accept arm_listeners
accept-Kept t j deadline_ms now k free fresh =
    (ground arith, inr (inl (refl, refl, refl, ground arith)))

register-Kept :
    (t : Tracker) (j deadline_ms now k : ℕ)
    → IsCoherent t
    → Kept t (register t j deadline_ms now) k (if j == k then 1 else 0)
unfolding register
register-Kept t j deadline_ms now k c =
    state_cases (λ t'. Kept t t' k (if j == k then 1 else 0)) t.state _ _ _
      (λ i. let (free, fresh) = idle-free t c i in accept-Kept t j deadline_ms now k free fresh)
      (λ a. refuse-Kept t j k c) (λ a. refuse-Kept t j k c)

activate-Kept : (t : Tracker) (k : ℕ) → IsCoherent t → Kept t (activate t) k 0
unfolding activate arm_listeners
activate-Kept t k c =
    state_cases (λ t'. Kept t t' k 0) t.state _ _ _
      (λ i. let (free, fresh) = idle-free t c i in (omega arith, c)) (λ a. (omega arith, c))
      (λ a. (omega arith, c))

-- What an event registers.
abbrev news : ℕ → Event → ℕ
news k (registers j deadline_ms now) = if j == k then 1 else 0
news k _ = 0

react-Kept : (t : Tracker) (e : Event) (k : ℕ) → IsCoherent t → Kept t (react t e) k (news k e)
unfolding react
react-Kept t finishes k c = on_event-Kept t sent k c
react-Kept t errors k c = on_event-Kept t transport_failed k c
react-Kept t activates k c = activate-Kept t k c
react-Kept t timer_fires k c =
    unfold on_timer in
    (if_cases (λ t'. Kept t t' k 0) (is_some t.timer) _ _ (λ on. terminalize-Kept t timed_out k c)
      (λ off. keeps t k c))
react-Kept t completion_ends k c =
    unfold on_completed in
    (if_cases (λ t'. Kept t t' k 0) (is_some t.outcome) _ _ (λ on. (omega arith, c))
      (λ off. keeps t k c))
react-Kept t destroyed_elsewhere k c =
    unfold ended in (omega (arith, ended-append k t.effects (lost ∷ [])), c)
react-Kept t (closes writable_finished) k c =
    unfold on_close in (on_event-Kept t (close_outcome writable_finished) k c)
react-Kept t (requests o) k c = terminalize-Kept t o k c
react-Kept t (registers j deadline_ms now) k c = register-Kept t j deadline_ms now k c

registered-news :
    (k : ℕ) (e : Event) (es : List Event) → registered k (e ∷ es) ≡ news k e + registered k es
unfolding registered
registered-news k (registers j deadline_ms now) es = ground arith
registered-news k _ es = omega arith

react_all-Kept :
    (t : Tracker) (es : List Event) (k : ℕ)
    → IsCoherent t
    → Kept t (react_all t es) k (registered k es)
unfolding react_all
react_all-Kept t [] k c = unfold registered in (keeps t k c)
react_all-Kept t (e ∷ es) k c =
    let (a, d) = react-Kept t e k c in
    let (b, f) = react_all-Kept (react t e) es k d in
    (omega (arith, a, b, registered-news k e es), f)

new-IsCoherent : IsCoherent new_tracker
unfolding new_tracker
new-IsCoherent = inl (refl, refl, refl, refl)

-- After any events on a new tracker, every lease has been ended, by its completion or by its refusal,
-- as often as it was registered, but for the one that the tracker holds; it holds one, with its
-- deadline timer set, exactly while it is active, and none when an outcome is latched.
pub leases_ended :
    (es : List Event)
    → ((k : ℕ)
        → ended k (react_all new_tracker es).effects + held k (react_all new_tracker es).lease
          ≡ registered k es)
      × IsCoherent (react_all new_tracker es)
leases_ended es = (
  λ k. accounted k (react_all-Kept new_tracker es k new-IsCoherent),
  (react_all-Kept new_tracker es 0 new-IsCoherent).1,
)
  where
    accounted :
        (k : ℕ)
        → Kept new_tracker (react_all new_tracker es) k (registered k es)
        → ended k (react_all new_tracker es).effects + held k (react_all new_tracker es).lease
          ≡ registered k es
    accounted k (a, c) = unfold new_tracker ended in (omega (arith, a))
