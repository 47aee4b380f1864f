-- ===== src/Mcp/ResponseLease/Outcome.antt =====
-- The outcome and the order of the effects of the tracker of mcp/http-response-lease.ts.
use mathlib.Core.List.{append_assoc, append-nil}
use browse_gateway.Base.{
  ℕ, ◌≡◌, refl, Bool, true, false, ◌&&◌, ◌||◌, not, Option, none, some, List, [], ◌∷◌, ◌++◌, arith,
  ltb, if_cases, is_some, All, All-append, ◌∙◌, ap, sym,
}
use browse_gateway.Mcp.ResponseLease.{
  ResponseOutcome, sent, transport_failed, timed_out, is_sent, terminal, Effect, destroys, lost,
  releases, completes, refuses, Tracker, new_tracker, fence, completion, close_outcome, terminalize,
  arm_listeners, activate, refuse, accept, register, on_event, on_close, on_timer, on_completed,
  Event, finishes, errors, activates, timer_fires, completion_ends, destroyed_elsewhere, closes,
  requests, registers, react, react_all,
}
use browse_gateway.Mcp.ResponseLease.Once.{state_cases}

-- The response is gone after the effects.
abbrev pub gone_after : Bool → List Effect → Bool
gone_after gone [] = gone
gone_after gone (destroys ∷ es) = gone_after true es
gone_after gone (lost ∷ es) = gone_after true es
gone_after gone (_ ∷ es) = gone_after gone es

-- The references are dropped after the effects.
abbrev pub dropped_after : Bool → List Effect → Bool
dropped_after dropped [] = dropped
dropped_after dropped (releases ∷ es) = dropped_after true es
dropped_after dropped (_ ∷ es) = dropped_after dropped es

-- Before each completion the references are dropped, and the response is gone unless it was sent.
unfoldable pub fenced : Bool → Bool → List Effect → Bool
fenced gone dropped [] = true
fenced gone dropped (destroys ∷ es) = fenced true dropped es
fenced gone dropped (lost ∷ es) = fenced true dropped es
fenced gone dropped (releases ∷ es) = fenced gone true es
fenced gone dropped (completes k o ∷ es) =
    (dropped && (gone || is_sent o)) && fenced gone dropped es
fenced gone dropped (refuses k ∷ es) = fenced gone dropped es

gone_after-append :
    (g : Bool) (xs ys : List Effect) → gone_after g (xs ++ ys) ≡ gone_after (gone_after g xs) ys
gone_after-append g [] ys = refl
gone_after-append g (destroys ∷ xs) ys = gone_after-append true xs ys
gone_after-append g (lost ∷ xs) ys = gone_after-append true xs ys
gone_after-append g (releases ∷ xs) ys = gone_after-append g xs ys
gone_after-append g (completes k o ∷ xs) ys = gone_after-append g xs ys
gone_after-append g (refuses k ∷ xs) ys = gone_after-append g xs ys

fenced-append :
    (g d : Bool) (xs ys : List Effect)
    → fenced g d xs ≡ true
    → fenced (gone_after g xs) (dropped_after d xs) ys ≡ true
    → fenced g d (xs ++ ys) ≡ true
unfolding fenced
fenced-append g d [] ys h k = k
fenced-append g d (destroys ∷ xs) ys h k = fenced-append true d xs ys h k
fenced-append g d (lost ∷ xs) ys h k = fenced-append true d xs ys h k
fenced-append g d (releases ∷ xs) ys h k = fenced-append g true xs ys h k
fenced-append g d (completes j o ∷ xs) ys h k = ground (arith, h, fenced-append g d xs ys, k)
fenced-append g d (refuses j ∷ xs) ys h k = fenced-append g d xs ys h k

-- What terminalization adds is fenced, whatever the response was.
fenced-ending :
    (gone d : Bool) (lease : Option ℕ) (o : ResponseOutcome)
    → fenced gone d (fence (not (is_sent o) && not gone) ++ releases ∷ completion lease o) ≡ true
unfolding fenced
fenced-ending gone d none o = ground arith
fenced-ending gone d (some k) o = ground arith

gone-ending :
    (gone : Bool) (lease : Option ℕ) (o : ResponseOutcome)
    → gone_after gone (fence (not (is_sent o) && not gone) ++ releases ∷ completion lease o)
      ≡ (gone || not (is_sent o))
gone-ending gone none o = ground arith
gone-ending gone (some k) o = ground arith

-- The effects are fenced, and the tracker knows whether the response is gone.
abbrev pub IsFenced : Tracker → Type 0
IsFenced t = (fenced false false t.effects ≡ true) × (gone_after false t.effects ≡ t.destroyed)

adds-IsFenced :
    (t : Tracker) (destroyed : Bool) (new : List Effect)
    → fenced t.destroyed (dropped_after false t.effects) new ≡ true
    → gone_after t.destroyed new ≡ destroyed
    → IsFenced t
    → (fenced false false (t.effects ++ new) ≡ true)
      × (gone_after false (t.effects ++ new) ≡ destroyed)
adds-IsFenced t destroyed new f g (ok, gone) = (
  fenced-append false false t.effects new ok
      (ap (λ b. fenced b (dropped_after false t.effects) new) gone ∙ f),
  gone_after-append false t.effects new ∙ ap (λ b. gone_after b new) gone ∙ g,
)

terminalize-IsFenced : (t : Tracker) (o : ResponseOutcome) → IsFenced t → IsFenced (terminalize t o)
unfolding terminalize
terminalize-IsFenced t o i =
    if_cases IsFenced (is_some t.outcome) _ _ (λ latched. i)
      (λ first.
        adds-IsFenced t (t.destroyed || not (is_sent o))
          (fence (not (is_sent o) && not t.destroyed) ++ releases ∷ completion t.lease o)
          (fenced-ending t.destroyed (dropped_after false t.effects) t.lease o)
          (gone-ending t.destroyed t.lease o) i)

on_event-IsFenced : (t : Tracker) (o : ResponseOutcome) → IsFenced t → IsFenced (on_event t o)
unfolding on_event
on_event-IsFenced t o i =
    if_cases IsFenced (t.armed || ltb 0 t.leaked) _ _ (λ on. terminalize-IsFenced t o i) (λ off. i)

refuse-IsFenced : (t : Tracker) (k : ℕ) → IsFenced t → IsFenced (refuse t k)
unfolding refuse
refuse-IsFenced t k i = adds-IsFenced t t.destroyed (refuses k ∷ []) (unfold fenced in refl) refl i

accept-IsFenced :
    (t : Tracker) (k deadline_ms now : ℕ) → IsFenced t → IsFenced (accept t k deadline_ms now)
unfolding accept arm_listeners
accept-IsFenced t k deadline_ms now (ok, gone) = (ground arith, ground arith)

react-IsFenced : (t : Tracker) (e : Event) → IsFenced t → IsFenced (react t e)
unfolding react
react-IsFenced t finishes i = on_event-IsFenced t sent i
react-IsFenced t errors i = on_event-IsFenced t transport_failed i
react-IsFenced t activates i =
    unfold activate arm_listeners in (state_cases IsFenced t.state _ _ _ (λ s. i) (λ s. i) (λ s. i))
react-IsFenced t timer_fires i =
    unfold on_timer in
    (if_cases IsFenced (is_some t.timer) _ _ (λ on. terminalize-IsFenced t timed_out i) (λ off. i))
react-IsFenced t completion_ends i =
    unfold on_completed in (if_cases IsFenced (is_some t.outcome) _ _ (λ on. i) (λ off. i))
react-IsFenced t destroyed_elsewhere i =
    adds-IsFenced t true (lost ∷ []) (unfold fenced in refl) refl i
react-IsFenced t (closes writable_finished) i =
    unfold on_close in (on_event-IsFenced t (close_outcome writable_finished) i)
react-IsFenced t (requests o) i = terminalize-IsFenced t o i
react-IsFenced t (registers k deadline_ms now) i =
    unfold register in
    (state_cases IsFenced t.state _ _ _ (λ s. accept-IsFenced t k deadline_ms now i)
      (λ s. refuse-IsFenced t k i) (λ s. refuse-IsFenced t k i))

react_all-IsFenced : (t : Tracker) (es : List Event) → IsFenced t → IsFenced (react_all t es)
unfolding react_all
react_all-IsFenced t [] i = i
react_all-IsFenced t (e ∷ es) i = react_all-IsFenced (react t e) es (react-IsFenced t e i)

-- After any events on a new tracker, every completion of a held lease comes after the references are
-- dropped and, unless the response was sent, after the response is destroyed, by the tracker or by
-- another.
pub completions_fenced :
    (es : List Event) → fenced false false (react_all new_tracker es).effects ≡ true
completions_fenced es =
    (react_all-IsFenced new_tracker es (unfold new_tracker fenced in (refl, refl))).0

-- A refusal or a loss of the response, all that can follow an outcome.
abbrev pub IsLate : Effect → Type 0
IsLate lost = Unit
IsLate (refuses k) = Unit
IsLate _ = ⊥

-- The tracker has the outcome, and all that it did since is late.
abbrev pub Latched : Tracker → ResponseOutcome → Tracker → Type 0
Latched t o t' =
    (t'.outcome ≡ some o)
    × (t'.state ≡ terminal)
    × ((new : List Effect) × (t'.effects ≡ t.effects ++ new) × All IsLate new)

terminalize-Latched :
    (t : Tracker) (o o' : ResponseOutcome) (t' : Tracker)
    → Latched t o t'
    → Latched t o (terminalize t' o')
unfolding terminalize
terminalize-Latched t o o' t' h =
    if_cases (Latched t o) (is_some t'.outcome) _ _ (λ latched. h)
      (λ first. absurd (ground (arith, h.0, first)))

on_event-Latched :
    (t : Tracker) (o o' : ResponseOutcome) (t' : Tracker)
    → Latched t o t'
    → Latched t o (on_event t' o')
unfolding on_event
on_event-Latched t o o' t' h =
    if_cases (Latched t o) (t'.armed || ltb 0 t'.leaked) _ _ (λ on. terminalize-Latched t o o' t' h)
      (λ off. h)

-- One more late effect.
later :
    (t : Tracker) (e : Effect) (es : List Effect)
    → IsLate e
    → (new : List Effect) × (es ≡ t.effects ++ new) × All IsLate new
    → (new : List Effect) × (es ++ e ∷ [] ≡ t.effects ++ new) × All IsLate new
later t e es late (new, same, all) = (
  new ++ e ∷ [],
  ap (λ x. x ++ e ∷ []) same ∙ append_assoc t.effects new (e ∷ []),
  All-append IsLate new (e ∷ []) all (late, tt),
)

react-Latched :
    (t : Tracker) (o : ResponseOutcome) (t' : Tracker) (e : Event)
    → Latched t o t'
    → Latched t o (react t' e)
unfolding react
react-Latched t o t' finishes h = on_event-Latched t o sent t' h
react-Latched t o t' errors h = on_event-Latched t o transport_failed t' h
react-Latched t o t' activates h =
    unfold activate in
    (state_cases (Latched t o) t'.state _ _ _ (λ s. absurd (cc (sym s ∙ h.1))) (λ s. h) (λ s. h))
react-Latched t o t' timer_fires h =
    unfold on_timer in
    (if_cases (Latched t o) (is_some t'.timer) _ _ (λ on. terminalize-Latched t o timed_out t' h)
      (λ off. h))
react-Latched t o t' completion_ends h =
    unfold on_completed in (if_cases (Latched t o) (is_some t'.outcome) _ _ (λ on. h) (λ off. h))
react-Latched t o t' destroyed_elsewhere (out, state, more) =
    (out, state, later t lost t'.effects tt more)
react-Latched t o t' (closes writable_finished) h =
    unfold on_close in (on_event-Latched t o (close_outcome writable_finished) t' h)
react-Latched t o t' (requests o') h = terminalize-Latched t o o' t' h
react-Latched t o t' (registers k deadline_ms now) (out, state, more) =
    unfold register refuse in
    (state_cases (Latched t o) t'.state _ _ _ (λ s. absurd (cc (sym s ∙ state)))
      (λ s. (out, state, later t (refuses k) t'.effects tt more))
      (λ s. (out, state, later t (refuses k) t'.effects tt more)))

react_all-Latched :
    (t : Tracker) (o : ResponseOutcome) (t' : Tracker) (es : List Event)
    → Latched t o t'
    → Latched t o (react_all t' es)
unfolding react_all
react_all-Latched t o t' [] h = h
react_all-Latched t o t' (e ∷ es) h =
    react_all-Latched t o (react t' e) es (react-Latched t o t' e h)

-- Once a tracker is terminal with an outcome, it keeps that outcome whatever happens, and all that it
-- still does is to refuse leases and to note that the response is gone.
pub first_outcome_wins :
    (t : Tracker) (o : ResponseOutcome) (es : List Event)
    → t.outcome ≡ some o
    → t.state ≡ terminal
    → ((react_all t es).outcome ≡ some o)
      × ((react_all t es).state ≡ terminal)
      × ((new : List Effect) × ((react_all t es).effects ≡ t.effects ++ new) × All IsLate new)
first_outcome_wins t o es out state =
    react_all-Latched t o t es (out, state, ([], sym (append-nil t.effects), tt))
