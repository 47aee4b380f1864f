-- ===== src/Search/Router/Sends.antt =====
-- The last resort of a search (search/router.ts).
use browse_gateway.Base.{
  ℕ, suc, ◌+◌, ◌-◌, ◌≤◌, ◌≡◌, ◌≢◌, refl, Bool, true, false, ◌&&◌, not, List, [], ◌∷◌, arith, ltb,
  if_cases, any, any-append, and-eq-true, is_some, ◌∙◌,
}
use browse_gateway.Search.Router.{
  min_attempt_ms, attempt_skipped, BreakerState, closed, opened, half_open, Shared, Router,
  set_breaker, admit, is_half_open, Call, Search,
}
use browse_gateway.Search.Router.Walk.{
  call_provider, skip, Next, carry_on, after_provider, passes_over, visit, walk, begin, search,
  was_sent,
}
use browse_gateway.Search.Router.Bounds.{Moved, call_provider-Moved, walk-Moved}

-- No probe is in flight.
abbrev pub IsQuiet : Shared → Type 0
IsQuiet sh = (q : ℕ) → sh.breakers q ≢ half_open true

refused_opened :
    (b : BreakerState) (now : ℕ)
    → b ≢ half_open true
    → (admit b now).0 ≡ false
    → is_half_open (admit b now).1 ≡ false
unfolding admit
refused_opened (closed n) now h e = cc
refused_opened (opened until) now h e = ground arith
refused_opened (half_open true) now h e = absurd (h refl)
refused_opened (half_open false) now h e = cc

module _ (r : Router) (calls : ℕ → Call) (total : ℕ) where
  -- What follows a call that was sent.
  sent-walk :
      (ps : List ℕ) (s s' : Search)
      → Moved total 2 1 s s'
      → suc s.sent ≤ (carry_on (λ k. walk r calls total ps k) (after_provider r s')).sent
  sent-walk ps s s' m =
      unfold after_provider in
      (if_cases P (is_some s'.answer) _ _ (λ answered. here)
        (λ not_yet.
          if_cases P (is_some s'.empty_from && not r.empty_fallback) _ _ (λ empty. here)
            (λ full. later)))
    where
      P : Next → Type 0
      P n = suc s.sent ≤ (carry_on (λ k. walk r calls total ps k) n).sent

      here : suc s.sent ≤ s'.sent
      here = omega (arith, m.2)

      later : suc s.sent ≤ (walk r calls total ps s').sent
      later = let k = walk-Moved r calls total ps s' m.0 in omega (arith, m.2, k.2)

  -- One provider: passed over, or called.
  visit-sends :
      (p : ℕ) (ps : List ℕ) (s : Search)
      → s.clock + min_attempt_ms ≤ total
      → (not (admit (s.shared.breakers p) s.clock).0 ≡ true
          → passes_over s ps (admit (s.shared.breakers p) s.clock).1 ≡ true
          → suc s.sent ≤ (walk r calls total ps (skip s p)).sent)
      → suc s.sent ≤ (walk r calls total (p ∷ ps) s).sent
  unfolding walk visit
  visit-sends p ps s room passed =
      if_cases P (ltb (total - s.clock) min_attempt_ms) _ _ (λ short. absurd (ground arith))
        (λ long.
          if_cases P (not ok && passes_over s ps b) _ _
            (λ over. let (a, c) = and-eq-true (not ok) (passes_over s ps b) over in passed a c)
            (λ goes.
              sent-walk ps s (call_provider r calls total p s0)
                (call_provider-Moved r calls total p s0 (omega arith))))
    where
      P : Next → Type 0
      P n = suc s.sent ≤ (carry_on (λ k. walk r calls total ps k) n).sent

      ok : Bool
      ok = (admit (s.shared.breakers p) s.clock).0

      b : BreakerState
      b = (admit (s.shared.breakers p) s.clock).1

      s0 : Search
      s0 = record s { shared = set_breaker s.shared p b }

  walk-sends :
      (p : ℕ) (ps : List ℕ) (s : Search)
      → s.clock + min_attempt_ms ≤ total
      → IsQuiet s.shared
      → any s.attempts was_sent ≡ false
      → suc s.sent ≤ (walk r calls total (p ∷ ps) s).sent
  unfolding passes_over skip
  walk-sends p [] s room quiet none_yet = visit-sends p [] s room (λ no_call over. absurd (
      ground
        (arith, none_yet, refused_opened (s.shared.breakers p) s.clock (quiet p), no_call, over)))
  walk-sends p (q ∷ qs) s room quiet none_yet = visit-sends p (q ∷ qs) s room (λ no_call over.
      walk-sends q qs (skip s p) room quiet
        (any-append s.attempts (attempt_skipped p ∷ []) was_sent ∙ ground (arith, none_yet)))

-- When no probe of any provider is in flight and the total allows for one attempt, a search calls a
-- provider at least once, even if every breaker is open.
pub search_sends :
    (r : Router) (calls : ℕ → Call) (sh : Shared) (now : ℕ)
    → r.providers ≢ []
    → min_attempt_ms ≤ r.total_timeout_ms
    → IsQuiet sh
    → 1 ≤ (search r calls sh now).sent
unfolding search
search_sends r calls sh now some_provider room quiet = go r.providers refl
  where
    go :
        (ps : List ℕ)
        → r.providers ≡ ps
        → 1 ≤ (walk r calls (now + r.total_timeout_ms) ps (begin sh now)).sent
    go [] e = absurd (some_provider e)
    go (p ∷ ps) e =
        walk-sends r calls (now + r.total_timeout_ms) p ps (begin sh now) (omega (arith, room))
          quiet refl
