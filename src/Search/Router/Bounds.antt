-- ===== src/Search/Router/Bounds.antt =====
-- The time and the calls of a search (search/router.ts).
use browse_gateway.Base.{
  ℕ, suc, ◌+◌, ◌*◌, ◌-◌, ◌≤◌, ◌≡◌, refl, Bool, true, false, ◌&&◌, not, Option, none, some, List, [],
  ◌∷◌, arith, length, ltb, ◌==◌, if◌then◌else◌, if_cases, is_some,
}
use browse_gateway.Search.Router.{
  min_attempt_ms, SearchProviderError, BreakerState, Router, min_of, set_breaker, admit, Call,
  AttemptOutcome, outcome_ok, outcome_failed, run_attempt, Search,
}
use browse_gateway.Search.Router.Walk.{
  is_empty_results, retry_wait, on_ok, on_empty, on_failure, wait_retry, give_up, after_call, round,
  call_provider, skip, Next, goes_on, stops, carry_on, after_provider, passes_over, visit, walk,
}

run_attempt_end :
    (now deadline : ℕ) (call : Call) → now ≤ deadline → (run_attempt now deadline call).1 ≤ deadline
unfolding run_attempt
run_attempt_end now deadline call h = ground arith

-- A search that moved on: by its deadline, and by so many calls at most and at least.
abbrev pub Moved : ℕ → ℕ → ℕ → Search → Search → Type 0
Moved deadline most least s s' =
    (s'.clock ≤ deadline) × (s'.sent ≤ most + s.sent) × (least + s.sent ≤ s'.sent)

after_call-Moved :
    (s : Search) (p pd : ℕ) (call : Call) → s.clock ≤ pd → Moved pd 1 1 s (after_call s p pd call)
unfolding after_call
after_call-Moved s p pd call h = (run_attempt_end s.clock pd call h, omega arith, omega arith)

retry_wait_fits :
    (e : SearchProviderError) (retried : Bool) (now pd ms : ℕ)
    → retry_wait e retried now pd ≡ some ms
    → now + ms ≤ pd
unfolding retry_wait
retry_wait_fits e retried now pd ms h = ground arith

module _ (r : Router) (calls : ℕ → Call) (total p pd n : ℕ) (retried : Bool)
    (again : Search → Search) (on : (s : Search) → s.clock ≤ pd → Moved pd n 0 s (again s)) where
  round-Moved :
      (s : Search) → s.clock ≤ pd → Moved pd (suc n) 1 s (round r calls total p pd retried again s)
  unfolding round
  round-Moved s h = ended (run_attempt s.clock pd (calls s.sent)).0
    where
      s1 : Search
      s1 = after_call s p pd (calls s.sent)

      first : Moved pd 1 1 s s1
      first = after_call-Moved s p pd (calls s.sent) h

      failed_on :
          (e : SearchProviderError) (cut : Bool) (w : Option ℕ)
          → retry_wait e retried (on_failure s1 p (s1.clock - s.clock) e cut).clock pd ≡ w
          → Moved pd (suc n) 1 s (elim w [
            | some wait ↦ again (
                wait_retry
                  (on_failure s1 p (s1.clock - s.clock) e cut)
                  p
                  wait
                  (calls s.sent).asleep)
            | none ↦ give_up r (on_failure s1 p (s1.clock - s.clock) e cut) p e
          ])
      failed_on e cut none w =
          unfold give_up on_failure in (first.0, omega (arith, first.1), omega (arith, first.2))
      failed_on e cut (some wait) w =
          let fits =
            retry_wait_fits e retried (on_failure s1 p (s1.clock - s.clock) e cut).clock pd wait
              w in
          let m =
            on
              (wait_retry (on_failure s1 p (s1.clock - s.clock) e cut) p wait (calls s.sent).asleep)
              (unfold wait_retry in fits) in
          (
            m.0,
            omega (arith, first.1, m.1, same e cut wait),
            omega (arith, first.2, m.2, same e cut wait),
          )
        where
          same :
              (e : SearchProviderError) (cut : Bool) (wait : ℕ)
              → (wait_retry
                  (on_failure s1 p (s1.clock - s.clock) e cut)
                  p
                  wait
                  (calls s.sent).asleep).sent
                ≡ s1.sent
          same e cut wait = unfold wait_retry on_failure in refl

      ended :
          (o : AttemptOutcome)
          → Moved pd (suc n) 1 s (elim o [
            | outcome_ok results ↦ on_ok s1 p (s1.clock - s.clock) results
            | outcome_failed error timed_out ↦
                if is_empty_results error.code
                then on_empty r s1 p (s1.clock - s.clock) error
                else elim (retry_wait error retried
                    (on_failure s1 p (s1.clock - s.clock) error (timed_out && pd == total)).clock
                    pd) [
                      | some wait ↦ again (
                          wait_retry
                            (on_failure s1 p (s1.clock - s.clock) error (timed_out && pd == total))
                            p
                            wait
                            (calls s.sent).asleep)
                      | none ↦
                          give_up r
                            (on_failure s1 p (s1.clock - s.clock) error (timed_out && pd == total))
                            p
                            error
                    ]
          ])
      ended (outcome_ok results) =
          unfold on_ok in (first.0, omega (arith, first.1), omega (arith, first.2))
      ended (outcome_failed e timed_out) =
          if_cases (λ k. Moved pd (suc n) 1 s k) (is_empty_results e.code) _ _
            (λ nothing.
              unfold on_empty in (first.0, omega (arith, first.1), omega (arith, first.2)))
            (λ bad.
              failed_on e (timed_out && pd == total)
                (retry_wait e retried
                  (on_failure s1 p (s1.clock - s.clock) e (timed_out && pd == total)).clock pd)
                refl)

module _ (r : Router) (calls : ℕ → Call) (total : ℕ) where
  pub call_provider-Moved :
      (p : ℕ) (s : Search) → s.clock ≤ total → Moved total 2 1 s (call_provider r calls total p s)
  unfolding call_provider
  call_provider-Moved p s h =
      let pd = min_of (s.clock + r.provider_budget_ms) total in
      let second : (s' : Search)
          → s'.clock ≤ pd
          → Moved pd 1 0 s' (round r calls total p pd true (λ a. a) s') =
        λ s' k.
          let m =
            round-Moved r calls total p pd 0 true (λ a. a) (λ a j. (j, omega arith, omega arith)) s'
              k in
          (m.0, m.1, omega (arith, m.2)) in
      let m =
        round-Moved r calls total p pd 1 false (round r calls total p pd true (λ a. a)) second s
          (ground arith) in
      (late pd m.0 (ground arith), m.1, m.2)
    where
      late : {a : ℕ} (b : ℕ) → a ≤ b → b ≤ total → a ≤ total
      late b h k = omega arith

  -- What the loop goes on or stops with.
  abbrev state_of : Next → Search
  state_of (goes_on s) = s
  state_of (stops s) = s

  visit-Moved :
      (p : ℕ) (rest : List ℕ) (s : Search)
      → s.clock ≤ total
      → Moved total 2 0 s (state_of (visit r calls total p rest s))
  unfolding visit
  visit-Moved p rest s h =
      if_cases (λ k. Moved total 2 0 s (state_of k)) (ltb (total - s.clock) min_attempt_ms) _ _
        (λ short. (h, omega arith, omega arith))
        (λ room.
          if_cases (λ k. Moved total 2 0 s (state_of k)) (not ok && passes_over s rest b) _ _
            (λ over. unfold skip in (h, omega arith, omega arith))
            (λ sent.
              kept (call_provider r calls total p s0)
                (called (call_provider r calls total p s0) (call_provider-Moved p s0 h))))
    where
      ok : Bool
      ok = (admit (s.shared.breakers p) s.clock).0

      b : BreakerState
      b = (admit (s.shared.breakers p) s.clock).1

      s0 : Search
      s0 = record s { shared = set_breaker s.shared p b }

      called : (s' : Search) → Moved total 2 1 s0 s' → Moved total 2 0 s s'
      called s' m = (m.0, m.1, omega (arith, m.2))

      kept :
          (s' : Search) → Moved total 2 0 s s' → Moved total 2 0 s (state_of (after_provider r s'))
      kept s' m =
          unfold after_provider in
          (if_cases (λ k. Moved total 2 0 s (state_of k)) (is_some s'.answer) _ _ (λ answered. m)
            (λ not_yet.
              if_cases (λ k. Moved total 2 0 s (state_of k))
                (is_some s'.empty_from && not r.empty_fallback) _ _ (λ empty. m) (λ full. m)))

  pub walk-Moved :
      (ps : List ℕ) (s : Search)
      → s.clock ≤ total
      → Moved total (2 * length ps) 0 s (walk r calls total ps s)
  unfolding walk
  walk-Moved [] s h = (h, omega arith, omega arith)
  walk-Moved (p ∷ ps) s h =
      go (λ s' k. walk-Moved ps s' k) (visit r calls total p ps s) (visit-Moved p ps s h)
    where
      go :
          ((s' : Search)
            → s'.clock ≤ total
            → Moved total (2 * length ps) 0 s' (walk r calls total ps s'))
          → (n : Next) → Moved total 2 0 s (state_of n)
          → Moved total (2 * length (p ∷ ps)) 0 s (carry_on (λ s'. walk r calls total ps s') n)
      go later (goes_on s') m =
          let k = later s' m.0 in (k.0, omega (arith, m.1, k.1), omega (arith, m.2, k.2))
      go later (stops s') m = (m.0, omega (arith, m.1), omega (arith, m.2))
