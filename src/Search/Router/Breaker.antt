-- ===== src/Search/Router/Breaker.antt =====
-- The circuit breaker of a provider, over any sequence of the searches that share it.
use browse_gateway.Base.{
  ℕ, suc, ◌+◌, ◌≤◌, ◌≡◌, refl, inl, inr, true, false, List, [], ◌∷◌, ◌++◌, arith, length, ltb, leb,
  any, if◌then◌else◌, Bool-cases, ◌∙◌, ap,
}
use browse_gateway.Search.Router.{
  SearchFailureClass, counts, class_policy, BreakerState, closed, opened, half_open, admit,
  record_failure,
}

-- How many of the calls at the times are let through, when no outcome is recorded between them.
abbrev pub let_through : BreakerState → List ℕ → ℕ
let_through b [] = 0
let_through b (now ∷ times) =
    if (admit b now).0
    then suc (let_through (admit b now).1 times)
    else let_through (admit b now).1 times

probing_none : (times : List ℕ) → let_through (half_open true) times ≡ 0
unfolding admit
probing_none [] = refl
probing_none (now ∷ times) = probing_none times

-- What a breaker that is not closed owes to the calls at the times: the probe under way bars all, and
-- an open one waits for a call that comes when its cooldown is over.
abbrev pub probes : BreakerState → List ℕ → ℕ
probes (closed m) times = length times
probes (opened until) times = if any times (leb until) then 1 else 0
probes (half_open true) times = 0
probes (half_open false) [] = 0
probes (half_open false) (now ∷ times) = 1

lets_probes : (b : BreakerState) (times : List ℕ) → let_through b times ≡ probes b times
unfolding admit
lets_probes (closed m) [] = refl
lets_probes (closed m) (now ∷ times) = ap suc (lets_probes (closed m) times)
lets_probes (opened until) [] = refl
lets_probes (opened until) (now ∷ times) = elim (Bool-cases (ltb now until)) [
  | inl early ↦ rw early (lets_probes (opened until) times ∙ ground (arith, early))
  | inr late ↦ rw late (ap suc (probing_none times) ∙ ground (arith, late))
]
lets_probes (half_open true) times = probing_none times
lets_probes (half_open false) [] = refl
lets_probes (half_open false) (now ∷ times) = ap suc (probing_none times)

-- Until an outcome is recorded, a breaker that is not closed lets one call through at most, whenever
-- the calls come. An open one lets one through exactly when some call comes after its cooldown is
-- over; one with a probe under way none; and one with no probe under way one if any comes.
pub one_probe :
    (b : BreakerState) (times : List ℕ)
    → ((m : ℕ) → b ≡ closed m → ⊥)
    → (let_through b times ≤ 1) × (let_through b times ≡ probes b times)
one_probe (closed m) times h = absurd (h m refl)
one_probe (opened until) times h =
    let e = lets_probes (opened until) times in (ground (arith, e), e)
one_probe (half_open true) times h =
    let e = lets_probes (half_open true) times in (omega (arith, e), e)
one_probe (half_open false) [] h = let e = lets_probes (half_open false) [] in (omega (arith, e), e)
one_probe (half_open false) (now ∷ times) h =
    let e = lets_probes (half_open false) (now ∷ times) in (omega (arith, e), e)

-- A run of failures, each with its class and its time.
abbrev pub fail_all : ℕ → ℕ → BreakerState → List (SearchFailureClass × ℕ) → BreakerState
fail_all threshold cooldown_ms b [] = b
fail_all threshold cooldown_ms b ((code, now) ∷ fs) =
    fail_all threshold cooldown_ms (record_failure threshold cooldown_ms b code now) fs

-- Every class of the run is one that counts.
abbrev pub AllCount : List (SearchFailureClass × ℕ) → Type 0
AllCount [] = Unit
AllCount ((code, now) ∷ fs) = (class_policy code ≡ counts) × AllCount fs

counts_up :
    (threshold cooldown_ms k now : ℕ) (code : SearchFailureClass)
    → class_policy code ≡ counts
    → record_failure threshold cooldown_ms (closed k) code now
      ≡ (if leb threshold (suc k) then opened (now + cooldown_ms) else closed (suc k))
unfolding record_failure
counts_up threshold cooldown_ms k now code h = rw h

-- From a closed breaker with `k` failures, counted failures in a row leave it closed while they are
-- short of the threshold, and the one that reaches the threshold opens it for the cooldown from then.
pub opens_at_threshold :
    (threshold cooldown_ms k : ℕ) (fs : List (SearchFailureClass × ℕ)) (code : SearchFailureClass)
    (now : ℕ)
    → AllCount fs
    → class_policy code ≡ counts
    → k + suc (length fs) ≡ threshold
    → (fail_all threshold cooldown_ms (closed k) fs ≡ closed (k + length fs))
      × (fail_all threshold cooldown_ms (closed k) (fs ++ (code, now) ∷ [])
          ≡ opened (now + cooldown_ms))
opens_at_threshold threshold cooldown_ms k [] code now all c reach =
    (ground arith, counts_up threshold cooldown_ms k now code c ∙ ground arith)
opens_at_threshold threshold cooldown_ms k ((code', now') ∷ fs) code now all c reach =
    let step : record_failure threshold cooldown_ms (closed k) code' now' ≡ closed (suc k) =
      counts_up threshold cooldown_ms k now' code' all.0 ∙ ground arith in
    let (stays, trips_now) =
      opens_at_threshold threshold cooldown_ms (suc k) fs code now all.1 c (omega arith) in
    (
      ap (λ b. fail_all threshold cooldown_ms b fs) step ∙ stays ∙ ap closed (omega arith),
      ap (λ b. fail_all threshold cooldown_ms b (fs ++ (code, now) ∷ [])) step ∙ trips_now,
    )
