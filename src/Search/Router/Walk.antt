-- ===== src/Search/Router/Walk.antt =====
-- One search over the providers: the loops of `search` in search/router.ts and what it reports.
use browse_gateway.Base.{
  ℕ, suc, ◌+◌, ◌-◌, Bool, true, false, ◌&&◌, ◌||◌, not, Option, none, some, List, [], ◌∷◌, ◌++◌,
  ltb, leb, ◌==◌, if◌then◌else◌, any, is_some, or_else,
}
use browse_gateway.Search.Router.{
  min_attempt_ms, SearchFailureClass, rate_limited, quota_exhausted, authentication_failed,
  provider_unavailable, empty_results, total_deadline_exhausted, SearchProviderError, AttemptRecord,
  attempt_ok, attempt_empty, attempt_failed, attempt_skipped, BreakerState, ProviderMetrics, Shared,
  Router, min_of, max_of, set_breaker, count_in, admit, record_success, is_half_open, fail_shared,
  Call, outcome_ok, outcome_failed, run_attempt, Search,
}

abbrev timed : ℕ → ProviderMetrics → ProviderMetrics
timed ms pm = record pm {
  sent_attempts = suc pm.sent_attempts;
  duration_count = suc pm.duration_count;
  duration_sum = pm.duration_sum + ms;
  duration_max = max_of pm.duration_max ms;
}

abbrev pub is_empty_results : SearchFailureClass → Bool
is_empty_results empty_results = true
is_empty_results _ = false

abbrev pub is_rate_limited : SearchFailureClass → Bool
is_rate_limited rate_limited = true
is_rate_limited _ = false

-- The wait that a failure asks for, when it and one more attempt fit.
unfoldable pub retry_wait : SearchProviderError → Bool → ℕ → ℕ → Option ℕ
retry_wait error retried now provider_deadline =
    if is_rate_limited error.code && not retried
    then elim error.retry_after_ms [
      | some ms ↦ if leb (now + ms + min_attempt_ms) provider_deadline then some ms else none
      | none ↦ none
    ]
    else none

unfoldable pub on_ok : Search → ℕ → ℕ → List ℕ → Search
unfolding set_breaker
on_ok s p ms results = record s {
  shared =
      set_breaker (count_in s.shared p (λ pm. record pm { ok_count = suc pm.ok_count })) p
        record_success;
  attempts = s.attempts ++ attempt_ok p ms ∷ [];
  answer = some (p, results);
}

unfoldable pub on_empty : Router → Search → ℕ → ℕ → SearchProviderError → Search
on_empty r s p ms error = record s {
  shared =
      fail_shared r (count_in s.shared p (λ pm. record pm { empty_count = suc pm.empty_count })) p
        error.code s.clock;
  attempts = s.attempts ++ attempt_empty p error.http_status ms ∷ [];
  empty_from = some (or_else s.empty_from p);
}

unfoldable pub on_failure : Search → ℕ → ℕ → SearchProviderError → Bool → Search
on_failure s p ms error cut = record s {
  shared = count_in s.shared p (λ pm. record pm { failed_codes = error.code ∷ pm.failed_codes });
  attempts = s.attempts ++ attempt_failed p error ms ∷ [];
  failures = s.failures ++ error ∷ [];
  deadline_cut = s.deadline_cut || cut;
}

-- The wait before the same provider is called again.
unfoldable pub wait_retry : Search → ℕ → ℕ → (Shared → Shared) → Search
wait_retry s p ms asleep = record s {
  clock = s.clock + ms;
  shared = asleep (count_in s.shared p (λ pm. record pm { retries = suc pm.retries }));
}

unfoldable pub give_up : Router → Search → ℕ → SearchProviderError → Search
give_up r s p error = record s { shared = fail_shared r s.shared p error.code s.clock }

-- The search when a call has ended.
unfoldable pub after_call : Search → ℕ → ℕ → Call → Search
unfolding run_attempt
after_call s p provider_deadline call =
    let end = (run_attempt s.clock provider_deadline call).1 in
    record s {
      clock = end;
      sent = suc s.sent;
      shared = count_in (call.meanwhile s.shared) p (timed (end - s.clock));
    }

-- One round of the loop over one provider; `again` is the round that follows a wait.
unfoldable pub round : Router → (ℕ → Call) → ℕ → ℕ → ℕ → Bool → (Search → Search) → Search → Search
unfolding after_call run_attempt retry_wait
round r calls total_deadline p provider_deadline retried again s =
    let call = calls s.sent in
    let s1 = after_call s p provider_deadline call in
    let ms = s1.clock - s.clock in
    elim (run_attempt s.clock provider_deadline call).0 [
      | outcome_ok results ↦ on_ok s1 p ms results
      | outcome_failed error timed_out ↦
          if is_empty_results error.code
          then on_empty r s1 p ms error
          else let s2 =
              on_failure s1 p ms error (timed_out && provider_deadline == total_deadline) in
            elim (retry_wait error retried s2.clock provider_deadline) [
              | some wait ↦ again (wait_retry s2 p wait call.asleep)
              | none ↦ give_up r s2 p error
            ]
    ]

-- The loop over one provider: a second round at most.
unfoldable pub call_provider : Router → (ℕ → Call) → ℕ → ℕ → Search → Search
unfolding round
call_provider r calls total_deadline p s =
    let provider_deadline = min_of (s.clock + r.provider_budget_ms) total_deadline in
    round r calls total_deadline p provider_deadline false
      (round r calls total_deadline p provider_deadline true (λ s'. s')) s

abbrev pub was_sent : AttemptRecord → Bool
was_sent (attempt_skipped _) = false
was_sent _ = true

abbrev is_last : List ℕ → Bool
is_last [] = true
is_last (_ ∷ _) = false

unfoldable pub skip : Search → ℕ → Search
skip s p = record s {
  shared = count_in s.shared p (λ pm. record pm { skipped = suc pm.skipped });
  attempts = s.attempts ++ attempt_skipped p ∷ [];
}

-- How the loop over the providers goes on.
pub data Next : Type 0 where
  goes_on : Search → Next
  stops : Search → Next

abbrev pub carry_on : (Search → Search) → Next → Search
carry_on f (goes_on s) = f s
carry_on f (stops s) = s

unfoldable pub after_provider : Router → Search → Next
after_provider r s =
    if is_some s.answer
    then stops s
    else if is_some s.empty_from && not r.empty_fallback
    then stops s
    else goes_on s

-- Whether a refused provider is passed over: all but the last resort.
unfoldable pub passes_over : Search → List ℕ → BreakerState → Bool
passes_over s rest b = not (is_last rest) || (any s.attempts was_sent || is_half_open b)

-- One provider of the loop; `rest` are those after it.
unfoldable pub visit : Router → (ℕ → Call) → ℕ → ℕ → List ℕ → Search → Next
unfolding admit set_breaker after_provider passes_over
visit r calls total_deadline p rest s =
    if ltb (total_deadline - s.clock) min_attempt_ms
    then stops (record s { deadline_cut = true })
    else let (ok, b) = admit (s.shared.breakers p) s.clock in
      if not ok && passes_over s rest b
      then goes_on (skip s p)
      else after_provider r
          (call_provider r calls total_deadline p (record s { shared = set_breaker s.shared p b }))

unfoldable pub walk : Router → (ℕ → Call) → ℕ → List ℕ → Search → Search
unfolding visit
walk r calls total_deadline [] s = s
walk r calls total_deadline (p ∷ ps) s =
    carry_on (λ s'. walk r calls total_deadline ps s') (visit r calls total_deadline p ps s)

abbrev pub class_is : SearchFailureClass → SearchFailureClass → Bool
class_is authentication_failed authentication_failed = true
class_is quota_exhausted quota_exhausted = true
class_is rate_limited rate_limited = true
class_is _ _ = false

abbrev has_class : List SearchProviderError → SearchFailureClass → Bool
has_class failures code = any failures (λ e. class_is code e.code)

-- The class that a search with failures alone reports.
unfoldable pub final_class : List SearchProviderError → SearchFailureClass
final_class [] = provider_unavailable
final_class (e ∷ failures) =
    if has_class (e ∷ failures) authentication_failed
    then authentication_failed
    else if has_class (e ∷ failures) quota_exhausted
    then quota_exhausted
    else if has_class (e ∷ failures) rate_limited
    then rate_limited
    else e.code

pub data SearchOutcome : Type 0 where
  fulfilled : ℕ → List ℕ → SearchOutcome
  failed : SearchFailureClass → SearchOutcome

unfoldable pub outcome : Search → SearchOutcome
unfolding final_class
outcome s = elim s.answer [
  | some (p, results) ↦ fulfilled p results
  | none ↦ elim s.empty_from [
    | some p ↦ fulfilled p []
    | none ↦
        if s.deadline_cut then failed total_deadline_exhausted else failed (final_class s.failures)
  ]
]

abbrev first_sent : List AttemptRecord → Option ℕ
first_sent [] = none
first_sent (attempt_ok p ms ∷ rest) = some p
first_sent (attempt_empty p status ms ∷ rest) = some p
first_sent (attempt_failed p error ms ∷ rest) = some p
first_sent (attempt_skipped p ∷ rest) = first_sent rest

-- The counters of the router after a search.
unfoldable pub tally : Search → Shared
tally s = elim s.answer [
  | some (p, results) ↦
      if or_else (first_sent s.attempts) p == p
      then s.shared
      else record s.shared { fallback_fulfilled = suc s.shared.fallback_fulfilled }
  | none ↦
      if not (is_some s.empty_from) && s.deadline_cut
      then record s.shared { deadline_exhausted = suc s.shared.deadline_exhausted }
      else s.shared
]

abbrev pub begin : Shared → ℕ → Search
begin sh now = record {
  clock = now;
  shared = record sh { searches = suc sh.searches };
  attempts = [];
  failures = [];
  deadline_cut = false;
  empty_from = none;
  sent = 0;
  answer = none;
}

-- A search from its start.
unfoldable pub search : Router → (ℕ → Call) → Shared → ℕ → Search
unfolding walk
search r calls sh now = walk r calls (now + r.total_timeout_ms) r.providers (begin sh now)
