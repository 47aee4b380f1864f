-- ===== src/Search/Tests.antt =====
-- Searches at concrete inputs.
use browse_gateway.Base.{
  ℕ, ◌≤◌, ◌≡◌, ◌⊎◌, refl, true, none, some, [], ◌∷◌, arith, ◌==◌, if◌then◌else◌,
}
use browse_gateway.Search.Router.{
  SearchFailureClass, timeout, network_error, SearchProviderError, closed, opened, record_failure,
  admit, ProviderMetrics, Shared, Router, Call, answers, run_attempt, set_breaker, opens,
}
use browse_gateway.Search.Router.Walk.{
  search, fulfilled, outcome, walk, visit, call_provider, round, after_call, retry_wait, on_ok,
  on_failure, give_up, after_provider,
}
use browse_gateway.Search.Router.Breaker.{let_through, one_probe, fail_all, opens_at_threshold}
use browse_gateway.Search.Router.Create.{
  SearchRouterOptions, create_search_router, create_search_router_sound, distinct_from, occurs,
  IsCreated,
}
use browse_gateway.Base.Ids.{mem, put}
use browse_gateway.Search.Router.Sends.{search_sends}

abbrev two_providers : Router
two_providers = record {
  providers = 1 ∷ 2 ∷ [];
  provider_budget_ms = 5000;
  total_timeout_ms = 8000;
  threshold = 2;
  cooldown_ms = 300000;
  empty_fallback = true;
}

abbrev no_metrics : ProviderMetrics
no_metrics = record {
  sent_attempts = 0;
  ok_count = 0;
  empty_count = 0;
  failed_codes = [];
  skipped = 0;
  retries = 0;
  breaker_opened = 0;
  duration_count = 0;
  duration_sum = 0;
  duration_max = 0;
}

-- Every breaker is open.
abbrev all_open : Shared
all_open = record {
  breakers = λ p. opened 900000;
  metrics = λ p. no_metrics;
  searches = 0;
  fallback_fulfilled = 0;
  deadline_exhausted = 0;
}

abbrev all_closed : Shared
all_closed = record all_open { breakers = λ p. closed 0 }

-- The first call hangs, the second answers after 40 ms.
abbrev slow_then_good : ℕ → Call
slow_then_good n = record {
  delay = if n == 0 then none else some 40;
  settlement = answers (11 ∷ 12 ∷ []);
  meanwhile = λ sh. sh;
  asleep = λ sh. sh;
}

falls_back :
    outcome (search two_providers slow_then_good all_closed 1000) ≡ fulfilled 2 (11 ∷ 12 ∷ [])
unfolding outcome search walk visit admit set_breaker call_provider round after_call run_attempt
    retry_wait on_ok on_failure give_up after_provider record_failure opens
falls_back = refl

search_sends_example : 1 ≤ (search two_providers slow_then_good all_open 1000).sent
search_sends_example =
    search_sends two_providers slow_then_good all_open 1000 (λ e. cc) (omega arith) (λ q e. cc)

one_probe_example :
    (let_through (opened 100) (50 ∷ 100 ∷ 120 ∷ 300 ∷ []) ≤ 1)
    × (let_through (opened 100) (50 ∷ 100 ∷ 120 ∷ 300 ∷ []) ≡ 1)
one_probe_example = one_probe (opened 100) (50 ∷ 100 ∷ 120 ∷ 300 ∷ []) (λ m e. cc)

opens_at_threshold_example :
    (fail_all 2 300000 (closed 0) ((timeout, 10) ∷ []) ≡ closed 1)
    × (fail_all 2 300000 (closed 0) ((timeout, 10) ∷ (network_error, 20) ∷ []) ≡ opened 300020)
opens_at_threshold_example =
    opens_at_threshold 2 300000 0 ((timeout, 10) ∷ []) network_error 20 (refl, tt) refl refl

abbrev plain : SearchFailureClass → SearchProviderError
plain code = record { code = code; http_status = none; retry_after_ms = none }

abbrev options : SearchRouterOptions
options = record {
  configured = 1 ∷ 2 ∷ [];
  provider_timeout_ms = 9000;
  search_timeout_ms = 8000;
  breaker_threshold = none;
  breaker_cooldown_ms = none;
  empty_results_fallback = none;
}

abbrev created : Router
created = record two_providers { provider_budget_ms = 8000 }

creates : create_search_router options ≡ some created
unfolding create_search_router distinct_from mem put
creates = refl

create_search_router_sound_example :
    ((create_search_router options ≡ none)
      × ((options.configured ≡ []) ⊎ ((p : ℕ) × (2 ≤ occurs p options.configured))))
    ⊎ ((r : Router) × (create_search_router options ≡ some r)
        × (r.providers ≡ options.configured)
        × IsCreated options slow_then_good 1000 r)
create_search_router_sound_example = create_search_router_sound options slow_then_good 1000
