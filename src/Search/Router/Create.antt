-- ===== src/Search/Router/Create.antt =====
-- The construction of a router: `createSearchRouter` of search/router.ts up to its functions.
use browse_gateway.Base.{
  ℕ, suc, ◌≤◌, ◌<◌, ◌≡◌, ◌≢◌, ◌⊎◌, inl, inr, refl, subst, Bool, true, false, Option, none, some,
  List, [], ◌∷◌, arith, if◌then◌else◌, or_else, ap, ◌∙◌, sym, ◌==◌, ==_iff, Bool-cases, ltb,
}
use browse_gateway.Base.Ids.{mem, put, mem-put}
use browse_gateway.Search.Router.{
  Router, Shared, ProviderMetrics, closed, Call, min_attempt_ms, min_of, max_of,
}
use browse_gateway.Search.Router.Walk.{search}
use browse_gateway.Search.Router.Sends.{search_sends}

pub record SearchRouterOptions : Type 0 where
  pub configured : List ℕ
  pub provider_timeout_ms : ℕ
  pub search_timeout_ms : ℕ
  pub breaker_threshold : Option ℕ
  pub breaker_cooldown_ms : Option ℕ
  pub empty_results_fallback : Option Bool

-- No name is in the list twice, or among those seen.
unfoldable pub distinct_from : List ℕ → List ℕ → Bool
distinct_from seen [] = true
distinct_from seen (p ∷ ps) = if mem p seen then false else distinct_from (put seen p) ps

abbrev is_nil : List ℕ → Bool
is_nil [] = true
is_nil (_ ∷ _) = false

abbrev built_router : SearchRouterOptions → Router
built_router o = record {
  providers = o.configured;
  provider_budget_ms = min_of o.provider_timeout_ms o.search_timeout_ms;
  total_timeout_ms = o.search_timeout_ms;
  threshold = max_of 1 (or_else o.breaker_threshold 2);
  cooldown_ms = or_else o.breaker_cooldown_ms 300000;
  empty_fallback = or_else o.empty_results_fallback true;
}

-- `none` where it throws.
unfoldable pub create_search_router : SearchRouterOptions → Option Router
unfolding distinct_from
create_search_router o =
    if is_nil o.configured
    then none
    else if distinct_from [] o.configured
    then some (built_router o)
    else none

unfoldable pub empty_provider_metrics : ProviderMetrics
empty_provider_metrics = record {
  sent_attempts = 0;
  ok_count = 0;
  empty_count = 0;
  failed_codes = [];
  skipped = 0;
  retries = 0;
  breaker_opened = 0;
  duration_count = 0;
  duration_sum = 0;
  duration_max = 0;
}

-- What the searches of a new router share.
unfoldable pub new_shared : Shared
new_shared = record {
  breakers = λ p. closed 0;
  metrics = λ p. empty_provider_metrics;
  searches = 0;
  fallback_fulfilled = 0;
  deadline_exhausted = 0;
}

-- How often the name is in the list.
abbrev pub occurs : ℕ → List ℕ → ℕ
occurs p [] = 0
occurs p (q ∷ qs) = if q == p then suc (occurs p qs) else occurs p qs

occurs-once :
    (seen ps : List ℕ)
    → distinct_from seen ps ≡ true
    → (p : ℕ) → (occurs p ps ≤ 1) × (mem p seen ≡ true → occurs p ps ≡ 0)
unfolding distinct_from
occurs-once seen [] e p = (omega arith, λ h. refl)
occurs-once seen (q ∷ ps) e p =
    let fresh : mem q seen ≡ false = ground (arith, e) in
    let rest : distinct_from (put seen q) ps ≡ true = ground (arith, e) in
    let (once, none_seen) = occurs-once (put seen q) ps rest p in
    elim (Bool-cases (q == p)) [
      | inl same ↦ (
        ground (arith, none_seen (mem-put p q seen ∙ ground (arith, same)), same),
        λ h. absurd (cc (fresh, subst (λ x. mem x seen ≡ true) (sym ((==_iff q p).0 same)) h)),
      )
      | inr other ↦ (
        ground (arith, once, other),
        λ h. ground (arith, none_seen (mem-put p q seen ∙ ground (arith, h)), other),
      )
    ]

occurs-twice :
    (seen ps : List ℕ)
    → distinct_from seen ps ≡ false
    → (p : ℕ) × ((2 ≤ occurs p ps) ⊎ ((1 ≤ occurs p ps) × (mem p seen ≡ true)))
unfolding distinct_from
occurs-twice seen [] e = absurd (cc e)
occurs-twice seen (q ∷ ps) e = elim (Bool-cases (mem q seen)) [
  | inl known ↦ (q, inr (ground arith, known))
  | inr fresh ↦
      let (p, r) = occurs-twice (put seen q) ps (ground (arith, e, fresh)) in
      elim r [
        | inl twice ↦ (p, inl (ground (arith, twice)))
        | inr (once, there) ↦ elim (Bool-cases (q == p)) [
          | inl same ↦ (p, inl (ground (arith, once, same)))
          | inr other ↦ (
            p,
            inr (
              ground (arith, once, other),
              ground (arith, sym (mem-put p q seen) ∙ there, other),
            ),
          )
        ]
      ]
]

nil_of : (ps : List ℕ) → is_nil ps ≡ true → ps ≡ []
nil_of [] e = refl
nil_of (p ∷ ps) e = absurd (cc e)

full_of : (ps : List ℕ) → is_nil ps ≡ false → ps ≢ []
full_of ps h e = absurd (ground (arith, ap is_nil e))

-- What holds of a router that was created of the options, and of its first search.
pub record IsCreated (o : SearchRouterOptions) (calls : ℕ → Call) (now : ℕ) (r : Router)
    : Type 0 where
  pub has_provider : r.providers ≢ []
  pub no_provider_twice : (p : ℕ) → occurs p r.providers ≤ 1
  pub opens_after_one : 1 ≤ r.threshold
  pub keeps_within : r.provider_budget_ms ≤ r.total_timeout_ms
  pub calls_one : (r.total_timeout_ms < min_attempt_ms) ⊎ (1 ≤ (search r calls new_shared now).sent)

built-IsCreated :
    (o : SearchRouterOptions) (calls : ℕ → Call) (now : ℕ)
    → is_nil o.configured ≡ false
    → distinct_from [] o.configured ≡ true
    → IsCreated o calls now (built_router o)
built-IsCreated o calls now full distinct = record {
  has_provider = full_of o.configured full;
  no_provider_twice = λ p. (occurs-once [] o.configured distinct p).0;
  opens_after_one = ground arith;
  keeps_within = ground arith;
  calls_one = elim (Bool-cases (ltb o.search_timeout_ms min_attempt_ms)) [
    | inl short ↦ inl (ground (arith, short))
    | inr room ↦ inr (
        search_sends (built_router o) calls new_shared now (full_of o.configured full)
          (ground (arith, room)) (λ q open_probe. unfold new_shared in cc))
  ];
}

-- A router is refused exactly when no provider is configured or one is configured twice. One that is
-- created counts at least one failure before it opens a breaker and gives no provider more time than
-- the whole search; and where that is enough for one attempt, its first search makes a call, whatever
-- its providers do.
pub create_search_router_sound :
    (o : SearchRouterOptions) (calls : ℕ → Call) (now : ℕ)
    → ((create_search_router o ≡ none)
        × ((o.configured ≡ []) ⊎ ((p : ℕ) × (2 ≤ occurs p o.configured))))
      ⊎ ((r : Router) × (create_search_router o ≡ some r)
          × (r.providers ≡ o.configured)
          × IsCreated o calls now r)
unfolding create_search_router
create_search_router_sound o calls now = elim (Bool-cases (is_nil o.configured)) [
  | inl empty ↦ inl (ground (arith, empty), inl (nil_of o.configured empty))
  | inr full ↦ elim (Bool-cases (distinct_from [] o.configured)) [
    | inl distinct ↦ inr (
      built_router o,
      ground (arith, full, distinct),
      refl,
      built-IsCreated o calls now full distinct,
    )
    | inr twice ↦
        inl (ground (arith, full, twice), inr (repeated (occurs-twice [] o.configured twice)))
  ]
]
  where
    repeated :
        (p : ℕ) × ((2 ≤ occurs p o.configured) ⊎ ((1 ≤ occurs p o.configured) × (mem p [] ≡ true)))
        → (p : ℕ) × (2 ≤ occurs p o.configured)
    repeated (p, inl twice) = (p, twice)
    repeated (p, inr (once, seen)) = absurd (unfold mem in cc seen)
