-- ===== src/Search/Router.antt =====
-- The ordered search-provider router: search/router.ts, with the failure classes of
-- search/types.ts. Providers, results and times are numbers. One search is a function; what the
-- providers answer, and what other searches do to the shared state while this one waits, are its
-- arguments.
pub mod Breaker
pub mod Walk
pub mod Create
pub mod Bounds
pub mod Sends
pub mod Verdict
use browse_gateway.Base.{
  ℕ, suc, ◌+◌, ◌-◌, Bool, true, false, ◌&&◌, ◌||◌, not, Option, none, some, List, [], ◌∷◌, ◌++◌,
  ltb, leb, ◌==◌, if◌then◌else◌, any, is_some, or_else,
}

abbrev pub min_attempt_ms : ℕ
min_attempt_ms = 500

pub data SearchFailureClass : Type 0 where
  rate_limited quota_exhausted authentication_failed provider_unavailable timeout network_error
        malformed_response empty_results unsupported_query policy_restricted captcha
        challenge_interstitial total_deadline_exhausted :
      SearchFailureClass

pub record SearchProviderError : Type 0 where
  pub code : SearchFailureClass
  pub http_status : Option ℕ
  pub retry_after_ms : Option ℕ

pub data AttemptRecord : Type 0 where
  attempt_ok : ℕ → ℕ → AttemptRecord
  attempt_empty : ℕ → Option ℕ → ℕ → AttemptRecord
  attempt_failed : ℕ → SearchProviderError → ℕ → AttemptRecord
  attempt_skipped : ℕ → AttemptRecord

pub data BreakerState : Type 0 where
  closed : ℕ → BreakerState
  opened : ℕ → BreakerState
  half_open : Bool → BreakerState

pub data Policy : Type 0 where
  trips counts ignores : Policy

abbrev pub class_policy : SearchFailureClass → Policy
class_policy authentication_failed = trips
class_policy quota_exhausted = trips
class_policy unsupported_query = ignores
class_policy empty_results = ignores
class_policy policy_restricted = ignores
class_policy _ = counts

pub record ProviderMetrics : Type 0 where
  pub sent_attempts : ℕ
  pub ok_count : ℕ
  pub empty_count : ℕ
  pub failed_codes : List SearchFailureClass
  pub skipped : ℕ
  pub retries : ℕ
  pub breaker_opened : ℕ
  pub duration_count : ℕ
  pub duration_sum : ℕ
  pub duration_max : ℕ

-- What every search of one router shares.
pub record Shared : Type 0 where
  pub breakers : ℕ → BreakerState
  pub metrics : ℕ → ProviderMetrics
  pub searches : ℕ
  pub fallback_fulfilled : ℕ
  pub deadline_exhausted : ℕ

pub record Router : Type 0 where
  pub providers : List ℕ
  pub provider_budget_ms : ℕ
  pub total_timeout_ms : ℕ
  pub threshold : ℕ
  pub cooldown_ms : ℕ
  pub empty_fallback : Bool

abbrev pub min_of : ℕ → ℕ → ℕ
min_of a b = if leb a b then a else b

abbrev pub max_of : ℕ → ℕ → ℕ
max_of a b = if leb a b then b else a

unfoldable pub set_breaker : Shared → ℕ → BreakerState → Shared
set_breaker sh p b = record sh { breakers = λ q. if q == p then b else sh.breakers q }

abbrev pub count_in : Shared → ℕ → (ProviderMetrics → ProviderMetrics) → Shared
count_in sh p f = record sh { metrics = λ q. if q == p then f (sh.metrics q) else sh.metrics q }

-- Whether a breaker lets a call through, and what it is after that.
unfoldable pub admit : BreakerState → ℕ → Bool × BreakerState
admit (closed n) now = (true, closed n)
admit (opened until) now = if ltb now until then (false, opened until) else (true, half_open true)
admit (half_open true) now = (false, half_open true)
admit (half_open false) now = (true, half_open true)

abbrev pub record_success : BreakerState
record_success = closed 0

abbrev pub is_half_open : BreakerState → Bool
is_half_open (half_open _) = true
is_half_open _ = false

abbrev count_failure : ℕ → ℕ → ℕ → BreakerState → BreakerState
count_failure threshold cooldown_ms now (closed n) =
    if leb threshold (suc n) then opened (now + cooldown_ms) else closed (suc n)
count_failure threshold cooldown_ms now (opened until) = opened until
count_failure threshold cooldown_ms now (half_open _) = opened (now + cooldown_ms)

abbrev by_policy : Policy → ℕ → ℕ → ℕ → BreakerState → BreakerState
by_policy trips threshold cooldown_ms now b = opened (now + cooldown_ms)
by_policy ignores threshold cooldown_ms now b = if is_half_open b then record_success else b
by_policy counts threshold cooldown_ms now b = count_failure threshold cooldown_ms now b

-- A breaker after a failure.
unfoldable pub record_failure : ℕ → ℕ → BreakerState → SearchFailureClass → ℕ → BreakerState
record_failure threshold cooldown_ms b code now =
    by_policy (class_policy code) threshold cooldown_ms now b

-- Whether recording the failure opens the breaker anew.
unfoldable pub opens : ℕ → BreakerState → SearchFailureClass → Bool
opens threshold b code = elim (class_policy code) [
  | trips ↦ true
  | ignores ↦ false
  | counts ↦ elim b [ closed n ↦ leb threshold (suc n) | opened _ ↦ false | half_open _ ↦ true ]
]

abbrev pub fail_shared : Router → Shared → ℕ → SearchFailureClass → ℕ → Shared
fail_shared r sh p code now =
    let b = sh.breakers p in
    let sh' = set_breaker sh p (record_failure r.threshold r.cooldown_ms b code now) in
    if opens r.threshold b code
    then count_in sh' p (λ pm. record pm { breaker_opened = suc pm.breaker_opened })
    else sh'

pub data Settlement : Type 0 where
  answers : List ℕ → Settlement
  throws_typed : SearchProviderError → Settlement
  throws_other : Settlement

-- What one call of a provider does: after how long it settles, if it does before its time is up, and
-- with what. A call that settles in the very turn of its deadline may lose: then it is one that does
-- not settle. `meanwhile` and `asleep` are what other searches do to the shared state during the call
-- and during the wait after it.
pub record Call : Type 0 where
  pub delay : Option ℕ
  pub settlement : Settlement
  pub meanwhile : Shared → Shared
  pub asleep : Shared → Shared

pub data AttemptOutcome : Type 0 where
  outcome_ok : List ℕ → AttemptOutcome
  outcome_failed : SearchProviderError → Bool → AttemptOutcome

abbrev plain_error : SearchFailureClass → SearchProviderError
plain_error code = record { code = code; http_status = none; retry_after_ms = none }

abbrev is_timeout : SearchFailureClass → Bool
is_timeout timeout = true
is_timeout _ = false

abbrev settled : Settlement → AttemptOutcome
settled (answers results) = outcome_ok results
settled (throws_typed error) = outcome_failed error (is_timeout error.code)
settled throws_other = outcome_failed (plain_error network_error) false

-- The race of a call against its deadline, and when it ends. The timer of the deadline fires at just
-- that instant here.
unfoldable pub run_attempt : ℕ → ℕ → Call → AttemptOutcome × ℕ
run_attempt now deadline call = elim call.delay [
  | some d ↦
      if leb d (deadline - now)
      then (settled call.settlement, now + d)
      else (outcome_failed (plain_error timeout) true, now + (deadline - now))
  | none ↦ (outcome_failed (plain_error timeout) true, now + (deadline - now))
]

-- A search in progress; `sent` counts its calls.
pub record Search : Type 0 where
  pub clock : ℕ
  pub shared : Shared
  pub attempts : List AttemptRecord
  pub failures : List SearchProviderError
  pub deadline_cut : Bool
  pub empty_from : Option ℕ
  pub sent : ℕ
  pub answer : Option (ℕ × List ℕ)
