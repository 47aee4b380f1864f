-- ===== src/Search/Router/Verdict.antt =====
-- What a search reports (search/router.ts).
use browse_gateway.Base.{
  ◌≡◌, refl, ◌⊎◌, ◌↔◌, inl, inr, Bool, true, false, List, [], ◌∷◌, if_cases, or-eq-true, or_left,
  or_right, any, Bool-cases, ap, ◌∙◌,
}
use browse_gateway.Search.Router.{
  SearchFailureClass, rate_limited, quota_exhausted, authentication_failed, SearchProviderError,
}
use browse_gateway.Search.Router.Walk.{final_class, class_is}

-- Some failure of the list has the class.
abbrev pub Occurs : SearchFailureClass → List SearchProviderError → Type 0
Occurs code [] = ⊥
Occurs code (e ∷ es) = (e.code ≡ code) ⊎ Occurs code es

class_is-eq : (a b : SearchFailureClass) → class_is a b ≡ true → b ≡ a
class_is-eq authentication_failed authentication_failed h = refl
class_is-eq quota_exhausted quota_exhausted h = refl
class_is-eq rate_limited rate_limited h = refl
class_is-eq _ _ h = cc

-- A class of the three that a search reports first.
abbrev pub IsUrgent : SearchFailureClass → Type 0
IsUrgent code = class_is code code ≡ true

has_class_iff :
    (code : SearchFailureClass) (es : List SearchProviderError)
    → IsUrgent code
    → (any es (λ e. class_is code e.code) ≡ true) ↔ Occurs code es
has_class_iff code [] u = (λ h. cc, λ o. elim o [ ])
has_class_iff code (e ∷ es) u = (
  λ h. elim (or-eq-true (class_is code e.code) _ h) [
    | inl here ↦ inl (class_is-eq code e.code here)
    | inr later ↦ inr ((has_class_iff code es u).0 later)
  ],
  λ o. elim o [
    | inl here ↦ or_left _ (ap (class_is code) here ∙ u)
    | inr later ↦ or_right (class_is code e.code) ((has_class_iff code es u).1 later)
  ],
)

-- A search that saw failures alone reports a class that occurs among them: an authentication failure
-- if there is one, else an exhausted quota, else a rate limit, else the class of the first.
final_class_priority :
    (e : SearchProviderError) (es : List SearchProviderError)
    → Occurs (final_class (e ∷ es)) (e ∷ es)
      × (Occurs authentication_failed (e ∷ es) → final_class (e ∷ es) ≡ authentication_failed)
      × (Occurs quota_exhausted (e ∷ es)
          → (Occurs authentication_failed (e ∷ es) → ⊥)
          → final_class (e ∷ es) ≡ quota_exhausted)
      × (Occurs rate_limited (e ∷ es)
          → (Occurs authentication_failed (e ∷ es) → ⊥)
          → (Occurs quota_exhausted (e ∷ es) → ⊥)
          → final_class (e ∷ es) ≡ rate_limited)
unfolding final_class
final_class_priority e es = (
  if_cases (λ c. Occurs c (e ∷ es)) (has authentication_failed) _ _
      (λ h. (iff authentication_failed refl).0 h)
      (λ a.
        if_cases (λ c. Occurs c (e ∷ es)) (has quota_exhausted) _ _
          (λ h. (iff quota_exhausted refl).0 h)
          (λ b.
            if_cases (λ c. Occurs c (e ∷ es)) (has rate_limited) _ _
              (λ h. (iff rate_limited refl).0 h) (λ c. inl refl))),
  λ auth. rw ((iff authentication_failed refl).1 auth) refl,
  λ quota no_auth.
      rw (off authentication_failed refl no_auth, (iff quota_exhausted refl).1 quota) refl,
  λ rate no_auth no_quota.
      rw
        (
          off authentication_failed refl no_auth,
          off quota_exhausted refl no_quota,
          (iff rate_limited refl).1 rate,
        )
        refl,
)
  where
    has : SearchFailureClass → Bool
    has code = any (e ∷ es) (λ x. class_is code x.code)

    iff : (code : SearchFailureClass) → IsUrgent code → (has code ≡ true) ↔ Occurs code (e ∷ es)
    iff code u = has_class_iff code (e ∷ es) u

    off :
        (code : SearchFailureClass) → IsUrgent code → (Occurs code (e ∷ es) → ⊥) → has code ≡ false
    off code u never = elim (Bool-cases (has code)) [
      | inl up ↦ absurd (never ((iff code u).0 up))
      | inr down ↦ down
    ]
