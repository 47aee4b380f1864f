-- ===== src/Policy/Consumer/Registry.antt =====
-- Tokens and the consumers that the registry of policy/consumer.ts finds by them.
use browse_gateway.Base.{
  ◌≡◌, refl, false, Option, none, some, List, [], ◌∷◌, ◌++◌, arith, if◌then◌else◌, is_some, All,
  AnyOf, ◌⊎◌, ◌↔◌, inl, inr,
}
use browse_gateway.Base.Text.{Text, text_eq, text_eq_iff, text_eq_refl, is_empty}
use browse_gateway.Policy.Consumer.{
  ConsumerSpec, Consumer, Registry, Result, ok, err, no_token, duplicate_token, get, to_consumer,
  add, resolve, add_all, new_registry,
}

get-append :
    (r : Registry) (key : Text) (c : Consumer) (token : Text)
    → get r key ≡ none
    → get (r ++ (key, c) ∷ []) token ≡ (if text_eq key token then some c else get r token)
unfolding get
get-append [] key c token h = refl
get-append ((k, d) ∷ r) key c token h =
    ground (
      arith,
      get-append r key c token,
      text_eq_iff k token,
      text_eq_iff key token,
      text_eq_iff k key,
    )

add-eq-ok :
    (r r' : Registry) (spec : ConsumerSpec)
    → add r spec ≡ ok r'
    → (is_empty spec.token ≡ false)
      × (get r spec.token ≡ none)
      × (r' ≡ r ++ (spec.token, to_consumer spec) ∷ [])
unfolding add
add-eq-ok r r' spec e = ground arith

add_all-eq-ok :
    (r r' : Registry) (spec : ConsumerSpec) (specs : List ConsumerSpec)
    → add_all r (spec ∷ specs) ≡ ok r'
    → (q : Registry) × (add r spec ≡ ok q) × (add_all q specs ≡ ok r')
unfolding add_all
add_all-eq-ok r r' spec specs e = ground arith

add_all_nil : (r r' : Registry) → add_all r [] ≡ ok r' → r ≡ r'
unfolding add_all
add_all_nil r r' e = ground arith

-- A spec that was added is found, and no earlier entry is lost.
get-add :
    (r q : Registry) (spec : ConsumerSpec) (token : Text)
    → add r spec ≡ ok q
    → get q token ≡ (if text_eq spec.token token then some (to_consumer spec) else get r token)
get-add r q spec token e =
    let (full, fresh, same) = add-eq-ok r q spec e in
    rw same (get-append r spec.token (to_consumer spec) token fresh)

get-add_all_keeps :
    (r r' : Registry) (specs : List ConsumerSpec) (token : Text) (c : Consumer)
    → add_all r specs ≡ ok r'
    → get r token ≡ some c
    → get r' token ≡ some c
get-add_all_keeps r r' [] token c e h = ground (arith, add_all_nil r r' e)
get-add_all_keeps r r' (spec ∷ specs) token c e h =
    let (q, first, rest) = add_all-eq-ok r r' spec specs e in
    let (full, fresh, same) = add-eq-ok r q spec first in
    get-add_all_keeps q r' specs token c rest
      (ground (arith, get-add r q spec token first, text_eq_iff spec.token token))

get-add_all :
    (r r' : Registry) (specs : List ConsumerSpec)
    → add_all r specs ≡ ok r'
    → All
        (λ spec. (is_empty spec.token ≡ false) × (get r' spec.token ≡ some (to_consumer spec)))
        specs
get-add_all r r' [] e = tt
get-add_all r r' (spec ∷ specs) e =
    let (q, first, rest) = add_all-eq-ok r r' spec specs e in
    let (full, fresh, same) = add-eq-ok r q spec first in
    (
      (
        full,
        get-add_all_keeps q r' specs spec.token (to_consumer spec) rest
            (ground (arith, get-add r q spec spec.token first, text_eq_refl spec.token)),
      ),
      get-add_all q r' specs rest,
    )

get-add_all_origin :
    (r r' : Registry) (specs : List ConsumerSpec) (token : Text) (c : Consumer)
    → add_all r specs ≡ ok r'
    → get r' token ≡ some c
    → (get r token ≡ some c) ⊎ AnyOf (λ spec. (spec.token ≡ token) × (c ≡ to_consumer spec)) specs
get-add_all_origin r r' [] token c e h = inl (ground (arith, add_all_nil r r' e))
get-add_all_origin r r' (spec ∷ specs) token c e h =
    let (q, first, rest) = add_all-eq-ok r r' spec specs e in
    elim (get-add_all_origin q r' specs token c rest h) [
      | inl old ↦ ground (arith, get-add r q spec token first, text_eq_iff spec.token token)
      | inr new ↦ inr (inr new)
    ]

resolve→get :
    (r : Registry) (token : Text) (c : Consumer) → resolve r token ≡ some c → get r token ≡ some c
unfolding resolve
resolve→get r token c h = ground arith

get_empty : (token : Text) (c : Consumer) → ¬ (get [] token ≡ some c)
unfolding get
get_empty token c h = cc

resolve-some :
    (specs : List ConsumerSpec) (r : Registry)
    → All
        (λ spec. (is_empty spec.token ≡ false) × (get r spec.token ≡ some (to_consumer spec)))
        specs
    → All (λ spec. resolve r spec.token ≡ some (to_consumer spec)) specs
unfolding resolve
resolve-some [] r h = tt
resolve-some (spec ∷ specs) r h = (ground arith, resolve-some specs r h.1)

-- A registry that was built from specs finds every one of them by its token, and whatever a token
-- finds is the consumer of a spec with that very token.
pub resolve-new_registry :
    (specs : List ConsumerSpec) (r : Registry)
    → new_registry specs ≡ ok r
    → All (λ spec. resolve r spec.token ≡ some (to_consumer spec)) specs
      × ((token : Text) (c : Consumer)
          → resolve r token ≡ some c
          → AnyOf (λ spec. (spec.token ≡ token) × (c ≡ to_consumer spec)) specs)
unfolding new_registry
resolve-new_registry specs r e =
    (resolve-some specs r (get-add_all [] r specs e), λ token c h. origin token c h)
  where
    origin :
        (token : Text) (c : Consumer)
        → resolve r token ≡ some c
        → AnyOf (λ spec. (spec.token ≡ token) × (c ≡ to_consumer spec)) specs
    origin token c h = elim (get-add_all_origin [] r specs token c e (resolve→get r token c h)) [
      | inl old ↦ absurd (get_empty token c old)
      | inr new ↦ new
    ]

-- A spec is refused for its token exactly when the token is empty, and as a duplicate exactly when
-- the token already finds a consumer.
pub add_refused :
    (r : Registry) (spec : ConsumerSpec)
    → ((add r spec ≡ err no_token) ↔ (spec.token ≡ []))
      × ((add r spec ≡ err duplicate_token) ↔ ((c : Consumer) × (resolve r spec.token ≡ some c)))
unfolding add resolve
add_refused r spec = refused spec.token (get r spec.token)
  where
    refused :
        (token : Text) (found : Option Consumer)
        → let result : Result =
            if is_empty token
            then err no_token
            else if is_some found
            then err duplicate_token
            else ok (r ++ (spec.token, to_consumer spec) ∷ []) in
          ((result ≡ err no_token) ↔ (token ≡ []))
          × ((result ≡ err duplicate_token)
              ↔ ((c : Consumer) × ((if is_empty token then none else found) ≡ some c)))
    refused [] found = ((λ e. refl, λ e. refl), (λ e. cc, λ h. cc (h.1)))
    refused (a ∷ t) none = ((λ e. cc, λ e. cc), (λ e. cc, λ h. cc (h.1)))
    refused (a ∷ t) (some c) = ((λ e. cc, λ e. cc), (λ e. (c, refl), λ h. refl))
