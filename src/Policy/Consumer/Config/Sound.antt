-- ===== src/Policy/Consumer/Config/Sound.antt =====
-- What a manifest that was accepted gives.
use browse_gateway.Base.{◌≡◌, ◌≢◌, false, Option, some, List, [], ◌∷◌, ◌++◌, map}
use browse_gateway.Base.Text.{Text}
use browse_gateway.Base.Sets.{has, set_add}
use browse_gateway.Policy.Consumer.{ConsumerSpec}
use browse_gateway.Policy.Consumer.Config.{ManifestEntry, BuiltConsumers, token_env_key, token_in}

-- One spec for each entry, in order, with the entry's fields and the token that the environment has
-- for it.
abbrev pub Joined : (Text → Option Text) → List ManifestEntry → List ConsumerSpec → Type 0
Joined env [] [] = Unit
Joined env (e ∷ es) (s ∷ ss) =
    (s.id ≡ e.id)
    × (s.allow ≡ e.allow)
    × (s.tags ≡ e.tags)
    × (e.allow ≢ [])
    × (token_in env (token_env_key e.id) ≡ some s.token)
    × Joined env es ss
Joined env _ _ = ⊥

-- No text of the list comes twice, or is one that was seen.
abbrev pub Distinct : List Text → List Text → Type 0
Distinct seen [] = Unit
Distinct seen (x ∷ xs) = (has seen x ≡ false) × Distinct (set_add seen x) xs

abbrev pub ids : List ManifestEntry → List Text
ids = map λ e. e.id

abbrev pub keys : List ManifestEntry → List Text
keys = map λ e. token_env_key e.id

abbrev with_token : ManifestEntry → Text → ConsumerSpec
with_token e token = record { id = e.id; token = token; allow = e.allow; tags = e.tags }

abbrev extended : BuiltConsumers → ManifestEntry → Text → BuiltConsumers
extended out e token = record {
  specs = out.specs ++ with_token e token ∷ [];
  tokens = out.tokens ++ token ∷ [];
}
