-- ===== src/Policy/Consumer.antt =====
-- Consumers, their registry and their provisioning: policy/consumer.ts, policy/consumer-config.ts.
pub mod Registry
pub mod Config
pub mod Tests
use browse_gateway.Base.{
  Bool, true, false, Option, none, some, List, [], ◌∷◌, ◌++◌, if◌then◌else◌, or_else, is_some,
}
use browse_gateway.Base.Text.{Text, text_eq, is_empty}
use browse_gateway.Policy.Allowlist.{Allowlist, new_allowlist}

pub record ConsumerSpec : Type 0 where
  pub id : Text
  pub token : Text
  pub allow : List Text
  pub tags : Option (List Text)

pub record Consumer : Type 0 where
  pub id : Text
  pub token : Text
  pub allowlist : Allowlist
  pub tags : List Text

-- The map from tokens, in insertion order.
abbrev pub Registry : Type 0
Registry = List (Text × Consumer)

pub data RegistryError : Type 0 where
  no_token duplicate_token : RegistryError

pub data Result : Type 0 where
  ok : Registry → Result
  err : RegistryError → Result

unfoldable pub get : Registry → Text → Option Consumer
get [] token = none
get ((key, c) ∷ r) token = if text_eq key token then some c else get r token

abbrev pub to_consumer : ConsumerSpec → Consumer
to_consumer spec = record {
  id = spec.id;
  token = spec.token;
  allowlist = new_allowlist spec.allow;
  tags = or_else spec.tags [];
}

unfoldable pub add : Registry → ConsumerSpec → Result
add r spec =
    if is_empty spec.token
    then err no_token
    else if is_some (get r spec.token)
    then err duplicate_token
    else ok (r ++ (spec.token, to_consumer spec) ∷ [])

unfoldable pub resolve : Registry → Text → Option Consumer
resolve r token = if is_empty token then none else get r token

unfoldable pub add_all : Registry → List ConsumerSpec → Result
add_all r [] = ok r
add_all r (spec ∷ specs) = elim (add r spec) [ err e ↦ err e | ok r' ↦ add_all r' specs ]

unfoldable pub new_registry : List ConsumerSpec → Result
new_registry specs = add_all [] specs
