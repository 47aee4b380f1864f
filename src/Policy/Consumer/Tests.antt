-- ===== src/Policy/Consumer/Tests.antt =====
-- Consumers and their manifest at concrete inputs.
use browse_gateway.Base.{◌≡◌, refl, Option, none, some, List, [], ◌∷◌, if◌then◌else◌}
use browse_gateway.Base.Text.{Text, codes, text_eq}
use browse_gateway.Policy.Consumer.{
  add, add_all, ConsumerSpec, Registry, ok, get, resolve, new_registry, to_consumer,
}
use browse_gateway.Policy.Consumer.Registry.{resolve-new_registry}
use browse_gateway.Policy.Consumer.Config.{ManifestEntry}

abbrev pub spec_a : ConsumerSpec
spec_a = record { id = codes "a"; token = codes "t1"; allow = codes "*.b.c" ∷ []; tags = none }

abbrev pub spec_b : ConsumerSpec
spec_b = record { id = codes "b"; token = codes "t2"; allow = codes "*" ∷ []; tags = none }

abbrev pub two_consumers : Registry
two_consumers = (codes "t1", to_consumer spec_a) ∷ (codes "t2", to_consumer spec_b) ∷ []

pub registry_of : new_registry (spec_a ∷ spec_b ∷ []) ≡ ok two_consumers
unfolding new_registry add_all add get text_eq
registry_of = refl

resolve-new_registry_example : resolve two_consumers (codes "t1") ≡ some (to_consumer spec_a)
resolve-new_registry_example =
    (resolve-new_registry (spec_a ∷ spec_b ∷ []) two_consumers registry_of).0.0

abbrev manifest : List ManifestEntry
manifest = record { id = codes "a-1"; allow = codes "*" ∷ []; tags = none } ∷ []

abbrev environment : Text → Option Text
environment key = if text_eq key (codes "BGW_CONSUMER_TOKEN_A_1") then some (codes "t1") else none

abbrev joined_spec : ConsumerSpec
joined_spec = record { id = codes "a-1"; token = codes "t1"; allow = codes "*" ∷ []; tags = none }
