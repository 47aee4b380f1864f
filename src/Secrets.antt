-- ===== src/Secrets.antt =====
-- The secrets of the gateway and their redaction: security/secrets.ts.
pub mod Redact
pub mod Kept
pub mod Audit
pub mod Reload
mod Tests
use browse_gateway.Base.{
  ℕ, ◌≡◌, Bool, true, false, ◌||◌, Option, none, some, List, [], ◌∷◌, ◌++◌, ltb, ◌==◌,
  if◌then◌else◌, length, is_some,
}
use browse_gateway.Base.Text.{Text, codes, text_eq, is_empty}
use browse_gateway.Base.Sets.{has, set_add}

abbrev pub min_redactable_len : ℕ
min_redactable_len = 3

abbrev pub reserved_redaction_markers : List Text
reserved_redaction_markers = codes "[REDACTED]" ∷ codes "<url>" ∷ []

-- Why a value is refused.
pub data Refusal : Type 0 where
  too_short collides : Refusal

-- `none` is a value that may be registered.
unfoldable pub assert_redactable_secret : Text → Option Refusal
assert_redactable_secret v =
    if ltb (length v) min_redactable_len
    then some too_short
    else if has reserved_redaction_markers v
    then some collides
    else none

pub data SecretKey : Type 0 where
  proxy_url proxy_username proxy_password captcha_api_key brave_search_api_key vault_key : SecretKey

abbrev pub secret_keys : List SecretKey
secret_keys =
    proxy_url ∷ proxy_username ∷ proxy_password ∷ captcha_api_key ∷ brave_search_api_key ∷ vault_key
    ∷ []

abbrev pub place : SecretKey → ℕ
place proxy_url = 0
place proxy_username = 1
place proxy_password = 2
place captcha_api_key = 3
place brave_search_api_key = 4
place vault_key = 5

-- An entry of the map of values.
pub record Secret : Type 0 where
  pub key : SecretKey
  pub value : Text

-- `redactable` has every value that was ever loaded or registered.
pub record SecretStore : Type 0 where
  pub values : List Secret
  pub redactable : List Text

-- The store after a call, and why the call threw, if it did.
pub record Stored : Type 0 where
  pub store : SecretStore
  pub thrown : Option Refusal

abbrev pub finish_load : SecretStore → List Secret → Stored
finish_load s next = record { store = record s { values = next }; thrown = none }

-- The values that were read replace the current ones only if none of them is refused. `source` is the
-- environment that was read.
unfoldable pub load :
    SecretStore → (SecretKey → Option Text) → List SecretKey → List Secret → Stored
load s source [] next = finish_load s next
load s source (k ∷ ks) next = elim (source k) [
  | none ↦ load s source ks next
  | some v ↦ if is_empty v then load s source ks next else elim (assert_redactable_secret v) [
    | some why ↦ record { store = s; thrown = some why }
    | none ↦
        load (record s { redactable = set_add s.redactable v }) source ks
          (next ++ record { key = k; value = v } ∷ [])
  ]
]

unfoldable pub reload : SecretStore → (SecretKey → Option Text) → Stored
reload s source = load s source secret_keys []

-- Permissive values: only a collision is refused.
unfoldable pub add_redactable : SecretStore → List Text → Stored
add_redactable s [] = record { store = s; thrown = none }
add_redactable s (v ∷ vs) =
    let skipped = add_redactable s vs in
    let added = add_redactable (record s { redactable = set_add s.redactable v }) vs in
    if is_empty v
    then skipped
    else if has reserved_redaction_markers v
    then record { store = s; thrown = some collides }
    else added

-- Credentials: a value that cannot be redacted is refused.
unfoldable pub add_redactable_credential : SecretStore → List Text → Stored
add_redactable_credential s [] = record { store = s; thrown = none }
add_redactable_credential s (v ∷ vs) =
    let skipped = add_redactable_credential s vs in
    let added = add_redactable_credential (record s { redactable = set_add s.redactable v }) vs in
    if is_empty v then skipped else elim (assert_redactable_secret v) [
      | some why ↦ record { store = s; thrown = some why }
      | none ↦ added
    ]

unfoldable pub get : SecretKey → List Secret → Option Text
get k [] = none
get k (e ∷ es) = if place e.key == place k then some e.value else get k es

unfoldable pub empty_store : SecretStore
empty_store = record { values = []; redactable = [] }
