-- ===== src/Policy/Consumer/Config.antt =====
-- Joining the manifest of consumers to their tokens: policy/consumer-config.ts. The environment is
-- a function from names to values. Letters outside ASCII keep their case.
pub mod Sound
use browse_gateway.Base.{
  ℕ, ◌-◌, Bool, true, false, not, ◌&&◌, ◌||◌, Option, none, some, List, [], ◌∷◌, ◌++◌, map, leb,
  if◌then◌else◌, ◌==◌,
}
use browse_gateway.Base.Text.{Text, codes, is_empty, drop_last, ends_with, starts_with}
use browse_gateway.Base.Sets.{has, set_add}
use browse_gateway.Policy.Consumer.{ConsumerSpec}

pub record ManifestEntry : Type 0 where
  pub id : Text
  pub allow : List Text
  pub tags : Option (List Text)

unfoldable pub upper : ℕ → ℕ
upper c = if leb b'a' c && leb c b'z' then c - 32 else c

unfoldable pub is_key_unit : ℕ → Bool
is_key_unit c = (leb b'A' c && leb c b'Z') || (leb b'0' c && leb c b'9')

-- Replaces each run of other units by one `_`; `in_run` says that a run has begun.
unfoldable pub collapse : Bool → Text → Text
unfolding is_key_unit
collapse in_run [] = []
collapse in_run (c ∷ s) =
    let plain = c ∷ collapse false s in
    let run = collapse true s in if is_key_unit c then plain else if in_run then run else b'_' ∷ run

unfoldable pub strip_first : Text → Text
strip_first [] = []
strip_first (c ∷ s) = if c == b'_' then s else c ∷ s

unfoldable pub strip_last : Text → Text
strip_last s = if ends_with s (codes "_") then drop_last s else s

unfoldable pub token_env_key : Text → Text
unfolding upper collapse strip_first strip_last
token_env_key id =
    codes "BGW_CONSUMER_TOKEN_" ++ strip_last (strip_first (collapse false (map upper id)))

pub data ConfigError : Type 0 where
  empty_manifest : ConfigError
  duplicate_id empty_allow missing_token : Text → ConfigError
  key_collision : Text → ConfigError

pub record BuiltConsumers : Type 0 where
  pub specs : List ConsumerSpec
  pub tokens : List Text

pub data Built : Type 0 where
  built : BuiltConsumers → Built
  refused : ConfigError → Built

-- `env[key]`, where an empty value is as good as none.
abbrev pub token_in : (Text → Option Text) → Text → Option Text
token_in env key = elim (env key) [
  | none ↦ none
  | some token ↦ if is_empty token then none else some token
]

-- The loop over the entries that are left, with the specs, keys and ids so far.
unfoldable pub build_entries :
    (Text → Option Text) → List Text → List Text → BuiltConsumers → List ManifestEntry → Built
build_entries env seen_ids seen_keys out [] = built out
build_entries env seen_ids seen_keys out (entry ∷ entries) =
    let key = token_env_key entry.id in
    let rest = λ (token : Text).
      build_entries env (set_add seen_ids entry.id) (set_add seen_keys key)
        (record {
          specs =
              out.specs
              ++ record { id = entry.id; token = token; allow = entry.allow; tags = entry.tags }
                ∷ [];
          tokens = out.tokens ++ token ∷ [];
        })
        entries in
    if has seen_ids entry.id then refused (duplicate_id entry.id) else elim entry.allow [
      | [] ↦ refused (empty_allow entry.id)
      | rule ∷ rules ↦
          if has seen_keys key then refused (key_collision key) else elim (token_in env key) [
            | none ↦ refused (missing_token entry.id)
            | some token ↦ rest token
          ]
    ]

unfoldable pub build_consumer_specs : List ManifestEntry → (Text → Option Text) → Built
build_consumer_specs [] env = refused empty_manifest
build_consumer_specs (entry ∷ entries) env =
    build_entries env [] [] (record { specs = []; tokens = [] }) (entry ∷ entries)
