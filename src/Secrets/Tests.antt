-- ===== src/Secrets/Tests.antt =====
-- Secrets and their redaction at concrete inputs.
use browse_gateway.Base.{◌≡◌, ◌⊎◌, refl, true, false, Option, none, some, [], ◌∷◌, All}
use browse_gateway.Base.Text.{Text, codes, includes, text_eq, starts_with}
use browse_gateway.Base.Sets.{set_add}
use browse_gateway.Policy.Audit.{AuditRecord, new_sink, blocked, navigates}
use browse_gateway.Secrets.{
  Refusal, assert_redactable_secret, SecretKey, captcha_api_key, load, reload, get, empty_store,
}
use browse_gateway.Secrets.Redact.{
  Encoders, replace_all, replace_from, add_variants, variants, insert_longest, sort_longest,
  scrub_all, redact_secrets,
}
use browse_gateway.Secrets.Redact.Replace.{contains, IsUnmarked}
use browse_gateway.Secrets.Redact.Hides.{redact_secrets-hides}
use browse_gateway.Secrets.Kept.{reloads, perform, perform_all}
use browse_gateway.Secrets.Audit.{IsClean, records, follow_all, trail_hides}
use browse_gateway.Secrets.Reload.{non_empty, reload_loads}

-- Encoders that change nothing.
abbrev plain : Encoders
plain = record { encode_uri_component = λ v. v; json_inner = λ v. v; inspect_inner = λ v. v }

abbrev key_text : Text
key_text = codes "sk-12"

abbrev environment : SecretKey → Option Text
environment captcha_api_key = some key_text
environment _ = none

key-IsUnmarked : IsUnmarked key_text
unfolding includes contains starts_with
key-IsUnmarked = record { opens = refl; closes = refl; word = refl }

redact_secrets-hides_example :
    contains (redact_secrets plain (key_text ∷ []) (codes "x sk-12 y")) key_text ≡ false
redact_secrets-hides_example =
    redact_secrets-hides plain (key_text ∷ []) (codes "x sk-12 y") key_text (unfold text_eq in refl)
      refl key-IsUnmarked

redacted :
    redact_secrets plain (key_text ∷ codes "k-1" ∷ []) (codes "a k-1 sk-12!")
    ≡ codes "a [REDACTED] [REDACTED]!"
unfolding redact_secrets variants add_variants set_add text_eq sort_longest insert_longest scrub_all
    replace_all replace_from starts_with
redacted = refl

reload_loads_example :
    ((reload empty_store environment).thrown ≡ none)
      × ((k : SecretKey)
          → get k (reload empty_store environment).store.values ≡ non_empty (environment k))
    ⊎ ((why : Refusal) × ((reload empty_store environment).thrown ≡ some why)
        × ((reload empty_store environment).store.values ≡ empty_store.values))
reload_loads_example = reload_loads empty_store environment

abbrev entry : AuditRecord
entry = record {
  ts = 1;
  consumer_id = none;
  action = navigates;
  decision = blocked;
  host = none;
  url = some (codes "https://h/?k=sk-12");
  reason = none;
}

loaded :
    get captcha_api_key (perform_all empty_store (reloads environment ∷ [])).values ≡ some key_text
unfolding perform_all perform reload load assert_redactable_secret text_eq empty_store get
loaded = refl

trail_hides_example :
    All
      (IsClean key_text)
      (follow_all plain
        (record { store = perform_all empty_store (reloads environment ∷ []); sink = new_sink 10 })
        (records entry ∷ [])).sink.records
trail_hides_example =
    trail_hides plain (reloads environment ∷ []) 10 captcha_api_key key_text (records entry ∷ [])
      loaded key-IsUnmarked

-- A value that is a part of the marker's word passes the check and is brought back by the marker.
part_of_marker :
    (assert_redactable_secret (codes "ACT") ≡ none)
    × (contains (redact_secrets plain (codes "ACT" ∷ []) (codes "x ACT")) (codes "ACT") ≡ true)
unfolding assert_redactable_secret redact_secrets variants add_variants set_add text_eq sort_longest
    insert_longest scrub_all replace_all replace_from starts_with contains
part_of_marker = (refl, refl)
