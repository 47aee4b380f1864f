-- ===== src/Secrets/Redact.antt =====
-- The redaction of texts: `redactSecrets` of security/secrets.ts.
pub mod Replace
pub mod Hides
use browse_gateway.Base.{
  ℕ, zero, suc, ◌-◌, Bool, true, false, not, Option, none, some, List, [], ◌∷◌, ◌++◌, ltb,
  if◌then◌else◌, length,
}
use browse_gateway.Base.Text.{Text, codes, text_eq, starts_with}
use browse_gateway.Base.Sets.{set_add}

-- The other spellings of a value: percent encoding, and what the two serializers write between their
-- quotes.
pub record Encoders : Type 0 where
  pub encode_uri_component : Text → Text
  pub json_inner : Text → Text
  pub inspect_inner : Text → Text

abbrev pub marker : Text
marker = codes "[REDACTED]"

-- `s.replaceAll(p, r)` at a text that is not empty; `skip` units of a match are still to be passed.
unfoldable pub replace_from : Text → Text → ℕ → Text → Text
replace_from p r skip [] = []
replace_from p r (suc k) (c ∷ s) = replace_from p r k s
replace_from p r zero (c ∷ s) =
    let hit = starts_with (c ∷ s) p in
    let rest = replace_from p r (if hit then length p - 1 else 0) s in
    if hit then r ++ rest else c ∷ rest

unfoldable pub replace_all : Text → Text → Text → Text
replace_all s p r = replace_from p r 0 s

abbrev add_other : Text → Text → List Text → List Text
add_other value other vs = if text_eq other value then vs else set_add vs other

unfoldable pub add_variants : Encoders → List Text → Text → List Text
add_variants e vs value =
    if ltb (length value) 3
    then vs
    else add_other value (e.inspect_inner value) (
        add_other value (e.json_inner value)
          (add_other value (e.encode_uri_component value) (set_add vs value)))

unfoldable pub variants : Encoders → List Text → List Text → List Text
variants e vs [] = vs
variants e vs (value ∷ values) = variants e (add_variants e vs value) values

-- A stable sort by falling length.
unfoldable pub insert_longest : Text → List Text → List Text
insert_longest v [] = v ∷ []
insert_longest v (w ∷ ws) =
    if ltb (length v) (length w) then w ∷ insert_longest v ws else v ∷ w ∷ ws

unfoldable pub sort_longest : List Text → List Text
sort_longest [] = []
sort_longest (v ∷ vs) = insert_longest v (sort_longest vs)

unfoldable pub scrub_all : Text → List Text → Text
scrub_all s [] = s
scrub_all s (v ∷ vs) = scrub_all (replace_all s v marker) vs

unfoldable pub redact_secrets : Encoders → List Text → Text → Text
redact_secrets e values text = scrub_all text (sort_longest (variants e [] values))
