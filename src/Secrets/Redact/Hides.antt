-- ===== src/Secrets/Redact/Hides.antt =====
-- What a redacted text no longer has: `redactSecrets` of security/secrets.ts.
use browse_gateway.Base.{
  ◌≡◌, refl, true, false, ◌||◌, List, [], ◌∷◌, arith, if_cases, length, inl, inr, or-eq-true,
  or_left, or_right, ltb, any, ◌∙◌,
}
use browse_gateway.Base.Text.{Text, text_eq, text_eq→eq, text_eq_refl, is_empty}
use browse_gateway.Base.Sets.{has, set_add, any-set_add}
use browse_gateway.Secrets.Redact.{
  Encoders, marker, replace_all, replace_from, add_other, add_variants, variants, insert_longest,
  sort_longest, scrub_all, redact_secrets,
}
use browse_gateway.Secrets.Redact.Replace.{
  contains, IsUnmarked, replace_from-contains, replace_from-gone,
}

-- The set has what it had, and what was added.
pub has-set_add : (vs : List Text) (x y : Text) → has vs y ≡ true → has (set_add vs x) y ≡ true
has-set_add vs x y h = any-set_add vs x (text_eq y) ∙ or_left (text_eq y x) h

pub has-set_add_self : (vs : List Text) (x : Text) → has (set_add vs x) x ≡ true
has-set_add_self vs x =
    any-set_add vs x (text_eq x) ∙ or_right (any vs (text_eq x)) (text_eq_refl x)

add_other-has :
    (value other : Text) (vs : List Text) (y : Text)
    → has vs y ≡ true
    → has (add_other value other vs) y ≡ true
add_other-has value other vs y h =
    if_cases (λ ws. has ws y ≡ true) (text_eq other value) _ _ (λ same. h)
      (λ new. has-set_add vs other y h)

add_variants-has :
    (e : Encoders) (vs : List Text) (x y : Text)
    → has vs y ≡ true
    → has (add_variants e vs x) y ≡ true
unfolding add_variants
add_variants-has e vs x y h =
    if_cases (λ ws. has ws y ≡ true) (ltb (length x) 3) _ _ (λ short. h)
      (λ long. add_other-has x (e.inspect_inner x) _ y (
        add_other-has x (e.json_inner x) _ y
          (add_other-has x (e.encode_uri_component x) _ y (has-set_add vs x y h))))

add_variants-has_self :
    (e : Encoders) (vs : List Text) (x : Text)
    → ltb (length x) 3 ≡ false
    → has (add_variants e vs x) x ≡ true
unfolding add_variants
add_variants-has_self e vs x long =
    if_cases (λ ws. has ws x ≡ true) (ltb (length x) 3) _ _ (λ short. absurd (cc (short, long)))
      (λ _. add_other-has x (e.inspect_inner x) _ x (
        add_other-has x (e.json_inner x) _ x
          (add_other-has x (e.encode_uri_component x) _ x (has-set_add_self vs x))))

variants-has_old :
    (e : Encoders) (vs values : List Text) (y : Text)
    → has vs y ≡ true
    → has (variants e vs values) y ≡ true
unfolding variants
variants-has_old e vs [] y h = h
variants-has_old e vs (x ∷ values) y h =
    variants-has_old e (add_variants e vs x) values y (add_variants-has e vs x y h)

variants-has :
    (e : Encoders) (vs values : List Text) (y : Text)
    → has values y ≡ true
    → ltb (length y) 3 ≡ false
    → has (variants e vs values) y ≡ true
unfolding variants
variants-has e vs [] y h long = absurd (cc h)
variants-has e vs (x ∷ values) y h long = elim (or-eq-true (text_eq y x) (has values y) h) [
  | inl same ↦
      variants-has_old e (add_variants e vs x) values y
        (rw (text_eq→eq y x same) (add_variants-has_self e vs x (rw (← text_eq→eq y x same) long)))
  | inr later ↦ variants-has e (add_variants e vs x) values y later long
]

insert_longest-has :
    (v : Text) (ws : List Text) (y : Text) → has (insert_longest v ws) y ≡ (text_eq y v || has ws y)
unfolding insert_longest
insert_longest-has v [] y = refl
insert_longest-has v (w ∷ ws) y = ground (arith, insert_longest-has v ws y)

sort_longest-has : (vs : List Text) (y : Text) → has (sort_longest vs) y ≡ has vs y
unfolding sort_longest
sort_longest-has [] y = refl
sort_longest-has (v ∷ vs) y =
    ground (arith, insert_longest-has v (sort_longest vs) y, sort_longest-has vs y)

scrub_all-contains :
    (s : Text) (vs : List Text) (y : Text)
    → is_empty y ≡ false
    → IsUnmarked y
    → contains s y ≡ false
    → contains (scrub_all s vs) y ≡ false
unfolding scrub_all replace_all
scrub_all-contains s [] y n u h = h
scrub_all-contains s (v ∷ vs) y n u h =
    scrub_all-contains (replace_from v marker 0 s) vs y n u (replace_from-contains v 0 s y n u h)

scrub_all-gone :
    (s : Text) (vs : List Text) (y : Text)
    → is_empty y ≡ false
    → IsUnmarked y
    → has vs y ≡ true
    → contains (scrub_all s vs) y ≡ false
unfolding scrub_all replace_all
scrub_all-gone s [] y n u h = absurd (cc h)
scrub_all-gone s (v ∷ vs) y n u h = elim (or-eq-true (text_eq y v) (has vs y) h) [
  | inl same ↦
      scrub_all-contains (replace_from v marker 0 s) vs y n u
        (rw (← text_eq→eq y v same) (replace_from-gone y 0 s n u))
  | inr later ↦ scrub_all-gone (replace_from v marker 0 s) vs y n u later
]

-- A redacted text has no occurrence of a registered value that has three units or more, has no bracket
-- of the marker in it and is not a part of the marker's word, whatever the other values and their
-- encodings are.
pub redact_secrets-hides :
    (e : Encoders) (values : List Text) (text value : Text)
    → has values value ≡ true
    → ltb (length value) 3 ≡ false
    → IsUnmarked value
    → contains (redact_secrets e values text) value ≡ false
unfolding redact_secrets
redact_secrets-hides e values text value h long u =
    scrub_all-gone text (sort_longest (variants e [] values)) value (long_enough value long) u
      (sort_longest-has (variants e [] values) value ∙ variants-has e [] values value h long)
  where
    long_enough : (v : Text) → ltb (length v) 3 ≡ false → is_empty v ≡ false
    long_enough [] l = ground (arith, l)
    long_enough (b ∷ v) l = refl
