-- ===== src/Policy/Allowlist/Rules.antt =====
-- What an allowlist admits, rule by rule.
use mathlib.Core.Bool.{false≢true}
use browse_gateway.Base.{
  ℕ, ◌≡◌, refl, ◌≢◌, ◌↔◌, ◌⊎◌, ◌∙◌, sym, Bool, true, false, not, ◌&&◌, ◌||◌, List, [], ◌∷◌, ◌++◌,
  arith, if◌then◌else◌, any, any_iff, AnyOf, drop,
}
use browse_gateway.Base.Text.{
  Text, codes, text_eq, text_eq_iff, is_empty, trim, to_lower_case, starts_with,
}
use browse_gateway.Base.Sets.{has, any-set_add}
use browse_gateway.Host.{canonicalize_host, covers}
use browse_gateway.Host.Canonical.{covers_iff}
use browse_gateway.Policy.Allowlist.{
  Allowlist, strip_www, normalize_host, empty_allowlist, add_trimmed, add, add_all, new_allowlist,
  allows_canonical, allows,
}

-- The tests without the one for an empty host, in any order.
abbrev hits : Allowlist → Text → Bool
hits l canon = l.allow_all || (has l.exact (strip_www canon) || any l.suffixes (covers canon))

-- What one trimmed rule admits.
abbrev admits : Text → Text → Bool
admits [] canon = false
admits (c ∷ s) canon =
    if text_eq (c ∷ s) (codes "*")
    then true
    else if starts_with (c ∷ s) (codes "*.")
    then covers canon (canonicalize_host (drop 2 (c ∷ s)))
    else text_eq (strip_www canon) (normalize_host (c ∷ s))

-- A trimmed, lower-case rule admits a canonical host: it is `*`, or `*.` and a domain that the host
-- is or is below, or any other text that names the host up to a leading `www.`.
abbrev pub Admits : Text → Text → Type 0
Admits rule canon =
    (rule ≡ codes "*")
    ⊎ ((rule ≢ codes "*")
        × (starts_with rule (codes "*.") ≡ true)
        × ((canon ≡ canonicalize_host (drop 2 rule))
            ⊎ ((sub : Text) × (canon ≡ sub ++ b'.' ∷ canonicalize_host (drop 2 rule)))))
    ⊎ ((rule ≢ codes "*")
        × (rule ≢ [])
        × (starts_with rule (codes "*.") ≡ false)
        × (strip_www canon ≡ normalize_host rule))

hits-add_trimmed :
    (l : Allowlist) (t canon : Text)
    → hits (add_trimmed l t) canon ≡ (hits l canon || admits t canon)
unfolding add_trimmed
hits-add_trimmed l [] canon = ground arith
hits-add_trimmed l (c ∷ s) canon = ground (
  arith,
  any-set_add l.suffixes (canonicalize_host (drop 1 s)) (covers canon),
  any-set_add l.exact (normalize_host (c ∷ s)) (text_eq (strip_www canon)),
)

allows_canonical-hits :
    (l : Allowlist) (canon : Text)
    → allows_canonical l canon ≡ (not (is_empty canon) && hits l canon)
unfolding allows_canonical
allows_canonical-hits l canon = ground arith

hits-add :
    (l : Allowlist) (rule canon : Text)
    → hits (add l rule) canon ≡ (hits l canon || admits (to_lower_case (trim rule)) canon)
unfolding add
hits-add l rule canon = hits-add_trimmed l (to_lower_case (trim rule)) canon

hits-add_all :
    (l : Allowlist) (rules : List Text) (canon : Text)
    → hits (add_all l rules) canon
      ≡ (hits l canon || any rules (λ r. admits (to_lower_case (trim r)) canon))
unfolding add_all
hits-add_all l [] canon = ground arith
hits-add_all l (r ∷ rules) canon =
    ground (arith, hits-add_all (add l r) rules canon, hits-add l r canon)

starts_with-nil : (c : ℕ) (p : Text) → starts_with [] (c ∷ p) ≡ false
unfolding starts_with
starts_with-nil c p = refl

admits_iff : (rule canon : Text) → (admits rule canon ≡ true) ↔ Admits rule canon
admits_iff [] canon = (λ e. cc, λ a. ground (arith, starts_with-nil b'*' (codes ".")))
admits_iff (c ∷ s) canon = (
  λ e. ground (
    arith,
    text_eq_iff (c ∷ s) (codes "*"),
    covers_iff canon (canonicalize_host (drop 2 (c ∷ s))),
    text_eq_iff (strip_www canon) (normalize_host (c ∷ s)),
  ),
  λ a. ground (
    arith,
    text_eq_iff (c ∷ s) (codes "*"),
    covers_iff canon (canonicalize_host (drop 2 (c ∷ s))),
    text_eq_iff (strip_www canon) (normalize_host (c ∷ s)),
  ),
)

allows_canonical-any :
    (rules : List Text) (canon : Text)
    → allows_canonical (add_all empty_allowlist rules) canon
      ≡ (not (is_empty canon) && any rules (λ r. admits (to_lower_case (trim r)) canon))
allows_canonical-any rules canon = rw (
  allows_canonical-hits (add_all empty_allowlist rules) canon,
  hits-add_all empty_allowlist rules canon,
)

allows_canonical_iff :
    (rules : List Text) (canon : Text)
    → (allows_canonical (add_all empty_allowlist rules) canon ≡ true)
      ↔ ((canon ≢ []) × AnyOf (λ r. Admits (to_lower_case (trim r)) canon) rules)
allows_canonical_iff rules [] =
    (λ e. absurd (false≢true (sym (allows_canonical-any rules []) ∙ e)), λ h. absurd (h.0 refl))
allows_canonical_iff rules (c ∷ s) =
    let each = any_iff _ _ rules (λ r. admits_iff (to_lower_case (trim r)) (c ∷ s)) in
    (
      λ e. (λ p. cc, each.0 (sym (allows_canonical-any rules (c ∷ s)) ∙ e)),
      λ h. allows_canonical-any rules (c ∷ s) ∙ each.1 h.1,
    )

-- An allowlist admits a host exactly when the canonical host is not empty and one of the rules,
-- trimmed and in lower case, admits it: `*`; or `*.` and a domain that the host is or is below; or
-- another text that names the host up to a leading `www.`.
pub allows_iff :
    (rules : List Text) (host : Text)
    → (allows (new_allowlist rules) host ≡ true) ↔ (
        (canonicalize_host host ≢ [])
        × AnyOf (λ r. Admits (to_lower_case (trim r)) (canonicalize_host host)) rules)
unfolding allows new_allowlist
allows_iff rules host = allows_canonical_iff rules (canonicalize_host host)
