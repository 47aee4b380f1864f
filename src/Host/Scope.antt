-- ===== src/Host/Scope.antt =====
-- The scope of a stored credential's cookies: cookieBelongsToHost of security/url.ts.
use browse_gateway.Base.{◌≡◌, refl, ◌≢◌, ◌↔◌, ◌⊎◌, true, [], ◌∷◌, ◌++◌, arith}
use browse_gateway.Base.Text.{Text, includes, text_eq_iff, ends_with_iff}
use browse_gateway.Host.{UrlParser, ascii_host, strip_leading_dot, in_scope, cookie_belongs_to_host}

-- The host stands below the other: some labels, a dot, and the other.
abbrev pub IsBelow : Text → Text → Type 0
IsBelow d h = (sub : Text) × (d ≡ sub ++ b'.' ∷ h)

-- The cookie's host is the owner's, or one is a dotted subdomain of the other and the shorter of
-- the two has a dot.
abbrev pub Belongs : Text → Text → Type 0
Belongs d h =
    (d ≢ [])
    × (h ≢ [])
    × ((d ≡ h)
        ⊎ ((includes h b'.' ≡ true) × (IsBelow d h ⊎ (IsBelow h d × (includes d b'.' ≡ true)))))

in_scope→Belongs : (d h : Text) → in_scope d h ≡ true → Belongs d h
unfolding in_scope
in_scope→Belongs [] h e = ground arith
in_scope→Belongs (a ∷ d) [] e = ground arith
in_scope→Belongs (a ∷ d) (b ∷ h) e = (
  λ p. cc,
  λ p. cc,
  ground (
    arith,
    text_eq_iff (a ∷ d) (b ∷ h),
    ends_with_iff (a ∷ d) (b'.' ∷ b ∷ h),
    ends_with_iff (b ∷ h) (b'.' ∷ a ∷ d),
  ),
)

Belongs→in_scope : (d h : Text) → Belongs d h → in_scope d h ≡ true
unfolding in_scope
Belongs→in_scope [] h b = absurd (b.0 refl)
Belongs→in_scope (a ∷ d) [] b = absurd (b.1 refl)
Belongs→in_scope (a ∷ d) (b ∷ h) p = ground (
  arith,
  text_eq_iff (a ∷ d) (b ∷ h),
  ends_with_iff (a ∷ d) (b'.' ∷ b ∷ h),
  ends_with_iff (b ∷ h) (b'.' ∷ a ∷ d),
  p.2,
)

-- A cookie domain belongs to an owner host exactly when the two hosts, with a leading dot of the
-- domain dropped and both folded to ASCII, are not empty and are equal, or the owner has a dot and
-- either the domain is a dotted subdomain of the owner or the owner is one of the domain and the
-- domain has a dot.
pub cookie_belongs_to_host_iff :
    (parse : UrlParser) (domain owner_host : Text)
    → (cookie_belongs_to_host parse domain owner_host ≡ true)
      ↔ Belongs (ascii_host parse (strip_leading_dot domain)) (ascii_host parse owner_host)
unfolding cookie_belongs_to_host
cookie_belongs_to_host_iff parse domain owner_host = (in_scope→Belongs _ _, Belongs→in_scope _ _)
