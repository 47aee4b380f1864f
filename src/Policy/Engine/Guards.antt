-- ===== src/Policy/Engine/Guards.antt =====
-- Which requests the guards allow.
use browse_gateway.Base.{ℕ, ◌≡◌, refl, ◌↔◌, ◌⊎◌, true, false, arith}
use browse_gateway.Base.Text.{Text, codes, text_eq_iff, trim, to_lower_case, ends_with}
use browse_gateway.Host.{strip_root, canonicalize_host, is_http_url}
use browse_gateway.Policy.Allowlist.{allows}
use browse_gateway.Policy.Origination.{denies}
use browse_gateway.Policy.Consumer.{Consumer}
use browse_gateway.Policy.Engine.{
  Engine, Request, World, allow, diagnostics_host_set, guard_for, guard_for_diagnostics,
  guard_for_credential_host,
}

-- The approved host is canonical.
approved : canonicalize_host (codes "ipinfo.io") ≡ codes "ipinfo.io"
unfolding canonicalize_host strip_root trim to_lower_case ends_with
approved = refl

module _ (e : Engine) (c : Consumer) (now : ℕ) (req : Request) (w : World) where
  -- A consumer's guard allows a request exactly when its scheme is http or https, its host is not
  -- blocked for egress, it is no top-level navigation that the origination boundary denies, and its
  -- host is in the consumer's allowlist.
  pub guard_for-allows_iff : ((guard_for e c now req w).0 ≡ allow) ↔ (
      (is_http_url e.runtime.parse req.url ≡ true)
      × (e.egress req.host ≡ false)
      × ((req.is_navigation_request ≡ false)
          ⊎ (denies e.runtime e.origination req.host req.url ≡ false))
      × (allows c.allowlist req.host ≡ true))
  unfolding guard_for
  guard_for-allows_iff = (λ h. ground arith, λ h. ground arith)

  -- The probe's guard allows a request exactly when its scheme is http or https, its host is not
  -- blocked for egress, and its canonical host is ipinfo.io, whatever the consumer's allowlist is.
  pub guard_for_diagnostics-allows_iff : ((guard_for_diagnostics e c now req w).0 ≡ allow) ↔ (
      (is_http_url e.runtime.parse req.url ≡ true)
      × (e.egress req.host ≡ false)
      × (canonicalize_host req.host ≡ codes "ipinfo.io"))
  unfolding guard_for_diagnostics diagnostics_host_set
  guard_for_diagnostics-allows_iff = (
    λ h. ground (
      arith,
      text_eq_iff (canonicalize_host req.host) (canonicalize_host (codes "ipinfo.io")),
      approved,
    ),
    λ h. ground (
      arith,
      text_eq_iff (canonicalize_host req.host) (canonicalize_host (codes "ipinfo.io")),
      approved,
    ),
  )

  -- What the guard of a credentialed session allows, the consumer's guard allows too, and of
  -- top-level navigations only those to the credential's owner host.
  pub guard_for_credential_host_narrower :
      (owner_host : Text)
      → (guard_for_credential_host e c owner_host now req w).0 ≡ allow
      → ((guard_for e c now req w).0 ≡ allow)
        × ((req.is_navigation_request ≡ false)
            ⊎ (canonicalize_host req.host ≡ canonicalize_host owner_host))
  unfolding guard_for guard_for_credential_host
  guard_for_credential_host_narrower owner_host h =
      ground (arith, text_eq_iff (canonicalize_host req.host) (canonicalize_host owner_host))

  -- On subresources and on navigations to the credential's owner host, the guard of a credentialed
  -- session and the consumer's guard give the same verdict.
  pub guard_for_credential_host_agrees :
      (owner_host : Text)
      → (req.is_navigation_request ≡ false)
        ⊎ (canonicalize_host req.host ≡ canonicalize_host owner_host)
      → (guard_for_credential_host e c owner_host now req w).0 ≡ (guard_for e c now req w).0
  unfolding guard_for guard_for_credential_host
  guard_for_credential_host_agrees owner_host h =
      ground (arith, text_eq_iff (canonicalize_host req.host) (canonicalize_host owner_host))
