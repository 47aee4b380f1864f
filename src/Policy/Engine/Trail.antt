-- ===== src/Policy/Engine/Trail.antt =====
-- What the engine puts on the audit trail.
use browse_gateway.Base.{
  ℕ, ◌≡◌, refl, Bool, true, false, ◌&&◌, none, some, List, [], ◌∷◌, arith, if◌then◌else◌, All,
  AnyOf,
}
use browse_gateway.Base.Text.{Text, codes, text_eq}
use browse_gateway.Host.{canonicalize_host, is_http_url}
use browse_gateway.Policy.Allowlist.{allows}
use browse_gateway.Policy.Egress.{egress_deny_reason}
use browse_gateway.Policy.Origination.{denies, origination_deny_reason}
use browse_gateway.Policy.Audit.{auth_ok, auth_reject, allowed, blocked, MemorySink, record_entry}
use browse_gateway.Policy.Consumer.{ConsumerSpec, Consumer, ok, to_consumer, resolve, new_registry}
use browse_gateway.Policy.Consumer.Registry.{resolve-new_registry}
use browse_gateway.Policy.Engine.{
  Engine, Request, World, Verdict, allow, block, navigation, authentication, authenticate,
  set_reason, nav_block, nav_allow, guard_for, scheme_reason, allowlist_reason, credential_reason,
  guard_for_credential_host,
}

-- A block is on the trail once, under the consumer's id, with the reason that the caller reads. An
-- allowed top-level navigation is on it once, an allowed subresource is not, and neither sets a
-- reason.
pub Logged : ℕ → Consumer → Request → World → Verdict × World → Type 0
Logged now c req w (block, w') =
    (reason : Text) × (w'.audit ≡ record_entry w.audit (navigation now c req blocked (some reason)))
    × (w'.out ≡ set_reason reason w.out)
Logged now c req w (allow, w') =
    (w'.out ≡ w.out)
    × (w'.audit ≡ (
        if req.is_navigation_request
        then record_entry w.audit (navigation now c req allowed none)
        else w.audit))

module _ (c : Consumer) (now : ℕ) (req : Request) (w : World) where
  nav_block-Logged : (reason : Text) → Logged now c req w (nav_block now c req reason w)
  unfolding Logged
  nav_block-Logged reason = (reason, refl, refl)

  nav_allow-Logged : Logged now c req w (nav_allow now c req w)
  unfolding Logged
  nav_allow-Logged = nav_allow_at req.is_navigation_request refl
    where
      nav_allow_at :
          (b : Bool) → req.is_navigation_request ≡ b → Logged now c req w (nav_allow now c req w)
      nav_allow_at true e = rw e (refl, refl)
      nav_allow_at false e = rw e (refl, refl)

  ladder-Logged :
      (http private denied permitted : Bool) (r r1 r2 r3 : Text)
      → Logged now c req w (
          if http
          then if private
            then nav_block now c req r1 w
            else if denied
            then nav_block now c req r2 w
            else if permitted
            then nav_allow now c req w
            else nav_block now c req r3 w
          else nav_block now c req r w)
  ladder-Logged false private denied permitted r r1 r2 r3 = nav_block-Logged r
  ladder-Logged true true denied permitted r r1 r2 r3 = nav_block-Logged r1
  ladder-Logged true false true permitted r r1 r2 r3 = nav_block-Logged r2
  ladder-Logged true false false true r r1 r2 r3 = nav_allow-Logged
  ladder-Logged true false false false r r1 r2 r3 = nav_block-Logged r3

  -- Every verdict of a consumer's guard is logged: a block once, under the consumer's id and with
  -- the reason that the caller reads; an allowed top-level navigation once; an allowed subresource
  -- not at all.
  pub guard_for-Logged : (e : Engine) → Logged now c req w (guard_for e c now req w)
  unfolding guard_for
  guard_for-Logged e =
      ladder-Logged (is_http_url e.runtime.parse req.url) (e.egress req.host)
        (req.is_navigation_request && denies e.runtime e.origination req.host req.url)
        (allows c.allowlist req.host) scheme_reason egress_deny_reason origination_deny_reason
        allowlist_reason

  -- Every verdict of a credentialed session's guard is logged in the same way: a block once with the
  -- reason that the caller reads, an allowed top-level navigation once, an allowed subresource not
  -- at all.
  pub guard_for_credential_host-Logged :
      (e : Engine) (owner_host : Text)
      → Logged now c req w (guard_for_credential_host e c owner_host now req w)
  unfolding guard_for_credential_host
  guard_for_credential_host-Logged e owner_host =
      ladder-Logged (is_http_url e.runtime.parse req.url) (e.egress req.host)
        (req.is_navigation_request && denies e.runtime e.origination req.host req.url)
        (if req.is_navigation_request
          then text_eq (canonicalize_host req.host) (canonicalize_host owner_host)
            && allows c.allowlist req.host
          else allows c.allowlist req.host)
        scheme_reason egress_deny_reason origination_deny_reason
        (if req.is_navigation_request then credential_reason else allowlist_reason)

-- Over a registry that was built from specs, a token authenticates as the consumer of a spec with
-- that very token and is logged under its id; a refused token is logged with no id; and the token
-- of every spec authenticates.
pub authenticate_sound :
    (e : Engine) (specs : List ConsumerSpec) (now : ℕ) (audit : MemorySink)
    → new_registry specs ≡ ok e.registry
    → ((token : Text) (c : Consumer)
        → (authenticate e now token audit).0 ≡ some c
        → AnyOf (λ spec. (spec.token ≡ token) × (c ≡ to_consumer spec)) specs
          × ((authenticate e now token audit).1
              ≡ record_entry audit (authentication now (some c.id) auth_ok none)))
      × ((token : Text)
          → (authenticate e now token audit).0 ≡ none
          → (authenticate e now token audit).1
            ≡ record_entry audit
                (authentication now none auth_reject (some (codes "unknown credential"))))
      × All (λ spec. (authenticate e now spec.token audit).0 ≡ some (to_consumer spec)) specs
unfolding authenticate
authenticate_sound e specs now audit made = (
  λ token c h.
      let found = authenticate→resolve token c h in (origin token c found, logged token c h),
  refused,
  known specs (resolve-new_registry specs e.registry made).0,
)
  where
    origin :
        (token : Text) (c : Consumer)
        → resolve e.registry token ≡ some c
        → AnyOf (λ spec. (spec.token ≡ token) × (c ≡ to_consumer spec)) specs
    origin = (resolve-new_registry specs e.registry made).1

    authenticate→resolve :
        (token : Text) (c : Consumer)
        → (authenticate e now token audit).0 ≡ some c
        → resolve e.registry token ≡ some c
    authenticate→resolve token c h = ground arith

    logged :
        (token : Text) (c : Consumer)
        → (authenticate e now token audit).0 ≡ some c
        → (authenticate e now token audit).1
          ≡ record_entry audit (authentication now (some c.id) auth_ok none)
    logged token c h = ground arith

    refused :
        (token : Text)
        → (authenticate e now token audit).0 ≡ none
        → (authenticate e now token audit).1
          ≡ record_entry audit
              (authentication now none auth_reject (some (codes "unknown credential")))
    refused token h = ground arith

    known :
        (ss : List ConsumerSpec)
        → All (λ spec. resolve e.registry spec.token ≡ some (to_consumer spec)) ss
        → All (λ spec. (authenticate e now spec.token audit).0 ≡ some (to_consumer spec)) ss
    known [] h = tt
    known (s ∷ ss) h = (ground arith, known ss h.1)
