-- ===== src/Policy/Engine.antt =====
-- The policy engine: policy/index.ts. The egress filter is a function, as in the source, where it
-- is `isBlockedEgressHost` unless another is given; the clock is an argument.
pub mod Guards
pub mod Trail
use browse_gateway.Base.{
  ℕ, ◌≡◌, Bool, true, false, ◌&&◌, Option, none, some, List, [], ◌∷◌, ◌++◌, if◌then◌else◌,
}
use browse_gateway.Base.Text.{Text, codes, text_eq}
use browse_gateway.Base.Sets.{has}
use browse_gateway.Host.{canonicalize_host, is_http_url}
use browse_gateway.Policy.Allowlist.{allows}
use browse_gateway.Policy.Egress.{egress_deny_reason}
use browse_gateway.Policy.Origination.{Runtime, Boundary, denies, origination_deny_reason}
use browse_gateway.Policy.Audit.{
  Decision, auth_ok, auth_reject, allowed, blocked, Action, authenticates, navigates, AuditRecord,
  MemorySink, record_entry,
}
use browse_gateway.Policy.Consumer.{Consumer, Registry, resolve}

pub record Request : Type 0 where
  pub url : Text
  pub host : Text
  pub is_navigation_request : Bool

-- The out-parameter of a guard, a record with one field that may be unset.
pub record BlockInfo : Type 0 where
  pub reason : Option Text

-- What a call may change: the trail, and the out-parameter where the caller passes one.
pub record World : Type 0 where
  pub audit : MemorySink
  pub out : Option BlockInfo

pub data Verdict : Type 0 where
  allow block : Verdict

pub record Engine : Type 0 where
  pub registry : Registry
  pub runtime : Runtime
  pub egress : Text → Bool
  pub origination : Boundary

abbrev pub scheme_reason : Text
scheme_reason = codes "scheme not allowed (only http/https)"

abbrev pub allowlist_reason : Text
allowlist_reason = codes "host not in consumer allowlist"

abbrev pub credential_reason : Text
credential_reason = codes "credential scope: navigation is not the credential owner host"

abbrev pub probe_scheme_reason : Text
probe_scheme_reason = codes "diagnostics probe: scheme not allowed (only http/https)"

abbrev pub probe_egress_reason : Text
probe_egress_reason = codes "diagnostics probe: " ++ egress_deny_reason

abbrev pub probe_host_reason : Text
probe_host_reason = codes "diagnostics probe: host not in approved set"

abbrev pub probe_reason : Text
probe_reason = codes "diagnostics egress probe"

unfoldable pub diagnostics_host_set : List Text
diagnostics_host_set = canonicalize_host (codes "ipinfo.io") ∷ []

abbrev pub navigation : ℕ → Consumer → Request → Decision → Option Text → AuditRecord
navigation now c req decision reason = record {
  ts = now;
  consumer_id = some c.id;
  action = navigates;
  decision = decision;
  host = some req.host;
  url = some req.url;
  reason = reason;
}

abbrev pub authentication : ℕ → Option Text → Decision → Option Text → AuditRecord
authentication now id decision reason = record {
  ts = now;
  consumer_id = id;
  action = authenticates;
  decision = decision;
  host = none;
  url = none;
  reason = reason;
}

-- `none` is the throw of UNAUTHENTICATED.
unfoldable pub authenticate : Engine → ℕ → Text → MemorySink → Option Consumer × MemorySink
authenticate e now token audit = elim (resolve e.registry token) [
  | none ↦ (
    none,
    record_entry audit (authentication now none auth_reject (some (codes "unknown credential"))),
  )
  | some c ↦ (some c, record_entry audit (authentication now (some c.id) auth_ok none))
]

abbrev pub set_reason : Text → Option BlockInfo → Option BlockInfo
set_reason reason none = none
set_reason reason (some info) = some (record info { reason = some reason })

abbrev pub nav_block : ℕ → Consumer → Request → Text → World → Verdict × World
nav_block now c req reason w = (
  block,
  record {
    audit = record_entry w.audit (navigation now c req blocked (some reason));
    out = set_reason reason w.out;
  },
)

-- An allowed request is on the trail if it is a top-level navigation.
abbrev pub nav_allow : ℕ → Consumer → Request → World → Verdict × World
nav_allow now c req w =
    if req.is_navigation_request
    then (allow, record w { audit = record_entry w.audit (navigation now c req allowed none) })
    else (allow, w)

unfoldable pub guard_for : Engine → Consumer → ℕ → Request → World → Verdict × World
guard_for e c now req w =
    if is_http_url e.runtime.parse req.url
    then if e.egress req.host
      then nav_block now c req egress_deny_reason w
      else if req.is_navigation_request && denies e.runtime e.origination req.host req.url
      then nav_block now c req origination_deny_reason w
      else if allows c.allowlist req.host
      then nav_allow now c req w
      else nav_block now c req allowlist_reason w
    else nav_block now c req scheme_reason w

unfoldable pub guard_for_diagnostics : Engine → Consumer → ℕ → Request → World → Verdict × World
guard_for_diagnostics e c now req w =
    if is_http_url e.runtime.parse req.url
    then if e.egress req.host
      then nav_block now c req probe_egress_reason w
      else if has diagnostics_host_set (canonicalize_host req.host)
      then (
        allow,
        record w {
          audit = record_entry w.audit (navigation now c req allowed (some probe_reason));
        },
      )
      else nav_block now c req probe_host_reason w
    else nav_block now c req probe_scheme_reason w

unfoldable pub guard_for_credential_host :
    Engine → Consumer → Text → ℕ → Request → World → Verdict × World
guard_for_credential_host e c owner_host now req w =
    let owner = canonicalize_host owner_host in
    let in_allowlist = allows c.allowlist req.host in
    let permitted =
      if req.is_navigation_request
      then text_eq (canonicalize_host req.host) owner && in_allowlist
      else in_allowlist in
    if is_http_url e.runtime.parse req.url
    then if e.egress req.host
      then nav_block now c req egress_deny_reason w
      else if req.is_navigation_request && denies e.runtime e.origination req.host req.url
      then nav_block now c req origination_deny_reason w
      else if permitted
      then nav_allow now c req w
      else nav_block now c req
          (if req.is_navigation_request then credential_reason else allowlist_reason) w
    else nav_block now c req scheme_reason w
