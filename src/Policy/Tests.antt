-- ===== src/Policy/Tests.antt =====
-- The policy at concrete inputs. The runtime of these runs parses every URL as https with the path
-- after its first eleven units, decodes nothing, and matches a pattern by its prefix.
use browse_gateway.Base.{
  List, ℕ, ◌≡◌, refl, ◌⊎◌, inl, inr, true, false, none, some, [], ◌∷◌, ◌++◌, drop, if◌then◌else◌,
  All,
}
use browse_gateway.Base.Text.{
  Text, codes, text_eq, is_space, trim, trim_start, lower, to_lower_case, starts_with, ends_with,
  drop_last, includes, split, split_from,
}
use browse_gateway.Base.Sets.{set_add}
use browse_gateway.Host.{Url, strip_root, canonicalize_host, is_http_url, covers}
use browse_gateway.Host.Canonical.{HasNoSpace}
use browse_gateway.Policy.Allowlist.{
  allows, new_allowlist, add, add_all, add_trimmed, allows_canonical, normalize_host, strip_www,
}
use browse_gateway.Policy.Allowlist.Rules.{allows_iff}
use browse_gateway.Policy.Egress.{Net, is_blocked_egress_host}
use browse_gateway.Policy.Egress.Ranges.{v4, v6, ReadsRules}
use browse_gateway.Policy.Egress.Blocks.{is_blocked_egress_host_iff}
use browse_gateway.Policy.Origination.{
  Runtime, Boundary, new_boundary, host_set, all_compile, default_deny_hosts, default_deny_paths,
  denies, server_normalized_path, before, join_slash, path_denied, candidates,
  decoded_path_variants, decode_rounds,
}
use browse_gateway.Policy.Origination.Floor.{denies-extend}
use browse_gateway.Policy.Origination.Paths.{denies_matrix}
use browse_gateway.Policy.Audit.{AuditRecord, new_sink, auth_reject}
use browse_gateway.Policy.Audit.Ring.{record_all, records-record_all}
use browse_gateway.Policy.Consumer.{Consumer, to_consumer}
use browse_gateway.Policy.Consumer.Tests.{spec_a, spec_b, two_consumers, registry_of}
use browse_gateway.Policy.Engine.{
  Engine, Request, World, allow, guard_for, guard_for_credential_host, authentication, authenticate,
}
use browse_gateway.Policy.Engine.Guards.{guard_for-allows_iff, guard_for_credential_host_narrower}
use browse_gateway.Policy.Engine.Trail.{Logged, guard_for-Logged, authenticate_sound}

abbrev https_url : Text → Url
https_url url = record { protocol = codes "https:"; hostname = codes "a.b"; pathname = drop 11 url }

abbrev plain_runtime : Runtime
plain_runtime = record {
  parse = λ url. some (https_url url);
  decode = λ p. none;
  compiles = λ p. true;
  test = λ re p. starts_with p re;
}

-- The numbers of some literals; other texts are no literals.
abbrev literals : List (Text × ℕ)
literals =
    (codes "0.0.0.0", v4 0 0)
    ∷ (codes "10.0.0.0", v4 10 0)
    ∷ (codes "127.0.0.0", v4 127 0)
    ∷ (codes "169.254.0.0", v4 169 254)
    ∷ (codes "172.16.0.0", v4 172 16)
    ∷ (codes "192.168.0.0", v4 192 168)
    ∷ (codes "100.64.0.0", v4 100 64)
    ∷ (codes "::1", 1)
    ∷ (codes "::", 0)
    ∷ (codes "fc00::", v6 64512)
    ∷ (codes "fe80::", v6 65152)
    ∷ (codes "fec0::", v6 65216)
    ∷ []

abbrev number_in : List (Text × ℕ) → Text → ℕ
number_in [] host = 0
number_in ((t, v) ∷ ls) host = if text_eq t host then v else number_in ls host

abbrev some_net : Net
some_net = record {
  is_ip = λ host. if text_eq host (codes "::1") then 6 else 0;
  value = number_in literals;
}

reads_rules : ReadsRules some_net
unfolding text_eq
reads_rules = record {
  this_network = refl;
  private_a = refl;
  loopback = refl;
  link_local = refl;
  private_b = refl;
  private_c = refl;
  shared = refl;
  loopback_v6 = refl;
  unspecified_v6 = refl;
  unique_local_v6 = refl;
  link_local_v6 = refl;
  site_local_v6 = refl;
}

allows_iff_example :
    allows (new_allowlist (codes "x.org" ∷ codes "*.b.c" ∷ [])) (codes "A.b.c.") ≡ true
allows_iff_example = (allows_iff (codes "x.org" ∷ codes "*.b.c" ∷ []) (codes "A.b.c.")).1 (
    unfold canonicalize_host strip_root trim trim_start is_space to_lower_case lower starts_with
      ends_with text_eq drop_last in
    ((λ e. cc), inr (inl (inr (inl ((λ e. cc), refl, inr (codes "a", refl)))))))

is_blocked_egress_host_iff_example : is_blocked_egress_host some_net (codes "[::1].") ≡ true
is_blocked_egress_host_iff_example =
    (is_blocked_egress_host_iff some_net reads_rules (codes "[::1].")).1 (
      unfold canonicalize_host strip_root trim trim_start is_space to_lower_case lower ends_with
        text_eq drop_last in
      (codes "::1", inl refl, (λ e. cc), inr (inr (refl, refl))))

metadata_host : HasNoSpace (codes "Metadata")
unfolding is_space
metadata_host = (refl, (refl, (refl, (refl, (refl, (refl, (refl, (refl, tt))))))))

abbrev base_boundary : Boundary
base_boundary = record { hosts = host_set [] default_deny_hosts; paths = default_deny_paths }

abbrev wide_boundary : Boundary
wide_boundary = record {
  hosts = host_set [] (default_deny_hosts ++ codes "bank.test" ∷ []);
  paths = default_deny_paths ++ codes "/pay" ∷ [];
}

boundary_of :
    new_boundary plain_runtime (codes "bank.test" ∷ []) (codes "/pay" ∷ []) ≡ some wide_boundary
unfolding new_boundary all_compile default_deny_paths default_deny_hosts
boundary_of = refl

floor_of : new_boundary plain_runtime [] [] ≡ some base_boundary
unfolding new_boundary all_compile default_deny_paths default_deny_hosts
floor_of = refl

denies-extend_example :
    denies plain_runtime wide_boundary (codes "PayPal.com") (codes "https://a.b/") ≡ true
denies-extend_example =
    denies-extend plain_runtime (codes "bank.test" ∷ []) (codes "/pay" ∷ []) wide_boundary
      base_boundary (codes "PayPal.com") (codes "https://a.b/") boundary_of floor_of
      (unfold denies host_set set_add default_deny_hosts canonicalize_host strip_root trim
          trim_start is_space to_lower_case lower ends_with text_eq in
        refl)

-- One pattern, `/pay`.
abbrev pay_boundary : Boundary
pay_boundary = record { hosts = []; paths = codes "/pay" ∷ [] }

denies_matrix_example :
    denies plain_runtime pay_boundary (codes "a.b") (codes "https://a.b/pay;x=1") ≡ true
denies_matrix_example =
    denies_matrix plain_runtime pay_boundary (codes "a.b") (codes "https://a.b/pay;x=1")
      (https_url (codes "https://a.b/pay;x=1")) (codes "/pay") (codes "x=1") refl refl
      (unfold includes in refl) (unfold includes in refl) (unfold includes in refl)
      (unfold server_normalized_path before join_slash split split_from starts_with in refl)

abbrev entry_at : ℕ → AuditRecord
entry_at now = authentication now none auth_reject none

records-record_all_example :
    (record_all (new_sink 2) (entry_at 1 ∷ entry_at 2 ∷ entry_at 3 ∷ [])).records
    ≡ entry_at 2 ∷ entry_at 3 ∷ []
records-record_all_example = records-record_all 2 (entry_at 1 ∷ entry_at 2 ∷ entry_at 3 ∷ [])

abbrev engine : Engine
engine = record {
  registry = two_consumers;
  runtime = plain_runtime;
  egress = λ host. false;
  origination = pay_boundary;
}

abbrev no_trail : World
no_trail = record { audit = new_sink 0; out = some (record { reason = none }) }

abbrev navigation_to : Text → Text → Request
navigation_to host url = record { url = url; host = host; is_navigation_request = true }

abbrev consumer_a : Consumer
consumer_a = to_consumer spec_a

a_allows : allows consumer_a.allowlist (codes "a.b.c") ≡ true
unfolding allows allows_canonical new_allowlist add_all add add_trimmed set_add covers strip_www
    normalize_host canonicalize_host strip_root trim trim_start is_space to_lower_case lower
    starts_with ends_with text_eq drop_last
a_allows = refl

guard_for-allows_iff_example :
    (guard_for engine consumer_a 5
      (navigation_to (codes "a.b.c") (codes "https://a.b/x"))
      no_trail).0
    ≡ allow
guard_for-allows_iff_example =
    (guard_for-allows_iff engine consumer_a 5
        (navigation_to (codes "a.b.c") (codes "https://a.b/x")) no_trail).1
      (unfold is_http_url text_eq in refl, refl, inr not_denied, a_allows)
  where
    not_denied : denies plain_runtime pay_boundary (codes "a.b.c") (codes "https://a.b/x") ≡ false
    not_denied =
        unfold denies path_denied candidates decoded_path_variants decode_rounds set_add
          server_normalized_path before join_slash split split_from starts_with text_eq in
        refl

abbrev to_owner : Request
to_owner = navigation_to (codes "a.b.c") (codes "https://a.b/x")

credential_allows :
    (guard_for_credential_host engine consumer_a (codes "A.b.c") 5 to_owner no_trail).0 ≡ allow
unfolding guard_for_credential_host is_http_url denies path_denied candidates decoded_path_variants
    decode_rounds set_add server_normalized_path before join_slash split split_from allows
    allows_canonical new_allowlist add_all add add_trimmed covers strip_www normalize_host
    canonicalize_host strip_root trim trim_start is_space to_lower_case lower starts_with ends_with
    text_eq drop_last
credential_allows = refl

guard_for_credential_host_narrower_example :
    ((guard_for engine consumer_a 5 to_owner no_trail).0 ≡ allow)
    × ((to_owner.is_navigation_request ≡ false)
        ⊎ (canonicalize_host to_owner.host ≡ canonicalize_host (codes "A.b.c")))
guard_for_credential_host_narrower_example =
    guard_for_credential_host_narrower engine consumer_a 5 to_owner no_trail (codes "A.b.c")
      credential_allows

guard_for-Logged_example :
    Logged 5 consumer_a to_owner no_trail (guard_for engine consumer_a 5 to_owner no_trail)
guard_for-Logged_example = guard_for-Logged consumer_a 5 to_owner no_trail engine

authenticate_sound_example :
    All
      (λ spec. (authenticate engine 5 spec.token (new_sink 0)).0 ≡ some (to_consumer spec))
      (spec_a ∷ spec_b ∷ [])
authenticate_sound_example =
    (authenticate_sound engine (spec_a ∷ spec_b ∷ []) 5 (new_sink 0) registry_of).2
