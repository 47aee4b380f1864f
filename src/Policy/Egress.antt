-- ===== src/Policy/Egress.antt =====
-- The egress filter: security/egress.ts. What Node's `isIP` says of a text, and the number of an address
-- literal, are parameters.
pub mod Ranges
pub mod Blocks
use browse_gateway.Base.{
  ℕ, ◌-◌, ◌/◌, ◌%◌, ◌^◌, ◌≡◌, ◌++◌, Bool, true, false, ◌&&◌, ◌||◌, List, [], ◌∷◌, any,
  if◌then◌else◌, ◌==◌,
}
use browse_gateway.Base.Text.{Text, codes, text_eq, is_empty, ends_with}
use browse_gateway.Host.{dot, canonicalize_host_for_ip}
use browse_gateway.Host.Canonical.{HasNoSpace, canonicalize_host-dot}

pub data Family : Type 0 where
  ipv4 ipv6 : Family

pub data BlockRule : Type 0 where
  subnet : Text → ℕ → Family → BlockRule
  address : Text → Family → BlockRule

-- Node's net module: the version of an IP literal, 0 for other texts, and the number that a literal
-- writes.
pub record Net : Type 0 where
  pub is_ip : Text → ℕ
  pub value : Text → ℕ

abbrev pub egress_deny_reason : Text
egress_deny_reason = codes "egress: private/internal/metadata address blocked"

unfoldable pub private_ranges : List BlockRule
private_ranges =
    subnet (codes "0.0.0.0") 8 ipv4
    ∷ subnet (codes "10.0.0.0") 8 ipv4
    ∷ subnet (codes "127.0.0.0") 8 ipv4
    ∷ subnet (codes "169.254.0.0") 16 ipv4
    ∷ subnet (codes "172.16.0.0") 12 ipv4
    ∷ subnet (codes "192.168.0.0") 16 ipv4
    ∷ subnet (codes "100.64.0.0") 10 ipv4
    ∷ address (codes "::1") ipv6
    ∷ address (codes "::") ipv6
    ∷ subnet (codes "fc00::") 7 ipv6
    ∷ subnet (codes "fe80::") 10 ipv6
    ∷ subnet (codes "fec0::") 10 ipv6
    ∷ []

-- The two numbers of `width` bits have their first `n` bits in common.
abbrev pub same_prefix : ℕ → ℕ → ℕ → ℕ → Bool
same_prefix width n a b = a / 2 ^ (width - n) == b / 2 ^ (width - n)

abbrev pub matches_v4 : Net → ℕ → BlockRule → Bool
matches_v4 net v (subnet base n ipv4) = same_prefix 32 n v (net.value base)
matches_v4 net v (subnet base n ipv6) = false
matches_v4 net v (address base ipv4) = v == net.value base
matches_v4 net v (address base ipv6) = false

abbrev pub matches_v6 : Net → ℕ → BlockRule → Bool
matches_v6 net v (subnet base n ipv6) = same_prefix 128 n v (net.value base)
matches_v6 net v (subnet base n ipv4) = false
matches_v6 net v (address base ipv6) = v == net.value base
matches_v6 net v (address base ipv4) = false

-- `BlockList.check` of Node: an IPv6 literal that maps an IPv4 address meets the IPv4 rules too.
abbrev pub check : Net → List BlockRule → Text → Family → Bool
check net rules host ipv4 = any rules (matches_v4 net (net.value host))
check net rules host ipv6 =
    any rules (matches_v6 net (net.value host))
    || (net.value host / 2 ^ 32 == 65535 && any rules (matches_v4 net (net.value host % 2 ^ 32)))

-- The tests on a canonical host.
unfoldable pub is_blocked_canonical : Net → Text → Bool
is_blocked_canonical net host =
    if is_empty host
    then false
    else if text_eq host (codes "localhost") || ends_with host (codes ".localhost")
    then true
    else if text_eq host (codes "metadata")
        || text_eq host (codes "metadata.google.internal")
        || text_eq host (codes "metadata.goog")
    then true
    else if ends_with host (codes ".internal") || ends_with host (codes ".local")
    then true
    else if net.is_ip host == 4
    then check net private_ranges host ipv4
    else if net.is_ip host == 6
    then check net private_ranges host ipv6
    else false

unfoldable pub is_blocked_egress_host : Net → Text → Bool
unfolding is_blocked_canonical
is_blocked_egress_host net raw = is_blocked_canonical net (canonicalize_host_for_ip raw)

-- A host that is not empty, has no white space and does not end in a dot is blocked exactly when it
-- is blocked with a root dot behind it.
pub is_blocked_egress_host-dot :
    (net : Net) (c : ℕ) (s : Text)
    → HasNoSpace (c ∷ s)
    → ends_with (c ∷ s) dot ≡ false
    → is_blocked_egress_host net ((c ∷ s) ++ dot) ≡ is_blocked_egress_host net (c ∷ s)
unfolding is_blocked_egress_host canonicalize_host_for_ip
is_blocked_egress_host-dot net c s h e = rw (canonicalize_host-dot c s h e)
