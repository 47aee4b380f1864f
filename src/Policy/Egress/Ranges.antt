-- ===== src/Policy/Egress/Ranges.antt =====
-- The blocked ranges of security/egress.ts as intervals of numbers.
use browse_gateway.Base.{
  ℕ, ◌+◌, ◌*◌, ◌/◌, ◌%◌, ◌^◌, ◌≡◌, refl, Bool, ◌||◌, ◌&&◌, any, arith, leb, ltb, ◌==◌,
}
use browse_gateway.Base.Text.{Text, codes}
use browse_gateway.Policy.Egress.{Net, ipv4, ipv6, private_ranges, matches_v4, matches_v6, check}

-- The number of the IPv4 address `a.b.0.0`, and of the IPv6 address whose first group is `g`.
abbrev pub v4 : ℕ → ℕ → ℕ
v4 a b = a * 16777216 + b * 65536

abbrev pub v6 : ℕ → ℕ
v6 g = g * 2 ^ 112

abbrev pub is_within : ℕ → ℕ → ℕ → Bool
is_within lo hi v = leb lo v && ltb v hi

-- 0.0.0.0 up to 0.255.255.255, and so on.
abbrev pub is_private_v4 : ℕ → Bool
is_private_v4 v =
    is_within (v4 0 0) (v4 1 0) v
    || is_within (v4 10 0) (v4 11 0) v
    || is_within (v4 127 0) (v4 128 0) v
    || is_within (v4 169 254) (v4 169 255) v
    || is_within (v4 172 16) (v4 172 32) v
    || is_within (v4 192 168) (v4 192 169) v
    || is_within (v4 100 64) (v4 100 128) v

prefix_8 : (v a : ℕ) → (v / 16777216 == a) ≡ is_within (v4 a 0) (v4 (a + 1) 0) v
prefix_8 v a = ground arith

prefix_16 : (v a b : ℕ) → (v / 65536 == a * 256 + b) ≡ is_within (v4 a b) (v4 a (b + 1)) v
prefix_16 v a b = ground arith

prefix_12 : (v : ℕ) → (v / 2 ^ 20 == v4 172 16 / 2 ^ 20) ≡ is_within (v4 172 16) (v4 172 32) v
prefix_12 v = ground arith

prefix_10 : (v : ℕ) → (v / 2 ^ 22 == v4 100 64 / 2 ^ 22) ≡ is_within (v4 100 64) (v4 100 128) v
prefix_10 v = ground arith

prefix_7 : (v : ℕ) → (v / 2 ^ 121 == v6 64512 / 2 ^ 121) ≡ is_within (v6 64512) (v6 65024) v
prefix_7 v = ground arith

prefix_v6_10 : (v : ℕ) → (v / 2 ^ 118 == v6 65152 / 2 ^ 118) ≡ is_within (v6 65152) (v6 65216) v
prefix_v6_10 v = ground arith

-- What Node reads the addresses of the rules as.
pub record ReadsRules (net : Net) : Type 0 where
  pub this_network : net.value (codes "0.0.0.0") ≡ v4 0 0
  pub private_a : net.value (codes "10.0.0.0") ≡ v4 10 0
  pub loopback : net.value (codes "127.0.0.0") ≡ v4 127 0
  pub link_local : net.value (codes "169.254.0.0") ≡ v4 169 254
  pub private_b : net.value (codes "172.16.0.0") ≡ v4 172 16
  pub private_c : net.value (codes "192.168.0.0") ≡ v4 192 168
  pub shared : net.value (codes "100.64.0.0") ≡ v4 100 64
  pub loopback_v6 : net.value (codes "::1") ≡ 1
  pub unspecified_v6 : net.value (codes "::") ≡ 0
  pub unique_local_v6 : net.value (codes "fc00::") ≡ v6 64512
  pub link_local_v6 : net.value (codes "fe80::") ≡ v6 65152
  pub site_local_v6 : net.value (codes "fec0::") ≡ v6 65216

-- The loopback and unspecified addresses, fc00:: up to fdff:…, and fe80:: up to feff:….
abbrev pub is_private_v6 : ℕ → Bool
is_private_v6 v =
    v == 1 || v == 0 || is_within (v6 64512) (v6 65024) v || is_within (v6 65152) (v6 65280) v

-- The IPv6 number of the IPv4 address `v` is 0xffff in front of it.
abbrev pub is_mapped : ℕ → Bool
is_mapped v = is_within (65535 * 2 ^ 32) (65536 * 2 ^ 32) v

prefix_site : (v : ℕ) → (v / 2 ^ 118 == v6 65216 / 2 ^ 118) ≡ is_within (v6 65216) (v6 65280) v
prefix_site v = ground arith

prefix_mapped : (v : ℕ) → (v / 2 ^ 32 == 65535) ≡ is_mapped v
prefix_mapped v = ground arith

module _ (net : Net) (reads : ReadsRules net) where
  rules_v4 : (v : ℕ) → any private_ranges (matches_v4 net v) ≡ is_private_v4 v
  unfolding private_ranges
  rules_v4 v = rw reads.this_network (
      rw reads.private_a (
        rw reads.loopback (
          rw reads.link_local (
            rw reads.private_b (
              rw reads.private_c (
                rw reads.shared (
                  ground (
                    arith,
                    prefix_8 v 0,
                    prefix_8 v 10,
                    prefix_8 v 127,
                    prefix_16 v 169 254,
                    prefix_12 v,
                    prefix_16 v 192 168,
                    prefix_10 v,
                  ))))))))

  rules_v6 : (v : ℕ) → any private_ranges (matches_v6 net v) ≡ is_private_v6 v
  unfolding private_ranges
  rules_v6 v = rw reads.loopback_v6 (
      rw reads.unspecified_v6 (
        rw reads.unique_local_v6 (
          rw reads.link_local_v6
            (rw reads.site_local_v6 (ground (arith, prefix_7 v, prefix_v6_10 v, prefix_site v))))))

  pub check-ipv4 :
      (host : Text) → check net private_ranges host ipv4 ≡ is_private_v4 (net.value host)
  check-ipv4 host = rules_v4 (net.value host)

  pub check-ipv6 :
      (host : Text)
      → check net private_ranges host ipv6 ≡ (
          is_private_v6 (net.value host)
          || (is_mapped (net.value host) && is_private_v4 (net.value host % 2 ^ 32)))
  check-ipv6 host =
      rw (rules_v6 (net.value host))
        (rw (rules_v4 (net.value host % 2 ^ 32)) (rw (prefix_mapped (net.value host)) refl))
