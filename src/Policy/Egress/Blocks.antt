-- ===== src/Policy/Egress/Blocks.antt =====
-- What the egress filter of security/egress.ts blocks.
use browse_gateway.Base.{
  ℕ, ◌%◌, ◌^◌, ◌≡◌, refl, sym, ap, ◌∙◌, ◌≢◌, ◌↔◌, ◌⊎◌, inl, inr, ◌++◌, Bool, true, false, ◌||◌,
  ◌&&◌, [], ◌∷◌, arith, Bool-cases,
}
use browse_gateway.Base.Text.{
  Text, codes, ends_with, starts_with, drop_last, text_eq_iff, ends_with_iff, ends_with-append,
  ends_with→suffix,
}
use browse_gateway.Host.{canonicalize_host, canonicalize_host_for_ip, strip_brackets}
use browse_gateway.Policy.Egress.{
  Net, ipv4, ipv6, private_ranges, check, is_blocked_canonical, is_blocked_egress_host,
}
use browse_gateway.Policy.Egress.Ranges.{
  is_private_v4, is_private_v6, is_mapped, ReadsRules, check-ipv4, check-ipv6,
}

abbrev pub IsUnder : Text → Text → Type 0
IsUnder host suffix = (sub : Text) × (host ≡ sub ++ suffix)

-- A name of the machine itself, of a metadata service, or under an internal domain.
abbrev pub IsInternal : Text → Type 0
IsInternal host =
    (host ≡ codes "localhost")
    ⊎ IsUnder host (codes ".localhost")
    ⊎ (host ≡ codes "metadata")
    ⊎ (host ≡ codes "metadata.google.internal")
    ⊎ (host ≡ codes "metadata.goog")
    ⊎ IsUnder host (codes ".internal")
    ⊎ IsUnder host (codes ".local")

-- An address literal whose number is in a private range; an IPv6 literal may map an IPv4 address.
abbrev pub IsPrivateIp : Net → Text → Type 0
IsPrivateIp net host =
    ((net.is_ip host ≡ 4) × (is_private_v4 (net.value host) ≡ true))
    ⊎ ((net.is_ip host ≡ 6)
        × ((is_private_v6 (net.value host)
              || (is_mapped (net.value host) && is_private_v4 (net.value host % 2 ^ 32)))
            ≡ true))

-- An address literal that the list of rules blocks.
abbrev IsListedIp : Net → Text → Type 0
IsListedIp net host =
    ((net.is_ip host ≡ 4) × (check net private_ranges host ipv4 ≡ true))
    ⊎ ((net.is_ip host ≡ 6) × (check net private_ranges host ipv6 ≡ true))

-- Either direction reads the tests through what they mean.
is_blocked→reason :
    (net : Net) (c : ℕ) (s : Text)
    → is_blocked_canonical net (c ∷ s) ≡ true
    → IsInternal (c ∷ s) ⊎ IsListedIp net (c ∷ s)
unfolding is_blocked_canonical
is_blocked→reason net c s e = ground (
  arith,
  text_eq_iff (c ∷ s) (codes "localhost"),
  ends_with_iff (c ∷ s) (codes ".localhost"),
  text_eq_iff (c ∷ s) (codes "metadata"),
  text_eq_iff (c ∷ s) (codes "metadata.google.internal"),
  text_eq_iff (c ∷ s) (codes "metadata.goog"),
  ends_with_iff (c ∷ s) (codes ".internal"),
  ends_with_iff (c ∷ s) (codes ".local"),
)

reason→is_blocked :
    (net : Net) (c : ℕ) (s : Text)
    → IsInternal (c ∷ s) ⊎ IsListedIp net (c ∷ s)
    → is_blocked_canonical net (c ∷ s) ≡ true
unfolding is_blocked_canonical
reason→is_blocked net c s r = ground (
  arith,
  text_eq_iff (c ∷ s) (codes "localhost"),
  ends_with_iff (c ∷ s) (codes ".localhost"),
  text_eq_iff (c ∷ s) (codes "metadata"),
  text_eq_iff (c ∷ s) (codes "metadata.google.internal"),
  text_eq_iff (c ∷ s) (codes "metadata.goog"),
  ends_with_iff (c ∷ s) (codes ".internal"),
  ends_with_iff (c ∷ s) (codes ".local"),
)

is_blocked_canonical_iff :
    (net : Net) (host : Text)
    → (is_blocked_canonical net host ≡ true)
      ↔ ((host ≢ []) × (IsInternal host ⊎ IsListedIp net host))
unfolding is_blocked_canonical
is_blocked_canonical_iff net [] = (λ e. cc, λ h. absurd (h.0 refl))
is_blocked_canonical_iff net (c ∷ s) =
    (λ e. (λ p. cc, is_blocked→reason net c s e), λ h. reason→is_blocked net c s h.1)

listed-private :
    (net : Net) (reads : ReadsRules net) (host : Text)
    → (IsInternal host ⊎ IsListedIp net host) ↔ (IsInternal host ⊎ IsPrivateIp net host)
listed-private net reads host = (there, back)
  where
    there : IsInternal host ⊎ IsListedIp net host → IsInternal host ⊎ IsPrivateIp net host
    there (inl named) = inl named
    there (inr (inl (v, e))) = inr (inl (v, sym (check-ipv4 net reads host) ∙ e))
    there (inr (inr (v, e))) = inr (inr (v, sym (check-ipv6 net reads host) ∙ e))

    back : IsInternal host ⊎ IsPrivateIp net host → IsInternal host ⊎ IsListedIp net host
    back (inl named) = inl named
    back (inr (inl (v, e))) = inr (inl (v, check-ipv4 net reads host ∙ e))
    back (inr (inr (v, e))) = inr (inr (v, check-ipv6 net reads host ∙ e))

abbrev pub bracketed : Text → Text
bracketed host = codes "[" ++ host ++ codes "]"

-- The text is the host, in brackets or by itself.
abbrev pub Writes : Text → Text → Type 0
Writes t host = (t ≡ bracketed host) ⊎ ((t ≡ host) × ¬ ((h : Text) × (t ≡ bracketed h)))

drop_last-snoc : (s : Text) (c : ℕ) → drop_last (s ++ c ∷ []) ≡ s
unfolding drop_last
drop_last-snoc [] c = refl
drop_last-snoc (a ∷ []) c = refl
drop_last-snoc (a ∷ b ∷ s) c = ap (λ t. a ∷ t) (drop_last-snoc (b ∷ s) c)

strip-bracketed : (h : Text) → strip_brackets (bracketed h) ≡ h
unfolding strip_brackets starts_with
strip-bracketed h = rw (ends_with-append (codes "[" ++ h) (codes "]")) (drop_last-snoc h b']')

is_bracketed : Text → Bool
is_bracketed t = starts_with t (codes "[") && ends_with t (codes "]")

strip-plain : (t : Text) → is_bracketed t ≡ false → strip_brackets t ≡ t
unfolding strip_brackets is_bracketed
strip-plain [] e = refl
strip-plain (c ∷ s) e = rw e refl

is_bracketed-bracketed : (t : Text) → is_bracketed t ≡ true → (h : Text) × (t ≡ bracketed h)
unfolding is_bracketed starts_with
is_bracketed-bracketed [] e = absurd (cc e)
is_bracketed-bracketed (c ∷ s) e =
    let opens : c ≡ b'[' = ground (arith, e) in
    let (q, d) = ends_with→suffix (c ∷ s) (codes "]") (ground (arith, e)) in inside q d opens
  where
    inside : (q : Text) → c ∷ s ≡ q ++ codes "]" → c ≡ b'[' → (h : Text) × (c ∷ s ≡ bracketed h)
    inside [] d opens = absurd (ground (arith, d, opens))
    inside (a ∷ q) d opens = (q, ground (arith, d, opens))

bracketed-is_bracketed : (h : Text) → is_bracketed (bracketed h) ≡ true
unfolding is_bracketed starts_with
bracketed-is_bracketed h = ends_with-append (codes "[" ++ h) (codes "]")

strips : (t : Text) → Writes t (strip_brackets t)
strips t = elim (Bool-cases (is_bracketed t)) [
  | inl stripped ↦
      let (h, e) = is_bracketed-bracketed t stripped in
      inl (e ∙ ap bracketed (sym (ap strip_brackets e ∙ strip-bracketed h)))
  | inr bare ↦ inr (
    sym (strip-plain t bare),
    λ (h, e). absurd (cc (bare, ap is_bracketed e, bracketed-is_bracketed h)),
  )
]

stripped_host : (t host : Text) → Writes t host → strip_brackets t ≡ host
stripped_host t host (inl e) = ap strip_brackets e ∙ strip-bracketed host
stripped_host t host (inr (e, plain)) = elim (Bool-cases (is_bracketed t)) [
  | inl stripped ↦ absurd (plain (is_bracketed-bracketed t stripped))
  | inr bare ↦ strip-plain t bare ∙ e
]

-- Where Node reads the addresses of the rules as what they are: the filter blocks a host exactly when its
-- canonical form writes, in brackets or by itself, a text that is not empty and names the machine, a
-- metadata service or something under an internal domain, or is an address literal whose number is in
-- a private range. For IPv4 these are 0/8, 10/8, 127/8, 169.254/16, 172.16/12, 192.168/16 and
-- 100.64/10, for IPv6 ::, ::1, fc00:: up to fdff:…, fe80:: up to feff:…, and what maps such an IPv4
-- address.
pub is_blocked_egress_host_iff :
    (net : Net) (reads : ReadsRules net) (raw : Text)
    → (is_blocked_egress_host net raw ≡ true) ↔ (
        (host : Text) × Writes (canonicalize_host raw) host
        × (host ≢ [])
        × (IsInternal host ⊎ IsPrivateIp net host))
unfolding is_blocked_egress_host canonicalize_host_for_ip
is_blocked_egress_host_iff net reads raw = (
  λ e.
      let (full, why) =
        (is_blocked_canonical_iff net (strip_brackets (canonicalize_host raw))).0 e in
      (
        strip_brackets (canonicalize_host raw),
        strips (canonicalize_host raw),
        full,
        (listed-private net reads (strip_brackets (canonicalize_host raw))).0 why,
      ),
  λ (host, writes, full, why).
      rw (stripped_host (canonicalize_host raw) host writes)
        ((is_blocked_canonical_iff net host).1 (full, (listed-private net reads host).1 why)),
)
