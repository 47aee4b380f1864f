-- ===== src/Host/Canonical.antt =====
-- What canonical hosts have in common: the root dot and the suffix tests.
use mathlib.Core.List.{reverse-cons, reverse-reverse, map-append}
use mathlib.Core.Path.{◌≡⟨◌⟩◌, ◌∎}
use browse_gateway.Base.{
  ℕ, ◌≡◌, refl, sym, ap, ◌∙◌, ◌↔◌, ◌⊎◌, inl, inr, true, false, List, [], ◌∷◌, ◌++◌, reverse, arith,
  All, AnyOf, any_iff, or-eq-true, or_left, or_right, length-append, All-append,
}
use browse_gateway.Base.Text.{
  Text, is_space, trim_start, trim, lower, to_lower_case, ends_with, drop_last, text_eq,
  text_eq_iff, ends_with_iff, ends_with-append,
}
use browse_gateway.Host.{dot, strip_root, canonicalize_host, covers, host_matches_any_suffix}

-- No unit of the text is white space, as in every host of a URL.
abbrev pub HasNoSpace : Text → Type 0
HasNoSpace s = All (λ c. is_space c ≡ false) s

trim_start_lem : (s : Text) → HasNoSpace s → trim_start s ≡ s
unfolding trim_start
trim_start_lem [] h = refl
trim_start_lem (c ∷ s) h = rw h.0

HasNoSpace-reverse : (s : Text) → HasNoSpace s → HasNoSpace (reverse s)
HasNoSpace-reverse [] h = tt
HasNoSpace-reverse (c ∷ s) h =
    rw (reverse-cons c s) (
      All-append (λ a. is_space a ≡ false) (reverse s) (c ∷ []) (HasNoSpace-reverse s h.1)
        (h.0, tt))

pub trim_lem : (s : Text) → HasNoSpace s → trim s ≡ s
unfolding trim
trim_lem s h =
    rw (trim_start_lem s h, trim_start_lem (reverse s) (HasNoSpace-reverse s h)) (reverse-reverse s)

drop_last-append : (s : Text) (c : ℕ) → drop_last (s ++ c ∷ []) ≡ s
unfolding drop_last
drop_last-append [] c = refl
drop_last-append (a ∷ []) c = refl
drop_last-append (a ∷ b ∷ s) c = ap (◌∷◌ a) (drop_last-append (b ∷ s) c)

lower_dot_iff : (c : ℕ) → (lower c ≡ b'.') ↔ (c ≡ b'.')
unfolding lower
lower_dot_iff c = ground arith

ends_with-dot-lower : (s : Text) → ends_with (to_lower_case s) dot ≡ ends_with s dot
unfolding to_lower_case ends_with text_eq
ends_with-dot-lower [] = refl
ends_with-dot-lower (c ∷ []) = ground (arith, lower_dot_iff c)
ends_with-dot-lower (c ∷ d ∷ s) = ground (arith, ends_with-dot-lower (d ∷ s), lower_dot_iff c)

lower-append : (s t : Text) → to_lower_case (s ++ t) ≡ to_lower_case s ++ to_lower_case t
unfolding to_lower_case
lower-append s t = map-append lower s t

strip_root-append : (c : ℕ) (s : Text) → strip_root ((c ∷ s) ++ dot) ≡ c ∷ s
unfolding strip_root
strip_root-append c s =
    ground (arith, ends_with-append (c ∷ s) dot, drop_last-append (c ∷ s) b'.', length-append s dot)

pub strip_root_of_plain : (s : Text) → ends_with s dot ≡ false → strip_root s ≡ s
unfolding strip_root
strip_root_of_plain s e = ground arith

HasNoSpace-append_dot : (s : Text) → HasNoSpace s → HasNoSpace (s ++ dot)
unfolding is_space
HasNoSpace-append_dot s h = All-append (λ a. is_space a ≡ false) s dot h (refl, tt)

-- A host that is not empty, has no white space and does not end in a dot has the same canonical form
-- as the same host with a root dot.
pub canonicalize_host-dot :
    (c : ℕ) (s : Text)
    → HasNoSpace (c ∷ s)
    → ends_with (c ∷ s) dot ≡ false
    → canonicalize_host ((c ∷ s) ++ dot) ≡ canonicalize_host (c ∷ s)
unfolding canonicalize_host to_lower_case
canonicalize_host-dot c s h e =
    canonicalize_host ((c ∷ s) ++ dot)
    ≡⟨ (rw
        (trim_lem ((c ∷ s) ++ dot) (HasNoSpace-append_dot (c ∷ s) h), lower-append (c ∷ s) dot)) ⟩
      strip_root (to_lower_case (c ∷ s) ++ to_lower_case dot)
    ≡⟨ lowered ⟩ to_lower_case (c ∷ s)
    ≡⟨ sym (strip_root_of_plain (to_lower_case (c ∷ s)) (ends_with-dot-lower (c ∷ s) ∙ e)) ⟩
      strip_root (to_lower_case (c ∷ s))
    ≡⟨ (rw (trim_lem (c ∷ s) h)) ⟩ canonicalize_host (c ∷ s) ∎
  where
    lowered : strip_root (to_lower_case (c ∷ s) ++ to_lower_case dot) ≡ to_lower_case (c ∷ s)
    lowered = strip_root-append (lower c) (to_lower_case s)

pub covers_iff :
    (host suffix : Text)
    → (covers host suffix ≡ true)
      ↔ ((host ≡ suffix) ⊎ ((sub : Text) × (host ≡ sub ++ b'.' ∷ suffix)))
unfolding covers
covers_iff host suffix = (
  λ e. elim (or-eq-true _ _ e) [
    | inl same ↦ inl ((text_eq_iff host suffix).0 same)
    | inr below ↦ inr ((ends_with_iff host (b'.' ∷ suffix)).0 below)
  ],
  λ d. elim d [
    | inl same ↦ or_left _ ((text_eq_iff host suffix).1 same)
    | inr below ↦ or_right _ ((ends_with_iff host (b'.' ∷ suffix)).1 below)
  ],
)

-- A host matches a list of suffixes exactly when its canonical form is one of them, or a dotted
-- subdomain of one.
pub host_matches_any_suffix_iff :
    (host : Text) (suffixes : List Text)
    → (host_matches_any_suffix host suffixes ≡ true)
      ↔ AnyOf
          (λ suffix.
            (canonicalize_host host ≡ suffix)
            ⊎ ((sub : Text) × (canonicalize_host host ≡ sub ++ b'.' ∷ suffix)))
          suffixes
unfolding host_matches_any_suffix
host_matches_any_suffix_iff host suffixes =
    any_iff _ (covers (canonicalize_host host)) suffixes (covers_iff (canonicalize_host host))
