-- ===== src/Base/Text.antt =====
-- Text as the list of its UTF-16 code units, with the operations of JavaScript's strings that the
-- program uses. Letters outside ASCII keep their case.
use Prim.Native.Char.{code}
use Prim.Native.String.{String}
use browse_gateway.Base.{
  ℕ, ◌+◌, ◌≡◌, refl, ap, ◌↔◌, inl, inr, Bool, true, false, ◌&&◌, ◌||◌, List, [], ◌∷◌, ◌++◌, map,
  reverse, arith, leb, ◌==◌, if◌then◌else◌, or-eq-true,
}

abbrev pub Text : Type 0
Text = List ℕ

-- The code units of a literal.
abbrev pub codes : String → Text
codes String.[] = []
codes (String.◌∷◌ c s) = code c ∷ codes s

-- `a === b`.
unfoldable pub text_eq : Text → Text → Bool
text_eq [] [] = true
text_eq [] (_ ∷ _) = false
text_eq (_ ∷ _) [] = false
text_eq (a ∷ s) (b ∷ t) = (a == b) && text_eq s t

pub text_eq→eq : (s t : Text) → text_eq s t ≡ true → s ≡ t
unfolding text_eq
text_eq→eq [] [] h = refl
text_eq→eq [] (b ∷ t) h = ground arith
text_eq→eq (a ∷ s) [] h = ground arith
text_eq→eq (a ∷ s) (b ∷ t) h = ground (arith, text_eq→eq s t)

pub text_eq_refl : (s : Text) → text_eq s s ≡ true
unfolding text_eq
text_eq_refl [] = refl
text_eq_refl (a ∷ s) = ground (arith, text_eq_refl s)

pub eq→text_eq : (s t : Text) → s ≡ t → text_eq s t ≡ true
eq→text_eq s t e = rw e (text_eq_refl t)

pub text_eq_iff : (s t : Text) → (text_eq s t ≡ true) ↔ (s ≡ t)
text_eq_iff s t = (text_eq→eq s t, eq→text_eq s t)

-- `!s`.
abbrev pub is_empty : Text → Bool
is_empty [] = true
is_empty (_ ∷ _) = false

-- White space and line terminators, which `trim` removes.
unfoldable pub is_space : ℕ → Bool
is_space c =
    (leb 9 c && leb c 13)
    || c == 32
    || c == 160
    || c == 5760
    || (leb 8192 c && leb c 8202)
    || c == 8232
    || c == 8233
    || c == 8239
    || c == 8287
    || c == 12288
    || c == 65279

unfoldable pub trim_start : Text → Text
unfolding is_space
trim_start [] = []
trim_start (c ∷ s) = if is_space c then trim_start s else c ∷ s

unfoldable pub trim : Text → Text
unfolding trim_start
trim s = reverse (trim_start (reverse (trim_start s)))

unfoldable pub lower : ℕ → ℕ
lower c = if leb b'A' c && leb c b'Z' then c + 32 else c

unfoldable pub to_lower_case : Text → Text
unfolding lower
to_lower_case s = map lower s

-- `s.startsWith(p)`.
unfoldable pub starts_with : Text → Text → Bool
starts_with s [] = true
starts_with [] (_ ∷ _) = false
starts_with (a ∷ s) (b ∷ p) = (a == b) && starts_with s p

-- `s.endsWith(p)`.
unfoldable pub ends_with : Text → Text → Bool
unfolding text_eq
ends_with [] p = text_eq [] p
ends_with (a ∷ s) p = text_eq (a ∷ s) p || ends_with s p

-- `s.slice(0, -1)`.
unfoldable pub drop_last : Text → Text
drop_last [] = []
drop_last (a ∷ []) = []
drop_last (a ∷ b ∷ s) = a ∷ drop_last (b ∷ s)

-- `s.includes(c)` at a one-unit text.
unfoldable pub includes : Text → ℕ → Bool
includes [] c = false
includes (a ∷ s) c = a == c || includes s c

-- `s.split(c)` at a one-unit separator; `cur` is the part being read.
unfoldable pub split_from : Text → Text → ℕ → List Text
split_from cur [] c = cur ∷ []
split_from cur (a ∷ s) c =
    let closed = cur ∷ split_from [] s c in
    let longer = split_from (cur ++ a ∷ []) s c in if a == c then closed else longer

unfoldable pub split : Text → ℕ → List Text
unfolding split_from
split s c = split_from [] s c

pub ends_with→suffix : (s p : Text) → ends_with s p ≡ true → (q : Text) × (s ≡ q ++ p)
unfolding ends_with
ends_with→suffix [] p h = ([], text_eq→eq [] p h)
ends_with→suffix (a ∷ s) p h = elim (or-eq-true _ _ h) [
  | inl e ↦ ([], text_eq→eq (a ∷ s) p e)
  | inr e ↦ let (q, d) = ends_with→suffix s p e in (a ∷ q, ap (◌∷◌ a) d)
]

pub ends_with-append : (q p : Text) → ends_with (q ++ p) p ≡ true
unfolding ends_with
ends_with-append [] [] = refl
ends_with-append [] (b ∷ p) = rw (text_eq_refl (b ∷ p))
ends_with-append (a ∷ q) p = ground (arith, ends_with-append q p)

-- A text is one kind of suffix of another exactly when it is the other.
pub ends_with_iff : (s p : Text) → (ends_with s p ≡ true) ↔ ((q : Text) × (s ≡ q ++ p))
ends_with_iff s p = (ends_with→suffix s p, λ h. rw h.1 (ends_with-append h.0 p))
