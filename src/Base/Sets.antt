-- ===== src/Base/Sets.antt =====
-- Sets of texts, as the lists of their items in insertion order.
use browse_gateway.Base.{
  ◌≡◌, ◌++◌, Bool, true, ◌||◌, List, [], ◌∷◌, arith, if◌then◌else◌, any, any-append, or-eq-true,
  or_right, Bool-cases, inl, inr,
}
use browse_gateway.Base.Text.{Text, text_eq, text_eq→eq}

abbrev pub has : List Text → Text → Bool
has xs x = any xs (text_eq x)

-- `set.add(x)`.
unfoldable pub set_add : List Text → Text → List Text
set_add xs x = if has xs x then xs else xs ++ x ∷ []

any_of_has :
    (xs : List Text) (x : Text) (p : Text → Bool) → has xs x ≡ true → p x ≡ true → any xs p ≡ true
any_of_has [] x p h e = ground arith
any_of_has (y ∷ xs) x p h e = elim (or-eq-true (text_eq x y) (has xs x) h) [
  | inl same ↦ rw (← text_eq→eq x y same, e)
  | inr later ↦ or_right (p y) (any_of_has xs x p later e)
]

pub any-set_add :
    (xs : List Text) (x : Text) (p : Text → Bool) → any (set_add xs x) p ≡ (any xs p || p x)
unfolding set_add
any-set_add xs x p = elim (Bool-cases (has xs x)) [
  | inl old ↦ rw old (ground (arith, any_of_has xs x p old))
  | inr new ↦ rw new (ground (arith, any-append xs (x ∷ []) p))
]
