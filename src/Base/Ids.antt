-- ===== src/Base/Ids.antt =====
-- Sets of identifiers, as the lists of their items in insertion order. Identifiers are numbers: the
-- program only compares them.
use browse_gateway.Base.{
  ℕ, suc, ◌≤◌, ◌≡◌, refl, Bool, true, false, ◌&&◌, ◌||◌, not, List, [], ◌∷◌, ◌++◌, arith, ◌==◌,
  if◌then◌else◌, length,
}

unfoldable pub mem : ℕ → List ℕ → Bool
mem a [] = false
mem a (b ∷ xs) = a == b || mem a xs

-- `set.add(b)`.
unfoldable pub put : List ℕ → ℕ → List ℕ
put xs b = if mem b xs then xs else xs ++ b ∷ []

-- `set.delete(b)`.
unfoldable pub remove : List ℕ → ℕ → List ℕ
remove [] b = []
remove (a ∷ xs) b = if a == b then remove xs b else a ∷ remove xs b

mem-snoc : (a b : ℕ) (xs : List ℕ) → mem a (xs ++ b ∷ []) ≡ (mem a xs || a == b)
unfolding mem
mem-snoc a b [] = ground arith
mem-snoc a b (x ∷ xs) = ground (arith, mem-snoc a b xs)

mem-cong : (a b : ℕ) (xs : List ℕ) → a ≡ b → mem a xs ≡ mem b xs
mem-cong a b xs e = rw e

pub mem-put : (a b : ℕ) (xs : List ℕ) → mem a (put xs b) ≡ (mem a xs || a == b)
unfolding put
mem-put a b xs = ground (arith, mem-snoc a b xs, mem-cong a b xs)

pub mem-remove : (a b : ℕ) (xs : List ℕ) → mem a (remove xs b) ≡ (mem a xs && not (a == b))
unfolding mem remove
mem-remove a b [] = refl
mem-remove a b (x ∷ xs) = ground (arith, mem-remove a b xs)

pub length-remove-le : (xs : List ℕ) (b : ℕ) → length (remove xs b) ≤ length xs
unfolding remove
length-remove-le [] b = omega arith
length-remove-le (a ∷ xs) b = ground (arith, length-remove-le xs b)

-- An item that is there takes room.
pub length-remove-lt :
    (xs : List ℕ) (b : ℕ) → mem b xs ≡ true → suc (length (remove xs b)) ≤ length xs
unfolding mem remove
length-remove-lt [] b h = ground arith
length-remove-lt (a ∷ xs) b h = ground (arith, length-remove-lt xs b, length-remove-le xs b)
