-- ===== src/Base/Totals.antt =====
-- Totals over lists, and lists whose first matching item is changed or taken out.
use browse_gateway.Base.{
  ℕ, ◌+◌, ◌≡◌, Bool, some, List, [], ◌∷◌, ◌++◌, arith, find?, if◌then◌else◌, Bool-cases, inl, inr,
}

module _ {ℓ} {A : Type ℓ} where
  unfoldable pub total : (A → ℕ) → List A → ℕ
  total f [] = 0
  total f (x ∷ xs) = f x + total f xs

  -- The first item that passes the test is changed.
  unfoldable pub replace : (A → Bool) → (A → A) → List A → List A
  replace p g [] = []
  replace p g (x ∷ xs) = if p x then g x ∷ xs else x ∷ replace p g xs

  -- The first item that passes the test is taken out.
  unfoldable pub erase : (A → Bool) → List A → List A
  erase p [] = []
  erase p (x ∷ xs) = if p x then xs else x ∷ erase p xs

  pub total-append : (f : A → ℕ) (xs ys : List A) → total f (xs ++ ys) ≡ total f xs + total f ys
  unfolding total
  total-append f [] ys = omega arith
  total-append f (x ∷ xs) ys = omega (arith, total-append f xs ys)

  pub total-replace :
      (f : A → ℕ) (p : A → Bool) (g : A → A) (xs : List A) (a : A)
      → find? p xs ≡ some a
      → total f (replace p g xs) + f a ≡ total f xs + f (g a)
  unfolding total replace
  total-replace f p g [] a h = ground arith
  total-replace f p g (x ∷ xs) a h = ground (arith, total-replace f p g xs a)

  pub total-erase :
      (f : A → ℕ) (p : A → Bool) (xs : List A) (a : A)
      → find? p xs ≡ some a
      → total f (erase p xs) + f a ≡ total f xs
  unfolding total erase
  total-erase f p [] a h = ground arith
  total-erase f p (x ∷ xs) a h = ground (arith, total-erase f p xs a)

  pub find-replace :
      (p : A → Bool) (g : A → A)
      → ((x : A) → p (g x) ≡ p x)
      → (xs : List A) (b : A) → find? p (replace p g xs) ≡ some b
      → (a : A) × (find? p xs ≡ some a) × (b ≡ g a)
  unfolding replace
  find-replace p g same [] b h = ground arith
  find-replace p g same (x ∷ xs) b h = elim (Bool-cases (p x)) [
    | inl here ↦ (x, ground arith, ground (arith, same x))
    | inr later ↦
        let (a, there, e) = find-replace p g same xs b (ground arith) in (a, ground arith, e)
  ]
