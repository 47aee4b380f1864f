-- ===== src/Secrets/Redact/Replace.antt =====
-- What the replacement of one text leaves: `redactSecrets` of security/secrets.ts.
use browse_gateway.Base.{
  ℕ, zero, suc, ◌-◌, ◌≡◌, refl, Bool, true, false, ◌||◌, [], ◌∷◌, ◌++◌, arith, length, ap, inl, inr,
  Bool-cases, sym, ◌∙◌,
}
use browse_gateway.Base.Text.{Text, codes, starts_with, includes, is_empty}
use browse_gateway.Secrets.Redact.{marker, replace_from}

-- The text stands somewhere in the other.
unfoldable pub contains : Text → Text → Bool
contains [] v = is_empty v
contains (c ∷ s) v = starts_with (c ∷ s) v || contains s v

-- A text that a marker can neither bring in nor complete: it has no bracket, and is not a part of the
-- marker's word.
pub record IsUnmarked (v : Text) : Type 0 where
  pub opens : includes v b'[' ≡ false
  pub closes : includes v b']' ≡ false
  pub word : contains (codes "REDACTED") v ≡ false

-- What a text without the closing bracket has in front of it stands before the bracket.
starts-before :
    (m x v : Text)
    → includes v b']' ≡ false
    → starts_with (m ++ b']' ∷ x) v ≡ true
    → starts_with m v ≡ true
unfolding starts_with includes
starts-before m x [] e h = ground arith
starts-before [] x (b ∷ v) e h = ground arith
starts-before (a ∷ m) x (b ∷ v) e h = ground (arith, starts-before m x v)

contains-before :
    (m x v : Text)
    → is_empty v ≡ false
    → includes v b']' ≡ false
    → contains m v ≡ false
    → contains (m ++ b']' ∷ x) v ≡ contains x v
unfolding contains
contains-before [] x [] n e h = ground arith
contains-before [] x (b ∷ v) n e h = unfold starts_with includes in ground arith
contains-before (a ∷ m) x v n e h =
    ground (arith, starts-before (a ∷ m) x v e, contains-before m x v n e)

-- A marker in front makes no difference.
contains-marker :
    (x v : Text) → is_empty v ≡ false → IsUnmarked v → contains (marker ++ x) v ≡ contains x v
unfolding contains
contains-marker x [] n u = absurd (cc n)
contains-marker x (b ∷ v) n u =
    let rest = contains-before (codes "REDACTED") x (b ∷ v) n u.closes u.word in
    unfold starts_with includes in ground (arith, u.opens, rest)

replaced-skip :
    (p : Text) (k c : ℕ) (s : Text)
    → replace_from p marker (suc k) (c ∷ s) ≡ replace_from p marker k s
unfolding replace_from
replaced-skip p k c s = refl

replaced-hit :
    (p : Text) (c : ℕ) (s : Text)
    → starts_with (c ∷ s) p ≡ true
    → replace_from p marker 0 (c ∷ s) ≡ marker ++ replace_from p marker (length p - 1) s
unfolding replace_from
replaced-hit p c s e = rw e refl

replaced-miss :
    (p : Text) (c : ℕ) (s : Text)
    → starts_with (c ∷ s) p ≡ false
    → replace_from p marker 0 (c ∷ s) ≡ c ∷ replace_from p marker 0 s
unfolding replace_from
replaced-miss p c s e = rw e refl

starts-marker :
    (x : Text) (b : ℕ) (v : Text)
    → includes (b ∷ v) b'[' ≡ false
    → starts_with (marker ++ x) (b ∷ v) ≡ false
unfolding starts_with includes
starts-marker x b v e = ground arith

tail-includes : (b : ℕ) (v : Text) → includes (b ∷ v) b'[' ≡ false → includes v b'[' ≡ false
unfolding includes
tail-includes b v e = ground arith

front :
    (c b : ℕ) (s v t : Text)
    → includes (b ∷ v) b'[' ≡ false
    → (starts_with t v ≡ true → starts_with s v ≡ true)
    → starts_with (c ∷ t) (b ∷ v) ≡ true
    → starts_with (c ∷ s) (b ∷ v) ≡ true
unfolding starts_with
front c b s v t e f h = ground (arith, f)

-- What stands at the front of the result stood at the front.
starts-replaced :
    (p s v : Text)
    → includes v b'[' ≡ false
    → starts_with (replace_from p marker 0 s) v ≡ true
    → starts_with s v ≡ true
starts-replaced p [] [] e h = unfold starts_with in refl
starts-replaced p (c ∷ s) [] e h = unfold starts_with in refl
starts-replaced p [] (b ∷ v) e h = unfold replace_from in h
starts-replaced p (c ∷ s) (b ∷ v) e h = elim (Bool-cases (starts_with (c ∷ s) p)) [
  | inl hit ↦ absurd (
      cc (
        sym h
        ∙ ap (λ t. starts_with t (b ∷ v)) (replaced-hit p c s hit)
        ∙ starts-marker (replace_from p marker (length p - 1) s) b v e))
  | inr miss ↦
      front c b s v (replace_from p marker 0 s) e (starts-replaced p s v (tail-includes b v e))
        (sym (ap (λ t. starts_with t (b ∷ v)) (replaced-miss p c s miss)) ∙ h)
]

front-contains : (c : ℕ) (s v : Text) → contains (c ∷ s) v ≡ false → starts_with (c ∷ s) v ≡ false
unfolding contains
front-contains c s v h = ground arith

rest-contains : (c : ℕ) (s v : Text) → contains (c ∷ s) v ≡ false → contains s v ≡ false
unfolding contains
rest-contains c s v h = ground arith

-- Where nothing is replaced, nothing new begins.
missed :
    (p : Text) (c : ℕ) (s v : Text)
    → IsUnmarked v
    → starts_with (c ∷ s) p ≡ false
    → starts_with (c ∷ s) v ≡ false
    → contains (replace_from p marker 0 s) v ≡ false
    → contains (c ∷ replace_from p marker 0 s) v ≡ false
unfolding contains
missed p c s v u miss no_front no_rest =
    elim (Bool-cases (starts_with (c ∷ replace_from p marker 0 s) v)) [
      | inl begins ↦ absurd (
          cc (
            no_front,
            starts-replaced p (c ∷ s) v u.opens
                (ap (λ t. starts_with t v) (replaced-miss p c s miss) ∙ begins),
          ))
      | inr other ↦ rw other no_rest
    ]

-- The replacement brings in no text that is unmarked.
pub replace_from-contains :
    (p : Text) (k : ℕ) (s v : Text)
    → is_empty v ≡ false
    → IsUnmarked v
    → contains s v ≡ false
    → contains (replace_from p marker k s) v ≡ false
replace_from-contains p k [] v n u h = unfold replace_from in h
replace_from-contains p (suc k) (c ∷ s) v n u h =
    ap (λ t. contains t v) (replaced-skip p k c s)
    ∙ replace_from-contains p k s v n u (rest-contains c s v h)
replace_from-contains p zero (c ∷ s) v n u h = elim (Bool-cases (starts_with (c ∷ s) p)) [
  | inl hit ↦
      ap (λ t. contains t v) (replaced-hit p c s hit)
      ∙ contains-marker (replace_from p marker (length p - 1) s) v n u
      ∙ replace_from-contains p (length p - 1) s v n u (rest-contains c s v h)
  | inr miss ↦
      ap (λ t. contains t v) (replaced-miss p c s miss)
      ∙ missed p c s v u miss (front-contains c s v h)
          (replace_from-contains p 0 s v n u (rest-contains c s v h))
]

-- The replacement leaves no occurrence of the text that it replaces.
pub replace_from-gone :
    (v : Text) (k : ℕ) (s : Text)
    → is_empty v ≡ false
    → IsUnmarked v
    → contains (replace_from v marker k s) v ≡ false
replace_from-gone v k [] n u = unfold replace_from contains in n
replace_from-gone v (suc k) (c ∷ s) n u =
    ap (λ t. contains t v) (replaced-skip v k c s) ∙ replace_from-gone v k s n u
replace_from-gone v zero (c ∷ s) n u = elim (Bool-cases (starts_with (c ∷ s) v)) [
  | inl hit ↦
      ap (λ t. contains t v) (replaced-hit v c s hit)
      ∙ contains-marker (replace_from v marker (length v - 1) s) v n u
      ∙ replace_from-gone v (length v - 1) s n u
  | inr miss ↦
      ap (λ t. contains t v) (replaced-miss v c s miss)
      ∙ missed v c s v u miss miss (replace_from-gone v 0 s n u)
]
