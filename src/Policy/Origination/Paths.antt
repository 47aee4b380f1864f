-- ===== src/Policy/Origination/Paths.antt =====
-- The forms of a path that the origination boundary tests (policy/origination.ts).
use mathlib.Core.List.{append_assoc, append-nil}
use browse_gateway.Base.{
  ℕ, zero, suc, ◌≡◌, refl, ap, ◌∙◌, Bool, true, false, ◌||◌, Option, some, List, [], ◌∷◌, ◌++◌, map,
  arith, any, any-append, or-eq-true, or_left, or_right, Option-cases, inl, inr,
}
use browse_gateway.Base.Text.{Text, includes, split_from, split}
use browse_gateway.Base.Sets.{set_add, any-set_add}
use browse_gateway.Host.{Url}
use browse_gateway.Policy.Origination.{
  Runtime, Boundary, decode_rounds, decoded_path_variants, before, server_normalized_path,
  candidates, path_denied, denies,
}

any-candidates :
    (seen vs : List Text) (p : Text → Bool)
    → any (candidates seen vs) p ≡ (any seen p || any vs (λ v. p v || p (server_normalized_path v)))
unfolding candidates
any-candidates seen [] p = ground arith
any-candidates seen (v ∷ vs) p = ground (
  arith,
  any-candidates (set_add (set_add seen v) (server_normalized_path v)) vs p,
  any-set_add (set_add seen v) (server_normalized_path v) p,
  any-set_add seen v p,
)

any-decode_rounds :
    (decode : Text → Option Text) (n : ℕ) (seen : List Text) (cur : Text) (p : Text → Bool)
    → any seen p ≡ true
    → any (decode_rounds decode n seen cur) p ≡ true
unfolding decode_rounds
any-decode_rounds decode zero seen cur p h = h
any-decode_rounds decode (suc n) seen cur p h = elim (Option-cases (decode cur)) [
  | inl stop ↦ ground arith
  | inr (dec, go) ↦
      ground
        (arith, any-decode_rounds decode n (seen ++ dec ∷ []) dec p, any-append seen (dec ∷ []) p)
]

before-stop : (c : ℕ) (s x : Text) → before c (s ++ c ∷ x) ≡ before c s
unfolding before
before-stop c [] x = ground arith
before-stop c (a ∷ s) x = ground (arith, before-stop c s x)

before_all : (c : ℕ) (s : Text) → includes s c ≡ false → before c s ≡ s
unfolding before includes
before_all c [] h = refl
before_all c (a ∷ s) h = ground (arith, before_all c s)

split_from_plain :
    (cur x : Text) (c : ℕ) → includes x c ≡ false → split_from cur x c ≡ (cur ++ x) ∷ []
unfolding split_from includes
split_from_plain cur [] c h = rw append-nil
split_from_plain cur (a ∷ x) c h =
    ground (arith, split_from_plain (cur ++ a ∷ []) x c, append_assoc cur (a ∷ []) x)

split_from-matrix :
    (cur p x : Text)
    → includes x b'/' ≡ false
    → map (before b';') (split_from cur (p ++ b';' ∷ x) b'/')
      ≡ map (before b';') (split_from cur p b'/')
unfolding split_from
split_from-matrix cur [] x h =
    rw (split_from_plain (cur ++ b';' ∷ []) x b'/' h, append_assoc cur (b';' ∷ []) x)
      (ap (λ s. s ∷ []) (before-stop b';' cur x))
split_from-matrix cur (a ∷ p) x h =
    ground (arith, split_from-matrix [] p x h, split_from-matrix (cur ++ a ∷ []) p x h)

-- The server's reading of a path forgets a matrix parameter at its end.
pub server_normalized_path-matrix :
    (p x : Text)
    → includes (p ++ b';' ∷ x) 0 ≡ false
    → includes p 0 ≡ false
    → includes x b'/' ≡ false
    → server_normalized_path (p ++ b';' ∷ x) ≡ server_normalized_path p
unfolding server_normalized_path split
server_normalized_path-matrix p x h k m =
    rw (before_all 0 (p ++ b';' ∷ x) h, before_all 0 p k, split_from-matrix [] p x m)

path_denied_of_form :
    (rt : Runtime) (paths : List Text) (pathname : Text)
    → any paths (λ re. rt.test re (server_normalized_path pathname)) ≡ true
    → path_denied rt paths pathname ≡ true
unfolding path_denied decoded_path_variants
path_denied_of_form rt [] pathname h = ground arith
path_denied_of_form rt (re ∷ paths) pathname h = elim (or-eq-true _ _ h) [
  | inl now ↦ or_left _ (tested now)
  | inr later ↦ or_right _ (path_denied_of_form rt paths pathname later)
]
  where
    tested :
        rt.test re (server_normalized_path pathname) ≡ true
        → any (candidates [] (decode_rounds rt.decode 3 (pathname ∷ []) pathname)) (rt.test re)
          ≡ true
    tested now =
        any-candidates [] (decode_rounds rt.decode 3 (pathname ∷ []) pathname) (rt.test re)
        ∙ any-decode_rounds rt.decode 3 (pathname ∷ []) pathname _
            (or_left _ (or_right (rt.test re pathname) now))

-- If a URL's path is some path without NUL and a matrix parameter without NUL or slash behind it, and
-- some pattern matches the server's reading of the first, the boundary denies the URL.
pub denies_matrix :
    (rt : Runtime) (b : Boundary) (host url : Text) (u : Url) (p x : Text)
    → rt.parse url ≡ some u
    → u.pathname ≡ p ++ b';' ∷ x
    → includes (p ++ b';' ∷ x) 0 ≡ false
    → includes p 0 ≡ false
    → includes x b'/' ≡ false
    → any b.paths (λ re. rt.test re (server_normalized_path p)) ≡ true
    → denies rt b host url ≡ true
unfolding denies
denies_matrix rt b host url u p x parsed path h k m hit =
    let same = server_normalized_path-matrix p x h k m in
    let denied = path_denied_of_form rt b.paths u.pathname (rw (path, same) hit) in ground arith
