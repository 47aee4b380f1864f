-- ===== src/Policy/Origination/Floor.antt =====
-- The defaults of the origination boundary (policy/origination.ts) and what a deployment adds.
use browse_gateway.Base.{
  ◌≡◌, Bool, true, ◌||◌, some, List, [], ◌∷◌, ◌++◌, arith, any, any-append, Option-cases, inl, inr,
}
use browse_gateway.Base.Text.{Text}
use browse_gateway.Base.Sets.{has, set_add, any-set_add}
use browse_gateway.Host.{canonicalize_host}
use browse_gateway.Policy.Origination.{
  Runtime, Boundary, default_deny_hosts, default_deny_paths, host_set, new_boundary, path_denied,
  denies, candidates, decoded_path_variants,
}

any-host_set :
    (seen hs : List Text) (p : Text → Bool)
    → any (host_set seen hs) p ≡ (any seen p || any hs (λ h. p (canonicalize_host h)))
unfolding host_set
any-host_set seen [] p = ground arith
any-host_set seen (h ∷ hs) p = ground (
  arith,
  any-host_set (set_add seen (canonicalize_host h)) hs p,
  any-set_add seen (canonicalize_host h) p,
)

new_boundary-fields :
    (rt : Runtime) (hosts paths : List Text) (b : Boundary)
    → new_boundary rt hosts paths ≡ some b
    → (b.hosts ≡ host_set [] (default_deny_hosts ++ hosts))
      × (b.paths ≡ default_deny_paths ++ paths)
unfolding new_boundary
new_boundary-fields rt hosts paths b e = ground arith

host_set-extend :
    (hs ks : List Text) (p : Text → Bool)
    → any (host_set [] (hs ++ [])) p ≡ true
    → any (host_set [] (hs ++ ks)) p ≡ true
host_set-extend hs ks p h = ground (
  arith,
  any-host_set [] (hs ++ []) p,
  any-host_set [] (hs ++ ks) p,
  any-append hs [] (λ k. p (canonicalize_host k)),
  any-append hs ks (λ k. p (canonicalize_host k)),
)

path_denied-extend :
    (rt : Runtime) (ps qs : List Text) (pathname : Text)
    → path_denied rt (ps ++ []) pathname ≡ true
    → path_denied rt (ps ++ qs) pathname ≡ true
unfolding path_denied
path_denied-extend rt ps qs pathname h =
    let p : Text → Bool =
      λ re. any (candidates [] (decoded_path_variants rt.decode pathname)) (rt.test re) in
    ground (arith, any-append ps [] p, any-append ps qs p)

denies_of_parts :
    (rt : Runtime) (b base : Boundary) (host url : Text)
    → (has base.hosts (canonicalize_host host) ≡ true → has b.hosts (canonicalize_host host) ≡ true)
    → ((name : Text) → path_denied rt base.paths name ≡ true → path_denied rt b.paths name ≡ true)
    → denies rt base host url ≡ true
    → denies rt b host url ≡ true
unfolding denies
denies_of_parts rt b base host url f g h = elim (Option-cases (rt.parse url)) [
  | inl bad ↦ ground (arith, f)
  | inr (u, good) ↦ ground (arith, f, g u.pathname)
]

-- Where the boundary with the given hosts and paths and the one with none are both built, a request
-- that the second denies the first denies too.
pub denies-extend :
    (rt : Runtime) (hosts paths : List Text) (b base : Boundary) (host url : Text)
    → new_boundary rt hosts paths ≡ some b
    → new_boundary rt [] [] ≡ some base
    → denies rt base host url ≡ true
    → denies rt b host url ≡ true
denies-extend rt hosts paths b base host url e e0 h =
    let (hosts_b, paths_b) = new_boundary-fields rt hosts paths b e in
    let (hosts_0, paths_0) = new_boundary-fields rt [] [] base e0 in
    denies_of_parts rt b base host url
      (λ k. rw hosts_b (host_set-extend default_deny_hosts hosts _ (rw hosts_0 at k)))
      (λ name k. rw paths_b (path_denied-extend rt default_deny_paths paths name (rw paths_0 at k)))
      h
