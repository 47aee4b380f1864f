-- ===== src/Policy/Origination.antt =====
-- The origination boundary: policy/origination.ts. The runtime's URL parser, percent decoder and
-- regular expressions are parameters.
pub mod Floor
pub mod Paths
use browse_gateway.Base.{
  ℕ, zero, suc, Bool, true, false, ◌||◌, not, Option, none, some, List, [], ◌∷◌, ◌++◌, map, keep,
  any, if◌then◌else◌, ◌==◌, or_else,
}
use browse_gateway.Base.Text.{Text, codes, text_eq, is_empty, is_space, trim, split}
use browse_gateway.Base.Sets.{has, set_add}
use browse_gateway.Host.{Url, UrlParser, canonicalize_host}

-- What the boundary takes from the runtime: `new URL`, `decodeURIComponent` (`none` where it
-- throws), whether `new RegExp(p, "i")` accepts a pattern, and its `test`.
pub record Runtime : Type 0 where
  pub parse : UrlParser
  pub decode : Text → Option Text
  pub compiles : Text → Bool
  pub test : Text → Text → Bool

abbrev pub origination_deny_reason : Text
origination_deny_reason =
    codes
      "origination boundary: account creation / money movement is not permitted (the gateway uses sessions, it does not originate)"

unfoldable pub default_deny_hosts : List Text
default_deny_hosts =
    codes "checkout.stripe.com"
    ∷ codes "buy.stripe.com"
    ∷ codes "paypal.com"
    ∷ codes "www.paypal.com"
    ∷ codes "checkout.paypal.com"
    ∷ codes "braintreegateway.com"
    ∷ codes "checkout.com"
    ∷ codes "pay.adyen.com"
    ∷ codes "checkout.adyen.com"
    ∷ codes "squareup.com"
    ∷ codes "checkout.square.site"
    ∷ codes "venmo.com"
    ∷ codes "wise.com"
    ∷ []

unfoldable pub default_deny_paths : List Text
default_deny_paths =
    codes "/sign[\\-_]?up(?:[/?.]|$)"
    ∷ codes "/register(?:ed|s)?(?:[/?.]|$)"
    ∷ codes "/registration(?:[/?.]|$)"
    ∷ codes "/create[\\-_]?account(?:[/?.]|$)"
    ∷ codes "/account/(?:new|create|registration|signup)(?:[/?.]|$)"
    ∷ codes "/(?:open|new)[\\-_]?account(?:[/?.]|$)"
    ∷ codes "/transfer(?:s|[\\-_]?money|[\\-_]?funds)?(?:[/?.]|$)"
    ∷ codes "/send[\\-_]?money(?:[/?.]|$)"
    ∷ codes "/wire(?:[\\-_]?transfer)?(?:[/?.]|$)"
    ∷ codes "/add[\\-_]?(?:card|payment[\\-_]?method|bank|funds)(?:[/?.]|$)"
    ∷ codes "/payment[\\-_]?methods?/(?:new|add)(?:[/?.]|$)"
    ∷ []

-- The rounds of the decoding loop that are left; `seen` is in order.
unfoldable pub decode_rounds : (Text → Option Text) → ℕ → List Text → Text → List Text
decode_rounds decode zero seen cur = seen
decode_rounds decode (suc n) seen cur = elim (decode cur) [
  | none ↦ seen
  | some dec ↦
      let more = decode_rounds decode n (seen ++ dec ∷ []) dec in
      if text_eq dec cur || has seen dec then seen else more
]

unfoldable pub decoded_path_variants : (Text → Option Text) → Text → List Text
unfolding decode_rounds
decoded_path_variants decode pathname = decode_rounds decode 3 (pathname ∷ []) pathname

-- The part before the first such unit.
unfoldable pub before : ℕ → Text → Text
before c [] = []
before c (a ∷ s) = if a == c then [] else a ∷ before c s

-- `parts.join("/")`.
unfoldable pub join_slash : List Text → Text
join_slash [] = []
join_slash (p ∷ []) = p
join_slash (p ∷ q ∷ ps) = p ++ b'/' ∷ join_slash (q ∷ ps)

unfoldable pub server_normalized_path : Text → Text
unfolding before join_slash
server_normalized_path pathname = join_slash (map (before b';') (split (before 0 pathname) b'/'))

-- `s.split(/[,\s]+/)`, up to empty parts.
split_list_from : Text → Text → List Text
split_list_from cur [] = cur ∷ []
split_list_from cur (a ∷ s) =
    let closed = cur ∷ split_list_from [] s in
    let longer = split_list_from (cur ++ a ∷ []) s in
    if a == b',' || is_space a then closed else longer

unfoldable pub split_env_list : Option Text → List Text
unfolding split_list_from
split_env_list raw = keep (λ s. not (is_empty s)) (map trim (split_list_from [] (or_else raw [])))

pub record Boundary : Type 0 where
  pub hosts : List Text
  pub paths : List Text

unfoldable pub host_set : List Text → List Text → List Text
host_set seen [] = seen
host_set seen (h ∷ hs) = host_set (set_add seen (canonicalize_host h)) hs

-- Every pattern compiles.
unfoldable pub all_compile : (Text → Bool) → List Text → Bool
all_compile compiles [] = true
all_compile compiles (p ∷ ps) = if compiles p then all_compile compiles ps else false

-- `none` where the constructor throws.
unfoldable pub new_boundary : Runtime → List Text → List Text → Option Boundary
unfolding host_set all_compile
new_boundary rt hosts paths =
    if all_compile rt.compiles (default_deny_paths ++ paths)
    then some (record {
      hosts = host_set [] (default_deny_hosts ++ hosts);
      paths = default_deny_paths ++ paths;
    })
    else none

unfoldable pub from_env : Runtime → Option Text → Option Text → Option Boundary
from_env rt deny_hosts deny_paths =
    new_boundary rt (split_env_list deny_hosts) (split_env_list deny_paths)

-- The forms of a path that the patterns are tested on.
unfoldable pub candidates : List Text → List Text → List Text
candidates seen [] = seen
candidates seen (v ∷ vs) = candidates (set_add (set_add seen v) (server_normalized_path v)) vs

unfoldable pub path_denied : Runtime → List Text → Text → Bool
unfolding candidates
path_denied rt paths pathname =
    let forms = candidates [] (decoded_path_variants rt.decode pathname) in
    any paths (λ re. any forms (rt.test re))

unfoldable pub denies : Runtime → Boundary → Text → Text → Bool
denies rt b host url =
    if has b.hosts (canonicalize_host host)
    then true
    else elim (rt.parse url) [ none ↦ false | some u ↦ path_denied rt b.paths u.pathname ]
