-- ===== src/Host.antt =====
-- Hosts and URLs: security/url.ts. The URL parser of the runtime is a parameter, `none` where
-- `new URL` throws.
pub mod Canonical
pub mod Scope
pub mod Tests
use browse_gateway.Base.{
  ℕ, suc, Bool, true, false, ◌&&◌, ◌||◌, Option, none, some, List, [], ◌∷◌, ◌++◌, map, ltb,
  if◌then◌else◌, length, any, keep, not,
}
use browse_gateway.Base.Text.{
  Text, codes, text_eq, is_empty, trim, to_lower_case, starts_with, ends_with, drop_last, includes,
  split,
}

-- The parts of a parsed URL that the program reads.
pub record Url : Type 0 where
  pub protocol : Text
  pub hostname : Text
  pub pathname : Text

abbrev pub UrlParser : Type 0
UrlParser = Text → Option Url

abbrev pub dot : Text
dot = b'.' ∷ []

-- Strips one trailing dot of a lower-case host.
unfoldable pub strip_root : Text → Text
strip_root host = if ltb 1 (length host) && ends_with host dot then drop_last host else host

unfoldable pub canonicalize_host : Text → Text
canonicalize_host raw = strip_root (to_lower_case (trim raw))

-- Drops the first and the last unit of a bracketed literal.
unfoldable pub strip_brackets : Text → Text
strip_brackets [] = []
strip_brackets (c ∷ rest) =
    if starts_with (c ∷ rest) (codes "[") && ends_with (c ∷ rest) (codes "]")
    then drop_last rest
    else c ∷ rest

unfoldable pub canonicalize_host_for_ip : Text → Text
unfolding strip_brackets
canonicalize_host_for_ip raw = strip_brackets (canonicalize_host raw)

abbrev is_http_scheme : Text → Bool
is_http_scheme scheme = text_eq scheme (codes "http:") || text_eq scheme (codes "https:")

unfoldable pub is_http_url : UrlParser → Text → Bool
is_http_url parse url = elim (parse url) [ none ↦ false | some u ↦ is_http_scheme u.protocol ]

unfoldable pub host_from_url : UrlParser → Text → Text
host_from_url parse url = elim (parse url) [ none ↦ [] | some u ↦ canonicalize_host u.hostname ]

-- An absent value and a blank one give the empty list.
unfoldable pub parse_host_suffix_list : Option Text → List Text
parse_host_suffix_list none = []
parse_host_suffix_list (some value) =
    if is_empty value
    then []
    else map canonicalize_host (keep (λ h. not (is_empty h)) (map trim (split value b',')))

unfoldable pub covers : Text → Text → Bool
covers host suffix = text_eq host suffix || ends_with host (b'.' ∷ suffix)

unfoldable pub host_matches_any_suffix : Text → List Text → Bool
unfolding covers
host_matches_any_suffix host suffixes = any suffixes (covers (canonicalize_host host))

unfoldable pub ascii_host : UrlParser → Text → Text
ascii_host parse raw =
    let canon = canonicalize_host raw in
    if is_empty canon then canon else elim (parse (codes "https://" ++ canon)) [
      | none ↦ canon
      | some u ↦ canonicalize_host u.hostname
    ]

abbrev strip_leading_dot : Text → Text
strip_leading_dot [] = []
strip_leading_dot (c ∷ s) = if starts_with (c ∷ s) dot then s else c ∷ s

-- The tests of `cookieBelongsToHost` on the two folded hosts.
unfoldable pub in_scope : Text → Text → Bool
in_scope d h =
    if is_empty d || is_empty h
    then false
    else if text_eq d h
    then true
    else if not (includes h b'.')
    then false
    else if ends_with d (dot ++ h)
    then true
    else if ends_with h (dot ++ d) && includes d b'.'
    then true
    else false

unfoldable pub cookie_belongs_to_host : UrlParser → Text → Text → Bool
unfolding in_scope
cookie_belongs_to_host parse domain owner_host =
    in_scope (ascii_host parse (strip_leading_dot domain)) (ascii_host parse owner_host)
