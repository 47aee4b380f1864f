-- ===== src/Policy/Allowlist.antt =====
-- The host allowlist of a consumer: policy/allowlist.ts.
pub mod Rules
use browse_gateway.Base.{Bool, true, false, ◌||◌, List, [], ◌∷◌, ◌++◌, if◌then◌else◌, any, drop}
use browse_gateway.Base.Text.{Text, codes, text_eq, is_empty, trim, to_lower_case, starts_with}
use browse_gateway.Base.Sets.{has, set_add}
use browse_gateway.Host.{canonicalize_host, covers}

pub record Allowlist : Type 0 where
  pub exact : List Text
  pub suffixes : List Text
  pub rules : List Text
  pub allow_all : Bool

-- Drops a leading `www.`.
unfoldable pub strip_www : Text → Text
strip_www s = if starts_with s (codes "www.") then drop 4 s else s

unfoldable pub normalize_host : Text → Text
normalize_host host = strip_www (canonicalize_host host)

abbrev pub empty_allowlist : Allowlist
empty_allowlist = record { exact = []; suffixes = []; rules = []; allow_all = false }

-- The trimmed rule, sorted by its form.
unfoldable pub add_trimmed : Allowlist → Text → Allowlist
add_trimmed l [] = l
add_trimmed l (c ∷ s) =
    let trimmed = c ∷ s in
    let kept = l.rules ++ trimmed ∷ [] in
    if text_eq trimmed (codes "*")
    then record l { rules = kept; allow_all = true }
    else if starts_with trimmed (codes "*.")
    then record l {
      rules = kept;
      suffixes = set_add l.suffixes (canonicalize_host (drop 2 trimmed));
    }
    else record l { rules = kept; exact = set_add l.exact (normalize_host trimmed) }

unfoldable pub add : Allowlist → Text → Allowlist
unfolding add_trimmed
add l rule = add_trimmed l (to_lower_case (trim rule))

unfoldable pub add_all : Allowlist → List Text → Allowlist
add_all l [] = l
add_all l (rule ∷ rules) = add_all (add l rule) rules

unfoldable pub new_allowlist : List Text → Allowlist
new_allowlist rules = add_all empty_allowlist rules

-- The tests of `allows` on a canonical host.
unfoldable pub allows_canonical : Allowlist → Text → Bool
allows_canonical l canon =
    if is_empty canon
    then false
    else if l.allow_all
    then true
    else if has l.exact (strip_www canon)
    then true
    else any l.suffixes (covers canon)

unfoldable pub allows : Allowlist → Text → Bool
unfolding allows_canonical
allows l host = allows_canonical l (canonicalize_host host)
