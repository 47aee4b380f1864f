-- ===== src/Host/Tests.antt =====
-- Hosts and cookie domains at concrete inputs. The parser of these runs leaves a host as it is.
use browse_gateway.Base.{◌≡◌, refl, inr, true, some, drop}
use browse_gateway.Base.Text.{
  codes, text_eq, is_space, trim, trim_start, lower, to_lower_case, starts_with, ends_with,
  drop_last, includes,
}
use browse_gateway.Host.{
  UrlParser, strip_root, canonicalize_host, ascii_host, cookie_belongs_to_host,
}
use browse_gateway.Host.Canonical.{HasNoSpace}
use browse_gateway.Host.Scope.{cookie_belongs_to_host_iff}

-- Every URL has its text after `https://` for its host.
abbrev plain_parser : UrlParser
plain_parser url =
    some (record { protocol = codes "https:"; hostname = drop 8 url; pathname = codes "/" })

example_host : HasNoSpace (codes "Ex.org")
unfolding is_space
example_host = (refl, (refl, (refl, (refl, (refl, (refl, tt))))))

cookie_belongs_to_host_iff_example :
    cookie_belongs_to_host plain_parser (codes ".example.com") (codes "www.example.com") ≡ true
cookie_belongs_to_host_iff_example =
    (cookie_belongs_to_host_iff plain_parser (codes ".example.com") (codes "www.example.com")).1 (
      unfold ascii_host canonicalize_host strip_root trim trim_start is_space to_lower_case lower
        starts_with ends_with text_eq drop_last includes in
      ((λ e. cc), (λ e. cc), inr (refl, inr ((codes "www", refl), refl))))
