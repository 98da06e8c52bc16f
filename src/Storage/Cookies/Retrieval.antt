-- ===== src/Storage/Cookies/Retrieval.antt =====
-- Which cookies are sent after the jar changed.
use malibu.Common.{Bool-cases, List, [], arith, false, inl, inr, keep, not, refl, ℕ, ◌∷◌, ◌≡◌}
use malibu.Storage.Cookies.{Cookie, Cookies, Context, applies, get_cookies, clear_host}
use malibu.Storage.Cookies.Urls.{UrlParts, parse_url, domain_matches}

dropped :
    (now : ℕ) (u : UrlParts) (ctx : Context) (c : Cookie)
    → domain_matches u.host c.domain ≡ false
    → applies now u ctx c ≡ false
unfolding applies
dropped now u ctx c e = ground arith

none_left :
    (now : ℕ) (u : UrlParts) (ctx : Context) (cookies : Cookies)
    → keep (applies now u ctx) (keep (λ (c : Cookie). not (domain_matches u.host c.domain)) cookies)
      ≡ []
none_left now u ctx [] = refl
none_left now u ctx (c ∷ cookies) = elim (Bool-cases (domain_matches u.host c.domain)) [
  | inl e ↦ rw e (none_left now u ctx cookies)
  | inr e ↦ rw e (rw (dropped now u ctx c e) (none_left now u ctx cookies))
]

-- Once the cookies of a host are cleared, no URL of that host is sent any cookie, in any context and
-- at any time.
pub get_cookies-clear_host :
    (now : ℕ) (url : List ℕ) (ctx : Context) (cookies : Cookies)
    → get_cookies now url ctx (clear_host (parse_url url).host cookies) ≡ []
unfolding get_cookies clear_host
get_cookies-clear_host now url ctx cookies = none_left now (parse_url url) ctx cookies
