-- ===== src/Storage/Cookies.antt =====
-- `CookieStore` of core/include/malibu/storage/cookie_store.h and storage/cookie_store.cpp.
--
-- `now` is `unix_time_seconds()`. A string is its bytes. `path_matches` reads `cookie_path.back()`,
-- which is undefined on an empty path; `set_cookie` stores none, and here the answer is false.
pub mod Urls
pub mod Document
pub mod Boundary
pub mod Retrieval
use malibu.Common.{
  ==_iff, All, All-append, All-imp, Bool, Bool-cases, Distinct, Distinct-snoc, List, List-cases,
  Option, Option-cases, [], ap, arith, drop, drop-length-append, exists, exists_get_elem?,
  exists_none, false, get_elem?, get_elem?-append_left, get_elem?-append_length, get_elem?-lt,
  get_elem?-set_ne, get_elem?-set_self, get_elem?_lem, get_or, if◌then◌else◌, inl, inr, is_empty,
  keep, leb, leb→le, length, length-append, length-drop, length-keep-le, length-set, listed,
  listed-append, ltb, ltb→lt, lt→ltb, map, map-append_lem, none, not, not-listed, refl, set,
  set-append_length, set-get_elem?, set-set, some, subst, suc, sym, take, take-length-append, tests,
  true, zero, ℕ, ◌%◌, ◌&&◌, ◌*◌, ◌++◌, ◌+◌, ◌-◌, ◌/◌, ◌<◌, ◌==◌, ◌^◌, ◌||◌, ◌↔◌, ◌∙◌, ◌∷◌, ◌≡◌, ◌≢◌,
  ◌≤◌, ◌⊎◌,
}
use malibu.Common.Bytes.{bytes_eq, codes}
use malibu.Storage.Cookies.Urls.{UrlParts, parse_url, domain_matches, path_matches}

pub data SameSite : Type 0 where
  none_mode lax strict : SameSite

pub record Cookie : Type 0 where
  pub name : List ℕ
  pub value : List ℕ
  pub domain : List ℕ
  pub path : List ℕ
  pub expires : ℕ
  pub secure : Bool
  pub http_only : Bool
  pub same_site : SameSite

pub record Context : Type 0 where
  pub secure_transport : Bool
  pub same_site : Bool
  pub script_access : Bool

abbrev pub Cookies : Type 0
Cookies = List Cookie

unfoldable pub same_cookie : Cookie → Cookie → Bool
unfolding bytes_eq
same_cookie c d = (bytes_eq c.name d.name && bytes_eq c.domain d.domain) && bytes_eq c.path d.path

abbrev pub completed : UrlParts → Cookie → Cookie
completed u cookie = record cookie {
  domain = if is_empty cookie.domain then u.host else cookie.domain;
  path = if is_empty cookie.path then codes "/" else cookie.path;
}

abbrev pub replace_cookie : Cookie → Cookies → Cookies
replace_cookie cookie [] = cookie ∷ []
replace_cookie cookie (c ∷ cookies) =
    if same_cookie c cookie then cookie ∷ cookies else c ∷ replace_cookie cookie cookies

unfoldable pub set_cookie : List ℕ → Cookie → Cookies → Cookies
unfolding same_cookie parse_url
set_cookie url cookie cookies = replace_cookie (completed (parse_url url) cookie) cookies

abbrev pub is_none_mode : SameSite → Bool
is_none_mode SameSite.none_mode = true
is_none_mode SameSite.lax = false
is_none_mode SameSite.strict = false

-- The tests of `get_cookies` that a cookie passes to be returned.
unfoldable pub applies : ℕ → UrlParts → Context → Cookie → Bool
unfolding domain_matches path_matches
applies now u ctx c =
    if not (c.expires == 0) && leb c.expires now
    then false
    else if not (domain_matches u.host c.domain)
    then false
    else if not (path_matches u.path c.path)
    then false
    else if c.secure && not ctx.secure_transport
    then false
    else if c.http_only && ctx.script_access
    then false
    else not (not ctx.same_site && not (is_none_mode c.same_site))

unfoldable pub get_cookies : ℕ → List ℕ → Context → Cookies → Cookies
unfolding applies parse_url
get_cookies now url ctx cookies = keep (applies now (parse_url url) ctx) cookies

abbrev pub script_context : UrlParts → Context
script_context u = record {
  secure_transport = bytes_eq u.scheme (codes "https") || bytes_eq u.scheme (codes "wss");
  same_site = true;
  script_access = true;
}

abbrev pub cookie_pairs : List ℕ → Cookies → List ℕ
cookie_pairs out [] = out
cookie_pairs out (c ∷ cookies) =
    cookie_pairs
      (out ++ (if is_empty out then [] else codes "; ") ++ c.name ++ codes "=" ++ c.value) cookies

unfoldable pub get_cookie_string : ℕ → List ℕ → Cookies → List ℕ
unfolding get_cookies bytes_eq parse_url
get_cookie_string now url cookies =
    cookie_pairs [] (get_cookies now url (script_context (parse_url url)) cookies)

unfoldable pub delete_cookie : List ℕ → List ℕ → Cookies → Cookies
unfolding domain_matches bytes_eq parse_url
delete_cookie url name cookies =
    keep
      (λ (c : Cookie). not (bytes_eq c.name name && domain_matches (parse_url url).host c.domain))
      cookies

unfoldable pub clear_host : List ℕ → Cookies → Cookies
unfolding domain_matches
clear_host host cookies = keep (λ (c : Cookie). not (domain_matches host c.domain)) cookies
