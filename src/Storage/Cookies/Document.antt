-- ===== src/Storage/Cookies/Document.antt =====
-- `CookieStore::set_cookie_from_document` of storage/cookie_store.cpp.
--
-- `strtoll` skips white space, reads a sign and digits, and cuts what is out of range to the ends of
-- `long long`; `whole_number` is its result where it read all of a text up to a null byte.
use malibu.Common.{
  Bool, List, Option, [], exists, false, get_elem?, if◌then◌else◌, is_empty, keep, listed, ltb,
  none, not, some, true, ℕ, ◌%◌, ◌+◌, ◌-◌, ◌==◌, ◌^◌, ◌||◌, ◌∷◌,
}
use malibu.Common.Bytes.{bytes_eq, codes}
use malibu.Security.Text.{lower, all_digits, decimal, is_space}
use malibu.Storage.Cookies.{Cookie, Cookies, SameSite, same_cookie, set_cookie}
use malibu.Storage.Cookies.Urls.{
  UrlParts, split_first, before_or, behind_or, parse_url, domain_matches, trim, default_cookie_path,
  unit_is,
}

-- The pieces between semicolons; what is left when the loop ends is none.
abbrev pub add_unit : ℕ → List (List ℕ) → List (List ℕ)
add_unit x [] = (x ∷ []) ∷ []
add_unit x (p ∷ ps) = (x ∷ p) ∷ ps

unfoldable pub segments : List ℕ → List (List ℕ)
segments [] = []
segments (c ∷ cs) = if c == 59 then [] ∷ segments cs else add_unit c (segments cs)

abbrev pub skip_spaces : List ℕ → List ℕ
skip_spaces [] = []
skip_spaces (c ∷ cs) = if is_space c then skip_spaces cs else c ∷ cs

-- The text of a C string.
abbrev pub c_string : List ℕ → List ℕ
c_string [] = []
c_string (c ∷ cs) = if c == 0 then [] else c ∷ c_string cs

-- Digits to a `long long` that is not negative.
abbrev pub positive : List ℕ → Option ℕ
positive digits =
    if is_empty digits || not (all_digits digits)
    then none
    else some (if ltb (decimal 0 digits) (2 ^ 63) then decimal 0 digits else 2 ^ 63 - 1)

-- Where a minus sign stands the number is not positive, and 0 stands for it.
abbrev pub not_positive : Option ℕ → Option ℕ
not_positive none = none
not_positive (some n) = some 0

abbrev pub signed : List ℕ → Option ℕ
signed [] = none
signed (c ∷ cs) =
    if c == 45
    then not_positive (positive cs)
    else if c == 43
    then positive cs
    else positive (c ∷ cs)

unfoldable pub whole_number : List ℕ → Option ℕ
whole_number s = signed (skip_spaces (c_string s))

abbrev pub skip_dots : List ℕ → List ℕ
skip_dots [] = []
skip_dots (c ∷ cs) = if c == 46 then skip_dots cs else c ∷ cs

unfoldable pub same_site_of : List ℕ → SameSite
unfolding bytes_eq
same_site_of mode =
    if bytes_eq mode (codes "none")
    then SameSite.none_mode
    else if bytes_eq mode (codes "strict")
    then SameSite.strict
    else SameSite.lax

-- The cookie that is being read, and `delete_now`.
pub record Draft : Type 0 where
  pub cookie : Cookie
  pub delete_now : Bool

abbrev pub with_age : ℕ → Draft → Option ℕ → Draft
with_age now d none = d
with_age now d (some seconds) =
    if seconds == 0
    then record d { delete_now = true }
    else record d { cookie = record d.cookie { expires = (now + seconds) % 2 ^ 64 } }

abbrev pub with_domain : UrlParts → Draft → List ℕ → Option Draft
with_domain source d domain =
    if is_empty domain || not (domain_matches source.host domain)
    then none
    else some (record d { cookie = record d.cookie { domain = domain } })

-- One attribute by its key and value; `none` is `return false`.
unfoldable pub set_field : ℕ → UrlParts → List ℕ → List ℕ → Draft → Option Draft
unfolding bytes_eq domain_matches same_site_of whole_number
set_field now source key value d =
    if bytes_eq key (codes "domain")
    then with_domain source d (skip_dots (lower value))
    else if bytes_eq key (codes "path")
    then some (record d {
      cookie = record d.cookie {
        path = if unit_is 47 (get_elem? value 0) then value else codes "/";
      };
    })
    else if bytes_eq key (codes "secure")
    then (if not (bytes_eq source.scheme (codes "https"))
        then none
        else some (record d { cookie = record d.cookie { secure = true } }))
    else if bytes_eq key (codes "samesite")
    then some (record d { cookie = record d.cookie { same_site = same_site_of (lower value) } })
    else if bytes_eq key (codes "max-age")
    then some (with_age now d (whole_number value))
    else some d

abbrev pub read_attribute : ℕ → UrlParts → List ℕ → Draft → Option Draft
read_attribute now source segment d =
    let attribute = trim segment in
    set_field now source (lower (trim (before_or attribute (split_first 61 attribute))))
      (trim (behind_or [] (split_first 61 attribute))) d

unfoldable pub read_attributes : ℕ → UrlParts → List (List ℕ) → Draft → Option Draft
unfolding set_field
read_attributes now source [] d = some d
read_attributes now source (a ∷ as_) d = elim (read_attribute now source a d) [
  | none ↦ none
  | some e ↦ read_attributes now source as_ e
]

-- `find_first_of("()<>@,;:\\\"/[]?={} \t\r\n")`.
abbrev pub is_separator : ℕ → Bool
is_separator c = listed c (
    40 ∷ 41 ∷ 60 ∷ 62 ∷ 64 ∷ 44 ∷ 59 ∷ 58 ∷ 92 ∷ 34 ∷ 47 ∷ 91 ∷ 93 ∷ 63 ∷ 61 ∷ 123 ∷ 125 ∷ 32 ∷ 9
    ∷ 13 ∷ 10 ∷ [])

-- The name and value, before any attribute is read.
abbrev pub first_draft : UrlParts → List ℕ × List ℕ → Draft
first_draft source p = record {
  cookie = record {
    name = trim p.0;
    value = trim p.1;
    domain = source.host;
    path = default_cookie_path source.path;
    expires = 0;
    secure = false;
    http_only = false;
    same_site = SameSite.lax;
  };
  delete_now = false;
}

abbrev pub named_draft : UrlParts → Option (List ℕ × List ℕ) → Option Draft
named_draft source none = none
named_draft source (some p) =
    if is_empty (trim p.0) || exists is_separator (trim p.0)
    then none
    else some (first_draft source p)

abbrev pub parse_attributes : ℕ → UrlParts → List ℕ → Option Draft → Option Draft
parse_attributes now source rest none = none
parse_attributes now source rest (some d) = read_attributes now source (segments rest) d

-- What the assignment asks for; `none` is `return false`.
unfoldable pub parse_assignment : ℕ → UrlParts → List ℕ → Option Draft
unfolding default_cookie_path read_attributes segments
parse_assignment now source assignment =
    if is_empty source.host
    then none
    else let pair = trim (before_or assignment (split_first 59 assignment)) in
      parse_attributes now source (behind_or [] (split_first 59 assignment))
        (named_draft source (split_first 61 pair))

unfoldable pub set_cookie_from_document : ℕ → List ℕ → List ℕ → Cookies → Cookies × Bool
unfolding parse_assignment parse_url same_cookie set_cookie
set_cookie_from_document now url assignment cookies =
    elim (parse_assignment now (parse_url url) assignment) [
      | none ↦ (cookies, false)
      | some d ↦
          if d.delete_now
          then (keep (λ (c : Cookie). not (same_cookie c d.cookie)) cookies, true)
          else (set_cookie url d.cookie cookies, true)
    ]
