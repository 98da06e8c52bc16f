-- ===== src/Storage/Cookies/Urls.antt =====
-- The helpers of storage/cookie_store.cpp: URLs, domains, paths and trimming. A search that finds a
-- place gives what stands before and behind it.
use malibu.Common.{
  Bool, List, Option, [], drop, false, get_elem?, if◌then◌else◌, is_empty, length, listed, ltb,
  none, not, some, true, ℕ, ◌&&◌, ◌++◌, ◌-◌, ◌==◌, ◌||◌, ◌∷◌,
}
use malibu.Common.Bytes.{bytes_eq, codes}
use malibu.Security.Text.{lower, starts_with, with_head, split_separator, split_last}

pub record UrlParts : Type 0 where
  pub scheme : List ℕ
  pub host : List ℕ
  pub path : List ℕ

-- `find(c)`.
abbrev pub split_first : ℕ → List ℕ → Option (List ℕ × List ℕ)
split_first c [] = none
split_first c (x ∷ xs) = if x == c then some ([], xs) else with_head x (split_first c xs)

-- What stands before and behind the first `c`, where one is missing.
abbrev pub before_or : List ℕ → Option (List ℕ × List ℕ) → List ℕ
before_or s none = s
before_or s (some p) = p.0

abbrev pub behind_or : List ℕ → Option (List ℕ × List ℕ) → List ℕ
behind_or s none = s
behind_or s (some p) = p.1

-- `substr(0, find_first_of("?#"))`.
abbrev pub path_part : List ℕ → List ℕ
path_part [] = []
path_part (c ∷ cs) = if (c == 63) || (c == 35) then [] else c ∷ path_part cs

-- Userinfo, then the port, then case.
abbrev pub host_of : List ℕ → List ℕ
host_of authority =
    let bare = behind_or authority (split_last 64 authority) in
    lower (before_or bare (split_last 58 bare))

-- `rest` is what stands from `host_start` on.
abbrev pub path_of : List ℕ → List ℕ
path_of rest = elim (split_first 47 rest) [ none ↦ codes "/" | some p ↦ path_part (47 ∷ p.1) ]

unfoldable pub parse_url : List ℕ → UrlParts
parse_url url =
    let separator = split_separator url in
    let rest = behind_or url separator in
    record {
      scheme = elim separator [ none ↦ [] | some p ↦ p.0 ];
      host = host_of (before_or rest (split_first 47 rest));
      path = path_of rest;
    }

-- Whether the last bytes of a string are those given.
abbrev pub ends_with : List ℕ → List ℕ → Bool
ends_with suffix s = bytes_eq (drop (length s - length suffix) s) suffix

unfoldable pub domain_matches : List ℕ → List ℕ → Bool
unfolding bytes_eq
domain_matches host domain =
    if bytes_eq host domain
    then true
    else ltb (length domain) (length host) && ends_with (codes "." ++ domain) host

abbrev pub last_is : ℕ → List ℕ → Bool
last_is c [] = false
last_is c (x ∷ xs) = if is_empty xs then x == c else last_is c xs

abbrev pub unit_is : ℕ → Option ℕ → Bool
unit_is c none = false
unit_is c (some x) = x == c

unfoldable pub path_matches : List ℕ → List ℕ → Bool
unfolding bytes_eq
path_matches request_path cookie_path =
    if bytes_eq request_path cookie_path
    then true
    else if not (starts_with cookie_path request_path)
    then false
    else last_is 47 cookie_path || unit_is 47 (get_elem? request_path (length cookie_path))

abbrev pub is_blank : ℕ → Bool
is_blank c = listed c (32 ∷ 9 ∷ 13 ∷ 10 ∷ [])

abbrev pub trim_front : List ℕ → List ℕ
trim_front [] = []
trim_front (c ∷ cs) = if is_blank c then trim_front cs else c ∷ cs

abbrev pub trim_back : List ℕ → List ℕ
trim_back [] = []
trim_back (c ∷ cs) = let rest = trim_back cs in if is_blank c && is_empty rest then [] else c ∷ rest

abbrev pub trim : List ℕ → List ℕ
trim s = trim_back (trim_front s)

unfoldable pub default_cookie_path : List ℕ → List ℕ
default_cookie_path request_path =
    if not (unit_is 47 (get_elem? request_path 0))
    then codes "/"
    else elim (split_last 47 request_path) [
      | none ↦ codes "/"
      | some p ↦ if is_empty p.0 then codes "/" else p.0
    ]
