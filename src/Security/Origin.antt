-- ===== src/Security/Origin.antt =====
-- security/origin.cpp, core/include/malibu/security/origin.h and security/same_origin_policy.cpp.
--
-- The counter of opaque origins is passed along. `none` is the exception `std::out_of_range` that
-- `std::stol` throws.
pub mod Laws
use malibu.Common.{
  ==_iff, All, All-append, All-imp, Bool, Bool-cases, Distinct, Distinct-snoc, List, List-cases,
  Option, Option-cases, [], ap, arith, drop, drop-length-append, exists, exists_get_elem?,
  exists_none, false, get_elem?, get_elem?-append_left, get_elem?-append_length, get_elem?-lt,
  get_elem?-set_ne, get_elem?-set_self, get_elem?_lem, get_or, if◌then◌else◌, inl, inr, is_empty,
  keep, leb, leb→le, length, length-append, length-drop, length-keep-le, length-set, listed,
  listed-append, ltb, ltb→lt, lt→ltb, map, map-append_lem, none, not, not-listed, refl, set,
  set-append_length, set-get_elem?, set-set, some, subst, suc, sym, take, take-length-append, tests,
  true, zero, ℕ, ◌%◌, ◌&&◌, ◌*◌, ◌++◌, ◌+◌, ◌-◌, ◌/◌, ◌<◌, ◌==◌, ◌^◌, ◌||◌, ◌↔◌, ◌∙◌, ◌∷◌, ◌≡◌, ◌≢◌,
  ◌≤◌, ◌⊎◌,
}
use malibu.Common.Bytes.{codes, bytes_eq}
use malibu.Security.Text.{
  lower, split_separator, split_last, authority_of, all_digits, stol, to_string,
}

pub record Origin : Type 0 where
  pub scheme : List ℕ
  pub host : List ℕ
  pub port : ℕ

abbrev pub default_port : List ℕ → ℕ
default_port scheme =
    if bytes_eq scheme (codes "http") || bytes_eq scheme (codes "ws")
    then 80
    else if bytes_eq scheme (codes "https") || bytes_eq scheme (codes "wss")
    then 443
    else if bytes_eq scheme (codes "ftp")
    then 21
    else 0

abbrev pub scheme_has_authority : List ℕ → Bool
scheme_has_authority scheme =
    exists (bytes_eq scheme)
      (codes "http" ∷ codes "https" ∷ codes "ws" ∷ codes "wss" ∷ codes "ftp" ∷ codes "file" ∷ [])

unfoldable pub is_opaque : Origin → Bool
is_opaque o = bytes_eq o.scheme (codes "null")

unfoldable pub same_origin : Origin → Origin → Bool
unfolding is_opaque
same_origin a b =
    if is_opaque a || is_opaque b
    then false
    else (bytes_eq a.scheme b.scheme && bytes_eq a.host b.host) && (a.port == b.port)

unfoldable pub serialize : Origin → List ℕ
unfolding is_opaque
serialize o =
    if is_opaque o
    then codes "null"
    else o.scheme
      ++ codes "://"
      ++ o.host
      ++ (if not (o.port == 0) && not (o.port == default_port o.scheme)
          then 58 ∷ to_string o.port
          else [])

abbrev pub opaque_origin : ℕ → Origin × ℕ
opaque_origin counter = (
  record { scheme = codes "null"; host = codes "opaque-" ++ to_string counter; port = 0 },
  (counter + 1) % 2 ^ 64,
)

-- `authority.substr(at + 1)`.
abbrev pub strip_userinfo : List ℕ → List ℕ
strip_userinfo authority = elim (split_last 64 authority) [
  | none ↦ authority
  | some (user, rest) ↦ rest
]

-- The host and the port of an authority.
abbrev pub port_of : ℕ → List ℕ → Option ℕ
port_of default ps =
    if not (is_empty ps) && all_digits ps
    then elim (stol ps) [ none ↦ none | some v ↦ some (if leb v 65535 then v else 0) ]
    else some default

abbrev pub host_and_port : ℕ → List ℕ → Option (List ℕ × ℕ)
host_and_port default authority = elim (split_last 58 authority) [
  | none ↦ some (authority, default)
  | some (host, ps) ↦
      if listed 93 ps
      then some (authority, default)
      else elim (port_of default ps) [ none ↦ none | some port ↦ some (host, port) ]
]

abbrev pub parse_authority : ℕ → List ℕ → List ℕ → Option (Origin × ℕ)
parse_authority counter scheme rest =
    elim (host_and_port (default_port scheme) (strip_userinfo (authority_of rest))) [
      | none ↦ none
      | some (host, port) ↦
          if is_empty host
          then some (opaque_origin counter)
          else some (record { scheme = scheme; host = lower host; port = port }, counter)
    ]

unfoldable pub parse : ℕ → List ℕ → Option (Origin × ℕ)
unfolding stol
parse counter url = elim (split_separator url) [
  | none ↦ some (opaque_origin counter)
  | some (s, rest) ↦
      if is_empty s || not (scheme_has_authority (lower s))
      then some (opaque_origin counter)
      else parse_authority counter (lower s) rest
]

-- `SameOriginPolicy::is_allowed`.
abbrev pub is_allowed : Origin → Origin → Bool
is_allowed accessor resource = same_origin accessor resource

-- `SameOriginPolicy::check` and `check_same_origin`: the text of the `SecurityError` that is thrown.
unfoldable pub check : Origin → Origin → Option (List ℕ)
unfolding same_origin serialize
check accessor resource =
    if not (same_origin accessor resource)
    then some (
        codes "Blocked a cross-origin access from "
        ++ serialize accessor
        ++ codes " to "
        ++ serialize resource
        ++ codes " by the same-origin policy")
    else none

unfoldable pub check_same_origin : Origin → Origin → Option (List ℕ)
unfolding same_origin serialize
check_same_origin a b =
    if not (same_origin a b)
    then some (codes "Origins are not same-origin: " ++ serialize a ++ codes " vs " ++ serialize b)
    else none
