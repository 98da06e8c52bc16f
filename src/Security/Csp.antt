-- ===== src/Security/Csp.antt =====
-- security/csp_enforcer.cpp and core/include/malibu/security/csp_enforcer.h: the parts of a content
-- security policy and the matching of source expressions.
--
-- `none` is the exception of `std::stol`, and the counter of opaque origins is passed along.
pub mod Laws
use malibu.Common.{
  ==_iff, All, All-append, All-imp, Bool, Bool-cases, Distinct, Distinct-snoc, List, List-cases,
  Option, Option-cases, [], ap, arith, drop, drop-length-append, exists, exists_get_elem?,
  exists_none, false, get_elem?, get_elem?-append_left, get_elem?-append_length, get_elem?-lt,
  get_elem?-set_ne, get_elem?-set_self, get_elem?_lem, get_or, if◌then◌else◌, inl, inr, is_empty,
  keep, leb, leb→le, length, length-append, length-drop, length-keep-le, length-set, listed,
  listed-append, ltb, ltb→lt, lt→ltb, map, map-append_lem, none, not, not-listed, refl, set,
  set-append_length, set-get_elem?, set-set, some, subst, suc, sym, take, take-length-append, tests,
  true, zero, ℕ, ◌%◌, ◌&&◌, ◌*◌, ◌++◌, ◌+◌, ◌-◌, ◌/◌, ◌<◌, ◌==◌, ◌^◌, ◌||◌, ◌↔◌, ◌∙◌, ◌∷◌, ◌≡◌, ◌≢◌,
  ◌≤◌, ◌⊎◌,
}
use malibu.Common.Bytes.{codes, bytes_eq}
use malibu.Security.Text.{
  lower, starts_with, split_separator, split_last, all_digits, stol, split, split_ws,
}
use malibu.Security.Origin.{Origin, is_opaque, same_origin, parse}

pub data Directive : Type 0 where
  default_src script_src style_src img_src connect_src font_src : Directive
  frame_src media_src object_src child_src worker_src manifest_src : Directive
  prefetch_src form_action frame_ancestors navigate_to report_uri report_to : Directive

pub record Violation : Type 0 where
  pub directive : Directive
  pub blocked_url : List ℕ
  pub document_url : List ℕ

pub record Policy : Type 0 where
  pub default_src : List (List ℕ)
  pub script_src : List (List ℕ)
  pub style_src : List (List ℕ)
  pub img_src : List (List ℕ)
  pub connect_src : List (List ℕ)
  pub font_src : List (List ℕ)
  pub frame_src : List (List ℕ)
  pub media_src : List (List ℕ)
  pub object_src : List (List ℕ)
  pub child_src : List (List ℕ)
  pub worker_src : List (List ℕ)
  pub manifest_src : List (List ℕ)
  pub prefetch_src : List (List ℕ)
  pub form_action : List (List ℕ)
  pub frame_ancestors : List (List ℕ)
  pub navigate_to : List (List ℕ)
  pub report_uri : List ℕ
  pub report_to : List ℕ

pub record CspEnforcer : Type 0 where
  pub policy : Policy
  pub document_origin : Origin
  pub has_policy : Bool
  pub violations : List Violation

abbrev pub host_matches : List ℕ → List ℕ → Bool
host_matches pattern host =
    let suffix = drop 1 pattern in
    if ltb 2 (length pattern) && starts_with (codes "*.") pattern
    then ltb (length suffix) (length host)
      && bytes_eq (drop (length host - length suffix) host) suffix
    else bytes_eq pattern host

-- `if (!srcs.empty()) … = srcs[0]`.
abbrev pub first_or : List ℕ → List (List ℕ) → List ℕ
first_or old [] = old
first_or old (s ∷ srcs) = s

unfoldable pub set_directive : Policy → List ℕ → List (List ℕ) → Policy
set_directive p name srcs =
    if bytes_eq name (codes "default-src")
    then record p { default_src = srcs }
    else if bytes_eq name (codes "script-src")
    then record p { script_src = srcs }
    else if bytes_eq name (codes "style-src")
    then record p { style_src = srcs }
    else if bytes_eq name (codes "img-src")
    then record p { img_src = srcs }
    else if bytes_eq name (codes "connect-src")
    then record p { connect_src = srcs }
    else if bytes_eq name (codes "font-src")
    then record p { font_src = srcs }
    else if bytes_eq name (codes "frame-src")
    then record p { frame_src = srcs }
    else if bytes_eq name (codes "media-src")
    then record p { media_src = srcs }
    else if bytes_eq name (codes "object-src")
    then record p { object_src = srcs }
    else if bytes_eq name (codes "child-src")
    then record p { child_src = srcs }
    else if bytes_eq name (codes "worker-src")
    then record p { worker_src = srcs }
    else if bytes_eq name (codes "manifest-src")
    then record p { manifest_src = srcs }
    else if bytes_eq name (codes "prefetch-src")
    then record p { prefetch_src = srcs }
    else if bytes_eq name (codes "form-action")
    then record p { form_action = srcs }
    else if bytes_eq name (codes "frame-ancestors")
    then record p { frame_ancestors = srcs }
    else if bytes_eq name (codes "navigate-to")
    then record p { navigate_to = srcs }
    else if bytes_eq name (codes "report-uri")
    then record p { report_uri = first_or p.report_uri srcs }
    else if bytes_eq name (codes "report-to")
    then record p { report_to = first_or p.report_to srcs }
    else p

-- One round of the loop of `set_policy`, on the words of a directive.
abbrev pub apply_directive : Policy → List (List ℕ) → Policy
apply_directive p [] = p
apply_directive p (name ∷ srcs) = set_directive p (lower name) srcs

abbrev pub apply_directives : Policy → List (List ℕ) → Policy
apply_directives p [] = p
apply_directives p (d ∷ ds) = apply_directives (apply_directive p (split_ws d)) ds

unfoldable pub set_policy : CspEnforcer → List ℕ → CspEnforcer
unfolding set_directive
set_policy e policy = record e {
  has_policy = true;
  policy = apply_directives e.policy (split 59 policy);
}

abbrev pub list_for : Policy → Directive → List (List ℕ)
list_for p Directive.default_src = p.default_src
list_for p Directive.script_src = p.script_src
list_for p Directive.style_src = p.style_src
list_for p Directive.img_src = p.img_src
list_for p Directive.connect_src = p.connect_src
list_for p Directive.font_src = p.font_src
list_for p Directive.frame_src = p.frame_src
list_for p Directive.media_src = p.media_src
list_for p Directive.object_src = p.object_src
list_for p Directive.child_src = p.child_src
list_for p Directive.worker_src = p.worker_src
list_for p Directive.manifest_src = p.manifest_src
list_for p Directive.prefetch_src = p.prefetch_src
list_for p Directive.form_action = p.form_action
list_for p Directive.frame_ancestors = p.frame_ancestors
list_for p Directive.navigate_to = p.navigate_to
list_for p _ = p.default_src

-- A source with a scheme in front; `rest` stands behind its separator.
abbrev pub match_origin : Origin → Origin → List ℕ → Bool
match_origin src target rest =
    not (is_opaque src)
    && (bytes_eq src.scheme target.scheme
        && (host_matches src.host target.host
            && not (listed 58 rest && not (src.port == target.port))))

-- A source that is a host, with a port or without.
abbrev pub match_host : Origin → List ℕ → Option Bool
match_host target s = elim (split_last 58 s) [
  | none ↦ some (host_matches s target.host)
  | some (host, ps) ↦
      if not (is_empty ps) && all_digits ps
      then elim (stol ps) [
        | none ↦ none
        | some v ↦ some (host_matches host target.host && (v % 65536 == target.port))
      ]
      else some (host_matches s target.host)
]

abbrev pub with_counter : ℕ → Option Bool → Option (Bool × ℕ)
with_counter counter none = none
with_counter counter (some b) = some (b, counter)

-- A source that is no keyword and no scheme.
abbrev pub match_place : ℕ → Origin → List ℕ → Option (Bool × ℕ)
match_place counter target s = elim (split_separator s) [
  | none ↦ with_counter counter (match_host target s)
  | some (before, rest) ↦ elim (parse counter s) [
    | none ↦ none
    | some (src, counter') ↦ some (match_origin src target rest, counter')
  ]
]

-- The scheme of a scheme source like `https:`.
abbrev pub scheme_source : List ℕ → Option (List ℕ)
scheme_source s = elim (split_separator s) [
  | some at_ ↦ none
  | none ↦ elim (split_last 58 s) [
    | none ↦ none
    | some (scheme, behind) ↦
        if is_empty behind && not (is_empty scheme) then some (lower scheme) else none
  ]
]

-- The body of the loop of `source_list_allows`.
unfoldable pub match_source : ℕ → Origin → Origin → List ℕ → Option (Bool × ℕ)
unfolding is_opaque same_origin parse stol
match_source counter document target s =
    if bytes_eq s (codes "*")
    then some (not (is_opaque target), counter)
    else if bytes_eq s (codes "'self'")
    then some (not (is_opaque document) && same_origin document target, counter)
    else if bytes_eq s (codes "'unsafe-inline'") || bytes_eq s (codes "'unsafe-eval'")
    then some (false, counter)
    else elim (scheme_source s) [
      | some scheme ↦ some (bytes_eq target.scheme scheme, counter)
      | none ↦ match_place counter target s
    ]

unfoldable pub scan_sources : ℕ → Origin → Origin → List (List ℕ) → Option (Bool × ℕ)
unfolding match_source
scan_sources counter document target [] = some (false, counter)
scan_sources counter document target (s ∷ list) = elim (match_source counter document target s) [
  | none ↦ none
  | some (matched, counter') ↦
      if matched then some (true, counter') else scan_sources counter' document target list
]

unfoldable pub source_list_allows : ℕ → Origin → List (List ℕ) → List ℕ → Option (Bool × ℕ)
unfolding scan_sources parse
source_list_allows counter document list url =
    if exists (λ s. bytes_eq s (codes "'none'")) list
    then some (false, counter)
    else elim (parse counter url) [
      | none ↦ none
      | some (target, counter') ↦ scan_sources counter' document target list
    ]

-- The list that decides: a directive without sources falls back to `default-src`.
abbrev pub effective_list : Policy → Directive → List (List ℕ)
effective_list p d = if is_empty (list_for p d) then p.default_src else list_for p d

unfoldable pub allows : ℕ → CspEnforcer → Directive → List ℕ → Option (Bool × ℕ)
unfolding source_list_allows
allows counter e d url =
    if not e.has_policy
    then some (true, counter)
    else if is_empty (effective_list e.policy d)
    then some (true, counter)
    else source_list_allows counter e.document_origin (effective_list e.policy d) url

unfoldable pub report_violation : CspEnforcer → Directive → List ℕ → List ℕ → CspEnforcer
report_violation e d blocked_url document_url = record e {
  violations =
      e.violations
      ++ record { directive = d; blocked_url = blocked_url; document_url = document_url } ∷ [];
}
