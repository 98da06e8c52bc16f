-- ===== src/Dom/Selectors/Matching.antt =====
-- `matches_compound` and `matches_chain` of dom/document.cpp.
--
-- The steps stand from right to left, the order in which `matches_chain` takes them. The walk to an
-- ancestor takes fuel, and an outer `none` says that it ran out.
use malibu.Common.{
  Bool, List, Option, [], exists, false, if◌then◌else◌, is_empty, none, not, some, suc, true, zero,
  ℕ, ◌==◌, ◌||◌, ◌∷◌,
}
use malibu.Common.Bytes.{bytes_eq, codes}
use malibu.Security.Text.{split_ws}
use malibu.Dom.Handle.{NodeHandle, is_null, null_handle}
use malibu.Dom.NodeTable.{NodeCore}
use malibu.Dom.Document.{Document, core, element_node}
use malibu.Dom.Selectors.{Compound, Combinator, CompoundStep, narrow}

-- The value of the first attribute with the name.
abbrev pub attribute_of : List ℕ → List (List ℕ × List ℕ) → Option (List ℕ)
attribute_of name [] = none
attribute_of name ((k, v) ∷ attributes) =
    if bytes_eq k name then some v else attribute_of name attributes

abbrev pub tag_matches : Compound → NodeCore → Bool
tag_matches comp c = comp.universal || (is_empty comp.tag || bytes_eq (narrow c.tag_name) comp.tag)

abbrev pub is_id : List ℕ → Option (List ℕ) → Bool
is_id id none = false
is_id id (some v) = bytes_eq (narrow v) id

abbrev pub id_matches : Compound → NodeCore → Bool
id_matches comp c = is_empty comp.id || is_id comp.id (attribute_of (codes "id") c.attributes)

abbrev pub class_list : Option (List ℕ) → List (List ℕ)
class_list none = []
class_list (some v) = split_ws (narrow v)

abbrev pub all_in : List (List ℕ) → List (List ℕ) → Bool
all_in [] have = true
all_in (want ∷ wants) have = if exists (bytes_eq want) have then all_in wants have else false

abbrev pub classes_match : Compound → NodeCore → Bool
classes_match comp c =
    is_empty comp.classes
    || all_in comp.classes (class_list (attribute_of (codes "class") c.attributes))

unfoldable pub matches_core : Compound → NodeCore → Bool
unfolding bytes_eq
matches_core comp c =
    if not (c.node_type == element_node)
    then false
    else if not (tag_matches comp c)
    then false
    else if not (id_matches comp c)
    then false
    else classes_match comp c

unfoldable pub matches_compound : Document → NodeHandle → Compound → Bool
unfolding core matches_core
matches_compound d h comp = elim (core d h) [ none ↦ false | some (p, c) ↦ matches_core comp c ]

-- `c ? c->parent : NodeHandle::null_handle()`.
unfoldable pub parent_of : Document → NodeHandle → NodeHandle
unfolding core
parent_of d h = elim (core d h) [ none ↦ null_handle | some (p, c) ↦ c.parent ]

-- The inner `while`: the nearest of `p` and its ancestors that matches.
unfoldable pub nearest : ℕ → Document → NodeHandle → Compound → Option (Option NodeHandle)
unfolding matches_compound parent_of
nearest zero d p target = none
nearest (suc fuel) d p target = elim (is_null p) [
  | true ↦ some none
  | false ↦ elim (matches_compound d p target) [
    | true ↦ some (some p)
    | false ↦ nearest fuel d (parent_of d p) target
  ]
]

unfoldable pub match_up : ℕ → Document → NodeHandle → Combinator → List CompoundStep → Option Bool
unfolding nearest matches_compound parent_of
match_up fuel d cur combinator [] = some true
match_up fuel d cur Combinator.child (s ∷ steps) =
    let p = parent_of d cur in
    let rest = match_up fuel d p s.combinator steps in
    if is_null p || not (matches_compound d p s.compound) then some false else rest
match_up fuel d cur Combinator.descendant (s ∷ steps) =
    elim (nearest fuel d (parent_of d cur) s.compound) [
      | none ↦ none
      | some none ↦ some false
      | some (some p) ↦ match_up fuel d p s.combinator steps
    ]

unfoldable pub matches_chain : ℕ → Document → NodeHandle → List CompoundStep → Option Bool
unfolding match_up matches_compound
matches_chain fuel d candidate [] = some false
matches_chain fuel d candidate (s ∷ steps) =
    let rest = match_up fuel d candidate s.combinator steps in
    if not (matches_compound d candidate s.compound) then some false else rest
