-- ===== src/Dom/Siblings.antt =====
-- `DOMTree` of dom/document.cpp: the reads that walk the tree.
--
-- The walk of `text_content` takes fuel, and `none` says that it ran out.
pub mod Order
use malibu.Common.{
  ==_iff, All, All-append, All-imp, Bool, Bool-cases, Distinct, Distinct-snoc, List, List-cases,
  Option, Option-cases, [], ap, arith, drop, drop-length-append, exists, exists_get_elem?,
  exists_none, false, get_elem?, get_elem?-append_left, get_elem?-append_length, get_elem?-lt,
  get_elem?-set_ne, get_elem?-set_self, get_elem?_lem, get_or, if◌then◌else◌, inl, inr, is_empty,
  keep, leb, leb→le, length, length-append, length-drop, length-keep-le, length-set, listed,
  listed-append, ltb, ltb→lt, lt→ltb, map, map-append_lem, none, not, not-listed, refl, set,
  set-append_length, set-get_elem?, set-set, some, subst, suc, sym, take, take-length-append, tests,
  true, zero, ℕ, ◌%◌, ◌&&◌, ◌*◌, ◌++◌, ◌+◌, ◌-◌, ◌/◌, ◌<◌, ◌==◌, ◌^◌, ◌||◌, ◌↔◌, ◌∙◌, ◌∷◌, ◌≡◌, ◌≢◌,
  ◌≤◌, ◌⊎◌,
}
use malibu.Dom.Handle.{NodeHandle, null_handle, is_null, handle_eq}
use malibu.Dom.NodeTable.{NodeCore}
use malibu.Dom.Document.{Document, core, text_node}

abbrev pub head_or_null : List NodeHandle → NodeHandle
head_or_null [] = null_handle
head_or_null (h ∷ hs) = h

abbrev pub last_or_null : List NodeHandle → NodeHandle
last_or_null [] = null_handle
last_or_null (h ∷ []) = h
last_or_null (h ∷ k ∷ hs) = last_or_null (k ∷ hs)

unfoldable pub first_child : Document → NodeHandle → NodeHandle
unfolding core
first_child d h = elim (core d h) [ none ↦ null_handle | some (p, c) ↦ head_or_null c.children ]

unfoldable pub last_child : Document → NodeHandle → NodeHandle
unfolding core
last_child d h = elim (core d h) [ none ↦ null_handle | some (p, c) ↦ last_or_null c.children ]

-- `*std::next(find(children, h))`.
abbrev pub next_in : NodeHandle → List NodeHandle → NodeHandle
next_in h [] = null_handle
next_in h (k ∷ ks) = if handle_eq k h then head_or_null ks else next_in h ks

-- `*std::prev(find(children, h))`, with the handle before the list.
abbrev pub previous_in : NodeHandle → NodeHandle → List NodeHandle → NodeHandle
previous_in before h [] = null_handle
previous_in before h (k ∷ ks) = if handle_eq k h then before else previous_in k h ks

-- The children of the parent of a node, if it has one.
abbrev pub siblings : Document → NodeHandle → List NodeHandle
siblings d h = elim (core d h) [
  | none ↦ []
  | some (p, c) ↦
      if is_null c.parent
      then []
      else elim (core d c.parent) [ none ↦ [] | some (q, pc) ↦ pc.children ]
]

unfoldable pub next_sibling : Document → NodeHandle → NodeHandle
unfolding core
next_sibling d h = next_in h (siblings d h)

unfoldable pub previous_sibling : Document → NodeHandle → NodeHandle
unfolding core
previous_sibling d h = previous_in null_handle h (siblings d h)

-- A loop that joins the texts of the children.
unfoldable pub join_texts : (NodeHandle → Option (List ℕ)) → List NodeHandle → Option (List ℕ)
join_texts f [] = some []
join_texts f (h ∷ hs) = elim (f h) [
  | none ↦ none
  | some t ↦ elim (join_texts f hs) [ none ↦ none | some ts ↦ some (t ++ ts) ]
]

unfoldable pub text_content : ℕ → Document → NodeHandle → Option (List ℕ)
unfolding core join_texts
text_content zero d node = none
text_content (suc fuel) d node = elim (core d node) [
  | none ↦ some []
  | some (p, c) ↦
      let joined = join_texts (text_content fuel d) c.children in
      if c.node_type == text_node then some c.text_content else joined
]
