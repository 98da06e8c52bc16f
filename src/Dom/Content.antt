-- ===== src/Dom/Content.antt =====
-- `DOMTree` of dom/document.cpp: attributes and text.
pub mod Attribute
use malibu.Common.{
  ==_iff, All, All-append, All-imp, Bool, Bool-cases, Distinct, Distinct-snoc, List, List-cases,
  Option, Option-cases, [], ap, arith, drop, drop-length-append, exists, exists_get_elem?,
  exists_none, false, get_elem?, get_elem?-append_left, get_elem?-append_length, get_elem?-lt,
  get_elem?-set_ne, get_elem?-set_self, get_elem?_lem, get_or, if◌then◌else◌, inl, inr, is_empty,
  keep, leb, leb→le, length, length-append, length-drop, length-keep-le, length-set, listed,
  listed-append, ltb, ltb→lt, lt→ltb, map, map-append_lem, none, not, not-listed, refl, set,
  set-append_length, set-get_elem?, set-set, some, subst, suc, sym, take, take-length-append, tests,
  true, zero, ℕ, ◌%◌, ◌&&◌, ◌*◌, ◌++◌, ◌+◌, ◌-◌, ◌/◌, ◌<◌, ◌==◌, ◌^◌, ◌||◌, ◌↔◌, ◌∙◌, ◌∷◌, ◌≡◌, ◌≢◌,
  ◌≤◌, ◌⊎◌,
}
use malibu.Common.Bytes.{bytes_eq}
use malibu.Dom.Handle.{NodeHandle, null_handle, is_null, handle_eq}
use malibu.Dom.NodeTable.{NodeCore, NodeSlot, NodeTable, NodeState, resolve, state_of, set_state}
use malibu.Dom.Document.{
  Document, create_node, core, update_core, state_in, change_state, element_node, text_node,
  comment_node, document_fragment_node,
}
use malibu.Dom.Attributes.{set_attr, get_attr}
use malibu.Dom.Creation.{update_handle, create_text_node}
use malibu.Dom.DomTree.{
  DomError, append_child, update_connected_state, for_each, with_ok, ignore_error,
}

-- The guards of the mutations on one node.
abbrev pub guard_state : NodeState → DomError
guard_state NodeState.dead = DomError.not_found
guard_state NodeState.pending_destroy = DomError.invalid_state
guard_state _ = DomError.ok

unfoldable pub set_attribute : Document → NodeHandle → List ℕ → List ℕ → Document × DomError
unfolding core set_attr
set_attribute d node name value = elim (guard_state (state_in d node)) [
  | DomError.ok ↦ elim (core d node) [
    | none ↦ (d, DomError.not_found)
    | some (p, c) ↦ (
      update_core d p (λ c'. record c' { attributes = set_attr name value c'.attributes }),
      DomError.ok,
    )
  ]
  | e ↦ (d, e)
]

unfoldable pub get_attribute : Document → NodeHandle → List ℕ → Option (List ℕ)
unfolding core get_attr
get_attribute d node name = elim (core d node) [
  | none ↦ none
  | some (p, c) ↦ get_attr name c.attributes
]

abbrev pub orphan : Document → NodeHandle → Option Document
orphan d h = some (update_handle d h (λ c. record c { parent = null_handle }))

-- Replace all children of a node with one text node.
unfoldable pub replace_children :
    ℕ → Document → NodeHandle → ℕ → NodeCore → List ℕ → Option (Document × DomError)
unfolding create_text_node append_child update_connected_state for_each core
replace_children fuel d node p c text =
    elim (for_each (update_connected_state fuel false) c.children d) [
      | none ↦ none
      | some d1 ↦ elim (for_each orphan c.children d1) [
        | none ↦ none
        | some d2 ↦
            let (d3, tn) =
              create_text_node (update_core d2 p (λ c'. record c' { children = [] })) text in
            with_ok (ignore_error (append_child fuel d3 node tn))
      ]
    ]

unfoldable pub set_text_content : ℕ → Document → NodeHandle → List ℕ → Option (Document × DomError)
unfolding core replace_children
set_text_content fuel d node text = elim (guard_state (state_in d node)) [
  | DomError.ok ↦ elim (core d node) [
    | none ↦ some (d, DomError.not_found)
    | some (p, c) ↦
        if (c.node_type == text_node) || (c.node_type == comment_node)
        then some (update_core d p (λ c'. record c' { text_content = text }), DomError.ok)
        else replace_children fuel d node p c text
  ]
  | e ↦ some (d, e)
]
