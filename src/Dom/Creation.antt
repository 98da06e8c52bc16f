-- ===== src/Dom/Creation.antt =====
-- `DOMTree` of dom/document.cpp: how nodes are made, and the two reads that the mutations use.
-- `char` is signed, as on x86, which `widen` shows.
use malibu.Common.{List, [], if◌then◌else◌, leb, ltb, map, none, some, ℕ, ◌%◌, ◌&&◌, ◌+◌}
use malibu.Dom.Handle.{NodeHandle, null_handle}
use malibu.Dom.NodeTable.{NodeCore, NodeState}
use malibu.Dom.Document.{
  Document, create_node, core, update_core, change_state, element_node, text_node,
  document_fragment_node,
}

-- `narrow`, `to_lower` and `widen`, on one unit: the low byte, in lower case, sign-extended.
abbrev pub to_lower : ℕ → ℕ
to_lower c = if leb 65 c && leb c 90 then c + 32 else c

abbrev pub widen : ℕ → ℕ
widen c = if ltb c 128 then c else c + 0xFF00

unfoldable pub lower_tag : List ℕ → List ℕ
lower_tag = map (λ u. widen (to_lower (u % 256)))

abbrev pub update_handle : Document → NodeHandle → (NodeCore → NodeCore) → Document
update_handle d h f = elim (core d h) [ none ↦ d | some (p, c) ↦ update_core d p f ]

unfoldable pub create_element : Document → List ℕ → Document × NodeHandle
unfolding lower_tag create_node core change_state
create_element d tag_name =
    let (d1, h) = create_node d element_node in
    (
      change_state (update_handle d1 h (λ c. record c { tag_name = lower_tag tag_name })) h
          NodeState.alive_detached,
      h,
    )

unfoldable pub create_text_node : Document → List ℕ → Document × NodeHandle
unfolding create_node core change_state
create_text_node d text =
    let (d1, h) = create_node d text_node in
    (
      change_state (update_handle d1 h (λ c. record c { text_content = text })) h
          NodeState.alive_detached,
      h,
    )

unfoldable pub create_document_fragment : Document → Document × NodeHandle
unfolding create_node change_state
create_document_fragment d =
    let (d1, h) = create_node d document_fragment_node in
    (change_state d1 h NodeState.alive_detached, h)

unfoldable pub parent_node : Document → NodeHandle → NodeHandle
unfolding core
parent_node d h = elim (core d h) [ none ↦ null_handle | some (p, c) ↦ c.parent ]

unfoldable pub child_nodes : Document → NodeHandle → List NodeHandle
unfolding core
child_nodes d h = elim (core d h) [ none ↦ [] | some (p, c) ↦ c.children ]
