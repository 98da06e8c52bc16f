-- ===== src/Dom/Document.antt =====
-- `Document` of core/include/malibu/dom/document.h and dom/document.cpp: the slab with the cores that
-- its slots point to. A core's address is its position in `cores`, which only grows.
use malibu.Common.{List, Option, [], get_elem?, length, none, set, some, ℕ, ◌++◌, ◌∷◌}
use malibu.Dom.Handle.{NodeHandle, null_handle}
use malibu.Dom.NodeTable.{
  NodeCore, NodeTable, NodeState, empty_table, alloc, resolve, state_of, set_state,
}

-- DOM node type codes.
abbrev pub element_node : ℕ
element_node = 1

abbrev pub text_node : ℕ
text_node = 3

abbrev pub comment_node : ℕ
comment_node = 8

abbrev pub document_node : ℕ
document_node = 9

abbrev pub document_fragment_node : ℕ
document_fragment_node = 11

pub record Document : Type 0 where
  pub table : NodeTable
  pub root : NodeHandle
  pub cores : List NodeCore

-- A `NodeCore` with its default member values and the node type that `create_node` sets.
abbrev pub new_core : ℕ → NodeCore
new_core node_type = record {
  handle = record { index = 0; generation = 0 };
  node_type = node_type;
  parent = null_handle;
  children = [];
  tag_name = [];
  attributes = [];
  text_content = [];
  wrapper = 0;
}

unfoldable pub create_node : Document → ℕ → Document × NodeHandle
create_node d node_type =
    let grown = d.cores ++ new_core node_type ∷ [] in
    let (table, cores, h) = alloc d.table grown (some (length d.cores)) in
    (record d { table = table; cores = cores }, h)

-- The constructor of `Document`.
unfoldable pub new_document : Document
unfolding create_node alloc set_state
new_document =
    let bare : Document = record { table = empty_table; root = null_handle; cores = [] } in
    let (d, h) = create_node bare document_node in
    record d { root = h; table = set_state d.table h NodeState.alive_connected }

-- `core(h)`: the address and the core, or `none` for `nullptr`.
abbrev pub core_in : List NodeCore → Option ℕ → Option (ℕ × NodeCore)
core_in cores none = none
core_in cores (some p) = elim (get_elem? cores p) [ none ↦ none | some c ↦ some (p, c) ]

unfoldable pub core : Document → NodeHandle → Option (ℕ × NodeCore)
core d h = elim (resolve d.table h) [ none ↦ none | some s ↦ core_in d.cores s.node ]

-- A write through a `NodeCore*`.
abbrev pub update_core : Document → ℕ → (NodeCore → NodeCore) → Document
update_core d p f = elim (get_elem? d.cores p) [
  | none ↦ d
  | some c ↦ record d { cores = set d.cores p (f c) }
]

abbrev pub state_in : Document → NodeHandle → NodeState
state_in d h = state_of d.table h

unfoldable pub change_state : Document → NodeHandle → NodeState → Document
change_state d h st = record d { table = set_state d.table h st }
