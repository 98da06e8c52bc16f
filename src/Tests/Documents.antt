-- ===== src/Tests/Documents.antt =====
-- Runs of the document of dom/document.cpp and of its command buffer.
use malibu.Common.{
  List, [], arith, false, if◌then◌else◌, refl, some, subst, sym, true, ℕ, ◌++◌, ◌∷◌, ◌≡◌,
}
use malibu.Common.Bytes.{bytes_eq}
use malibu.Dom.Handle.{is_null, NodeHandle, null_handle}
use malibu.Dom.NodeTable.{
  NodeCore, NodeSlot, NodeState, NodeTable, fresh_slot, alloc, resolve, slot_of, set_state,
  state_of,
}
use malibu.Dom.Attributes.{set_attr}
use malibu.Dom.Siblings.{siblings, next_sibling, previous_sibling, text_content, join_texts}
use malibu.Dom.Siblings.Order.{AreSiblings, previous_sibling-next_sibling}
use malibu.Dom.Document.{
  text_node, Document, core, change_state, new_document, create_node, new_core, element_node,
  document_node,
}
use malibu.Dom.Creation.{create_element, lower_tag, parent_node, child_nodes}
use malibu.Dom.DomTree.{
  DomError, append_child, insert_node, remove_child, update_connected_state, for_each, walk_meets,
  contains,
}
use malibu.Dom.DomTree.Links.{remove_child-links}
use malibu.Dom.NodeTable
use malibu.Dom.CommandBuffer.{
  DomCommand, DomCommandType, Flushed, flush, flush_loop, apply_command, unpin,
}
use malibu.Dom.CommandBuffer.Errors.{apply_command-error}
use malibu.Dom.CommandBuffer.Flush.{Reports, flush-Reports}
use malibu.Dom.Content.{set_attribute, get_attribute}
use malibu.Dom.Content.Attribute.{get_attribute-set_attribute}

-- A document with an element `div` that stands nowhere yet.
abbrev div : List ℕ
div = 100 ∷ 105 ∷ 118 ∷ []

abbrev made : Document × NodeHandle
made = create_element new_document div

abbrev doc : Document
doc = made.0

abbrev elem : NodeHandle
elem = record { index = 1; generation = 0 }

abbrev elem_core : NodeCore
elem_core = record (new_core element_node) { handle = elem; tag_name = div }

-- The same document, written out, with the element at a place of its own or under the root.
abbrev root : NodeHandle
root = record { index = 0; generation = 0 }

abbrev slot_at : ℕ → ℕ → NodeState → NodeSlot
slot_at p node_type st = record fresh_slot { node = some p; node_type = node_type; state = st }

abbrev root_core : List NodeHandle → NodeCore
root_core children = record (new_core document_node) { handle = root; children = children }

abbrev tree : NodeState → List NodeHandle → NodeHandle → Document
tree st children parent = record {
  table = record {
    slots = slot_at 0 9 NodeState.alive_connected ∷ slot_at 1 1 st ∷ [];
    free_list = [];
  };
  root = root;
  cores = root_core children ∷ record elem_core { parent = parent } ∷ [];
}

abbrev apart : Document
apart = tree NodeState.alive_detached [] null_handle

abbrev joined_doc : Document
joined_doc = tree NodeState.alive_connected (elem ∷ []) root

makes : doc ≡ apart
unfolding core resolve slot_of create_element new_document create_node alloc set_state change_state
    lower_tag
makes = refl

elem_found : core apart elem ≡ some (1, elem_core)
unfolding core resolve slot_of
elem_found = refl

root_found : core apart root ≡ some (0, root_core [])
unfolding core resolve slot_of
root_found = refl

removes : remove_child 3 joined_doc root elem ≡ some (apart, DomError.ok)
unfolding remove_child update_connected_state for_each core resolve slot_of state_of set_state
    change_state
removes = refl

-- A node is refused as a child of itself.
refuses : append_child 3 apart elem elem ≡ some (apart, DomError.hierarchy_request)
unfolding append_child insert_node for_each walk_meets core resolve slot_of state_of
refuses = refl

remove_child-links_example :
    (parent_node apart elem ≡ null_handle)
    × ((before : List NodeHandle) × (after : List NodeHandle) × (child_nodes joined_doc root
          ≡ before ++ elem ∷ after)
        × (contains elem before ≡ false)
        × (child_nodes apart root ≡ before ++ after))
remove_child-links_example = remove_child-links 3 joined_doc root elem apart removes

-- A node that is connected already.
updates : update_connected_state 3 true joined_doc elem ≡ some joined_doc
unfolding update_connected_state for_each core resolve slot_of state_of set_state change_state
updates = refl

abbrev cls : List ℕ
cls = 99 ∷ []

abbrev styled : Document
styled = record apart {
  cores = root_core [] ∷ record elem_core { attributes = (cls, div) ∷ [] } ∷ [];
}

sets : set_attribute apart elem cls div ≡ (styled, DomError.ok)
unfolding set_attribute core set_attr resolve slot_of state_of
sets = refl

get_attribute-set_attribute_example :
    get_attribute styled elem cls
    ≡ (if bytes_eq cls cls then some div else get_attribute apart elem cls)
get_attribute-set_attribute_example =
    get_attribute-set_attribute apart elem cls div cls styled 1 elem_core elem_found tt sets

-- A queue that sets an attribute and then appends a node to itself.
abbrev good : DomCommand
good = record {
  type = DomCommandType.set_attribute;
  target = elem;
  key = cls;
  value = div;
  arg_node = null_handle;
}

abbrev bad : DomCommand
bad = record {
  type = DomCommandType.append_child;
  target = elem;
  key = [];
  value = [];
  arg_node = elem;
}

abbrev flushed : Flushed
flushed = record {
  state = record { doc = styled; commands = bad ∷ [] };
  result = record { success = false; applied_count = 1; first_failed_index = 1; error_code = 3 };
  dirty = elem ∷ [];
}

flushes : flush 3 (record { doc = apart; commands = good ∷ bad ∷ [] }) ≡ some flushed
unfolding flush flush_loop apply_command unpin NodeTable.unpin append_child insert_node for_each
    walk_meets set_attribute core set_attr resolve slot_of state_of
flushes = refl

flush-Reports_example : Reports 3 apart (good ∷ bad ∷ []) 0 [] flushed
flush-Reports_example =
    flush-Reports 3 (record { doc = apart; commands = good ∷ bad ∷ [] }) flushed (omega arith)
      flushes

-- A node cannot be its own child.
own_child : apply_command 3 apart bad.type bad ≡ some (apart, DomError.hierarchy_request)
unfolding apply_command append_child insert_node walk_meets core resolve slot_of state_of
own_child = refl

apply_command-error_example : apart ≡ apart
apply_command-error_example =
    apply_command-error 3 apart apart bad DomError.hierarchy_request own_child refl

-- A root with two elements.
abbrev second : NodeHandle
second = record { index = 2; generation = 0 }

abbrev pair : Document
pair = record {
  table = record {
    slots =
        slot_at 0 9 NodeState.alive_connected
        ∷ slot_at 1 1 NodeState.alive_connected
        ∷ slot_at 2 3 NodeState.alive_connected
        ∷ [];
    free_list = [];
  };
  root = root;
  cores =
      root_core (elem ∷ second ∷ [])
      ∷ record elem_core { parent = root }
      ∷ record (new_core text_node) { handle = second; parent = root; text_content = div }
      ∷ [];
}

reads_text : text_content 3 pair root ≡ some div
unfolding text_content join_texts core resolve slot_of
reads_text = refl

pair-siblings : siblings pair elem ≡ elem ∷ second ∷ []
unfolding core resolve slot_of
pair-siblings = refl

pair_next : next_sibling pair elem ≡ second
unfolding next_sibling core resolve slot_of
pair_next = refl

second_siblings : siblings pair (next_sibling pair elem) ≡ siblings pair elem
unfolding next_sibling core resolve slot_of
second_siblings = refl

second_there : is_null (next_sibling pair elem) ≡ false
unfolding next_sibling core resolve slot_of
second_there = refl

previous_sibling-next_sibling_example : previous_sibling pair (next_sibling pair elem) ≡ elem
previous_sibling-next_sibling_example =
    previous_sibling-next_sibling pair elem
      (subst AreSiblings (sym pair-siblings) (refl, refl, (refl, refl, tt))) second_there
      second_siblings
