-- ===== src/Dom/NodeTable.antt =====
-- core/include/malibu/dom/node_table.h and dom/node_table.cpp: the slab of node slots.
--
-- A `NodeCore*` is the position of the core in the document's list of cores, which never shrinks
-- (`Document::cores_` owns them). The back of `free_list_` is the head of the list. The mutex makes
-- every operation one step; log lines are left out. The children state what the operations keep.
pub mod Invariant
pub mod Slots
pub mod Reuse
pub mod Alloc
pub mod Stale
pub mod Release
use malibu.Common.{
  ℕ, ◌+◌, ◌-◌, ◌%◌, ◌<◌, Bool, true, false, not, ◌||◌, ◌&&◌, Option, none, some, List, [], ◌∷◌,
  ◌++◌, length, get_elem?, set, ltb, leb, ◌==◌, if◌then◌else◌,
}
use malibu.Dom.Handle.{NodeHandle, is_null, word_size, JsObjectHandle}

pub data NodeState : Type 0 where
  alive_connected alive_detached pending_destroy dead : NodeState

abbrev pub is_dead : NodeState → Bool
is_dead NodeState.dead = true
is_dead _ = false

pub record NodeSlot : Type 0 where
  pub generation : ℕ
  pub state : NodeState
  pub pin_count : ℕ
  pub node_type : ℕ
  pub node : Option ℕ

-- Text is a list of UTF-16 code units. The style and layout pointers belong to other engines and
-- are left out, and so are the three flags of pointer interaction.
pub record NodeCore : Type 0 where
  pub handle : NodeHandle
  pub node_type : ℕ
  pub parent : NodeHandle
  pub children : List NodeHandle
  pub tag_name : List ℕ
  pub attributes : List (List ℕ × List ℕ)
  pub text_content : List ℕ
  pub wrapper : JsObjectHandle

pub record NodeTable : Type 0 where
  pub slots : List NodeSlot
  pub free_list : List ℕ

abbrev pub empty_table : NodeTable
empty_table = record { slots = []; free_list = [] }

-- What `emplace_back()` appends: a slot with every field zero.
abbrev pub fresh_slot : NodeSlot
fresh_slot = record {
  generation = 0;
  state = NodeState.alive_connected;
  pin_count = 0;
  node_type = 0;
  node = none;
}

abbrev pub write_slot : NodeTable → ℕ → NodeSlot → NodeTable
write_slot t i s = record t { slots = set t.slots i s }

-- The first branch of `alloc`: reuse the last index of the free list under the next generation, or
-- append a slot.
abbrev pub bump : NodeSlot → NodeSlot
bump s = record s { generation = (s.generation + 1) % word_size }

abbrev pub reuse_index : NodeTable → List ℕ → NodeTable × ℕ
reuse_index t (i ∷ rest) = elim (get_elem? t.slots i) [
  | none ↦ (record t { free_list = rest }, i)
  | some s ↦ (record t { free_list = rest; slots = set t.slots i (bump s) }, i)
]
reuse_index t [] = (record t { slots = t.slots ++ fresh_slot ∷ [] }, length t.slots % word_size)

abbrev pub core_at : List NodeCore → Option ℕ → Option NodeCore
core_at cores none = none
core_at cores (some p) = get_elem? cores p

-- `node ? node->node_type : 0`.
abbrev pub type_of_node : Option NodeCore → ℕ
type_of_node none = 0
type_of_node (some c) = c.node_type

-- `if (node) node->handle = h`.
abbrev pub write_handle : List NodeCore → Option ℕ → NodeHandle → List NodeCore
write_handle cores none h = cores
write_handle cores (some p) h = elim (get_elem? cores p) [
  | none ↦ cores
  | some c ↦ set cores p (record c { handle = h })
]

abbrev pub occupy : NodeSlot → List NodeCore → Option ℕ → NodeSlot
occupy s cores node = record {
  generation = s.generation;
  state = NodeState.alive_connected;
  pin_count = 0;
  node_type = type_of_node (core_at cores node);
  node = node;
}

abbrev pub handle_of : ℕ → NodeSlot → NodeHandle
handle_of i s = record { index = i; generation = s.generation }

-- The rest of `alloc`, on the slot that was chosen. A slot that is not there cannot be chosen in a
-- valid table; `none` keeps the definition total.
abbrev pub alloc_at :
    NodeTable
    → ℕ
    → Option NodeSlot
    → List NodeCore
    → Option ℕ
    → NodeTable × List NodeCore × NodeHandle
alloc_at t i none cores _ = (t, cores, record { index = i; generation = 0 })
alloc_at t i (some s) cores node =
    (write_slot t i (occupy s cores node), write_handle cores node (handle_of i s), handle_of i s)

unfoldable pub alloc : NodeTable → List NodeCore → Option ℕ → NodeTable × List NodeCore × NodeHandle
alloc t cores node =
    let (t', i) = reuse_index t t.free_list in alloc_at t' i (get_elem? t'.slots i) cores node

-- The guards that every operation on a handle begins with: null, out of range, and a generation
-- other than the slot's are refused.
abbrev pub current : NodeHandle → Option NodeSlot → Option NodeSlot
current h none = none
current h (some s) = if s.generation == h.generation then some s else none

unfoldable pub slot_of : NodeTable → NodeHandle → Option NodeSlot
slot_of t h =
    if is_null h || leb (length t.slots) h.index
    then none
    else current h (get_elem? t.slots h.index)

unfoldable pub free : NodeTable → NodeHandle → NodeTable
free t h = elim (slot_of t h) [
  | none ↦ t
  | some s ↦ if ltb 0 s.pin_count then t else record {
    slots = set t.slots h.index (record s { node = none; state = NodeState.dead; node_type = 0 });
    free_list = h.index ∷ t.free_list;
  }
]

unfoldable pub resolve : NodeTable → NodeHandle → Option NodeSlot
resolve t h = elim (slot_of t h) [ none ↦ none | some s ↦ if is_dead s.state then none else some s ]

-- `pin_count` is a byte and wraps.
unfoldable pub pin : NodeTable → NodeHandle → NodeTable
pin t h = elim (slot_of t h) [
  | none ↦ t
  | some s ↦
      if not (is_dead s.state)
      then write_slot t h.index (record s { pin_count = (s.pin_count + 1) % 256 })
      else t
]

unfoldable pub unpin : NodeTable → NodeHandle → NodeTable
unpin t h = elim (slot_of t h) [
  | none ↦ t
  | some s ↦
      if not (is_dead s.state) && ltb 0 s.pin_count
      then write_slot t h.index (record s { pin_count = s.pin_count - 1 })
      else t
]

unfoldable pub state_of : NodeTable → NodeHandle → NodeState
state_of t h = elim (slot_of t h) [ none ↦ NodeState.dead | some s ↦ s.state ]

unfoldable pub set_state : NodeTable → NodeHandle → NodeState → NodeTable
set_state t h st = elim (slot_of t h) [
  | none ↦ t
  | some s ↦ if not (is_dead s.state) then write_slot t h.index (record s { state = st }) else t
]
