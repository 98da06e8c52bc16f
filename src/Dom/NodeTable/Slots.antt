-- ===== src/Dom/NodeTable/Slots.antt =====
-- What the guards of dom/node_table.cpp read, and where the operations write.
use malibu.Common.{◌≡◌, false, none, some, get_elem?, get_elem?-lt, arith}
use malibu.Dom.Handle.{NodeHandle, is_null}
use malibu.Dom.NodeTable.{NodeSlot, NodeTable, slot_of}

-- A handle that passes the guards names a slot of the table, under the slot's generation.
pub slot_of-eq_some :
    (t : NodeTable) (h : NodeHandle) (s : NodeSlot)
    → slot_of t h ≡ some s
    → (get_elem? t.slots h.index ≡ some s) × (s.generation ≡ h.generation) × (is_null h ≡ false)
unfolding slot_of
slot_of-eq_some t h s e = ground arith

pub slot_of_intro :
    (t : NodeTable) (h : NodeHandle) (s : NodeSlot)
    → get_elem? t.slots h.index ≡ some s
    → s.generation ≡ h.generation
    → is_null h ≡ false
    → slot_of t h ≡ some s
unfolding slot_of
slot_of_intro t h s e g n = ground (arith, get_elem?-lt t.slots h.index s e)

pub slot_of_length_le :
    (t : NodeTable) (h : NodeHandle) → get_elem? t.slots h.index ≡ none → slot_of t h ≡ none
unfolding slot_of
slot_of_length_le t h e = ground arith
