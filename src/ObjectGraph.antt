-- ===== src/ObjectGraph.antt =====
-- core/include/malibu/unified_object_graph/uog.h and unified_object_graph/uog.cpp: the references
-- that cross between the DOM and the script heap.
--
-- The `unordered_map` is an association list without repeated keys, newest first. The mutex makes
-- each operation one step. The two visitor templates have placeholder bodies: what they select is
-- `is_root`, and nothing is visited.
pub mod Lookup
pub mod Keys
use malibu.Common.{
  ==_iff, All, All-append, All-imp, Bool, Bool-cases, Distinct, Distinct-snoc, List, List-cases,
  Option, Option-cases, [], ap, arith, drop, drop-length-append, exists, exists_get_elem?,
  exists_none, false, get_elem?, get_elem?-append_left, get_elem?-append_length, get_elem?-lt,
  get_elem?-set_ne, get_elem?-set_self, get_elem?_lem, get_or, if◌then◌else◌, inl, inr, is_empty,
  keep, leb, leb→le, length, length-append, length-drop, length-keep-le, length-set, listed,
  listed-append, ltb, ltb→lt, lt→ltb, map, map-append_lem, none, not, not-listed, refl, set,
  set-append_length, set-get_elem?, set-set, some, subst, suc, sym, take, take-length-append, tests,
  true, zero, ℕ, ◌%◌, ◌&&◌, ◌*◌, ◌++◌, ◌+◌, ◌-◌, ◌/◌, ◌<◌, ◌==◌, ◌^◌, ◌||◌, ◌↔◌, ◌∙◌, ◌∷◌, ◌≡◌, ◌≢◌,
  ◌≤◌, ◌⊎◌,
}
use malibu.Dom.Handle.{NodeHandle, JsObjectHandle, js_is_null, handle_eq}

pub record NodeEntry : Type 0 where
  pub wrapper : JsObjectHandle
  pub is_gc_root : Bool
  pub listeners : List JsObjectHandle

abbrev pub fresh_entry : NodeEntry
fresh_entry = record { wrapper = 0; is_gc_root = false; listeners = [] }

abbrev pub Entries : Type 0
Entries = List (NodeHandle × NodeEntry)

-- `entries_.find`.
unfoldable pub entry_of : Entries → NodeHandle → Option NodeEntry
entry_of [] h = none
entry_of ((k, e) ∷ es) h = if handle_eq k h then some e else entry_of es h

-- A write through the reference that `entries_[h]` returns, which makes the entry if there is none.
unfoldable pub write_entry : (NodeEntry → NodeEntry) → Entries → NodeHandle → Entries
write_entry f [] h = (h, f fresh_entry) ∷ []
write_entry f ((k, e) ∷ es) h = if handle_eq k h then (k, f e) ∷ es else (k, e) ∷ write_entry f es h

-- A write through the iterator that `find` returns, if it is not the end.
unfoldable pub update_entry : (NodeEntry → NodeEntry) → Entries → NodeHandle → Entries
update_entry f [] h = []
update_entry f ((k, e) ∷ es) h =
    if handle_eq k h then (k, f e) ∷ es else (k, e) ∷ update_entry f es h

-- `entries_.erase(h)`: the entry with the key.
unfoldable pub erase_entry : Entries → NodeHandle → Entries
erase_entry [] h = []
erase_entry ((k, e) ∷ es) h = if handle_eq k h then es else (k, e) ∷ erase_entry es h

abbrev pub wrap : JsObjectHandle → NodeEntry → NodeEntry
wrap wrapper e = record e { wrapper = wrapper; is_gc_root = false }

abbrev pub listen : JsObjectHandle → NodeEntry → NodeEntry
listen fn e = record e {
  listeners = e.listeners ++ fn ∷ [];
  is_gc_root = e.is_gc_root || js_is_null e.wrapper;
}

abbrev pub unlisten : JsObjectHandle → NodeEntry → NodeEntry
unlisten fn e = record e { listeners = keep (λ (l : JsObjectHandle). not (l == fn)) e.listeners }

abbrev pub unwrap : NodeEntry → NodeEntry
unwrap e = record e { wrapper = 0 }

unfoldable pub on_wrapper_created : Entries → NodeHandle → JsObjectHandle → Entries
unfolding write_entry
on_wrapper_created es h wrapper = write_entry (wrap wrapper) es h

unfoldable pub on_listener_registered : Entries → NodeHandle → JsObjectHandle → Entries
unfolding write_entry
on_listener_registered es h fn = write_entry (listen fn) es h

unfoldable pub on_listener_removed : Entries → NodeHandle → JsObjectHandle → Entries
unfolding update_entry
on_listener_removed es h fn = update_entry (unlisten fn) es h

unfoldable pub on_wrapper_collected : Entries → NodeHandle → Entries
unfolding update_entry
on_wrapper_collected es h = update_entry unwrap es h

unfoldable pub on_node_destroyed : Entries → NodeHandle → Entries
unfolding erase_entry
on_node_destroyed es h = erase_entry es h

-- The test of `enumerate_gc_roots`.
unfoldable pub is_root : NodeEntry → Bool
is_root e = js_is_null e.wrapper && (e.is_gc_root || not (is_empty e.listeners))
