-- ===== src/ObjectGraph/Keys.antt =====
-- No operation of unified_object_graph/uog.cpp puts a key into the map of entries twice.
use malibu.Common.{Bool-cases, [], arith, false, inl, inr, refl, ◌∙◌, ◌∷◌, ◌≡◌}
use malibu.Dom.Handle.{NodeHandle, handle_eq}
use malibu.ObjectGraph.{
  NodeEntry, Entries, entry_of, write_entry, update_entry, erase_entry, wrap, listen, unlisten,
  unwrap, on_wrapper_created, on_listener_registered, on_listener_removed, on_wrapper_collected,
  on_node_destroyed,
}
use malibu.ObjectGraph.Lookup.{
  HasKeys, Event, notify, entry_of-write_entry, entry_of-update_entry, entry_of-erase_entry,
}

not_eq : (k h : NodeHandle) → handle_eq k h ≡ false → handle_eq h k ≡ false
not_eq k h e = ground arith

write_entry-HasKeys :
    (f : NodeEntry → NodeEntry) (es : Entries) (h : NodeHandle)
    → HasKeys es
    → HasKeys (write_entry f es h)
unfolding write_entry entry_of
write_entry-HasKeys f [] h v = (refl, tt)
write_entry-HasKeys f ((k, e) ∷ es) h v = elim (Bool-cases (handle_eq k h)) [
  | inl a ↦ rw a v
  | inr a ↦
      rw a (entry_of-write_entry f es h k ∙ rw (not_eq k h a) v.0, write_entry-HasKeys f es h v.1)
]

update_entry-HasKeys :
    (f : NodeEntry → NodeEntry) (es : Entries) (h : NodeHandle)
    → HasKeys es
    → HasKeys (update_entry f es h)
unfolding update_entry
update_entry-HasKeys f [] h v = tt
update_entry-HasKeys f ((k, e) ∷ es) h v = elim (Bool-cases (handle_eq k h)) [
  | inl a ↦ rw a v
  | inr a ↦
      rw a (entry_of-update_entry f es h k ∙ rw (not_eq k h a) v.0, update_entry-HasKeys f es h v.1)
]

erase_entry-HasKeys : (es : Entries) (h : NodeHandle) → HasKeys es → HasKeys (erase_entry es h)
unfolding erase_entry
erase_entry-HasKeys [] h v = tt
erase_entry-HasKeys ((k, e) ∷ es) h v = elim (Bool-cases (handle_eq k h)) [
  | inl a ↦ rw a v.1
  | inr a ↦
      rw a (entry_of-erase_entry es h k v.1 ∙ rw (not_eq k h a) v.0, erase_entry-HasKeys es h v.1)
]

-- No notification puts a key into the map twice.
pub notify-HasKeys : (es : Entries) (ev : Event) → HasKeys es → HasKeys (notify es ev)
unfolding on_wrapper_created on_listener_registered on_listener_removed on_wrapper_collected
    on_node_destroyed notify
notify-HasKeys es (Event.wrapper_created h o) v = write_entry-HasKeys (wrap o) es h v
notify-HasKeys es (Event.listener_registered h o) v = write_entry-HasKeys (listen o) es h v
notify-HasKeys es (Event.listener_removed h o) v = update_entry-HasKeys (unlisten o) es h v
notify-HasKeys es (Event.wrapper_collected h) v = update_entry-HasKeys unwrap es h v
notify-HasKeys es (Event.node_destroyed h) v = erase_entry-HasKeys es h v
