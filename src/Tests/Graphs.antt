-- ===== src/Tests/Graphs.antt =====
-- Runs of the maps of unified_object_graph/uog.cpp and dom/wrapper_cache.cpp.
use malibu.Common.{[], false, if◌then◌else◌, refl, true, ◌∷◌, ◌≡◌}
use malibu.Dom.Handle.{NodeHandle, handle_eq}
use malibu.Dom.WrapperCache.{WrapperMap, key_of, get_or_create, find_wrapper, create_dom_wrapper}
use malibu.Dom.WrapperCache.Identity.{find_wrapper-get_or_create_frame}
use malibu.ObjectGraph.{NodeEntry, Entries, entry_of, on_listener_registered, write_entry}
use malibu.ObjectGraph.Lookup.{HasKeys, Event, notify, effect, entry_of-notify}

abbrev node : NodeHandle
node = record { index = 1; generation = 0 }

abbrev other : NodeHandle
other = record { index = 2; generation = 0 }

abbrev wrapped : NodeEntry
wrapped = record { wrapper = 7; is_gc_root = false; listeners = [] }

abbrev graph : Entries
graph = (node, wrapped) ∷ []

-- The first listener of a node without a wrapper makes it a root.
roots :
    on_listener_registered graph other 9
    ≡ (node, wrapped) ∷ (other, record { wrapper = 0; is_gc_root = true; listeners = 9 ∷ [] }) ∷ []
unfolding on_listener_registered write_entry
roots = refl

graph-HasKeys : HasKeys graph
unfolding entry_of
graph-HasKeys = (refl, tt)

entry_of-notify_example : entry_of (notify graph (Event.listener_registered node 9)) node ≡ (
    if handle_eq node node
    then effect (Event.listener_registered node 9) (entry_of graph node)
    else entry_of graph node)
entry_of-notify_example =
    entry_of-notify graph (Event.listener_registered node 9) node graph-HasKeys

-- Two nodes of one realm whose wrappers have the same number.
collides : create_dom_wrapper 1 (record { index = 0; generation = 256 }) ≡ create_dom_wrapper 1 node
unfolding create_dom_wrapper
collides = refl

abbrev cache : WrapperMap
cache = (key_of node 1, 77) ∷ (key_of node 2, 78) ∷ []

find_wrapper-get_or_create_frame_example :
    find_wrapper (get_or_create cache other 1).0 (key_of node 1)
    ≡ find_wrapper cache (key_of node 1)
find_wrapper-get_or_create_frame_example =
    find_wrapper-get_or_create_frame cache other 1 (key_of node 1) refl
