-- ===== src/ObjectGraph/Lookup.antt =====
-- What unified_object_graph/uog.cpp finds under a handle after each of its operations.
use malibu.Common.{
  Bool, Bool-cases, List, Option, [], ap, arith, false, if◌then◌else◌, inl, inr, keep, none, not,
  refl, some, sym, true, ◌++◌, ◌==◌, ◌||◌, ◌∙◌, ◌∷◌, ◌≡◌,
}
use malibu.Dom.Handle.{NodeHandle, JsObjectHandle, handle_eq, handle_eq_iff}
use malibu.ObjectGraph.{
  NodeEntry, Entries, fresh_entry, entry_of, write_entry, update_entry, erase_entry, wrap, listen,
  unlisten, unwrap, on_wrapper_created, on_listener_registered, on_listener_removed,
  on_wrapper_collected, on_node_destroyed,
}

-- No key stands in the map twice.
abbrev pub HasKeys : Entries → Type 0
HasKeys [] = Unit
HasKeys ((k, e) ∷ es) = (entry_of es k ≡ none) × HasKeys es

abbrev pub or_fresh : Option NodeEntry → NodeEntry
or_fresh none = fresh_entry
or_fresh (some e) = e

abbrev pub mapped : (NodeEntry → NodeEntry) → Option NodeEntry → Option NodeEntry
mapped f none = none
mapped f (some e) = some (f e)

same_key : (k h g : NodeHandle) → handle_eq k h ≡ true → handle_eq k g ≡ handle_eq h g
same_key k h g e = ap (λ (x : NodeHandle). handle_eq x g) ((handle_eq_iff k h).0 e)

apart : (k h g : NodeHandle) → handle_eq k h ≡ false → handle_eq k g ≡ true → handle_eq h g ≡ false
apart k h g a b = ground arith

entry_of-same :
    (es : Entries) (k h : NodeHandle) → handle_eq k h ≡ true → entry_of es k ≡ entry_of es h
entry_of-same es k h e = ap (entry_of es) ((handle_eq_iff k h).0 e)

pub entry_of-write_entry :
    (f : NodeEntry → NodeEntry) (es : Entries) (h g : NodeHandle)
    → entry_of (write_entry f es h) g
      ≡ (if handle_eq h g then some (f (or_fresh (entry_of es h))) else entry_of es g)
unfolding entry_of write_entry
entry_of-write_entry f [] h g = refl
entry_of-write_entry f ((k, e) ∷ es) h g = elim (Bool-cases (handle_eq k h)) [
  | inl a ↦ rw a (elim (Bool-cases (handle_eq h g)) [
    | inl b ↦ rw (same_key k h g a, b) refl
    | inr b ↦ rw (same_key k h g a, b) refl
  ])
  | inr a ↦ rw a (elim (Bool-cases (handle_eq k g)) [
    | inl b ↦ let n : handle_eq h g ≡ false = apart k h g a b in rw (b, n) refl
    | inr b ↦ rw b (entry_of-write_entry f es h g)
  ])
]

pub entry_of-update_entry :
    (f : NodeEntry → NodeEntry) (es : Entries) (h g : NodeHandle)
    → entry_of (update_entry f es h) g
      ≡ (if handle_eq h g then mapped f (entry_of es h) else entry_of es g)
unfolding entry_of update_entry
entry_of-update_entry f [] h g = elim (Bool-cases (handle_eq h g)) [
  | inl b ↦ rw b refl
  | inr b ↦ rw b refl
]
entry_of-update_entry f ((k, e) ∷ es) h g = elim (Bool-cases (handle_eq k h)) [
  | inl a ↦ rw a (elim (Bool-cases (handle_eq h g)) [
    | inl b ↦ rw (same_key k h g a, b) refl
    | inr b ↦ rw (same_key k h g a, b) refl
  ])
  | inr a ↦ rw a (elim (Bool-cases (handle_eq k g)) [
    | inl b ↦ let n : handle_eq h g ≡ false = apart k h g a b in rw (b, n) refl
    | inr b ↦ rw b (entry_of-update_entry f es h g)
  ])
]

pub entry_of-erase_entry :
    (es : Entries) (h g : NodeHandle)
    → HasKeys es
    → entry_of (erase_entry es h) g ≡ (if handle_eq h g then none else entry_of es g)
unfolding entry_of erase_entry
entry_of-erase_entry [] h g v = elim (Bool-cases (handle_eq h g)) [
  | inl b ↦ rw b refl
  | inr b ↦ rw b refl
]
entry_of-erase_entry ((k, e) ∷ es) h g v = elim (Bool-cases (handle_eq k h)) [
  | inl a ↦ rw a (elim (Bool-cases (handle_eq h g)) [
    | inl b ↦ rw b (sym (entry_of-same es k g (same_key k h g a ∙ b)) ∙ v.0)
    | inr b ↦ rw (b, same_key k h g a, b) refl
  ])
  | inr a ↦ rw a (elim (Bool-cases (handle_eq k g)) [
    | inl b ↦ let n : handle_eq h g ≡ false = apart k h g a b in rw (b, n) refl
    | inr b ↦ rw b (entry_of-erase_entry es h g v.1)
  ])
]

-- The notifications, and what they mean for the entry of their node.
pub data Event : Type 0 where
  wrapper_created listener_registered listener_removed : NodeHandle → JsObjectHandle → Event
  wrapper_collected node_destroyed : NodeHandle → Event

unfoldable pub notify : Entries → Event → Entries
notify es (Event.wrapper_created h o) = on_wrapper_created es h o
notify es (Event.listener_registered h o) = on_listener_registered es h o
notify es (Event.listener_removed h o) = on_listener_removed es h o
notify es (Event.wrapper_collected h) = on_wrapper_collected es h
notify es (Event.node_destroyed h) = on_node_destroyed es h

abbrev pub node_of : Event → NodeHandle
node_of (Event.wrapper_created h o) = h
node_of (Event.listener_registered h o) = h
node_of (Event.listener_removed h o) = h
node_of (Event.wrapper_collected h) = h
node_of (Event.node_destroyed h) = h

-- The fields of an entry that there may not be.
abbrev pub wrapper_of : Option NodeEntry → JsObjectHandle
wrapper_of none = 0
wrapper_of (some e) = e.wrapper

abbrev pub root_of : Option NodeEntry → Bool
root_of none = false
root_of (some e) = e.is_gc_root

abbrev pub listeners_of : Option NodeEntry → List JsObjectHandle
listeners_of none = []
listeners_of (some e) = e.listeners

-- The listeners but for every occurrence of one of them.
abbrev pub without : JsObjectHandle → List JsObjectHandle → List JsObjectHandle
without o [] = []
without o (l ∷ ls) = if l == o then without o ls else l ∷ without o ls

-- What is to be found under a node after a notification, on what was found before.
abbrev pub effect : Event → Option NodeEntry → Option NodeEntry
effect (Event.wrapper_created h o) e =
    some (record { wrapper = o; is_gc_root = false; listeners = listeners_of e })
effect (Event.listener_registered h o) e = some (record {
  wrapper = wrapper_of e;
  is_gc_root = if wrapper_of e == 0 then true else root_of e;
  listeners = listeners_of e ++ o ∷ [];
})
effect (Event.listener_removed h o) none = none
effect (Event.listener_removed h o) (some e) =
    some
      (record { wrapper = e.wrapper; is_gc_root = e.is_gc_root; listeners = without o e.listeners })
effect (Event.wrapper_collected h) none = none
effect (Event.wrapper_collected h) (some e) =
    some (record { wrapper = 0; is_gc_root = e.is_gc_root; listeners = e.listeners })
effect (Event.node_destroyed h) e = none

keep-without :
    (o : JsObjectHandle) (ls : List JsObjectHandle)
    → keep (λ (l : JsObjectHandle). not (l == o)) ls ≡ without o ls
keep-without o [] = refl
keep-without o (l ∷ ls) = elim (Bool-cases (l == o)) [
  | inl e ↦ rw e (keep-without o ls)
  | inr e ↦ rw e (ap (◌∷◌ l) (keep-without o ls))
]

root_or : (b r : Bool) → (r || b) ≡ (if b then true else r)
root_or true true = refl
root_or true false = refl
root_or false true = refl
root_or false false = refl

effect-wrap :
    (o : JsObjectHandle) (h : NodeHandle) (e : Option NodeEntry)
    → some (wrap o (or_fresh e)) ≡ effect (Event.wrapper_created h o) e
effect-wrap o h none = refl
effect-wrap o h (some e) = refl

effect-listen :
    (o : JsObjectHandle) (h : NodeHandle) (e : Option NodeEntry)
    → some (listen o (or_fresh e)) ≡ effect (Event.listener_registered h o) e
effect-listen o h none = refl
effect-listen o h (some e) =
    ap
      (λ (b : Bool).
        some (record { wrapper = e.wrapper; is_gc_root = b; listeners = e.listeners ++ o ∷ [] }))
      (root_or (e.wrapper == 0) e.is_gc_root)

effect-unlisten :
    (o : JsObjectHandle) (h : NodeHandle) (e : Option NodeEntry)
    → mapped (unlisten o) e ≡ effect (Event.listener_removed h o) e
effect-unlisten o h none = refl
effect-unlisten o h (some e) =
    ap
      (λ (ls : List JsObjectHandle).
        some (record { wrapper = e.wrapper; is_gc_root = e.is_gc_root; listeners = ls }))
      (keep-without o e.listeners)

effect-unwrap :
    (h : NodeHandle) (e : Option NodeEntry) → mapped unwrap e ≡ effect (Event.wrapper_collected h) e
effect-unwrap h none = refl
effect-unwrap h (some e) = refl

-- What is found under `g`, if `g` is the node and otherwise.
at_node :
    (b : Bool) (x y z : Option NodeEntry) → x ≡ y → (if b then x else z) ≡ (if b then y else z)
at_node b x y z e = ap (λ (w : Option NodeEntry). if b then w else z) e

-- In a map in which no key stands twice, a notification changes the entry of its node as `effect`
-- says, and the entry of no other node: a wrapper that is created is written, with the root flag off;
-- a listener that is registered goes behind the others, and sets the root flag if there is no
-- wrapper; both make the entry if there is none. A listener that is removed is gone wherever it stood,
-- a wrapper that is collected becomes null, and the entry of a destroyed node is gone.
pub entry_of-notify :
    (es : Entries) (ev : Event) (g : NodeHandle)
    → HasKeys es
    → entry_of (notify es ev) g
      ≡ (if handle_eq (node_of ev) g then effect ev (entry_of es (node_of ev)) else entry_of es g)
unfolding on_wrapper_created on_listener_registered on_listener_removed on_wrapper_collected
    on_node_destroyed notify
entry_of-notify es (Event.wrapper_created h o) g v =
    entry_of-write_entry (wrap o) es h g
    ∙ at_node (handle_eq h g) _ _ (entry_of es g) (effect-wrap o h (entry_of es h))
entry_of-notify es (Event.listener_registered h o) g v =
    entry_of-write_entry (listen o) es h g
    ∙ at_node (handle_eq h g) _ _ (entry_of es g) (effect-listen o h (entry_of es h))
entry_of-notify es (Event.listener_removed h o) g v =
    entry_of-update_entry (unlisten o) es h g
    ∙ at_node (handle_eq h g) _ _ (entry_of es g) (effect-unlisten o h (entry_of es h))
entry_of-notify es (Event.wrapper_collected h) g v =
    entry_of-update_entry unwrap es h g
    ∙ at_node (handle_eq h g) _ _ (entry_of es g) (effect-unwrap h (entry_of es h))
entry_of-notify es (Event.node_destroyed h) g v = entry_of-erase_entry es h g v
