-- ===== src/Dom/NodeTable/Release.antt =====
-- Pins and `free` in dom/node_table.cpp: a pinned node is not freed, and `free` twice.
use malibu.Common.{
  List, Option, Option-cases, ap, arith, false, get_elem?, get_elem?-lt, get_elem?-set_self, inl,
  inr, ltb, none, not, refl, set, set-get_elem?, set-set, some, true, ℕ, ◌%◌, ◌&&◌, ◌+◌, ◌-◌, ◌<◌,
  ◌∙◌, ◌∷◌, ◌≡◌, ◌≢◌,
}
use malibu.Dom.Handle.{NodeHandle}
use malibu.Dom.NodeTable.{
  NodeSlot, NodeState, NodeCore, NodeTable, slot_of, is_dead, write_slot, alloc, free, pin, unpin,
  bump, resolve, occupy, handle_of,
}
use malibu.Dom.NodeTable.Slots.{slot_of-eq_some, slot_of_intro}
use malibu.Dom.NodeTable.Reuse.{alloc-reuse}
use malibu.Dom.NodeTable.Alloc.{resolve-eq_some}

module _ (t : NodeTable) (h : NodeHandle) (s : NodeSlot) (found : resolve t h ≡ some s) where
  pinned : NodeSlot
  pinned = record s { pin_count = (s.pin_count + 1) % 256 }

  pub pin_eq : pin t h ≡ write_slot t h.index (record s { pin_count = (s.pin_count + 1) % 256 })
  unfolding pin
  pin_eq = let (c, live) = resolve-eq_some t h s found in rw (c, live, pin)

  slot_of-pin : slot_of (pin t h) h ≡ some (record s { pin_count = (s.pin_count + 1) % 256 })
  slot_of-pin =
      let (c, live) = resolve-eq_some t h s found in
      let (g, gen, nn) = slot_of-eq_some t h s c in
      rw pin_eq (
        slot_of_intro _ h _
          (get_elem?-set_self t.slots h.index _ (get_elem?-lt t.slots h.index s g)) gen nn)

  -- A live node that is pinned, with fewer than 255 pins before, is not freed: the call changes
  -- nothing.
  pub free-pin : s.pin_count < 255 → free (pin t h) h ≡ pin t h
  unfolding free
  free-pin b =
      let pos : ltb 0 ((s.pin_count + 1) % 256) ≡ true = ground arith in rw (slot_of-pin, pos, free)

  -- On a live node with fewer than 255 pins, a pin undone by an unpin leaves the table as it was.
  pub unpin-pin : s.pin_count < 255 → unpin (pin t h) h ≡ t
  unfolding unpin
  unpin-pin b =
      let (c, live) = resolve-eq_some t h s found in
      let (g, gen, nn) = slot_of-eq_some t h s c in
      let test : (not (is_dead s.state) && ltb 0 ((s.pin_count + 1) % 256)) ≡ true = ground arith in
      let back : (s.pin_count + 1) % 256 - 1 ≡ s.pin_count = omega arith in
      rw (slot_of-pin, unpin, test, back, pin_eq)
        (ap (λ (l : List NodeSlot). record t { slots = l })
          (set-set t.slots h.index _ s ∙ set-get_elem? t.slots h.index s g))

abbrev dying : NodeSlot → NodeSlot
dying s = record s { node = none; state = NodeState.dead; node_type = 0 }

abbrev freed : NodeTable → NodeHandle → NodeSlot → NodeTable
freed t h s = record { slots = set t.slots h.index (dying s); free_list = h.index ∷ t.free_list }

-- On a current slot with no pins `free` always takes effect, dead or not.
free_eq :
    (t : NodeTable) (h : NodeHandle) (s : NodeSlot)
    → slot_of t h ≡ some s
    → s.pin_count ≡ 0
    → free t h ≡ freed t h s
unfolding free
free_eq t h s e z =
    let unpinned : ltb 0 s.pin_count ≡ false = ground arith in rw (e, unpinned, free)

slot_of-freed :
    (t : NodeTable) (h : NodeHandle) (s : NodeSlot)
    → slot_of t h ≡ some s
    → slot_of (freed t h s) h ≡ some (dying s)
slot_of-freed t h s e =
    let (g, gen, nn) = slot_of-eq_some t h s e in
    slot_of_intro _ h _ (get_elem?-set_self t.slots h.index _ (get_elem?-lt t.slots h.index s g))
      gen nn

resolve-freed :
    (t : NodeTable) (h : NodeHandle) (s : NodeSlot)
    → slot_of t h ≡ some s
    → resolve (freed t h s) h ≡ none
unfolding resolve
resolve-freed t h s e = rw (slot_of-freed t h s e, resolve)

module _ (t : NodeTable) (h : NodeHandle) (s : NodeSlot) (found : resolve t h ≡ some s) where
  -- The pin count is a byte: at 255 pins of a live node one more makes it zero, and then the node is
  -- freed although it is pinned: its handle no longer resolves.
  pub free-pin_wrapped : s.pin_count ≡ 255 → resolve (free (pin t h) h) h ≡ none
  free-pin_wrapped b =
      let c = slot_of-pin t h s found in
      rw (free_eq (pin t h) h _ c (omega arith)) (resolve-freed (pin t h) h _ c)

  -- After a live, unpinned handle is freed twice, each of the next two nodes that are allocated gets a
  -- handle with its index, and the handle of the first of them, never freed, no longer resolves.
  pub free-free :
      (cores cores' : List NodeCore) (node node' : Option ℕ)
      → s.pin_count ≡ 0
      → ((alloc (free (free t h) h) cores node).2.index ≡ h.index)
        × ((alloc (alloc (free (free t h) h) cores node).0 cores' node').2.index ≡ h.index)
        × (resolve
              (alloc (alloc (free (free t h) h) cores node).0 cores' node').0
              (alloc (free (free t h) h) cores node).2
            ≡ none)
  free-free cores cores' node node' z =
      let (c, live) = resolve-eq_some t h s found in
      let (g, gen, nn) = slot_of-eq_some t h s c in
      let lt = get_elem?-lt t.slots h.index s g in
      let i = h.index in
      let once = freed t h s in
      let twice = freed once h (dying s) in
      let eq : free (free t h) h ≡ twice =
        rw (free_eq t h s c z) (free_eq once h (dying s) (slot_of-freed t h s c) z) in
      let got : get_elem? twice.slots i ≡ some (dying s) =
        rw (set-set t.slots i (dying s) (dying s)) (get_elem?-set_self t.slots i (dying s) lt) in
      let first = alloc-reuse twice cores node i once.free_list (dying s) got refl in
      let new = occupy (bump (dying s)) cores node in
      let t3 : NodeTable = record { slots = set twice.slots i new; free_list = once.free_list } in
      let got3 : get_elem? t3.slots i ≡ some new =
        get_elem?-set_self twice.slots i new (get_elem?-lt twice.slots i (dying s) got) in
      let second = alloc-reuse t3 cores' node' i t.free_list new got3 refl in
      rw (eq, first, second)
        (refl, refl, overwritten t3 i new (occupy (bump new) cores' node') got3 (omega arith))
    where
      overwritten :
          (u : NodeTable) (i : ℕ) (new newer : NodeSlot)
          → get_elem? u.slots i ≡ some new
          → newer.generation ≢ new.generation
          → resolve
              (record { slots = set u.slots i newer; free_list = t.free_list })
              (handle_of i new)
            ≡ none
      overwritten u i new newer e d =
          elim (Option-cases (
            resolve (record { slots = set u.slots i newer; free_list = t.free_list })
              (handle_of i new))) [
                | inl n ↦ n
                | inr (s', r) ↦
                    let (c, live) = resolve-eq_some _ (handle_of i new) s' r in
                    let (g, gen, nn) = slot_of-eq_some _ (handle_of i new) s' c in
                    let w = get_elem?-set_self u.slots i newer (get_elem?-lt u.slots i new e) in
                    absurd (d (ground arith))
              ]
