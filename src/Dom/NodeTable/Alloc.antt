-- ===== src/Dom/NodeTable/Alloc.antt =====
-- The contract of `NodeTable::alloc` in dom/node_table.cpp.
use malibu.Common.{
  All, Distinct, List, Option, [], arith, false, get_elem?, get_elem?-append_left,
  get_elem?-append_length, get_elem?-lt, get_elem?-set_ne, get_elem?-set_self, inl, inr, length,
  listed, refl, set, some, subst, suc, true, zero, ℕ, ◌++◌, ◌∙◌, ◌∷◌, ◌≡◌, ◌≢◌,
}
use malibu.Dom.Handle.{NodeHandle}
use malibu.Dom.NodeTable.{
  NodeSlot, NodeState, NodeCore, NodeTable, slot_of, is_dead, alloc, fresh_slot, bump, resolve,
  occupy, handle_of, type_of_node, core_at,
}
use malibu.Dom.NodeTable.Slots.{slot_of-eq_some, slot_of_intro}
use malibu.Dom.NodeTable.Invariant.{IsValid, dead_at}
use malibu.Dom.NodeTable.Reuse.{HasRoom, alloc_cases}

dead_at-append :
    (slots : List NodeSlot) (s : NodeSlot) (i : ℕ)
    → dead_at slots i ≡ true
    → dead_at (slots ++ s ∷ []) i ≡ true
dead_at-append [] s i h = absurd (ground arith)
dead_at-append (x ∷ xs) s zero h = h
dead_at-append (x ∷ xs) s (suc i) h = dead_at-append xs s i h

All-dead-set :
    (slots : List NodeSlot) (i : ℕ) (s : NodeSlot) (js : List ℕ)
    → listed i js ≡ false
    → All (λ j. dead_at slots j ≡ true) js
    → All (λ j. dead_at (set slots i s) j ≡ true) js
All-dead-set slots i s [] n a = tt
All-dead-set slots i s (j ∷ js) n a = (
  rw (get_elem?-set_ne slots i j s (ground arith), dead_at) a.0,
  All-dead-set slots i s js (ground arith) a.1,
)

-- A slot that `resolve` finds is current and alive.
pub resolve-eq_some :
    (t : NodeTable) (h : NodeHandle) (s : NodeSlot)
    → resolve t h ≡ some s
    → (slot_of t h ≡ some s) × (is_dead s.state ≡ false)
unfolding resolve
resolve-eq_some t h s e = ground arith

pub resolve_intro :
    (t : NodeTable) (h : NodeHandle) (s : NodeSlot)
    → slot_of t h ≡ some s
    → is_dead s.state ≡ false
    → resolve t h ≡ some s
unfolding resolve
resolve_intro t h s e d = rw (e, d, resolve)

module _ (t : NodeTable) (cores : List NodeCore) (node : Option ℕ) (v : IsValid t)
    (r : HasRoom t) where
  -- In a valid table with room for a slot, allocation keeps every free-listed slot dead and listed
  -- once.
  pub alloc-IsValid : IsValid (alloc t cores node).0
  alloc-IsValid = elim (alloc_cases t cores node v r) [
    | inl (i, rest, s, e, g, d, eq) ↦
        let a = subst (All (λ j. dead_at t.slots j ≡ true)) e v.dead_listed in
        let n = subst Distinct e v.distinct in
        rw eq (record {
          dead_listed = All-dead-set t.slots i (occupy (bump s) cores node) rest n.0 a.1;
          distinct = n.1;
        })
    | inr (e, eq) ↦ rw eq (record { dead_listed = tt; distinct = tt })
  ]

  -- In a valid table with room for a slot, the handle that is returned resolves, to a live and
  -- unpinned slot that holds the node and its type.
  pub resolve-alloc :
      (s : NodeSlot) × (resolve (alloc t cores node).0 (alloc t cores node).2 ≡ some s)
      × (s.state ≡ NodeState.alive_connected)
      × (s.pin_count ≡ 0)
      × (s.node_type ≡ type_of_node (core_at cores node))
      × (s.node ≡ node)
  resolve-alloc = elim (alloc_cases t cores node v r) [
    | inl (i, rest, s, e, g, d, eq) ↦
        let n = occupy (bump s) cores node in
        let lt = get_elem?-lt t.slots i s g in
        (
          n,
          rw eq (
              resolve_intro _ _ n
                (slot_of_intro _ (handle_of i (bump s)) n (get_elem?-set_self t.slots i n lt) refl
                  (ground arith))
                refl),
          refl,
          refl,
          refl,
          refl,
        )
    | inr (e, eq) ↦
        let n = occupy fresh_slot cores node in
        (
          n,
          rw eq (
              resolve_intro _ _ n
                (slot_of_intro _ (handle_of (length t.slots) fresh_slot) n
                  (get_elem?-append_length t.slots n) refl (ground arith))
                refl),
          refl,
          refl,
          refl,
          refl,
        )
  ]

  -- In a valid table with room for a slot, a handle that resolves goes on resolving, to the same
  -- slot, whatever is allocated.
  pub resolve-alloc_frame :
      (h : NodeHandle) (s : NodeSlot)
      → resolve t h ≡ some s
      → resolve (alloc t cores node).0 h ≡ some s
  resolve-alloc_frame h s e =
      let (c, live) = resolve-eq_some t h s e in
      let (g, gen, nn) = slot_of-eq_some t h s c in
      elim (alloc_cases t cores node v r) [
        | inl (i, rest, s', _, g', d, eq) ↦
            let ne : i ≢ h.index =
              λ p. absurd (cc (subst (λ k. get_elem? t.slots k ≡ some s') p g')) in
            rw eq (
              resolve_intro _ h s
                (slot_of_intro _ h s (get_elem?-set_ne t.slots i h.index _ ne ∙ g) gen nn) live)
        | inr (_, eq) ↦ rw eq (
            resolve_intro _ h s
              (slot_of_intro _ h s
                (get_elem?-append_left t.slots _ h.index (get_elem?-lt t.slots h.index s g) ∙ g) gen
                nn)
              live)
      ]
