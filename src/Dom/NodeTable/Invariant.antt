-- ===== src/Dom/NodeTable/Invariant.antt =====
-- The free list of dom/node_table.cpp: it names dead slots, each once.
use malibu.Common.{
  All, All-imp, Bool, Bool-cases, Distinct, List, Option-cases, [], arith, false, get_elem?,
  get_elem?-lt, get_elem?-set_self, inl, inr, ltb, none, not, not-listed, refl, set, some, suc,
  true, zero, ℕ, ◌%◌, ◌&&◌, ◌+◌, ◌-◌, ◌∷◌, ◌≡◌, ◌≢◌, ◌⊎◌,
}
use malibu.Dom.Handle.{NodeHandle}
use malibu.Dom.NodeTable.{
  NodeSlot, NodeState, NodeTable, slot_of, write_slot, is_dead, free, pin, unpin, set_state,
  state_of, empty_table,
}
use malibu.Dom.NodeTable.Slots.{slot_of-eq_some}

-- The slot at an index is there and dead.
abbrev pub dead_at : List NodeSlot → ℕ → Bool
dead_at slots i = elim (get_elem? slots i) [ none ↦ false | some s ↦ is_dead s.state ]

pub record IsValid (t : NodeTable) : Type 0 where
  pub dead_listed : All (λ i. dead_at t.slots i ≡ true) t.free_list
  pub distinct : Distinct t.free_list

-- Writing a slot keeps the dead slots dead, if the slot was alive before or is dead after.
dead_at-set :
    (slots : List NodeSlot) (i j : ℕ) (s : NodeSlot)
    → (dead_at slots i ≡ false) ⊎ (is_dead s.state ≡ true)
    → dead_at slots j ≡ true
    → dead_at (set slots i s) j ≡ true
dead_at-set [] i j s k h = h
dead_at-set (x ∷ xs) zero zero s (inl k) h = cc
dead_at-set (x ∷ xs) zero zero s (inr k) h = k
dead_at-set (x ∷ xs) zero (suc j) s k h = h
dead_at-set (x ∷ xs) (suc i) zero s k h = h
dead_at-set (x ∷ xs) (suc i) (suc j) s k h = dead_at-set xs i j s k h

pub write_slot-IsValid :
    (t : NodeTable) (i : ℕ) (s : NodeSlot)
    → (dead_at t.slots i ≡ false) ⊎ (is_dead s.state ≡ true)
    → IsValid t
    → IsValid (write_slot t i s)
write_slot-IsValid t i s k v = record {
  dead_listed = All-imp _ _ (λ j. dead_at-set t.slots i j s k) t.free_list v.dead_listed;
  distinct = v.distinct;
}

true-false : {b : Bool} → b ≡ true → b ≡ false → ⊥
true-false p q = cc

is_dead-false : (st : NodeState) → st ≢ NodeState.dead → is_dead st ≡ false
is_dead-false NodeState.dead h = absurd (h refl)
is_dead-false NodeState.alive_connected h = refl
is_dead-false NodeState.alive_detached h = refl
is_dead-false NodeState.pending_destroy h = refl

-- An empty table is valid.
pub empty_table-IsValid : IsValid empty_table
empty_table-IsValid = record { dead_listed = tt; distinct = tt }

module _ (t : NodeTable) (h : NodeHandle) where
  pub dead_at-slot_of :
      (s : NodeSlot) (b : Bool)
      → slot_of t h ≡ some s
      → is_dead s.state ≡ b
      → dead_at t.slots h.index ≡ b
  dead_at-slot_of s b e d = rw ((slot_of-eq_some t h s e).0, dead_at) d

  -- Pinning keeps the free list in order.
  pub pin-IsValid : IsValid t → IsValid (pin t h)
  unfolding pin
  pin-IsValid v = elim (Option-cases (slot_of t h)) [
    | inl e ↦ rw (e, pin) v
    | inr (s, e) ↦ elim (Bool-cases (is_dead s.state)) [
      | inl d ↦ rw (e, d, pin) v
      | inr d ↦
          rw (e, d, pin)
            (write_slot-IsValid t h.index (record s { pin_count = (s.pin_count + 1) % 256 })
              (inl (dead_at-slot_of s false e d)) v)
    ]
  ]

  -- Unpinning keeps it too.
  pub unpin-IsValid : IsValid t → IsValid (unpin t h)
  unfolding unpin
  unpin-IsValid v = elim (Option-cases (slot_of t h)) [
    | inl e ↦ rw (e, unpin) v
    | inr (s, e) ↦ elim (Bool-cases (not (is_dead s.state) && ltb 0 s.pin_count)) [
      | inl d ↦
          rw (e, d, unpin)
            (write_slot-IsValid t h.index (record s { pin_count = s.pin_count - 1 })
              (inl (dead_at-slot_of s false e (ground arith))) v)
      | inr d ↦ rw (e, d, unpin) v
    ]
  ]

  -- And so does a change of state, to dead as well.
  pub set_state-IsValid : (st : NodeState) → IsValid t → IsValid (set_state t h st)
  unfolding set_state
  set_state-IsValid st v = elim (Option-cases (slot_of t h)) [
    | inl e ↦ rw (e, set_state) v
    | inr (s, e) ↦ elim (Bool-cases (is_dead s.state)) [
      | inl d ↦ rw (e, d, set_state) v
      | inr d ↦
          rw (e, d, set_state)
            (write_slot-IsValid t h.index (record s { state = st })
              (inl (dead_at-slot_of s false e d)) v)
    ]
  ]

  -- Freeing a handle whose state is not dead keeps every free-listed slot dead and listed once: the
  -- index was not on the list.
  pub free-IsValid : state_of t h ≢ NodeState.dead → IsValid t → IsValid (free t h)
  unfolding free state_of
  free-IsValid alive v = elim (Option-cases (slot_of t h)) [
    | inl e ↦ rw (e, free) v
    | inr (s, e) ↦ elim (Bool-cases (ltb 0 s.pin_count)) [
      | inl p ↦ rw (e, p, free) v
      | inr p ↦
          let dying = record s { node = none; state = NodeState.dead; node_type = 0 } in
          let live : is_dead s.state ≡ false =
            is_dead-false s.state (λ d. alive (rw (e, state_of) d)) in
          let w = write_slot-IsValid t h.index dying (inr refl) v in
          rw (e, p, free)
            (record {
              dead_listed = (
                rw (
                  get_elem?-set_self t.slots h.index dying
                      (get_elem?-lt t.slots h.index s (slot_of-eq_some t h s e).0),
                  dead_at,
                ),
                w.dead_listed,
              );
              distinct = (
                not-listed (λ j. dead_at t.slots j ≡ true) h.index t.free_list v.dead_listed
                    (λ d. true-false d (dead_at-slot_of s false e live)),
                v.distinct,
              );
            })
    ]
  ]
