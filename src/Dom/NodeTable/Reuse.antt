-- ===== src/Dom/NodeTable/Reuse.antt =====
-- What `alloc` of dom/node_table.cpp does: it reuses a dead slot under the next generation, or
-- appends one, and leaves every live handle alone.
use malibu.Common.{
  none, All, List, Option, Option-cases, [], arith, get_elem?, get_elem?-append_length,
  get_elem?-lt, get_elem?-set_self, inl, inr, length, refl, set, set-append_length, set-set, some,
  subst, true, ℕ, ◌%◌, ◌++◌, ◌-◌, ◌<◌, ◌∷◌, ◌≡◌, ◌⊎◌,
}
use malibu.Dom.Handle.{word_size}
use malibu.Dom.NodeTable.{
  NodeSlot, NodeCore, NodeTable, is_dead, reuse_index, alloc, fresh_slot, bump, occupy,
  write_handle, handle_of,
}
use malibu.Dom.NodeTable.Invariant.{IsValid, dead_at}

-- Room for one more slot below the null index.
abbrev pub HasRoom : NodeTable → Type 0
HasRoom t = length t.slots < word_size - 1

-- The two ways to allocate.
abbrev pub Reused : NodeTable → List NodeCore → Option ℕ → Type 0
Reused t cores node =
    (i : ℕ) × (rest : List ℕ) × (s : NodeSlot) × (t.free_list ≡ i ∷ rest)
    × (get_elem? t.slots i ≡ some s)
    × (is_dead s.state ≡ true)
    × (alloc t cores node ≡ (
      record { slots = set t.slots i (occupy (bump s) cores node); free_list = rest },
      write_handle cores node (handle_of i (bump s)),
      handle_of i (bump s),
    ))

abbrev pub Appended : NodeTable → List NodeCore → Option ℕ → Type 0
Appended t cores node =
    (t.free_list ≡ [])
    × (alloc t cores node ≡ (
      record { slots = t.slots ++ occupy fresh_slot cores node ∷ []; free_list = [] },
      write_handle cores node (handle_of (length t.slots) fresh_slot),
      handle_of (length t.slots) fresh_slot,
    ))

dead_slot :
    (slots : List NodeSlot) (i : ℕ)
    → dead_at slots i ≡ true
    → (s : NodeSlot) × (get_elem? slots i ≡ some s) × (is_dead s.state ≡ true)
dead_slot slots i h = elim (Option-cases (get_elem? slots i)) [
  | inl e ↦ absurd (cc (rw (e, dead_at) at h))
  | inr (s, e) ↦ (s, e, (rw (e, dead_at) at h))
]

module _ (t : NodeTable) (cores : List NodeCore) (node : Option ℕ) where
  pub appended : HasRoom t → t.free_list ≡ [] → Appended t cores node
  unfolding alloc
  appended r e =
      let m : length t.slots % word_size ≡ length t.slots = omega arith in
      (
        e,
        rw (
          e,
          m,
          get_elem?-append_length t.slots fresh_slot,
          set-append_length t.slots fresh_slot (occupy fresh_slot cores node),
        ),
      )

  -- The slot need not be dead for this: `alloc` trusts the list.
  pub alloc-reuse :
      (i : ℕ) (rest : List ℕ) (s : NodeSlot)
      → get_elem? t.slots i ≡ some s
      → t.free_list ≡ i ∷ rest
      → alloc t cores node ≡ (
        record { slots = set t.slots i (occupy (bump s) cores node); free_list = rest },
        write_handle cores node (handle_of i (bump s)),
        handle_of i (bump s),
      )
  unfolding alloc
  alloc-reuse i rest s g e = rw (
    e,
    reuse_index,
    g,
    get_elem?-set_self t.slots i (bump s) (get_elem?-lt t.slots i s g),
    set-set t.slots i (bump s) (occupy (bump s) cores node),
  )

  -- An index out of range is taken off the list, and no slot is written.
  pub slots-alloc_missing :
      (i : ℕ) (rest : List ℕ)
      → get_elem? t.slots i ≡ none
      → t.free_list ≡ i ∷ rest
      → (alloc t cores node).0.slots ≡ t.slots
  unfolding alloc
  slots-alloc_missing i rest g e = rw (e, reuse_index, g) (rw g)

  pub alloc_cases : IsValid t → HasRoom t → Reused t cores node ⊎ Appended t cores node
  alloc_cases v r = go t.free_list refl
    where
      go : (l : List ℕ) → t.free_list ≡ l → Reused t cores node ⊎ Appended t cores node
      go [] e = inr (appended r e)
      go (i ∷ rest) e =
          let (s, g, dead) =
            dead_slot t.slots i (subst (All (λ j. dead_at t.slots j ≡ true)) e v.dead_listed).0 in
          inl (i, rest, s, e, g, dead, alloc-reuse i rest s g e)
