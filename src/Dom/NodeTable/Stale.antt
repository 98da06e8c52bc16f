-- ===== src/Dom/NodeTable/Stale.antt =====
-- A handle that was freed stays stale: the generation counters of dom/node_table.cpp against every
-- later sequence of calls.
use malibu.Common.{
  ==_iff, Bool-cases, List, Option, Option-cases, [], arith, false, get_elem?,
  get_elem?-append_left, get_elem?-lt, get_elem?-set_ne, get_elem?-set_self, inl, inr, length,
  length-append, length-set, ltb, none, not, refl, set, some, subst, true, ℕ, ◌%◌, ◌&&◌, ◌+◌, ◌-◌,
  ◌<◌, ◌==◌, ◌∙◌, ◌∷◌, ◌≡◌, ◌≤◌, ◌⊎◌,
}
use malibu.Dom.Handle.{NodeHandle, word_size}
use malibu.Dom.NodeTable.{
  NodeSlot, NodeState, NodeCore, NodeTable, slot_of, is_dead, write_slot, alloc, free, pin, unpin,
  set_state, fresh_slot, bump, resolve, occupy,
}
use malibu.Dom.NodeTable.Slots.{slot_of-eq_some}
use malibu.Dom.NodeTable.Reuse.{HasRoom, appended, alloc-reuse, slots-alloc_missing}
use malibu.Dom.NodeTable.Alloc.{resolve-eq_some}

-- The calls that change the table.
pub data Op : Type 0 where
  allocate : List NodeCore → Option ℕ → Op
  release take_pin drop_pin : NodeHandle → Op
  change : NodeHandle → NodeState → Op

pub apply : NodeTable → Op → NodeTable
apply t (Op.allocate cores node) = (alloc t cores node).0
apply t (Op.release h) = free t h
apply t (Op.take_pin h) = pin t h
apply t (Op.drop_pin h) = unpin t h
apply t (Op.change h st) = set_state t h st

pub run : NodeTable → List Op → NodeTable
run t [] = t
run t (o ∷ os) = run (apply t o) os

-- The number of allocations.
abbrev pub cost : Op → ℕ
cost (Op.allocate _ _) = 1
cost _ = 0

abbrev pub allocations : List Op → ℕ
allocations [] = 0
allocations (o ∷ os) = cost o + allocations os

-- The slot that `h` names has been reused `k` times since `h` was current, and is dead if `k` is 0.
abbrev Past : NodeHandle → ℕ → NodeTable → Type 0
Past h k t =
    (s : NodeSlot) × (get_elem? t.slots h.index ≡ some s)
    × (s.generation ≡ (h.generation + k) % word_size)
    × ((is_dead s.state ≡ true) ⊎ (0 < k))

module _ (h : NodeHandle) where
  -- A handle whose slot is past does not resolve.
  Past-resolve :
      (k : ℕ) (t : NodeTable)
      → h.generation < word_size
      → k < word_size
      → Past h k t
      → resolve t h ≡ none
  Past-resolve k t hg hk (s, g, gen, p) = elim (Option-cases (resolve t h)) [
    | inl e ↦ e
    | inr (s', e) ↦
        let (c, live) = resolve-eq_some t h s' e in
        let (g', gen', _) = slot_of-eq_some t h s' c in absurd (ground arith)
  ]

  -- What one write does to the slot of `h`.
  write-Past :
      (k : ℕ) (t : NodeTable) (i : ℕ) (old new : NodeSlot)
      → get_elem? t.slots i ≡ some old
      → new.generation ≡ old.generation
      → (is_dead old.state ≡ false) ⊎ (is_dead new.state ≡ true)
      → Past h k t
      → Past h k (write_slot t i new)
  write-Past k t i old new e g d (s, gs, gen, p) = elim (Bool-cases (i == h.index)) [
    | inl q ↦
        let same : i ≡ h.index = (==_iff i h.index).0 q in
        let got : get_elem? (set t.slots i new) h.index ≡ some new =
          subst (λ j. get_elem? (set t.slots i new) j ≡ some new) same
            (get_elem?-set_self t.slots i new (get_elem?-lt t.slots i old e)) in
        let was : get_elem? t.slots h.index ≡ some old =
          subst (λ j. get_elem? t.slots j ≡ some old) same e in
        (new, got, ground arith, ground arith)
    | inr q ↦ (s, get_elem?-set_ne t.slots i h.index new (ground arith) ∙ gs, gen, p)
  ]

  -- An allocation moves the slot of `h` on by one generation, or leaves it alone.
  abbrev PastStep : ℕ → ℕ → NodeTable → Type 0
  PastStep k c t = (k' : ℕ) × (k' ≤ k + c) × Past h k' t

  alloc-Past :
      (k : ℕ) (t : NodeTable) (cores : List NodeCore) (node : Option ℕ)
      → HasRoom t
      → Past h k t
      → PastStep k 1 (alloc t cores node).0
  alloc-Past k t cores node r (s, gs, gen, p) = go t.free_list refl
    where
      hit :
          (i : ℕ) (rest : List ℕ) (s' : NodeSlot)
          → get_elem? t.slots i ≡ some s'
          → i ≡ h.index
          → PastStep k 1
              (record { slots = set t.slots i (occupy (bump s') cores node); free_list = rest })
      hit i rest s' g q =
          let new = occupy (bump s') cores node in
          let was : get_elem? t.slots h.index ≡ some s' =
            subst (λ j. get_elem? t.slots j ≡ some s') q g in
          (
            k + 1,
            omega arith,
            (
              new,
              subst (λ j. get_elem? (set t.slots i new) j ≡ some new) q
                  (get_elem?-set_self t.slots i new (get_elem?-lt t.slots i s' g)),
              ground arith,
              inr (omega arith),
            ),
          )

      go : (l : List ℕ) → t.free_list ≡ l → PastStep k 1 (alloc t cores node).0
      go [] e = rw (appended t cores node r e).1 (
        k,
        omega arith,
        (
          s,
          get_elem?-append_left t.slots _ h.index (get_elem?-lt t.slots h.index s gs) ∙ gs,
          gen,
          p,
        ),
      )
      go (i ∷ rest) e = elim (Option-cases (get_elem? t.slots i)) [
        | inl n ↦ (k, omega arith, (s, rw (slots-alloc_missing t cores node i rest n e) gs, gen, p))
        | inr (s', g) ↦
            rw (alloc-reuse t cores node i rest s' g e) (elim (Bool-cases (i == h.index)) [
              | inl q ↦ hit i rest s' g ((==_iff i h.index).0 q)
              | inr q ↦ (
                k,
                omega arith,
                (s, get_elem?-set_ne t.slots i h.index _ (ground arith) ∙ gs, gen, p),
              )
            ])
      ]

  -- The other calls write one slot under its own generation.
  module _ (k : ℕ) (t : NodeTable) (g : NodeHandle) (past : Past h k t) where
    free-Past : Past h k (free t g)
    unfolding free
    free-Past = elim (Option-cases (slot_of t g)) [
      | inl e ↦ rw (e, free) past
      | inr (s, e) ↦ elim (Bool-cases (ltb 0 s.pin_count)) [
        | inl p ↦ rw (e, p, free) past
        | inr p ↦
            rw (e, p, free)
              (write-Past k t g.index s _ (slot_of-eq_some t g s e).0 refl (inr refl) past)
      ]
    ]

    pin-Past : Past h k (pin t g)
    unfolding pin
    pin-Past = elim (Option-cases (slot_of t g)) [
      | inl e ↦ rw (e, pin) past
      | inr (s, e) ↦ elim (Bool-cases (is_dead s.state)) [
        | inl p ↦ rw (e, p, pin) past
        | inr p ↦
            rw (e, p, pin)
              (write-Past k t g.index s _ (slot_of-eq_some t g s e).0 refl (inl p) past)
      ]
    ]

    unpin-Past : Past h k (unpin t g)
    unfolding unpin
    unpin-Past = elim (Option-cases (slot_of t g)) [
      | inl e ↦ rw (e, unpin) past
      | inr (s, e) ↦ elim (Bool-cases (not (is_dead s.state) && ltb 0 s.pin_count)) [
        | inl p ↦
            rw (e, p, unpin)
              (write-Past k t g.index s _ (slot_of-eq_some t g s e).0 refl (inl (ground arith))
                past)
        | inr p ↦ rw (e, p, unpin) past
      ]
    ]

    set_state-Past : (st : NodeState) → Past h k (set_state t g st)
    unfolding set_state
    set_state-Past st = elim (Option-cases (slot_of t g)) [
      | inl e ↦ rw (e, set_state) past
      | inr (s, e) ↦ elim (Bool-cases (is_dead s.state)) [
        | inl p ↦ rw (e, p, set_state) past
        | inr p ↦
            rw (e, p, set_state)
              (write-Past k t g.index s _ (slot_of-eq_some t g s e).0 refl (inl p) past)
      ]
    ]

  apply-Past :
      (k : ℕ) (t : NodeTable) (o : Op) → HasRoom t → Past h k t → PastStep k (cost o) (apply t o)
  unfolding apply
  apply-Past k t (Op.allocate cores node) r p = alloc-Past k t cores node r p
  apply-Past k t (Op.release g) r p = (k, omega arith, free-Past k t g p)
  apply-Past k t (Op.take_pin g) r p = (k, omega arith, pin-Past k t g p)
  apply-Past k t (Op.drop_pin g) r p = (k, omega arith, unpin-Past k t g p)
  apply-Past k t (Op.change g st) r p = (k, omega arith, set_state-Past k t g p st)

-- The slab grows only by allocation, one slot at a time.
length-alloc :
    (t : NodeTable) (cores : List NodeCore) (node : Option ℕ)
    → HasRoom t
    → length (alloc t cores node).0.slots ≤ length t.slots + 1
length-alloc t cores node r = go t.free_list refl
  where
    go : (l : List ℕ) → t.free_list ≡ l → length (alloc t cores node).0.slots ≤ length t.slots + 1
    go [] e =
        rw (appended t cores node r e).1
          (omega (arith, length-append t.slots (occupy fresh_slot cores node ∷ [])))
    go (i ∷ rest) e = elim (Option-cases (get_elem? t.slots i)) [
      | inl n ↦ rw (slots-alloc_missing t cores node i rest n e) (omega arith)
      | inr (s, g) ↦
          rw (alloc-reuse t cores node i rest s g e)
            (omega (arith, length-set t.slots i (occupy (bump s) cores node)))
    ]

length-apply :
    (t : NodeTable) (o : Op) → HasRoom t → length (apply t o).slots ≤ length t.slots + cost o
unfolding apply free pin unpin set_state
length-apply t (Op.allocate cores node) r = length-alloc t cores node r
length-apply t (Op.release g) r = grind (arith, length-set)
length-apply t (Op.take_pin g) r = grind (arith, length-set)
length-apply t (Op.drop_pin g) r = grind (arith, length-set)
length-apply t (Op.change g st) r = grind (arith, length-set)

run-Past :
    (h : NodeHandle) (k : ℕ) (t : NodeTable) (ops : List Op)
    → length t.slots + allocations ops < word_size - 1
    → Past h k t
    → (k' : ℕ) × (k' ≤ k + allocations ops) × Past h k' (run t ops)
unfolding run
run-Past h k t [] r p = (k, omega arith, p)
run-Past h k t (o ∷ os) r p =
    let (k1, b1, p1) = apply-Past h k t o (omega arith) p in
    let len = length-apply t o (omega arith) in
    let (k2, b2, p2) = run-Past h k1 (apply t o) os (omega arith) p1 in (k2, omega arith, p2)

-- Freeing a handle whose slot is current and unpinned makes it stale: it does not resolve after any
-- further calls, whatever they allocate, free, pin or set, as long as the slots of the table and the
-- allocations among these calls are together fewer than 2^32 - 1, so that neither an index nor the
-- generation of a slot, which each reuse counts up, wraps.
pub resolve-free :
    (t : NodeTable) (h : NodeHandle) (s : NodeSlot) (ops : List Op)
    → h.generation < word_size
    → slot_of t h ≡ some s
    → s.pin_count ≡ 0
    → length t.slots + allocations ops < word_size - 1
    → resolve (run (free t h) ops) h ≡ none
unfolding free
resolve-free t h s ops hg e np room =
    let dying = record s { node = none; state = NodeState.dead; node_type = 0 } in
    let (g, gen, _) = slot_of-eq_some t h s e in
    let unpinned : ltb 0 s.pin_count ≡ false = ground arith in
    let freed : free t h
        ≡ record { slots = set t.slots h.index dying; free_list = h.index ∷ t.free_list } =
      rw (e, unpinned, free) in
    let past : Past h 0 (free t h) = rw freed (
      dying,
      get_elem?-set_self t.slots h.index dying (get_elem?-lt t.slots h.index s g),
      ground arith,
      inl refl,
    ) in
    let len : length (free t h).slots ≡ length t.slots =
      rw freed (length-set t.slots h.index dying) in
    let (k, b, p) = run-Past h 0 (free t h) ops (omega arith) past in
    Past-resolve h k (run (free t h) ops) hg (omega arith) p
