-- ===== src/Dom/DomTree/Cores.antt =====
-- What the state changes and the core writes of dom/document.cpp do to the nodes that handles name.
use malibu.Common.{
  ==_iff, Bool, Bool-cases, List, Option, Option-cases, [], ap, arith, false, get_elem?,
  get_elem?-lt, get_elem?-set_ne, get_elem?-set_self, if◌then◌else◌, inl, inr, length-set, none,
  refl, set, some, subst, suc, sym, true, zero, ℕ, ◌==◌, ◌∙◌, ◌∷◌, ◌≡◌, ◌≢◌, ◌⊎◌,
}
use malibu.Dom.Handle.{NodeHandle, is_null}
use malibu.Dom.NodeTable.{
  NodeCore, NodeSlot, NodeTable, NodeState, resolve, slot_of, set_state, is_dead, write_slot,
}
use malibu.Dom.NodeTable.Slots.{slot_of-eq_some, slot_of_intro}
use malibu.Dom.NodeTable.Alloc.{resolve_intro, resolve-eq_some}
use malibu.Dom.Document.{state_in, Document, core, core_in, update_core, change_state}
use malibu.Dom.DomTree.{for_each, update_connected_state, settled, connection}

-- A change of state to a live one keeps what every handle resolves to, up to the state.
abbrev SameNode : NodeTable → NodeTable → NodeHandle → Type 0
SameNode t t' g =
    (resolve t' g ≡ resolve t g)
    ⊎ ((s : NodeSlot) × (s' : NodeSlot) × (resolve t g ≡ some s)
        × (resolve t' g ≡ some s')
        × (s'.node ≡ s.node))

elsewhere :
    (t : NodeTable) (i : ℕ) (s : NodeSlot) (g : NodeHandle)
    → i ≢ g.index
    → resolve (write_slot t i s) g ≡ resolve t g
unfolding resolve slot_of
elsewhere t i s g ne =
    ground (arith, length-set t.slots i s, get_elem?-set_ne t.slots i g.index s ne)

-- A handle with another generation than its slot's does not resolve.
stale :
    (t : NodeTable) (g : NodeHandle) (s : NodeSlot)
    → get_elem? t.slots g.index ≡ some s
    → (s.generation == g.generation) ≡ false
    → resolve t g ≡ none
stale t g s e n = elim (Option-cases (resolve t g)) [
  | inl r ↦ r
  | inr (s', r) ↦
      let (c, live) = resolve-eq_some t g s' r in
      let (e', gen, _) = slot_of-eq_some t g s' c in absurd (ground arith)
]

module _ (t : NodeTable) (h : NodeHandle) (st : NodeState) (alive : is_dead st ≡ false) where
  rewritten :
      (s : NodeSlot) (g : NodeHandle)
      → get_elem? t.slots h.index ≡ some s
      → is_dead s.state ≡ false
      → h.index ≡ g.index
      → is_null g ≡ false
      → SameNode t (write_slot t h.index (record s { state = st })) g
  rewritten s g e live i n =
      let new = record s { state = st } in
      let was : get_elem? t.slots g.index ≡ some s =
        subst (λ j. get_elem? t.slots j ≡ some s) i e in
      let is_ : get_elem? (set t.slots h.index new) g.index ≡ some new =
        subst (λ j. get_elem? (set t.slots h.index new) j ≡ some new) i
          (get_elem?-set_self t.slots h.index new (get_elem?-lt t.slots h.index s e)) in
      elim (Bool-cases (s.generation == g.generation)) [
        | inl q ↦
            let gen : s.generation ≡ g.generation = (==_iff _ _).0 q in
            inr (
              s,
              new,
              resolve_intro t g s (slot_of_intro t g s was gen n) live,
              resolve_intro _ g new (slot_of_intro _ g new is_ gen n) alive,
              refl,
            )
        | inr q ↦ inl (stale _ g new is_ q ∙ sym (stale t g s was q))
      ]

  set_state-SameNode : (g : NodeHandle) → SameNode t (set_state t h st) g
  unfolding set_state
  set_state-SameNode g = elim (Option-cases (slot_of t h)) [
    | inl e ↦ inl (rw (e, set_state))
    | inr (s, e) ↦ elim (Bool-cases (is_dead s.state)) [
      | inl d ↦ inl (rw (e, d, set_state))
      | inr d ↦
          let (f, gen, n) = slot_of-eq_some t h s e in
          rw (e, d, set_state)
            (elim (Bool-cases (h.index == g.index)) [
              | inl i ↦
                  let i' : h.index ≡ g.index = (==_iff _ _).0 i in
                  rewritten s g f d i' (rw (← i') n)
              | inr i ↦ inl (elsewhere t h.index (record s { state = st }) g (ground arith))
            ])
    ]
  ]

-- So it keeps the core of every handle.
pub core-change_state :
    (d : Document) (h : NodeHandle) (st : NodeState) (g : NodeHandle)
    → is_dead st ≡ false
    → core (change_state d h st) g ≡ core d g
unfolding core change_state
core-change_state d h st g alive = elim (set_state-SameNode d.table h st alive g) [
  | inl e ↦ ground arith
  | inr (s, s', e, e', n) ↦ ground arith
]

-- A loop keeps what each of its steps keeps.
pub for_each-keeps {κ} :
    (P : Document → Type κ) (f : Document → NodeHandle → Option Document)
    → ((d : Document) (h : NodeHandle) (d' : Document) → f d h ≡ some d' → P d → P d')
    → (hs : List NodeHandle) (d d' : Document) → for_each f hs d ≡ some d'
    → P d
    → P d'
unfolding for_each
for_each-keeps P f keep_step [] d d' e p = let same : d ≡ d' = ground arith in subst P same p
for_each-keeps P f keep_step (h ∷ hs) d d' e p = elim (Option-cases (f d h)) [
  | inl n ↦ absurd (ground arith)
  | inr (m, q) ↦
      let rest : for_each f hs m ≡ some d' = ground arith in
      for_each-keeps P f keep_step hs m d' rest (keep_step d h m q p)
]

connection_alive : (b : Bool) → is_dead (connection b) ≡ false
connection_alive true = refl
connection_alive false = refl

-- The recomputation of the connected state changes slot states and nothing else that a handle
-- leads to.
pub core-update_connected_state :
    (fuel : ℕ) (b : Bool) (d : Document) (h : NodeHandle) (d' : Document) (g : NodeHandle)
    → update_connected_state fuel b d h ≡ some d'
    → core d' g ≡ core d g
unfolding update_connected_state
core-update_connected_state zero b d h d' g e = absurd (ground arith)
core-update_connected_state (suc fuel) b d h d' g e = elim (Option-cases (core d h)) [
  | inl n ↦ let same : d ≡ d' = ground arith in rw same
  | inr (o, n) ↦ elim (Bool-cases (settled (state_in d h))) [
    | inl z ↦ let same : d ≡ d' = ground arith in rw same
    | inr z ↦
        let looped : for_each (update_connected_state fuel b) o.1.children
              (change_state d h (connection b))
            ≡ some d' =
          ground arith in
        for_each-keeps (λ x. core x g ≡ core d g) (update_connected_state fuel b)
          (λ x k x' q p. core-update_connected_state fuel b x k x' g q ∙ p) o.1.children
          (change_state d h (connection b)) d' looped
          (core-change_state d h (connection b) g (connection_alive b))
  ]
]

-- How a handle leads to a core.
pub core-eq_some :
    (d : Document) (g : NodeHandle) (q : ℕ) (c : NodeCore)
    → core d g ≡ some (q, c)
    → (s : NodeSlot) × (resolve d.table g ≡ some s)
      × (s.node ≡ some q)
      × (get_elem? d.cores q ≡ some c)
unfolding core
core-eq_some d g q c e = elim (Option-cases (resolve d.table g)) [
  | inl n ↦ absurd (ground arith)
  | inr (s, r) ↦
      let found : core_in d.cores s.node ≡ some (q, c) = ground arith in
      let (n', g') = through d.cores s.node q c found in (s, r, n', g')
]
  where
    at_ :
        (cores : List NodeCore) (p q : ℕ) (c : NodeCore)
        → core_in cores (some p) ≡ some (q, c)
        → (p ≡ q) × (get_elem? cores p ≡ some c)
    at_ cores p q c e = ground arith

    through :
        (cores : List NodeCore) (o : Option ℕ) (q : ℕ) (c : NodeCore)
        → core_in cores o ≡ some (q, c)
        → (o ≡ some q) × (get_elem? cores q ≡ some c)
    through cores none q c e = absurd (ground arith)
    through cores (some p) q c e =
        let (i, g) = at_ cores p q c e in
        (ap (λ (k : ℕ). some k) i, subst (λ k. get_elem? cores k ≡ some c) i g)

core_intro :
    (d : Document) (g : NodeHandle) (q : ℕ) (c : NodeCore) (s : NodeSlot)
    → resolve d.table g ≡ some s
    → s.node ≡ some q
    → get_elem? d.cores q ≡ some c
    → core d g ≡ some (q, c)
unfolding core
core_intro d g q c s r n e = ground arith

-- A write through a core's address is seen by every handle of that core, and by no other.
pub core-update_core :
    (d : Document) (p : ℕ) (f : NodeCore → NodeCore) (g : NodeHandle) (q : ℕ) (c : NodeCore)
    → core d g ≡ some (q, c)
    → core (update_core d p f) g ≡ some (q, if p == q then f c else c)
core-update_core d p f g q c e =
    let (s, r, n, at_q) = core-eq_some d g q c e in
    elim (Option-cases (get_elem? d.cores p)) [
      | inl m ↦
          rw (m, update_core)
            (elim (Bool-cases (p == q)) [ inl i ↦ absurd (ground arith) | inr i ↦ rw i e ])
      | inr (c0, m) ↦
          rw (m, update_core)
            (elim (Bool-cases (p == q)) [
              | inl i ↦
                  let same : p ≡ q = (==_iff p q).0 i in
                  let eq : c0 ≡ c = ground arith in
                  rw i (
                    core_intro (record d { cores = set d.cores p (f c0) }) g q (f c) s r n
                      (subst (λ k. get_elem? (set d.cores p (f c0)) k ≡ some (f c)) same
                        (rw (← eq)
                          (get_elem?-set_self d.cores p (f c0) (get_elem?-lt d.cores p c0 m)))))
              | inr i ↦ rw i (
                  core_intro (record d { cores = set d.cores p (f c0) }) g q c s r n
                    (get_elem?-set_ne d.cores p q (f c0) (ground arith) ∙ at_q))
            ])
    ]
