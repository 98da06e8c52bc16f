-- ===== src/Dom/DomTree/Links.antt =====
-- The links between a node and its parent after the mutations of dom/document.cpp.
use malibu.Common.{
  Bool, Bool-cases, List, Option, Option-cases, [], ap, arith, false, if◌then◌else◌, inl, inr, none,
  refl, some, sym, true, ℕ, ◌++◌, ◌==◌, ◌||◌, ◌∙◌, ◌∷◌, ◌≡◌,
}
use malibu.Dom.Handle.{NodeHandle, is_null, null_handle, handle_eq, handle_eq_iff}
use malibu.Dom.NodeTable.{NodeCore}
use malibu.Dom.Document.{Document, core, update_core, state_in}
use malibu.Dom.Creation.{parent_node, child_nodes, update_handle}
use malibu.Dom.DomTree.{
  erase_handle, DomError, insert_node, remove_child, update_connected_state, walk_meets, attach,
  detach, finish, is_connected, erase_first, contains, with_ok, is_dead_state,
}
use malibu.Dom.DomTree.Cores.{core-update_connected_state, core-update_core}

-- What the two reads see of a core.
parent_node_eq :
    (d : Document) (h : NodeHandle) (p : ℕ) (c : NodeCore)
    → core d h ≡ some (p, c)
    → parent_node d h ≡ c.parent
unfolding parent_node
parent_node_eq d h p c e = rw (e, parent_node)

child_nodes_eq :
    (d : Document) (h : NodeHandle) (p : ℕ) (c : NodeCore)
    → core d h ≡ some (p, c)
    → child_nodes d h ≡ c.children
unfolding child_nodes
child_nodes_eq d h p c e = rw (e, child_nodes)

pub parent_node-core :
    (d d' : Document) (h : NodeHandle) → core d' h ≡ core d h → parent_node d' h ≡ parent_node d h
unfolding parent_node
parent_node-core d d' h e = ground arith

pub child_nodes-core :
    (d d' : Document) (h : NodeHandle) → core d' h ≡ core d h → child_nodes d' h ≡ child_nodes d h
unfolding child_nodes
child_nodes-core d d' h e = ground arith

with_ok_eq :
    (o : Option Document) (d' : Document) (err : DomError)
    → with_ok o ≡ some (d', err)
    → o ≡ some d'
with_ok_eq none d' err e = absurd (ground arith)
with_ok_eq (some d) d' err e = ground arith

==_refl : (n : ℕ) → (n == n) ≡ true
==_refl n = ground arith

-- The two writes of a removal.
abbrev removed : NodeHandle → ℕ → ℕ → Document → Document
removed child pp cp d =
    update_core (update_core d pp (λ c. record c { children = erase_first child c.children })) cp
      (λ c. record c { parent = null_handle })

chosen-parent :
    (b : Bool) (c : NodeCore) (up : NodeHandle)
    → (if b then record c { parent = up } else c).children ≡ c.children
chosen-parent true c up = refl
chosen-parent false c up = refl

chosen-children :
    (b : Bool) (c : NodeCore) (hs : List NodeHandle)
    → b ≡ true
    → (if b then record c { children = hs } else c).children ≡ hs
chosen-children true c hs e = refl
chosen-children false c hs e = absurd (ground arith)

written-parent :
    (b : Bool) (c : NodeCore) (up : NodeHandle)
    → b ≡ true
    → (if b then record c { parent = up } else c).parent ≡ up
written-parent true c up e = refl
written-parent false c up e = absurd (ground arith)

removed-links :
    (d : Document) (parent child : NodeHandle) (pp cp : ℕ) (pc cc : NodeCore)
    → core d parent ≡ some (pp, pc)
    → core d child ≡ some (cp, cc)
    → (parent_node (removed child pp cp d) child ≡ null_handle)
      × (child_nodes (removed child pp cp d) parent ≡ erase_first child pc.children)
removed-links d parent child pp cp pc cc at_parent at_child =
    let f = λ (c : NodeCore). record c { children = erase_first child c.children } in
    let k = λ (c : NodeCore). record c { parent = null_handle } in
    let d1 = update_core d pp f in
    let c2 = core-update_core d1 cp k child cp _ (core-update_core d pp f child cp cc at_child) in
    let p2 =
      core-update_core d1 cp k parent pp _ (core-update_core d pp f parent pp pc at_parent) in
    (
      parent_node_eq _ child cp _ c2 ∙ written-parent (cp == cp) _ null_handle (==_refl cp),
      child_nodes_eq _ parent pp _ p2
          ∙ chosen-parent (cp == pp) _ null_handle
          ∙ chosen-children (pp == pp) pc (erase_first child pc.children) (==_refl pp),
    )

-- The first occurrence of a handle is between those before it, which are others, and the rest.
erase_first-split :
    (h : NodeHandle) (hs : List NodeHandle)
    → contains h hs ≡ true
    → (before : List NodeHandle) × (after : List NodeHandle) × (hs ≡ before ++ h ∷ after)
      × (contains h before ≡ false)
      × (erase_first h hs ≡ before ++ after)
erase_first-split h [] m = absurd (cc)
erase_first-split h (k ∷ ks) m = elim (Bool-cases (handle_eq k h)) [
  | inl e ↦
      let same : k ≡ h = (handle_eq_iff k h).0 e in
      ([], ks, ap (λ (x : NodeHandle). x ∷ ks) same, refl, rw e refl)
  | inr e ↦
      let (before, after, shape, others, rest) = erase_first-split h ks (ground arith) in
      (k ∷ before, after, ap (◌∷◌ k) shape, rw e others, rw e (ap (◌∷◌ k) rest))
]

-- A `remove_child` that reports ok left `child` without a parent. `child` was among the children of
-- `parent`, and its first occurrence is what is gone from them: those before it, none of which is
-- `child`, and those behind it stay, in their order.
pub remove_child-links :
    (fuel : ℕ) (d : Document) (parent child : NodeHandle) (d' : Document)
    → remove_child fuel d parent child ≡ some (d', DomError.ok)
    → (parent_node d' child ≡ null_handle)
      × ((before : List NodeHandle) × (after : List NodeHandle) × (child_nodes d parent
            ≡ before ++ child ∷ after)
          × (contains child before ≡ false)
          × (child_nodes d' parent ≡ before ++ after))
unfolding remove_child
remove_child-links fuel d parent child d' e =
    elim (Bool-cases (is_dead_state (state_in d parent) || is_dead_state (state_in d child))) [
      | inl z ↦ absurd (ground arith)
      | inr z ↦ elim (Option-cases (core d parent)) [
        | inl n ↦ absurd (ground arith)
        | inr ((pp, pc), at_parent) ↦ elim (Option-cases (core d child)) [
          | inl n ↦ absurd (ground arith)
          | inr ((cp, kc), at_child) ↦
              let pk = child_nodes_eq d parent pp pc at_parent in
              elim (Bool-cases (contains child pc.children)) [
                | inr m ↦ absurd (ground arith)
                | inl m ↦
                    let walked : update_connected_state fuel false (removed child pp cp d) child
                        ≡ some d' =
                      ground arith in
                    let (up, down) = removed-links d parent child pp cp pc kc at_parent at_child in
                    let same = λ (g : NodeHandle).
                      core-update_connected_state fuel false (removed child pp cp d) child d' g
                        walked in
                    let (before, after, shape, others, rest) =
                      erase_first-split child pc.children m in
                    (
                      parent_node-core _ d' child (same child) ∙ up,
                      (
                        before,
                        after,
                        pk ∙ shape,
                        others,
                        child_nodes-core _ d' parent (same parent) ∙ down ∙ rest,
                      ),
                    )
              ]
        ]
      ]
    ]

-- The two writes of an insertion, behind the detachment.
attached :
    (d : Document) (parent child : NodeHandle) (pp cp : ℕ) (pc kc : NodeCore)
    (place : List NodeHandle → List NodeHandle)
    → core d parent ≡ some (pp, pc)
    → core d child ≡ some (cp, kc)
    → (parent_node (attach d parent child pp cp place) child ≡ parent)
      × (child_nodes (attach d parent child pp cp place) parent ≡ place pc.children)
attached d parent child pp cp pc kc place at_parent at_child =
    let k = λ (c : NodeCore). record c { parent = parent } in
    let f = λ (c : NodeCore). record c { children = place c.children } in
    let d1 = update_core d cp k in
    let c1 = core-update_core d cp k child cp kc at_child in
    let p1 = core-update_core d cp k parent pp pc at_parent in
    let c2 = core-update_core d1 pp f child cp _ c1 in
    let p2 = core-update_core d1 pp f parent pp _ p1 in
    (
      parent_node_eq _ child cp _ c2
          ∙ placed-parent (pp == cp) _ place
          ∙ written-parent (cp == cp) kc parent (==_refl cp),
      child_nodes_eq _ parent pp _ p2
          ∙ placed-children (pp == pp) _ place (==_refl pp)
          ∙ ap place (chosen-parent (cp == pp) pc parent),
    )
  where
    placed-parent :
        (b : Bool) (c : NodeCore) (g : List NodeHandle → List NodeHandle)
        → (if b then record c { children = g c.children } else c).parent ≡ c.parent
    placed-parent true c g = refl
    placed-parent false c g = refl

    placed-children :
        (b : Bool) (c : NodeCore) (g : List NodeHandle → List NodeHandle)
        → b ≡ true
        → (if b then record c { children = g c.children } else c).children ≡ g c.children
    placed-children true c g e = refl
    placed-children false c g e = absurd (ground arith)

-- The detachment keeps the address that a handle leads to.
detach-core :
    (d : Document) (child : NodeHandle) (kc : NodeCore) (g : NodeHandle) (q : ℕ) (c : NodeCore)
    → core d g ≡ some (q, c)
    → (c' : NodeCore) × (core (detach d child kc) g ≡ some (q, c'))
detach-core d child kc g q c e = elim (Bool-cases (is_null kc.parent)) [
  | inl z ↦ rw z (c, e)
  | inr z ↦ rw z (elim (Option-cases (core d kc.parent)) [
    | inl n ↦ rw (n, update_handle) (c, e)
    | inr ((p, old), n) ↦
        rw (n, update_handle)
          (
            _,
            core-update_core d p
                (λ (o : NodeCore). record o { children = erase_handle child o.children }) g q c e,
          )
  ])
]

-- An `insert_node` that reports ok found no cycle, made `parent` the parent of `child`, and put
-- `child` where `place` says among the children that `parent` has after the detachment.
pub insert_node-links :
    (fuel : ℕ) (d : Document) (parent child : NodeHandle) (pp cp : ℕ) (pc kc : NodeCore)
    (place : List NodeHandle → List NodeHandle) (d' : Document)
    → core d parent ≡ some (pp, pc)
    → core d child ≡ some (cp, kc)
    → insert_node fuel d parent child pp cp kc place ≡ some (d', DomError.ok)
    → (walk_meets fuel d parent child ≡ some false)
      × (parent_node d' child ≡ parent)
      × (child_nodes d' parent ≡ place (child_nodes (detach d child kc) parent))
unfolding insert_node
insert_node-links fuel d parent child pp cp pc kc place d' at_parent at_child e =
    elim (Option-cases (walk_meets fuel d parent child)) [
      | inl n ↦ absurd (ground arith)
      | inr (true, w) ↦ absurd (ground arith)
      | inr (false, w) ↦
          let d1 = detach d child kc in
          let d2 = attach d1 parent child pp cp place in
          let (kc', at_child') = detach-core d child kc child cp kc at_child in
          let (pc', at_parent') = detach-core d child kc parent pp pc at_parent in
          let (up, down) = attached d1 parent child pp cp pc' kc' place at_parent' at_child' in
          let (b, walked) = finished fuel d2 parent child d' (ground arith) in
          let same = λ (g : NodeHandle). core-update_connected_state fuel b d2 child d' g walked in
          (
            w,
            parent_node-core d2 d' child (same child) ∙ up,
            child_nodes-core d2 d' parent (same parent)
                ∙ down
                ∙ ap place (sym (child_nodes_eq d1 parent pp pc' at_parent')),
          )
    ]
  where
    finished :
        (fuel : ℕ) (d : Document) (parent child : NodeHandle) (d' : Document)
        → finish fuel d parent child ≡ some (d', DomError.ok)
        → (b : Bool) × (update_connected_state fuel b d child ≡ some d')
    finished fuel d parent child d' e = elim (Option-cases (is_connected fuel d parent)) [
      | inl n ↦ absurd (ground arith)
      | inr (b, n) ↦ elim (Option-cases (update_connected_state fuel b d child)) [
        | inl m ↦ absurd (ground arith)
        | inr (x, m) ↦
            let same : x ≡ d' = ground arith in (b, m ∙ ap (λ (y : Document). some y) same)
      ]
    ]
