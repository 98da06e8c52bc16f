-- ===== src/Dom/DomTree.antt =====
-- `DOMTree` of dom/document.cpp: connectivity and the structural mutations.
--
-- The walks along parents and into children need not end on a tree that other code has tied into a
-- knot, so they take fuel, and an outer `none` says that it ran out.
pub mod Cores
pub mod Links
use malibu.Common.{
  ==_iff, All, All-append, All-imp, Bool, Bool-cases, Distinct, Distinct-snoc, List, List-cases,
  Option, Option-cases, [], ap, arith, drop, drop-length-append, exists, exists_get_elem?,
  exists_none, false, get_elem?, get_elem?-append_left, get_elem?-append_length, get_elem?-lt,
  get_elem?-set_ne, get_elem?-set_self, get_elem?_lem, get_or, if◌then◌else◌, inl, inr, is_empty,
  keep, leb, leb→le, length, length-append, length-drop, length-keep-le, length-set, listed,
  listed-append, ltb, ltb→lt, lt→ltb, map, map-append_lem, none, not, not-listed, refl, set,
  set-append_length, set-get_elem?, set-set, some, subst, suc, sym, take, take-length-append, tests,
  true, zero, ℕ, ◌%◌, ◌&&◌, ◌*◌, ◌++◌, ◌+◌, ◌-◌, ◌/◌, ◌<◌, ◌==◌, ◌^◌, ◌||◌, ◌↔◌, ◌∙◌, ◌∷◌, ◌≡◌, ◌≢◌,
  ◌≤◌, ◌⊎◌,
}
use malibu.Common.Bytes.{bytes_eq}
use malibu.Dom.Handle.{NodeHandle, null_handle, is_null, handle_eq}
use malibu.Dom.NodeTable.{NodeCore, NodeSlot, NodeTable, NodeState, resolve, state_of, set_state}
use malibu.Dom.Document.{
  Document, create_node, core, update_core, state_in, change_state, element_node, text_node,
  comment_node, document_fragment_node,
}
use malibu.Dom.Attributes.{set_attr, get_attr}
use malibu.Dom.Creation.{update_handle}

pub data DomError : Type 0 where
  ok invalid_state not_found hierarchy_request : DomError

-- Whether the walk from `h` along parents meets `target`: the loop of `is_connected`, which gives up
-- at a node with no core, and of the cycle check, which goes on with the null handle there. Both
-- stop at the null handle with `false`.
unfoldable pub walk_meets : ℕ → Document → NodeHandle → NodeHandle → Option Bool
unfolding core
walk_meets zero d h target = none
walk_meets (suc fuel) d h target =
    let rest : Option Bool = elim (core d h) [
      | none ↦ some false
      | some (p, c) ↦ walk_meets fuel d c.parent target
    ] in
    if is_null h then some false else if handle_eq h target then some true else rest

abbrev pub is_connected : ℕ → Document → NodeHandle → Option Bool
is_connected fuel d h = walk_meets fuel d h d.root

-- A loop over handles that changes the document.
unfoldable pub for_each :
    (Document → NodeHandle → Option Document) → List NodeHandle → Document → Option Document
for_each f [] d = some d
for_each f (h ∷ hs) d = elim (f d h) [ none ↦ none | some d' ↦ for_each f hs d' ]

abbrev pub settled : NodeState → Bool
settled NodeState.pending_destroy = true
settled NodeState.dead = true
settled _ = false

abbrev pub connection : Bool → NodeState
connection connected = if connected then NodeState.alive_connected else NodeState.alive_detached

unfoldable pub update_connected_state : ℕ → Bool → Document → NodeHandle → Option Document
unfolding core change_state for_each
update_connected_state zero connected d h = none
update_connected_state (suc fuel) connected d h = elim (core d h) [
  | none ↦ some d
  | some (p, c) ↦
      if settled (state_in d h)
      then some d
      else for_each (update_connected_state fuel connected) c.children
          (change_state d h (connection connected))
]

-- The state guards that the mutations begin with.
abbrev pub is_pending : NodeState → Bool
is_pending NodeState.pending_destroy = true
is_pending _ = false

abbrev pub is_dead_state : NodeState → Bool
is_dead_state NodeState.dead = true
is_dead_state _ = false

abbrev pub guard_states : NodeState → NodeState → DomError
guard_states ps cs =
    if is_dead_state ps || is_dead_state cs
    then DomError.not_found
    else if is_pending ps || is_pending cs
    then DomError.invalid_state
    else DomError.ok

-- `std::erase(children, child)`.
abbrev pub erase_handle : NodeHandle → List NodeHandle → List NodeHandle
erase_handle child = keep (λ h. not (handle_eq h child))

abbrev pub detach : Document → NodeHandle → NodeCore → Document
detach d child cc =
    if is_null cc.parent
    then d
    else update_handle d cc.parent
        (λ old. record old { children = erase_handle child old.children })

-- The two writes behind the detachment; `place` is where the child goes among the children.
abbrev pub attach :
    Document → NodeHandle → NodeHandle → ℕ → ℕ → (List NodeHandle → List NodeHandle) → Document
attach d parent child pp cp place =
    update_core (update_core d cp (λ c. record c { parent = parent })) pp
      (λ c. record c { children = place c.children })

abbrev pub finish : ℕ → Document → NodeHandle → NodeHandle → Option (Document × DomError)
finish fuel d parent child = elim (is_connected fuel d parent) [
  | none ↦ none
  | some connected ↦ elim (update_connected_state fuel connected d child) [
    | none ↦ none
    | some d' ↦ some (d', DomError.ok)
  ]
]

-- An insertion of a node that is no fragment: the cycle check, the detachment, the writes, and the
-- state of the subtree. The child goes to the end, or where `place` puts it.
unfoldable pub insert_node :
    ℕ
    → Document
    → NodeHandle
    → NodeHandle
    → ℕ
    → ℕ
    → NodeCore
    → (List NodeHandle → List NodeHandle)
    → Option (Document × DomError)
unfolding walk_meets update_connected_state core
insert_node fuel d parent child pp cp cc place = elim (walk_meets fuel d parent child) [
  | none ↦ none
  | some cycle ↦
      if cycle
      then some (d, DomError.hierarchy_request)
      else finish fuel (attach (detach d child cc) parent child pp cp place) parent child
]

abbrev pub ignore_error : Option (Document × DomError) → Option Document
ignore_error none = none
ignore_error (some (d, e)) = some d

abbrev pub with_ok : Option Document → Option (Document × DomError)
with_ok none = none
with_ok (some d) = some (d, DomError.ok)

abbrev pub push_back : NodeHandle → List NodeHandle → List NodeHandle
push_back h hs = hs ++ h ∷ []

unfoldable pub append_child : ℕ → Document → NodeHandle → NodeHandle → Option (Document × DomError)
unfolding insert_node for_each core
append_child zero d parent child = none
append_child (suc fuel) d parent child =
    elim (guard_states (state_in d parent) (state_in d child)) [
      | DomError.ok ↦ elim (core d parent) [
        | none ↦ some (d, DomError.not_found)
        | some (pp, pc) ↦ elim (core d child) [
          | none ↦ some (d, DomError.not_found)
          | some (cp, cc) ↦
              let moved = with_ok (
                for_each (λ d' kid. ignore_error (append_child fuel d' parent kid)) cc.children
                  d) in
              if cc.node_type == document_fragment_node
              then moved
              else insert_node fuel d parent child pp cp cc (push_back child)
        ]
      ]
      | e ↦ some (d, e)
    ]

abbrev pub contains : NodeHandle → List NodeHandle → Bool
contains h = exists (λ k. handle_eq k h)

-- `children.insert(find(children, ref), child)`; with no `ref` there the child goes to the end.
abbrev pub insert_at : NodeHandle → NodeHandle → List NodeHandle → List NodeHandle
insert_at ref child [] = child ∷ []
insert_at ref child (h ∷ hs) =
    if handle_eq h ref then child ∷ h ∷ hs else h ∷ insert_at ref child hs

unfoldable pub insert_before :
    ℕ → Document → NodeHandle → NodeHandle → NodeHandle → Option (Document × DomError)
unfolding append_child insert_node for_each core
insert_before zero d parent child ref = none
insert_before (suc fuel) d parent child ref =
    if is_null ref
    then append_child fuel d parent child
    else elim (guard_states (state_in d parent) (state_in d child)) [
      | DomError.ok ↦ elim (core d parent) [
        | none ↦ some (d, DomError.not_found)
        | some (pp, pc) ↦ elim (core d child) [
          | none ↦ some (d, DomError.not_found)
          | some (cp, cc) ↦
              let moved = with_ok (
                for_each (λ d' kid. ignore_error (insert_before fuel d' parent kid ref)) cc.children
                  d) in
              if not (contains ref pc.children)
              then some (d, DomError.not_found)
              else if cc.node_type == document_fragment_node
              then moved
              else insert_node fuel d parent child pp cp cc (insert_at ref child)
        ]
      ]
      | e ↦ some (d, e)
    ]

-- `children.erase(find(children, child))`: the first occurrence.
abbrev pub erase_first : NodeHandle → List NodeHandle → List NodeHandle
erase_first child [] = []
erase_first child (h ∷ hs) = if handle_eq h child then hs else h ∷ erase_first child hs

unfoldable pub remove_child : ℕ → Document → NodeHandle → NodeHandle → Option (Document × DomError)
unfolding update_connected_state core
remove_child fuel d parent child =
    if is_dead_state (state_in d parent) || is_dead_state (state_in d child)
    then some (d, DomError.not_found)
    else elim (core d parent) [
      | none ↦ some (d, DomError.not_found)
      | some (pp, pc) ↦ elim (core d child) [
        | none ↦ some (d, DomError.not_found)
        | some (cp, cc) ↦
            if not (contains child pc.children)
            then some (d, DomError.hierarchy_request)
            else with_ok (
                update_connected_state fuel false
                  (update_core
                    (update_core d pp (λ c. record c { children = erase_first child c.children }))
                    cp (λ c. record c { parent = null_handle }))
                  child)
      ]
    ]
