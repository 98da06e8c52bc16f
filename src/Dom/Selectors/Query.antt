-- ===== src/Dom/Selectors/Query.antt =====
-- `collect_descendants`, `query_selector` and `query_selector_all` of dom/document.cpp.
pub mod Compounds
pub mod Laws
use malibu.Common.{
  ==_iff, All, All-append, All-imp, Bool, Bool-cases, Distinct, Distinct-snoc, List, List-cases,
  Option, Option-cases, [], ap, arith, drop, drop-length-append, exists, exists_get_elem?,
  exists_none, false, get_elem?, get_elem?-append_left, get_elem?-append_length, get_elem?-lt,
  get_elem?-set_ne, get_elem?-set_self, get_elem?_lem, get_or, if◌then◌else◌, inl, inr, is_empty,
  keep, leb, leb→le, length, length-append, length-drop, length-keep-le, length-set, listed,
  listed-append, ltb, ltb→lt, lt→ltb, map, map-append_lem, none, not, not-listed, refl, set,
  set-append_length, set-get_elem?, set-set, some, subst, suc, sym, take, take-length-append, tests,
  true, zero, ℕ, ◌%◌, ◌&&◌, ◌*◌, ◌++◌, ◌+◌, ◌-◌, ◌/◌, ◌<◌, ◌==◌, ◌^◌, ◌||◌, ◌↔◌, ◌∙◌, ◌∷◌, ◌≡◌, ◌≢◌,
  ◌≤◌, ◌⊎◌,
}
use malibu.Dom.Handle.{NodeHandle, null_handle}
use malibu.Dom.NodeTable.{NodeCore}
use malibu.Dom.Document.{Document, core}
use malibu.Dom.Selectors.{CompoundStep, narrow, parse_selector}
use malibu.Dom.Selectors.Matching.{matches_chain}

-- The loop over the children; the descendants of each one are given by `below`.
abbrev pub with_below :
    NodeHandle → Option (List NodeHandle) → Option (List NodeHandle) → Option (List NodeHandle)
with_below h none rest = none
with_below h (some hs) none = none
with_below h (some hs) (some rest) = some (h ∷ hs ++ rest)

abbrev pub each_child :
    (NodeHandle → Option (List NodeHandle)) → List NodeHandle → Option (List NodeHandle)
each_child below [] = some []
each_child below (h ∷ hs) = with_below h (below h) (each_child below hs)

-- The descendants in the order of the document; `none` says that the fuel ran out.
unfoldable pub collect_descendants : ℕ → Document → NodeHandle → Option (List NodeHandle)
unfolding core
collect_descendants zero d h = none
collect_descendants (suc fuel) d h = elim (core d h) [
  | none ↦ some []
  | some (p, c) ↦ each_child (collect_descendants fuel d) c.children
]

abbrev pub reversed {ℓ} : {A : Type ℓ} → List A → List A → List A
reversed out [] = out
reversed out (x ∷ xs) = reversed (x ∷ out) xs

unfoldable pub first_match : ℕ → Document → List CompoundStep → List NodeHandle → Option NodeHandle
unfolding matches_chain
first_match fuel d steps [] = some null_handle
first_match fuel d steps (h ∷ hs) = elim (matches_chain fuel d h steps) [
  | none ↦ none
  | some true ↦ some h
  | some false ↦ first_match fuel d steps hs
]

abbrev pub prepend : NodeHandle → Bool → Option (List NodeHandle) → Option (List NodeHandle)
prepend h b none = none
prepend h b (some hs) = some (if b then h ∷ hs else hs)

unfoldable pub all_matches :
    ℕ → Document → List CompoundStep → List NodeHandle → Option (List NodeHandle)
unfolding matches_chain
all_matches fuel d steps [] = some []
all_matches fuel d steps (h ∷ hs) = elim (matches_chain fuel d h steps) [
  | none ↦ none
  | some b ↦ prepend h b (all_matches fuel d steps hs)
]

abbrev pub or_none {ℓ κ} : {A : Type ℓ} {B : Type κ} → Option A → (A → Option B) → Option B
or_none none f = none
or_none (some x) f = f x

unfoldable pub query_selector : ℕ → Document → NodeHandle → List ℕ → Option NodeHandle
unfolding parse_selector collect_descendants first_match
query_selector fuel d scope selector =
    or_none (parse_selector (narrow selector)) (λ (steps : List CompoundStep).
      if is_empty steps
      then some null_handle
      else or_none (collect_descendants fuel d scope) (first_match fuel d (reversed [] steps)))

-- The nodes that are pushed to `out`.
unfoldable pub query_selector_all : ℕ → Document → NodeHandle → List ℕ → Option (List NodeHandle)
unfolding parse_selector collect_descendants all_matches
query_selector_all fuel d scope selector =
    or_none (parse_selector (narrow selector)) (λ (steps : List CompoundStep).
      if is_empty steps
      then some []
      else or_none (collect_descendants fuel d scope) (all_matches fuel d (reversed [] steps)))
