-- ===== src/Dom/Selectors/Query/Laws.antt =====
-- The two queries agree, and what they find is a descendant that matches.
use malibu.Common.{
  All, Bool, Bool-cases, List, Option-cases, [], arith, false, if◌then◌else◌, inl, inr, none, refl,
  some, subst, suc, sym, true, zero, ℕ, ◌∙◌, ◌∷◌, ◌≡◌,
}
use malibu.Dom.Handle.{NodeHandle, is_null}
use malibu.Dom.Siblings.{head_or_null}
use malibu.Dom.Document.{Document}
use malibu.Dom.Selectors.{Compound, Combinator, CompoundStep, narrow, parse_selector}
use malibu.Dom.Selectors.Matching.{matches_compound, parent_of, nearest, match_up, matches_chain}
use malibu.Dom.Selectors.Query.Compounds.{Fits, matches_compound-Fits}
use malibu.Dom.Selectors.Query.{
  reversed, first_match, all_matches, collect_descendants, query_selector, query_selector_all,
}

first-all :
    (fuel : ℕ) (d : Document) (steps : List CompoundStep) (hs out : List NodeHandle)
    → all_matches fuel d steps hs ≡ some out
    → first_match fuel d steps hs ≡ some (head_or_null out)
unfolding all_matches first_match
first-all fuel d steps [] out e = ground arith
first-all fuel d steps (h ∷ hs) out e = elim (Option-cases (matches_chain fuel d h steps)) [
  | inl k ↦ absurd (ground arith)
  | inr (b, k) ↦ elim (Option-cases (all_matches fuel d steps hs)) [
    | inl l ↦ absurd (ground arith)
    | inr (rest, l) ↦ ground (arith, first-all fuel d steps hs rest l)
  ]
]

-- Where query_selector_all returns, query_selector returns the first of the nodes it found, and the
-- null handle if it found none.
pub query_selector-first :
    (fuel : ℕ) (d : Document) (scope : NodeHandle) (selector : List ℕ) (out : List NodeHandle)
    → query_selector_all fuel d scope selector ≡ some out
    → query_selector fuel d scope selector ≡ some (head_or_null out)
unfolding query_selector query_selector_all
query_selector-first fuel d scope selector out e =
    elim (Option-cases (parse_selector (narrow selector))) [
      | inl k ↦ absurd (ground arith)
      | inr ([], k) ↦ rw k (ground arith)
      | inr (s ∷ steps, k) ↦ elim (Option-cases (collect_descendants fuel d scope)) [
        | inl l ↦ absurd (ground arith)
        | inr (hs, l) ↦ rw (k, l) (first-all fuel d (reversed [] (s ∷ steps)) hs out (ground arith))
      ]
    ]

-- What a chain of steps, from right to left, means: each compound fits its node, a child step leads
-- to the parent and a descendant step to some ancestor.
pub data IsAncestor (d : Document) : NodeHandle → NodeHandle → Type 0 where
  parent : (h p : NodeHandle) → p ≡ parent_of d h → IsAncestor d h p
  above : (h q p : NodeHandle) → q ≡ parent_of d h → IsAncestor d q p → IsAncestor d h p

abbrev pub IsRelated : Document → Combinator → NodeHandle → NodeHandle → Type 0
IsRelated d Combinator.child h p = p ≡ parent_of d h
IsRelated d Combinator.descendant h p = IsAncestor d h p

abbrev pub Matches : Document → NodeHandle → Combinator → List CompoundStep → Type 0
Matches d h combinator [] = Unit
Matches d h combinator (s ∷ steps) =
    (p : NodeHandle) × IsRelated d combinator h p
    × Fits d p s.compound
    × Matches d p s.combinator steps

nearest-IsAncestor :
    (fuel : ℕ) (d : Document) (h q p : NodeHandle) (target : Compound)
    → q ≡ parent_of d h
    → nearest fuel d q target ≡ some (some p)
    → IsAncestor d h p × (matches_compound d p target ≡ true)
unfolding nearest
nearest-IsAncestor zero d h q p target e f = absurd (ground arith)
nearest-IsAncestor (suc fuel) d h q p target e f = elim (Bool-cases (is_null q)) [
  | inl k ↦ absurd (ground arith)
  | inr k ↦ elim (Bool-cases (matches_compound d q target)) [
    | inl l ↦
        let same : q ≡ p = ground arith in
        (
          IsAncestor.parent h p (sym same ∙ e),
          subst (λ x. matches_compound d x target ≡ true) same l,
        )
    | inr l ↦
        let (a, m) = nearest-IsAncestor fuel d q (parent_of d q) p target refl (ground arith) in
        (IsAncestor.above h q p e a, m)
  ]
]

match_up-Matches :
    (fuel : ℕ) (d : Document) (h : NodeHandle) (c : Combinator) (steps : List CompoundStep)
    → match_up fuel d h c steps ≡ some true
    → Matches d h c steps
unfolding match_up
match_up-Matches fuel d h c [] e = tt
match_up-Matches fuel d h Combinator.child (s ∷ steps) e = (
  parent_of d h,
  refl,
  matches_compound-Fits d (parent_of d h) s.compound (ground arith),
  match_up-Matches fuel d (parent_of d h) s.combinator steps (ground arith),
)
match_up-Matches fuel d h Combinator.descendant (s ∷ steps) e =
    elim (Option-cases (nearest fuel d (parent_of d h) s.compound)) [
      | inl k ↦ absurd (ground arith)
      | inr (none, k) ↦ absurd (ground arith)
      | inr (some p, k) ↦
          let (a, m) = nearest-IsAncestor fuel d h (parent_of d h) p s.compound refl k in
          (
            p,
            a,
            matches_compound-Fits d p s.compound m,
            match_up-Matches fuel d p s.combinator steps (ground arith),
          )
    ]

-- What a whole selector means for a node.
abbrev pub Selects : Document → List CompoundStep → NodeHandle → Type 0
Selects d [] h = ⊥
Selects d (s ∷ steps) h = Fits d h s.compound × Matches d h s.combinator steps

matches_chain-Selects :
    (fuel : ℕ) (d : Document) (steps : List CompoundStep) (h : NodeHandle)
    → matches_chain fuel d h steps ≡ some true
    → Selects d steps h
unfolding matches_chain
matches_chain-Selects fuel d [] h e = absurd (ground arith)
matches_chain-Selects fuel d (s ∷ steps) h e = (
  matches_compound-Fits d h s.compound (ground arith),
  match_up-Matches fuel d h s.combinator steps (ground arith),
)

All-Selects :
    (fuel : ℕ) (d : Document) (steps : List CompoundStep) (hs out : List NodeHandle)
    → all_matches fuel d steps hs ≡ some out
    → All (Selects d steps) out
unfolding all_matches
All-Selects fuel d steps [] out e =
    let empty : ◌≡◌ {A = List NodeHandle} [] out = ground arith in
    subst (All (Selects d steps)) empty tt
All-Selects fuel d steps (h ∷ hs) out e = elim (Option-cases (matches_chain fuel d h steps)) [
  | inl k ↦ absurd (ground arith)
  | inr (b, k) ↦ elim (Option-cases (all_matches fuel d steps hs)) [
    | inl l ↦ absurd (ground arith)
    | inr (rest, l) ↦
        let ih = All-Selects fuel d steps hs rest l in
        let shape : (if b then h ∷ rest else rest) ≡ out = ground arith in
        subst (All (Selects d steps)) shape (chosen b rest k ih)
  ]
]
  where
    chosen :
        (b : Bool) (rest : List NodeHandle)
        → matches_chain fuel d h steps ≡ some b
        → All (Selects d steps) rest
        → All (Selects d steps) (if b then h ∷ rest else rest)
    chosen true rest k r = (matches_chain-Selects fuel d steps h k, r)
    chosen false rest k r = r

-- Every node that query_selector_all finds is selected by the steps that parse_selector read, taken
-- from the last: the node is an element with the tag, the id and all the classes that the last
-- compound asks for, and from there a child step leads to the parent and a descendant step to some
-- ancestor that has what its own compound asks for.
pub query_selector_all-Selects :
    (fuel : ℕ) (d : Document) (scope : NodeHandle) (selector : List ℕ) (steps : List CompoundStep)
    (out : List NodeHandle)
    → parse_selector (narrow selector) ≡ some steps
    → query_selector_all fuel d scope selector ≡ some out
    → All (Selects d (reversed [] steps)) out
unfolding query_selector_all
query_selector_all-Selects fuel d scope selector [] out k e =
    let empty : ◌≡◌ {A = List NodeHandle} [] out = ground arith in
    subst (All (Selects d [])) empty tt
query_selector_all-Selects fuel d scope selector (s ∷ steps) out k e =
    elim (Option-cases (collect_descendants fuel d scope)) [
      | inl l ↦ absurd (ground arith)
      | inr (hs, l) ↦ All-Selects fuel d (reversed [] (s ∷ steps)) hs out (ground arith)
    ]
