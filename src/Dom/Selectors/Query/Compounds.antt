-- ===== src/Dom/Selectors/Query/Compounds.antt =====
-- What a compound selector that `parse_selector` of dom/document.cpp read says of a node.
use malibu.Common.{
  ==_iff, All, Bool, Bool-cases, List, Option, Option-cases, [], arith, exists, false, inl, inr,
  is_empty, none, refl, some, true, ℕ, ◌==◌, ◌||◌, ◌∷◌, ◌≡◌, ◌⊎◌,
}
use malibu.Common.Bytes.{bytes_eq, bytes_eq_iff, codes}
use malibu.Security.Text.{split_ws}
use malibu.Dom.Handle.{NodeHandle}
use malibu.Dom.NodeTable.{NodeCore}
use malibu.Dom.Document.{Document, core, element_node}
use malibu.Dom.Selectors.{Compound, narrow}
use malibu.Dom.Selectors.Matching.{
  attribute_of, tag_matches, is_id, id_matches, class_list, all_in, classes_match, matches_core,
  matches_compound,
}

abbrev pub IsIn : List ℕ → List (List ℕ) → Type 0
IsIn w [] = ⊥
IsIn w (x ∷ xs) = (w ≡ x) ⊎ IsIn w xs

abbrev pub HasTag : Compound → NodeCore → Type 0
HasTag comp c = (comp.universal ≡ true) ⊎ ((comp.tag ≡ []) ⊎ (narrow c.tag_name ≡ comp.tag))

abbrev pub HasId : Compound → NodeCore → Type 0
HasId comp c =
    (comp.id ≡ [])
    ⊎ ((v : List ℕ) × (attribute_of (codes "id") c.attributes ≡ some v) × (narrow v ≡ comp.id))

-- The name is a word of the class attribute.
abbrev pub HasClass : NodeCore → List ℕ → Type 0
HasClass c name =
    (v : List ℕ) × (attribute_of (codes "class") c.attributes ≡ some v)
    × IsIn name (split_ws (narrow v))

-- The node is an element with the tag and the id that the compound asks for, if it asks for any, and
-- with all of its classes.
abbrev pub Fits : Document → NodeHandle → Compound → Type 0
Fits d h comp =
    (p : ℕ) × (c : NodeCore) × (core d h ≡ some (p, c))
    × (c.node_type ≡ element_node)
    × HasTag comp c
    × HasId comp c
    × All (HasClass c) comp.classes

is_empty_nil : (s : List ℕ) → is_empty s ≡ true → s ≡ []
is_empty_nil [] e = refl
is_empty_nil (c ∷ cs) e = absurd (cc)

or_cases : (a b : Bool) → (a || b) ≡ true → (a ≡ true) ⊎ (b ≡ true)
or_cases true b e = inl refl
or_cases false b e = inr e

tag_matches-HasTag : (comp : Compound) (c : NodeCore) → tag_matches comp c ≡ true → HasTag comp c
tag_matches-HasTag comp c e = elim (or_cases comp.universal _ e) [
  | inl u ↦ inl u
  | inr r ↦ elim (or_cases (is_empty comp.tag) _ r) [
    | inl n ↦ inr (inl (is_empty_nil comp.tag n))
    | inr q ↦ inr (inr ((bytes_eq_iff (narrow c.tag_name) comp.tag).0 q))
  ]
]

is_id-some :
    (id : List ℕ) (o : Option (List ℕ))
    → is_id id o ≡ true
    → (v : List ℕ) × (o ≡ some v) × (narrow v ≡ id)
is_id-some id none e = absurd (cc)
is_id-some id (some v) e = (v, refl, (bytes_eq_iff (narrow v) id).0 e)

id_matches-HasId : (comp : Compound) (c : NodeCore) → id_matches comp c ≡ true → HasId comp c
id_matches-HasId comp c e = elim (or_cases (is_empty comp.id) _ e) [
  | inl n ↦ inl (is_empty_nil comp.id n)
  | inr q ↦ inr (is_id-some comp.id (attribute_of (codes "id") c.attributes) q)
]

exists-IsIn : (w : List ℕ) (xs : List (List ℕ)) → exists (bytes_eq w) xs ≡ true → IsIn w xs
exists-IsIn w [] e = absurd (cc)
exists-IsIn w (x ∷ xs) e = elim (Bool-cases (bytes_eq w x)) [
  | inl q ↦ inl ((bytes_eq_iff w x).0 q)
  | inr q ↦ inr (exists-IsIn w xs (ground arith))
]

class_list-IsIn :
    (w : List ℕ) (o : Option (List ℕ))
    → exists (bytes_eq w) (class_list o) ≡ true
    → (v : List ℕ) × (o ≡ some v) × IsIn w (split_ws (narrow v))
class_list-IsIn w none e = absurd (cc)
class_list-IsIn w (some v) e = (v, refl, exists-IsIn w (split_ws (narrow v)) e)

all_in-HasClass :
    (c : NodeCore) (wants : List (List ℕ))
    → all_in wants (class_list (attribute_of (codes "class") c.attributes)) ≡ true
    → All (HasClass c) wants
all_in-HasClass c [] e = tt
all_in-HasClass c (w ∷ ws) e =
    let have = class_list (attribute_of (codes "class") c.attributes) in
    elim (Bool-cases (exists (bytes_eq w) have)) [
      | inl q ↦ (
        class_list-IsIn w (attribute_of (codes "class") c.attributes) q,
        all_in-HasClass c ws (ground arith),
      )
      | inr q ↦ absurd (ground arith)
    ]

classes_match-HasClass :
    (c : NodeCore) (comp : Compound) → classes_match comp c ≡ true → All (HasClass c) comp.classes
classes_match-HasClass c comp e = shaped comp.classes e
  where
    shaped :
        (wants : List (List ℕ))
        → (is_empty wants || all_in wants (class_list (attribute_of (codes "class") c.attributes)))
          ≡ true
        → All (HasClass c) wants
    shaped [] e = tt
    shaped (w ∷ ws) e = all_in-HasClass c (w ∷ ws) e

-- A node that matches a compound is what the compound asks for.
pub matches_compound-Fits :
    (d : Document) (h : NodeHandle) (comp : Compound)
    → matches_compound d h comp ≡ true
    → Fits d h comp
unfolding matches_compound matches_core
matches_compound-Fits d h comp e = elim (Option-cases (core d h)) [
  | inl n ↦ absurd (ground arith)
  | inr ((p, c), n) ↦
      let kind : (c.node_type == element_node) ≡ true = ground arith in
      let tag : tag_matches comp c ≡ true = ground arith in
      let id : id_matches comp c ≡ true = ground arith in
      let classes : classes_match comp c ≡ true = ground arith in
      (
        p,
        c,
        n,
        (==_iff c.node_type element_node).0 kind,
        tag_matches-HasTag comp c tag,
        id_matches-HasId comp c id,
        classes_match-HasClass c comp classes,
      )
]
