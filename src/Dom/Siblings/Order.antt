-- ===== src/Dom/Siblings/Order.antt =====
-- The two directions among the siblings of dom/document.cpp.
use malibu.Common.{
  Bool-cases, List, [], ap, arith, exists, false, inl, inr, refl, subst, sym, true, ◌∙◌, ◌∷◌, ◌≡◌,
}
use malibu.Dom.Handle.{NodeHandle, null_handle, is_null, handle_eq, handle_eq_iff}
use malibu.Dom.Document.{Document}
use malibu.Dom.Siblings.{
  head_or_null, next_in, previous_in, siblings, next_sibling, previous_sibling,
}

-- No handle stands in the list twice, and none is null.
abbrev pub AreSiblings : List NodeHandle → Type 0
AreSiblings [] = Unit
AreSiblings (h ∷ hs) = (is_null h ≡ false) × (exists (handle_eq h) hs ≡ false) × AreSiblings hs

eq_sym : (a b : NodeHandle) → handle_eq a b ≡ handle_eq b a
eq_sym a b = ground arith

self_eq : (a : NodeHandle) → handle_eq a a ≡ true
self_eq a = ground arith

exists_behind :
    (x k : NodeHandle) (ks : List NodeHandle)
    → exists (handle_eq x) ks ≡ true
    → exists (handle_eq x) (k ∷ ks) ≡ true
exists_behind x k ks e = ground arith

head-listed :
    (ks : List NodeHandle)
    → is_null (head_or_null ks) ≡ false
    → exists (handle_eq (head_or_null ks)) ks ≡ true
head-listed [] n = absurd (ground arith)
head-listed (k ∷ ks) n = rw (self_eq k) refl

-- A next sibling that is not null is one of the handles.
next_in-listed :
    (h : NodeHandle) (ks : List NodeHandle)
    → is_null (next_in h ks) ≡ false
    → exists (handle_eq (next_in h ks)) ks ≡ true
next_in-listed h [] n = absurd (ground arith)
next_in-listed h (k ∷ ks) n = elim (Bool-cases (handle_eq k h)) [
  | inl e ↦
      let first : is_null (head_or_null ks) ≡ false = rw e at n in
      let at_ : next_in h (k ∷ ks) ≡ head_or_null ks = rw e refl in
      subst (λ x. exists (handle_eq x) (k ∷ ks) ≡ true) (sym at_)
        (exists_behind (head_or_null ks) k ks (head-listed ks first))
  | inr e ↦
      let later : is_null (next_in h ks) ≡ false = rw e at n in
      let at_ : next_in h (k ∷ ks) ≡ next_in h ks = rw e refl in
      subst (λ x. exists (handle_eq x) (k ∷ ks) ≡ true) (sym at_)
        (exists_behind (next_in h ks) k ks (next_in-listed h ks later))
]

unequal :
    (k x : NodeHandle) (ks : List NodeHandle)
    → exists (handle_eq k) ks ≡ false
    → exists (handle_eq x) ks ≡ true
    → handle_eq k x ≡ false
unequal k x ks a b = elim (Bool-cases (handle_eq k x)) [
  | inl e ↦
      absurd (apart (ap (λ (y : NodeHandle). exists (handle_eq y) ks) ((handle_eq_iff k x).0 e)))
  | inr e ↦ e
]
  where
    apart : exists (handle_eq k) ks ≡ exists (handle_eq x) ks → ⊥
    apart q = cc

-- The sibling before the next one is the node itself.
previous_in-next_in :
    (before h : NodeHandle) (ks : List NodeHandle)
    → AreSiblings ks
    → is_null (next_in h ks) ≡ false
    → previous_in before (next_in h ks) ks ≡ h
previous_in-next_in before h [] v n = absurd (ground arith)
previous_in-next_in before h (k ∷ []) v n = absurd (ground arith)
previous_in-next_in before h (k ∷ m ∷ ks) v n = elim (Bool-cases (handle_eq k h)) [
  | inl e ↦
      let one : handle_eq k m ≡ false = unequal k m (m ∷ ks) v.1 (rw (self_eq m) refl) in
      rw (e, one, self_eq m) ((handle_eq_iff k h).0 e)
  | inr e ↦
      let later : is_null (next_in h (m ∷ ks)) ≡ false = rw e at n in
      let one : handle_eq k (next_in h (m ∷ ks)) ≡ false =
        unequal k _ (m ∷ ks) v.1 (next_in-listed h (m ∷ ks) later) in
      rw (e, one) (previous_in-next_in k h (m ∷ ks) v.2 later)
]

-- Where a node has a next sibling, that one's previous sibling is the node, if both have the same
-- list of siblings and no handle stands in it twice or is null.
pub previous_sibling-next_sibling :
    (d : Document) (h : NodeHandle)
    → AreSiblings (siblings d h)
    → is_null (next_sibling d h) ≡ false
    → siblings d (next_sibling d h) ≡ siblings d h
    → previous_sibling d (next_sibling d h) ≡ h
unfolding next_sibling previous_sibling
previous_sibling-next_sibling d h v n same =
    ap (previous_in null_handle (next_in h (siblings d h))) same
    ∙ previous_in-next_in null_handle h (siblings d h) v n
