-- ===== src/Dom/Attributes/Order.antt =====
-- The order of attribute names in dom/document.cpp is a strict total order.
use malibu.Common.{Bool, Bool-cases, List, [], arith, false, inl, inr, refl, true, ℕ, ◌∷◌, ◌≡◌}
use malibu.Dom.Attributes.{text_lt}

pub text_lt_irrefl : (xs : List ℕ) → text_lt xs xs ≡ false
unfolding text_lt
text_lt_irrefl [] = refl
text_lt_irrefl (x ∷ xs) = ground (arith, text_lt_irrefl xs)

pub text_lt_trans :
    (xs ys zs : List ℕ) → text_lt xs ys ≡ true → text_lt ys zs ≡ true → text_lt xs zs ≡ true
unfolding text_lt
text_lt_trans xs [] zs p q = absurd (ground arith)
text_lt_trans xs (y ∷ ys) [] p q = absurd (ground arith)
text_lt_trans [] (y ∷ ys) (z ∷ zs) p q = refl
text_lt_trans (x ∷ xs) (y ∷ ys) (z ∷ zs) p q = ground (arith, text_lt_trans xs ys zs)

-- Two names neither of which is less are one name.
pub text_lt_total : (xs ys : List ℕ) → text_lt xs ys ≡ false → text_lt ys xs ≡ false → xs ≡ ys
unfolding text_lt
text_lt_total [] [] p q = refl
text_lt_total [] (y ∷ ys) p q = absurd (ground arith)
text_lt_total (x ∷ xs) [] p q = absurd (ground arith)
text_lt_total (x ∷ xs) (y ∷ ys) p q = ground (arith, text_lt_total xs ys)

pub text_lt_asym : (xs ys : List ℕ) → text_lt xs ys ≡ true → text_lt ys xs ≡ false
text_lt_asym xs ys p = elim (Bool-cases (text_lt ys xs)) [
  | inl q ↦ absurd (clash (text_lt_trans xs ys xs p q) (text_lt_irrefl xs))
  | inr q ↦ q
]
  where
    clash : {b : Bool} → b ≡ true → b ≡ false → ⊥
    clash p q = cc
