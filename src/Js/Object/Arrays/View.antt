-- ===== src/Js/Object/Arrays/View.antt =====
-- What script sees of a `JSArray` of js/runtime/objects.cpp: a value at each index that is present and
-- a hole at the others. The operations are those of such a list.
use malibu.Common.{
  Bool, Bool-cases, List, Option, [], ap, arith, false, if◌then◌else◌, inl, inr, length, ltb, none,
  refl, set, some, suc, sym, true, zero, ℕ, ◌++◌, ◌∙◌, ◌∷◌, ◌≡◌, ◌≤◌,
}
use malibu.Js.Value.{Value}
use malibu.Js.Object.{JsArray}
use malibu.Js.Object.Arrays.{resize, all_present, materialize, sized, normalize}

-- An index without a flag is present.
abbrev pub slots : List Value → List Bool → List (Option Value)
slots [] ps = []
slots (v ∷ vs) [] = some v ∷ slots vs []
slots (v ∷ vs) (p ∷ ps) = (if p then some v else none) ∷ slots vs ps

abbrev pub view : JsArray → List (Option Value)
view a = slots a.elements a.presence

-- There are no flags behind the elements.
abbrev pub IsSized : JsArray → Type 0
IsSized a = length a.presence ≤ length a.elements

abbrev pub flag : Bool → Value → Option Value
flag b v = if b then some v else none

pub length-resize {ℓ} : {A : Type ℓ} (n : ℕ) (xs : List A) (v : A) → length (resize n xs v) ≡ n
length-resize zero xs v = refl
length-resize (suc n) [] v = ap suc (length-resize n [] v)
length-resize (suc n) (x ∷ xs) v = ap suc (length-resize n xs v)

pub resize-shrink {ℓ} :
    {A : Type ℓ} (n : ℕ) (xs : List A) (v w : A) → n ≤ length xs → resize n xs v ≡ resize n xs w
resize-shrink zero xs v w h = refl
resize-shrink (suc n) [] v w h = absurd (omega arith)
resize-shrink (suc n) (x ∷ xs) v w h = ap (◌∷◌ x) (resize-shrink n xs v w (omega arith))

pub length-slots : (vs : List Value) (ps : List Bool) → length (slots vs ps) ≡ length vs
length-slots [] ps = refl
length-slots (v ∷ vs) [] = ap suc (length-slots vs [])
length-slots (v ∷ vs) (p ∷ ps) = ap suc (length-slots vs ps)

pub slots-resize-true :
    (vs : List Value) (ps : List Bool) → slots vs (resize (length vs) ps true) ≡ slots vs ps
slots-resize-true [] ps = refl
slots-resize-true (v ∷ vs) [] = ap (◌∷◌ (some v)) (slots-resize-true vs [])
slots-resize-true (v ∷ vs) (p ∷ ps) = ap (◌∷◌ (flag p v)) (slots-resize-true vs ps)

pub slots-all_present :
    (vs : List Value) (ps : List Bool) → all_present ps ≡ true → slots vs ps ≡ slots vs []
slots-all_present [] ps h = refl
slots-all_present (v ∷ vs) [] h = refl
slots-all_present (v ∷ vs) (true ∷ ps) h = ap (◌∷◌ (some v)) (slots-all_present vs ps h)
slots-all_present (v ∷ vs) (false ∷ ps) h = absurd (cc)

pub slots-materialize :
    (vs : List Value) (ps : List Bool) → slots vs (materialize (length vs) ps) ≡ slots vs ps
unfolding materialize
slots-materialize vs [] = slots-resize-true vs []
slots-materialize vs (p ∷ ps) = elim (Bool-cases (ltb (suc (length ps)) (length vs))) [
  | inl e ↦ rw e (slots-resize-true vs (p ∷ ps))
  | inr e ↦ rw e refl
]

pub length-materialize : (n : ℕ) (ps : List Bool) → length ps ≤ n → length (materialize n ps) ≡ n
unfolding materialize
length-materialize n [] h = length-resize n [] true
length-materialize n (p ∷ ps) h = elim (Bool-cases (ltb (suc (length ps)) n)) [
  | inl e ↦ rw e (length-resize n (p ∷ ps) true)
  | inr e ↦ rw e (ground arith)
]

pub slots-sized : (vs : List Value) (ps : List Bool) → slots vs (sized (length vs) ps) ≡ slots vs ps
slots-sized vs ps = elim (Bool-cases (ltb (length ps) (length vs))) [
  | inl e ↦ rw e (slots-resize-true vs ps)
  | inr e ↦ rw e (elim (Bool-cases (ltb (length vs) (length ps))) [
    | inl g ↦
        let le : length vs ≤ length ps = ground arith in
        rw (g, resize-shrink (length vs) ps false true le) (slots-resize-true vs ps)
    | inr g ↦ rw g refl
  ])
]

pub length-sized : (n : ℕ) (ps : List Bool) → length (sized n ps) ≡ n
length-sized n ps = elim (Bool-cases (ltb (length ps) n)) [
  | inl e ↦ rw e (length-resize n ps true)
  | inr e ↦ rw e (elim (Bool-cases (ltb n (length ps))) [
    | inl g ↦ rw g (length-resize n ps false)
    | inr g ↦ rw g (ground arith)
  ])
]

pub slots-normalize :
    (vs : List Value) (ps : List Bool) → slots vs (normalize (length vs) ps) ≡ slots vs ps
unfolding normalize
slots-normalize vs [] = refl
slots-normalize vs (p ∷ ps) = elim (Bool-cases (all_present (sized (length vs) (p ∷ ps)))) [
  | inl e ↦
      rw e (sym (slots-all_present vs (sized (length vs) (p ∷ ps)) e) ∙ slots-sized vs (p ∷ ps))
  | inr e ↦ rw e (slots-sized vs (p ∷ ps))
]

pub length-normalize-le : (n : ℕ) (ps : List Bool) → length (normalize n ps) ≤ n
unfolding normalize
length-normalize-le n [] = omega arith
length-normalize-le n (p ∷ ps) = elim (Bool-cases (all_present (sized n (p ∷ ps)))) [
  | inl e ↦ rw e (omega arith)
  | inr e ↦ rw e (omega (arith, length-sized n (p ∷ ps)))
]

pub slots-append :
    (vs : List Value) (ps : List Bool) (v : Value) (b : Bool)
    → length ps ≡ length vs
    → slots (vs ++ v ∷ []) (ps ++ b ∷ []) ≡ slots vs ps ++ flag b v ∷ []
slots-append [] [] v b h = refl
slots-append [] (p ∷ ps) v b h = absurd (omega arith)
slots-append (w ∷ vs) [] v b h = absurd (omega arith)
slots-append (w ∷ vs) (p ∷ ps) v b h = ap (◌∷◌ (flag p w)) (slots-append vs ps v b (omega arith))

pub slots-append_nil : (vs ws : List Value) → slots (vs ++ ws) [] ≡ slots vs [] ++ slots ws []
slots-append_nil [] ws = refl
slots-append_nil (v ∷ vs) ws = ap (◌∷◌ (some v)) (slots-append_nil vs ws)

pub slots-resize :
    (n : ℕ) (vs : List Value) (ps : List Bool) (u : Value) (b : Bool)
    → length ps ≡ length vs
    → slots (resize n vs u) (resize n ps b) ≡ resize n (slots vs ps) (flag b u)
slots-resize zero vs ps u b h = refl
slots-resize (suc n) [] [] u b h = ap (◌∷◌ (flag b u)) (slots-resize n [] [] u b refl)
slots-resize (suc n) [] (p ∷ ps) u b h = absurd (omega arith)
slots-resize (suc n) (v ∷ vs) [] u b h = absurd (omega arith)
slots-resize (suc n) (v ∷ vs) (p ∷ ps) u b h =
    ap (◌∷◌ (flag p v)) (slots-resize n vs ps u b (omega arith))

pub slots-resize_nil :
    (n : ℕ) (vs : List Value) (u : Value)
    → slots (resize n vs u) [] ≡ resize n (slots vs []) (some u)
slots-resize_nil zero vs u = refl
slots-resize_nil (suc n) [] u = ap (◌∷◌ (some u)) (slots-resize_nil n [] u)
slots-resize_nil (suc n) (v ∷ vs) u = ap (◌∷◌ (some v)) (slots-resize_nil n vs u)

pub slots-set :
    (vs : List Value) (ps : List Bool) (i : ℕ) (v : Value) (b : Bool)
    → length ps ≡ length vs
    → slots (set vs i v) (set ps i b) ≡ set (slots vs ps) i (flag b v)
slots-set [] [] i v b h = refl
slots-set [] (p ∷ ps) i v b h = refl
slots-set (w ∷ vs) [] i v b h = absurd (omega arith)
slots-set (w ∷ vs) (p ∷ ps) zero v b h = refl
slots-set (w ∷ vs) (p ∷ ps) (suc i) v b h =
    ap (◌∷◌ (flag p w)) (slots-set vs ps i v b (omega arith))

pub slots-set_nil :
    (vs : List Value) (i : ℕ) (v : Value) → slots (set vs i v) [] ≡ set (slots vs []) i (some v)
slots-set_nil [] i v = refl
slots-set_nil (w ∷ vs) zero v = refl
slots-set_nil (w ∷ vs) (suc i) v = ap (◌∷◌ (some w)) (slots-set_nil vs i v)
