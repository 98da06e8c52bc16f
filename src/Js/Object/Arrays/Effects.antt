-- ===== src/Js/Object/Arrays/Effects.antt =====
-- What the operations of `JSArray` of js/runtime/objects.cpp do to its values and holes, one by one.
use malibu.Common.{
  Bool, Bool-cases, List, Option, [], ap, arith, false, get_elem?, get_or, if◌then◌else◌, inl, inr,
  is_empty, leb, leb→le, length, length-append, length-set, ltb, none, not, refl, set, some, subst,
  suc, sym, true, zero, ℕ, ◌&&◌, ◌++◌, ◌+◌, ◌<◌, ◌||◌, ◌∙◌, ◌∷◌, ◌≡◌, ◌≤◌,
}
use malibu.Js.Value.{Value, make_undefined}
use malibu.Js.Object.{JsArray}
use malibu.Js.Object.Arrays.{
  resize, has_index, materialize, normalize, append_flags, resize_flags, resized, write_index,
  delete_index,
}
use malibu.Js.Object.Arrays.View.{
  slots, view, IsSized, flag, length-resize, resize-shrink, length-slots, slots-resize-true,
  slots-materialize, length-materialize, slots-normalize, length-normalize-le, slots-append,
  slots-append_nil, slots-resize, slots-resize_nil, slots-set, slots-set_nil,
}

pub present_at : Option (Option Value) → Bool
present_at (some (some v)) = true
present_at _ = false

has_slot :
    (vs : List Value) (ps : List Bool) (i : ℕ)
    → (if leb (length vs) i then false else is_empty ps || (leb (length ps) i || get_or ps i true))
      ≡ present_at (get_elem? (slots vs ps) i)
unfolding present_at
has_slot [] ps i = ground arith
has_slot (v ∷ vs) [] zero = ground arith
has_slot (v ∷ vs) [] (suc i) = ground (arith, has_slot vs [] i)
has_slot (v ∷ vs) (true ∷ ps) zero = ground arith
has_slot (v ∷ vs) (false ∷ ps) zero = ground arith
has_slot (v ∷ vs) (p ∷ []) (suc i) = ground (arith, has_slot vs [] i)
has_slot (v ∷ vs) (p ∷ q ∷ ps) (suc i) = ground (arith, has_slot vs (q ∷ ps) i)

-- `has_index` says whether the index has a value.
pub has_index_lem : (a : JsArray) (i : ℕ) → has_index a i ≡ present_at (get_elem? (view a) i)
unfolding has_index
has_index_lem a i = has_slot a.elements a.presence i

nonempty {ℓ} : {A : Type ℓ} (xs : List A) → 0 < length xs → is_empty xs ≡ false
nonempty [] h = absurd (omega arith)
nonempty (x ∷ xs) h = refl

materialized :
    (n : ℕ) (p : Bool) (ps : List Bool)
    → suc (length ps) ≤ n
    → is_empty (materialize n (p ∷ ps)) ≡ false
materialized n p ps h =
    nonempty (materialize n (p ∷ ps)) (omega (arith, length-materialize n (p ∷ ps) h))

normalized :
    (n : ℕ) (vs : List Value) (ps : List Bool)
    → length vs ≡ n
    → slots vs (normalize n ps) ≡ slots vs ps
normalized n vs ps e =
    subst (λ k. slots vs (normalize k ps) ≡ slots vs ps) e (slots-normalize vs ps)

pub append_slots :
    (vs : List Value) (ps : List Bool) (v : Value) (b : Bool)
    → length ps ≤ length vs
    → slots (vs ++ v ∷ []) (append_flags b (length vs) ps) ≡ slots vs ps ++ flag b v ∷ []
append_slots vs [] v true h = slots-append_nil vs (v ∷ [])
append_slots vs [] v false h =
    slots-append vs (resize (length vs) [] true) v false (length-resize (length vs) [] true)
    ∙ rw (slots-resize-true vs []) refl
append_slots vs (p ∷ ps) v b h =
    let all = length-materialize (length vs) (p ∷ ps) h in
    let kept = ready_flags b (materialize (length vs) (p ∷ ps)) (materialized (length vs) p ps h) in
    ap (slots (vs ++ v ∷ [])) (shape b ∙ kept)
    ∙ slots-append vs (materialize (length vs) (p ∷ ps)) v b all
    ∙ ap (λ (l : List (Option Value)). l ++ flag b v ∷ []) (slots-materialize vs (p ∷ ps))
  where
    ready_flags :
        (b : Bool) (fs : List Bool)
        → is_empty fs ≡ false
        → (if not b || not (is_empty fs) then fs ++ b ∷ [] else fs) ≡ fs ++ b ∷ []
    ready_flags b fs e = ground arith

    shape :
        (b : Bool)
        → append_flags b (length vs) (p ∷ ps) ≡ (
            if not b || not (is_empty (materialize (length vs) (p ∷ ps)))
            then materialize (length vs) (p ∷ ps) ++ b ∷ []
            else materialize (length vs) (p ∷ ps))
    shape true = refl
    shape false = refl

or_true : (b : Bool) → (b || true) ≡ true
or_true true = refl
or_true false = refl

not_lt : (a b : ℕ) → ltb a b ≡ false → b ≤ a
not_lt a b e = ground arith

resize_slots :
    (n : ℕ) (vs : List Value) (ps : List Bool) (u : Value) (b : Bool)
    → length ps ≤ length vs
    → slots (resize n vs u) (resize_flags n b (length vs) ps) ≡ resize n (slots vs ps) (flag b u)
resize_slots n vs (p ∷ ps) u b h =
    let all = length-materialize (length vs) (p ∷ ps) h in
    ap (slots (resize n vs u)) (shape (ltb (length vs) n) b)
    ∙ slots-resize n vs (materialize (length vs) (p ∷ ps)) u b all
    ∙ ap (λ (l : List (Option Value)). resize n l (flag b u)) (slots-materialize vs (p ∷ ps))
  where
    shape :
        (t b : Bool)
        → (if not (
                is_empty (
                  if t && (not b && false)
                  then resize (length vs) [] true
                  else materialize (length vs) (p ∷ ps)))
              || (t && not b)
            then resize n
                (if t && (not b && false)
                  then resize (length vs) [] true
                  else materialize (length vs) (p ∷ ps))
                b
            else if t && (not b && false)
            then resize (length vs) [] true
            else materialize (length vs) (p ∷ ps))
          ≡ resize n (materialize (length vs) (p ∷ ps)) b
    shape true true = rw (materialized (length vs) p ps h) refl
    shape true false = rw (materialized (length vs) p ps h) refl
    shape false true = rw (materialized (length vs) p ps h) refl
    shape false false = rw (materialized (length vs) p ps h) refl
resize_slots n vs [] u true h = elim (Bool-cases (ltb (length vs) n)) [
  | inl e ↦ rw e (slots-resize_nil n vs u)
  | inr e ↦ rw e (slots-resize_nil n vs u)
]
resize_slots n vs [] u false h = elim (Bool-cases (ltb (length vs) n)) [
  | inl e ↦
      rw (e, or_true (not (is_empty (resize {A = Bool} (length vs) [] true))))
        (slots-resize n vs (resize (length vs) [] true) u false (length-resize (length vs) [] true)
          ∙ ap (λ (l : List (Option Value)). resize n l none) (slots-resize-true vs []))
  | inr e ↦ rw e (
      slots-resize_nil n vs u
      ∙ resize-shrink n (slots vs []) (some u) none
          (omega (arith, length-slots vs [], not_lt (length vs) n e)))
]

write_flags : ℕ → ℕ → List Bool → List Bool
write_flags n i ps = if not (is_empty ps) then normalize n (set (materialize n ps) i true) else ps

write_slots :
    (vs : List Value) (ps : List Bool) (i : ℕ) (v : Value)
    → length ps ≤ length vs
    → slots (set vs i v) (write_flags (length vs) i ps) ≡ set (slots vs ps) i (some v)
unfolding write_flags
write_slots vs [] i v h = slots-set_nil vs i v
write_slots vs (p ∷ ps) i v h =
    normalized (length vs) (set vs i v) (set (materialize (length vs) (p ∷ ps)) i true)
      (length-set vs i v)
    ∙ slots-set vs (materialize (length vs) (p ∷ ps)) i v true
        (length-materialize (length vs) (p ∷ ps) h)
    ∙ ap (λ (l : List (Option Value)). set l i (some v)) (slots-materialize vs (p ∷ ps))

delete_slots :
    (vs : List Value) (ps : List Bool) (i : ℕ) (u : Value)
    → length ps ≤ length vs
    → slots (set vs i u) (set (materialize (length vs) ps) i false) ≡ set (slots vs ps) i none
delete_slots vs ps i u h =
    slots-set vs (materialize (length vs) ps) i u false (length-materialize (length vs) ps h)
    ∙ ap (λ (l : List (Option Value)). set l i none) (slots-materialize vs ps)

-- Deleting what is not there changes nothing.
set_absent :
    (l : List (Option Value)) (i : ℕ) → present_at (get_elem? l i) ≡ false → set l i none ≡ l
unfolding present_at
set_absent [] i h = refl
set_absent (none ∷ l) zero h = refl
set_absent (some v ∷ l) zero h = absurd (cc)
set_absent (x ∷ l) (suc i) h = ap (◌∷◌ x) (set_absent l i h)

set_out : (l : List (Option Value)) (i : ℕ) → length l ≤ i → set l i none ≡ l
set_out [] i h = refl
set_out (x ∷ l) zero h = absurd (omega arith)
set_out (x ∷ l) (suc i) h = ap (◌∷◌ x) (set_out l i (omega arith))

pub resized-IsSized : (a : JsArray) (n : ℕ) (b : Bool) → IsSized (resized a n b)
resized-IsSized a n b =
    rw (length-resize n a.elements make_undefined)
      (length-normalize-le n (resize_flags n b (length a.elements) a.presence))

pub view-resized :
    (a : JsArray) (n : ℕ) (b : Bool)
    → IsSized a
    → view (resized a n b) ≡ resize n (view a) (flag b make_undefined)
view-resized a n b h =
    normalized n (resize n a.elements make_undefined)
      (resize_flags n b (length a.elements) a.presence) (length-resize n a.elements make_undefined)
    ∙ resize_slots n a.elements a.presence make_undefined b h

pub view-write_index :
    (a : JsArray) (i : ℕ) (v : Value)
    → IsSized a
    → view (write_index a i v) ≡ set (view a) i (some v)
unfolding write_flags
view-write_index a i v h = write_slots a.elements a.presence i v h

write_sized : (n i : ℕ) (ps : List Bool) → length ps ≤ n → length (write_flags n i ps) ≤ n
unfolding write_flags
write_sized n i [] h = omega arith
write_sized n i (p ∷ ps) h = length-normalize-le n (set (materialize n (p ∷ ps)) i true)

pub write_index-IsSized :
    (a : JsArray) (i : ℕ) (v : Value) → IsSized a → IsSized (write_index a i v)
unfolding write_flags
write_index-IsSized a i v h =
    rw (length-set a.elements i v) (write_sized (length a.elements) i a.presence h)

pub append_sized :
    (n : ℕ) (ps : List Bool) (b : Bool) → length ps ≤ n → length (append_flags b n ps) ≤ n + 1
append_sized n [] true h = omega arith
append_sized n [] false h =
    omega (arith, length-append (resize n [] true) (false ∷ []), length-resize n [] true)
append_sized n (p ∷ ps) true h = rw (materialized n p ps h) (
    omega
      (arith, length-append (materialize n (p ∷ ps)) (true ∷ []), length-materialize n (p ∷ ps) h))
append_sized n (p ∷ ps) false h =
    omega
      (arith, length-append (materialize n (p ∷ ps)) (false ∷ []), length-materialize n (p ∷ ps) h)

pub delete_index-IsSized : (a : JsArray) (i : ℕ) → IsSized a → IsSized (delete_index a i)
unfolding delete_index
delete_index-IsSized a i h = elim (Bool-cases (leb (length a.elements) i || not (has_index a i))) [
  | inl e ↦ rw (e, delete_index) h
  | inr e ↦
      rw
        (
          e,
          delete_index,
          length-set a.elements i make_undefined,
          length-set (materialize (length a.elements) a.presence) i false,
        )
        (omega (arith, length-materialize (length a.elements) a.presence h))
]

nothing_there :
    (a : JsArray) (i : ℕ)
    → (leb (length a.elements) i || not (has_index a i)) ≡ true
    → set (view a) i none ≡ view a
nothing_there a i e = elim (Bool-cases (leb (length a.elements) i)) [
  | inl f ↦
      set_out (view a) i
        (omega (arith, length-slots a.elements a.presence, leb→le (length a.elements) i f))
  | inr f ↦
      let absent : has_index a i ≡ false = ground arith in
      set_absent (view a) i (sym (has_index_lem a i) ∙ absent)
]

pub view-delete_index :
    (a : JsArray) (i : ℕ) → IsSized a → view (delete_index a i) ≡ set (view a) i none
unfolding delete_index
view-delete_index a i h = elim (Bool-cases (leb (length a.elements) i || not (has_index a i))) [
  | inl e ↦ rw (e, delete_index) (sym (nothing_there a i e))
  | inr e ↦ rw (e, delete_index) (delete_slots a.elements a.presence i make_undefined h)
]
