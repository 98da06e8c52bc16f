-- ===== src/Js/Object/Arrays/Refines.antt =====
-- The operations of `JSArray` of js/runtime/objects.cpp against a list of values and holes: what each
-- means for such a list, and where it throws or writes out of bounds instead.
use malibu.Common.{
  Bool, Bool-cases, List, Option, [], ap, arith, false, if◌then◌else◌, inl, inr, leb, length,
  length-append, ltb, lt→ltb, none, refl, set, some, true, ℕ, ◌%◌, ◌&&◌, ◌++◌, ◌+◌, ◌<◌, ◌==◌, ◌^◌,
  ◌∙◌, ◌∷◌, ◌≡◌,
}
use malibu.Js.Value.{Value, make_undefined}
use malibu.Js.Object.{JsArray}
use malibu.Js.Object.Arrays.{
  length_error, done, out_of_bounds, Outcome, resize, append, resized, resize_length, write_at,
  set_index, delete_index,
}
use malibu.Js.Object.Arrays.Effects.{
  append_slots, resized-IsSized, view-resized, view-write_index, write_index-IsSized, append_sized,
  view-delete_index, delete_index-IsSized,
}
use malibu.Js.Object.Arrays.View.{view, IsSized, flag, length-resize, length-slots}

-- The operations, and what they mean for values and holes.
pub data ArrayOp : Type 0 where
  push : Value → Bool → ArrayOp
  set_length : ℕ → Bool → ArrayOp
  put : ℕ → Value → ArrayOp
  remove : ℕ → ArrayOp

pub apply : ℕ → JsArray → ArrayOp → Outcome JsArray
apply limit a (ArrayOp.push v present) = append limit a v present
apply limit a (ArrayOp.set_length n present) = resize_length limit a n present
apply limit a (ArrayOp.put i v) = set_index limit a i v
apply limit a (ArrayOp.remove i) = done (delete_index a i)

unfoldable pub meaning : List (Option Value) → ArrayOp → List (Option Value)
unfolding make_undefined
meaning l (ArrayOp.push v present) = l ++ flag present v ∷ []
meaning l (ArrayOp.set_length n present) = resize n l (flag present make_undefined)
meaning l (ArrayOp.put i v) = set (if leb (length l) i then resize (i + 1) l none else l) i (some v)
meaning l (ArrayOp.remove i) = set l i none

-- The length for which an operation has to make room, and 0 if it makes none.
unfoldable pub room : List (Option Value) → ArrayOp → ℕ
room l (ArrayOp.push v present) = length l + 1
room l (ArrayOp.set_length n present) = n
room l (ArrayOp.put i v) = if leb (length l) i then i + 1 else 0
room l (ArrayOp.remove i) = 0

-- A write to the largest index, which makes `index + 1` zero.
unfoldable pub wraps : List (Option Value) → ArrayOp → Bool
wraps l (ArrayOp.put i v) = leb (length l) i && (i + 1 == 2 ^ 64)
wraps l _ = false

-- How an operation is to end.
abbrev pub promised : ℕ → List (Option Value) → ArrayOp → Outcome (List (Option Value))
promised limit l op =
    if wraps l op
    then out_of_bounds
    else if ltb limit (room l op)
    then length_error
    else done (meaning l op)

-- An index is a `size_t`.
abbrev pub IsWord : ArrayOp → Type 0
IsWord (ArrayOp.put i v) = i < 2 ^ 64
IsWord _ = Unit

-- An outcome is the promised one, with an array that has no flags behind its elements.
abbrev pub Refines : Outcome JsArray → Outcome (List (Option Value)) → Type 0
Refines (done a) (done l) = IsSized a × (view a ≡ l)
Refines length_error length_error = Unit
Refines out_of_bounds out_of_bounds = Unit
Refines _ _ = ⊥

done-Refines :
    (b : Bool) (a : JsArray) (l : List (Option Value))
    → IsSized a
    → view a ≡ l
    → Refines (if b then length_error else done a) (if b then length_error else done l)
done-Refines true a l h e = tt
done-Refines false a l h e = (h, e)

-- The write behind the call of `resize_length`, where the sum does not wrap.
write_at-Refines :
    (b : Bool) (a : JsArray) (i : ℕ) (v : Value) (l : List (Option Value))
    → IsSized a
    → view a ≡ l
    → i < length a.elements
    → Refines
        (write_at i v (if b then length_error else done a))
        (if b then length_error else done (set l i (some v)))
write_at-Refines true a i v l h e lt = tt
write_at-Refines false a i v l h e lt = rw (lt→ltb i (length a.elements) lt) (
  write_index-IsSized a i v h,
  view-write_index a i v h ∙ ap (λ (k : List (Option Value)). set k i (some v)) e,
)

-- `resize_length(0, false)`, and a write to the emptied array.
write_at_wrap-Refines :
    (limit : ℕ) (a : JsArray) (i : ℕ) (v : Value)
    → Refines (write_at i v (resize_length limit a 0 false)) out_of_bounds
unfolding resize_length
write_at_wrap-Refines limit a i v =
    let fits : ltb limit 0 ≡ false = ground arith in
    let behind : ltb i 0 ≡ false = ground arith in rw (fits, behind) tt

-- On an array that has no flags behind its elements, `append`, `resize_length`, `set_index` and
-- `delete_index` end as promised: with an array that has none either and whose values and holes are
-- those that the operation means, or by `length_error` where that array would be longer than
-- `limit`, or, for a write to the index 2^64 - 1 behind the end, with an access out of bounds.
pub apply-Refines :
    (limit : ℕ) (a : JsArray) (op : ArrayOp)
    → IsSized a
    → IsWord op
    → Refines (apply limit a op) (promised limit (view a) op)
unfolding apply meaning append resize_length set_index room wraps
apply-Refines limit a (ArrayOp.push v present) h w = rw (length-slots a.elements a.presence) (
    done-Refines (ltb limit (length a.elements + 1)) _ _
      (rw (length-append a.elements (v ∷ []))
        (append_sized (length a.elements) a.presence present h))
      (append_slots a.elements a.presence v present h))
apply-Refines limit a (ArrayOp.set_length n present) h w =
    done-Refines (ltb limit n) (resized a n present) _ (resized-IsSized a n present)
      (view-resized a n present h)
apply-Refines limit a (ArrayOp.put i v) h w = elim (Bool-cases (leb (length a.elements) i)) [
  | inl e ↦
      let same : leb (length (view a)) i ≡ true = rw (length-slots a.elements a.presence) e in
      elim (Bool-cases (i + 1 == 2 ^ 64)) [
        | inl f ↦
            let zeroed : (i + 1) % 2 ^ 64 ≡ 0 = ground arith in
            rw (e, same, f, zeroed) (write_at_wrap-Refines limit a i v)
        | inr f ↦
            let kept : (i + 1) % 2 ^ 64 ≡ i + 1 = ground arith in
            rw (e, same, f, kept)
              (write_at-Refines (ltb limit (i + 1)) (resized a (i + 1) false) i v _
                (resized-IsSized a (i + 1) false) (view-resized a (i + 1) false h)
                (omega (arith, length-resize (i + 1) a.elements make_undefined)))
      ]
  | inr e ↦
      let same : leb (length (view a)) i ≡ false = rw (length-slots a.elements a.presence) e in
      let fits : ltb limit 0 ≡ false = ground arith in
      rw (e, same, fits) (write_at-Refines false a i v (view a) h refl (ground arith))
]
apply-Refines limit a (ArrayOp.remove i) h w =
    let fits : ltb limit 0 ≡ false = ground arith in
    rw fits (delete_index-IsSized a i h, view-delete_index a i h)
