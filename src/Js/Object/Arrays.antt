-- ===== src/Js/Object/Arrays.antt =====
-- `JSArray` of js/runtime/objects.cpp: elements with a flag for each index that is present.
--
-- `limit` is `elements.max_size()`, a parameter: a vector that is made longer throws `length_error`.
-- A `size_t` is a number below `2 ^ 64`. The flags that a call fills before it throws are not
-- followed, nor is the failure of an allocation below the limit.
pub mod View
pub mod Effects
pub mod Refines
use malibu.Common.{
  ==_iff, All, All-append, All-imp, Bool, Bool-cases, Distinct, Distinct-snoc, List, List-cases,
  Option, Option-cases, [], ap, arith, drop, drop-length-append, exists, exists_get_elem?,
  exists_none, false, get_elem?, get_elem?-append_left, get_elem?-append_length, get_elem?-lt,
  get_elem?-set_ne, get_elem?-set_self, get_elem?_lem, get_or, if◌then◌else◌, inl, inr, is_empty,
  keep, leb, leb→le, length, length-append, length-drop, length-keep-le, length-set, listed,
  listed-append, ltb, ltb→lt, lt→ltb, map, map-append_lem, none, not, not-listed, refl, set,
  set-append_length, set-get_elem?, set-set, some, subst, suc, sym, take, take-length-append, tests,
  true, zero, ℕ, ◌%◌, ◌&&◌, ◌*◌, ◌++◌, ◌+◌, ◌-◌, ◌/◌, ◌<◌, ◌==◌, ◌^◌, ◌||◌, ◌↔◌, ◌∙◌, ◌∷◌, ◌≡◌, ◌≢◌,
  ◌≤◌, ◌⊎◌,
}
use mathlib.Core.List.{reverse}
use malibu.Js.Value.{Value, make_undefined}
use malibu.Js.Object.{JsArray}

-- How a call ends: with a result, by the exception of the vector, or with an access behind its end.
pub data Outcome {ℓ} (A : Type ℓ) : Type ℓ where
  done : A → Outcome A
  length_error out_of_bounds : Outcome A

-- `std::vector::resize(n, v)`.
abbrev pub resize {ℓ} : {A : Type ℓ} → ℕ → List A → A → List A
resize zero xs v = []
resize (suc n) [] v = v ∷ resize n [] v
resize (suc n) (x ∷ xs) v = x ∷ resize n xs v

abbrev pub all_present : List Bool → Bool
all_present [] = true
all_present (p ∷ ps) = p && all_present ps

unfoldable pub has_index : JsArray → ℕ → Bool
has_index a index =
    if leb (length a.elements) index
    then false
    else is_empty a.presence || (leb (length a.presence) index || get_or a.presence index true)

-- `materialize_presence` and `normalize_presence`, on the number of elements and the flags.
unfoldable pub materialize : ℕ → List Bool → List Bool
materialize n ps =
    if is_empty ps then resize n [] true else if ltb (length ps) n then resize n ps true else ps

abbrev pub sized : ℕ → List Bool → List Bool
sized n ps =
    if ltb (length ps) n
    then resize n ps true
    else if ltb n (length ps)
    then resize n ps false
    else ps

unfoldable pub normalize : ℕ → List Bool → List Bool
normalize n ps = if is_empty ps then ps else if all_present (sized n ps) then [] else sized n ps

-- The flags to which `append` pushes one more.
abbrev pub ready : Bool → ℕ → List Bool → List Bool
ready present n ps =
    if not present && is_empty ps
    then resize n [] true
    else if not (is_empty ps)
    then materialize n ps
    else ps

abbrev pub append_flags : Bool → ℕ → List Bool → List Bool
append_flags present n ps =
    let flags = ready present n ps in
    if not present || not (is_empty flags) then flags ++ present ∷ [] else flags

unfoldable pub append : ℕ → JsArray → Value → Bool → Outcome JsArray
unfolding materialize
append limit a value present =
    if ltb limit (length a.elements + 1)
    then length_error
    else done (record a {
      elements = a.elements ++ value ∷ [];
      presence = append_flags present (length a.elements) a.presence;
    })

-- What `resize_length` does first: flags for the old indices, if the new ones are missing.
abbrev pub marked : ℕ → Bool → ℕ → List Bool → List Bool
marked n present old ps =
    if ltb old n && (not present && is_empty ps)
    then resize old [] true
    else if not (is_empty ps)
    then materialize old ps
    else ps

-- The flags of `resize_length` before they are normalised.
abbrev pub resize_flags : ℕ → Bool → ℕ → List Bool → List Bool
resize_flags n present old ps =
    let flags = marked n present old ps in
    if not (is_empty flags) || (ltb old n && not present) then resize n flags present else flags

abbrev pub resized : JsArray → ℕ → Bool → JsArray
resized a n present = record a {
  elements = resize n a.elements make_undefined;
  presence = normalize n (resize_flags n present (length a.elements) a.presence);
}

unfoldable pub resize_length : ℕ → JsArray → ℕ → Bool → Outcome JsArray
unfolding materialize normalize make_undefined
resize_length limit a n present = if ltb limit n then length_error else done (resized a n present)

-- The write of `set_index`, to an index below the length.
abbrev pub write_index : JsArray → ℕ → Value → JsArray
write_index a index value = record a {
  elements = set a.elements index value;
  presence =
      if not (is_empty a.presence)
      then normalize (length a.elements)
          (set (materialize (length a.elements) a.presence) index true)
      else a.presence;
}

-- `elements[index]` and what follows, behind the call of `resize_length`.
abbrev pub write_at : ℕ → Value → Outcome JsArray → Outcome JsArray
write_at index value (done a) =
    if ltb index (length a.elements) then done (write_index a index value) else out_of_bounds
write_at index value length_error = length_error
write_at index value out_of_bounds = out_of_bounds

-- `index + 1` is a sum of `size_t`.
unfoldable pub set_index : ℕ → JsArray → ℕ → Value → Outcome JsArray
unfolding resize_length normalize materialize
set_index limit a index value = write_at index value (
    if leb (length a.elements) index
    then resize_length limit a ((index + 1) % 2 ^ 64) false
    else done a)

unfoldable pub delete_index : JsArray → ℕ → JsArray
unfolding has_index materialize make_undefined
delete_index a index =
    if leb (length a.elements) index || not (has_index a index) then a else record a {
      presence = set (materialize (length a.elements) a.presence) index false;
      elements = set a.elements index make_undefined;
    }

-- `erase(begin + start, begin + start + count)`.
abbrev pub erase_at {ℓ} : {A : Type ℓ} → ℕ → ℕ → List A → List A
erase_at start count xs = take start xs ++ drop (start + count) xs

unfoldable pub erase_range : JsArray → ℕ → ℕ → JsArray
unfolding normalize materialize
erase_range a start count =
    let n = length a.elements in
    let cut = if ltb (n - start) count then n - start else count in
    if leb n start || (count == 0) then a else record a {
      elements = erase_at start cut a.elements;
      presence =
          if not (is_empty a.presence)
          then normalize (n - cut) (erase_at start cut (materialize n a.presence))
          else a.presence;
    }

abbrev pub insert_at {ℓ} : {A : Type ℓ} → ℕ → List A → List A → List A
insert_at start ys xs = take start xs ++ (ys ++ drop start xs)

unfoldable pub insert_dense : ℕ → JsArray → ℕ → List Value → Outcome JsArray
unfolding normalize materialize
insert_dense limit a start values =
    let n = length a.elements in
    let at_ = if ltb n start then n else start in
    if ltb limit (n + length values)
    then length_error
    else done (record a {
      elements = insert_at at_ values a.elements;
      presence =
          if not (is_empty a.presence)
          then normalize (n + length values)
              (insert_at at_ (resize (length values) [] true) (materialize n a.presence))
          else a.presence;
    })

unfoldable pub reverse_elements : JsArray → JsArray
unfolding normalize materialize
reverse_elements a = record a {
  elements = reverse a.elements;
  presence =
      if not (is_empty a.presence)
      then normalize (length a.elements) (reverse (materialize (length a.elements) a.presence))
      else a.presence;
}
