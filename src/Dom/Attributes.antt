-- ===== src/Dom/Attributes.antt =====
-- The attribute list of a node in dom/document.cpp: pairs in the order of their names, found by
-- `std::lower_bound`. On a list in that order (which `Sorted` says, and `set` keeps) the bound is
-- the first pair whose name is not less than the key, and the definitions scan for it. Names and
-- values are lists of UTF-16 code units, compared unit by unit.
pub mod Order
pub mod Laws
use malibu.Common.{
  ==_iff, All, All-append, All-imp, Bool, Bool-cases, Distinct, Distinct-snoc, List, List-cases,
  Option, Option-cases, [], ap, arith, drop, drop-length-append, exists, exists_get_elem?,
  exists_none, false, get_elem?, get_elem?-append_left, get_elem?-append_length, get_elem?-lt,
  get_elem?-set_ne, get_elem?-set_self, get_elem?_lem, get_or, if◌then◌else◌, inl, inr, is_empty,
  keep, leb, leb→le, length, length-append, length-drop, length-keep-le, length-set, listed,
  listed-append, ltb, ltb→lt, lt→ltb, map, map-append_lem, none, not, not-listed, refl, set,
  set-append_length, set-get_elem?, set-set, some, subst, suc, sym, take, take-length-append, tests,
  true, zero, ℕ, ◌%◌, ◌&&◌, ◌*◌, ◌++◌, ◌+◌, ◌-◌, ◌/◌, ◌<◌, ◌==◌, ◌^◌, ◌||◌, ◌↔◌, ◌∙◌, ◌∷◌, ◌≡◌, ◌≢◌,
  ◌≤◌, ◌⊎◌,
}
use malibu.Common.Bytes.{bytes_eq}

abbrev pub AttrMap : Type 0
AttrMap = List (List ℕ × List ℕ)

-- `std::u16string::operator<`.
unfoldable pub text_lt : List ℕ → List ℕ → Bool
text_lt xs [] = false
text_lt [] (y ∷ ys) = true
text_lt (x ∷ xs) (y ∷ ys) = if x == y then text_lt xs ys else ltb x y

-- `it != end && it->first == key`, then an assignment or an insertion at the bound.
unfoldable pub set_attr : List ℕ → List ℕ → AttrMap → AttrMap
unfolding text_lt bytes_eq
set_attr key value [] = (key, value) ∷ []
set_attr key value ((k, v) ∷ rest) =
    if text_lt k key
    then (k, v) ∷ set_attr key value rest
    else if bytes_eq k key
    then (k, value) ∷ rest
    else (key, value) ∷ (k, v) ∷ rest

unfoldable pub get_attr : List ℕ → AttrMap → Option (List ℕ)
unfolding text_lt bytes_eq
get_attr key [] = none
get_attr key ((k, v) ∷ rest) =
    if text_lt k key then get_attr key rest else if bytes_eq k key then some v else none
