-- ===== src/Storage/WebStorage.antt =====
-- `Storage` of core/include/malibu/storage/local_storage.h and storage/web_storage.cpp: items in the
-- order in which their keys were first set.
pub mod Refines
use malibu.Common.{
  ==_iff, All, All-append, All-imp, Bool, Bool-cases, Distinct, Distinct-snoc, List, List-cases,
  Option, Option-cases, [], ap, arith, drop, drop-length-append, exists, exists_get_elem?,
  exists_none, false, get_elem?, get_elem?-append_left, get_elem?-append_length, get_elem?-lt,
  get_elem?-set_ne, get_elem?-set_self, get_elem?_lem, get_or, if◌then◌else◌, inl, inr, is_empty,
  keep, leb, leb→le, length, length-append, length-drop, length-keep-le, length-set, listed,
  listed-append, ltb, ltb→lt, lt→ltb, map, map-append_lem, none, not, not-listed, refl, set,
  set-append_length, set-get_elem?, set-set, some, subst, suc, sym, take, take-length-append, tests,
  true, zero, ℕ, ◌%◌, ◌&&◌, ◌*◌, ◌++◌, ◌+◌, ◌-◌, ◌/◌, ◌<◌, ◌==◌, ◌^◌, ◌||◌, ◌↔◌, ◌∙◌, ◌∷◌, ◌≡◌, ◌≢◌,
  ◌≤◌, ◌⊎◌,
}
use malibu.Common.Bytes.{bytes_eq}

pub record Storage : Type 0 where
  pub items : List (List ℕ × List ℕ)

abbrev pub new_storage : Storage
new_storage = record { items = [] }

abbrev pub find_item : List ℕ → List (List ℕ × List ℕ) → Option (List ℕ)
find_item key [] = none
find_item key ((k, v) ∷ items) = if bytes_eq k key then some v else find_item key items

unfoldable pub get_item : Storage → List ℕ → Option (List ℕ)
get_item s key = find_item key s.items

unfoldable pub has : Storage → List ℕ → Bool
unfolding bytes_eq
has s key = exists (λ (e : List ℕ × List ℕ). bytes_eq e.0 key) s.items

abbrev pub put_item : List ℕ → List ℕ → List (List ℕ × List ℕ) → List (List ℕ × List ℕ)
put_item key value [] = (key, value) ∷ []
put_item key value ((k, v) ∷ items) =
    if bytes_eq k key then (k, value) ∷ items else (k, v) ∷ put_item key value items

unfoldable pub set_item : Storage → List ℕ → List ℕ → Storage
set_item s key value = record { items = put_item key value s.items }

abbrev pub drop_item : List ℕ → List (List ℕ × List ℕ) → List (List ℕ × List ℕ)
drop_item key [] = []
drop_item key ((k, v) ∷ items) = if bytes_eq k key then items else (k, v) ∷ drop_item key items

unfoldable pub remove_item : Storage → List ℕ → Storage
remove_item s key = record { items = drop_item key s.items }

unfoldable pub clear : Storage → Storage
clear s = record { items = [] }

abbrev pub item_count : Storage → ℕ
item_count s = length s.items

abbrev pub key_of_item : Option (List ℕ × List ℕ) → Option (List ℕ)
key_of_item none = none
key_of_item (some e) = some e.0

unfoldable pub key : Storage → ℕ → Option (List ℕ)
key s index = key_of_item (get_elem? s.items index)
