-- ===== src/Js/Object/Props.antt =====
-- `JSObject` of js/runtime/objects.cpp: own properties and the chain of prototypes.
pub mod Laws
use malibu.Common.{
  ==_iff, All, All-append, All-imp, Bool, Bool-cases, Distinct, Distinct-snoc, List, List-cases,
  Option, Option-cases, [], ap, arith, drop, drop-length-append, exists, exists_get_elem?,
  exists_none, false, get_elem?, get_elem?-append_left, get_elem?-append_length, get_elem?-lt,
  get_elem?-set_ne, get_elem?-set_self, get_elem?_lem, get_or, if◌then◌else◌, inl, inr, is_empty,
  keep, leb, leb→le, length, length-append, length-drop, length-keep-le, length-set, listed,
  listed-append, ltb, ltb→lt, lt→ltb, map, map-append_lem, none, not, not-listed, refl, set,
  set-append_length, set-get_elem?, set-set, some, subst, suc, sym, take, take-length-append, tests,
  true, zero, ℕ, ◌%◌, ◌&&◌, ◌*◌, ◌++◌, ◌+◌, ◌-◌, ◌/◌, ◌<◌, ◌==◌, ◌^◌, ◌||◌, ◌↔◌, ◌∙◌, ◌∷◌, ◌≡◌, ◌≢◌,
  ◌≤◌, ◌⊎◌,
}
use malibu.Common.Bytes.{bytes_eq, codes}
use malibu.Js.Value.{Value, make_undefined}
use malibu.Js.Object.{Property, JsObject, JsArray, HeapObject, Memory}

abbrev pub new_object : JsObject
new_object = record { props = []; proto = 0; extensible = true; sealed = false; frozen = false }

-- The `JSObject` that an object on the heap is or extends; other kinds have none.
abbrev pub object_of : HeapObject → JsObject
object_of (HeapObject.js_object o) = o
object_of (HeapObject.js_generator o) = o
object_of (HeapObject.array_buffer o) = o
object_of (HeapObject.js_array a) = a.base
object_of (HeapObject.js_promise o r rs) = o
object_of (HeapObject.js_function o c) = o
object_of (HeapObject.typed_array o b) = o
object_of (HeapObject.data_view o b) = o
object_of (HeapObject.js_map o es) = o
object_of (HeapObject.js_set o is) = o
object_of (HeapObject.js_proxy o t h) = o
object_of _ = new_object

unfoldable pub find_own : List ℕ → List Property → Option Property
unfolding bytes_eq
find_own key [] = none
find_own key (p ∷ ps) = if bytes_eq p.key key then some p else find_own key ps

-- A write through the pointer that `find_own` returns.
unfoldable pub update_own : (Property → Property) → List ℕ → List Property → List Property
update_own f key [] = []
update_own f key (p ∷ ps) = if bytes_eq p.key key then f p ∷ ps else p ∷ update_own f key ps

-- `Property{key, v, enumerable, false, {}, {}}`; a default value is the word 0.
abbrev pub new_property : List ℕ → Value → Bool → Property
new_property key v enumerable = record {
  key = key;
  value = v;
  enumerable = enumerable;
  is_accessor = false;
  getter = 0;
  setter = 0;
  writable = true;
  configurable = true;
}

abbrev pub accessor : Value → Bool → Bool → Property → Property
accessor fn is_setter enumerable p =
    if is_setter
    then record p { enumerable = enumerable; is_accessor = true; setter = fn }
    else record p { enumerable = enumerable; is_accessor = true; getter = fn }

unfoldable pub define_accessor : List ℕ → Value → Bool → Bool → JsObject → JsObject
unfolding find_own update_own make_undefined
define_accessor key fn is_setter enumerable o = elim (find_own key o.props) [
  | some p ↦ record o { props = update_own (accessor fn is_setter enumerable) key o.props }
  | none ↦ record o {
    props =
        o.props
        ++ accessor fn is_setter enumerable (new_property key make_undefined enumerable) ∷ [];
  }
]

abbrev pub has_own : List ℕ → JsObject → Bool
has_own key o = elim (find_own key o.props) [ none ↦ false | some p ↦ true ]

-- `p->value = v`, but for a property that is read-only or an accessor.
abbrev pub assign : Value → Property → Property
assign v p = if not p.writable || p.is_accessor then p else record p { value = v }

unfoldable pub set_prop : List ℕ → Value → Bool → JsObject → JsObject
unfolding find_own update_own
set_prop key v enumerable o = elim (find_own key o.props) [
  | some p ↦ record o { props = update_own (assign v) key o.props }
  | none ↦
      if not o.extensible
      then o
      else record o { props = o.props ++ new_property key v enumerable ∷ [] }
]

-- The loop of `delete_prop`: the result of the call, and the properties.
unfoldable pub delete_from : List ℕ → List Property → Bool × List Property
delete_from key [] = (false, [])
delete_from key (p ∷ ps) =
    let (done, rest) = delete_from key ps in
    if bytes_eq p.key key
    then (if not p.configurable then (false, p ∷ ps) else (true, ps))
    else (done, p ∷ rest)

unfoldable pub delete_prop : List ℕ → JsObject → Bool × JsObject
unfolding delete_from
delete_prop key o = let (done, ps) = delete_from key o.props in (done, record o { props = ps })

-- A key that enumeration shows: not empty, no private name and no internal key.
abbrev pub starts : List ℕ → List ℕ → Bool
starts [] s = true
starts (c ∷ cs) [] = false
starts (c ∷ cs) (x ∷ xs) = (c == x) && starts cs xs

abbrev pub is_visible : List ℕ → Bool
is_visible key =
    not (is_empty key)
    && (not (starts (codes "#") key)
        && (not (starts (codes "%") key) && not (starts (codes "@@") key)))

unfoldable pub own_enumerable_keys : JsObject → List (List ℕ)
own_enumerable_keys o =
    map (λ (p : Property). p.key)
      (keep (λ (p : Property). p.enumerable && is_visible p.key) o.props)

-- The walk along the prototypes: the address of the object that has the property, and the property.
unfoldable pub resolve_prop : ℕ → Memory → ℕ → List ℕ → Option (Option (ℕ × Property))
unfolding find_own
resolve_prop zero m at_ key = none
resolve_prop (suc fuel) m at_ key =
    if at_ == 0 then some none else elim (find_own key (object_of (m at_)).props) [
      | some p ↦ some (some (at_, p))
      | none ↦ resolve_prop fuel m (object_of (m at_)).proto key
    ]

-- `get` and `has` make the same walk.
abbrev pub value_or_undefined : Option (ℕ × Property) → Value
value_or_undefined none = make_undefined
value_or_undefined (some (at_, p)) = p.value

abbrev pub is_found : Option (ℕ × Property) → Bool
is_found none = false
is_found (some found) = true

unfoldable pub get_prop : ℕ → Memory → ℕ → List ℕ → Option Value
unfolding resolve_prop
get_prop fuel m at_ key = elim (resolve_prop fuel m at_ key) [
  | none ↦ none
  | some r ↦ some (value_or_undefined r)
]

unfoldable pub has_prop : ℕ → Memory → ℕ → List ℕ → Option Bool
unfolding resolve_prop
has_prop fuel m at_ key = elim (resolve_prop fuel m at_ key) [
  | none ↦ none
  | some r ↦ some (is_found r)
]
