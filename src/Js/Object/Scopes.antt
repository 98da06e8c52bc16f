-- ===== src/Js/Object/Scopes.antt =====
-- `Environment` of js/runtime/objects.cpp: names in a chain of scopes, some of which are backed by an
-- object.
use malibu.Common.{
  Bool, List, Option, [], false, if◌then◌else◌, none, not, some, suc, true, zero, ℕ, ◌++◌, ◌==◌,
  ◌∷◌,
}
use malibu.Common.Bytes.{bytes_eq}
use malibu.Js.Value.{Value}
use malibu.Js.Object.{Property, JsObject, Environment, HeapObject, Memory}
use malibu.Js.Object.Props.{find_own, update_own, resolve_prop, set_prop, object_of}

abbrev pub new_environment : Environment
new_environment = record {
  parent = 0;
  slots = [];
  is_function_scope = false;
  object_backing = 0;
  is_with = false;
}

abbrev pub environment_of : HeapObject → Environment
environment_of (HeapObject.environment e) = e
environment_of _ = new_environment

-- Where `find` leads: to a property of an object, or to a slot of a scope.
pub data Place : Type 0 where
  in_object in_scope : ℕ → Value → Place

abbrev pub value_at : Place → Value
value_at (Place.in_object at_ v) = v
value_at (Place.in_scope at_ v) = v

unfoldable pub find_slot : List ℕ → List (List ℕ × Value) → Option Value
unfolding bytes_eq
find_slot name [] = none
find_slot name ((k, v) ∷ slots) = if bytes_eq k name then some v else find_slot name slots

unfoldable pub update_slot : Value → List ℕ → List (List ℕ × Value) → List (List ℕ × Value)
update_slot v name [] = []
update_slot v name ((k, w) ∷ slots) =
    if bytes_eq k name then (k, v) ∷ slots else (k, w) ∷ update_slot v name slots

-- The property that backs a name: through the prototypes in a `with` scope, else the object's own.
abbrev pub own_place : ℕ → Option Property → Option (Option (ℕ × Property))
own_place at_ none = some none
own_place at_ (some p) = some (some (at_, p))

abbrev pub backing : ℕ → Memory → Environment → List ℕ → Option (Option (ℕ × Property))
backing fuel m e name =
    if e.is_with
    then resolve_prop fuel m e.object_backing name
    else own_place e.object_backing (find_own name (object_of (m e.object_backing)).props)

unfoldable pub find_name : ℕ → Memory → ℕ → List ℕ → Option (Option Place)
unfolding resolve_prop find_own find_slot
find_name zero m at_ name = none
find_name (suc fuel) m at_ name =
    let e = environment_of (m at_) in
    let outer = find_name fuel m e.parent name in
    if at_ == 0
    then some none
    else if not (e.object_backing == 0)
    then elim (backing fuel m e name) [
      | none ↦ none
      | some none ↦ outer
      | some (some (o, p)) ↦ some (some (Place.in_object o p.value))
    ]
    else elim (find_slot name e.slots) [
      | some v ↦ some (some (Place.in_scope at_ v))
      | none ↦ outer
    ]

-- A write to memory.
abbrev pub store : Memory → ℕ → HeapObject → Memory
store m at_ h = λ (p : ℕ). if p == at_ then h else m p

-- The object with another `JSObject` in it.
abbrev pub with_object : JsObject → HeapObject → HeapObject
with_object o (HeapObject.js_object _) = HeapObject.js_object o
with_object o (HeapObject.js_generator _) = HeapObject.js_generator o
with_object o (HeapObject.array_buffer _) = HeapObject.array_buffer o
with_object o (HeapObject.js_array a) = HeapObject.js_array (record a { base = o })
with_object o (HeapObject.js_promise _ r rs) = HeapObject.js_promise o r rs
with_object o (HeapObject.js_function _ c) = HeapObject.js_function o c
with_object o (HeapObject.typed_array _ b) = HeapObject.typed_array o b
with_object o (HeapObject.data_view _ b) = HeapObject.data_view o b
with_object o (HeapObject.js_map _ es) = HeapObject.js_map o es
with_object o (HeapObject.js_set _ is) = HeapObject.js_set o is
with_object o (HeapObject.js_proxy _ t h) = HeapObject.js_proxy o t h
with_object o h = h

abbrev pub set_slots : Memory → ℕ → List (List ℕ × Value) → Memory
set_slots m at_ slots =
    store m at_ (HeapObject.environment (record (environment_of (m at_)) { slots = slots }))

-- `object_backing->set(name, v)`.
abbrev pub set_backing : Memory → ℕ → List ℕ → Value → Memory
set_backing m o name v = store m o (with_object (set_prop name v true (object_of (m o))) (m o))

unfoldable pub define_name : Memory → ℕ → List ℕ → Value → Memory
unfolding find_slot update_slot set_prop
define_name m at_ name v =
    let e = environment_of (m at_) in
    if not (e.object_backing == 0)
    then set_backing m e.object_backing name v
    else set_slots m at_ (elim (find_slot name e.slots) [
      | some old ↦ update_slot v name e.slots
      | none ↦ e.slots ++ (name, v) ∷ []
    ])

unfoldable pub define_if_absent : Memory → ℕ → List ℕ → Value → Memory
unfolding find_slot find_own set_prop
define_if_absent m at_ name v =
    let e = environment_of (m at_) in
    if not (e.object_backing == 0)
    then elim (find_own name (object_of (m e.object_backing)).props) [
      | some p ↦ m
      | none ↦ set_backing m e.object_backing name v
    ]
    else elim (find_slot name e.slots) [
      | some old ↦ m
      | none ↦ set_slots m at_ (e.slots ++ (name, v) ∷ [])
    ]

-- `*slot = v`: a property is written whether it is read-only or not.
abbrev pub write_place : Memory → Place → List ℕ → Value → Memory
write_place m (Place.in_scope at_ old) name v =
    set_slots m at_ (update_slot v name (environment_of (m at_)).slots)
write_place m (Place.in_object o old) name v = store m o (
    with_object
      (record (object_of (m o)) {
        props = update_own (λ (p : Property). record p { value = v }) name (object_of (m o)).props;
      })
      (m o))

unfoldable pub set_name : ℕ → Memory → ℕ → List ℕ → Value → Option (Memory × Bool)
unfolding find_name update_slot update_own
set_name fuel m at_ name v = elim (find_name fuel m at_ name) [
  | none ↦ none
  | some none ↦ some (m, false)
  | some (some place) ↦ some (write_place m place name v, true)
]

-- `has` looks at slots only.
unfoldable pub has_name : ℕ → Memory → ℕ → List ℕ → Option Bool
unfolding find_slot
has_name zero m at_ name = none
has_name (suc fuel) m at_ name =
    let outer = has_name fuel m (environment_of (m at_)).parent name in
    if at_ == 0
    then some false
    else elim (find_slot name (environment_of (m at_)).slots) [ some v ↦ some true | none ↦ outer ]

-- The nearest scope that is a function's; the scope itself where there is none.
abbrev pub scope_or : ℕ → Option (Option ℕ) → Option ℕ
scope_or at_ none = none
scope_or at_ (some none) = some at_
scope_or at_ (some (some e)) = some e

unfoldable pub find_scope : ℕ → Memory → ℕ → Option (Option ℕ)
find_scope zero m at_ = none
find_scope (suc fuel) m at_ =
    let outer = find_scope fuel m (environment_of (m at_)).parent in
    if at_ == 0
    then some none
    else if (environment_of (m at_)).is_function_scope
    then some (some at_)
    else outer

abbrev pub function_scope : ℕ → Memory → ℕ → Option ℕ
function_scope fuel m at_ = scope_or at_ (find_scope fuel m at_)
