-- ===== src/Js/Object.antt =====
-- `JSObject`, `JSArray` and `Environment` of core/include/malibu/js/runtime/objects.h and
-- js/runtime/objects.cpp, and the other kinds of objects on the heap.
--
-- Memory maps an address to the object there; 0 is `nullptr`. Keys are lists of UTF-16 code units.
-- Of the contents that no traced pointer leads out of (text, numbers, code, bytes) the model keeps
-- what its operations use. A chain of prototypes or scopes need not end, so a walk along it takes
-- fuel, and an outer `none` says that it ran out.
pub mod Props
pub mod Arrays
pub mod Scopes
use malibu.Common.{
  ==_iff, All, All-append, All-imp, Bool, Bool-cases, Distinct, Distinct-snoc, List, List-cases,
  Option, Option-cases, [], ap, arith, drop, drop-length-append, exists, exists_get_elem?,
  exists_none, false, get_elem?, get_elem?-append_left, get_elem?-append_length, get_elem?-lt,
  get_elem?-set_ne, get_elem?-set_self, get_elem?_lem, get_or, if◌then◌else◌, inl, inr, is_empty,
  keep, leb, leb→le, length, length-append, length-drop, length-keep-le, length-set, listed,
  listed-append, ltb, ltb→lt, lt→ltb, map, map-append_lem, none, not, not-listed, refl, set,
  set-append_length, set-get_elem?, set-set, some, subst, suc, sym, take, take-length-append, tests,
  true, zero, ℕ, ◌%◌, ◌&&◌, ◌*◌, ◌++◌, ◌+◌, ◌-◌, ◌/◌, ◌<◌, ◌==◌, ◌^◌, ◌||◌, ◌↔◌, ◌∙◌, ◌∷◌, ◌≡◌, ◌≢◌,
  ◌≤◌, ◌⊎◌,
}
use malibu.Js.Value.{Value}

pub record Property : Type 0 where
  pub key : List ℕ
  pub value : Value
  pub enumerable : Bool
  pub is_accessor : Bool
  pub getter : Value
  pub setter : Value
  pub writable : Bool
  pub configurable : Bool

pub record JsObject : Type 0 where
  pub props : List Property
  pub proto : ℕ
  pub extensible : Bool
  pub sealed : Bool
  pub frozen : Bool

-- `presence` is empty where no index is missing, and one flag for an index otherwise.
pub record JsArray : Type 0 where
  pub base : JsObject
  pub elements : List Value
  pub presence : List Bool
  pub length_writable : Bool

pub record Environment : Type 0 where
  pub parent : ℕ
  pub slots : List (List ℕ × Value)
  pub is_function_scope : Bool
  pub object_backing : ℕ
  pub is_with : Bool

pub record PromiseReaction : Type 0 where
  pub on_fulfilled : Value
  pub on_rejected : Value
  pub result : ℕ

-- `HeapObject`, by its kind.
pub data HeapObject : Type 0 where
  js_string js_big_int js_symbol : HeapObject
  dom_node_ref : List (List ℕ × ℕ) → HeapObject
  js_object js_generator array_buffer : JsObject → HeapObject
  js_array : JsArray → HeapObject
  js_promise : JsObject → Value → List PromiseReaction → HeapObject
  js_function typed_array data_view : JsObject → ℕ → HeapObject
  js_map : JsObject → List (Value × Value) → HeapObject
  js_set : JsObject → List Value → HeapObject
  js_proxy : JsObject → Value → Value → HeapObject
  environment : Environment → HeapObject

abbrev pub Memory : Type 0
Memory = ℕ → HeapObject
