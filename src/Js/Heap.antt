-- ===== src/Js/Heap.antt =====
-- `Heap` of core/include/malibu/js/heap/heap.h and js/heap/heap.cpp: mark and sweep.
--
-- An object is known by its address. The C++ keeps `gc_color` and the fields in the object; here
-- `colors` and `memory` give them at an address. The worklist's last element is its head here. The
-- root enumerator is the list of values that it calls its mark function on, in order. A freed
-- object leaves `objects`; what stood at its address is not looked at again.
pub mod Marking
pub mod Fields
pub mod Loop
pub mod Correct
use malibu.Common.{
  ==_iff, All, All-append, All-imp, Bool, Bool-cases, Distinct, Distinct-snoc, List, List-cases,
  Option, Option-cases, [], ap, arith, drop, drop-length-append, exists, exists_get_elem?,
  exists_none, false, get_elem?, get_elem?-append_left, get_elem?-append_length, get_elem?-lt,
  get_elem?-set_ne, get_elem?-set_self, get_elem?_lem, get_or, if◌then◌else◌, inl, inr, is_empty,
  keep, leb, leb→le, length, length-append, length-drop, length-keep-le, length-set, listed,
  listed-append, ltb, ltb→lt, lt→ltb, map, map-append_lem, none, not, not-listed, refl, set,
  set-append_length, set-get_elem?, set-set, some, subst, suc, sym, take, take-length-append, tests,
  true, zero, ℕ, ◌%◌, ◌&&◌, ◌*◌, ◌++◌, ◌+◌, ◌-◌, ◌/◌, ◌<◌, ◌==◌, ◌^◌, ◌||◌, ◌↔◌, ◌∙◌, ◌∷◌, ◌≡◌, ◌≢◌,
  ◌≤◌, ◌⊎◌,
}
use malibu.Js.Value.{Value, make_heap_ptr, is_heap_ptr, as_heap_ptr, is_tagged, tag}
use malibu.Js.Object.{Property, JsObject, JsArray, Environment, PromiseReaction, HeapObject, Memory}

pub data GcColor : Type 0 where
  white grey black : GcColor

pub record Heap : Type 0 where
  pub objects : List ℕ
  pub colors : ℕ → GcColor
  pub memory : Memory
  pub bytes_since_gc : ℕ
  pub threshold : ℕ

-- What marking changes.
pub record Marks : Type 0 where
  pub colors : ℕ → GcColor
  pub worklist : List ℕ

abbrev pub new_heap : Heap
new_heap = record {
  objects = [];
  colors = λ (p : ℕ). GcColor.white;
  memory = λ (p : ℕ). HeapObject.js_symbol;
  bytes_since_gc = 0;
  threshold = 4 * 1024 * 1024;
}

-- `alloc`: `at_` is the address that `new` returns, `size` is `sizeof(T)`, on 64 bits.
unfoldable pub alloc : ℕ → ℕ → HeapObject → Heap → Heap
alloc at_ size object h = record h {
  objects = h.objects ++ at_ ∷ [];
  colors = λ (p : ℕ). if p == at_ then GcColor.white else h.colors p;
  memory = λ (p : ℕ). if p == at_ then object else h.memory p;
  bytes_since_gc = (h.bytes_since_gc + size) % 2 ^ 64;
}

abbrev pub should_collect : Heap → Bool
should_collect h = leb h.threshold h.bytes_since_gc

abbrev pub set_threshold : ℕ → Heap → Heap
set_threshold bytes h = record h { threshold = bytes }

abbrev pub live_count : Heap → ℕ
live_count h = length h.objects

abbrev pub is_black : GcColor → Bool
is_black GcColor.black = true
is_black GcColor.white = false
is_black GcColor.grey = false

unfoldable pub mark_value : Value → Marks → Marks
unfolding as_heap_ptr is_tagged tag
mark_value v s =
    if not (is_heap_ptr v)
    then s
    else if (as_heap_ptr v == 0) || is_black (s.colors (as_heap_ptr v))
    then s
    else record {
      colors = λ (p : ℕ). if p == as_heap_ptr v then GcColor.black else s.colors p;
      worklist = as_heap_ptr v ∷ s.worklist;
    }

-- The values that `trace` marks of an object, in its order.
abbrev pub pointer : ℕ → List Value
pointer p = if p == 0 then [] else make_heap_ptr p ∷ []

abbrev pub of_prop : Property → List Value
of_prop p = p.value ∷ (if p.is_accessor then p.getter ∷ p.setter ∷ [] else [])

abbrev pub of_props : List Property → List Value
of_props [] = []
of_props (p ∷ ps) = of_prop p ++ of_props ps

abbrev pub of_object : JsObject → List Value
of_object o = of_props o.props ++ pointer o.proto

abbrev pub of_reactions : List PromiseReaction → List Value
of_reactions [] = []
of_reactions (r ∷ rs) = r.on_fulfilled ∷ r.on_rejected ∷ (pointer r.result ++ of_reactions rs)

abbrev pub of_entries : List (Value × Value) → List Value
of_entries [] = []
of_entries ((k, v) ∷ es) = k ∷ v ∷ of_entries es

abbrev pub of_slots : List (List ℕ × Value) → List Value
of_slots [] = []
of_slots ((k, v) ∷ es) = v ∷ of_slots es

unfoldable pub outgoing : HeapObject → List Value
outgoing HeapObject.js_string = []
outgoing HeapObject.js_big_int = []
outgoing HeapObject.js_symbol = []
outgoing (HeapObject.dom_node_ref expandos) = of_slots expandos
outgoing (HeapObject.js_array a) = a.elements ++ of_object a.base
outgoing (HeapObject.js_object o) = of_object o
outgoing (HeapObject.js_promise o result reactions) =
    of_object o ++ (result ∷ of_reactions reactions)
outgoing (HeapObject.js_function o closure) = pointer closure ++ of_object o
outgoing (HeapObject.js_map o entries) = of_entries entries ++ of_object o
outgoing (HeapObject.js_set o items) = items ++ of_object o
outgoing (HeapObject.js_generator o) = of_object o
outgoing (HeapObject.array_buffer o) = of_object o
outgoing (HeapObject.typed_array o buffer) = pointer buffer ++ of_object o
outgoing (HeapObject.data_view o buffer) = pointer buffer ++ of_object o
outgoing (HeapObject.js_proxy o target handler) = target ∷ handler ∷ of_object o
outgoing (HeapObject.environment e) =
    of_slots e.slots ++ (pointer e.parent ++ pointer e.object_backing)

unfoldable pub mark_values : List Value → Marks → Marks
unfolding mark_value
mark_values [] s = s
mark_values (v ∷ vs) s = mark_values vs (mark_value v s)

unfoldable pub trace : Memory → ℕ → Marks → Marks
unfolding mark_values outgoing
trace m at_ s = mark_values (outgoing (m at_)) s

-- The `while` loop, on fuel.
unfoldable pub drain : ℕ → Memory → Marks → Option Marks
unfolding trace
drain zero m s = none
drain (suc fuel) m s = elim s.worklist [
  | [] ↦ some s
  | o ∷ rest ↦ drain fuel m (trace m o (record s { worklist = rest }))
]

abbrev pub reset : Heap → ℕ → GcColor
reset h p = if listed p h.objects then GcColor.white else h.colors p

unfoldable pub mark_roots : List Value → Heap → Marks
unfolding mark_values
mark_roots roots h = mark_values roots (record { colors = reset h; worklist = [] })

abbrev pub sweep : Heap → Marks → Heap
sweep h s = record h {
  objects = keep (λ (p : ℕ). is_black (s.colors p)) h.objects;
  colors = s.colors;
  bytes_since_gc = 0;
}

abbrev pub swept : Heap → Option Marks → Option Heap
swept h none = none
swept h (some s) = some (sweep h s)

-- One round more than there are objects is enough.
unfoldable pub collect : List Value → Heap → Option Heap
unfolding drain mark_roots
collect roots h = swept h (drain (suc (length h.objects)) h.memory (mark_roots roots h))
