-- ===== src/Tests/Scripts.antt =====
-- Runs of the script values, objects and heap.
use malibu.Common.{
  List, Option, [], arith, false, if◌then◌else◌, listed, none, refl, some, true, ℕ, ◌&&◌, ◌-◌, ◌==◌,
  ◌^◌, ◌↔◌, ◌∷◌, ◌≡◌,
}
use malibu.Common.Bytes.{bytes_eq, codes}
use malibu.Js.Value.{Value, make_heap_ptr, make_int32, as_heap_ptr, is_tagged, tag, tagged}
use malibu.Js.Value.Boxing.{Unboxed, box, unbox, unbox-box}
use malibu.Js.Object.{JsObject, JsArray, HeapObject, Memory}
use malibu.Js.Object.Props.{new_object, new_property, find_own, set_prop, delete_prop}
use malibu.Js.Object.Props.Laws.{
  find_own-set_prop, after_set, HasKeys, may_delete, find_own-delete_prop,
}
use malibu.Js.Object.Arrays.{Outcome, set_index, resize_length}
use malibu.Js.Object.Arrays.View.{view}
use malibu.Js.Object.Arrays.Refines.{ArrayOp, apply, promised, Refines, apply-Refines}
use malibu.Js.Heap.{
  Heap, new_heap, collect, mark_value, mark_values, mark_roots, trace, drain, outgoing,
}
use malibu.Js.Heap.Fields.{refers_to, object_refers, prop_refers, leads}
use malibu.Js.Heap.Loop.{IsClosed, IsReachable}
use malibu.Js.Heap.Correct.{collect_returns, collect_keeps_reachable, collect-IsClosed}

unbox-box_example : unbox (box (Unboxed.heap_ptr 4096)) ≡ Unboxed.heap_ptr 4096
unbox-box_example = unbox-box (Unboxed.heap_ptr 4096) (omega arith)

-- An array with a hole at index 1.
abbrev holed : JsArray
holed = record {
  base = new_object;
  elements = 7 ∷ 8 ∷ 9 ∷ [];
  presence = true ∷ false ∷ true ∷ [];
  length_writable = true;
}

apply-Refines_example :
    Refines (apply 100 holed (ArrayOp.put 4 5)) (promised 100 (view holed) (ArrayOp.put 4 5))
apply-Refines_example = apply-Refines 100 holed (ArrayOp.put 4 5) (omega arith) (omega arith)

-- The largest index: the sum wraps, the array is emptied, and the write is out of bounds.
emptied : set_index 100 holed (2 ^ 64 - 1) 5 ≡ Outcome.out_of_bounds
unfolding set_index resize_length
emptied = refl

too_long : set_index 100 holed 100 5 ≡ Outcome.length_error
unfolding set_index resize_length
too_long = refl

-- The write of the last hole drops the flags.
filled :
    set_index 100 holed 1 5
    ≡ Outcome.done (record {
      base = new_object;
      elements = 7 ∷ 5 ∷ 9 ∷ [];
      presence = [];
      length_writable = true;
    })
unfolding set_index
filled = refl

abbrev name : List ℕ
name = codes "x"

abbrev owner : JsObject
owner = record {
  props = new_property name 7 true ∷ [];
  proto = 0;
  extensible = true;
  sealed = false;
  frozen = false;
}

owner-HasKeys : HasKeys owner.props
unfolding find_own bytes_eq
owner-HasKeys = (refl, tt)

find_own-delete_prop_example :
    ((delete_prop name owner).0 ≡ may_delete (find_own name owner.props))
    × (find_own name (delete_prop name owner).1.props ≡ (
        if bytes_eq name name && may_delete (find_own name owner.props)
        then none
        else find_own name owner.props))
find_own-delete_prop_example = find_own-delete_prop name name owner owner-HasKeys

find_own-set_prop_example :
    find_own name (set_prop name 9 true owner).props
    ≡ (if bytes_eq name name then after_set owner name 9 true else find_own name owner.props)
find_own-set_prop_example = find_own-set_prop name name 9 true owner

-- An object at 16 whose prototype stands at 32, and an object at 48 that nothing points to.
abbrev child_object : JsObject
child_object = record new_object { proto = 32 }

abbrev layout : Memory
layout p = if p == 16 then HeapObject.js_object child_object else HeapObject.js_object new_object

abbrev roots : List Value
roots = make_int32 16 ∷ make_heap_ptr 16 ∷ []

abbrev heap : Heap
heap = record new_heap { objects = 16 ∷ 32 ∷ 48 ∷ []; memory = layout; bytes_since_gc = 300 }

heap-IsClosed : IsClosed roots heap
unfolding make_int32 make_heap_ptr as_heap_ptr tagged is_tagged tag refers_to object_refers
    prop_refers leads
heap-IsClosed = record {
  from_roots = λ q e n. ground arith;
  from_objects = λ p q k n e. ground arith;
}

abbrev heap_of : Option Heap → Heap
heap_of none = heap
heap_of (some h) = h

abbrev after : Heap
after = heap_of (collect roots heap)

collects : collect roots heap ≡ some after
unfolding collect drain trace mark_roots mark_values mark_value outgoing make_int32 make_heap_ptr
    as_heap_ptr tagged is_tagged tag
collects = refl

survivors : after.objects ≡ 16 ∷ 32 ∷ []
unfolding collect drain trace mark_roots mark_values mark_value outgoing make_int32 make_heap_ptr
    as_heap_ptr tagged is_tagged tag
survivors = refl

collect_returns_example :
    (t : Heap) × (collect roots heap ≡ some t) × (t.memory ≡ heap.memory) × (t.bytes_since_gc ≡ 0)
collect_returns_example = collect_returns roots heap heap-IsClosed

collect_keeps_reachable_example :
    (listed 32 after.objects ≡ true) ↔ IsReachable heap.memory roots 32
collect_keeps_reachable_example =
    collect_keeps_reachable roots heap after heap-IsClosed refl collects 32

collect-IsClosed_example : IsClosed roots after
collect-IsClosed_example = collect-IsClosed roots heap after heap-IsClosed refl collects
