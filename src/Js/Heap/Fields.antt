-- ===== src/Js/Heap/Fields.antt =====
-- What an object refers to, field by field and apart from the order of `Heap::trace`, and that `trace`
-- marks all of it.
use malibu.Common.{
  ==_iff, Bool, Bool-cases, List, [], arith, exists, false, inl, inr, refl, sym, true, ℕ, ◌&&◌,
  ◌++◌, ◌==◌, ◌||◌, ◌∙◌, ◌∷◌, ◌≡◌, ◌≢◌,
}
use malibu.Js.Value.{Value, make_heap_ptr, as_heap_ptr, payload_of}
use malibu.Js.Object.{Property, JsObject, Environment, PromiseReaction, HeapObject}
use malibu.Js.Heap.{
  outgoing, pointer, of_prop, of_props, of_object, of_reactions, of_entries, of_slots,
}
use malibu.Js.Heap.Marking.{points}
use malibu.Js.Value.Boxing.{tagged_lem}

-- Whether a value is a pointer to the address, and whether a pointer with 48 bits is.
unfoldable pub refers : Value → ℕ → Bool
unfolding as_heap_ptr
refers v q = as_heap_ptr v == q

unfoldable pub leads : ℕ → ℕ → Bool
leads p q = payload_of p == q

unfoldable pub prop_refers : ℕ → Property → Bool
unfolding refers
prop_refers q p = refers p.value q || (p.is_accessor && (refers p.getter q || refers p.setter q))

unfoldable pub object_refers : JsObject → ℕ → Bool
unfolding prop_refers leads
object_refers o q = exists (prop_refers q) o.props || leads o.proto q

unfoldable pub reaction_refers : ℕ → PromiseReaction → Bool
unfolding refers leads
reaction_refers q r = refers r.on_fulfilled q || refers r.on_rejected q || leads r.result q

unfoldable pub refers_to : HeapObject → ℕ → Bool
unfolding object_refers reaction_refers refers leads
refers_to HeapObject.js_string q = false
refers_to HeapObject.js_big_int q = false
refers_to HeapObject.js_symbol q = false
refers_to (HeapObject.dom_node_ref expandos) q = exists (λ (e : List ℕ × ℕ). refers e.1 q) expandos
refers_to (HeapObject.js_object o) q = object_refers o q
refers_to (HeapObject.js_generator o) q = object_refers o q
refers_to (HeapObject.array_buffer o) q = object_refers o q
refers_to (HeapObject.js_array a) q =
    object_refers a.base q || exists (λ (v : Value). refers v q) a.elements
refers_to (HeapObject.js_promise o result reactions) q =
    object_refers o q || refers result q || exists (reaction_refers q) reactions
refers_to (HeapObject.js_function o closure) q = object_refers o q || leads closure q
refers_to (HeapObject.typed_array o buffer) q = object_refers o q || leads buffer q
refers_to (HeapObject.data_view o buffer) q = object_refers o q || leads buffer q
refers_to (HeapObject.js_map o entries) q =
    object_refers o q || exists (λ (e : Value × Value). refers e.0 q || refers e.1 q) entries
refers_to (HeapObject.js_set o items) q =
    object_refers o q || exists (λ (v : Value). refers v q) items
refers_to (HeapObject.js_proxy o target handler) q =
    object_refers o q || refers target q || refers handler q
refers_to (HeapObject.environment e) q =
    exists (λ (s : List ℕ × Value). refers s.1 q) e.slots
    || (leads e.parent q || leads e.object_backing q)

points-append : (xs ys : List Value) (q : ℕ) → points (xs ++ ys) q ≡ (points xs q || points ys q)
points-append [] ys q = refl
points-append (x ∷ xs) ys q = ground (arith, points-append xs ys q)

as_heap_ptr-make : (p : ℕ) → as_heap_ptr (make_heap_ptr p) ≡ payload_of p
unfolding as_heap_ptr make_heap_ptr
as_heap_ptr-make p =
    let (a, b, c) = tagged_lem 5 (payload_of p) (omega arith) (omega arith) in
    rw (a, b, c) (omega arith)

nothing : (p q : ℕ) → q ≢ 0 → p ≡ 0 → false ≡ leads p q
unfolding leads
nothing p q n z = ground arith

points-pointer : (p q : ℕ) → q ≢ 0 → points (pointer p) q ≡ leads p q
unfolding leads
points-pointer p q n = elim (Bool-cases (p == 0)) [
  | inl e ↦ let z : p ≡ 0 = (==_iff p 0).0 e in rw e (nothing p q n z)
  | inr e ↦ rw e (ground (arith, as_heap_ptr-make p))
]

points-values : (vs : List Value) (q : ℕ) → points vs q ≡ exists (λ (v : Value). refers v q) vs
unfolding refers
points-values [] q = refl
points-values (v ∷ vs) q = ground (arith, points-values vs q)

points-props : (ps : List Property) (q : ℕ) → points (of_props ps) q ≡ exists (prop_refers q) ps
unfolding prop_refers refers
points-props [] q = refl
points-props (p ∷ ps) q =
    ground (arith, points-append (of_prop p) (of_props ps) q, points-props ps q)

points-object : (o : JsObject) (q : ℕ) → q ≢ 0 → points (of_object o) q ≡ object_refers o q
unfolding object_refers
points-object o q n = ground (
  arith,
  points-append (of_props o.props) (pointer o.proto) q,
  points-props o.props q,
  points-pointer o.proto q n,
)

points-reactions :
    (rs : List PromiseReaction) (q : ℕ)
    → q ≢ 0
    → points (of_reactions rs) q ≡ exists (reaction_refers q) rs
unfolding reaction_refers refers
points-reactions [] q n = refl
points-reactions (r ∷ rs) q n = ground (
  arith,
  points-append (pointer r.result) (of_reactions rs) q,
  points-pointer r.result q n,
  points-reactions rs q n,
)

points-entries :
    (es : List (Value × Value)) (q : ℕ)
    → points (of_entries es) q ≡ exists (λ (e : Value × Value). refers e.0 q || refers e.1 q) es
unfolding refers
points-entries [] q = refl
points-entries ((k, v) ∷ es) q = ground (arith, points-entries es q)

points-slots :
    (es : List (List ℕ × Value)) (q : ℕ)
    → points (of_slots es) q ≡ exists (λ (e : List ℕ × Value). refers e.1 q) es
unfolding refers
points-slots [] q = refl
points-slots ((k, v) ∷ es) q = ground (arith, points-slots es q)

or_comm : (a b : Bool) → (a || b) ≡ (b || a)
or_comm true true = refl
or_comm true false = refl
or_comm false true = refl
or_comm false false = refl

beside :
    (o : JsObject) (p q : ℕ)
    → q ≢ 0
    → points (pointer p ++ of_object o) q ≡ (object_refers o q || leads p q)
beside o p q n =
    rw (points-append (pointer p) (of_object o) q, points-pointer p q n, points-object o q n)
      (or_comm (leads p q) (object_refers o q))

proxy :
    (o : JsObject) (t h : Value) (q : ℕ)
    → q ≢ 0
    → points (t ∷ h ∷ of_object o) q ≡ (object_refers o q || refers t q || refers h q)
unfolding refers
proxy o t h q n = ground (arith, points-object o q n)

promise :
    (o : JsObject) (r : Value) (rs : List PromiseReaction) (q : ℕ)
    → q ≢ 0
    → (points (of_object o) q || points (r ∷ of_reactions rs) q)
      ≡ (object_refers o q || refers r q || exists (reaction_refers q) rs)
unfolding refers
promise o r rs q n = ground (arith, points-object o q n, points-reactions rs q n)

scope :
    (e : Environment) (q : ℕ)
    → q ≢ 0
    → (points (of_slots e.slots) q || points (pointer e.parent ++ pointer e.object_backing) q) ≡ (
        exists (λ (s : List ℕ × Value). refers s.1 q) e.slots
        || (leads e.parent q || leads e.object_backing q))
scope e q n =
    rw
      (
        points-slots e.slots q,
        points-append (pointer e.parent) (pointer e.object_backing) q,
        points-pointer e.parent q n,
        points-pointer e.object_backing q n,
      )
      refl

-- The fields of an object and what `trace` marks of it lead to the same objects.
pub points-outgoing : (h : HeapObject) (q : ℕ) → q ≢ 0 → points (outgoing h) q ≡ refers_to h q
unfolding outgoing refers_to
points-outgoing HeapObject.js_string q n = refl
points-outgoing HeapObject.js_big_int q n = refl
points-outgoing HeapObject.js_symbol q n = refl
points-outgoing (HeapObject.dom_node_ref es) q n = points-slots es q
points-outgoing (HeapObject.js_object o) q n = points-object o q n
points-outgoing (HeapObject.js_generator o) q n = points-object o q n
points-outgoing (HeapObject.array_buffer o) q n = points-object o q n
points-outgoing (HeapObject.js_array a) q n =
    rw
      (
        points-append a.elements (of_object a.base) q,
        points-values a.elements q,
        points-object a.base q n,
      )
      (or_comm (exists (λ (v : Value). refers v q) a.elements) (object_refers a.base q))
points-outgoing (HeapObject.js_promise o result rs) q n =
    points-append (of_object o) (result ∷ of_reactions rs) q ∙ promise o result rs q n
points-outgoing (HeapObject.js_function o c) q n = beside o c q n
points-outgoing (HeapObject.typed_array o b) q n = beside o b q n
points-outgoing (HeapObject.data_view o b) q n = beside o b q n
points-outgoing (HeapObject.js_map o es) q n =
    rw (points-append (of_entries es) (of_object o) q, points-entries es q, points-object o q n)
      (or_comm (exists (λ (e : Value × Value). refers e.0 q || refers e.1 q) es)
        (object_refers o q))
points-outgoing (HeapObject.js_set o items) q n =
    rw (points-append items (of_object o) q, points-values items q, points-object o q n)
      (or_comm (exists (λ (v : Value). refers v q) items) (object_refers o q))
points-outgoing (HeapObject.js_proxy o t h) q n = proxy o t h q n
points-outgoing (HeapObject.environment e) q n =
    points-append (of_slots e.slots) (pointer e.parent ++ pointer e.object_backing) q ∙ scope e q n

pub to_refers :
    (h : HeapObject) (q : ℕ) → q ≢ 0 → points (outgoing h) q ≡ true → refers_to h q ≡ true
to_refers h q n e = sym (points-outgoing h q n) ∙ e

pub of_refers :
    (h : HeapObject) (q : ℕ) → q ≢ 0 → refers_to h q ≡ true → points (outgoing h) q ≡ true
of_refers h q n e = points-outgoing h q n ∙ e
