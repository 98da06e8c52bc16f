-- ===== src/Js/Heap/Correct.antt =====
-- A collection ends, frees what cannot be reached and nothing else, and leaves no pointer to what it
-- freed.
use malibu.Common.{
  ==_iff, Bool, Bool-cases, List, [], ap, arith, false, inl, inr, keep, length, listed, refl, some,
  subst, suc, true, ℕ, ◌&&◌, ◌<◌, ◌==◌, ◌↔◌, ◌∙◌, ◌∷◌, ◌≡◌, ◌≢◌, ◌≤◌,
}
use malibu.Js.Value.{Value}
use malibu.Js.Object.{HeapObject}
use malibu.Js.Heap.{Heap, Marks, is_black, mark_roots, reset, collect, sweep}
use malibu.Js.Heap.Fields.{refers_to, of_refers}
use malibu.Js.Heap.Marking.{blackened, pale, work, mark_values-work}
use malibu.Js.Heap.Loop.{IsClosed, IsReachable, IsMarking, IsMarking-mark_roots, drain_lem}

pale-le-length : (ps : List ℕ) (s : Marks) → pale ps s ≤ length ps
pale-le-length [] s = omega arith
pale-le-length (p ∷ ps) s = ground (arith, pale-le-length ps s)

mark_roots-work :
    (roots : List Value) (h : Heap)
    → IsClosed roots h
    → work h.objects (mark_roots roots h) ≤ length h.objects
unfolding mark_roots
mark_roots-work roots h closed =
    let blank : Marks = record { colors = reset h; worklist = [] } in
    omega (
      arith,
      mark_values-work h.objects roots blank closed.from_roots,
      pale-le-length h.objects blank,
    )

-- Where no root and no object on the heap points to anything that is not on the heap, `collect` ends
-- within one round more than there are objects: it returns a heap with the same memory and a byte count of 0.
pub collect_returns :
    (roots : List Value) (h : Heap)
    → IsClosed roots h
    → (t : Heap) × (collect roots h ≡ some t) × (t.memory ≡ h.memory) × (t.bytes_since_gc ≡ 0)
unfolding collect
collect_returns roots h closed =
    let enough : work h.objects (mark_roots roots h) < suc (length h.objects) =
      omega (arith, mark_roots-work roots h closed) in
    let (s, ends, i, empty) =
      drain_lem roots h closed (suc (length h.objects)) (mark_roots roots h)
        (IsMarking-mark_roots roots h closed) enough in
    (sweep h s, rw ends refl, refl, refl)

-- The loop's result in a collection that returns.
collect_marks :
    (roots : List Value) (h t : Heap)
    → IsClosed roots h
    → collect roots h ≡ some t
    → (s : Marks) × (t ≡ sweep h s) × IsMarking roots h s × (s.worklist ≡ [])
unfolding collect
collect_marks roots h t closed e =
    let enough : work h.objects (mark_roots roots h) < suc (length h.objects) =
      omega (arith, mark_roots-work roots h closed) in
    let (s, ends, i, empty) =
      drain_lem roots h closed (suc (length h.objects)) (mark_roots roots h)
        (IsMarking-mark_roots roots h closed) enough in
    let e' : some (sweep h s) ≡ some t = rw ends at e in (s, ground arith, i, empty)

listed-keep : (f : ℕ → Bool) (ps : List ℕ) (q : ℕ) → listed q (keep f ps) ≡ (listed q ps && f q)
listed-keep f [] q = refl
listed-keep f (p ∷ ps) q = elim (Bool-cases (p == q)) [
  | inl e ↦ let same : p ≡ q = (==_iff p q).0 e in ground (arith, listed-keep f ps q)
  | inr e ↦ ground (arith, listed-keep f ps q)
]

reached-blackened :
    (roots : List Value) (h : Heap) (s : Marks)
    → IsClosed roots h
    → IsMarking roots h s
    → s.worklist ≡ []
    → (p : ℕ) → IsReachable h.memory roots p
    → (listed p h.objects ≡ true) × (blackened s p ≡ true) × (p ≢ 0)
reached-blackened roots h s closed i empty p (IsReachable.root _ n r) =
    (closed.from_roots p r n, i.rooted p n r, n)
reached-blackened roots h s closed i empty p (IsReachable.edge o _ r n e) =
    let (k, b, m) = reached-blackened roots h s closed i empty o r in
    (
      closed.from_objects o p k n e,
      i.traced o p m k b (rw empty refl) n (of_refers (h.memory o) p n e),
      n,
    )

-- On a closed heap without an object at address 0, `collect` keeps exactly the objects that the roots
-- reach: an object of the heap stays if it is reachable, and goes if it is not.
pub collect_keeps_reachable :
    (roots : List Value) (h t : Heap)
    → IsClosed roots h
    → listed 0 h.objects ≡ false
    → collect roots h ≡ some t
    → (p : ℕ) → (listed p t.objects ≡ true) ↔ IsReachable h.memory roots p
collect_keeps_reachable roots h t closed null e p =
    let (s, same, i, empty) = collect_marks roots h t closed e in
    let kept : listed p t.objects ≡ (listed p h.objects && blackened s p) =
      ap (λ (u : Heap). listed p u.objects) same
      ∙ listed-keep (λ (q : ℕ). is_black (s.colors q)) h.objects p in
    (
      λ l.
          let some_address : p ≢ 0 = λ z.
            (let gone : listed 0 h.objects ≡ true =
                subst (λ x. listed x h.objects ≡ true) z (ground arith) in
              ground arith) in
          i.sound p some_address (ground arith) (ground arith),
      λ r. let (k, b, n) = reached-blackened roots h s closed i empty p r in ground arith,
    )

-- A collection of a closed heap leaves a closed heap: no root and no object that is kept points to
-- an object that was freed.
pub collect-IsClosed :
    (roots : List Value) (h t : Heap)
    → IsClosed roots h
    → listed 0 h.objects ≡ false
    → collect roots h ≡ some t
    → IsClosed roots t
collect-IsClosed roots h t closed null e =
    let kept = collect_keeps_reachable roots h t closed null e in
    let (s, same, _, _) = collect_marks roots h t closed e in
    record {
      from_roots = λ q r n. (kept q).1 (IsReachable.root q n r);
      from_objects = λ p q l n r.
          let same_fields : refers_to (h.memory p) q ≡ true =
            subst (λ (m : ℕ → HeapObject). refers_to (m p) q ≡ true)
              (ap (λ (u : Heap). u.memory) same) r in
          (kept q).1 (IsReachable.edge p q ((kept p).0 l) n same_fields);
    }
