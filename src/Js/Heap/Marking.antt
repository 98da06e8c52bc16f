-- ===== src/Js/Heap/Marking.antt =====
-- Which objects marking blackens and queues, and that it queues no object that it does not blacken.
use malibu.Common.{
  ==_iff, Bool, Bool-cases, List, [], arith, false, if◌then◌else◌, inl, inr, length, listed, not,
  refl, suc, true, ℕ, ◌&&◌, ◌+◌, ◌==◌, ◌||◌, ◌∙◌, ◌∷◌, ◌≡◌, ◌≢◌, ◌≤◌,
}
use malibu.Js.Value.{Value, as_heap_ptr, is_heap_ptr}
use malibu.Js.Heap.{Marks, GcColor, is_black, mark_value, mark_values}

-- The objects that some values point to.
abbrev pub points : List Value → ℕ → Bool
points [] q = false
points (v ∷ vs) q = if as_heap_ptr v == q then true else points vs q

-- `mark_value` by the pointer alone.
pub mark_pointer : ℕ → Marks → Marks
mark_pointer o s = if (o == 0) || is_black (s.colors o) then s else record {
  colors = λ (p : ℕ). if p == o then GcColor.black else s.colors p;
  worklist = o ∷ s.worklist;
}

pub mark_value-eq : (v : Value) (s : Marks) → mark_value v s ≡ mark_pointer (as_heap_ptr v) s
unfolding mark_value mark_pointer
mark_value-eq v s = elim (Bool-cases (is_heap_ptr v)) [ inl e ↦ rw e refl | inr e ↦ rw e refl ]

abbrev pub blackened : Marks → ℕ → Bool
blackened s q = is_black (s.colors q)

abbrev pub queued : Marks → ℕ → Bool
queued s q = listed q s.worklist

mark_pointer-blackened :
    (o q : ℕ) (s : Marks)
    → q ≢ 0
    → blackened (mark_pointer o s) q ≡ (if o == q then true else blackened s q)
unfolding mark_pointer
mark_pointer-blackened o q s h = ground arith

mark_pointer-queued :
    (o q : ℕ) (s : Marks)
    → q ≢ 0
    → queued (mark_pointer o s) q ≡ (if (o == q) && not (blackened s q) then true else queued s q)
unfolding mark_pointer
mark_pointer-queued o q s h = ground arith

mark_pointer-null : (o : ℕ) (s : Marks) → queued (mark_pointer o s) 0 ≡ queued s 0
unfolding mark_pointer
mark_pointer-null o s = ground arith

pub mark_values-blackened :
    (vs : List Value) (q : ℕ) (s : Marks)
    → q ≢ 0
    → blackened (mark_values vs s) q ≡ (if points vs q then true else blackened s q)
unfolding mark_values
mark_values-blackened [] q s h = refl
mark_values-blackened (v ∷ vs) q s h =
    let step : blackened (mark_value v s) q ≡ (if as_heap_ptr v == q then true else blackened s q) =
      rw (mark_value-eq v s) (mark_pointer-blackened (as_heap_ptr v) q s h) in
    ground (arith, mark_values-blackened vs q (mark_value v s) h, step)

pub mark_values-queued :
    (vs : List Value) (q : ℕ) (s : Marks)
    → q ≢ 0
    → queued (mark_values vs s) q
      ≡ (if points vs q && not (blackened s q) then true else queued s q)
unfolding mark_values
mark_values-queued [] q s h = refl
mark_values-queued (v ∷ vs) q s h =
    let black : blackened (mark_value v s) q
        ≡ (if as_heap_ptr v == q then true else blackened s q) =
      rw (mark_value-eq v s) (mark_pointer-blackened (as_heap_ptr v) q s h) in
    let queue : queued (mark_value v s) q
        ≡ (if (as_heap_ptr v == q) && not (blackened s q) then true else queued s q) =
      rw (mark_value-eq v s) (mark_pointer-queued (as_heap_ptr v) q s h) in
    ground (arith, mark_values-queued vs q (mark_value v s) h, black, queue)

pub mark_values-null : (vs : List Value) (s : Marks) → queued (mark_values vs s) 0 ≡ queued s 0
unfolding mark_values
mark_values-null [] s = refl
mark_values-null (v ∷ vs) s =
    let step : queued (mark_value v s) 0 ≡ queued s 0 =
      rw (mark_value-eq v s) (mark_pointer-null (as_heap_ptr v) s) in
    mark_values-null vs (mark_value v s) ∙ step

-- The objects that are not black yet.
abbrev pub pale : List ℕ → Marks → ℕ
pale [] s = 0
pale (p ∷ ps) s = if blackened s p then pale ps s else suc (pale ps s)

blacken : ℕ → Marks → Marks
blacken o s = record {
  colors = λ (p : ℕ). if p == o then GcColor.black else s.colors p;
  worklist = o ∷ s.worklist;
}

pale-blacken-le : (ps : List ℕ) (o : ℕ) (s : Marks) → pale ps (blacken o s) ≤ pale ps s
unfolding blacken
pale-blacken-le [] o s = omega arith
pale-blacken-le (p ∷ ps) o s = ground (arith, pale-blacken-le ps o s)

pale-blacken :
    (ps : List ℕ) (o : ℕ) (s : Marks)
    → listed o ps ≡ true
    → blackened s o ≡ false
    → suc (pale ps (blacken o s)) ≤ pale ps s
unfolding blacken
pale-blacken [] o s h e = ground arith
pale-blacken (p ∷ ps) o s h e = elim (Bool-cases (p == o)) [
  | inl k ↦ let same : p ≡ o = (==_iff p o).0 k in ground (arith, pale-blacken-le ps o s)
  | inr k ↦ ground (arith, pale-blacken ps o s)
]

-- Falls with every object that is popped, and does not grow with those that are marked.
abbrev pub work : List ℕ → Marks → ℕ
work ps s = pale ps s + length s.worklist

mark_pointer-work :
    (ps : List ℕ) (o : ℕ) (s : Marks)
    → (o ≢ 0 → listed o ps ≡ true)
    → work ps (mark_pointer o s) ≤ work ps s
unfolding mark_pointer blacken
mark_pointer-work ps o s h = elim (Bool-cases ((o == 0) || blackened s o)) [
  | inl e ↦ rw e (omega arith)
  | inr e ↦ rw e (omega (arith, pale-blacken ps o s (h (ground arith)) (ground arith)))
]

pub mark_values-work :
    (ps : List ℕ) (vs : List Value) (s : Marks)
    → ((q : ℕ) → points vs q ≡ true → q ≢ 0 → listed q ps ≡ true)
    → work ps (mark_values vs s) ≤ work ps s
unfolding mark_values
mark_values-work ps [] s h = omega arith
mark_values-work ps (v ∷ vs) s h =
    let rest = mark_values-work ps vs (mark_value v s) (λ q e n. h q (ground arith) n) in
    let step : work ps (mark_value v s) ≤ work ps s =
      rw (mark_value-eq v s)
        (mark_pointer-work ps (as_heap_ptr v) s (h (as_heap_ptr v) (ground arith))) in
    omega arith
