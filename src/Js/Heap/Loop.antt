-- ===== src/Js/Heap/Loop.antt =====
-- The marking loop ends, and what a collection's marks say of the objects.
use malibu.Common.{
  ==_iff, Bool-cases, List, List-cases, [], ap, arith, false, if◌then◌else◌, inl, inr, length,
  listed, refl, some, subst, suc, sym, true, zero, ℕ, ◌<◌, ◌==◌, ◌∙◌, ◌∷◌, ◌≡◌, ◌≢◌, ◌⊎◌,
}
use malibu.Js.Value.{Value}
use malibu.Js.Object.{Memory}
use malibu.Js.Heap.{Heap, Marks, is_black, mark_roots, trace, drain, outgoing, reset}
use malibu.Js.Heap.Fields.{refers_to, to_refers}
use malibu.Js.Heap.Marking.{
  points, blackened, queued, pale, work, mark_values-blackened, mark_values-queued,
  mark_values-null, mark_values-work,
}

-- Every non-null pointer of the values leads to a listed object.
abbrev pub AllListed : List ℕ → List Value → Type 0
AllListed objects vs = (q : ℕ) → points vs q ≡ true → q ≢ 0 → listed q objects ≡ true

-- No root points to an object that is not listed, and no listed object refers to one.
pub record IsClosed (roots : List Value) (h : Heap) : Type 0 where
  pub from_roots : AllListed h.objects roots
  pub from_objects :
      (p q : ℕ)
      → listed p h.objects ≡ true
      → q ≢ 0
      → refers_to (h.memory p) q ≡ true
      → listed q h.objects ≡ true

pub data IsReachable (m : Memory) (roots : List Value) : ℕ → Type 0 where
  root : (p : ℕ) → p ≢ 0 → points roots p ≡ true → IsReachable m roots p
  edge :
      (p q : ℕ) → IsReachable m roots p → q ≢ 0 → refers_to (m p) q ≡ true → IsReachable m roots q

pale_worklist :
    (ps : List ℕ) (s : Marks) (w : List ℕ) → pale ps (record s { worklist = w }) ≡ pale ps s
pale_worklist [] s w = refl
pale_worklist (p ∷ ps) s w = ground (arith, pale_worklist ps s w)

zero_or : (p : ℕ) → (p ≡ 0) ⊎ (p ≢ 0)
zero_or zero = inl refl
zero_or (suc p) = inr (omega arith)

reset-white : (h : Heap) (p : ℕ) → listed p h.objects ≡ true → is_black (reset h p) ≡ false
reset-white h p e = rw e refl

module _ (roots : List Value) (h : Heap) where
  -- What holds at the head of each round.
  pub record IsMarking (s : Marks) : Type 0 where
    pub null : queued s 0 ≡ false
    pub known : (p : ℕ) → queued s p ≡ true → (listed p h.objects ≡ true) × (blackened s p ≡ true)
    pub sound :
        (p : ℕ)
        → p ≢ 0
        → listed p h.objects ≡ true
        → blackened s p ≡ true
        → IsReachable h.memory roots p
    pub traced :
        (p q : ℕ)
        → p ≢ 0
        → listed p h.objects ≡ true
        → blackened s p ≡ true
        → queued s p ≡ false
        → q ≢ 0
        → points (outgoing (h.memory p)) q ≡ true
        → blackened s q ≡ true
    pub rooted : (q : ℕ) → q ≢ 0 → points roots q ≡ true → blackened s q ≡ true

module _ (roots : List Value) (h : Heap) (closed : IsClosed roots h) where
  marks_listed : (p : ℕ) → listed p h.objects ≡ true → AllListed h.objects (outgoing (h.memory p))
  marks_listed p k q e n = closed.from_objects p q k n (to_refers (h.memory p) q n e)

  pub IsMarking-mark_roots : IsMarking roots h (mark_roots roots h)
  unfolding mark_roots
  IsMarking-mark_roots =
      let blank : Marks = record { colors = reset h; worklist = [] } in
      let black = λ (q : ℕ) (n : q ≢ 0). mark_values-blackened roots q blank n in
      let queue = λ (q : ℕ) (n : q ≢ 0). mark_values-queued roots q blank n in
      record {
        null = mark_values-null roots blank;
        known = λ p e. elim (zero_or p) [
          | inl z ↦ absurd (ground (arith, mark_values-null roots blank))
          | inr n ↦
              let pointed : points roots p ≡ true = ground (arith, queue p n) in
              (closed.from_roots p pointed n, ground (arith, black p n))
        ];
        sound = λ p n k e. IsReachable.root p n (ground (arith, black p n, reset-white h p k));
        traced = λ p q n k e u nq pq.
            let pointed : points roots p ≡ true = ground (arith, black p n, reset-white h p k) in
            absurd (ground (arith, queue p n, reset-white h p k));
        rooted = λ q n e. ground (arith, black q n);
      }

  pub IsMarking-trace :
      (s : Marks) (o : ℕ) (rest : List ℕ)
      → s.worklist ≡ o ∷ rest
      → IsMarking roots h s
      → IsMarking roots h (trace h.memory o (record s { worklist = rest }))
  unfolding trace
  IsMarking-trace s o rest e i =
      let popped : Marks = record s { worklist = rest } in
      let vs = outgoing (h.memory o) in
      let here = i.known o (ground arith) in
      let black = λ (q : ℕ) (n : q ≢ 0). mark_values-blackened vs q popped n in
      let queue = λ (q : ℕ) (n : q ≢ 0). mark_values-queued vs q popped n in
      let was =
        λ (q : ℕ) (t : (if o == q then true else listed q rest) ≡ true). i.known q (rw e t) in
      let clean : listed 0 rest ≡ false = ground (arith, i.null) in
      let first : o ≢ 0 = ground (arith, i.null) in
      let reached = i.sound o first here.0 here.1 in
      record {
        null = mark_values-null vs popped ∙ clean;
        known = λ p k. elim (zero_or p) [
          | inl z ↦ absurd (ground (arith, mark_values-null vs popped))
          | inr n ↦ elim (Bool-cases (listed p rest)) [
            | inl l ↦ ((was p (ground arith)).0, ground (arith, black p n, was p (ground arith)))
            | inr l ↦
                let pointed : points vs p ≡ true = ground (arith, queue p n) in
                (marks_listed o here.0 p pointed n, ground (arith, black p n))
          ]
        ];
        sound = λ p n k b. elim (Bool-cases (points vs p)) [
          | inl l ↦ IsReachable.edge o p reached n (to_refers (h.memory o) p n l)
          | inr l ↦ i.sound p n k (ground (arith, black p n))
        ];
        traced = λ p q n k b u nq pq. elim (Bool-cases (o == p)) [
          | inl l ↦
              let same : o ≡ p = (==_iff o p).0 l in
              let pointed : points vs q ≡ true =
                subst (λ x. points (outgoing (h.memory x)) q ≡ true) (sym same) pq in
              ground (arith, black q nq)
          | inr l ↦
              let before : blackened s p ≡ true = ground (arith, black p n, queue p n) in
              let left : listed p rest ≡ false = ground (arith, queue p n) in
              let waits : queued s p ≡ false = rw (e, l) left in
              let kept : blackened s q ≡ true = i.traced p q n k before waits nq pq in
              ground (arith, black q nq)
        ];
        rooted = λ q n r. ground (arith, black q n, i.rooted q n r);
      }

  pub drain_lem :
      (fuel : ℕ) (s : Marks)
      → IsMarking roots h s
      → work h.objects s < fuel
      → (t : Marks) × (drain fuel h.memory s ≡ some t) × IsMarking roots h t × (t.worklist ≡ [])
  unfolding drain trace
  drain_lem zero s i f = absurd (omega arith)
  drain_lem (suc fuel) s i f = elim (List-cases s.worklist) [
    | inl e ↦ (s, ground arith, i, e)
    | inr (o, rest, e) ↦
        let known = i.known o (ground arith) in
        let fewer =
          mark_values-work h.objects (outgoing (h.memory o)) (record s { worklist = rest })
            (marks_listed o known.0) in
        let (t, ends, j, empty) =
          drain_lem fuel (trace h.memory o (record s { worklist = rest }))
            (IsMarking-trace s o rest e i)
            (omega (arith, fewer, ap length e, pale_worklist h.objects s rest)) in
        (t, ground arith, j, empty)
  ]
