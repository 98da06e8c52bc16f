-- ===== src/EventLoop/Drain.antt =====
-- The microtask checkpoint of core/event_loop/event_loop.cpp.
use malibu.Common.{
  List, List-cases, [], ap, arith, inl, inr, some, subst, suc, sym, zero, ℕ, ◌+◌, ◌<◌, ◌∙◌, ◌∷◌,
  ◌≡◌, ◌≤◌, ◌⊎◌,
}
use malibu.EventLoop.{Task, EventLoop, Calls, call, drain_microtasks}

-- The weight of a queue: what is left to do, if each microtask has a weight.
abbrev pub total : (Task → ℕ) → List Task → ℕ
total weight [] = 0
total weight (t ∷ ts) = weight t + total weight ts

module _ (c : Calls) where
  -- One round of the checkpoint runs a microtask, or ends, or goes on with what the drainer queued.
  abbrev pub Round : ℕ → EventLoop → Type 0
  Round fuel l =
      ((t : Task) × (ts : List Task) × (l.microtasks ≡ t ∷ ts)
        × (drain_microtasks c (suc fuel) l
            ≡ drain_microtasks c fuel (call c t (record l { microtasks = ts }))))
      ⊎ (((l.microtasks ≡ [])
            × ((call c l.microtask_drainer l).microtasks ≡ [])
            × (drain_microtasks c (suc fuel) l ≡ some (call c l.microtask_drainer l)))
          ⊎ ((t : Task) × (ts : List Task) × (l.microtasks ≡ [])
              × ((call c l.microtask_drainer l).microtasks ≡ t ∷ ts)
              × (drain_microtasks c (suc fuel) l
                  ≡ drain_microtasks c fuel (call c l.microtask_drainer l))))

  module _ (fuel : ℕ) (l : EventLoop) where
    drain_task :
        (t : Task) (ts : List Task)
        → l.microtasks ≡ t ∷ ts
        → drain_microtasks c (suc fuel) l
          ≡ drain_microtasks c fuel (call c t (record l { microtasks = ts }))
    unfolding drain_microtasks
    drain_task t ts q = rw (q, drain_microtasks)

    drain_end :
        l.microtasks ≡ []
        → (call c l.microtask_drainer l).microtasks ≡ []
        → drain_microtasks c (suc fuel) l ≡ some (call c l.microtask_drainer l)
    unfolding drain_microtasks
    drain_end q r = simp (q, drain_microtasks) (simp (r))

    drain_again :
        (t : Task) (ts : List Task)
        → l.microtasks ≡ []
        → (call c l.microtask_drainer l).microtasks ≡ t ∷ ts
        → drain_microtasks c (suc fuel) l ≡ drain_microtasks c fuel (call c l.microtask_drainer l)
    unfolding drain_microtasks
    drain_again t ts q r = simp (q, drain_microtasks) (simp (r))

    pub drain_microtasks-Round : Round fuel l
    drain_microtasks-Round = elim (List-cases l.microtasks) [
      | inl q ↦ elim (List-cases (call c l.microtask_drainer l).microtasks) [
        | inl r ↦ inr (inl (q, r, drain_end q r))
        | inr (t, ts, r) ↦ inr (inr (t, ts, q, r, drain_again t ts q r))
      ]
      | inr (t, ts, q) ↦ inl (t, ts, q, drain_task t ts q)
    ]

  pub drain_zero : (l l' : EventLoop) → drain_microtasks c zero l ≡ some l' → ⊥
  unfolding drain_microtasks
  drain_zero l l' e = ground arith

  -- A checkpoint that ends leaves no microtask behind, those that microtasks queued included.
  pub microtasks-drain_microtasks :
      (fuel : ℕ) (l l' : EventLoop) → drain_microtasks c fuel l ≡ some l' → l'.microtasks ≡ []
  microtasks-drain_microtasks zero l l' e = absurd (drain_zero l l' e)
  microtasks-drain_microtasks (suc fuel) l l' e = elim (drain_microtasks-Round fuel l) [
    | inl (t, ts, q, r) ↦ microtasks-drain_microtasks fuel _ l' (sym r ∙ e)
    | inr (inl (q, m, r)) ↦
        let same : call c l.microtask_drainer l ≡ l' = ground arith in rw (← same) m
    | inr (inr (t, ts, q, m, r)) ↦ microtasks-drain_microtasks fuel _ l' (sym r ∙ e)
  ]

  -- The result of a checkpoint does not depend on the fuel.
  pub drain_microtasks-fuel :
      (fuel fuel' : ℕ) (l l' : EventLoop)
      → fuel ≤ fuel'
      → drain_microtasks c fuel l ≡ some l'
      → drain_microtasks c fuel' l ≡ some l'
  drain_microtasks-fuel zero fuel' l l' h e = absurd (drain_zero l l' e)
  drain_microtasks-fuel (suc fuel) zero l l' h e = absurd (omega arith)
  drain_microtasks-fuel (suc fuel) (suc fuel') l l' h e = elim (drain_microtasks-Round fuel l) [
    | inl (t, ts, q, r) ↦
        drain_task fuel' l t ts q ∙ drain_microtasks-fuel fuel fuel' _ l' (omega arith) (sym r ∙ e)
    | inr (inl (q, m, r)) ↦ drain_end fuel' l q m ∙ (sym r ∙ e)
    | inr (inr (t, ts, q, m, r)) ↦
        drain_again fuel' l t ts q m
        ∙ drain_microtasks-fuel fuel fuel' _ l' (omega arith) (sym r ∙ e)
  ]

  -- On a loop with the drainer `d`, a checkpoint ends, and any fuel above the total weight of the
  -- queue is enough, if on every loop with that drainer a call keeps `d` as the drainer, a call of a
  -- task queues less weight than the task has itself, and a call of `d` leaves the weight of the
  -- queue at most what it was.
  pub drain_microtasks-total :
      (weight : Task → ℕ) (d : Task)
      → ((t : Task) → 0 < weight t)
      → ((t : Task) (l : EventLoop)
          → l.microtask_drainer ≡ d
          → ((call c t l).microtask_drainer ≡ d)
            × (total weight (call c t l).microtasks < total weight l.microtasks + weight t))
      → ((l : EventLoop)
          → l.microtask_drainer ≡ d
          → total weight (call c d l).microtasks ≤ total weight l.microtasks)
      → (fuel : ℕ) (l : EventLoop) → l.microtask_drainer ≡ d
      → total weight l.microtasks < fuel
      → (l' : EventLoop) × (drain_microtasks c fuel l ≡ some l')
  drain_microtasks-total weight d pos less quiet zero l k h = absurd (omega arith)
  drain_microtasks-total weight d pos less quiet (suc fuel) l k h =
      elim (drain_microtasks-Round fuel l) [
        | inl (t, ts, q, r) ↦
            let w : total weight l.microtasks ≡ weight t + total weight ts = ap (total weight) q in
            let (kept, step) = less t (record l { microtasks = ts }) k in
            let (l', e) =
              drain_microtasks-total weight d pos less quiet fuel
                (call c t (record l { microtasks = ts })) kept (omega arith) in
            (l', r ∙ e)
        | inr (inl (q, m, r)) ↦ (call c l.microtask_drainer l, r)
        | inr (inr (t, ts, q, m, r)) ↦
            let empty : total weight l.microtasks ≡ 0 = ap (total weight) q in
            let same : total weight (call c l.microtask_drainer l).microtasks
                ≡ weight t + total weight ts =
              ap (total weight) m in
            let still : total weight (call c l.microtask_drainer l).microtasks
                ≤ total weight l.microtasks =
              subst (λ x. total weight (call c x l).microtasks ≤ total weight l.microtasks) (sym k)
                (quiet l k) in
            let p = pos t in absurd (omega arith)
      ]
