-- ===== src/EventLoop/Idle.antt =====
-- When the event loop of core/event_loop/event_loop.cpp has nothing to do.
use malibu.Common.{
  Option, Option-cases, arith, exists, exists_get_elem?, exists_none, false, inl, inr, is_empty,
  none, not, some, subst, sym, true, ℕ, ◌∙◌, ◌≡◌, ◌⊎◌,
}
use malibu.EventLoop.{
  Timer, EventLoop, Calls, next_due_timer, has_pending, run_one_iteration, returned,
}
use malibu.EventLoop.Timers.{IsBest, next_due_timer-IsBest}

-- There is an active timer exactly if one is found.
no_timer :
    (l : EventLoop) → next_due_timer l ≡ none → exists (λ (t : Timer). t.active) l.timers ≡ false
no_timer l e =
    exists_none (λ (t : Timer). t.active) l.timers
      (subst (IsBest l.timers) e (next_due_timer-IsBest l))

no_due :
    (l : EventLoop) → exists (λ (t : Timer). t.active) l.timers ≡ false → next_due_timer l ≡ none
no_due l h = elim (Option-cases (next_due_timer l)) [
  | inl e ↦ e
  | inr (b, e) ↦
      let (t, g, a, _, _) = subst (IsBest l.timers) e (next_due_timer-IsBest l) in
      absurd (cc (sym h ∙ exists_get_elem? (λ (t : Timer). t.active) l.timers b.0 t g a))
]

returned-true : (o : Option EventLoop) (l : EventLoop) → returned true o ≡ some (l, false) → ⊥
returned-true none l e = ground arith
returned-true (some x) l e = ground arith

module _ (c : Calls) where
  -- With nothing pending an iteration does nothing and says so.
  pub run_one_iteration-idle :
      (fuel : ℕ) (l : EventLoop)
      → has_pending l ≡ false
      → run_one_iteration c fuel l ≡ some (l, false)
  unfolding run_one_iteration has_pending
  run_one_iteration-idle fuel l h =
      let due : next_due_timer l ≡ none = no_due l (ground arith) in
      let none_left : is_empty l.tasks ≡ true = ground arith in
      let no_frame : is_empty l.anim_callbacks ≡ true = ground arith in ground (arith, due)

  -- An iteration that says that the loop is idle changed nothing; unless the loop is quitting,
  -- nothing was pending but microtasks.
  pub run_one_iteration-eq_false :
      (fuel : ℕ) (l l' : EventLoop)
      → run_one_iteration c fuel l ≡ some (l', false)
      → (l' ≡ l) × ((l.quitting ≡ true) ⊎ (has_pending l ≡ not (is_empty l.microtasks)))
  unfolding run_one_iteration has_pending
  run_one_iteration-eq_false fuel l l' e = elim (Option-cases (next_due_timer l)) [
    | inl n ↦ let q = no_timer l n in ground (arith, q)
    | inr (b, n) ↦ ground arith
  ]
