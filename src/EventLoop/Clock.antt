-- ===== src/EventLoop/Clock.antt =====
-- The virtual clock of core/event_loop/event_loop.cpp.
use malibu.Common.{
  Bool, Bool-cases, List, List-cases, Option, Option-cases, [], arith, false, get_elem?, inl, inr,
  is_empty, none, not, refl, set, some, subst, suc, sym, true, zero, ℕ, ◌%◌, ◌&&◌, ◌+◌, ◌<◌, ◌∙◌,
  ◌∷◌, ◌≡◌, ◌≤◌,
}
use native.Mathlib.Nat.{le_trans}
use malibu.EventLoop.{
  Task, EventLoop, Calls, AnimCallback, call, call_frame, run_batch, render_step, drain_microtasks,
  run_task, fire, fire_index, sweep, rearm, Timer, run_one_iteration, timer_or_frame, returned,
  advance_to, is_ready, next_due_timer, ready_round, ready_loop, run_ready_tasks, clock_mod,
}
use malibu.EventLoop.Drain.{drain_microtasks-Round, drain_zero}

-- A property of the clock that the closures keep is kept by whatever the loop runs, since the loop
-- itself sets the clock at two places only.
module _ (c : Calls) (Q : ℕ → Type 0)
    (task_keeps : (f : ℕ) (l : EventLoop) → Q l.now_ms → Q (c.on_task f l).now_ms)
    (frame_keeps : (f now : ℕ) (l : EventLoop) → Q l.now_ms → Q (c.on_frame f now l).now_ms) where
  call_keeps : (t : Task) (l : EventLoop) → Q l.now_ms → Q (call c t l).now_ms
  call_keeps none l q = q
  call_keeps (some f) l q = task_keeps f l q

  call_frame_keeps :
      (now : ℕ) (t : Task) (l : EventLoop) → Q l.now_ms → Q (call_frame c now t l).now_ms
  call_frame_keeps now none l q = q
  call_frame_keeps now (some f) l q = frame_keeps f now l q

  run_batch_keeps :
      (as_ : List AnimCallback) (l : EventLoop) → Q l.now_ms → Q (run_batch c as_ l).now_ms
  unfolding run_batch
  run_batch_keeps [] l q = q
  run_batch_keeps (a ∷ as_) l q =
      run_batch_keeps as_ (call_frame c l.now_ms a.cb l) (call_frame_keeps l.now_ms a.cb l q)

  pub drain_keeps :
      (fuel : ℕ) (l l' : EventLoop) → drain_microtasks c fuel l ≡ some l' → Q l.now_ms → Q l'.now_ms
  drain_keeps zero l l' e q = absurd (drain_zero c l l' e)
  drain_keeps (suc fuel) l l' e q = elim (drain_microtasks-Round c fuel l) [
    | inl (t, ts, _, r) ↦
        drain_keeps fuel _ l' (sym r ∙ e) (call_keeps t (record l { microtasks = ts }) q)
    | inr (inl (_, _, r)) ↦
        let same : call c l.microtask_drainer l ≡ l' = ground arith in
        subst (λ x. Q x.now_ms) same (call_keeps l.microtask_drainer l q)
    | inr (inr (t, ts, _, _, r)) ↦
        drain_keeps fuel _ l' (sym r ∙ e) (call_keeps l.microtask_drainer l q)
  ]

  pub render_keeps :
      (fuel : ℕ) (l l' : EventLoop) → render_step c fuel l ≡ some l' → Q l.now_ms → Q l'.now_ms
  unfolding render_step
  render_keeps fuel l l' e q =
      let start = run_batch c l.anim_callbacks (record l { anim_callbacks = [] }) in
      elim (Option-cases (drain_microtasks c fuel start)) [
        | inl n ↦ absurd (ground arith)
        | inr (m, d) ↦
            let same : call c m.paint_callback m ≡ l' = ground arith in
            subst (λ x. Q x.now_ms) same
              (call_keeps m.paint_callback m (
                drain_keeps fuel start m d
                  (run_batch_keeps l.anim_callbacks (record l { anim_callbacks = [] }) q)))
      ]

  pub fire_keeps :
      (fuel : ℕ) (l : EventLoop) (i : ℕ) (t : Timer) (l' : EventLoop)
      → fire c fuel l i t ≡ some l'
      → Q l.now_ms
      → Q l'.now_ms
  unfolding fire
  fire_keeps fuel l i t l' e q =
      let start = call c t.task (record l { timers = set l.timers i (rearm t l.now_ms) }) in
      elim (Option-cases (drain_microtasks c fuel start)) [
        | inl n ↦ absurd (ground arith)
        | inr (m, d) ↦
            let same : sweep m ≡ l' = ground arith in
            subst (λ x. Q x.now_ms) same
              (drain_keeps fuel start m d
                (call_keeps t.task (record l { timers = set l.timers i (rearm t l.now_ms) }) q))
      ]

  returned_eq :
      (o : Option EventLoop) (b b' : Bool) (l' : EventLoop)
      → returned b o ≡ some (l', b')
      → o ≡ some l'
  returned_eq none b b' l' e = absurd (ground arith)
  returned_eq (some l) b b' l' e = ground arith

  -- One iteration, if the two places that set the clock keep the property.
  timer_or_frame_keeps :
      (fuel : ℕ) (l : EventLoop) (due : Option (ℕ × ℕ)) (l' : EventLoop) (b : Bool)
      → ((t : Timer) → Q (advance_to l t.fire_at).now_ms)
      → Q ((l.now_ms + 16) % clock_mod)
      → timer_or_frame c fuel l due ≡ some (l', b)
      → Q l.now_ms
      → Q l'.now_ms
  timer_or_frame_keeps fuel l (some (i, at_)) l' b up frame e q =
      elim (Option-cases (get_elem? l.timers i)) [
        | inl n ↦ let same : l ≡ l' = ground arith in subst (λ x. Q x.now_ms) same q
        | inr (t, g) ↦
            fire_keeps fuel (advance_to l t.fire_at) i t l'
              (returned_eq _ true b l' (rw (g, timer_or_frame) at e)) (up t)
      ]
  timer_or_frame_keeps fuel l none l' b up frame e q =
      elim (Bool-cases (is_empty l.anim_callbacks)) [
        | inl n ↦ let same : l ≡ l' = ground arith in subst (λ x. Q x.now_ms) same q
        | inr n ↦
            render_keeps fuel (record l { now_ms = (l.now_ms + 16) % clock_mod }) l'
              (returned_eq _ true b l' (rw (n, timer_or_frame) at e)) frame
      ]

  pub iteration_keeps :
      (fuel : ℕ) (l l' : EventLoop) (b : Bool)
      → ((t : Timer) → Q (advance_to l t.fire_at).now_ms)
      → Q ((l.now_ms + 16) % clock_mod)
      → run_one_iteration c fuel l ≡ some (l', b)
      → Q l.now_ms
      → Q l'.now_ms
  unfolding run_one_iteration
  iteration_keeps fuel l l' b up frame e q = elim (Bool-cases l.quitting) [
    | inl z ↦ let same : l ≡ l' = ground arith in subst (λ x. Q x.now_ms) same q
    | inr z ↦ elim (List-cases l.tasks) [
      | inl y ↦ timer_or_frame_keeps fuel l (next_due_timer l) l' b up frame (simp (z, y) at e) q
      | inr (t, ts, y) ↦
          let ran : returned true (run_task c fuel l t ts) ≡ some (l', b) = ground arith in
          drain_keeps fuel (call c t (record l { tasks = ts })) l' (returned_eq _ true b l' ran)
            (call_keeps t (record l { tasks = ts }) q)
    ]
  ]

  fire_index_keeps :
      (fuel : ℕ) (l : EventLoop) (i : ℕ) (l' : EventLoop)
      → fire_index c fuel l i ≡ some l'
      → Q l.now_ms
      → Q l'.now_ms
  fire_index_keeps fuel l i l' e q = elim (Option-cases (get_elem? l.timers i)) [
    | inl n ↦ let same : l ≡ l' = ground arith in subst (λ x. Q x.now_ms) same q
    | inr (t, g) ↦ fire_keeps fuel l i t l' (rw (g, fire_index) at e) q
  ]

  -- A round of `run_ready_tasks` sets the clock nowhere.
  round_keeps :
      (fuel : ℕ) (rendered : Bool) (l l' : EventLoop) (r b : Bool)
      → ready_round c fuel rendered l ≡ some (l', r, b)
      → Q l.now_ms
      → Q l'.now_ms
  unfolding ready_round
  round_keeps fuel rendered l l' r b e q = elim (List-cases l.tasks) [
    | inr (t, ts, y) ↦ elim (Option-cases (run_task c fuel l t ts)) [
      | inl n ↦ absurd (ground arith)
      | inr (m, d) ↦
          let same : m ≡ l' = ground arith in
          subst (λ x. Q x.now_ms) same
            (drain_keeps fuel (call c t (record l { tasks = ts })) m d
              (call_keeps t (record l { tasks = ts }) q))
    ]
    | inl y ↦ elim (Option-cases (is_ready l (next_due_timer l))) [
      | inr (i, z) ↦ elim (Option-cases (fire_index c fuel l i)) [
        | inl n ↦ absurd (ground arith)
        | inr (m, d) ↦
            let same : m ≡ l' = ground arith in
            subst (λ x. Q x.now_ms) same (fire_index_keeps fuel l i m d q)
      ]
      | inl z ↦ elim (Bool-cases (not rendered && not (is_empty l.anim_callbacks))) [
        | inl f ↦ elim (Option-cases (render_step c fuel l)) [
          | inl n ↦ absurd (ground arith)
          | inr (m, d) ↦
              let same : m ≡ l' = ground arith in
              subst (λ x. Q x.now_ms) same (render_keeps fuel l m d q)
        ]
        | inr f ↦ let same : l ≡ l' = ground arith in subst (λ x. Q x.now_ms) same q
      ]
    ]
  ]

  loop_keeps :
      (fuel left : ℕ) (rendered : Bool) (l l' : EventLoop)
      → ready_loop c fuel left rendered l ≡ some l'
      → Q l.now_ms
      → Q l'.now_ms
  unfolding ready_loop
  loop_keeps fuel zero rendered l l' e q =
      let same : l ≡ l' = ground arith in subst (λ x. Q x.now_ms) same q
  loop_keeps fuel (suc left) rendered l l' e q = elim (Bool-cases l.quitting) [
    | inl z ↦ let same : l ≡ l' = ground arith in subst (λ x. Q x.now_ms) same q
    | inr z ↦ elim (Option-cases (ready_round c fuel rendered l)) [
      | inl n ↦ absurd (ground arith)
      | inr (o, d) ↦
          let kept = round_keeps fuel rendered l o.0 o.1 o.2 d q in
          elim (Bool-cases o.2) [
            | inl again ↦
                let rest : ready_loop c fuel left o.1 o.0 ≡ some l' = ground arith in
                loop_keeps fuel left o.1 o.0 l' rest kept
            | inr ended ↦ let same : o.0 ≡ l' = ground arith in subst (λ x. Q x.now_ms) same kept
          ]
    ]
  ]

  pub ready_keeps :
      (fuel : ℕ) (l : EventLoop) (max_iterations : ℕ) (l' : EventLoop)
      → run_ready_tasks c fuel l max_iterations ≡ some l'
      → Q l.now_ms
      → Q l'.now_ms
  unfolding run_ready_tasks
  ready_keeps fuel l max_iterations l' e q = elim (Option-cases (drain_microtasks c fuel l)) [
    | inl n ↦ absurd (ground arith)
    | inr (m, d) ↦
        let rest : ready_loop c fuel max_iterations false m ≡ some l' = ground arith in
        loop_keeps fuel max_iterations false m l' rest (drain_keeps fuel l m d q)
  ]

-- `run_ready_tasks`, where it returns, leaves the clock where it was, if the callbacks do.
pub now_ms-run_ready_tasks :
    (c : Calls)
    → ((f : ℕ) (l : EventLoop) → (c.on_task f l).now_ms ≡ l.now_ms)
    → ((f now : ℕ) (l : EventLoop) → (c.on_frame f now l).now_ms ≡ l.now_ms)
    → (fuel : ℕ) (l : EventLoop) (max_iterations : ℕ) (l' : EventLoop)
    → run_ready_tasks c fuel l max_iterations ≡ some l'
    → l'.now_ms ≡ l.now_ms
now_ms-run_ready_tasks c tk fk fuel l max_iterations l' e =
    ready_keeps c (λ n. n ≡ l.now_ms) (λ f m q. tk f m ∙ q) (λ f now m q. fk f now m ∙ q) fuel l
      max_iterations l' e refl

-- An iteration that returns never moves the clock back, if the callbacks do not and the clock is more
-- than 16 below the wrap.
pub now_ms-run_one_iteration :
    (c : Calls)
    → ((f : ℕ) (l : EventLoop) → l.now_ms ≤ (c.on_task f l).now_ms)
    → ((f now : ℕ) (l : EventLoop) → l.now_ms ≤ (c.on_frame f now l).now_ms)
    → (fuel : ℕ) (l l' : EventLoop) (b : Bool) → l.now_ms + 16 < clock_mod
    → run_one_iteration c fuel l ≡ some (l', b)
    → l.now_ms ≤ l'.now_ms
now_ms-run_one_iteration c tk fk fuel l l' b room e =
    iteration_keeps c (λ n. l.now_ms ≤ n) (λ f m q. le_trans q (tk f m))
      (λ f now m q. le_trans q (fk f now m)) fuel l l' b (λ t. ground arith) (omega arith) e
      (omega arith)
