-- ===== src/Tests/Loops.antt =====
-- Runs of the loop of core/event_loop/event_loop.cpp.
use malibu.Common.{
  Bool, Bool-cases, List, [], arith, false, inl, inr, none, refl, some, true, ℕ, ◌++◌, ◌+◌, ◌<◌,
  ◌==◌, ◌∷◌, ◌≡◌, ◌≤◌,
}
use malibu.EventLoop.{
  Task, Timer, EventLoop, Calls, call, new_loop, clear_timer, deactivate, next_due_timer,
  scan_timers, drain_microtasks, run_one_iteration, run_ready_tasks, ready_loop, ready_round, fire,
  render_step, run_batch,
}
use malibu.EventLoop.Timers.{IsBest, next_due_timer-IsBest}
use malibu.EventLoop.Ids.{IdsValid}
use malibu.EventLoop.Drain.{total, microtasks-drain_microtasks, drain_microtasks-total}

-- Closures that do nothing, and a loop with two timers and a microtask.
abbrev quiet : Calls
quiet = record { on_task = λ f l. l; on_frame = λ f now l. l }

abbrev late : Timer
late = record { id = 1; fire_at = 20; interval = 0; task = some 7; active = true }

abbrev soon : Timer
soon = record { id = 2; fire_at = 10; interval = 0; task = some 8; active = true }

abbrev busy : EventLoop
busy = record new_loop { timers = late ∷ soon ∷ []; next_id = 3; microtasks = some 5 ∷ [] }

abbrev drained : EventLoop
drained = record busy { microtasks = [] }

abbrev fired : EventLoop
fired = record busy { microtasks = []; timers = late ∷ []; now_ms = 10 }

busy-IdsValid : IdsValid busy
busy-IdsValid = record {
  timers_below = (omega arith, (omega arith, tt));
  frames_below = tt;
  timers_distinct = (refl, (refl, tt));
  frames_distinct = tt;
}

drains : drain_microtasks quiet 2 busy ≡ some drained
unfolding drain_microtasks
drains = refl

chooses_late : next_due_timer (clear_timer busy 2) ≡ some (0, 20)
unfolding next_due_timer scan_timers clear_timer deactivate
chooses_late = refl

fires : run_one_iteration quiet 2 busy ≡ some (fired, true)
unfolding run_one_iteration next_due_timer scan_timers fire drain_microtasks
fires = refl

idles : run_one_iteration quiet 2 new_loop ≡ some (new_loop, false)
unfolding run_one_iteration next_due_timer scan_timers fire drain_microtasks
idles = refl

nothing_ready : run_ready_tasks quiet 3 busy 10 ≡ some drained
unfolding run_ready_tasks ready_loop ready_round next_due_timer scan_timers drain_microtasks
    render_step fire run_batch
nothing_ready = refl

next_due_timer-IsBest_example : IsBest (late ∷ soon ∷ []) (next_due_timer busy)
next_due_timer-IsBest_example = next_due_timer-IsBest busy

microtasks-drain_microtasks_example : drained.microtasks ≡ []
microtasks-drain_microtasks_example = microtasks-drain_microtasks quiet 2 busy drained drains

-- Closures of which number 5 queues two microtasks, and number 9 is the drainer.
abbrev on_five : Bool → EventLoop → EventLoop
on_five true l = record l { microtasks = (l.microtasks ++ some 1 ∷ []) ++ some 2 ∷ [] }
on_five false l = l

abbrev chained : Calls
chained = record { on_task = λ f l. on_five (f == 5) l; on_frame = λ f now l. l }

abbrev chain : EventLoop
chain = record busy { microtask_drainer = some 9 }

abbrev heavy : Bool → ℕ
heavy true = 3
heavy false = 1

abbrev weight_of : Task → ℕ
weight_of none = 1
weight_of (some f) = heavy (f == 5)

weight_of_pos : (t : Task) → 0 < weight_of t
weight_of_pos none = omega arith
weight_of_pos (some f) = elim (Bool-cases (f == 5)) [
  | inl e ↦ rw e (omega arith)
  | inr e ↦ rw e (omega arith)
]

total-snoc :
    (ts : List Task) (t : Task) → total weight_of (ts ++ t ∷ []) ≡ total weight_of ts + weight_of t
total-snoc [] t = omega arith
total-snoc (x ∷ ts) t = omega (arith, total-snoc ts t)

on_five_less :
    (b : Bool) (l : EventLoop)
    → l.microtask_drainer ≡ some 9
    → ((on_five b l).microtask_drainer ≡ some 9)
      × (total weight_of (on_five b l).microtasks < total weight_of l.microtasks + heavy b)
on_five_less true l k = (
  k,
  omega
      (arith, total-snoc (l.microtasks ++ some 1 ∷ []) (some 2), total-snoc l.microtasks (some 1)),
)
on_five_less false l k = (k, omega arith)

chained_less :
    (t : Task) (l : EventLoop)
    → l.microtask_drainer ≡ some 9
    → ((call chained t l).microtask_drainer ≡ some 9)
      × (total weight_of (call chained t l).microtasks < total weight_of l.microtasks + weight_of t)
chained_less none l k = (k, omega arith)
chained_less (some f) l k = on_five_less (f == 5) l k

drainer_quiet :
    (l : EventLoop)
    → l.microtask_drainer ≡ some 9
    → total weight_of (call chained (some 9) l).microtasks ≤ total weight_of l.microtasks
drainer_quiet l k = omega arith

chain_drains : drain_microtasks chained 4 chain ≡ some (record chain { microtasks = [] })
unfolding drain_microtasks
chain_drains = refl

drain_microtasks-total_example : (l : EventLoop) × (drain_microtasks chained 4 chain ≡ some l)
drain_microtasks-total_example =
    drain_microtasks-total chained weight_of (some 9) weight_of_pos chained_less drainer_quiet 4
      chain refl (omega arith)
