-- ===== src/EventLoop.antt =====
-- core/include/malibu/event_loop/event_loop.h and core/event_loop/event_loop.cpp: tasks, timers,
-- microtasks, animation frames and the virtual clock.
--
-- A `std::function` is `none` if it is empty, or the number of a closure; what the closures do is
-- the parameter `Calls` of the running half, since they are the embedder's. Clock values and ids
-- are 64-bit words. A drain or a run need not end, so it takes fuel, and `none` means that the fuel
-- ran out.
pub mod Timers
pub mod Ids
pub mod Drain
pub mod Clock
pub mod Idle
use malibu.Common.{
  ==_iff, All, All-append, All-imp, Bool, Bool-cases, List, Option, Option-cases, [], ap, arith,
  drop, drop-length-append, exists, false, get_elem?, get_elem?-append_left,
  get_elem?-append_length, get_elem?-lt, get_elem?-set_ne, get_elem?-set_self, get_elem?_lem,
  get_or, if◌then◌else◌, inl, inr, is_empty, keep, leb, leb→le, length, length-append, length-drop,
  length-keep-le, length-set, ltb, ltb→lt, lt→ltb, map, none, not, refl, set, set-append_length,
  set-get_elem?, set-set, some, subst, suc, sym, take, take-length-append, tests, true, zero, ℕ,
  ◌%◌, ◌&&◌, ◌*◌, ◌++◌, ◌+◌, ◌-◌, ◌/◌, ◌<◌, ◌==◌, ◌^◌, ◌||◌, ◌↔◌, ◌∙◌, ◌∷◌, ◌≡◌, ◌≢◌, ◌≤◌, ◌⊎◌,
}

abbrev pub clock_mod : ℕ
clock_mod = 2 ^ 64

abbrev pub Task : Type 0
Task = Option ℕ

pub record Timer : Type 0 where
  pub id : ℕ
  pub fire_at : ℕ
  pub interval : ℕ
  pub task : Task
  pub active : Bool

pub record AnimCallback : Type 0 where
  pub id : ℕ
  pub cb : Task

pub record EventLoop : Type 0 where
  pub tasks : List Task
  pub timers : List Timer
  pub microtasks : List Task
  pub anim_callbacks : List AnimCallback
  pub microtask_drainer : Task
  pub paint_callback : Task
  pub now_ms : ℕ
  pub next_id : ℕ
  pub quitting : Bool

abbrev pub new_loop : EventLoop
new_loop = record {
  tasks = [];
  timers = [];
  microtasks = [];
  anim_callbacks = [];
  microtask_drainer = none;
  paint_callback = none;
  now_ms = 0;
  next_id = 1;
  quitting = false;
}

unfoldable pub post_task : EventLoop → Task → EventLoop
post_task l t = record l { tasks = l.tasks ++ t ∷ [] }

unfoldable pub queue_microtask : EventLoop → Task → EventLoop
queue_microtask l t = record l { microtasks = l.microtasks ++ t ∷ [] }

unfoldable pub set_timeout : EventLoop → Task → ℕ → EventLoop × ℕ
set_timeout l t delay_ms = (
  record l {
    next_id = (l.next_id + 1) % clock_mod;
    timers =
        l.timers
        ++ record {
          id = l.next_id;
          fire_at = (l.now_ms + delay_ms) % clock_mod;
          interval = 0;
          task = t;
          active = true;
        }
          ∷ [];
  },
  l.next_id,
)

unfoldable pub set_interval : EventLoop → Task → ℕ → EventLoop × ℕ
set_interval l t interval_ms =
    let iv = if interval_ms == 0 then 1 else interval_ms in
    (
      record l {
        next_id = (l.next_id + 1) % clock_mod;
        timers =
            l.timers
            ++ record {
              id = l.next_id;
              fire_at = (l.now_ms + iv) % clock_mod;
              interval = iv;
              task = t;
              active = true;
            }
              ∷ [];
      },
      l.next_id,
    )

-- The loop of `clear_timer`.
unfoldable pub deactivate : ℕ → List Timer → List Timer
deactivate id [] = []
deactivate id (t ∷ ts) = (if t.id == id then record t { active = false } else t) ∷ deactivate id ts

unfoldable pub clear_timer : EventLoop → ℕ → EventLoop
unfolding deactivate
clear_timer l id = record l { timers = deactivate id l.timers }

unfoldable pub request_animation_frame : EventLoop → Task → EventLoop × ℕ
request_animation_frame l cb = (
  record l {
    next_id = (l.next_id + 1) % clock_mod;
    anim_callbacks = l.anim_callbacks ++ record { id = l.next_id; cb = cb } ∷ [];
  },
  l.next_id,
)

unfoldable pub cancel_animation_frame : EventLoop → ℕ → EventLoop
cancel_animation_frame l id = record l {
  anim_callbacks = keep (λ (a : AnimCallback). not (a.id == id)) l.anim_callbacks;
}

unfoldable pub quit : EventLoop → EventLoop
quit l = record l { quitting = true }

unfoldable pub advance_clock : EventLoop → ℕ → EventLoop
advance_clock l ms = record l { now_ms = (l.now_ms + ms) % clock_mod }

-- The loop of `next_due_timer`: `i` is the index, and the best timer so far is an index with its
-- time, or `none` for -1.
abbrev pub better : Timer → ℕ → Option (ℕ × ℕ) → Option (ℕ × ℕ)
better t i none = some (i, t.fire_at)
better t i (some (best, best_at)) =
    if ltb t.fire_at best_at then some (i, t.fire_at) else some (best, best_at)

unfoldable pub scan_timers : List Timer → ℕ → Option (ℕ × ℕ) → Option (ℕ × ℕ)
scan_timers [] i best = best
scan_timers (t ∷ ts) i best = scan_timers ts (i + 1) (if t.active then better t i best else best)

unfoldable pub next_due_timer : EventLoop → Option (ℕ × ℕ)
unfolding scan_timers
next_due_timer l = scan_timers l.timers 0 none

unfoldable pub has_pending : EventLoop → Bool
has_pending l =
    (not (is_empty l.tasks) || (not (is_empty l.microtasks) || not (is_empty l.anim_callbacks)))
    || exists (λ (t : Timer). t.active) l.timers

-- What the closures do to the loop when they are called: `on_frame` has the time as well.
pub record Calls : Type 0 where
  pub on_task : ℕ → EventLoop → EventLoop
  pub on_frame : ℕ → ℕ → EventLoop → EventLoop

-- Remove the timers that are no longer active.
abbrev pub sweep : EventLoop → EventLoop
sweep l = record l { timers = keep (λ (t : Timer). t.active) l.timers }

-- How a timer that is due is rescheduled or retired.
abbrev pub rearm : Timer → ℕ → Timer
rearm t now =
    if ltb 0 t.interval
    then record t { fire_at = (now + t.interval) % clock_mod }
    else record t { active = false }

-- The outer `none` is lack of fuel; the Boolean is the result of the call.
abbrev pub returned : Bool → Option EventLoop → Option (EventLoop × Bool)
returned b none = none
returned b (some l) = some (l, b)

abbrev pub advance_to : EventLoop → ℕ → EventLoop
advance_to l at_ = if ltb l.now_ms at_ then record l { now_ms = at_ } else l

abbrev pub is_ready : EventLoop → Option (ℕ × ℕ) → Option ℕ
is_ready l none = none
is_ready l (some (i, at_)) = if leb at_ l.now_ms then some i else none

module _ (c : Calls) where
  -- `if (t) t();`
  abbrev pub call : Task → EventLoop → EventLoop
  call none l = l
  call (some f) l = c.on_task f l

  abbrev pub call_frame : ℕ → Task → EventLoop → EventLoop
  call_frame now none l = l
  call_frame now (some f) l = c.on_frame f now l

  -- The two nested loops as one, a round for each microtask and for each call of the drainer. The
  -- flag `did_work` decides nothing: the outer loop ends exactly when the drainer leaves no
  -- microtask.
  unfoldable pub drain_microtasks : ℕ → EventLoop → Option EventLoop
  drain_microtasks zero l = none
  drain_microtasks (suc fuel) l = elim l.microtasks [
    | [] ↦ elim (call l.microtask_drainer l).microtasks [
      | [] ↦ some (call l.microtask_drainer l)
      | _ ∷ _ ↦ drain_microtasks fuel (call l.microtask_drainer l)
    ]
    | t ∷ ts ↦ drain_microtasks fuel (call t (record l { microtasks = ts }))
  ]

  -- The loop of `render_step` over the batch that was swapped out.
  unfoldable pub run_batch : List AnimCallback → EventLoop → EventLoop
  run_batch [] l = l
  run_batch (a ∷ as_) l = run_batch as_ (call_frame l.now_ms a.cb l)

  unfoldable pub render_step : ℕ → EventLoop → Option EventLoop
  unfolding run_batch drain_microtasks
  render_step fuel l =
      elim (drain_microtasks fuel (run_batch l.anim_callbacks (record l { anim_callbacks = [] }))) [
        | none ↦ none
        | some l' ↦ some (call l'.paint_callback l')
      ]

  -- A timer that is due: reschedule or retire it, run it, drain, and sweep.
  unfoldable pub fire : ℕ → EventLoop → ℕ → Timer → Option EventLoop
  unfolding drain_microtasks
  fire fuel l i t =
      elim (drain_microtasks fuel
        (call t.task (record l { timers = set l.timers i (rearm t l.now_ms) }))) [
          | none ↦ none
          | some l' ↦ some (sweep l')
        ]

  abbrev pub run_task : ℕ → EventLoop → Task → List Task → Option EventLoop
  run_task fuel l t ts = drain_microtasks fuel (call t (record l { tasks = ts }))

  abbrev pub timer_or_frame : ℕ → EventLoop → Option (ℕ × ℕ) → Option (EventLoop × Bool)
  timer_or_frame fuel l (some (i, at_)) = elim (get_elem? l.timers i) [
    | none ↦ some (l, true)
    | some t ↦ returned true (fire fuel (advance_to l t.fire_at) i t)
  ]
  timer_or_frame fuel l none =
      if not (is_empty l.anim_callbacks)
      then returned true (render_step fuel (record l { now_ms = (l.now_ms + 16) % clock_mod }))
      else some (l, false)

  unfoldable pub run_one_iteration : ℕ → EventLoop → Option (EventLoop × Bool)
  unfolding next_due_timer drain_microtasks render_step fire
  run_one_iteration fuel l = if l.quitting then some (l, false) else elim l.tasks [
    | t ∷ ts ↦ returned true (run_task fuel l t ts)
    | [] ↦ timer_or_frame fuel l (next_due_timer l)
  ]

  -- The loop of `run_until_idle`, on the rounds left.
  unfoldable pub idle_loop : ℕ → ℕ → EventLoop → Option EventLoop
  unfolding run_one_iteration
  idle_loop fuel zero l = some l
  idle_loop fuel (suc left) l = if l.quitting then some l else elim (run_one_iteration fuel l) [
    | none ↦ none
    | some (l', again) ↦ elim again [ false ↦ some l' | true ↦ idle_loop fuel left l' ]
  ]

  -- `++n >= max_iterations` is tested behind the first round, so one round is always made.
  unfoldable pub run_until_idle : ℕ → EventLoop → ℕ → Option EventLoop
  unfolding idle_loop drain_microtasks
  run_until_idle fuel l max_iterations = elim (drain_microtasks fuel l) [
    | none ↦ none
    | some l' ↦ idle_loop fuel (if max_iterations == 0 then 1 else max_iterations) l'
  ]

  -- The timer of a round of `run_ready_tasks`: as `fire`, at the present time.
  abbrev pub fire_index : ℕ → EventLoop → ℕ → Option EventLoop
  fire_index fuel l i = elim (get_elem? l.timers i) [ none ↦ some l | some t ↦ fire fuel l i t ]

  -- One round of `run_ready_tasks`: the new state, the flag `rendered`, and whether the loop goes
  -- on.
  unfoldable pub ready_round : ℕ → Bool → EventLoop → Option (EventLoop × Bool × Bool)
  unfolding next_due_timer drain_microtasks render_step fire
  ready_round fuel rendered l = elim l.tasks [
    | t ∷ ts ↦ elim (run_task fuel l t ts) [ none ↦ none | some l' ↦ some (l', rendered, true) ]
    | [] ↦ elim (is_ready l (next_due_timer l)) [
      | some i ↦ elim (fire_index fuel l i) [ none ↦ none | some l' ↦ some (l', rendered, true) ]
      | none ↦
          if not rendered && not (is_empty l.anim_callbacks)
          then elim (render_step fuel l) [ none ↦ none | some l' ↦ some (l', true, true) ]
          else some (l, rendered, false)
    ]
  ]

  unfoldable pub ready_loop : ℕ → ℕ → Bool → EventLoop → Option EventLoop
  unfolding ready_round
  ready_loop fuel zero rendered l = some l
  ready_loop fuel (suc left) rendered l =
      if l.quitting then some l else elim (ready_round fuel rendered l) [
        | none ↦ none
        | some (l', rendered', again) ↦ elim again [
          | false ↦ some l'
          | true ↦ ready_loop fuel left rendered' l'
        ]
      ]

  unfoldable pub run_ready_tasks : ℕ → EventLoop → ℕ → Option EventLoop
  unfolding ready_loop drain_microtasks
  run_ready_tasks fuel l max_iterations = elim (drain_microtasks fuel l) [
    | none ↦ none
    | some l' ↦ ready_loop fuel max_iterations false l'
  ]
