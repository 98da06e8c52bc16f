-- ===== src/EventLoop/Ids.antt =====
-- The ids that core/event_loop/event_loop.cpp gives out.
use malibu.Common.{
  All, All-append, All-imp, Bool, Distinct, Distinct-snoc, List, [], arith, false, keep, listed,
  map, map-append_lem, not, not-listed, refl, true, ℕ, ◌%◌, ◌++◌, ◌+◌, ◌<◌, ◌==◌, ◌∷◌, ◌≡◌,
}
use mathlib.Core.List.{append-nil}
use malibu.EventLoop.{
  Task, Timer, AnimCallback, EventLoop, clock_mod, set_timeout, set_interval,
  request_animation_frame, cancel_animation_frame, clear_timer, deactivate,
}

abbrev pub timer_ids : List Timer → List ℕ
timer_ids = map (λ (t : Timer). t.id)

abbrev pub frame_ids : List AnimCallback → List ℕ
frame_ids = map (λ (a : AnimCallback). a.id)

-- All ids in use are below the next one, and no timer and no frame callback shares its id.
pub record IdsValid (l : EventLoop) : Type 0 where
  pub timers_below : All (λ i. i < l.next_id) (timer_ids l.timers)
  pub frames_below : All (λ i. i < l.next_id) (frame_ids l.anim_callbacks)
  pub timers_distinct : Distinct (timer_ids l.timers)
  pub frames_distinct : Distinct (frame_ids l.anim_callbacks)

grow : (n : ℕ) (is : List ℕ) → All (λ i. i < n) is → All (λ i. i < n + 1) is
grow n is h = All-imp _ _ (λ i p. omega arith) is h

new_id : (n : ℕ) (is : List ℕ) → All (λ i. i < n) is → listed n is ≡ false
new_id n is h = not-listed (λ i. i < n) n is h (λ p. omega arith)

module _ (l : EventLoop) (v : IdsValid l) (room : l.next_id + 1 < clock_mod) where
  add_timer :
      (t : Timer)
      → t.id ≡ l.next_id
      → IdsValid (record l { next_id = (l.next_id + 1) % clock_mod; timers = l.timers ++ t ∷ [] })
  add_timer t e =
      let wrap : (l.next_id + 1) % clock_mod ≡ l.next_id + 1 = omega arith in
      record {
        timers_below =
            rw (wrap, map-append_lem (λ (x : Timer). x.id) l.timers (t ∷ []))
              (All-append _ (timer_ids l.timers) (t.id ∷ [])
                (grow l.next_id (timer_ids l.timers) v.timers_below) (omega arith, tt));
        frames_below = rw wrap (grow l.next_id (frame_ids l.anim_callbacks) v.frames_below);
        timers_distinct = rw (map-append_lem (λ (x : Timer). x.id) l.timers (t ∷ [])) (
            Distinct-snoc (timer_ids l.timers) t.id v.timers_distinct
              (rw e (new_id l.next_id (timer_ids l.timers) v.timers_below)));
        frames_distinct = v.frames_distinct;
      }

  -- A new timer keeps the ids distinct and below the next one, which is not about to wrap.
  pub set_timeout-IdsValid : (task : Task) (delay_ms : ℕ) → IdsValid (set_timeout l task delay_ms).0
  unfolding set_timeout
  set_timeout-IdsValid task delay_ms = add_timer _ refl

  pub set_interval-IdsValid :
      (task : Task) (interval_ms : ℕ) → IdsValid (set_interval l task interval_ms).0
  unfolding set_interval
  set_interval-IdsValid task interval_ms = add_timer _ refl

  pub request_animation_frame-IdsValid : (cb : Task) → IdsValid (request_animation_frame l cb).0
  unfolding request_animation_frame
  request_animation_frame-IdsValid cb =
      let wrap : (l.next_id + 1) % clock_mod ≡ l.next_id + 1 = omega arith in
      let a : AnimCallback = record { id = l.next_id; cb = cb } in
      record {
        timers_below = rw wrap (grow l.next_id (timer_ids l.timers) v.timers_below);
        frames_below =
            rw (wrap, map-append_lem (λ (x : AnimCallback). x.id) l.anim_callbacks (a ∷ []))
              (All-append _ (frame_ids l.anim_callbacks) (a.id ∷ [])
                (grow l.next_id (frame_ids l.anim_callbacks) v.frames_below) (omega arith, tt));
        timers_distinct = v.timers_distinct;
        frames_distinct =
            rw (map-append_lem (λ (x : AnimCallback). x.id) l.anim_callbacks (a ∷ [])) (
              Distinct-snoc (frame_ids l.anim_callbacks) a.id v.frames_distinct
                (new_id l.next_id (frame_ids l.anim_callbacks) v.frames_below));
      }

timer_ids-deactivate : (id : ℕ) (ts : List Timer) → timer_ids (deactivate id ts) ≡ timer_ids ts
unfolding deactivate
timer_ids-deactivate id [] = refl
timer_ids-deactivate id (t ∷ ts) = ground (arith, timer_ids-deactivate id ts)

-- Clearing keeps them too.
pub clear_timer-IdsValid : (l : EventLoop) (id : ℕ) → IdsValid l → IdsValid (clear_timer l id)
unfolding clear_timer
clear_timer-IdsValid l id v = record {
  timers_below = rw (timer_ids-deactivate id l.timers) v.timers_below;
  frames_below = v.frames_below;
  timers_distinct = rw (timer_ids-deactivate id l.timers) v.timers_distinct;
  frames_distinct = v.frames_distinct;
}

-- Clearing the id that was just given out undoes the request: exactly the new timer is switched
-- off, and every other timer is as before.
deactivate-absent :
    (id : ℕ) (ts : List Timer) → listed id (timer_ids ts) ≡ false → deactivate id ts ≡ ts
unfolding deactivate
deactivate-absent id [] h = refl
deactivate-absent id (t ∷ ts) h = ground (arith, deactivate-absent id ts)

deactivate-append :
    (id : ℕ) (xs ys : List Timer) → deactivate id (xs ++ ys) ≡ deactivate id xs ++ deactivate id ys
unfolding deactivate
deactivate-append id [] ys = refl
deactivate-append id (x ∷ xs) ys = rw (deactivate-append id xs ys)

-- Clearing the timer that was just set leaves the old timers as they were, and the new one inactive at
-- their end, if the ids in use are distinct and below the next one.
pub clear_timer-set_timeout :
    (l : EventLoop) (task : Task) (delay_ms : ℕ)
    → IdsValid l
    → (clear_timer (set_timeout l task delay_ms).0 (set_timeout l task delay_ms).1).timers
      ≡ l.timers
        ++ record {
          id = l.next_id;
          fire_at = (l.now_ms + delay_ms) % clock_mod;
          interval = 0;
          task = task;
          active = false;
        }
          ∷ []
unfolding clear_timer set_timeout deactivate
clear_timer-set_timeout l task delay_ms v =
    let same : (l.next_id == l.next_id) ≡ true = ground arith in
    rw (
      deactivate-append l.next_id l.timers,
      deactivate-absent l.next_id l.timers (new_id l.next_id (timer_ids l.timers) v.timers_below),
      same,
    )

-- A cancelled frame callback is gone, the other frame callbacks stay, in order.
keep_ids :
    (id : ℕ) (as_ : List AnimCallback)
    → listed id (frame_ids as_) ≡ false
    → keep (λ (a : AnimCallback). not (a.id == id)) as_ ≡ as_
keep_ids id [] h = refl
keep_ids id (a ∷ as_) h = ground (arith, keep_ids id as_)

keep-append {ℓ} :
    {A : Type ℓ} (p : A → Bool) (xs ys : List A) → keep p (xs ++ ys) ≡ keep p xs ++ keep p ys
keep-append p [] ys = refl
keep-append p (x ∷ xs) ys = ground (arith, keep-append p xs ys)

-- Cancelling the frame callback that was just requested restores the callbacks, if the ids in use are
-- distinct and below the next one.
pub cancel_animation_frame-request_animation_frame :
    (l : EventLoop) (cb : Task)
    → IdsValid l
    → (cancel_animation_frame
        (request_animation_frame l cb).0
        (request_animation_frame l cb).1).anim_callbacks
      ≡ l.anim_callbacks
unfolding cancel_animation_frame request_animation_frame
cancel_animation_frame-request_animation_frame l cb v =
    let same : (l.next_id == l.next_id) ≡ true = ground arith in
    rw
      (
        keep-append (λ (a : AnimCallback). not (a.id == l.next_id)) l.anim_callbacks,
        keep_ids l.next_id l.anim_callbacks
            (new_id l.next_id (frame_ids l.anim_callbacks) v.frames_below),
        same,
      )
      (append-nil l.anim_callbacks)
