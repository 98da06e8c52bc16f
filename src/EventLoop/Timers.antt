-- ===== src/EventLoop/Timers.antt =====
-- Which timer core/event_loop/event_loop.cpp fires next.
use mathlib.Core.List.{append-nil, append_assoc}
use malibu.Common.{
  Bool, List, Option, [], ap, arith, false, get_elem?, get_elem?-append_left,
  get_elem?-append_length, get_elem?-lt, if◌then◌else◌, inl, inr, length, length-append, ltb, none,
  refl, some, subst, suc, true, zero, ℕ, ◌++◌, ◌+◌, ◌<◌, ◌∙◌, ◌∷◌, ◌≡◌, ◌≢◌, ◌≤◌, ◌⊎◌,
}
use malibu.EventLoop.{
  Timer, EventLoop, scan_timers, next_due_timer, better, clear_timer, deactivate,
}

snoc-cases {ℓ} :
    {A : Type ℓ} (xs : List A) (x u : A) (j : ℕ)
    → get_elem? (xs ++ x ∷ []) j ≡ some u
    → (get_elem? xs j ≡ some u) ⊎ ((j ≡ length xs) × (x ≡ u))
snoc-cases [] x u zero h = inr (refl, ground arith)
snoc-cases [] x u (suc j) h = absurd (ground arith)
snoc-cases (y ∷ xs) x u zero h = inl h
snoc-cases (y ∷ xs) x u (suc j) h = elim (snoc-cases xs x u j h) [
  | inl e ↦ inl e
  | inr (p, q) ↦ inr (ap suc p, q)
]

-- The best timer of a list: active, with the earliest time, and the first such.
abbrev pub IsBest : List Timer → Option (ℕ × ℕ) → Type 0
IsBest ts none = (j : ℕ) (u : Timer) → get_elem? ts j ≡ some u → u.active ≡ false
IsBest ts (some (i, at_)) =
    (t : Timer) × (get_elem? ts i ≡ some t)
    × (t.active ≡ true)
    × (t.fire_at ≡ at_)
    × ((j : ℕ) (u : Timer)
        → get_elem? ts j ≡ some u
        → u.active ≡ true
        → (at_ ≤ u.fire_at) × (j < i → at_ < u.fire_at))

-- One more timer at the end of the list.
module _ (ts : List Timer) (t : Timer) where
  skip_one :
      (best : Option (ℕ × ℕ)) → t.active ≡ false → IsBest ts best → IsBest (ts ++ t ∷ []) best
  skip_one none e h =
      λ j u g. elim (snoc-cases ts t u j g) [ inl old ↦ h j u old | inr (p, q) ↦ ground arith ]
  skip_one (some (i, at_)) e (s, g, a, f, h) = (
    s,
    get_elem?-append_left ts (t ∷ []) i (get_elem?-lt ts i s g) ∙ g,
    a,
    f,
    λ j u k b. elim (snoc-cases ts t u j k) [
      | inl old ↦ h j u old b
      | inr (p, q) ↦ absurd (ground arith)
    ],
  )

  take_new :
      (earlier : (j : ℕ) (u : Timer)
        → get_elem? ts j ≡ some u
        → u.active ≡ true
        → t.fire_at < u.fire_at)
      → t.active ≡ true
      → IsBest (ts ++ t ∷ []) (some (length ts, t.fire_at))
  take_new earlier a = (
    t,
    get_elem?-append_length ts t,
    a,
    refl,
    λ j u k b. elim (snoc-cases ts t u j k) [
      | inl old ↦ let lt = earlier j u old b in (omega arith, λ _. lt)
      | inr (p, q) ↦ (ground arith, λ lt. absurd (omega arith))
    ],
  )

  IsBest-better :
      (best : Option (ℕ × ℕ))
      → t.active ≡ true
      → IsBest ts best
      → IsBest (ts ++ t ∷ []) (better t (length ts) best)
  IsBest-better none a h = take_new (λ j u g b. absurd (cc (h j u g))) a
  IsBest-better (some (i, at_)) a (s, g, a', f, h) = go (ltb t.fire_at at_) refl
    where
      go :
          (b : Bool)
          → ltb t.fire_at at_ ≡ b
          → IsBest (ts ++ t ∷ []) (if b then some (length ts, t.fire_at) else some (i, at_))
      go true lt = take_new (λ j u k b. let (le, _) = h j u k b in ground arith) a
      go false ge = (
        s,
        get_elem?-append_left ts (t ∷ []) i (get_elem?-lt ts i s g) ∙ g,
        a',
        f,
        λ j u k b. elim (snoc-cases ts t u j k) [
          | inl old ↦ h j u old b
          | inr (p, q) ↦ (ground arith, λ lt. let n = get_elem?-lt ts i s g in absurd (omega arith))
        ],
      )

  IsBest-step :
      (b : Bool) (best : Option (ℕ × ℕ))
      → t.active ≡ b
      → IsBest ts best
      → IsBest (ts ++ t ∷ []) (if b then better t (length ts) best else best)
  IsBest-step true best e h = IsBest-better best e h
  IsBest-step false best e h = skip_one best e h

IsBest-scan :
    (ts done : List Timer) (best : Option (ℕ × ℕ))
    → IsBest done best
    → IsBest (done ++ ts) (scan_timers ts (length done) best)
unfolding scan_timers
IsBest-scan [] done best h = rw (append-nil done) h
IsBest-scan (t ∷ ts) done best h =
    let next =
      IsBest-scan ts (done ++ t ∷ []) (if t.active then better t (length done) best else best)
        (IsBest-step done t t.active best refl h) in
    let len : length (done ++ t ∷ []) ≡ length done + 1 = length-append done (t ∷ []) in
    subst
      (λ l.
        IsBest l (
          scan_timers ts (length done + 1)
            (if t.active then better t (length done) best else best)))
      (append_assoc done (t ∷ []) ts)
      (subst
        (λ n.
          IsBest ((done ++ t ∷ []) ++ ts)
            (scan_timers ts n (if t.active then better t (length done) best else best)))
        len next)

-- The timer that is fired next is active and due no later than any other active timer, and among
-- timers due at one time it is the first in the list; none is found only if none is active.
pub next_due_timer-IsBest : (l : EventLoop) → IsBest l.timers (next_due_timer l)
unfolding next_due_timer
next_due_timer-IsBest l = IsBest-scan l.timers [] none (λ j u e. absurd (ground arith))

-- What `clear_timer` leaves at an index.
deactivate_lem :
    (id : ℕ) (ts : List Timer) (j : ℕ) (u : Timer)
    → get_elem? (deactivate id ts) j ≡ some u
    → u.active ≡ true
    → u.id ≢ id
unfolding deactivate
deactivate_lem id [] j u e a = absurd (ground arith)
deactivate_lem id (t ∷ ts) zero u e a = ground arith
deactivate_lem id (t ∷ ts) (suc j) u e a = deactivate_lem id ts j u e a

-- A timer that was cleared is not chosen again, whatever other timers there are.
pub next_due_timer-clear_timer :
    (l : EventLoop) (id i at_ : ℕ)
    → next_due_timer (clear_timer l id) ≡ some (i, at_)
    → (t : Timer) × (get_elem? (clear_timer l id).timers i ≡ some t) × (t.id ≢ id)
unfolding clear_timer
next_due_timer-clear_timer l id i at_ e =
    let (t, g, a, _, _) =
      subst (IsBest (clear_timer l id).timers) e (next_due_timer-IsBest (clear_timer l id)) in
    (t, g, deactivate_lem id l.timers i t g a)
