-- ===== src/Dom/Selectors/Parsing.antt =====
-- Every selector parses: each round of the loops of `parse_selector` takes a byte.
use malibu.Common.{
  Bool-cases, List, List-cases, [], ap, arith, false, inl, inr, length, refl, some, suc, zero, ℕ,
  ◌<◌, ◌==◌, ◌||◌, ◌∙◌, ◌∷◌, ◌≡◌, ◌≤◌,
}
use malibu.Dom.Selectors.{
  CompoundStep, Combinator, Reading, Parse, behind_name, skip_ws, read_token, read_compound,
  combinator_at, add_compound, start_reading, read_steps, parse_selector,
}
use malibu.Security.Text.{is_space}

length-behind_name-le : (cs : List ℕ) → length (behind_name cs) ≤ length cs
length-behind_name-le [] = omega arith
length-behind_name-le (c ∷ cs) = ground (arith, length-behind_name-le cs)

length-skip_ws-le : (cs : List ℕ) → length (skip_ws cs) ≤ length cs
length-skip_ws-le [] = omega arith
length-skip_ws-le (c ∷ cs) = ground (arith, length-skip_ws-le cs)

read_token-shorter :
    (ch : ℕ) (cs : List ℕ) (r : Reading) → length (read_token ch cs r).rest ≤ length cs
unfolding read_token
read_token-shorter ch cs r = ground (arith, length-behind_name-le cs)

read_compound_returns :
    (fuel : ℕ) (r : Reading)
    → length r.rest < fuel
    → (s : Reading) × (read_compound fuel r ≡ some s) × (length s.rest ≤ length r.rest)
unfolding read_compound
read_compound_returns zero r h = absurd (omega arith)
read_compound_returns (suc fuel) r h = elim (List-cases r.rest) [
  | inl e ↦ (r, simp (e, read_compound), omega arith)
  | inr (ch, cs, e) ↦ elim (Bool-cases (is_space ch || (ch == 62))) [
    | inl f ↦ (r, simp (e, read_compound, f), omega arith)
    | inr f ↦
        let short = read_token-shorter ch cs r in
        let (s, ends, le) =
          read_compound_returns fuel (read_token ch cs r) (omega (arith, ap length e)) in
        (s, simp (e, read_compound, f) ends, omega (arith, ap length e))
  ]
]

-- The inner loop takes the first byte, unless it stops there.
read_compound_progress :
    (fuel : ℕ) (ch : ℕ) (cs : List ℕ)
    → length (ch ∷ cs) < fuel
    → (is_space ch || (ch == 62)) ≡ false
    → (s : Reading) × (read_compound fuel (start_reading (ch ∷ cs)) ≡ some s)
      × (length s.rest ≤ length cs)
unfolding read_compound
read_compound_progress zero ch cs h f = absurd (omega arith)
read_compound_progress (suc fuel) ch cs h f =
    let short = read_token-shorter ch cs (start_reading (ch ∷ cs)) in
    let (s, ends, le) =
      read_compound_returns fuel (read_token ch cs (start_reading (ch ∷ cs))) (omega arith) in
    (s, rw (read_compound, f) ends, omega arith)

skip_ws-head : (cs : List ℕ) (c : ℕ) (rest : List ℕ) → skip_ws cs ≡ c ∷ rest → is_space c ≡ false
skip_ws-head [] c rest h = absurd (ground arith)
skip_ws-head (b ∷ cs) c rest h = ground (arith, skip_ws-head cs c rest)

-- A round of the outer loop leaves less text than it found.
round_progress :
    (n : ℕ) (pending : Combinator) (c : ℕ) (cs : List ℕ)
    → length (c ∷ cs) < n
    → is_space c ≡ false
    → (r : Reading) × (read_compound n (start_reading (combinator_at pending (c ∷ cs)).1) ≡ some r)
      × (length r.rest ≤ length cs)
round_progress n pending c cs h f = elim (Bool-cases (c == 62)) [
  | inl e ↦
      let short = length-skip_ws-le cs in
      let (r, ends, le) = read_compound_returns n (start_reading (skip_ws cs)) (omega arith) in
      (r, rw e ends, omega arith)
  | inr e ↦ rw e (read_compound_progress n c cs h (ground arith))
]

read_steps_round :
    (n fuel : ℕ) (p : Parse) (c : ℕ) (cs : List ℕ) (r : Reading)
    → skip_ws p.rest ≡ c ∷ cs
    → read_compound n (start_reading (combinator_at p.pending (c ∷ cs)).1) ≡ some r
    → read_steps n (suc fuel) p
      ≡ read_steps n fuel (add_compound p (combinator_at p.pending (c ∷ cs)).0 r)
unfolding read_steps
read_steps_round n fuel p c cs r e ends = rw (e, read_steps) (rw (ends, read_steps) refl)

read_steps_returns :
    (n fuel : ℕ) (p : Parse)
    → length p.rest < n
    → length p.rest < fuel
    → (q : Parse) × (read_steps n fuel p ≡ some q)
unfolding read_steps
read_steps_returns n zero p h k = absurd (omega arith)
read_steps_returns n (suc fuel) p h k = elim (List-cases (skip_ws p.rest)) [
  | inl e ↦ (record p { rest = [] }, simp (e, read_steps))
  | inr (c, cs, e) ↦
      let short = length-skip_ws-le p.rest in
      let (r, ends, le) =
        round_progress n p.pending c cs (omega (arith, ap length e)) (skip_ws-head p.rest c cs e) in
      let next : Parse = add_compound p (combinator_at p.pending (c ∷ cs)).0 r in
      let left = rest-add_compound p (combinator_at p.pending (c ∷ cs)).0 r in
      let (q, done) =
        read_steps_returns n fuel next (omega (arith, ap length left, ap length e))
          (omega (arith, ap length left, ap length e)) in
      (q, read_steps_round n fuel p c cs r e ends ∙ done)
]
  where
    rest-add_compound :
        (p : Parse) (pending : Combinator) (r : Reading) → (add_compound p pending r).rest ≡ r.rest
    rest-add_compound p pending r = ground arith

-- `parse_selector` ends on every text.
pub parse_selector_returns :
    (sel : List ℕ) → (steps : List CompoundStep) × (parse_selector sel ≡ some steps)
unfolding parse_selector
parse_selector_returns sel =
    let (q, ends) =
      read_steps_returns (suc (length sel)) (suc (length sel))
        (record { steps = []; pending = Combinator.descendant; rest = sel }) (omega arith)
        (omega arith) in
    (q.steps, rw ends refl)
