-- ===== src/Dom/Selectors.antt =====
-- The selectors of dom/document.cpp: `parse_selector`, and `narrow` before it.
--
-- A selector is its bytes. The loops take fuel, and `none` says that it ran out. `std::isspace` and
-- `std::isalnum` are those of the C locale.
pub mod Parsing
pub mod Matching
pub mod Query
use malibu.Common.{
  ==_iff, All, All-append, All-imp, Bool, Bool-cases, Distinct, Distinct-snoc, List, List-cases,
  Option, Option-cases, [], ap, arith, drop, drop-length-append, exists, exists_get_elem?,
  exists_none, false, get_elem?, get_elem?-append_left, get_elem?-append_length, get_elem?-lt,
  get_elem?-set_ne, get_elem?-set_self, get_elem?_lem, get_or, if◌then◌else◌, inl, inr, is_empty,
  keep, leb, leb→le, length, length-append, length-drop, length-keep-le, length-set, listed,
  listed-append, ltb, ltb→lt, lt→ltb, map, map-append_lem, none, not, not-listed, refl, set,
  set-append_length, set-get_elem?, set-set, some, subst, suc, sym, take, take-length-append, tests,
  true, zero, ℕ, ◌%◌, ◌&&◌, ◌*◌, ◌++◌, ◌+◌, ◌-◌, ◌/◌, ◌<◌, ◌==◌, ◌^◌, ◌||◌, ◌↔◌, ◌∙◌, ◌∷◌, ◌≡◌, ◌≢◌,
  ◌≤◌, ◌⊎◌,
}
use malibu.Security.Text.{is_space, is_digit, lower}

pub record Compound : Type 0 where
  pub universal : Bool
  pub tag : List ℕ
  pub id : List ℕ
  pub classes : List (List ℕ)

pub data Combinator : Type 0 where
  descendant child : Combinator

pub record CompoundStep : Type 0 where
  pub combinator : Combinator
  pub compound : Compound

-- `narrow`: the low byte of each unit.
abbrev pub narrow : List ℕ → List ℕ
narrow = map (λ (u : ℕ). u % 256)

abbrev pub empty_compound : Compound
empty_compound = record { universal = false; tag = []; id = []; classes = [] }

-- `std::isalnum(c) || c == '-' || c == '_'`.
abbrev pub is_name_unit : ℕ → Bool
is_name_unit c =
    is_digit c || (leb 65 c && leb c 90) || (leb 97 c && leb c 122) || (c == 45) || (c == 95)

abbrev pub name_part : List ℕ → List ℕ
name_part [] = []
name_part (c ∷ cs) = if is_name_unit c then c ∷ name_part cs else []

abbrev pub behind_name : List ℕ → List ℕ
behind_name [] = []
behind_name (c ∷ cs) = if is_name_unit c then behind_name cs else c ∷ cs

abbrev pub skip_ws : List ℕ → List ℕ
skip_ws [] = []
skip_ws (c ∷ cs) = if is_space c then skip_ws cs else c ∷ cs

-- The compound that is being read, `consumed`, and what is left of the text.
pub record Reading : Type 0 where
  pub compound : Compound
  pub consumed : Bool
  pub rest : List ℕ

abbrev pub read_class : List ℕ → Compound → Reading
read_class cs c = record {
  compound = record c { classes = c.classes ++ name_part cs ∷ [] };
  consumed = true;
  rest = behind_name cs;
}

abbrev pub read_id : List ℕ → Compound → Reading
read_id cs c = record {
  compound = record c { id = name_part cs };
  consumed = true;
  rest = behind_name cs;
}

abbrev pub read_tag : List ℕ → Compound → Reading
read_tag cs c = record {
  compound = record c { tag = lower (name_part cs) };
  consumed = true;
  rest = behind_name cs;
}

-- One round of the inner loop, at the byte `ch` and what follows it.
unfoldable pub read_token : ℕ → List ℕ → Reading → Reading
read_token ch cs r =
    if ch == 46
    then read_class cs r.compound
    else if ch == 35
    then read_id cs r.compound
    else if ch == 42
    then record { compound = record r.compound { universal = true }; consumed = true; rest = cs }
    else if is_name_unit ch
    then read_tag (ch ∷ cs) r.compound
    else record r { rest = cs }

unfoldable pub read_compound : ℕ → Reading → Option Reading
unfolding read_token
read_compound zero r = none
read_compound (suc fuel) r = elim r.rest [
  | [] ↦ some r
  | ch ∷ cs ↦ elim (is_space ch || (ch == 62)) [
    | true ↦ some r
    | false ↦ read_compound fuel (read_token ch cs r)
  ]
]

-- A leading '>' and the white space behind it.
abbrev pub combinator_at : Combinator → List ℕ → Combinator × List ℕ
combinator_at pending [] = (pending, [])
combinator_at pending (c ∷ cs) =
    if c == 62 then (Combinator.child, skip_ws cs) else (pending, c ∷ cs)

-- The steps so far, `pending`, and what is left of the text.
pub record Parse : Type 0 where
  pub steps : List CompoundStep
  pub pending : Combinator
  pub rest : List ℕ

abbrev pub add_compound : Parse → Combinator → Reading → Parse
add_compound p pending r =
    if r.consumed
    then record {
      steps =
          p.steps
          ++ (record {
            combinator = if is_empty p.steps then Combinator.descendant else pending;
            compound = r.compound;
          })
            ∷ [];
      pending = Combinator.descendant;
      rest = r.rest;
    }
    else record p { pending = pending; rest = r.rest }

abbrev pub start_reading : List ℕ → Reading
start_reading rest = record { compound = empty_compound; consumed = false; rest = rest }

unfoldable pub read_steps : ℕ → ℕ → Parse → Option Parse
unfolding read_compound
read_steps n zero p = none
read_steps n (suc fuel) p = elim (skip_ws p.rest) [
  | [] ↦ some (record p { rest = [] })
  | c ∷ cs ↦ elim (read_compound n (start_reading (combinator_at p.pending (c ∷ cs)).1)) [
    | none ↦ none
    | some r ↦ read_steps n fuel (add_compound p (combinator_at p.pending (c ∷ cs)).0 r)
  ]
]

abbrev pub steps_of : Option Parse → Option (List CompoundStep)
steps_of none = none
steps_of (some p) = some p.steps

unfoldable pub parse_selector : List ℕ → Option (List CompoundStep)
unfolding read_steps
parse_selector sel = steps_of (
    read_steps (suc (length sel)) (suc (length sel))
      (record { steps = []; pending = Combinator.descendant; rest = sel }))
