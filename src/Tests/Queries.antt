-- ===== src/Tests/Queries.antt =====
-- Runs of the selectors.
use malibu.Common.{All, List, [], refl, some, ℕ, ◌∷◌, ◌≡◌}
use malibu.Common.Bytes.{bytes_eq, codes}
use malibu.Dom.Handle.{NodeHandle}
use malibu.Dom.NodeTable.{NodeCore, NodeSlot, NodeState, resolve, slot_of}
use malibu.Dom.Siblings.{head_or_null}
use malibu.Dom.Document.{Document, core, new_core, element_node, document_node}
use malibu.Dom.Selectors.{
  CompoundStep, Combinator, empty_compound, narrow, parse_selector, read_steps, read_compound,
  read_token,
}
use malibu.Dom.Selectors.Parsing.{parse_selector_returns}
use malibu.Dom.Selectors.Matching.{
  matches_core, matches_compound, parent_of, nearest, match_up, matches_chain,
}
use malibu.Dom.Selectors.Query.{
  reversed, query_selector, query_selector_all, collect_descendants, all_matches,
}
use malibu.Dom.Selectors.Query.Laws.{Selects, query_selector-first, query_selector_all-Selects}

abbrev node : ℕ → NodeHandle
node i = record { index = i; generation = 0 }

abbrev slot : ℕ → ℕ → NodeSlot
slot i t = record {
  node = some i;
  generation = 0;
  node_type = t;
  state = NodeState.alive_connected;
  pin_count = 0;
}

abbrev element : ℕ → List ℕ → NodeHandle → List NodeHandle → NodeCore
element i tag parent children = record (new_core element_node) {
  handle = node i;
  tag_name = tag;
  parent = parent;
  children = children;
}

-- A chain of elements below the root: a, b, p, b, c.
abbrev doc : Document
doc = record {
  table = record {
    slots = slot 0 9 ∷ slot 1 1 ∷ slot 2 1 ∷ slot 3 1 ∷ slot 4 1 ∷ slot 5 1 ∷ [];
    free_list = [];
  };
  root = node 0;
  cores =
      record (new_core document_node) { handle = node 0; children = node 1 ∷ [] }
      ∷ element 1 (codes "a") (node 0) (node 2 ∷ [])
      ∷ element 2 (codes "b") (node 1) (node 3 ∷ [])
      ∷ element 3 (codes "p") (node 2) (node 4 ∷ [])
      ∷ element 4 (codes "b") (node 3) (node 5 ∷ [])
      ∷ element 5 (codes "c") (node 4) []
      ∷ [];
}

abbrev step : Combinator → List ℕ → CompoundStep
step c tag = record { combinator = c; compound = record empty_compound { tag = tag } }

parse_selector_returns_example :
    (steps : List CompoundStep) × (parse_selector (codes "a > b.x c") ≡ some steps)
parse_selector_returns_example = parse_selector_returns (codes "a > b.x c")

parses :
    parse_selector (codes "A > b c")
    ≡ some (
        step Combinator.descendant (codes "a")
        ∷ step Combinator.child (codes "b")
        ∷ step Combinator.descendant (codes "c")
        ∷ [])
unfolding parse_selector read_steps read_compound read_token
parses = refl

finds : query_selector_all 9 doc (node 0) (codes "a b") ≡ some (node 2 ∷ node 4 ∷ [])
unfolding query_selector_all parse_selector read_steps read_compound read_token collect_descendants
    all_matches matches_chain match_up nearest matches_compound matches_core parent_of core resolve
    slot_of bytes_eq
finds = refl

-- The nearest b is taken, its parent is no a, and the farther b, whose parent is one, is not tried.
misses : query_selector_all 9 doc (node 0) (codes "a > b c") ≡ some []
unfolding query_selector_all parse_selector read_steps read_compound read_token collect_descendants
    all_matches matches_chain match_up nearest matches_compound matches_core parent_of core resolve
    slot_of bytes_eq
misses = refl

query_selector-first_example :
    query_selector 9 doc (node 0) (codes "a b") ≡ some (head_or_null (node 2 ∷ node 4 ∷ []))
query_selector-first_example =
    query_selector-first 9 doc (node 0) (codes "a b") (node 2 ∷ node 4 ∷ []) finds

-- Of two ids the last is kept, and a pseudo-class is read as a tag.
keeps_last_id :
    parse_selector (codes "#a#b")
    ≡ some (
        record {
          combinator = Combinator.descendant;
          compound = record empty_compound { id = codes "b" };
        }
        ∷ [])
unfolding parse_selector read_steps read_compound read_token
keeps_last_id = refl

reads_as_tag :
    parse_selector (codes "p:first-child")
    ≡ some (step Combinator.descendant (codes "first-child") ∷ [])
unfolding parse_selector read_steps read_compound read_token
reads_as_tag = refl

abbrev a_b : List CompoundStep
a_b = step Combinator.descendant (codes "a") ∷ step Combinator.descendant (codes "b") ∷ []

parses_a_b : parse_selector (narrow (codes "a b")) ≡ some a_b
unfolding parse_selector read_steps read_compound read_token
parses_a_b = refl

query_selector_all-Selects_example : All (Selects doc (reversed [] a_b)) (node 2 ∷ node 4 ∷ [])
query_selector_all-Selects_example =
    query_selector_all-Selects 9 doc (node 0) (codes "a b") a_b (node 2 ∷ node 4 ∷ []) parses_a_b
      finds
