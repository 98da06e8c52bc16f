-- ===== src/Dom/CommandBuffer.antt =====
-- core/include/malibu/dom/dom_command_buffer.h and dom/dom_command_buffer.cpp: queued mutations and
-- their ordered flush that stops at the first failure.
--
-- The buffer's `table_` is taken to be the table of the document that it is flushed against. The
-- layout engine is the list of the targets that `mark_dirty` was called with, or `none` where no
-- engine is given. Log lines are left out.
pub mod Flush
pub mod Errors
use malibu.Common.{
  ==_iff, All, All-append, All-imp, Bool, Bool-cases, Distinct, Distinct-snoc, List, List-cases,
  Option, Option-cases, [], ap, arith, drop, drop-length-append, exists, exists_get_elem?,
  exists_none, false, get_elem?, get_elem?-append_left, get_elem?-append_length, get_elem?-lt,
  get_elem?-set_ne, get_elem?-set_self, get_elem?_lem, get_or, if◌then◌else◌, inl, inr, is_empty,
  keep, leb, leb→le, length, length-append, length-drop, length-keep-le, length-set, listed,
  listed-append, ltb, ltb→lt, lt→ltb, map, map-append_lem, none, not, not-listed, refl, set,
  set-append_length, set-get_elem?, set-set, some, subst, suc, sym, take, take-length-append, tests,
  true, zero, ℕ, ◌%◌, ◌&&◌, ◌*◌, ◌++◌, ◌+◌, ◌-◌, ◌/◌, ◌<◌, ◌==◌, ◌^◌, ◌||◌, ◌↔◌, ◌∙◌, ◌∷◌, ◌≡◌, ◌≢◌,
  ◌≤◌, ◌⊎◌,
}
use malibu.Dom.Handle.{NodeHandle, is_null, word_size}
use malibu.Dom.NodeTable
use malibu.Dom.Document.{Document}
use malibu.Dom.Creation.{parent_node}
use malibu.Dom.DomTree
use malibu.Dom.DomTree.{DomError}
use malibu.Dom.Content

pub data DomCommandType : Type 0 where
  append_child remove_child remove set_attribute set_text_content : DomCommandType

pub record DomCommand : Type 0 where
  pub type : DomCommandType
  pub target : NodeHandle
  pub key : List ℕ
  pub value : List ℕ
  pub arg_node : NodeHandle

pub record FlushResult : Type 0 where
  pub success : Bool
  pub applied_count : ℕ
  pub first_failed_index : ℕ
  pub error_code : ℕ

abbrev pub default_result : FlushResult
default_result = record {
  success = true;
  applied_count = 0;
  first_failed_index = 0;
  error_code = 0;
}

-- `static_cast<int32_t>(err)`.
abbrev pub error_number : DomError → ℕ
error_number DomError.ok = 0
error_number DomError.invalid_state = 1
error_number DomError.not_found = 2
error_number DomError.hierarchy_request = 3

-- The document with its table, and the queue.
pub record Buffered : Type 0 where
  pub doc : Document
  pub commands : List DomCommand

unfoldable pub pin : Document → NodeHandle → Document
pin d h = if not (is_null h) then record d { table = NodeTable.pin d.table h } else d

unfoldable pub unpin : Document → NodeHandle → Document
unpin d h = if not (is_null h) then record d { table = NodeTable.unpin d.table h } else d

unfoldable pub push : Buffered → DomCommand → Buffered
unfolding pin
push b cmd = record {
  doc = pin (pin b.doc cmd.target) cmd.arg_node;
  commands = b.commands ++ cmd ∷ [];
}

-- The `switch` of `flush`.
unfoldable pub apply_command :
    ℕ → Document → DomCommandType → DomCommand → Option (Document × DomError)
apply_command fuel d DomCommandType.append_child cmd =
    DomTree.append_child fuel d cmd.target cmd.arg_node
apply_command fuel d DomCommandType.remove_child cmd =
    DomTree.remove_child fuel d cmd.target cmd.arg_node
apply_command fuel d DomCommandType.remove cmd =
    let parent = parent_node d cmd.target in
    if is_null parent then some (d, DomError.ok) else DomTree.remove_child fuel d parent cmd.target
apply_command fuel d DomCommandType.set_attribute cmd =
    some (Content.set_attribute d cmd.target cmd.key cmd.value)
apply_command fuel d DomCommandType.set_text_content cmd =
    Content.set_text_content fuel d cmd.target cmd.value

abbrev pub release : Document → DomCommand → Document
release d cmd = unpin (unpin d cmd.target) cmd.arg_node

abbrev pub failed : ℕ → DomError → FlushResult
failed index err = record {
  success = false;
  applied_count = index;
  first_failed_index = index;
  error_code = error_number err;
}

abbrev pub is_ok : DomError → Bool
is_ok DomError.ok = true
is_ok _ = false

pub record Flushed : Type 0 where
  pub state : Buffered
  pub result : FlushResult
  pub dirty : List NodeHandle

-- The loop of `flush`: `index` is a 32-bit counter, `dirty` what the layout engine was told.
unfoldable pub flush_loop : ℕ → Document → List DomCommand → ℕ → List NodeHandle → Option Flushed
unfolding apply_command unpin
flush_loop fuel d [] index dirty = some (record {
  state = record { doc = d; commands = [] };
  result = record default_result { applied_count = index };
  dirty = dirty;
})
flush_loop fuel d (cmd ∷ cmds) index dirty = elim (apply_command fuel d cmd.type cmd) [
  | none ↦ none
  | some (d', err) ↦
      let rest =
        flush_loop fuel (release d' cmd) cmds ((index + 1) % word_size)
          (dirty ++ cmd.target ∷ []) in
      if is_ok err
      then rest
      else some (record {
        state = record { doc = d'; commands = cmd ∷ cmds };
        result = failed index err;
        dirty = dirty;
      })
]

-- An empty queue is reported as a success with no call of the layout engine.
unfoldable pub flush : ℕ → Buffered → Option Flushed
unfolding flush_loop
flush fuel b =
    if is_empty b.commands
    then some (record { state = b; result = default_result; dirty = [] })
    else flush_loop fuel b.doc b.commands 0 []
