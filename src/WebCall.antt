-- ===== src/WebCall.antt =====
-- webcall/webcall_dispatch.cpp and core/include/malibu/webcall/: calls from script code into the DOM,
-- with guards on a fast path and a slow path behind it.
--
-- A context holds the document that its `DOMTree` works on, or none for `nullptr`, and the state of its
-- realm. The fast and the slow table hold the same handlers. The loops of the DOM take fuel.
pub mod Dispatch
use malibu.Common.{
  ==_iff, All, All-append, All-imp, Bool, Bool-cases, Distinct, Distinct-snoc, List, List-cases,
  Option, Option-cases, [], ap, arith, drop, drop-length-append, exists, exists_get_elem?,
  exists_none, false, get_elem?, get_elem?-append_left, get_elem?-append_length, get_elem?-lt,
  get_elem?-set_ne, get_elem?-set_self, get_elem?_lem, get_or, if◌then◌else◌, inl, inr, is_empty,
  keep, leb, leb→le, length, length-append, length-drop, length-keep-le, length-set, listed,
  listed-append, ltb, ltb→lt, lt→ltb, map, map-append_lem, none, not, not-listed, refl, set,
  set-append_length, set-get_elem?, set-set, some, subst, suc, sym, take, take-length-append, tests,
  true, zero, ℕ, ◌%◌, ◌&&◌, ◌*◌, ◌++◌, ◌+◌, ◌-◌, ◌/◌, ◌<◌, ◌==◌, ◌^◌, ◌||◌, ◌↔◌, ◌∙◌, ◌∷◌, ◌≡◌, ◌≢◌,
  ◌≤◌, ◌⊎◌,
}
use malibu.Dom.Handle.{NodeHandle, null_handle}
use malibu.Dom.Document.{Document}
use malibu.Dom.Creation.{create_element}
use malibu.Dom.DomTree
use malibu.Dom.DomTree.{DomError}
use malibu.Dom.Content
use malibu.Dom.Siblings
use malibu.Dom.Selectors.Query
use malibu.Js.Bytecode.{CallSiteTable, deoptimize, is_deoptimized, webcall_id_of}

pub data ErrorCode : Type 0 where
  malibu_ok err_dead err_type err_security : ErrorCode

pub data Kind : Type 0 where
  kind_undefined kind_null kind_node kind_bool kind_int kind_str : Kind

pub record ValueBox : Type 0 where
  pub kind : Kind
  pub node : NodeHandle
  pub b : Bool
  pub i : ℕ
  pub str : List ℕ

pub record WebCallArgs : Type 0 where
  pub str_a : List ℕ
  pub str_b : List ℕ
  pub node_a : NodeHandle

pub record RealmState : Type 0 where
  pub valid : Bool
  pub document_prototype_stable : Bool
  pub has_proxy_intercept : Bool
  pub query_selector_is_original : Bool
  pub dom_mutators_are_original : Bool

-- What a call leaves: the document, what `out` points to (none for `nullptr`), and the code.
pub record Called : Type 0 where
  pub dom : Option Document
  pub out : Option ValueBox
  pub code : ErrorCode

-- `encode_handle` and `decode_handle`.
unfoldable pub encode_handle : NodeHandle → ℕ
encode_handle h = h.index % 2 ^ 32 * 2 ^ 32 + h.generation % 2 ^ 32

unfoldable pub decode_handle : ℕ → NodeHandle
decode_handle m = record { index = m / 2 ^ 32 % 2 ^ 32; generation = m % 2 ^ 32 }

abbrev pub write_out : (ValueBox → ValueBox) → Option ValueBox → Option ValueBox
write_out f none = none
write_out f (some v) = some (f v)

abbrev pub node_out : NodeHandle → ValueBox → ValueBox
node_out h v = record v { kind = Kind.kind_node; node = h }

abbrev pub undefined_out : ValueBox → ValueBox
undefined_out v = record v { kind = Kind.kind_undefined }

abbrev pub text_out : Option (List ℕ) → ValueBox → ValueBox
text_out none v = record v { kind = Kind.kind_null }
text_out (some s) v = record v { kind = Kind.kind_str; str = s }

abbrev pub code_of : DomError → ErrorCode
code_of DomError.ok = ErrorCode.malibu_ok
code_of _ = ErrorCode.err_dead

-- A mutation's outcome, where it returns.
abbrev pub mutated :
    (ValueBox → ValueBox) → Option ValueBox → Option (Document × DomError) → Option Called
mutated f out none = none
mutated f out (some (d, e)) =
    some (record { dom = some d; out = write_out f out; code = code_of e })

abbrev pub answered : Document → Option ValueBox → Option (ValueBox → ValueBox) → Option Called
answered d out none = none
answered d out (some f) =
    some (record { dom = some d; out = write_out f out; code = ErrorCode.malibu_ok })

-- The handlers that `do_init` registers.
pub data Handler : Type 0 where
  op_query_selector op_create_element op_append_child op_remove_child op_set_text op_get_text
        op_set_attribute op_get_attribute :
      Handler

abbrev pub found : Option NodeHandle → Option (ValueBox → ValueBox)
found none = none
found (some h) = some (node_out h)

abbrev pub text_found : Option (List ℕ) → Option (ValueBox → ValueBox)
text_found none = none
text_found (some s) = some (text_out (some s))

unfoldable pub run_on : ℕ → Handler → Document → ℕ → WebCallArgs → Option ValueBox → Option Called
unfolding decode_handle
run_on fuel Handler.op_query_selector d target a out =
    answered d out (found (Query.query_selector fuel d (decode_handle target) a.str_a))
run_on fuel Handler.op_create_element d target a out =
    answered (create_element d a.str_a).0 out (some (node_out (create_element d a.str_a).1))
run_on fuel Handler.op_append_child d target a out =
    mutated (node_out a.node_a) out (DomTree.append_child fuel d (decode_handle target) a.node_a)
run_on fuel Handler.op_remove_child d target a out =
    mutated (node_out a.node_a) out (DomTree.remove_child fuel d (decode_handle target) a.node_a)
run_on fuel Handler.op_set_text d target a out =
    mutated undefined_out out (Content.set_text_content fuel d (decode_handle target) a.str_a)
run_on fuel Handler.op_get_text d target a out =
    answered d out (text_found (Siblings.text_content fuel d (decode_handle target)))
run_on fuel Handler.op_set_attribute d target a out =
    mutated undefined_out out
      (some (Content.set_attribute d (decode_handle target) a.str_a a.str_b))
run_on fuel Handler.op_get_attribute d target a out =
    answered d out (some (text_out (Content.get_attribute d (decode_handle target) a.str_a)))

unfoldable pub run_handler :
    ℕ → Option Handler → Option Document → ℕ → WebCallArgs → Option ValueBox → Option Called
unfolding run_on
run_handler fuel none dom target a out =
    some (record { dom = dom; out = out; code = ErrorCode.err_type })
run_handler fuel (some h) none target a out =
    some (record { dom = none; out = out; code = ErrorCode.err_type })
run_handler fuel (some h) (some d) target a out = run_on fuel h d target a out

-- The guards.
abbrev pub Guard : Type 0
Guard = Option RealmState → Bool

abbrev pub guard_on : (RealmState → Bool) → Guard
guard_on f none = false
guard_on f (some r) = f r

abbrev pub guard_realm_valid : Guard
guard_realm_valid = guard_on (λ (r : RealmState). r.valid)

abbrev pub guard_proto_stable : Guard
guard_proto_stable = guard_on (λ (r : RealmState). r.document_prototype_stable)

abbrev pub guard_no_proxy : Guard
guard_no_proxy = guard_on (λ (r : RealmState). not r.has_proxy_intercept)

abbrev pub guard_qs_original : Guard
guard_qs_original = guard_on (λ (r : RealmState). r.query_selector_is_original)

abbrev pub guard_mutators_original : Guard
guard_mutators_original = guard_on (λ (r : RealmState). r.dom_mutators_are_original)

abbrev pub query_guards : List Guard
query_guards = guard_realm_valid ∷ guard_proto_stable ∷ guard_no_proxy ∷ guard_qs_original ∷ []

abbrev pub mutate_guards : List Guard
mutate_guards =
    guard_realm_valid ∷ guard_proto_stable ∷ guard_no_proxy ∷ guard_mutators_original ∷ []

abbrev pub realm_guards : List Guard
realm_guards = guard_realm_valid ∷ []

-- What `do_init` registers under an id; where it registers nothing the handler is null and no guard stands.
abbrev pub registered : ℕ → Option (Handler × List Guard)
registered id =
    if id == 0
    then some (Handler.op_query_selector, query_guards)
    else if id == 2
    then some (Handler.op_create_element, realm_guards)
    else if id == 3
    then some (Handler.op_append_child, mutate_guards)
    else if id == 4
    then some (Handler.op_remove_child, mutate_guards)
    else if id == 6
    then some (Handler.op_set_text, mutate_guards)
    else if id == 7
    then some (Handler.op_get_text, query_guards)
    else if id == 8
    then some (Handler.op_set_attribute, mutate_guards)
    else if id == 9
    then some (Handler.op_get_attribute, query_guards)
    else none

abbrev pub handler_in : Option (Handler × List Guard) → Option Handler
handler_in none = none
handler_in (some e) = some e.0

abbrev pub guards_in : Option (Handler × List Guard) → List Guard
guards_in none = []
guards_in (some e) = e.1

unfoldable pub fast_handler : ℕ → Option Handler
fast_handler id = handler_in (registered id)

unfoldable pub slow_handler : ℕ → Option Handler
slow_handler id = handler_in (registered id)

abbrev pub guard_set : ℕ → List Guard
guard_set id = guards_in (registered id)

abbrev pub all_pass : Option RealmState → List Guard → Bool
all_pass realm [] = true
all_pass realm (g ∷ gs) = if not (g realm) then false else all_pass realm gs

unfoldable pub run_guards : ℕ → Option RealmState → Bool
run_guards id realm = all_pass realm (guard_set id)

unfoldable pub dispatch_call_site :
    ℕ
    → Option Document
    → Option RealmState
    → CallSiteTable
    → ℕ
    → ℕ
    → WebCallArgs
    → Option ValueBox
    → CallSiteTable × Option Called
unfolding fast_handler slow_handler run_guards run_handler deoptimize
dispatch_call_site fuel dom realm cst site target args out =
    let id = webcall_id_of site cst in
    if leb 18 id
    then (cst, some (record { dom = dom; out = out; code = ErrorCode.err_type }))
    else if is_deoptimized site cst
    then (cst, run_handler fuel (slow_handler id) dom target args out)
    else if run_guards id realm
    then (cst, run_handler fuel (fast_handler id) dom target args out)
    else (deoptimize site cst, run_handler fuel (slow_handler id) dom target args out)
