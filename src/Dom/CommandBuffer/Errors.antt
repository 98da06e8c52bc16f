-- ===== src/Dom/CommandBuffer/Errors.antt =====
-- What a command that fails leaves behind.
use malibu.Common.{
  Bool-cases, List, Option, Option-cases, [], arith, false, inl, inr, none, refl, some, suc, true,
  zero, ℕ, ◌==◌, ◌||◌, ◌≡◌, ◌⊎◌,
}
use malibu.Dom.Handle.{null_handle, NodeHandle, is_null}
use malibu.Dom.NodeTable.{NodeCore}
use malibu.Dom.Document.{
  text_node, comment_node, document_fragment_node, Document, core, state_in, update_core,
}
use malibu.Dom.DomTree.{
  DomError, is_connected, walk_meets, update_connected_state, guard_states, is_dead_state, for_each,
  ignore_error, push_back, contains, erase_first, attach, detach, finish, insert_node, with_ok,
  append_child, remove_child,
}
use malibu.Dom.Content.{orphan, guard_state, set_attribute, set_text_content, replace_children}
use malibu.Dom.Creation.{parent_node, create_text_node}
use malibu.Dom.Attributes.{set_attr}
use malibu.Dom.CommandBuffer.{DomCommand, DomCommandType, apply_command, is_ok}

-- A result that is none, reports ok, or leaves the document as it was.
pub data IsAtomic (d : Document) : Option (Document × DomError) → Type 0 where
  unfinished : IsAtomic d none
  worked : (d' : Document) → IsAtomic d (some (d', DomError.ok))
  refused : (e : DomError) → IsAtomic d (some (d, e))

IsAtomic-with_ok : (d : Document) (o : Option Document) → IsAtomic d (with_ok o)
IsAtomic-with_ok d none = IsAtomic.unfinished
IsAtomic-with_ok d (some d') = IsAtomic.worked d'

IsAtomic-finish :
    (fuel : ℕ) (d d' : Document) (parent child : NodeHandle)
    → IsAtomic d (finish fuel d' parent child)
IsAtomic-finish fuel d d' parent child = elim (Option-cases (is_connected fuel d' parent)) [
  | inl e ↦ rw (e, finish) IsAtomic.unfinished
  | inr (b, e) ↦ elim (Option-cases (update_connected_state fuel b d' child)) [
    | inl f ↦ rw (e, f, finish) IsAtomic.unfinished
    | inr (d'', f) ↦ rw (e, f, finish) (IsAtomic.worked d'')
  ]
]

IsAtomic-insert_node :
    (fuel : ℕ) (d : Document) (parent child : NodeHandle) (pp cp : ℕ) (cc : NodeCore)
    (place : List NodeHandle → List NodeHandle)
    → IsAtomic d (insert_node fuel d parent child pp cp cc place)
unfolding insert_node
IsAtomic-insert_node fuel d parent child pp cp cc place =
    elim (Option-cases (walk_meets fuel d parent child)) [
      | inl e ↦ rw (e, insert_node) IsAtomic.unfinished
      | inr (true, e) ↦ rw (e, insert_node) (IsAtomic.refused DomError.hierarchy_request)
      | inr (false, e) ↦
          rw (e, insert_node)
            (IsAtomic-finish fuel d (attach (detach d child cc) parent child pp cp place) parent
              child)
    ]

DomError-cases :
    (g : DomError)
    → (g ≡ DomError.ok)
      ⊎ ((g ≡ DomError.invalid_state)
          ⊎ ((g ≡ DomError.not_found) ⊎ (g ≡ DomError.hierarchy_request)))
DomError-cases DomError.ok = inl refl
DomError-cases DomError.invalid_state = inr (inl refl)
DomError-cases DomError.not_found = inr (inr (inl refl))
DomError-cases DomError.hierarchy_request = inr (inr (inr refl))

IsAtomic-append_child :
    (fuel : ℕ) (d : Document) (parent child : NodeHandle)
    → IsAtomic d (append_child fuel d parent child)
unfolding append_child
IsAtomic-append_child zero d parent child = IsAtomic.unfinished
IsAtomic-append_child (suc fuel) d parent child =
    elim (DomError-cases (guard_states (state_in d parent) (state_in d child))) [
      | inr (inl e) ↦ rw (e, append_child) (IsAtomic.refused DomError.invalid_state)
      | inr (inr (inl e)) ↦ rw (e, append_child) (IsAtomic.refused DomError.not_found)
      | inr (inr (inr e)) ↦ rw (e, append_child) (IsAtomic.refused DomError.hierarchy_request)
      | inl e ↦ elim (Option-cases (core d parent)) [
        | inl f ↦ rw (e, f, append_child) (IsAtomic.refused DomError.not_found)
        | inr ((pp, pc), f) ↦ elim (Option-cases (core d child)) [
          | inl k ↦ rw (e, f, k, append_child) (IsAtomic.refused DomError.not_found)
          | inr ((cp, cc), k) ↦ elim (Bool-cases (cc.node_type == document_fragment_node)) [
            | inl t ↦
                rw (e, f, k, t, append_child)
                  (IsAtomic-with_ok d (
                    for_each (λ d' kid. ignore_error (append_child fuel d' parent kid)) cc.children
                      d))
            | inr t ↦
                rw (e, f, k, t, append_child)
                  (IsAtomic-insert_node fuel d parent child pp cp cc (push_back child))
          ]
        ]
      ]
    ]

IsAtomic-remove_child :
    (fuel : ℕ) (d : Document) (parent child : NodeHandle)
    → IsAtomic d (remove_child fuel d parent child)
unfolding remove_child
IsAtomic-remove_child fuel d parent child =
    elim (Bool-cases (is_dead_state (state_in d parent) || is_dead_state (state_in d child))) [
      | inl e ↦ rw (e, remove_child) (IsAtomic.refused DomError.not_found)
      | inr e ↦ elim (Option-cases (core d parent)) [
        | inl f ↦ rw (e, f, remove_child) (IsAtomic.refused DomError.not_found)
        | inr ((pp, pc), f) ↦ elim (Option-cases (core d child)) [
          | inl k ↦ rw (e, f, k, remove_child) (IsAtomic.refused DomError.not_found)
          | inr ((cp, cc), k) ↦ elim (Bool-cases (contains child pc.children)) [
            | inr t ↦ rw (e, f, k, t, remove_child) (IsAtomic.refused DomError.hierarchy_request)
            | inl t ↦
                rw (e, f, k, t, remove_child)
                  (IsAtomic-with_ok d (
                    update_connected_state fuel false
                      (update_core
                        (update_core d pp
                          (λ c. record c { children = erase_first child c.children }))
                        cp (λ c. record c { parent = null_handle }))
                      child))
          ]
        ]
      ]
    ]

IsAtomic-set_attribute :
    (d : Document) (node : NodeHandle) (name value : List ℕ)
    → IsAtomic d (some (set_attribute d node name value))
unfolding set_attribute
IsAtomic-set_attribute d node name value = elim (DomError-cases (guard_state (state_in d node))) [
  | inr (inl e) ↦ rw (e, set_attribute) (IsAtomic.refused DomError.invalid_state)
  | inr (inr (inl e)) ↦ rw (e, set_attribute) (IsAtomic.refused DomError.not_found)
  | inr (inr (inr e)) ↦ rw (e, set_attribute) (IsAtomic.refused DomError.hierarchy_request)
  | inl e ↦ elim (Option-cases (core d node)) [
    | inl f ↦ rw (e, f, set_attribute) (IsAtomic.refused DomError.not_found)
    | inr ((p, c), f) ↦
        rw (e, f, set_attribute)
          (IsAtomic.worked
            (update_core d p (λ c'. record c' { attributes = set_attr name value c'.attributes })))
  ]
]

IsAtomic-replace_children :
    (fuel : ℕ) (d : Document) (node : NodeHandle) (p : ℕ) (c : NodeCore) (text : List ℕ)
    → IsAtomic d (replace_children fuel d node p c text)
unfolding replace_children
IsAtomic-replace_children fuel d node p c text =
    elim (Option-cases (for_each (update_connected_state fuel false) c.children d)) [
      | inl e ↦ rw (e, replace_children) IsAtomic.unfinished
      | inr (d1, e) ↦ elim (Option-cases (for_each orphan c.children d1)) [
        | inl f ↦ rw (e, f, replace_children) IsAtomic.unfinished
        | inr (d2, f) ↦
            rw (e, f, replace_children)
              (IsAtomic-with_ok d (
                ignore_error (
                  append_child fuel
                    (create_text_node (update_core d2 p (λ c'. record c' { children = [] })) text).0
                    node
                    (create_text_node (update_core d2 p (λ c'. record c' { children = [] }))
                      text).1)))
      ]
    ]

IsAtomic-set_text_content :
    (fuel : ℕ) (d : Document) (node : NodeHandle) (text : List ℕ)
    → IsAtomic d (set_text_content fuel d node text)
unfolding set_text_content
IsAtomic-set_text_content fuel d node text = elim (DomError-cases (guard_state (state_in d node))) [
  | inr (inl e) ↦ rw (e, set_text_content) (IsAtomic.refused DomError.invalid_state)
  | inr (inr (inl e)) ↦ rw (e, set_text_content) (IsAtomic.refused DomError.not_found)
  | inr (inr (inr e)) ↦ rw (e, set_text_content) (IsAtomic.refused DomError.hierarchy_request)
  | inl e ↦ elim (Option-cases (core d node)) [
    | inl f ↦ rw (e, f, set_text_content) (IsAtomic.refused DomError.not_found)
    | inr ((p, c), f) ↦
        elim (Bool-cases ((c.node_type == text_node) || (c.node_type == comment_node))) [
          | inl t ↦
              rw (e, f, t, set_text_content)
                (IsAtomic.worked (update_core d p (λ c'. record c' { text_content = text })))
          | inr t ↦ rw (e, f, t, set_text_content) (IsAtomic-replace_children fuel d node p c text)
        ]
  ]
]

IsAtomic-apply_command :
    (fuel : ℕ) (d : Document) (t : DomCommandType) (cmd : DomCommand)
    → IsAtomic d (apply_command fuel d t cmd)
unfolding apply_command
IsAtomic-apply_command fuel d DomCommandType.append_child cmd =
    IsAtomic-append_child fuel d cmd.target cmd.arg_node
IsAtomic-apply_command fuel d DomCommandType.remove_child cmd =
    IsAtomic-remove_child fuel d cmd.target cmd.arg_node
IsAtomic-apply_command fuel d DomCommandType.remove cmd =
    elim (Bool-cases (is_null (parent_node d cmd.target))) [
      | inl e ↦ rw (e, apply_command) (IsAtomic.refused DomError.ok)
      | inr e ↦
          rw (e, apply_command) (IsAtomic-remove_child fuel d (parent_node d cmd.target) cmd.target)
    ]
IsAtomic-apply_command fuel d DomCommandType.set_attribute cmd =
    IsAtomic-set_attribute d cmd.target cmd.key cmd.value
IsAtomic-apply_command fuel d DomCommandType.set_text_content cmd =
    IsAtomic-set_text_content fuel d cmd.target cmd.value

unchanged :
    (d d' : Document) (e : DomError) (o : Option (Document × DomError))
    → IsAtomic d o
    → o ≡ some (d', e)
    → is_ok e ≡ false
    → d' ≡ d
unchanged d d' e none a h k = absurd (ground arith)
unchanged d d' e (some _) (IsAtomic.worked d'') h k = absurd (ground arith)
unchanged d d' e (some _) (IsAtomic.refused e') h k = ground arith

-- A command of any type that reports an error left the document exactly as it was: no node is moved,
-- changed or added, and no slot changes its state.
pub apply_command-error :
    (fuel : ℕ) (d d' : Document) (cmd : DomCommand) (e : DomError)
    → apply_command fuel d cmd.type cmd ≡ some (d', e)
    → is_ok e ≡ false
    → d' ≡ d
apply_command-error fuel d d' cmd e h k =
    unchanged d d' e (apply_command fuel d cmd.type cmd)
      (IsAtomic-apply_command fuel d cmd.type cmd) h k
