-- ===== src/Dom/CommandBuffer/Flush.antt =====
-- What a flush of dom/dom_command_buffer.cpp applies, keeps and reports.
use mathlib.Core.List.{append_assoc, append-nil}
use malibu.Common.{
  Bool-cases, List, List-cases, Option-cases, [], ap, arith, false, inl, inr, length, map, refl,
  some, subst, suc, sym, true, ℕ, ◌%◌, ◌++◌, ◌+◌, ◌<◌, ◌∙◌, ◌∷◌, ◌≡◌, ◌⊎◌,
}
use malibu.Dom.Handle.{NodeHandle, word_size}
use malibu.Dom.Document.{Document}
use malibu.Dom.DomTree.{DomError}
use malibu.Dom.CommandBuffer.{
  DomCommand, FlushResult, Buffered, Flushed, apply_command, release, is_ok, failed, flush_loop,
  flush, default_result,
}

-- The commands of a list succeed one after the other, from one document to another; each is
-- followed by the release of its pins.
pub data Applied (fuel : ℕ) : Document → List DomCommand → Document → Type 0 where
  done : (d : Document) → Applied fuel d [] d
  next :
      (d d1 d2 : Document) (cmd : DomCommand) (cmds : List DomCommand)
      → apply_command fuel d cmd.type cmd ≡ some (d1, DomError.ok)
      → Applied fuel (release d1 cmd) cmds d2
      → Applied fuel d (cmd ∷ cmds) d2

abbrev pub targets : List DomCommand → List NodeHandle
targets = map (λ (cmd : DomCommand). cmd.target)

-- The first command of the rest failed, on the document behind the applied ones.
abbrev pub Failed : ℕ → Document → List DomCommand → FlushResult → ℕ → Document → Type 0
Failed fuel d rest result index d' =
    (cmd : DomCommand) × (later : List DomCommand) × (err : DomError) × (rest ≡ cmd ∷ later)
    × (apply_command fuel d cmd.type cmd ≡ some (d', err))
    × (is_ok err ≡ false)
    × (result ≡ failed index err)

-- The report of a loop that started at `index`.
pub record Reports (fuel : ℕ) (d : Document) (cmds : List DomCommand) (index : ℕ)
    (dirty : List NodeHandle) (f : Flushed) : Type 0 where
  pub applied : List DomCommand
  pub middle : Document
  pub splits : cmds ≡ applied ++ f.state.commands
  pub ran : Applied fuel d applied middle
  pub marked : f.dirty ≡ dirty ++ targets applied
  pub counted : f.result.applied_count ≡ index + length applied
  pub ended :
      ((f.state.commands ≡ []) × (f.result.success ≡ true) × (f.state.doc ≡ middle))
      ⊎ Failed fuel middle f.state.commands f.result (index + length applied) f.state.doc

nothing :
    (fuel : ℕ) (d : Document) (index : ℕ) (dirty : List NodeHandle) (f : Flushed)
    → flush_loop fuel d [] index dirty ≡ some f
    → record {
      state = record { doc = d; commands = [] };
      result = record default_result { applied_count = index };
      dirty = dirty;
    }
      ≡ f
unfolding flush_loop
nothing fuel d index dirty f e = ground arith

is_ok_eq : (err : DomError) → is_ok err ≡ true → err ≡ DomError.ok
is_ok_eq DomError.ok h = refl
is_ok_eq DomError.invalid_state h = cc
is_ok_eq DomError.not_found h = cc
is_ok_eq DomError.hierarchy_request h = cc

-- One round: the command succeeds and the loop goes on, or it fails and the loop stops.
step :
    (fuel : ℕ) (cmd : DomCommand) (cmds : List DomCommand) (d : Document) (index : ℕ)
    (dirty : List NodeHandle) (f : Flushed)
    → index + suc (length cmds) < word_size
    → flush_loop fuel d (cmd ∷ cmds) index dirty ≡ some f
    → ((d1 : Document) × (apply_command fuel d cmd.type cmd ≡ some (d1, DomError.ok))
        × (flush_loop fuel (release d1 cmd) cmds (index + 1) (dirty ++ cmd.target ∷ []) ≡ some f))
      ⊎ ((d1 : Document) × (err : DomError) × (apply_command fuel d cmd.type cmd ≡ some (d1, err))
          × (is_ok err ≡ false)
          × (record {
            state = record { doc = d1; commands = cmd ∷ cmds };
            result = failed index err;
            dirty = dirty;
          }
              ≡ f))
unfolding flush_loop
step fuel cmd cmds d index dirty f h e = elim (Option-cases (apply_command fuel d cmd.type cmd)) [
  | inl n ↦ absurd (ground arith)
  | inr (o, a) ↦ elim (Bool-cases (is_ok o.1)) [
    | inl good ↦
        let wrap : (index + 1) % word_size ≡ index + 1 = omega arith in
        inl (
          o.0,
          a ∙ ap (λ (x : DomError). some (o.0, x)) (is_ok_eq o.1 good),
          rw (a, good, wrap, flush_loop) at e,
        )
    | inr bad ↦ inr (o.0, o.1, a, bad, ground arith)
  ]
]

flush_loop-Reports :
    (fuel : ℕ) (cmds : List DomCommand) (d : Document) (index : ℕ) (dirty : List NodeHandle)
    (f : Flushed)
    → index + length cmds < word_size
    → flush_loop fuel d cmds index dirty ≡ some f
    → Reports fuel d cmds index dirty f
flush_loop-Reports fuel [] d index dirty f h e =
    let same : record {
      state = record { doc = d; commands = [] };
      result = record default_result { applied_count = index };
      dirty = dirty;
    }
        ≡ f =
      nothing fuel d index dirty f e in
    subst (Reports fuel d [] index dirty) same (record {
      applied = [];
      middle = d;
      splits = refl;
      ran = Applied.done d;
      marked = sym (append-nil dirty);
      counted = omega arith;
      ended = inl (refl, refl, refl);
    })
flush_loop-Reports fuel (cmd ∷ cmds) d index dirty f h e =
    elim (step fuel cmd cmds d index dirty f h e) [
      | inl (d1, a, rest) ↦
          let r =
            flush_loop-Reports fuel cmds (release d1 cmd) (index + 1) (dirty ++ cmd.target ∷ []) f
              (omega arith) rest in
          let n : index + 1 + length r.applied ≡ index + suc (length r.applied) = omega arith in
          record {
            applied = cmd ∷ r.applied;
            middle = r.middle;
            splits = ap (◌∷◌ cmd) r.splits;
            ran = Applied.next d d1 r.middle cmd r.applied a r.ran;
            marked = r.marked ∙ append_assoc dirty (cmd.target ∷ []) (targets r.applied);
            counted = r.counted ∙ n;
            ended =
                subst
                  (λ k.
                    ((f.state.commands ≡ []) × (f.result.success ≡ true) × (f.state.doc ≡ r.middle))
                    ⊎ Failed fuel r.middle f.state.commands f.result k f.state.doc)
                  n r.ended;
          }
      | inr (d1, err, a, bad, same) ↦ subst (Reports fuel d (cmd ∷ cmds) index dirty) same (record {
        applied = [];
        middle = d;
        splits = refl;
        ran = Applied.done d;
        marked = sym (append-nil dirty);
        counted = omega arith;
        ended = inr (cmd, cmds, err, refl, a, bad, ap (λ (n : ℕ). failed n err) (omega arith));
      })
    ]

-- What a flush of fewer than 2 ^ 32 commands does, where it returns. The commands split into those that were applied, in
-- order and each on the result of the one before, and those that stay queued; the count, the index
-- of the failure and the targets that layout was told of are those of the applied ones. Either
-- nothing stays queued and the flush succeeded, or the first command that stays failed with the
-- reported error, and its pins and those behind it were not released.
pub flush-Reports :
    (fuel : ℕ) (b : Buffered) (f : Flushed)
    → length b.commands < word_size
    → flush fuel b ≡ some f
    → Reports fuel b.doc b.commands 0 [] f
unfolding flush
flush-Reports fuel b f h e = elim (List-cases b.commands) [
  | inl n ↦
      let same : record { state = b; result = default_result; dirty = [] } ≡ f = ground arith in
      subst (Reports fuel b.doc b.commands 0 []) same (record {
        applied = [];
        middle = b.doc;
        splits = refl;
        ran = Applied.done b.doc;
        marked = refl;
        counted = refl;
        ended = inl (n, refl, refl);
      })
  | inr (cmd, cmds, n) ↦
      let looped : flush_loop fuel b.doc b.commands 0 [] ≡ some f = ground arith in
      flush_loop-Reports fuel b.commands b.doc 0 [] f (omega arith) looped
]
