-- ===== src/Tests/Nodes.antt =====
-- Runs of the slab of dom/node_table.cpp.
use malibu.Common.{[], arith, none, refl, some, ◌∷◌, ◌≡◌, ◌≢◌}
use malibu.Dom.Handle.{NodeHandle}
use malibu.Dom.NodeTable.{
  NodeSlot, NodeTable, NodeState, fresh_slot, alloc, free, pin, resolve, slot_of, state_of,
}
use malibu.Dom.NodeTable.Invariant.{IsValid, free-IsValid}
use malibu.Dom.NodeTable.Alloc.{alloc-IsValid, resolve-alloc, resolve-alloc_frame}
use malibu.Dom.NodeTable.Stale.{Op, run, resolve-free}
use malibu.Dom.NodeTable.Release.{free-pin_wrapped, free-free}

-- A slab with a live node at index 0 and a dead slot at index 1.
abbrev gone : NodeSlot
gone = record fresh_slot { generation = 4; state = NodeState.dead }

abbrev live : NodeSlot
live = record fresh_slot { generation = 2; node_type = 1; node = some 0 }

abbrev slab : NodeTable
slab = record { slots = live ∷ gone ∷ []; free_list = 1 ∷ [] }

abbrev first : NodeHandle
first = record { index = 0; generation = 2 }

slab-IsValid : IsValid slab
slab-IsValid = record { dead_listed = (refl, tt); distinct = (refl, tt) }

first_resolves : resolve slab first ≡ some live
unfolding resolve slot_of
first_resolves = refl

-- The slab when the live node has 255 pins.
abbrev pinned_slot : NodeSlot
pinned_slot = record live { pin_count = 255 }

abbrev pinned_slab : NodeTable
pinned_slab = record { slots = pinned_slot ∷ gone ∷ []; free_list = 1 ∷ [] }

pinned_resolves : resolve pinned_slab first ≡ some pinned_slot
unfolding resolve slot_of
pinned_resolves = refl

first_current : slot_of slab first ≡ some live
unfolding slot_of
first_current = refl

first_alive : state_of slab first ≢ NodeState.dead
unfolding state_of slot_of
first_alive e = absurd (ground arith)

-- An allocation reuses the dead slot under its next generation.
reuses : (alloc slab [] none).2 ≡ record { index = 1; generation = 5 }
unfolding alloc
reuses = refl

resolve-free_example : resolve (run (free slab first) (Op.allocate [] none ∷ [])) first ≡ none
resolve-free_example =
    resolve-free slab first live (Op.allocate [] none ∷ []) (omega arith) first_current refl
      (omega arith)

alloc-IsValid_example : IsValid (alloc slab [] none).0
alloc-IsValid_example = alloc-IsValid slab [] none slab-IsValid (omega arith)

resolve-alloc_example :
    (s : NodeSlot) × (resolve (alloc slab [] none).0 (alloc slab [] none).2 ≡ some s)
    × (s.state ≡ NodeState.alive_connected)
    × (s.pin_count ≡ 0)
    × (s.node_type ≡ 0)
    × (s.node ≡ none)
resolve-alloc_example = resolve-alloc slab [] none slab-IsValid (omega arith)

resolve-alloc_frame_example : resolve (alloc slab [] none).0 first ≡ some live
resolve-alloc_frame_example =
    resolve-alloc_frame slab [] none slab-IsValid (omega arith) first live first_resolves

free-IsValid_example : IsValid (free slab first)
free-IsValid_example = free-IsValid slab first first_alive slab-IsValid

free-pin_wrapped_example : resolve (free (pin pinned_slab first) first) first ≡ none
free-pin_wrapped_example = free-pin_wrapped pinned_slab first pinned_slot pinned_resolves refl

free-free_example :
    ((alloc (free (free slab first) first) [] none).2.index ≡ 0)
    × ((alloc (alloc (free (free slab first) first) [] none).0 [] none).2.index ≡ 0)
    × (resolve
          (alloc (alloc (free (free slab first) first) [] none).0 [] none).0
          (alloc (free (free slab first) first) [] none).2
        ≡ none)
free-free_example = free-free slab first live first_resolves [] [] none none refl
