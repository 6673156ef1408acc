-- ===== src/Gc/Heap.antt =====
-- The heap of the collector (src/gc.cpp): the nodes that `head_` links, newest first, and the marking
-- and sweeping of them. A pointer is the number of an address. What `gc_mark_children` marks and what
-- `gc_size_bytes` returns, which the types of nodes override, are fields of a node.
use muesli_bt.Common.{
  ℕ, zero, suc, ◌+◌, Bool, true, false, Option, none, some, List, [], ◌∷◌, ◌==◌, if◌then◌else◌,
}

pub record GcNode : Type 0 where
  pub address : ℕ
  pub children : List ℕ
  pub size_bytes : ℕ
  pub marked : Bool

abbrev pub Heap : Type 0
Heap = List GcNode

unfoldable pub node_at : ℕ → Heap → Option GcNode
node_at a [] = none
node_at a (n ∷ h) = if n.address == a then some n else node_at a h

-- `node->marked = true`.
unfoldable pub set_marked : ℕ → Heap → Heap
set_marked a [] = []
set_marked a (n ∷ h) =
    let rest = set_marked a h in
    if n.address == a then record n { marked = true } ∷ rest else n ∷ rest

-- A loop of marking.
abbrev pub mark_each : (ℕ → Heap → Heap) → List ℕ → Heap → Heap
mark_each mark [] h = h
mark_each mark (a ∷ rest) h = mark_each mark rest (mark a h)

-- `mark_node` of the node at `a`, for which `mark` marks the children.
abbrev pub mark_at : ℕ → Option GcNode → (ℕ → Heap → Heap) → Heap → Heap
mark_at a none mark h = h
mark_at a (some n) mark h = elim n.marked [
  | true ↦ h
  | false ↦ mark_each mark n.children (set_marked a h)
]

-- Each call that marks a node leaves one fewer to mark.
unfoldable pub mark_node : ℕ → ℕ → Heap → Heap
unfolding node_at set_marked
mark_node zero a h = h
mark_node (suc fuel) a h = mark_at a (node_at a h) (mark_node fuel) h

abbrev pub unmarked_node : GcNode → GcNode
unmarked_node n = record n { marked = false }

-- The nodes that `sweep` keeps, no longer marked.
unfoldable pub sweep_nodes : Heap → Heap
sweep_nodes [] = []
sweep_nodes (n ∷ h) = let rest = sweep_nodes h in if n.marked then unmarked_node n ∷ rest else rest

-- The three counters of `sweep`.
unfoldable pub live_count : Heap → ℕ
live_count [] = 0
live_count (n ∷ h) = if n.marked then suc (live_count h) else live_count h

unfoldable pub live_bytes : Heap → ℕ
live_bytes [] = 0
live_bytes (n ∷ h) = if n.marked then n.size_bytes + live_bytes h else live_bytes h

unfoldable pub freed_count : Heap → ℕ
freed_count [] = 0
freed_count (n ∷ h) = if n.marked then freed_count h else suc (freed_count h)
