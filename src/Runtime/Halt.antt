-- ===== src/Runtime/Halt.antt =====
-- Halting a subtree (`halt_subtree_impl` and what it calls).
use muesli_bt.Common.{
  ℕ, zero, suc, ◌+◌, Bool, true, false, ◌&&◌, ◌||◌, not, Option, none, some, List, [], ◌∷◌, ◌++◌,
  length, get_elem?, if◌then◌else◌, ℤ, pos, negsuc, Text, codes, to_string,
}
use mathlib.Core.List.{reverse}
use muesli_bt.Ast.{NodeKind, act, Node, Definition}
use muesli_bt.Runtime.Status.{JobStatus, queued, running}
use muesli_bt.Runtime.State.{
  Called, returned, threw, threw_other, Memory, fresh, node_halt, node_preempt, scheduler_cancel,
  warning, debug, warn, sched_cancel, Host, State, invalid_node_id, out_of_fuel, M, ◌>>=◌, ◌>>◌,
  pure, fault, modify, memory_at, write_memory, update, emit_trace, emit_event, emit_log, Effects,
  absorb,
}

-- The children of a node, none where there is no node.
abbrev pub node_children : Option Node → List ℕ
node_children none = []
node_children (some n) = n.children

abbrev pub children_of : Definition → ℕ → List ℕ
children_of def id = node_children (get_elem? def.nodes id)

abbrev pub total : (ℕ → ℕ) → List ℕ → ℕ
total f [] = 0
total f (c ∷ cs) = f c + total f cs

-- The nodes of a subtree, each as often as it is reached, down to the depth `d`.
unfoldable pub subtree_size : Definition → ℕ → ℕ → ℕ
subtree_size def zero id = 0
subtree_size def (suc d) id = suc (total (subtree_size def d) (children_of def id))

module _ {W P : Type 0} (host : Host W P) (def : Definition) where
  -- `get_node`.
  unfoldable pub get_node : ℕ → M (State W P) Node
  get_node id = elim (get_elem? def.nodes id) [ none ↦ fault invalid_node_id | some n ↦ pure n ]

  unfoldable pub emit_unhaltable_warning_once : ℕ → Text → State W P → State W P
  emit_unhaltable_warning_once id message s =
      if (host.trace_enabled || (host.has_logger || host.has_events))
        && not (s.halt_warning_emitted id)
      then emit_log host warn (codes "bt") message (
          emit_trace host (warning id message)
            (record s { halt_warning_emitted = update s.halt_warning_emitted id true }))
      else s

  abbrev pub is_active : JobStatus → Bool
  is_active queued = true
  is_active running = true
  is_active _ = false

  -- The job id that a leaf keeps in `i0`, if it is positive.
  abbrev pub job_of : ℤ → Option ℕ
  job_of (pos zero) = none
  job_of (pos (suc n)) = some (suc n)
  job_of (negsuc n) = none

  -- The scheduler's answer. `mem.i1` becomes the code of `job_status::unknown`.
  unfoldable pub after_cancel : ℕ → Text → ℕ → Bool × W → State W P → Bool × State W P
  after_cancel id reason jid (false, w) s = (false, record s { world = w })
  after_cancel id reason jid (true, w) s =
      let message = codes "scheduler cancelled by halt_subtree (" ++ (reason ++ codes ")") in
      let s₁ = record s { world = w } in
      let s₂ = emit_trace host (scheduler_cancel s₁.current_node jid) s₁ in
      let s₃ = emit_log host debug (codes "scheduler") message s₂ in
      let s₄ = emit_event host (sched_cancel jid) s₃ in
      (true, write_memory id (record (memory_at id s₄) { b0 = false; i0 = pos 0; i1 = pos 5 }) s₄)

  unfoldable pub try_cancel_scheduler_leaf : ℕ → Text → State W P → Bool × State W P
  unfolding after_cancel
  try_cancel_scheduler_leaf id reason s = elim (job_of (memory_at id s).i0) [
    | none ↦ (false, s)
    | some jid ↦
        if host.has_scheduler && ((memory_at id s).b0 && is_active (host.get_info jid s.world))
        then after_cancel id reason jid (host.cancel jid s.world) s
        else (false, s)
  ]

  -- The outcome of the halt callback. Every exception is caught.
  unfoldable pub after_halt_hook :
      ℕ → Called (Unit {0}) × Memory P × Effects W → State W P → Bool × State W P
  unfolding emit_unhaltable_warning_once absorb
  after_halt_hook id (returned _, mem, w) s = (true, write_memory id mem (absorb host w s))
  after_halt_hook id (threw what, mem, w) s = (
    false,
    emit_unhaltable_warning_once id
        (codes "halt callback threw for node " ++ (to_string id ++ (codes ": " ++ what)))
        (write_memory id mem (absorb host w s)),
  )
  after_halt_hook id (threw_other, mem, w) s = (
    false,
    emit_unhaltable_warning_once id (codes "halt callback threw for node " ++ to_string id)
        (write_memory id mem (absorb host w s)),
  )

  unfoldable pub run_halt_hook : Node → ℕ → State W P → Bool × State W P
  unfolding after_halt_hook
  run_halt_hook n id s = elim (host.find_action_halt n.leaf_name) [
    | none ↦ (false, s)
    | some fn ↦ after_halt_hook id (fn id (memory_at id s) s.world) s
  ]

  unfoldable pub cancel_unless : Bool → ℕ → Text → State W P → Bool × State W P
  unfolding try_cancel_scheduler_leaf
  cancel_unless true id reason s = (true, s)
  cancel_unless false id reason s = try_cancel_scheduler_leaf id reason s

  -- An `act` leaf with an entry in the memory.
  unfoldable pub halt_act : Node → ℕ → Text → State W P → State W P
  unfolding run_halt_hook cancel_unless
  halt_act n id reason s =
      let (hooked, s₁) = run_halt_hook n id s in
      let (halted, s₂) = cancel_unless hooked id reason s₁ in
      if not halted && (memory_at id s₂).b0
      then emit_unhaltable_warning_once id
          (codes "halt_subtree: no halt hook/job id for running node " ++ to_string id) s₂
      else s₂

  abbrev pub is_act : NodeKind → Bool
  is_act act = true
  is_act _ = false

  abbrev pub has_entry : Option (Memory P) → Bool
  has_entry none = false
  has_entry (some _) = true

  -- One round of the loop, but for the stack.
  unfoldable pub halt_node : Node → ℕ → Text → State W P → State W P
  unfolding halt_act
  halt_node n id reason s =
      let s₁ = emit_trace host (node_halt id reason) s in
      if has_entry (s₁.memory id)
      then write_memory id fresh (if is_act n.kind then halt_act n id reason s₁ else s₁)
      else s₁

  -- The loop of `halt_subtree_impl`. The head of the list is the back of the stack, and each round
  -- costs a unit of fuel.
  unfoldable pub halt_loop : ℕ → Text → List ℕ → M (State W P) (Unit {0})
  halt_loop fuel reason [] = pure tt
  halt_loop zero reason (id ∷ stack) = fault out_of_fuel
  halt_loop (suc fuel) reason (id ∷ stack) = do
    n ← get_node id
    modify (halt_node n id reason)
    halt_loop fuel reason (reverse n.children ++ stack)

  -- `halt_subtree_impl`, with the fuel that a definition without cycles needs.
  unfoldable pub halt_subtree_impl : Text → ℕ → M (State W P) (Unit {0})
  unfolding halt_loop
  halt_subtree_impl reason root =
      halt_loop (subtree_size def (length def.nodes) root) reason (root ∷ [])

  unfoldable pub emit_node_preempt : ℕ → ℕ → Text → State W P → State W P
  emit_node_preempt from_node to_node reason =
      emit_trace host (node_preempt from_node to_node reason)

  unfoldable pub halt_child_subtree : ℕ → ℕ → Text → M (State W P) (Unit {0})
  halt_child_subtree from_child to_child reason = do
    modify (emit_node_preempt from_child to_child reason)
    halt_subtree_impl reason from_child

  unfoldable pub halt_all_children : Text → List ℕ → M (State W P) (Unit {0})
  halt_all_children reason [] = pure tt
  halt_all_children reason (c ∷ cs) = do halt_subtree_impl reason c; halt_all_children reason cs
