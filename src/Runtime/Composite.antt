-- ===== src/Runtime/Composite.antt =====
-- The composite and decorator nodes (`tick_mem_seq` and its siblings, and the cases of `tick_node`).
-- `tick` is `tick_node` on the children. Loops over the children run on the list of those left.
use muesli_bt.Common.{
  ℕ, suc, ◌+◌, Bool, true, false, ◌&&◌, not, Option, none, some, List, [], ◌∷◌, length, get_elem?,
  drop, ltb, leb, ◌==◌, if◌then◌else◌, ℤ, pos, negsuc, leb_ℤ, suc_ℤ, Text, codes, ok,
}
use muesli_bt.Ast.{Node, Definition}
use muesli_bt.Runtime.Status.{Status, success, failure, running}
use muesli_bt.Runtime.State.{
  Memory, Host, State, no_such_child, M, ◌>>=◌, ◌>>◌, pure, fault, modify, memory_at, write_memory,
}
use muesli_bt.Runtime.Halt.{halt_all_children, halt_child_subtree}

-- `clamp_child_index`.
unfoldable pub clamp_child_index : Node → ℤ → ℕ
clamp_child_index n (negsuc _) = 0
clamp_child_index n (pos idx) = if ltb idx (length n.children) then idx else 0

-- The child at `i0`, if `b0` is set and the index is in range.
unfoldable pub child_at : List ℕ → ℤ → Option ℕ
child_at children (negsuc _) = none
child_at children (pos idx) = get_elem? children idx

unfoldable pub prior_running_child : {P : Type 0} → Memory P → Node → Option ℕ
unfolding child_at
prior_running_child mem n = if mem.b0 then child_at n.children mem.i0 else none

unfoldable pub invert_status : Status → Status
invert_status success = failure
invert_status failure = success
invert_status running = running

-- `previous_running != child`, for a child that was running.
abbrev pub differs : ℕ → ℕ → Bool
differs a b = not (a == b)

module _ {W P : Type 0} where
  -- Reads and writes of the memory of node `id`.
  abbrev pub node_memory_for : ℕ → M (State W P) (Memory P)
  node_memory_for id = λ s. ok (memory_at id s, write_memory id (memory_at id s) s)

  abbrev pub set_i0 : ℕ → ℤ → State W P → State W P
  set_i0 id i s = write_memory id (record (memory_at id s) { i0 = i }) s

  abbrev pub set_b0 : ℕ → Bool → State W P → State W P
  set_b0 id b s = write_memory id (record (memory_at id s) { b0 = b }) s

  abbrev pub clear_reactive_running_child : ℕ → State W P → State W P
  clear_reactive_running_child id s =
      write_memory id (record (memory_at id s) { b0 = false; i0 = pos 0 }) s

  abbrev pub remember_reactive_running_child : ℕ → ℕ → State W P → State W P
  remember_reactive_running_child id index s =
      write_memory id (record (memory_at id s) { b0 = true; i0 = pos index }) s

module _ {W P : Type 0} (host : Host W P) (def : Definition) (tick : ℕ → M (State W P) Status) where
  -- `n.children[index]`
  abbrev pub tick_child : List ℕ → ℕ → M (State W P) Status
  tick_child children index = elim (get_elem? children index) [
    | none ↦ fault no_such_child
    | some c ↦ tick c
  ]

  unfoldable pub tick_seq : List ℕ → M (State W P) Status
  tick_seq [] = pure success
  tick_seq (child ∷ rest) = do
    st ← tick child
    elim st [ failure ↦ pure failure | running ↦ pure running | success ↦ tick_seq rest ]

  unfoldable pub tick_sel : List ℕ → M (State W P) Status
  tick_sel [] = pure failure
  tick_sel (child ∷ rest) = do
    st ← tick child
    elim st [ success ↦ pure success | running ↦ pure running | failure ↦ tick_sel rest ]

  -- The loop of `tick_mem_seq` over the children from `index` on.
  unfoldable pub mem_seq_loop : Node → ℕ → List ℕ → M (State W P) Status
  mem_seq_loop n index [] = do
    modify (set_i0 n.id (pos 0))
    halt_all_children host def (codes "mem-seq complete") n.children
    pure success
  mem_seq_loop n index (child ∷ rest) = do
    child_st ← tick child
    elim child_st [
      | running ↦ do modify (set_i0 n.id (pos index)); pure running
      | failure ↦ do modify (set_i0 n.id (pos index)); pure failure
      | success ↦ mem_seq_loop n (suc index) rest
    ]

  unfoldable pub tick_mem_seq : Node → M (State W P) Status
  unfolding mem_seq_loop clamp_child_index
  tick_mem_seq n = do
    mem ← node_memory_for n.id
    mem_seq_loop n (clamp_child_index n mem.i0) (drop (clamp_child_index n mem.i0) n.children)

  unfoldable pub mem_sel_loop : Node → ℕ → List ℕ → M (State W P) Status
  mem_sel_loop n index [] = do
    modify (set_i0 n.id (pos 0))
    modify (set_b0 n.id false)
    pure failure
  mem_sel_loop n index (child ∷ rest) = do
    child_st ← tick child
    elim child_st [
      | success ↦ do
        modify (set_i0 n.id (pos 0))
        modify (set_b0 n.id false)
        halt_all_children host def (codes "mem-sel success") n.children
        pure success
      | running ↦ do modify (set_i0 n.id (pos index)); modify (set_b0 n.id true); pure running
      | failure ↦ mem_sel_loop n (suc index) rest
    ]

  unfoldable pub tick_mem_sel : Node → M (State W P) Status
  unfolding mem_sel_loop clamp_child_index
  tick_mem_sel n = do
    mem ← node_memory_for n.id
    mem_sel_loop n (clamp_child_index n mem.i0) (drop (clamp_child_index n mem.i0) n.children)

  -- The child at `index` succeeded.
  unfoldable pub async_seq_next : Node → ℕ → M (State W P) Status
  async_seq_next n index =
      if leb (length n.children) (index + 1)
      then (do
        modify (set_i0 n.id (pos 0))
        halt_all_children host def (codes "async-seq complete") n.children
        pure success)
      else (do modify (set_i0 n.id (pos (index + 1))); pure running)

  unfoldable pub tick_async_seq : Node → M (State W P) Status
  unfolding clamp_child_index async_seq_next
  tick_async_seq n = do
    mem ← node_memory_for n.id
    let index = clamp_child_index n mem.i0
    child_st ← tick_child n.children index
    elim child_st [
      | running ↦ do modify (set_i0 n.id (pos index)); pure running
      | failure ↦ do modify (set_i0 n.id (pos 0)); pure failure
      | success ↦ async_seq_next n index
    ]

  -- Halts the child that was running, if the test holds of it.
  abbrev pub halt_previous : Option ℕ → (ℕ → Bool) → ℕ → Text → M (State W P) (Unit {0})
  halt_previous none test to_child reason = pure tt
  halt_previous (some previous) test to_child reason =
      if test previous then halt_child_subtree host def previous to_child reason else pure tt

  -- The loop of `tick_reactive_seq`, at child `i`.
  unfoldable pub reactive_seq_loop : Node → Option ℕ → ℕ → List ℕ → M (State W P) Status
  reactive_seq_loop n previous i [] = do
    halt_previous previous (λ _. true) n.id (codes "reactive-seq completed")
    modify (clear_reactive_running_child n.id)
    pure success
  reactive_seq_loop n previous i (child ∷ rest) = do
    child_st ← tick child
    elim child_st [
      | failure ↦ do
        halt_previous previous (λ _. true) child (codes "reactive-seq preempted on failure")
        modify (clear_reactive_running_child n.id)
        pure failure
      | running ↦ do
        halt_previous previous (λ p. differs p child) child
            (codes "reactive-seq switched running child")
        modify (remember_reactive_running_child n.id i)
        pure running
      | success ↦ reactive_seq_loop n previous (suc i) rest
    ]

  unfoldable pub tick_reactive_seq : Node → M (State W P) Status
  unfolding reactive_seq_loop prior_running_child
  tick_reactive_seq n = do
    mem ← node_memory_for n.id
    reactive_seq_loop n (prior_running_child mem n) 0 n.children

  -- `previous_index` of `tick_reactive_sel`.
  abbrev pub nonnegative_or : ℕ → ℤ → ℕ
  nonnegative_or d (pos i) = i
  nonnegative_or d (negsuc _) = d

  abbrev pub previous_index : Memory P → Node → ℕ
  previous_index mem n =
      if mem.b0 then nonnegative_or (length n.children) mem.i0 else length n.children

  -- The loop of `tick_reactive_sel`, at child `i`; `at` is `previous_index`.
  unfoldable pub reactive_sel_loop : Node → Option ℕ → ℕ → ℕ → List ℕ → M (State W P) Status
  reactive_sel_loop n previous at i [] = do
    halt_previous previous (λ _. true) n.id (codes "reactive-sel all failed")
    modify (clear_reactive_running_child n.id)
    pure failure
  reactive_sel_loop n previous at i (child ∷ rest) = do
    child_st ← tick child
    elim child_st [
      | failure ↦ reactive_sel_loop n previous at (suc i) rest
      | running ↦ do
        halt_previous previous (λ p. ltb i at && differs p child) child
            (codes "reactive-sel switched to higher priority")
        modify (remember_reactive_running_child n.id i)
        pure running
      | success ↦ do
        halt_previous previous (λ p. ltb i at && differs p child) child
            (codes "reactive-sel switched to higher priority")
        modify (clear_reactive_running_child n.id)
        pure success
    ]

  unfoldable pub tick_reactive_sel : Node → M (State W P) Status
  unfolding reactive_sel_loop prior_running_child
  tick_reactive_sel n = do
    mem ← node_memory_for n.id
    reactive_sel_loop n (prior_running_child mem n) (previous_index mem n) 0 n.children

  unfoldable pub tick_invert : Node → M (State W P) Status
  unfolding invert_status
  tick_invert n = do st ← tick_child n.children 0; pure (invert_status st)

  -- The counter after a success of the child of `repeat`.
  unfoldable pub count_success : Node → M (State W P) Status
  count_success n s =
      let i = suc_ℤ (memory_at n.id s).i0 in
      ok (if leb_ℤ n.int_param i then success else running, set_i0 n.id i s)

  unfoldable pub repeat_child : Node → M (State W P) Status
  unfolding count_success
  repeat_child n = do
    child_st ← tick_child n.children 0
    elim child_st [ failure ↦ pure failure | running ↦ pure running | success ↦ count_success n ]

  unfoldable pub tick_repeat : Node → M (State W P) Status
  unfolding repeat_child
  tick_repeat n = do
    mem ← node_memory_for n.id
    if leb_ℤ n.int_param mem.i0 then pure success else repeat_child n

  unfoldable pub count_failure : Node → M (State W P) Status
  count_failure n s =
      let i = suc_ℤ (memory_at n.id s).i0 in
      ok (if leb_ℤ i n.int_param then running else failure, set_i0 n.id i s)

  unfoldable pub tick_retry : Node → M (State W P) Status
  unfolding count_failure
  tick_retry n = do
    mem ← node_memory_for n.id
    child_st ← tick_child n.children 0
    elim child_st [
      | success ↦ do modify (set_i0 n.id (pos 0)); pure success
      | running ↦ pure running
      | failure ↦ count_failure n
    ]
