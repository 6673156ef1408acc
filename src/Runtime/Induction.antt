-- ===== src/Runtime/Induction.antt =====
-- Induction over a tick: a relation that each primitive step keeps holds between the states before
-- and after every `tick_node`, and on a compiled definition no tick ends in a fault of its own.
use muesli_bt.Common.{
  ℕ, zero, suc, ◌+◌, ◌≤◌, ◌<◌, ◌≡◌, refl, sym, ap, subst, ◌⊎◌, inl, inr, Bool, true, false,
  Bool-cases, Option, none, some, List, [], ◌∷◌, length, get_elem?, get_elem?-lt, drop, ltb, leb,
  leb_ℤ, leb_false→lt, ltb→lt, All, All-map, All-get_elem?, ℤ, pos, negsuc, Text, Result, ok, err,
  bind, arith, is_empty, if◌then◌else◌,
}
use muesli_bt.Ast.{NodeKind, ArgValue, Node, Definition}
use muesli_bt.Binary.Validate.{Shape, shape_of, check_shape, unnamed_leaf}
use muesli_bt.Compiler.Numbers.{IsNumberedNode, IsNumbered}
use muesli_bt.Runtime.Status.{Status, success, failure, running}
use muesli_bt.Runtime.State.{
  Called, returned, threw, threw_other, Memory, TraceEvent, LogLevel, Host, State, Fault, M,
  memory_at, write_memory, emit_trace, emit_log, Effects, absorb,
}
use muesli_bt.Runtime.Halt.{
  halt_node, halt_subtree_impl, emit_node_preempt, halt_child_subtree, halt_all_children,
}
use muesli_bt.Runtime.Halting.{
  Safe, holds, foreign, Safe-bind, Safe-map, get_node_lem, numbered_at, halt_subtree_impl-Safe,
}
use muesli_bt.Runtime.Composite.{
  set_i0, set_b0, clear_reactive_running_child, remember_reactive_running_child, clamp_child_index,
  prior_running_child, child_at, tick_child, tick_seq, tick_sel, mem_seq_loop, tick_mem_seq,
  mem_sel_loop, tick_mem_sel, async_seq_next, tick_async_seq, reactive_seq_loop, tick_reactive_seq,
  reactive_sel_loop, tick_reactive_sel, tick_invert, count_success, repeat_child, tick_repeat,
  count_failure, tick_retry, halt_previous,
}
use muesli_bt.Runtime.Tick.{
  enter_scope, leave_scope, finalize, report, leaf_result, of_bool, tick_cond, tick_act,
  tick_service, tick_kind, tick_in_scope, tick_node,
}
pub mod Nodes

-- What every primitive step of a tick keeps.
pub record IsKept {W P : Type 0} (host : Host W P) (def : Definition)
    (R : State W P → State W P → Type 0) : Type 0 where
  pub here : (s : State W P) → R s s
  pub after : (s t u : State W P) → R s t → R t u → R s u
  pub wrote : (id : ℕ) (m : Memory P) (s : State W P) → R s (write_memory id m s)
  pub absorbed : (e : Effects W) (s : State W P) → R s (absorb host e s)
  pub traced :
      (id : ℕ) (message : Text) (s : State W P)
      → R s (emit_trace host (TraceEvent.error id message) s)
  pub logged : (l : LogLevel) (c message : Text) (s : State W P) → R s (emit_log host l c message s)
  pub halted :
      (n : Node) (id : ℕ) (reason : Text) (s : State W P) → R s (halt_node host def n id reason s)
  pub preempted :
      (a b : ℕ) (reason : Text) (s : State W P) → R s (emit_node_preempt host def a b reason s)
  pub scoped :
      (id : ℕ) (st : Status) (s t : State W P)
      → R (enter_scope host def id s) t
      → R s (leave_scope host def id st s.current_node (finalize host def id t))

module _ {W P : Type 0} (host : Host W P) (def : Definition) (numbered : IsNumbered def.nodes)
    (R : State W P → State W P → Type 0) (k : IsKept host def R) where
  -- `m` keeps the relation, from every state.
  abbrev pub Keeps : {A : Type 0} → M (State W P) A → Type 0
  Keeps m = (s : State W P) → Safe (λ (_, t). R s t) (m s)

  pub after_step :
      {A : Type 0} (s t : State W P) (r : Result Fault (A × State W P))
      → R s t
      → Safe (λ (_, u). R t u) r
      → Safe (λ (_, u). R s u) r
  after_step s t r h p = Safe-map p λ x q. k.after s t x.1 h q

  pub Keeps-bind :
      {A B : Type 0} {m : M (State W P) A} {f : A → M (State W P) B}
      → Keeps m
      → ((a : A) → Keeps (f a))
      → (s : State W P) → Safe (λ (_, t). R s t) (bind (m s) λ (a, t). f a t)
  Keeps-bind p q s = Safe-bind (p s) λ (a, t) h. after_step s t _ h (q a t)

  halt_subtree-Keeps :
      (reason : Text) (id : ℕ)
      → id < length def.nodes
      → Keeps (halt_subtree_impl host def reason id)
  halt_subtree-Keeps reason id h s =
      halt_subtree_impl-Safe host def numbered R k.here k.after k.halted reason id s h

  halt_child-Keeps :
      (from to : ℕ) (reason : Text)
      → from < length def.nodes
      → Keeps (halt_child_subtree host def from to reason)
  unfolding halt_child_subtree
  halt_child-Keeps from to reason h s =
      after_step s _ _ (k.preempted from to reason s) (halt_subtree-Keeps reason from h _)

  halt_children-Keeps :
      (reason : Text) (cs : List ℕ)
      → All (λ c. c < length def.nodes) cs
      → Keeps (halt_all_children host def reason cs)
  unfolding halt_all_children
  halt_children-Keeps reason [] h s = holds (k.here s)
  halt_children-Keeps reason (c ∷ cs) h s =
      Keeps-bind (halt_subtree-Keeps reason c h.0) (λ _. halt_children-Keeps reason cs h.1) s

  Keeps-status :
      (f : Status → M (State W P) Status)
      → Keeps (f success)
      → Keeps (f failure)
      → Keeps (f running)
      → (st : Status) → Keeps (f st)
  Keeps-status f p q r success = p
  Keeps-status f p q r failure = q
  Keeps-status f p q r running = r

  -- A change of the state that the relation allows, and then `m`.
  Keeps-then :
      {A : Type 0} (f : State W P → State W P) (m : M (State W P) A)
      → ((s : State W P) → R s (f s))
      → Keeps m
      → (s : State W P) → Safe (λ (_, t). R s t) (m (f s))
  Keeps-then f m h p s = after_step s (f s) (m (f s)) (h s) (p (f s))

  pub Keeps-pure :
      {A : Type 0} (a : A) (s : State W P) → Safe (λ (r : A × State W P). R s r.1) (ok (a, s))
  Keeps-pure a s = holds (k.here s)

  module _ (tick : ℕ → M (State W P) Status) where
    -- The children can be ticked and halted.
    abbrev pub AreTickable : List ℕ → Type 0
    AreTickable = All (λ c. (c < length def.nodes) × Keeps (tick c))

    in_range : (cs : List ℕ) → AreTickable cs → All (λ c. c < length def.nodes) cs
    in_range cs h = All-map _ _ cs (λ c p. p.0) h

    pub tick_seq-Keeps : (cs : List ℕ) → AreTickable cs → Keeps (tick_seq host def tick cs)
    unfolding tick_seq
    tick_seq-Keeps [] h s = Keeps-pure success s
    tick_seq-Keeps (c ∷ cs) h s =
        Keeps-bind h.0.1
          (Keeps-status _ (tick_seq-Keeps cs h.1) (Keeps-pure failure) (Keeps-pure running)) s

    pub tick_sel-Keeps : (cs : List ℕ) → AreTickable cs → Keeps (tick_sel host def tick cs)
    unfolding tick_sel
    tick_sel-Keeps [] h s = Keeps-pure failure s
    tick_sel-Keeps (c ∷ cs) h s =
        Keeps-bind h.0.1
          (Keeps-status _ (Keeps-pure success) (tick_sel-Keeps cs h.1) (Keeps-pure running)) s

    -- The end of a node: its memory is written, and the status is returned.
    Keeps-write :
        (id : ℕ) (f : State W P → Memory P) (st : Status) (s : State W P)
        → Safe (λ (r : Status × State W P). R s r.1) (ok (st, write_memory id (f s) s))
    Keeps-write id f st s = holds (k.wrote id (f s) s)

    mem_seq_loop-Keeps :
        (n : Node) (i : ℕ) (cs : List ℕ)
        → AreTickable n.children
        → AreTickable cs
        → Keeps (mem_seq_loop host def tick n i cs)
    unfolding mem_seq_loop
    mem_seq_loop-Keeps n i [] all h s =
        Keeps-then (set_i0 n.id (pos 0)) _ (λ t. k.wrote n.id _ t)
          (Keeps-bind (halt_children-Keeps _ n.children (in_range n.children all))
            λ _. Keeps-pure success)
          s
    mem_seq_loop-Keeps n i (c ∷ cs) all h s =
        Keeps-bind h.0.1
          (Keeps-status _ (mem_seq_loop-Keeps n (suc i) cs all h.1) (Keeps-write n.id _ failure)
            (Keeps-write n.id _ running))
          s

    drop-AreTickable : (i : ℕ) (cs : List ℕ) → AreTickable cs → AreTickable (drop i cs)
    drop-AreTickable zero cs h = h
    drop-AreTickable (suc i) [] h = tt
    drop-AreTickable (suc i) (c ∷ cs) h = drop-AreTickable i cs h.1

    pub tick_mem_seq-Keeps :
        (n : Node) → AreTickable n.children → Keeps (tick_mem_seq host def tick n)
    unfolding tick_mem_seq
    tick_mem_seq-Keeps n h s =
        after_step s _ _ (k.wrote n.id (memory_at n.id s) s)
          (mem_seq_loop-Keeps n _ _ h (drop-AreTickable _ n.children h) _)

    mem_sel_loop-Keeps :
        (n : Node) (i : ℕ) (cs : List ℕ)
        → AreTickable n.children
        → AreTickable cs
        → Keeps (mem_sel_loop host def tick n i cs)
    unfolding mem_sel_loop
    mem_sel_loop-Keeps n i [] all h s =
        Keeps-then (set_i0 n.id (pos 0)) _ (λ t. k.wrote n.id _ t)
          (Keeps-then (set_b0 n.id false) _ (λ t. k.wrote n.id _ t) (Keeps-pure failure)) s
    mem_sel_loop-Keeps n i (c ∷ cs) all h s =
        Keeps-bind h.0.1
          (Keeps-status _
            (Keeps-then (set_i0 n.id (pos 0)) _ (λ t. k.wrote n.id _ t)
              (Keeps-then (set_b0 n.id false) _ (λ t. k.wrote n.id _ t)
                (Keeps-bind (halt_children-Keeps _ n.children (in_range n.children all))
                  λ _. Keeps-pure success)))
            (mem_sel_loop-Keeps n (suc i) cs all h.1)
            (Keeps-then (set_i0 n.id (pos i)) _ (λ t. k.wrote n.id _ t)
              (Keeps-then (set_b0 n.id true) _ (λ t. k.wrote n.id _ t) (Keeps-pure running))))
          s

    pub tick_mem_sel-Keeps :
        (n : Node) → AreTickable n.children → Keeps (tick_mem_sel host def tick n)
    unfolding tick_mem_sel
    tick_mem_sel-Keeps n h s =
        after_step s _ _ (k.wrote n.id (memory_at n.id s) s)
          (mem_sel_loop-Keeps n _ _ h (drop-AreTickable _ n.children h) _)

    tick_child-Keeps :
        (cs : List ℕ) (i : ℕ)
        → AreTickable cs
        → i < length cs
        → Keeps (tick_child host def tick cs i)
    tick_child-Keeps [] i h lt = elim lt [ ]
    tick_child-Keeps (c ∷ cs) zero h lt = h.0.1
    tick_child-Keeps (c ∷ cs) (suc i) h lt = tick_child-Keeps cs i h.1 (omega arith)

    clamp-lt :
        (n : Node) (i : ℤ) → 0 < length n.children → clamp_child_index n i < length n.children
    unfolding clamp_child_index
    clamp-lt n (pos i) h = ground arith
    clamp-lt n (negsuc i) h = h

    async_seq_next-Keeps :
        (n : Node) (i : ℕ) → AreTickable n.children → Keeps (async_seq_next host def tick n i)
    unfolding async_seq_next
    async_seq_next-Keeps n i h s = elim (Bool-cases (leb (length n.children) (i + 1))) [
      | inl e ↦ rw e (
          Keeps-then (set_i0 n.id (pos 0)) _ (λ t. k.wrote n.id _ t)
            (Keeps-bind (halt_children-Keeps _ n.children (in_range n.children h))
              λ _. Keeps-pure success)
            s)
      | inr e ↦
          rw e (
            Keeps-then (set_i0 n.id (pos (i + 1))) _ (λ t. k.wrote n.id _ t) (Keeps-pure running) s)
    ]

    pub tick_async_seq-Keeps :
        (n : Node)
        → AreTickable n.children
        → 0 < length n.children
        → Keeps (tick_async_seq host def tick n)
    unfolding tick_async_seq
    tick_async_seq-Keeps n h some_child s = after_step s _ _ (k.wrote n.id (memory_at n.id s) s) (
        Keeps-bind (tick_child-Keeps n.children _ h (clamp-lt n (memory_at n.id s).i0 some_child))
          (Keeps-status _ (async_seq_next-Keeps n _ h) (Keeps-write n.id _ failure)
            (Keeps-write n.id _ running))
          _)

    -- The child that was running is one of the children.
    abbrev IsHaltable : Option ℕ → Type 0
    IsHaltable none = Unit
    IsHaltable (some c) = c < length def.nodes

    halt_previous-Keeps :
        (previous : Option ℕ) (test : ℕ → Bool) (to : ℕ) (reason : Text)
        → IsHaltable previous
        → Keeps (halt_previous host def tick previous test to reason)
    halt_previous-Keeps none test to reason h s = Keeps-pure tt s
    halt_previous-Keeps (some c) test to reason h s = elim (Bool-cases (test c)) [
      | inl e ↦ rw e (halt_child-Keeps c to reason h s)
      | inr e ↦ rw e (Keeps-pure tt s)
    ]

    halt_then_write :
        (previous : Option ℕ) (test : ℕ → Bool) (to : ℕ) (reason : Text) (id : ℕ)
        (f : State W P → Memory P) (st : Status)
        → IsHaltable previous
        → (s : State W P)
        → Safe
            (λ (_, t). R s t)
            (bind
              (halt_previous host def tick previous test to reason s)
              λ (_, t). ok (st, write_memory id (f t) t))
    halt_then_write previous test to reason id f st h =
        Keeps-bind (halt_previous-Keeps previous test to reason h) λ _. Keeps-write id f st

    reactive_seq_loop-Keeps :
        (n : Node) (previous : Option ℕ) (i : ℕ) (cs : List ℕ)
        → IsHaltable previous
        → AreTickable cs
        → Keeps (reactive_seq_loop host def tick n previous i cs)
    unfolding reactive_seq_loop
    reactive_seq_loop-Keeps n previous i [] p h s =
        halt_then_write previous _ _ _ n.id _ success p s
    reactive_seq_loop-Keeps n previous i (c ∷ cs) p h s =
        Keeps-bind h.0.1
          (Keeps-status _ (reactive_seq_loop-Keeps n previous (suc i) cs p h.1)
            (halt_then_write previous _ _ _ n.id _ failure p)
            (halt_then_write previous _ _ _ n.id _ running p))
          s

    reactive_sel_loop-Keeps :
        (n : Node) (previous : Option ℕ) (at i : ℕ) (cs : List ℕ)
        → IsHaltable previous
        → AreTickable cs
        → Keeps (reactive_sel_loop host def tick n previous at i cs)
    unfolding reactive_sel_loop
    reactive_sel_loop-Keeps n previous at i [] p h s =
        halt_then_write previous _ _ _ n.id _ failure p s
    reactive_sel_loop-Keeps n previous at i (c ∷ cs) p h s =
        Keeps-bind h.0.1
          (Keeps-status _ (halt_then_write previous _ _ _ n.id _ success p)
            (reactive_sel_loop-Keeps n previous at (suc i) cs p h.1)
            (halt_then_write previous _ _ _ n.id _ running p))
          s

    child_at-IsHaltable : (cs : List ℕ) (i : ℤ) → AreTickable cs → IsHaltable (child_at cs i)
    unfolding child_at
    child_at-IsHaltable cs (negsuc i) h = tt
    child_at-IsHaltable [] (pos i) h = tt
    child_at-IsHaltable (c ∷ cs) (pos zero) h = h.0.0
    child_at-IsHaltable (c ∷ cs) (pos (suc i)) h = child_at-IsHaltable cs (pos i) h.1

    prior-IsHaltable :
        (mem : Memory P) (n : Node)
        → AreTickable n.children
        → IsHaltable (prior_running_child mem n)
    unfolding prior_running_child
    prior-IsHaltable mem n h = elim (Bool-cases mem.b0) [
      | inl e ↦ rw e (child_at-IsHaltable n.children mem.i0 h)
      | inr e ↦ rw e tt
    ]

    pub tick_reactive_seq-Keeps :
        (n : Node) → AreTickable n.children → Keeps (tick_reactive_seq host def tick n)
    unfolding tick_reactive_seq
    tick_reactive_seq-Keeps n h s =
        after_step s _ _ (k.wrote n.id (memory_at n.id s) s)
          (reactive_seq_loop-Keeps n _ 0 n.children (prior-IsHaltable (memory_at n.id s) n h) h _)

    pub tick_reactive_sel-Keeps :
        (n : Node) → AreTickable n.children → Keeps (tick_reactive_sel host def tick n)
    unfolding tick_reactive_sel
    tick_reactive_sel-Keeps n h s =
        after_step s _ _ (k.wrote n.id (memory_at n.id s) s)
          (reactive_sel_loop-Keeps n _ _ 0 n.children (prior-IsHaltable (memory_at n.id s) n h) h _)

    pub tick_invert-Keeps :
        (n : Node)
        → AreTickable n.children
        → 0 < length n.children
        → Keeps (tick_invert host def tick n)
    unfolding tick_invert
    tick_invert-Keeps n h some_child s =
        Keeps-bind (tick_child-Keeps n.children 0 h some_child) (λ st. Keeps-pure _) s

    repeat_child-Keeps :
        (n : Node)
        → AreTickable n.children
        → 0 < length n.children
        → Keeps (repeat_child host def tick n)
    unfolding repeat_child count_success
    repeat_child-Keeps n h some_child s =
        Keeps-bind (tick_child-Keeps n.children 0 h some_child)
          (Keeps-status _ (λ t. holds (k.wrote n.id _ t)) (Keeps-pure failure) (Keeps-pure running))
          s

    pub tick_repeat-Keeps :
        (n : Node)
        → AreTickable n.children
        → 0 < length n.children
        → Keeps (tick_repeat host def tick n)
    unfolding tick_repeat
    tick_repeat-Keeps n h some_child s =
        after_step s _ _ (k.wrote n.id (memory_at n.id s) s)
          (elim (Bool-cases (leb_ℤ n.int_param (memory_at n.id s).i0)) [
            | inl e ↦ rw e (Keeps-pure success _)
            | inr e ↦ rw e (repeat_child-Keeps n h some_child _)
          ])

    pub tick_retry-Keeps :
        (n : Node)
        → AreTickable n.children
        → 0 < length n.children
        → Keeps (tick_retry host def tick n)
    unfolding tick_retry count_failure
    tick_retry-Keeps n h some_child s = after_step s _ _ (k.wrote n.id (memory_at n.id s) s) (
        Keeps-bind (tick_child-Keeps n.children 0 h some_child)
          (Keeps-status _ (Keeps-write n.id _ success) (λ t. holds (k.wrote n.id _ t))
            (Keeps-pure running))
          _)
