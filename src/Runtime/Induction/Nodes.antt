-- ===== src/Runtime/Induction/Nodes.antt =====
-- `tick_node` keeps what each of its steps keeps: the leaves, the `switch`, the scope, the recursion.
use muesli_bt.Common.{
  ℕ, zero, suc, ◌<◌, ◌≡◌, sym, ap, subst, ◌⊎◌, inl, inr, is_empty, codes, Bool, true, Option, none,
  some, List, [], ◌∷◌, length, get_elem?-lt, All-map, Text, ok, err, bind, >>=-eq-ok, ok-injective,
  ◌∙◌, arith,
}
use muesli_bt.Ast.{NodeKind, ArgValue, Node, Definition}
use muesli_bt.Binary.Validate.{Shape, composite, decorator, check_shape, shape_of, unnamed_leaf}
use muesli_bt.Compiler.Numbers.{IsNumbered}
use muesli_bt.Runtime.Status.{Status, success, failure, running}
use muesli_bt.Runtime.State.{
  Called, returned, threw, threw_other, Memory, Effects, Host, State, M, memory_at,
}
use muesli_bt.Runtime.Halting.{holds, foreign, Safe-bind, Safe-ok, get_node_lem, numbered_at}
use muesli_bt.Runtime.Tick.{
  enter_scope, leave_scope, finalize, report, leaf_result, of_bool, call_condition, call_action,
  tick_cond, tick_act, tick_service, plan_failed, vla_failed, tick_kind, close, scoped,
  tick_in_scope, tick_node,
}
use muesli_bt.Runtime.Induction.{
  IsKept, Keeps, AreTickable, after_step, Keeps-pure, tick_seq-Keeps, tick_sel-Keeps,
  tick_mem_seq-Keeps, tick_mem_sel-Keeps, tick_async_seq-Keeps, tick_reactive_seq-Keeps,
  tick_reactive_sel-Keeps, tick_invert-Keeps, tick_repeat-Keeps, tick_retry-Keeps,
}

-- What `IsNumberedNode` says of a shape.
abbrev IsShapedAs : Shape → List ℕ → Text → Type 0
IsShapedAs shape children name =
    (check_shape shape children name ≡ ok tt)
    ⊎ ((check_shape shape children name ≡ err unnamed_leaf) × (is_empty name ≡ true))

composite_child : (cs : List ℕ) (name : Text) → IsShapedAs composite cs name → 0 < length cs
unfolding check_shape
composite_child [] name (inl e) = cc
composite_child [] name (inr (e, _)) = cc
composite_child (c ∷ cs) name e = omega arith

decorator_child : (cs : List ℕ) (name : Text) → IsShapedAs decorator cs name → 0 < length cs
unfolding check_shape
decorator_child [] name (inl e) = cc
decorator_child [] name (inr (e, _)) = cc
decorator_child (c ∷ cs) name e = omega arith

module _ {W P : Type 0} (host : Host W P) (def : Definition) (numbered : IsNumbered def.nodes)
    (R : State W P → State W P → Type 0) (k : IsKept host def R) where
  report-kept : (id : ℕ) (c message : Text) (s : State W P) → R s (report host def id c message s)
  unfolding report
  report-kept id c message s = k.after _ _ _ (k.traced id message s) (k.logged _ c message _)

  leaf_result-Keeps :
      (on_throw : Text → State W P → State W P)
      → ((what : Text) (s : State W P) → R s (on_throw what s))
      → (out : Called Status) → Keeps host def numbered R k (leaf_result host def on_throw out)
  unfolding leaf_result
  leaf_result-Keeps on_throw h (returned st) s = holds (k.here s)
  leaf_result-Keeps on_throw h (threw what) s = holds (h what s)
  leaf_result-Keeps on_throw h threw_other s = foreign

  call_condition-Keeps :
      (n : Node) (o : Option (List ArgValue → W → Called Bool × Effects W))
      → Keeps host def numbered R k (call_condition host def n o)
  unfolding call_condition
  call_condition-Keeps n none s = holds (report-kept n.id _ _ s)
  call_condition-Keeps n (some fn) s =
      let out = fn n.args s.world in
      after_step host def numbered R k s _ _ (k.absorbed out.1 s)
        (leaf_result-Keeps _ (λ what t. report-kept n.id _ _ t) (of_bool host def out.0) _)

  call_action-Keeps :
      (n : Node)
      (o : Option (ℕ → Memory P → List ArgValue → W → Called Status × Memory P × Effects W))
      → Keeps host def numbered R k (call_action host def n o)
  unfolding call_action
  call_action-Keeps n none s = holds (report-kept n.id _ _ s)
  call_action-Keeps n (some fn) s =
      let out = fn n.id (memory_at n.id s) n.args s.world in
      after_step host def numbered R k s _ _
        (k.after _ _ _ (k.absorbed out.2 s) (k.wrote n.id out.1 _))
        (leaf_result-Keeps _ (λ what t. report-kept n.id _ _ t) out.0 _)

  tick_service-Keeps :
      (on_throw : Text → State W P → State W P) (execute : Node → W → Called Status × Effects W)
      (n : Node)
      → ((what : Text) (s : State W P) → R s (on_throw what s))
      → Keeps host def numbered R k (tick_service host def on_throw execute n)
  unfolding tick_service
  tick_service-Keeps on_throw execute n h s =
      after_step host def numbered R k s _ _ (k.absorbed (execute n s.world).1 s)
        (leaf_result-Keeps on_throw h (execute n s.world).0 _)

  module _ (tick : ℕ → M (State W P) Status) where
    -- The kinds that read a first child have one.
    tick_kind-Keeps :
        (kind : NodeKind) (n : Node)
        → IsShapedAs (shape_of kind) n.children n.leaf_name
        → AreTickable host def numbered R k tick n.children
        → Keeps host def numbered R k (tick_kind host def tick kind n)
    unfolding tick_kind tick_cond tick_act
    tick_kind-Keeps NodeKind.seq n e h = tick_seq-Keeps host def numbered R k tick n.children h
    tick_kind-Keeps NodeKind.sel n e h = tick_sel-Keeps host def numbered R k tick n.children h
    tick_kind-Keeps NodeKind.mem_seq n e h = tick_mem_seq-Keeps host def numbered R k tick n h
    tick_kind-Keeps NodeKind.mem_sel n e h = tick_mem_sel-Keeps host def numbered R k tick n h
    tick_kind-Keeps NodeKind.async_seq n e h =
        tick_async_seq-Keeps host def numbered R k tick n h
          (composite_child n.children n.leaf_name e)
    tick_kind-Keeps NodeKind.reactive_seq n e h =
        tick_reactive_seq-Keeps host def numbered R k tick n h
    tick_kind-Keeps NodeKind.reactive_sel n e h =
        tick_reactive_sel-Keeps host def numbered R k tick n h
    tick_kind-Keeps NodeKind.invert n e h =
        tick_invert-Keeps host def numbered R k tick n h (decorator_child n.children n.leaf_name e)
    tick_kind-Keeps NodeKind.repeat n e h =
        tick_repeat-Keeps host def numbered R k tick n h (decorator_child n.children n.leaf_name e)
    tick_kind-Keeps NodeKind.retry n e h =
        tick_retry-Keeps host def numbered R k tick n h (decorator_child n.children n.leaf_name e)
    tick_kind-Keeps NodeKind.cond n e h = call_condition-Keeps n _
    tick_kind-Keeps NodeKind.act n e h = call_action-Keeps n _
    tick_kind-Keeps NodeKind.plan_action n e h =
        tick_service-Keeps (plan_failed host def n) host.execute_plan_action n
          λ what s. report-kept n.id _ _ s
    tick_kind-Keeps NodeKind.vla_request n e h =
        tick_service-Keeps (vla_failed host def (codes "vla-request failed: "))
          host.execute_vla_request n λ what s. k.logged _ _ _ s
    tick_kind-Keeps NodeKind.vla_wait n e h =
        tick_service-Keeps (vla_failed host def (codes "vla-wait failed: ")) host.execute_vla_wait n
          λ what s. k.logged _ _ _ s
    tick_kind-Keeps NodeKind.vla_cancel n e h =
        tick_service-Keeps (vla_failed host def (codes "vla-cancel failed: "))
          host.execute_vla_cancel n λ what s. k.logged _ _ _ s
    tick_kind-Keeps NodeKind.succeed n e h = Keeps-pure host def numbered R k success
    tick_kind-Keeps NodeKind.fail n e h = Keeps-pure host def numbered R k failure
    tick_kind-Keeps NodeKind.running n e h = Keeps-pure host def numbered R k running

  tick_in_scope-Keeps :
      (tick : ℕ → M (State W P) Status) (id : ℕ)
      → id < length def.nodes
      → ((c : ℕ) → c < id → Keeps host def numbered R k (tick c))
      → Keeps host def numbered R k (tick_in_scope host def tick id)
  unfolding tick_in_scope
  tick_in_scope-Keeps tick id h below s =
      let (n, e) = get_elem?-lt def.nodes id h in
      let numbered_node = numbered_at def numbered id e in
      let tickable =
        All-map _ _ n.children (λ c lt. (omega (arith, h, lt), below c lt))
          numbered_node.children_before in
      rw (get_node_lem host def id s e) (
        Safe-bind
          (tick_kind-Keeps tick n.kind n numbered_node.shaped tickable
            (enter_scope host def n.id s))
          λ (st, t) r. holds (k.scoped n.id st s t r))

  -- The depth of the recursion is below the id of the root of the subtree.
  pub tick_node-Keeps :
      (fuel id : ℕ)
      → id < length def.nodes
      → id < fuel
      → Keeps host def numbered R k (tick_node host def fuel id)
  unfolding tick_node
  tick_node-Keeps zero id h lt = elim lt [ ]
  tick_node-Keeps (suc fuel) id h lt =
      tick_in_scope-Keeps (tick_node host def fuel) id h
        λ c less. tick_node-Keeps fuel c (omega (arith, h, less)) (omega (arith, lt, less))

  inner_of :
      (id : ℕ) (s : State W P) (st : Status) (t : State W P) (i : ℕ) (st' : Status) (u : State W P)
      → i ≡ id
      → R (enter_scope host def i s) u
      → (◌≡◌ {A = Status × State W P}
          (st', leave_scope host def i st' s.current_node (finalize host def i u))
          (st, t))
      → (u : State W P) × R (enter_scope host def id s) u
        × (t ≡ leave_scope host def id st s.current_node (finalize host def id u))
  inner_of id s st t i st' u same_id r e = (
    u,
    subst (λ j. R (enter_scope host def j s) u) same_id r,
    sym (ap (λ x. x.1) e)
        ∙ ap (λ j. leave_scope host def j st' s.current_node (finalize host def j u)) same_id
        ∙ ap
            (λ (x : Status × State W P).
              leave_scope host def id x.0 s.current_node (finalize host def id u))
            e,
  )

  -- What a tick that returns has done between the entry of its scope and the exit.
  pub tick_node-inner :
      (fuel id : ℕ)
      → id < length def.nodes
      → id < fuel
      → (s : State W P) (st : Status) (t : State W P) → tick_node host def fuel id s ≡ ok (st, t)
      → (u : State W P) × R (enter_scope host def id s) u
        × (t ≡ leave_scope host def id st s.current_node (finalize host def id u))
  unfolding tick_node tick_in_scope
  tick_node-inner zero id h lt s st t e = elim lt [ ]
  tick_node-inner (suc fuel) id h lt s st t e =
      let (n, at) = get_elem?-lt def.nodes id h in
      let numbered_node = numbered_at def numbered id at in
      let tickable =
        All-map _ _ n.children
          (λ c less. (
            omega (arith, h, less),
            tick_node-Keeps fuel c (omega (arith, h, less)) (omega (arith, lt, less)),
          ))
          numbered_node.children_before in
      let ran =
        ap (λ r. bind r (scoped host def (tick_node host def fuel)))
          (sym (get_node_lem host def id s at))
        ∙ e in
      let ((st', u), e₁, e₂) =
        >>=-eq-ok
          (tick_kind host def (tick_node host def fuel) n.kind n (enter_scope host def n.id s))
          (close host def n s.current_node) ran in
      let kept =
        tick_kind-Keeps (tick_node host def fuel) n.kind n numbered_node.shaped tickable
          (enter_scope host def n.id s) in
      inner_of id s st t n.id st' u numbered_node.id_eq (Safe-ok e₁ kept) (ok-injective e₂)
