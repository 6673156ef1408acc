-- ===== src/Runtime/Scopes.antt =====
-- What a tick of a compiled tree returns, and the scopes it leaves as it found them.
use muesli_bt.Common.{
  ℕ, ◌≤◌, ◌<◌, ◌≡◌, refl, ◌∙◌, ap, ◌⊎◌, Bool, true, false, List, ◌∷◌, length, ◌^◌, ok, err, arith,
  if◌then◌else◌, leb,
}
use mathlib.Core.List.{tail}
use muesli_bt.Ast.{Definition}
use muesli_bt.Value.{Value}
use muesli_bt.Compiler.{compile_definition}
use muesli_bt.Compiler.Numbers.{IsNumbered}
use muesli_bt.Compiler.Numbering.{compile_definition-IsNumbered}
use muesli_bt.Runtime.Status.{Status}
use muesli_bt.Runtime.State.{
  same, TraceEvent, Event, Host, State, foreign_exception, update, emit_trace, emit_event,
}
use muesli_bt.Runtime.Halting.{outcome, Safe-ok}
use muesli_bt.Runtime.Tick.{
  enter_scope, leave_scope, report_exit, count_return, finalize, track_node_path, tick_node,
}
use muesli_bt.Runtime.Induction.Nodes.{tick_node-Keeps}
use muesli_bt.Runtime.Induction.{IsKept}
use muesli_bt.Runtime.Primitive.{IsPrimitive, primitive-IsKept}

-- The node that is current, and the path to it.
pub record IsScopeKept {W P : Type 0} (s t : State W P) : Type 0 where
  pub node : t.current_node ≡ s.current_node
  pub path : t.node_path ≡ s.node_path

unchanged : {W P : Type 0} (s : State W P) → IsScopeKept s s
unchanged s = record { node = refl; path = refl }

module _ {W P : Type 0} (host : Host W P) (def : Definition) where
  trivial-IsPrimitive : IsPrimitive {W = W} {P = P} (λ _. Unit) (λ _ _. Unit)
  trivial-IsPrimitive = record {
    here = λ s. tt;
    after = λ s t u p q. tt;
    wrote = λ id q m s. tt;
    moved = λ w s. tt;
    warned = λ id s. tt;
    traced = λ ev p s. tt;
    logged = λ l s. tt;
    sent = λ ev s. tt;
  }

  trace-path : (ev : TraceEvent) (s : State W P) → (emit_trace host ev s).node_path ≡ s.node_path
  unfolding emit_trace
  trace-path ev s = same (λ x. x.node_path) host.trace_enabled _ s refl

  event-path : (ev : Event) (s : State W P) → (emit_event host ev s).node_path ≡ s.node_path
  unfolding emit_event
  event-path ev s = same (λ x. x.node_path) host.has_events _ s refl

  finalize-path : (id : ℕ) (s : State W P) → (finalize host def id s).node_path ≡ s.node_path
  unfolding finalize
  finalize-path id s =
      same (λ x. x.node_path) (leb (length s.last_node_path) (length s.node_path)) _ s refl

  when-path :
      (b : Bool) (g : List ℕ → List ℕ) (s : State W P)
      → (if b then record s { node_path = g s.node_path } else s).node_path
        ≡ (if b then g s.node_path else s.node_path)
  when-path true g s = refl
  when-path false g s = refl

  when-node :
      (b : Bool) (g : List ℕ → List ℕ) (s : State W P)
      → (if b then record s { node_path = g s.node_path } else s).current_node ≡ s.current_node
  when-node true g s = refl
  when-node false g s = refl

  enter-path :
      (id : ℕ) (s : State W P)
      → (enter_scope host def id s).node_path
        ≡ (if track_node_path host def then id ∷ s.node_path else s.node_path)
  unfolding enter_scope
  enter-path id s =
      event-path _ _
      ∙ trace-path _ _
      ∙ when-path (track_node_path host def) (λ p. id ∷ p) (record s { current_node = id })

  exit-path :
      (id : ℕ) (st : Status) (s : State W P)
      → (report_exit host def id st s).node_path ≡ s.node_path
  unfolding report_exit
  exit-path id st s =
      let s₁ = record s {
        node_stats = update s.node_stats id (count_return st (s.node_stats id));
      } in
      let s₂ = emit_trace host (TraceEvent.node_exit id st) s₁ in
      event-path (Event.node_status id st) (emit_event host (Event.node_exit id st) s₂)
      ∙ event-path (Event.node_exit id st) s₂
      ∙ trace-path (TraceEvent.node_exit id st) s₁

  leave-path :
      (id : ℕ) (st : Status) (prev : ℕ) (s : State W P)
      → (leave_scope host def id st prev s).node_path
        ≡ (if track_node_path host def then tail s.node_path else s.node_path)
  unfolding leave_scope
  leave-path id st prev s =
      when-path (track_node_path host def) tail
        (record (report_exit host def id st s) { current_node = prev })
      ∙ ap (λ p. if track_node_path host def then tail p else p) (exit-path id st s)

  pop-push :
      (b : Bool) (id : ℕ) (p q : List ℕ)
      → q ≡ (if b then id ∷ p else p)
      → (if b then tail q else q) ≡ p
  pop-push true id p q e = ap tail e
  pop-push false id p q e = e

  scope-step :
      (id : ℕ) (st : Status) (s t : State W P)
      → IsScopeKept (enter_scope host def id s) t
      → IsScopeKept s (leave_scope host def id st s.current_node (finalize host def id t))
  unfolding leave_scope
  scope-step id st s t h = record {
    node =
        when-node (track_node_path host def) tail
          (record (report_exit host def id st (finalize host def id t)) {
            current_node = s.current_node;
          });
    path =
        leave-path id st s.current_node (finalize host def id t)
        ∙ pop-push (track_node_path host def) id s.node_path _
            (finalize-path id t ∙ h.path ∙ enter-path id s);
  }

  scope-IsPrimitive : IsPrimitive {W = W} {P = P} (λ _. Unit) IsScopeKept
  scope-IsPrimitive = record {
    here = unchanged;
    after = λ s t u p q. record { node = q.node ∙ p.node; path = q.path ∙ p.path };
    wrote = λ id q m s. record { node = refl; path = refl };
    moved = λ w s. record { node = refl; path = refl };
    warned = λ id s. record { node = refl; path = refl };
    traced = λ ev p s. record { node = refl; path = refl };
    logged = λ l s. record { node = refl; path = refl };
    sent = λ ev s. record { node = refl; path = refl };
  }

  trivial-IsKept : IsKept host def (λ _ _. Unit)
  trivial-IsKept =
      primitive-IsKept host def (λ _. Unit) _ trivial-IsPrimitive (λ id. tt) λ id st s t p. tt

  scope-IsKept : IsKept host def IsScopeKept
  scope-IsKept =
      primitive-IsKept host def (λ _. Unit) IsScopeKept scope-IsPrimitive (λ id. tt) scope-step

module _ {W P : Type 0} (host : Host W P) (def : Definition) (numbered : IsNumbered def.nodes) where
  -- With fuel above its id, a node of a definition whose children have smaller ids than their parents
  -- returns a status, or a callback's exception that is no `std::exception` goes through.
  pub tick_node-returns :
      (fuel id : ℕ)
      → id < length def.nodes
      → id < fuel
      → (s : State W P)
      → ((st : Status) × (t : State W P) × (tick_node host def fuel id s ≡ ok (st, t)))
        ⊎ (tick_node host def fuel id s ≡ err foreign_exception)
  tick_node-returns fuel id h lt s =
      outcome refl (tick_node-Keeps host def numbered _ (trivial-IsKept host def) fuel id h lt s)

  -- In a definition whose nodes have their indices for ids, smaller ids for children and the shapes of
  -- their kinds, as those of a compiled definition do, and with fuel above the id of the node, a tick of
  -- a node that returns leaves the current node and the path of nodes as they were. A loaded definition
  -- need not be such a one.
  pub tick_node-IsScopeKept :
      (fuel id : ℕ)
      → id < length def.nodes
      → id < fuel
      → (s : State W P) (st : Status) (t : State W P) → tick_node host def fuel id s ≡ ok (st, t)
      → IsScopeKept s t
  tick_node-IsScopeKept fuel id h lt s st t e =
      Safe-ok e (tick_node-Keeps host def numbered _ (scope-IsKept host def) fuel id h lt s)

-- Every tick of the root of a compiled tree of at most 2 ^ 32 nodes ends, whatever the callbacks do
-- and from whatever state: it returns a status, or lets an exception through that is no
-- `std::exception`. In particular no node id and no child index is out of range, and no loop of
-- the halting goes on forever. The fuel that the recursion needs is the number of nodes.
pub compile_definition-tick_node :
    {W P : Type 0} (host : Host W P) (form : Value) (def : Definition)
    → compile_definition form ≡ ok def
    → length def.nodes ≤ 2 ^ 32
    → (fuel : ℕ) → length def.nodes ≤ fuel
    → (s : State W P)
    → ((st : Status) × (t : State W P) × (tick_node host def fuel def.root s ≡ ok (st, t)))
      ⊎ (tick_node host def fuel def.root s ≡ err foreign_exception)
compile_definition-tick_node host form def e fits fuel enough s =
    let (numbered, last) = compile_definition-IsNumbered form def e fits in
    tick_node-returns host def numbered fuel def.root (omega (arith, last))
      (omega (arith, last, enough)) s
