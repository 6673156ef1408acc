-- ===== src/Runtime/Primitive.antt =====
-- The steps that a tick is made of, down to the fields they write.
use muesli_bt.Common.{
  ℕ, inl, inr, Bool, true, false, ◌&&◌, ◌||◌, not, Option-cases, List, [], ◌∷◌, if◌then◌else◌, Text,
}
use muesli_bt.Ast.{Node, Definition}
use muesli_bt.Ring.{push}
use muesli_bt.Runtime.Status.{Status}
use muesli_bt.Runtime.State.{
  Called, returned, threw, threw_other, Memory, fresh, TraceEvent, node_enter, node_exit, LogLevel,
  LogRecord, Event, OutsideKind, Effects, emit_traced, emit_logged, emit_sent, absorb, Host, State,
  update, memory_at, write_memory, emit_trace, emit_event, emit_log,
}
use muesli_bt.Runtime.Halt.{
  emit_unhaltable_warning_once, after_cancel, try_cancel_scheduler_leaf, after_halt_hook,
  run_halt_hook, cancel_unless, halt_act, halt_node, emit_node_preempt, job_of, is_act, has_entry,
  is_active,
}
use muesli_bt.Runtime.Tick.{enter_scope, leave_scope, finalize}
use muesli_bt.Runtime.Induction.{IsKept}

-- Every event but the two that a scope emits.
abbrev pub IsPoint : TraceEvent → Type 0
IsPoint (node_enter _) = ⊥
IsPoint (node_exit _ _) = ⊥
IsPoint _ = Unit

-- `Writable` tells the nodes whose memory is written.
pub record IsPrimitive {W P : Type 0} (Writable : ℕ → Type 0) (R : State W P → State W P → Type 0)
    : Type 0 where
  pub here : (s : State W P) → R s s
  pub after : (s t u : State W P) → R s t → R t u → R s u
  pub wrote : (id : ℕ) → Writable id → (m : Memory P) (s : State W P) → R s (write_memory id m s)
  pub moved : (w : W) (s : State W P) → R s (record s { world = w })
  pub warned :
      (id : ℕ) (s : State W P)
      → R s (record s { halt_warning_emitted = update s.halt_warning_emitted id true })
  pub traced :
      (ev : TraceEvent) → IsPoint ev → (s : State W P) → R s (record s { trace = push ev s.trace })
  pub logged : (l : LogRecord) (s : State W P) → R s (record s { log = l ∷ s.log })
  pub sent : (ev : Event) (s : State W P) → R s (record s { events = ev ∷ s.events })

module _ {W P : Type 0} (host : Host W P) (def : Definition) (Writable : ℕ → Type 0)
    (R : State W P → State W P → Type 0) (k : IsPrimitive Writable R) where
  when-kept : (b : Bool) (t s : State W P) → R s t → R s (if b then t else s)
  when-kept true t s h = h
  when-kept false t s h = k.here s

  emit_trace-kept : (ev : TraceEvent) → IsPoint ev → (s : State W P) → R s (emit_trace host ev s)
  unfolding emit_trace
  emit_trace-kept ev p s = when-kept host.trace_enabled _ s (k.traced ev p s)

  emit_event-kept : (ev : Event) (s : State W P) → R s (emit_event host ev s)
  unfolding emit_event
  emit_event-kept ev s = when-kept host.has_events _ s (k.sent ev s)

  emit_log-kept :
      (l : LogLevel) (c message : Text) (s : State W P) → R s (emit_log host l c message s)
  unfolding emit_log
  emit_log-kept l c message s =
      when-kept host.has_logger _ s (k.after _ _ _ (k.logged _ s) (emit_event-kept _ _))

  traced-kept : (evs : List (OutsideKind × ℕ)) (s : State W P) → R s (emit_traced host evs s)
  traced-kept [] s = k.here s
  traced-kept ((kind, node) ∷ evs) s = k.after _ _ _ (emit_trace-kept _ tt s) (traced-kept evs _)

  logged-kept : (ls : List LogRecord) (s : State W P) → R s (emit_logged host ls s)
  logged-kept [] s = k.here s
  logged-kept (l ∷ ls) s =
      k.after _ _ _ (when-kept host.has_logger _ s (k.logged l s)) (logged-kept ls _)

  sent-kept : (evs : List (Text × Text)) (s : State W P) → R s (emit_sent host evs s)
  sent-kept [] s = k.here s
  sent-kept ((type_name, text) ∷ evs) s = k.after _ _ _ (emit_event-kept _ s) (sent-kept evs _)

  absorb-kept : (e : Effects W) (s : State W P) → R s (absorb host e s)
  unfolding absorb
  absorb-kept e s = k.after _ _ _ (k.moved e.world s) (
      k.after _ _ _ (traced-kept e.traced _)
        (k.after _ _ _ (logged-kept e.logged _) (sent-kept e.sent _)))

  warning-kept :
      (id : ℕ) (message : Text) (s : State W P)
      → R s (emit_unhaltable_warning_once host def id message s)
  unfolding emit_unhaltable_warning_once
  warning-kept id message s =
      when-kept
        ((host.trace_enabled || (host.has_logger || host.has_events))
          && not (s.halt_warning_emitted id))
        _ s
        (k.after _ _ _ (k.warned id s)
          (k.after _ _ _ (emit_trace-kept _ tt _) (emit_log-kept _ _ message _)))

  after_cancel-kept :
      (id : ℕ) (q : Writable id) (reason : Text) (jid : ℕ) (answer : Bool × W) (s : State W P)
      → R s (after_cancel host def id reason jid answer s).1
  unfolding after_cancel
  after_cancel-kept id q reason jid (false, w) s = k.moved w s
  after_cancel-kept id q reason jid (true, w) s = k.after _ _ _ (k.moved w s) (
      k.after _ _ _ (emit_trace-kept _ tt _) (
        k.after _ _ _ (emit_log-kept _ _ _ _)
          (k.after _ _ _ (emit_event-kept _ _) (k.wrote id q _ _))))

  choose-kept :
      (b : Bool) (x y : Bool × State W P) (s : State W P)
      → R s x.1
      → R s y.1
      → R s (if b then x else y).1
  choose-kept true x y s p q = p
  choose-kept false x y s p q = q

  try_cancel-kept :
      (id : ℕ) (q : Writable id) (reason : Text) (s : State W P)
      → R s (try_cancel_scheduler_leaf host def id reason s).1
  unfolding try_cancel_scheduler_leaf
  try_cancel-kept id q reason s = elim (Option-cases (job_of host def (memory_at id s).i0)) [
    | inl e ↦ rw (e, try_cancel_scheduler_leaf) (k.here s)
    | inr (jid, e) ↦
        rw (e, try_cancel_scheduler_leaf)
          (choose-kept
            (host.has_scheduler
              && ((memory_at id s).b0 && is_active host def (host.get_info jid s.world)))
            (after_cancel host def id reason jid (host.cancel jid s.world) s) (false, s) s
            (after_cancel-kept id q reason jid (host.cancel jid s.world) s) (k.here s))
  ]

  after_hook-kept :
      (id : ℕ) (q : Writable id) (out : Called (Unit {0}) × Memory P × Effects W) (s : State W P)
      → R s (after_halt_hook host def id out s).1
  unfolding after_halt_hook
  after_hook-kept id q (returned _, mem, w) s = k.after _ _ _ (absorb-kept w s) (k.wrote id q mem _)
  after_hook-kept id q (threw what, mem, w) s =
      k.after _ _ _ (absorb-kept w s) (k.after _ _ _ (k.wrote id q mem _) (warning-kept id _ _))
  after_hook-kept id q (threw_other, mem, w) s =
      k.after _ _ _ (absorb-kept w s) (k.after _ _ _ (k.wrote id q mem _) (warning-kept id _ _))

  run_halt_hook-kept :
      (n : Node) (id : ℕ) (q : Writable id) (s : State W P) → R s (run_halt_hook host def n id s).1
  unfolding run_halt_hook
  run_halt_hook-kept n id q s = elim (Option-cases (host.find_action_halt n.leaf_name)) [
    | inl e ↦ rw (e, run_halt_hook) (k.here s)
    | inr (fn, e) ↦ rw (e, run_halt_hook) (after_hook-kept id q (fn id (memory_at id s) s.world) s)
  ]

  cancel_unless-kept :
      (hooked : Bool) (id : ℕ) (q : Writable id) (reason : Text) (s : State W P)
      → R s (cancel_unless host def hooked id reason s).1
  unfolding cancel_unless
  cancel_unless-kept true id q reason s = k.here s
  cancel_unless-kept false id q reason s = try_cancel-kept id q reason s

  pub halt_act-kept :
      (n : Node) (id : ℕ) (q : Writable id) (reason : Text) (s : State W P)
      → R s (halt_act host def n id reason s)
  unfolding halt_act
  halt_act-kept n id q reason s =
      let hook = run_halt_hook host def n id s in
      let cancelled = cancel_unless host def hook.0 id reason hook.1 in
      k.after _ _ _ (run_halt_hook-kept n id q s) (
        k.after _ _ _ (cancel_unless-kept hook.0 id q reason hook.1) (
          when-kept (not cancelled.0 && (memory_at id cancelled.1).b0) _ cancelled.1
            (warning-kept id _ _)))

  pub halt_node-kept :
      (n : Node) (id : ℕ) (q : Writable id) (reason : Text) (s : State W P)
      → R s (halt_node host def n id reason s)
  unfolding halt_node
  halt_node-kept n id q reason s =
      let s₁ = emit_trace host (TraceEvent.node_halt id reason) s in
      k.after _ _ _ (emit_trace-kept _ tt s) (
        when-kept (has_entry host def (s₁.memory id)) _ s₁ (
          k.after _ _ _ (when-kept (is_act host def n.kind) _ s₁ (halt_act-kept n id q reason s₁))
            (k.wrote id q fresh _)))

  pub primitive-IsKept :
      ((id : ℕ) → Writable id)
      → ((id : ℕ) (st : Status) (s t : State W P)
          → R (enter_scope host def id s) t
          → R s (leave_scope host def id st s.current_node (finalize host def id t)))
      → IsKept host def R
  unfolding emit_node_preempt
  primitive-IsKept all_writable scoped = record {
    here = k.here;
    after = k.after;
    wrote = λ id. k.wrote id (all_writable id);
    absorbed = absorb-kept;
    traced = λ id message s. emit_trace-kept _ tt s;
    logged = emit_log-kept;
    halted = λ n id. halt_node-kept n id (all_writable id);
    preempted = λ a b reason s. emit_trace-kept _ tt s;
    scoped = scoped;
  }
