-- ===== src/Runtime/Tick.antt =====
-- `tick_node`: one node, with the scope that it opens.
use muesli_bt.Common.{
  ℕ, zero, suc, Bool, false, Option, none, some, List, ◌∷◌, ◌++◌, length, leb, if◌then◌else◌, Text,
  codes, Result, ok, bind,
}
use mathlib.Core.List.{tail}
use muesli_bt.Ast.{NodeKind, ArgValue, Node, Definition}
use muesli_bt.Runtime.Status.{Status, success, failure, running}
use muesli_bt.Runtime.State.{
  Called, returned, threw, threw_other, Memory, TraceEvent, LogLevel, Event, Returns, Host, State,
  Fault, foreign_exception, out_of_fuel, M, ◌>>◌, pure, fault, modify, when, update, memory_at,
  write_memory, emit_trace, emit_event, emit_log, Effects, absorb,
}
use muesli_bt.Runtime.Halt.{get_node}
use muesli_bt.Runtime.Composite.{
  tick_seq, tick_sel, tick_mem_seq, tick_mem_sel, tick_async_seq, tick_reactive_seq,
  tick_reactive_sel, tick_invert, tick_repeat, tick_retry,
}

abbrev pub count_return : Status → Returns → Returns
count_return success r = record r { successes = suc r.successes }
count_return failure r = record r { failures = suc r.failures }
count_return running r = record r { runnings = suc r.runnings }

module _ {W P : Type 0} (host : Host W P) (def : Definition) where
  abbrev pub track_node_path : Bool
  track_node_path = if host.has_events then host.tick_audit else false

  -- The constructor of `node_scope`.
  unfoldable pub enter_scope : ℕ → State W P → State W P
  enter_scope id s =
      let s₁ = record s { current_node = id } in
      let s₂ =
        when track_node_path (λ (t : State W P). record t { node_path = id ∷ t.node_path }) s₁ in
      emit_event host (Event.node_enter id) (emit_trace host (TraceEvent.node_enter id) s₂)

  -- What the destructor records of the status.
  unfoldable pub report_exit : ℕ → Status → State W P → State W P
  report_exit id st s =
      let s₁ = record s {
        node_stats = update s.node_stats id (count_return st (s.node_stats id));
      } in
      let s₂ = emit_trace host (TraceEvent.node_exit id st) s₁ in
      emit_event host (Event.node_status id st) (emit_event host (Event.node_exit id st) s₂)

  -- The destructor, with the node that was current before.
  unfoldable pub leave_scope : ℕ → Status → ℕ → State W P → State W P
  unfolding report_exit
  leave_scope id st prev s =
      when track_node_path (λ (t : State W P). record t { node_path = tail t.node_path })
        (record (report_exit id st s) { current_node = prev })

  -- `finalize`: the deepest path, and the last of those of its length, is kept.
  unfoldable pub finalize : ℕ → State W P → State W P
  finalize id s =
      if leb (length s.last_node_path) (length s.node_path)
      then record s { last_node_path = s.node_path; terminal_node = some id }
      else s

  -- A leaf's result. An exception is a failure, and is reported under `component`.
  unfoldable pub report : ℕ → Text → Text → State W P → State W P
  report id component message s =
      emit_log host LogLevel.error component message
        (emit_trace host (TraceEvent.error id message) s)

  unfoldable pub leaf_result : (Text → State W P → State W P) → Called Status → M (State W P) Status
  leaf_result on_throw (returned st) = pure st
  leaf_result on_throw (threw what) = do modify (on_throw what); pure failure
  leaf_result on_throw threw_other = fault foreign_exception

  abbrev pub of_bool : Called Bool → Called Status
  of_bool (returned b) = returned (if b then success else failure)
  of_bool (threw what) = threw what
  of_bool threw_other = threw_other

  unfoldable pub call_condition :
      Node → Option (List ArgValue → W → Called Bool × Effects W) → M (State W P) Status
  unfolding report leaf_result absorb
  call_condition n none s =
      ok (failure, report n.id (codes "bt") (codes "missing condition callback: " ++ n.leaf_name) s)
  call_condition n (some fn) s =
      let (out, w) = fn n.args s.world in
      leaf_result (λ what. report n.id (codes "bt") (codes "condition threw: " ++ what))
        (of_bool out) (absorb host w s)

  unfoldable pub tick_cond : Node → M (State W P) Status
  tick_cond n = call_condition n (host.find_condition n.leaf_name)

  unfoldable pub call_action :
      Node
      → Option (ℕ → Memory P → List ArgValue → W → Called Status × Memory P × Effects W)
      → M (State W P) Status
  unfolding report leaf_result absorb
  call_action n none s =
      ok (failure, report n.id (codes "bt") (codes "missing action callback: " ++ n.leaf_name) s)
  call_action n (some fn) s =
      let (out, mem, w) = fn n.id (memory_at n.id s) n.args s.world in
      leaf_result (λ what. report n.id (codes "bt") (codes "action threw: " ++ what)) out
        (write_memory n.id mem (absorb host w s))

  unfoldable pub tick_act : Node → M (State W P) Status
  tick_act n = call_action n (host.find_action n.leaf_name)

  -- `execute_plan_action` and the three `execute_vla_…`, which reach the services.
  unfoldable pub tick_service :
      (Text → State W P → State W P)
      → (Node → W → Called Status × Effects W)
      → Node
      → M (State W P) Status
  unfolding leaf_result absorb
  tick_service on_throw execute n s =
      let (out, w) = execute n s.world in leaf_result on_throw out (absorb host w s)

  abbrev pub plan_failed : Node → Text → State W P → State W P
  plan_failed n what = report n.id (codes "planner") (codes "plan-action failed: " ++ what)

  abbrev pub vla_failed : Text → Text → State W P → State W P
  vla_failed message what = emit_log host LogLevel.error (codes "vla") (message ++ what)

  -- The `switch` of `tick_node`.
  unfoldable pub tick_kind : (ℕ → M (State W P) Status) → NodeKind → Node → M (State W P) Status
  unfolding tick_cond tick_act tick_service report
  tick_kind tick NodeKind.seq n = tick_seq host def tick n.children
  tick_kind tick NodeKind.sel n = tick_sel host def tick n.children
  tick_kind tick NodeKind.mem_seq n = tick_mem_seq host def tick n
  tick_kind tick NodeKind.mem_sel n = tick_mem_sel host def tick n
  tick_kind tick NodeKind.async_seq n = tick_async_seq host def tick n
  tick_kind tick NodeKind.reactive_seq n = tick_reactive_seq host def tick n
  tick_kind tick NodeKind.reactive_sel n = tick_reactive_sel host def tick n
  tick_kind tick NodeKind.invert n = tick_invert host def tick n
  tick_kind tick NodeKind.repeat n = tick_repeat host def tick n
  tick_kind tick NodeKind.retry n = tick_retry host def tick n
  tick_kind tick NodeKind.cond n = tick_cond n
  tick_kind tick NodeKind.act n = tick_act n
  tick_kind tick NodeKind.plan_action n = tick_service (plan_failed n) host.execute_plan_action n
  tick_kind tick NodeKind.vla_request n =
      tick_service (vla_failed (codes "vla-request failed: ")) host.execute_vla_request n
  tick_kind tick NodeKind.vla_wait n =
      tick_service (vla_failed (codes "vla-wait failed: ")) host.execute_vla_wait n
  tick_kind tick NodeKind.vla_cancel n =
      tick_service (vla_failed (codes "vla-cancel failed: ")) host.execute_vla_cancel n
  tick_kind tick NodeKind.succeed n = pure success
  tick_kind tick NodeKind.fail n = pure failure
  tick_kind tick NodeKind.running n = pure running

  -- The end of the scope of `n`: `finalize` and the destructor.
  abbrev pub close : Node → ℕ → Status × State W P → Result Fault (Status × State W P)
  close n prev (st, s) = ok (st, leave_scope n.id st prev (finalize n.id s))

  abbrev pub scoped :
      (ℕ → M (State W P) Status) → Node × State W P → Result Fault (Status × State W P)
  scoped tick (n, s) = bind (tick_kind tick n.kind n (enter_scope n.id s)) (close n s.current_node)

  -- `tick_node`, for the recursion on the children given as a function.
  unfoldable pub tick_in_scope : (ℕ → M (State W P) Status) → ℕ → M (State W P) Status
  unfolding tick_kind enter_scope leave_scope finalize
  tick_in_scope tick id s = bind (get_node host def id s) (scoped tick)

  -- The depth of the recursion costs the fuel.
  unfoldable pub tick_node : ℕ → ℕ → M (State W P) Status
  unfolding tick_in_scope
  tick_node zero id = fault out_of_fuel
  tick_node (suc fuel) id = tick_in_scope (tick_node fuel) id
