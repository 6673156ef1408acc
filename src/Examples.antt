-- ===== src/Examples.antt =====
-- Tests on small trees, and the theorems applied to them.
mod Logs
mod Heaps
mod Texts
use muesli_bt.Common.{
  ℕ, suc, ◌≡◌, refl, true, false, none, some, List, [], ◌∷◌, ◌++◌, length, All, ℤ, pos, codes,
  text_eq, if◌then◌else◌, Text, ◌+◌, ◌≤◌, ◌↔◌, ◌==◌, ◌^◌, Result, ok, err, bind, ◌⊎◌, leb, arith,
}
use muesli_bt.Ast.{NodeKind, ArgValue, Node, Definition}
use muesli_bt.Value.{Value, list_from_vector, vector_from_list, vector_from_list-list_from_vector}
use muesli_bt.Compiler.{
  compile_definition, compile_node, compile_form, compile_children, compile_tail, compile_arg,
  form_of,
}
use muesli_bt.Compiler.Numbers.{IsNumbered}
use muesli_bt.Compiler.Numbering.{compile_definition-IsNumbered}
use muesli_bt.Compiler.Accepted.{all_named, validate-compile}
use muesli_bt.Binary.Validate.{
  unnamed_leaf, validate_definition, check_nodes, check_node, check_children, check_shape,
}
use muesli_bt.Binary.Bytes.{Bytes}
use muesli_bt.Binary.Save.{save_definition_binary}
use muesli_bt.Binary.Load.{load_definition_binary}
use muesli_bt.Binary.RoundTrip.{IsStorable, stored, load-save}
use muesli_bt.Binary.Meaning.{IsValid, validate_definition_iff, load_definition_binary-IsValid}
use muesli_bt.Runtime.Status.{Status, success, failure, running, JobStatus}
use muesli_bt.Runtime.State.{
  Effects, OutsideKind, returned, TraceEvent, node_enter, node_exit, Returns, Host, State, Fault,
  foreign_exception, M, memory_at,
}
use muesli_bt.Runtime.Halt.{halt_subtree_impl, subtree_size, get_node}
use muesli_bt.Runtime.Composite.{
  clamp_child_index, tick_seq, tick_sel, tick_mem_seq, tick_reactive_seq, tick_reactive_sel,
  tick_retry, tick_repeat,
}
use muesli_bt.Runtime.Tick.{call_condition, call_action, tick_node}
use muesli_bt.Runtime.Scopes.{IsScopeKept, tick_node-IsScopeKept, compile_definition-tick_node}
use muesli_bt.Runtime.Cleared.{IsBelow, cleared, halt_subtree_impl-memory}
use muesli_bt.Runtime.Sequences.{
  inverted, EndsWith, Stopped, tick_sel-inverted, tick_seq_iff, tick_mem_seq-resumes,
}
use muesli_bt.Runtime.Reactive.{Remembers, tick_reactive_seq-Remembers, tick_reactive_sel-Remembers}
use muesli_bt.Runtime.Counters.{ticked, tick_retry-failures, tick_repeat-successes}
use muesli_bt.Ring.{new_ring, push, push_all, snapshot, last_of, numbered_from, push_all-last}
use muesli_bt.Scheduler.{
  Job, queued_job, add_job, Pool, submit, cancel, take_from, submits, cancels, takes, Steps,
  no_steps, step, empty_pool,
}
use muesli_bt.Scheduler.Counted.{IsCounted}
use muesli_bt.Scheduler.Accounting.{Steps-IsCounted}
use muesli_bt.Scheduler.Ended.{Steps-ended}

abbrev word : Text → Value
word t = Value.symbol t

-- (sel (cond "ready") (act "work" 3))
abbrev form : Value
form = list_from_vector (
    word (codes "sel")
    ∷ list_from_vector (word (codes "cond") ∷ word (codes "ready") ∷ [])
    ∷ list_from_vector (word (codes "act") ∷ word (codes "work") ∷ Value.integer (pos 3) ∷ [])
    ∷ [])

abbrev leaf : NodeKind → ℕ → Text → List ArgValue → Node
leaf kind id name args = record {
  kind = kind;
  id = id;
  children = [];
  leaf_name = name;
  args = args;
  int_param = pos 0;
}

abbrev ready : Node
ready = leaf NodeKind.cond 0 (codes "ready") []

abbrev work : Node
work = leaf NodeKind.act 1 (codes "work") (ArgValue.integer (pos 3) ∷ [])

abbrev choice : Node
choice = record {
  kind = NodeKind.sel;
  id = 2;
  children = 0 ∷ 1 ∷ [];
  leaf_name = [];
  args = [];
  int_param = pos 0;
}

abbrev tree : Definition
tree = record {
  nodes = ready ∷ work ∷ choice ∷ [];
  root = 2;
  source_hash = [];
  canonical_dsl_hash = [];
  canonical_dsl = [];
}

-- It compiles to the tree.
form-tree : compile_definition form ≡ ok tree
unfolding compile_definition compile_node compile_children compile_tail compile_form form_of
    list_from_vector vector_from_list compile_arg
form-tree = refl

-- What a call leaves that emitted nothing.
abbrev silent : ℕ → Effects ℕ
silent w = record { world = w; traced = []; logged = []; sent = [] }

-- A world that counts the calls. `ready` is false, and `work` writes to the blackboard and is running.
abbrev host : Host ℕ ℕ
host = record {
  trace_enabled = true;
  has_logger = true;
  has_events = true;
  tick_audit = true;
  has_scheduler = false;
  get_info = λ job w. JobStatus.unknown;
  cancel = λ job w. (false, w);
  find_condition = λ name.
      if text_eq name (codes "ready")
      then some (λ args w. (returned false, silent (suc w)))
      else none;
  find_action = λ name.
      if text_eq name (codes "work")
      then some (λ id mem args w. (
        returned running,
        record mem { b0 = true },
        record (silent (suc w)) { traced = (OutsideKind.bb_write, id) ∷ [] },
      ))
      else none;
  find_action_halt = λ name. none;
  execute_plan_action = λ n w. (returned failure, silent w);
  execute_vla_request = λ n w. (returned failure, silent w);
  execute_vla_wait = λ n w. (returned failure, silent w);
  execute_vla_cancel = λ n w. (returned failure, silent w);
}

abbrev no_returns : Returns
no_returns = record { successes = 0; failures = 0; runnings = 0 }

abbrev start : State ℕ ℕ
start = record {
  world = 0;
  memory = λ id. none;
  halt_warning_emitted = λ id. false;
  node_stats = λ id. no_returns;
  current_node = 0;
  node_path = [];
  last_node_path = [];
  terminal_node = none;
  trace = new_ring 3;
  log = [];
  events = [];
}

abbrev ended : Result Fault (Status × State ℕ ℕ) → State ℕ ℕ
ended (ok (st, s)) = s
ended (err e) = start

abbrev after_tick : State ℕ ℕ
after_tick = ended (tick_node host tree 3 2 start)

-- The last three of its events are left in the trace.
trace_left :
    snapshot after_tick.trace
    ≡ (5, TraceEvent.outside OutsideKind.bb_write 1)
      ∷ (6, node_exit 1 running)
      ∷ (7, node_exit 2 running)
      ∷ []
unfolding snapshot tick_node get_node tick_sel call_condition call_action push
trace_left = refl

-- The tick is running.
tick_runs : tick_node host tree 3 2 start ≡ ok (running, after_tick)
unfolding tick_node get_node tick_sel call_condition call_action
tick_runs = refl

few : length tree.nodes ≤ 2 ^ 32
few = omega arith

compile_definition-tick_node_example :
    ((st : Status) × (t : State ℕ ℕ) × (tick_node host tree 3 tree.root start ≡ ok (st, t)))
    ⊎ (tick_node host tree 3 tree.root start ≡ err foreign_exception)
compile_definition-tick_node_example =
    compile_definition-tick_node host form tree form-tree few 3 (omega arith) start

compile_definition-IsNumbered_example : IsNumbered tree.nodes × (suc tree.root ≡ length tree.nodes)
compile_definition-IsNumbered_example = compile_definition-IsNumbered form tree form-tree few

numbered : IsNumbered tree.nodes
numbered = (compile_definition-IsNumbered form tree form-tree few).0

tick_node-IsScopeKept_example : IsScopeKept start after_tick
tick_node-IsScopeKept_example =
    tick_node-IsScopeKept host tree numbered 3 2 (omega arith) (omega arith) start running
      after_tick tick_runs

validate-compile_example :
    validate_definition tree ≡ (if all_named tree.nodes then ok tt else err unnamed_leaf)
validate-compile_example = validate-compile form tree form-tree few

tree_valid : validate_definition tree ≡ ok tt
unfolding validate_definition check_nodes check_node check_children check_shape
tree_valid = refl

validate_definition_iff_example : (validate_definition tree ≡ ok tt) ↔ IsValid tree
validate_definition_iff_example = validate_definition_iff tree

ready-IsStorable : IsStorable ready
ready-IsStorable = record {
  children_u32 = tt;
  children_few = omega arith;
  name_short = omega arith;
  args_storable = tt;
  args_few = omega arith;
  int_i64 = omega arith;
}

work-IsStorable : IsStorable work
work-IsStorable = record {
  children_u32 = tt;
  children_few = omega arith;
  name_short = omega arith;
  args_storable = (omega arith, tt);
  args_few = omega arith;
  int_i64 = omega arith;
}

choice-IsStorable : IsStorable choice
choice-IsStorable = record {
  children_u32 = (omega arith, (omega arith, tt));
  children_few = omega arith;
  name_short = omega arith;
  args_storable = tt;
  args_few = omega arith;
  int_i64 = omega arith;
}

storable : All IsStorable tree.nodes
storable = (ready-IsStorable, (work-IsStorable, (choice-IsStorable, tt)))

load-save_example :
    (bytes : Bytes) × (save_definition_binary tree ≡ ok bytes)
    × (load_definition_binary bytes ≡ ok (stored tree))
load-save_example = load-save tree tree_valid (omega arith) storable

load_definition_binary-IsValid_example : IsValid (stored tree)
load_definition_binary-IsValid_example =
    load_definition_binary-IsValid load-save_example.0 (stored tree) load-save_example.2

vector_from_list-list_from_vector_example :
    vector_from_list (list_from_vector (word (codes "a") ∷ Value.nil ∷ []))
    ≡ ok (word (codes "a") ∷ Value.nil ∷ [])
vector_from_list-list_from_vector_example =
    vector_from_list-list_from_vector (word (codes "a") ∷ Value.nil ∷ [])

abbrev after_halt : State ℕ ℕ
after_halt = halted (halt_subtree_impl host tree (codes "halt") 2 after_tick)
  where
    halted : Result Fault (Unit {0} × State ℕ ℕ) → State ℕ ℕ
    halted (ok (x, s)) = s
    halted (err e) = start

tree_halts : halt_subtree_impl host tree (codes "halt") 2 after_tick ≡ ok (tt, after_halt)
unfolding halt_subtree_impl subtree_size get_node
tree_halts = refl

halt_subtree_impl-memory_example :
    (IsBelow tree 1 (2 ∷ []) → after_halt.memory 1 ≡ cleared (after_tick.memory 1))
    × (¬ IsBelow tree 1 (2 ∷ []) → after_halt.memory 1 ≡ after_tick.memory 1)
halt_subtree_impl-memory_example =
    halt_subtree_impl-memory host tree (codes "halt") 2 after_tick after_halt tree_halts 1

-- A node with two children, of which the first returns `first` and the second is running.
abbrev parent : NodeKind → ℤ → Node
parent kind limit = record {
  kind = kind;
  id = 2;
  children = 0 ∷ 1 ∷ [];
  leaf_name = [];
  args = [];
  int_param = limit;
}

abbrev ticks : Status → ℕ → M (State ℕ ℕ) Status
ticks first c s = ok (if c == 0 then first else running, s)

tick_sel-inverted_example :
    tick_sel host tree (ticks failure) (0 ∷ 1 ∷ []) start
    ≡ inverted (tick_seq host tree (λ c t. inverted (ticks failure c t)) (0 ∷ 1 ∷ []) start)
tick_sel-inverted_example = tick_sel-inverted host tree (ticks failure) (0 ∷ 1 ∷ []) start

tick_seq_iff_example :
    (tick_seq host tree (ticks success) (0 ∷ 1 ∷ 2 ∷ []) start ≡ ok (running, start))
    ↔ EndsWith host tree (ticks success) (0 ∷ 1 ∷ 2 ∷ []) start running start
tick_seq_iff_example = tick_seq_iff host tree (ticks success) (0 ∷ 1 ∷ 2 ∷ []) start running start

abbrev after_mem_seq : State ℕ ℕ
after_mem_seq =
    ended (tick_mem_seq host tree (ticks success) (parent NodeKind.mem_seq (pos 0)) start)

mem_seq_runs :
    tick_mem_seq host tree (ticks success) (parent NodeKind.mem_seq (pos 0)) start
    ≡ ok (running, after_mem_seq)
unfolding tick_mem_seq
mem_seq_runs = refl

running≢success : ¬ (running ≡ success)
running≢success e = cc

tick_mem_seq-resumes_example :
    Stopped host tree
      (ticks success)
      (0 ∷ 1 ∷ [])
      (clamp_child_index (parent NodeKind.mem_seq (pos 0)) (memory_at 2 after_mem_seq).i0)
      running
tick_mem_seq-resumes_example =
    tick_mem_seq-resumes host tree (ticks success) (parent NodeKind.mem_seq (pos 0)) start running
      after_mem_seq mem_seq_runs running≢success

abbrev after_reactive_seq : State ℕ ℕ
after_reactive_seq =
    ended (tick_reactive_seq host tree (ticks success) (parent NodeKind.reactive_seq (pos 0)) start)

reactive_seq_runs :
    tick_reactive_seq host tree (ticks success) (parent NodeKind.reactive_seq (pos 0)) start
    ≡ ok (running, after_reactive_seq)
unfolding tick_reactive_seq
reactive_seq_runs = refl

tick_reactive_seq-Remembers_example :
    Remembers host tree
      (ticks success)
      (parent NodeKind.reactive_seq (pos 0))
      running
      after_reactive_seq
tick_reactive_seq-Remembers_example =
    tick_reactive_seq-Remembers host tree (ticks success) (parent NodeKind.reactive_seq (pos 0))
      start running after_reactive_seq reactive_seq_runs

abbrev after_reactive_sel : State ℕ ℕ
after_reactive_sel =
    ended (tick_reactive_sel host tree (ticks failure) (parent NodeKind.reactive_sel (pos 0)) start)

reactive_sel_runs :
    tick_reactive_sel host tree (ticks failure) (parent NodeKind.reactive_sel (pos 0)) start
    ≡ ok (running, after_reactive_sel)
unfolding tick_reactive_sel
reactive_sel_runs = refl

tick_reactive_sel-Remembers_example :
    Remembers host tree
      (ticks failure)
      (parent NodeKind.reactive_sel (pos 0))
      running
      after_reactive_sel
tick_reactive_sel-Remembers_example =
    tick_reactive_sel-Remembers host tree (ticks failure) (parent NodeKind.reactive_sel (pos 0))
      start running after_reactive_sel reactive_sel_runs

tick_retry-failures_example :
    (t : State ℕ ℕ) × (ticked host tree
        (ticks failure)
        (tick_retry host tree (ticks failure) (parent NodeKind.retry (pos 2)))
        2
        start
      ≡ ok (if leb (1 + 2) 2 then running else failure, t))
    × ((memory_at 2 t).i0 ≡ pos (1 + 2))
tick_retry-failures_example =
    tick_retry-failures host tree (ticks failure) (parent NodeKind.retry (pos 2)) 2 0 2 start refl
      (0, 1 ∷ [], refl, λ s. (s, refl, refl)) refl

tick_repeat-successes_example :
    (t : State ℕ ℕ) × (ticked host tree
        (ticks success)
        (tick_repeat host tree (ticks success) (parent NodeKind.repeat (pos 2)))
        1
        start
      ≡ ok (if leb 2 (1 + 1) then success else running, t))
    × ((memory_at 2 t).i0 ≡ pos (1 + 1))
tick_repeat-successes_example =
    tick_repeat-successes host tree (ticks success) (parent NodeKind.repeat (pos 2)) 2 0 1 start
      refl (0, 1 ∷ [], refl, λ s. (s, refl, refl)) refl (omega arith)

-- A job is submitted, cancelled before it starts, and taken by a worker, which drops it.
abbrev submitted_pool : Pool ℕ ℕ
submitted_pool = add_job (queued_job 5 (codes "job") 7) empty_pool

abbrev cancelled_pool : Pool ℕ ℕ
cancelled_pool = (cancel 6 1 submitted_pool).1

abbrev drained_pool : Pool ℕ ℕ
drained_pool = (take_from 8 cancelled_pool.queue cancelled_pool).1

submitted : submit 5 (codes "job") (some 7) (empty_pool {F = ℕ} {A = ℕ}) ≡ ok (1, submitted_pool)
unfolding submit
submitted = refl

run : Steps (empty_pool {F = ℕ} {A = ℕ}) cancelled_pool
run =
    step (step no_steps (submits 5 (codes "job") 7 empty_pool submitted_pool 1 submitted))
      (cancels 6 1 submitted_pool)

Steps-IsCounted_example : IsCounted drained_pool
Steps-IsCounted_example = Steps-IsCounted (step run (takes 8 cancelled_pool))

abbrev cancelled_job : Job ℕ ℕ
cancelled_job = record (queued_job 5 (codes "job") 7) {
  status = JobStatus.cancelled;
  finished_at = 6;
  cancel_requested = true;
}

found : cancelled_pool.jobs 1 ≡ some cancelled_job
unfolding cancel
found = refl

Steps-ended_example : drained_pool.jobs 1 ≡ some cancelled_job
Steps-ended_example =
    Steps-ended 1 cancelled_job run (step no_steps (takes 8 cancelled_pool)) found tt

abbrev three : List ℕ
three = 7 ∷ 8 ∷ 9 ∷ []

push_all-last_example :
    (snapshot (push_all three (new_ring 2)) ≡ last_of 2 (numbered_from 0 three))
    × ((push_all three (new_ring 2)).sequence ≡ 3)
push_all-last_example = push_all-last 2 three
