-- ===== src/Lib.antt =====
-- The core of muesli-bt, a runtime of behaviour trees with a Lisp front end.
--
-- A tree is written as a Lisp form. The compiler turns the form into a definition: a list of nodes in
-- which a node's id is its index and its children are ids. A definition can be saved to a file and
-- loaded, and the loader validates what it reads. The runtime ticks the root of a definition: composite
-- nodes tick their children and keep indices in the memory of the instance, leaves call the registered
-- callbacks or the services, and children that are left running are halted. Ticks are traced and
-- logged in bounded buffers, and long work is given to the jobs of a thread pool.
--
-- Which file models what (paths from the repository's root):
--   Ast                 include/bt/ast.hpp: `NodeKind`, `ArgValue`, `Node`, `Definition`
--   Value               src/value.cpp: `list_from_vector`, `vector_from_list`
--   Compiler            src/bt/compiler.cpp: `compile_node` and what it calls. The nodes emitted so far
--                       are a state that is passed on. Forms that are compiled alike are one `Form`.
--   Compiler/Numbering  the ids of a compiled definition
--   Compiler/Accepted   what `validate_definition` says of one
--   Binary/Validate     src/bt/serialisation.cpp: `validate_definition`
--   Binary/Dot          the same file: `export_definition_dot`
--   Binary/Bytes, Save, Load
--                       the same file: the bytes of numbers and strings, `save_definition_binary` and
--                       `load_definition_binary`. A file is the list of its bytes.
--   Runtime/State, Halt, Composite, Tick
--                       src/bt/runtime.cpp: the state of a tick, `halt_subtree_impl`, the composites
--                       and decorators, `tick_node` with its `node_scope`
--   Runtime/Induction, Primitive
--                       what a whole tick keeps if its steps keep it; Scopes, Traces use it
--   Scheduler           src/bt/scheduler.cpp, src/bt/profile.cpp: `thread_pool_scheduler`. `Step` has a
--                       constructor for each section that runs under the mutex; the threads are the
--                       order of the steps.
--   EventLog/Json, Line src/bt/event_log.cpp: texts and numbers in JSON, `serialise_event_line` and its
--                       size, with the version of include/muesli_bt/contract/version.hpp
--   EventLog/State, Emit, Hash, Started
--                       the same file: the state with its setters, `emit`, the hashes and names, and
--                       `ensure_run_started` and `emit_bt_def`
--   EventLog/Operations what may be done to a log, for what holds after any of it: Sound and Runs
--   EventLog/Quiet, Core
--                       what `emit` leaves as it is, and what it does to the rest; Ring, Captured and
--                       Once use them. Quoted, Size and OneLine are about the texts.
--   Maps                maps with text keys
--   Blackboard/Entries  src/bt/blackboard.cpp: `blackboard`, and the texts of its values
--   Blackboard/Access   src/bt/runtime.cpp: `bb_put` and `bb_get` of a `tick_context`; Writes is about
--                       what they leave
--   Blackboard/Snapshots
--                       the events at the beginning of `tick` there, with a snapshot asked for
--   Registry            src/bt/registry.cpp
--   Scope, Scope/Lookup src/env.cpp: `make_env`, `define`, `lookup`
--   Lisp/Printer, Reader
--                       src/printer.cpp, src/reader.cpp; Digits and Tokens are about how integers,
--                       tokens and strings are read, Layout and RoundTrip about values, Enough
--                       about the fuel, Integers about numbers in and out of range
--   Gc/Heap, Collector, Names
--                       src/gc.cpp: marking and sweeping of a list of nodes, the collector with its
--                       counters, policies and roots, and the names
--   Gc/Marking, Sweeping, Collection, Steps, Ticks
--                       what is marked, what is swept, what a collection leaves, the states that a
--                       collector comes to, and what happens within a tick
--   Ring                src/bt/trace.cpp, src/bt/logging.cpp: `trace_buffer`, `memory_log_sink`
--   Common              results, lists and integers over the native numbers, texts as lists of codes
--   Examples            a small tree, a log, a blackboard, a heap and texts, and the theorems
--                       applied to them
--
-- Callbacks, planner and vla services, with `execute_plan_action` and the three `execute_vla_...` of
-- src/bt/runtime.cpp, are functions of a `Host`. They see a world `W` that they may change, which holds
-- the blackboard and the jobs, and an action its node's memory; what they emit to the trace, the logger
-- and the event log is a part of their result. That they emit no entries and exits of nodes, do not
-- reach into the memory of other nodes or the path of nodes, and do not tick the tree again, is part of
-- the model. An exception that is no `std::exception` ends the tick, and the state it leaves behind is
-- not described. The trace of a tick is the bounded buffer of Ring. Theorems that need the numbering
-- `IsNumbered` of a compiled definition say so: `validate_definition` does not give it, so that a loaded
-- definition may lack it.
--
-- The event log is used by one thread at a time. Its clock, the outcomes of its file operations and the
-- listeners, which do not call it, are arguments or numbers; what is written and heard is kept in order.
-- The collector's nodes have addresses, and what a node marks and its size are its fields; the program
-- may write to them between the collector's operations.
--
-- Bounds and fuel. A node id is taken modulo 2 ^ 32, as the `std::uint32_t` is; theorems on compiled
-- trees say where they need at most 2 ^ 32 nodes. `tick_node` recurses on fuel, and the number of nodes
-- is enough on a compiled tree; the loop of a halt has the size of the subtree for fuel. A `double` is
-- its 64-bit pattern. Marking has fuel for the nodes of the heap, and looking up a name for the
-- environments, which is enough where parents are older than their children. The reader has fuel for
-- twice the bytes of its source, which is always enough. `++` on an `int64_t` and the 64-bit counters do
-- not reach their limits.
--
-- Not modelled: clocks and durations in a tick, the texts of the events of a tick but for those of the
-- blackboard and of its beginning, `tick` with its deadline, the runtime host, the planner, the vla and
-- model services, the Lisp evaluator and its built-ins. The numerical search of the planner is in
-- floating point, and much of the rest does input and output.
pub mod Common
pub mod Ast
pub mod Value
pub mod Compiler
pub mod Binary
pub mod Runtime
pub mod Scheduler
pub mod Ring
pub mod EventLog
pub mod Maps
pub mod Blackboard
pub mod Registry
pub mod Scope
pub mod Gc
pub mod Lisp
pub mod Examples
