-- ===== src/Runtime/State.antt =====
-- The state that a tick works on: `instance` and `tick_context` (include/bt/instance.hpp,
-- include/bt/runtime.hpp), what the tick emits, and the callbacks.
--
-- `W` is all that callbacks and services keep: the blackboard, the robot, the scheduler, the planner.
-- `P` is the type of the `std::any` payload of a node's memory. Clocks and durations are left out.
-- The trace is the bounded buffer that `resolve_trace_buffer` gives, whose events stand without their
-- tick and time. `log` and `events` are what was given to the logger and to the event log, whose own
-- buffers are modelled apart.
use muesli_bt.Common.{
  ℕ, ◌≡◌, refl, Bool, true, false, Option, none, some, List, [], ◌∷◌, ◌==◌, if◌then◌else◌, ℤ, pos,
  Text, Result, ok, err, bind,
}
use muesli_bt.Ast.{Node, Definition}
use muesli_bt.Ast
use muesli_bt.Runtime.Status.{Status, JobStatus}
use muesli_bt.Ring.{Ring, push}

-- How a callback ends. `threw` is a `std::exception` with its `what()`; `threw_other` is any other.
pub data Called (A : Type 0) : Type 0 where
  returned : A → Called A
  threw : Text → Called A
  threw_other : Called A

pub record Memory (P : Type 0) : Type 0 where
  pub i0 : ℤ
  pub i1 : ℤ
  pub b0 : Bool
  pub payload : Option P

-- `node_memory{}`
abbrev pub fresh : {P : Type 0} → Memory P
fresh = record { i0 = pos 0; i1 = pos 0; b0 = false; payload = none }

-- The kinds of trace events that callbacks and services emit, through `bb_put`, `bb_get`,
-- `scheduler_event` and `emit_trace`. They are taken to emit no entries and exits of nodes.
pub data OutsideKind : Type 0 where
  bb_write bb_read : OutsideKind
  scheduler_submit scheduler_start scheduler_finish scheduler_cancel : OutsideKind
  warning error : OutsideKind

-- `outside` is an event of a callback or a service, with its node.
pub data TraceEvent : Type 0 where
  node_enter : ℕ → TraceEvent
  node_exit : ℕ → Status → TraceEvent
  node_halt : ℕ → Text → TraceEvent
  node_preempt : ℕ → ℕ → Text → TraceEvent
  scheduler_cancel : ℕ → ℕ → TraceEvent
  warning : ℕ → Text → TraceEvent
  error : ℕ → Text → TraceEvent
  outside : OutsideKind → ℕ → TraceEvent

pub data LogLevel : Type 0 where
  debug info warn error : LogLevel

pub record LogRecord : Type 0 where
  pub level : LogLevel
  pub node : ℕ
  pub category : Text
  pub message : Text

-- The canonical events of `mbt.evt.v1`, before they are written as JSON. `outside` is an event of a
-- callback or a service: its type and its data.
pub data Event : Type 0 where
  node_enter : ℕ → Event
  node_exit : ℕ → Status → Event
  node_status : ℕ → Status → Event
  error : LogLevel → Text → ℕ → Text → Event
  sched_cancel : ℕ → Event
  outside : Text → Text → Event

pub record Returns : Type 0 where
  pub successes : ℕ
  pub failures : ℕ
  pub runnings : ℕ

-- What a callback or a service leaves: the world, and what it emitted, each in the order of time.
pub record Effects (W : Type 0) : Type 0 where
  pub world : W
  pub traced : List (OutsideKind × ℕ)
  pub logged : List LogRecord
  pub sent : List (Text × Text)

-- `services` and the registry, which no tick changes.
pub record Host (W P : Type 0) : Type 0 where
  pub trace_enabled : Bool
  pub has_logger : Bool
  pub has_events : Bool
  pub tick_audit : Bool
  pub has_scheduler : Bool
  pub get_info : ℕ → W → JobStatus
  pub cancel : ℕ → W → Bool × W
  pub find_condition : Text → Option (List Ast.ArgValue → W → Called Bool × Effects W)
  pub find_action :
      Text → Option (ℕ → Memory P → List Ast.ArgValue → W → Called Status × Memory P × Effects W)
  pub find_action_halt : Text → Option (ℕ → Memory P → W → Called (Unit {0}) × Memory P × Effects W)
  pub execute_plan_action : Node → W → Called Status × Effects W
  pub execute_vla_request : Node → W → Called Status × Effects W
  pub execute_vla_wait : Node → W → Called Status × Effects W
  pub execute_vla_cancel : Node → W → Called Status × Effects W

-- Newest first in `log` and `events`. `node_path` has the current node at its head.
pub record State (W P : Type 0) : Type 0 where
  pub world : W
  pub memory : ℕ → Option (Memory P)
  pub halt_warning_emitted : ℕ → Bool
  pub node_stats : ℕ → Returns
  pub current_node : ℕ
  pub node_path : List ℕ
  pub last_node_path : List ℕ
  pub terminal_node : Option ℕ
  pub trace : Ring TraceEvent
  pub log : List LogRecord
  pub events : List Event

-- What ends a tick before its status is known: `get_node` on a bad id, a read of a child that is not
-- there (undefined in C++), an exception that is no `std::exception`, and the fuel of the model.
pub data Fault : Type 0 where
  invalid_node_id no_such_child foreign_exception out_of_fuel : Fault

abbrev pub M : Type 0 → Type 0 → Type 0
M S A = S → Result Fault (A × S)

module _ {S : Type 0} where
  infixl 5 ◌>>=◌ ◌>>◌
  abbrev pub ◌>>=◌ : {A B : Type 0} → M S A → (A → M S B) → M S B
  ◌>>=◌ m f s = bind (m s) λ (a, s'). f a s'

  abbrev pub ◌>>◌ : {B : Type 0} → M S (Unit {0}) → M S B → M S B
  m >> k = m >>= λ _. k

  abbrev pub pure : {A : Type 0} → A → M S A
  pure a s = ok (a, s)

  abbrev pub fault : {A : Type 0} → Fault → M S A
  fault e s = err e

  abbrev pub modify : (S → S) → M S (Unit {0})
  modify f s = ok (tt, f s)

  abbrev pub when : Bool → (S → S) → S → S
  when b f s = if b then f s else s

-- What a conditional step keeps.
pub same :
    {S X : Type 0} (F : S → X) (b : Bool) (t s : S) → F t ≡ F s → F (if b then t else s) ≡ F s
same F true t s e = e
same F false t s e = refl

abbrev pub update {ℓ} : {A : Type ℓ} → (ℕ → A) → ℕ → A → ℕ → A
update f k a i = if i == k then a else f i

abbrev pub memory_or_fresh : {P : Type 0} → Option (Memory P) → Memory P
memory_or_fresh none = fresh
memory_or_fresh (some m) = m

module _ {W P : Type 0} where
  -- `node_memory_for`: an entry that is missing is created.
  abbrev pub memory_at : ℕ → State W P → Memory P
  memory_at id s = memory_or_fresh (s.memory id)

  abbrev pub write_memory : ℕ → Memory P → State W P → State W P
  write_memory id m s = record s { memory = update s.memory id (some m) }

module _ {W P : Type 0} (host : Host W P) where
  unfoldable pub emit_trace : TraceEvent → State W P → State W P
  emit_trace ev = when host.trace_enabled λ s. record s { trace = push ev s.trace }

  unfoldable pub emit_event : Event → State W P → State W P
  emit_event ev = when host.has_events λ s. record s { events = ev ∷ s.events }

  -- `emit_log`. `category` is moved into the record before `emit_event_error` reads it, and a string
  -- that was moved from is empty in the implementations of the standard library.
  unfoldable pub emit_log : LogLevel → Text → Text → State W P → State W P
  unfolding emit_event
  emit_log level category message = when host.has_logger λ s.
      emit_event (Event.error level [] s.current_node message) (record s {
        log =
            record { level = level; node = s.current_node; category = category; message = message }
            ∷ s.log;
      })

  -- What a callback or a service emitted.
  abbrev pub emit_traced : List (OutsideKind × ℕ) → State W P → State W P
  emit_traced [] s = s
  emit_traced ((kind, node) ∷ evs) s = emit_traced evs (emit_trace (TraceEvent.outside kind node) s)

  abbrev pub emit_logged : List LogRecord → State W P → State W P
  emit_logged [] s = s
  emit_logged (l ∷ ls) s =
      emit_logged ls (when host.has_logger (λ t. record t { log = l ∷ t.log }) s)

  abbrev pub emit_sent : List (Text × Text) → State W P → State W P
  emit_sent [] s = s
  emit_sent ((type_name, text) ∷ evs) s =
      emit_sent evs (emit_event (Event.outside type_name text) s)

  -- The state after a callback or a service. Nothing of the tick reads what it emits, so all of it is
  -- emitted when it ends.
  unfoldable pub absorb : Effects W → State W P → State W P
  unfolding emit_trace emit_event
  absorb e s =
      emit_sent e.sent (emit_logged e.logged (emit_traced e.traced (record s { world = e.world })))
