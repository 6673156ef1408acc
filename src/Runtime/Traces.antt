-- ===== src/Runtime/Traces.antt =====
-- The trace of a tick: its scopes are bracketed, and the counters of the nodes agree with it.
use muesli_bt.Common.{ℕ, ◌≡◌, List, [], ◌∷◌, ◌++◌}
use muesli_bt.Ring.{Ring, push_all}
use muesli_bt.Runtime.Status.{Status}
use muesli_bt.Runtime.State.{TraceEvent, node_enter, node_exit, Returns, State, update}
use muesli_bt.Runtime.Tick.{count_return}
use muesli_bt.Runtime.Primitive.{IsPoint}

-- Events, oldest first, in which every exit of a node follows its entry and what happened between them
-- is closed.
pub data Nested : List TraceEvent → Type 0 where
  silent : Nested []
  point :
      (ev : TraceEvent) → IsPoint ev → {rest : List TraceEvent} → Nested rest → Nested (ev ∷ rest)
  scope :
      (id : ℕ) (st : Status) {inner rest : List TraceEvent}
      → Nested inner
      → Nested rest
      → Nested (node_enter id ∷ inner ++ node_exit id st ∷ rest)

-- What one scope around the events `inner` pushes.
abbrev pub one_scope : ℕ → Status → List TraceEvent → List TraceEvent
one_scope id st inner = node_enter id ∷ inner ++ node_exit id st ∷ []

-- The counters of the nodes, brought up to date with the exits among the events.
abbrev pub count_exits : List TraceEvent → (ℕ → Returns) → ℕ → Returns
count_exits [] f = f
count_exits (node_exit id st ∷ evs) f = count_exits evs (update f id (count_return st (f id)))
count_exits (_ ∷ evs) f = count_exits evs f

-- Events that are nested were pushed to the trace, and the counters grew by what they say.
pub record IsTraced {W P : Type 0} (s t : State W P) : Type 0 where
  pub added : List TraceEvent
  pub nested : Nested added
  pub trace : t.trace ≡ push_all added s.trace
  pub stats : t.node_stats ≡ count_exits added s.node_stats
