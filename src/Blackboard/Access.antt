-- ===== src/Blackboard/Access.antt =====
-- How a tick reads and writes the blackboard: `tick_context::bb_put` and `tick_context::bb_get`
-- (src/bt/runtime.cpp), with the trace and the event log that they write to.
use muesli_bt.Common.{
  ℕ, Bool, Option, none, some, [], ◌++◌, ◌==◌, if◌then◌else◌, Text, codes, to_string, ℤ, Result, ok,
  err,
}
use muesli_bt.Ring.{Ring, push}
use muesli_bt.EventLog.Json.{json_escape}
use muesli_bt.EventLog.Hash.{hash64_hex}
use muesli_bt.EventLog.State.{EventLog}
use muesli_bt.EventLog.Emit.{Outside, Fault, emit}
use muesli_bt.Blackboard.Entries.{
  BbValue, BbEntry, Blackboard, get, put, bb_value_repr, bb_value_json, bb_preview_json,
}

-- The trace events of the blackboard.
pub data Access : Type 0 where
  bb_write bb_read : Access

pub record AccessEvent : Type 0 where
  pub kind : Access
  pub tick_index : ℕ
  pub node : ℕ
  pub key : Text
  pub value_repr : Text

-- The parts of the instance and of the services that the accesses use.
pub record TickContext : Type 0 where
  pub bb : Blackboard
  pub trace : Ring AccessEvent
  pub trace_enabled : Bool
  pub read_trace_enabled : Bool
  pub events : Option EventLog
  pub tick_index : ℕ
  pub current_node : ℕ

unfoldable pub emit_access : AccessEvent → TickContext → TickContext
unfolding push
emit_access ev ctx = if ctx.trace_enabled then record ctx { trace = push ev ctx.trace } else ctx

-- Node 0 is not named.
abbrev pub source_node : ℕ → Text
source_node n = if n == 0 then [] else codes ",\"source_node\":" ++ to_string n

abbrev pub with_events :
    EventLog × Result Fault ℕ → TickContext → TickContext × Result Fault (Unit {0})
with_events (log, ok _) ctx = (record ctx { events = some log }, ok tt)
with_events (log, err e) ctx = (record ctx { events = some log }, err e)

module _ (show : ℕ → Text) where
  abbrev pub write_type : BbValue → Text
  write_type BbValue.nil = codes "bb_delete"
  write_type _ = codes "bb_write"

  -- What the event of a write says.
  unfoldable pub write_data : Text → BbValue → ℕ → Text
  write_data key BbValue.nil node =
      codes "{\"key\":\"" ++ json_escape key ++ codes "\"" ++ source_node node ++ codes "}"
  write_data key value node =
      codes "{\"key\":\""
      ++ json_escape key
      ++ codes "\","
      ++ codes "\"value_digest\":\""
      ++ hash64_hex (bb_value_json show value)
      ++ codes "\","
      ++ codes "\"preview\":"
      ++ bb_preview_json show value
      ++ source_node node
      ++ codes "}"

  abbrev pub report_write :
      Outside
      → Text
      → BbValue
      → Option EventLog
      → TickContext
      → TickContext × Result Fault (Unit {0})
  report_write o key value none ctx = (ctx, ok tt)
  report_write o key value (some log) ctx =
      with_events
        (emit o (write_type value) (some ctx.tick_index) (write_data key value ctx.current_node)
          log)
        ctx

  -- The part of `bb_put` before the event log. `ts` is the time of the clock.
  unfoldable pub store : ℤ → Text → BbValue → Text → TickContext → TickContext
  unfolding put emit_access
  store ts key value writer_name ctx =
      emit_access
        (record {
          kind = Access.bb_write;
          tick_index = ctx.tick_index;
          node = ctx.current_node;
          key = key;
          value_repr = bb_value_repr show value;
        })
        (record ctx { bb = put key value ctx.tick_index ts ctx.current_node writer_name ctx.bb })

  unfoldable pub bb_put :
      Outside → ℤ → Text → BbValue → Text → TickContext → TickContext × Result Fault (Unit {0})
  unfolding store
  bb_put o ts key value writer_name ctx =
      let ctx = store ts key value writer_name ctx in report_write o key value ctx.events ctx

  abbrev pub repr_of : Option BbEntry → Text
  repr_of none = codes "<missing>"
  repr_of (some entry) = bb_value_repr show entry.value

  unfoldable pub bb_get : Text → TickContext → Option BbEntry × TickContext
  unfolding get emit_access
  bb_get key ctx =
      let out = get key ctx.bb in
      (
        out,
        if ctx.read_trace_enabled
            then emit_access
                (record {
                  kind = Access.bb_read;
                  tick_index = ctx.tick_index;
                  node = ctx.current_node;
                  key = key;
                  value_repr = repr_of out;
                })
                ctx
            else ctx,
      )
