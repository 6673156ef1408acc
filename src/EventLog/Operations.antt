-- ===== src/EventLog/Operations.antt =====
-- The operations of an event log that change its state, and their runs. An operation that throws leaves
-- the state as its function says, and the run goes on.
use muesli_bt.Common.{ℕ, Bool, Option, List, [], ◌∷◌, Text, ℤ, Result, ok, err}
use muesli_bt.Ast.{Definition}
use muesli_bt.EventLog.State.{
  EventLog, set_ring_capacity, set_path, set_file_enabled, set_run_id, set_tick_hz, set_git_sha,
  set_host_info, set_deterministic_time, clear_deterministic_time, clear_capture_stats,
  set_allocation_whitelist_hooks, call_hook, clear_ring, request_snapshot_bb,
  consume_snapshot_bb_request,
}
use muesli_bt.EventLog.Emit.{Outside, emit}
use muesli_bt.EventLog.Started.{ensure_run_started, emit_bt_def}

-- One constructor for each method that is not `const`, and for the whitelist's.
pub data Operation : Type 0 where
  to_enabled to_flush_on_tick_end to_flush_each_message to_tick_audit_enabled : Bool → Operation
  to_tick_audit_warmup_complete to_tick_audit_strict_allocations : Bool → Operation
  to_file_enabled to_capture_stats_enabled snapshot_request : Bool → Operation
  to_ring_capacity to_tick_hz : ℕ → Operation
  to_path to_run_id to_git_sha : Text → Operation
  to_host_info : Text → Text → Text → Operation
  to_line_listener : Option ℕ → Operation
  to_deterministic_time : ℤ → ℤ → Operation
  to_hooks : Option ℕ → Option ℕ → Operation
  no_deterministic_time no_capture_stats empty_ring snapshot_consumption : Operation
  whitelist_entry whitelist_exit : Operation
  event : Outside → Text → Option ℕ → Text → Operation
  run_start : Outside → Text → Text → Operation
  definition : Outside → Outside → Definition → Operation

abbrev pub or_same : EventLog → Result Text EventLog → EventLog
or_same s (ok t) = t
or_same s (err _) = s

module _ (show : ℕ → Text) where
  unfoldable pub apply : Operation → EventLog → EventLog
  unfolding set_ring_capacity set_path set_file_enabled set_run_id set_tick_hz set_git_sha
      set_host_info set_deterministic_time clear_deterministic_time clear_capture_stats
      set_allocation_whitelist_hooks call_hook clear_ring request_snapshot_bb
      consume_snapshot_bb_request ensure_run_started emit_bt_def
  apply (to_enabled b) s = record s { enabled = b }
  apply (to_flush_on_tick_end b) s = record s { flush_on_tick_end = b }
  apply (to_flush_each_message b) s = record s { flush_each_message = b }
  apply (to_tick_audit_enabled b) s = record s { tick_audit_enabled = b }
  apply (to_tick_audit_warmup_complete b) s = record s { tick_audit_warmup_complete = b }
  apply (to_tick_audit_strict_allocations b) s = record s { tick_audit_strict_allocations = b }
  apply (to_file_enabled b) s = set_file_enabled b s
  apply (to_capture_stats_enabled b) s = record s { capture_stats_enabled = b }
  apply (snapshot_request full) s = request_snapshot_bb full s
  apply (to_ring_capacity n) s = set_ring_capacity n s
  apply (to_tick_hz hz) s = set_tick_hz hz s
  apply (to_path path) s = or_same s (set_path path s)
  apply (to_run_id id) s = or_same s (set_run_id id s)
  apply (to_git_sha sha) s = set_git_sha sha s
  apply (to_host_info name version platform) s = set_host_info name version platform s
  apply (to_line_listener l) s = record s { line_listener = l }
  apply (to_deterministic_time start step) s = set_deterministic_time start step s
  apply (to_hooks enter leave) s = set_allocation_whitelist_hooks enter leave s
  apply no_deterministic_time s = clear_deterministic_time s
  apply no_capture_stats s = clear_capture_stats s
  apply empty_ring s = clear_ring s
  apply snapshot_consumption s = (consume_snapshot_bb_request s).1
  apply whitelist_entry s = call_hook s.allocation_whitelist_enter s
  apply whitelist_exit s = call_hook s.allocation_whitelist_leave s
  apply (event o type_name tick data_json) s = (emit o type_name tick data_json s).0
  apply (run_start o tree_hash capabilities) s =
      (ensure_run_started show o tree_hash capabilities s).0
  apply (definition o o' def) s = (emit_bt_def show o o' def s).0

  abbrev pub run : List Operation → EventLog → EventLog
  run [] s = s
  run (op ∷ ops) s = run ops (apply op s)
