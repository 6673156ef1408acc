-- ===== src/EventLog/State.antt =====
-- The state of an event log (include/bt/event_log.hpp) and the operations that set it
-- (src/bt/event_log.cpp). What listeners and hooks are told, and the lines that are written to files,
-- are kept in the order in which it happens, newest first. Listeners and hooks are told apart by
-- numbers; they do not call the log. A `double` is its 64-bit pattern.
use muesli_bt.Common.{
  ℕ, ◌-◌, Bool, true, false, ◌&&◌, not, Option, none, some, List, [], ◌∷◌, length, drop,
  if◌then◌else◌, ltb, leb, ◌==◌, Text, codes, text_eq, is_empty, ℤ, pos, Result, ok, require, ◌>>◌,
}

pub record EventLog : Type 0 where
  pub enabled : Bool
  pub file_enabled : Bool
  pub flush_on_tick_end : Bool
  pub flush_each_message : Bool
  pub tick_audit_enabled : Bool
  pub tick_audit_warmup_complete : Bool
  pub tick_audit_strict_allocations : Bool
  pub run_started : Bool
  pub ring_capacity : ℕ
  pub ring : List Text
  pub path : Text
  pub open_path : Text
  pub run_id : Text
  pub seq : ℕ
  pub tick_hz : ℕ
  pub git_sha : Text
  pub host_name : Text
  pub host_version : Text
  pub host_platform : Text
  pub line_listener : Option ℕ
  pub deterministic_time_enabled : Bool
  pub deterministic_unix_ms : ℤ
  pub deterministic_step_ms : ℤ
  pub capture_stats_enabled : Bool
  pub captured_event_count : ℕ
  pub captured_byte_count : ℕ
  pub file_is_open : Bool
  pub allocation_whitelist_enter : Option ℕ
  pub allocation_whitelist_leave : Option ℕ
  pub snapshot_bb_requested : Bool
  pub snapshot_bb_full : Bool
  pub written : List (Text × Text)
  pub heard : List (ℕ × Text)
  pub hooked : List ℕ

abbrev pub new_event_log : ℕ → EventLog
new_event_log capacity = record {
  enabled = true;
  file_enabled = false;
  flush_on_tick_end = true;
  flush_each_message = false;
  tick_audit_enabled = false;
  tick_audit_warmup_complete = true;
  tick_audit_strict_allocations = false;
  run_started = false;
  ring_capacity = capacity;
  ring = [];
  path = codes "logs/run.jsonl";
  open_path = [];
  run_id = codes "run-0";
  seq = 0;
  tick_hz = 0x4049_0000_0000_0000;
  git_sha = codes "unknown";
  host_name = codes "muesli-bt";
  host_version = codes "dev";
  host_platform = codes "unknown";
  line_listener = none;
  deterministic_time_enabled = false;
  deterministic_unix_ms = pos 0;
  deterministic_step_ms = pos 1;
  capture_stats_enabled = false;
  captured_event_count = 0;
  captured_byte_count = 0;
  file_is_open = false;
  allocation_whitelist_enter = none;
  allocation_whitelist_leave = none;
  snapshot_bb_requested = false;
  snapshot_bb_full = false;
  written = [];
  heard = [];
  hooked = [];
}

unfoldable pub set_ring_capacity : ℕ → EventLog → EventLog
set_ring_capacity capacity s =
    let s = record s { ring_capacity = capacity } in
    if capacity == 0
    then record s { ring = [] }
    else if ltb capacity (length s.ring)
    then record s { ring = drop (length s.ring - capacity) s.ring }
    else s

-- Both flush, which changes no part of the state, and close the file.
unfoldable pub close_other : EventLog → EventLog
close_other s =
    if s.file_is_open && not (text_eq s.open_path s.path)
    then record s { file_is_open = false; open_path = [] }
    else s

unfoldable pub set_path : Text → EventLog → Result Text EventLog
unfolding close_other
set_path path s =
    require (not (is_empty path)) (codes "events.set-path: path must not be empty")
    >> ok (close_other (record s { path = path }))

unfoldable pub set_file_enabled : Bool → EventLog → EventLog
set_file_enabled enabled s =
    let s = record s { file_enabled = enabled } in
    if enabled then s else record s { file_is_open = false; open_path = [] }

unfoldable pub set_run_id : Text → EventLog → Result Text EventLog
set_run_id run_id s =
    require (not (is_empty run_id)) (codes "set_run_id: run_id must not be empty")
    >> ok (record s { run_id = run_id; seq = 0; run_started = false })

-- `hz > 0.0`: the patterns from the least positive number to infinity.
abbrev pub is_positive : ℕ → Bool
is_positive hz = ltb 0 hz && leb hz 0x7FF0_0000_0000_0000

unfoldable pub set_tick_hz : ℕ → EventLog → EventLog
set_tick_hz hz s = if is_positive hz then record s { tick_hz = hz } else s

unfoldable pub set_git_sha : Text → EventLog → EventLog
set_git_sha sha s = record s { git_sha = if is_empty sha then codes "unknown" else sha }

unfoldable pub set_host_info : Text → Text → Text → EventLog → EventLog
set_host_info name version platform s = record s {
  host_name = if is_empty name then s.host_name else name;
  host_version = if is_empty version then s.host_version else version;
  host_platform = if is_empty platform then s.host_platform else platform;
}

unfoldable pub set_deterministic_time : ℤ → ℤ → EventLog → EventLog
set_deterministic_time start step s = record s {
  deterministic_time_enabled = true;
  deterministic_unix_ms = start;
  deterministic_step_ms = step;
}

unfoldable pub clear_deterministic_time : EventLog → EventLog
clear_deterministic_time s = record s {
  deterministic_time_enabled = false;
  deterministic_unix_ms = pos 0;
  deterministic_step_ms = pos 1;
}

unfoldable pub clear_capture_stats : EventLog → EventLog
clear_capture_stats s = record s { captured_event_count = 0; captured_byte_count = 0 }

unfoldable pub set_allocation_whitelist_hooks : Option ℕ → Option ℕ → EventLog → EventLog
set_allocation_whitelist_hooks enter leave s = record s {
  allocation_whitelist_enter = enter;
  allocation_whitelist_leave = leave;
}

unfoldable pub call_hook : Option ℕ → EventLog → EventLog
call_hook none s = s
call_hook (some hook) s = record s { hooked = hook ∷ s.hooked }

-- All lines for 0.
unfoldable pub snapshot : ℕ → EventLog → List Text
snapshot max_count s =
    if max_count == 0
    then s.ring
    else if leb (length s.ring) max_count
    then s.ring
    else drop (length s.ring - max_count) s.ring

unfoldable pub clear_ring : EventLog → EventLog
clear_ring s = record s { ring = [] }

unfoldable pub request_snapshot_bb : Bool → EventLog → EventLog
request_snapshot_bb full s = record s { snapshot_bb_requested = true; snapshot_bb_full = full }

-- Whether a snapshot was requested, whether it is to be full, and the state left.
unfoldable pub consume_snapshot_bb_request : EventLog → (Bool × Bool) × EventLog
consume_snapshot_bb_request s =
    if s.snapshot_bb_requested
    then ((true, s.snapshot_bb_full), record s { snapshot_bb_requested = false })
    else ((false, false), s)
