-- ===== src/EventLog/Emit.antt =====
-- `event_log::emit` (src/bt/event_log.cpp) and what it calls. The clock and the outcomes of the calls of
-- the file system are the argument `Outside`.
use muesli_bt.Common.{
  ℕ, suc, ◌+◌, ◌%◌, ◌^◌, Bool, true, false, ◌&&◌, ◌||◌, not, Option, none, some, [], ◌∷◌, ◌++◌,
  length, drop, if◌then◌else◌, ◌==◌, Text, codes, text_eq, ℤ, ◌+ℤ◌, Result, ok, err,
}
use muesli_bt.EventLog.Line.{EventFields, serialise_event_line, serialise_event_line_size}
use muesli_bt.EventLog.State.{EventLog, call_hook}

-- The clock, whether directories could be created, and whether the file was opened, written and
-- flushed.
pub record Outside : Type 0 where
  pub unix_ms_now : ℤ
  pub made_directories : Bool
  pub opened : Bool
  pub wrote : Bool
  pub flushed : Bool

-- The exception of `create_directories`.
pub data Fault : Type 0 where
  filesystem_error : Fault

abbrev pub is_set : Option ℕ → Bool
is_set none = false
is_set (some _) = true

unfoldable pub append_ring_line : Text → EventLog → EventLog
append_ring_line line s = if s.ring_capacity == 0 then s else record s {
  ring = (if length s.ring == s.ring_capacity then drop 1 s.ring else s.ring) ++ line ∷ [];
}

-- `has_parent_path` of a path in the POSIX format.
abbrev pub has_parent_path : Text → Bool
has_parent_path [] = false
has_parent_path (c ∷ path) = (c == b'/') || has_parent_path path

unfoldable pub close_failed : EventLog → EventLog
close_failed s = record s { file_is_open = false; open_path = [] }

-- How the first half of `append_file_line` ends.
pub data Opening : Type 0 where
  ready : EventLog → Opening
  not_opened : EventLog → Opening
  threw : EventLog → Opening

unfoldable pub open_file : Outside → EventLog → Opening
unfolding close_failed
open_file o s =
    if s.file_is_open && text_eq s.open_path s.path
    then ready s
    else let s = record s { file_is_open = false } in
      if has_parent_path s.path && not o.made_directories
      then threw s
      else if o.opened
      then ready (record s { file_is_open = true; open_path = s.path })
      else not_opened (close_failed s)

-- What a write that fails leaves in the file is not described.
unfoldable pub write_file : Outside → Text → Bool → EventLog → EventLog
unfolding close_failed
write_file o line flush_now s =
    if o.wrote
    then (let s = record s { written = (s.open_path, line ++ b'\n' ∷ []) ∷ s.written } in
        if flush_now && not o.flushed then close_failed s else s)
    else close_failed s

unfoldable pub write_opened : Outside → Text → Bool → Opening → EventLog × Result Fault (Unit {0})
unfolding write_file
write_opened o line flush_now (ready s) = (write_file o line flush_now s, ok tt)
write_opened o line flush_now (not_opened s) = (s, ok tt)
write_opened o line flush_now (threw s) = (s, err filesystem_error)

unfoldable pub append_file_line :
    Outside → Text → Bool → EventLog → EventLog × Result Fault (Unit {0})
unfolding write_opened open_file
append_file_line o line flush_now s = write_opened o line flush_now (open_file o s)

unfoldable pub hear : Option ℕ → Text → EventLog → EventLog
hear none line s = s
hear (some listener) line s = record s { heard = (listener, line) ∷ s.heard }

-- The end of `emit`: the listener, the hook of the scope, and the number returned.
unfoldable pub finish : Text → ℕ → EventLog × Result Fault (Unit {0}) → EventLog × Result Fault ℕ
unfolding hear call_hook
finish line number (s, ok _) =
    (call_hook s.allocation_whitelist_leave (hear s.line_listener line s), ok number)
finish line number (s, err e) = (call_hook s.allocation_whitelist_leave s, err e)

unfoldable pub step_time : EventLog → EventLog
step_time s =
    if s.deterministic_time_enabled
    then record s { deterministic_unix_ms = s.deterministic_unix_ms +ℤ s.deterministic_step_ms }
    else s

unfoldable pub capture : ℕ → EventLog → EventLog
capture size s =
    if s.capture_stats_enabled
    then record s {
      captured_event_count = suc s.captured_event_count % 2 ^ 64;
      captured_byte_count = (s.captured_byte_count + size) % 2 ^ 64;
    }
    else s

unfoldable pub event_fields : Outside → Text → Option ℕ → Text → ℕ → EventLog → EventFields
event_fields o type_name tick data_json number s = record {
  type_name = type_name;
  run_id = s.run_id;
  unix_ms = if s.deterministic_time_enabled then s.deterministic_unix_ms else o.unix_ms_now;
  seq = number;
  tick = tick;
  data_json = data_json;
}

unfoldable pub needs_serialised_line : EventLog → Bool
needs_serialised_line s = s.file_enabled || (not (s.ring_capacity == 0) || is_set s.line_listener)

unfoldable pub flush_now : Text → EventLog → Bool
flush_now type_name s =
    s.flush_each_message || (not s.flush_on_tick_end || text_eq type_name (codes "tick_end"))

unfoldable pub deliver : Outside → Text → Text → EventLog → EventLog × Result Fault (Unit {0})
unfolding append_ring_line append_file_line flush_now
deliver o type_name line s =
    if s.file_enabled
    then append_file_line o line (flush_now type_name s) (append_ring_line line s)
    else (append_ring_line line s, ok tt)

-- What follows the first section of `emit`, for the fields `e`.
unfoldable pub emit_fields : Outside → EventFields → EventLog → EventLog × Result Fault ℕ
unfolding finish deliver needs_serialised_line capture call_hook
emit_fields o e s =
    let s = call_hook s.allocation_whitelist_enter s in
    if needs_serialised_line s
    then (let line = serialise_event_line e in
        finish line e.seq (deliver o e.type_name line (capture (length line) s)))
    else finish [] e.seq (capture (serialise_event_line_size e) s, ok tt)

unfoldable pub emit : Outside → Text → Option ℕ → Text → EventLog → EventLog × Result Fault ℕ
unfolding emit_fields event_fields step_time
emit o type_name tick data_json s =
    let number = suc s.seq % 2 ^ 64 in
    let s = record s { seq = number } in
    if s.enabled
    then emit_fields o (event_fields o type_name tick data_json number s) (step_time s)
    else (s, ok number)
