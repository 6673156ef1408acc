-- ===== src/Examples/Logs.antt =====
-- An event log and a blackboard, and the theorems applied to them.
use muesli_bt.Common.{
  if◌then◌else◌, ok, ◌≤◌, ◌<◌, ◌^◌, ◌≡◌, refl, true, false, none, some, List, [], ◌∷◌, ◌++◌, length,
  pos, codes, Text, to_string, arith,
}
use muesli_bt.Ring.{last_of, new_ring}
use muesli_bt.EventLog.Json.{escaped, append_json_escaped, json_escape}
use muesli_bt.EventLog.Quoted.{
  byte, unit, read_json_string, all_covered, bytes, read_json_string-json_escape,
}
use muesli_bt.EventLog.Line.{EventFields, serialise_event_line, serialise_event_line_size}
use muesli_bt.EventLog.Size.{serialise_event_line_size-length}
use muesli_bt.EventLog.OneLine.{IsOneLine, one_line-IsOneLine, serialise_event_line-IsOneLine}
use muesli_bt.EventLog.State.{EventLog, new_event_log}
use muesli_bt.EventLog.Emit.{Outside, emit}
use muesli_bt.EventLog.Ring.{Emission, emit_all, lines_from, emit_all-last}
use muesli_bt.EventLog.Operations.{Operation, run}
use muesli_bt.EventLog.Sound.{IsSound}
use muesli_bt.EventLog.Runs.{run-IsSound}
use muesli_bt.Blackboard.Entries.{BbValue, bb_value_json, bb_preview_json}
use muesli_bt.Blackboard.Access.{TickContext, bb_get}
use muesli_bt.Blackboard.Writes.{Write, entry_of, write_all, bb_get-latest, length-bb_preview_json}
use muesli_bt.Blackboard.Snapshots.{
  Beginning, report_tick_begin, request, numbered, delivered, request-report_tick_begin,
}

abbrev outside : Outside
outside = record {
  unix_ms_now = pos 5;
  made_directories = true;
  opened = true;
  wrote = true;
  flushed = false;
}

abbrev emission : Text → Emission
emission type_name = record {
  outside = outside;
  type_name = type_name;
  tick = some 1;
  data_json = codes "{}";
}

-- Three events are more than the ring holds.
abbrev emissions : List Emission
emissions = emission (codes "a") ∷ emission (codes "b\"") ∷ emission (codes "tick_end") ∷ []

abbrev event_log : EventLog
event_log = record (new_event_log 2) {
  file_enabled = true;
  deterministic_time_enabled = true;
  deterministic_unix_ms = pos 7;
}

emit_all-last_example :
    (emit_all emissions event_log).ring
    ≡ last_of 2 ([] ++ lines_from (codes "run-0") true (pos 1) 0 (pos 7) emissions)
emit_all-last_example = emit_all-last emissions event_log refl (omega arith)

abbrev fields : EventFields
fields = record {
  type_name = codes "tick\n";
  run_id = codes "run-0";
  unix_ms = pos 7;
  seq = 12;
  tick = some 3;
  data_json = codes "{\"a\":1}";
}

serialise_event_line_size-length_example :
    serialise_event_line_size fields ≡ length (serialise_event_line fields)
serialise_event_line_size-length_example = serialise_event_line_size-length fields

serialise_event_line-IsOneLine_example : IsOneLine (serialise_event_line fields)
serialise_event_line-IsOneLine_example =
    serialise_event_line-IsOneLine fields (one_line-IsOneLine fields.data_json refl)

abbrev quoted : Text
quoted = codes "say \"a\\b\"\n"

-- The escapes that JSON has and `json_escape` does not write.
other_escapes :
    read_json_string (codes "\\/\\u00e9\"!") ≡ some (byte b'/' ∷ unit 0xE9 ∷ [], codes "!")
unfolding read_json_string
other_escapes = refl

-- A bell is written as it is, which the grammar does not allow.
bell : read_json_string (json_escape (7 ∷ []) ++ codes "\"") ≡ none
bell = read_json_string-json_escape [] (7 ∷ [])

read_json_string-json_escape_example :
    read_json_string (json_escape quoted ++ codes "\",\"x\":1")
    ≡ (if all_covered quoted then some (bytes quoted, codes ",\"x\":1") else none)
read_json_string-json_escape_example = read_json_string-json_escape (codes ",\"x\":1") quoted

abbrev operations : List Operation
operations =
    Operation.to_file_enabled true
    ∷ Operation.event outside (codes "a") none (codes "{}")
    ∷ Operation.to_path (codes "b.jsonl")
    ∷ Operation.to_ring_capacity 0
    ∷ []

run-IsSound_example : IsSound (run to_string operations (new_event_log 1))
run-IsSound_example = run-IsSound to_string 1 operations

abbrev context : TickContext
context = record {
  bb = [];
  trace = new_ring 4;
  trace_enabled = true;
  read_trace_enabled = true;
  events = some event_log;
  tick_index = 9;
  current_node = 2;
}

abbrev write : Text → BbValue → Write
write key value = record {
  outside = outside;
  ts = pos 3;
  key = key;
  value = value;
  writer_name = codes "leaf";
}

abbrev last_write : Write
last_write = write (codes "x") (BbValue.string (codes "far"))

abbrev writes : List Write
writes = write (codes "x") (BbValue.int64 (pos 1)) ∷ last_write ∷ write (codes "y") BbValue.nil ∷ []

bb_get-latest_example :
    (bb_get to_string (codes "x") (write_all to_string writes context)).0
    ≡ some (entry_of 9 2 last_write)
bb_get-latest_example = bb_get-latest to_string (codes "x") writes context

is_short : length (bb_value_json to_string (BbValue.string (codes "far"))) < 2 ^ 64
unfolding bb_value_json json_escape append_json_escaped escaped
is_short = omega arith

length-bb_preview_json_example :
    length (bb_preview_json to_string (BbValue.string (codes "far"))) ≤ 4096
length-bb_preview_json_example =
    length-bb_preview_json to_string (BbValue.string (codes "far")) is_short

-- A run that has started, in which a snapshot was requested.
abbrev requested : EventLog
requested = record event_log {
  run_started = true;
  file_enabled = false;
  snapshot_bb_requested = true;
}

abbrev beginning : Beginning
beginning = record { start = outside; begin = outside; snap = outside }

no_fault : (report_tick_begin to_string beginning [] 9 2_000_000 requested).1 ≡ ok tt
unfolding report_tick_begin emit
no_fault = refl

request-report_tick_begin_example :
    request ((report_tick_begin to_string beginning [] 9 2_000_000 requested).0)
    ≡ delivered (numbered (request requested))
request-report_tick_begin_example =
    request-report_tick_begin to_string beginning [] 9 2_000_000 requested refl no_fault
