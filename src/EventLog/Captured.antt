-- ===== src/EventLog/Captured.antt =====
-- The statistics of captured events.
use muesli_bt.Common.{
  ℕ, suc, ◌+◌, ◌%◌, ◌^◌, ◌≡◌, refl, ◌∙◌, ap, Bool, true, ◌==◌, Option, Text, length, Result, ok,
  if◌then◌else◌, if-true,
}
use muesli_bt.EventLog.Line.{EventFields, serialise_event_line, serialise_event_line_size}
use muesli_bt.EventLog.Size.{serialise_event_line_size-length}
use muesli_bt.EventLog.State.{EventLog}
use muesli_bt.EventLog.Emit.{
  Outside, Fault, append_ring_line, step_time, capture, event_fields, emit_fields, emit,
}
use muesli_bt.EventLog.Quiet.{either, ap-if, quiet-emit_fields}

pub record Statistics : Type 0 where
  pub is_on : Bool
  pub event_count : ℕ
  pub byte_count : ℕ

abbrev pub stats : EventLog → Statistics
stats s = record {
  is_on = s.capture_stats_enabled;
  event_count = s.captured_event_count;
  byte_count = s.captured_byte_count;
}

-- An event of `size` bytes.
abbrev pub counted : ℕ → Statistics → Statistics
counted size s =
    if s.is_on
    then record s {
      event_count = suc s.event_count % 2 ^ 64;
      byte_count = (s.byte_count + size) % 2 ^ 64;
    }
    else s

stats-append_ring_line : (line : Text) (s : EventLog) → stats (append_ring_line line s) ≡ stats s
unfolding append_ring_line
stats-append_ring_line line s = either stats (s.ring_capacity == 0) refl refl

stats-capture : (size : ℕ) (s : EventLog) → stats (capture size s) ≡ counted size (stats s)
unfolding capture
stats-capture size s = ap-if stats s.capture_stats_enabled _ s

stats-step_time : (s : EventLog) → stats (step_time s) ≡ stats s
unfolding step_time
stats-step_time s = either stats s.deterministic_time_enabled refl refl

stats-emit_fields :
    (o : Outside) (e : EventFields) (s : EventLog)
    → stats ((emit_fields o e s).0) ≡ counted (length (serialise_event_line e)) (stats s)
stats-emit_fields o e s =
    let size = length (serialise_event_line e) in
    quiet-emit_fields stats (λ s is_open p w hd hk. refl) o e s
      (λ t same. stats-append_ring_line _ _ ∙ stats-capture size t ∙ ap (counted size) same)
      (λ t same h.
        stats-capture (serialise_event_line_size e) t
        ∙ ap (counted (serialise_event_line_size e)) same
        ∙ ap (λ n. counted n (stats s)) (serialise_event_line_size-length e))

-- An event of an enabled log counts as one event and as many bytes as its line has, modulo 2 ^ 64, if
-- statistics are captured, and else as nothing, whether or not its line is made.
pub emit-captured :
    (o : Outside) (type_name : Text) (tick : Option ℕ) (data_json : Text) (s : EventLog)
    → s.enabled ≡ true
    → stats ((emit o type_name tick data_json s).0)
      ≡ counted
          (length (
            serialise_event_line (
              event_fields o type_name tick data_json
                (suc s.seq % 2 ^ 64)
                (record s { seq = suc s.seq % 2 ^ 64 }))))
          (stats s)
unfolding emit
emit-captured o type_name tick data_json s h =
    let t : EventLog = record s { seq = suc s.seq % 2 ^ 64 } in
    let fields = event_fields o type_name tick data_json t.seq t in
    ap (λ (r : EventLog × Result Fault ℕ). stats r.0)
      (if-true s.enabled (emit_fields o fields (step_time t)) (t, ok t.seq) h)
    ∙ stats-emit_fields o fields (step_time t)
    ∙ ap (counted (length (serialise_event_line fields))) (stats-step_time t)
