-- ===== src/EventLog/Core.antt =====
-- What `emit` does to the parts of the log that decide what its ring holds.
use muesli_bt.Common.{
  ℕ, suc, ◌%◌, ◌^◌, ◌≡◌, refl, ◌∙◌, ap, Bool, true, false, Bool-cases, inl, inr, Option, List, [],
  ◌∷◌, ◌++◌, length, drop, ◌==◌, if◌then◌else◌, Text, ℤ, ◌+ℤ◌, Result, ok, if-true,
}
use muesli_bt.EventLog.Line.{EventFields, serialise_event_line}
use muesli_bt.EventLog.State.{EventLog}
use muesli_bt.EventLog.Emit.{
  Outside, Fault, append_ring_line, step_time, capture, event_fields, emit_fields, emit,
}
use muesli_bt.EventLog.Quiet.{either, quiet-emit_fields}

-- The parts of the log that decide what the ring holds.
pub record Core : Type 0 where
  pub enabled : Bool
  pub ring_capacity : ℕ
  pub ring : List Text
  pub run_id : Text
  pub seq : ℕ
  pub deterministic : Bool
  pub ms : ℤ
  pub step : ℤ

abbrev pub core : EventLog → Core
core s = record {
  enabled = s.enabled;
  ring_capacity = s.ring_capacity;
  ring = s.ring;
  run_id = s.run_id;
  seq = s.seq;
  deterministic = s.deterministic_time_enabled;
  ms = s.deterministic_unix_ms;
  step = s.deterministic_step_ms;
}

-- A line more in a ring.
abbrev pub pushed : ℕ → Text → List Text → List Text
pushed capacity line ring =
    if capacity == 0
    then ring
    else (if length ring == capacity then drop 1 ring else ring) ++ line ∷ []

abbrev pub push_core : Text → Core → Core
push_core line c = record c { ring = pushed c.ring_capacity line c.ring }

core-capture : (n : ℕ) (s : EventLog) → core (capture n s) ≡ core s
unfolding capture
core-capture n s = either core s.capture_stats_enabled refl refl

core-append_ring_line :
    (line : Text) (s : EventLog) → core (append_ring_line line s) ≡ push_core line (core s)
unfolding append_ring_line
core-append_ring_line line s = elim (Bool-cases (s.ring_capacity == 0)) [
  | inl e ↦ rw e refl
  | inr e ↦ rw e refl
]

no_room :
    (s : EventLog) (line : Text) → (s.ring_capacity == 0) ≡ true → core s ≡ push_core line (core s)
no_room s line h = rw h refl

core-emit_fields :
    (o : Outside) (e : EventFields) (s : EventLog)
    → core ((emit_fields o e s).0) ≡ push_core (serialise_event_line e) (core s)
core-emit_fields o e s =
    let line = serialise_event_line e in
    quiet-emit_fields core (λ s is_open p w hd hk. refl) o e s
      (λ t same.
        core-append_ring_line line _ ∙ ap (push_core line) (core-capture (length line) t ∙ same))
      (λ t same h. core-capture _ t ∙ no_room t line h ∙ ap (push_core line) same)

abbrev pub ticked : Core → Core
ticked c = record c { ms = if c.deterministic then c.ms +ℤ c.step else c.ms }

core-step_time : (s : EventLog) → core (step_time s) ≡ ticked (core s)
unfolding step_time
core-step_time s = elim (Bool-cases s.deterministic_time_enabled) [
  | inl e ↦ rw e refl
  | inr e ↦ rw e refl
]

-- The line of an event in this state, numbered.
abbrev pub line_in : Outside → Text → Option ℕ → Text → Core → Text
line_in o type_name tick data_json c = serialise_event_line (record {
  type_name = type_name;
  run_id = c.run_id;
  unix_ms = if c.deterministic then c.ms else o.unix_ms_now;
  seq = c.seq;
  tick = tick;
  data_json = data_json;
})

abbrev pub numbered : Core → Core
numbered c = record c { seq = suc c.seq % 2 ^ 64 }

-- An event of a log that is enabled.
pub core-emit :
    (o : Outside) (type_name : Text) (tick : Option ℕ) (data_json : Text) (s : EventLog)
    → s.enabled ≡ true
    → core ((emit o type_name tick data_json s).0)
      ≡ push_core
          (line_in o type_name tick data_json (numbered (core s)))
          (ticked (numbered (core s)))
unfolding emit event_fields
core-emit o type_name tick data_json s h =
    let t : EventLog = record s { seq = suc s.seq % 2 ^ 64 } in
    let fields = event_fields o type_name tick data_json t.seq t in
    ap (λ (r : EventLog × Result Fault ℕ). core r.0)
      (if-true s.enabled (emit_fields o fields (step_time t)) (t, ok t.seq) h)
    ∙ (core-emit_fields o fields (step_time t)
        ∙ ap (push_core (line_in o type_name tick data_json (numbered (core s))))
            (core-step_time t))

seq-disabled :
    (o : Outside) (type_name : Text) (tick : Option ℕ) (data_json : Text) (s : EventLog)
    → s.enabled ≡ false
    → (emit o type_name tick data_json s).0.seq ≡ suc s.seq % 2 ^ 64
unfolding emit
seq-disabled o type_name tick data_json s h = rw h refl

-- Each event is numbered, that of a log which is not enabled and one whose line cannot be written, too.
pub seq-emit :
    (o : Outside) (type_name : Text) (tick : Option ℕ) (data_json : Text) (s : EventLog)
    → (emit o type_name tick data_json s).0.seq ≡ suc s.seq % 2 ^ 64
seq-emit o type_name tick data_json s = elim (Bool-cases s.enabled) [
  | inl h ↦ ap (λ c. c.seq) (core-emit o type_name tick data_json s h)
  | inr h ↦ seq-disabled o type_name tick data_json s h
]
