-- ===== src/EventLog/Ring.antt =====
-- The lines that the log's ring holds after events, and their numbers.
use muesli_bt.Common.{
  ℕ, suc, ◌+◌, ◌-◌, ◌%◌, ◌^◌, ◌≤◌, ◌<◌, ◌≡◌, sym, ◌∙◌, ap, Bool, true, false, Bool-cases, inl, inr,
  Option, List, [], ◌∷◌, ◌++◌, append_assoc, append-nil, length, drop, ◌==◌, ==→eq, if◌then◌else◌,
  Text, ℤ, ◌+ℤ◌, arith,
}
use muesli_bt.Ring.{last_of, last_of-append, drop-all}
use muesli_bt.EventLog.Line.{serialise_event_line}
use muesli_bt.EventLog.State.{EventLog}
use muesli_bt.EventLog.Emit.{Outside, emit}
use muesli_bt.EventLog.Core.{
  Core, core, pushed, push_core, ticked, line_in, numbered, core-emit, seq-emit,
}

-- What an event is emitted with.
pub record Emission : Type 0 where
  pub outside : Outside
  pub type_name : Text
  pub tick : Option ℕ
  pub data_json : Text

-- Emitting one event after the other, whether or not an exception ends it.
abbrev pub emit_one : Emission → EventLog → EventLog
emit_one e s = (emit e.outside e.type_name e.tick e.data_json s).0

abbrev pub emit_all : List Emission → EventLog → EventLog
emit_all [] s = s
emit_all (e ∷ events) s = emit_all events (emit_one e s)

-- The lines of events: the numbers follow `number`, and the times `ms` if time is deterministic.
abbrev pub lines_from : Text → Bool → ℤ → ℕ → ℤ → List Emission → List Text
lines_from run_id deterministic step number ms [] = []
lines_from run_id deterministic step number ms (e ∷ events) =
    serialise_event_line (record {
      type_name = e.type_name;
      run_id = run_id;
      unix_ms = if deterministic then ms else e.outside.unix_ms_now;
      seq = suc number % 2 ^ 64;
      tick = e.tick;
      data_json = e.data_json;
    })
    ∷ lines_from run_id deterministic step (suc number % 2 ^ 64)
        (if deterministic then ms +ℤ step else ms) events

abbrev emit_core : Emission → Core → Core
emit_core e c =
    push_core (line_in e.outside e.type_name e.tick e.data_json (numbered c)) (ticked (numbered c))

abbrev lines_of : Core → List Emission → List Text
lines_of c = lines_from c.run_id c.deterministic c.step c.seq c.ms

-- A ring that holds the last of some lines holds the last of them and of one line more.
pushed-last :
    (capacity : ℕ) (line : Text) (all : List Text)
    → pushed capacity line (last_of capacity all) ≡ last_of capacity (all ++ line ∷ [])
pushed-last capacity line all = elim (Bool-cases (capacity == 0)) [
  | inl e ↦
      let none_kept = ==→eq capacity 0 e in
      rw e (
        drop-all (length all - capacity) all (omega (arith, none_kept))
        ∙ sym (drop-all _ (all ++ line ∷ []) (omega (arith, none_kept))))
  | inr e ↦ rw e (last_of-append capacity all line (positive capacity e))
]
  where
    positive : (n : ℕ) → (n == 0) ≡ false → 0 < n
    positive n e = ground arith

ring-emit_all :
    (events : List Emission) (s : EventLog) (all : List Text)
    → s.enabled ≡ true
    → s.ring ≡ last_of s.ring_capacity all
    → (emit_all events s).ring ≡ last_of s.ring_capacity (all ++ lines_of (core s) events)
ring-emit_all [] s all h e = e ∙ ap (last_of s.ring_capacity) (sym (append-nil all))
ring-emit_all (x ∷ events) s all h e =
    let line = line_in x.outside x.type_name x.tick x.data_json (numbered (core s)) in
    let one = core-emit x.outside x.type_name x.tick x.data_json s h in
    let capacity = ap (λ c. c.ring_capacity) one in
    let ring =
      ap (λ c. c.ring) one
      ∙ ap (pushed s.ring_capacity line) e
      ∙ pushed-last s.ring_capacity line all in
    ring-emit_all events (emit_one x s) (all ++ line ∷ []) (ap (λ c. c.enabled) one ∙ h)
      (ring ∙ ap (λ n. last_of n (all ++ line ∷ [])) (sym capacity))
    ∙ ap (λ n. last_of n ((all ++ line ∷ []) ++ lines_of (core (emit_one x s)) events)) capacity
    ∙ ap (λ c. last_of s.ring_capacity ((all ++ line ∷ []) ++ lines_of c events)) one
    ∙ ap (last_of s.ring_capacity) (append_assoc all (line ∷ []) _)

-- The ring of a log that is enabled and holds no more lines than its capacity holds, after any events,
-- the last of its lines and of the lines of the events, as many as its capacity allows, whether or not
-- the files could be written.
pub emit_all-last :
    (events : List Emission) (s : EventLog)
    → s.enabled ≡ true
    → length s.ring ≤ s.ring_capacity
    → (emit_all events s).ring
      ≡ last_of s.ring_capacity (
          s.ring
          ++ lines_from s.run_id s.deterministic_time_enabled s.deterministic_step_ms s.seq
              s.deterministic_unix_ms events)
emit_all-last events s h room =
    ring-emit_all events s s.ring h
      (ap (λ n. drop n s.ring) {x = 0} {y = length s.ring - s.ring_capacity} (omega (arith, room)))

-- Each event takes the next number, modulo 2 ^ 64, that of a log which is not enabled and one whose
-- line cannot be written too.
pub emit_all-seq :
    (events : List Emission) (s : EventLog)
    → s.seq < 2 ^ 64
    → (emit_all events s).seq ≡ (s.seq + length events) % 2 ^ 64
emit_all-seq [] s h = omega (arith, h)
emit_all-seq (e ∷ events) s h =
    let one = seq-emit e.outside e.type_name e.tick e.data_json s in
    let rest = emit_all-seq events (emit_one e s) (omega (arith, one)) in omega (arith, one, rest)
