-- ===== src/EventLog/Sound.antt =====
-- What an event keeps of the log's state: its ring holds no more lines than its capacity, a file that
-- is open is the one that the log's path names, and the path and the run have a name.
use muesli_bt.Common.{
  ℕ, suc, ◌%◌, ◌^◌, ◌≤◌, ◌≡◌, refl, sym, Bool, true, false, ◌&&◌, not, Bool-cases, inl, inr, Option,
  none, some, List, [], ◌∷◌, ◌++◌, length, length-append, drop, ◌==◌, ==→eq, if◌then◌else◌, Text,
  text_eq, is_empty, Result, ok, err, arith,
}
use muesli_bt.Ring.{length-drop}
use muesli_bt.EventLog.Line.{EventFields, serialise_event_line, serialise_event_line_size}
use muesli_bt.EventLog.State.{EventLog, call_hook}
use muesli_bt.EventLog.Emit.{
  Outside, Fault, Opening, ready, not_opened, threw, has_parent_path, append_ring_line, open_file,
  write_file, write_opened, append_file_line, hear, finish, step_time, capture, event_fields,
  needs_serialised_line, flush_now, deliver, emit_fields, emit, close_failed,
}
use muesli_bt.EventLog.Quiet.{opening_state}

pub record Parts : Type 0 where
  pub ring_capacity : ℕ
  pub ring : List Text
  pub file_is_open : Bool
  pub open_path : Text
  pub path : Text
  pub run_id : Text

abbrev pub parts : EventLog → Parts
parts s = record {
  ring_capacity = s.ring_capacity;
  ring = s.ring;
  file_is_open = s.file_is_open;
  open_path = s.open_path;
  path = s.path;
  run_id = s.run_id;
}

pub record HasParts (p : Parts) : Type 0 where
  pub room : length p.ring ≤ p.ring_capacity
  pub right_file : p.file_is_open ≡ true → p.open_path ≡ p.path
  pub named_path : is_empty p.path ≡ false
  pub named_run : is_empty p.run_id ≡ false

abbrev pub IsSound : EventLog → Type 0
IsSound s = HasParts (parts s)

-- Of a conditional, what both branches leave.
pub of_either :
    {B : Type 0} (f : B → EventLog) (b : Bool) (r q : B)
    → IsSound (f r)
    → IsSound (f q)
    → IsSound (f (if b then r else q))
of_either f true r q h k = h
of_either f false r q h k = k

pub when : (b : Bool) (s t : EventLog) → IsSound s → IsSound t → IsSound (if b then s else t)
when b s t h k = of_either (λ s. s) b s t h k

pub closed :
    (s : EventLog) (p : Text)
    → IsSound s
    → IsSound (record s { file_is_open = false; open_path = p })
closed s p h = record {
  room = h.room;
  right_file = λ e. cc;
  named_path = h.named_path;
  named_run = h.named_run;
}

pub call_hook-IsSound : (k : Option ℕ) (s : EventLog) → IsSound s → IsSound (call_hook k s)
unfolding call_hook
call_hook-IsSound none s h = h
call_hook-IsSound (some _) s h = h

hear-IsSound : (l : Option ℕ) (line : Text) (s : EventLog) → IsSound s → IsSound (hear l line s)
unfolding hear
hear-IsSound none line s h = h
hear-IsSound (some _) line s h = h

capture-IsSound : (n : ℕ) (s : EventLog) → IsSound s → IsSound (capture n s)
unfolding capture
capture-IsSound n s h = when s.capture_stats_enabled _ s h h

step_time-IsSound : (s : EventLog) → IsSound s → IsSound (step_time s)
unfolding step_time
step_time-IsSound s h = when s.deterministic_time_enabled _ s h h

-- One line more, for which room is made.
append_ring_line-IsSound :
    (line : Text) (s : EventLog) → IsSound s → IsSound (append_ring_line line s)
unfolding append_ring_line
append_ring_line-IsSound line s h = elim (Bool-cases (s.ring_capacity == 0)) [
  | inl e ↦ rw e h
  | inr e ↦ rw e (record {
    room = fits s.ring s.ring_capacity e h.room;
    right_file = h.right_file;
    named_path = h.named_path;
    named_run = h.named_run;
  })
]
  where
    made :
        (ring : List Text) (n : ℕ) (b : Bool)
        → b ≡ (length ring == n)
        → (n == 0) ≡ false
        → length ring ≤ n
        → length ((if b then drop 1 ring else ring) ++ line ∷ []) ≤ n
    made ring n true e z k =
        let room = length-append (drop 1 ring) (line ∷ []) in
        let left = length-drop 1 ring in
        let full = ==→eq (length ring) n (sym e) in
        let some_room : 1 ≤ n = ground arith in omega (arith, room, left, full, some_room)
    made ring n false e z k =
        let room = length-append ring (line ∷ []) in
        let not_full : suc (length ring) ≤ n = ground arith in omega (arith, room, not_full)

    fits :
        (ring : List Text) (n : ℕ)
        → (n == 0) ≡ false
        → length ring ≤ n
        → length ((if length ring == n then drop 1 ring else ring) ++ line ∷ []) ≤ n
    fits ring n z k = made ring n (length ring == n) refl z k

write_file-IsSound :
    (o : Outside) (line : Text) (flush : Bool) (s : EventLog)
    → IsSound s
    → IsSound (write_file o line flush s)
unfolding write_file close_failed
write_file-IsSound o line flush s h =
    let t : EventLog = record s { written = (s.open_path, line ++ b'\n' ∷ []) ∷ s.written } in
    when o.wrote _ _ (when (flush && not o.flushed) _ t (closed t [] h) h) (closed s [] h)

reopened :
    (s : EventLog) → IsSound s → IsSound (record s { file_is_open = true; open_path = s.path })
reopened s h = record {
  room = h.room;
  right_file = λ e. refl;
  named_path = h.named_path;
  named_run = h.named_run;
}

open_file-IsSound :
    (o : Outside) (s : EventLog) → IsSound s → IsSound (opening_state (open_file o s))
unfolding open_file close_failed
open_file-IsSound o s h =
    let on : (b : Bool) (r q : Opening)
        → IsSound (opening_state r)
        → IsSound (opening_state q)
        → IsSound (opening_state (if b then r else q)) =
      of_either opening_state in
    on (s.file_is_open && text_eq s.open_path s.path) _ _ h (
      on (has_parent_path s.path && not o.made_directories) _ _ (closed s s.open_path h)
        (on o.opened _ _ (reopened s h) (closed s [] h)))

write_opened-IsSound :
    (o : Outside) (line : Text) (flush : Bool) (r : Opening)
    → IsSound (opening_state r)
    → IsSound ((write_opened o line flush r).0)
unfolding write_opened
write_opened-IsSound o line flush (ready s) h = write_file-IsSound o line flush s h
write_opened-IsSound o line flush (not_opened s) h = h
write_opened-IsSound o line flush (threw s) h = h

deliver-IsSound :
    (o : Outside) (type_name line : Text) (s : EventLog)
    → IsSound s
    → IsSound ((deliver o type_name line s).0)
unfolding deliver append_file_line
deliver-IsSound o type_name line s h =
    let t = append_ring_line line s in
    let added = append_ring_line-IsSound line s h in
    of_either (λ (r : EventLog × Result Fault (Unit {0})). r.0) s.file_enabled _ _
      (write_opened-IsSound o line (flush_now type_name s) (open_file o t)
        (open_file-IsSound o t added))
      added

finish-IsSound :
    (line : Text) (number : ℕ) (r : EventLog × Result Fault (Unit {0}))
    → IsSound r.0
    → IsSound ((finish line number r).0)
unfolding finish
finish-IsSound line number (s, ok _) h =
    call_hook-IsSound _ (hear s.line_listener line s) (hear-IsSound s.line_listener line s h)
finish-IsSound line number (s, err e) h = call_hook-IsSound _ s h

emit_fields-IsSound :
    (o : Outside) (e : EventFields) (s : EventLog) → IsSound s → IsSound ((emit_fields o e s).0)
unfolding emit_fields
emit_fields-IsSound o e s h =
    let t = call_hook s.allocation_whitelist_enter s in
    let entered = call_hook-IsSound s.allocation_whitelist_enter s h in
    let line = serialise_event_line e in
    let size = serialise_event_line_size e in
    of_either (λ (r : EventLog × Result Fault ℕ). r.0) (needs_serialised_line t) _ _
      (finish-IsSound line e.seq (deliver o e.type_name line (capture (length line) t))
        (deliver-IsSound o e.type_name line _ (capture-IsSound (length line) t entered)))
      (finish-IsSound [] e.seq (capture size t, ok tt) (capture-IsSound size t entered))

pub emit-IsSound :
    (o : Outside) (type_name : Text) (tick : Option ℕ) (data_json : Text) (s : EventLog)
    → IsSound s
    → IsSound ((emit o type_name tick data_json s).0)
unfolding emit
emit-IsSound o type_name tick data_json s h =
    let t : EventLog = record s { seq = suc s.seq % 2 ^ 64 } in
    let fields = event_fields o type_name tick data_json t.seq t in
    of_either (λ (r : EventLog × Result Fault ℕ). r.0) s.enabled _ _
      (emit_fields-IsSound o fields (step_time t) (step_time-IsSound t h)) h
