-- ===== src/EventLog/Quiet.antt =====
-- What `emit` leaves as it is: `f` is a part of the log that files, listeners and hooks do not touch.
use muesli_bt.Common.{
  ℕ, ◌≡◌, refl, ◌∙◌, Bool, true, false, ◌&&◌, ◌||◌, not, Bool-cases, inl, inr, Option, none, some,
  List, [], ◌∷◌, ◌++◌, length, ◌==◌, if◌then◌else◌, Text, text_eq, Result, ok, err, arith,
}
use muesli_bt.EventLog.Line.{EventFields, serialise_event_line, serialise_event_line_size}
use muesli_bt.EventLog.State.{EventLog, call_hook}
use muesli_bt.EventLog.Emit.{
  Outside, Fault, Opening, ready, not_opened, threw, has_parent_path, append_ring_line, open_file,
  write_file, write_opened, append_file_line, hear, finish, capture, needs_serialised_line,
  flush_now, deliver, emit_fields, close_failed,
}

-- What both branches of a conditional have, it has.
pub either :
    {A B : Type 0} (f : B → A) (b : Bool) {s t : B} {a : A}
    → f s ≡ a
    → f t ≡ a
    → f (if b then s else t) ≡ a
either f true h k = h
either f false h k = k

pub ap-if :
    {A B : Type 0} (f : B → A) (b : Bool) (s t : B)
    → f (if b then s else t) ≡ (if b then f s else f t)
ap-if f true s t = refl
ap-if f false s t = refl

abbrev pub opening_state : Opening → EventLog
opening_state (ready s) = s
opening_state (not_opened s) = s
opening_state (threw s) = s

module _ {A : Type 0} (f : EventLog → A)
    (ignores : (s : EventLog) (is_open : Bool) (open_path : Text) (written : List (Text × Text))
        (heard : List (ℕ × Text)) (hooked : List ℕ)
      → f (record s {
        file_is_open = is_open;
        open_path = open_path;
        written = written;
        heard = heard;
        hooked = hooked;
      })
        ≡ f s) where
  unseen :
      (is_open : Bool) (p : Text) (w : List (Text × Text)) (s : EventLog)
      → f (record s { file_is_open = is_open; open_path = p; written = w }) ≡ f s
  unseen is_open p w s = ignores s is_open p w s.heard s.hooked

  quiet-call_hook : (h : Option ℕ) (s : EventLog) → f (call_hook h s) ≡ f s
  unfolding call_hook
  quiet-call_hook none s = refl
  quiet-call_hook (some h) s = ignores s s.file_is_open s.open_path s.written s.heard (h ∷ s.hooked)

  quiet-hear : (l : Option ℕ) (line : Text) (s : EventLog) → f (hear l line s) ≡ f s
  unfolding hear
  quiet-hear none line s = refl
  quiet-hear (some l) line s =
      ignores s s.file_is_open s.open_path s.written ((l, line) ∷ s.heard) s.hooked

  quiet-write_file :
      (o : Outside) (line : Text) (flush : Bool) (s : EventLog)
      → f (write_file o line flush s) ≡ f s
  unfolding write_file close_failed
  quiet-write_file o line flush s =
      let more = (s.open_path, line ++ b'\n' ∷ []) ∷ s.written in
      either f o.wrote
        (either f (flush && not o.flushed) (unseen false [] more s)
          (unseen s.file_is_open s.open_path more s))
        (unseen false [] s.written s)

  quiet-open_file : (o : Outside) (s : EventLog) → f (opening_state (open_file o s)) ≡ f s
  unfolding open_file close_failed
  quiet-open_file o s =
      let g : Opening → A = λ r. f (opening_state r) in
      either g (s.file_is_open && text_eq s.open_path s.path) refl (
        either g (has_parent_path s.path && not o.made_directories)
          (unseen false s.open_path s.written s)
          (either g o.opened (unseen true s.path s.written s) (unseen false [] s.written s)))

  quiet-write_opened :
      (o : Outside) (line : Text) (flush : Bool) (r : Opening)
      → f ((write_opened o line flush r).0) ≡ f (opening_state r)
  unfolding write_opened
  quiet-write_opened o line flush (ready s) = quiet-write_file o line flush s
  quiet-write_opened o line flush (not_opened s) = refl
  quiet-write_opened o line flush (threw s) = refl

  quiet-append_file_line :
      (o : Outside) (line : Text) (flush : Bool) (s : EventLog)
      → f ((append_file_line o line flush s).0) ≡ f s
  unfolding append_file_line
  quiet-append_file_line o line flush s =
      quiet-write_opened o line flush (open_file o s) ∙ quiet-open_file o s

  quiet-deliver :
      (o : Outside) (type_name line : Text) (s : EventLog)
      → f ((deliver o type_name line s).0) ≡ f (append_ring_line line s)
  unfolding deliver
  quiet-deliver o type_name line s =
      let g : EventLog × Result Fault (Unit {0}) → A = λ r. f r.0 in
      either g s.file_enabled
        (quiet-append_file_line o line (flush_now type_name s) (append_ring_line line s)) refl

  quiet-finish :
      (line : Text) (number : ℕ) (r : EventLog × Result Fault (Unit {0}))
      → f ((finish line number r).0) ≡ f r.0
  unfolding finish
  quiet-finish line number (s, ok _) = quiet-call_hook _ _ ∙ quiet-hear s.line_listener line s
  quiet-finish line number (s, err e) = quiet-call_hook _ _

  -- If a line is needed, `f` sees what the statistics and the ring see of it, and else what the
  -- statistics see.
  pub quiet-emit_fields :
      (o : Outside) (e : EventFields) (s : EventLog) {a : A}
      → ((t : EventLog)
          → f t ≡ f s
          → f (
              append_ring_line
                (serialise_event_line e)
                (capture (length (serialise_event_line e)) t))
            ≡ a)
      → ((t : EventLog)
          → f t ≡ f s
          → (t.ring_capacity == 0) ≡ true
          → f (capture (serialise_event_line_size e) t) ≡ a)
      → f ((emit_fields o e s).0) ≡ a
  unfolding emit_fields needs_serialised_line
  quiet-emit_fields o e s with_line without_line =
      let t = call_hook s.allocation_whitelist_enter s in
      let line = serialise_event_line e in
      let same = quiet-call_hook s.allocation_whitelist_enter s in
      elim (Bool-cases (needs_serialised_line t)) [
        | inl h ↦ rw h (
            quiet-finish line e.seq (deliver o e.type_name line (capture (length line) t))
            ∙ quiet-deliver o e.type_name line (capture (length line) t)
            ∙ with_line t same)
        | inr h ↦ rw h (
            quiet-finish [] e.seq (capture (serialise_event_line_size e) t, ok tt)
            ∙ without_line t same (no_line_needed t.file_enabled (t.ring_capacity == 0) _ h))
      ]
    where
      no_line_needed : (a b c : Bool) → (a || (not b || c)) ≡ false → b ≡ true
      no_line_needed a b c e = ground arith
