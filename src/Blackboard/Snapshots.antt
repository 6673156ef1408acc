-- ===== src/Blackboard/Snapshots.antt =====
-- What a tick tells the event log when it begins, with the snapshot of the blackboard that was asked
-- for (`tick` in src/bt/runtime.cpp).
use muesli_bt.Common.{
  ℕ, suc, ◌/◌, ◌%◌, ◌^◌, ◌≡◌, refl, subst, ap, ◌∙◌, Bool, true, false, Bool-cases, inl, inr, Option,
  none, some, List, [], ◌∷◌, ◌++◌, take, ◌==◌, if◌then◌else◌, Text, codes, to_string, Result, ok,
  err,
}
use muesli_bt.EventLog.Json.{json_escape}
use muesli_bt.EventLog.Line.{EventFields, serialise_event_line_size}
use muesli_bt.EventLog.State.{EventLog, call_hook, consume_snapshot_bb_request}
use muesli_bt.EventLog.Emit.{
  Outside, Fault, append_ring_line, step_time, capture, event_fields, emit_fields, emit,
}
use muesli_bt.EventLog.Started.{ended, ensure_run_started}
use muesli_bt.EventLog.Once.{already_started}
use muesli_bt.EventLog.Quiet.{either, quiet-emit_fields}
use muesli_bt.Blackboard.Entries.{BbEntry, Blackboard, snapshot, bb_value_json}

-- What is outside for the three events.
pub record Beginning : Type 0 where
  pub start : Outside
  pub begin : Outside
  pub snap : Outside

abbrev pub budget_data : ℕ → Text
budget_data budget_ms =
    if budget_ms == 0
    then codes "{}"
    else codes "{\"tick_budget_ms\":" ++ to_string budget_ms ++ codes "}"

module _ (show : ℕ → Text) where
  abbrev pub entry_json : Text × BbEntry → Text
  entry_json (key, entry) =
      codes "[\"" ++ json_escape key ++ codes "\"," ++ bb_value_json show entry.value ++ codes "]"

  -- The entries after the first, each after a comma.
  abbrev pub more_entries : List (Text × BbEntry) → Text
  more_entries [] = []
  more_entries (e ∷ entries) = codes "," ++ entry_json e ++ more_entries entries

  abbrev pub entries_json : List (Text × BbEntry) → Text
  entries_json [] = []
  entries_json (e ∷ entries) = entry_json e ++ more_entries entries

  -- No more than 256 entries, unless the snapshot is to be full.
  unfoldable pub snapshot_data : Bool → List (Text × BbEntry) → Text
  snapshot_data full entries =
      codes "{\"entries\":["
      ++ entries_json (if full then entries else take 256 entries)
      ++ codes "]}"

  abbrev pub report_snapshot :
      Outside → Blackboard → ℕ → (Bool × Bool) × EventLog → EventLog × Result Fault (Unit {0})
  report_snapshot o bb tick ((true, full), s) =
      ended (emit o (codes "bb_snapshot") (some tick) (snapshot_data full (snapshot bb)) s)
  report_snapshot o bb tick ((false, full), s) = (s, ok tt)

  abbrev pub after_begin :
      Outside → Blackboard → ℕ → EventLog × Result Fault ℕ → EventLog × Result Fault (Unit {0})
  after_begin o bb tick (s, ok _) = report_snapshot o bb tick (consume_snapshot_bb_request s)
  after_begin o bb tick (s, err e) = (s, err e)

  abbrev pub leave_whitelist :
      EventLog × Result Fault (Unit {0}) → EventLog × Result Fault (Unit {0})
  leave_whitelist (s, r) = (call_hook s.allocation_whitelist_leave s, r)

  abbrev pub after_start :
      Beginning
      → Blackboard
      → ℕ
      → ℕ
      → EventLog × Result Fault (Unit {0})
      → EventLog × Result Fault (Unit {0})
  after_start o bb tick budget_ms (s, ok _) = leave_whitelist (
      after_begin o.snap bb tick (
        emit o.begin (codes "tick_begin") (some tick) (budget_data budget_ms)
          (call_hook s.allocation_whitelist_enter s)))
  after_start o bb tick budget_ms (s, err e) = (s, err e)

  -- `budget` is the budget of a tick in nanoseconds.
  unfoldable pub report_tick_begin :
      Beginning → Blackboard → (tick budget : ℕ) → EventLog → EventLog × Result Fault (Unit {0})
  unfolding ensure_run_started snapshot_data consume_snapshot_bb_request
  report_tick_begin o bb tick budget s =
      after_start o bb tick (budget / 1_000_000)
        (ensure_run_started show o.start [] (codes "{\"reset\":true}") s)

-- The request for a snapshot, and the number of the last event.
pub record Request : Type 0 where
  pub requested : Bool
  pub full : Bool
  pub seq : ℕ

abbrev pub request : EventLog → Request
request s = record { requested = s.snapshot_bb_requested; full = s.snapshot_bb_full; seq = s.seq }

abbrev pub numbered : Request → Request
numbered r = record r { seq = suc r.seq % 2 ^ 64 }

-- A request is taken, and its event has a number.
abbrev pub delivered : Request → Request
delivered r = if r.requested then record (numbered r) { requested = false } else r

request-append_ring_line :
    (line : Text) (s : EventLog) → request (append_ring_line line s) ≡ request s
unfolding append_ring_line
request-append_ring_line line s = either request (s.ring_capacity == 0) refl refl

request-capture : (size : ℕ) (s : EventLog) → request (capture size s) ≡ request s
unfolding capture
request-capture size s = either request s.capture_stats_enabled refl refl

request-step_time : (s : EventLog) → request (step_time s) ≡ request s
unfolding step_time
request-step_time s = either request s.deterministic_time_enabled refl refl

request-call_hook : (h : Option ℕ) (s : EventLog) → request (call_hook h s) ≡ request s
unfolding call_hook
request-call_hook none s = refl
request-call_hook (some h) s = refl

request-emit_fields :
    (o : Outside) (e : EventFields) (s : EventLog) → request ((emit_fields o e s).0) ≡ request s
request-emit_fields o e s =
    quiet-emit_fields request (λ s is_open p w hd hk. refl) o e s
      (λ t same. request-append_ring_line _ _ ∙ request-capture _ t ∙ same)
      (λ t same h. request-capture (serialise_event_line_size e) t ∙ same)

request-emit :
    (o : Outside) (type_name : Text) (tick : Option ℕ) (data_json : Text) (s : EventLog)
    → request ((emit o type_name tick data_json s).0) ≡ numbered (request s)
unfolding emit
request-emit o type_name tick data_json s =
    let t : EventLog = record s { seq = suc s.seq % 2 ^ 64 } in
    either (λ (r : EventLog × Result Fault ℕ). request r.0) s.enabled
      (request-emit_fields o (event_fields o type_name tick data_json t.seq t) (step_time t)
        ∙ request-step_time t)
      refl

module _ (show : ℕ → Text) where
  request-ended : (r : EventLog × Result Fault ℕ) → request ((ended r).0) ≡ request r.0
  request-ended (s, ok n) = refl
  request-ended (s, err e) = refl

  request-report :
      (o : Outside) (bb : Blackboard) (tick : ℕ) (s : EventLog)
      → request ((report_snapshot show o bb tick (consume_snapshot_bb_request s)).0)
        ≡ delivered (request s)
  unfolding consume_snapshot_bb_request
  request-report o bb tick s = elim (Bool-cases s.snapshot_bb_requested) [
    | inl h ↦ rw h (
        let s : EventLog = record s { snapshot_bb_requested = false } in
        let text = snapshot_data show s.snapshot_bb_full (snapshot bb) in
        request-ended (emit o (codes "bb_snapshot") (some tick) text s)
        ∙ request-emit o (codes "bb_snapshot") (some tick) text s)
    | inr h ↦ rw h refl
  ]

  request-after_begin :
      (o : Outside) (bb : Blackboard) (tick : ℕ) (r : EventLog × Result Fault ℕ)
      → (after_begin show o bb tick r).1 ≡ ok tt
      → request ((after_begin show o bb tick r).0) ≡ delivered (request r.0)
  request-after_begin o bb tick (s, ok n) h = request-report o bb tick s
  request-after_begin o bb tick (s, err e) h = cc

  request-leave :
      (r : EventLog × Result Fault (Unit {0})) → request ((leave_whitelist show r).0) ≡ request r.0
  request-leave (s, r) = request-call_hook s.allocation_whitelist_leave s

  -- In a run that has started, the beginning of a tick that no exception ends gives a number to its
  -- event and, if a snapshot was requested, one to the snapshot, and leaves no request.
  pub request-report_tick_begin :
      (o : Beginning) (bb : Blackboard) (tick budget : ℕ) (s : EventLog)
      → s.run_started ≡ true
      → (report_tick_begin show o bb tick budget s).1 ≡ ok tt
      → request ((report_tick_begin show o bb tick budget s).0) ≡ delivered (numbered (request s))
  unfolding report_tick_begin
  request-report_tick_begin o bb tick budget s started h =
      let first =
        emit o.begin (codes "tick_begin") (some tick) (budget_data (budget / 1_000_000))
          (call_hook s.allocation_whitelist_enter s) in
      let same = already_started show o.start [] (codes "{\"reset\":true}") s started in
      let budget_ms = budget / 1_000_000 in
      ap (λ r. request ((after_start show o bb tick budget_ms r).0)) same
      ∙ request-leave (after_begin show o.snap bb tick first)
      ∙ request-after_begin o.snap bb tick first (
          subst
            (λ (r : EventLog × Result Fault (Unit {0})).
              (after_start show o bb tick budget_ms r).1 ≡ ok tt)
            same h)
      ∙ ap delivered (
          request-emit o.begin (codes "tick_begin") (some tick) (budget_data budget_ms)
            (call_hook s.allocation_whitelist_enter s)
          ∙ ap numbered (request-call_hook s.allocation_whitelist_enter s))
