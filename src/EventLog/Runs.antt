-- ===== src/EventLog/Runs.antt =====
-- What every operation of an event log keeps of its state.
use muesli_bt.Common.{
  ℕ, ◌-◌, ◌≤◌, ◌≡◌, refl, Bool, true, false, ◌&&◌, not, Bool-cases, inl, inr, none, List, [], ◌∷◌,
  length, drop, ◌==◌, ltb, ltb_false→le, Text, codes, text_eq, text_eq→eq, is_empty, Result, ok,
  err, arith,
}
use muesli_bt.Ring.{length-drop}
use muesli_bt.Ast.{Definition}
use muesli_bt.EventLog.State.{
  EventLog, new_event_log, set_ring_capacity, close_other, set_path, set_file_enabled, set_run_id,
  set_tick_hz, set_git_sha, set_host_info, set_deterministic_time, clear_deterministic_time,
  clear_capture_stats, set_allocation_whitelist_hooks, clear_ring, request_snapshot_bb,
  consume_snapshot_bb_request, is_positive,
}
use muesli_bt.EventLog.Emit.{Outside, Fault, emit}
use muesli_bt.EventLog.Started.{
  run_start_data, bt_def_data, tree_hash_of, mark_started, ensure_run_started, ended, emit_def,
  emit_bt_def,
}
use muesli_bt.EventLog.Sound.{IsSound, of_either, when, closed, call_hook-IsSound, emit-IsSound}
use muesli_bt.EventLog.Operations.{
  Operation, to_enabled, to_flush_on_tick_end, to_flush_each_message, to_tick_audit_enabled,
  to_tick_audit_warmup_complete, to_tick_audit_strict_allocations, to_file_enabled,
  to_capture_stats_enabled, snapshot_request, to_ring_capacity, to_tick_hz, to_path, to_run_id,
  to_git_sha, to_host_info, to_line_listener, to_deterministic_time, to_hooks,
  no_deterministic_time, no_capture_stats, empty_ring, snapshot_consumption, whitelist_entry,
  whitelist_exit, event, run_start, definition, or_same, apply, run,
}

set_ring_capacity-IsSound : (n : ℕ) (s : EventLog) → IsSound s → IsSound (set_ring_capacity n s)
unfolding set_ring_capacity
set_ring_capacity-IsSound n s h = elim (Bool-cases (n == 0)) [
  | inl e ↦ rw e (with_room [] (ground arith))
  | inr e ↦ elim (Bool-cases (ltb n (length s.ring))) [
    | inl f ↦
        rw (e, f)
          (with_room (drop (length s.ring - n) s.ring)
            (omega (arith, length-drop (length s.ring - n) s.ring)))
    | inr f ↦ rw (e, f) (with_room s.ring (ltb_false→le n (length s.ring) f))
  ]
]
  where
    with_room :
        (ring : List Text) → length ring ≤ n → IsSound (record s { ring_capacity = n; ring = ring })
    with_room ring room = record {
      room = room;
      right_file = h.right_file;
      named_path = h.named_path;
      named_run = h.named_run;
    }

still_open : (a b : Bool) → (a && not b) ≡ false → a ≡ true → b ≡ true
still_open a b e h = ground arith

close_other-IsSound :
    (s : EventLog)
    → length s.ring ≤ s.ring_capacity
    → is_empty s.path ≡ false
    → is_empty s.run_id ≡ false
    → IsSound (close_other s)
unfolding close_other
close_other-IsSound s room named_path named_run =
    elim (Bool-cases (s.file_is_open && not (text_eq s.open_path s.path))) [
      | inl e ↦ rw e (record {
        room = room;
        right_file = λ e. cc;
        named_path = named_path;
        named_run = named_run;
      })
      | inr e ↦ rw e (record {
        room = room;
        right_file = λ f.
            text_eq→eq s.open_path s.path
              (still_open s.file_is_open (text_eq s.open_path s.path) e f);
        named_path = named_path;
        named_run = named_run;
      })
    ]

set_path-IsSound : (path : Text) (s : EventLog) → IsSound s → IsSound (or_same s (set_path path s))
unfolding set_path
set_path-IsSound path s h = elim (Bool-cases (is_empty path)) [
  | inl e ↦ rw e h
  | inr e ↦ rw e (close_other-IsSound (record s { path = path }) h.room e h.named_run)
]

set_run_id-IsSound : (id : Text) (s : EventLog) → IsSound s → IsSound (or_same s (set_run_id id s))
unfolding set_run_id
set_run_id-IsSound id s h = elim (Bool-cases (is_empty id)) [
  | inl e ↦ rw e h
  | inr e ↦ rw e (record {
    room = h.room;
    right_file = h.right_file;
    named_path = h.named_path;
    named_run = e;
  })
]

set_file_enabled-IsSound : (b : Bool) (s : EventLog) → IsSound s → IsSound (set_file_enabled b s)
unfolding set_file_enabled
set_file_enabled-IsSound true s h = h
set_file_enabled-IsSound false s h = closed (record s { file_enabled = false }) [] h

set_tick_hz-IsSound : (hz : ℕ) (s : EventLog) → IsSound s → IsSound (set_tick_hz hz s)
unfolding set_tick_hz
set_tick_hz-IsSound hz s h = when (is_positive hz) (record s { tick_hz = hz }) s h h

consumption-IsSound : (s : EventLog) → IsSound s → IsSound ((consume_snapshot_bb_request s).1)
unfolding consume_snapshot_bb_request
consumption-IsSound s h =
    of_either (λ (r : (Bool × Bool) × EventLog). r.1) s.snapshot_bb_requested _ _ h h

clear_ring-IsSound : (s : EventLog) → IsSound s → IsSound (clear_ring s)
unfolding clear_ring
clear_ring-IsSound s h = record {
  room = omega arith;
  right_file = h.right_file;
  named_path = h.named_path;
  named_run = h.named_run;
}

mark_started-IsSound : (r : EventLog × Result Fault ℕ) → IsSound r.0 → IsSound ((mark_started r).0)
mark_started-IsSound (s, ok _) h = h
mark_started-IsSound (s, err _) h = h

ended-IsSound : (r : EventLog × Result Fault ℕ) → IsSound r.0 → IsSound ((ended r).0)
ended-IsSound (s, ok _) h = h
ended-IsSound (s, err _) h = h

module _ (show : ℕ → Text) where
  ensure_run_started-IsSound :
      (o : Outside) (tree_hash capabilities : Text) (s : EventLog)
      → IsSound s
      → IsSound ((ensure_run_started show o tree_hash capabilities s).0)
  unfolding ensure_run_started
  ensure_run_started-IsSound o tree_hash capabilities s h =
      let data_json = run_start_data show tree_hash capabilities s in
      of_either (λ (r : EventLog × Result Fault (Unit {0})). r.0) s.run_started _ _ h
        (mark_started-IsSound (emit o (codes "run_start") none data_json s)
          (emit-IsSound o (codes "run_start") none data_json s h))

  emit_def-IsSound :
      (o : Outside) (def : Definition) (r : EventLog × Result Fault (Unit {0}))
      → IsSound r.0
      → IsSound ((emit_def show o def r).0)
  emit_def-IsSound o def (s, ok _) h =
      ended-IsSound (emit o (codes "bt_def") none (bt_def_data show def) s)
        (emit-IsSound o (codes "bt_def") none (bt_def_data show def) s h)
  emit_def-IsSound o def (s, err _) h = h

  apply-IsSound : (op : Operation) (s : EventLog) → IsSound s → IsSound (apply show op s)
  unfolding apply set_git_sha set_host_info set_deterministic_time clear_deterministic_time
      clear_capture_stats set_allocation_whitelist_hooks request_snapshot_bb emit_bt_def
  apply-IsSound (to_file_enabled b) s h = set_file_enabled-IsSound b s h
  apply-IsSound (to_ring_capacity n) s h = set_ring_capacity-IsSound n s h
  apply-IsSound (to_tick_hz hz) s h = set_tick_hz-IsSound hz s h
  apply-IsSound (to_path path) s h = set_path-IsSound path s h
  apply-IsSound (to_run_id id) s h = set_run_id-IsSound id s h
  apply-IsSound empty_ring s h = clear_ring-IsSound s h
  apply-IsSound snapshot_consumption s h = consumption-IsSound s h
  apply-IsSound whitelist_entry s h = call_hook-IsSound _ s h
  apply-IsSound whitelist_exit s h = call_hook-IsSound _ s h
  apply-IsSound (event o type_name tick data_json) s h = emit-IsSound o type_name tick data_json s h
  apply-IsSound (run_start o tree_hash capabilities) s h =
      ensure_run_started-IsSound o tree_hash capabilities s h
  apply-IsSound (definition o o' def) s h =
      emit_def-IsSound o' def _
        (ensure_run_started-IsSound o (tree_hash_of show def) (codes "{\"reset\":true}") s h)
  apply-IsSound (to_enabled _) s h = h
  apply-IsSound (to_flush_on_tick_end _) s h = h
  apply-IsSound (to_flush_each_message _) s h = h
  apply-IsSound (to_tick_audit_enabled _) s h = h
  apply-IsSound (to_tick_audit_warmup_complete _) s h = h
  apply-IsSound (to_tick_audit_strict_allocations _) s h = h
  apply-IsSound (to_capture_stats_enabled _) s h = h
  apply-IsSound (snapshot_request _) s h = h
  apply-IsSound (to_git_sha _) s h = h
  apply-IsSound (to_host_info _ _ _) s h = h
  apply-IsSound (to_line_listener _) s h = h
  apply-IsSound (to_deterministic_time _ _) s h = h
  apply-IsSound (to_hooks _ _) s h = h
  apply-IsSound no_deterministic_time s h = h
  apply-IsSound no_capture_stats s h = h

  run-keeps : (ops : List Operation) (s : EventLog) → IsSound s → IsSound (run show ops s)
  run-keeps [] s h = h
  run-keeps (op ∷ ops) s h = run-keeps ops (apply show op s) (apply-IsSound op s h)

  -- Whatever is done to a new log, its ring holds no more lines than its capacity, a file that is open
  -- is the one that the log's path names, and neither the path nor the run's id is empty.
  pub run-IsSound :
      (capacity : ℕ) (ops : List Operation) → IsSound (run show ops (new_event_log capacity))
  run-IsSound capacity ops =
      run-keeps ops (new_event_log capacity)
        (record { room = omega arith; right_file = λ e. cc; named_path = refl; named_run = refl })
