-- ===== src/EventLog/Once.antt =====
-- A run is started once.
use muesli_bt.Common.{
  ℕ, ◌≡◌, refl, Bool, true, false, none, if◌then◌else◌, if-true, Text, codes, Result, ok, err,
}
use muesli_bt.EventLog.State.{EventLog}
use muesli_bt.EventLog.Emit.{Outside, Fault, emit}
use muesli_bt.EventLog.Started.{run_start_data, mark_started, ensure_run_started}

module _ (show : ℕ → Text) where
  pub already_started :
      (o : Outside) (tree_hash capabilities : Text) (s : EventLog)
      → s.run_started ≡ true
      → ensure_run_started show o tree_hash capabilities s ≡ (s, ok tt)
  unfolding ensure_run_started
  already_started o tree_hash capabilities s h =
      if-true s.run_started (s, ok tt)
        (mark_started
          (emit o (codes "run_start") none (run_start_data show tree_hash capabilities s) s))
        h

  marked :
      (r : EventLog × Result Fault ℕ)
      → (mark_started r).1 ≡ ok tt
      → (mark_started r).0.run_started ≡ true
  marked (s, ok _) h = refl
  marked (s, err e) h = cc

  started :
      (o : Outside) (tree_hash capabilities : Text) (s : EventLog)
      → (ensure_run_started show o tree_hash capabilities s).1 ≡ ok tt
      → (ensure_run_started show o tree_hash capabilities s).0.run_started ≡ true
  unfolding ensure_run_started
  started o tree_hash capabilities s =
      let first =
        emit o (codes "run_start") none (run_start_data show tree_hash capabilities s) s in
      go s.run_started refl (mark_started first) (marked first)
    where
      go :
          (b : Bool)
          → s.run_started ≡ b
          → (r : EventLog × Result Fault (Unit {0})) → (r.1 ≡ ok tt → r.0.run_started ≡ true)
          → (if b then (s, ok tt) else r).1 ≡ ok tt
          → (if b then (s, ok tt) else r).0.run_started ≡ true
      go true e r k h = e
      go false e r k h = k h

  -- When the start of a run was emitted without an exception, or had been before, asking for it again,
  -- with whatever data, emits nothing and changes nothing.
  pub ensure_run_started-once :
      (o o' : Outside) (tree_hash tree_hash' capabilities capabilities' : Text) (s : EventLog)
      → (ensure_run_started show o tree_hash capabilities s).1 ≡ ok tt
      → ensure_run_started show o' tree_hash' capabilities'
          ((ensure_run_started show o tree_hash capabilities s).0)
        ≡ ((ensure_run_started show o tree_hash capabilities s).0, ok tt)
  ensure_run_started-once o o' tree_hash tree_hash' capabilities capabilities' s h =
      already_started o' tree_hash' capabilities' _ (started o tree_hash capabilities s h)
