-- ===== src/Blackboard/Writes.antt =====
-- What the blackboard holds after writes in a tick, and what they report.
use muesli_bt.Common.{
  ℕ, ◌^◌, ◌≤◌, ◌<◌, ◌≡◌, refl, ◌∙◌, ap, Bool, true, false, Option, none, some, List, [], ◌∷◌, ◌++◌,
  length, length-append, leb, leb→le, if◌then◌else◌, Text, codes, text_eq, to_string,
  length-to_string-u64, ℤ, Result, ok, err, arith,
}
use muesli_bt.Maps.{find, insert, find-inserted}
use muesli_bt.EventLog.State.{EventLog}
use muesli_bt.EventLog.Emit.{Outside, Fault}
use muesli_bt.Blackboard.Entries.{
  BbValue, BbEntry, Blackboard, get, put, bb_value_json, bb_preview_json, bb_value_type_name,
}
use muesli_bt.Blackboard.Access.{
  TickContext, AccessEvent, emit_access, with_events, report_write, store, bb_put, bb_get,
}

-- A call of `bb_put`.
pub record Write : Type 0 where
  pub outside : Outside
  pub ts : ℤ
  pub key : Text
  pub value : BbValue
  pub writer_name : Text

-- The blackboard and what an entry takes from the context.
pub record Place : Type 0 where
  pub bb : Blackboard
  pub tick_index : ℕ
  pub node : ℕ

abbrev place : TickContext → Place
place ctx = record { bb = ctx.bb; tick_index = ctx.tick_index; node = ctx.current_node }

abbrev pub entry_of : ℕ → ℕ → Write → BbEntry
entry_of tick node w = record {
  value = w.value;
  last_write_tick = tick;
  last_write_ts = w.ts;
  last_writer_node_id = node;
  last_writer_name = w.writer_name;
}

-- The entry of the last of the writes to a key, and `before` if there is none.
abbrev pub latest : ℕ → ℕ → Text → List Write → Option BbEntry → Option BbEntry
latest tick node key [] before = before
latest tick node key (w ∷ writes) before =
    latest tick node key writes (if text_eq w.key key then some (entry_of tick node w) else before)

place-emit_access : (ev : AccessEvent) (ctx : TickContext) → place (emit_access ev ctx) ≡ place ctx
unfolding emit_access
place-emit_access ev ctx = by_test ctx.trace_enabled _ ctx refl
  where
    by_test :
        (b : Bool) (t s : TickContext) → place t ≡ place s → place (if b then t else s) ≡ place s
    by_test true t s h = h
    by_test false t s h = refl

place-with_events :
    (r : EventLog × Result Fault ℕ) (ctx : TickContext) → place ((with_events r ctx).0) ≡ place ctx
place-with_events (log, ok _) ctx = refl
place-with_events (log, err _) ctx = refl

length-type_name : (value : BbValue) → length (bb_value_type_name value) ≤ 12
unfolding bb_value_type_name
length-type_name BbValue.nil = omega arith
length-type_name (BbValue.boolean _) = omega arith
length-type_name (BbValue.int64 _) = omega arith
length-type_name (BbValue.float64 _) = omega arith
length-type_name (BbValue.string _) = omega arith
length-type_name (BbValue.float64s _) = omega arith
length-type_name (BbValue.image_handle _) = omega arith
length-type_name (BbValue.blob_handle _) = omega arith

length-joined :
    (start name middle digits end : Text)
    → length start ≤ 40
    → length name ≤ 12
    → length middle ≤ 40
    → length digits ≤ 20
    → length end ≤ 40
    → length (start ++ name ++ middle ++ digits ++ end) ≤ 4096
length-joined start name middle digits end h k l m n = omega (
  arith,
  h,
  k,
  l,
  m,
  n,
  length-append start name,
  length-append (start ++ name) middle,
  length-append (start ++ name ++ middle) digits,
  length-append (start ++ name ++ middle ++ digits) end,
)

length_if :
    (b : Bool) (s t : Text)
    → (b ≡ true → length s ≤ 4096)
    → length t ≤ 4096
    → length (if b then s else t) ≤ 4096
length_if true s t h k = h refl
length_if false s t h k = k

module _ (show : ℕ → Text) where
  -- Whether or not the events could be written.
  abbrev pub write_one : Write → TickContext → TickContext
  write_one w ctx = (bb_put show w.outside w.ts w.key w.value w.writer_name ctx).0

  abbrev pub write_all : List Write → TickContext → TickContext
  write_all [] ctx = ctx
  write_all (w ∷ writes) ctx = write_all writes (write_one w ctx)

  place-report_write :
      (o : Outside) (key : Text) (value : BbValue) (log : Option EventLog) (ctx : TickContext)
      → place ((report_write show o key value log ctx).0) ≡ place ctx
  place-report_write o key value none ctx = refl
  place-report_write o key value (some log) ctx = place-with_events _ ctx

  place-store :
      (w : Write) (ctx : TickContext)
      → place (store show w.ts w.key w.value w.writer_name ctx) ≡ record {
        bb = insert w.key (entry_of ctx.tick_index ctx.current_node w) ctx.bb;
        tick_index = ctx.tick_index;
        node = ctx.current_node;
      }
  unfolding store put
  place-store w ctx = place-emit_access _ (record ctx { bb = _ })

  place-write_one :
      (w : Write) (ctx : TickContext)
      → place (write_one w ctx) ≡ record {
        bb = insert w.key (entry_of ctx.tick_index ctx.current_node w) ctx.bb;
        tick_index = ctx.tick_index;
        node = ctx.current_node;
      }
  unfolding bb_put
  place-write_one w ctx =
      let t = store show w.ts w.key w.value w.writer_name ctx in
      place-report_write w.outside w.key w.value t.events t ∙ place-store w ctx

  find-write_all :
      (key : Text) (writes : List Write) (ctx : TickContext)
      → find key (write_all writes ctx).bb
        ≡ latest ctx.tick_index ctx.current_node key writes (find key ctx.bb)
  find-write_all key [] ctx = refl
  find-write_all key (w ∷ writes) ctx =
      let one = place-write_one w ctx in
      find-write_all key writes (write_one w ctx)
      ∙ ap (λ p. latest p.tick_index p.node key writes (find key p.bb)) one
      ∙ ap (latest ctx.tick_index ctx.current_node key writes) (find-inserted w.key key _ ctx.bb)

  -- After writes in a tick, reading a key gives the entry of the last write to it, with its tick, its
  -- node and its writer, and the entry that was there before if no write was to it, whether or not the
  -- events of the writes could be written.
  pub bb_get-latest :
      (key : Text) (writes : List Write) (ctx : TickContext)
      → (bb_get show key (write_all writes ctx)).0
        ≡ latest ctx.tick_index ctx.current_node key writes (get key ctx.bb)
  unfolding bb_get get
  bb_get-latest key writes ctx = find-write_all key writes ctx

  -- The text that `emit` takes to preview a value has at most 4096 bytes, if the value's own text has
  -- fewer than 2 ^ 64.
  pub length-bb_preview_json :
      (value : BbValue)
      → length (bb_value_json show value) < 2 ^ 64
      → length (bb_preview_json show value) ≤ 4096
  unfolding bb_preview_json
  length-bb_preview_json value h =
      let size = length (bb_value_json show value) in
      length_if (leb size 4096) _ _ (leb→le size 4096) (
        length-joined (codes "{\"_truncated\":true,\"_type\":\"") (bb_value_type_name value)
          (codes "\",\"_bytes\":") (to_string size) (codes "}") (omega arith)
          (length-type_name value) (omega arith) (length-to_string-u64 size h) (omega arith))
