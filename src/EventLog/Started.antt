-- ===== src/EventLog/Started.antt =====
-- The first events of a run: `ensure_run_started`, `emit_bt_def` and `append_arg_signature`
-- (src/bt/event_log.cpp). How a stream writes a `double` is the argument `show`.
use muesli_bt.Common.{
  ℕ, suc, Bool, true, false, none, List, [], ◌∷◌, ◌++◌, if◌then◌else◌, Text, codes, is_empty,
  to_string, Result, ok, err,
}
use muesli_bt.Ast.{ArgValue, Node, Definition}
use muesli_bt.Binary.Save.{kind_code}
use muesli_bt.EventLog.Json.{json_escape, integer_text}
use muesli_bt.EventLog.Hash.{hash64_hex, node_kind_name}
use muesli_bt.EventLog.Line.{runtime_contract_version, runtime_contract_id}
use muesli_bt.EventLog.State.{EventLog}
use muesli_bt.EventLog.Emit.{Outside, Fault, emit}

abbrev pub mark_started : EventLog × Result Fault ℕ → EventLog × Result Fault (Unit {0})
mark_started (s, ok _) = (record s { run_started = true }, ok tt)
mark_started (s, err e) = (s, err e)

abbrev pub ended : EventLog × Result Fault ℕ → EventLog × Result Fault (Unit {0})
ended (t, ok _) = (t, ok tt)
ended (t, err e) = (t, err e)

module _ (show : ℕ → Text) where
  -- `append_arg_signature`.
  abbrev pub arg_signature : ArgValue → Text
  arg_signature ArgValue.nil = codes "|arg-kind=0"
  arg_signature (ArgValue.boolean b) =
      codes "|arg-kind=1" ++ codes "|bool=" ++ (if b then codes "true" else codes "false")
  arg_signature (ArgValue.integer i) = codes "|arg-kind=2" ++ codes "|int=" ++ integer_text i
  arg_signature (ArgValue.floating d) = codes "|arg-kind=3" ++ codes "|float=" ++ show d
  arg_signature (ArgValue.symbol t) = codes "|arg-kind=4" ++ codes "|text=" ++ t
  arg_signature (ArgValue.string t) = codes "|arg-kind=5" ++ codes "|text=" ++ t

  abbrev arg_signatures : List ArgValue → Text
  arg_signatures [] = []
  arg_signatures (a ∷ args) = arg_signature a ++ arg_signatures args

  -- The names of the two ids that follow an arrow.
  abbrev child_arrows : List ℕ → Text
  child_arrows [] = []
  child_arrows (child ∷ children) = codes "->" ++ to_string child ++ child_arrows children

  abbrev node_signatures : List Node → Text
  node_signatures [] = []
  node_signatures (n ∷ nodes) =
      codes "|id="
      ++ to_string n.id
      ++ codes "|kind="
      ++ to_string (kind_code n.kind)
      ++ codes "|name="
      ++ n.leaf_name
      ++ codes "|int="
      ++ integer_text n.int_param
      ++ arg_signatures n.args
      ++ child_arrows n.children
      ++ node_signatures nodes

  abbrev pub fallback_tree_hash : Definition → Text
  fallback_tree_hash def =
      hash64_hex (codes "root=" ++ to_string def.root ++ node_signatures def.nodes)

  abbrev pub tree_hash_of : Definition → Text
  tree_hash_of def =
      if is_empty def.canonical_dsl_hash then fallback_tree_hash def else def.canonical_dsl_hash

  -- The data of `run_start`.
  abbrev pub run_start_data : Text → Text → EventLog → Text
  run_start_data tree_hash capabilities_json s =
      codes "{\"git_sha\":\""
      ++ json_escape s.git_sha
      ++ codes "\","
      ++ codes "\"host\":{\"name\":\""
      ++ json_escape s.host_name
      ++ codes "\",\"version\":\""
      ++ json_escape s.host_version
      ++ codes "\",\"platform\":\""
      ++ json_escape s.host_platform
      ++ codes "\"},"
      ++ codes "\"contract_version\":\""
      ++ runtime_contract_version
      ++ codes "\","
      ++ codes "\"contract_id\":\""
      ++ runtime_contract_id
      ++ codes "\","
      ++ codes "\"tick_hz\":"
      ++ show s.tick_hz
      ++ codes ","
      ++ codes "\"tree_hash\":\""
      ++ json_escape tree_hash
      ++ codes "\","
      ++ codes "\"capabilities\":"
      ++ capabilities_json
      ++ codes "}"

  abbrev node_name : Node → Text
  node_name n = if is_empty n.leaf_name then codes "node-" ++ to_string n.id else n.leaf_name

  -- The nodes, with a comma before each but the first.
  abbrev nodes_data : Bool → List Node → Text
  nodes_data first [] = []
  nodes_data first (n ∷ nodes) =
      (if first then [] else codes ",")
      ++ codes "{\"id\":"
      ++ to_string n.id
      ++ codes ",\"kind\":\""
      ++ node_kind_name n.kind
      ++ codes "\",\"name\":\""
      ++ json_escape (node_name n)
      ++ codes "\"}"
      ++ nodes_data false nodes

  -- The edges to the children of a node, which are numbered from `index` on, and then `more`, which
  -- takes whether there is no edge yet.
  abbrev child_edges : ℕ → Bool → ℕ → List ℕ → (Bool → Text) → Text
  child_edges parent first index [] more = more first
  child_edges parent first index (child ∷ children) more =
      (if first then [] else codes ",")
      ++ codes "{\"parent\":"
      ++ to_string parent
      ++ codes ",\"child\":"
      ++ to_string child
      ++ codes ",\"index\":"
      ++ to_string index
      ++ codes "}"
      ++ child_edges parent false (suc index) children more

  abbrev edges_data : Bool → List Node → Text
  edges_data first [] = []
  edges_data first (n ∷ nodes) =
      child_edges n.id first 0 n.children (λ first'. edges_data first' nodes)

  abbrev hash_field : Text → Text → Text
  hash_field name hash =
      if is_empty hash
      then []
      else codes ",\"" ++ name ++ codes "\":\"" ++ json_escape hash ++ codes "\""

  -- The data of `bt_def`.
  abbrev pub bt_def_data : Definition → Text
  bt_def_data def =
      codes "{\"tree_name\":\"bt\","
      ++ codes "\"dsl\":\""
      ++ json_escape
          (if is_empty def.canonical_dsl then codes "<runtime-definition>" else def.canonical_dsl)
      ++ codes "\","
      ++ codes "\"tree_hash\":\""
      ++ json_escape (tree_hash_of def)
      ++ codes "\""
      ++ hash_field (codes "source_hash") def.source_hash
      ++ hash_field (codes "canonical_dsl_hash") def.canonical_dsl_hash
      ++ codes ",\"nodes\":["
      ++ nodes_data true def.nodes
      ++ codes "],\"edges\":["
      ++ edges_data true def.nodes
      ++ codes "]}"

  unfoldable pub ensure_run_started :
      Outside → Text → Text → EventLog → EventLog × Result Fault (Unit {0})
  ensure_run_started o tree_hash capabilities_json s =
      if s.run_started
      then (s, ok tt)
      else mark_started
          (emit o (codes "run_start") none (run_start_data tree_hash capabilities_json s) s)

  abbrev pub emit_def :
      Outside → Definition → EventLog × Result Fault (Unit {0}) → EventLog × Result Fault (Unit {0})
  emit_def o def (s, err e) = (s, err e)
  emit_def o def (s, ok _) = ended (emit o (codes "bt_def") none (bt_def_data def) s)

  -- With what is outside for each of the two events.
  unfoldable pub emit_bt_def :
      Outside → Outside → Definition → EventLog → EventLog × Result Fault (Unit {0})
  unfolding ensure_run_started
  emit_bt_def o o' def s =
      emit_def o' def (ensure_run_started o (tree_hash_of def) (codes "{\"reset\":true}") s)
