-- ===== src/EventLog/Line.antt =====
-- The line of an event (src/bt/event_log.cpp: `serialise_event_line`, `serialise_event_line_size`), and
-- the version of the contract that it names (contracts/.../version.hpp).
use muesli_bt.Common.{ℕ, ◌+◌, Option, none, some, [], ◌∷◌, ◌++◌, length, Text, codes, ℤ, pos}
use muesli_bt.EventLog.Json.{append_json_escaped, escaped_json_size, append_integer, integer_length}

abbrev pub runtime_contract_version : Text
runtime_contract_version = codes "1.0.0"

abbrev pub runtime_contract_id : Text
runtime_contract_id = codes "runtime-contract-v1.0.0"

-- The arguments of `serialise_event_line`.
pub record EventFields : Type 0 where
  pub type_name : Text
  pub run_id : Text
  pub unix_ms : ℤ
  pub seq : ℕ
  pub tick : Option ℕ
  pub data_json : Text

unfoldable pub append_tick : Text → Option ℕ → Text
append_tick out none = out
append_tick out (some tick) = append_integer (out ++ codes ",\"tick\":") (pos tick)

unfoldable pub serialise_event_line : EventFields → Text
serialise_event_line e =
    let out = codes "{\"schema\":\"mbt.evt.v1\",\"contract_version\":\"" in
    let out = append_json_escaped out runtime_contract_version in
    let out = append_json_escaped (out ++ codes "\",\"type\":\"") e.type_name in
    let out = append_json_escaped (out ++ codes "\",\"run_id\":\"") e.run_id in
    let out = append_integer (out ++ codes "\",\"unix_ms\":") e.unix_ms in
    let out = append_integer (out ++ codes ",\"seq\":") (pos e.seq) in
    let out = append_tick out e.tick in
    let out = out ++ codes ",\"data\":" in let out = out ++ e.data_json in out ++ b'}' ∷ []

unfoldable pub add_tick_size : ℕ → Option ℕ → ℕ
add_tick_size size none = size
add_tick_size size (some tick) = size + length (codes ",\"tick\":") + integer_length (pos tick)

unfoldable pub serialise_event_line_size : EventFields → ℕ
serialise_event_line_size e =
    let size = length (codes "{\"schema\":\"mbt.evt.v1\",\"contract_version\":\"") in
    let size = size + escaped_json_size runtime_contract_version in
    let size = size + length (codes "\",\"type\":\"") + escaped_json_size e.type_name in
    let size = size + length (codes "\",\"run_id\":\"") + escaped_json_size e.run_id in
    let size = size + length (codes "\",\"unix_ms\":") + integer_length e.unix_ms in
    let size = size + length (codes ",\"seq\":") + integer_length (pos e.seq) in
    let size = add_tick_size size e.tick in
    let size = size + length (codes ",\"data\":") + length e.data_json in size + 1
