-- ===== src/Blackboard/Entries.antt =====
-- `blackboard` (src/bt/blackboard.cpp) and the texts of its values, there and in src/bt/runtime.cpp. A
-- `double` is its 64-bit pattern, and how a stream writes it is the argument `show`.
use muesli_bt.Common.{
  ℕ, Bool, true, false, Option, none, some, List, [], ◌∷◌, ◌++◌, length, leb, if◌then◌else◌, Text,
  codes, to_string, ℤ,
}
use muesli_bt.Maps.{Map, find, insert}
use muesli_bt.EventLog.Json.{json_escape, integer_text}

-- The alternatives of `bb_value`, in their order.
pub data BbValue : Type 0 where
  nil : BbValue
  boolean : Bool → BbValue
  int64 : ℤ → BbValue
  float64 : ℕ → BbValue
  string : Text → BbValue
  float64s : List ℕ → BbValue
  image_handle : ℤ → BbValue
  blob_handle : ℤ → BbValue

-- The time is in ticks of the clock.
pub record BbEntry : Type 0 where
  pub value : BbValue
  pub last_write_tick : ℕ
  pub last_write_ts : ℤ
  pub last_writer_node_id : ℕ
  pub last_writer_name : Text

abbrev pub Blackboard : Type 0
Blackboard = Map BbEntry

abbrev is_found : Option BbEntry → Bool
is_found none = false
is_found (some _) = true

unfoldable pub has : Text → Blackboard → Bool
has key bb = is_found (find key bb)

unfoldable pub get : Text → Blackboard → Option BbEntry
unfolding find
get key bb = find key bb

-- Every field of the entry is set, whether or not the key was there.
unfoldable pub put : Text → BbValue → ℕ → ℤ → ℕ → Text → Blackboard → Blackboard
unfolding insert
put key value tick ts writer_node writer_name bb =
    insert key
      (record {
        value = value;
        last_write_tick = tick;
        last_write_ts = ts;
        last_writer_node_id = writer_node;
        last_writer_name = writer_name;
      })
      bb

-- The entries, in no order that can be relied on.
unfoldable pub snapshot : Blackboard → List (Text × BbEntry)
snapshot bb = bb

unfoldable pub clear : Blackboard → Blackboard
clear bb = []

unfoldable pub bb_value_type_name : BbValue → Text
bb_value_type_name nil = codes "nil"
bb_value_type_name (boolean _) = codes "bool"
bb_value_type_name (int64 _) = codes "int64"
bb_value_type_name (float64 _) = codes "float64"
bb_value_type_name (string _) = codes "string"
bb_value_type_name (float64s _) = codes "float64[]"
bb_value_type_name (image_handle _) = codes "image_handle"
bb_value_type_name (blob_handle _) = codes "blob_handle"

module _ (show : ℕ → Text) where
  -- With a comma before each but the first.
  abbrev pub numbers_text : Bool → List ℕ → Text
  numbers_text first [] = []
  numbers_text first (d ∷ ds) = (if first then [] else codes ",") ++ show d ++ numbers_text false ds

  unfoldable pub bb_value_repr : BbValue → Text
  bb_value_repr nil = codes "nil"
  bb_value_repr (boolean b) = if b then codes "#t" else codes "#f"
  bb_value_repr (int64 i) = integer_text i
  bb_value_repr (float64 d) = show d
  bb_value_repr (float64s ds) = codes "[" ++ numbers_text true ds ++ codes "]"
  bb_value_repr (image_handle id) = codes "image_handle(" ++ integer_text id ++ codes ")"
  bb_value_repr (blob_handle id) = codes "blob_handle(" ++ integer_text id ++ codes ")"
  bb_value_repr (string s) = s

  unfoldable pub bb_value_json : BbValue → Text
  bb_value_json nil = codes "null"
  bb_value_json (boolean b) = if b then codes "true" else codes "false"
  bb_value_json (int64 i) = integer_text i
  bb_value_json (float64 d) = show d
  bb_value_json (string s) = codes "\"" ++ json_escape s ++ codes "\""
  bb_value_json (float64s ds) = codes "[" ++ numbers_text true ds ++ codes "]"
  bb_value_json (image_handle id) = codes "{\"image_handle\":" ++ integer_text id ++ codes "}"
  bb_value_json (blob_handle id) = codes "{\"blob_handle\":" ++ integer_text id ++ codes "}"

  unfoldable pub bb_preview_json : BbValue → Text
  unfolding bb_value_json bb_value_type_name
  bb_preview_json value =
      let preview = bb_value_json value in
      if leb (length preview) 4096
      then preview
      else codes "{\"_truncated\":true,\"_type\":\""
        ++ bb_value_type_name value
        ++ codes "\",\"_bytes\":"
        ++ to_string (length preview)
        ++ codes "}"
