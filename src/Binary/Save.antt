-- ===== src/Binary/Save.antt =====
-- `save_definition_binary`: the bytes that it writes, or the error that it throws. The stream
-- itself, and a failure to open or write it, are left out.
use muesli_bt.Common.{
  ℕ, ◌-◌, ◌^◌, Bool, List, [], ◌∷◌, ◌++◌, codes, Text, leb, if◌then◌else◌, length, Result, ok,
  ◌>>=◌, require, ◌>>◌,
}
use muesli_bt.Ast.{
  NodeKind, seq, sel, invert, repeat, retry, cond, act, succeed, fail, running, plan_action,
  vla_request, vla_wait, vla_cancel, mem_seq, mem_sel, async_seq, reactive_seq, reactive_sel,
  ArgValue, nil, boolean, integer, floating, symbol, string, Node, Definition,
}
use muesli_bt.Binary.Bytes.{
  Bytes, write_u8, write_u32, write_i64, write_f64, write_string, k_max_serialised_items,
}

pub data SaveError : Type 0 where
  too_many_nodes too_many_children too_many_args string_too_long : SaveError

-- `static_cast<std::uint8_t>(kind)`: the position in the declaration of `node_kind`.
abbrev pub kind_code : NodeKind → ℕ
kind_code seq = 0
kind_code sel = 1
kind_code invert = 2
kind_code repeat = 3
kind_code retry = 4
kind_code cond = 5
kind_code act = 6
kind_code succeed = 7
kind_code fail = 8
kind_code running = 9
kind_code plan_action = 10
kind_code vla_request = 11
kind_code vla_wait = 12
kind_code vla_cancel = 13
kind_code mem_seq = 14
kind_code mem_sel = 15
kind_code async_seq = 16
kind_code reactive_seq = 17
kind_code reactive_sel = 18

abbrev pub k_magic : Bytes
k_magic = codes "MBT1"

abbrev pub k_format_version : ℕ
k_format_version = 1

abbrev pub k_endianness_little : ℕ
k_endianness_little = 1

-- `write_string` with its own check.
unfoldable pub save_string : Text → Result SaveError Bytes
save_string text = do
  require (leb (length text) (2 ^ 32 - 1)) string_too_long
  ok (write_string text)

-- `arg.bool_v ? 1 : 0`
abbrev pub bool_code : Bool → ℕ
bool_code b = if b then 1 else 0

unfoldable pub save_arg : ArgValue → Result SaveError Bytes
unfolding save_string
save_arg nil = ok (write_u8 0)
save_arg (boolean b) = ok (write_u8 1 ++ write_u8 (bool_code b))
save_arg (integer i) = ok (write_u8 2 ++ write_i64 i)
save_arg (floating f) = ok (write_u8 3 ++ write_f64 f)
save_arg (symbol s) = do text ← save_string s; ok (write_u8 4 ++ text)
save_arg (string s) = do text ← save_string s; ok (write_u8 5 ++ text)

module _ {A : Type 0} where
  unfoldable pub save_each : (A → Result SaveError Bytes) → List A → Result SaveError Bytes
  save_each save [] = ok []
  save_each save (x ∷ xs) = do bytes ← save x; rest ← save_each save xs; ok (bytes ++ rest)

unfoldable pub save_node : Node → Result SaveError Bytes
save_node n = do
  require (leb (length n.children) k_max_serialised_items) too_many_children
  children ← save_each (λ c. ok (write_u32 c)) n.children
  name ← save_string n.leaf_name
  require (leb (length n.args) k_max_serialised_items) too_many_args
  args ← save_each save_arg n.args
  ok (
      write_u8 (kind_code n.kind)
      ++ (write_u8 0
          ++ (write_u8 0
              ++ (write_u8 0
                  ++ (write_i64 n.int_param
                      ++ (write_u32 (length n.children)
                          ++ (children ++ (name ++ (write_u32 (length n.args) ++ args)))))))))

unfoldable pub save_definition_binary : Definition → Result SaveError Bytes
save_definition_binary def = do
  require (leb (length def.nodes) k_max_serialised_items) too_many_nodes
  nodes ← save_each save_node def.nodes
  ok (
      k_magic
      ++ (write_u32 k_format_version
          ++ (write_u8 k_endianness_little
              ++ (write_u8 0
                  ++ (write_u8 0
                      ++ (write_u8 0
                          ++ (write_u32 (length def.nodes) ++ (write_u32 def.root ++ nodes))))))))
