-- ===== src/Binary/Load.antt =====
-- `load_definition_binary`, from the bytes of the file. Bytes behind the last node are not read.
use muesli_bt.Common.{
  ℕ, zero, suc, not, Option, none, some, List, [], ◌∷◌, text_eq, leb, ◌==◌, get_elem?, Result, ok,
  err, bind,
}
use muesli_bt.Ast.{
  NodeKind, seq, sel, invert, repeat, retry, cond, act, succeed, fail, running, plan_action,
  vla_request, vla_wait, vla_cancel, mem_seq, mem_sel, async_seq, reactive_seq, reactive_sel,
  ArgValue, nil, boolean, integer, floating, symbol, string, Node, Definition,
}
use muesli_bt.Binary.Validate.{
  LoadError, invalid_header, unsupported_version, unsupported_endianness, no_nodes, too_many_nodes,
  invalid_node_kind, too_many_children, too_many_args, invalid_arg_kind, validate_definition,
}
use muesli_bt.Binary.Bytes.{
  Bytes, Reader, ◌>>=◌, ◌>>◌, pure, check, read_u8, read_u32, read_i64, read_f64, read_bytes,
  read_string, k_max_serialised_items,
}
use muesli_bt.Binary.Save.{k_magic, k_format_version, k_endianness_little}

abbrev pub kinds : List NodeKind
kinds =
    seq ∷ sel ∷ invert ∷ repeat ∷ retry ∷ cond ∷ act ∷ succeed ∷ fail ∷ running ∷ plan_action
    ∷ vla_request ∷ vla_wait ∷ vla_cancel ∷ mem_seq ∷ mem_sel ∷ async_seq ∷ reactive_seq
    ∷ reactive_sel ∷ []

-- `is_valid_node_kind` and the cast to `node_kind`.
unfoldable pub node_kind_of : ℕ → Option NodeKind
node_kind_of raw = get_elem? kinds raw

unfoldable pub read_node_kind : Reader NodeKind
unfolding node_kind_of
read_node_kind = do
  raw ← read_u8
  elim (node_kind_of raw) [ some k ↦ pure k | none ↦ λ _. err invalid_node_kind ]

-- `is_valid_arg_kind`, and the payload that the kind calls for.
unfoldable pub read_payload : ℕ → Reader ArgValue
read_payload zero = pure nil
read_payload (suc zero) = do b ← read_u8; pure (boolean (not (b == 0)))
read_payload (suc (suc zero)) = do i ← read_i64; pure (integer i)
read_payload (suc (suc (suc zero))) = do f ← read_f64; pure (floating f)
read_payload (suc (suc (suc (suc zero)))) = do s ← read_string; pure (symbol s)
read_payload (suc (suc (suc (suc (suc zero))))) = do s ← read_string; pure (string s)
read_payload _ = λ _. err invalid_arg_kind

unfoldable pub read_arg : Reader ArgValue
unfolding read_payload
read_arg = do raw ← read_u8; read_payload raw

module _ {A : Type 0} where
  unfoldable pub read_times : ℕ → Reader A → Reader (List A)
  read_times zero read = pure []
  read_times (suc n) read = do x ← read; xs ← read_times n read; pure (x ∷ xs)

unfoldable pub read_node : ℕ → Reader Node
read_node i = do
  kind ← read_node_kind
  _ ← read_u8
  _ ← read_u8
  _ ← read_u8
  int_param ← read_i64
  child_count ← read_u32
  check (leb child_count k_max_serialised_items) too_many_children
  children ← read_times child_count read_u32
  leaf_name ← read_string
  arg_count ← read_u32
  check (leb arg_count k_max_serialised_items) too_many_args
  args ← read_times arg_count read_arg
  pure (record {
    kind = kind;
    id = i;
    children = children;
    leaf_name = leaf_name;
    args = args;
    int_param = int_param;
  })

-- `count` nodes, the first of which has the id `i`.
unfoldable pub read_nodes : ℕ → ℕ → Reader (List Node)
read_nodes zero i = pure []
read_nodes (suc count) i = do n ← read_node i; ns ← read_nodes count (suc i); pure (n ∷ ns)

unfoldable pub read_definition : Reader Definition
read_definition = do
  magic ← read_bytes 4
  check (text_eq magic k_magic) invalid_header
  version ← read_u32
  check (version == k_format_version) unsupported_version
  endianness ← read_u8
  check (endianness == k_endianness_little) unsupported_endianness
  _ ← read_u8
  _ ← read_u8
  _ ← read_u8
  node_count ← read_u32
  check (not (node_count == 0)) no_nodes
  check (leb node_count k_max_serialised_items) too_many_nodes
  root ← read_u32
  nodes ← read_nodes node_count 0
  pure (record {
    nodes = nodes;
    root = root;
    source_hash = [];
    canonical_dsl_hash = [];
    canonical_dsl = [];
  })

unfoldable pub load_definition_binary : Bytes → Result LoadError Definition
load_definition_binary bytes =
    bind (read_definition bytes) λ (def, _). bind (validate_definition def) λ _. ok def
