-- ===== src/Binary/RoundTrip.antt =====
-- `load_definition_binary` after `save_definition_binary`.
use muesli_bt.Common.{
  ℕ, suc, ◌^◌, ◌≤◌, ◌<◌, ◌≡◌, refl, subst, Bool, true, false, not, List, [], ◌∷◌, ◌++◌, append-nil,
  Text, ℤ, IsI64, leb, ltb, ◌==◌, le→leb, length, All, ok, >>=-eq-ok, require, arith,
}
use muesli_bt.Ast.{
  NodeKind, seq, ArgValue, nil, boolean, integer, floating, symbol, string, Node, Definition,
}
use muesli_bt.Binary.Validate.{
  invalid_header, unsupported_version, unsupported_endianness, check_node, check_nodes,
  validate_definition,
}
use muesli_bt.Binary.Bytes.{
  Bytes, k_max_serialised_items, write_u8, write_u32, write_i64, read_u8, read_u32, read_i64,
  read_string, write_string, read_u8-write_u8, read_u32-write_u32, read_f64-write_f64,
  read_i64-write_i64, read_string-write_string, read_bytes, read_bytes-append,
}
use muesli_bt.Binary.Save.{
  kind_code, bool_code, k_magic, save_string, save_arg, save_each, save_node,
  save_definition_binary,
}
use muesli_bt.Binary.Load.{
  read_node_kind, read_payload, read_arg, read_times, read_node, read_nodes, read_definition,
  load_definition_binary,
}
use muesli_bt.Binary.Trips.{Reads, Trip, Reads-bind, Reads-map, Reads-check, Trip-each}

-- Strings that the loader accepts.
abbrev pub IsLoadable : Text → Type 0
IsLoadable text = length text ≤ 16_000_000

-- An argument that the format can hold: the payload is within its C++ type.
abbrev pub IsStorableArg : ArgValue → Type 0
IsStorableArg nil = Unit
IsStorableArg (boolean b) = Unit
IsStorableArg (integer i) = IsI64 i
IsStorableArg (floating f) = f < 2 ^ 64
IsStorableArg (symbol s) = IsLoadable s
IsStorableArg (string s) = IsLoadable s

-- A node within its C++ types and within the limits of the format.
pub record IsStorable (n : Node) : Type 0 where
  pub children_u32 : All (λ c. c < 2 ^ 32) n.children
  pub children_few : length n.children ≤ k_max_serialised_items
  pub name_short : IsLoadable n.leaf_name
  pub args_storable : All IsStorableArg n.args
  pub args_few : length n.args ≤ k_max_serialised_items
  pub int_i64 : IsI64 n.int_param

Reads-u8 : (v : ℕ) → v < 256 → Reads read_u8 (write_u8 v) v
Reads-u8 v h = record { apply = λ rest. read_u8-write_u8 v rest h }

Reads-u32 : (v : ℕ) → v < 2 ^ 32 → Reads read_u32 (write_u32 v) v
Reads-u32 v h = record { apply = λ rest. read_u32-write_u32 v rest h }

Trip-string : (s : Text) → IsLoadable s → Trip (save_string s) read_string s
unfolding save_string
Trip-string s h = record {
  bytes = write_string s;
  writes = rw (le→leb (length s) 4_294_967_295 (omega arith));
  reads = record { apply = λ rest. read_string-write_string s rest h };
}

Reads-payload :
    (code : ℕ) {payload : Bytes} {a : ArgValue}
    → code < 256
    → Reads (read_payload code) payload a
    → Reads read_arg (write_u8 code ++ payload) a
unfolding read_arg
Reads-payload code h r = Reads-bind _ (Reads-u8 code h) r

Trip-arg : (a : ArgValue) → IsStorableArg a → Trip (save_arg a) read_arg a
unfolding save_arg read_payload
Trip-arg nil h = record {
  bytes = write_u8 0;
  writes = refl;
  reads =
      rw (append-nil (write_u8 0)) at
        (Reads-payload 0 {payload = []} (omega arith) (record { apply = λ rest. refl }));
}
Trip-arg (boolean b) h = record {
  bytes = _;
  writes = refl;
  reads = Reads-payload 1 (omega arith) (record { apply = bool_payload b });
}
  where
    bool_payload :
        (b : Bool) (rest : Bytes)
        → read_payload 1 (write_u8 (bool_code b) ++ rest) ≡ ok (boolean b, rest)
    bool_payload true rest = rw (read_u8-write_u8 1 rest (omega arith))
    bool_payload false rest = rw (read_u8-write_u8 0 rest (omega arith))
Trip-arg (integer i) h = record {
  bytes = _;
  writes = refl;
  reads =
      Reads-payload 2 (omega arith)
        (Reads-map integer (record { apply = λ rest. read_i64-write_i64 i rest h }));
}
Trip-arg (floating f) h = record {
  bytes = _;
  writes = refl;
  reads =
      Reads-payload 3 (omega arith)
        (Reads-map floating (record { apply = λ rest. read_f64-write_f64 f rest h }));
}
Trip-arg (symbol s) h =
    let t = Trip-string s h in
    record {
      bytes = _;
      writes = rw (t.writes);
      reads = Reads-payload 4 (omega arith) (Reads-map symbol t.reads);
    }
Trip-arg (string s) h =
    let t = Trip-string s h in
    record {
      bytes = _;
      writes = rw (t.writes);
      reads = Reads-payload 5 (omega arith) (Reads-map string t.reads);
    }

Reads-kind : (k : NodeKind) → Reads read_node_kind (write_u8 (kind_code k)) k
unfolding read_node_kind write_u8 read_u8
Reads-kind seq = record { apply = λ rest. refl }
Reads-kind _ = record { apply = λ rest. refl }

Reads-i64 : (v : ℤ) → IsI64 v → Reads read_i64 (write_i64 v) v
Reads-i64 v h = record { apply = λ rest. read_i64-write_i64 v rest h }

Trip-child : (c : ℕ) → c < 2 ^ 32 → Trip {A = ℕ} (ok (write_u32 c)) read_u32 c
Trip-child c h = record { bytes = write_u32 c; writes = refl; reads = Reads-u32 c h }

Trip-node : (n : Node) → IsStorable n → Trip (save_node n) (read_node n.id) n
unfolding save_node read_node
Trip-node n s = record {
  bytes = _;
  writes = rw (
    le→leb (length n.children) k_max_serialised_items s.children_few,
    children.writes,
    name.writes,
    le→leb (length n.args) k_max_serialised_items s.args_few,
    args.writes,
  );
  reads = Reads-bind _ (Reads-kind n.kind) (
      Reads-bind _ reads_zero (
        Reads-bind _ reads_zero (
          Reads-bind _ reads_zero (
            Reads-bind _ (Reads-i64 n.int_param s.int_i64) (
              Reads-bind _ (Reads-u32 (length n.children) (omega (arith, s.children_few))) (
                Reads-check _ _ (le→leb (length n.children) k_max_serialised_items s.children_few) (
                  Reads-bind _ children.reads (
                    Reads-bind _ name.reads (
                      Reads-bind _ (Reads-u32 (length n.args) (omega (arith, s.args_few))) (
                        Reads-check _ _ (le→leb (length n.args) k_max_serialised_items s.args_few)
                          (Reads-map _ args.reads)))))))))));
}
  where
    reads_zero : Reads read_u8 (write_u8 0) 0
    reads_zero = Reads-u8 0 (omega arith)

    children :
        Trip
          (save_each (λ c. ok (write_u32 c)) n.children)
          (read_times (length n.children) read_u32)
          n.children
    children = Trip-each (λ c. ok (write_u32 c)) read_u32 n.children Trip-child s.children_u32

    name : Trip (save_string n.leaf_name) read_string n.leaf_name
    name = Trip-string n.leaf_name s.name_short

    args : Trip (save_each save_arg n.args) (read_times (length n.args) read_arg) n.args
    args = Trip-each save_arg read_arg n.args Trip-arg s.args_storable

-- Each node's id is its index.
abbrev IsNumbered : ℕ → List Node → Type 0
IsNumbered i [] = Unit
IsNumbered i (n ∷ ns) = (n.id ≡ i) × IsNumbered (suc i) ns

check_nodes-IsNumbered :
    (size i : ℕ) (ns : List Node) → check_nodes size i ns ≡ ok tt → IsNumbered i ns
unfolding check_nodes check_node
check_nodes-IsNumbered size i [] h = tt
check_nodes-IsNumbered size i (n ∷ ns) h =
    let (u, one, more) = >>=-eq-ok (check_node size i n) _ h in
    (ground arith, check_nodes-IsNumbered size (suc i) ns more)

Trip-nodes :
    (i : ℕ) (ns : List Node)
    → IsNumbered i ns
    → All IsStorable ns
    → Trip (save_each save_node ns) (read_nodes (length ns) i) ns
unfolding save_each read_nodes
Trip-nodes i [] h s = record { bytes = []; writes = refl; reads = record { apply = λ rest. refl } }
Trip-nodes i (n ∷ ns) h s =
    let one = subst (λ k. Trip (save_node n) (read_node k) n) h.0 (Trip-node n s.0) in
    let more = Trip-nodes (suc i) ns h.1 s.1 in
    record {
      bytes = one.bytes ++ more.bytes;
      writes = rw (one.writes, more.writes);
      reads = Reads-bind _ one.reads (Reads-map _ more.reads);
    }

-- What the file keeps of a definition: the hashes and the source are not written.
abbrev pub stored : Definition → Definition
stored def = record def { source_hash = []; canonical_dsl_hash = []; canonical_dsl = [] }

pub record IsChecked (def : Definition) : Type 0 where
  pub nonempty : 0 < length def.nodes
  pub root_in : def.root < length def.nodes
  pub nodes_checked : check_nodes (length def.nodes) 0 def.nodes ≡ ok tt

pub validate_definition-IsChecked :
    (def : Definition) → validate_definition def ≡ ok tt → IsChecked def
unfolding validate_definition
validate_definition-IsChecked def h =
    let (_, a, h') = >>=-eq-ok (require (ltb 0 (length def.nodes)) _) _ h in
    let (_, b, c) = >>=-eq-ok (require (ltb def.root (length def.nodes)) _) _ h' in
    record { nonempty = ground arith; root_in = ground arith; nodes_checked = c }

Reads-magic : Reads (read_bytes 4) k_magic k_magic
Reads-magic = record { apply = λ rest. read_bytes-append k_magic rest }

-- A definition that `validate_definition` accepts, within the C++ types and the limits of the format,
-- is saved without an error, and loading the bytes gives it back, but for the hashes and the source.
pub load-save :
    (def : Definition)
    → validate_definition def ≡ ok tt
    → length def.nodes ≤ k_max_serialised_items
    → All IsStorable def.nodes
    → (bytes : Bytes) × (save_definition_binary def ≡ ok bytes)
      × (load_definition_binary bytes ≡ ok (stored def))
unfolding save_definition_binary load_definition_binary read_definition
load-save def valid few storable =
    (bytes, rw (few_test, nodes.writes), rw (← (append-nil bytes)) (rw (reads.apply [], valid')))
  where
    checked : IsChecked def
    checked = validate_definition-IsChecked def valid

    few_test : leb (length def.nodes) k_max_serialised_items ≡ true
    few_test = le→leb (length def.nodes) k_max_serialised_items few

    nodes : Trip (save_each save_node def.nodes) (read_nodes (length def.nodes) 0) def.nodes
    nodes =
        Trip-nodes 0 def.nodes (check_nodes-IsNumbered _ 0 def.nodes checked.nodes_checked) storable

    bytes : Bytes
    bytes =
        k_magic
        ++ (write_u32 1
            ++ (write_u8 1
                ++ (write_u8 0
                    ++ (write_u8 0
                        ++ (write_u8 0
                            ++ (write_u32 (length def.nodes)
                                ++ (write_u32 def.root ++ nodes.bytes)))))))

    reads_zero : Reads read_u8 (write_u8 0) 0
    reads_zero = Reads-u8 0 (omega arith)

    some_nodes : not (length def.nodes == 0) ≡ true
    some_nodes = ground (arith, checked.nonempty)

    reads : Reads read_definition bytes (stored def)
    reads = Reads-bind _ Reads-magic (
        Reads-check true invalid_header refl (
          Reads-bind _ (Reads-u32 1 (omega arith)) (
            Reads-check true unsupported_version refl (
              Reads-bind _ (Reads-u8 1 (omega arith)) (
                Reads-check true unsupported_endianness refl (
                  Reads-bind _ reads_zero (
                    Reads-bind _ reads_zero (
                      Reads-bind _ reads_zero (
                        Reads-bind _ (Reads-u32 (length def.nodes) (omega (arith, few))) (
                          Reads-check _ _ some_nodes (
                            Reads-check _ _ few_test (
                              Reads-bind _
                                (Reads-u32 def.root (omega (arith, few, checked.root_in)))
                                (Reads-map (λ ns. record (stored def) { nodes = ns })
                                  nodes.reads)))))))))))))

    valid' : validate_definition (stored def) ≡ ok tt
    valid' = unfold validate_definition in valid
