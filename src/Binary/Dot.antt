-- ===== src/Binary/Dot.antt =====
-- `export_definition_dot` of src/bt/serialisation.cpp: the text that it writes, or the error of the
-- validation. The stream, and a failure to open or write it, are left out.
use muesli_bt.Common.{
  ℕ, suc, ◌+◌, ◌≡◌, refl, ◌∙◌, Bool, true, false, Bool-cases, inl, inr, List, [], ◌∷◌, ◌++◌, length,
  All, ◌==◌, if◌then◌else◌, Text, codes, is_empty, to_string, to_string-All, Result, ok, ◌>>◌,
  arith,
}
use muesli_bt.Ast.{NodeKind, repeat, retry, Node, Definition}
use muesli_bt.Binary.Validate.{validate_definition, LoadError}
use muesli_bt.EventLog.Json.{integer_text}

unfoldable pub node_kind_name : NodeKind → Text
node_kind_name NodeKind.seq = codes "seq"
node_kind_name NodeKind.sel = codes "sel"
node_kind_name NodeKind.invert = codes "invert"
node_kind_name NodeKind.repeat = codes "repeat"
node_kind_name NodeKind.retry = codes "retry"
node_kind_name NodeKind.cond = codes "cond"
node_kind_name NodeKind.act = codes "act"
node_kind_name NodeKind.succeed = codes "succeed"
node_kind_name NodeKind.fail = codes "fail"
node_kind_name NodeKind.running = codes "running"
node_kind_name NodeKind.plan_action = codes "plan-action"
node_kind_name NodeKind.vla_request = codes "vla-request"
node_kind_name NodeKind.vla_wait = codes "vla-wait"
node_kind_name NodeKind.vla_cancel = codes "vla-cancel"
node_kind_name NodeKind.mem_seq = codes "mem-seq"
node_kind_name NodeKind.mem_sel = codes "mem-sel"
node_kind_name NodeKind.async_seq = codes "async-seq"
node_kind_name NodeKind.reactive_seq = codes "reactive-seq"
node_kind_name NodeKind.reactive_sel = codes "reactive-sel"

-- What the switch of `dot_escape` appends.
unfoldable pub dot_escaped : ℕ → Text
dot_escaped c =
    if c == b'\\'
    then codes "\\\\"
    else if c == b'"'
    then codes "\\\""
    else if c == b'\n'
    then codes "\\n"
    else if c == b'\r'
    then codes "\\r"
    else if c == b'\t'
    then codes "\\t"
    else c ∷ []

unfoldable pub dot_escape : Text → Text
unfolding dot_escaped
dot_escape [] = []
dot_escape (c ∷ text) = dot_escaped c ++ dot_escape text

-- The counts of `repeat` and `retry` stand in the label.
abbrev pub label_count : NodeKind → Text → Text
label_count repeat count = codes " " ++ count
label_count retry count = codes " " ++ count
label_count _ count = []

unfoldable pub node_label : Node → Text
unfolding node_kind_name integer_text
node_label n =
    codes "id="
    ++ to_string n.id
    ++ codes "\n"
    ++ (if is_empty n.leaf_name then [] else n.leaf_name ++ codes "\n")
    ++ codes "["
    ++ node_kind_name n.kind
    ++ label_count n.kind (integer_text n.int_param)
    ++ codes "]"

unfoldable pub dot_node : ℕ → Node → Text
unfolding dot_escape node_label
dot_node root n =
    codes "  n"
    ++ (to_string n.id
        ++ (codes " [label=\""
            ++ (dot_escape (node_label n)
                ++ (codes "\""
                    ++ ((if n.id == root then codes ", style=\"bold\"" else []) ++ codes "];\n")))))

unfoldable pub dot_edge : ℕ → ℕ → Text
dot_edge id child =
    codes "  n" ++ (to_string id ++ (codes " -> n" ++ (to_string child ++ codes ";\n")))

unfoldable pub dot_nodes : ℕ → List Node → Text
unfolding dot_node
dot_nodes root [] = []
dot_nodes root (n ∷ nodes) = dot_node root n ++ dot_nodes root nodes

abbrev pub dot_children : ℕ → List ℕ → Text
dot_children id [] = []
dot_children id (child ∷ children) = dot_edge id child ++ dot_children id children

unfoldable pub dot_edges : List Node → Text
unfolding dot_edge
dot_edges [] = []
dot_edges (n ∷ nodes) = dot_children n.id n.children ++ dot_edges nodes

unfoldable pub dot_text : Definition → Text
unfolding dot_nodes dot_edges
dot_text def =
    codes
      "digraph bt {\n  rankdir=TB;\n  node [shape=box, fontname=\"Helvetica\"];\n  edge [fontname=\"Helvetica\"];\n"
    ++ (dot_nodes def.root def.nodes ++ (dot_edges def.nodes ++ codes "}\n"))

unfoldable pub export_definition_dot : Definition → Result LoadError Text
unfolding dot_text
export_definition_dot def = validate_definition def >> ok (dot_text def)

-- The number of line breaks in a text.
abbrev pub line_breaks : Text → ℕ
line_breaks [] = 0
line_breaks (c ∷ text) = if c == b'\n' then suc (line_breaks text) else line_breaks text

line_breaks-append : (s t : Text) → line_breaks (s ++ t) ≡ line_breaks s + line_breaks t
line_breaks-append [] t = omega arith
line_breaks-append (c ∷ s) t = elim (Bool-cases (c == b'\n')) [
  | inl e ↦ rw (e, line_breaks-append s t) (omega arith)
  | inr e ↦ rw (e, line_breaks-append s t) refl
]

-- Bytes that are no line breaks.
abbrev IsPlain : ℕ → Type 0
IsPlain c = (c == b'\n') ≡ false

line_breaks-IsPlain : (text : Text) → All IsPlain text → line_breaks text ≡ 0
line_breaks-IsPlain [] h = refl
line_breaks-IsPlain (c ∷ text) h = rw h.0 (line_breaks-IsPlain text h.1)

line_breaks-to_string : (n : ℕ) → line_breaks (to_string n) ≡ 0
line_breaks-to_string n =
    line_breaks-IsPlain (to_string n) (to_string-All IsPlain (λ d. ground arith) n)

line_breaks-dot_escaped : (c : ℕ) → line_breaks (dot_escaped c) ≡ 0
unfolding dot_escaped
line_breaks-dot_escaped c = ground arith

line_breaks-dot_escape : (text : Text) → line_breaks (dot_escape text) ≡ 0
unfolding dot_escape
line_breaks-dot_escape [] = refl
line_breaks-dot_escape (c ∷ text) =
    let a = line_breaks-append (dot_escaped c) (dot_escape text) in
    let b = line_breaks-dot_escaped c in
    let h = line_breaks-dot_escape text in omega (arith, a, b, h)

-- The style of the root.
line_breaks-style : (b : Bool) → line_breaks (if b then codes ", style=\"bold\"" else []) ≡ 0
line_breaks-style true = refl
line_breaks-style false = refl

-- A text without line breaks before another.
line_breaks-before : (s t : Text) → line_breaks s ≡ 0 → line_breaks (s ++ t) ≡ line_breaks t
line_breaks-before s t h = let a = line_breaks-append s t in omega (arith, a, h)

line_breaks-dot_node : (root : ℕ) (n : Node) → line_breaks (dot_node root n) ≡ 1
unfolding dot_node
line_breaks-dot_node root n =
    line_breaks-before (to_string n.id) _ (line_breaks-to_string n.id)
    ∙ line_breaks-before (dot_escape (node_label n)) _ (line_breaks-dot_escape (node_label n))
    ∙ line_breaks-before (if n.id == root then codes ", style=\"bold\"" else []) _
        (line_breaks-style (n.id == root))

line_breaks-dot_edge : (id child : ℕ) → line_breaks (dot_edge id child) ≡ 1
unfolding dot_edge
line_breaks-dot_edge id child =
    line_breaks-before (to_string id) _ (line_breaks-to_string id)
    ∙ line_breaks-before (to_string child) _ (line_breaks-to_string child)

line_breaks-dot_nodes :
    (root : ℕ) (nodes : List Node) → line_breaks (dot_nodes root nodes) ≡ length nodes
unfolding dot_nodes
line_breaks-dot_nodes root [] = refl
line_breaks-dot_nodes root (n ∷ nodes) =
    let a = line_breaks-append (dot_node root n) (dot_nodes root nodes) in
    let b = line_breaks-dot_node root n in
    let h = line_breaks-dot_nodes root nodes in omega (arith, a, b, h)

line_breaks-dot_children :
    (id : ℕ) (children : List ℕ) → line_breaks (dot_children id children) ≡ length children
line_breaks-dot_children id [] = refl
line_breaks-dot_children id (child ∷ children) =
    let a = line_breaks-append (dot_edge id child) (dot_children id children) in
    let b = line_breaks-dot_edge id child in
    let h = line_breaks-dot_children id children in omega (arith, a, b, h)

-- The number of edges of a tree.
abbrev pub edge_count : List Node → ℕ
edge_count [] = 0
edge_count (n ∷ nodes) = length n.children + edge_count nodes

line_breaks-dot_edges : (nodes : List Node) → line_breaks (dot_edges nodes) ≡ edge_count nodes
unfolding dot_edges
line_breaks-dot_edges [] = refl
line_breaks-dot_edges (n ∷ nodes) =
    let a = line_breaks-append (dot_children n.id n.children) (dot_edges nodes) in
    let b = line_breaks-dot_children n.id n.children in
    let h = line_breaks-dot_edges nodes in omega (arith, a, b, h)

-- A definition that is valid is exported, in one line for each node, one for each edge and five
-- others, whatever the names of its leaves are.
pub export_definition_dot-line_breaks :
    (def : Definition)
    → validate_definition def ≡ ok tt
    → (text : Text) × (export_definition_dot def ≡ ok text)
      × (line_breaks text ≡ 5 + (length def.nodes + edge_count def.nodes))
unfolding export_definition_dot
export_definition_dot-line_breaks def h =
    let a =
      line_breaks-append (dot_nodes def.root def.nodes) (dot_edges def.nodes ++ codes "}\n") in
    let b = line_breaks-append (dot_edges def.nodes) (codes "}\n") in
    let c = line_breaks-dot_nodes def.root def.nodes in
    let d = line_breaks-dot_edges def.nodes in (dot_text def, rw h refl, omega (arith, a, b, c, d))
