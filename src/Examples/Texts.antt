-- ===== src/Examples/Texts.antt =====
-- A value that is written and read back, and a tree that is drawn, with the theorems applied to them.
use muesli_bt.Common.{
  ◌^◌, ◌-◌, pos, length, ◌+◌, [], ◌∷◌, text_eq, if◌then◌else◌, to_string, ℕ, ◌≡◌, refl, true,
  Option, none, some, Text, codes, negsuc, ok, err, arith,
}
use muesli_bt.Ast.{Node, NodeKind, Definition}
use muesli_bt.Binary.Validate.{
  validate_definition, check_nodes, check_node, check_children, check_shape,
}
use muesli_bt.Binary.Dot.{
  export_definition_dot, line_breaks, edge_count, export_definition_dot-line_breaks,
}
use muesli_bt.Value.{Value, list_from_vector}
use muesli_bt.Lisp.Printer.{format_float, escape_string, write_value}
use muesli_bt.EventLog.Json.{integer_text}
use muesli_bt.Lisp.Reader.{parse_error, out_of_fuel, atom_of, read_atom, read_all, read_one}
use muesli_bt.Lisp.RoundTrip.{IsReadable, read_one-write_value}
use muesli_bt.Lisp.Integers.{fits_i64, read_one-integer_text}
use muesli_bt.Lisp.Enough.{read_all-out_of_fuel}

-- One number and its text.
abbrev show : ℕ → Text
show d = codes "1.5"

abbrev strtod : Text → Option ℕ
strtod text = if text_eq text (codes "1.5") then some 0x3FF8_0000_0000_0000 else none

abbrev items : Value
items = Value.cons (Value.string (codes "a\"b")) (
    Value.cons (Value.cons (Value.integer (negsuc 1)) Value.nil) (
      Value.cons (Value.floating 0x3FF8_0000_0000_0000)
        (Value.cons (Value.symbol (codes "x")) Value.nil)))

items_text : write_value show items ≡ ok (codes "(\"a\\\"b\" (-2) 1.5 x)")
unfolding write_value escape_string integer_text to_string
items_text = refl

-- A dotted pair is written, and read as a list of three.
dotted :
    (write_value show (Value.cons Value.nil (Value.boolean true)) ≡ ok (codes "(nil . #t)"))
    × (read_one strtod (codes "(nil . #t)")
        ≡ ok (
            Value.cons Value.nil
              (Value.cons (Value.symbol (codes ".")) (Value.cons (Value.boolean true) Value.nil))))
unfolding write_value read_one read_atom list_from_vector
dotted = (refl, refl)

unterminated :
    read_one strtod (codes "(a\n (b")
    ≡ err (parse_error (codes "line 2, column 4: unterminated list") true)
unfolding read_one read_atom to_string
unterminated = refl

is_readable : IsReadable show strtod items
unfolding IsReadable format_float atom_of
is_readable = (
  tt,
  (
    (omega arith, tt),
    ((refl, ((refl, (refl, (refl, (refl, tt)))), refl)), (((refl, (refl, tt)), refl), tt)),
  ),
)

read_one-write_value_example :
    (text : Text) × (write_value show items ≡ ok text) × (read_one strtod text ≡ ok items)
read_one-write_value_example = read_one-write_value show strtod items is_readable

read_all-out_of_fuel_example : ¬ (read_all strtod (codes "(a 'b") ≡ err out_of_fuel)
read_all-out_of_fuel_example = read_all-out_of_fuel strtod (codes "(a 'b")

-- The least of the 64-bit integers and the one below it.
least_read :
    read_one strtod (codes "-9223372036854775808") ≡ ok (Value.integer (negsuc (2 ^ 63 - 1)))
unfolding read_one read_atom
least_read = refl

below_least :
    read_one strtod (codes "-9223372036854775809")
    ≡ ok (Value.symbol (codes "-9223372036854775809"))
unfolding read_one read_atom
below_least = refl

read_one-integer_text_example :
    read_one strtod (integer_text (negsuc (2 ^ 63)))
    ≡ ok (
        if fits_i64 (negsuc (2 ^ 63))
        then Value.integer (negsuc (2 ^ 63))
        else Value.symbol (integer_text (negsuc (2 ^ 63))))
read_one-integer_text_example = read_one-integer_text strtod (negsuc (2 ^ 63))

-- A leaf whose name has a quote and a line break, under an inverter.
abbrev leaf : Node
leaf = record {
  kind = NodeKind.cond;
  id = 0;
  children = [];
  leaf_name = codes "a\"\nb";
  args = [];
  int_param = pos 0;
}

abbrev inverter : Node
inverter = record leaf { kind = NodeKind.invert; id = 1; children = 0 ∷ []; leaf_name = [] }

abbrev drawn : Definition
drawn = record {
  nodes = leaf ∷ inverter ∷ [];
  root = 1;
  source_hash = [];
  canonical_dsl_hash = [];
  canonical_dsl = [];
}

drawn_is_valid : validate_definition drawn ≡ ok tt
unfolding validate_definition check_nodes check_node check_children check_shape
drawn_is_valid = refl

export_definition_dot-line_breaks_example :
    (text : Text) × (export_definition_dot drawn ≡ ok text)
    × (line_breaks text ≡ 5 + (length drawn.nodes + edge_count drawn.nodes))
export_definition_dot-line_breaks_example = export_definition_dot-line_breaks drawn drawn_is_valid
