-- ===== src/Lisp/Reader.antt =====
-- The reader (src/reader.cpp). A position in the source is what is left of it. The recursion has fuel,
-- and `strtod`, which gives the number that a whole token stands for, is an argument.
use muesli_bt.Common.{
  ℕ, zero, suc, ◌+◌, ◌-◌, ◌*◌, ◌^◌, Bool, true, false, ◌&&◌, ◌||◌, Option, none, some, List, [],
  ◌∷◌, ◌++◌, length, take, ltb, leb, ◌==◌, if◌then◌else◌, Text, codes, text_eq, to_string,
  digits_value, ℤ, pos, negsuc, Result, ok, err, ◌>>=◌,
}
use muesli_bt.Value.{Value, list_from_vector}
use muesli_bt.Lisp.Printer.{maybe_float}

pub data ReadError : Type 0 where
  parse_error : (message : Text) (incomplete : Bool) → ReadError
  out_of_fuel : ReadError

-- A result with what is left of the source.
abbrev pub Read : Type 0 → Type 0
Read A = Result ReadError (A × Text)

-- `std::isspace` in the C locale.
abbrev pub is_space : ℕ → Bool
is_space c = (c == b' ') || (leb 9 c && leb c 13)

abbrev pub delimiter : ℕ → Bool
delimiter c = is_space c || ((c == b'(') || ((c == b')') || (c == b';')))

unfoldable mutual
  pub skip_ws_and_comments : Text → Text
  skip_ws_and_comments [] = []
  skip_ws_and_comments (c ∷ input) = elim (is_space c) [
    | true ↦ skip_ws_and_comments input
    | false ↦ elim (c == b';') [ true ↦ skip_comment input | false ↦ c ∷ input ]
  ]

  -- Up to the end of the line.
  pub skip_comment : Text → Text
  skip_comment [] = []
  skip_comment (c ∷ input) = elim (c == b'\n') [
    | true ↦ skip_ws_and_comments input
    | false ↦ skip_comment input
  ]

-- Line and column after the text, from `line` and `column` on.
abbrev pub line_column : ℕ → ℕ → Text → ℕ × ℕ
line_column line column [] = (line, column)
line_column line column (c ∷ text) =
    if c == b'\n' then line_column (suc line) 1 text else line_column line (suc column) text

-- The bytes of a token, and what follows it.
unfoldable pub read_token : Text → Text × Text
read_token [] = ([], [])
read_token (c ∷ input) = elim (delimiter c) [
  | true ↦ ([], c ∷ input)
  | false ↦ let (token, rest) = read_token input in (c ∷ token, rest)
]

abbrev pub is_digit : ℕ → Bool
is_digit c = leb b'0' c && leb c b'9'

abbrev pub all_digits : Text → Bool
all_digits [] = true
all_digits (c ∷ text) = is_digit c && all_digits text

abbrev pub is_number : Text → Bool
is_number [] = false
is_number (c ∷ text) = is_digit c && all_digits text

abbrev pub natural : Text → Option ℕ
natural text = if is_number text then some (digits_value 0 text) else none

abbrev pub positive_i64 : Option ℕ → Option ℤ
positive_i64 none = none
positive_i64 (some n) = if ltb n (2 ^ 63) then some (pos n) else none

abbrev pub negated : ℕ → ℤ
negated zero = pos 0
negated (suc n) = negsuc n

abbrev pub negative_i64 : Option ℕ → Option ℤ
negative_i64 none = none
negative_i64 (some n) = if leb n (2 ^ 63) then some (negated n) else none

-- `std::from_chars` of a whole token, which takes no plus sign and no number out of range.
unfoldable pub from_chars : Text → Option ℤ
from_chars [] = none
from_chars (c ∷ text) =
    if c == b'-' then negative_i64 (natural text) else positive_i64 (natural (c ∷ text))

abbrev pub or_symbol : Text → Option Value → Value
or_symbol token none = Value.symbol token
or_symbol token (some v) = v

abbrev pub as_integer : Option ℤ → Option Value
as_integer none = none
as_integer (some i) = some (Value.integer i)

abbrev pub as_float : Option ℕ → Option Value
as_float none = none
as_float (some d) = some (Value.floating d)

module _ (strtod : Text → Option ℕ) where
  -- The value of a token.
  unfoldable pub atom_of : Text → Value
  unfolding from_chars
  atom_of token =
      if text_eq token (codes "#t")
      then Value.boolean true
      else if text_eq token (codes "#f")
      then Value.boolean false
      else if text_eq token (codes "nil")
      then Value.nil
      else if maybe_float token
      then or_symbol token (as_float (strtod token))
      else or_symbol token (as_integer (from_chars token))

  unfoldable pub read_atom : ℕ → Text → Value × Text
  unfolding read_token atom_of
  read_atom first input = let (token, rest) = read_token input in (atom_of (first ∷ token), rest)

  module _ (source : Text) where
    -- The error names the line and the column of what is left.
    abbrev pub parse_error_here : Text → Bool → Text → ReadError
    parse_error_here message incomplete rest =
        let (line, column) = line_column 1 1 (take (length source - length rest) source) in
        parse_error
          (codes "line "
            ++ to_string line
            ++ codes ", column "
            ++ to_string column
            ++ codes ": "
            ++ message)
          incomplete

    abbrev pub unescape : ℕ → Option ℕ
    unescape c =
        if c == b'n'
        then some b'\n'
        else if c == b't'
        then some b'\t'
        else if c == b'r'
        then some b'\r'
        else if c == b'"'
        then some b'"'
        else if c == b'\\'
        then some b'\\'
        else none

    abbrev pub and_byte : ℕ → Read Text → Read Text
    and_byte c (ok (text, rest)) = ok (c ∷ text, rest)
    and_byte c (err e) = err e

    -- The byte of an escape, and then the rest of the string.
    abbrev pub or_unknown : Option ℕ → Text → Read Text → Read Text
    or_unknown none rest r = err (parse_error_here (codes "unknown string escape") false rest)
    or_unknown (some c) rest r = and_byte c r

    unfoldable mutual
      pub read_string : Text → Read Text
      read_string [] = err (parse_error_here (codes "unterminated string") true [])
      read_string (c ∷ input) = elim (c == b'"') [
        | true ↦ ok ([], input)
        | false ↦ elim (c == b'\\') [
          | true ↦ read_string_escape input
          | false ↦ and_byte c (read_string input)
        ]
      ]

      pub read_string_escape : Text → Read Text
      read_string_escape [] = err (parse_error_here (codes "unterminated string escape") true [])
      read_string_escape (c ∷ input) = or_unknown (unescape c) input (read_string input)

    abbrev pub as_string : Read Text → Read Value
    as_string (ok (text, rest)) = ok (Value.string text, rest)
    as_string (err e) = err e

    abbrev pub as_list : Read (List Value) → Read Value
    as_list (ok (items, rest)) = ok (list_from_vector items, rest)
    as_list (err e) = err e

    abbrev pub in_form : Text → Read Value → Read Value
    in_form name (ok (v, rest)) = ok (list_from_vector (Value.symbol name ∷ v ∷ []), rest)
    in_form name (err e) = err e

    -- An expression that begins with `c`, for which `expression` and `list` read what is inside.
    abbrev pub read_unquote : (Text → Read Value) → Text → Read Value
    read_unquote expression [] =
        err (parse_error_here (codes "unexpected end of input after ','") true [])
    read_unquote expression (c ∷ input) = elim (c == b'@') [
      | true ↦ in_form (codes "unquote-splicing") (expression input)
      | false ↦ in_form (codes "unquote") (expression (c ∷ input))
    ]

    abbrev pub read_from : (Text → Read Value) → (Text → Read (List Value)) → ℕ → Text → Read Value
    read_from expression list c input = elim (c == b'(') [
      | true ↦ as_list (list input)
      | false ↦ elim (c == b')') [
        | true ↦ err (parse_error_here (codes "unexpected ')'") false input)
        | false ↦ elim (c == b'\'') [
          | true ↦ in_form (codes "quote") (expression input)
          | false ↦ elim (c == b'`') [
            | true ↦ in_form (codes "quasiquote") (expression input)
            | false ↦ elim (c == b',') [
              | true ↦ read_unquote expression input
              | false ↦ elim (c == b'"') [
                | true ↦ as_string (read_string input)
                | false ↦ ok (read_atom c input)
              ]
            ]
          ]
        ]
      ]
    ]

    abbrev pub read_skipped : (Text → Read Value) → (Text → Read (List Value)) → Text → Read Value
    read_skipped expression list [] =
        err (parse_error_here (codes "unexpected end of input") true [])
    read_skipped expression list (c ∷ input) = read_from expression list c input

    abbrev pub and_item : Value → Read (List Value) → Read (List Value)
    and_item v (ok (items, rest)) = ok (v ∷ items, rest)
    and_item v (err e) = err e

    abbrev pub then_items : (Text → Read (List Value)) → Read Value → Read (List Value)
    then_items list (ok (v, rest)) = and_item v (list rest)
    then_items list (err e) = err e

    abbrev pub list_skipped :
        (Text → Read Value) → (Text → Read (List Value)) → Text → Read (List Value)
    list_skipped expression list [] = err (parse_error_here (codes "unterminated list") true [])
    list_skipped expression list (c ∷ input) = elim (c == b')') [
      | true ↦ ok ([], input)
      | false ↦ then_items list (expression (c ∷ input))
    ]

    unfoldable mutual
      pub read_expr : ℕ → Text → Read Value
      read_expr zero input = err out_of_fuel
      read_expr (suc fuel) input =
          read_skipped (read_expr fuel) (read_list fuel) (skip_ws_and_comments input)

      pub read_list : ℕ → Text → Read (List Value)
      read_list zero input = err out_of_fuel
      read_list (suc fuel) input =
          list_skipped (read_expr fuel) (read_list fuel) (skip_ws_and_comments input)

    abbrev pub all_skipped :
        (Text → Read Value)
        → (Text → Result ReadError (List Value))
        → Text
        → Result ReadError (List Value)
    all_skipped expression more [] = ok []
    all_skipped expression more (c ∷ input) = do
      (v, rest) ← expression (c ∷ input)
      values ← more rest
      ok (v ∷ values)

    unfoldable pub read_expressions : ℕ → Text → Result ReadError (List Value)
    unfolding read_expr skip_ws_and_comments
    read_expressions zero input = err out_of_fuel
    read_expressions (suc fuel) input =
        all_skipped (read_expr fuel) (read_expressions fuel) (skip_ws_and_comments input)

  -- Each byte is read once, by an expression or by a list.
  unfoldable pub read_all : Text → Result ReadError (List Value)
  unfolding read_expressions
  read_all source = read_expressions source (2 * length source + 2) source

  abbrev pub only_one : List Value → Result ReadError Value
  only_one [] =
      err (parse_error (codes "line 1, column 1: expected one expression, got none") false)
  only_one (v ∷ []) = ok v
  only_one (v ∷ w ∷ values) =
      err (parse_error (codes "line 1, column 1: expected one expression, got multiple") false)

  unfoldable pub read_one : Text → Result ReadError Value
  unfolding read_all
  read_one source = do values ← read_all source; only_one values
