-- ===== src/Lisp/Printer.antt =====
-- The printer of Lisp values (src/printer.cpp), with `type_name` of src/value.cpp. A `double` is its
-- 64-bit pattern, and how a stream writes a finite one with 15 digits is the argument `show`.
use muesli_bt.Common.{
  ℕ, ◌%◌, ◌^◌, Bool, true, false, ◌&&◌, ◌||◌, [], ◌∷◌, ◌++◌, ◌==◌, ltb, leb, if◌then◌else◌, Text,
  codes, to_string, Result, ok, err, ◌>>=◌,
}
use muesli_bt.Value.{Value}
use muesli_bt.EventLog.Json.{integer_text}

-- What the switch of `escape_string` appends.
unfoldable pub string_escape : ℕ → Text
string_escape c =
    if c == b'\\'
    then codes "\\\\"
    else if c == b'"'
    then codes "\\\""
    else if c == b'\n'
    then codes "\\n"
    else if c == b'\t'
    then codes "\\t"
    else if c == b'\r'
    then codes "\\r"
    else c ∷ []

unfoldable pub escape_string : Text → Text
unfolding string_escape
escape_string [] = []
escape_string (c ∷ text) = string_escape c ++ escape_string text

-- `std::isnan` and `std::isinf`, by the bits under the sign.
abbrev pub is_nan : ℕ → Bool
is_nan d = ltb 0x7FF0_0000_0000_0000 (d % 2 ^ 63)

abbrev pub is_inf : ℕ → Bool
is_inf d = (d % 2 ^ 63) == 0x7FF0_0000_0000_0000

abbrev pub contains : ℕ → Text → Bool
contains c [] = false
contains c (d ∷ text) = (d == c) || contains c text

-- Whether the reader takes a token for a float.
abbrev pub maybe_float : Text → Bool
maybe_float text = contains b'.' text || (contains b'e' text || contains b'E' text)

module _ (show : ℕ → Text) where
  unfoldable pub format_float : ℕ → Text
  format_float d =
      if is_nan d
      then codes "nan"
      else if is_inf d
      then (if leb (2 ^ 63) d then codes "-inf" else codes "inf")
      else if maybe_float (show d)
      then show d
      else show d ++ codes ".0"

  abbrev write_error_message : Text → Text
  write_error_message name = codes "write: cannot serialise " ++ name ++ codes " as readable data"

  -- What is no data is shown, and cannot be written.
  abbrev unreadable : Bool → Text → Text → Result Text Text
  unreadable true name text = err (write_error_message name)
  unreadable false name text = ok text

  abbrev pub print_float : Bool → ℕ → Result Text Text
  print_float readable d =
      if readable && (is_nan d || is_inf d)
      then err (codes "write: non-finite floats are not readable")
      else ok (format_float d)

  abbrev pub in_parentheses : Text → Text → Text
  in_parentheses first rest = codes "(" ++ (first ++ (rest ++ codes ")"))

  -- A value that is no pair; `print_impl` does not come here with a pair.
  unfoldable pub print_atom : Bool → Value → Result Text Text
  unfolding format_float
  print_atom readable Value.nil = ok (codes "nil")
  print_atom readable (Value.boolean b) = ok (if b then codes "#t" else codes "#f")
  print_atom readable (Value.integer i) = ok (integer_text i)
  print_atom readable (Value.floating d) = print_float readable d
  print_atom readable (Value.symbol name) = ok name
  print_atom readable (Value.string s) = ok (codes "\"" ++ (escape_string s ++ codes "\""))
  print_atom readable (Value.primitive_fn name) =
      unreadable readable (codes "primitive_fn") (codes "<primitive:" ++ name ++ codes ">")
  print_atom readable Value.closure = unreadable readable (codes "closure") (codes "<closure>")
  print_atom readable (Value.vec n) =
      unreadable readable (codes "vec") (codes "<vec:" ++ to_string n ++ codes ">")
  print_atom readable (Value.map n) =
      unreadable readable (codes "map") (codes "<map:" ++ to_string n ++ codes ">")
  print_atom readable (Value.pq n) =
      unreadable readable (codes "pq") (codes "<pq:" ++ to_string n ++ codes ">")
  print_atom readable Value.rng = unreadable readable (codes "rng") (codes "<rng>")
  print_atom readable (Value.bt_def i) =
      unreadable readable (codes "bt_def") (codes "<bt_def:" ++ integer_text i ++ codes ">")
  print_atom readable (Value.bt_instance i) =
      unreadable readable (codes "bt_instance")
        (codes "<bt_instance:" ++ integer_text i ++ codes ">")
  print_atom readable (Value.image_handle i) =
      unreadable readable (codes "image_handle")
        (codes "<image_handle:" ++ integer_text i ++ codes ">")
  print_atom readable (Value.blob_handle i) =
      unreadable readable (codes "blob_handle")
        (codes "<blob_handle:" ++ integer_text i ++ codes ">")
  print_atom readable (Value.cons _ _) = ok []

  unfoldable mutual
    unfolding print_atom

    pub print_impl : Bool → Value → Result Text Text
    print_impl readable (Value.cons a d) = do
      first ← print_impl readable a
      rest ← print_rest readable d
      ok (in_parentheses first rest)
    print_impl readable v = print_atom readable v

    -- The rest of a list: the items after the first, and what is not a list after a dot.
    pub print_rest : Bool → Value → Result Text Text
    print_rest readable Value.nil = ok []
    print_rest readable (Value.cons a d) = do
      item ← print_impl readable a
      rest ← print_rest readable d
      ok (codes " " ++ (item ++ rest))
    print_rest readable v = do last ← print_atom readable v; ok (codes " . " ++ last)

  unfoldable pub print_value : Value → Result Text Text
  unfolding print_impl
  print_value v = print_impl false v

  unfoldable pub write_value : Value → Result Text Text
  unfolding print_impl
  write_value v = print_impl true v
