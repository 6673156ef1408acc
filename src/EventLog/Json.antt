-- ===== src/EventLog/Json.antt =====
-- Texts and numbers in the JSON of an event (src/bt/event_log.cpp): `append_json_escaped`,
-- `escaped_json_size`, `json_escape`, `append_integer` and `integer_length`. A number is written by
-- `std::to_chars`, whose buffer of 32 bytes is large enough for every 64-bit integer.
use muesli_bt.Common.{
  ℕ, suc, ◌+◌, ◌≡◌, sym, ◌∙◌, [], ◌∷◌, ◌++◌, append_assoc, append-nil, length, length-append, ◌==◌,
  if◌then◌else◌, Text, codes, ℤ, pos, negsuc, to_string, arith,
}

-- What the switch appends for a byte.
unfoldable pub escaped : ℕ → Text
escaped c =
    if c == b'\\'
    then codes "\\\\"
    else if c == b'"'
    then codes "\\\""
    else if c == b'\n'
    then codes "\\n"
    else if c == b'\r'
    then codes "\\r"
    else if c == b'\t'
    then codes "\\t"
    else c ∷ []

unfoldable pub append_json_escaped : Text → Text → Text
append_json_escaped out [] = out
append_json_escaped out (c ∷ text) = append_json_escaped (out ++ escaped c) text

unfoldable pub json_escape : Text → Text
unfolding append_json_escaped
json_escape text = append_json_escaped [] text

unfoldable pub escaped_size : ℕ → ℕ
escaped_size c =
    if c == b'\\'
    then 2
    else if c == b'"'
    then 2
    else if c == b'\n'
    then 2
    else if c == b'\r'
    then 2
    else if c == b'\t'
    then 2
    else 1

unfoldable pub add_escaped_sizes : ℕ → Text → ℕ
add_escaped_sizes size [] = size
add_escaped_sizes size (c ∷ text) = add_escaped_sizes (size + escaped_size c) text

unfoldable pub escaped_json_size : Text → ℕ
unfolding add_escaped_sizes
escaped_json_size text = add_escaped_sizes 0 text

-- `std::to_chars` of an integer.
unfoldable pub integer_text : ℤ → Text
integer_text (pos n) = to_string n
integer_text (negsuc n) = b'-' ∷ to_string (suc n)

unfoldable pub append_integer : Text → ℤ → Text
append_integer out n = out ++ integer_text n

unfoldable pub integer_length : ℤ → ℕ
integer_length n = length (integer_text n)

-- The text is escaped byte by byte.
unfoldable pub escape_each : Text → Text
escape_each [] = []
escape_each (c ∷ text) = escaped c ++ escape_each text

pub append_json_escaped_each :
    (out text : Text) → append_json_escaped out text ≡ out ++ escape_each text
unfolding append_json_escaped escape_each
append_json_escaped_each out [] = sym (append-nil out)
append_json_escaped_each out (c ∷ text) =
    append_json_escaped_each (out ++ escaped c) text
    ∙ append_assoc out (escaped c) (escape_each text)

pub json_escape_each : (text : Text) → json_escape text ≡ escape_each text
unfolding json_escape
json_escape_each text = append_json_escaped_each [] text

pub escaped_size-length : (c : ℕ) → escaped_size c ≡ length (escaped c)
unfolding escaped escaped_size
escaped_size-length c = ground arith

add_escaped_sizes_each :
    (size : ℕ) (text : Text) → add_escaped_sizes size text ≡ size + length (escape_each text)
unfolding add_escaped_sizes escape_each
add_escaped_sizes_each size [] = omega arith
add_escaped_sizes_each size (c ∷ text) =
    add_escaped_sizes_each (size + escaped_size c) text
    ∙ omega (arith, escaped_size-length c, length-append (escaped c) (escape_each text))

pub escaped_json_size-length : (text : Text) → escaped_json_size text ≡ length (escape_each text)
unfolding escaped_json_size
escaped_json_size-length text = add_escaped_sizes_each 0 text ∙ omega arith
