-- ===== src/EventLog/Quoted.antt =====
-- The grammar of JSON strings (RFC 8259, section 7) as a reader of bytes, and what it makes of what
-- `json_escape` of src/bt/event_log.cpp writes. A byte from 128 on is a part of a character; that the
-- bytes are UTF-8 is another matter.
use muesli_bt.Common.{
  ℕ, ◌+◌, ◌-◌, ◌*◌, ◌≡◌, refl, ap, ◌∙◌, Bool, Bool-cases, inl, inr, true, false, ◌&&◌, ◌||◌, Option,
  none, some, List, [], ◌∷◌, ◌++◌, append_assoc, ◌==◌, ==→eq, ltb, leb, if◌then◌else◌, Text, arith,
}
use muesli_bt.EventLog.Json.{escaped, escape_each, json_escape, json_escape_each}

-- What a string holds: a byte, or the UTF-16 code unit of a `\u` escape.
pub data Symbol : Type 0 where
  byte : ℕ → Symbol
  unit : ℕ → Symbol

-- A string whose opening quote is read, and what follows its closing quote.
abbrev pub ReadString : Type 0
ReadString = Option (List Symbol × Text)

abbrev pub with_symbol : Option Symbol → ReadString → ReadString
with_symbol none r = none
with_symbol (some x) none = none
with_symbol (some x) (some r) = some (x ∷ r.0, r.1)

-- Bytes that stand for themselves: all but the control characters.
abbrev pub unescaped : ℕ → Option Symbol
unescaped c = if ltb c 32 then none else some (byte c)

-- The characters that follow a backslash, but for `u`.
abbrev pub escape_of : ℕ → Option Symbol
escape_of c =
    if c == b'"'
    then some (byte b'"')
    else if c == b'\\'
    then some (byte b'\\')
    else if c == b'/'
    then some (byte b'/')
    else if c == b'b'
    then some (byte 8)
    else if c == b'f'
    then some (byte 12)
    else if c == b'n'
    then some (byte b'\n')
    else if c == b'r'
    then some (byte b'\r')
    else if c == b't'
    then some (byte b'\t')
    else none

abbrev pub hex_value : ℕ → Option ℕ
hex_value c =
    if leb b'0' c && leb c b'9'
    then some (c - b'0')
    else if leb b'a' c && leb c b'f'
    then some (c - b'a' + 10)
    else if leb b'A' c && leb c b'F'
    then some (c - b'A' + 10)
    else none

abbrev pub add_digit : Option ℕ → Option ℕ → Option ℕ
add_digit none d = none
add_digit (some n) none = none
add_digit (some n) (some d) = some (n * 16 + d)

abbrev pub as_unit : Option ℕ → Option Symbol
as_unit none = none
as_unit (some n) = some (unit n)

abbrev pub unit_of : ℕ → ℕ → ℕ → ℕ → Option Symbol
unit_of a b c d =
    as_unit
      (add_digit (add_digit (add_digit (hex_value a) (hex_value b)) (hex_value c)) (hex_value d))

unfoldable mutual
  pub read_json_string : Text → ReadString
  read_json_string [] = none
  read_json_string (c ∷ input) = elim (c == b'"') [
    | true ↦ some ([], input)
    | false ↦ elim (c == b'\\') [
      | true ↦ read_escape input
      | false ↦ with_symbol (unescaped c) (read_json_string input)
    ]
  ]

  pub read_escape : Text → ReadString
  read_escape [] = none
  read_escape (c ∷ input) = elim (c == b'u') [
    | true ↦ read_unit input
    | false ↦ with_symbol (escape_of c) (read_json_string input)
  ]

  read_unit : Text → ReadString
  read_unit (a ∷ b ∷ c ∷ d ∷ input) = with_symbol (unit_of a b c d) (read_json_string input)
  read_unit _ = none

-- The control characters for which `json_escape` has an escape, and all other bytes.
abbrev pub is_covered : ℕ → Bool
is_covered c = (c == b'\n') || ((c == b'\r') || ((c == b'\t') || leb 32 c))

abbrev pub all_covered : Text → Bool
all_covered [] = true
all_covered (c ∷ text) = is_covered c && all_covered text

-- The symbols of a text without escapes.
abbrev pub bytes : Text → List Symbol
bytes [] = []
bytes (c ∷ text) = byte c ∷ bytes text

abbrev covered : ℕ → Option Symbol
covered c = if is_covered c then some (byte c) else none

module _ (rest : Text) where
  plain :
      (c : ℕ) (more : Text)
      → (c == b'\\') ≡ false
      → (c == b'"') ≡ false
      → read_json_string (c ∷ more) ≡ with_symbol (unescaped c) (read_json_string more)
  unfolding read_json_string
  plain c more e f = rw (f, e, read_json_string) refl

  plain_covered : (c : ℕ) → unescaped c ≡ (if leb 32 c then some (byte c) else none)
  plain_covered c = ground arith

  read-escaped :
      (c : ℕ) (more : Text)
      → read_json_string (escaped c ++ more) ≡ with_symbol (covered c) (read_json_string more)
  unfolding escaped read_json_string
  read-escaped c more = elim (Bool-cases (c == b'\\')) [
    | inl e ↦ rw (==→eq c b'\\' e) refl
    | inr e ↦ elim (Bool-cases (c == b'"')) [
      | inl f ↦ rw (==→eq c b'"' f) refl
      | inr f ↦ elim (Bool-cases (c == b'\n')) [
        | inl g ↦ rw (==→eq c b'\n' g) refl
        | inr g ↦ elim (Bool-cases (c == b'\r')) [
          | inl h ↦ rw (==→eq c b'\r' h) refl
          | inr h ↦ elim (Bool-cases (c == b'\t')) [
            | inl k ↦ rw (==→eq c b'\t' k) refl
            | inr k ↦
                rw (e, f, g, h, k)
                  (plain c more e f
                    ∙ ap (λ o. with_symbol o (read_json_string more)) (plain_covered c))
          ]
        ]
      ]
    ]
  ]

  abbrev if_covered : Text → ReadString
  if_covered text = if all_covered text then some (bytes text, rest) else none

  with_covered :
      (c : ℕ) (text : Text) → with_symbol (covered c) (if_covered text) ≡ if_covered (c ∷ text)
  with_covered c text = go (is_covered c) (all_covered text)
    where
      go :
          (a b : Bool)
          → with_symbol
              (if a then some (byte c) else none)
              (if b then some (bytes text, rest) else none)
            ≡ (if a && b then some (bytes (c ∷ text), rest) else none)
      go true true = refl
      go true false = refl
      go false b = refl

  read-escape_each :
      (text : Text) → read_json_string (escape_each text ++ b'"' ∷ rest) ≡ if_covered text
  unfolding read_json_string escape_each
  read-escape_each [] = refl
  read-escape_each (c ∷ text) =
      ap read_json_string (append_assoc (escaped c) (escape_each text) (b'"' ∷ rest))
      ∙ read-escaped c (escape_each text ++ b'"' ∷ rest)
      ∙ ap (with_symbol (covered c)) (read-escape_each text)
      ∙ with_covered c text

  -- By the grammar of JSON strings, what `json_escape` wrote of a text is read back, up to the quote
  -- that closes it, if the line feed, the carriage return and the tab are the only control characters
  -- of the text; with any other below 32 it is no JSON string.
  pub read_json_string-json_escape :
      (text : Text)
      → read_json_string (json_escape text ++ b'"' ∷ rest)
        ≡ (if all_covered text then some (bytes text, rest) else none)
  read_json_string-json_escape text =
      ap (λ t. read_json_string (t ++ b'"' ∷ rest)) (json_escape_each text) ∙ read-escape_each text
