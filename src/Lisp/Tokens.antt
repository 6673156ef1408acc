-- ===== src/Lisp/Tokens.antt =====
-- How the reader reads a token and a string.
use muesli_bt.Common.{
  ℕ, ◌≡◌, refl, ◌∙◌, ap, Bool, true, false, ◌||◌, Bool-cases, inl, inr, Option, List, [], ◌∷◌, ◌++◌,
  All, append_assoc, ◌==◌, ==→eq, Text, ok, arith,
}
use muesli_bt.Value.{Value}
use muesli_bt.Lisp.Printer.{string_escape, escape_string}
use muesli_bt.Lisp.Reader.{
  Read, is_space, delimiter, skip_ws_and_comments, read_token, atom_of, read_atom, and_byte,
  read_string, read_skipped,
}

-- A byte that does not end a token.
abbrev pub IsInside : ℕ → Type 0
IsInside c = delimiter c ≡ false

-- A byte that begins a quotation or a string.
abbrev pub is_quote : ℕ → Bool
is_quote c = (c == b'\'') || ((c == b'`') || ((c == b',') || (c == b'"')))

-- A text that the reader takes for a token.
abbrev pub IsToken : Text → Type 0
IsToken [] = ⊥
IsToken (c ∷ text) = (is_quote c ≡ false) × All IsInside (c ∷ text)

-- What may follow a token: nothing, or a byte that ends it.
abbrev pub IsEnd : Text → Type 0
IsEnd [] = Unit
IsEnd (c ∷ rest) = delimiter c ≡ true

-- A text at which an expression begins.
abbrev pub begins : ℕ → Bool
begins c = is_space c || ((c == b';') || (c == b')'))

abbrev pub IsStart : Text → Type 0
IsStart [] = ⊥
IsStart (c ∷ text) = begins c ≡ false

pub skip-IsStart :
    (text rest : Text) → IsStart text → skip_ws_and_comments (text ++ rest) ≡ text ++ rest
unfolding skip_ws_and_comments
skip-IsStart [] rest h = elim h [ ]
skip-IsStart (c ∷ text) rest h = rw (no_space c h, no_comment c h, skip_ws_and_comments) refl
  where
    no_space : (c : ℕ) → begins c ≡ false → is_space c ≡ false
    no_space c h = ground (arith, h)

    no_comment : (c : ℕ) → begins c ≡ false → (c == b';') ≡ false
    no_comment c h = ground (arith, h)

pub IsToken-IsStart : (text : Text) → IsToken text → IsStart text
IsToken-IsStart [] h = elim h [ ]
IsToken-IsStart (c ∷ text) h = starts c h.1.0
  where
    starts : (c : ℕ) → delimiter c ≡ false → begins c ≡ false
    starts c h = ground (arith, h)

read_token-inside :
    (text rest : Text) → All IsInside text → IsEnd rest → read_token (text ++ rest) ≡ (text, rest)
unfolding read_token
read_token-inside [] [] h e = refl
read_token-inside [] (c ∷ rest) h e = rw (e, read_token) refl
read_token-inside (c ∷ text) rest h e =
    rw (h.0, read_token)
      (ap (λ (r : Text × Text). (c ∷ r.0, r.1)) (read_token-inside text rest h.1 e))

pub passed : {A : Type 0} (b : Bool) (x y : A) → b ≡ false → (elim b [ true ↦ x | false ↦ y ]) ≡ y
passed true x y e = cc
passed false x y e = refl

module _ (strtod : Text → Option ℕ) (source : Text) where
  plain :
      (c : ℕ) (more : Text)
      → (c == b'\\') ≡ false
      → (c == b'"') ≡ false
      → read_string strtod source (c ∷ more)
        ≡ and_byte strtod source c (read_string strtod source more)
  unfolding read_string
  plain c more e f = rw (f, e, read_string) refl

  read_string-escape :
      (c : ℕ) (more : Text)
      → read_string strtod source (string_escape c ++ more)
        ≡ and_byte strtod source c (read_string strtod source more)
  unfolding string_escape read_string
  read_string-escape c more = elim (Bool-cases (c == b'\\')) [
    | inl e ↦ rw (==→eq c b'\\' e) refl
    | inr e ↦ elim (Bool-cases (c == b'"')) [
      | inl f ↦ rw (==→eq c b'"' f) refl
      | inr f ↦ elim (Bool-cases (c == b'\n')) [
        | inl g ↦ rw (==→eq c b'\n' g) refl
        | inr g ↦ elim (Bool-cases (c == b'\t')) [
          | inl h ↦ rw (==→eq c b'\t' h) refl
          | inr h ↦ elim (Bool-cases (c == b'\r')) [
            | inl k ↦ rw (==→eq c b'\r' k) refl
            | inr k ↦ rw (e, f, g, h, k) (plain c more e f)
          ]
        ]
      ]
    ]
  ]

  -- The rest of a string that was written is read back.
  pub read_string-escape_string :
      (text rest : Text)
      → read_string strtod source (escape_string text ++ b'"' ∷ rest) ≡ ok (text, rest)
  unfolding read_string escape_string
  read_string-escape_string [] rest = refl
  read_string-escape_string (c ∷ text) rest =
      ap (read_string strtod source)
        (append_assoc (string_escape c) (escape_string text) (b'"' ∷ rest))
      ∙ read_string-escape c (escape_string text ++ b'"' ∷ rest)
      ∙ ap (and_byte strtod source c) (read_string-escape_string text rest)

  -- A token is read as its value, up to what ends it.
  pub read_from-token :
      (expression : Text → Read Value) (list : Text → Read (List Value)) (text rest : Text)
      → IsToken text
      → IsEnd rest
      → read_skipped strtod source expression list (text ++ rest) ≡ ok (atom_of strtod text, rest)
  unfolding read_atom
  read_from-token expression list [] rest h e = elim h [ ]
  read_from-token expression list (c ∷ text) rest h e =
      passed (c == b'(') _ _ (no_open c h.1.0)
      ∙ passed (c == b')') _ _ (no_close c h.1.0)
      ∙ passed (c == b'\'') _ _ (no_quote c h.0)
      ∙ passed (c == b'`') _ _ (no_quasi c h.0)
      ∙ passed (c == b',') _ _ (no_unquote c h.0)
      ∙ passed (c == b'"') _ _ (no_string c h.0)
      ∙ ap (λ (r : Text × Text). ok (atom_of strtod (c ∷ r.0), r.1))
          (read_token-inside text rest h.1.1 e)
    where
      no_open : (c : ℕ) → delimiter c ≡ false → (c == b'(') ≡ false
      no_open c h = ground (arith, h)

      no_close : (c : ℕ) → delimiter c ≡ false → (c == b')') ≡ false
      no_close c h = ground (arith, h)

      no_quote : (c : ℕ) → is_quote c ≡ false → (c == b'\'') ≡ false
      no_quote c h = ground (arith, h)

      no_quasi : (c : ℕ) → is_quote c ≡ false → (c == b'`') ≡ false
      no_quasi c h = ground (arith, h)

      no_unquote : (c : ℕ) → is_quote c ≡ false → (c == b',') ≡ false
      no_unquote c h = ground (arith, h)

      no_string : (c : ℕ) → is_quote c ≡ false → (c == b'"') ≡ false
      no_string c h = ground (arith, h)
