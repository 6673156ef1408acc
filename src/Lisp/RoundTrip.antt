-- ===== src/Lisp/RoundTrip.antt =====
-- What the printer writes of readable values, the reader reads back.
use muesli_bt.Common.{
  ℕ, ◌≡◌, refl, sym, ap, subst, true, false, ◌||◌, Option, List, [], ◌∷◌, ◌++◌, if-false, Text,
  codes, IsI64, ok, bind,
}
use muesli_bt.Value.{Value, list_from_vector}
use muesli_bt.Lisp.Printer.{
  is_nan, is_inf, format_float, print_impl, print_rest, write_value, in_parentheses,
}
use muesli_bt.Lisp.Reader.{atom_of, only_one, read_one}
use muesli_bt.Lisp.Digits.{atom_of-integer_text, integer_text-IsToken}
use muesli_bt.Lisp.Tokens.{IsToken}
use muesli_bt.EventLog.Json.{integer_text}
use muesli_bt.Lisp.Layout.{Writes, token, string, list, WritesRest, nothing, item, read_all-Writes}

-- The values that are written so that they can be read: constants, integers, strings, symbols and
-- floats whose text is a token that stands for them, and proper lists of these.
module _ (show : ℕ → Text) (strtod : Text → Option ℕ) where
  abbrev IsAtom : Value → Text → Type 0
  IsAtom v text = IsToken text × (atom_of strtod text ≡ v)

  unfoldable mutual
    pub IsReadable : Value → Type 0
    IsReadable Value.nil = Unit
    IsReadable (Value.boolean b) = Unit
    IsReadable (Value.integer i) = IsI64 i
    IsReadable (Value.floating d) =
        ((is_nan d || is_inf d) ≡ false) × IsAtom (Value.floating d) (format_float show d)
    IsReadable (Value.symbol name) = IsAtom (Value.symbol name) name
    IsReadable (Value.string s) = Unit
    IsReadable (Value.cons a d) = IsReadable a × IsReadableRest d
    IsReadable _ = ⊥

    IsReadableRest : Value → Type 0
    IsReadableRest Value.nil = Unit
    IsReadableRest (Value.cons a d) = IsReadable a × IsReadableRest d
    IsReadableRest _ = ⊥

  abbrev IsWritten : Value → Type 0
  IsWritten v = (text : Text) × (print_impl show true v ≡ ok text) × Writes strtod v text

  abbrev IsWrittenRest : Value → Type 0
  IsWrittenRest d =
      (items : List Value) × (text : Text) × (d ≡ list_from_vector items)
      × (print_rest show true d ≡ ok text)
      × WritesRest strtod items text

  as_token :
      (v : Value) (text : Text) → print_impl show true v ≡ ok text → IsAtom v text → IsWritten v
  as_token v text e (h, k) = (text, e, subst (λ w. Writes strtod w text) k (token h))

  written_float : (d : ℕ) → IsReadable (Value.floating d) → IsWritten (Value.floating d)
  unfolding print_impl IsReadable
  written_float d h =
      as_token (Value.floating d) (format_float show d) (if-false (is_nan d || is_inf d) _ _ h.0)
        h.1

  -- A pair is written from its first and the rest.
  print_impl-cons :
      (a d : Value) (first rest : Text)
      → print_impl show true a ≡ ok first
      → print_rest show true d ≡ ok rest
      → print_impl show true (Value.cons a d) ≡ ok (in_parentheses show first rest)
  unfolding print_impl
  print_impl-cons a d first rest e f = rw (e, f, print_impl) refl

  print_rest-cons :
      (a d : Value) (first rest : Text)
      → print_impl show true a ≡ ok first
      → print_rest show true d ≡ ok rest
      → print_rest show true (Value.cons a d) ≡ ok (b' ' ∷ (first ++ rest))
  unfolding print_impl
  print_rest-cons a d first rest e f = rw (e, f, print_impl) refl

  mutual
    unfolding print_impl IsReadable list_from_vector atom_of

    writes : (v : Value) → IsReadable v → IsWritten v
    writes Value.nil h =
        as_token Value.nil (codes "nil") refl ((refl, (refl, (refl, (refl, tt)))), refl)
    writes (Value.boolean true) h =
        as_token (Value.boolean true) (codes "#t") refl ((refl, (refl, (refl, tt))), refl)
    writes (Value.boolean false) h =
        as_token (Value.boolean false) (codes "#f") refl ((refl, (refl, (refl, tt))), refl)
    writes (Value.integer i) h =
        as_token (Value.integer i) (integer_text i) refl
          (integer_text-IsToken i, atom_of-integer_text strtod i h)
    writes (Value.floating d) h = written_float d h
    writes (Value.symbol name) h = as_token (Value.symbol name) name refl h
    writes (Value.string s) h = (_, refl, string s)
    writes (Value.cons a d) h =
        let (first, e, w) = writes a h.0 in
        let (items, rest, eq, f, r) = writes_rest d h.1 in
        (
          b'(' ∷ (first ++ (rest ++ b')' ∷ [])),
          print_impl-cons a d first rest e f,
          subst
              (λ (t : Value).
                Writes strtod (Value.cons a t) (b'(' ∷ (first ++ (rest ++ b')' ∷ []))))
              (sym eq) (list w r),
        )
    writes (Value.primitive_fn name) h = elim h [ ]
    writes Value.closure h = elim h [ ]
    writes (Value.vec n) h = elim h [ ]
    writes (Value.map n) h = elim h [ ]
    writes (Value.pq n) h = elim h [ ]
    writes Value.rng h = elim h [ ]
    writes (Value.bt_def i) h = elim h [ ]
    writes (Value.bt_instance i) h = elim h [ ]
    writes (Value.image_handle i) h = elim h [ ]
    writes (Value.blob_handle i) h = elim h [ ]

    writes_rest : (d : Value) → IsReadableRest d → IsWrittenRest d
    writes_rest Value.nil h = ([], [], refl, refl, nothing)
    writes_rest (Value.cons a d) h =
        let (text, e, w) = writes a h.0 in
        let (items, rest, eq, f, r) = writes_rest d h.1 in
        (
          a ∷ items,
          b' ' ∷ (text ++ rest),
          ap (Value.cons a) eq,
          print_rest-cons a d text rest e f,
          item w r,
        )
    writes_rest (Value.boolean b) h = elim h [ ]
    writes_rest (Value.integer i) h = elim h [ ]
    writes_rest (Value.floating d) h = elim h [ ]
    writes_rest (Value.symbol name) h = elim h [ ]
    writes_rest (Value.string s) h = elim h [ ]
    writes_rest (Value.primitive_fn name) h = elim h [ ]
    writes_rest Value.closure h = elim h [ ]
    writes_rest (Value.vec n) h = elim h [ ]
    writes_rest (Value.map n) h = elim h [ ]
    writes_rest (Value.pq n) h = elim h [ ]
    writes_rest Value.rng h = elim h [ ]
    writes_rest (Value.bt_def i) h = elim h [ ]
    writes_rest (Value.bt_instance i) h = elim h [ ]
    writes_rest (Value.image_handle i) h = elim h [ ]
    writes_rest (Value.blob_handle i) h = elim h [ ]

  -- A readable value is written, and its text is read back as the value: constants, 64-bit integers,
  -- strings, symbols and finite floats whose text is a token for them, and proper lists of these.
  pub read_one-write_value :
      (v : Value)
      → IsReadable v
      → (text : Text) × (write_value show v ≡ ok text) × (read_one strtod text ≡ ok v)
  unfolding write_value read_one
  read_one-write_value v h =
      let (text, e, w) = writes v h in
      (text, e, ap (λ r. bind r (only_one strtod)) (read_all-Writes strtod w))
