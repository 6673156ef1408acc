-- ===== src/Lisp/Layout.antt =====
-- The texts that the printer lays out, and that the reader reads each of them back.
use muesli_bt.Common.{
  ℕ, zero, suc, ◌+◌, ◌*◌, ◌≤◌, ◌≡◌, refl, sym, ◌∙◌, ap, false, Option, List, [], ◌∷◌, ◌++◌,
  append_assoc, append-nil, length, length-append, ◌==◌, Text, ok, arith,
}
use muesli_bt.Value.{Value, list_from_vector}
use muesli_bt.Lisp.Printer.{escape_string}
use muesli_bt.Lisp.Reader.{
  Read, skip_ws_and_comments, atom_of, read_string, as_string, as_list, read_skipped, and_item,
  then_items, list_skipped, read_expr, read_list, all_skipped, read_expressions, read_all,
}
use muesli_bt.Lisp.Tokens.{
  IsToken, IsStart, begins, IsEnd, IsToken-IsStart, skip-IsStart, passed, read_string-escape_string,
  read_from-token,
}

module _ (strtod : Text → Option ℕ) where
  -- A text of a value, as the printer lays it out, and of the items after the first of a list.
  mutual
    pub data Writes : Value → Text → Type 0 where
      token : {text : Text} → IsToken text → Writes (atom_of strtod text) text
      string : (s : Text) → Writes (Value.string s) (b'"' ∷ (escape_string s ++ b'"' ∷ []))
      list :
          {a : Value} {items : List Value} {first rest : Text}
          → Writes a first
          → WritesRest items rest
          → Writes (Value.cons a (list_from_vector items)) (b'(' ∷ (first ++ (rest ++ b')' ∷ [])))

    pub data WritesRest : List Value → Text → Type 0 where
      nothing : WritesRest [] []
      item :
          {v : Value} {items : List Value} {text rest : Text}
          → Writes v text
          → WritesRest items rest
          → WritesRest (v ∷ items) (b' ' ∷ (text ++ rest))

  starts : {v : Value} {text : Text} → Writes v text → IsStart text
  starts (token {text} h) = IsToken-IsStart text h
  starts (string s) = refl
  starts (list w r) = refl

  -- After an item, the list goes on with a space or ends.
  rest_ends :
      {items : List Value} {text : Text} (rest : Text)
      → WritesRest items text
      → IsEnd (text ++ b')' ∷ rest)
  rest_ends rest nothing = refl
  rest_ends rest (item w r) = refl

  skip_space : (text : Text) → skip_ws_and_comments (b' ' ∷ text) ≡ skip_ws_and_comments text
  unfolding skip_ws_and_comments
  skip_space text = refl

  skip_close : (rest : Text) → skip_ws_and_comments (b')' ∷ rest) ≡ b')' ∷ rest
  unfolding skip_ws_and_comments
  skip_close rest = refl

  module _ (source : Text) where
    list_at :
        (expression : Text → Read Value) (more : Text → Read (List Value)) (text rest : Text)
        → IsStart text
        → list_skipped strtod source expression more (text ++ rest)
          ≡ then_items strtod source more (expression (text ++ rest))
    list_at expression items [] rest h = elim h [ ]
    list_at expression items (c ∷ text) rest h = passed (c == b')') _ _ (no_close c h)
      where
        no_close : (c : ℕ) → begins c ≡ false → (c == b')') ≡ false
        no_close c h = ground (arith, h)

    laid_out :
        (first more rest : Text)
        → (first ++ (more ++ b')' ∷ [])) ++ rest ≡ first ++ (more ++ b')' ∷ rest)
    laid_out first more rest =
        append_assoc first (more ++ b')' ∷ []) rest
        ∙ ap (λ t. first ++ t) (append_assoc more (b')' ∷ []) rest)

    -- The fuel that is left inside a list.
    inside :
        (first more : Text) (fuel : ℕ)
        → 2 * length (b'(' ∷ (first ++ (more ++ b')' ∷ []))) + 1 ≤ suc (suc fuel)
        → (2 * length first + 1 ≤ fuel) × (2 * length more + 1 ≤ fuel)
    inside first more fuel k =
        let a = length-append first (more ++ b')' ∷ []) in
        let b = length-append more (b')' ∷ []) in (omega (arith, k, a, b), omega (arith, k, a, b))

    after_space :
        (text rest : Text) (fuel : ℕ)
        → 2 * length (b' ' ∷ (text ++ rest)) + 1 ≤ suc fuel
        → (2 * length text + 1 ≤ fuel) × (2 * length rest + 1 ≤ fuel)
    after_space text rest fuel k =
        let a = length-append text rest in (omega (arith, k, a), omega (arith, k, a))

    mutual
      unfolding read_expr list_from_vector

      reads :
          {v : Value} {text : Text} (fuel : ℕ) (rest : Text)
          → Writes v text
          → 2 * length text + 1 ≤ fuel
          → IsEnd rest
          → read_expr strtod source fuel (text ++ rest) ≡ ok (v, rest)
      reads zero rest w k e = absurd (omega (arith, k))
      reads (suc fuel) rest (token {text} h) k e =
          ap
            (read_skipped strtod source (read_expr strtod source fuel)
              (read_list strtod source fuel))
            (skip-IsStart text rest (IsToken-IsStart text h))
          ∙ read_from-token strtod source (read_expr strtod source fuel)
              (read_list strtod source fuel) text rest h e
      reads (suc fuel) rest (string s) k e =
          ap
            (read_skipped strtod source (read_expr strtod source fuel)
              (read_list strtod source fuel))
            (skip-IsStart (b'"' ∷ (escape_string s ++ b'"' ∷ [])) rest refl)
          ∙ ap (λ t. as_string strtod source (read_string strtod source t))
              (append_assoc (escape_string s) (b'"' ∷ []) rest)
          ∙ ap (as_string strtod source) (read_string-escape_string strtod source s rest)
      reads (suc zero) rest (list w r) k e = absurd (omega (arith, k))
      reads (suc (suc fuel)) rest (list {a = a} {first = first} {rest = more} w r) k e =
          let expression = read_expr strtod source in
          let items = read_list strtod source in
          ap (read_skipped strtod source (expression (suc fuel)) (items (suc fuel)))
            (skip-IsStart (b'(' ∷ (first ++ (more ++ b')' ∷ []))) rest refl)
          ∙ ap (λ t. as_list strtod source (items (suc fuel) t)) (laid_out first more rest)
          ∙ ap
              (λ t.
                as_list strtod source (list_skipped strtod source (expression fuel) (items fuel) t))
              (skip-IsStart first (more ++ b')' ∷ rest) (starts w))
          ∙ ap (as_list strtod source)
              (list_at (expression fuel) (items fuel) first (more ++ b')' ∷ rest) (starts w))
          ∙ ap (λ x. as_list strtod source (then_items strtod source (items fuel) x))
              (reads fuel (more ++ b')' ∷ rest) w (inside first more fuel k).0 (rest_ends rest r))
          ∙ ap (λ x. as_list strtod source (and_item strtod source a x))
              (reads_rest fuel rest r (inside first more fuel k).1)

      reads_rest :
          {items : List Value} {text : Text} (fuel : ℕ) (rest : Text)
          → WritesRest items text
          → 2 * length text + 1 ≤ fuel
          → read_list strtod source fuel (text ++ b')' ∷ rest) ≡ ok (items, rest)
      reads_rest zero rest r k = absurd (omega (arith, k))
      reads_rest (suc fuel) rest nothing k =
          ap
            (list_skipped strtod source (read_expr strtod source fuel)
              (read_list strtod source fuel))
            (skip_close rest)
      reads_rest (suc fuel) rest (item {v = v} {text = text} {rest = more} w r) k =
          let expression = read_expr strtod source fuel in
          let items = read_list strtod source fuel in
          ap (list_skipped strtod source expression items)
            (skip_space ((text ++ more) ++ b')' ∷ rest))
          ∙ ap (λ t. list_skipped strtod source expression items (skip_ws_and_comments t))
              (append_assoc text more (b')' ∷ rest))
          ∙ ap (list_skipped strtod source expression items)
              (skip-IsStart text (more ++ b')' ∷ rest) (starts w))
          ∙ list_at expression items text (more ++ b')' ∷ rest) (starts w)
          ∙ ap (then_items strtod source items) (
              reads fuel (more ++ b')' ∷ rest) w (after_space text more fuel k).0
                (rest_ends rest r))
          ∙ ap (and_item strtod source v) (reads_rest fuel rest r (after_space text more fuel k).1)

    -- One expression, after which the source is empty.
    all_skipped-one :
        {v : Value} (fuel : ℕ) (text : Text)
        → IsStart text
        → read_expr strtod source (suc fuel) (text ++ []) ≡ ok (v, [])
        → all_skipped strtod source
            (read_expr strtod source (suc fuel))
            (read_expressions strtod source (suc fuel))
            (text ++ [])
          ≡ ok (v ∷ [])
    unfolding read_expressions skip_ws_and_comments
    all_skipped-one fuel [] h e = elim h [ ]
    all_skipped-one fuel (c ∷ text) h e = rw e refl

    read_expressions-Writes :
        {v : Value} {text : Text} (fuel : ℕ)
        → Writes v text
        → 2 * length text + 1 ≤ suc fuel
        → read_expressions strtod source (suc (suc fuel)) text ≡ ok (v ∷ [])
    unfolding read_expressions
    read_expressions-Writes {v} {text} fuel w k =
        ap
          (λ t.
            all_skipped strtod source (read_expr strtod source (suc fuel))
              (read_expressions strtod source (suc fuel)) (skip_ws_and_comments t))
          (sym (append-nil text))
        ∙ ap
            (all_skipped strtod source (read_expr strtod source (suc fuel))
              (read_expressions strtod source (suc fuel)))
            (skip-IsStart text [] (starts w))
        ∙ all_skipped-one fuel text (starts w) (reads (suc fuel) [] w k tt)

  -- The whole source is one expression.
  pub read_all-Writes :
      {v : Value} {text : Text} → Writes v text → read_all strtod text ≡ ok (v ∷ [])
  unfolding read_all
  read_all-Writes {v} {text} w =
      let fuel : 2 * length text + 2 ≡ suc (suc (2 * length text)) = omega arith in
      ap (λ n. read_expressions strtod text n text) fuel
      ∙ read_expressions-Writes text (2 * length text) w (omega arith)
